-- ===== src/Core/Value.antt =====
-- The Python values that a row can hold (minispark/core/record.py), and what the operators of the
-- language do with them. Floats and the text that `repr` gives for a value belong to the host.
use minispark.Common.{
  ℕ, String, Bool, true, false, Option, none, some, List, if◌then◌else◌, negb, Result, ok, raise,
  type_error, zero_division, codes, ltb_codes, str_eq, append_text, repeat_text,
}
use minispark.Common.Int.{ℤ, pos, negsuc, ◌+ℤ◌, ◌-ℤ◌, ◌*ℤ◌, ltb_ℤ, eqb_ℤ}

-- A float is the bit pattern of its double. A total and a count are the tuple that is the state of
-- Avg; it stands only in the rows from a partial to a final aggregate, which no operator of an
-- expression reads.
pub data Value : Type 0 where
  null : Value
  bool : Bool → Value
  int : ℤ → Value
  float : ℕ → Value
  str : String → Value
  total_and_count : Value → ℕ → Value

-- A record is a dict from column names to values; the list keeps the order of insertion.
abbrev pub Record : Type 0
Record = List (String × Value)

-- The operand of an arithmetic operator or of an order: a bool counts as an int.
pub data Number : Type 0 where
  whole : ℤ → Number
  real : ℕ → Number

pub data Comparison : Type 0 where
  greater greater_eq less less_eq : Comparison

pub data Arithmetic : Type 0 where
  plus minus times : Arithmetic

-- What the model takes from the Python interpreter: the operations in which a float takes part, and
-- `repr` of a value.
pub record Host : Type 0 where
  pub compare_floats : Comparison → Number → Number → Bool
  pub floats_equal : Number → Number → Bool
  pub float_arithmetic : Arithmetic → Number → Number → Value
  pub true_divide : Number → Number → Result Value
  pub float_is_nonzero : ℕ → Bool
  pub repr_value : Value → String

abbrev pub as_number : Value → Option Number
as_number (bool true) = some (whole (pos 1))
as_number (bool false) = some (whole (pos 0))
as_number (int z) = some (whole z)
as_number (float x) = some (real x)
as_number _ = none

unfoldable pub compare_ints : Comparison → ℤ → ℤ → Bool
compare_ints greater a b = ltb_ℤ b a
compare_ints greater_eq a b = negb (ltb_ℤ a b)
compare_ints less a b = ltb_ℤ a b
compare_ints less_eq a b = negb (ltb_ℤ b a)

unfoldable pub compare_texts : Comparison → String → String → Bool
compare_texts greater s t = ltb_codes (codes t) (codes s)
compare_texts greater_eq s t = negb (ltb_codes (codes s) (codes t))
compare_texts less s t = ltb_codes (codes s) (codes t)
compare_texts less_eq s t = negb (ltb_codes (codes t) (codes s))

unfoldable pub int_arithmetic : Arithmetic → ℤ → ℤ → ℤ
int_arithmetic plus a b = a +ℤ b
int_arithmetic minus a b = a -ℤ b
int_arithmetic times a b = a *ℤ b

-- `s * z`: a negative count gives the empty text.
unfoldable pub repeat_by : ℤ → String → String
repeat_by (pos n) s = repeat_text n s
repeat_by (negsuc n) s = ""

-- `str + str` and `str * int`, in either order; every other operand is a TypeError.
unfoldable pub text_arithmetic : Arithmetic → Value → Value → Result Value
text_arithmetic plus (str s) (str t) = ok (str (append_text s t))
text_arithmetic times (str s) (int z) = ok (str (repeat_by z s))
text_arithmetic times (int z) (str s) = ok (str (repeat_by z s))
text_arithmetic times (str s) (bool b) = ok (str (if b then s else ""))
text_arithmetic times (bool b) (str s) = ok (str (if b then s else ""))
text_arithmetic _ _ _ = raise type_error

module _ ⦃py : Host⦄ where
  -- `bool(v)`.
  unfoldable pub truthy : Value → Bool
  truthy null = false
  truthy (bool b) = b
  truthy (int z) = negb (eqb_ℤ z (pos 0))
  truthy (float x) = py.float_is_nonzero x
  truthy (str s) = negb (str_eq s "")
  truthy (total_and_count t n) = true

  unfoldable pub numbers_equal : Number → Number → Bool
  numbers_equal (whole a) (whole b) = eqb_ℤ a b
  numbers_equal a b = py.floats_equal a b

  unfoldable pub both_numbers : Option Number → Option Number → Option (Number × Number)
  both_numbers (some a) (some b) = some (a, b)
  both_numbers _ _ = none

  -- `==` of values that are not both numbers.
  unfoldable pub others_equal : Value → Value → Bool
  others_equal null null = true
  others_equal (str s) (str t) = str_eq s t
  others_equal _ _ = false

  -- `v == w`, which never raises.
  unfoldable pub values_equal : Value → Value → Bool
  unfolding numbers_equal both_numbers others_equal
  values_equal v w = elim (both_numbers (as_number v) (as_number w)) [
    | some (a, b) ↦ numbers_equal a b
    | none ↦ others_equal v w
  ]

  unfoldable pub compare_numbers : Comparison → Number → Number → Bool
  compare_numbers c (whole a) (whole b) = compare_ints c a b
  compare_numbers c a b = py.compare_floats c a b

  -- `<`, `<=`, `>`, `>=` of values that are not both numbers.
  unfoldable pub compare_others : Comparison → Value → Value → Result Bool
  compare_others c (str s) (str t) = ok (compare_texts c s t)
  compare_others c _ _ = raise type_error

  -- `<`, `<=`, `>`, `>=`.
  unfoldable pub compare_values : Comparison → Value → Value → Result Bool
  unfolding compare_numbers both_numbers compare_others
  compare_values c v w = elim (both_numbers (as_number v) (as_number w)) [
    | some (a, b) ↦ ok (compare_numbers c a b)
    | none ↦ compare_others c v w
  ]

  unfoldable pub number_arithmetic : Arithmetic → Number → Number → Value
  number_arithmetic o (whole a) (whole b) = int (int_arithmetic o a b)
  number_arithmetic o a b = py.float_arithmetic o a b

  -- `+`, `-`, `*`.
  unfoldable pub arithmetic : Arithmetic → Value → Value → Result Value
  unfolding number_arithmetic both_numbers
  arithmetic o v w = elim (both_numbers (as_number v) (as_number w)) [
    | some (a, b) ↦ ok (number_arithmetic o a b)
    | none ↦ text_arithmetic o v w
  ]

  unfoldable pub divide_numbers : Number → Number → Result Value
  divide_numbers a (whole b) =
      if eqb_ℤ b (pos 0) then raise zero_division else py.true_divide a (whole b)
  divide_numbers a b = py.true_divide a b

  -- `/`.
  unfoldable pub divide : Value → Value → Result Value
  unfolding divide_numbers both_numbers
  divide v w = elim (both_numbers (as_number v) (as_number w)) [
    | some (a, b) ↦ divide_numbers a b
    | none ↦ raise type_error
  ]

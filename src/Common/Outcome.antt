-- ===== src/Common/Outcome.antt =====
-- A Python computation without effects: a value, or a raised exception.
use Prim.Native.Nat.{ℕ}
use Prim.Native.String.{String}
use mathlib.Core.Path.{◌≡◌, refl, subst}
use mathlib.Core.Logic.{◌⊎◌, inl, inr}
use mathlib.Core.List.{List, [], ◌∷◌}
use mathlib.Core.Bool.{Bool, true, false}

-- The exception classes that the program raises or lets through, with the field that a handler
-- reads. Their messages are left out.
pub data Exception : Type 0 where
  key_error : String → Exception
  type_error value_error zero_division overflow not_implemented assertion : Exception
  index_error runtime_error : Exception
  analysis_exception : Exception
  sql_lex_error sql_parse_error : Exception
  file_not_found shuffle_checksum : Exception
  missing_shuffle_data : (stage_id target_partition : ℕ) → Exception
  task_execution : Exception

pub data Result {ℓ} (A : Type ℓ) : Type ℓ where
  raise : Exception → Result A
  ok : A → Result A

-- `if not test: raise why`.
abbrev pub guard : Bool → Exception → Result (Unit {0})
guard false why = raise why
guard true why = ok tt

module _ {ℓ κ} {A : Type ℓ} {B : Type κ} where
  infixl 5 ◌>>=◌
  -- The next statement runs on the value; an exception skips it.
  abbrev pub ◌>>=◌ : Result A → (A → Result B) → Result B
  raise why >>= next = raise why
  ok value >>= next = next value

  -- The value that the next statement ran on, where the whole gave one.
  pub >>=-eq-ok :
      (first : Result A) (next : A → Result B) {result : B}
      → (first >>= next) ≡ ok result
      → (value : A) × (first ≡ ok value) × (next value ≡ ok result)
  >>=-eq-ok (raise why) next h = cc
  >>=-eq-ok (ok value) next h = (value, refl, h)

module _ {ℓ κ} {A : Type ℓ} {B : Type κ} where
  -- A list comprehension whose element may raise.
  abbrev pub map_result : (A → Result B) → List A → Result (List B)
  map_result f [] = ok []
  map_result f (x ∷ xs) = f x >>= λ y. map_result f xs >>= λ ys. ok (y ∷ ys)

infixl 5 ◌>>◌
abbrev pub ◌>>◌ {κ} : {B : Type κ} → Result (Unit {0}) → Result B → Result B
raise why >> rest = raise why
ok _ >> rest = rest

pub ok-injective {ℓ} : {A : Type ℓ} {a b : A} → ok a ≡ ok b → a ≡ b
ok-injective h = cc

-- Two lists of one length, related item by item.
abbrev pub All₂ {ℓ κ} : {A : Type ℓ} {B : Type κ} → (A → B → Type 0) → List A → List B → Type 0
All₂ R [] [] = Unit
All₂ R (x ∷ xs) (y ∷ ys) = R x y × All₂ R xs ys
All₂ R _ _ = ⊥

module _ {ℓ κ} {A : Type ℓ} {B : Type κ} where
  pub map_result-All₂ :
      (R : A → B → Type 0) (f : A → Result B) (xs : List A) (ys : List B)
      → ((x : A) (y : B) → f x ≡ ok y → R x y)
      → map_result f xs ≡ ok ys
      → All₂ R xs ys
  map_result-All₂ R f [] [] step h = tt
  map_result-All₂ R f [] (y ∷ ys) step h = cc
  map_result-All₂ R f (x ∷ xs) [] step h =
      let (y, p, h') = >>=-eq-ok (f x) _ h in
      let (zs, q, h'') = >>=-eq-ok (map_result f xs) _ h' in cc
  map_result-All₂ R f (x ∷ xs) (y ∷ ys) step h =
      let (z, p, h') = >>=-eq-ok (f x) _ h in
      let (zs, q, h'') = >>=-eq-ok (map_result f xs) _ h' in
      (step x y (cc), map_result-All₂ R f xs ys step (cc))

-- `Q` holds of the value, if there is one.
abbrev pub OnOk {ℓ} : {A : Type ℓ} → (A → Type 0) → Result A → Type 0
OnOk Q (ok a) = Q a
OnOk Q (raise e) = Unit

module _ {ℓ} {A : Type ℓ} where
  pub OnOk-value : (Q : A → Type 0) {m : Result A} {a : A} → OnOk Q m → m ≡ ok a → Q a
  OnOk-value Q h e = subst (OnOk Q) e h

  pub OnOk-map : (P Q : A → Type 0) (m : Result A) → ((a : A) → P a → Q a) → OnOk P m → OnOk Q m
  OnOk-map P Q (ok a) f h = f a h
  OnOk-map P Q (raise e) f h = tt

  pub OnOk-bind {κ} :
      {B : Type κ} (P : A → Type 0) (Q : B → Type 0) (m : Result A) (f : A → Result B)
      → OnOk P m
      → ((a : A) → P a → OnOk Q (f a))
      → OnOk Q (m >>= f)
  OnOk-bind P Q (ok a) f h k = k a h
  OnOk-bind P Q (raise e) f h k = tt

pub bind-ok {ℓ} : {A : Type ℓ} (m : Result A) → m ≡ (m >>= λ v. ok v)
bind-ok (ok a) = refl
bind-ok (raise x) = refl

pub Result-cases {ℓ} :
    {A : Type ℓ} (m : Result A) → ((a : A) × (m ≡ ok a)) ⊎ ((e : Exception) × (m ≡ raise e))
Result-cases (ok a) = inl (a, refl)
Result-cases (raise e) = inr (e, refl)

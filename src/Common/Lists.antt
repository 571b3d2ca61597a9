-- ===== src/Common/Lists.antt =====
-- Lists measured by native numbers, predicates over lists, and lists of names used as sets.
use Prim.Native.Nat.{ℕ, zero, suc, ◌+◌}
use Prim.Native.String.{String}
use mathlib.Core.Path.{◌≡◌, refl, ap, ◌∙◌}
use mathlib.Core.Bool.{Bool, true, false, ◌&&◌, ◌||◌}
use mathlib.Core.List.{List, [], ◌∷◌, ◌++◌}
use mathlib.Core.Option.{Option, none, some}
use native.Mathlib.Omega.{arith}
use text.Mathlib.Text.{◌==◌ as str_eq}
use minispark.Common.Tests.{if◌then◌else◌}

module _ {ℓ} {A : Type ℓ} where
  abbrev pub length : List A → ℕ
  length [] = 0
  length (x ∷ xs) = suc (length xs)

  abbrev pub get_elem? : List A → ℕ → Option A
  get_elem? [] i = none
  get_elem? (x ∷ xs) zero = some x
  get_elem? (x ∷ xs) (suc i) = get_elem? xs i

  abbrev pub All {κ} : (A → Type κ) → List A → Type κ
  All P [] = Unit
  All P (x ∷ xs) = P x × All P xs

  -- `[x for x in xs if test(x)]`.
  abbrev pub keep_if : (A → Bool) → List A → List A
  keep_if test [] = []
  keep_if test (x ∷ xs) = let rest = keep_if test xs in if test x then x ∷ rest else rest

  abbrev pub any : (A → Bool) → List A → Bool
  any test [] = false
  any test (x ∷ xs) = test x || any test xs

  abbrev pub all : (A → Bool) → List A → Bool
  all test [] = true
  all test (x ∷ xs) = test x && all test xs

  pub append_assoc : (xs ys zs : List A) → (xs ++ ys) ++ zs ≡ xs ++ (ys ++ zs)
  append_assoc [] ys zs = refl
  append_assoc (x ∷ xs) ys zs = ap (λ r. x ∷ r) (append_assoc xs ys zs)

  pub append_nil : (xs : List A) → xs ++ [] ≡ xs
  append_nil [] = refl
  append_nil (x ∷ xs) = ap (λ r. x ∷ r) (append_nil xs)

  pub keep_if-append :
      (test : A → Bool) (xs : List A) (r : A)
      → (b : Bool) → test r ≡ b
      → keep_if test (xs ++ (r ∷ [])) ≡ (if b then keep_if test xs ++ (r ∷ []) else keep_if test xs)
  keep_if-append test [] r true e = ap (λ b. if b then r ∷ [] else []) e
  keep_if-append test [] r false e = ap (λ b. if b then r ∷ [] else []) e
  keep_if-append test (x ∷ xs) r b e =
      ap (λ k. if test x then x ∷ k else k) (keep_if-append test xs r b e) ∙ push (test x) b
    where
      push :
          (c b : Bool)
          → (if c
              then x ∷ (if b then keep_if test xs ++ (r ∷ []) else keep_if test xs)
              else (if b then keep_if test xs ++ (r ∷ []) else keep_if test xs))
            ≡ (if b
                then (if c then x ∷ keep_if test xs else keep_if test xs) ++ (r ∷ [])
                else (if c then x ∷ keep_if test xs else keep_if test xs))
      push true true = refl
      push true false = refl
      push false true = refl
      push false false = refl

  pub All-keep_if {κ} :
      (P : A → Type κ) (test : A → Bool) (xs : List A) → All P xs → All P (keep_if test xs)
  All-keep_if P test [] h = tt
  All-keep_if P test (x ∷ xs) h = keep (test x) (All-keep_if P test xs h.1)
    where
      keep :
          (b : Bool)
          → All P (keep_if test xs)
          → All P (if b then x ∷ keep_if test xs else keep_if test xs)
      keep true rest = (h.0, rest)
      keep false rest = rest

  pub length-append : (xs ys : List A) → length (xs ++ ys) ≡ length xs + length ys
  length-append [] ys = omega arith
  length-append (x ∷ xs) ys = omega (arith, length-append xs ys)

module _ {ℓ} {A : Type ℓ} where
  pub length-map {κ} :
      {B : Type κ} (f : B → A) (xs : List B) → length (mathlib.Core.List.map f xs) ≡ length xs
  length-map f [] = refl
  length-map f (x ∷ xs) = ap suc (length-map f xs)

  pub All-append_left {κ} : (P : A → Type κ) (xs ys : List A) → All P (xs ++ ys) → All P xs
  All-append_left P [] ys h = tt
  All-append_left P (x ∷ xs) ys h = (h.0, All-append_left P xs ys h.1)

  pub All-append_right {κ} : (P : A → Type κ) (xs ys : List A) → All P (xs ++ ys) → All P ys
  All-append_right P [] ys h = h
  All-append_right P (x ∷ xs) ys h = All-append_right P xs ys h.1

  pub All-append {κ} : (P : A → Type κ) (xs ys : List A) → All P xs → All P ys → All P (xs ++ ys)
  All-append P [] ys h k = k
  All-append P (x ∷ xs) ys h k = (h.0, All-append P xs ys h.1 k)

  pub All-map {κ μ} :
      {P : A → Type κ} {Q : A → Type μ}
      → ((a : A) → P a → Q a)
      → (xs : List A) → All P xs
      → All Q xs
  All-map f [] h = tt
  All-map f (x ∷ xs) h = (f x h.0, All-map f xs h.1)

pub and_left : (a b : Bool) → (a && b) ≡ true → a ≡ true
and_left true b h = refl
and_left false b h = h

pub and_right : (a b : Bool) → (a && b) ≡ true → b ≡ true
and_right true b h = h
and_right false b h = cc

pub and_true : (b : Bool) → (b && true) ≡ b
and_true true = refl
and_true false = refl

pub and_false : (b : Bool) → (b && false) ≡ false
and_false true = refl
and_false false = refl

-- `name in names`.
unfoldable pub mem_name : String → List String → Bool
mem_name n [] = false
mem_name n (m ∷ ms) = str_eq n m || mem_name n ms

-- `names <= others`, for sets.
unfoldable pub subset_names : List String → List String → Bool
subset_names [] others = true
subset_names (n ∷ ns) others = mem_name n others && subset_names ns others

-- `len(set(names)) != len(names)`, and the loops that keep a set of the names seen.
unfoldable pub has_duplicates : List String → Bool
unfolding mem_name
has_duplicates [] = false
has_duplicates (n ∷ ns) = mem_name n ns || has_duplicates ns

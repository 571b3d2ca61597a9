-- ===== src/Physical/Operators/Sorting/Ordered.antt =====
-- A stable sort gives the items again, in the order of the comparison.
use minispark.Common.{
  Bool, true, false, List, [], ◌∷◌, ◌≡◌, refl, ap, sym, ◌∙◌, subst, Result, ok, ◌>>=◌, >>=-eq-ok,
  ok-injective, All, ◌⊎◌, inl, inr,
}
use mathlib.Core.List.{Perm}
use mathlib.Core.List.Perm
use minispark.Physical.Operators.Sorting.{insert_item, stable_sort}

module _ {A : Type 0} (before : A → A → Result Bool) where
  -- No item comes before the one in front of it.
  abbrev pub InOrder : List A → Type 0
  InOrder [] = Unit
  InOrder (x ∷ []) = Unit
  InOrder (x ∷ y ∷ ys) = (before y x ≡ ok false) × InOrder (y ∷ ys)

  abbrev pub IsAsymmetric : (A → Type 0) → Type 0
  IsAsymmetric P = (a b : A) → P a → P b → before a b ≡ ok true → before b a ≡ ok false

  abbrev Follows : A → List A → Type 0
  Follows x [] = Unit
  Follows x (y ∷ ys) = before y x ≡ ok false

  InOrder-cons : (x : A) (ys : List A) → Follows x ys → InOrder ys → InOrder (x ∷ ys)
  InOrder-cons x [] f h = tt
  InOrder-cons x (y ∷ ys) f h = (f, h)

  InOrder-tail : (x : A) (ys : List A) → InOrder (x ∷ ys) → Follows x ys × InOrder ys
  InOrder-tail x [] h = (tt, tt)
  InOrder-tail x (y ∷ ys) h = h

  -- Where an item goes: behind the first one, or in front of it.
  insert_item-cases :
      (x y : A) (ys : List A) {out : List A}
      → insert_item before x (y ∷ ys) ≡ ok out
      → ((rest : List A) × (insert_item before x ys ≡ ok rest)
          × (before y x ≡ ok true)
          × (y ∷ rest ≡ out))
        ⊎ ((before y x ≡ ok false) × (x ∷ y ∷ ys ≡ out))
  unfolding insert_item
  insert_item-cases x y ys {out} h =
      let (first, e, h') = >>=-eq-ok (before y x) _ h in go first e h'
    where
      go :
          (first : Bool)
          → before y x ≡ ok first
          → (elim first [
            | true ↦ insert_item before x ys >>= λ rest. ok (y ∷ rest)
            | false ↦ ok (x ∷ y ∷ ys)
          ])
            ≡ ok out
          → ((rest : List A) × (insert_item before x ys ≡ ok rest)
              × (before y x ≡ ok true)
              × (y ∷ rest ≡ out))
            ⊎ ((before y x ≡ ok false) × (x ∷ y ∷ ys ≡ out))
      go true e h =
          let (rest, e₁, h₁) = >>=-eq-ok (insert_item before x ys) _ h in
          inl (rest, e₁, e, ok-injective h₁)
      go false e h = inr (e, ok-injective h)

  insert_item-Perm :
      (x : A) (ys : List A) {out : List A} → insert_item before x ys ≡ ok out → Perm out (x ∷ ys)
  unfolding insert_item
  insert_item-Perm x [] h = subst (λ l. Perm l (x ∷ [])) (ok-injective h) Perm.rfl
  insert_item-Perm x (y ∷ ys) h = elim (insert_item-cases x y ys h) [
    | inl (rest, e, _, same) ↦
        subst (λ l. Perm l (x ∷ y ∷ ys)) same
          (Perm.trans (Perm.cons y (insert_item-Perm x ys e)) (Perm.swap x y ys))
    | inr (_, same) ↦ subst (λ l. Perm l (x ∷ y ∷ ys)) same Perm.rfl
  ]

  insert_item-Follows :
      (z x : A) (ys : List A) {out : List A}
      → insert_item before x ys ≡ ok out
      → before x z ≡ ok false
      → Follows z ys
      → Follows z out
  unfolding insert_item
  insert_item-Follows z x [] h f g = subst (Follows z) (ok-injective h) f
  insert_item-Follows z x (y ∷ ys) h f g = elim (insert_item-cases x y ys h) [
    | inl (rest, _, _, same) ↦ subst (Follows z) same g
    | inr (_, same) ↦ subst (Follows z) same f
  ]

  insert_item-All :
      (P : A → Type 0) (x : A) (ys : List A) {out : List A}
      → insert_item before x ys ≡ ok out
      → P x
      → All P ys
      → All P out
  unfolding insert_item
  insert_item-All P x [] h p ps = subst (All P) (ok-injective h) (p, tt)
  insert_item-All P x (y ∷ ys) h p ps = elim (insert_item-cases x y ys h) [
    | inl (rest, e, _, same) ↦ subst (All P) same (ps.0, insert_item-All P x ys e p ps.1)
    | inr (_, same) ↦ subst (All P) same (p, ps)
  ]

  insert_item-InOrder :
      (P : A → Type 0) (x : A) (ys : List A) {out : List A}
      → IsAsymmetric P
      → P x
      → All P ys
      → insert_item before x ys ≡ ok out
      → InOrder ys
      → InOrder out
  unfolding insert_item
  insert_item-InOrder P x [] asym p ps h o = subst InOrder (ok-injective h) tt
  insert_item-InOrder P x (y ∷ ys) asym p ps h o =
      let (f, o') = InOrder-tail y ys o in
      elim (insert_item-cases x y ys h) [
        | inl (rest, e, less, same) ↦ subst InOrder same (
            InOrder-cons y rest (insert_item-Follows y x ys e (asym y x ps.0 p less) f)
              (insert_item-InOrder P x ys asym p ps.1 e o'))
        | inr (e, same) ↦ subst InOrder same (e, o)
      ]

  pub stable_sort-Perm : (xs : List A) {out : List A} → stable_sort before xs ≡ ok out → Perm out xs
  unfolding stable_sort
  stable_sort-Perm [] h = subst (λ l. Perm l []) (ok-injective h) Perm.rfl
  stable_sort-Perm (x ∷ xs) h =
      let (rest, e, h') = >>=-eq-ok (stable_sort before xs) _ h in
      Perm.trans (insert_item-Perm x rest h') (Perm.cons x (stable_sort-Perm xs e))

  pub stable_sort-All :
      (P : A → Type 0) (xs : List A) {out : List A}
      → stable_sort before xs ≡ ok out
      → All P xs
      → All P out
  unfolding stable_sort
  stable_sort-All P [] h ps = subst (All P) (ok-injective h) tt
  stable_sort-All P (x ∷ xs) h ps =
      let (rest, e, h') = >>=-eq-ok (stable_sort before xs) _ h in
      insert_item-All P x rest h' ps.0 (stable_sort-All P xs e ps.1)

  pub stable_sort-InOrder :
      (P : A → Type 0) (xs : List A) {out : List A}
      → IsAsymmetric P
      → All P xs
      → stable_sort before xs ≡ ok out
      → InOrder out
  unfolding stable_sort
  stable_sort-InOrder P [] asym ps h = subst InOrder (ok-injective h) tt
  stable_sort-InOrder P (x ∷ xs) asym ps h =
      let (rest, e, h') = >>=-eq-ok (stable_sort before xs) _ h in
      insert_item-InOrder P x rest asym ps.0 (stable_sort-All P xs e ps.1) h'
        (stable_sort-InOrder P xs asym ps.1 e)

  -- Where items that satisfy `P` compare, sorting them gives a list.
  abbrev pub Compares : (A → Type 0) → Type 0
  Compares P = (a b : A) → P a → P b → (r : Bool) × (before a b ≡ ok r)

  insert_item-total :
      (P : A → Type 0) (x : A) (ys : List A)
      → Compares P
      → P x
      → All P ys
      → (out : List A) × (insert_item before x ys ≡ ok out)
  unfolding insert_item
  insert_item-total P x [] total p ps = (x ∷ [], refl)
  insert_item-total P x (y ∷ ys) total p ps =
      let (first, e) = total y x ps.0 p in
      let (rest, e₁) = insert_item-total P x ys total p ps.1 in
      subst
        (λ m.
          (out : List A) × ((m >>= λ first. elim first [
            | true ↦ insert_item before x ys >>= λ rest. ok (y ∷ rest)
            | false ↦ ok (x ∷ y ∷ ys)
          ])
            ≡ ok out))
        (sym e) (go first rest e₁)
    where
      go :
          (first : Bool) (rest : List A)
          → insert_item before x ys ≡ ok rest
          → (out : List A) × ((elim first [
            | true ↦ insert_item before x ys >>= λ rest. ok (y ∷ rest)
            | false ↦ ok (x ∷ y ∷ ys)
          ])
              ≡ ok out)
      go true rest e = (y ∷ rest, ap (λ m. m >>= λ rest. ok (y ∷ rest)) e)
      go false rest e = (x ∷ y ∷ ys, refl)

  pub stable_sort-total :
      (P : A → Type 0) (xs : List A)
      → Compares P
      → All P xs
      → (out : List A) × (stable_sort before xs ≡ ok out)
  unfolding stable_sort
  stable_sort-total P [] total ps = ([], refl)
  stable_sort-total P (x ∷ xs) total ps =
      let (rest, e) = stable_sort-total P xs total ps.1 in
      let (out, e₁) = insert_item-total P x rest total ps.0 (stable_sort-All P xs e ps.1) in
      (out, ap (λ m. m >>= insert_item before x) e ∙ e₁)

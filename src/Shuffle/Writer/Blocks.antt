-- ===== src/Shuffle/Writer/Blocks.antt =====
-- The open blocks of a shuffle write: which one a target partition has.
use minispark.Common.{
  ==-swap, ==-refl, ℕ, true, false, Option, none, some, [], ◌∷◌, if◌then◌else◌, ◌==◌, ==_iff,
  Bool-cases, inl, inr, ◌≡◌, refl, sym, ap, ◌∙◌, subst,
}
use minispark.Core.Value.{Record}
use minispark.Shuffle.Writer.{
  PickleHost, BlockPath, BlockWriter, open_block, Writers, write, write_to,
}

unfoldable pub view : ℕ → Writers → Option BlockWriter
view t [] = none
view t ((u, w) ∷ ws) = let rest = view t ws in if u == t then some w else rest

pub view-hit :
    (t u : ℕ) (w : BlockWriter) (ws : Writers) → (u == t) ≡ true → view t ((u, w) ∷ ws) ≡ some w
unfolding view
view-hit t u w ws e = ap (λ b. if b then some w else view t ws) e

pub view-miss :
    (t u : ℕ) (w : BlockWriter) (ws : Writers) → (u == t) ≡ false → view t ((u, w) ∷ ws) ≡ view t ws
unfolding view
view-miss t u w ws e = ap (λ b. if b then some w else view t ws) e

abbrev pub start : BlockPath → Option BlockWriter → BlockWriter
start p none = open_block p
start p (some w) = w

-- One block for each target.
abbrev pub IsDistinct : Writers → Type 0
IsDistinct [] = Unit
IsDistinct ((t, w) ∷ ws) = (view t ws ≡ none) × IsDistinct ws

module _ ⦃pickle : PickleHost⦄ where
  pub write_to-hit :
      (p : BlockPath) (target : ℕ) (r : Record) (t : ℕ) (w : BlockWriter) (ws : Writers)
      → (t == target) ≡ true
      → write_to p target r ((t, w) ∷ ws) ≡ (t, write w r) ∷ ws
  unfolding write_to
  write_to-hit p target r t w ws e =
      ap (λ b. if b then (t, write w r) ∷ ws else (t, w) ∷ write_to p target r ws) e

  pub write_to-miss :
      (p : BlockPath) (target : ℕ) (r : Record) (t : ℕ) (w : BlockWriter) (ws : Writers)
      → (t == target) ≡ false
      → write_to p target r ((t, w) ∷ ws) ≡ (t, w) ∷ write_to p target r ws
  unfolding write_to
  write_to-miss p target r t w ws e =
      ap (λ b. if b then (t, write w r) ∷ ws else (t, w) ∷ write_to p target r ws) e

  -- The target's block takes the row.
  pub view-write_to :
      (p : BlockPath) (t : ℕ) (r : Record) (ws : Writers)
      → view t (write_to p t r ws) ≡ some (write (start p (view t ws)) r)
  unfolding view write_to
  view-write_to p t r [] = view-hit t t (write (open_block p) r) [] (==-refl t)
  view-write_to p t r ((u, w) ∷ ws) = elim (Bool-cases (u == t)) [
    | inl e ↦
        ap (view t) (write_to-hit p t r u w ws e)
        ∙ (view-hit t u (write w r) ws e
            ∙ sym (ap (λ o. some (write (start p o) r)) (view-hit t u w ws e)))
    | inr f ↦
        ap (view t) (write_to-miss p t r u w ws f)
        ∙ (view-miss t u w (write_to p t r ws) f
            ∙ (view-write_to p t r ws
                ∙ sym (ap (λ o. some (write (start p o) r)) (view-miss t u w ws f))))
  ]

  -- Every other block stays.
  pub view-write_to_other :
      (p : BlockPath) (t u : ℕ) (r : Record) (ws : Writers)
      → (u == t) ≡ false
      → view t (write_to p u r ws) ≡ view t ws
  unfolding view write_to
  view-write_to_other p t u r [] f = view-miss t u (write (open_block p) r) [] f
  view-write_to_other p t u r ((x, w) ∷ ws) f = elim (Bool-cases (x == u)) [
    | inl e ↦
        let g : (x == t) ≡ false = subst (λ y. (y == t) ≡ false) (sym ((==_iff x u).0 e)) f in
        ap (view t) (write_to-hit p u r x w ws e)
        ∙ (view-miss t x (write w r) ws g ∙ sym (view-miss t x w ws g))
    | inr e ↦
        ap (view t) (write_to-miss p u r x w ws e)
        ∙ ap (λ o. if x == t then some w else o) (view-write_to_other p t u r ws f)
  ]

  pub write_to-IsDistinct :
      (p : BlockPath) (u : ℕ) (r : Record) (ws : Writers)
      → IsDistinct ws
      → IsDistinct (write_to p u r ws)
  unfolding view write_to
  write_to-IsDistinct p u r [] h = (refl, tt)
  write_to-IsDistinct p u r ((x, w) ∷ ws) h = elim (Bool-cases (x == u)) [
    | inl e ↦ subst IsDistinct (sym (write_to-hit p u r x w ws e)) h
    | inr f ↦ subst IsDistinct (sym (write_to-miss p u r x w ws f)) (
      view-write_to_other p x u r ws (==-swap x u false f) ∙ h.0,
      write_to-IsDistinct p u r ws h.1,
    )
  ]

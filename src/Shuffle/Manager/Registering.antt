-- ===== src/Shuffle/Manager/Registering.antt =====
-- Registering the blocks of a stage, the first time or again.
use minispark.Common.{
  ℕ, Bool, true, false, List, [], ◌∷◌, keep_if, if◌then◌else◌, ◌==◌, ==-refl, ==_iff, Bool-cases,
  inl, inr, ◌≡◌, sym, ap, ◌∙◌, subst,
}
use minispark.Shuffle.Writer.{ShuffleBlockMeta}
use minispark.Shuffle.Manager.{Registry, blocks_of, register_blocks, blocks_for}

blocks_of-hit :
    (s x : ℕ) (bs : List ShuffleBlockMeta) (rest : Registry)
    → (x == s) ≡ true
    → blocks_of s ((x, bs) ∷ rest) ≡ bs
unfolding blocks_of
blocks_of-hit s x bs rest e = ap (λ b. if b then bs else blocks_of s rest) e

blocks_of-miss :
    (s x : ℕ) (bs : List ShuffleBlockMeta) (rest : Registry)
    → (x == s) ≡ false
    → blocks_of s ((x, bs) ∷ rest) ≡ blocks_of s rest
unfolding blocks_of
blocks_of-miss s x bs rest e = ap (λ b. if b then bs else blocks_of s rest) e

register_blocks-step :
    (s x : ℕ) (bs old : List ShuffleBlockMeta) (rest : Registry) (b : Bool)
    → (x == s) ≡ b
    → register_blocks s bs ((x, old) ∷ rest)
      ≡ (if b then (s, bs) ∷ rest else (x, old) ∷ register_blocks s bs rest)
unfolding register_blocks
register_blocks-step s x bs old rest b e =
    ap (λ b. if b then (s, bs) ∷ rest else (x, old) ∷ register_blocks s bs rest) e

blocks_of-register_blocks :
    (s : ℕ) (bs : List ShuffleBlockMeta) (reg : Registry)
    → blocks_of s (register_blocks s bs reg) ≡ bs
unfolding register_blocks
blocks_of-register_blocks s bs [] = blocks_of-hit s s bs [] (==-refl s)
blocks_of-register_blocks s bs ((x, old) ∷ rest) = elim (Bool-cases (x == s)) [
  | inl e ↦
      ap (blocks_of s) (register_blocks-step s x bs old rest true e)
      ∙ blocks_of-hit s s bs rest (==-refl s)
  | inr f ↦
      ap (blocks_of s) (register_blocks-step s x bs old rest false f)
      ∙ (blocks_of-miss s x old (register_blocks s bs rest) f ∙ blocks_of-register_blocks s bs rest)
]

blocks_of-later :
    (t x : ℕ) (old : List ShuffleBlockMeta) (reg reg' : Registry)
    → blocks_of t reg ≡ blocks_of t reg'
    → blocks_of t ((x, old) ∷ reg) ≡ blocks_of t ((x, old) ∷ reg')
unfolding blocks_of
blocks_of-later t x old reg reg' h = ap (λ k. if x == t then old else k) h

blocks_of-other :
    (s t : ℕ) (bs : List ShuffleBlockMeta) (reg : Registry)
    → (s == t) ≡ false
    → blocks_of t (register_blocks s bs reg) ≡ blocks_of t reg
unfolding register_blocks
blocks_of-other s t bs [] f = blocks_of-miss t s bs [] f
blocks_of-other s t bs ((x, old) ∷ rest) f = elim (Bool-cases (x == s)) [
  | inl e ↦
      let g : (x == t) ≡ false = subst (λ y. (y == t) ≡ false) (sym ((==_iff x s).0 e)) f in
      ap (blocks_of t) (register_blocks-step s x bs old rest true e)
      ∙ (blocks_of-miss t s bs rest f ∙ sym (blocks_of-miss t x old rest g))
  | inr e ↦
      ap (blocks_of t) (register_blocks-step s x bs old rest false e)
      ∙ blocks_of-later t x old (register_blocks s bs rest) rest (blocks_of-other s t bs rest f)
]

-- After a stage's blocks are registered, for the first time or again, the blocks for a target of the
-- stage are those of the new blocks that have the target, none of the old; another stage keeps its own.
pub blocks_for-register_blocks :
    (s t target : ℕ) (bs : List ShuffleBlockMeta) (reg : Registry)
    → (s == t) ≡ false
    → (blocks_for (register_blocks s bs reg) s target
        ≡ keep_if (λ b. b.target_partition == target) bs)
      × (blocks_for (register_blocks s bs reg) t target ≡ blocks_for reg t target)
unfolding blocks_for
blocks_for-register_blocks s t target bs reg f = (
  ap (keep_if (λ b. b.target_partition == target)) (blocks_of-register_blocks s bs reg),
  ap (keep_if (λ b. b.target_partition == target)) (blocks_of-other s t bs reg f),
)

-- ===== src/Shuffle/Partitioner/Bisect.antt =====
-- `bisect_right` of the range partitioner: it stops, and finds where the boundaries pass the key.
use minispark.Common.{
  ℕ, zero, suc, ◌+◌, ◌/◌, ◌≤◌, ◌<◌, arith, Bool, true, false, some, List, [], ◌∷◌, length,
  get_elem?, ◌≡◌, refl, ◌∙◌, Bool-cases, inl, inr, ltb, ltb→lt, Result, ok, Result-cases, none,
  raise, ap, sym, subst, ◌>>=◌,
}
use minispark.Shuffle.Partitioner.{
  KeyHost, halve, compare_middle, narrow, bisect_loop, bisect_right,
}

pub get_elem?-lt :
    {A : Type 0} (a : List A) (n : ℕ) → n < length a → (b : A) × (get_elem? a n ≡ some b)
get_elem?-lt [] n h = absurd (omega arith)
get_elem?-lt (x ∷ xs) zero h = (x, refl)
get_elem?-lt (x ∷ xs) (suc n) h = get_elem?-lt xs n (omega arith)

get_elem?-none :
    {A : Type 0} (a : List A) (n : ℕ) (b : A) → length a ≤ n → get_elem? a n ≡ some b → ⊥
get_elem?-none [] n b h p = cc
get_elem?-none (x ∷ xs) zero b h p = omega arith
get_elem?-none (x ∷ xs) (suc n) b h p = get_elem?-none xs n b (omega arith) p

ltb-false : (lo hi j : ℕ) → ltb lo hi ≡ false → lo ≤ j → hi ≤ j
ltb-false lo hi j h k = ground arith

ok_true-false : ok true ≡ ok false → ⊥
ok_true-false h = cc

halve-le :
    (v : Bool) (lo hi fuel : ℕ)
    → lo < hi
    → hi ≤ lo + suc fuel
    → (halve v lo hi).1 ≤ (halve v lo hi).0 + fuel
unfolding halve
halve-le true lo hi fuel l h = omega arith
halve-le false lo hi fuel l h = omega arith

halve-ordered :
    (v : Bool) (lo hi : ℕ)
    → lo < hi
    → ((halve v lo hi).0 ≤ (halve v lo hi).1) × ((halve v lo hi).1 ≤ hi)
unfolding halve
halve-ordered true lo hi l = (omega arith, omega arith)
halve-ordered false lo hi l = (omega arith, omega arith)

module _ {Key : Type 0} ⦃host : KeyHost Key⦄ where
  -- The key compares with every boundary.
  abbrev pub IsComparable : List Key → Key → Type 0
  IsComparable a key =
      (j : ℕ) (b : Key) → get_elem? a j ≡ some b → (v : Bool) × (host.is_less key b ≡ ok v)

  -- From the first boundary above the key on, all are.
  abbrev pub IsSortedFor : List Key → Key → Type 0
  IsSortedFor a key =
      (j k : ℕ) (b c : Key)
      → j ≤ k
      → get_elem? a j ≡ some b
      → get_elem? a k ≡ some c
      → host.is_less key b ≡ ok true
      → host.is_less key c ≡ ok true

  -- No boundary before `lo` is above the key.
  abbrev pub NoneAbove : List Key → Key → ℕ → Type 0
  NoneAbove a key lo =
      (j : ℕ) (b : Key) → j < lo → get_elem? a j ≡ some b → host.is_less key b ≡ ok false

  -- Every boundary from `hi` on is above the key.
  abbrev pub AllAbove : List Key → Key → ℕ → Type 0
  AllAbove a key hi =
      (j : ℕ) (b : Key) → hi ≤ j → get_elem? a j ≡ some b → host.is_less key b ≡ ok true

  loop_stops :
      (fuel : ℕ) (a : List Key) (key : Key) (lo hi : ℕ)
      → ltb lo hi ≡ false
      → bisect_loop (suc fuel) a key lo hi ≡ ok lo
  unfolding bisect_loop narrow
  loop_stops fuel a key lo hi f =
      ap
        (λ m. elim m as (λ _. Result ℕ) [
          | raise e ↦ raise e
          | ok none ↦ ok lo
          | ok (some (l, h)) ↦ bisect_loop fuel a key l h
        ])
        (ap (λ t. narrow t a key lo hi) f)

  loop_step :
      (fuel : ℕ) (a : List Key) (key : Key) (lo hi : ℕ) {b : Key} {v : Bool}
      → ltb lo hi ≡ true
      → get_elem? a ((lo + hi) / 2) ≡ some b
      → host.is_less key b ≡ ok v
      → bisect_loop (suc fuel) a key lo hi
        ≡ bisect_loop fuel a key (halve v lo hi).0 (halve v lo hi).1
  unfolding bisect_loop narrow compare_middle
  loop_step fuel a key lo hi {b} {v} t p q =
      ap
        (λ m. elim m as (λ _. Result ℕ) [
          | raise e ↦ raise e
          | ok none ↦ ok lo
          | ok (some (l, h)) ↦ bisect_loop fuel a key l h
        ])
        (ap (λ t. narrow t a key lo hi) t
          ∙ (ap (λ o. compare_middle o key lo hi) p
              ∙ ap (λ m. m >>= λ below. ok (some (halve below lo hi))) q))

  -- Where the key's place is, once found.
  abbrev pub Finds : List Key → Key → Result ℕ → Type 0
  Finds a key m = (i : ℕ) × (m ≡ ok i) × (i ≤ length a) × NoneAbove a key i × AllAbove a key i

  -- The key's place is in the interval.
  record Brackets (a : List Key) (key : Key) (lo hi : ℕ) : Type 0 where
    ordered : lo ≤ hi
    inside : hi ≤ length a
    before : NoneAbove a key lo
    after : AllAbove a key hi

  below_middle :
      (a : List Key) (key : Key) (m : ℕ) {b : Key}
      → IsComparable a key
      → IsSortedFor a key
      → get_elem? a m ≡ some b
      → host.is_less key b ≡ ok false
      → NoneAbove a key (m + 1)
  below_middle a key m {b} total sorted p q j c k r = elim (Result-cases (host.is_less key c)) [
    | inl (true, e) ↦ absurd (ok_true-false (sym (sorted j m c b (omega arith) r p e) ∙ q))
    | inl (false, e) ↦ e
    | inr (x, e) ↦ let (v, h) = total j c r in cc
  ]

  halve-Brackets :
      (a : List Key) (key : Key) (lo hi : ℕ) {b : Key}
      → IsComparable a key
      → IsSortedFor a key
      → lo < hi
      → Brackets a key lo hi
      → get_elem? a ((lo + hi) / 2) ≡ some b
      → (v : Bool) → host.is_less key b ≡ ok v
      → Brackets a key (halve v lo hi).0 (halve v lo hi).1
  unfolding halve
  halve-Brackets a key lo hi {b} total sorted l h p true q = record {
    ordered = omega arith;
    inside = omega (arith, h.inside);
    before = h.before;
    after = λ j c k r. sorted ((lo + hi) / 2) j b c k p r q;
  }
  halve-Brackets a key lo hi total sorted l h p false q = record {
    ordered = omega arith;
    inside = h.inside;
    before = below_middle a key ((lo + hi) / 2) total sorted p q;
    after = h.after;
  }

  loop-Finds :
      (fuel : ℕ) (a : List Key) (key : Key) (lo hi : ℕ)
      → IsComparable a key
      → IsSortedFor a key
      → hi ≤ lo + fuel
      → Brackets a key lo hi
      → Finds a key (bisect_loop fuel a key lo hi)
  unfolding bisect_loop
  loop-Finds zero a key lo hi total sorted f h = (
    lo,
    refl,
    omega (arith, h.ordered, h.inside),
    h.before,
    (λ j b k p. h.after j b (omega arith) p),
  )
  loop-Finds (suc fuel) a key lo hi total sorted f h = elim (Bool-cases (ltb lo hi)) [
    | inr e ↦ (
      lo,
      loop_stops fuel a key lo hi e,
      omega (arith, h.ordered, h.inside),
      h.before,
      (λ j b k p. h.after j b (ltb-false lo hi j e k) p),
    )
    | inl t ↦
        let l = ltb→lt lo hi t in
        let (b, p) = get_elem?-lt a ((lo + hi) / 2) (omega (arith, l, h.inside)) in
        let (v, q) = total ((lo + hi) / 2) b p in
        subst (Finds a key) (sym (loop_step fuel a key lo hi t p q)) (
          loop-Finds fuel a key _ _ total sorted (halve-le v lo hi fuel l f)
            (halve-Brackets a key lo hi total sorted l h p v q))
  ]

  loop-le :
      (fuel : ℕ) (a : List Key) (key : Key) (lo hi : ℕ)
      → IsComparable a key
      → hi ≤ lo + fuel
      → lo ≤ hi
      → hi ≤ length a
      → (i : ℕ) × (bisect_loop fuel a key lo hi ≡ ok i) × (i ≤ length a)
  unfolding bisect_loop
  loop-le zero a key lo hi total f h k = (lo, refl, omega arith)
  loop-le (suc fuel) a key lo hi total f h k = elim (Bool-cases (ltb lo hi)) [
    | inr e ↦ (lo, loop_stops fuel a key lo hi e, omega arith)
    | inl t ↦
        let l = ltb→lt lo hi t in
        let (b, p) = get_elem?-lt a ((lo + hi) / 2) (omega (arith, l, k)) in
        let (v, q) = total ((lo + hi) / 2) b p in
        let (ordered, inside) = halve-ordered v lo hi l in
        let (i, e, m) =
          loop-le fuel a key (halve v lo hi).0 (halve v lo hi).1 total (halve-le v lo hi fuel l f)
            ordered (omega (arith, inside, k)) in
        (i, loop_step fuel a key lo hi t p q ∙ e, m)
  ]

  -- Sorted or not, the search ends with a number that is at most the number of boundaries.
  pub bisect_right-le :
      (a : List Key) (key : Key)
      → IsComparable a key
      → (i : ℕ) × (bisect_right a key ≡ ok i) × (i ≤ length a)
  unfolding bisect_right
  bisect_right-le a key total =
      loop-le (length a) a key 0 (length a) total (omega arith) (omega arith) (omega arith)

  -- For a key that compares with every boundary, and boundaries that are sorted for it, the search ends
  -- with a number that is at most the number of boundaries: no boundary before it is above the key, and
  -- every boundary from it on is.
  pub bisect_right-Finds :
      (a : List Key) (key : Key)
      → IsComparable a key
      → IsSortedFor a key
      → Finds a key (bisect_right a key)
  unfolding bisect_right
  bisect_right-Finds a key total sorted =
      loop-Finds (length a) a key 0 (length a) total sorted (omega arith) (record {
        ordered = omega arith;
        inside = omega arith;
        before = λ j b k p. absurd (omega arith);
        after = λ j b k p. absurd (get_elem?-none a j b k p);
      })

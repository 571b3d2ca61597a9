-- ===== src/Optimizer/Statistics/Extremes.antt =====
-- What a column scan (`observe`) knows of a column of ints and NULLs: its least and greatest value.
pub mod Scans
use minispark.Common.{
  ℕ, ◌+◌, arith, Bool, true, false, String, some, List, [], ◌∷◌, ◌++◌, All, All-map, All-append,
  length, length-append, append_assoc, append_nil, map, All-append_left, All-append_right, ◌≡◌,
  refl, ap, sym, ◌∙◌, subst, ◌⊎◌, inl, inr, Result, ok, ◌>>=◌, if◌then◌else◌, >>=-eq-ok,
  ok-injective,
}
use minispark.Common.Int.{ℤ, ltb_ℤ}
use minispark.Core.Value.{
  Value, null, int, Record, Host, less, greater, compare_values, both_numbers, compare_numbers,
  compare_ints,
}
use minispark.Core.Dataset.{from_list, to_list, Partition, Dataset, iter_partitions, iter_records}
use minispark.Execution.Executor.Lists.{eq-from_list}
use minispark.Optimizer.Statistics.{
  SizeHost, ColumnStatistics, TableStatistics, ColumnScan, TableScan, get_or_none, pick_value,
  add_distinct, observe, observe_columns, scan_row, scan_rows, scan_partitions, compute_statistics,
  column_statistics, new_column, record_size,
}

-- The value lies between the two, or is NULL.
abbrev pub IsBetween : Value → Value → Value → Type 0
IsBetween lo hi null = Unit
IsBetween (int a) (int b) (int z) = (ltb_ℤ z a ≡ false) × (ltb_ℤ b z ≡ false)
IsBetween _ _ _ = ⊥

-- The column holds an int or NULL in the row, or is missing.
abbrev pub HoldsInt : String → Record → Type 0
HoldsInt key r = (get_or_none r key ≡ null) ⊎ ((z : ℤ) × (get_or_none r key ≡ int z))

abbrev is_null_value : Value → Bool
is_null_value null = true
is_null_value _ = false

-- One of the rows has this value in the column.
abbrev pub Occurs : String → Value → List Record → Type 0
Occurs key v [] = ⊥
Occurs key v (r ∷ rs) = (get_or_none r key ≡ v) ⊎ Occurs key v rs

-- How many of the rows have NULL in the column.
abbrev pub null_rows : String → List Record → ℕ
null_rows key [] = 0
null_rows key (r ∷ rs) = (if is_null_value (get_or_none r key) then 1 else 0) + null_rows key rs

null_rows-append :
    (key : String) (rs : List Record) (r : Record)
    → null_rows key (rs ++ (r ∷ []))
      ≡ null_rows key rs + (if is_null_value (get_or_none r key) then 1 else 0)
null_rows-append key [] r = omega arith
null_rows-append key (x ∷ rs) r = omega (arith, null_rows-append key rs r)

-- Both ends are None, or both are ints that the rows have.
abbrev pub Spans : String → List Record → Value → Value → Type 0
Spans key rs lo hi =
    ((lo ≡ null) × (hi ≡ null))
    ⊎ ((a : ℤ) × (b : ℤ) × (lo ≡ int a)
        × (hi ≡ int b)
        × Occurs key (int a) rs
        × Occurs key (int b) rs)

Occurs-before :
    (key : String) (v : Value) (rs xs : List Record) → Occurs key v rs → Occurs key v (rs ++ xs)
Occurs-before key v [] xs h = absurd h
Occurs-before key v (r ∷ rs) xs (inl e) = inl e
Occurs-before key v (r ∷ rs) xs (inr h) = inr (Occurs-before key v rs xs h)

Occurs-last :
    (key : String) (v : Value) (rs : List Record) (r : Record)
    → get_or_none r key ≡ v
    → Occurs key v (rs ++ (r ∷ []))
Occurs-last key v [] r e = inl e
Occurs-last key v (x ∷ rs) r e = inr (Occurs-last key v rs r e)

Spans-before :
    (key : String) (rs : List Record) (r : Record) (lo hi : Value)
    → Spans key rs lo hi
    → Spans key (rs ++ (r ∷ [])) lo hi
Spans-before key rs r lo hi (inl h) = inl h
Spans-before key rs r lo hi (inr (a, b, p, q, l, g)) =
    inr
      (a, b, p, q, Occurs-before key (int a) rs (r ∷ []) l, Occurs-before key (int b) rs (r ∷ []) g)

-- The value of an end after one more row: the old end or the row's value.
Occurs-either :
    (key : String) (rs : List Record) (r : Record) (a z a' : ℤ)
    → get_or_none r key ≡ int z
    → Occurs key (int a) rs
    → (a' ≡ a) ⊎ (a' ≡ z)
    → Occurs key (int a') (rs ++ (r ∷ []))
Occurs-either key rs r a z a' e h (inl same) =
    subst (λ v. Occurs key (int v) (rs ++ (r ∷ []))) (sym same)
      (Occurs-before key (int a) rs (r ∷ []) h)
Occurs-either key rs r a z a' e h (inr new) =
    Occurs-last key (int a') rs r (e ∙ ap (λ v. int v) (sym new))

module _ ⦃py : Host⦄ where
  bind_both :
      {A B C : Type 0} (m : Result A) (n : Result B) (f : A → B → C) {a : A} {b : B}
      → m ≡ ok a
      → n ≡ ok b
      → (m >>= λ x. n >>= λ y. ok (f x y)) ≡ ok (f a b)
  bind_both m n f p q = rw (p, q) refl

  IsBetween-wider :
      (a b a' b' : ℤ) (v : Value)
      → ltb_ℤ a a' ≡ false
      → ltb_ℤ b' b ≡ false
      → IsBetween (int a) (int b) v
      → IsBetween (int a') (int b') v
  IsBetween-wider a b a' b' null h k i = tt
  IsBetween-wider a b a' b' (int z) h k i = let (p, q) = i in (ground arith, ground arith)
  IsBetween-wider a b a' b' _ h k i = absurd i

  pick_less :
      (a z : ℤ)
      → (a' : ℤ) × (pick_value less (int a) (int z) ≡ ok (int a'))
        × (ltb_ℤ a a' ≡ false)
        × (ltb_ℤ z a' ≡ false)
        × ((a' ≡ a) ⊎ (a' ≡ z))
  unfolding pick_value compare_values both_numbers compare_numbers compare_ints
  pick_less a z = go (ltb_ℤ z a) refl
    where
      go :
          (b : Bool)
          → ltb_ℤ z a ≡ b
          → (a' : ℤ) × (ok (if ltb_ℤ z a then int z else int a) ≡ ok (int a'))
            × (ltb_ℤ a a' ≡ false)
            × (ltb_ℤ z a' ≡ false)
            × ((a' ≡ a) ⊎ (a' ≡ z))
      go true e =
          (z, ap (λ c. ok (if c then int z else int a)) e, ground arith, ground arith, inr refl)
      go false e = (a, ap (λ c. ok (if c then int z else int a)) e, ground arith, e, inl refl)

  pick_greater :
      (b z : ℤ)
      → (b' : ℤ) × (pick_value greater (int b) (int z) ≡ ok (int b'))
        × (ltb_ℤ b' b ≡ false)
        × (ltb_ℤ b' z ≡ false)
        × ((b' ≡ b) ⊎ (b' ≡ z))
  unfolding pick_value compare_values both_numbers compare_numbers compare_ints
  pick_greater b z = go (ltb_ℤ b z) refl
    where
      go :
          (c : Bool)
          → ltb_ℤ b z ≡ c
          → (b' : ℤ) × (ok (if ltb_ℤ b z then int z else int b) ≡ ok (int b'))
            × (ltb_ℤ b' b ≡ false)
            × (ltb_ℤ b' z ≡ false)
            × ((b' ≡ b) ⊎ (b' ≡ z))
      go true e =
          (z, ap (λ c. ok (if c then int z else int b)) e, ground arith, ground arith, inr refl)
      go false e = (b, ap (λ c. ok (if c then int z else int b)) e, ground arith, e, inl refl)

  -- What a column scan knows of the rows it has seen.
  pub record Knows (key : String) (c : ColumnScan) (rs : List Record) : Type 0 where
    pub named : c.name ≡ key
    pub nulls : c.null_count ≡ null_rows key rs
    pub spans : Spans key rs c.min_value c.max_value
    pub between : All (λ r. IsBetween c.min_value c.max_value (get_or_none r key)) rs

  -- Until a value is seen, all are NULL.
  IsBetween-null : (v : Value) → IsBetween null null v → v ≡ null
  IsBetween-null null h = refl
  IsBetween-null _ h = absurd h

  observe-null :
      (key : String) (c : ColumnScan) (rs : List Record) (r : Record)
      → get_or_none r key ≡ null
      → Knows key c rs
      → (c' : ColumnScan) × (observe c (get_or_none r key) ≡ ok c') × Knows key c' (rs ++ (r ∷ []))
  unfolding observe
  observe-null key c rs r e k = (
    record c { null_count = c.null_count + 1 },
    ap (observe c) e,
    record {
      named = k.named;
      nulls =
          ap (λ n. n + 1) k.nulls
          ∙ sym (
              null_rows-append key rs r
              ∙ ap (λ v. null_rows key rs + (if is_null_value v then 1 else 0)) e);
      spans = Spans-before key rs r c.min_value c.max_value k.spans;
      between =
          All-append (λ r. IsBetween c.min_value c.max_value (get_or_none r key)) rs (r ∷ [])
            k.between (subst (IsBetween c.min_value c.max_value) (sym e) tt, tt);
    },
  )

  -- The new ends, where both are found and hold what the old ones held.
  observe-ends :
      (key : String) (c : ColumnScan) (rs : List Record) (r : Record) (z a b : ℤ)
      → get_or_none r key ≡ int z
      → Knows key c rs
      → pick_value less c.min_value (int z) ≡ ok (int a)
      → pick_value greater c.max_value (int z) ≡ ok (int b)
      → ((v : Value) → IsBetween c.min_value c.max_value v → IsBetween (int a) (int b) v)
      → IsBetween (int a) (int b) (int z)
      → Occurs key (int a) (rs ++ (r ∷ []))
      → Occurs key (int b) (rs ++ (r ∷ []))
      → (c' : ColumnScan) × (observe c (get_or_none r key) ≡ ok c') × Knows key c' (rs ++ (r ∷ []))
  unfolding observe
  observe-ends key c rs r z a b e k p q wider inside least greatest = (
    record {
      name = c.name;
      distinct_values = add_distinct (int z) c.distinct_values;
      null_count = c.null_count;
      min_value = int a;
      max_value = int b;
    },
    ap (observe c) e
        ∙ bind_both (pick_value less c.min_value (int z)) (pick_value greater c.max_value (int z))
            (λ lo hi. record {
              name = c.name;
              distinct_values = add_distinct (int z) c.distinct_values;
              null_count = c.null_count;
              min_value = lo;
              max_value = hi;
            })
            p q,
    record {
      named = k.named;
      nulls =
          k.nulls
          ∙ sym (
              null_rows-append key rs r
              ∙ (ap (λ v. null_rows key rs + (if is_null_value v then 1 else 0)) e ∙ omega arith));
      spans = inr (a, b, refl, refl, least, greatest);
      between =
          All-append (λ r. IsBetween (int a) (int b) (get_or_none r key)) rs (r ∷ [])
            (All-map {P = λ r. IsBetween c.min_value c.max_value (get_or_none r key)}
              {Q = λ r. IsBetween (int a) (int b) (get_or_none r key)}
              (λ r. wider (get_or_none r key)) rs k.between)
            (subst (IsBetween (int a) (int b)) (sym e) inside, tt);
    },
  )

  observe-int :
      (key : String) (c : ColumnScan) (rs : List Record) (r : Record) (z : ℤ)
      → get_or_none r key ≡ int z
      → Knows key c rs
      → (c' : ColumnScan) × (observe c (get_or_none r key) ≡ ok c') × Knows key c' (rs ++ (r ∷ []))
  unfolding pick_value
  observe-int key c rs r z e k = elim k.spans [
    | inl (p, q) ↦
        observe-ends key c rs r z z z e k (ap (λ lo. pick_value less lo (int z)) p)
          (ap (λ hi. pick_value greater hi (int z)) q)
          (λ v h.
            let nothing = IsBetween-null v (
              subst (λ lo. IsBetween lo null v) p (subst (λ hi. IsBetween c.min_value hi v) q h)) in
            subst (IsBetween (int z) (int z)) (sym nothing) tt)
          (ground arith, ground arith) (Occurs-last key (int z) rs r e)
          (Occurs-last key (int z) rs r e)
    | inr (a, b, p, q, l, g) ↦
        let (a', e₁, l₁, l₂, l₃) = pick_less a z in
        let (b', e₂, g₁, g₂, g₃) = pick_greater b z in
        observe-ends key c rs r z a' b' e k (ap (λ lo. pick_value less lo (int z)) p ∙ e₁)
          (ap (λ hi. pick_value greater hi (int z)) q ∙ e₂)
          (λ v h.
            IsBetween-wider a b a' b' v l₁ g₁ (
              subst (λ lo. IsBetween lo (int b) v) p
                (subst (λ hi. IsBetween c.min_value hi v) q h)))
          (l₂, g₂) (Occurs-either key rs r a z a' e l l₃) (Occurs-either key rs r b z b' e g g₃)
  ]

  pub observe-Knows :
      (key : String) (c : ColumnScan) (rs : List Record) (r : Record)
      → HoldsInt key r
      → Knows key c rs
      → (c' : ColumnScan) × (observe c (get_or_none r key) ≡ ok c') × Knows key c' (rs ++ (r ∷ []))
  observe-Knows key c rs r (inl e) k = observe-null key c rs r e k
  observe-Knows key c rs r (inr (z, e)) k = observe-int key c rs r z e k

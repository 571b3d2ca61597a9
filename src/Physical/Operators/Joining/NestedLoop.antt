-- ===== src/Physical/Operators/Joining/NestedLoop.antt =====
-- The hash join against a reference: every pair of rows with equal keys, by two nested loops.
use minispark.Common.{
  ℕ, String, Bool, true, false, none, List, [], ◌∷◌, ◌++◌, map, All, append_assoc, append_nil, ◌≡◌,
  refl, ap, sym, ◌∙◌, if◌then◌else◌, Result, ok, ◌>>=◌, Bool-cases, inl, inr,
}
use minispark.Core.Value.{Value, Record, Host}
use minispark.Core.Schema.{Schema}
use minispark.Core.Dataset.{Rows, from_list, to_list, Partition}
use minispark.Expressions.Syntax.{Expression}
use minispark.Execution.Executor.Lists.{to_list-from_list}
use minispark.Physical.Operators.Joining.{
  merge_rows, JoinTable, keys_equal, row_key, add_row, rows_of, build_table, yield_matches,
  probe_row, probe_rows, execute_hash_join,
}
use minispark.Physical.Operators.Joining.IntKeys.{
  IntKey, HasIntKey, keys_equal-swap, keys_equal-congruent,
}

module _ ⦃py : Host⦄ where
  -- The left rows whose keys equal the key.
  abbrev pub matches : List Expression → List Value → List Record → Result (List Record)
  matches es key [] = ok []
  matches es key (l ∷ ls) = row_key es l >>= λ k.
      matches es key ls >>= λ rest. ok (if keys_equal k key then l ∷ rest else rest)

  -- For each right row in order, its matches in order.
  abbrev pub nested_loop :
      List Expression
      → List Expression
      → List String
      → List Record
      → List Record
      → Result (List Record)
  nested_loop lk rk on lefts [] = ok []
  nested_loop lk rk on lefts (r ∷ rights) = row_key rk r >>= λ key. matches lk key lefts >>= λ ms.
      nested_loop lk rk on lefts rights >>= λ rest. ok (map (λ l. merge_rows on l r) ms ++ rest)

  abbrev kept : Bool → Record → List Record
  kept b r = if b then r ∷ [] else []

  bind_both :
      {A B C : Type 0} (m : Result A) (n : Result B) (f : A → B → C) {a : A} {b : B}
      → m ≡ ok a
      → n ≡ ok b
      → (m >>= λ x. n >>= λ y. ok (f x y)) ≡ ok (f a b)
  bind_both m n f p q = rw (p, q) refl

  keep_first :
      (b : Bool) (r : Record) (rs : List Record) → (if b then r ∷ rs else rs) ≡ kept b r ++ rs
  keep_first true r rs = refl
  keep_first false r rs = refl

  -- An entry of the key: the row is appended to it.
  same_entry :
      (b c : Bool) (r : Record) (rs others : List Record)
      → b ≡ c
      → (if b then rs ++ (r ∷ []) else others) ≡ (if b then rs else others) ++ kept c r
  same_entry true c r rs others h = ap (λ x. rs ++ kept x r) h
  same_entry false c r rs others h = sym (append_nil others) ∙ ap (λ x. others ++ kept x r) h

  -- Another entry.
  other_entry :
      (b c : Bool) (r : Record) (rs others : List Record)
      → (b ≡ true → c ≡ false)
      → (if b then rs else others ++ kept c r) ≡ (if b then rs else others) ++ kept c r
  other_entry true c r rs others h = sym (append_nil rs) ∙ ap (λ x. rs ++ kept x r) (sym (h refl))
  other_entry false c r rs others h = refl

  rows_of-add_row :
      (key k : List Value) (r : Record) (table : JoinTable)
      → IntKey key
      → IntKey k
      → All (λ entry. IntKey entry.0) table
      → rows_of key (add_row k r table) ≡ rows_of key table ++ kept (keys_equal k key) r
  unfolding rows_of add_row
  rows_of-add_row key k r [] ik jk h = refl
  rows_of-add_row key k r ((j, rs) ∷ table) ik jk h = elim (Bool-cases (keys_equal j k)) [
    | inl p ↦
        ap
          (λ a.
            rows_of key (if a then (j, rs ++ (r ∷ [])) ∷ table else (j, rs) ∷ add_row k r table))
          p
        ∙ same_entry (keys_equal j key) (keys_equal k key) r rs (rows_of key table)
            (keys_equal-congruent j k key h.0 jk ik p)
    | inr p ↦
        ap
          (λ a.
            rows_of key (if a then (j, rs ++ (r ∷ [])) ∷ table else (j, rs) ∷ add_row k r table))
          p
        ∙ ap (λ others. if keys_equal j key then rs else others)
            (rows_of-add_row key k r table ik jk h.1)
        ∙ other_entry (keys_equal j key) (keys_equal k key) r rs (rows_of key table)
            (λ q. keys_equal-swap k key jk ik ∙ sym (keys_equal-congruent j key k h.0 ik jk q) ∙ p)
  ]

  add_row-IntKey :
      (k : List Value) (r : Record) (table : JoinTable)
      → IntKey k
      → All (λ entry. IntKey entry.0) table
      → All (λ entry. IntKey entry.0) (add_row k r table)
  unfolding add_row
  add_row-IntKey k r [] ik h = (ik, tt)
  add_row-IntKey k r ((j, rs) ∷ table) ik h = go (keys_equal j k) (add_row-IntKey k r table ik h.1)
    where
      go :
          (a : Bool)
          → All (λ entry. IntKey entry.0) (add_row k r table)
          → All
              (λ entry. IntKey entry.0)
              (if a then (j, rs ++ (r ∷ [])) ∷ table else (j, rs) ∷ add_row k r table)
      go true rest = h
      go false rest = (h.0, rest)

  -- The table of the left rows has, for each key of ints, the rows that match it.
  build_table-matches :
      (es : List Expression) (lefts : List Record) (table : JoinTable)
      → All (HasIntKey es) lefts
      → All (λ entry. IntKey entry.0) table
      → (table' : JoinTable) × (build_table es (from_list lefts) table ≡ ok table')
        × ((key : List Value)
            → IntKey key
            → (ms : List Record) × (matches es key lefts ≡ ok ms)
              × (rows_of key table' ≡ rows_of key table ++ ms))
  unfolding build_table from_list
  build_table-matches es [] table h t =
      (table, refl, λ key ik. ([], refl, sym (append_nil (rows_of key table))))
  build_table-matches es (l ∷ lefts) table h t =
      let (k, e, ik) = h.0 in
      let (table', e₁, found) =
        build_table-matches es lefts (add_row k l table) h.1 (add_row-IntKey k l table ik t) in
      (
        table',
        ap (λ m. m >>= λ key. build_table es (from_list lefts) (add_row key l table)) e ∙ e₁,
        λ key jk.
            let (ms, e₂, e₃) = found key jk in
            (
              kept (keys_equal k key) l ++ ms,
              bind_both (row_key es l) (matches es key lefts)
                    (λ k rest. if keys_equal k key then l ∷ rest else rest) e e₂
                  ∙ ap ok (keep_first (keys_equal k key) l ms),
              e₃
                  ∙ ap (λ rs. rs ++ ms) (rows_of-add_row key k l table jk ik t)
                  ∙ append_assoc (rows_of key table) (kept (keys_equal k key) l) ms,
            ),
      )

  to_list-yield_matches :
      (on : List String) (r : Record) (ls : List Record) (rest : Rows) {rs : List Record}
      → to_list rest ≡ ok rs
      → to_list (yield_matches on r ls rest) ≡ ok (map (λ l. merge_rows on l r) ls ++ rs)
  unfolding yield_matches to_list
  to_list-yield_matches on r [] rest h = h
  to_list-yield_matches on r (l ∷ ls) rest h =
      ap (λ m. m >>= λ rows. ok (merge_rows on l r ∷ rows)) (to_list-yield_matches on r ls rest h)

  probe_rows-nested_loop :
      (lk rk : List Expression) (on : List String) (lefts rights : List Record) (table : JoinTable)
      → ((key : List Value)
          → IntKey key
          → (ms : List Record) × (matches lk key lefts ≡ ok ms) × (rows_of key table ≡ ms))
      → All (HasIntKey rk) rights
      → (out : List Record) × (to_list (probe_rows on rk table rights) ≡ ok out)
        × (nested_loop lk rk on lefts rights ≡ ok out)
  unfolding probe_rows probe_row to_list
  probe_rows-nested_loop lk rk on lefts [] table found h = ([], refl, refl)
  probe_rows-nested_loop lk rk on lefts (r ∷ rights) table found h =
      let (key, e, ik) = h.0 in
      let (ms, e₁, e₂) = found key ik in
      let (rest, e₃, e₄) = probe_rows-nested_loop lk rk on lefts rights table found h.1 in
      (
        map (λ l. merge_rows on l r) ms ++ rest,
        ap (λ m. to_list (probe_row on table r m (probe_rows on rk table rights))) e
            ∙ to_list-yield_matches on r (rows_of key table) (probe_rows on rk table rights) e₃
            ∙ ap (λ x. ok (map (λ l. merge_rows on l r) x ++ rest)) e₂,
        ap
              (λ m. m >>= λ key. matches lk key lefts >>= λ ms.
                nested_loop lk rk on lefts rights >>= λ rest.
                ok (map (λ l. merge_rows on l r) ms ++ rest))
              e
            ∙ bind_both (matches lk key lefts) (nested_loop lk rk on lefts rights)
                (λ ms rest. map (λ l. merge_rows on l r) ms ++ rest) e₁ e₄,
      )

  -- Where the join keys have ints on every row, the hash join of two partitions raises nothing, and its
  -- rows are those of two nested loops: for each right row in order, the left rows with an equal key,
  -- in order, each with the right row's other columns.
  pub execute_hash_join-nested_loop :
      (i : ℕ) (s : Schema) (lk rk : List Expression) (on : List String) (left right : Partition)
      (lefts rights : List Record)
      → left.records ≡ from_list lefts
      → right.records ≡ from_list rights
      → All (HasIntKey lk) lefts
      → All (HasIntKey rk) rights
      → (p : Partition) × (out : List Record) × (execute_hash_join i s lk rk on left right ≡ ok p)
        × (to_list p.records ≡ ok out)
        × (nested_loop lk rk on lefts rights ≡ ok out)
  unfolding execute_hash_join rows_of
  execute_hash_join-nested_loop i s lk rk on left right lefts rights hl hr kl kr =
      let (table, e, found) = build_table-matches lk lefts [] kl tt in
      let (out, e₁, e₂) = probe_rows-nested_loop lk rk on lefts rights table found kr in
      (
        record {
          partition_id = i;
          schema = s;
          records = probe_rows on rk table rights;
          row_count = none;
        },
        out,
        bind_both (build_table lk left.records []) (to_list right.records)
            (λ table rights. record {
              partition_id = i;
              schema = s;
              records = probe_rows on rk table rights;
              row_count = none;
            })
            (ap (λ x. build_table lk x []) hl ∙ e) (ap to_list hr ∙ to_list-from_list rights),
        e₁,
        e₂,
      )

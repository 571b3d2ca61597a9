-- ===== src/Optimizer/Statistics/Extremes/Scans.antt =====
-- The least and the greatest value that `compute_statistics` finds in a column of ints and NULLs.
use minispark.Common.{
  ◌+◌, String, some, List, [], ◌∷◌, ◌++◌, All, length, length-append, append_assoc, append_nil, map,
  All-append_left, All-append_right, ◌≡◌, refl, ap, sym, ◌∙◌, subst, inl, ok, ◌>>=◌, >>=-eq-ok,
  ok-injective,
}
use minispark.Core.Value.{Record, Host}
use minispark.Core.Dataset.{from_list, to_list, Partition, Dataset, iter_partitions, iter_records}
use minispark.Execution.Executor.Lists.{eq-from_list}
use minispark.Optimizer.Statistics.{
  SizeHost, ColumnStatistics, TableStatistics, ColumnScan, TableScan, get_or_none, observe,
  observe_columns, scan_row, scan_rows, scan_partitions, compute_statistics, column_statistics,
  new_column, record_size,
}
use minispark.Optimizer.Statistics.Extremes.{
  IsBetween, HoldsInt, Spans, null_rows, Knows, observe-Knows,
}

module _ ⦃py : Host⦄ where
  module _ ⦃memory : SizeHost⦄ where
    -- The scan of one column, after these rows.
    record Scanned (key : String) (rs : List Record) (t : TableScan) : Type 0 where
      pub column_scan : ColumnScan
      pub only : t.columns ≡ column_scan ∷ []
      pub counted : t.row_count ≡ length rs
      pub knows : Knows key column_scan rs

    scan_row-Scanned :
        (key : String) (rs : List Record) (t : TableScan) (r : Record)
        → HoldsInt key r
        → Scanned key rs t
        → (t' : TableScan) × (scan_row t r ≡ ok t') × Scanned key (rs ++ (r ∷ [])) t'
    unfolding scan_row observe_columns
    scan_row-Scanned key rs t r h s =
        let c = s.column_scan in
        let (c', e, k) = observe-Knows key c rs r h s.knows in
        let made : List ColumnScan → TableScan = λ cs. record {
          row_count = t.row_count + 1;
          estimated_size_bytes = t.estimated_size_bytes + record_size r;
          columns = cs;
        } in
        (
          made (c' ∷ []),
          ap (λ cs. observe_columns cs r >>= λ cs. ok (made cs)) s.only
              ∙ ap
                  (λ n. (observe c (get_or_none r n) >>= λ c'. ok (c' ∷ [])) >>= λ cs. ok (made cs))
                  s.knows.named
              ∙ ap (λ m. (m >>= λ c'. ok (c' ∷ [])) >>= λ cs. ok (made cs)) e,
          record {
            column_scan = c';
            only = refl;
            counted = ap (λ n. n + 1) s.counted ∙ sym (length-append rs (r ∷ []));
            knows = k;
          },
        )

    scan_rows-Scanned :
        (key : String) (rs xs : List Record) (t : TableScan)
        → All (HoldsInt key) xs
        → Scanned key rs t
        → (t' : TableScan) × (scan_rows (from_list xs) t ≡ ok t') × Scanned key (rs ++ xs) t'
    unfolding scan_rows from_list
    scan_rows-Scanned key rs [] t h s =
        (t, refl, subst (λ l. Scanned key l t) (sym (append_nil rs)) s)
    scan_rows-Scanned key rs (x ∷ xs) t h s =
        let (t₁, e₁, s₁) = scan_row-Scanned key rs t x h.0 s in
        let (t₂, e₂, s₂) = scan_rows-Scanned key (rs ++ (x ∷ [])) xs t₁ h.1 s₁ in
        (
          t₂,
          ap (λ m. m >>= scan_rows (from_list xs)) e₁ ∙ e₂,
          subst (λ l. Scanned key l t₂) (append_assoc rs (x ∷ []) xs) s₂,
        )

    scan_partitions-Scanned :
        (key : String) (ps : List Partition) (rs : List Record) (t : TableScan) {xs : List Record}
        → iter_partitions ps ≡ ok xs
        → All (HoldsInt key) xs
        → Scanned key rs t
        → (t' : TableScan) × (scan_partitions ps t ≡ ok t') × Scanned key (rs ++ xs) t'
    unfolding scan_partitions iter_partitions
    scan_partitions-Scanned key [] rs t e h s = (
      t,
      refl,
      subst (λ l. Scanned key l t) (sym (append_nil rs) ∙ ap (λ l. rs ++ l) (ok-injective e)) s,
    )
    scan_partitions-Scanned key (p ∷ ps) rs t e h s =
        let (ys, e₁, h₁) = >>=-eq-ok (to_list p.records) _ e in
        let (zs, e₂, h₂) = >>=-eq-ok (iter_partitions ps) _ h₁ in
        let whole = ok-injective h₂ in
        let ints = subst (All (HoldsInt key)) (sym whole) h in
        let (t₁, e₃, s₁) =
          scan_rows-Scanned key rs ys t (All-append_left (HoldsInt key) ys zs ints) s in
        let (t₂, e₄, s₂) =
          scan_partitions-Scanned key ps (rs ++ ys) t₁ e₂
            (All-append_right (HoldsInt key) ys zs ints) s₁ in
        (
          t₂,
          ap (λ a. scan_rows a t >>= scan_partitions ps) (eq-from_list p.records e₁)
              ∙ ap (λ m. m >>= scan_partitions ps) e₃
              ∙ e₄,
          subst (λ l. Scanned key l t₂) (append_assoc rs ys zs ∙ ap (λ l. rs ++ l) whole) s₂,
        )

    -- The statistics of a column of a dataset whose rows raise nothing and hold ints or NULLs there:
    -- the scan raises nothing and counts the rows and the NULLs, and either the minimum and the maximum are None and
    -- every row has NULL, or both are ints that rows have, and every row has NULL or a value between
    -- them.
    pub compute_statistics-IsBetween :
        (key : String) (d : Dataset) {rs : List Record}
        → iter_records d ≡ ok rs
        → All (HoldsInt key) rs
        → (stats : TableStatistics) × (c : ColumnStatistics) × (compute_statistics d
              (some (key ∷ []))
            ≡ ok stats)
          × (stats.row_count ≡ length rs)
          × (stats.columns ≡ (key, c) ∷ [])
          × (c.null_count ≡ null_rows key rs)
          × Spans key rs c.min_value c.max_value
          × All (λ r. IsBetween c.min_value c.max_value (get_or_none r key)) rs
    unfolding compute_statistics iter_records column_statistics
    compute_statistics-IsBetween key d {rs} e h =
        let start : TableScan = record {
          row_count = 0;
          estimated_size_bytes = 0;
          columns = new_column key ∷ [];
        } in
        let (t, e₁, s) = scan_partitions-Scanned key d.partitions [] start e h (record {
          column_scan = new_column key;
          only = refl;
          counted = refl;
          knows = record { named = refl; nulls = refl; spans = inl (refl, refl); between = tt };
        }) in
        let c = s.column_scan in
        (
          record {
            row_count = t.row_count;
            estimated_size_bytes = t.estimated_size_bytes;
            columns = map column_statistics t.columns;
          },
          (column_statistics c).1,
          ap
              (λ m. m >>= λ t. ok (record {
                row_count = t.row_count;
                estimated_size_bytes = t.estimated_size_bytes;
                columns = map column_statistics t.columns;
              }))
              e₁,
          s.counted,
          ap (map column_statistics) s.only
              ∙ ap (λ n. (n, (column_statistics c).1) ∷ []) s.knows.named,
          s.knows.nulls,
          s.knows.spans,
          s.knows.between,
        )

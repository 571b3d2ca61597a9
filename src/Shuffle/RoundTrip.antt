-- ===== src/Shuffle/RoundTrip.antt =====
-- What the blocks of a shuffle write give back to the readers of its target partitions.
use minispark.Common.{
  and_true, and_false, ==-swap, keep_if-append, ==-refl, ℕ, suc, arith, String, Bool, true, false,
  ◌&&◌, negb, Option, none, some, List, [], ◌∷◌, ◌++◌, All, map, keep_if, length, if◌then◌else◌,
  ◌==◌, ==_iff, str_eq, str_eq_refl, Bool-cases, inl, inr, ◌≡◌, refl, sym, ap, ◌∙◌, subst, Result,
  ok, append_assoc, append_nil, file_not_found, shuffle_checksum,
}
use minispark.Core.Value.{Record}
use minispark.Core.Dataset.{Rows, from_list}
use minispark.Shuffle.Writer.{
  PickleHost, BlockPath, path_eq, Disk, read_file, ShuffleBlockMeta, BlockWriter, open_block,
  Writers, store_blocks, write, write_to, write_rows, block_meta, write_shuffle_partition,
}
use minispark.Shuffle.Writer.Blocks.{
  view, view-hit, view-miss, start, IsDistinct, view-write_to, view-write_to_other, write_to-hit,
  write_to-miss, write_to-IsDistinct,
}
use minispark.Shuffle.Reader.{load_all, read_block, read_shuffle_blocks, append_rows}
use minispark.Shuffle.Contents.{
  PickleLaws, keep_if-PickleLaws, pickled, filled, write-filled, open_block-filled,
  load_all-pickled,
}

abbrev bytes_of : Option BlockWriter → Option (List ℕ)
bytes_of none = none
bytes_of (some w) = some w.bytes

module _ ⦃pickle : PickleHost⦄ (root : String) (stage task : ℕ) (target : Record → ℕ) where
  abbrev path_of : ℕ → BlockPath
  path_of t = record { root_dir = root; stage = stage; partition = t; task = task }

  -- A target has a block where a row went to it.
  expected : ℕ → List Record → Option BlockWriter
  expected t [] = none
  expected t (r ∷ rs) = some (filled (path_of t) (r ∷ rs))

  abbrev rows_of : ℕ → List Record → List Record
  rows_of t rs = keep_if (λ r. target r == t) rs

  abbrev Paths : Writers → Type 0
  Paths ws = All (λ e. e.1.path ≡ path_of e.0) ws

  record Holds (seen : List Record) (ws : Writers) : Type 0 where
    views : (t : ℕ) → view t ws ≡ expected t (rows_of t seen)
    distinct : IsDistinct ws
    paths : Paths ws

  expected-write :
      (t : ℕ) (rs : List Record) (r : Record)
      → some (write (start (path_of t) (expected t rs)) r) ≡ expected t (rs ++ (r ∷ []))
  unfolding expected
  expected-write t [] r =
      ap some (ap (λ w. write w r) (open_block-filled (path_of t)) ∙ write-filled (path_of t) [] r)
  expected-write t (x ∷ rs) r = ap some (write-filled (path_of t) (x ∷ rs) r)

  write_to-Paths :
      (u : ℕ) (r : Record) (ws : Writers) → Paths ws → Paths (write_to (path_of u) u r ws)
  unfolding write_to write open_block
  write_to-Paths u r [] h = (refl, tt)
  write_to-Paths u r ((x, w) ∷ ws) h = elim (Bool-cases (x == u)) [
    | inl e ↦ subst Paths (sym (write_to-hit (path_of u) u r x w ws e)) (h.0, h.1)
    | inr f ↦
        subst Paths (sym (write_to-miss (path_of u) u r x w ws f)) (h.0, write_to-Paths u r ws h.1)
  ]

  views-write :
      (seen : List Record) (ws : Writers) (r : Record) (t : ℕ)
      → Holds seen ws
      → (target r == t) ≡ true
      → view t (write_to (path_of t) t r ws) ≡ expected t (rows_of t (seen ++ (r ∷ [])))
  views-write seen ws r t h e =
      view-write_to (path_of t) t r ws
      ∙ (ap (λ o. some (write (start (path_of t) o) r)) (h.views t)
          ∙ (expected-write t (rows_of t seen) r
              ∙ ap (expected t) (sym (keep_if-append (λ x. target x == t) seen r true e))))

  Holds-write :
      (seen : List Record) (ws : Writers) (r : Record)
      → Holds seen ws
      → Holds (seen ++ (r ∷ [])) (write_to (path_of (target r)) (target r) r ws)
  Holds-write seen ws r h = record {
    views = λ t. elim (Bool-cases (target r == t)) [
      | inl e ↦
          subst
            (λ u. view t (write_to (path_of u) u r ws) ≡ expected t (rows_of t (seen ++ (r ∷ []))))
            (sym ((==_iff (target r) t).0 e)) (views-write seen ws r t h e)
      | inr f ↦
          view-write_to_other (path_of (target r)) t (target r) r ws f
          ∙ (h.views t ∙ ap (expected t) (sym (keep_if-append (λ x. target x == t) seen r false f)))
    ];
    distinct = write_to-IsDistinct (path_of (target r)) (target r) r ws h.distinct;
    paths = write_to-Paths (target r) r ws h.paths;
  }

  write_rows-Holds :
      (target_of : Record → Result ℕ) (rs seen : List Record) (ws : Writers)
      → All (λ r. target_of r ≡ ok (target r)) rs
      → Holds seen ws
      → (ws' : Writers) × (write_rows (root, stage, task) target_of (from_list rs) ws
          ≡ (ws', ok tt))
        × Holds (seen ++ rs) ws'
  unfolding write_rows from_list
  write_rows-Holds target_of [] seen ws g h =
      (ws, refl, subst (λ x. Holds x ws) (sym (append_nil seen)) h)
  write_rows-Holds target_of (r ∷ rs) seen ws g h =
      let (ws', e, k) =
        write_rows-Holds target_of rs (seen ++ (r ∷ []))
          (write_to (path_of (target r)) (target r) r ws) g.1 (Holds-write seen ws r h) in
      (ws', rw g.0 e, subst (λ x. Holds x ws') (append_assoc seen (r ∷ []) rs) k)

  path_eq-path_of : (t u : ℕ) → path_eq (path_of t) (path_of u) ≡ (t == u)
  unfolding path_eq
  path_eq-path_of t u =
      ap (λ b. b && ((stage == stage) && ((t == u) && (task == task)))) (str_eq_refl root)
      ∙ (ap (λ b. b && ((t == u) && (task == task))) (==-refl stage)
          ∙ (ap (λ b. (t == u) && b) (==-refl task) ∙ and_true (t == u)))

  read_file-store_blocks :
      (t : ℕ) (ws : Writers) (files : Disk) {w : BlockWriter}
      → Paths ws
      → view t ws ≡ some w
      → read_file (path_of t) (store_blocks ws files) ≡ some w.bytes
  unfolding read_file store_blocks view
  read_file-store_blocks t [] files h v = cc
  read_file-store_blocks t ((u, x) ∷ ws) files h v = elim (Bool-cases (u == t)) [
    | inl e ↦
        ap (λ b. if b then some x.bytes else read_file (path_of t) (store_blocks ws files))
          (ap (path_eq (path_of t)) h.0 ∙ (path_eq-path_of t u ∙ ==-swap u t true e))
        ∙ ap bytes_of (sym (view-hit t u x ws e) ∙ v)
    | inr f ↦
        ap (λ b. if b then some x.bytes else read_file (path_of t) (store_blocks ws files))
          (ap (path_eq (path_of t)) h.0 ∙ (path_eq-path_of t u ∙ ==-swap u t false f))
        ∙ read_file-store_blocks t ws files h.1 (sym (view-miss t u x ws f) ∙ v)
  ]

  abbrev chosen : ℕ → Option BlockWriter → List ShuffleBlockMeta
  chosen t none = []
  chosen t (some w) = block_meta stage task (t, w) ∷ []

  chosen-view :
      (t : ℕ) (ws : Writers)
      → IsDistinct ws
      → keep_if (λ b. b.target_partition == t) (map (block_meta stage task) ws)
        ≡ chosen t (view t ws)
  unfolding block_meta view
  chosen-view t [] h = refl
  chosen-view t ((u, w) ∷ ws) h = elim (Bool-cases (u == t)) [
    | inl e ↦
        let q = (==_iff u t).0 e in
        ap
          (λ b.
            if b
            then block_meta stage task (u, w)
              ∷ keep_if (λ b. b.target_partition == t) (map (block_meta stage task) ws)
            else keep_if (λ b. b.target_partition == t) (map (block_meta stage task) ws))
          e
        ∙ (ap (λ k. block_meta stage task (u, w) ∷ k)
              (chosen-view t ws h.1 ∙ ap (chosen t) (subst (λ y. view y ws ≡ none) q h.0))
            ∙ (ap (λ y. block_meta stage task (y, w) ∷ []) q
                ∙ sym (ap (chosen t) (view-hit t u w ws e))))
    | inr f ↦
        ap
          (λ b.
            if b
            then block_meta stage task (u, w)
              ∷ keep_if (λ b. b.target_partition == t) (map (block_meta stage task) ws)
            else keep_if (λ b. b.target_partition == t) (map (block_meta stage task) ws))
          f
        ∙ (chosen-view t ws h.1 ∙ sym (ap (chosen t) (view-miss t u w ws f)))
  ]

  append_rows-done : (a : Rows) → append_rows a Rows.done ≡ a
  unfolding append_rows
  append_rows-done Rows.done = refl
  append_rows-done (Rows.fail e) = refl
  append_rows-done (Rows.yield r a) = ap (λ x. Rows.yield r x) (append_rows-done a)

  -- A block whose bytes are on the disk under its path passes the checksum.
  read_block-filled :
      (t : ℕ) (rs : List Record) (files : Disk) (verify : Bool)
      → PickleLaws pickle rs
      → read_file (path_of t) files ≡ some (pickled rs)
      → read_block files verify (block_meta stage task (t, filled (path_of t) rs)) ≡ from_list rs
  unfolding read_block block_meta
  read_block-filled t rs files verify laws e =
      ap
        (λ o. elim o as (λ _. Rows) [
          | none ↦ Rows.fail file_not_found
          | some raw ↦
              if verify && negb (str_eq (pickle.hexdigest raw) (pickle.hexdigest (pickled rs)))
              then Rows.fail shuffle_checksum
              else load_all (suc (length raw)) raw
        ])
        e
      ∙ (ap
            (λ b.
              if b
              then Rows.fail shuffle_checksum
              else load_all (suc (length (pickled rs))) (pickled rs))
            (ap (λ b. verify && negb b) (str_eq_refl (pickle.hexdigest (pickled rs)))
              ∙ and_false verify)
          ∙ load_all-pickled rs (suc (length (pickled rs))) laws (omega arith))

  read_chosen :
      (t : ℕ) (rs : List Record) (files : Disk) (verify : Bool)
      → PickleLaws pickle rs
      → ((w : BlockWriter) → expected t rs ≡ some w → read_file (path_of t) files ≡ some w.bytes)
      → read_shuffle_blocks files verify (chosen t (expected t rs)) ≡ from_list rs
  unfolding expected read_shuffle_blocks from_list
  read_chosen t [] files verify laws h = refl
  read_chosen t (r ∷ rs) files verify laws h =
      append_rows-done _
      ∙ read_block-filled t (r ∷ rs) files verify laws (h (filled (path_of t) (r ∷ rs)) refl)

  -- Where pickle loads what it dumps of the rows: writing rows whose keys all have a target succeeds,
  -- and reading the blocks written for a target, with or without the checksums, gives exactly the rows
  -- of that target, in their order, whatever files were there before.
  pub write_shuffle_partition-read_shuffle_blocks :
      (target_of : Record → Result ℕ) (rs : List Record) (files : Disk)
      → PickleLaws pickle rs
      → All (λ r. target_of r ≡ ok (target r)) rs
      → (blocks : List ShuffleBlockMeta) × (after : Disk) × (write_shuffle_partition root stage task
            (from_list rs)
            target_of
            files
          ≡ (after, ok blocks))
        × ((t : ℕ) (verify : Bool)
            → read_shuffle_blocks after verify (keep_if (λ b. b.target_partition == t) blocks)
              ≡ from_list (keep_if (λ r. target r == t) rs))
  unfolding write_shuffle_partition view expected
  write_shuffle_partition-read_shuffle_blocks target_of rs files laws g =
      let empty : Holds [] [] = record { views = λ t. refl; distinct = tt; paths = tt } in
      let (ws, e, h) = write_rows-Holds target_of rs [] [] g empty in
      (
        map (block_meta stage task) ws,
        store_blocks ws files,
        rw e refl,
        λ t verify.
            ap (read_shuffle_blocks (store_blocks ws files) verify)
              (chosen-view t ws h.distinct ∙ ap (chosen t) (h.views t))
            ∙ read_chosen t (rows_of t rs) (store_blocks ws files) verify
                (keep_if-PickleLaws pickle (λ r. target r == t) rs laws)
                (λ w v. read_file-store_blocks t ws files h.paths (h.views t ∙ v)),
      )

-- ===== src/Shuffle/Contents.antt =====
-- What a block file holds: the pickled rows of one target, one after another.
use minispark.Common.{
  Bool, All, All-keep_if, keep_if, ℕ, zero, suc, ◌+◌, ◌<◌, arith, List, [], ◌∷◌, ◌++◌, length,
  length-append, append_assoc, append_nil, ◌≡◌, refl, sym, ap, ◌∙◌,
}
use minispark.Core.Value.{Record}
use minispark.Core.Dataset.{Rows, from_list}
use minispark.Shuffle.Writer.{
  Loaded, end_of_file, loaded, bad_pickle, PickleHost, BlockPath, BlockWriter, open_block, write,
}
use minispark.Shuffle.Reader.{load_all}

-- What the pickle library promises of these rows: loading gives back what was dumped, and where it
-- ended.
pub record PickleLaws (pickle : PickleHost) (rs : List Record) : Type 0 where
  pub load_empty : pickle.load [] ≡ end_of_file
  pub load_dumps :
      All (λ r. (rest : List ℕ) → pickle.load (pickle.dumps r ++ rest) ≡ loaded r rest) rs
  pub dumps_some : (r : Record) → 0 < length (pickle.dumps r)

pub keep_if-PickleLaws :
    (pickle : PickleHost) (test : Record → Bool) (rs : List Record)
    → PickleLaws pickle rs
    → PickleLaws pickle (keep_if test rs)
keep_if-PickleLaws pickle test rs h = record {
  load_empty = h.load_empty;
  load_dumps = All-keep_if _ test rs h.load_dumps;
  dumps_some = h.dumps_some;
}

module _ ⦃pickle : PickleHost⦄ where
  unfoldable pub pickled : List Record → List ℕ
  pickled [] = []
  pickled (r ∷ rs) = pickle.dumps r ++ pickled rs

  pickled-append :
      (rs : List Record) (r : Record) → pickled (rs ++ (r ∷ [])) ≡ pickled rs ++ pickle.dumps r
  unfolding pickled
  pickled-append [] r = append_nil (pickle.dumps r)
  pickled-append (x ∷ rs) r =
      ap (λ b. pickle.dumps x ++ b) (pickled-append rs r)
      ∙ sym (append_assoc (pickle.dumps x) (pickled rs) (pickle.dumps r))

  -- The state of a block that has taken these rows.
  abbrev pub filled : BlockPath → List Record → BlockWriter
  filled p rs = record {
    path = p;
    bytes = pickled rs;
    record_count = length rs;
    byte_length = length (pickled rs);
  }

  abbrev contents : BlockPath → List ℕ → ℕ → ℕ → BlockWriter
  contents p b n k = record { path = p; bytes = b; record_count = n; byte_length = k }

  pub write-filled :
      (p : BlockPath) (rs : List Record) (r : Record)
      → write (filled p rs) r ≡ filled p (rs ++ (r ∷ []))
  unfolding write
  write-filled p rs r =
      ap (λ b. contents p b (length rs + 1) (length (pickled rs) + length (pickle.dumps r)))
        (sym (pickled-append rs r))
      ∙ (ap
            (λ n.
              contents p (pickled (rs ++ (r ∷ []))) n
                (length (pickled rs) + length (pickle.dumps r)))
            (sym (length-append rs (r ∷ [])))
          ∙ ap (λ n. contents p (pickled (rs ++ (r ∷ []))) (length (rs ++ (r ∷ []))) n)
              (sym (ap length (pickled-append rs r) ∙ length-append (pickled rs) (pickle.dumps r))))

  pub open_block-filled : (p : BlockPath) → open_block p ≡ filled p []
  unfolding open_block pickled
  open_block-filled p = refl

  -- What a load leaves to do.
  abbrev after_load : ℕ → Loaded → Rows
  after_load fuel end_of_file = Rows.done
  after_load fuel (loaded r rest) = Rows.yield r (load_all fuel rest)
  after_load fuel (bad_pickle e) = Rows.fail e

  load_step :
      (raw : List ℕ) (fuel : ℕ) {l : Loaded}
      → pickle.load raw ≡ l
      → load_all (suc fuel) raw ≡ after_load fuel l
  unfolding load_all
  load_step raw fuel h =
      ap
        (λ m. elim m as (λ _. Rows) [
          | end_of_file ↦ Rows.done
          | loaded r rest ↦ Rows.yield r (load_all fuel rest)
          | bad_pickle e ↦ Rows.fail e
        ])
        h
      ∙ same fuel _
    where
      same :
          (fuel : ℕ) (l : Loaded)
          → (elim l as (λ _. Rows) [
            | end_of_file ↦ Rows.done
            | loaded r rest ↦ Rows.yield r (load_all fuel rest)
            | bad_pickle e ↦ Rows.fail e
          ])
            ≡ after_load fuel l
      same fuel end_of_file = refl
      same fuel (loaded r rest) = refl
      same fuel (bad_pickle e) = refl

  -- Enough fuel for the file gives back the rows.
  pub load_all-pickled :
      (rs : List Record) (fuel : ℕ)
      → PickleLaws pickle rs
      → length (pickled rs) < fuel
      → load_all fuel (pickled rs) ≡ from_list rs
  unfolding load_all pickled from_list
  load_all-pickled [] zero laws h = absurd (omega arith)
  load_all-pickled [] (suc fuel) laws h = load_step [] fuel laws.load_empty
  load_all-pickled (r ∷ rs) zero laws h = absurd (omega arith)
  load_all-pickled (r ∷ rs) (suc fuel) laws h =
      load_step (pickle.dumps r ++ pickled rs) fuel (laws.load_dumps.0 (pickled rs))
      ∙ ap (λ x. Rows.yield r x)
          (load_all-pickled rs fuel
            (record {
              load_empty = laws.load_empty;
              load_dumps = laws.load_dumps.1;
              dumps_some = laws.dumps_some;
            })
            (omega (arith, length-append (pickle.dumps r) (pickled rs), laws.dumps_some r)))

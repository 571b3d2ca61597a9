-- ===== src/Physical/Spill.antt =====
-- minispark/physical/spill.py: a spill file is a stream of pickled items, written and read back within
-- one task. The path of a file stands for its bytes; pickle belongs to Python.
use minispark.Common.{
  ℕ, zero, suc, List, [], ◌∷◌, ◌++◌, length, Result, ok, raise, ◌>>=◌, Exception, runtime_error,
}

-- What `pickle.load` finds at the front of a file.
pub data LoadedItem (Item : Type 0) : Type 0 where
  end_of_spill : LoadedItem Item
  item : Item → (rest : List ℕ) → LoadedItem Item
  bad_item : Exception → LoadedItem Item

pub record SpillHost (Item : Type 0) : Type 0 where
  pub dump_item : Item → List ℕ
  pub load_item : List ℕ → LoadedItem Item

module _ {Item : Type 0} ⦃pickle : SpillHost Item⦄ where
  unfoldable pub write_spill_file : List Item → List ℕ
  write_spill_file [] = []
  write_spill_file (i ∷ is) = pickle.dump_item i ++ write_spill_file is

  -- `pickle.load` until the end of the file, on fuel: each load takes a byte at least.
  unfoldable pub load_items : ℕ → List ℕ → Result (List Item)
  load_items zero bytes = raise runtime_error
  load_items (suc fuel) bytes = elim (pickle.load_item bytes) [
    | end_of_spill ↦ ok []
    | bad_item e ↦ raise e
    | item i rest ↦ do is ← load_items fuel rest; ok (i ∷ is)
  ]

  unfoldable pub read_spill_file : List ℕ → Result (List Item)
  unfolding load_items
  read_spill_file bytes = load_items (suc (length bytes)) bytes

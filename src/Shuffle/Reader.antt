-- ===== src/Shuffle/Reader.antt =====
-- minispark/shuffle/reader.py: the blocks of one target partition are read back, one by one.
use minispark.Common.{
  ℕ, zero, suc, Bool, ◌&&◌, none, some, List, [], ◌∷◌, length, if◌then◌else◌, negb, str_eq,
  runtime_error, file_not_found, shuffle_checksum,
}
use minispark.Core.Dataset.{Rows, done, fail, yield}
use minispark.Shuffle.Writer.{
  end_of_file, loaded, bad_pickle, PickleHost, Disk, read_file, ShuffleBlockMeta,
}

-- One generator after another.
unfoldable pub append_rows : Rows → Rows → Rows
append_rows done b = b
append_rows (fail e) b = fail e
append_rows (yield r rest) b = yield r (append_rows rest b)

module _ ⦃pickle : PickleHost⦄ where
  -- `pickle.load(buffer)` until the end of the file, on fuel: each load takes a byte at least.
  unfoldable pub load_all : ℕ → List ℕ → Rows
  load_all zero raw = fail runtime_error
  load_all (suc fuel) raw = elim (pickle.load raw) [
    | end_of_file ↦ done
    | loaded r rest ↦ yield r (load_all fuel rest)
    | bad_pickle e ↦ fail e
  ]

  unfoldable pub read_block : Disk → Bool → ShuffleBlockMeta → Rows
  unfolding load_all
  read_block files verify_checksum block = elim (read_file block.path files) [
    | none ↦ fail file_not_found
    | some raw ↦
        if verify_checksum && negb (str_eq (pickle.hexdigest raw) block.checksum)
        then fail shuffle_checksum
        else load_all (suc (length raw)) raw
  ]

  unfoldable pub read_shuffle_blocks : Disk → Bool → List ShuffleBlockMeta → Rows
  unfolding read_block append_rows
  read_shuffle_blocks files verify_checksum [] = done
  read_shuffle_blocks files verify_checksum (b ∷ bs) =
      append_rows (read_block files verify_checksum b)
        (read_shuffle_blocks files verify_checksum bs)

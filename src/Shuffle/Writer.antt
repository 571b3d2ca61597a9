-- ===== src/Shuffle/Writer.antt =====
-- minispark/shuffle/writer.py: rows go to one block file for each target partition. The disk is an
-- association from block paths to bytes; a chunk's bytes (`pickle.dumps`) and MD5 belong to Python.
pub mod Blocks
pub mod Confined
use minispark.Common.{
  ℕ, ◌+◌, String, Bool, ◌&&◌, Option, none, some, List, [], ◌∷◌, ◌++◌, map, length, if◌then◌else◌,
  ◌==◌, str_eq, Result, ok, raise, ◌>>=◌, Exception,
}
use minispark.Core.Value.{Record}
use minispark.Core.Dataset.{Rows, done, fail, yield}

-- What `pickle.load` finds at the front of a buffer.
pub data Loaded : Type 0 where
  end_of_file : Loaded
  loaded : Record → (rest : List ℕ) → Loaded
  bad_pickle : Exception → Loaded

pub record PickleHost : Type 0 where
  pub dumps : Record → List ℕ
  pub load : List ℕ → Loaded
  pub hexdigest : List ℕ → String

-- root_dir / stage_{stage} / partition_{partition} / block_{task}.pkl
pub record BlockPath : Type 0 where
  pub root_dir : String
  pub stage : ℕ
  pub partition : ℕ
  pub task : ℕ

unfoldable pub path_eq : BlockPath → BlockPath → Bool
path_eq p q =
    str_eq p.root_dir q.root_dir
    && ((p.stage == q.stage) && ((p.partition == q.partition) && (p.task == q.task)))

abbrev pub Disk : Type 0
Disk = List (BlockPath × List ℕ)

-- `open(path, "rb").read()`; `none` is a file that is not there.
unfoldable pub read_file : BlockPath → Disk → Option (List ℕ)
unfolding path_eq
read_file p [] = none
read_file p ((q, bytes) ∷ files) = if path_eq p q then some bytes else read_file p files

pub record ShuffleBlockMeta : Type 0 where
  pub stage_id : ℕ
  pub source_task_id : ℕ
  pub target_partition : ℕ
  pub path : BlockPath
  pub record_count : ℕ
  pub byte_length : ℕ
  pub checksum : String

-- An open block: the bytes that its file and its hasher have received, and the two counters.
pub record BlockWriter : Type 0 where
  pub path : BlockPath
  pub bytes : List ℕ
  pub record_count : ℕ
  pub byte_length : ℕ

unfoldable pub open_block : BlockPath → BlockWriter
open_block p = record { path = p; bytes = []; record_count = 0; byte_length = 0 }

-- The dict `writers`, in order of insertion.
abbrev pub Writers : Type 0
Writers = List (ℕ × BlockWriter)

-- Storing a block replaces a file of that name.
abbrev pub store_block : BlockWriter → Disk → Disk
store_block w files = (w.path, w.bytes) ∷ files

unfoldable pub store_blocks : Writers → Disk → Disk
store_blocks [] files = files
store_blocks ((t, w) ∷ ws) files = store_block w (store_blocks ws files)

module _ ⦃pickle : PickleHost⦄ where
  unfoldable pub write : BlockWriter → Record → BlockWriter
  write w r =
      let chunk = pickle.dumps r in
      record {
        path = w.path;
        bytes = w.bytes ++ chunk;
        record_count = w.record_count + 1;
        byte_length = w.byte_length + length chunk;
      }

  -- `writers.get(target)`, a new block where there is none, and the write.
  unfoldable pub write_to : BlockPath → ℕ → Record → Writers → Writers
  unfolding write open_block
  write_to p target r [] = (target, write (open_block p) r) ∷ []
  write_to p target r ((t, w) ∷ ws) =
      let rest = write_to p target r ws in
      if t == target then (t, write w r) ∷ ws else (t, w) ∷ rest

  -- The loop over the rows. An exception of a row, or of its key, ends it with the writers so far.
  unfoldable pub write_rows :
      (String × ℕ × ℕ) → (Record → Result ℕ) → Rows → Writers → Writers × Result (Unit {0})
  unfolding write_to
  write_rows job target_of done ws = (ws, ok tt)
  write_rows job target_of (fail e) ws = (ws, raise e)
  write_rows (root, stage, task) target_of (yield r rest) ws = elim (target_of r) [
    | raise e ↦ (ws, raise e)
    | ok t ↦
        write_rows (root, stage, task) target_of rest
          (write_to (record { root_dir = root; stage = stage; partition = t; task = task }) t r ws)
  ]

  unfoldable pub block_meta : ℕ → ℕ → ℕ × BlockWriter → ShuffleBlockMeta
  block_meta stage task (t, w) = record {
    stage_id = stage;
    source_task_id = task;
    target_partition = t;
    path = w.path;
    record_count = w.record_count;
    byte_length = w.byte_length;
    checksum = pickle.hexdigest w.bytes;
  }

  -- `write_shuffle_partition`, with the disk that it leaves behind: the files are closed whether or not
  -- a row raises.
  unfoldable pub write_shuffle_partition :
      String → ℕ → ℕ → Rows → (Record → Result ℕ) → Disk → Disk × Result (List ShuffleBlockMeta)
  unfolding write_rows store_blocks block_meta
  write_shuffle_partition root stage task records target_of files =
      let (ws, outcome) = write_rows (root, stage, task) target_of records [] in
      (store_blocks ws files, outcome >>= λ _. ok (map (block_meta stage task) ws))

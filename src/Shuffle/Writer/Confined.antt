-- ===== src/Shuffle/Writer/Confined.antt =====
-- A shuffle write changes no file outside of the root directory that it is given.
use minispark.Common.{
  ℕ, String, false, ◌&&◌, some, List, [], ◌∷◌, All, if◌then◌else◌, ◌==◌, str_eq, Bool-cases, inl,
  inr, ◌≡◌, refl, sym, ap, ◌∙◌, subst, Result, ok, raise,
}
use minispark.Core.Value.{Record}
use minispark.Core.Dataset.{Rows, done, fail, yield}
use minispark.Shuffle.Writer.{
  PickleHost, BlockPath, path_eq, read_file, Disk, open_block, write, Writers, write_to, write_rows,
  store_blocks, write_shuffle_partition,
}
use minispark.Shuffle.Writer.Blocks.{write_to-hit, write_to-miss}

-- Every open block is of the directory.
abbrev IsWithin : String → Writers → Type 0
IsWithin root ws = All (λ w. w.1.path.root_dir ≡ root) ws

-- A file of another directory is read from the rest of the disk.
pub read_file-apart :
    (p q : BlockPath) (bytes : List ℕ) (files : Disk)
    → str_eq p.root_dir q.root_dir ≡ false
    → read_file p ((q, bytes) ∷ files) ≡ read_file p files
unfolding read_file path_eq
read_file-apart p q bytes files h =
    ap
      (λ b.
        if b && ((p.stage == q.stage) && ((p.partition == q.partition) && (p.task == q.task)))
        then some bytes
        else read_file p files)
      h

store_blocks-read_file :
    (root : String) (p : BlockPath) (ws : Writers) (files : Disk)
    → str_eq p.root_dir root ≡ false
    → IsWithin root ws
    → read_file p (store_blocks ws files) ≡ read_file p files
unfolding store_blocks
store_blocks-read_file root p [] files h within = refl
store_blocks-read_file root p ((t, w) ∷ ws) files h within =
    read_file-apart p w.path w.bytes (store_blocks ws files) (ap (str_eq p.root_dir) within.0 ∙ h)
    ∙ store_blocks-read_file root p ws files h within.1

module _ ⦃pickle : PickleHost⦄ where
  write_to-IsWithin :
      (root : String) (p : BlockPath) (t : ℕ) (r : Record) (ws : Writers)
      → p.root_dir ≡ root
      → IsWithin root ws
      → IsWithin root (write_to p t r ws)
  unfolding write_to write open_block
  write_to-IsWithin root p t r [] e within = (e, tt)
  write_to-IsWithin root p t r ((u, w) ∷ ws) e within = elim (Bool-cases (u == t)) [
    | inl same ↦ subst (IsWithin root) (sym (write_to-hit p t r u w ws same)) within
    | inr other ↦
        subst (IsWithin root) (sym (write_to-miss p t r u w ws other))
          (within.0, write_to-IsWithin root p t r ws e within.1)
  ]

  write_rows-IsWithin :
      (root : String) (stage task : ℕ) (target_of : Record → Result ℕ) (rows : Rows) (ws : Writers)
      → IsWithin root ws
      → IsWithin root (write_rows (root, stage, task) target_of rows ws).0
  unfolding write_rows
  write_rows-IsWithin root stage task target_of done ws within = within
  write_rows-IsWithin root stage task target_of (fail e) ws within = within
  write_rows-IsWithin root stage task target_of (yield r rest) ws within = go (target_of r) (λ t.
      write_rows-IsWithin root stage task target_of rest _
        (write_to-IsWithin root (block t) t r ws refl within))
    where
      block : ℕ → BlockPath
      block t = record { root_dir = root; stage = stage; partition = t; task = task }

      go :
          (target : Result ℕ)
          → ((t : ℕ)
              → IsWithin root
                  (write_rows (root, stage, task) target_of rest (write_to (block t) t r ws)).0)
          → IsWithin root
              (elim target as (λ _. Writers × Result (Unit {0})) [
                | raise e ↦ (ws, raise e)
                | ok t ↦
                    write_rows
                      (root, stage, task)
                      target_of
                      rest
                      (write_to
                        (record { root_dir = root; stage = stage; partition = t; task = task })
                        t
                        r
                        ws)
              ]).0
      go (raise e) written = within
      go (ok t) written = written t

  -- A file outside of the root directory is as it was, whether or not a row raises.
  pub write_shuffle_partition-read_file :
      (root : String) (stage task : ℕ) (rows : Rows) (target_of : Record → Result ℕ) (files : Disk)
      (p : BlockPath)
      → str_eq p.root_dir root ≡ false
      → read_file p (write_shuffle_partition root stage task rows target_of files).0
        ≡ read_file p files
  unfolding write_shuffle_partition
  write_shuffle_partition-read_file root stage task rows target_of files p h =
      store_blocks-read_file root p _ files h
        (write_rows-IsWithin root stage task target_of rows [] tt)

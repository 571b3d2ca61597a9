-- ===== src/Shuffle/Manager.antt =====
-- minispark/shuffle/manager.py: which blocks exist for a stage and a target partition.
pub mod Cleaning
pub mod Registering
use minispark.Common.{String, str_eq, ℕ, ◌+◌, List, [], ◌∷◌, keep_if, length, if◌then◌else◌, ◌==◌}
use minispark.Shuffle.Writer.{ShuffleBlockMeta, Disk}

-- The dict `_blocks`.
abbrev pub Registry : Type 0
Registry = List (ℕ × List ShuffleBlockMeta)

-- `self._blocks.get(stage_id, [])`.
unfoldable pub blocks_of : ℕ → Registry → List ShuffleBlockMeta
blocks_of stage [] = []
blocks_of stage ((s, bs) ∷ rest) = if s == stage then bs else blocks_of stage rest

-- `self._blocks[stage_id] = list(blocks)`.
unfoldable pub register_blocks : ℕ → List ShuffleBlockMeta → Registry → Registry
register_blocks stage blocks [] = (stage, blocks) ∷ []
register_blocks stage blocks ((s, bs) ∷ rest) =
    let later = register_blocks stage blocks rest in
    if s == stage then (stage, blocks) ∷ rest else (s, bs) ∷ later

unfoldable pub blocks_for : Registry → ℕ → ℕ → List ShuffleBlockMeta
unfolding blocks_of
blocks_for registry stage target =
    keep_if (λ b. b.target_partition == target) (blocks_of stage registry)

pub record ShufflePartitionMetrics : Type 0 where
  pub block_count : ℕ
  pub record_count : ℕ
  pub byte_length : ℕ

unfoldable pub sum_records : List ShuffleBlockMeta → ℕ
sum_records [] = 0
sum_records (b ∷ bs) = b.record_count + sum_records bs

unfoldable pub sum_bytes : List ShuffleBlockMeta → ℕ
sum_bytes [] = 0
sum_bytes (b ∷ bs) = b.byte_length + sum_bytes bs

unfoldable pub metrics_for : Registry → ℕ → ℕ → ShufflePartitionMetrics
unfolding blocks_for sum_records sum_bytes
metrics_for registry stage target =
    let blocks = blocks_for registry stage target in
    record {
      block_count = length blocks;
      record_count = sum_records blocks;
      byte_length = sum_bytes blocks;
    }

-- `shutil.rmtree(self.root_dir, ignore_errors=True)`: no file of the directory is left.
unfoldable pub cleanup : String → Disk → Disk
cleanup root [] = []
cleanup root ((p, bytes) ∷ files) =
    let rest = cleanup root files in if str_eq p.root_dir root then rest else (p, bytes) ∷ rest

-- ===== src/Fs/Fragmentation.antt =====
-- `fragmentation_degree` of a3/fs/fsutil2.c, on the files that a directory lists. A sector number has 32
-- bits. `none` is a panic.
pub mod Gaps
mod Tests
use comp310_winter.Base.{
  ℕ, ◌+◌, ◌-◌, ◌%◌, ltb, Bool, true, false, Option, none, some, List, [], ◌∷◌, if◌then◌else◌,
}
use comp310_winter.Fs.Capacity.{bytes_to_sectors}
use comp310_winter.Fs.Cache.{Cache, option_bind}
use comp310_winter.Fs.Inode.{InodeDisk, get_inode_data_sectors}

-- The loop over the sectors behind the first, with the one before; the difference is unsigned.
unfoldable pub gap_after : ℕ → List ℕ → Bool
gap_after previous [] = false
gap_after previous (s ∷ ss) =
    let rest = gap_after s ss in
    if ltb 3 ((s + 4294967296 - previous) % 4294967296) then true else rest

unfoldable pub is_fragmented : List ℕ → Bool
unfolding gap_after
is_fragmented [] = false
is_fragmented (s ∷ ss) = gap_after s ss

abbrev pub add_if : Bool → ℕ → ℕ
add_if b n = if b then n + 1 else n

-- The loop over the files: the numbers of fragmentable and of fragmented files so far.
unfoldable pub fragmentation_degree : List InodeDisk → ℕ → ℕ → Cache → Option ((ℕ × ℕ) × Cache)
unfolding is_fragmented get_inode_data_sectors bytes_to_sectors
fragmentation_degree [] fragmentable fragmented c = some ((fragmentable, fragmented), c)
fragmentation_degree (idisk ∷ files) fragmentable fragmented c =
    option_bind (get_inode_data_sectors idisk c) λ (all_sectors, c').
      fragmentation_degree files (add_if (ltb 1 (bytes_to_sectors idisk.length)) fragmentable)
        (add_if (is_fragmented all_sectors) fragmented) c'

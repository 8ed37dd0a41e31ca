-- ===== src/Fs/Capacity.antt =====
-- How large a copied file may be: `bytes_to_sectors` of a3/fs/inode.c and `copyable_size_of_file` of
-- a3/fs/fsutil2.c. A size is from 0 to 2147483647; what is returned may be negative.
use mathlib.Core.Path.{subst}
use comp310_winter.Base.{
  ℕ, ◌+◌, ◌-◌, ◌*◌, ◌/◌, ◌≤◌, ◌<◌, ◌≡◌, refl, ◌∙◌, ◌⊎◌, inl, inr, arith, ltb, leb, if◌then◌else◌,
  dec_le, Bool, ◌%◌, ◌||◌,
}

-- The result's integers.
pub data ℤ : Type 0 where
  pos : ℕ → ℤ
  negsuc : ℕ → ℤ

-- `a - b`
abbrev pub minus : ℕ → ℕ → ℤ
minus a b = if ltb a b then negsuc (b - a - 1) else pos (a - b)

abbrev pub block_sector_size : ℕ
block_sector_size = 512

abbrev pub direct_blocks_count : ℕ
direct_blocks_count = 123

abbrev pub indirect_blocks_per_sector : ℕ
indirect_blocks_per_sector = 128

-- The largest size to which 511 can be added in 32 bits.
abbrev pub max_rounded : ℕ
max_rounded = 2147483136

-- `bytes_to_sectors`, for a size from 0 to 2147483647. The sum in DIV_ROUND_UP has 32 bits: for the
-- largest sizes it wraps round, the quotient is negative, and as a `size_t` it is huge.
unfoldable pub bytes_to_sectors : ℕ → ℕ
bytes_to_sectors size =
    if leb size max_rounded
    then (size + 511) / 512
    else 18446744073709551616 - (4294967296 - (size + 511)) / 512

pub bytes_to_sectors_lem :
    (size : ℕ) → size ≤ max_rounded → bytes_to_sectors size ≡ (size + 511) / 512
unfolding bytes_to_sectors
bytes_to_sectors_lem size h = ground (arith, h)

-- `sectors_needed <= free_sectors - kept`, with a number of sectors that was cut to an `int`: from
-- 2 ^ 31 on it is negative.
abbrev pub needed_fits : ℕ → ℕ → ℕ → Bool
needed_fits sectors free_sectors kept =
    ltb 2147483647 (sectors % 4294967296) || leb (sectors % 4294967296 + kept) free_sectors

abbrev pub total_indirect : ℕ
total_indirect = 253

abbrev pub total_double_indirect : ℕ
total_double_indirect = 16766

-- `DIV_ROUND_UP((free_sectors - (total_indirect + 1)), 129)` and the three blocks in front.
unfoldable pub metadata_blocks : ℕ → ℕ
metadata_blocks free_sectors = 3 + (free_sectors - (total_indirect + 1) + 128) / 129

-- The size, or `BLOCK_SECTOR_SIZE * (free_sectors - kept) - 1`
unfoldable pub limited : ℕ → ℕ → ℕ → ℤ
unfolding bytes_to_sectors
limited size free_sectors kept =
    if needed_fits (bytes_to_sectors size) free_sectors kept
    then pos size
    else minus (512 * free_sectors) (512 * kept + 1)

-- `copyable_size_of_file`, with what `num_free_sectors` returns.
unfoldable pub copyable_size_of_file : ℕ → ℕ → ℤ
unfolding limited metadata_blocks
copyable_size_of_file free_sectors size =
    if leb free_sectors (direct_blocks_count + 1)
    then limited size free_sectors 1
    else if leb free_sectors total_indirect
    then limited size free_sectors 2
    else if leb total_double_indirect free_sectors
    then limited size total_double_indirect 131
    else limited size free_sectors (metadata_blocks free_sectors)

-- The sectors that a file with `n` sectors of data takes: its inode, its data, the indirect block
-- behind the direct ones, and the doubly indirect block with its indirect blocks behind that.
pub sectors_taken : ℕ → ℕ
sectors_taken n =
    if leb n 123 then 1 + n else if leb n 251 then 2 + n else 3 + n + (n - 251 + 127) / 128

limited-lem :
    (size free_sectors kept : ℕ)
    → kept < free_sectors
    → free_sectors ≤ 4000000
    → size ≤ max_rounded
    → (r : ℕ) × (limited size free_sectors kept ≡ pos r)
      × (r ≤ size)
      × (bytes_to_sectors r + kept ≤ free_sectors)
      × ((r ≡ size) ⊎ (bytes_to_sectors r + kept ≡ free_sectors))
unfolding limited
limited-lem size free_sectors kept h bound range =
    let e = bytes_to_sectors_lem size range in
    elim (dec_le (bytes_to_sectors size + kept) free_sectors) [
      | yes fits ↦ (size, ground (arith, e, fits, range), omega arith, fits, inl refl)
      | no over ↦
          let r = 512 * free_sectors - (512 * kept + 1) in
          let f = bytes_to_sectors_lem r (omega (arith, bound)) in
          (
            r,
            ground (arith, e, over, range, h),
            omega (arith, e, over, h),
            omega (arith, f, h),
            inr (omega (arith, f, h)),
          )
    ]

-- `n` sectors of data fit, and so do fewer; one more does not, or there is no inode for it.
record IsLimit (free_sectors n : ℕ) : Type 0 where
  fits : (m : ℕ) → m ≤ n → sectors_taken m ≤ free_sectors
  small : n ≤ 16635
  full : (free_sectors < sectors_taken (n + 1)) ⊎ (16635 < n + 1)

IsLimit-direct : (f : ℕ) → 2 ≤ f → f ≤ 124 → IsLimit f (f - 1)
unfolding sectors_taken
IsLimit-direct f lo hi = record {
  fits = λ m less. ground arith;
  small = omega arith;
  full = inl (ground arith);
}

IsLimit-indirect : (f : ℕ) → 125 ≤ f → f ≤ 253 → IsLimit f (f - 2)
unfolding sectors_taken
IsLimit-indirect f lo hi = record {
  fits = λ m less. ground arith;
  small = omega arith;
  full = inl (ground arith);
}

IsLimit-doubly : (f : ℕ) → 254 ≤ f → f < 16766 → IsLimit f (f - metadata_blocks f)
unfolding sectors_taken metadata_blocks
IsLimit-doubly f lo hi = record {
  fits = λ m less. ground arith;
  small = omega arith;
  full = inl (ground arith);
}

IsLimit-inode : (f : ℕ) → 16766 ≤ f → IsLimit f 16635
unfolding sectors_taken
IsLimit-inode f lo = record {
  fits = λ m less. ground arith;
  small = omega arith;
  full = inr (omega arith);
}

-- The result `z` is a size up to the one asked for, whose file fits the free sectors and the largest
-- inode. If it is less than the one asked for, one sector of data more does not fit.
pub record IsBest (free_sectors size : ℕ) (z : ℤ) : Type 0 where
  pub best : ℕ
  pub result : z ≡ pos best
  pub at_most : best ≤ size
  pub fits : sectors_taken (bytes_to_sectors best) ≤ free_sectors
  pub small : bytes_to_sectors best ≤ 16635
  pub maximal :
      (best ≡ size)
      ⊎ (free_sectors < sectors_taken (bytes_to_sectors best + 1))
      ⊎ (16635 < bytes_to_sectors best + 1)

by_limit :
    (free_sectors size top kept n : ℕ)
    → kept < top
    → n + kept ≡ top
    → IsLimit free_sectors n
    → top ≤ 4000000
    → size ≤ max_rounded
    → {z : ℤ} → z ≡ limited size top kept
    → IsBest free_sectors size z
by_limit free_sectors size top kept n h whole limit bound range e =
    let (r, result, less, fits, reached) = limited-lem size top kept h bound range in
    record {
      best = r;
      result = e ∙ result;
      at_most = less;
      fits = limit.fits (bytes_to_sectors r) (omega arith);
      small = omega (arith, limit.small);
      maximal = elim reached [
        | inl all ↦ inl all
        | inr full ↦
            let same : n ≡ bytes_to_sectors r = omega arith in
            inr (
              subst (λ m. (free_sectors < sectors_taken (m + 1)) ⊎ (16635 < m + 1)) same limit.full)
      ];
    }

metadata-lt : (f : ℕ) → 254 ≤ f → metadata_blocks f < f
unfolding metadata_blocks
metadata-lt f h = omega arith

-- With at least two free sectors, and a size to which 511 can be added in 32 bits,
-- `copyable_size_of_file` returns the best size: at most the one asked for, with a file that fits
-- the free sectors and the largest inode, and less than the one asked for only if one sector of
-- data more does not fit. The free sectors are an `int`.
pub copyable_size_of_file-IsBest :
    (free_sectors size : ℕ)
    → 2 ≤ free_sectors
    → free_sectors < 2147483648
    → size ≤ max_rounded
    → IsBest free_sectors size (copyable_size_of_file free_sectors size)
unfolding copyable_size_of_file
copyable_size_of_file-IsBest free_sectors size h int range = elim (dec_le free_sectors 124) [
  | yes direct ↦
      by_limit free_sectors size free_sectors 1 (free_sectors - 1) (omega arith) (omega arith)
        (IsLimit-direct free_sectors h direct) (omega arith) range (ground arith)
  | no more ↦ elim (dec_le free_sectors 253) [
    | yes indirect ↦
        by_limit free_sectors size free_sectors 2 (free_sectors - 2) (omega arith) (omega arith)
          (IsLimit-indirect free_sectors (omega arith) indirect) (omega arith) range (ground arith)
    | no most ↦ elim (dec_le 16766 free_sectors) [
      | yes all ↦
          by_limit free_sectors size 16766 131 16635 (omega arith) (omega arith)
            (IsLimit-inode free_sectors all) (omega arith) range (ground arith)
      | no part ↦
          by_limit free_sectors size free_sectors (metadata_blocks free_sectors)
            (free_sectors - metadata_blocks free_sectors) (metadata-lt free_sectors (omega arith))
            (omega (arith, metadata-lt free_sectors (omega arith)))
            (IsLimit-doubly free_sectors (omega arith) (omega arith)) (omega arith) range
            (ground arith)
    ]
  ]
]

-- For a size above 2147483136 bytes, which an `int` still holds, `copyable_size_of_file` returns
-- the size as it is, though the file has more sectors than there are free ones. At most 4194303
-- sectors are free.
pub copyable_size_of_file-wraps :
    (free_sectors size : ℕ)
    → free_sectors ≤ 4194303
    → max_rounded < size
    → size < 2147483648
    → (copyable_size_of_file free_sectors size ≡ pos size) × (free_sectors < (size + 511) / 512)
unfolding copyable_size_of_file limited bytes_to_sectors metadata_blocks
copyable_size_of_file-wraps free_sectors size few over range =
    (ground (arith, over, range), omega (arith, few, over))

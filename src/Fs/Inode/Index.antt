-- ===== src/Fs/Inode/Index.antt =====
-- `byte_to_sector` of a3/fs/inode.c and the sectors of a file as one list.
use comp310_winter.Base.{
  ℕ, zero, suc, ◌+◌, ◌-◌, ◌*◌, ◌/◌, ◌%◌, ◌<◌, ◌≡◌, refl, ap, ◌∙◌, Option, some, List, [], ◌∷◌, ◌++◌,
  arith, length, get_or, dec_lt,
}
use comp310_winter.Fs.Block.{Sector}
use comp310_winter.Fs.Cache.{Cache, buffer_cache_read}
use comp310_winter.Fs.Cache.Coherence.{Reads, IsGood}
use comp310_winter.Fs.Cache.Contents.{Unchanged, buffer_cache_read-Reads}
use comp310_winter.Fs.Inode.{
  InodeDisk, block_at, no_sector, single_indirect, doubly_indirect, index_to_sector, byte_to_sector,
}

-- The entries `i`, ..., `i + n - 1` of a block of sectors.
abbrev pub blocks_from : ℕ → ℕ → Sector → List ℕ
blocks_from zero i b = []
blocks_from (suc n) i b = block_at b i ∷ blocks_from n (i + 1) b

-- The entries of all the blocks of a list.
abbrev pub all_blocks : (ℕ → Sector) → List ℕ → List ℕ
all_blocks disk [] = []
all_blocks disk (s ∷ ss) = blocks_from 128 0 (disk s) ++ all_blocks disk ss

-- How many blocks behind the doubly indirect block the file of an inode reaches into: one for each
-- 128 of its sectors behind the first 251.
abbrev pub second_blocks : InodeDisk → ℕ
second_blocks idisk = ((idisk.length + 511) / 512 - 251 + 127) / 128

-- The data sectors that the blocks of an inode name, in order, on a disk with the given contents. Of
-- the doubly indirect block only the entries count that the file reaches into.
abbrev pub data_sectors : (ℕ → Sector) → InodeDisk → List ℕ
data_sectors disk idisk =
    idisk.direct_blocks
    ++ (blocks_from 128 0 (disk idisk.indirect_block)
        ++ all_blocks disk (blocks_from (second_blocks idisk) 0 (disk idisk.doubly_indirect_block)))

get_or-append_left :
    (xs ys : List ℕ) (i d : ℕ) → i < length xs → get_or (xs ++ ys) i d ≡ get_or xs i d
get_or-append_left [] ys i d h = absurd (omega arith)
get_or-append_left (x ∷ xs) ys zero d h = refl
get_or-append_left (x ∷ xs) ys (suc i) d h = get_or-append_left xs ys i d (omega arith)

get_or-append_right :
    (xs ys : List ℕ) (i d : ℕ) → get_or (xs ++ ys) (length xs + i) d ≡ get_or ys i d
get_or-append_right [] ys i d = ap (λ k. get_or ys k d) (omega arith)
get_or-append_right (x ∷ xs) ys i d =
    let e : length (x ∷ xs) + i ≡ suc (length xs + i) = omega arith in
    ap (λ k. get_or (x ∷ (xs ++ ys)) k d) e ∙ get_or-append_right xs ys i d

length-blocks_from : (n i : ℕ) (b : Sector) → length (blocks_from n i b) ≡ n
length-blocks_from zero i b = refl
length-blocks_from (suc n) i b = ap suc (length-blocks_from n (i + 1) b)

get_or-blocks_from :
    (n i j : ℕ) (b : Sector) → j < n → get_or (blocks_from n i b) j no_sector ≡ block_at b (i + j)
get_or-blocks_from zero i j b h = absurd (omega arith)
get_or-blocks_from (suc n) i zero b h = ap (block_at b) (omega arith)
get_or-blocks_from (suc n) i (suc j) b h =
    get_or-blocks_from n (i + 1) j b (omega arith) ∙ ap (block_at b) (omega arith)

get_or-all_blocks :
    (disk : ℕ → Sector) (ss : List ℕ) (i j : ℕ)
    → i < length ss
    → j < 128
    → get_or (all_blocks disk ss) (128 * i + j) no_sector
      ≡ block_at (disk (get_or ss i no_sector)) j
get_or-all_blocks disk [] i j h k = absurd (omega arith)
get_or-all_blocks disk (s ∷ ss) zero j h k =
    let e : 128 * 0 + j ≡ j = omega arith in
    let f : 0 + j ≡ j = omega arith in
    ap (λ m. get_or (blocks_from 128 0 (disk s) ++ all_blocks disk ss) m no_sector) e
    ∙ get_or-append_left (blocks_from 128 0 (disk s)) (all_blocks disk ss) j no_sector
        (omega (arith, length-blocks_from 128 0 (disk s)))
    ∙ get_or-blocks_from 128 0 j (disk s) k
    ∙ ap (block_at (disk s)) f
get_or-all_blocks disk (s ∷ ss) (suc i) j h k =
    let e : 128 * suc i + j ≡ length (blocks_from 128 0 (disk s)) + (128 * i + j) =
      omega (arith, length-blocks_from 128 0 (disk s)) in
    ap (λ m. get_or (blocks_from 128 0 (disk s) ++ all_blocks disk ss) m no_sector) e
    ∙ get_or-append_right (blocks_from 128 0 (disk s)) (all_blocks disk ss) (128 * i + j) no_sector
    ∙ get_or-all_blocks disk ss i j (omega arith) k

get_or-default : (xs : List ℕ) (i d e : ℕ) → i < length xs → get_or xs i d ≡ get_or xs i e
get_or-default [] i d e h = absurd (omega arith)
get_or-default (x ∷ xs) zero d e h = refl
get_or-default (x ∷ xs) (suc i) d e h = get_or-default xs i d e (omega arith)

pub Unchanged-trans : {a b c : Cache} → Unchanged a b → Unchanged b c → Unchanged a c
Unchanged-trans u v = record {
  good = v.good;
  same_size = v.same_size ∙ u.same_size;
  reads = λ s x r. v.reads s x (u.reads s x r);
}

pub Unchanged-refl : (c : Cache) → IsGood c → Unchanged c c
Unchanged-refl c w = record { good = w; same_size = refl; reads = λ s b r. r }

-- The blocks of sector numbers that the file of an inode uses are on the device, whose contents are
-- `disk`. A block that a short file does not have has the number 0, which is on the device; the
-- entries of the doubly indirect block matter only as far as the file reaches.
pub record IsMapped (idisk : InodeDisk) (disk : ℕ → Sector) (c : Cache) : Type 0 where
  pub good : IsGood c
  pub contents : (s : ℕ) → Reads c s (disk s)
  pub direct : length idisk.direct_blocks ≡ 123
  pub indirect : idisk.indirect_block < c.device.size
  pub doubly : idisk.doubly_indirect_block < c.device.size
  pub second :
      (i : ℕ)
      → i < second_blocks idisk
      → block_at (disk idisk.doubly_indirect_block) i < c.device.size

-- A sector of the device is read as the disk has it.
pub read_disk :
    (s : ℕ) (c : Cache) (b : Sector)
    → IsGood c
    → Reads c s b
    → s < c.device.size
    → (c' : Cache) × (buffer_cache_read s c ≡ some (b, c')) × Unchanged c c'
read_disk s c b w r h =
    let (a, c', result, u, same) = buffer_cache_read-Reads s c w h in
    (c', result ∙ ap (λ (x : Sector). some (x, c')) (same b r), u)

module _ (idisk : InodeDisk) (disk : ℕ → Sector) (c : Cache) (w : IsMapped idisk disk c) where
  -- The sector comes back, and the contents of the disk stay.
  abbrev pub Finds : Option (ℕ × Cache) → ℕ → Type 0
  Finds run sector = (c' : Cache) × (run ≡ some (sector, c')) × Unchanged c c'

  single_indirect-Finds :
      (k : ℕ) → Finds (single_indirect idisk k c) (block_at (disk idisk.indirect_block) k)
  unfolding single_indirect
  single_indirect-Finds k =
      let (c', result, u) =
        read_disk idisk.indirect_block c (disk idisk.indirect_block) w.good
          (w.contents idisk.indirect_block) w.indirect in
      (c', rw (result, single_indirect) refl, u)

  doubly_indirect-Finds :
      (k : ℕ)
      → k / 128 < second_blocks idisk
      → Finds
          (doubly_indirect idisk k c)
          (block_at (disk (block_at (disk idisk.doubly_indirect_block) (k / 128))) (k % 128))
  unfolding doubly_indirect
  doubly_indirect-Finds k h =
      let d = idisk.doubly_indirect_block in
      let (c', first, u) = read_disk d c (disk d) w.good (w.contents d) w.doubly in
      let s = block_at (disk d) (k / 128) in
      let (c'', second, v) =
        read_disk s c' (disk s) u.good (u.reads s (disk s) (w.contents s))
          (omega (arith, u.same_size, w.second (k / 128) h)) in
      (c'', rw (first, doubly_indirect, second) refl, Unchanged-trans u v)

  pub data_direct :
      (i : ℕ)
      → i < 123
      → get_or (data_sectors disk idisk) i no_sector ≡ get_or idisk.direct_blocks i 0
  data_direct i h =
      get_or-append_left idisk.direct_blocks _ i no_sector (omega (arith, w.direct))
      ∙ get_or-default idisk.direct_blocks i no_sector 0 (omega (arith, w.direct))

  data_behind :
      (k : ℕ)
      → get_or (data_sectors disk idisk) (123 + k) no_sector
        ≡ get_or
            (blocks_from 128 0 (disk idisk.indirect_block)
              ++ all_blocks disk
                  (blocks_from (second_blocks idisk) 0 (disk idisk.doubly_indirect_block)))
            k
            no_sector
  data_behind k =
      let e : 123 + k ≡ length idisk.direct_blocks + k = omega (arith, w.direct) in
      ap (λ m. get_or (data_sectors disk idisk) m no_sector) e
      ∙ get_or-append_right idisk.direct_blocks _ k no_sector

  pub data_single :
      (k : ℕ)
      → k < 128
      → get_or (data_sectors disk idisk) (123 + k) no_sector
        ≡ block_at (disk idisk.indirect_block) k
  data_single k h =
      let b = disk idisk.indirect_block in
      let e : 0 + k ≡ k = omega arith in
      data_behind k
      ∙ get_or-append_left (blocks_from 128 0 b)
          (all_blocks disk (blocks_from (second_blocks idisk) 0 (disk idisk.doubly_indirect_block)))
          k no_sector (omega (arith, length-blocks_from 128 0 b))
      ∙ get_or-blocks_from 128 0 k b h
      ∙ ap (block_at b) e

  pub data_doubly :
      (k : ℕ)
      → k / 128 < second_blocks idisk
      → get_or (data_sectors disk idisk) (123 + (128 + k)) no_sector
        ≡ block_at (disk (block_at (disk idisk.doubly_indirect_block) (k / 128))) (k % 128)
  data_doubly k h =
      let b = disk idisk.indirect_block in
      let d = disk idisk.doubly_indirect_block in
      let n = second_blocks idisk in
      let ss = blocks_from n 0 d in
      let e : 128 + k ≡ length (blocks_from 128 0 b) + k =
        omega (arith, length-blocks_from 128 0 b) in
      let f : k ≡ 128 * (k / 128) + k % 128 = omega arith in
      let g : 0 + k / 128 ≡ k / 128 = omega arith in
      data_behind (128 + k)
      ∙ ap (λ m. get_or (blocks_from 128 0 b ++ all_blocks disk ss) m no_sector) e
      ∙ get_or-append_right (blocks_from 128 0 b) (all_blocks disk ss) k no_sector
      ∙ ap (λ m. get_or (all_blocks disk ss) m no_sector) f
      ∙ get_or-all_blocks disk ss (k / 128) (k % 128) (omega (arith, h, length-blocks_from n 0 d))
          (omega arith)
      ∙ ap (λ s. block_at (disk s) (k % 128))
          (get_or-blocks_from n 0 (k / 128) d h ∙ ap (block_at d) g)

  index_to_sector-Finds :
      (i : ℕ)
      → i < 16635
      → i < (idisk.length + 511) / 512
      → Finds (index_to_sector idisk i c) (get_or (data_sectors disk idisk) i no_sector)
  unfolding index_to_sector
  index_to_sector-Finds i h inside = elim (dec_lt i 123) [
    | yes direct ↦ (c, ground (arith, data_direct i direct), Unchanged-refl c w.good)
    | no more ↦ elim (dec_lt i 251) [
      | yes single ↦
          let (c', result, u) = single_indirect-Finds (i - 123) in
          let e : 123 + (i - 123) ≡ i = omega arith in
          (c', ground (arith, result, data_single (i - 123) (omega arith), e), u)
      | no most ↦
          let (c', result, u) = doubly_indirect-Finds (i - 251) (omega (arith, most, inside)) in
          let e : 123 + (128 + (i - 251)) ≡ i = omega arith in
          (c', ground (arith, result, data_doubly (i - 251) (omega (arith, most, inside)), e), u)
    ]
  ]

  -- For a position inside a file and within the 16635 sectors of an inode, `byte_to_sector` does
  -- not panic, returns the entry of the position's sector in the list of the inode's data sectors
  -- (the direct ones, those of the indirect block, those of the indirect blocks of the doubly
  -- indirect block that the file reaches into), and leaves every sector as it was. The cache is
  -- good, and the blocks of sector numbers that the file reaches into are on the device.
  pub byte_to_sector-Finds :
      (pos : ℕ)
      → pos < idisk.length
      → pos / 512 < 16635
      → Finds (byte_to_sector idisk pos c) (get_or (data_sectors disk idisk) (pos / 512) no_sector)
  unfolding byte_to_sector
  byte_to_sector-Finds pos inside small =
      let (c', result, u) = index_to_sector-Finds (pos / 512) small (omega (arith, inside)) in
      (c', ground (arith, result), u)

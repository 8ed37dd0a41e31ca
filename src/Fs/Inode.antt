-- ===== src/Fs/Inode.antt =====
-- a3/fs/inode.c: where the data of a file is. An inode has 123 direct sectors, an indirect block of 128
-- sectors and a doubly indirect block of 128 indirect blocks. Sectors are read through the cache.
pub mod Index
pub mod Reading
pub mod Reserve
pub mod Sectors
pub mod Table
pub mod Write
mod Tests
use comp310_winter.Base.{
  ℕ, ◌+◌, ◌-◌, ◌*◌, ◌/◌, ◌%◌, ◌==◌, ◌&&◌, ◌++◌, zero, suc, [], ◌∷◌, min, ltb, Bool, Option, none,
  some, List, if◌then◌else◌, get_or,
}
use comp310_winter.Fs.Block.{Sector}
use comp310_winter.Fs.Cache.{Cache, option_bind, buffer_cache_read}
use comp310_winter.Fs.Capacity.{direct_blocks_count, indirect_blocks_per_sector, bytes_to_sectors}

-- `struct inode_disk`
pub record InodeDisk : Type 0 where
  pub direct_blocks : List ℕ
  pub indirect_block : ℕ
  pub doubly_indirect_block : ℕ
  pub is_dir : Bool
  pub length : ℕ
  pub magic : ℕ

-- `blocks[i]` of a `struct inode_indirect_block_sector`: four bytes, the lowest first.
unfoldable pub block_at : Sector → ℕ → ℕ
block_at b i =
    get_or b (4 * i) 0
    + 256 * get_or b (4 * i + 1) 0
    + 65536 * get_or b (4 * i + 2) 0
    + 16777216 * get_or b (4 * i + 3) 0

-- `-1` as a `block_sector_t`
abbrev pub no_sector : ℕ
no_sector = 4294967295

-- The doubly indirect case, from the index of its first sector on.
unfoldable pub doubly_indirect : InodeDisk → ℕ → Cache → Option (ℕ × Cache)
unfolding block_at
doubly_indirect idisk k c =
    option_bind (buffer_cache_read idisk.doubly_indirect_block c) λ (first, c').
      option_bind (buffer_cache_read (block_at first (k / indirect_blocks_per_sector)) c')
        λ (second, c''). some (block_at second (k % indirect_blocks_per_sector), c'')

unfoldable pub single_indirect : InodeDisk → ℕ → Cache → Option (ℕ × Cache)
unfolding block_at
single_indirect idisk k c =
    option_bind (buffer_cache_read idisk.indirect_block c) λ (b, c'). some (block_at b k, c')

-- `index_to_sector`; `none` is a panic.
unfoldable pub index_to_sector : InodeDisk → ℕ → Cache → Option (ℕ × Cache)
unfolding single_indirect doubly_indirect
index_to_sector idisk index c =
    if ltb index direct_blocks_count
    then some (get_or idisk.direct_blocks index 0, c)
    else if ltb index (direct_blocks_count + 128)
    then single_indirect idisk (index - direct_blocks_count) c
    else if ltb index (direct_blocks_count + 128 + 128 * 128)
    then doubly_indirect idisk (index - (direct_blocks_count + 128)) c
    else some (no_sector, c)

-- `byte_to_sector`, for a position that is not negative.
unfoldable pub byte_to_sector : InodeDisk → ℕ → Cache → Option (ℕ × Cache)
unfolding index_to_sector
byte_to_sector idisk pos c =
    if ltb pos idisk.length then index_to_sector idisk (pos / 512) c else some (no_sector, c)

-- `memcpy` of `n` bytes of a sector, from `i` on.
unfoldable pub slice : ℕ → ℕ → Sector → List ℕ
slice zero i b = []
slice (suc n) i b = get_or b i 0 ∷ slice n (i + 1) b

-- The bytes to copy out of a sector. Behind the end of the file there are none.
abbrev pub chunk_size : InodeDisk → ℕ → ℕ → ℕ
chunk_size idisk size offset = min size (min (idisk.length - offset) (512 - offset % 512))

-- What a round adds to the buffer: a whole sector, or a part of it.
abbrev pub chunk_of : ℕ → ℕ → Sector → List ℕ
chunk_of chunk offset b =
    if (offset % 512 == 0) && (chunk == 512) then b else slice chunk (offset % 512) b

-- The loop of `inode_read_at` behind the search for the sector, with `again` the next round.
unfoldable pub read_chunk :
    (ℕ → ℕ → List ℕ → Cache → Option (List ℕ × Cache))
    → InodeDisk
    → ℕ
    → ℕ
    → List ℕ
    → ℕ × Cache
    → Option (List ℕ × Cache)
unfolding slice
read_chunk again idisk size offset buffer (sector_idx, c) =
    let chunk = chunk_size idisk size offset in
    if chunk == 0
    then some (buffer, c)
    else option_bind (buffer_cache_read sector_idx c)
        (λ (b, c'). again (size - chunk) (offset + chunk) (buffer ++ chunk_of chunk offset b) c')

-- The loop of `inode_read_at` on fuel. A sector index is unsigned, so `sector_idx < 0` never holds.
unfoldable pub read_loop : ℕ → InodeDisk → ℕ → ℕ → List ℕ → Cache → Option (List ℕ × Cache)
unfolding read_chunk byte_to_sector
read_loop zero idisk size offset buffer c = none
read_loop (suc n) idisk size offset buffer c =
    if size == 0
    then some (buffer, c)
    else option_bind (byte_to_sector idisk offset c)
        (read_chunk (read_loop n idisk) idisk size offset buffer)

-- `inode_read_at`: the bytes that were read. Each round but the last reads one at least.
unfoldable pub inode_read_at : InodeDisk → ℕ → ℕ → Cache → Option (List ℕ × Cache)
unfolding read_loop
inode_read_at idisk size offset c = read_loop (size + 1) idisk size offset [] c

-- The loops of `get_inode_data_sectors` that copy `n` sector numbers, from the index `i` on.
unfoldable pub copy_entries : (ℕ → ℕ) → ℕ → ℕ → List ℕ
copy_entries entry zero i = []
copy_entries entry (suc n) i = entry i ∷ copy_entries entry n (i + 1)

-- Its loop over the indirect blocks of the doubly indirect block `b`, `n` of them from `i` on.
unfoldable pub copy_indirect : ℕ → ℕ → Sector → ℕ → Cache → Option (List ℕ × Cache)
unfolding copy_entries block_at
copy_indirect zero i b num_sectors c = some ([], c)
copy_indirect (suc n) i b num_sectors c =
    let subsize = min num_sectors indirect_blocks_per_sector in
    option_bind (buffer_cache_read (block_at b i) c) λ (b2, c').
      option_bind (copy_indirect n (i + 1) b (num_sectors - subsize) c')
        λ (rest, c''). some (copy_entries (block_at b2) subsize 0 ++ rest, c'')

-- The sectors of the indirect block, and those of the doubly indirect block, if the file has any there.
unfoldable pub single_sectors : InodeDisk → ℕ → Cache → Option (List ℕ × Cache)
unfolding copy_entries block_at
single_sectors idisk l c =
    if l == 0
    then some ([], c)
    else option_bind (buffer_cache_read idisk.indirect_block c)
        (λ (b, c'). some (copy_entries (block_at b) l 0, c'))

unfoldable pub doubly_sectors : InodeDisk → ℕ → Cache → Option (List ℕ × Cache)
unfolding copy_indirect
doubly_sectors idisk l c =
    if l == 0
    then some ([], c)
    else option_bind (buffer_cache_read idisk.doubly_indirect_block c)
        (λ (b, c'). copy_indirect ((l + 127) / 128) 0 b l c')

-- `get_inode_data_sectors`. `none` is a panic, also that of the assertion at its end.
unfoldable pub get_inode_data_sectors : InodeDisk → Cache → Option (List ℕ × Cache)
unfolding single_sectors doubly_sectors
get_inode_data_sectors idisk c =
    let num_sectors = bytes_to_sectors idisk.length in
    let direct = min num_sectors direct_blocks_count in
    let single = min (num_sectors - direct) 128 in
    let doubly = min (num_sectors - direct - single) (128 * 128) in
    option_bind (single_sectors idisk single c) λ (ss, c').
      option_bind (doubly_sectors idisk doubly c') λ (ds, c'').
        if num_sectors - direct - single - doubly == 0
        then some (copy_entries (λ i. get_or idisk.direct_blocks i 0) direct 0 ++ (ss ++ ds), c'')
        else none

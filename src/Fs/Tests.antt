-- ===== src/Fs/Tests.antt =====
-- Runs of the buffer cache on a device of four sectors.
use comp310_winter.Base.{
  ◌+◌, ◌/◌, ◌<◌, refl, replicate, false, ℕ, ◌<◌, ◌≡◌, ◌≢◌, arith, some, [], ◌∷◌, ◌==◌,
  if◌then◌else◌,
}
use comp310_winter.Fs.Block.{Sector, Device}
use comp310_winter.Fs.Cache.{
  Cache, buffer_cache_init, buffer_cache_read, buffer_cache_write, buffer_cache_close,
}
use comp310_winter.Fs.Cache.Coherence.{Reads, IsGood, Evicted, evict-Evicted}
use comp310_winter.Fs.Cache.Contents.{Unchanged, buffer_cache_read-Reads, buffer_cache_write-Reads}
use comp310_winter.Fs.Cache.Closing.{buffer_cache_init-IsGood, buffer_cache_close-Reads}
use comp310_winter.Fs.Capacity.{
  IsBest, pos, copyable_size_of_file, copyable_size_of_file-IsBest, copyable_size_of_file-wraps,
}
use comp310_winter.Fs.Inode.{InodeDisk, block_at}
use comp310_winter.Fs.Inode.Index.{IsMapped}

abbrev disk : Device
disk = record {
  size = 4;
  sectors = λ s. if s == 2 then 7 ∷ 8 ∷ [] else [];
  read_cnt = 0;
  write_cnt = 0;
}

abbrev cache : Cache
cache = buffer_cache_init disk

within : 2 < cache.device.size
unfolding buffer_cache_init
within = omega arith

cache-IsGood : IsGood cache
cache-IsGood = (buffer_cache_init-IsGood disk).0

buffer_cache_read-Reads_example :
    (b : Sector) × (c' : Cache) × (buffer_cache_read 2 cache ≡ some (b, c'))
    × Unchanged cache c'
    × ((a : Sector) → Reads cache 2 a → b ≡ a)
buffer_cache_read-Reads_example = buffer_cache_read-Reads 2 cache cache-IsGood within

buffer_cache_write-Reads_example :
    (c' : Cache) × (buffer_cache_write 2 (5 ∷ []) cache ≡ some c')
    × IsGood c'
    × Reads c' 2 (5 ∷ [])
    × ((s : ℕ) (b : Sector) → 2 ≢ s → Reads cache s b → Reads c' s b)
    × (c'.device.size ≡ cache.device.size)
buffer_cache_write-Reads_example = buffer_cache_write-Reads 2 (5 ∷ []) cache cache-IsGood within

evict-Evicted_example : Evicted 2 cache
evict-Evicted_example = evict-Evicted 2 cache cache-IsGood

buffer_cache_close-Reads_example :
    (c' : Cache) × (buffer_cache_close cache ≡ some c')
    × IsGood c'
    × ((s : ℕ) (b : Sector) → Reads cache s b → c'.device.sectors s ≡ b)
buffer_cache_close-Reads_example = buffer_cache_close-Reads cache cache-IsGood

copyable_size_of_file-IsBest_example : IsBest 300 200000 (copyable_size_of_file 300 200000)
copyable_size_of_file-IsBest_example =
    copyable_size_of_file-IsBest 300 200000 (omega arith) (omega arith) (omega arith)

copyable_size_of_file-wraps_example :
    (copyable_size_of_file 300 2147483647 ≡ pos 2147483647) × (300 < (2147483647 + 511) / 512)
copyable_size_of_file-wraps_example =
    copyable_size_of_file-wraps 300 2147483647 (omega arith) (omega arith) (omega arith)

-- A file of 1000 bytes, with an inode that names every direct sector 3.
abbrev idisk : InodeDisk
idisk = record {
  direct_blocks = replicate 123 3;
  indirect_block = 0;
  doubly_indirect_block = 1;
  is_dir = false;
  length = 1000;
  magic = 0;
}

idisk-IsMapped : IsMapped idisk disk.sectors cache
unfolding buffer_cache_init block_at
idisk-IsMapped = record {
  good = cache-IsGood;
  contents = (buffer_cache_init-IsGood disk).1;
  direct = refl;
  indirect = omega arith;
  doubly = omega arith;
  second = λ i h. absurd (omega (arith, h));
}

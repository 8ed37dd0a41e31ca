-- ===== src/Fs/Inode/Tests.antt =====
-- A file of 1000 bytes on a formatted device of four sectors, without a block of sector numbers.
use comp310_winter.Base.{
  Option, none, [], ℕ, ◌+◌, ◌-◌, ◌/◌, ◌<◌, ◌==◌, ◌≡◌, refl, ap, false, some, arith, if◌then◌else◌,
  get_or, replicate, length-replicate, length, Bool, true, dec_lt, min,
}
use comp310_winter.Fs.Block.{Sector, Device}
use comp310_winter.Fs.Cache.{Cache, buffer_cache_init, buffer_cache_read}
use comp310_winter.Fs.Cache.Closing.{buffer_cache_init-IsGood}
use comp310_winter.Fs.Cache.Contents.{Unchanged}
use comp310_winter.Fs.Sample.{free_map_sector}
use comp310_winter.Fs.Inode.{
  InodeDisk, no_sector, inode_read_at, copy_entries, get_inode_data_sectors,
}
use comp310_winter.Fs.Inode.Sectors.{Lists, file_sector, get_inode_data_sectors-Lists}
use comp310_winter.Fs.Capacity.{bytes_to_sectors}
use comp310_winter.Fs.Inode.Reserve.{Store}
use comp310_winter.Fs.Inode.Table.{OpenInodes, find_inode, at_address, inode_open, inode_close}
use comp310_winter.Fs.Inode.Table.Reopened.{inode_close-reopened}
use comp310_winter.Fs.Inode.Index.{data_sectors, read_disk}
use comp310_winter.Fs.Inode.Reading.{IsStored, sector_at, file_bytes, inode_read_at-file_bytes}

-- The data is in the sector 3; the sector 0 is the inode of the free map.
abbrev sectors : ℕ → Sector
sectors s = if s == 0 then free_map_sector else replicate 512 (if s == 3 then 7 else 0)

length-sectors : (b : Bool) (x : ℕ) → length (if b then free_map_sector else replicate 512 x) ≡ 512
length-sectors true x = refl
length-sectors false x = length-replicate {A = ℕ} 512 x

abbrev disk : Device
disk = record { size = 4; sectors = sectors; read_cnt = 0; write_cnt = 0 }

abbrev cache : Cache
cache = buffer_cache_init disk

abbrev idisk : InodeDisk
idisk = record {
  direct_blocks = replicate 123 3;
  indirect_block = 0;
  doubly_indirect_block = 0;
  is_dir = false;
  length = 1000;
  magic = 0;
}

data_sector : (pos : ℕ) → pos < 1000 → sector_at disk.sectors idisk pos ≡ 3
data_sector pos h = elim (dec_lt pos 512) [
  | yes first ↦ ap at {x = pos / 512} {y = 0} (omega (arith, first))
  | no second ↦ ap at {x = pos / 512} {y = 1} (omega (arith, h, second))
]
  where
    at : ℕ → ℕ
    at i = get_or (data_sectors disk.sectors idisk) i no_sector

idisk-IsStored : IsStored idisk disk.sectors cache
unfolding buffer_cache_init
idisk-IsStored = record {
  mapped = record {
    good = (buffer_cache_init-IsGood disk).0;
    contents = (buffer_cache_init-IsGood disk).1;
    direct = refl;
    indirect = omega arith;
    doubly = omega arith;
    second = λ i h. absurd (omega (arith, h));
  };
  whole = λ s. length-sectors (s == 0) (if s == 3 then 7 else 0);
  small = omega arith;
  on_device = λ pos h. omega (arith, data_sector pos h);
}

inode_read_at-file_bytes_example :
    (c' : Cache) × (inode_read_at idisk 700 500 cache
      ≡ some (file_bytes disk.sectors idisk (min 700 (1000 - 500)) 500, c'))
    × Unchanged cache c'
inode_read_at-file_bytes_example =
    inode_read_at-file_bytes idisk disk.sectors cache 700 500 idisk-IsStored

get_inode_data_sectors-Lists_example :
    Lists cache
      (get_inode_data_sectors idisk cache)
      (copy_entries (file_sector idisk disk.sectors) (bytes_to_sectors 1000) 0)
get_inode_data_sectors-Lists_example =
    get_inode_data_sectors-Lists idisk disk.sectors cache idisk-IsStored.mapped (omega arith)

-- No inode is open, and the free map is a number of sectors.
abbrev table : OpenInodes ℕ
table = record { inodes = []; store = record { cache = cache; free_map = 0 } }

abbrev counted : ℕ → Store ℕ → Option (Store ℕ)
counted s t = some (record t { free_map = t.free_map + 1 })

read_three :
    (c' : Cache) × (buffer_cache_read 3 cache ≡ some (replicate 512 7, c')) × Unchanged cache c'
read_three =
    read_disk 3 cache (replicate 512 7) idisk-IsStored.mapped.good
      (idisk-IsStored.mapped.contents 3)
      (omega (arith, data_sector 0 (omega arith), idisk-IsStored.on_device 0 (omega arith)))

inode_close-reopened_example :
    (first second : OpenInodes ℕ) × (inode_open 10 3 table ≡ some (10, first))
    × (inode_open 20 3 first ≡ some (10, first))
    × (inode_close counted 10 first ≡ some second)
    × (second.inodes ≡ [])
    × (inode_close counted 10 second ≡ none)
unfolding find_inode at_address
inode_close-reopened_example =
    inode_close-reopened counted 10 20 3 table (replicate 512 7) read_three.0 refl refl read_three.1

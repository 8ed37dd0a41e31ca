-- ===== src/Fs/Sample.antt =====
-- Test data: a file of 1000 bytes in the sectors 3 and 4 of a formatted device of five sectors, and no
-- block of sector numbers. Sector 0 ends in INODE_MAGIC, as the inode of the free map does.
use comp310_winter.Base.{
  Option, none, [], List, ◌∷◌, ◌++◌, ◌==◌, Bool, true, if◌then◌else◌, length, ℕ, ◌+◌, ◌*◌, ◌/◌, ◌<◌,
  ◌≡◌, refl, ap, ◌∙◌, false, some, arith, get_or, replicate, get_or-replicate, dec_lt,
}
use comp310_winter.Fs.Block.{Sector, Device}
use comp310_winter.Fs.Cache.{Cache, buffer_cache_init}
use comp310_winter.Fs.Cache.Closing.{buffer_cache_init-IsGood}
use comp310_winter.Fs.Inode.{InodeDisk, block_at, no_sector}
use comp310_winter.Fs.Inode.Index.{data_sectors}
use comp310_winter.Fs.Inode.Reading.{sector_at}
use comp310_winter.Fs.Inode.Table.{Inode}
use comp310_winter.Fs.Inode.Reserve.{Store}
use comp310_winter.Fs.Inode.Write.Loop.{IsWritable}

-- The inode of the free map, with the bytes of INODE_MAGIC at the end.
abbrev pub free_map_sector : List ℕ
free_map_sector = replicate 508 0 ++ (68 ∷ 79 ∷ 78 ∷ 73 ∷ [])

abbrev pub sectors : ℕ → Sector
sectors s = if s == 0 then free_map_sector else replicate 512 0

abbrev pub disk : Device
disk = record { size = 5; sectors = sectors; read_cnt = 0; write_cnt = 0 }

length-formatted : (b : Bool) → length (if b then free_map_sector else replicate 512 0) ≡ 512
length-formatted true = refl
length-formatted false = refl

abbrev pub cache : Cache
cache = buffer_cache_init disk

abbrev pub idisk : InodeDisk
idisk = record {
  direct_blocks = 3 ∷ 4 ∷ replicate 121 0;
  indirect_block = 0;
  doubly_indirect_block = 0;
  is_dir = false;
  length = 1000;
  magic = 0;
}

pub block_at-replicate : (i : ℕ) → block_at (replicate 512 0) i ≡ 0
unfolding block_at
block_at-replicate i = omega (
  arith,
  get_or-replicate {A = ℕ} 512 (4 * i) 0,
  get_or-replicate {A = ℕ} 512 (4 * i + 1) 0,
  get_or-replicate {A = ℕ} 512 (4 * i + 2) 0,
  get_or-replicate {A = ℕ} 512 (4 * i + 3) 0,
)

data_sector : (pos : ℕ) → pos < 1000 → sector_at disk.sectors idisk pos ≡ 3 + pos / 512
data_sector pos h = elim (dec_lt pos 512) [
  | yes first ↦
      ap at {x = pos / 512} {y = 0} (omega (arith, first))
      ∙ ap (λ k. 3 + k) {x = 0} {y = pos / 512} (omega (arith, first))
  | no second ↦
      ap at {x = pos / 512} {y = 1} (omega (arith, h, second))
      ∙ ap (λ k. 3 + k) {x = 1} {y = pos / 512} (omega (arith, h, second))
]
  where
    at : ℕ → ℕ
    at i = get_or (data_sectors disk.sectors idisk) i no_sector

pub idisk-IsWritable : IsWritable idisk disk.sectors cache
unfolding buffer_cache_init
idisk-IsWritable = record {
  stored = record {
    mapped = record {
      good = (buffer_cache_init-IsGood disk).0;
      contents = (buffer_cache_init-IsGood disk).1;
      direct = refl;
      indirect = omega arith;
      doubly = omega arith;
      second = λ i h. absurd (omega (arith, h));
    };
    whole = λ s. length-formatted (s == 0);
    small = omega arith;
    on_device = λ pos h. omega (arith, h, data_sector pos h);
  };
  apart = record {
    distinct = λ p q h k e. omega (arith, e, data_sector p h, data_sector q k);
    off_indirect = λ p h e. omega (arith, e, data_sector p h);
    off_doubly = λ p h e. omega (arith, e, data_sector p h);
    off_second = λ p i h k e. absurd (omega (arith, k));
  };
}

abbrev pub inode : Inode
inode = record {
  address = 10;
  sector = 2;
  open_cnt = 1;
  removed = false;
  deny_write_cnt = 0;
  contents = idisk;
}

-- No sector is free.
abbrev pub full : Store ℕ → Option (Option ℕ × Store ℕ)
full t = some (none, t)

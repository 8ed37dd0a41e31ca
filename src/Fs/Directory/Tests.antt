-- ===== src/Fs/Directory/Tests.antt =====
-- A directory of 108 bytes in the sector 3 of a formatted device: its parent, the file "a" with the inode 7, and a free slot.
use comp310_winter.Base.{
  Option, none, some, [], ◌∷◌, ◌++◌, List, ℕ, ◌/◌, ◌<◌, ◌==◌, ◌≡◌, refl, ap, Bool, true, false,
  arith, get_or, replicate, if◌then◌else◌, Text, same, length,
}
use comp310_winter.Fs.Sample.{free_map_sector}
use comp310_winter.Fs.Block.{Sector, Device}
use comp310_winter.Fs.Cache.{Cache, buffer_cache_init}
use comp310_winter.Fs.Cache.Closing.{buffer_cache_init-IsGood}
use comp310_winter.Fs.Inode.{InodeDisk, no_sector}
use comp310_winter.Fs.Inode.Index.{data_sectors}
use comp310_winter.Fs.Inode.Reading.{IsStored, sector_at}
use comp310_winter.Fs.Inode.Reserve.{Store}
use comp310_winter.Fs.Inode.Table.{Inode, at_address}
use comp310_winter.Fs.Inode.Write.Loop.{IsWritable}
use comp310_winter.Fs.Directory.{DirEntry, dir_entry_of, c_string, lookup, ls_loop}
use comp310_winter.Fs.Directory.Handles.{Dir, Directories, dir_at}
use comp310_winter.Fs.Directory.Changes.{dir_add}
use comp310_winter.Fs.Directory.Changes.Added.{CanAdd}
use comp310_winter.Fs.Directory.Changes.Encoding.{padded}
use comp310_winter.Fs.Directory.Changes.Found.{lookup-dir_add}
use comp310_winter.Fs.Directory.Entries.{Returns, entries}
use comp310_winter.Fs.Directory.Listing.{names, ls_loop-names}
use comp310_winter.Fs.Directory.Search.{IsFirst, IsNamed, lookup-IsFirst}
use comp310_winter.Fs.Directory.Path.{split_path_filename}
use comp310_winter.Fs.Directory.Path.Split.{Splits, split_path_filename-Splits}

abbrev name_a : Text
name_a = 97 ∷ []

abbrev entry_bytes : List ℕ
entry_bytes = (7 ∷ 0 ∷ 0 ∷ 0 ∷ 97 ∷ []) ++ (replicate 30 0 ++ (1 ∷ []))

abbrev parent_bytes : List ℕ
parent_bytes = (1 ∷ 0 ∷ 0 ∷ 0 ∷ []) ++ (replicate 31 0 ++ (1 ∷ []))

abbrev directory : Sector
directory = parent_bytes ++ (entry_bytes ++ replicate 440 0)

abbrev sectors : ℕ → Sector
sectors s = if s == 3 then directory else if s == 0 then free_map_sector else replicate 512 0

abbrev disk : Device
disk = record { size = 4; sectors = sectors; read_cnt = 0; write_cnt = 0 }

abbrev cache : Cache
cache = buffer_cache_init disk

abbrev idisk : InodeDisk
idisk = record {
  direct_blocks = 3 ∷ replicate 122 0;
  indirect_block = 0;
  doubly_indirect_block = 0;
  is_dir = true;
  length = 108;
  magic = 0;
}

data_sector : (pos : ℕ) → pos < 108 → sector_at sectors idisk pos ≡ 3
data_sector pos h =
    ap (λ i. get_or (data_sectors sectors idisk) i no_sector) {x = pos / 512} {y = 0}
      (omega (arith, h))

length-sectors :
    (b c : Bool)
    → length (if b then directory else if c then free_map_sector else replicate 512 0) ≡ 512
length-sectors true c = refl
length-sectors false true = refl
length-sectors false false = refl

idisk-IsStored : IsStored idisk sectors cache
unfolding buffer_cache_init
idisk-IsStored = record {
  mapped = record {
    good = (buffer_cache_init-IsGood disk).0;
    contents = (buffer_cache_init-IsGood disk).1;
    direct = refl;
    indirect = omega arith;
    doubly = omega arith;
    second = λ i h. absurd (omega (arith, h));
  };
  whole = λ s. length-sectors (s == 3) (s == 0);
  small = omega arith;
  on_device = λ pos h. omega (arith, h, data_sector pos h);
}

lookup-IsFirst_example :
    (r : Option DirEntry × ℕ) × Returns cache (lookup idisk name_a cache) r
    × IsFirst (IsNamed name_a) (entries sectors idisk 36) 36 r
lookup-IsFirst_example = lookup-IsFirst sectors idisk name_a cache idisk-IsStored

ls_loop-names_example :
    Returns cache (ls_loop 109 idisk 36 cache) (names (entries sectors idisk 36))
ls_loop-names_example = ls_loop-names sectors idisk 109 36 cache idisk-IsStored (omega arith)

-- "/ab//c/"
abbrev long_path : Text
long_path = 47 ∷ 97 ∷ 98 ∷ 47 ∷ 47 ∷ 99 ∷ 47 ∷ []

split_path_filename_run : split_path_filename long_path ≡ (47 ∷ 97 ∷ 98 ∷ 47 ∷ [], 99 ∷ [])
unfolding split_path_filename
split_path_filename_run = refl

split_path_filename-Splits_example : Splits long_path (split_path_filename long_path)
split_path_filename-Splits_example = split_path_filename-Splits long_path

-- The directory as an open one, without `cwd`.
abbrev inode : Inode
inode = record {
  address = 10;
  sector = 1;
  open_cnt = 1;
  removed = false;
  deny_write_cnt = 0;
  contents = idisk;
}

abbrev dir : Dir
dir = record { address = 11; inode = 10; position = 36; open_cnt = 1 }

abbrev directories : Directories ℕ
directories = record {
  table = record { inodes = inode ∷ []; store = record { cache = cache; free_map = 0 } };
  dirs = dir ∷ [];
  cwd = none;
  next = 12;
}

abbrev full : Store ℕ → Option (Option ℕ × Store ℕ)
full t = some (none, t)

abbrev kept : ℕ → Store ℕ → Option (Store ℕ)
kept s t = some t

abbrev name_b : Text
name_b = 98 ∷ []

abbrev free : DirEntry
free = record { inode_sector = 0; name = replicate 31 0; in_use = false }

idisk-IsWritable : IsWritable idisk sectors cache
idisk-IsWritable = record {
  stored = idisk-IsStored;
  apart = record {
    distinct = λ p q h k e. omega (arith, h, k);
    off_indirect = λ p h e. omega (arith, e, data_sector p h);
    off_doubly = λ p h e. omega (arith, e, data_sector p h);
    off_second = λ p i h k e. absurd (omega (arith, k));
  };
}

directories-CanAdd : CanAdd directories 11 dir inode sectors name_b free 72
unfolding dir_entry_of c_string dir_at at_address buffer_cache_init
directories-CanAdd = record {
  is_open = refl;
  its_inode = refl;
  allowed = refl;
  writable = idisk-IsWritable;
  device = omega arith;
  some_name = refl;
  short = omega arith;
  text = (λ e. omega (arith, e), tt);
  no_entry = (λ h. cc (h.1), (λ h. cc (h.0), tt));
  parent = refl;
  slot = refl;
}

lookup-dir_add_example :
    (t' : Directories ℕ) × (dir_add full kept 11 name_b 9 false [] directories ≡ some (true, t'))
    × ((k : Text)
        → (r : Option DirEntry × ℕ) × Returns cache (lookup idisk k cache) r
          × Returns t'.table.store.cache (lookup idisk k t'.table.store.cache) (
              if same name_b k
              then (some (padded (record { inode_sector = 9; name = name_b; in_use = true })), 72)
              else r))
lookup-dir_add_example =
    lookup-dir_add full kept directories 11 dir inode sectors name_b free 72 9 [] directories-CanAdd
      (omega arith)

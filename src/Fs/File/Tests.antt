-- ===== src/Fs/File/Tests.antt =====
-- Reads and writes of the file of the test data, and a table with one file.
use comp310_winter.Fs.Sample.{disk, cache, idisk, inode, idisk-IsWritable, full}
use mathlib.Core.Path.{subst}
use mathlib.Core.Option.{some-injective}
use comp310_winter.Base.{
  ◌++◌, min, Option, some, [], ◌∷◌, List, ℕ, ◌+◌, ◌-◌, ◌≡◌, refl, false, arith, set,
}
use comp310_winter.Fs.Block.{Sector}
use comp310_winter.Fs.Capacity.{pos}
use comp310_winter.Fs.Cache.{buffer_cache_init}
use comp310_winter.Fs.Inode.Table.{OpenInodes, at_address, list_remove}
use comp310_winter.Fs.Inode.Reserve.{Store}
use comp310_winter.Fs.Inode.Write.Writing.{Spliced}
use comp310_winter.Fs.Inode.Write.Loop.{IsWritable}
use comp310_winter.Fs.File.{
  File, FileTable, file_read, file_write, file_close, get_file_by_fname, remove_from_file_table,
}
use comp310_winter.Fs.File.Table.{Removes, remove_from_file_table-Removes}
use comp310_winter.Fs.Inode.Reading.{file_bytes}
use comp310_winter.Fs.File.Reading.{Reads, file_read-twice}
use comp310_winter.Fs.File.Writing.{file_write-inside}

abbrev table : OpenInodes ℕ
table = record { inodes = inode ∷ []; store = record { cache = cache; free_map = 0 } }

abbrev file : File
file = record { inode = 10; position = pos 0; deny_write = false }

abbrev kept : ℕ → Store ℕ → Option (Store ℕ)
kept s t = some t

abbrev letters : List ℕ
letters = 97 ∷ 98 ∷ 99 ∷ []

file_write-inside_example :
    (disk' : ℕ → Sector) × (t' : OpenInodes ℕ) × (file_write full
        (record file { position = pos 511 })
        letters
        3
        table
      ≡ some ((3, record file { position = pos (511 + 3 - 2) }), t'))
    × IsWritable idisk disk' t'.store.cache
    × Spliced idisk disk.sectors disk' (set letters (3 - 1) 0) 0 511 3
unfolding at_address buffer_cache_init
file_write-inside_example =
    file_write-inside full file inode disk.sectors letters 3 511 table refl refl (omega arith)
      (omega arith) idisk-IsWritable (omega arith)

file_read-twice_example :
    (a b : List ℕ) × (f' : File) × (t' : OpenInodes ℕ) × (file_read
        (record file { position = pos 500 })
        20
        table
      ≡ some ((a, f'), t'))
    × Reads disk.sectors file inode b (500 + min (20 + 700) (1000 - 500)) (file_read f' 700 t')
    × (a ++ b ≡ file_bytes disk.sectors idisk (min (20 + 700) (1000 - 500)) 500)
unfolding at_address
file_read-twice_example =
    file_read-twice disk.sectors file inode 20 700 500 table refl idisk-IsWritable.stored

abbrev files : FileTable
files = (97 ∷ [], file) ∷ []

closes :
    (f : File)
    → get_file_by_fname (97 ∷ []) files ≡ some f
    → (u : OpenInodes ℕ) × (file_close kept f table ≡ some u)
unfolding get_file_by_fname file_close at_address list_remove
closes f found = subst Closes (some-injective file f found) (record table { inodes = [] }, refl)
  where
    Closes : File → Type 0
    Closes f = (u : OpenInodes ℕ) × (file_close kept f table ≡ some u)

remove_from_file_table-Removes_example :
    Removes (97 ∷ []) files (remove_from_file_table kept (97 ∷ []) files table)
unfolding get_file_by_fname
remove_from_file_table-Removes_example =
    remove_from_file_table-Removes kept (97 ∷ []) files table (refl, tt) closes

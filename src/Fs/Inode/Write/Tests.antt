-- ===== src/Fs/Inode/Write/Tests.antt =====
-- Writes to the file of the test data.
use comp310_winter.Fs.Sample.{disk, cache, idisk, inode, idisk-IsWritable, full}
use comp310_winter.Base.{[], ◌∷◌, List, ℕ, ◌≡◌, refl, some, arith}
use comp310_winter.Fs.Cache.{Cache, buffer_cache_init}
use comp310_winter.Fs.Inode.{slice, inode_read_at}
use comp310_winter.Fs.Inode.Reserve.{Store}
use comp310_winter.Fs.Inode.Write.{inode_write_at}
use comp310_winter.Fs.Inode.Write.Written.{inode_read_at-inode_write_at}

abbrev store : Store ℕ
store = record { cache = cache; free_map = 0 }

abbrev greeting : List ℕ
greeting = 104 ∷ 101 ∷ 108 ∷ 108 ∷ 111 ∷ []

inode_read_at-inode_write_at_example :
    (t' : Store ℕ) × (c : Cache) × (inode_write_at full inode greeting 5 510 store
      ≡ some ((5, inode), t'))
    × (inode_read_at idisk 5 510 t'.cache ≡ some (slice 5 0 greeting, c))
unfolding buffer_cache_init
inode_read_at-inode_write_at_example =
    inode_read_at-inode_write_at full inode disk.sectors greeting 5 510 store refl (omega arith)
      (omega arith) idisk-IsWritable (omega arith)

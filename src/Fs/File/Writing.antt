-- ===== src/Fs/File/Writing.antt =====
-- `file_write` of a3/fs/file.c: a write inside a file, and one that writes nothing.
use comp310_winter.Base.{ℕ, ◌+◌, ◌-◌, ◌<◌, ◌≤◌, ◌≡◌, ◌≢◌, ap, ◌∙◌, Option, some, List, arith, set}
use comp310_winter.Fs.Block.{Sector}
use comp310_winter.Fs.Capacity.{pos}
use comp310_winter.Fs.Inode.{no_sector}
use comp310_winter.Fs.Inode.Reserve.{Store}
use comp310_winter.Fs.Inode.Table.{Inode, OpenInodes, at_address, put_inode}
use comp310_winter.Fs.Inode.Write.{inode_write_at, write_checked}
use comp310_winter.Fs.Inode.Write.Writing.{Spliced}
use comp310_winter.Fs.Inode.Write.Loop.{IsWritable}
use comp310_winter.Fs.Inode.Write.Written.{inode_write_at-WritesInside}
use comp310_winter.Fs.File.{File, file_write, write_from, moved}

module _ {M : Type 0} (free_map_allocate : Store M → Option (Option ℕ × Store M)) (f : File)
    (i : Inode) (buffer : List ℕ) (size p : ℕ) (t : OpenInodes M) where
  file_write-result :
      (n : ℕ) (u : Store M)
      → at_address f.inode t.inodes ≡ some i
      → 0 < size
      → inode_write_at free_map_allocate i (set buffer (size - 1) 0) size p t.store
        ≡ some ((n, i), u)
      → file_write free_map_allocate (record f { position = pos p }) buffer size t
        ≡ some (
          (n, record f { position = moved (pos p) n 2 }),
          record { inodes = put_inode i t.inodes; store = u },
        )
  unfolding file_write write_from
  file_write-result n u opened some_bytes wrote = ground (arith, opened, some_bytes, wrote)

  inode_write_at-denied :
      i.deny_write_cnt ≢ 0
      → inode_write_at free_map_allocate i (set buffer (size - 1) 0) size p t.store
        ≡ some ((0, i), t.store)
  unfolding inode_write_at write_checked
  inode_write_at-denied denied = ground (arith, denied)

-- A write of two bytes or more that stays inside an open file returns the number of bytes asked
-- for and moves the position by two less. The file then holds the buffer with its last byte set to
-- 0, and its other bytes are as they were. The inode can be written: it is stored on a device of
-- less than 2 ^ 32 sectors, its data sectors are different and none of them is a block of sector
-- numbers that it uses, or the sector 0 where it lacks one, and writes are not denied. A file is
-- stored when the cache is good, every sector has 512 bytes, the file has at most 16635 sectors,
-- and its data sectors, its indirect and doubly indirect block (0 where it has none) and the
-- entries of the latter that the file reaches into are on the device.
pub file_write-inside :
    {M : Type 0} (free_map_allocate : Store M → Option (Option ℕ × Store M)) (f : File) (i : Inode)
    (disk : ℕ → Sector) (buffer : List ℕ) (size p : ℕ) (t : OpenInodes M)
    → at_address f.inode t.inodes ≡ some i
    → i.deny_write_cnt ≡ 0
    → 2 ≤ size
    → p + size ≤ i.contents.length
    → IsWritable i.contents disk t.store.cache
    → t.store.cache.device.size ≤ no_sector
    → (disk' : ℕ → Sector) × (t' : OpenInodes M) × (file_write free_map_allocate
          (record f { position = pos p })
          buffer
          size
          t
        ≡ some ((size, record f { position = pos (p + size - 2) }), t'))
      × IsWritable i.contents disk' t'.store.cache
      × Spliced i.contents disk disk' (set buffer (size - 1) 0) 0 p size
unfolding moved
file_write-inside free_map_allocate f i disk buffer size p t opened allowed some_bytes fits w
      device =
    let v =
      inode_write_at-WritesInside free_map_allocate i disk (set buffer (size - 1) 0) size p t.store
        allowed (omega (arith, some_bytes)) fits w device in
    let t' : OpenInodes _ = record {
      inodes = put_inode i t.inodes;
      store = record (t.store) { cache = v.after };
    } in
    (
      v.disk',
      t',
      file_write-result free_map_allocate f i buffer size p t size
            (record (t.store) { cache = v.after }) opened (omega (arith, some_bytes)) v.result
          ∙ ap (λ q. some ((size, record f { position = q }), t')) {y = pos (p + size - 2)}
              (ground (arith, some_bytes)),
      v.writable,
      v.spliced,
    )

-- ===== src/Fs/Copying/Out.antt =====
-- What `copy_out` of a3/fs/fsutil2.c writes for a file that is open.
use comp310_winter.Base.{
  ℕ, ◌+◌, ◌-◌, ◌≡◌, refl, ap, ◌∙◌, true, some, List, [], ◌∷◌, arith, min, Text, same_iff,
}
use comp310_winter.Fs.Block.{Sector}
use comp310_winter.Fs.Capacity.{ℤ, pos}
use comp310_winter.Fs.Inode.Reading.{IsStored, file_bytes}
use comp310_winter.Fs.Inode.Table.{Inode, OpenInodes, at_address}
use comp310_winter.Fs.File.{File, FileTable, get_file_by_fname, file_length, file_read, file_seek}
use comp310_winter.Fs.File.Reading.{file_read-Reads}
use comp310_winter.Fs.FreeMap.{Bitmap, FreeMap}
use comp310_winter.Fs.Directory.{c_string}
use comp310_winter.Fs.Filesys.{Mounted, put_file, file_named, fsutil_size, fsutil_read}
use comp310_winter.Fs.Copying.{seek_in_table, position_of, write_out, copy_out}

get-put_file :
    (name : Text) (f g : File) (files : FileTable)
    → get_file_by_fname name files ≡ some f
    → get_file_by_fname name (put_file name g files) ≡ some g
unfolding get_file_by_fname put_file
get-put_file name f g [] h = cc
get-put_file name f g ((n, e) ∷ files) h =
    ground (arith, get-put_file name f g files, same_iff n name, h)

module _ {B : Type 0} (bitmap : Bitmap B) (fname : Text) (f : File) where
  file_named-found :
      (m : Mounted bitmap)
      → get_file_by_fname fname m.files ≡ some f
      → file_named bitmap fname m ≡ some (some f, m)
  unfolding file_named
  file_named-found m found = rw (found, file_named) refl

  fsutil_size-found :
      (m : Mounted bitmap) (i : Inode)
      → get_file_by_fname fname m.files ≡ some f
      → at_address f.inode m.directories.table.inodes ≡ some i
      → fsutil_size bitmap fname m ≡ some (some i.contents.length, m)
  unfolding fsutil_size file_length
  fsutil_size-found m i found its_inode = ground (arith, file_named-found m found, its_inode)

  seek_in_table-found :
      (m : Mounted bitmap) (q : ℕ)
      → get_file_by_fname fname m.files ≡ some f
      → seek_in_table bitmap fname (pos q) m
        ≡ some (record m { files = put_file fname (record f { position = pos q }) m.files })
  unfolding seek_in_table file_seek
  seek_in_table-found m q found = ground (arith, found)

  fsutil_read-found :
      (m : Mounted bitmap) (size : ℕ) (bytes : List ℕ) (f' : File) (u : OpenInodes (FreeMap B))
      → get_file_by_fname fname m.files ≡ some f
      → file_read f size m.directories.table ≡ some ((bytes, f'), u)
      → fsutil_read bitmap fname size m
        ≡ some (
          some bytes,
          record {
            directories = record (m.directories) { table = u };
            files = put_file fname f' m.files;
          },
        )
  unfolding fsutil_read
  fsutil_read-found m size bytes f' u found read = ground (arith, file_named-found m found, read)

module _ {B : Type 0} (bitmap : Bitmap B) (fname : Text) where
  write_out-steps :
      (size : ℕ) (offset : ℤ) (bytes : List ℕ) (m m' m'' u : Mounted bitmap)
      → position_of bitmap fname m ≡ some offset
      → seek_in_table bitmap fname (pos 0) m ≡ some m'
      → fsutil_read bitmap fname size m' ≡ some (some bytes, m'')
      → seek_in_table bitmap fname offset m'' ≡ some u
      → write_out bitmap fname size true m ≡ some ((0, some (c_string bytes)), u)
  unfolding write_out
  write_out-steps size offset bytes m m' m'' u at start read back =
      ground (arith, at, start, read, back)

  position_of-found :
      (m : Mounted bitmap) (f : File)
      → get_file_by_fname fname m.files ≡ some f
      → position_of bitmap fname m ≡ some f.position
  unfolding position_of
  position_of-found m f found = ground (arith, found)

  copy_out-size :
      (m : Mounted bitmap) (size : ℕ)
      → fsutil_size bitmap fname m ≡ some (some size, m)
      → copy_out bitmap fname true m ≡ write_out bitmap fname size true m
  unfolding copy_out
  copy_out-size m size sized = rw (sized, copy_out) refl

-- Copying out a file that is open under its name at a position that is not negative, and stored on
-- the device, to a file of the host that can be written returns 0 and writes the bytes of the
-- whole file up to the first NUL. The file in the table keeps its position, its inode stays open,
-- and every byte of it is as it was. A file is stored when the cache is good, every sector has 512
-- bytes, the file has at most 16635 sectors, and its data sectors, its indirect and doubly
-- indirect block (0 where it has none) and the entries of the latter that the file reaches into
-- are on the device.
pub copy_out-file_bytes :
    {B : Type 0} (bitmap : Bitmap B) (fname : Text) (m : Mounted bitmap) (f : File) (i : Inode)
    (p : ℕ) (disk : ℕ → Sector)
    → get_file_by_fname fname m.files ≡ some (record f { position = pos p })
    → at_address f.inode m.directories.table.inodes ≡ some i
    → IsStored i.contents disk m.directories.table.store.cache
    → (m' : Mounted bitmap) × (copy_out bitmap fname true m
        ≡ some ((0, some (c_string (file_bytes disk i.contents i.contents.length 0))), m'))
      × (get_file_by_fname fname m'.files ≡ some (record f { position = pos p }))
      × (at_address f.inode m'.directories.table.inodes ≡ some i)
      × IsStored i.contents disk m'.directories.table.store.cache
copy_out-file_bytes {B} bitmap fname m f i p disk found its_inode stored =
    let n = i.contents.length in
    let at = λ (q : ℕ). record f { position = pos q } in
    let all : min n (n - 0) ≡ n = omega arith in
    let bytes = file_bytes disk i.contents (min n (n - 0)) 0 in
    let r = file_read-Reads disk f i n 0 m.directories.table its_inode stored in
    let k = 0 + min n (n - 0) in
    let files1 = put_file fname (at 0) m.files in
    let files2 = put_file fname (at k) files1 in
    let files3 = put_file fname (at p) files2 in
    let found1 = get-put_file fname (at p) (at 0) m.files found in
    let found2 = get-put_file fname (at 0) (at k) files1 found1 in
    let found3 = get-put_file fname (at k) (at p) files2 found2 in
    let m1 : Mounted bitmap = record m { files = files1 } in
    let m2 : Mounted bitmap = record {
      directories = record (m.directories) { table = r.after };
      files = files2;
    } in
    let m3 : Mounted bitmap = record m2 { files = files3 } in
    (
      m3,
      copy_out-size bitmap fname m n (fsutil_size-found bitmap fname (at p) m i found its_inode)
          ∙ write_out-steps bitmap fname n (pos p) bytes m m1 m2 m3
              (position_of-found bitmap fname m (at p) found)
              (seek_in_table-found bitmap fname (at p) m 0 found)
              (fsutil_read-found bitmap fname (at 0) m1 n bytes (at k) r.after found1 r.result)
              (seek_in_table-found bitmap fname (at k) m2 p found2)
          ∙ ap (λ l. some ((0, some (c_string (file_bytes disk i.contents l 0))), m3)) all,
      found3,
      r.inode,
      r.stored,
    )

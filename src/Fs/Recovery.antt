-- ===== src/Fs/Recovery.antt =====
-- `recover` of a3/fs/fsutil2.c. `sprintf` of a number or a name in the names of the recovered files is
-- an argument. A text that has no NUL ends with its sector. `none` is a panic or the use of memory that
-- was freed.
use comp310_winter.Base.{
  ℕ, zero, suc, ◌+◌, ◌-◌, ◌%◌, ◌==◌, ◌&&◌, not, ltb, Bool, false, Option, none, some, List, [], ◌∷◌,
  if◌then◌else◌, Text, get_or,
}
use comp310_winter.Fs.Block.{Sector}
use comp310_winter.Fs.Capacity.{bytes_to_sectors}
use comp310_winter.Fs.Cache.{Cache, option_bind, buffer_cache_read}
use comp310_winter.Fs.Inode.{InodeDisk, slice, get_inode_data_sectors}
use comp310_winter.Fs.Inode.Reserve.{inode_magic}
use comp310_winter.Fs.File.{get_file_by_fname}
use comp310_winter.Fs.FreeMap.{Bitmap, FreeMap}
use comp310_winter.Fs.Directory.{c_string}
use comp310_winter.Fs.Directory.Handles.{
  Run, ◌>>=◌, ◌>>◌, return, on_cache, load_inode, open_inode, dir_open_root, dir_close, read_name,
}
use comp310_winter.Fs.Directory.Changes.{dir_add}
use comp310_winter.Fs.Filesys.{Mounted, allocate, release, fsutil_size}

-- A file that is written on the host.
pub record HostFile : Type 0 where
  pub name : Text
  pub text : Text

-- The first byte that is not 0, among `n` of them from `i` on.
unfoldable pub first_nonzero : ℕ → ℕ → Sector → Option ℕ
first_nonzero zero i b = none
first_nonzero (suc n) i b =
    let rest = first_nonzero n (i + 1) b in if get_or b i 0 == 0 then rest else some i

module _ {B : Type 0} (bitmap : Bitmap B) (test : B → ℕ → Bool) (file_name : ℕ → Text → Text) where
  -- The flag 0, for a sector that is free: an inode of a file that has data is added to the root
  -- directory.
  unfoldable pub restore_inode : ℕ → Run (FreeMap B) (Unit {0})
  unfolding open_inode load_inode dir_open_root dir_add dir_close
  restore_inode sector = do
    a ← open_inode sector
    i ← load_inode a
    if (ltb 0 i.contents.length && (i.contents.magic == inode_magic)) && not i.contents.is_dir
        then (do
          root ← dir_open_root
          added ←
              dir_add (allocate bitmap) (release bitmap) root (file_name sector []) sector false []
          dir_close (release bitmap) root)
        else return tt

  -- The loop over `n` sectors from `sector` on.
  unfoldable pub restore_inodes : ℕ → ℕ → Run (FreeMap B) (Unit {0})
  unfolding restore_inode
  restore_inodes zero sector = return tt
  restore_inodes (suc n) sector = do
    (λ t. if test t.table.store.free_map.bits sector then some (tt, t) else restore_inode sector t)
    restore_inodes n (sector + 1)

  -- The flag 1: the sectors that are not all zeros, `n` of them from `i` on.
  unfoldable pub dump_sectors : ℕ → ℕ → Cache → Option (List HostFile × Cache)
  unfolding first_nonzero c_string
  dump_sectors zero i c = some ([], c)
  dump_sectors (suc n) i c = option_bind (buffer_cache_read i c) λ (b, c').
      option_bind (dump_sectors n (i + 1) c') λ (files, c''). elim (first_nonzero 512 0 b) [
        | none ↦ some (files, c'')
        | some j ↦ some (record { name = file_name i []; text = c_string b } ∷ files, c'')
      ]

  -- The flag 2: what is behind the end of a file in its last sector.
  unfoldable pub rest_of_sector : Text → ℕ → InodeDisk → Cache → Option (Option HostFile × Cache)
  unfolding get_inode_data_sectors bytes_to_sectors first_nonzero slice c_string
  rest_of_sector name size idisk c = option_bind (get_inode_data_sectors idisk c) λ (sectors, c').
      option_bind (buffer_cache_read (get_or sectors (bytes_to_sectors size - 1) 0) c') λ (b, c'').
        elim (first_nonzero (512 - size % 512) (size % 512) b) [
          | none ↦ some (none, c'')
          | some i ↦ some (
            some (record { name = file_name 0 name; text = c_string (slice (512 - i) i b) }),
            c'',
          )
        ]

  unfoldable pub add_host_file : Option HostFile → List HostFile → List HostFile
  add_host_file none files = files
  add_host_file (some f) files = f ∷ files

  -- The files of the directory with such a rest. A file that cannot be opened, or that ends with its
  -- sector, is left out.
  unfoldable pub rest_of_files : ℕ → ℕ → Mounted bitmap → Option (List HostFile × Mounted bitmap)
  unfolding read_name fsutil_size get_file_by_fname load_inode rest_of_sector add_host_file
  rest_of_files zero dir m = none
  rest_of_files (suc n) dir m = option_bind (read_name dir m.directories) λ (name, t). elim name [
    | none ↦ some ([], record m { directories = t })
    | some s ↦ option_bind (fsutil_size bitmap s (record m { directories = t })) λ (size, m').
        elim size [
          | none ↦ rest_of_files n dir m'
          | some k ↦
              let skip = rest_of_files n dir m' in
              let read = option_bind (get_file_by_fname s m'.files) λ f.
                option_bind (load_inode f.inode m'.directories) λ (i, u).
                  option_bind (on_cache (rest_of_sector s k i.contents) u) λ (found, u').
                    option_bind (rest_of_files n dir (record m' { directories = u' }))
                      λ (files, v). some (add_host_file found files, v) in
              if k % 512 == 0 then skip else read
        ]
  ]

  -- The three flags; any other does nothing. The sectors from 4 on are looked at for the flag 1, and the
  -- loop over the directory has fuel.
  unfoldable pub recover : ℕ → ℕ → Mounted bitmap → Option (List HostFile × Mounted bitmap)
  unfolding restore_inodes dump_sectors rest_of_files dir_open_root dir_close
  recover fuel zero m =
      option_bind
        (restore_inodes (bitmap.size m.directories.table.store.free_map.bits) 0 m.directories)
        λ (u, t). some ([], record m { directories = t })
  recover fuel (suc zero) m =
      option_bind
        (on_cache (dump_sectors (bitmap.size m.directories.table.store.free_map.bits - 4) 4)
          m.directories)
        λ (files, t). some (files, record m { directories = t })
  recover fuel (suc (suc zero)) m = option_bind (dir_open_root m.directories) λ (dir, t).
      option_bind (rest_of_files fuel dir (record m { directories = t })) λ (files, m').
        option_bind (dir_close (release bitmap) dir m'.directories)
          λ (u, t'). some (files, record m' { directories = t' })
  recover fuel (suc (suc (suc flag))) m = some ([], m)

-- ===== src/Fs/Filesys.antt =====
-- a3/fs/filesys.c and a3/fs/fsutil.c: the operations of the file system on paths and names. `none` is a
-- panic or the use of memory that was freed.
use comp310_winter.Base.{
  ℕ, ◌+◌, ◌==◌, ◌||◌, leb, Bool, true, false, Option, none, some, List, [], ◌∷◌, if◌then◌else◌,
  Text, length, same,
}
use comp310_winter.Fs.Block.{Device}
use comp310_winter.Fs.Capacity.{ℤ}
use comp310_winter.Fs.Cache.{option_bind, buffer_cache_init, buffer_cache_close}
use comp310_winter.Fs.Inode.Reserve.{Store, inode_create}
use comp310_winter.Fs.File.{
  File, FileTable, file_open, file_read, file_write, file_seek, file_length, get_file_by_fname,
  add_to_file_table, remove_from_file_table, free_file_table,
}
use comp310_winter.Fs.FreeMap.{
  Bitmap, FreeMap, free_map_init, num_free_sectors, free_map_allocate, free_map_release,
  free_map_create, free_map_open, free_map_close,
}
use comp310_winter.Fs.Directory.Path.{is_empty, split_path_filename}
use comp310_winter.Fs.Directory.Handles.{
  Directories, Run, ◌>>=◌, ◌>>◌, return, on_table, on_table_only, load_dir, load_inode,
  dir_open_root, dir_open_path, dir_close, dir_lookup,
}
use comp310_winter.Fs.Directory.Changes.{dir_create, dir_add, dir_remove}

-- The file with a name is changed.
unfoldable pub put_file : Text → File → FileTable → FileTable
put_file name g [] = []
put_file name g ((n, f) ∷ files) =
    let rest = put_file name g files in if same n name then (n, g) ∷ files else (n, f) ∷ rest

-- A step on the disk and the free map.
abbrev pub on_store : {M A : Type 0} → (Store M → Option (A × Store M)) → Run M A
on_store step = on_table λ t. option_bind (step t.store) λ (a, u). some (a, record t { store = u })

module _ {B : Type 0} (bitmap : Bitmap B) where
  -- The allocation of a sector, and the release, as the directories and inodes use them.
  abbrev pub allocate : Store (FreeMap B) → Option (Option ℕ × Store (FreeMap B))
  allocate = free_map_allocate bitmap 1

  abbrev pub release : ℕ → Store (FreeMap B) → Option (Store (FreeMap B))
  release = free_map_release bitmap 1

  -- The inode and the entry of a new file in a sector; a sector of a failed attempt is released, if it is
  -- not the sector 0.
  unfoldable pub create_in : ℕ → Text → ℕ → Bool → List ℕ → ℕ → Run (FreeMap B) Bool
  unfolding dir_add inode_create
  create_in dir file_name initial_size is_dir junk sector = do
    created ← on_store (inode_create allocate sector initial_size is_dir)
    success ←
        (if created
          then dir_add allocate release dir file_name sector is_dir junk
          else return false)
    if success || (sector == 0) then return success else (do
      on_table_only (λ t. option_bind (release sector t.store) λ u. some (record t { store = u }))
      return false)

  unfoldable pub filesys_create : Text → ℕ → Bool → List ℕ → Run (FreeMap B) Bool
  unfolding split_path_filename dir_open_root create_in dir_close
  filesys_create path initial_size is_dir junk = do
    dir ← dir_open_root
    sector ← on_store allocate
    success ← elim sector [
      | none ↦ return false
      | some s ↦ create_in dir (split_path_filename path).1 initial_size is_dir junk s
    ]
    dir_close release dir
    return success

  -- The file of an inode that was found and is not removed.
  unfoldable pub open_unless_removed : Option ℕ → Run (FreeMap B) (Option File)
  unfolding load_inode file_open
  open_unless_removed none = return none
  open_unless_removed (some a) = do
    i ← load_inode a
    return (if i.removed then none else file_open (some a))

  -- With an empty file name the directory's own inode is opened, and the directory stays open.
  unfoldable pub filesys_open : Text → Run (FreeMap B) (Option File)
  unfolding split_path_filename dir_open_root dir_lookup dir_close open_unless_removed load_dir
  filesys_open name = if is_empty name then return none else (do
    dir ← dir_open_root
    inode ←
        (if is_empty (split_path_filename name).1
          then (do d ← load_dir dir; return (some d.inode))
          else (do
            found ← dir_lookup dir (split_path_filename name).1
            dir_close release dir
            return found))
    open_unless_removed inode)

  unfoldable pub filesys_remove : Text → Run (FreeMap B) Bool
  unfolding split_path_filename dir_open_path dir_remove dir_close
  filesys_remove name = do
    dir ← dir_open_path release (split_path_filename name).0
    elim dir [
      | none ↦ return false
      | some d ↦ (do
        success ← dir_remove allocate release d (split_path_filename name).1
        dir_close release d
        return success)
    ]

  -- `dir_close(cwd)`, which does nothing without one.
  unfoldable pub close_cwd : Run (FreeMap B) (Unit {0})
  unfolding dir_close
  close_cwd t = elim t.cwd [ none ↦ some (tt, t) | some dir ↦ dir_close release dir t ]

  unfoldable pub filesys_chdir : Text → Run (FreeMap B) Bool
  unfolding dir_open_path close_cwd
  filesys_chdir name = do
    dir ← dir_open_path release name
    elim dir [
      | none ↦ return false
      | some d ↦ (do close_cwd; λ t. some (true, record t { cwd = some d }))
    ]

  -- `do_format`, with room for 1000 entries in the root directory.
  unfoldable pub do_format : Run (FreeMap B) (Unit {0})
  unfolding free_map_create dir_create free_map_close
  do_format = do
    on_table_only (free_map_create bitmap 0)
    created ← dir_create allocate release 1 1000
    if created then on_table_only (free_map_close bitmap) else (λ t. none)

  -- `filesys_init` on the device that `block_get_hd` returns.
  unfoldable pub filesys_init : Device → Bool → Option (Directories (FreeMap B))
  unfolding buffer_cache_init free_map_init do_format free_map_open
  filesys_init fs_device format =
      let start : Directories (FreeMap B) = record {
        table = record {
          inodes = [];
          store = record {
            cache = buffer_cache_init fs_device;
            free_map = free_map_init bitmap fs_device.size;
          };
        };
        dirs = [];
        cwd = none;
        next = 1;
      } in
      let formatted = option_bind (do_format start) λ (u, t). some t in
      option_bind (if format then formatted else some start) λ t.
        option_bind (free_map_open bitmap t.next t.table)
          λ u. some (record t { table = u; next = t.next + 1 })

  -- The names and files that are open, and the rest of the file system.
  pub record Mounted : Type 0 where
    pub directories : Directories (FreeMap B)
    pub files : FileTable

  -- `filesys_done`
  unfoldable pub filesys_done : Mounted → Option Mounted
  unfolding free_map_close buffer_cache_close free_file_table
  filesys_done m = option_bind (free_map_close bitmap m.directories.table) λ t.
      option_bind (buffer_cache_close t.store.cache) λ c.
        option_bind
          (free_file_table release m.files (record t { store = record (t.store) { cache = c } }))
          λ u. some (record { directories = record (m.directories) { table = u }; files = [] })

  -- The start of the functions of fsutil.c: the open file with a name, which is opened if it is not. The
  -- table has one file to a name, so a file is known by it.
  unfoldable pub file_named : Text → Mounted → Option (Option File × Mounted)
  unfolding get_file_by_fname filesys_open add_to_file_table
  file_named name m = elim (get_file_by_fname name m.files) [
    | some f ↦ some (some f, m)
    | none ↦ option_bind (filesys_open name m.directories) λ (opened, t). elim opened [
      | none ↦ some (none, record m { directories = t })
      | some f ↦ some (some f, record { directories = t; files = add_to_file_table f name m.files })
    ]
  ]

  unfoldable pub fsutil_size : Text → Mounted → Option (Option ℕ × Mounted)
  unfolding file_named file_length
  fsutil_size name m = option_bind (file_named name m) λ (f, m'). elim f [
    | none ↦ some (none, m')
    | some g ↦ option_bind (file_length g m'.directories.table) λ n. some (some n, m')
  ]

  unfoldable pub fsutil_seek : Text → ℤ → Mounted → Option (Bool × Mounted)
  unfolding file_named file_seek put_file
  fsutil_seek name offset m = option_bind (file_named name m) λ (f, m'). elim f [
    | none ↦ some (false, m')
    | some g ↦
        option_bind (file_seek g offset)
          λ g'. some (true, record m' { files = put_file name g' m'.files })
  ]

  unfoldable pub fsutil_read : Text → ℕ → Mounted → Option (Option (List ℕ) × Mounted)
  unfolding file_named file_read put_file
  fsutil_read name size m = option_bind (file_named name m) λ (f, m'). elim f [
    | none ↦ some (none, m')
    | some g ↦ option_bind (file_read g size m'.directories.table) λ ((bytes, g'), u). some (
      some bytes,
      record {
        directories = record (m'.directories) { table = u };
        files = put_file name g' m'.files;
      },
    )
  ]

  unfoldable pub fsutil_write : Text → List ℕ → ℕ → Mounted → Option (Option ℕ × Mounted)
  unfolding file_named file_write put_file
  fsutil_write name buffer size m = option_bind (file_named name m) λ (f, m'). elim f [
    | none ↦ some (none, m')
    | some g ↦
        option_bind (file_write allocate g buffer size m'.directories.table) λ ((written, g'), u).
          some (
            some written,
            record {
              directories = record (m'.directories) { table = u };
              files = put_file name g' m'.files;
            },
          )
  ]

  unfoldable pub fsutil_close : Text → Mounted → Option (Bool × Mounted)
  unfolding remove_from_file_table
  fsutil_close name m =
      option_bind (remove_from_file_table release name m.files m.directories.table)
        λ ((found, files), u).
          some (found, record { directories = record (m.directories) { table = u }; files = files })

  unfoldable pub fsutil_rm : Text → Mounted → Option (Bool × Mounted)
  unfolding fsutil_close filesys_remove
  fsutil_rm name m = option_bind (fsutil_close name m) λ (found, m').
      option_bind (filesys_remove name m'.directories)
        λ (removed, t). some (removed, record m' { directories = t })

  -- A name that is empty or has 255 characters is not created.
  unfoldable pub fsutil_create : Text → ℕ → List ℕ → Mounted → Option (Bool × Mounted)
  unfolding filesys_create
  fsutil_create name isize junk m =
      if is_empty name || leb 255 (length name)
      then some (false, m)
      else option_bind (filesys_create name isize false junk m.directories)
          (λ (created, t). some (created, record m { directories = t }))

  unfoldable pub fsutil_freespace : Mounted → ℕ
  unfolding num_free_sectors
  fsutil_freespace m = num_free_sectors bitmap m.directories.table.store.free_map

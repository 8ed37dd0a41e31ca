-- ===== src/Fs/Directory/Changes.antt =====
-- `dir_create`, `dir_add` and `dir_remove` of a3/fs/directory.c. The free map is an argument; `junk` is
-- what a name holds that is never set.
pub mod Added
pub mod Encoding
pub mod Found
pub mod Slots
use comp310_winter.Base.{
  ℕ, ◌+◌, ◌*◌, ◌==◌, not, ltb, leb, ◌||◌, Bool, true, false, Option, none, some, List, [], ◌∷◌,
  ◌++◌, if◌then◌else◌, Text, length,
}
use comp310_winter.Fs.Cache.{Cache, option_bind}
use comp310_winter.Fs.Inode.{InodeDisk, slice}
use comp310_winter.Fs.Inode.Reserve.{Store, number_bytes, inode_create}
use comp310_winter.Fs.Inode.Table.{
  Inode, OpenInodes, at_address, put_inode, inode_close, inode_remove,
}
use comp310_winter.Fs.Inode.Write.{inode_write_at}
use comp310_winter.Fs.Directory.{DirEntry, entry_size, lookup, scan, rounds, dir_is_empty}
use comp310_winter.Fs.Directory.Path.{is_empty}
use comp310_winter.Fs.Directory.Handles.{
  Dir, Directories, Run, ◌>>=◌, ◌>>◌, return, on_table, on_table_only, on_cache, load_dir,
  load_inode, open_inode, dir_open, dir_close,
}

abbrev pub name_max : ℕ
name_max = 30

-- The 36 bytes of a `struct dir_entry`; `strncpy` fills a name up with zeros.
unfoldable pub dir_entry_bytes : DirEntry → List ℕ
unfolding number_bytes slice
dir_entry_bytes e =
    number_bytes e.inode_sector ++ (slice 31 0 e.name ++ ((if e.in_use then 1 else 0) ∷ []))

module _ {M : Type 0} (free_map_allocate : Store M → Option (Option ℕ × Store M)) where
  -- `inode_write_at` of an entry at an offset: whether it was written in full.
  unfoldable pub write_entry : ℕ → DirEntry → ℕ → Run M Bool
  unfolding dir_entry_bytes at_address put_inode
  write_entry a e ofs = on_table λ t. option_bind (at_address a t.inodes) λ i.
      option_bind (inode_write_at free_map_allocate i (dir_entry_bytes e) entry_size ofs t.store)
        λ ((written, i'), u).
          some (written == entry_size, record { inodes = put_inode i' t.inodes; store = u })

  -- The free slot, and the entry in it.
  unfoldable pub add_entry : Dir → Text → ℕ → Run M Bool
  unfolding load_inode scan write_entry
  add_entry d name inode_sector = do
    i ← load_inode d.inode
    slot ← on_cache (scan (λ e. not e.in_use) (rounds i.contents) i.contents 0)
    write_entry d.inode (record { inode_sector = inode_sector; name = name; in_use = true }) slot.1

module _ {M : Type 0} (free_map_allocate : Store M → Option (Option ℕ × Store M))
    (free_map_release : ℕ → Store M → Option (Store M)) where
  -- A new directory is told its parent.
  unfoldable pub link_parent : Dir → List ℕ → ℕ → Run M Bool
  unfolding load_inode open_inode dir_open load_dir write_entry dir_close
  link_parent d junk inode_sector = do
    a ← open_inode inode_sector
    child_dir ← dir_open a
    i ← load_inode d.inode
    written ←
        write_entry free_map_allocate a
          (record { inode_sector = i.sector; name = junk; in_use = true }) 0
    dir_close free_map_release child_dir
    return written

  -- `dir_add` behind the checks of the name.
  unfoldable pub add_checked : Dir → Text → ℕ → Bool → List ℕ → Run M Bool
  unfolding link_parent add_entry
  add_checked d name inode_sector is_dir junk = do
    linked ← (if is_dir then link_parent d junk inode_sector else return true)
    if linked then add_entry free_map_allocate d name inode_sector else return false

  unfoldable pub dir_add : ℕ → Text → ℕ → Bool → List ℕ → Run M Bool
  unfolding load_dir load_inode lookup add_checked
  dir_add dir name inode_sector is_dir junk =
      if is_empty name || ltb name_max (length name) then return false else (do
        d ← load_dir dir
        i ← load_inode d.inode
        found ← on_cache (lookup i.contents name)
        elim found.0 [ some e ↦ return false | none ↦ add_checked d name inode_sector is_dir junk ])

  -- `dir_create`: the first entry of a new directory is itself.
  unfoldable pub dir_create : ℕ → ℕ → Run M Bool
  unfolding inode_create open_inode dir_open write_entry dir_close
  dir_create sector entry_cnt = do
    created ← on_table (λ t.
        option_bind (inode_create free_map_allocate sector (entry_cnt * entry_size) true t.store)
          λ (ok, u). some (ok, record t { store = u }))
    if created
        then (do
          a ← open_inode sector
          dir ← dir_open a
          written ←
              write_entry free_map_allocate a
                (record { inode_sector = sector; name = []; in_use = true }) 0
          dir_close free_map_release dir
          return written)
        else return false

  -- Whether an inode is a directory with entries.
  unfoldable pub is_occupied : ℕ → Run M Bool
  unfolding load_inode dir_open dir_is_empty dir_close
  is_occupied a = do
    i ← load_inode a
    if i.contents.is_dir
        then (do
          target ← dir_open a
          empty ← on_cache (dir_is_empty i.contents)
          dir_close free_map_release target
          return (not empty))
        else return false

  -- The entry is written back as unused, and the inode marked.
  unfoldable pub erase : Dir → ℕ → DirEntry → ℕ → Run M Bool
  unfolding write_entry inode_remove
  erase d a e ofs = do
    written ← write_entry free_map_allocate d.inode (record e { in_use = false }) ofs
    if written then (do on_table_only (inode_remove a); return true) else return false

  unfoldable pub dir_remove : ℕ → Text → Run M Bool
  unfolding load_dir load_inode lookup open_inode is_occupied erase inode_close
  dir_remove dir name = do
    d ← load_dir dir
    i ← load_inode d.inode
    found ← on_cache (lookup i.contents name)
    elim found.0 [
      | none ↦ return false
      | some e ↦ (do
        a ← open_inode e.inode_sector
        occupied ← is_occupied a
        success ← (if occupied then return false else erase d a e found.1)
        on_table_only (inode_close free_map_release a)
        return success)
    ]

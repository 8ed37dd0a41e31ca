-- ===== src/Fs/Directory/Handles.antt =====
-- The open directories of a3/fs/directory.c. A `struct dir` is known by its address. `calloc` and
-- `malloc` do not fail and return an address that was never used. `none` is a panic or the use of memory
-- that was freed.
use comp310_winter.Base.{
  ℕ, ◌+◌, ◌-◌, ◌==◌, Option, none, some, List, [], ◌∷◌, if◌then◌else◌, Text, same,
}
use comp310_winter.Fs.Cache.{Cache, option_bind}
use comp310_winter.Fs.Inode.{inode_read_at, block_at}
use comp310_winter.Fs.Inode.Reserve.{Store, with_cache}
use comp310_winter.Fs.Inode.Table.{
  Inode, OpenInodes, at_address, inode_open, inode_reopen, inode_close,
}
use comp310_winter.Fs.Directory.{DirEntry, entry_size, lookup, dir_entry_of, dir_readdir}
use comp310_winter.Fs.Directory.Path.{tokens, is_absolute}

-- `struct dir`
pub record Dir : Type 0 where
  pub address : ℕ
  pub inode : ℕ
  pub position : ℕ
  pub open_cnt : ℕ

-- The open inodes and directories, `cwd`, and the next address to allocate.
pub record Directories (M : Type 0) : Type 0 where
  pub table : OpenInodes M
  pub dirs : List Dir
  pub cwd : Option ℕ
  pub next : ℕ

-- A step that returns a value and a new state, or fails.
abbrev pub Run : Type 0 → Type 0 → Type 0
Run M A = Directories M → Option (A × Directories M)

infixl 5 ◌>>=◌ ◌>>◌
abbrev pub ◌>>=◌ : {M A B : Type 0} → Run M A → (A → Run M B) → Run M B
◌>>=◌ m f t = option_bind (m t) λ (a, t'). f a t'

abbrev pub ◌>>◌ : {M B : Type 0} → Run M (Unit {0}) → Run M B → Run M B
◌>>◌ m k t = option_bind (m t) λ (a, t'). k t'

abbrev pub return : {M A : Type 0} → A → Run M A
return a t = some (a, t)

-- Steps on the inodes, and on the cache alone.
abbrev pub on_table : {M A : Type 0} → (OpenInodes M → Option (A × OpenInodes M)) → Run M A
on_table step t = option_bind (step t.table) λ (a, u). some (a, record t { table = u })

abbrev pub on_table_only : {M : Type 0} → (OpenInodes M → Option (OpenInodes M)) → Run M (Unit {0})
on_table_only step t = option_bind (step t.table) λ u. some (tt, record t { table = u })

abbrev pub on_cache : {M A : Type 0} → (Cache → Option (A × Cache)) → Run M A
on_cache step = on_table λ u.
    option_bind (with_cache u.store (step u.store.cache)) λ (a, s). some (a, record u { store = s })

-- The structures at an address.
unfoldable pub dir_at : ℕ → List Dir → Option Dir
dir_at a [] = none
dir_at a (d ∷ ds) = let rest = dir_at a ds in if d.address == a then some d else rest

unfoldable pub put_dir : Dir → List Dir → List Dir
put_dir e [] = []
put_dir e (d ∷ ds) = let rest = put_dir e ds in if d.address == e.address then e ∷ ds else d ∷ rest

unfoldable pub free_dir : ℕ → List Dir → List Dir
free_dir a [] = []
free_dir a (d ∷ ds) = let rest = free_dir a ds in if d.address == a then ds else d ∷ rest

unfoldable pub load_dir : {M : Type 0} → ℕ → Run M Dir
unfolding dir_at
load_dir a t = option_bind (dir_at a t.dirs) λ d. some (d, t)

unfoldable pub load_inode : {M : Type 0} → ℕ → Run M Inode
unfolding at_address
load_inode a t = option_bind (at_address a t.table.inodes) λ i. some (i, t)

unfoldable pub store_dir : {M : Type 0} → Dir → Run M (Unit {0})
unfolding put_dir
store_dir d t = some (tt, record t { dirs = put_dir d t.dirs })

unfoldable pub open_inode : {M : Type 0} → ℕ → Run M ℕ
unfolding inode_open
open_inode sector t =
    option_bind (inode_open t.next sector t.table)
      λ (a, u). some (a, record t { table = u; next = t.next + 1 })

unfoldable pub dir_open : {M : Type 0} → ℕ → Run M ℕ
dir_open inode t = some (
  t.next,
  record t {
    dirs = record { address = t.next; inode = inode; position = entry_size; open_cnt = 1 } ∷ t.dirs;
    next = t.next + 1;
  },
)

abbrev pub root_dir_sector : ℕ
root_dir_sector = 1

unfoldable pub dir_open_root : {M : Type 0} → Run M ℕ
unfolding open_inode dir_open load_dir store_dir
dir_open_root t = elim t.cwd [
  | none ↦
      (do
        inode ← open_inode root_dir_sector
        dir ← dir_open inode
        λ u. some (dir, record u { cwd = some dir }))
        t
  | some dir ↦
      (do d ← load_dir dir; store_dir (record d { open_cnt = d.open_cnt + 1 }); return dir) t
]

unfoldable pub dir_reopen : {M : Type 0} → ℕ → Run M ℕ
unfolding load_dir dir_open inode_reopen
dir_reopen dir = do
  d ← load_dir dir
  inode ← on_table (λ u. some (inode_reopen d.inode u))
  dir_open inode

-- The last opener frees the directory, and whichever directory it is, `cwd` is cleared.
unfoldable pub dir_close : {M : Type 0} → (ℕ → Store M → Option (Store M)) → ℕ → Run M (Unit {0})
unfolding load_dir store_dir free_dir inode_close
dir_close free_map_release dir = do
  d ← load_dir dir
  if d.open_cnt == 1
      then (do
        on_table_only (inode_close free_map_release d.inode)
        λ u. some (tt, record u { dirs = free_dir dir u.dirs; cwd = none }))
      else store_dir (record d { open_cnt = d.open_cnt - 1 })

abbrev dot : Text
dot = 46 ∷ []

abbrev dot_dot : Text
dot_dot = 46 ∷ 46 ∷ []

-- The inode of the entry that a search found.
unfoldable pub open_found : {M : Type 0} → Option DirEntry → Run M (Option ℕ)
unfolding open_inode
open_found none = return none
open_found (some e) = do a ← open_inode e.inode_sector; return (some a)

-- `dir_lookup`: the inode. The parent's sector stands in the first entry.
unfoldable pub dir_lookup : {M : Type 0} → ℕ → Text → Run M (Option ℕ)
unfolding load_dir load_inode open_inode open_found lookup inode_reopen inode_read_at block_at
dir_lookup dir name = do
  d ← load_dir dir
  i ← load_inode d.inode
  if same name dot
      then (do a ← on_table (λ u. some (inode_reopen d.inode u)); return (some a))
      else if same name dot_dot
      then (do
        bytes ← on_cache (inode_read_at i.contents entry_size 0)
        a ← open_inode (dir_entry_of bytes).inode_sector
        return (some a))
      else (do found ← on_cache (lookup i.contents name); open_found found.0)

-- `dir_readdir` on an open directory, whose position moves.
unfoldable pub read_name : {M : Type 0} → ℕ → Run M (Option Text)
unfolding load_dir load_inode store_dir dir_readdir
read_name dir = do
  d ← load_dir dir
  i ← load_inode d.inode
  r ← on_cache (dir_readdir i.contents d.position)
  store_dir (record d { position = r.1 })
  return r.0

module _ {M : Type 0} (free_map_release : ℕ → Store M → Option (Store M)) where
  -- The loop of `dir_open_path` over the parts of the path.
  unfoldable pub open_parts : List Text → ℕ → Run M (Option ℕ)
  unfolding dir_lookup dir_close dir_open
  open_parts [] curr = return (some curr)
  open_parts (token ∷ ts) curr = do
    found ← dir_lookup curr token
    elim found [
      | none ↦ (do dir_close free_map_release curr; return none)
      | some inode ↦ (do
        next_dir ← dir_open inode
        dir_close free_map_release curr
        open_parts ts next_dir)
    ]

  -- A directory that was removed is not opened.
  unfoldable pub unless_removed : Option ℕ → Run M (Option ℕ)
  unfolding load_dir load_inode dir_close
  unless_removed none = return none
  unless_removed (some curr) = do
    d ← load_dir curr
    i ← load_inode d.inode
    if i.removed then (do dir_close free_map_release curr; return none) else return (some curr)

  unfoldable pub start_of_path : Text → Run M ℕ
  unfolding dir_open_root dir_reopen
  start_of_path path t =
      if is_absolute path
      then dir_open_root t
      else elim t.cwd [ none ↦ dir_open_root t | some dir ↦ dir_reopen dir t ]

  unfoldable pub dir_open_path : Text → Run M (Option ℕ)
  unfolding start_of_path open_parts unless_removed tokens
  dir_open_path path = do
    curr ← start_of_path path
    last ← open_parts (tokens path) curr
    unless_removed last

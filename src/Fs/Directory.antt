-- ===== src/Fs/Directory.antt =====
-- a3/fs/directory.c: the entries of a directory, and the loops that look for one. The bytes of a
-- directory are those of its inode. An entry has 36 bytes: the sector of its inode, a name of 31 bytes,
-- and whether it is in use. The first entry is the parent directory. `none` is a panic.
pub mod Entries
pub mod Handles
pub mod Changes
pub mod Listing
pub mod Path
pub mod Search
mod Tests
use comp310_winter.Base.{
  ℕ, zero, suc, ◌+◌, ◌*◌, ◌==◌, ◌&&◌, not, Bool, true, false, Option, none, some, List, [], ◌∷◌,
  if◌then◌else◌, Text, same, codes, get_or, length,
}
use comp310_winter.Fs.Cache.{Cache, option_bind}
use comp310_winter.Fs.Inode.{InodeDisk, block_at, slice, inode_read_at}

-- `struct dir_entry`
pub record DirEntry : Type 0 where
  pub inode_sector : ℕ
  pub name : List ℕ
  pub in_use : Bool

abbrev pub entry_size : ℕ
entry_size = 36

-- The characters of a buffer up to its first NUL.
unfoldable pub c_string : List ℕ → Text
c_string [] = []
c_string (b ∷ bs) = let rest = c_string bs in if b == 0 then [] else b ∷ rest

-- Bytes that were read into a `struct dir_entry`.
unfoldable pub dir_entry_of : List ℕ → DirEntry
unfolding block_at slice
dir_entry_of bytes = record {
  inode_sector = block_at bytes 0;
  name = slice 31 4 bytes;
  in_use = not (get_or bytes 35 0 == 0);
}

-- The loops read an entry at `ofs`, `ofs + 36`, ... until an entry passes the test or one is not read in
-- full. They run on fuel, and return the entry, if there is one, and where they stopped.
unfoldable pub scan :
    (DirEntry → Bool) → ℕ → InodeDisk → ℕ → Cache → Option ((Option DirEntry × ℕ) × Cache)
unfolding inode_read_at dir_entry_of
scan test zero idisk ofs c = none
scan test (suc n) idisk ofs c = option_bind (inode_read_at idisk entry_size ofs c) λ (bytes, c').
    let again = scan test n idisk (ofs + entry_size) c' in
    if length bytes == entry_size
    then (if test (dir_entry_of bytes) then some ((some (dir_entry_of bytes), ofs), c') else again)
    else some ((none, ofs), c')

-- More rounds than the directory has entries.
abbrev pub rounds : InodeDisk → ℕ
rounds idisk = idisk.length + 1

-- `e.in_use && !strcmp(name, e.name)`
unfoldable pub is_named : Text → DirEntry → Bool
unfolding c_string
is_named name e = e.in_use && same name (c_string e.name)

-- `lookup`: the entry and its offset.
unfoldable pub lookup : InodeDisk → Text → Cache → Option ((Option DirEntry × ℕ) × Cache)
unfolding scan is_named
lookup idisk name c = scan (is_named name) (rounds idisk) idisk entry_size c

is_none : Option DirEntry → Bool
is_none none = true
is_none (some e) = false

unfoldable pub dir_is_empty : InodeDisk → Cache → Option (Bool × Cache)
unfolding scan is_none
dir_is_empty idisk c =
    option_bind (scan (λ e. e.in_use) (rounds idisk) idisk entry_size c)
      λ ((e, ofs), c'). some (is_none e, c')

-- The position behind the entry that a loop found, or where it stopped.
unfoldable pub behind : Option DirEntry × ℕ → ℕ
behind (none, ofs) = ofs
behind (some e, ofs) = ofs + entry_size

name_of : Option DirEntry → Option Text
name_of none = none
name_of (some e) = some (c_string e.name)

sector_of : Option DirEntry → Option ℕ
sector_of none = none
sector_of (some e) = some e.inode_sector

-- `dir_readdir`, from the position `pos` of the directory: the name, and the new position.
unfoldable pub dir_readdir : InodeDisk → ℕ → Cache → Option ((Option Text × ℕ) × Cache)
unfolding scan behind name_of c_string
dir_readdir idisk pos c =
    option_bind (scan (λ e. e.in_use) (rounds idisk) idisk pos c)
      λ ((e, ofs), c'). some ((name_of e, behind (e, ofs)), c')

-- `dir_readdir_inode`; no entry is the sector -1.
unfoldable pub dir_readdir_inode :
    InodeDisk → ℕ → Cache → Option (((Option Text × Option ℕ) × ℕ) × Cache)
unfolding scan behind name_of sector_of c_string
dir_readdir_inode idisk pos c =
    option_bind (scan (λ e. e.in_use) (rounds idisk) idisk pos c)
      λ ((e, ofs), c'). some (((name_of e, sector_of e), behind (e, ofs)), c')

-- The loop of `fsutil_ls`: the names that it prints.
unfoldable pub ls_loop : ℕ → InodeDisk → ℕ → Cache → Option (List Text × Cache)
unfolding dir_readdir
ls_loop zero idisk pos c = none
ls_loop (suc n) idisk pos c = option_bind (dir_readdir idisk pos c) λ ((name, pos'), c').
    elim name [
      | none ↦ some ([], c')
      | some s ↦ option_bind (ls_loop n idisk pos' c') λ (names, c''). some (s ∷ names, c'')
    ]

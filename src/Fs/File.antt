-- ===== src/Fs/File.antt =====
-- a3/fs/file.c: open files and the table of them. A file knows its inode by the address. `malloc` does
-- not fail. `none` is a panic or a use of memory that is not there.
pub mod Table
pub mod Reading
pub mod Writing
mod Tests
use comp310_winter.Base.{
  ℕ, suc, ◌+◌, ◌-◌, ◌==◌, ltb, not, Bool, true, false, Option, none, some, List, [], ◌∷◌, ◌++◌,
  if◌then◌else◌, Text, same, length, set,
}
use comp310_winter.Fs.Cache.{option_bind, buffer_cache_read}
use comp310_winter.Fs.Capacity.{ℤ, pos, negsuc, minus}
use comp310_winter.Fs.Inode.{inode_read_at, no_sector}
use comp310_winter.Fs.Inode.Reserve.{Store, with_cache}
use comp310_winter.Fs.Inode.Table.{
  Inode, OpenInodes, at_address, put_inode, inode_reopen, inode_close, inode_deny_write,
  inode_allow_write,
}
use comp310_winter.Fs.Inode.Write.{inode_write_at, write_checked}

-- `struct file`
pub record File : Type 0 where
  pub inode : ℕ
  pub position : ℤ
  pub deny_write : Bool

unfoldable pub file_open : Option ℕ → Option File
file_open none = none
file_open (some a) = some (record { inode = a; position = pos 0; deny_write = false })

unfoldable pub file_reopen : {M : Type 0} → File → OpenInodes M → Option File × OpenInodes M
unfolding file_open inode_reopen
file_reopen f t = (file_open (some (inode_reopen f.inode t).0), (inode_reopen f.inode t).1)

unfoldable pub file_deny_write : {M : Type 0} → File → OpenInodes M → Option (File × OpenInodes M)
unfolding inode_deny_write
file_deny_write f t =
    if f.deny_write
    then some (f, t)
    else option_bind (inode_deny_write f.inode t) (λ t'. some (record f { deny_write = true }, t'))

unfoldable pub file_allow_write : {M : Type 0} → File → OpenInodes M → Option (File × OpenInodes M)
unfolding inode_allow_write
file_allow_write f t =
    if f.deny_write
    then option_bind (inode_allow_write f.inode t)
        (λ t'. some (record f { deny_write = false }, t'))
    else some (f, t)

unfoldable pub file_close :
    {M : Type 0} → (ℕ → Store M → Option (Store M)) → File → OpenInodes M → Option (OpenInodes M)
unfolding file_allow_write inode_close
file_close free_map_release f t =
    option_bind (file_allow_write f t) λ (f', t'). inode_close free_map_release f'.inode t'

-- `inode_read_at` from a position that may be negative. Then `byte_to_sector` gives the sector -1, which
-- the first round reads; behind that read it would copy from in front of the bounce buffer.
unfoldable pub read_from : {M : Type 0} → ℕ → ℕ → ℤ → OpenInodes M → Option (List ℕ × OpenInodes M)
unfolding at_address inode_read_at
read_from a size (pos n) t = option_bind (at_address a t.inodes) λ i.
    option_bind (with_cache t.store (inode_read_at i.contents size n t.store.cache))
      λ (bytes, u). some (bytes, record t { store = u })
read_from a size (negsuc n) t =
    if size == 0
    then some ([], t)
    else option_bind (buffer_cache_read no_sector t.store.cache) (λ (b, c). none)

-- A position moved on by `n` and back by `k`.
unfoldable pub moved : ℤ → ℕ → ℕ → ℤ
moved (pos p) n k = minus (p + n) k
moved (negsuc p) n k = minus n (p + 1 + k)

-- `file_read`: the bytes that were read.
unfoldable pub file_read :
    {M : Type 0} → File → ℕ → OpenInodes M → Option ((List ℕ × File) × OpenInodes M)
unfolding read_from moved
file_read f size t =
    option_bind (read_from f.inode size f.position t)
      λ (bytes, t'). some ((bytes, record f { position = moved f.position (length bytes) 0 }), t')

unfoldable pub file_read_at :
    {M : Type 0} → File → ℕ → ℤ → OpenInodes M → Option (List ℕ × OpenInodes M)
unfolding read_from
file_read_at f size file_ofs t = read_from f.inode size file_ofs t

-- `inode_write_at` from a position that may be negative. Up to a byte before the file it writes nothing;
-- else it asks for the sector -1, unless the file cannot be written.
unfoldable pub write_from :
    {M : Type 0}
    → (Store M → Option (Option ℕ × Store M))
    → ℕ
    → List ℕ
    → ℕ
    → ℤ
    → OpenInodes M
    → Option (ℕ × OpenInodes M)
unfolding at_address put_inode inode_write_at write_checked
write_from free_map_allocate a buffer size (pos n) t = option_bind (at_address a t.inodes) λ i.
    option_bind (inode_write_at free_map_allocate i buffer size n t.store)
      λ ((written, i'), u). some (written, record { inodes = put_inode i' t.inodes; store = u })
write_from free_map_allocate a buffer size (negsuc n) t = option_bind (at_address a t.inodes) λ i.
    if ltb size (suc n)
    then some (0, t)
    else option_bind (write_checked free_map_allocate (λ i' u. none) i (size - suc n) t.store)
        (λ ((written, i'), u). some (written, record { inodes = put_inode i' t.inodes; store = u }))

-- `file_write`: the last byte of the buffer becomes 0, and the position moves by two bytes less than
-- were written. A write of no bytes would set the byte before the buffer.
unfoldable pub file_write :
    {M : Type 0}
    → (Store M → Option (Option ℕ × Store M))
    → File
    → List ℕ
    → ℕ
    → OpenInodes M
    → Option ((ℕ × File) × OpenInodes M)
unfolding write_from moved
file_write free_map_allocate f buffer size t =
    if size == 0
    then none
    else option_bind
        (write_from free_map_allocate f.inode (set buffer (size - 1) 0) size f.position t)
        (λ (written, t'). some ((written, record f { position = moved f.position written 2 }), t'))

unfoldable pub file_write_at :
    {M : Type 0}
    → (Store M → Option (Option ℕ × Store M))
    → File
    → List ℕ
    → ℕ
    → ℤ
    → OpenInodes M
    → Option (ℕ × OpenInodes M)
unfolding write_from
file_write_at free_map_allocate f buffer size file_ofs t =
    write_from free_map_allocate f.inode buffer size file_ofs t

unfoldable pub file_length : {M : Type 0} → File → OpenInodes M → Option ℕ
unfolding at_address
file_length f t = option_bind (at_address f.inode t.inodes) λ i. some i.contents.length

-- A negative position fails the assertion.
unfoldable pub file_seek : File → ℤ → Option File
file_seek f (pos n) = some (record f { position = pos n })
file_seek f (negsuc n) = none

unfoldable pub file_tell : File → ℤ
file_tell f = f.position

-- The table of open files by name.
abbrev pub FileTable : Type 0
FileTable = List (Text × File)

unfoldable pub get_file_by_fname : Text → FileTable → Option File
get_file_by_fname fname [] = none
get_file_by_fname fname ((name, f) ∷ table) =
    let rest = get_file_by_fname fname table in if same name fname then some f else rest

unfoldable pub add_to_file_table : File → Text → FileTable → FileTable
unfolding get_file_by_fname
add_to_file_table f fname table = elim (get_file_by_fname fname table) [
  | some old ↦ table
  | none ↦ table ++ ((fname, f) ∷ [])
]

-- `list_remove` of the first entry with the name.
unfoldable pub without : Text → FileTable → FileTable
without fname [] = []
without fname ((name, f) ∷ table) =
    let rest = without fname table in if same name fname then table else (name, f) ∷ rest

unfoldable pub remove_from_file_table :
    {M : Type 0}
    → (ℕ → Store M → Option (Store M))
    → Text
    → FileTable
    → OpenInodes M
    → Option ((Bool × FileTable) × OpenInodes M)
unfolding get_file_by_fname without file_close
remove_from_file_table free_map_release fname table t = elim (get_file_by_fname fname table) [
  | none ↦ some ((false, table), t)
  | some f ↦
      option_bind (file_close free_map_release f t) λ t'. some ((true, without fname table), t')
]

unfoldable pub free_file_table :
    {M : Type 0}
    → (ℕ → Store M → Option (Store M))
    → FileTable
    → OpenInodes M
    → Option (OpenInodes M)
unfolding file_close
free_file_table free_map_release [] t = some t
free_file_table free_map_release ((name, f) ∷ table) t =
    option_bind (file_close free_map_release f t) λ t'. free_file_table free_map_release table t'

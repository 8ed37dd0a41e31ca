-- ===== src/Fs/Inode/Table.antt =====
-- The open inodes of a3/fs/inode.c. An inode in memory is known by its address; `malloc` returns the
-- address `fresh`. `none` is a panic or the use of an inode that was freed.
pub mod Reopened
use comp310_winter.Base.{
  ℕ, zero, suc, ◌+◌, ◌-◌, ◌==◌, leb, ltb, not, Bool, true, false, Option, none, some, List, [], ◌∷◌,
  if◌then◌else◌, get_or,
}
use comp310_winter.Fs.Block.{Sector}
use comp310_winter.Fs.Cache.{option_bind, buffer_cache_read}
use comp310_winter.Fs.Inode.{InodeDisk, block_at, copy_entries}
use comp310_winter.Fs.Inode.Reserve.{Store, with_cache, inode_deallocate}

-- `struct inode`
pub record Inode : Type 0 where
  pub address : ℕ
  pub sector : ℕ
  pub open_cnt : ℕ
  pub removed : Bool
  pub deny_write_cnt : ℕ
  pub contents : InodeDisk

-- The open inodes, with the disk and the free map.
pub record OpenInodes (M : Type 0) : Type 0 where
  pub inodes : List Inode
  pub store : Store M

-- The bytes of a sector as a `struct inode_disk`.
unfoldable pub inode_disk_of : Sector → InodeDisk
unfolding copy_entries block_at
inode_disk_of b = record {
  direct_blocks = copy_entries (block_at b) 123 0;
  indirect_block = block_at b 123;
  doubly_indirect_block = block_at b 124;
  is_dir = not (get_or b 500 0 == 0);
  length = block_at b 126;
  magic = block_at b 127;
}

-- The loop of `inode_open`.
unfoldable pub find_inode : ℕ → List Inode → Option Inode
find_inode sector [] = none
find_inode sector (i ∷ is) =
    let rest = find_inode sector is in if i.sector == sector then some i else rest

unfoldable pub at_address : ℕ → List Inode → Option Inode
at_address a [] = none
at_address a (i ∷ is) = let rest = at_address a is in if i.address == a then some i else rest

-- `list_remove`, and an inode with other fields.
unfoldable pub list_remove : ℕ → List Inode → List Inode
list_remove a [] = []
list_remove a (i ∷ is) = let rest = list_remove a is in if i.address == a then is else i ∷ rest

unfoldable pub put_inode : Inode → List Inode → List Inode
put_inode j [] = []
put_inode j (i ∷ is) =
    let rest = put_inode j is in if i.address == j.address then j ∷ is else i ∷ rest

-- `inode_reopen` returns its argument.
unfoldable pub inode_reopen : {M : Type 0} → ℕ → OpenInodes M → ℕ × OpenInodes M
inode_reopen a t = (a, t)

unfoldable pub inode_open : {M : Type 0} → ℕ → ℕ → OpenInodes M → Option (ℕ × OpenInodes M)
unfolding find_inode inode_reopen inode_disk_of
inode_open fresh sector t = elim (find_inode sector t.inodes) [
  | some i ↦ some (inode_reopen i.address t)
  | none ↦ option_bind (with_cache t.store (buffer_cache_read sector t.store.cache)) λ (b, u).
      some (
        fresh,
        record {
          inodes =
              record {
                address = fresh;
                sector = sector;
                open_cnt = 1;
                removed = false;
                deny_write_cnt = 0;
                contents = inode_disk_of b;
              }
              ∷ t.inodes;
          store = u;
        },
      )
]

unfoldable pub inode_remove : {M : Type 0} → ℕ → OpenInodes M → Option (OpenInodes M)
unfolding at_address put_inode
inode_remove a t =
    option_bind (at_address a t.inodes)
      λ i. some (record t { inodes = put_inode (record i { removed = true }) t.inodes })

unfoldable pub inode_deny_write : {M : Type 0} → ℕ → OpenInodes M → Option (OpenInodes M)
unfolding at_address put_inode
inode_deny_write a t = option_bind (at_address a t.inodes) λ i.
    if leb (i.deny_write_cnt + 1) i.open_cnt
    then some (record t {
      inodes = put_inode (record i { deny_write_cnt = i.deny_write_cnt + 1 }) t.inodes;
    })
    else none

unfoldable pub inode_allow_write : {M : Type 0} → ℕ → OpenInodes M → Option (OpenInodes M)
unfolding at_address put_inode
inode_allow_write a t = option_bind (at_address a t.inodes) λ i.
    if not (ltb 0 i.deny_write_cnt)
    then none
    else if leb i.deny_write_cnt i.open_cnt
    then some (record t {
      inodes = put_inode (record i { deny_write_cnt = i.deny_write_cnt - 1 }) t.inodes;
    })
    else none

-- `inode_close`; the sectors of a file that was removed are released with the last opener.
unfoldable pub inode_close :
    {M : Type 0} → (ℕ → Store M → Option (Store M)) → ℕ → OpenInodes M → Option (OpenInodes M)
unfolding at_address put_inode list_remove inode_deallocate
inode_close free_map_release a t = option_bind (at_address a t.inodes) λ i.
    if i.open_cnt == 1
    then (if i.removed
        then option_bind (free_map_release i.sector t.store) (λ u.
          option_bind (inode_deallocate free_map_release i.contents u)
            λ v. some (record { inodes = list_remove a t.inodes; store = v }))
        else some (record t { inodes = list_remove a t.inodes }))
    else some (record t { inodes = put_inode (record i { open_cnt = i.open_cnt - 1 }) t.inodes })

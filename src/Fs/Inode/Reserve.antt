-- ===== src/Fs/Inode/Reserve.antt =====
-- How a3/fs/inode.c gives a file its sectors and takes them back. `free_map_allocate` and
-- `free_map_release` are arguments: the first returns the sector, if there is one. `none` is a panic.
pub mod Reserved
use comp310_winter.Base.{
  ℕ, ◌+◌, ◌-◌, ◌*◌, ◌/◌, ◌%◌, ◌==◌, ◌++◌, not, ltb, true, false, zero, suc, [], ◌∷◌, min, Bool,
  Option, none, some, List, if◌then◌else◌, replicate,
}
use comp310_winter.Fs.Block.{Sector}
use comp310_winter.Fs.Cache.{Cache, option_bind, buffer_cache_read, buffer_cache_write}
use comp310_winter.Fs.Capacity.{direct_blocks_count, bytes_to_sectors}
use comp310_winter.Fs.Inode.{InodeDisk, block_at, copy_entries}

-- `INODE_MAGIC`
abbrev pub inode_magic : ℕ
inode_magic = 1229868868

-- What a new sector holds.
unfoldable pub zeros : Sector
zeros = replicate 512 0

-- The four bytes of a number, the lowest first.
unfoldable pub number_bytes : ℕ → List ℕ
number_bytes n = (n % 256) ∷ ((n / 256) % 256) ∷ ((n / 65536) % 256) ∷ ((n / 16777216) % 256) ∷ []

unfoldable pub entry_bytes : List ℕ → List ℕ
unfolding number_bytes
entry_bytes [] = []
entry_bytes (n ∷ ns) = number_bytes n ++ entry_bytes ns

-- A `struct inode_disk` as the bytes of a sector.
unfoldable pub inode_disk_bytes : InodeDisk → Sector
unfolding entry_bytes number_bytes
inode_disk_bytes idisk =
    entry_bytes idisk.direct_blocks
    ++ (entry_bytes (idisk.indirect_block ∷ idisk.doubly_indirect_block ∷ [])
        ++ (((if idisk.is_dir then 1 else 0) ∷ 0 ∷ 0 ∷ 0 ∷ [])
            ++ entry_bytes (idisk.length ∷ idisk.magic ∷ [])))

-- The disk through the cache, and the free map.
pub record Store (M : Type 0) : Type 0 where
  pub cache : Cache
  pub free_map : M

-- A result that came from the cache alone.
abbrev pub with_cache {ℓ} :
    {M : Type 0} {A : Type ℓ} → Store M → Option (A × Cache) → Option (A × Store M)
with_cache t run = option_bind run (λ (a, c). some (a, record t { cache = c }))

abbrev pub write_cache : {M : Type 0} → ℕ → Sector → Store M → Option (Store M)
write_cache sector b t =
    option_bind (buffer_cache_write sector b t.cache) (λ c. some (record t { cache = c }))

-- The loops over the entries of an inode or of an indirect block, `n` of them from the first on. They
-- stop at the first that fails, and the entries before it keep their sectors.
unfoldable pub reserve_entries :
    {M : Type 0}
    → (ℕ → ℕ → Store M → Option ((Bool × ℕ) × Store M))
    → ℕ
    → ℕ
    → ℕ
    → List ℕ
    → Store M
    → Option ((Bool × List ℕ) × Store M)
reserve_entries reserve unit zero num_sectors entries t = some ((true, entries), t)
reserve_entries reserve unit (suc n) num_sectors [] t = none
reserve_entries reserve unit (suc n) num_sectors (entry ∷ entries) t =
    let subsize = min num_sectors unit in
    option_bind (reserve entry subsize t) λ ((done, entry'), t').
      let rest = reserve_entries reserve unit n (num_sectors - subsize) entries t' in
      if done
      then option_bind rest (λ ((ok, es), t''). some ((ok, entry' ∷ es), t''))
      else some ((false, entry' ∷ entries), t')

or_zero : Option ℕ → ℕ
or_zero none = 0
or_zero (some s) = s

module _ {M : Type 0} (free_map_allocate : Store M → Option (Option ℕ × Store M)) where
  -- An entry that has no sector yet is given one, filled with zeros: whether that worked, and the entry.
  unfoldable pub reserve_entry : ℕ → Store M → Option ((Bool × ℕ) × Store M)
  reserve_entry entry t =
      if entry == 0
      then option_bind (free_map_allocate t) (λ (got, t'). elim got [
        | none ↦ some ((false, entry), t')
        | some s ↦ option_bind (write_cache s zeros t') λ t''. some ((true, s), t'')
      ])
      else some ((true, entry), t)

  -- The sector of an indirect block, with zeros if it is new. A failed allocation is not looked at:
  -- the entry stays 0, and the zeros go to the sector 0.
  unfoldable pub indirect_sector : ℕ → Store M → Option (ℕ × Store M)
  unfolding or_zero
  indirect_sector entry t =
      if entry == 0
      then option_bind (free_map_allocate t) (λ (got, t').
        option_bind (write_cache (or_zero got) zeros t') λ t''. some (or_zero got, t''))
      else some (entry, t)

  -- `inode_reserve_indirect` above the level 0, with the level below it.
  unfoldable pub reserve_block :
      (ℕ → ℕ → Store M → Option ((Bool × ℕ) × Store M))
      → ℕ
      → ℕ
      → ℕ
      → Store M
      → Option ((Bool × ℕ) × Store M)
  unfolding indirect_sector reserve_entries
  reserve_block below unit entry num_sectors t = option_bind (indirect_sector entry t) λ (s, t').
      option_bind (with_cache t' (buffer_cache_read s t'.cache)) λ (b, t'').
        option_bind
          (reserve_entries below unit ((num_sectors + unit - 1) / unit) num_sectors
            (copy_entries (block_at b) 128 0) t'')
          λ ((ok, blocks), u).
            if ok
            then option_bind (write_cache s (entry_bytes blocks) u) (λ v. some ((true, s), v))
            else some ((false, s), u)

  -- `inode_reserve_indirect` at the levels 0, 1 and 2.
  unfoldable pub inode_reserve_indirect : ℕ → ℕ → ℕ → Store M → Option ((Bool × ℕ) × Store M)
  unfolding reserve_entry reserve_block
  inode_reserve_indirect zero entry num_sectors t = reserve_entry entry t
  inode_reserve_indirect (suc zero) entry num_sectors t =
      reserve_block (inode_reserve_indirect zero) 1 entry num_sectors t
  inode_reserve_indirect (suc (suc zero)) entry num_sectors t =
      reserve_block (inode_reserve_indirect (suc zero)) 128 entry num_sectors t
  inode_reserve_indirect (suc (suc (suc level))) entry num_sectors t = none

  -- The direct blocks, then the indirect one, then the doubly indirect one.
  unfoldable pub reserve_direct : InodeDisk → ℕ → Store M → Option ((Bool × InodeDisk) × Store M)
  unfolding reserve_entries inode_reserve_indirect
  reserve_direct idisk l t =
      option_bind (reserve_entries (inode_reserve_indirect 0) 1 l l idisk.direct_blocks t)
        λ ((ok, blocks), t'). some ((ok, record idisk { direct_blocks = blocks }), t')

  unfoldable pub reserve_single : InodeDisk → ℕ → Store M → Option ((Bool × InodeDisk) × Store M)
  unfolding inode_reserve_indirect
  reserve_single idisk l t =
      option_bind (inode_reserve_indirect 1 idisk.indirect_block l t)
        λ ((ok, s), t'). some ((ok, record idisk { indirect_block = s }), t')

  unfoldable pub reserve_doubly : InodeDisk → ℕ → Store M → Option ((Bool × InodeDisk) × Store M)
  unfolding inode_reserve_indirect
  reserve_doubly idisk l t =
      option_bind (inode_reserve_indirect 2 idisk.doubly_indirect_block l t)
        λ ((ok, s), t'). some ((ok, record idisk { doubly_indirect_block = s }), t')

  -- After a part: stop at a failure, or when no sectors are left to reserve.
  abbrev unless_done :
      ℕ
      → (InodeDisk → Store M → Option ((Bool × InodeDisk) × Store M))
      → (Bool × InodeDisk) × Store M
      → Option ((Bool × InodeDisk) × Store M)
  unless_done left next ((ok, idisk), t) =
      if not ok
      then some ((false, idisk), t)
      else if left == 0
      then some ((true, idisk), t)
      else next idisk t

  -- `inode_reserve`: the inode keeps what it was given before a failure.
  unfoldable pub inode_reserve : InodeDisk → ℕ → Store M → Option ((Bool × InodeDisk) × Store M)
  unfolding reserve_direct reserve_single reserve_doubly
  inode_reserve idisk length t =
      let num_sectors = bytes_to_sectors length in
      let direct = min num_sectors direct_blocks_count in
      let single = min (num_sectors - direct) 128 in
      let doubly = min (num_sectors - direct - single) (128 * 128) in
      option_bind (reserve_direct idisk direct t) (
        unless_done (num_sectors - direct) λ idisk t. option_bind (reserve_single idisk single t) (
          unless_done (num_sectors - direct - single) λ idisk t.
            option_bind (reserve_doubly idisk doubly t)
              (unless_done (num_sectors - direct - single - doubly) λ idisk t. none)))

  -- `inode_create`, with `inode_allocate`.
  unfoldable pub inode_create : ℕ → ℕ → Bool → Store M → Option (Bool × Store M)
  unfolding inode_reserve inode_disk_bytes
  inode_create sector length is_dir t =
      option_bind
        (inode_reserve
          (record {
            direct_blocks = replicate 123 0;
            indirect_block = 0;
            doubly_indirect_block = 0;
            is_dir = is_dir;
            length = length;
            magic = inode_magic;
          })
          length t)
        λ ((ok, idisk), t').
          if ok
          then option_bind (write_cache sector (inode_disk_bytes idisk) t')
              (λ t''. some (true, t''))
          else some (false, t')

-- The loops over `n` entries of an inode or of an indirect block, with the level below.
unfoldable pub release_entries :
    {M : Type 0}
    → (ℕ → ℕ → Store M → Option (Store M))
    → ℕ
    → ℕ
    → ℕ
    → List ℕ
    → Store M
    → Option (Store M)
release_entries release unit zero num_sectors entries t = some t
release_entries release unit (suc n) num_sectors [] t = none
release_entries release unit (suc n) num_sectors (entry ∷ entries) t =
    let subsize = min num_sectors unit in
    option_bind (release entry subsize t)
      λ t'. release_entries release unit n (num_sectors - subsize) entries t'

module _ {M : Type 0} (free_map_release : ℕ → Store M → Option (Store M)) where
  unfoldable pub release_block :
      (ℕ → ℕ → Store M → Option (Store M)) → ℕ → ℕ → ℕ → Store M → Option (Store M)
  unfolding release_entries
  release_block below unit entry num_sectors t =
      option_bind (with_cache t (buffer_cache_read entry t.cache)) λ (b, t').
        option_bind
          (release_entries below unit ((num_sectors + unit - 1) / unit) num_sectors
            (copy_entries (block_at b) 128 0) t')
          (free_map_release entry)

  -- `inode_deallocate_indirect`
  unfoldable pub inode_deallocate_indirect : ℕ → ℕ → ℕ → Store M → Option (Store M)
  unfolding release_block
  inode_deallocate_indirect zero entry num_sectors t = free_map_release entry t
  inode_deallocate_indirect (suc zero) entry num_sectors t =
      release_block (inode_deallocate_indirect zero) 1 entry num_sectors t
  inode_deallocate_indirect (suc (suc zero)) entry num_sectors t =
      release_block (inode_deallocate_indirect (suc zero)) 128 entry num_sectors t
  inode_deallocate_indirect (suc (suc (suc level))) entry num_sectors t = none

  -- The indirect and the doubly indirect block of a file that has sectors there.
  unfoldable pub release_part : ℕ → ℕ → ℕ → Store M → Option (Store M)
  unfolding inode_deallocate_indirect
  release_part level entry l t =
      if ltb 0 l then inode_deallocate_indirect level entry l t else some t

  -- `inode_deallocate`
  unfoldable pub inode_deallocate : InodeDisk → Store M → Option (Store M)
  unfolding release_entries release_part
  inode_deallocate idisk t =
      let num_sectors = bytes_to_sectors idisk.length in
      let direct = min num_sectors direct_blocks_count in
      let single = min (num_sectors - direct) 128 in
      let doubly = min (num_sectors - direct - single) (128 * 128) in
      option_bind
        (release_entries (inode_deallocate_indirect 0) 1 direct direct idisk.direct_blocks t)
        λ t'. option_bind (release_part 1 idisk.indirect_block single t') λ t''.
          option_bind (release_part 2 idisk.doubly_indirect_block doubly t'')
            λ u. if num_sectors - direct - single - doubly == 0 then some u else none

-- ===== src/Fs/Inode/Reserve/Reserved.antt =====
-- What `inode_reserve_indirect` of a3/fs/inode.c does when no sector is free.
use comp310_winter.Base.{
  ℕ, suc, ◌+◌, ◌-◌, ◌*◌, ◌/◌, ◌<◌, ◌≡◌, ◌≢◌, ap, ◌∙◌, false, Option, none, some, List, ◌∷◌, arith,
  get_or-replicate,
}
use comp310_winter.Fs.Block.{Sector}
use comp310_winter.Fs.Cache.{Cache, buffer_cache_read, buffer_cache_write}
use comp310_winter.Fs.Cache.Coherence.{Reads, IsGood}
use comp310_winter.Fs.Cache.Contents.{buffer_cache_write-Reads}
use comp310_winter.Fs.Inode.{block_at, copy_entries}
use comp310_winter.Fs.Inode.Index.{read_disk}
use comp310_winter.Fs.Inode.Reserve.{
  Store, zeros, with_cache, reserve_entry, reserve_entries, indirect_sector, reserve_block,
  inode_reserve_indirect,
}

block_at-zeros : (i : ℕ) → block_at zeros i ≡ 0
unfolding block_at zeros
block_at-zeros i = omega (
  arith,
  get_or-replicate {A = ℕ} 512 (4 * i) 0,
  get_or-replicate {A = ℕ} 512 (4 * i + 1) 0,
  get_or-replicate {A = ℕ} 512 (4 * i + 2) 0,
  get_or-replicate {A = ℕ} 512 (4 * i + 3) 0,
)

module _ {M : Type 0} (free_map_allocate : Store M → Option (Option ℕ × Store M)) where
  indirect_sector-full :
      (t : Store M) (c : Cache)
      → free_map_allocate t ≡ some (none, t)
      → buffer_cache_write 0 zeros t.cache ≡ some c
      → indirect_sector free_map_allocate 0 t ≡ some (0, record t { cache = c })
  unfolding indirect_sector
  indirect_sector-full t c full wrote = ground (arith, full, wrote)

  reserve_entries-full :
      (n num_sectors : ℕ) (entry : ℕ) (entries : List ℕ) (t : Store M)
      → free_map_allocate t ≡ some (none, t)
      → entry ≡ 0
      → reserve_entries
          (inode_reserve_indirect free_map_allocate 0)
          1
          (suc n)
          num_sectors
          (entry ∷ entries)
          t
        ≡ some ((false, entry ∷ entries), t)
  unfolding reserve_entries inode_reserve_indirect reserve_entry
  reserve_entries-full n num_sectors entry entries t full none_yet = ground (arith, full, none_yet)

  reserve_entries-copied :
      (n num_sectors : ℕ) (t : Store M)
      → free_map_allocate t ≡ some (none, t)
      → reserve_entries
          (inode_reserve_indirect free_map_allocate 0)
          1
          (suc n)
          num_sectors
          (copy_entries (block_at zeros) 128 0)
          t
        ≡ some ((false, copy_entries (block_at zeros) 128 0), t)
  unfolding copy_entries
  reserve_entries-copied n num_sectors t full =
      reserve_entries-full n num_sectors (block_at zeros 0) (copy_entries (block_at zeros) 127 1) t
        full (block_at-zeros 0)

  reserve_block-fails :
      (num_sectors s : ℕ) (b : Sector) (blocks : List ℕ) (t u v : Store M)
      → indirect_sector free_map_allocate 0 t ≡ some (s, u)
      → with_cache u (buffer_cache_read s u.cache) ≡ some (b, v)
      → reserve_entries
          (inode_reserve_indirect free_map_allocate 0)
          1
          ((num_sectors + 1 - 1) / 1)
          num_sectors
          (copy_entries (block_at b) 128 0)
          v
        ≡ some ((false, blocks), v)
      → inode_reserve_indirect free_map_allocate 1 0 num_sectors t ≡ some ((false, s), v)
  unfolding inode_reserve_indirect reserve_block
  reserve_block-fails num_sectors s b blocks t u v sector read fails =
      ground (arith, sector, read, fails)

with_cache-read :
    {M : Type 0} (t : Store M) (b : Sector) (c : Cache) (run : Option (Sector × Cache))
    → run ≡ some (b, c)
    → with_cache t run ≡ some (b, record t { cache = c })
with_cache-read t b c run read = ap (with_cache t) read

-- When the free map as it is gives no sector, whatever the cache holds, and stays as it is,
-- reserving sectors behind a first indirect block that is not there yet fails, but the sector 0,
-- where the inode of the free map is, then reads as zeros; every other sector reads as before. The
-- cache is good, the device is not empty, and one sector at least is asked for.
pub inode_reserve_indirect-full :
    {M : Type 0} (free_map_allocate : Store M → Option (Option ℕ × Store M)) (num_sectors : ℕ)
    (t : Store M)
    → ((c : Cache)
        → free_map_allocate (record t { cache = c }) ≡ some (none, record t { cache = c }))
    → IsGood t.cache
    → 0 < t.cache.device.size
    → 0 < num_sectors
    → (t' : Store M) × (inode_reserve_indirect free_map_allocate 1 0 num_sectors t
        ≡ some ((false, 0), t'))
      × Reads t'.cache 0 zeros
      × ((s : ℕ) (b : Sector) → 0 ≢ s → Reads t.cache s b → Reads t'.cache s b)
inode_reserve_indirect-full free_map_allocate num_sectors t full good room some_sectors =
    let (c, wrote, good', here, others, same) =
      buffer_cache_write-Reads 0 zeros t.cache good room in
    let (d, read, u) = read_disk 0 c zeros good' here (omega (arith, room, same)) in
    (
      record t { cache = d },
      reserve_block-fails free_map_allocate num_sectors 0 zeros
          (copy_entries (block_at zeros) 128 0) t (record t { cache = c }) (record t { cache = d })
          (indirect_sector-full free_map_allocate t c (full t.cache) wrote)
          (with_cache-read (record t { cache = c }) zeros d _ read)
          (ap
              (λ n.
                reserve_entries (inode_reserve_indirect free_map_allocate 0) 1 n num_sectors
                  (copy_entries (block_at zeros) 128 0) (record t { cache = d }))
              {y = suc (num_sectors - 1)} (omega (arith, some_sectors))
            ∙ reserve_entries-copied free_map_allocate (num_sectors - 1) num_sectors
                (record t { cache = d }) (full d)),
      u.reads 0 zeros here,
      λ s b ne r. u.reads s b (others s b ne r),
    )

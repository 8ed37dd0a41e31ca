-- ===== src/Fs/Inode/Write.antt =====
-- `inode_write_at` of a3/fs/inode.c. `none` is a panic.
pub mod Spliced
pub mod Loop
pub mod Writing
pub mod Written
mod Tests
use comp310_winter.Base.{
  ℕ, ◌+◌, ◌-◌, ◌*◌, ◌/◌, ◌%◌, ◌==◌, ◌&&◌, ◌||◌, ◌++◌, not, true, false, zero, suc, [], ◌∷◌, min,
  ltb, Bool, Option, none, some, List, if◌then◌else◌, get_or, set, replicate,
}
use comp310_winter.Fs.Block.{Sector}
use comp310_winter.Fs.Cache.{Cache, option_bind, buffer_cache_read, buffer_cache_write}
use comp310_winter.Fs.Capacity.{direct_blocks_count, indirect_blocks_per_sector, bytes_to_sectors}
use comp310_winter.Fs.Inode.{
  InodeDisk, block_at, no_sector, byte_to_sector, slice, chunk_size, copy_entries,
}
use comp310_winter.Fs.Inode.Table.{Inode}
use comp310_winter.Fs.Inode.Reserve.{
  Store, with_cache, write_cache, zeros, inode_disk_bytes, inode_reserve,
}

-- `memcpy` of bytes to `buffer + i`.
unfoldable pub overwrite : List ℕ → ℕ → List ℕ → List ℕ
overwrite buffer i [] = buffer
overwrite buffer i (b ∷ bs) = overwrite (set buffer i b) (i + 1) bs

-- The bounce buffer before the new bytes are copied to it.
unfoldable pub bounce_of : ℕ → ℕ → ℕ → Cache → Option (Sector × Cache)
bounce_of chunk sector_ofs sector_idx c =
    if ltb 0 sector_ofs || ltb chunk (512 - sector_ofs)
    then buffer_cache_read sector_idx c
    else some (zeros, c)

-- One round writes a sector in full or in part.
unfoldable pub write_chunk : List ℕ → ℕ → ℕ → ℕ → Cache → Option Cache
unfolding slice overwrite bounce_of
write_chunk bytes chunk sector_ofs sector_idx c =
    if (sector_ofs == 0) && (chunk == 512)
    then buffer_cache_write sector_idx bytes c
    else option_bind (bounce_of chunk sector_ofs sector_idx c)
        (λ (b, c'). buffer_cache_write sector_idx (overwrite b sector_ofs bytes) c')

-- The loop of `inode_write_at` on fuel: the bytes written. The buffer is read from `bytes_written` on.
unfoldable pub write_loop : ℕ → InodeDisk → List ℕ → ℕ → ℕ → ℕ → Cache → Option (ℕ × Cache)
unfolding write_chunk byte_to_sector slice
write_loop zero idisk buffer size offset bytes_written c = none
write_loop (suc n) idisk buffer size offset bytes_written c =
    let chunk = chunk_size idisk size offset in
    let again = write_loop n idisk buffer (size - chunk) (offset + chunk) (bytes_written + chunk) in
    if size == 0
    then some (bytes_written, c)
    else option_bind (byte_to_sector idisk offset c) (λ (sector_idx, c').
      if chunk == 0
      then some (bytes_written, c')
      else option_bind
          (write_chunk (slice chunk bytes_written buffer) chunk (offset % 512) sector_idx c') again)

-- The sector of the last byte to write. A write of no bytes at the offset 0 has the position -1.
unfoldable pub last_sector : InodeDisk → ℕ → Cache → Option (ℕ × Cache)
unfolding byte_to_sector
last_sector idisk end c = if end == 0 then some (no_sector, c) else byte_to_sector idisk (end - 1) c

-- The search for the sectors and the copying, behind the checks.
unfoldable pub write_bytes :
    {M : Type 0} → Inode → List ℕ → ℕ → ℕ → Store M → Option ((ℕ × Inode) × Store M)
unfolding write_loop
write_bytes inode buffer size offset t =
    option_bind (with_cache t (write_loop (size + 1) inode.contents buffer size offset 0 t.cache))
      λ (bytes_written, t'). some ((bytes_written, inode), t')

-- The checks of `inode_write_at` for a write up to the byte `end`, with `write` the rest of it: a file
-- that is too short is given sectors.
unfoldable pub write_checked :
    {M : Type 0}
    → (Store M → Option (Option ℕ × Store M))
    → (Inode → Store M → Option ((ℕ × Inode) × Store M))
    → Inode
    → ℕ
    → Store M
    → Option ((ℕ × Inode) × Store M)
unfolding last_sector
write_checked free_map_allocate write inode end t =
    if not (inode.deny_write_cnt == 0)
    then some ((0, inode), t)
    else option_bind (with_cache t (last_sector inode.contents end t.cache)) (λ (s, u).
      if s == no_sector
      then option_bind (inode_reserve free_map_allocate inode.contents end u)
          (λ ((success, idisk), v).
            let longer = record idisk { length = end } in
            if success
            then option_bind (write_cache inode.sector (inode_disk_bytes longer) v)
                (write (record inode { contents = longer }))
            else some ((0, record inode { contents = idisk }), v))
      else write inode u)

-- `inode_write_at`, for a position that is not negative: the bytes written, and the inode.
unfoldable pub inode_write_at :
    {M : Type 0}
    → (Store M → Option (Option ℕ × Store M))
    → Inode
    → List ℕ
    → ℕ
    → ℕ
    → Store M
    → Option ((ℕ × Inode) × Store M)
unfolding write_checked write_bytes
inode_write_at free_map_allocate inode buffer size offset t =
    write_checked free_map_allocate (λ i. write_bytes i buffer size offset) inode (offset + size) t

-- ===== src/Fs/Inode/Write/Written.antt =====
-- `inode_write_at` of a3/fs/inode.c as a whole: what it writes, and what is read afterwards.
use mathlib.Core.Path.{ap₂}
use comp310_winter.Base.{
  ℕ, zero, suc, ◌+◌, ◌-◌, ◌%◌, ◌<◌, ◌≤◌, ◌≡◌, ◌≢◌, refl, ap, ◌∙◌, ◌∷◌, Option, some, List, arith,
  get_or,
}
use comp310_winter.Fs.Block.{Sector}
use comp310_winter.Fs.Cache.{Cache}
use comp310_winter.Fs.Inode.{InodeDisk, no_sector, slice, chunk_size, byte_to_sector, inode_read_at}
use comp310_winter.Fs.Inode.Index.{byte_to_sector-Finds}
use comp310_winter.Fs.Inode.Reading.{
  IsStored-Unchanged, sector_at, byte_at, file_bytes, inode_read_at-file_bytes,
}
use comp310_winter.Fs.Inode.Table.{Inode}
use comp310_winter.Fs.Inode.Reserve.{Store}
use comp310_winter.Fs.Inode.Write.{
  write_chunk, write_loop, write_bytes, last_sector, inode_write_at,
}
use comp310_winter.Fs.Inode.Write.Spliced.{update, length-slice, write_chunk-Wrote}
use comp310_winter.Fs.Inode.Write.Writing.{Spliced, round-Spliced}
use comp310_winter.Fs.Inode.Write.Loop.{Spliced-none, Spliced-trans, IsWritable, IsWritable-Wrote}

-- A run that returns the bytes written, and the disk after it.
pub record Writes (idisk : InodeDisk) (disk : ℕ → Sector) (c : Cache) (buffer : List ℕ)
    (from offset size bytes_written : ℕ) (run : Option (ℕ × Cache)) : Type 0 where
  pub disk' : ℕ → Sector
  pub after : Cache
  pub result : run ≡ some (bytes_written, after)
  pub writable : IsWritable idisk disk' after
  pub spliced : Spliced idisk disk disk' buffer from offset size
  pub same_size : after.device.size ≡ c.device.size

module _ (idisk : InodeDisk) (buffer : List ℕ) where
  write_loop-step :
      (n size offset from chunk s : ℕ) (c c' c'' : Cache)
      → size ≢ 0
      → chunk_size idisk size offset ≡ chunk
      → chunk ≢ 0
      → byte_to_sector idisk offset c ≡ some (s, c')
      → write_chunk (slice chunk from buffer) chunk (offset % 512) s c' ≡ some c''
      → write_loop (suc n) idisk buffer size offset from c
        ≡ write_loop n idisk buffer (size - chunk) (offset + chunk) (from + chunk) c''
  unfolding write_loop
  write_loop-step n size offset from chunk s c c' c'' more is_chunk some_bytes found wrote =
      ground (arith, more, is_chunk, some_bytes, found, wrote)

  write_loop-stop :
      (n offset from : ℕ) (c : Cache)
      → write_loop (suc n) idisk buffer 0 offset from c ≡ some (from, c)
  unfolding write_loop
  write_loop-stop n offset from c = refl

  write_loop-Writes :
      (disk : ℕ → Sector) (n size offset from : ℕ) (c : Cache)
      → IsWritable idisk disk c
      → size < n
      → offset + size ≤ idisk.length
      → Writes idisk disk c buffer from offset size
          (from + size)
          (write_loop n idisk buffer size offset from c)
  write_loop-Writes disk zero size offset from c w enough fits = absurd (omega arith)
  write_loop-Writes disk (suc n) zero offset from c w enough fits = record {
    disk' = disk;
    after = c;
    result = write_loop-stop n offset from c ∙ ap (λ k. some (k, c)) (omega arith);
    writable = w;
    spliced = Spliced-none idisk disk buffer from offset 0 refl;
    same_size = refl;
  }
  write_loop-Writes disk (suc n) (suc m) offset from c w enough fits =
      let size : ℕ = suc m in
      let chunk = chunk_size idisk size offset in
      let s = sector_at disk idisk offset in
      let inside : offset < idisk.length = omega (arith, fits) in
      let (c', found, u) =
        byte_to_sector-Finds idisk disk c w.stored.mapped offset inside
          (omega (arith, inside, w.stored.small)) in
      let (new, part, v) =
        write_chunk-Wrote c' disk s (slice chunk from buffer) chunk (offset % 512)
          (record {
            good = u.good;
            contents = λ t. u.reads t (disk t) (w.stored.mapped.contents t);
          })
          (omega (arith, u.same_size, w.stored.on_device offset inside)) (w.stored.whole s)
          (length-slice chunk from buffer) (omega arith) in
      let round =
        round-Spliced idisk disk w.apart offset inside new buffer from chunk (omega (arith, inside))
          (omega arith) part in
      let rest =
        write_loop-Writes (update disk s new) n (size - chunk) (offset + chunk) (from + chunk)
          v.after
          (IsWritable-Wrote idisk disk c' s new _ v
            (record { stored = IsStored-Unchanged idisk disk c c' w.stored u; apart = w.apart })
            part.whole round.same_sectors round.same_table)
          (omega (arith, enough, inside)) (omega (arith, fits)) in
      record {
        disk' = rest.disk';
        after = rest.after;
        result =
            write_loop-step n size offset from chunk s c c' v.after (omega arith) refl
              (omega (arith, inside)) found v.result
            ∙ rest.result
            ∙ ap (λ k. some (k, rest.after)) {y = from + size} (omega arith);
        writable = rest.writable;
        spliced =
            Spliced-trans idisk disk (update disk s new) rest.disk' buffer from offset chunk size
              (omega arith) fits round rest.spliced;
        same_size = rest.same_size ∙ v.same_size ∙ u.same_size;
      }

module _ {M : Type 0} (free_map_allocate : Store M → Option (Option ℕ × Store M)) (inode : Inode)
    (buffer : List ℕ) (size offset : ℕ) (t : Store M) where
  inode_write_at-inside :
      (s : ℕ) (c : Cache)
      → inode.deny_write_cnt ≡ 0
      → 0 < size
      → byte_to_sector inode.contents (offset + size - 1) t.cache ≡ some (s, c)
      → s ≢ no_sector
      → inode_write_at free_map_allocate inode buffer size offset t
        ≡ write_bytes inode buffer size offset (record t { cache = c })
  unfolding inode_write_at last_sector
  inode_write_at-inside s c allowed some_bytes found room =
      ground (arith, allowed, some_bytes, found, room)

  write_bytes-result :
      (n : ℕ) (c : Cache)
      → write_loop (size + 1) inode.contents buffer size offset 0 t.cache ≡ some (n, c)
      → write_bytes inode buffer size offset t ≡ some ((n, inode), record t { cache = c })
  unfolding write_bytes
  write_bytes-result n c loop = ground (arith, loop)

-- What a write inside a file returns and leaves.
pub record WritesInside {M : Type 0} (inode : Inode) (disk : ℕ → Sector) (buffer : List ℕ)
    (size offset : ℕ) (t : Store M) (run : Option ((ℕ × Inode) × Store M)) : Type 0 where
  pub disk' : ℕ → Sector
  pub after : Cache
  pub result : run ≡ some ((size, inode), record t { cache = after })
  pub writable : IsWritable inode.contents disk' after
  pub spliced : Spliced inode.contents disk disk' buffer 0 offset size

-- A write of one byte or more inside a file that can be written returns the number of bytes asked for,
-- and the file then holds the bytes of the buffer, with every other byte and sector as it was.
pub inode_write_at-WritesInside :
    {M : Type 0} (free_map_allocate : Store M → Option (Option ℕ × Store M)) (inode : Inode)
    (disk : ℕ → Sector) (buffer : List ℕ) (size offset : ℕ) (t : Store M)
    → inode.deny_write_cnt ≡ 0
    → 0 < size
    → offset + size ≤ inode.contents.length
    → IsWritable inode.contents disk t.cache
    → t.cache.device.size ≤ no_sector
    → WritesInside inode disk buffer size offset t
        (inode_write_at free_map_allocate inode buffer size offset t)
inode_write_at-WritesInside free_map_allocate inode disk buffer size offset t allowed some_bytes
      fits w device =
    let idisk = inode.contents in
    let last = offset + size - 1 in
    let in_file : last < idisk.length = omega (arith, fits, some_bytes) in
    let (c, found, u) =
      byte_to_sector-Finds idisk disk t.cache w.stored.mapped last in_file
        (omega (arith, in_file, w.stored.small)) in
    let v =
      write_loop-Writes idisk buffer disk (size + 1) size offset 0 c
        (record { stored = IsStored-Unchanged idisk disk t.cache c w.stored u; apart = w.apart })
        (omega arith) fits in
    record {
      disk' = v.disk';
      after = v.after;
      result =
          inode_write_at-inside free_map_allocate inode buffer size offset t
            (sector_at disk idisk last) c allowed some_bytes found
            (λ e. omega (arith, e, device, w.stored.on_device last in_file))
          ∙ write_bytes-result free_map_allocate inode buffer size offset (record t { cache = c })
              size v.after (v.result ∙ ap (λ k. some (k, v.after)) {y = size} (omega arith));
      writable = v.writable;
      spliced = v.spliced;
    }

pub file_bytes-slice :
    (idisk : InodeDisk) (disk : ℕ → Sector) (buffer : List ℕ) (n from offset : ℕ)
    → ((j : ℕ) → j < n → byte_at disk idisk (offset + j) ≡ get_or buffer (from + j) 0)
    → file_bytes disk idisk n offset ≡ slice n from buffer
unfolding slice
file_bytes-slice idisk disk buffer zero from offset h = refl
file_bytes-slice idisk disk buffer (suc n) from offset h =
    ap₂ (λ (b : ℕ) (bs : List ℕ). b ∷ bs)
      (ap (byte_at disk idisk) {y = offset + 0} (omega arith)
        ∙ h 0 (omega arith)
        ∙ ap (λ k. get_or buffer k 0) (omega arith))
      (file_bytes-slice idisk disk buffer n (from + 1) (offset + 1) (λ j below.
        ap (byte_at disk idisk) {y = offset + suc j} (omega arith)
        ∙ h (suc j) (omega (arith, below))
        ∙ ap (λ k. get_or buffer k 0) (omega arith)))

-- A write of one byte or more that stays inside a file returns the number of bytes asked for and
-- leaves the inode as it is, and a read of as many bytes at the same offset then returns the bytes
-- of the buffer. The file is stored on the device, its data sectors are different and none of them
-- is a block of sector numbers that it uses, or the sector 0 where it lacks one, writes to it are
-- not denied, and the device has less than 2 ^ 32 sectors. A file is stored when the cache is
-- good, every sector has 512 bytes, the file has at most 16635 sectors, and its data sectors, its
-- indirect and doubly indirect block (0 where it has none) and the entries of the latter that the
-- file reaches into are on the device.
pub inode_read_at-inode_write_at :
    {M : Type 0} (free_map_allocate : Store M → Option (Option ℕ × Store M)) (inode : Inode)
    (disk : ℕ → Sector) (buffer : List ℕ) (size offset : ℕ) (t : Store M)
    → inode.deny_write_cnt ≡ 0
    → 0 < size
    → offset + size ≤ inode.contents.length
    → IsWritable inode.contents disk t.cache
    → t.cache.device.size ≤ no_sector
    → (t' : Store M) × (c : Cache) × (inode_write_at free_map_allocate inode buffer size offset t
        ≡ some ((size, inode), t'))
      × (inode_read_at inode.contents size offset t'.cache ≡ some (slice size 0 buffer, c))
inode_read_at-inode_write_at free_map_allocate inode disk buffer size offset t allowed some_bytes
      fits w device =
    let idisk = inode.contents in
    let v =
      inode_write_at-WritesInside free_map_allocate inode disk buffer size offset t allowed
        some_bytes fits w device in
    let (c, read, u) =
      inode_read_at-file_bytes idisk v.disk' v.after size offset v.writable.stored in
    (
      record t { cache = v.after },
      c,
      v.result,
      read
          ∙ ap (λ n. some (file_bytes v.disk' idisk n offset, c)) {y = size} (omega (arith, fits))
          ∙ ap (λ bs. some (bs, c))
              (file_bytes-slice idisk v.disk' buffer size 0 offset v.spliced.inside),
    )

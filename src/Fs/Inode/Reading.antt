-- ===== src/Fs/Inode/Reading.antt =====
-- `inode_read_at` of a3/fs/inode.c and the bytes of a file.
use mathlib.Core.List.{append_assoc, append-nil}
use mathlib.Core.Path.{ap₂}
use comp310_winter.Base.{
  ℕ, zero, suc, ◌+◌, ◌-◌, ◌/◌, ◌%◌, ◌<◌, ◌≤◌, ◌==◌, ==_ne, ◌&&◌, min, ◌≡◌, ◌≢◌, refl, sym, ap, ◌∙◌,
  true, Bool-cases, inl, inr, Option, some, List, [], ◌∷◌, ◌++◌, arith, length, get_or, dec_lt,
  if◌then◌else◌,
}
use comp310_winter.Fs.Block.{Sector}
use comp310_winter.Fs.Cache.{Cache, buffer_cache_read, option_bind}
use comp310_winter.Fs.Cache.Contents.{Unchanged}
use comp310_winter.Fs.Inode.{
  InodeDisk, no_sector, byte_to_sector, slice, chunk_size, chunk_of, read_chunk, read_loop,
  inode_read_at,
}
use comp310_winter.Fs.Inode.Index.{
  data_sectors, IsMapped, Unchanged-trans, read_disk, byte_to_sector-Finds,
}

pub get_or-at_length : (a b : List ℕ) (x : ℕ) → get_or (a ++ (x ∷ b)) (length a) 0 ≡ x
get_or-at_length [] b x = refl
get_or-at_length (y ∷ a) b x = get_or-at_length a b x

pub length-snoc : (a : List ℕ) (x : ℕ) → length a + 1 ≡ length (a ++ (x ∷ []))
length-snoc [] x = omega arith
length-snoc (y ∷ a) x = omega (arith, length-snoc a x)

slice-append : (a b : List ℕ) → slice (length b) (length a) (a ++ b) ≡ b
unfolding slice
slice-append a [] = refl
slice-append a (x ∷ b) =
    ap₂ (λ (y : ℕ) (bs : List ℕ). y ∷ bs) (get_or-at_length a b x)
      (ap₂ (slice (length b)) (length-snoc a x) (sym (append_assoc a (x ∷ []) b))
        ∙ slice-append (a ++ (x ∷ [])) b)

module _ (disk : ℕ → Sector) (idisk : InodeDisk) where
  -- The sector of a byte of the file, and the byte.
  abbrev pub sector_at : ℕ → ℕ
  sector_at pos = get_or (data_sectors disk idisk) (pos / 512) no_sector

  abbrev pub byte_at : ℕ → ℕ
  byte_at pos = get_or (disk (sector_at pos)) (pos % 512) 0

  -- The bytes of the file at `pos`, ..., `pos + n - 1`.
  abbrev pub file_bytes : ℕ → ℕ → List ℕ
  file_bytes zero pos = []
  file_bytes (suc n) pos = byte_at pos ∷ file_bytes n (pos + 1)

  pub file_bytes-add :
      (m n pos : ℕ) → file_bytes (m + n) pos ≡ file_bytes m pos ++ file_bytes n (pos + m)
  file_bytes-add zero n pos = ap₂ file_bytes (omega arith) (omega arith)
  file_bytes-add (suc m) n pos =
      ap (λ k. file_bytes k pos) {y = suc (m + n)} (omega arith)
      ∙ ap (λ bs. byte_at pos ∷ bs)
          (file_bytes-add m n (pos + 1)
            ∙ ap (λ p. file_bytes m (pos + 1) ++ file_bytes n p) (omega arith))

  slice-file_bytes :
      (n o pos s : ℕ)
      → pos % 512 ≡ o
      → o + n ≤ 512
      → s ≡ sector_at pos
      → slice n o (disk s) ≡ file_bytes n pos
  unfolding slice
  slice-file_bytes zero o pos s e h same = refl
  slice-file_bytes (suc zero) o pos s e h same =
      ap₂ (λ (t : ℕ) (i : ℕ). get_or (disk t) i 0 ∷ []) same (sym e)
  slice-file_bytes (suc (suc n)) o pos s e h same =
      ap₂ (λ (x : ℕ) (bs : List ℕ). x ∷ bs)
        (ap₂ (λ (t : ℕ) (i : ℕ). get_or (disk t) i 0) same (sym e))
        (slice-file_bytes (suc n) (o + 1) (pos + 1) s (omega (arith, e, h)) (omega (arith, h))
          (same ∙ ap (λ i. get_or (data_sectors disk idisk) i no_sector) (omega (arith, e, h))))

  -- The bytes of a round.
  chunk_of-file_bytes :
      (chunk pos : ℕ)
      → chunk ≤ 512 - pos % 512
      → length (disk (sector_at pos)) ≡ 512
      → chunk_of chunk pos (disk (sector_at pos)) ≡ file_bytes chunk pos
  chunk_of-file_bytes chunk pos h whole = elim (Bool-cases ((pos % 512 == 0) && (chunk == 512))) [
    | inr part ↦
        ap (λ b. if b then disk (sector_at pos) else slice chunk (pos % 512) (disk (sector_at pos)))
          part
        ∙ slice-file_bytes chunk (pos % 512) pos (sector_at pos) refl (omega (arith, h)) refl
    | inl full ↦
        ap (λ b. if b then disk (sector_at pos) else slice chunk (pos % 512) (disk (sector_at pos)))
          full
        ∙ sym (slice-append [] (disk (sector_at pos)))
        ∙ ap (λ n. slice n 0 (disk (sector_at pos)))
            (omega (arith, whole, (both (pos % 512) chunk full).1))
        ∙ slice-file_bytes chunk 0 pos (sector_at pos) ((both (pos % 512) chunk full).0)
            (omega (arith, h)) refl
  ]
    where
      both : (a b : ℕ) → ((a == 0) && (b == 512)) ≡ true → (a ≡ 0) × (b ≡ 512)
      both a b e = ground (arith, e)

-- What a file needs to be read: its sectors are on the device, they are whole, and an inode has room
-- for its length.
pub record IsStored (idisk : InodeDisk) (disk : ℕ → Sector) (c : Cache) : Type 0 where
  pub mapped : IsMapped idisk disk c
  pub whole : (s : ℕ) → length (disk s) ≡ 512
  pub small : idisk.length ≤ 8517120
  pub on_device : (pos : ℕ) → pos < idisk.length → sector_at disk idisk pos < c.device.size

pub IsStored-Unchanged :
    (idisk : InodeDisk) (disk : ℕ → Sector) (c c' : Cache)
    → IsStored idisk disk c
    → Unchanged c c'
    → IsStored idisk disk c'
IsStored-Unchanged idisk disk c c' w u = record {
  mapped = record {
    good = u.good;
    contents = λ s. u.reads s (disk s) (w.mapped.contents s);
    direct = w.mapped.direct;
    indirect = omega (arith, u.same_size, w.mapped.indirect);
    doubly = omega (arith, u.same_size, w.mapped.doubly);
    second = λ i h. omega (arith, u.same_size, w.mapped.second i h);
  };
  whole = w.whole;
  small = w.small;
  on_device = λ pos h. omega (arith, u.same_size, w.on_device pos h);
}

module _ (idisk : InodeDisk) (disk : ℕ → Sector) where
  -- The run adds the bytes of the file at `offset`, as many as there are of `size`.
  abbrev pub Adds : Cache → List ℕ → ℕ → ℕ → Option (List ℕ × Cache) → Type 0
  Adds c buffer size offset run =
      (c' : Cache) × (run
        ≡ some (buffer ++ file_bytes disk idisk (min size (idisk.length - offset)) offset, c'))
      × Unchanged c c'

  read_loop-step :
      (n size offset s : ℕ) (buffer b : List ℕ) (c c' c'' : Cache)
      → size ≢ 0
      → chunk_size idisk size offset ≢ 0
      → byte_to_sector idisk offset c ≡ some (s, c')
      → buffer_cache_read s c' ≡ some (b, c'')
      → read_loop (suc n) idisk size offset buffer c
        ≡ read_loop n idisk
            (size - chunk_size idisk size offset)
            (offset + chunk_size idisk size offset)
            (buffer ++ chunk_of (chunk_size idisk size offset) offset b)
            c''
  unfolding read_loop read_chunk
  read_loop-step n size offset s buffer b c c' c'' more some_bytes found at =
      ap (λ t. if t then some (buffer, c) else option_bind (byte_to_sector idisk offset c) chunked)
        (==_ne size 0 more)
      ∙ ap (λ o. option_bind o chunked) found
      ∙ ap (λ t. if t then some (buffer, c') else option_bind (buffer_cache_read s c') again)
          (==_ne (chunk_size idisk size offset) 0 some_bytes)
      ∙ ap (λ o. option_bind o again) at
    where
      chunked : ℕ × Cache → Option (List ℕ × Cache)
      chunked = read_chunk (read_loop n idisk) idisk size offset buffer

      again : List ℕ × Cache → Option (List ℕ × Cache)
      again (b, c') =
          read_loop n idisk (size - chunk_size idisk size offset)
            (offset + chunk_size idisk size offset)
            (buffer ++ chunk_of (chunk_size idisk size offset) offset b) c'

  read_loop-stop :
      (n size offset : ℕ) (buffer : List ℕ) (c : Cache)
      → min size (idisk.length - offset) ≡ 0
      → read_loop (suc n) idisk size offset buffer c ≡ some (buffer, c)
  unfolding read_loop read_chunk byte_to_sector
  read_loop-stop n size offset buffer c none_left = ground (arith, none_left)

  -- A chunk and the rest are what was asked for.
  chunk-rest :
      (buffer taken : List ℕ) (k l m offset : ℕ)
      → taken ≡ file_bytes disk idisk k offset
      → k + l ≡ m
      → (buffer ++ taken) ++ file_bytes disk idisk l (offset + k)
        ≡ buffer ++ file_bytes disk idisk m offset
  chunk-rest buffer taken k l m offset e sum =
      append_assoc buffer taken (file_bytes disk idisk l (offset + k))
      ∙ ap (λ bs. buffer ++ bs)
          (ap (λ bs. bs ++ file_bytes disk idisk l (offset + k)) e
            ∙ sym (file_bytes-add disk idisk k l offset)
            ∙ ap (λ n. file_bytes disk idisk n offset) sum)

  read_loop-next :
      (n size offset : ℕ) (buffer : List ℕ) (c c' c'' d : Cache)
      → 0 < min size (idisk.length - offset)
      → byte_to_sector idisk offset c ≡ some (sector_at disk idisk offset, c')
      → buffer_cache_read (sector_at disk idisk offset) c'
        ≡ some (disk (sector_at disk idisk offset), c'')
      → length (disk (sector_at disk idisk offset)) ≡ 512
      → read_loop n idisk
          (size - chunk_size idisk size offset)
          (offset + chunk_size idisk size offset)
          (buffer
            ++ chunk_of (chunk_size idisk size offset) offset (disk (sector_at disk idisk offset)))
          c''
        ≡ some (
          (buffer
                ++ chunk_of
                    (chunk_size idisk size offset)
                    offset
                    (disk (sector_at disk idisk offset)))
              ++ file_bytes disk idisk
                  (min
                    (size - chunk_size idisk size offset)
                    (idisk.length - (offset + chunk_size idisk size offset)))
                  (offset + chunk_size idisk size offset),
          d,
        )
      → read_loop (suc n) idisk size offset buffer c
        ≡ some (buffer ++ file_bytes disk idisk (min size (idisk.length - offset)) offset, d)
  read_loop-next n size offset buffer c c' c'' d more found at whole rest =
      read_loop-step n size offset _ buffer _ c c' c'' (omega (arith, more)) (omega (arith, more))
        found at
      ∙ rest
      ∙ ap (λ bs. some (bs, d))
          (chunk-rest buffer _ (chunk_size idisk size offset) _ _ offset
            (chunk_of-file_bytes disk idisk (chunk_size idisk size offset) offset (omega arith)
              whole)
            (omega (arith, more)))

  read_loop-Adds :
      (n size offset : ℕ) (buffer : List ℕ) (c : Cache)
      → IsStored idisk disk c
      → size < n
      → Adds c buffer size offset (read_loop n idisk size offset buffer c)
  read_loop-Adds zero size offset buffer c w h = absurd (omega arith)
  read_loop-Adds (suc n) size offset buffer c w h =
      elim (dec_lt 0 (min size (idisk.length - offset))) [
        | no done ↦
            let stop : min size (idisk.length - offset) ≡ 0 = omega (arith, done) in
            (
              c,
              read_loop-stop n size offset buffer c stop
                  ∙ ap (λ bs. some (bs, c))
                      (sym (append-nil buffer)
                        ∙ ap (λ k. buffer ++ file_bytes disk idisk k offset) (sym stop)),
              record { good = w.mapped.good; same_size = refl; reads = λ s b r. r },
            )
        | yes more ↦
            let s = sector_at disk idisk offset in
            let chunk = chunk_size idisk size offset in
            let (c', found, u) =
              byte_to_sector-Finds idisk disk c w.mapped offset (omega (arith, more))
                (omega (arith, more, w.small)) in
            let (c'', at, v) =
              read_disk s c' (disk s) u.good (u.reads s (disk s) (w.mapped.contents s))
                (omega (arith, u.same_size, w.on_device offset (omega (arith, more)))) in
            let (d, rest, x) =
              read_loop-Adds n (size - chunk) (offset + chunk)
                (buffer ++ chunk_of chunk offset (disk s)) c''
                (IsStored-Unchanged idisk disk c c'' w (Unchanged-trans u v))
                (omega (arith, more)) in
            (
              d,
              read_loop-next n size offset buffer c c' c'' d more found at (w.whole s) rest,
              Unchanged-trans (Unchanged-trans u v) x,
            )
      ]

-- `inode_read_at` of a file that is stored on the device comes to an end without a panic and
-- returns the bytes of the file from the offset on, as many as were asked for or as there are up
-- to the end of the file, and leaves every sector as it was. A file is stored when the cache is
-- good, every sector has 512 bytes, the file has at most 16635 sectors, and its data sectors, its
-- indirect and doubly indirect block (0 where it has none) and the entries of the latter that the
-- file reaches into are on the device.
pub inode_read_at-file_bytes :
    (idisk : InodeDisk) (disk : ℕ → Sector) (c : Cache) (size offset : ℕ)
    → IsStored idisk disk c
    → (c' : Cache) × (inode_read_at idisk size offset c
        ≡ some (file_bytes disk idisk (min size (idisk.length - offset)) offset, c'))
      × Unchanged c c'
unfolding inode_read_at
inode_read_at-file_bytes idisk disk c size offset w =
    read_loop-Adds idisk disk (size + 1) size offset [] c w (omega arith)

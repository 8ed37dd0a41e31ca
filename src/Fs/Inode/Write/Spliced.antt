-- ===== src/Fs/Inode/Write/Spliced.antt =====
-- The bytes of a sector that a round of `inode_write_at` writes (a3/fs/inode.c).
use mathlib.Core.Path.{subst}
use comp310_winter.Base.{
  ℕ, zero, suc, ◌+◌, ◌-◌, ◌<◌, ◌≤◌, ◌≡◌, refl, sym, ap, ◌∙◌, ◌⊎◌, inl, inr, List, [], ◌∷◌, arith,
  length, set, length-set, get_or, get_or-set_self, get_or-set_ne, ◌==◌, ◌&&◌, ◌||◌, ltb, ==_iff,
  if◌then◌else◌, Option, some, Bool-cases, true, false,
}
use comp310_winter.Fs.Block.{Sector}
use comp310_winter.Fs.Cache.{Cache, option_bind, buffer_cache_read, buffer_cache_write}
use comp310_winter.Fs.Cache.Coherence.{Reads, IsGood}
use comp310_winter.Fs.Cache.Contents.{Unchanged, buffer_cache_write-Reads}
use comp310_winter.Fs.Inode.{slice}
use comp310_winter.Fs.Inode.Write.{overwrite, bounce_of, write_chunk}
use comp310_winter.Fs.Inode.Reserve.{zeros}
use comp310_winter.Fs.Inode.Index.{read_disk}

pub length-slice : (n i : ℕ) (b : List ℕ) → length (slice n i b) ≡ n
unfolding slice
length-slice zero i b = refl
length-slice (suc n) i b = ap suc (length-slice n (i + 1) b)

pub get_or-slice :
    (n i : ℕ) (b : List ℕ) (j : ℕ) → j < n → get_or (slice n i b) j 0 ≡ get_or b (i + j) 0
unfolding slice
get_or-slice zero i b j h = absurd (omega arith)
get_or-slice (suc n) i b zero h = ap (λ k. get_or b k 0) (omega arith)
get_or-slice (suc n) i b (suc j) h =
    get_or-slice n (i + 1) b j (omega arith) ∙ ap (λ k. get_or b k 0) (omega arith)

pub length-overwrite :
    (buffer : List ℕ) (i : ℕ) (bs : List ℕ) → length (overwrite buffer i bs) ≡ length buffer
unfolding overwrite
length-overwrite buffer i [] = refl
length-overwrite buffer i (b ∷ bs) =
    length-overwrite (set buffer i b) (i + 1) bs ∙ length-set buffer i b

pub get_or-overwrite_outside :
    (buffer : List ℕ) (i : ℕ) (bs : List ℕ) (j : ℕ)
    → (j < i) ⊎ (i + length bs ≤ j)
    → get_or (overwrite buffer i bs) j 0 ≡ get_or buffer j 0
unfolding overwrite
get_or-overwrite_outside buffer i [] j out = refl
get_or-overwrite_outside buffer i (b ∷ bs) j out =
    get_or-overwrite_outside (set buffer i b) (i + 1) bs j (later out)
    ∙ get_or-set_ne buffer i j b 0 (λ e. omega (arith, e, out))
  where
    later : (j < i) ⊎ (i + length (b ∷ bs) ≤ j) → (j < i + 1) ⊎ (i + 1 + length bs ≤ j)
    later (inl h) = inl (omega (arith, h))
    later (inr h) = inr (omega (arith, h))

pub get_or-overwrite_inside :
    (buffer : List ℕ) (i : ℕ) (bs : List ℕ) (j : ℕ)
    → i + length bs ≤ length buffer
    → j < length bs
    → get_or (overwrite buffer i bs) (i + j) 0 ≡ get_or bs j 0
unfolding overwrite
get_or-overwrite_inside buffer i [] j fits h = absurd (omega arith)
get_or-overwrite_inside buffer i (b ∷ bs) zero fits h =
    ap (λ k. get_or (overwrite (set buffer i b) (i + 1) bs) k 0) {y = i} (omega arith)
    ∙ get_or-overwrite_outside (set buffer i b) (i + 1) bs i (inl (omega arith))
    ∙ get_or-set_self buffer i b 0 (omega (arith, fits))
get_or-overwrite_inside buffer i (b ∷ bs) (suc j) fits h =
    ap (λ k. get_or (overwrite (set buffer i b) (i + 1) bs) k 0) {x = i + suc j} {y = i + 1 + j}
      (omega arith)
    ∙ get_or-overwrite_inside (set buffer i b) (i + 1) bs j
        (omega (arith, fits, length-set buffer i b)) (omega (arith, h))

-- A sector after a round: the new bytes at `ofs`, and the others as they were.
pub record IsSpliced (old new : Sector) (ofs : ℕ) (bytes : List ℕ) : Type 0 where
  pub whole : length new ≡ 512
  pub inside : (j : ℕ) → j < length bytes → get_or new (ofs + j) 0 ≡ get_or bytes j 0
  pub outside :
      (j : ℕ) → (j < ofs) ⊎ (ofs + length bytes ≤ j) → j < 512 → get_or new j 0 ≡ get_or old j 0

overwrite-IsSpliced :
    (old : Sector) (ofs : ℕ) (bytes : List ℕ)
    → length old ≡ 512
    → ofs + length bytes ≤ 512
    → IsSpliced old (overwrite old ofs bytes) ofs bytes
overwrite-IsSpliced old ofs bytes whole fits = record {
  whole = length-overwrite old ofs bytes ∙ whole;
  inside = λ j h. get_or-overwrite_inside old ofs bytes j (omega (arith, whole, fits)) h;
  outside = λ j out h. get_or-overwrite_outside old ofs bytes j out;
}

-- The disk with one sector changed.
abbrev pub update : (ℕ → Sector) → ℕ → Sector → ℕ → Sector
update disk s b t = if t == s then b else disk t

-- The cache is good and reads as a disk has it.
pub record Mirrors (c : Cache) (disk : ℕ → Sector) : Type 0 where
  pub good : IsGood c
  pub contents : (s : ℕ) → Reads c s (disk s)

-- A run that writes a sector of the disk.
pub record Wrote (c : Cache) (disk : ℕ → Sector) (s : ℕ) (new : Sector) (run : Option Cache)
    : Type 0 where
  pub after : Cache
  pub result : run ≡ some after
  pub mirrors : Mirrors after (update disk s new)
  pub same_size : after.device.size ≡ c.device.size

module _ (c : Cache) (disk : ℕ → Sector) (s : ℕ) (w : Mirrors c disk)
    (room : s < c.device.size) where
  pub buffer_cache_write-Wrote : (new : Sector) → Wrote c disk s new (buffer_cache_write s new c)
  buffer_cache_write-Wrote new =
      let (c', result, good, here, others, same) = buffer_cache_write-Reads s new c w.good room in
      record {
        after = c';
        result = result;
        mirrors = record {
          good = good;
          contents = λ t. elim (Bool-cases (t == s)) [
            | inl at ↦
                subst (λ (b : Sector). Reads c' t b) (sym (ap (λ b. if b then new else disk t) at))
                  (subst (λ (u : ℕ). Reads c' u new) (sym ((==_iff t s).0 at)) here)
            | inr off ↦
                subst (λ (b : Sector). Reads c' t b) (sym (ap (λ b. if b then new else disk t) off))
                  (others t (disk t) (λ e. ground (arith, off, e)) (w.contents t))
          ];
        };
        same_size = same;
      }

  bounce_of-read :
      (chunk ofs : ℕ)
      → (ltb 0 ofs || ltb chunk (512 - ofs)) ≡ true
      → (c' : Cache) × (bounce_of chunk ofs s c ≡ some (disk s, c')) × Unchanged c c'
  unfolding bounce_of
  bounce_of-read chunk ofs needed =
      let (c', read, u) = read_disk s c (disk s) w.good (w.contents s) room in
      (c', ap (λ b. if b then buffer_cache_read s c else some (zeros, c)) needed ∙ read, u)

  write_chunk_full :
      (bytes : List ℕ) (chunk ofs : ℕ)
      → ((ofs == 0) && (chunk == 512)) ≡ true
      → write_chunk bytes chunk ofs s c ≡ buffer_cache_write s bytes c
  unfolding write_chunk
  write_chunk_full bytes chunk ofs full =
      ap
        (λ b.
          if b
          then buffer_cache_write s bytes c
          else option_bind (bounce_of chunk ofs s c)
              (λ ((d, c') : Sector × Cache). buffer_cache_write s (overwrite d ofs bytes) c'))
        full

  write_chunk_part :
      (bytes : List ℕ) (chunk ofs : ℕ) (b : Sector) (c' : Cache)
      → ((ofs == 0) && (chunk == 512)) ≡ false
      → bounce_of chunk ofs s c ≡ some (b, c')
      → write_chunk bytes chunk ofs s c ≡ buffer_cache_write s (overwrite b ofs bytes) c'
  unfolding write_chunk
  write_chunk_part bytes chunk ofs b c' part bounced =
      ap
        (λ b.
          if b
          then buffer_cache_write s bytes c
          else option_bind (bounce_of chunk ofs s c)
              (λ ((d, c') : Sector × Cache). buffer_cache_write s (overwrite d ofs bytes) c'))
        part
      ∙ ap
          (λ o.
            option_bind o
              (λ ((d, c') : Sector × Cache). buffer_cache_write s (overwrite d ofs bytes) c'))
          bounced

both : (a b : ℕ) → ((a == 0) && (b == 512)) ≡ true → (a ≡ 0) × (b ≡ 512)
both a b e = ground (arith, e)

needs_old :
    (chunk ofs : ℕ)
    → ((ofs == 0) && (chunk == 512)) ≡ false
    → ofs + chunk ≤ 512
    → (ltb 0 ofs || ltb chunk (512 - ofs)) ≡ true
needs_old chunk ofs part fits = ground (arith, part, fits)

-- A round writes the sector: the new bytes, and around them the old.
pub write_chunk-Wrote :
    (c : Cache) (disk : ℕ → Sector) (s : ℕ) (bytes : List ℕ) (chunk ofs : ℕ)
    → Mirrors c disk
    → s < c.device.size
    → length (disk s) ≡ 512
    → length bytes ≡ chunk
    → ofs + chunk ≤ 512
    → (new : Sector) × IsSpliced (disk s) new ofs bytes
      × Wrote c disk s new (write_chunk bytes chunk ofs s c)
write_chunk-Wrote c disk s bytes chunk ofs w room whole same fits =
    elim (Bool-cases ((ofs == 0) && (chunk == 512))) [
      | inl full ↦
          let (at_start, all) = both ofs chunk full in
          let v = buffer_cache_write-Wrote c disk s w room bytes in
          (
            bytes,
            record {
              whole = omega (arith, same, all);
              inside = λ j h. ap (λ k. get_or bytes k 0) (omega (arith, at_start));
              outside = λ j out h. absurd (omega (arith, same, all, at_start, out, h));
            },
            record {
              after = v.after;
              result = write_chunk_full c disk s w room bytes chunk ofs full ∙ v.result;
              mirrors = v.mirrors;
              same_size = v.same_size;
            },
          )
      | inr part ↦
          let (c', read, u) =
            bounce_of-read c disk s w room chunk ofs (needs_old chunk ofs part fits) in
          let new = overwrite (disk s) ofs bytes in
          let v =
            buffer_cache_write-Wrote c' disk s
              (record { good = u.good; contents = λ t. u.reads t (disk t) (w.contents t) })
              (omega (arith, room, u.same_size)) new in
          (
            new,
            overwrite-IsSpliced (disk s) ofs bytes whole (omega (arith, same, fits)),
            record {
              after = v.after;
              result =
                  write_chunk_part c disk s w room bytes chunk ofs (disk s) c' part read ∙ v.result;
              mirrors = v.mirrors;
              same_size = v.same_size ∙ u.same_size;
            },
          )
    ]

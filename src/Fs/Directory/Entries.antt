-- ===== src/Fs/Directory/Entries.antt =====
-- The entries of a directory as a list, and what the loops of a3/fs/directory.c find among them.
use comp310_winter.Base.{
  ℕ, zero, suc, ◌+◌, ◌-◌, ◌/◌, ◌<◌, ◌≤◌, ◌==◌, ◌≡◌, refl, sym, ap, ◌∙◌, Bool, true, false, none,
  some, Option, List, [], ◌∷◌, arith, length, dec_le, min, if◌then◌else◌, Bool-cases, inl, inr,
}
use comp310_winter.Fs.Block.{Sector}
use comp310_winter.Fs.Cache.{Cache}
use comp310_winter.Fs.Cache.Contents.{Unchanged}
use comp310_winter.Fs.Inode.{InodeDisk, inode_read_at}
use comp310_winter.Fs.Inode.Index.{Unchanged-trans}
use comp310_winter.Fs.Inode.Reading.{
  IsStored, IsStored-Unchanged, file_bytes, inode_read_at-file_bytes,
}
use comp310_winter.Fs.Directory.{DirEntry, dir_entry_of, scan}

-- The first entry of a list that passes a test, and its offset, with the list from `ofs` on.
abbrev pub first_from : (DirEntry → Bool) → List DirEntry → ℕ → Option DirEntry × ℕ
first_from test [] ofs = (none, ofs)
first_from test (e ∷ es) ofs =
    let rest = first_from test es (ofs + 36) in if test e then (some e, ofs) else rest

module _ (disk : ℕ → Sector) (idisk : InodeDisk) where
  -- The `n` entries from `ofs` on, and all those that are there in full.
  abbrev pub entries_from : ℕ → ℕ → List DirEntry
  entries_from zero ofs = []
  entries_from (suc n) ofs = dir_entry_of (file_bytes disk idisk 36 ofs) ∷ entries_from n (ofs + 36)

  abbrev pub entries : ℕ → List DirEntry
  entries ofs = entries_from ((idisk.length - ofs) / 36) ofs

  pub length-file_bytes : (n pos : ℕ) → length (file_bytes disk idisk n pos) ≡ n
  length-file_bytes zero pos = refl
  length-file_bytes (suc n) pos = ap suc (length-file_bytes n (pos + 1))

  pub entries_more :
      (ofs : ℕ)
      → ofs + 36 ≤ idisk.length
      → entries ofs ≡ dir_entry_of (file_bytes disk idisk 36 ofs) ∷ entries (ofs + 36)
  entries_more ofs h =
      ap (λ n. entries_from n ofs) {y = suc ((idisk.length - (ofs + 36)) / 36)} (omega (arith, h))

  pub entries_none : (ofs : ℕ) → idisk.length < ofs + 36 → entries ofs ≡ []
  entries_none ofs h = ap (λ n. entries_from n ofs) {y = 0} (omega (arith, h))

-- What a run of `scan` returns, with the contents of the disk as they were.
abbrev pub Returns {ℓ} : {A : Type ℓ} → Cache → Option (A × Cache) → A → Type ℓ
Returns c run a = (c' : Cache) × (run ≡ some (a, c')) × Unchanged c c'

module _ (test : DirEntry → Bool) (n : ℕ) (idisk : InodeDisk) (ofs : ℕ) (c c' : Cache) where
  scan_read :
      (bytes : List ℕ)
      → inode_read_at idisk 36 ofs c ≡ some (bytes, c')
      → scan test (suc n) idisk ofs c ≡ (
          if length bytes == 36
          then (if test (dir_entry_of bytes)
              then some ((some (dir_entry_of bytes), ofs), c')
              else scan test n idisk (ofs + 36) c')
          else some ((none, ofs), c'))
  unfolding scan
  scan_read bytes read = rw (read, scan) refl

  scan_short :
      (bytes : List ℕ)
      → inode_read_at idisk 36 ofs c ≡ some (bytes, c')
      → length bytes < 36
      → scan test (suc n) idisk ofs c ≡ some ((none, ofs), c')
  scan_short bytes read h = scan_read bytes read ∙ ground (arith, h)

  scan_whole :
      (bytes : List ℕ) (e : DirEntry)
      → inode_read_at idisk 36 ofs c ≡ some (bytes, c')
      → length bytes ≡ 36
      → dir_entry_of bytes ≡ e
      → scan test (suc n) idisk ofs c
        ≡ (if test e then some ((some e, ofs), c') else scan test n idisk (ofs + 36) c')
  scan_whole bytes e read h same = scan_read bytes read ∙ ground (arith, h, same)

module _ (test : DirEntry → Bool) (e : DirEntry) (es all : List DirEntry) (ofs : ℕ) where
  pub first_found : all ≡ e ∷ es → test e ≡ true → first_from test all ofs ≡ (some e, ofs)
  first_found same found = rw (same, found) refl

  pub first_other :
      all ≡ e ∷ es → test e ≡ false → first_from test all ofs ≡ first_from test es (ofs + 36)
  first_other same other = rw (same, other) refl

pub scan_lem :
    (disk : ℕ → Sector) (idisk : InodeDisk) (test : DirEntry → Bool) (n ofs : ℕ) (c : Cache)
    → IsStored idisk disk c
    → idisk.length - ofs < n
    → Returns c (scan test n idisk ofs c) (first_from test (entries disk idisk ofs) ofs)
scan_lem disk idisk test zero ofs c w h = absurd (omega arith)
scan_lem disk idisk test (suc n) ofs c w h =
    let (c', read, u) = inode_read_at-file_bytes idisk disk c 36 ofs w in
    let m = min 36 (idisk.length - ofs) in
    elim (dec_le (ofs + 36) idisk.length) [
      | no short ↦ (
        c',
        scan_short test n idisk ofs c c' _ read
              (omega (arith, length-file_bytes disk idisk m ofs, short))
            ∙ ap (λ es. some (first_from test es ofs, c'))
                (sym (entries_none disk idisk ofs (omega (arith, short)))),
        u,
      )
      | yes more ↦
          let e = dir_entry_of (file_bytes disk idisk 36 ofs) in
          let (d, rest, v) =
            scan_lem disk idisk test n (ofs + 36) c' (IsStored-Unchanged idisk disk c c' w u)
              (omega (arith, more, h)) in
          let step =
            scan_whole test n idisk ofs c c' (file_bytes disk idisk 36 ofs) e
              (read
                ∙ ap (λ k. some (file_bytes disk idisk k ofs, c')) {y = 36} (omega (arith, more)))
              (length-file_bytes disk idisk 36 ofs) refl in
          elim (Bool-cases (test e)) [
            | inl found ↦ (
              c',
              step
                  ∙ ap
                      (λ b. if b then some ((some e, ofs), c') else scan test n idisk (ofs + 36) c')
                      found
                  ∙ ap (λ r. some (r, c'))
                      (sym (first_found test e _ _ ofs (entries_more disk idisk ofs more) found)),
              u,
            )
            | inr other ↦ (
              d,
              step
                  ∙ ap
                      (λ b. if b then some ((some e, ofs), c') else scan test n idisk (ofs + 36) c')
                      other
                  ∙ rest
                  ∙ ap (λ r. some (r, d))
                      (sym (first_other test e _ _ ofs (entries_more disk idisk ofs more) other)),
              Unchanged-trans {a = c} {b = c'} {c = d} u v,
            )
          ]
    ]

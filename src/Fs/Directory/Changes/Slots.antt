-- ===== src/Fs/Directory/Changes/Slots.antt =====
-- The entries of a directory by their offsets, and what a write leaves of them (a3/fs/directory.c).
use mathlib.Core.Path.{subst, ap₂}
use mathlib.Core.Option.{some-injective}
use comp310_winter.Base.{
  ℕ, zero, suc, ◌+◌, ◌*◌, ◌<◌, ◌≡◌, refl, ap, ◌∙◌, some, List, [], ◌∷◌, arith, get_elem?, All,
}
use comp310_winter.Fs.Block.{Sector}
use comp310_winter.Fs.Inode.{InodeDisk}
use comp310_winter.Fs.Inode.Reading.{file_bytes, byte_at}
use comp310_winter.Fs.Inode.Table.{Inode, at_address, put_inode}
use comp310_winter.Fs.Directory.{DirEntry, dir_entry_of}
use comp310_winter.Fs.Directory.Entries.{entries_from}

module _ (disk : ℕ → Sector) (idisk : InodeDisk) where
  -- An element of the list of entries is the entry at its offset.
  pub get_elem?-entries_from :
      (n ofs k : ℕ) (e : DirEntry)
      → get_elem? (entries_from disk idisk n ofs) k ≡ some e
      → (k < n) × (dir_entry_of (file_bytes disk idisk 36 (ofs + 36 * k)) ≡ e)
  get_elem?-entries_from zero ofs k e h = cc
  get_elem?-entries_from (suc n) ofs zero e h = (
    omega arith,
    ap (λ o. dir_entry_of (file_bytes disk idisk 36 o)) {x = ofs + 36 * 0} {y = ofs} (omega arith)
        ∙ some-injective _ e h,
  )
  get_elem?-entries_from (suc n) ofs (suc k) e h =
      let (below, same) = get_elem?-entries_from n (ofs + 36) k e h in
      (
        omega (arith, below),
        ap (λ o. dir_entry_of (file_bytes disk idisk 36 o)) {x = ofs + 36 * suc k} (omega arith)
            ∙ same,
      )

  pub All-entries_from :
      (P : DirEntry → Type 0) (n ofs k : ℕ)
      → All P (entries_from disk idisk n ofs)
      → k < n
      → P (dir_entry_of (file_bytes disk idisk 36 (ofs + 36 * k)))
  All-entries_from P zero ofs k all h = absurd (omega arith)
  All-entries_from P (suc n) ofs zero (p, ps) h =
      subst (λ o. P (dir_entry_of (file_bytes disk idisk 36 o))) {x = ofs} (omega arith) p
  All-entries_from P (suc n) ofs (suc k) (p, ps) h =
      subst (λ o. P (dir_entry_of (file_bytes disk idisk 36 o))) {x = ofs + 36 + 36 * k}
        (omega arith) (All-entries_from P n (ofs + 36) k ps (omega (arith, h)))

pub at_address-put_inode :
    (a : ℕ) (i : Inode) (is : List Inode)
    → at_address a is ≡ some i
    → at_address a (put_inode i is) ≡ some i
unfolding at_address put_inode
at_address-put_inode a i [] h = cc
at_address-put_inode a i (j ∷ is) h = ground (arith, at_address-put_inode a i is, h)

pub file_bytes-cong :
    (idisk : InodeDisk) (disk disk' : ℕ → Sector) (n p : ℕ)
    → ((j : ℕ) → j < n → byte_at disk' idisk (p + j) ≡ byte_at disk idisk (p + j))
    → file_bytes disk' idisk n p ≡ file_bytes disk idisk n p
file_bytes-cong idisk disk disk' zero p h = refl
file_bytes-cong idisk disk disk' (suc n) p h =
    ap₂ (λ (b : ℕ) (bs : List ℕ). b ∷ bs)
      (ap (byte_at disk' idisk) {x = p} {y = p + 0} (omega arith)
        ∙ h 0 (omega arith)
        ∙ ap (byte_at disk idisk) {x = p + 0} {y = p} (omega arith))
      (file_bytes-cong idisk disk disk' n (p + 1) (λ j below.
        ap (byte_at disk' idisk) {x = p + 1 + j} {y = p + suc j} (omega arith)
        ∙ h (suc j) (omega (arith, below))
        ∙ ap (byte_at disk idisk) {x = p + suc j} (omega arith)))

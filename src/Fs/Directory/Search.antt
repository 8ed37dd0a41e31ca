-- ===== src/Fs/Directory/Search.antt =====
-- `lookup` of a3/fs/directory.c on a directory that is stored on the device.
use comp310_winter.Base.{
  ℕ, zero, suc, ◌+◌, ◌*◌, ◌≡◌, refl, Bool, true, false, none, some, Option, List, [], ◌∷◌, arith,
  if◌then◌else◌, Text, All, get_elem?, ◌↔◌, same_iff, length,
}
use comp310_winter.Fs.Block.{Sector}
use comp310_winter.Fs.Cache.{Cache}
use comp310_winter.Fs.Inode.{InodeDisk}
use comp310_winter.Fs.Inode.Reading.{IsStored}
use comp310_winter.Fs.Directory.{DirEntry, c_string, is_named, lookup}
use comp310_winter.Fs.Directory.Entries.{first_from, entries, Returns, scan_lem}

-- An entry that is in use under a name.
abbrev pub IsNamed : Text → DirEntry → Type 0
IsNamed name e = (e.in_use ≡ true) × (c_string e.name ≡ name)

pub is_named_iff : (name : Text) (e : DirEntry) → (is_named name e ≡ true) ↔ IsNamed name e
unfolding is_named
is_named_iff name e = ground (arith, same_iff name (c_string e.name))

-- The first `n` entries of a list fail a test.
abbrev pub AllBefore : (DirEntry → Type 0) → ℕ → List DirEntry → Type 0
AllBefore P zero es = Unit
AllBefore P (suc n) [] = Unit
AllBefore P (suc n) (e ∷ es) = (P e → ⊥) × AllBefore P n es

-- The entry with its offset in a directory whose entries from `ofs` on are `es`; it is the first of its
-- kind. Without an entry there is none of the kind.
abbrev pub IsFirst : (DirEntry → Type 0) → List DirEntry → ℕ → Option DirEntry × ℕ → Type 0
IsFirst P es ofs (none, at) = All (λ e. P e → ⊥) es × (at ≡ ofs + 36 * length es)
IsFirst P es ofs (some e, at) =
    (i : ℕ) × (get_elem? es i ≡ some e) × (at ≡ ofs + 36 * i) × P e × AllBefore P i es

IsFirst-cons :
    (P : DirEntry → Type 0) (e : DirEntry) (es : List DirEntry) (ofs : ℕ) (r : Option DirEntry × ℕ)
    → (P e → ⊥)
    → IsFirst P es (ofs + 36) r
    → IsFirst P (e ∷ es) ofs r
IsFirst-cons P e es ofs (none, at) no_e (all, end) = ((no_e, all), omega (arith, end))
IsFirst-cons P e es ofs (some d, at) no_e (i, found, place, d_P, before) =
    (suc i, found, omega (arith, place), d_P, (no_e, before))

pub first_from-IsFirst :
    (test : DirEntry → Bool) (P : DirEntry → Type 0)
    → ((e : DirEntry) → (test e ≡ true) ↔ P e)
    → (es : List DirEntry) (ofs : ℕ) → IsFirst P es ofs (first_from test es ofs)
first_from-IsFirst test P iff [] ofs = (tt, omega arith)
first_from-IsFirst test P iff (e ∷ es) ofs =
    first_from-IsFirst_step test P e es ofs (test e) refl (iff e)
      (first_from-IsFirst test P iff es (ofs + 36))
  where
    first_from-IsFirst_step :
        (test : DirEntry → Bool) (P : DirEntry → Type 0) (e : DirEntry) (es : List DirEntry)
        (ofs : ℕ) (b : Bool)
        → test e ≡ b
        → (test e ≡ true) ↔ P e
        → IsFirst P es (ofs + 36) (first_from test es (ofs + 36))
        → IsFirst P (e ∷ es) ofs (if b then (some e, ofs) else first_from test es (ofs + 36))
    first_from-IsFirst_step test P e es ofs true yes_e iff rest =
        (0, refl, omega arith, iff.0 yes_e, tt)
    first_from-IsFirst_step test P e es ofs false no_e iff rest =
        IsFirst-cons P e es ofs (first_from test es (ofs + 36)) (λ p. cc (iff.1 p, no_e)) rest

-- A search for a name in a directory that is stored on the device comes to an end and leaves every
-- sector as it was. It returns the first entry behind the parent's that is in use under the name,
-- with its offset; without one it returns none, and no entry is in use under the name. A file or
-- directory is stored when the cache is good, every sector has 512 bytes, the file has at most
-- 16635 sectors, and its data sectors, its indirect and doubly indirect block (0 where it has
-- none) and the entries of the latter that the file reaches into are on the device.
pub lookup-IsFirst :
    (disk : ℕ → Sector) (idisk : InodeDisk) (name : Text) (c : Cache)
    → IsStored idisk disk c
    → (r : Option DirEntry × ℕ) × Returns c (lookup idisk name c) r
      × IsFirst (IsNamed name) (entries disk idisk 36) 36 r
unfolding lookup
lookup-IsFirst disk idisk name c w = (
  first_from (is_named name) (entries disk idisk 36) 36,
  scan_lem disk idisk (is_named name) (idisk.length + 1) 36 c w (omega arith),
  first_from-IsFirst (is_named name) (IsNamed name) (is_named_iff name) (entries disk idisk 36) 36,
)

-- ===== src/Fs/Directory/Changes/Found.antt =====
-- What `lookup` of a3/fs/directory.c finds after `dir_add`.
use mathlib.Core.Path.{subst, ap₂}
use comp310_winter.Base.{
  ℕ, zero, suc, ◌+◌, ◌-◌, ◌*◌, ◌/◌, ◌<◌, ◌≤◌, ◌≡◌, ◌≢◌, refl, sym, ap, ◌∙◌, ◌⊎◌, inl, inr, Bool,
  true, false, Option, none, some, List, arith, if◌then◌else◌, Text, same, same_iff, ℕ_discrete,
  dec_lt,
}
use comp310_winter.Fs.Block.{Sector}
use comp310_winter.Fs.Inode.{InodeDisk}
use comp310_winter.Fs.Inode.Reading.{file_bytes}
use comp310_winter.Fs.Inode.Reserve.{Store}
use comp310_winter.Fs.Inode.Table.{Inode}
use comp310_winter.Fs.Directory.{DirEntry, dir_entry_of, c_string, lookup, is_named, rounds}
use comp310_winter.Fs.Directory.Entries.{Returns, first_from, entries, entries_from, scan_lem}
use comp310_winter.Fs.Directory.Search.{IsNamed, IsFirst, is_named_iff, first_from-IsFirst}
use comp310_winter.Fs.Directory.Handles.{Dir, Directories}
use comp310_winter.Fs.Directory.Changes.{dir_add}
use comp310_winter.Fs.Directory.Changes.Encoding.{padded, c_string-slice}
use comp310_winter.Fs.Directory.Changes.Added.{CanAdd, Added, dir_add-Added, slot_place}
use comp310_winter.Fs.Directory.Changes.Slots.{get_elem?-entries_from, All-entries_from}

-- Lists that differ only in entries that fail the test give the same result.
first_from-cong :
    (test : DirEntry → Bool) (disk disk' : ℕ → Sector) (idisk : InodeDisk) (n ofs : ℕ)
    → ((k : ℕ)
        → k < n
        → (dir_entry_of (file_bytes disk' idisk 36 (ofs + 36 * k))
            ≡ dir_entry_of (file_bytes disk idisk 36 (ofs + 36 * k)))
          ⊎ ((test (dir_entry_of (file_bytes disk' idisk 36 (ofs + 36 * k))) ≡ false)
              × (test (dir_entry_of (file_bytes disk idisk 36 (ofs + 36 * k))) ≡ false)))
    → first_from test (entries_from disk' idisk n ofs) ofs
      ≡ first_from test (entries_from disk idisk n ofs) ofs
first_from-cong test disk disk' idisk zero ofs h = refl
first_from-cong test disk disk' idisk (suc n) ofs h =
    let at = λ (dk : ℕ → Sector) (o : ℕ). dir_entry_of (file_bytes dk idisk 36 o) in
    let here : ofs + 36 * 0 ≡ ofs = omega arith in
    let rest = first_from-cong test disk disk' idisk n (ofs + 36) (λ k below.
      subst
        (λ o. (at disk' o ≡ at disk o) ⊎ ((test (at disk' o) ≡ false) × (test (at disk o) ≡ false)))
        {x = ofs + 36 * suc k} (omega arith) (h (suc k) (omega (arith, below)))) in
    step test (at disk ofs) (at disk' ofs) ofs rest (
      subst
        (λ o. (at disk' o ≡ at disk o) ⊎ ((test (at disk' o) ≡ false) × (test (at disk o) ≡ false)))
        here (h 0 (omega arith)))
  where
    step :
        (test : DirEntry → Bool) (e e' : DirEntry) (ofs : ℕ) {r r' : Option DirEntry × ℕ}
        → r' ≡ r
        → (e' ≡ e) ⊎ ((test e' ≡ false) × (test e ≡ false))
        → (if test e' then (some e', ofs) else r') ≡ (if test e then (some e, ofs) else r)
    step test e e' ofs {r} {r'} rest (inl equal) =
        ap₂ (λ (a : DirEntry) (q : Option DirEntry × ℕ). if test a then (some a, ofs) else q) equal
          rest
    step test e e' ofs {r} {r'} rest (inr (fails', fails)) =
        ap (λ b. if b then (some e', ofs) else r') fails'
        ∙ rest
        ∙ ap (λ b. if b then (some e, ofs) else r) (sym fails)

-- An entry that is not in use, or has another name, fails the test.
is_named-unused : (k : Text) (e : DirEntry) → e.in_use ≡ false → is_named k e ≡ false
unfolding is_named
is_named-unused k e unused = ground (arith, unused)

is_named-other : (k : Text) (e : DirEntry) → c_string e.name ≢ k → is_named k e ≡ false
unfolding is_named
is_named-other k e other = ground (arith, same_iff k (c_string e.name), other)

module _ {M : Type 0} (t : Directories M) (dir : ℕ) (d : Dir) (i : Inode) (disk : ℕ → Sector)
    (name : Text) (free : DirEntry) (ofs : ℕ) (can : CanAdd t dir d i disk name free ofs)
    (new : DirEntry) (named : IsNamed name new) (run : Option (Bool × Directories M))
    (added : Added t d i disk new ofs run) where
  -- The entries behind the parent's, at every index but that of the slot, are as they were.
  same_entry :
      (k j : ℕ)
      → ofs ≡ 36 + 36 * k
      → j < (i.contents.length - 36) / 36
      → j ≢ k
      → dir_entry_of (file_bytes added.disk' i.contents 36 (36 + 36 * j))
        ≡ dir_entry_of (file_bytes disk i.contents 36 (36 + 36 * j))
  same_entry k j place below other =
      ap dir_entry_of (added.others (36 + 36 * j) (omega (arith, below)) apart)
    where
      apart : (36 + 36 * j + 36 ≤ ofs) ⊎ (ofs + 36 ≤ 36 + 36 * j)
      apart = elim (dec_lt j k) [
        | yes before ↦ inl (omega (arith, place, before))
        | no behind ↦ inr (omega (arith, place, behind, other))
      ]

  finds_other :
      (k : Text)
      → name ≢ k
      → first_from (is_named k) (entries added.disk' i.contents 36) 36
        ≡ first_from (is_named k) (entries disk i.contents 36) 36
  finds_other k other =
      let (s, place, inside, unused) = slot_place t dir d i disk name free ofs can in
      first_from-cong (is_named k) disk added.disk' i.contents ((i.contents.length - 36) / 36) 36
        (λ j below. elim (ℕ_discrete j s) [
          | no off ↦ inl (same_entry s j place below off)
          | yes at ↦
              let e : 36 + 36 * j ≡ ofs = omega (arith, place, at) in
              inr (
                is_named-other k _ (λ h. other (
                    sym named.1
                    ∙ sym (
                        ap (λ (x : DirEntry). c_string x.name)
                          (ap (λ o. dir_entry_of (file_bytes added.disk' i.contents 36 o)) e
                            ∙ added.entry))
                    ∙ h)),
                is_named-unused k _
                    (ap (λ o. (dir_entry_of (file_bytes disk i.contents 36 o)).in_use) e ∙ unused),
              )
        ])

  finds_new : first_from (is_named name) (entries added.disk' i.contents 36) 36 ≡ (some new, ofs)
  finds_new = found (first_from (is_named name) (entries added.disk' i.contents 36) 36) (
      first_from-IsFirst (is_named name) (IsNamed name) (is_named_iff name)
        (entries added.disk' i.contents 36) 36)
    where
      found :
          (r : Option DirEntry × ℕ)
          → IsFirst (IsNamed name) (entries added.disk' i.contents 36) 36 r
          → r ≡ (some new, ofs)
      found (none, at) (all, end) =
          let (s, place, inside, unused) = slot_place t dir d i disk name free ofs can in
          absurd (
            All-entries_from added.disk' i.contents (λ e. IsNamed name e → ⊥)
              ((i.contents.length - 36) / 36) 36 s all (omega (arith, place, inside))
              (subst (IsNamed name)
                (sym (
                  ap (λ o. dir_entry_of (file_bytes added.disk' i.contents 36 o)) {y = ofs}
                    (sym place)
                  ∙ added.entry))
                named))
      found (some e, at) (j, here, is_at, e_named, before) =
          let (s, place, inside, unused) = slot_place t dir d i disk name free ofs can in
          let n = (i.contents.length - 36) / 36 in
          let (below, equal) = get_elem?-entries_from added.disk' i.contents n 36 j e here in
          elim (ℕ_discrete j s) [
            | yes slot ↦
                ap₂ (λ (x : DirEntry) (o : ℕ). (some x, o))
                  (sym equal
                    ∙ ap (λ o. dir_entry_of (file_bytes added.disk' i.contents 36 o))
                        {x = 36 + 36 * j} {y = ofs} (omega (arith, place, slot))
                    ∙ added.entry)
                  (omega (arith, is_at, place, slot))
            | no off ↦ absurd (
                All-entries_from disk i.contents (λ x. IsNamed name x → ⊥) n 36 j can.no_entry below
                  (subst (IsNamed name) (sym equal ∙ same_entry s j place below off) e_named))
          ]

-- Adding a file to an open directory that has a free slot behind its parent's entry, a writable
-- inode on the device, and no entry with the new name, returns true. The name is not empty, has at
-- most 30 characters and no NUL, and the inode's sector has 32 bits. A search for the name then
-- finds the new entry at the slot, and a search for any other name returns what it returned
-- before. Writable: writes are not denied, the directory is stored, its data sectors are different
-- and none of them is a block of sector numbers that it uses, or the sector 0 where it lacks one.
-- A directory is stored when the cache is good, every sector has 512 bytes, the directory has at
-- most 16635 sectors, and its data sectors, its indirect and doubly indirect block (0 where it has
-- none) and the entries of the latter that the directory reaches into are on the device.
pub lookup-dir_add :
    {M : Type 0} (free_map_allocate : Store M → Option (Option ℕ × Store M))
    (free_map_release : ℕ → Store M → Option (Store M)) (t : Directories M) (dir : ℕ) (d : Dir)
    (i : Inode) (disk : ℕ → Sector) (name : Text) (free : DirEntry) (ofs inode_sector : ℕ)
    (junk : List ℕ)
    → CanAdd t dir d i disk name free ofs
    → inode_sector < 4294967296
    → (t' : Directories M) × (dir_add free_map_allocate free_map_release dir name inode_sector false
          junk t
        ≡ some (true, t'))
      × ((k : Text)
          → (r : Option DirEntry × ℕ) × Returns t.table.store.cache
              (lookup i.contents k t.table.store.cache)
              r
            × Returns t'.table.store.cache (lookup i.contents k t'.table.store.cache) (
                if same name k
                then (
                  some
                      (padded (record { inode_sector = inode_sector; name = name; in_use = true })),
                  ofs,
                )
                else r))
unfolding lookup
lookup-dir_add free_map_allocate free_map_release t dir d i disk name free ofs inode_sector junk can
      small =
    let new : DirEntry = record { inode_sector = inode_sector; name = name; in_use = true } in
    let a =
      dir_add-Added t dir d i disk name free ofs can free_map_allocate free_map_release inode_sector
        junk small in
    let named : IsNamed name (padded new) = (refl, c_string-slice name can.short can.text) in
    (
      a.after,
      a.result,
      λ k.
          let before =
            scan_lem disk i.contents (is_named k) (rounds i.contents) 36 t.table.store.cache
              can.writable.stored (omega arith) in
          let (c, run, u) =
            scan_lem a.disk' i.contents (is_named k) (rounds i.contents) 36
              a.after.table.store.cache a.writable.stored (omega arith) in
          (
            first_from (is_named k) (entries disk i.contents 36) 36,
            before,
            (
              c,
              run
                  ∙ ap (λ r. some (r, c))
                      (choose (same name k) k refl
                        (λ e.
                          ap (λ n. first_from (is_named n) (entries a.disk' i.contents 36) 36)
                            (sym e)
                          ∙ finds_new t dir d i disk name free ofs can (padded new) named _ a)
                        (finds_other t dir d i disk name free ofs can (padded new) named _ a k)),
              u,
            ),
          ),
    )
  where
    choose :
        {r r' : Option DirEntry × ℕ} {found : Option DirEntry × ℕ} (b : Bool) (k : Text)
        → same name k ≡ b
        → (name ≡ k → r' ≡ found)
        → (name ≢ k → r' ≡ r)
        → r' ≡ (if b then found else r)
    choose true k e here other = here ((same_iff name k).0 e)
    choose false k e here other = other (λ n. cc ((same_iff name k).1 n, e))

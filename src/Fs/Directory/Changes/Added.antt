-- ===== src/Fs/Directory/Changes/Added.antt =====
-- `dir_add` of a3/fs/directory.c for a file in a directory with a free slot.
use mathlib.Core.Path.{subst}
use comp310_winter.Base.{
  ℕ, zero, suc, ◌+◌, ◌-◌, ◌*◌, ◌/◌, ◌<◌, ◌≤◌, ◌≡◌, sym, ap, ◌∙◌, ◌⊎◌, inl, inr, not, Bool, true,
  false, Option, none, some, List, arith, length, Text, All, ◌↔◌,
}
use comp310_winter.Fs.Block.{Sector}
use comp310_winter.Fs.Cache.{Cache}
use comp310_winter.Fs.Cache.Contents.{Unchanged}
use comp310_winter.Fs.Inode.{no_sector}
use comp310_winter.Fs.Inode.Reading.{IsStored-Unchanged, file_bytes}
use comp310_winter.Fs.Inode.Reserve.{Store}
use comp310_winter.Fs.Inode.Table.{Inode, at_address, put_inode}
use comp310_winter.Fs.Inode.Write.{inode_write_at}
use comp310_winter.Fs.Inode.Write.Loop.{IsWritable}
use comp310_winter.Fs.Inode.Write.Written.{inode_write_at-WritesInside, file_bytes-slice}
use comp310_winter.Fs.Directory.{DirEntry, dir_entry_of, scan, rounds, lookup}
use comp310_winter.Fs.Directory.Entries.{first_from, entries, scan_lem}
use comp310_winter.Fs.Directory.Search.{IsNamed, IsFirst, first_from-IsFirst, lookup-IsFirst}
use comp310_winter.Fs.Directory.Path.{is_empty}
use comp310_winter.Fs.Directory.Handles.{Dir, Directories, dir_at, load_dir, load_inode}
use comp310_winter.Fs.Directory.Changes.{
  dir_entry_bytes, write_entry, add_entry, add_checked, dir_add,
}
use comp310_winter.Fs.Directory.Changes.Slots.{
  get_elem?-entries_from, All-entries_from, at_address-put_inode, file_bytes-cong,
}
use comp310_winter.Fs.Directory.Changes.Encoding.{IsText, padded, dir_entry_of-dir_entry_bytes}

module _ {M : Type 0} (free_map_allocate : Store M → Option (Option ℕ × Store M)) (d : Dir)
    (i : Inode) (name : Text) (inode_sector : ℕ) (t : Directories M)
    (found : at_address d.inode t.table.inodes ≡ some i) where
  abbrev with_store : Store M → Directories M
  with_store u = record t { table = record (t.table) { store = u } }

  abbrev with_disk : Cache → Directories M
  with_disk c = with_store (record (t.table.store) { cache = c })

  write_entry-result :
      (e : DirEntry) (ofs : ℕ) (u : Store M)
      → inode_write_at free_map_allocate i (dir_entry_bytes e) 36 ofs t.table.store
        ≡ some ((36, i), u)
      → write_entry free_map_allocate d.inode e ofs t
        ≡ some
            (true, record t { table = record { inodes = put_inode i t.table.inodes; store = u } })
  unfolding write_entry
  write_entry-result e ofs u wrote = ground (arith, found, wrote)

  add_entry-write :
      (slot : Option DirEntry × ℕ) (c : Cache)
      → scan (λ e. not e.in_use) (rounds i.contents) i.contents 0 t.table.store.cache
        ≡ some (slot, c)
      → add_entry free_map_allocate d name inode_sector t
        ≡ write_entry free_map_allocate d.inode
            (record { inode_sector = inode_sector; name = name; in_use = true })
            slot.1
            (with_disk c)
  unfolding add_entry load_inode
  add_entry-write slot c scanned = ground (arith, found, scanned)

  dir_add-add_entry :
      (free_map_release : ℕ → Store M → Option (Store M)) (dir at : ℕ) (junk : List ℕ) (c : Cache)
      → dir_at dir t.dirs ≡ some d
      → is_empty name ≡ false
      → length name ≤ 30
      → lookup i.contents name t.table.store.cache ≡ some ((none, at), c)
      → dir_add free_map_allocate free_map_release dir name inode_sector false junk t
        ≡ add_entry free_map_allocate d name inode_sector (with_disk c)
  unfolding dir_add load_dir load_inode add_checked
  dir_add-add_entry free_map_release dir at junk c is_dir some_name short absent =
      ground (arith, found, is_dir, some_name, short, absent)

-- A directory in which a file can be added: its inode, a name that no entry has, and a free slot behind
-- the entry of the parent.
pub record CanAdd {M : Type 0} (t : Directories M) (dir : ℕ) (d : Dir) (i : Inode)
    (disk : ℕ → Sector) (name : Text) (free : DirEntry) (ofs : ℕ) : Type 0 where
  pub is_open : dir_at dir t.dirs ≡ some d
  pub its_inode : at_address d.inode t.table.inodes ≡ some i
  pub allowed : i.deny_write_cnt ≡ 0
  pub writable : IsWritable i.contents disk t.table.store.cache
  pub device : t.table.store.cache.device.size ≤ no_sector
  pub some_name : is_empty name ≡ false
  pub short : length name ≤ 30
  pub text : IsText name
  pub no_entry : All (λ e. IsNamed name e → ⊥) (entries disk i.contents 36)
  pub parent : (dir_entry_of (file_bytes disk i.contents 36 0)).in_use ≡ true
  pub slot : first_from (λ e. not e.in_use) (entries disk i.contents 0) 0 ≡ (some free, ofs)

-- The directory after `dir_add`.
pub record Added {M : Type 0} (t : Directories M) (d : Dir) (i : Inode) (disk : ℕ → Sector)
    (new : DirEntry) (ofs : ℕ) (run : Option (Bool × Directories M)) : Type 0 where
  pub after : Directories M
  pub result : run ≡ some (true, after)
  pub its_inode : at_address d.inode after.table.inodes ≡ some i
  pub disk' : ℕ → Sector
  pub writable : IsWritable i.contents disk' after.table.store.cache
  pub entry : dir_entry_of (file_bytes disk' i.contents 36 ofs) ≡ new
  pub others :
      (p : ℕ)
      → p + 36 ≤ i.contents.length
      → (p + 36 ≤ ofs) ⊎ (ofs + 36 ≤ p)
      → file_bytes disk' i.contents 36 p ≡ file_bytes disk i.contents 36 p

module _ {M : Type 0} (t : Directories M) (dir : ℕ) (d : Dir) (i : Inode) (disk : ℕ → Sector)
    (name : Text) (free : DirEntry) (ofs : ℕ) (can : CanAdd t dir d i disk name free ofs) where
  -- Where the free slot is.
  pub slot_place :
      (k : ℕ) × (ofs ≡ 36 + 36 * k)
      × (ofs + 36 ≤ i.contents.length)
      × ((dir_entry_of (file_bytes disk i.contents 36 ofs)).in_use ≡ false)
  slot_place = place (
      subst (IsFirst (λ e. e.in_use ≡ false) (entries disk i.contents 0) 0) can.slot (
        first_from-IsFirst (λ e. not e.in_use) (λ e. e.in_use ≡ false) (λ e. not_iff e.in_use)
          (entries disk i.contents 0) 0))
    where
      not_iff : (b : Bool) → (not b ≡ true) ↔ (b ≡ false)
      not_iff b = ground arith

      place :
          IsFirst (λ e. e.in_use ≡ false) (entries disk i.contents 0) 0 (some free, ofs)
          → (k : ℕ) × (ofs ≡ 36 + 36 * k)
            × (ofs + 36 ≤ i.contents.length)
            × ((dir_entry_of (file_bytes disk i.contents 36 ofs)).in_use ≡ false)
      place (zero, at, is_at, unused, before) =
          let (below, same) =
            get_elem?-entries_from disk i.contents ((i.contents.length - 0) / 36) 0 0 free at in
          absurd (cc (same, unused, can.parent))
      place (suc k, at, is_at, unused, before) =
          let (below, same) =
            get_elem?-entries_from disk i.contents ((i.contents.length - 0) / 36) 0 (suc k) free
              at in
          (
            k,
            omega (arith, is_at),
            omega (arith, is_at, below),
            ap (λ o. (dir_entry_of (file_bytes disk i.contents 36 o)).in_use) is_at
                ∙ ap (λ (e : DirEntry). e.in_use) same
                ∙ unused,
          )

  lookup_absent :
      (at : ℕ) × (c : Cache) × (lookup i.contents name t.table.store.cache ≡ some ((none, at), c))
      × Unchanged t.table.store.cache c
  lookup_absent =
      let (r, (c, run, u), first) =
        lookup-IsFirst disk i.contents name t.table.store.cache can.writable.stored in
      absent r c run u first
    where
      absent :
          (r : Option DirEntry × ℕ) (c : Cache)
          → lookup i.contents name t.table.store.cache ≡ some (r, c)
          → Unchanged t.table.store.cache c
          → IsFirst (IsNamed name) (entries disk i.contents 36) 36 r
          → (at : ℕ) × (c : Cache) × (lookup i.contents name t.table.store.cache
              ≡ some ((none, at), c))
            × Unchanged t.table.store.cache c
      absent (none, at) c run u first = (at, c, run, u)
      absent (some e, at) c run u (k, here, place, named, before) =
          let n = (i.contents.length - 36) / 36 in
          let (below, same) = get_elem?-entries_from disk i.contents n 36 k e here in
          absurd (
            All-entries_from disk i.contents (λ e. IsNamed name e → ⊥) n 36 k can.no_entry below
              (subst (IsNamed name) (sym same) named))

  -- `dir_add` of a file returns true; the slot then holds the new entry, the inode and every other entry are as they were.
  pub dir_add-Added :
      (free_map_allocate : Store M → Option (Option ℕ × Store M))
      (free_map_release : ℕ → Store M → Option (Store M)) (inode_sector : ℕ) (junk : List ℕ)
      → inode_sector < 4294967296
      → Added t d i disk
          (padded (record { inode_sector = inode_sector; name = name; in_use = true }))
          ofs
          (dir_add free_map_allocate free_map_release dir name inode_sector false junk t)
  dir_add-Added free_map_allocate free_map_release inode_sector junk small =
      let idisk = i.contents in
      let new : DirEntry = record { inode_sector = inode_sector; name = name; in_use = true } in
      let (k, place, inside, unused) = slot_place in
      let (at, c, absent, u) = lookup_absent in
      let stored = IsStored-Unchanged idisk disk t.table.store.cache c can.writable.stored u in
      let (c', scanned, v) =
        scan_lem disk idisk (λ e. not e.in_use) (rounds idisk) 0 c stored (omega arith) in
      let t1 = with_disk free_map_allocate d i name inode_sector t can.its_inode c in
      let t2 = with_disk free_map_allocate d i name inode_sector t can.its_inode c' in
      let w =
        inode_write_at-WritesInside free_map_allocate i disk (dir_entry_bytes new) 36 ofs
          t2.table.store can.allowed (omega arith) inside
          (record {
            stored = IsStored-Unchanged idisk disk c c' stored v;
            apart = can.writable.apart;
          })
          (omega (arith, can.device, u.same_size, v.same_size)) in
      let after : Directories M = record t {
        table = record {
          inodes = put_inode i t.table.inodes;
          store = record (t.table.store) { cache = w.after };
        };
      } in
      record {
        after = after;
        result =
            dir_add-add_entry free_map_allocate d i name inode_sector t can.its_inode
              free_map_release dir at junk c can.is_open can.some_name can.short absent
            ∙ add_entry-write free_map_allocate d i name inode_sector t1 can.its_inode
                (some free, ofs) c' (scanned ∙ ap (λ r. some (r, c')) can.slot)
            ∙ write_entry-result free_map_allocate d i name inode_sector t2 can.its_inode new ofs
                (record (t.table.store) { cache = w.after }) w.result;
        its_inode = at_address-put_inode d.inode i t.table.inodes can.its_inode;
        disk' = w.disk';
        writable = w.writable;
        entry =
            ap dir_entry_of
              (file_bytes-slice idisk w.disk' (dir_entry_bytes new) 36 0 ofs w.spliced.inside)
            ∙ dir_entry_of-dir_entry_bytes new small;
        others = λ p fits apart. file_bytes-cong idisk disk w.disk' 36 p (λ j below.
            w.spliced.outside (p + j) (omega (arith, fits, below)) (away p j below apart));
      }
    where
      away :
          (p j : ℕ) → j < 36 → (p + 36 ≤ ofs) ⊎ (ofs + 36 ≤ p) → (p + j < ofs) ⊎ (ofs + 36 ≤ p + j)
      away p j below (inl h) = inl (omega (arith, below, h))
      away p j below (inr h) = inr (omega (arith, h))

-- ===== src/Fs/Directory/Listing.antt =====
-- `dir_is_empty` and `dir_readdir` of a3/fs/directory.c, and the loop of `fsutil_ls`, on a directory
-- that is stored on the device.
use comp310_winter.Base.{
  ℕ, zero, suc, ◌+◌, ◌-◌, ◌*◌, ◌/◌, ◌<◌, ◌≡◌, refl, sym, ap, ◌∙◌, Bool, true, false, none, some,
  Option, List, [], ◌∷◌, arith, if◌then◌else◌, Text, ◌↔◌, same,
}
use comp310_winter.Fs.Block.{Sector}
use comp310_winter.Fs.Cache.{Cache}
use comp310_winter.Fs.Cache.Contents.{Unchanged}
use comp310_winter.Fs.Inode.{InodeDisk}
use comp310_winter.Fs.Inode.Index.{Unchanged-trans}
use comp310_winter.Fs.Inode.Reading.{IsStored, IsStored-Unchanged, file_bytes}
use comp310_winter.Fs.Directory.{
  DirEntry, dir_entry_of, c_string, dir_is_empty, dir_readdir, ls_loop, scan, rounds,
}
use comp310_winter.Fs.Directory.Entries.{first_from, entries, entries_from, Returns, scan_lem}

-- The names of the entries that are in use, in order.
abbrev pub names : List DirEntry → List Text
names [] = []
names (e ∷ es) = let rest = names es in if e.in_use then c_string e.name ∷ rest else rest

names_used :
    (e : DirEntry) (es : List DirEntry)
    → e.in_use ≡ true
    → names (e ∷ es) ≡ c_string e.name ∷ names es
names_used e es used = ap (λ b. if b then c_string e.name ∷ names es else names es) used

names_unused : (e : DirEntry) (es : List DirEntry) → e.in_use ≡ false → names (e ∷ es) ≡ names es
names_unused e es unused = ap (λ b. if b then c_string e.name ∷ names es else names es) unused

module _ (disk : ℕ → Sector) (idisk : InodeDisk) where
  -- What a search of `n` entries from `ofs` on says of the names from there on.
  abbrev Next : ℕ → ℕ → Option DirEntry × ℕ → Type 0
  Next n ofs (none, at) = names (entries_from disk idisk n ofs) ≡ []
  Next n ofs (some e, at) =
      (i : ℕ) × (i < n)
      × (at ≡ ofs + 36 * i)
      × (names (entries_from disk idisk n ofs)
          ≡ c_string e.name ∷ names (entries_from disk idisk (n - (i + 1)) (at + 36)))

  Next-later :
      (n ofs : ℕ) (r : Option DirEntry × ℕ)
      → names (entries_from disk idisk (suc n) ofs) ≡ names (entries_from disk idisk n (ofs + 36))
      → Next n (ofs + 36) r
      → Next (suc n) ofs r
  Next-later n ofs (none, at) same rest = same ∙ rest
  Next-later n ofs (some e, at) same (i, below, place, list) = (
    suc i,
    omega (arith, below),
    omega (arith, place),
    same
        ∙ list
        ∙ ap (λ k. c_string e.name ∷ names (entries_from disk idisk k (at + 36)))
            (omega (arith, below)),
  )

  first_from-Next :
      (n ofs : ℕ) → Next n ofs (first_from (λ e. e.in_use) (entries_from disk idisk n ofs) ofs)
  first_from-Next zero ofs = refl
  first_from-Next (suc n) ofs =
      go (dir_entry_of (file_bytes disk idisk 36 ofs)).in_use refl (first_from-Next n (ofs + 36))
    where
      go :
          (b : Bool)
          → (dir_entry_of (file_bytes disk idisk 36 ofs)).in_use ≡ b
          → Next n
              (ofs + 36)
              (first_from (λ e. e.in_use) (entries_from disk idisk n (ofs + 36)) (ofs + 36))
          → Next (suc n) ofs (
              if b
              then (some (dir_entry_of (file_bytes disk idisk 36 ofs)), ofs)
              else first_from (λ e. e.in_use) (entries_from disk idisk n (ofs + 36)) (ofs + 36))
      go true used rest = (
        0,
        omega arith,
        omega arith,
        names_used (dir_entry_of (file_bytes disk idisk 36 ofs))
              (entries_from disk idisk n (ofs + 36)) used
            ∙ ap
                (λ k.
                  c_string (dir_entry_of (file_bytes disk idisk 36 ofs)).name
                  ∷ names (entries_from disk idisk k (ofs + 36)))
                {x = n} {y = suc n - (0 + 1)} (omega arith),
      )
      go false unused rest =
          Next-later n ofs
            (first_from (λ e. e.in_use) (entries_from disk idisk n (ofs + 36)) (ofs + 36))
            (names_unused (dir_entry_of (file_bytes disk idisk 36 ofs))
              (entries_from disk idisk n (ofs + 36)) unused)
            rest

ls_loop-stop :
    (n : ℕ) (idisk : InodeDisk) (pos pos' : ℕ) (c c' : Cache)
    → dir_readdir idisk pos c ≡ some ((none, pos'), c')
    → ls_loop (suc n) idisk pos c ≡ some ([], c')
unfolding ls_loop
ls_loop-stop n idisk pos pos' c c' read = rw (read, ls_loop) refl

ls_loop-next :
    (n : ℕ) (idisk : InodeDisk) (pos pos' : ℕ) (c c' d : Cache) (s : Text) (rest : List Text)
    → dir_readdir idisk pos c ≡ some ((some s, pos'), c')
    → ls_loop n idisk pos' c' ≡ some (rest, d)
    → ls_loop (suc n) idisk pos c ≡ some (s ∷ rest, d)
unfolding ls_loop
ls_loop-next n idisk pos pos' c c' d s rest read more = rw (read, ls_loop) (rw more refl)

dir_readdir-none :
    (idisk : InodeDisk) (pos at : ℕ) (c c' : Cache)
    → scan (λ e. e.in_use) (rounds idisk) idisk pos c ≡ some ((none, at), c')
    → dir_readdir idisk pos c ≡ some ((none, at), c')
unfolding dir_readdir
dir_readdir-none idisk pos at c c' found = rw (found, dir_readdir) refl

dir_readdir-some :
    (idisk : InodeDisk) (pos at : ℕ) (e : DirEntry) (c c' : Cache)
    → scan (λ e. e.in_use) (rounds idisk) idisk pos c ≡ some ((some e, at), c')
    → dir_readdir idisk pos c ≡ some ((some (c_string e.name), at + 36), c')
unfolding dir_readdir
dir_readdir-some idisk pos at e c c' found = rw (found, dir_readdir) refl

dir_is_empty-none :
    (idisk : InodeDisk) (at : ℕ) (c c' : Cache)
    → scan (λ e. e.in_use) (rounds idisk) idisk 36 c ≡ some ((none, at), c')
    → dir_is_empty idisk c ≡ some (true, c')
unfolding dir_is_empty
dir_is_empty-none idisk at c c' found = rw (found, dir_is_empty) refl

dir_is_empty-some :
    (idisk : InodeDisk) (at : ℕ) (e : DirEntry) (c c' : Cache)
    → scan (λ e. e.in_use) (rounds idisk) idisk 36 c ≡ some ((some e, at), c')
    → dir_is_empty idisk c ≡ some (false, c')
unfolding dir_is_empty
dir_is_empty-some idisk at e c c' found = rw (found, dir_is_empty) refl

module _ (disk : ℕ → Sector) (idisk : InodeDisk) where
  -- With more rounds than there are bytes behind the position, the loop that lists a directory
  -- that is stored on the device comes to an end and returns the names of the entries in use
  -- behind the position, in order, and leaves every sector as it was. A file or directory is
  -- stored when the cache is good, every sector has 512 bytes, the file has at most 16635 sectors,
  -- and its data sectors, its indirect and doubly indirect block (0 where it has none) and the
  -- entries of the latter that the file reaches into are on the device.
  pub ls_loop-names :
      (n pos : ℕ) (c : Cache)
      → IsStored idisk disk c
      → idisk.length - pos < n
      → Returns c (ls_loop n idisk pos c) (names (entries disk idisk pos))
  ls_loop-names zero pos c w h = absurd (omega arith)
  ls_loop-names (suc n) pos c w h =
      let (c', found, u) =
        scan_lem disk idisk (λ e. e.in_use) (rounds idisk) pos c w (omega arith) in
      step (λ k d x. ls_loop-names n k d x)
        (first_from (λ e. e.in_use) (entries disk idisk pos) pos) c' found u
        (first_from-Next disk idisk ((idisk.length - pos) / 36) pos)
    where
      step :
          ((k : ℕ) (d : Cache)
            → IsStored idisk disk d
            → idisk.length - k < n
            → Returns d (ls_loop n idisk k d) (names (entries disk idisk k)))
          → (r : Option DirEntry × ℕ) (c' : Cache)
          → scan (λ e. e.in_use) (rounds idisk) idisk pos c ≡ some (r, c')
          → Unchanged c c'
          → Next disk idisk ((idisk.length - pos) / 36) pos r
          → Returns c (ls_loop (suc n) idisk pos c) (names (entries disk idisk pos))
      step again (none, at) c' found u end = (
        c',
        ls_loop-stop n idisk pos at c c' (dir_readdir-none idisk pos at c c' found)
            ∙ ap (λ l. some (l, c')) (sym end),
        u,
      )
      step again (some e, at) c' found u (i, below, place, list) =
          let (d, rest, v) =
            again (at + 36) c' (IsStored-Unchanged idisk disk c c' w u)
              (omega (arith, h, below, place)) in
          let left : (idisk.length - pos) / 36 - (i + 1) ≡ (idisk.length - (at + 36)) / 36 =
            omega (arith, below, place) in
          (
            d,
            ls_loop-next n idisk pos (at + 36) c c' d (c_string e.name)
                  (names (entries disk idisk (at + 36)))
                  (dir_readdir-some idisk pos at e c c' found) rest
                ∙ ap (λ l. some (l, d))
                    (sym (
                      list
                      ∙ ap (λ k. c_string e.name ∷ names (entries_from disk idisk k (at + 36)))
                          left)),
            Unchanged-trans {a = c} {b = c'} {c = d} u v,
          )

-- `dir_is_empty` comes to an end on a directory that is stored, and says whether no name behind the
-- parent's entry is in use.
pub dir_is_empty_lem :
    (disk : ℕ → Sector) (idisk : InodeDisk) (c : Cache)
    → IsStored idisk disk c
    → (b : Bool) × Returns c (dir_is_empty idisk c) b
      × ((b ≡ true) ↔ (names (entries disk idisk 36) ≡ []))
dir_is_empty_lem disk idisk c w =
    let (c', found, u) = scan_lem disk idisk (λ e. e.in_use) (rounds idisk) 36 c w (omega arith) in
    step (first_from (λ e. e.in_use) (entries disk idisk 36) 36) c' found u
      (first_from-Next disk idisk ((idisk.length - 36) / 36) 36)
  where
    step :
        (r : Option DirEntry × ℕ) (c' : Cache)
        → scan (λ e. e.in_use) (rounds idisk) idisk 36 c ≡ some (r, c')
        → Unchanged c c'
        → Next disk idisk ((idisk.length - 36) / 36) 36 r
        → (b : Bool) × Returns c (dir_is_empty idisk c) b
          × ((b ≡ true) ↔ (names (entries disk idisk 36) ≡ []))
    step (none, at) c' found u end =
        (true, (c', dir_is_empty-none idisk at c c' found, u), (λ t. end, λ t. refl))
    step (some e, at) c' found u (i, below, place, list) =
        (false, (c', dir_is_empty-some idisk at e c c' found, u), (λ t. cc t, λ t. cc (t, list)))

-- ===== src/Fs/Inode/Sectors.antt =====
-- `get_inode_data_sectors` of a3/fs/inode.c.
use mathlib.Core.Path.{ap₂}
use comp310_winter.Base.{
  ℕ, zero, suc, ◌+◌, ◌-◌, ◌*◌, ◌/◌, ◌%◌, ◌<◌, ◌≤◌, ◌==◌, ==_ne, ==_iff, min, ◌≡◌, ◌⊎◌, inl, inr,
  refl, sym, ap, ◌∙◌, true, Option, some, none, List, [], ◌∷◌, ◌++◌, arith, get_or, if◌then◌else◌,
}
use comp310_winter.Fs.Block.{Sector}
use comp310_winter.Fs.Cache.{Cache, buffer_cache_read, option_bind}
use comp310_winter.Fs.Cache.Contents.{Unchanged}
use comp310_winter.Fs.Capacity.{bytes_to_sectors, bytes_to_sectors_lem}
use comp310_winter.Fs.Inode.{
  InodeDisk, block_at, no_sector, copy_entries, copy_indirect, single_sectors, doubly_sectors,
  get_inode_data_sectors,
}
use comp310_winter.Fs.Inode.Index.{
  data_sectors, second_blocks, data_direct, data_single, data_doubly, IsMapped, Unchanged-trans,
  Unchanged-refl, read_disk,
}

copy_entries-shift :
    (f g : ℕ → ℕ) (n a i : ℕ)
    → ((j : ℕ) → i ≤ j → j < i + n → f j ≡ g (a + j))
    → copy_entries f n i ≡ copy_entries g n (a + i)
unfolding copy_entries
copy_entries-shift f g zero a i h = refl
copy_entries-shift f g (suc n) a i h =
    ap₂ (λ (x : ℕ) (xs : List ℕ). x ∷ xs) (h i (omega arith) (omega arith))
      (copy_entries-shift f g n a (i + 1) (λ j lo hi. h j (omega (arith, lo)) (omega (arith, hi)))
        ∙ ap (copy_entries g n) (omega arith))

copy_entries-add :
    (f : ℕ → ℕ) (m n i : ℕ)
    → copy_entries f (m + n) i ≡ copy_entries f m i ++ copy_entries f n (i + m)
unfolding copy_entries
copy_entries-add f zero n i = ap₂ (copy_entries f) (omega arith) (omega arith)
copy_entries-add f (suc m) n i =
    ap (λ k. copy_entries f k i) {x = suc m + n} {y = suc (m + n)} (omega arith)
    ∙ ap (λ xs. f i ∷ xs)
        (copy_entries-add f m n (i + 1)
          ∙ ap (λ k. copy_entries f m (i + 1) ++ copy_entries f n k) {x = i + 1 + m} {y = i + suc m}
              (omega arith))

copy_entries-start :
    (f : ℕ → ℕ) (n i j : ℕ) → (n ≡ 0) ⊎ (i ≡ j) → copy_entries f n i ≡ copy_entries f n j
unfolding copy_entries
copy_entries-start f n i j (inl e) =
    ap (λ m. copy_entries f m i) e ∙ ap (λ m. copy_entries f m j) (sym e)
copy_entries-start f n i j (inr e) = ap (copy_entries f n) e

copy_indirect-step :
    (n i num : ℕ) (b b2 : Sector) (rest : List ℕ) (c c' d : Cache)
    → buffer_cache_read (block_at b i) c ≡ some (b2, c')
    → copy_indirect n (i + 1) b (num - min num 128) c' ≡ some (rest, d)
    → copy_indirect (suc n) i b num c ≡ some (copy_entries (block_at b2) (min num 128) 0 ++ rest, d)
unfolding copy_indirect
copy_indirect-step n i num b b2 rest c c' d at e =
    ap
      (λ o. option_bind o λ (b2, c').
        option_bind (copy_indirect n (i + 1) b (num - min num 128) c')
          λ (rest, c''). some (copy_entries (block_at b2) (min num 128) 0 ++ rest, c''))
      at
    ∙ ap
        (λ o.
          option_bind o
            λ (rest, c''). some (copy_entries (block_at b2) (min num 128) 0 ++ rest, c''))
        e

-- The sector numbers come back, and the contents of the disk stay.
abbrev pub Lists : Cache → Option (List ℕ × Cache) → List ℕ → Type 0
Lists c run sectors = (c' : Cache) × (run ≡ some (sectors, c')) × Unchanged c c'

IsMapped-Unchanged :
    (idisk : InodeDisk) (disk : ℕ → Sector) (c c' : Cache)
    → IsMapped idisk disk c
    → Unchanged c c'
    → IsMapped idisk disk c'
IsMapped-Unchanged idisk disk c c' w u = record {
  good = u.good;
  contents = λ s. u.reads s (disk s) (w.contents s);
  direct = w.direct;
  indirect = omega (arith, u.same_size, w.indirect);
  doubly = omega (arith, u.same_size, w.doubly);
  second = λ i h. omega (arith, u.same_size, w.second i h);
}

module _ (idisk : InodeDisk) (disk : ℕ → Sector) where
  abbrev doubly_entry : ℕ → ℕ
  doubly_entry k = block_at (disk (block_at (disk idisk.doubly_indirect_block) (k / 128))) (k % 128)

  -- One indirect block.
  copy_entries-doubly :
      (i n : ℕ)
      → n ≤ 128
      → copy_entries (block_at (disk (block_at (disk idisk.doubly_indirect_block) i))) n 0
        ≡ copy_entries doubly_entry n (128 * i)
  copy_entries-doubly i n h =
      copy_entries-shift _ doubly_entry n (128 * i) 0 (λ j lo hi.
        ap₂ (λ (a b : ℕ). block_at (disk (block_at (disk idisk.doubly_indirect_block) a)) b)
          (omega (arith, h, hi)) (omega (arith, h, hi)))
      ∙ ap (copy_entries doubly_entry n) {x = 128 * i + 0} {y = 128 * i} (omega arith)

  -- One indirect block and those behind it.
  joined :
      (i num : ℕ)
      → copy_entries
            (block_at (disk (block_at (disk idisk.doubly_indirect_block) i)))
            (min num 128)
            0
          ++ copy_entries doubly_entry (num - min num 128) (128 * (i + 1))
        ≡ copy_entries doubly_entry num (128 * i)
  joined i num =
      ap₂ (λ (xs ys : List ℕ). xs ++ ys) (copy_entries-doubly i (min num 128) (omega arith))
        (copy_entries-start doubly_entry (num - min num 128) (128 * (i + 1)) (128 * i + min num 128)
          (omega arith))
      ∙ sym (copy_entries-add doubly_entry (min num 128) (num - min num 128) (128 * i))
      ∙ ap (λ m. copy_entries doubly_entry m (128 * i)) {x = min num 128 + (num - min num 128)}
          {y = num} (omega arith)

  copy_indirect-Lists :
      (n i num : ℕ) (c : Cache)
      → IsMapped idisk disk c
      → n ≡ (num + 127) / 128
      → (128 * i + num + 127) / 128 ≤ second_blocks idisk
      → Lists c
          (copy_indirect n i (disk idisk.doubly_indirect_block) num c)
          (copy_entries doubly_entry num (128 * i))
  unfolding copy_indirect
  copy_indirect-Lists zero i num c w e h = (
    c,
    ap (λ m. some (copy_entries doubly_entry m (128 * i), c)) {x = 0} {y = num} (omega (arith, e)),
    Unchanged-refl c w.good,
  )
  copy_indirect-Lists (suc n) i num c w e h =
      let s = block_at (disk idisk.doubly_indirect_block) i in
      let (c', at, u) =
        read_disk s c (disk s) w.good (w.contents s) (w.second i (omega (arith, e, h))) in
      let (d, rest, v) =
        copy_indirect-Lists n (i + 1) (num - min num 128) c'
          (IsMapped-Unchanged idisk disk c c' w u) (omega (arith, e)) (omega (arith, h, e)) in
      (
        d,
        copy_indirect-step n i num (disk idisk.doubly_indirect_block) (disk s) _ c c' d at rest
            ∙ ap (λ xs. some (xs, d)) (joined i num),
        Unchanged-trans u v,
      )

  single_sectors-Lists :
      (l : ℕ) (c : Cache)
      → IsMapped idisk disk c
      → Lists c (single_sectors idisk l c) (copy_entries (block_at (disk idisk.indirect_block)) l 0)
  unfolding single_sectors
  single_sectors-Lists zero c w = (c, refl, Unchanged-refl c w.good)
  single_sectors-Lists (suc l) c w =
      let (c', at, u) =
        read_disk idisk.indirect_block c (disk idisk.indirect_block) w.good
          (w.contents idisk.indirect_block) w.indirect in
      (
        c',
        ap
              (λ t.
                if t
                then some ([], c)
                else option_bind (buffer_cache_read idisk.indirect_block c) found)
              (==_ne (suc l) 0 (λ e. omega (arith, e)))
            ∙ ap (λ o. option_bind o found) at,
        u,
      )
    where
      found : Sector × Cache → Option (List ℕ × Cache)
      found (b, c') = some (copy_entries (block_at b) (suc l) 0, c')

  doubly_sectors-Lists :
      (l : ℕ) (c : Cache)
      → IsMapped idisk disk c
      → (l + 127) / 128 ≤ second_blocks idisk
      → Lists c (doubly_sectors idisk l c) (copy_entries doubly_entry l 0)
  unfolding doubly_sectors
  doubly_sectors-Lists zero c w h = (c, refl, Unchanged-refl c w.good)
  doubly_sectors-Lists (suc l) c w h =
      let (c', at, u) =
        read_disk idisk.doubly_indirect_block c (disk idisk.doubly_indirect_block) w.good
          (w.contents idisk.doubly_indirect_block) w.doubly in
      let (d, rest, v) =
        copy_indirect-Lists ((suc l + 127) / 128) 0 (suc l) c'
          (IsMapped-Unchanged idisk disk c c' w u) refl (omega (arith, h)) in
      (
        d,
        ap
              (λ t.
                if t
                then some ([], c)
                else option_bind (buffer_cache_read idisk.doubly_indirect_block c) found)
              (==_ne (suc l) 0 (λ e. omega (arith, e)))
            ∙ ap (λ o. option_bind o found) at
            ∙ rest,
        Unchanged-trans u v,
      )
    where
      found : Sector × Cache → Option (List ℕ × Cache)
      found (b, c') = copy_indirect ((suc l + 127) / 128) 0 b (suc l) c'

  -- The sector with the index `i` in the file.
  abbrev pub file_sector : ℕ → ℕ
  file_sector i = get_or (data_sectors disk idisk) i no_sector

  module _ (c : Cache) (w : IsMapped idisk disk c) where
    entries-direct :
        (n : ℕ)
        → n ≤ 123
        → copy_entries (λ i. get_or idisk.direct_blocks i 0) n 0 ≡ copy_entries file_sector n 0
    entries-direct n h =
        copy_entries-shift _ file_sector n 0 0 (λ j lo hi.
          sym (data_direct idisk disk c w j (omega (arith, h, hi)))
          ∙ ap file_sector {x = j} {y = 0 + j} (omega arith))
        ∙ ap (copy_entries file_sector n) {x = 0 + 0} {y = 0} (omega arith)

    entries-single :
        (n : ℕ)
        → n ≤ 128
        → copy_entries (block_at (disk idisk.indirect_block)) n 0 ≡ copy_entries file_sector n 123
    entries-single n h =
        copy_entries-shift _ file_sector n 123 0
          (λ j lo hi. sym (data_single idisk disk c w j (omega (arith, h, hi))))
        ∙ ap (copy_entries file_sector n) {x = 123 + 0} {y = 123} (omega arith)

    entries-doubly :
        (n : ℕ)
        → (n + 127) / 128 ≤ second_blocks idisk
        → copy_entries doubly_entry n 0 ≡ copy_entries file_sector n 251
    entries-doubly n h =
        copy_entries-shift doubly_entry file_sector n 251 0 (λ j lo hi.
          sym (data_doubly idisk disk c w j (omega (arith, h, hi)))
          ∙ ap file_sector {x = 123 + (128 + j)} {y = 251 + j} (omega arith))
        ∙ ap (copy_entries file_sector n) {x = 251 + 0} {y = 251} (omega arith)

    -- The three parts are the sectors of the file.
    entries-all :
        (n l m k : ℕ)
        → l ≡ min n 123
        → m ≡ min (n - l) 128
        → k ≡ min (n - l - m) 16384
        → n ≤ 16635
        → n ≡ (idisk.length + 511) / 512
        → copy_entries (λ i. get_or idisk.direct_blocks i 0) l 0
            ++ (copy_entries (block_at (disk idisk.indirect_block)) m 0
                ++ copy_entries doubly_entry k 0)
          ≡ copy_entries file_sector n 0
    entries-all n l m k e₁ e₂ e₃ h e =
        ap₂ (λ (xs ys : List ℕ). xs ++ ys) (entries-direct l (omega (arith, e₁)))
          (ap₂ (λ (xs ys : List ℕ). xs ++ ys)
              (entries-single m (omega (arith, e₂))
                ∙ copy_entries-start file_sector m 123 (0 + l) (omega (arith, e₁, e₂)))
              (entries-doubly k (omega (arith, e₁, e₂, e₃, e))
                ∙ copy_entries-start file_sector k 251 (0 + l + m) (omega (arith, e₁, e₂, e₃)))
            ∙ sym (copy_entries-add file_sector m k (0 + l)))
        ∙ sym (copy_entries-add file_sector l (m + k) 0)
        ∙ ap (λ t. copy_entries file_sector t 0) {x = l + (m + k)} {y = n}
            (omega (arith, e₁, e₂, e₃, h))

    -- For a file of at most 16635 sectors, `get_inode_data_sectors` lists the sectors of its data
    -- in the order in which `byte_to_sector` finds them, one for each 512 bytes begun, and leaves
    -- every sector as it was. The cache is good, and the indirect and doubly indirect block (0
    -- where the file has none) and the entries of the latter that the file reaches into are on the
    -- device.
    pub get_inode_data_sectors-Lists :
        idisk.length ≤ 8517120
        → Lists c
            (get_inode_data_sectors idisk c)
            (copy_entries file_sector (bytes_to_sectors idisk.length) 0)
    unfolding get_inode_data_sectors
    get_inode_data_sectors-Lists h =
        let rounded = bytes_to_sectors_lem idisk.length (omega (arith, h)) in
        let (c', single, u) = single_sectors-Lists m c w in
        let (d, doubly, v) =
          doubly_sectors-Lists k c' (IsMapped-Unchanged idisk disk c c' w u)
            (omega (arith, rounded)) in
        (
          d,
          ap (λ o. option_bind o λ (ss, x). option_bind (doubly_sectors idisk k x) (checked ss))
                single
              ∙ ap (λ o. option_bind o (checked ss)) doubly
              ∙ ap (λ t. if t then some (direct ++ (ss ++ ds), d) else none) none_left
              ∙ ap (λ xs. some (xs, d)) (entries-all n l m k refl refl refl small rounded),
          Unchanged-trans u v,
        )
      where
        n : ℕ
        n = bytes_to_sectors idisk.length

        l : ℕ
        l = min n 123

        m : ℕ
        m = min (n - l) 128

        k : ℕ
        k = min (n - l - m) 16384

        ss : List ℕ
        ss = copy_entries (block_at (disk idisk.indirect_block)) m 0

        ds : List ℕ
        ds = copy_entries doubly_entry k 0

        direct : List ℕ
        direct = copy_entries (λ i. get_or idisk.direct_blocks i 0) l 0

        checked : List ℕ → List ℕ × Cache → Option (List ℕ × Cache)
        checked ss (ds, x) = if n - l - m - k == 0 then some (direct ++ (ss ++ ds), x) else none

        small : n ≤ 16635
        small = omega (arith, h, bytes_to_sectors_lem idisk.length (omega (arith, h)))

        none_left : (n - l - m - k == 0) ≡ true
        none_left = (==_iff (n - l - m - k) 0).1 (omega (arith, small))

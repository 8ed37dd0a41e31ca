-- ===== src/Fs/Cache/Slots.antt =====
-- The cache as a function from slots to entries: what it holds for a sector, when that agrees with
-- the device, and how the writes to one slot keep it.
use mathlib.Core.Path.{fun_ext}
use comp310_winter.Base.{
  ℕ, ◌<◌, ◌≡◌, ◌≢◌, sym, ap, ◌∙◌, ◌⊎◌, inl, inr, Bool, true, false, List, arith, ◌==◌,
  if◌then◌else◌, Bool-cases, length, set, get_or-set_self, get_or-set_ne,
}
use comp310_winter.Fs.Block.{Sector, stored_at}
use comp310_winter.Fs.Cache.{Entry, unused, entry_at}

abbrev pub Table : Type 0
Table = ℕ → Entry

abbrev pub update : Table → ℕ → Entry → Table
update f k e j = if k == j then e else f j

pub entry_at-set :
    (c : List Entry) (k : ℕ) (e : Entry)
    → k < length c
    → entry_at (set c k e) ≡ update (entry_at c) k e
entry_at-set c k e h = fun_ext λ j. elim (Bool-cases (k == j)) [
  | inl here ↦ let at : k ≡ j = ground arith in rw (here, ← at) (get_or-set_self c k e unused h)
  | inr there ↦ rw there (get_or-set_ne c k j e unused (ground arith))
]

-- The block `b` is what is read from the sector `s`: it is in an entry, or no entry is for `s` and it
-- is on the device.
abbrev pub Holds : Table → (ℕ → Sector) → ℕ → Sector → Type 0
Holds f d s b =
    ((i : ℕ) × ((f i).occupied ≡ true) × ((f i).disk_sector ≡ s) × ((f i).buffer ≡ b))
    ⊎ (((i : ℕ) → (f i).occupied ≡ true → ¬ ((f i).disk_sector ≡ s)) × (d s ≡ b))

-- No sector has two entries, a clean entry agrees with the device, and entries are for sectors of it.
pub record IsCoherent (f : Table) (d : ℕ → Sector) (size : ℕ) : Type 0 where
  pub distinct :
      (i j : ℕ)
      → (f i).occupied ≡ true
      → (f j).occupied ≡ true
      → (f i).disk_sector ≡ (f j).disk_sector
      → i ≡ j
  pub clean :
      (i : ℕ) → (f i).occupied ≡ true → (f i).dirty ≡ false → d (f i).disk_sector ≡ (f i).buffer
  pub bounded : (i : ℕ) → (f i).occupied ≡ true → (f i).disk_sector < size

module _ {f : Table} {d : ℕ → Sector} {size : ℕ} (w : IsCoherent f d size) where
  -- Only one block is read from a sector.
  pub Holds-unique : (s : ℕ) (a b : Sector) → Holds f d s a → Holds f d s b → a ≡ b
  Holds-unique s a b (inl (i, oi, si, bi)) (inl (j, oj, sj, bj)) =
      let e : i ≡ j = w.distinct i j oi oj (si ∙ sym sj) in sym bi ∙ ap (λ k. (f k).buffer) e ∙ bj
  Holds-unique s a b (inl (i, oi, si, bi)) (inr (out, e)) = absurd (out i oi si)
  Holds-unique s a b (inr (out, e)) (inl (j, oj, sj, bj)) = absurd (out j oj sj)
  Holds-unique s a b (inr (out, e)) (inr (out', e')) = sym e ∙ e'

  module _ (k : ℕ) where
    -- The reference bit is of no account.
    pub touch-IsCoherent : (x : Bool) → IsCoherent (update f k (record (f k) { access = x })) d size
    touch-IsCoherent x = record {
      distinct = λ i j oi oj e. grind (arith, w.distinct);
      clean = λ i oi di. grind (arith, w.clean);
      bounded = λ i oi. grind (arith, w.bounded);
    }

    pub touch-Holds :
        (x : Bool) (s : ℕ) (b : Sector)
        → Holds f d s b
        → Holds (update f k (record (f k) { access = x })) d s b
    touch-Holds x s b (inl (i, oi, si, bi)) = inl (i, ground arith, ground arith, ground arith)
    touch-Holds x s b (inr (out, e)) = inr (λ i oi si. grind (arith, out), e)

    module _ (ok : (f k).occupied ≡ true) where
      -- A flush writes the entry's block to its sector.
      abbrev pub flushed : ℕ → Sector
      flushed = stored_at d (f k).disk_sector (f k).buffer

      pub flush-IsCoherent : IsCoherent (update f k (record (f k) { dirty = false })) flushed size
      flush-IsCoherent = record {
        distinct = λ i j oi oj e. grind (arith, w.distinct);
        clean = λ i oi di. elim (Bool-cases (k == i)) [
          | inl here ↦ ground (arith, here)
          | inr there ↦ ground (arith, there, w.clean i, w.distinct k i)
        ];
        bounded = λ i oi. grind (arith, w.bounded);
      }

      pub flush-Holds :
          (s : ℕ) (b : Sector)
          → Holds f d s b
          → Holds (update f k (record (f k) { dirty = false })) flushed s b
      flush-Holds s b (inl (i, oi, si, bi)) = inl (i, ground arith, ground arith, ground arith)
      flush-Holds s b (inr (out, e)) = inr (λ i oi si. grind (arith, out), ground (arith, out k ok))

      -- A clean entry may go.
      pub drop-IsCoherent : IsCoherent (update f k (record (f k) { occupied = false })) d size
      drop-IsCoherent = record {
        distinct = λ i j oi oj e. grind (arith, w.distinct);
        clean = λ i oi di. grind (arith, w.clean);
        bounded = λ i oi. grind (arith, w.bounded);
      }

      pub drop-Holds :
          (f k).dirty ≡ false
          → (s : ℕ) (b : Sector) → Holds f d s b
          → Holds (update f k (record (f k) { occupied = false })) d s b
      drop-Holds tidy s b (inl (i, oi, si, bi)) = elim (Bool-cases (k == i)) [
        | inl here ↦
            let at : k ≡ i = ground arith in
            inr (
              λ j oj sj. elim (Bool-cases (k == j)) [
                | inl also ↦ ground (arith, also)
                | inr other ↦ ground (arith, other, w.distinct k j)
              ],
              ground (arith, w.clean k ok tidy),
            )
        | inr there ↦ inl (i, ground (arith, there), ground (arith, there), ground (arith, there))
      ]
      drop-Holds tidy s b (inr (out, e)) = inr (λ i oi si. grind (arith, out), e)

      -- The block of an entry is replaced, and the entry marked.
      abbrev pub written : Sector → Table
      written b = update f k (record (f k) { access = true; dirty = true; buffer = b })

      pub write-IsCoherent : (b : Sector) → IsCoherent (written b) d size
      write-IsCoherent b = record {
        distinct = λ i j oi oj e. grind (arith, w.distinct);
        clean = λ i oi di. grind (arith, w.clean);
        bounded = λ i oi. grind (arith, w.bounded);
      }

      pub write-Holds : (b : Sector) → Holds (written b) d (f k).disk_sector b
      write-Holds b = inl (k, ground arith, ground arith, ground arith)

      pub write-Holds_ne :
          (b : Sector) (s : ℕ) (a : Sector)
          → (f k).disk_sector ≢ s
          → Holds f d s a
          → Holds (written b) d s a
      write-Holds_ne b s a ne (inl (i, oi, si, bi)) =
          inl (i, ground arith, ground arith, ground arith)
      write-Holds_ne b s a ne (inr (out, e)) = inr (λ i oi si. grind (arith, out), e)

    -- A free slot is given to a sector that has no entry.
    module _ (sector : ℕ) (x : Bool) (free : (f k).occupied ≡ false)
        (absent : (i : ℕ) → (f i).occupied ≡ true → ¬ ((f i).disk_sector ≡ sector)) where
      abbrev pub filled : Table
      filled = update f k (record {
        occupied = true;
        disk_sector = sector;
        buffer = d sector;
        dirty = false;
        access = x;
      })

      pub fill-IsCoherent : sector < size → IsCoherent filled d size
      fill-IsCoherent h = record {
        distinct = λ i j oi oj e. elim (Bool-cases (k == i)) [
          | inl a ↦ elim (Bool-cases (k == j)) [
            | inl b ↦ ground (arith, a, b)
            | inr b ↦ ground (arith, a, b, absent j)
          ]
          | inr a ↦ elim (Bool-cases (k == j)) [
            | inl b ↦ ground (arith, a, b, absent i)
            | inr b ↦ ground (arith, a, b, w.distinct i j)
          ]
        ];
        clean = λ i oi di. grind (arith, w.clean);
        bounded = λ i oi. grind (arith, w.bounded);
      }

      pub fill-Holds : (s : ℕ) (b : Sector) → Holds f d s b → Holds filled d s b
      fill-Holds s b (inl (i, oi, si, bi)) = inl (i, ground arith, ground arith, ground arith)
      fill-Holds s b (inr (out, e)) = elim (Bool-cases (sector == s)) [
        | inl same ↦ inl (k, ground arith, ground arith, ground arith)
        | inr other ↦ inr (
          λ i oi si. elim (Bool-cases (k == i)) [
            | inl here ↦ ground (arith, here, other)
            | inr there ↦ ground (arith, there, out i)
          ],
          e,
        )
      ]

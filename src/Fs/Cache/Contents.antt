-- ===== src/Fs/Cache/Contents.antt =====
-- What `buffer_cache_read`, `buffer_cache_write` and `buffer_cache_close` do to the contents of the disk.
use comp310_winter.Base.{
  ℕ, ◌+◌, ◌<◌, ◌≡◌, ◌≢◌, refl, sym, ap, ◌∙◌, inl, inr, true, false, none, some, arith, Option-cases,
  length, set, length-set,
}
use mathlib.Core.Path.{subst}
use comp310_winter.Fs.Block.{Sector, Device, block_read}
use comp310_winter.Fs.Cache.{
  Entry, Cache, entry_at, buffer_cache_size, buffer_cache_lookup, fill, slot_of, buffer_cache_read,
  buffer_cache_write,
}
use comp310_winter.Fs.Cache.Slots
use comp310_winter.Fs.Cache.Slots.{Table, update, entry_at-set, Holds, IsCoherent}
use comp310_winter.Fs.Cache.Scan.{lookup_from-some, lookup_from-none}
use comp310_winter.Fs.Cache.Coherence.{Reads, Absent, IsGood, evict-Evicted, touch-Keeps}

-- The slot that a sector is given holds it, and every sector reads as before.
pub record Found (sector : ℕ) (c : Cache) : Type 0 where
  pub slot : ℕ
  pub after : Cache
  pub result : slot_of sector c ≡ some (slot, after)
  pub within : slot < buffer_cache_size
  pub good : IsGood after
  pub same_size : after.device.size ≡ c.device.size
  pub reads : (s : ℕ) (b : Sector) → Reads c s b → Reads after s b
  pub used : (entry_at after.entries slot).occupied ≡ true
  pub its_sector : (entry_at after.entries slot).disk_sector ≡ sector

block_read-bounded :
    (s : ℕ) (dev : Device)
    → s < dev.size
    → block_read s dev ≡ some (dev.sectors s, record dev { read_cnt = dev.read_cnt + 1 })
unfolding block_read
block_read-bounded s dev h = ground (arith, h)

abbrev fresh_entry : ℕ → ℕ → Cache → Entry
fresh_entry sector slot c = record {
  occupied = true;
  disk_sector = sector;
  buffer = c.device.sectors sector;
  dirty = false;
  access = (entry_at c.entries slot).access;
}

abbrev filled : ℕ → ℕ → Cache → Cache
filled sector slot c = record c {
  entries = set c.entries slot (fresh_entry sector slot c);
  device = record (c.device) { read_cnt = c.device.read_cnt + 1 };
}

fill-filled :
    (sector slot : ℕ) (c : Cache)
    → sector < c.device.size
    → fill sector slot c ≡ some (slot, filled sector slot c)
unfolding fill
fill-filled sector slot c h = rw (block_read-bounded sector c.device h) refl

lookup-some :
    (c : Cache) (sector : ℕ) {j : ℕ}
    → buffer_cache_lookup c.entries sector ≡ some j
    → (j < length c.entries)
      × ((entry_at c.entries j).occupied ≡ true)
      × ((entry_at c.entries j).disk_sector ≡ sector)
unfolding buffer_cache_lookup
lookup-some c sector {j} e =
    let (k, at, less, used, found) = lookup_from-some 0 c.entries sector e in
    let here : j ≡ k = omega arith in rw here (less, used, found)

lookup-none :
    (c : Cache) (sector : ℕ)
    → buffer_cache_lookup c.entries sector ≡ none
    → Absent (entry_at c.entries) sector
unfolding buffer_cache_lookup
lookup-none c sector e = lookup_from-none 0 c.entries sector e

slot_of-Found : (sector : ℕ) (c : Cache) → IsGood c → sector < c.device.size → Found sector c
unfolding slot_of
slot_of-Found sector c w h = elim (Option-cases (buffer_cache_lookup c.entries sector)) [
  | inr (i, e) ↦
      let (less, used, found) = lookup-some c sector e in
      record {
        slot = i;
        after = c;
        result = rw (e, slot_of) refl;
        within = omega (arith, w.size);
        good = w;
        same_size = refl;
        reads = λ s b r. r;
        used = used;
        its_sector = found;
      }
  | inl e ↦
      let v = evict-Evicted sector c w in
      let c' = v.after in
      let absent = v.keeps.absent (lookup-none c sector e) in
      let at =
        entry_at-set c'.entries v.slot (fresh_entry sector v.slot c')
          (omega (arith, v.keeps.good.size, v.within)) in
      let room : sector < c'.device.size = omega (arith, v.keeps.same_size) in
      let access = (entry_at c'.entries v.slot).access in
      record {
        slot = v.slot;
        after = filled sector v.slot c';
        result = rw (e, slot_of, v.result, fill-filled sector v.slot c' room) refl;
        within = v.within;
        good = record {
          size = length-set c'.entries v.slot _ ∙ v.keeps.good.size;
          clock = v.keeps.good.clock;
          coherent =
              subst (λ (f : Table). IsCoherent f c'.device.sectors c'.device.size) (sym at)
                (Slots.fill-IsCoherent v.keeps.good.coherent v.slot sector access v.free absent
                  room);
        };
        same_size = v.keeps.same_size;
        reads = λ s b r.
            subst (λ (f : Table). Holds f c'.device.sectors s b) (sym at)
              (Slots.fill-Holds v.keeps.good.coherent v.slot sector access v.free absent s b
                (v.keeps.reads s b r));
        used = ap (λ (f : Table). (f v.slot).occupied) at ∙ ground arith;
        its_sector = ap (λ (f : Table). (f v.slot).disk_sector) at ∙ ground arith;
      }
]

-- Every sector reads as before.
pub record Unchanged (c c' : Cache) : Type 0 where
  pub good : IsGood c'
  pub same_size : c'.device.size ≡ c.device.size
  pub reads : (s : ℕ) (b : Sector) → Reads c s b → Reads c' s b

-- With a good cache, a read of a sector of the device does not panic. It returns the block that
-- the disk has for the sector, and leaves the cache good and every sector as it was.
pub buffer_cache_read-Reads :
    (sector : ℕ) (c : Cache)
    → IsGood c
    → sector < c.device.size
    → (b : Sector) × (c' : Cache) × (buffer_cache_read sector c ≡ some (b, c'))
      × Unchanged c c'
      × ((a : Sector) → Reads c sector a → b ≡ a)
unfolding buffer_cache_read
buffer_cache_read-Reads sector c w h =
    let f = slot_of-Found sector c w h in
    let e = entry_at f.after.entries f.slot in
    let t = touch-Keeps sector f.after f.good f.slot true f.within in
    (
      e.buffer,
      record (f.after) { entries = set f.after.entries f.slot (record e { access = true }) },
      rw (f.result, buffer_cache_read) refl,
      record {
        good = t.good;
        same_size = f.same_size;
        reads = λ s b r. t.reads s b (f.reads s b r);
      },
      λ a r.
          Slots.Holds-unique f.good.coherent sector e.buffer a
            (inl (f.slot, f.used, f.its_sector, refl)) (f.reads sector a r),
    )

-- With a good cache, a write to a sector of the device does not panic and leaves the cache good.
-- The sector then reads as what was written and every other sector as before, and the device is as
-- large as it was.
pub buffer_cache_write-Reads :
    (sector : ℕ) (source : Sector) (c : Cache)
    → IsGood c
    → sector < c.device.size
    → (c' : Cache) × (buffer_cache_write sector source c ≡ some c')
      × IsGood c'
      × Reads c' sector source
      × ((s : ℕ) (b : Sector) → sector ≢ s → Reads c s b → Reads c' s b)
      × (c'.device.size ≡ c.device.size)
unfolding buffer_cache_write
buffer_cache_write-Reads sector source c w h =
    let f = slot_of-Found sector c w h in
    let e = record (entry_at f.after.entries f.slot) {
      access = true;
      dirty = true;
      buffer = source;
    } in
    let at = entry_at-set f.after.entries f.slot e (omega (arith, f.good.size, f.within)) in
    let d = f.after.device in
    (
      record (f.after) { entries = set f.after.entries f.slot e },
      rw (f.result, buffer_cache_write) refl,
      record {
        size = length-set f.after.entries f.slot e ∙ f.good.size;
        clock = f.good.clock;
        coherent =
            subst (λ (g : Table). IsCoherent g d.sectors d.size) (sym at)
              (Slots.write-IsCoherent f.good.coherent f.slot f.used source);
      },
      subst (λ (g : Table). Holds g d.sectors sector source) (sym at)
          (subst (λ (s : ℕ). Holds (update (entry_at f.after.entries) f.slot e) d.sectors s source)
            f.its_sector (Slots.write-Holds f.good.coherent f.slot f.used source)),
      λ s b ne r.
          subst (λ (g : Table). Holds g d.sectors s b) (sym at)
            (Slots.write-Holds_ne f.good.coherent f.slot f.used source s b
              (λ same_sector. ne (sym f.its_sector ∙ same_sector)) (f.reads s b r)),
      f.same_size,
    )

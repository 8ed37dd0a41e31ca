-- ===== src/Fs/Cache/Coherence.antt =====
-- `buffer_cache_flush` and `buffer_cache_evict` of a3/fs/cache.c on the disk that the cache and the
-- device make up.
use comp310_winter.Base.{
  get_or-set_ne, ℕ, ◌+◌, ◌<◌, ◌≡◌, ◌≢◌, refl, sym, ap, ◌∙◌, inl, inr, Bool, true, false, Option,
  some, arith, not, if◌then◌else◌, Bool-cases, length, set, length-set,
}
use mathlib.Core.Path.{subst}
use comp310_winter.Fs.Block.{Sector, Device, block_write, stored_at}
use comp310_winter.Fs.Cache.{
  Entry, unused, Cache, entry_at, buffer_cache_size, option_bind, buffer_cache_flush, vacate,
  buffer_cache_evict,
}
use comp310_winter.Fs.Cache.Slots
use comp310_winter.Fs.Cache.Slots.{Table, update, entry_at-set, Holds, IsCoherent}
use comp310_winter.Fs.Cache.Scan.{clock_scan_stops}

-- The block `b` is what a read of the sector `s` returns.
abbrev pub Reads : Cache → ℕ → Sector → Type 0
Reads c s b = Holds (entry_at c.entries) c.device.sectors s b

abbrev pub Absent : Table → ℕ → Type 0
Absent f t = (i : ℕ) → (f i).occupied ≡ true → ¬ ((f i).disk_sector ≡ t)

-- The invariant of the cache.
pub record IsGood (c : Cache) : Type 0 where
  pub size : length c.entries ≡ buffer_cache_size
  pub clock : c.clock < buffer_cache_size
  pub coherent : IsCoherent (entry_at c.entries) c.device.sectors c.device.size

-- Every sector reads as before, and `t` still has no entry if it had none.
pub record Keeps (t : ℕ) (c c' : Cache) : Type 0 where
  pub good : IsGood c'
  pub same_size : c'.device.size ≡ c.device.size
  pub reads : (s : ℕ) (b : Sector) → Reads c s b → Reads c' s b
  pub absent : Absent (entry_at c.entries) t → Absent (entry_at c'.entries) t

pub Keeps-trans : {t : ℕ} {a b c : Cache} → Keeps t a b → Keeps t b c → Keeps t a c
Keeps-trans k l = record {
  good = l.good;
  same_size = l.same_size ∙ k.same_size;
  reads = λ s x h. l.reads s x (k.reads s x h);
  absent = λ h. l.absent (k.absent h);
}

module _ (t : ℕ) (c : Cache) (w : IsGood c) where
  -- A write to one slot, with what it does to the entries as a function.
  with_entry :
      (i : ℕ) (e : Entry) (dev : Device)
      → i < buffer_cache_size
      → dev.size ≡ c.device.size
      → IsCoherent (update (entry_at c.entries) i e) dev.sectors c.device.size
      → ((s : ℕ) (b : Sector)
          → Reads c s b
          → Holds (update (entry_at c.entries) i e) dev.sectors s b)
      → (Absent (entry_at c.entries) t → Absent (update (entry_at c.entries) i e) t)
      → Keeps t c (record c { entries = set c.entries i e; device = dev })
  with_entry i e dev h same coherent reads absent =
      let at = entry_at-set c.entries i e (omega (arith, w.size)) in
      record {
        good = record {
          size = length-set c.entries i e ∙ w.size;
          clock = w.clock;
          coherent = rw (at, same) coherent;
        };
        same_size = same;
        reads = λ s b r. subst (λ (f : Table). Holds f dev.sectors s b) (sym at) (reads s b r);
        absent = λ a. subst (λ (f : Table). Absent f t) (sym at) (absent a);
      }

  pub touch-Keeps :
      (i : ℕ) (x : Bool)
      → i < buffer_cache_size
      → Keeps t c
          (record c { entries = set c.entries i (record (entry_at c.entries i) { access = x }) })
  touch-Keeps i x h =
      with_entry i (record (entry_at c.entries i) { access = x }) c.device h refl
        (Slots.touch-IsCoherent w.coherent i x) (Slots.touch-Holds w.coherent i x)
        (λ a j oj sj. grind (arith, a))

  drop-Keeps :
      (i : ℕ)
      → i < buffer_cache_size
      → (entry_at c.entries i).occupied ≡ true
      → (entry_at c.entries i).dirty ≡ false
      → Keeps t c (record c {
        entries = set c.entries i (record (entry_at c.entries i) { occupied = false });
      })
  drop-Keeps i h used tidy =
      with_entry i (record (entry_at c.entries i) { occupied = false }) c.device h refl
        (Slots.drop-IsCoherent w.coherent i used) (Slots.drop-Holds w.coherent i used tidy)
        (λ a j oj sj. grind (arith, a))

  -- A flush does not panic, and leaves a clean entry.
  pub record Flushed (i : ℕ) : Type 0 where
    pub after : Cache
    pub result : buffer_cache_flush i c ≡ some after
    pub keeps : Keeps t c after
    pub used : (entry_at after.entries i).occupied ≡ true
    pub tidy : (entry_at after.entries i).dirty ≡ false
    pub others : (j : ℕ) → i ≢ j → entry_at after.entries j ≡ entry_at c.entries j

  block_write-bounded :
      (s : ℕ) (b : Sector)
      → s < c.device.size
      → block_write s b c.device
        ≡ some (record (c.device) {
          sectors = stored_at c.device.sectors s b;
          write_cnt = c.device.write_cnt + 1;
        })
  unfolding block_write
  block_write-bounded s b h = ground (arith, h)

  pub flush-Keeps :
      (i : ℕ) → i < buffer_cache_size → (entry_at c.entries i).occupied ≡ true → Flushed i
  unfolding buffer_cache_flush
  flush-Keeps i h used = elim (Bool-cases (entry_at c.entries i).dirty) [
    | inr tidy ↦ record {
      after = c;
      result = rw tidy refl;
      keeps = record { good = w; same_size = refl; reads = λ s b r. r; absent = λ a. a };
      used = used;
      tidy = tidy;
      others = λ j ne. refl;
    }
    | inl dirty ↦
        let e = entry_at c.entries i in
        let dev = record (c.device) {
          sectors = stored_at c.device.sectors e.disk_sector e.buffer;
          write_cnt = c.device.write_cnt + 1;
        } in
        let at = entry_at-set c.entries i (record e { dirty = false }) (omega (arith, w.size)) in
        record {
          after = record c { entries = set c.entries i (record e { dirty = false }); device = dev };
          result =
              rw
                (
                  dirty,
                  buffer_cache_flush,
                  block_write-bounded e.disk_sector e.buffer (w.coherent.bounded i used),
                )
                refl;
          keeps =
              with_entry i (record e { dirty = false }) dev h refl
                (Slots.flush-IsCoherent w.coherent i used) (Slots.flush-Holds w.coherent i used)
                (λ a j oj sj. grind (arith, a));
          used = ap (λ (f : Table). (f i).occupied) at ∙ ground arith;
          tidy = ap (λ (f : Table). (f i).dirty) at ∙ ground arith;
          others = λ j ne. get_or-set_ne c.entries i j (record e { dirty = false }) unused ne;
        }
  ]

pub Keeps-refl : (t : ℕ) (c : Cache) → IsGood c → Keeps t c c
Keeps-refl t c w = record { good = w; same_size = refl; reads = λ s b r. r; absent = λ a. a }

-- The slot is free afterwards.
pub record Vacated (t : ℕ) (slot : ℕ) (c : Cache) (run : Option Cache) : Type 0 where
  pub after : Cache
  pub result : run ≡ some after
  pub keeps : Keeps t c after
  pub free : (entry_at after.entries slot).occupied ≡ false

freed : ℕ → Cache → Option Cache
freed slot c = some (record c {
  entries = set c.entries slot (record (entry_at c.entries slot) { occupied = false });
})

vacate-Vacated :
    (t slot : ℕ) (c : Cache)
    → IsGood c
    → slot < buffer_cache_size
    → Vacated t slot c (vacate slot c)
unfolding vacate freed
vacate-Vacated t slot c w h = elim (Bool-cases (entry_at c.entries slot).occupied) [
  | inr free ↦ record { after = c; result = rw free refl; keeps = Keeps-refl t c w; free = free }
  | inl used ↦
      let f = flush-Keeps t c w slot h used in
      let c' = f.after in
      let e = record (entry_at c'.entries slot) { occupied = false } in
      let at = entry_at-set c'.entries slot e (omega (arith, f.keeps.good.size)) in
      record {
        after = record c' { entries = set c'.entries slot e };
        result =
            ap
              (λ (b : Bool).
                if not b then some c else option_bind (buffer_cache_flush slot c) (freed slot))
              used
            ∙ ap (λ (r : Option Cache). option_bind r (freed slot)) f.result;
        keeps = Keeps-trans f.keeps (drop-Keeps t c' f.keeps.good slot h f.used f.tidy);
        free = ap (λ (g : Table). (g slot).occupied) at ∙ ground arith;
      }
]

clock-Keeps :
    (t : ℕ) (c : Cache) (n : ℕ)
    → IsGood c
    → n < buffer_cache_size
    → Keeps t c (record c { clock = n })
clock-Keeps t c n w h = record {
  good = record { size = w.size; clock = h; coherent = w.coherent };
  same_size = refl;
  reads = λ s b r. r;
  absent = λ a. a;
}

pub record Evicted (t : ℕ) (c : Cache) : Type 0 where
  pub slot : ℕ
  pub after : Cache
  pub result : buffer_cache_evict c ≡ some (slot, after)
  pub within : slot < buffer_cache_size
  pub keeps : Keeps t c after
  pub free : (entry_at after.entries slot).occupied ≡ false

-- With a good cache, an eviction comes to an end without a panic and frees a slot. It keeps the
-- cache good and what every sector reads, and gives no entry to the sector `t` if it had none.
pub evict-Evicted : (t : ℕ) (c : Cache) → IsGood c → Evicted t c
unfolding buffer_cache_evict
evict-Evicted t c w =
    let scan =
      clock_scan_stops (λ entries. Keeps t c (record c { entries = entries }))
        (λ entries k h kept.
          Keeps-trans kept (touch-Keeps t (record c { entries = entries }) kept.good k false h))
        c.entries c.clock w.size w.clock (Keeps-refl t c w) in
    let turned =
      Keeps-trans scan.kept (
        clock-Keeps t (record c { entries = scan.entries }) scan.slot scan.kept.good scan.within) in
    let v =
      vacate-Vacated t scan.slot (record c { entries = scan.entries; clock = scan.slot })
        turned.good scan.within in
    record {
      slot = scan.slot;
      after = v.after;
      result = rw (scan.result, buffer_cache_evict, v.result) refl;
      within = scan.within;
      keeps = Keeps-trans turned v.keeps;
      free = v.free;
    }

-- ===== src/Fs/Cache.antt =====
-- a3/fs/cache.c: the buffer cache, a write-back cache of sectors with clock replacement. `none` is a
-- panic. The clock's loop runs on fuel: one more round than there are entries.
pub mod Slots
pub mod Scan
pub mod Coherence
pub mod Contents
pub mod Closing
use comp310_winter.Base.{
  ℕ, zero, suc, ◌+◌, ◌%◌, ◌==◌, not, Bool, true, false, Option, none, some, List, [], ◌∷◌,
  if◌then◌else◌, ◌&&◌, get_or, set, replicate,
}
use comp310_winter.Fs.Block.{Sector, Device, block_read, block_write}

-- `struct buffer_cache_entry_t`
pub record Entry : Type 0 where
  pub occupied : Bool
  pub disk_sector : ℕ
  pub buffer : Sector
  pub dirty : Bool
  pub access : Bool

-- An entry of a cache that was never used.
abbrev pub unused : Entry
unused = record { occupied = false; disk_sector = 0; buffer = []; dirty = false; access = false }

pub record Cache : Type 0 where
  pub entries : List Entry
  pub clock : ℕ
  pub device : Device

abbrev pub buffer_cache_size : ℕ
buffer_cache_size = 64

abbrev pub entry_at : List Entry → ℕ → Entry
entry_at c i = get_or c i unused

unfoldable pub buffer_cache_init : Device → Cache
buffer_cache_init dev = record {
  entries = replicate buffer_cache_size unused;
  clock = 0;
  device = dev;
}

abbrev pub option_bind {ℓ κ} : {A : Type ℓ} {B : Type κ} → Option A → (A → Option B) → Option B
option_bind none f = none
option_bind (some a) f = f a

-- `buffer_cache_flush` on the entry `i`.
unfoldable pub buffer_cache_flush : ℕ → Cache → Option Cache
buffer_cache_flush i c =
    let e = entry_at c.entries i in
    if e.dirty
    then option_bind (block_write e.disk_sector e.buffer c.device) (λ dev.
      some (record c { entries = set c.entries i (record e { dirty = false }); device = dev }))
    else some c

-- The loop of `buffer_cache_close` over the `n` entries from `i` on.
unfoldable pub flush_from : ℕ → ℕ → Cache → Option Cache
flush_from zero i c = some c
flush_from (suc n) i c =
    option_bind (if (entry_at c.entries i).occupied then buffer_cache_flush i c else some c)
      λ c'. flush_from n (i + 1) c'

unfoldable pub buffer_cache_close : Cache → Option Cache
unfolding flush_from
buffer_cache_close c = flush_from buffer_cache_size 0 c

-- `buffer_cache_lookup` over the entries from the index `i` on.
unfoldable pub lookup_from : ℕ → List Entry → ℕ → Option ℕ
lookup_from i [] sector = none
lookup_from i (e ∷ c) sector =
    if e.occupied && (e.disk_sector == sector) then some i else lookup_from (i + 1) c sector

unfoldable pub buffer_cache_lookup : List Entry → ℕ → Option ℕ
unfolding lookup_from
buffer_cache_lookup c sector = lookup_from 0 c sector

-- The loop of `buffer_cache_evict`: the entries, with second chances taken, and the slot where the
-- clock stops. The slot is free, or neither free nor used since the clock last passed it.
unfoldable pub clock_scan : ℕ → List Entry → ℕ → Option (List Entry × ℕ)
clock_scan zero c clock = none
clock_scan (suc fuel) c clock =
    let e = entry_at c clock in
    let rest =
      clock_scan fuel (set c clock (record e { access = false }))
        ((clock + 1) % buffer_cache_size) in
    if not e.occupied then some (c, clock) else if e.access then rest else some (c, clock)

abbrev pub scan_fuel : ℕ
scan_fuel = buffer_cache_size + 1

-- What `buffer_cache_evict` does behind its loop, with the clock at `slot`.
unfoldable pub vacate : ℕ → Cache → Option Cache
unfolding buffer_cache_flush
vacate slot c =
    if not (entry_at c.entries slot).occupied
    then some c
    else option_bind (buffer_cache_flush slot c) λ c'. some (record c' {
      entries = set c'.entries slot (record (entry_at c'.entries slot) { occupied = false });
    })

unfoldable pub buffer_cache_evict : Cache → Option (ℕ × Cache)
unfolding clock_scan vacate
buffer_cache_evict c = option_bind (clock_scan scan_fuel c.entries c.clock) λ (entries, slot).
    option_bind (vacate slot (record c { entries = entries; clock = slot })) λ c'. some (slot, c')

-- The cache entry of a freshly read sector.
unfoldable pub fill : ℕ → ℕ → Cache → Option (ℕ × Cache)
fill sector slot c = option_bind (block_read sector c.device) λ (buffer, dev). some (
  slot,
  record c {
    entries = set c.entries slot (record {
      occupied = true;
      disk_sector = sector;
      buffer = buffer;
      dirty = false;
      access = (entry_at c.entries slot).access;
    });
    device = dev;
  },
)

-- The first part of `buffer_cache_read` and of `buffer_cache_write`: the slot of the sector.
unfoldable pub slot_of : ℕ → Cache → Option (ℕ × Cache)
unfolding buffer_cache_lookup buffer_cache_evict fill
slot_of sector c = elim (buffer_cache_lookup c.entries sector) [
  | some i ↦ some (i, c)
  | none ↦ option_bind (buffer_cache_evict c) λ (slot, c'). fill sector slot c'
]

unfoldable pub buffer_cache_read : ℕ → Cache → Option (Sector × Cache)
unfolding slot_of
buffer_cache_read sector c = option_bind (slot_of sector c) λ (i, c').
    let e = entry_at c'.entries i in
    some (e.buffer, record c' { entries = set c'.entries i (record e { access = true }) })

unfoldable pub buffer_cache_write : ℕ → Sector → Cache → Option Cache
unfolding slot_of
buffer_cache_write sector source c = option_bind (slot_of sector c) λ (i, c').
    let e = entry_at c'.entries i in
    some (record c' {
      entries = set c'.entries i (record e { access = true; dirty = true; buffer = source });
    })

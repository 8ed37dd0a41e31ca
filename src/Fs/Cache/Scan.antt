-- ===== src/Fs/Cache/Scan.antt =====
-- The loops of `buffer_cache_evict` and `buffer_cache_lookup` of a3/fs/cache.c.
use comp310_winter.Base.{
  ℕ, zero, suc, ◌+◌, ◌%◌, ◌≤◌, ◌<◌, ◌≡◌, refl, ◌∙◌, ◌⊎◌, inl, inr, Bool, true, false, none, some,
  List, [], ◌∷◌, arith, ◌==◌, not, if◌then◌else◌, ◌&&◌, Bool-cases, length, set,
}
use comp310_winter.Fs.Cache.{Entry, entry_at, buffer_cache_size, clock_scan, scan_fuel, lookup_from}

abbrev pub cleared : List Entry → ℕ → List Entry
cleared c k = set c k (record (entry_at c k) { access = false })

-- The entries with their reference bit set.
count_access : List Entry → ℕ
count_access [] = 0
count_access (e ∷ c) = if e.access then suc (count_access c) else count_access c

count_access-le : (c : List Entry) → count_access c ≤ length c
unfolding count_access
count_access-le [] = omega arith
count_access-le (e ∷ c) = ground (arith, count_access-le c)

count_access-cleared :
    (c : List Entry) (k : ℕ)
    → (entry_at c k).access ≡ true
    → suc (count_access (cleared c k)) ≡ count_access c
unfolding count_access
count_access-cleared [] k h = cc
count_access-cleared (e ∷ c) zero h = rw h refl
count_access-cleared (e ∷ c) (suc k) h = ground (arith, count_access-cleared c k)

-- The clock stops at a slot that is free or has its reference bit clear. On the way it only clears
-- reference bits, so it keeps whatever that keeps.
pub record Stopped {κ} (P : List Entry → Type κ) (fuel : ℕ) (c : List Entry) (clock : ℕ)
    : Type κ where
  pub entries : List Entry
  pub slot : ℕ
  pub result : clock_scan fuel c clock ≡ some (entries, slot)
  pub within : slot < buffer_cache_size
  pub idle : ((entry_at entries slot).occupied ≡ false) ⊎ ((entry_at entries slot).access ≡ false)
  pub kept : P entries

-- Both bits are set: the slot is passed over.
pass_over {ℓ} :
    {A : Type ℓ} (used recent : Bool) (stop go : A)
    → used ≡ true
    → recent ≡ true
    → (if not used then stop else if recent then go else stop) ≡ go
pass_over used recent stop go u r = ground arith

clock_scan_next :
    (fuel : ℕ) (c : List Entry) (clock : ℕ)
    → (entry_at c clock).occupied ≡ true
    → (entry_at c clock).access ≡ true
    → clock_scan (suc fuel) c clock
      ≡ clock_scan fuel (cleared c clock) ((clock + 1) % buffer_cache_size)
unfolding clock_scan
clock_scan_next fuel c clock used recent =
    pass_over (entry_at c clock).occupied (entry_at c clock).access (some (c, clock))
      (clock_scan fuel (cleared c clock) ((clock + 1) % buffer_cache_size)) used recent

module _ {κ} (P : List Entry → Type κ)
    (clear : (c : List Entry) (k : ℕ) → k < buffer_cache_size → P c → P (cleared c k)) where
  clock_scan-Stopped :
      (fuel : ℕ) (c : List Entry) (clock : ℕ)
      → count_access c < fuel
      → clock < buffer_cache_size
      → P c
      → Stopped P fuel c clock
  unfolding clock_scan
  clock_scan-Stopped zero c clock less in_range p = absurd (omega arith)
  clock_scan-Stopped (suc fuel) c clock less in_range p =
      elim (Bool-cases (entry_at c clock).occupied) [
        | inr free ↦ record {
          entries = c;
          slot = clock;
          result = rw (free, clock_scan) refl;
          within = in_range;
          idle = inl free;
          kept = p;
        }
        | inl used ↦ elim (Bool-cases (entry_at c clock).access) [
          | inr idle ↦ record {
            entries = c;
            slot = clock;
            result = rw (used, clock_scan, idle) refl;
            within = in_range;
            idle = inr idle;
            kept = p;
          }
          | inl recent ↦
              let rest =
                clock_scan-Stopped fuel (cleared c clock) ((clock + 1) % buffer_cache_size)
                  (omega (arith, count_access-cleared c clock recent)) (omega arith)
                  (clear c clock in_range p) in
              record {
                entries = rest.entries;
                slot = rest.slot;
                result = clock_scan_next fuel c clock used recent ∙ rest.result;
                within = rest.within;
                idle = rest.idle;
                kept = rest.kept;
              }
        ]
      ]

-- A sector that is found has an occupied entry there.
pub lookup_from-some :
    (i : ℕ) (c : List Entry) (sector : ℕ) {j : ℕ}
    → lookup_from i c sector ≡ some j
    → (k : ℕ) × (j ≡ i + k)
      × (k < length c)
      × ((entry_at c k).occupied ≡ true)
      × ((entry_at c k).disk_sector ≡ sector)
unfolding lookup_from
lookup_from-some i [] sector e = absurd (ground arith)
lookup_from-some i (x ∷ c) sector {j} e =
    elim (Bool-cases (x.occupied && (x.disk_sector == sector))) [
      | inl hit ↦ (0, ground arith, omega arith, ground arith, ground arith)
      | inr miss ↦
          let (k, at, less, used, found) =
            lookup_from-some (i + 1) c sector {j = j} (ground arith) in
          (suc k, omega arith, omega arith, used, found)
    ]

-- A sector that is not found has none.
pub lookup_from-none :
    (i : ℕ) (c : List Entry) (sector : ℕ)
    → lookup_from i c sector ≡ none
    → (k : ℕ) → (entry_at c k).occupied ≡ true
    → ¬ ((entry_at c k).disk_sector ≡ sector)
unfolding lookup_from
lookup_from-none i [] sector e k used found = cc
lookup_from-none i (x ∷ c) sector e zero used found = ground arith
lookup_from-none i (x ∷ c) sector e (suc k) used found =
    lookup_from-none (i + 1) c sector (ground arith) k used found

-- The fuel that `buffer_cache_evict` is given is enough.
pub clock_scan_stops {κ} :
    (P : List Entry → Type κ)
    → ((c : List Entry) (k : ℕ) → k < buffer_cache_size → P c → P (cleared c k))
    → (c : List Entry) (clock : ℕ) → length c ≡ buffer_cache_size
    → clock < buffer_cache_size
    → P c
    → Stopped P scan_fuel c clock
clock_scan_stops P clear c clock size in_range p =
    clock_scan-Stopped P clear scan_fuel c clock (omega (arith, count_access-le c)) in_range p

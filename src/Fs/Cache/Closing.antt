-- ===== src/Fs/Cache/Closing.antt =====
-- What `buffer_cache_init` starts with and what `buffer_cache_close` leaves on the device.
use comp310_winter.Base.{
  ℕ, zero, suc, ◌+◌, ◌<◌, ◌≡◌, refl, sym, ap, ◌∙◌, inl, inr, Bool, true, false, Option, some, arith,
  ◌==◌, if◌then◌else◌, Bool-cases, length-replicate, get_or-replicate, get_or_out, replicate,
  dec_lt,
}
use mathlib.Core.Path.{subst}
use comp310_winter.Fs.Block.{Sector, Device}
use comp310_winter.Fs.Cache.{
  Entry, unused, Cache, entry_at, buffer_cache_size, buffer_cache_init, option_bind, flush_from,
  buffer_cache_close, buffer_cache_flush,
}
use comp310_winter.Fs.Cache.Coherence.{Reads, IsGood, Keeps, Keeps-refl, Keeps-trans, flush-Keeps}

-- A cache that was just initialised is good, and every sector reads as on the device.
pub buffer_cache_init-IsGood :
    (dev : Device)
    → IsGood (buffer_cache_init dev) × ((s : ℕ) → Reads (buffer_cache_init dev) s (dev.sectors s))
unfolding buffer_cache_init
buffer_cache_init-IsGood dev = (
  record {
    size = length-replicate buffer_cache_size unused;
    clock = omega arith;
    coherent = record {
      distinct = λ i j oi oj e. absurd (idle i oi);
      clean = λ i oi di. absurd (idle i oi);
      bounded = λ i oi. absurd (idle i oi);
    };
  },
  λ s. inr (λ i oi si. idle i oi, refl),
)
  where
    idle : (i : ℕ) → ¬ ((entry_at (replicate buffer_cache_size unused) i).occupied ≡ true)
    idle i = ground (arith, get_or-replicate buffer_cache_size i unused)

-- The entries in front of `i` need no flush.
IsClean : ℕ → Cache → Type 0
IsClean i c =
    (j : ℕ) → j < i → (entry_at c.entries j).occupied ≡ true → (entry_at c.entries j).dirty ≡ false

record Stepped (i : ℕ) (c : Cache) : Type 0 where
  after : Cache
  result : (if (entry_at c.entries i).occupied then buffer_cache_flush i c else some c) ≡ some after
  keeps : Keeps 0 c after
  clean : IsClean (i + 1) after

flush_step : (i : ℕ) (c : Cache) → IsGood c → i < buffer_cache_size → IsClean i c → Stepped i c
unfolding IsClean
flush_step i c w h tidy = elim (Bool-cases (entry_at c.entries i).occupied) [
  | inr free ↦ record {
    after = c;
    result = ground (arith, free);
    keeps = Keeps-refl 0 c w;
    clean = λ j less used. elim (Bool-cases (i == j)) [
      | inl here ↦
          let e : i ≡ j = ground arith in
          absurd (ground (arith, free, ap (λ k. (entry_at c.entries k).occupied) e))
      | inr there ↦ tidy j (ground arith) used
    ];
  }
  | inl used ↦
      let f = flush-Keeps 0 c w i h used in
      record {
        after = f.after;
        result = ap (λ (b : Bool). if b then buffer_cache_flush i c else some c) used ∙ f.result;
        keeps = f.keeps;
        clean = λ j less busy. elim (Bool-cases (i == j)) [
          | inl here ↦
              let e : i ≡ j = ground arith in
              ap (λ k. (entry_at f.after.entries k).dirty) (sym e) ∙ f.tidy
          | inr there ↦
              let same = f.others j (ground arith) in
              ap (λ (x : Entry). x.dirty) same
              ∙ tidy j (ground arith) (sym (ap (λ (x : Entry). x.occupied) same) ∙ busy)
        ];
      }
]

flush_from-IsClean :
    (n i : ℕ) (c : Cache)
    → IsGood c
    → i + n ≡ buffer_cache_size
    → IsClean i c
    → (c' : Cache) × (flush_from n i c ≡ some c') × Keeps 0 c c' × IsClean buffer_cache_size c'
unfolding flush_from
flush_from-IsClean zero i c w h tidy =
    let e : i ≡ buffer_cache_size = omega arith in
    (c, refl, Keeps-refl 0 c w, subst (λ k. IsClean k c) e tidy)
flush_from-IsClean (suc n) i c w h tidy =
    let s = flush_step i c w (omega arith) tidy in
    let (c', result, keeps, all) =
      flush_from-IsClean n (i + 1) s.after s.keeps.good (omega arith) s.clean in
    (
      c',
      ap (λ (r : Option Cache). option_bind r (flush_from n (i + 1))) s.result ∙ result,
      Keeps-trans s.keeps keeps,
      all,
    )

on_device :
    (c' : Cache)
    → IsGood c'
    → IsClean buffer_cache_size c'
    → (s : ℕ) (b : Sector) → Reads c' s b
    → c'.device.sectors s ≡ b
unfolding IsClean
on_device c' w' clean s b (inr (out, e)) = e
on_device c' w' clean s b (inl (i, used, its, e)) = elim (dec_lt i buffer_cache_size) [
  | yes inside ↦ ap c'.device.sectors (sym its) ∙ w'.coherent.clean i used (clean i inside used) ∙ e
  | no outside ↦
      let gone = get_or_out c'.entries i unused (omega (arith, w'.size)) in
      absurd (ground (arith, sym (ap (λ (x : Entry). x.occupied) gone) ∙ used))
]

-- With a good cache, `buffer_cache_close` does not panic, leaves the cache good, and leaves on the
-- device, for every sector, the block that was read from it through the cache.
pub buffer_cache_close-Reads :
    (c : Cache)
    → IsGood c
    → (c' : Cache) × (buffer_cache_close c ≡ some c')
      × IsGood c'
      × ((s : ℕ) (b : Sector) → Reads c s b → c'.device.sectors s ≡ b)
unfolding buffer_cache_close IsClean
buffer_cache_close-Reads c w =
    let (c', result, keeps, clean) =
      flush_from-IsClean buffer_cache_size 0 c w refl (λ j less. absurd (omega arith)) in
    (c', result, keeps.good, λ s b r. on_device c' keeps.good clean s b (keeps.reads s b r))

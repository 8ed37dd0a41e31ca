-- ===== src/A3/Memory/Alloc.antt =====
-- Which frame `frame_alloc` takes, and when it fails.
use comp310_winter.Base.{
  ℕ, zero, suc, ◌+◌, ◌≤◌, ◌<◌, ◌≡◌, refl, sym, ap, ◌∙◌, ◌⊎◌, inl, inr, true, none, some, arith,
  dec_lt, ◌==◌, Bool-cases, Option-cases, Text, same, length, set, get_or-set_ne, set_three,
  get_or-set_three, get_or-set_three_ne,
}
use comp310_winter.Store.{Slot, slot, Memory, none_text, none_slot, slot_at, var_at}
use comp310_winter.A3.Memory.{owned, run_end, find_run, frame_alloc}

module _ (frame_size var_size : ℕ) where
  -- Three free slots in a row, all in the frame store.
  abbrev pub IsFreeRun : ℕ → Memory → Type 0
  IsFreeRun i m =
      (i + 2 < frame_size)
      × (same (var_at m i) none_text ≡ true)
      × (same (var_at m (i + 1)) none_text ≡ true)
      × (same (var_at m (i + 2)) none_text ≡ true)

  run_end-IsFreeRun :
      (i : ℕ) (m : Memory) → (run_end frame_size var_size 3 i m == i + 3) ≡ true → IsFreeRun i m
  unfolding run_end
  run_end-IsFreeRun i m h =
      let e : i + 1 + 1 ≡ i + 2 = omega arith in ground (arith, ap (var_at m) e)

  IsFreeRun-run_end :
      (i : ℕ) (m : Memory) → IsFreeRun i m → (run_end frame_size var_size 3 i m == i + 3) ≡ true
  unfolding run_end
  IsFreeRun-run_end i m h =
      let e : i + 1 + 1 ≡ i + 2 = omega arith in ground (arith, ap (var_at m) e)

  find_run-some :
      (n i : ℕ) (m : Memory) {f : ℕ}
      → find_run frame_size var_size n i m ≡ some f
      → IsFreeRun f m × ((j : ℕ) → i ≤ j → j < f → ¬ IsFreeRun j m)
  unfolding find_run
  find_run-some zero i m e = absurd (ground arith)
  find_run-some (suc n) i m {f} e = elim (Bool-cases (run_end frame_size var_size 3 i m == i + 3)) [
    | inl hit ↦
        let at : f ≡ i = ground arith in
        rw at (run_end-IsFreeRun i m hit, λ j a b. absurd (omega arith))
    | inr miss ↦
        let (run, before) = find_run-some n (i + 1) m {f = f} (ground arith) in
        (
          run,
          λ j a b free. elim (dec_lt i j) [
            | yes p ↦ before j (omega arith) b free
            | no p ↦
                let at : j ≡ i = omega arith in
                ground (arith, IsFreeRun-run_end i m (rw at at free))
          ],
        )
  ]

  find_run-none :
      (n i : ℕ) (m : Memory) (j : ℕ)
      → find_run frame_size var_size n i m ≡ none
      → i ≤ j
      → j < i + n
      → ¬ IsFreeRun j m
  unfolding find_run
  find_run-none zero i m j e a b free = omega arith
  find_run-none (suc n) i m j e a b free = elim (dec_lt i j) [
    | yes p ↦ find_run-none n (i + 1) m j (ground arith) (omega arith) (omega arith) free
    | no p ↦ let at : j ≡ i = omega arith in ground (arith, IsFreeRun-run_end i m (rw at at free))
  ]

  owned_thrice :
      (pid : Text) (m : Memory) (i : ℕ)
      → owned pid (owned pid (owned pid m i) (i + 1)) (i + 2)
        ≡ set_three m i
            (slot pid (slot_at m i).value)
            (slot pid (slot_at m (i + 1)).value)
            (slot pid (slot_at m (i + 2)).value)
  owned_thrice pid m i =
      let one = get_or-set_ne m i (i + 1) (slot pid (slot_at m i).value) none_slot (omega arith) in
      let two =
        get_or-set_ne (owned pid m i) (i + 1) (i + 2)
          (slot pid (slot_at (owned pid m i) (i + 1)).value) none_slot (omega arith)
        ∙ get_or-set_ne m i (i + 2) (slot pid (slot_at m i).value) none_slot (omega arith) in
      ap (λ (x : Slot). owned pid (set (owned pid m i) (i + 1) (slot pid x.value)) (i + 2)) one
      ∙ ap
          (λ (x : Slot).
            set (set (owned pid m i) (i + 1) (slot pid (slot_at m (i + 1)).value)) (i + 2)
              (slot pid x.value))
          (ap (λ (x : Slot). slot_at (set (owned pid m i) (i + 1) (slot pid x.value)) (i + 2))
              (sym one)
            ∙ two)

  -- The frame that was taken: it was the first free run of the frame store, its slots now belong to
  -- the process with their values kept, and no other slot has changed.
  pub record Allocated (pid : Text) (m : Memory) (i : ℕ) (m' : Memory) : Type 0 where
    pub was_free : IsFreeRun i m
    pub first : (j : ℕ) → j < i → ¬ IsFreeRun j m
    pub mine :
        (slot_at m' i ≡ slot pid (slot_at m i).value)
        × (slot_at m' (i + 1) ≡ slot pid (slot_at m (i + 1)).value)
        × (slot_at m' (i + 2) ≡ slot pid (slot_at m (i + 2)).value)
    pub others : (j : ℕ) → (j < i) ⊎ (i + 2 < j) → slot_at m' j ≡ slot_at m j

  -- In a memory with all of its frame store, `frame_alloc` takes the first free run of three slots
  -- of the frame store if there is one, gives its slots to the process and changes no other slot,
  -- and fails exactly if there is none.
  pub frame_alloc-Allocated :
      (pid : Text) (m : Memory)
      → frame_size ≤ length m
      → ((i : ℕ) × (m' : Memory) × (frame_alloc frame_size var_size pid m ≡ some (i, m'))
          × Allocated pid m i m')
        ⊎ ((frame_alloc frame_size var_size pid m ≡ none) × ((j : ℕ) → ¬ IsFreeRun j m))
  unfolding frame_alloc
  frame_alloc-Allocated pid m size =
      elim (Option-cases (find_run frame_size var_size frame_size 0 m)) [
        | inl e ↦ inr (
          rw (e, frame_alloc),
          λ j free. find_run-none frame_size 0 m j e (omega arith) (omega (arith, free.0)) free,
        )
        | inr (i, e) ↦
            let (run, before) = find_run-some frame_size 0 m e in
            inl (
              i,
              _,
              rw (e, frame_alloc, owned_thrice pid m i) refl,
              record {
                was_free = run;
                first = λ j h. before j (omega arith) h;
                mine = get_or-set_three m i _ _ _ none_slot (omega (arith, run.0));
                others = λ j out. get_or-set_three_ne m i _ _ _ none_slot j out;
              },
            )
      ]

-- ===== src/A2/Memory/Oldest.antt =====
-- `getOldest` of a2/shellmemory.c: the search for the frame that was used longest ago.
use comp310_winter.Base.{
  ℕ, zero, suc, ◌+◌, ◌*◌, ◌≤◌, ◌<◌, ◌≡◌, refl, inl, inr, List, arith, ltb, Bool-cases, get_or, ◌⊎◌,
  dec_lt,
}
use comp310_winter.A2.Memory.{older, oldest_from, get_oldest, frame_count}

-- `best` is the age and the index of a frame among the first `k`, and no other of them is older.
pub record IsBest (age : List ℕ) (k : ℕ) (best : ℕ × ℕ) : Type 0 where
  pub which : (j : ℕ) × (best.1 ≡ 3 * j) × ((j < k) ⊎ (j ≡ 0))
  pub its_age : get_or age best.1 0 ≡ best.0
  pub least : (j : ℕ) → j < k → best.0 ≤ get_or age (3 * j) 0
  pub first : (j : ℕ) → j < k → 3 * j < best.1 → best.0 < get_or age (3 * j) 0

older-IsBest :
    (age : List ℕ) (k : ℕ) (best : ℕ × ℕ)
    → IsBest age k best
    → IsBest age (k + 1) (older age (3 * k) best)
unfolding older
older-IsBest age k (oldest, frame) b = elim (Bool-cases (ltb (get_or age (3 * k) 0) oldest)) [
  | inl less ↦ rw less (record {
    which = (k, refl, inl (omega arith));
    its_age = refl;
    least = λ j h. elim (dec_lt j k) [
      | yes p ↦ ground (arith, b.least j p)
      | no p ↦ let e : j ≡ k = omega arith in rw e (omega arith)
    ];
    first = λ j h lt. ground (arith, b.least j (omega arith));
  })
  | inr more ↦ rw more (record {
    which = (b.which.0, b.which.1, omega (arith, b.which.2));
    its_age = b.its_age;
    least = λ j h. elim (dec_lt j k) [
      | yes p ↦ b.least j p
      | no p ↦ let e : j ≡ k = omega arith in rw e (ground arith)
    ];
    first = λ j h lt. elim (dec_lt j k) [
      | yes p ↦ b.first j p lt
      | no p ↦ absurd (omega (arith, b.which.1, b.which.2))
    ];
  })
]

oldest_from-IsBest :
    (n k : ℕ) (age : List ℕ) (best : ℕ × ℕ)
    → IsBest age k best
    → IsBest age (k + n) (oldest_from n (3 * k) age best)
unfolding oldest_from
oldest_from-IsBest zero k age best b = let e : k + 0 ≡ k = omega arith in rw e b
oldest_from-IsBest (suc n) k age best b =
    let e : k + suc n ≡ (k + 1) + n = omega arith in
    let f : 3 * k + 3 ≡ 3 * (k + 1) = omega arith in
    rw (e, f)
      (oldest_from-IsBest n (k + 1) age (older age (3 * k) best) (older-IsBest age k best b))

-- The index is the start of a frame, no frame is older, and every frame in front of it is younger.
pub record IsOldest (age : List ℕ) (frames oldest : ℕ) : Type 0 where
  pub starts : (j : ℕ) × (oldest ≡ 3 * j) × (j < frames)
  pub least : (j : ℕ) → j < frames → get_or age oldest 0 ≤ get_or age (3 * j) 0
  pub first : (j : ℕ) → j < frames → 3 * j < oldest → get_or age oldest 0 < get_or age (3 * j) 0

-- With at least one frame, `get_oldest` returns the first of the frames that were used longest
-- ago.
pub get_oldest-IsOldest :
    (frame_size var_size : ℕ) (age : List ℕ)
    → 0 < frame_size
    → IsOldest age (frame_count frame_size var_size) (get_oldest frame_size var_size age)
unfolding get_oldest
get_oldest-IsOldest frame_size var_size age h = record {
  starts = (b.which.0, b.which.1, omega (arith, b.which.2));
  least = λ j p. rw b.its_age (b.least j (omega arith));
  first = λ j p q. rw b.its_age (b.first j (omega arith) q);
}
  where
    frames : ℕ
    frames = frame_count frame_size var_size

    start : IsBest age 0 (get_or age 0 0, 0)
    start = record {
      which = (0, refl, inr refl);
      its_age = refl;
      least = λ j p. absurd (omega arith);
      first = λ j p q. absurd (omega arith);
    }

    b : IsBest age (0 + frames) (oldest_from frames 0 age (get_or age 0 0, 0))
    b = oldest_from-IsBest frames 0 age (get_or age 0 0, 0) start

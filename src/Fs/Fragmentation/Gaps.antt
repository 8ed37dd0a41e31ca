-- ===== src/Fs/Fragmentation/Gaps.antt =====
-- Which files `fragmentation_degree` of a3/fs/fsutil2.c counts.
use comp310_winter.Base.{
  ℕ, ◌+◌, ◌-◌, ◌%◌, ◌≤◌, ◌<◌, ◌≡◌, refl, ◌↔◌, ltb, Bool, true, false, List, [], ◌∷◌, arith,
  if◌then◌else◌, All,
}
use comp310_winter.Fs.Fragmentation.{gap_after, is_fragmented}

-- A number of a sector that is not one of the last four of 32 bits.
abbrev pub IsSector : ℕ → Type 0
IsSector s = s < 4294967292

-- Each sector follows the one before by at most three.
abbrev pub IsClose : ℕ → List ℕ → Type 0
IsClose previous [] = Unit
IsClose previous (s ∷ ss) = ((previous ≤ s) × (s ≤ previous + 3)) × IsClose s ss

abbrev pub IsContiguous : List ℕ → Type 0
IsContiguous [] = Unit
IsContiguous (s ∷ ss) = IsClose s ss

close_iff :
    (p s : ℕ)
    → IsSector p
    → IsSector s
    → (ltb 3 ((s + 4294967296 - p) % 4294967296) ≡ false) ↔ ((p ≤ s) × (s ≤ p + 3))
close_iff p s hp hs = (λ e. to e, λ h. from h)
  where
    to : ltb 3 ((s + 4294967296 - p) % 4294967296) ≡ false → (p ≤ s) × (s ≤ p + 3)
    to e =
        let small : (s + 4294967296 - p) % 4294967296 ≤ 3 = ground (arith, e) in
        (omega (arith, small, hp, hs), omega (arith, small, hp, hs))

    from : (p ≤ s) × (s ≤ p + 3) → ltb 3 ((s + 4294967296 - p) % 4294967296) ≡ false
    from h =
        let small : (s + 4294967296 - p) % 4294967296 ≤ 3 = omega (arith, h, hp, hs) in
        ground (arith, small)

gap_after_iff :
    (p : ℕ) (ss : List ℕ) → IsSector p → All IsSector ss → (gap_after p ss ≡ false) ↔ IsClose p ss
unfolding gap_after
gap_after_iff p [] hp h = (λ e. tt, λ e. refl)
gap_after_iff p (s ∷ ss) hp (hs, h) =
    both (ltb 3 ((s + 4294967296 - p) % 4294967296)) (gap_after s ss) (close_iff p s hp hs)
      (gap_after_iff s ss hs h)
  where
    both :
        {P Q : Type 0} (a b : Bool)
        → (a ≡ false) ↔ P
        → (b ≡ false) ↔ Q
        → ((if a then true else b) ≡ false) ↔ (P × Q)
    both true b p q = (λ e. cc e, λ h. p.1 h.0)
    both false b p q = (λ e. (p.0 refl, q.0 e), λ h. q.1 h.1)

-- A list of sectors, none of which is one of the last four numbers of 32 bits, is not fragmented
-- exactly when each sector is at most three behind the one before and not before it.
pub is_fragmented_iff :
    (ss : List ℕ) → All IsSector ss → (is_fragmented ss ≡ false) ↔ IsContiguous ss
unfolding is_fragmented
is_fragmented_iff [] h = (λ e. tt, λ e. refl)
is_fragmented_iff (s ∷ ss) (hs, h) = gap_after_iff s ss hs h

-- ===== src/Fs/Fragmentation/Tests.antt =====
-- Three sectors in a row, and a fourth further on.
use comp310_winter.Base.{ℕ, List, [], ◌∷◌, ◌≡◌, refl, ◌↔◌, true, false, arith}
use comp310_winter.Fs.Fragmentation.{is_fragmented}
use comp310_winter.Fs.Fragmentation.Gaps.{IsContiguous, is_fragmented_iff}

abbrev sectors : List ℕ
sectors = 7 ∷ 8 ∷ 11 ∷ 15 ∷ []

is_fragmented_sectors : is_fragmented sectors ≡ true
unfolding is_fragmented
is_fragmented_sectors = refl

is_fragmented_iff_example : (is_fragmented sectors ≡ false) ↔ IsContiguous sectors
is_fragmented_iff_example = is_fragmented_iff sectors (omega arith)

-- ===== src/Store/Extract.antt =====
-- The helpers `match` and `extract`.
use comp310_winter.Base.{
  ℕ, ◌≡◌, ◌≤◌, ◌↔◌, refl, inl, inr, Bool-cases, ==_iff, ==_refl, true, false, [], ◌∷◌, ◌++◌, arith,
  ◌==◌, Text, length,
}
use mathlib.Core.Path.{ap₂}
use comp310_winter.Store.{match_count, match_text, extract}

-- `c` does not occur in the text.
abbrev pub Lacks : ℕ → Text → Type 0
Lacks c [] = Unit {0}
Lacks c (x ∷ s) = ((x == c) ≡ false) × Lacks c s

-- Of `NAME=VALUE`, with no `=` in the name, the value is extracted, whatever it holds.
pub extract-assignment : (k v : Text) → Lacks b'=' k → extract (k ++ (b'=' ∷ v)) ≡ v
unfolding extract
extract-assignment [] v h = refl
extract-assignment (c ∷ k) v h = ground (arith, extract-assignment k v)

match_count-le : (model var : Text) → match_count model var ≤ length var
unfolding match_count
match_count-le model [] = omega arith
match_count-le [] (b ∷ var) = omega arith
match_count-le (a ∷ model) (b ∷ var) = ground (arith, match_count-le model var)

prefix_of_count :
    (model var : Text) → match_count model var ≡ length var → (rest : Text) × (model ≡ var ++ rest)
unfolding match_count
prefix_of_count model [] h = (model, refl)
prefix_of_count [] (b ∷ var) h = absurd (omega arith)
prefix_of_count (a ∷ model) (b ∷ var) h = elim (Bool-cases (a == b)) [
  | inl hit ↦
      let (rest, e) = prefix_of_count model var (ground arith) in
      (rest, ap₂ (λ (x : ℕ) (s : Text). x ∷ s) ((==_iff a b).0 hit) e)
  | inr miss ↦ absurd (ground (arith, match_count-le model var))
]

count_of_prefix : (var rest : Text) → match_count (var ++ rest) var ≡ length var
unfolding match_count
count_of_prefix [] rest = refl
count_of_prefix (b ∷ var) rest = ground (arith, count_of_prefix var rest)

-- `match` holds exactly when `var` is a beginning of `model`.
pub match_text-IsPrefix :
    (model var : Text) → (match_text model var ≡ true) ↔ ((rest : Text) × (model ≡ var ++ rest))
unfolding match_text
match_text-IsPrefix model var = (
  λ h. prefix_of_count model var (ground arith),
  λ r. rw (r.1, count_of_prefix var r.0, ==_refl) refl,
)

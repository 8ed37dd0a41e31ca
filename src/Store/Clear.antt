-- ===== src/Store/Clear.antt =====
-- The loops that free a range of slots.
use comp310_winter.Base.{
  ℕ, zero, suc, ◌+◌, ◌≤◌, ◌<◌, [], ◌∷◌, ◌≡◌, ◌≢◌, refl, sym, ap, ◌∙◌, ◌⊎◌, inl, inr, none, arith,
  ◌==◌, Bool-cases, Option-cases, Text, length, set, length-set, get_or-set_ne,
}
use comp310_winter.Store.{Slot, Memory, none_text, none_slot, slot_at, clear_range, find_var, fetch}
use comp310_winter.Store.Laws.{find_var-some, fetch-none}

pub length-clear_range : (n lo : ℕ) (m : Memory) → length (clear_range n lo m) ≡ length m
unfolding clear_range
length-clear_range zero lo m = refl
length-clear_range (suc n) lo m =
    length-clear_range n (lo + 1) (set m lo none_slot) ∙ length-set m lo none_slot

pub slot_at-clear_outside :
    (n lo : ℕ) (m : Memory) (j : ℕ)
    → (j < lo) ⊎ (lo + n ≤ j)
    → slot_at (clear_range n lo m) j ≡ slot_at m j
unfolding clear_range
slot_at-clear_outside zero lo m j out = refl
slot_at-clear_outside (suc n) lo m j out =
    slot_at-clear_outside n (lo + 1) (set m lo none_slot) j (omega arith)
    ∙ get_or-set_ne m lo j none_slot none_slot (omega arith)

-- Writing a free slot over a slot leaves it free, in bounds or not.
slot_at-set_free : (m : Memory) (i : ℕ) → slot_at (set m i none_slot) i ≡ none_slot
slot_at-set_free [] i = refl
slot_at-set_free (x ∷ m) zero = refl
slot_at-set_free (x ∷ m) (suc i) = slot_at-set_free m i

pub slot_at-clear_inside :
    (n lo : ℕ) (m : Memory) (j : ℕ)
    → lo ≤ j
    → j < lo + n
    → slot_at (clear_range n lo m) j ≡ none_slot
unfolding clear_range
slot_at-clear_inside zero lo m j a b = absurd (omega arith)
slot_at-clear_inside (suc n) lo m j a b = elim (Bool-cases (lo == j)) [
  | inl here ↦
      let e : lo ≡ j = ground arith in
      slot_at-clear_outside n (lo + 1) (set m lo none_slot) j (omega arith)
      ∙ rw e (slot_at-set_free m j)
  | inr there ↦ slot_at-clear_inside n (lo + 1) (set m lo none_slot) j (ground arith) (omega arith)
]

-- No variable is found in a range that was cleared.
pub fetch-clear_range :
    (n lo : ℕ) (m : Memory) (k : Text) → none_text ≢ k → fetch lo n k (clear_range n lo m) ≡ none
fetch-clear_range n lo m k ne = elim (Option-cases (find_var n lo k (clear_range n lo m))) [
  | inl e ↦ fetch-none lo n (clear_range n lo m) k e
  | inr (i, e) ↦
      let at = find_var-some n lo k (clear_range n lo m) e in
      absurd (ne (sym (ap (λ (y : Slot). y.var) (slot_at-clear_inside n lo m i at.0 at.1)) ∙ at.2))
]

-- ===== src/Store.antt =====
-- `struct memory_struct shellmemory[]`, which the three shells share (a1, a2 and a3 shellmemory.c):
-- an array of slots with a variable name and a value, searched by name. The array is a list, and
-- the loops run over the indices `lo`, ..., `lo + n - 1`.
pub mod Laws
pub mod Clear
pub mod Extract
use comp310_winter.Base.{
  ℕ, zero, suc, ◌+◌, ◌-◌, ◌==◌, Bool, true, false, Option, none, some, List, [], ◌∷◌, ◌++◌,
  if◌then◌else◌, Text, codes, same, length, get_or, set,
}

pub record Slot : Type 0 where
  pub var : Text
  pub value : Text

abbrev pub slot : Text → Text → Slot
slot k v = record { var = k; value = v }

-- The name and the value of a free slot.
abbrev pub none_text : Text
none_text = codes "none"

abbrev pub none_slot : Slot
none_slot = slot none_text none_text

abbrev pub Memory : Type 0
Memory = List Slot

abbrev pub slot_at : Memory → ℕ → Slot
slot_at m i = get_or m i none_slot

abbrev pub var_at : Memory → ℕ → Text
var_at m i = (slot_at m i).var

-- `for (i = lo; i < lo + n; i++) if (strcmp(shellmemory[i].var, k) == 0)` up to its first success.
unfoldable pub find_var : ℕ → ℕ → Text → Memory → Option ℕ
find_var zero lo k m = none
find_var (suc n) lo k m =
    let rest = find_var n (lo + 1) k m in if same (var_at m lo) k then some lo else rest

-- The second half of `mem_set_value`: a new variable takes the first free slot, if there is one.
unfoldable pub claim : ℕ → ℕ → Text → Text → Memory → Memory
claim lo n k v m = elim (find_var n lo none_text m) [ none ↦ m | some i ↦ set m i (slot k v) ]

-- `mem_set_value` over the slots from `lo` on.
unfoldable pub assign : ℕ → ℕ → Text → Text → Memory → Memory
unfolding claim
assign lo n k v m = elim (find_var n lo k m) [
  | none ↦ claim lo n k v m
  | some i ↦ set m i (slot (var_at m i) v)
]

-- The search of `mem_get_value`.
unfoldable pub fetch : ℕ → ℕ → Text → Memory → Option Text
fetch lo n k m = elim (find_var n lo k m) [ none ↦ none | some i ↦ some (slot_at m i).value ]

-- `for (i = lo; i < lo + n; i++)` with a body that frees the slot `i`.
unfoldable pub clear_range : ℕ → ℕ → Memory → Memory
clear_range zero lo m = m
clear_range (suc n) lo m = clear_range n (lo + 1) (set m lo none_slot)

-- `match`: the bytes of `var` that stand in `model` at the same place are counted.
match_count : Text → Text → ℕ
match_count model [] = 0
match_count [] (b ∷ var) = 0
match_count (a ∷ model) (b ∷ var) =
    if a == b then suc (match_count model var) else match_count model var

unfoldable pub match_text : Text → Text → Bool
unfolding match_count
match_text model var = match_count model var == length var

-- `extract`: what stands behind the first `=`.
unfoldable pub extract : Text → Text
extract [] = []
extract (c ∷ model) = if c == b'=' then model else extract model

-- ===== src/A3/Memory.antt =====
-- a3/shellmemory.c: `shellmemory` holds the frame store in its first `frame_size` slots and the
-- variables in the `var_size` slots behind it. The two sizes are set when the shell is compiled.
pub mod Alloc
pub mod Vars
use comp310_winter.Base.{
  ℕ, zero, suc, ◌+◌, ◌==◌, ltb, not, Bool, true, false, Option, none, some, List, [], ◌∷◌,
  if◌then◌else◌, Text, codes, same, set, set_three, replicate,
}
use comp310_winter.Store.{
  Memory, slot, none_text, none_slot, slot_at, var_at, assign, fetch, clear_range,
}

unfoldable pub mem_free_at : ℕ → Memory → Memory
mem_free_at pos m = set m pos none_slot

-- `mem_set_value_at`, less the valid bit that it sets.
unfoldable pub mem_set_value_at : ℕ → Text → Text → Memory → Memory
mem_set_value_at pos pid value_in m = set m pos (slot pid value_in)

unfoldable pub mem_get_value_at : ℕ → Memory → Text
mem_get_value_at pos m = (slot_at m pos).value

-- `clear_frame`
unfoldable pub clear_frame : ℕ → Memory → Memory
clear_frame start_pos m = clear_range 3 start_pos m

-- `shellmemory[k].var = strdup(pid)`: the value stays.
abbrev pub owned : Text → Memory → ℕ → Memory
owned pid m k = set m k (slot pid (slot_at m k).value)

module _ (frame_size var_size : ℕ) where
  unfoldable pub mem_init : Memory
  mem_init = replicate (frame_size + var_size) none_slot

  unfoldable pub mem_set_value : Text → Text → Memory → Memory
  mem_set_value var_in value_in m = assign frame_size var_size var_in value_in m

  -- `mem_get_value`: what an unknown variable gives depends on the caller.
  unfoldable pub mem_get_value : Text → ℕ → Memory → Text
  mem_get_value var_in caller m = elim (fetch frame_size var_size var_in m) [
    | none ↦ if caller == b'p' then codes "Variable does not exist" else []
    | some v ↦ v
  ]

  unfoldable pub reset_var_zone : Memory → Memory
  reset_var_zone m = clear_range var_size frame_size m

  -- The inner loop of `frame_alloc` from `j` on, at most `n` rounds: the index where it stops.
  unfoldable pub run_end : ℕ → ℕ → Memory → ℕ
  run_end zero j m = j
  run_end (suc n) j m =
      let rest = run_end n (j + 1) m in
      if ltb j frame_size then (if not (same (var_at m j) none_text) then j else rest) else j

  -- The outer loop from `i` on: the first place with three free slots in a row.
  unfoldable pub find_run : ℕ → ℕ → Memory → Option ℕ
  unfolding run_end
  find_run zero i m = none
  find_run (suc n) i m =
      let rest = find_run n (i + 1) m in if run_end 3 i m == i + 3 then some i else rest

  -- `frame_alloc`: the first index of the frame, and the memory where its slots have an owner. The
  -- other two entries of `index` follow it and the valid bits are 0.
  unfoldable pub frame_alloc : Text → Memory → Option (ℕ × Memory)
  unfolding find_run
  frame_alloc pid m = elim (find_run frame_size 0 m) [
    | none ↦ none
    | some i ↦ some (i, owned pid (owned pid (owned pid m i) (i + 1)) (i + 2))
  ]

-- ===== src/A1/Memory.antt =====
-- a1/shellmemory.c: one array of 1000 slots, all of them for variables.
use comp310_winter.Base.{ℕ, ◌≤◌, ◌≡◌, ◌≢◌, none, some, Text, codes, length, replicate, arith}
use comp310_winter.Store.{Memory, none_text, none_slot, assign, fetch}
use comp310_winter.Store.Laws.{HasRoom, fetch-assign, fetch-assign_ne}

abbrev pub memory_size : ℕ
memory_size = 1000

unfoldable pub mem_init : Memory
mem_init = replicate memory_size none_slot

abbrev pub missing_text : Text
missing_text = codes "Variable does not exist"

unfoldable pub mem_set_value : Text → Text → Memory → Memory
mem_set_value var_in value_in m = assign 0 memory_size var_in value_in m

unfoldable pub mem_get_value : Text → Memory → Text
mem_get_value var_in m = elim (fetch 0 memory_size var_in m) [ none ↦ missing_text | some v ↦ v ]

-- What is set for a variable is read back, if the store has all its slots and a place for the
-- variable.
pub mem_get_value-set_value :
    (k v : Text) (m : Memory)
    → memory_size ≤ length m
    → HasRoom 0 memory_size m k
    → mem_get_value k (mem_set_value k v m) ≡ v
unfolding mem_get_value mem_set_value
mem_get_value-set_value k v m size room = ground (arith, fetch-assign 0 memory_size m k v size room)

-- Setting one variable leaves every other variable not called `none` as it was, whether there was
-- a place or not, if the store has all its slots.
pub mem_get_value-set_ne :
    (k v j : Text) (m : Memory)
    → memory_size ≤ length m
    → k ≢ j
    → none_text ≢ j
    → mem_get_value j (mem_set_value k v m) ≡ mem_get_value j m
unfolding mem_get_value mem_set_value
mem_get_value-set_ne k v j m size ne free =
    ground (arith, fetch-assign_ne 0 memory_size m k v j size ne free)

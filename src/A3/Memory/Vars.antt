-- ===== src/A3/Memory/Vars.antt =====
-- The variables of the third shell.
use comp310_winter.Base.{
  ℕ, ◌+◌, ◌≤◌, ◌<◌, ◌≡◌, ◌≢◌, inl, Text, codes, length, arith, ◌==◌, if◌then◌else◌, [],
}
use comp310_winter.Store.{Memory, none_text, slot_at}
use comp310_winter.Store.Laws.{HasRoom, fetch-assign, fetch-assign_ne, slot_at-assign_outside}
use comp310_winter.Store.Clear.{fetch-clear_range}
use comp310_winter.A3.Memory.{mem_set_value, mem_get_value, reset_var_zone}

module _ (frame_size var_size : ℕ) where
  -- Setting a variable that has a place, in a memory with all its slots, writes it for every
  -- reader, changes no other variable that is not called `none`, and leaves every slot of the
  -- frame store as it was.
  pub mem_get_value-mem_set_value :
      (k v : Text) (caller : ℕ) (m : Memory)
      → frame_size + var_size ≤ length m
      → HasRoom frame_size var_size m k
      → (mem_get_value frame_size var_size k caller (mem_set_value frame_size var_size k v m) ≡ v)
        × ((j : Text)
            → k ≢ j
            → none_text ≢ j
            → mem_get_value frame_size var_size j caller (mem_set_value frame_size var_size k v m)
              ≡ mem_get_value frame_size var_size j caller m)
        × ((i : ℕ)
            → i < frame_size
            → slot_at (mem_set_value frame_size var_size k v m) i ≡ slot_at m i)
  unfolding mem_get_value mem_set_value
  mem_get_value-mem_set_value k v caller m size room = (
    ground (arith, fetch-assign frame_size var_size m k v size room),
    λ j ne free. ground (arith, fetch-assign_ne frame_size var_size m k v j size ne free),
    λ i h. slot_at-assign_outside frame_size var_size m k v i (inl h),
  )

  -- After the variables are reset none is found but `none`: a reader gets the message for `print`
  -- and an empty text otherwise.
  pub mem_get_value-reset :
      (k : Text) (caller : ℕ) (m : Memory)
      → none_text ≢ k
      → mem_get_value frame_size var_size k caller (reset_var_zone frame_size var_size m)
        ≡ (if caller == b'p' then codes "Variable does not exist" else [])
  unfolding mem_get_value reset_var_zone
  mem_get_value-reset k caller m ne = ground (arith, fetch-clear_range var_size frame_size m k ne)

-- ===== src/A3/Commands.antt =====
-- The parts of a3/interpreter.c that build strings: the value of `set`, the copy of a script in the
-- backing store, and the buffers of `write` and `find_file`. A write outside a buffer is a fault.
pub mod Staging
pub mod Buffers
use comp310_winter.Base.{
  ℕ, zero, suc, ◌+◌, ◌-◌, ◌==◌, ltb, leb, not, ◌&&◌, ◌||◌, Bool, true, false, Option, none, some,
  List, [], ◌∷◌, ◌++◌, if◌then◌else◌, Text, codes, set, length, replicate,
}

-- `isalnum` in the locale "C"
unfoldable pub is_alnum : ℕ → Bool
is_alnum c = (leb 48 c && leb c 57) || (leb 65 c && leb c 90) || (leb 97 c && leb c 122)

abbrev pub all_alnum : Text → Bool
all_alnum [] = true
all_alnum (c ∷ s) = is_alnum c && all_alnum s

-- `isAlphaNumStr`: not of the empty string.
unfoldable pub is_alpha_num_str : Text → Bool
is_alpha_num_str [] = false
is_alpha_num_str (c ∷ s) = all_alnum (c ∷ s)

-- The loop of `echo` over the ends of a string.
unfoldable pub ends_alpha_num : Text → Bool
unfolding is_alpha_num_str
ends_alpha_num [] = true
ends_alpha_num (c ∷ s) = is_alpha_num_str (c ∷ s) && ends_alpha_num s

-- The value of `set`, a token that is refused, or a write behind the 505 bytes of the buffer.
pub data Built : Type 0 where
  built : Text → Built
  refused : Built
  overflow : Built

abbrev pub in_buffer : Text → Built → Built
in_buffer s b = if ltb (length s) 505 then b else overflow

-- The loop of `set` over the further tokens.
unfoldable pub set_value : Text → List Text → Built
unfolding is_alpha_num_str
set_value buffer [] = built buffer
set_value buffer (w ∷ []) =
    if is_alpha_num_str w then in_buffer (buffer ++ w) (built (buffer ++ w)) else refused
set_value buffer (w ∷ v ∷ ws) =
    let rest = set_value (buffer ++ w ++ codes " ") (v ∷ ws) in
    if is_alpha_num_str w then in_buffer (buffer ++ w ++ codes " ") rest else refused

-- `old_name`: the script with as many letters `a` behind it as scripts were staged so far.
unfoldable pub old_name : ℕ → Text → Text
old_name new_name_count script = script ++ replicate new_name_count b'a'

unfoldable pub new_name : ℕ → Text → Text
unfolding old_name
new_name new_name_count script = codes "./backing_store/" ++ old_name new_name_count script

-- `cmd`, the longest of the three strings, each in an array of 100 bytes.
unfoldable pub copy_command : ℕ → Text → Text
unfolding new_name
copy_command new_name_count script =
    codes "cp ./" ++ script ++ codes " " ++ new_name new_name_count script

unfoldable pub stage_fits : ℕ → Text → Bool
unfolding copy_command
stage_fits new_name_count script = ltb (length (copy_command new_name_count script)) 100

-- The bytes are written from `pos` on, or outside the buffer.
unfoldable pub put_bytes : ℕ → Text → List ℕ → Option (List ℕ)
put_bytes pos [] buf = some buf
put_bytes pos (c ∷ s) buf = elim (ltb pos (length buf)) [
  | true ↦ put_bytes (pos + 1) s (set buf pos c)
  | false ↦ none
]

-- `strcpy(buf + pos, s)`
unfoldable pub strcpy : ℕ → Text → List ℕ → Option (List ℕ)
unfolding put_bytes
strcpy pos s buf = put_bytes pos (s ++ (0 ∷ [])) buf

-- The loop of `write` and `find_file` that copies the tokens.
unfoldable pub copy_tokens : ℕ → List Text → List ℕ → Option (ℕ × List ℕ)
unfolding strcpy
copy_tokens current_ind [] buf = some (current_ind, buf)
copy_tokens current_ind (w ∷ ws) buf = elim (strcpy current_ind w buf) [
  | none ↦ none
  | some buf' ↦ elim (strcpy (current_ind + length w) (codes " ") buf') [
    | none ↦ none
    | some buf'' ↦ copy_tokens (current_ind + length w + 1) ws buf''
  ]
]

-- `size += strlen(...)` over the tokens.
unfoldable pub sum_lengths : List Text → ℕ
sum_lengths [] = 0
sum_lengths (w ∷ ws) = length w + sum_lengths ws

-- What `write` adds for the tokens is `args_size - 1`, what `find_file` adds is `args_size`: one more than
-- there are tokens in the buffer.
unfoldable pub buffer_size : List Text → ℕ
unfolding sum_lengths
buffer_size ws = sum_lengths ws + (length ws + 1)

unfoldable pub token_buffer : List Text → Option (List ℕ)
unfolding copy_tokens buffer_size
token_buffer ws = elim (copy_tokens 0 ws (replicate (buffer_size ws) 0)) [
  | none ↦ none
  | some (current_ind, buf) ↦ put_bytes (current_ind - 1) (0 ∷ []) buf
]

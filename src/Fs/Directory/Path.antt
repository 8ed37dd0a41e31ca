-- ===== src/Fs/Directory/Path.antt =====
-- `split_path_filename` of a3/fs/directory.c. A path is a C string; `strtok_r` gives its parts between
-- the slashes, without the empty ones.
pub mod Split
use comp310_winter.Base.{
  ℕ, ◌==◌, Bool, true, false, List, [], ◌∷◌, ◌++◌, if◌then◌else◌, Text, codes,
}

abbrev pub slash : ℕ
slash = 47

abbrev pub is_empty : Text → Bool
is_empty [] = true
is_empty (c ∷ s) = false

-- The tokens of a text behind the characters `token` of one that has begun.
unfoldable pub tokens_from : Text → Text → List Text
tokens_from token [] = if is_empty token then [] else token ∷ []
tokens_from token (c ∷ s) =
    let next = tokens_from [] s in
    let more = tokens_from (token ++ (c ∷ [])) s in
    if c == slash then (if is_empty token then next else token ∷ next) else more

-- The results of `strtok_r` with the separator `/`.
unfoldable pub tokens : Text → List Text
unfolding tokens_from
tokens s = tokens_from [] s

abbrev pub is_absolute : Text → Bool
is_absolute [] = false
is_absolute (c ∷ s) = c == slash

-- The loop over the tokens: the directory so far, and the last token.
unfoldable pub split_loop : Text → Text → List Text → Text × Text
split_loop dir last_token [] = (dir, last_token)
split_loop dir last_token (token ∷ ts) =
    split_loop (if is_empty last_token then dir else dir ++ (last_token ++ (slash ∷ []))) token ts

-- The directory and the file name.
unfoldable pub split_path_filename : Text → Text × Text
unfolding split_loop tokens
split_path_filename path = split_loop (if is_absolute path then slash ∷ [] else []) [] (tokens path)

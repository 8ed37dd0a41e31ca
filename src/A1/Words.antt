-- ===== src/A1/Words.antt =====
-- a1/shell.c, `parseInput`: how a line is cut into words. A line ends before its NUL. Where the line has
-- no room in its 1000 bytes, or the words none in `tmp` and `words`, the result is `none`.
use comp310_winter.Base.{
  ℕ, ◌==◌, ltb, ◌||◌, ◌&&◌, Bool, true, false, Option, none, some, List, [], ◌∷◌, ◌++◌, Text,
  length, if◌then◌else◌,
}

-- What ends a word.
unfoldable pub is_separator : ℕ → Bool
is_separator c = (c == b';') || (c == b'\n') || (c == b' ')

unfoldable pub skip_spaces : Text → Text
skip_spaces [] = []
skip_spaces (c ∷ s) = elim (c == b' ') [ true ↦ skip_spaces s | false ↦ c ∷ s ]

-- The loops of `parseInput`: the outer loop's test with `none`, the inner loop with the word so far.
unfoldable pub split_from : Option Text → Text → List Text
unfolding is_separator
split_from none [] = []
split_from none (c ∷ s) = elim (c == b'\n') [
  | true ↦ []
  | false ↦ elim (is_separator c) [
    | true ↦ [] ∷ split_from none s
    | false ↦ split_from (some (c ∷ [])) s
  ]
]
split_from (some word) [] = word ∷ []
split_from (some word) (c ∷ s) = elim (is_separator c) [
  | true ↦ word ∷ split_from none s
  | false ↦ split_from (some (word ++ (c ∷ []))) s
]

-- Every word fits `tmp`, with its NUL.
unfoldable pub short_words : List Text → Bool
short_words [] = true
short_words (word ∷ words) = ltb (length word) 200 && short_words words

-- The words fit `tmp` and `words`.
unfoldable pub fits_buffers : List Text → Bool
unfolding short_words
fits_buffers words = short_words words && ltb (length words) 101

unfoldable pub words_of : Text → Option (List Text)
unfolding skip_spaces split_from fits_buffers
words_of ui =
    let words = split_from none (skip_spaces ui) in
    if ltb (length ui) 1000 && fits_buffers words then some words else none

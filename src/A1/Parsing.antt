-- ===== src/A1/Parsing.antt =====
-- `parseInput` of a1/shell.c on lines of plain words.
use mathlib.Core.List.{append-nil, append_assoc}
use comp310_winter.Base.{
  ℕ, ◌≡◌, refl, ap, ◌∙◌, true, false, none, some, List, [], ◌∷◌, ◌++◌, arith, ◌==◌, Text, ltb,
  length, ◌&&◌, if◌then◌else◌,
}
use comp310_winter.A1.Words.{
  is_separator, skip_spaces, split_from, short_words, fits_buffers, words_of,
}

-- No byte of the word ends a word.
abbrev pub IsWord : Text → Type 0
IsWord [] = Unit {0}
IsWord (c ∷ w) = (is_separator c ≡ false) × IsWord w

-- A word, and it is not empty.
abbrev pub IsPlain : Text → Type 0
IsPlain [] = ⊥
IsPlain (c ∷ w) = (is_separator c ≡ false) × IsWord w

-- The words with one space between any two, and the newline.
abbrev pub line_of : Text → List Text → Text
line_of w [] = w ++ (b'\n' ∷ [])
line_of w (v ∷ ws) = w ++ (b' ' ∷ line_of v ws)

abbrev pub ArePlain : List Text → Type 0
ArePlain [] = Unit {0}
ArePlain (w ∷ ws) = IsPlain w × ArePlain ws

-- The first byte of a word does not end the line.
pub not_newline : (c : ℕ) → is_separator c ≡ false → (c == b'\n') ≡ false
unfolding is_separator
not_newline c h = ground arith

not_space : (c : ℕ) → is_separator c ≡ false → (c == b' ') ≡ false
unfolding is_separator
not_space c h = ground arith

split_from_stop :
    (word rest : Text) (c : ℕ)
    → is_separator c ≡ true
    → split_from (some word) (c ∷ rest) ≡ word ∷ split_from none rest
unfolding split_from
split_from_stop word rest c e = ground arith

split_from_more :
    (word rest : Text) (c : ℕ)
    → is_separator c ≡ false
    → split_from (some word) (c ∷ rest) ≡ split_from (some (word ++ (c ∷ []))) rest
unfolding split_from
split_from_more word rest c e = ground arith

split_from_start :
    (c : ℕ) (rest : Text)
    → is_separator c ≡ false
    → split_from none (c ∷ rest) ≡ split_from (some (c ∷ [])) rest
unfolding split_from
split_from_start c rest e = ground arith

pub skip_spaces_stop :
    (c : ℕ) (rest : Text) → is_separator c ≡ false → skip_spaces (c ∷ rest) ≡ c ∷ rest
unfolding skip_spaces
skip_spaces_stop c rest e = ground (arith, not_space c e)

split_from-word :
    (word w rest : Text) (c : ℕ)
    → IsWord w
    → is_separator c ≡ true
    → split_from (some word) (w ++ (c ∷ rest)) ≡ (word ++ w) ∷ split_from none rest
unfolding split_from
split_from-word word [] rest c h e = rw (append-nil word, split_from_stop word rest c e) refl
split_from-word word (d ∷ w) rest c h e =
    split_from_more word (w ++ (c ∷ rest)) d h.0
    ∙ (split_from-word (word ++ (d ∷ [])) w rest c h.1 e
        ∙ ap (λ x. x ∷ split_from none rest) (append_assoc word (d ∷ []) w))

split_from-plain :
    (w rest : Text) (c : ℕ)
    → IsPlain w
    → is_separator c ≡ true
    → split_from none (w ++ (c ∷ rest)) ≡ w ∷ split_from none rest
unfolding split_from
split_from-plain [] rest c h e = absurd h
split_from-plain (d ∷ w) rest c h e =
    split_from_start d (w ++ (c ∷ rest)) h.0 ∙ split_from-word (d ∷ []) w rest c h.1 e

split_from-line_of :
    (w : Text) (ws : List Text) → IsPlain w → ArePlain ws → split_from none (line_of w ws) ≡ w ∷ ws
unfolding split_from is_separator
split_from-line_of w [] h hs = split_from-plain w [] b'\n' h refl
split_from-line_of w (v ∷ ws) h hs =
    split_from-plain w (line_of v ws) b' ' h refl
    ∙ ap (λ rest. w ∷ rest) (split_from-line_of v ws hs.0 hs.1)

pub skip_spaces-plain : (w rest : Text) → IsPlain w → skip_spaces (w ++ rest) ≡ w ++ rest
unfolding skip_spaces
skip_spaces-plain [] rest h = absurd h
skip_spaces-plain (c ∷ w) rest h = skip_spaces_stop c (w ++ rest) h.0

pub skip_spaces-line_of :
    (w : Text) (ws : List Text) → IsPlain w → skip_spaces (line_of w ws) ≡ line_of w ws
skip_spaces-line_of w [] h = skip_spaces-plain w (b'\n' ∷ []) h
skip_spaces-line_of w (v ∷ ws) h = skip_spaces-plain w (b' ' ∷ line_of v ws) h

-- A line of words without separators, with one space between any two and a newline behind the
-- last, is cut into these words exactly if it has less than 1000 bytes, every word has less than
-- 200 and there are at most 100 words; else an array is overrun.
pub words_of-line_of :
    (w : Text) (ws : List Text)
    → IsPlain w
    → ArePlain ws
    → words_of (line_of w ws) ≡ (
        if ltb (length (line_of w ws)) 1000 && (short_words (w ∷ ws) && ltb (length (w ∷ ws)) 101)
        then some (w ∷ ws)
        else none)
unfolding words_of fits_buffers
words_of-line_of w ws h hs =
    ap
      (λ words. if ltb (length (line_of w ws)) 1000 && fits_buffers words then some words else none)
      (ap (split_from none) (skip_spaces-line_of w ws h) ∙ split_from-line_of w ws h hs)

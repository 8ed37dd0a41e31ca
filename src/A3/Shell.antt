-- ===== src/A3/Shell.antt =====
-- a3/shell.c, `parseInput`: a line is cut at `;` by `strtok`, each part at its spaces, and each part is
-- given to the interpreter, a parameter. A line has at most 998 bytes, so a part fits its buffer.
pub mod Lines
use comp310_winter.Base.{
  ℕ, ◌==◌, ltb, not, Bool, true, false, Option, none, some, List, [], ◌∷◌, ◌++◌, if◌then◌else◌,
  Text, length, map,
}

-- `strtok` with the delimiter `;`: parts that are empty are passed over. With `some` a part has begun.
unfoldable pub tokens_from : Option Text → Text → List Text
tokens_from none [] = []
tokens_from none (c ∷ s) = elim (c == b';') [
  | true ↦ tokens_from none s
  | false ↦ tokens_from (some (c ∷ [])) s
]
tokens_from (some t) [] = t ∷ []
tokens_from (some t) (c ∷ s) = elim (c == b';') [
  | true ↦ t ∷ tokens_from none s
  | false ↦ tokens_from (some (t ++ (c ∷ []))) s
]

unfoldable pub skip_spaces : Text → Text
skip_spaces [] = []
skip_spaces (c ∷ s) = elim (c == b' ') [ true ↦ skip_spaces s | false ↦ c ∷ s ]

-- The loop over the words of a part: a space behind a space gives an empty word.
unfoldable pub words_from : Option Text → Text → List Text
words_from none [] = []
words_from none (c ∷ s) = elim (c == b' ') [
  | true ↦ [] ∷ words_from none s
  | false ↦ words_from (some (c ∷ [])) s
]
words_from (some w) [] = w ∷ []
words_from (some w) (c ∷ s) = elim (c == b' ') [
  | true ↦ w ∷ words_from none s
  | false ↦ words_from (some (w ++ (c ∷ []))) s
]

unfoldable pub words_of : Text → List Text
unfolding skip_spaces words_from
words_of token = words_from none (skip_spaces token)

-- What a command returns, `none` for -1, with the shell behind it. A command may also end the shell by
-- `exit(99)`, write outside of an array such as `words`, or have no fuel left.
pub data Outcome (S : Type 0) : Type 0 where
  returned : Option ℕ → S → Outcome S
  exited : Outcome S
  fault : Outcome S
  out_of_fuel : Outcome S

module _ {S : Type 0} (interpreter : List Text → S → Outcome S) where
  -- The loop of `parseInput` over the parts, with what the last command returned. `strtok` keeps one
  -- place: a command that has lines parsed, as a script's are, leaves no further part of this line. (A
  -- script's last line with parts behind a `quit` would leave those; they are taken to be dropped.)
  unfoldable pub run_tokens : (S → Bool) → Option ℕ → List (List Text) → S → Outcome S
  run_tokens moved_on ret [] s = returned ret s
  run_tokens moved_on ret (words ∷ rest) s = elim (ltb (length words) 101) [
    | false ↦ fault
    | true ↦ elim (interpreter words s) [
      | exited ↦ exited
      | fault ↦ fault
      | out_of_fuel ↦ out_of_fuel
      | returned code s' ↦ elim code [
        | none ↦ returned none s'
        | some n ↦ elim (moved_on s') [
          | true ↦ returned (some n) s'
          | false ↦ run_tokens moved_on (some n) rest s'
        ]
      ]
    ]
  ]

  -- `parseInput`; `lines` is how many lines were parsed so far.
  unfoldable pub parse_input : (S → ℕ) → Text → S → Outcome S
  unfolding run_tokens tokens_from words_of
  parse_input lines ui s =
      run_tokens (λ s'. not (lines s' == lines s)) (some 0) (map words_of (tokens_from none ui)) s

-- ===== src/A2/Shell.antt =====
-- a2/shell.c, `parseInput`: a line of commands that `;` separates. Its loop runs on fuel, and so do the
-- scripts that scripts run.
pub mod Lines
use comp310_winter.Base.{
  ℕ, zero, suc, ◌+◌, ◌==◌, ltb, ◌&&◌, Bool, true, false, Option, none, some, List, [], ◌∷◌, ◌++◌,
  if◌then◌else◌, Text, length,
}
use comp310_winter.A1.Words.{is_separator, skip_spaces}
use comp310_winter.A2.Kernel.{Kernel, Run, ok, fault, out_of_fuel, ◌>>=◌, schedule_by_policy}
use comp310_winter.A2.Interpreter.{Os, interpreter}

-- The bytes up to a separator or the end, and the rest from there on.
unfoldable pub take_word : Text → Text × Text
take_word [] = ([], [])
take_word (c ∷ s) = elim (is_separator c) [
  | true ↦ ([], c ∷ s)
  | false ↦ let (w, rest) = take_word s in (c ∷ w, rest)
]

-- `words[w] = strdup(tmp)`: the word goes behind those of this command, or over one that an earlier
-- command of the line left there.
unfoldable pub put_word : List Text → ℕ → Text → List Text
put_word [] w tmp = tmp ∷ []
put_word (x ∷ words) zero tmp = tmp ∷ words
put_word (x ∷ words) (suc w) tmp = x ∷ put_word words w tmp

abbrev pub tail : Text → Text
tail [] = []
tail (c ∷ s) = s

-- The byte that ended the word is `;`.
abbrev pub at_semicolon : Text → Bool
at_semicolon [] = false
at_semicolon (c ∷ s) = c == b';'

abbrev pub at_end : Text → Bool
at_end [] = true
at_end (c ∷ s) = c == b'\n'

abbrev pub is_empty : Text → Bool
is_empty [] = true
is_empty (c ∷ s) = false

module _ (interpret : List Text → ℕ → Kernel → Run ℕ) where
  -- The rest of the loop's body, behind the copy of a word to `tmp`, with `again` the next round.
  unfoldable pub word_taken :
      (List Text → ℕ → Text → Kernel → Run ℕ) → List Text → ℕ → Text → Text → Kernel → Run ℕ
  unfolding put_word
  word_taken again words w tmp rest k = elim (is_empty tmp) [
    | true ↦ again words w rest k
    | false ↦ elim (ltb (length tmp) 200 && ltb w 100) [
      | false ↦ fault
      | true ↦ elim (at_semicolon rest) [
        | true ↦ interpret (put_word words w tmp) (w + 1) k >>= λ _ k'.
            again (put_word words w tmp) 0 (skip_spaces (tail rest)) k'
        | false ↦ again (put_word words w tmp) (w + 1) (tail rest) k
      ]
    ]
  ]

  -- The loop of `parseInput` from the byte where `ui` begins, with `w` words of the command taken.
  unfoldable pub parse_from : ℕ → List Text → ℕ → Text → Kernel → Run ℕ
  unfolding word_taken take_word
  parse_from zero words w ui k = out_of_fuel
  parse_from (suc n) words w ui k = elim (at_end ui) [
    | true ↦ interpret words w k
    | false ↦ elim (is_empty (skip_spaces ui)) [
      | true ↦ interpret words w k
      | false ↦
          let (tmp, rest) = take_word (skip_spaces ui) in
          word_taken (parse_from n) words w tmp rest k
    ]
  ]

  unfoldable pub parse_input : ℕ → Text → Kernel → Run ℕ
  unfolding parse_from skip_spaces
  parse_input n ui k = parse_from n [] 0 (skip_spaces ui) k

module _ (frame_size var_size : ℕ) (os : Os) (fuel : ℕ) where
  -- `parseInput` with the interpreter and the schedulers behind it, which run the lines of scripts by
  -- `parseInput` again. `depth` bounds how deep.
  unfoldable pub shell : ℕ → Text → Kernel → Run ℕ
  unfolding parse_input interpreter schedule_by_policy
  shell zero ui k = out_of_fuel
  shell (suc depth) ui k =
      parse_input
        (interpreter frame_size var_size os
          (schedule_by_policy frame_size var_size (shell depth) fuel))
        fuel ui k

-- ===== src/A1/Interpreter.antt =====
-- a1/interpreter.c: the commands, and a1/shell.c's `parseInput`, which hands them a line. What the
-- operating system does is a parameter. A script may run scripts, so `run` has a depth as its fuel.
use comp310_winter.Base.{
  ℕ, zero, suc, ◌+◌, ◌==◌, ltb, Bool, true, false, Option, none, some, List, [], ◌∷◌, ◌++◌,
  if◌then◌else◌, ◌||◌, map, Text, codes, same, length, get_or,
}
use comp310_winter.Store.{Memory}
use comp310_winter.Stdio.{Stream, at_start, fgets}
use comp310_winter.A1.Memory.{missing_text, mem_set_value, mem_get_value}
use comp310_winter.A1.Words.{words_of}

-- `system`, `fopen` for reading and for writing, and `chdir`. A failure to open is `none`.
pub record Os (W : Type 0) : Type 0 where
  pub system : Text → W → ℕ × W
  pub open_read : Text → W → Option Text
  pub create : Text → W → Option W
  pub chdir : Text → W → Bool × W

pub record Shell (W : Type 0) : Type 0 where
  pub memory : Memory
  pub printed : List Text
  pub world : W

-- A command returns its error code, ends the shell, or leaves the bounds of an array; a script that
-- is nested too deeply is out of fuel.
pub data Outcome (W : Type 0) : Type 0 where
  returned : ℕ → Shell W → Outcome W
  exited : Shell W → Outcome W
  fault : Outcome W
  out_of_fuel : Outcome W

abbrev pub max_args_size : ℕ
max_args_size = 7

abbrev pub arg : List Text → ℕ → Text
arg args i = get_or args i []

-- `command_args[i][strcspn(command_args[i], "\r\n")] = 0`
unfoldable pub strip : Text → Text
strip [] = []
strip (c ∷ s) = if (c == b'\r') || (c == b'\n') then [] else c ∷ strip s

-- `strcat` of the further arguments, each behind a space, onto the third argument, whose block holds
-- `room` bytes and a NUL: `strdup` made it for the word, of which a part may have been stripped.
-- `none` is a write behind the block.
unfoldable pub append_all : ℕ → Text → List Text → Option Text
append_all room value [] = some value
append_all room value (a ∷ args) =
    let longer = value ++ codes " " ++ a in
    elim (ltb room (length longer)) [ true ↦ none | false ↦ append_all room longer args ]

-- The arguments from the fourth on.
abbrev pub drop_three : List Text → List Text
drop_three [] = []
drop_three (a ∷ []) = []
drop_three (a ∷ b ∷ []) = []
drop_three (a ∷ b ∷ c ∷ args) = args

-- The first word of the table of commands that `help` prints; the rest is left out.
abbrev pub help_text : Text
help_text = codes "COMMAND"

module _ {W : Type 0} where
  abbrev pub print_line : Text → Shell W → Shell W
  print_line line s = record s { printed = s.printed ++ (line ∷ []) }

  unfoldable pub badcommand : Shell W → Outcome W
  badcommand s = returned 1 (print_line (codes "Unknown Command") s)

  unfoldable pub badsetcommand : Shell W → Outcome W
  badsetcommand s = returned 1 (print_line (codes "Bad command: set") s)

  unfoldable pub badcommand_file_does_not_exist : Shell W → Outcome W
  badcommand_file_does_not_exist s = returned 3 (print_line (codes "Bad command: File not found") s)

  unfoldable pub quit : Shell W → Outcome W
  quit s = exited (print_line (codes "Bye!") s)

  unfoldable pub set : Text → Text → Shell W → Outcome W
  set var value s = returned 0 (record s { memory = mem_set_value var value s.memory })

  -- `set` with the value that was put together.
  abbrev pub set_joined : Text → Option Text → Shell W → Outcome W
  set_joined var none s = fault
  set_joined var (some value) s = set var value s

  unfoldable pub print : Text → Shell W → Outcome W
  print var s = returned 0 (print_line (mem_get_value var s.memory) s)

  -- `tmp` and `result` have 100 bytes.
  unfoldable pub echo : Text → Shell W → Outcome W
  echo [] s = returned 0 (print_line [] s)
  echo (c ∷ var) s =
      let result = mem_get_value var s.memory in
      if c == b'$'
      then if ltb (length var) 100
        then if ltb (length result) 100
          then returned 0 (print_line (if same result missing_text then [] else result) s)
          else fault
        else fault
      else returned 0 (print_line (c ∷ var) s)

  module _ (os : Os W) where
    abbrev run_system : Text → Shell W → Outcome W
    run_system command s =
        let (code, world) = os.system command s.world in returned code (record s { world = world })

    -- A `buffer` of 100 bytes takes the command.
    abbrev run_buffered : Text → Shell W → Outcome W
    run_buffered command s = if ltb (length command) 100 then run_system command s else fault

    unfoldable pub touch : Text → Shell W → Outcome W
    touch name s = elim (os.create name s.world) [
      | none ↦ fault
      | some world ↦ returned 0 (record s { world = world })
    ]

    unfoldable pub cd : Text → Shell W → Outcome W
    cd dir s =
        let (ok, world) = os.chdir dir s.world in
        let s' = record s { world = world } in
        if ok then returned 0 s' else returned 3 (print_line (codes "Bad command: my_cd") s')

    -- `cat` and, where the file opens, the system's `cat`.
    unfoldable pub my_cat : Text → Shell W → Outcome W
    my_cat file s = elim (os.open_read file s.world) [
      | none ↦ returned 3 (print_line (codes "Bad command: my_cat") s)
      | some text ↦ run_buffered (codes "cat " ++ file) s
    ]

    module _ (run : Text → Shell W → Outcome W) where
      -- The chain of comparisons of `interpreter`, with the arguments stripped; the block of the third
      -- one holds `room` bytes.
      unfoldable pub dispatch : ℕ → List Text → Shell W → Outcome W
      unfolding badcommand badsetcommand quit set print echo touch cd my_cat append_all
      dispatch room args s =
          let size = length args in
          let command = arg args 0 in
          if same command (codes "help")
          then (if size == 1 then returned 0 (print_line help_text s) else badcommand s)
          else if same command (codes "quit")
          then (if size == 1 then quit s else badcommand s)
          else if same command (codes "set")
          then (if ltb size 3
              then badsetcommand s
              else set_joined (arg args 1) (append_all room (arg args 2) (drop_three args)) s)
          else if same command (codes "print")
          then (if size == 2 then print (arg args 1) s else badcommand s)
          else if same command (codes "run")
          then (if size == 2 then run (arg args 1) s else badcommand s)
          else if same command (codes "my_ls")
          then (if size == 1 then run_system (codes "ls") s else badcommand s)
          else if same command (codes "echo")
          then (if size == 2 then echo (arg args 1) s else badcommand s)
          else if same command (codes "my_touch")
          then (if size == 2 then touch (arg args 1) s else badcommand s)
          else if same command (codes "my_cd")
          then (if size == 2 then cd (arg args 1) s else badcommand s)
          else if same command (codes "my_mkdir")
          then (if size == 2 then run_buffered (codes "mkdir " ++ arg args 1) s else badcommand s)
          else if same command (codes "my_cat")
          then (if size == 2 then my_cat (arg args 1) s else badcommand s)
          else badcommand s

      unfoldable pub interpreter : List Text → Shell W → Outcome W
      unfolding dispatch strip
      interpreter args s =
          if ltb (length args) 1
          then badcommand s
          else if ltb max_args_size (length args)
          then (if same (arg args 0) (codes "set") then badsetcommand s else badcommand s)
          else dispatch (length (arg args 2)) (map strip args) s

      unfoldable pub parse_input : Text → Shell W → Outcome W
      unfolding interpreter words_of
      parse_input ui s = elim (words_of ui) [ none ↦ fault | some words ↦ interpreter words s ]

    -- The loop of `run` with the line that was read last. A read that finds nothing leaves the line
    -- empty. `n` bounds the lines.
    unfoldable pub run_lines :
        (Text → Shell W → Outcome W) → ℕ → Text → Stream → Shell W → Outcome W
    run_lines parse zero line st s = out_of_fuel
    run_lines parse (suc n) line st s = elim (parse line s) [
      | returned code s' ↦ elim st.eof [
        | true ↦ returned code s'
        | false ↦
            let (read, st') = fgets 998 st in
            run_lines parse n (elim read [ none ↦ [] | some l ↦ l ]) st' s'
      ]
      | exited s' ↦ exited s'
      | fault ↦ fault
      | out_of_fuel ↦ out_of_fuel
    ]

    -- `run`. An empty file leaves `line` unset for the first `parseInput`.
    unfoldable pub run_script : (Text → Shell W → Outcome W) → Text → Shell W → Outcome W
    unfolding run_lines badcommand_file_does_not_exist
    run_script parse script s = elim (os.open_read script s.world) [
      | none ↦ badcommand_file_does_not_exist s
      | some file ↦
          let (read, st) = fgets 998 (at_start file) in
          elim read [ none ↦ fault | some line ↦ run_lines parse (length file + 2) line st s ]
    ]

    unfoldable pub run : ℕ → Text → Shell W → Outcome W
    unfolding run_script parse_input
    run zero script s = out_of_fuel
    run (suc depth) script s = run_script (parse_input (run depth)) script s

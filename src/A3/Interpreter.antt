-- ===== src/A3/Interpreter.antt =====
-- a3/interpreter.c: the commands of the third shell over the kernel's state, and the lines of scripts.
-- The string `cwd` is short enough for `snprintf` to cut nothing off.
pub mod Errors
pub mod Sessions
mod Tests
use comp310_winter.Base.{
  ℕ, zero, suc, ◌+◌, ◌-◌, ◌*◌, ◌^◌, ◌==◌, ltb, not, ◌||◌, Bool, true, false, Option, none, some,
  List, [], ◌∷◌, ◌++◌, if◌then◌else◌, Text, codes, same, get_elem?, length, map,
}
use comp310_winter.A1.Interpreter.{strip}
use comp310_winter.A2.Kernel.{decimal}
use comp310_winter.A2.Interpreter.{drop_two}
use comp310_winter.A3.Memory.{mem_set_value, mem_get_value, reset_var_zone}
use comp310_winter.A3.Kernel.{
  Kernel, Run, ok, exited, fault, out_of_fuel, and_then, new_proc, run_proc_rr, run_proc_fifo,
}
use comp310_winter.A3.Os.{
  Os, Shell, State, Result, help_text, print_line, handle_error, with_arg, guarded, too_many_tokens,
  too_few_tokens, non_alphanumeric_token,
}
use comp310_winter.A3.FileCommands.{dispatch_fs}
use comp310_winter.A3.Shell.{Outcome, returned, parse_input}
use comp310_winter.A3.Commands.{
  Built, built, refused, overflow, is_alpha_num_str, ends_alpha_num, set_value, new_name,
  copy_command, stage_fits, buffer_size, token_buffer,
}

module _ (frame_size var_size : ℕ) {W : Type 0} (os : Os W) (cwd : Text) where
  unfoldable pub help : State W → Result W
  help k = ok (some 0) (print_line help_text k)

  unfoldable pub quit : State W → Result W
  quit k = ok none (print_line (codes "Bye!") k)

  unfoldable pub set : Text → Text → State W → Result W
  set var value k =
      ok (some 0) (record k { memory = mem_set_value frame_size var_size var value k.memory })

  unfoldable pub print : Text → State W → Result W
  print var k = ok (some 0) (print_line (mem_get_value frame_size var_size var b'p' k.memory) k)

  unfoldable pub echo : Text → State W → Result W
  unfolding handle_error
  echo [] k = handle_error non_alphanumeric_token k
  echo (c ∷ var) k =
      if not (c == b'$')
      then (if is_alpha_num_str (c ∷ var)
          then ok (some 0) (print_line (c ∷ var) k)
          else handle_error non_alphanumeric_token k)
      else if ends_alpha_num var
      then ok (some 0) (print_line (mem_get_value frame_size var_size var b'e' k.memory) k)
      else handle_error non_alphanumeric_token k

  abbrev pub run_system : Text → State W → State W
  run_system command k = record k {
    shell = record (k.shell) { world = os.system command k.shell.world };
  }

  -- The copy of a script in the backing store.
  unfoldable pub stage : Text → State W → Run (Shell W) Text
  stage script k =
      let count = k.shell.new_name_count in
      if stage_fits count script
      then ok (new_name count script) (record k {
        shell = record (k.shell) {
          new_name_count = count + 1;
          world = os.system (copy_command count script) k.shell.world;
        };
      })
      else fault

  unfoldable pub stage_all : List Text → State W → Run (Shell W) (List Text)
  unfolding stage
  stage_all [] k = ok [] k
  stage_all (f ∷ fs) k =
      and_then (stage f k) λ name k'. and_then (stage_all fs k') λ names k''. ok (name ∷ names) k''

  -- The backing store is emptied behind `run` and `exec`.
  unfoldable pub clear_store : State W → State W
  clear_store k =
      run_system (codes "mkdir " ++ cwd ++ codes "/backing_store")
        (run_system (codes "rm -rf " ++ cwd ++ codes "/backing_store") k)

  abbrev pub start : Text → State W → Run (Shell W) (Unit {0})
  start = new_proc frame_size var_size (λ script s. os.open_script script s.world)

  unfoldable pub start_all : List Text → State W → Run (Shell W) (Unit {0})
  start_all [] k = ok tt k
  start_all (f ∷ fs) k = and_then (start f k) λ _ k'. start_all fs k'

  -- The branches of `interpreter` that are more than a call.
  unfoldable pub set_command : List Text → State W → Result W
  unfolding handle_error set
  set_command words k = with_arg words 1 λ var.
      if not (is_alpha_num_str var)
      then handle_error non_alphanumeric_token k
      else elim (set_value [] (drop_two words)) [
        | built value ↦ set var value k
        | refused ↦ handle_error non_alphanumeric_token k
        | overflow ↦ fault
      ]

  -- `run_proc_FIFO` and `run_proc_RR` of a3/kernel.c, which return 0.
  module _ (run_fifo run_rr : State W → Run (Shell W) (Unit {0})) where
    unfoldable pub run : Text → State W → Result W
    run script k = and_then (start script k) λ _ k'. and_then (run_rr k') λ _ k''. ok (some 0) k''

    unfoldable pub exec : List Text → Text → State W → Result W
    unfolding start_all
    exec scripts policy k =
        if ltb 3 (length scripts)
        then ok (some 1) (print_line (codes "exec can only take between 1 to 3 scripts") k)
        else and_then (start_all scripts k) λ _ k'.
          and_then
            (if same policy (codes "FIFO")
              then run_fifo k'
              else if same policy (codes "RR")
              then run_rr k'
              else ok tt k')
            λ _ k''. ok (some 0) k''

    unfoldable pub run_command : List Text → State W → Result W
    unfolding stage run clear_store
    run_command words k = with_arg words 1 λ script.
        and_then (stage script k)
          λ name k'. and_then (run name k') λ ret k''. ok ret (clear_store k'')

    unfoldable pub exec_command : List Text → State W → Result W
    unfolding stage_all exec clear_store
    exec_command [] k = fault
    exec_command (c ∷ scripts) k =
        and_then (stage_all scripts k)
          λ names k'. and_then (exec names (codes "RR") k') λ ret k''. ok ret (clear_store k'')

    -- The chain of comparisons of `interpreter` up to `resetmem`.
    unfoldable pub dispatch : Text → List Text → State W → Result W
    unfolding handle_error help quit set_command print run_command echo exec_command dispatch_fs
    dispatch c words k =
        let size = length words in
        if same c (codes "help")
        then guarded 0 1 size k (help k)
        else if same c (codes "quit") || same c (codes "exit")
        then guarded 0 1 size k (
            let k' = run_system (codes "rm -rf " ++ cwd ++ codes "/backing_store") k in
            quit
              (record k' { shell = record (k'.shell) { world = os.filesys_done k'.shell.world } }))
        else if same c (codes "set")
        then guarded 3 size size k (set_command words k)
        else if same c (codes "print")
        then guarded 2 2 size k (with_arg words 1 λ a. print a k)
        else if same c (codes "run")
        then guarded 2 2 size k (run_command words k)
        else if same c (codes "echo")
        then guarded 0 2 size k (with_arg words 1 λ a. echo a k)
        else if same c (codes "exec")
        then guarded 2 5 size k (exec_command words k)
        else if same c (codes "resetmem")
        then ok (some 0) (record k { memory = reset_var_zone frame_size var_size k.memory })
        else dispatch_fs os c words k

    unfoldable pub interpreter : List Text → State W → Result W
    unfolding dispatch handle_error
    interpreter [] k = handle_error too_few_tokens k
    interpreter (c ∷ words) k = dispatch (strip c) (map strip (c ∷ words)) k

  abbrev pub to_outcome : Result W → Outcome (State W)
  to_outcome (ok ret k) = returned ret k
  to_outcome exited = Outcome.exited
  to_outcome fault = Outcome.fault
  to_outcome out_of_fuel = Outcome.out_of_fuel

  abbrev pub of_outcome : Outcome (State W) → Result W
  of_outcome (returned ret k) = ok ret k
  of_outcome Outcome.exited = exited
  of_outcome Outcome.fault = fault
  of_outcome Outcome.out_of_fuel = out_of_fuel

  -- `parseInput` on a line of the user or of a script. A command may run scripts, whose lines come here
  -- again, with less fuel.
  unfoldable pub shell_line : ℕ → Text → State W → Result W
  unfolding parse_input run_proc_rr run_proc_fifo interpreter
  shell_line zero ui k = out_of_fuel
  shell_line (suc n) ui k = of_outcome (
      parse_input
        (λ words k'. to_outcome (
          interpreter (run_proc_fifo frame_size var_size (shell_line n) n)
            (run_proc_rr frame_size var_size (shell_line n) n) words k'))
        (λ k'. k'.shell.lines) ui
        (record k { shell = record (k.shell) { lines = k.shell.lines + 1 } }))

-- ===== src/A2/Interpreter.antt =====
-- a2/interpreter.c: the commands of the second shell. The operating system is a parameter: its files
-- do not change while the shell runs, a status is a number, and `system`'s output is not the shell's.
-- `words` is the array of arguments, of which the first `size` are this command's.
use comp310_winter.Base.{
  ℕ, zero, suc, ◌-◌, ◌==◌, ltb, Bool, true, false, not, Option, none, some, List, [], ◌∷◌, ◌++◌,
  if◌then◌else◌, ◌||◌, Text, codes, same, get_elem?,
}
use comp310_winter.A1.Interpreter.{strip}
use comp310_winter.A2.ReadyQueue.{is_ready_empty}
use comp310_winter.A2.Memory.{mem_init, mem_set_value, mem_get_value}
use comp310_winter.A2.Kernel.{Kernel, Run, ok, exited, fault, ◌>>=◌, process_initialize}

-- What `fopen` finds, `system`, `stat` with `S_ISDIR`, `chdir`, and what `malloc` leaves in a page
-- table and a job score.
pub record Os : Type 0 where
  pub find_file : Text → Option Text
  pub system : Text → ℕ
  pub is_dir : Text → Bool
  pub chdir : Text → ℕ
  pub table : ℕ → List ℕ
  pub score : ℕ

-- `enum Error`, as far as the commands use it.
abbrev pub too_many_tokens : ℕ
too_many_tokens = 6

abbrev pub too_few_tokens : ℕ
too_few_tokens = 7

abbrev pub bad_command : ℕ
bad_command = 9

abbrev pub error_cd : ℕ
error_cd = 10

abbrev pub error_mkdir : ℕ
error_mkdir = 11

abbrev pub max_args_size : ℕ
max_args_size = 7

unfoldable pub error_msg : ℕ → Text
error_msg code = elim (get_elem? messages code) [ none ↦ [] | some m ↦ m ]
  where
    messages : List Text
    messages =
        codes "no error"
        ∷ codes "file does not exist"
        ∷ codes "file could not be loaded"
        ∷ codes "no space left in shell memory"
        ∷ codes "ready queue is full"
        ∷ codes "scheduling policy error"
        ∷ codes "too many tokens"
        ∷ codes "too few tokens"
        ∷ codes "non-alphanumeric token"
        ∷ codes "unknown name"
        ∷ codes "cd"
        ∷ codes "mkdir"
        ∷ []

abbrev pub print_line : Text → Kernel → Kernel
print_line line k = record k { printed = k.printed ++ (line ∷ []) }

unfoldable pub handle_error : ℕ → Kernel → Run ℕ
unfolding error_msg
handle_error code k = ok code (print_line (codes "Bad command: " ++ error_msg code) k)

-- The first `n` entries of `words` are stripped.
unfoldable pub strip_first : ℕ → List Text → List Text
strip_first zero words = words
strip_first (suc n) [] = []
strip_first (suc n) (a ∷ words) = strip a ∷ strip_first n words

-- The value of `set`: `n` arguments with a space between any two.
unfoldable pub join : ℕ → List Text → Text
join zero args = []
join (suc n) [] = []
join (suc zero) (a ∷ args) = a
join (suc (suc n)) (a ∷ args) = a ++ (b' ' ∷ join (suc n) args)

-- The entries from the third on.
abbrev pub drop_two : List Text → List Text
drop_two [] = []
drop_two (a ∷ []) = []
drop_two (a ∷ b ∷ words) = words

-- `strchr(value, ' ') != NULL`
unfoldable pub has_space : Text → Bool
has_space [] = false
has_space (c ∷ s) = (c == b' ') || has_space s

-- A command on an entry of the array that may be null: reading through it is a fault.
abbrev pub with_arg : Option Text → (Text → Run ℕ) → Run ℕ
with_arg none f = fault
with_arg (some a) f = f a

-- Stands for the table of commands, of which it is the first word.
abbrev help_text : Text
help_text = codes "COMMAND"

module _ (frame_size var_size : ℕ) where
  unfoldable pub set : Text → Text → Kernel → Run ℕ
  set var value k = ok 0 (record k { ram = mem_set_value frame_size var_size var value k.ram })

  unfoldable pub print : Text → Kernel → Run ℕ
  print var k = elim (mem_get_value frame_size var_size var k.ram) [
    | none ↦ ok 0 (print_line (b'\n' ∷ []) k)
    | some value ↦ ok 0 (print_line value k)
  ]

  unfoldable pub echo : Text → Kernel → Run ℕ
  unfolding print
  echo [] k = ok 0 (print_line [] k)
  echo (c ∷ var) k = if c == b'$' then print var k else ok 0 (print_line (c ∷ var) k)

  -- The nodes are freed and `head` still points at the first: with a process queued, by a script that
  -- runs `resetmem`, the next use of the queue reads freed memory.
  unfoldable pub resetmem : Kernel → Run ℕ
  resetmem k = elim (is_ready_empty k.queue) [
    | true ↦ ok 0 (record k {
      ram = record (k.ram) {
        cells = (mem_init frame_size var_size).cells;
        age = (mem_init frame_size var_size).age;
      };
    })
    | false ↦ fault
  ]

  module _ (os : Os) where
    unfoldable pub my_mkdir : Text → Kernel → Run ℕ
    unfolding handle_error
    my_mkdir [] k = ok (os.system (codes "mkdir ")) k
    my_mkdir (c ∷ name) k =
        if c == b'$'
        then elim (mem_get_value frame_size var_size name k.ram) [
          | none ↦ handle_error error_mkdir k
          | some value ↦
              if has_space value
              then handle_error error_mkdir k
              else ok (os.system (codes "mkdir " ++ value)) k
        ]
        else ok (os.system (codes "mkdir " ++ (c ∷ name))) k

    unfoldable pub my_touch : Text → Kernel → Run ℕ
    my_touch filename k = ok (os.system (codes "touch " ++ filename)) k

    unfoldable pub my_cd : Option Text → Kernel → Run ℕ
    unfolding handle_error
    my_cd none k = handle_error error_cd k
    my_cd (some dirname) k =
        if os.is_dir dirname then ok (os.chdir dirname) k else handle_error error_cd k

    abbrev initialize : Text → Kernel → Run ℕ
    initialize filename k =
        process_initialize frame_size var_size filename (os.find_file filename) os.table os.score k

    module _ (schedule_by_policy : Text → Kernel → Run ℕ) where
      -- `run`: only the code 11 stops it, which `process_initialize` does not return.
      unfoldable pub run : Text → Kernel → Run ℕ
      unfolding handle_error
      run script k = initialize script k >>= λ code k'.
          if code == 11
          then handle_error code k'
          else schedule_by_policy (codes "FCFS") k' >>= λ _ k''. ok code k''

      -- The programs of `exec` that are not null are queued until one fails.
      unfoldable pub exec_all : List Text → Kernel → Run ℕ
      unfolding handle_error
      exec_all [] k = ok 0 k
      exec_all (f ∷ fnames) k = initialize f k >>= λ code k'.
          let rest = exec_all fnames k' in if not (code == 0) then handle_error code k' else rest

      -- `exec`. It runs what was queued only if every program was found. At its end there is no
      -- `return`: the status is taken to be that of the scheduler, 0.
      unfoldable pub exec : List Text → Kernel → Run ℕ
      unfolding exec_all handle_error
      exec fnames k = exec_all fnames k >>= λ code k'.
          if not (code == 0)
          then ok code k'
          else schedule_by_policy (codes "RR") k' >>= λ status k''.
              if not (status == 0) then handle_error status k'' else ok 0 k''

      abbrev arg : List Text → ℕ → Option Text
      arg words i = get_elem? words i

      -- `exec` of a command with two to five words.
      unfoldable pub exec_command : List Text → ℕ → Kernel → Run ℕ
      unfolding exec handle_error
      exec_command words size k =
          if size == 2
          then with_arg (arg words 1) (λ a. exec (a ∷ []) k)
          else if size == 3
          then with_arg (arg words 1) (λ a. with_arg (arg words 2) (λ b. exec (a ∷ b ∷ []) k))
          else if size == 4
          then with_arg (arg words 1) (λ a.
            with_arg (arg words 2) (λ b. with_arg (arg words 3) (λ c. exec (a ∷ b ∷ c ∷ []) k)))
          else handle_error bad_command k

      -- The guards of a command with at least `lo` and at most `hi` words.
      abbrev pub guarded : ℕ → ℕ → ℕ → Kernel → Run ℕ → Run ℕ
      guarded lo hi size k command =
          if ltb size lo
          then handle_error too_few_tokens k
          else if ltb hi size
          then handle_error too_many_tokens k
          else command

      -- The chain of comparisons of `interpreter` for the command `c`.
      unfoldable pub dispatch : Text → List Text → ℕ → Kernel → Run ℕ
      unfolding handle_error set print echo my_mkdir my_touch my_cd run exec_command resetmem join
      dispatch c words size k =
          if same c (codes "help")
          then guarded 0 1 size k (ok 0 (print_line help_text k))
          else if same c (codes "quit") || same c (codes "exit")
          then guarded 0 1 size k (exited (print_line (codes "Bye!") k))
          else if same c (codes "set")
          then guarded 3 size size k
              (with_arg (arg words 1) (λ a. set a (join (size - 2) (drop_two words)) k))
          else if same c (codes "print")
          then guarded 2 2 size k (with_arg (arg words 1) (λ a. print a k))
          else if same c (codes "run")
          then guarded 2 2 size k (with_arg (arg words 1) (λ a. run a k))
          else if same c (codes "echo")
          then guarded 0 2 size k (with_arg (arg words 1) (λ a. echo a k))
          else if same c (codes "my_ls")
          then guarded 0 1 size k (ok (os.system (codes "ls | sort")) k)
          else if same c (codes "my_mkdir")
          then guarded 0 2 size k (with_arg (arg words 1) (λ a. my_mkdir a k))
          else if same c (codes "my_touch")
          then guarded 0 2 size k (with_arg (arg words 1) (λ a. my_touch a k))
          else if same c (codes "my_cd")
          then guarded 0 2 size k (my_cd (arg words 1) k)
          else if same c (codes "exec")
          then guarded 2 5 size k (exec_command words size k)
          else if same c (codes "resetmem")
          then guarded 0 1 size k (resetmem k)
          else handle_error bad_command k

      unfoldable pub interpreter : List Text → ℕ → Kernel → Run ℕ
      unfolding dispatch strip_first handle_error
      interpreter words size k =
          if ltb size 1
          then handle_error too_few_tokens k
          else if ltb max_args_size size
          then handle_error too_many_tokens k
          else with_arg (arg words 0) (λ c. dispatch (strip c) (strip_first size words) size k)

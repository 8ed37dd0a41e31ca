-- ===== src/A3/Os.antt =====
-- What the third shell is built on: the operating system and the file system of a3/fs/, the errors of
-- a3/interpreter.c and interpreter.h, and the guards that its commands share.
use comp310_winter.Base.{
  ℕ, zero, suc, ◌==◌, ltb, not, Option, none, some, List, [], ◌∷◌, ◌++◌, if◌then◌else◌, Text, codes,
  get_elem?,
}
use comp310_winter.A3.Kernel.{Kernel, Run, ok, fault}

-- What `atoi` returns: `negsuc n` is -(n + 1).
pub data ℤ : Type 0 where
  pos : ℕ → ℤ
  negsuc : ℕ → ℤ

-- An operation on the world: what it returns, what it prints, and the world behind it.
abbrev pub Op : Type 0 → Type 0 → Type 0
Op W X = W → X × List Text × W

-- `none` is a return value of -1. `fsutil_read` returns the bytes that it read.
pub record Os (W : Type 0) : Type 0 where
  pub open_script : Text → W → Option Text
  pub system : Text → W → W
  pub atoi : Text → ℤ
  pub filesys_done : W → W
  pub fsutil_ls : Op W ℕ
  pub fsutil_cat : Text → Op W (Option ℕ)
  pub fsutil_rm : Text → Op W ℕ
  pub fsutil_create : Text → ℤ → Op W ℕ
  pub fsutil_write : Text → List ℕ → ℕ → Op W (Option ℕ)
  pub fsutil_read : Text → ℕ → Op W (Option (ℕ × Text))
  pub fsutil_size : Text → Op W (Option ℕ)
  pub fsutil_seek : Text → ℤ → Op W (Option ℕ)
  pub fsutil_freespace : Op W ℕ
  pub find_file : List ℕ → Op W (Unit {0})
  pub copy_in : Text → Op W ℕ
  pub copy_out : Text → Op W ℕ
  pub fragmentation_degree : Op W (Unit {0})
  pub defragment : Op W (Unit {0})
  pub recover : ℤ → Op W (Unit {0})

-- The static variable of the file, the lines that `parseInput` has parsed, and the world.
pub record Shell (W : Type 0) : Type 0 where
  pub new_name_count : ℕ
  pub lines : ℕ
  pub world : W

-- `enum Error`
abbrev pub file_does_not_exist : ℕ
file_does_not_exist = 0

abbrev pub too_many_tokens : ℕ
too_many_tokens = 4

abbrev pub too_few_tokens : ℕ
too_few_tokens = 5

abbrev pub non_alphanumeric_token : ℕ
non_alphanumeric_token = 6

abbrev pub bad_command : ℕ
bad_command = 7

abbrev pub error_rm : ℕ
error_rm = 8

abbrev pub file_creation_error : ℕ
file_creation_error = 9

abbrev pub filesystem_error : ℕ
filesystem_error = 10

abbrev pub file_write_error : ℕ
file_write_error = 11

abbrev pub file_read_error : ℕ
file_read_error = 12

abbrev pub error_msgs : List Text
error_msgs =
    codes "file does not exist"
    ∷ codes "no space left in shell memory"
    ∷ codes "ready queue is full"
    ∷ codes "scheduling policy error"
    ∷ codes "too many tokens"
    ∷ codes "too few tokens"
    ∷ codes "non-alphanumeric token"
    ∷ codes "unknown name"
    ∷ codes "rm"
    ∷ codes "file could not be created"
    ∷ codes "bad filesystem"
    ∷ codes "file could not be written (maybe no space?)"
    ∷ codes "file could not be read"
    ∷ []

-- What `%s` prints of a buffer: the bytes in front of the first NUL.
abbrev pub c_string : List ℕ → Text
c_string [] = []
c_string (c ∷ s) = if c == 0 then [] else c ∷ c_string s

-- Stands for the table of commands, of which it is the first word.
abbrev pub help_text : Text
help_text = codes "COMMAND"

-- The state of the shell, and the result of a command on it; `none` is -1.
abbrev pub State : Type 0 → Type 0
State W = Kernel (Shell W)

abbrev pub Result : Type 0 → Type 0
Result W = Run (Shell W) (Option ℕ)

module _ {W : Type 0} where
  abbrev pub print_line : Text → State W → State W
  print_line line k = record k { printed = k.printed ++ (line ∷ []) }

  unfoldable pub handle_error : ℕ → State W → Result W
  handle_error code k = elim (get_elem? error_msgs code) [
    | none ↦ fault
    | some m ↦ ok (some code) (print_line (codes "Bad command: " ++ m) k)
  ]

  -- A token that the line does not have is a pointer that was never set.
  abbrev pub with_arg : List Text → ℕ → (Text → Result W) → Result W
  with_arg words i f = elim (get_elem? words i) [ none ↦ fault | some a ↦ f a ]

  -- An operation on the world, and what goes on with its result.
  abbrev pub call : {X : Type 0} → Op W X → State W → (X → State W → Result W) → Result W
  call op k f =
      let (x, out, w) = op k.shell.world in
      f x (record k { printed = k.printed ++ out; shell = record (k.shell) { world = w } })

  -- The guards of a command with `lo` to `hi` tokens, and of one with exactly `n`.
  abbrev pub guarded : ℕ → ℕ → ℕ → State W → Result W → Result W
  guarded lo hi size k command =
      if ltb size lo
      then handle_error too_few_tokens k
      else if ltb hi size
      then handle_error too_many_tokens k
      else command

  abbrev pub exactly : ℕ → ℕ → State W → Result W → Result W
  exactly n size k command = if not (size == n) then handle_error too_many_tokens k else command

  -- The error of a command whose status is not 0 is the status less one.
  unfoldable pub check_status : ℕ → State W → Result W
  unfolding handle_error
  check_status zero k = ok (some 0) k
  check_status (suc n) k = handle_error n k

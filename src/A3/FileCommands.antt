-- ===== src/A3/FileCommands.antt =====
-- The commands of a3/interpreter.c on the file system, which the record `Os` stands for.
use comp310_winter.Base.{
  zero, suc, ◌-◌, ◌*◌, ◌^◌, ◌==◌, not, none, some, List, [], ◌∷◌, ◌++◌, if◌then◌else◌, Text, codes,
  same, length,
}
use comp310_winter.A2.Kernel.{decimal}
use comp310_winter.A2.Interpreter.{drop_two}
use comp310_winter.A3.Kernel.{ok, fault}
use comp310_winter.A3.Commands.{buffer_size, token_buffer}
use comp310_winter.A3.Os.{
  ℤ, pos, negsuc, Os, State, Result, c_string, print_line, handle_error, with_arg, call, guarded,
  exactly, check_status, file_does_not_exist, bad_command, error_rm, file_creation_error,
  filesystem_error, file_write_error, file_read_error,
}

module _ {W : Type 0} (os : Os W) where
  unfoldable pub write_command : List Text → State W → Result W
  unfolding handle_error
  write_command words k =
      let size = buffer_size (drop_two words) in
      elim (token_buffer (drop_two words)) [
        | none ↦ fault
        | some buf ↦ with_arg words 1 λ name. call (os.fsutil_write name buf size) k λ ret k'.
            elim ret [
              | none ↦ handle_error file_write_error k'
              | some bytes_written ↦
                  if not (bytes_written == size)
                  then ok (some 0) (
                      print_line
                        (codes "Warning: could only write "
                          ++ decimal 10 bytes_written
                          ++ codes " out of "
                          ++ decimal 10 size
                          ++ codes " bytes (reached end of file)")
                        k')
                  else ok (some 0) k'
            ]
      ]

  unfoldable pub find_command : List Text → State W → Result W
  find_command [] k = fault
  find_command (c ∷ tokens) k = elim (token_buffer tokens) [
    | none ↦ fault
    | some buf ↦ call (os.find_file (c_string buf)) k λ _ k'. ok (some 0) k'
  ]

  -- `read`. The buffer of a negative size is not there, or has no byte.
  unfoldable pub read_command : Text → ℤ → State W → Result W
  unfolding handle_error
  read_command name (pos size) k = call (os.fsutil_read name size) k λ ret k'. elim ret [
    | none ↦ handle_error file_read_error k'
    | some (bytes_read, buffer) ↦
        ok (some (if bytes_read == size then 1 else 0)) (print_line (c_string buffer) k')
  ]
  read_command name (negsuc zero) k =
      call (os.fsutil_read name (2 ^ 32 - 1)) k
        λ ret k'. elim ret [ none ↦ handle_error file_read_error k' | some _ ↦ fault ]
  read_command name (negsuc (suc n)) k = fault

  -- The chain of comparisons from `ls` on.
  unfoldable pub dispatch_fs : Text → List Text → State W → Result W
  unfolding handle_error write_command find_command read_command check_status
  dispatch_fs c words k =
      let size = length words in
      if same c (codes "ls")
      then guarded 0 1 size k (
          call os.fsutil_ls k
            λ status k'. if status == 1 then handle_error filesystem_error k' else ok (some 0) k')
      else if same c (codes "cat")
      then exactly 2 size k (
          with_arg words 1 λ a. call (os.fsutil_cat a) k λ status k'. elim status [
            | none ↦ ok (some 0) k'
            | some n ↦ if n == 1 then handle_error file_does_not_exist k' else ok (some 0) k'
          ])
      else if same c (codes "rm")
      then exactly 2 size k (
          with_arg words 1 λ a.
            call (os.fsutil_rm a) k
              λ status k'. if status == 0 then handle_error error_rm k' else ok (some status) k')
      else if same c (codes "create")
      then exactly 3 size k (
          with_arg words 1 λ a. with_arg words 2 λ b.
            call (os.fsutil_create a (os.atoi b)) k λ status k'.
              if status == 0 then handle_error file_creation_error k' else ok (some 0) k')
      else if same c (codes "write")
      then guarded 3 size size k (write_command words k)
      else if same c (codes "find_file")
      then guarded 2 size size k (find_command words k)
      else if same c (codes "read")
      then exactly 3 size k
          (with_arg words 1 λ a. with_arg words 2 λ b. read_command a (os.atoi b) k)
      else if same c (codes "copy_in")
      then exactly 2 size k (with_arg words 1 λ a. call (os.copy_in a) k check_status)
      else if same c (codes "copy_out")
      then exactly 2 size k (with_arg words 1 λ a. call (os.copy_out a) k check_status)
      else if same c (codes "size")
      then exactly 2 size k (
          with_arg words 1 λ a. call (os.fsutil_size a) k λ ret k'. elim ret [
            | none ↦ handle_error file_does_not_exist k'
            | some n ↦ ok (some 0) (print_line (codes "File length: " ++ decimal 10 n) k')
          ])
      else if same c (codes "seek")
      then exactly 3 size k (
          with_arg words 1 λ a. with_arg words 2 λ b.
            call (os.fsutil_seek a (os.atoi b)) k λ ret k'. elim ret [
              | none ↦ handle_error file_does_not_exist k'
              | some _ ↦ ok (some 0) k'
            ])
      else if same c (codes "freespace")
      then exactly 1 size k (
          call os.fsutil_freespace k λ n k'. ok (some 0) (
            print_line
              (codes "Num free sectors: "
                ++ decimal 10 n
                ++ codes " ("
                ++ decimal 10 (n * 512)
                ++ codes " total bytes)")
              k'))
      else if same c (codes "fragmentation_degree")
      then exactly 1 size k (call os.fragmentation_degree k λ _ k'. ok (some 0) k')
      else if same c (codes "defragment")
      then exactly 1 size k (call os.defragment k λ _ k'. ok (some 0) k')
      else if same c (codes "recover")
      then exactly 2 size k
          (with_arg words 1 λ a. call (os.recover (os.atoi a)) k λ _ k'. ok (some 0) k')
      else handle_error bad_command k

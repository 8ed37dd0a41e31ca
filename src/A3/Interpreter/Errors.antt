-- ===== src/A3/Interpreter/Errors.antt =====
-- The commands that a3/interpreter.c refuses.
use mathlib.Core.Path.{subst}
use comp310_winter.Base.{
  ℕ, zero, suc, ltb, ◌≡◌, ◌<◌, ◌⊎◌, refl, ap, Option, none, some, List, [], ◌∷◌, ◌++◌, arith,
  if◌then◌else◌, Text, codes, get_elem?, get_or, length, map, All,
}
use comp310_winter.A1.Interpreter.{strip}
use comp310_winter.A3.Kernel.{Run, ok}
use comp310_winter.A3.Os.{
  Os, Shell, State, Result, error_msgs, handle_error, print_line, guarded, exactly,
}
use comp310_winter.A3.FileCommands.{dispatch_fs}
use comp310_winter.A3.Interpreter.{dispatch, interpreter}

-- A command, the fewest and the most tokens that it takes, and the code for too few.
abbrev pub Rule : Type 0
Rule = Text × ℕ × Option ℕ × ℕ

abbrev pub rules : List Rule
rules =
    (codes "help", 0, some 1, 5)
    ∷ (codes "quit", 0, some 1, 5)
    ∷ (codes "exit", 0, some 1, 5)
    ∷ (codes "set", 3, none, 5)
    ∷ (codes "print", 2, some 2, 5)
    ∷ (codes "run", 2, some 2, 5)
    ∷ (codes "echo", 0, some 2, 5)
    ∷ (codes "exec", 2, some 5, 5)
    ∷ (codes "ls", 0, some 1, 5)
    ∷ (codes "cat", 2, some 2, 4)
    ∷ (codes "rm", 2, some 2, 4)
    ∷ (codes "create", 3, some 3, 4)
    ∷ (codes "write", 3, none, 5)
    ∷ (codes "find_file", 2, none, 5)
    ∷ (codes "read", 3, some 3, 4)
    ∷ (codes "copy_in", 2, some 2, 4)
    ∷ (codes "copy_out", 2, some 2, 4)
    ∷ (codes "size", 2, some 2, 4)
    ∷ (codes "seek", 3, some 3, 4)
    ∷ (codes "freespace", 1, some 1, 4)
    ∷ (codes "fragmentation_degree", 1, some 1, 4)
    ∷ (codes "defragment", 1, some 1, 4)
    ∷ (codes "recover", 2, some 2, 4)
    ∷ []

-- A number of tokens that the command does not take.
abbrev pub IsOutside : Rule → ℕ → Type 0
IsOutside (c, lo, none, few) n = n < lo
IsOutside (c, lo, some hi, few) n = (n < lo) ⊎ (hi < n)

abbrev pub code_of : Rule → ℕ → ℕ
code_of (c, lo, most, few) n = if ltb n lo then few else 4

All-get_elem? :
    {A : Type 0} (P : A → Type 0) (xs : List A) (i : ℕ) (x : A)
    → All P xs
    → get_elem? xs i ≡ some x
    → P x
All-get_elem? P [] i x h e = ground (arith, e)
All-get_elem? P (y ∷ xs) zero x h e = subst (λ o. elim o [ none ↦ Unit {0} | some z ↦ P z ]) e h.0
All-get_elem? P (y ∷ xs) (suc i) x h e = All-get_elem? P xs i x h.1 e

module _ (frame_size var_size : ℕ) {W : Type 0} (os : Os W) (cwd : Text) where
  -- What is reported of an error.
  abbrev pub reported : ℕ → State W → Result W
  reported code k =
      ok (some code) (print_line (codes "Bad command: " ++ get_or error_msgs code []) k)

  module _ (k : State W) where
    handle_error-reported : (code : ℕ) → code < 13 → handle_error code k ≡ reported code k
    unfolding handle_error
    handle_error-reported code h =
        ap
          (λ o. elim o [
            | none ↦ Run.fault
            | some m ↦ ok (some code) (print_line (codes "Bad command: " ++ m) k)
          ])
          (in_range error_msgs code h)
      where
        in_range : (xs : List Text) (i : ℕ) → i < length xs → get_elem? xs i ≡ some (get_or xs i [])
        in_range [] i h = absurd (omega (arith, h))
        in_range (x ∷ xs) zero h = refl
        in_range (x ∷ xs) (suc i) h = in_range xs i (omega (arith, h))

    guarded-out :
        (lo hi n m : ℕ) (command : Result W)
        → n ≡ m
        → IsOutside ([], lo, some hi, 5) n
        → guarded lo hi m k command ≡ reported (code_of ([], lo, some hi, 5) n) k
    unfolding handle_error
    guarded-out lo hi n m command e h = ground (arith, e, h)

    exactly-out :
        (lo n m : ℕ) (command : Result W)
        → n ≡ m
        → IsOutside ([], lo, some lo, 4) n
        → exactly lo m k command ≡ reported (code_of ([], lo, some lo, 4) n) k
    unfolding handle_error
    exactly-out lo n m command e h = ground (arith, e, h)

    guarded-few :
        (lo n m : ℕ) (command : Result W)
        → n ≡ m
        → n < lo
        → guarded lo m m k command ≡ reported (code_of ([], lo, none, 5) n) k
    unfolding handle_error
    guarded-few lo n m command e h = ground (arith, e, h)

  module _ (run_fifo run_rr : State W → Run (Shell W) (Unit {0})) where
    -- Whatever is behind the command, a wrong number of tokens is reported.
    abbrev pub IsRefused : Rule → Type 0
    IsRefused rule =
        (args : List Text) (k : State W)
        → IsOutside rule (length (rule.0 ∷ args))
        → interpreter frame_size var_size os cwd run_fifo run_rr (rule.0 ∷ args) k
          ≡ reported (code_of rule (length (rule.0 ∷ args))) k

    rules-IsRefused : All IsRefused rules
    unfolding interpreter dispatch dispatch_fs strip
    rules-IsRefused = (
      (λ args k h. guarded-out k 0 1 _ _ _ (size args) h),
      (
        (λ args k h. guarded-out k 0 1 _ _ _ (size args) h),
        (
          (λ args k h. guarded-out k 0 1 _ _ _ (size args) h),
          (
            (λ args k h. guarded-few k 3 _ _ _ (size args) h),
            (
              (λ args k h. guarded-out k 2 2 _ _ _ (size args) h),
              (
                (λ args k h. guarded-out k 2 2 _ _ _ (size args) h),
                (
                  (λ args k h. guarded-out k 0 2 _ _ _ (size args) h),
                  (
                    (λ args k h. guarded-out k 2 5 _ _ _ (size args) h),
                    (
                      (λ args k h. guarded-out k 0 1 _ _ _ (size args) h),
                      (
                        (λ args k h. exactly-out k 2 _ _ _ (size args) h),
                        (
                          (λ args k h. exactly-out k 2 _ _ _ (size args) h),
                          (
                            (λ args k h. exactly-out k 3 _ _ _ (size args) h),
                            (
                              (λ args k h. guarded-few k 3 _ _ _ (size args) h),
                              (
                                (λ args k h. guarded-few k 2 _ _ _ (size args) h),
                                (
                                  (λ args k h. exactly-out k 3 _ _ _ (size args) h),
                                  (
                                    (λ args k h. exactly-out k 2 _ _ _ (size args) h),
                                    (
                                      (λ args k h. exactly-out k 2 _ _ _ (size args) h),
                                      (
                                        (λ args k h. exactly-out k 2 _ _ _ (size args) h),
                                        (
                                          (λ args k h. exactly-out k 3 _ _ _ (size args) h),
                                          (
                                            (λ args k h. exactly-out k 1 _ _ _ (size args) h),
                                            (
                                              (λ args k h. exactly-out k 1 _ _ _ (size args) h),
                                              (
                                                (λ args k h. exactly-out k 1 _ _ _ (size args) h),
                                                (
                                                  (λ args k h. exactly-out k 2 _ _ _ (size args) h),
                                                  tt,
                                                ),
                                              ),
                                            ),
                                          ),
                                        ),
                                      ),
                                    ),
                                  ),
                                ),
                              ),
                            ),
                          ),
                        ),
                      ),
                    ),
                  ),
                ),
              ),
            ),
          ),
        ),
      ),
    )
      where
        size : (args : List Text) → suc (length args) ≡ suc (length (map strip args))
        size [] = refl
        size (a ∷ args) = ap suc (size args)

    -- A command of the table `rules` with a number of tokens that it does not take is refused
    -- whatever the tokens are: only the message is printed, and the code is that of too many
    -- tokens, or that of the table if there are too few.
    pub interpreter-refused :
        (i : ℕ) (rule : Rule) (args : List Text) (k : State W)
        → get_elem? rules i ≡ some rule
        → IsOutside rule (length (rule.0 ∷ args))
        → interpreter frame_size var_size os cwd run_fifo run_rr (rule.0 ∷ args) k
          ≡ reported (code_of rule (length (rule.0 ∷ args))) k
    interpreter-refused i rule args k e h =
        All-get_elem? IsRefused rules i rule rules-IsRefused e args k h

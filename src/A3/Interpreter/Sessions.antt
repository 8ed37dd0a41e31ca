-- ===== src/A3/Interpreter/Sessions.antt =====
-- Two commands of a3/interpreter.c behind each other: `set` and `print`.
use comp310_winter.Base.{
  ℕ, ◌+◌, ◌==◌, lt→ltb, ◌≡◌, ◌<◌, ◌≤◌, refl, sym, ap, ◌∙◌, true, false, some, List, [], ◌∷◌, ◌++◌,
  arith, if◌then◌else◌, Text, codes, length, length-append, map, All,
}
use comp310_winter.Store.Laws.{HasRoom}
use mathlib.Core.Path.{ap₂}
use mathlib.Core.List.{append_assoc}
use comp310_winter.A1.Interpreter.{strip}
use comp310_winter.A3.Memory.{mem_set_value}
use comp310_winter.A3.Memory.Vars.{mem_get_value-mem_set_value}
use comp310_winter.A3.Kernel.{Run, ok}
use comp310_winter.A3.Shell.Lines.{separated}
use comp310_winter.A3.Commands.{
  Built, built, in_buffer, is_alnum, all_alnum, is_alpha_num_str, set_value,
}
use comp310_winter.A3.Os.{Os, Shell, State, Result, print_line, guarded}
use comp310_winter.A3.Interpreter.{set, print, set_command, dispatch, interpreter}

abbrev pub IsAlphaNum : Text → Type 0
IsAlphaNum s = is_alpha_num_str s ≡ true

is_alnum-kept : (c : ℕ) → is_alnum c ≡ true → ((c == b'\r') ≡ false) × ((c == b'\n') ≡ false)
unfolding is_alnum
is_alnum-kept c h = ground (arith, h)

strip-all_alnum : (s : Text) → all_alnum s ≡ true → strip s ≡ s
unfolding strip
strip-all_alnum [] h = refl
strip-all_alnum (c ∷ s) h = ground (arith, h, is_alnum-kept c, strip-all_alnum s)

strip-IsAlphaNum : (s : Text) → IsAlphaNum s → strip s ≡ s
unfolding is_alpha_num_str strip
strip-IsAlphaNum [] h = refl
strip-IsAlphaNum (c ∷ s) h = strip-all_alnum (c ∷ s) h

map-strip-IsAlphaNum : (ws : List Text) → All IsAlphaNum ws → map strip ws ≡ ws
map-strip-IsAlphaNum [] h = refl
map-strip-IsAlphaNum (w ∷ ws) h =
    ap₂ (λ (x : Text) (xs : List Text). x ∷ xs) (strip-IsAlphaNum w h.0)
      (map-strip-IsAlphaNum ws h.1)

appended :
    (w s : Text) (b : Built)
    → IsAlphaNum w
    → length s < 505
    → (if is_alpha_num_str w then in_buffer s b else Built.refused) ≡ b
appended w s b h few =
    ap (λ t. if t then in_buffer s b else Built.refused) h
    ∙ ap (λ t. if t then b else Built.overflow) (lt→ltb (length s) 505 few)

set_value-separated :
    (buffer w : Text) (ws : List Text)
    → All IsAlphaNum (w ∷ ws)
    → length (buffer ++ separated b' ' w ws) < 505
    → set_value buffer (w ∷ ws) ≡ built (buffer ++ separated b' ' w ws)
unfolding set_value
set_value-separated buffer w [] h few = appended w (buffer ++ w) _ h.0 few
set_value-separated buffer w (v ∷ ws) h few =
    appended w (buffer ++ w ++ codes " ") _ h.0 (omega (arith, few, length_of))
    ∙ set_value-separated (buffer ++ w ++ codes " ") v ws h.1 (omega (arith, few, ap length joined))
    ∙ ap built joined
  where
    joined :
        (buffer ++ w ++ codes " ") ++ separated b' ' v ws
        ≡ buffer ++ (w ++ (b' ' ∷ separated b' ' v ws))
    joined =
        append_assoc (buffer ++ w) (codes " ") (separated b' ' v ws)
        ∙ append_assoc buffer w (b' ' ∷ separated b' ' v ws)

    length_of :
        length (buffer ++ (w ++ (b' ' ∷ separated b' ' v ws)))
        ≡ length (buffer ++ w ++ codes " ") + length (separated b' ' v ws)
    length_of =
        ap length (sym joined) ∙ length-append (buffer ++ w ++ codes " ") (separated b' ' v ws)

module _ (frame_size var_size : ℕ) {W : Type 0} (os : Os W) (cwd : Text)
    (run_fifo run_rr : State W → Run (Shell W) (Unit {0})) where
  set_command-separated :
      (var v : Text) (vs : List Text) (k : State W)
      → All IsAlphaNum (var ∷ v ∷ vs)
      → length (separated b' ' v vs) < 505
      → set_command frame_size var_size os cwd (codes "set" ∷ var ∷ v ∷ vs) k
        ≡ set frame_size var_size os cwd var (separated b' ' v vs) k
  unfolding set_command
  set_command-separated var v vs k h few = simp (h.0, set_value-separated [] v vs h.1 few)

  guarded-in :
      (lo hi n : ℕ) (k : State W) (command : Result W)
      → lo ≤ n
      → n ≤ hi
      → guarded lo hi n k command ≡ command
  guarded-in lo hi n k command few many = ground (arith, few, many)

  interpreter-set :
      (var v : Text) (vs : List Text) (k : State W)
      → All IsAlphaNum (var ∷ v ∷ vs)
      → interpreter frame_size var_size os cwd run_fifo run_rr (codes "set" ∷ var ∷ v ∷ vs) k
        ≡ set_command frame_size var_size os cwd (codes "set" ∷ var ∷ v ∷ vs) k
  unfolding interpreter dispatch strip
  interpreter-set var v vs k h =
      ap
        (λ ws.
          dispatch frame_size var_size os cwd run_fifo run_rr (codes "set") (codes "set" ∷ ws) k)
        (map-strip-IsAlphaNum (var ∷ v ∷ vs) h)
      ∙ guarded-in 3 _ (length (codes "set" ∷ var ∷ v ∷ vs)) k _ (omega arith) (omega arith)

  interpreter-print :
      (var : Text) (k : State W)
      → IsAlphaNum var
      → interpreter frame_size var_size os cwd run_fifo run_rr (codes "print" ∷ var ∷ []) k
        ≡ print frame_size var_size os cwd var k
  unfolding interpreter dispatch strip
  interpreter-print var k h =
      ap (λ x. print frame_size var_size os cwd x k) (strip-IsAlphaNum var h)

  -- `set` with alphanumeric tokens, whose value has fewer than 505 bytes, and then `print` print
  -- the values with one space between any two, if the memory has all its slots and a place for the
  -- variable.
  pub interpreter-set_print :
      (var v : Text) (vs : List Text) (k : State W)
      → All IsAlphaNum (var ∷ v ∷ vs)
      → length (separated b' ' v vs) < 505
      → frame_size + var_size ≤ length k.memory
      → HasRoom frame_size var_size k.memory var
      → (k' : State W) × (interpreter frame_size var_size os cwd run_fifo run_rr
            (codes "set" ∷ var ∷ v ∷ vs)
            k
          ≡ ok (some 0) k')
        × (interpreter frame_size var_size os cwd run_fifo run_rr (codes "print" ∷ var ∷ []) k'
            ≡ ok (some 0) (print_line (separated b' ' v vs) k'))
  unfolding set print
  interpreter-set_print var v vs k h few size room = (
    after,
    interpreter-set var v vs k h ∙ set_command-separated var v vs k h few,
    interpreter-print var after h.0
        ∙ ap (λ x. ok (some 0) (print_line x after))
            (mem_get_value-mem_set_value frame_size var_size var (separated b' ' v vs) b'p' k.memory
              size room).0,
  )
    where
      after : State W
      after = record k {
        memory = mem_set_value frame_size var_size var (separated b' ' v vs) k.memory;
      }

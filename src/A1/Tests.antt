-- ===== src/A1/Tests.antt =====
-- Runs of the first shell on small inputs.
use comp310_winter.Base.{
  [], ◌++◌, false, ◌≡◌, ◌≢◌, ◌≤◌, inl, refl, ap, some, none, ◌∷◌, length, replicate, arith, codes,
  same,
}
use comp310_winter.Store.{Memory, none_text, none_slot, slot, find_var}
use comp310_winter.Store.Laws.{HasRoom}
use comp310_winter.A1.Memory.{memory_size}
use comp310_winter.A1.Words.{words_of, is_separator, short_words}
use comp310_winter.A1.Parsing.{words_of-line_of}
use comp310_winter.A1.Interpreter.{Os, Shell, returned, fault, print_line, interpreter, run, strip}
use comp310_winter.A1.Commands.{print-set}

abbrev store : Memory
store = slot (codes "x") (codes "1") ∷ replicate 999 none_slot

store-size : memory_size ≤ length store
store-size = omega arith

store-HasRoom : HasRoom 0 memory_size store (codes "x")
unfolding find_var
store-HasRoom = inl (λ e. cc)

y_ne_x : codes "y" ≢ codes "x"
y_ne_x e = ground (arith, ap (same (codes "y")) e)

none_ne_x : none_text ≢ codes "x"
none_ne_x e = ground (arith, ap (same none_text) e)

words_of-line_of_example :
    words_of (codes "set x 1" ++ (b'\n' ∷ [])) ≡ some (codes "set" ∷ codes "x" ∷ codes "1" ∷ [])
unfolding is_separator short_words
words_of-line_of_example =
    words_of-line_of (codes "set") (codes "x" ∷ codes "1" ∷ []) (refl, (refl, (refl, tt)))
      ((refl, tt), ((refl, tt), tt))

-- An operating system without files.
abbrev os : Os (Unit {0})
os = record {
  system = λ command w. (0, w);
  open_read = λ name w. none;
  create = λ name w. some w;
  chdir = λ dir w. (false, w);
}

abbrev shell : Shell (Unit {0})
shell = record { memory = store; printed = []; world = tt }

print-set_example :
    ((s' : Shell (Unit {0})) × (interpreter os
          (run os 3)
          (codes "set" ∷ codes "x" ∷ codes "a" ∷ [])
          shell
        ≡ returned 0 s')
      × (interpreter os (run os 3) (codes "print" ∷ codes "x" ∷ []) s'
          ≡ returned 0 (print_line (codes "a") s')))
    × (interpreter os (run os 3) (codes "set" ∷ codes "x" ∷ codes "a" ∷ codes "b" ∷ []) shell
        ≡ fault)
unfolding strip
print-set_example =
    print-set os (run os 3) (codes "x") (codes "a") (codes "b") [] shell (omega arith)
      (refl, (refl, (refl, tt))) store-size store-HasRoom

-- ===== src/A1/Commands.antt =====
-- What the commands of the first shell do together.
use mathlib.Core.Path.{ap₂}
use comp310_winter.Base.{
  ℕ, suc, ◌≤◌, ◌≡◌, refl, ap, ◌∙◌, List, [], ◌∷◌, arith, ltb, lt→ltb, true, false, if◌then◌else◌,
  map, All, Text, codes, length, none, length-append, ◌++◌,
}
use comp310_winter.Store.Laws.{HasRoom}
use comp310_winter.A1.Memory.{memory_size, mem_set_value, mem_get_value, mem_get_value-set_value}
use comp310_winter.A1.Interpreter.{
  Os, Shell, Outcome, returned, fault, set, set_joined, print, strip, append_all, print_line,
  dispatch, interpreter, max_args_size,
}

-- No byte of the argument is stripped.
abbrev pub IsStripped : Text → Type 0
IsStripped a = strip a ≡ a

map-strip : (args : List Text) → All IsStripped args → map strip args ≡ args
map-strip [] h = refl
map-strip (a ∷ args) h = ap₂ (λ (x : Text) (xs : List Text). x ∷ xs) h.0 (map-strip args h.1)

in_bounds {ℓ} :
    {A : Type ℓ} (n : ℕ)
    → n ≤ 4
    → (a b c : A)
    → (if ltb (suc (suc (suc n))) 1
        then b
        else if ltb max_args_size (suc (suc (suc n)))
        then c
        else a)
      ≡ a
in_bounds n h a b c = ground arith

module _ {W : Type 0} (os : Os W) (run : Text → Shell W → Outcome W) where
  abbrev after_set : Text → Text → Shell W → Shell W
  after_set k value s = record s { memory = mem_set_value k value s.memory }

  dispatch-set :
      (k v : Text) (vs : List Text) (s : Shell W)
      → dispatch os run (length v) (codes "set" ∷ k ∷ v ∷ vs) s
        ≡ set_joined k (append_all (length v) v vs) s
  unfolding dispatch
  dispatch-set k v vs s = ground arith

  interpreter-set :
      (k v : Text) (vs : List Text) (s : Shell W)
      → length vs ≤ 4
      → All IsStripped (k ∷ v ∷ vs)
      → interpreter os run (codes "set" ∷ k ∷ v ∷ vs) s
        ≡ set_joined k (append_all (length v) v vs) s
  unfolding interpreter
  interpreter-set k v vs s few h =
      in_bounds (length vs) few
        (dispatch os run (length v) (map strip (codes "set" ∷ k ∷ v ∷ vs)) s) _ _
      ∙ ap (λ args. dispatch os run (length v) args s)
          (map-strip (codes "set" ∷ k ∷ v ∷ vs) (refl, h))
      ∙ dispatch-set k v vs s

  interpreter-print :
      (k : Text) (s : Shell W)
      → IsStripped k
      → interpreter os run (codes "print" ∷ k ∷ []) s
        ≡ returned 0 (print_line (mem_get_value k s.memory) s)
  unfolding interpreter print
  interpreter-print k s h = ap (λ x. print x s) h

  -- The block of the third word has no room for a further one.
  append_all-none : (v a : Text) (vs : List Text) → append_all (length v) v (a ∷ vs) ≡ none
  unfolding append_all
  append_all-none v a vs =
      let e : length (codes " ") ≡ 1 = refl in
      let longer = v ++ codes " " ++ a in
      let over : ltb (length v) (length longer) ≡ true =
        lt→ltb (length v) (length longer)
          (omega (arith, e, length-append (v ++ codes " ") a, length-append v (codes " "))) in
      ap (λ b. elim b [ true ↦ none | false ↦ append_all (length v) longer vs ]) over

  -- `set` with one value and then `print` print the value; `set` with two to five values writes
  -- behind the block of the first. The store has all its slots and a place for the variable, and
  -- no argument holds a line end.
  pub print-set :
      (k v a : Text) (vs : List Text) (s : Shell W)
      → length vs ≤ 3
      → All IsStripped (k ∷ v ∷ a ∷ vs)
      → memory_size ≤ length s.memory
      → HasRoom 0 memory_size s.memory k
      → ((s' : Shell W) × (interpreter os run (codes "set" ∷ k ∷ v ∷ []) s ≡ returned 0 s')
          × (interpreter os run (codes "print" ∷ k ∷ []) s' ≡ returned 0 (print_line v s')))
        × (interpreter os run (codes "set" ∷ k ∷ v ∷ a ∷ vs) s ≡ fault)
  unfolding append_all set
  print-set k v a vs s few h size room = (
    (
      after_set k v s,
      interpreter-set k v [] s (omega arith) (h.0, (h.1.0, tt)),
      interpreter-print k (after_set k v s) h.0
          ∙ ap (λ (x : Text). returned 0 (print_line x (after_set k v s)))
              (mem_get_value-set_value k v s.memory size room),
    ),
    interpreter-set k v (a ∷ vs) s (omega (arith, few)) h
        ∙ ap (λ o. set_joined k o s) (append_all-none v a vs),
  )

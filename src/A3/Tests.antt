-- ===== src/A3/Tests.antt =====
-- Runs of the third shell's memory on small inputs.
use comp310_winter.Base.{
  length, not, ◌==◌, List, if◌then◌else◌, ℕ, ◌+◌, ◌++◌, true, ◌<◌, ◌≡◌, ◌≢◌, ◌≤◌, ◌⊎◌, inr, refl,
  ap, some, none, [], ◌∷◌, arith, Text, codes, same,
}
use comp310_winter.Store.{Memory, none_text, none_slot, slot, slot_at, find_var}
use comp310_winter.Store.Laws.{HasRoom}
use comp310_winter.A3.Memory.{mem_set_value, mem_get_value, frame_alloc, owned}
use comp310_winter.A3.Memory.Vars.{mem_get_value-mem_set_value}
use comp310_winter.A3.Memory.Alloc.{IsFreeRun, Allocated, frame_alloc-Allocated}
use comp310_winter.Stdio.{at_start}
use comp310_winter.A3.Pcb.{Loading, page_init, load_page, free_slots}
use comp310_winter.A3.Pcb.Load.{free_slots-overrun, load_page-stored}
use comp310_winter.A3.Shell.{Outcome, returned, run_tokens, parse_input}
use comp310_winter.A3.Shell.Lines.{AreCommands, parse_input-separated}

-- A frame store of six slots, of which the first is taken, and two variables.
abbrev store : Memory
store =
    slot (codes "p") (codes "set x 1")
    ∷ none_slot
    ∷ none_slot
    ∷ none_slot
    ∷ none_slot
    ∷ none_slot
    ∷ slot (codes "x") (codes "1")
    ∷ none_slot
    ∷ []

store-HasRoom : HasRoom 6 2 store (codes "y")
unfolding find_var
store-HasRoom = inr (λ e. cc)

mem_get_value-mem_set_value_example :
    let after = mem_set_value 6 2 (codes "y") (codes "2") store in
    (mem_get_value 6 2 (codes "y") 112 after ≡ codes "2")
    × ((j : Text)
        → codes "y" ≢ j
        → none_text ≢ j
        → mem_get_value 6 2 j 112 after ≡ mem_get_value 6 2 j 112 store)
    × ((i : ℕ) → i < 6 → slot_at after i ≡ slot_at store i)
mem_get_value-mem_set_value_example =
    mem_get_value-mem_set_value 6 2 (codes "y") (codes "2") 112 store (omega arith) store-HasRoom

none_ne_x : none_text ≢ codes "x"
none_ne_x e = ground (arith, ap (same none_text) e)

frame_alloc-Allocated_example :
    ((i : ℕ) × (m' : Memory) × (frame_alloc 6 2 (codes "q") store ≡ some (i, m'))
      × Allocated 6 2 (codes "q") store i m')
    ⊎ ((frame_alloc 6 2 (codes "q") store ≡ none) × ((j : ℕ) → ¬ IsFreeRun 6 2 j store))
frame_alloc-Allocated_example = frame_alloc-Allocated 6 2 (codes "q") store (omega arith)

free_slots-overrun_example :
    ((2 ≤ 6) × (6 < 2 + 5) → slot_at (free_slots (2 ∷ 3 ∷ 4 ∷ []) store) 6 ≡ none_slot)
    × ((6 < 2) ⊎ (2 + 5 ≤ 6) → slot_at (free_slots (2 ∷ 3 ∷ 4 ∷ []) store) 6 ≡ slot_at store 6)
free_slots-overrun_example = free_slots-overrun 2 store 6

abbrev loading : Loading
loading = record {
  page = page_init 1 0;
  memory = store;
  source = at_start (codes "a" ++ (b'\n' ∷ (codes "b" ++ (b'\n' ∷ (codes "c" ++ (b'\n' ∷ []))))));
}

loading-frame :
    frame_alloc 6 2 (codes "1") store
    ≡ some (1, owned (codes "1") (owned (codes "1") (owned (codes "1") store 1) 2) 3)
unfolding frame_alloc
loading-frame = refl

load_page-stored_example :
    (l' : Loading) × (load_page 6 2 (codes "1") loading ≡ some l')
    × (slot_at l'.memory 1 ≡ slot (codes "1") (codes "a" ++ (b'\n' ∷ [])))
    × (slot_at l'.memory 2 ≡ slot (codes "1") (codes "b" ++ (b'\n' ∷ [])))
    × (slot_at l'.memory 3 ≡ slot (codes "1") (codes "c" ++ (b'\n' ∷ [])))
    × (l'.page.index ≡ 1 ∷ 2 ∷ 3 ∷ [])
    × (l'.page.valid_bit ≡ true ∷ true ∷ true ∷ [])
    × (l'.source ≡ at_start [])
load_page-stored_example =
    load_page-stored 6 2 (codes "1") (codes "a") (codes "b") (codes "c") [] loading 1 _
      loading-frame (omega arith) (ground arith) refl

-- An interpreter that keeps the commands, and ends the shell on `quit`.
abbrev recorded : List Text → List (List Text) → Outcome (List (List Text))
recorded [] seen = returned (some 7) seen
recorded (c ∷ args) seen =
    if same c (codes "quit")
    then returned none seen
    else returned (some 0) (seen ++ ((c ∷ args) ∷ []))

abbrev commands : List (Text × List Text)
commands = (codes "set", codes "x" ∷ codes "1" ∷ []) ∷ (codes "quit", []) ∷ []

commands-AreCommands : AreCommands commands
commands-AreCommands = ground arith

parse_input-separated_example :
    parse_input recorded length (codes "set x 1;quit") []
    ≡ run_tokens recorded
        (λ seen. not (length seen == 0))
        (some 0)
        ((codes "set" ∷ codes "x" ∷ codes "1" ∷ []) ∷ (codes "quit" ∷ []) ∷ [])
        []
parse_input-separated_example =
    parse_input-separated recorded length (codes "set") (codes "x" ∷ codes "1" ∷ [])
      ((codes "quit", []) ∷ []) [] commands-AreCommands

-- ===== src/A3/Pcb/Load.antt =====
-- What loading a page stores, and what freeing a process clears.
use comp310_winter.Base.{
  ℕ, suc, ◌+◌, ◌-◌, ◌*◌, ◌≤◌, ◌<◌, ◌≡◌, refl, ap, ◌∙◌, ◌⊎◌, inl, true, false, some, [], ◌∷◌, ◌++◌,
  arith, Text, length, get_or-set_three, get_or, set, dec_lt,
}
use comp310_winter.Store.{Memory, none_slot, slot, slot_at}
use comp310_winter.Store.Clear.{slot_at-clear_outside, slot_at-clear_inside}
use comp310_winter.Stdio.{at_start, fgets}
use comp310_winter.Stdio.Lines.{Fits, fgets_line}
use comp310_winter.A3.Memory.{clear_frame, mem_set_value_at, frame_alloc}
use comp310_winter.A3.Pcb.{page_table_size, free_slots, Loading, store_read, load_lines, load_page}

clear_frame-inside :
    (i : ℕ) (m : Memory) (j : ℕ) → i ≤ j → j < i + 3 → slot_at (clear_frame i m) j ≡ none_slot
unfolding clear_frame
clear_frame-inside i m j a b = slot_at-clear_inside 3 i m j a b

clear_frame-outside :
    (i : ℕ) (m : Memory) (j : ℕ) → (j < i) ⊎ (i + 3 ≤ j) → slot_at (clear_frame i m) j ≡ slot_at m j
unfolding clear_frame
clear_frame-outside i m j out = slot_at-clear_outside 3 i m j out

freed-inside :
    (i : ℕ) (m : Memory) (j : ℕ)
    → i ≤ j
    → j < i + 5
    → slot_at (clear_frame (i + 2) (clear_frame (i + 1) (clear_frame i m))) j ≡ none_slot
freed-inside i m j a b = elim (dec_lt j (i + 2)) [
  | no behind ↦ clear_frame-inside (i + 2) _ j (omega arith) (omega arith)
  | yes front ↦ clear_frame-outside (i + 2) _ j (inl front) ∙ elim (dec_lt j (i + 1)) [
    | no second ↦ clear_frame-inside (i + 1) _ j (omega arith) (omega arith)
    | yes first ↦
        clear_frame-outside (i + 1) _ j (inl first) ∙ clear_frame-inside i m j a (omega arith)
  ]
]

-- Freeing the slots of the frame at `i` also frees the two slots behind it, and no other.
pub free_slots-overrun :
    (i : ℕ) (m : Memory) (j : ℕ)
    → ((i ≤ j) × (j < i + 5) → slot_at (free_slots (i ∷ (i + 1) ∷ (i + 2) ∷ []) m) j ≡ none_slot)
      × ((j < i) ⊎ (i + 5 ≤ j)
          → slot_at (free_slots (i ∷ (i + 1) ∷ (i + 2) ∷ []) m) j ≡ slot_at m j)
unfolding free_slots
free_slots-overrun i m j = (
  λ h. freed-inside i m j h.0 h.1,
  λ out.
      clear_frame-outside (i + 2) _ j (omega arith)
      ∙ clear_frame-outside (i + 1) _ j (omega arith)
      ∙ clear_frame-outside i m j (omega arith),
)

load_line : Text → ℕ → Text → Text → Loading → Loading
load_line pid j line rest l = record {
  page = record (l.page) { valid_bit = set l.page.valid_bit j true };
  memory = mem_set_value_at (get_or l.page.index j 0) pid (line ++ (b'\n' ∷ [])) l.memory;
  source = at_start rest;
}

load_lines-line :
    (pid : Text) (n j : ℕ) (line rest : Text) (l : Loading)
    → Fits 998 line
    → l.source ≡ at_start (line ++ (b'\n' ∷ rest))
    → load_lines pid (suc n) j l ≡ load_lines pid n (j + 1) (load_line pid j line rest l)
unfolding load_lines load_line store_read
load_lines-line pid n j line rest l fits at =
    ap (store_read (load_lines pid n (j + 1)) pid j l)
      (ap (fgets 998) at ∙ fgets_line 998 line rest false fits)

-- The pages of a process with at least one line have room for its lines, and the last of them is
-- needed.
pub page_table_size-lines :
    (lines : ℕ)
    → 0 < lines
    → (0 < page_table_size lines)
      × ((page_table_size lines - 1) * 3 < lines)
      × (lines ≤ page_table_size lines * 3)
unfolding page_table_size
page_table_size-lines lines h = ground arith

-- Where there is a frame, inside the memory, and the file goes on with three lines that fit the
-- buffer, `load_PAGE` stores them in the frame under the process's number, all three become valid,
-- and the file stands behind them.
pub load_page-stored :
    (frame_size var_size : ℕ) (pid a b c rest : Text) (l : Loading) (i : ℕ) (m : Memory)
    → frame_alloc frame_size var_size pid l.memory ≡ some (i, m)
    → i + 2 < length m
    → Fits 998 a × Fits 998 b × Fits 998 c
    → l.source ≡ at_start (a ++ (b'\n' ∷ (b ++ (b'\n' ∷ (c ++ (b'\n' ∷ rest))))))
    → (l' : Loading) × (load_page frame_size var_size pid l ≡ some l')
      × (slot_at l'.memory i ≡ slot pid (a ++ (b'\n' ∷ [])))
      × (slot_at l'.memory (i + 1) ≡ slot pid (b ++ (b'\n' ∷ [])))
      × (slot_at l'.memory (i + 2) ≡ slot pid (c ++ (b'\n' ∷ [])))
      × (l'.page.index ≡ i ∷ (i + 1) ∷ (i + 2) ∷ [])
      × (l'.page.valid_bit ≡ true ∷ true ∷ true ∷ [])
      × (l'.source ≡ at_start rest)
unfolding load_page load_lines load_line mem_set_value_at
load_page-stored frame_size var_size pid a b c rest l i m found inside fits at =
    let start : Loading = record {
      page = record (l.page) {
        index = i ∷ (i + 1) ∷ (i + 2) ∷ [];
        valid_bit = false ∷ false ∷ false ∷ [];
      };
      memory = m;
      source = l.source;
    } in
    let one = load_line pid 0 a (b ++ (b'\n' ∷ (c ++ (b'\n' ∷ rest)))) start in
    let two = load_line pid 1 b (c ++ (b'\n' ∷ rest)) one in
    let (at_a, at_b, at_c) = get_or-set_three m i _ _ _ none_slot inside in
    (
      load_line pid 2 c rest two,
      rw (found, load_page)
          (ap some (
            load_lines-line pid 2 0 a _ start fits.0 at
            ∙ load_lines-line pid 1 1 b _ one fits.1 refl
            ∙ load_lines-line pid 0 2 c rest two fits.2 refl)),
      at_a,
      at_b,
      at_c,
      refl,
      refl,
      refl,
    )

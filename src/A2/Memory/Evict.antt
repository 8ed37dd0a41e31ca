-- ===== src/A2/Memory/Evict.antt =====
-- `replace_page` of a2/shellmemory.c with no free frame, where it empties the oldest one.
use comp310_winter.Base.{
  ℕ, ◌+◌, ◌*◌, ◌%◌, ◌≤◌, ◌<◌, ◌≡◌, ◌≢◌, refl, sym, ap, ◌∙◌, inl, inr, none, [], ◌∷◌, arith, true,
  false, Option-cases, Text, same, same_ne, length, set, All,
}
use comp310_winter.Store.{Slot, Memory, none_text, slot_at, var_at}
use comp310_winter.Store.Clear.{length-clear_range, slot_at-clear_outside, slot_at-clear_inside}
use comp310_winter.A2.Pcb.{Pcb}
use comp310_winter.A2.ReadyQueue.{Queue}
use comp310_winter.A2.Memory.{
  Ram, frame_count, free_frame, victim_lines, mem_free_lines_between, get_oldest, replace_page,
  invalidate_pcb, invalidate_found, copy_to_mem,
}
use comp310_winter.A2.Memory.Oldest.{get_oldest-IsOldest}
use comp310_winter.A2.Memory.Paging.{
  PageAt, Loaded, copied-holds, copied-variables, replace_page-free, victim_lines-le,
  free_frame-none,
}

table-invalidate : (frame : ℕ) (p : Pcb) → (invalidate_pcb frame p).page_table ≡ p.page_table
unfolding invalidate_pcb
table-invalidate frame p = refl

module _ (frame_size var_size : ℕ) where
  -- The index of the victim in `shellmemory`, and the slots after its lines were freed.
  abbrev pub victim : Ram → ℕ
  victim r = get_oldest frame_size var_size r.age + var_size

  abbrev pub emptied : Ram → Memory
  emptied r =
      mem_free_lines_between frame_size var_size (victim r)
        (victim r + length (victim_lines frame_size var_size 3 (victim r) r.cells)) r.cells

  module _ (r : Ram) (whole : frame_size % 3 ≡ 0) (some_frame : 0 < frame_size)
      (size : length r.cells ≡ var_size + frame_size)
      (full : free_frame frame_size var_size (frame_count frame_size var_size) var_size r.cells
        ≡ none) where
    pub victim_within : victim r + 3 ≤ var_size + frame_size
    victim_within =
        let o = get_oldest-IsOldest frame_size var_size r.age some_frame in
        omega (arith, o.starts.1, o.starts.2)

    pub length-emptied : length (emptied r) ≡ length r.cells
    unfolding mem_free_lines_between
    length-emptied = length-clear_range _ (victim r) r.cells

    slot_at-emptied : (j : ℕ) → j < victim r → slot_at (emptied r) j ≡ slot_at r.cells j
    unfolding mem_free_lines_between
    slot_at-emptied j h = slot_at-clear_outside _ (victim r) r.cells j (inl h)

    victim_used : same (var_at r.cells (victim r)) none_text ≡ false
    victim_used =
        let o = get_oldest-IsOldest frame_size var_size r.age some_frame in
        let e : victim r ≡ var_size + 3 * o.starts.0 = omega (arith, o.starts.1) in
        rw e (free_frame-none frame_size var_size _ var_size r.cells o.starts.0 full o.starts.2)

    victim_lines-pos : 0 < length (victim_lines frame_size var_size 3 (victim r) r.cells)
    unfolding victim_lines
    victim_lines-pos = ground (arith, victim_used)

    -- The first slot of the victim is free again when the owner of the frame is looked up.
    pub var_at-emptied : var_at (emptied r) (victim r) ≡ none_text
    unfolding mem_free_lines_between
    var_at-emptied =
        ap (λ (y : Slot). y.var)
          (slot_at-clear_inside _ (victim r) r.cells (victim r) (omega arith) (
            omega (
              arith,
              victim_within,
              victim_lines-pos,
              victim_lines-le frame_size var_size 3 (victim r) r.cells,
            )))

    module _ (pcb : Pcb) (page : ℕ) (q : Queue) (named : none_text ≢ pcb.filename) where
      pub replace_page_lem : replace_page frame_size var_size pcb page q r ≡ record {
        pcb = record pcb {
          page_table = set pcb.page_table page (victim r);
          valid_page = set pcb.valid_page page true;
        };
        queue = invalidate_found none_text (victim r) q;
        ram =
            (copy_to_mem frame_size var_size
              (pcb.pc * 3)
              pcb.fp
              pcb.filename
              (victim r)
              (record r { cells = emptied r })).0;
        printed = victim_lines frame_size var_size 3 (victim r) r.cells;
      }
      unfolding replace_page
      replace_page_lem =
          rw (full, replace_page, var_at-emptied, same_ne none_text pcb.filename named) refl

      replace_page-full :
          {a b c : Text}
          → PageAt frame_size var_size pcb a b c
          → Loaded frame_size var_size pcb page r a b c
              (replace_page frame_size var_size pcb page q r)
      replace_page-full {a} {b} {c} w = rw replace_page_lem (record {
        frame = victim r;
        table = refl;
        behind = omega arith;
        within = omega (arith, victim_within);
        holds =
            copied-holds frame_size var_size pcb page q r w whole some_frame size (victim r)
              (record r { cells = emptied r }) (omega (arith, victim_within, length-emptied));
        variables = λ j h.
            copied-variables frame_size var_size pcb page q r w whole some_frame size (victim r)
              (record r { cells = emptied r }) j (omega arith)
            ∙ slot_at-emptied j (omega arith);
      })

-- No process is called by the name of a free slot.
abbrev pub AreNamed : Queue → Type 0
AreNamed = All (λ (p : Pcb). none_text ≢ p.filename)

pub invalidate_found-none :
    (frame : ℕ) (q : Queue) → AreNamed q → invalidate_found none_text frame q ≡ q
unfolding invalidate_found
invalidate_found-none frame [] h = refl
invalidate_found-none frame (p ∷ q) h =
    rw (same_ne p.filename none_text (λ e. h.0 (sym e)), invalidate_found)
      (ap (◌∷◌ p) (invalidate_found-none frame q h.1))

module _ (frame_size var_size : ℕ) (pcb : Pcb) (page : ℕ) (q : Queue) (r : Ram)
    (whole : frame_size % 3 ≡ 0) (some_frame : 0 < frame_size)
    (size : length r.cells ≡ var_size + frame_size) (named : none_text ≢ pcb.filename) where
  -- After `replace_page`, with a free frame or not, the page table leads to a frame that holds the
  -- three lines of the page under the process's file name, and the variables are as they were. The
  -- memory has its size, with at least one frame and whole frames only, the process is not called
  -- by the name of a free slot, and the page and the lines in front of it are whole lines that fit
  -- the buffer.
  pub replace_page-Loaded :
      {a b c : Text}
      → PageAt frame_size var_size pcb a b c
      → Loaded frame_size var_size pcb page r a b c (replace_page frame_size var_size pcb page q r)
  replace_page-Loaded w =
      elim (Option-cases
        (free_frame frame_size var_size (frame_count frame_size var_size) var_size r.cells)) [
          | inl full ↦
              replace_page-full frame_size var_size r whole some_frame size full pcb page q named w
          | inr (f, e) ↦
              replace_page-free frame_size var_size pcb page q r w whole some_frame size f e
        ]

  -- With no free frame, the page gets the frame of the victim, but the ready queue is as it was,
  -- valid bits included, also for a process with a page in that frame; the process that is served
  -- keeps the valid bits it had and has that of its new page. The memory has its size, with at
  -- least one frame and whole frames only, and no process is called by the name of a free slot.
  pub replace_page-stale :
      free_frame frame_size var_size (frame_count frame_size var_size) var_size r.cells ≡ none
      → AreNamed q
      → let out = replace_page frame_size var_size pcb page q r in
        (out.pcb.page_table ≡ set pcb.page_table page (victim frame_size var_size r))
        × (out.queue ≡ q)
        × (out.pcb.valid_page ≡ set pcb.valid_page page true)
  replace_page-stale full named_queue =
      rw (replace_page_lem frame_size var_size r whole some_frame size full pcb page q named)
        (refl, invalidate_found-none (victim frame_size var_size r) q named_queue, refl)

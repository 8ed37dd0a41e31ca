-- ===== src/A2/Memory/Frames.antt =====
-- Where `replace_page` puts a page, whatever the file holds.
use comp310_winter.Base.{
  ℕ, ◌+◌, ◌*◌, ◌%◌, ◌<◌, ◌≤◌, ◌≡◌, ◌≢◌, refl, ◌∙◌, inl, inr, true, Option, none, some, arith,
  Option-cases, Bool-cases, Text, length, length-set, set,
}
use comp310_winter.Store.{none_text, slot}
use comp310_winter.Stdio.{Stream, fgets}
use comp310_winter.A2.Pcb.{Pcb}
use comp310_winter.A2.ReadyQueue.{Queue}
use comp310_winter.A2.Memory.{
  Ram, Replaced, frame_count, free_frame, store_line, load_line, copy_to_mem, replace_page,
}
use comp310_winter.A2.Memory.Paging.{free_frame-some}
use comp310_winter.A2.Memory.Evict.{
  victim, victim_within, length-emptied, replace_page_lem, AreNamed, invalidate_found-none,
}

length-store_line :
    (j : ℕ) (filename : Text) (r : Ram) (o : Option Text × Stream)
    → length (store_line j filename r o).0.cells ≡ length r.cells
unfolding store_line
length-store_line j filename r (none, st) = refl
length-store_line j filename r (some line, st) = length-set r.cells j (slot filename line)

module _ (frame_size var_size : ℕ) where
  length-load_line :
      (j : ℕ) (filename : Text) (s : Ram × Stream)
      → length (load_line frame_size var_size j filename s).0.cells ≡ length s.0.cells
  unfolding load_line fgets
  length-load_line j filename (r, st) = elim (Bool-cases st.eof) [
    | inl e ↦ rw (e, load_line) refl
    | inr e ↦ rw (e, load_line) (length-store_line j filename _ (fgets 99 st))
  ]

  length-copy_to_mem :
      (index : ℕ) (fp filename : Text) (i : ℕ) (r : Ram)
      → length (copy_to_mem frame_size var_size index fp filename i r).0.cells ≡ length r.cells
  unfolding copy_to_mem
  length-copy_to_mem index fp filename i r =
      length-load_line (i + 2) filename _
      ∙ length-load_line (i + 1) filename _
      ∙ length-load_line i filename _

  -- The process and the queue behind `replace_page`: the page has a frame of the memory, and nothing
  -- else of them has changed.
  pub record Placed (pcb : Pcb) (page : ℕ) (q : Queue) (r : Ram) (out : Replaced) : Type 0 where
    pub frame : ℕ
    pub behind : var_size ≤ frame
    pub within : frame + 3 ≤ var_size + frame_size
    pub pcb_lem : out.pcb ≡ record pcb {
      page_table = set pcb.page_table page frame;
      valid_page = set pcb.valid_page page true;
    }
    pub queue_lem : out.queue ≡ q
    pub size : length out.ram.cells ≡ length r.cells

  module _ (pcb : Pcb) (page : ℕ) (q : Queue) (r : Ram) (whole : frame_size % 3 ≡ 0)
      (some_frame : 0 < frame_size) (size : length r.cells ≡ var_size + frame_size) where
    replace_page-found :
        (f : ℕ)
        → free_frame frame_size var_size (frame_count frame_size var_size) var_size r.cells ≡ some f
        → Placed pcb page q r (replace_page frame_size var_size pcb page q r)
    unfolding replace_page
    replace_page-found f e =
        let (k, at, below, _) = free_frame-some frame_size var_size _ var_size r.cells e in
        rw (e, replace_page)
          (record {
            frame = f;
            behind = omega arith;
            within = omega arith;
            pcb_lem = refl;
            queue_lem = refl;
            size = length-copy_to_mem (pcb.pc * 3) pcb.fp pcb.filename f r;
          })

    pub replace_page-Placed :
        none_text ≢ pcb.filename
        → AreNamed q
        → Placed pcb page q r (replace_page frame_size var_size pcb page q r)
    replace_page-Placed named all_named =
        elim (Option-cases
          (free_frame frame_size var_size (frame_count frame_size var_size) var_size r.cells)) [
            | inr (f, e) ↦ replace_page-found f e
            | inl full ↦
                rw
                  (replace_page_lem frame_size var_size r whole some_frame size full pcb page q
                    named)
                  (record {
                    frame = victim frame_size var_size r;
                    behind = omega arith;
                    within =
                        omega
                          (arith, victim_within frame_size var_size r whole some_frame size full);
                    pcb_lem = refl;
                    queue_lem = invalidate_found-none (victim frame_size var_size r) q all_named;
                    size =
                        length-copy_to_mem (pcb.pc * 3) pcb.fp pcb.filename
                          (victim frame_size var_size r) _
                        ∙ length-emptied frame_size var_size r whole some_frame size full;
                  })
          ]

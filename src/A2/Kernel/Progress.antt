-- ===== src/A2/Kernel/Progress.antt =====
-- A page fault in `execute_process` of a2/kernel.c: the process that it queues and what is left to do.
use comp310_winter.Base.{
  ℕ, suc, ◌+◌, ◌%◌, ◌<◌, ◌≡◌, refl, ap, ◌∙◌, true, false, [], ◌∷◌, arith, length, get_or, All, Text,
  set, get_or-set_self,
}
use comp310_winter.A2.Pcb.{Pcb}
use comp310_winter.A2.ReadyQueue.{Queue, add_to_tail}
use comp310_winter.A2.Memory.{replace_page}
use comp310_winter.A2.Memory.Evict.{AreNamed}
use comp310_winter.A2.Memory.Frames.{replace_page-Placed}
use comp310_winter.A2.Kernel.{Kernel, Run, ok, handled, faulted, execute_process}
use comp310_winter.A2.Kernel.Runnable.{
  IsRunnable, placed-IsRunnable, position, remaining, count_false-set,
}

module _ (frame_size var_size : ℕ) where
  abbrev pub AreRunnable : Queue → Type 0
  AreRunnable = All (IsRunnable frame_size var_size)

  AreRunnable-AreNamed : (q : Queue) → AreRunnable q → AreNamed q
  AreRunnable-AreNamed [] h = tt
  AreRunnable-AreNamed (p ∷ q) h = (h.0.named, AreRunnable-AreNamed q h.1)

  -- The memory has its size, and the schedulers do not wait for more work.
  pub record IsReady (k : Kernel) : Type 0 where
    pub size : length k.ram.cells ≡ var_size + frame_size
    pub idle : k.active ≡ false

  module _ (parse_input : Text → Kernel → Run ℕ) (whole : frame_size % 3 ≡ 0)
      (some_frame : 0 < frame_size) where
    -- With a quantum of one line at least, a process whose page is not loaded runs no line: it
    -- goes to the tail of the ready queue, which is else as it was, at the same line, with its
    -- page now loaded and one page less to load, and can run. The memory has its size, with at
    -- least one frame and whole frames only, `active` is not set, and this process and every
    -- queued one can run.
    pub execute_process-faults :
        (n : ℕ) (p : Pcb) (k : Kernel)
        → IsRunnable frame_size var_size p
        → IsReady k
        → AreRunnable k.queue
        → get_or p.valid_page p.pc false ≡ false
        → (p' : Pcb) × (k' : Kernel) × (execute_process frame_size var_size parse_input (suc n) p k
            ≡ ok handled k')
          × IsReady k'
          × (k'.queue ≡ add_to_tail p' k.queue)
          × IsRunnable frame_size var_size p'
          × (get_or p'.valid_page p'.pc false ≡ true)
          × (position p' ≡ position p)
          × (suc (remaining p') ≡ remaining p)
    unfolding execute_process
    execute_process-faults n p k w ready all invalid =
        let out = replace_page frame_size var_size p p.pc k.queue k.ram in
        let placed =
          replace_page-Placed frame_size var_size p p.pc k.queue k.ram whole some_frame ready.size
            w.named (AreRunnable-AreNamed k.queue all) in
        let p' = record p {
          page_table = set p.page_table p.pc placed.frame;
          valid_page = set p.valid_page p.pc true;
        } in
        let on_page : p.pc < length p.valid_page = omega (arith, w.on_page, w.valid_size) in
        (
          p',
          faulted k out,
          rw (invalid, execute_process) refl,
          record { size = placed.size ∙ ready.size; idle = ready.idle },
          ap (add_to_tail out.pcb) placed.queue_lem
              ∙ ap (λ (q : Pcb). add_to_tail q k.queue) placed.pcb_lem,
          placed-IsRunnable frame_size var_size p placed.frame w placed.behind placed.within,
          get_or-set_self p.valid_page p.pc true false on_page,
          refl,
          omega (arith, count_false-set p.valid_page p.pc invalid on_page),
        )

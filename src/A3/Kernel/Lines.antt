-- ===== src/A3/Kernel/Lines.antt =====
-- What `run_proc` of a3/kernel.c does with a line of a process.
use mathlib.Core.Path.{ap₂}
use comp310_winter.Base.{
  ℕ, ◌+◌, ◌-◌, ◌==◌, ==_iff, ==_ne, ◌≡◌, ◌≢◌, refl, sym, ap, ◌∙◌, Bool, true, false, Bool-cases,
  Option, none, some, List, [], ◌∷◌, arith, if◌then◌else◌, Text, get_or, get_elem?, set, inl, inr,
}
use comp310_winter.Store.{Memory}
use comp310_winter.A3.Memory.{mem_get_value_at}
use comp310_winter.A3.Pcb.{Pcb, Page, page_equal}
use comp310_winter.A3.Kernel.{
  Kernel, Run, ok, and_then, find_pcb, put_pcb, page_at, remove_page, cpu_run, touch_page,
  page_fault, run_proc,
}

-- Behind a line, the process has one more in the counter of the page and one less to go.
abbrev pub stepped : Pcb → ℕ → Pcb
stepped p i = record p {
  program_counter = set p.program_counter i (get_or p.program_counter i 0 + 1);
  size = p.size - 1;
}

pub find_pcb-pid : (pid : ℕ) (ps : List Pcb) (p : Pcb) → find_pcb pid ps ≡ some p → p.pid ≡ pid
unfolding find_pcb
find_pcb-pid pid [] p e = ground (arith, e)
find_pcb-pid pid (q ∷ ps) p e = ground (arith, e, find_pcb-pid pid ps p)

-- A process that is changed is found as it is now, and the others as they were.
pub find_pcb-put_pcb :
    (pid : ℕ) (ps : List Pcb) (p q : Pcb)
    → find_pcb q.pid ps ≡ some p
    → find_pcb pid (put_pcb q ps) ≡ (if q.pid == pid then some q else find_pcb pid ps)
unfolding find_pcb put_pcb
find_pcb-put_pcb pid [] p q e = ground (arith, e)
find_pcb-put_pcb pid (r ∷ ps) p q e = ground (arith, find_pcb-put_pcb pid ps p q, e)

put_pcb-page_at :
    (ps : List Pcb) (p q : Pcb) (key : ℕ × ℕ)
    → find_pcb q.pid ps ≡ some p
    → q.page_table ≡ p.page_table
    → page_at (put_pcb q ps) key ≡ page_at ps key
put_pcb-page_at ps p q key e same = elim (Bool-cases (q.pid == key.0)) [
  | inl same_pid ↦
      ap look (
        find_pcb-put_pcb key.0 ps p q e
        ∙ ap (λ b. if b then some q else find_pcb key.0 ps) same_pid)
      ∙ ap (λ table. get_elem? table key.1) same
      ∙ ap look (sym e ∙ ap (λ pid. find_pcb pid ps) ((==_iff q.pid key.0).0 same_pid))
  | inr other ↦
      ap look
        (find_pcb-put_pcb key.0 ps p q e ∙ ap (λ b. if b then some q else find_pcb key.0 ps) other)
]
  where
    look : Option Pcb → Option Page
    look o = elim o [ none ↦ none | some r ↦ get_elem? r.page_table key.1 ]

remove_page-cong :
    (ps qs : List Pcb) (target : Page) (lru : List (ℕ × ℕ))
    → ((key : ℕ × ℕ) → page_at qs key ≡ page_at ps key)
    → remove_page qs target lru ≡ remove_page ps target lru
unfolding remove_page
remove_page-cong ps qs target [] h = refl
remove_page-cong ps qs target (key ∷ lru) h =
    ap₂
      (λ (o : Option Page) (rest : Option ((ℕ × ℕ) × List (ℕ × ℕ))). elim o [
        | none ↦ none
        | some page ↦
            if page_equal target page
            then some (key, lru)
            else elim rest [ none ↦ none | some (r, others) ↦ some (r, key ∷ others) ]
      ])
      (h key) (remove_page-cong ps qs target lru h)

module _ (frame_size var_size : ℕ) {S : Type 0}
    (parse_input : Text → Kernel S → Run S (Option ℕ)) where
  -- What a command that leaves the processes and the pages alone makes of the kernel.
  abbrev pub changed : Kernel S → Memory → List Text → S → Kernel S
  changed k m out s = record k { memory = m; printed = out; shell = s }

  -- The kernel behind a line.
  abbrev pub line_done : Kernel S → Pcb → ℕ → List (ℕ × ℕ) → Kernel S
  line_done k p i lru = record k { all_pcb = put_pcb (stepped p i) k.all_pcb; lru_cache = lru }

  module _ (k : Kernel S) (pid i j : ℕ) (p : Pcb) (page : Page) (m : Memory) (out : List Text)
      (s : S) (found : find_pcb pid k.all_pcb ≡ some p)
      (in_table : get_elem? p.page_table i ≡ some page) where
    cpu_run-valid :
        (ret : Option ℕ)
        → get_or page.valid_bit j false ≡ true
        → parse_input (mem_get_value_at (get_or page.index j 0) k.memory) k
          ≡ ok ret (changed k m out s)
        → cpu_run frame_size var_size parse_input pid i j k
          ≡ ok ret (record (changed k m out s) { all_pcb = put_pcb (stepped p i) k.all_pcb })
    unfolding cpu_run
    cpu_run-valid ret valid runs = simp (found, in_table, valid, runs)

    touch_page-first :
        (key : ℕ × ℕ) (others : List (ℕ × ℕ))
        → remove_page k.all_pcb page k.lru_cache ≡ some (key, others)
        → touch_page frame_size var_size pid i
            (record (changed k m out s) { all_pcb = put_pcb (stepped p i) k.all_pcb })
          ≡ ok tt (line_done (changed k m out s) p i (key ∷ others))
    unfolding touch_page
    touch_page-first key others removed = simp (kept_page, kept_removal)
      where
        kept : (key : ℕ × ℕ) → page_at (put_pcb (stepped p i) k.all_pcb) key ≡ page_at k.all_pcb key
        kept key' =
            put_pcb-page_at k.all_pcb p (stepped p i) key'
              (ap (λ n. find_pcb n k.all_pcb) (find_pcb-pid pid k.all_pcb p found) ∙ found) refl

        kept_page : page_at (put_pcb (stepped p i) k.all_pcb) (pid, i) ≡ some page
        kept_page = kept (pid, i) ∙ ap look found ∙ in_table
          where
            look : Option Pcb → Option Page
            look o = elim o [ none ↦ none | some r ↦ get_elem? r.page_table i ]

        kept_removal :
            remove_page (put_pcb (stepped p i) k.all_pcb) page k.lru_cache ≡ some (key, others)
        kept_removal =
            remove_page-cong k.all_pcb (put_pcb (stepped p i) k.all_pcb) page k.lru_cache kept
            ∙ removed

    -- What `run_proc` does with the result of the command.
    abbrev judged : Option ℕ → Kernel S → Run S Bool
    judged ret k' = elim ret [
      | none ↦ and_then (touch_page frame_size var_size pid i k') λ _ k''. ok false k''
      | some n ↦
          if n == 1
          then and_then (page_fault frame_size var_size pid i k') (λ _ k''. ok true k'')
          else and_then (touch_page frame_size var_size pid i k') (λ _ k''. ok false k'')
    ]

    judged-quiet :
        (ret : Option ℕ) (k' : Kernel S)
        → ret ≢ some 1
        → judged ret k' ≡ and_then (touch_page frame_size var_size pid i k') λ _ k''. ok false k''
    judged-quiet none k' quiet = refl
    judged-quiet (some n) k' quiet =
        ap
          (λ b.
            if b
            then and_then (page_fault frame_size var_size pid i k') (λ _ k''. ok true k'')
            else and_then (touch_page frame_size var_size pid i k') (λ _ k''. ok false k''))
          (==_ne n 1 (λ e. quiet (ap some e)))

    -- For a valid slot whose command returns anything but 1 and changes only the memory, what is
    -- printed and the shell, `run_proc` reports no page fault: the command was given the line in
    -- the slot, the process has one more in the counter of the page and one line less to go, and
    -- the first page of the list that equals this one is at the head of the list.
    pub run_proc-hit :
        (ret : Option ℕ) (key : ℕ × ℕ) (others : List (ℕ × ℕ))
        → get_or page.valid_bit j false ≡ true
        → parse_input (mem_get_value_at (get_or page.index j 0) k.memory) k
          ≡ ok ret (changed k m out s)
        → ret ≢ some 1
        → remove_page k.all_pcb page k.lru_cache ≡ some (key, others)
        → run_proc frame_size var_size parse_input pid i j k
          ≡ ok false (line_done (changed k m out s) p i (key ∷ others))
    unfolding run_proc
    run_proc-hit ret key others valid runs quiet removed =
        ap (λ r. and_then r judged) (cpu_run-valid ret valid runs)
        ∙ judged-quiet ret _ quiet
        ∙ ap (λ r. and_then r λ _ k''. ok false k'') (touch_page-first key others removed)

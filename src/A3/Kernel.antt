-- ===== src/A3/Kernel.antt =====
-- a3/kernel.c and a3/cpu.c. A process is known by its `pid`, which is unique, and a page by its process
-- and its index there. QUEUE, LRU_CACHE and ALL_PCB are the lists that the operations of
-- a3/linked_list.c keep. `parse_input` stands for `parseInput` of a3/shell.c, `none` being -1, and the
-- scripts of the backing store are what `find_file` finds there. The loops run on fuel.
pub mod Lines
pub mod Frames
pub mod Faults
use comp310_winter.Base.{
  ℕ, zero, suc, ◌+◌, ◌-◌, ◌==◌, ltb, not, ◌&&◌, Bool, true, false, Option, none, some, List, [],
  ◌∷◌, ◌++◌, if◌then◌else◌, Text, get_or, get_elem?, set, length, map,
}
use comp310_winter.Store.{Memory}
use comp310_winter.A2.Kernel.{decimal}
use comp310_winter.A3.Memory.{mem_get_value_at}
use comp310_winter.A3.Pcb.{
  Pcb, Page, Loading, load_page, pcb_init, free_pcb, page_evict, pcb_done, proc_done, page_equal,
}

pub record Kernel (S : Type 0) : Type 0 where
  pub all_pcb : List Pcb
  pub queue : List ℕ
  pub lru_cache : List (ℕ × ℕ)
  pub pid_counter : ℕ
  pub memory : Memory
  pub printed : List Text
  pub shell : S

-- How a call ends: it returns, it ends the shell by `exit(99)`, it uses what is not there, or the fuel
-- does not suffice.
pub data Run (S X : Type 0) : Type 0 where
  ok : X → Kernel S → Run S X
  exited : Run S X
  fault : Run S X
  out_of_fuel : Run S X

-- A process by its number, and the processes with one of them changed.
unfoldable pub find_pcb : ℕ → List Pcb → Option Pcb
find_pcb pid [] = none
find_pcb pid (p ∷ ps) = let rest = find_pcb pid ps in if p.pid == pid then some p else rest

unfoldable pub put_pcb : Pcb → List Pcb → List Pcb
put_pcb q [] = []
put_pcb q (p ∷ ps) = let rest = put_pcb q ps in if p.pid == q.pid then q ∷ ps else p ∷ rest

-- `for (i = 0; i < page_table_size; i++) if (program_counter[i] != 3) break;`
unfoldable pub first_open : List ℕ → ℕ
first_open [] = 0
first_open (n ∷ pc) = let rest = first_open pc in if n == 3 then suc rest else 0

abbrev pub page_at : List Pcb → ℕ × ℕ → Option Page
page_at ps (pid, i) = elim (find_pcb pid ps) [ none ↦ none | some p ↦ get_elem? p.page_table i ]

-- `remove_elem` in LRU_CACHE: the first page that starts where the given one does, and the others.
-- Behind the last it compares with data that was never set.
unfoldable pub remove_page : List Pcb → Page → List (ℕ × ℕ) → Option ((ℕ × ℕ) × List (ℕ × ℕ))
remove_page ps target [] = none
remove_page ps target (k ∷ ks) =
    let rest = remove_page ps target ks in
    elim (page_at ps k) [
      | none ↦ none
      | some page ↦
          if page_equal target page
          then some (k, ks)
          else elim rest [ none ↦ none | some (r, others) ↦ some (r, k ∷ others) ]
    ]

-- The last element and those in front of it.
unfoldable pub split_last : {X : Type 0} → List X → Option (X × List X)
split_last [] = none
split_last (x ∷ xs) = elim (split_last xs) [
  | none ↦ some (x, [])
  | some (l, front) ↦ some (l, x ∷ front)
]

-- A process whose page is loaded or evicted.
abbrev pub with_page : Pcb → ℕ → Page → Pcb
with_page p i page = record p { page_table = set p.page_table i page }

-- The pages that a new process has in memory.
abbrev pub first_pages : Pcb → List (ℕ × ℕ) → List (ℕ × ℕ)
first_pages p lru =
    let size = length p.page_table in
    if size == 0 then lru else if size == 1 then (p.pid, 0) ∷ lru else (p.pid, 1) ∷ (p.pid, 0) ∷ lru

-- The first valid slot from the page `i` on, at most `n` pages ahead: its page and its place there.
unfoldable pub first_valid : ℕ → List Page → Option (ℕ × ℕ)
first_valid i [] = none
first_valid i (p ∷ ps) =
    let rest = first_valid (i + 1) ps in
    if get_or p.valid_bit 0 false
    then some (i, 0)
    else if get_or p.valid_bit 1 false
    then some (i, 1)
    else if get_or p.valid_bit 2 false
    then some (i, 2)
    else rest

abbrev pub and_then : {S X Y : Type 0} → Run S X → (X → Kernel S → Run S Y) → Run S Y
and_then (ok x k) f = f x k
and_then exited f = exited
and_then fault f = fault
and_then out_of_fuel f = out_of_fuel

abbrev pub or_fault : {S X Y : Type 0} → Option X → (X → Run S Y) → Run S Y
or_fault none f = fault
or_fault (some x) f = f x

module _ (frame_size var_size : ℕ) {S : Type 0} where
  -- `load_PAGE` on the page `i` of the process: `false` is its return value 1, without a frame.
  unfoldable pub load_page_of : Pcb → ℕ → Kernel S → Run S Bool
  load_page_of p i k = or_fault (get_elem? p.page_table i) λ page.
      elim (load_page frame_size var_size (decimal 10 p.pid)
        (record { page = page; memory = k.memory; source = p.source_file })) [
          | none ↦ ok false k
          | some l ↦ ok true (record k {
            all_pcb = put_pcb (record (with_page p i l.page) { source_file = l.source }) k.all_pcb;
            memory = l.memory;
          })
        ]

  -- `PAGE_evict` on the page that was used least recently. The walk to its process goes on through the
  -- end of ALL_PCB if there is none.
  unfoldable pub evict_victim : Kernel S → Run S (Unit {0})
  evict_victim k = elim (split_last k.lru_cache) [
    | none ↦ exited
    | some (victim, lru) ↦ or_fault (find_pcb victim.0 k.all_pcb) λ p.
        or_fault (get_elem? p.page_table victim.1) λ page.
          let (printed, page', m) = page_evict page k.memory in
          ok tt (record k {
            all_pcb = put_pcb (with_page p victim.1 page') k.all_pcb;
            lru_cache = lru;
            memory = m;
            printed = k.printed ++ printed;
          })
  ]

  -- The page fault of `run_proc`.
  unfoldable pub page_fault : ℕ → ℕ → Kernel S → Run S (Unit {0})
  unfolding load_page_of evict_victim
  page_fault pid i k = or_fault (find_pcb pid k.all_pcb) λ p.
      and_then
        (and_then (load_page_of p i k) λ loaded k'.
          if loaded
          then ok tt k'
          else and_then (evict_victim k') λ _ k''.
            or_fault (find_pcb pid k''.all_pcb)
              λ p'. and_then (load_page_of p' i k'') λ _ k3. ok tt k3)
        λ _ k'.
          ok tt (record k' { lru_cache = (pid, i) ∷ k'.lru_cache; queue = k'.queue ++ (pid ∷ []) })

  -- The page moves to the head of LRU_CACHE.
  unfoldable pub touch_page : ℕ → ℕ → Kernel S → Run S (Unit {0})
  touch_page pid i k = or_fault (page_at k.all_pcb (pid, i)) λ page.
      or_fault (remove_page k.all_pcb page k.lru_cache)
        λ (key, others). ok tt (record k { lru_cache = key ∷ others })

  -- `new_proc`, which returns 0.
  unfoldable pub new_proc : (Text → S → Option Text) → Text → Kernel S → Run S (Unit {0})
  new_proc find_file script k =
      elim (pcb_init frame_size var_size k.pid_counter (find_file script k.shell) k.memory) [
        | none ↦ exited
        | some (p, m) ↦ ok tt (record k {
          pid_counter = k.pid_counter + 1;
          all_pcb = k.all_pcb ++ (p ∷ []);
          queue = k.queue ++ (p.pid ∷ []);
          lru_cache = first_pages p k.lru_cache;
          memory = m;
        })
      ]

  module _ (parse_input : Text → Kernel S → Run S (Option ℕ)) where
    -- `cpu_run` on the slot `j` of the page `i`. The counters are those of the process behind the
    -- command, which may have freed it.
    unfoldable pub cpu_run : ℕ → ℕ → ℕ → Kernel S → Run S (Option ℕ)
    cpu_run pid i j k = or_fault (find_pcb pid k.all_pcb) λ p.
        or_fault (get_elem? p.page_table i) λ page.
          if not (get_or page.valid_bit j false)
          then ok (some 1) k
          else and_then (parse_input (mem_get_value_at (get_or page.index j 0) k.memory) k)
              λ ret k'. or_fault (find_pcb pid k'.all_pcb) λ p'. ok ret (record k' {
                all_pcb =
                    put_pcb
                      (record p' {
                        program_counter =
                            set p'.program_counter i (get_or p'.program_counter i 0 + 1);
                        size = p'.size - 1;
                      })
                      k'.all_pcb;
              })

    -- `run_proc`: whether there was a page fault. A command that returns 1 is taken for one.
    unfoldable pub run_proc : ℕ → ℕ → ℕ → Kernel S → Run S Bool
    unfolding cpu_run page_fault touch_page
    run_proc pid i j k = and_then (cpu_run pid i j k) λ ret k'. elim ret [
      | none ↦ and_then (touch_page pid i k') λ _ k''. ok false k''
      | some n ↦
          if n == 1
          then and_then (page_fault pid i k') (λ _ k''. ok true k'')
          else and_then (touch_page pid i k') λ _ k''. ok false k''
    ]

    -- One line of a process: that of the first page with lines left. Past the page table there is none.
    unfoldable pub run_line : ℕ → Kernel S → Run S Bool
    unfolding run_proc
    run_line pid k =
        or_fault (find_pcb pid k.all_pcb) λ p.
          let i = first_open p.program_counter in run_proc pid i (get_or p.program_counter i 0) k

    -- One round of the loop of `run_proc_RR` with the process that was popped.
    unfoldable pub rr_turn : ℕ → Kernel S → Run S (Unit {0})
    unfolding run_line
    rr_turn pid k = or_fault (find_pcb pid k.all_pcb) λ p.
        if ltb 1 p.size
        then and_then (run_line pid k) (λ faulted k'.
          if faulted
          then ok tt k'
          else and_then (run_line pid k') (λ again k''.
            if again then ok tt k'' else ok tt (record k'' { queue = k''.queue ++ (pid ∷ []) })))
        else if p.size == 1
        then and_then (run_line pid k) (λ _ k'. ok tt k')
        else ok tt k

    -- `queue_done`
    unfoldable pub queue_done : List ℕ → List Pcb → Option Bool
    queue_done [] ps = some true
    queue_done (pid ∷ queue) ps =
        let rest = queue_done queue ps in
        elim (find_pcb pid ps) [
          | none ↦ none
          | some p ↦ if not (pcb_done p) then some false else rest
        ]

    -- The loop of `run_proc_RR`.
    unfoldable pub rr_loop : ℕ → Kernel S → Run S (Unit {0})
    unfolding queue_done rr_turn
    rr_loop zero k = out_of_fuel
    rr_loop (suc n) k = or_fault (queue_done k.queue k.all_pcb) λ done. elim done [
      | true ↦ ok tt k
      | false ↦ elim k.queue [
        | [] ↦ exited
        | pid ∷ queue ↦ and_then (rr_turn pid (record k { queue = queue })) λ _ k'. rr_loop n k'
      ]
    ]

    abbrev free_all : List Pcb → Memory → Option Memory
    free_all [] m = some m
    free_all (p ∷ ps) m = elim (free_pcb p.page_table m) [ none ↦ none | some m' ↦ free_all ps m' ]

    -- `run_proc_RR`, which returns 0.
    unfoldable pub run_proc_rr : ℕ → Kernel S → Run S (Unit {0})
    unfolding rr_loop
    run_proc_rr n k = and_then (rr_loop n k) λ _ k'.
        or_fault (free_all k'.all_pcb k'.memory)
          λ m. ok tt (record k' { all_pcb = []; queue = []; lru_cache = []; memory = m })

    -- The inner loop of `run_proc_FIFO`, on fuel: a line of the first page with a valid slot, which does
    -- not depend on how far the process is.
    unfoldable pub fifo_lines : ℕ → ℕ → Kernel S → Run S (Unit {0})
    unfolding run_proc
    fifo_lines zero pid k = out_of_fuel
    fifo_lines (suc n) pid k = or_fault (find_pcb pid k.all_pcb) λ p.
        if proc_done p.size
        then ok tt k
        else or_fault (first_valid 0 p.page_table)
            λ (i, j). and_then (run_proc pid i j k) λ _ k'. fifo_lines n pid k'

    -- `run_proc_FIFO`. A process that was freed is still in ALL_PCB: what is left of it is not used here.
    unfoldable pub run_proc_fifo : ℕ → Kernel S → Run S (Unit {0})
    unfolding fifo_lines
    run_proc_fifo zero k = out_of_fuel
    run_proc_fifo (suc n) k = elim k.queue [
      | [] ↦ ok tt k
      | pid ∷ queue ↦ and_then (fifo_lines n pid (record k { queue = queue })) λ _ k'.
          or_fault (find_pcb pid k'.all_pcb) λ p.
            or_fault (free_pcb p.page_table k'.memory)
              λ m. run_proc_fifo n (record k' { memory = m })
    ]

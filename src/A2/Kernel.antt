-- ===== src/A2/Kernel.antt =====
-- a2/kernel.c: creating processes, running them for a quantum, and the scheduling policies.
-- `parse_input` stands for `parseInput` of a2/shell.c, which runs one line of a script: it gets the
-- kernel's state and returns the new one, or says that the shell has exited. The scheduler loops run
-- on fuel.
pub mod Sizes
pub mod Runnable
pub mod Progress
use comp310_winter.Base.{
  ℕ, zero, suc, ◌+◌, ◌-◌, ◌*◌, ◌/◌, ◌%◌, ◌==◌, ltb, not, ◌||◌, ◌&&◌, Bool, true, false, Option,
  none, some, List, [], ◌∷◌, ◌++◌, if◌then◌else◌, Text, codes, same, get_or, replicate,
}
use comp310_winter.A2.Pcb.{Pcb, make_pcb}
use comp310_winter.A2.ReadyQueue.{
  Queue, max_int, add_to_tail, add_to_head, is_ready_empty, pop_head, pop_shortest_job,
  decrement_job_length_score, get_shortest_job_score, promote, sort_ready_queue,
}
use comp310_winter.A2.Memory.{Ram, Replaced, replace_page, load_file, mem_get_value_at_line}

pub record Kernel : Type 0 where
  pub ram : Ram
  pub queue : Queue
  pub pid_counter : ℕ
  pub active : Bool
  pub in_background : Bool
  pub printed : List Text

-- How a call ends: it returns, it ends the shell, it reads or writes outside an array, or the fuel
-- does not suffice.
pub data Run (A : Type 0) : Type 0 where
  ok : A → Kernel → Run A
  exited : Kernel → Run A
  fault : Run A
  out_of_fuel : Run A

module _ {A B : Type 0} where
  infixl 5 ◌>>=◌
  abbrev pub ◌>>=◌ : Run A → (A → Kernel → Run B) → Run B
  ok a k >>= f = f a k
  exited k >>= f = exited k
  fault >>= f = fault
  out_of_fuel >>= f = out_of_fuel

-- `sprintf(pid, "%d", n)`, for numbers below `10 ^ fuel`.
unfoldable pub decimal : ℕ → ℕ → Text
decimal zero n = []
decimal (suc fuel) n =
    let front = decimal fuel (n / 10) in
    if ltb n 10 then (n + 48) ∷ [] else front ++ ((n % 10 + 48) ∷ [])

-- One more than the number of newlines.
unfoldable pub line_count : Text → ℕ
line_count [] = 1
line_count (c ∷ s) = if c == b'\n' then suc (line_count s) else line_count s

unfoldable pub offset_end_of : ℕ → ℕ
offset_end_of lines = if lines % 3 == 0 then 3 else lines % 3

unfoldable pub page_count_of : ℕ → ℕ
unfolding offset_end_of
page_count_of lines = if not (offset_end_of lines == 3) then lines / 3 + 1 else lines / 3

-- `none`: `FILE_DOES_NOT_EXIST`.
abbrev pub file_does_not_exist : ℕ
file_does_not_exist = 1

abbrev pub scheduling_error : ℕ
scheduling_error = 5

abbrev pub backing_name : ℕ → Text → Text
backing_name pid filename = codes "./backing_store/" ++ filename ++ decimal 10 pid

-- How `scheduler_AGING_alternative` takes a process: the others age.
unfoldable pub take_and_age : Queue → Option Pcb × Queue
take_and_age q = let (p, rest) = pop_shortest_job q in (p, decrement_job_length_score rest)

-- How `scheduler_AGING` takes a process: the head, or the process with the shortest score if that
-- is below the head's, which then goes to the tail. `none`: a read through a null pointer.
unfoldable pub take_or_promote : Queue → Option (Option Pcb × Queue)
take_or_promote [] = some (none, [])
take_or_promote (p ∷ q) =
    let shortest = get_shortest_job_score q in
    if ltb shortest p.job_length_score
    then elim (promote shortest q) [
      | none ↦ none
      | some q' ↦
          let (r, rest) = pop_head (add_to_tail p q') in some (r, decrement_job_length_score rest)
    ]
    else some (some p, decrement_job_length_score q)

abbrev after_load : Kernel → ℕ → Replaced → Kernel
after_load k counter out = record k {
  ram = out.ram;
  queue = add_to_tail out.pcb out.queue;
  pid_counter = counter;
  printed = k.printed ++ out.printed;
}

-- How `execute_process` leaves the process: it was queued again or ended, or it is to be queued
-- by the caller.
pub data Ended : Type 0 where
  handled : Ended
  runnable : Pcb → Ended

-- `offset++`, and the next page behind the last line of a page.
unfoldable pub advanced : Pcb → Pcb
advanced p =
    if p.offset + 1 == 3
    then record p { offset = 0; pc = p.pc + 1; priority = false }
    else record p { offset = p.offset + 1; priority = false }

abbrev pub is_last_line : Pcb → Bool
is_last_line p = (p.pc + 1 == p.page_count) && (p.offset + 1 == p.offset_end)

abbrev faulted : Kernel → Replaced → Kernel
faulted k out = record k {
  ram = out.ram;
  queue = add_to_tail out.pcb out.queue;
  printed = k.printed ++ out.printed;
}

-- What a policy does with a process that is still runnable.
abbrev pub back_to_tail : Ended → Kernel → Kernel
back_to_tail handled k = k
back_to_tail (runnable p) k = record k { queue = add_to_tail p k.queue }

abbrev pub back_to_head : Ended → Kernel → Kernel
back_to_head handled k = k
back_to_head (runnable p) k = record k { queue = add_to_head p k.queue }

abbrev pub dropped : Ended → Kernel → Kernel
dropped ended k = k

-- The status is all that a policy returns.
abbrev status : Run (Unit {0}) → Run ℕ
status r = r >>= λ _ k. ok 0 k

module _ (frame_size var_size : ℕ) where
  -- `process_initialize`: `file` is what `fopen` finds under the name, `table` and `score` what
  -- `malloc` left in the page table and in the job score. `pid` has room for two digits.
  unfoldable pub process_initialize : Text → Option Text → (ℕ → List ℕ) → ℕ → Kernel → Run ℕ
  process_initialize filename none table score k = ok file_does_not_exist k
  process_initialize filename (some file) table score k =
      let lines = line_count file in
      let pages = page_count_of lines in
      let (pcb, counter) =
        make_pcb k.pid_counter score pages (offset_end_of lines) (table pages)
          (replicate pages false) (backing_name k.pid_counter filename) file in
      if ltb k.pid_counter 100
      then ok 0 (after_load k counter (load_file frame_size var_size pcb k.queue k.ram))
      else fault

  module _ (parse_input : Text → Kernel → Run ℕ) where
    -- The last line of the script: the process ends behind it.
    abbrev last_line : Text → Kernel → Run Ended
    last_line line k =
        parse_input line k >>= λ _ k'. ok handled (record k' { in_background = false })

    -- `execute_process`, one round for each unit of the quantum.
    unfoldable pub execute_process : ℕ → Pcb → Kernel → Run Ended
    unfolding advanced
    execute_process zero p k = ok (runnable p) k
    execute_process (suc quanta) p k = elim (get_or p.valid_page p.pc false) [
      | false ↦ ok handled (faulted k (replace_page frame_size var_size p p.pc k.queue k.ram))
      | true ↦
          elim (mem_get_value_at_line frame_size var_size (get_or p.page_table p.pc 0 + p.offset)
            k.ram) [
              | none ↦ fault
              | some (line, r) ↦ elim (is_last_line p) [
                | true ↦ last_line line (record k { ram = r })
                | false ↦ parse_input line (record k { ram = r; in_background = true }) >>= λ _ k'.
                    execute_process quanta (advanced p) (record k' { in_background = false })
              ]
            ]
    ]

    -- One round of the loop of a policy: what `take` picked is run, and `put` sees to it after its
    -- quantum. With `active` set an empty queue is waited on for ever.
    unfoldable pub turn :
        ℕ
        → (Ended → Kernel → Kernel)
        → (Kernel → Run (Unit {0}))
        → Option (Option Pcb × Queue)
        → Kernel
        → Run (Unit {0})
    turn quanta put again none k = fault
    turn quanta put again (some (none, rest)) k = elim k.active [ true ↦ again k | false ↦ ok tt k ]
    turn quanta put again (some (some p, rest)) k =
        execute_process quanta p (record k { queue = rest }) >>= λ ended k'. again (put ended k')

    unfoldable pub schedule :
        (Queue → Option (Option Pcb × Queue))
        → ℕ
        → (Ended → Kernel → Kernel)
        → ℕ
        → Kernel
        → Run (Unit {0})
    unfolding turn
    schedule take quanta put zero k = out_of_fuel
    schedule take quanta put (suc fuel) k =
        turn quanta put (schedule take quanta put fuel) (take k.queue) k

    unfoldable pub scheduler_fcfs : ℕ → Kernel → Run (Unit {0})
    unfolding schedule
    scheduler_fcfs = schedule (λ q. some (pop_head q)) max_int dropped

    unfoldable pub scheduler_sjf : ℕ → Kernel → Run (Unit {0})
    unfolding schedule
    scheduler_sjf = schedule (λ q. some (pop_shortest_job q)) max_int dropped

    unfoldable pub scheduler_aging_alternative : ℕ → Kernel → Run (Unit {0})
    unfolding schedule
    scheduler_aging_alternative = schedule (λ q. some (take_and_age q)) 1 back_to_head

    unfoldable pub scheduler_aging : ℕ → Kernel → Run (Unit {0})
    unfolding schedule
    scheduler_aging fuel k =
        schedule take_or_promote 1 back_to_head fuel (record k { queue = sort_ready_queue k.queue })

    unfoldable pub scheduler_rr : ℕ → ℕ → Kernel → Run (Unit {0})
    unfolding schedule
    scheduler_rr quanta = schedule (λ q. some (pop_head q)) quanta back_to_tail

    -- A script that is run by a script only queues its processes: the outer scheduler runs them.
    unfoldable pub schedule_by_policy : ℕ → Text → Kernel → Run ℕ
    schedule_by_policy fuel policy k =
        if not (same policy (codes "FCFS"))
          && not (same policy (codes "SJF"))
          && not (same policy (codes "RR"))
          && not (same policy (codes "AGING"))
          && not (same policy (codes "RR30"))
        then ok scheduling_error k
        else if k.active || k.in_background
        then ok 0 k
        else if same (codes "FCFS") policy
        then status (scheduler_fcfs fuel k)
        else if same (codes "SJF") policy
        then status (scheduler_sjf fuel k)
        else if same (codes "RR") policy
        then status (scheduler_rr 2 fuel k)
        else if same (codes "AGING") policy
        then status (scheduler_aging fuel k)
        else status (scheduler_rr 30 fuel k)

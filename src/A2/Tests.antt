-- ===== src/A2/Tests.antt =====
-- Runs of the second shell's memory, ready queue and schedulers on small inputs.
use mathlib.Core.List.{Perm}
use comp310_winter.Base.{
  All, set, ℕ, zero, suc, ◌+◌, ◌≡◌, ◌≢◌, ◌≤◌, refl, ap, true, false, none, some, List, [], ◌∷◌,
  ◌++◌, arith, Text, codes, same, get_or, replicate, if◌then◌else◌,
}
use comp310_winter.Store.{none_text, none_slot, slot}
use comp310_winter.Stdio.Lines.{file_of}
use comp310_winter.A2.Pcb.{Pcb}
use comp310_winter.A2.ReadyQueue.{
  Queue, add_to_tail, swap_needed, sort_from, sort_ready_queue, pop_shortest_job,
}
use comp310_winter.A2.ReadyQueue.Sort.{Before, sort_ready_queue-once}
use comp310_winter.A2.Memory.{Ram, free_frame, replace_page}
use comp310_winter.A2.Memory.Paging.{PageAt, Loaded}
use comp310_winter.A2.Memory.Evict.{victim, replace_page-Loaded, replace_page-stale}
use comp310_winter.A2.Kernel.{Kernel, Run, ok, execute_process, handled}
use comp310_winter.A2.Kernel.Runnable.{IsRunnable, position, remaining}
use comp310_winter.A2.Kernel.Progress.{IsReady, execute_process-faults}
use comp310_winter.A2.Interpreter.{Os, interpreter}
use comp310_winter.A2.Kernel.{schedule_by_policy, execute_process, handled}

-- Six frame slots behind two variables.
abbrev fresh : Ram
fresh = record { cells = replicate 8 none_slot; age = replicate 6 0; current_age = 0 }

abbrev line_a : Text
line_a = codes "set x 1"

abbrev line_b : Text
line_b = codes "print x"

abbrev line_c : Text
line_c = codes "quit"

abbrev script : Text
script = file_of (line_a ∷ line_b ∷ line_c ∷ [])

-- A process of three lines with the given name, number and score.
abbrev job : Text → ℕ → ℕ → Pcb
job name pid score = record {
  priority = false;
  pid = pid;
  pc = 0;
  page_count = 1;
  offset_end = 3;
  page_table = 0 ∷ [];
  offset = 0;
  valid_page = false ∷ [];
  job_length_score = score;
  filename = name;
  fp = script;
}

abbrev first_job : Pcb
first_job = job (codes "a0") 0 7

abbrev second_job : Pcb
second_job = job (codes "b1") 1 4

abbrev third_job : Pcb
third_job = job (codes "c2") 2 5

-- Both frames are in use.
abbrev crowded : Ram
crowded = record {
  cells =
      none_slot
      ∷ none_slot
      ∷ slot (codes "b1") line_a
      ∷ slot (codes "b1") line_b
      ∷ none_slot
      ∷ slot (codes "c2") line_a
      ∷ slot (codes "c2") line_b
      ∷ slot (codes "c2") line_c
      ∷ [];
  age = 4 ∷ 5 ∷ 6 ∷ 1 ∷ 2 ∷ 3 ∷ [];
  current_age = 6;
}

job-named : none_text ≢ codes "a0"
job-named e = ground (arith, ap (same none_text) e)

job-IsRunnable : IsRunnable 6 2 first_job
job-IsRunnable = record {
  on_page = omega arith;
  on_line = omega arith;
  first = omega arith;
  last = omega arith;
  before_end = omega arith;
  table_size = refl;
  valid_size = refl;
  named = job-named;
  frames = frames;
}
  where
    frames :
        (i : ℕ)
        → get_or (false ∷ []) i false ≡ true
        → (2 ≤ get_or (0 ∷ []) i 0) × (get_or (0 ∷ []) i 0 + 3 ≤ 8)
    frames zero e = ground arith
    frames (suc i) e = ground arith

page_of_job : PageAt 6 2 first_job line_a line_b line_c
page_of_job = record {
  pre = [];
  post = [];
  file = refl;
  place = refl;
  pre_fits = tt;
  fits = ground arith;
}

-- Every line comes back at once; at a page fault no line is run.
abbrev no_effect : Text → Kernel → Run ℕ
no_effect line k = ok 0 k

abbrev kernel : Kernel
kernel = record {
  ram = fresh;
  queue = first_job ∷ [];
  pid_counter = 1;
  active = false;
  in_background = false;
  printed = [];
}

kernel-IsReady : IsReady 6 2 kernel
kernel-IsReady = record { size = refl; idle = refl }

execute_process-faults_example :
    (p' : Pcb) × (k' : Kernel) × (execute_process 6 2 no_effect 2 first_job kernel ≡ ok handled k')
    × IsReady 6 2 k'
    × (k'.queue ≡ add_to_tail p' (first_job ∷ []))
    × IsRunnable 6 2 p'
    × (get_or p'.valid_page p'.pc false ≡ true)
    × (position p' ≡ position first_job)
    × (suc (remaining p') ≡ remaining first_job)
execute_process-faults_example =
    execute_process-faults 6 2 no_effect refl (omega arith) 1 first_job kernel job-IsRunnable
      kernel-IsReady (job-IsRunnable, tt) refl

replace_page-Loaded_example :
    Loaded 6 2 first_job 0 crowded line_a line_b line_c
      (replace_page 6 2 first_job 0 (second_job ∷ []) crowded)
replace_page-Loaded_example =
    replace_page-Loaded 6 2 first_job 0 (second_job ∷ []) crowded refl (omega arith) refl job-named
      page_of_job

crowded-full : free_frame 6 2 2 2 crowded.cells ≡ none
unfolding free_frame
crowded-full = refl

second_job-named : none_text ≢ codes "b1"
second_job-named e = ground (arith, ap (same none_text) e)

replace_page-stale_example :
    let out = replace_page 6 2 first_job 0 (second_job ∷ []) crowded in
    (out.pcb.page_table ≡ set (0 ∷ []) 0 (victim 6 2 crowded))
    × (out.queue ≡ second_job ∷ [])
    × (out.pcb.valid_page ≡ true ∷ [])
replace_page-stale_example =
    replace_page-stale 6 2 first_job 0 (second_job ∷ []) crowded refl (omega arith) refl job-named
      crowded-full (second_job-named, tt)

abbrev jobs : Queue
jobs = first_job ∷ second_job ∷ third_job ∷ []

jobs-some : jobs ≢ []
jobs-some e = cc

sort_ready_queue-once_example :
    (r : Queue) × (sort_from 4 [] third_job (first_job ∷ second_job ∷ []) ≡ some r)
    × (sort_ready_queue (third_job ∷ first_job ∷ second_job ∷ []) ≡ r)
    × Perm r (third_job ∷ first_job ∷ second_job ∷ [])
    × ((front : Queue) × (last : Pcb) × (r ≡ front ++ (last ∷ [])) × All (Before last) front)
    × ((pop_shortest_job (third_job ∷ first_job ∷ second_job ∷ [])).0 ≡ some third_job)
unfolding swap_needed
sort_ready_queue-once_example = sort_ready_queue-once 2 third_job first_job (second_job ∷ [])

-- A system with one file.
abbrev os : Os
os = record {
  find_file = λ name. if same name (codes "p") then some script else none;
  system = λ command. 0;
  is_dir = λ name. false;
  chdir = λ name. 0;
  table = λ n. replicate n 0;
  score = 0;
}

abbrev interpret : List Text → ℕ → Kernel → Run ℕ
interpret = interpreter 6 2 os (schedule_by_policy 6 2 no_effect 10)

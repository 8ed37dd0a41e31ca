-- ===== src/A3/Interpreter/Tests.antt =====
-- Commands and scripts of the third shell on small inputs.
use comp310_winter.Base.{
  ℕ, ◌+◌, ◌*◌, ◌<◌, ◌≡◌, ◌↔◌, inl, inr, refl, true, false, Option, none, some, [], ◌∷◌, ◌++◌, arith,
  Text, codes, length,
}
use comp310_winter.Store.{Memory, none_slot, slot, find_var}
use comp310_winter.Store.Laws.{HasRoom}
use comp310_winter.Stdio.{at_start}
use comp310_winter.A3.Pcb.{Pcb, Page, load_page}
use comp310_winter.A3.Memory.{frame_alloc, find_run, run_end}
use comp310_winter.A3.Kernel.{Kernel, Run, ok, find_pcb, page_at, split_last, page_fault}
use comp310_winter.A3.Kernel.Frames.{HasFrame}
use comp310_winter.A3.Kernel.Faults.{page_fault-evicts}
use comp310_winter.A3.Commands.{is_alpha_num_str, stage_fits, buffer_size, token_buffer, is_alnum}
use comp310_winter.A3.Commands.Staging.{stage_fits-length}
use comp310_winter.A3.Commands.Buffers.{token_buffer-separated}
use comp310_winter.A3.Os.{Os, Shell, Op, pos, print_line}
use comp310_winter.A3.Interpreter.{interpreter}
use comp310_winter.A3.Interpreter.Errors.{reported, interpreter-refused}
use comp310_winter.A3.Interpreter.Sessions.{interpreter-set_print}

-- A world with nothing but a count of the system calls.
abbrev quiet : {X : Type 0} → X → Op ℕ X
quiet x w = (x, [], w)

abbrev os : Os ℕ
os = record {
  open_script = λ f w. none;
  system = λ c w. w + 1;
  atoi = λ s. pos 0;
  filesys_done = λ w. w;
  fsutil_ls = quiet 0;
  fsutil_cat = λ f. quiet none;
  fsutil_rm = λ f. quiet 0;
  fsutil_create = λ f n. quiet 0;
  fsutil_write = λ f b n. quiet none;
  fsutil_read = λ f n. quiet none;
  fsutil_size = λ f. quiet none;
  fsutil_seek = λ f n. quiet none;
  fsutil_freespace = quiet 0;
  find_file = λ b. quiet tt;
  copy_in = λ f. quiet 1;
  copy_out = λ f. quiet 1;
  fragmentation_degree = quiet tt;
  defragment = quiet tt;
  recover = λ n. quiet tt;
}

-- A frame store of three slots and two variables.
abbrev memory : Memory
memory =
    slot (codes "1") (codes "echo a")
    ∷ slot (codes "1") (codes "echo b")
    ∷ slot (codes "1") (codes "echo c")
    ∷ none_slot
    ∷ none_slot
    ∷ []

abbrev loaded : Page
loaded = record {
  index = 0 ∷ 1 ∷ 2 ∷ [];
  valid_bit = true ∷ true ∷ true ∷ [];
  page_index = 0;
  page_pid = 1;
}

abbrev unloaded : Page
unloaded = record {
  index = 1000 ∷ 1000 ∷ 1000 ∷ [];
  valid_bit = false ∷ false ∷ false ∷ [];
  page_index = 1;
  page_pid = 1;
}

abbrev process : Pcb
process = record {
  pid = 1;
  size = 4;
  program_counter = 0 ∷ 0 ∷ [];
  page_table = loaded ∷ unloaded ∷ [];
  source_file = at_start (codes "echo d");
}

abbrev kernel : Kernel (Shell ℕ)
kernel = record {
  all_pcb = process ∷ [];
  queue = [];
  lru_cache = (1, 0) ∷ [];
  pid_counter = 2;
  memory = memory;
  printed = [];
  shell = record { new_name_count = 1; lines = 0; world = 0 };
}

abbrev idle : Kernel (Shell ℕ) → Run (Shell ℕ) (Unit {0})
idle = ok tt

interpreter-refused_example :
    interpreter 3 2 os [] idle idle (codes "cat" ∷ []) kernel ≡ reported 3 2 os [] 4 kernel
interpreter-refused_example =
    interpreter-refused 3 2 os [] idle idle 9 _ [] kernel refl (inl (omega arith))

kernel-HasRoom : HasRoom 3 2 memory (codes "x")
unfolding find_var
kernel-HasRoom = inr (λ e. cc)

interpreter-set_print_example :
    (k' : Kernel (Shell ℕ)) × (interpreter 3 2 os [] idle idle
        (codes "set" ∷ codes "x" ∷ codes "a1" ∷ codes "b" ∷ [])
        kernel
      ≡ ok (some 0) k')
    × (interpreter 3 2 os [] idle idle (codes "print" ∷ codes "x" ∷ []) k'
        ≡ ok (some 0) (print_line (codes "a1 b") k'))
unfolding is_alpha_num_str is_alnum
interpreter-set_print_example =
    interpreter-set_print 3 2 os [] idle idle (codes "x") (codes "a1") (codes "b" ∷ []) kernel
      (refl, (refl, (refl, tt))) (omega arith) (omega arith) kernel-HasRoom

token_buffer-separated_example :
    (token_buffer (codes "ab" ∷ codes "c" ∷ []) ≡ some (codes "ab c" ++ (0 ∷ 0 ∷ [])))
    × (length (codes "ab c" ++ (0 ∷ 0 ∷ [])) ≡ buffer_size (codes "ab" ∷ codes "c" ∷ []))
token_buffer-separated_example = token_buffer-separated (codes "ab") (codes "c" ∷ [])

abbrev staged : ℕ
staged = 2

stage_fits-length_example : (stage_fits 5 (codes "p.txt") ≡ true) ↔ (2 * 5 + 5 < 78)
stage_fits-length_example = stage_fits-length 5 (codes "p.txt")

-- A command that prints its line.
abbrev say : Text → Kernel (Shell ℕ) → Run (Shell ℕ) (Option ℕ)
say line k = ok (some 0) (record k { printed = k.printed ++ (line ∷ []) })

page_fault-evicts_example :
    (k' : Kernel (Shell ℕ)) × (page_fault 3 2 1 1 kernel ≡ ok tt k')
    × (k'.queue ≡ 1 ∷ [])
    × (k'.lru_cache ≡ (1, 1) ∷ [])
    × (page : Page) × (page_at k'.all_pcb (1, 1) ≡ some page)
    × HasFrame 3 page
unfolding find_pcb split_last load_page frame_alloc find_run run_end
page_fault-evicts_example =
    page_fault-evicts 3 2 kernel 1 1 0 process process unloaded loaded (1, 0) [] refl refl refl refl
      refl refl refl (omega arith) (omega arith)

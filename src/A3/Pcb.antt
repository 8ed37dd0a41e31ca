-- ===== src/A3/Pcb.antt =====
-- a3/pcb.h, pcb.c and cpu.c's `proc_done`: processes with a page table of frames. `source_file` is the
-- stream of the script's copy. `none` is an `exit(99)`.
pub mod Load
use comp310_winter.Base.{
  ℕ, zero, suc, ◌+◌, ◌-◌, ◌*◌, ◌/◌, ◌%◌, ◌==◌, ltb, leb, not, ◌&&◌, Bool, true, false, Option, none,
  some, List, [], ◌∷◌, ◌++◌, if◌then◌else◌, Text, get_or, set, replicate, length,
}
use comp310_winter.Store.{Memory}
use comp310_winter.Stdio.{Stream, at_start, fgets}
use comp310_winter.A2.Kernel.{decimal}
use comp310_winter.A3.Memory.{
  mem_free_at, mem_set_value_at, mem_get_value_at, clear_frame, frame_alloc,
}

-- `struct PAGE`
pub record Page : Type 0 where
  pub index : List ℕ
  pub valid_bit : List Bool
  pub page_index : ℕ
  pub page_pid : ℕ

-- `struct PCB`; the size of the page table is its length.
pub record Pcb : Type 0 where
  pub pid : ℕ
  pub size : ℕ
  pub program_counter : List ℕ
  pub page_table : List Page
  pub source_file : Stream

-- The newlines behind a byte that is no newline, `last` being the byte in front.
unfoldable pub count_from : ℕ → Text → ℕ
count_from last [] = 0
count_from last (c ∷ s) =
    let rest = count_from c s in if (c == b'\n') && not (last == b'\n') then suc rest else rest

unfoldable pub count_lines : Text → ℕ
unfolding count_from
count_lines file = count_from b'\n' file + 1

unfoldable pub page_table_size : ℕ → ℕ
page_table_size lines = if lines % 3 == 0 then lines / 3 else lines / 3 + 1

unfoldable pub page_init : ℕ → ℕ → Page
page_init pid i = record {
  index = replicate 3 1000;
  valid_bit = replicate 3 false;
  page_index = i;
  page_pid = pid;
}

-- The pages `i`, ..., `i + n - 1`.
unfoldable pub pages_from : ℕ → ℕ → ℕ → List Page
unfolding page_init
pages_from pid zero i = []
pages_from pid (suc n) i = page_init pid i ∷ pages_from pid n (i + 1)

-- What the loading of a page changes.
pub record Loading : Type 0 where
  pub page : Page
  pub memory : Memory
  pub source : Stream

-- The body of the loop over the lines of a page: the line that was read goes to its slot and the loop
-- goes on, or the file has ended and so does the loop.
unfoldable pub store_read :
    (Loading → Loading) → Text → ℕ → Loading → Option Text × Stream → Loading
store_read again pid j l (none, st) = record l { source = st }
store_read again pid j l (some line, st) = again (record {
  page = record (l.page) { valid_bit = set l.page.valid_bit j true };
  memory = mem_set_value_at (get_or l.page.index j 0) pid line l.memory;
  source = st;
})

-- `for (; j < 3; j++)` with `n` rounds left.
unfoldable pub load_lines : Text → ℕ → ℕ → Loading → Loading
unfolding store_read
load_lines pid zero j l = l
load_lines pid (suc n) j l = store_read (load_lines pid n (j + 1)) pid j l (fgets 998 l.source)

module _ (frame_size var_size : ℕ) where
  -- A frame for the page, and its lines: the body of `load_PAGE`, and of the loop of `PCB_init`. `none`:
  -- there is no frame.
  unfoldable pub load_page : Text → Loading → Option Loading
  unfolding load_lines
  load_page pid l = elim (frame_alloc frame_size var_size pid l.memory) [
    | none ↦ none
    | some (i, m) ↦ some (
        load_lines pid 3 0 (record {
          page = record (l.page) {
            index = i ∷ (i + 1) ∷ (i + 2) ∷ [];
            valid_bit = false ∷ false ∷ false ∷ [];
          };
          memory = m;
          source = l.source;
        }))
  ]

  -- The loop of `PCB_init` over the first `n` pages.
  unfoldable pub load_first :
      ℕ → Text → List Page → Memory → Stream → Option (List Page × Memory × Stream)
  unfolding load_page
  load_first zero pid pages m st = some (pages, m, st)
  load_first (suc n) pid [] m st = some ([], m, st)
  load_first (suc n) pid (p ∷ pages) m st =
      elim (load_page pid (record { page = p; memory = m; source = st })) [
        | none ↦ none
        | some l ↦ elim (load_first n pid pages l.memory l.source) [
          | none ↦ none
          | some (pages', m', st') ↦ some (l.page ∷ pages', m', st')
        ]
      ]

  -- `PCB_init`, with what `fopen` finds.
  unfoldable pub pcb_init : ℕ → Option Text → Memory → Option (Pcb × Memory)
  unfolding load_first pages_from count_lines page_table_size
  pcb_init pid none m = none
  pcb_init pid (some file) m =
      let size = count_lines file in
      let pages = page_table_size size in
      elim (load_first (if ltb pages 2 then pages else 2) (decimal 10 pid) (pages_from pid pages 0)
        m (at_start file)) [
          | none ↦ none
          | some (table, m', st) ↦ some (
            record {
              pid = pid;
              size = size;
              program_counter = replicate pages 0;
              page_table = table;
              source_file = st;
            },
            m',
          )
        ]

-- The loop of `free_PCB` over the slots of a page.
unfoldable pub free_slots : List ℕ → Memory → Memory
free_slots [] m = m
free_slots (i ∷ index) m = free_slots index (clear_frame i m)

-- The three slots from each number on are in the memory. A page that was never loaded has the number
-- 1000 three times.
unfoldable pub in_memory : List ℕ → Memory → Bool
in_memory [] m = true
in_memory (i ∷ index) m = leb (i + 3) (length m) && in_memory index m

-- What `free_PCB` does to the memory. `none` is a write outside the array.
unfoldable pub free_pcb : List Page → Memory → Option Memory
unfolding free_slots in_memory
free_pcb [] m = some m
free_pcb (p ∷ pages) m = elim (in_memory p.index m) [
  | true ↦ free_pcb pages (free_slots p.index m)
  | false ↦ none
]

-- The loop of `PAGE_evict`: what is printed, and the memory.
unfoldable pub evict_slots : List ℕ → Memory → List Text × Memory
evict_slots [] m = ([], m)
evict_slots (i ∷ index) m =
    let (printed, m') = evict_slots index (mem_free_at i m) in (mem_get_value_at i m ∷ printed, m')

unfoldable pub page_evict : Page → Memory → List Text × Page × Memory
unfolding evict_slots
page_evict p m =
    let (printed, m') = evict_slots p.index m in
    (printed, record p { index = replicate 3 0; valid_bit = replicate 3 false }, m')

unfoldable pub pcb_equal : Pcb → Pcb → Bool
pcb_equal p q = p.pid == q.pid

unfoldable pub page_equal : Page → Page → Bool
page_equal p q = get_or p.index 0 0 == get_or q.index 0 0

-- Every program counter is 3.
unfoldable pub all_three : List ℕ → Bool
all_three [] = true
all_three (n ∷ pc) = (n == 3) && all_three pc

unfoldable pub pcb_done : Pcb → Bool
unfolding all_three
pcb_done p = all_three p.program_counter

unfoldable pub proc_done : ℕ → Bool
proc_done size = not (ltb 0 size)

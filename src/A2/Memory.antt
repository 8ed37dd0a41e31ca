-- ===== src/A2/Memory.antt =====
-- a2/shellmemory.c: `shellmemory` holds the variables in its first `var_size` slots and the frames,
-- three slots each, in the `frame_size` slots behind them. `age` has one entry for each frame slot.
-- The two sizes are set when the shell is compiled.
pub mod Oldest
pub mod Paging
pub mod Evict
pub mod Frames
use comp310_winter.Base.{
  ℕ, zero, suc, ◌+◌, ◌-◌, ◌*◌, ◌/◌, ◌%◌, ◌==◌, ltb, not, ◌||◌, Bool, true, false, Option, none,
  some, List, [], ◌∷◌, ◌++◌, if◌then◌else◌, min, Text, same, get_or, set, set_three, replicate,
  length,
}
use comp310_winter.Store.{
  Memory, slot, none_text, none_slot, slot_at, var_at, find_var, assign, fetch, clear_range,
}
use comp310_winter.Stdio.{Stream, at_start, fgets}
use comp310_winter.A2.Pcb.{Pcb}
use comp310_winter.A2.ReadyQueue.{Queue}

pub record Ram : Type 0 where
  pub cells : Memory
  pub age : List ℕ
  pub current_age : ℕ

-- One round of the loop of `get_oldest`: the least age so far, and its index.
unfoldable pub older : List ℕ → ℕ → ℕ × ℕ → ℕ × ℕ
older age i (oldest, frame) =
    if ltb (get_or age i 0) oldest then (get_or age i 0, i) else (oldest, frame)

unfoldable pub oldest_from : ℕ → ℕ → List ℕ → ℕ × ℕ → ℕ × ℕ
unfolding older
oldest_from zero i age best = best
oldest_from (suc n) i age best = oldest_from n (i + 3) age (older age i best)

-- `page_table[i] == frame` for the first `i` below the page count: its valid bit is cleared.
unfoldable pub invalidate : ℕ → ℕ → ℕ → List ℕ → List Bool → List Bool
invalidate zero i frame table valid = valid
invalidate (suc n) i frame table valid =
    let rest = invalidate n (i + 1) frame table valid in
    if get_or table i 0 == frame then set valid i false else rest

unfoldable pub invalidate_pcb : ℕ → Pcb → Pcb
unfolding invalidate
invalidate_pcb frame p = record p {
  valid_page = invalidate p.page_count 0 frame p.page_table p.valid_page;
}

-- The same for the process that `find_process` finds in the ready queue, if it finds one.
unfoldable pub invalidate_found : Text → ℕ → Queue → Queue
unfolding invalidate_pcb
invalidate_found file frame [] = []
invalidate_found file frame (p ∷ q) =
    if same p.filename file then invalidate_pcb frame p ∷ q else p ∷ invalidate_found file frame q

-- The lines of the file in front of the page are read and dropped.
unfoldable pub skip_lines : ℕ → Stream → Stream
skip_lines zero st = st
skip_lines (suc n) st = skip_lines n (fgets 99 st).1

-- A line that was read goes to the slot `j`; a read that found nothing leaves the slot as it was.
unfoldable pub store_line : ℕ → Text → Ram → Option Text × Stream → Ram × Stream
store_line j filename r (none, st) = (r, st)
store_line j filename r (some line, st) =
    (record r { cells = set r.cells j (slot filename line) }, st)

-- What `replace_page` returns: the process, the ready queue, the memory and the printed lines.
pub record Replaced : Type 0 where
  pub pcb : Pcb
  pub queue : Queue
  pub ram : Ram
  pub printed : List Text

place_page : Pcb → ℕ → ℕ → Pcb
place_page pcb page frame = record pcb {
  page_table = set pcb.page_table page frame;
  valid_page = set pcb.valid_page page true;
}

module _ (frame_size var_size : ℕ) where
  abbrev pub shell_mem_length : ℕ
  shell_mem_length = var_size + frame_size

  abbrev pub frame_count : ℕ
  frame_count = (frame_size + 2) / 3

  unfoldable pub get_oldest : List ℕ → ℕ
  unfolding oldest_from
  get_oldest age = (oldest_from frame_count 0 age (get_or age 0 0, 0)).1

  unfoldable pub mem_init : Ram
  mem_init = record {
    cells = replicate shell_mem_length none_slot;
    age = replicate frame_size 0;
    current_age = 0;
  }

  unfoldable pub mem_reset : Ram → Ram
  mem_reset r = record r { cells = clear_range var_size 0 r.cells }

  unfoldable pub mem_set_value : Text → Text → Ram → Ram
  mem_set_value k v r = record r { cells = assign 0 var_size k v r.cells }

  unfoldable pub mem_get_value : Text → Ram → Option Text
  mem_get_value k r = fetch 0 var_size k r.cells

  -- One round of the loop of `copy_to_mem`.
  unfoldable pub load_line : ℕ → Text → Ram × Stream → Ram × Stream
  unfolding store_line
  load_line j filename (r, st) =
      let r' = record r { age = set r.age (j - var_size) r.current_age } in
      if st.eof then (r', st) else store_line j filename r' (fgets 99 st)

  -- `copy_to_mem`, with `fp` read from its start. The result says whether there is more to read.
  unfoldable pub copy_to_mem : ℕ → Text → Text → ℕ → Ram → Ram × Stream
  copy_to_mem index fp filename i r =
      load_line (i + 2) filename
        (load_line (i + 1) filename (load_line i filename (r, skip_lines index (at_start fp))))

  -- The search for a free frame in `replace_page`, from the slot `i` on.
  unfoldable pub free_frame : ℕ → ℕ → Memory → Option ℕ
  free_frame zero i m = none
  free_frame (suc n) i m =
      let rest = free_frame n (i + 3) m in if same (var_at m i) none_text then some i else rest

  -- `mem_free_lines_between(start, stop - 1)`
  unfoldable pub mem_free_lines_between : ℕ → ℕ → Memory → Memory
  mem_free_lines_between start stop m = clear_range (min stop shell_mem_length - start) start m

  -- What is printed of the victim page, and how many of its three slots are in use.
  unfoldable pub victim_lines : ℕ → ℕ → Memory → List Text
  victim_lines zero i m = []
  victim_lines (suc n) i m =
      let rest = victim_lines n (i + 1) m in
      if same (var_at m i) none_text then rest else (slot_at m i).value ∷ rest

  unfoldable pub replace_page : Pcb → ℕ → Queue → Ram → Replaced
  unfolding place_page
  replace_page pcb page q r = elim (free_frame frame_count var_size r.cells) [
    | some i ↦ record {
      pcb = place_page pcb page i;
      queue = q;
      ram = (copy_to_mem (pcb.pc * 3) pcb.fp pcb.filename i r).0;
      printed = [];
    }
    | none ↦
        let lru = get_oldest r.age + var_size in
        let printed = victim_lines 3 lru r.cells in
        -- `upper_bound` starts at 2 and falls by one for each slot that is not in use.
        let cells = mem_free_lines_between lru (lru + length printed) r.cells in
        let mine = same (var_at cells lru) pcb.filename in
        let pcb' = if mine then invalidate_pcb lru pcb else pcb in
        record {
          pcb = place_page pcb' page lru;
          queue = if mine then q else invalidate_found (var_at cells lru) lru q;
          ram = (copy_to_mem (pcb.pc * 3) pcb.fp pcb.filename lru (record r { cells = cells })).0;
          printed = printed;
        }
  ]

  -- The first two pages.
  unfoldable pub load_file : Pcb → Queue → Ram → Replaced
  unfolding replace_page
  load_file pcb q r =
      let first = replace_page pcb 0 q r in
      if ltb 1 pcb.page_count
      then (let second = replace_page (record (first.pcb) { pc = 1 }) 1 first.queue first.ram in
          record second {
            pcb = record (second.pcb) { pc = 0 };
            printed = first.printed ++ second.printed;
          })
      else first

  -- The frame of the slot `index` becomes the youngest.
  unfoldable pub touched : ℕ → Ram → Ram
  touched index r =
      let i = (index - var_size) - (index - var_size) % 3 in
      let now = r.current_age in
      record r { age = set_three r.age i (now + 1) (now + 2) (now + 3); current_age = now + 3 }

  -- `mem_get_value_at_line`: outside the frames the code reads or writes outside its arrays, `none`.
  unfoldable pub mem_get_value_at_line : ℕ → Ram → Option (Text × Ram)
  unfolding touched
  mem_get_value_at_line index r =
      if ltb index var_size || not (ltb index shell_mem_length)
      then none
      else some ((slot_at r.cells index).value, touched index r)

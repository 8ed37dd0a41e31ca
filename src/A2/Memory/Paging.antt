-- ===== src/A2/Memory/Paging.antt =====
-- `copy_to_mem` and `replace_page` of a2/shellmemory.c: what a page fault brings into memory.
use comp310_winter.Base.{
  ℕ, zero, suc, ◌+◌, ◌-◌, ◌*◌, ◌≤◌, ◌<◌, ◌≡◌, refl, ap, ◌∙◌, inl, inr, none, some, List, [], ◌∷◌,
  ◌++◌, arith, false, Bool-cases, Text, length, set, same, eq_of_same, set_three, get_or-set_three,
  get_or-set_three_ne, All, ◌%◌,
}
use comp310_winter.Store.{Memory, slot, none_slot, slot_at, var_at, none_text}
use comp310_winter.Stdio.{at_start}
use comp310_winter.Stdio.Lines.{Fits, file_of, fgets_line}
use comp310_winter.A2.Pcb.{Pcb}
use comp310_winter.A2.ReadyQueue.{Queue}
use comp310_winter.A2.Memory.{
  frame_count, free_frame, victim_lines, Replaced, replace_page, Ram, skip_lines, store_line,
  load_line, copy_to_mem,
}

pub skip_lines_lem :
    (pre rest : List Text)
    → All (Fits 99) pre
    → skip_lines (length pre) (at_start (file_of (pre ++ rest))) ≡ at_start (file_of rest)
unfolding skip_lines
skip_lines_lem [] rest fits = refl
skip_lines_lem (l ∷ pre) rest fits =
    ap (λ p. skip_lines (length pre) p.1) (fgets_line 99 l (file_of (pre ++ rest)) false fits.0)
    ∙ skip_lines_lem pre rest fits.1

module _ (frame_size var_size : ℕ) where
  -- The bytes of a line in memory, its newline included.
  abbrev pub stored : Text → Text
  stored l = l ++ (b'\n' ∷ [])

  load_line_lem :
      (j : ℕ) (filename l rest : Text) (r : Ram)
      → Fits 99 l
      → load_line frame_size var_size j filename (r, at_start (l ++ (b'\n' ∷ rest))) ≡ (
        record r {
          age = set r.age (j - var_size) r.current_age;
          cells = set r.cells j (slot filename (stored l));
        },
        at_start rest,
      )
  unfolding load_line
  load_line_lem j filename l rest r fits =
      ap (store_line j filename _) (fgets_line 99 l rest false fits)

  -- The memory after a page of three whole lines has been copied.
  abbrev copied : Text → ℕ → Ram → Text → Text → Text → Ram
  copied filename i r a b c = record {
    cells =
        set_three r.cells i (slot filename (stored a)) (slot filename (stored b))
          (slot filename (stored c));
    age =
        set (set (set r.age (i - var_size) r.current_age) (i + 1 - var_size) r.current_age)
          (i + 2 - var_size) r.current_age;
    current_age = r.current_age;
  }

  copy_to_mem_lem :
      (filename : Text) (i : ℕ) (r : Ram) (pre post : List Text) (a b c : Text)
      → All (Fits 99) pre
      → Fits 99 a
      → Fits 99 b
      → Fits 99 c
      → (copy_to_mem frame_size var_size
          (length pre)
          (file_of (pre ++ (a ∷ b ∷ c ∷ post)))
          filename
          i
          r).0
        ≡ copied filename i r a b c
  unfolding copy_to_mem
  copy_to_mem_lem filename i r pre post a b c fits fa fb fc = rw (
    skip_lines_lem pre (a ∷ b ∷ c ∷ post) fits,
    load_line_lem i filename a (file_of (b ∷ c ∷ post)) r fa,
    load_line_lem (i + 1) filename b (file_of (c ∷ post)) _ fb,
    load_line_lem (i + 2) filename c (file_of post) _ fc,
  )

  -- The page `pc` of the file of whole lines that fit the buffer: its three lines.
  pub record PageAt (pcb : Pcb) (a b c : Text) : Type 0 where
    pub pre : List Text
    pub post : List Text
    pub file : pcb.fp ≡ file_of (pre ++ (a ∷ b ∷ c ∷ post))
    pub place : pcb.pc * 3 ≡ length pre
    pub pre_fits : All (Fits 99) pre
    pub fits : Fits 99 a × Fits 99 b × Fits 99 c

  copied_to :
      (pcb : Pcb) (i : ℕ) (r : Ram) {a b c : Text}
      → PageAt pcb a b c
      → (copy_to_mem frame_size var_size (pcb.pc * 3) pcb.fp pcb.filename i r).0
        ≡ copied pcb.filename i r a b c
  copied_to pcb i r {a} {b} {c} w =
      rw (w.file, w.place)
        (copy_to_mem_lem pcb.filename i r w.pre w.post a b c w.pre_fits w.fits.0 w.fits.1 w.fits.2)

  -- The slots of a frame hold the page under the process's file name.
  abbrev pub HoldsPage : Memory → ℕ → Text → Text → Text → Text → Type 0
  HoldsPage m i filename a b c =
      (slot_at m i ≡ slot filename (stored a))
      × (slot_at m (i + 1) ≡ slot filename (stored b))
      × (slot_at m (i + 2) ≡ slot filename (stored c))

  pub free_frame-some :
      (n i : ℕ) (m : Memory) {f : ℕ}
      → free_frame frame_size var_size n i m ≡ some f
      → (k : ℕ) × (f ≡ i + 3 * k) × (k < n) × (var_at m f ≡ none_text)
  unfolding free_frame
  free_frame-some zero i m e = absurd (cc)
  free_frame-some (suc n) i m {f} e = elim (Bool-cases (same (var_at m i) none_text)) [
    | inl hit ↦ (0, ground arith, omega arith, ground (arith, eq_of_same (var_at m i) none_text))
    | inr miss ↦
        let (k, at, below, free) = free_frame-some n (i + 3) m {f = f} (ground arith) in
        (suc k, omega arith, omega arith, free)
  ]

  pub free_frame-none :
      (n i : ℕ) (m : Memory) (k : ℕ)
      → free_frame frame_size var_size n i m ≡ none
      → k < n
      → same (var_at m (i + 3 * k)) none_text ≡ false
  unfolding free_frame
  free_frame-none zero i m k e h = absurd (omega arith)
  free_frame-none (suc n) i m zero e h = let z : i + 3 * 0 ≡ i = omega arith in rw z (ground arith)
  free_frame-none (suc n) i m (suc k) e h =
      let z : i + 3 * suc k ≡ (i + 3) + 3 * k = omega arith in
      rw z (free_frame-none n (i + 3) m k (ground arith) (omega arith))

  pub victim_lines-le : (n i : ℕ) (m : Memory) → length (victim_lines frame_size var_size n i m) ≤ n
  unfolding victim_lines
  victim_lines-le zero i m = omega arith
  victim_lines-le (suc n) i m = ground (arith, victim_lines-le n (i + 1) m)

  -- What `replace_page` promises for the page with the lines `a`, `b` and `c`: the page table says
  -- in which frame it is, the frame lies behind the variables and holds the three lines, and no
  -- variable is touched.
  pub record Loaded (pcb : Pcb) (page : ℕ) (r : Ram) (a b c : Text) (out : Replaced) : Type 0 where
    pub frame : ℕ
    pub table : out.pcb.page_table ≡ set pcb.page_table page frame
    pub behind : var_size ≤ frame
    pub within : frame + 2 < length r.cells
    pub holds : HoldsPage out.ram.cells frame pcb.filename a b c
    pub variables : (j : ℕ) → j < var_size → slot_at out.ram.cells j ≡ slot_at r.cells j

  module _ (pcb : Pcb) (page : ℕ) (q : Queue) (r : Ram) {a b c : Text} (w : PageAt pcb a b c)
      (whole : frame_size % 3 ≡ 0) (some_frame : 0 < frame_size)
      (size : length r.cells ≡ var_size + frame_size) where
    pub copied-holds :
        (i : ℕ) (r' : Ram)
        → i + 2 < length r'.cells
        → HoldsPage
            (copy_to_mem frame_size var_size (pcb.pc * 3) pcb.fp pcb.filename i r').0.cells
            i
            pcb.filename
            a
            b
            c
    copied-holds i r' room =
        rw (copied_to pcb i r' w) (get_or-set_three r'.cells i _ _ _ none_slot room)

    pub copied-variables :
        (i : ℕ) (r' : Ram) (j : ℕ)
        → j < i
        → slot_at (copy_to_mem frame_size var_size (pcb.pc * 3) pcb.fp pcb.filename i r').0.cells j
          ≡ slot_at r'.cells j
    copied-variables i r' j h =
        rw (copied_to pcb i r' w) (get_or-set_three_ne r'.cells i _ _ _ none_slot j (inl h))

    pub replace_page-free :
        (f : ℕ)
        → free_frame frame_size var_size (frame_count frame_size var_size) var_size r.cells ≡ some f
        → Loaded pcb page r a b c (replace_page frame_size var_size pcb page q r)
    unfolding replace_page
    replace_page-free f e =
        let (k, at, below, _) = free_frame-some _ var_size r.cells e in
        rw (e, replace_page)
          (record {
            frame = f;
            table = refl;
            behind = omega arith;
            within = omega arith;
            holds = copied-holds f r (omega arith);
            variables = λ j h. copied-variables f r j (omega arith);
          })

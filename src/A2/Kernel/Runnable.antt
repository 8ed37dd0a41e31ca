-- ===== src/A2/Kernel/Runnable.antt =====
-- a2/kernel.c and pcb.c: processes that can run, and how much they have left to do.
use comp310_winter.Base.{
  ℕ, zero, suc, ◌+◌, ◌-◌, ◌*◌, ◌≤◌, ◌<◌, ◌≡◌, ◌≢◌, refl, sym, ap, ◌∙◌, inl, inr, Bool, true, false,
  List, [], ◌∷◌, arith, ◌==◌, Bool-cases, length, get_or, set, length-set, get_or-set_self,
  get_or-set_ne,
}
use comp310_winter.Store.{none_text}
use comp310_winter.A2.Pcb.{Pcb}
use comp310_winter.A2.Kernel.{advanced}

-- The invalid pages among the entries.
unfoldable pub count_false : List Bool → ℕ
count_false [] = 0
count_false (true ∷ v) = count_false v
count_false (false ∷ v) = suc (count_false v)

pub count_false-set :
    (v : List Bool) (i : ℕ)
    → get_or v i false ≡ false
    → i < length v
    → suc (count_false (set v i true)) ≡ count_false v
unfolding count_false
count_false-set [] i e h = absurd (omega arith)
count_false-set (true ∷ v) zero e h = cc
count_false-set (false ∷ v) zero e h = refl
count_false-set (true ∷ v) (suc i) e h = count_false-set v i e (omega arith)
count_false-set (false ∷ v) (suc i) e h = ap suc (count_false-set v i e (omega arith))

-- The lines in front of the one that runs next, the lines of the script, and what is left to do:
-- the lines that have not run and the pages that have not been loaded.
abbrev pub position : Pcb → ℕ
position p = p.pc * 3 + p.offset

abbrev pub total_lines : Pcb → ℕ
total_lines p = (p.page_count - 1) * 3 + p.offset_end

abbrev pub remaining : Pcb → ℕ
remaining p = (total_lines p - position p) + count_false p.valid_page

module _ (frame_size var_size : ℕ) where
  pub record IsRunnable (p : Pcb) : Type 0 where
    pub on_page : p.pc < p.page_count
    pub on_line : p.offset < 3
    pub first : 0 < p.offset_end
    pub last : p.offset_end ≤ 3
    pub before_end : position p < total_lines p
    pub table_size : length p.page_table ≡ p.page_count
    pub valid_size : length p.valid_page ≡ p.page_count
    pub named : none_text ≢ p.filename
    pub frames :
        (i : ℕ)
        → get_or p.valid_page i false ≡ true
        → (var_size ≤ get_or p.page_table i 0)
          × (get_or p.page_table i 0 + 3 ≤ var_size + frame_size)

  -- A page that is given a frame of the memory.
  pub placed-IsRunnable :
      (p : Pcb) (frame : ℕ)
      → IsRunnable p
      → var_size ≤ frame
      → frame + 3 ≤ var_size + frame_size
      → IsRunnable (record p {
        page_table = set p.page_table p.pc frame;
        valid_page = set p.valid_page p.pc true;
      })
  placed-IsRunnable p frame w lo hi = record {
    on_page = w.on_page;
    on_line = w.on_line;
    first = w.first;
    last = w.last;
    before_end = w.before_end;
    table_size = length-set p.page_table p.pc frame ∙ w.table_size;
    valid_size = length-set p.valid_page p.pc true ∙ w.valid_size;
    named = w.named;
    frames = λ i e. elim (Bool-cases (p.pc == i)) [
      | inl here ↦
          let at : p.pc ≡ i = ground arith in
          rw (← at) (
            rw (get_or-set_self p.page_table p.pc frame 0 (omega (arith, w.table_size, w.on_page)))
              (lo, hi))
      | inr there ↦
          rw (get_or-set_ne p.page_table p.pc i frame 0 (ground arith))
            (w.frames i (sym (get_or-set_ne p.valid_page p.pc i true false (ground arith)) ∙ e))
    ];
  }

  -- Behind a line that is not the last one the process can run on, with one line less to do.
  pub advanced-IsRunnable :
      (p : Pcb)
      → IsRunnable p
      → position p + 1 < total_lines p
      → IsRunnable (advanced p) × (suc (remaining (advanced p)) ≡ remaining p)
  unfolding advanced
  advanced-IsRunnable p w more = elim (Bool-cases (p.offset + 1 == 3)) [
    | inl full ↦ rw full (
      record {
        on_page = ground (arith, w.on_page, w.on_line, w.last);
        on_line = omega arith;
        first = w.first;
        last = w.last;
        before_end = ground arith;
        table_size = w.table_size;
        valid_size = w.valid_size;
        named = w.named;
        frames = w.frames;
      },
      ground arith,
    )
    | inr part ↦ rw part (
      record {
        on_page = w.on_page;
        on_line = ground (arith, w.on_line);
        first = w.first;
        last = w.last;
        before_end = omega arith;
        table_size = w.table_size;
        valid_size = w.valid_size;
        named = w.named;
        frames = w.frames;
      },
      omega arith,
    )
  ]

-- ===== src/A3/Kernel/Frames.antt =====
-- Frames that an eviction frees and a load takes, in the kernel of a3/kernel.c.
use comp310_winter.Base.{
  ℕ, zero, suc, ◌+◌, ◌==◌, ==_iff, ◌<◌, ◌≤◌, ◌≡◌, refl, sym, ap, ◌∙◌, true, false, Bool-cases,
  Option, none, some, List, [], ◌∷◌, arith, if◌then◌else◌, Text, get_elem?, set, inl, inr, length,
  set_three, get_or-set_three, length-set_three, same,
}
use comp310_winter.Store.{Memory, none_slot, none_text, slot_at, var_at, Slot}
use comp310_winter.Stdio.{Stream, fgets}
use comp310_winter.A3.Memory.{mem_free_at}
use comp310_winter.A3.Memory.Alloc.{IsFreeRun, frame_alloc-Allocated}
use comp310_winter.A3.Pcb.{
  Pcb, Page, Loading, load_page, load_lines, store_read, page_evict, evict_slots,
}
use comp310_winter.A3.Kernel.{find_pcb, put_pcb, page_at, with_page}
use comp310_winter.A3.Kernel.Lines.{find_pcb-pid, find_pcb-put_pcb}

-- What the eviction of a page leaves in the memory.
abbrev pub evicted : Page → Memory → Memory
evicted page m = (page_evict page m).2

pub evicted-IsFreeRun :
    (frame_size var_size v : ℕ) (page : Page) (m : Memory)
    → page.index ≡ v ∷ (v + 1) ∷ (v + 2) ∷ []
    → v + 2 < frame_size
    → frame_size ≤ length m
    → IsFreeRun frame_size var_size v (evicted page m) × (length (evicted page m) ≡ length m)
unfolding page_evict evict_slots mem_free_at
evicted-IsFreeRun frame_size var_size v page m e inside size =
    let at : evicted page m ≡ set_three m v none_slot none_slot none_slot =
      ap (λ is. (evict_slots is m).1) e in
    let (a, b, c) =
      get_or-set_three m v none_slot none_slot none_slot none_slot (omega (arith, inside, size)) in
    (
      (inside, free at v a, free at (v + 1) b, free at (v + 2) c),
      ap length at ∙ length-set_three m v none_slot none_slot none_slot,
    )
  where
    free :
        {m₁ m₂ : Memory}
        → m₁ ≡ m₂
        → (j : ℕ) → slot_at m₂ j ≡ none_slot
        → same (var_at m₁ j) none_text ≡ true
    free at j e' = ap (λ (x : Slot). same x.var none_text) (ap (λ m'. slot_at m' j) at ∙ e')

load_lines-index :
    (pid : Text) (n j : ℕ) (l : Loading) → (load_lines pid n j l).page.index ≡ l.page.index
unfolding load_lines store_read
load_lines-index pid zero j l = refl
load_lines-index pid (suc n) j l =
    read (λ l'. load_lines-index pid n (j + 1) l') (fgets 998 l.source)
  where
    read :
        ((l' : Loading) → (load_lines pid n (j + 1) l').page.index ≡ l'.page.index)
        → (r : Option Text × Stream)
        → (store_read (load_lines pid n (j + 1)) pid j l r).page.index ≡ l.page.index
    read again (none, st) = refl
    read again (some line, st) = again _

-- The page has three slots in a row of the frame store.
abbrev pub HasFrame : ℕ → Page → Type 0
HasFrame frame_size page =
    (f : ℕ) × (page.index ≡ f ∷ (f + 1) ∷ (f + 2) ∷ []) × (f + 2 < frame_size)

-- With a free frame, a page is loaded.
pub load_page-free :
    (frame_size var_size v : ℕ) (pid : Text) (l : Loading)
    → IsFreeRun frame_size var_size v l.memory
    → frame_size ≤ length l.memory
    → (l' : Loading) × (load_page frame_size var_size pid l ≡ some l') × HasFrame frame_size l'.page
unfolding load_page
load_page-free frame_size var_size v pid l free size =
    elim (frame_alloc-Allocated frame_size var_size pid l.memory size) [
      | inl (i, m, e, taken) ↦ (
        load_lines pid 3 0 (start i m),
        rw (e, load_page) refl,
        (i, load_lines-index pid 3 0 (start i m), taken.was_free.0),
      )
      | inr (_, none_free) ↦ absurd (none_free v free)
    ]
  where
    start : ℕ → Memory → Loading
    start i m = record {
      page = record (l.page) {
        index = i ∷ (i + 1) ∷ (i + 2) ∷ [];
        valid_bit = false ∷ false ∷ false ∷ [];
      };
      memory = m;
      source = l.source;
    }

get_elem?-set_self :
    {A : Type 0} (xs : List A) (i : ℕ) (x v : A)
    → get_elem? xs i ≡ some x
    → get_elem? (set xs i v) i ≡ some v
get_elem?-set_self [] i x v e = absurd (ground (arith, e))
get_elem?-set_self (y ∷ xs) zero x v e = refl
get_elem?-set_self (y ∷ xs) (suc i) x v e = get_elem?-set_self xs i x v e

get_elem?-set :
    {A : Type 0} (xs : List A) (i j : ℕ) (x v : A)
    → get_elem? xs i ≡ some x
    → (y : A) × (get_elem? (set xs j v) i ≡ some y)
get_elem?-set [] i j x v e = (x, e)
get_elem?-set (z ∷ xs) zero zero x v e = (v, refl)
get_elem?-set (z ∷ xs) zero (suc j) x v e = (x, e)
get_elem?-set (z ∷ xs) (suc i) zero x v e = (x, e)
get_elem?-set (z ∷ xs) (suc i) (suc j) x v e = get_elem?-set xs i j x v e

-- Behind a change of a page, the page of a process is still there.
pub page_after :
    (ps : List Pcb) (pid i j : ℕ) (p q : Pcb) (page v : Page)
    → find_pcb pid ps ≡ some p
    → get_elem? p.page_table i ≡ some page
    → find_pcb q.pid ps ≡ some q
    → (p' : Pcb) × (page' : Page) × (find_pcb pid (put_pcb (with_page q j v) ps) ≡ some p')
      × (get_elem? p'.page_table i ≡ some page')
page_after ps pid i j p q page v found at found_q = elim (Bool-cases (q.pid == pid)) [
  | inl same_pid ↦
      let (page', e) = get_elem?-set q.page_table i j page v (
        ap (table i) (sym found_q ∙ ap (λ n. find_pcb n ps) ((==_iff q.pid pid).0 same_pid) ∙ found)
        ∙ at) in
      (
        with_page q j v,
        page',
        after ∙ ap (λ b. if b then some (with_page q j v) else find_pcb pid ps) same_pid,
        e,
      )
  | inr other ↦ (
    p,
    page,
    after ∙ ap (λ b. if b then some (with_page q j v) else find_pcb pid ps) other ∙ found,
    at,
  )
]
  where
    table : ℕ → Option Pcb → Option Page
    table i o = elim o [ none ↦ none | some r ↦ get_elem? r.page_table i ]

    after :
        find_pcb pid (put_pcb (with_page q j v) ps)
        ≡ (if q.pid == pid then some (with_page q j v) else find_pcb pid ps)
    after = find_pcb-put_pcb pid ps q (with_page q j v) found_q

-- The page that was loaded last is the page of its process.
pub page_at-put_pcb :
    (ps : List Pcb) (pid i : ℕ) (p : Pcb) (page : Page) (l : Loading)
    → find_pcb pid ps ≡ some p
    → get_elem? p.page_table i ≡ some page
    → page_at (put_pcb (record (with_page p i l.page) { source_file = l.source }) ps) (pid, i)
      ≡ some l.page
page_at-put_pcb ps pid i p page l found at =
    ap look (
      find_pcb-put_pcb pid ps p after (ap (λ n. find_pcb n ps) same_pid ∙ found)
      ∙ ap (λ b. if b then some after else find_pcb pid ps) ((==_iff p.pid pid).1 same_pid))
    ∙ get_elem?-set_self p.page_table i page l.page at
  where
    after : Pcb
    after = record (with_page p i l.page) { source_file = l.source }

    look : Option Pcb → Option Page
    look o = elim o [ none ↦ none | some r ↦ get_elem? r.page_table i ]

    same_pid : p.pid ≡ pid
    same_pid = find_pcb-pid pid ps p found

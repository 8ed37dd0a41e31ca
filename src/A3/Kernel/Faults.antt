-- ===== src/A3/Kernel/Faults.antt =====
-- The page fault of a3/kernel.c when no frame is free.
use comp310_winter.Base.{
  ℕ, ◌+◌, ◌<◌, ◌≤◌, ◌≡◌, refl, ap, ◌∙◌, Bool, true, false, Option, none, some, List, [], ◌∷◌, ◌++◌,
  arith, if◌then◌else◌, get_elem?, length,
}
use comp310_winter.A2.Kernel.{decimal}
use comp310_winter.A3.Pcb.{Pcb, Page, Loading, load_page, page_evict}
use comp310_winter.A3.Kernel.{
  Kernel, Run, ok, and_then, or_fault, find_pcb, put_pcb, page_at, split_last, with_page,
  load_page_of, evict_victim, page_fault,
}
use comp310_winter.A3.Kernel.Lines.{find_pcb-pid}
use comp310_winter.A3.Kernel.Frames.{
  evicted, evicted-IsFreeRun, HasFrame, load_page-free, page_after, page_at-put_pcb,
}

module _ (frame_size var_size : ℕ) {S : Type 0} where
  -- The kernel behind the fault, with the victim's memory and the page that was loaded.
  abbrev fault_done : Kernel S → ℕ → ℕ → Pcb → ℕ → Page → Pcb → Loading → List (ℕ × ℕ) → Kernel S
  fault_done k pid i q j victim_page p' l lru = record k {
    all_pcb =
        put_pcb (record (with_page p' i l.page) { source_file = l.source })
          (put_pcb (with_page q j (page_evict victim_page k.memory).1) k.all_pcb);
    memory = l.memory;
    printed = k.printed ++ (page_evict victim_page k.memory).0;
    lru_cache = (pid, i) ∷ lru;
    queue = k.queue ++ (pid ∷ []);
  }

  abbrev loaded : Kernel S → ℕ → Pcb → Option Loading → Run S Bool
  loaded k i p o = elim o [
    | none ↦ ok false k
    | some l ↦ ok true (record k {
      all_pcb = put_pcb (record (with_page p i l.page) { source_file = l.source }) k.all_pcb;
      memory = l.memory;
    })
  ]

  load_page_of_lem :
      (k : Kernel S) (i : ℕ) (p : Pcb) (page : Page) (o : Option Loading)
      → get_elem? p.page_table i ≡ some page
      → load_page frame_size var_size
          (decimal 10 p.pid)
          (record { page = page; memory = k.memory; source = p.source_file })
        ≡ o
      → load_page_of frame_size var_size p i k ≡ loaded k i p o
  unfolding load_page_of
  load_page_of_lem k i p page o at e =
      ap
        (λ o. or_fault o λ page'. loaded k i p (
          load_page frame_size var_size (decimal 10 p.pid)
            (record { page = page'; memory = k.memory; source = p.source_file })))
        at
      ∙ ap (loaded k i p) e

  -- The kernel behind the eviction.
  abbrev victim_gone : Kernel S → Pcb → ℕ → Page → List (ℕ × ℕ) → Kernel S
  victim_gone k q j victim_page lru = record k {
    all_pcb = put_pcb (with_page q j (page_evict victim_page k.memory).1) k.all_pcb;
    lru_cache = lru;
    memory = evicted victim_page k.memory;
    printed = k.printed ++ (page_evict victim_page k.memory).0;
  }

  evict_victim_lem :
      (k : Kernel S) (q : Pcb) (victim_page : Page) (victim : ℕ × ℕ) (lru : List (ℕ × ℕ))
      → split_last k.lru_cache ≡ some (victim, lru)
      → find_pcb victim.0 k.all_pcb ≡ some q
      → get_elem? q.page_table victim.1 ≡ some victim_page
      → evict_victim frame_size var_size k ≡ ok tt (victim_gone k q victim.1 victim_page lru)
  unfolding evict_victim
  evict_victim_lem k q victim_page victim lru last found at =
      ap popped last
      ∙ ap (λ o. or_fault o λ r. or_fault (get_elem? r.page_table victim.1) (gone r)) found
      ∙ ap (λ o. or_fault o (gone q)) at
    where
      gone : Pcb → Page → Run S (Unit {0})
      gone r page = ok tt (victim_gone k r victim.1 page lru)

      popped : Option ((ℕ × ℕ) × List (ℕ × ℕ)) → Run S (Unit {0})
      popped o = elim o [
        | none ↦ Run.exited
        | some (v, rest) ↦
            or_fault (find_pcb v.0 k.all_pcb) λ r.
              or_fault (get_elem? r.page_table v.1) λ page. ok tt (victim_gone k r v.1 page rest)
      ]

  -- What `page_fault` does behind the load.
  abbrev finished : ℕ → ℕ → Unit {0} → Kernel S → Run S (Unit {0})
  finished pid i _ k =
      ok tt (record k { lru_cache = (pid, i) ∷ k.lru_cache; queue = k.queue ++ (pid ∷ []) })

  abbrev retried : ℕ → ℕ → Unit {0} → Kernel S → Run S (Unit {0})
  retried pid i _ k =
      or_fault (find_pcb pid k.all_pcb)
        λ p. and_then (load_page_of frame_size var_size p i k) λ _ k3. ok tt k3

  page_fault-chain :
      (k k₂ k₃ : Kernel S) (pid i : ℕ) (p p' : Pcb)
      → find_pcb pid k.all_pcb ≡ some p
      → load_page_of frame_size var_size p i k ≡ ok false k
      → evict_victim frame_size var_size k ≡ ok tt k₂
      → find_pcb pid k₂.all_pcb ≡ some p'
      → load_page_of frame_size var_size p' i k₂ ≡ ok true k₃
      → page_fault frame_size var_size pid i k ≡ finished pid i tt k₃
  unfolding page_fault
  page_fault-chain k k₂ k₃ pid i p p' found full gone found' loads =
      ap
        (λ o.
          or_fault o λ r.
            and_then (and_then (load_page_of frame_size var_size r i k) judged) (finished pid i))
        found
      ∙ ap (λ r. and_then (and_then r judged) (finished pid i)) full
      ∙ ap (λ r. and_then (and_then r (retried pid i)) (finished pid i)) gone
      ∙ ap
          (λ o.
            and_then
              (or_fault o λ r. and_then (load_page_of frame_size var_size r i k₂) λ _ k3. ok tt k3)
              (finished pid i))
          found'
      ∙ ap (λ r. and_then (and_then r λ _ k3. ok tt k3) (finished pid i)) loads
    where
      judged : Bool → Kernel S → Run S (Unit {0})
      judged b k' =
          if b then ok tt k' else and_then (evict_victim frame_size var_size k') (retried pid i)

  -- If there is no free frame for the page, and the page that was used least recently has the
  -- frame at `v`, inside the frame store, and both pages and their processes are there, then
  -- `page_fault` returns: the page has a frame inside the frame store, the process is the last of
  -- the queue, and in the list of pages the victim is gone and the page is at the head.
  pub page_fault-evicts :
      (k : Kernel S) (pid i v : ℕ) (p q : Pcb) (page victim_page : Page) (victim : ℕ × ℕ)
      (lru : List (ℕ × ℕ))
      → find_pcb pid k.all_pcb ≡ some p
      → get_elem? p.page_table i ≡ some page
      → load_page frame_size var_size
          (decimal 10 p.pid)
          (record { page = page; memory = k.memory; source = p.source_file })
        ≡ none
      → split_last k.lru_cache ≡ some (victim, lru)
      → find_pcb victim.0 k.all_pcb ≡ some q
      → get_elem? q.page_table victim.1 ≡ some victim_page
      → victim_page.index ≡ v ∷ (v + 1) ∷ (v + 2) ∷ []
      → v + 2 < frame_size
      → frame_size ≤ length k.memory
      → (k' : Kernel S) × (page_fault frame_size var_size pid i k ≡ ok tt k')
        × (k'.queue ≡ k.queue ++ (pid ∷ []))
        × (k'.lru_cache ≡ (pid, i) ∷ lru)
        × (loaded : Page) × (page_at k'.all_pcb (pid, i) ≡ some loaded)
        × HasFrame frame_size loaded
  page_fault-evicts k pid i v p q page victim_page victim lru found at full last found_q at_q e
        inside size =
      let (free, same_length) =
        evicted-IsFreeRun frame_size var_size v victim_page k.memory e inside size in
      let (p', page', found', at') =
        page_after k.all_pcb pid i victim.1 p q page (page_evict victim_page k.memory).1 found at
          (ap (λ n. find_pcb n k.all_pcb) (find_pcb-pid victim.0 k.all_pcb q found_q) ∙ found_q) in
      let (l, loads, has_frame) =
        load_page-free frame_size var_size v (decimal 10 p'.pid)
          (record { page = page'; memory = evicted victim_page k.memory; source = p'.source_file })
          free (omega (arith, same_length, size)) in
      (
        fault_done k pid i q victim.1 victim_page p' l lru,
        page_fault-chain k (victim_gone k q victim.1 victim_page lru) _ pid i p p' found
            (load_page_of_lem k i p page none at full)
            (evict_victim_lem k q victim_page victim lru last found_q at_q) found'
            (load_page_of_lem _ i p' page' (some l) at' loads),
        refl,
        refl,
        l.page,
        page_at-put_pcb _ pid i p' page' l found' at',
        has_frame,
      )

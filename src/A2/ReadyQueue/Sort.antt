-- ===== src/A2/ReadyQueue/Sort.antt =====
-- What `sort_ready_queue` does to the order of the queue, and what `pop_shortest_job` then pops.
use mathlib.Core.List.{Perm, append_assoc}
use mathlib.Core.List.Perm
use mathlib.Core.Path.{subst}
use comp310_winter.Base.{
  ℕ, ◌≡◌, refl, sym, ap, ◌∙◌, none, ℕ, suc, Bool, Option, inl, inr, true, false, some, [], ◌∷◌,
  ◌++◌, arith, ◌==◌, if◌then◌else◌, Bool-cases, All,
}
use comp310_winter.A2.Pcb.{Pcb}
use comp310_winter.A2.ReadyQueue.{
  Queue, swap_needed, swap_with_next, sort_pass, sort_from, sort_ready_queue, pop_shortest_job,
  pop_head,
}

swap_needed_trans :
    (a b c : Pcb) → swap_needed a b ≡ false → swap_needed b c ≡ false → swap_needed a c ≡ false
unfolding swap_needed
swap_needed_trans a b c h k = ground arith

swap_needed_asym : (a b : Pcb) → swap_needed a b ≡ true → swap_needed b a ≡ false
unfolding swap_needed
swap_needed_asym a b h = ground arith

-- `p` need not be swapped with `last` behind it.
abbrev pub Before : Pcb → Pcb → Type 0
Before last p = swap_needed p last ≡ false

Before-refl : (p : Pcb) → Before p p
unfolding swap_needed
Before-refl p = ground arith

-- One walk as a function of its own.
unfoldable bubble : Pcb → Queue → Queue
bubble cur [] = cur ∷ []
bubble cur (next ∷ q) = elim (swap_needed cur next) [
  | true ↦ next ∷ bubble cur q
  | false ↦ cur ∷ bubble next q
]

-- A walk leaves the queue that `bubble` gives.
record Walks (front : Queue) (cur : Pcb) (q : Queue) (r : Bool × Queue × Pcb) : Type 0 where
  whole : r.1 ++ (r.2 ∷ []) ≡ front ++ bubble cur q

sort_pass-swap :
    (sorted : Bool) (front : Queue) (cur next : Pcb) (q : Queue)
    → swap_needed cur next ≡ true
    → sort_pass sorted front cur (next ∷ q) ≡ sort_pass false (front ++ (next ∷ [])) cur q
unfolding sort_pass
sort_pass-swap sorted front cur next q e =
    ap
      (λ b. elim b [
        | true ↦ sort_pass false (front ++ (next ∷ [])) cur q
        | false ↦ sort_pass sorted (front ++ (cur ∷ [])) next q
      ])
      e

sort_pass-keep :
    (sorted : Bool) (front : Queue) (cur next : Pcb) (q : Queue)
    → swap_needed cur next ≡ false
    → sort_pass sorted front cur (next ∷ q) ≡ sort_pass sorted (front ++ (cur ∷ [])) next q
unfolding sort_pass
sort_pass-keep sorted front cur next q e =
    ap
      (λ b. elim b [
        | true ↦ sort_pass false (front ++ (next ∷ [])) cur q
        | false ↦ sort_pass sorted (front ++ (cur ∷ [])) next q
      ])
      e

bubble-swap :
    (cur next : Pcb) (q : Queue)
    → swap_needed cur next ≡ true
    → bubble cur (next ∷ q) ≡ next ∷ bubble cur q
unfolding bubble
bubble-swap cur next q e =
    ap (λ b. elim b [ true ↦ next ∷ bubble cur q | false ↦ cur ∷ bubble next q ]) e

bubble-keep :
    (cur next : Pcb) (q : Queue)
    → swap_needed cur next ≡ false
    → bubble cur (next ∷ q) ≡ cur ∷ bubble next q
unfolding bubble
bubble-keep cur next q e =
    ap (λ b. elim b [ true ↦ next ∷ bubble cur q | false ↦ cur ∷ bubble next q ]) e

sort_pass-Walks :
    (sorted : Bool) (front : Queue) (cur : Pcb) (q : Queue)
    → Walks front cur q (sort_pass sorted front cur q)
unfolding sort_pass bubble
sort_pass-Walks sorted front cur [] = record { whole = refl }
sort_pass-Walks sorted front cur (next ∷ q) = elim (Bool-cases (swap_needed cur next)) [
  | inl e ↦
      subst (Walks front cur (next ∷ q)) (sym (sort_pass-swap sorted front cur next q e)) (record {
        whole =
            (sort_pass-Walks false (front ++ (next ∷ [])) cur q).whole
            ∙ append_assoc front (next ∷ []) (bubble cur q)
            ∙ ap (λ r. front ++ r) (sym (bubble-swap cur next q e));
      })
  | inr e ↦
      subst (Walks front cur (next ∷ q)) (sym (sort_pass-keep sorted front cur next q e)) (record {
        whole =
            (sort_pass-Walks sorted (front ++ (cur ∷ [])) next q).whole
            ∙ append_assoc front (cur ∷ []) (bubble next q)
            ∙ ap (λ r. front ++ r) (sym (bubble-keep cur next q e));
      })
]

-- Two rounds of the outer loop end the sort, whatever more fuel there is.
sort_from-sort_pass :
    (n : ℕ) (front : Queue) (cur : Pcb) (q : Queue)
    → sort_from (suc (suc n)) front cur q ≡ some (front ++ bubble cur q)
unfolding sort_from
sort_from-sort_pass n front cur q =
    ended (sort_pass true front cur q) (sort_pass-Walks true front cur q)
  where
    ended :
        (r : Bool × Queue × Pcb)
        → Walks front cur q r
        → elim r.0 [ true ↦ some (r.1 ++ (r.2 ∷ [])) | false ↦ sort_from (suc n) r.1 r.2 [] ]
          ≡ some (front ++ bubble cur q)
    ended (true, f, l) w = ap some w.whole
    ended (false, f, l) w = ap some w.whole

sort_ready_queue-bubble : (p : Pcb) (q : Queue) → sort_ready_queue (p ∷ q) ≡ bubble p q
unfolding sort_ready_queue
sort_ready_queue-bubble p q =
    ap (λ (o : Option Queue). elim o [ none ↦ p ∷ q | some r ↦ r ]) (sort_from-sort_pass 0 [] p q)

bubble-perm : (cur : Pcb) (q : Queue) → Perm (bubble cur q) (cur ∷ q)
unfolding bubble
bubble-perm cur [] = Perm.refl _
bubble-perm cur (next ∷ q) = elim (Bool-cases (swap_needed cur next)) [
  | inl e ↦ rw (e, bubble) (Perm.trans (Perm.cons next (bubble-perm cur q)) (Perm.swap cur next q))
  | inr e ↦ rw (e, bubble) (Perm.cons cur (bubble-perm next q))
]

-- The walk ends with a process that no process of the list has to be swapped with.
abbrev LastIsMax : Pcb → Queue → Type 0
LastIsMax cur r =
    (front : Queue) × (last : Pcb) × (r ≡ front ++ (last ∷ []))
    × Before last cur
    × All (Before last) front

bubble-LastIsMax : (cur : Pcb) (q : Queue) → LastIsMax cur (bubble cur q)
unfolding bubble
bubble-LastIsMax cur [] = ([], cur, refl, Before-refl cur, tt)
bubble-LastIsMax cur (next ∷ q) = elim (Bool-cases (swap_needed cur next)) [
  | inl e ↦
      let (front, last, split, mine, rest) = bubble-LastIsMax cur q in
      (
        next ∷ front,
        last,
        rw (e, bubble) (ap (◌∷◌ next) split),
        mine,
        (swap_needed_trans next cur last (swap_needed_asym cur next e) mine, rest),
      )
  | inr e ↦
      let (front, last, split, mine, rest) = bubble-LastIsMax next q in
      (
        cur ∷ front,
        last,
        rw (e, bubble) (ap (◌∷◌ cur) split),
        swap_needed_trans cur next last e mine,
        (swap_needed_trans cur next last e mine, rest),
      )
]

bubble-first :
    (a b : Pcb) (q : Queue)
    → (pop_head (bubble a (b ∷ q))).0 ≡ some (if swap_needed a b then b else a)
unfolding bubble pop_head
bubble-first a b q = ground arith

-- Two rounds of its outer loop are enough for `sort_ready_queue` on two processes or more,
-- whatever more are allowed. The result has the same processes, as often as they were queued, and
-- at its end one that need not stand in front of any other; but the job that
-- `ready_queue_pop_shortest_job` then pops is the one that goes first of the first two, whatever
-- is queued behind.
pub sort_ready_queue-once :
    (n : ℕ) (a b : Pcb) (q : Queue)
    → (r : Queue) × (sort_from (suc (suc n)) [] a (b ∷ q) ≡ some r)
      × (sort_ready_queue (a ∷ b ∷ q) ≡ r)
      × Perm r (a ∷ b ∷ q)
      × ((front : Queue) × (last : Pcb) × (r ≡ front ++ (last ∷ [])) × All (Before last) front)
      × ((pop_shortest_job (a ∷ b ∷ q)).0 ≡ some (if swap_needed a b then b else a))
unfolding pop_shortest_job
sort_ready_queue-once n a b q =
    let (front, last, split, _, rest) = bubble-LastIsMax a (b ∷ q) in
    (
      bubble a (b ∷ q),
      sort_from-sort_pass n [] a (b ∷ q),
      sort_ready_queue-bubble a (b ∷ q),
      bubble-perm a (b ∷ q),
      (front, last, split, rest),
      ap (λ (r : Queue). (pop_head r).0) (sort_ready_queue-bubble a (b ∷ q)) ∙ bubble-first a b q,
    )

-- In a queue of processes in order, no process is moved.
abbrev pub IsOrdered : Pcb → Queue → Type 0
IsOrdered p [] = Unit {0}
IsOrdered p (next ∷ q) = (swap_needed p next ≡ false) × IsOrdered next q

bubble_ordered : (p : Pcb) (q : Queue) → IsOrdered p q → bubble p q ≡ p ∷ q
unfolding bubble
bubble_ordered p [] h = refl
bubble_ordered p (next ∷ q) h = rw (h.0, bubble) (ap (◌∷◌ p) (bubble_ordered next q h.1))

-- The exchange that the walk makes is `ready_queue_swap_with_next` on the whole queue.
abbrev pub Absent : ℕ → Queue → Type 0
Absent pid = All (λ (p : Pcb). (p.pid == pid) ≡ false)

-- `ready_queue_swap_with_next` exchanges the first process that has the number with the one behind
-- it and leaves the rest of the queue in place.
pub swap_with_next-exchange :
    (front : Queue) (cur next : Pcb) (q : Queue)
    → Absent cur.pid front
    → swap_with_next cur.pid (front ++ (cur ∷ next ∷ q)) ≡ front ++ (next ∷ cur ∷ q)
unfolding swap_with_next
swap_with_next-exchange [] cur next q h = ground arith
swap_with_next-exchange (p ∷ []) cur next q h = ground arith
swap_with_next-exchange (p ∷ r ∷ front) cur next q h =
    rw h.0 (ap (◌∷◌ p) (swap_with_next-exchange (r ∷ front) cur next q h.1))

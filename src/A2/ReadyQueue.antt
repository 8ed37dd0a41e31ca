-- ===== src/A2/ReadyQueue.antt =====
-- a2/ready_queue.c: the ready queue, a singly linked list with one node for each process. The list
-- `head`, `head->next`, ... is a `List`, and a node is known by its process, whose `pid` is unique.
pub mod Sort
pub mod Shortest
use comp310_winter.Base.{
  ℕ, zero, suc, ◌+◌, ◌-◌, ◌≡◌, Bool, true, false, not, ◌&&◌, ◌||◌, Option, none, some, List, [],
  ◌∷◌, ◌++◌, ◌==◌, ltb, if◌then◌else◌, Text, same, map,
}
use comp310_winter.A2.Pcb.{Pcb}

abbrev pub Queue : Type 0
Queue = List Pcb

-- `#define MAX_INT`
abbrev pub max_int : ℕ
max_int = 2147483646

unfoldable pub find_process : Text → Queue → Option Pcb
find_process file [] = none
find_process file (p ∷ q) = if same p.filename file then some p else find_process file q

unfoldable pub add_to_tail : Pcb → Queue → Queue
add_to_tail node [] = node ∷ []
add_to_tail node (p ∷ q) = p ∷ add_to_tail node q

unfoldable pub add_to_head : Pcb → Queue → Queue
add_to_head node q = node ∷ q

unfoldable pub is_ready_empty : Queue → Bool
is_ready_empty [] = true
is_ready_empty (p ∷ q) = false

unfoldable pub pop_head : Queue → Option Pcb × Queue
pop_head [] = (none, [])
pop_head (p ∷ q) = (some p, q)

-- `job_length_score--` where it is above 0.
unfoldable pub aged : Pcb → Pcb
aged p =
    if ltb 0 p.job_length_score then record p { job_length_score = p.job_length_score - 1 } else p

unfoldable pub decrement_job_length_score : Queue → Queue
unfolding aged
decrement_job_length_score [] = []
decrement_job_length_score (p ∷ q) = aged p ∷ decrement_job_length_score q

-- `swap_needed(cur)` with `next` behind `cur`.
unfoldable pub swap_needed : Pcb → Pcb → Bool
swap_needed cur next =
    if cur.priority && next.priority
    then ltb next.job_length_score cur.job_length_score
    else if cur.priority && not next.priority
    then false
    else if not cur.priority && next.priority
    then true
    else ltb next.job_length_score cur.job_length_score

-- `ready_queue_swap_with_next`: the node of the process `pid` changes places with the one behind it.
unfoldable pub swap_with_next : ℕ → Queue → Queue
swap_with_next pid [] = []
swap_with_next pid (p ∷ []) = p ∷ []
swap_with_next pid (p ∷ next ∷ q) =
    if p.pid == pid then next ∷ p ∷ q else p ∷ swap_with_next pid (next ∷ q)

-- The inner loop of `sort_ready_queue` with the nodes in front of `cur`, `cur` and the nodes behind it:
-- a swap moves the node behind to the front of `cur`, and otherwise the walk goes on. The results are
-- `sorted`, the nodes in front and the node where the walk ends, the last one.
unfoldable pub sort_pass : Bool → Queue → Pcb → Queue → Bool × Queue × Pcb
unfolding swap_needed
sort_pass sorted front cur [] = (sorted, front, cur)
sort_pass sorted front cur (next ∷ q) = elim (swap_needed cur next) [
  | true ↦ sort_pass false (front ++ (next ∷ [])) cur q
  | false ↦ sort_pass sorted (front ++ (cur ∷ [])) next q
]

-- The outer loop, on fuel: `cur` is not taken back to the head between two rounds.
unfoldable pub sort_from : ℕ → Queue → Pcb → Queue → Option Queue
unfolding sort_pass
sort_from zero front cur q = none
sort_from (suc n) front cur q =
    let (sorted, front', last) = sort_pass true front cur q in
    elim sorted [ true ↦ some (front' ++ (last ∷ [])) | false ↦ sort_from n front' last [] ]

-- `sort_ready_queue`. Fuel for two rounds is enough, so the queue as it was is not what results.
unfoldable pub sort_ready_queue : Queue → Queue
unfolding sort_from
sort_ready_queue [] = []
sort_ready_queue (p ∷ q) = elim (sort_from 2 [] p q) [ none ↦ p ∷ q | some r ↦ r ]

unfoldable pub pop_shortest_job : Queue → Option Pcb × Queue
unfolding sort_ready_queue pop_head
pop_shortest_job q = pop_head (sort_ready_queue q)

unfoldable pub shortest_from : ℕ → Queue → ℕ
shortest_from shortest [] = shortest
shortest_from shortest (p ∷ q) =
    shortest_from (if ltb p.job_length_score shortest then p.job_length_score else shortest) q

unfoldable pub get_shortest_job_score : Queue → ℕ
unfolding shortest_from
get_shortest_job_score q = shortest_from max_int q

-- The walk of `ready_queue_promote`: the first process with the score, and the others.
unfoldable pub take_score : ℕ → Queue → Option (Pcb × Queue)
take_score score [] = none
take_score score (p ∷ q) =
    if p.job_length_score == score
    then some (p, q)
    else elim (take_score score q) [ none ↦ none | some (r, rest) ↦ some (r, p ∷ rest) ]

-- `ready_queue_promote`: the first process with the score becomes the head. On an empty queue it
-- reads through a null pointer, `none`.
unfoldable pub promote : ℕ → Queue → Option Queue
unfolding take_score
promote score [] = none
promote score (p ∷ q) =
    if p.job_length_score == score
    then some (p ∷ q)
    else some (elim (take_score score q) [ none ↦ p ∷ q | some (r, rest) ↦ r ∷ p ∷ rest ])

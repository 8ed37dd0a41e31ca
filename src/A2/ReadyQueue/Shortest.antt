-- ===== src/A2/ReadyQueue/Shortest.antt =====
-- The shortest score, the promotion of its process, and ageing.
use comp310_winter.Base.{
  ℕ, ◌-◌, ◌≤◌, ◌≡◌, refl, sym, ap, ◌⊎◌, inl, inr, false, some, [], ◌∷◌, ◌++◌, arith, ◌==◌, ltb,
  if◌then◌else◌, Bool-cases, All, map,
}
use comp310_winter.A2.Pcb.{Pcb}
use comp310_winter.A2.ReadyQueue.{
  Queue, max_int, shortest_from, get_shortest_job_score, take_score, promote, aged,
  decrement_job_length_score,
}

-- Some process of the queue has the score.
abbrev pub HasScore : ℕ → Queue → Type 0
HasScore n [] = ⊥
HasScore n (p ∷ q) = (p.job_length_score ≡ n) ⊎ HasScore n q

shortest_from-le : (n : ℕ) (q : Queue) → shortest_from n q ≤ n
unfolding shortest_from
shortest_from-le n [] = omega arith
shortest_from-le n (p ∷ q) =
    ground (arith, shortest_from-le n q, shortest_from-le p.job_length_score q)

shortest_from-least :
    (n : ℕ) (q : Queue) → All (λ (p : Pcb). shortest_from n q ≤ p.job_length_score) q
unfolding shortest_from
shortest_from-least n [] = tt
shortest_from-least n (p ∷ q) = (
  ground (arith, shortest_from-le n q, shortest_from-le p.job_length_score q),
  shortest_from-least (if ltb p.job_length_score n then p.job_length_score else n) q,
)

shortest_from-HasScore : (n s : ℕ) (q : Queue) → shortest_from n q ≡ s → (s ≡ n) ⊎ HasScore s q
unfolding shortest_from
shortest_from-HasScore n s [] e = inl (sym e)
shortest_from-HasScore n s (p ∷ q) e =
    elim (shortest_from-HasScore (if ltb p.job_length_score n then p.job_length_score else n) s q
      e) [ inl found ↦ ground arith | inr later ↦ inr (inr later) ]

-- The walk splits the queue at the first process with the score.
abbrev pub SplitsAt : ℕ → Queue → Pcb → Queue → Type 0
SplitsAt score q r rest =
    (front back : Queue) × (q ≡ front ++ (r ∷ back))
    × (rest ≡ front ++ back)
    × All (λ (p : Pcb). (p.job_length_score == score) ≡ false) front
    × (r.job_length_score ≡ score)

take_score-SplitsAt :
    (score : ℕ) (q : Queue)
    → HasScore score q
    → (r : Pcb) × (rest : Queue) × (take_score score q ≡ some (r, rest)) × SplitsAt score q r rest
unfolding take_score
take_score-SplitsAt score [] h = absurd h
take_score-SplitsAt score (p ∷ q) h = elim (Bool-cases (p.job_length_score == score)) [
  | inl hit ↦ (p, q, rw (hit, take_score), ([], q, refl, refl, tt, ground arith))
  | inr miss ↦
      let later : HasScore score q = ground (arith, h, miss) in
      let (r, rest, e, (front, back, whole, left, before, scored)) =
        take_score-SplitsAt score q later in
      (
        r,
        p ∷ rest,
        rw (miss, e, take_score),
        (p ∷ front, back, ap (◌∷◌ p) whole, ap (◌∷◌ p) left, (miss, before), scored),
      )
]

-- `ready_queue_promote` with the score of some process puts the first process of that score at the
-- head and keeps the order of the others.
pub promote-SplitsAt :
    (score : ℕ) (q : Queue)
    → HasScore score q
    → (r : Pcb) × (rest : Queue) × (promote score q ≡ some (r ∷ rest)) × SplitsAt score q r rest
unfolding promote
promote-SplitsAt score [] h = absurd h
promote-SplitsAt score (p ∷ q) h = elim (Bool-cases (p.job_length_score == score)) [
  | inl hit ↦ (p, q, rw (hit, promote), ([], q, refl, refl, tt, ground arith))
  | inr miss ↦
      let later : HasScore score q = ground (arith, h, miss) in
      let (r, rest, e, (front, back, whole, left, before, scored)) =
        take_score-SplitsAt score q later in
      (
        r,
        p ∷ rest,
        rw (miss, e, promote),
        (p ∷ front, back, ap (◌∷◌ p) whole, ap (◌∷◌ p) left, (miss, before), scored),
      )
]

-- The shortest score is at most the score of each process. It is some process's score, or it is
-- `MAX_INT`.
pub get_shortest_job_score-least :
    (q : Queue)
    → All (λ (p : Pcb). get_shortest_job_score q ≤ p.job_length_score) q
      × ((get_shortest_job_score q ≡ max_int) ⊎ HasScore (get_shortest_job_score q) q)
unfolding get_shortest_job_score
get_shortest_job_score-least q =
    (shortest_from-least max_int q, shortest_from-HasScore max_int _ q refl)

-- Ageing takes one from each positive score and nothing from a score of 0.
pub scores-decrement :
    (q : Queue)
    → map (λ (p : Pcb). p.job_length_score) (decrement_job_length_score q)
      ≡ map (λ (p : Pcb). p.job_length_score - 1) q
unfolding decrement_job_length_score aged
scores-decrement [] = refl
scores-decrement (p ∷ q) = ground (arith, scores-decrement q)

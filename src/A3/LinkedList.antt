-- ===== src/A3/LinkedList.antt =====
-- a3/linked_list.h and linked_list.c: doubly linked lists with a dummy node at each end, on a heap of
-- nodes. The heap has one function for each field of a node. `data` is `none` where it was never set,
-- as at the dummies. Popped nodes are not freed. `malloc` returns the address `fresh`.
pub mod Links
pub mod Ends
pub mod Takes
pub mod Search
mod Tests
use comp310_winter.Base.{
  ℕ, zero, suc, ◌+◌, ◌-◌, ◌==◌, ltb, not, Bool, true, false, Option, none, some, if◌then◌else◌,
}

abbrev pub Ptr : Type 0
Ptr = ℕ

abbrev pub null : Ptr
null = 0

pub record Heap (A : Type 0) : Type 0 where
  pub live : Ptr → Bool
  pub next : Ptr → Ptr
  pub prev : Ptr → Ptr
  pub data_at : Ptr → Option A

-- `LINKED_LIST`, less the comparison, which is an argument of the operations that use it.
pub record LinkedList : Type 0 where
  pub size : ℕ
  pub dummy_head : Ptr
  pub dummy_tail : Ptr

-- A call returns, ends the shell by `exit(99)`, or goes through a pointer to no node or uses data that
-- was never set. `out_of_fuel` is a walk that is longer than its fuel.
pub data Run (A X : Type 0) : Type 0 where
  ok : X → Heap A → Run A X
  exited : Run A X
  fault : Run A X
  out_of_fuel : Run A X

abbrev pub put {ℓ} : {B : Type ℓ} → (Ptr → B) → Ptr → B → Ptr → B
put f p b q = if p == q then b else f q

abbrev pub Cmd : Type 0 → Type 0 → Type 0
Cmd A X = Heap A → Run A X

module _ {A : Type 0} where
  abbrev pub and_then : {X Y : Type 0} → Run A X → (X → Cmd A Y) → Run A Y
  and_then (ok x h) k = k x h
  and_then exited k = exited
  and_then fault k = fault
  and_then out_of_fuel k = out_of_fuel

  infixl 5 ◌>>=◌ ◌>>◌
  abbrev pub ◌>>=◌ : {X Y : Type 0} → Cmd A X → (X → Cmd A Y) → Cmd A Y
  m >>= k = λ h. and_then (m h) k

  abbrev pub ◌>>◌ : {X Y : Type 0} → Cmd A X → Cmd A Y → Cmd A Y
  m >> n = m >>= λ _. n

  abbrev pub pure : {X : Type 0} → X → Cmd A X
  pure = ok

  abbrev pub load_next : Ptr → Cmd A Ptr
  load_next p h = if h.live p then ok (h.next p) h else fault

  abbrev pub load_prev : Ptr → Cmd A Ptr
  load_prev p h = if h.live p then ok (h.prev p) h else fault

  -- A use of `p->data`.
  abbrev pub load_data : Ptr → Cmd A A
  load_data p h = if h.live p then elim (h.data_at p) [ none ↦ fault | some x ↦ ok x h ] else fault

  abbrev pub store_next : Ptr → Ptr → Cmd A (Unit {0})
  store_next p q h = if h.live p then ok tt (record h { next = put h.next p q }) else fault

  abbrev pub store_prev : Ptr → Ptr → Cmd A (Unit {0})
  store_prev p q h = if h.live p then ok tt (record h { prev = put h.prev p q }) else fault

  abbrev pub store_data : Ptr → A → Cmd A (Unit {0})
  store_data p x h =
      if h.live p then ok tt (record h { data_at = put h.data_at p (some x) }) else fault

  abbrev pub malloc : Ptr → Cmd A (Unit {0})
  malloc p h = ok tt (record h { live = put h.live p (not (p == null)) })

  unfoldable pub has_next : Ptr → Cmd A Bool
  has_next elem = do q ← load_next elem; pure (not (q == null))

  -- `next_node` and `next`: what they return, and where `*elem` then points.
  unfoldable pub next_node : Ptr → Cmd A (Ptr × Ptr)
  next_node node = do q ← load_next node; pure (node, q)

  unfoldable pub next : Ptr → Cmd A (A × Ptr)
  unfolding next_node
  next elem = do (ret, q) ← next_node elem; x ← load_data ret; pure (x, q)

  unfoldable pub list_clear : LinkedList → Cmd A LinkedList
  list_clear l = do
    store_next l.dummy_head l.dummy_tail
    store_prev l.dummy_tail l.dummy_head
    pure (record l { size = 0 })

  unfoldable pub add_tail : Ptr → A → LinkedList → Cmd A LinkedList
  add_tail fresh x l = do
    malloc fresh
    old_tail ← load_prev l.dummy_tail
    store_data fresh x
    store_next old_tail fresh
    store_prev fresh old_tail
    store_next fresh l.dummy_tail
    store_prev l.dummy_tail fresh
    pure (record l { size = l.size + 1 })

  unfoldable pub add_head : Ptr → A → LinkedList → Cmd A LinkedList
  add_head fresh x l = do
    malloc fresh
    old_head ← load_next l.dummy_head
    store_data fresh x
    store_prev old_head fresh
    store_next fresh old_head
    store_prev fresh l.dummy_head
    store_next l.dummy_head fresh
    pure (record l { size = l.size + 1 })

  -- The two writes that take a node out, and what it held.
  unfoldable pub unlink : Ptr → LinkedList → Cmd A (A × LinkedList)
  unlink p l = do
    before ← load_prev p
    behind ← load_next p
    store_next before behind
    behind' ← load_next p
    before' ← load_prev p
    store_prev behind' before'
    x ← load_data p
    pure (x, record l { size = l.size - 1 })

  unfoldable pub pop_head : LinkedList → Cmd A (A × LinkedList)
  unfolding unlink
  pop_head l = if ltb 0 l.size then (do p ← load_next l.dummy_head; unlink p l) else λ h. exited

  unfoldable pub pop_tail : LinkedList → Cmd A (A × LinkedList)
  unfolding unlink
  pop_tail l = if ltb 0 l.size then (do p ← load_prev l.dummy_tail; unlink p l) else λ h. exited

  -- The walk of `get_node_by_index`.
  unfoldable pub walk : ℕ → Ptr → Cmd A Ptr
  walk zero p = pure p
  walk (suc i) p = do q ← load_next p; walk i q

  -- `get_node_by_index`, and the read through it of `get_by_index`: NULL out of bounds.
  unfoldable pub get_by_index : LinkedList → ℕ → Cmd A A
  unfolding walk
  get_by_index l i =
      if ltb i l.size then (do p ← load_next l.dummy_head; q ← walk i p; load_data q) else λ h.
      fault

  -- The walk of `get_node_by_value` from `curr` on. Its fuel is the number of nodes.
  unfoldable pub find_node : (A → A → Bool) → A → ℕ → Ptr → Cmd A Ptr
  find_node equal target zero curr = λ h. out_of_fuel
  find_node equal target (suc n) curr = if curr == null then pure curr else (do
    x ← load_data curr
    (if equal target x then pure curr else (do q ← load_next curr; find_node equal target n q)))

  unfoldable pub get_node_by_value : (A → A → Bool) → A → LinkedList → Cmd A Ptr
  unfolding find_node
  get_node_by_value equal target l = do
    p ← load_next l.dummy_head
    find_node equal target (l.size + 2) p

  unfoldable pub get_by_value : (A → A → Bool) → A → LinkedList → Cmd A A
  unfolding get_node_by_value
  get_by_value equal target l = do p ← get_node_by_value equal target l; load_data p

  unfoldable pub remove_elem : (A → A → Bool) → A → LinkedList → Cmd A (A × LinkedList)
  unfolding get_node_by_value unlink
  remove_elem equal target l = do p ← get_node_by_value equal target l; unlink p l

  unfoldable pub swap : Ptr → Ptr → Cmd A (Unit {0})
  swap p q = do x ← load_data p; y ← load_data q; store_data p y; store_data q x

  -- `list_init`, with the two nodes that `malloc` returns. The size and the fields of the struct are
  -- set, whatever they were.
  unfoldable pub list_init : Ptr → Ptr → Cmd A LinkedList
  list_init dummy_head dummy_tail = do
    malloc dummy_head
    malloc dummy_tail
    store_next dummy_tail null
    store_next dummy_head dummy_tail
    store_prev dummy_tail dummy_head
    pure (record { size = 0; dummy_head = dummy_head; dummy_tail = dummy_tail })

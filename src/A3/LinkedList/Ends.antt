-- ===== src/A3/LinkedList/Ends.antt =====
-- a3/linked_list.c on lists of nodes: making and clearing a list, and adding at an end.
use mathlib.Core.Path.{subst}
use mathlib.Core.List.{append-nil}
use comp310_winter.Base.{
  ◌+◌, ◌≡◌, ◌≢◌, refl, sym, ap, ◌∙◌, inl, inr, true, false, not, some, List, [], ◌∷◌, ◌++◌, arith,
  ◌==◌, Bool-cases, length, length-append,
}
use comp310_winter.A3.LinkedList.{
  Ptr, null, Heap, LinkedList, Run, ok, put, list_init, list_clear, add_tail, add_head,
}
use comp310_winter.A3.LinkedList.Links.{
  has, last_of, first_of, Links, Links-tail, Links-head, Links-live, Inserted, Links-insert,
  Links-ends,
}

module _ {A : Type 0} where
  -- The list has the nodes `xs`, and nothing behind its last dummy.
  pub record IsList (h : Heap A) (l : LinkedList) (xs : List (Ptr × A)) : Type 0 where
    pub links : Links h l.dummy_head xs l.dummy_tail
    pub size : l.size ≡ length xs
    pub end : h.next l.dummy_tail ≡ null
    pub no_null : h.live null ≡ false

  -- The result of a command that changes the list.
  abbrev pub Leaves : {X : Type 0} → Run A X → (X → Heap A → Type 0) → Type 0
  Leaves {X} run P = (v : X) × (g : Heap A) × (run ≡ ok v g) × P v g

  -- What `malloc` returns is no node yet.
  pub record IsFresh (h : Heap A) (fresh : Ptr) : Type 0 where
    pub unused : h.live fresh ≡ false
    pub not_null : (fresh == null) ≡ false

  pub ne_of_live : (h : Heap A) (a b : Ptr) → h.live a ≡ false → h.live b ≡ true → (a == b) ≡ false
  ne_of_live h a b dead alive = elim (Bool-cases (a == b)) [
    | inr e ↦ e
    | inl e ↦ let same : a ≡ b = ground arith in absurd (ground (arith, ap h.live same))
  ]

  fresh-out :
      (h : Heap A) (fresh p : Ptr) (xs : List (Ptr × A)) (t : Ptr)
      → h.live fresh ≡ false
      → Links h p xs t
      → has fresh xs ≡ false
  fresh-out h fresh p xs t dead l = elim (Bool-cases (has fresh xs)) [
    | inr out ↦ out
    | inl e ↦ absurd (ground (arith, Links-live h p xs t l fresh e))
  ]

  module _ (h : Heap A) (fresh : Ptr) (x : A) (l : LinkedList) (xs : List (Ptr × A))
      (w : IsList h l xs) (new : IsFresh h fresh) where
    -- The run of `add_tail`, with the node that was the last.
    add_tail-run :
        (last : Ptr)
        → h.prev l.dummy_tail ≡ last
        → h.live l.dummy_tail ≡ true
        → h.live last ≡ true
        → Leaves
            (add_tail fresh x l h)
            (λ l' g. (l' ≡ record l { size = l.size + 1 }) × Inserted h last fresh l.dummy_tail x g)
    unfolding add_tail
    add_tail-run last e live_t live_last =
        let apart = ne_of_live h fresh l.dummy_tail new.unused live_t in
        let apart' = ne_of_live h fresh last new.unused live_last in
        let g : Heap A = record {
          live = put h.live fresh (not (fresh == null));
          next = put (put h.next last fresh) fresh l.dummy_tail;
          prev = put (put h.prev fresh last) l.dummy_tail fresh;
          data_at = put h.data_at fresh (some x);
        } in
        (
          record l { size = l.size + 1 },
          g,
          ground (arith, e, new.not_null),
          (
            refl,
            record {
              next_at = λ a. ground arith;
              prev_at = λ a. ground arith;
              data_at = λ a. ground arith;
              live_at = λ a. ground (arith, new.not_null);
            },
          ),
        )

    -- The run of `add_head`, with the node that was the first.
    add_head-run :
        (first : Ptr)
        → h.next l.dummy_head ≡ first
        → h.live l.dummy_head ≡ true
        → h.live first ≡ true
        → Leaves (add_head fresh x l h) (λ l' g.
          (l' ≡ record l { size = l.size + 1 }) × Inserted h l.dummy_head fresh first x g)
    unfolding add_head
    add_head-run first e live_h live_first =
        let apart = ne_of_live h fresh l.dummy_head new.unused live_h in
        let apart' = ne_of_live h fresh first new.unused live_first in
        let g : Heap A = record {
          live = put h.live fresh (not (fresh == null));
          next = put (put h.next fresh first) l.dummy_head fresh;
          prev = put (put h.prev first fresh) fresh l.dummy_head;
          data_at = put h.data_at fresh (some x);
        } in
        (
          record l { size = l.size + 1 },
          g,
          ground (arith, e, new.not_null),
          (
            refl,
            record {
              next_at = λ a. ground arith;
              prev_at = λ a. ground arith;
              data_at = λ a. ground arith;
              live_at = λ a. ground (arith, new.not_null);
            },
          ),
        )

    abbrev apart_head : (fresh == l.dummy_head) ≡ false
    apart_head =
        ne_of_live h fresh l.dummy_head new.unused
          (Links-head h l.dummy_head xs l.dummy_tail w.links).2

    abbrev apart_tail : (fresh == l.dummy_tail) ≡ false
    apart_tail =
        ne_of_live h fresh l.dummy_tail new.unused
          (Links-tail h l.dummy_head xs l.dummy_tail w.links).2

    -- On a list with the nodes `xs` and a new node from `malloc`, `add_tail` returns and leaves a
    -- list with that node behind `xs`, its links in both directions and its size right.
    pub add_tail-IsList :
        Leaves (add_tail fresh x l h) (λ l' g. IsList g l' (xs ++ ((fresh, x) ∷ [])))
    add_tail-IsList =
        let (back, _, live_t, live_last) = Links-tail h l.dummy_head xs l.dummy_tail w.links in
        let (l', g, run, (same, i)) =
          add_tail-run (last_of l.dummy_head xs) back live_t live_last in
        let whole : xs ++ [] ≡ xs = append-nil xs in
        let links : Links h l.dummy_head (xs ++ []) l.dummy_tail =
          subst (λ ys. Links h l.dummy_head ys l.dummy_tail) (sym whole) w.links in
        let out : has fresh (xs ++ []) ≡ false =
          ap (has fresh) whole
          ∙ fresh-out h fresh l.dummy_head xs l.dummy_tail new.unused w.links in
        (
          l',
          g,
          run,
          rw same (record {
            links =
                Links-insert h g fresh x l.dummy_head xs [] l.dummy_tail links i apart_head out
                  apart_tail;
            size = omega (arith, w.size, length-append xs ((fresh, x) ∷ []));
            end = ground (
              arith,
              i.next_at l.dummy_tail,
              apart_tail,
              (Links-ends h l.dummy_head xs l.dummy_tail w.links).1,
              w.end,
            );
            no_null = ground (arith, i.live_at null, new.not_null, w.no_null);
          }),
        )

    -- The new node is in front of the others.
    pub add_head-IsList : Leaves (add_head fresh x l h) (λ l' g. IsList g l' ((fresh, x) ∷ xs))
    add_head-IsList =
        let (next, _, live_h, live_first) = Links-head h l.dummy_head xs l.dummy_tail w.links in
        let (l', g, run, (same, i)) =
          add_head-run (first_of xs l.dummy_tail) next live_h live_first in
        (
          l',
          g,
          run,
          rw same (record {
            links =
                Links-insert h g fresh x l.dummy_head [] xs l.dummy_tail w.links i apart_head
                  (fresh-out h fresh l.dummy_head xs l.dummy_tail new.unused w.links) apart_tail;
            size = omega (arith, w.size);
            end = ground (
              arith,
              i.next_at l.dummy_tail,
              apart_tail,
              (Links-ends h l.dummy_head xs l.dummy_tail w.links).0,
              w.end,
            );
            no_null = ground (arith, i.live_at null, new.not_null, w.no_null);
          }),
        )

  module _ (h : Heap A) (l : LinkedList) where
    -- What is cleared is a list without nodes.
    pub list_clear-IsList :
        (xs : List (Ptr × A)) → IsList h l xs → Leaves (list_clear l h) (λ l' g. IsList g l' [])
    unfolding list_clear
    list_clear-IsList xs w =
        let ends = Links-ends h l.dummy_head xs l.dummy_tail w.links in
        let first = Links-head h l.dummy_head xs l.dummy_tail w.links in
        let last = Links-tail h l.dummy_head xs l.dummy_tail w.links in
        let g : Heap A = record h {
          next = put h.next l.dummy_head l.dummy_tail;
          prev = put h.prev l.dummy_tail l.dummy_head;
        } in
        (
          record l { size = 0 },
          g,
          ground (arith, first.2, last.2),
          record {
            links = ground (arith, ends.0, first.2, last.2);
            size = refl;
            end = ground (arith, ends.0, w.end);
            no_null = w.no_null;
          },
        )

  -- A new list has no nodes.
  pub list_init-IsList :
      (h : Heap A) (dummy_head dummy_tail : Ptr)
      → IsFresh h dummy_head
      → IsFresh h dummy_tail
      → dummy_head ≢ dummy_tail
      → h.live null ≡ false
      → Leaves (list_init dummy_head dummy_tail h) (λ l g. IsList g l [])
  unfolding list_init
  list_init-IsList h dummy_head dummy_tail a b ne no_null =
      let g : Heap A = record h {
        live =
            put (put h.live dummy_head (not (dummy_head == null))) dummy_tail
              (not (dummy_tail == null));
        next = put (put h.next dummy_tail null) dummy_head dummy_tail;
        prev = put h.prev dummy_tail dummy_head;
      } in
      (
        record { size = 0; dummy_head = dummy_head; dummy_tail = dummy_tail },
        g,
        ground (arith, a.not_null, b.not_null, ne),
        record {
          links = ground (arith, ne, a.not_null, b.not_null);
          size = refl;
          end = ground (arith, ne);
          no_null = ground (arith, a.not_null, b.not_null, no_null);
        },
      )

-- ===== src/A3/LinkedList/Takes.antt =====
-- a3/linked_list.c on lists of nodes: taking a node out.
use mathlib.Core.Path.{subst}
use mathlib.Core.List.{append-nil}
use comp310_winter.Base.{◌-◌, ◌≡◌, refl, false, List, [], ◌∷◌, ◌++◌, arith, ◌==◌, length-append}
use comp310_winter.A3.LinkedList.{
  Ptr, null, Heap, LinkedList, exited, put, unlink, pop_head, pop_tail,
}
use comp310_winter.A3.LinkedList.Links.{
  last_of, first_of, Links-tail, Removed, Links-remove, Middle, Links-Middle, Links-front,
  last_of-append,
}
use comp310_winter.A3.LinkedList.Ends.{IsList, Leaves}

module _ {A : Type 0} where
  unlink-run :
      (h : Heap A) (before c behind : Ptr) (x : A) (l : LinkedList)
      → Middle h before c behind x
      → Leaves
          (unlink c l h)
          (λ r g. (r ≡ (x, record l { size = l.size - 1 })) × Removed h before behind g)
  unfolding unlink
  unlink-run h before c behind x l m =
      let g : Heap A = record h {
        next = put h.next before behind;
        prev = put h.prev behind before;
      } in
      (
        (x, record l { size = l.size - 1 }),
        g,
        ground
            (arith, m.prev, m.next, m.data_of, m.live, m.live_before, m.live_behind, m.ne_before),
        (
          refl,
          record {
            next_at = λ a. refl;
            prev_at = λ a. refl;
            data_at = λ a. refl;
            live_at = λ a. refl;
          },
        ),
      )

  module _ (h : Heap A) (l : LinkedList) where
    -- Taking out the node `c`.
    pub unlink-IsList :
        (front back : List (Ptr × A)) (c : Ptr) (x : A)
        → IsList h l (front ++ ((c, x) ∷ back))
        → Leaves (unlink c l h) (λ r g. (r.0 ≡ x) × IsList g r.1 (front ++ back))
    unlink-IsList front back c x w =
        let m = Links-Middle h c x l.dummy_head front back l.dummy_tail w.links in
        let (r, g, run, (same, u)) =
          unlink-run h (last_of l.dummy_head front) c (first_of back l.dummy_tail) x l m in
        let links = Links-remove h g c x l.dummy_head front back l.dummy_tail w.links u in
        (
          r,
          g,
          run,
          rw same (
            refl,
            record {
              links = links;
              size =
                  omega
                    (arith, w.size, length-append front ((c, x) ∷ back), length-append front back);
              end = ground (arith, u.next_at l.dummy_tail, w.end, last_front front back c x w);
              no_null = ground (arith, u.live_at null, w.no_null);
            },
          ),
        )
      where
        last_front :
            (front back : List (Ptr × A)) (c : Ptr) (x : A)
            → IsList h l (front ++ ((c, x) ∷ back))
            → (last_of l.dummy_head front == l.dummy_tail) ≡ false
        last_front front back c x w = Links-front h c x l.dummy_head front back l.dummy_tail w.links

    -- On a list with at least one node, `pop_head` returns the data of the first and leaves a list
    -- of the others.
    pub pop_head-IsList :
        (c : Ptr) (x : A) (xs : List (Ptr × A))
        → IsList h l ((c, x) ∷ xs)
        → Leaves (pop_head l h) (λ r g. (r.0 ≡ x) × IsList g r.1 xs)
    unfolding pop_head
    pop_head-IsList c x xs w =
        let (r, g, run, after) = unlink-IsList [] xs c x w in
        (r, g, ground (arith, w.size, w.links.0, w.links.3, run), after)

    -- The last node's data, and a list of the others.
    pub pop_tail-IsList :
        (front : List (Ptr × A)) (c : Ptr) (x : A)
        → IsList h l (front ++ ((c, x) ∷ []))
        → Leaves (pop_tail l h) (λ r g. (r.0 ≡ x) × IsList g r.1 front)
    unfolding pop_tail
    pop_tail-IsList front c x w =
        let (back, _, live_t, _) =
          Links-tail h l.dummy_head (front ++ ((c, x) ∷ [])) l.dummy_tail w.links in
        let (r, g, run, (got, list)) = unlink-IsList front [] c x w in
        (
          r,
          g,
          ground (
            arith,
            w.size,
            length-append front ((c, x) ∷ []),
            back,
            live_t,
            run,
            last_of-append l.dummy_head front c x,
          ),
          (got, subst (λ ys. IsList g r.1 ys) (append-nil front) list),
        )

    -- Taking from an empty list ends the shell.
    pub pop_head-empty : IsList h l [] → (pop_head l h ≡ exited) × (pop_tail l h ≡ exited)
    unfolding pop_head pop_tail
    pop_head-empty w = ground (arith, w.size)

-- ===== src/A3/LinkedList/Search.antt =====
-- a3/linked_list.c on lists of nodes: finding a node by its data or its index.
use comp310_winter.Base.{
  ℕ, zero, suc, ◌+◌, ◌<◌, ◌≡◌, refl, ap, inl, inr, Bool, true, false, none, List, [], ◌∷◌, ◌++◌,
  arith, ◌==◌, Bool-cases, length, length-append, All,
}
use comp310_winter.A3.LinkedList.{
  Ptr, null, Heap, LinkedList, ok, fault, walk, get_by_index, find_node, get_node_by_value,
  get_by_value, remove_elem,
}
use comp310_winter.A3.LinkedList.Links.{first_of, Links, Links-head, Links-Middle}
use comp310_winter.A3.LinkedList.Ends.{IsList, Leaves}
use comp310_winter.A3.LinkedList.Takes.{unlink-IsList}

module _ {A : Type 0} (equal : A → A → Bool) (target : A) where
  -- None of the nodes has the data that is looked for.
  abbrev pub Misses : List (Ptr × A) → Type 0
  Misses = All (λ (c : Ptr × A). equal target c.1 ≡ false)

  not_null : (h : Heap A) → h.live null ≡ false → (a : Ptr) → h.live a ≡ true → (a == null) ≡ false
  not_null h no_null a live = elim (Bool-cases (a == null)) [
    | inr e ↦ e
    | inl e ↦ let same : a ≡ null = ground arith in absurd (ground (arith, ap h.live same))
  ]

  find_node-hit :
      (h : Heap A) (p : Ptr) (front back : List (Ptr × A)) (c : Ptr) (x : A) (t : Ptr) (n : ℕ)
      → h.live null ≡ false
      → Links h p (front ++ ((c, x) ∷ back)) t
      → Misses front
      → equal target x ≡ true
      → length front < n
      → find_node equal target n (first_of (front ++ ((c, x) ∷ back)) t) h ≡ ok c h
  unfolding find_node
  find_node-hit h p front back c x t zero no_null l miss hit less = absurd (omega arith)
  find_node-hit h p [] back c x t (suc n) no_null l miss hit less =
      let m = Links-Middle h c x p [] back t l in
      ground (arith, not_null h no_null c m.live, m.live, m.data_of, hit)
  find_node-hit h p ((a, y) ∷ front) back c x t (suc n) no_null l miss hit less =
      let first = Links-head h a (front ++ ((c, x) ∷ back)) t l.6 in
      ground (
        arith,
        not_null h no_null a first.2,
        first.2,
        l.2,
        first.0,
        miss.0,
        find_node-hit h a front back c x t n no_null l.6 miss.1 hit (omega arith),
      )

  find_node-miss :
      (h : Heap A) (p : Ptr) (xs : List (Ptr × A)) (t : Ptr) (n : ℕ)
      → h.live null ≡ false
      → Links h p xs t
      → h.data_at t ≡ none
      → Misses xs
      → length xs < n
      → find_node equal target n (first_of xs t) h ≡ fault
  unfolding find_node
  find_node-miss h p xs t zero no_null l unset miss less = absurd (omega arith)
  find_node-miss h p [] t (suc n) no_null l unset miss less =
      ground (arith, not_null h no_null t l.4, l.4, unset)
  find_node-miss h p ((a, y) ∷ xs) t (suc n) no_null l unset miss less =
      let first = Links-head h a xs t l.6 in
      ground (
        arith,
        not_null h no_null a first.2,
        first.2,
        l.2,
        first.0,
        miss.0,
        find_node-miss h a xs t n no_null l.6 unset miss.1 (omega arith),
      )

  module _ (h : Heap A) (l : LinkedList) where
    get_node_by_value-hit :
        (front back : List (Ptr × A)) (c : Ptr) (x : A)
        → IsList h l (front ++ ((c, x) ∷ back))
        → Misses front
        → equal target x ≡ true
        → get_node_by_value equal target l h ≡ ok c h
    unfolding get_node_by_value
    get_node_by_value-hit front back c x w miss hit =
        let first = Links-head h l.dummy_head (front ++ ((c, x) ∷ back)) l.dummy_tail w.links in
        ground (
          arith,
          first.2,
          first.0,
          find_node-hit h l.dummy_head front back c x l.dummy_tail (l.size + 2) w.no_null w.links
              miss hit (omega (arith, w.size, length-append front ((c, x) ∷ back))),
        )

    -- `remove_elem` returns the data of the first node that equals the target and leaves a list of
    -- the others in their order.
    pub remove_elem-IsList :
        (front back : List (Ptr × A)) (c : Ptr) (x : A)
        → IsList h l (front ++ ((c, x) ∷ back))
        → Misses front
        → equal target x ≡ true
        → Leaves (remove_elem equal target l h) (λ r g. (r.0 ≡ x) × IsList g r.1 (front ++ back))
    unfolding remove_elem
    remove_elem-IsList front back c x w miss hit =
        let (r, g, run, after) = unlink-IsList h l front back c x w in
        (r, g, ground (arith, get_node_by_value-hit front back c x w miss hit, run), after)

    -- If no node equals the target and the data of the last dummy was never set, `remove_elem`
    -- uses that data.
    pub remove_elem-missing :
        (xs : List (Ptr × A))
        → IsList h l xs
        → h.data_at l.dummy_tail ≡ none
        → Misses xs
        → remove_elem equal target l h ≡ fault
    unfolding remove_elem get_node_by_value
    remove_elem-missing xs w unset miss =
        let first = Links-head h l.dummy_head xs l.dummy_tail w.links in
        ground (
          arith,
          first.2,
          first.0,
          find_node-miss h l.dummy_head xs l.dummy_tail (l.size + 2) w.no_null w.links unset miss
              (omega (arith, w.size)),
        )

    -- The data of the first node that equals the target.
    pub get_by_value-hit :
        (front back : List (Ptr × A)) (c : Ptr) (x : A)
        → IsList h l (front ++ ((c, x) ∷ back))
        → Misses front
        → equal target x ≡ true
        → get_by_value equal target l h ≡ ok x h
    unfolding get_by_value
    get_by_value-hit front back c x w miss hit =
        let m = Links-Middle h c x l.dummy_head front back l.dummy_tail w.links in
        ground (arith, get_node_by_value-hit front back c x w miss hit, m.live, m.data_of)

module _ {A : Type 0} (h : Heap A) where
  walk_lem :
      (p : Ptr) (front back : List (Ptr × A)) (c : Ptr) (x : A) (t : Ptr)
      → Links h p (front ++ ((c, x) ∷ back)) t
      → walk (length front) (first_of (front ++ ((c, x) ∷ back)) t) h ≡ ok c h
  unfolding walk
  walk_lem p [] back c x t l = refl
  walk_lem p ((a, y) ∷ front) back c x t l =
      let first = Links-head h a (front ++ ((c, x) ∷ back)) t l.6 in
      ground (arith, first.2, first.0, walk_lem a front back c x t l.6)

  -- The data of the node with as many others in front of it.
  pub get_by_index_lem :
      (l : LinkedList) (front back : List (Ptr × A)) (c : Ptr) (x : A)
      → IsList h l (front ++ ((c, x) ∷ back))
      → get_by_index l (length front) h ≡ ok x h
  unfolding get_by_index
  get_by_index_lem l front back c x w =
      let first = Links-head h l.dummy_head (front ++ ((c, x) ∷ back)) l.dummy_tail w.links in
      let m = Links-Middle h c x l.dummy_head front back l.dummy_tail w.links in
      ground (
        arith,
        w.size,
        length-append front ((c, x) ∷ back),
        first.2,
        first.0,
        walk_lem l.dummy_head front back c x l.dummy_tail w.links,
        m.live,
        m.data_of,
      )

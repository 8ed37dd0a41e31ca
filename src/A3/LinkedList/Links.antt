-- ===== src/A3/LinkedList/Links.antt =====
-- When the nodes of a3/linked_list.c make up a list, and what taking a node out or putting one in does
-- to the links.
use comp310_winter.Base.{
  ◌≡◌, refl, ap, ◌∙◌, inl, inr, Bool, true, false, ◌||◌, some, List, [], ◌∷◌, ◌++◌, arith, ◌==◌,
  if◌then◌else◌, Bool-cases,
}
use comp310_winter.A3.LinkedList.{Ptr, Heap}

module _ {A : Type 0} where
  -- What a list stands for: the address and the data of each node, in order.
  abbrev pub has : Ptr → List (Ptr × A) → Bool
  has a [] = false
  has a ((p, _) ∷ xs) = (a == p) || has a xs

  -- The node in front of what comes behind `p` and `xs`, and the node behind what is in front of `t`.
  abbrev pub last_of : Ptr → List (Ptr × A) → Ptr
  last_of p [] = p
  last_of p ((a, _) ∷ xs) = last_of a xs

  abbrev pub first_of : List (Ptr × A) → Ptr → Ptr
  first_of [] t = t
  first_of ((a, _) ∷ xs) t = a

  -- From `p` the links lead through the nodes `xs` to `t` and back, all of them distinct.
  abbrev pub Links : Heap A → Ptr → List (Ptr × A) → Ptr → Type 0
  Links h p [] t =
      (h.next p ≡ t) × (h.prev t ≡ p) × ((p == t) ≡ false) × (h.live p ≡ true) × (h.live t ≡ true)
  Links h p ((a, x) ∷ xs) t =
      (h.next p ≡ a)
      × (h.prev a ≡ p)
      × (h.data_at a ≡ some x)
      × (h.live p ≡ true)
      × (has p ((a, x) ∷ xs) ≡ false)
      × ((p == t) ≡ false)
      × Links h a xs t

  pub Links-tail :
      (h : Heap A) (p : Ptr) (xs : List (Ptr × A)) (t : Ptr)
      → Links h p xs t
      → (h.prev t ≡ last_of p xs)
        × (h.next (last_of p xs) ≡ t)
        × (h.live t ≡ true)
        × (h.live (last_of p xs) ≡ true)
  Links-tail h p [] t l = (l.1, l.0, l.4, l.3)
  Links-tail h p ((a, x) ∷ xs) t l = Links-tail h a xs t l.6

  pub Links-head :
      (h : Heap A) (p : Ptr) (xs : List (Ptr × A)) (t : Ptr)
      → Links h p xs t
      → (h.next p ≡ first_of xs t)
        × (h.prev (first_of xs t) ≡ p)
        × (h.live p ≡ true)
        × (h.live (first_of xs t) ≡ true)
  Links-head h p [] t l = (l.0, l.1, l.3, l.4)
  Links-head h p ((a, x) ∷ []) t l = (l.0, l.1, l.3, l.6.3)
  Links-head h p ((a, x) ∷ (b, y) ∷ xs) t l = (l.0, l.1, l.3, l.6.3)

  -- The end is none of the nodes in front of it.
  pub Links-ends :
      (h : Heap A) (p : Ptr) (xs : List (Ptr × A)) (t : Ptr)
      → Links h p xs t
      → ((p == t) ≡ false) × ((last_of p xs == t) ≡ false)
  Links-ends h p [] t l = (l.2, l.2)
  Links-ends h p ((a, x) ∷ xs) t l = (l.5, (Links-ends h a xs t l.6).1)

  pub has-append : (a : Ptr) (xs ys : List (Ptr × A)) → has a (xs ++ ys) ≡ (has a xs || has a ys)
  has-append a [] ys = refl
  has-append a ((p, _) ∷ xs) ys = ground (arith, has-append a xs ys)

  -- A node in front of the others is not the last of them, unless there is none.
  pub last_of-out :
      (q a : Ptr) (xs : List (Ptr × A))
      → ((q == a) || has q xs) ≡ false
      → (last_of a xs == q) ≡ false
  last_of-out q a [] out = ground arith
  last_of-out q a ((b, y) ∷ xs) out = last_of-out q b xs (ground arith)

  -- What comes behind the nodes `front` is one of the rest or the end.
  first_of-in :
      (front back : List (Ptr × A)) (t : Ptr)
      → (has (first_of back t) (front ++ back) || (first_of back t == t)) ≡ true
  first_of-in front [] t = ground arith
  first_of-in front ((b, y) ∷ back) t = ground (arith, has-append b front ((b, y) ∷ back))

  first_of-behind :
      (front back : List (Ptr × A)) (c : Ptr) (x : A) (t : Ptr)
      → (has (first_of back t) (front ++ ((c, x) ∷ back)) || (first_of back t == t)) ≡ true
  first_of-behind front [] c x t = ground arith
  first_of-behind front ((b, y) ∷ back) c x t =
      ground (arith, has-append b front ((c, x) ∷ (b, y) ∷ back))

  -- A heap with the node `fresh` between two others.
  pub record Inserted (h : Heap A) (before fresh behind : Ptr) (x : A) (g : Heap A) : Type 0 where
    pub next_at :
        (a : Ptr)
        → g.next a ≡ (if before == a then fresh else if fresh == a then behind else h.next a)
    pub prev_at :
        (a : Ptr)
        → g.prev a ≡ (if behind == a then fresh else if fresh == a then before else h.prev a)
    pub data_at : (a : Ptr) → g.data_at a ≡ (if fresh == a then some x else h.data_at a)
    pub live_at : (a : Ptr) → g.live a ≡ (if fresh == a then true else h.live a)

  has_ne : (a b : Ptr) (xs : List (Ptr × A)) → has a xs ≡ false → has b xs ≡ true → (a == b) ≡ false
  has_ne a b xs n y = elim (Bool-cases (a == b)) [
    | inr e ↦ e
    | inl e ↦ let same : a ≡ b = ground arith in absurd (ground (arith, ap (λ c. has c xs) same))
  ]

  -- The first node is not among those behind it.
  Links-apart :
      (h : Heap A) (p : Ptr) (xs : List (Ptr × A)) (t : Ptr)
      → Links h p xs t
      → (b : Ptr) → (has b xs || (b == t)) ≡ true
      → (p == b) ≡ false
  Links-apart h p [] t l b e = ground arith
  Links-apart h p ((a, x) ∷ xs) t l b e = elim (Bool-cases (has b ((a, x) ∷ xs))) [
    | inl y ↦ has_ne p b ((a, x) ∷ xs) l.4 y
    | inr n ↦ ground arith
  ]

  -- The links are kept by a heap that agrees with the first where they are.
  pub Links-frame :
      (h g : Heap A) (p : Ptr) (xs : List (Ptr × A)) (t : Ptr)
      → Links h p xs t
      → ((a : Ptr) → ((a == p) || has a xs) ≡ true → g.next a ≡ h.next a)
      → ((a : Ptr) → (has a xs || (a == t)) ≡ true → g.prev a ≡ h.prev a)
      → ((a : Ptr) → has a xs ≡ true → g.data_at a ≡ h.data_at a)
      → ((a : Ptr) → h.live a ≡ true → g.live a ≡ true)
      → Links g p xs t
  Links-frame h g p [] t l n q d v = ground (arith, n p, q t, v p, v t)
  Links-frame h g p ((a, x) ∷ xs) t l n q d v = (
    n p (ground arith) ∙ l.0,
    q a (ground arith) ∙ l.1,
    d a (ground arith) ∙ l.2,
    v p l.3,
    l.4,
    l.5,
    Links-frame h g a xs t l.6 (λ b e. n b (ground arith)) (λ b e. q b (ground arith))
        (λ b e. d b (ground arith)) v,
  )

  pub Links-insert :
      (h g : Heap A) (fresh : Ptr) (x : A) (p : Ptr) (front back : List (Ptr × A)) (t : Ptr)
      → Links h p (front ++ back) t
      → Inserted h (last_of p front) fresh (first_of back t) x g
      → (fresh == p) ≡ false
      → has fresh (front ++ back) ≡ false
      → (fresh == t) ≡ false
      → Links g p (front ++ ((fresh, x) ∷ back)) t
  Links-insert h g fresh x p [] [] t l i f n m = ground (
    arith,
    i.next_at p,
    i.next_at fresh,
    i.prev_at fresh,
    i.prev_at t,
    i.data_at fresh,
    i.live_at p,
    i.live_at fresh,
    i.live_at t,
  )
  Links-insert h g fresh x p [] ((a, y) ∷ back) t l i f n m =
      let apart : ((p == a) || has p back) ≡ false = l.4 in
      (
        ground (arith, i.next_at p),
        ground (arith, i.prev_at fresh),
        ground (arith, i.data_at fresh),
        ground (arith, i.live_at p),
        ground arith,
        ground arith,
        (
          ground (arith, i.next_at fresh),
          ground (arith, i.prev_at a),
          ground (arith, i.data_at a),
          ground (arith, i.live_at fresh),
          ground arith,
          ground arith,
          Links-frame h g a back t l.6 (λ b e. ground (arith, i.next_at b, has_ne p b back))
              (λ b e.
                ground (arith, i.prev_at b, has_ne fresh b back, Links-apart h a back t l.6 b))
              (λ b e. ground (arith, i.data_at b, has_ne fresh b back))
              (λ b e. ground (arith, i.live_at b)),
        ),
      )
  Links-insert h g fresh x p ((a, y) ∷ front) back t l i f n m =
      let before : (last_of a front == p) ≡ false =
        last_of-out p a front (ground (arith, l.4, has-append p front back)) in
      let behind : (a == first_of back t) ≡ false =
        Links-apart h a (front ++ back) t l.6 (first_of back t) (first_of-in front back t) in
      (
        ground (arith, i.next_at p, before),
        ground (arith, i.prev_at a, behind),
        ground (arith, i.data_at a),
        ground (arith, i.live_at p),
        ground (arith, has-append p front ((fresh, x) ∷ back), has-append p front back, l.4),
        l.5,
        Links-insert h g fresh x a front back t l.6 i (ground arith) (ground arith) m,
      )

  -- A heap where the node between two others was taken out.
  pub record Removed (h : Heap A) (before behind : Ptr) (g : Heap A) : Type 0 where
    pub next_at : (a : Ptr) → g.next a ≡ (if before == a then behind else h.next a)
    pub prev_at : (a : Ptr) → g.prev a ≡ (if behind == a then before else h.prev a)
    pub data_at : (a : Ptr) → g.data_at a ≡ h.data_at a
    pub live_at : (a : Ptr) → g.live a ≡ h.live a

  pub Links-remove :
      (h g : Heap A) (c : Ptr) (x : A) (p : Ptr) (front back : List (Ptr × A)) (t : Ptr)
      → Links h p (front ++ ((c, x) ∷ back)) t
      → Removed h (last_of p front) (first_of back t) g
      → Links g p (front ++ back) t
  Links-remove h g c x p [] [] t l r =
      ground (arith, r.next_at p, r.prev_at t, r.live_at p, r.live_at t)
  Links-remove h g c x p [] ((b, y) ∷ back) t l r = (
    ground (arith, r.next_at p),
    ground (arith, r.prev_at b),
    ground (arith, r.data_at b, l.6.2),
    ground (arith, r.live_at p),
    ground (arith, l.4),
    l.5,
    Links-frame h g b back t l.6.6
        (λ a e. ground (arith, r.next_at a, has_ne p a ((c, x) ∷ (b, y) ∷ back) l.4))
        (λ a e. ground (arith, r.prev_at a, Links-apart h b back t l.6.6 a e)) (λ a e. r.data_at a)
        (λ a e. ground (arith, r.live_at a)),
  )
  Links-remove h g c x p ((a, y) ∷ front) back t l r =
      let whole = has-append p front ((c, x) ∷ back) in
      let before : (last_of a front == p) ≡ false =
        last_of-out p a front (ground (arith, l.4, whole)) in
      let behind : (a == first_of back t) ≡ false =
        Links-apart h a (front ++ ((c, x) ∷ back)) t l.6 (first_of back t)
          (first_of-behind front back c x t) in
      (
        ground (arith, r.next_at p, before),
        ground (arith, r.prev_at a, behind),
        ground (arith, r.data_at a, l.2),
        ground (arith, r.live_at p),
        ground (arith, has-append p front back, whole, l.4),
        l.5,
        Links-remove h g c x a front back t l.6 r,
      )

  -- The node in the middle, and its neighbours.
  pub record Middle (h : Heap A) (before c behind : Ptr) (x : A) : Type 0 where
    pub prev : h.prev c ≡ before
    pub next : h.next c ≡ behind
    pub data_of : h.data_at c ≡ some x
    pub live : h.live c ≡ true
    pub live_before : h.live before ≡ true
    pub live_behind : h.live behind ≡ true
    pub ne_before : (before == c) ≡ false

  pub Links-Middle :
      (h : Heap A) (c : Ptr) (x : A) (p : Ptr) (front back : List (Ptr × A)) (t : Ptr)
      → Links h p (front ++ ((c, x) ∷ back)) t
      → Middle h (last_of p front) c (first_of back t) x
  Links-Middle h c x p [] back t l =
      let first = Links-head h c back t l.6 in
      record {
        prev = l.1;
        next = first.0;
        data_of = l.2;
        live = first.2;
        live_before = l.3;
        live_behind = first.3;
        ne_before = ground (arith, l.4);
      }
  Links-Middle h c x p ((a, y) ∷ front) back t l = Links-Middle h c x a front back t l.6

  -- The nodes in front of one are reached from the first without it.
  pub Links-live :
      (h : Heap A) (p : Ptr) (xs : List (Ptr × A)) (t : Ptr)
      → Links h p xs t
      → (a : Ptr) → has a xs ≡ true
      → h.live a ≡ true
  Links-live h p [] t l a e = absurd (ground arith)
  Links-live h p ((b, y) ∷ xs) t l a e = elim (Bool-cases (a == b)) [
    | inl here ↦ let same : a ≡ b = ground arith in ap h.live same ∙ (Links-head h b xs t l.6).2
    | inr there ↦ Links-live h b xs t l.6 a (ground arith)
  ]

  pub last_of-append :
      (p : Ptr) (front : List (Ptr × A)) (c : Ptr) (x : A) → last_of p (front ++ ((c, x) ∷ [])) ≡ c
  last_of-append p [] c x = refl
  last_of-append p ((a, y) ∷ front) c x = last_of-append a front c x

  pub Links-front :
      (h : Heap A) (c : Ptr) (x : A) (p : Ptr) (front back : List (Ptr × A)) (t : Ptr)
      → Links h p (front ++ ((c, x) ∷ back)) t
      → (last_of p front == t) ≡ false
  Links-front h c x p [] back t l = l.5
  Links-front h c x p ((a, y) ∷ front) back t l = Links-front h c x a front back t l.6

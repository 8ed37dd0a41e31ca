-- ===== src/A3/LinkedList/Tests.antt =====
-- A list with two nodes.
use comp310_winter.Base.{
  ℕ, ◌==◌, ◌&&◌, ltb, ◌≡◌, refl, none, some, List, [], ◌∷◌, ◌++◌, if◌then◌else◌,
}
use comp310_winter.A3.LinkedList.{Ptr, Heap, LinkedList, add_tail, remove_elem}
use comp310_winter.A3.LinkedList.Ends.{IsList, Leaves, add_tail-IsList}
use comp310_winter.A3.LinkedList.Search.{remove_elem-IsList}

-- The dummies are at 1 and 2, the nodes at 3 and 4.
abbrev two_nodes : Heap ℕ
two_nodes = record {
  live = λ p. ltb 0 p && ltb p 5;
  next = λ p. if p == 1 then 3 else if p == 3 then 4 else if p == 4 then 2 else 0;
  prev = λ p. if p == 2 then 4 else if p == 4 then 3 else if p == 3 then 1 else 0;
  data_at = λ p. if p == 3 then some 7 else if p == 4 then some 9 else none;
}

abbrev two : LinkedList
two = record { size = 2; dummy_head = 1; dummy_tail = 2 }

abbrev nodes : List (Ptr × ℕ)
nodes = (3, 7) ∷ (4, 9) ∷ []

two-IsList : IsList two_nodes two nodes
two-IsList = record {
  links = (
    refl,
    refl,
    refl,
    refl,
    refl,
    refl,
    (refl, refl, refl, refl, refl, refl, (refl, refl, refl, refl, refl)),
  );
  size = refl;
  end = refl;
  no_null = refl;
}

add_tail-IsList_example :
    Leaves (add_tail 6 5 two two_nodes) (λ l' g. IsList g l' (nodes ++ ((6, 5) ∷ [])))
add_tail-IsList_example =
    add_tail-IsList two_nodes 6 5 two nodes two-IsList (record { unused = refl; not_null = refl })

remove_elem-IsList_example :
    Leaves
      (remove_elem (λ a b. a == b) 9 two two_nodes)
      (λ r g. (r.0 ≡ 9) × IsList g r.1 ((3, 7) ∷ []))
remove_elem-IsList_example =
    remove_elem-IsList (λ a b. a == b) 9 two_nodes two ((3, 7) ∷ []) [] 4 9 two-IsList (refl, tt)
      refl

-- ===== src/Store/Laws.antt =====
-- What the search over the slots returns, and how a write at one index changes it.
use comp310_winter.Base.{
  ℕ, zero, suc, ◌+◌, ◌≤◌, ◌<◌, ◌≡◌, ◌≢◌, refl, sym, ap, ◌∙◌, ◌⊎◌, inl, inr, none, some, arith, ◌==◌,
  Bool-cases, Option-cases, Text, same, eq_of_same, same_refl, length, set, length-set,
  get_or-set_self, get_or-set_ne,
}
use comp310_winter.Store.{
  Slot, slot, none_text, none_slot, Memory, slot_at, var_at, find_var, claim, assign, fetch,
}

pub find_var-some :
    (n lo : ℕ) (k : Text) (m : Memory) {i : ℕ}
    → find_var n lo k m ≡ some i
    → (lo ≤ i) × (i < lo + n) × (var_at m i ≡ k)
unfolding find_var
find_var-some zero lo k m h = cc
find_var-some (suc n) lo k m {i} h = elim (Bool-cases (same (var_at m lo) k)) [
  | inl hit ↦ ground (arith, eq_of_same (var_at m lo) k)
  | inr miss ↦ ground (arith, find_var-some n (lo + 1) k m {i = i})
]

pub find_var-none :
    (n lo : ℕ) (k : Text) (m : Memory) (j : ℕ)
    → find_var n lo k m ≡ none
    → lo ≤ j
    → j < lo + n
    → ¬ (var_at m j ≡ k)
unfolding find_var
find_var-none zero lo k m j h a b e = absurd (omega arith)
find_var-none (suc n) lo k m j h a b e = elim (Bool-cases (lo == j)) [
  | inl here ↦ ground (arith, same_refl k)
  | inr there ↦ ground (arith, find_var-none n (lo + 1) k m j)
]

-- The search reads the names in its range only.
pub find_var-cong :
    (n lo : ℕ) (k : Text) (m m' : Memory)
    → ((j : ℕ) → lo ≤ j → j < lo + n → var_at m' j ≡ var_at m j)
    → find_var n lo k m' ≡ find_var n lo k m
unfolding find_var
find_var-cong zero lo k m m' h = refl
find_var-cong (suc n) lo k m m' h =
    rw
      (
        h lo (omega arith) (omega arith),
        find_var-cong n (lo + 1) k m m' (λ j a b. h j (omega arith) (omega arith)),
      )
      refl

-- A search for another name than the two that stand at the index `i` passes over the write there.
pub find_var-set_ne :
    (n lo : ℕ) (j : Text) (m m' : Memory) (i : ℕ)
    → ¬ (var_at m' i ≡ j)
    → ¬ (var_at m i ≡ j)
    → ((l : ℕ) → i ≢ l → var_at m' l ≡ var_at m l)
    → find_var n lo j m' ≡ find_var n lo j m
unfolding find_var
find_var-set_ne zero lo j m m' i new old keep = refl
find_var-set_ne (suc n) lo j m m' i new old keep = elim (Bool-cases (i == lo)) [
  | inl here ↦ ground (
    arith,
    find_var-set_ne n (lo + 1) j m m' i new old keep,
    eq_of_same (var_at m lo) j,
    eq_of_same (var_at m' lo) j,
  )
  | inr there ↦ ground (arith, keep lo, find_var-set_ne n (lo + 1) j m m' i new old keep)
]

-- A write that puts `k` at the index `i`, and no other change, is found there.
pub find_var-hit :
    (n lo : ℕ) (k : Text) (m m' : Memory) (i : ℕ)
    → find_var n lo k m ≡ none
    → lo ≤ i
    → i < lo + n
    → var_at m' i ≡ k
    → ((j : ℕ) → i ≢ j → var_at m' j ≡ var_at m j)
    → find_var n lo k m' ≡ some i
unfolding find_var
find_var-hit zero lo k m m' i e a b h keep = absurd (omega arith)
find_var-hit (suc n) lo k m m' i e a b h keep = elim (Bool-cases (i == lo)) [
  | inl here ↦ ground (arith, same_refl k)
  | inr there ↦ ground (arith, keep lo, find_var-hit n (lo + 1) k m m' i)
]

module _ (lo n : ℕ) (m : Memory) where
  -- There is a place for `k`: a slot that has its name, or a free one.
  abbrev pub HasRoom : Text → Type 0
  HasRoom k = (find_var n lo k m ≢ none) ⊎ (find_var n lo none_text m ≢ none)

  var_at-set_value :
      (i : ℕ) (v : Text)
      → i < length m
      → (j : ℕ) → var_at (set m i (slot (var_at m i) v)) j ≡ var_at m j
  var_at-set_value i v h j = elim (Bool-cases (i == j)) [
    | inl e ↦ ground (arith, get_or-set_self m i (slot (var_at m i) v) none_slot)
    | inr e ↦ ground (arith, get_or-set_ne m i j (slot (var_at m i) v) none_slot)
  ]

  assign-found :
      (k v : Text) (i : ℕ)
      → find_var n lo k m ≡ some i
      → assign lo n k v m ≡ set m i (slot (var_at m i) v)
  unfolding assign
  assign-found k v i e = rw (e, assign)

  assign-claimed :
      (k v : Text) (i : ℕ)
      → find_var n lo k m ≡ none
      → find_var n lo none_text m ≡ some i
      → assign lo n k v m ≡ set m i (slot k v)
  unfolding assign
  assign-claimed k v i e free = rw (e, assign, free, claim)

  -- With no place for `k` the assignment is dropped.
  pub assign-full :
      (k v : Text)
      → find_var n lo k m ≡ none
      → find_var n lo none_text m ≡ none
      → assign lo n k v m ≡ m
  unfolding assign
  assign-full k v e full = rw (e, assign, full, claim)

  pub fetch_at :
      (k : Text) (i : ℕ) → find_var n lo k m ≡ some i → fetch lo n k m ≡ some (slot_at m i).value
  unfolding fetch
  fetch_at k i e = rw (e, fetch)

  pub fetch-none : (k : Text) → find_var n lo k m ≡ none → fetch lo n k m ≡ none
  unfolding fetch
  fetch-none k e = rw (e, fetch)

fetch_value :
    (lo n : ℕ) (m : Memory) (k : Text) (i : ℕ) (x : Slot)
    → i < length m
    → find_var n lo k (set m i x) ≡ some i
    → fetch lo n k (set m i x) ≡ some x.value
fetch_value lo n m k i x h e =
    fetch_at lo n (set m i x) k i e
    ∙ ap (λ (y : Slot). some y.value) (get_or-set_self m i x none_slot h)

module _ (lo n : ℕ) (m : Memory) where
  -- What was set is read back, if there was a place for it.
  pub fetch-assign :
      (k v : Text)
      → lo + n ≤ length m
      → HasRoom lo n m k
      → fetch lo n k (assign lo n k v m) ≡ some v
  fetch-assign k v size room = elim (Option-cases (find_var n lo k m)) [
    | inl gone ↦ elim (Option-cases (find_var n lo none_text m)) [
      | inl full ↦ ground (arith, gone, full)
      | inr (i, e) ↦
          let at = find_var-some n lo none_text m e in
          rw (assign-claimed lo n m k v i gone e) (
            fetch_value lo n m k i (slot k v) (omega arith) (
              find_var-hit n lo k m _ i gone at.0 at.1
                (ap (λ (y : Slot). y.var) (get_or-set_self m i (slot k v) none_slot (omega arith)))
                (λ j ne. ap (λ (y : Slot). y.var) (get_or-set_ne m i j (slot k v) none_slot ne))))
    ]
    | inr (i, e) ↦
        let at = find_var-some n lo k m e in
        rw (assign-found lo n m k v i e) (
          fetch_value lo n m k i (slot (var_at m i) v) (omega arith)
            (find_var-cong n lo k m _ (λ j a b. var_at-set_value lo n m i v (omega arith) j) ∙ e))
  ]

  -- A write at one index whose name and old name both differ from `j` is not seen by `j`.
  fetch-set_ne :
      (j : Text) (i : ℕ) (x : Slot)
      → i < length m
      → ¬ (x.var ≡ j)
      → ¬ (var_at m i ≡ j)
      → fetch lo n j (set m i x) ≡ fetch lo n j m
  unfolding fetch
  fetch-set_ne j i x h new old =
      let agree =
        find_var-set_ne n lo j m (set m i x) i
          (λ q. new (sym (ap (λ (y : Slot). y.var) (get_or-set_self m i x none_slot h)) ∙ q)) old
          (λ l ne. ap (λ (y : Slot). y.var) (get_or-set_ne m i l x none_slot ne)) in
      elim (Option-cases (find_var n lo j m)) [
        | inl gone ↦ fetch-none lo n (set m i x) j (agree ∙ gone) ∙ sym (fetch-none lo n m j gone)
        | inr (l, e) ↦
            fetch_at lo n (set m i x) j l (agree ∙ e)
            ∙ ap (λ (y : Slot). some y.value)
                (get_or-set_ne m i l x none_slot
                  (λ q. old (ap (var_at m) q ∙ (find_var-some n lo j m e).2)))
            ∙ sym (fetch_at lo n m j l e)
      ]

  -- Setting one variable leaves the value of any other variable as it was.
  pub fetch-assign_ne :
      (k v j : Text)
      → lo + n ≤ length m
      → k ≢ j
      → none_text ≢ j
      → fetch lo n j (assign lo n k v m) ≡ fetch lo n j m
  fetch-assign_ne k v j size ne free = elim (Option-cases (find_var n lo k m)) [
    | inl gone ↦ elim (Option-cases (find_var n lo none_text m)) [
      | inl full ↦ rw (assign-full lo n m k v gone full)
      | inr (i, e) ↦
          let at = find_var-some n lo none_text m e in
          rw (assign-claimed lo n m k v i gone e)
            (fetch-set_ne j i (slot k v) (omega arith) ne (λ q. free (sym at.2 ∙ q)))
    ]
    | inr (i, e) ↦
        let at = find_var-some n lo k m e in
        rw (assign-found lo n m k v i e) (
          fetch-set_ne j i (slot (var_at m i) v) (omega arith) (λ q. ne (sym at.2 ∙ q))
            (λ q. ne (sym at.2 ∙ q)))
  ]

  -- Slots outside the range that is searched are never written.
  pub slot_at-assign_outside :
      (k v : Text) (j : ℕ) → (j < lo) ⊎ (lo + n ≤ j) → slot_at (assign lo n k v m) j ≡ slot_at m j
  slot_at-assign_outside k v j out = elim (Option-cases (find_var n lo k m)) [
    | inl gone ↦ elim (Option-cases (find_var n lo none_text m)) [
      | inl full ↦ rw (assign-full lo n m k v gone full)
      | inr (i, e) ↦
          let at = find_var-some n lo none_text m e in
          rw (assign-claimed lo n m k v i gone e)
            (get_or-set_ne m i j (slot k v) none_slot (omega arith))
    ]
    | inr (i, e) ↦
        let at = find_var-some n lo k m e in
        rw (assign-found lo n m k v i e)
          (get_or-set_ne m i j (slot (var_at m i) v) none_slot (omega arith))
  ]

  pub length-assign : (k v : Text) → length (assign lo n k v m) ≡ length m
  unfolding assign claim
  length-assign k v = elim (Option-cases (find_var n lo k m)) [
    | inl gone ↦ elim (Option-cases (find_var n lo none_text m)) [
      | inl full ↦ rw (assign-full lo n m k v gone full)
      | inr (i, e) ↦ rw (assign-claimed lo n m k v i gone e) (length-set m i (slot k v))
    ]
    | inr (i, e) ↦ rw (assign-found lo n m k v i e) (length-set m i (slot (var_at m i) v))
  ]

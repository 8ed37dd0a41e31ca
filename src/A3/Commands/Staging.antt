-- ===== src/A3/Commands/Staging.antt =====
-- The names in the backing store that a3/interpreter.c copies scripts to.
use comp310_winter.Base.{
  ℕ, zero, suc, ◌+◌, ◌*◌, ◌==◌, ◌&&◌, ◌≡◌, ◌<◌, ◌↔◌, refl, sym, ap, ◌∙◌, [], ◌∷◌, ◌++◌, arith, Text,
  codes, length, length-append, length-replicate, replicate, ltb→lt, lt→ltb, true, false, Bool,
  if◌then◌else◌, ==_refl,
}
use comp310_winter.A3.Commands.{old_name, new_name, copy_command, stage_fits}

abbrev is_nil : Text → Bool
is_nil [] = true
is_nil (c ∷ s) = false

-- The string less the bytes `c` at its end.
abbrev pub trimmed : ℕ → Text → Text
trimmed c [] = []
trimmed c (x ∷ s) = let rest = trimmed c s in if is_nil rest && (x == c) then [] else x ∷ rest

-- The string does not end in the byte.
abbrev pub NotAtEnd : ℕ → Text → Type 0
NotAtEnd c s = trimmed c s ≡ s

trimmed-replicate : (c n : ℕ) → trimmed c (replicate n c) ≡ []
trimmed-replicate c zero = refl
trimmed-replicate c (suc n) =
    ap (λ rest. if is_nil rest && (c == c) then [] else c ∷ rest) (trimmed-replicate c n)
    ∙ ap (λ b. if b then [] else c ∷ []) (==_refl c)

trimmed-append_replicate : (c n : ℕ) (s : Text) → trimmed c (s ++ replicate n c) ≡ trimmed c s
trimmed-append_replicate c n [] = trimmed-replicate c n
trimmed-append_replicate c n (x ∷ s) =
    ap (λ rest. if is_nil rest && (x == c) then [] else x ∷ rest) (trimmed-append_replicate c n s)

old_name-inj :
    (m n : ℕ) (s t : Text)
    → NotAtEnd b'a' s
    → NotAtEnd b'a' t
    → old_name m s ≡ old_name n t
    → (s ≡ t) × (m ≡ n)
unfolding old_name
old_name-inj m n s t hs ht e = (
  same_script,
  omega (
    arith,
    ap length e,
    ap length same_script,
    length-append s (replicate m b'a'),
    length-append t (replicate n b'a'),
    length-replicate {A = ℕ} m b'a',
    length-replicate {A = ℕ} n b'a',
  ),
)
  where
    same_script : s ≡ t
    same_script =
        sym hs
        ∙ sym (trimmed-append_replicate b'a' m s)
        ∙ ap (trimmed b'a') e
        ∙ trimmed-append_replicate b'a' n t
        ∙ ht

abbrev tails : ℕ → Text → Text
tails zero s = s
tails (suc n) [] = []
tails (suc n) (c ∷ s) = tails n s

-- Scripts whose names do not end in `a` have different copies in the backing store if the names or
-- the counts differ.
pub new_name-inj :
    (m n : ℕ) (s t : Text)
    → NotAtEnd b'a' s
    → NotAtEnd b'a' t
    → new_name m s ≡ new_name n t
    → (s ≡ t) × (m ≡ n)
unfolding new_name
new_name-inj m n s t hs ht e = old_name-inj m n s t hs ht (ap (tails 16) e)

length-copy_command :
    (n : ℕ) (s : Text) → length (copy_command n s) ≡ 22 + (length s + length s + n)
unfolding copy_command new_name old_name
length-copy_command n s = omega (
  arith,
  length-append (s ++ codes " ") (new_name n s),
  length-append s (codes " "),
  length-append s (replicate n b'a'),
  length-replicate {A = ℕ} n b'a',
)

-- The command that copies a script fits its array of 100 bytes exactly if twice the length of the
-- script's name and the count of the scripts so far are together less than 78.
pub stage_fits-length : (n : ℕ) (s : Text) → (stage_fits n s ≡ true) ↔ (2 * length s + n < 78)
unfolding stage_fits
stage_fits-length n s = (
  (λ h. omega (arith, ltb→lt (length (copy_command n s)) 100 h, length-copy_command n s)),
  (λ h. lt→ltb (length (copy_command n s)) 100 (omega (arith, h, length-copy_command n s))),
)

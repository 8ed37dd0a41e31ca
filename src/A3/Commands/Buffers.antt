-- ===== src/A3/Commands/Buffers.antt =====
-- The buffers of `write` and `find_file` in a3/interpreter.c.
use mathlib.Core.Path.{ap₂}
use mathlib.Core.List.{append_assoc, append-nil}
use comp310_winter.Base.{
  ℕ, zero, suc, ◌+◌, ◌-◌, ◌≡◌, refl, sym, ap, ◌∙◌, Option, some, none, List, [], ◌∷◌, ◌++◌, arith,
  Text, codes, set, length, length-append, length-replicate, replicate, ◌<◌,
}
use comp310_winter.A3.Shell.Lines.{separated}
use comp310_winter.A3.Commands.{
  put_bytes, strcpy, copy_tokens, sum_lengths, buffer_size, token_buffer,
}

set-at_length :
    {A : Type 0} (xs ys : List A) (x y : A) → set (xs ++ (x ∷ ys)) (length xs) y ≡ xs ++ (y ∷ ys)
set-at_length [] ys x y = refl
set-at_length (z ∷ xs) ys x y = ap (λ l. z ∷ l) (set-at_length xs ys x y)

length-snoc : {A : Type 0} (xs : List A) (x : A) → length (xs ++ (x ∷ [])) ≡ length xs + 1
length-snoc [] x = refl
length-snoc (y ∷ xs) x = omega (arith, length-snoc xs x)

snoc-append : {A : Type 0} (xs ys : List A) (x : A) → (xs ++ (x ∷ [])) ++ ys ≡ xs ++ (x ∷ ys)
snoc-append xs ys x = append_assoc xs (x ∷ []) ys

put_bytes-step :
    (pos c : ℕ) (s : Text) (buf : List ℕ)
    → pos < length buf
    → put_bytes pos (c ∷ s) buf ≡ put_bytes (pos + 1) s (set buf pos c)
unfolding put_bytes
put_bytes-step pos c s buf h = ground (arith, h)

put_bytes-append :
    (a s old rest : List ℕ)
    → length old ≡ length s
    → put_bytes (length a) s (a ++ (old ++ rest)) ≡ some (a ++ (s ++ rest))
unfolding put_bytes
put_bytes-append a [] [] rest h = refl
put_bytes-append a [] (o ∷ old) rest h = absurd (omega (arith, h))
put_bytes-append a (c ∷ s) [] rest h = absurd (omega (arith, h))
put_bytes-append a (c ∷ s) (o ∷ old) rest h =
    put_bytes-step (length a) c s _ (omega (arith, length-append a (o ∷ (old ++ rest))))
    ∙ ap₂ (λ (i : ℕ) (b : List ℕ). put_bytes i s b) (sym (length-snoc a c))
        (set-at_length a (old ++ rest) o c ∙ sym (snoc-append a (old ++ rest) c))
    ∙ put_bytes-append (a ++ (c ∷ [])) s old rest (omega (arith, h))
    ∙ ap some (snoc-append a (s ++ rest) c)

-- The tokens, each with a space behind it.
abbrev spaced : List Text → Text
spaced [] = []
spaced (w ∷ ws) = w ++ (b' ' ∷ spaced ws)

abbrev zeros : ℕ → List ℕ
zeros n = replicate n 0

zeros-add : (m n : ℕ) → zeros (m + n) ≡ zeros m ++ zeros n
zeros-add zero n = ap zeros (omega arith)
zeros-add (suc m) n = ap zeros {y = suc (m + n)} (omega arith) ∙ ap (λ z. 0 ∷ z) (zeros-add m n)

length-zeros : (n : ℕ) → length (zeros n) ≡ n
length-zeros n = length-replicate n 0

strcpy-zeros :
    (a s : Text) (m : ℕ)
    → strcpy (length a) s (a ++ zeros (length s + suc m)) ≡ some (a ++ (s ++ zeros (suc m)))
unfolding strcpy
strcpy-zeros a s m =
    ap (λ z. put_bytes (length a) (s ++ (0 ∷ [])) (a ++ z))
      (ap zeros {y = length s + 1 + m} (omega arith) ∙ zeros-add (length s + 1) m)
    ∙ put_bytes-append a (s ++ (0 ∷ [])) (zeros (length s + 1)) (zeros m)
        (omega (arith, length-snoc s 0, length-zeros (length s + 1)))
    ∙ ap (λ z. some (a ++ z)) (snoc-append s (zeros m) 0)

refill : (a : List ℕ) (m n : ℕ) → m ≡ n → a ++ zeros m ≡ a ++ zeros n
refill a m n e = ap (λ k. a ++ zeros k) e

copy_tokens-cons :
    (i : ℕ) (w : Text) (ws : List Text) (b b' b'' : List ℕ)
    → strcpy i w b ≡ some b'
    → strcpy (i + length w) (codes " ") b' ≡ some b''
    → copy_tokens i (w ∷ ws) b ≡ copy_tokens (i + length w + 1) ws b''
unfolding copy_tokens
copy_tokens-cons i w ws b b' b'' e₁ e₂ = ap first e₁ ∙ ap second e₂
  where
    second : Option (List ℕ) → Option (ℕ × List ℕ)
    second o = elim o [ none ↦ none | some buf'' ↦ copy_tokens (i + length w + 1) ws buf'' ]

    first : Option (List ℕ) → Option (ℕ × List ℕ)
    first o = elim o [ none ↦ none | some buf' ↦ second (strcpy (i + length w) (codes " ") buf') ]

-- A token and its space, in front of zeros.
copy_tokens-step :
    (a w : Text) (ws : List Text) (m : ℕ)
    → copy_tokens (length a) (w ∷ ws) (a ++ zeros (length w + (m + 2)))
      ≡ copy_tokens (length (a ++ (w ++ codes " "))) ws ((a ++ (w ++ codes " ")) ++ zeros (m + 1))
copy_tokens-step a w ws m =
    copy_tokens-cons _ w ws _ _ _ first second
    ∙ ap (λ i. copy_tokens i ws ((a ++ (w ++ codes " ")) ++ zeros (m + 1))) third
  where
    first : strcpy (length a) w (a ++ zeros (length w + (m + 2))) ≡ some (a ++ (w ++ zeros (m + 2)))
    first =
        ap (strcpy (length a) w) (refill a _ (length w + suc (m + 1)) (omega arith))
        ∙ strcpy-zeros a w (m + 1)
        ∙ ap (λ z. some (a ++ z)) (refill w (suc (m + 1)) (m + 2) (omega arith))

    second :
        strcpy (length a + length w) (codes " ") (a ++ (w ++ zeros (m + 2)))
        ≡ some ((a ++ (w ++ codes " ")) ++ zeros (m + 1))
    second =
        ap₂ (λ (i : ℕ) (b : List ℕ). strcpy i (codes " ") b) (sym (length-append a w))
          (sym (append_assoc a w (zeros (m + 2)))
            ∙ refill (a ++ w) (m + 2) (1 + suc m) (omega arith))
        ∙ strcpy-zeros (a ++ w) (codes " ") m
        ∙ ap some (
            sym (append_assoc (a ++ w) (codes " ") (zeros (suc m)))
            ∙ ap (λ x. x ++ zeros (suc m)) (append_assoc a w (codes " "))
            ∙ refill (a ++ (w ++ codes " ")) (suc m) (m + 1) (omega arith))

    third : length a + length w + 1 ≡ length (a ++ (w ++ codes " "))
    third = omega (arith, length-append a (w ++ codes " "), length-append w (codes " "))

copy_tokens-zeros :
    (a : List ℕ) (ws : List Text) (m : ℕ)
    → copy_tokens (length a) ws (a ++ zeros (sum_lengths ws + (length ws + suc m)))
      ≡ some (length (a ++ spaced ws), (a ++ spaced ws) ++ zeros (suc m))
unfolding copy_tokens sum_lengths
copy_tokens-zeros a [] m =
    ap (λ z. some (length a, z)) (refill a _ (suc m) (omega arith))
    ∙ ap (λ x. some (length x, x ++ zeros (suc m))) (sym (append-nil a))
copy_tokens-zeros a (w ∷ ws) m =
    ap (copy_tokens (length a) (w ∷ ws))
      (refill a _ (length w + (sum_lengths ws + (length ws + m) + 2)) (omega arith))
    ∙ copy_tokens-step a w ws (sum_lengths ws + (length ws + m))
    ∙ ap (copy_tokens (length (a ++ (w ++ codes " "))) ws)
        (refill (a ++ (w ++ codes " ")) _ (sum_lengths ws + (length ws + suc m)) (omega arith))
    ∙ copy_tokens-zeros (a ++ (w ++ codes " ")) ws m
    ∙ ap (λ x. some (length x, x ++ zeros (suc m)))
        (append_assoc a (w ++ codes " ") (spaced ws)
          ∙ ap (λ x. a ++ x) (append_assoc w (codes " ") (spaced ws)))

spaced-separated : (w : Text) (ws : List Text) → spaced (w ∷ ws) ≡ separated b' ' w ws ++ codes " "
spaced-separated w [] = refl
spaced-separated w (v ∷ ws) =
    ap (λ x. w ++ (b' ' ∷ x)) (spaced-separated v ws)
    ∙ sym (append_assoc w (b' ' ∷ separated b' ' v ws) (codes " "))

length-spaced : (ws : List Text) → length (spaced ws) ≡ sum_lengths ws + length ws
unfolding sum_lengths
length-spaced [] = omega arith
length-spaced (w ∷ ws) = omega (arith, length-append w (b' ' ∷ spaced ws), length-spaced ws)

-- The buffer of `write` and `find_file` is exactly large enough: no byte is written outside of it,
-- and it then holds the tokens with one space between any two and two NULs.
pub token_buffer-separated :
    (w : Text) (ws : List Text)
    → (token_buffer (w ∷ ws) ≡ some (separated b' ' w ws ++ (0 ∷ 0 ∷ [])))
      × (length (separated b' ' w ws ++ (0 ∷ 0 ∷ [])) ≡ buffer_size (w ∷ ws))
unfolding token_buffer buffer_size
token_buffer-separated w ws = (
  ap finish (copy_tokens-zeros [] (w ∷ ws) 0 ∙ ap copied (spaced-separated w ws))
      ∙ ap₂ (λ (i : ℕ) (b : List ℕ). put_bytes i (0 ∷ []) b)
          (omega (arith, length-snoc (separated b' ' w ws) b' '))
          (snoc-append (separated b' ' w ws) (0 ∷ []) b' ')
      ∙ put_bytes-append (separated b' ' w ws) (0 ∷ []) (codes " ") (0 ∷ []) refl,
  omega (
    arith,
    length-append (separated b' ' w ws) (0 ∷ 0 ∷ []),
    length-snoc (separated b' ' w ws) b' ',
    ap length (spaced-separated w ws),
    length-spaced (w ∷ ws),
  ),
)
  where
    copied : List ℕ → Option (ℕ × List ℕ)
    copied x = some (length x, x ++ (0 ∷ []))

    finish : Option (ℕ × List ℕ) → Option (List ℕ)
    finish o = elim o [ none ↦ none | some (i, buf) ↦ put_bytes (i - 1) (0 ∷ []) buf ]

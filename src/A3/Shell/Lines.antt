-- ===== src/A3/Shell/Lines.antt =====
-- `parseInput` of a3/shell.c on lines of commands.
use mathlib.Core.Path.{ap₂}
use mathlib.Core.List.{append-nil, append_assoc}
use comp310_winter.Base.{
  ℕ, ◌≡◌, refl, sym, ap, ◌∙◌, false, none, some, List, [], ◌∷◌, ◌++◌, arith, ◌==◌, not, Bool, Text,
  map,
}
use comp310_winter.Store.Extract.{Lacks}
use comp310_winter.A3.Shell.{
  Outcome, tokens_from, skip_spaces, words_from, words_of, run_tokens, parse_input,
}

-- The texts with one separator between any two.
abbrev pub separated : ℕ → Text → List Text → Text
separated c t [] = t
separated c t (u ∷ ts) = t ++ (c ∷ separated c u ts)

-- Not empty, and without the byte.
abbrev pub IsPart : ℕ → Text → Type 0
IsPart c [] = ⊥
IsPart c (x ∷ t) = ((x == c) ≡ false) × Lacks c t

abbrev pub AreParts : ℕ → List Text → Type 0
AreParts c [] = Unit {0}
AreParts c (t ∷ ts) = IsPart c t × AreParts c ts

tokens_from-end : (t u : Text) → Lacks b';' u → tokens_from (some t) u ≡ (t ++ u) ∷ []
unfolding tokens_from
tokens_from-end t [] h = ap (λ x. x ∷ []) (sym (append-nil t))
tokens_from-end t (c ∷ u) h =
    tokens_more t u c h.0
    ∙ tokens_from-end (t ++ (c ∷ [])) u h.1
    ∙ ap (λ x. x ∷ []) (append_assoc t (c ∷ []) u)
  where
    tokens_more :
        (t u : Text) (c : ℕ)
        → (c == b';') ≡ false
        → tokens_from (some t) (c ∷ u) ≡ tokens_from (some (t ++ (c ∷ []))) u
    tokens_more t u c e = ground (arith, e)

tokens_from-part :
    (t u rest : Text)
    → Lacks b';' u
    → tokens_from (some t) (u ++ (b';' ∷ rest)) ≡ (t ++ u) ∷ tokens_from none rest
unfolding tokens_from
tokens_from-part t [] rest h = ap (λ x. x ∷ tokens_from none rest) (sym (append-nil t))
tokens_from-part t (c ∷ u) rest h =
    more t (u ++ (b';' ∷ rest)) c h.0
    ∙ tokens_from-part (t ++ (c ∷ [])) u rest h.1
    ∙ ap (λ x. x ∷ tokens_from none rest) (append_assoc t (c ∷ []) u)
  where
    more :
        (t u : Text) (c : ℕ)
        → (c == b';') ≡ false
        → tokens_from (some t) (c ∷ u) ≡ tokens_from (some (t ++ (c ∷ []))) u
    more t u c e = ground (arith, e)

tokens_from-start :
    (c : ℕ) (s : Text)
    → (c == b';') ≡ false
    → tokens_from none (c ∷ s) ≡ tokens_from (some (c ∷ [])) s
unfolding tokens_from
tokens_from-start c s e = ground (arith, e)

tokens_from-separated :
    (t : Text) (ts : List Text)
    → IsPart b';' t
    → AreParts b';' ts
    → tokens_from none (separated b';' t ts) ≡ t ∷ ts
tokens_from-separated [] ts h hs = absurd h
tokens_from-separated (c ∷ t) [] h hs = tokens_from-start c t h.0 ∙ tokens_from-end (c ∷ []) t h.1
tokens_from-separated (c ∷ t) (u ∷ ts) h hs =
    tokens_from-start c (t ++ (b';' ∷ separated b';' u ts)) h.0
    ∙ tokens_from-part (c ∷ []) t (separated b';' u ts) h.1
    ∙ ap (λ rest. (c ∷ t) ∷ rest) (tokens_from-separated u ts hs.0 hs.1)

words_from-more :
    (t u : Text) (c : ℕ)
    → (c == b' ') ≡ false
    → words_from (some t) (c ∷ u) ≡ words_from (some (t ++ (c ∷ []))) u
unfolding words_from
words_from-more t u c e = ground (arith, e)

words_from-start :
    (c : ℕ) (s : Text)
    → (c == b' ') ≡ false
    → words_from none (c ∷ s) ≡ words_from (some (c ∷ [])) s
unfolding words_from
words_from-start c s e = ground (arith, e)

words_from-end : (t u : Text) → Lacks b' ' u → words_from (some t) u ≡ (t ++ u) ∷ []
unfolding words_from
words_from-end t [] h = ap (λ x. x ∷ []) (sym (append-nil t))
words_from-end t (c ∷ u) h =
    words_from-more t u c h.0
    ∙ words_from-end (t ++ (c ∷ [])) u h.1
    ∙ ap (λ x. x ∷ []) (append_assoc t (c ∷ []) u)

words_from-part :
    (t u rest : Text)
    → Lacks b' ' u
    → words_from (some t) (u ++ (b' ' ∷ rest)) ≡ (t ++ u) ∷ words_from none rest
unfolding words_from
words_from-part t [] rest h = ap (λ x. x ∷ words_from none rest) (sym (append-nil t))
words_from-part t (c ∷ u) rest h =
    words_from-more t (u ++ (b' ' ∷ rest)) c h.0
    ∙ words_from-part (t ++ (c ∷ [])) u rest h.1
    ∙ ap (λ x. x ∷ words_from none rest) (append_assoc t (c ∷ []) u)

words_from-separated :
    (w : Text) (ws : List Text)
    → IsPart b' ' w
    → AreParts b' ' ws
    → words_from none (separated b' ' w ws) ≡ w ∷ ws
words_from-separated [] ws h hs = absurd h
words_from-separated (c ∷ w) [] h hs = words_from-start c w h.0 ∙ words_from-end (c ∷ []) w h.1
words_from-separated (c ∷ w) (u ∷ ws) h hs =
    words_from-start c (w ++ (b' ' ∷ separated b' ' u ws)) h.0
    ∙ words_from-part (c ∷ []) w (separated b' ' u ws) h.1
    ∙ ap (λ rest. (c ∷ w) ∷ rest) (words_from-separated u ws hs.0 hs.1)

skip_spaces-stop : (c : ℕ) (s : Text) → (c == b' ') ≡ false → skip_spaces (c ∷ s) ≡ c ∷ s
unfolding skip_spaces
skip_spaces-stop c s e = ground (arith, e)

skip_spaces-separated :
    (w : Text) (ws : List Text)
    → IsPart b' ' w
    → skip_spaces (separated b' ' w ws) ≡ separated b' ' w ws
skip_spaces-separated [] ws h = absurd h
skip_spaces-separated (c ∷ w) [] h = skip_spaces-stop c w h.0
skip_spaces-separated (c ∷ w) (u ∷ ws) h =
    skip_spaces-stop c (w ++ (b' ' ∷ separated b' ' u ws)) h.0

words_of-separated :
    (w : Text) (ws : List Text)
    → IsPart b' ' w
    → AreParts b' ' ws
    → words_of (separated b' ' w ws) ≡ w ∷ ws
unfolding words_of
words_of-separated w ws h hs =
    ap (words_from none) (skip_spaces-separated w ws h) ∙ words_from-separated w ws h hs

-- The text of a command, with its first word and the others.
abbrev pub command : Text × List Text → Text
command (w, ws) = separated b' ' w ws

abbrev pub AreCommands : List (Text × List Text) → Type 0
AreCommands [] = Unit {0}
AreCommands ((w, ws) ∷ cs) =
    IsPart b' ' w × AreParts b' ' ws × IsPart b';' (separated b' ' w ws) × AreCommands cs

words_of-commands :
    (cs : List (Text × List Text))
    → AreCommands cs
    → (map words_of (map command cs) ≡ map (λ (x : Text × List Text). x.0 ∷ x.1) cs)
      × AreParts b';' (map command cs)
words_of-commands [] h = (refl, tt)
words_of-commands ((w, ws) ∷ cs) h =
    let (rest, parts) = words_of-commands cs h.3 in
    (
      ap₂ (λ (x : List Text) (xs : List (List Text)). x ∷ xs) (words_of-separated w ws h.0 h.1)
          rest,
      (h.2, parts),
    )

-- On a line of commands with one `;` between any two, each of words with one space between any
-- two, `parseInput` gives the words of the commands to the interpreter one command after the
-- other, as `run_tokens` says. No word is empty or holds a space or a `;`.
pub parse_input-separated :
    {S : Type 0} (interpreter : List Text → S → Outcome S) (lines : S → ℕ) (w : Text)
    (ws : List Text) (cs : List (Text × List Text)) (s : S)
    → AreCommands ((w, ws) ∷ cs)
    → parse_input interpreter lines (separated b';' (command (w, ws)) (map command cs)) s
      ≡ run_tokens interpreter
          (λ s'. not (lines s' == lines s))
          (some 0)
          ((w ∷ ws) ∷ map (λ (x : Text × List Text). x.0 ∷ x.1) cs)
          s
unfolding parse_input
parse_input-separated {S} interpreter lines w ws cs s h =
    let (rest, parts) = words_of-commands cs h.3 in
    ap (λ ts. run_tokens interpreter moved_on (some 0) (map words_of ts) s)
      (tokens_from-separated (separated b' ' w ws) (map command cs) h.2 parts)
    ∙ ap₂
        (λ (x : List Text) (xs : List (List Text)).
          run_tokens interpreter moved_on (some 0) (x ∷ xs) s)
        (words_of-separated w ws h.0 h.1) rest
  where
    moved_on : S → Bool
    moved_on s' = not (lines s' == lines s)

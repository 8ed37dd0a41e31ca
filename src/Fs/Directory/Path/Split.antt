-- ===== src/Fs/Directory/Path/Split.antt =====
-- What the two parts of a path say of it.
use mathlib.Core.List.{append_assoc, append-nil}
use mathlib.Core.Path.{subst}
use comp310_winter.Base.{
  ℕ, ◌+◌, ◌≤◌, ◌==◌, ◌≡◌, ◌≢◌, refl, sym, ap, ◌∙◌, Bool, true, false, List, [], ◌∷◌, ◌++◌, arith,
  length, length-append, if◌then◌else◌, Text, All, All-append, Bool-cases, inl, inr, ==_ne,
}
use comp310_winter.Fs.Directory.Path.{
  slash, is_empty, tokens_from, tokens, is_absolute, split_loop, split_path_filename,
}

-- A text without slashes.
abbrev pub HasNoSlash : Text → Type 0
HasNoSlash = All (λ c. c ≢ slash)

abbrev IsToken : Text → Type 0
IsToken t = (is_empty t ≡ false) × HasNoSlash t

-- What a slash, and any other character, does to the token that has begun.
abbrev closed : Text → Text → List Text
closed t s = if is_empty t then tokens_from [] s else t ∷ tokens_from [] s

tokens_from-slash : (t s : Text) (c : ℕ) → (c == slash) ≡ true → tokens_from t (c ∷ s) ≡ closed t s
unfolding tokens_from
tokens_from-slash t s c sep = ap (λ b. if b then closed t s else tokens_from (t ++ (c ∷ [])) s) sep

tokens_from-other :
    (t s : Text) (c : ℕ)
    → (c == slash) ≡ false
    → tokens_from t (c ∷ s) ≡ tokens_from (t ++ (c ∷ [])) s
unfolding tokens_from
tokens_from-other t s c other =
    ap (λ b. if b then closed t s else tokens_from (t ++ (c ∷ [])) s) other

closed-IsToken :
    (t s : Text) → HasNoSlash t → All IsToken (tokens_from [] s) → All IsToken (closed t s)
closed-IsToken [] s h rest = rest
closed-IsToken (x ∷ t) s h rest = ((refl, h), rest)

tokens_from-IsToken : (t s : Text) → HasNoSlash t → All IsToken (tokens_from t s)
unfolding tokens_from
tokens_from-IsToken [] [] h = tt
tokens_from-IsToken (x ∷ t) [] h = ((refl, h), tt)
tokens_from-IsToken t (c ∷ s) h = elim (Bool-cases (c == slash)) [
  | inl sep ↦
      subst (All IsToken) (sym (tokens_from-slash t s c sep))
        (closed-IsToken t s h (tokens_from-IsToken [] s tt))
  | inr other ↦
      let n : c ≢ slash = λ e. ground (arith, other, e) in
      subst (All IsToken) (sym (tokens_from-other t s c other))
        (tokens_from-IsToken (t ++ (c ∷ [])) s (All-append (λ x. x ≢ slash) t (c ∷ []) h (n, tt)))
]

-- Each token with its slash.
size : List Text → ℕ
size [] = 0
size (t ∷ ts) = length t + 1 + size ts

closed-size :
    (t s : Text)
    → size (tokens_from [] s) ≤ length s + 1
    → size (closed t s) ≤ length t + length s + 2
unfolding size
closed-size [] s h = omega (arith, h)
closed-size (x ∷ t) s h = omega (arith, h)

tokens_from-size : (t s : Text) → size (tokens_from t s) ≤ length t + length s + 1
unfolding tokens_from size
tokens_from-size [] [] = omega arith
tokens_from-size (x ∷ t) [] = omega arith
tokens_from-size t (c ∷ s) = elim (Bool-cases (c == slash)) [
  | inl sep ↦
      let e = ap size (tokens_from-slash t s c sep) in
      let rest = tokens_from-size [] s in
      let h = closed-size t s (omega (arith, rest)) in omega (arith, e, h)
  | inr other ↦
      let e = ap size (tokens_from-other t s c other) in
      let h = tokens_from-size (t ++ (c ∷ [])) s in omega (arith, e, h, length-append t (c ∷ []))
]

-- The tokens of a text that ends with a token and a slash.
tokens_from-token :
    (t w s : Text)
    → HasNoSlash w
    → is_empty (t ++ w) ≡ false
    → tokens_from t (w ++ (slash ∷ s)) ≡ (t ++ w) ∷ tokens_from [] s
tokens_from-token t [] s h some_chars =
    tokens_from-slash t s slash refl
    ∙ ap (λ b. if b then tokens_from [] s else t ∷ tokens_from [] s)
        (ap is_empty (sym (append-nil t)) ∙ some_chars)
    ∙ ap (λ u. u ∷ tokens_from [] s) (sym (append-nil t))
tokens_from-token t (c ∷ w) s (n, h) some_chars =
    tokens_from-other t (w ++ (slash ∷ s)) c (==_ne c slash n)
    ∙ tokens_from-token (t ++ (c ∷ [])) w s h (ap is_empty (append_assoc t (c ∷ []) w) ∙ some_chars)
    ∙ ap (λ u. u ∷ tokens_from [] s) (append_assoc t (c ∷ []) w)

tokens_from-last :
    (t w : Text) → HasNoSlash w → is_empty (t ++ w) ≡ false → tokens_from t w ≡ (t ++ w) ∷ []
unfolding tokens_from
tokens_from-last t [] h some_chars =
    ap (λ b. if b then [] else t ∷ []) (ap is_empty (sym (append-nil t)) ∙ some_chars)
    ∙ ap (λ u. u ∷ []) (sym (append-nil t))
tokens_from-last t (c ∷ w) (n, h) some_chars =
    tokens_from-other t w c (==_ne c slash n)
    ∙ tokens_from-last (t ++ (c ∷ [])) w h (ap is_empty (append_assoc t (c ∷ []) w) ∙ some_chars)
    ∙ ap (λ u. u ∷ []) (append_assoc t (c ∷ []) w)

-- The text `p` has the tokens `ts` and ends behind the last of them.
abbrev Before : Text → List Text → Type 0
Before p ts = (s : Text) → tokens_from [] (p ++ s) ≡ ts ++ tokens_from [] s

-- What the loop adds for a token.
abbrev with_token : Text → Text → Text
with_token p w = p ++ (w ++ (slash ∷ []))

with_token-Before :
    (p w : Text) (ts : List Text)
    → Before p ts
    → IsToken w
    → Before (with_token p w) (ts ++ (w ∷ []))
with_token-Before p w ts before (some_chars, no_slash) s =
    ap (tokens_from [])
      (append_assoc p (w ++ (slash ∷ [])) s ∙ ap (λ u. p ++ u) (append_assoc w (slash ∷ []) s))
    ∙ before (w ++ (slash ∷ s))
    ∙ ap (λ us. ts ++ us) (tokens_from-token [] w s no_slash some_chars)
    ∙ sym (append_assoc ts (w ∷ []) (tokens_from [] s))

is_absolute-with_token : (p w : Text) → IsToken w → is_absolute (with_token p w) ≡ is_absolute p
is_absolute-with_token [] [] (some_chars, h) = cc
is_absolute-with_token [] (c ∷ w) (some_chars, h) = ==_ne c slash h.0
is_absolute-with_token (c ∷ p) w h = refl

-- The two parts after the loop, which started with the tokens `ts` in the directory and `rest` to come.
record Parts (p : Text) (ts rest : List Text) (r : Text × Text) : Type 0 where
  in_directory : List Text
  before : Before r.0 in_directory
  last_token : IsToken r.1
  same_tokens : in_directory ++ (r.1 ∷ []) ≡ ts ++ rest
  same_start : is_absolute r.0 ≡ is_absolute p
  short : length r.0 + length r.1 + 1 ≤ length p + size rest

split_loop-Parts :
    (p last : Text) (ts rest : List Text)
    → Before p ts
    → IsToken last
    → All IsToken rest
    → Parts p ts (last ∷ rest) (split_loop p last rest)
unfolding split_loop size
split_loop-Parts p last ts [] before h hs = record {
  in_directory = ts;
  before = before;
  last_token = h;
  same_tokens = refl;
  same_start = refl;
  short = omega arith;
}
split_loop-Parts p last ts (token ∷ rest) before h (h', hs) =
    let q =
      split_loop-Parts (with_token p last) token (ts ++ (last ∷ [])) rest
        (with_token-Before p last ts before h) h' hs in
    let e : split_loop p last (token ∷ rest) ≡ split_loop (with_token p last) token rest =
      ap (λ b. split_loop (if b then p else with_token p last) token rest) h.0 in
    subst (Parts p ts (last ∷ (token ∷ rest))) (sym e) (record {
      in_directory = q.in_directory;
      before = q.before;
      last_token = q.last_token;
      same_tokens = q.same_tokens ∙ append_assoc ts (last ∷ []) (token ∷ rest);
      same_start = q.same_start ∙ is_absolute-with_token p last h;
      short =
          omega (
            arith,
            q.short,
            length-append p (last ++ (slash ∷ [])),
            length-append last (slash ∷ []),
          );
    })

-- The name is the last token: it is empty only in a path without tokens.
abbrev IsLast : Text → List Text → Type 0
IsLast name [] = name ≡ []
IsLast name (t ∷ ts) = (us : List Text) × (us ++ (name ∷ []) ≡ t ∷ ts)

-- The file name is the last token of the path, and the directory has the tokens before it.
pub record Splits (path : Text) (r : Text × Text) : Type 0 where
  pub same_tokens : tokens r.0 ++ tokens r.1 ≡ tokens path
  pub last : IsLast r.1 (tokens path)
  pub no_slash : HasNoSlash r.1
  pub same_start : is_absolute r.0 ≡ is_absolute path
  pub short : length r.0 + length r.1 ≤ length path

start-Before : (b : Bool) → Before (if b then slash ∷ [] else []) []
unfolding tokens_from
start-Before true s = refl
start-Before false s = refl

split_start :
    (path p : Text) (ts : List Text)
    → tokens_from [] path ≡ ts
    → Before p []
    → is_absolute p ≡ is_absolute path
    → All IsToken ts
    → length p ≤ length path
    → length p + size ts ≤ length path + 1
    → Splits path (split_loop p [] ts)
unfolding split_loop tokens tokens_from
split_start path p [] same before at_start hs fits sizes = record {
  same_tokens =
      append-nil (tokens_from [] p)
      ∙ ap (tokens_from []) (sym (append-nil p))
      ∙ before []
      ∙ sym same;
  last = subst (IsLast []) (sym same) refl;
  no_slash = tt;
  same_start = at_start;
  short = omega (arith, fits);
}
split_start path p (t ∷ ts) same before at_start (h, hs) fits sizes =
    let q = split_loop-Parts p t [] ts before h hs in
    let r = split_loop p t ts in
    record {
      same_tokens =
          ap (λ us. us ++ tokens_from [] r.1)
            (ap (tokens_from []) (sym (append-nil r.0)) ∙ q.before [] ∙ append-nil q.in_directory)
          ∙ ap (λ us. q.in_directory ++ us) (tokens_from-last [] r.1 q.last_token.1 q.last_token.0)
          ∙ q.same_tokens
          ∙ sym same;
      last = subst (IsLast r.1) (sym same) (q.in_directory, q.same_tokens);
      no_slash = q.last_token.1;
      same_start = q.same_start ∙ at_start;
      short = omega (arith, q.short, sizes);
    }

split_absolute :
    (c : ℕ) (s : Text) (b : Bool)
    → (c == slash) ≡ b
    → Splits (c ∷ s) (split_loop (if b then slash ∷ [] else []) [] (tokens_from [] (c ∷ s)))
unfolding size
split_absolute c s true absolute =
    split_start (c ∷ s) (slash ∷ []) (tokens_from [] (c ∷ s)) refl (start-Before true)
      (sym absolute) (tokens_from-IsToken [] (c ∷ s) tt) (omega arith)
      (omega (arith, tokens_from-size [] s, ap size (tokens_from-slash [] s c absolute)))
split_absolute c s false relative =
    split_start (c ∷ s) [] (tokens_from [] (c ∷ s)) refl (start-Before false) (sym relative)
      (tokens_from-IsToken [] (c ∷ s) tt) (omega arith) (omega (arith, tokens_from-size [] (c ∷ s)))

-- For any path, the file name is the last part of the path, or empty if the path has no part, and
-- the directory has the parts before it; the file name has no slash, the directory is absolute
-- exactly when the path is, and the two are together no longer than the path.
pub split_path_filename-Splits : (path : Text) → Splits path (split_path_filename path)
unfolding split_path_filename tokens tokens_from size
split_path_filename-Splits [] =
    split_start [] [] [] refl (start-Before false) refl tt (omega arith) (omega arith)
split_path_filename-Splits (c ∷ s) = split_absolute c s (c == slash) refl

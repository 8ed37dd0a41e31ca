-- ===== src/Stdio/Lines.antt =====
-- Reading a file line by line.
use comp310_winter.Base.{
  ℕ, zero, suc, ◌<◌, ◌≡◌, refl, ap, Bool, some, List, [], ◌∷◌, ◌++◌, arith, Text, length,
}
use comp310_winter.Store.Extract.{Lacks}
use comp310_winter.Stdio.{at_start, behind, read_result, take_line, fgets}

-- A line that fits the buffer, without its newline.
abbrev pub Fits : ℕ → Text → Type 0
Fits n l = Lacks b'\n' l × (length l < n)

take_line_lem :
    (n : ℕ) (l rest : Text)
    → Lacks b'\n' l
    → length l < n
    → take_line n (l ++ (b'\n' ∷ rest))
      ≡ record { line = l ++ (b'\n' ∷ []); stream = at_start rest }
unfolding take_line
take_line_lem zero l rest lacks fits = absurd (omega arith)
take_line_lem (suc n) [] rest lacks fits = refl
take_line_lem (suc n) (c ∷ l) rest lacks fits =
    rw lacks.0 (ap (behind c) (take_line_lem n l rest lacks.1 (omega arith)))

-- `fgets` returns the next line with its newline, and stands behind it.
pub fgets_line :
    (n : ℕ) (l rest : Text) (eof : Bool)
    → Fits n l
    → fgets n (record { rest = l ++ (b'\n' ∷ rest); eof = eof })
      ≡ (some (l ++ (b'\n' ∷ [])), at_start rest)
unfolding fgets
fgets_line n [] rest eof fits = ap read_result (take_line_lem n [] rest tt fits.1)
fgets_line n (c ∷ l) rest eof fits = ap read_result (take_line_lem n (c ∷ l) rest fits.0 fits.1)

-- The bytes of a file of whole lines.
abbrev pub file_of : List Text → Text
file_of [] = []
file_of (l ∷ ls) = l ++ (b'\n' ∷ file_of ls)

-- ===== src/Stdio.antt =====
-- What the shells use of the C library's text streams: `fgets` and `feof` on a file that is read
-- from its start. The file has no NUL byte.
pub mod Lines
use comp310_winter.Base.{
  ℕ, zero, suc, ◌==◌, Bool, true, false, Option, none, some, List, [], ◌∷◌, if◌then◌else◌, Text,
}

-- The bytes that are not read yet, and the end-of-file indicator.
pub record Stream : Type 0 where
  pub rest : Text
  pub eof : Bool

-- `fopen`, and `fseek(fp, 0, SEEK_SET)`.
abbrev pub at_start : Text → Stream
at_start file = record { rest = file; eof = false }

-- What a read takes: the bytes, and the stream behind them.
pub record Taken : Type 0 where
  pub line : Text
  pub stream : Stream

-- Puts one byte in front of what was taken.
abbrev pub behind : ℕ → Taken → Taken
behind c t = record { line = c ∷ t.line; stream = t.stream }

-- At most `n` bytes, up to a newline or the end of the file.
unfoldable pub take_line : ℕ → Text → Taken
take_line zero rest = record { line = []; stream = record { rest = rest; eof = false } }
take_line (suc n) [] = record { line = []; stream = record { rest = []; eof = true } }
take_line (suc n) (c ∷ rest) =
    if c == b'\n'
    then record { line = c ∷ []; stream = record { rest = rest; eof = false } }
    else behind c (take_line n rest)

abbrev pub read_result : Taken → Option Text × Stream
read_result t = elim t.line [ [] ↦ (none, t.stream) | c ∷ line ↦ (some (c ∷ line), t.stream) ]

-- `fgets(line, n + 1, fp)`: NULL if nothing was read.
unfoldable pub fgets : ℕ → Stream → Option Text × Stream
fgets n st = read_result (take_line n st.rest)

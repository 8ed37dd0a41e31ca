-- ===== src/A2/Shell/Lines.antt =====
-- `parseInput` of a2/shell.c on lines of plain words, and on a `;` behind a space.
use comp310_winter.Base.{ℕ, ◌≡◌, List, ◌∷◌, Text}
use comp310_winter.A1.Words.{skip_spaces}
use comp310_winter.A2.Kernel.{Kernel, Run}

module _ (interpret : List Text → ℕ → Kernel → Run ℕ) where
  -- The first byte behind the spaces is a `;`.
  abbrev IsStuck : Text → Type 0
  IsStuck ui = (s : Text) × (skip_spaces ui ≡ b';' ∷ s)

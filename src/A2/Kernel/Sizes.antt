-- ===== src/A2/Kernel/Sizes.antt =====
-- The page counts of `process_initialize`.
use comp310_winter.Base.{
  ℕ, ◌+◌, ◌-◌, ◌*◌, ◌≤◌, ◌<◌, ◌≡◌, refl, List, [], ◌∷◌, ◌++◌, arith, Text, length,
}
use comp310_winter.Store.Extract.{Lacks}
use comp310_winter.A2.Kernel.{line_count, offset_end_of, page_count_of}

-- For a script of at least one line, the pages hold its lines, three to a page and one to three on
-- the last page.
pub page_count_of-lines :
    (lines : ℕ)
    → 0 < lines
    → (0 < page_count_of lines)
      × ((page_count_of lines - 1) * 3 + offset_end_of lines ≡ lines)
      × (0 < offset_end_of lines)
      × (offset_end_of lines ≤ 3)
unfolding page_count_of
page_count_of-lines lines h = ground arith

line_count-append : (l s : Text) → Lacks b'\n' l → line_count (l ++ s) ≡ line_count s
unfolding line_count
line_count-append [] s h = refl
line_count-append (c ∷ l) s h = ground (arith, line_count-append l s)

-- Lines that are separated by newlines.
abbrev pub joined : List Text → Text → Text
joined [] final = final
joined (l ∷ ls) final = l ++ (b'\n' ∷ joined ls final)

abbrev pub AreLines : List Text → Type 0
AreLines [] = Unit {0}
AreLines (l ∷ ls) = Lacks b'\n' l × AreLines ls

-- The count is one more than the number of newlines: right for a script whose last line `final`
-- has none, and one too many for a script that ends with a newline, where `final` is empty.
pub line_count-joined :
    (ls : List Text) (final : Text)
    → AreLines ls
    → Lacks b'\n' final
    → line_count (joined ls final) ≡ length ls + 1
unfolding line_count
line_count-joined [] [] h f = refl
line_count-joined [] (c ∷ final) h f = ground (arith, line_count-joined [] final)
line_count-joined (l ∷ ls) final h f =
    omega
      (arith, line_count-append l (b'\n' ∷ joined ls final) h.0, line_count-joined ls final h.1 f)

-- ===== src/Fs/Directory/Changes/Encoding.antt =====
-- A directory entry as bytes and back (a3/fs/directory.c).
use mathlib.Core.List.{append_assoc, append-nil}
use mathlib.Core.Path.{ap₂}
use comp310_winter.Base.{
  ℕ, zero, suc, ◌+◌, ◌<◌, ◌≤◌, ◌==◌, ==_ne, ◌≡◌, ◌≢◌, refl, sym, ap, ◌∙◌, not, Bool, true, false,
  List, [], ◌∷◌, ◌++◌, arith, length, get_or, get_or_out, if◌then◌else◌, Text, All,
}
use comp310_winter.Fs.Inode.{slice, block_at}
use comp310_winter.Fs.Inode.Reading.{get_or-at_length, length-snoc}
use comp310_winter.Fs.Inode.Reserve.{number_bytes}
use comp310_winter.Fs.Directory.{DirEntry, dir_entry_of, c_string}
use comp310_winter.Fs.Directory.Changes.{dir_entry_bytes}

-- A C string has no NUL.
abbrev pub IsText : Text → Type 0
IsText = All (λ c. c ≢ 0)

c_string_stop : (x : ℕ) (bs : List ℕ) → x ≡ 0 → c_string (x ∷ bs) ≡ []
unfolding c_string
c_string_stop x bs e = ground (arith, e)

c_string_more : (x : ℕ) (bs : List ℕ) → x ≢ 0 → c_string (x ∷ bs) ≡ x ∷ c_string bs
unfolding c_string
c_string_more x bs ne = ap (λ b. if b then [] else x ∷ c_string bs) (==_ne x 0 ne)

c_string-slice_from :
    (n : ℕ) (a b : Text) → length b < n → IsText b → c_string (slice n (length a) (a ++ b)) ≡ b
unfolding slice
c_string-slice_from zero a b h text = absurd (omega arith)
c_string-slice_from (suc n) a [] h text =
    c_string_stop (get_or (a ++ []) (length a) 0) (slice n (length a + 1) (a ++ []))
      (ap (λ l. get_or l (length a) 0) (append-nil a) ∙ get_or_out a (length a) 0 (omega arith))
c_string-slice_from (suc n) a (x ∷ b) h (ne, text) =
    ap₂ (λ (y : ℕ) (bs : List ℕ). c_string (y ∷ bs)) (get_or-at_length a b x)
      (ap₂ (slice n) (length-snoc a x) (sym (append_assoc a (x ∷ []) b)))
    ∙ c_string_more x (slice n (length (a ++ (x ∷ []))) ((a ++ (x ∷ [])) ++ b)) ne
    ∙ ap (λ bs. x ∷ bs) (c_string-slice_from n (a ++ (x ∷ [])) b (omega (arith, h)) text)

-- A name of at most 30 characters is read back from the 31 bytes.
pub c_string-slice :
    (name : Text) → length name ≤ 30 → IsText name → c_string (slice 31 0 name) ≡ name
c_string-slice name h text = c_string-slice_from 31 [] name (omega (arith, h)) text

number : (n : ℕ) → n < 4294967296 → block_at (number_bytes n) 0 ≡ n
unfolding block_at number_bytes
number n h = omega (arith, h)

in_use_byte : (b : Bool) → not ((if b then 1 else 0) == 0) ≡ b
in_use_byte true = refl
in_use_byte false = refl

-- The entry with its name filled up.
abbrev pub padded : DirEntry → DirEntry
padded e = record e { name = slice 31 0 e.name }

-- The 36 bytes of an entry whose sector has 32 bits are read back as the entry, with its name filled
-- up with zeros.
pub dir_entry_of-dir_entry_bytes :
    (e : DirEntry)
    → e.inode_sector < 4294967296
    → dir_entry_of (slice 36 0 (dir_entry_bytes e)) ≡ padded e
unfolding dir_entry_of dir_entry_bytes
dir_entry_of-dir_entry_bytes e h =
    ap₂ (λ (s : ℕ) (b : Bool). record { inode_sector = s; name = slice 31 0 e.name; in_use = b })
      (number e.inode_sector h) (in_use_byte e.in_use)

-- ===== src/Fs/File/Table.antt =====
-- The table of open files of a3/fs/file.c as a map from names.
use mathlib.Core.Path.{subst}
use comp310_winter.Base.{
  ℕ, ◌≡◌, refl, sym, ap, ◌∙◌, Bool, true, false, Option, none, some, [], ◌∷◌, ◌++◌, arith, inl, inr,
  if◌then◌else◌, Text, same, same_iff, Bool-cases, Option-cases,
}
use comp310_winter.Fs.Inode.Reserve.{Store}
use comp310_winter.Fs.Inode.Table.{OpenInodes}
use comp310_winter.Fs.File.{
  File, FileTable, get_file_by_fname, add_to_file_table, without, remove_from_file_table,
  file_close,
}

abbrev pub or_else : Option File → File → File
or_else none f = f
or_else (some g) f = g

-- What a name finds with an entry more at the end.
get-append :
    (k name : Text) (f : File) (table : FileTable)
    → get_file_by_fname name table ≡ none
    → get_file_by_fname k (table ++ ((name, f) ∷ []))
      ≡ (if same name k then some f else get_file_by_fname k table)
unfolding get_file_by_fname
get-append k name f [] h = refl
get-append k name f ((n, g) ∷ table) h =
    ground (arith, get-append k name f table, same_iff n k, same_iff n name, same_iff name k, h)

add_some :
    (f old : File) (name : Text) (table : FileTable)
    → get_file_by_fname name table ≡ some old
    → add_to_file_table f name table ≡ table
unfolding add_to_file_table
add_some f old name table e = rw (e, add_to_file_table) refl

add_none :
    (f : File) (name : Text) (table : FileTable)
    → get_file_by_fname name table ≡ none
    → add_to_file_table f name table ≡ table ++ ((name, f) ∷ [])
unfolding add_to_file_table
add_none f name table e = rw (e, add_to_file_table) refl

-- After a file is added under a name, the name finds the file that was there or else the new one, and
-- every other name what it found before.
pub get_file_by_fname-add_to_file_table :
    (k name : Text) (f : File) (table : FileTable)
    → get_file_by_fname k (add_to_file_table f name table) ≡ (
        if same name k
        then some (or_else (get_file_by_fname name table) f)
        else get_file_by_fname k table)
get_file_by_fname-add_to_file_table k name f table =
    elim (Option-cases (get_file_by_fname name table)) [
      | inl absent ↦
          ap (get_file_by_fname k) (add_none f name table absent)
          ∙ get-append k name f table absent
          ∙ ap (λ o. if same name k then some (or_else o f) else get_file_by_fname k table)
              (sym absent)
      | inr (old, present) ↦
          ap (get_file_by_fname k) (add_some f old name table present)
          ∙ ground (arith, same_iff name k, present)
    ]

-- No name has two entries.
abbrev pub IsDistinct : FileTable → Type 0
IsDistinct [] = Unit
IsDistinct ((name, f) ∷ table) = (get_file_by_fname name table ≡ none) × IsDistinct table

pub get-without :
    (k name : Text) (table : FileTable)
    → IsDistinct table
    → get_file_by_fname k (without name table)
      ≡ (if same name k then none else get_file_by_fname k table)
unfolding get_file_by_fname without
get-without k name [] h = ground arith
get-without k name ((n, g) ∷ table) (absent, h) =
    ground
      (arith, get-without k name table h, same_iff n k, same_iff n name, same_iff name k, absent)

IsDistinct-without :
    (name : Text) (table : FileTable) → IsDistinct table → IsDistinct (without name table)
unfolding without
IsDistinct-without name [] h = tt
IsDistinct-without name ((n, g) ∷ table) (absent, h) = elim (Bool-cases (same n name)) [
  | inl here ↦
      subst IsDistinct (sym (ap (λ b. if b then table else (n, g) ∷ without name table) here)) h
  | inr other ↦
      subst IsDistinct (sym (ap (λ b. if b then table else (n, g) ∷ without name table) other))
        (get-without n name table h ∙ ground (arith, absent), IsDistinct-without name table h)
]

module _ {M : Type 0} (free_map_release : ℕ → Store M → Option (Store M)) (name : Text)
    (table : FileTable) (t : OpenInodes M) where
  remove_none :
      get_file_by_fname name table ≡ none
      → remove_from_file_table free_map_release name table t ≡ some ((false, table), t)
  unfolding remove_from_file_table
  remove_none e = rw (e, remove_from_file_table) refl

  remove_some :
      (f : File) (u : OpenInodes M)
      → get_file_by_fname name table ≡ some f
      → file_close free_map_release f t ≡ some u
      → remove_from_file_table free_map_release name table t ≡ some ((true, without name table), u)
  unfolding remove_from_file_table
  remove_some f u e closed = rw (e, remove_from_file_table) (rw closed refl)

-- What a removal leaves in the table.
pub record Removes {M : Type 0} (name : Text) (table : FileTable)
    (run : Option ((Bool × FileTable) × OpenInodes M)) : Type 0 where
  pub found : Bool
  pub table' : FileTable
  pub after : OpenInodes M
  pub result : run ≡ some ((found, table'), after)
  pub distinct : IsDistinct table'
  pub lookups :
      (k : Text)
      → get_file_by_fname k table' ≡ (if same name k then none else get_file_by_fname k table)

-- Removing a name from a table of files with different names, whose file under that name can be
-- closed, leaves a table with different names that finds no file under the name and under every
-- other name the same as before.
pub remove_from_file_table-Removes :
    {M : Type 0} (free_map_release : ℕ → Store M → Option (Store M)) (name : Text)
    (table : FileTable) (t : OpenInodes M)
    → IsDistinct table
    → ((f : File)
        → get_file_by_fname name table ≡ some f
        → (u : OpenInodes M) × (file_close free_map_release f t ≡ some u))
    → Removes name table (remove_from_file_table free_map_release name table t)
remove_from_file_table-Removes free_map_release name table t h closes =
    elim (Option-cases (get_file_by_fname name table)) [
      | inl absent ↦ record {
        found = false;
        table' = table;
        after = t;
        result = remove_none free_map_release name table t absent;
        distinct = h;
        lookups = λ k. ground (arith, same_iff name k, absent);
      }
      | inr (f, present) ↦
          let (u, closed) = closes f present in
          record {
            found = true;
            table' = without name table;
            after = u;
            result = remove_some free_map_release name table t f u present closed;
            distinct = IsDistinct-without name table h;
            lookups = λ k. get-without k name table h;
          }
    ]

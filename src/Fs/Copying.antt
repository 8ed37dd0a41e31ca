-- ===== src/Fs/Copying.antt =====
-- `copy_in`, `copy_out`, `find_file` and `defragment` of a3/fs/fsutil2.c. A file of the host is the list
-- of its bytes. Loops over the root directory run on fuel. `none` is a panic or the use of memory that
-- was freed.
pub mod Out
mod Tests
use comp310_winter.Base.{
  ℕ, zero, suc, ◌+◌, ◌-◌, ◌%◌, ◌==◌, ◌&&◌, ◌||◌, Bool, true, false, Option, none, some, List, [],
  ◌∷◌, ◌++◌, if◌then◌else◌, Text, length,
}
use comp310_winter.Fs.Capacity.{ℤ, pos, negsuc, copyable_size_of_file}
use comp310_winter.Fs.Cache.{option_bind}
use comp310_winter.Fs.Inode.{slice}
use comp310_winter.Fs.File.{File, file_seek, get_file_by_fname}
use comp310_winter.Fs.FreeMap.{Bitmap, num_free_sectors}
use comp310_winter.Fs.Directory.{c_string}
use comp310_winter.Fs.Directory.Handles.{dir_open_root, dir_close, read_name}
use comp310_winter.Fs.Filesys.{
  Mounted, put_file, release, filesys_remove, fsutil_size, fsutil_read, fsutil_write, fsutil_create,
  fsutil_close, fsutil_seek,
}

-- `strstr(s, pattern) != NULL`
abbrev pub is_prefix : Text → Text → Bool
is_prefix [] s = true
is_prefix (c ∷ pattern) [] = false
is_prefix (c ∷ pattern) (d ∷ s) = (c == d) && is_prefix pattern s

abbrev pub is_infix : Text → Text → Bool
is_infix pattern [] = is_prefix pattern []
is_infix pattern (c ∷ s) = is_prefix pattern (c ∷ s) || is_infix pattern s

module _ {B : Type 0} (bitmap : Bitmap B) where
  -- `file_seek(get_file_by_fname(name), position)`; a file that is not in the table is a null pointer.
  unfoldable pub seek_in_table : Text → ℤ → Mounted bitmap → Option (Mounted bitmap)
  unfolding get_file_by_fname file_seek put_file
  seek_in_table name position m = option_bind (get_file_by_fname name m.files) λ f.
      option_bind (file_seek f position) λ f'. some (record m { files = put_file name f' m.files })

  -- The position of the file in the table.
  unfoldable pub position_of : Text → Mounted bitmap → Option ℤ
  unfolding get_file_by_fname
  position_of name m = option_bind (get_file_by_fname name m.files) λ f. some f.position

  -- The part of `copy_in` behind the checks: the buffer has one byte more, which is set to 0 when it is
  -- written. What `fsutil_create` and `fsutil_write` return is not looked at.
  unfoldable pub copy_bytes : Text → List ℕ → ℕ → List ℕ → Mounted bitmap → Option (Mounted bitmap)
  unfolding fsutil_create fsutil_write seek_in_table slice
  copy_bytes fname contents copy_size junk m =
      option_bind (fsutil_create bitmap fname copy_size junk m) λ (created, m').
        option_bind
          (fsutil_write bitmap fname (slice copy_size 0 contents ++ (0 ∷ [])) (copy_size + 1) m')
          λ (written, m''). seek_in_table fname (pos 0) m''

  -- `copy_in`: the code, with the file of the host, if there is one.
  unfoldable pub copy_in :
      Text → Option (List ℕ) → List ℕ → Mounted bitmap → Option (ℕ × Mounted bitmap)
  unfolding copyable_size_of_file num_free_sectors copy_bytes
  copy_in fname none junk m = some (1, m)
  copy_in fname (some contents) junk m =
      let size = length contents in
      let free = num_free_sectors bitmap m.directories.table.store.free_map in
      elim (copyable_size_of_file free (if size % 512 == 0 then size + 1 else size)) [
        | negsuc n ↦ some (2, m)
        | pos copy_size ↦
            if copy_size == 0
            then some (2, m)
            else option_bind (copy_bytes fname contents copy_size junk m) (λ m'. some (0, m'))
      ]

  -- `copy_out` behind the check of the size: the text that is written, if the file of the host can be
  -- written, and then the position as it was.
  unfoldable pub write_out :
      Text → ℕ → Bool → Mounted bitmap → Option ((ℕ × Option Text) × Mounted bitmap)
  unfolding position_of seek_in_table fsutil_read c_string
  write_out fname size writable m = option_bind (position_of fname m) λ offset.
      option_bind (seek_in_table fname (pos 0) m) λ m'.
        option_bind (fsutil_read bitmap fname size m') λ (bytes, m''). option_bind bytes λ buffer.
          if writable
          then option_bind (seek_in_table fname offset m'')
              (λ m'''. some ((0, some (c_string buffer)), m'''))
          else some ((12, none), m'')

  -- `copy_out`: the code, and the text.
  unfoldable pub copy_out :
      Text → Bool → Mounted bitmap → Option ((ℕ × Option Text) × Mounted bitmap)
  unfolding fsutil_size write_out
  copy_out fname writable m = option_bind (fsutil_size bitmap fname m) λ (size, m'). elim size [
    | none ↦ some ((1, none), m')
    | some n ↦ write_out fname n writable m'
  ]

  -- A file's text, read from its start, with the position as it was.
  unfoldable pub text_of : Text → ℕ → Mounted bitmap → Option (Option (List ℕ) × Mounted bitmap)
  unfolding position_of seek_in_table fsutil_read
  text_of name size m = option_bind (position_of name m) λ offset.
      option_bind (seek_in_table name (pos 0) m) λ m'.
        option_bind (fsutil_read bitmap name size m')
          λ (bytes, m''). option_bind (seek_in_table name offset m'') λ m'''. some (bytes, m''')

  -- The loop of `find_file`: the names that it prints. When a file cannot be opened it returns and leaves
  -- the directory open.
  unfoldable pub find_loop :
      ℕ → Text → ℕ → Mounted bitmap → Option ((List Text × Bool) × Mounted bitmap)
  unfolding read_name fsutil_size text_of c_string
  find_loop zero pattern dir m = none
  find_loop (suc n) pattern dir m = option_bind (read_name dir m.directories) λ (name, t).
      elim name [
        | none ↦ some (([], true), record m { directories = t })
        | some s ↦ option_bind (fsutil_size bitmap s (record m { directories = t })) λ (size, m').
            elim size [
              | none ↦ some (([], false), m')
              | some k ↦ option_bind (text_of s k m') λ (bytes, m''). option_bind bytes λ buffer.
                  option_bind (find_loop n pattern dir m'') λ ((names, done), u).
                    some
                      (((if is_infix pattern (c_string buffer) then s ∷ names else names), done), u)
            ]
      ]

  unfoldable pub find_file : ℕ → Text → Mounted bitmap → Option (List Text × Mounted bitmap)
  unfolding dir_open_root find_loop dir_close
  find_file fuel pattern m = option_bind (dir_open_root m.directories) λ (dir, t).
      option_bind (find_loop fuel pattern dir (record m { directories = t })) λ ((names, done), m').
        if done
        then option_bind (dir_close (release bitmap) dir m'.directories)
            (λ (u, t'). some (names, record m' { directories = t' }))
        else some (names, m')

  -- A file in memory: `struct file_elem`.
  pub record FileElem : Type 0 where
    pub fname : Text
    pub contents : List ℕ
    pub size : ℕ

  -- The first loop of `defragment`: the files, or the code with which it stops.
  unfoldable pub collect :
      ℕ → ℕ → Mounted bitmap → Option ((List FileElem × Option ℕ) × Mounted bitmap)
  unfolding read_name fsutil_size position_of seek_in_table fsutil_read
  collect zero dir m = none
  collect (suc n) dir m = option_bind (read_name dir m.directories) λ (name, t). elim name [
    | none ↦ some (([], none), record m { directories = t })
    | some s ↦ option_bind (fsutil_size bitmap s (record m { directories = t })) λ (size, m').
        elim size [
          | none ↦ some (([], some 1), m')
          | some k ↦ option_bind (position_of s m') λ offset.
              option_bind (seek_in_table s (pos 0) m') λ m''.
                option_bind (fsutil_read bitmap s k m'') λ (bytes, u). elim bytes [
                  | none ↦ some (([], some 13), u)
                  | some buffer ↦ option_bind (seek_in_table s offset u) λ u'.
                      option_bind (collect n dir u') λ ((files, code), v). some (
                        (
                          record { fname = s; contents = slice (k + 1) 0 buffer; size = k } ∷ files,
                          code,
                        ),
                        v,
                      )
                ]
        ]
  ]

  -- The second loop removes the files.
  unfoldable pub remove_all : List FileElem → Mounted bitmap → Option (Mounted bitmap)
  unfolding fsutil_close filesys_remove
  remove_all [] m = some m
  remove_all (f ∷ files) m = option_bind (fsutil_close bitmap f.fname m) λ (found, m').
      option_bind (filesys_remove bitmap f.fname m'.directories)
        λ (removed, t). remove_all files (record m' { directories = t })

  -- The third writes them again.
  unfoldable pub write_all : List FileElem → List ℕ → Mounted bitmap → Option (Mounted bitmap)
  unfolding fsutil_create fsutil_write fsutil_seek
  write_all [] junk m = some m
  write_all (f ∷ files) junk m =
      option_bind (fsutil_create bitmap f.fname f.size junk m) λ (created, m').
        option_bind (fsutil_write bitmap f.fname f.contents f.size m') λ (written, m'').
          option_bind (fsutil_seek bitmap f.fname (pos 0) m'')
            λ (sought, m'''). write_all files junk m'''

  -- `defragment`: the code. When it stops early the directory stays open.
  unfoldable pub defragment : ℕ → List ℕ → Mounted bitmap → Option (ℕ × Mounted bitmap)
  unfolding dir_open_root collect dir_close remove_all write_all
  defragment fuel junk m = option_bind (dir_open_root m.directories) λ (dir, t).
      option_bind (collect fuel dir (record m { directories = t })) λ ((files, code), m').
        elim code [
          | some c ↦ some (c, m')
          | none ↦ option_bind (dir_close (release bitmap) dir m'.directories) λ (u, t').
              option_bind (remove_all files (record m' { directories = t' }))
                λ m''. option_bind (write_all files junk m'') λ m'''. some (0, m''')
        ]

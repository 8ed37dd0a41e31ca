-- ===== src/Fs/Copying/Tests.antt =====
-- The file of the test data, open under the name "a", at the position 7.
use comp310_winter.Base.{ℕ, ◌≡◌, refl, ◌∷◌, [], true, false, none, some, Text}
use comp310_winter.Fs.Sample.{disk, cache, idisk, inode, idisk-IsWritable}
use comp310_winter.Fs.Capacity.{pos}
use comp310_winter.Fs.Inode.Reading.{IsStored, file_bytes}
use comp310_winter.Fs.Inode.Table.{at_address}
use comp310_winter.Fs.File.{File, get_file_by_fname}
use comp310_winter.Fs.FreeMap.{Bitmap}
use comp310_winter.Fs.Directory.{c_string}
use comp310_winter.Fs.Filesys.{Mounted}
use comp310_winter.Fs.Copying.{copy_out, is_infix}
use comp310_winter.Fs.Copying.Out.{copy_out-file_bytes}

-- A free map that is the number of the next free sector.
abbrev counter : Bitmap ℕ
counter = record {
  create = λ n. 0;
  size = λ b. 5;
  mark = λ b s. b;
  count = λ b s n v. n;
  all = λ b s n. true;
  set_multiple = λ b s n v. b;
  scan_and_flip = λ b s n v. (none, b);
  file_size = λ b. 1;
  write = λ b f c. some (true, c);
  read = λ f c. some (some 0, c);
}

abbrev name : Text
name = 97 ∷ []

abbrev file : File
file = record { inode = 10; position = pos 7; deny_write = false }

abbrev mounted : Mounted counter
mounted = record {
  directories = record {
    table = record {
      inodes = inode ∷ [];
      store = record { cache = cache; free_map = record { bits = 0; file = none } };
    };
    dirs = [];
    cwd = none;
    next = 11;
  };
  files = (name, file) ∷ [];
}

found_inside : is_infix (98 ∷ 99 ∷ []) (97 ∷ 98 ∷ 99 ∷ 100 ∷ []) ≡ true
found_inside = refl

copy_out-file_bytes_example :
    (m' : Mounted counter) × (copy_out counter name true mounted
      ≡ some ((0, some (c_string (file_bytes disk.sectors idisk 1000 0))), m'))
    × (get_file_by_fname name m'.files ≡ some file)
    × (at_address 10 m'.directories.table.inodes ≡ some inode)
    × IsStored idisk disk.sectors m'.directories.table.store.cache
unfolding get_file_by_fname at_address
copy_out-file_bytes_example =
    copy_out-file_bytes counter name mounted file inode 7 disk.sectors refl refl
      idisk-IsWritable.stored

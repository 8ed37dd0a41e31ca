-- ===== src/Fs/File/Reading.antt =====
-- `file_read` of a3/fs/file.c on a file that is stored on the device.
use comp310_winter.Base.{
  ℕ, ◌+◌, ◌-◌, ◌≡◌, sym, ap, ◌∙◌, Option, some, List, ◌++◌, arith, length, min,
}
use comp310_winter.Fs.Block.{Sector}
use comp310_winter.Fs.Capacity.{pos}
use comp310_winter.Fs.Cache.{Cache}
use comp310_winter.Fs.Inode.{inode_read_at}
use comp310_winter.Fs.Inode.Reading.{
  IsStored, IsStored-Unchanged, file_bytes, file_bytes-add, inode_read_at-file_bytes,
}
use comp310_winter.Fs.Inode.Table.{Inode, OpenInodes, at_address}
use comp310_winter.Fs.File.{File, file_read}
use comp310_winter.Fs.Directory.Entries.{length-file_bytes}

-- A read that returns the bytes, moves the position behind them, and leaves the file as it was.
pub record Reads {M : Type 0} (disk : ℕ → Sector) (f : File) (i : Inode) (bytes : List ℕ) (p : ℕ)
    (run : Option ((List ℕ × File) × OpenInodes M)) : Type 0 where
  pub after : OpenInodes M
  pub result : run ≡ some ((bytes, record f { position = pos p }), after)
  pub inode : at_address f.inode after.inodes ≡ some i
  pub stored : IsStored i.contents disk after.store.cache

file_read-result :
    {M : Type 0} (f : File) (i : Inode) (size p : ℕ) (t : OpenInodes M) (bytes : List ℕ) (c : Cache)
    → at_address f.inode t.inodes ≡ some i
    → inode_read_at i.contents size p t.store.cache ≡ some (bytes, c)
    → file_read (record f { position = pos p }) size t
      ≡ some (
        (bytes, record f { position = pos (p + length bytes) }),
        record t { store = record (t.store) { cache = c } },
      )
unfolding file_read
file_read-result f i size p t bytes c opened read = ground (arith, opened, read)

module _ {M : Type 0} (disk : ℕ → Sector) (f : File) (i : Inode) where
  pub file_read-Reads :
      (size p : ℕ) (t : OpenInodes M)
      → at_address f.inode t.inodes ≡ some i
      → IsStored i.contents disk t.store.cache
      → Reads disk f i
          (file_bytes disk i.contents (min size (i.contents.length - p)) p)
          (p + min size (i.contents.length - p))
          (file_read (record f { position = pos p }) size t)
  file_read-Reads size p t opened w =
      let (c, read, u) = inode_read_at-file_bytes i.contents disk t.store.cache size p w in
      let k = min size (i.contents.length - p) in
      let after : OpenInodes M = record t { store = record (t.store) { cache = c } } in
      record {
        after = after;
        result =
            file_read-result f i size p t (file_bytes disk i.contents k p) c opened read
            ∙ ap
                (λ n.
                  some
                    ((file_bytes disk i.contents k p, record f { position = pos (p + n) }), after))
                (length-file_bytes disk i.contents k p);
        inode = opened;
        stored = IsStored-Unchanged i.contents disk t.store.cache c w u;
      }

  -- Two reads of an open file that is stored on the device, one after the other, return together
  -- the bytes that are there from the position on, as many as both asked for or as there are up to
  -- the end of the file, and leave the position behind them and the file as it was.
  pub file_read-twice :
      (first second p : ℕ) (t : OpenInodes M)
      → at_address f.inode t.inodes ≡ some i
      → IsStored i.contents disk t.store.cache
      → (a b : List ℕ) × (f' : File) × (t' : OpenInodes M) × (file_read
            (record f { position = pos p })
            first
            t
          ≡ some ((a, f'), t'))
        × Reads disk f i b
            (p + min (first + second) (i.contents.length - p))
            (file_read f' second t')
        × (a ++ b ≡ file_bytes disk i.contents (min (first + second) (i.contents.length - p)) p)
  file_read-twice first second p t opened w =
      let n = i.contents.length in
      let k = min first (n - p) in
      let r = file_read-Reads first p t opened w in
      let s = file_read-Reads second (p + k) r.after r.inode r.stored in
      let sum : k + min second (n - (p + k)) ≡ min (first + second) (n - p) = omega arith in
      (
        file_bytes disk i.contents k p,
        file_bytes disk i.contents (min second (n - (p + k))) (p + k),
        record f { position = pos (p + k) },
        r.after,
        r.result,
        record {
          after = s.after;
          result =
              s.result
              ∙ ap
                  (λ q. some (
                    (
                      file_bytes disk i.contents (min second (n - (p + k))) (p + k),
                      record f { position = pos q },
                    ),
                    s.after,
                  ))
                  {y = p + min (first + second) (n - p)} (omega (arith, sum));
          inode = s.inode;
          stored = s.stored;
        },
        sym (file_bytes-add disk i.contents k (min second (n - (p + k))) p)
            ∙ ap (λ m. file_bytes disk i.contents m p) sum,
      )

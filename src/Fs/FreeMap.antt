-- ===== src/Fs/FreeMap.antt =====
-- a3/fs/free-map.c over the bitmap of a3/fs/bitmap.c, whose functions are a parameter. `none` is a panic.
mod Tests
use comp310_winter.Base.{
  ℕ, ◌-◌, ◌==◌, not, Bool, true, false, Option, none, some, List, [], ◌∷◌, if◌then◌else◌,
}
use comp310_winter.Fs.Cache.{Cache, option_bind}
use comp310_winter.Fs.Inode.Reserve.{Store, inode_create}
use comp310_winter.Fs.Inode.Table.{OpenInodes, inode_open}
use comp310_winter.Fs.File.{File, file_open, file_close}

-- The functions of the bitmap that are called. A search returns the first bit of the run that it flips.
pub record Bitmap (B : Type 0) : Type 0 where
  pub create : ℕ → B
  pub size : B → ℕ
  pub mark : B → ℕ → B
  pub count : B → ℕ → ℕ → Bool → ℕ
  pub all : B → ℕ → ℕ → Bool
  pub set_multiple : B → ℕ → ℕ → Bool → B
  pub scan_and_flip : B → ℕ → ℕ → Bool → Option ℕ × B
  pub file_size : B → ℕ
  pub write : B → File → Cache → Option (Bool × Cache)
  pub read : File → Cache → Option (Option B × Cache)

-- The bits in memory, and the file that they are kept in.
pub record FreeMap (B : Type 0) : Type 0 where
  pub bits : B
  pub file : Option File

module _ {B : Type 0} (bitmap : Bitmap B) where
  unfoldable pub free_map_init : ℕ → FreeMap B
  free_map_init block_size = record {
    bits = bitmap.mark (bitmap.mark (bitmap.create (block_size - 1)) 0) 1;
    file = none;
  }

  unfoldable pub num_free_sectors : FreeMap B → ℕ
  num_free_sectors m = bitmap.count m.bits 0 (bitmap.size m.bits) false

  -- `bitmap_write(free_map, free_map_file)`; without a file it would use a null pointer.
  unfoldable pub write_bits : B → Store (FreeMap B) → Option (Bool × Store (FreeMap B))
  write_bits bits t = elim t.free_map.file [
    | none ↦ none
    | some f ↦
        option_bind (bitmap.write bits f t.cache)
          λ (ok, c). some (ok, record { cache = c; free_map = record (t.free_map) { bits = bits } })
  ]

  -- The bits that a search found are kept if they could be written, and cleared again if not.
  unfoldable pub keep_bits : ℕ → ℕ → B → Store (FreeMap B) → Option (Option ℕ × Store (FreeMap B))
  unfolding write_bits
  keep_bits cnt sector bits t = elim t.free_map.file [
    | none ↦ some (some sector, record t { free_map = record (t.free_map) { bits = bits } })
    | some f ↦ option_bind (write_bits bits t) λ (ok, t').
        if ok
        then some (some sector, t')
        else some (
          none,
          record t' {
            free_map = record (t'.free_map) { bits = bitmap.set_multiple bits sector cnt false };
          },
        )
  ]

  unfoldable pub allocate_found :
      ℕ → Option ℕ × B → Store (FreeMap B) → Option (Option ℕ × Store (FreeMap B))
  unfolding keep_bits
  allocate_found cnt (none, bits) t =
      some (none, record t { free_map = record (t.free_map) { bits = bits } })
  allocate_found cnt (some sector, bits) t = keep_bits cnt sector bits t

  unfoldable pub free_map_allocate : ℕ → Store (FreeMap B) → Option (Option ℕ × Store (FreeMap B))
  unfolding allocate_found
  free_map_allocate cnt t = allocate_found cnt (bitmap.scan_and_flip t.free_map.bits 0 cnt false) t

  -- Whether the bits could be written is not looked at.
  unfoldable pub free_map_release : ℕ → ℕ → Store (FreeMap B) → Option (Store (FreeMap B))
  unfolding write_bits
  free_map_release cnt sector t =
      if bitmap.all t.free_map.bits sector cnt
      then option_bind (write_bits (bitmap.set_multiple t.free_map.bits sector cnt false) t)
          (λ (ok, t'). some t')
      else none

  -- The file of the free map is opened, and the bits are read.
  unfoldable pub free_map_open : ℕ → OpenInodes (FreeMap B) → Option (OpenInodes (FreeMap B))
  unfolding inode_open file_open
  free_map_open fresh t = option_bind (inode_open fresh 0 t) λ (a, u).
      option_bind (file_open (some a)) λ f. option_bind (bitmap.read f u.store.cache) λ (bits, c).
        option_bind bits λ b.
          some (record u {
            store = record { cache = c; free_map = record { bits = b; file = some f } };
          })

  unfoldable pub free_map_close : OpenInodes (FreeMap B) → Option (OpenInodes (FreeMap B))
  unfolding file_close free_map_release
  free_map_close t = elim t.store.free_map.file [
    | none ↦ some t
    | some f ↦ file_close (free_map_release 1) f t
  ]

  -- The inode of the free map's file is created and opened, and the bits are written.
  unfoldable pub free_map_create : ℕ → OpenInodes (FreeMap B) → Option (OpenInodes (FreeMap B))
  unfolding inode_create inode_open file_open write_bits free_map_allocate
  free_map_create fresh t =
      option_bind
        (inode_create (free_map_allocate 1) 0 (bitmap.file_size t.store.free_map.bits) false
          t.store)
        λ (created, u).
          if not created
          then none
          else option_bind (inode_open fresh 0 (record t { store = u })) (λ (a, v).
            option_bind (file_open (some a)) λ f.
              let w = record (v.store) { free_map = record (v.store.free_map) { file = some f } } in
              option_bind (write_bits w.free_map.bits w)
                λ (ok, w'). if ok then some (record v { store = w' }) else none)

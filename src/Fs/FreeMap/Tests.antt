-- ===== src/Fs/FreeMap/Tests.antt =====
-- A bitmap of eight bits as a function, and an allocation from it when every bit is set.
use comp310_winter.Base.{
  ℕ, zero, suc, ◌+◌, ◌≡◌, ◌≢◌, refl, Bool, true, false, Option, none, some, arith, ltb, leb, ◌&&◌,
  if◌then◌else◌,
}
use comp310_winter.Fs.Block.{Sector}
use comp310_winter.Fs.Cache.{buffer_cache_init}
use comp310_winter.Fs.Cache.Coherence.{Reads}
use comp310_winter.Fs.Inode.Reserve.{Store, zeros, inode_reserve_indirect}
use comp310_winter.Fs.Inode.Reserve.Reserved.{inode_reserve_indirect-full}
use comp310_winter.Fs.FreeMap.{Bitmap, FreeMap, free_map_allocate}
use comp310_winter.Fs.Sample.{cache, idisk-IsWritable}

abbrev Bits : Type 0
Bits = ℕ → Bool

-- The bits `s`, ..., `s + n - 1` have the value `v`.
all_from : Bool → Bits → ℕ → ℕ → Bool
all_from v b s zero = true
all_from v b s (suc n) = (if b s then v else if v then false else true) && all_from v b (s + 1) n

abbrev set_run : Bits → ℕ → ℕ → Bool → Bits
set_run b sector cnt v k = if leb sector k && ltb k (sector + cnt) then v else b k

-- The first run of `cnt` bits with the value `v`, among `n` places from `s` on.
search : Bits → ℕ → ℕ → Bool → ℕ → Option ℕ
search b s cnt v zero = none
search b s cnt v (suc n) =
    let rest = search b (s + 1) cnt v n in
    if ltb 8 (s + cnt) then none else if all_from v b s cnt then some s else rest

abbrev bits_map : Bitmap Bits
bits_map = record {
  create = λ n k. false;
  size = λ b. 8;
  mark = λ b s. set_run b s 1 true;
  count = λ b s n v. 0;
  all = λ b s n. all_from true b s n;
  set_multiple = set_run;
  scan_and_flip = λ b s n v. elim (search b s n v 9) [
    | none ↦ (none, b)
    | some i ↦ (some i, set_run b i n (if v then false else true))
  ];
  file_size = λ b. 1;
  write = λ b f c. some (false, c);
  read = λ f c. some (none, c);
}

-- With the bits 0 and 1 set, as `free_map_init` leaves them, the run found is the one behind them.
search_run : search (set_run (λ k. false) 0 2 true) 0 3 false 9 ≡ some 2
unfolding search all_from
search_run = refl

abbrev full_disk : Store (FreeMap Bits)
full_disk = record { cache = cache; free_map = record { bits = λ k. true; file = none } }

inode_reserve_indirect-full_example :
    (t' : Store (FreeMap Bits)) × (inode_reserve_indirect
        (free_map_allocate bits_map 1)
        1
        0
        7
        full_disk
      ≡ some ((false, 0), t'))
    × Reads t'.cache 0 zeros
    × ((s : ℕ) (b : Sector) → 0 ≢ s → Reads cache s b → Reads t'.cache s b)
unfolding free_map_allocate search all_from buffer_cache_init
inode_reserve_indirect-full_example =
    inode_reserve_indirect-full (free_map_allocate bits_map 1) 7 full_disk (λ c. refl)
      idisk-IsWritable.stored.mapped.good (omega arith) (omega arith)

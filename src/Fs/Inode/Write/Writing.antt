-- ===== src/Fs/Inode/Write/Writing.antt =====
-- What `inode_write_at` of a3/fs/inode.c does to the bytes of a file, for a write that does not go
-- behind its end.
use mathlib.Core.Path.{ap₂}
use comp310_winter.Base.{
  ℕ, zero, suc, ◌+◌, ◌/◌, ◌%◌, ◌<◌, ◌≤◌, ==_ne, ◌≡◌, ◌≢◌, refl, sym, ap, ◌∙◌, ◌⊎◌, inl, inr, List,
  [], ◌∷◌, ◌++◌, arith, length, get_or, if◌then◌else◌, All, ==_refl, ℕ_discrete,
}
use comp310_winter.Fs.Block.{Sector}
use comp310_winter.Fs.Inode.{InodeDisk, block_at, no_sector, slice}
use comp310_winter.Fs.Inode.Index.{data_sectors, second_blocks, blocks_from, all_blocks}
use comp310_winter.Fs.Inode.Reading.{sector_at, byte_at}
use comp310_winter.Fs.Inode.Write.Spliced.{IsSpliced, update, length-slice, get_or-slice}

update_ne : (disk : ℕ → Sector) (s : ℕ) (b : Sector) (t : ℕ) → t ≢ s → update disk s b t ≡ disk t
update_ne disk s b t ne = ap (λ e. if e then b else disk t) (==_ne t s ne)

update_self : (disk : ℕ → Sector) (s : ℕ) (b : Sector) → update disk s b s ≡ b
update_self disk s b = ap (λ e. if e then b else disk s) (==_refl s)

all_blocks-cong :
    (disk disk' : ℕ → Sector) (ss : List ℕ)
    → All (λ s. disk' s ≡ disk s) ss
    → all_blocks disk' ss ≡ all_blocks disk ss
all_blocks-cong disk disk' [] h = refl
all_blocks-cong disk disk' (s ∷ ss) (h, hs) =
    ap₂ (λ (b : Sector) (rest : List ℕ). blocks_from 128 0 b ++ rest) h
      (all_blocks-cong disk disk' ss hs)

All-blocks_from :
    (P : ℕ → Type 0) (n i : ℕ) (b : Sector)
    → ((j : ℕ) → j < i + n → P (block_at b j))
    → All P (blocks_from n i b)
All-blocks_from P zero i b h = tt
All-blocks_from P (suc n) i b h =
    (h i (omega arith), All-blocks_from P n (i + 1) b (λ j below. h j (omega (arith, below))))

module _ (idisk : InodeDisk) where
  -- The data sectors of a file are different, and none of them is a block of sector numbers that the file uses.
  pub record IsApart (disk : ℕ → Sector) : Type 0 where
    pub distinct :
        (p q : ℕ)
        → p < idisk.length
        → q < idisk.length
        → sector_at disk idisk p ≡ sector_at disk idisk q
        → p / 512 ≡ q / 512
    pub off_indirect : (p : ℕ) → p < idisk.length → idisk.indirect_block ≢ sector_at disk idisk p
    pub off_doubly :
        (p : ℕ) → p < idisk.length → idisk.doubly_indirect_block ≢ sector_at disk idisk p
    pub off_second :
        (p i : ℕ)
        → p < idisk.length
        → i < second_blocks idisk
        → block_at (disk idisk.doubly_indirect_block) i ≢ sector_at disk idisk p

  -- The disk after a write of `size` bytes of a buffer, from `from` on, to the offset `offset`.
  pub record Spliced (disk disk' : ℕ → Sector) (buffer : List ℕ) (from offset size : ℕ)
      : Type 0 where
    pub same_sectors : data_sectors disk' idisk ≡ data_sectors disk idisk
    pub same_table : disk' idisk.doubly_indirect_block ≡ disk idisk.doubly_indirect_block
    pub inside : (j : ℕ) → j < size → byte_at disk' idisk (offset + j) ≡ get_or buffer (from + j) 0
    pub outside :
        (p : ℕ)
        → p < idisk.length
        → (p < offset) ⊎ (offset + size ≤ p)
        → byte_at disk' idisk p ≡ byte_at disk idisk p
    pub others :
        (s : ℕ) → ((j : ℕ) → j < size → s ≢ sector_at disk idisk (offset + j)) → disk' s ≡ disk s

  module _ (disk : ℕ → Sector) (apart : IsApart disk) (p : ℕ) (in_file : p < idisk.length) where
    pub data_sectors-update :
        (new : Sector)
        → data_sectors (update disk (sector_at disk idisk p) new) idisk ≡ data_sectors disk idisk
    data_sectors-update new =
        let s = sector_at disk idisk p in
        ap (λ rest. idisk.direct_blocks ++ rest)
          (ap₂ (λ (a b : List ℕ). a ++ b)
            (ap (blocks_from 128 0)
              (update_ne disk s new idisk.indirect_block (apart.off_indirect p in_file)))
            (ap (λ b. all_blocks (update disk s new) (blocks_from (second_blocks idisk) 0 b))
                (update_ne disk s new idisk.doubly_indirect_block (apart.off_doubly p in_file))
              ∙ all_blocks-cong disk (update disk s new)
                  (blocks_from (second_blocks idisk) 0 (disk idisk.doubly_indirect_block))
                  (All-blocks_from (λ t. update disk s new t ≡ disk t) (second_blocks idisk) 0
                    (disk idisk.doubly_indirect_block)
                    (λ j below.
                      update_ne disk s new _
                        (apart.off_second p j in_file (omega (arith, below)))))))

    module _ (new : Sector) (buffer : List ℕ) (from chunk : ℕ) (some_bytes : 0 < chunk)
        (fits : p % 512 + chunk ≤ 512)
        (spliced : IsSpliced
          (disk (sector_at disk idisk p))
          new
          (p % 512)
          (slice chunk from buffer)) where
      abbrev written : ℕ → Sector
      written = update disk (sector_at disk idisk p) new

      sector_at-written : (q : ℕ) → sector_at written idisk q ≡ sector_at disk idisk q
      sector_at-written q = ap (λ ss. get_or ss (q / 512) no_sector) (data_sectors-update new)

      byte_at_same : (q : ℕ) → q / 512 ≡ p / 512 → byte_at written idisk q ≡ get_or new (q % 512) 0
      byte_at_same q same =
          ap (λ t. get_or (written t) (q % 512) 0)
            (sector_at-written q ∙ ap (λ i. get_or (data_sectors disk idisk) i no_sector) same)
          ∙ ap (λ (b : Sector). get_or b (q % 512) 0)
              (update_self disk (sector_at disk idisk p) new)

      byte_at_other :
          (q : ℕ)
          → q < idisk.length
          → q / 512 ≢ p / 512
          → byte_at written idisk q ≡ byte_at disk idisk q
      byte_at_other q h other =
          ap (λ t. get_or (written t) (q % 512) 0) (sector_at-written q)
          ∙ ap (λ (b : Sector). get_or b (q % 512) 0)
              (update_ne disk (sector_at disk idisk p) new (sector_at disk idisk q)
                (λ e. other (apart.distinct q p h in_file e)))

      outside_chunk :
          (q : ℕ)
          → q < idisk.length
          → (q < p) ⊎ (p + chunk ≤ q)
          → byte_at written idisk q ≡ byte_at disk idisk q
      outside_chunk q h out = elim (ℕ_discrete (q / 512) (p / 512)) [
        | no other ↦ byte_at_other q h other
        | yes same ↦
            byte_at_same q same
            ∙ spliced.outside (q % 512) (place same out) (omega arith)
            ∙ ap (λ i. get_or (disk (get_or (data_sectors disk idisk) i no_sector)) (q % 512) 0)
                (sym same)
      ]
        where
          place :
              q / 512 ≡ p / 512
              → (q < p) ⊎ (p + chunk ≤ q)
              → (q % 512 < p % 512) ⊎ (p % 512 + length (slice chunk from buffer) ≤ q % 512)
          place same (inl h) = inl (omega (arith, same, h))
          place same (inr h) = inr (omega (arith, same, h, length-slice chunk from buffer))

      pub round-Spliced : Spliced disk written buffer from p chunk
      round-Spliced = record {
        same_sectors = data_sectors-update new;
        same_table =
            update_ne disk (sector_at disk idisk p) new idisk.doubly_indirect_block
              (apart.off_doubly p in_file);
        inside = λ j h.
            byte_at_same (p + j) (omega (arith, fits, h))
            ∙ ap (λ k. get_or new k 0) {y = p % 512 + j} (omega (arith, fits, h))
            ∙ spliced.inside j (omega (arith, h, length-slice chunk from buffer))
            ∙ get_or-slice chunk from buffer j h;
        outside = outside_chunk;
        others = λ t off. update_ne disk (sector_at disk idisk p) new t (λ e.
            off 0 some_bytes
              (e ∙ ap (λ i. get_or (data_sectors disk idisk) i no_sector) (omega arith)));
      }

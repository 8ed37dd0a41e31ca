-- ===== src/Fs/Inode/Write/Loop.antt =====
-- The loop of `inode_write_at` of a3/fs/inode.c, round by round.
use mathlib.Core.Path.{subst}
use comp310_winter.Base.{
  ℕ, ◌+◌, ◌-◌, ◌/◌, ◌<◌, ◌≤◌, ◌≡◌, refl, sym, ap, ◌∙◌, ◌⊎◌, inl, inr, Option, List, arith, length,
  get_or, dec_lt,
}
use comp310_winter.Fs.Block.{Sector}
use comp310_winter.Fs.Cache.{Cache}
use comp310_winter.Fs.Inode.{InodeDisk, block_at, no_sector}
use comp310_winter.Fs.Inode.Index.{data_sectors}
use comp310_winter.Fs.Inode.Reading.{IsStored, sector_at, byte_at}
use comp310_winter.Fs.Inode.Write.Spliced.{update, Wrote}
use comp310_winter.Fs.Inode.Write.Writing.{IsApart, Spliced}

-- A write of a part, and of the rest, is a write of the whole.
pub Spliced-trans :
    (idisk : InodeDisk) (d e f : ℕ → Sector) (buffer : List ℕ) (from offset chunk size : ℕ)
    → chunk ≤ size
    → offset + size ≤ idisk.length
    → Spliced idisk d e buffer from offset chunk
    → Spliced idisk e f buffer (from + chunk) (offset + chunk) (size - chunk)
    → Spliced idisk d f buffer from offset size
Spliced-trans idisk d e f buffer from offset chunk size part fits u v = record {
  same_sectors = v.same_sectors ∙ u.same_sectors;
  same_table = v.same_table ∙ u.same_table;
  inside = λ j h. elim (dec_lt j chunk) [
    | yes first ↦
        v.outside (offset + j) (omega (arith, h, fits)) (inl (omega (arith, first)))
        ∙ u.inside j first
    | no later ↦
        ap (byte_at f idisk) {y = offset + chunk + (j - chunk)} (omega (arith, later))
        ∙ v.inside (j - chunk) (omega (arith, later, h))
        ∙ ap (λ k. get_or buffer k 0) (omega (arith, later))
  ];
  outside = λ p h out. v.outside p h (behind p out) ∙ u.outside p h (before p out);
  others = λ s off.
      v.others s (λ j h e. off (chunk + j) (omega (arith, h, part)) (
        e
        ∙ ap (λ ss. get_or ss ((offset + chunk + j) / 512) no_sector) u.same_sectors
        ∙ ap (sector_at d idisk) (omega arith)))
      ∙ u.others s (λ j h. off j (omega (arith, h, part)));
}
  where
    behind :
        (p : ℕ)
        → (p < offset) ⊎ (offset + size ≤ p)
        → (p < offset + chunk) ⊎ (offset + chunk + (size - chunk) ≤ p)
    behind p (inl h) = inl (omega (arith, h))
    behind p (inr h) = inr (omega (arith, h, part))

    before : (p : ℕ) → (p < offset) ⊎ (offset + size ≤ p) → (p < offset) ⊎ (offset + chunk ≤ p)
    before p (inl h) = inl h
    before p (inr h) = inr (omega (arith, h, part))

pub Spliced-none :
    (idisk : InodeDisk) (d : ℕ → Sector) (buffer : List ℕ) (from offset size : ℕ)
    → size ≡ 0
    → Spliced idisk d d buffer from offset size
Spliced-none idisk d buffer from offset size none_left = record {
  same_sectors = refl;
  same_table = refl;
  inside = λ j h. absurd (omega (arith, h, none_left));
  outside = λ p h out. refl;
  others = λ s off. refl;
}

-- What a write leaves of the file: it can be read, and its sectors are apart.
pub record IsWritable (idisk : InodeDisk) (disk : ℕ → Sector) (c : Cache) : Type 0 where
  pub stored : IsStored idisk disk c
  pub apart : IsApart idisk disk

pub IsWritable-Wrote :
    (idisk : InodeDisk) (disk : ℕ → Sector) (c : Cache) (s : ℕ) (new : Sector) (run : Option Cache)
    (v : Wrote c disk s new run)
    → IsWritable idisk disk c
    → length new ≡ 512
    → data_sectors (update disk s new) idisk ≡ data_sectors disk idisk
    → update disk s new idisk.doubly_indirect_block ≡ disk idisk.doubly_indirect_block
    → IsWritable idisk (update disk s new) v.after
IsWritable-Wrote idisk disk c s new run v w whole same table = record {
  stored = record {
    mapped = record {
      good = v.mirrors.good;
      contents = v.mirrors.contents;
      direct = w.stored.mapped.direct;
      indirect = omega (arith, v.same_size, w.stored.mapped.indirect);
      doubly = omega (arith, v.same_size, w.stored.mapped.doubly);
      second = λ i h.
          subst (λ (b : Sector). block_at b i < v.after.device.size) (sym table)
            (omega (arith, v.same_size, w.stored.mapped.second i h));
    };
    whole = λ t. whole_sector t;
    small = w.stored.small;
    on_device = λ p h.
        subst (λ ss. get_or ss (p / 512) no_sector < v.after.device.size) (sym same)
          (omega (arith, v.same_size, w.stored.on_device p h));
  };
  apart = record {
    distinct = λ p q h k e. w.apart.distinct p q h k (sym (at p) ∙ e ∙ at q);
    off_indirect = λ p h e. w.apart.off_indirect p h (e ∙ at p);
    off_doubly = λ p h e. w.apart.off_doubly p h (e ∙ at p);
    off_second = λ p i h k e.
        w.apart.off_second p i h k (ap (λ (b : Sector). block_at b i) (sym table) ∙ e ∙ at p);
  };
}
  where
    at : (p : ℕ) → sector_at (update disk s new) idisk p ≡ sector_at disk idisk p
    at p = ap (λ ss. get_or ss (p / 512) no_sector) same

    whole_sector : (t : ℕ) → length (update disk s new t) ≡ 512
    whole_sector t = ground (arith, whole, w.stored.whole t)

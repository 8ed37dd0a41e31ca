-- ===== src/Fs/Inode/Table/Reopened.antt =====
-- What a3/fs/inode.c does with an inode that is opened twice.
use comp310_winter.Base.{ℕ, ◌≡◌, refl, Option, none, some, ◌∷◌, arith, false}
use comp310_winter.Fs.Block.{Sector}
use comp310_winter.Fs.Cache.{Cache, buffer_cache_read}
use comp310_winter.Fs.Inode.Reserve.{Store}
use comp310_winter.Fs.Inode.Table.{
  Inode, OpenInodes, find_inode, at_address, inode_open, inode_reopen, inode_close, inode_disk_of,
}

-- An inode that was not open and is opened twice is the same inode in memory, with one opener
-- counted: the first close frees it, and the close of the other opener uses what was freed. Its
-- sector can be read.
pub inode_close-reopened :
    {M : Type 0} (free_map_release : ℕ → Store M → Option (Store M)) (fresh other sector : ℕ)
    (t : OpenInodes M) (b : Sector) (c : Cache)
    → find_inode sector t.inodes ≡ none
    → at_address fresh t.inodes ≡ none
    → buffer_cache_read sector t.store.cache ≡ some (b, c)
    → (first second : OpenInodes M) × (inode_open fresh sector t ≡ some (fresh, first))
      × (inode_open other sector first ≡ some (fresh, first))
      × (inode_close free_map_release fresh first ≡ some second)
      × (second.inodes ≡ t.inodes)
      × (inode_close free_map_release fresh second ≡ none)
unfolding inode_open inode_reopen inode_close
inode_close-reopened {M} free_map_release fresh other sector t b c closed unused read = (
  first,
  record first { inodes = t.inodes },
  ground (arith, closed, read),
  ground arith,
  ground arith,
  refl,
  ground (arith, unused),
)
  where
    opened : Inode
    opened = record {
      address = fresh;
      sector = sector;
      open_cnt = 1;
      removed = false;
      deny_write_cnt = 0;
      contents = inode_disk_of b;
    }

    first : OpenInodes M
    first = record { inodes = opened ∷ t.inodes; store = record (t.store) { cache = c } }

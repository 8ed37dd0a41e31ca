-- ===== src/Fs/Block.antt =====
-- a3/fs/block.c: a block device of numbered sectors, with a check of the sector's number. The
-- driver behind `ops->read` and `ops->write` keeps what was written to each sector.
use comp310_winter.Base.{ℕ, ◌+◌, ◌==◌, ltb, Option, none, some, List, if◌then◌else◌}

-- The bytes of a sector.
abbrev pub Sector : Type 0
Sector = List ℕ

pub record Device : Type 0 where
  pub size : ℕ
  pub sectors : ℕ → Sector
  pub read_cnt : ℕ
  pub write_cnt : ℕ

-- The driver's write.
abbrev pub stored_at : (ℕ → Sector) → ℕ → Sector → ℕ → Sector
stored_at d s b t = if s == t then b else d t

-- `block_read`; `none` is the panic of `check_sector`.
unfoldable pub block_read : ℕ → Device → Option (Sector × Device)
block_read sector dev =
    if ltb sector dev.size
    then some (dev.sectors sector, record dev { read_cnt = dev.read_cnt + 1 })
    else none

-- `block_write`; `none` is the panic of `check_sector`.
unfoldable pub block_write : ℕ → Sector → Device → Option Device
block_write sector buffer dev =
    if ltb sector dev.size
    then some (record dev {
      sectors = stored_at dev.sectors sector buffer;
      write_cnt = dev.write_cnt + 1;
    })
    else none

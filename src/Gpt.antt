-- ===== src/Gpt.antt =====
-- `raw_partition` of drivers/gpt/gpt.cc: a window on the file handler of the disk. An offset with a sign
-- is `ahead` or `back`, of less than 2 ^ 63. Sizes are of 64 bits, and their sums and products wrap. `none` is the exception `einval`.
pub mod Window
use os_projet.Common.{
  ℕ, zero, suc, ◌+◌, ◌-◌, ◌*◌, Option, none, some, List, [], ◌∷◌, if◌then◌else◌, ltb, leb, ◌&&◌,
  ◌^◌, ◌%◌, length, take,
}
use os_projet.Cstring.Memory.{Bytes, write}

pub record Partition : Type 0 where
  pub start_lba : ℕ
  pub end_lba : ℕ
  pub blk_size : ℕ
  pub offset : ℕ

pub data Offset : Type 0 where
  ahead : ℕ → Offset
  back : ℕ → Offset

-- `(partinfo.end_lba + 1 - partinfo.start_lba)*partinfo.blk_size`, modulo 2 ^ 64; start_lba is below 2 ^ 64.
unfoldable pub limit : Partition → ℕ
limit p = (p.end_lba + 1 + (2 ^ 64 - p.start_lba)) % 2 ^ 64 * p.blk_size % 2 ^ 64

unfoldable pub seek_set : ℕ → Partition → Option Partition
unfolding limit
seek_set off p = if ltb 0 off && ltb off (limit p) then some (record p { offset = off }) else none

unfoldable pub seek_start : Offset → Partition → Option Partition
seek_start (ahead n) p = seek_set n p
seek_start (back n) p = none

-- An offset of 64 bits from 2 ^ 63 on is negative.
unfoldable pub seek_wrapped : ℕ → Partition → Option Partition
seek_wrapped off p = if ltb (off % 2 ^ 64) (2 ^ 63) then seek_set (off % 2 ^ 64) p else none

unfoldable pub seek_cur : Offset → Partition → Option Partition
seek_cur (ahead n) p = seek_wrapped (n + p.offset) p
seek_cur (back n) p = seek_wrapped (p.offset + (2 ^ 64 - n)) p

-- The last byte of the partition, modulo 2 ^ 64.
unfoldable pub last_byte : Partition → ℕ
last_byte p = (limit p + (2 ^ 64 - 1)) % 2 ^ 64

unfoldable pub seek_end : Offset → Partition → Option Partition
seek_end (ahead zero) p = some (record p { offset = last_byte p })
seek_end (ahead (suc n)) p = none
seek_end (back n) p =
    if leb n (last_byte p) then some (record p { offset = last_byte p - n }) else none

-- The address on the disk.
unfoldable pub address : Partition → ℕ
address p = (p.offset + p.start_lba * p.blk_size) % 2 ^ 64

-- The count that `read` and `write` cut down to the end of the partition.
unfoldable pub clip : ℕ → Partition → ℕ
unfolding limit
clip cnt p =
    if leb (limit p) ((p.offset + cnt) % 2 ^ 64)
    then (limit p + (2 ^ 64 - p.offset)) % 2 ^ 64
    else cnt

unfoldable pub bytes_at : ℕ → Bytes → ℕ → List ℕ
bytes_at zero m x = []
bytes_at (suc n) m x = m x ∷ bytes_at n m (x + 1)

unfoldable pub put_bytes : List ℕ → Bytes → ℕ → Bytes
put_bytes [] m x = m
put_bytes (b ∷ bs) m x = put_bytes bs (write m x b) (x + 1)

unfoldable pub read : ℕ → Partition → Bytes → List ℕ
read cnt p disk = bytes_at (clip cnt p) disk (address p)

unfoldable pub write_all : List ℕ → Partition → Bytes → Bytes
write_all buf p disk = put_bytes (take (clip (length buf) p) buf) disk (address p)

-- ===== src/Fat/Disk.antt =====
-- The file handler under the FAT file system, as a disk of bytes with a position: `seek`, and `read`
-- and `write` of little-endian numbers (the kernel runs on x86). A disk neither ends nor fails.
use os_projet.Common.{ℕ, zero, suc, ◌+◌, ◌-◌, ◌*◌, ◌/◌, ◌%◌}
use os_projet.Cstring.Memory.{Bytes, write}

pub record Disk : Type 0 where
  pub bytes : Bytes
  pub pos : ℕ

abbrev pub read_le : ℕ → Bytes → ℕ → ℕ
read_le zero m p = 0
read_le (suc n) m p = m p + 256 * read_le n m (p + 1)

abbrev pub write_le : ℕ → ℕ → Bytes → ℕ → Bytes
write_le zero v m p = m
write_le (suc n) v m p = write_le n (v / 256) (write m p (v % 256)) (p + 1)

-- `seek(p, SET)`
abbrev pub seek_set : ℕ → Disk → Disk
seek_set p d = record d { pos = p }

-- `seek(-n, CUR)`
abbrev pub seek_back : ℕ → Disk → Disk
seek_back n d = record d { pos = d.pos - n }

abbrev pub read : ℕ → Disk → ℕ × Disk
read n d = (read_le n d.bytes d.pos, record d { pos = d.pos + n })

abbrev pub write_number : ℕ → ℕ → Disk → Disk
write_number n v d = record { bytes = write_le n v d.bytes d.pos; pos = d.pos + n }

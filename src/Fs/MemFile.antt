-- ===== src/Fs/MemFile.antt =====
-- `_memf` of kernel/fs/memf.hh, a file in memory, and the wrapper `perm_fh` of kernel/fs/templates.hh that
-- gives a file its mode. A pointer is an address in one memory. An offset with a sign is a word, below
-- 2 ^ 63 where it is not negative; additions of offsets and sizes wrap.
pub mod Access
use os_projet.Common.{
  ℕ, ◌+◌, ◌-◌, ◌/◌, ◌%◌, ◌^◌, Bool, true, false, ◌&&◌, ◌==◌, Option, none, some, if◌then◌else◌, ltb,
  leb,
}
use os_projet.Cstring.Memory.{Bytes}
use os_projet.Cstring.{memcpy}
use os_projet.Fs.{Outcome, ok, failed, bind}

pub record MemFile : Type 0 where
  pub buffer : ℕ
  pub curr_offset : ℕ
  pub size : ℕ

-- `enum seekref`
pub data SeekRef : Type 0 where
  set cur end : SeekRef

pub data FileError : Type 0 where
  eperm einval : FileError

-- The bytes that a read or a write of s bytes moves.
unfoldable pub moved : MemFile → ℕ → ℕ
moved f s =
    if leb f.size f.curr_offset
    then 0
    else if leb f.size ((f.curr_offset + s) % 2 ^ 64)
    then f.size - f.curr_offset
    else s

unfoldable pub read : Bytes → MemFile → ℕ → ℕ → ℕ × MemFile × Bytes
read m f dst s =
    let n = moved f s in
    (n, record f { curr_offset = f.curr_offset + n }, memcpy n m dst (f.buffer + f.curr_offset))

unfoldable pub write : Bytes → MemFile → ℕ → ℕ → ℕ × MemFile × Bytes
write m f src s =
    let n = moved f s in
    (n, record f { curr_offset = f.curr_offset + n }, memcpy n m (f.buffer + f.curr_offset) src)

unfoldable pub seek_to : MemFile → ℕ → Outcome FileError (ℕ × MemFile)
seek_to f off =
    if ltb off (2 ^ 63) && leb off f.size
    then ok (off, record f { curr_offset = off })
    else failed einval

unfoldable pub seek : MemFile → ℕ → SeekRef → Outcome FileError (ℕ × MemFile)
seek f off set = seek_to f off
seek f off cur = seek_to f ((off + f.curr_offset) % 2 ^ 64)
seek f off end = seek_to f ((off + f.size) % 2 ^ 64)

-- `perm_fh` over a file of its own kind F. `RDONLY` is 1 and `WRONLY` 2. `none` is a file that is not seekable.
pub record RawFile (F : Type 0) : Type 0 where
  pub raw_read : Bytes → F → ℕ → ℕ → ℕ × F × Bytes
  pub raw_write : Bytes → F → ℕ → ℕ → ℕ × F × Bytes
  pub raw_seek : Option (F → ℕ → SeekRef → Outcome FileError (ℕ × F))

pub record PermFile (F : Type 0) : Type 0 where
  pub mode : ℕ
  pub raw_f : F

module _ {F : Type 0} (raw : RawFile F) where
  abbrev pub readable : ℕ → Bool
  readable mode = mode % 2 == 1

  abbrev pub writable : ℕ → Bool
  writable mode = mode / 2 % 2 == 1

  unfoldable pub perm_write :
      Bytes → PermFile F → ℕ → ℕ → Outcome FileError (ℕ × PermFile F × Bytes)
  perm_write m p buf count =
      let r = raw.raw_write m p.raw_f buf count in
      if writable p.mode then ok (r.0, record p { raw_f = r.1 }, r.2) else failed eperm

  unfoldable pub perm_read : Bytes → PermFile F → ℕ → ℕ → Outcome FileError (ℕ × PermFile F × Bytes)
  perm_read m p buf count =
      let r = raw.raw_read m p.raw_f buf count in
      if readable p.mode then ok (r.0, record p { raw_f = r.1 }, r.2) else failed eperm

  unfoldable pub perm_seek : PermFile F → ℕ → SeekRef → Outcome FileError (ℕ × PermFile F)
  perm_seek p offset whence = elim (raw.raw_seek) [
    | none ↦ failed einval
    | some seek ↦ bind (seek p.raw_f offset whence) (λ r. ok (r.0, record p { raw_f = r.1 }))
  ]

-- `using memfile = perm_fh<_memf>`
unfoldable pub memfile : RawFile MemFile
memfile = record { raw_read = read; raw_write = write; raw_seek = some seek }

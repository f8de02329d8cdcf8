-- ===== src/Fs/MemFile/Access.antt =====
-- A file in memory keeps what is written to it.
use os_projet.Common.{
  ℕ, ◌+◌, ◌-◌, ◌^◌, ◌≤◌, ◌<◌, ◌≡◌, refl, ◌∙◌, true, if◌then◌else◌, min, arith, ◌⊎◌,
}
use os_projet.Cstring.Memory.{Bytes}
use os_projet.Cstring.Block.{inside, memcpy_lem}
use os_projet.Fs.{Outcome, ok, bind}
use os_projet.Fs.MemFile.{
  MemFile, set, FileError, moved, read, write, seek, seek_to, PermFile, perm_read, perm_write,
  perm_seek, memfile, readable, writable,
}

-- The position is in the file or at its end.
pub record IsMemFile (f : MemFile) : Type 0 where
  pub within : f.curr_offset ≤ f.size
  pub small : f.size < 2 ^ 63

moved_lem :
    (f : MemFile) (s : ℕ)
    → IsMemFile f
    → f.curr_offset + s < 2 ^ 64
    → moved f s ≡ min s (f.size - f.curr_offset)
unfolding moved
moved_lem f s h fits = ground (arith, h.within)

-- What a read or a write of s bytes between the file and the block at p does, with the position where it ends.
pub record Accessed (f : MemFile) (s : ℕ) (r : ℕ × MemFile × Bytes) : Type 0 where
  pub count : r.0 ≡ min s (f.size - f.curr_offset)
  pub file : r.1 ≡ record f { curr_offset = f.curr_offset + r.0 }
  pub keeps : IsMemFile (r.1)

access_end :
    (f : MemFile) (n : ℕ)
    → IsMemFile f
    → n ≤ f.size - f.curr_offset
    → IsMemFile (record f { curr_offset = f.curr_offset + n })
access_end f n h le = record { within = omega (arith, h.within); small = h.small }

-- A write in order: the bytes go to the position, as many as fit into the file, and nothing else in memory changes.
write-Accessed :
    (m : Bytes) (f : MemFile) (src s : ℕ)
    → IsMemFile f
    → f.curr_offset + s < 2 ^ 64
    → (f.buffer + f.curr_offset ≤ src) ⊎ (src + s ≤ f.buffer + f.curr_offset)
    → Accessed f s (write m f src s)
      × ((x : ℕ)
          → (write m f src s).2 x ≡ (
              if inside (f.buffer + f.curr_offset) (min s (f.size - f.curr_offset)) x
              then m (src + (x - (f.buffer + f.curr_offset)))
              else m x))
unfolding write
write-Accessed m f src s h fits apart =
    let e = moved_lem f s h fits in
    (
      record { count = e; file = refl; keeps = access_end f (moved f s) h (omega (arith, e)) },
      λ x. rw e (
          memcpy_lem (min s (f.size - f.curr_offset)) m (f.buffer + f.curr_offset) src x
            (ground (arith, apart))),
    )

read-Accessed :
    (m : Bytes) (f : MemFile) (dst s : ℕ)
    → IsMemFile f
    → f.curr_offset + s < 2 ^ 64
    → (dst ≤ f.buffer + f.curr_offset) ⊎ (f.buffer + f.curr_offset + s ≤ dst)
    → Accessed f s (read m f dst s)
      × ((x : ℕ)
          → (read m f dst s).2 x ≡ (
              if inside dst (min s (f.size - f.curr_offset)) x
              then m (f.buffer + f.curr_offset + (x - dst))
              else m x))
unfolding read
read-Accessed m f dst s h fits apart =
    let e = moved_lem f s h fits in
    (
      record { count = e; file = refl; keeps = access_end f (moved f s) h (omega (arith, e)) },
      λ x. rw e (
          memcpy_lem (min s (f.size - f.curr_offset)) m dst (f.buffer + f.curr_offset) x
            (ground (arith, apart))),
    )

seek-set :
    (f : MemFile) (off : ℕ)
    → IsMemFile f
    → off ≤ f.size
    → seek f off set ≡ ok (off, record f { curr_offset = off })
unfolding seek seek_to
seek-set f off h le = ground (arith, h.small)

-- A write of s bytes from src, a seek back to where it started, and a read of what was written to dst.
abbrev pub write_and_read :
    Bytes → PermFile MemFile → ℕ → ℕ → ℕ → Outcome FileError (ℕ × PermFile MemFile × Bytes)
write_and_read m p src dst s = bind (perm_write memfile m p src s) (λ w.
    bind (perm_seek memfile w.1 (p.raw_f).curr_offset set) (λ k. perm_read memfile w.2 k.1 dst w.0))

abbrev pub Copied : Bytes → ℕ → ℕ → ℕ → ℕ × PermFile MemFile × Bytes → Type 0
Copied m src dst n r = (r.0 ≡ n) × ((i : ℕ) → i < n → r.2 (dst + i) ≡ m (src + i))

pub record Succeeds {A : Type 0} (P : A → Type 0) (r : Outcome FileError A) : Type 0 where
  pub value : A
  pub result : r ≡ ok value
  pub holds : P value

-- In a file in memory whose mode allows reads and writes, whatever its position: s bytes that are written
-- from src, up to the end of the file, are read back after a seek to the position before, with no exception
-- and the same count; the block of the source may not reach into the part of the file from above nor that
-- part into the block that is read into, and the position plus s stays below 2 ^ 64.
pub write_and_read-Copied :
    (m : Bytes) (p : PermFile MemFile) (src dst s : ℕ)
    → IsMemFile (p.raw_f)
    → readable memfile p.mode ≡ true
    → writable memfile p.mode ≡ true
    → (p.raw_f).curr_offset + s < 2 ^ 64
    → let at = (p.raw_f).buffer + (p.raw_f).curr_offset in
      let n = min s ((p.raw_f).size - (p.raw_f).curr_offset) in
      (at ≤ src) ⊎ (src + s ≤ at)
      → (dst ≤ at) ⊎ (at + s ≤ dst)
      → Succeeds (Copied m src dst n) (write_and_read m p src dst s)
unfolding perm_write perm_read perm_seek memfile
write_and_read-Copied m p src dst s h r w fits apart apart' =
    let f : MemFile = p.raw_f in
    let (written, kept) = write-Accessed m f src s h fits apart in
    let w1 = write m f src s in
    let n = min s (f.size - f.curr_offset) in
    let back : seek w1.1 f.curr_offset set ≡ ok (f.curr_offset, f) = rw (written.file) (
      seek-set (record f { curr_offset = f.curr_offset + w1.0 }) f.curr_offset
        (rw (written.file) at (written.keeps)) h.within) in
    let (fetched, moved_back) =
      read-Accessed w1.2 f dst w1.0 h (omega (arith, written.count))
        (ground (arith, apart', written.count)) in
    let r1 = read w1.2 f dst w1.0 in
    record {
      value = (r1.0, record p { raw_f = r1.1 }, r1.2);
      result = rw (w, back, r) refl;
      holds = (
        fetched.count ∙ ground (arith, written.count),
        λ i hi.
            moved_back (dst + i)
            ∙ ground (arith, written.count, kept (f.buffer + f.curr_offset + i)),
      );
    }

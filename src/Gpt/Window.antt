-- ===== src/Gpt/Window.antt =====
-- A partition never reaches outside its window of the disk.
use native.Mathlib.Nat.{mod-eq_of_lt}
use os_projet.Common.{
  ℕ, zero, suc, ◌+◌, ◌-◌, ◌*◌, ◌<◌, ◌≤◌, ◌≡◌, refl, Option, none, some, List, [], ◌∷◌,
  if◌then◌else◌, ltb, leb, ◌&&◌, length, take, arith, ◌⊎◌, inl, inr, Bool, true, false, Bool-cases,
  ◌^◌, ◌%◌, ap, ◌∙◌,
}
use os_projet.Cstring.Memory.{Bytes, write}
use os_projet.Gpt.{
  Partition, Offset, ahead, back, limit, seek_set, seek_start, seek_cur, seek_end, address, clip,
  put_bytes, write_all, seek_wrapped, last_byte,
}

put_bytes_apart :
    (bs : List ℕ) (m : Bytes) (a x : ℕ) → (x < a) ⊎ (a + length bs ≤ x) → put_bytes bs m a x ≡ m x
unfolding put_bytes
put_bytes_apart [] m a x h = refl
put_bytes_apart (b ∷ bs) m a x h = ground (arith, put_bytes_apart bs (write m a b) (a + 1) x)

length-take_le : (n : ℕ) (bs : List ℕ) → length (take n bs) ≤ n
length-take_le zero bs = omega arith
length-take_le (suc n) [] = omega arith
length-take_le (suc n) (b ∷ bs) = omega (arith, length-take_le n bs)

window_end : (s e b : ℕ) → s ≤ e → s * b + (e - s) * b ≡ e * b
window_end s e b h =
    let f : s + (e - s) ≡ e = omega arith in
    let g : s * b + (e - s) * b ≡ (s + (e - s)) * b = grind arith in rw f at g

limit_small : (p : Partition) → limit p < 2 ^ 64
unfolding limit
limit_small p = omega arith

clip_inside :
    (cnt : ℕ) (p : Partition)
    → p.offset < limit p
    → p.offset + cnt < 2 ^ 64
    → p.offset + clip cnt p ≤ limit p
unfolding clip
clip_inside cnt p h no_wrap = ground (arith, limit_small p)

-- The size of the partition, where it does not wrap.
limit_plain :
    (p : Partition)
    → p.start_lba ≤ p.end_lba
    → p.end_lba + 1 < 2 ^ 64
    → (p.end_lba + 1) * p.blk_size < 2 ^ 64
    → limit p ≡ (p.end_lba + 1 - p.start_lba) * p.blk_size
unfolding limit
limit_plain p h small fits =
    let n = p.end_lba + 1 - p.start_lba in
    let plain : (p.end_lba + 1 + (2 ^ 64 - p.start_lba)) % 2 ^ 64 ≡ n = omega arith in
    let e = window_end p.start_lba (p.end_lba + 1) p.blk_size (omega arith) in
    let below : n * p.blk_size < 2 ^ 64 = omega (arith, e, fits) in
    ap (λ k. k * p.blk_size % 2 ^ 64) plain ∙ mod-eq_of_lt below

-- A write to a partition whose blocks are in order and end below 2 ^ 64 bytes, whose offset is inside, and with
-- a count that does not wrap when it is added to the offset, changes no byte of the disk before the first or
-- after the last block of the partition.
pub write_all-inside :
    (buf : List ℕ) (p : Partition) (disk : Bytes) (x : ℕ)
    → p.start_lba ≤ p.end_lba
    → p.end_lba + 1 < 2 ^ 64
    → (p.end_lba + 1) * p.blk_size < 2 ^ 64
    → p.offset < limit p
    → p.offset + length buf < 2 ^ 64
    → (x < p.start_lba * p.blk_size) ⊎ ((p.end_lba + 1) * p.blk_size ≤ x)
    → write_all buf p disk x ≡ disk x
unfolding write_all
write_all-inside buf p disk x h small fits hp no_wrap hx =
    let n : ℕ = clip (length buf) p in
    let e = window_end p.start_lba (p.end_lba + 1) p.blk_size (omega arith) in
    let size = limit_plain p h small fits in
    let there : address p ≡ p.offset + p.start_lba * p.blk_size =
      unfold address in mod-eq_of_lt (omega (arith, hp, size, e, fits)) in
    put_bytes_apart (take n buf) disk (address p) x (
      ground
        (arith, length-take_le n buf, clip_inside (length buf) p hp no_wrap, e, size, there, hx))

-- What a seek may leave.
abbrev pub Inside : Partition → Option Partition → Type 0
Inside p none = Unit
Inside p (some q) = (q.offset < limit p) × (limit q ≡ limit p)

if-Inside :
    (p : Partition) (c : Bool) (q : Partition)
    → (c ≡ true → Inside p (some q))
    → Inside p (if c then some q else none)
if-Inside p true q h = h refl
if-Inside p false q h = tt

seek_set-Inside : (off : ℕ) (p : Partition) → Inside p (seek_set off p)
unfolding seek_set limit
seek_set-Inside off p =
    if-Inside p (ltb 0 off && ltb off (limit p)) (record p { offset = off })
      (λ c. (ground arith, refl))

seek_start-Inside : (off : Offset) (p : Partition) → Inside p (seek_start off p)
unfolding seek_start
seek_start-Inside (ahead n) p = seek_set-Inside n p
seek_start-Inside (back n) p = tt

seek_wrapped-Inside : (off : ℕ) (p : Partition) → Inside p (seek_wrapped off p)
unfolding seek_wrapped
seek_wrapped-Inside off p = elim (Bool-cases (ltb (off % 2 ^ 64) (2 ^ 63))) [
  | inl near ↦ rw near (seek_set-Inside (off % 2 ^ 64) p)
  | inr far ↦ rw far tt
]

seek_cur-Inside : (off : Offset) (p : Partition) → Inside p (seek_cur off p)
unfolding seek_cur
seek_cur-Inside (ahead n) p = seek_wrapped-Inside (n + p.offset) p
seek_cur-Inside (back n) p = seek_wrapped-Inside (p.offset + (2 ^ 64 - n)) p

last_byte_lem : (p : Partition) → 0 < limit p → last_byte p < limit p
unfolding last_byte
last_byte_lem p h = let small = limit_small p in omega (arith, small)

seek_end-Inside : (off : Offset) (p : Partition) → 0 < limit p → Inside p (seek_end off p)
unfolding seek_end limit
seek_end-Inside (ahead zero) p h = (last_byte_lem p h, refl)
seek_end-Inside (ahead (suc n)) p h = tt
seek_end-Inside (back n) p h =
    if-Inside p (leb n (last_byte p)) (record p { offset = last_byte p - n })
      (λ c. (let l = last_byte_lem p h in omega (arith, l), refl))

-- On a partition that is not empty, a seek of each kind that does not throw leaves the offset inside the
-- partition, and the partition as large as it was.
pub seek-Inside :
    (off : Offset) (p : Partition)
    → 0 < limit p
    → Inside p (seek_start off p) × Inside p (seek_cur off p) × Inside p (seek_end off p)
seek-Inside off p h = (seek_start-Inside off p, seek_cur-Inside off p, seek_end-Inside off p h)

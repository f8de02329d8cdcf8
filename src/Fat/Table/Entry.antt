-- ===== src/Fat/Table/Entry.antt =====
-- A FAT entry that was written is read back, and its neighbours keep their values.
use os_projet.Common.{
  ℕ, ◌+◌, ◌*◌, ◌/◌, ◌%◌, ◌^◌, ◌<◌, ◌≤◌, ◌≡◌, ◌≢◌, refl, Bool, true, false, arith, ◌⊎◌, inl, inr, ap,
}
use os_projet.Cstring.Memory.{Bytes, IsBytes}
use os_projet.Fat.Disk.{read_le, write_le}
use os_projet.Fat.Table.{
  FatType, fat12, fat16, fat32, wrap, fat_offset, decode, entry_bytes, odd, encode,
}

abbrev pub entry_bits : FatType → ℕ
entry_bits fat12 = 12
entry_bits fat16 = 16
entry_bits fat32 = 28

-- The value of the entry for the cluster c in the table that starts at b.
abbrev pub entry : FatType → ℕ → Bytes → ℕ → ℕ
entry t b m c = decode t (odd c) (read_le (entry_bytes t) m (b + fat_offset t c))

-- The bytes after the entry for c is written.
abbrev pub stored : FatType → ℕ → Bytes → ℕ → ℕ → Bytes
stored t b m c v =
    write_le (entry_bytes t) (encode t (odd c) v (read_le (entry_bytes t) m (b + fat_offset t c))) m
      (b + fat_offset t c)

read_bound :
    (t : FatType) (m : Bytes) (p : ℕ)
    → IsBytes m
    → read_le (entry_bytes t) m p < 2 ^ (8 * entry_bytes t)
unfolding entry_bytes
read_bound fat12 m p h = omega (arith, h p, h (p + 1))
read_bound fat16 m p h = omega (arith, h p, h (p + 1))
read_bound fat32 m p h = omega (arith, h p, h (p + 1), h (p + 1 + 1), h (p + 1 + 1 + 1))

encode_bound :
    (t : FatType) (o : Bool) (v old : ℕ)
    → old < 2 ^ (8 * entry_bytes t)
    → v < 2 ^ entry_bits t
    → encode t o v old < 2 ^ (8 * entry_bytes t)
unfolding encode entry_bytes
encode_bound fat12 true v old h hv = omega arith
encode_bound fat12 false v old h hv = omega arith
encode_bound fat16 o v old h hv = omega arith
encode_bound fat32 o v old h hv = omega arith

decode-encode :
    (t : FatType) (o : Bool) (v old : ℕ)
    → old < 2 ^ (8 * entry_bytes t)
    → v < 2 ^ entry_bits t
    → decode t o (encode t o v old) ≡ v
unfolding decode encode entry_bytes
decode-encode fat12 true v old h hv = omega arith
decode-encode fat12 false v old h hv = omega arith
decode-encode fat16 o v old h hv = refl
decode-encode fat32 o v old h hv = omega arith

-- Two bytes and four bytes, written and read back.
read_two : (m : Bytes) (p v : ℕ) → v < 2 ^ 16 → read_le 2 (write_le 2 v m p) p ≡ v
read_two m p v h = ground arith

read_four : (m : Bytes) (p v : ℕ) → v < 2 ^ 32 → read_le 4 (write_le 4 v m p) p ≡ v
read_four m p v h = ground arith

read-write :
    (t : FatType) (m : Bytes) (p v : ℕ)
    → v < 2 ^ (8 * entry_bytes t)
    → read_le (entry_bytes t) (write_le (entry_bytes t) v m p) p ≡ v
unfolding entry_bytes
read-write fat12 m p v h = read_two m p v h
read-write fat16 m p v h = read_two m p v h
read-write fat32 m p v h = read_four m p v h

pub entry-stored :
    (t : FatType) (b c v : ℕ) (m : Bytes)
    → IsBytes m
    → v < 2 ^ entry_bits t
    → entry t b (stored t b m c v) c ≡ v
entry-stored t b c v m hm h =
    let p = b + fat_offset t c in
    let old = read_le (entry_bytes t) m p in
    let small = read_bound t m p hm in
    rw (read-write t m p (encode t (odd c) v old) (encode_bound t (odd c) v old small h))
      (decode-encode t (odd c) v old small h)

-- Two and four bytes elsewhere.
read_two_apart :
    (m : Bytes) (p q v : ℕ)
    → (p + 2 ≤ q) ⊎ (q + 2 ≤ p)
    → read_le 2 (write_le 2 v m p) q ≡ read_le 2 m q
read_two_apart m p q v h = ground arith

read_four_apart :
    (m : Bytes) (p q v : ℕ)
    → (p + 4 ≤ q) ⊎ (q + 4 ≤ p)
    → read_le 4 (write_le 4 v m p) q ≡ read_le 4 m q
read_four_apart m p q v h = ground arith

-- The odd entry after an even one shares a byte with it, and the even entry before an odd one.
shared_after :
    (m : Bytes) (p v : ℕ)
    → IsBytes m
    → read_le 2 (write_le 2 (v % 2 ^ 12 + read_le 2 m p / 2 ^ 12 * 2 ^ 12) m p) (p + 1) / 16
      ≡ read_le 2 m (p + 1) / 16
shared_after m p v h = ground (arith, h p, h (p + 1), h (p + 1 + 1))

shared_before :
    (m : Bytes) (q v : ℕ)
    → IsBytes m
    → read_le 2 (write_le 2 (wrap (v * 16) + read_le 2 m (q + 1) % 16) m (q + 1)) q % 2 ^ 12
      ≡ read_le 2 m q % 2 ^ 12
shared_before m q v h = ground (arith, h q, h (q + 1), h (q + 1 + 1))

abbrev Apart : FatType → ℕ → ℕ → Type 0
Apart t c c' =
    (fat_offset t c + entry_bytes t ≤ fat_offset t c')
    ⊎ (fat_offset t c' + entry_bytes t ≤ fat_offset t c)

-- How two FAT12 entries can lie.
fat12_cases :
    (c c' : ℕ)
    → c ≢ c'
    → Apart fat12 c c' ⊎ (((odd c ≡ false) × (c' ≡ c + 1)) ⊎ ((odd c ≡ true) × (c ≡ c' + 1)))
unfolding fat_offset entry_bytes odd
fat12_cases c c' h = ground arith

entry12_apart :
    (b c c' v : ℕ) (m : Bytes)
    → IsBytes m
    → c ≢ c'
    → entry fat12 b (stored fat12 b m c v) c' ≡ entry fat12 b m c'
entry12_apart b c c' v m hm h = elim (fat12_cases c c' h) [
  | inl far ↦ ap (decode fat12 (odd c')) (
      unfold entry_bytes in
      read_two_apart m (b + fat_offset fat12 c) (b + fat_offset fat12 c') _
        (unfold entry_bytes in omega arith))
  | inr (inl (even, next)) ↦
      let o : odd c' ≡ true = unfold odd in ground arith in
      let q : b + fat_offset fat12 c' ≡ b + fat_offset fat12 c + 1 =
        unfold fat_offset odd in ground arith in
      rw (q, o, even)
        (unfold decode encode entry_bytes in shared_after m (b + fat_offset fat12 c) v hm)
  | inr (inr (is_odd, before)) ↦
      let o : odd c' ≡ false = unfold odd in ground arith in
      let q : b + fat_offset fat12 c ≡ b + fat_offset fat12 c' + 1 =
        unfold fat_offset odd in ground arith in
      rw (q, o, is_odd)
        (unfold decode encode entry_bytes in shared_before m (b + fat_offset fat12 c') v hm)
]

pub entry-stored_apart :
    (t : FatType) (b c c' v : ℕ) (m : Bytes)
    → IsBytes m
    → c ≢ c'
    → entry t b (stored t b m c v) c' ≡ entry t b m c'
entry-stored_apart fat12 b c c' v m hm h = entry12_apart b c c' v m hm h
entry-stored_apart fat16 b c c' v m hm h = ap (decode fat16 (odd c')) (
    unfold entry_bytes in
    read_two_apart m (b + fat_offset fat16 c) (b + fat_offset fat16 c') _
      (unfold fat_offset in omega arith))
entry-stored_apart fat32 b c c' v m hm h = ap (decode fat32 (odd c')) (
    unfold entry_bytes in
    read_four_apart m (b + fat_offset fat32 c) (b + fat_offset fat32 c') _
      (unfold fat_offset in omega arith))

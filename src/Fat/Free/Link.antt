-- ===== src/Fat/Free/Link.antt =====
-- `find_free_cluster` writes the link in every table and changes no other entry.
use os_projet.Common.{
  ℕ, zero, suc, ◌+◌, ◌*◌, ◌/◌, ◌%◌, ◌^◌, ◌<◌, ◌≤◌, ◌≡◌, ◌≢◌, refl, ◌&&◌, Option, some,
  if◌then◌else◌, ltb, leb, ◌==◌, arith, ap, sym, ◌∙◌, ◌⊎◌, inl, inr,
}
use native.Mathlib.Decide.{dec_lt, ℕ_discrete}
use os_projet.Cstring.Memory.{Bytes, IsBytes, write}
use os_projet.Fat.Disk.{Disk, read_le, write_le}
use os_projet.Fat.Table.{
  FatType, FatFileSystem, fat_offset, table_start, decode, entry_bytes, odd, write_fat_entry,
}
use os_projet.Fat.Table.Entry.{entry, entry_bits, stored, entry-stored, entry-stored_apart}
use os_projet.Fat.Table.RoundTrip.{write_fat_entry_lem}
use os_projet.Fat.Free.{link, link_all}

write_le-IsBytes : (n v : ℕ) (m : Bytes) (p : ℕ) → IsBytes m → IsBytes (write_le n v m p)
write_le-IsBytes zero v m p h = h
write_le-IsBytes (suc n) v m p h =
    write_le-IsBytes n (v / 256) (write m p (v % 256)) (p + 1) (λ x. ground (arith, h x))

-- Bytes outside what is written stay.
write_le_apart : (n v : ℕ) (m : Bytes) (p x : ℕ) → (x < p) ⊎ (p + n ≤ x) → write_le n v m p x ≡ m x
write_le_apart zero v m p x h = refl
write_le_apart (suc n) v m p x h =
    ground (arith, write_le_apart n (v / 256) (write m p (v % 256)) (p + 1) x)

read_le_apart :
    (k n v : ℕ) (m : Bytes) (p q : ℕ)
    → (q + k ≤ p) ⊎ (p + n ≤ q)
    → read_le k (write_le n v m p) q ≡ read_le k m q
read_le_apart zero n v m p q h = refl
read_le_apart (suc k) n v m p q h =
    ground (arith, write_le_apart n v m p q, read_le_apart k n v m p (q + 1))

stored-IsBytes : (t : FatType) (b c v : ℕ) (m : Bytes) → IsBytes m → IsBytes (stored t b m c v)
stored-IsBytes t b c v m h = write_le-IsBytes (entry_bytes t) _ m (b + fat_offset t c) h

-- A cluster number whose entry lies inside a table.
pub record InTable (s : FatFileSystem) (c : ℕ) : Type 0 where
  pub real : 2 ≤ c
  pub small : c < 2 ^ 32
  pub inside : fat_offset s.fat_type c + entry_bytes s.fat_type ≤ s.fat_sz * s.byts_per_sec

-- Table j starts j tables after the first.
table_start_lem :
    (s : FatFileSystem) (j : ℕ)
    → table_start s j ≡ table_start s 0 + j * (s.fat_sz * s.byts_per_sec)
unfolding table_start
table_start_lem s j = grind arith

tables_apart : (i j D : ℕ) → i < j → i * D + D ≤ j * D
tables_apart i j D h = grind arith

abbrev pub entry_at : FatFileSystem → Bytes → ℕ → ℕ → ℕ
entry_at s m j c = entry s.fat_type (table_start s j) m c

entry_at_apart :
    (s : FatFileSystem) (i j c c' v : ℕ) (m : Bytes)
    → InTable s c
    → InTable s c'
    → i ≢ j
    → entry_at s (stored s.fat_type (table_start s i) m c v) j c' ≡ entry_at s m j c'
entry_at_apart s i j c c' v m h h' ne =
    let t = s.fat_type in
    let D : ℕ = s.fat_sz * s.byts_per_sec in
    let k : ℕ = entry_bytes t in
    let p : ℕ = table_start s i + fat_offset t c in
    let q : ℕ = table_start s j + fat_offset t c' in
    let away : (q + k ≤ p) ⊎ (p + k ≤ q) = elim (dec_lt i j) [
      | yes below ↦ inr (
          omega
            (arith, table_start_lem s i, table_start_lem s j, tables_apart i j D below, h.inside))
      | no above ↦ inl (
          omega (
            arith,
            table_start_lem s i,
            table_start_lem s j,
            tables_apart j i D (omega arith),
            h'.inside,
          ))
    ] in
    ap (decode t (odd c')) (read_le_apart k k _ m p q away)

-- What writing one entry of table i does to all tables.
record Written (s : FatFileSystem) (i c v : ℕ) (d : Disk) (r : Option Disk) : Type 0 where
  pub final : Disk
  pub result : r ≡ some final
  pub bytes : IsBytes final.bytes
  pub reads :
      (j c' : ℕ)
      → InTable s c'
      → entry_at s final.bytes j c' ≡ (if j == i && c' == c then v else entry_at s d.bytes j c')

write-Written :
    (s : FatFileSystem) (i c v : ℕ) (d : Disk)
    → IsBytes d.bytes
    → InTable s c
    → table_start s i < 2 ^ 63
    → v < 2 ^ entry_bits s.fat_type
    → Written s i c v d (write_fat_entry s c v i d)
write-Written s i c v d hm h low hv =
    let t = s.fat_type in
    let b = table_start s i in
    let m : Bytes = stored t b d.bytes c v in
    record {
      final = record { bytes = m; pos = b + fat_offset t c + entry_bytes t };
      result = write_fat_entry_lem s i c v d (record { real = h.real; small = h.small; low = low });
      bytes = stored-IsBytes t b c v d.bytes hm;
      reads = λ j c' h'. elim (ℕ_discrete j i) [
        | no other ↦
            ground (arith, other, entry_at_apart s i j c c' v d.bytes h h' (λ e. other (sym e)))
        | yes same ↦ rw same (elim (ℕ_discrete c' c) [
          | yes it ↦ rw it (ground (arith, entry-stored t b c v d.bytes hm hv))
          | no apart ↦
              ground (arith, apart, entry-stored_apart t b c c' v d.bytes hm (λ e. apart (sym e)))
        ])
      ];
    }

-- The entry for c once the cluster found is linked after the last one, unless that is 0.
abbrev pub linked : FatFileSystem → ℕ → ℕ → ℕ → ℕ → ℕ
linked s last next c old =
    if c == next then s.last_cluster else if last == 0 then old else if c == last then next else old

-- The file system and the two clusters of a link.
pub record IsLink (s : FatFileSystem) (last next : ℕ) : Type 0 where
  pub next_in : InTable s next
  pub last_in : (last ≡ 0) ⊎ InTable s last
  pub next_fits : next < 2 ^ entry_bits s.fat_type
  pub last_fits : s.last_cluster < 2 ^ entry_bits s.fat_type
  pub low : table_start s s.num_fats < 2 ^ 63

low_start : (s : FatFileSystem) (i n : ℕ) → i ≤ n → table_start s i ≤ table_start s n
low_start s i n h =
    let f : i * (s.fat_sz * s.byts_per_sec) ≤ n * (s.fat_sz * s.byts_per_sec) = grind arith in
    omega (arith, table_start_lem s i, table_start_lem s n, f)

pub record Linked (s : FatFileSystem) (last next i n : ℕ) (d : Disk) (r : Option Disk)
    : Type 0 where
  pub final : Disk
  pub result : r ≡ some final
  pub bytes : IsBytes final.bytes
  pub reads :
      (j c : ℕ)
      → InTable s c
      → entry_at s final.bytes j c ≡ (
          if leb i j && ltb j (i + n)
          then linked s last next c (entry_at s d.bytes j c)
          else entry_at s d.bytes j c)

link-Linked :
    (s : FatFileSystem) (last next i : ℕ) (d : Disk)
    → IsBytes d.bytes
    → IsLink s last next
    → i < s.num_fats
    → Linked s last next i 1 d (link s last next i d)
link-Linked s last next i d hm h hi =
    let low : table_start s i < 2 ^ 63 =
      omega (arith, low_start s i s.num_fats (omega arith), h.low) in
    elim (h.last_in) [
      | inl first ↦
          let w = write-Written s i next s.last_cluster d hm h.next_in low h.last_fits in
          record {
            final = w.final;
            result = unfold link in ground (arith, first, w.result);
            bytes = w.bytes;
            reads = λ j c hc. ground (arith, first, w.reads j c hc);
          }
      | inr l ↦
          let w = write-Written s i last next d hm l low h.next_fits in
          let w' =
            write-Written s i next s.last_cluster w.final w.bytes h.next_in low h.last_fits in
          record {
            final = w'.final;
            result = unfold link in ground (arith, l.real, w.result, w'.result);
            bytes = w'.bytes;
            reads = λ j c hc. ground (arith, l.real, w.reads j c hc, w'.reads j c hc);
          }
    ]

link_all-suc :
    (s : FatFileSystem) (last next n i : ℕ) (d d' : Disk)
    → link s last next i d ≡ some d'
    → link_all s last next (suc n) i d ≡ link_all s last next n (suc i) d'
unfolding link_all
link_all-suc s last next n i d d' e = ground (arith, e)

pub link_all-Linked :
    (s : FatFileSystem) (last next n i : ℕ) (d : Disk)
    → IsBytes d.bytes
    → IsLink s last next
    → i + n ≤ s.num_fats
    → Linked s last next i n d (link_all s last next n i d)
link_all-Linked s last next zero i d hm h hi = record {
  final = d;
  result = unfold link_all in refl;
  bytes = hm;
  reads = λ j c hc. ground arith;
}
link_all-Linked s last next (suc n) i d hm h hi =
    let w = link-Linked s last next i d hm h (omega arith) in
    let w' = link_all-Linked s last next n (suc i) w.final w.bytes h (omega arith) in
    record {
      final = w'.final;
      result = link_all-suc s last next n i d w.final w.result ∙ w'.result;
      bytes = w'.bytes;
      reads = λ j c hc. ground (arith, w.reads j c hc, w'.reads j c hc);
    }

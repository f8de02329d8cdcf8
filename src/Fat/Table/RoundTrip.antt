-- ===== src/Fat/Table/RoundTrip.antt =====
-- `write_fat_entry` and `find_fat_entry` as reads and writes of one entry of a table.
use os_projet.Common.{
  ℕ, ◌+◌, ◌-◌, ◌*◌, ◌^◌, ◌<◌, ◌≤◌, ◌≡◌, ◌≢◌, refl, Option, none, some, arith, ap,
}
use os_projet.Cstring.Memory.{IsBytes}
use os_projet.Fat.Disk.{Disk, seek_set, write_number, read_le}
use os_projet.Fat.Table.{
  FatType, fat12, fat16, fat32, FatFileSystem, wrap, fat_offset, table_start,
  cluster_number_to_fat_entry_index, entry_bytes, odd, find_fat_entry, encode, write_here,
  write_fat_entry,
}
use os_projet.Fat.Table.Entry.{entry_bits, entry, stored, entry-stored, entry-stored_apart}

-- A cluster number with an entry, in a table that lies below 2 ^ 63.
pub record IsEntry (s : FatFileSystem) (fat_number c : ℕ) : Type 0 where
  pub real : 2 ≤ c
  pub small : c < 2 ^ 32
  pub low : table_start s fat_number < 2 ^ 63

-- The value that is read, without the disk.
abbrev pub value : Option (ℕ × Disk) → Option ℕ
value none = none
value (some (v, d)) = some v

offset_bound : (t : FatType) (c : ℕ) → fat_offset t c ≤ 4 * c
unfolding fat_offset
offset_bound fat12 c = omega arith
offset_bound fat16 c = omega arith
offset_bound fat32 c = omega arith

index_lem :
    (s : FatFileSystem) (n c : ℕ)
    → IsEntry s n c
    → cluster_number_to_fat_entry_index s c n ≡ some (table_start s n + fat_offset s.fat_type c)
index_lem s n c h =
    let e : wrap (fat_offset s.fat_type c + table_start s n)
        ≡ table_start s n + fat_offset s.fat_type c =
      omega (arith, offset_bound s.fat_type c, h.small, h.low) in
    unfold cluster_number_to_fat_entry_index in ground (arith, h.real, e)

pub find_fat_entry_lem :
    (s : FatFileSystem) (n c : ℕ) (d : Disk)
    → IsEntry s n c
    → value (find_fat_entry s c n d) ≡ some (entry s.fat_type (table_start s n) d.bytes c)
find_fat_entry_lem s n c d h = unfold find_fat_entry in ground (arith, index_lem s n c h)

abbrev after_write : FatType → ℕ → ℕ → ℕ → Disk → Disk
after_write t b c v d = record {
  bytes = stored t b d.bytes c v;
  pos = b + fat_offset t c + entry_bytes t;
}

write_here_lem :
    (t : FatType) (b c v : ℕ) (d : Disk)
    → write_here t (odd c) v (seek_set (b + fat_offset t c) d) ≡ after_write t b c v d
unfolding write_here entry_bytes
write_here_lem fat12 b c v d =
    let e : b + fat_offset fat12 c + 2 - 2 ≡ b + fat_offset fat12 c = omega arith in
    ap
      (λ x.
        write_number 2 (encode fat12 (odd c) v (read_le 2 d.bytes (b + fat_offset fat12 c)))
          (record { bytes = d.bytes; pos = x }))
      e
write_here_lem fat16 b c v d = unfold encode in refl
write_here_lem fat32 b c v d =
    let e : b + fat_offset fat32 c + 4 - 4 ≡ b + fat_offset fat32 c = omega arith in
    ap
      (λ x.
        write_number 4 (encode fat32 (odd c) v (read_le 4 d.bytes (b + fat_offset fat32 c)))
          (record { bytes = d.bytes; pos = x }))
      e

pub write_fat_entry_lem :
    (s : FatFileSystem) (n c v : ℕ) (d : Disk)
    → IsEntry s n c
    → write_fat_entry s c v n d ≡ some (after_write s.fat_type (table_start s n) c v d)
write_fat_entry_lem s n c v d h =
    unfold write_fat_entry in
    ground (arith, index_lem s n c h, write_here_lem s.fat_type (table_start s n) c v d)

-- What writing an entry does to the entries of its table.
pub record Sets (s : FatFileSystem) (n c v : ℕ) (d : Disk) (r : Option Disk) : Type 0 where
  pub final : Disk
  pub result : r ≡ some final
  pub read_back : value (find_fat_entry s c n final) ≡ some v
  pub others :
      (c' : ℕ)
      → IsEntry s n c'
      → c ≢ c'
      → value (find_fat_entry s c' n final) ≡ value (find_fat_entry s c' n d)

-- In each FAT format, for cluster numbers from 2 up to 2 ^ 32 and a table below 2 ^ 63, an entry that was
-- written with a value that fits is read back as that value, and every other entry of the table reads
-- as before, also where two FAT12 entries share a byte.
pub write_fat_entry-Sets :
    (s : FatFileSystem) (n c v : ℕ) (d : Disk)
    → IsBytes d.bytes
    → IsEntry s n c
    → v < 2 ^ entry_bits s.fat_type
    → Sets s n c v d (write_fat_entry s c v n d)
write_fat_entry-Sets s n c v d hm h hv =
    let t = s.fat_type in
    let b = table_start s n in
    let d' : Disk = after_write t b c v d in
    record {
      final = d';
      result = write_fat_entry_lem s n c v d h;
      read_back = rw (find_fat_entry_lem s n c d' h, entry-stored t b c v d.bytes hm hv) refl;
      others = λ c' h' other.
          rw
            (
              find_fat_entry_lem s n c' d' h',
              find_fat_entry_lem s n c' d h',
              entry-stored_apart t b c c' v d.bytes hm other,
            )
            refl;
    }

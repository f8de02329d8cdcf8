-- ===== src/Fat/Free/Finds.antt =====
-- What `find_free_cluster` returns and what it writes.
use os_projet.Common.{
  ℕ, ◌+◌, ◌*◌, ◌^◌, ◌<◌, ◌≤◌, ◌≡◌, ◌≢◌, refl, Option, some, arith, ap, sym, ◌∙◌, ◌⊎◌,
}
use native.Mathlib.Decide.{ℕ_discrete}
use os_projet.Cstring.Memory.{Bytes, IsBytes}
use os_projet.Fat.Disk.{Disk, seek_set}
use os_projet.Fat.Table.{FatFileSystem, table_start, entry_bytes}
use os_projet.Fat.Table.Entry.{entry_bits}
use os_projet.Fat.Free.{scan, link_all, find_free_cluster}
use os_projet.Fat.Free.First.{FirstFree, IsPlain, scan_start, bytes-scan}
use os_projet.Fat.Free.Link.{InTable, IsLink, entry_at, linked, Linked, link_all-Linked}

pub record Finds (s : FatFileSystem) (last : ℕ) (d : Disk) (r : Option (ℕ × Disk)) : Type 0 where
  pub cluster : ℕ
  pub final : Disk
  pub result : r ≡ some (cluster, final)
  pub first : FirstFree s.fat_type (table_start s 0) d.bytes s.number_of_fat_entries 0 cluster
  pub full : cluster ≡ 0 → final.bytes ≡ d.bytes
  pub reads :
      cluster ≢ 0
      → (j c : ℕ) → j < s.num_fats
      → InTable s c
      → entry_at s final.bytes j c ≡ linked s last cluster c (entry_at s d.bytes j c)

-- A file system of a plain format whose tables hold the entries that it counts, and whose two reserved
-- entries are in use.
pub record IsSearchable (s : FatFileSystem) (last : ℕ) (m : Bytes) : Type 0 where
  pub plain : IsPlain s.fat_type
  pub reserved0 : entry_at s m 0 0 ≢ 0
  pub reserved1 : entry_at s m 0 1 ≢ 0
  pub room : s.number_of_fat_entries * entry_bytes s.fat_type ≤ s.fat_sz * s.byts_per_sec
  pub entries :
      (s.number_of_fat_entries ≤ 2 ^ 32) × (s.number_of_fat_entries ≤ 2 ^ entry_bits s.fat_type)
  pub last_in : (last ≡ 0) ⊎ InTable s last
  pub last_fits : s.last_cluster < 2 ^ entry_bits s.fat_type
  pub low : table_start s s.num_fats < 2 ^ 63

start_lem : (s : FatFileSystem) → table_start s 0 ≡ s.rsvd_sec_cnt * s.byts_per_sec
unfolding table_start
start_lem s = ap (λ x. x * s.byts_per_sec) (omega arith)

below_end : (r n k : ℕ) → r < n → r * k + k ≤ n * k
below_end r n k h = grind arith

found_full :
    (s : FatFileSystem) (last : ℕ) (d d' : Disk)
    → scan s.fat_type s.number_of_fat_entries 0 (seek_set (s.rsvd_sec_cnt * s.byts_per_sec) d)
      ≡ (0, d')
    → find_free_cluster s last d ≡ some (0, d')
unfolding find_free_cluster
found_full s last d d' e = ground (arith, e)

found_linked :
    (s : FatFileSystem) (last r : ℕ) (d d' d'' : Disk)
    → scan s.fat_type s.number_of_fat_entries 0 (seek_set (s.rsvd_sec_cnt * s.byts_per_sec) d)
      ≡ (r, d')
    → r ≢ 0
    → link_all s last r s.num_fats 0 d' ≡ some d''
    → find_free_cluster s last d ≡ some (r, d'')
unfolding find_free_cluster
found_linked s last r d d' d'' e h e' = ground (arith, e, e')

-- For FAT16 and FAT32, where the tables hold the entries that are counted, cluster numbers and the mark
-- for the last cluster fit into an entry, the tables lie below 2 ^ 63, the two reserved entries are in
-- use and the given cluster is 0 or has an entry: of the entries that the file system counts, which are one for each
-- 4 bytes of a table and so the first half of a FAT16 table, the search returns the first one
-- that is 0 in the first table, marks it in every table as the last of its chain, links the given cluster to it
-- unless that is 0, and changes no other entry; where none of the entries counted is 0 it returns 0 and changes
-- nothing.
pub find_free_cluster-Finds :
    (s : FatFileSystem) (last : ℕ) (d : Disk)
    → IsBytes d.bytes
    → IsSearchable s last d.bytes
    → Finds s last d (find_free_cluster s last d)
find_free_cluster-Finds s last d hm h =
    let t = s.fat_type in
    let n : ℕ = s.number_of_fat_entries in
    let at_start : Disk = seek_set (s.rsvd_sec_cnt * s.byts_per_sec) d in
    let r : ℕ = (scan t n 0 at_start).0 in
    let d' : Disk = (scan t n 0 at_start).1 in
    let same : d'.bytes ≡ d.bytes = bytes-scan t n 0 at_start in
    let first : FirstFree t (table_start s 0) d.bytes n 0 r =
      scan_start t (table_start s 0) n at_start h.plain (sym (start_lem s)) h.reserved0 in
    elim (ℕ_discrete r 0) [
      | yes none_free ↦ record {
        cluster = r;
        final = d';
        result =
            found_full s last d d' (ap (λ x. (x, d')) none_free)
            ∙ ap (λ x. some (x, d')) (sym none_free);
        first = first;
        full = λ e. same;
        reads = λ e. absurd (e none_free);
      }
      | no some_free ↦
          let f = first.found some_free in
          let below : r < n = omega (arith, f.1) in
          let beyond : r ≢ 1 = λ e. h.reserved1 (rw e at (f.2)) in
          let next_in : InTable s r = record {
            real = omega arith;
            small = omega (arith, below, h.entries.0);
            inside = omega (arith, h.plain r, below_end r n (entry_bytes t) below, h.room);
          } in
          let is_link : IsLink s last r = record {
            next_in = next_in;
            last_in = h.last_in;
            next_fits = omega (arith, below, h.entries.1);
            last_fits = h.last_fits;
            low = h.low;
          } in
          let w : Linked s last r 0 s.num_fats d' (link_all s last r s.num_fats 0 d') =
            link_all-Linked s last r s.num_fats 0 d' (rw same hm) is_link (omega arith) in
          record {
            cluster = r;
            final = w.final;
            result = found_linked s last r d d' w.final refl some_free w.result;
            first = first;
            full = λ e. absurd (some_free e);
            reads = λ e j c hj hc. ground (arith, w.reads j c hc, ap (λ m. entry_at s m j c) same);
          }
    ]

-- ===== src/Fat/Free.antt =====
-- `find_free_cluster` of drivers/fat/fat_fs.cc, which also links the cluster that it finds.
pub mod First
pub mod Link
pub mod Finds
use os_projet.Common.{ℕ, zero, suc, ◌+◌, ◌*◌, Option, none, some, if◌then◌else◌, ◌==◌}
use os_projet.Fat.Disk.{Disk, seek_set, read}
use os_projet.Fat.Table.{FatType, FatFileSystem, decode, entry_bytes, odd, write_fat_entry}

-- The loop over the first table, on the number of rounds left: it reads one entry after the other, for
-- FAT12 as for FAT16 two bytes each, and stops at the first that is 0. Without one it answers 0.
unfoldable pub scan : FatType → ℕ → ℕ → Disk → ℕ × Disk
scan t zero i d = (0, d)
scan t (suc n) i d =
    let (x, d') = read (entry_bytes t) d in
    let rest = scan t n (suc i) d' in if decode t (odd i) x == 0 then (i, d') else rest

-- One round of the loop over the tables.
unfoldable pub link : FatFileSystem → ℕ → ℕ → ℕ → Disk → Option Disk
link s last next i d = elim (if last == 0 then some d else write_fat_entry s last next i d) [
  | none ↦ none
  | some d' ↦ write_fat_entry s next s.last_cluster i d'
]

-- `for (int i = 0; i < BPB_NumFATs; i++)`, on the number of rounds left.
unfoldable pub link_all : FatFileSystem → ℕ → ℕ → ℕ → ℕ → Disk → Option Disk
unfolding link
link_all s last next zero i d = some d
link_all s last next (suc n) i d = elim (link s last next i d) [
  | none ↦ none
  | some d' ↦ link_all s last next n (suc i) d'
]

unfoldable pub find_free_cluster : FatFileSystem → ℕ → Disk → Option (ℕ × Disk)
find_free_cluster s last d =
    let start = s.rsvd_sec_cnt * s.byts_per_sec in
    let (next, d') = scan s.fat_type s.number_of_fat_entries 0 (seek_set start d) in
    if next == 0
    then some (0, d')
    else (elim (link_all s last next s.num_fats 0 d') [ none ↦ none | some d'' ↦ some (next, d'') ])

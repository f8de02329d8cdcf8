-- ===== src/Fat/Table.antt =====
-- drivers/fat/fat_fs.cc: the entries of the file allocation tables and the addresses of clusters.
-- `none` is the exception for an invalid cluster number. Masks and shifts of numbers are remainders and
-- quotients; an `|` of numbers without a bit in common is their sum.
pub mod Entry
pub mod RoundTrip
pub mod Clusters
use os_projet.Common.{
  ℕ, zero, suc, ◌+◌, ◌-◌, ◌*◌, ◌/◌, ◌%◌, ◌^◌, Bool, true, false, not, Option, none, some,
  if◌then◌else◌, ltb, leb, ◌==◌,
}
use os_projet.Fat.Disk.{Disk, seek_set, seek_back, read, write_number}

pub data FatType : Type 0 where
  fat12 fat16 fat32 : FatType

-- The members of `FAT_FileSystem` that the constructor fills in from the disk.
pub record FatFileSystem : Type 0 where
  pub fat_sz : ℕ
  pub fat_type : FatType
  pub rsvd_sec_cnt : ℕ
  pub sec_per_clus : ℕ
  pub byts_per_sec : ℕ
  pub root_ent_cnt : ℕ
  pub num_fats : ℕ
  pub root_clus : ℕ
  pub cluster_size : ℕ
  pub number_of_entries_per_cluster : ℕ
  pub number_of_clusters : ℕ
  pub number_of_fat_entries : ℕ
  pub root_directory_begin : Option ℕ
  pub first_data_sector : ℕ
  pub bad_cluster : ℕ
  pub last_cluster : ℕ

abbrev pub wrap : ℕ → ℕ
wrap x = x % 2 ^ 64

unfoldable pub cluster_number_to_address : FatFileSystem → ℕ → Option ℕ
cluster_number_to_address s c =
    if ltb c 2
    then none
    else some (wrap (((c - 2) * s.sec_per_clus + s.first_data_sector) * s.byts_per_sec))

-- `FAT_Offset`
unfoldable pub fat_offset : FatType → ℕ → ℕ
fat_offset fat12 c = c + c / 2
fat_offset fat16 c = c * 2
fat_offset fat32 c = c * 4

-- Where a table starts on the disk.
unfoldable pub table_start : FatFileSystem → ℕ → ℕ
table_start s fat_number = (s.rsvd_sec_cnt + fat_number * s.fat_sz) * s.byts_per_sec

unfoldable pub cluster_number_to_fat_entry_index : FatFileSystem → ℕ → ℕ → Option ℕ
unfolding fat_offset table_start
cluster_number_to_fat_entry_index s c fat_number =
    if ltb c 2 then none else some (wrap (fat_offset s.fat_type c + table_start s fat_number))

-- The entry in the bytes read for it. `odd`: the cluster number is odd.
unfoldable pub decode : FatType → Bool → ℕ → ℕ
decode fat12 odd x = if odd then x / 16 else x % 2 ^ 12
decode fat16 odd x = x
decode fat32 odd x = x % 2 ^ 28

unfoldable pub entry_bytes : FatType → ℕ
entry_bytes fat12 = 2
entry_bytes fat16 = 2
entry_bytes fat32 = 4

unfoldable pub odd : ℕ → Bool
odd c = c % 2 == 1

unfoldable pub find_fat_entry : FatFileSystem → ℕ → ℕ → Disk → Option (ℕ × Disk)
unfolding decode entry_bytes odd
find_fat_entry s c fat_number d = elim (cluster_number_to_fat_entry_index s c fat_number) [
  | none ↦ none
  | some i ↦
      let (x, d') = read (entry_bytes s.fat_type) (seek_set i d) in
      some (decode s.fat_type (odd c) x, d')
]

-- What `write_fat_entry` writes for an entry, from the bytes that were there.
unfoldable pub encode : FatType → Bool → ℕ → ℕ → ℕ
encode fat12 odd v old =
    if odd then wrap (v * 16) + old % 16 else v % 2 ^ 12 + old / 2 ^ 12 * 2 ^ 12
encode fat16 odd v old = v
encode fat32 odd v old = v % 2 ^ 28 + old / 2 ^ 28 * 2 ^ 28

-- `write_fat_entry` once the handler is at the entry. A FAT16 entry is written without being read.
unfoldable pub write_here : FatType → Bool → ℕ → Disk → Disk
unfolding encode
write_here fat12 odd v d =
    let (old, d') = read 2 d in write_number 2 (encode fat12 odd v old) (seek_back 2 d')
write_here fat16 odd v d = write_number 2 v d
write_here fat32 odd v d =
    let (old, d') = read 4 d in write_number 4 (encode fat32 odd v old) (seek_back 4 d')

unfoldable pub write_fat_entry : FatFileSystem → ℕ → ℕ → ℕ → Disk → Option Disk
unfolding write_here odd
write_fat_entry s c v fat_number d = elim (cluster_number_to_fat_entry_index s c fat_number) [
  | none ↦ none
  | some i ↦ some (write_here s.fat_type (odd c) v (seek_set i d))
]

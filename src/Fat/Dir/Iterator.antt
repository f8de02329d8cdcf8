-- ===== src/Fat/Dir/Iterator.antt =====
-- The state of `FAT_dir_iterator` and its methods push, pop, depth, `operator[]` and open_file. The
-- stack has its top first. `first_cluster_of_current_directory` is an `unsigned short`.
use os_projet.Common.{
  ℕ, ◌+◌, ◌-◌, ◌*◌, ◌/◌, ◌%◌, ◌^◌, Bool, true, false, ◌||◌, none, some, List, [], ◌∷◌,
  if◌then◌else◌, ltb, ◌==◌, length, get_elem?, map,
}
use os_projet.Cstring.Memory.{Bytes}
use os_projet.Fat.Disk.{Disk, read_le, seek_set}
use os_projet.Fat.Table.{FatType, fat32, FatFileSystem, cluster_number_to_address}
use os_projet.Fat.File.{File}
use os_projet.Fs.{Status, dir_entry, file_entry, np, Outcome, ok, failed, out_of_fuel}
use os_projet.Fat.Dir.{
  Copy, DirError, stack_overflow, stack_underflow, out_of_bounds, not_found, is_directory,
  invalid_cluster, Search, found, absent, thrown, exhausted, start, find, find_in_clusters,
}

-- `struct FAT_dir_entry`, without the times, the short name and `DIR_NTRes`.
pub record DirEntry : Type 0 where
  pub attr : ℕ
  pub first_cluster_hi : ℕ
  pub first_cluster_lo : ℕ
  pub file_size : ℕ

unfoldable pub read_entry : Bytes → ℕ → DirEntry
read_entry m p = record {
  attr = m (p + 11);
  first_cluster_hi = read_le 2 m (p + 20);
  first_cluster_lo = read_le 2 m (p + 26);
  file_size = read_le 4 m (p + 28);
}

unfoldable pub first_cluster : DirEntry → ℕ
first_cluster e = e.first_cluster_lo + e.first_cluster_hi * 2 ^ 16

-- `DIR_Attr & ATTR_DIRECTORY`
abbrev pub names_directory : DirEntry → Bool
names_directory e = e.attr / 16 % 2 == 1

-- `struct FAT_dir_entry_with_full_name`
pub record Level : Type 0 where
  pub dir_entry : DirEntry
  pub full_name : List ℕ
  pub address : ℕ

pub record DirIterator : Type 0 where
  pub stack : List Level
  pub stack_size : ℕ
  pub short_file_name_counter : ℕ
  pub first_cluster_here : ℕ

unfoldable pub open_root : FatFileSystem → ℕ → DirIterator
open_root s stack_size = record {
  stack = [];
  stack_size = stack_size;
  short_file_name_counter = 0;
  first_cluster_here = s.root_clus % 2 ^ 16;
}

unfoldable pub depth : DirIterator → ℕ
depth it = length it.stack

abbrev pub is_fat32 : FatType → Bool
is_fat32 fat32 = true
is_fat32 _ = false

-- `FATType == FAT32 || stack_pointer > 0`
abbrev pub in_clusters : FatFileSystem → DirIterator → Bool
in_clusters s it = is_fat32 s.fat_type || ltb 0 (length it.stack)

-- The root directory of FAT12 and FAT16, whose address the constructor has set for these.
unfoldable pub find_in_root : Copy → FatFileSystem → (ℕ → Bytes) → List ℕ → Disk → Search
find_in_root c s junk target d = elim (s.root_directory_begin) [
  | none ↦ thrown invalid_cluster
  | some a ↦ find c d.bytes target s.root_ent_cnt a (start (junk 0))
]

-- Both loops, with the checks of the copy for clusters and of the copy for the root.
unfoldable pub search :
    Copy → Copy → ℕ → FatFileSystem → (ℕ → Bytes) → DirIterator → List ℕ → Disk → Search
search in_cluster in_root f s junk it target d =
    if in_clusters s it
    then find_in_clusters in_cluster f s junk target it.first_cluster_here d
    else find_in_root in_root s junk target d

abbrev pub push_cluster_copy : Copy
push_cluster_copy = record {
  needs_mark = true;
  denies_mark = true;
  notes_name = true;
  always_sums = false;
}

abbrev pub push_root_copy : Copy
push_root_copy = record {
  needs_mark = false;
  denies_mark = false;
  notes_name = true;
  always_sums = false;
}

abbrev pub open_cluster_copy : Copy
open_cluster_copy = record {
  needs_mark = true;
  denies_mark = false;
  notes_name = true;
  always_sums = false;
}

abbrev pub open_root_copy : Copy
open_root_copy = record {
  needs_mark = true;
  denies_mark = false;
  notes_name = false;
  always_sums = true;
}

-- What a method returns; an exception is a value.
abbrev pub DirResult {ℓ} : Type ℓ → Type ℓ
DirResult A = Outcome DirError A

-- The directory found at p is put on the stack.
unfoldable pub enter : List ℕ → ℕ → Bytes → DirIterator → DirIterator
enter target p m it =
    let e = read_entry m p in
    record it {
      stack = record { dir_entry = e; full_name = target; address = p } ∷ it.stack;
      first_cluster_here = first_cluster e % 2 ^ 16;
    }

unfoldable pub push :
    ℕ
    → FatFileSystem
    → (ℕ → Bytes)
    → DirIterator
    → List ℕ
    → Disk
    → DirResult (Status × DirIterator × Disk)
push f s junk it target d =
    let result : DirResult (Status × DirIterator × Disk) =
      elim (search push_cluster_copy push_root_copy f s junk it target d) [
        | found p d' ↦
            if names_directory (read_entry d.bytes p)
            then ok (dir_entry, enter target p d.bytes it, d')
            else ok (file_entry, it, record d' { pos = p + 32 })
        | absent d' ↦ ok (np, it, d')
        | thrown e ↦ failed e
        | exhausted ↦ out_of_fuel
      ] in
    if length it.stack == it.stack_size then failed stack_overflow else result

-- The directory that the top of the stack names, or the root.
unfoldable pub current_cluster : FatFileSystem → List Level → ℕ
unfolding first_cluster
current_cluster s [] = s.root_clus % 2 ^ 16
current_cluster s (l ∷ ls) = first_cluster l.dir_entry % 2 ^ 16

unfoldable pub pop : FatFileSystem → DirIterator → DirResult DirIterator
pop s it = elim (it.stack) [
  | [] ↦ failed stack_underflow
  | l ∷ ls ↦ ok (record it { stack = ls; first_cluster_here = current_cluster s ls })
]

-- `operator[]` counts from the bottom.
unfoldable pub name_at : DirIterator → ℕ → DirResult (List ℕ)
name_at it index =
    if ltb index (length it.stack)
    then (elim (get_elem? it.stack (length it.stack - 1 - index)) [
      | none ↦ failed out_of_bounds
      | some l ↦ ok l.full_name
    ])
    else failed out_of_bounds

-- The names on the stack, the last one first.
abbrev pub path : DirIterator → List (List ℕ)
path it = map (λ l. l.full_name) it.stack

-- `new file(…)`: the constructor of `FAT_file` seeks to the first cluster, if there is one.
unfoldable pub new_file : FatFileSystem → DirEntry → ℕ → Disk → DirResult (File × Disk)
new_file s e p d =
    let c = first_cluster e in
    let file : File = record {
      position = 0;
      within_cluster = 0;
      cluster = c;
      file_size = e.file_size;
      first_cluster = c;
      entry_address = p;
    } in
    let sought : DirResult (File × Disk) = elim (cluster_number_to_address s c) [
      | none ↦ failed invalid_cluster
      | some a ↦ ok (file, seek_set a d)
    ] in
    if c == 0 then ok (file, d) else sought

unfoldable pub open_file :
    ℕ → FatFileSystem → (ℕ → Bytes) → DirIterator → List ℕ → Disk → DirResult (File × Disk)
open_file f s junk it target d =
    elim (search open_cluster_copy open_root_copy f s junk it target d) [
      | found p d' ↦
          let e = read_entry d.bytes p in
          if names_directory e then failed is_directory else new_file s e p d'
      | absent d' ↦ failed not_found
      | thrown e ↦ failed e
      | exhausted ↦ out_of_fuel
    ]

-- ===== src/Fat/Dir.antt =====
-- `FAT_dir_iterator` of drivers/fat/fat_dir_iterator.cc: how a directory is searched for a name. Push,
-- open_file and list have the loop over the entries twice each, for a directory in clusters and for the
-- root directory of FAT12 and FAT16; `Copy` has the checks in which the six copies differ.
-- The buffer for a long name starts with a terminator and holds before what is a parameter; a name is
-- the list of its bytes. An entry of a long name with the number 0 makes the source write in front of
-- the buffer, where the model stops with `stray_write`.
pub mod Iterator
pub mod Listing
pub mod Names
pub mod Chain
pub mod Lookup
pub mod Ends
pub mod Stack
pub mod Enter
pub mod Paths
use os_projet.Common.{
  ℕ, zero, suc, ◌+◌, ◌-◌, ◌*◌, ◌/◌, ◌%◌, Bool, true, false, not, ◌&&◌, ◌||◌, Option, none, some,
  List, [], ◌∷◌, if◌then◌else◌, leb, ◌==◌,
}
use os_projet.Cstring.Memory.{Bytes, write}
use os_projet.Fat.Disk.{Disk, read_le, seek_set}
use os_projet.Fat.Table.{FatFileSystem, find_fat_entry, cluster_number_to_address}

pub data DirError : Type 0 where
  corrupted_entry not_marked_last marked_last out_of_sequence checksum_mismatch : DirError
  name_too_long stray_write unterminated stack_overflow stack_underflow : DirError
  out_of_bounds not_found is_directory empty_directory invalid_cluster : DirError

-- What one copy of the loop checks: that the first entry of a long name is marked as the last one, that
-- no later one is, whether the copy notes that there is a long name, and whether it compares checksums
-- without asking for one.
pub record Copy : Type 0 where
  pub needs_mark : Bool
  pub denies_mark : Bool
  pub notes_name : Bool
  pub always_sums : Bool

-- The variables of the loop; `none` is -1.
pub record Scan : Type 0 where
  pub name : Bytes
  pub left : Option ℕ
  pub checksum : Option ℕ
  pub there_is_long_name : Bool

unfoldable pub start : Bytes → Scan
start junk = record {
  name = write junk 0 0;
  left = none;
  checksum = none;
  there_is_long_name = false;
}

-- What an entry leads to: the next one, the end of the directory, or a use of the entry.
pub data Slot : Type 0 where
  next : Scan → Slot
  end : Slot
  entry : Scan → Slot
  throw : DirError → Slot

-- `for (j …) { if (cnt >= 256) throw …; if (Name[j] == 0xFFFF) break; buffer[cnt++] = Name[j]; }`
unfoldable pub add_chars : ℕ → Bytes → ℕ → ℕ → Bytes → Option (ℕ × Bytes)
add_chars zero m p cnt name = some (cnt, name)
add_chars (suc n) m p cnt name =
    let v = read_le 2 m p in
    let rest = add_chars n m (p + 2) (cnt + 1) (write name cnt (v % 256)) in
    if leb 256 cnt then none else if v == 0xFFFF then some (cnt, name) else rest

-- The three parts of the name in the entry at p.
unfoldable pub add_name : Bytes → ℕ → ℕ → Bytes → Option Bytes
add_name m p cnt name = elim (add_chars 5 m (p + 1) cnt name) [
  | none ↦ none
  | some (cnt1, name1) ↦ (elim (add_chars 6 m (p + 14) cnt1 name1) [
    | none ↦ none
    | some (cnt2, name2) ↦ (elim (add_chars 2 m (p + 28) cnt2 name2) [
      | none ↦ none
      | some (cnt3, name3) ↦ some name3
    ])
  ])
]

-- The entry's part goes into the buffer, at the place that its number gives.
unfoldable pub put_name : Bytes → ℕ → ℕ → Scan → Slot
put_name m p number s =
    if number == 0 then throw stray_write else (elim (add_name m p ((number - 1) * 13) s.name) [
      | none ↦ throw name_too_long
      | some name ↦ next (record s { name = name; left = some (number - 1) })
    ])

abbrev pub same_sum : Option ℕ → ℕ → Bool
same_sum none sum = false
same_sum (some c) sum = c == sum

-- An entry of a long name, with `LDIR_Ord` first and `LDIR_Chksum` at 13.
unfoldable pub lfn_slot : Copy → Bytes → ℕ → Scan → Slot
lfn_slot c m p s =
    let marked = m p / 64 % 2 == 1 in
    let begun = record s {
      checksum = some (m (p + 13));
      there_is_long_name = c.notes_name || s.there_is_long_name;
    } in
    (elim (s.left) [
      | none ↦
          if c.needs_mark && not marked
          then throw not_marked_last
          else put_name m p (m p % 32) begun
      | some number ↦
          if c.denies_mark && marked
          then throw marked_last
          else if not (number == m p)
          then throw out_of_sequence
          else if not (same_sum s.checksum (m (p + 13)))
          then throw checksum_mismatch
          else put_name m p number s
    ])

-- `checksum = ((checksum & 1) ? 0x80 : 0) + (checksum >> 1) + DIR_Name[j]`
unfoldable pub name_sum : ℕ → Bytes → ℕ → ℕ → ℕ
name_sum zero m p sum = sum
name_sum (suc n) m p sum =
    name_sum n m (p + 1) (((if sum % 2 == 1 then 128 else 0) + sum / 2 + m p) % 256)

unfoldable pub dir_slot : Copy → Bytes → ℕ → Scan → Slot
dir_slot c m p s =
    let s1 = record s { left = none } in
    let wrong = not (same_sum s.checksum (name_sum 11 m p 0)) in
    if m p == 0xE5
    then next s1
    else if m p == 0
    then end
    else if (c.always_sums || s.there_is_long_name) && wrong
    then throw checksum_mismatch
    else entry (record s1 { there_is_long_name = false })

abbrev pub attr_long_name : ℕ
attr_long_name = 15

-- `number_of_LFN_entries > 0`
abbrev pub more_left : Option ℕ → Bool
more_left none = false
more_left (some n) = not (n == 0)

abbrev pub none_left : Option ℕ → Bool
none_left none = false
none_left (some n) = n == 0

-- One round for the entry at p.
unfoldable pub slot : Copy → Bytes → ℕ → Scan → Slot
slot c m p s =
    let long = m (p + 11) == attr_long_name in
    if more_left s.left && not long || long && none_left s.left
    then throw corrupted_entry
    else if long
    then lfn_slot c m p s
    else dir_slot c m p s

-- `strcmp(found_directory_Name, …) == 0`
unfoldable pub matches : Bytes → ℕ → List ℕ → Bool
matches m i [] = m i == 0
matches m i (x ∷ xs) = m i == x && matches m (i + 1) xs

pub data Search : Type 0 where
  found : ℕ → Disk → Search
  absent : Disk → Search
  thrown : DirError → Search
  exhausted : Search

-- The loop over n entries from p on.
unfoldable pub find : Copy → Bytes → List ℕ → ℕ → ℕ → Scan → Search
find c m target zero p s = absent (record { bytes = m; pos = p })
find c m target (suc n) p s = elim (slot c m p s) [
  | next s' ↦ find c m target n (p + 32) s'
  | end ↦ absent (record { bytes = m; pos = p + 32 })
  | throw e ↦ thrown e
  | entry s' ↦ (elim (matches s'.name 0 target) [
    | true ↦ found p (record { bytes = m; pos = p })
    | false ↦ find c m target n (p + 32) s'
  ])
]

-- `next_cluster >= fat_fs->LAST_CLUSTER || next_cluster == 0`
abbrev pub ends_chain : FatFileSystem → ℕ → Bool
ends_chain s c = leb s.last_cluster c || c == 0

-- A directory in clusters, on fuel for the clusters of its chain; `junk` is what the buffer holds.
unfoldable pub find_in_clusters :
    Copy → ℕ → FatFileSystem → (ℕ → Bytes) → List ℕ → ℕ → Disk → Search
find_in_clusters c zero s junk target cluster d = exhausted
find_in_clusters c (suc f) s junk target cluster d =
    let on : Search = elim (find_fat_entry s cluster 0 d) [
      | none ↦ thrown invalid_cluster
      | some (cluster', d') ↦
          let rest = find_in_clusters c f s junk target cluster' d' in
          if ends_chain s cluster' then absent d' else rest
    ] in
    (elim (cluster_number_to_address s cluster) [
      | none ↦ thrown invalid_cluster
      | some a ↦ (elim (find c d.bytes target s.number_of_entries_per_cluster a (start (junk f))) [
        | found p d' ↦ found p d'
        | absent d' ↦ on
        | thrown e ↦ thrown e
        | exhausted ↦ exhausted
      ])
    ])

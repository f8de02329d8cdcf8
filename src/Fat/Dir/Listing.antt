-- ===== src/Fat/Dir/Listing.antt =====
-- `FAT_dir_iterator::list`. A token is a name, whether it is a directory, and a size.
use os_projet.Common.{
  ℕ, zero, suc, ◌+◌, ◌-◌, ◌^◌, Bool, true, false, ◌||◌, Option, none, some, List, [], ◌∷◌,
  if◌then◌else◌, ◌==◌,
}
use os_projet.Cstring.Memory.{Bytes}
use os_projet.Fat.Disk.{Disk}
use os_projet.Fat.Table.{FatFileSystem, find_fat_entry, cluster_number_to_address}
use os_projet.Fat.Dir.{
  Copy, empty_directory, invalid_cluster, unterminated, next, end, entry, throw, Scan, slot, start,
  ends_chain, matches,
}
use os_projet.Fs.{ok, failed, out_of_fuel, Token}
use os_projet.Fat.Dir.Iterator.{DirIterator, DirResult, read_entry, names_directory, in_clusters}

-- `basic_string(found_directory_Name)`: `none` where the buffer of n more bytes has no terminator, and
-- the source reads on.
unfoldable pub c_string : ℕ → Bytes → ℕ → Option (List ℕ)
c_string zero m i = none
c_string (suc n) m i =
    let rest : Option (List ℕ) = elim (c_string n m (i + 1)) [
      | none ↦ none
      | some xs ↦ some (m i ∷ xs)
    ] in
    if m i == 0 then some [] else rest

-- `.`, `..` and the empty name are left out.
unfoldable pub skipped : Bytes → Bool
skipped name = matches name 0 (46 ∷ []) || matches name 0 (46 ∷ 46 ∷ []) || matches name 0 []

-- A token in front of those before, for the entry at p.
unfoldable pub add_token : Bytes → ℕ → Bytes → List Token → DirResult (List Token)
add_token m p name tokens =
    let e = read_entry m p in
    let added : DirResult (List Token) = elim (c_string 256 name 0) [
      | none ↦ failed unterminated
      | some text ↦ ok (
          record { name = text; is_directory = names_directory e; file_size = e.file_size }
          ∷ tokens)
    ] in
    if skipped name then ok tokens else added

-- The loop over n entries from p on.
unfoldable pub collect : Copy → Bytes → ℕ → ℕ → Scan → List Token → DirResult (List Token)
collect c m zero p s tokens = ok tokens
collect c m (suc n) p s tokens = elim (slot c m p s) [
  | next s' ↦ collect c m n (p + 32) s' tokens
  | end ↦ ok tokens
  | throw e ↦ failed e
  | entry s' ↦ (elim (add_token m p s'.name tokens) [
    | ok tokens' ↦ collect c m n (p + 32) s' tokens'
    | failed e ↦ failed e
    | out_of_fuel ↦ out_of_fuel
  ])
]

-- The token in front is copied without its size, which becomes -1.
unfoldable pub finish : List Token → DirResult (List Token)
finish [] = failed empty_directory
finish (t ∷ ts) = ok (record t { file_size = 2 ^ 64 - 1 } ∷ ts)

abbrev pub list_cluster_copy : Copy
list_cluster_copy = record {
  needs_mark = true;
  denies_mark = false;
  notes_name = true;
  always_sums = false;
}

abbrev pub list_root_copy : Copy
list_root_copy = record {
  needs_mark = true;
  denies_mark = false;
  notes_name = false;
  always_sums = true;
}

unfoldable pub list_in_clusters :
    ℕ → FatFileSystem → (ℕ → Bytes) → ℕ → Disk → List Token → DirResult (List Token)
list_in_clusters zero s junk cluster d tokens = out_of_fuel
list_in_clusters (suc f) s junk cluster d tokens =
    let on : List Token → DirResult (List Token) = λ tokens'. elim (find_fat_entry s cluster 0 d) [
      | none ↦ failed invalid_cluster
      | some (cluster', d') ↦
          let rest = list_in_clusters f s junk cluster' d' tokens' in
          if ends_chain s cluster' then finish tokens' else rest
    ] in
    (elim (cluster_number_to_address s cluster) [
      | none ↦ failed invalid_cluster
      | some a ↦
          (elim (collect list_cluster_copy d.bytes s.number_of_entries_per_cluster a
            (start (junk f)) tokens) [
              | ok tokens' ↦ on tokens'
              | failed e ↦ failed e
              | out_of_fuel ↦ out_of_fuel
            ])
    ])

unfoldable pub list_in_root : FatFileSystem → (ℕ → Bytes) → Disk → DirResult (List Token)
list_in_root s junk d = elim (s.root_directory_begin) [
  | none ↦ failed invalid_cluster
  | some a ↦ (elim (collect list_root_copy d.bytes s.root_ent_cnt a (start (junk 0)) []) [
    | ok tokens ↦ finish tokens
    | failed e ↦ failed e
    | out_of_fuel ↦ out_of_fuel
  ])
]

unfoldable pub list : ℕ → FatFileSystem → (ℕ → Bytes) → DirIterator → Disk → DirResult (List Token)
list f s junk it d =
    if in_clusters s it
    then list_in_clusters f s junk it.first_cluster_here d []
    else list_in_root s junk d

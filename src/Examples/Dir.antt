-- ===== src/Examples/Dir.antt =====
-- The search of a directory on a FAT16 disk whose root directory has a deleted entry and then the
-- directory `cat`, with its long name.
use os_projet.Common.{
  some, none, inl, ◌+◌, ◌*◌, ◌≤◌, ◌<◌, ◌^◌, ℕ, ◌-◌, List, [], ◌∷◌, refl, ◌≡◌, ltb, if◌then◌else◌,
  arith, get_or,
}
use os_projet.Cstring.Memory.{Bytes}
use os_projet.Fat.Disk.{Disk}
use os_projet.Fat.Dir.{start, slot, dir_slot, name_sum, find, found}
use os_projet.Fs.{Settles, dir_entry, ok}
use os_projet.Fat.Dir.Iterator.{
  DirIterator, push, push_root_copy, depth, enter, current_cluster, read_entry,
}
use os_projet.Fat.Dir.Names.{IsName}
use os_projet.Fat.Dir.Chain.{Stored}
use os_projet.Fat.Dir.Lookup.{find-Stored}
use os_projet.Fat.Dir.Enter.{IsListed, here, over_next, push-IsListed}
use os_projet.Fat.Dir.Stack.{IsIterator, PushedOn, push-PushedOn}
use os_projet.Fat.Dir.Paths.{AllEnd}
use native.Mathlib.Decide.{dec_lt}
use os_projet.Fat.Table.{
  FatFileSystem, find_fat_entry, cluster_number_to_fat_entry_index, fat_offset, table_start, decode,
  entry_bytes,
}
use os_projet.Examples.Fat

abbrev pub system : FatFileSystem
system = record Fat.system { root_directory_begin = some 200000 }

abbrev entries : List ℕ
entries =
    229 ∷ 0 ∷ 0 ∷ 0 ∷ 0 ∷ 0 ∷ 0 ∷ 0 ∷ 0 ∷ 0 ∷ 0 ∷ 0 ∷ 0 ∷ 0 ∷ 0 ∷ 0 ∷ 0 ∷ 0 ∷ 0 ∷ 0 ∷ 0 ∷ 0 ∷ 0 ∷ 0
    ∷ 0 ∷ 0 ∷ 0 ∷ 0 ∷ 0 ∷ 0 ∷ 0 ∷ 0 ∷ 65 ∷ 99 ∷ 0 ∷ 97 ∷ 0 ∷ 116 ∷ 0 ∷ 0 ∷ 0 ∷ 255 ∷ 255 ∷ 15 ∷ 0
    ∷ 195 ∷ 255 ∷ 255 ∷ 255 ∷ 255 ∷ 255 ∷ 255 ∷ 255 ∷ 255 ∷ 255 ∷ 255 ∷ 255 ∷ 255 ∷ 0 ∷ 0 ∷ 255
    ∷ 255 ∷ 255 ∷ 255 ∷ 67 ∷ 65 ∷ 84 ∷ 32 ∷ 32 ∷ 32 ∷ 32 ∷ 32 ∷ 32 ∷ 32 ∷ 32 ∷ 16 ∷ 0 ∷ 0 ∷ 0 ∷ 0
    ∷ 0 ∷ 0 ∷ 0 ∷ 0 ∷ 0 ∷ 0 ∷ 0 ∷ 0 ∷ 0 ∷ 0 ∷ 5 ∷ 0 ∷ 0 ∷ 0 ∷ 0 ∷ 0 ∷ []

abbrev pub bytes : Bytes
bytes x = if ltb x 200000 then 0 else get_or entries (x - 200000) 0

abbrev pub disk : Disk
disk = record { bytes = bytes; pos = 0 }

abbrev pub cat : List ℕ
cat = 99 ∷ 97 ∷ 116 ∷ []

abbrev pub junk : Bytes
junk x = 7

cat-IsName : IsName cat
cat-IsName i h = ground arith

cat_stored : Stored bytes 200032 cat 1 195 1
unfolding name_sum
cat_stored = (
  record {
    number = refl;
    attr = refl;
    checksum = refl;
    part = record {
      name1 = (refl, (refl, (refl, (refl, (refl, tt)))));
      name2 = (refl, (refl, (refl, (refl, (refl, (refl, tt))))));
      name3 = (refl, (refl, tt));
    };
  },
  record { in_use = (omega arith, omega arith); attr = omega arith; checksum = refl },
)

find-Stored_example :
    find push_root_copy bytes cat 15 200032 (start junk)
    ≡ found 200064 (record { bytes = bytes; pos = 200064 })
unfolding start
find-Stored_example =
    find-Stored push_root_copy bytes 200032 cat 1 195 15 (start junk) cat-IsName refl (omega arith)
      (omega arith) refl cat_stored

abbrev pub iterator : DirIterator
iterator = record {
  stack = [];
  stack_size = 8;
  short_file_name_counter = 0;
  first_cluster_here = 0;
}

listed : IsListed push_root_copy bytes junk cat 16 200000
unfolding slot dir_slot start
listed = record {
  before = 1;
  parts = 1;
  sum = 195;
  scan = start junk;
  passes = over_next refl here;
  between = refl;
  name = cat-IsName;
  number = refl;
  short_enough = omega arith;
  stored = cat_stored;
  room = omega arith;
}

push-IsListed_example :
    push 1 system (λ i. junk) iterator cat disk
    ≡ ok (dir_entry, enter cat 200064 bytes iterator, record { bytes = bytes; pos = 200064 })
unfolding read_entry listed
push-IsListed_example =
    push-IsListed 0 system (λ i. junk) iterator cat disk 200000 (unfold depth in omega arith) refl
      listed

pub iterator-IsIterator : IsIterator system iterator
iterator-IsIterator = record {
  fits = unfold depth in omega arith;
  here = unfold current_cluster in refl;
}

-- The first table is empty: no chain goes on.
entry_of :
    (c : ℕ)
    → 2 ≤ c
    → c < 2 ^ 16
    → find_fat_entry system c 0 (record { bytes = bytes; pos = 0 })
      ≡ some (0, record { bytes = bytes; pos = c * 2 + 512 + 2 })
unfolding find_fat_entry cluster_number_to_fat_entry_index fat_offset table_start decode entry_bytes
entry_of c low high = ground arith

no_entry : (c : ℕ) → c < 2 → find_fat_entry system c 0 (record { bytes = bytes; pos = 0 }) ≡ none
unfolding find_fat_entry cluster_number_to_fat_entry_index
no_entry c low = ground arith

pub all_end : AllEnd 1 system bytes
all_end c h = elim (dec_lt c 2) [
  | yes low ↦ rw (no_entry c low) tt
  | no other ↦ rw (entry_of c (omega arith) h) (inl refl)
]

push-PushedOn_example :
    Settles (PushedOn system iterator cat bytes) (push 1 system (λ i. junk) iterator cat disk)
push-PushedOn_example =
    push-PushedOn 1 system (λ i. junk) iterator cat disk iterator-IsIterator
      (λ e. all_end 0 (omega arith))

-- ===== src/Examples/Fs.antt =====
-- The wrapped FAT iterator on the disk with the directory `cat`, a root file system that has it mounted
-- at `/fat`, and a file in memory.
use os_projet.Common.{ℕ, List, [], ◌∷◌, refl, some, none, arith, inl, inr}
use os_projet.Cstring.Memory.{Bytes}
use os_projet.Fat.Disk.{Disk}
use os_projet.Fat.File.{File}
use os_projet.Fat.Dir.{DirError}
use os_projet.Fat.Dir.Iterator.{DirIterator, path}
use os_projet.Fat.Dir.Paths.{raw_iterator, raw_iterator-IsPathStack, Prints, dit-Prints}
use os_projet.Fs.{Yields, Settles, ok}
use os_projet.Fs.Coherent.{feed, feed_all, get_canonical_path, list}
use os_projet.Fs.Coherent.Refines.{Steps, feed-PathStep, AreTexts, IsText}
use os_projet.Fs.MemFile.{MemFile, PermFile}
use os_projet.Fs.MemFile.Access.{Copied, Succeeds, write_and_read, write_and_read-Copied}
use os_projet.Fs.Rootfs.{MntEntry, no_mounts, Indirection, mount}
use os_projet.Fs.Rootfs
use os_projet.Fs.Rootfs.Mounts.{Mounts, mount-Mounts}
use os_projet.Fs.Rootfs.Walks.{Walks, IsWalk, feed-Walks}
use os_projet.Examples.Dir.{system, all_end, bytes, disk, junk, iterator, iterator-IsIterator, cat}

cat-IsText : IsText cat
cat-IsText = (omega arith, (omega arith, (omega arith, tt)))

feed-PathStep_example :
    Settles
      (Steps (raw_iterator-IsPathStack 1 system (λ i. junk) bytes all_end) (iterator, disk) cat)
      (feed (raw_iterator 1 system (λ i. junk)) cat (iterator, disk))
feed-PathStep_example =
    feed-PathStep (raw_iterator-IsPathStack 1 system (λ i. junk) bytes all_end) cat (iterator, disk)
      (iterator-IsIterator, refl) cat-IsText

-- `cat`, `.` and `..`
abbrev there_and_back : List (List ℕ)
there_and_back = cat ∷ (46 ∷ []) ∷ (46 ∷ 46 ∷ []) ∷ []

there_and_back-AreTexts : AreTexts there_and_back
there_and_back-AreTexts = (cat-IsText, ((omega arith, tt), ((omega arith, (omega arith, tt)), tt)))

dit-Prints_example :
    Settles
      (Prints 1 system (λ i. junk) there_and_back (path iterator))
      (feed_all (raw_iterator 1 system (λ i. junk)) there_and_back (iterator, disk))
dit-Prints_example =
    dit-Prints 1 system (λ i. junk) there_and_back iterator disk iterator-IsIterator all_end
      there_and_back-AreTexts

-- A file of 8 bytes at 100, at position 5.
abbrev memory : Bytes
memory x = x

abbrev file : PermFile MemFile
file = record { mode = 3; raw_f = record { buffer = 100; curr_offset = 5; size = 8 } }

write_and_read-Copied_example :
    Succeeds (Copied memory 10 20 3) (write_and_read memory file 10 20 4)
write_and_read-Copied_example =
    write_and_read-Copied memory file 10 20 4 (record { within = omega arith; small = omega arith })
      refl refl (omega arith) (inr (omega arith)) (inl (omega arith))

abbrev fat_path : List ℕ
fat_path = 47 ∷ 102 ∷ 97 ∷ 116 ∷ []

abbrev volume : DirIterator × Disk
volume = (iterator, disk)

mount-Mounts_example :
    Mounts {E = DirError} no_mounts volume fat_path (mount no_mounts volume fat_path)
unfolding no_mounts Rootfs.lookup_mnt Rootfs.lookup_from
mount-Mounts_example = mount-Mounts DirError no_mounts volume fat_path refl refl

abbrev ops : Rootfs.DirIterator DirError (DirIterator × Disk) File
ops = record {
  feed = feed (raw_iterator 1 system (λ i. junk));
  canonical_path = get_canonical_path (raw_iterator 1 system (λ i. junk));
  open_at = λ str d. ok (none, d);
  tokens = list (raw_iterator 1 system (λ i. junk));
}

abbrev mnts : List (MntEntry (DirIterator × Disk))
mnts = record { fsys = some volume; mountpath = fat_path } ∷ []

abbrev walk : List (Indirection (DirIterator × Disk))
walk = record { di = volume; offset = 0 } ∷ []

walk-IsWalk : IsWalk ops (λ v. v) mnts walk
walk-IsWalk = record {
  fits = omega arith;
  mounted = (record { volume = volume; mountpath = fat_path; here = refl; named = refl }, tt);
}

feed-Walks_example :
    Yields (Walks ops (λ v. v) mnts cat walk) (Rootfs.feed ops (λ v. v) mnts cat walk)
feed-Walks_example = feed-Walks ops (λ v. v) mnts cat walk walk-IsWalk

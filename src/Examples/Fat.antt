-- ===== src/Examples/Fat.antt =====
-- The FAT model on a FAT16 disk with two tables of one sector and nothing allocated.
use os_projet.Common.{◌-◌, refl, false, inl, some, if◌then◌else◌, ltb, leb, ◌&&◌, arith, min}
use os_projet.Cstring.Memory.{IsBytes}
use os_projet.Fat.Disk.{Disk}
use os_projet.Fat.Table.{
  FatFileSystem, fat12, fat16, write_fat_entry, fat_offset, entry_bytes, decode, odd, table_start,
}
use os_projet.Fat.Table.RoundTrip.{Sets, IsEntry, write_fat_entry-Sets}
use os_projet.Fat.Table.Clusters.{Separate, cluster_number_to_address-Separate}
use os_projet.Fat.Free.{find_free_cluster}
use os_projet.Fat.Free.Finds.{Finds, IsSearchable, find_free_cluster-Finds}
use os_projet.Fat.Mount.{
  BootSector, mount, geometry, root_begin, refusal, mount16, by_clusters, clusters16,
}
use os_projet.Fat.Mount.Checked.{IsLaidOut, mount-IsLaidOut}
use os_projet.Fat.File.{File, read, set_position}
use os_projet.Fat.File.Read.{Answers, Holds, IsRead, read-Reads}
use os_projet.Fat.File.Seek.{Places, set_position-Places}

abbrev pub system : FatFileSystem
system = record {
  fat_sz = 1;
  fat_type = fat16;
  rsvd_sec_cnt = 1;
  sec_per_clus = 1;
  byts_per_sec = 512;
  root_ent_cnt = 16;
  num_fats = 2;
  root_clus = 0;
  cluster_size = 512;
  number_of_entries_per_cluster = 16;
  number_of_clusters = 5000;
  number_of_fat_entries = 128;
  root_directory_begin = some 1536;
  first_data_sector = 4;
  bad_cluster = 0xFFF7;
  last_cluster = 0xFFFF;
}

abbrev disk : Disk
disk = record { bytes = λ x. if leb 512 x && ltb x 516 then 255 else 0; pos = 0 }

disk-IsBytes : IsBytes (disk.bytes)
disk-IsBytes x = ground arith

second : IsEntry system 0 2
second = record { real = omega arith; small = omega arith; low = unfold table_start in omega arith }

write_fat_entry-Sets_example : Sets system 0 2 7 disk (write_fat_entry system 2 7 0 disk)
write_fat_entry-Sets_example =
    write_fat_entry-Sets system 0 2 7 disk disk-IsBytes second (omega arith)

cluster_number_to_address-Separate_example : Separate system 2 9
cluster_number_to_address-Separate_example =
    cluster_number_to_address-Separate system 2 9 refl (omega arith) (omega arith) (omega arith)
      (omega arith)

searchable : IsSearchable system 0 (disk.bytes)
unfolding fat_offset entry_bytes decode odd table_start
searchable = record {
  plain = λ i. refl;
  reserved0 = λ e. omega (arith, e);
  reserved1 = λ e. omega (arith, e);
  room = omega arith;
  entries = (omega arith, omega arith);
  last_in = inl refl;
  last_fits = omega arith;
  low = omega arith;
}

find_free_cluster-Finds_example : Finds system 0 disk (find_free_cluster system 0 disk)
find_free_cluster-Finds_example = find_free_cluster-Finds system 0 disk disk-IsBytes searchable

abbrev floppy : BootSector
floppy = record {
  byts_per_sec = 512;
  sec_per_clus = 1;
  rsvd_sec_cnt = 1;
  num_fats = 2;
  root_ent_cnt = 224;
  tot_sec16 = 2880;
  fat_sz16 = 9;
  tot_sec32 = 0;
  fat_sz32 = 0;
  fs_ver = 0;
  root_clus = 0;
  bk_boot_sec = 0;
  reserved0 = 0;
  reserved1 = 0;
  reserved2 = 0;
}

mount-IsLaidOut_example :
    IsLaidOut (geometry floppy fat12 9 2861 0 (root_begin floppy) 0x0FF7 0x0FFF)
unfolding mount refusal mount16 by_clusters clusters16
mount-IsLaidOut_example =
    mount-IsLaidOut floppy (geometry floppy fat12 9 2861 0 (root_begin floppy) 0x0FF7 0x0FFF) refl

abbrev opened : File
opened = record {
  position = 0;
  within_cluster = 0;
  cluster = 2;
  file_size = 700;
  first_cluster = 2;
  entry_address = 1536;
}

read-Reads_example :
    Answers false
      (IsRead system opened disk (min 300 (700 - 0)))
      (read false system 300 opened disk)
read-Reads_example =
    read-Reads false system 300 opened disk (omega arith) (omega arith) (omega arith) (omega arith)
      (omega arith) (omega arith)

set_position-Places_example : Holds (Places system 300 opened) (set_position system 300 opened disk)
set_position-Places_example = set_position-Places system 300 opened disk (omega arith)

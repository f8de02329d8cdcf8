-- ===== src/Fat/Mount.antt =====
-- The constructor of `FAT_FileSystem` in drivers/fat/fat_fs.cc. The boot sector is a record of the fields
-- that the constructor reads. Numbers of sectors are `uint32_t` and wrap around; products that would
-- overflow an `int` are undefined in the source and exact here. The root directory's address is not
-- set for FAT32. A number of sectors per cluster of 0 divides by 0.
pub mod Checked
use os_projet.Common.{
  ℕ, ◌+◌, ◌-◌, ◌*◌, ◌/◌, ◌%◌, ◌^◌, not, ◌&&◌, ◌||◌, Option, none, some, if◌then◌else◌, ltb, ◌==◌,
}
use os_projet.Cstring.Memory.{Bytes}
use os_projet.Fat.Disk.{read_le}
use os_projet.Fat.Table.{FatType, fat12, fat16, fat32, FatFileSystem}

pub record BootSector : Type 0 where
  pub byts_per_sec : ℕ
  pub sec_per_clus : ℕ
  pub rsvd_sec_cnt : ℕ
  pub num_fats : ℕ
  pub root_ent_cnt : ℕ
  pub tot_sec16 : ℕ
  pub fat_sz16 : ℕ
  pub tot_sec32 : ℕ
  pub fat_sz32 : ℕ
  pub fs_ver : ℕ
  pub root_clus : ℕ
  pub bk_boot_sec : ℕ
  pub reserved0 : ℕ
  pub reserved1 : ℕ
  pub reserved2 : ℕ

-- The calls of `seek` and `read`: a read starts where the one before it ended.
unfoldable pub read_boot_sector : Bytes → BootSector
read_boot_sector m = record {
  byts_per_sec = read_le 2 m 11;
  sec_per_clus = read_le 1 m 13;
  rsvd_sec_cnt = read_le 2 m 14;
  num_fats = read_le 1 m 16;
  root_ent_cnt = read_le 2 m 17;
  tot_sec16 = read_le 2 m 19;
  fat_sz16 = read_le 2 m 22;
  tot_sec32 = read_le 4 m 32;
  fat_sz32 = read_le 4 m 36;
  fs_ver = read_le 2 m 42;
  root_clus = read_le 4 m 44;
  bk_boot_sec = read_le 2 m 50;
  reserved0 = read_le 4 m 52;
  reserved1 = read_le 4 m 56;
  reserved2 = read_le 4 m 60;
}

pub data Refusal : Type 0 where
  invalid_byts_per_sec no_reserved_sector no_table two_totals no_total : Refusal
  no_root_entry too_many_clusters root_entries no_table_size : Refusal
  wrong_version wrong_backup wrong_reserved divide_error : Refusal

pub data Mounting : Type 0 where
  mounted : FatFileSystem → Mounting
  refused : Refusal → Mounting

abbrev pub wrap32 : ℕ → ℕ
wrap32 x = x % 2 ^ 32

-- The checks that all formats share.
unfoldable pub refusal : BootSector → Option Refusal
refusal b =
    if not (b.byts_per_sec == 512)
      && not (b.byts_per_sec == 1024)
      && not (b.byts_per_sec == 2048)
      && not (b.byts_per_sec == 4096)
    then some invalid_byts_per_sec
    else if b.rsvd_sec_cnt == 0
    then some no_reserved_sector
    else if b.num_fats == 0
    then some no_table
    else if not (b.tot_sec32 == 0) && not (b.tot_sec16 == 0)
    then some two_totals
    else if b.tot_sec32 == 0 && b.tot_sec16 == 0
    then some no_total
    else none

-- What the constructor computes once the format is known.
unfoldable pub geometry : BootSector → FatType → ℕ → ℕ → ℕ → Option ℕ → ℕ → ℕ → FatFileSystem
geometry b t fat_sz clusters root_clus root_begin bad last =
    let root_sectors = (b.root_ent_cnt * 32 + (b.byts_per_sec - 1)) / b.byts_per_sec in
    let tables = b.rsvd_sec_cnt + b.num_fats * fat_sz in
    let cluster_size = b.sec_per_clus * b.byts_per_sec in
    record {
      fat_sz = fat_sz;
      fat_type = t;
      rsvd_sec_cnt = b.rsvd_sec_cnt;
      sec_per_clus = b.sec_per_clus;
      byts_per_sec = b.byts_per_sec;
      root_ent_cnt = b.root_ent_cnt;
      num_fats = b.num_fats;
      root_clus = root_clus;
      cluster_size = cluster_size;
      number_of_entries_per_cluster = cluster_size / 32;
      number_of_clusters = clusters;
      number_of_fat_entries = fat_sz * b.byts_per_sec / 4;
      root_directory_begin = root_begin;
      first_data_sector = (elim t [ fat32 ↦ tables | _ ↦ tables + root_sectors ]);
      bad_cluster = bad;
      last_cluster = last;
    }

unfoldable pub clusters16 : BootSector → ℕ
clusters16 b =
    let total = if b.tot_sec16 == 0 then b.tot_sec32 else b.tot_sec16 in
    wrap32 (total + (2 ^ 32 - (b.rsvd_sec_cnt + b.num_fats * b.fat_sz16))) / b.sec_per_clus

unfoldable pub root_begin : BootSector → Option ℕ
root_begin b = some (b.rsvd_sec_cnt * b.byts_per_sec + b.num_fats * b.fat_sz16 * b.byts_per_sec)

-- FAT12 or FAT16, by the number of clusters.
unfoldable pub by_clusters : BootSector → ℕ → Mounting
by_clusters b n =
    if ltb n 4085
    then mounted (geometry b fat12 b.fat_sz16 n 0 (root_begin b) 0x0FF7 0x0FFF)
    else if ltb n 65525
    then mounted (geometry b fat16 b.fat_sz16 n 0 (root_begin b) 0xFFF7 0xFFFF)
    else refused too_many_clusters

unfoldable pub mount16 : BootSector → Mounting
mount16 b =
    if b.root_ent_cnt == 0
    then refused no_root_entry
    else if b.sec_per_clus == 0
    then refused divide_error
    else by_clusters b (clusters16 b)

unfoldable pub clusters32 : BootSector → ℕ
clusters32 b =
    let tables = wrap32 (b.rsvd_sec_cnt + wrap32 (b.num_fats * b.fat_sz32)) in
    wrap32 (b.tot_sec32 + (2 ^ 32 - tables)) / b.sec_per_clus

unfoldable pub mount32 : BootSector → Mounting
mount32 b =
    if not (b.root_ent_cnt == 0)
    then refused root_entries
    else if b.fat_sz32 == 0
    then refused no_table_size
    else if not (b.fs_ver == 0)
    then refused wrong_version
    else if not (b.bk_boot_sec == 0) && not (b.bk_boot_sec == 6)
    then refused wrong_backup
    else if not (b.reserved0 == 0) || not (b.reserved1 == 0) || not (b.reserved2 == 0)
    then refused wrong_reserved
    else if b.sec_per_clus == 0
    then refused divide_error
    else mounted (geometry b fat32 b.fat_sz32 (clusters32 b) b.root_clus none 0x0FFFFFF7 0x0FFFFFFF)

unfoldable pub mount : BootSector → Mounting
mount b = elim (refusal b) [
  | some why ↦ refused why
  | none ↦ if b.fat_sz16 == 0 then mount32 b else mount16 b
]

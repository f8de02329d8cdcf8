-- ===== src/Fat/Mount/Checked.antt =====
-- What holds of a file system that the constructor accepts.
use os_projet.Common.{
  ℕ, ◌+◌, ◌-◌, ◌*◌, ◌%◌, ◌^◌, ◌<◌, ◌≤◌, ◌≡◌, refl, false, Option, none, ◌==◌, arith, ◌⊎◌, inl, inr,
  Option-cases,
}
use os_projet.Fat.Table.{FatType, fat12, fat16, fat32, FatFileSystem}
use os_projet.Fat.Table.Entry.{entry_bits}
use os_projet.Fat.Mount.{
  BootSector, mounted, refusal, geometry, mount16, mount32, mount, clusters16, by_clusters,
  clusters32, root_begin,
}

-- The number of clusters that a format goes with. For FAT32 the constructor does not test it, so any number will
-- do.
abbrev pub ClustersOf : FatType → ℕ → Type 0
ClustersOf fat12 n = n < 4085
ClustersOf fat16 n = (4085 ≤ n) × (n < 65525)
ClustersOf fat32 n = Unit

pub record IsLaidOut (s : FatFileSystem) : Type 0 where
  pub sector_size : (512 ≤ s.byts_per_sec) × (s.byts_per_sec ≤ 4096) × (s.byts_per_sec % 512 ≡ 0)
  pub some_sector : 0 < s.sec_per_clus
  pub some_table : 0 < s.num_fats
  pub cluster_bytes : s.cluster_size ≡ s.sec_per_clus * s.byts_per_sec
  pub data_after : s.rsvd_sec_cnt + s.num_fats * s.fat_sz ≤ s.first_data_sector
  pub entries : s.number_of_fat_entries * 4 ≤ s.fat_sz * s.byts_per_sec
  pub last_mark : s.last_cluster ≡ 2 ^ entry_bits s.fat_type - 1
  pub bad_mark : s.bad_cluster + 8 ≡ s.last_cluster
  pub clusters : ClustersOf s.fat_type s.number_of_clusters

-- What the checks before the format leave.
record IsSound (b : BootSector) : Type 0 where
  size : (512 ≤ b.byts_per_sec) × (b.byts_per_sec ≤ 4096) × (b.byts_per_sec % 512 ≡ 0)
  tables : 0 < b.num_fats

refusal-IsSound : (b : BootSector) → refusal b ≡ none → IsSound b
unfolding refusal
refusal-IsSound b h = record {
  size = (ground arith, ground arith, ground arith);
  tables = ground arith;
}

data_start :
    (t : FatType) (tables root : ℕ) → tables ≤ (elim t [ fat32 ↦ tables | _ ↦ tables + root ])
data_start fat12 tables root = omega arith
data_start fat16 tables root = omega arith
data_start fat32 tables root = omega arith

geometry-IsLaidOut :
    (b : BootSector) (t : FatType) (sz n rc : ℕ) (rb : Option ℕ) (bad last : ℕ)
    → IsSound b
    → (b.sec_per_clus == 0) ≡ false
    → last ≡ 2 ^ entry_bits t - 1
    → bad + 8 ≡ last
    → ClustersOf t n
    → IsLaidOut (geometry b t sz n rc rb bad last)
unfolding geometry
geometry-IsLaidOut b t sz n rc rb bad last h hs hl hb hn = record {
  sector_size = h.size;
  some_sector = ground arith;
  some_table = h.tables;
  cluster_bytes = refl;
  data_after = data_start t _ _;
  entries = omega arith;
  last_mark = hl;
  bad_mark = hb;
  clusters = hn;
}

laid_out :
    (b : BootSector) (t : FatType) (sz n rc : ℕ) (rb : Option ℕ) (bad last : ℕ) (s : FatFileSystem)
    → geometry b t sz n rc rb bad last ≡ s
    → IsSound b
    → (b.sec_per_clus == 0) ≡ false
    → last ≡ 2 ^ entry_bits t - 1
    → bad + 8 ≡ last
    → ClustersOf t n
    → IsLaidOut s
laid_out b t sz n rc rb bad last s g h hs hl hb hn =
    rw g at (geometry-IsLaidOut b t sz n rc rb bad last h hs hl hb hn)

-- The only ways to a file system.
mount32-mounted :
    (b : BootSector) (s : FatFileSystem)
    → mount32 b ≡ mounted s
    → ((b.sec_per_clus == 0) ≡ false)
      × (geometry b fat32 b.fat_sz32 (clusters32 b) b.root_clus none 0x0FFFFFF7 0x0FFFFFFF ≡ s)
unfolding mount32
mount32-mounted b s e = ground (arith, e)

mount16-mounted :
    (b : BootSector) (s : FatFileSystem)
    → mount16 b ≡ mounted s
    → ((b.sec_per_clus == 0) ≡ false) × (by_clusters b (clusters16 b) ≡ mounted s)
unfolding mount16
mount16-mounted b s e = ground (arith, e)

by_clusters-mounted :
    (b : BootSector) (s : FatFileSystem) (n : ℕ)
    → by_clusters b n ≡ mounted s
    → ((n < 4085) × (geometry b fat12 b.fat_sz16 n 0 (root_begin b) 0x0FF7 0x0FFF ≡ s))
      ⊎ ((4085 ≤ n)
          × (n < 65525)
          × (geometry b fat16 b.fat_sz16 n 0 (root_begin b) 0xFFF7 0xFFFF ≡ s))
unfolding by_clusters
by_clusters-mounted b s n e = ground (arith, e)

mount-mounted :
    (b : BootSector) (s : FatFileSystem)
    → mount b ≡ mounted s
    → (refusal b ≡ none) × ((mount32 b ≡ mounted s) ⊎ (mount16 b ≡ mounted s))
unfolding mount
mount-mounted b s e = elim (Option-cases (refusal b)) [
  | inl clean ↦ ground (arith, clean, e)
  | inr (why, r) ↦ ground (arith, r, e)
]

-- A boot sector that the constructor accepts has sectors of 512 to 4096 bytes, at least one table and
-- clusters of at least one sector; the data starts after the tables, every table holds the entries that
-- the file system counts, the marks for the last and for a bad cluster are those of the format, and the
-- number of clusters of a FAT12 or FAT16 file system is one of that format. Of the number of clusters of a FAT32
-- file system nothing is said.
pub mount-IsLaidOut : (b : BootSector) (s : FatFileSystem) → mount b ≡ mounted s → IsLaidOut s
mount-IsLaidOut b s e =
    let (clean, ways) = mount-mounted b s e in
    let h = refusal-IsSound b clean in
    elim ways [
      | inl big ↦
          let (sec, g) = mount32-mounted b s big in
          laid_out b fat32 _ _ _ _ _ _ s g h sec refl refl tt
      | inr small ↦
          let (sec, by) = mount16-mounted b s small in
          elim (by_clusters-mounted b s (clusters16 b) by) [
            | inl (few, g) ↦ laid_out b fat12 _ _ _ _ _ _ s g h sec refl refl few
            | inr (many, few, g) ↦ laid_out b fat16 _ _ _ _ _ _ s g h sec refl refl (many, few)
          ]
    ]

-- ===== src/Fat/Table/Clusters.antt =====
-- Where the clusters lie on the disk.
use os_projet.Common.{ℕ, ◌+◌, ◌-◌, ◌*◌, ◌^◌, ◌<◌, ◌≤◌, ◌≡◌, some, arith}
use os_projet.Fat.Table.{FatFileSystem, table_start, cluster_number_to_address, wrap}

pub record Separate (s : FatFileSystem) (c c' : ℕ) : Type 0 where
  pub here : ℕ
  pub there : ℕ
  pub address : cluster_number_to_address s c ≡ some here
  pub address' : cluster_number_to_address s c' ≡ some there
  pub after_tables : table_start s s.num_fats ≤ here
  pub apart : here + s.cluster_size ≤ there

abbrev raw_address : FatFileSystem → ℕ → ℕ
raw_address s c = ((c - 2) * s.sec_per_clus + s.first_data_sector) * s.byts_per_sec

raw_address_apart :
    (c c' k f b : ℕ) → 2 ≤ c → c < c' → ((c - 2) * k + f) * b + k * b ≤ ((c' - 2) * k + f) * b
raw_address_apart c c' k f b h lt =
    let a : (c - 2) * k + k ≤ (c' - 2) * k = steps (c - 2) (c' - 2) k (omega arith) in
    let e : ((c - 2) * k + f) * b + k * b ≡ ((c - 2) * k + k + f) * b = grind arith in
    omega (arith, e, scaled ((c - 2) * k + k + f) ((c' - 2) * k + f) b (omega arith))
  where
    scaled : (x y z : ℕ) → x ≤ y → x * z ≤ y * z
    scaled x y z h = grind arith

    steps : (x y z : ℕ) → x < y → x * z + z ≤ y * z
    steps x y z h = grind arith

data_area : (r n z f c k b : ℕ) → r + n * z ≤ f → (r + n * z) * b ≤ ((c - 2) * k + f) * b
data_area r n z f c k b h =
    let a : r + n * z ≤ (c - 2) * k + f = omega arith in scaled (r + n * z) ((c - 2) * k + f) b a
  where
    scaled : (x y z : ℕ) → x ≤ y → x * z ≤ y * z
    scaled x y z h = grind arith

address_lem :
    (s : FatFileSystem) (c : ℕ)
    → 2 ≤ c
    → raw_address s c < 2 ^ 64
    → cluster_number_to_address s c ≡ some (raw_address s c)
unfolding cluster_number_to_address
address_lem s c h lt =
    let e : wrap (raw_address s c) ≡ raw_address s c = omega arith in ground (arith, e)

-- Two clusters of a file system whose data starts after its tables lie apart, and both after the tables,
-- provided their addresses fit in 64 bits.
pub cluster_number_to_address-Separate :
    (s : FatFileSystem) (c c' : ℕ)
    → s.cluster_size ≡ s.sec_per_clus * s.byts_per_sec
    → s.rsvd_sec_cnt + s.num_fats * s.fat_sz ≤ s.first_data_sector
    → 2 ≤ c
    → c < c'
    → ((c' - 2) * s.sec_per_clus + s.first_data_sector) * s.byts_per_sec < 2 ^ 64
    → Separate s c c'
cluster_number_to_address-Separate s c c' size after real lt fits =
    let gap = raw_address_apart c c' s.sec_per_clus s.first_data_sector s.byts_per_sec real lt in
    record {
      here = raw_address s c;
      there = raw_address s c';
      address = address_lem s c real (omega arith);
      address' = address_lem s c' (omega arith) fits;
      after_tables =
          unfold table_start in
          data_area s.rsvd_sec_cnt s.num_fats s.fat_sz s.first_data_sector c s.sec_per_clus
            s.byts_per_sec after;
      apart = omega arith;
    }

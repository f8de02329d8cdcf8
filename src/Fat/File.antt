-- ===== src/Fat/File.antt =====
-- `FAT_file` of drivers/fat/fat_file.cc: `set_position`, `seek` and `read`. An exception leaves the
-- file and the disk as they are when it is thrown. Loops over clusters take fuel.
-- A buffer that is read into is the list of its bytes. Sizes and positions do not reach 2 ^ 63.
-- The lock of the file system is a flag: `read` says whether its token keeps the lock until `read` ends, and waits
-- forever in the `seek` that it calls if it does. Elsewhere the lock is left out: it is free when an operation
-- starts, and other threads are not modelled.
pub mod Content
pub mod Read
pub mod Seek
use os_projet.Common.{
  ℕ, zero, suc, ◌+◌, ◌-◌, ◌*◌, ◌/◌, ◌%◌, ◌^◌, Bool, not, ◌&&◌, ◌||◌, Option, none, some, List, [],
  ◌∷◌, ◌++◌, if◌then◌else◌, ltb, leb, ◌==◌,
}
use os_projet.Cstring.Memory.{Bytes}
use os_projet.Fat.Disk.{Disk, seek_set}
use os_projet.Fat.Table.{FatFileSystem, wrap, find_fat_entry, cluster_number_to_address}

pub record File : Type 0 where
  pub position : ℕ
  pub within_cluster : ℕ
  pub cluster : ℕ
  pub file_size : ℕ
  pub first_cluster : ℕ
  pub entry_address : ℕ

pub data Fault : Type 0 where
  out_of_size not_allocated too_long bad_cluster reserved_cluster invalid_cluster : Fault

pub data Outcome {ℓ} (A : Type ℓ) : Type ℓ where
  ok : A → File → Disk → Outcome A
  throw : Fault → File → Disk → Outcome A
  out_of_fuel : Outcome A

infixl 5 ◌>>=◌
abbrev pub ◌>>=◌ {ℓ κ} :
    {A : Type ℓ} {B : Type κ} → Outcome A → (A → File → Disk → Outcome B) → Outcome B
ok a f d >>= k = k a f d
throw e f d >>= k = throw e f d
out_of_fuel >>= k = out_of_fuel

unfoldable pub read_bytes : ℕ → Bytes → ℕ → List ℕ
read_bytes zero m p = []
read_bytes (suc n) m p = m p ∷ read_bytes n m (p + 1)

-- The tests on an entry of the table, in the order that `set_position` and `read` have.
unfoldable pub refused : FatFileSystem → ℕ → Option Fault
refused s c =
    if c == 0
    then some not_allocated
    else if c == s.last_cluster
    then some too_long
    else if c == s.bad_cluster
    then some bad_cluster
    else if ltb s.number_of_clusters c
    then some reserved_cluster
    else none

-- `current_cluster = fat_fs->find_fat_entry(…)` with the tests.
unfoldable pub next_cluster : FatFileSystem → ℕ → File → Disk → Outcome ℕ
next_cluster s c f d = elim (find_fat_entry s c 0 d) [
  | none ↦ throw invalid_cluster f d
  | some (c', d') ↦ (elim (refused s c') [ none ↦ ok c' f d' | some why ↦ throw why f d' ])
]

-- `fat_fs->fh->seek(fat_fs->cluster_number_to_address(c) + offset, SET)`
unfoldable pub seek_cluster : FatFileSystem → ℕ → ℕ → File → Disk → Outcome (Unit {0})
seek_cluster s c offset f d = elim (cluster_number_to_address s c) [
  | none ↦ throw invalid_cluster f d
  | some a ↦ ok tt f (seek_set (a + offset) d)
]

-- `while (position >= fat_fs->cluster_size)` of `set_position`: the cluster and the rest.
unfoldable pub walk : ℕ → FatFileSystem → ℕ → ℕ → File → Disk → Outcome (ℕ × ℕ)
walk zero s position c f d = out_of_fuel
walk (suc n) s position c f d =
    let on = next_cluster s c f d >>= λ c' f' d'. walk n s (position - s.cluster_size) c' f' d' in
    if leb s.cluster_size position then on else ok (c, position) f d

-- The position is written before the walk, which may throw.
unfoldable pub set_position : FatFileSystem → ℕ → File → Disk → Outcome ℕ
set_position s position f d =
    let size = f.file_size in
    let moved =
      walk (suc position) s position f.first_cluster (record f { position = position }) d
      >>= λ r f1 d1. seek_cluster s r.0 r.1 f1 d1 >>= λ u f2 d2.
          ok r.1 (record f2 { within_cluster = r.1; cluster = r.0 }) d2 in
    if position == f.position
    then ok position f d
    else if size == 0 && ltb 0 position || ltb 0 size && leb size position
    then throw out_of_size f d
    else moved

pub data Whence : Type 0 where
  set cur end : Whence

-- `seek`; off is an offset of at least 0.
unfoldable pub seek : FatFileSystem → ℕ → Whence → File → Disk → Outcome ℕ
seek s off set f d = set_position s off f d
seek s off cur f d = set_position s (f.position + off) f d
seek s off end f d = set_position s (f.file_size + off) f d

-- `fat_fs->fh->read(…, n); read_write_head_position += n;`
unfoldable pub take_bytes : ℕ → File → Disk → Outcome (List ℕ)
take_bytes n f d =
    ok (read_bytes n d.bytes d.pos) (record f { position = f.position + n })
      (seek_set (d.pos + n) d)

-- The next cluster of the chain is entered.
unfoldable pub enter_next : FatFileSystem → File → Disk → Outcome ℕ
enter_next s f d =
    next_cluster s f.cluster f d >>= λ c f1 d1. seek_cluster s c 0 f1 d1 >>= λ u f2 d2. ok c f2 d2

-- `while (size >= fat_fs->cluster_size)` of `read`: the bytes and the size that is left.
unfoldable pub read_clusters : ℕ → FatFileSystem → ℕ → File → Disk → Outcome (List ℕ × ℕ)
read_clusters zero s size f d = out_of_fuel
read_clusters (suc n) s size f d =
    let round = enter_next s f d >>= λ c f1 d1. take_bytes s.cluster_size f1 d1 >>= λ bytes f2 d2.
    read_clusters n s (size - s.cluster_size) (record f2 { cluster = c }) d2 >>= λ r f3 d3.
    ok (bytes ++ r.0, r.1) f3 d3 in
    if leb s.cluster_size size then round else ok ([], size) f d

-- `if (size > 0)`: the part of the last cluster.
unfoldable pub read_rest : FatFileSystem → ℕ → File → Disk → Outcome (List ℕ)
read_rest s size f d =
    let rest = enter_next s f d >>= λ c f1 d1. take_bytes size f1 d1 >>= λ bytes f2 d2.
    ok bytes (record f2 { within_cluster = size; cluster = c }) d2 in
    if size == 0 then ok [] f d else rest

-- The size that `read` cuts down to the end of the file.
unfoldable pub clipped : ℕ → File → ℕ
clipped size f =
    if ltb f.file_size (f.position + size) then wrap (f.file_size + (2 ^ 64 - f.position)) else size

-- `read` behind the lock.
unfoldable pub read_unlocked : FatFileSystem → ℕ → File → Disk → Outcome (List ℕ)
read_unlocked s size f d =
    let size' = clipped size f in
    let remaining = wrap (s.cluster_size + (2 ^ 64 - f.within_cluster)) in
    let first = if ltb size' remaining then size' else remaining in
    seek s 0 cur f d >>= λ p f0 d0. take_bytes first f0 d0 >>= λ bytes f1 d1.
    read_clusters (suc size') s (size' - first) (record f1 { within_cluster = 0 }) d1 >>= λ r f2 d2.
    read_rest s r.1 f2 d2 >>= λ more f3 d3. ok (bytes ++ r.0 ++ more) f3 d3

-- `read`: `lock_kept` says that the token of `acquire_lock` keeps the lock until the end of the scope. `seek`, which
-- takes the same lock, then never returns; that is `none`.
unfoldable pub read : Bool → FatFileSystem → ℕ → File → Disk → Option (Outcome (List ℕ))
read lock_kept s size f d = if lock_kept then none else some (read_unlocked s size f d)

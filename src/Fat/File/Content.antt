-- ===== src/Fat/File/Content.antt =====
-- The bytes that a read of drivers/fat/fat_file.cc returns, and the clusters that it takes them from.
use os_projet.Common.{
  ℕ, zero, suc, ◌+◌, ◌-◌, ◌^◌, ◌%◌, ◌<◌, ◌≤◌, ◌≡◌, refl, sym, ap, ◌∙◌, Bool, true, false, Option,
  none, some, List, [], ◌++◌, if◌then◌else◌, ltb, leb, ◌==◌, arith, min,
}
use os_projet.Cstring.Memory.{Bytes}
use os_projet.Fat.Disk.{Disk, seek_set}
use os_projet.Fat.Table.{FatFileSystem, find_fat_entry, cluster_number_to_address}
use os_projet.Fat.Dir.Ends.{find_fat_entry_pos, find_fat_entry-Reads}
use os_projet.Fat.File.{
  File, Fault, Outcome, invalid_cluster, ok, throw, out_of_fuel, ◌>>=◌, read_bytes, refused,
  next_cluster, seek_cluster, seek, cur, set_position, take_bytes, enter_next, read_clusters,
  read_rest, clipped, read_unlocked,
}

-- The entry of a cluster is the number of the next one, which none of the tests refuses.
pub record IsNext (s : FatFileSystem) (m : Bytes) (c c' : ℕ) : Type 0 where
  pub after : Disk
  pub entry : find_fat_entry s c 0 (record { bytes = m; pos = 0 }) ≡ some (c', after)
  pub allowed : refused s c' ≡ none

-- k bytes are those of the whole clusters that follow c, up to the cluster l.
pub data Whole (s : FatFileSystem) (m : Bytes) : ℕ → ℕ → List ℕ → ℕ → Type 0 where
  none_left : {c k : ℕ} → k ≡ 0 → Whole s m c k [] c
  cluster_of :
      {c c' a k n l : ℕ}
      → {bytes bytes' : List ℕ} → IsNext s m c c'
      → cluster_number_to_address s c' ≡ some a
      → k ≡ s.cluster_size + n
      → bytes' ≡ read_bytes s.cluster_size m a ++ bytes
      → Whole s m c' n bytes l
      → Whole s m c k bytes' l

-- n bytes are the first ones of the cluster l that follows c; where n is 0, l is c.
pub data Part (s : FatFileSystem) (m : Bytes) (c n : ℕ) (bytes : List ℕ) (l : ℕ) : Type 0 where
  nothing : n ≡ 0 → bytes ≡ [] → l ≡ c → Part s m c n bytes l
  begun :
      {a : ℕ}
      → 0 < n
      → IsNext s m c l
      → cluster_number_to_address s l ≡ some a
      → bytes ≡ read_bytes n m a
      → Part s m c n bytes l

-- What holds of the result of an operation, if there is one.
abbrev pub On {ℓ} : {A : Type ℓ} → (A → File → Disk → Type 0) → Outcome A → Type 0
On Q (ok a f d) = Q a f d
On Q (throw e f d) = Unit
On Q out_of_fuel = Unit

bind-On {ℓ κ} :
    {A : Type ℓ} {B : Type κ} (P : A → File → Disk → Type 0) (Q : B → File → Disk → Type 0)
    (o : Outcome A) (k : A → File → Disk → Outcome B)
    → On P o
    → ((a : A) (f : File) (d : Disk) → P a f d → On Q (k a f d))
    → On Q (o >>= k)
bind-On P Q (ok a f d) k h g = g a f d h
bind-On P Q (throw e f d) k h g = tt
bind-On P Q out_of_fuel k h g = tt

if-On {ℓ} :
    {A : Type ℓ} (Q : A → File → Disk → Type 0) (c : Bool) (x y : Outcome A)
    → (c ≡ true → On Q x)
    → (c ≡ false → On Q y)
    → On Q (if c then x else y)
if-On Q true x y f g = f refl
if-On Q false x y f g = g refl

abbrev Next : FatFileSystem → Bytes → ℕ → ℕ → File → Disk → Type 0
Next s m c c' f' d' = (d'.bytes ≡ m) × IsNext s m c c'

next_cluster-Next :
    (s : FatFileSystem) (c : ℕ) (f : File) (d : Disk) → On (Next s d.bytes c) (next_cluster s c f d)
unfolding next_cluster
next_cluster-Next s c f d =
    go (find_fat_entry s c 0 d) (find_fat_entry_pos s c d) (find_fat_entry-Reads s c d)
  where
    kept : Option (ℕ × Disk) → Type 0
    kept none = Unit
    kept (some (c', d')) = d'.bytes ≡ d.bytes

    go :
        (r : Option (ℕ × Disk))
        → r ≡ find_fat_entry s c 0 (record { bytes = d.bytes; pos = 0 })
        → kept r
        → On (Next s d.bytes c) (elim r [
          | none ↦ throw invalid_cluster f d
          | some (c', d') ↦ (elim (refused s c') [ none ↦ ok c' f d' | some why ↦ throw why f d' ])
        ])
    go none e h = tt
    go (some (c', d')) e h = after (refused s c') refl
      where
        after :
            (q : Option Fault)
            → refused s c' ≡ q
            → On (Next s d.bytes c) (elim q [ none ↦ ok c' f d' | some why ↦ throw why f d' ])
        after none a = (h, record { after = d'; entry = sym e; allowed = a })
        after (some why) a = tt

-- The handler is at the beginning of the cluster that follows c.
abbrev Entered : FatFileSystem → Bytes → ℕ → ℕ → File → Disk → Type 0
Entered s m c c' f' d' =
    (d'.bytes ≡ m) × IsNext s m c c' × (cluster_number_to_address s c' ≡ some (d'.pos))

abbrev Placed : FatFileSystem → ℕ → Disk → Unit {0} → File → Disk → Type 0
Placed s c d u f' d' = (d'.bytes ≡ d.bytes) × (cluster_number_to_address s c ≡ some (d'.pos))

seek_cluster-Placed :
    (s : FatFileSystem) (c : ℕ) (f : File) (d : Disk) → On (Placed s c d) (seek_cluster s c 0 f d)
unfolding seek_cluster
seek_cluster-Placed s c f d = go (cluster_number_to_address s c) refl
  where
    go :
        (r : Option ℕ)
        → cluster_number_to_address s c ≡ r
        → On {0} {A = Unit {0}}
            (Placed s c d)
            (elim r [ none ↦ throw invalid_cluster f d | some a ↦ ok tt f (seek_set (a + 0) d) ])
    go none h = tt
    go (some a) h = (refl, h ∙ ap some (omega arith))

enter_next-Entered :
    (s : FatFileSystem) (m : Bytes) (f : File) (d : Disk)
    → d.bytes ≡ m
    → On (Entered s m f.cluster) (enter_next s f d)
unfolding enter_next
enter_next-Entered s m f d e =
    bind-On (Next s d.bytes f.cluster) _ (next_cluster s f.cluster f d) _
      (next_cluster-Next s f.cluster f d)
      (λ c f1 d1 e1.
        let next : IsNext s m f.cluster c = rw e at (e1.1) in
        bind-On (Placed s c d1) (Entered s m f.cluster) (seek_cluster s c 0 f1 d1) _
          (seek_cluster-Placed s c f1 d1) (λ u f2 d2 e2. (e2.0 ∙ e1.0 ∙ e, next, e2.1)))

-- The whole clusters of `size` bytes are read, from c on.
abbrev RunTo : FatFileSystem → Bytes → ℕ → ℕ → List ℕ × ℕ → File → Disk → Type 0
RunTo s m size c r f' d' =
    (d'.bytes ≡ m) × (r.1 < s.cluster_size) × (r.1 ≤ size) × Whole s m c (size - r.1) r.0 f'.cluster

read_clusters-RunTo :
    (n : ℕ) (s : FatFileSystem) (m : Bytes) (size : ℕ) (f : File) (d : Disk)
    → d.bytes ≡ m
    → On (RunTo s m size f.cluster) (read_clusters n s size f d)
unfolding read_clusters take_bytes
read_clusters-RunTo zero s m size f d e = tt
read_clusters-RunTo (suc n) s m size f d e =
    if-On (RunTo s m size f.cluster) (leb s.cluster_size size) _ _
      (λ more.
        let le : s.cluster_size ≤ size = ground arith in
        bind-On (Entered s m f.cluster) _ (enter_next s f d) _ (enter_next-Entered s m f d e)
          (λ c f1 d1 e1.
            let f2 = record f1 { position = f1.position + s.cluster_size; cluster = c } in
            let d2 = seek_set (d1.pos + s.cluster_size) d1 in
            bind-On (RunTo s m (size - s.cluster_size) c) _
              (read_clusters n s (size - s.cluster_size) f2 d2) _
              (read_clusters-RunTo n s m (size - s.cluster_size) f2 d2 e1.0)
              (λ r f3 d3 e3. (
                e3.0,
                e3.1,
                omega (arith, le, e3.2),
                cluster_of e1.1 e1.2 (omega (arith, le, e3.2))
                    (ap (λ b. read_bytes s.cluster_size b d1.pos ++ r.0) e1.0) (e3.3),
              ))))
      (λ less. (e, ground arith, omega arith, none_left (omega arith)))

abbrev RestOf : FatFileSystem → Bytes → ℕ → ℕ → List ℕ → File → Disk → Type 0
RestOf s m c n bytes f' d' = (d'.bytes ≡ m) × Part s m c n bytes f'.cluster

read_rest-RestOf :
    (s : FatFileSystem) (m : Bytes) (size : ℕ) (f : File) (d : Disk)
    → d.bytes ≡ m
    → On (RestOf s m f.cluster size) (read_rest s size f d)
unfolding read_rest take_bytes
read_rest-RestOf s m size f d e =
    if-On (RestOf s m f.cluster size) (size == 0) _ _
      (λ none_left. (e, nothing (ground arith) refl refl))
      (λ some_left.
        bind-On (Entered s m f.cluster) _ (enter_next s f d) _ (enter_next-Entered s m f d e)
          (λ c f1 d1 e1.
            (e1.0, begun (ground arith) e1.1 e1.2 (ap (λ b. read_bytes size b d1.pos) e1.0))))

-- n bytes: from the handler on up to the end of the cluster, then the whole clusters that follow it in the tables, then
-- the beginning of the next one. No byte of the disk changes.
pub record ReadsFrom (s : FatFileSystem) (f : File) (d : Disk) (n : ℕ) (bytes : List ℕ) (f' : File)
    (d' : Disk) : Type 0 where
  pub clusters : List ℕ
  pub last : List ℕ
  pub middle : ℕ
  pub left : ℕ
  pub parts :
      let first = min n (s.cluster_size - f.within_cluster) in
      bytes ≡ read_bytes first d.bytes d.pos ++ clusters ++ last
  pub whole :
      let first = min n (s.cluster_size - f.within_cluster) in
      (left ≤ n - first) × Whole s d.bytes f.cluster (n - first - left) clusters middle
  pub short : left < s.cluster_size
  pub part : Part s d.bytes middle left last f'.cluster
  pub unchanged : d'.bytes ≡ d.bytes

seek_lem : (s : FatFileSystem) (f : File) (d : Disk) → seek s 0 cur f d ≡ ok (f.position + 0) f d
unfolding seek set_position
seek_lem s f d = let here : (f.position + 0 == f.position) ≡ true = ground arith in rw here refl

pub read_unlocked-ReadsFrom :
    (s : FatFileSystem) (size : ℕ) (f : File) (d : Disk)
    → f.position ≤ f.file_size
    → f.within_cluster ≤ s.cluster_size
    → f.file_size < 2 ^ 63
    → s.cluster_size < 2 ^ 63
    → size < 2 ^ 63
    → On (ReadsFrom s f d (min size (f.file_size - f.position))) (read_unlocked s size f d)
unfolding read_unlocked take_bytes
read_unlocked-ReadsFrom s size f d hp hw small small' small'' =
    let size' : ℕ = clipped size f in
    let n : ℕ = min size (f.file_size - f.position) in
    let e : size' ≡ n = unfold clipped in ground arith in
    let remaining : ℕ = (s.cluster_size + (2 ^ 64 - f.within_cluster)) % 2 ^ 64 in
    let first : ℕ = if ltb size' remaining then size' else remaining in
    let rest : remaining ≡ s.cluster_size - f.within_cluster = omega arith in
    let e' : first ≡ min n (s.cluster_size - f.within_cluster) = ground (arith, e, rest) in
    let after_first : size' - first ≡ n - min n (s.cluster_size - f.within_cluster) =
      omega (arith, e, e') in
    let f1 = record f { position = f.position + first; within_cluster = 0 } in
    let d1 = seek_set (d.pos + first) d in
    rw (seek_lem s f d) (
      bind-On (RunTo s d.bytes (size' - first) f.cluster) _
        (read_clusters (suc size') s (size' - first) f1 d1) _
        (read_clusters-RunTo (suc size') s d.bytes (size' - first) f1 d1 refl)
        (λ r f2 d2 e2.
          bind-On (RestOf s d.bytes f2.cluster r.1) _ (read_rest s r.1 f2 d2) _
            (read_rest-RestOf s d.bytes r.1 f2 d2 e2.0)
            (λ more f3 d3 e3. record {
              clusters = r.0;
              last = more;
              middle = f2.cluster;
              left = r.1;
              parts = ap (λ k. read_bytes k d.bytes d.pos ++ r.0 ++ more) e';
              whole = (omega (arith, e, e', e2.2), rw after_first at (e2.3));
              short = e2.1;
              part = e3.1;
              unchanged = e3.0;
            })))

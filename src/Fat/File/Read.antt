-- ===== src/Fat/File/Read.antt =====
-- How far a read gets.
use os_projet.Common.{
  ℕ, zero, suc, ◌+◌, ◌-◌, ◌^◌, ◌%◌, ◌<◌, ◌≤◌, ◌≡◌, refl, Bool, true, false, Option, none, some,
  List, ◌++◌, if◌then◌else◌, ltb, leb, ◌==◌, arith, ap, ◌∙◌, length, length-append, min,
}
use os_projet.Cstring.Memory.{Bytes}
use os_projet.Fat.Disk.{Disk, seek_set}
use os_projet.Fat.Table.{FatFileSystem, find_fat_entry, cluster_number_to_address}
use os_projet.Fat.File.Content.{On, ReadsFrom, read_unlocked-ReadsFrom}
use os_projet.Fat.File.{
  File, Fault, Outcome, invalid_cluster, ok, throw, out_of_fuel, ◌>>=◌, read_bytes, refused,
  next_cluster, seek_cluster, seek, cur, set_position, take_bytes, enter_next, read_clusters,
  read_rest, clipped, read_unlocked, read,
}

-- Q holds of what an operation returns, and the operation does not run out of fuel.
abbrev pub Holds {ℓ} : {A : Type ℓ} → (A → File → Type 0) → Outcome A → Type 0
Holds Q (ok a f d) = Q a f
Holds Q (throw e f d) = Unit
Holds Q out_of_fuel = ⊥

pub bind-Holds {ℓ κ} :
    {A : Type ℓ} {B : Type κ} (P : A → File → Type 0) (Q : B → File → Type 0) (o : Outcome A)
    (k : A → File → Disk → Outcome B)
    → Holds P o
    → ((a : A) (f : File) (d : Disk) → P a f → Holds Q (k a f d))
    → Holds Q (o >>= k)
bind-Holds P Q (ok a f d) k h g = g a f d h
bind-Holds P Q (throw e f d) k h g = tt
bind-Holds P Q out_of_fuel k h g = h

-- The file is left as it was.
abbrev pub Same {ℓ} : {A : Type ℓ} → File → A → File → Type 0
Same f a f' = f' ≡ f

pub next_cluster-Same :
    (s : FatFileSystem) (c : ℕ) (f : File) (d : Disk) → Holds (Same f) (next_cluster s c f d)
unfolding next_cluster
next_cluster-Same s c f d = go (find_fat_entry s c 0 d)
  where
    go :
        (r : Option (ℕ × Disk))
        → Holds (Same f) (elim r [
          | none ↦ throw invalid_cluster f d
          | some (c', d') ↦ (elim (refused s c') [ none ↦ ok c' f d' | some why ↦ throw why f d' ])
        ])
    go none = tt
    go (some (c', d')) = after (refused s c')
      where
        after :
            (q : Option Fault)
            → Holds (Same f) (elim q [ none ↦ ok c' f d' | some why ↦ throw why f d' ])
        after none = refl
        after (some why) = tt

pub seek_cluster-Same :
    (s : FatFileSystem) (c x : ℕ) (f : File) (d : Disk) → Holds (Same f) (seek_cluster s c x f d)
unfolding seek_cluster
seek_cluster-Same s c x f d = go (cluster_number_to_address s c)
  where
    go :
        (r : Option ℕ)
        → Holds {0} {A = Unit {0}}
            (Same f)
            (elim r [ none ↦ throw invalid_cluster f d | some a ↦ ok tt f (seek_set (a + x) d) ])
    go none = tt
    go (some a) = refl

enter_next-Same : (s : FatFileSystem) (f : File) (d : Disk) → Holds (Same f) (enter_next s f d)
unfolding enter_next
enter_next-Same s f d =
    bind-Holds (Same f) (Same f) (next_cluster s f.cluster f d) _
      (next_cluster-Same s f.cluster f d)
      (λ c f1 d1 e.
        bind-Holds (Same f1) (Same f) (seek_cluster s c 0 f1 d1) _ (seek_cluster-Same s c 0 f1 d1)
          (λ u f2 d2 e'. e' ∙ e))

length-read_bytes : (n : ℕ) (m : Bytes) (p : ℕ) → length (read_bytes n m p) ≡ n
unfolding read_bytes
length-read_bytes zero m p = refl
length-read_bytes (suc n) m p = ap suc (length-read_bytes n m (p + 1))

pub if-Holds {ℓ} :
    {A : Type ℓ} (Q : A → File → Type 0) (c : Bool) (x y : Outcome A)
    → (c ≡ true → Holds Q x)
    → (c ≡ false → Holds Q y)
    → Holds Q (if c then x else y)
if-Holds Q true x y f g = f refl
if-Holds Q false x y f g = g refl

-- n bytes are read, and the position moves on by n.
abbrev pub Reads : ℕ → File → List ℕ → File → Type 0
Reads n f bytes f' =
    (length bytes ≡ n) × (f'.position ≡ f.position + n) × (f'.file_size ≡ f.file_size)

take_bytes-Reads : (n : ℕ) (f : File) (d : Disk) → Holds (Reads n f) (take_bytes n f d)
unfolding take_bytes
take_bytes-Reads n f d = (length-read_bytes n d.bytes d.pos, refl, refl)

-- Of `size` bytes, all but the second part of the result are read.
abbrev ReadsTo : ℕ → ℕ → File → List ℕ × ℕ → File → Type 0
ReadsTo limit size f r f' = (r.1 < limit) × (r.1 ≤ size) × Reads (size - r.1) f r.0 f'

read_clusters-ReadsTo :
    (n : ℕ) (s : FatFileSystem) (size : ℕ) (f : File) (d : Disk)
    → 0 < s.cluster_size
    → size < n
    → Holds (ReadsTo s.cluster_size size f) (read_clusters n s size f d)
unfolding read_clusters
read_clusters-ReadsTo zero s size f d h lt = elim lt [ ]
read_clusters-ReadsTo (suc n) s size f d h lt =
    if-Holds (ReadsTo s.cluster_size size f) (leb s.cluster_size size) _ _
      (λ more.
        let left : s.cluster_size ≤ size = ground arith in
        bind-Holds (Same f) _ (enter_next s f d) _ (enter_next-Same s f d) (λ c f1 d1 e1.
          bind-Holds (Reads s.cluster_size f1) _ (take_bytes s.cluster_size f1 d1) _
            (take_bytes-Reads s.cluster_size f1 d1)
            (λ bytes f2 d2 e2.
              bind-Holds
                (ReadsTo s.cluster_size (size - s.cluster_size) (record f2 { cluster = c })) _
                (read_clusters n s (size - s.cluster_size) (record f2 { cluster = c }) d2) _
                (read_clusters-ReadsTo n s (size - s.cluster_size) (record f2 { cluster = c }) d2 h
                  (omega arith))
                (λ r f3 d3 e3.
                  let total = length-append bytes r.0 in
                  let same1 = ap (λ g. g.position) e1 in
                  let same2 = ap (λ g. g.file_size) e1 in
                  (
                    e3.0,
                    omega (arith, e3.1),
                    (
                      omega (arith, total, e2.0, e3.1, e3.2.0),
                      omega (arith, same1, e2.1, e3.1, e3.2.1),
                      omega (arith, same2, e2.2, e3.2.2),
                    ),
                  )))))
      (λ less. (ground arith, omega arith, (omega arith, omega arith, refl)))

read_rest-Reads :
    (s : FatFileSystem) (size : ℕ) (f : File) (d : Disk)
    → Holds (Reads size f) (read_rest s size f d)
unfolding read_rest
read_rest-Reads s size f d =
    if-Holds (Reads size f) (size == 0) _ _ (λ none_left. (ground arith, ground arith, refl))
      (λ some_left.
        bind-Holds (Same f) _ (enter_next s f d) _ (enter_next-Same s f d) (λ c f1 d1 e1.
          bind-Holds (Reads size f1) _ (take_bytes size f1 d1) _ (take_bytes-Reads size f1 d1)
            (λ bytes f2 d2 e2.
              let same1 = ap (λ g. g.position) e1 in
              let same2 = ap (λ g. g.file_size) e1 in
              (e2.0, omega (arith, same1, e2.1), omega (arith, same2, e2.2)))))

-- `seek(0, CUR)` returns at once.
seek-Same : (s : FatFileSystem) (f : File) (d : Disk) → Holds (Same f) (seek s 0 cur f d)
unfolding seek set_position
seek-Same s f d =
    if-Holds (Same f) (f.position + 0 == f.position) _ _ (λ here. refl)
      (λ away. absurd (ground arith))

read_unlocked-Reads :
    (s : FatFileSystem) (size : ℕ) (f : File) (d : Disk)
    → 0 < s.cluster_size
    → f.position ≤ f.file_size
    → f.within_cluster ≤ s.cluster_size
    → f.file_size < 2 ^ 63
    → s.cluster_size < 2 ^ 63
    → size < 2 ^ 63
    → Holds (Reads (min size (f.file_size - f.position)) f) (read_unlocked s size f d)
unfolding read_unlocked
read_unlocked-Reads s size f d hc hp hw small small' small'' =
    let size' : ℕ = clipped size f in
    let e : size' ≡ min size (f.file_size - f.position) = unfold clipped in ground arith in
    let remaining : ℕ = (s.cluster_size + (2 ^ 64 - f.within_cluster)) % 2 ^ 64 in
    let first : ℕ = if ltb size' remaining then size' else remaining in
    let le : first ≤ size' = ground arith in
    bind-Holds (Same f) _ (seek s 0 cur f d) _ (seek-Same s f d) (λ p f0 d0 e0.
      bind-Holds (Reads first f0) _ (take_bytes first f0 d0) _ (take_bytes-Reads first f0 d0)
        (λ bytes f1 d1 e1.
          bind-Holds (ReadsTo s.cluster_size (size' - first) (record f1 { within_cluster = 0 })) _
            (read_clusters (suc size') s (size' - first) (record f1 { within_cluster = 0 }) d1) _
            (read_clusters-ReadsTo (suc size') s (size' - first) (record f1 { within_cluster = 0 })
              d1 hc (omega arith))
            (λ r f2 d2 e2.
              bind-Holds (Reads r.1 f2) _ (read_rest s r.1 f2 d2) _ (read_rest-Reads s r.1 f2 d2)
                (λ more f3 d3 e3.
                  let same1 = ap (λ g. g.position) e0 in
                  let same2 = ap (λ g. g.file_size) e0 in
                  let l1 = length-append (bytes ++ r.0) more in
                  let l2 = length-append bytes r.0 in
                  (
                    omega (arith, e, l1, l2, e1.0, e2.1, e2.2.0, e3.0),
                    omega (arith, e, same1, e1.1, e2.1, e2.2.1, e3.1),
                    omega (arith, same2, e1.2, e2.2.2, e3.2),
                  )))))

-- Q holds of what an operation returns and of the disk, and the operation does not run out of fuel.
abbrev pub Ends {ℓ} : {A : Type ℓ} → (A → File → Disk → Type 0) → Outcome A → Type 0
Ends Q (ok a f d) = Q a f d
Ends Q (throw e f d) = Unit
Ends Q out_of_fuel = ⊥

-- n bytes are read, and they are the right ones.
abbrev pub IsRead : FatFileSystem → File → Disk → ℕ → List ℕ → File → Disk → Type 0
IsRead s f d n bytes f' d' = Reads n f bytes f' × ReadsFrom s f d n bytes f' d'

Ends-both :
    (s : FatFileSystem) (f : File) (d : Disk) (n : ℕ) (o : Outcome (List ℕ))
    → Holds (Reads n f) o
    → On (ReadsFrom s f d n) o
    → Ends (IsRead s f d n) o
Ends-both s f d n (ok a f1 d1) h g = (h, g)
Ends-both s f d n (throw e f1 d1) h g = tt
Ends-both s f d n out_of_fuel h g = h

-- With the lock kept the read waits forever; otherwise it ends, and Q holds of what it returns.
abbrev pub Answers : Bool → (List ℕ → File → Disk → Type 0) → Option (Outcome (List ℕ)) → Type 0
Answers true Q r = r ≡ none
Answers false Q none = ⊥
Answers false Q (some o) = Ends Q o

-- Where the token of the lock keeps it, a read waits forever. Where it does not, and the position is within the
-- file, clusters are not empty, the position within the cluster does not pass its end and all sizes are below 2 ^ 63,
-- a read ends, and where it does not throw it returns as many bytes as were asked for or, if fewer, as are left in
-- the file, and moves the position on by that number. The bytes are those at the handler up to the end of
-- the cluster, then the whole clusters that follow the cluster of the file, each the entry of the one before and none
-- refused, and then the first bytes of the next one; the file ends at the cluster read last, and no
-- byte of the disk changes.
pub read-Reads :
    (lock_kept : Bool) (s : FatFileSystem) (size : ℕ) (f : File) (d : Disk)
    → 0 < s.cluster_size
    → f.position ≤ f.file_size
    → f.within_cluster ≤ s.cluster_size
    → f.file_size < 2 ^ 63
    → s.cluster_size < 2 ^ 63
    → size < 2 ^ 63
    → Answers lock_kept
        (IsRead s f d (min size (f.file_size - f.position)))
        (read lock_kept s size f d)
unfolding read
read-Reads true s size f d hc hp hw small small' small'' = refl
read-Reads false s size f d hc hp hw small small' small'' =
    Ends-both s f d (min size (f.file_size - f.position)) (read_unlocked s size f d)
      (read_unlocked-Reads s size f d hc hp hw small small' small'')
      (read_unlocked-ReadsFrom s size f d hp hw small small' small'')

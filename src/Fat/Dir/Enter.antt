-- ===== src/Fat/Dir/Enter.antt =====
-- A directory with a long name that stands behind other entries is entered by push.
use os_projet.Common.{
  ℕ, zero, suc, ◌+◌, ◌-◌, ◌*◌, ◌/◌, ◌≤◌, ◌<◌, ◌≡◌, refl, Bool, true, false, Option, none, some,
  List, if◌then◌else◌, arith, ap, ◌∙◌, length, ◌==◌,
}
use os_projet.Cstring.Memory.{Bytes}
use os_projet.Fat.Disk.{Disk}
use os_projet.Fat.Table.{FatFileSystem, cluster_number_to_address}
use os_projet.Fat.Dir.{
  Copy, Scan, slot, next, entry, matches, find, found, Search, start, find_in_clusters,
}
use os_projet.Fs.{dir_entry, file_entry, ok}
use os_projet.Fat.Dir.Iterator.{
  DirIterator, in_clusters, find_in_root, search, push, push_cluster_copy, push_root_copy,
  read_entry, names_directory, enter, depth, open_file, open_cluster_copy, open_root_copy, new_file,
}
use os_projet.Fat.Dir.Names.{IsName}
use os_projet.Fat.Dir.Chain.{Stored}
use os_projet.Fat.Dir.Lookup.{find-Stored, find-next}

-- The loop goes over n entries from p on without a result and with the scan changed.
pub data Passes (c : Copy) (m : Bytes) (t : List ℕ) : ℕ → ℕ → Scan → Scan → Type 0 where
  here : {p : ℕ} → {s : Scan} → Passes c m t zero p s s
  over_next :
      {n p : ℕ}
      → {s s' s'' : Scan} → slot c m p s ≡ next s'
      → Passes c m t n (p + 32) s' s''
      → Passes c m t (suc n) p s s''
  over_entry :
      {n p : ℕ}
      → {s s' s'' : Scan} → slot c m p s ≡ entry s'
      → matches s'.name 0 t ≡ false
      → Passes c m t n (p + 32) s' s''
      → Passes c m t (suc n) p s s''

find_other :
    (c : Copy) (m : Bytes) (t : List ℕ) (rounds p : ℕ) (s s' : Scan)
    → slot c m p s ≡ entry s'
    → matches s'.name 0 t ≡ false
    → find c m t (suc rounds) p s ≡ find c m t rounds (p + 32) s'
unfolding find
find_other c m t rounds p s s' e e' = ground (arith, e, e')

find-Passes :
    (c : Copy) (m : Bytes) (t : List ℕ) (rounds n p : ℕ) (s s' : Scan)
    → Passes c m t n p s s'
    → find c m t (n + rounds) p s ≡ find c m t rounds (p + 32 * n) s'
find-Passes c m t rounds zero p s _ here =
    let e : p + 32 * 0 ≡ p = omega arith in
    let size : 0 + rounds ≡ rounds = omega arith in rw (e, size) refl
find-Passes c m t rounds (suc n) p s s' (over_next {s' = s1} e rest) =
    let there : p + 32 + 32 * n ≡ p + 32 * suc n = omega arith in
    let size : suc n + rounds ≡ suc (n + rounds) = omega arith in
    rw size (
      find-next c m t (n + rounds) p s s1 e
      ∙ find-Passes c m t rounds n (p + 32) s1 s' rest
      ∙ ap (λ x. find c m t rounds x s') there)
find-Passes c m t rounds (suc n) p s s' (over_entry {s' = s1} e e' rest) =
    let there : p + 32 + 32 * n ≡ p + 32 * suc n = omega arith in
    let size : suc n + rounds ≡ suc (n + rounds) = omega arith in
    rw size (
      find_other c m t (n + rounds) p s s1 e e'
      ∙ find-Passes c m t rounds n (p + 32) s1 s' rest
      ∙ ap (λ x. find c m t rounds x s') there)

-- The first `rounds` entries from p on have the name t, behind `before` others. Its entries hold the terminator too, so
-- that a name whose length is a multiple of 13 has an entry more than its characters need.
pub record IsListed (c : Copy) (m junk : Bytes) (t : List ℕ) (rounds p : ℕ) : Type 0 where
  pub before : ℕ
  pub parts : ℕ
  pub sum : ℕ
  pub scan : Scan
  pub passes : Passes c m t before p (start junk) scan
  pub between : scan.left ≡ none
  pub name : IsName t
  pub number : parts ≡ length t / 13 + 1
  pub short_enough : parts ≤ 19
  pub stored : Stored m (p + 32 * before) t parts sum parts
  pub room : before + parts < rounds

abbrev pub short_entry : (before parts p : ℕ) → ℕ
short_entry before parts p = p + 32 * before + 32 * parts

find-IsListed :
    (c : Copy) (m junk : Bytes) (t : List ℕ) (rounds p : ℕ) (l : IsListed c m junk t rounds p)
    → let q = short_entry l.before l.parts p in
      find c m t rounds p (start junk) ≡ found q (record { bytes = m; pos = q })
find-IsListed c m junk t rounds p l =
    let split : rounds ≡ l.before + (rounds - l.before) = omega (arith, l.room) in
    ap (λ r. find c m t r p (start junk)) split
    ∙ find-Passes c m t (rounds - l.before) l.before p (start junk) l.scan l.passes
    ∙ find-Stored c m (p + 32 * l.before) t l.parts l.sum (rounds - l.before) l.scan l.name l.number
        l.short_enough (omega (arith, l.room)) l.between l.stored

-- The place and the number of entries of the first part of the current directory, and the copy of the
-- loop and the buffer that are used there.
abbrev pub dir_begin : FatFileSystem → DirIterator → Option ℕ
dir_begin s it =
    if in_clusters s it
    then cluster_number_to_address s it.first_cluster_here
    else s.root_directory_begin

abbrev pub dir_entries : FatFileSystem → DirIterator → ℕ
dir_entries s it = if in_clusters s it then s.number_of_entries_per_cluster else s.root_ent_cnt

abbrev pub IsListedIn :
    Copy → Copy → ℕ → FatFileSystem → (ℕ → Bytes) → DirIterator → List ℕ → Disk → ℕ → Type 0
IsListedIn c c' f s junk it t d a =
    IsListed (if in_clusters s it then c else c') d.bytes (junk (if in_clusters s it then f else 0))
      t (dir_entries s it) a

abbrev found_at : Bytes → ℕ → Search
found_at m q = found q (record { bytes = m; pos = q })

find_in_root-found :
    (c : Copy) (s : FatFileSystem) (junk : ℕ → Bytes) (t : List ℕ) (d : Disk) (a q : ℕ)
    → s.root_directory_begin ≡ some a
    → find c d.bytes t s.root_ent_cnt a (start (junk 0)) ≡ found_at d.bytes q
    → find_in_root c s junk t d ≡ found_at d.bytes q
unfolding find_in_root
find_in_root-found c s junk t d a q e e' = rw (e, e') refl

find_in_clusters-found :
    (c : Copy) (f : ℕ) (s : FatFileSystem) (junk : ℕ → Bytes) (t : List ℕ) (cluster : ℕ) (d : Disk)
    (a q : ℕ)
    → cluster_number_to_address s cluster ≡ some a
    → find c d.bytes t s.number_of_entries_per_cluster a (start (junk f)) ≡ found_at d.bytes q
    → find_in_clusters c (suc f) s junk t cluster d ≡ found_at d.bytes q
unfolding find_in_clusters
find_in_clusters-found c f s junk t cluster d a q e e' = ground (arith, e, e')

search-IsListed :
    (c c' : Copy) (f : ℕ) (s : FatFileSystem) (junk : ℕ → Bytes) (it : DirIterator) (t : List ℕ)
    (d : Disk) (a : ℕ)
    → dir_begin s it ≡ some a
    → (l : IsListedIn c c' f s junk it t d a)
    → search c c' (suc f) s junk it t d ≡ found_at d.bytes (short_entry l.before l.parts a)
unfolding search
search-IsListed c c' f s junk it t d a = go (in_clusters s it)
  where
    go :
        (b : Bool)
        → (if b then cluster_number_to_address s it.first_cluster_here else s.root_directory_begin)
          ≡ some a
        → (l : IsListed
            (if b then c else c')
            d.bytes
            (junk (if b then f else 0))
            t
            (if b then s.number_of_entries_per_cluster else s.root_ent_cnt)
            a)
        → (if b
            then find_in_clusters c (suc f) s junk t it.first_cluster_here d
            else find_in_root c' s junk t d)
          ≡ found_at d.bytes (short_entry l.before l.parts a)
    go true e l =
        find_in_clusters-found c f s junk t it.first_cluster_here d a
          (short_entry l.before l.parts a) e
          (find-IsListed c d.bytes (junk f) t s.number_of_entries_per_cluster a l)
    go false e l =
        find_in_root-found c' s junk t d a (short_entry l.before l.parts a) e
          (find-IsListed c' d.bytes (junk 0) t s.root_ent_cnt a l)

-- A push with room on the stack finds a name that is listed, with its terminator, in the first part of the current
-- directory, whatever entries that do not match stand before it and with any buffer contents: with the directory
-- attribute set at its short entry, that directory is put on the stack with this name, and else the push
-- reports a file and changes nothing but the position of the handler.
pub push-IsListed :
    (f : ℕ) (s : FatFileSystem) (junk : ℕ → Bytes) (it : DirIterator) (t : List ℕ) (d : Disk)
    (a : ℕ)
    → depth it < it.stack_size
    → dir_begin s it ≡ some a
    → (l : IsListedIn push_cluster_copy push_root_copy f s junk it t d a)
    → let q = short_entry l.before l.parts a in
      push (suc f) s junk it t d ≡ (
        if names_directory (read_entry d.bytes q)
        then ok (dir_entry, enter t q d.bytes it, record d { pos = q })
        else ok (file_entry, it, record d { pos = q + 32 }))
unfolding push depth
push-IsListed f s junk it t d a room e l =
    let not_full : (length it.stack == it.stack_size) ≡ false = ground arith in
    rw (not_full, search-IsListed push_cluster_copy push_root_copy f s junk it t d a e l) refl

-- open_file finds a listed file in the same way.
pub open_file-IsListed :
    (f : ℕ) (s : FatFileSystem) (junk : ℕ → Bytes) (it : DirIterator) (t : List ℕ) (d : Disk)
    (a : ℕ)
    → dir_begin s it ≡ some a
    → (l : IsListedIn open_cluster_copy open_root_copy f s junk it t d a)
    → let q = short_entry l.before l.parts a in
      names_directory (read_entry d.bytes q) ≡ false
      → open_file (suc f) s junk it t d ≡ new_file s (read_entry d.bytes q) q (record d { pos = q })
unfolding open_file
open_file-IsListed f s junk it t d a e l file =
    ground (arith, search-IsListed open_cluster_copy open_root_copy f s junk it t d a e l, file)

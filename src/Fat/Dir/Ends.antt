-- ===== src/Fat/Dir/Ends.antt =====
-- The search of a directory ends: in the chain of its clusters an end comes within the fuel.
use mathlib.Core.Path.{subst}
use os_projet.Common.{
  ℕ, zero, suc, ◌+◌, ◌≡◌, refl, Bool, true, false, Option, none, some, List, if◌then◌else◌, ◌⊎◌,
  inl, inr, Bool-cases, sym,
}
use os_projet.Cstring.Memory.{Bytes}
use os_projet.Fat.Disk.{Disk, read, seek_set}
use os_projet.Fat.Table.{
  FatFileSystem, find_fat_entry, cluster_number_to_address, cluster_number_to_fat_entry_index,
  decode, odd, entry_bytes,
}
use os_projet.Fat.Dir.{
  Copy, Scan, slot, Slot, next, end, entry, throw, matches, find, found, absent, thrown, exhausted,
  Search, start, find_in_clusters, ends_chain, invalid_cluster,
}
use os_projet.Fat.Dir.Iterator.{DirIterator, in_clusters, find_in_root, search}

-- A search that has come to an end, on a disk with the bytes m.
abbrev pub Ended : Bytes → Search → Type 0
Ended m (found p d) = d.bytes ≡ m
Ended m (absent d) = d.bytes ≡ m
Ended m (thrown e) = Unit
Ended m exhausted = ⊥

-- The chain ends behind an entry, or goes on as P says.
abbrev pub EndsBehind : (ℕ → Type 0) → FatFileSystem → Option (ℕ × Disk) → Type 0
EndsBehind P s none = Unit
EndsBehind P s (some (c', d')) = (ends_chain s c' ≡ true) ⊎ P c'

-- The chain from a cluster comes to an end, or to a number that is none, in at most f steps.
abbrev pub ChainEnds : ℕ → FatFileSystem → Bytes → ℕ → Type 0
ChainEnds zero s m c = ⊥
ChainEnds (suc f) s m c =
    EndsBehind (λ c'. ChainEnds f s m c') s (find_fat_entry s c 0 (record { bytes = m; pos = 0 }))

pub find_fat_entry_pos :
    (s : FatFileSystem) (c : ℕ) (d : Disk)
    → find_fat_entry s c 0 d ≡ find_fat_entry s c 0 (record { bytes = d.bytes; pos = 0 })
unfolding find_fat_entry
find_fat_entry_pos s c d = refl

abbrev pub Reads : Bytes → Option (ℕ × Disk) → Type 0
Reads m none = Unit
Reads m (some (c, d)) = d.bytes ≡ m

pub find_fat_entry-Reads :
    (s : FatFileSystem) (c : ℕ) (d : Disk) → Reads (d.bytes) (find_fat_entry s c 0 d)
unfolding find_fat_entry
find_fat_entry-Reads s c d = go (cluster_number_to_fat_entry_index s c 0)
  where
    go :
        (i : Option ℕ)
        → Reads (d.bytes) (elim i [
          | none ↦ none
          | some i ↦
              (let (x, d') = read (entry_bytes s.fat_type) (seek_set i d) in
                some (decode s.fat_type (odd c) x, d'))
        ])
    go none = tt
    go (some i) = refl

find-Ended : (c : Copy) (m : Bytes) (t : List ℕ) (n p : ℕ) (s : Scan) → Ended m (find c m t n p s)
unfolding find
find-Ended c m t zero p s = refl
find-Ended c m t (suc n) p s = go (slot c m p s) (λ s'. find-Ended c m t n (p + 32) s')
  where
    on :
        (b : Bool) (s' : Scan)
        → Ended m (find c m t n (p + 32) s')
        → Ended m (elim b [
          | true ↦ found p (record { bytes = m; pos = p })
          | false ↦ find c m t n (p + 32) s'
        ])
    on true s' rest = refl
    on false s' rest = rest

    go :
        (r : Slot)
        → ((s' : Scan) → Ended m (find c m t n (p + 32) s'))
        → Ended m (elim r [
          | next s' ↦ find c m t n (p + 32) s'
          | end ↦ absent (record { bytes = m; pos = p + 32 })
          | throw e ↦ thrown e
          | entry s' ↦ (elim (matches s'.name 0 t) [
            | true ↦ found p (record { bytes = m; pos = p })
            | false ↦ find c m t n (p + 32) s'
          ])
        ])
    go (next s') rest = rest s'
    go end rest = refl
    go (throw e) rest = tt
    go (entry s') rest = on (matches s'.name 0 t) s' (rest s')

-- What the rest of the chain needs, given the entry of the cluster.
abbrev Onward : ℕ → FatFileSystem → Bytes → Option (ℕ × Disk) → Type 0
Onward f s m none = Unit
Onward f s m (some (c', d')) = (d'.bytes ≡ m) × ((ends_chain s c' ≡ true) ⊎ ChainEnds f s m c')

chain-Onward :
    (f : ℕ) (s : FatFileSystem) (c : ℕ) (d : Disk)
    → ChainEnds (suc f) s d.bytes c
    → Onward f s d.bytes (find_fat_entry s c 0 d)
chain-Onward f s c d h =
    go (find_fat_entry s c 0 d) (rw (sym (find_fat_entry_pos s c d)) at h)
      (find_fat_entry-Reads s c d)
  where
    go :
        (r : Option (ℕ × Disk))
        → EndsBehind (λ c'. ChainEnds f s d.bytes c') s r
        → Reads (d.bytes) r
        → Onward f s d.bytes r
    go none h e = tt
    go (some (c', d')) h e = (e, h)

find_in_clusters-Ended :
    (f : ℕ) (copy : Copy) (s : FatFileSystem) (junk : ℕ → Bytes) (t : List ℕ) (c : ℕ) (d : Disk)
    → ChainEnds f s d.bytes c
    → Ended d.bytes (find_in_clusters copy f s junk t c d)
unfolding find_in_clusters
find_in_clusters-Ended zero copy s junk t c d h = h
find_in_clusters-Ended (suc f) copy s junk t c d h =
    top (cluster_number_to_address s c)
      (λ a. find-Ended copy d.bytes t s.number_of_entries_per_cluster a (start (junk f)))
      (further (find_fat_entry s c 0 d) (chain-Onward f s c d h)
        (λ c' d' h'. find_in_clusters-Ended f copy s junk t c' d' h'))
  where
    on : Option (ℕ × Disk) → Search
    on r = elim r [
      | none ↦ thrown invalid_cluster
      | some (c', d') ↦
          let rest = find_in_clusters copy f s junk t c' d' in
          if ends_chain s c' then absent d' else rest
    ]

    further :
        (r : Option (ℕ × Disk))
        → Onward f s d.bytes r
        → ((c' : ℕ) (d' : Disk)
            → ChainEnds f s d'.bytes c'
            → Ended d'.bytes (find_in_clusters copy f s junk t c' d'))
        → Ended d.bytes (on r)
    further none h rest = tt
    further (some (c', d')) (e, inl last) rest = rw last e
    further (some (c', d')) (e, inr more) rest = elim (Bool-cases (ends_chain s c')) [
      | inl last ↦ rw last e
      | inr open_end ↦
          let more' : ChainEnds f s d'.bytes c' = rw (sym e) at more in
          rw open_end
            (subst (λ m. Ended m (find_in_clusters copy f s junk t c' d')) e (rest c' d' more'))
    ]

    top :
        (a : Option ℕ)
        → ((a : ℕ)
            → Ended d.bytes
                (find copy d.bytes t s.number_of_entries_per_cluster a (start (junk f))))
        → Ended d.bytes (on (find_fat_entry s c 0 d))
        → Ended d.bytes (elim a [
          | none ↦ thrown invalid_cluster
          | some a ↦
              (elim (find copy d.bytes t s.number_of_entries_per_cluster a (start (junk f))) [
                | found p d' ↦ found p d'
                | absent d' ↦ on (find_fat_entry s c 0 d)
                | thrown e ↦ thrown e
                | exhausted ↦ exhausted
              ])
        ])
    top none first rest = tt
    top (some a) first rest =
        here (find copy d.bytes t s.number_of_entries_per_cluster a (start (junk f))) (first a) rest
      where
        here :
            (r : Search)
            → Ended d.bytes r
            → Ended d.bytes (on (find_fat_entry s c 0 d))
            → Ended d.bytes (elim r [
              | found p d' ↦ found p d'
              | absent d' ↦ on (find_fat_entry s c 0 d)
              | thrown e ↦ thrown e
              | exhausted ↦ exhausted
            ])
        here (found p d') e rest = e
        here (absent d') e rest = rest
        here (thrown x) e rest = tt
        here exhausted e rest = e

-- A search of the current directory ends where the chain of its clusters does within the fuel.
pub search-Ended :
    (c c' : Copy) (f : ℕ) (s : FatFileSystem) (junk : ℕ → Bytes) (it : DirIterator) (t : List ℕ)
    (d : Disk)
    → (in_clusters s it ≡ true → ChainEnds f s d.bytes it.first_cluster_here)
    → Ended d.bytes (search c c' f s junk it t d)
unfolding search find_in_root
search-Ended c c' f s junk it t d h = elim (Bool-cases (in_clusters s it)) [
  | inl chain ↦ rw chain (find_in_clusters-Ended f c s junk t it.first_cluster_here d (h chain))
  | inr root ↦ rw root (go s.root_directory_begin)
]
  where
    go :
        (a : Option ℕ)
        → Ended d.bytes (elim a [
          | none ↦ thrown invalid_cluster
          | some a ↦ find c' d.bytes t s.root_ent_cnt a (start (junk 0))
        ])
    go none = tt
    go (some a) = find-Ended c' d.bytes t s.root_ent_cnt a (start (junk 0))

-- ===== src/Fs/Rootfs/Mounts.antt =====
-- A file system that is mounted is found, and the others stay where they are.
use os_projet.Common.{
  ℕ, zero, suc, ◌+◌, ◌≡◌, refl, true, false, Option, none, some, List, [], ◌∷◌, get_elem?, set,
  arith, Bool-cases, inl, inr,
}
use os_projet.Fs.{Outcome, ok, failed, out_of_fuel}
use os_projet.Fs.Rootfs.{
  MntEntry, in_use, is_set, same_name, lookup_from, lookup_mnt, first_free, mount, RootError,
  too_many_mounts,
}

same_name_refl : (a : List ℕ) → same_name a a ≡ true
same_name_refl [] = refl
same_name_refl (x ∷ a) = ground (arith, same_name_refl a)

module _ {V : Type 0} where
  -- The first free place of a table, counted from its start.
  pub record IsFree (mnts : List (MntEntry V)) (j : ℕ) : Type 0 where
    pub entry : MntEntry V
    pub here : get_elem? mnts j ≡ some entry
    pub free : in_use entry ≡ false

  abbrev pub AllUsed : List (MntEntry V) → Type 0
  AllUsed [] = Unit
  AllUsed (e ∷ mnts) = (in_use e ≡ true) × AllUsed mnts

  abbrev FirstFree : List (MntEntry V) → ℕ → Option ℕ → Type 0
  FirstFree mnts i none = AllUsed mnts
  FirstFree mnts i (some k) = (j : ℕ) × (k ≡ i + j) × IsFree mnts j

  first_free-FirstFree : (mnts : List (MntEntry V)) (i : ℕ) → FirstFree mnts i (first_free mnts i)
  unfolding first_free
  first_free-FirstFree [] i = tt
  first_free-FirstFree (e ∷ mnts) i = elim (Bool-cases (in_use e)) [
    | inl used ↦ rw used (on (first_free mnts (suc i)) (first_free-FirstFree mnts (suc i)) used)
    | inr free ↦ rw free (0, omega arith, record { entry = e; here = refl; free = free })
  ]
    where
      on : (r : Option ℕ) → FirstFree mnts (suc i) r → in_use e ≡ true → FirstFree (e ∷ mnts) i r
      on none all used = (used, all)
      on (some k) (j, place, f) used =
          (suc j, omega (arith, place), record { entry = f.entry; here = f.here; free = f.free })

  lookup_from-set :
      (mnts : List (MntEntry V)) (i j : ℕ) (v : V) (mountpath : List ℕ)
      → is_set mountpath ≡ true
      → lookup_from mnts i mountpath ≡ none
      → IsFree mnts j
      → lookup_from (set mnts j (record { fsys = some v; mountpath = mountpath })) i mountpath
        ≡ some (i + j)
  unfolding lookup_from
  lookup_from-set [] i j v mountpath h e f = absurd (nothing (f.here))
    where
      nothing : {e : MntEntry V} → none ≡ some e → ⊥
      nothing h = cc
  lookup_from-set (e ∷ mnts) i zero v mountpath h no_match f =
      let here : i + 0 ≡ i = omega arith in rw (here, h, same_name_refl mountpath) refl
  lookup_from-set (e ∷ mnts) i (suc j) v mountpath h no_match f =
      let there : suc i + j ≡ i + suc j = omega arith in
      let rest = λ (no_match' : lookup_from mnts (suc i) mountpath ≡ none).
        lookup_from-set mnts (suc i) j v mountpath h no_match'
          (record { entry = f.entry; here = f.here; free = f.free }) in
      ground (arith, no_match, there, rest)

  lookup_from-other :
      (mnts : List (MntEntry V)) (i j : ℕ) (v : V) (mountpath str : List ℕ)
      → same_name str mountpath ≡ false
      → IsFree mnts j
      → lookup_from (set mnts j (record { fsys = some v; mountpath = mountpath })) i str
        ≡ lookup_from mnts i str
  unfolding lookup_from
  lookup_from-other [] i j v mountpath str h f = refl
  lookup_from-other (e ∷ mnts) i zero v mountpath str h f =
      let same : some e ≡ some (f.entry) = f.here in
      let free : in_use e ≡ false = cc in ground (arith, h, free)
  lookup_from-other (e ∷ mnts) i (suc j) v mountpath str h f =
      let rest =
        lookup_from-other mnts (suc i) j v mountpath str h
          (record { entry = f.entry; here = f.here; free = f.free }) in
      rw rest refl

  -- What mount gives.
  abbrev pub Mounts :
      {E : Type 0}
      → List (MntEntry V)
      → V
      → List ℕ
      → Outcome (RootError E) (List (MntEntry V))
      → Type 0
  Mounts mnts v mountpath (ok mnts') =
      (i : ℕ) × IsFree mnts i
      × (mnts' ≡ set mnts i (record { fsys = some v; mountpath = mountpath }))
      × (lookup_mnt mnts' mountpath ≡ some i)
      × ((str : List ℕ)
          → same_name str mountpath ≡ false
          → lookup_mnt mnts' str ≡ lookup_mnt mnts str)
  Mounts mnts v mountpath (failed e) = (e ≡ too_many_mounts) × AllUsed mnts
  Mounts mnts v mountpath out_of_fuel = ⊥

  -- A mount at a path that is not empty and not in use takes a free place of the table, and from then on the
  -- path is found there and every other path where it was before; the mount fails, with the exception for
  -- too many mounts, only where every place is in use.
  pub mount-Mounts :
      (E : Type 0) (mnts : List (MntEntry V)) (v : V) (mountpath : List ℕ)
      → is_set mountpath ≡ true
      → lookup_mnt mnts mountpath ≡ none
      → Mounts {E = E} mnts v mountpath (mount {E = E} mnts v mountpath)
  unfolding mount lookup_mnt
  mount-Mounts E mnts v mountpath h e = go (first_free mnts 0) (first_free-FirstFree mnts 0)
    where
      go :
          (r : Option ℕ)
          → FirstFree mnts 0 r
          → Mounts {E = E} mnts v mountpath (elim r [
            | none ↦ failed too_many_mounts
            | some i ↦ ok (set mnts i (record { fsys = some v; mountpath = mountpath }))
          ])
      go none all = (refl, all)
      go (some k) (j, place, f) =
          let at : k ≡ j = omega (arith, place) in
          let found : 0 + j ≡ j = omega arith in
          rw at (
            j,
            f,
            refl,
            rw found at (lookup_from-set mnts 0 j v mountpath h e f),
            λ str ne. lookup_from-other mnts 0 j v mountpath str ne f,
          )

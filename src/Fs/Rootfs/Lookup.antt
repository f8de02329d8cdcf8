-- ===== src/Fs/Rootfs/Lookup.antt =====
-- The place in the table of mounts that `lookup_mnt` of kernel/fs/rootfs.cc finds.
use os_projet.Common.{
  ℕ, zero, suc, ◌+◌, ◌<◌, ◌≡◌, refl, ap, Bool, true, false, ◌&&◌, Option, none, some, List, [], ◌∷◌,
  if◌then◌else◌, get_elem?, arith, Bool-cases, inl, inr,
}
use os_projet.Fs.Rootfs.{MntEntry, in_use, is_set, same_name, lookup_from}

module _ {V : Type 0} where
  pub record IsFound (es : List (MntEntry V)) (str : List ℕ) (j : ℕ) : Type 0 where
    pub volume : V
    pub mountpath : List ℕ
    pub here : get_elem? es j ≡ some (record { fsys = some volume; mountpath = mountpath })
    pub named : is_set mountpath ≡ true
    pub same : same_name str mountpath ≡ true

  -- The first place from i on that is found, or that there is none.
  abbrev pub Found : List (MntEntry V) → ℕ → List ℕ → Option ℕ → Type 0
  Found es i str none = (j : ℕ) → IsFound es str j → ⊥
  Found es i str (some k) =
      (j : ℕ) × (k ≡ i + j) × IsFound es str j × ((l : ℕ) → l < j → IsFound es str l → ⊥)

  abbrev is_match : List ℕ → MntEntry V → Bool
  is_match str e = in_use e && is_set e.mountpath && same_name str e.mountpath

  not_in_front :
      (e : MntEntry V) (es : List (MntEntry V)) (str : List ℕ)
      → is_match str e ≡ false
      → IsFound (e ∷ es) str 0
      → ⊥
  not_in_front e es str other f =
      let match : is_match str e ≡ (is_set f.mountpath && same_name str f.mountpath) =
        ap (λ o. elim o [ none ↦ true | some e ↦ is_match str e ]) f.here in
      let named = f.named in let same = f.same in absurd (ground (arith, match, other, named, same))

  behind :
      (e : MntEntry V) (es : List (MntEntry V)) (str : List ℕ) (j : ℕ)
      → IsFound (e ∷ es) str (suc j)
      → IsFound es str j
  behind e es str j f = record {
    volume = f.volume;
    mountpath = f.mountpath;
    here = f.here;
    named = f.named;
    same = f.same;
  }

  Found-later :
      (e : MntEntry V) (es : List (MntEntry V)) (i : ℕ) (str : List ℕ) (r : Option ℕ)
      → is_match str e ≡ false
      → Found es (suc i) str r
      → Found (e ∷ es) i str r
  Found-later e es i str none other f = go
    where
      go : (j : ℕ) → IsFound (e ∷ es) str j → ⊥
      go zero found = not_in_front e es str other found
      go (suc j) found = f j (behind e es str j found)
  Found-later e es i str (some k) other (j, place, f, first) = (
    suc j,
    omega (arith, place),
    record {
      volume = f.volume;
      mountpath = f.mountpath;
      here = f.here;
      named = f.named;
      same = f.same;
    },
    go,
  )
    where
      go : (l : ℕ) → l < suc j → IsFound (e ∷ es) str l → ⊥
      go zero lt found = not_in_front e es str other found
      go (suc l) lt found = first l (omega arith) (behind e es str l found)

  Found-here :
      (v : Option V) (path : List ℕ) (es : List (MntEntry V)) (i : ℕ) (str : List ℕ) (r : Option ℕ)
      → Found es (suc i) str r
      → Found (record { fsys = v; mountpath = path } ∷ es) i str (
          if (elim v [ none ↦ false | some v ↦ true ]) && is_set path && same_name str path
          then some i
          else r)
  Found-here none path es i str r f =
      Found-later (record { fsys = none; mountpath = path }) es i str r refl f
  Found-here (some v) path es i str r f = elim (Bool-cases (is_set path && same_name str path)) [
    | inr other ↦
        rw other (Found-later (record { fsys = some v; mountpath = path }) es i str r other f)
    | inl match ↦ rw match (
      0,
      omega arith,
      record {
        volume = v;
        mountpath = path;
        here = refl;
        named = ground (arith, match);
        same = ground (arith, match);
      },
      λ l lt found. absurd (omega (arith, lt)),
    )
  ]

  pub lookup_from-Found :
      (es : List (MntEntry V)) (i : ℕ) (str : List ℕ) → Found es i str (lookup_from es i str)
  unfolding lookup_from
  lookup_from-Found [] i str = λ j found. absurd (ground (arith, found.here))
  lookup_from-Found (e ∷ es) i str =
      Found-here e.fsys e.mountpath es i str (lookup_from es (suc i) str)
        (lookup_from-Found es (suc i) str)

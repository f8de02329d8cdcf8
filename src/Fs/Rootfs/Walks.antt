-- ===== src/Fs/Rootfs/Walks.antt =====
-- How the iterator of the root file system walks between the mounted file systems.
use os_projet.Common.{
  ℕ, Bool, ◌≤◌, ◌<◌, ◌≡◌, refl, true, false, ◌||◌, Option, none, some, List, [], ◌∷◌, ◌++◌,
  if◌then◌else◌, length, get_elem?, arith, Bool-cases, inl, inr, ltb,
}
use os_projet.Fs.{
  Outcome, ok, failed, out_of_fuel, bind, Yields, Yields-map, Status, dir_entry, file_entry,
  link_entry, underrun, np,
}
use os_projet.Fs.Rootfs.Lookup.{IsFound, Found, lookup_from-Found}
use os_projet.Fs.Rootfs.{
  MntEntry, mountpath_of, is_set, same_name, lookup_from, lookup_mnt, RootError,
  indirection_overflow, DirIterator, Indirection, enter, try_mount, get_canonical_path, after, feed,
  max_stack, raised,
}

module _ {E D F V : Type 0} (ops : DirIterator E D F) (get_iterator : V → D)
    (mnts : List (MntEntry V)) where
  -- The file system that is mounted at place i.
  pub record IsMounted (i : ℕ) : Type 0 where
    pub volume : V
    pub mountpath : List ℕ
    pub here : get_elem? mnts i ≡ some (record { fsys = some volume; mountpath = mountpath })
    pub named : is_set mountpath ≡ true

  abbrev pub AreMounted : List (Indirection D) → Type 0
  AreMounted [] = Unit
  AreMounted (t ∷ stk) = IsMounted t.offset × AreMounted stk

  -- The stack fits, and each iterator on it belongs to a mounted file system.
  pub record IsWalk (stk : List (Indirection D)) : Type 0 where
    pub fits : length stk ≤ max_stack
    pub mounted : AreMounted stk

  -- The name is `.` or `..`
  abbrev pub is_dots : List ℕ → Bool
  is_dots str = same_name str (46 ∷ []) || same_name str (46 ∷ 46 ∷ [])

  -- The place that the stack stands for has no entry with the name, and has the canonical path given; the iterator on
  -- top may change as it is asked.
  pub data Lacks (str : List ℕ)
      : List (Indirection D) → List (Indirection D) → List ℕ → Type 0 where
    at_root : is_set str ≡ true → is_dots str ≡ false → Lacks str [] [] (47 ∷ [])
    within :
        {t : Indirection D}
        → {stk : List (Indirection D)} → {d : D} → {path : List ℕ} → is_set str ≡ true
        → ops.feed str t.di ≡ ok (np, d)
        → ops.canonical_path d ≡ ok path
        → Lacks str
            (t ∷ stk)
            (record t { di = d } ∷ stk)
            (mountpath_of ops get_iterator mnts t.offset ++ path)

  -- What `<<` answers and does to the stack.
  pub data RootStep (str : List ℕ)
      : List (Indirection D) → Status → List (Indirection D) → Type 0 where
    stays : {stk : List (Indirection D)} → is_set str ≡ false → RootStep str stk dir_entry stk
    stays_at_root : is_dots str ≡ true → RootStep str [] dir_entry []
    moves :
        {t : Indirection D}
        → {stk : List (Indirection D)} → {d : D} → is_set str ≡ true
        → ops.feed str t.di ≡ ok (dir_entry, d)
        → RootStep str (t ∷ stk) dir_entry (record t { di = d } ∷ stk)
    is_file :
        {t : Indirection D}
        → {stk : List (Indirection D)} → {d : D} → is_set str ≡ true
        → ops.feed str t.di ≡ ok (file_entry, d)
        → RootStep str (t ∷ stk) file_entry (record t { di = d } ∷ stk)
    leaves :
        {t : Indirection D}
        → {stk : List (Indirection D)} → {d : D} → is_set str ≡ true
        → ops.feed str t.di ≡ ok (underrun, d)
        → RootStep str (t ∷ stk) dir_entry stk
    mounts :
        {stk stk' : List (Indirection D)}
        → {i : ℕ} → {path : List ℕ} → Lacks str stk stk' path
        → length stk' < max_stack
        → (f : IsFound mnts (path ++ str) i) → ((l : ℕ) → l < i → IsFound mnts (path ++ str) l → ⊥)
        → RootStep str stk dir_entry (record { di = get_iterator f.volume; offset = i } ∷ stk')
    is_missing :
        {stk stk' : List (Indirection D)}
        → {path : List ℕ} → Lacks str stk stk' path
        → ((l : ℕ) → IsFound mnts (path ++ str) l → ⊥)
        → RootStep str stk np stk'

  abbrev pub RootSteps : List ℕ → List (Indirection D) → Status × List (Indirection D) → Type 0
  RootSteps str stk r = RootStep str stk r.0 r.1

  enter_lem :
      (i : ℕ) (v : V) (path : List ℕ) (stk : List (Indirection D))
      → get_elem? mnts i ≡ some (record { fsys = some v; mountpath = path })
      → enter ops get_iterator mnts i stk ≡ (
          if ltb (length stk) max_stack
          then ok (dir_entry, record { di = get_iterator v; offset = i } ∷ stk)
          else failed indirection_overflow)
  unfolding enter
  enter_lem i v path stk e = ground (arith, e)

  try_mount-RootStep :
      (str path : List ℕ) (stk stk' : List (Indirection D))
      → Lacks str stk stk' path
      → Yields (RootSteps str stk) (try_mount ops get_iterator mnts (path ++ str) stk')
  unfolding try_mount lookup_mnt
  try_mount-RootStep str path stk stk' lacks =
      go (lookup_from mnts 0 (path ++ str)) (lookup_from-Found mnts 0 (path ++ str))
    where
      room :
          (i : ℕ) (f : IsFound mnts (path ++ str) i)
          → ((l : ℕ) → l < i → IsFound mnts (path ++ str) l → ⊥)
          → Yields {E = RootError E} (RootSteps str stk) (
              if ltb (length stk') max_stack
              then ok (dir_entry, record { di = get_iterator f.volume; offset = i } ∷ stk')
              else failed indirection_overflow)
      room i f first = elim (Bool-cases (ltb (length stk') max_stack)) [
        | inl fits ↦ rw fits (mounts lacks (ground (arith, fits)) f first)
        | inr full ↦ rw full tt
      ]

      go :
          (r : Option ℕ)
          → Found mnts 0 (path ++ str) r
          → Yields {E = RootError E}
              (RootSteps str stk)
              (elim r [ none ↦ ok (np, stk') | some i ↦ enter ops get_iterator mnts i stk' ])
      go none f = is_missing lacks f
      go (some k) (j, place, f, first) =
          let at : k ≡ j = omega (arith, place) in
          rw (at, enter_lem j f.volume f.mountpath stk' f.here) (room j f first)

  after-RootStep :
      (str : List ℕ) (answer : Status) (t : Indirection D) (d : D) (stk : List (Indirection D))
      → is_set str ≡ true
      → ops.feed str t.di ≡ ok (answer, d)
      → Yields
          (RootSteps str (t ∷ stk))
          (after ops get_iterator mnts str answer (record t { di = d }) stk)
  unfolding after get_canonical_path
  after-RootStep str dir_entry t d stk named e = moves named e
  after-RootStep str file_entry t d stk named e = is_file named e
  after-RootStep str link_entry t d stk named e = tt
  after-RootStep str underrun t d stk named e = leaves named e
  after-RootStep str np t d stk named e = go (ops.canonical_path d) refl
    where
      rest : List ℕ → Outcome (RootError E) (Status × List (Indirection D))
      rest path = try_mount ops get_iterator mnts (path ++ str) (record t { di = d } ∷ stk)

      go :
          (r : Outcome E (List ℕ))
          → ops.canonical_path d ≡ r
          → Yields {E = RootError E} (RootSteps str (t ∷ stk)) (
              bind
                (elim (bind r (λ str. ok (mountpath_of ops get_iterator mnts t.offset ++ str))) [
                  | ok a ↦ ok a
                  | failed e ↦ failed (raised e)
                  | out_of_fuel ↦ out_of_fuel
                ])
                rest)
      go (ok path) h =
          try_mount-RootStep str (mountpath_of ops get_iterator mnts t.offset ++ path) (t ∷ stk)
            (record t { di = d } ∷ stk) (within named e h)
      go (failed x) h = tt
      go out_of_fuel h = tt

  feed-RootStep :
      (str : List ℕ) (stk : List (Indirection D))
      → Yields (RootSteps str stk) (feed ops get_iterator mnts str stk)
  unfolding feed
  feed-RootStep [] stk = stays refl
  feed-RootStep (x ∷ str) [] = elim (Bool-cases (is_dots (x ∷ str))) [
    | inl dots ↦ rw dots (stays_at_root dots)
    | inr name ↦ rw name (try_mount-RootStep (x ∷ str) (47 ∷ []) [] [] (at_root refl name))
  ]
  feed-RootStep (x ∷ str) (t ∷ stk) = go (ops.feed (x ∷ str) t.di) refl
    where
      go :
          (r : Outcome E (Status × D))
          → ops.feed (x ∷ str) t.di ≡ r
          → Yields {E = RootError E} (RootSteps (x ∷ str) (t ∷ stk)) (
              bind
                (elim r [ ok a ↦ ok a | failed e ↦ failed (raised e) | out_of_fuel ↦ out_of_fuel ])
                (λ r. after ops get_iterator mnts (x ∷ str) r.0 (record t { di = r.1 }) stk))
      go (ok (answer, d)) h = after-RootStep (x ∷ str) answer t d stk refl h
      go (failed e) h = tt
      go out_of_fuel h = tt

  Lacks-IsWalk :
      (str : List ℕ) (stk stk' : List (Indirection D)) (path : List ℕ)
      → IsWalk stk
      → Lacks str stk stk' path
      → IsWalk stk'
  Lacks-IsWalk str [] [] _ w (at_root named other) = w
  Lacks-IsWalk str [] (t ∷ stk) path w lacks = elim lacks [ ]
  Lacks-IsWalk str (t ∷ stk) [] path w lacks = elim lacks [ ]
  Lacks-IsWalk str (t ∷ stk) _ _ w (within named e h) = record {
    fits = w.fits;
    mounted = w.mounted;
  }

  RootStep-IsWalk :
      (str : List ℕ) (stk stk' : List (Indirection D)) (answer : Status)
      → IsWalk stk
      → RootStep str stk answer stk'
      → IsWalk stk'
  RootStep-IsWalk str stk _ _ w (stays e) = w
  RootStep-IsWalk str [] [] _ w (stays_at_root e) = w
  RootStep-IsWalk str (t ∷ stk) _ _ w (moves named e) = record {
    fits = w.fits;
    mounted = w.mounted;
  }
  RootStep-IsWalk str (t ∷ stk) _ _ w (is_file named e) = record {
    fits = w.fits;
    mounted = w.mounted;
  }
  RootStep-IsWalk str (t ∷ stk) _ _ w (leaves named e) = record {
    fits = omega (arith, w.fits);
    mounted = w.mounted.1;
  }
  RootStep-IsWalk str stk stk' _ w (is_missing {path = path} lacks none_found) =
      Lacks-IsWalk str stk stk' path w lacks
  RootStep-IsWalk str stk _ _ w (mounts {stk' = rest} {path = path} lacks room f first) =
      let w' = Lacks-IsWalk str stk rest path w lacks in
      record {
        fits = omega arith;
        mounted = (
          record { volume = f.volume; mountpath = f.mountpath; here = f.here; named = f.named },
          w'.mounted,
        );
      }

  -- What a step of the walk is, and that the walk goes on.
  abbrev pub Walks : List ℕ → List (Indirection D) → Status × List (Indirection D) → Type 0
  Walks str stk r = IsWalk r.1 × RootStep str stk r.0 r.1

  -- An empty name, and `.` and `..` at the root, are answered by DIR_ENTRY and change nothing. Another name is given to
  -- the iterator on top: where that answers DIR_ENTRY or FILE_ENTRY, so does the walk, which keeps its
  -- stack; where that answers UNDERRUN, the iterator is taken off the stack and the answer is DIR_ENTRY; and where
  -- that answers NP, or at the root, the first file system that is mounted at the canonical path with the name
  -- behind it is entered with the answer DIR_ENTRY, and NP is answered if none is mounted there. The stack
  -- stays one of at most 32 iterators, each with a number at which a file system is mounted. Nothing is said where
  -- an exception is thrown, where a link is met or where the mounted iterator gives no answer.
  pub feed-Walks :
      (str : List ℕ) (stk : List (Indirection D))
      → IsWalk stk
      → Yields (Walks str stk) (feed ops get_iterator mnts str stk)
  feed-Walks str stk w =
      Yields-map (RootSteps str stk) (Walks str stk) (feed ops get_iterator mnts str stk)
        (λ r step. (RootStep-IsWalk str stk r.1 r.0 w step, step)) (feed-RootStep str stk)

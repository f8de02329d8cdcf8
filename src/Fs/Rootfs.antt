-- ===== src/Fs/Rootfs.antt =====
-- kernel/fs/rootfs.cc: the root file system, a table of 256 mount points, and its iterator, a stack of at most
-- 32 iterators of mounted file systems. A name is the list of its bytes, without a zero byte. The mounted
-- file systems and their iterators, which the source calls through virtual functions, are parameters. A stack
-- that would hold more than 32 and a link fail; following a link is left out: the source reads the name
-- of the link from the variable that it is just initialising.
pub mod Lookup
pub mod Mounts
pub mod Walks
use os_projet.Common.{
  ℕ, zero, suc, ◌+◌, ◌-◌, ◌<◌, Bool, true, false, not, ◌&&◌, ◌||◌, Option, none, some, List, [],
  ◌∷◌, ◌++◌, ◌==◌, if◌then◌else◌, length, get_elem?, replicate, ltb, set, ◌^◌,
}
use os_projet.Fs.{
  Status, dir_entry, file_entry, link_entry, underrun, np, Outcome, ok, failed, out_of_fuel, bind,
  Token, unsized,
}

-- `class dir_iterator`
pub record DirIterator (E D F : Type 0) : Type 0 where
  pub feed : List ℕ → D → Outcome E (Status × D)
  pub canonical_path : D → Outcome E (List ℕ)
  pub open_at : List ℕ → D → Outcome E (Option F × D)
  pub tokens : D → Outcome E (List Token)

pub data RootError (E : Type 0) : Type 0 where
  raised : E → RootError E
  indirection_overflow too_many_mounts follows_link : RootError E

abbrev pub max_mounts : ℕ
max_mounts = 256

abbrev pub max_stack : ℕ
max_stack = 32

-- `struct mntentry`
pub record MntEntry (V : Type 0) : Type 0 where
  pub fsys : Option V
  pub mountpath : List ℕ

unfoldable pub no_mounts : {V : Type 0} → List (MntEntry V)
no_mounts = replicate max_mounts (record { fsys = none; mountpath = [] })

-- `strcmp(a, b) == 0`
abbrev pub same_name : List ℕ → List ℕ → Bool
same_name [] [] = true
same_name [] (y ∷ b) = false
same_name (x ∷ a) [] = false
same_name (x ∷ a) (y ∷ b) = x == y && same_name a b

abbrev pub in_use : {V : Type 0} → MntEntry V → Bool
in_use e = elim (e.fsys) [ none ↦ false | some v ↦ true ]

-- `operator bool` of a string
abbrev pub is_set : List ℕ → Bool
is_set [] = false
is_set (x ∷ str) = true

module _ {V : Type 0} where
  -- The loops of lookup_mnt and mount, from i on; `none` is -1, or the end of the table.
  unfoldable pub lookup_from : List (MntEntry V) → ℕ → List ℕ → Option ℕ
  lookup_from [] i str = none
  lookup_from (e ∷ mnts) i str =
      if in_use e && is_set e.mountpath && same_name str e.mountpath
      then some i
      else lookup_from mnts (suc i) str

  unfoldable pub lookup_mnt : List (MntEntry V) → List ℕ → Option ℕ
  lookup_mnt mnts str = lookup_from mnts 0 str

  unfoldable pub first_free : List (MntEntry V) → ℕ → Option ℕ
  first_free [] i = none
  first_free (e ∷ mnts) i = if in_use e then first_free mnts (suc i) else some i

  unfoldable pub mount :
      {E : Type 0} → List (MntEntry V) → V → List ℕ → Outcome (RootError E) (List (MntEntry V))
  mount mnts tomount mountpath = elim (first_free mnts 0) [
    | none ↦ failed too_many_mounts
    | some i ↦ ok (set mnts i (record { fsys = some tomount; mountpath = mountpath }))
  ]

-- An iterator on the stack, with the number of its mount.
pub record Indirection (D : Type 0) : Type 0 where
  pub di : D
  pub offset : ℕ

module _ {E D F V : Type 0} (ops : DirIterator E D F) (get_iterator : V → D)
    (mnts : List (MntEntry V)) where
  abbrev pub Stack : Type 0
  Stack = List (Indirection D)

  abbrev raise : {A : Type 0} → Outcome E A → Outcome (RootError E) A
  raise (ok a) = ok a
  raise (failed e) = failed (raised e)
  raise out_of_fuel = out_of_fuel

  -- The file system mounted at i is entered.
  unfoldable pub enter : ℕ → Stack → Outcome (RootError E) (Status × Stack)
  enter i stk = elim (get_elem? mnts i) [
    | none ↦ ok (np, stk)
    | some e ↦ (elim (e.fsys) [
      | none ↦ ok (np, stk)
      | some v ↦
          if ltb (length stk) max_stack
          then ok (dir_entry, record { di = get_iterator v; offset = i } ∷ stk)
          else failed indirection_overflow
    ])
  ]

  unfoldable pub try_mount : List ℕ → Stack → Outcome (RootError E) (Status × Stack)
  try_mount str stk = elim (lookup_mnt mnts str) [ none ↦ ok (np, stk) | some i ↦ enter i stk ]

  abbrev pub mountpath_of : ℕ → List ℕ
  mountpath_of i = elim (get_elem? mnts i) [ none ↦ [] | some e ↦ e.mountpath ]

  unfoldable pub get_canonical_path : Stack → Outcome (RootError E) (List ℕ)
  get_canonical_path [] = ok (47 ∷ [])
  get_canonical_path (top ∷ stk) =
      raise (bind (ops.canonical_path top.di) (λ str. ok (mountpath_of top.offset ++ str)))

  -- What `<<` makes of the answer of the iterator on top, which is now t.
  unfoldable pub after :
      List ℕ → Status → Indirection D → Stack → Outcome (RootError E) (Status × Stack)
  after str dir_entry t stk = ok (dir_entry, t ∷ stk)
  after str link_entry t stk = failed follows_link
  after str file_entry t stk = ok (file_entry, t ∷ stk)
  after str underrun t stk = ok (dir_entry, stk)
  after str np t stk =
      bind (get_canonical_path (t ∷ stk)) (λ path. try_mount (path ++ str) (t ∷ stk))

  -- `operator<<`
  unfoldable pub feed : List ℕ → Stack → Outcome (RootError E) (Status × Stack)
  feed [] stk = ok (dir_entry, stk)
  feed (x ∷ str) [] =
      if same_name (x ∷ str) (46 ∷ []) || same_name (x ∷ str) (46 ∷ 46 ∷ [])
      then ok (dir_entry, [])
      else try_mount (47 ∷ x ∷ str) []
  feed (x ∷ str) (top ∷ stk) =
      bind (raise (ops.feed (x ∷ str) top.di))
        (λ r. after (x ∷ str) r.0 (record top { di = r.1 }) stk)

  -- `nullptr` at the root
  unfoldable pub open_file : List ℕ → Stack → Outcome (RootError E) (Option F × Stack)
  open_file str [] = ok (none, [])
  open_file str (top ∷ stk) =
      raise (bind (ops.open_at str top.di) (λ r. ok (r.0, record top { di = r.1 } ∷ stk)))

  abbrev pub has_slash : List ℕ → Bool
  has_slash [] = false
  has_slash (x ∷ str) = x == 47 || has_slash str

  abbrev pub behind_first : List ℕ → List ℕ
  behind_first [] = []
  behind_first (x ∷ str) = str

  abbrev pub sized : List ℕ → Token
  sized name = record { name = name; is_directory = true; file_size = 0 }

  -- The mount points in the root directory, each in front of those before.
  unfoldable pub add_mounts : List (MntEntry V) → List Token → List Token
  add_mounts [] tokens = tokens
  add_mounts (e ∷ rest) tokens =
      let name = behind_first e.mountpath in
      add_mounts rest (if in_use e && not (has_slash name) then sized name ∷ tokens else tokens)

  unfoldable pub list : Stack → Outcome (RootError E) (List Token)
  list [] =
      let dot : Token = record { name = 46 ∷ []; is_directory = true; file_size = 2 ^ 64 - 1 } in
      ok (unsized (add_mounts mnts (sized (46 ∷ 46 ∷ []) ∷ dot ∷ [])))
  list (top ∷ stk) = raise (ops.tokens top.di)

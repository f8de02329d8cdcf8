-- ===== src/Fs/Coherent.antt =====
-- `coh_dit` of kernel/fs/templates.hh: the wrapper that gives a directory iterator the meaning of `.` and
-- `..`. The iterator that it wraps is the template's parameter, here a record of operations. A name is
-- the list of its bytes.
pub mod Refines
use os_projet.Common.{
  ℕ, zero, suc, ◌+◌, ◌*◌, ◌-◌, ◌≡◌, Bool, true, false, ◌&&◌, List, [], ◌∷◌, ◌++◌, ◌^◌, ◌==◌,
  if◌then◌else◌, get_or,
}
use os_projet.Fs.{
  Status, dir_entry, file_entry, link_entry, underrun, np, Outcome, ok, failed, out_of_fuel, bind,
  Token, unsized,
}

-- The concepts `ImplementsDirIterator` and `Listable`, for iterators in the states S that give out the files
-- F; what is thrown for an empty directory and for a file that is not there is told apart.
pub record RawIterator (E S F : Type 0) : Type 0 where
  pub push : List ℕ → S → Outcome E (Status × S)
  pub pop : S → Outcome E S
  pub depth : S → ℕ
  pub name_at : S → ℕ → Outcome E (List ℕ)
  pub open_file : List ℕ → S → Outcome E (F × S)
  pub list : S → Outcome E (List Token)
  pub is_empty_directory : E → Bool
  pub enoent : E

module _ {E S F : Type 0} (raw : RawIterator E S F) where
  -- `str[i]` of a C string
  abbrev char_at : List ℕ → ℕ → ℕ
  char_at str i = get_or str i 0

  -- `operator<<`
  unfoldable pub feed : List ℕ → S → Outcome E (Status × S)
  feed str s =
      let up : Outcome E (Status × S) = bind (raw.pop s) (λ s'. ok (dir_entry, s')) in
      if char_at str 0 == 46
      then if char_at str 1 == 46 && char_at str 2 == 0
        then if raw.depth s == 0 then ok (underrun, s) else up
        else if char_at str 1 == 0
        then ok (dir_entry, s)
        else raw.push str s
      else raw.push str s

  -- `acc = acc + raw_it[i] + string("/")` for n rounds from i on.
  unfoldable pub add_names : ℕ → S → ℕ → List ℕ → Outcome E (List ℕ)
  add_names zero s i acc = ok acc
  add_names (suc n) s i acc =
      bind (raw.name_at s i) (λ name. add_names n s (i + 1) (acc ++ name ++ 47 ∷ []))

  unfoldable pub get_canonical_path : S → Outcome E (List ℕ)
  get_canonical_path s = add_names (raw.depth s) s 0 (47 ∷ [])

  abbrev pub is_file : Status → Bool
  is_file file_entry = true
  is_file _ = false

  unfoldable pub open_file : List ℕ → S → Outcome E (F × S)
  open_file str s =
      bind (raw.push str s) (λ r. if is_file r.0 then raw.open_file str r.1 else failed raw.enoent)

  abbrev pub dots : List Token → List Token
  dots ts =
      record { name = 46 ∷ 46 ∷ []; is_directory = true; file_size = 2 ^ 64 - 1 }
      ∷ record { name = 46 ∷ []; is_directory = true; file_size = 2 ^ 64 - 1 }
      ∷ ts

  -- `do_list`
  unfoldable pub list : S → Outcome E (List Token)
  list s = elim (raw.list s) [
    | ok ts ↦ ok (dots (unsized ts))
    | failed e ↦ if raw.is_empty_directory e then ok (dots []) else failed e
    | out_of_fuel ↦ out_of_fuel
  ]

  -- One name after the other, as long as each leads to a directory.
  unfoldable pub feed_all : List (List ℕ) → S → Outcome E (Status × S)
  feed_all [] s = ok (dir_entry, s)
  feed_all (name ∷ names) s = bind (feed name s) (λ r. elim (r.0) [
    | dir_entry ↦ feed_all names r.1
    | file_entry ↦ ok r
    | link_entry ↦ ok r
    | underrun ↦ ok r
    | np ↦ ok r
  ])

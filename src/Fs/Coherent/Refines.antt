-- ===== src/Fs/Coherent/Refines.antt =====
-- A wrapped iterator is a path: what it promises over an iterator that keeps a stack of names.
use mathlib.Core.Path.{subst}
use os_projet.Common.{
  ℕ, zero, suc, ◌+◌, ◌-◌, ◌<◌, ◌≡◌, ◌≢◌, refl, sym, ap, ◌∙◌, Bool, true, false, ◌&&◌, List, [], ◌∷◌,
  ◌++◌, ◌==◌, if◌then◌else◌, get_or, drop, length, arith, inl, inr, Bool-cases,
}
use os_projet.Fs.{
  Status, dir_entry, file_entry, link_entry, underrun, np, Outcome, ok, failed, out_of_fuel, bind,
  Settles, Settles-bind,
}
use os_projet.Fs.Coherent.{RawIterator, feed, feed_all, add_names, get_canonical_path}

-- A path has its last name first.
abbrev pub Names : Type 0
Names = List (List ℕ)

abbrev pub is_self : List ℕ → Bool
is_self [] = false
is_self (x ∷ []) = x == 46
is_self (x ∷ y ∷ str) = false

abbrev pub is_parent : List ℕ → Bool
is_parent [] = false
is_parent (x ∷ []) = false
is_parent (x ∷ y ∷ []) = x == 46 && y == 46
is_parent (x ∷ y ∷ z ∷ str) = false

-- No byte ends the string early.
abbrev pub IsText : List ℕ → Type 0
IsText [] = Unit
IsText (x ∷ str) = (x ≢ 0) × IsText str

abbrev pub AreTexts : Names → Type 0
AreTexts [] = Unit
AreTexts (n ∷ ns) = IsText n × AreTexts ns

-- What a name does to a path, with the answer that is given.
pub data PathStep : Names → List ℕ → Status → Names → Type 0 where
  up : {n str : List ℕ} → {p : Names} → is_parent str ≡ true → PathStep (n ∷ p) str dir_entry p
  at_root : {str : List ℕ} → is_parent str ≡ true → PathStep [] str underrun []
  stay : {str : List ℕ} → {p : Names} → is_self str ≡ true → PathStep p str dir_entry p
  down :
      {str : List ℕ}
      → {p : Names} → is_parent str ≡ false
      → is_self str ≡ false
      → PathStep p str dir_entry (str ∷ p)
  refused :
      {str : List ℕ}
      → {p : Names} → {answer : Status} → is_parent str ≡ false
      → is_self str ≡ false
      → answer ≢ dir_entry
      → PathStep p str answer p

abbrev pub tail : Names → Names
tail [] = []
tail (n ∷ p) = p

-- The path that names lead to.
abbrev pub resolve : Names → Names → Names
resolve [] p = p
resolve (n ∷ ns) p = resolve ns (if is_parent n then tail p else if is_self n then p else n ∷ p)

-- `/a/b/` for the path with b first.
abbrev pub print : Names → List ℕ
print [] = 47 ∷ []
print (n ∷ p) = print p ++ n ++ 47 ∷ []

abbrev pub entered : Status → List ℕ → Names → Names
entered dir_entry str p = str ∷ p
entered file_entry str p = p
entered link_entry str p = p
entered underrun str p = p
entered np str p = p

-- What the wrapper relies on: the iterator is a stack of names.
pub record IsPathStack {E S F : Type 0} (raw : RawIterator E S F) (Inv : S → Type 0)
    (path : S → Names) : Type 0 where
  pub depth_law : (s : S) → Inv s → raw.depth s ≡ length (path s)
  pub pop_law :
      (s : S) (n : List ℕ) (p : Names)
      → Inv s
      → path s ≡ n ∷ p
      → (s' : S) × (raw.pop s ≡ ok s') × Inv s' × (path s' ≡ p)
  pub push_law :
      (str : List ℕ) (s : S)
      → Inv s
      → Settles
          (λ (r : Status × S). Inv r.1 × (path r.1 ≡ entered r.0 str (path s)))
          (raw.push str s)
  pub name_law :
      (s : S) (i : ℕ)
      → Inv s
      → i < length (path s)
      → raw.name_at s i ≡ ok (get_or (path s) (length (path s) - 1 - i) [])

module _ {E S F : Type 0} {raw : RawIterator E S F} {Inv : S → Type 0} {path : S → Names}
    (law : IsPathStack raw Inv path) where
  -- What a step gives.
  abbrev pub Steps : S → List ℕ → Status × S → Type 0
  Steps s str r = Inv r.1 × PathStep (path s) str r.0 (path r.1)

  feed_parent :
      (str : List ℕ) (s : S)
      → is_parent str ≡ true
      → feed raw str s ≡ (
          if raw.depth s == 0
          then ok (underrun, s)
          else bind (raw.pop s) (λ s'. ok (dir_entry, s')))
  unfolding feed
  feed_parent [] s h = cc
  feed_parent (x ∷ []) s h = cc
  feed_parent (x ∷ y ∷ []) s h = ground (arith, h)
  feed_parent (x ∷ y ∷ z ∷ str) s h = cc

  feed_self : (str : List ℕ) (s : S) → is_self str ≡ true → feed raw str s ≡ ok (dir_entry, s)
  unfolding feed
  feed_self [] s h = cc
  feed_self (x ∷ []) s h = ground (arith, h)
  feed_self (x ∷ y ∷ str) s h = cc

  feed_plain :
      (str : List ℕ) (s : S)
      → IsText str
      → is_parent str ≡ false
      → is_self str ≡ false
      → feed raw str s ≡ raw.push str s
  unfolding feed
  feed_plain [] s t h h' = refl
  feed_plain (x ∷ []) s t h h' = ground (arith, h')
  feed_plain (x ∷ y ∷ []) s (nx, (ny, u)) h h' = ground (arith, h, ny)
  feed_plain (x ∷ y ∷ z ∷ str) s (nx, (ny, (nz, u))) h h' = ground (arith, ny, nz)

  pop-Steps :
      (str : List ℕ) (s : S)
      → Inv s
      → is_parent str ≡ true
      → (p : Names) → path s ≡ p
      → Settles
          (Steps s str)
          (if length p == 0 then ok (underrun, s) else bind (raw.pop s) (λ s'. ok (dir_entry, s')))
  pop-Steps str s inv h [] e =
      let step : PathStep (path s) str underrun (path s) = rw e (at_root h) in (inv, step)
  pop-Steps str s inv h (n ∷ p) e =
      let (s', popped, inv', e') = law.pop_law s n p inv e in
      let step : PathStep (path s) str dir_entry (path s') = rw (e, e') (up h) in
      let not_root : (suc (length p) == 0) ≡ false = ground arith in
      rw (not_root, popped) (inv', step)

  push_steps :
      (str : List ℕ) (s s' : S) (answer : Status)
      → is_parent str ≡ false
      → is_self str ≡ false
      → path s' ≡ entered answer str (path s)
      → PathStep (path s) str answer (path s')
  push_steps str s s' dir_entry h h' e = rw e (down h h')
  push_steps str s s' file_entry h h' e = rw e (refused h h' (λ x. cc))
  push_steps str s s' link_entry h h' e = rw e (refused h h' (λ x. cc))
  push_steps str s s' underrun h h' e = rw e (refused h h' (λ x. cc))
  push_steps str s s' np h h' e = rw e (refused h h' (λ x. cc))

  plain-Steps :
      (str : List ℕ) (s : S)
      → is_parent str ≡ false
      → is_self str ≡ false
      → (r : Outcome E (Status × S))
      → Settles (λ (r : Status × S). Inv r.1 × (path r.1 ≡ entered r.0 str (path s))) r
      → Settles (Steps s str) r
  plain-Steps str s h h' (ok (answer, s')) (inv, e) = (inv, push_steps str s s' answer h h' e)
  plain-Steps str s h h' (failed e) u = tt
  plain-Steps str s h h' out_of_fuel u = u

  -- Over an iterator that keeps a stack of names, a name without an early end does to the path what `..`,
  -- `.` or another name means, and the iterator still keeps its stack: `..` leaves the last directory or, at
  -- the root, is answered with UNDERRUN; `.` leads to the same path; another name is on the path exactly
  -- where the answer is DIR_ENTRY. Nothing is said where the
  -- wrapped iterator throws; it is taken never to run out of fuel, and then the wrapper does not.
  pub feed-PathStep :
      (str : List ℕ) (s : S) → Inv s → IsText str → Settles (Steps s str) (feed raw str s)
  feed-PathStep str s inv t = elim (Bool-cases (is_parent str)) [
    | inl parent ↦
        rw (feed_parent str s parent, law.depth_law s inv)
          (pop-Steps str s inv parent (path s) refl)
    | inr child ↦ (elim (Bool-cases (is_self str)) [
      | inl self ↦ rw (feed_self str s self) (inv, stay self)
      | inr plain ↦
          rw (feed_plain str s t child plain)
            (plain-Steps str s child plain (raw.push str s) (law.push_law str s inv))
    ])
  ]

  -- The names so far, from the root.
  drop_here :
      (p : Names) (k : ℕ)
      → k < length p
      → print (drop k p) ≡ print (drop (suc k) p) ++ get_or p k [] ++ 47 ∷ []
  drop_here [] k h = absurd (omega arith)
  drop_here (n ∷ p) zero h = refl
  drop_here (n ∷ p) (suc k) h = drop_here p k (omega arith)

  drop_all : (p : Names) → drop (length p) p ≡ []
  drop_all [] = refl
  drop_all (n ∷ p) = drop_all p

  add_names_lem :
      (n : ℕ) (s : S) (i : ℕ)
      → Inv s
      → i + n ≡ length (path s)
      → add_names raw n s i (print (drop n (path s))) ≡ ok (print (path s))
  unfolding add_names
  add_names_lem zero s i inv e = refl
  add_names_lem (suc n) s i inv e =
      let k : length (path s) - 1 - i ≡ n = omega arith in
      rw (law.name_law s i inv (omega arith), k, sym (drop_here (path s) n (omega arith)))
        (add_names_lem n s (i + 1) inv (omega arith))

  -- The canonical path is the path of the iterator, from the root and with a slash behind each name.
  pub get_canonical_path-print : (s : S) → Inv s → get_canonical_path raw s ≡ ok (print (path s))
  unfolding get_canonical_path
  get_canonical_path-print s inv = rw (law.depth_law s inv) (
      ap (add_names raw (length (path s)) s 0) (ap print (sym (drop_all (path s))))
      ∙ add_names_lem (length (path s)) s 0 inv (omega arith))

  -- Where names lead.
  abbrev pub Leads : Names → Names → Status × S → Type 0
  Leads names p r = Inv r.1 × (r.0 ≡ dir_entry → path r.1 ≡ resolve names p)

  step_resolve :
      (str : List ℕ) (p p' : Names)
      → PathStep p str dir_entry p'
      → p' ≡ (if is_parent str then tail p else if is_self str then p else str ∷ p)
  step_resolve str p p' (up h) = ground (arith, h)
  step_resolve str p p' (stay h) = self_only str p h
    where
      self_only :
          (str : List ℕ) (p : Names)
          → is_self str ≡ true
          → p ≡ (if is_parent str then tail p else if is_self str then p else str ∷ p)
      self_only [] p h = cc
      self_only (x ∷ []) p h = ground (arith, h)
      self_only (x ∷ y ∷ str) p h = cc
  step_resolve str p p' (down h h') = ground (arith, h, h')
  step_resolve str p p' (refused h h' ne) = absurd (ne refl)

  -- Names fed one after the other: where all of them are answered with DIR_ENTRY, the path of the iterator
  -- is the one that the names lead to, each `..` taking back the name before it and each `.` nothing.
  pub feed_all-Leads :
      (names : Names) (s : S)
      → Inv s
      → AreTexts names
      → Settles (Leads names (path s)) (feed_all raw names s)
  unfolding feed_all
  feed_all-Leads [] s inv t = (inv, λ e. refl)
  feed_all-Leads (n ∷ ns) s inv (t, ts) =
      Settles-bind (Steps s n) (Leads (n ∷ ns) (path s)) (feed raw n s) _ (feed-PathStep n s inv t)
        (go (λ s' inv'. feed_all-Leads ns s' inv' ts))
    where
      go :
          ((s' : S) → Inv s' → Settles (Leads ns (path s')) (feed_all raw ns s'))
          → (r : Status × S) → Steps s n r
          → Settles (Leads (n ∷ ns) (path s)) (elim (r.0) [
            | dir_entry ↦ feed_all raw ns r.1
            | file_entry ↦ ok r
            | link_entry ↦ ok r
            | underrun ↦ ok r
            | np ↦ ok r
          ])
      go rest (dir_entry, s') (inv', step) =
          let e = step_resolve n (path s) (path s') step in
          subst (λ p. Settles (Leads ns p) (feed_all raw ns s')) e (rest s' inv')
      go rest (file_entry, s') (inv', step) = (inv', λ e. cc)
      go rest (link_entry, s') (inv', step) = (inv', λ e. cc)
      go rest (underrun, s') (inv', step) = (inv', λ e. cc)
      go rest (np, s') (inv', step) = (inv', λ e. cc)

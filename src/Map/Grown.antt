-- ===== src/Map/Grown.antt =====
-- The tree after insert of kstdlib/map.hh has put a new node in its place, as the insertion in a list.
use os_projet.Common.{
  ℕ, ◌+◌, ◌≤◌, ◌<◌, ◌≡◌, refl, sym, ap, ◌∙◌, Bool, true, false, if◌then◌else◌, arith, List, [], ◌∷◌,
  ◌++◌, ltb,
}
use mathlib.Core.List.{append_assoc}
use os_projet.Map.{Store}
use os_projet.Map.Shape.{Tree, leaf, fork, Above, in_left, in_right, Stands}
use os_projet.Map.Balance.{plug, entries}
use os_projet.Map.Place.{place}

module _ {A : Type 0} where
  -- The tree with a new node, before the colours are mended.
  abbrev pub grown : ℕ → ℕ → A → Tree A → Tree A
  grown n k v leaf = fork leaf n k v true leaf
  grown n k v (fork l p kp vp c r) =
      if ltb k kp then fork (grown n k v l) p kp vp c r else fork l p kp vp c (grown n k v r)

  pub plug-grown :
      (n k : ℕ) (v : A) (C : Above A) (t : Tree A)
      → plug (place k C t) (fork leaf n k v true leaf) ≡ plug C (grown n k v t)
  plug-grown n k v C leaf = refl
  plug-grown n k v C (fork l p kp vp c r) =
      let left = plug-grown n k v (in_left p kp vp c r C) l in
      let right = plug-grown n k v (in_right l p kp vp c C) r in ground (arith, left, right)

  -- Insertion in a list in order of the keys, behind the same key.
  abbrev pub insert_entry : ℕ → ℕ → A → List (ℕ × ℕ × A) → List (ℕ × ℕ × A)
  insert_entry n k v [] = (n, k, v) ∷ []
  insert_entry n k v ((p, kp, vp) ∷ es) =
      if ltb k kp then (n, k, v) ∷ (p, kp, vp) ∷ es else (p, kp, vp) ∷ insert_entry n k v es

  insert_entry-before :
      (n k : ℕ) (v : A) (xs : List (ℕ × ℕ × A)) (p kp : ℕ) (vp : A) (ys : List (ℕ × ℕ × A))
      → k < kp
      → insert_entry n k v (xs ++ (p, kp, vp) ∷ ys) ≡ insert_entry n k v xs ++ (p, kp, vp) ∷ ys
  insert_entry-before n k v [] p kp vp ys lt = ground arith
  insert_entry-before n k v ((q, kq, vq) ∷ xs) p kp vp ys lt =
      let rest = insert_entry-before n k v xs p kp vp ys lt in ground (arith, rest)

  insert_entry-skip :
      (n k : ℕ) (v : A) (p kp : ℕ) (vp : A) (ys : List (ℕ × ℕ × A))
      → kp ≤ k
      → insert_entry n k v ((p, kp, vp) ∷ ys) ≡ (p, kp, vp) ∷ insert_entry n k v ys
  insert_entry-skip n k v p kp vp ys le = ground arith

  insert_entry-after :
      (n k : ℕ) (v : A) (s : Store A) (par lo hi : ℕ) (t : Tree A) (es : List (ℕ × ℕ × A))
      → Stands s par lo hi t
      → hi ≤ k + 1
      → insert_entry n k v (entries t ++ es) ≡ entries t ++ insert_entry n k v es
  insert_entry-after n k v s par lo hi leaf es h le = refl
  insert_entry-after n k v s par lo hi (fork l p kp vp c r) es (low, high, m, hl, hr) le =
      let left =
        insert_entry-after n k v s p lo kp l ((p, kp, vp) ∷ entries r ++ es) hl (omega arith) in
      let right = insert_entry-after n k v s p (kp + 1) hi r es hr le in
      let step : insert_entry n k v ((p, kp, vp) ∷ entries r ++ es)
          ≡ (p, kp, vp) ∷ entries r ++ insert_entry n k v es =
        insert_entry-skip n k v p kp vp (entries r ++ es) (omega arith)
        ∙ ap (λ ys. (p, kp, vp) ∷ ys) right in
      ap (insert_entry n k v) (append_assoc (entries l) ((p, kp, vp) ∷ entries r) es)
      ∙ left
      ∙ ap (λ ys. entries l ++ ys) step
      ∙ simp append_assoc

  pub entries-grown :
      (n k : ℕ) (v : A) (s : Store A) (par lo hi : ℕ) (t : Tree A)
      → Stands s par lo hi t
      → entries (grown n k v t) ≡ insert_entry n k v (entries t)
  entries-grown n k v s par lo hi leaf h = refl
  entries-grown n k v s par lo hi (fork l p kp vp c r) (low, high, m, hl, hr) =
      let left = entries-grown n k v s p lo kp l hl in
      let right = entries-grown n k v s p (kp + 1) hi r hr in go (ltb k kp) refl left right
    where
      go :
          (b : Bool)
          → ltb k kp ≡ b
          → entries (grown n k v l) ≡ insert_entry n k v (entries l)
          → entries (grown n k v r) ≡ insert_entry n k v (entries r)
          → entries
              (if b then fork (grown n k v l) p kp vp c r else fork l p kp vp c (grown n k v r))
            ≡ insert_entry n k v (entries l ++ (p, kp, vp) ∷ entries r)
      go true e left right =
          ap (λ xs. xs ++ (p, kp, vp) ∷ entries r) left
          ∙ sym (insert_entry-before n k v (entries l) p kp vp (entries r) (ground (arith, e)))
      go false e left right =
          ap (λ ys. entries l ++ (p, kp, vp) ∷ ys) right
          ∙ sym (
              insert_entry-after n k v s p lo kp l ((p, kp, vp) ∷ entries r) hl (ground (arith, e))
              ∙ ap (λ ys. entries l ++ ys)
                  (insert_entry-skip n k v p kp vp (entries r) (ground (arith, e))))

-- ===== src/Map/Place.antt =====
-- Where insert of kstdlib/map.hh puts a new node, and what find_node finds.
use os_projet.Common.{
  ℕ, zero, suc, ◌+◌, ◌≤◌, ◌<◌, ◌≡◌, refl, ap, ◌∙◌, Bool, true, false, if◌then◌else◌, arith, some,
  ltb, max,
}
use os_projet.Map.{Store, descend, find_from}
use os_projet.Map.Shape.{Tree, leaf, fork, Above, in_left, in_right, pointer, above, Stands, Holds}
use os_projet.Map.Balance.{
  is_red, black_height, Balanced, Allows, Calm, under_black, Fits, Calms, plug,
}
use os_projet.Map.Fixup.{depth}

module _ {A : Type 0} where
  abbrev pub height : Tree A → ℕ
  height leaf = 0
  height (fork l p k v c r) = suc (max (height l) (height r))

  -- The address with the key k, 0 without one.
  abbrev pub search : ℕ → Tree A → ℕ
  search k leaf = 0
  search k (fork l p kp v c r) = if ltb k kp then search k l else if ltb kp k then search k r else p

  -- The place of a new node with the key k.
  abbrev pub place : ℕ → Above A → Tree A → Above A
  place k C leaf = C
  place k C (fork l p kp v c r) =
      if ltb k kp then place k (in_left p kp v c r C) l else place k (in_right l p kp v c C) r

  pub find_from-search :
      (f : ℕ) (s : Store A) (k par lo hi : ℕ) (t : Tree A)
      → height t < f
      → Stands s par lo hi t
      → find_from f s k (pointer t) ≡ some (search k t)
  unfolding find_from
  find_from-search zero s k par lo hi t fuel h = absurd (omega (arith, fuel))
  find_from-search (suc f) s k par lo hi leaf fuel h = refl
  find_from-search (suc f) s k par lo hi (fork l p kp v c r) fuel (low, high, n, hl, hr) =
      let left : find_from f s k (s.left p) ≡ some (search k l) =
        ap (find_from f s k) n.left ∙ find_from-search f s k p lo kp l (omega (arith, fuel)) hl in
      let right : find_from f s k (s.right p) ≡ some (search k r) =
        ap (find_from f s k) n.right
        ∙ find_from-search f s k p (kp + 1) hi r (omega (arith, fuel)) hr in
      ground (arith, left, right, n.key, n.real)

  pub descend-place :
      (f : ℕ) (s : Store A) (k par lo hi : ℕ) (C : Above A) (t : Tree A)
      → height t < f
      → Stands s par lo hi t
      → descend f s k (pointer t) (above C) ≡ some (above (place k C t))
  unfolding descend
  descend-place zero s k par lo hi C t fuel h = absurd (omega (arith, fuel))
  descend-place (suc f) s k par lo hi C leaf fuel h = refl
  descend-place (suc f) s k par lo hi C (fork l p kp v c r) fuel (low, high, n, hl, hr) =
      let left : descend f s k (s.left p) p ≡ some (above (place k (in_left p kp v c r C) l)) =
        ap (λ x. descend f s k x p) n.left
        ∙ descend-place f s k p lo kp (in_left p kp v c r C) l (omega (arith, fuel)) hl in
      let right : descend f s k (s.right p) p ≡ some (above (place k (in_right l p kp v c C) r)) =
        ap (λ x. descend f s k x p) n.right
        ∙ descend-place f s k p (kp + 1) hi (in_right l p kp v c C) r (omega (arith, fuel)) hr in
      ground (arith, left, right, n.key, n.real)

  pub depth-place : (k : ℕ) (C : Above A) (t : Tree A) → depth (place k C t) ≤ depth C + height t
  depth-place k C leaf = omega arith
  depth-place k C (fork l p kp v c r) =
      let left = depth-place k (in_left p kp v c r C) l in
      let right = depth-place k (in_right l p kp v c C) r in ground (arith, left, right)

  pub plug-place : (k : ℕ) (C : Above A) (t : Tree A) → plug (place k C t) leaf ≡ plug C t
  plug-place k C leaf = refl
  plug-place k C (fork l p kp v c r) =
      let left = plug-place k (in_left p kp v c r C) l in
      let right = plug-place k (in_right l p kp v c C) r in ground (arith, left, right)

  pub Fits-place :
      (k : ℕ) (C : Above A) (t : Tree A)
      → Balanced t
      → Fits (black_height t) C
      → Fits 0 (place k C t)
  Fits-place k C leaf b fits = fits
  Fits-place k C (fork l p kp v c r) (e, bl, br) fits =
      let left = Fits-place k (in_left p kp v c r C) l bl (e, br, fits) in
      let right = Fits-place k (in_right l p kp v c C) r br (e, bl, fits) in
      go (ltb k kp) left right
    where
      go :
          (b : Bool)
          → Fits 0 (place k (in_left p kp v c r C) l)
          → Fits 0 (place k (in_right l p kp v c C) r)
          → Fits 0
              (if b then place k (in_left p kp v c r C) l else place k (in_right l p kp v c C) r)
      go true left right = left
      go false left right = right

  pub Allows-left :
      (c d : Bool) (p k : ℕ) (v : A) (r : Tree A) (C : Above A)
      → Allows c d
      → d ≡ true
      → under_black (in_left p k v c r C) ≡ true
  Allows-left true d p k v r C a e = ground (arith, a refl, e)
  Allows-left false d p k v r C a e = refl

  pub Allows-right :
      (c d : Bool) (l : Tree A) (p k : ℕ) (v : A) (C : Above A)
      → Allows c d
      → d ≡ true
      → under_black (in_right l p k v c C) ≡ true
  Allows-right true d l p k v C a e = ground (arith, a refl, e)
  Allows-right false d l p k v C a e = refl

  pub Calms-place :
      (k : ℕ) (C : Above A) (t : Tree A)
      → Calm t
      → Calms C
      → (is_red t ≡ true → under_black C ≡ true)
      → Calms (place k C t)
  Calms-place k C leaf calm calms up = calms
  Calms-place k C (fork l p kp v c r) (al, ar, cl, cr) calms up =
      go (ltb k kp)
        (Calms-place k (in_left p kp v c r C) l cl (ar, cr, up, calms)
          (Allows-left c (is_red l) p kp v r C al))
        (Calms-place k (in_right l p kp v c C) r cr (al, cl, up, calms)
          (Allows-right c (is_red r) l p kp v C ar))
    where
      go :
          (b : Bool)
          → Calms (place k (in_left p kp v c r C) l)
          → Calms (place k (in_right l p kp v c C) r)
          → Calms
              (if b then place k (in_left p kp v c r C) l else place k (in_right l p kp v c C) r)
      go true left right = left
      go false left right = right

  -- The place is between the keys of the tree.
  pub record Between (s : Store A) (k : ℕ) (C : Above A) : Type 0 where
    pub lo : ℕ
    pub hi : ℕ
    pub low : lo ≤ k
    pub high : k < hi
    pub holds : Holds s lo hi C 0

  pub Between-place :
      (s : Store A) (k lo hi : ℕ) (C : Above A) (t : Tree A)
      → lo ≤ k
      → k < hi
      → search k t ≡ 0
      → Stands s (above C) lo hi t
      → Holds s lo hi C (pointer t)
      → Between s k (place k C t)
  Between-place s k lo hi C leaf low high e h hC = record {
    lo = lo;
    hi = hi;
    low = low;
    high = high;
    holds = hC;
  }
  Between-place s k lo hi C (fork l p kp v c r) low high e (nlow, nhigh, n, hl, hr) hC =
      go (ltb k kp) refl
        (λ below e'.
          Between-place s k lo kp (in_left p kp v c r C) l low below e' hl
            (refl, nlow, (hi, nhigh, n, hr, hC)))
        (λ beyond e'.
          Between-place s k (kp + 1) hi (in_right l p kp v c C) r beyond high e' hr
            (refl, nhigh, (lo, nlow, n, hl, hC)))
    where
      go :
          (b : Bool)
          → ltb k kp ≡ b
          → (k < kp → search k l ≡ 0 → Between s k (place k (in_left p kp v c r C) l))
          → (kp + 1 ≤ k → search k r ≡ 0 → Between s k (place k (in_right l p kp v c C) r))
          → Between s k
              (if b then place k (in_left p kp v c r C) l else place k (in_right l p kp v c C) r)
      go true eb left right = left (ground (arith, eb)) (ground (arith, e, eb))
      go false eb left right = right (ground (arith, e, eb, n.real)) (ground (arith, e, eb, n.real))

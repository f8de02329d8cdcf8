-- ===== src/Map/Zipper.antt =====
-- A subtree at its place in the tree: the moves to the nodes around it, and the writes of kstdlib/map.hh there.
use os_projet.Common.{ℕ, ◌+◌, ◌≡◌, ◌≢◌, refl, Bool, false, not, ◌&&◌, ◌==◌, arith, ◌⊎◌, inl, inr}
use os_projet.Map.{Store, set_red, rotate_left, rotate_right}
use os_projet.Map.Shape.{
  Tree, fork, Above, top, in_left, in_right, pointer, above, IsNode, Stands, Holds, Same,
  Holds-Same,
}
use os_projet.Map.Links.{Stands-Moved, other_key}
use os_projet.Map.RotateLeft.{rotate_left-Stands}
use os_projet.Map.RotateRight.{rotate_right-Stands}
use os_projet.Map.Balance.{plug}
use os_projet.Map.Whole.{Represents, plug-Represents, pointer-parent, Stands-Wider}

module _ {A : Type 0} where
  -- The subtree t stands in the place C.
  pub record At (s : Store A) (C : Above A) (t : Tree A) : Type 0 where
    pub lo : ℕ
    pub hi : ℕ
    pub stands : Stands s (above C) lo hi t
    pub holds : Holds s lo hi C (pointer t)

  pub At-plug : (s : Store A) (C : Above A) (t : Tree A) → At s C t → Represents s (plug C t)
  At-plug s C t h = plug-Represents s h.lo h.hi C t h.stands h.holds

  pub to_left :
      (s : Store A) (C : Above A) (l : Tree A) (p k : ℕ) (v : A) (c : Bool) (r : Tree A)
      → At s C (fork l p k v c r)
      → At s (in_left p k v c r C) l
  to_left s C l p k v c r h =
      let record { lo = lo; hi = hi; stands = (low, high, n, hl, hr); holds = hC } = h in
      record { lo = lo; hi = k; stands = hl; holds = (refl, low, (hi, high, n, hr, hC)) }

  pub to_right :
      (s : Store A) (C : Above A) (l : Tree A) (p k : ℕ) (v : A) (c : Bool) (r : Tree A)
      → At s C (fork l p k v c r)
      → At s (in_right l p k v c C) r
  to_right s C l p k v c r h =
      let record { lo = lo; hi = hi; stands = (low, high, n, hl, hr); holds = hC } = h in
      record { lo = k + 1; hi = hi; stands = hr; holds = (refl, high, (lo, low, n, hl, hC)) }

  pub from_left :
      (s : Store A) (C : Above A) (l : Tree A) (p k : ℕ) (v : A) (c : Bool) (r : Tree A)
      → At s (in_left p k v c r C) l
      → At s C (fork l p k v c r)
  from_left s C l p k v c r h =
      let record { lo = lo; hi = hi; stands = hl; holds = (e, low, (hi', high, n, hr, hC)) } = h in
      record {
        lo = lo;
        hi = hi';
        stands = (low, high, n, Stands-Wider s p lo hi lo k l (omega arith) (omega arith) hl, hr);
        holds = hC;
      }

  pub from_right :
      (s : Store A) (C : Above A) (l : Tree A) (p k : ℕ) (v : A) (c : Bool) (r : Tree A)
      → At s (in_right l p k v c C) r
      → At s C (fork l p k v c r)
  from_right s C l p k v c r h =
      let record { lo = lo; hi = hi; stands = hr; holds = (e, high, (lo', low, n, hl, hC)) } = h in
      record {
        lo = lo';
        hi = hi;
        stands =
            (low, high, n, hl, Stands-Wider s p lo hi (k + 1) hi r (omega arith) (omega arith) hr);
        holds = hC;
      }

  pub At-IsNode :
      (s : Store A) (C : Above A) (l : Tree A) (p k : ℕ) (v : A) (c : Bool) (r : Tree A)
      → At s C (fork l p k v c r)
      → IsNode s p k v c (above C) (pointer l) (pointer r)
  At-IsNode s C l p k v c r h = h.stands.2

  pub At-rotate_left :
      (s : Store A) (C : Above A) (a : Tree A) (n kn : ℕ) (vn : A) (cn : Bool) (b : Tree A)
      (y ky : ℕ) (vy : A) (cy : Bool) (c : Tree A)
      → At s C (fork a n kn vn cn (fork b y ky vy cy c))
      → At (rotate_left n s) C (fork (fork a n kn vn cn b) y ky vy cy c)
  At-rotate_left s C a n kn vn cn b y ky vy cy c h =
      let turned = rotate_left-Stands s h.lo h.hi C a n kn vn cn b y ky vy cy c h.holds h.stands in
      record { lo = h.lo; hi = h.hi; stands = turned.0; holds = turned.1 }

  pub At-rotate_right :
      (s : Store A) (C : Above A) (c : Tree A) (y ky : ℕ) (vy : A) (cy : Bool) (b : Tree A)
      (n kn : ℕ) (vn : A) (cn : Bool) (a : Tree A)
      → At s C (fork (fork c y ky vy cy b) n kn vn cn a)
      → At (rotate_right n s) C (fork c y ky vy cy (fork b n kn vn cn a))
  At-rotate_right s C c y ky vy cy b n kn vn cn a h =
      let turned = rotate_right-Stands s h.lo h.hi C a n kn vn cn b y ky vy cy c h.holds h.stands in
      record { lo = h.lo; hi = h.hi; stands = turned.0; holds = turned.1 }

  set_red-Same : (s : Store A) (p x : ℕ) (d : Bool) → x ≢ p → Same s (set_red p d s) x
  set_red-Same s p x d ne = record {
    key = refl;
    value = refl;
    red = ground arith;
    parent = refl;
    left = refl;
    right = refl;
  }

  -- The root of the subtree gets a colour.
  pub At-set_red :
      (s : Store A) (C : Above A) (l : Tree A) (p k : ℕ) (v : A) (c d : Bool) (r : Tree A)
      → At s C (fork l p k v c r)
      → At (set_red p d s) C (fork l p k v d r)
  At-set_red s C l p k v c d r h =
      let n = At-IsNode s C l p k v c r h in
      record {
        lo = h.lo;
        hi = h.hi;
        stands =
            Stands-Moved s (set_red p d s) (above C) (above C) h.lo h.hi d (fork l p k v c r)
              h.stands
              (λ real. record {
                key = refl;
                value = refl;
                left = refl;
                right = refl;
                parent = n.parent;
                red = ground arith;
              })
              (λ x real lo hi ne. set_red-Same s p x d ne);
        holds =
            Holds-Same s (set_red p d s) h.lo h.hi C p refl
              (λ x real out.
                set_red-Same s p x d
                  (other_key s x p (ground (arith, out, n.key, h.stands.0, h.stands.1))))
              h.holds;
      }

  -- Whether the node above is red.
  abbrev pub red_above : Above A → Bool
  red_above top = false
  red_above (in_left p k v c r C) = c
  red_above (in_right l p k v c C) = c

  pub node_above :
      (s : Store A) (C : Above A) (t : Tree A)
      → At s C t
      → ((above C ≡ 0) × (red_above C ≡ false)) ⊎ ((above C ≢ 0) × (s.red (above C) ≡ red_above C))
  node_above s top t h = inl (refl, refl)
  node_above s (in_left p k v c r C) t h =
      let n = At-IsNode s C t p k v c r (from_left s C t p k v c r h) in inr (n.real, n.red)
  node_above s (in_right l p k v c C) t h =
      let n = At-IsNode s C l p k v c t (from_right s C l p k v c t h) in inr (n.real, n.red)

  -- The test of the loop of insert_fixup.
  pub loop_test :
      (s : Store A) (C : Above A) (t : Tree A)
      → At s C t
      → pointer t ≢ 0
      → (not (s.parent (pointer t) == 0) && s.red (s.parent (pointer t))) ≡ red_above C
  loop_test s C t h real =
      go (node_above s C t h) (pointer-parent s (above C) h.lo h.hi t h.stands real)
    where
      go :
          ((above C ≡ 0) × (red_above C ≡ false))
            ⊎ ((above C ≢ 0) × (s.red (above C) ≡ red_above C))
          → s.parent (pointer t) ≡ above C
          → (not (s.parent (pointer t) == 0) && s.red (s.parent (pointer t))) ≡ red_above C
      go (inl (z, e)) q = ground (arith, z, e, q)
      go (inr (ne, e)) q = ground (arith, ne, e, q)

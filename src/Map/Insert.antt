-- ===== src/Map/Insert.antt =====
-- insert of kstdlib/map.hh as the insertion of an entry, and find_node after it.
use os_projet.Common.{ℕ, ◌+◌, ◌≤◌, ◌<◌, ◌≡◌, ◌≢◌, refl, sym, ap, ◌∙◌, true, arith, some, max}
use mathlib.Core.Path.{subst}
use os_projet.Map.{
  Store, descend, find_from, find_node, new_node, attach, insert, insert_below, insert_fixup,
}
use os_projet.Map.Shape.{
  Tree, leaf, fork, Above, top, in_left, in_right, pointer, above, IsNode, Stands, Holds, Same,
}
use os_projet.Map.Links.{Relinks, Holds-Relinks, not_above, other_key}
use os_projet.Map.Balance.{IsRedBlack, entries}
use os_projet.Map.Whole.{Represents, Fixed, Stands-Wider}
use os_projet.Map.Zipper.{At}
use os_projet.Map.Fixup.{insert_fixup-Fixed}
use os_projet.Map.Place.{
  height, search, place, find_from-search, descend-place, depth-place, Fits-place, Calms-place,
  Between, Between-place,
}
use os_projet.Map.Grown.{plug-grown, entries-grown, insert_entry}

module _ {A : Type 0} where
  -- No node of the tree is at n.
  abbrev pub Fresh : ℕ → Tree A → Type 0
  Fresh n leaf = Unit
  Fresh n (fork l p k v c r) = (n ≢ p) × Fresh n l × Fresh n r

  Stands-new_node :
      (s : Store A) (n k : ℕ) (v : A) (par lo hi : ℕ) (t : Tree A)
      → Fresh n t
      → Stands s par lo hi t
      → Stands (new_node n k v s) par lo hi t
  unfolding new_node
  Stands-new_node s n k v par lo hi leaf fresh h = tt
  Stands-new_node s n k v par lo hi (fork l p kp vp c r) (ne, fl, fr) (low, high, m, hl, hr) = (
    low,
    high,
    record {
      real = m.real;
      key = ground (arith, m.key, ne);
      value = ground (arith, m.value, ne);
      red = ground (arith, m.red, ne);
      parent = ground (arith, m.parent, ne);
      left = ground (arith, m.left, ne);
      right = ground (arith, m.right, ne);
    },
    Stands-new_node s n k v p lo kp l fl hl,
    Stands-new_node s n k v p (kp + 1) hi r fr hr,
  )

  -- The fields of a node before it is attached.
  record IsNew (s : Store A) (n k : ℕ) (v : A) : Type 0 where
    pub real : n ≢ 0
    pub key : s.key n ≡ k
    pub value : s.value n ≡ v
    pub red : s.red n ≡ true
    pub left : s.left n ≡ 0
    pub right : s.right n ≡ 0

  new_node-IsNew : (s : Store A) (n k : ℕ) (v : A) → n ≢ 0 → IsNew (new_node n k v s) n k v
  unfolding new_node
  new_node-IsNew s n k v real = record {
    real = real;
    key = ground arith;
    value = ground arith;
    red = ground arith;
    left = ground arith;
    right = ground arith;
  }

  attach-Relinks :
      (s : Store A) (lo hi n k : ℕ) (C : Above A)
      → lo ≤ k
      → k < hi
      → above C ≢ n
      → Holds s lo hi C 0
      → Relinks s (attach n k (above C) s) C n
  unfolding attach
  attach-Relinks s lo hi n k top low high ne h = refl
  attach-Relinks s lo hi n k (in_left p kp v c r C) low high ne (e, lk, (hi', kh, m, hr, hC)) = (
    ground (arith, m.real),
    refl,
    refl,
    refl,
    ground arith,
    ground (arith, m.real, m.key, e),
    ground (arith, m.real, m.key, e),
  )
  attach-Relinks s lo hi n k (in_right l p kp v c C) low high ne (e, kh, (lo', lk, m, hl, hC)) = (
    ground (arith, m.real),
    refl,
    refl,
    refl,
    ground arith,
    ground (arith, m.real, m.key, e),
    ground (arith, m.real, m.key, e),
  )

  attach-Same : (s : Store A) (n k y x : ℕ) → x ≢ n → x ≢ y → Same s (attach n k y s) x
  unfolding attach
  attach-Same s n k y x xn xy = record {
    key = refl;
    value = refl;
    red = refl;
    parent = ground arith;
    left = ground arith;
    right = ground arith;
  }

  attach-IsNode :
      (s : Store A) (n k y : ℕ) (v : A)
      → n ≢ y
      → IsNew s n k v
      → IsNode (attach n k y s) n k v true y 0 0
  unfolding attach
  attach-IsNode s n k y v ne m = record {
    real = m.real;
    key = m.key;
    value = m.value;
    red = m.red;
    parent = ground arith;
    left = ground (arith, m.left);
    right = ground (arith, m.right);
  }

  attach-At :
      (s : Store A) (n k : ℕ) (v : A) (C : Above A)
      → IsNew s n k v
      → Between s k C
      → At (attach n k (above C) s) C (fork leaf n k v true leaf)
  attach-At s n k v C m b =
      let ne : n ≢ above C =
        not_above s b.lo b.hi C 0 n b.holds m.real (ground (arith, m.key, b.low))
          (ground (arith, m.key, b.high)) in
      record {
        lo = b.lo;
        hi = b.hi;
        stands = (b.low, b.high, attach-IsNode s n k (above C) v ne m, tt, tt);
        holds =
            Holds-Relinks s (attach n k (above C) s) b.lo b.hi C 0 n b.holds
              (attach-Relinks s b.lo b.hi n k C b.low b.high (λ e. ne (sym e)) b.holds)
              (λ x real out xy.
                attach-Same s n k (above C) x
                  (other_key s x n (ground (arith, m.key, out, b.low, b.high))) xy);
      }

  pub find_node-search :
      (f : ℕ) (s : Store A) (t : Tree A) (k : ℕ)
      → Represents s t
      → height t < f
      → find_node f s k ≡ some (search k t)
  unfolding find_node
  find_node-search f s t k h fuel =
      ap (find_from f s k) h.root ∙ find_from-search f s k 0 0 h.bound t fuel h.stands

  insert-is :
      (f n k : ℕ) (v : A) (s : Store A) (y : ℕ)
      → descend f (new_node n k v s) k (new_node n k v s).root 0 ≡ some y
      → insert f n k v s ≡ insert_fixup f n (attach n k y (new_node n k v s))
  unfolding insert
  insert-is f n k v s y e = ap (insert_below f n k (new_node n k v s)) e

  new_node-root : (s : Store A) (n k : ℕ) (v : A) → (new_node n k v s).root ≡ s.root
  unfolding new_node
  new_node-root s n k v = refl

  insert-Fixed :
      (f n k : ℕ) (v : A) (s : Store A) (t : Tree A) (hi : ℕ)
      → Stands s 0 0 hi t
      → s.root ≡ pointer t
      → IsRedBlack t
      → n ≢ 0
      → Fresh n t
      → height t < f
      → search k t ≡ 0
      → k < hi
      → Fixed (insert_entry n k v (entries t)) (insert f n k v s)
  insert-Fixed f n k v s t hi h root rb real fresh fuel absent below =
      let s0 = new_node n k v s in
      let C = place k top t in
      let h0 : Stands s0 0 0 hi t = Stands-new_node s n k v 0 0 hi t fresh h in
      let root0 : s0.root ≡ pointer t = new_node-root s n k v ∙ root in
      let b : Between s0 k C = Between-place s0 k 0 hi top t (omega arith) below absent h0 root0 in
      let fixed =
        insert_fixup-Fixed f (attach n k (above C) s0) C leaf n k v leaf
          (let d = depth-place k top t in omega (arith, d, fuel))
          record {
            at = attach-At s0 n k v C (new_node-IsNew s n k v real) b;
            balanced = (refl, tt, tt);
            calm = ((λ e. refl), (λ e. refl), tt, tt);
            fits = Fits-place k top t rb.balanced tt;
            calms = Calms-place k top t rb.calm tt (λ e. ground (arith, e, rb.black_root));
          } in
      subst (Fixed (insert_entry n k v (entries t)))
        (sym (
          insert-is f n k v s (above C)
            (ap (λ x. descend f s0 k x 0) root0 ∙ descend-place f s0 k 0 0 hi top t fuel h0)))
        (subst (λ es. Fixed es (insert_fixup f n (attach n k (above C) s0)))
          (ap entries (plug-grown n k v top t) ∙ entries-grown n k v s 0 0 hi t h) fixed)

  -- insert of a key that find_node does not find, with a new node at an address of no node, and fuel for the
  -- height of the tree: the nodes make a red-black tree with the entry added in its place, and with the other
  -- nodes at their addresses.
  pub insert-refines :
      (f n k : ℕ) (v : A) (s : Store A) (t : Tree A)
      → Represents s t
      → IsRedBlack t
      → n ≢ 0
      → Fresh n t
      → height t < f
      → find_node f s k ≡ some 0
      → Fixed (insert_entry n k v (entries t)) (insert f n k v s)
  insert-refines f n k v s t h rb real fresh fuel absent =
      let hi = max h.bound (k + 1) in
      insert-Fixed f n k v s t hi
        (Stands-Wider s 0 0 h.bound 0 hi t (omega arith) (omega arith) h.stands) h.root rb real
        fresh fuel (ground (arith, find_node-search f s t k h fuel, absent)) (omega arith)

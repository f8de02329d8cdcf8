-- ===== src/Map/Transplant.antt =====
-- transplant of kstdlib/map.hh: a child takes the place of its parent.
use os_projet.Common.{
  ℕ, ◌+◌, ◌≤◌, ◌<◌, ◌≡◌, ◌≢◌, refl, sym, ◌∙◌, Bool, not, ◌&&◌, ◌==◌, if◌then◌else◌, arith, inr,
}
use mathlib.Core.Path.{subst}
use os_projet.Map.{Store}
use os_projet.Map.Erase.{transplant}
use os_projet.Map.Shape.{
  Tree, fork, Above, top, in_left, in_right, pointer, above, Stands, Holds, Same,
}
use os_projet.Map.Links.{
  pointer_in, above_out, Stands-Reparented, Relinks, Holds-Relinks, not_pointer, not_above,
}
use os_projet.Map.Whole.{Stands-Wider}
use os_projet.Map.Zipper.{At, At-IsNode}

module _ {A : Type 0} where
  -- The writes, for a node u with the parent p.
  pub record Transplants (s s' : Store A) (u v p : ℕ) : Type 0 where
    pub kept : (x : ℕ) → (s'.key x ≡ s.key x) × (s'.value x ≡ s.value x) × (s'.red x ≡ s.red x)
    pub root : s'.root ≡ (if p == 0 then v else s.root)
    pub parent : (x : ℕ) → s'.parent x ≡ (if not (v == 0) && x == v then p else s.parent x)
    pub left :
        (x : ℕ) → s'.left x ≡ (if not (p == 0) && u == s.left p && x == p then v else s.left x)
    pub right :
        (x : ℕ)
        → s'.right x ≡ (if not (p == 0) && not (u == s.left p) && x == p then v else s.right x)

  transplant-Transplants :
      (s : Store A) (u v p : ℕ) → s.parent u ≡ p → Transplants s (transplant u v s) u v p
  unfolding transplant
  transplant-Transplants s u v p e = record {
    kept = λ x. (refl, refl, refl);
    root = ground (arith, e);
    parent = λ x. ground (arith, e);
    left = λ x. ground (arith, e);
    right = λ x. ground (arith, e);
  }

  Transplants-Same :
      (s s' : Store A) (u v p x : ℕ) → Transplants s s' u v p → x ≢ v → x ≢ p → Same s s' x
  Transplants-Same s s' u v p x t xv xp = record {
    key = (t.kept x).0;
    value = (t.kept x).1;
    red = (t.kept x).2;
    parent = t.parent x ∙ ground arith;
    left = t.left x ∙ ground arith;
    right = t.right x ∙ ground arith;
  }

  Transplants-Relinks :
      (s s' : Store A) (lo hi : ℕ) (C : Above A) (u v : ℕ)
      → Transplants s s' u v (above C)
      → Holds s lo hi C u
      → u ≢ 0
      → lo ≤ s.key u
      → s.key u < hi
      → (above C ≢ 0 → above C ≢ v)
      → Relinks s s' C v
  Transplants-Relinks s s' lo hi top u v t h real low high pv = t.root
  Transplants-Relinks s s' lo hi (in_left p k v c r C) u w t (e, kl, (hi', kh, hp, hr, hC)) real low
        high pw =
      (
        t.root ∙ ground (arith, hp.real),
        (t.kept p).0,
        (t.kept p).1,
        (t.kept p).2,
        t.parent p ∙ ground (arith, pw hp.real),
        t.left p ∙ ground (arith, hp.real, hp.left),
        t.right p ∙ ground (arith, hp.real, hp.left),
      )
  Transplants-Relinks s s' lo hi (in_right l p k v c C) u w t (e, kh, (lo', kl, hp, hl, hC)) real
        low high pw =
      let ul : u ≢ pointer l = not_pointer s p lo' k l u hl real (inr (omega arith)) in
      (
        t.root ∙ ground (arith, hp.real),
        (t.kept p).0,
        (t.kept p).1,
        (t.kept p).2,
        t.parent p ∙ ground (arith, pw hp.real),
        t.left p ∙ ground (arith, hp.real, hp.left),
        t.right p ∙ ground (arith, hp.real, hp.left),
      )

  -- A subtree w below u, with its keys between those around u.
  transplant-At :
      (s : Store A) (C : Above A) (u lo hi lo' hi' : ℕ) (w : Tree A)
      → Holds s lo hi C u
      → u ≢ 0
      → lo ≤ s.key u
      → s.key u < hi
      → s.parent u ≡ above C
      → Stands s u lo' hi' w
      → lo ≤ lo'
      → hi' ≤ hi
      → At (transplant u (pointer w) s) C w
  transplant-At s C u lo hi lo' hi' w hC real low high ep hw a b =
      let s' = transplant u (pointer w) s in
      let t = transplant-Transplants s u (pointer w) (above C) ep in
      let within : pointer w ≢ 0 → pointer w ≢ above C = λ ne.
        not_above s lo hi C u (pointer w) hC ne (ground (arith, pointer_in s u lo' hi' w hw, a))
          (ground (arith, pointer_in s u lo' hi' w hw, b)) in
      let pw : above C ≢ 0 → above C ≢ pointer w = λ ne.
        not_pointer s u lo' hi' w (above C) hw ne
          (ground (arith, above_out s lo hi C u hC, a, b)) in
      record {
        lo = lo;
        hi = hi;
        stands = Stands-Wider s' (above C) lo' hi' lo hi w a b (
            Stands-Reparented s s' u (above C) lo' hi' w hw
              (λ ne. record {
                key = (t.kept (pointer w)).0;
                value = (t.kept (pointer w)).1;
                red = (t.kept (pointer w)).2;
                parent = t.parent (pointer w) ∙ ground (arith, ne);
                left = t.left (pointer w) ∙ ground (arith, within ne);
                right = t.right (pointer w) ∙ ground (arith, within ne);
              })
              (λ x ne xlo xhi xw.
                Transplants-Same s s' u (pointer w) (above C) x t xw
                  (not_above s lo hi C u x hC ne (omega arith) (omega arith))));
        holds =
            Holds-Relinks s s' lo hi C u (pointer w) hC
              (Transplants-Relinks s s' lo hi C u (pointer w) t hC real low high pw)
              (λ x ne out xp.
                Transplants-Same s s' u (pointer w) (above C) x t
                  (not_pointer s u lo' hi' w x hw ne (ground (arith, out, a, b))) xp);
      }

  -- The right child of a node takes its place, and the left one.
  pub At-transplant_right :
      (s : Store A) (C : Above A) (l : Tree A) (n k : ℕ) (v : A) (c : Bool) (r : Tree A)
      → At s C (fork l n k v c r)
      → At (transplant n (s.right n) s) C r
  At-transplant_right s C l n k v c r h =
      let m = At-IsNode s C l n k v c r h in
      subst (λ q. At (transplant n q s) C r) (sym m.right)
        (transplant-At s C n h.lo h.hi (k + 1) h.hi r h.holds m.real
          (ground (arith, m.key, h.stands.0)) (ground (arith, m.key, h.stands.1)) m.parent
          h.stands.4 (ground (arith, h.stands.0)) (omega arith))

  pub At-transplant_left :
      (s : Store A) (C : Above A) (l : Tree A) (n k : ℕ) (v : A) (c : Bool) (r : Tree A)
      → At s C (fork l n k v c r)
      → At (transplant n (s.left n) s) C l
  At-transplant_left s C l n k v c r h =
      let m = At-IsNode s C l n k v c r h in
      subst (λ q. At (transplant n q s) C l) (sym m.left)
        (transplant-At s C n h.lo h.hi h.lo k l h.holds m.real (ground (arith, m.key, h.stands.0))
          (ground (arith, m.key, h.stands.1)) m.parent h.stands.3 (omega arith)
          (ground (arith, h.stands.1)))

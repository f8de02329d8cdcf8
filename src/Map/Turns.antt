-- ===== src/Map/Turns.antt =====
-- One turn of the loop of insert_fixup of kstdlib/map.hh, at the place of the node n.
use os_projet.Common.{
  ℕ, ◌+◌, ◌≡◌, ◌≢◌, refl, sym, ap, ◌∙◌, Bool, true, false, not, ◌&&◌, ◌==◌, arith, inl,
}
use mathlib.Core.Path.{subst}
use os_projet.Map.{
  Store, set_red, rotate_left, rotate_right, finish_right, finish_left, recolor, fixup_step,
}
use os_projet.Map.Shape.{Tree, leaf, fork, Above, in_left, in_right, pointer}
use os_projet.Map.Links.{not_pointer}
use os_projet.Map.Balance.{is_red}
use os_projet.Map.Zipper.{
  At, to_left, to_right, from_left, from_right, At-IsNode, At-rotate_left, At-rotate_right,
  At-set_red,
}

module _ {A : Type 0} where
  pub At-finish_right :
      (s : Store A) (C : Above A) (n : ℕ) (t : Tree A) (p kp : ℕ) (vp : A) (cp : Bool) (b : Tree A)
      (g kg : ℕ) (vg : A) (cg : Bool) (u : Tree A)
      → At s C (fork (fork t p kp vp cp b) g kg vg cg u)
      → s.parent n ≡ p
      → At (finish_right n s) C (fork t p kp vp false (fork b g kg vg true u))
  unfolding finish_right
  At-finish_right s C n t p kp vp cp b g kg vg cg u h e =
      let np =
        At-IsNode s (in_left g kg vg cg u C) t p kp vp cp b
          (to_left s C (fork t p kp vp cp b) g kg vg cg u h) in
      let s1 = set_red p false s in
      let s2 = set_red g true s1 in
      let h1 : At s1 (in_left g kg vg cg u C) (fork t p kp vp false b) =
        At-set_red s (in_left g kg vg cg u C) t p kp vp cp false b
          (to_left s C (fork t p kp vp cp b) g kg vg cg u h) in
      let h2 : At s2 C (fork (fork t p kp vp false b) g kg vg true u) =
        At-set_red s1 C (fork t p kp vp false b) g kg vg cg true u
          (from_left s1 C (fork t p kp vp false b) g kg vg cg u h1) in
      subst (λ s'. At s' C (fork t p kp vp false (fork b g kg vg true u)))
        (sym (
          ap (λ p. rotate_right (s.parent p) (set_red (s.parent p) true (set_red p false s))) e
          ∙ ap (λ g. rotate_right g (set_red g true s1)) np.parent))
        (At-rotate_right s2 C t p kp vp false b g kg vg true u h2)

  pub At-finish_left :
      (s : Store A) (C : Above A) (n : ℕ) (u : Tree A) (g kg : ℕ) (vg : A) (cg : Bool) (b : Tree A)
      (p kp : ℕ) (vp : A) (cp : Bool) (t : Tree A)
      → At s C (fork u g kg vg cg (fork b p kp vp cp t))
      → s.parent n ≡ p
      → At (finish_left n s) C (fork (fork u g kg vg true b) p kp vp false t)
  unfolding finish_left
  At-finish_left s C n u g kg vg cg b p kp vp cp t h e =
      let np =
        At-IsNode s (in_right u g kg vg cg C) b p kp vp cp t
          (to_right s C u g kg vg cg (fork b p kp vp cp t) h) in
      let s1 = set_red p false s in
      let s2 = set_red g true s1 in
      let h1 : At s1 (in_right u g kg vg cg C) (fork b p kp vp false t) =
        At-set_red s (in_right u g kg vg cg C) b p kp vp cp false t
          (to_right s C u g kg vg cg (fork b p kp vp cp t) h) in
      let h2 : At s2 C (fork u g kg vg true (fork b p kp vp false t)) =
        At-set_red s1 C u g kg vg cg true (fork b p kp vp false t)
          (from_right s1 C u g kg vg cg (fork b p kp vp false t) h1) in
      subst (λ s'. At s' C (fork (fork u g kg vg true b) p kp vp false t))
        (sym (
          ap (λ p. rotate_left (s.parent p) (set_red (s.parent p) true (set_red p false s))) e
          ∙ ap (λ g. rotate_left g (set_red g true s1)) np.parent))
        (At-rotate_left s2 C u g kg vg true b p kp vp false t h2)

  -- The colours of a node and of its two children.
  pub set_reds :
      (s : Store A) (C : Above A) (a : Tree A) (p kp : ℕ) (vp : A) (cp : Bool) (b : Tree A)
      (g kg : ℕ) (vg : A) (cg : Bool) (c : Tree A) (y ky : ℕ) (vy : A) (cy : Bool) (d : Tree A)
      → At s C (fork (fork a p kp vp cp b) g kg vg cg (fork c y ky vy cy d))
      → At
          (set_red g true (set_red y false (set_red p false s)))
          C
          (fork (fork a p kp vp false b) g kg vg true (fork c y ky vy false d))
  set_reds s C a p kp vp cp b g kg vg cg c y ky vy cy d h =
      let s1 = set_red p false s in
      let s2 = set_red y false s1 in
      let P = fork a p kp vp false b in
      let Y = fork c y ky vy cy d in
      let h1 : At s1 C (fork P g kg vg cg Y) = from_left s1 C P g kg vg cg Y (
        At-set_red s (in_left g kg vg cg Y C) a p kp vp cp false b
          (to_left s C (fork a p kp vp cp b) g kg vg cg Y h)) in
      let h2 : At s2 C (fork P g kg vg cg (fork c y ky vy false d)) =
        from_right s2 C P g kg vg cg (fork c y ky vy false d) (
          At-set_red s1 (in_right P g kg vg cg C) c y ky vy cy false d
            (to_right s1 C P g kg vg cg Y h1)) in
      At-set_red s2 C P g kg vg cg true (fork c y ky vy false d) h2

  pub set_reds_right :
      (s : Store A) (C : Above A) (c : Tree A) (y ky : ℕ) (vy : A) (cy : Bool) (d : Tree A)
      (g kg : ℕ) (vg : A) (cg : Bool) (a : Tree A) (p kp : ℕ) (vp : A) (cp : Bool) (b : Tree A)
      → At s C (fork (fork c y ky vy cy d) g kg vg cg (fork a p kp vp cp b))
      → At
          (set_red g true (set_red y false (set_red p false s)))
          C
          (fork (fork c y ky vy false d) g kg vg true (fork a p kp vp false b))
  set_reds_right s C c y ky vy cy d g kg vg cg a p kp vp cp b h =
      let s1 = set_red p false s in
      let s2 = set_red y false s1 in
      let P = fork a p kp vp false b in
      let Y = fork c y ky vy cy d in
      let h1 : At s1 C (fork Y g kg vg cg P) = from_right s1 C Y g kg vg cg P (
        At-set_red s (in_right Y g kg vg cg C) a p kp vp cp false b
          (to_right s C Y g kg vg cg (fork a p kp vp cp b) h)) in
      let h2 : At s2 C (fork (fork c y ky vy false d) g kg vg cg P) =
        from_left s2 C (fork c y ky vy false d) g kg vg cg P (
          At-set_red s1 (in_left g kg vg cg P C) c y ky vy cy false d
            (to_left s1 C Y g kg vg cg P h1)) in
      At-set_red s2 C (fork c y ky vy false d) g kg vg cg true P h2

  -- The test on the uncle.
  pub uncle_right :
      (s : Store A) (C : Above A) (l : Tree A) (g k : ℕ) (v : A) (c : Bool) (u : Tree A)
      → At s C (fork l g k v c u)
      → (not (s.right g == 0) && s.red (s.right g)) ≡ is_red u
  uncle_right s C l g k v c leaf h =
      let n = At-IsNode s C l g k v c leaf h in ground (arith, n.right)
  uncle_right s C l g k v c (fork ul y ky vy cy ur) h =
      let n = At-IsNode s C l g k v c (fork ul y ky vy cy ur) h in
      let u =
        At-IsNode s (in_right l g k v c C) ul y ky vy cy ur
          (to_right s C l g k v c (fork ul y ky vy cy ur) h) in
      ground (arith, n.right, u.red, u.real)

  pub uncle_left :
      (s : Store A) (C : Above A) (u : Tree A) (g k : ℕ) (v : A) (c : Bool) (r : Tree A)
      → At s C (fork u g k v c r)
      → (not (s.left g == 0) && s.red (s.left g)) ≡ is_red u
  uncle_left s C leaf g k v c r h = let n = At-IsNode s C leaf g k v c r h in ground (arith, n.left)
  uncle_left s C (fork ul y ky vy cy ur) g k v c r h =
      let n = At-IsNode s C (fork ul y ky vy cy ur) g k v c r h in
      let u =
        At-IsNode s (in_left g k v c r C) ul y ky vy cy ur
          (to_left s C (fork ul y ky vy cy ur) g k v c r h) in
      ground (arith, n.left, u.red, u.real)

  -- The two children of a node are not the same one.
  pub left_not_right :
      (s : Store A) (C : Above A) (l : Tree A) (p k : ℕ) (v : A) (c : Bool) (r : Tree A)
      → At s C (fork l p k v c r)
      → pointer l ≢ 0
      → pointer l ≢ pointer r
  left_not_right s C leaf p k v c r h real e = real refl
  left_not_right s C (fork a x kx vx cx b) p k v c r h real e =
      let n = At-IsNode s C (fork a x kx vx cx b) p k v c r h in
      let m =
        At-IsNode s (in_left p k v c r C) a x kx vx cx b
          (to_left s C (fork a x kx vx cx b) p k v c r h) in
      not_pointer s p (k + 1) h.hi r x h.stands.4 real (inl (ground (arith, m.key, h.stands.3.1))) e

  -- The branches of a turn. The parent p of n is a left child of g in the first three, a right child in the others.
  pub step_left_red :
      (s : Store A) (n p g y : ℕ)
      → s.parent n ≡ p
      → s.parent p ≡ g
      → s.left g ≡ p
      → s.right g ≡ y
      → (not (s.right g == 0) && s.red (s.right g)) ≡ true
      → fixup_step n s ≡ (g, set_red g true (set_red y false (set_red p false s)))
  unfolding fixup_step recolor
  step_left_red s n p g y ep eg el er red = ground (arith, ep, eg, el, er, red)

  pub step_left_outer :
      (s : Store A) (n p g : ℕ)
      → s.parent n ≡ p
      → s.parent p ≡ g
      → s.left g ≡ p
      → (not (s.right g == 0) && s.red (s.right g)) ≡ false
      → n ≢ s.right p
      → fixup_step n s ≡ (n, finish_right n s)
  unfolding fixup_step
  step_left_outer s n p g ep eg el black outer = ground (arith, ep, eg, el, black, outer)

  pub step_left_inner :
      (s : Store A) (n p g : ℕ)
      → s.parent n ≡ p
      → s.parent p ≡ g
      → s.left g ≡ p
      → (not (s.right g == 0) && s.red (s.right g)) ≡ false
      → s.right p ≡ n
      → fixup_step n s ≡ (p, finish_right p (rotate_left p s))
  unfolding fixup_step
  step_left_inner s n p g ep eg el black inner = ground (arith, ep, eg, el, black, inner)

  pub step_right_red :
      (s : Store A) (n p g y : ℕ)
      → s.parent n ≡ p
      → s.parent p ≡ g
      → p ≢ s.left g
      → s.left g ≡ y
      → (not (s.left g == 0) && s.red (s.left g)) ≡ true
      → fixup_step n s ≡ (g, set_red g true (set_red y false (set_red p false s)))
  unfolding fixup_step recolor
  step_right_red s n p g y ep eg ne el red = ground (arith, ep, eg, ne, el, red)

  pub step_right_outer :
      (s : Store A) (n p g : ℕ)
      → s.parent n ≡ p
      → s.parent p ≡ g
      → p ≢ s.left g
      → (not (s.left g == 0) && s.red (s.left g)) ≡ false
      → n ≢ s.left p
      → fixup_step n s ≡ (n, finish_left n s)
  unfolding fixup_step
  step_right_outer s n p g ep eg ne black outer = ground (arith, ep, eg, ne, black, outer)

  pub step_right_inner :
      (s : Store A) (n p g : ℕ)
      → s.parent n ≡ p
      → s.parent p ≡ g
      → p ≢ s.left g
      → (not (s.left g == 0) && s.red (s.left g)) ≡ false
      → s.left p ≡ n
      → fixup_step n s ≡ (p, finish_left p (rotate_right p s))
  unfolding fixup_step
  step_right_inner s n p g ep eg ne black inner = ground (arith, ep, eg, ne, black, inner)

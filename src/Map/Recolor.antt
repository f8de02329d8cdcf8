-- ===== src/Map/Recolor.antt =====
-- The turns of insert_fixup of kstdlib/map.hh with a red uncle: the colours change, and the loop goes on.
use os_projet.Common.{ℕ, suc, ◌≡◌, ◌≢◌, refl, sym, ◌∙◌, true, false}
use os_projet.Map.{Store, set_red, insert_fixup}
use os_projet.Map.Shape.{Tree, fork, Above, in_left, in_right, pointer}
use os_projet.Map.Balance.{plug, entries}
use os_projet.Map.Whole.{Fixed}
use os_projet.Map.Zipper.{At, to_left, to_right, At-IsNode, red_above}
use os_projet.Map.Turns.{uncle_right, uncle_left, left_not_right}
use os_projet.Map.Focus.{Fixed-turn, entries-plug-same}
use os_projet.Map.Turns.{set_reds, set_reds_right, step_left_red, step_right_red}

module _ {A : Type 0} where
  -- The node is below p, p is on the left of g, and the uncle is red: the colours change, and the loop goes on
  -- at g.
  pub fixup_left_red :
      (f : ℕ) (s : Store A) (D C : Above A) (t a : Tree A) (p kp : ℕ) (vp : A) (b : Tree A)
      (g kg : ℕ) (vg : A) (c : Tree A) (y ky : ℕ) (vy : A) (d : Tree A)
      → At s D t
      → pointer t ≢ 0
      → red_above D ≡ true
      → s.parent (pointer t) ≡ p
      → entries (plug D t)
        ≡ entries (plug C (fork (fork a p kp vp true b) g kg vg false (fork c y ky vy true d)))
      → At s C (fork (fork a p kp vp true b) g kg vg false (fork c y ky vy true d))
      → (At
            (set_red g true (set_red y false (set_red p false s)))
            C
            (fork (fork a p kp vp false b) g kg vg true (fork c y ky vy false d))
          → Fixed
              (entries
                (plug C (fork (fork a p kp vp false b) g kg vg true (fork c y ky vy false d))))
              (insert_fixup f g (set_red g true (set_red y false (set_red p false s)))))
      → Fixed (entries (plug D t)) (insert_fixup (suc f) (pointer t) s)
  fixup_left_red f s D C t a p kp vp b g kg vg c y ky vy d h real red e same hg rest =
      let P = fork a p kp vp true b in
      let Y = fork c y ky vy true d in
      let T' = fork (fork a p kp vp false b) g kg vg true (fork c y ky vy false d) in
      let np =
        At-IsNode s (in_left g kg vg false Y C) a p kp vp true b
          (to_left s C P g kg vg false Y hg) in
      let ng = At-IsNode s C P g kg vg false Y hg in
      Fixed-turn f (pointer t) g s (set_red g true (set_red y false (set_red p false s))) D t
        (entries (plug D t)) (entries (plug C T')) h refl real red
        (step_left_red s (pointer t) p g y e np.parent ng.left ng.right
          (uncle_right s C P g kg vg false Y hg))
        (entries-plug-same C (fork P g kg vg false Y) T' refl ∙ sym same)
        (rest (set_reds s C a p kp vp true b g kg vg false c y ky vy true d hg))

  pub fixup_right_red :
      (f : ℕ) (s : Store A) (D C : Above A) (t c : Tree A) (y ky : ℕ) (vy : A) (d : Tree A)
      (g kg : ℕ) (vg : A) (a : Tree A) (p kp : ℕ) (vp : A) (b : Tree A)
      → At s D t
      → pointer t ≢ 0
      → red_above D ≡ true
      → s.parent (pointer t) ≡ p
      → entries (plug D t)
        ≡ entries (plug C (fork (fork c y ky vy true d) g kg vg false (fork a p kp vp true b)))
      → At s C (fork (fork c y ky vy true d) g kg vg false (fork a p kp vp true b))
      → (At
            (set_red g true (set_red y false (set_red p false s)))
            C
            (fork (fork c y ky vy false d) g kg vg true (fork a p kp vp false b))
          → Fixed
              (entries
                (plug C (fork (fork c y ky vy false d) g kg vg true (fork a p kp vp false b))))
              (insert_fixup f g (set_red g true (set_red y false (set_red p false s)))))
      → Fixed (entries (plug D t)) (insert_fixup (suc f) (pointer t) s)
  fixup_right_red f s D C t c y ky vy d g kg vg a p kp vp b h real red e same hg rest =
      let P = fork a p kp vp true b in
      let Y = fork c y ky vy true d in
      let T' = fork (fork c y ky vy false d) g kg vg true (fork a p kp vp false b) in
      let np =
        At-IsNode s (in_right Y g kg vg false C) a p kp vp true b
          (to_right s C Y g kg vg false P hg) in
      let ny =
        At-IsNode s (in_left g kg vg false P C) c y ky vy true d
          (to_left s C Y g kg vg false P hg) in
      let ng = At-IsNode s C Y g kg vg false P hg in
      Fixed-turn f (pointer t) g s (set_red g true (set_red y false (set_red p false s))) D t
        (entries (plug D t)) (entries (plug C T')) h refl real red
        (step_right_red s (pointer t) p g y e np.parent
          (λ z. left_not_right s C Y g kg vg false P hg ny.real (sym (z ∙ ng.left))) ng.left
          (uncle_left s C Y g kg vg false P hg))
        (entries-plug-same C (fork Y g kg vg false P) T' refl ∙ sym same)
        (rest (set_reds_right s C c y ky vy true d g kg vg false a p kp vp true b hg))

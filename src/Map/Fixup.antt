-- ===== src/Map/Fixup.antt =====
-- The whole loop of insert_fixup of kstdlib/map.hh.
use os_projet.Common.{ℕ, zero, suc, ◌+◌, ◌<◌, refl, ap, true, false, arith}
use os_projet.Map.{Store, set_red, insert_fixup}
use os_projet.Map.Shape.{Tree, leaf, fork, Above, top, in_left, in_right}
use os_projet.Map.Balance.{plug, entries}
use os_projet.Map.Whole.{Fixed}
use os_projet.Map.Zipper.{from_left, from_right, At-IsNode}
use os_projet.Map.Focus.{Focus, Focus-ends}
use os_projet.Map.Ends.{fixup_left_outer, fixup_left_inner, fixup_right_outer, fixup_right_inner}
use os_projet.Map.Recolor.{fixup_left_red, fixup_right_red}

module _ {A : Type 0} where
  abbrev pub depth : Above A → ℕ
  depth top = 0
  depth (in_left p k v c r C) = suc (depth C)
  depth (in_right l p k v c C) = suc (depth C)

  -- From a red node in a tree that is red-black but for it, insert_fixup gives a red-black tree of the same nodes.
  pub insert_fixup-Fixed :
      (f : ℕ) (s : Store A) (C : Above A) (l : Tree A) (n kn : ℕ) (vn : A) (r : Tree A)
      → depth C < f
      → Focus s C (fork l n kn vn true r)
      → Fixed (entries (plug C (fork l n kn vn true r))) (insert_fixup f n s)
  insert_fixup-Fixed zero s C l n kn vn r fuel h = absurd (omega (arith, fuel))
  insert_fixup-Fixed (suc f) s top l n kn vn r fuel h =
      Focus-ends f s top (fork l n kn vn true r) h (At-IsNode s top l n kn vn true r h.at).real refl
        tt
  insert_fixup-Fixed (suc f) s (in_left p kp vp false b C) l n kn vn r fuel h =
      Focus-ends f s (in_left p kp vp false b C) (fork l n kn vn true r) h
        (At-IsNode s (in_left p kp vp false b C) l n kn vn true r h.at).real refl
        (λ e. ground (arith, e))
  insert_fixup-Fixed (suc f) s (in_right a p kp vp false C) l n kn vn r fuel h =
      Focus-ends f s (in_right a p kp vp false C) (fork l n kn vn true r) h
        (At-IsNode s (in_right a p kp vp false C) l n kn vn true r h.at).real refl
        (λ e. ground (arith, e))
  insert_fixup-Fixed (suc zero) s (in_left p kp vp true b C) l n kn vn r fuel h =
      absurd (omega (arith, fuel))
  insert_fixup-Fixed (suc zero) s (in_right a p kp vp true C) l n kn vn r fuel h =
      absurd (omega (arith, fuel))
  insert_fixup-Fixed (suc (suc f)) s (in_left p kp vp true b top) l n kn vn r fuel h =
      absurd (ground (arith, h.calms.2 refl))
  insert_fixup-Fixed (suc (suc f)) s (in_left p kp vp true b (in_left g kg vg true u C)) l n kn vn r
        fuel h =
      absurd (ground (arith, h.calms.2 refl))
  insert_fixup-Fixed (suc (suc f)) s (in_left p kp vp true b (in_right u g kg vg true C)) l n kn vn
        r fuel h =
      absurd (ground (arith, h.calms.2 refl))
  insert_fixup-Fixed (suc (suc f)) s (in_right a p kp vp true top) l n kn vn r fuel h =
      absurd (ground (arith, h.calms.2 refl))
  insert_fixup-Fixed (suc (suc f)) s (in_right a p kp vp true (in_left g kg vg true u C)) l n kn vn
        r fuel h =
      absurd (ground (arith, h.calms.2 refl))
  insert_fixup-Fixed (suc (suc f)) s (in_right a p kp vp true (in_right u g kg vg true C)) l n kn vn
        r fuel h =
      absurd (ground (arith, h.calms.2 refl))
  insert_fixup-Fixed (suc (suc f)) s (in_left p kp vp true b (in_left g kg vg false leaf C)) l n kn
        vn r fuel h =
      fixup_left_outer f s C (fork l n kn vn true r) p kp vp b g kg vg leaf h
        (At-IsNode s (in_left p kp vp true b (in_left g kg vg false leaf C)) l n kn vn true r
          h.at).real
        refl
  insert_fixup-Fixed (suc (suc f)) s
        (in_left p kp vp true b (in_left g kg vg false (fork c y ky vy false d) C)) l n kn vn r fuel
        h =
      fixup_left_outer f s C (fork l n kn vn true r) p kp vp b g kg vg (fork c y ky vy false d) h
        (At-IsNode s (in_left p kp vp true b (in_left g kg vg false (fork c y ky vy false d) C)) l n
          kn vn true r h.at).real
        refl
  insert_fixup-Fixed (suc (suc f)) s (in_right a p kp vp true (in_left g kg vg false leaf C)) l n kn
        vn r fuel h =
      fixup_left_inner f s C a p kp vp g kg vg leaf l n kn vn r h refl
  insert_fixup-Fixed (suc (suc f)) s
        (in_right a p kp vp true (in_left g kg vg false (fork c y ky vy false d) C)) l n kn vn r
        fuel h =
      fixup_left_inner f s C a p kp vp g kg vg (fork c y ky vy false d) l n kn vn r h refl
  insert_fixup-Fixed (suc (suc f)) s (in_right b p kp vp true (in_right leaf g kg vg false C)) l n
        kn vn r fuel h =
      fixup_right_outer f s C leaf g kg vg b p kp vp (fork l n kn vn true r) h
        (At-IsNode s (in_right b p kp vp true (in_right leaf g kg vg false C)) l n kn vn true r
          h.at).real
        refl
  insert_fixup-Fixed (suc (suc f)) s
        (in_right b p kp vp true (in_right (fork c y ky vy false d) g kg vg false C)) l n kn vn r
        fuel h =
      fixup_right_outer f s C (fork c y ky vy false d) g kg vg b p kp vp (fork l n kn vn true r) h
        (At-IsNode s (in_right b p kp vp true (in_right (fork c y ky vy false d) g kg vg false C)) l
          n kn vn true r h.at).real
        refl
  insert_fixup-Fixed (suc (suc f)) s (in_left p kp vp true a (in_right leaf g kg vg false C)) l n kn
        vn r fuel h =
      fixup_right_inner f s C leaf g kg vg p kp vp a l n kn vn r h refl
  insert_fixup-Fixed (suc (suc f)) s
        (in_left p kp vp true a (in_right (fork c y ky vy false d) g kg vg false C)) l n kn vn r
        fuel h =
      fixup_right_inner f s C (fork c y ky vy false d) g kg vg p kp vp a l n kn vn r h refl
  insert_fixup-Fixed (suc (suc f)) s
        (in_left p kp vp true b (in_left g kg vg false (fork c y ky vy true d) C)) l n kn vn r fuel
        h =
      let D = in_left p kp vp true b (in_left g kg vg false (fork c y ky vy true d) C) in
      let t = fork l n kn vn true r in
      let nn = At-IsNode s D l n kn vn true r h.at in
      fixup_left_red (suc f) s D C t t p kp vp b g kg vg c y ky vy d h.at nn.real refl nn.parent
        refl
        (from_left s C (fork t p kp vp true b) g kg vg false (fork c y ky vy true d)
          (from_left s (in_left g kg vg false (fork c y ky vy true d) C) t p kp vp true b h.at))
        (λ at.
          insert_fixup-Fixed (suc f) (set_red g true (set_red y false (set_red p false s))) C
            (fork t p kp vp false b) g kg vg (fork c y ky vy false d) (omega (arith, fuel))
            record {
              at = at;
              balanced = (ap (λ x. x + 1) h.fits.2.0, (h.fits.0, h.balanced, h.fits.1), h.fits.2.1);
              calm = (
                (λ e. refl),
                (λ e. refl),
                ((λ e. ground (arith, e)), (λ e. ground (arith, e)), h.calm, h.calms.1),
                ((λ e. ground (arith, e)), (λ e. ground (arith, e)), h.calms.3.1.2, h.calms.3.1.3),
              );
              fits = h.fits.2.2;
              calms = h.calms.3.3;
            })
  insert_fixup-Fixed (suc (suc f)) s
        (in_right a p kp vp true (in_left g kg vg false (fork c y ky vy true d) C)) l n kn vn r fuel
        h =
      let D = in_right a p kp vp true (in_left g kg vg false (fork c y ky vy true d) C) in
      let t = fork l n kn vn true r in
      let nn = At-IsNode s D l n kn vn true r h.at in
      fixup_left_red (suc f) s D C t a p kp vp t g kg vg c y ky vy d h.at nn.real refl nn.parent
        refl
        (from_left s C (fork a p kp vp true t) g kg vg false (fork c y ky vy true d)
          (from_right s (in_left g kg vg false (fork c y ky vy true d) C) a p kp vp true t h.at))
        (λ at.
          insert_fixup-Fixed (suc f) (set_red g true (set_red y false (set_red p false s))) C
            (fork a p kp vp false t) g kg vg (fork c y ky vy false d) (omega (arith, fuel))
            record {
              at = at;
              balanced = (ap (λ x. x + 1) h.fits.2.0, (h.fits.0, h.fits.1, h.balanced), h.fits.2.1);
              calm = (
                (λ e. refl),
                (λ e. refl),
                ((λ e. ground (arith, e)), (λ e. ground (arith, e)), h.calms.1, h.calm),
                ((λ e. ground (arith, e)), (λ e. ground (arith, e)), h.calms.3.1.2, h.calms.3.1.3),
              );
              fits = h.fits.2.2;
              calms = h.calms.3.3;
            })
  insert_fixup-Fixed (suc (suc f)) s
        (in_right b p kp vp true (in_right (fork c y ky vy true d) g kg vg false C)) l n kn vn r
        fuel h =
      let D = in_right b p kp vp true (in_right (fork c y ky vy true d) g kg vg false C) in
      let t = fork l n kn vn true r in
      let nn = At-IsNode s D l n kn vn true r h.at in
      fixup_right_red (suc f) s D C t c y ky vy d g kg vg b p kp vp t h.at nn.real refl nn.parent
        refl
        (from_right s C (fork c y ky vy true d) g kg vg false (fork b p kp vp true t)
          (from_right s (in_right (fork c y ky vy true d) g kg vg false C) b p kp vp true t h.at))
        (λ at.
          insert_fixup-Fixed (suc f) (set_red g true (set_red y false (set_red p false s))) C
            (fork c y ky vy false d) g kg vg (fork b p kp vp false t) (omega (arith, fuel))
            record {
              at = at;
              balanced = (ap (λ x. x + 1) h.fits.2.0, h.fits.2.1, (h.fits.0, h.fits.1, h.balanced));
              calm = (
                (λ e. refl),
                (λ e. refl),
                ((λ e. ground (arith, e)), (λ e. ground (arith, e)), h.calms.3.1.2, h.calms.3.1.3),
                ((λ e. ground (arith, e)), (λ e. ground (arith, e)), h.calms.1, h.calm),
              );
              fits = h.fits.2.2;
              calms = h.calms.3.3;
            })
  insert_fixup-Fixed (suc (suc f)) s
        (in_left p kp vp true a (in_right (fork c y ky vy true d) g kg vg false C)) l n kn vn r fuel
        h =
      let D = in_left p kp vp true a (in_right (fork c y ky vy true d) g kg vg false C) in
      let t = fork l n kn vn true r in
      let nn = At-IsNode s D l n kn vn true r h.at in
      fixup_right_red (suc f) s D C t c y ky vy d g kg vg t p kp vp a h.at nn.real refl nn.parent
        refl
        (from_right s C (fork c y ky vy true d) g kg vg false (fork t p kp vp true a)
          (from_left s (in_right (fork c y ky vy true d) g kg vg false C) t p kp vp true a h.at))
        (λ at.
          insert_fixup-Fixed (suc f) (set_red g true (set_red y false (set_red p false s))) C
            (fork c y ky vy false d) g kg vg (fork t p kp vp false a) (omega (arith, fuel))
            record {
              at = at;
              balanced = (ap (λ x. x + 1) h.fits.2.0, h.fits.2.1, (h.fits.0, h.balanced, h.fits.1));
              calm = (
                (λ e. refl),
                (λ e. refl),
                ((λ e. ground (arith, e)), (λ e. ground (arith, e)), h.calms.3.1.2, h.calms.3.1.3),
                ((λ e. ground (arith, e)), (λ e. ground (arith, e)), h.calm, h.calms.1),
              );
              fits = h.fits.2.2;
              calms = h.calms.3.3;
            })

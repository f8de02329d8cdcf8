-- ===== src/Map/Ends.antt =====
-- The turns of insert_fixup of kstdlib/map.hh that end its loop: the uncle is black.
use os_projet.Common.{ℕ, suc, ◌≡◌, ◌≢◌, refl, sym, ◌∙◌, true, false, arith}
use mathlib.Core.List.{append_assoc}
use os_projet.Map.{Store, rotate_left, rotate_right, finish_right, finish_left, insert_fixup}
use os_projet.Map.Shape.{Tree, fork, Above, in_left, in_right, pointer}
use os_projet.Map.Balance.{is_red, plug, entries}
use os_projet.Map.Whole.{Fixed, pointer-parent}
use os_projet.Map.Zipper.{
  to_left, to_right, from_left, from_right, At-IsNode, At-rotate_left, At-rotate_right,
}
use os_projet.Map.Turns.{
  At-finish_right, At-finish_left, uncle_right, uncle_left, left_not_right, step_left_outer,
  step_left_inner, step_right_outer, step_right_inner,
}
use os_projet.Map.Focus.{Focus, ends_left, ends_right, Fixed-turn, entries-plug-same}

module _ {A : Type 0} where
  -- A red node on the left of a red one on the left, with a black uncle.
  pub fixup_left_outer :
      (f : ℕ) (s : Store A) (C : Above A) (t : Tree A) (p kp : ℕ) (vp : A) (b : Tree A) (g kg : ℕ)
      (vg : A) (u : Tree A)
      → Focus s (in_left p kp vp true b (in_left g kg vg false u C)) t
      → pointer t ≢ 0
      → is_red u ≡ false
      → Fixed
          (entries (plug (in_left p kp vp true b (in_left g kg vg false u C)) t))
          (insert_fixup (suc (suc f)) (pointer t) s)
  fixup_left_outer f s C t p kp vp b g kg vg u h real black_uncle =
      let hp = from_left s (in_left g kg vg false u C) t p kp vp true b h.at in
      let hg = from_left s C (fork t p kp vp true b) g kg vg false u hp in
      let np = At-IsNode s (in_left g kg vg false u C) t p kp vp true b hp in
      let ng = At-IsNode s C (fork t p kp vp true b) g kg vg false u hg in
      let e = pointer-parent s p h.at.lo h.at.hi t h.at.stands real in
      let t' = fork t p kp vp false (fork b g kg vg true u) in
      Fixed-turn (suc f) (pointer t) (pointer t) s (finish_right (pointer t) s)
        (in_left p kp vp true b (in_left g kg vg false u C)) t
        (entries (plug C (fork (fork t p kp vp true b) g kg vg false u))) (entries (plug C t')) h.at
        refl real refl
        (step_left_outer s (pointer t) p g e np.parent ng.left
          (uncle_right s C (fork t p kp vp true b) g kg vg false u hg ∙ black_uncle)
          (λ z.
            left_not_right s (in_left g kg vg false u C) t p kp vp true b hp real (z ∙ np.right)))
        (entries-plug-same C (fork (fork t p kp vp true b) g kg vg false u) t' (simp append_assoc))
        (ends_left f (finish_right (pointer t) s) C t p kp vp (fork b g kg vg true u)
          record {
            at = At-finish_right s C (pointer t) t p kp vp true b g kg vg false u hg e;
            balanced = (h.fits.0, h.balanced, (sym h.fits.0 ∙ h.fits.2.0, h.fits.1, h.fits.2.1));
            calm = (
              (λ x. ground (arith, x)),
              (λ x. ground (arith, x)),
              h.calm,
              (h.calms.0, (λ x. black_uncle), h.calms.1, h.calms.3.1),
            );
            fits = h.fits.2.2;
            calms = h.calms.3.3;
          }
          real)

  -- On the right of a red one on the left.
  pub fixup_left_inner :
      (f : ℕ) (s : Store A) (C : Above A) (a : Tree A) (p kp : ℕ) (vp : A) (g kg : ℕ) (vg : A)
      (u l : Tree A) (n kn : ℕ) (vn : A) (r : Tree A)
      → Focus s (in_right a p kp vp true (in_left g kg vg false u C)) (fork l n kn vn true r)
      → is_red u ≡ false
      → Fixed
          (entries
            (plug (in_right a p kp vp true (in_left g kg vg false u C)) (fork l n kn vn true r)))
          (insert_fixup (suc (suc f)) n s)
  fixup_left_inner f s C a p kp vp g kg vg u l n kn vn r h black_uncle =
      let t = fork l n kn vn true r in
      let s1 = rotate_left p s in
      let hp = from_right s (in_left g kg vg false u C) a p kp vp true t h.at in
      let hg = from_left s C (fork a p kp vp true t) g kg vg false u hp in
      let np = At-IsNode s (in_left g kg vg false u C) a p kp vp true t hp in
      let ng = At-IsNode s C (fork a p kp vp true t) g kg vg false u hg in
      let nn =
        At-IsNode s (in_right a p kp vp true (in_left g kg vg false u C)) l n kn vn true r h.at in
      let h1 = At-rotate_left s (in_left g kg vg false u C) a p kp vp true l n kn vn true r hp in
      let hl = to_left s1 (in_left g kg vg false u C) (fork a p kp vp true l) n kn vn true r h1 in
      let n1 =
        At-IsNode s1 (in_left n kn vn true r (in_left g kg vg false u C)) a p kp vp true l hl in
      let hg1 = from_left s1 C (fork (fork a p kp vp true l) n kn vn true r) g kg vg false u h1 in
      let t' = fork (fork a p kp vp true l) n kn vn false (fork r g kg vg true u) in
      Fixed-turn (suc f) n p s (finish_right p s1)
        (in_right a p kp vp true (in_left g kg vg false u C)) t
        (entries (plug C (fork (fork a p kp vp true t) g kg vg false u))) (entries (plug C t')) h.at
        refl nn.real refl
        (step_left_inner s n p g nn.parent np.parent ng.left
          (uncle_right s C (fork a p kp vp true t) g kg vg false u hg ∙ black_uncle) np.right)
        (entries-plug-same C (fork (fork a p kp vp true t) g kg vg false u) t' (simp append_assoc))
        (ends_left f (finish_right p s1) C (fork a p kp vp true l) n kn vn (fork r g kg vg true u)
          record {
            at =
                At-finish_right s1 C p (fork a p kp vp true l) n kn vn true r g kg vg false u hg1
                  n1.parent;
            balanced = (
              h.fits.0 ∙ h.balanced.0,
              (h.fits.0, h.fits.1, h.balanced.1),
              (sym (h.fits.0 ∙ h.balanced.0) ∙ h.fits.2.0, h.balanced.2, h.fits.2.1),
            );
            calm = (
              (λ x. ground (arith, x)),
              (λ x. ground (arith, x)),
              (h.calms.0, h.calm.0, h.calms.1, h.calm.2),
              (h.calm.1, (λ x. black_uncle), h.calm.3, h.calms.3.1),
            );
            fits = h.fits.2.2;
            calms = h.calms.3.3;
          }
          n1.real)

  -- On the right of a red one on the right.
  pub fixup_right_outer :
      (f : ℕ) (s : Store A) (C : Above A) (u : Tree A) (g kg : ℕ) (vg : A) (b : Tree A) (p kp : ℕ)
      (vp : A) (t : Tree A)
      → Focus s (in_right b p kp vp true (in_right u g kg vg false C)) t
      → pointer t ≢ 0
      → is_red u ≡ false
      → Fixed
          (entries (plug (in_right b p kp vp true (in_right u g kg vg false C)) t))
          (insert_fixup (suc (suc f)) (pointer t) s)
  fixup_right_outer f s C u g kg vg b p kp vp t h real black_uncle =
      let hp = from_right s (in_right u g kg vg false C) b p kp vp true t h.at in
      let hg = from_right s C u g kg vg false (fork b p kp vp true t) hp in
      let np = At-IsNode s (in_right u g kg vg false C) b p kp vp true t hp in
      let ng = At-IsNode s C u g kg vg false (fork b p kp vp true t) hg in
      let e = pointer-parent s p h.at.lo h.at.hi t h.at.stands real in
      let t' = fork (fork u g kg vg true b) p kp vp false t in
      Fixed-turn (suc f) (pointer t) (pointer t) s (finish_left (pointer t) s)
        (in_right b p kp vp true (in_right u g kg vg false C)) t
        (entries (plug C (fork u g kg vg false (fork b p kp vp true t)))) (entries (plug C t')) h.at
        refl real refl
        (step_right_outer s (pointer t) p g e np.parent
          (λ z.
            left_not_right s C u g kg vg false (fork b p kp vp true t) hg
              (λ w. np.real (z ∙ ng.left ∙ w)) (sym (z ∙ ng.left)))
          (uncle_left s C u g kg vg false (fork b p kp vp true t) hg ∙ black_uncle)
          (λ z.
            left_not_right s (in_right u g kg vg false C) b p kp vp true t hp
              (λ w. real (z ∙ np.left ∙ w)) (sym (z ∙ np.left))))
        (entries-plug-same C (fork u g kg vg false (fork b p kp vp true t)) t' (simp append_assoc))
        (ends_right f (finish_left (pointer t) s) C (fork u g kg vg true b) p kp vp t
          record {
            at = At-finish_left s C (pointer t) u g kg vg false b p kp vp true t hg e;
            balanced = (h.fits.2.0 ∙ h.fits.0, (h.fits.2.0, h.fits.2.1, h.fits.1), h.balanced);
            calm = (
              (λ x. ground (arith, x)),
              (λ x. ground (arith, x)),
              ((λ x. black_uncle), h.calms.0, h.calms.3.1, h.calms.1),
              h.calm,
            );
            fits = h.fits.2.2;
            calms = h.calms.3.3;
          }
          real)

  -- On the left of a red one on the right.
  pub fixup_right_inner :
      (f : ℕ) (s : Store A) (C : Above A) (u : Tree A) (g kg : ℕ) (vg : A) (p kp : ℕ) (vp : A)
      (a l : Tree A) (n kn : ℕ) (vn : A) (r : Tree A)
      → Focus s (in_left p kp vp true a (in_right u g kg vg false C)) (fork l n kn vn true r)
      → is_red u ≡ false
      → Fixed
          (entries
            (plug (in_left p kp vp true a (in_right u g kg vg false C)) (fork l n kn vn true r)))
          (insert_fixup (suc (suc f)) n s)
  fixup_right_inner f s C u g kg vg p kp vp a l n kn vn r h black_uncle =
      let t = fork l n kn vn true r in
      let s1 = rotate_right p s in
      let hp = from_left s (in_right u g kg vg false C) t p kp vp true a h.at in
      let hg = from_right s C u g kg vg false (fork t p kp vp true a) hp in
      let np = At-IsNode s (in_right u g kg vg false C) t p kp vp true a hp in
      let ng = At-IsNode s C u g kg vg false (fork t p kp vp true a) hg in
      let nn =
        At-IsNode s (in_left p kp vp true a (in_right u g kg vg false C)) l n kn vn true r h.at in
      let h1 = At-rotate_right s (in_right u g kg vg false C) l n kn vn true r p kp vp true a hp in
      let hr = to_right s1 (in_right u g kg vg false C) l n kn vn true (fork r p kp vp true a) h1 in
      let n1 =
        At-IsNode s1 (in_right l n kn vn true (in_right u g kg vg false C)) r p kp vp true a hr in
      let hg1 = from_right s1 C u g kg vg false (fork l n kn vn true (fork r p kp vp true a)) h1 in
      let t' = fork (fork u g kg vg true l) n kn vn false (fork r p kp vp true a) in
      Fixed-turn (suc f) n p s (finish_left p s1)
        (in_left p kp vp true a (in_right u g kg vg false C)) t
        (entries (plug C (fork u g kg vg false (fork t p kp vp true a)))) (entries (plug C t')) h.at
        refl nn.real refl
        (step_right_inner s n p g nn.parent np.parent
          (λ z.
            left_not_right s C u g kg vg false (fork t p kp vp true a) hg
              (λ w. np.real (z ∙ ng.left ∙ w)) (sym (z ∙ ng.left)))
          (uncle_left s C u g kg vg false (fork t p kp vp true a) hg ∙ black_uncle) np.left)
        (entries-plug-same C (fork u g kg vg false (fork t p kp vp true a)) t' (simp append_assoc))
        (ends_right f (finish_left p s1) C (fork u g kg vg true l) n kn vn (fork r p kp vp true a)
          record {
            at =
                At-finish_left s1 C p u g kg vg false l n kn vn true (fork r p kp vp true a) hg1
                  n1.parent;
            balanced = (
              h.fits.2.0 ∙ h.balanced.0,
              (h.fits.2.0, h.fits.2.1, h.balanced.1),
              (sym h.balanced.0 ∙ h.fits.0, h.balanced.2, h.fits.1),
            );
            calm = (
              (λ x. ground (arith, x)),
              (λ x. ground (arith, x)),
              ((λ x. black_uncle), h.calm.0, h.calms.3.1, h.calm.2),
              (h.calm.1, h.calms.0, h.calm.3, h.calms.1),
            );
            fits = h.fits.2.2;
            calms = h.calms.3.3;
          }
          n1.real)

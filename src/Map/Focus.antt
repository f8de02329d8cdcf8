-- ===== src/Map/Focus.antt =====
-- The red node that insert_fixup of kstdlib/map.hh is at, in a tree that is a red-black tree but for it, and the
-- turns that end the loop.
use os_projet.Common.{
  ℕ, suc, ◌≡◌, ◌≢◌, refl, sym, ap, ◌∙◌, true, false, not, ◌&&◌, ◌==◌, arith, List, ◌++◌,
}
use mathlib.Core.Path.{subst}
use os_projet.Map.{Store, fixup_step, insert_fixup}
use os_projet.Map.Shape.{Tree, fork, Above, in_left, in_right, pointer}
use os_projet.Map.Balance.{
  is_red, black_height, Balanced, Calm, Fits, Calms, plug, Stood, under_black-Stood, Balanced-plug,
  Calm-plug, entries, before, after, entries-plug,
}
use os_projet.Map.Whole.{Fixed, insert_fixup-ends, insert_fixup-goes}
use os_projet.Map.Zipper.{At, At-plug, to_left, to_right, loop_test, red_above}

module _ {A : Type 0} where
  pub record Focus (s : Store A) (C : Above A) (t : Tree A) : Type 0 where
    pub at : At s C t
    pub balanced : Balanced t
    pub calm : Calm t
    pub fits : Fits (black_height t) C
    pub calms : Calms C

  -- What stands in place of a subtree keeps the entries of the whole when it has the same.
  pub entries-plug-same :
      (C : Above A) (t t' : Tree A)
      → entries t' ≡ entries t
      → entries (plug C t') ≡ entries (plug C t)
  entries-plug-same C t t' e =
      entries-plug C t' ∙ ap (λ es. before C ++ es ++ after C) e ∙ sym (entries-plug C t)

  pub Stood-black : (C : Above A) → Stood C false
  Stood-black C = under_black-Stood C false (λ e. ground (arith, e))

  -- A node that is not red under a black node or at the top ends the loop.
  pub Focus-ends :
      (f : ℕ) (s : Store A) (C : Above A) (t : Tree A)
      → Focus s C t
      → pointer t ≢ 0
      → red_above C ≡ false
      → Stood C (is_red t)
      → Fixed (entries (plug C t)) (insert_fixup (suc f) (pointer t) s)
  Focus-ends f s C t h real e stood =
      insert_fixup-ends f (pointer t) s (plug C t) (loop_test s C t h.at real ∙ e)
        (At-plug s C t h.at) (Balanced-plug C t h.balanced h.fits)
        (Calm-plug C t h.calm h.calms stood)

  -- The same for the left child of a black node that has been put in place, and for the right one.
  pub ends_left :
      (f : ℕ) (s : Store A) (C : Above A) (t : Tree A) (p k : ℕ) (v : A) (r : Tree A)
      → Focus s C (fork t p k v false r)
      → pointer t ≢ 0
      → Fixed (entries (plug C (fork t p k v false r))) (insert_fixup (suc f) (pointer t) s)
  ends_left f s C t p k v r h real =
      Focus-ends f s (in_left p k v false r C) t
        record {
          at = to_left s C t p k v false r h.at;
          balanced = h.balanced.1;
          calm = h.calm.2;
          fits = (h.balanced.0, h.balanced.2, h.fits);
          calms = (h.calm.1, h.calm.3, (λ e. ground (arith, e)), h.calms);
        }
        real refl (λ e. ground (arith, e))

  pub ends_right :
      (f : ℕ) (s : Store A) (C : Above A) (l : Tree A) (p k : ℕ) (v : A) (t : Tree A)
      → Focus s C (fork l p k v false t)
      → pointer t ≢ 0
      → Fixed (entries (plug C (fork l p k v false t))) (insert_fixup (suc f) (pointer t) s)
  ends_right f s C l p k v t h real =
      Focus-ends f s (in_right l p k v false C) t
        record {
          at = to_right s C l p k v false t h.at;
          balanced = h.balanced.2;
          calm = h.calm.3;
          fits = (h.balanced.0, h.balanced.1, h.fits);
          calms = (h.calm.0, h.calm.2, (λ e. ground (arith, e)), h.calms);
        }
        real refl (λ e. ground (arith, e))

  -- A turn of the loop is taken when the node above is red.
  pub Fixed-turn :
      (f n m : ℕ) (s s' : Store A) (C : Above A) (t : Tree A) (es es' : List (ℕ × ℕ × A))
      → At s C t
      → pointer t ≡ n
      → n ≢ 0
      → red_above C ≡ true
      → fixup_step n s ≡ (m, s')
      → es' ≡ es
      → Fixed es' (insert_fixup f m s')
      → Fixed es (insert_fixup (suc f) n s)
  Fixed-turn f n m s s' C t es es' h e real red step same fixed =
      let test : (not (s.parent n == 0) && s.red (s.parent n)) ≡ true =
        subst (λ n. (not (s.parent n == 0) && s.red (s.parent n)) ≡ true) e
          (loop_test s C t h (λ z. real (sym e ∙ z)) ∙ red) in
      subst (Fixed es) (sym (insert_fixup-goes f n s test ∙ ap (λ q. insert_fixup f q.0 q.1) step))
        (subst (λ es. Fixed es (insert_fixup f m s')) same fixed)

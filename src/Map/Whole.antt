-- ===== src/Map/Whole.antt =====
-- The whole tree of a map of kstdlib/map.hh, and the end of the loop of insert_fixup.
use os_projet.Common.{
  ℕ, suc, ◌+◌, ◌≤◌, ◌≡◌, ◌≢◌, refl, sym, ◌∙◌, Bool, true, false, not, ◌&&◌, ◌==◌, arith, List,
  Option, some, none,
}
use mathlib.Core.Path.{subst}
use os_projet.Map.{Store, set_red, insert_fixup, fixup_step}
use os_projet.Map.Shape.{
  Tree, leaf, fork, Above, top, in_left, in_right, pointer, above, Stands, Holds,
}
use os_projet.Map.Links.{recolored, Stands-Moved}
use os_projet.Map.Balance.{Balanced, Calm, IsRedBlack, plug, entries}

module _ {A : Type 0} where
  pub Stands-Wider :
      (s : Store A) (par lo hi lo' hi' : ℕ) (t : Tree A)
      → lo' ≤ lo
      → hi ≤ hi'
      → Stands s par lo hi t
      → Stands s par lo' hi' t
  Stands-Wider s par lo hi lo' hi' leaf a b h = tt
  Stands-Wider s par lo hi lo' hi' (fork l p k v c r) a b (low, high, n, hl, hr) = (
    omega arith,
    omega arith,
    n,
    Stands-Wider s p lo k lo' k l a (omega arith) hl,
    Stands-Wider s p (k + 1) hi (k + 1) hi' r (omega arith) b hr,
  )

  -- The nodes make the tree t, in order of their keys.
  pub record Represents (s : Store A) (t : Tree A) : Type 0 where
    pub bound : ℕ
    pub stands : Stands s 0 0 bound t
    pub root : s.root ≡ pointer t

  pub plug-Represents :
      (s : Store A) (lo hi : ℕ) (C : Above A) (t : Tree A)
      → Stands s (above C) lo hi t
      → Holds s lo hi C (pointer t)
      → Represents s (plug C t)
  plug-Represents s lo hi top t h e = record {
    bound = hi;
    stands = Stands-Wider s 0 lo hi 0 hi t (omega arith) (omega arith) h;
    root = e;
  }
  plug-Represents s lo hi (in_left p k v c r C) t h (e, low, (hi', high, n, hr, hC)) =
      plug-Represents s lo hi' C (fork t p k v c r)
        (low, high, n, Stands-Wider s p lo hi lo k t (omega arith) (omega arith) h, hr) hC
  plug-Represents s lo hi (in_right l p k v c C) t h (e, high, (lo', low, n, hl, hC)) =
      plug-Represents s lo' hi C (fork l p k v c t)
        (low, high, n, hl, Stands-Wider s p lo hi (k + 1) hi t (omega arith) (omega arith) h) hC

  pub pointer-parent :
      (s : Store A) (par lo hi : ℕ) (t : Tree A)
      → Stands s par lo hi t
      → pointer t ≢ 0
      → s.parent (pointer t) ≡ par
  pointer-parent s par lo hi leaf h real = absurd (real refl)
  pointer-parent s par lo hi (fork l p k v c r) (low, high, n, hl, hr) real = n.parent

  pub pointer-recolored : (c : Bool) (t : Tree A) → pointer (recolored c t) ≡ pointer t
  pointer-recolored c leaf = refl
  pointer-recolored c (fork l p k v c' r) = refl

  blacken-Represents :
      (s : Store A) (t : Tree A)
      → Represents s t
      → Represents (set_red s.root false s) (recolored false t)
  blacken-Represents s t h = record {
    bound = h.bound;
    stands =
        Stands-Moved s (set_red s.root false s) 0 0 0 h.bound false t h.stands
          (λ real. record {
            key = refl;
            value = refl;
            left = refl;
            right = refl;
            parent = pointer-parent s 0 0 h.bound t h.stands real;
            red = ground (arith, h.root);
          })
          (λ x real lo hi ne. record {
            key = refl;
            value = refl;
            red = ground (arith, h.root);
            parent = refl;
            left = refl;
            right = refl;
          });
    root = h.root ∙ sym (pointer-recolored false t);
  }

  blacken-IsRedBlack : (t : Tree A) → Balanced t → Calm t → IsRedBlack (recolored false t)
  blacken-IsRedBlack leaf b calm = record { balanced = tt; calm = tt; black_root = refl }
  blacken-IsRedBlack (fork l p k v c r) b (al, ar, cl, cr) = record {
    balanced = b;
    calm = ((λ e. ground (arith, e)), (λ e. ground (arith, e)), cl, cr);
    black_root = refl;
  }

  entries-blacken : (t : Tree A) → entries (recolored false t) ≡ entries t
  entries-blacken leaf = refl
  entries-blacken (fork l p k v c r) = refl

  -- A result is the store of a red-black tree with these entries.
  abbrev pub Fixed : List (ℕ × ℕ × A) → Option (Store A) → Type 0
  Fixed es none = ⊥
  Fixed es (some s) = (t : Tree A) × Represents s t × IsRedBlack t × (entries t ≡ es)

  pub insert_fixup-stops :
      (f n : ℕ) (s : Store A)
      → (not (s.parent n == 0) && s.red (s.parent n)) ≡ false
      → insert_fixup (suc f) n s ≡ some (set_red s.root false s)
  unfolding insert_fixup
  insert_fixup-stops f n s e = ground (arith, e)

  pub insert_fixup-goes :
      (f n : ℕ) (s : Store A)
      → (not (s.parent n == 0) && s.red (s.parent n)) ≡ true
      → insert_fixup (suc f) n s ≡ insert_fixup f (fixup_step n s).0 (fixup_step n s).1
  unfolding insert_fixup
  insert_fixup-goes f n s e = ground (arith, e)

  -- The loop ends, and the root becomes black.
  pub insert_fixup-ends :
      (f n : ℕ) (s : Store A) (t : Tree A)
      → (not (s.parent n == 0) && s.red (s.parent n)) ≡ false
      → Represents s t
      → Balanced t
      → Calm t
      → Fixed (entries t) (insert_fixup (suc f) n s)
  insert_fixup-ends f n s t e h b calm =
      subst (Fixed (entries t)) (sym (insert_fixup-stops f n s e)) (
        recolored false t,
        blacken-Represents s t h,
        blacken-IsRedBlack t b calm,
        entries-blacken t,
      )

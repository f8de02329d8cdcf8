-- ===== src/Map/EraseOne.antt =====
-- erase of kstdlib/map.hh for a node with at most one child.
use mathlib.Core.Path.{subst}
use mathlib.Core.List.{append_assoc, append-nil}
use os_projet.Common.{
  ℕ, suc, ◌+◌, ◌≤◌, ◌≡◌, ◌≢◌, refl, sym, ap, ◌∙◌, Bool, true, false, arith, ◌⊎◌, List, [], ◌∷◌,
  ◌++◌, Option, none, some,
}
use os_projet.Map.{Store, set_red, find_node}
use os_projet.Map.Erase.{transplant, erase_fixup, finish_erase, erase_node, erase}
use os_projet.Map.Shape.{Tree, leaf, fork, Above, top, in_left, in_right, pointer}
use os_projet.Map.Balance.{
  is_red, black_height, Balanced, Calm, IsRedBlack, Fits, Stood, plug, Balanced-plug, Calm-plug,
  entries, before, after, entries-plug,
}
use os_projet.Map.Whole.{Represents}
use os_projet.Map.Zipper.{At, At-plug, At-IsNode, At-set_red, to_left, to_right}
use os_projet.Map.Focus.{Focus, Stood-black}
use os_projet.Map.Place.{height, search}
use os_projet.Map.Insert.{find_node-search}
use os_projet.Map.Transplant.{At-transplant_left, At-transplant_right}
use os_projet.Map.Spot.{Spot, search-Spot}

module _ {A : Type 0} where
  -- What erase gives: it deletes the node at n, and the nodes make a red-black tree with the other entries.
  abbrev pub Erased : List (ℕ × ℕ × A) → ℕ → Option (ℕ × Store A) → Type 0
  Erased es n none = ⊥
  Erased es n (some (d, s)) =
      (d ≡ n)
      × ((t : Tree A) × Represents s t
          × IsRedBlack t
          × ((k : ℕ) × (v : A) × (xs : List (ℕ × ℕ × A)) × (ys : List (ℕ × ℕ × A)) × (es
                ≡ xs ++ (n, k, v) ∷ ys)
              × (entries t ≡ xs ++ ys)))

  is_red-plug :
      (C : Above A) (t w : Tree A)
      → (is_red t ≡ false → is_red w ≡ false)
      → is_red (plug C t) ≡ false
      → is_red (plug C w) ≡ false
  is_red-plug top t w f e = f e
  is_red-plug (in_left p k v c r C) t w f e =
      is_red-plug C (fork t p k v c r) (fork w p k v c r) (λ x. x) e
  is_red-plug (in_right l p k v c C) t w f e =
      is_red-plug C (fork l p k v c t) (fork l p k v c w) (λ x. x) e

  -- A subtree w of the same black height, with a black root, in place of that of n.
  Erased-at :
      (s s' : Store A) (C : Above A) (l : Tree A) (n k : ℕ) (v : A) (c : Bool) (r w : Tree A)
      (xs ys : List (ℕ × ℕ × A))
      → Focus s C (fork l n k v c r)
      → is_red (plug C (fork l n k v c r)) ≡ false
      → At s' C w
      → Balanced w
      → Calm w
      → is_red w ≡ false
      → black_height w ≡ black_height (fork l n k v c r)
      → entries l ++ (n, k, v) ∷ entries r ≡ xs ++ (n, k, v) ∷ ys
      → entries w ≡ xs ++ ys
      → Erased (entries (plug C (fork l n k v c r))) n (some (n, s'))
  Erased-at s s' C l n k v c r w xs ys h root at b calm black_root same whole rest = (
    refl,
    (
      plug C w,
      At-plug s' C w at,
      record {
        balanced = Balanced-plug C w b (subst (λ i. Fits i C) (sym same) h.fits);
        calm = Calm-plug C w calm h.calms (subst (Stood C) (sym black_root) (Stood-black C));
        black_root = is_red-plug C (fork l n k v c r) w (λ e. black_root) root;
      },
      (
        k,
        v,
        before C ++ xs,
        ys ++ after C,
        entries-plug C (fork l n k v c r)
            ∙ ap (λ es. before C ++ es ++ after C) whole
            ∙ simp append_assoc,
        entries-plug C w ∙ ap (λ es. before C ++ es ++ after C) rest ∙ simp append_assoc,
      ),
    ),
  )

  finish_red : (f n x : ℕ) (s : Store A) → finish_erase f n x true s ≡ some (n, s)
  unfolding finish_erase
  finish_red f n x s = refl

  finish_black :
      (f n x : ℕ) (s : Store A)
      → s.red x ≡ true
      → finish_erase (suc f) n x false s ≡ some (n, set_red x false s)
  unfolding finish_erase erase_fixup
  finish_black f n x s e = ground (arith, e)

  -- The node has no left child: its right child, a red one or none, takes its place and its colour.
  erase-right :
      (f : ℕ) (s : Store A) (C : Above A) (n k : ℕ) (v : A) (c : Bool) (r : Tree A)
      → Focus s C (fork leaf n k v c r)
      → is_red (plug C (fork leaf n k v c r)) ≡ false
      → (c ≡ false → pointer r ≢ 0)
      → Erased
          (entries (plug C (fork leaf n k v c r)))
          n
          (finish_erase (suc f) n (s.right n) c (transplant n (s.right n) s))
  erase-right f s C n k v true leaf h root lone =
      let s' = transplant n (s.right n) s in
      subst (Erased (entries (plug C (fork leaf n k v true leaf))) n)
        (sym (finish_red (suc f) n (s.right n) s'))
        (Erased-at s s' C leaf n k v true leaf leaf [] [] h root
          (At-transplant_right s C leaf n k v true leaf h.at) tt tt refl refl refl refl)
  erase-right f s C n k v true (fork a y ky vy true b) h root lone =
      absurd (ground (arith, h.calm.1 refl))
  erase-right f s C n k v true (fork a y ky vy false b) h root lone =
      absurd (omega (arith, h.balanced.0))
  erase-right f s C n k v false leaf h root lone = absurd (lone refl refl)
  erase-right f s C n k v false (fork a y ky vy false b) h root lone =
      absurd (omega (arith, h.balanced.0))
  erase-right f s C n k v false (fork a y ky vy true b) h root lone =
      let s' = transplant n (s.right n) s in
      let m = At-IsNode s C leaf n k v false (fork a y ky vy true b) h.at in
      let at = At-transplant_right s C leaf n k v false (fork a y ky vy true b) h.at in
      let my = At-IsNode s' C a y ky vy true b at in
      subst (Erased (entries (plug C (fork leaf n k v false (fork a y ky vy true b)))) n)
        (sym (ap (λ q. finish_erase (suc f) n q false s') m.right ∙ finish_black f n y s' my.red))
        (Erased-at s (set_red y false s') C leaf n k v false (fork a y ky vy true b)
          (fork a y ky vy false b) [] (entries a ++ (y, ky, vy) ∷ entries b) h root
          (At-set_red s' C a y ky vy true false b at) h.balanced.2
          ((λ e. ground (arith, e)), (λ e. ground (arith, e)), h.calm.3.2, h.calm.3.3) refl
          (ap (λ i. i + 1) (sym h.balanced.0)) refl refl)

  -- The same for a left child, with no right one.
  erase-left :
      (f : ℕ) (s : Store A) (C : Above A) (l : Tree A) (n k : ℕ) (v : A) (c : Bool)
      → Focus s C (fork l n k v c leaf)
      → is_red (plug C (fork l n k v c leaf)) ≡ false
      → pointer l ≢ 0
      → Erased
          (entries (plug C (fork l n k v c leaf)))
          n
          (finish_erase (suc f) n (s.left n) c (transplant n (s.left n) s))
  erase-left f s C leaf n k v c h root real = absurd (real refl)
  erase-left f s C (fork a y ky vy true b) n k v true h root real =
      absurd (ground (arith, h.calm.0 refl))
  erase-left f s C (fork a y ky vy false b) n k v true h root real =
      absurd (omega (arith, h.balanced.0))
  erase-left f s C (fork a y ky vy false b) n k v false h root real =
      absurd (omega (arith, h.balanced.0))
  erase-left f s C (fork a y ky vy true b) n k v false h root real =
      let s' = transplant n (s.left n) s in
      let m = At-IsNode s C (fork a y ky vy true b) n k v false leaf h.at in
      let at = At-transplant_left s C (fork a y ky vy true b) n k v false leaf h.at in
      let my = At-IsNode s' C a y ky vy true b at in
      subst (Erased (entries (plug C (fork (fork a y ky vy true b) n k v false leaf))) n)
        (sym (ap (λ q. finish_erase (suc f) n q false s') m.left ∙ finish_black f n y s' my.red))
        (Erased-at s (set_red y false s') C (fork a y ky vy true b) n k v false leaf
          (fork a y ky vy false b) (entries a ++ (y, ky, vy) ∷ entries b) [] h root
          (At-set_red s' C a y ky vy true false b at) h.balanced.1
          ((λ e. ground (arith, e)), (λ e. ground (arith, e)), h.calm.2.2, h.calm.2.3) refl refl
          refl (sym (append-nil (entries a ++ (y, ky, vy) ∷ entries b))))

  erase_node-right :
      (f n : ℕ) (s : Store A)
      → n ≢ 0
      → s.left n ≡ 0
      → erase_node f s (some n)
        ≡ finish_erase f n (s.right n) (s.red n) (transplant n (s.right n) s)
  erase_node-right f n s real e = ground (arith, real, e)

  erase_node-left :
      (f n : ℕ) (s : Store A)
      → n ≢ 0
      → s.left n ≢ 0
      → s.right n ≡ 0
      → erase_node f s (some n) ≡ finish_erase f n (s.left n) (s.red n) (transplant n (s.left n) s)
  erase_node-left f n s real ne e = ground (arith, real, ne, e)

  -- The cases of the children at the place of n.
  erase_node-Erased :
      (f : ℕ) (s : Store A) (C : Above A) (l : Tree A) (n k : ℕ) (v : A) (c : Bool) (r : Tree A)
      → Focus s C (fork l n k v c r)
      → is_red (plug C (fork l n k v c r)) ≡ false
      → (s.left n ≡ 0) ⊎ (s.right n ≡ 0)
      → (s.red n ≡ false → s.left n ≡ 0 → s.right n ≢ 0)
      → Erased (entries (plug C (fork l n k v c r))) n (erase_node (suc f) s (some n))
  erase_node-Erased f s C leaf n k v c r h root one lone =
      let m = At-IsNode s C leaf n k v c r h.at in
      subst (Erased (entries (plug C (fork leaf n k v c r))) n)
        (sym (
          erase_node-right (suc f) n s m.real m.left
          ∙ ap (λ b. finish_erase (suc f) n (s.right n) b (transplant n (s.right n) s)) m.red))
        (erase-right f s C n k v c r h root (λ e z. lone (m.red ∙ e) m.left (m.right ∙ z)))
  erase_node-Erased f s C (fork a y ky vy cy b) n k v c leaf h root one lone =
      let l = fork a y ky vy cy b in
      let m = At-IsNode s C l n k v c leaf h.at in
      let my =
        At-IsNode s (in_left n k v c leaf C) a y ky vy cy b (to_left s C l n k v c leaf h.at) in
      subst (Erased (entries (plug C (fork l n k v c leaf))) n)
        (sym (
          erase_node-left (suc f) n s m.real (λ z. my.real (sym m.left ∙ z)) m.right
          ∙ ap (λ b. finish_erase (suc f) n (s.left n) b (transplant n (s.left n) s)) m.red))
        (erase-left f s C l n k v c h root my.real)
  erase_node-Erased f s C (fork a y ky vy cy b) n k v c (fork d z kz vz cz e) h root one lone =
      let l = fork a y ky vy cy b in
      let r = fork d z kz vz cz e in
      let m = At-IsNode s C l n k v c r h.at in
      let my = At-IsNode s (in_left n k v c r C) a y ky vy cy b (to_left s C l n k v c r h.at) in
      let mz = At-IsNode s (in_right l n k v c C) d z kz vz cz e (to_right s C l n k v c r h.at) in
      absurd (ground (arith, one, m.left, m.right, my.real, mz.real))

  -- erase of the key of a node n that has at most one child, and is not a black one without children, in a
  -- red-black tree of height at most f and with f + 1 rounds of fuel: it deletes that node, and leaves a red-black
  -- tree with the other nodes.
  pub erase-Erased :
      (f : ℕ) (s : Store A) (t : Tree A) (k n : ℕ)
      → Represents s t
      → IsRedBlack t
      → height t ≤ f
      → find_node (suc f) s k ≡ some n
      → n ≢ 0
      → (s.left n ≡ 0) ⊎ (s.right n ≡ 0)
      → (s.red n ≡ false → s.left n ≡ 0 → s.right n ≢ 0)
      → Erased (entries t) n (erase (suc f) s k)
  unfolding erase
  erase-Erased f s t k n h rb fuel finds real one lone =
      let at_n : search k t ≡ n =
        ground (arith, finds, find_node-search (suc f) s t k h (omega (arith, fuel))) in
      let spot : Spot s t n = subst (Spot s t) at_n (
        search-Spot s k top t
          record {
            at = record { lo = 0; hi = h.bound; stands = h.stands; holds = h.root };
            balanced = rb.balanced;
            calm = rb.calm;
            fits = tt;
            calms = tt;
          }
          (λ e. ground (arith, e, rb.black_root)) (λ z. real (sym at_n ∙ z))) in
      subst (λ o. Erased (entries t) n (erase_node (suc f) s o)) (sym finds)
        (subst (λ t. Erased (entries t) n (erase_node (suc f) s (some n))) spot.same
          (erase_node-Erased f s spot.place spot.left n spot.key spot.value spot.red spot.right
            spot.focus (ap is_red spot.same ∙ rb.black_root) one lone))

  -- erase of a key that is not found changes nothing.
  pub erase_absent :
      (f : ℕ) (s : Store A) (k : ℕ) → find_node f s k ≡ some 0 → erase f s k ≡ some (0, s)
  unfolding erase
  erase_absent f s k e = ap (erase_node f s) e

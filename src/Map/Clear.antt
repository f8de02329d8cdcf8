-- ===== src/Map/Clear.antt =====
-- clear of kstdlib/map.hh deletes each node once.
use os_projet.Common.{
  ℕ, zero, suc, ◌+◌, ◌<◌, ◌≡◌, refl, sym, ap, ◌∙◌, true, ◌==◌, if◌then◌else◌, arith, List, [], ◌∷◌,
  ◌++◌, Option, some, none,
}
use mathlib.Core.Path.{subst}
use os_projet.Map.{Store, empty}
use os_projet.Map.Shape.{Tree, leaf, fork, pointer, Stands}
use os_projet.Map.Balance.{entries}
use os_projet.Map.Whole.{Represents}
use os_projet.Map.Place.{height}
use os_projet.Map.Erase.{clear_from, cleared, clear}

-- How often x is in a list.
abbrev pub count : ℕ → List ℕ → ℕ
count x [] = 0
count x (y ∷ ys) = (if x == y then 1 else 0) + count x ys

count-append : (x : ℕ) (xs ys : List ℕ) → count x (xs ++ ys) ≡ count x xs + count x ys
count-append x [] ys = omega arith
count-append x (y ∷ xs) ys = omega (arith, count-append x xs ys)

module _ {A : Type 0} where
  abbrev pub addresses : List (ℕ × ℕ × A) → List ℕ
  addresses [] = []
  addresses ((p, k, v) ∷ es) = p ∷ addresses es

  addresses-append :
      (xs ys : List (ℕ × ℕ × A)) → addresses (xs ++ ys) ≡ addresses xs ++ addresses ys
  addresses-append [] ys = refl
  addresses-append ((p, k, v) ∷ xs) ys = ap (λ zs. p ∷ zs) (addresses-append xs ys)

  -- The children before the node.
  abbrev post_order : Tree A → List ℕ
  post_order leaf = []
  post_order (fork l p k v c r) = post_order l ++ (post_order r ++ p ∷ [])

  count-post_order : (x : ℕ) (t : Tree A) → count x (post_order t) ≡ count x (addresses (entries t))
  count-post_order x leaf = refl
  count-post_order x (fork l p k v c r) =
      let left = count-post_order x l in
      let right = count-post_order x r in
      let post = count-append x (post_order l) (post_order r ++ p ∷ []) in
      let post_right = count-append x (post_order r) (p ∷ []) in
      let es = ap (count x) (addresses-append (entries l) ((p, k, v) ∷ entries r)) in
      let both = count-append x (addresses (entries l)) (p ∷ addresses (entries r)) in
      post
      ∙ ap (λ c. count x (post_order l) + c) post_right
      ∙ omega (arith, left, right)
      ∙ sym (es ∙ both)

  clear_from-post_order :
      (f : ℕ) (s : Store A) (par lo hi : ℕ) (t : Tree A)
      → height t < f
      → Stands s par lo hi t
      → clear_from f s (pointer t) ≡ some (post_order t)
  unfolding clear_from
  clear_from-post_order zero s par lo hi t fuel h = absurd (omega (arith, fuel))
  clear_from-post_order (suc f) s par lo hi leaf fuel h = refl
  clear_from-post_order (suc f) s par lo hi (fork l p k v c r) fuel (low, high, n, hl, hr) =
      let left : clear_from f s (s.left p) ≡ some (post_order l) =
        ap (clear_from f s) n.left ∙ clear_from-post_order f s p lo k l (omega (arith, fuel)) hl in
      let right : clear_from f s (s.right p) ≡ some (post_order r) =
        ap (clear_from f s) n.right
        ∙ clear_from-post_order f s p (k + 1) hi r (omega (arith, fuel)) hr in
      ground (arith, left, right, n.real)

  -- What clear gives: the nodes it deletes are those of the entries, each as often as there, and the map is empty.
  abbrev pub Clears : List (ℕ × ℕ × A) → Option (List ℕ × Store A) → Type 0
  Clears es none = ⊥
  Clears es (some (xs, s)) =
      ((x : ℕ) → count x xs ≡ count x (addresses es)) × Represents s leaf × (empty s ≡ true)

  -- clear with fuel for more than the height of the tree: it deletes the nodes of the tree and no other, each as
  -- often as it stands there, and leaves the map empty.
  pub clear-Clears :
      (f : ℕ) (s : Store A) (t : Tree A)
      → Represents s t
      → height t < f
      → Clears (entries t) (clear f s)
  unfolding clear empty
  clear-Clears f s t h fuel =
      subst (λ o. Clears (entries t) (cleared s o))
        (sym (ap (clear_from f s) h.root ∙ clear_from-post_order f s 0 0 h.bound t fuel h.stands))
        ((λ x. count-post_order x t), record { bound = 0; stands = tt; root = refl }, refl)

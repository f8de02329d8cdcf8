-- ===== src/Map/Find.antt =====
-- find_node of kstdlib/map.hh finds the entry, in logarithmic time; insert changes what it finds at one key.
use os_projet.Common.{
  ℕ, ◌+◌, ◌*◌, ◌^◌, ◌≤◌, ◌<◌, ◌≡◌, ◌≢◌, refl, sym, ap, ◌∙◌, Bool, true, false, ◌==◌, if◌then◌else◌,
  arith, List, [], ◌∷◌, ◌++◌, some, ◌⊎◌, inl, inr, ltb, length, length-append, leb, Bool-cases,
}
use mathlib.Core.List.{append_assoc, append-nil}
use native.Mathlib.Nat.{pow-le-pow_right, two-pow-succ}
use os_projet.Map.{Store, find_node}
use os_projet.Map.Shape.{Tree, leaf, fork, Stands}
use os_projet.Map.Balance.{IsRedBlack, Balanced, Calm, black, black_height, is_red, entries}
use os_projet.Map.Whole.{Represents}
use os_projet.Map.Place.{height, search}
use os_projet.Map.Grown.{insert_entry}
use os_projet.Map.Insert.{find_node-search}

-- The node at a key kp against the tests of a search for k.
found_at :
    (k kp p l r after here all : ℕ)
    → here ≡ (if kp == k then p else after)
    → (k < kp → all ≡ l)
    → (kp ≤ k → all ≡ here)
    → after ≡ r
    → all ≡ (if ltb k kp then l else if ltb kp k then r else p)
found_at k kp p l r after here all eh el er ea = ground (arith, eh, el, er, ea)

module _ {A : Type 0} where
  -- The address of the first entry with the key k, 0 without one.
  abbrev pub find_entry : ℕ → List (ℕ × ℕ × A) → ℕ
  find_entry k [] = 0
  find_entry k ((p, kp, v) ∷ es) = if kp == k then p else find_entry k es

  -- Entries with other keys are passed over.
  find_entry-out :
      (k : ℕ) (s : Store A) (par lo hi : ℕ) (t : Tree A) (es : List (ℕ × ℕ × A))
      → Stands s par lo hi t
      → (k < lo) ⊎ (hi ≤ k)
      → find_entry k (entries t ++ es) ≡ find_entry k es
  find_entry-out k s par lo hi leaf es h out = refl
  find_entry-out k s par lo hi (fork l p kp v c r) es (low, high, n, hl, hr) out =
      let left =
        find_entry-out k s p lo kp l ((p, kp, v) ∷ entries r ++ es) hl (ground (arith, out)) in
      let right = find_entry-out k s p (kp + 1) hi r es hr (ground (arith, out)) in
      ap (find_entry k) (append_assoc (entries l) ((p, kp, v) ∷ entries r) es)
      ∙ left
      ∙ ground (arith, out, right)

  find_entry-search :
      (k : ℕ) (s : Store A) (par lo hi : ℕ) (t : Tree A) (es : List (ℕ × ℕ × A))
      → Stands s par lo hi t
      → find_entry k es ≡ 0
      → find_entry k (entries t ++ es) ≡ search k t
  find_entry-search k s par lo hi leaf es h e = e
  find_entry-search k s par lo hi (fork l p kp v c r) es (low, high, n, hl, hr) e =
      let rest : List (ℕ × ℕ × A) = (p, kp, v) ∷ entries r ++ es in
      let assoc : find_entry k ((entries l ++ (p, kp, v) ∷ entries r) ++ es)
          ≡ find_entry k (entries l ++ rest) =
        ap (find_entry k) (append_assoc (entries l) ((p, kp, v) ∷ entries r) es) in
      assoc
      ∙ found_at k kp p (search k l) (search k r) (find_entry k (entries r ++ es))
          (find_entry k rest) (find_entry k (entries l ++ rest)) refl
          (λ lt.
            find_entry-search k s p lo kp l rest hl
              (ground (arith, lt, find_entry-out k s p (kp + 1) hi r es hr (inl (omega arith)), e)))
          (λ le. find_entry-out k s p lo kp l rest hl (inr le))
          (find_entry-search k s p (kp + 1) hi r es hr e)

  -- The number of nodes is exponential in the number of black ones on a path.
  pub black_height-length : (t : Tree A) → Balanced t → 2 ^ black_height t ≤ length (entries t) + 1
  black_height-length leaf b = omega arith
  black_height-length (fork l p k v c r) (e, bl, br) =
      let left = black_height-length l bl in
      let right = black_height-length r br in
      let size = length-append (entries l) ((p, k, v) ∷ entries r) in
      go c left (ap (λ h. 2 ^ h) e ∙ refl) right size
    where
      go :
          (c : Bool)
          → 2 ^ black_height l ≤ length (entries l) + 1
          → 2 ^ black_height l ≡ 2 ^ black_height r
          → 2 ^ black_height r ≤ length (entries r) + 1
          → length (entries l ++ (p, k, v) ∷ entries r)
            ≡ length (entries l) + length ((p, k, v) ∷ entries r)
          → 2 ^ black c (black_height l) ≤ length (entries l ++ (p, k, v) ∷ entries r) + 1
      go true left same right size = ground (arith, left, size)
      go false left same right size =
          let twice : 2 ^ (black_height l + 1) ≡ 2 * 2 ^ black_height l =
            ap (λ x. 2 ^ x) (omega arith) ∙ two-pow-succ (black_height l) ∙ omega arith in
          ground (arith, left, same, right, size, twice)

  -- At most every second node on a path is red.
  height-black_height :
      (t : Tree A)
      → Balanced t
      → Calm t
      → height t ≤ 2 * black_height t + (if is_red t then 1 else 0)
  height-black_height leaf b calm = omega arith
  height-black_height (fork l p k v true r) (e, bl, br) (al, ar, cl, cr) =
      let left = height-black_height l bl cl in
      let right = height-black_height r br cr in ground (arith, left, right, e, al refl, ar refl)
  height-black_height (fork l p k v false r) (e, bl, br) (al, ar, cl, cr) =
      let left = height-black_height l bl cl in
      let right = height-black_height r br cr in ground (arith, left, right, e)

  pub height-IsRedBlack : (t : Tree A) → IsRedBlack t → height t ≤ 2 * black_height t
  height-IsRedBlack t rb =
      let h = height-black_height t rb.balanced rb.calm in ground (arith, h, rb.black_root)

  pub height-log :
      (m : ℕ) (t : Tree A)
      → IsRedBlack t
      → length (entries t) + 1 < 2 ^ (m + 1)
      → height t < 2 * m + 1
  height-log m t rb small =
      let low = height-IsRedBlack t rb in
      elim (Bool-cases (leb (black_height t) m)) [
        | inl e ↦ ground (arith, e, low)
        | inr e ↦
            let more =
              pow-le-pow_right {n = 2} (omega arith) {i = m + 1} {j = black_height t}
                (ground (arith, e)) in
            let size = black_height-length t rb.balanced in
            absurd (omega (arith, small, more, size))
      ]

  -- For a red-black tree with less than 2 ^ (m + 1) - 1 nodes, 2 m + 1 tests of the loop are enough for
  -- find_node, and it returns the address of the node with the key, nullptr when there is none.
  pub find_node-finds :
      (m : ℕ) (s : Store A) (t : Tree A) (k : ℕ)
      → Represents s t
      → IsRedBlack t
      → length (entries t) + 1 < 2 ^ (m + 1)
      → find_node (2 * m + 1) s k ≡ some (find_entry k (entries t))
  find_node-finds m s t k h rb small =
      find_node-search (2 * m + 1) s t k h (height-log m t rb small)
      ∙ ap some (
          sym (find_entry-search k s 0 0 h.bound t [] h.stands refl)
          ∙ ap (find_entry k) (append-nil (entries t)))

  -- The entries are nodes, not the null pointer.
  abbrev pub Real : List (ℕ × ℕ × A) → Type 0
  Real [] = Unit
  Real ((p, kp, v) ∷ es) = (p ≢ 0) × Real es

  Real-append : (xs ys : List (ℕ × ℕ × A)) → Real xs → Real ys → Real (xs ++ ys)
  Real-append [] ys h r = r
  Real-append ((p, kp, v) ∷ xs) ys (real, h) r = (real, Real-append xs ys h r)

  pub entries-Real :
      (s : Store A) (par lo hi : ℕ) (t : Tree A) → Stands s par lo hi t → Real (entries t)
  entries-Real s par lo hi leaf h = tt
  entries-Real s par lo hi (fork l p k v c r) (low, high, n, hl, hr) =
      Real-append (entries l) ((p, k, v) ∷ entries r) (entries-Real s p lo k l hl)
        (n.real, entries-Real s p (k + 1) hi r hr)

  -- What is found after the insertion of an entry with a new key: the new node at its key, and at the others what
  -- was found before.
  pub find_entry-insert_entry :
      (n k : ℕ) (v : A) (es : List (ℕ × ℕ × A)) (j : ℕ)
      → Real es
      → find_entry k es ≡ 0
      → find_entry j (insert_entry n k v es) ≡ (if j == k then n else find_entry j es)
  find_entry-insert_entry n k v [] j real e = ground arith
  find_entry-insert_entry n k v ((p, kp, vp) ∷ es) j (real, reals) e =
      let rest = find_entry-insert_entry n k v es j reals in go (ltb k kp) refl rest
    where
      go :
          (b : Bool)
          → ltb k kp ≡ b
          → (find_entry k es ≡ 0
              → find_entry j (insert_entry n k v es) ≡ (if j == k then n else find_entry j es))
          → find_entry j
              (if b then (n, k, v) ∷ (p, kp, vp) ∷ es else (p, kp, vp) ∷ insert_entry n k v es)
            ≡ (if j == k then n else if kp == j then p else find_entry j es)
      go true eb rest = ground arith
      go false eb rest =
          let other : kp ≢ k = λ z.
            real (sym (ap (λ q. if q == k then p else find_entry k es) z ∙ ground arith) ∙ e) in
          let later : find_entry k es ≡ 0 = ground (arith, e, other) in
          ground (arith, rest later, other)

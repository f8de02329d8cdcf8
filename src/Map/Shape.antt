-- ===== src/Map/Shape.antt =====
-- The tree that the nodes on the heap make: in order, and each node with the links that belong to its place.
use os_projet.Common.{ℕ, ◌+◌, ◌≤◌, ◌<◌, ◌≡◌, ◌≢◌, ◌∙◌, Bool, arith, ◌⊎◌, inl, inr}
use os_projet.Map.{Store}

-- A subtree: the left one, the address, key, value and colour of its node, and the right one.
pub data Tree (A : Type 0) : Type 0 where
  leaf : Tree A
  fork : Tree A → ℕ → ℕ → A → Bool → Tree A → Tree A

-- What is above a subtree, with the nearest node first: it is the left child of a node with the right
-- subtree given, or the right one of a node with the left subtree given.
pub data Above (A : Type 0) : Type 0 where
  top : Above A
  in_left : ℕ → ℕ → A → Bool → Tree A → Above A → Above A
  in_right : Tree A → ℕ → ℕ → A → Bool → Above A → Above A

module _ {A : Type 0} where
  abbrev pub pointer : Tree A → ℕ
  pointer leaf = 0
  pointer (fork l p k v c r) = p

  abbrev pub above : Above A → ℕ
  above top = 0
  above (in_left p k v c r C) = p
  above (in_right l p k v c C) = p

  -- The node at p.
  pub record IsNode (s : Store A) (p k : ℕ) (v : A) (c : Bool) (par l r : ℕ) : Type 0 where
    pub real : p ≢ 0
    pub key : s.key p ≡ k
    pub value : s.value p ≡ v
    pub red : s.red p ≡ c
    pub parent : s.parent p ≡ par
    pub left : s.left p ≡ l
    pub right : s.right p ≡ r

  -- The subtree stands below par, and its keys are from lo on and below hi.
  abbrev pub Stands : Store A → ℕ → ℕ → ℕ → Tree A → Type 0
  Stands s par lo hi leaf = Unit
  Stands s par lo hi (fork l p k v c r) =
      (lo ≤ k)
      × (k < hi)
      × IsNode s p k v c par (pointer l) (pointer r)
      × Stands s p lo k l
      × Stands s p (k + 1) hi r

  -- What is above a subtree with the pointer q and keys from lo on and below hi.
  abbrev pub Holds : Store A → ℕ → ℕ → Above A → ℕ → Type 0
  Holds s lo hi top q = s.root ≡ q
  Holds s lo hi (in_left p k v c r C) q =
      (hi ≡ k)
      × (lo ≤ k)
      × ((hi' : ℕ) × (k < hi')
          × IsNode s p k v c (above C) q (pointer r)
          × Stands s p (k + 1) hi' r
          × Holds s lo hi' C p)
  Holds s lo hi (in_right l p k v c C) q =
      (lo ≡ k + 1)
      × (k < hi)
      × ((lo' : ℕ) × (lo' ≤ k)
          × IsNode s p k v c (above C) (pointer l) q
          × Stands s p lo' k l
          × Holds s lo' hi C p)

  -- Nothing of the node at x has changed.
  pub record Same (s s' : Store A) (x : ℕ) : Type 0 where
    pub key : s'.key x ≡ s.key x
    pub value : s'.value x ≡ s.value x
    pub red : s'.red x ≡ s.red x
    pub parent : s'.parent x ≡ s.parent x
    pub left : s'.left x ≡ s.left x
    pub right : s'.right x ≡ s.right x

  IsNode-Same :
      (s s' : Store A) (p k : ℕ) (v : A) (c : Bool) (par l r : ℕ)
      → Same s s' p
      → IsNode s p k v c par l r
      → IsNode s' p k v c par l r
  IsNode-Same s s' p k v c par l r e n = record {
    real = n.real;
    key = e.key ∙ n.key;
    value = e.value ∙ n.value;
    red = e.red ∙ n.red;
    parent = e.parent ∙ n.parent;
    left = e.left ∙ n.left;
    right = e.right ∙ n.right;
  }

  -- A subtree is not touched by writes to nodes with other keys.
  pub Stands-Same :
      (s s' : Store A) (par lo hi : ℕ) (t : Tree A)
      → ((x : ℕ) → x ≢ 0 → lo ≤ s.key x → s.key x < hi → Same s s' x)
      → Stands s par lo hi t
      → Stands s' par lo hi t
  Stands-Same s s' par lo hi leaf same h = tt
  Stands-Same s s' par lo hi (fork l p k v c r) same (low, high, n, hl, hr) = (
    low,
    high,
    IsNode-Same s s' p k v c par (pointer l) (pointer r)
        (same p n.real (omega (arith, n.key)) (omega (arith, n.key))) n,
    Stands-Same s s' p lo k l (λ x real a b. same x real a (omega arith)) hl,
    Stands-Same s s' p (k + 1) hi r (λ x real a b. same x real (omega arith) b) hr,
  )

  -- Nor is what is above.
  pub Holds-Same :
      (s s' : Store A) (lo hi : ℕ) (C : Above A) (q : ℕ)
      → s'.root ≡ s.root
      → ((x : ℕ) → x ≢ 0 → (s.key x < lo) ⊎ (hi ≤ s.key x) → Same s s' x)
      → Holds s lo hi C q
      → Holds s' lo hi C q
  Holds-Same s s' lo hi top q root same h = root ∙ h
  Holds-Same s s' lo hi (in_left p k v c r C) q root same (e, low, (hi', high, n, hr, hC)) = (
    e,
    low,
    (
      hi',
      high,
      IsNode-Same s s' p k v c (above C) q (pointer r) (same p n.real (inr (omega (arith, n.key))))
          n,
      Stands-Same s s' p (k + 1) hi' r (λ x real a b. same x real (inr (omega arith))) hr,
      Holds-Same s s' lo hi' C p root (λ x real out. same x real (ground (arith, out))) hC,
    ),
  )
  Holds-Same s s' lo hi (in_right l p k v c C) q root same (e, high, (lo', low, n, hl, hC)) = (
    e,
    high,
    (
      lo',
      low,
      IsNode-Same s s' p k v c (above C) (pointer l) q (same p n.real (inl (omega (arith, n.key))))
          n,
      Stands-Same s s' p lo' k l (λ x real a b. same x real (inl (omega arith))) hl,
      Holds-Same s s' lo' hi C p root (λ x real out. same x real (ground (arith, out))) hC,
    ),
  )

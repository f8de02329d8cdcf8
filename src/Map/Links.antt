-- ===== src/Map/Links.antt =====
-- How subtrees and what is above them take a change of a link.
use os_projet.Common.{ℕ, ◌+◌, ◌≤◌, ◌<◌, ◌≡◌, ◌≢◌, refl, ap, ◌∙◌, Bool, arith, ◌⊎◌, inl, inr}
use os_projet.Map.{Store}
use os_projet.Map.Shape.{
  Tree, leaf, fork, Above, top, in_left, in_right, pointer, above, Stands, Holds, Same, Stands-Same,
  Holds-Same,
}

module _ {A : Type 0} where
  -- Nodes with other keys are other nodes.
  pub other_key : (s : Store A) (x z : ℕ) → s.key x ≢ s.key z → x ≢ z
  other_key s x z ne e = ne (ap s.key e)

  -- The root of a subtree has one of its keys.
  pub pointer_in :
      (s : Store A) (par lo hi : ℕ) (t : Tree A)
      → Stands s par lo hi t
      → (pointer t ≡ 0) ⊎ ((lo ≤ s.key (pointer t)) × (s.key (pointer t) < hi))
  pointer_in s par lo hi leaf h = inl refl
  pointer_in s par lo hi (fork l p k v c r) (low, high, n, hl, hr) =
      inr (omega (arith, n.key), omega (arith, n.key))

  -- The node above a subtree has none of its keys.
  pub above_out :
      (s : Store A) (lo hi : ℕ) (C : Above A) (q : ℕ)
      → Holds s lo hi C q
      → (above C ≡ 0) ⊎ ((s.key (above C) < lo) ⊎ (hi ≤ s.key (above C)))
  above_out s lo hi top q h = inl refl
  above_out s lo hi (in_left p k v c r C) q (e, low, (hi', high, n, hr, hC)) =
      inr (inr (omega (arith, n.key)))
  above_out s lo hi (in_right l p k v c C) q (e, high, (lo', low, n, hl, hC)) =
      inr (inl (omega (arith, n.key)))

  -- The root of a subtree gets another parent, and maybe another colour, and nothing else changes.
  pub record Moved (s s' : Store A) (p par : ℕ) (c : Bool) : Type 0 where
    pub key : s'.key p ≡ s.key p
    pub value : s'.value p ≡ s.value p
    pub left : s'.left p ≡ s.left p
    pub right : s'.right p ≡ s.right p
    pub parent : s'.parent p ≡ par
    pub red : s'.red p ≡ c

  abbrev pub recolored : Bool → Tree A → Tree A
  recolored c leaf = leaf
  recolored c (fork l p k v c' r) = fork l p k v c r

  pub Stands-Moved :
      (s s' : Store A) (par par' lo hi : ℕ) (c : Bool) (t : Tree A)
      → Stands s par lo hi t
      → (pointer t ≢ 0 → Moved s s' (pointer t) par' c)
      → ((x : ℕ) → x ≢ 0 → lo ≤ s.key x → s.key x < hi → x ≢ pointer t → Same s s' x)
      → Stands s' par' lo hi (recolored c t)
  Stands-Moved s s' par par' lo hi c leaf h moved same = tt
  Stands-Moved s s' par par' lo hi c (fork l p k v c' r) (low, high, n, hl, hr) moved same =
      let m = moved n.real in
      (
        low,
        high,
        record {
          real = n.real;
          key = m.key ∙ n.key;
          value = m.value ∙ n.value;
          red = m.red;
          parent = m.parent;
          left = m.left ∙ n.left;
          right = m.right ∙ n.right;
        },
        Stands-Same s s' p lo k l
            (λ x real a b. same x real a (omega arith) (other_key s x p (omega (arith, n.key)))) hl,
        Stands-Same s s' p (k + 1) hi r
            (λ x real a b. same x real (omega arith) b (other_key s x p (omega (arith, n.key)))) hr,
      )

  pub Stands-Reparented :
      (s s' : Store A) (par par' lo hi : ℕ) (t : Tree A)
      → Stands s par lo hi t
      → (pointer t ≢ 0 → Moved s s' (pointer t) par' (s.red (pointer t)))
      → ((x : ℕ) → x ≢ 0 → lo ≤ s.key x → s.key x < hi → x ≢ pointer t → Same s s' x)
      → Stands s' par' lo hi t
  Stands-Reparented s s' par par' lo hi leaf h moved same = tt
  Stands-Reparented s s' par par' lo hi (fork l p k v c r) (low, high, n, hl, hr) moved same =
      Stands-Moved s s' par par' lo hi c (fork l p k v c r) (low, high, n, hl, hr)
        (λ real. record {
          key = (moved real).key;
          value = (moved real).value;
          left = (moved real).left;
          right = (moved real).right;
          parent = (moved real).parent;
          red = (moved real).red ∙ n.red;
        })
        same

  -- The link from above a subtree goes to q.
  abbrev pub Relinks : Store A → Store A → Above A → ℕ → Type 0
  Relinks s s' top q = s'.root ≡ q
  Relinks s s' (in_left p k v c r C) q =
      (s'.root ≡ s.root)
      × (s'.key p ≡ s.key p)
      × (s'.value p ≡ s.value p)
      × (s'.red p ≡ s.red p)
      × (s'.parent p ≡ s.parent p)
      × (s'.left p ≡ q)
      × (s'.right p ≡ s.right p)
  Relinks s s' (in_right l p k v c C) q =
      (s'.root ≡ s.root)
      × (s'.key p ≡ s.key p)
      × (s'.value p ≡ s.value p)
      × (s'.red p ≡ s.red p)
      × (s'.parent p ≡ s.parent p)
      × (s'.left p ≡ s.left p)
      × (s'.right p ≡ q)

  pub Holds-Relinks :
      (s s' : Store A) (lo hi : ℕ) (C : Above A) (q q' : ℕ)
      → Holds s lo hi C q
      → Relinks s s' C q'
      → ((x : ℕ) → x ≢ 0 → (s.key x < lo) ⊎ (hi ≤ s.key x) → x ≢ above C → Same s s' x)
      → Holds s' lo hi C q'
  Holds-Relinks s s' lo hi top q q' h e same = e
  Holds-Relinks s s' lo hi (in_left p k v c r C) q q' (e, low, (hi', high, n, hr, hC))
        (er, ek, ev, ec, ep, el, eright) same =
      (
        e,
        low,
        (
          hi',
          high,
          record {
            real = n.real;
            key = ek ∙ n.key;
            value = ev ∙ n.value;
            red = ec ∙ n.red;
            parent = ep ∙ n.parent;
            left = el;
            right = eright ∙ n.right;
          },
          Stands-Same s s' p (k + 1) hi' r
              (λ x real a b.
                same x real (inr (omega arith)) (other_key s x p (omega (arith, n.key))))
              hr,
          Holds-Same s s' lo hi' C p er
              (λ x real out.
                same x real (ground (arith, out)) (other_key s x p (ground (arith, out, n.key))))
              hC,
        ),
      )
  Holds-Relinks s s' lo hi (in_right l p k v c C) q q' (e, high, (lo', low, n, hl, hC))
        (er, ek, ev, ec, ep, el, eright) same =
      (
        e,
        high,
        (
          lo',
          low,
          record {
            real = n.real;
            key = ek ∙ n.key;
            value = ev ∙ n.value;
            red = ec ∙ n.red;
            parent = ep ∙ n.parent;
            left = el ∙ n.left;
            right = eright;
          },
          Stands-Same s s' p lo' k l
              (λ x real a b.
                same x real (inl (omega arith)) (other_key s x p (omega (arith, n.key))))
              hl,
          Holds-Same s s' lo' hi C p er
              (λ x real out.
                same x real (ground (arith, out)) (other_key s x p (ground (arith, out, n.key))))
              hC,
        ),
      )

  -- An address with a key outside a range is not the root of a subtree with keys in it.
  pub not_pointer :
      (s : Store A) (par lo hi : ℕ) (t : Tree A) (x : ℕ)
      → Stands s par lo hi t
      → x ≢ 0
      → (s.key x < lo) ⊎ (hi ≤ s.key x)
      → x ≢ pointer t
  not_pointer s par lo hi t x h real out e = go (pointer_in s par lo hi t h)
    where
      go : (pointer t ≡ 0) ⊎ ((lo ≤ s.key (pointer t)) × (s.key (pointer t) < hi)) → ⊥
      go (inl z) = real (e ∙ z)
      go (inr (a, b)) = ground (arith, ap s.key e, out, a, b)

  -- Nor is it what is above one with its key in the range.
  pub not_above :
      (s : Store A) (lo hi : ℕ) (C : Above A) (q x : ℕ)
      → Holds s lo hi C q
      → x ≢ 0
      → lo ≤ s.key x
      → s.key x < hi
      → x ≢ above C
  not_above s lo hi C q x h real low high e = go (above_out s lo hi C q h)
    where
      go : (above C ≡ 0) ⊎ ((s.key (above C) < lo) ⊎ (hi ≤ s.key (above C))) → ⊥
      go (inl z) = real (e ∙ z)
      go (inr out) = ground (arith, ap s.key e, out, low, high)

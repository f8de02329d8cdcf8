-- ===== src/Mem/PhTree/Get.antt =====
-- `get_page` takes one free page, and fails on a full tree only.
use os_projet.Common.{
  ℕ, zero, suc, ◌+◌, ◌-◌, ◌*◌, ◌≤◌, ◌<◌, ◌≡◌, refl, ap, Bool, true, false, List, [], ◌∷◌,
  if◌then◌else◌, ◌==◌, get_or, length, none, some, arith, Option, Bool-cases, inl, inr,
}
use os_projet.Mem.PhTree.{
  Tree, leaf, node, phalloc_null, all_set, isfull, take_clear, get_page_leaf, get_page,
}
use os_projet.Mem.PhTree.View.{
  pages, used, IsCoherent, refresh-IsCoherent, child_size-pages, pages_bound,
}

-- The answer r of `get_page` on t is the page number k: it was free, and nothing else changed.
pub record Gets {d : ℕ} (t : Tree d) (r : ℕ × Tree d) (k : ℕ) : Type 0 where
  pub address : r.0 ≡ k * 4096
  pub inside : k < pages d
  pub was_free : used t k ≡ false
  pub coherent : IsCoherent r.1
  pub now_used : (j : ℕ) → used r.1 j ≡ (if j == k then true else used t j)

-- What the loop of a leaf returns.
abbrev Clears : List Bool → Option (ℕ × List Bool) → Type 0
Clears bs none = ⊥
Clears bs (some (k, rest)) =
    (k < length bs)
    × (get_or bs k true ≡ false)
    × (length rest ≡ length bs)
    × ((j : ℕ) → get_or rest j true ≡ (if j == k then true else get_or bs j true))

-- One full bit further up.
abbrev above : Option (ℕ × List Bool) → Option (ℕ × List Bool)
above r = elim r [ none ↦ none | some (j, rest) ↦ some (suc j, true ∷ rest) ]

Clears-above :
    (bs : List Bool) (r : Option (ℕ × List Bool)) → Clears bs r → Clears (true ∷ bs) (above r)
Clears-above bs none c = c
Clears-above bs (some (k, rest)) (h, f, l, u) = (omega arith, f, ap suc l, go)
  where
    go :
        (j : ℕ)
        → get_or (true ∷ rest) j true ≡ (if j == suc k then true else get_or (true ∷ bs) j true)
    go zero = ground arith
    go (suc j) = ground (arith, u j)

first_bit :
    (bs : List Bool) (j : ℕ)
    → get_or (true ∷ bs) j true ≡ (if j == 0 then true else get_or (false ∷ bs) j true)
first_bit bs zero = refl
first_bit bs (suc j) = ground arith

take_clear-Clears : (bs : List Bool) → all_set bs ≡ false → Clears bs (take_clear bs)
unfolding take_clear all_set
take_clear-Clears [] h = cc
take_clear-Clears (false ∷ bs) h = (omega arith, refl, refl, first_bit bs)
take_clear-Clears (true ∷ bs) h = Clears-above bs (take_clear bs) (take_clear-Clears bs h)

-- The leaf.
get_page_leaf-Gets :
    (bs : List Bool)
    → length bs ≡ 64
    → all_set bs ≡ false
    → (k : ℕ) × Gets (leaf bs) (get_page_leaf bs) k
unfolding get_page_leaf used pages
get_page_leaf-Gets bs l h = rw (h, get_page_leaf) (go (take_clear bs) (take_clear-Clears bs h))
  where
    go :
        (r : Option (ℕ × List Bool))
        → Clears bs r
        → (k : ℕ) × Gets
            (leaf bs)
            (elim r [ none ↦ (phalloc_null, leaf bs) | some (j, rest) ↦ (j * 4096, leaf rest) ])
            k
    go none c = absurd c
    go (some (k, rest)) (h, f, e, u) = (
      k,
      record {
        address = refl;
        inside = omega arith;
        was_free = f;
        coherent = omega arith;
        now_used = u;
      },
    )

get_page_full : {d : ℕ} (t : Tree d) → isfull t ≡ true → get_page t ≡ (phalloc_null, t)
unfolding get_page isfull
get_page_full (leaf bits) h = ground arith
get_page_full (node f a b c e) h = ground arith

null_apart : (d k : ℕ) → d ≤ 7 → k < pages d → (k * 4096 == phalloc_null) ≡ false
unfolding phalloc_null
null_apart d k hd hk = ground (arith, pages_bound d hd)

module _ {d : ℕ} (a b c e : Tree d) (hd : d < 7) where
  abbrev Coherents : Type 0
  Coherents = IsCoherent a × IsCoherent b × IsCoherent c × IsCoherent e

  abbrev NodeGets : Type 0
  NodeGets = (k : ℕ) × Gets (node true a b c e) (get_page (node true a b c e)) k

  get_page_first : Coherents → (k : ℕ) × Gets a (get_page a) k → NodeGets
  unfolding get_page used pages
  get_page_first h (k, g) = (
    k,
    record {
      address = ground (arith, null_apart d k);
      inside = omega (arith, g.inside);
      was_free = ground arith;
      coherent = ground (arith, null_apart d k, refresh-IsCoherent (get_page a).1 b c e);
      now_used = λ j. ground (arith, null_apart d k, g.now_used j);
    },
  )

  get_page_second :
      Coherents → get_page a ≡ (phalloc_null, a) → (k : ℕ) × Gets b (get_page b) k → NodeGets
  unfolding get_page used pages
  get_page_second h ea (k, g) = (
    pages d + k,
    record {
      address = ground (arith, null_apart d k, child_size-pages d, pages_bound d);
      inside = omega (arith, g.inside);
      was_free = ground arith;
      coherent = ground (arith, null_apart d k, refresh-IsCoherent a (get_page b).1 c e);
      now_used = λ j. ground (arith, null_apart d k, g.now_used (j - pages d), g.inside);
    },
  )

  get_page_third :
      Coherents
      → get_page a ≡ (phalloc_null, a)
      → get_page b ≡ (phalloc_null, b)
      → (k : ℕ) × Gets c (get_page c) k
      → NodeGets
  unfolding get_page used pages
  get_page_third h ea eb (k, g) = (
    2 * pages d + k,
    record {
      address = ground (arith, null_apart d k, child_size-pages d, pages_bound d);
      inside = omega (arith, g.inside);
      was_free = ground arith;
      coherent = ground (arith, null_apart d k, refresh-IsCoherent a b (get_page c).1 e);
      now_used = λ j. ground (arith, null_apart d k, g.now_used (j - 2 * pages d), g.inside);
    },
  )

  get_page_fourth :
      Coherents
      → get_page a ≡ (phalloc_null, a)
      → get_page b ≡ (phalloc_null, b)
      → get_page c ≡ (phalloc_null, c)
      → (k : ℕ) × Gets e (get_page e) k
      → NodeGets
  unfolding get_page used pages
  get_page_fourth h ea eb ec (k, g) = (
    3 * pages d + k,
    record {
      address = ground (arith, null_apart d k, child_size-pages d, pages_bound d);
      inside = omega (arith, g.inside);
      was_free = ground arith;
      coherent = ground (arith, null_apart d k, refresh-IsCoherent a b c (get_page e).1);
      now_used = λ j. ground (arith, null_apart d k, g.now_used (j - 3 * pages d), g.inside);
    },
  )

get_page_root :
    (bs : List Bool)
    → (k : ℕ) × Gets (leaf bs) (get_page_leaf bs) k
    → (k : ℕ) × Gets (leaf bs) (get_page (leaf bs)) k
unfolding get_page
get_page_root bs g = g

-- In a tree of a depth up to 7 (the template's 10) whose flags are right and that is not full, `get_page`
-- returns the address of a page that was free; that page is then in use, every other page is as before,
-- and the flags stay right.
pub get_page-Gets :
    {d : ℕ} (t : Tree d) → d ≤ 7 → IsCoherent t → isfull t ≡ false → (k : ℕ) × Gets t (get_page t) k
unfolding isfull
get_page-Gets (leaf bits) hd l h = get_page_root bits (get_page_leaf-Gets bits l h)
get_page-Gets {d = suc d} (node true a b c e) hd (q, ha, hb, hc, he) h =
    let hs : Coherents a b c e hd = (ha, hb, hc, he) in
    let deep : d ≤ 7 = omega arith in
    elim (Bool-cases (isfull a)) [
      | inr fa ↦ get_page_first a b c e hd hs (get_page-Gets a deep ha fa)
      | inl fa ↦ elim (Bool-cases (isfull b)) [
        | inr fb ↦ get_page_second a b c e hd hs (get_page_full a fa) (get_page-Gets b deep hb fb)
        | inl fb ↦ elim (Bool-cases (isfull c)) [
          | inr fc ↦
              get_page_third a b c e hd hs (get_page_full a fa) (get_page_full b fb)
                (get_page-Gets c deep hc fc)
          | inl fc ↦
              get_page_fourth a b c e hd hs (get_page_full a fa) (get_page_full b fb)
                (get_page_full c fc) (get_page-Gets e deep he (ground arith))
        ]
      ]
    ]
get_page-Gets (node false a b c e) hd q h = cc

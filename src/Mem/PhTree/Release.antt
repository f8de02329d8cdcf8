-- ===== src/Mem/PhTree/Release.antt =====
-- `release_page` frees one page, and `mark_used` takes a range of them.
use os_projet.Common.{
  ℕ, zero, suc, ◌+◌, ◌-◌, ◌*◌, ◌/◌, ◌≤◌, ◌<◌, ◌≡◌, refl, ap, ◌∙◌, Bool, true, false, List, [], ◌∷◌,
  if◌then◌else◌, ◌==◌, get_or, length, length-set, get_or-set, arith,
}
use native.Mathlib.Decide.{dec_lt}
use os_projet.Mem.PhTree.{Tree, leaf, node, child_size, all_set, isfull, release_page}
use os_projet.Mem.PhTree.View.{pages, used, IsCoherent, child_size-pages}

all_set-get_or : (bs : List Bool) (k : ℕ) → all_set bs ≡ true → get_or bs k true ≡ true
unfolding all_set
all_set-get_or [] k h = refl
all_set-get_or (b ∷ bs) zero h = ground arith
all_set-get_or (b ∷ bs) (suc k) h = all_set-get_or bs k (ground arith)

-- In a full tree every page is in use.
pub used_of_full : {d : ℕ} (t : Tree d) (k : ℕ) → IsCoherent t → isfull t ≡ true → used t k ≡ true
unfolding used isfull
used_of_full (leaf bits) k q h = all_set-get_or bits k h
used_of_full (node {d = d} f a b c e) k (q, ha, hb, hc, he) h = ground (
  arith,
  q,
  used_of_full a k ha,
  used_of_full b (k - pages d) hb,
  used_of_full c (k - 2 * pages d) hc,
  used_of_full e (k - 3 * pages d) he,
)

pub isfull_of_free :
    {d : ℕ} (t : Tree d) (k : ℕ) → IsCoherent t → used t k ≡ false → isfull t ≡ false
isfull_of_free t k q h = ground (arith, used_of_full t k q)

-- Number of the child that an address falls into.
child_of :
    (d q : ℕ) (p : ℕ) → q * child_size d ≤ p → p < (q + 1) * child_size d → p / child_size d ≡ q
child_of d q p h k = grind arith

page_of_child :
    (d q p : ℕ) → q * child_size d ≤ p → (p - q * child_size d) / 4096 ≡ p / 4096 - q * pages d
page_of_child d q p h =
    omega (arith, child_size-pages d, ap (λ (t : ℕ). q * t) (child_size-pages d))

pub record Releases {d : ℕ} (t : Tree d) (r : Tree d) (k : ℕ) : Type 0 where
  pub coherent : IsCoherent r
  pub now_used : (j : ℕ) → used r j ≡ (if j == k then false else used t j)

module _ {d : ℕ} (f : Bool) (a b c e : Tree d) (p : ℕ) (h : IsCoherent (node f a b c e)) where
  abbrev NodeReleases : Type 0
  NodeReleases = Releases (node f a b c e) (release_page p (node f a b c e)) (p / 4096)

  release_first : p < child_size d → Releases a (release_page p a) (p / 4096) → NodeReleases
  unfolding release_page isfull
  release_first hp g =
      let k : p / child_size d ≡ 0 = child_of d 0 p (omega arith) (omega arith) in
      let m : (p) / 4096 ≡ p / 4096 - 0 * pages d =
        omega (arith, page_of_child d 0 p (omega arith)) in
      let free : isfull (release_page p a) ≡ false =
        isfull_of_free (release_page p a) (p / 4096) g.coherent
          (ground (arith, g.now_used (p / 4096))) in
      record {
        coherent = ground (arith, h.0);
        now_used = λ j. unfold used in ground (arith, g.now_used j, child_size-pages d);
      }

  release_second :
      child_size d ≤ p
      → p < 2 * child_size d
      → Releases b (release_page (p - child_size d) b) ((p - child_size d) / 4096)
      → NodeReleases
  unfolding release_page isfull
  release_second lo hp g =
      let k : p / child_size d ≡ 1 = child_of d 1 p (omega arith) (omega arith) in
      let m : (p - child_size d) / 4096 ≡ p / 4096 - 1 * pages d =
        omega (arith, page_of_child d 1 p (omega arith)) in
      let free : isfull (release_page (p - child_size d) b) ≡ false =
        isfull_of_free (release_page (p - child_size d) b) ((p - child_size d) / 4096) g.coherent
          (ground (arith, g.now_used ((p - child_size d) / 4096))) in
      record {
        coherent = ground (arith, h.0);
        now_used = λ j. unfold used in ground (arith, g.now_used (j - pages d), child_size-pages d);
      }

  release_third :
      2 * child_size d ≤ p
      → p < 3 * child_size d
      → Releases c (release_page (p - 2 * child_size d) c) ((p - 2 * child_size d) / 4096)
      → NodeReleases
  unfolding release_page isfull
  release_third lo hp g =
      let k : p / child_size d ≡ 2 = child_of d 2 p (omega arith) (omega arith) in
      let m : (p - 2 * child_size d) / 4096 ≡ p / 4096 - 2 * pages d =
        omega (arith, page_of_child d 2 p (omega arith)) in
      let free : isfull (release_page (p - 2 * child_size d) c) ≡ false =
        isfull_of_free (release_page (p - 2 * child_size d) c) ((p - 2 * child_size d) / 4096)
          g.coherent (ground (arith, g.now_used ((p - 2 * child_size d) / 4096))) in
      record {
        coherent = ground (arith, h.0);
        now_used =
            λ j. unfold used in ground (arith, g.now_used (j - 2 * pages d), child_size-pages d);
      }

  release_fourth :
      3 * child_size d ≤ p
      → p < 4 * child_size d
      → Releases e (release_page (p - 3 * child_size d) e) ((p - 3 * child_size d) / 4096)
      → NodeReleases
  unfolding release_page isfull
  release_fourth lo hp g =
      let k : p / child_size d ≡ 3 = child_of d 3 p (omega arith) (omega arith) in
      let m : (p - 3 * child_size d) / 4096 ≡ p / 4096 - 3 * pages d =
        omega (arith, page_of_child d 3 p (omega arith)) in
      let free : isfull (release_page (p - 3 * child_size d) e) ≡ false =
        isfull_of_free (release_page (p - 3 * child_size d) e) ((p - 3 * child_size d) / 4096)
          g.coherent (ground (arith, g.now_used ((p - 3 * child_size d) / 4096))) in
      record {
        coherent = ground (arith, h.0);
        now_used =
            λ j. unfold used in ground (arith, g.now_used (j - 3 * pages d), child_size-pages d);
      }

release_leaf :
    (p : ℕ) (bits : List Bool)
    → length bits ≡ 64
    → p / 4096 < 64
    → Releases (leaf bits) (release_page p (leaf bits)) (p / 4096)
unfolding release_page used
release_leaf p bits l h = record {
  coherent = length-set bits (p / 4096) false ∙ l;
  now_used = λ j. ground (arith, get_or-set bits (p / 4096) j false true);
}

-- Where the flags are right, releasing an address that the tree covers frees its page and no other, and
-- keeps the flags right.
pub release_page-Releases :
    {d : ℕ} (p : ℕ) (t : Tree d)
    → IsCoherent t
    → p / 4096 < pages d
    → Releases t (release_page p t) (p / 4096)
unfolding pages
release_page-Releases p (leaf bits) l h = release_leaf p bits l h
release_page-Releases {d = suc d} p (node f a b c e) (q, ha, hb, hc, he) h =
    let hs : IsCoherent (node f a b c e) = (q, ha, hb, hc, he) in
    let s : ℕ = child_size d in
    elim (dec_lt p s) [
      | yes p0 ↦
          release_first f a b c e p hs p0
            (release_page-Releases p a ha (omega (arith, child_size-pages d)))
      | no n0 ↦ elim (dec_lt p (2 * s)) [
        | yes p1 ↦
            release_second f a b c e p hs (omega arith) p1
              (release_page-Releases (p - s) b hb (omega (arith, child_size-pages d)))
        | no n1 ↦ elim (dec_lt p (3 * s)) [
          | yes p2 ↦
              release_third f a b c e p hs (omega arith) p2
                (release_page-Releases (p - 2 * s) c hc (omega (arith, child_size-pages d)))
          | no n2 ↦
              release_fourth f a b c e p hs (omega arith) (omega (arith, child_size-pages d))
                (release_page-Releases (p - 3 * s) e he (omega (arith, child_size-pages d)))
        ]
      ]
    ]

-- ===== src/Mem/PhTree/Mark.antt =====
-- `mark_used` takes every page that a range of addresses touches.
use native.Mathlib.Decide.{dec_lt}
use os_projet.Common.{
  ℕ, zero, suc, ◌+◌, ◌-◌, ◌*◌, ◌/◌, ◌≤◌, ◌<◌, ◌≡◌, refl, ◌∙◌, Bool, true, ◌&&◌, List, if◌then◌else◌,
  ltb, leb, get_or, set, length, length-set, get_or-set, none, some, arith, Option,
}
use os_projet.Mem.PhTree.{
  Tree, leaf, node, child_size, refresh, mark_used, mark_used_leaf, set_bits, child_span,
}
use os_projet.Mem.PhTree.Span.{
  div_le, within, CoversAt, child_zero, child_one, child_two, child_three,
}
use os_projet.Mem.PhTree.View.{
  pages, used, IsCoherent, refresh-IsCoherent, child_size-pages, pages_pos,
}

length-set_bits : (n i : ℕ) (bits : List Bool) → length (set_bits n i bits) ≡ length bits
unfolding set_bits
length-set_bits zero i bits = refl
length-set_bits (suc n) i bits =
    length-set_bits n (suc i) (set bits i true) ∙ length-set bits i true

-- The loop sets bits i to i + n - 1.
get_or-set_bits :
    (n i j : ℕ) (bits : List Bool)
    → i + n ≤ length bits
    → get_or (set_bits n i bits) j true
      ≡ (if leb i j && ltb j (i + n) then true else get_or bits j true)
unfolding set_bits
get_or-set_bits zero i j bits h = ground arith
get_or-set_bits (suc n) i j bits h = ground (
  arith,
  get_or-set_bits n (suc i) j (set bits i true),
  length-set bits i true,
  get_or-set bits i j true true,
)

pub record Marks {d : ℕ} (t : Tree d) (r : Tree d) (lo hi : ℕ) : Type 0 where
  pub coherent : IsCoherent r
  pub now_used : (j : ℕ) → j < pages d → used r j ≡ (if within lo hi j then true else used t j)

mark_leaf :
    (p_beg p_end : ℕ) (bits : List Bool)
    → length bits ≡ 64
    → p_beg ≤ p_end
    → Marks (leaf bits) (mark_used p_beg p_end (leaf bits)) (p_beg / 4096) (p_end / 4096)
unfolding mark_used mark_used_leaf used pages
mark_leaf p_beg p_end bits l h = record {
  coherent = ground (
    arith,
    length-set_bits ((if leb 64 (p_end / 4096) then 63 else p_end / 4096) + 1 - p_beg / 4096)
        (p_beg / 4096) bits,
  );
  now_used = λ j hj. ground (
    arith,
    get_or-set_bits ((if leb 64 (p_end / 4096) then 63 else p_end / 4096) + 1 - p_beg / 4096)
        (p_beg / 4096) j bits,
  );
}

abbrev mark_child : {d : ℕ} → Option (ℕ × ℕ) → Tree d → Tree d
mark_child o t = elim o [ none ↦ t | some (lo, hi) ↦ mark_used lo hi t ]

module _ {d : ℕ} (t : Tree d) (q : IsCoherent t)
    (ih : (l h : ℕ) → l ≤ h → Marks t (mark_used l h t) (l / 4096) (h / 4096)) where
  mark_child-used :
      (inside : Bool) (j : ℕ) (o : Option (ℕ × ℕ))
      → CoversAt inside j o
      → j < pages d
      → used (mark_child o t) j ≡ (if inside then true else used t j)
  mark_child-used inside j none c hj = ground arith
  mark_child-used inside j (some (l, h)) (le, e) hj = ground (arith, (ih l h le).now_used j hj)

  mark_child-IsCoherent :
      (inside : Bool) (j : ℕ) (o : Option (ℕ × ℕ))
      → CoversAt inside j o
      → IsCoherent (mark_child o t)
  mark_child-IsCoherent inside j none c = q
  mark_child-IsCoherent inside j (some (l, h)) (le, e) = (ih l h le).coherent

-- What a child promises its parent.
abbrev Keeps : {d : ℕ} → Tree d → Type 0
Keeps t = (l h : ℕ) → l ≤ h → Marks t (mark_used l h t) (l / 4096) (h / 4096)

module _ {d : ℕ} (f : Bool) (a b c e : Tree d) (p_beg p_end : ℕ) (h : p_beg ≤ p_end) where
  abbrev NodeMarks : Type 0
  NodeMarks =
      Marks (node f a b c e) (mark_used p_beg p_end (node f a b c e)) (p_beg / 4096) (p_end / 4096)

  -- The call on child i, over child's page j.
  abbrev Covers : ℕ → ℕ → Type 0
  Covers i j =
      CoversAt (within (p_beg / 4096) (p_end / 4096) (i * pages d + j)) j
        (child_span (child_size d) p_beg p_end i)

  mark_beyond : IsCoherent (node f a b c e) → 4 ≤ p_beg / child_size d → NodeMarks
  unfolding mark_used pages
  mark_beyond q r = record {
    coherent = ground (arith, q);
    now_used =
        λ j hj. ground (arith, child_size-pages d, pages_pos d, div_le (child_size d) p_beg 4);
  }

  abbrev o : ℕ → Option (ℕ × ℕ)
  o i = child_span (child_size d) p_beg p_end i

  abbrev inside : ℕ → ℕ → Bool
  inside i j = within (p_beg / 4096) (p_end / 4096) (i * pages d + j)

  abbrev marked : Tree (suc d)
  marked =
      refresh (mark_child (o 0) a) (mark_child (o 1) b) (mark_child (o 2) c) (mark_child (o 3) e)

  mark_near : p_beg / child_size d < 4 → mark_used p_beg p_end (node f a b c e) ≡ marked
  unfolding mark_used
  mark_near r = ground (arith, r)

  mark_node-used :
      IsCoherent a × IsCoherent b × IsCoherent c × IsCoherent e
      → Keeps a × Keeps b × Keeps c × Keeps e
      → ((j : ℕ) → j < pages d → Covers 0 j × Covers 1 j × Covers 2 j × Covers 3 j)
      → (j : ℕ) → j < 4 * pages d
      → used marked j
        ≡ (if within (p_beg / 4096) (p_end / 4096) j then true else used (node f a b c e) j)
  unfolding used refresh
  mark_node-used q ih cov j hj =
      let n : ℕ = pages d in
      elim (dec_lt j n) [
        | yes j0 ↦ ground (arith, mark_child-used a q.0 ih.0 (inside 0 j) j (o 0) (cov j j0).0 j0)
        | no n0 ↦ elim (dec_lt j (2 * n)) [
          | yes j1 ↦
              let k : j - n < n = omega arith in
              ground (
                arith,
                mark_child-used b q.1 ih.1 (inside 1 (j - n)) (j - n) (o 1) (cov (j - n) k).1 k,
              )
          | no n1 ↦ elim (dec_lt j (3 * n)) [
            | yes j2 ↦
                let k : j - 2 * n < n = omega arith in
                ground (
                  arith,
                  mark_child-used c q.2 ih.2 (inside 2 (j - 2 * n)) (j - 2 * n) (o 2)
                      (cov (j - 2 * n) k).2 k,
                )
            | no n2 ↦
                let k : j - 3 * n < n = omega arith in
                ground (
                  arith,
                  mark_child-used e q.3 ih.3 (inside 3 (j - 3 * n)) (j - 3 * n) (o 3)
                      (cov (j - 3 * n) k).3 k,
                )
          ]
        ]
      ]

  mark_node :
      p_beg / child_size d < 4
      → IsCoherent a × IsCoherent b × IsCoherent c × IsCoherent e
      → Keeps a × Keeps b × Keeps c × Keeps e
      → ((j : ℕ) → j < pages d → Covers 0 j × Covers 1 j × Covers 2 j × Covers 3 j)
      → NodeMarks
  unfolding pages
  mark_node r q ih cov =
      let z = cov 0 (pages_pos d) in
      rw (mark_near r) record {
        coherent =
            refresh-IsCoherent (mark_child (o 0) a) (mark_child (o 1) b) (mark_child (o 2) c)
              (mark_child (o 3) e) (mark_child-IsCoherent a q.0 ih.0 (inside 0 0) 0 (o 0) z.0)
              (mark_child-IsCoherent b q.1 ih.1 (inside 1 0) 0 (o 1) z.1)
              (mark_child-IsCoherent c q.2 ih.2 (inside 2 0) 0 (o 2) z.2)
              (mark_child-IsCoherent e q.3 ih.3 (inside 3 0) 0 (o 3) z.3);
        now_used = λ j hj. mark_node-used q ih cov j hj;
      }

node_covers :
    (d p_beg p_end : ℕ)
    → p_beg ≤ p_end
    → p_beg / child_size d < 4
    → (j : ℕ) → j < pages d
    → let o = λ (i : ℕ).
      CoversAt
        (within (p_beg / 4096) (p_end / 4096) (i * pages d + j))
        j
        (child_span (child_size d) p_beg p_end i) in
      o 0 × o 1 × o 2 × o 3
node_covers d p_beg p_end h r j hj =
    let n : ℕ = pages d in
    let near : p_beg / (4096 * pages d) < 4 = rw (child_size-pages d) at r in
    rw (child_size-pages d) (
      child_zero n p_beg p_end j (pages_pos d) h hj,
      child_one n p_beg p_end j (pages_pos d) h hj,
      child_two n p_beg p_end j (pages_pos d) h hj,
      child_three n p_beg p_end j (pages_pos d) h hj near,
    )

-- Where the flags of free pages are right and the first address is not after the second, `mark_used`
-- takes exactly the pages from that of the first to that of the second address, cut at the end of the
-- tree, leaves every other page as it was, and keeps the flags right.
pub mark_used-Marks :
    {d : ℕ} (p_beg p_end : ℕ) (t : Tree d)
    → IsCoherent t
    → p_beg ≤ p_end
    → Marks t (mark_used p_beg p_end t) (p_beg / 4096) (p_end / 4096)
mark_used-Marks p_beg p_end (leaf bits) l h = mark_leaf p_beg p_end bits l h
mark_used-Marks {d = suc d} p_beg p_end (node f a b c e) (q, ha, hb, hc, he) h =
    let s : ℕ = child_size d in
    elim (dec_lt (p_beg / s) 4) [
      | no far ↦ mark_beyond f a b c e p_beg p_end h (q, ha, hb, hc, he) (omega arith)
      | yes near ↦
          mark_node f a b c e p_beg p_end h near (ha, hb, hc, he)
            (
              λ l u k. mark_used-Marks l u a ha k,
              λ l u k. mark_used-Marks l u b hb k,
              λ l u k. mark_used-Marks l u c hc k,
              λ l u k. mark_used-Marks l u e he k,
            )
            (node_covers d p_beg p_end h near)
    ]

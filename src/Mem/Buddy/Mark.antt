-- ===== src/Mem/Buddy/Mark.antt =====
-- `mark_used` of the buddy allocator takes every page that its range meets.
use native.Mathlib.Decide.{dec_lt}
use os_projet.Common.{
  ℕ, zero, suc, ◌+◌, ◌-◌, ◌^◌, ◌≤◌, ◌<◌, max, ◌≡◌, refl, true, ◌||◌, if◌then◌else◌, ltb, ◌==◌,
  arith, ◌⊎◌, inl, inr, ◌≢◌,
}
use os_projet.Mem.Buddy.{Buddy, wrap, leaf, node, total_size, rank, push_free, mark_used}
use os_projet.Mem.Buddy.View.{
  pages, total_size-pages, total_size-suc, total_size_bound, total_size_pos, taken, hits, IsExact,
  rank_le, taken_full, push_free-IsExact, taken-push_free,
}

pub record Takes {d : ℕ} (t : Buddy d) (r : Buddy d) (addr size : ℕ) : Type 0 where
  pub exact : IsExact r
  pub now_taken : (k : ℕ) → k < pages d → taken r k ≡ (hits addr size k || taken t k)

-- Two halves joined under the better of their ranks read as the halves.
abbrev join : {d : ℕ} → Buddy d → Buddy d → Buddy (suc d)
join a b = node (max (rank a) (rank b)) a b

join-IsExact : {d : ℕ} (a b : Buddy d) → IsExact a → IsExact b → IsExact (join a b)
join-IsExact a b ha hb = (omega (arith, rank_le a ha, rank_le b hb), inr (inr refl), ha, hb)

taken-join :
    {d : ℕ} (a b : Buddy d) (k : ℕ)
    → IsExact a
    → IsExact b
    → taken (join a b) k ≡ (if ltb k (pages d) then taken a k else taken b (k - pages d))
unfolding taken
taken-join {d} a b k ha hb =
    ground (arith, rank_le a ha, rank_le b hb, taken_full a k, taken_full b (k - pages d))

-- What a node reads like, in terms of the halves it hands its state to.
taken-node :
    {d : ℕ} (r : ℕ) (a b : Buddy d) (k : ℕ)
    → taken (node r a b) k ≡ (
        if r == 0
        then true
        else if ltb k (pages d)
        then taken (push_free r a) k
        else taken (push_free r b) (k - pages d))
unfolding taken
taken-node {d} r a b k = ground (arith, taken-push_free r a k, taken-push_free r b (k - pages d))

mark_used-leaf :
    (addr size r : ℕ) → r ≤ 1 → Takes (leaf r) (mark_used 0 addr size (leaf r)) addr size
unfolding mark_used taken pages total_size
mark_used-leaf addr size r h = record { exact = ground arith; now_taken = λ k hk. ground arith }

-- `size - mid_point + addr`, where the range goes past the middle.
pub wrapped_end :
    (mid size addr : ℕ)
    → addr + size < 2 ^ 64
    → mid < addr + size
    → mid ≤ 2 ^ 30
    → wrap (size + (2 ^ 64 - mid) + addr) ≡ size + addr - mid
wrapped_end mid size addr f g h = omega arith

module _ {d : ℕ} (addr size r : ℕ) (a b : Buddy d) (h : IsExact (node r a b)) (deep : d < 18)
    (fits : addr + size < 2 ^ 64) where
  abbrev a0 : Buddy d
  a0 = push_free r a

  abbrev b0 : Buddy d
  b0 = push_free r b

  abbrev NodeMarks : Type 0
  NodeMarks = Takes (node r a b) (mark_used (suc d) addr size (node r a b)) addr size

  mark_node_whole : (r ≡ 0) ⊎ ((size ≡ 0) ⊎ ((addr ≡ 0) × (total_size (suc d) ≤ size))) → NodeMarks
  unfolding mark_used pages taken
  mark_node_whole c = record {
    exact = ground (arith, h);
    now_taken = λ k hk. ground (arith, total_size-pages d, total_size-suc d);
  }

  -- The two halves after the calls on them, joined.
  joined :
      (x y : Buddy d)
      → r ≢ 0
      → IsExact x
      → IsExact y
      → ((k : ℕ) → k < pages d → taken x k ≡ (hits addr size k || taken a0 k))
      → ((k : ℕ) → k < pages d → taken y k ≡ (hits addr size (k + pages d) || taken b0 k))
      → Takes (node r a b) (join x y) addr size
  unfolding pages
  joined x y c hx hy tx ty = record {
    exact = join-IsExact x y hx hy;
    now_taken = λ k hk. elim (dec_lt k (pages d)) [
      | yes low ↦ ground (arith, taken-join x y k hx hy, taken-node r a b k, tx k low)
      | no high ↦
          let m : k - pages d < pages d = omega arith in
          let e : k - pages d + pages d ≡ k = omega arith in
          ground (arith, taken-join x y k hx hy, taken-node r a b k, ty (k - pages d) m, e)
    ];
  }

  abbrev Splits : Type 0
  Splits = (r ≢ 0) × (0 < size) × ((addr ≢ 0) ⊎ (size < total_size (suc d)))

  abbrev Whole : Type 0
  Whole = (r ≡ 0) ⊎ ((size ≡ 0) ⊎ ((addr ≡ 0) × (total_size (suc d) ≤ size)))

  whole_or_split : Whole ⊎ Splits
  whole_or_split = elim (dec_lt 0 r) [
    | no z ↦ inl (inl (omega arith))
    | yes some_free ↦ elim (dec_lt 0 size) [
      | no z ↦ inl (inr (inl (omega arith)))
      | yes some_size ↦ elim (dec_lt 0 addr) [
        | yes inner ↦ inr (omega arith, some_size, inl (omega arith))
        | no z ↦ elim (dec_lt size (total_size (suc d))) [
          | yes part ↦ inr (omega arith, some_size, inr part)
          | no all ↦ inl (inr (inr (omega arith, omega arith)))
        ]
      ]
    ]
  ]

  ea : IsExact a0
  ea = push_free-IsExact r a h.2

  eb : IsExact b0
  eb = push_free-IsExact r b h.3

  mark_node_right :
      Splits
      → total_size d ≤ addr
      → Takes b0 (mark_used d (addr - total_size d) size b0) (addr - total_size d) size
      → NodeMarks
  mark_node_right c f g =
      let e : mark_used (suc d) addr size (node r a b)
          ≡ join a0 (mark_used d (addr - total_size d) size b0) =
        unfold mark_used in ground (arith, total_size_pos d) in
      rw e (
        joined a0 (mark_used d (addr - total_size d) size b0) c.0 ea g.exact
          (λ k hk. ground (arith, total_size-pages d))
          (λ k hk. ground (arith, g.now_taken k hk, total_size-pages d)))

  mark_node_left :
      Splits
      → addr + size ≤ total_size d
      → Takes a0 (mark_used d addr size a0) addr size
      → NodeMarks
  mark_node_left c f g =
      let e : mark_used (suc d) addr size (node r a b) ≡ join (mark_used d addr size a0) b0 =
        unfold mark_used in ground (arith, total_size_pos d) in
      rw e (
        joined (mark_used d addr size a0) b0 c.0 g.exact eb (λ k hk. g.now_taken k hk)
          (λ k hk. ground (arith, total_size-pages d)))

  mark_node_both :
      Splits
      → addr < total_size d
      → total_size d < addr + size
      → Takes a0 (mark_used d addr (total_size d - addr) a0) addr (total_size d - addr)
      → Takes b0 (mark_used d 0 (size + addr - total_size d) b0) 0 (size + addr - total_size d)
      → NodeMarks
  mark_node_both c f f' g g' =
      let e : mark_used (suc d) addr size (node r a b)
          ≡ join (mark_used d addr (total_size d - addr) a0)
              (mark_used d 0 (size + addr - total_size d) b0) =
        unfold mark_used in
        ground (arith, total_size_bound d (omega arith), wrapped_end (total_size d) size addr) in
      rw e (
        joined (mark_used d addr (total_size d - addr) a0)
          (mark_used d 0 (size + addr - total_size d) b0) c.0 g.exact g'.exact
          (λ k hk. ground (arith, g.now_taken k hk, total_size-pages d))
          (λ k hk. ground (arith, g'.now_taken k hk, total_size-pages d)))

-- On a block of a depth up to 18 whose ranks are right, for a range that does not overflow, `mark_used`
-- takes every page that the range meets and no other, and keeps the ranks right.
pub mark_used-Takes :
    (d : ℕ) (addr size : ℕ) (t : Buddy d)
    → d ≤ 18
    → IsExact t
    → addr + size < 2 ^ 64
    → Takes t (mark_used d addr size t) addr size
mark_used-Takes zero addr size (leaf r) hd h f = mark_used-leaf addr size r h
mark_used-Takes (suc d) addr size (node r a b) hd h f =
    let s : ℕ = total_size d in
    let deep : d ≤ 18 = omega arith in
    elim (whole_or_split addr size r a b h hd f) [
      | inl w ↦ mark_node_whole addr size r a b h hd f w
      | inr c ↦ elim (dec_lt addr s) [
        | no far ↦ mark_node_right addr size r a b h hd f c (omega arith) (
            mark_used-Takes d (addr - s) size (push_free r b) deep (push_free-IsExact r b h.3)
              (omega arith))
        | yes near ↦ elim (dec_lt s (addr + size)) [
          | no short ↦
              mark_node_left addr size r a b h hd f c (omega arith)
                (mark_used-Takes d addr size (push_free r a) deep (push_free-IsExact r a h.2) f)
          | yes long ↦
              let small : s ≤ 2 ^ 30 = total_size_bound d deep in
              mark_node_both addr size r a b h hd f c near long
                (mark_used-Takes d addr (s - addr) (push_free r a) deep (push_free-IsExact r a h.2)
                  (omega arith))
                (mark_used-Takes d 0 (size + addr - s) (push_free r b) deep
                  (push_free-IsExact r b h.3) (omega arith))
        ]
      ]
    ]

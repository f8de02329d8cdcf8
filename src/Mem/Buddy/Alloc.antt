-- ===== src/Mem/Buddy/Alloc.antt =====
-- `get_range` finds free pages where the rank promises them, and `mmap` takes what it returns.
use native.Mathlib.Decide.{dec_lt, ℕ_discrete}
use native.Mathlib.Nat.{pow-le-pow_right}
use os_projet.Common.{
  ℕ, zero, suc, ◌+◌, ◌-◌, ◌%◌, ◌≤◌, ◌<◌, max, ◌≡◌, refl, true, false, ◌==◌, arith, inl, inr, ◌≢◌,
  Bool-cases, ap, ◌∙◌, sym,
}
use os_projet.Mem.Buddy.{
  Buddy, leaf, node, total_size, rank, set_rank, push_free, mark_used, get_range, alloc_null,
  no_room,
}
use os_projet.Mem.Buddy.View.{
  pages, total_size-pages, total_size-suc, total_size_bound, total_size_pos, taken, IsExact,
  rank_le, push_free-IsExact, taken-push_free, rank-set_rank,
}
use os_projet.Mem.Buddy.Range.{IsClear}

total_size_mono : (d e : ℕ) → d ≤ e → total_size d ≤ total_size e
unfolding total_size
total_size_mono d e h =
    pow-le-pow_right {n = 2} (omega arith) {i = d + 12} {j = e + 12} (omega arith)

pub get_range_null :
    (d size : ℕ) (t : Buddy d) → no_room (rank t) size ≡ true → get_range d size t ≡ (alloc_null, t)
unfolding get_range no_room rank
get_range_null zero size (leaf r) h = ground (arith, total_size_mono 0 (r - 1))
get_range_null (suc d) size (node r a b) h = ground arith

-- What a successful search returns. `absorbed`: what the search itself changes in the tree is done
-- again by marking the range, also when the block is first declared free.
pub record Found {d : ℕ} (t : Buddy d) (size : ℕ) (r : ℕ × Buddy d) : Type 0 where
  pub inside : r.0 + size ≤ total_size d
  pub aligned : r.0 % 4096 ≡ 0
  pub clear : IsClear t r.0 size
  pub absorbed : mark_used d r.0 size r.1 ≡ mark_used d r.0 size t
  pub reset : rank t ≡ d + 1 → mark_used d r.0 size (set_rank (d + 1) r.1) ≡ mark_used d r.0 size t

get_range-leaf :
    (size r : ℕ)
    → r ≤ 1
    → 0 < size
    → no_room r size ≡ false
    → Found (leaf r) size (get_range 0 size (leaf r))
unfolding get_range no_room taken mark_used rank set_rank
get_range-leaf size r h z n = record {
  inside = ground arith;
  aligned = ground arith;
  clear = λ k hk hit. ground arith;
  absorbed = ground arith;
  reset = λ f. ground arith;
}

set_rank_twice : {d : ℕ} (r : ℕ) (t : Buddy d) → set_rank r (set_rank r t) ≡ set_rank r t
unfolding set_rank
set_rank_twice r (leaf s) = refl
set_rank_twice r (node s a b) = refl

push_free_twice : {d : ℕ} (r : ℕ) (t : Buddy d) → push_free r (push_free r t) ≡ push_free r t
unfolding push_free
push_free_twice {d} r t = ground (arith, set_rank_twice (d + 1) t)

push_free_full : {d : ℕ} (r : ℕ) (t : Buddy d) → r ≡ suc d + 1 → push_free r t ≡ set_rank (d + 1) t
unfolding push_free
push_free_full r t h = ground arith

push_free_split : {d : ℕ} (r : ℕ) (t : Buddy d) → r ≢ suc d + 1 → push_free r t ≡ t
unfolding push_free
push_free_split r t h = ground arith

rank_full : {d : ℕ} (r : ℕ) (t : Buddy d) → r ≡ suc d + 1 → rank (push_free r t) ≡ d + 1
rank_full {d} r t h = rw (push_free_full r t h) (rank-set_rank (d + 1) t)

-- A half that was searched is marked as the half before the search.
absorbed_half :
    {d : ℕ} (r size : ℕ) (u : Buddy d) (q : ℕ × Buddy d)
    → Found u size q
    → (r ≡ suc d + 1 → rank u ≡ d + 1)
    → mark_used d q.0 size (push_free r q.1) ≡ mark_used d q.0 size u
absorbed_half {d} r size u q g f = elim (ℕ_discrete r (suc d + 1)) [
  | yes full ↦ rw (push_free_full r q.1 full) (g.reset (f full))
  | no split ↦ rw (push_free_split r q.1 split) g.absorbed
]

module _ {d : ℕ} (size r : ℕ) (a b : Buddy d) (h : IsExact (node r a b)) (z : 0 < size)
    (n : no_room r size ≡ false) where
  abbrev NodeFound : Type 0
  NodeFound = Found (node r a b) size (get_range (suc d) size (node r a b))

  whole_is_free : total_size d < size → r ≡ suc d + 1
  unfolding no_room
  whole_is_free g = ground (arith, h, rank_le a h.2, rank_le b h.3, total_size_mono (r - 1) d)

  get_whole : total_size d < size → get_range (suc d) size (node r a b) ≡ (0, node r a b)
  unfolding get_range
  get_whole g = ground arith

  found_whole : total_size d < size → NodeFound
  found_whole g =
      let full = whole_is_free g in
      let fits : size ≤ total_size (suc d) = unfold no_room in ground arith in
      rw (get_whole g) record {
        inside = omega arith;
        aligned = refl;
        clear = λ k hk hit. unfold taken in ground arith;
        absorbed = refl;
        reset = λ f. unfold set_rank in ground arith;
      }

  abbrev left : ℕ × Buddy d
  left = get_range d size (push_free r a)

  abbrev right : ℕ × Buddy d
  right = get_range d size (push_free r b)

  r_pos : r ≢ 0
  r_pos e = unfold no_room in ground arith

  -- A range in the lower half is marked there.
  mark_lower :
      (x : ℕ) (u v : Buddy d)
      → x + size ≤ total_size d
      → d ≤ 18
      → mark_used (suc d) x size (node r u v)
        ≡ node
            (max (rank (mark_used d x size (push_free r u))) (rank (push_free r v)))
            (mark_used d x size (push_free r u))
            (push_free r v)
  mark_lower x u v g deep =
      unfold mark_used in
      ground (arith, r_pos, total_size-suc d, total_size_pos d, total_size_bound d deep)

  mark_upper :
      (x : ℕ) (u v : Buddy d)
      → x + size ≤ total_size d
      → mark_used (suc d) (total_size d + x) size (node r u v)
        ≡ node
            (max (rank (push_free r u)) (rank (mark_used d x size (push_free r v))))
            (push_free r u)
            (mark_used d x size (push_free r v))
  mark_upper x u v g =
      let e : total_size d + x - total_size d ≡ x = omega arith in
      unfold mark_used in ground (arith, r_pos, total_size-suc d, total_size_pos d, e)

  reset_of :
      (x : ℕ) (u v : Buddy d) (m : Buddy (suc d))
      → r ≡ suc d + 1
      → mark_used (suc d) x size (node r u v) ≡ m
      → mark_used (suc d) x size (set_rank (suc d + 1) (node r u v)) ≡ m
  unfolding set_rank
  reset_of x u v m f e = ap (λ q. mark_used (suc d) x size (node q u v)) (sym f) ∙ e

  module _ (deep : d ≤ 18) (small : size ≤ total_size d) where
    not_null : (u : Buddy d) (q : ℕ × Buddy d) → Found u size q → (q.0 == alloc_null) ≡ false
    not_null u q g = unfold alloc_null in ground (arith, g.inside, total_size_bound d deep)

    get_lower :
        Found (push_free r a) size left
        → get_range (suc d) size (node r a b) ≡ (left.0, node r left.1 (push_free r b))
    get_lower g = unfold get_range in ground (arith, not_null (push_free r a) left g)

    found_lower : Found (push_free r a) size left → NodeFound
    found_lower g =
        let e : mark_used (suc d) left.0 size (node r left.1 (push_free r b))
            ≡ mark_used (suc d) left.0 size (node r a b) =
          rw (
            mark_lower left.0 left.1 (push_free r b) g.inside deep,
            mark_lower left.0 a b g.inside deep,
            push_free_twice r b,
            absorbed_half r size (push_free r a) left g (rank_full r a),
          ) in
        rw (get_lower g) record {
          inside = omega (arith, g.inside, total_size-suc d);
          aligned = g.aligned;
          clear = λ k hk hit.
              unfold taken in
              ground (arith, r_pos, g.clear k, taken-push_free r a k, g.inside, total_size-pages d);
          absorbed = e;
          reset = λ f. reset_of left.0 left.1 (push_free r b) _ (unfold rank in f) e;
        }

    get_upper :
        no_room (rank (push_free r a)) size ≡ true
        → Found (push_free r b) size right
        → get_range (suc d) size (node r a b)
          ≡ (total_size d + right.0, node r (push_free r a) right.1)
    get_upper e g =
        unfold get_range in
        ground (arith, get_range_null d size (push_free r a) e, g.inside, total_size_bound d deep)

    found_upper :
        no_room (rank (push_free r a)) size ≡ true → Found (push_free r b) size right → NodeFound
    found_upper c g =
        let e : mark_used (suc d) (total_size d + right.0) size (node r (push_free r a) right.1)
            ≡ mark_used (suc d) (total_size d + right.0) size (node r a b) =
          rw (
            mark_upper right.0 (push_free r a) right.1 g.inside,
            mark_upper right.0 a b g.inside,
            push_free_twice r a,
            absorbed_half r size (push_free r b) right g (rank_full r b),
          ) in
        rw (get_upper c g) record {
          inside = omega (arith, g.inside, total_size-suc d);
          aligned = omega (arith, g.aligned, total_size-pages d);
          clear = λ k hk hit.
              unfold taken pages in
              ground (
                arith,
                r_pos,
                g.clear (k - pages d),
                taken-push_free r b (k - pages d),
                g.inside,
                total_size-pages d,
              );
          absorbed = e;
          reset =
              λ f. reset_of (total_size d + right.0) (push_free r a) right.1 _ (unfold rank in f) e;
        }

    upper_room :
        no_room (rank (push_free r a)) size ≡ true → no_room (rank (push_free r b)) size ≡ false
    upper_room c = elim (ℕ_discrete r (suc d + 1)) [
      | yes full ↦ rw (rank_full r b full) (
          unfold no_room in
          ground (arith, ap total_size (let q : d + 1 - 1 ≡ d = omega arith in q)))
      | no split ↦
          let room_a : no_room (rank a) size ≡ true = rw (push_free_split r a split) at c in
          rw (push_free_split r b split) (unfold no_room in ground (arith, h, r_pos))
    ]

-- On a block of a depth up to 18 whose ranks are right, where the rank promises room for a positive
-- size, `get_range` returns a page-aligned range inside the block of which no page is in use, and marking
-- that range in the tree that it leaves gives what marking it in the tree before would.
pub get_range-Found :
    (d size : ℕ) (t : Buddy d)
    → d ≤ 18
    → IsExact t
    → 0 < size
    → no_room (rank t) size ≡ false
    → Found t size (get_range d size t)
unfolding rank
get_range-Found zero size (leaf r) hd h z n = get_range-leaf size r h z n
get_range-Found (suc d) size (node r a b) hd h z n =
    let deep : d ≤ 18 = omega arith in
    elim (dec_lt (total_size d) size) [
      | yes big ↦ found_whole size r a b h z n big
      | no half ↦
          let small : size ≤ total_size d = omega arith in
          elim (Bool-cases (no_room (rank (push_free r a)) size)) [
            | inr room ↦
                found_lower size r a b h z n deep small
                  (get_range-Found d size (push_free r a) deep (push_free-IsExact r a h.2) z room)
            | inl none_left ↦ found_upper size r a b h z n deep small none_left (
                get_range-Found d size (push_free r b) deep (push_free-IsExact r b h.3) z
                  (upper_room size r a b h z n deep small none_left))
          ]
    ]

-- ===== src/Mem/Buddy/View.antt =====
-- The buddy tree seen as a set of pages in use, and what its ranks say.
use native.Mathlib.Nat.{pow-suc, pow-le-pow_right}
use os_projet.Common.{
  ℕ, zero, suc, ◌+◌, ◌-◌, ◌*◌, ◌^◌, ◌≤◌, ◌<◌, max, ◌≡◌, refl, Bool, true, false, ◌&&◌,
  if◌then◌else◌, ltb, ◌==◌, arith, ◌⊎◌, inl, inr,
}
use os_projet.Mem.Buddy.{Buddy, leaf, node, total_size, rank, set_rank, fresh, push_free}

-- The number of pages below `Buddy d`.
unfoldable pub pages : ℕ → ℕ
pages zero = 1
pages (suc d) = 2 * pages d

pub total_size-suc : (d : ℕ) → total_size (suc d) ≡ 2 * total_size d
unfolding total_size
total_size-suc d =
    let e : suc d + 12 ≡ suc (d + 12) = omega arith in rw e (omega (arith, pow-suc 2 (d + 12)))

pub total_size-pages : (d : ℕ) → total_size d ≡ 4096 * pages d
unfolding pages
total_size-pages zero = unfold total_size in refl
total_size-pages (suc d) = omega (arith, total_size-suc d, total_size-pages d)

-- The shifts of the source are on an `int`, so the depth is at most 18.
pub total_size_bound : (d : ℕ) → d ≤ 18 → total_size d ≤ 2 ^ 30
unfolding total_size
total_size_bound d h = pow-le-pow_right {n = 2} (omega arith) {i = d + 12} {j = 30} (omega arith)

pub total_size_pos : (d : ℕ) → 0 < total_size d
total_size_pos zero = unfold total_size in omega arith
total_size_pos (suc d) = omega (arith, total_size-suc d, total_size_pos d)

-- Whether page k is in use.
unfoldable pub taken : {d : ℕ} → Buddy d → ℕ → Bool
taken (leaf r) k = r == 0
taken (node {d = d} r a b) k =
    if r == 0
    then true
    else if r == suc d + 1
    then false
    else if ltb k (pages d)
    then taken a k
    else taken b (k - pages d)

-- Whether the range of addresses meets page k.
abbrev pub hits : ℕ → ℕ → ℕ → Bool
hits addr size k = ltb 0 size && ltb addr ((k + 1) * 4096) && ltb (k * 4096) (addr + size)

-- Ranks stay within the depth, and the rank of a block that is split is that of its better half.
abbrev pub IsExact : {d : ℕ} → Buddy d → Type 0
IsExact (leaf r) = r ≤ 1
IsExact (node {d = d} r a b) =
    (r ≤ suc d + 1)
    × ((r ≡ 0) ⊎ ((r ≡ suc d + 1) ⊎ (r ≡ max (rank a) (rank b))))
    × IsExact a
    × IsExact b

pub rank_le : {d : ℕ} (t : Buddy d) → IsExact t → rank t ≤ d + 1
unfolding rank
rank_le (leaf r) h = h
rank_le (node r a b) h = h.0

pub taken_full : {d : ℕ} (t : Buddy d) (k : ℕ) → rank t ≡ 0 → taken t k ≡ true
unfolding rank taken
taken_full (leaf r) k h = ground arith
taken_full (node r a b) k h = ground arith

pub taken_free : {d : ℕ} (t : Buddy d) (k : ℕ) → rank t ≡ d + 1 → taken t k ≡ false
unfolding rank taken
taken_free (leaf r) k h = ground arith
taken_free (node r a b) k h = ground arith

pub rank-set_rank : {d : ℕ} (r : ℕ) (t : Buddy d) → rank (set_rank r t) ≡ r
unfolding rank set_rank
rank-set_rank r (leaf s) = refl
rank-set_rank r (node s a b) = refl

pub set_free-IsExact : {d : ℕ} (t : Buddy d) → IsExact t → IsExact (set_rank (d + 1) t)
unfolding set_rank
set_free-IsExact (leaf s) h = omega arith
set_free-IsExact (node s a b) h = (omega arith, inr (inl refl), h.2, h.3)

-- The halves of a node, with a free state handed on, read as the node does.
pub push_free-IsExact : {d : ℕ} (r : ℕ) (t : Buddy d) → IsExact t → IsExact (push_free r t)
unfolding push_free
push_free-IsExact r t h = ground (arith, set_free-IsExact t h)

pub taken-push_free :
    {d : ℕ} (r : ℕ) (t : Buddy d) (k : ℕ)
    → taken (push_free r t) k ≡ (if r == suc d + 1 then false else taken t k)
unfolding push_free
taken-push_free {d} r t k =
    ground (arith, taken_free (set_rank (d + 1) t) k, rank-set_rank (d + 1) t)

pub fresh-IsExact : (d : ℕ) → IsExact (fresh d)
unfolding fresh
fresh-IsExact zero = omega arith
fresh-IsExact (suc d) = (omega arith, inr (inl refl), fresh-IsExact d, fresh-IsExact d)

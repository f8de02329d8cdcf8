-- ===== src/Mem/PhTree/View.antt =====
-- The allocator tree seen as a set of pages in use, and the invariant of the cached flags.
use native.Mathlib.Nat.{pow-suc}
use os_projet.Common.{
  ℕ, zero, suc, ◌+◌, ◌-◌, ◌*◌, ◌≤◌, ◌<◌, ◌≡◌, refl, Bool, true, false, ◌&&◌, if◌then◌else◌, ltb,
  get_or, length, arith,
}
use os_projet.Mem.PhTree.{Tree, leaf, node, child_size, all_set, isfull, refresh, fresh}

-- The number of pages below `Tree d`.
unfoldable pub pages : ℕ → ℕ
pages zero = 64
pages (suc d) = 4 * pages d

child_size-zero : child_size 0 ≡ 4096 * 64
unfolding child_size
child_size-zero = refl

child_size-suc : (d : ℕ) → child_size (suc d) ≡ 4 * child_size d
unfolding child_size
child_size-suc d =
    let m : ℕ = (d + 3) * 2 + 12 in
    let e : (suc d + 3) * 2 + 12 ≡ suc (suc ((d + 3) * 2 + 12)) = omega arith in
    rw e (omega (arith, pow-suc 2 (suc m), pow-suc 2 m))

-- A child spans whole pages.
pub child_size-pages : (d : ℕ) → child_size d ≡ 4096 * pages d
unfolding pages
child_size-pages zero = child_size-zero
child_size-pages (suc d) = omega (arith, child_size-suc d, child_size-pages d)

pages_mono : (d e : ℕ) → d ≤ e → pages d ≤ pages e
unfolding pages
pages_mono zero zero h = omega arith
pages_mono zero (suc e) h = omega (arith, pages_mono zero e (omega arith))
pages_mono (suc d) zero h = elim h [ ]
pages_mono (suc d) (suc e) h = omega (arith, pages_mono d e (omega arith))

pub pages_bound : (d : ℕ) → d ≤ 7 → pages d ≤ 1048576
unfolding pages
pages_bound d h = omega (arith, pages_mono d 7 h)

pub pages_pos : (d : ℕ) → 0 < pages d
unfolding pages
pages_pos zero = omega arith
pages_pos (suc d) = omega (arith, pages_pos d)

abbrev pub pick : ℕ → ℕ → Bool → Bool → Bool → Bool → Bool
pick n k a b c e =
    if ltb k n then a else if ltb k (2 * n) then b else if ltb k (3 * n) then c else e

-- Whether page number k is in use.
unfoldable pub used : {d : ℕ} → Tree d → ℕ → Bool
used (leaf bits) k = get_or bits k true
used (node {d = d} f a b c e) k =
    pick (pages d) k (used a k) (used b (k - pages d)) (used c (k - 2 * pages d))
      (used e (k - 3 * pages d))

-- Every cached flag tells whether a child has a page left.
abbrev pub IsCoherent : {d : ℕ} → Tree d → Type 0
IsCoherent (leaf bits) = length bits ≡ 64
IsCoherent (node f a b c e) =
    (isfull (node f a b c e) ≡ (isfull a && isfull b && isfull c && isfull e))
    × IsCoherent a
    × IsCoherent b
    × IsCoherent c
    × IsCoherent e

pub refresh-IsCoherent :
    {d : ℕ} (a b c e : Tree d)
    → IsCoherent a
    → IsCoherent b
    → IsCoherent c
    → IsCoherent e
    → IsCoherent (refresh a b c e)
unfolding refresh
refresh-IsCoherent a b c e ha hb hc he = (ground arith, ha, hb, hc, he)

isfull-fresh : (d : ℕ) → isfull (fresh d) ≡ false
unfolding fresh isfull all_set
isfull-fresh zero = refl
isfull-fresh (suc d) = refl

pub fresh-IsCoherent : (d : ℕ) → IsCoherent (fresh d)
unfolding fresh isfull
fresh-IsCoherent zero = refl
fresh-IsCoherent (suc d) =
    let ih = fresh-IsCoherent d in (ground (arith, isfull-fresh d), ih, ih, ih, ih)

-- ===== src/Mem/PhTree/Span.antt =====
-- How a node's `mark_used` cuts a range of addresses over its children.
use native.Mathlib.Decide.{dec_lt}
use os_projet.Common.{
  ℕ, ◌+◌, ◌*◌, ◌/◌, ◌≤◌, ◌<◌, ◌≡◌, Bool, false, ◌&&◌, leb, none, some, arith, Option,
}
use os_projet.Mem.PhTree.{child_span}

abbrev pub within : ℕ → ℕ → ℕ → Bool
within lo hi j = leb lo j && leb j hi

-- What a quotient by an unknown says, at the numbers a node compares it with.
pub div_le : (s p q : ℕ) → 0 < s → q ≤ p / s → q * s ≤ p
div_le s p q h k = grind arith

div_lt : (s p q : ℕ) → 0 < s → p / s < q → p < q * s
div_lt s p q h k = grind arith

-- The call on a child covers the pages of the range in it.
abbrev pub CoversAt : Bool → ℕ → Option (ℕ × ℕ) → Type 0
CoversAt inside j none = inside ≡ false
CoversAt inside j (some (lo, hi)) = (lo ≤ hi) × (within (lo / 4096) (hi / 4096) j ≡ inside)

div_at : (s p q : ℕ) → p / s ≡ q → p / s * s ≡ q * s
div_at s p q h = rw h

module _ (n p_beg p_end j : ℕ) (hn : 0 < n) (h : p_beg ≤ p_end) (hj : j < n) where
  abbrev pub ChildCovers : ℕ → Type 0
  ChildCovers i =
      CoversAt (within (p_beg / 4096) (p_end / 4096) (i * n + j)) j
        (child_span (4096 * n) p_beg p_end i)

  pub child_zero : ChildCovers 0
  unfolding child_span
  child_zero = ground (
    arith,
    div_le (4096 * n) p_beg 1,
    div_lt (4096 * n) p_beg 1,
    div_at (4096 * n) p_beg 1,
    div_le (4096 * n) p_end 1,
    div_lt (4096 * n) p_end 1,
    div_at (4096 * n) p_end 1,
  )

  child_one_below : p_beg / (4096 * n) < 1 → ChildCovers 1
  unfolding child_span
  child_one_below r = ground (
    arith,
    div_lt (4096 * n) p_beg 1,
    div_le (4096 * n) p_end 1,
    div_lt (4096 * n) p_end 1,
    div_le (4096 * n) p_end 2,
    div_lt (4096 * n) p_end 2,
    div_at (4096 * n) p_end 1,
  )

  child_one_at : p_beg / (4096 * n) ≡ 1 → ChildCovers 1
  unfolding child_span
  child_one_at r = ground (
    arith,
    div_le (4096 * n) p_beg 1,
    div_lt (4096 * n) p_beg 2,
    div_at (4096 * n) p_beg 1,
    div_le (4096 * n) p_end 2,
    div_lt (4096 * n) p_end 2,
    div_at (4096 * n) p_end 1,
  )

  child_one_above : 1 < p_beg / (4096 * n) → ChildCovers 1
  unfolding child_span
  child_one_above r =
      ground
        (arith, div_le (4096 * n) p_beg 2, div_le (4096 * n) p_end 2, div_lt (4096 * n) p_end 2)

  pub child_one : ChildCovers 1
  child_one = elim (dec_lt (p_beg / (4096 * n)) 1) [
    | yes below ↦ child_one_below below
    | no b ↦ elim (dec_lt 1 (p_beg / (4096 * n))) [
      | yes above ↦ child_one_above above
      | no a ↦ child_one_at (omega arith)
    ]
  ]

  child_two_below : p_beg / (4096 * n) < 2 → ChildCovers 2
  unfolding child_span
  child_two_below r = ground (
    arith,
    div_lt (4096 * n) p_beg 2,
    div_le (4096 * n) p_end 2,
    div_lt (4096 * n) p_end 2,
    div_le (4096 * n) p_end 3,
    div_lt (4096 * n) p_end 3,
    div_at (4096 * n) p_end 2,
  )

  child_two_at : p_beg / (4096 * n) ≡ 2 → ChildCovers 2
  unfolding child_span
  child_two_at r = ground (
    arith,
    div_le (4096 * n) p_beg 2,
    div_lt (4096 * n) p_beg 3,
    div_at (4096 * n) p_beg 2,
    div_lt (4096 * n) p_end 2,
    div_le (4096 * n) p_end 3,
    div_lt (4096 * n) p_end 3,
    div_at (4096 * n) p_end 2,
  )

  child_two_above : 2 < p_beg / (4096 * n) → ChildCovers 2
  unfolding child_span
  child_two_above r =
      ground
        (arith, div_le (4096 * n) p_beg 3, div_le (4096 * n) p_end 3, div_lt (4096 * n) p_end 3)

  pub child_two : ChildCovers 2
  child_two = elim (dec_lt (p_beg / (4096 * n)) 2) [
    | yes below ↦ child_two_below below
    | no b ↦ elim (dec_lt 2 (p_beg / (4096 * n))) [
      | yes above ↦ child_two_above above
      | no a ↦ child_two_at (omega arith)
    ]
  ]

  pub child_three : p_beg / (4096 * n) < 4 → ChildCovers 3
  unfolding child_span
  child_three r = ground (
    arith,
    div_le (4096 * n) p_beg 3,
    div_lt (4096 * n) p_beg 3,
    div_at (4096 * n) p_beg 3,
    div_le (4096 * n) p_beg 4,
    div_lt (4096 * n) p_beg 4,
    div_le (4096 * n) p_end 3,
    div_lt (4096 * n) p_end 3,
    div_at (4096 * n) p_end 3,
    div_le (4096 * n) p_end 4,
    div_lt (4096 * n) p_end 4,
  )

-- ===== src/Paging/BitOr.antt =====
-- The bitwise or of kernel/mem/utils.cc, where it sets the lower bits of a page's address.
use native.Mathlib.Nat.{
  pow-succ', mod-lt, mod-add-div, mul_assoc, add-mul-mod_self_left, mod-eq_of_lt, one-le-pow,
}
use os_projet.Common.{
  ℕ, zero, suc, ◌+◌, ◌*◌, ◌/◌, ◌%◌, ◌^◌, ◌≤◌, ◌<◌, ◌≡◌, sym, ap, ◌∙◌, max, arith,
}
use os_projet.Paging.{bit_or}

-- The lowest bit apart.
mod_double : (p x : ℕ) → 0 < p → x % (2 * p) ≡ x % 2 + 2 * (x / 2 % p)
mod_double p x pos =
    let q = x / 2 / p in
    let r = x / 2 % p in
    let small : r < p = mod-lt (x / 2) pos in
    let whole : x ≡ x % 2 + 2 * r + 2 * p * q =
      let half = mod-add-div (x / 2) p in
      let same : 2 * p * q ≡ 2 * (p * q) = mul_assoc 2 p q in omega (arith, half, same) in
    ap (λ y. y % (2 * p)) whole
    ∙ add-mul-mod_self_left (x % 2 + 2 * r) (2 * p) q
    ∙ mod-eq_of_lt (omega (arith, small))

-- The lower k bits of a bitwise or with a multiple of 2 ^ k are those of the other number.
pub bit_or-low : (w k a b : ℕ) → k ≤ w → a % 2 ^ k ≡ 0 → bit_or w a b % 2 ^ k ≡ b % 2 ^ k
bit_or-low w zero a b le e = omega arith
bit_or-low zero (suc k) a b le e = absurd (omega (arith, le))
bit_or-low (suc w) (suc k) a b le e =
    let p = 2 ^ k in
    let pos : 0 < p = one-le-pow k 2 (omega arith) in
    let twice : 2 ^ suc k ≡ 2 * p = pow-succ' 2 k in
    let of_a : a % 2 + 2 * (a / 2 % p) ≡ 0 =
      sym (mod_double p a pos) ∙ ap (λ m. a % m) (sym twice) ∙ e in
    let rest = bit_or-low w k (a / 2) (b / 2) (omega (arith, le)) (omega (arith, of_a)) in
    let r = bit_or w (a / 2) (b / 2) in
    let y = max (a % 2) (b % 2) + 2 * r in
    let low : y % 2 ≡ b % 2 = omega (arith, of_a) in
    let high : y / 2 ≡ r = omega (arith, of_a) in
    ap (λ m. y % m) twice
    ∙ mod_double p y pos
    ∙ ap (λ l. l + 2 * (y / 2 % p)) low
    ∙ ap (λ h. b % 2 + 2 * (h % p)) high
    ∙ ap (λ h. b % 2 + 2 * h) rest
    ∙ sym (ap (λ m. b % m) twice ∙ mod_double p b pos)

-- Numbers without a common bit are added by a bitwise or.
pub bit_or_disjoint :
    (w k a b : ℕ) → a % 2 ^ k ≡ 0 → b < 2 ^ k → a + b < 2 ^ w → bit_or w a b ≡ a + b
bit_or_disjoint zero k a b e lt small = omega (arith, small)
bit_or_disjoint (suc w) zero a b e lt small =
    let twice : 2 ^ suc w ≡ 2 * 2 ^ w = pow-succ' 2 w in
    let rest =
      bit_or_disjoint w 0 (a / 2) (b / 2) (omega arith) (omega (arith, lt))
        (omega (arith, lt, small, twice)) in
    omega (arith, rest, lt)
bit_or_disjoint (suc w) (suc k) a b e lt small =
    let p = 2 ^ k in
    let pos : 0 < p = one-le-pow k 2 (omega arith) in
    let twice : 2 ^ suc k ≡ 2 * p = pow-succ' 2 k in
    let wide : 2 ^ suc w ≡ 2 * 2 ^ w = pow-succ' 2 w in
    let of_a : a % 2 + 2 * (a / 2 % p) ≡ 0 =
      sym (mod_double p a pos) ∙ ap (λ m. a % m) (sym twice) ∙ e in
    let rest =
      bit_or_disjoint w k (a / 2) (b / 2) (omega (arith, of_a)) (omega (arith, lt, twice))
        (omega (arith, of_a, small, wide)) in
    omega (arith, rest, of_a)

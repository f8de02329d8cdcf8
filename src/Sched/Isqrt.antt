-- ===== src/Sched/Isqrt.antt =====
-- `isqrt` of kernel/proc/sched.cpp: the integer square root of a byte.
use native.Mathlib.Decide.{dec_lt}
use os_projet.Common.{
  ℕ, zero, suc, ◌+◌, ◌-◌, ◌*◌, ◌/◌, ◌≤◌, ◌<◌, ◌≡◌, refl, Bool, true, false, ◌&&◌, if◌then◌else◌,
  ltb, leb, ◌==◌, arith,
}

-- `while (one > op) one >>= 2;` from 1 << 10, which falls to 0 in six rounds.
unfoldable pub scale_down : ℕ → ℕ → ℕ → ℕ
scale_down zero op one = one
scale_down (suc n) op one = let rest = scale_down n op (one / 4) in if ltb op one then rest else one

-- `while (one != 0)`, on `uint16_t` op, res and one.
unfoldable pub isqrt_loop : ℕ → ℕ → ℕ → ℕ → ℕ
isqrt_loop zero op res one = res
isqrt_loop (suc n) op res one =
    let taken = isqrt_loop n (op - (res + one)) ((res + 2 * one) / 2) (one / 4) in
    let left = isqrt_loop n op (res / 2) (one / 4) in
    if one == 0 then res else if leb (res + one) op then taken else left

unfoldable pub isqrt : ℕ → ℕ
unfolding scale_down isqrt_loop
isqrt x = isqrt_loop 7 x 0 (scale_down 7 x 1024)

abbrev is_root : ℕ → Bool
is_root x = leb (isqrt x * isqrt x) x && ltb x ((isqrt x + 1) * (isqrt x + 1))

-- The numbers up to a limit, and the limit, that the test accepts without a gap.
roots_to : ℕ → Bool
roots_to zero = is_root 0
roots_to (suc limit) = if is_root (suc limit) then roots_to limit else false

roots_to_sound : (limit x : ℕ) → roots_to limit ≡ true → x ≤ limit → is_root x ≡ true
unfolding roots_to
roots_to_sound zero x h le = let e : x ≡ 0 = omega arith in rw e h
roots_to_sound (suc limit) x h le = elim (dec_lt x (suc limit)) [
  | yes below ↦ roots_to_sound limit x (ground (arith, h)) (omega arith)
  | no top ↦ let e : x ≡ suc limit = omega arith in rw e (ground (arith, h))
]

byte_roots : roots_to 255 ≡ true
unfolding roots_to isqrt
byte_roots = refl

split_root : (s t x : ℕ) → (leb s x && ltb x t) ≡ true → (s ≤ x) × (x < t)
split_root s t x h = ground arith

-- The result for a byte is the greatest number whose square is at most the byte.
pub isqrt_bounds : (x : ℕ) → x < 256 → (isqrt x * isqrt x ≤ x) × (x < (isqrt x + 1) * (isqrt x + 1))
isqrt_bounds x h =
    split_root (isqrt x * isqrt x) ((isqrt x + 1) * (isqrt x + 1)) x
      (roots_to_sound 255 x byte_roots (omega arith))

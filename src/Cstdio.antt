-- ===== src/Cstdio.antt =====
-- `print_number` of kstdlib/cstdio.cc for a type T of w bits, not fewer than an int has. A number is `plus` its magnitude or,
-- below 0, `minus` its magnitude; the buffer is an address in memory. The product of `maxpow` wraps. The negation of the least
-- number of T overflows, which has no defined behaviour: there `none` stands.
pub mod Digits
use os_projet.Common.{
  ℕ, zero, suc, ◌+◌, ◌-◌, ◌*◌, ◌/◌, ◌%◌, ◌^◌, Bool, true, false, Option, none, some, ◌&&◌, ◌||◌,
  List, [], ◌∷◌, ◌==◌, if◌then◌else◌, ltb, leb, get_or,
}
use os_projet.Cstring.Memory.{Bytes, write}

pub data Number : Type 0 where
  plus : ℕ → Number
  minus : ℕ → Number

-- `lutUpper` and `lutLower`
abbrev pub lut : Bool → List ℕ
lut true = 48 ∷ 49 ∷ 50 ∷ 51 ∷ 52 ∷ 53 ∷ 54 ∷ 55 ∷ 56 ∷ 57 ∷ 65 ∷ 66 ∷ 67 ∷ 68 ∷ 69 ∷ 70 ∷ []
lut false = 48 ∷ 49 ∷ 50 ∷ 51 ∷ 52 ∷ 53 ∷ 54 ∷ 55 ∷ 56 ∷ 57 ∷ 97 ∷ 98 ∷ 99 ∷ 100 ∷ 101 ∷ 102 ∷ []

-- `for (; x/maxpow >= base; maxpow *= base, n++);` The power doubles in each round, so w rounds are enough.
unfoldable pub last_place : ℕ → ℕ → ℕ → ℕ → ℕ → ℕ → ℕ
last_place zero w x base maxpow n = n
last_place (suc f) w x base maxpow n =
    let rest = last_place f w x base (maxpow * base % 2 ^ w) (suc n) in
    if leb base (x / maxpow) then rest else n

-- The k digits of acc, the last one first: `buf[n - i] = lut[acc % base]; acc /= base;`
unfoldable pub put_digits : ℕ → Bool → ℕ → ℕ → ℕ → Bytes → Bytes
put_digits zero upper base acc buf m = m
put_digits (suc k) upper base acc buf m =
    put_digits k upper base (acc / base) buf (write m (buf + k) (get_or (lut upper) (acc % base) 0))

-- The part behind the tests for 0 and for the sign.
unfoldable pub print_digits : ℕ → ℕ → ℕ → ℕ → ℕ → Bool → Bytes → ℕ × Bytes
print_digits w x buf base minnum upper m =
    let n = last_place w w x base 1 0 in
    let last = if ltb n (minnum - 1) then minnum - 1 else n in
    if leb 2 base && leb base 16 then (last, put_digits (suc last) upper base x buf m) else (0, m)

unfoldable pub print_plus : ℕ → ℕ → ℕ → ℕ → ℕ → Bool → Bytes → ℕ × Bytes
print_plus w x buf base minnum upper m =
    if base == 0
    then (0, m)
    else if x == 0 && minnum == 1
    then (1, write m buf 48)
    else print_digits w x buf base minnum upper m

-- A negative number without `sign` is one of an unsigned type, so it is not negative.
unfoldable pub print_number : ℕ → Number → ℕ → ℕ → ℕ → Bool → Bytes → Option (ℕ × Bytes)
print_number w (plus x) buf base minnum upper m = some (print_plus w x buf base minnum upper m)
print_number w (minus x) buf base minnum upper m =
    if base == 0
    then some (0, m)
    else if ltb x (2 ^ (w - 1))
    then some (print_plus w x (buf + 1) base 1 false (write m buf 45))
    else none

-- ===== src/Cstdio/Digits.antt =====
-- The digits of a number are read back as the number.
use native.Mathlib.Nat.{
  div-add-mod, mod-lt, mod-eq_of_lt, pow-zero, pow-le-pow_right, div-lt_iff_lt-mul,
  le-div_iff_mul-le, pow-suc, pow-le-pow_left, one-le-pow,
}
use native.Mathlib.Decide.{dec_lt, ℕ_discrete}
use os_projet.Common.{
  ℕ, zero, suc, ◌+◌, ◌-◌, ◌*◌, ◌/◌, ◌%◌, ◌^◌, ◌≤◌, ◌<◌, ◌≡◌, refl, sym, ap, ◌∙◌, Bool, true, false,
  Option, none, some, ◌&&◌, ◌==◌, if◌then◌else◌, ltb, leb, arith, get_or, ◌⊎◌, inl, inr, Bool-cases,
}
use os_projet.Cstring.Memory.{Bytes, write}
use os_projet.Cstdio.{
  lut, last_place, put_digits, print_digits, print_plus, print_number, Number, plus, minus,
}

-- The value of a digit in either case of letters.
abbrev pub digit_value : ℕ → ℕ
digit_value c = if ltb c 58 then c - 48 else if ltb c 71 then c - 55 else c - 87

-- The number that the n digits at buf stand for.
abbrev pub value_of : ℕ → ℕ → ℕ → Bytes → ℕ
value_of zero base buf m = 0
value_of (suc n) base buf m = value_of n base buf m * base + digit_value (m (buf + n))

-- Each digit of the table has its place as its value.
abbrev is_right : Bool → ℕ → Bool
is_right upper d = digit_value (get_or (lut upper) d 0) == d

abbrev are_right : Bool → ℕ → Bool
are_right upper zero = true
are_right upper (suc n) = is_right upper n && are_right upper n

are_right_lem :
    (upper : Bool) (n d : ℕ) → are_right upper n ≡ true → d < n → is_right upper d ≡ true
are_right_lem upper zero d h lt = absurd (omega arith)
are_right_lem upper (suc n) d h lt = elim (ℕ_discrete d n) [
  | yes here ↦ ap (is_right upper) here ∙ ground (arith, h)
  | no other ↦ are_right_lem upper n d (ground (arith, h)) (omega arith)
]

both_right : (upper : Bool) → are_right upper 16 ≡ true
both_right true = refl
both_right false = refl

digit_value-lut : (upper : Bool) (d : ℕ) → d < 16 → digit_value (get_or (lut upper) d 0) ≡ d
digit_value-lut upper d h =
    same (digit_value (get_or (lut upper) d 0)) d (are_right_lem upper 16 d (both_right upper) h)
  where
    same : (v d : ℕ) → (v == d) ≡ true → v ≡ d
    same v d e = ground (arith, e)

put_digits_other :
    (k : ℕ) (upper : Bool) (base acc buf : ℕ) (m : Bytes) (x : ℕ)
    → (x < buf) ⊎ (buf + k ≤ x)
    → put_digits k upper base acc buf m x ≡ m x
unfolding put_digits
put_digits_other zero upper base acc buf m x h = refl
put_digits_other (suc k) upper base acc buf m x h =
    put_digits_other k upper base (acc / base) buf
      (write m (buf + k) (get_or (lut upper) (acc % base) 0)) x (ground (arith, h))
    ∙ ground (arith, h)

-- Division with remainder, the quotient first.
div_mod : (a b : ℕ) → a / b * b + a % b ≡ a
div_mod a b = let e = div-add-mod a b in grind (arith, e)

put_digits-value :
    (k : ℕ) (upper : Bool) (base acc buf : ℕ) (m : Bytes)
    → 0 < base
    → base ≤ 16
    → acc < base ^ k
    → value_of k base buf (put_digits k upper base acc buf m) ≡ acc
unfolding put_digits
put_digits-value zero upper base acc buf m pos le h =
    let one : acc < 1 = rw (pow-zero base) at h in omega (arith, one)
put_digits-value (suc k) upper base acc buf m pos le h =
    let d = get_or (lut upper) (acc % base) 0 in
    let small : acc < base ^ k * base = rw (sym (pow-suc base k)) h in
    let rest =
      put_digits-value k upper base (acc / base) buf (write m (buf + k) d) pos le
        ((div-lt_iff_lt-mul pos).1 small) in
    let other =
      put_digits_other k upper base (acc / base) buf (write m (buf + k) d) (buf + k)
        (inr (omega arith)) in
    let written : write m (buf + k) d (buf + k) ≡ d = ground arith in
    let lt : acc % base < base = mod-lt acc pos in
    let right = digit_value-lut upper (acc % base) (omega (arith, lt)) in
    rw (rest, other, written, right) (div_mod acc base)

-- The last place of a number: it fits in n + 1 digits, and needs them unless n is 0.
pub record IsLast (x base n : ℕ) : Type 0 where
  pub fits : x < base ^ suc n
  pub needs : (n ≡ 0) ⊎ (base ^ n ≤ x)

past_width : (w x base n : ℕ) → 2 ≤ base → x < 2 ^ w → w ≤ n → base ^ n ≤ x → ⊥
past_width w x base n two lt le needs =
    let wide = pow-le-pow_right {n = 2} (omega arith) le in
    let wider = pow-le-pow_left two n in absurd (omega (arith, wide, wider))

last_place-IsLast :
    (f w x base maxpow n : ℕ)
    → 2 ≤ base
    → x < 2 ^ w
    → maxpow ≡ base ^ n
    → (n ≡ 0) ⊎ (base ^ n ≤ x)
    → w ≤ f + n
    → IsLast x base (last_place f w x base maxpow n)
unfolding last_place
last_place-IsLast zero w x base maxpow n two lt e (inl start) fuel =
    let no_width : w ≡ 0 = omega arith in
    let none : x < 2 ^ 0 = rw no_width at lt in
    let some = one-le-pow (suc n) base (omega arith) in
    record { fits = omega (arith, none, some); needs = inl start }
last_place-IsLast zero w x base maxpow n two lt e (inr needs) fuel =
    absurd (past_width w x base n two lt (omega arith) needs)
last_place-IsLast (suc f) w x base maxpow n two lt e needs fuel =
    let pos : 0 < base ^ n = one-le-pow n base (omega arith) in
    let pos' : 0 < maxpow = omega (arith, e, pos) in
    elim (dec_lt (x / maxpow) base) [
      | yes stop ↦
          let t : leb base (x / maxpow) ≡ false = ground arith in
          let small : x < base * maxpow = (div-lt_iff_lt-mul pos').0 stop in
          let next : base ^ suc n ≡ base * maxpow = rw e (grind (arith, pow-suc base n)) in
          rw t (record { fits = omega (arith, small, next); needs = needs })
      | no on ↦
          let t : leb base (x / maxpow) ≡ true = ground arith in
          let le : base * maxpow ≤ x = (le-div_iff_mul-le pos').0 (omega arith) in
          let next : base ^ suc n ≡ base * maxpow = rw e (grind (arith, pow-suc base n)) in
          let power : maxpow * base % 2 ^ w ≡ base ^ suc n =
            mod-eq_of_lt (grind (arith, le, lt)) ∙ grind (arith, next) in
          rw t (
            last_place-IsLast f w x base (maxpow * base % 2 ^ w) (suc n) two lt power
              (inr (omega (arith, le, next))) (omega arith))
    ]

-- x stands in the buffer, in as many places as asked for or as it needs, and nothing else is written. The
-- count returned is one less than the places, but for a single 0.
pub record Prints (x base buf minnum : ℕ) (m : Bytes) (r : ℕ × Bytes) : Type 0 where
  pub places : ℕ
  pub value : value_of places base buf r.1 ≡ x
  pub enough : minnum ≤ places
  pub no_more : (places ≡ minnum) ⊎ (base ^ (places - 1) ≤ x)
  pub others : (y : ℕ) → (y < buf) ⊎ (buf + places ≤ y) → r.1 y ≡ m y
  pub count : r.0 ≡ (if x == 0 && minnum == 1 then 1 else places - 1)

print_digits-Prints :
    (w x buf base minnum : ℕ) (upper : Bool) (m : Bytes)
    → x < 2 ^ w
    → 2 ≤ base
    → base ≤ 16
    → 1 ≤ minnum
    → (x == 0 && minnum == 1) ≡ false
    → Prints x base buf minnum m (print_digits w x buf base minnum upper m)
unfolding print_digits
print_digits-Prints w x buf base minnum upper m lt two le asked more =
    let n = last_place w w x base 1 0 in
    let last = if ltb n (minnum - 1) then minnum - 1 else n in
    let is_last =
      last_place-IsLast w w x base 1 0 two lt (sym (pow-zero base)) (inl refl) (omega arith) in
    let grown : n ≤ last = ground arith in
    let padded : minnum ≤ suc last = ground arith in
    let either : (suc last ≡ minnum) ⊎ (last ≡ n) = elim (dec_lt n (minnum - 1)) [
      | yes short ↦ inl (ground arith)
      | no long ↦ inr (ground arith)
    ] in
    let wide = pow-le-pow_right {n = base} (omega arith) {i = suc n} {j = suc last} (omega arith) in
    let known : (leb 2 base && leb base 16) ≡ true = ground arith in
    rw known (record {
      places = suc last;
      value =
          put_digits-value (suc last) upper base x buf m (omega arith) le
            (omega (arith, is_last.fits, wide));
      enough = padded;
      no_more = no_more n last is_last padded either;
      others = λ y out. put_digits_other (suc last) upper base x buf m y out;
      count = let behind : suc last - 1 ≡ last = omega arith in rw (more, behind) refl;
    })
  where
    no_more :
        (n last : ℕ)
        → IsLast x base n
        → minnum ≤ suc last
        → (suc last ≡ minnum) ⊎ (last ≡ n)
        → (suc last ≡ minnum) ⊎ (base ^ (suc last - 1) ≤ x)
    no_more n last l padded (inl e) = inl e
    no_more n last l padded (inr e) = needed (l.needs)
      where
        needed : (n ≡ 0) ⊎ (base ^ n ≤ x) → (suc last ≡ minnum) ⊎ (base ^ (suc last - 1) ≤ x)
        needed (inr wide) = let at : suc last - 1 ≡ n = omega (arith, e) in inr (rw at wide)
        needed (inl start) = inl (omega arith)

print_plus-Prints :
    (w x buf base minnum : ℕ) (upper : Bool) (m : Bytes)
    → x < 2 ^ w
    → 2 ≤ base
    → base ≤ 16
    → 1 ≤ minnum
    → Prints x base buf minnum m (print_plus w x buf base minnum upper m)
unfolding print_plus
print_plus-Prints w x buf base minnum upper m lt two le asked =
    let real : (base == 0) ≡ false = ground arith in
    elim (Bool-cases (x == 0 && minnum == 1)) [
      | inr more ↦
          rw (real, more) (print_digits-Prints w x buf base minnum upper m lt two le asked more)
      | inl nought ↦
          let at : buf + 0 ≡ buf = omega arith in
          rw (real, nought)
            (record {
              places = 1;
              value = rw at (ground (arith, nought));
              enough = ground (arith, nought);
              no_more = inl (ground (arith, nought));
              others = λ y out. ground (arith, out);
              count = rw nought refl;
            })
    ]

-- A minus sign stands in front of the digits of a negative number, which have no padding.
abbrev pub Printed : Number → ℕ → ℕ → ℕ → Bytes → Option (ℕ × Bytes) → Type 0
Printed num base buf minnum m none = ⊥
Printed (plus x) base buf minnum m (some r) = Prints x base buf minnum m r
Printed (minus x) base buf minnum m (some r) =
    (r.1 buf ≡ 45) × Prints x base (buf + 1) 1 (write m buf 45) r

-- A number of the type that is not the least negative one; a negative one has a positive magnitude.
abbrev pub Fits : ℕ → Number → Type 0
Fits w (plus x) = x < 2 ^ w
Fits w (minus x) = (x < 2 ^ w) × (x < 2 ^ (w - 1)) × (0 < x)

-- For a number of a type of w bits that is not the least negative one, a base from 2 to 16 and at least one place asked for, the digits
-- in the buffer, in either case of letters, stand for the magnitude, behind a minus sign if the number is
-- negative; there are as many as asked for (one behind a sign) or as many as the number needs; nothing
-- else is written; and the count returned is one less than the digits, but 1 for a single 0.
pub print_number-Printed :
    (w : ℕ) (num : Number) (buf base minnum : ℕ) (upper : Bool) (m : Bytes)
    → Fits w num
    → 2 ≤ base
    → base ≤ 16
    → 1 ≤ minnum
    → Printed num base buf minnum m (print_number w num buf base minnum upper m)
unfolding print_number
print_number-Printed w (plus x) buf base minnum upper m lt two le asked =
    print_plus-Prints w x buf base minnum upper m lt two le asked
print_number-Printed w (minus x) buf base minnum upper m lt two le asked =
    let real : (base == 0) ≡ false = ground arith in
    let printed =
      print_plus-Prints w x (buf + 1) base 1 false (write m buf 45) lt.0 two le (omega arith) in
    let small : ltb x (2 ^ (w - 1)) ≡ true = ground (arith, lt.1) in
    rw (real, small) (printed.others buf (inl (omega arith)) ∙ ground arith, printed)

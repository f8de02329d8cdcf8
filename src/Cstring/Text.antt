-- ===== src/Cstring/Text.antt =====
-- What the string functions return on terminated strings.
use os_projet.Common.{ℕ, zero, suc, ◌+◌, ◌≤◌, ◌<◌, ◌≡◌, ◌≢◌, ◌↔◌, sym, ◌∙◌, ap, arith, ◌⊎◌, some}
use os_projet.Cstring.Memory.{Bytes, write, IsString, IsBytes}
use os_projet.Cstring.{strlen, strcpy, memcpy, strcmp, delta, sign_of, less, equal}

pub at_zero : (m : Bytes) (p : ℕ) → m (p + 0) ≡ m p
at_zero m p = ap m (omega arith)

shifted : (m : Bytes) (p i : ℕ) → m (p + 1 + i) ≡ m (p + suc i)
shifted m p i = ap m (omega arith)

pub IsString-tail : (m : Bytes) (p n : ℕ) → IsString m p (suc n) → IsString m (p + 1) n
IsString-tail m p n h = record {
  body = λ i hi e. h.body (suc i) (omega arith) (sym (shifted m p i) ∙ e);
  ended = shifted m p n ∙ h.ended;
}

pub IsString-head : (m : Bytes) (p n : ℕ) → IsString m p (suc n) → m p ≢ 0
IsString-head m p n h e = h.body 0 (omega arith) (at_zero m p ∙ e)

-- `strlen` of a string of n characters is n.
pub strlen_lem : (f n : ℕ) (m : Bytes) (p : ℕ) → IsString m p n → n < f → strlen f m p ≡ some n
unfolding strlen
strlen_lem zero n m p h hf = elim hf [ ]
strlen_lem (suc f) zero m p h hf = ground (arith, h.ended, at_zero m p)
strlen_lem (suc f) (suc n) m p h hf =
    ground (arith, IsString-head m p n h, strlen_lem f n m (p + 1) (IsString-tail m p n h))

IsString-write :
    (m : Bytes) (p n a v : ℕ) → IsString m p n → (a < p) ⊎ (p + n < a) → IsString (write m a v) p n
IsString-write m p n a v h c = record {
  body = λ i hi e. h.body i hi (ground arith);
  ended = ground (arith, h.ended);
}

-- With more fuel than its length, `strcpy` of a string copies its characters and the terminator, as
-- `memcpy` does, where it does not write into the part of the source that it has yet to read.
pub strcpy-memcpy :
    (f n : ℕ) (m : Bytes) (dest src : ℕ)
    → IsString m src n
    → (dest < src) ⊎ (src + n < dest)
    → n < f
    → strcpy f m dest src ≡ some (memcpy (suc n) m dest src)
unfolding strcpy memcpy
strcpy-memcpy zero n m dest src h c hf = elim hf [ ]
strcpy-memcpy (suc f) zero m dest src h c hf = ground (arith, h.ended, at_zero m src)
strcpy-memcpy (suc f) (suc n) m dest src h c hf = ground (
  arith,
  IsString-head m src n h,
  strcpy-memcpy f n (write m dest (m src)) (dest + 1) (src + 1)
      (IsString-write m (src + 1) n dest (m src) (IsString-tail m src n h) (omega arith))
      (omega arith),
)

-- The comparison of two strings stops at distance i: up to there they agree and have no terminator.
pub record Stops (m : Bytes) (a b i : ℕ) : Type 0 where
  pub before : (j : ℕ) → j < i → (m (a + j) ≡ m (b + j)) × (m (a + j) ≢ 0)
  pub here : (m (a + i) ≢ m (b + i)) ⊎ ((m (a + i) ≡ 0) × (m (b + i) ≡ 0))

pub delta-zero : (m : Bytes) (a b : ℕ) → IsBytes m → (delta m a b ≡ 0) ↔ (m a ≡ m b)
unfolding delta
delta-zero m a b h = ((λ e. omega (arith, h a, h b)), (λ e. omega (arith, h a, h b)))

Stops-tail : (m : Bytes) (a b i : ℕ) → Stops m a b (suc i) → Stops m (a + 1) (b + 1) i
Stops-tail m a b i s = record {
  before = λ j hj. rw (shifted m a j, shifted m b j) (s.before (suc j) (omega arith));
  here = rw (shifted m a i, shifted m b i) s.here;
}

Stops-here : (m : Bytes) (a b : ℕ) → Stops m a b 0 → (m a ≢ m b) ⊎ ((m a ≡ 0) × (m b ≡ 0))
Stops-here m a b s = rw (at_zero m a, at_zero m b) at (s.here)

Stops-first : (m : Bytes) (a b i : ℕ) → Stops m a b (suc i) → (m a ≡ m b) × (m a ≢ 0)
Stops-first m a b i s = rw (at_zero m a, at_zero m b) at (s.before 0 (omega arith))

-- With more fuel than the distance i at which the comparison stops, `strcmp` returns the sign of the
-- wrapped difference at that first place where its arguments differ or both end.
pub strcmp_lem :
    (f i : ℕ) (m : Bytes) (a b : ℕ)
    → IsBytes m
    → Stops m a b i
    → i < f
    → strcmp f m a b ≡ some (sign_of (delta m (a + i) (b + i)))
unfolding strcmp
strcmp_lem zero i m a b hm s hf = elim hf [ ]
strcmp_lem (suc f) zero m a b hm s hf =
    let za : a + 0 ≡ a = omega arith in
    let zb : b + 0 ≡ b = omega arith in rw (za, zb) (ground (arith, Stops-here m a b s, hm a, hm b))
strcmp_lem (suc f) (suc i) m a b hm s hf =
    let sa : a + suc i ≡ a + 1 + i = omega arith in
    let sb : b + suc i ≡ b + 1 + i = omega arith in
    rw (sa, sb)
      (ground (
        arith,
        Stops-first m a b i s,
        hm a,
        hm b,
        strcmp_lem f i m (a + 1) (b + 1) hm (Stops-tail m a b i s) (omega arith),
      ))

sign_of-equal : (d : ℕ) → (sign_of d ≡ equal) ↔ (d ≡ 0)
unfolding sign_of
sign_of-equal d = ground arith

-- With more fuel than the distance i at which the comparison stops, `strcmp` answers 0 exactly where both
-- arguments have ended there.
pub strcmp-equal :
    (f i : ℕ) (m : Bytes) (a b : ℕ)
    → IsBytes m
    → Stops m a b i
    → i < f
    → (strcmp f m a b ≡ some equal) ↔ ((m (a + i) ≡ 0) × (m (b + i) ≡ 0))
strcmp-equal f i m a b hm s hf =
    let e : strcmp f m a b ≡ some (sign_of (delta m (a + i) (b + i))) =
      strcmp_lem f i m a b hm s hf in
    let z = delta-zero m (a + i) (b + i) hm in
    let q = sign_of-equal (delta m (a + i) (b + i)) in
    (λ h. ground (arith, e, h, z, q, s.here), λ h. ground (arith, e, h, z, q))

-- A first character that is greater by 128 or more is reported as less.
pub strcmp-wraps :
    (f : ℕ) (m : Bytes) (a b : ℕ) → IsBytes m → m b + 128 ≤ m a → strcmp (suc f) m a b ≡ some less
unfolding strcmp
strcmp-wraps f m a b hm h = ground (arith, hm a, hm b)

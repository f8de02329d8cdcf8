-- ===== src/Cstring/Search.antt =====
-- `strncmp` over a substring, and `strstr`.
use os_projet.Common.{
  ℕ, zero, suc, ◌+◌, ◌<◌, ◌≡◌, ◌≢◌, ◌↔◌, refl, arith, ◌⊎◌, inl, inr, Option, none, some,
}
use os_projet.Cstring.Memory.{Bytes, IsString, IsBytes}
use os_projet.Cstring.{
  strncmp, strncmp_loop, strstr, strstr_loop, delta, Sign, less, equal, greater,
}
use os_projet.Cstring.Text.{at_zero, IsString-tail, IsString-head, strlen_lem}

-- n bytes agree.
abbrev pub Agree : Bytes → ℕ → ℕ → ℕ → Type 0
Agree m a b zero = Unit
Agree m a b (suc n) = (m a ≡ m b) × Agree m (a + 1) (b + 1) n

-- n bytes hold no terminator.
abbrev pub NoNul : Bytes → ℕ → ℕ → Type 0
NoNul m b zero = Unit
NoNul m b (suc n) = (m b ≢ 0) × NoNul m (b + 1) n

strncmp_loop-Agree :
    (n d : ℕ) (m : Bytes) (a b : ℕ)
    → IsBytes m
    → d ≡ 0
    → NoNul m b n
    → (strncmp_loop n d m a b ≡ equal) ↔ Agree m a b n
unfolding strncmp_loop
strncmp_loop-Agree zero d m a b hm hd h = (λ e. tt, λ e. ground arith)
strncmp_loop-Agree (suc n) d m a b hm hd h =
    let ih = strncmp_loop-Agree n (delta m a b) m (a + 1) (b + 1) hm in
    (λ e. ground (arith, e, ih, hm a, hm b), λ e. ground (arith, e.0, e.1, ih, hm a, hm b))

-- `strncmp` over n bytes without a terminator in the second argument answers 0 exactly where the n
-- bytes agree.
pub strncmp-Agree :
    (n : ℕ) (m : Bytes) (a b : ℕ)
    → IsBytes m
    → NoNul m b n
    → (strncmp n m a b ≡ equal) ↔ Agree m a b n
unfolding strncmp
strncmp-Agree n m a b hm h = strncmp_loop-Agree n 0 m a b hm refl h

-- The first of n places from base on at which k bytes agree with the substring, or that there is none.
abbrev pub First : Bytes → ℕ → ℕ → ℕ → ℕ → Option (Option ℕ) → Type 0
First m k base substr n none = ⊥
First m k base substr n (some none) = (j : ℕ) → j < n → ¬ Agree m (base + j) substr k
First m k base substr n (some (some p)) =
    (i : ℕ) × (i < n)
    × (p ≡ base + i)
    × Agree m p substr k
    × ((j : ℕ) → j < i → ¬ Agree m (base + j) substr k)

-- One place further on.
First-suc :
    (m : Bytes) (k base substr n : ℕ) (r : Option (Option ℕ))
    → ¬ Agree m base substr k
    → First m k (base + 1) substr n r
    → First m k base substr (suc n) r
First-suc m k base substr n none h c = c
First-suc m k base substr n (some none) h c = none_at
  where
    none_at : (j : ℕ) → j < suc n → ¬ Agree m (base + j) substr k
    none_at zero hj = let e : base + 0 ≡ base = omega arith in rw e h
    none_at (suc j) hj =
        let e : base + suc j ≡ base + 1 + j = omega arith in rw e (c j (omega arith))
First-suc m k base substr n (some (some p)) h (i, hi, hp, ha, hn) =
    (suc i, omega arith, omega arith, ha, before)
  where
    before : (j : ℕ) → j < suc i → ¬ Agree m (base + j) substr k
    before zero hj = let e : base + 0 ≡ base = omega arith in rw e h
    before (suc j) hj =
        let e : base + suc j ≡ base + 1 + j = omega arith in rw e (hn j (omega arith))

sign_cases : (s : Sign) → (s ≡ equal) ⊎ (s ≢ equal)
sign_cases less = inr (λ e. cc)
sign_cases equal = inl refl
sign_cases greater = inr (λ e. cc)

strstr_loop-found :
    (f : ℕ) (m : Bytes) (base substr k : ℕ)
    → m base ≢ 0
    → strncmp k m base substr ≡ equal
    → strstr_loop (suc f) m base substr k ≡ some (some base)
unfolding strstr_loop
strstr_loop-found f m base substr k h e = ground arith

strstr_loop-next :
    (f : ℕ) (m : Bytes) (base substr k : ℕ)
    → m base ≢ 0
    → strncmp k m base substr ≢ equal
    → strstr_loop (suc f) m base substr k ≡ strstr_loop f m (base + 1) substr k
unfolding strstr_loop
strstr_loop-next f m base substr k h e = ground arith

NoNul-string : (k : ℕ) (m : Bytes) (p : ℕ) → IsString m p k → NoNul m p k
NoNul-string zero m p h = tt
NoNul-string (suc k) m p h =
    (IsString-head m p k h, NoNul-string k m (p + 1) (IsString-tail m p k h))

strstr_loop-First :
    (f n k : ℕ) (m : Bytes) (base substr : ℕ)
    → IsBytes m
    → IsString m base n
    → NoNul m substr k
    → n < f
    → First m k base substr n (strstr_loop f m base substr k)
strstr_loop-First zero n k m base substr hm hs hk hf = elim hf [ ]
strstr_loop-First (suc f) zero k m base substr hm hs hk hf =
    let e : strstr_loop (suc f) m base substr k ≡ some none =
      unfold strstr_loop in ground (arith, hs.ended, at_zero m base) in
    rw e (λ j hj. elim hj [ ])
strstr_loop-First (suc f) (suc n) k m base substr hm hs hk hf =
    let head = IsString-head m base n hs in
    let agree = strncmp-Agree k m base substr hm hk in
    elim (sign_cases (strncmp k m base substr)) [
      | inl same ↦
          let e : strstr_loop (suc f) m base substr k ≡ some (some base) =
            strstr_loop-found f m base substr k head same in
          rw e (0, omega arith, omega arith, agree.0 same, λ j hj. elim hj [ ])
      | inr differ ↦
          let e : strstr_loop (suc f) m base substr k ≡ strstr_loop f m (base + 1) substr k =
            strstr_loop-next f m base substr k head differ in
          rw e (
            First-suc m k base substr n (strstr_loop f m (base + 1) substr k)
              (λ a. differ (agree.1 a))
              (strstr_loop-First f n k m (base + 1) substr hm (IsString-tail m base n hs) hk
                (omega arith)))
    ]

-- With more fuel than either length, `strstr` of two strings returns the first place in the text where the substring stands, and null
-- exactly where it stands nowhere before the terminator.
pub strstr-First :
    (f n k : ℕ) (m : Bytes) (str substr : ℕ)
    → IsBytes m
    → IsString m str n
    → IsString m substr k
    → n < f
    → k < f
    → First m k str substr n (strstr f m str substr)
strstr-First f n k m str substr hm hs hk hf hkf =
    let e : strstr f m str substr ≡ strstr_loop f m str substr k =
      unfold strstr in ground (arith, strlen_lem f k m substr hk hkf) in
    rw e (strstr_loop-First f n k m str substr hm hs (NoNul-string k m substr hk) hf)

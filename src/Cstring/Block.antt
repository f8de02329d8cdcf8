-- ===== src/Cstring/Block.antt =====
-- `memset`, `memcpy` and `memmove` as changes to memory, and what `memcmp` compares.
use os_projet.Common.{
  ℕ, zero, suc, ◌+◌, ◌-◌, ◌%◌, ◌≤◌, ◌≡◌, refl, Bool, ◌&&◌, if◌then◌else◌, ltb, leb, arith, ◌⊎◌, inl,
  inr, ◌<◌, ◌^◌, Bool-cases,
}
use os_projet.Cstring.Memory.{Bytes, write}
use os_projet.Cstring.{memset, memcpy, copy_down, is_below, memmove, memcmp}

-- Whether x lies in the n bytes from p on.
abbrev pub inside : ℕ → ℕ → ℕ → Bool
inside p n x = leb p x && ltb x (p + n)

-- `memset` fills its block with the low byte of its argument and touches nothing else.
pub memset_lem :
    (n : ℕ) (m : Bytes) (a ch x : ℕ) → memset n m a ch x ≡ (if inside a n x then ch % 256 else m x)
unfolding memset
memset_lem zero m a ch x = ground arith
memset_lem (suc n) m a ch x = ground (arith, memset_lem n (write m a (ch % 256)) (a + 1) ch x)

-- A copy upwards is right where the destination does not reach into the source from below.
pub memcpy_lem :
    (n : ℕ) (m : Bytes) (dest src x : ℕ)
    → (dest ≤ src) ⊎ (src + n ≤ dest)
    → memcpy n m dest src x ≡ (if inside dest n x then m (src + (x - dest)) else m x)
unfolding memcpy
memcpy_lem zero m dest src x h = ground arith
memcpy_lem (suc n) m dest src x h =
    ground (arith, memcpy_lem n (write m dest (m src)) (dest + 1) (src + 1) x)

copy_down_lem :
    (n : ℕ) (m : Bytes) (dest src x : ℕ)
    → (src ≤ dest) ⊎ (dest + n ≤ src)
    → copy_down n m dest src x ≡ (if inside dest n x then m (src + (x - dest)) else m x)
unfolding copy_down
copy_down_lem zero m dest src x h = ground arith
copy_down_lem (suc n) m dest src x h =
    ground (arith, copy_down_lem n (write m (dest + n) (m (src + n))) dest src x)

-- Two blocks lie in the same half of the addresses, where the comparison with a sign is the one without, or
-- apart.
abbrev pub IsOrdered : ℕ → ℕ → ℕ → Type 0
IsOrdered n dest src =
    ((dest < 2 ^ 63) × (src < 2 ^ 63))
    ⊎ (((2 ^ 63 ≤ dest) × (2 ^ 63 ≤ src)) ⊎ ((dest + n ≤ src) ⊎ (src + n ≤ dest)))

-- For two blocks of n bytes below 2 ^ 64 that both start below 2 ^ 63, both start at 2 ^ 63 or later, or lie
-- apart, `memmove` copies the bytes at src, as they were before, to dest and changes nothing else, however the
-- blocks overlap.
pub memmove_lem :
    (n : ℕ) (m : Bytes) (dest src x : ℕ)
    → dest + n < 2 ^ 64
    → src + n < 2 ^ 64
    → IsOrdered n dest src
    → memmove n m dest src x ≡ (if inside dest n x then m (src + (x - dest)) else m x)
unfolding memmove
memmove_lem n m dest src x hd hs ordered = elim (Bool-cases (is_below dest src)) [
  | inl up ↦ rw up (memcpy_lem n m dest src x (ground (arith, up, ordered)))
  | inr down ↦ rw down (copy_down_lem n m dest src x (ground (arith, down, ordered)))
]

-- `memcmp` of any number of bytes but 0 compares the first ones only.
pub memcmp-first : (n : ℕ) (m : Bytes) (a b : ℕ) → memcmp (suc n) m a b ≡ memcmp 1 m a b
unfolding memcmp
memcmp-first zero m a b = refl
memcmp-first (suc n) m a b = ground (arith, memcmp-first n m a b)

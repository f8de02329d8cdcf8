-- ===== src/Cstring.antt =====
-- kstdlib/cstring.cc: C strings and blocks of bytes.
-- Memory is a function from addresses to bytes below 256, a pointer is an address, and no address
-- wraps around. A loop that runs up to a byte takes fuel, and is `none` where the fuel runs out; a
-- null pointer that a function returns is the inner `none`. `(char)(a - b)` is `delta`, a byte that
-- counts as negative from 128 on.
pub mod Memory
pub mod Block
pub mod Text
pub mod Search
use os_projet.Common.{
  ◌^◌, ℕ, zero, suc, ◌+◌, ◌-◌, ◌%◌, Bool, true, false, not, ◌&&◌, ◌||◌, Option, none, some,
  if◌then◌else◌, ltb, leb, ◌==◌,
}
use os_projet.Cstring.Memory.{Bytes, write}

-- `for (; *x != '\0'; retval++, x++);`
unfoldable pub strlen : ℕ → Bytes → ℕ → Option ℕ
strlen zero m x = none
strlen (suc f) m x =
    let rest = strlen f m (x + 1) in
    if m x == 0 then some 0 else (elim rest [ none ↦ none | some n ↦ some (n + 1) ])

-- `for (; (*dest = *src) != '\0'; dest++, src++);`
unfoldable pub strcpy : ℕ → Bytes → ℕ → ℕ → Option Bytes
strcpy zero m dest src = none
strcpy (suc f) m dest src =
    let m' = write m dest (m src) in
    let rest = strcpy f m' (dest + 1) (src + 1) in if m src == 0 then some m' else rest

-- `for (i = count; i > 0 && (*dest = *src) != '\0'; i--, dest++, src++);`
unfoldable pub strncpy : ℕ → Bytes → ℕ → ℕ → Bytes
strncpy zero m dest src = m
strncpy (suc i) m dest src =
    let m' = write m dest (m src) in
    let rest = strncpy i m' (dest + 1) (src + 1) in if m src == 0 then m' else rest

-- `for (; *dest != '\0'; dest++);`
unfoldable pub string_end : ℕ → Bytes → ℕ → Option ℕ
string_end zero m x = none
string_end (suc f) m x = let rest = string_end f m (x + 1) in if m x == 0 then some x else rest

unfoldable pub strcat : ℕ → Bytes → ℕ → ℕ → Option Bytes
strcat f m dest src = elim (string_end f m dest) [ none ↦ none | some e ↦ strcpy f m e src ]

unfoldable pub strncat : ℕ → Bytes → ℕ → ℕ → ℕ → Option Bytes
strncat f m dest src n = elim (string_end f m dest) [
  | none ↦ none
  | some e ↦ some (strncpy n m e src)
]

unfoldable pub delta : Bytes → ℕ → ℕ → ℕ
delta m a b = (m a + 256 - m b) % 256

-- The `int` that the comparisons return.
pub data Sign : Type 0 where
  less equal greater : Sign

unfoldable pub sign_of : ℕ → Sign
sign_of d = if d == 0 then equal else if ltb d 128 then greater else less

unfoldable pub strcmp : ℕ → Bytes → ℕ → ℕ → Option Sign
unfolding delta sign_of
strcmp zero m a b = none
strcmp (suc f) m a b =
    let rest = strcmp f m (a + 1) (b + 1) in
    if delta m a b == 0 && not (m a == 0 && m b == 0) then rest else some (sign_of (delta m a b))

-- The delta of the last round stays when the count runs out.
unfoldable pub strncmp_loop : ℕ → ℕ → Bytes → ℕ → ℕ → Sign
unfolding delta sign_of
strncmp_loop zero d m a b = sign_of d
strncmp_loop (suc cnt) d m a b =
    let rest = strncmp_loop cnt (delta m a b) m (a + 1) (b + 1) in
    if delta m a b == 0 && not (m a == 0 && m b == 0) then rest else sign_of (delta m a b)

unfoldable pub strncmp : ℕ → Bytes → ℕ → ℕ → Sign
unfolding strncmp_loop
strncmp n m a b = strncmp_loop n 0 m a b

-- Both overloads.
unfoldable pub strchr : ℕ → Bytes → ℕ → ℕ → Option (Option ℕ)
strchr zero m str ch = none
strchr (suc f) m str ch =
    let rest = strchr f m (str + 1) ch in
    let found = if m str == ch % 256 then some (some str) else some none in
    if not (m str == ch % 256) && not (m str == 0) then rest else found

unfoldable pub strrchr_loop : ℕ → Bytes → ℕ → ℕ → Option ℕ → Option (Option ℕ)
strrchr_loop zero m str ch lastfound = none
strrchr_loop (suc f) m str ch lastfound =
    let lastfound' = if m str == ch % 256 then some str else lastfound in
    let rest = strrchr_loop f m (str + 1) ch lastfound' in
    let over = if ch % 256 == 0 then some (some str) else some lastfound in
    if m str == 0 then over else rest

unfoldable pub strrchr : ℕ → Bytes → ℕ → ℕ → Option (Option ℕ)
unfolding strrchr_loop
strrchr f m str ch = strrchr_loop f m str ch none

-- `while (*base != '\0')` of `strstr`, for a substring of length n.
unfoldable pub strstr_loop : ℕ → Bytes → ℕ → ℕ → ℕ → Option (Option ℕ)
strstr_loop zero m base substr n = none
strstr_loop (suc f) m base substr n =
    let rest = strstr_loop f m (base + 1) substr n in
    let here : Option (Option ℕ) = (elim (strncmp n m base substr) [
      | equal ↦ some (some base)
      | _ ↦ rest
    ]) in
    if m base == 0 then some none else here

unfoldable pub strstr : ℕ → Bytes → ℕ → ℕ → Option (Option ℕ)
strstr f m str substr = elim (strlen f m substr) [
  | none ↦ none
  | some n ↦ strstr_loop f m str substr n
]

-- `memchr` reads one byte more than n when it finds nothing before.
unfoldable pub memchr : ℕ → Bytes → ℕ → ℕ → Option ℕ
memchr zero m s c = if m s == c % 256 then some s else none
memchr (suc n) m s c = let rest = memchr n m (s + 1) c in if m s == c % 256 then some s else rest

-- The loop of `memcmp` counts down and does not move its pointers.
unfoldable pub memcmp : ℕ → Bytes → ℕ → ℕ → Sign
unfolding delta
memcmp zero m a b = equal
memcmp (suc count) m a b =
    let rest = memcmp count m a b in
    if delta m a b == 0 then rest else if ltb (delta m a b) 128 then greater else less

-- Both overloads.
unfoldable pub memset : ℕ → Bytes → ℕ → ℕ → Bytes
memset zero m a ch = m
memset (suc cnt) m a ch = memset cnt (write m a (ch % 256)) (a + 1) ch

-- Both overloads.
unfoldable pub memcpy : ℕ → Bytes → ℕ → ℕ → Bytes
memcpy zero m dest src = m
memcpy (suc cnt) m dest src = memcpy cnt (write m dest (m src)) (dest + 1) (src + 1)

-- `for (cnt = n; cnt > 0; cnt--) cdest[cnt - 1] = csrc[cnt - 1];`
unfoldable pub copy_down : ℕ → Bytes → ℕ → ℕ → Bytes
copy_down zero m dest src = m
copy_down (suc cnt) m dest src = copy_down cnt (write m (dest + cnt) (m (src + cnt))) dest src

-- `(intptr_t)a < (intptr_t)b`: the addresses are compared as numbers with a sign.
abbrev pub is_below : ℕ → ℕ → Bool
is_below a b = ltb ((a + 2 ^ 63) % 2 ^ 64) ((b + 2 ^ 63) % 2 ^ 64)

unfoldable pub memmove : ℕ → Bytes → ℕ → ℕ → Bytes
unfolding memcpy copy_down
memmove n m dest src = if is_below dest src then memcpy n m dest src else copy_down n m dest src

-- ===== src/Mem/PhTree.antt =====
-- kernel/mem/phmem_allocator.hh: the quaternary tree that hands out physical pages.
-- `Tree d` is `ph_tree_allocator<d + 3>`: the specialisation for depth 3 is a leaf of 64 pages.
-- The bits of the leaf's `uint64_t x` are a list, the lowest bit first; a shift by 64 or more, which
-- the source leaves undefined, changes no bit here.
pub mod View
pub mod Get
pub mod Release
pub mod Span
pub mod Mark
use os_projet.Common.{
  ℕ, zero, suc, ◌+◌, ◌-◌, ◌*◌, ◌/◌, ◌%◌, ◌^◌, Bool, true, false, not, ◌||◌, ◌&&◌, List, [], ◌∷◌,
  Option, none, some, if◌then◌else◌, ltb, leb, ◌==◌, set, replicate,
}

pub data Tree : ℕ → Type 0 where
  leaf : List Bool → Tree zero
  node : {d : ℕ} → Bool → Tree d → Tree d → Tree d → Tree d → Tree (suc d)

-- `(phaddr)(-1)`
unfoldable pub phalloc_null : ℕ
phalloc_null = 2 ^ 64 - 1

-- `child_size` of a node over `Tree d`: `1 << ((depth - 1) * 2 + 12)` with depth - 1 = d + 3.
unfoldable pub child_size : ℕ → ℕ
child_size d = 2 ^ ((d + 3) * 2 + 12)

unfoldable pub all_set : List Bool → Bool
all_set [] = true
all_set (b ∷ bs) = b && all_set bs

unfoldable pub isfull : {d : ℕ} → Tree d → Bool
unfolding all_set
isfull (leaf bits) = all_set bits
isfull (node free_cache a b c e) = not free_cache

-- `free_cache = false; for (j) free_cache |= !children[j].isfull();`
unfoldable pub refresh : {d : ℕ} → Tree d → Tree d → Tree d → Tree d → Tree (suc d)
unfolding isfull
refresh a b c e =
    node (not (isfull a) || not (isfull b) || not (isfull c) || not (isfull e)) a b c e

-- The loop of the leaf: the first clear bit is set, and its number returned.
unfoldable pub take_clear : List Bool → Option (ℕ × List Bool)
take_clear [] = none
take_clear (true ∷ bs) = elim (take_clear bs) [
  | none ↦ none
  | some (j, rest) ↦ some (suc j, true ∷ rest)
]
take_clear (false ∷ bs) = some (0, true ∷ bs)

unfoldable pub get_page_leaf : List Bool → ℕ × Tree zero
unfolding take_clear isfull phalloc_null
get_page_leaf bits = if all_set bits then (phalloc_null, leaf bits) else elim (take_clear bits) [
  | none ↦ (phalloc_null, leaf bits)
  | some (j, rest) ↦ (j * 4096, leaf rest)
]

-- Arithmetic on a `phaddr`, modulo 2 ^ 64.
abbrev wrap : ℕ → ℕ
wrap x = x % 2 ^ 64

unfoldable pub get_page : {d : ℕ} → Tree d → ℕ × Tree d
unfolding get_page_leaf refresh phalloc_null child_size
get_page (leaf bits) = get_page_leaf bits
get_page (node {d = d} free_cache a b c e) =
    let s = child_size d in
    let ra = get_page a in
    let rb = get_page b in
    let rc = get_page c in
    let re = get_page e in
    if not free_cache
    then (phalloc_null, node free_cache a b c e)
    else if not (ra.0 == phalloc_null)
    then (ra.0, refresh ra.1 b c e)
    else if not (rb.0 == phalloc_null)
    then (wrap (rb.0 + s), refresh ra.1 rb.1 c e)
    else if not (rc.0 == phalloc_null)
    then (wrap (rc.0 + 2 * s), refresh ra.1 rb.1 rc.1 e)
    else if not (re.0 == phalloc_null)
    then (wrap (re.0 + 3 * s), refresh ra.1 rb.1 rc.1 re.1)
    else (wrap (phalloc_null + 4 * s), refresh ra.1 rb.1 rc.1 re.1)

unfoldable pub release_page : {d : ℕ} → ℕ → Tree d → Tree d
unfolding isfull child_size
release_page p (leaf bits) = leaf (set bits (p / 4096) false)
release_page p (node {d = d} free_cache a b c e) =
    let s = child_size d in
    let k = p / s in
    let a' = release_page p a in
    let b' = release_page (p - s) b in
    let c' = release_page (p - 2 * s) c in
    let e' = release_page (p - 3 * s) e in
    if k == 0
    then node (not (isfull a') || free_cache) a' b c e
    else if k == 1
    then node (not (isfull b') || free_cache) a b' c e
    else if k == 2
    then node (not (isfull c') || free_cache) a b c' e
    else if k == 3
    then node (not (isfull e') || free_cache) a b c e'
    else node free_cache a b c e

-- `for (i = k_beg; i <= k_end; ++i) x |= 1 << i;`, on the number of rounds.
unfoldable pub set_bits : ℕ → ℕ → List Bool → List Bool
set_bits zero i bits = bits
set_bits (suc n) i bits = set_bits n (suc i) (set bits i true)

unfoldable pub mark_used_leaf : ℕ → ℕ → List Bool → List Bool
unfolding set_bits
mark_used_leaf p_beg p_end bits =
    let k_beg = p_beg / 4096 in
    let k_end = if leb 64 (p_end / 4096) then 63 else p_end / 4096 in
    if leb 64 k_beg then bits else set_bits (k_end + 1 - k_beg) k_beg bits

-- The calls of a node's `mark_used` on its child number i: `none` is no call.
unfoldable pub child_span : ℕ → ℕ → ℕ → ℕ → Option (ℕ × ℕ)
child_span s p_beg p_end i =
    let k_beg = p_beg / s in
    let k_end = if leb 4 (p_end / s) then 3 else p_end / s in
    if k_beg == k_end
    then (if i == k_beg then some (p_beg - k_beg * s, p_end - k_beg * s) else none)
    else if i == k_beg
    then some (p_beg - k_beg * s, s - 1)
    else if i == k_end
    then some (0, p_end - k_end * s)
    else if ltb k_beg i && ltb i k_end
    then some (0, s - 1)
    else none

unfoldable pub mark_used : {d : ℕ} → ℕ → ℕ → Tree d → Tree d
unfolding mark_used_leaf
mark_used p_beg p_end (leaf bits) = leaf (mark_used_leaf p_beg p_end bits)
mark_used p_beg p_end (node {d = d} free_cache a b c e) =
    let s = child_size d in
    let a' : Tree d = elim (child_span s p_beg p_end 0) [
      | none ↦ a
      | some (lo, hi) ↦ mark_used lo hi a
    ] in
    let b' : Tree d = elim (child_span s p_beg p_end 1) [
      | none ↦ b
      | some (lo, hi) ↦ mark_used lo hi b
    ] in
    let c' : Tree d = elim (child_span s p_beg p_end 2) [
      | none ↦ c
      | some (lo, hi) ↦ mark_used lo hi c
    ] in
    let e' : Tree d = elim (child_span s p_beg p_end 3) [
      | none ↦ e
      | some (lo, hi) ↦ mark_used lo hi e
    ] in
    if leb 4 (p_beg / s) then node free_cache a b c e else refresh a' b' c' e'

-- The constructor: every page free.
unfoldable pub fresh : (d : ℕ) → Tree d
fresh zero = leaf (replicate 64 false)
fresh (suc d) = node true (fresh d) (fresh d) (fresh d) (fresh d)

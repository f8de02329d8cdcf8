-- ===== src/Mem/Buddy.antt =====
-- kernel/mem/vmem_allocator.hh: the buddy allocator of kernel addresses, and `VirtualMemoryAllocator`.
-- `Buddy d` is `BuddyAlloc<d, 12>`. Its `char maxdepth`, which runs from -1 to the depth, is kept as
-- `rank` = maxdepth + 1, so that 0 stands for a block with nothing free and d + 1 for a free block.
-- Sums and differences of addresses wrap around modulo 2 ^ 64.
pub mod View
pub mod Mark
pub mod Range
pub mod Alloc
pub mod Mmap
use os_projet.Common.{
  ℕ, zero, suc, ◌+◌, ◌-◌, ◌*◌, ◌%◌, ◌^◌, max, Bool, true, false, not, ◌||◌, ◌&&◌, if◌then◌else◌,
  ltb, leb, ◌==◌,
}

pub data Buddy : ℕ → Type 0 where
  leaf : ℕ → Buddy zero
  node : {d : ℕ} → ℕ → Buddy d → Buddy d → Buddy (suc d)

-- `total_size` of `Buddy d`, which is `mid_point` of `Buddy (suc d)`.
unfoldable pub total_size : ℕ → ℕ
total_size d = 2 ^ (d + 12)

abbrev pub wrap : ℕ → ℕ
wrap x = x % 2 ^ 64

-- `(linaddr)(-1)`
unfoldable pub alloc_null : ℕ
alloc_null = 2 ^ 64 - 1

unfoldable pub rank : {d : ℕ} → Buddy d → ℕ
rank (leaf r) = r
rank (node r a b) = r

-- `children[i].maxdepth = ...`
unfoldable pub set_rank : {d : ℕ} → ℕ → Buddy d → Buddy d
set_rank r (leaf s) = leaf r
set_rank r (node s a b) = node r a b

-- The constructor: all free.
unfoldable pub fresh : (d : ℕ) → Buddy d
fresh zero = leaf 1
fresh (suc d) = node (suc d + 1) (fresh d) (fresh d)

-- `maxdepth == -1 || size > 1ull << (maxdepth + 12)`
unfoldable pub no_room : ℕ → ℕ → Bool
unfolding total_size
no_room r size = r == 0 || ltb (total_size (r - 1)) size

-- A free block hands its state on to its halves.
unfoldable pub push_free : {d : ℕ} → ℕ → Buddy d → Buddy d
unfolding set_rank
push_free {d} r t = if r == suc d + 1 then set_rank (d + 1) t else t

unfoldable pub get_range : (d : ℕ) → ℕ → Buddy d → ℕ × Buddy d
unfolding no_room push_free alloc_null total_size
get_range zero size (leaf r) =
    if ltb (total_size 0) size || r == 0 then (alloc_null, leaf r) else (0, leaf 0)
get_range (suc d) size (node r a b) =
    let mid_point = total_size d in
    let first = get_range d size (push_free r a) in
    let second = get_range d size (push_free r b) in
    if no_room r size
    then (alloc_null, node r a b)
    else if ltb mid_point size
    then (0, node r a b)
    else if first.0 == alloc_null
    then (wrap (mid_point + second.0), node r first.1 second.1)
    else (first.0, node r first.1 (push_free r b))

unfoldable pub mark_used : (d : ℕ) → ℕ → ℕ → Buddy d → Buddy d
unfolding rank push_free total_size
mark_used zero addr size (leaf r) = if ltb 0 size && ltb addr (total_size 0) then leaf 0 else leaf r
mark_used (suc d) addr size (node r a b) =
    let mid_point = total_size d in
    let a0 = push_free r a in
    let b0 = push_free r b in
    let join : Buddy d → Buddy d → Buddy (suc d) = λ x y. node (max (rank x) (rank y)) x y in
    let right = join a0 (mark_used d (addr - mid_point) size b0) in
    let left = join (mark_used d addr size a0) b0 in
    let both =
      join (mark_used d addr (mid_point - addr) a0)
        (mark_used d 0 (wrap (size + (2 ^ 64 - mid_point) + addr)) b0) in
    if r == 0 || size == 0
    then node r a b
    else if addr == 0 && leb (total_size (suc d)) size
    then node 0 a b
    else if leb mid_point addr
    then right
    else if leb (wrap (addr + size)) mid_point
    then left
    else both

unfoldable pub is_range_free : (d : ℕ) → ℕ → ℕ → Buddy d → Bool
unfolding total_size
is_range_free zero addr size (leaf r) = leb (wrap (addr + size)) (total_size 0) && r == 1
is_range_free (suc d) addr size (node r a b) =
    let mid_point = total_size d in
    let right = is_range_free d (addr - mid_point) size b in
    let left = is_range_free d addr size a in
    let both =
      is_range_free d addr (mid_point - addr) a
      && is_range_free d 0 (wrap (size + (2 ^ 64 - mid_point) + addr)) b in
    if size == 0
    then true
    else if r == 0 || leb (total_size (suc d)) (wrap (addr + size))
    then false
    else if r == suc d + 1
    then true
    else if leb mid_point addr
    then right
    else if leb (wrap (addr + size)) mid_point
    then left
    else both

-- A block with nothing free hands that on to its halves.
unfoldable pub push_full : {d : ℕ} → ℕ → Buddy d → Buddy d
unfolding set_rank
push_full r t = if r == 0 then set_rank 0 t else t

unfoldable pub free_range : (d : ℕ) → ℕ → ℕ → Buddy d → Buddy d
unfolding rank push_full total_size
free_range zero addr size (leaf r) =
    if ltb addr (total_size 0) && not (size == 0) then leaf 1 else leaf r
free_range (suc d) addr size (node r a b) =
    let mid_point = total_size d in
    let a0 = push_full r a in
    let b0 = push_full r b in
    let join : Buddy d → Buddy d → Buddy (suc d) = λ x y.
      node (if rank x == d + 1 && rank y == d + 1 then suc d + 1 else max (rank x) (rank y)) x y in
    let right = join a0 (free_range d (addr - mid_point) size b0) in
    let left = join (free_range d addr size a0) b0 in
    let both =
      join (free_range d addr (mid_point - addr) a0)
        (free_range d 0 (wrap (size + (2 ^ 64 - mid_point) + addr)) b0) in
    if leb (total_size (suc d)) addr || size == 0
    then node r a b
    else if addr == 0 && leb (total_size (suc d)) size
    then node (suc d) a b
    else if leb mid_point addr
    then right
    else if leb (wrap (addr + size)) mid_point
    then left
    else both

-- `VirtualMemoryAllocator<d>::mmap`, with the new state.
unfoldable pub mmap : (d : ℕ) → ℕ → ℕ → Buddy d → ℕ × Buddy d
unfolding alloc_null total_size
mmap d addr size root =
    let (retval, root') = get_range d size root in
    if ltb (total_size d) size || size == 0
    then (alloc_null, root)
    else if is_range_free d addr size root
    then (addr, mark_used d addr size root)
    else (retval, mark_used d retval size root')

unfoldable pub munmap : (d : ℕ) → ℕ → ℕ → Buddy d → Buddy d
munmap d addr size root = free_range d addr size root

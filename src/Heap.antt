-- ===== src/Heap.antt =====
-- kstdlib/new.cc: the kernel's heap. A page has 502 slots of 8 bytes and a bitmap of the slots in use, here a
-- function from the number of a bit; the bits behind the slots are the page's flags. `_head.entry[i]` is the
-- list of the pages with at most i free slots in a row; the doubly linked list is a list of the addresses of
-- its pages. `kmmap` is a parameter, the address that it returns. Lengths stay below 2 ^ 35,
-- so that slotlen, an unsigned int, is not cut off.
pub mod Aperture
pub mod New
pub mod Delete
pub mod RoundTrip
use os_projet.Common.{
  ℕ, zero, suc, ◌+◌, ◌-◌, ◌*◌, ◌/◌, ◌%◌, ◌^◌, Bool, true, false, not, ◌&&◌, ◌||◌, Option, none,
  some, List, [], ◌∷◌, ◌==◌, if◌then◌else◌, ltb, leb, min, max,
}

abbrev pub Bitmap : Type 0
Bitmap = ℕ → Bool

abbrev pub slots : ℕ
slots = 502

-- `_smallpage` and `_head`
pub record Heap : Type 0 where
  pub bitmap : ℕ → Bitmap
  pub entry : ℕ → List ℕ

-- The free slots in a row from offset on, at most n.
unfoldable pub free_run : ℕ → Bitmap → ℕ → ℕ
free_run zero b offset = 0
free_run (suc n) b offset = let rest = free_run n b (offset + 1) in if b offset then 0 else suc rest

-- The outer loop of find_aperture, which takes at most one round for each slot.
unfoldable pub aperture_from : ℕ → ℕ → Bitmap → ℕ → ℕ
aperture_from zero slotlen b offset = offset
aperture_from (suc f) slotlen b offset =
    let j = free_run (min slotlen (slots - offset)) b offset in
    let rest = aperture_from f slotlen b (offset + (j + 1)) in
    if ltb offset slots then if j == slotlen then offset else rest else offset

unfoldable pub find_aperture : ℕ → Bitmap → ℕ
find_aperture slotlen b =
    let offset = aperture_from 503 slotlen b 0 in
    if leb (offset + slotlen) slots then offset else 503

unfoldable pub apertsize_from : ℕ → Bitmap → ℕ → ℕ → ℕ
apertsize_from zero b offset maxsize = maxsize
apertsize_from (suc f) b offset maxsize =
    let j = free_run (slots - offset) b offset in
    let rest = apertsize_from f b (offset + (j + 1)) (if ltb maxsize j then j else maxsize) in
    if ltb offset slots then rest else maxsize

unfoldable pub find_max_apertsize : Bitmap → ℕ
find_max_apertsize b = apertsize_from 503 b 0 0

-- `bitmap[(j+offset)/64] |= 1ull << ((j+offset)%64)` for n slots.
unfoldable pub take_slots : ℕ → ℕ → Bitmap → Bitmap
take_slots n offset b k = if leb offset k && ltb k (offset + n) then true else b k

-- A page goes in front of a list, or the first page off it.
abbrev pub relink : ℕ → ℕ → (ℕ → List ℕ) → ℕ → List ℕ
relink i pg entry k = if k == i then pg ∷ entry k else entry k

abbrev pub put : {A : Type 0} → ℕ → A → (ℕ → A) → ℕ → A
put i a f k = if k == i then a else f k

-- The first list from i on that has a page, of n lists.
unfoldable pub first_page : ℕ → ℕ → (ℕ → List ℕ) → Option (ℕ × ℕ × List ℕ)
first_page zero i entry = none
first_page (suc n) i entry = elim (entry i) [
  | [] ↦ first_page n (suc i) entry
  | pg ∷ pgs ↦ some (i, pg, pgs)
]

-- What new returns; `promised` is the failed assertion 'Aperture promised but not found'.
pub data Allocation : Type 0 where
  allocated : ℕ → Heap → Allocation
  promised : Allocation
  beyond_head : Allocation

-- A block in the page pg, which is off the list i.
unfoldable pub new_in_page : ℕ → ℕ → ℕ → List ℕ → Heap → Allocation
new_in_page slotlen i pg pgs h =
    let offset = find_aperture slotlen (h.bitmap pg) in
    let b = take_slots slotlen offset (h.bitmap pg) in
    if offset == 503
    then promised
    else allocated (pg + 8 * offset) (record {
      bitmap = put pg b h.bitmap;
      entry = relink (find_max_apertsize b) pg (put i pgs h.entry);
    })

-- A block in new pages at p. The source indexes `_head.entry` with 502 - num_lastpg, which lies in front
-- of it for some lengths; the model stops there.
unfoldable pub new_pages : ℕ → ℕ → Heap → Allocation
new_pages len p h =
    let numpage = (len + 16 + 64 + 4095) / 4096 in
    let newpg = p + 4096 * (numpage - 1) in
    let num_lastpg = (len % 4096 + 7) / 8 in
    let cleared : Bitmap =
      λ k. if ltb k num_lastpg then true else if ltb k slots then false else h.bitmap newpg k in
    let b : Bitmap = λ k. (k == 511 && ltb 1 numpage) || cleared k in
    if leb num_lastpg slots
    then allocated p (record {
      bitmap = put newpg b h.bitmap;
      entry = relink (slots - num_lastpg) newpg h.entry;
    })
    else beyond_head

-- `operator new`
unfoldable pub new : ℕ → ℕ → Heap → Allocation
new len p h =
    let slotlen = (len + 7) / 8 in
    (elim (first_page (503 - slotlen) slotlen h.entry) [
      | none ↦ new_pages len p h
      | some (i, pg, pgs) ↦ new_in_page slotlen i pg pgs h
    ])

-- What delete does; `double_delete` is the halt or the failed assertion where a slot is not in use.
pub data Release : Type 0 where
  freed : Heap → Release
  double_delete : Release

-- The test of the n slots from start on.
unfoldable pub all_taken : ℕ → ℕ → Bitmap → Bool
all_taken zero start b = true
all_taken (suc n) start b = b start && all_taken n (start + 1) b

unfoldable pub clear_slots : ℕ → ℕ → Bitmap → Bitmap
clear_slots n start b k = if leb start k && ltb k (start + n) then false else b k

-- `delete_page`, over the bits of the 8 words.
unfoldable pub none_taken : ℕ → ℕ → Bitmap → Bool
none_taken zero k b = true
none_taken (suc n) k b = not (b k) && none_taken n (k + 1) b

abbrev pub remove : ℕ → List ℕ → List ℕ
remove pg [] = []
remove pg (x ∷ pgs) = if x == pg then pgs else x ∷ remove pg pgs

-- The page leaves its list, which is the one of its greatest run before, and goes to that of its greatest run
-- now, if a bit is still set.
unfoldable pub release : ℕ → Bitmap → Heap → Heap
release page b h =
    let prev_conseq = find_max_apertsize (h.bitmap page) in
    let unlinked = put prev_conseq (remove page (h.entry prev_conseq)) h.entry in
    record {
      bitmap = put page b h.bitmap;
      entry = if none_taken 512 0 b then unlinked else relink (find_max_apertsize b) page unlinked;
    }

-- `operator delete`
unfoldable pub delete : ℕ → ℕ → Heap → Release
delete ptr len h =
    let numpage = (len + 16 + 64 + 4095) / 4096 in
    let big = ptr + 4096 * (numpage - 1) in
    let num_lastpg = (len % 4096 + 7) / 8 in
    let head_freed : Bitmap =
      λ k. if k == 511 && ltb 1 numpage then false else clear_slots num_lastpg 0 (h.bitmap big) k in
    let page = ptr - ptr % 4096 in
    let start = ptr % 4096 / 8 in
    let n = (len + 7) / 8 in
    if len == 0 || ptr == 0
    then freed h
    else if ptr % 4096 == 0
    then if all_taken num_lastpg 0 (h.bitmap big)
      then freed (release big head_freed h)
      else double_delete
    else if all_taken n start (h.bitmap page)
    then freed (release page (clear_slots n start (h.bitmap page)) h)
    else double_delete

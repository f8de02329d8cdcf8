-- ===== src/Mem/Buddy/Mmap.antt =====
-- `mmap` takes what it returns, and `munmap` of a block whose halves are in use frees nothing.
use os_projet.Common.{
  ℕ, suc, ◌+◌, ◌-◌, ◌^◌, ◌≤◌, ◌<◌, ◌≡◌, true, false, arith, inl, inr, Bool-cases, ap,
}
use os_projet.Mem.Buddy.{
  Buddy, node, total_size, rank, push_free, mark_used, is_range_free, get_range, alloc_null,
  no_room, mmap, munmap, free_range,
}
use os_projet.Mem.Buddy.View.{pages, total_size_bound, total_size_pos, taken, taken_full, IsExact}
use os_projet.Mem.Buddy.Mark.{Takes, mark_used-Takes}
use os_projet.Mem.Buddy.Range.{IsClear, is_range_free_sound}
use os_projet.Mem.Buddy.Alloc.{Found, get_range-Found, get_range_null}

-- What an allocation promises: the range lies in the block, was free, and is taken while all else stays.
pub record Allocates {d : ℕ} (t : Buddy d) (size : ℕ) (r : ℕ × Buddy d) : Type 0 where
  pub inside : r.0 + size ≤ total_size d
  pub clear : IsClear t r.0 size
  pub marks : Takes t r.1 r.0 size

-- `mmap` of a positive size for which the rank promises room, on a block of a depth up to 18 whose ranks
-- are right, at an address that does not overflow: the range that it returns lies in the block, no page
-- of it was in use, and afterwards exactly its pages are in use beside those in use before.
pub mmap-Allocates :
    (d addr size : ℕ) (t : Buddy d)
    → d ≤ 18
    → IsExact t
    → 0 < size
    → addr + size < 2 ^ 64
    → no_room (rank t) size ≡ false
    → Allocates t size (mmap d addr size t)
mmap-Allocates d addr size t hd h z f n =
    let g : Found t size (get_range d size t) = get_range-Found d size t hd h z n in
    let x : ℕ = (get_range d size t).0 in
    let small : total_size d ≤ 2 ^ 30 = total_size_bound d hd in
    elim (Bool-cases (is_range_free d addr size t)) [
      | inl asked ↦
          let (inside, clear) = is_range_free_sound d addr size t hd h f z asked in
          let e : mmap d addr size t ≡ (addr, mark_used d addr size t) =
            unfold mmap in ground (arith, g.inside) in
          rw e
            record { inside = inside; clear = clear; marks = mark_used-Takes d addr size t hd h f }
      | inr other ↦
          let e : mmap d addr size t ≡ (x, mark_used d x size t) =
            unfold mmap in ground (arith, g.inside, g.absorbed) in
          rw e record {
            inside = g.inside;
            clear = g.clear;
            marks = mark_used-Takes d x size t hd h (omega (arith, g.inside));
          }
    ]

-- Where both halves of a block of a depth up to 19 are fully in use and the whole is given back, every page still
-- counts as in use, and the next search for a positive size of at most half the block answers with the
-- last byte of the lower half.
pub munmap_keeps_taken :
    {d : ℕ} (size : ℕ) (a b : Buddy d)
    → d ≤ 18
    → rank a ≡ 0
    → rank b ≡ 0
    → 0 < size
    → size ≤ total_size d
    → ((k : ℕ) → taken (munmap (suc d) 0 (total_size (suc d)) (node 0 a b)) k ≡ true)
      × ((get_range (suc d) size (munmap (suc d) 0 (total_size (suc d)) (node 0 a b))).0
          ≡ total_size d - 1)
munmap_keeps_taken {d} size a b hd ha hb z small =
    let e : munmap (suc d) 0 (total_size (suc d)) (node 0 a b) ≡ node (suc d) a b =
      unfold munmap free_range in ground (arith, total_size_pos (suc d)) in
    let room : no_room (suc d) size ≡ false =
      unfold no_room in ground (arith, ap total_size (let q : suc d - 1 ≡ d = omega arith in q)) in
    let ra : no_room (rank a) size ≡ true = unfold no_room in ground arith in
    let rb : no_room (rank b) size ≡ true = unfold no_room in ground arith in
    rw e (
      λ k. unfold taken in ground (arith, taken_full a k, taken_full b (k - pages d)),
      unfold get_range push_free alloc_null in
          ground (
            arith,
            room,
            total_size_bound d hd,
            total_size_pos d,
            get_range_null d size a ra,
            get_range_null d size b rb,
          ),
    )

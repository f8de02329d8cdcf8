-- ===== src/Mem/Buddy/Range.antt =====
-- `is_range_free` and `get_range` find free pages, and `mmap` takes them.
use native.Mathlib.Decide.{dec_lt, ℕ_discrete}
use os_projet.Common.{ℕ, zero, suc, ◌+◌, ◌-◌, ◌^◌, ◌≤◌, ◌<◌, ◌≡◌, true, false, arith, ◌≢◌}
use os_projet.Mem.Buddy.{Buddy, leaf, node, total_size, is_range_free}
use os_projet.Mem.Buddy.View.{pages, total_size-pages, total_size_bound, taken, hits, IsExact}
use os_projet.Mem.Buddy.Mark.{wrapped_end}

-- No page that the range meets is in use.
abbrev pub IsClear : {d : ℕ} → Buddy d → ℕ → ℕ → Type 0
IsClear {d} t addr size = (k : ℕ) → k < pages d → hits addr size k ≡ true → taken t k ≡ false

module _ {d : ℕ} (addr size r : ℕ) (a b : Buddy d)
    (e : is_range_free (suc d) addr size (node r a b) ≡ true) (z : 0 < size)
    (f : addr + size < 2 ^ 64) where
  abbrev Clear : Type 0
  Clear = (addr + size ≤ total_size (suc d)) × IsClear (node r a b) addr size

  clear_whole : r ≡ suc d + 1 → Clear
  clear_whole c = (unfold is_range_free in ground arith, λ k hk hit. unfold taken in ground arith)

  clear_inside : addr + size ≤ total_size (suc d)
  unfolding is_range_free
  clear_inside = ground arith

  clear_open : r ≢ 0
  unfolding is_range_free
  clear_open c = ground arith

  clear_right :
      r ≢ suc d + 1
      → total_size d ≤ addr
      → (is_range_free d (addr - total_size d) size b ≡ true → IsClear b (addr - total_size d) size)
      → Clear
  clear_right c g ih =
      let below : IsClear b (addr - total_size d) size =
        ih (unfold is_range_free in ground arith) in
      (
        clear_inside,
        λ k hk hit.
            unfold taken pages in
            ground (arith, clear_open, below (k - pages d), total_size-pages d),
      )

  clear_left :
      r ≢ suc d + 1
      → addr + size ≤ total_size d
      → (is_range_free d addr size a ≡ true → IsClear a addr size)
      → Clear
  clear_left c g ih =
      let below : IsClear a addr size = ih (unfold is_range_free in ground arith) in
      (
        clear_inside,
        λ k hk hit. unfold taken pages in ground (arith, clear_open, below k, total_size-pages d),
      )

  clear_both :
      r ≢ suc d + 1
      → d ≤ 18
      → addr < total_size d
      → total_size d < addr + size
      → (is_range_free d addr (total_size d - addr) a ≡ true → IsClear a addr (total_size d - addr))
      → (is_range_free d 0 (size + addr - total_size d) b ≡ true
          → IsClear b 0 (size + addr - total_size d))
      → Clear
  clear_both c hd g g' iha ihb =
      let w = wrapped_end (total_size d) size addr in
      let small = total_size_bound d hd in
      let lower : IsClear a addr (total_size d - addr) =
        iha (unfold is_range_free in ground (arith, w, small)) in
      let upper : IsClear b 0 (size + addr - total_size d) =
        ihb (unfold is_range_free in ground (arith, w, small)) in
      (
        clear_inside,
        λ k hk hit.
            unfold taken pages in
            ground (arith, clear_open, lower k, upper (k - pages d), total_size-pages d),
      )

pub is_range_free_sound :
    (d : ℕ) (addr size : ℕ) (t : Buddy d)
    → d ≤ 18
    → IsExact t
    → addr + size < 2 ^ 64
    → 0 < size
    → is_range_free d addr size t ≡ true
    → (addr + size ≤ total_size d) × IsClear t addr size
is_range_free_sound zero addr size (leaf r) hd h f z e =
    unfold is_range_free in (ground arith, λ k hk hit. unfold taken in ground arith)
is_range_free_sound (suc d) addr size (node r a b) hd h f z e =
    let s : ℕ = total_size d in
    let deep : d ≤ 18 = omega arith in
    elim (ℕ_discrete r (suc d + 1)) [
      | yes full ↦ clear_whole addr size r a b e z f full
      | no c ↦ elim (dec_lt addr s) [
        | no far ↦
            clear_right addr size r a b e z f c (omega arith)
              (λ g. (is_range_free_sound d (addr - s) size b deep h.3 (omega arith) z g).1)
        | yes near ↦ elim (dec_lt s (addr + size)) [
          | no short ↦
              clear_left addr size r a b e z f c (omega arith)
                (λ g. (is_range_free_sound d addr size a deep h.2 f z g).1)
          | yes long ↦
              clear_both addr size r a b e z f c deep near long
                (λ g.
                  (is_range_free_sound d addr (s - addr) a deep h.2 (omega arith) (omega arith)
                    g).1)
                (λ g.
                  (is_range_free_sound d 0 (size + addr - s) b deep h.3 (omega arith) (omega arith)
                    g).1)
        ]
      ]
    ]

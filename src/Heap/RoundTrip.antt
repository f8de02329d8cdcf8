-- ===== src/Heap/RoundTrip.antt =====
-- A block that is allocated and given back leaves every page as it was.
use mathlib.Core.Path.{subst}
use os_projet.Common.{
  ℕ, ◌+◌, ◌*◌, ◌/◌, ◌%◌, ◌≤◌, ◌<◌, ◌≡◌, ◌≢◌, sym, ap, ◌∙◌, Bool, true, false, ◌&&◌, ◌==◌,
  if◌then◌else◌, ltb, leb, arith, inl, inr,
}
use os_projet.Heap.{Heap, slots, delete, freed, Allocation, allocated, promised, beyond_head, new}
use os_projet.Heap.New.{IsIn, IsHeap, InPage, InNew, last_page, Allocates, new-Allocates}
use os_projet.Heap.Delete.{delete-Frees}

-- The block at a of the heap h1 can be given back, and then each page of h is as in h.
pub record Restores (h h1 : Heap) (len a : ℕ) : Type 0 where
  pub after : Heap
  pub result : delete a len h1 ≡ freed after
  pub keeps : IsHeap after
  pub same : (i x k : ℕ) → IsIn x (h.entry i) → k < slots → after.bitmap x k ≡ h.bitmap x k

abbrev pub Restored : ℕ → Heap → Allocation → Type 0
Restored len h (allocated a h1) = Restores h h1 len a
Restored len h promised = ⊥
Restored len h beyond_head = ⊥

-- Whole pages, none of them at 0.
abbrev pub IsPage : ℕ → Type 0
IsPage pg = (pg % 4096 ≡ 0) × (0 < pg)

-- A bit of the page after taking and clearing its slots.
bit_back :
    (x page k offset n : ℕ) (v w u : Bool)
    → w ≡ (if x == page && leb offset k && ltb k (offset + n) then true else v)
    → u ≡ (if x == page && leb offset k && ltb k (offset + n) then false else w)
    → (x ≡ page → offset ≤ k → k < offset + n → v ≡ false)
    → u ≡ v
bit_back x page k offset n v w u ew eu free = ground (arith, ew, eu, free)

in_page :
    (len a : ℕ) (h h1 : Heap)
    → IsHeap h1
    → 0 < len
    → len ≤ 4016
    → ((i pg : ℕ) → IsIn pg (h.entry i) → IsPage pg)
    → InPage h h1 ((len + 7) / 8) a
    → Restores h h1 len a
in_page len a h h1 w some_len short pages r =
    let (aligned, pos) = pages r.home r.page r.listed in
    let n = (len + 7) / 8 in
    let run = r.placed.was_free in
    let freed_it =
      delete-Frees h1 r.page r.offset len w aligned pos some_len short run.inside
        (λ x low high. r.placed.now r.page x ∙ ground arith) in
    record {
      after = freed_it.after;
      result = rw (r.address) (freed_it.result);
      keeps = freed_it.keeps;
      same = λ i x k listed lt.
          bit_back x r.page k r.offset n (h.bitmap x k) (h1.bitmap x k) (freed_it.after.bitmap x k)
            (r.placed.now x k) (freed_it.now x k lt)
            (λ e low high. ap (λ y. h.bitmap y k) e ∙ run.free k low high);
    }

in_new :
    (len p : ℕ) (h h1 : Heap)
    → IsHeap h1
    → 0 < len
    → len ≤ 4016
    → IsPage p
    → ((k : ℕ) → IsIn p (h.entry k) → ⊥)
    → InNew h h1 p ((len + 7) / 8)
    → Restores h h1 len p
in_new len p h h1 w some_len short (aligned, pos) fresh r =
    let n = (len + 7) / 8 in
    let start : p + 8 * 0 ≡ p = omega arith in
    let freed_it =
      delete-Frees h1 p 0 len w aligned pos some_len short (omega arith)
        (λ x low high. r.slots_of x (omega arith) ∙ ground arith) in
    record {
      after = freed_it.after;
      result = ap (λ q. delete q len h1) (sym start) ∙ freed_it.result;
      keeps = freed_it.keeps;
      same = λ i x k listed lt.
          let other : x ≢ p = λ e. fresh i (subst (λ y. IsIn y (h.entry i)) e listed) in
          ground (arith, freed_it.now x k lt, r.others x k other, other);
    }

-- On a heap whose lists have each page once and with the greatest run of free slots that the list's number
-- says, with all listed pages and the new page at multiples of 4096 but 0: a block of 1 to 4016 bytes,
-- wherever the allocation finds it, can be given back with its length; no assertion fails on the way, the
-- heap is such a heap again, and each page that was listed has the slots taken that it had before.
pub new-Restored :
    (len p : ℕ) (h : Heap)
    → IsHeap h
    → 0 < len
    → len ≤ 4016
    → ((i pg : ℕ) → IsIn pg (h.entry i) → IsPage pg)
    → IsPage p
    → ((k : ℕ) → IsIn p (h.entry k) → ⊥)
    → Restored len h (new len p h)
new-Restored len p h w some_len short pages page fresh =
    go (new len p h) (new-Allocates len p h w some_len (omega arith) (rw at_last fresh))
  where
    at_last : last_page len p ≡ p
    at_last = omega arith

    rest : len % 4096 ≡ len
    rest = omega arith

    go : (r : Allocation) → Allocates len p h r → Restored len h r
    go (allocated a h1) (w1, inl r) = in_page len a h h1 w1 some_len short pages r
    go (allocated a h1) (w1, inr (at, r)) =
        let r' : InNew h h1 p ((len + 7) / 8) = rw (at_last, rest) at r in
        subst (Restores h h1 len) (sym at) (in_new len p h h1 w1 some_len short page fresh r')
    go promised none_such = elim none_such [ ]
    go beyond_head none_such = elim none_such [ ]

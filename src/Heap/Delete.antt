-- ===== src/Heap/Delete.antt =====
-- A block that is given back leaves the heap as it was before the allocation.
use mathlib.Core.Path.{subst}
use native.Mathlib.Decide.{ℕ_discrete}
use os_projet.Common.{
  ℕ, zero, suc, ◌+◌, ◌-◌, ◌*◌, ◌/◌, ◌%◌, ◌≤◌, ◌<◌, ◌≡◌, ◌≢◌, refl, sym, ap, ◌∙◌, true, false, ◌&&◌,
  ◌||◌, ◌==◌, if◌then◌else◌, ltb, leb, arith, ◌⊎◌, inl, inr, List, [], ◌∷◌, Bool-cases,
}
use os_projet.Heap.{
  Heap, Bitmap, slots, find_max_apertsize, put, remove, release, none_taken, all_taken, clear_slots,
  delete, Release, freed,
}
use os_projet.Heap.New.{IsIn, Once, IsHeap, relinked}

all_taken_lem :
    (n start : ℕ) (b : Bitmap)
    → ((x : ℕ) → start ≤ x → x < start + n → b x ≡ true)
    → all_taken n start b ≡ true
unfolding all_taken
all_taken_lem zero start b h = refl
all_taken_lem (suc n) start b h =
    let here = h start (omega arith) (omega arith) in
    let rest = all_taken_lem n (start + 1) b (λ x low high. h x (omega arith) (omega arith)) in
    rw (here, rest) refl

remove-IsIn : (pg x : ℕ) (pgs : List ℕ) → Once pgs → IsIn x (remove pg pgs) → (x ≢ pg) × IsIn x pgs
remove-IsIn pg x [] once m = elim m [ ]
remove-IsIn pg x (y ∷ pgs) (fresh, once) m = go (ℕ_discrete y pg) (remove-IsIn pg x pgs once) m
  where
    cases :
        (IsIn x (remove pg pgs) → (x ≢ pg) × IsIn x pgs)
        → y ≢ pg
        → (x ≡ y) ⊎ IsIn x (remove pg pgs)
        → (x ≢ pg) × IsIn x (y ∷ pgs)
    cases rest ne (inl e) = ((λ same. ne (sym e ∙ same)), inl e)
    cases rest ne (inr m) = ((rest m).0, inr (rest m).1)

    go :
        Dec (y ≡ pg)
        → (IsIn x (remove pg pgs) → (x ≢ pg) × IsIn x pgs)
        → IsIn x (remove pg (y ∷ pgs))
        → (x ≢ pg) × IsIn x (y ∷ pgs)
    go (yes here) rest m =
        let t : (y == pg) ≡ true = ground arith in
        let m' : IsIn x pgs = rw t at m in
        ((λ same. fresh (subst (λ z. IsIn z pgs) (same ∙ sym here) m')), inr m')
    go (no other) rest m = let t : (y == pg) ≡ false = ground arith in cases rest other (rw t at m)

remove-Once : (pg : ℕ) (pgs : List ℕ) → Once pgs → Once (remove pg pgs)
remove-Once pg [] once = tt
remove-Once pg (y ∷ pgs) (fresh, once) = elim (ℕ_discrete y pg) [
  | yes here ↦ let t : (y == pg) ≡ true = ground arith in rw t once
  | no other ↦
      let t : (y == pg) ≡ false = ground arith in
      rw t ((λ m. fresh (remove-IsIn pg y pgs once m).1), remove-Once pg pgs once)
]

-- The lists without the page.
unlinked :
    (h : Heap) (page : ℕ)
    → IsHeap h
    → let prev = find_max_apertsize (h.bitmap page) in
      let entry = put prev (remove page (h.entry prev)) h.entry in
      ((k : ℕ) → Once (entry k))
      × ((k x : ℕ) → IsIn x (entry k) → (x ≢ page) × (find_max_apertsize (h.bitmap x) ≡ k))
unlinked h page w = (
  λ k. elim (ℕ_discrete k (find_max_apertsize (h.bitmap page))) [
    | yes here ↦
        let t : (k == find_max_apertsize (h.bitmap page)) ≡ true = ground arith in
        rw t (
          remove-Once page (h.entry (find_max_apertsize (h.bitmap page)))
            (w.once (find_max_apertsize (h.bitmap page))))
    | no other ↦
        let t : (k == find_max_apertsize (h.bitmap page)) ≡ false = ground arith in rw t (w.once k)
  ],
  λ k x m.
      where_is (find_max_apertsize (h.bitmap page)) k x refl
        (ℕ_discrete k (find_max_apertsize (h.bitmap page))) m,
)
  where
    where_is :
        (prev k x : ℕ)
        → find_max_apertsize (h.bitmap page) ≡ prev
        → Dec (k ≡ prev)
        → IsIn x (put prev (remove page (h.entry prev)) h.entry k)
        → (x ≢ page) × (find_max_apertsize (h.bitmap x) ≡ k)
    where_is prev k x e (yes here) m =
        let t : (k == prev) ≡ true = ground arith in
        let (ne, old) = remove-IsIn page x (h.entry prev) (w.once prev) (rw t at m) in
        (ne, w.sizes prev x old ∙ sym here)
    where_is prev k x e (no other) m =
        let t : (k == prev) ≡ false = ground arith in
        let old : IsIn x (h.entry k) = rw t at m in
        (
          λ same.
              other (sym (w.sizes k x old) ∙ ap (λ y. find_max_apertsize (h.bitmap y)) same ∙ e),
          w.sizes k x old,
        )

release-IsHeap : (page : ℕ) (b : Bitmap) (h : Heap) → IsHeap h → IsHeap (release page b h)
unfolding release
release-IsHeap page b h w =
    let prev = find_max_apertsize (h.bitmap page) in
    let entry : ℕ → List ℕ = put prev (remove page (h.entry prev)) h.entry in
    let (once, sizes) = unlinked h page w in
    elim (Bool-cases (none_taken 512 0 b)) [
      | inr used ↦ rw used (relinked h page b (find_max_apertsize b) entry refl once sizes)
      | inl empty ↦ rw empty (record {
        once = once;
        sizes = λ k x m.
            let (ne, size) = sizes k x m in
            let t : (x == page) ≡ false = ground (arith, ne) in rw t size;
      })
    ]

-- n slots of the page from start on are given back, and no other slot or page changes.
pub record Frees (h : Heap) (page start n : ℕ) (r : Release) : Type 0 where
  pub after : Heap
  pub result : r ≡ freed after
  pub keeps : IsHeap after
  pub now :
      (x k : ℕ)
      → k < slots
      → after.bitmap x k
        ≡ (if x == page && leb start k && ltb k (start + n) then false else h.bitmap x k)

Frees-at :
    (h : Heap) (page start n : ℕ) (b : Bitmap)
    → IsHeap h
    → ((k : ℕ) → k < slots → b k ≡ clear_slots n start (h.bitmap page) k)
    → Frees h page start n (freed (release page b h))
unfolding release clear_slots
Frees-at h page start n b w e = record {
  after = release page b h;
  result = refl;
  keeps = release-IsHeap page b h w;
  now = λ x k lt. elim (ℕ_discrete x page) [
    | yes same ↦ ground (arith, same, e k lt, ap (λ y. h.bitmap y k) same)
    | no other ↦ ground (arith, other)
  ];
}

-- Slots at the start of a page.
delete_front :
    (h : Heap) (page len : ℕ)
    → IsHeap h
    → page % 4096 ≡ 0
    → 0 < page
    → 0 < len
    → len ≤ 4016
    → all_taken ((len + 7) / 8) 0 (h.bitmap page) ≡ true
    → Frees h page 0 ((len + 7) / 8) (delete page len h)
unfolding delete
delete_front h page len w aligned pos some_len short all =
    let one : (len + 16 + 64 + 4095) / 4096 ≡ 1 = omega arith in
    let big : page + 4096 * (1 - 1) ≡ page = omega arith in
    let rest : len % 4096 ≡ len = omega arith in
    let some : (len == 0 || page == 0) ≡ false = ground arith in
    let front : (page % 4096 == 0) ≡ true = ground arith in
    rw (some, front, one, big, rest, all)
      (Frees-at h page 0 ((len + 7) / 8)
        (λ k.
          if k == 511 && ltb 1 1 then false else clear_slots ((len + 7) / 8) 0 (h.bitmap page) k)
        w (λ k lt. ground arith))

-- Slots further on.
delete_further :
    (h : Heap) (page ptr start len : ℕ)
    → IsHeap h
    → 0 < ptr
    → 0 < len
    → ptr % 4096 ≢ 0
    → ptr - ptr % 4096 ≡ page
    → ptr % 4096 / 8 ≡ start
    → all_taken ((len + 7) / 8) start (h.bitmap page) ≡ true
    → Frees h page start ((len + 7) / 8) (delete ptr len h)
unfolding delete
delete_further h page ptr start len w pos some_len off at_page at_start all =
    let some : (len == 0 || ptr == 0) ≡ false = ground arith in
    let further : (ptr % 4096 == 0) ≡ false = ground (arith, off) in
    rw (some, further, at_page, at_start, all)
      (Frees-at h page start ((len + 7) / 8) (clear_slots ((len + 7) / 8) start (h.bitmap page)) w
        (λ k lt. refl))

-- A block of slots in use, from slot `start` of a page on, is given back.
pub delete-Frees :
    (h : Heap) (page start len : ℕ)
    → IsHeap h
    → page % 4096 ≡ 0
    → 0 < page
    → 0 < len
    → len ≤ 4016
    → start + (len + 7) / 8 ≤ slots
    → ((x : ℕ) → start ≤ x → x < start + (len + 7) / 8 → h.bitmap page x ≡ true)
    → Frees h page start ((len + 7) / 8) (delete (page + 8 * start) len h)
delete-Frees h page zero len w aligned pos some_len short inside taken =
    let e : page + 8 * 0 ≡ page = omega arith in
    rw e (
      delete_front h page len w aligned pos some_len short
        (all_taken_lem ((len + 7) / 8) 0 (h.bitmap page) taken))
delete-Frees h page (suc s) len w aligned pos some_len short inside taken =
    delete_further h page (page + 8 * suc s) (suc s) len w (omega arith) some_len (omega arith)
      (omega arith) (omega arith) (all_taken_lem ((len + 7) / 8) (suc s) (h.bitmap page) taken)

-- ===== src/Heap/New.antt =====
-- An allocation takes slots that were free, and no others.
use mathlib.Core.Path.{subst}
use native.Mathlib.Decide.{dec_lt, ℕ_discrete}
use os_projet.Common.{
  ℕ, zero, suc, ◌+◌, ◌-◌, ◌*◌, ◌/◌, ◌%◌, ◌≤◌, ◌<◌, ◌≡◌, ◌≢◌, refl, sym, ap, ◌∙◌, Bool, true, false,
  ◌&&◌, ◌||◌, ◌==◌, if◌then◌else◌, ltb, leb, arith, ◌⊎◌, inl, inr, List, [], ◌∷◌, Option, none,
  some,
}
use os_projet.Heap.{
  Heap, Bitmap, slots, find_aperture, find_max_apertsize, take_slots, relink, put, first_page,
  Allocation, allocated, promised, beyond_head, new_in_page, new_pages, new,
}
use os_projet.Heap.Aperture.{
  IsRun, find_aperture_promised, find_max_apertsize-IsRun, find_max_apertsize_most,
}

abbrev pub IsIn : ℕ → List ℕ → Type 0
IsIn pg [] = ⊥
IsIn pg (x ∷ pgs) = (pg ≡ x) ⊎ IsIn pg pgs

abbrev pub Once : List ℕ → Type 0
Once [] = Unit
Once (x ∷ pgs) = (IsIn x pgs → ⊥) × Once pgs

-- Each list has pages with the greatest run that its number says, and each page once.
pub record IsHeap (h : Heap) : Type 0 where
  pub sizes : (i pg : ℕ) → IsIn pg (h.entry i) → find_max_apertsize (h.bitmap pg) ≡ i
  pub once : (i : ℕ) → Once (h.entry i)

-- The first list with a page.
abbrev First : ℕ → ℕ → (ℕ → List ℕ) → Option (ℕ × ℕ × List ℕ) → Type 0
First n i entry none = Unit
First n i entry (some (k, pg, pgs)) = (i ≤ k) × (entry k ≡ pg ∷ pgs)

first_page-First : (n i : ℕ) (entry : ℕ → List ℕ) → First n i entry (first_page n i entry)
unfolding first_page
first_page-First zero i entry = tt
first_page-First (suc n) i entry =
    go (entry i) refl (first_page n (suc i) entry) (first_page-First n (suc i) entry)
  where
    weaker : (r : Option (ℕ × ℕ × List ℕ)) → First n (suc i) entry r → First (suc n) i entry r
    weaker none f = tt
    weaker (some (k, pg, pgs)) (le, e) = (omega (arith, le), e)

    go :
        (l : List ℕ)
        → entry i ≡ l
        → (r : Option (ℕ × ℕ × List ℕ)) → First n (suc i) entry r
        → First (suc n) i entry (elim l [ [] ↦ r | pg ∷ pgs ↦ some (i, pg, pgs) ])
    go [] e r f = weaker r f
    go (pg ∷ pgs) e r f = (omega arith, e)

-- The page pg gets the bitmap b, and goes to the list of its greatest run, off every other list.
pub relinked :
    (h : Heap) (pg : ℕ) (b : Bitmap) (m : ℕ) (entry : ℕ → List ℕ)
    → find_max_apertsize b ≡ m
    → ((k : ℕ) → Once (entry k))
    → ((k x : ℕ) → IsIn x (entry k) → (x ≢ pg) × (find_max_apertsize (h.bitmap x) ≡ k))
    → IsHeap (record { bitmap = put pg b h.bitmap; entry = relink m pg entry })
relinked h pg b m entry e once sizes = record {
  sizes = λ k x. sized k x (ℕ_discrete k m);
  once = λ k. elim (ℕ_discrete k m) [
    | yes here ↦
        let t : (k == m) ≡ true = ground arith in
        rw t ((λ again. (sizes k pg again).0 refl), once k)
    | no other ↦ let t : (k == m) ≡ false = ground arith in rw t (once k)
  ];
}
  where
    old : (k x : ℕ) → IsIn x (entry k) → find_max_apertsize (put pg b h.bitmap x) ≡ k
    old k x i =
        let (ne, size) = sizes k x i in let t : (x == pg) ≡ false = ground (arith, ne) in rw t size

    new_one : (k x : ℕ) → k ≡ m → x ≡ pg → find_max_apertsize (put pg b h.bitmap x) ≡ k
    new_one k x here same = let t : (x == pg) ≡ true = ground arith in rw t (e ∙ sym here)

    sized :
        (k x : ℕ)
        → Dec (k ≡ m)
        → IsIn x (relink m pg entry k)
        → find_max_apertsize (put pg b h.bitmap x) ≡ k
    sized k x (yes here) i = let t : (k == m) ≡ true = ground arith in cases k x here (rw t at i)
      where
        cases :
            (k x : ℕ)
            → k ≡ m
            → (x ≡ pg) ⊎ IsIn x (entry k)
            → find_max_apertsize (put pg b h.bitmap x) ≡ k
        cases k x here (inl same) = new_one k x here same
        cases k x here (inr before) = old k x before
    sized k x (no other) i = let t : (k == m) ≡ false = ground arith in old k x (rw t at i)

-- n slots of the page pg were free, and are now taken; no other slot or page has changed.
pub record Placed (h h' : Heap) (pg offset n : ℕ) : Type 0 where
  pub was_free : IsRun (h.bitmap pg) offset n
  pub now :
      (x k : ℕ)
      → h'.bitmap x k
        ≡ (if x == pg && leb offset k && ltb k (offset + n) then true else h.bitmap x k)

pub record InPage (h h' : Heap) (slotlen a : ℕ) : Type 0 where
  pub page : ℕ
  pub offset : ℕ
  pub home : ℕ
  pub listed : IsIn page (h.entry home)
  pub address : a ≡ page + 8 * offset
  pub placed : Placed h h' page offset slotlen

-- The bitmap of the page q has its first n slots taken and the others free; no other page has changed.
pub record InNew (h h' : Heap) (q n : ℕ) : Type 0 where
  pub slots_of : (k : ℕ) → k < slots → h'.bitmap q k ≡ ltb k n
  pub others : (x k : ℕ) → x ≢ q → h'.bitmap x k ≡ h.bitmap x k

abbrev pub last_page : ℕ → ℕ → ℕ
last_page len p = p + 4096 * ((len + 16 + 64 + 4095) / 4096 - 1)

abbrev pub Allocates : ℕ → ℕ → Heap → Allocation → Type 0
Allocates len p h (allocated a h') =
    IsHeap h'
    × (InPage h h' ((len + 7) / 8) a
        ⊎ ((a ≡ p) × InNew h h' (last_page len p) ((len % 4096 + 7) / 8)))
Allocates len p h promised = ⊥
Allocates len p h beyond_head = ⊥

off_list :
    (h : Heap) (i pg : ℕ) (pgs : List ℕ)
    → IsHeap h
    → h.entry i ≡ pg ∷ pgs
    → ((k : ℕ) → Once (put i pgs h.entry k))
      × ((k x : ℕ)
          → IsIn x (put i pgs h.entry k)
          → (x ≢ pg) × (find_max_apertsize (h.bitmap x) ≡ k))
off_list h i pg pgs w e = (
  λ k. elim (ℕ_discrete k i) [
    | yes here ↦ let t : (k == i) ≡ true = ground arith in rw t (front.1)
    | no other ↦ let t : (k == i) ≡ false = ground arith in rw t (w.once k)
  ],
  λ k x m. where_is k x (ℕ_discrete k i) m,
)
  where
    front : Once (pg ∷ pgs)
    front = rw e at (w.once i)

    home : find_max_apertsize (h.bitmap pg) ≡ i
    home = w.sizes i pg (rw e (inl refl))

    where_is :
        (k x : ℕ)
        → Dec (k ≡ i)
        → IsIn x (put i pgs h.entry k)
        → (x ≢ pg) × (find_max_apertsize (h.bitmap x) ≡ k)
    where_is k x (yes here) m =
        let t : (k == i) ≡ true = ground arith in
        let m' : IsIn x pgs = rw t at m in
        (λ same. front.0 (rw same at m'), w.sizes i x (rw e (inr m')) ∙ sym here)
    where_is k x (no other) m =
        let t : (k == i) ≡ false = ground arith in
        let m' : IsIn x (h.entry k) = rw t at m in
        (λ same. other (sym (w.sizes k pg (rw same at m')) ∙ home), w.sizes k x m')

new_in_page-Allocates :
    (len p i pg : ℕ) (pgs : List ℕ) (h : Heap)
    → IsHeap h
    → 0 < len
    → (len + 7) / 8 ≤ i
    → h.entry i ≡ pg ∷ pgs
    → Allocates len p h (new_in_page ((len + 7) / 8) i pg pgs h)
unfolding new_in_page take_slots
new_in_page-Allocates len p i pg pgs h w pos le e =
    let n = (len + 7) / 8 in
    let on_list : IsIn pg (h.entry i) = rw e (inl refl) in
    let size = w.sizes i pg on_list in
    let (run, ne) =
      find_aperture_promised n (h.bitmap pg) (omega arith) (omega (arith, le, size)) in
    let offset = find_aperture n (h.bitmap pg) in
    let b = take_slots n offset (h.bitmap pg) in
    let kept : (offset == 503) ≡ false = ground (arith, ne) in
    let (once, sizes) = off_list h i pg pgs w e in
    rw kept (
      relinked h pg b (find_max_apertsize b) (put i pgs h.entry) refl once sizes,
      inl (record {
        page = pg;
        offset = offset;
        home = i;
        listed = on_list;
        address = refl;
        placed = record { was_free = run; now = λ x k. taken_lem x k n offset };
      }),
    )
  where
    taken_lem :
        (x k n offset : ℕ)
        → put pg (take_slots n offset (h.bitmap pg)) h.bitmap x k
          ≡ (if x == pg && leb offset k && ltb k (offset + n) then true else h.bitmap x k)
    taken_lem x k n offset = elim (ℕ_discrete x pg) [
      | yes same ↦ ground (arith, same, ap (λ y. h.bitmap y k) same)
      | no other ↦ ground (arith, other)
    ]

-- The greatest run behind n taken slots.
pub fresh_size :
    (b : Bitmap) (n : ℕ)
    → n ≤ slots
    → ((k : ℕ) → k < slots → b k ≡ ltb k n)
    → find_max_apertsize b ≡ slots - n
fresh_size b n le h =
    let (r, run) = find_max_apertsize-IsRun b in
    let behind =
      find_max_apertsize_most b n (slots - n)
        (record { inside = omega arith; free = λ x low high. h x (omega arith) ∙ ground arith }) in
    elim (ℕ_discrete (find_max_apertsize b) 0) [
      | yes none_free ↦ omega (arith, behind, none_free)
      | no some_free ↦ (elim (dec_lt r n) [
        | no free_side ↦ omega (arith, behind, run.inside)
        | yes taken_side ↦
            let free_here = run.free r (omega arith) (omega arith) in
            let taken_here : b r ≡ true = h r (omega (arith, run.inside)) ∙ ground arith in
            absurd (both taken_here free_here)
      ])
    ]
  where
    both : {v : Bool} → v ≡ true → v ≡ false → ⊥
    both e e' = cc

new_pages-Allocates :
    (len p : ℕ) (h : Heap)
    → IsHeap h
    → len % 4096 ≤ 4016
    → ((k : ℕ) → IsIn (last_page len p) (h.entry k) → ⊥)
    → Allocates len p h (new_pages len p h)
unfolding new_pages
new_pages-Allocates len p h w fits fresh =
    let n = (len % 4096 + 7) / 8 in
    let q = last_page len p in
    let le : leb n slots ≡ true = ground (arith, fits) in
    let b : Bitmap = λ k.
      (k == 511 && ltb 1 ((len + 16 + 64 + 4095) / 4096))
      || (if ltb k n then true else if ltb k slots then false else h.bitmap q k) in
    let of_slot : (k : ℕ) → k < slots → b k ≡ ltb k n = λ k lt. ground arith in
    rw le (
      relinked h q b (slots - n) h.entry (fresh_size b n (omega (arith, fits)) of_slot) w.once
          (λ k x m. ((λ same. fresh k (subst (λ y. IsIn y (h.entry k)) same m)), w.sizes k x m)),
      inr (
        refl,
        record {
          slots_of = λ k lt. let t : (q == q) ≡ true = ground arith in rw t (of_slot k lt);
          others = λ x k ne. let t : (x == q) ≡ false = ground (arith, ne) in rw t refl;
        },
      ),
    )

pub new-Allocates :
    (len p : ℕ) (h : Heap)
    → IsHeap h
    → 0 < len
    → len % 4096 ≤ 4016
    → ((k : ℕ) → IsIn (last_page len p) (h.entry k) → ⊥)
    → Allocates len p h (new len p h)
unfolding new
new-Allocates len p h w pos fits fresh =
    go (first_page (503 - (len + 7) / 8) ((len + 7) / 8) h.entry)
      (first_page-First (503 - (len + 7) / 8) ((len + 7) / 8) h.entry)
  where
    go :
        (r : Option (ℕ × ℕ × List ℕ))
        → First (503 - (len + 7) / 8) ((len + 7) / 8) h.entry r
        → Allocates len p h (elim r [
          | none ↦ new_pages len p h
          | some (i, pg, pgs) ↦ new_in_page ((len + 7) / 8) i pg pgs h
        ])
    go none f = new_pages-Allocates len p h w fits fresh
    go (some (i, pg, pgs)) (le, e) = new_in_page-Allocates len p i pg pgs h w pos le e

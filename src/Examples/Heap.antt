-- ===== src/Examples/Heap.antt =====
-- A heap with one page, whose first slot is taken.
use native.Mathlib.Decide.{ℕ_discrete}
use os_projet.Common.{
  ℕ, ◌≡◌, ◌==◌, ◌∙◌, sym, refl, true, false, List, [], ◌∷◌, if◌then◌else◌, ltb, arith, inl, inr,
}
use os_projet.Heap.{Heap, Bitmap, new}
use os_projet.Heap.New.{IsIn, IsHeap, fresh_size}
use os_projet.Heap.RoundTrip.{Restored, IsPage, new-Restored}

abbrev bits : Bitmap
bits k = ltb k 1

abbrev lists : ℕ → List ℕ
lists k = if k == 501 then 4096 ∷ [] else []

abbrev heap : Heap
heap = record { bitmap = λ pg. bits; entry = lists }

listed : (i pg : ℕ) → IsIn pg (lists i) → (i ≡ 501) × (pg ≡ 4096)
listed i pg m = elim (ℕ_discrete i 501) [
  | yes here ↦
      let t : (i == 501) ≡ true = ground arith in
      let m' : IsIn pg (4096 ∷ []) = rw t at m in
      (here, elim m' [ inl e ↦ e | inr nothing ↦ absurd nothing ])
  | no other ↦
      let t : (i == 501) ≡ false = ground arith in let m' : IsIn pg [] = rw t at m in absurd m'
]

heap-IsHeap : IsHeap heap
heap-IsHeap = record {
  sizes = λ i pg m. fresh_size bits 1 (omega arith) (λ k lt. refl) ∙ sym ((listed i pg m).0);
  once = λ i. elim (ℕ_discrete i 501) [
    | yes here ↦ let t : (i == 501) ≡ true = ground arith in rw t ((λ m. m), tt)
    | no other ↦ let t : (i == 501) ≡ false = ground arith in rw t tt
  ];
}

new_page_elsewhere : (k : ℕ) → IsIn 8192 (lists k) → ⊥
new_page_elsewhere k m = let e = (listed k 8192 m).1 in absurd (omega (arith, e))

pages : (i pg : ℕ) → IsIn pg (lists i) → IsPage pg
pages i pg m = let e = (listed i pg m).1 in (omega (arith, e), omega (arith, e))

new-Restored_example : Restored 16 heap (new 16 8192 heap)
new-Restored_example =
    new-Restored 16 8192 heap heap-IsHeap (omega arith) (omega arith) pages
      (omega arith, omega arith) new_page_elsewhere

-- ===== src/Heap/Aperture.antt =====
-- The searches in a bitmap find what they promise.
use os_projet.Common.{
  ℕ, zero, suc, ◌+◌, ◌-◌, ◌≤◌, ◌<◌, ◌≡◌, ◌≢◌, refl, sym, ap, ◌∙◌, Bool, true, false, ◌==◌,
  if◌then◌else◌, ltb, leb, min, arith, ◌⊎◌, inl, inr, Bool-cases,
}
use native.Mathlib.Decide.{dec_lt, ℕ_discrete}
use os_projet.Heap.{
  Bitmap, slots, free_run, aperture_from, find_aperture, apertsize_from, find_max_apertsize,
}

-- n free slots from r on.
pub record IsRun (b : Bitmap) (r n : ℕ) : Type 0 where
  pub inside : r + n ≤ slots
  pub free : (x : ℕ) → r ≤ x → x < r + n → b x ≡ false

record Run (n : ℕ) (b : Bitmap) (offset j : ℕ) : Type 0 where
  short : j ≤ n
  free : (x : ℕ) → offset ≤ x → x < offset + j → b x ≡ false
  stops : j < n → b (offset + j) ≡ true

free_run-Run : (n : ℕ) (b : Bitmap) (offset : ℕ) → Run n b offset (free_run n b offset)
unfolding free_run
free_run-Run zero b offset = record {
  short = omega arith;
  free = λ x le lt. absurd (omega arith);
  stops = λ h. absurd (omega arith);
}
free_run-Run (suc n) b offset = elim (Bool-cases (b offset)) [
  | inl taken ↦ rw taken (record {
    short = omega arith;
    free = λ x le lt. absurd (omega arith);
    stops = λ h. let e : offset + 0 ≡ offset = omega arith in ap b e ∙ taken;
  })
  | inr here ↦
      let rest = free_run-Run n b (offset + 1) in
      rw here (record {
        short = omega (arith, rest.short);
        free = λ x le lt. elim (ℕ_discrete x offset) [
          | yes e ↦ ap b e ∙ here
          | no ne ↦ rest.free x (omega arith) (omega arith)
        ];
        stops = λ h.
            let e : offset + 1 + free_run n b (offset + 1)
                ≡ offset + suc (free_run n b (offset + 1)) =
              omega arith in
            sym (ap b e) ∙ rest.stops (omega arith);
      })
]

-- What the loop from an offset finds: the first run from there on, or that there is none.
abbrev pub Finds : ℕ → Bitmap → ℕ → ℕ → Type 0
Finds slotlen b offset r =
    (IsRun b r slotlen × ((x : ℕ) → offset ≤ x → IsRun b x slotlen → r ≤ x))
    ⊎ ((slots < r + slotlen) × ((x : ℕ) → offset ≤ x → IsRun b x slotlen → ⊥))

-- A free slot is not a taken one.
not_both : {v : Bool} → v ≡ true → v ≡ false → ⊥
not_both e e' = cc

-- A run does not start at the slots that were passed over.
skips :
    (slotlen : ℕ) (b : Bitmap) (offset j x : ℕ)
    → Run (min slotlen (slots - offset)) b offset j
    → offset < slots
    → j ≢ slotlen
    → offset ≤ x
    → IsRun b x slotlen
    → offset + (j + 1) ≤ x
skips slotlen b offset j x run within missed le other = elim (dec_lt (offset + j) x) [
  | yes behind ↦ omega (arith, behind)
  | no reached ↦ (elim (dec_lt j (min slotlen (slots - offset))) [
    | yes taken ↦ absurd (
        not_both (run.stops taken)
          (other.free (offset + j) (omega arith) (omega (arith, run.short))))
    | no cut ↦ absurd (omega (arith, run.short, other.inside))
  ])
]

later :
    (slotlen : ℕ) (b : Bitmap) (offset j r : ℕ)
    → Run (min slotlen (slots - offset)) b offset j
    → offset < slots
    → j ≢ slotlen
    → Finds slotlen b (offset + (j + 1)) r
    → Finds slotlen b offset r
later slotlen b offset j r run within missed (inl (run', first)) =
    inl (run', λ x le other. first x (skips slotlen b offset j x run within missed le other) other)
later slotlen b offset j r run within missed (inr (behind, none_yet)) =
    inr (
      behind,
      λ x le other. none_yet x (skips slotlen b offset j x run within missed le other) other,
    )

aperture_from-Finds :
    (f slotlen : ℕ) (b : Bitmap) (offset : ℕ)
    → 0 < slotlen
    → slots < offset + f
    → Finds slotlen b offset (aperture_from f slotlen b offset)
unfolding aperture_from
aperture_from-Finds zero slotlen b offset h fuel =
    inr (omega arith, λ x le run. omega (arith, run.inside))
aperture_from-Finds (suc f) slotlen b offset h fuel = elim (dec_lt offset slots) [
  | no over ↦
      let e : ltb offset slots ≡ false = ground arith in
      rw e (inr (omega arith, λ x le run. omega (arith, run.inside)))
  | yes within ↦
      let e : ltb offset slots ≡ true = ground arith in
      let j = free_run (min slotlen (slots - offset)) b offset in
      let run = free_run-Run (min slotlen (slots - offset)) b offset in
      let rest = aperture_from-Finds f slotlen b (offset + (j + 1)) h (omega arith) in
      rw e (elim (ℕ_discrete j slotlen) [
        | yes found ↦
            let e' : (j == slotlen) ≡ true = ground arith in
            rw e' (
              inl (
                record {
                  inside = omega (arith, run.short);
                  free = λ x le lt. run.free x le (omega arith);
                },
                λ x le other. le,
              ))
        | no missed ↦
            let e' : (j == slotlen) ≡ false = ground arith in
            rw e' (
              later slotlen b offset j (aperture_from f slotlen b (offset + (j + 1))) run within
                missed rest)
      ])
]

-- What the search returns.
abbrev pub Found : ℕ → Bitmap → ℕ → Type 0
Found slotlen b r =
    (IsRun b r slotlen × (r ≢ 503) × ((x : ℕ) → IsRun b x slotlen → r ≤ x))
    ⊎ ((r ≡ 503) × ((x : ℕ) → IsRun b x slotlen → ⊥))

-- For a number of slots that is not 0 the search returns the first place in the page where as many slots
-- in a row are free, and 503 exactly where there is none.
pub find_aperture-Found :
    (slotlen : ℕ) (b : Bitmap) → 0 < slotlen → Found slotlen b (find_aperture slotlen b)
unfolding find_aperture
find_aperture-Found slotlen b h =
    go (aperture_from 503 slotlen b 0) (aperture_from-Finds 503 slotlen b 0 h (omega arith))
  where
    go :
        (o : ℕ) → Finds slotlen b 0 o → Found slotlen b (if leb (o + slotlen) slots then o else 503)
    go o (inl (run, first)) =
        let e : leb (o + slotlen) slots ≡ true = ground (arith, run.inside) in
        rw e (inl (run, omega (arith, run.inside), λ x other. first x (omega arith) other))
    go o (inr (behind, none_yet)) =
        let e : leb (o + slotlen) slots ≡ false = ground (arith, behind) in
        rw e (inr (refl, λ x other. none_yet x (omega arith) other))

-- A run of the greatest size so far is somewhere in the page.
apertsize_from-IsRun :
    (f : ℕ) (b : Bitmap) (offset maxsize : ℕ)
    → ((r : ℕ) × IsRun b r maxsize)
    → (r : ℕ) × IsRun b r (apertsize_from f b offset maxsize)
unfolding apertsize_from
apertsize_from-IsRun zero b offset maxsize r = r
apertsize_from-IsRun (suc f) b offset maxsize r = elim (dec_lt offset slots) [
  | no over ↦ let e : ltb offset slots ≡ false = ground arith in rw e r
  | yes within ↦
      let e : ltb offset slots ≡ true = ground arith in
      let j = free_run (slots - offset) b offset in
      let run = free_run-Run (slots - offset) b offset in
      let best : (r : ℕ) × IsRun b r (if ltb maxsize j then j else maxsize) =
        elim (dec_lt maxsize j) [
          | yes more ↦
              let e' : ltb maxsize j ≡ true = ground arith in
              rw e' (offset, record { inside = omega (arith, run.short); free = run.free })
          | no less ↦ let e' : ltb maxsize j ≡ false = ground arith in rw e' r
        ] in
      rw e (apertsize_from-IsRun f b (offset + (j + 1)) (if ltb maxsize j then j else maxsize) best)
]

-- A run as long as find_max_apertsize says is somewhere in the page.
pub find_max_apertsize-IsRun : (b : Bitmap) → (r : ℕ) × IsRun b r (find_max_apertsize b)
unfolding find_max_apertsize
find_max_apertsize-IsRun b =
    apertsize_from-IsRun 503 b 0 0
      (0, record { inside = omega arith; free = λ x le lt. absurd (omega arith) })

-- A page whose greatest run is long enough has a place.
pub find_aperture_promised :
    (slotlen : ℕ) (b : Bitmap)
    → 0 < slotlen
    → slotlen ≤ find_max_apertsize b
    → IsRun b (find_aperture slotlen b) slotlen × (find_aperture slotlen b ≢ 503)
find_aperture_promised slotlen b h le =
    let (r, run) = find_max_apertsize-IsRun b in
    go (find_aperture-Found slotlen b h) r (record {
      inside = omega (arith, run.inside);
      free = λ x low high. run.free x low (omega arith);
    })
  where
    go :
        Found slotlen b (find_aperture slotlen b)
        → (r : ℕ) → IsRun b r slotlen
        → IsRun b (find_aperture slotlen b) slotlen × (find_aperture slotlen b ≢ 503)
    go (inl (run, ne, first)) r other = (run, ne)
    go (inr (e, none_yet)) r other = absurd (none_yet r other)

-- A run that starts at the slots passed over is no longer than they are.
covered :
    (b : Bitmap) (offset j x n : ℕ)
    → Run (slots - offset) b offset j
    → offset < slots
    → offset ≤ x
    → x ≤ offset + j
    → IsRun b x n
    → n ≤ j
covered b offset j x n run within le high other = elim (dec_lt j n) [
  | no most ↦ omega (arith, most)
  | yes more ↦ (elim (dec_lt j (slots - offset)) [
    | yes taken ↦ absurd (
        not_both (run.stops taken)
          (other.free (offset + j) (omega arith) (omega (arith, run.short))))
    | no cut ↦ absurd (omega (arith, run.short, other.inside))
  ])
]

apertsize_from-most :
    (f : ℕ) (b : Bitmap) (offset maxsize : ℕ)
    → slots < offset + f
    → (maxsize ≤ apertsize_from f b offset maxsize)
      × ((x n : ℕ) → offset ≤ x → IsRun b x n → n ≤ apertsize_from f b offset maxsize)
unfolding apertsize_from
apertsize_from-most zero b offset maxsize fuel =
    (omega arith, λ x n le other. omega (arith, other.inside))
apertsize_from-most (suc f) b offset maxsize fuel = elim (dec_lt offset slots) [
  | no over ↦
      let e : ltb offset slots ≡ false = ground arith in
      rw e (omega arith, λ x n le other. omega (arith, other.inside))
  | yes within ↦
      let e : ltb offset slots ≡ true = ground arith in
      let j = free_run (slots - offset) b offset in
      let run = free_run-Run (slots - offset) b offset in
      let best = if ltb maxsize j then j else maxsize in
      let more : maxsize ≤ best = ground arith in
      let more' : j ≤ best = ground arith in
      let (grows, most) = apertsize_from-most f b (offset + (j + 1)) best (omega arith) in
      rw e (
        omega (arith, more, grows),
        λ x n le other. elim (dec_lt (offset + j) x) [
          | yes behind ↦ most x n (omega arith) other
          | no reached ↦
              omega (arith, covered b offset j x n run within le (omega arith) other, more', grows)
        ],
      )
]

-- No run in the page is longer than find_max_apertsize says.
pub find_max_apertsize_most : (b : Bitmap) (x n : ℕ) → IsRun b x n → n ≤ find_max_apertsize b
unfolding find_max_apertsize
find_max_apertsize_most b x n run =
    (apertsize_from-most 503 b 0 0 (omega arith)).1 x n (omega arith) run

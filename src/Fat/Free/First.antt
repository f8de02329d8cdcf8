-- ===== src/Fat/Free/First.antt =====
-- The cluster that the search returns is the first with an entry of 0, for FAT16 and FAT32.
use os_projet.Common.{ℕ, zero, suc, ◌+◌, ◌*◌, ◌<◌, ◌≤◌, ◌≡◌, ◌≢◌, refl, arith, ap, sym, ◌∙◌, ◌⊎◌}
use native.Mathlib.Decide.{dec_lt, ℕ_discrete}
use os_projet.Cstring.Memory.{Bytes}
use os_projet.Fat.Disk.{Disk, read_le}
use os_projet.Fat.Table.{FatType, fat_offset, decode, entry_bytes, odd}
use os_projet.Fat.Table.Entry.{entry}
use os_projet.Fat.Free.{scan}

-- What the search from entry i on over n entries answers.
pub record FirstFree (t : FatType) (b : ℕ) (m : Bytes) (n i r : ℕ) : Type 0 where
  pub found : r ≢ 0 → (i ≤ r) × (r < i + n) × (entry t b m r ≡ 0)
  pub before : (j : ℕ) → i ≤ j → j < i + n → (r ≡ 0) ⊎ (j < r) → entry t b m j ≢ 0

-- The formats whose entries stand one after the other.
abbrev pub IsPlain : FatType → Type 0
IsPlain t = (i : ℕ) → fat_offset t i ≡ i * entry_bytes t

next_place : (b i k : ℕ) → b + i * k + k ≡ b + suc i * k
next_place b i k = omega arith

module _ (t : FatType) (b : ℕ) (plain : IsPlain t) where
  value_here :
      (i : ℕ) (d : Disk)
      → d.pos ≡ b + i * entry_bytes t
      → decode t (odd i) (read_le (entry_bytes t) d.bytes d.pos) ≡ entry t b d.bytes i
  value_here i d hp =
      ap (λ p. decode t (odd i) (read_le (entry_bytes t) d.bytes p))
        (hp ∙ ap (λ x. b + x) (sym (plain i)))

  scan_here :
      (n i : ℕ) (d : Disk)
      → d.pos ≡ b + i * entry_bytes t
      → entry t b d.bytes i ≡ 0
      → (scan t (suc n) i d).0 ≡ i
  unfolding scan
  scan_here n i d hp e = ground (arith, value_here i d hp ∙ e)

  abbrev moved : ℕ → Disk → Disk
  moved i d = record { bytes = d.bytes; pos = d.pos + entry_bytes t }

  scan_on :
      (n i : ℕ) (d : Disk)
      → d.pos ≡ b + i * entry_bytes t
      → entry t b d.bytes i ≢ 0
      → (scan t (suc n) i d).0 ≡ (scan t n (suc i) (moved i d)).0
  unfolding scan
  scan_on n i d hp e = ground (arith, value_here i d hp, e)

  moved_place :
      (i : ℕ) (d : Disk)
      → d.pos ≡ b + i * entry_bytes t
      → (moved i d).pos ≡ b + suc i * entry_bytes t
  moved_place i d hp = ap (λ x. x + entry_bytes t) hp ∙ next_place b i (entry_bytes t)

  scan-FirstFree :
      (n i : ℕ) (d : Disk)
      → 0 < i
      → d.pos ≡ b + i * entry_bytes t
      → FirstFree t b d.bytes n i (scan t n i d).0
  scan-FirstFree zero i d pos hp = record {
    found = λ h. absurd (h (unfold scan in refl));
    before = λ j le lt. absurd (omega arith);
  }
  scan-FirstFree (suc n) i d pos hp = elim (ℕ_discrete (entry t b d.bytes i) 0) [
    | yes free ↦ rw (scan_here n i d hp free) record {
      found = λ h. (omega arith, omega arith, free);
      before = λ j le lt c e. omega arith;
    }
    | no used ↦
        let rest = scan-FirstFree n (suc i) (moved i d) (omega arith) (moved_place i d hp) in
        rw (scan_on n i d hp used) record {
          found = λ h. let f = rest.found h in (omega (arith, f.0), omega (arith, f.1), f.2);
          before = λ j le lt c. elim (dec_lt i j) [
            | yes later ↦ rest.before j later (omega arith) c
            | no here ↦ let e : j ≡ i = omega arith in rw e used
          ];
        }
  ]

pub bytes-scan : (t : FatType) (n i : ℕ) (d : Disk) → (scan t n i d).1.bytes ≡ d.bytes
unfolding scan
bytes-scan t zero i d = refl
bytes-scan t (suc n) i d =
    ground (arith, bytes-scan t n (suc i) (record { bytes = d.bytes; pos = d.pos + entry_bytes t }))

-- From a first entry that is in use, the search in a table of n entries of FAT16 or FAT32 answers the
-- first cluster whose entry is 0, and 0 where all are in use.
pub scan_start :
    (t : FatType) (b n : ℕ) (d : Disk)
    → IsPlain t
    → d.pos ≡ b
    → entry t b d.bytes 0 ≢ 0
    → FirstFree t b d.bytes n 0 (scan t n 0 d).0
scan_start t b zero d plain hp used = record {
  found = λ h. absurd (h (unfold scan in refl));
  before = λ j le lt. absurd (omega arith);
}
scan_start t b (suc n) d plain hp used =
    let at_b : d.pos ≡ b + 0 * entry_bytes t = omega arith in
    let rest =
      scan-FirstFree t b plain n 1 (moved t b plain 0 d) (omega arith)
        (moved_place t b plain 0 d at_b) in
    rw (scan_on t b plain n 0 d at_b used) record {
      found = λ h. let f = rest.found h in (omega arith, omega (arith, f.1), f.2);
      before = λ j le lt c. elim (dec_lt 0 j) [
        | yes later ↦ rest.before j later (omega arith) c
        | no here ↦ let e : j ≡ 0 = omega arith in rw e used
      ];
    }

-- ===== src/Fat/File/Seek.antt =====
-- Where a seek puts the file.
use os_projet.Common.{
  ℕ, zero, suc, ◌+◌, ◌-◌, ◌*◌, ◌<◌, ◌≤◌, ◌≡◌, ◌≢◌, refl, ◌⊎◌, inl, inr, ap, ◌∙◌, leb, ltb, ◌==◌,
  ◌||◌, ◌&&◌, arith,
}
use os_projet.Fat.Disk.{Disk}
use os_projet.Fat.Table.{FatFileSystem}
use os_projet.Fat.File.{
  File, Outcome, ok, throw, out_of_fuel, next_cluster, seek_cluster, walk, set_position,
}
use os_projet.Fat.File.Read.{
  Holds, bind-Holds, if-Holds, Same, next_cluster-Same, seek_cluster-Same,
}

-- The rest of the position once whole clusters are taken off.
pub record IsRest (cluster_size position rest : ℕ) : Type 0 where
  pub short : rest < cluster_size
  pub whole : (k : ℕ) × (position ≡ k * cluster_size + rest)

abbrev Walks : FatFileSystem → ℕ → File → ℕ × ℕ → File → Type 0
Walks s position f r f' = (f' ≡ f) × IsRest s.cluster_size position r.1

IsRest-more : (c p r : ℕ) → c ≤ p → IsRest c (p - c) r → IsRest c p r
IsRest-more c p r le h = record {
  short = h.short;
  whole = (suc (h.whole.0), omega (arith, h.whole.1));
}

weaken :
    (s : FatFileSystem) (position : ℕ) (f f1 : File) (o : Outcome (ℕ × ℕ))
    → f1 ≡ f
    → s.cluster_size ≤ position
    → Holds (Walks s (position - s.cluster_size) f1) o
    → Holds (Walks s position f) o
weaken s position f f1 (ok r f' d') e le h =
    (h.0 ∙ e, IsRest-more s.cluster_size position r.1 le h.1)
weaken s position f f1 (throw why f' d') e le h = tt
weaken s position f f1 out_of_fuel e le h = h

walk-Walks :
    (n : ℕ) (s : FatFileSystem) (position c : ℕ) (f : File) (d : Disk)
    → 0 < s.cluster_size
    → position < n
    → Holds (Walks s position f) (walk n s position c f d)
unfolding walk
walk-Walks zero s position c f d h lt = elim lt [ ]
walk-Walks (suc n) s position c f d h lt =
    if-Holds (Walks s position f) (leb s.cluster_size position) _ _
      (λ more.
        bind-Holds (Same f) _ (next_cluster s c f d) _ (next_cluster-Same s c f d) (λ c' f1 d1 e1.
          weaken s position f f1 (walk n s (position - s.cluster_size) c' f1 d1) e1 (ground arith)
            (walk-Walks n s (position - s.cluster_size) c' f1 d1 h (ground arith))))
      (λ less. (refl, record { short = ground arith; whole = (0, omega arith) }))

-- What a seek to a new position returns and sets.
abbrev pub Places : FatFileSystem → ℕ → File → ℕ → File → Type 0
Places s position f p f' =
    ((position ≡ f.position) × (p ≡ position) × (f' ≡ f))
    ⊎ ((position ≢ f.position)
        × (position ≤ f.file_size)
        × (f'.position ≡ position)
        × (f'.within_cluster ≡ p)
        × (f'.file_size ≡ f.file_size)
        × IsRest s.cluster_size position p)

-- Where clusters are not empty, a seek ends. Where it does not throw: to the present position it changes
-- nothing and returns it; to another one it stays within the file, sets the position, and sets the
-- position within the cluster to the rest after whole clusters, which is also what it returns.
pub set_position-Places :
    (s : FatFileSystem) (position : ℕ) (f : File) (d : Disk)
    → 0 < s.cluster_size
    → Holds (Places s position f) (set_position s position f d)
unfolding set_position
set_position-Places s position f d h =
    let g : File = record f { position = position } in
    if-Holds (Places s position f) (position == f.position) _ _
      (λ here. inl (ground arith, refl, refl))
      (λ away.
        if-Holds (Places s position f)
          (f.file_size == 0 && ltb 0 position || ltb 0 f.file_size && leb f.file_size position) _ _
          (λ outside. tt)
          (λ within.
            bind-Holds (Walks s position g) _ (walk (suc position) s position f.first_cluster g d) _
              (walk-Walks (suc position) s position f.first_cluster g d h (omega arith))
              (λ r f1 d1 e1.
                bind-Holds (Same f1) _ (seek_cluster s r.0 r.1 f1 d1) _
                  (seek_cluster-Same s r.0 r.1 f1 d1)
                  (λ u f2 d2 e2.
                    let same1 = ap (λ x. x.position) (e2 ∙ e1.0) in
                    let same2 = ap (λ x. x.file_size) (e2 ∙ e1.0) in
                    inr (ground arith, ground arith, same1, refl, same2, e1.1)))))

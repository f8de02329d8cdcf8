-- ===== src/Fat/Dir/Stack.antt =====
-- What push and pop do to the stack of directories.
use native.Mathlib.Decide.{ℕ_discrete}
use os_projet.Common.{
  ◌∷◌, ℕ, zero, suc, ◌+◌, ◌-◌, ◌≤◌, ◌≡◌, ◌≢◌, refl, true, false, List, length, arith, ap, sym,
  if◌then◌else◌, ◌==◌, ◌⊎◌, inl, inr, Bool-cases,
}
use os_projet.Cstring.Memory.{Bytes}
use os_projet.Fat.Disk.{Disk}
use os_projet.Fat.Table.{FatFileSystem}
use os_projet.Fat.Dir.Ends.{Ended, ChainEnds, search-Ended}
use os_projet.Fat.Dir.{DirError, Search, found, absent, thrown, exhausted}
use os_projet.Fs.{Status, dir_entry, file_entry, np, ok, failed, out_of_fuel, Settles}
use os_projet.Fat.Dir.Iterator.{
  in_clusters, DirIterator, read_entry, names_directory, search, push_cluster_copy, push_root_copy,
  push, pop, enter, current_cluster, depth, name_at, path,
}

-- The stack fits, and the iterator stands in the directory on top.
pub record IsIterator (s : FatFileSystem) (it : DirIterator) : Type 0 where
  pub fits : depth it ≤ it.stack_size
  pub here : it.first_cluster_here ≡ current_cluster s it.stack

full_test :
    (it : DirIterator) → depth it ≡ it.stack_size → (length it.stack == it.stack_size) ≡ true
unfolding depth
full_test it h = ground arith

room_test :
    (it : DirIterator) → depth it ≢ it.stack_size → (length it.stack == it.stack_size) ≡ false
unfolding depth
room_test it h = ground arith

-- What a push that does not throw leaves: a directory was entered, or nothing changed.
abbrev pub Pushed : FatFileSystem → DirIterator → List ℕ → Status → DirIterator → Type 0
Pushed s it target status it' =
    IsIterator s it'
    × (((status ≡ dir_entry)
          × (depth it' ≡ depth it + 1)
          × (name_at it' (depth it) ≡ ok target)
          × (path it' ≡ target ∷ path it)
          × (pop s it' ≡ ok it))
        ⊎ ((status ≢ dir_entry) × (it' ≡ it)))

abbrev pub PushedTo : FatFileSystem → DirIterator → List ℕ → Status × DirIterator × Disk → Type 0
PushedTo s it target r = Pushed s it target r.0 r.1

pop-enter :
    (s : FatFileSystem) (it : DirIterator) (target : List ℕ) (p : ℕ) (m : Bytes)
    → IsIterator s it
    → pop s (enter target p m it) ≡ ok it
unfolding pop enter
pop-enter s it target p m h = ap (λ c. ok (record it { first_cluster_here = c })) (sym (h.here))

name_at-enter :
    (it : DirIterator) (target : List ℕ) (p : ℕ) (m : Bytes)
    → name_at (enter target p m it) (depth it) ≡ ok target
unfolding name_at enter depth
name_at-enter it target p m =
    let e : suc (length it.stack) - 1 - length it.stack ≡ zero = omega arith in rw e (ground arith)

enter-Pushed :
    (s : FatFileSystem) (it : DirIterator) (target : List ℕ) (p : ℕ) (m : Bytes)
    → IsIterator s it
    → depth it ≢ it.stack_size
    → Pushed s it target dir_entry (enter target p m it)
unfolding enter depth current_cluster
enter-Pushed s it target p m h room = (
  record { fits = omega (arith, h.fits); here = refl },
  inl (refl, omega arith, name_at-enter it target p m, refl, pop-enter s it target p m h),
)

-- What push returns: the iterator as described, and the disk with its bytes.
abbrev pub PushedOn :
    FatFileSystem → DirIterator → List ℕ → Bytes → Status × DirIterator × Disk → Type 0
PushedOn s it target m r = PushedTo s it target r × ((r.2).bytes ≡ m)

-- On an iterator whose stack fits its size and which stands in the directory on top, and where the chain
-- of the clusters of that directory, if it is in clusters, ends within the fuel: a push does not run out
-- of fuel; where it does not throw, it either answers with a directory, where the depth has grown by one,
-- the name pushed is on top, in front of the path before, and a pop leads back to the iterator as it was,
-- or has another answer and leaves the iterator as it was; the iterator that it leaves again fits and stands in
-- its top directory, and no byte of the disk has changed.
pub push-PushedOn :
    (f : ℕ) (s : FatFileSystem) (junk : ℕ → Bytes) (it : DirIterator) (target : List ℕ) (d : Disk)
    → IsIterator s it
    → (in_clusters s it ≡ true → ChainEnds f s d.bytes it.first_cluster_here)
    → Settles (PushedOn s it target d.bytes) (push f s junk it target d)
unfolding push
push-PushedOn f s junk it target d h chain = elim (ℕ_discrete (depth it) it.stack_size) [
  | yes full ↦ rw (full_test it full) tt
  | no room ↦ rw (room_test it room) (
      go (search push_cluster_copy push_root_copy f s junk it target d) room
        (search-Ended push_cluster_copy push_root_copy f s junk it target d chain))
]
  where
    go :
        (r : Search)
        → depth it ≢ it.stack_size
        → Ended d.bytes r
        → Settles {E = DirError} (PushedOn s it target d.bytes) (elim r [
          | found p d' ↦
              if names_directory (read_entry d.bytes p)
              then ok (dir_entry, enter target p d.bytes it, d')
              else ok (file_entry, it, record d' { pos = p + 32 })
          | absent d' ↦ ok (np, it, d')
          | thrown e ↦ failed e
          | exhausted ↦ out_of_fuel
        ])
    go (found p d') room e = elim (Bool-cases (names_directory (read_entry d.bytes p))) [
      | inl dir ↦ rw dir (enter-Pushed s it target p d.bytes h room, e)
      | inr file ↦ rw file ((h, inr (λ e. cc, refl)), e)
    ]
    go (absent d') room e = ((h, inr (λ e. cc, refl)), e)
    go (thrown x) room e = tt
    go exhausted room e = e

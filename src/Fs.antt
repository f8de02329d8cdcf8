-- ===== src/Fs.antt =====
-- The file system layer of kernel/fs: the answers of a directory iterator (concepts.hh), and results of
-- code that throws or that may run out of fuel.
pub mod Coherent
pub mod MemFile
pub mod Rootfs
use os_projet.Common.{ℕ, ◌-◌, ◌^◌, List, [], ◌∷◌, Bool}

-- `enum drit_status`
pub data Status : Type 0 where
  dir_entry file_entry link_entry underrun np : Status

pub data Outcome {ℓ} (E : Type 0) (A : Type ℓ) : Type ℓ where
  ok : A → Outcome E A
  failed : E → Outcome E A
  out_of_fuel : Outcome E A

-- `struct dirlist_token`
pub record Token : Type 0 where
  pub name : List ℕ
  pub is_directory : Bool
  pub file_size : ℕ

-- The token in front is copied without its size, which becomes -1.
abbrev pub unsized : List Token → List Token
unsized [] = []
unsized (t ∷ ts) = record t { file_size = 2 ^ 64 - 1 } ∷ ts

module _ {ℓ κ} {E : Type 0} {A : Type ℓ} {B : Type κ} where
  -- What follows where nothing was thrown.
  abbrev pub bind : Outcome E A → (A → Outcome E B) → Outcome E B
  bind (ok a) k = k a
  bind (failed e) k = failed e
  bind out_of_fuel k = out_of_fuel

-- What holds of what an operation returns, where it does not fail.
abbrev pub Yields {ℓ} : {E : Type 0} → {A : Type ℓ} → (A → Type 0) → Outcome E A → Type 0
Yields P (ok a) = P a
Yields P (failed e) = Unit
Yields P out_of_fuel = Unit

module _ {ℓ} {E : Type 0} {A : Type ℓ} where
  pub Yields-map :
      (P Q : A → Type 0) (r : Outcome E A) → ((a : A) → P a → Q a) → Yields P r → Yields Q r
  Yields-map P Q (ok a) h p = h a p
  Yields-map P Q (failed e) h p = tt
  Yields-map P Q out_of_fuel h p = tt

-- What holds of what an operation returns, where it does not throw; and it does not run out of fuel.
abbrev pub Settles {ℓ} : {E : Type 0} → {A : Type ℓ} → (A → Type 0) → Outcome E A → Type 0
Settles P (ok a) = P a
Settles P (failed e) = Unit
Settles P out_of_fuel = ⊥

module _ {ℓ κ} {E : Type 0} {A : Type ℓ} {B : Type κ} where
  pub Settles-bind :
      (P : A → Type 0) (Q : B → Type 0) (r : Outcome E A) (k : A → Outcome E B)
      → Settles P r
      → ((a : A) → P a → Settles Q (k a))
      → Settles Q (bind r k)
  Settles-bind P Q (ok a) k p h = h a p
  Settles-bind P Q (failed e) k p h = tt
  Settles-bind P Q out_of_fuel k p h = p

module _ {ℓ} {E : Type 0} {A : Type ℓ} where
  pub Settles-map :
      (P Q : A → Type 0) (r : Outcome E A) → ((a : A) → P a → Q a) → Settles P r → Settles Q r
  Settles-map P Q (ok a) h p = h a p
  Settles-map P Q (failed e) h p = tt
  Settles-map P Q out_of_fuel h p = p

-- ===== src/Cstring/Memory.antt =====
-- Byte-addressed memory.
use os_projet.Common.{ℕ, ◌+◌, ◌<◌, ◌≢◌, ◌≡◌, if◌then◌else◌, ◌==◌}

abbrev pub Bytes : Type 0
Bytes = ℕ → ℕ

abbrev pub write : Bytes → ℕ → ℕ → Bytes
write m a v x = if x == a then v else m x

-- Every cell holds a byte.
abbrev pub IsBytes : Bytes → Type 0
IsBytes m = (x : ℕ) → m x < 256

-- A string of n characters at p.
pub record IsString (m : Bytes) (p n : ℕ) : Type 0 where
  pub body : (i : ℕ) → i < n → m (p + i) ≢ 0
  pub ended : m (p + n) ≡ 0

-- ===== src/Fat/Dir/Names.antt =====
-- What the parts of a stored long name do to the buffer.
use native.Mathlib.Decide.{dec_lt, ℕ_discrete}
use os_projet.Common.{
  ℕ, zero, suc, ◌+◌, ◌%◌, ◌≤◌, ◌<◌, ◌≡◌, ◌≢◌, refl, ◌&&◌, Option, some, List, if◌then◌else◌, ltb,
  leb, ◌==◌, arith, ap, sym, ◌∙◌, length, get_or, min,
}
use os_projet.Cstring.Memory.{Bytes, write}
use os_projet.Fat.Disk.{read_le}
use os_projet.Fat.Dir.{add_chars}

-- The unit at place i of a stored name: its characters, a terminator, and 0xFFFF behind.
abbrev pub unit_at : List ℕ → ℕ → ℕ
unit_at t i = if ltb i (length t) then get_or t i 0 else if i == length t then 0 else 0xFFFF

-- The part of a buffer from i up to j after a name is written there.
abbrev pub filled : List ℕ → ℕ → ℕ → Bytes → ℕ → ℕ
filled t i j name x = if leb i x && ltb x j && leb x (length t) then unit_at t x % 256 else name x

-- n units of the name from place i on stand at p.
abbrev pub Units : ℕ → Bytes → ℕ → List ℕ → ℕ → Type 0
Units zero m p t i = Unit
Units (suc n) m p t i = (read_le 2 m p ≡ unit_at t i) × Units n m (p + 2) t (i + 1)

-- Characters that a name may have in this model.
abbrev pub IsName : List ℕ → Type 0
IsName t = (i : ℕ) → i < length t → (get_or t i 0 < 256) × (get_or t i 0 ≢ 0)

-- What a part of a name does to the buffer.
pub record Adds (t : List ℕ) (i n : ℕ) (name : Bytes) (r : Option (ℕ × Bytes)) : Type 0 where
  pub cnt : ℕ
  pub buffer : Bytes
  pub result : r ≡ some (cnt, buffer)
  pub place : cnt ≡ min (i + n) (length t + 1)
  pub writes : (x : ℕ) → buffer x ≡ filled t i (i + n) name x

add_chars_stop :
    (n : ℕ) (m : Bytes) (p cnt : ℕ) (name : Bytes)
    → cnt < 256
    → read_le 2 m p ≡ 0xFFFF
    → add_chars (suc n) m p cnt name ≡ some (cnt, name)
unfolding add_chars
add_chars_stop n m p cnt name h e = ground (arith, e)

add_chars_go :
    (n : ℕ) (m : Bytes) (p cnt : ℕ) (name : Bytes)
    → cnt < 256
    → read_le 2 m p ≢ 0xFFFF
    → add_chars (suc n) m p cnt name
      ≡ add_chars n m (p + 2) (cnt + 1) (write name cnt (read_le 2 m p % 256))
unfolding add_chars
add_chars_go n m p cnt name h e = ground (arith, e)

unit_behind : (t : List ℕ) (i : ℕ) → length t < i → unit_at t i ≡ 0xFFFF
unit_behind t i h = ground arith

unit_within : (t : List ℕ) (i : ℕ) → IsName t → i ≤ length t → unit_at t i < 256
unit_within t i h le = ground (arith, h i)

filled_next :
    (t : List ℕ) (i n cnt v : ℕ) (name buffer : Bytes) (x : ℕ)
    → cnt ≡ i
    → v ≡ unit_at t i
    → i ≤ length t
    → buffer x ≡ filled t (i + 1) (i + 1 + n) (write name cnt (v % 256)) x
    → buffer x ≡ filled t i (i + suc n) name x
filled_next t i n cnt v name buffer x e ev le h = elim (ℕ_discrete x i) [
  | yes here ↦ ground (arith, h, e, here, ap (λ (u : ℕ). u % 256) (ev ∙ ap (unit_at t) (sym here)))
  | no other ↦ ground (arith, h, e, ev, other)
]

pub add_chars-Adds :
    (n : ℕ) (m : Bytes) (p : ℕ) (t : List ℕ) (i cnt : ℕ) (name : Bytes)
    → IsName t
    → Units n m p t i
    → cnt ≡ min i (length t + 1)
    → i + n ≤ 256
    → Adds t i n name (add_chars n m p cnt name)
add_chars-Adds zero m p t i cnt name h u e le = record {
  cnt = cnt;
  buffer = name;
  result = unfold add_chars in refl;
  place = omega arith;
  writes = λ x. ground arith;
}
add_chars-Adds (suc n) m p t i cnt name h (v, u) e le = elim (dec_lt (length t) i) [
  | yes over ↦ record {
    cnt = cnt;
    buffer = name;
    result = add_chars_stop n m p cnt name (omega arith) (v ∙ unit_behind t i over);
    place = omega arith;
    writes = λ x. ground arith;
  }
  | no within ↦
      let here : cnt ≡ i = omega arith in
      let part = unit_within t i h (omega arith) in
      let rest =
        add_chars-Adds n m (p + 2) t (i + 1) (cnt + 1) (write name cnt (read_le 2 m p % 256)) h u
          (omega arith) (omega arith) in
      record {
        cnt = rest.cnt;
        buffer = rest.buffer;
        result = add_chars_go n m p cnt name (omega arith) (omega (arith, v, part)) ∙ rest.result;
        place = omega (arith, rest.place);
        writes = λ x.
            filled_next t i n cnt (read_le 2 m p) name rest.buffer x here v (omega arith)
              (rest.writes x);
      }
]

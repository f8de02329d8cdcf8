-- ===== src/Fat/Dir/Chain.antt =====
-- A long name that is stored in a directory is found.
use native.Mathlib.Decide.{dec_lt}
use os_projet.Common.{
  ℕ, zero, suc, ◌+◌, ◌-◌, ◌*◌, ◌%◌, ◌≤◌, ◌<◌, ◌≡◌, ◌≢◌, refl, ◌&&◌, some, List, if◌then◌else◌, ltb,
  leb, ◌==◌, arith, ◌∙◌, length,
}
use os_projet.Cstring.Memory.{Bytes}
use os_projet.Fat.Dir.{Scan, next, add_name, put_name, attr_long_name, name_sum}
use os_projet.Fat.Dir.Names.{unit_at, filled, Units, IsName, add_chars-Adds}

-- The part of the name t from place i on, in the entry at p.
pub record PartAt (m : Bytes) (p : ℕ) (t : List ℕ) (i : ℕ) : Type 0 where
  pub name1 : Units 5 m (p + 1) t i
  pub name2 : Units 6 m (p + 14) t (i + 5)
  pub name3 : Units 2 m (p + 28) t (i + 11)

-- Two parts next to each other are one.
joined :
    (i j l len x u b b1 b2 : ℕ)
    → i ≤ j
    → j ≤ l
    → b1 ≡ (if leb i x && ltb x j && leb x len then u else b)
    → b2 ≡ (if leb j x && ltb x l && leb x len then u else b1)
    → b2 ≡ (if leb i x && ltb x l && leb x len then u else b)
joined i j l len x u b b1 b2 h h' e1 e2 = ground (arith, e1, e2)

filled_joined :
    (t : List ℕ) (i j l : ℕ) (name b1 b2 : Bytes) (x : ℕ)
    → i ≤ j
    → j ≤ l
    → b1 x ≡ filled t i j name x
    → b2 x ≡ filled t j l b1 x
    → b2 x ≡ filled t i l name x
filled_joined t i j l name b1 b2 x h h' e1 e2 =
    joined i j l (length t) x (unit_at t x % 256) (name x) (b1 x) (b2 x) h h' e1 e2

add_name_lem :
    (m : Bytes) (p : ℕ) (t : List ℕ) (i : ℕ) (name : Bytes)
    → IsName t
    → PartAt m p t i
    → i ≤ length t
    → i + 13 ≤ 256
    → (buffer : Bytes) × (add_name m p i name ≡ some buffer)
      × ((x : ℕ) → buffer x ≡ filled t i (i + 13) name x)
add_name_lem m p t i name h a le small =
    let at11 : i + 5 + 6 ≡ i + 11 = omega arith in
    let at13 : i + 11 + 2 ≡ i + 13 = omega arith in
    let a1 = add_chars-Adds 5 m (p + 1) t i i name h a.name1 (omega arith) (omega arith) in
    let a2 =
      add_chars-Adds 6 m (p + 14) t (i + 5) a1.cnt a1.buffer h a.name2 (a1.place) (omega arith) in
    let a3 =
      add_chars-Adds 2 m (p + 28) t (i + 11) a2.cnt a2.buffer h a.name3 (omega (arith, a2.place))
        (omega arith) in
    (
      a3.buffer,
      unfold add_name in ground (arith, a1.result, a2.result, a3.result),
      λ x.
          let two =
            filled_joined t i (i + 5) (i + 11) name a1.buffer a2.buffer x (omega arith)
              (omega arith) (a1.writes x) (rw at11 at (a2.writes x)) in
          filled_joined t i (i + 11) (i + 13) name a2.buffer a3.buffer x (omega arith) (omega arith)
            two (rw at13 at (a3.writes x)),
    )

-- Entry number k of n of the long name t, with its terminator.
pub record LfnAt (m : Bytes) (p : ℕ) (t : List ℕ) (k n sum : ℕ) : Type 0 where
  pub number : m p ≡ (if k == n then k + 64 else k)
  pub attr : m (p + 11) ≡ attr_long_name
  pub checksum : m (p + 13) ≡ sum
  pub part : PartAt m p t ((k - 1) * 13)

-- The entry of a file or directory whose short name has the checksum.
pub record ShortAt (m : Bytes) (p sum : ℕ) : Type 0 where
  pub in_use : (m p ≢ 0xE5) × (m p ≢ 0)
  pub attr : m (p + 11) ≢ attr_long_name
  pub checksum : name_sum 11 m p 0 ≡ sum

-- The entries k to 1 of the n of a long name, and the short entry behind them.
abbrev pub Stored : Bytes → ℕ → List ℕ → ℕ → ℕ → ℕ → Type 0
Stored m p t n sum zero = ShortAt m p sum
Stored m p t n sum (suc k) = LfnAt m p t (suc k) n sum × Stored m (p + 32) t n sum k

-- Behind the first entries of the name: the buffer holds its end from place i on.
pub record Within (t : List ℕ) (k sum : ℕ) (s : Scan) : Type 0 where
  pub left : s.left ≡ some k
  pub checksum : s.checksum ≡ some sum
  pub holds : (x : ℕ) → k * 13 ≤ x → x ≤ length t → s.name x ≡ unit_at t x % 256

put_name_lem :
    (m : Bytes) (p k : ℕ) (s : Scan) (buffer : Bytes)
    → add_name m p (k * 13) s.name ≡ some buffer
    → put_name m p (suc k) s ≡ next (record s { name = buffer; left = some k })
unfolding put_name
put_name_lem m p k s buffer e =
    let place : suc k - 1 ≡ k = omega arith in rw (place, e) (ground arith)

pub part_at :
    (m : Bytes) (p : ℕ) (t : List ℕ) (k n sum : ℕ)
    → LfnAt m p t (suc k) n sum
    → PartAt m p t (k * 13)
part_at m p t k n sum a = let place : suc k - 1 ≡ k = omega arith in rw place at (a.part)

pub put_name-Within :
    (m : Bytes) (p : ℕ) (t : List ℕ) (k sum : ℕ) (s : Scan)
    → IsName t
    → PartAt m p t (k * 13)
    → k < 19
    → k * 13 ≤ length t
    → s.checksum ≡ some sum
    → ((x : ℕ) → suc k * 13 ≤ x → x ≤ length t → s.name x ≡ unit_at t x % 256)
    → (s' : Scan) × (put_name m p (suc k) s ≡ next s') × Within t k sum s'
put_name-Within m p t k sum s h part hk le hc holds =
    let (buffer, e, w) = add_name_lem m p t (k * 13) s.name h part le (omega arith) in
    (
      record s { name = buffer; left = some k },
      put_name_lem m p k s buffer e,
      record {
        left = refl;
        checksum = hc;
        holds = λ x low high. elim (dec_lt x (k * 13 + 13)) [
          | yes here ↦ w x ∙ ground arith
          | no later ↦ w x ∙ ground (arith, holds x)
        ];
      },
    )

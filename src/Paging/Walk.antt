-- ===== src/Paging/Walk.antt =====
-- resolve_to_phmem of kernel/mem/utils.cc against the walk of the processor through tables of four levels.
use os_projet.Common.{
  ℕ, zero, suc, ◌+◌, ◌-◌, ◌*◌, ◌/◌, ◌%◌, ◌^◌, ◌<◌, ◌≡◌, refl, sym, ap, ◌∙◌, Bool, true, false, not,
  ◌&&◌, ◌||◌, ◌==◌, if◌then◌else◌, arith, Option, none, some, List, [], ◌∷◌,
}
use os_projet.Paging.BitOr.{bit_or-low, bit_or_disjoint}
use os_projet.Paging.{
  ok, not_mapped, not_canonical, Resolvant, is_present, is_writable, is_large, frame, bit_or, entry,
  is_refused, resolve_to_phmem,
}

-- Where the walk of the processor ends: at the base of a page with its size in bits, or at an entry that is not
-- present; with the entries that it has read, the last one first.
pub record Walked : Type 0 where
  pub page : Option (ℕ × ℕ)
  pub entries : List ℕ

-- The base of a page of 2 ^ bits bytes: the bits of an entry from there on to bit 51.
abbrev pub base : ℕ → ℕ → ℕ
base bits content = content % 2 ^ 52 / 2 ^ bits * 2 ^ bits

-- One entry of the walk: whether it is present, and whether it maps a page, of 2 ^ bits bytes.
abbrev pub walk_by : Bool → Bool → ℕ → ℕ → List ℕ → Walked → Walked
walk_by present maps bits content path below =
    if not present
    then record { page = none; entries = content ∷ path }
    else if maps
    then record { page = some (base bits content, bits); entries = content ∷ path }
    else below

-- The table of level l + 1 is indexed by the 9 bits of the address from 12 + 9 l on. A page may be mapped at the
-- levels 1 (4 KiB), 2 (2 MiB) and 3 (1 GiB), at the last two by the bit PS.
abbrev pub walk : (ℕ → ℕ) → ℕ → ℕ → ℕ → List ℕ → Walked
walk memory zero table address path = record { page = none; entries = path }
walk memory (suc l) table address path =
    let content = memory (table + 8 * (address / 2 ^ (12 + 9 * l) % 512)) in
    walk_by (is_present content) (l == 0 || ((l == 1 || l == 2) && is_large content)) (12 + 9 * l)
      content path (walk memory l (base 12 content) address (content ∷ path))

-- The processor starts from the bits 12 to 51 of cr3.
abbrev pub processor_walk : (ℕ → ℕ) → ℕ → ℕ → Walked
processor_walk memory cr3 address = walk memory 4 (base 12 cr3) address []

abbrev pub all_writable : List ℕ → Bool
all_writable [] = true
all_writable (content ∷ path) = all_writable path && is_writable content

abbrev pub answer : ℕ → Bool → Option (ℕ × ℕ) → Resolvant
answer address rw none = record { status = not_mapped; is_rw = rw; resolved = 2 ^ 64 - 1 }
answer address rw (some (start, bits)) = record {
  status = ok;
  is_rw = rw;
  resolved = start + address % 2 ^ bits;
}

-- The entry k levels below the one of level 4 on the way to an address.
abbrev pub entry_below : (ℕ → ℕ) → ℕ → ℕ → ℕ → ℕ
entry_below memory cr3 address zero = memory (base 12 cr3 + 8 * (address / 2 ^ 39 % 512))
entry_below memory cr3 address (suc k) =
    memory (base 12 (entry_below memory cr3 address k) + 8 * (address / 2 ^ (30 - 9 * k) % 512))

-- cr3 has no bits but those of the address of a table, the way to an address has no page of 1 GiB, and the bits 12
-- to 20 of an entry for a page of 2 MiB are 0: the first of them is a bit of the kind of memory.
pub record IsPlain (memory : ℕ → ℕ) (cr3 address : ℕ) : Type 0 where
  pub only_table : base 12 cr3 ≡ cr3
  pub no_giant : is_large (entry_below memory cr3 address 1) ≡ false
  pub no_kind :
      is_large (entry_below memory cr3 address 2) ≡ true
      → base 12 (entry_below memory cr3 address 2) % 2 ^ 21 ≡ 0

-- Physical memory stands at the linear addresses from -512 GiB on.
abbrev pub IsWindow : (ℕ → ℕ) → (ℕ → ℕ) → Type 0
IsWindow memory read = (p : ℕ) → p < 2 ^ 52 → read ((p + (2 ^ 64 - 2 ^ 39)) % 2 ^ 64) ≡ memory p

entry_lem :
    (memory read : ℕ → ℕ) (content i : ℕ)
    → IsWindow memory read
    → i < 512
    → entry read (base 12 content) i ≡ memory (base 12 content + 8 * i)
entry_lem memory read content i window lt =
    let table = base 12 content in
    let at : ((table + (2 ^ 64 - 2 ^ 39)) % 2 ^ 64 + 8 * i) % 2 ^ 64
        ≡ (table + 8 * i + (2 ^ 64 - 2 ^ 39)) % 2 ^ 64 =
      omega arith in
    ap read at ∙ window (table + 8 * i) (omega (arith, lt))

not_refused : (b : Bool) (x y : Resolvant) → b ≡ false → (if b then x else y) ≡ y
not_refused b x y e = ap (λ b. if b then x else y) e

-- The branches of resolve_to_phmem below the refusal, for the four entries on the way to x.
abbrev resolve_by : ℕ → ℕ → ℕ → ℕ → ℕ → Resolvant
resolve_by x c4 c3 c2 c1 =
    let w4 = is_writable c4 in
    let w3 = w4 && is_writable c3 in
    let w2 = w3 && is_writable c2 in
    let w1 = w2 && is_writable c1 in
    if not (is_present c4)
    then answer x w4 none
    else if not (is_present c3)
    then answer x w3 none
    else if not (is_present c2)
    then answer x w2 none
    else if is_large c2
    then record { status = ok; is_rw = w2; resolved = bit_or 64 (frame c2) (x % 2 ^ 21) }
    else if not (is_present c1)
    then answer x w1 none
    else record { status = ok; is_rw = w1; resolved = bit_or 64 (frame c1) (x % 2 ^ 12) }

-- These branches as the ends of the walk, for the numbers that they resolve to.
branches :
    (x c4 c3 c2 c1 r2 r1 : ℕ) (b4 b3 b2 giant large b1 : Bool) (below : Walked)
    → giant ≡ false
    → (large ≡ true → r2 ≡ base 21 c2 + x % 2 ^ 21)
    → r1 ≡ base 12 c1 + x % 2 ^ 12
    → (let w4 = is_writable c4 in
        let w3 = w4 && is_writable c3 in
        let w2 = w3 && is_writable c2 in
        let w1 = w2 && is_writable c1 in
        if not b4
        then answer x w4 none
        else if not b3
        then answer x w3 none
        else if not b2
        then answer x w2 none
        else if large
        then record { status = ok; is_rw = w2; resolved = r2 }
        else if not b1
        then answer x w1 none
        else record { status = ok; is_rw = w1; resolved = r1 })
      ≡ (let w = walk_by b4 false 39 c4 [] (
            walk_by b3 giant 30 c3 (c4 ∷ []) (
              walk_by b2 large 21 c2
                (c3 ∷ c4 ∷ [])
                (walk_by b1 true 12 c1 (c2 ∷ c3 ∷ c4 ∷ []) below))) in
          answer x (all_writable w.entries) w.page)
branches x c4 c3 c2 c1 r2 r1 false b3 b2 giant large b1 below g h2 h1 = refl
branches x c4 c3 c2 c1 r2 r1 true false b2 giant large b1 below g h2 h1 = refl
branches x c4 c3 c2 c1 r2 r1 true true b2 true large b1 below g h2 h1 = absurd (ground (arith, g))
branches x c4 c3 c2 c1 r2 r1 true true false false large b1 below g h2 h1 = refl
branches x c4 c3 c2 c1 r2 r1 true true true false true b1 below g h2 h1 =
    let w2 = is_writable c4 && is_writable c3 && is_writable c2 in
    ap (λ r. record { status = ok; is_rw = w2; resolved = r }) (h2 refl)
branches x c4 c3 c2 c1 r2 r1 true true true false false false below g h2 h1 = refl
branches x c4 c3 c2 c1 r2 r1 true true true false false true below g h2 h1 =
    let w1 = is_writable c4 && is_writable c3 && is_writable c2 && is_writable c1 in
    ap (λ r. record { status = ok; is_rw = w1; resolved = r }) h1

-- The page that an entry maps is where the code puts it.
large_page :
    (x c : ℕ) → base 12 c % 2 ^ 21 ≡ 0 → bit_or 64 (frame c) (x % 2 ^ 21) ≡ base 21 c + x % 2 ^ 21
large_page x c e =
    bit_or_disjoint 64 21 (frame c) (x % 2 ^ 21) e (omega arith) (omega arith) ∙ omega (arith, e)

small_page : (x c : ℕ) → bit_or 64 (frame c) (x % 2 ^ 12) ≡ base 12 c + x % 2 ^ 12
small_page x c =
    bit_or_disjoint 64 12 (frame c) (x % 2 ^ 12) (omega arith) (omega arith) (omega arith)

-- For an address that is not refused, with cr3 and the entries on the way to it plain and physical memory at -512
-- GiB, the answer is that of the walk of the processor for the lower 48 bits: the address is not mapped where an entry
-- of the walk is not present, and otherwise it is the base of the page and the offset in the page. It may be
-- written to where every entry of the walk allows it.
pub resolve_to_phmem-walk :
    (memory read : ℕ → ℕ) (cr3 address : ℕ)
    → IsWindow memory read
    → is_refused address ≡ false
    → IsPlain memory cr3 (address % 2 ^ 48)
    → resolve_to_phmem read cr3 address ≡ (
        let w = processor_walk memory cr3 (address % 2 ^ 48) in
        answer (address % 2 ^ 48) (all_writable w.entries) w.page)
unfolding resolve_to_phmem
resolve_to_phmem-walk memory read cr3 address window e plain =
    let x = address % 2 ^ 48 in
    let i4 = x / 2 ^ 39 % 512 in
    let i3 = x / 2 ^ 30 % 512 in
    let i2 = x / 2 ^ 21 % 512 in
    let i1 = x / 2 ^ 12 % 512 in
    let c4 = entry read cr3 i4 in
    let c3 = entry read (frame c4) i3 in
    let c2 = entry read (frame c3) i2 in
    let c1 = entry read (frame c2) i1 in
    let e4 = entry_below memory cr3 x 0 in
    let e3 = entry_below memory cr3 x 1 in
    let e2 = entry_below memory cr3 x 2 in
    let e1 = entry_below memory cr3 x 3 in
    let q4 : c4 ≡ e4 =
      ap (λ t. entry read t i4) (sym plain.only_table)
      ∙ entry_lem memory read cr3 i4 window (omega arith) in
    let q3 : c3 ≡ e3 =
      ap (λ c. entry read (frame c) i3) q4 ∙ entry_lem memory read e4 i3 window (omega arith) in
    let q2 : c2 ≡ e2 =
      ap (λ c. entry read (frame c) i2) q3 ∙ entry_lem memory read e3 i2 window (omega arith) in
    let q1 : c1 ≡ e1 =
      ap (λ c. entry read (frame c) i1) q2 ∙ entry_lem memory read e2 i1 window (omega arith) in
    not_refused (is_refused address)
      record { status = not_canonical; is_rw = true; resolved = 2 ^ 64 - 1 } _ e
    ∙ ap (λ c. resolve_by x c c3 c2 c1) q4
    ∙ ap (λ c. resolve_by x e4 c c2 c1) q3
    ∙ ap (λ c. resolve_by x e4 e3 c c1) q2
    ∙ ap (λ c. resolve_by x e4 e3 e2 c) q1
    ∙ branches x e4 e3 e2 e1 (bit_or 64 (frame e2) (x % 2 ^ 21)) (bit_or 64 (frame e1) (x % 2 ^ 12))
        (is_present e4) (is_present e3) (is_present e2) (is_large e3) (is_large e2) (is_present e1)
        record { page = none; entries = e1 ∷ e2 ∷ e3 ∷ e4 ∷ [] } plain.no_giant
        (λ large. large_page x e2 (plain.no_kind large)) (small_page x e1)

abbrev Keeps : ℕ → Resolvant → Type 0
Keeps a r = r.status ≡ ok → r.resolved % 4096 ≡ a % 4096

Keeps-if :
    (a : ℕ) (b : Bool) (x y : Resolvant) → Keeps a x → Keeps a y → Keeps a (if b then x else y)
Keeps-if a true x y kx ky = kx
Keeps-if a false x y kx ky = ky

Keeps-not_mapped :
    (a : ℕ) (rw : Bool) → Keeps a record { status = not_mapped; is_rw = rw; resolved = 2 ^ 64 - 1 }
Keeps-not_mapped a rw e = absurd (ground (arith, e))

Keeps-not_canonical :
    (a : ℕ) → Keeps a record { status = not_canonical; is_rw = true; resolved = 2 ^ 64 - 1 }
Keeps-not_canonical a e = absurd (ground (arith, e))

Keeps-page :
    (a content : ℕ) (rw : Bool)
    → Keeps a record {
      status = ok;
      is_rw = rw;
      resolved = bit_or 64 (frame content) (a % 2 ^ 48 % 2 ^ 12);
    }
Keeps-page a content rw e =
    bit_or-low 64 12 (frame content) (a % 2 ^ 48 % 2 ^ 12) (omega arith) (omega arith) ∙ omega arith

Keeps-large :
    (a content : ℕ) (rw : Bool)
    → Keeps a record {
      status = ok;
      is_rw = rw;
      resolved = bit_or 64 (frame content) (a % 2 ^ 48 % 2 ^ 21);
    }
Keeps-large a content rw e =
    bit_or-low 64 12 (frame content) (a % 2 ^ 48 % 2 ^ 21) (omega arith) (omega arith) ∙ omega arith

-- Where an address is resolved, the physical address has the same offset in its page of 4096 bytes.
pub resolve_to_phmem-offset :
    (read : ℕ → ℕ) (cr3 address : ℕ)
    → (resolve_to_phmem read cr3 address).status ≡ ok
    → (resolve_to_phmem read cr3 address).resolved % 4096 ≡ address % 4096
unfolding resolve_to_phmem
resolve_to_phmem-offset read cr3 a =
    let x = a % 2 ^ 48 in
    let c4 = entry read cr3 (x / 2 ^ 39 % 512) in
    let c3 = entry read (frame c4) (x / 2 ^ 30 % 512) in
    let c2 = entry read (frame c3) (x / 2 ^ 21 % 512) in
    let c1 = entry read (frame c2) (x / 2 ^ 12 % 512) in
    let rw4 = is_writable c4 in
    let rw3 = rw4 && is_writable c3 in
    let rw2 = rw3 && is_writable c2 in
    Keeps-if a (is_refused a) _ _ (Keeps-not_canonical a) (
      Keeps-if a (not (is_present c4)) _ _ (Keeps-not_mapped a rw4) (
        Keeps-if a (not (is_present c3)) _ _ (Keeps-not_mapped a rw3) (
          Keeps-if a (not (is_present c2)) _ _ (Keeps-not_mapped a rw2) (
            Keeps-if a (is_large c2) _ _ (Keeps-large a c2 rw2) (
              Keeps-if a (not (is_present c1)) _ _ (Keeps-not_mapped a (rw2 && is_writable c1))
                (Keeps-page a c1 (rw2 && is_writable c1)))))))

-- ===== src/Fat/Dir/Lookup.antt =====
-- The search of a directory finds the entry behind a long name.
use os_projet.Common.{
  ℕ, zero, suc, ◌+◌, ◌*◌, ◌/◌, ◌%◌, ◌≤◌, ◌<◌, ◌≡◌, refl, true, false, ◌||◌, none, some, List, [],
  ◌∷◌, arith, ap, ◌∙◌, length, get_or,
}
use os_projet.Cstring.Memory.{Bytes}
use os_projet.Fat.Dir.{
  Copy, Scan, next, entry, put_name, lfn_slot, dir_slot, slot, matches, find, found, Search,
}
use os_projet.Fat.Dir.Names.{unit_at, IsName}
use os_projet.Fat.Dir.Chain.{LfnAt, ShortAt, Stored, Within, part_at, put_name-Within}

matches_lem :
    (m : Bytes) (i : ℕ) (xs : List ℕ)
    → ((j : ℕ) → j < length xs → m (i + j) ≡ get_or xs j 0)
    → m (i + length xs) ≡ 0
    → matches m i xs ≡ true
unfolding matches
matches_lem m i [] h z = let e : i + 0 ≡ i = omega arith in ground (arith, z, ap m e)
matches_lem m i (x ∷ xs) h z =
    let e : i + 0 ≡ i = omega arith in
    ground (
      arith,
      h 0,
      ap m e,
      matches_lem m (i + 1) xs
          (λ j hj. let f : i + 1 + j ≡ i + suc j = omega arith in rw f (h (suc j) (omega arith)))
          (let f : i + 1 + length xs ≡ i + suc (length xs) = omega arith in rw f z),
    )

matches_name :
    (m : Bytes) (t : List ℕ)
    → IsName t
    → ((x : ℕ) → x ≤ length t → m x ≡ unit_at t x % 256)
    → matches m 0 t ≡ true
matches_name m t h e =
    matches_lem m 0 t (λ j hj. let f : 0 + j ≡ j = omega arith in rw f (ground (arith, e j, h j)))
      (let f : 0 + length t ≡ length t = omega arith in rw f (ground (arith, e (length t))))

-- A later entry of the name.
slot_later :
    (c : Copy) (m : Bytes) (p : ℕ) (t : List ℕ) (k n sum : ℕ) (s : Scan)
    → LfnAt m p t (suc k) n sum
    → suc k < n
    → n ≤ 19
    → Within t (suc k) sum s
    → slot c m p s ≡ put_name m p (suc k) s
unfolding slot lfn_slot
slot_later c m p t k n sum s a hk hn w =
    ground (arith, w.left, w.checksum, a.number, a.attr, a.checksum)

-- The first entry of the name, from between two entries.
begun : Copy → ℕ → Scan → Scan
begun c sum s = record s {
  checksum = some sum;
  there_is_long_name = c.notes_name || s.there_is_long_name;
}

slot_first :
    (c : Copy) (m : Bytes) (p : ℕ) (t : List ℕ) (k sum : ℕ) (s : Scan)
    → LfnAt m p t (suc k) (suc k) sum
    → k < 19
    → s.left ≡ none
    → slot c m p s ≡ put_name m p (suc k) (begun c sum s)
unfolding slot lfn_slot begun
slot_first c m p t k sum s a hk h = ground (arith, h, a.number, a.attr, ap some (a.checksum))

-- The short entry behind the name.
slot_short :
    (c : Copy) (m : Bytes) (p : ℕ) (t : List ℕ) (sum : ℕ) (s : Scan)
    → ShortAt m p sum
    → Within t 0 sum s
    → slot c m p s ≡ entry (record s { left = none; there_is_long_name = false })
unfolding slot dir_slot
slot_short c m p t sum s a w = ground (arith, w.left, w.checksum, a.in_use, a.attr, a.checksum)

pub find-next :
    (c : Copy) (m : Bytes) (t : List ℕ) (rounds p : ℕ) (s s' : Scan)
    → slot c m p s ≡ next s'
    → find c m t (suc rounds) p s ≡ find c m t rounds (p + 32) s'
unfolding find
find-next c m t rounds p s s' e = ground (arith, e)

find_entry :
    (c : Copy) (m : Bytes) (t : List ℕ) (rounds p : ℕ) (s s' : Scan)
    → slot c m p s ≡ entry s'
    → matches s'.name 0 t ≡ true
    → find c m t (suc rounds) p s ≡ found p (record { bytes = m; pos = p })
unfolding find
find_entry c m t rounds p s s' e e' = ground (arith, e, e')

abbrev found_at : Bytes → ℕ → Search
found_at m p = found p (record { bytes = m; pos = p })

find_tail :
    (rounds : ℕ) (c : Copy) (m : Bytes) (p : ℕ) (t : List ℕ) (n sum k : ℕ) (s : Scan)
    → IsName t
    → n ≤ 19
    → k < n
    → k < rounds
    → k * 13 ≤ length t
    → Within t k sum s
    → Stored m p t n sum k
    → find c m t rounds p s ≡ found_at m (p + 32 * k)
find_tail zero c m p t n sum k s h hn hk hr le w a = absurd (omega arith)
find_tail (suc rounds) c m p t n sum zero s h hn hk hr le w a =
    let here : p + 32 * 0 ≡ p = omega arith in
    rw here (
      find_entry c m t rounds p s (record s { left = none; there_is_long_name = false })
        (slot_short c m p t sum s a w)
        (matches_name s.name t h (λ x hx. w.holds x (omega arith) hx)))
find_tail (suc rounds) c m p t n sum (suc k) s h hn hk hr le w (a, rest) =
    let (s', e, w') =
      put_name-Within m p t k sum s h (part_at m p t k n sum a) (omega arith) (omega arith)
        w.checksum w.holds in
    let there : p + 32 + 32 * k ≡ p + 32 * suc k = omega arith in
    find-next c m t rounds p s s' (slot_later c m p t k n sum s a hk hn w ∙ e)
    ∙ find_tail rounds c m (p + 32) t n sum k s' h hn (omega arith) (omega arith) (omega arith) w'
        rest
    ∙ ap (found_at m) there

-- The loop over the entries of a directory, started between two entries, finds a file or directory that
-- is stored with a long name: whatever the checks of the copy, when the n ≤ 19 entries of a name of
-- non-zero bytes stand at p, n being a 13th of its length, rounded down, and one more, so that the last of them holds
-- the terminator, the last part of the name first, and the short entry whose checksum they
-- hold stands behind them, and the loop has more than n rounds left, then the result is the address of
-- the short entry.
pub find-Stored :
    (c : Copy) (m : Bytes) (p : ℕ) (t : List ℕ) (n sum rounds : ℕ) (s : Scan)
    → IsName t
    → n ≡ length t / 13 + 1
    → n ≤ 19
    → n < rounds
    → s.left ≡ none
    → Stored m p t n sum n
    → find c m t rounds p s ≡ found (p + 32 * n) (record { bytes = m; pos = p + 32 * n })
find-Stored c m p t zero sum rounds s h e hn hr none_yet a = absurd (ground (arith, e))
find-Stored c m p t (suc k) sum zero s h e hn hr none_yet a = absurd (omega arith)
find-Stored c m p t (suc k) sum (suc rounds) s h e hn hr none_yet (a, rest) =
    let there : p + 32 + 32 * k ≡ p + 32 * suc k = omega arith in
    let (s', e', w) =
      put_name-Within m p t k sum (begun c sum s) h (part_at m p t k (suc k) sum a) (omega arith)
        (omega arith) (unfold begun in refl) (λ x low high. absurd (omega arith)) in
    find-next c m t rounds p s s' (slot_first c m p t k sum s a (omega arith) none_yet ∙ e')
    ∙ find_tail rounds c m (p + 32) t (suc k) sum k s' h hn (omega arith) (omega arith)
        (omega arith) w rest
    ∙ ap (found_at m) there

-- ===== src/Map/Index.antt =====
-- The operations of map of kstdlib/map.hh on the red-black tree: at, contains, empty and operator[].
use os_projet.Common.{
  ℕ, ◌+◌, ◌*◌, ◌^◌, ◌<◌, ◌≡◌, ◌≢◌, sym, ap, ◌∙◌, true, false, not, ◌==◌, if◌then◌else◌, arith, List,
  [], ◌∷◌, Option, some, none, inl, inr, ltb, length, Bool-cases,
}
use mathlib.Core.Path.{subst}
use os_projet.Map.{
  Store, find_node, at, at_node, contains, is_found, found, out_of_range, index, index_found,
  index_inserted, index_or_insert, insert,
}
use os_projet.Map.Shape.{Tree}
use os_projet.Map.Balance.{IsRedBlack, entries}
use os_projet.Map.Whole.{Represents, Fixed}
use os_projet.Map.Grown.{insert_entry}
use os_projet.Map.Insert.{insert-refines, Fresh}
use os_projet.Map.Find.{
  find_entry, find_node-finds, find_entry-insert_entry, entries-Real, height-log,
}

is_null : (q : ℕ) → (q == 0) ≡ true → q ≡ 0
is_null q e = ground (arith, e)

not_null : (q : ℕ) → (q == 0) ≡ false → q ≢ 0
not_null q e = ground (arith, e)

same_key : (k n e : ℕ) → (if k == k then n else e) ≡ n
same_key k n e = ground arith

module _ {A : Type 0} where
  -- at and contains on a red-black tree with less than 2 ^ (m + 1) - 1 nodes, with 2 m + 1 rounds of fuel: at
  -- gives the node with the key, and throws exactly where no node has it; contains says which.
  pub at-finds :
      (m : ℕ) (s : Store A) (t : Tree A) (k : ℕ)
      → Represents s t
      → IsRedBlack t
      → length (entries t) + 1 < 2 ^ (m + 1)
      → (at (2 * m + 1) s k ≡ (
          if find_entry k (entries t) == 0 then out_of_range else found (find_entry k (entries t))))
        × (contains (2 * m + 1) s k ≡ some (not (find_entry k (entries t) == 0)))
  unfolding at contains
  at-finds m s t k h rb small =
      let e = find_node-finds m s t k h rb small in (ap at_node e, ap is_found e)

  -- What operator[] gives for a key with the entries es: the node of the key, a new one when there was none, in a
  -- red-black tree with an entry more in this case.
  abbrev pub Indexed : ℕ → ℕ → A → List (ℕ × ℕ × A) → Option (ℕ × Store A) → Type 0
  Indexed n k v es none = ⊥
  Indexed n k v es (some (p, s)) =
      (t : Tree A) × Represents s t
      × IsRedBlack t
      × (entries t ≡ (if find_entry k es == 0 then insert_entry n k v es else es))
      × (p ≡ (if find_entry k es == 0 then n else find_entry k es))

  Indexed-insert :
      (m n k : ℕ) (v : A) (es : List (ℕ × ℕ × A)) (o : Option (Store A))
      → length (insert_entry n k v es) + 1 < 2 ^ (m + 1)
      → find_entry k es ≡ 0
      → find_entry k (insert_entry n k v es) ≡ n
      → Fixed (insert_entry n k v es) o
      → Indexed n k v es (index_inserted (2 * m + 1) k o)
  Indexed-insert m n k v es none small absent finds h = h
  Indexed-insert m n k v es (some s) small absent finds (t, h, rb, e) =
      let found : find_node (2 * m + 1) s k ≡ some n =
        find_node-finds m s t k h rb (ground (arith, ap length e, small))
        ∙ ap (λ es. some (find_entry k es)) e
        ∙ ap some finds in
      subst (λ o. Indexed n k v es (index_found (2 * m + 1) k o s)) (sym found)
        (t, h, rb, e ∙ ground (arith, absent), ground (arith, absent))

  length-insert_entry :
      (n k : ℕ) (v : A) (es : List (ℕ × ℕ × A)) → length (insert_entry n k v es) ≡ length es + 1
  length-insert_entry n k v [] = omega arith
  length-insert_entry n k v ((p, kp, vp) ∷ es) =
      let rest = length-insert_entry n k v es in
      elim (Bool-cases (ltb k kp)) [ inl e ↦ ground (arith, e) | inr e ↦ ground (arith, e, rest) ]

  inserts :
      (f n k : ℕ) (v : A) (s : Store A) (q : ℕ)
      → q ≡ 0
      → index_or_insert f n k v s (some q) ≡ index_inserted f k (insert f n k v s)
  inserts f n k v s q e = ground (arith, e)

  refers :
      (f n k : ℕ) (v : A) (s : Store A) (q : ℕ)
      → q ≢ 0
      → index_or_insert f n k v s (some q) ≡ some (q, s)
  refers f n k v s q ne = ground (arith, ne)

  -- operator[] on a red-black tree with less than 2 ^ (m + 1) - 2 nodes, with a new node at an address of no node
  -- and 2 m + 1 rounds of fuel for each loop: it refers to the node of the key where there is one, and changes
  -- nothing; otherwise to the new node, which it has added in the order of the keys, in a red-black tree.
  pub index-Indexed :
      (m n k : ℕ) (v : A) (s : Store A) (t : Tree A)
      → Represents s t
      → IsRedBlack t
      → n ≢ 0
      → Fresh n t
      → length (entries t) + 2 < 2 ^ (m + 1)
      → Indexed n k v (entries t) (index (2 * m + 1) n k v s)
  unfolding index
  index-Indexed m n k v s t h rb real fresh small =
      let es = entries t in
      let f = 2 * m + 1 in
      let finds = find_node-finds m s t k h rb (omega (arith, small)) in
      subst (λ o. Indexed n k v es (index_or_insert f n k v s o)) (sym finds)
        (elim (Bool-cases (find_entry k es == 0)) [
          | inl e ↦
              let absent : find_entry k es ≡ 0 = is_null (find_entry k es) e in
              let size = length-insert_entry n k v es in
              subst (Indexed n k v es) (sym (inserts f n k v s (find_entry k es) absent)) (
                Indexed-insert m n k v es (insert f n k v s) (omega (arith, size, small)) absent
                  (find_entry-insert_entry n k v es k (entries-Real s 0 0 h.bound t h.stands) absent
                    ∙ same_key k n (find_entry k es))
                  (insert-refines f n k v s t h rb real fresh
                    (height-log m t rb (omega (arith, small))) (finds ∙ ap some absent)))
          | inr e ↦
              subst (Indexed n k v es)
                (sym (refers f n k v s (find_entry k es) (not_null (find_entry k es) e)))
                (
                  t,
                  h,
                  rb,
                  ap (λ b. if b then insert_entry n k v es else es) (sym e),
                  ap (λ b. if b then n else find_entry k es) (sym e),
                )
        ])

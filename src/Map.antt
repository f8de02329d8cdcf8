-- ===== src/Map.antt =====
-- kstdlib/map.hh: the ordered map, a red-black tree of nodes on the heap. A node is its address, and a field
-- of the nodes is a function of the address, so that a write is seen by every pointer to the node; 0 is
-- nullptr. `new node<T>` returns an address that is a parameter. A null pointer that is followed reads the
-- fields at 0; nothing is assumed of them.
pub mod Shape
pub mod Links
pub mod RotateLeft
pub mod RotateRight
pub mod Balance
pub mod Whole
pub mod Zipper
pub mod Turns
pub mod Focus
pub mod Ends
pub mod Recolor
pub mod Fixup
pub mod Place
pub mod Grown
pub mod Insert
pub mod Find
pub mod Index
pub mod Erase
pub mod Clear
pub mod Transplant
pub mod Spot
pub mod EraseOne
use os_projet.Common.{
  ℕ, zero, suc, ◌+◌, Bool, true, false, not, ◌&&◌, ◌||◌, Option, none, some, ◌==◌, if◌then◌else◌,
  ltb,
}

-- `rb_tree` with its nodes; `red` is `colo == color::RED`.
pub record Store (A : Type 0) : Type 0 where
  pub key : ℕ → ℕ
  pub value : ℕ → A
  pub red : ℕ → Bool
  pub parent : ℕ → ℕ
  pub left : ℕ → ℕ
  pub right : ℕ → ℕ
  pub root : ℕ

-- What map::at gives: the node, the exception, or neither when the fuel is out.
pub data Outcome : Type 0 where
  found : ℕ → Outcome
  out_of_range : Outcome
  out_of_fuel : Outcome

abbrev pub put : {B : Type 0} → ℕ → B → (ℕ → B) → ℕ → B
put p b f x = if x == p then b else f x

abbrev pub at_node : Option ℕ → Outcome
at_node none = out_of_fuel
at_node (some p) = if p == 0 then out_of_range else found p

abbrev pub is_found : Option ℕ → Option Bool
is_found none = none
is_found (some p) = some (not (p == 0))

module _ {A : Type 0} where
  abbrev pub set_red : ℕ → Bool → Store A → Store A
  set_red p b s = record s { red = put p b s.red }

  abbrev pub set_parent : ℕ → ℕ → Store A → Store A
  set_parent p q s = record s { parent = put p q s.parent }

  abbrev pub set_left : ℕ → ℕ → Store A → Store A
  set_left p q s = record s { left = put p q s.left }

  abbrev pub set_right : ℕ → ℕ → Store A → Store A
  set_right p q s = record s { right = put p q s.right }

  -- `if (c != nullptr) c->parent = p;`
  abbrev pub adopt : ℕ → ℕ → Store A → Store A
  adopt c p s = record s { parent = λ x. if not (c == 0) && x == c then p else s.parent x }

  -- `if (p == nullptr) root = y; else if (n == p->left) p->left = y; else p->right = y;`
  abbrev pub replace_child : ℕ → ℕ → ℕ → Store A → Store A
  replace_child p n y s = record s {
    root = if p == 0 then y else s.root;
    left = λ x. if not (p == 0) && n == s.left p && x == p then y else s.left x;
    right = λ x. if not (p == 0) && not (n == s.left p) && x == p then y else s.right x;
  }

  unfoldable pub rotate_left : ℕ → Store A → Store A
  rotate_left n s =
      let y = s.right n in
      let s1 = set_right n (s.left y) s in
      let s2 = adopt (s1.left y) n s1 in
      let s3 = set_parent y (s2.parent n) s2 in
      let s4 = replace_child (s3.parent n) n y s3 in let s5 = set_left y n s4 in set_parent n y s5

  -- The test of rotate_right for the parent's link asks for the right one first.
  abbrev pub replace_child_right : ℕ → ℕ → ℕ → Store A → Store A
  replace_child_right p n y s = record s {
    root = if p == 0 then y else s.root;
    right = λ x. if not (p == 0) && n == s.right p && x == p then y else s.right x;
    left = λ x. if not (p == 0) && not (n == s.right p) && x == p then y else s.left x;
  }

  unfoldable pub rotate_right : ℕ → Store A → Store A
  rotate_right n s =
      let y = s.left n in
      let s1 = set_left n (s.right y) s in
      let s2 = adopt (s1.right y) n s1 in
      let s3 = set_parent y (s2.parent n) s2 in
      let s4 = replace_child_right (s3.parent n) n y s3 in
      let s5 = set_right y n s4 in set_parent n y s5

  -- The loop of find_node, on fuel for the depth of the tree; `none` is out of fuel.
  unfoldable pub find_from : ℕ → Store A → ℕ → ℕ → Option ℕ
  find_from zero s k n = none
  find_from (suc f) s k n =
      let left = find_from f s k (s.left n) in
      let right = find_from f s k (s.right n) in
      if n == 0
      then some 0
      else if ltb k (s.key n)
      then left
      else if ltb (s.key n) k
      then right
      else some n

  unfoldable pub find_node : ℕ → Store A → ℕ → Option ℕ
  find_node f s k = find_from f s k s.root

  -- The loop of insert down to the node y that gets the new one as a child; 0 in an empty tree.
  unfoldable pub descend : ℕ → Store A → ℕ → ℕ → ℕ → Option ℕ
  descend zero s k x y = none
  descend (suc f) s k x y =
      let left = descend f s k (s.left x) x in
      let right = descend f s k (s.right x) x in
      if x == 0 then some y else if ltb k (s.key x) then left else right

  -- `n->parent->colo = BLACK; n->parent->parent->colo = RED; rotate_right(n->parent->parent);`
  unfoldable pub finish_right : ℕ → Store A → Store A
  finish_right n s =
      let s1 = set_red (s.parent n) false s in
      let s2 = set_red (s1.parent (s1.parent n)) true s1 in
      rotate_right (s2.parent (s2.parent n)) s2

  unfoldable pub finish_left : ℕ → Store A → Store A
  finish_left n s =
      let s1 = set_red (s.parent n) false s in
      let s2 = set_red (s1.parent (s1.parent n)) true s1 in rotate_left (s2.parent (s2.parent n)) s2

  -- The colours when the uncle y is red.
  unfoldable pub recolor : ℕ → ℕ → Store A → Store A
  recolor n y s =
      let s1 = set_red (s.parent n) false s in
      let s2 = set_red y false s1 in set_red (s2.parent (s2.parent n)) true s2

  -- One turn of the loop of insert_fixup: the next n and the store.
  unfoldable pub fixup_step : ℕ → Store A → ℕ × Store A
  fixup_step n s =
      let p = s.parent n in
      let g = s.parent p in
      if p == s.left g
      then if not (s.right g == 0) && s.red (s.right g)
        then (g, recolor n (s.right g) s)
        else if n == s.right p
        then (p, finish_right p (rotate_left p s))
        else (n, finish_right n s)
      else if not (s.left g == 0) && s.red (s.left g)
      then (g, recolor n (s.left g) s)
      else if n == s.left p
      then (p, finish_left p (rotate_right p s))
      else (n, finish_left n s)

  -- insert_fixup, on fuel for the turns of its loop; `none` is out of fuel.
  unfoldable pub insert_fixup : ℕ → ℕ → Store A → Option (Store A)
  insert_fixup zero n s = none
  insert_fixup (suc f) n s =
      let step = fixup_step n s in
      let rest = insert_fixup f step.0 step.1 in
      if not (s.parent n == 0) && s.red (s.parent n) then rest else some (set_red s.root false s)

  -- The fields of a new node.
  unfoldable pub new_node : ℕ → ℕ → A → Store A → Store A
  new_node n k v s = record s {
    key = put n k s.key;
    value = put n v s.value;
    red = put n true s.red;
    left = put n 0 s.left;
    right = put n 0 s.right;
    parent = put n 0 s.parent;
  }

  unfoldable pub attach : ℕ → ℕ → ℕ → Store A → Store A
  attach n k y s =
      let s1 = set_parent n y s in
      record s1 {
        root = if y == 0 then n else s1.root;
        left = λ x. if not (y == 0) && ltb k (s1.key y) && x == y then n else s1.left x;
        right = λ x. if not (y == 0) && not (ltb k (s1.key y)) && x == y then n else s1.right x;
      }

  abbrev pub insert_below : ℕ → ℕ → ℕ → Store A → Option ℕ → Option (Store A)
  insert_below f n k s none = none
  insert_below f n k s (some y) = insert_fixup f n (attach n k y s)

  -- The insertion of a pair, with n the address that `new node<T>` returns.
  unfoldable pub insert : ℕ → ℕ → ℕ → A → Store A → Option (Store A)
  insert f n k v s = let s0 = new_node n k v s in insert_below f n k s0 (descend f s0 k s0.root 0)

  -- map::operator[]: the address of the node whose value is referred to. The value of a pair that is inserted is
  -- not set, it is the parameter v.
  abbrev pub index_found : ℕ → ℕ → Option ℕ → Store A → Option (ℕ × Store A)
  index_found f k none s = none
  index_found f k (some p) s = some (p, s)

  abbrev pub index_inserted : ℕ → ℕ → Option (Store A) → Option (ℕ × Store A)
  index_inserted f k none = none
  index_inserted f k (some s) = index_found f k (find_node f s k) s

  abbrev pub index_or_insert : ℕ → ℕ → ℕ → A → Store A → Option ℕ → Option (ℕ × Store A)
  index_or_insert f n k v s none = none
  index_or_insert f n k v s (some p) =
      let inserted = index_inserted f k (insert f n k v s) in
      if p == 0 then inserted else some (p, s)

  unfoldable pub index : ℕ → ℕ → ℕ → A → Store A → Option (ℕ × Store A)
  index f n k v s = index_or_insert f n k v s (find_node f s k)

  -- map::at: the address of the node, or the exception; on fuel.
  unfoldable pub at : ℕ → Store A → ℕ → Outcome
  at f s k = at_node (find_node f s k)

  unfoldable pub contains : ℕ → Store A → ℕ → Option Bool
  contains f s k = is_found (find_node f s k)

  -- `is_empty` of the tree, and `empty` of the map.
  unfoldable pub empty : Store A → Bool
  empty s = s.root == 0

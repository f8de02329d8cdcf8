-- ===== src/Map/Erase.antt =====
-- clear and erase of kstdlib/map.hh. A null pointer that is followed reads the fields at 0, as in the parent.
use os_projet.Common.{
  ℕ, zero, suc, Bool, true, false, not, ◌&&◌, Option, none, some, ◌==◌, if◌then◌else◌, List, [],
  ◌∷◌, ◌++◌,
}
use os_projet.Map.{
  Store, set_red, set_parent, set_left, set_right, adopt, replace_child, rotate_left, rotate_right,
  find_node,
}

abbrev pub joined : Option (List ℕ) → Option (List ℕ) → ℕ → Option (List ℕ)
joined none r n = none
joined (some xs) none n = none
joined (some xs) (some ys) n = some (xs ++ (ys ++ n ∷ []))

module _ {A : Type 0} where
  -- clear(n): the nodes it deletes, in order, on fuel for the depth.
  unfoldable pub clear_from : ℕ → Store A → ℕ → Option (List ℕ)
  clear_from zero s n = none
  clear_from (suc f) s n =
      let all = joined (clear_from f s (s.left n)) (clear_from f s (s.right n)) n in
      if n == 0 then some [] else all

  abbrev pub cleared : Store A → Option (List ℕ) → Option (List ℕ × Store A)
  cleared s none = none
  cleared s (some xs) = some (xs, record s { root = 0 })

  unfoldable pub clear : ℕ → Store A → Option (List ℕ × Store A)
  clear f s = cleared s (clear_from f s s.root)

  unfoldable pub transplant : ℕ → ℕ → Store A → Store A
  transplant u v s = let s1 = replace_child (s.parent u) u v s in adopt v (s1.parent u) s1

  -- The loop of erase down to the leftmost node.
  unfoldable pub leftmost : ℕ → Store A → ℕ → Option ℕ
  leftmost zero s y = none
  leftmost (suc f) s y =
      let rest = leftmost f s (s.left y) in if s.left y == 0 then some y else rest

  -- One turn of the loop of erase_fixup: the next n and the store. The first half is the case of a left child.
  unfoldable pub erase_step_left : ℕ → Store A → ℕ × Store A
  erase_step_left n s0 =
      let p = s0.parent n in
      let w0 = s0.right p in
      let s1 = if s0.red w0 then rotate_left p (set_red p true (set_red w0 false s0)) else s0 in
      let p1 = s1.parent n in
      let w1 = if s0.red w0 then s1.right p1 else w0 in
      if not (s1.red (s1.left w1)) && not (s1.red (s1.right w1))
      then (p1, set_red w1 true s1)
      else let far_black = not (s1.red (s1.right w1)) in
        let s2 =
          if far_black
          then rotate_right w1 (set_red w1 true (set_red (s1.left w1) false s1))
          else s1 in
        let w2 = if far_black then s2.right (s2.parent n) else w1 in
        let s3 = set_red w2 (s2.red (s2.parent n)) s2 in
        let s4 = set_red (s3.parent n) false s3 in
        let s5 = set_red (s4.right w2) false s4 in
        let s6 = rotate_left (s5.parent n) s5 in (s6.root, s6)

  unfoldable pub erase_step_right : ℕ → Store A → ℕ × Store A
  erase_step_right n s0 =
      let p = s0.parent n in
      let w0 = s0.left p in
      let s1 = if s0.red w0 then rotate_right p (set_red p true (set_red w0 false s0)) else s0 in
      let p1 = s1.parent n in
      let w1 = if s0.red w0 then s1.left p1 else w0 in
      if not (s1.red (s1.right w1)) && not (s1.red (s1.left w1))
      then (p1, set_red w1 true s1)
      else let far_black = not (s1.red (s1.left w1)) in
        let s2 =
          if far_black
          then rotate_left w1 (set_red w1 true (set_red (s1.right w1) false s1))
          else s1 in
        let w2 = if far_black then s2.left (s2.parent n) else w1 in
        let s3 = set_red w2 (s2.red (s2.parent n)) s2 in
        let s4 = set_red (s3.parent n) false s3 in
        let s5 = set_red (s4.left w2) false s4 in
        let s6 = rotate_right (s5.parent n) s5 in (s6.root, s6)

  unfoldable pub erase_fixup : ℕ → ℕ → Store A → Option (Store A)
  erase_fixup zero n s = none
  erase_fixup (suc f) n s =
      let step = if n == s.left (s.parent n) then erase_step_left n s else erase_step_right n s in
      let rest = erase_fixup f step.0 step.1 in
      if not (n == s.root) && not (s.red n) then rest else some (set_red n false s)

  -- The node y that takes the place of n when n has two children: y is out of its own place, and then takes over
  -- the children and the colour of n.
  unfoldable pub replace_by : ℕ → ℕ → Store A → Store A
  replace_by n y s =
      let x = s.right y in
      let s1 =
        if s.parent y == n
        then adopt x y s
        else let t1 = transplant y (s.right y) s in
          let t2 = set_right y (t1.right n) t1 in set_parent (t2.right y) y t2 in
      let s2 = transplant n y s1 in
      let s3 = set_left y (s2.left n) s2 in
      let s4 = set_parent (s3.left y) y s3 in set_red y (s4.red n) s4

  -- The end of erase with the colour of the node that has left its place: the node that is deleted, and the store.
  abbrev pub deleted : ℕ → Option (Store A) → Option (ℕ × Store A)
  deleted n none = none
  deleted n (some s) = some (n, s)

  unfoldable pub finish_erase : ℕ → ℕ → ℕ → Bool → Store A → Option (ℕ × Store A)
  finish_erase f n x was_red s =
      let fixed = deleted n (erase_fixup f x s) in if was_red then some (n, s) else fixed

  abbrev pub erase_inner : ℕ → ℕ → Store A → Option ℕ → Option (ℕ × Store A)
  erase_inner f n s none = none
  erase_inner f n s (some y) = finish_erase f n (s.right y) (s.red y) (replace_by n y s)

  abbrev pub erase_node : ℕ → Store A → Option ℕ → Option (ℕ × Store A)
  erase_node f s none = none
  erase_node f s (some n) =
      let one_right = finish_erase f n (s.right n) (s.red n) (transplant n (s.right n) s) in
      let one_left = finish_erase f n (s.left n) (s.red n) (transplant n (s.left n) s) in
      let two = erase_inner f n s (leftmost f s (s.right n)) in
      if n == 0
      then some (0, s)
      else if s.left n == 0
      then one_right
      else if s.right n == 0
      then one_left
      else two

  -- The node that is deleted, 0 for none, and the store.
  unfoldable pub erase : ℕ → Store A → ℕ → Option (ℕ × Store A)
  erase f s k = erase_node f s (find_node f s k)

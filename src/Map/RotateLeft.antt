-- ===== src/Map/RotateLeft.antt =====
-- The left rotation of kstdlib/map.hh keeps the tree, its order and what is above it.
use os_projet.Common.{
  ℕ, ◌+◌, ◌≤◌, ◌<◌, ◌≡◌, ◌≢◌, refl, ◌∙◌, Bool, not, ◌&&◌, ◌==◌, if◌then◌else◌, arith, inl, inr,
}
use os_projet.Map.{Store, rotate_left}
use os_projet.Map.Shape.{
  Tree, fork, Above, top, in_left, in_right, pointer, above, Stands, Holds, Same, Stands-Same,
}
use os_projet.Map.Links.{
  other_key, pointer_in, above_out, Stands-Reparented, Relinks, Holds-Relinks, not_pointer,
  not_above,
}

module _ {A : Type 0} where
  -- A left rotation of the store, as its writes: to n, to its right child y, to the parent of n and to the left
  -- child of y.
  pub record TurnsLeft (s s' : Store A) (n y b p : ℕ) : Type 0 where
    pub kept : (x : ℕ) → (s'.key x ≡ s.key x) × (s'.value x ≡ s.value x) × (s'.red x ≡ s.red x)
    pub root : s'.root ≡ (if p == 0 then y else s.root)
    pub parent :
        (x : ℕ)
        → s'.parent x ≡ (
            if x == n
            then y
            else if x == y
            then p
            else if not (b == 0) && x == b
            then n
            else s.parent x)
    pub left :
        (x : ℕ)
        → s'.left x
          ≡ (if x == y then n else if not (p == 0) && n == s.left p && x == p then y else s.left x)
    pub right :
        (x : ℕ)
        → s'.right x ≡ (
            if not (p == 0) && not (n == s.left p) && x == p
            then y
            else if x == n
            then b
            else s.right x)

  pub rotate_left-TurnsLeft :
      (s : Store A) (n y b p : ℕ)
      → s.right n ≡ y
      → s.left y ≡ b
      → s.parent n ≡ p
      → n ≢ y
      → n ≢ b
      → TurnsLeft s (rotate_left n s) n y b p
  unfolding rotate_left
  rotate_left-TurnsLeft s n y b p ey eb ep ny nb = record {
    kept = λ x. (refl, refl, refl);
    root = ground (arith, ey, eb, ep);
    parent = λ x. ground (arith, ey, eb, ep);
    left = λ x. ground (arith, ey, eb, ep);
    right = λ x. ground (arith, ey, eb, ep);
  }

  TurnsLeft-Same :
      (s s' : Store A) (n y b p x : ℕ)
      → TurnsLeft s s' n y b p
      → x ≢ n
      → x ≢ y
      → x ≢ p
      → x ≢ b
      → Same s s' x
  TurnsLeft-Same s s' n y b p x t xn xy xp xb = record {
    key = (t.kept x).0;
    value = (t.kept x).1;
    red = (t.kept x).2;
    parent = t.parent x ∙ ground arith;
    left = t.left x ∙ ground arith;
    right = t.right x ∙ ground arith;
  }

  pub TurnsLeft-Stands :
      (s s' : Store A) (lo hi : ℕ) (C : Above A) (a : Tree A) (n kn : ℕ) (vn : A) (cn : Bool)
      (b : Tree A) (y ky : ℕ) (vy : A) (cy : Bool) (c : Tree A)
      → TurnsLeft s s' n y (pointer b) (above C)
      → Holds s lo hi C n
      → Stands s (above C) lo hi (fork a n kn vn cn (fork b y ky vy cy c))
      → Stands s' (above C) lo hi (fork (fork a n kn vn cn b) y ky vy cy c)
  TurnsLeft-Stands s s' lo hi C a n kn vn cn b y ky vy cy c t hC
        (low, high, hn, ha, (low', high', hy, hb, hc)) =
      let n≢y : n ≢ y = other_key s n y (omega (arith, hn.key, hy.key)) in
      let n≢b : n ≢ pointer b =
        not_pointer s y (kn + 1) ky b n hb hn.real (inl (omega (arith, hn.key))) in
      let y≢b : y ≢ pointer b =
        not_pointer s y (kn + 1) ky b y hb hy.real (inr (omega (arith, hy.key))) in
      let n≢p : n ≢ above C =
        not_above s lo hi C n n hC hn.real (omega (arith, hn.key)) (omega (arith, hn.key)) in
      let y≢p : y ≢ above C =
        not_above s lo hi C n y hC hy.real (omega (arith, hy.key)) (omega (arith, hy.key)) in
      let b≢p : pointer b ≢ 0 → pointer b ≢ above C = λ real.
        not_above s lo hi C n (pointer b) hC real (ground (arith, pointer_in s y (kn + 1) ky b hb))
          (ground (arith, pointer_in s y (kn + 1) ky b hb)) in
      let same : (x : ℕ)
          → x ≢ 0
          → lo ≤ s.key x
          → s.key x < hi
          → s.key x ≢ kn
          → s.key x ≢ ky
          → x ≢ pointer b
          → Same s s' x =
        λ x real xlo xhi xn xy xb.
          TurnsLeft-Same s s' n y (pointer b) (above C) x t
            (other_key s x n (ground (arith, hn.key))) (other_key s x y (ground (arith, hy.key)))
            (not_above s lo hi C n x hC real xlo xhi) xb in
      (
        omega arith,
        high',
        record {
          real = hy.real;
          key = (t.kept y).0 ∙ hy.key;
          value = (t.kept y).1 ∙ hy.value;
          red = (t.kept y).2 ∙ hy.red;
          parent = t.parent y ∙ ground arith;
          left = t.left y ∙ ground arith;
          right = t.right y ∙ ground (arith, hy.right);
        },
        (
          low,
          omega arith,
          record {
            real = hn.real;
            key = (t.kept n).0 ∙ hn.key;
            value = (t.kept n).1 ∙ hn.value;
            red = (t.kept n).2 ∙ hn.red;
            parent = t.parent n ∙ ground arith;
            left = t.left n ∙ ground (arith, hn.left);
            right = t.right n ∙ ground arith;
          },
          Stands-Same s s' n lo kn a
              (λ x real xlo xhi.
                same x real xlo (omega arith) (omega arith) (omega arith)
                  (not_pointer s y (kn + 1) ky b x hb real (inl (omega arith))))
              ha,
          Stands-Reparented s s' y n (kn + 1) ky b hb
              (λ real. record {
                key = (t.kept (pointer b)).0;
                value = (t.kept (pointer b)).1;
                parent = t.parent (pointer b) ∙ ground arith;
                red = (t.kept (pointer b)).2;
                left = t.left (pointer b) ∙ ground (arith, b≢p real);
                right = t.right (pointer b) ∙ ground (arith, b≢p real);
              })
              (λ x real xlo xhi xb.
                same x real (omega arith) (omega arith) (omega arith) (omega arith) xb),
        ),
        Stands-Same s s' y (ky + 1) hi c
            (λ x real xlo xhi.
              same x real (omega arith) xhi (omega arith) (omega arith)
                (not_pointer s y (kn + 1) ky b x hb real (inr (omega arith))))
            hc,
      )

  TurnsLeft-Relinks :
      (s s' : Store A) (lo hi : ℕ) (C : Above A) (n y b : ℕ)
      → TurnsLeft s s' n y b (above C)
      → Holds s lo hi C n
      → n ≢ 0
      → lo ≤ s.key n
      → s.key n < hi
      → y ≢ above C
      → n ≢ above C
      → (above C ≢ 0 → above C ≢ b)
      → Relinks s s' C y
  TurnsLeft-Relinks s s' lo hi top n y b t h real low high yp np pb = t.root
  TurnsLeft-Relinks s s' lo hi (in_left p k v c r C) n y b t (e, kl, (hi', kh, hp, hr, hC)) real low
        high yp np pb =
      (
        t.root ∙ ground (arith, hp.real),
        (t.kept p).0,
        (t.kept p).1,
        (t.kept p).2,
        t.parent p ∙ ground (arith, pb hp.real),
        t.left p ∙ ground (arith, hp.real, hp.left),
        t.right p ∙ ground (arith, hp.real, hp.left),
      )
  TurnsLeft-Relinks s s' lo hi (in_right l p k v c C) n y b t (e, kh, (lo', kl, hp, hl, hC)) real
        low high yp np pb =
      let nl : n ≢ pointer l = not_pointer s p lo' k l n hl real (inr (omega arith)) in
      (
        t.root ∙ ground (arith, hp.real),
        (t.kept p).0,
        (t.kept p).1,
        (t.kept p).2,
        t.parent p ∙ ground (arith, pb hp.real),
        t.left p ∙ ground (arith, hp.real, hp.left),
        t.right p ∙ ground (arith, hp.real, hp.left),
      )

  -- A left rotation below anything: n goes down to the left of its right child.
  pub rotate_left-Stands :
      (s : Store A) (lo hi : ℕ) (C : Above A) (a : Tree A) (n kn : ℕ) (vn : A) (cn : Bool)
      (b : Tree A) (y ky : ℕ) (vy : A) (cy : Bool) (c : Tree A)
      → Holds s lo hi C n
      → Stands s (above C) lo hi (fork a n kn vn cn (fork b y ky vy cy c))
      → Stands (rotate_left n s) (above C) lo hi (fork (fork a n kn vn cn b) y ky vy cy c)
        × Holds (rotate_left n s) lo hi C y
  rotate_left-Stands s lo hi C a n kn vn cn b y ky vy cy c hC
        (low, high, hn, ha, (low', high', hy, hb, hc)) =
      let n≢y : n ≢ y = other_key s n y (omega (arith, hn.key, hy.key)) in
      let n≢b : n ≢ pointer b =
        not_pointer s y (kn + 1) ky b n hb hn.real (inl (omega (arith, hn.key))) in
      let n≢p : n ≢ above C =
        not_above s lo hi C n n hC hn.real (omega (arith, hn.key)) (omega (arith, hn.key)) in
      let y≢p : y ≢ above C =
        not_above s lo hi C n y hC hy.real (omega (arith, hy.key)) (omega (arith, hy.key)) in
      let t =
        rotate_left-TurnsLeft s n y (pointer b) (above C) hn.right hy.left hn.parent n≢y n≢b in
      let p≢b : above C ≢ 0 → above C ≢ pointer b = λ real.
        not_pointer s y (kn + 1) ky b (above C) hb real
          (ground (arith, above_out s lo hi C n hC)) in
      (
        TurnsLeft-Stands s (rotate_left n s) lo hi C a n kn vn cn b y ky vy cy c t hC
            (low, high, hn, ha, (low', high', hy, hb, hc)),
        Holds-Relinks s (rotate_left n s) lo hi C n y hC
            (TurnsLeft-Relinks s (rotate_left n s) lo hi C n y (pointer b) t hC hn.real
              (omega (arith, hn.key)) (omega (arith, hn.key)) y≢p n≢p p≢b)
            (λ x real out xp.
              TurnsLeft-Same s (rotate_left n s) n y (pointer b) (above C) x t
                (other_key s x n (ground (arith, hn.key, out)))
                (other_key s x y (ground (arith, hy.key, out))) xp
                (not_pointer s y (kn + 1) ky b x hb real (ground (arith, out)))),
      )

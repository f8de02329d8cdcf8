-- ===== src/Map/Spot.antt =====
-- The place of the node that a search in a map of kstdlib/map.hh finds.
use os_projet.Common.{ℕ, ◌≡◌, ◌≢◌, refl, Bool, true, false, if◌then◌else◌, ltb}
use os_projet.Map.{Store}
use os_projet.Map.Shape.{Tree, leaf, fork, Above, in_left, in_right}
use os_projet.Map.Balance.{is_red, under_black, plug}
use os_projet.Map.Zipper.{to_left, to_right}
use os_projet.Map.Focus.{Focus}
use os_projet.Map.Place.{search, Allows-left, Allows-right}

module _ {A : Type 0} where
  -- The node at n in the tree t.
  pub record Spot (s : Store A) (t : Tree A) (n : ℕ) : Type 0 where
    pub place : Above A
    pub left : Tree A
    pub key : ℕ
    pub value : A
    pub red : Bool
    pub right : Tree A
    pub focus : Focus s place (fork left n key value red right)
    pub same : plug place (fork left n key value red right) ≡ t

  pub search-Spot :
      (s : Store A) (k : ℕ) (C : Above A) (t : Tree A)
      → Focus s C t
      → (is_red t ≡ true → under_black C ≡ true)
      → search k t ≢ 0
      → Spot s (plug C t) (search k t)
  search-Spot s k C leaf h up ne = absurd (ne refl)
  search-Spot s k C (fork l p kp v c r) h up ne =
      go (ltb k kp) (ltb kp k) ne
        (search-Spot s k (in_left p kp v c r C) l
          record {
            at = to_left s C l p kp v c r h.at;
            balanced = h.balanced.1;
            calm = h.calm.2;
            fits = (h.balanced.0, h.balanced.2, h.fits);
            calms = (h.calm.1, h.calm.3, up, h.calms);
          }
          (Allows-left c (is_red l) p kp v r C h.calm.0))
        (search-Spot s k (in_right l p kp v c C) r
          record {
            at = to_right s C l p kp v c r h.at;
            balanced = h.balanced.2;
            calm = h.calm.3;
            fits = (h.balanced.0, h.balanced.1, h.fits);
            calms = (h.calm.0, h.calm.2, up, h.calms);
          }
          (Allows-right c (is_red r) l p kp v C h.calm.1))
    where
      go :
          (b d : Bool)
          → (if b then search k l else if d then search k r else p) ≢ 0
          → (search k l ≢ 0 → Spot s (plug C (fork l p kp v c r)) (search k l))
          → (search k r ≢ 0 → Spot s (plug C (fork l p kp v c r)) (search k r))
          → Spot s
              (plug C (fork l p kp v c r))
              (if b then search k l else if d then search k r else p)
      go true d ne below_left below_right = below_left ne
      go false true ne below_left below_right = below_right ne
      go false false ne below_left below_right = record {
        place = C;
        left = l;
        key = kp;
        value = v;
        red = c;
        right = r;
        focus = h;
        same = refl;
      }

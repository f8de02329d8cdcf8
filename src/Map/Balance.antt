-- ===== src/Map/Balance.antt =====
-- The balance of a red-black tree: no red node has a red child, and the paths down have the same number of
-- black nodes. The same for what is above a subtree.
use os_projet.Common.{ℕ, ◌+◌, ◌≡◌, refl, sym, ◌∙◌, Bool, true, false, arith, List, [], ◌∷◌, ◌++◌}
use mathlib.Core.List.{append-nil, append_assoc}
use os_projet.Map.Shape.{Tree, leaf, fork, Above, top, in_left, in_right}

-- A node above n black ones.
abbrev pub black : Bool → ℕ → ℕ
black true n = n
black false n = n + 1

-- A node of the colour c may have these children.
abbrev pub Allows : Bool → Bool → Type 0
Allows c d = c ≡ true → d ≡ false

module _ {A : Type 0} where
  abbrev pub is_red : Tree A → Bool
  is_red leaf = false
  is_red (fork l p k v c r) = c

  abbrev pub black_height : Tree A → ℕ
  black_height leaf = 0
  black_height (fork l p k v c r) = black c (black_height l)

  abbrev pub Balanced : Tree A → Type 0
  Balanced leaf = Unit
  Balanced (fork l p k v c r) = (black_height l ≡ black_height r) × Balanced l × Balanced r

  abbrev pub Calm : Tree A → Type 0
  Calm leaf = Unit
  Calm (fork l p k v c r) = Allows c (is_red l) × Allows c (is_red r) × Calm l × Calm r

  pub record IsRedBlack (t : Tree A) : Type 0 where
    pub balanced : Balanced t
    pub calm : Calm t
    pub black_root : is_red t ≡ false

  -- Whether the node below may be red: there is a node above it, and it is black.
  abbrev pub under_black : Above A → Bool
  under_black top = false
  under_black (in_left p k v true r C) = false
  under_black (in_left p k v false r C) = true
  under_black (in_right l p k v true C) = false
  under_black (in_right l p k v false C) = true

  -- A subtree with the black height h may stand here.
  abbrev pub Fits : ℕ → Above A → Type 0
  Fits h top = Unit
  Fits h (in_left p k v c r C) = (h ≡ black_height r) × Balanced r × Fits (black c h) C
  Fits h (in_right l p k v c C) =
      (black_height l ≡ h) × Balanced l × Fits (black c (black_height l)) C

  -- No red node above has a red child, what stands here apart.
  abbrev pub Calms : Above A → Type 0
  Calms top = Unit
  Calms (in_left p k v c r C) =
      Allows c (is_red r) × Calm r × (c ≡ true → under_black C ≡ true) × Calms C
  Calms (in_right l p k v c C) =
      Allows c (is_red l) × Calm l × (c ≡ true → under_black C ≡ true) × Calms C

  abbrev pub plug : Above A → Tree A → Tree A
  plug top t = t
  plug (in_left p k v c r C) t = plug C (fork t p k v c r)
  plug (in_right l p k v c C) t = plug C (fork l p k v c t)

  pub Balanced-plug :
      (C : Above A) (t : Tree A) → Balanced t → Fits (black_height t) C → Balanced (plug C t)
  Balanced-plug top t b fits = b
  Balanced-plug (in_left p k v c r C) t b (e, br, fits) =
      Balanced-plug C (fork t p k v c r) (e, b, br) fits
  Balanced-plug (in_right l p k v c C) t b (e, bl, fits) =
      Balanced-plug C (fork l p k v c t) (e, bl, b) fits

  -- A node that is not red may stand anywhere, a red one under a black one or at the top.
  abbrev pub Stood : Above A → Bool → Type 0
  Stood top d = Unit
  Stood (in_left p k v c r C) d = Allows c d
  Stood (in_right l p k v c C) d = Allows c d

  pub under_black-Stood : (C : Above A) (d : Bool) → (d ≡ true → under_black C ≡ true) → Stood C d
  under_black-Stood top d up = tt
  under_black-Stood (in_left p k v true r C) true up = λ e. sym (up refl)
  under_black-Stood (in_left p k v true r C) false up = λ e. refl
  under_black-Stood (in_left p k v false r C) d up = λ e. ground (arith, e)
  under_black-Stood (in_right l p k v true C) true up = λ e. sym (up refl)
  under_black-Stood (in_right l p k v true C) false up = λ e. refl
  under_black-Stood (in_right l p k v false C) d up = λ e. ground (arith, e)

  pub Calm-plug :
      (C : Above A) (t : Tree A) → Calm t → Calms C → Stood C (is_red t) → Calm (plug C t)
  Calm-plug top t calm calms stood = calm
  Calm-plug (in_left p k v c r C) t calm (ar, cr, up, calms) stood =
      Calm-plug C (fork t p k v c r) (stood, ar, calm, cr) calms (under_black-Stood C c up)
  Calm-plug (in_right l p k v c C) t calm (al, cl, up, calms) stood =
      Calm-plug C (fork l p k v c t) (al, stood, cl, calm) calms (under_black-Stood C c up)

  -- The nodes in order, as their addresses, keys and values.
  abbrev pub entries : Tree A → List (ℕ × ℕ × A)
  entries leaf = []
  entries (fork l p k v c r) = entries l ++ (p, k, v) ∷ entries r

  -- What is above gives the entries before and after.
  abbrev pub before : Above A → List (ℕ × ℕ × A)
  before top = []
  before (in_left p k v c r C) = before C
  before (in_right l p k v c C) = before C ++ entries l ++ (p, k, v) ∷ []

  abbrev pub after : Above A → List (ℕ × ℕ × A)
  after top = []
  after (in_left p k v c r C) = (p, k, v) ∷ entries r ++ after C
  after (in_right l p k v c C) = after C

  pub entries-plug :
      (C : Above A) (t : Tree A) → entries (plug C t) ≡ before C ++ entries t ++ after C
  entries-plug top t = sym (append-nil (entries t))
  entries-plug (in_left p k v c r C) t = entries-plug C (fork t p k v c r) ∙ simp append_assoc
  entries-plug (in_right l p k v c C) t = entries-plug C (fork l p k v c t) ∙ simp append_assoc

-- ===== src/Sched/Dfs/Once.antt =====
-- The search ends, never reports a cycle, and queues each process that it visits exactly once.
use os_projet.Common.{
  ℕ, zero, suc, ◌+◌, ◌≤◌, max, true, false, List, [], ◌∷◌, if◌then◌else◌, ◌==◌, ◌≡◌, refl, inl, inr,
  arith, Bool-cases,
}
use os_projet.Sched.Dfs.{
  RbTree, nil, node, Search, Outcome, done, ◌>>=◌, enter, leave, dfs, dfs_over_forward_edges, start,
  assign,
}

-- How often a key is queued.
abbrev pub count : ℕ → List (ℕ × ℕ) → ℕ
count k [] = 0
count k ((j, p) ∷ q) = (if j == k then 1 else 0) + count k q

-- From s to s' the key k was left alone, or visited for the first time and queued once.
abbrev Moves : Search → Search → ℕ → Type 0
Moves s s' k =
    (s.visited k ≡ true → (s'.visited k ≡ true) × (count k s'.queue ≡ count k s.queue))
    × (s.visited k ≡ false → count k s'.queue ≡ (if s'.visited k then 1 else 0) + count k s.queue)
    × (s'.in_recursion_stack k ≡ s.in_recursion_stack k)

-- Only visited keys stand on the recursion stack.
abbrev Stacked : Search → Type 0
Stacked s = (k : ℕ) → s.in_recursion_stack k ≡ true → s.visited k ≡ true

record Ran (s : Search) (o : Outcome) : Type 0 where
  final : Search
  result : o ≡ done final
  stacked : Stacked final
  moves : (k : ℕ) → Moves s final k

Ran-refl : (s : Search) → Stacked s → Ran s (done s)
Ran-refl s h = record { final = s; result = refl; stacked = h; moves = λ k. ground arith }

Ran-trans : (s t : Search) (o : Outcome) → ((k : ℕ) → Moves s t k) → Ran t o → Ran s o
Ran-trans s t o h r = record {
  final = r.final;
  result = r.result;
  stacked = r.stacked;
  moves = λ k. ground (arith, h k, r.moves k);
}

abbrev entered : ℕ → Search → Search
entered pid s = record s {
  visited = assign s.visited pid true;
  in_recursion_stack = assign s.in_recursion_stack pid true;
}

enter-entered :
    (pid : ℕ) (s : Search) → Stacked s → s.visited pid ≡ false → enter pid s ≡ done (entered pid s)
unfolding enter
enter-entered pid s h e = ground (arith, h pid)

entered-Stacked : (pid : ℕ) (s : Search) → Stacked s → Stacked (entered pid s)
entered-Stacked pid s h k = ground (arith, h k)

-- What lies between entering a key and leaving it leaves the key alone.
around :
    (pid p : ℕ) (s t : Search)
    → Stacked s
    → s.visited pid ≡ false
    → ((k : ℕ) → Moves (entered pid s) t k)
    → (k : ℕ) → Moves s (leave pid p t) k
unfolding leave
around pid p s t hs e h k = ground (arith, h k, hs k)

leave-Stacked : (pid p : ℕ) (t : Search) → Stacked t → Stacked (leave pid p t)
unfolding leave
leave-Stacked pid p t h k = ground (arith, h k)

Ran-bind :
    (s : Search) (m : Outcome) (f : Search → Outcome)
    → Ran s m
    → ((u : Search) → Stacked u → Ran u (f u))
    → Ran s (m >>= f)
Ran-bind s m f r g = rw (r.result) (Ran-trans s r.final (f r.final) r.moves (g r.final r.stacked))

-- One visit, from what is promised of the three calls that it makes.
visit-Ran :
    (pid p : ℕ) (s : Search) (inner left right : Search → Outcome)
    → Stacked s
    → s.visited pid ≡ false
    → Ran (entered pid s) (inner (entered pid s))
    → ((u : Search) → Stacked u → Ran u (left u))
    → ((u : Search) → Stacked u → Ran u (right u))
    → Ran s (enter pid s >>= λ s1. inner s1 >>= λ s2. left (leave pid p s2) >>= λ s3. right s3)
visit-Ran pid p s inner left right hs e hi hl hr =
    let t : Search = leave pid p hi.final in
    rw (enter-entered pid s hs e, hi.result)
      (Ran-trans s t (left t >>= right) (around pid p s hi.final hs e hi.moves)
        (Ran-bind t (left t) right (hl t (leave-Stacked pid p hi.final hi.stacked)) hr))

abbrev pub height : RbTree → ℕ
height nil = 0
height (node l k p r) = suc (max (height l) (height r))

module _ (edges : ℕ → RbTree) (H : ℕ) (bound : (p : ℕ) → height (edges p) ≤ H) where
  -- A key that is visited is not entered again.
  dfs_visited :
      (f pid p : ℕ) (l r : RbTree) (s : Search)
      → s.visited pid ≡ true
      → dfs edges (suc f) (node l pid p r) s ≡ done s
  unfolding dfs
  dfs_visited f pid p l r s e = rw e

  dfs_over-Ran :
      (f : ℕ) (t : RbTree) (s : Search)
      → height t + 2 ≤ f
      → Stacked s
      → Ran s (dfs_over_forward_edges edges f t s)
  unfolding dfs_over_forward_edges
  dfs_over-Ran zero t s h hs = absurd (omega arith)
  dfs_over-Ran (suc zero) t s h hs = absurd (omega arith)
  dfs_over-Ran (suc (suc f)) nil s h hs = Ran-refl s hs
  dfs_over-Ran (suc (suc f)) (node l pid p r) s h hs = elim (Bool-cases (s.visited pid)) [
    | inl old ↦ rw old (Ran-refl s hs)
    | inr new ↦
        let u : Search = entered pid s in
        let inner : dfs edges (suc f) (node l pid p r) u ≡ done u =
          dfs_visited f pid p l r u (ground arith) in
        rw new (
          visit-Ran pid p s (dfs edges (suc f) (node l pid p r))
            (dfs_over_forward_edges edges (suc f) l) (dfs_over_forward_edges edges (suc f) r) hs new
            (rw inner (Ran-refl u (entered-Stacked pid s hs)))
            (λ v hv. dfs_over-Ran (suc f) l v (omega arith) hv)
            (λ v hv. dfs_over-Ran (suc f) r v (omega arith) hv))
  ]

  dfs-Ran :
      (f : ℕ) (t : RbTree) (s : Search) → height t + H + 3 ≤ f → Stacked s → Ran s (dfs edges f t s)
  unfolding dfs
  dfs-Ran zero t s h hs = absurd (omega arith)
  dfs-Ran (suc f) nil s h hs = Ran-refl s hs
  dfs-Ran (suc f) (node l pid p r) s h hs = elim (Bool-cases (s.visited pid)) [
    | inl old ↦ rw old (Ran-refl s hs)
    | inr new ↦
        let u : Search = entered pid s in
        rw new (
          visit-Ran pid p s (dfs_over_forward_edges edges f (edges p)) (dfs edges f l)
            (dfs edges f r) hs new
            (dfs_over-Ran f (edges p) u (omega (arith, bound p)) (entered-Stacked pid s hs))
            (λ v hv. dfs-Ran f l v (omega arith) hv) (λ v hv. dfs-Ran f r v (omega arith) hv))
  ]

-- What a finished search has built.
pub record Built (o : Outcome) : Type 0 where
  pub final : Search
  pub result : o ≡ done final
  pub once : (k : ℕ) → count k final.queue ≡ (if final.visited k then 1 else 0)
  pub cleared : (k : ℕ) → final.in_recursion_stack k ≡ false

-- With fuel for the heights of the trees the search ends, never with the exception for a cycle
-- whatever the edges are, queues each key that it visits exactly once and no other, and leaves the
-- recursion stack empty.
pub dfs-Built :
    (edges : ℕ → RbTree) (H : ℕ) (f : ℕ) (t : RbTree)
    → ((p : ℕ) → height (edges p) ≤ H)
    → height t + H + 3 ≤ f
    → Built (dfs edges f t start)
dfs-Built edges H f t bound h =
    let r : Ran start (dfs edges f t start) =
      dfs-Ran edges H bound f t start h (unfold start in λ k e. cc) in
    record {
      final = r.final;
      result = r.result;
      once = λ k. unfold start in ground (arith, r.moves k);
      cleared = λ k. unfold start in ground (arith, r.moves k);
    }

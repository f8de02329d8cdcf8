-- ===== src/Sched/Weights/Rebalance.antt =====
-- The redistribution by balances neither makes nor loses weight.
use mathlib.Core.Path.{ap₂}
use native.Mathlib.Decide.{dec_lt, ℕ_discrete}
use os_projet.Common.{
  ℕ, ◌+◌, ◌-◌, ◌*◌, ◌/◌, ◌^◌, ◌≤◌, ◌<◌, ◌≡◌, refl, ap, none, some, List, [], ◌∷◌, map, arith,
  Bool-cases, inl, inr, Option-cases,
}
use os_projet.Sched.Weights.{
  GraphNode, wrap, balanced, total_non_fixed_weight, total_sqrt_balance, reweighted,
  add_to_last_free, rebalance,
}
use os_projet.Sched.Weights.Laws.{
  sum_of, free_weight, free_balance, total_non_fixed_weight-sum, total_sqrt_balance-sum, shares_le,
  cancel,
}

-- What the passes leave alone.
sum_free-balanced :
    (c : ℕ) (ns : List GraphNode) → sum_of free_weight (map (balanced c) ns) ≡ sum_of free_weight ns
unfolding balanced
sum_free-balanced c [] = refl
sum_free-balanced c (n ∷ ns) = ground (arith, sum_free-balanced c ns)

sum_balance-reweighted :
    (t s : ℕ) (ns : List GraphNode)
    → sum_of free_balance (map (reweighted t s) ns) ≡ sum_of free_balance ns
unfolding reweighted
sum_balance-reweighted t s [] = refl
sum_balance-reweighted t s (n ∷ ns) = ground (arith, sum_balance-reweighted t s ns)

weigh_head : (t x y : ℕ) → t * (x + y) < 2 ^ 64 → t * x < 2 ^ 64
weigh_head t x y h = omega arith

weigh_tail : (t x y : ℕ) → t * (x + y) < 2 ^ 64 → t * y < 2 ^ 64
weigh_tail t x y h = omega arith

share-reweighted :
    (t s : ℕ) (n : GraphNode)
    → t * free_balance n < 2 ^ 64
    → free_weight (reweighted t s n) ≡ free_balance n * t / s
unfolding reweighted
share-reweighted t s n h = elim (Bool-cases n.weight_fixed) [
  | inl fixed ↦ rw (fixed) (omega arith)
  | inr free ↦
      let fits : t * n.balance < 2 ^ 64 = ground (arith, free, h) in
      let e : wrap (t * n.balance) ≡ n.balance * t = omega arith in rw free (ap (λ x. x / s) e)
]

-- The weights after the second loop are shares of the total.
sum_free-reweighted :
    (t s : ℕ) (ns : List GraphNode)
    → t * sum_of free_balance ns < 2 ^ 64
    → sum_of free_weight (map (reweighted t s) ns) ≡ sum_of (λ n. free_balance n * t / s) ns
unfolding reweighted
sum_free-reweighted t s [] h = refl
sum_free-reweighted t s (n ∷ ns) h =
    ap₂ (λ x y. x + y)
      (share-reweighted t s n (weigh_head t (free_balance n) (sum_of free_balance ns) h))
      (sum_free-reweighted t s ns (weigh_tail t (free_balance n) (sum_of free_balance ns) h))

add_to_last_free-none :
    (extra : ℕ) (ns : List GraphNode)
    → add_to_last_free extra ns ≡ none
    → sum_of free_balance ns ≡ 0
unfolding add_to_last_free
add_to_last_free-none extra [] h = refl
add_to_last_free-none extra (n ∷ ns) h = ground (arith, add_to_last_free-none extra ns)

add_to_last_free-some :
    (extra : ℕ) (ns ns' : List GraphNode)
    → sum_of free_weight ns + extra < 2 ^ 64
    → add_to_last_free extra ns ≡ some ns'
    → sum_of free_weight ns' ≡ sum_of free_weight ns + extra
unfolding add_to_last_free
add_to_last_free-some extra [] ns' h e = cc
add_to_last_free-some extra (n ∷ ns) ns' h e = elim (Option-cases (add_to_last_free extra ns)) [
  | inl last ↦ ground (arith, last)
  | inr (ms, more) ↦ ground (arith, more, add_to_last_free-some extra ns ms)
]

-- The redistribution succeeds, and the weights that are not fixed add up to what they added up to
-- before, provided that sum T, the sum S of the new balances and T * S are below 2 ^ 64.
pub rebalance_keeps_weight :
    (cycle_counter : ℕ) (ns : List GraphNode)
    → sum_of free_weight ns < 2 ^ 64
    → sum_of free_balance (map (balanced cycle_counter) ns) < 2 ^ 64
    → sum_of free_weight ns * sum_of free_balance (map (balanced cycle_counter) ns) < 2 ^ 64
    → (ns' : List GraphNode) × (rebalance cycle_counter ns ≡ some ns')
      × (sum_of free_weight ns' ≡ sum_of free_weight ns)
unfolding rebalance
rebalance_keeps_weight c ns ht hs hts =
    let q : List GraphNode = map (balanced c) ns in
    let T : ℕ = total_non_fixed_weight 0 q in
    let S : ℕ = total_sqrt_balance 0 q in
    let kept : sum_of free_weight q ≡ sum_of free_weight ns = sum_free-balanced c ns in
    let eT : T ≡ sum_of free_weight ns =
      omega (arith, total_non_fixed_weight-sum 0 q (omega (arith, kept)), kept) in
    let eS : S ≡ sum_of free_balance q = omega (arith, total_sqrt_balance-sum 0 q (omega arith)) in
    let q' : List GraphNode = map (reweighted T S) q in
    let product : T * sum_of free_balance q < 2 ^ 64 = rw eT hts in
    let shares : sum_of free_weight q' ≡ sum_of (λ n. free_balance n * T / S) q =
      sum_free-reweighted T S q product in
    let below : sum_of free_weight q' * S ≤ S * T =
      rw (shares, eS) (shares_le T (sum_of free_balance q) free_balance q) in
    let assigned : ℕ = total_non_fixed_weight 0 q' in
    elim (ℕ_discrete S 0) [
      | yes none_used ↦ (q, ground (arith, none_used), kept)
      | no used ↦
          let le : sum_of free_weight q' ≤ T =
            cancel (sum_of free_weight q') T S (omega arith) below in
          let eA : assigned ≡ sum_of free_weight q' =
            omega (arith, total_non_fixed_weight-sum 0 q' (omega arith)) in
          elim (dec_lt assigned T) [
            | no all ↦ (q', ground (arith, used, all), omega arith)
            | yes short ↦ elim (Option-cases (add_to_last_free (T - assigned) q')) [
              | inl nowhere ↦ absurd (
                  used (
                    omega (
                      arith,
                      add_to_last_free-none (T - assigned) q' nowhere,
                      sum_balance-reweighted T S q,
                    )))
              | inr (ms, e) ↦ (
                ms,
                ground (arith, used, short, e),
                omega (arith, add_to_last_free-some (T - assigned) q' ms (omega arith) e),
              )
            ]
          ]
    ]

-- ===== src/Sched/Weights/Laws.antt =====
-- One update of the weights shares out exactly one cycle, and neither makes nor loses weight.
use os_projet.Common.{ℕ, ◌+◌, ◌*◌, ◌/◌, ◌^◌, ◌≤◌, ◌<◌, ◌≡◌, List, [], ◌∷◌, if◌then◌else◌, arith}
use os_projet.Sched.Weights.{
  GraphNode, wrap, total_weight, total_time, total_non_fixed_weight, total_sqrt_balance,
}

abbrev pub sum_of : (GraphNode → ℕ) → List GraphNode → ℕ
sum_of f [] = 0
sum_of f (n ∷ ns) = f n + sum_of f ns

abbrev pub weight_of : GraphNode → ℕ
weight_of n = n.weight

abbrev pub time_of : GraphNode → ℕ
time_of n = n.how_long

-- What a node adds to the sums over nodes whose weight is not fixed.
abbrev pub free_weight : GraphNode → ℕ
free_weight n = if n.weight_fixed then 0 else n.weight

abbrev pub free_balance : GraphNode → ℕ
free_balance n = if n.weight_fixed then 0 else n.balance

-- The accumulators, where they do not overflow.
pub total_weight-sum :
    (acc : ℕ) (ns : List GraphNode)
    → acc + sum_of weight_of ns < 2 ^ 64
    → total_weight acc ns ≡ acc + sum_of weight_of ns
unfolding total_weight
total_weight-sum acc [] h = omega arith
total_weight-sum acc (n ∷ ns) h =
    let e : wrap (acc + n.weight) ≡ acc + n.weight = omega arith in
    rw e (omega (arith, total_weight-sum (acc + n.weight) ns (omega arith)))

pub total_time-sum :
    (acc : ℕ) (ns : List GraphNode)
    → acc + sum_of time_of ns < 2 ^ 64
    → total_time acc ns ≡ acc + sum_of time_of ns
unfolding total_time
total_time-sum acc [] h = omega arith
total_time-sum acc (n ∷ ns) h =
    let e : wrap (acc + n.how_long) ≡ acc + n.how_long = omega arith in
    rw e (omega (arith, total_time-sum (acc + n.how_long) ns (omega arith)))

pub total_non_fixed_weight-sum :
    (acc : ℕ) (ns : List GraphNode)
    → acc + sum_of free_weight ns < 2 ^ 64
    → total_non_fixed_weight acc ns ≡ acc + sum_of free_weight ns
unfolding total_non_fixed_weight
total_non_fixed_weight-sum acc [] h = omega arith
total_non_fixed_weight-sum acc (n ∷ ns) h =
    let e : (if n.weight_fixed then acc else wrap (acc + n.weight)) ≡ acc + free_weight n =
      ground arith in
    rw e (omega (arith, total_non_fixed_weight-sum (acc + free_weight n) ns (omega arith)))

pub total_sqrt_balance-sum :
    (acc : ℕ) (ns : List GraphNode)
    → acc + sum_of free_balance ns < 2 ^ 64
    → total_sqrt_balance acc ns ≡ acc + sum_of free_balance ns
unfolding total_sqrt_balance
total_sqrt_balance-sum acc [] h = omega arith
total_sqrt_balance-sum acc (n ∷ ns) h =
    let e : (if n.weight_fixed then acc else wrap (acc + n.balance)) ≡ acc + free_balance n =
      ground arith in
    rw e (omega (arith, total_sqrt_balance-sum (acc + free_balance n) ns (omega arith)))

-- Shares rounded down come to no more than the whole.
share_step : (M W f s t : ℕ) → s * W ≤ t * M → (f * M / W + s) * W ≤ (f + t) * M
share_step M W f s t h = grind arith

pub shares_le :
    (M W : ℕ) (f : GraphNode → ℕ) (ns : List GraphNode)
    → sum_of (λ n. f n * M / W) ns * W ≤ sum_of f ns * M
shares_le M W f [] = omega arith
shares_le M W f (n ∷ ns) =
    share_step M W (f n) (sum_of (λ n. f n * M / W) ns) (sum_of f ns) (shares_le M W f ns)

pub cancel : (s M W : ℕ) → 0 < W → s * W ≤ W * M → s ≤ M
cancel s M W h k = grind arith

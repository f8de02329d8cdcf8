-- ===== src/Sched/Weights/Update.antt =====
-- One update of the weights shares out exactly one cycle, and neither makes nor loses weight.
use native.Mathlib.Decide.{ℕ_discrete}
use os_projet.Common.{
  ℕ, ◌+◌, ◌-◌, ◌*◌, ◌/◌, ◌^◌, ◌≤◌, ◌<◌, ◌≡◌, refl, ap, List, [], ◌∷◌, map, if◌then◌else◌, ◌==◌,
  arith,
}
use os_projet.Sched.Weights.{
  GraphNode, wrap, total_weight, total_time, timed, add_to_tail, reset_balance, assign_times,
}
use os_projet.Sched.Weights.Laws.{
  sum_of, weight_of, time_of, total_weight-sum, total_time-sum, shares_le, cancel,
}

sum_weight-reset :
    (ns : List GraphNode) → sum_of weight_of (map reset_balance ns) ≡ sum_of weight_of ns
unfolding reset_balance
sum_weight-reset [] = refl
sum_weight-reset (n ∷ ns) = ap (λ s. n.weight + s) (sum_weight-reset ns)

abbrev share : ℕ → ℕ → GraphNode → ℕ
share M W n = n.weight * M / W

sum_time-timed :
    (W : ℕ) (ns : List GraphNode)
    → sum_of weight_of ns < 2 ^ 32
    → sum_of time_of (map (timed W) ns) ≡ sum_of (λ n. n.weight * 2 ^ 32 / W) ns
unfolding timed
sum_time-timed W [] h = refl
sum_time-timed W (n ∷ ns) h =
    let e : wrap (n.weight * 2 ^ 32) ≡ n.weight * 2 ^ 32 = omega arith in
    rw e (ap (λ s. n.weight * 2 ^ 32 / W + s) (sum_time-timed W ns (omega arith)))

sum_time-add_to_tail :
    (extra : ℕ) (n : GraphNode) (ns : List GraphNode)
    → sum_of time_of (n ∷ ns) + extra < 2 ^ 64
    → sum_of time_of (add_to_tail extra (n ∷ ns)) ≡ sum_of time_of (n ∷ ns) + extra
unfolding add_to_tail
sum_time-add_to_tail extra n [] h = omega arith
sum_time-add_to_tail extra n (m ∷ ns) h =
    omega (arith, sum_time-add_to_tail extra m ns (omega arith))

-- The last correction, of a queue whose times come to at most a cycle.
settled :
    (n : GraphNode) (ns : List GraphNode)
    → sum_of time_of (n ∷ ns) ≤ 2 ^ 32
    → sum_of time_of (
        if total_time 0 (n ∷ ns) == 2 ^ 32
        then n ∷ ns
        else add_to_tail (wrap (2 ^ 32 + (2 ^ 64 - total_time 0 (n ∷ ns)))) (n ∷ ns))
      ≡ 2 ^ 32
settled n ns h =
    let t : ℕ = sum_of time_of (n ∷ ns) in
    let time : total_time 0 (n ∷ ns) ≡ t = omega (arith, total_time-sum 0 (n ∷ ns) (omega arith)) in
    let extra : ℕ = wrap (2 ^ 32 + (2 ^ 64 - t)) in
    let extra_eq : t < 2 ^ 32 → extra ≡ 2 ^ 32 - t = λ k. omega arith in
    elim (ℕ_discrete t (2 ^ 32)) [
      | yes full ↦ rw time (ground (arith, full))
      | no less ↦
          rw time
            (ground (arith, extra_eq (omega arith), sum_time-add_to_tail extra n ns (omega arith)))
    ]

-- After an update the times of the processes in the ready queue add up to exactly 2 ^ 32, one cycle,
-- provided the queue is not empty and the weights add up to more than 0 and less than 2 ^ 32.
pub sum_time-assign_times :
    (n : GraphNode) (ns : List GraphNode)
    → 0 < sum_of weight_of (n ∷ ns)
    → sum_of weight_of (n ∷ ns) < 2 ^ 32
    → sum_of time_of (assign_times (n ∷ ns)) ≡ 2 ^ 32
unfolding assign_times
sum_time-assign_times n ns pos small =
    let q1 : List GraphNode = map reset_balance (n ∷ ns) in
    let same : sum_of weight_of q1 ≡ sum_of weight_of (n ∷ ns) = sum_weight-reset (n ∷ ns) in
    let W : ℕ = total_weight 0 q1 in
    let total : W ≡ sum_of weight_of q1 = omega (arith, total_weight-sum 0 q1 (omega arith)) in
    let shares : ℕ = sum_of (λ m. m.weight * 2 ^ 32 / W) q1 in
    let timed_sum : sum_of time_of (map (timed W) q1) ≡ shares =
      sum_time-timed W q1 (omega arith) in
    let below : shares * W ≤ W * 2 ^ 32 = omega (arith, shares_le (2 ^ 32) W weight_of q1, total) in
    let le : shares ≤ 2 ^ 32 = cancel shares (2 ^ 32) W (omega arith) below in
    settled (timed W (reset_balance n)) (map (timed W) (map reset_balance ns))
      (omega (arith, timed_sum, le))

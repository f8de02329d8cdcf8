-- ===== src/Sched/Weights.antt =====
-- `hl_sched::update_weights` of kernel/proc/sched.cpp, over the nodes of the ready queue.
-- The nodes are pairwise distinct, so the loops that write them in turn are maps. `uint64_t` sums and
-- products wrap around modulo 2 ^ 64.
pub mod Laws
pub mod Update
pub mod Rebalance
use os_projet.Common.{
  ℕ, zero, suc, ◌+◌, ◌-◌, ◌*◌, ◌/◌, ◌%◌, ◌^◌, Bool, true, false, not, Option, none, some, List, [],
  ◌∷◌, map, if◌then◌else◌, ltb, ◌==◌,
}
use os_projet.Sched.Isqrt.{isqrt}

-- `struct graphnode`, without the edges.
pub record GraphNode : Type 0 where
  pub process : ℕ
  pub weight : ℕ
  pub how_long : ℕ
  pub balance : ℕ
  pub weight_fixed : Bool
  pub new_process : Bool

abbrev pub wrap : ℕ → ℕ
wrap x = x % 2 ^ 64

-- The first loop: the balance of a node that is not fixed becomes its square root.
unfoldable pub balanced : ℕ → GraphNode → GraphNode
balanced cycle_counter n = if n.weight_fixed then n else record n {
  balance = isqrt (if n.new_process then cycle_counter / 2 % 256 else n.balance);
  new_process = false;
}

unfoldable pub total_sqrt_balance : ℕ → List GraphNode → ℕ
total_sqrt_balance acc [] = acc
total_sqrt_balance acc (n ∷ ns) =
    total_sqrt_balance (if n.weight_fixed then acc else wrap (acc + n.balance)) ns

unfoldable pub total_non_fixed_weight : ℕ → List GraphNode → ℕ
total_non_fixed_weight acc [] = acc
total_non_fixed_weight acc (n ∷ ns) =
    total_non_fixed_weight (if n.weight_fixed then acc else wrap (acc + n.weight)) ns

unfoldable pub total_weight : ℕ → List GraphNode → ℕ
total_weight acc [] = acc
total_weight acc (n ∷ ns) = total_weight (wrap (acc + n.weight)) ns

unfoldable pub total_time : ℕ → List GraphNode → ℕ
total_time acc [] = acc
total_time acc (n ∷ ns) = total_time (wrap (acc + n.how_long)) ns

-- The second loop: a share of the weight for each node that is not fixed.
unfoldable pub reweighted : ℕ → ℕ → GraphNode → GraphNode
reweighted total balances n =
    if n.weight_fixed then n else record n { weight = wrap (total * n.balance) / balances }

-- `a_node_with_non_fixed_weight->weight += extra`: the last such node, if there is one.
unfoldable pub add_to_last_free : ℕ → List GraphNode → Option (List GraphNode)
add_to_last_free extra [] = none
add_to_last_free extra (n ∷ ns) =
    let rest = add_to_last_free extra ns in
    let here =
      if n.weight_fixed then none else some (record n { weight = wrap (n.weight + extra) } ∷ ns) in
    (elim rest [ some ns' ↦ some (n ∷ ns') | none ↦ here ])

unfoldable pub rebalance : ℕ → List GraphNode → Option (List GraphNode)
rebalance cycle_counter queue =
    let queue = map (balanced cycle_counter) queue in
    let balances = total_sqrt_balance 0 queue in
    let total = total_non_fixed_weight 0 queue in
    let queue' = map (reweighted total balances) queue in
    let assigned = total_non_fixed_weight 0 queue' in
    if balances == 0
    then some queue
    else if ltb assigned total
    then add_to_last_free (total - assigned) queue'
    else some queue'

-- The last two loops: the time of each node, in units of 2 ^ -32 of a cycle.
unfoldable pub timed : ℕ → GraphNode → GraphNode
timed total n = record n { how_long = wrap (n.weight * 2 ^ 32) / total }

-- `ready_queue_tail->node->how_long += extra`
unfoldable pub add_to_tail : ℕ → List GraphNode → List GraphNode
add_to_tail extra [] = []
add_to_tail extra (n ∷ []) = record n { how_long = wrap (n.how_long + extra) } ∷ []
add_to_tail extra (n ∷ m ∷ ns) = n ∷ add_to_tail extra (m ∷ ns)

unfoldable pub reset_balance : GraphNode → GraphNode
reset_balance n = record n { balance = 0 }

unfoldable pub assign_times : List GraphNode → List GraphNode
assign_times queue =
    let queue = map reset_balance queue in
    let queue' = map (timed (total_weight 0 queue)) queue in
    let time = total_time 0 queue' in
    if time == 2 ^ 32 then queue' else add_to_tail (wrap (2 ^ 32 + (2 ^ 64 - time))) queue'

-- The whole update when the weights are out of date. `none` stands for the exceptions, of an empty
-- queue or of no node with a weight that is not fixed, and for the division by a total weight of 0.
unfoldable pub update_weights : ℕ → List GraphNode → Option (List GraphNode)
update_weights cycle_counter [] = none
update_weights cycle_counter (n ∷ ns) = elim (rebalance cycle_counter (n ∷ ns)) [
  | none ↦ none
  | some queue ↦ if total_weight 0 queue == 0 then none else some (assign_times queue)
]

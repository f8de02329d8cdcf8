-- ===== src/Examples/Sched.antt =====
-- The scheduler on a queue of two processes, and the search on a graph with a cycle.
use os_projet.Common.{
  ℕ, ◌^◌, ◌≤◌, ◌≡◌, refl, true, false, arith, none, some, List, [], ◌∷◌, if◌then◌else◌, ◌==◌,
}
use os_projet.Sched.Isqrt.{isqrt}
use os_projet.Sched.Weights.{GraphNode, assign_times, rebalance, balanced}
use os_projet.Sched.Weights.Laws.{sum_of, time_of, free_weight}
use os_projet.Sched.Weights.Update.{sum_time-assign_times}
use os_projet.Sched.Weights.Rebalance.{rebalance_keeps_weight}
use os_projet.Sched.Dfs.{RbTree, nil, node, dfs, start}
use os_projet.Sched.Dfs.Once.{height, Built, dfs-Built}
use os_projet.Sched.Cycle.{Sched}
use os_projet.Sched.Cycle.Run.{run, commands, Ends, run-Ends}

abbrev first_node : GraphNode
first_node = record {
  process = 1;
  weight = 300;
  how_long = 0;
  balance = 9;
  weight_fixed = false;
  new_process = false;
}

abbrev second_node : GraphNode
second_node = record {
  process = 2;
  weight = 100;
  how_long = 0;
  balance = 4;
  weight_fixed = true;
  new_process = false;
}

abbrev two : List GraphNode
two = first_node ∷ second_node ∷ []

abbrev ready : Sched
ready = record {
  queue = two;
  iterator = none;
  current = 0;
  cycle_counter = 3;
  cycles_per_update = 10;
  graph_up = true;
  weights_up = true;
  waiting = false;
}

-- Two processes that wait for each other.
abbrev loop_edges : ℕ → RbTree
loop_edges p = if p == 1 then node nil 2 2 nil else node nil 1 1 nil

height-loop_edges : (p : ℕ) → height (loop_edges p) ≤ 1
height-loop_edges p = ground arith

sum_time-assign_times_example : sum_of time_of (assign_times two) ≡ 2 ^ 32
sum_time-assign_times_example =
    sum_time-assign_times first_node (second_node ∷ []) (omega arith) (omega arith)

rebalance_keeps_weight_example :
    (ns' : List GraphNode) × (rebalance 3 two ≡ some ns')
    × (sum_of free_weight ns' ≡ sum_of free_weight two)
unfolding balanced
rebalance_keeps_weight_example =
    rebalance_keeps_weight 3 two (omega arith) (unfold isqrt in omega arith)
      (unfold isqrt in omega arith)

dfs-Built_example : Built (dfs loop_edges 10 (node nil 1 1 nil) start)
dfs-Built_example = dfs-Built loop_edges 1 10 (node nil 1 1 nil) height-loop_edges (omega arith)

run-Ends_example : Ends ready (commands two) (run none (true ∷ false ∷ []) ready)
run-Ends_example =
    run-Ends none (true ∷ false ∷ []) ready refl refl refl (omega arith) (omega arith) refl

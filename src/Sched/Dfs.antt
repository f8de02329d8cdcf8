-- ===== src/Sched/Dfs.antt =====
-- `hl_sched::dfs` and `dfs_over_forward_edges` of kernel/proc/sched.cpp, which build the ready queue.
-- A `map<uint16_t, graphnode*>` is its red-black tree of keys and node pointers. An entry of the queue
-- keeps the key that its node was reached by beside the pointer. `visited` and `in_recursion_stack`,
-- which are only asked whether a key is there with `true`, are functions. The calls recur over the
-- trees of several nodes, so they take fuel.
pub mod Once
use os_projet.Common.{ℕ, zero, suc, Bool, true, false, List, [], ◌∷◌, if◌then◌else◌, ◌==◌}

pub data RbTree : Type 0 where
  nil : RbTree
  node : RbTree → ℕ → ℕ → RbTree → RbTree

pub record Search : Type 0 where
  pub visited : ℕ → Bool
  pub in_recursion_stack : ℕ → Bool
  pub queue : List (ℕ × ℕ)

pub data Outcome : Type 0 where
  done : Search → Outcome
  cycle_detected : Outcome
  out_of_fuel : Outcome

infixl 5 ◌>>=◌
abbrev pub ◌>>=◌ : Outcome → (Search → Outcome) → Outcome
done s >>= f = f s
cycle_detected >>= f = cycle_detected
out_of_fuel >>= f = out_of_fuel

-- `m[k] = b`
abbrev pub assign : (ℕ → Bool) → ℕ → Bool → ℕ → Bool
assign m k b j = if j == k then b else m j

unfoldable pub enter : ℕ → Search → Outcome
enter pid s =
    let s1 = record s { visited = assign s.visited pid true } in
    if s.in_recursion_stack pid
    then cycle_detected
    else done (record s1 { in_recursion_stack = assign s1.in_recursion_stack pid true })

-- `add_to_ready_queue_at_the_front(node); in_recursion_stack[pid] = false;`
unfoldable pub leave : ℕ → ℕ → Search → Search
leave pid p s = record s {
  queue = (pid, p) ∷ s.queue;
  in_recursion_stack = assign s.in_recursion_stack pid false;
}

-- `edges p` is the tree of `p->forward_edges`.
unfoldable mutual
  pub dfs : (ℕ → RbTree) → ℕ → RbTree → Search → Outcome
  dfs edges zero t s = out_of_fuel
  dfs edges (suc f) nil s = done s
  dfs edges (suc f) (node l pid p r) s =
      let go = enter pid s >>= λ s1. dfs_over_forward_edges edges f (edges p) s1 >>= λ s2.
      dfs edges f l (leave pid p s2) >>= λ s3. dfs edges f r s3 in
      if s.visited pid then done s else go

  pub dfs_over_forward_edges : (ℕ → RbTree) → ℕ → RbTree → Search → Outcome
  dfs_over_forward_edges edges zero t s = out_of_fuel
  dfs_over_forward_edges edges (suc f) nil s = done s
  dfs_over_forward_edges edges (suc f) (node l pid p r) s =
      let go = enter pid s >>= λ s1. dfs edges f (node l pid p r) s1 >>= λ s2.
      dfs_over_forward_edges edges f l (leave pid p s2) >>= λ s3.
      dfs_over_forward_edges edges f r s3 in
      if s.visited pid then done s else go

-- The search that `next` starts, after the previous one was cleared.
unfoldable pub start : Search
start = record { visited = λ k. false; in_recursion_stack = λ k. false; queue = [] }

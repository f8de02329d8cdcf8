-- ===== src/Sched/Cycle.antt =====
-- `hl_sched::next` and `hl_sched::exec_report` of kernel/proc/sched.cpp: the walk over the ready queue.
-- The list pointers `ready_queue_iterator` and `current_node` are positions in the queue. An exception
-- is an `Error`; the kernel's main loop prints it and halts, so no state comes with it. `no_update`
-- is any failure of `update_weights`, the division by a total weight of 0 included. The queue that
-- `dfs` builds, or `none` where it throws, is an argument of `next`.
pub mod Run
use os_projet.Common.{
  ℕ, zero, suc, ◌+◌, ◌/◌, ◌%◌, ◌^◌, Bool, true, false, not, ◌||◌, ◌&&◌, Option, none, some, List,
  [], ◌∷◌, map, if◌then◌else◌, ltb, leb, ◌==◌, length, get_elem?,
}
use os_projet.Sched.Weights.{GraphNode, update_weights}

pub data Error : Type 0 where
  waiting_for_report : Error
  not_waiting : Error
  empty_queue : Error
  no_update : Error
  cycle_detected : Error

pub data Result {ℓ} (A : Type ℓ) : Type ℓ where
  ok : A → Result A
  err : Error → Result A

infixl 5 ◌>>=◌
abbrev pub ◌>>=◌ {ℓ κ} : {A : Type ℓ} {B : Type κ} → Result A → (A → Result B) → Result B
ok a >>= f = f a
err e >>= f = err e

pub record Sched : Type 0 where
  pub queue : List GraphNode
  pub iterator : Option ℕ
  pub current : ℕ
  pub cycle_counter : ℕ
  pub cycles_per_update : ℕ
  pub graph_up : Bool
  pub weights_up : Bool
  pub waiting : Bool

-- `struct command`
pub record Command : Type 0 where
  pub to_exec : ℕ
  pub how_long : ℕ
  pub spin_after : Bool

-- `update_weights()`, its early return included.
unfoldable pub update : Sched → Result Sched
update s =
    if s.weights_up
    then ok (record s { cycle_counter = 0 })
    else (elim (update_weights s.cycle_counter s.queue) [
      | none ↦ err no_update
      | some queue ↦ ok (record s { queue = queue; cycle_counter = 0; weights_up = true })
    ])

-- `if (!graph_is_up_to_date) …`
unfoldable pub rebuild : Option (List GraphNode) → Sched → Result Sched
rebuild built s = if s.graph_up then ok s else (elim built [
  | none ↦ err cycle_detected
  | some queue ↦ update (record s { queue = queue; iterator = none; graph_up = true })
])

unfoldable pub first : List GraphNode → Option ℕ
first [] = none
first (n ∷ ns) = some 0

-- `if (ready_queue_iterator == nullptr) …`
unfoldable pub start_cycle : Option (List GraphNode) → Sched → Result Sched
start_cycle built s = do
  s1 ← rebuild built s
  s2 ← (if leb s1.cycles_per_update s1.cycle_counter then update s1 else ok s1)
  ok (record s2 { iterator = first s2.queue })

-- The node at the iterator is handed out, and the iterator moves on.
unfoldable pub emit : Sched → Result (Command × Sched)
emit s = elim s.iterator [
  | none ↦ err empty_queue
  | some i ↦ (elim (get_elem? s.queue i) [
    | none ↦ err empty_queue
    | some n ↦
        let last = leb (length s.queue) (i + 1) in
        ok (
          record { to_exec = n.process; how_long = n.how_long; spin_after = last },
          record s {
            iterator = if last then none else some (i + 1);
            cycle_counter = if last then (s.cycle_counter + 1) % 2 ^ 16 else s.cycle_counter;
            current = i;
            waiting = true;
          },
        )
  ])
]

unfoldable pub next : Option (List GraphNode) → Sched → Result (Command × Sched)
unfolding emit start_cycle
next built s =
    if s.waiting
    then err waiting_for_report
    else (elim s.iterator [ some i ↦ emit s | none ↦ start_cycle built s >>= emit ])

-- `current_node->balance++` on the node at a position, unless its weight is fixed.
unfoldable pub blame : ℕ → List GraphNode → List GraphNode
blame i [] = []
blame zero (n ∷ ns) =
    (if n.weight_fixed then n else record n { balance = (n.balance + 1) % 256 }) ∷ ns
blame (suc i) (n ∷ ns) = n ∷ blame i ns

unfoldable pub fixed_at : ℕ → List GraphNode → Bool
fixed_at i ns = elim (get_elem? ns i) [ none ↦ true | some n ↦ n.weight_fixed ]

unfoldable pub exec_report : Bool → Sched → Result Sched
unfolding blame fixed_at
exec_report graceful s =
    if not s.waiting
    then err not_waiting
    else if graceful || fixed_at s.current s.queue
    then ok (record s { waiting = false })
    else ok (record s { queue = blame s.current s.queue; weights_up = false; waiting = false })

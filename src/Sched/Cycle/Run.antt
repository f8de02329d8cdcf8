-- ===== src/Sched/Cycle/Run.antt =====
-- One cycle of `next` and `exec_report` runs each process of the ready queue once, in order.
use os_projet.Common.{
  ℕ, zero, suc, ◌+◌, ◌%◌, ◌^◌, ◌≤◌, ◌<◌, Bool, true, false, ◌||◌, Option, none, some, List, [], ◌∷◌,
  if◌then◌else◌, leb, length, get_elem?, drop, ◌≡◌, refl, ap, sym, ◌∙◌, arith,
}
use os_projet.Sched.Weights.{GraphNode}
use os_projet.Sched.Cycle.{
  Sched, Command, Result, ok, ◌>>=◌, next, exec_report, blame, start_cycle, rebuild, first,
  fixed_at,
}

-- A kernel that takes a command, runs it and reports how it went.
unfoldable pub step : Option (List GraphNode) → Bool → Sched → Result (Command × Sched)
step built graceful s = do r ← next built s; s' ← exec_report graceful r.1; ok (r.0, s')

-- One such round for each report.
unfoldable pub run : Option (List GraphNode) → List Bool → Sched → Result (List Command × Sched)
run built [] s = ok ([], s)
run built (graceful ∷ rest) s = do
  r ← step built graceful s
  t ← run built rest r.1
  ok (r.0 ∷ t.0, t.1)

-- The commands of the nodes from some position on: only the last one waits for the next cycle.
abbrev pub commands : List GraphNode → List Command
commands [] = []
commands (n ∷ ns) =
    record { to_exec = n.process; how_long = n.how_long; spin_after = leb (length ns) 0 }
    ∷ commands ns

length-blame : (i : ℕ) (ns : List GraphNode) → length (blame i ns) ≡ length ns
unfolding blame
length-blame i [] = refl
length-blame zero (n ∷ ns) = refl
length-blame (suc i) (n ∷ ns) = ap suc (length-blame i ns)

-- A report changes no command.
commands-blame :
    (i j : ℕ) (ns : List GraphNode) → commands (drop j (blame i ns)) ≡ commands (drop j ns)
unfolding blame
commands-blame i zero [] = refl
commands-blame i (suc j) [] = refl
commands-blame zero zero (n ∷ ns) = ground arith
commands-blame zero (suc j) (n ∷ ns) = refl
commands-blame (suc i) zero (n ∷ ns) = ground (arith, length-blame i ns, commands-blame i zero ns)
commands-blame (suc i) (suc j) (n ∷ ns) = commands-blame i j ns

get_elem?-lt :
    (ns : List GraphNode) (i : ℕ) → i < length ns → (n : GraphNode) × (get_elem? ns i ≡ some n)
get_elem?-lt [] i h = elim h [ ]
get_elem?-lt (n ∷ ns) zero h = (n, refl)
get_elem?-lt (n ∷ ns) (suc i) h = get_elem?-lt ns i (omega arith)

-- The commands from a position on begin with that of the node there.
commands-drop :
    (ns : List GraphNode) (i : ℕ) (n : GraphNode)
    → get_elem? ns i ≡ some n
    → commands (drop i ns)
      ≡ record { to_exec = n.process; how_long = n.how_long; spin_after = leb (length ns) (i + 1) }
        ∷ commands (drop (suc i) ns)
commands-drop [] i n h = cc
commands-drop (m ∷ ns) zero n h = ground arith
commands-drop (m ∷ ns) (suc i) n h = ground (arith, commands-drop ns i n)

abbrev command_at : ℕ → List GraphNode → GraphNode → Command
command_at i ns n = record {
  to_exec = n.process;
  how_long = n.how_long;
  spin_after = leb (length ns) (i + 1);
}

-- The state after the command for position i and its report.
after : Bool → ℕ → Sched → Sched
after g i s =
    let last = leb (length s.queue) (i + 1) in
    let kept = g || fixed_at i s.queue in
    record s {
      iterator = if last then none else some (i + 1);
      cycle_counter = if last then (s.cycle_counter + 1) % 2 ^ 16 else s.cycle_counter;
      current = i;
      waiting = false;
      queue = if kept then s.queue else blame i s.queue;
      weights_up = if kept then s.weights_up else false;
    }

step-after :
    (built : Option (List GraphNode)) (g : Bool) (s : Sched) (i : ℕ) (n : GraphNode)
    → s.iterator ≡ some i
    → s.waiting ≡ false
    → get_elem? s.queue i ≡ some n
    → step built g s
      ≡ ok (
        record {
          to_exec = n.process;
          how_long = n.how_long;
          spin_after = leb (length s.queue) (i + 1);
        },
        after g i s,
      )
unfolding step next exec_report after fixed_at
step-after built g s i n hi hw hn = ground arith

-- What a finished cycle leaves: the commands given, and the state.
pub record Ends (s : Sched) (cs : List Command) (r : Result (List Command × Sched)) : Type 0 where
  pub final : Sched
  pub result : r ≡ ok (cs, final)
  pub at_end : final.iterator ≡ none
  pub reported : final.waiting ≡ false
  pub counted : final.cycle_counter ≡ (s.cycle_counter + 1) % 2 ^ 16
  pub queued : commands final.queue ≡ commands s.queue

drop_all : (ns : List GraphNode) (k : ℕ) → length ns ≤ k → drop k ns ≡ []
drop_all [] zero h = refl
drop_all [] (suc k) h = refl
drop_all (n ∷ ns) zero h = absurd (omega arith)
drop_all (n ∷ ns) (suc k) h = drop_all ns k (omega arith)

commands-after :
    (g : Bool) (i j : ℕ) (s : Sched)
    → commands (drop j (after g i s).queue) ≡ commands (drop j s.queue)
unfolding after
commands-after g i j s = ground (arith, commands-blame i j s.queue)

length-after : (g : Bool) (i : ℕ) (s : Sched) → length (after g i s).queue ≡ length s.queue
unfolding after
length-after g i s = ground (arith, length-blame i s.queue)

run-cons :
    (built : Option (List GraphNode)) (g : Bool) (rest : List Bool) (s t u : Sched) (c : Command)
    (cs : List Command)
    → step built g s ≡ ok (c, t)
    → run built rest t ≡ ok (cs, u)
    → run built (g ∷ rest) s ≡ ok (c ∷ cs, u)
unfolding run
run-cons built g rest s t u c cs e e' = rw (e) (rw (e') refl)

counter-after :
    (g : Bool) (i : ℕ) (s : Sched)
    → suc i < length s.queue
    → (after g i s).cycle_counter ≡ s.cycle_counter
unfolding after
counter-after g i s h = ground arith

-- The rest of a cycle, from position i on.
run_from :
    (built : Option (List GraphNode)) (g : Bool) (rest : List Bool) (s : Sched) (i : ℕ)
    → s.iterator ≡ some i
    → s.waiting ≡ false
    → i + suc (length rest) ≡ length s.queue
    → Ends s (commands (drop i s.queue)) (run built (g ∷ rest) s)
unfolding run
run_from built g [] s i hi hw hl =
    let (n, hn) = get_elem?-lt s.queue i (omega arith) in
    let gone : drop (suc i) s.queue ≡ [] = drop_all s.queue (suc i) (omega arith) in
    record {
      final = after g i s;
      result = rw (step-after built g s i n hi hw hn, commands-drop s.queue i n hn, gone);
      at_end = unfold after in ground arith;
      reported = unfold after in refl;
      counted = unfold after in ground arith;
      queued = commands-after g i 0 s;
    }
run_from built g (g' ∷ rest) s i hi hw hl =
    let (n, hn) = get_elem?-lt s.queue i (omega arith) in
    let t : Sched = after g i s in
    let ends : Ends t (commands (drop (suc i) t.queue)) (run built (g' ∷ rest) t) =
      run_from built g' rest t (suc i) (unfold after in ground arith) (unfold after in refl)
        (omega (arith, length-after g i s)) in
    record {
      final = ends.final;
      result =
          run-cons built g (g' ∷ rest) s t ends.final _ _ (step-after built g s i n hi hw hn)
            ends.result
          ∙ ap (λ cs. ok (cs, ends.final))
              (ap (λ cs. command_at i s.queue n ∷ cs) (commands-after g i (suc i) s)
                ∙ sym (commands-drop s.queue i n hn));
      at_end = ends.at_end;
      reported = ends.reported;
      counted = ends.counted ∙ ap (λ c. (c + 1) % 2 ^ 16) (counter-after g i s (omega arith));
      queued = ends.queued ∙ commands-after g i 0 s;
    }

first-cons : (ns : List GraphNode) → 0 < length ns → first ns ≡ some 0
unfolding first
first-cons [] h = elim h [ ]
first-cons (n ∷ ns) h = refl

next-start :
    (built : Option (List GraphNode)) (s : Sched)
    → s.iterator ≡ none
    → s.waiting ≡ false
    → s.graph_up ≡ true
    → s.cycle_counter < s.cycles_per_update
    → first s.queue ≡ some 0
    → next built s ≡ next built (record s { iterator = some 0 })
unfolding next start_cycle rebuild
next-start built s hi hw hg hc hf = ground arith

-- At the start of a cycle, with the queue built, not empty and its weights not due, one round of
-- `next` and `exec_report` for each process of the queue hands out every process once, in queue order
-- and for its own time, tells the kernel to wait after the last one only, and ends ready for the next
-- cycle with the counter one higher, whatever the reports say.
pub run-Ends :
    (built : Option (List GraphNode)) (reports : List Bool) (s : Sched)
    → s.iterator ≡ none
    → s.waiting ≡ false
    → s.graph_up ≡ true
    → s.cycle_counter < s.cycles_per_update
    → 0 < length reports
    → length reports ≡ length s.queue
    → Ends s (commands s.queue) (run built reports s)
run-Ends built [] s hi hw hg hc pos hl = elim pos [ ]
run-Ends built (g ∷ rest) s hi hw hg hc pos hl =
    let started : Sched = record s { iterator = some 0 } in
    let e : run built (g ∷ rest) s ≡ run built (g ∷ rest) started =
      unfold run step in rw (next-start built s hi hw hg hc (first-cons s.queue (omega arith))) in
    let ends : Ends started (commands s.queue) (run built (g ∷ rest) started) =
      run_from built g rest started 0 refl hw (omega arith) in
    record {
      final = ends.final;
      result = e ∙ ends.result;
      at_end = ends.at_end;
      reported = ends.reported;
      counted = ends.counted;
      queued = ends.queued;
    }

-- ===== src/Graph/Steps.antt =====
-- crates/revoot-core/src/execution_graph.rs: the graphs that calls reach from a new one.
use revoot.Prelude.{
  ℕ, ◌*◌, ◌≡◌, ◌∙◌, refl, ap, true, false, List, [], ◌∷◌, arith, ltb, all, length, Bool-cases, inl,
  inr, ok,
}
use revoot.Text.{Str}
use revoot.Map.{Map, lookup, values}
use revoot.Map.Laws.{keys, total, count}
use revoot.Graph
use revoot.Graph.Plan.{ExecutionNodeSpec, ExecutionGraphPlan, ExecutionGraphLimits, plan}
use revoot.Graph.Data.{
  running, completed, failed, event_completed, event_failed, ExecutionGraphUsage, is_state,
  found_in, ExecutionGraph, ExecutionNodeContribution,
}
use revoot.Graph.{all_pending, start, complete, fail, cancel_remaining, open_ids}
use revoot.Graph.States.{was_started, respects_deps}
use revoot.Graph.Invariant.{IsOrderly, events_left, moved}
use revoot.Graph.Moves.{offers, started-IsOrderly, ended-IsOrderly, found_running}
use revoot.Graph.Contributed.{summed, overflows}
use revoot.Graph.Outcomes.{
  start_outcome, fail_outcome, complete_outcome, start_result, fail_result, complete_result,
  reduced,
}
use revoot.Graph.Cancel.{cancel_remaining-Cancels, cancel_remaining_late}
use revoot.Graph.Compiled.{IsCompiled, plan-IsCompiled}

total-all_pending :
    (m : Map ExecutionNodeSpec) → total events_left (values (all_pending m)) ≡ length m * 2
total-all_pending [] = refl
total-all_pending ((k, n) ∷ m) = omega (arith, total-all_pending m)

running-all_pending :
    (m : Map ExecutionNodeSpec) → count (λ s. is_state s running) (values (all_pending m)) ≡ 0
running-all_pending [] = refl
running-all_pending ((k, n) ∷ m) = omega (arith, running-all_pending m)

keys-all_pending : (m : Map ExecutionNodeSpec) → keys (all_pending m) ≡ keys m
keys-all_pending [] = refl
keys-all_pending ((k, n) ∷ m) = ap (λ ks. k ∷ ks) (keys-all_pending m)

was_started-all_pending :
    (k : Str) (m : Map ExecutionNodeSpec) → was_started (lookup k (all_pending m)) ≡ false
unfolding lookup
was_started-all_pending k [] = refl
was_started-all_pending k ((j, n) ∷ m) = ground (arith, was_started-all_pending k m)

respects_deps-all_pending :
    (m : Map ExecutionNodeSpec) (ns : List ExecutionNodeSpec)
    → all (respects_deps (all_pending m)) ns ≡ true
respects_deps-all_pending m [] = refl
respects_deps-all_pending m (n ∷ ns) =
    rw (was_started-all_pending n.id m) (respects_deps-all_pending m ns)

pub new-IsOrderly : (p : ExecutionGraphPlan) (t : ℕ) → IsCompiled p → IsOrderly (Graph.new p t)
unfolding Graph.new
new-IsOrderly p t c = record {
  bounded = omega (arith, c.bounded);
  room = omega (arith, total-all_pending p.nodes, c.room);
  parallel = omega (arith, running-all_pending p.nodes);
  journal = (0, omega arith);
  ordered = respects_deps-all_pending p.nodes (values p.nodes);
  keyed = keys-all_pending p.nodes ∙ c.keyed;
  separate = c.separate;
}

-- The graphs that calls lead to from `g`. A call that fails counts too.
pub data Reach (g : ExecutionGraph) : ExecutionGraph → Type 0 where
  begun : Reach g g
  starts : {h : ExecutionGraph} (id : Str) (now : ℕ) → Reach g h → Reach g (start id now h).1
  completes :
      {h : ExecutionGraph} (id : Str) (c : ExecutionNodeContribution) (now : ℕ)
      → Reach g h
      → Reach g (complete id c now h).1
  fails : {h : ExecutionGraph} (id : Str) (now : ℕ) → Reach g h → Reach g (fail id now h).1
  cancels : {h : ExecutionGraph} (now : ℕ) → Reach g h → Reach g (cancel_remaining now h).1

start-IsOrderly :
    (id : Str) (now : ℕ) (g : ExecutionGraph) → IsOrderly g → IsOrderly (start_result id now g).1
start-IsOrderly id now g o = elim (Bool-cases (offers id g)) [
  | inr refused ↦ rw refused o
  | inl offered ↦ elim (Bool-cases (ltb now g.last_observed_millis)) [
    | inl late ↦ rw (offered, late) o
    | inr on_time ↦ rw (offered, on_time) (started-IsOrderly id now g o offered on_time)
  ]
]

fail-IsOrderly :
    (id : Str) (now : ℕ) (g : ExecutionGraph) → IsOrderly g → IsOrderly (fail_result id now g).1
fail-IsOrderly id now g o = elim (Bool-cases (found_in running (lookup id g.states))) [
  | inr refused ↦ rw refused o
  | inl runs ↦ elim (Bool-cases (ltb now g.last_observed_millis)) [
    | inl late ↦ rw (runs, late) o
    | inr on_time ↦
        rw (runs, on_time)
          (ended-IsOrderly id failed event_failed now g o (found_running (lookup id g.states) runs)
            refl on_time)
  ]
]

reduced-IsOrderly :
    (id : Str) (c : ExecutionNodeContribution) (u : ExecutionGraphUsage) (now : ℕ)
    (g : ExecutionGraph)
    → IsOrderly (moved id completed event_completed now g)
    → IsOrderly (reduced id c u now g)
reduced-IsOrderly id c u now g o = record {
  bounded = o.bounded;
  room = o.room;
  parallel = o.parallel;
  journal = o.journal;
  ordered = o.ordered;
  keyed = o.keyed;
  separate = o.separate;
}

complete-IsOrderly :
    (id : Str) (c : ExecutionNodeContribution) (now : ℕ) (g : ExecutionGraph)
    → IsOrderly g
    → IsOrderly (complete_result id c now g).1
complete-IsOrderly id c now g o = elim (Bool-cases (found_in running (lookup id g.states))) [
  | inr refused ↦ rw refused o
  | inl runs ↦ elim (Bool-cases (overflows (summed g.usage c.usage))) [
    | inl over ↦ rw (runs, over) o
    | inr within ↦ elim (Bool-cases (ltb now g.last_observed_millis)) [
      | inl late ↦ rw (runs, within, late) o
      | inr on_time ↦
          rw (runs, within, on_time)
            (reduced-IsOrderly id c (summed g.usage c.usage) now g (
              ended-IsOrderly id completed event_completed now g o
                (found_running (lookup id g.states) runs) refl on_time))
    ]
  ]
]

cancel-IsOrderly :
    (now : ℕ) (g : ExecutionGraph) → IsOrderly g → IsOrderly (cancel_remaining now g).1
cancel-IsOrderly now g o = elim (Bool-cases (ltb now g.last_observed_millis)) [
  | inl late ↦ rw (cancel_remaining_late now g late) o
  | inr on_time ↦ let c = cancel_remaining-Cancels now g o on_time in c.orderly
]

pub Reach-IsOrderly : {g h : ExecutionGraph} → IsOrderly g → Reach g h → IsOrderly h
Reach-IsOrderly o begun = o
Reach-IsOrderly o (starts {h = h} id now r) =
    rw (start_outcome id now h (Reach-IsOrderly o r))
      (start-IsOrderly id now h (Reach-IsOrderly o r))
Reach-IsOrderly o (completes {h = h} id c now r) =
    rw ((complete_outcome id c now h (Reach-IsOrderly o r)).0)
      (complete-IsOrderly id c now h (Reach-IsOrderly o r))
Reach-IsOrderly o (fails {h = h} id now r) =
    rw (fail_outcome id now h (Reach-IsOrderly o r)) (fail-IsOrderly id now h (Reach-IsOrderly o r))
Reach-IsOrderly o (cancels {h = h} now r) = cancel-IsOrderly now h (Reach-IsOrderly o r)

-- From the plan of a `plan` call that succeeds, every sequence of calls, those that fail included,
-- leads to an orderly graph: the events are numbered from 1 on in the order of their times, they and
-- those that open nodes may still cause fit the budget of events, no more nodes run than
-- may run in parallel, and a node is begun only when what it depends on is completed.
pub plan-new-Reach-IsOrderly :
    (nodes : List ExecutionNodeSpec) (limits : ExecutionGraphLimits) (t : ℕ)
    {p : ExecutionGraphPlan} {h : ExecutionGraph}
    → plan nodes limits ≡ ok p
    → Reach (Graph.new p t) h
    → IsOrderly h
plan-new-Reach-IsOrderly nodes limits t {p} planned r =
    Reach-IsOrderly (new-IsOrderly p t (plan-IsCompiled nodes limits planned)) r

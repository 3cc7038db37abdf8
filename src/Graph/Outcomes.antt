-- ===== src/Graph/Outcomes.antt =====
-- crates/revoot-core/src/execution_graph.rs: what `start`, `complete` and `fail` do on every branch.
use revoot.Prelude.{
  ℕ, ◌≡◌, refl, ◌↔◌, ◌⊎◌, IsIn, not, ltb, if◌then◌else◌, Bool-cases, inl, inr, Result, ok, err,
  Result,
}
use revoot.Text.{Str}
use revoot.Map.{lookup}
use revoot.Graph.Plan.{
  ExecutionGraphError, clock_regression, node_not_ready, node_not_running, usage_overflow,
}
use revoot.Graph.Data.{
  pending, running, completed, failed, found_in, started, event_completed, event_failed,
  ExecutionGraph, ExecutionNodeContribution, ExecutionGraphUsage, extend_facts, ExecutionFact,
}
use revoot.Graph.{start, complete, fail}
use revoot.Graph.Contributed.{summed, overflows, add_usage-sum, extend_facts-IsIn}
use revoot.Graph.Invariant.{IsOrderly, moved, not_full, is_numbered, not_full, is_numbered}
use revoot.Graph.Moves.{offers, offers-pending, found_running}

-- the results that `start` is to have, and the graph after it
abbrev pub start_result :
    Str → ℕ → ExecutionGraph → Result ExecutionGraphError (Unit {0}) × ExecutionGraph
start_result id now g =
    if not (offers id g)
    then (err node_not_ready, g)
    else if ltb now g.last_observed_millis
    then (err clock_regression, g)
    else (ok tt, moved id running started now g)

abbrev pub fail_result :
    Str → ℕ → ExecutionGraph → Result ExecutionGraphError (Unit {0}) × ExecutionGraph
fail_result id now g =
    if not (found_in running (lookup id g.states))
    then (err node_not_running, g)
    else if ltb now g.last_observed_millis
    then (err clock_regression, g)
    else (ok tt, moved id failed event_failed now g)

-- In an orderly graph, `start` fails on a node that is not offered and on a clock that goes back,
-- without a change to the graph, and otherwise starts the node: neither the budget of events nor
-- an unknown node makes it fail.
pub start_outcome :
    (id : Str) (now : ℕ) (g : ExecutionGraph) → IsOrderly g → start id now g ≡ start_result id now g
unfolding start
start_outcome id now g o = elim (Bool-cases (offers id g)) [
  | inr fails ↦ rw fails refl
  | inl offered ↦ elim (Bool-cases (ltb now g.last_observed_millis)) [
    | inl late ↦ rw (offered, late) refl
    | inr on_time ↦
        rw
          (
            offered,
            on_time,
            not_full id pending g o (offers-pending id g offered) refl,
            offers-pending id g offered,
            is_numbered id pending g o (offers-pending id g offered) refl,
          )
          refl
  ]
]

-- In an orderly graph, `fail` fails on a node that does not run and on a clock that goes back,
-- without a change to the graph, and otherwise marks the node failed.
pub fail_outcome :
    (id : Str) (now : ℕ) (g : ExecutionGraph) → IsOrderly g → fail id now g ≡ fail_result id now g
unfolding fail
fail_outcome id now g o = elim (Bool-cases (found_in running (lookup id g.states))) [
  | inr fails ↦ rw fails refl
  | inl runs ↦ elim (Bool-cases (ltb now g.last_observed_millis)) [
    | inl late ↦ rw (runs, late) refl
    | inr on_time ↦
        rw
          (
            runs,
            on_time,
            not_full id running g o (found_running (lookup id g.states) runs) refl,
            found_running (lookup id g.states) runs,
            is_numbered id running g o (found_running (lookup id g.states) runs) refl,
          )
          refl
  ]
]

-- the graph after a completion: the node's facts and its usage are added
abbrev pub reduced :
    Str → ExecutionNodeContribution → ExecutionGraphUsage → ℕ → ExecutionGraph → ExecutionGraph
reduced id contribution usage now g = record (moved id completed event_completed now g) {
  usage = usage;
  facts = extend_facts g.facts contribution.facts;
}

abbrev pub complete_result :
    Str
    → ExecutionNodeContribution
    → ℕ
    → ExecutionGraph
    → Result ExecutionGraphError (Unit {0}) × ExecutionGraph
complete_result id contribution now g =
    if not (found_in running (lookup id g.states))
    then (err node_not_running, g)
    else if overflows (summed g.usage contribution.usage)
    then (err usage_overflow, g)
    else if ltb now g.last_observed_millis
    then (err clock_regression, g)
    else (ok tt, reduced id contribution (summed g.usage contribution.usage) now g)

-- In an orderly graph, `complete` fails on a node that does not run, on a counter that overflows
-- and on a clock that goes back, without a change to the graph, and otherwise marks the node
-- completed, writes its event, adds its four counters to those of the graph, and adds its facts: a
-- fact is one of the graph then exactly if it was before or the node contributes it.
pub complete_outcome :
    (id : Str) (contribution : ExecutionNodeContribution) (now : ℕ) (g : ExecutionGraph)
    → IsOrderly g
    → (complete id contribution now g ≡ complete_result id contribution now g)
      × ((f : ExecutionFact)
          → IsIn f (extend_facts g.facts contribution.facts)
            ↔ (IsIn f g.facts ⊎ IsIn f contribution.facts))
unfolding complete
complete_outcome id contribution now g o = (
  elim (Bool-cases (found_in running (lookup id g.states))) [
    | inr fails ↦ rw fails refl
    | inl runs ↦
        let at = found_running (lookup id g.states) runs in
        let full = not_full id running g o at refl in
        let fits = is_numbered id running g o at refl in
        let sum = add_usage-sum g.usage contribution.usage in
        elim (Bool-cases (overflows (summed g.usage contribution.usage))) [
          | inl over ↦ rw (runs, rw over at sum, over) refl
          | inr within ↦ elim (Bool-cases (ltb now g.last_observed_millis)) [
            | inl late ↦ rw (runs, rw within at sum, within, late) refl
            | inr on_time ↦ rw (runs, rw within at sum, within, on_time, full, at, fits) refl
          ]
        ]
  ],
  λ f. extend_facts-IsIn f g.facts contribution.facts,
)

-- ===== src/Graph.antt =====
-- crates/revoot-core/src/execution_graph.rs: the execution of a plan.
pub mod Plan
pub mod Data
pub mod States
pub mod Invariant
pub mod Moves
pub mod Contributed
pub mod Outcomes
pub mod Cancel
pub mod Compiled
pub mod Steps
pub mod Final
pub mod Release
pub mod Queue
pub mod Acyclic
pub mod First
pub mod Order
pub mod Lookups
pub mod Progress
pub mod Samples
pub mod Tests
use revoot.Prelude.{
  ℕ, ◌+◌, ◌-◌, Bool, true, false, not, ◌&&◌, ◌||◌, Option, none, some, List, [], ◌∷◌, ◌++◌, map,
  ltb, leb, ◌==◌, if◌then◌else◌, any, all, length, take, filter_by, Result, ok, err, Exec, pure,
  lift, get, put, ◌>>=◌, ◌>>◌, and_then, reject_if, u32_max, checked_add,
}
use revoot.Text.{Str, str_eq}
use revoot.Map.{Map, lookup, write, values}
use revoot.Map.Laws.{count}
use Plan.{
  ExecutionNodeSpec, ExecutionGraphPlan, ExecutionGraphError, clock_regression, event_budget,
  unknown_node, node_not_ready, node_not_running, usage_overflow,
}
use Data.{
  ExecutionNodeState, pending, running, completed, failed, cancelled, state_rank, is_state,
  found_in, ExecutionFact, insert_fact, extend_facts, ExecutionGraphUsage, no_usage, add_usage,
  ExecutionNodeContribution, ExecutionGraphEventKind, started, event_completed, event_failed,
  event_cancelled, ExecutionGraphEvent, ExecutionGraph,
}

abbrev pub GraphStep : Type 0 → Type 0
GraphStep A = Exec ExecutionGraph ExecutionGraphError A

abbrev pub all_pending : Map ExecutionNodeSpec → Map ExecutionNodeState
all_pending [] = []
all_pending ((id, n) ∷ m) = (id, pending) ∷ all_pending m

unfoldable pub new : ExecutionGraphPlan → ℕ → ExecutionGraph
new plan started_at_millis = record {
  plan = plan;
  states = all_pending plan.nodes;
  events = [];
  facts = [];
  usage = no_usage;
  last_observed_millis = started_at_millis;
}

unfoldable pub is_ready : Map ExecutionNodeState → ExecutionNodeSpec → Bool
unfolding lookup
is_ready states n =
    found_in pending (lookup n.id states)
    && all (λ d. found_in completed (lookup d states)) n.dependencies

abbrev pub running_count : ExecutionGraph → ℕ
running_count g = count (λ s. is_state s running) (values g.states)

unfoldable pub ready_nodes : ExecutionGraph → List Str
unfolding is_ready
ready_nodes g =
    map (λ n. n.id)
      (take (g.plan.limits.max_parallel_nodes - running_count g)
        (filter_by (is_ready g.states) (values g.plan.nodes)))

-- the writes of `transition`, in their order
unfoldable pub record_event :
    Str → ExecutionNodeState → ExecutionGraphEventKind → ℕ → GraphStep (Unit {0})
unfolding write
record_event id state kind now_millis g =
    let g' = record g { states = write id state g.states; last_observed_millis = now_millis } in
    let event : ExecutionGraphEvent = record {
      sequence = length g.events + 1;
      node_id = id;
      kind = kind;
      observed_at_millis = now_millis;
    } in
    if leb (length g.events + 1) u32_max
    then (ok tt, record g' { events = g.events ++ event ∷ [] })
    else (err event_budget, g')

unfoldable pub transition :
    Str → ExecutionNodeState → ExecutionGraphEventKind → ℕ → GraphStep (Unit {0})
unfolding record_event lookup
transition id state kind now_millis g =
    if ltb now_millis g.last_observed_millis
    then (err clock_regression, g)
    else if leb g.plan.limits.max_events (length g.events)
    then (err event_budget, g)
    else elim (lookup id g.states) [
      | none ↦ (err unknown_node, g)
      | some s ↦ record_event id state kind now_millis g
    ]

unfoldable pub start : Str → ℕ → GraphStep (Unit {0})
unfolding transition
start id now_millis g =
    if not (any (λ ready. str_eq ready id) (ready_nodes g))
    then (err node_not_ready, g)
    else transition id running started now_millis g

unfoldable pub complete : Str → ExecutionNodeContribution → ℕ → GraphStep (Unit {0})
unfolding transition
complete id contribution now_millis = do
  g ← get
  lift (reject_if (not (found_in running (lookup id g.states))) node_not_running)
  usage ← lift (add_usage g.usage contribution.usage)
  transition id completed event_completed now_millis
  g' ← get
  put (record g' { usage = usage; facts = extend_facts g'.facts contribution.facts })

unfoldable pub fail : Str → ℕ → GraphStep (Unit {0})
unfolding transition
fail id now_millis g =
    if not (found_in running (lookup id g.states))
    then (err node_not_running, g)
    else transition id failed event_failed now_millis g

abbrev pub is_open : ExecutionNodeState → Bool
is_open pending = true
is_open running = true
is_open _ = false

abbrev pub open_ids : Map ExecutionNodeState → List Str
open_ids [] = []
open_ids ((id, s) ∷ m) = if is_open s then id ∷ open_ids m else open_ids m

-- the loop of `cancel_remaining`; an error ends it
unfoldable pub cancel_each : List Str → ℕ → GraphStep (Unit {0})
unfolding transition
cancel_each [] now_millis g = (ok tt, g)
cancel_each (id ∷ ids) now_millis g =
    let (result, g') = transition id cancelled event_cancelled now_millis g in
    elim result [ ok u ↦ cancel_each ids now_millis g' | err e ↦ (err e, g') ]

unfoldable pub cancel_remaining : ℕ → GraphStep (Unit {0})
unfolding cancel_each
cancel_remaining now_millis g = cancel_each (open_ids g.states) now_millis g

unfoldable pub is_complete : ExecutionGraph → Bool
is_complete g = all (λ s. is_state s completed) (values g.states)

abbrev pub to_u32 : ℕ → ℕ
to_u32 n = if leb n u32_max then n else u32_max

unfoldable pub count_state : Map ExecutionNodeState → ExecutionNodeState → ℕ
count_state states selected = to_u32 (count (λ s. is_state s selected) (values states))

pub record ExecutionGraphSummary : Type 0 where
  pub node_count : ℕ  -- u32
  pub completed_nodes : ℕ  -- u32
  pub failed_nodes : ℕ  -- u32
  pub cancelled_nodes : ℕ  -- u32
  pub event_count : ℕ  -- u32
  pub facts : List ExecutionFact
  pub usage : ExecutionGraphUsage

unfoldable pub summary : ExecutionGraph → ExecutionGraphSummary
unfolding count_state
summary g = record {
  node_count = to_u32 (length g.states);
  completed_nodes = count_state g.states completed;
  failed_nodes = count_state g.states failed;
  cancelled_nodes = count_state g.states cancelled;
  event_count = to_u32 (length g.events);
  facts = g.facts;
  usage = g.usage;
}

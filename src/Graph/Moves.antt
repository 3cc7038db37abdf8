-- ===== src/Graph/Moves.antt =====
-- crates/revoot-core/src/execution_graph.rs: transitions and the invariant.
use revoot.Prelude.{
  ℕ, zero, suc, ◌-◌, ◌≤◌, ◌<◌, ◌≡◌, refl, Bool, true, false, ◌&&◌, Option, none, some, List, map,
  arith, ltb, if◌then◌else◌, any, take, filter_by,
}
use revoot.Text.{Str, str_eq}
use revoot.Map.{lookup, values}
use revoot.Map.Laws.{total-write}
use revoot.Graph.Plan.{ExecutionNodeSpec}
use revoot.Graph.Data.{
  ExecutionNodeState, pending, running, completed, failed, cancelled, is_state, found_in,
  ExecutionGraphEventKind, started, ExecutionGraph,
}
use revoot.Graph.{is_open, is_ready, ready_nodes, running_count}
use revoot.Graph.States.{any-ready, is_ready-pending, may_become-ready, may_become-ended}
use revoot.Graph.Invariant.{IsOrderly, moved, events_left, moved-IsOrderly}

abbrev pub offers : Str → ExecutionGraph → Bool
offers id g = any (λ ready. str_eq ready id) (ready_nodes g)

found_pending : (o : Option ExecutionNodeState) → found_in pending o ≡ true → o ≡ some pending
found_pending none h = cc
found_pending (some pending) h = refl
found_pending (some running) h = cc
found_pending (some completed) h = cc
found_pending (some failed) h = cc
found_pending (some cancelled) h = cc

pub found_running : (o : Option ExecutionNodeState) → found_in running o ≡ true → o ≡ some running
found_running none h = cc
found_running (some pending) h = cc
found_running (some running) h = refl
found_running (some completed) h = cc
found_running (some failed) h = cc
found_running (some cancelled) h = cc

offers-any :
    (id : Str) (g : ExecutionGraph)
    → offers id g ≡ true
    → any (λ n. str_eq n.id id && is_ready g.states n) (values g.plan.nodes) ≡ true
unfolding ready_nodes
offers-any id g h =
    any-ready (is_ready g.states) id (g.plan.limits.max_parallel_nodes - running_count g)
      (values g.plan.nodes) h

-- A node that is offered is pending, and there is room for one more.
pub offers-pending :
    (id : Str) (g : ExecutionGraph) → offers id g ≡ true → lookup id g.states ≡ some pending
offers-pending id g h =
    found_pending (lookup id g.states)
      (is_ready-pending id g.states (values g.plan.nodes) (offers-any id g h))

some-taken :
    (p : ExecutionNodeSpec → Bool) (c : ℕ) (ns : List ExecutionNodeSpec) (id : Str)
    → any (λ r. str_eq r id) (map (λ n. n.id) (take c (filter_by p ns))) ≡ true
    → 1 ≤ c
some-taken p zero ns id h = cc
some-taken p (suc c) ns id h = omega arith

pub offers-capacity :
    (id : Str) (g : ExecutionGraph)
    → offers id g ≡ true
    → running_count g < g.plan.limits.max_parallel_nodes
unfolding ready_nodes
offers-capacity id g h = omega (
  arith,
  some-taken (is_ready g.states) (g.plan.limits.max_parallel_nodes - running_count g)
      (values g.plan.nodes) id h,
)

pub started-IsOrderly :
    (id : Str) (now : ℕ) (g : ExecutionGraph)
    → IsOrderly g
    → offers id g ≡ true
    → ltb now g.last_observed_millis ≡ false
    → IsOrderly (moved id running started now g)
started-IsOrderly id now g o h on_time =
    let at = offers-pending id g h in
    moved-IsOrderly id running pending started now g o at refl (omega arith)
      (omega (
        arith,
        total-write (λ s. if is_state s running then 1 else 0) id running g.states {old = pending}
            at,
        offers-capacity id g h,
      ))
      (may_become-ready id g.states (values g.plan.nodes) o.separate (offers-any id g h)) on_time

closed_weight : (s : ExecutionNodeState) → is_open s ≡ false → events_left s < 1
closed_weight pending h = cc
closed_weight running h = cc
closed_weight completed h = omega arith
closed_weight failed h = omega arith
closed_weight cancelled h = omega arith

closed_idle : (s : ExecutionNodeState) → is_open s ≡ false → is_state s running ≡ false
closed_idle pending h = cc
closed_idle running h = cc
closed_idle completed h = refl
closed_idle failed h = refl
closed_idle cancelled h = refl

-- Who leaves the running nodes makes them fewer.
pub running_count-closed :
    (id : Str) (new s : ExecutionNodeState) (kind : ExecutionGraphEventKind) (now : ℕ)
    (g : ExecutionGraph)
    → lookup id g.states ≡ some s
    → is_open new ≡ false
    → running_count (moved id new kind now g) ≤ running_count g
running_count-closed id new s kind now g at closed =
    let idle = closed_idle new closed in
    let weight : ℕ = if is_state new running then 1 else 0 in
    let gone : weight ≡ 0 = rw idle refl in
    omega (
      arith,
      gone,
      total-write (λ t. if is_state t running then 1 else 0) id new g.states {old = s} at,
    )

pub ended-IsOrderly :
    (id : Str) (new : ExecutionNodeState) (kind : ExecutionGraphEventKind) (now : ℕ)
    (g : ExecutionGraph)
    → IsOrderly g
    → lookup id g.states ≡ some running
    → is_open new ≡ false
    → ltb now g.last_observed_millis ≡ false
    → IsOrderly (moved id new kind now g)
ended-IsOrderly id new kind now g o at closed on_time =
    moved-IsOrderly id new running kind now g o at refl (closed_weight new closed)
      (omega (arith, o.parallel, running_count-closed id new running kind now g at closed))
      (may_become-ended id g.states (values g.plan.nodes) new at o.ordered) on_time

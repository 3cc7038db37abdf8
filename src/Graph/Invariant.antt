-- ===== src/Graph/Invariant.antt =====
-- crates/revoot-core/src/execution_graph.rs: what holds of a graph between two calls.
use revoot.Prelude.{
  ℕ, suc, ◌+◌, ◌≤◌, ◌<◌, ◌≡◌, refl, ◌∙◌, true, false, some, List, [], ◌∷◌, ◌++◌, arith, ltb, leb,
  all, length, length-append, ok, err, u32_max,
}
use revoot.Text.{Str}
use revoot.Map.{lookup, write, values}
use revoot.Map.Laws.{total, total-write, keys, keys-write}
use revoot.Graph.Plan.{clock_regression}
use revoot.Graph.Data.{
  ExecutionNodeState, pending, running, completed, failed, cancelled, is_state,
  ExecutionGraphEventKind, ExecutionGraphEvent, ExecutionGraph,
}
use revoot.Graph.{is_open, running_count, record_event, transition}
use revoot.Graph.States.{respects_deps, respects_deps-write, may_become, distinct, ids_of}

-- The events that a node in this state may still cause.
abbrev pub events_left : ExecutionNodeState → ℕ
events_left pending = 2
events_left running = 1
events_left _ = 0

-- The events are numbered from `n` on, and their times lie in order between the two given.
abbrev pub Journal : ℕ → ℕ → ℕ → List ExecutionGraphEvent → Type 0
Journal n lo hi [] = lo ≤ hi
Journal n lo hi (e ∷ es) =
    (e.sequence ≡ n) × (lo ≤ e.observed_at_millis) × Journal (suc n) e.observed_at_millis hi es

Journal-append :
    (n lo hi : ℕ) (es : List ExecutionGraphEvent) (e : ExecutionGraphEvent)
    → Journal n lo hi es
    → e.sequence ≡ n + length es
    → hi ≤ e.observed_at_millis
    → Journal n lo e.observed_at_millis (es ++ e ∷ [])
Journal-append n lo hi [] e j at later = (omega (arith, at), omega (arith, j, later), omega arith)
Journal-append n lo hi (f ∷ es) e j at later =
    (j.0, j.1, Journal-append (suc n) f.observed_at_millis hi es e j.2 (omega (arith, at)) later)

pub record IsOrderly (g : ExecutionGraph) : Type 0 where
  pub bounded : g.plan.limits.max_events ≤ u32_max
  pub room : length g.events + total events_left (values g.states) ≤ g.plan.limits.max_events
  pub parallel : running_count g ≤ g.plan.limits.max_parallel_nodes
  pub journal : (first : ℕ) × Journal 1 first g.last_observed_millis g.events
  pub ordered : all (respects_deps g.states) (values g.plan.nodes) ≡ true
  pub keyed : keys g.states ≡ ids_of (values g.plan.nodes)
  pub separate : distinct (ids_of (values g.plan.nodes)) ≡ true

-- the graph after a transition that is admitted
abbrev pub moved :
    Str → ExecutionNodeState → ExecutionGraphEventKind → ℕ → ExecutionGraph → ExecutionGraph
moved id new kind now g = record g {
  states = write id new g.states;
  last_observed_millis = now;
  events =
      g.events
      ++ record {
        sequence = length g.events + 1;
        node_id = id;
        kind = kind;
        observed_at_millis = now;
      }
        ∷ [];
}

pub transition-late :
    (id : Str) (new : ExecutionNodeState) (kind : ExecutionGraphEventKind) (now : ℕ)
    (g : ExecutionGraph)
    → ltb now g.last_observed_millis ≡ true
    → transition id new kind now g ≡ (err clock_regression, g)
unfolding transition
transition-late id new kind now g late = rw late refl

pub events_left-is_open : (s : ExecutionNodeState) → is_open s ≡ true → 1 ≤ events_left s
events_left-is_open pending h = omega arith
events_left-is_open running h = omega arith
events_left-is_open completed h = cc
events_left-is_open failed h = cc
events_left-is_open cancelled h = cc

-- A node that is open always has room for its event.
pub has_room :
    (id : Str) (s : ExecutionNodeState) (g : ExecutionGraph)
    → IsOrderly g
    → lookup id g.states ≡ some s
    → is_open s ≡ true
    → suc (length g.events) ≤ g.plan.limits.max_events
has_room id s g o at opened = omega (
  arith,
  total-write events_left id failed g.states {old = s} at,
  o.room,
  events_left-is_open s opened,
)

pub not_full :
    (id : Str) (s : ExecutionNodeState) (g : ExecutionGraph)
    → IsOrderly g
    → lookup id g.states ≡ some s
    → is_open s ≡ true
    → leb g.plan.limits.max_events (length g.events) ≡ false
not_full id s g o at opened = ground (arith, has_room id s g o at opened)

pub is_numbered :
    (id : Str) (s : ExecutionNodeState) (g : ExecutionGraph)
    → IsOrderly g
    → lookup id g.states ≡ some s
    → is_open s ≡ true
    → leb (length g.events + 1) u32_max ≡ true
is_numbered id s g o at opened = ground (arith, has_room id s g o at opened, o.bounded)

pub transition-moved :
    (id : Str) (new s : ExecutionNodeState) (kind : ExecutionGraphEventKind) (now : ℕ)
    (g : ExecutionGraph)
    → IsOrderly g
    → lookup id g.states ≡ some s
    → is_open s ≡ true
    → ltb now g.last_observed_millis ≡ false
    → transition id new kind now g ≡ (ok tt, moved id new kind now g)
unfolding transition record_event
transition-moved id new s kind now g o at opened on_time =
    rw (on_time, not_full id s g o at opened, at, is_numbered id s g o at opened) refl

-- A transition keeps the invariant.
pub moved-IsOrderly :
    (id : Str) (new s : ExecutionNodeState) (kind : ExecutionGraphEventKind) (now : ℕ)
    (g : ExecutionGraph)
    → IsOrderly g
    → lookup id g.states ≡ some s
    → is_state s completed ≡ false
    → events_left new < events_left s
    → running_count (moved id new kind now g) ≤ g.plan.limits.max_parallel_nodes
    → all (may_become g.states id new) (values g.plan.nodes) ≡ true
    → ltb now g.last_observed_millis ≡ false
    → IsOrderly (moved id new kind now g)
moved-IsOrderly id new s kind now g o at undone less parallel may on_time = record {
  bounded = o.bounded;
  room = omega (
    arith,
    total-write events_left id new g.states {old = s} at,
    o.room,
    less,
    length-append g.events (
        record {
          sequence = length g.events + 1;
          node_id = id;
          kind = kind;
          observed_at_millis = now;
        }
        ∷ []),
  );
  parallel = parallel;
  journal = (
    o.journal.0,
    Journal-append 1 o.journal.0 g.last_observed_millis g.events
        (record {
          sequence = length g.events + 1;
          node_id = id;
          kind = kind;
          observed_at_millis = now;
        })
        o.journal.1 (omega arith) (ground (arith, on_time)),
  );
  ordered = respects_deps-write id s new g.states (values g.plan.nodes) at undone may o.ordered;
  keyed = keys-write id new g.states ∙ o.keyed;
  separate = o.separate;
}

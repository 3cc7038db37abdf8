-- ===== src/Graph/Cancel.antt =====
-- crates/revoot-core/src/execution_graph.rs: `cancel_remaining`, over all the open nodes.
use revoot.Prelude.{
  ℕ, ◌+◌, ◌≡◌, refl, subst, sym, ap, ◌∙◌, true, false, some, List, [], ◌∷◌, arith, ltb,
  if◌then◌else◌, any, is_empty, length, length-append, append_assoc, append_nil, ◌++◌, Bool-cases,
  inl, inr, Result, ok, err,
}
use revoot.Text.{Str, str_eq, str_eq_iff}
use revoot.Map.{Map, lookup, write, values}
use revoot.Map.Laws.{keys}
use revoot.Graph.Plan.{ExecutionGraphError, clock_regression}
use revoot.Graph.Data.{
  ExecutionNodeState, cancelled, running, pending, failed, is_state, completed, event_cancelled,
  ExecutionGraph, ExecutionGraphEvent,
}
use revoot.Graph.{is_open, open_ids, cancel_each, cancel_remaining}
use revoot.Graph.States.{distinct, may_become-cancelled}
use revoot.Graph.Invariant.{
  IsOrderly, moved, moved-IsOrderly, transition-late, transition-moved, not_full, is_numbered,
  events_left-is_open,
}
use revoot.Graph.Moves.{running_count-closed}

-- every open node cancelled, the others as they were
abbrev pub all_cancelled : Map ExecutionNodeState → Map ExecutionNodeState
all_cancelled [] = []
all_cancelled ((k, s) ∷ m) = (k, if is_open s then cancelled else s) ∷ all_cancelled m

none_open : (m : Map ExecutionNodeState) → open_ids m ≡ [] → all_cancelled m ≡ m
none_open [] h = refl
none_open ((k, s) ∷ m) h = elim (Bool-cases (is_open s)) [
  | inl opened ↦ let got : k ∷ open_ids m ≡ [] = ground (arith, opened) in cc
  | inr closed ↦ ground (arith, closed, none_open m)
]

in_keys :
    (id : Str) (ids : List Str) (m : Map ExecutionNodeState)
    → open_ids m ≡ id ∷ ids
    → any (λ j. str_eq j id) (keys m) ≡ true
in_keys id ids [] h = cc
in_keys id ids ((k, s) ∷ m) h = elim (Bool-cases (is_open s)) [
  | inl opened ↦ ground (arith, opened, str_eq_iff k id)
  | inr closed ↦ ground (arith, closed, str_eq_iff k id, in_keys id ids m)
]

-- Cancelling the first open node.
record FirstCancelled (id : Str) (ids : List Str) (m : Map ExecutionNodeState) : Type 0 where
  state : ExecutionNodeState
  found : lookup id m ≡ some state
  opened : is_open state ≡ true
  rest : open_ids (write id cancelled m) ≡ ids
  same : all_cancelled (write id cancelled m) ≡ all_cancelled m

cancel_first :
    (id : Str) (ids : List Str) (m : Map ExecutionNodeState)
    → distinct (keys m) ≡ true
    → open_ids m ≡ id ∷ ids
    → FirstCancelled id ids m
unfolding lookup write
cancel_first id ids [] d h = cc
cancel_first id ids ((k, s) ∷ m) d h = elim (Bool-cases (is_open s)) [
  | inl opened ↦ record {
    state = s;
    found = ground (arith, opened, str_eq_iff k id);
    opened = opened;
    rest = ground (arith, opened, str_eq_iff k id);
    same = ground (arith, opened, str_eq_iff k id);
  }
  | inr closed ↦
      let later : open_ids m ≡ id ∷ ids = ground (arith, closed) in
      let other : str_eq k id ≡ false = ground (arith, str_eq_iff k id, in_keys id ids m later) in
      let f = cancel_first id ids m (ground arith) later in
      record {
        state = f.state;
        found = rw other f.found;
        opened = f.opened;
        rest = rw (other, closed) f.rest;
        same = rw (other, closed) (ap (λ t. (k, s) ∷ t) f.same);
      }
]

open_undone : (s : ExecutionNodeState) → is_open s ≡ true → is_state s completed ≡ false
open_undone pending h = refl
open_undone running h = refl
open_undone completed h = cc
open_undone failed h = cc
open_undone cancelled h = cc

cancelled-IsOrderly :
    (id : Str) (s : ExecutionNodeState) (now : ℕ) (g : ExecutionGraph)
    → IsOrderly g
    → lookup id g.states ≡ some s
    → is_open s ≡ true
    → ltb now g.last_observed_millis ≡ false
    → IsOrderly (moved id cancelled event_cancelled now g)
cancelled-IsOrderly id s now g o at opened on_time =
    moved-IsOrderly id cancelled s event_cancelled now g o at (open_undone s opened)
      (events_left-is_open s opened)
      (omega (arith, o.parallel, running_count-closed id cancelled s event_cancelled now g at refl))
      (may_become-cancelled id g.states (values g.plan.nodes)) on_time

-- An event for each of the nodes, in order and numbered on.
abbrev pub cancel_events : List Str → ℕ → ℕ → List ExecutionGraphEvent
cancel_events [] n now = []
cancel_events (id ∷ ids) n now =
    record { sequence = n + 1; node_id = id; kind = event_cancelled; observed_at_millis = now }
    ∷ cancel_events ids (n + 1) now

-- What `cancel_each` of all the open nodes leaves.
pub record Cancels (before : ExecutionGraph) (now : ℕ)
    (after : Result ExecutionGraphError (Unit {0}) × ExecutionGraph) : Type 0 where
  pub succeeds : after.0 ≡ ok tt
  pub closed : after.1.states ≡ all_cancelled before.states
  pub logged :
      after.1.events
      ≡ before.events ++ cancel_events (open_ids before.states) (length before.events) now
  pub kept :
      (after.1.facts ≡ before.facts) × (after.1.usage ≡ before.usage) × (after.1.plan ≡ before.plan)
  pub orderly : IsOrderly after.1

cancel_each-Cancels :
    (ids : List Str) (now : ℕ) (g : ExecutionGraph)
    → IsOrderly g
    → open_ids g.states ≡ ids
    → ltb now g.last_observed_millis ≡ false
    → Cancels g now (cancel_each ids now g)
unfolding cancel_each
cancel_each-Cancels [] now g o h on_time = record {
  succeeds = refl;
  closed = sym (none_open g.states h);
  logged = rw h (sym (append_nil g.events));
  kept = (refl, refl, refl);
  orderly = o;
}
cancel_each-Cancels (id ∷ ids) now g o h on_time =
    let f = cancel_first id ids g.states (rw o.keyed o.separate) h in
    let g' = moved id cancelled event_cancelled now g in
    let r =
      cancel_each-Cancels ids now g'
        (cancelled-IsOrderly id f.state now g o f.found f.opened on_time) f.rest (ground arith) in
    let goes : cancel_each (id ∷ ids) now g ≡ cancel_each ids now g' =
      rw
        (
          cancel_each,
          on_time,
          not_full id f.state g o f.found f.opened,
          f.found,
          is_numbered id f.state g o f.found f.opened,
        )
        (ap (λ x. cancel_each ids now x.1)
          (transition-moved id cancelled f.state event_cancelled now g o f.found f.opened
            on_time)) in
    subst (λ after. Cancels g now after) (sym goes)
      (record {
        succeeds = r.succeeds;
        closed = r.closed ∙ f.same;
        logged =
            r.logged
            ∙ ap (λ l. g'.events ++ cancel_events l (length g'.events) now) f.rest
            ∙ ap (λ n. g'.events ++ cancel_events ids n now)
                (length-append g.events (cancel_events (id ∷ []) (length g.events) now))
            ∙ append_assoc g.events (cancel_events (id ∷ []) (length g.events) now)
                (cancel_events ids (length g.events + 1) now)
            ∙ ap (λ l. g.events ++ cancel_events l (length g.events) now) (sym h);
        kept = r.kept;
        orderly = r.orderly;
      })

-- In an orderly graph and on a clock that does not go back, `cancel_remaining` succeeds: it cancels
-- the open nodes and no other, writes one event for each, in order, after the events
-- that are there, of kind cancelled, with the time and the next number, leaves facts, usage and plan, and the
-- graph is orderly after it.
pub cancel_remaining-Cancels :
    (now : ℕ) (g : ExecutionGraph)
    → IsOrderly g
    → ltb now g.last_observed_millis ≡ false
    → Cancels g now (cancel_remaining now g)
unfolding cancel_remaining
cancel_remaining-Cancels now g o on_time =
    cancel_each-Cancels (open_ids g.states) now g o refl on_time

cancel_each_late :
    (ids : List Str) (now : ℕ) (g : ExecutionGraph)
    → ltb now g.last_observed_millis ≡ true
    → cancel_each ids now g ≡ (if is_empty ids then ok tt else err clock_regression, g)
unfolding cancel_each
cancel_each_late [] now g late = refl
cancel_each_late (id ∷ ids) now g late =
    rw (cancel_each, late)
      (ap (λ x. (err clock_regression, x.1))
        (transition-late id cancelled event_cancelled now g late))

-- On a clock that goes back, `cancel_remaining` changes nothing, and it succeeds only when there
-- is nothing to cancel.
pub cancel_remaining_late :
    (now : ℕ) (g : ExecutionGraph)
    → ltb now g.last_observed_millis ≡ true
    → cancel_remaining now g
      ≡ (if is_empty (open_ids g.states) then ok tt else err clock_regression, g)
unfolding cancel_remaining
cancel_remaining_late now g late = cancel_each_late (open_ids g.states) now g late

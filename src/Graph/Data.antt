-- ===== src/Graph/Data.antt =====
-- crates/revoot-core/src/execution_graph.rs: node states, facts, usage, events, and the graph.
use revoot.Prelude.{
  ℕ, Bool, false, Option, none, some, List, [], ◌∷◌, ltb, ◌==◌, if◌then◌else◌, Result, ok, err,
  and_then, u32_max, checked_add,
}
use revoot.Text.{Str}
use revoot.Map.{Map}
use revoot.Graph.Plan.{ExecutionGraphPlan, ExecutionGraphError, usage_overflow}

pub data ExecutionNodeState : Type 0 where
  pending running completed failed cancelled : ExecutionNodeState

-- the derived equality
abbrev pub state_rank : ExecutionNodeState → ℕ
state_rank pending = 0
state_rank running = 1
state_rank completed = 2
state_rank failed = 3
state_rank cancelled = 4

abbrev pub is_state : ExecutionNodeState → ExecutionNodeState → Bool
is_state a b = state_rank a == state_rank b

-- `self.states.get(id) == Some(&state)`
abbrev pub found_in : ExecutionNodeState → Option ExecutionNodeState → Bool
found_in s none = false
found_in s (some t) = is_state t s

pub data ExecutionFact : Type 0 where
  request_validated repository_inspected diff_inspected candidate_admitted : ExecutionFact
  candidate_suppressed summary_submitted outcome_finalized : ExecutionFact

abbrev pub fact_rank : ExecutionFact → ℕ
fact_rank request_validated = 0
fact_rank repository_inspected = 1
fact_rank diff_inspected = 2
fact_rank candidate_admitted = 3
fact_rank candidate_suppressed = 4
fact_rank summary_submitted = 5
fact_rank outcome_finalized = 6

-- A `BTreeSet` of facts in order: insertion of one, and `extend`.
unfoldable pub insert_fact : ExecutionFact → List ExecutionFact → List ExecutionFact
insert_fact f [] = f ∷ []
insert_fact f (g ∷ gs) =
    let rest = insert_fact f gs in
    if fact_rank f == fact_rank g
    then g ∷ gs
    else if ltb (fact_rank f) (fact_rank g)
    then f ∷ g ∷ gs
    else g ∷ rest

unfoldable pub extend_facts : List ExecutionFact → List ExecutionFact → List ExecutionFact
unfolding insert_fact
extend_facts facts [] = facts
extend_facts facts (f ∷ fs) = extend_facts (insert_fact f facts) fs

pub record ExecutionGraphUsage : Type 0 where
  pub model_turns : ℕ  -- u32
  pub tool_calls : ℕ  -- u32
  pub admitted_candidates : ℕ  -- u32
  pub suppressed_candidates : ℕ  -- u32

abbrev pub no_usage : ExecutionGraphUsage
no_usage = record {
  model_turns = 0;
  tool_calls = 0;
  admitted_candidates = 0;
  suppressed_candidates = 0;
}

-- `checked_add(..).ok_or(UsageOverflow)`
abbrev pub or_overflow : Option ℕ → Result ExecutionGraphError ℕ
or_overflow none = err usage_overflow
or_overflow (some n) = ok n

unfoldable pub add_usage :
    ExecutionGraphUsage → ExecutionGraphUsage → Result ExecutionGraphError ExecutionGraphUsage
add_usage a b = and_then (or_overflow (checked_add u32_max a.model_turns b.model_turns)) λ turns.
    and_then (or_overflow (checked_add u32_max a.tool_calls b.tool_calls)) λ calls.
      and_then (or_overflow (checked_add u32_max a.admitted_candidates b.admitted_candidates))
        λ ins.
          and_then
            (or_overflow (checked_add u32_max a.suppressed_candidates b.suppressed_candidates))
            λ outs. ok (record {
              model_turns = turns;
              tool_calls = calls;
              admitted_candidates = ins;
              suppressed_candidates = outs;
            })

pub record ExecutionNodeContribution : Type 0 where
  pub facts : List ExecutionFact
  pub usage : ExecutionGraphUsage

pub data ExecutionGraphEventKind : Type 0 where
  started event_completed event_failed event_cancelled : ExecutionGraphEventKind

pub record ExecutionGraphEvent : Type 0 where
  pub sequence : ℕ  -- u32
  pub node_id : Str
  pub kind : ExecutionGraphEventKind
  pub observed_at_millis : ℕ  -- u64

pub record ExecutionGraph : Type 0 where
  pub plan : ExecutionGraphPlan
  pub states : Map ExecutionNodeState
  pub events : List ExecutionGraphEvent
  pub facts : List ExecutionFact
  pub usage : ExecutionGraphUsage
  pub last_observed_millis : ℕ  -- u64

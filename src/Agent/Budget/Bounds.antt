-- ===== src/Agent/Budget/Bounds.antt =====
-- crates/revoot-core/src/agent.rs: the ledger against its limits, call by call.
use revoot.Prelude.{ℕ, ◌+◌, ◌≤◌, ◌≡◌, Option, none, some, arith, ok}
use revoot.Agent.Limits.{AgentBudgetLimits, InRange}
use revoot.Agent.Budget.Checks.{admit_request-ok_iff}
use revoot.Agent.Budget.{
  AgentBudget, InFlightModelRequest, ModelRequestReservation, ModelRequestUsage, new, ensure,
  observe_time, begin_model_request, finish_model_request, abandon_model_request, charge_tool,
  charge_candidates,
}

-- What an open request may still cost.
abbrev pub reserved : (ModelRequestReservation → ℕ) → Option InFlightModelRequest → ℕ
reserved cost none = 0
reserved cost (some request) = cost request.reservation

-- The open request is the last one that was numbered.
abbrev pub IsLatest : Option InFlightModelRequest → ℕ → Type 0
IsLatest none n = Unit
IsLatest (some request) n = request.id ≡ n

pub record IsWithin (b : AgentBudget) : Type 0 where
  pub turns : b.usage.turns ≤ b.limits.max_turns
  pub model_requests : b.usage.model_requests ≤ b.limits.max_model_requests
  pub tool_calls : b.usage.tool_calls ≤ b.limits.max_tool_calls
  pub repository_files : b.usage.repository_files ≤ b.limits.max_repository_files
  pub repository_bytes : b.usage.repository_bytes ≤ b.limits.max_repository_bytes
  pub input_tokens :
      b.usage.input_tokens + reserved (λ r. r.input_tokens) b.in_flight ≤ b.limits.max_input_tokens
  pub output_tokens :
      b.usage.output_tokens + reserved (λ r. r.output_tokens) b.in_flight
      ≤ b.limits.max_output_tokens
  pub cost_microusd :
      b.usage.cost_microusd + reserved (λ r. r.cost_microusd) b.in_flight
      ≤ b.limits.max_cost_microusd
  pub candidate_findings : b.usage.candidate_findings ≤ b.limits.max_candidate_findings
  pub elapsed : b.usage.elapsed_millis ≤ b.limits.max_elapsed_millis
  pub clock : b.started_at_millis + b.usage.elapsed_millis ≡ b.last_observed_millis
  pub one_request_a_turn : b.usage.turns ≡ b.usage.model_requests
  pub latest : IsLatest b.in_flight b.usage.model_requests

pub limits-new : (l : AgentBudgetLimits) (t : ℕ) {b : AgentBudget} → new l t ≡ ok b → b.limits ≡ l
unfolding new
limits-new l t h = ground arith

pub in_flight-new :
    (l : AgentBudgetLimits) (t : ℕ) {b : AgentBudget} → new l t ≡ ok b → b.in_flight ≡ none
unfolding new
in_flight-new l t h = ground arith

pub new-IsWithin : (l : AgentBudgetLimits) (t : ℕ) {b : AgentBudget} → new l t ≡ ok b → IsWithin b
unfolding new
new-IsWithin l t h = ground arith

module _ (b : AgentBudget) (range : InRange b.limits) (within : IsWithin b) where
  pub observe_time-IsWithin : (now : ℕ) → IsWithin (observe_time now b).1
  unfolding observe_time
  observe_time-IsWithin now = ground arith

  pub begin_model_request-IsWithin :
      (r : ModelRequestReservation) (now : ℕ) → IsWithin (begin_model_request r now b).1
  unfolding begin_model_request
  begin_model_request-IsWithin r now = ground (arith, admit_request-ok_iff r (observe_time now b).1)

  pub finish_model_request-IsWithin :
      (id : ℕ) (used : ModelRequestUsage) (now : ℕ)
      → IsWithin (finish_model_request id used now b).1
  unfolding finish_model_request
  finish_model_request-IsWithin id used now = ground arith

  pub abandon_model_request-IsWithin : (id now : ℕ) → IsWithin (abandon_model_request id now b).1
  unfolding abandon_model_request
  abandon_model_request-IsWithin id now = ground arith

  pub charge_tool-IsWithin :
      (calls files bytes now : ℕ) → IsWithin (charge_tool calls files bytes now b).1
  unfolding charge_tool ensure
  charge_tool-IsWithin calls files bytes now = ground arith

  pub charge_candidates-IsWithin : (count : ℕ) → IsWithin (charge_candidates count b).1
  unfolding charge_candidates ensure
  charge_candidates-IsWithin count = ground arith

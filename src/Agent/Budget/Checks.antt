-- ===== src/Agent/Budget/Checks.antt =====
-- crates/revoot-core/src/agent.rs: what the checks of the ledger's methods let through, so that
-- the other proofs keep the checks shut.
use revoot.Prelude.{ℕ, ◌+◌, ◌≤◌, ◌≡◌, ◌↔◌, none, arith, ok, u32_max, u64_max}
use revoot.Agent.Limits.{InRange}
use revoot.Agent.Budget.{
  AgentBudget, AgentBudgetDimension, ModelRequestReservation, ensure, admit_request,
}

-- A charge passes exactly when the sum is at most the maximum: the type's own bound cannot bite.
pub ensure-ok_iff :
    (top current added maximum : ℕ) (d : AgentBudgetDimension)
    → maximum ≤ top
    → (ensure top current added maximum d ≡ ok tt) ↔ (current + added ≤ maximum)
unfolding ensure
ensure-ok_iff top current added maximum d range = (λ h. ground arith, λ h. ground arith)

-- What a reservation must meet, in the ledger after the time was observed.
pub record Fits (r : ModelRequestReservation) (b : AgentBudget) : Type 0 where
  pub idle : b.in_flight ≡ none
  pub turns : b.usage.turns + 1 ≤ b.limits.max_turns
  pub model_requests : b.usage.model_requests + 1 ≤ b.limits.max_model_requests
  pub input_tokens : b.usage.input_tokens + r.input_tokens ≤ b.limits.max_input_tokens
  pub output_tokens : b.usage.output_tokens + r.output_tokens ≤ b.limits.max_output_tokens
  pub cost_microusd : b.usage.cost_microusd + r.cost_microusd ≤ b.limits.max_cost_microusd

-- The checks pass exactly when the reservation fits what the limits leave.
pub admit_request-ok_iff :
    (r : ModelRequestReservation) (b : AgentBudget)
    → InRange b.limits
    → (admit_request r b ≡ ok tt) ↔ Fits r b
unfolding admit_request
admit_request-ok_iff r b range = (
  λ h. ground (
    arith,
    ensure-ok_iff u32_max b.usage.turns 1 b.limits.max_turns AgentBudgetDimension.turns,
    ensure-ok_iff u32_max b.usage.model_requests 1 b.limits.max_model_requests
        AgentBudgetDimension.model_requests,
    ensure-ok_iff u64_max b.usage.input_tokens r.input_tokens b.limits.max_input_tokens
        AgentBudgetDimension.input_tokens,
    ensure-ok_iff u64_max b.usage.output_tokens r.output_tokens b.limits.max_output_tokens
        AgentBudgetDimension.output_tokens,
    ensure-ok_iff u64_max b.usage.cost_microusd r.cost_microusd b.limits.max_cost_microusd
        AgentBudgetDimension.cost,
  ),
  λ h. ground (
    arith,
    ensure-ok_iff u32_max b.usage.turns 1 b.limits.max_turns AgentBudgetDimension.turns,
    ensure-ok_iff u32_max b.usage.model_requests 1 b.limits.max_model_requests
        AgentBudgetDimension.model_requests,
    ensure-ok_iff u64_max b.usage.input_tokens r.input_tokens b.limits.max_input_tokens
        AgentBudgetDimension.input_tokens,
    ensure-ok_iff u64_max b.usage.output_tokens r.output_tokens b.limits.max_output_tokens
        AgentBudgetDimension.output_tokens,
    ensure-ok_iff u64_max b.usage.cost_microusd r.cost_microusd b.limits.max_cost_microusd
        AgentBudgetDimension.cost,
  ),
)

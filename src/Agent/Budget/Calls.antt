-- ===== src/Agent/Budget/Calls.antt =====
-- crates/revoot-core/src/agent.rs: the ledger under any sequence of calls, failed ones included.
use revoot.Prelude.{ℕ, ◌≤◌, ◌≡◌, List, [], ◌∷◌, arith, ok}
use revoot.Agent.Limits.{AgentBudgetLimits, InRange}
use revoot.Agent.Budget.{
  AgentBudget, ModelRequestReservation, ModelRequestUsage, new, begin_model_request,
  finish_model_request, abandon_model_request, charge_tool, charge_candidates,
}
use revoot.Agent.Budget.Bounds.{
  IsWithin, limits-new, new-IsWithin, begin_model_request-IsWithin, finish_model_request-IsWithin,
  abandon_model_request-IsWithin, charge_tool-IsWithin, charge_candidates-IsWithin,
}

pub data Call : Type 0 where
  begin : ModelRequestReservation → ℕ → Call
  finish : ℕ → ModelRequestUsage → ℕ → Call
  abandon : ℕ → ℕ → Call
  tool : ℕ → ℕ → ℕ → ℕ → Call
  candidates : ℕ → Call

-- The ledger that a call leaves, whatever it returned.
unfoldable pub after : AgentBudget → Call → AgentBudget
after b (begin r now) = (begin_model_request r now b).1
after b (finish id used now) = (finish_model_request id used now b).1
after b (abandon id now) = (abandon_model_request id now b).1
after b (tool calls files bytes now) = (charge_tool calls files bytes now b).1
after b (candidates count) = (charge_candidates count b).1

unfoldable pub after_all : AgentBudget → List Call → AgentBudget
after_all b [] = b
after_all b (c ∷ cs) = after_all (after b c) cs

limits-after : (b : AgentBudget) (c : Call) → (after b c).limits ≡ b.limits
unfolding after begin_model_request finish_model_request abandon_model_request charge_tool
    charge_candidates
limits-after b (begin r now) = ground arith
limits-after b _ = ground arith

after-IsWithin :
    (b : AgentBudget) → InRange b.limits → IsWithin b → (c : Call) → IsWithin (after b c)
unfolding after
after-IsWithin b range h (begin r now) = begin_model_request-IsWithin b range h r now
after-IsWithin b range h (finish id used now) = finish_model_request-IsWithin b range h id used now
after-IsWithin b range h (abandon id now) = abandon_model_request-IsWithin b range h id now
after-IsWithin b range h (tool calls files bytes now) =
    charge_tool-IsWithin b range h calls files bytes now
after-IsWithin b range h (candidates count) = charge_candidates-IsWithin b range h count

after_all-IsWithin :
    (b : AgentBudget) → InRange b.limits → IsWithin b → (cs : List Call) → IsWithin (after_all b cs)
unfolding after_all
after_all-IsWithin b range h [] = h
after_all-IsWithin b range h (c ∷ cs) =
    after_all-IsWithin (after b c) (rw limits-after range) (after-IsWithin b range h c) cs

-- A ledger made by `new`, with limits that fit their machine widths, stays within every limit
-- under any sequence of calls, failed calls included: counters, an open request's reservation
-- added to what was spent, and the elapsed time.
pub new-after_all-IsWithin :
    (l : AgentBudgetLimits) (t : ℕ) {b : AgentBudget} (cs : List Call)
    → InRange l
    → new l t ≡ ok b
    → IsWithin (after_all b cs)
new-after_all-IsWithin l t {b} cs range made =
    after_all-IsWithin b (rw (limits-new l t made) range) (new-IsWithin l t made) cs

-- What never goes down.
pub record Grows (b c : AgentBudget) : Type 0 where
  pub turns : b.usage.turns ≤ c.usage.turns
  pub model_requests : b.usage.model_requests ≤ c.usage.model_requests
  pub tool_calls : b.usage.tool_calls ≤ c.usage.tool_calls
  pub repository_files : b.usage.repository_files ≤ c.usage.repository_files
  pub repository_bytes : b.usage.repository_bytes ≤ c.usage.repository_bytes
  pub input_tokens : b.usage.input_tokens ≤ c.usage.input_tokens
  pub output_tokens : b.usage.output_tokens ≤ c.usage.output_tokens
  pub cost_microusd : b.usage.cost_microusd ≤ c.usage.cost_microusd
  pub candidate_findings : b.usage.candidate_findings ≤ c.usage.candidate_findings
  pub elapsed : b.usage.elapsed_millis ≤ c.usage.elapsed_millis
  pub last_observed : b.last_observed_millis ≤ c.last_observed_millis

after-Grows : (b : AgentBudget) → InRange b.limits → IsWithin b → (c : Call) → Grows b (after b c)
unfolding after begin_model_request finish_model_request abandon_model_request charge_tool
    charge_candidates
after-Grows b range h (begin r now) = ground arith
after-Grows b range h _ = ground arith

-- From a ledger within its limits, no counter ever goes down, over any sequence of calls.
pub after_all-Grows :
    (b : AgentBudget) → InRange b.limits → IsWithin b → (cs : List Call) → Grows b (after_all b cs)
unfolding after_all
after_all-Grows b range h [] = omega arith
after_all-Grows b range h (c ∷ cs) = omega (
  arith,
  after-Grows b range h c,
  after_all-Grows (after b c) (rw limits-after range) (after-IsWithin b range h c) cs,
)

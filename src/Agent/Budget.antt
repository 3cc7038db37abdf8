-- ===== src/Agent/Budget.antt =====
-- crates/revoot-core/src/agent.rs: `AgentBudget`, the aggregate ledger of one review.
-- A method on `&mut self` is an action that returns its result and the new ledger.
pub mod Checks
pub mod Bounds
pub mod Calls
pub mod Outcomes
mod Tests
use revoot.Prelude.{
  ℕ, ◌-◌, Option, none, some, ltb, ◌==◌, if◌then◌else◌, is_some, Result, ok, err, map_err,
  reject_if, Exec, lift, get, put, ◌>>=◌, ◌>>◌, and_then, u32_max, u64_max, checked_add,
  saturating_add, is_none_or,
}
use revoot.Agent.Limits
use revoot.Agent.Limits.{AgentBudgetLimits, AgentBudgetUsage, AgentBudgetValidationError, no_usage}

pub data AgentBudgetDimension : Type 0 where
  turns model_requests tool_calls repository_files repository_bytes : AgentBudgetDimension
  input_tokens output_tokens cost candidate_findings elapsed_time : AgentBudgetDimension

pub data AgentBudgetError : Type 0 where
  invalid_limits : AgentBudgetValidationError → AgentBudgetError
  clock_regression : AgentBudgetError
  exhausted : AgentBudgetDimension → AgentBudgetError
  model_request_in_flight no_model_request_in_flight model_request_mismatch : AgentBudgetError
  reservation_exceeded : AgentBudgetDimension → AgentBudgetError

pub record ModelRequestReservation : Type 0 where
  pub input_tokens : ℕ  -- u64
  pub output_tokens : ℕ  -- u64
  pub cost_microusd : ℕ  -- u64

pub record ModelRequestUsage : Type 0 where
  pub input_tokens : ℕ  -- u64
  pub output_tokens : ℕ  -- u64
  pub cost_microusd : ℕ  -- u64

pub record InFlightModelRequest : Type 0 where
  pub id : ℕ  -- u32
  pub reservation : ModelRequestReservation

pub record AgentBudget : Type 0 where
  pub limits : AgentBudgetLimits
  pub usage : AgentBudgetUsage
  pub started_at_millis : ℕ  -- u64
  pub last_observed_millis : ℕ  -- u64
  pub in_flight : Option InFlightModelRequest

abbrev pub Charge : Type 0 → Type 0
Charge A = Exec AgentBudget AgentBudgetError A

unfoldable pub new : AgentBudgetLimits → ℕ → Result AgentBudgetError AgentBudget
unfolding Limits.validate
new limits started_at_millis = and_then (map_err invalid_limits (Limits.validate limits)) λ _.
    ok (record {
      limits = limits;
      usage = no_usage;
      started_at_millis = started_at_millis;
      last_observed_millis = started_at_millis;
      in_flight = none;
    })

-- `ensure_u32` and `ensure_u64`, which differ in the greatest value of the type
unfoldable pub ensure : ℕ → ℕ → ℕ → ℕ → AgentBudgetDimension → Result AgentBudgetError (Unit {0})
ensure top current added maximum dimension =
    reject_if (is_none_or (checked_add top current added) (λ value. ltb maximum value))
      (exhausted dimension)

abbrev pub ensure_u32 : ℕ → ℕ → ℕ → AgentBudgetDimension → Charge (Unit {0})
ensure_u32 current added maximum dimension = lift (ensure u32_max current added maximum dimension)

abbrev pub ensure_u64 : ℕ → ℕ → ℕ → AgentBudgetDimension → Charge (Unit {0})
ensure_u64 current added maximum dimension = lift (ensure u64_max current added maximum dimension)

-- `saturating_sub` is the subtraction of ℕ
unfoldable pub observe_time : ℕ → Charge (Unit {0})
observe_time now_millis b =
    if ltb now_millis b.last_observed_millis
    then (err clock_regression, b)
    else if ltb b.limits.max_elapsed_millis (now_millis - b.started_at_millis)
    then (err (exhausted elapsed_time), b)
    else (
      ok tt,
      record b {
        last_observed_millis = now_millis;
        usage = record b.usage { elapsed_millis = now_millis - b.started_at_millis };
      },
    )

-- the writes of `begin_model_request`, after its checks
unfoldable pub open_request : ModelRequestReservation → Charge ℕ
open_request reservation b =
    let id = saturating_add u32_max b.usage.model_requests 1 in
    (
      ok id,
      record b {
        usage = record b.usage {
          turns = saturating_add u32_max b.usage.turns 1;
          model_requests = id;
        };
        in_flight = some (record { id = id; reservation = reservation });
      },
    )

-- the checks of `begin_model_request` behind the clock's
unfoldable pub admit_request :
    ModelRequestReservation → AgentBudget → Result AgentBudgetError (Unit {0})
admit_request reservation b =
    let used = b.usage in
    let most = b.limits in
    and_then (reject_if (is_some b.in_flight) model_request_in_flight) λ _.
      and_then (ensure u32_max used.turns 1 most.max_turns turns) λ _.
        and_then (ensure u32_max used.model_requests 1 most.max_model_requests model_requests) λ _.
          and_then
            (ensure u64_max used.input_tokens reservation.input_tokens most.max_input_tokens
              input_tokens)
            λ _.
              and_then
                (ensure u64_max used.output_tokens reservation.output_tokens most.max_output_tokens
                  output_tokens)
                λ _.
                  ensure u64_max used.cost_microusd reservation.cost_microusd most.max_cost_microusd
                    cost

unfoldable pub begin_model_request : ModelRequestReservation → ℕ → Charge ℕ
unfolding observe_time open_request
begin_model_request reservation now_millis = do
  observe_time now_millis
  b ← get
  lift (admit_request reservation b)
  open_request reservation

-- `self.in_flight.ok_or(..)?` and the comparison of the ids
unfoldable pub active_request : ℕ → Charge InFlightModelRequest
active_request request_id b = elim b.in_flight [
  | none ↦ (err no_model_request_in_flight, b)
  | some request ↦ (if request.id == request_id then ok request else err model_request_mismatch, b)
]

-- the counters that a settled request moves, and the end of the request
unfoldable pub settle : ModelRequestUsage → Charge (Unit {0})
settle used b = (
  ok tt,
  record b {
    usage = record b.usage {
      input_tokens = saturating_add u64_max b.usage.input_tokens used.input_tokens;
      output_tokens = saturating_add u64_max b.usage.output_tokens used.output_tokens;
      cost_microusd = saturating_add u64_max b.usage.cost_microusd used.cost_microusd;
    };
    in_flight = none;
  },
)

unfoldable pub finish_model_request : ℕ → ModelRequestUsage → ℕ → Charge (Unit {0})
unfolding observe_time active_request settle
finish_model_request request_id usage now_millis = do
  observe_time now_millis
  request ← active_request request_id
  let reserved = request.reservation
  lift
      (reject_if (ltb reserved.input_tokens usage.input_tokens) (reservation_exceeded input_tokens))
  lift (
      reject_if (ltb reserved.output_tokens usage.output_tokens)
        (reservation_exceeded output_tokens))
  lift (reject_if (ltb reserved.cost_microusd usage.cost_microusd) (reservation_exceeded cost))
  settle usage

abbrev pub whole : ModelRequestReservation → ModelRequestUsage
whole r = record {
  input_tokens = r.input_tokens;
  output_tokens = r.output_tokens;
  cost_microusd = r.cost_microusd;
}

unfoldable pub abandon_model_request : ℕ → ℕ → Charge (Unit {0})
unfolding observe_time active_request settle
abandon_model_request request_id now_millis = do
  observe_time now_millis
  request ← active_request request_id
  settle (whole request.reservation)

-- the writes of `charge_tool`, after its checks
unfoldable pub add_tool : ℕ → ℕ → ℕ → Charge (Unit {0})
add_tool calls files bytes b = (
  ok tt,
  record b {
    usage = record b.usage {
      tool_calls = saturating_add u32_max b.usage.tool_calls calls;
      repository_files = saturating_add u64_max b.usage.repository_files files;
      repository_bytes = saturating_add u64_max b.usage.repository_bytes bytes;
    };
  },
)

unfoldable pub charge_tool : ℕ → ℕ → ℕ → ℕ → Charge (Unit {0})
unfolding observe_time add_tool
charge_tool calls files bytes now_millis = do
  observe_time now_millis
  b ← get
  ensure_u32 b.usage.tool_calls calls b.limits.max_tool_calls tool_calls
  ensure_u64 b.usage.repository_files files b.limits.max_repository_files repository_files
  ensure_u64 b.usage.repository_bytes bytes b.limits.max_repository_bytes repository_bytes
  add_tool calls files bytes

unfoldable pub charge_candidates : ℕ → Charge (Unit {0})
charge_candidates count = do
  b ← get
  ensure_u32 b.usage.candidate_findings count b.limits.max_candidate_findings candidate_findings
  put (record b {
    usage = record b.usage {
      candidate_findings = saturating_add u32_max b.usage.candidate_findings count;
    };
  })

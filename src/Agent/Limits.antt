-- ===== src/Agent/Limits.antt =====
-- crates/revoot-core/src/agent.rs: `AgentBudgetLimits`, `AgentBudgetUsage` and their checks.
use revoot.Prelude.{
  ℕ, ◌*◌, ◌≤◌, ◌<◌, ◌≡◌, ◌||◌, ◌↔◌, arith, ltb, ◌==◌, if◌then◌else◌, Result, ok, err, u32_max,
  u64_max,
}

pub record AgentBudgetLimits : Type 0 where
  pub max_turns : ℕ  -- u32
  pub max_model_requests : ℕ  -- u32
  pub max_tool_calls : ℕ  -- u32
  pub max_repository_files : ℕ  -- u64
  pub max_repository_bytes : ℕ  -- u64
  pub max_input_tokens : ℕ  -- u64
  pub max_output_tokens : ℕ  -- u64
  pub max_cost_microusd : ℕ  -- u64
  pub max_candidate_findings : ℕ  -- u32
  pub max_elapsed_millis : ℕ  -- u64

abbrev pub default_limits : AgentBudgetLimits
default_limits = record {
  max_turns = 24;
  max_model_requests = 24;
  max_tool_calls = 96;
  max_repository_files = 2_000;
  max_repository_bytes = 32 * 1024 * 1024;
  max_input_tokens = 500_000;
  max_output_tokens = 64_000;
  max_cost_microusd = 5_000_000;
  max_candidate_findings = 250;
  max_elapsed_millis = 15 * 60 * 1_000;
}

pub data AgentBudgetValidationError : Type 0 where
  turns model_requests tool_calls repository_files repository_bytes : AgentBudgetValidationError
  input_tokens output_tokens candidate_findings elapsed_time : AgentBudgetValidationError

unfoldable pub validate : AgentBudgetLimits → Result AgentBudgetValidationError (Unit {0})
validate l =
    if l.max_turns == 0
    then err turns
    else if l.max_model_requests == 0 || ltb l.max_model_requests l.max_turns
    then err model_requests
    else if l.max_tool_calls == 0
    then err tool_calls
    else if l.max_repository_files == 0
    then err repository_files
    else if l.max_repository_bytes == 0
    then err repository_bytes
    else if l.max_input_tokens == 0
    then err input_tokens
    else if l.max_output_tokens == 0
    then err output_tokens
    else if l.max_candidate_findings == 0
    then err candidate_findings
    else if l.max_elapsed_millis == 0
    then err elapsed_time
    else ok tt

pub record AgentBudgetUsage : Type 0 where
  pub turns : ℕ  -- u32
  pub model_requests : ℕ  -- u32
  pub tool_calls : ℕ  -- u32
  pub repository_files : ℕ  -- u64
  pub repository_bytes : ℕ  -- u64
  pub input_tokens : ℕ  -- u64
  pub output_tokens : ℕ  -- u64
  pub cost_microusd : ℕ  -- u64
  pub candidate_findings : ℕ  -- u32
  pub elapsed_millis : ℕ  -- u64

abbrev pub no_usage : AgentBudgetUsage
no_usage = record {
  turns = 0;
  model_requests = 0;
  tool_calls = 0;
  repository_files = 0;
  repository_bytes = 0;
  input_tokens = 0;
  output_tokens = 0;
  cost_microusd = 0;
  candidate_findings = 0;
  elapsed_millis = 0;
}

-- The widths of the fields.
pub record InRange (l : AgentBudgetLimits) : Type 0 where
  pub turns_u32 : l.max_turns ≤ u32_max
  pub model_requests_u32 : l.max_model_requests ≤ u32_max
  pub tool_calls_u32 : l.max_tool_calls ≤ u32_max
  pub repository_files_u64 : l.max_repository_files ≤ u64_max
  pub repository_bytes_u64 : l.max_repository_bytes ≤ u64_max
  pub input_tokens_u64 : l.max_input_tokens ≤ u64_max
  pub output_tokens_u64 : l.max_output_tokens ≤ u64_max
  pub cost_u64 : l.max_cost_microusd ≤ u64_max
  pub candidates_u32 : l.max_candidate_findings ≤ u32_max
  pub elapsed_u64 : l.max_elapsed_millis ≤ u64_max

-- What every limit but the monetary one must admit.
pub record Admits (l : AgentBudgetLimits) : Type 0 where
  pub turns : 0 < l.max_turns
  pub model_requests : l.max_turns ≤ l.max_model_requests
  pub tool_calls : 0 < l.max_tool_calls
  pub repository_files : 0 < l.max_repository_files
  pub repository_bytes : 0 < l.max_repository_bytes
  pub input_tokens : 0 < l.max_input_tokens
  pub output_tokens : 0 < l.max_output_tokens
  pub candidate_findings : 0 < l.max_candidate_findings
  pub elapsed : 0 < l.max_elapsed_millis

-- Limits pass `validate` exactly when every dimension but cost admits work and there are at least
-- as many model requests as turns.
pub validate-ok_iff : (l : AgentBudgetLimits) → (validate l ≡ ok tt) ↔ Admits l
unfolding validate
validate-ok_iff l = (λ h. ground arith, λ a. ground arith)

-- ===== src/Agent/Invocation.antt =====
-- crates/revoot-core/src/agent.rs: `ReviewInvocation`, the identity and authority of one review.
use revoot.Prelude.{
  ℕ, Bool, not, ◌&&◌, ◌||◌, List, ltb, leb, ◌==◌, is_empty, any, length, Result, map_err, and_then,
  reject_if,
}
use revoot.Text.{Str, len, all_bytes, is_ascii_alphanumeric}
use revoot.Snapshot.{ReviewSnapshotIdentity}
use revoot.Agent.Limits
use revoot.Agent.Limits.{AgentBudgetLimits, AgentBudgetValidationError, Admits}

abbrev pub max_label_bytes : ℕ
max_label_bytes = 128

abbrev pub max_work_units : ℕ
max_work_units = 128

pub data AgentTool : Type 0 where
  read_file search_files list_files inspect_changed_file inspect_tests show_diff : AgentTool
  get_merge_request_metadata get_pull_request_metadata : AgentTool
  get_existing_revoot_findings list_change_commits show_commit_context : AgentTool
  submit_candidate_finding submit_review_summary : AgentTool

-- the derived order, by which the derived equality is decided here
abbrev pub tool_rank : AgentTool → ℕ
tool_rank read_file = 0
tool_rank search_files = 1
tool_rank list_files = 2
tool_rank inspect_changed_file = 3
tool_rank inspect_tests = 4
tool_rank show_diff = 5
tool_rank get_merge_request_metadata = 6
tool_rank get_pull_request_metadata = 7
tool_rank get_existing_revoot_findings = 8
tool_rank list_change_commits = 9
tool_rank show_commit_context = 10
tool_rank submit_candidate_finding = 11
tool_rank submit_review_summary = 12

-- The sets hold their members in order.
pub record ReviewInvocation : Type 0 where
  pub review_id : Str
  pub snapshot : ReviewSnapshotIdentity
  pub work_unit_ids : List Str
  pub provider_adapter : Str
  pub model_id : Str
  pub allowed_tools : List AgentTool
  pub limits : AgentBudgetLimits

pub data ReviewInvocationError : Type 0 where
  review_id work_unit_ids provider_adapter model_id tool_allowlist : ReviewInvocationError
  budget : AgentBudgetValidationError → ReviewInvocationError

abbrev pub label_byte : ℕ → Bool
label_byte c =
    is_ascii_alphanumeric c
    || c == b'-'
    || c == b'_'
    || c == b'.'
    || c == b':'
    || c == b'/'
    || c == b'@'

unfoldable pub valid_label : Str → Bool
unfolding len
valid_label value =
    not (is_empty value) && leb (len value) max_label_bytes && all_bytes label_byte value

unfoldable pub validate : ReviewInvocation → Result ReviewInvocationError (Unit {0})
validate i = and_then (reject_if (not (valid_label i.review_id)) review_id) λ _.
    and_then
      (reject_if
        (is_empty i.work_unit_ids
          || ltb max_work_units (length i.work_unit_ids)
          || any (λ id. not (valid_label id)) i.work_unit_ids)
        work_unit_ids)
      λ _. and_then (reject_if (not (valid_label i.provider_adapter)) provider_adapter) λ _.
        and_then (reject_if (not (valid_label i.model_id)) model_id) λ _.
          and_then (reject_if (is_empty i.allowed_tools) tool_allowlist)
            λ _. map_err budget (Limits.validate i.limits)

unfoldable pub allows : ReviewInvocation → AgentTool → Bool
allows i tool = any (λ t. tool_rank t == tool_rank tool) i.allowed_tools

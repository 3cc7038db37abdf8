-- ===== src/Agent/Outcome.antt =====
-- crates/revoot-core/src/agent.rs: turns, candidates, omissions, outcomes and errors of a review.
use revoot.Prelude.{ℕ, List}
use revoot.Text.{Str}
use revoot.Findings.{FindingsEnvelope, FindingsValidationError}
use revoot.Agent.Limits.{AgentBudgetUsage}
use revoot.Agent.Budget.{AgentBudgetError}
use revoot.Agent.Invocation.{ReviewInvocationError}

pub data AgentTurnPurpose : Type 0 where
  initial_review continue_investigation verify_candidates synthesize : AgentTurnPurpose

pub record AgentTurn : Type 0 where
  pub turn_id : ℕ  -- u32
  pub request_id : ℕ  -- u32
  pub purpose : AgentTurnPurpose

pub data AgentState : Type 0 where
  ready : AgentState
  turn_in_flight : ℕ → AgentState
  finished : AgentState

pub data CandidateSuppressionReason : Type 0 where
  below_confidence_threshold unsupported_category prior_review_incomplete :
      CandidateSuppressionReason
  repository_context_missing diff_evidence_missing lineage_not_owned : CandidateSuppressionReason
  policy duplicate : CandidateSuppressionReason

pub data CandidateAdmission : Type 0 where
  admit : CandidateAdmission
  suppress : CandidateSuppressionReason → CandidateAdmission

pub data CandidateAdmissionError : Type 0 where
  agent_not_active candidate_no_turn candidate_tool_not_allowed : CandidateAdmissionError
  invalid_envelope : FindingsValidationError → CandidateAdmissionError
  unknown_work_unit : CandidateAdmissionError
  candidate_budget : AgentBudgetError → CandidateAdmissionError

pub data CandidateSubmission : Type 0 where
  admitted : CandidateSubmission
  suppressed : CandidateSuppressionReason → CandidateSubmission

pub data AgentOmissionReason : Type 0 where
  inventory_incomplete file_too_large binary_file unsupported_encoding : AgentOmissionReason
  search_truncated diff_unavailable budget_exhausted low_signal_deferred : AgentOmissionReason
  history_unavailable history_incomplete provider_limited policy_excluded : AgentOmissionReason

pub record AgentOmission : Type 0 where
  pub subject_id : Str
  pub reason : AgentOmissionReason

pub data ReviewBlockReason : Type 0 where
  configuration provider_capability repository_unavailable snapshot_unavailable : ReviewBlockReason

pub data ReviewFailureReason : Type 0 where
  provider_failure tool_contract candidate_contract internal : ReviewFailureReason

pub data ReviewOutcome : Type 0 where
  complete : List FindingsEnvelope → Str → AgentBudgetUsage → ReviewOutcome
  partial : List FindingsEnvelope → Str → List AgentOmission → AgentBudgetUsage → ReviewOutcome
  no_findings : Str → List AgentOmission → AgentBudgetUsage → ReviewOutcome
  stale : AgentBudgetUsage → ReviewOutcome
  blocked : ReviewBlockReason → AgentBudgetUsage → ReviewOutcome
  failed : ReviewFailureReason → AgentBudgetUsage → ReviewOutcome
  cancelled : AgentBudgetUsage → ReviewOutcome

pub data AgentRunError : Type 0 where
  invalid_invocation : ReviewInvocationError → AgentRunError
  budget_error : AgentBudgetError → AgentRunError
  run_cancelled not_active turn_already no_turn turn_mismatch : AgentRunError
  tool_not_allowed bad_summary bad_omissions : AgentRunError

-- ===== src/Agent/Run.antt =====
-- crates/revoot-core/src/agent.rs: `AgentRun`, the life cycle of one review.
pub mod Invariant
pub mod Results
use revoot.Prelude.{
  ℕ, Bool, true, false, not, ◌&&◌, ◌||◌, Option, none, some, List, [], ◌∷◌, ◌++◌, ltb, leb, ◌==◌,
  if◌then◌else◌, is_empty, any, length, Result, ok, err, map_err, and_then, reject_if, Exec, pure,
  lift, get, put, ◌>>=◌, ◌>>◌, u32_max,
}
use revoot.Text.{Str, len, str_eq}
use revoot.Text.Trim.{trim}
use revoot.Findings
use revoot.Findings.{FindingsEnvelope, FindingsValidationError}
use revoot.Provider.{CancellationToken, is_cancelled}
use revoot.Agent.Limits.{AgentBudgetUsage}
use revoot.Agent.Budget
use revoot.Agent.Budget.{
  AgentBudget, AgentBudgetError, Charge, ModelRequestReservation, ModelRequestUsage,
  begin_model_request, finish_model_request, charge_candidates,
}
use revoot.Agent.Invocation
use revoot.Agent.Invocation.{
  ReviewInvocation, ReviewInvocationError, submit_candidate_finding, valid_label, allows,
}
use revoot.Agent.Outcome.{
  AgentTurnPurpose, AgentTurn, AgentState, CandidateSuppressionReason, CandidateAdmission,
  CandidateAdmissionError, CandidateSubmission, AgentOmissionReason, AgentOmission,
  ReviewBlockReason, ReviewFailureReason, ReviewOutcome, AgentRunError, initial_review,
  continue_investigation, verify_candidates, synthesize, ready, turn_in_flight, finished,
  below_confidence_threshold, unsupported_category, prior_review_incomplete,
  repository_context_missing, diff_evidence_missing, lineage_not_owned, policy, duplicate, admit,
  suppress, agent_not_active, candidate_no_turn, candidate_tool_not_allowed, invalid_envelope,
  unknown_work_unit, candidate_budget, admitted, suppressed, inventory_incomplete, file_too_large,
  binary_file, unsupported_encoding, search_truncated, diff_unavailable, budget_exhausted,
  low_signal_deferred, history_unavailable, history_incomplete, provider_limited, policy_excluded,
  configuration, provider_capability, repository_unavailable, snapshot_unavailable,
  provider_failure, tool_contract, candidate_contract, internal, complete, partial, no_findings,
  stale, blocked, failed, cancelled, invalid_invocation, budget_error, run_cancelled, not_active,
  turn_already, no_turn, turn_mismatch, tool_not_allowed, bad_summary, bad_omissions,
}

abbrev pub max_summary_bytes : ℕ
max_summary_bytes = 8_192

abbrev pub max_omissions : ℕ
max_omissions = 1_000

pub record AgentRun : Type 0 where
  pub invocation : ReviewInvocation
  pub cancellation : CancellationToken
  pub budget : AgentBudget
  pub state : AgentState
  pub accepted_candidates : List FindingsEnvelope

abbrev pub Agent : Type 0 → Type 0
Agent A = Exec AgentRun AgentRunError A

abbrev pub start : ReviewInvocation → CancellationToken → AgentBudget → AgentRun
start invocation cancellation b = record {
  invocation = invocation;
  cancellation = cancellation;
  budget = b;
  state = ready;
  accepted_candidates = [];
}

unfoldable pub new : ReviewInvocation → CancellationToken → ℕ → Result AgentRunError AgentRun
new invocation cancellation started_at_millis =
    and_then (map_err invalid_invocation (Invocation.validate invocation)) λ _.
      and_then (map_err budget_error (Budget.new invocation.limits started_at_millis))
        λ b. ok (start invocation cancellation b)

-- A call on `self.budget`, with its error wrapped.
abbrev pub on_budget {ℓ} :
    {E : Type ℓ} {A : Type 0} → (AgentBudgetError → E) → Charge A → Exec AgentRun E A
on_budget wrap m r = let (result, b) = m r.budget in (map_err wrap result, record r { budget = b })

abbrev pub set_state {ℓ} : {E : Type ℓ} → AgentState → Exec AgentRun E (Unit {0})
set_state s r = (ok tt, record r { state = s })

unfoldable pub require_not_cancelled : Agent (Unit {0})
require_not_cancelled r = (reject_if (is_cancelled r.cancellation) run_cancelled, r)

-- the `match` of `begin_turn`
abbrev pub require_ready : AgentState → Result AgentRunError (Unit {0})
require_ready ready = ok tt
require_ready (turn_in_flight t) = err turn_already
require_ready finished = err not_active

unfoldable pub begin_turn : AgentTurnPurpose → ModelRequestReservation → ℕ → Agent AgentTurn
unfolding require_not_cancelled
begin_turn purpose reservation now_millis = do
  require_not_cancelled
  r ← get
  lift (require_ready r.state)
  id ← on_budget budget_error (begin_model_request reservation now_millis)
  set_state (turn_in_flight id)
  pure (record { turn_id = id; request_id = id; purpose = purpose })

-- the `match` of `finish_turn`
abbrev pub require_turn : AgentTurn → AgentState → Result AgentRunError (Unit {0})
require_turn turn (turn_in_flight t) = if t == turn.turn_id then ok tt else err turn_mismatch
require_turn turn ready = err no_turn
require_turn turn finished = err not_active

unfoldable pub finish_turn : AgentTurn → ModelRequestUsage → ℕ → Agent (Unit {0})
unfolding require_not_cancelled
finish_turn turn usage now_millis = do
  require_not_cancelled
  r ← get
  lift (require_turn turn r.state)
  on_budget budget_error (finish_model_request turn.request_id usage now_millis)
  set_state ready

abbrev pub is_finished : AgentState → Bool
is_finished finished = true
is_finished _ = false

abbrev pub is_in_flight : AgentState → Bool
is_in_flight (turn_in_flight t) = true
is_in_flight _ = false

-- `u32::try_from(len).unwrap_or(u32::MAX)`
abbrev pub count_u32 : ℕ → ℕ
count_u32 n = if leb n u32_max then n else u32_max

-- the end of `submit_candidate`, from the look for an accepted envelope of the same work unit
unfoldable pub decide_candidate :
    FindingsEnvelope
    → (FindingsEnvelope → CandidateAdmission)
    → Exec AgentRun CandidateAdmissionError CandidateSubmission
decide_candidate candidate hook r =
    if any (λ accepted. str_eq accepted.work_unit_id candidate.work_unit_id) r.accepted_candidates
    then (ok (suppressed duplicate), r)
    else elim (hook candidate) [
      | admit ↦
          (ok admitted, record r { accepted_candidates = r.accepted_candidates ++ candidate ∷ [] })
      | suppress reason ↦ (ok (suppressed reason), r)
    ]

unfoldable pub submit_candidate :
    FindingsEnvelope
    → (FindingsEnvelope → CandidateAdmission)
    → Exec AgentRun CandidateAdmissionError CandidateSubmission
unfolding decide_candidate
submit_candidate candidate hook = do
  r ← get
  lift (reject_if (is_finished r.state) agent_not_active)
  lift (reject_if (not (allows r.invocation submit_candidate_finding)) candidate_tool_not_allowed)
  lift (map_err invalid_envelope (Findings.validate candidate))
  lift (
      reject_if (not (any (λ id. str_eq id candidate.work_unit_id) r.invocation.work_unit_ids))
        unknown_work_unit)
  on_budget candidate_budget (charge_candidates (count_u32 (length candidate.findings)))
  decide_candidate candidate hook

-- the choice among the three successful outcomes
abbrev pub outcome_of :
    List FindingsEnvelope → Str → List AgentOmission → AgentBudgetUsage → ReviewOutcome
outcome_of [] summary omissions usage = no_findings summary omissions usage
outcome_of (f ∷ fs) summary [] usage = complete (f ∷ fs) summary usage
outcome_of (f ∷ fs) summary (o ∷ os) usage = partial (f ∷ fs) summary (o ∷ os) usage

-- the writes of `finish`, after its checks
unfoldable pub close : Str → List AgentOmission → Agent ReviewOutcome
close summary omissions r = (
  ok (outcome_of r.accepted_candidates summary omissions r.budget.usage),
  record r { state = finished; accepted_candidates = [] },
)

unfoldable pub finish : Str → List AgentOmission → Agent ReviewOutcome
unfolding require_not_cancelled close
finish summary omissions = do
  require_not_cancelled
  r ← get
  lift (reject_if (is_in_flight r.state) turn_already)
  lift (reject_if (is_finished r.state) not_active)
  lift (reject_if (is_empty (trim summary) || ltb max_summary_bytes (len summary)) bad_summary)
  lift (
      reject_if
        (ltb max_omissions (length omissions)
          || any (λ o. not (valid_label o.subject_id)) omissions)
        bad_omissions)
  close summary omissions

unfoldable pub terminal : (AgentBudgetUsage → ReviewOutcome) → Agent ReviewOutcome
terminal build r =
    if is_finished r.state
    then (err not_active, r)
    else (ok (build r.budget.usage), record r { state = finished })

unfoldable pub end_stale : Agent ReviewOutcome
unfolding terminal
end_stale = terminal stale

unfoldable pub end_blocked : ReviewBlockReason → Agent ReviewOutcome
unfolding terminal
end_blocked reason = terminal (blocked reason)

unfoldable pub end_failed : ReviewFailureReason → Agent ReviewOutcome
unfolding terminal
end_failed reason = terminal (failed reason)

unfoldable pub end_cancelled : Agent ReviewOutcome
unfolding terminal
end_cancelled r =
    if not (is_cancelled r.cancellation) then (err not_active, r) else terminal cancelled r

-- ===== src/Agent/Samples.antt =====
-- A small review, for the tests.
use revoot.Prelude.{ℕ, ◌≡◌, refl, ap, subst, none, [], ◌∷◌, arith, false, Bool, Result, ok}
use revoot.Text.{lit, str_eq}
use revoot.Snapshot.{ReviewSnapshotIdentity, local, GitSha, Sha256Digest}
use revoot.Findings
use revoot.Findings.{FindingsEnvelope, current_schema}
use revoot.Provider.{new_token, ModelRequest, ModelResponse, user, text, stop}
use revoot.Agent.Limits
use revoot.Agent.Limits.{InRange, default_limits, no_usage}
use revoot.Agent.Budget.{
  AgentBudget, ModelRequestReservation, begin_model_request, admit_request, ensure,
  charge_candidates, charge_tool, exhausted, elapsed_time,
}
use revoot.Agent.Invocation
use revoot.Agent.Invocation.{ReviewInvocation, submit_candidate_finding, valid_label, allows}
use revoot.Agent.Outcome.{
  CandidateAdmission, CandidateAdmissionError, CandidateSubmission, admit, admitted,
}
use revoot.Agent.Turn.{ProviderAdapter}
use revoot.Agent.Run.{AgentRun, start, new, submit_candidate}
use revoot.Agent.Run.Invariant.{IsSound, submit_candidate-IsSound, new-IsSound}

abbrev pub digest : Sha256Digest
digest = record { as_str = lit "0" }

abbrev pub sha : GitSha
sha = record { as_str = lit "0" }

abbrev pub snapshot : ReviewSnapshotIdentity
snapshot = local (record {
  repository_identity_sha256 = digest;
  base_sha = sha;
  head_sha = sha;
  working_tree_sha256 = digest;
  exact_diff_manifest_sha256 = digest;
})

abbrev pub invocation : ReviewInvocation
invocation = record {
  review_id = lit "r-1";
  snapshot = snapshot;
  work_unit_ids = lit "u1" ∷ lit "u2" ∷ [];
  provider_adapter = lit "anthropic";
  model_id = lit "m-1";
  allowed_tools = submit_candidate_finding ∷ [];
  limits = default_limits;
}

abbrev pub budget : AgentBudget
budget = record {
  limits = default_limits;
  usage = no_usage;
  started_at_millis = 5;
  last_observed_millis = 5;
  in_flight = none;
}

abbrev pub run : AgentRun
run = start invocation new_token budget

pub default-InRange : InRange default_limits
default-InRange = omega arith

pub new-run : new invocation new_token 5 ≡ ok run
unfolding new Invocation.validate valid_label Limits.validate revoot.Agent.Budget.new
new-run = refl

pub run-IsSound : IsSound run
run-IsSound = new-IsSound invocation new_token 5 default-InRange new-run

abbrev pub envelope : FindingsEnvelope
envelope = record {
  schema_version = current_schema;
  work_unit_id = lit "u1";
  findings = [];
  summary = lit "Nothing found.";
}

abbrev pub admit_all : FindingsEnvelope → CandidateAdmission
admit_all c = admit

abbrev pub submitted : AgentRun
submitted = record run { accepted_candidates = envelope ∷ [] }

pub submits : submit_candidate envelope admit_all run ≡ (ok admitted, submitted)
unfolding submit_candidate charge_candidates ensure allows Findings.validate str_eq
submits = refl

pub submitted-IsSound : IsSound submitted
submitted-IsSound =
    subst IsSound
      (ap (λ (p : Result CandidateAdmissionError CandidateSubmission × AgentRun). p.1) submits)
      (submit_candidate-IsSound run run-IsSound envelope admit_all)

abbrev pub small : ModelRequestReservation
small = record { input_tokens = 1_000; output_tokens = 100; cost_microusd = 50 }

-- JSON values are numbers here, of which none is an object.
abbrev pub is_object : ℕ → Bool
is_object n = false

abbrev pub question : ModelRequest ℕ
question = record {
  model = lit "m-1";
  system = none;
  messages = record { role = user; content = text (lit "hi") ∷ [] } ∷ [];
  tools = [];
  max_output_tokens = 10;
  temperature = none;
}

abbrev pub answer : ModelResponse ℕ
answer = record {
  provider_response_id = none;
  model = lit "m-1";
  content = text (lit "ok") ∷ [];
  finish_reason = stop;
  usage = record { input_tokens = 900; output_tokens = 20; cached_input_tokens = 0 };
}

abbrev pub answering : ProviderAdapter ℕ
answering = record { adapter_id = lit "anthropic"; complete = λ q t. (ok answer, t) }

-- ===== src/Agent/Tests.antt =====
-- A review: the theorems at concrete reviews and candidates.
use revoot.Prelude.{◌+◌, ◌≤◌, ◌≡◌, ◌⊎◌, ◌↔◌, refl, some, [], ◌∷◌, ◌++◌, ok, err, length}
use revoot.Text.{lit, len}
use revoot.Text.Trim.{trim}
use revoot.Provider.{new_token, is_cancelled}
use revoot.Agent.Limits.{no_usage}
use revoot.Agent.Budget.{charge_tool}
use revoot.Agent.Outcome.{
  CandidateAdmissionError, CandidateSuppressionReason, admitted, suppressed, complete, finished,
}
use revoot.Agent.Run.{AgentRun, submit_candidate, finish}
use revoot.Agent.Run.Invariant.{IsSound, AllAdmissible, total_findings}
use revoot.Agent.Run.Results.{
  published, IsChosen, finish_publishes, IsAdmissible, submit_candidate-admitted_iff,
  submit_candidate_effects,
}
use revoot.Agent.Steps.{here, next, submit, tool, new-Reach-IsSound}
use revoot.Agent.Samples.{
  invocation, run, default-InRange, new-run, run-IsSound, envelope, admit_all, submitted,
  submitted-IsSound, is_object,
}

new-Reach-IsSound_example :
    let s = (submit_candidate envelope admit_all run).1 in
    IsSound (record s { budget = (charge_tool 97 1 1 9 s.budget).1 })
new-Reach-IsSound_example =
    new-Reach-IsSound is_object some invocation new_token 5 default-InRange new-run
      (next (next here (submit envelope admit_all)) (tool 97 1 1 9))

abbrev ended : AgentRun
ended = record run { state = finished }

finishes :
    finish (lit "done") [] submitted
    ≡ (ok (complete (envelope ∷ []) (lit "done") no_usage), record run { state = finished })
unfolding finish is_cancelled trim len
finishes = refl

finish_publishes_example :
    (published (complete (envelope ∷ []) (lit "done") no_usage) ≡ submitted.accepted_candidates)
    × AllAdmissible submitted.invocation.work_unit_ids
        (published (complete (envelope ∷ []) (lit "done") no_usage))
    × (total_findings (published (complete (envelope ∷ []) (lit "done") no_usage))
        ≤ submitted.budget.limits.max_candidate_findings)
    × IsChosen
        (complete (envelope ∷ []) (lit "done") no_usage)
        submitted.accepted_candidates
        (lit "done")
        []
        submitted.budget.usage
    × (record run { state = finished }
        ≡ record submitted { state = finished; accepted_candidates = [] })
finish_publishes_example = finish_publishes submitted (lit "done") [] submitted-IsSound finishes

submit_candidate-admitted_iff_example :
    ((submit_candidate envelope admit_all run).0 ≡ ok admitted)
    ↔ IsAdmissible envelope admit_all run
submit_candidate-admitted_iff_example =
    submit_candidate-admitted_iff run envelope admit_all run-IsSound

submit_candidate_effects_example :
    let (result, r') = submit_candidate envelope admit_all submitted in
    let charged = record submitted.budget {
      usage = record submitted.budget.usage {
        candidate_findings = submitted.budget.usage.candidate_findings + length envelope.findings;
      };
    } in
    ((result ≡ ok admitted)
      × (r' ≡ record submitted {
        budget = charged;
        accepted_candidates = submitted.accepted_candidates ++ envelope ∷ [];
      }))
    ⊎ (((w : CandidateSuppressionReason) × (result ≡ ok (suppressed w)))
        × (r' ≡ record submitted { budget = charged }))
    ⊎ (((e : CandidateAdmissionError) × (result ≡ err e)) × (r' ≡ submitted))
submit_candidate_effects_example =
    submit_candidate_effects submitted envelope admit_all submitted-IsSound

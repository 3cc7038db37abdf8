-- ===== src/Agent/Run/Results.antt =====
-- crates/revoot-core/src/agent.rs: what the candidate and the finishing calls return.
use revoot.Prelude.{
  ◌+◌, ◌≤◌, ◌≡◌, ◌≢◌, refl, true, List, [], ◌∷◌, ◌++◌, arith, ok, err, length, any, ◌⊎◌, ◌↔◌,
}
use revoot.Text.{Str, str_eq}
use revoot.Findings
use revoot.Findings.{FindingsEnvelope}
use revoot.Agent.Limits.{AgentBudgetUsage}
use revoot.Agent.Budget.{charge_candidates, ensure}
use revoot.Agent.Invocation.{allows, submit_candidate_finding}
use revoot.Agent.Outcome.{
  finished, AgentOmission, CandidateAdmission, CandidateAdmissionError, CandidateSuppressionReason,
  admitted, suppressed, admit, candidate_no_turn, ReviewOutcome, complete, partial, no_findings,
}
use revoot.Agent.Run.{AgentRun, submit_candidate, finish, outcome_of}
use revoot.Agent.Run.Invariant.{IsSound, AllAdmissible, IsNew, total_findings, validate-length}

-- The envelopes that an outcome publishes.
abbrev pub published : ReviewOutcome → List FindingsEnvelope
published (complete fs s u) = fs
published (partial fs s os u) = fs
published _ = []

-- How an outcome of `finish` was chosen, from the envelopes, the summary, the omissions and the usage.
abbrev pub IsChosen :
    ReviewOutcome → List FindingsEnvelope → Str → List AgentOmission → AgentBudgetUsage → Type 0
IsChosen (complete fs s u) given summary os usage =
    (given ≢ []) × (os ≡ []) × (fs ≡ given) × (s ≡ summary) × (u ≡ usage)
IsChosen (partial fs s os' u) given summary os usage =
    (given ≢ []) × (os ≢ []) × (fs ≡ given) × (os' ≡ os) × (s ≡ summary) × (u ≡ usage)
IsChosen (no_findings s os' u) given summary os usage =
    (given ≡ []) × (os' ≡ os) × (s ≡ summary) × (u ≡ usage)
IsChosen _ given summary os usage = ⊥

chosen :
    (fs : List FindingsEnvelope) (s : Str) (os : List AgentOmission) (r : AgentRun)
    → (published (outcome_of fs s os r.budget.usage) ≡ fs)
      × IsChosen (outcome_of fs s os r.budget.usage) fs s os r.budget.usage
chosen [] s os r = (refl, (refl, refl, refl, refl))
chosen (f ∷ fs) s [] r = (refl, (λ h. cc, refl, refl, refl, refl))
chosen (f ∷ fs) s (o ∷ os) r = (refl, (λ h. cc, λ h. cc, refl, refl, refl, refl))

-- In a sound run, an outcome of `finish` publishes every accepted envelope, in order and no
-- other; they are valid, of authorised work units, one to a unit, with at most as many findings
-- in all as the limit. It is "complete" only if an envelope was accepted and nothing is omitted,
-- "partial" only if an envelope was accepted and something is omitted, "no findings" only if no
-- envelope was accepted; whether the accepted envelopes hold findings is not asked. It reports the
-- summary and the omissions given and the usage of the ledger. The run is then finished and holds
-- no candidate.
pub finish_publishes :
    (r : AgentRun) (s : Str) (os : List AgentOmission) {o : ReviewOutcome} {r' : AgentRun}
    → IsSound r
    → finish s os r ≡ (ok o, r')
    → (published o ≡ r.accepted_candidates)
      × AllAdmissible r.invocation.work_unit_ids (published o)
      × (total_findings (published o) ≤ r.budget.limits.max_candidate_findings)
      × IsChosen o r.accepted_candidates s os r.budget.usage
      × (r' ≡ record r { state = finished; accepted_candidates = [] })
unfolding finish
finish_publishes r s os sound h = ground (arith, chosen r.accepted_candidates s os r)

-- What an envelope must have to be admitted.
pub record IsAdmissible (c : FindingsEnvelope) (hook : FindingsEnvelope → CandidateAdmission)
    (r : AgentRun) : Type 0 where
  pub active : r.state ≢ finished
  pub allowed : allows r.invocation submit_candidate_finding ≡ true
  pub valid : Findings.validate c ≡ ok tt
  pub known : any (λ id. str_eq id c.work_unit_id) r.invocation.work_unit_ids ≡ true
  pub fits :
      r.budget.usage.candidate_findings + length c.findings ≤ r.budget.limits.max_candidate_findings
  pub first : IsNew c.work_unit_id r.accepted_candidates
  pub hooked : hook c ≡ admit

-- In a sound run, an envelope is admitted exactly when the run has not ended, submitting is
-- allowed, the envelope is valid, of an authorised work unit that has none yet, its findings fit
-- the limit, and the hook admits it.
pub submit_candidate-admitted_iff :
    (r : AgentRun) (c : FindingsEnvelope) (hook : FindingsEnvelope → CandidateAdmission)
    → IsSound r
    → ((submit_candidate c hook r).0 ≡ ok admitted) ↔ IsAdmissible c hook r
unfolding submit_candidate charge_candidates ensure
submit_candidate-admitted_iff r c hook sound =
    (λ h. ground (arith, validate-length c), λ h. ground (arith, validate-length c))

-- What a submission to a sound run changes: an admitted envelope is appended and its findings are
-- charged; a suppressed one is charged all the same; a refused one changes nothing.
pub submit_candidate_effects :
    (r : AgentRun) (c : FindingsEnvelope) (hook : FindingsEnvelope → CandidateAdmission)
    → IsSound r
    → let (result, r') = submit_candidate c hook r in
      let charged = record r.budget {
        usage = record r.budget.usage {
          candidate_findings = r.budget.usage.candidate_findings + length c.findings;
        };
      } in
      ((result ≡ ok admitted)
        × (r'
            ≡ record r { budget = charged; accepted_candidates = r.accepted_candidates ++ c ∷ [] }))
      ⊎ (((w : CandidateSuppressionReason) × (result ≡ ok (suppressed w)))
          × (r' ≡ record r { budget = charged }))
      ⊎ (((e : CandidateAdmissionError) × (result ≡ err e)) × (r' ≡ r))
unfolding submit_candidate charge_candidates ensure
submit_candidate_effects r c hook sound = ground (arith, validate-length c)

-- A submission never fails for want of a turn: the error that stands for it is not returned.
pub submit_candidate-ne-no_turn :
    (r : AgentRun) (c : FindingsEnvelope) (hook : FindingsEnvelope → CandidateAdmission)
    → (submit_candidate c hook r).0 ≢ err candidate_no_turn
unfolding submit_candidate
submit_candidate-ne-no_turn r c hook h = ground arith

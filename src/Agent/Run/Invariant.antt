-- ===== src/Agent/Run/Invariant.antt =====
-- crates/revoot-core/src/agent.rs: what holds of a review between two calls.
use revoot.Prelude.{
  ℕ, ◌+◌, ◌≤◌, ◌≡◌, refl, Bool, true, false, Option, none, some, List, [], ◌∷◌, ◌++◌, arith, ok,
  err, Result, any, length, and_then, map_err,
}
use revoot.Text.{Str, str_eq, str_eq_iff}
use revoot.Findings
use revoot.Findings.{FindingsEnvelope, max_findings}
use revoot.Provider.{CancellationToken}
use revoot.Agent.Limits.{AgentBudgetUsage, InRange}
use revoot.Agent.Budget
use revoot.Agent.Budget.{
  AgentBudget, AgentBudgetError, InFlightModelRequest, ModelRequestReservation, ModelRequestUsage,
  observe_time, begin_model_request, finish_model_request, charge_candidates, charge_tool, ensure,
}
use revoot.Agent.Budget.Bounds.{
  IsWithin, limits-new, new-IsWithin, in_flight-new, begin_model_request-IsWithin,
  finish_model_request-IsWithin, charge_tool-IsWithin, charge_candidates-IsWithin,
}
use revoot.Agent.Invocation
use revoot.Agent.Invocation.{ReviewInvocation, ReviewInvocationError}
use revoot.Agent.Outcome.{
  AgentState, invalid_invocation, budget_error, ready, turn_in_flight, finished, AgentTurn,
  AgentTurnPurpose, CandidateAdmission, ReviewOutcome, AgentOmission,
}
use revoot.Agent.Run.{
  AgentRun, start, new, begin_turn, finish_turn, submit_candidate, finish, terminal, count_u32,
}

-- The state and the ledger agree on the open request. A run that has ended may leave one open.
abbrev pub InSync : AgentState → Option InFlightModelRequest → Type 0
InSync ready none = Unit
InSync ready (some request) = ⊥
InSync (turn_in_flight t) none = ⊥
InSync (turn_in_flight t) (some request) = request.id ≡ t
InSync finished o = Unit

abbrev pub total_findings : List FindingsEnvelope → ℕ
total_findings [] = 0
total_findings (e ∷ es) = length e.findings + total_findings es

-- The work unit of none of the envelopes.
abbrev pub IsNew : Str → List FindingsEnvelope → Type 0
IsNew id es = any (λ e. str_eq e.work_unit_id id) es ≡ false

-- Each envelope is valid, of an authorised work unit, and the only one of that unit.
abbrev pub AllAdmissible : List Str → List FindingsEnvelope → Type 0
AllAdmissible units [] = Unit
AllAdmissible units (e ∷ es) =
    (Findings.validate e ≡ ok tt)
    × (any (λ id. str_eq id e.work_unit_id) units ≡ true)
    × IsNew e.work_unit_id es
    × AllAdmissible units es

pub record IsSound (r : AgentRun) : Type 0 where
  pub range : InRange r.budget.limits
  pub within : IsWithin r.budget
  pub in_sync : InSync r.state r.budget.in_flight
  pub admissible : AllAdmissible r.invocation.work_unit_ids r.accepted_candidates
  pub counted : total_findings r.accepted_candidates ≤ r.budget.usage.candidate_findings

any-append_one :
    (p : FindingsEnvelope → Bool) (es : List FindingsEnvelope) (c : FindingsEnvelope)
    → any p es ≡ false
    → p c ≡ false
    → any p (es ++ c ∷ []) ≡ false
any-append_one p [] c h k = ground arith
any-append_one p (e ∷ es) c h k = ground (arith, any-append_one p es c)

AllAdmissible-append_one :
    (units : List Str) (es : List FindingsEnvelope) (c : FindingsEnvelope)
    → AllAdmissible units es
    → Findings.validate c ≡ ok tt
    → any (λ id. str_eq id c.work_unit_id) units ≡ true
    → IsNew c.work_unit_id es
    → AllAdmissible units (es ++ c ∷ [])
AllAdmissible-append_one units [] c all valid known first = (valid, known, refl, tt)
AllAdmissible-append_one units (e ∷ es) c all valid known first = (
  all.0,
  all.1,
  any-append_one (λ f. str_eq f.work_unit_id e.work_unit_id) es c all.2
      (ground (
        arith,
        first,
        str_eq_iff c.work_unit_id e.work_unit_id,
        str_eq_iff e.work_unit_id c.work_unit_id,
      )),
  AllAdmissible-append_one units es c all.3 valid known (ground (arith, first)),
)

total_findings-append_one :
    (es : List FindingsEnvelope) (c : FindingsEnvelope)
    → total_findings (es ++ c ∷ []) ≡ total_findings es + length c.findings
total_findings-append_one [] c = omega arith
total_findings-append_one (e ∷ es) c = omega (arith, total_findings-append_one es c)

started :
    (i : ReviewInvocation) (c : CancellationToken) (v : Result ReviewInvocationError (Unit {0}))
    (m : Result AgentBudgetError AgentBudget) {r : AgentRun}
    → and_then
        (map_err invalid_invocation v)
        (λ _. and_then (map_err budget_error m) (λ b. ok (start i c b)))
      ≡ ok r
    → (b : AgentBudget) × (m ≡ ok b) × (r ≡ start i c b)
started i c (ok u) (ok b) h = (b, refl, cc)
started i c (ok u) (err e) h = cc
started i c (err e) m h = cc

pub new-IsSound :
    (i : ReviewInvocation) (c : CancellationToken) (t : ℕ) {r : AgentRun}
    → InRange i.limits
    → new i c t ≡ ok r
    → IsSound r
unfolding new
new-IsSound i c t range made =
    let (b, opened, e) = started i c (Invocation.validate i) (Budget.new i.limits t) made in
    ground (
      arith,
      e,
      limits-new i.limits t opened,
      new-IsWithin i.limits t opened,
      in_flight-new i.limits t opened,
    )

pub validate-length :
    (c : FindingsEnvelope) → Findings.validate c ≡ ok tt → length c.findings ≤ max_findings
unfolding Findings.validate
validate-length c h = ground arith

module _ (r : AgentRun) (sound : IsSound r) where
  pub begin_turn-IsSound :
      (p : AgentTurnPurpose) (v : ModelRequestReservation) (now : ℕ)
      → IsSound (begin_turn p v now r).1
  unfolding begin_turn begin_model_request
  begin_turn-IsSound p v now =
      ground (arith, begin_model_request-IsWithin r.budget sound.range sound.within v now)

  pub finish_turn-IsSound :
      (turn : AgentTurn) (used : ModelRequestUsage) (now : ℕ)
      → IsSound (finish_turn turn used now r).1
  unfolding finish_turn finish_model_request
  finish_turn-IsSound turn used now = ground (
    arith,
    finish_model_request-IsWithin r.budget sound.range sound.within turn.request_id used now,
  )

  pub charge_tool-IsSound :
      (calls files bytes now : ℕ)
      → IsSound (record r { budget = (charge_tool calls files bytes now r.budget).1 })
  unfolding charge_tool
  charge_tool-IsSound calls files bytes now =
      ground (arith, charge_tool-IsWithin r.budget sound.range sound.within calls files bytes now)

  pub finish-IsSound : (s : Str) (os : List AgentOmission) → IsSound (finish s os r).1
  unfolding finish
  finish-IsSound s os = ground arith

  pub terminal-IsSound : (build : AgentBudgetUsage → ReviewOutcome) → IsSound (terminal build r).1
  unfolding terminal
  terminal-IsSound build = ground arith

  pub submit_candidate-IsSound :
      (c : FindingsEnvelope) (hook : FindingsEnvelope → CandidateAdmission)
      → IsSound (submit_candidate c hook r).1
  unfolding submit_candidate charge_candidates ensure
  submit_candidate-IsSound c hook = ground (
    arith,
    AllAdmissible-append_one r.invocation.work_unit_ids r.accepted_candidates c,
    total_findings-append_one r.accepted_candidates c,
    validate-length c,
    charge_candidates-IsWithin r.budget sound.range sound.within (count_u32 (length c.findings)),
  )

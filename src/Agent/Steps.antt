-- ===== src/Agent/Steps.antt =====
-- crates/revoot-core/src/agent.rs: reviews as sequences of calls, by the engine and by others.
-- `tool` is a repository tool's charge through `budget_mut`; `cancel` is another holder of the
-- shared token.
use revoot.Prelude.{ℕ, ◌≡◌, Bool, Option, List, arith, Exec, if◌then◌else◌, ok, err}
use revoot.Text.{Str}
use revoot.Findings.{FindingsEnvelope}
use revoot.Provider
use revoot.Provider.{
  CancellationToken, ModelRequest, ModelResponse, ProviderCancellationReason, is_cancelled,
}
use revoot.Agent.Limits.{InRange}
use revoot.Agent.Budget.{ModelRequestReservation, ModelRequestUsage, charge_tool}
use revoot.Agent.Invocation.{ReviewInvocation}
use revoot.Agent.Outcome.{
  AgentTurn, AgentTurnPurpose, AgentRunError, not_active, run_cancelled, AgentOmission,
  CandidateAdmission, ReviewOutcome, ReviewBlockReason, ReviewFailureReason,
}
use revoot.Agent.Run.{
  AgentRun, new, begin_turn, finish_turn, submit_candidate, finish, end_stale, end_blocked,
  end_failed, end_cancelled,
}
use revoot.Agent.Run.Invariant.{
  IsSound, new-IsSound, begin_turn-IsSound, finish_turn-IsSound, submit_candidate-IsSound,
  finish-IsSound, terminal-IsSound, charge_tool-IsSound,
}
use revoot.Agent.Turn.{ProviderAdapter, complete_provider_turn}
use revoot.Agent.Turn.Soundness.{complete_provider_turn-IsSound}

-- The call fails and changes nothing.
abbrev pub Refuses {ℓ κ} : {E : Type ℓ} {A : Type κ} → Exec AgentRun E A → AgentRun → Type (ℓ ⊔ κ)
Refuses {E} m s = (e : E) × (m s ≡ (err e, s))

refusal : AgentRun → AgentRunError
refusal s = if is_cancelled s.cancellation then run_cancelled else not_active

module _ {Json : Type 0} (is_object : Json → Bool) (to_vec_len : Json → Option ℕ) where
  pub data Step (r : AgentRun) : AgentRun → Type 0 where
    begin :
        (p : AgentTurnPurpose) (v : ModelRequestReservation) (now : ℕ)
        → Step r (begin_turn p v now r).1
    settle : (t : AgentTurn) (u : ModelRequestUsage) (now : ℕ) → Step r (finish_turn t u now r).1
    turn :
        (a : ProviderAdapter Json) (q : ModelRequest Json) (p : AgentTurnPurpose)
        (v : ModelRequestReservation) (began settled : ℕ)
        → Step r (complete_provider_turn is_object to_vec_len a q p v began settled r).1
    submit :
        (c : FindingsEnvelope) (hook : FindingsEnvelope → CandidateAdmission)
        → Step r (submit_candidate c hook r).1
    close : (s : Str) (os : List AgentOmission) → Step r (finish s os r).1
    stale : Step r (end_stale r).1
    block : (b : ReviewBlockReason) → Step r (end_blocked b r).1
    fail : (f : ReviewFailureReason) → Step r (end_failed f r).1
    cancelled : Step r (end_cancelled r).1
    tool :
        (calls files bytes now : ℕ)
        → Step r (record r { budget = (charge_tool calls files bytes now r.budget).1 })
    cancel :
        (c : ProviderCancellationReason)
        → Step r (record r { cancellation = Provider.cancel c r.cancellation })

  pub data Reach (r : AgentRun) : AgentRun → Type 0 where
    here : Reach r r
    next : {s t : AgentRun} → Reach r s → Step s t → Reach r t

  Step-IsSound : {r s : AgentRun} → IsSound r → Step r s → IsSound s
  unfolding end_stale end_blocked end_failed end_cancelled
  Step-IsSound {r} h (begin p v now) = begin_turn-IsSound r h p v now
  Step-IsSound {r} h (settle t u now) = finish_turn-IsSound r h t u now
  Step-IsSound {r} h (turn a q p v began settled) =
      complete_provider_turn-IsSound is_object to_vec_len a q p v began settled r h
  Step-IsSound {r} h (submit c hook) = submit_candidate-IsSound r h c hook
  Step-IsSound {r} h (close s os) = finish-IsSound r h s os
  Step-IsSound {r} h stale = terminal-IsSound r h ReviewOutcome.stale
  Step-IsSound {r} h (block b) = terminal-IsSound r h (ReviewOutcome.blocked b)
  Step-IsSound {r} h (fail f) = terminal-IsSound r h (ReviewOutcome.failed f)
  Step-IsSound {r} h cancelled = ground (arith, terminal-IsSound r h ReviewOutcome.cancelled)
  Step-IsSound {r} h (tool calls files bytes now) = charge_tool-IsSound r h calls files bytes now
  Step-IsSound {r} h (cancel c) = ground arith

  pub Reach-IsSound : {r s : AgentRun} → IsSound r → Reach r s → IsSound s
  Reach-IsSound h here = h
  Reach-IsSound h (next w st) = Step-IsSound (Reach-IsSound h w) st

  -- Whatever calls are made on a new review whose limits fit their machine widths, by the
  -- engine, by tools and by whoever cancels, its ledger stays within the limits, its state and
  -- ledger agree on the open request, and its accepted envelopes are valid, authorised, one to
  -- a work unit and counted.
  pub new-Reach-IsSound :
      (i : ReviewInvocation) (c : CancellationToken) (t : ℕ) {r s : AgentRun}
      → InRange i.limits
      → new i c t ≡ ok r
      → Reach r s
      → IsSound s
  new-Reach-IsSound i c t range made w = Reach-IsSound (new-IsSound i c t range made) w

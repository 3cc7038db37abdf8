-- ===== src/Agent/Turn.antt =====
-- crates/revoot-core/src/agent.rs: `complete_provider_turn`, one model turn through an adapter.
-- The adapter is not part of the crate: it is an argument, whose call may take long enough for
-- others to cancel the review, so it returns the shared token too. The clock is read when the turn
-- begins (`began`) and when it is settled (`settled`).
pub mod Soundness
pub mod Outcomes
use revoot.Prelude.{
  ℕ, ◌+◌, ◌≤◌, ◌<◌, ◌-◌, ◌≡◌, refl, Bool, not, Option, none, some, arith, Result, ok, err,
  reject_if, map_err, Exec, pure, lift, get, if◌then◌else◌, ◌>>=◌, ◌>>◌,
}
use revoot.Text.{Str, str_eq}
use revoot.Provider
use revoot.Provider.{
  CancellationToken, ModelRequest, ModelRequestError, ModelResponse, ProviderError,
}
use revoot.Agent.Budget.{ModelRequestReservation, ModelRequestUsage, abandon_model_request}
use revoot.Agent.Outcome.{AgentTurn, AgentTurnPurpose, AgentRunError, budget_error, ready}
use revoot.Agent.Run.{AgentRun, Agent, on_budget, set_state, begin_turn, finish_turn}

pub data AgentProviderTurnError : Type 0 where
  agent : AgentRunError → AgentProviderTurnError
  invalid_request : ModelRequestError → AgentProviderTurnError
  adapter_mismatch model_mismatch : AgentProviderTurnError
  provider : ProviderError → AgentProviderTurnError

pub record ProviderAdapter (Json : Type 0) : Type 0 where
  pub adapter_id : Str
  pub complete :
      ModelRequest Json
      → CancellationToken
      → Result ProviderError (ModelResponse Json) × CancellationToken

abbrev pub Turn : Type 0 → Type 0
Turn A = Exec AgentRun AgentProviderTurnError A

-- An agent call, with its error wrapped.
abbrev pub on_agent : {A : Type 0} → Agent A → Turn A
on_agent m r = let (result, r') = m r in (map_err agent result, r')

-- `adapter.complete(request, &self.cancellation).await`
abbrev pub await :
    {Json : Type 0}
    → ProviderAdapter Json
    → ModelRequest Json
    → Turn (Result ProviderError (ModelResponse Json))
await adapter request r =
    let (result, token) = adapter.complete request r.cancellation in
    (ok result, record r { cancellation = token })

-- Both failing branches: the request is abandoned, the run made ready, and the error returned.
unfoldable pub give_up :
    {Json : Type 0} → AgentTurn → ℕ → AgentProviderTurnError → Turn (ModelResponse Json)
give_up turn settled error = do
  on_budget (λ e. agent (budget_error e)) (abandon_model_request turn.request_id settled)
  set_state ready
  lift (err error)

abbrev pub actual_usage :
    {Json : Type 0} → ModelResponse Json → ModelRequestReservation → ModelRequestUsage
actual_usage response reservation = record {
  input_tokens = response.usage.input_tokens;
  output_tokens = response.usage.output_tokens;
  cost_microusd = reservation.cost_microusd;
}

-- what follows the adapter's answer
unfoldable pub settle_turn :
    {Json : Type 0}
    → AgentTurn
    → ModelRequestReservation
    → ℕ
    → Result ProviderError (ModelResponse Json)
    → Turn (ModelResponse Json)
unfolding give_up
settle_turn turn reservation settled (err error) = give_up turn settled (provider error)
settle_turn turn reservation settled (ok response) = do
  r ← get
  if not (str_eq response.model r.invocation.model_id)
      then give_up turn settled model_mismatch
      else (do
        on_agent (finish_turn turn (actual_usage response reservation) settled)
        pure response)

-- what follows the beginning of the turn
unfoldable pub ask :
    {Json : Type 0}
    → ProviderAdapter Json
    → ModelRequest Json
    → ModelRequestReservation
    → ℕ
    → AgentTurn
    → Turn (ModelResponse Json)
ask adapter request reservation settled turn = do
  answer ← await adapter request
  settle_turn turn reservation settled answer

module _ {Json : Type 0} (is_object : Json → Bool) (to_vec_len : Json → Option ℕ) where
  unfoldable pub complete_provider_turn :
      ProviderAdapter Json
      → ModelRequest Json
      → AgentTurnPurpose
      → ModelRequestReservation
      → ℕ
      → ℕ
      → Turn (ModelResponse Json)
  complete_provider_turn adapter request purpose reservation began settled = do
    lift (map_err invalid_request (Provider.validate is_object to_vec_len request))
    r ← get
    lift
        (reject_if (not (str_eq adapter.adapter_id r.invocation.provider_adapter)) adapter_mismatch)
    lift (reject_if (not (str_eq request.model r.invocation.model_id)) model_mismatch)
    turn ← on_agent (begin_turn purpose reservation began)
    ask adapter request reservation settled turn

-- ===== src/Agent/Turn/Outcomes.antt =====
-- crates/revoot-core/src/agent.rs: how a provider turn ends.
use revoot.Prelude.{
  ℕ, ◌+◌, ◌-◌, ◌≤◌, ◌<◌, ◌≡◌, Bool, true, false, Option, none, some, arith, ok, err,
}
use revoot.Text.{str_eq}
use revoot.Provider
use revoot.Provider.{CancellationToken, ModelRequest, ModelResponse, ProviderError, is_cancelled}
use revoot.Agent.Budget.{
  ModelRequestReservation, abandon_model_request, finish_model_request, begin_model_request,
  exhausted, elapsed_time,
}
use revoot.Agent.Budget.Outcomes.{IsOnTime}
use revoot.Agent.Outcome.{AgentTurn, AgentTurnPurpose, budget_error, ready, turn_in_flight}
use revoot.Agent.Run.{AgentRun, begin_turn, finish_turn}
use revoot.Agent.Run.Invariant.{IsSound, begin_turn-IsSound}
use revoot.Agent.Turn.{agent, provider, ProviderAdapter, settle_turn, ask, complete_provider_turn}

-- The turn as far as the call of the adapter: its checks pass and it begins.
pub record Begins {Json : Type 0} (is_object : Json → Bool) (to_vec_len : Json → Option ℕ)
    (a : ProviderAdapter Json) (q : ModelRequest Json) (p : AgentTurnPurpose)
    (v : ModelRequestReservation) (began : ℕ) (r : AgentRun) (t : AgentTurn) (r' : AgentRun)
    : Type 0 where
  pub valid : Provider.validate is_object to_vec_len q ≡ ok tt
  pub adapter : str_eq a.adapter_id r.invocation.provider_adapter ≡ true
  pub model : str_eq q.model r.invocation.model_id ≡ true
  pub begun : begin_turn p v began r ≡ (ok t, r')

module _ {Json : Type 0} (is_object : Json → Bool) (to_vec_len : Json → Option ℕ)
    (a : ProviderAdapter Json) (q : ModelRequest Json) (p : AgentTurnPurpose)
    (v : ModelRequestReservation) (began settled : ℕ) (r : AgentRun) (t : AgentTurn) (r' : AgentRun)
    (sound : IsSound r) (begins : Begins is_object to_vec_len a q p v began r t r') where
  complete-eq-ask :
      complete_provider_turn is_object to_vec_len a q p v began settled r ≡ ask a q v settled t r'
  unfolding complete_provider_turn
  complete-eq-ask = ground arith

  begun-IsSound : IsSound r'
  begun-IsSound = let h = begin_turn-IsSound r sound p v began in ground arith

  opened :
      (r'.state ≡ turn_in_flight t.turn_id)
      × (t.turn_id ≡ t.request_id)
      × (r'.budget.in_flight ≡ some (record { id = t.request_id; reservation = v }))
      × (r'.invocation ≡ r.invocation)
  unfolding begin_turn begin_model_request
  opened = ground arith

  -- In a sound run whose turn has begun: if the provider fails and there is time left, the turn
  -- returns the provider's error, the run is ready again with no open request, and the whole
  -- reservation is charged.
  pub failed_turn :
      (e : ProviderError) (token : CancellationToken)
      → a.complete q r'.cancellation ≡ (err e, token)
      → IsOnTime settled r'.budget
      → let (result, r'') = complete_provider_turn is_object to_vec_len a q p v began settled r in
        (result ≡ err (provider e))
        × (r''.state ≡ ready)
        × (r''.budget.in_flight ≡ none)
        × (r''.budget.usage.input_tokens ≡ r'.budget.usage.input_tokens + v.input_tokens)
        × (r''.budget.usage.output_tokens ≡ r'.budget.usage.output_tokens + v.output_tokens)
        × (r''.budget.usage.cost_microusd ≡ r'.budget.usage.cost_microusd + v.cost_microusd)
  unfolding ask settle_turn abandon_model_request
  failed_turn e token answer on_time =
      rw complete-eq-ask (ground (arith, answer, opened, begun-IsSound))

  -- In a sound run whose turn has begun: if the provider fails and the time limit has passed
  -- when the turn is settled, the budget's error is returned in place of the provider's,
  -- nothing is charged, and the run is left with its turn in flight.
  pub late_failed_turn :
      (e : ProviderError) (token : CancellationToken)
      → a.complete q r'.cancellation ≡ (err e, token)
      → r'.budget.last_observed_millis ≤ settled
      → r'.budget.limits.max_elapsed_millis < settled - r'.budget.started_at_millis
      → complete_provider_turn is_object to_vec_len a q p v began settled r ≡ (
        err (agent (budget_error (exhausted elapsed_time))),
        record r' { cancellation = token; state = turn_in_flight t.turn_id },
      )
  unfolding ask settle_turn abandon_model_request
  late_failed_turn e token answer forward late = rw complete-eq-ask (ground (arith, answer, opened))

  -- In a sound run whose turn has begun: if the provider answers in time, for the model asked
  -- for, within the reservation and with no one having cancelled, the turn returns the answer,
  -- the run is ready again, and the reported tokens are charged, with the whole reserved cost.
  pub answered_turn :
      (response : ModelResponse Json) (token : CancellationToken)
      → a.complete q r'.cancellation ≡ (ok response, token)
      → str_eq response.model r.invocation.model_id ≡ true
      → is_cancelled token ≡ false
      → response.usage.input_tokens ≤ v.input_tokens
      → response.usage.output_tokens ≤ v.output_tokens
      → IsOnTime settled r'.budget
      → let (result, r'') = complete_provider_turn is_object to_vec_len a q p v began settled r in
        let spent = r'.budget.usage in
        (result ≡ ok response)
        × (r''.state ≡ ready)
        × (r''.budget.in_flight ≡ none)
        × (r''.budget.usage.input_tokens ≡ spent.input_tokens + response.usage.input_tokens)
        × (r''.budget.usage.output_tokens ≡ spent.output_tokens + response.usage.output_tokens)
        × (r''.budget.usage.cost_microusd ≡ spent.cost_microusd + v.cost_microusd)
  unfolding ask settle_turn finish_turn finish_model_request
  answered_turn response token answer model going fits_in fits_out on_time =
      rw complete-eq-ask (ground (arith, answer, opened, begun-IsSound))

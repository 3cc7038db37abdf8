-- ===== src/Agent/Turn/Soundness.antt =====
-- crates/revoot-core/src/agent.rs: what holds of a review, through a provider turn.
use revoot.Prelude.{ℕ, Bool, Option, arith, Result, ok, err, map_err, resume}
use revoot.Provider.{ModelRequest, ModelResponse, ProviderError}
use revoot.Agent.Budget.{ModelRequestReservation, abandon_model_request}
use revoot.Agent.Budget.Bounds.{abandon_model_request-IsWithin}
use revoot.Agent.Outcome.{AgentTurn, AgentTurnPurpose, AgentRunError}
use revoot.Agent.Run.{AgentRun, begin_turn}
use revoot.Agent.Run.Invariant.{IsSound, begin_turn-IsSound, finish_turn-IsSound}
use revoot.Agent.Turn.{
  provider, model_mismatch, AgentProviderTurnError, agent, ProviderAdapter, give_up, actual_usage,
  settle_turn, ask, complete_provider_turn,
}

module _ (Json : Type 0) (turn : AgentTurn) (settled : ℕ) (r : AgentRun) (sound : IsSound r) where
  give_up-IsSound :
      (e : AgentProviderTurnError) → IsSound (give_up {Json = Json} turn settled e r).1
  unfolding give_up abandon_model_request
  give_up-IsSound e = ground (
    arith,
    abandon_model_request-IsWithin r.budget sound.range sound.within turn.request_id settled,
  )

  settle_turn-IsSound :
      (v : ModelRequestReservation) (answer : Result ProviderError (ModelResponse Json))
      → IsSound (settle_turn turn v settled answer r).1
  unfolding settle_turn
  settle_turn-IsSound v (err e) = unfold settle_turn in give_up-IsSound (provider e)
  settle_turn-IsSound v (ok response) = ground (
    arith,
    give_up-IsSound model_mismatch,
    finish_turn-IsSound r sound turn (actual_usage response v) settled,
  )

ask-IsSound :
    {Json : Type 0} (adapter : ProviderAdapter Json) (request : ModelRequest Json)
    (v : ModelRequestReservation) (settled : ℕ) (turn : AgentTurn) (r : AgentRun)
    → IsSound r
    → IsSound (ask adapter request v settled turn r).1
unfolding ask
ask-IsSound {Json} adapter request v settled turn r sound =
    let (answer, token) = adapter.complete request r.cancellation in
    settle_turn-IsSound Json turn settled (record r { cancellation = token })
      (record {
        range = sound.range;
        within = sound.within;
        in_sync = sound.in_sync;
        admissible = sound.admissible;
        counted = sound.counted;
      })
      v answer

begun-IsSound :
    {Json : Type 0} (adapter : ProviderAdapter Json) (request : ModelRequest Json)
    (v : ModelRequestReservation) (settled : ℕ) (begun : Result AgentRunError AgentTurn)
    (r : AgentRun)
    → IsSound r
    → IsSound (resume (map_err agent begun) (ask adapter request v settled) r).1
begun-IsSound adapter request v settled (ok turn) r sound =
    ask-IsSound adapter request v settled turn r sound
begun-IsSound adapter request v settled (err e) r sound = sound

module _ {Json : Type 0} (is_object : Json → Bool) (to_vec_len : Json → Option ℕ) where
  pub complete_provider_turn-IsSound :
      (adapter : ProviderAdapter Json) (request : ModelRequest Json) (purpose : AgentTurnPurpose)
      (v : ModelRequestReservation) (began settled : ℕ) (r : AgentRun)
      → IsSound r
      → IsSound
          (complete_provider_turn is_object to_vec_len adapter request purpose v began settled r).1
  unfolding complete_provider_turn
  complete_provider_turn-IsSound adapter request purpose v began settled r sound =
      let (begun, r') = begin_turn purpose v began r in
      ground (
        arith,
        begun-IsSound adapter request v settled begun r'
            (begin_turn-IsSound r sound purpose v began),
      )

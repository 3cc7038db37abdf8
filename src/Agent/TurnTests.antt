-- ===== src/Agent/TurnTests.antt =====
-- A provider turn: the theorems at concrete answers.
use revoot.Prelude.{ℕ, ◌+◌, ◌≡◌, refl, none, some, arith, true, false, Result, ok, err}
use revoot.Text.{lit, str_eq}
use revoot.Provider
use revoot.Provider.{
  CancellationToken, new_token, is_cancelled, ModelRequest, ModelResponse, ProviderError, user,
  text, stop, timeout, validate_messages, validate_tools, bounded_label, bounded_text, shutdown,
}
use revoot.Agent.Limits.{no_usage}
use revoot.Agent.Budget.{begin_model_request, admit_request, ensure, exhausted, elapsed_time}
use revoot.Agent.Outcome.{AgentTurn, initial_review, budget_error, ready, turn_in_flight}
use revoot.Agent.Run.{AgentRun, begin_turn}
use revoot.Agent.Turn.{ProviderAdapter, agent, provider, complete_provider_turn}
use revoot.Agent.Turn.Outcomes.{Begins, failed_turn, late_failed_turn, answered_turn}
use revoot.Agent.Samples.{question, answer, answering, run, run-IsSound, is_object, small, budget}

abbrev failure : ProviderError
failure = record { kind = timeout; status_code = none; retryable = true }

abbrev failing : ProviderAdapter ℕ
failing = record { adapter_id = lit "anthropic"; complete = λ q t. (err failure, t) }

abbrev first_turn : AgentTurn
first_turn = record { turn_id = 1; request_id = 1; purpose = initial_review }

abbrev begun_run : AgentRun
begun_run = record run {
  budget = record budget {
    usage = record no_usage { turns = 1; model_requests = 1; elapsed_millis = 2 };
    last_observed_millis = 7;
    in_flight = some (record { id = 1; reservation = small });
  };
  state = turn_in_flight 1;
}

begins :
    (call : ModelRequest ℕ
      → CancellationToken
      → Result ProviderError (ModelResponse ℕ) × CancellationToken)
    → Begins is_object some
        (record { adapter_id = lit "anthropic"; complete = call })
        question
        initial_review
        small
        7
        run
        first_turn
        begun_run
unfolding Provider.validate validate_messages validate_tools bounded_label bounded_text str_eq
    begin_turn begin_model_request admit_request ensure is_cancelled
begins call = record { valid = refl; adapter = refl; model = refl; begun = refl }

names_agree : str_eq (lit "m-1") (lit "m-1") ≡ true
unfolding str_eq
names_agree = refl

not_cancelled : is_cancelled new_token ≡ false
unfolding is_cancelled
not_cancelled = refl

answered_turn_example :
    let (result, r'') =
      complete_provider_turn is_object some answering question initial_review small 7 9 run in
    let spent = begun_run.budget.usage in
    (result ≡ ok answer)
    × (r''.state ≡ ready)
    × (r''.budget.in_flight ≡ none)
    × (r''.budget.usage.input_tokens ≡ spent.input_tokens + answer.usage.input_tokens)
    × (r''.budget.usage.output_tokens ≡ spent.output_tokens + answer.usage.output_tokens)
    × (r''.budget.usage.cost_microusd ≡ spent.cost_microusd + small.cost_microusd)
answered_turn_example =
    answered_turn is_object some answering question initial_review small 7 9 run first_turn
      begun_run run-IsSound (begins answering.complete) answer new_token refl names_agree
      not_cancelled (omega arith) (omega arith) (omega arith)

failed_turn_example :
    let (result, r'') =
      complete_provider_turn is_object some failing question initial_review small 7 9 run in
    (result ≡ err (provider failure))
    × (r''.state ≡ ready)
    × (r''.budget.in_flight ≡ none)
    × (r''.budget.usage.input_tokens ≡ begun_run.budget.usage.input_tokens + small.input_tokens)
    × (r''.budget.usage.output_tokens ≡ begun_run.budget.usage.output_tokens + small.output_tokens)
    × (r''.budget.usage.cost_microusd ≡ begun_run.budget.usage.cost_microusd + small.cost_microusd)
failed_turn_example =
    failed_turn is_object some failing question initial_review small 7 9 run first_turn begun_run
      run-IsSound (begins failing.complete) failure new_token refl (omega arith)

late_failed_turn_example :
    complete_provider_turn is_object some failing question initial_review small 7 900_006 run ≡ (
      err (agent (budget_error (exhausted elapsed_time))),
      record begun_run { cancellation = new_token; state = turn_in_flight 1 },
    )
late_failed_turn_example =
    late_failed_turn is_object some failing question initial_review small 7 900_006 run first_turn
      begun_run run-IsSound (begins failing.complete) failure new_token refl (omega arith)
      (omega arith)

-- ===== src/Agent/Budget/Outcomes.antt =====
-- crates/revoot-core/src/agent.rs: when the ledger's calls succeed, and what each then changes.
use revoot.Prelude.{ℕ, ◌+◌, ◌-◌, ◌≤◌, ◌<◌, ◌≡◌, ◌⊎◌, ◌↔◌, Option, none, some, arith, ok, err, ◌≢◌}
use revoot.Agent.Limits.{InRange}
use revoot.Agent.Budget.{
  AgentBudget, exhausted, elapsed_time, ModelRequestReservation, ModelRequestUsage,
  InFlightModelRequest, ensure, observe_time, begin_model_request, finish_model_request,
  abandon_model_request, charge_tool,
}
use revoot.Agent.Budget.Checks.{Fits, admit_request-ok_iff}
use revoot.Agent.Budget.Bounds.{IsWithin}

-- The clock did not go back, and the review has time left.
pub record IsOnTime (now : ℕ) (b : AgentBudget) : Type 0 where
  pub forward : b.last_observed_millis ≤ now
  pub in_time : now - b.started_at_millis ≤ b.limits.max_elapsed_millis

abbrev pub IsOpen : ℕ → Option InFlightModelRequest → Type 0
IsOpen id none = ⊥
IsOpen id (some request) = request.id ≡ id

-- Equal but for the clock.
abbrev pub SameButTime : AgentBudget → AgentBudget → Type 0
SameButTime b c = c ≡ record b {
  last_observed_millis = c.last_observed_millis;
  usage = record b.usage { elapsed_millis = c.usage.elapsed_millis };
}

module _ (b : AgentBudget) (range : InRange b.limits) (within : IsWithin b) where
  -- In a ledger within its limits, a request is opened exactly when the clock allows it and the
  -- reservation fits; its id is then the next number.
  pub begin_model_request-ok_iff :
      (r : ModelRequestReservation) (now id : ℕ)
      → ((begin_model_request r now b).0 ≡ ok id)
        ↔ (IsOnTime now b × Fits r b × (id ≡ b.usage.model_requests + 1))
  unfolding begin_model_request
  begin_model_request-ok_iff r now id = (
    λ h. ground (arith, admit_request-ok_iff r (observe_time now b).1),
    λ h. ground (arith, admit_request-ok_iff r (observe_time now b).1),
  )

  -- In a ledger within its limits, a successful request adds one to the turns and to the
  -- requests, sets the time used, charges nothing else, and is the one in flight.
  pub begin_model_request-opens :
      (r : ModelRequestReservation) (now : ℕ) {id : ℕ} {c : AgentBudget}
      → begin_model_request r now b ≡ (ok id, c)
      → c ≡ record b {
        last_observed_millis = now;
        in_flight = some (record { id = id; reservation = r });
        usage = record b.usage {
          turns = b.usage.turns + 1;
          model_requests = b.usage.model_requests + 1;
          elapsed_millis = now - b.started_at_millis;
        };
      }
  unfolding begin_model_request
  begin_model_request-opens r now h = ground (arith, admit_request-ok_iff r (observe_time now b).1)

  -- In a ledger within its limits, abandoning a request succeeds exactly when the clock allows
  -- it and that request is open.
  pub abandon_model_request-ok_iff :
      (id now : ℕ)
      → ((abandon_model_request id now b).0 ≡ ok tt) ↔ (IsOnTime now b × IsOpen id b.in_flight)
  unfolding abandon_model_request
  abandon_model_request-ok_iff id now = (λ h. ground arith, λ h. ground arith)

  -- In a ledger within its limits, where a request can be settled with the use that a provider
  -- reports, abandoning it instead succeeds and charges at least as much in every dimension.
  pub finish-le-abandon :
      (id now : ℕ) (used : ModelRequestUsage)
      → (finish_model_request id used now b).0 ≡ ok tt
      → let f = (finish_model_request id used now b).1.usage in
        let a = (abandon_model_request id now b).1.usage in
        ((abandon_model_request id now b).0 ≡ ok tt)
        × (f.input_tokens ≤ a.input_tokens)
        × (f.output_tokens ≤ a.output_tokens)
        × (f.cost_microusd ≤ a.cost_microusd)
  unfolding finish_model_request abandon_model_request
  finish-le-abandon id now used h = ground arith

  -- In a ledger within its limits, a settled request is charged what the provider reported, in
  -- full, and is no longer in flight.
  pub finish_model_request-charges :
      (id now : ℕ) (used : ModelRequestUsage) {c : AgentBudget}
      → finish_model_request id used now b ≡ (ok tt, c)
      → c ≡ record b {
        last_observed_millis = now;
        in_flight = none;
        usage = record b.usage {
          input_tokens = b.usage.input_tokens + used.input_tokens;
          output_tokens = b.usage.output_tokens + used.output_tokens;
          cost_microusd = b.usage.cost_microusd + used.cost_microusd;
          elapsed_millis = now - b.started_at_millis;
        };
      }
  unfolding finish_model_request
  finish_model_request-charges id now used h = ground arith

  -- In a ledger within its limits, a tool result is charged exactly when the clock allows it
  -- and all three counters have room.
  pub charge_tool-ok_iff :
      (calls files bytes now : ℕ)
      → ((charge_tool calls files bytes now b).0 ≡ ok tt) ↔ (
          IsOnTime now b
          × (b.usage.tool_calls + calls ≤ b.limits.max_tool_calls)
          × (b.usage.repository_files + files ≤ b.limits.max_repository_files)
          × (b.usage.repository_bytes + bytes ≤ b.limits.max_repository_bytes))
  unfolding charge_tool ensure
  charge_tool-ok_iff calls files bytes now = (λ h. ground arith, λ h. ground arith)

  -- In a ledger within its limits, a charge for a tool is all or nothing: on success it adds to
  -- the three counters, and on an error it leaves every counter but the time.
  pub charge_tool_atomic :
      (calls files bytes now : ℕ)
      → let c = (charge_tool calls files bytes now b).1 in
        (((charge_tool calls files bytes now b).0 ≡ ok tt)
          × (c ≡ record b {
            last_observed_millis = now;
            usage = record b.usage {
              tool_calls = b.usage.tool_calls + calls;
              repository_files = b.usage.repository_files + files;
              repository_bytes = b.usage.repository_bytes + bytes;
              elapsed_millis = now - b.started_at_millis;
            };
          }))
        ⊎ (((charge_tool calls files bytes now b).0 ≢ ok tt) × SameButTime b c)
  unfolding charge_tool ensure
  charge_tool_atomic calls files bytes now = ground arith

-- Once the clock shows more than the time limit, and has not gone back, every timed call fails
-- and leaves the ledger as it is; so a request that is open then stays open.
pub expired_frozen :
    (b : AgentBudget) (now : ℕ)
    → b.limits.max_elapsed_millis < now - b.started_at_millis
    → b.last_observed_millis ≤ now
    → (r : ModelRequestReservation) (used : ModelRequestUsage) (id calls files bytes : ℕ)
    → (begin_model_request r now b ≡ (err (exhausted elapsed_time), b))
      × (finish_model_request id used now b ≡ (err (exhausted elapsed_time), b))
      × (abandon_model_request id now b ≡ (err (exhausted elapsed_time), b))
      × (charge_tool calls files bytes now b ≡ (err (exhausted elapsed_time), b))
unfolding begin_model_request finish_model_request abandon_model_request charge_tool
expired_frozen b now late forward r used id calls files bytes = ground arith

-- ===== src/Agent/Budget/Tests.antt =====
-- The ledger: its theorems at concrete calls.
use revoot.Prelude.{
  ℕ, ◌+◌, ◌-◌, ◌≤◌, ◌≡◌, ◌≢◌, ◌⊎◌, ◌↔◌, refl, none, some, List, [], ◌∷◌, arith, ok, err,
}
use revoot.Agent.Limits.{InRange, validate, default_limits, no_usage}
use revoot.Agent.Budget.{
  AgentBudget, ModelRequestReservation, ModelRequestUsage, new, ensure, admit_request,
  begin_model_request, finish_model_request, abandon_model_request, charge_tool, exhausted,
  elapsed_time,
}
use revoot.Agent.Budget.Checks.{Fits}
use revoot.Agent.Budget.Bounds.{IsWithin}
use revoot.Agent.Budget.Calls.{
  Call, begin, finish, abandon, tool, after_all, new-after_all-IsWithin, Grows, after_all-Grows,
}
use revoot.Agent.Budget.Outcomes.{
  IsOnTime, SameButTime, begin_model_request-ok_iff, finish-le-abandon,
  finish_model_request-charges, charge_tool_atomic, expired_frozen,
}

abbrev small : ModelRequestReservation
small = record { input_tokens = 1_000; output_tokens = 100; cost_microusd = 50 }

abbrev ledger : AgentBudget
ledger = record {
  limits = default_limits;
  usage = no_usage;
  started_at_millis = 5;
  last_observed_millis = 5;
  in_flight = none;
}

-- The ledger with its first request open.
abbrev open_ledger : AgentBudget
open_ledger = record ledger {
  usage = record no_usage { turns = 1; model_requests = 1; elapsed_millis = 2 };
  last_observed_millis = 7;
  in_flight = some (record { id = 1; reservation = small });
}

abbrev used : ModelRequestUsage
used = record { input_tokens = 900; output_tokens = 20; cost_microusd = 50 }

abbrev script : List Call
script = begin small 7 ∷ begin small 8 ∷ finish 1 used 9 ∷ tool 1 3 4_000 4 ∷ abandon 2 20 ∷ []

default_limits-InRange : InRange default_limits
default_limits-InRange = omega arith

ledger-IsWithin : IsWithin ledger
ledger-IsWithin = omega arith

open_ledger-IsWithin : IsWithin open_ledger
open_ledger-IsWithin = omega arith

default_limits-ok : validate default_limits ≡ ok tt
unfolding validate
default_limits-ok = refl

new-ledger : new default_limits 5 ≡ ok ledger
unfolding new
new-ledger = refl

begins : begin_model_request small 7 ledger ≡ (ok 1, open_ledger)
unfolding begin_model_request admit_request ensure
begins = refl

new-after_all-IsWithin_example : IsWithin (after_all ledger script)
new-after_all-IsWithin_example =
    new-after_all-IsWithin default_limits 5 script default_limits-InRange new-ledger

after_all-Grows_example : Grows ledger (after_all ledger script)
after_all-Grows_example = after_all-Grows ledger default_limits-InRange ledger-IsWithin script

begin_model_request-ok_iff_example :
    ((begin_model_request small 7 ledger).0 ≡ ok 1)
    ↔ (IsOnTime 7 ledger × Fits small ledger × (◌≡◌ {A = ℕ} 1 (ledger.usage.model_requests + 1)))
begin_model_request-ok_iff_example =
    begin_model_request-ok_iff ledger default_limits-InRange ledger-IsWithin small 7 1

finishes : (finish_model_request 1 used 9 open_ledger).0 ≡ ok tt
unfolding finish_model_request
finishes = refl

finish-le-abandon_example :
    let f = (finish_model_request 1 used 9 open_ledger).1.usage in
    let a = (abandon_model_request 1 9 open_ledger).1.usage in
    ((abandon_model_request 1 9 open_ledger).0 ≡ ok tt)
    × (f.input_tokens ≤ a.input_tokens)
    × (f.output_tokens ≤ a.output_tokens)
    × (f.cost_microusd ≤ a.cost_microusd)
finish-le-abandon_example =
    finish-le-abandon open_ledger default_limits-InRange open_ledger-IsWithin 1 9 used finishes

abbrev settled_ledger : AgentBudget
settled_ledger = record ledger {
  usage = record no_usage {
    turns = 1;
    model_requests = 1;
    input_tokens = 900;
    output_tokens = 20;
    cost_microusd = 50;
    elapsed_millis = 4;
  };
  last_observed_millis = 9;
}

settles : finish_model_request 1 used 9 open_ledger ≡ (ok tt, settled_ledger)
unfolding finish_model_request
settles = refl

finish_model_request-charges_example : settled_ledger ≡ record open_ledger {
  last_observed_millis = 9;
  in_flight = none;
  usage = record open_ledger.usage {
    input_tokens = open_ledger.usage.input_tokens + used.input_tokens;
    output_tokens = open_ledger.usage.output_tokens + used.output_tokens;
    cost_microusd = open_ledger.usage.cost_microusd + used.cost_microusd;
    elapsed_millis = 9 - open_ledger.started_at_millis;
  };
}
finish_model_request-charges_example =
    finish_model_request-charges open_ledger default_limits-InRange open_ledger-IsWithin 1 9 used
      settles

charge_tool_atomic_example :
    let c = (charge_tool 1 2_001 1 9 ledger).1 in
    (((charge_tool 1 2_001 1 9 ledger).0 ≡ ok tt)
      × (c ≡ record ledger {
        last_observed_millis = 9;
        usage = record ledger.usage {
          tool_calls = ledger.usage.tool_calls + 1;
          repository_files = ledger.usage.repository_files + 2_001;
          repository_bytes = ledger.usage.repository_bytes + 1;
          elapsed_millis = 9 - ledger.started_at_millis;
        };
      }))
    ⊎ (((charge_tool 1 2_001 1 9 ledger).0 ≢ ok tt) × SameButTime ledger c)
charge_tool_atomic_example =
    charge_tool_atomic ledger default_limits-InRange ledger-IsWithin 1 2_001 1 9

expired_frozen_example :
    (begin_model_request small 900_006 open_ledger ≡ (err (exhausted elapsed_time), open_ledger))
    × (finish_model_request 1 used 900_006 open_ledger
        ≡ (err (exhausted elapsed_time), open_ledger))
    × (abandon_model_request 1 900_006 open_ledger ≡ (err (exhausted elapsed_time), open_ledger))
    × (charge_tool 1 1 1 900_006 open_ledger ≡ (err (exhausted elapsed_time), open_ledger))
expired_frozen_example =
    expired_frozen open_ledger 900_006 (omega arith) (omega arith) small used 1 1 1 1

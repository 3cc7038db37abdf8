-- ===== src/Provider/Tests.antt =====
-- The provider's boundary: the theorems at concrete requests.
use revoot.Prelude.{ℕ, ◌≤◌, ◌<◌, ◌≡◌, refl, false, none, some, [], ◌∷◌, ok, err, length}
use revoot.Text.{lit}
use revoot.Provider.{
  ModelRequest, user, text, new_token, reason, validate, validate_messages, validate_tools,
  bounded_label, bounded_text, deadline, shutdown, temperature,
}
use revoot.Provider.Laws.{cancel_all, first_cancel_wins, AllFilled, blocks, validate_bounds}

first_cancel_wins_example : reason (cancel_all (deadline ∷ shutdown ∷ []) new_token) ≡ some deadline
first_cancel_wins_example = first_cancel_wins deadline (shutdown ∷ [])

-- JSON values are numbers here, of which none is an object.
abbrev ask_once : ModelRequest ℕ
ask_once = record {
  model = lit "m-1";
  system = none;
  messages = record { role = user; content = text (lit "hi") ∷ [] } ∷ [];
  tools = [];
  max_output_tokens = 10;
  temperature = some 0x3f80_0000;
}

ask_once-ok : validate (λ n. false) (λ n. some n) ask_once ≡ ok tt
unfolding validate validate_messages validate_tools bounded_label bounded_text
ask_once-ok = refl

validate_bounds_example :
    (0 < length ask_once.messages)
    × (length ask_once.messages ≤ 512)
    × AllFilled ask_once.messages
    × (blocks ask_once.messages ≤ 1_024)
    × (length ask_once.tools ≤ 64)
    × (0 < ask_once.max_output_tokens)
validate_bounds_example = validate_bounds (λ n. false) (λ n. some n) ask_once ask_once-ok

too_hot :
    validate (λ n. false) (λ n. some n) (record ask_once { temperature = some 0x4000_0001 })
    ≡ err temperature
unfolding validate bounded_label bounded_text
too_hot = refl

-- ===== src/Provider.antt =====
-- crates/revoot-core/src/provider.rs: requests to a model provider, and cancellation.
pub mod Laws
mod Tests
use revoot.Prelude.{
  ℕ, ◌+◌, ◌*◌, ◌/◌, ◌%◌, ◌^◌, Bool, true, false, not, ◌&&◌, ◌||◌, Option, none, some, List, [], ◌∷◌,
  ltb, leb, ◌==◌, if◌then◌else◌, is_some, is_empty, any, length, Result, ok, err, and_then,
  reject_if, checked_add, u64_max,
}
use revoot.Text.{Str, len, all_bytes, is_ascii_control, is_ascii_whitespace}

abbrev pub max_model_messages : ℕ
max_model_messages = 512

abbrev pub max_model_tools : ℕ
max_model_tools = 64

abbrev pub max_content_blocks : ℕ
max_content_blocks = 1_024

abbrev pub max_text_bytes : ℕ
max_text_bytes = 2 * 1024 * 1024

abbrev pub max_tool_json_bytes : ℕ
max_tool_json_bytes = 1024 * 1024

abbrev pub max_tool_name_bytes : ℕ
max_tool_name_bytes = 128

abbrev pub max_tool_id_bytes : ℕ
max_tool_id_bytes = 256

abbrev pub max_model_id_bytes : ℕ
max_model_id_bytes = 256

pub data ModelRole : Type 0 where
  user assistant : ModelRole

-- `Json` is the type `Value` of serde_json.
pub data ModelContent (Json : Type 0) : Type 0 where
  text : Str → ModelContent Json
  tool_use : Str → Str → Json → ModelContent Json
  tool_result : Str → Str → Bool → ModelContent Json

pub record ModelMessage (Json : Type 0) : Type 0 where
  pub role : ModelRole
  pub content : List (ModelContent Json)

pub record ModelTool (Json : Type 0) : Type 0 where
  pub name : Str
  pub description : Str
  pub input_schema : Json

pub record ModelRequest (Json : Type 0) : Type 0 where
  pub model : Str
  pub system : Option Str
  pub messages : List (ModelMessage Json)
  pub tools : List (ModelTool Json)
  pub max_output_tokens : ℕ  -- u32
  pub temperature : Option ℕ  -- the bits of the f32

pub data ModelRequestError : Type 0 where
  model messages content text_error tool_count tool_name tool_id tool_schema : ModelRequestError
  output_tokens temperature : ModelRequestError

pub record ModelUsage : Type 0 where
  pub input_tokens : ℕ  -- u64
  pub output_tokens : ℕ  -- u64
  pub cached_input_tokens : ℕ  -- u64

pub data ModelFinishReason : Type 0 where
  stop tool_use_stop length_stop content_filter unknown : ModelFinishReason

pub record ModelResponse (Json : Type 0) : Type 0 where
  pub provider_response_id : Option Str
  pub model : Str
  pub content : List (ModelContent Json)
  pub finish_reason : ModelFinishReason
  pub usage : ModelUsage

-- `is_finite` on the bits of an f32: the exponent is not all ones.
abbrev pub is_finite : ℕ → Bool
is_finite bits = not (bits / 2 ^ 23 % 256 == 255)

-- `(0.0..=2.0).contains`: the patterns from 0.0 to 2.0 are in order, and -0.0 equals 0.0.
abbrev pub from_zero_to_two : ℕ → Bool
from_zero_to_two bits = leb bits 0x4000_0000 || bits == 0x8000_0000

abbrev pub bad_temperature : Option ℕ → Bool
bad_temperature none = false
bad_temperature (some bits) = not (is_finite bits) || not (from_zero_to_two bits)

abbrev pub lacks_nul : Str → Bool
lacks_nul s = not (any (λ c. c == 0) s)

unfoldable pub bounded_text : Str → Bool
unfolding len
bounded_text value = leb (len value) max_text_bytes && lacks_nul value

unfoldable pub bounded_label : Str → ℕ → Bool
unfolding len
bounded_label value max =
    not (is_empty value)
    && leb (len value) max
    && all_bytes (λ c. not (is_ascii_control c) && not (is_ascii_whitespace c)) value

abbrev pub bad_system : Option Str → Bool
bad_system none = false
bad_system (some t) = not (bounded_text t)

-- What the crate uses of serde_json: whether a value is an object, and the length of the value
-- that `to_vec` writes, if it does not fail.
module _ {Json : Type 0} (is_object : Json → Bool) (to_vec_len : Json → Option ℕ) where
  unfoldable pub json_size : Json → ℕ
  json_size value = elim (to_vec_len value) [ none ↦ u64_max | some n ↦ n ]

  unfoldable pub validate_content : ModelContent Json → Result ModelRequestError (Unit {0})
  unfolding bounded_text bounded_label json_size
  validate_content (text t) = reject_if (not (bounded_text t)) text_error
  validate_content (tool_use id name input) =
      and_then (reject_if (not (bounded_label id max_tool_id_bytes)) tool_id) λ _.
        and_then (reject_if (not (bounded_label name max_tool_name_bytes)) tool_name)
          λ _. reject_if (ltb max_tool_json_bytes (json_size input)) tool_schema
  validate_content (tool_result tool_use_id t is_error) =
      and_then (reject_if (not (bounded_label tool_use_id max_tool_id_bytes)) tool_id)
        λ _. reject_if (not (bounded_text t)) text_error

  unfoldable pub validate_contents : List (ModelContent Json) → Result ModelRequestError (Unit {0})
  unfolding validate_content
  validate_contents [] = ok tt
  validate_contents (c ∷ cs) = and_then (validate_content c) λ _. validate_contents cs

  unfoldable pub validate_tools : List (ModelTool Json) → Result ModelRequestError (Unit {0})
  unfolding bounded_text bounded_label json_size
  validate_tools [] = ok tt
  validate_tools (t ∷ ts) =
      and_then (reject_if (not (bounded_label t.name max_tool_name_bytes)) tool_name) λ _.
        and_then
          (reject_if
            (not (bounded_text t.description)
              || not (is_object t.input_schema)
              || ltb max_tool_json_bytes (json_size t.input_schema))
            tool_schema)
          λ _. validate_tools ts

  abbrev pub count_blocks : Option ℕ → Result ModelRequestError ℕ
  count_blocks none = err content
  count_blocks (some n) = ok n

  -- the loop over the messages, with the blocks counted so far
  unfoldable pub validate_messages :
      ℕ → List (ModelMessage Json) → Result ModelRequestError (Unit {0})
  unfolding validate_contents
  validate_messages blocks [] = ok tt
  validate_messages blocks (m ∷ ms) = and_then (reject_if (is_empty m.content) content) λ _.
      and_then (count_blocks (checked_add u64_max blocks (length m.content))) λ now.
        and_then (reject_if (ltb max_content_blocks now) content)
          λ _. and_then (validate_contents m.content) λ _. validate_messages now ms

  unfoldable pub validate : ModelRequest Json → Result ModelRequestError (Unit {0})
  validate r = and_then (reject_if (not (bounded_label r.model max_model_id_bytes)) model) λ _.
      and_then
        (reject_if (is_empty r.messages || ltb max_model_messages (length r.messages)) messages)
        λ _. and_then (reject_if (ltb max_model_tools (length r.tools)) tool_count) λ _.
          and_then (reject_if (r.max_output_tokens == 0) output_tokens) λ _.
            and_then (reject_if (bad_temperature r.temperature) temperature) λ _.
              and_then (reject_if (bad_system r.system) text_error)
                λ _. and_then (validate_tools r.tools) λ _. validate_messages 0 r.messages

pub data ProviderCancellationReason : Type 0 where
  user_requested deadline shutdown : ProviderCancellationReason

-- `reason as u8`
unfoldable pub as_u8 : ProviderCancellationReason → ℕ
as_u8 user_requested = 1
as_u8 deadline = 2
as_u8 shutdown = 3

-- The value of the shared `AtomicU8`.
pub record CancellationToken : Type 0 where
  pub cell : ℕ

abbrev pub new_token : CancellationToken
new_token = record { cell = 0 }

-- `compare_exchange(0, reason)`
unfoldable pub cancel : ProviderCancellationReason → CancellationToken → CancellationToken
unfolding as_u8
cancel reason t = if t.cell == 0 then record { cell = as_u8 reason } else t

unfoldable pub reason : CancellationToken → Option ProviderCancellationReason
reason t =
    if t.cell == 1
    then some user_requested
    else if t.cell == 2
    then some deadline
    else if t.cell == 3
    then some shutdown
    else none

unfoldable pub is_cancelled : CancellationToken → Bool
unfolding reason
is_cancelled t = is_some (reason t)

pub data ProviderErrorKind : Type 0 where
  invalid_request authentication permission_denied rate_limited timeout : ProviderErrorKind
  cancelled unavailable protocol response_too_large : ProviderErrorKind

pub record ProviderError : Type 0 where
  pub kind : ProviderErrorKind
  pub status_code : Option ℕ  -- u16
  pub retryable : Bool

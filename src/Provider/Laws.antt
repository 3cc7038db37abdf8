-- ===== src/Provider/Laws.antt =====
-- crates/revoot-core/src/provider.rs: repeated cancellation, and the bounds of requests.
use revoot.Prelude.{
  ℕ, ◌+◌, ◌≤◌, ◌<◌, ◌≡◌, refl, Bool, Option, some, List, [], ◌∷◌, arith, ok, length,
}
use revoot.Provider.{
  ModelMessage, ModelRequest, validate_messages, validate, ProviderCancellationReason,
  CancellationToken, new_token, max_content_blocks, cancel, reason,
}

abbrev pub cancel_all : List ProviderCancellationReason → CancellationToken → CancellationToken
cancel_all [] t = t
cancel_all (r ∷ rs) t = cancel_all rs (cancel r t)

cancel_set :
    (r q : ProviderCancellationReason) (t : CancellationToken) → reason t ≡ some r → cancel q t ≡ t
unfolding reason cancel
cancel_set r q t h = ground arith

cancel_all_set :
    (r : ProviderCancellationReason) (rs : List ProviderCancellationReason) (t : CancellationToken)
    → reason t ≡ some r
    → cancel_all rs t ≡ t
cancel_all_set r [] t h = refl
cancel_all_set r (q ∷ rs) t h = rw (cancel_set r q t h) (cancel_all_set r rs t h)

reason-cancel_new : (r : ProviderCancellationReason) → reason (cancel r new_token) ≡ some r
unfolding reason cancel
reason-cancel_new ProviderCancellationReason.user_requested = refl
reason-cancel_new _ = refl

-- The first reason to cancel is kept, whatever is asked for after it.
pub first_cancel_wins :
    (r : ProviderCancellationReason) (rs : List ProviderCancellationReason)
    → reason (cancel_all (r ∷ rs) new_token) ≡ some r
first_cancel_wins r rs =
    rw (cancel_all_set r rs (cancel r new_token) (reason-cancel_new r)) (reason-cancel_new r)

module _ {Json : Type 0} where
  abbrev pub blocks : List (ModelMessage Json) → ℕ
  blocks [] = 0
  blocks (m ∷ ms) = length m.content + blocks ms

  abbrev pub AllFilled : List (ModelMessage Json) → Type 0
  AllFilled [] = Unit
  AllFilled (m ∷ ms) = (0 < length m.content) × AllFilled ms

module _ {Json : Type 0} (is_object : Json → Bool) (to_vec_len : Json → Option ℕ) where
  validate_messages-bounds :
      (n : ℕ) (ms : List (ModelMessage Json))
      → n ≤ max_content_blocks
      → validate_messages is_object to_vec_len n ms ≡ ok tt
      → (n + blocks ms ≤ max_content_blocks) × AllFilled ms
  unfolding validate_messages
  validate_messages-bounds n [] le h = (omega arith, tt)
  validate_messages-bounds n (m ∷ ms) le h =
      ground (arith, validate_messages-bounds (n + length m.content) ms)

  -- A request that passes has between 1 and 512 messages, none of them empty, and at most 1,024
  -- content blocks in all; it has at most 64 tools and asks for some output.
  pub validate_bounds :
      (r : ModelRequest Json)
      → validate is_object to_vec_len r ≡ ok tt
      → (0 < length r.messages)
        × (length r.messages ≤ 512)
        × AllFilled r.messages
        × (blocks r.messages ≤ 1_024)
        × (length r.tools ≤ 64)
        × (0 < r.max_output_tokens)
  unfolding validate
  validate_bounds r h = ground (arith, validate_messages-bounds 0 r.messages)

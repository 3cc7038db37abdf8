-- ===== src/Findings/Content.antt =====
-- crates/revoot-core/src/findings.rs: the checks on untrusted text.
use revoot.Prelude.{
  ℕ, Bool, false, not, ◌&&◌, ◌||◌, [], ◌∷◌, ltb, ◌==◌, any, is_empty, Result, and_then, reject_if,
}
use revoot.Text.{Str, lit, len, is_control}
use revoot.Text.Trim.{trim, trim_start, to_ascii_lowercase}
use revoot.Text.Search.{starts_with, contains, lines}

pub data ContentError : Type 0 where
  field control_character marker_injection quick_action : ContentError
  unsafe_url_scheme external_link : ContentError

abbrev max_replacement_bytes : ℕ
max_replacement_bytes = 8_000

abbrev pub revoot_marker_prefix : Str
revoot_marker_prefix = lit "<!-- revoot:"

abbrev not_tab : ℕ → Bool
not_tab c = is_control c && not (c == 0x9)

abbrev not_tab_or_feed : ℕ → Bool
not_tab_or_feed c = is_control c && not (c == 0xa || c == 0x9)

unfoldable contains_link_or_image : Str → Str → Bool
unfolding contains
contains_link_or_image value lowercase =
    contains value (lit "](")
    || contains value (lit "![")
    || any (λ scheme. contains lowercase scheme)
        (lit "http://" ∷ lit "https://" ∷ lit "mailto:" ∷ [])

-- the test on the text in front of a match, which is given in reverse
abbrev opens_link : Str → Bool
opens_link [] = false
opens_link (c ∷ s) = c == b'(' || c == b'<'

-- `match_indices(scheme)` with the text in front of each match in reverse. No scheme of the
-- program overlaps itself, so the matches are all the places where the scheme stands.
unfoldable matches_after_opening : Str → Str → Str → Bool
unfolding starts_with trim_start
matches_after_opening scheme before [] = false
matches_after_opening scheme before (c ∷ s) =
    (starts_with (c ∷ s) scheme && opens_link (trim_start before))
    || matches_after_opening scheme (c ∷ before) s

unfoldable contains_unsafe_url : Str → Bool
unfolding matches_after_opening
contains_unsafe_url lowercase =
    any (λ scheme. matches_after_opening scheme [] lowercase)
      (lit "javascript:" ∷ lit "vbscript:" ∷ lit "data:" ∷ lit "file:" ∷ [])

unfoldable is_quick_action : Str → Bool
unfolding trim_start starts_with
is_quick_action line =
    starts_with (trim_start line) (lit "/") && not (starts_with (trim_start line) (lit "//"))

unfoldable pub validate_plain_text : Str → Result ContentError (Unit {0})
unfolding contains contains_link_or_image to_ascii_lowercase
validate_plain_text value =
    let lowercase = to_ascii_lowercase value in
    and_then (reject_if (any not_tab value) ContentError.control_character) λ _.
      and_then (reject_if (contains lowercase revoot_marker_prefix) ContentError.marker_injection)
        λ _. reject_if (contains_link_or_image value lowercase) ContentError.external_link

unfoldable pub validate_markdown : Str → ℕ → Result ContentError (Unit {0})
unfolding trim len contains contains_link_or_image contains_unsafe_url to_ascii_lowercase lines
    is_quick_action
validate_markdown value max_bytes =
    let lowercase = to_ascii_lowercase value in
    and_then (reject_if (is_empty (trim value) || ltb max_bytes (len value)) field) λ _.
      and_then (reject_if (any not_tab_or_feed value) ContentError.control_character) λ _.
        and_then (reject_if (contains lowercase revoot_marker_prefix) ContentError.marker_injection)
          λ _.
            and_then (reject_if (contains_unsafe_url lowercase) ContentError.unsafe_url_scheme) λ _.
              and_then
                (reject_if (contains_link_or_image value lowercase) ContentError.external_link)
                λ _. reject_if (any is_quick_action (lines value)) ContentError.quick_action

unfoldable pub validate_replacement : Str → Result ContentError (Unit {0})
unfolding len contains to_ascii_lowercase
validate_replacement value =
    and_then (reject_if (is_empty value || ltb max_replacement_bytes (len value)) field) λ _.
      and_then (reject_if (any not_tab_or_feed value) ContentError.control_character) λ _.
        reject_if (contains (to_ascii_lowercase value) revoot_marker_prefix)
          ContentError.marker_injection

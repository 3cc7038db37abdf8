-- ===== src/Findings/Render/Safety.antt =====
-- crates/revoot-core/src/findings.rs: the marker and angle brackets in rendered text.
use Prim.Native.Nat.{max}
use revoot.Prelude.{
  ℕ, zero, suc, ◌+◌, ◌<◌, ◌≡◌, refl, Bool, true, false, Option, none, some, List, [], ◌∷◌, ◌++◌,
  if◌then◌else◌, arith, map_err-ok, ◌∙◌, ok, All, Bool-cases, inl, inr,
}
use revoot.Text.{Str, lit}
use revoot.Text.Search.{contains, ends_with}
use revoot.Text.Trim.{to_ascii_lowercase}
use revoot.Text.Laws.{
  lacks, lacks-append, contains-skip, contains_of_lacks, contains-stop, contains-lower,
}
use revoot.Findings.{
  Finding, Severity, FindingCategory, critical, correctness, validate_finding, check_replacement,
}
use revoot.Findings.Content.{revoot_marker_prefix, validate_replacement}
use revoot.Findings.Render.{
  replace, render_safe_markdown, pieces, longest, repeat, confidence_label, severity_icon,
  priority_label, severity_label, category_label, head_parts, join, suggested_fix, render_finding,
}

lacks-replace :
    (c d : ℕ) (by s : Str) → lacks c by ≡ true → lacks c s ≡ true → lacks c (replace d by s) ≡ true
lacks-replace c d by [] hb hs = refl
lacks-replace c d by (e ∷ s) hb hs =
    ground (arith, lacks-replace c d by s, lacks-append c by (replace d by s))

lacks-replace_self : (c : ℕ) (by s : Str) → lacks c by ≡ true → lacks c (replace c by s) ≡ true
lacks-replace_self c by [] hb = refl
lacks-replace_self c by (e ∷ s) hb =
    ground (arith, lacks-replace_self c by s, lacks-append c by (replace c by s))

-- Escaped text holds no angle bracket, so no HTML comment or tag.
lacks-render_safe_markdown :
    (s : Str)
    → (lacks b'<' (render_safe_markdown s) ≡ true) × (lacks b'>' (render_safe_markdown s) ≡ true)
unfolding render_safe_markdown
lacks-render_safe_markdown s = (
  lacks-replace b'<' b'>' (lit "&gt;") (replace b'<' (lit "&lt;") amp) refl
      (lacks-replace_self b'<' (lit "&lt;") amp refl),
  lacks-replace_self b'>' (lit "&gt;") (replace b'<' (lit "&lt;") amp) refl,
)
  where
    amp : Str
    amp = replace b'&' (lit "&amp;") s

lacks-confidence_label : (n : ℕ) → lacks b'<' (confidence_label n) ≡ true
unfolding confidence_label
lacks-confidence_label n = ground arith

lacks-severity_icon : (s : Severity) → lacks b'<' (severity_icon s) ≡ true
unfolding severity_icon
lacks-severity_icon critical = refl
lacks-severity_icon _ = refl

lacks-priority_label : (s : Severity) → lacks b'<' (priority_label s) ≡ true
unfolding priority_label
lacks-priority_label critical = refl
lacks-priority_label _ = refl

lacks-severity_label : (s : Severity) → lacks b'<' (severity_label s) ≡ true
unfolding severity_label
lacks-severity_label critical = refl
lacks-severity_label _ = refl

lacks-category_label : (c : FindingCategory) → lacks b'<' (category_label c) ≡ true
unfolding category_label
lacks-category_label correctness = refl
lacks-category_label _ = refl

lacks-join : (ss : List Str) → All (λ s. lacks b'<' s ≡ true) ss → lacks b'<' (join ss) ≡ true
lacks-join [] h = refl
lacks-join (s ∷ ss) h = lacks-append b'<' s (join ss) h.0 (lacks-join ss h.1)

lacks-head : (f : Finding) → lacks b'<' (join (head_parts f)) ≡ true
unfolding head_parts
lacks-head f = lacks-join (head_parts f) (
  refl,
  (
    lacks-severity_icon f.severity,
    (
      refl,
      (
        lacks-priority_label f.severity,
        (
          refl,
          (
            lacks-severity_label f.severity,
            (
              refl,
              (
                lacks-category_label f.category,
                (
                  refl,
                  (
                    lacks-confidence_label f.confidence_percent,
                    (
                      refl,
                      (
                        (lacks-render_safe_markdown f.title).0,
                        (
                          refl,
                          (
                            (lacks-render_safe_markdown f.explanation).0,
                            (refl, ((lacks-render_safe_markdown f.evidence).0, tt)),
                          ),
                        ),
                      ),
                    ),
                  ),
                ),
              ),
            ),
          ),
        ),
      ),
    ),
  ),
)

lacks-repeat : (n : ℕ) → lacks b'<' (repeat 0x60 n) ≡ true
lacks-repeat zero = refl
lacks-repeat (suc n) = lacks-repeat n

-- A validated replacement does not hold the marker, in any letter case.
replacement_clean :
    (r : Str) → validate_replacement r ≡ ok tt → contains r revoot_marker_prefix ≡ false
unfolding validate_replacement
replacement_clean r h = elim (Bool-cases (contains r revoot_marker_prefix)) [
  | inr absent ↦ absent
  | inl found ↦ ground (arith, lowered found)
]
  where
    lowered :
        contains r revoot_marker_prefix ≡ true
        → contains (to_ascii_lowercase r) revoot_marker_prefix ≡ true
    lowered found = unfold to_ascii_lowercase in contains-lower r revoot_marker_prefix found

validate_finding-replacement :
    (f : Finding) → validate_finding f ≡ ok tt → check_replacement f.suggested_replacement ≡ ok tt
unfolding validate_finding
validate_finding-replacement f h = ground arith

abbrev marker_tail : Str
marker_tail = lit "!-- revoot:"

-- A text in front of a character that the marker lacks.
contains_before_stop :
    (d : ℕ) (r t : Str)
    → lacks d revoot_marker_prefix ≡ true
    → lacks b'<' t ≡ true
    → contains r revoot_marker_prefix ≡ false
    → contains (r ++ d ∷ t) revoot_marker_prefix ≡ false
contains_before_stop d r t stop clean h =
    contains-stop d b'<' marker_tail r t stop
    ∙ ground (arith, h, contains_of_lacks b'<' marker_tail t clean)

contains_before_fence :
    (r : Str) (n : ℕ)
    → 0 < n
    → contains r revoot_marker_prefix ≡ false
    → contains (r ++ repeat 0x60 n) revoot_marker_prefix ≡ false
contains_before_fence r zero pos h = absurd (omega arith)
contains_before_fence r (suc n) pos h =
    contains_before_stop 0x60 r (repeat 0x60 n) refl (lacks-repeat n) h

-- Whether or not a line feed is added, the replacement is followed by a stop.
contains_closing :
    (b : Bool) (r : Str) (n : ℕ)
    → 0 < n
    → contains r revoot_marker_prefix ≡ false
    → contains (r ++ ((if b then [] else lit "\n") ++ repeat 0x60 n)) revoot_marker_prefix ≡ false
contains_closing true r n pos h = contains_before_fence r n pos h
contains_closing false r n pos h =
    contains_before_stop 0xa r (repeat 0x60 n) refl (lacks-repeat n) h

contains-suggested_fix :
    (r : Str)
    → contains r revoot_marker_prefix ≡ false
    → contains (suggested_fix (some r)) revoot_marker_prefix ≡ false
unfolding suggested_fix
contains-suggested_fix r h =
    contains-skip b'<' marker_tail (lit "\n\n#### Suggested fix\n\n") _ refl
    ∙ contains-skip b'<' marker_tail (repeat 0x60 n) _ (lacks-repeat n)
    ∙ contains-skip b'<' marker_tail (lit "\n") _ refl
    ∙ contains_closing (ends_with r (lit "\n")) r n (omega arith) h
  where
    n : ℕ
    n = max (longest (pieces 0 r) + 1) 3

-- The comment that is rendered for a validated finding never holds the marker by which Revoot
-- recognises its own comments, whatever the model wrote.
pub render_finding_unmarked :
    (f : Finding)
    → validate_finding f ≡ ok tt
    → contains (render_finding f) revoot_marker_prefix ≡ false
unfolding render_finding
render_finding_unmarked f h =
    contains-skip b'<' marker_tail (join (head_parts f)) (suggested_fix f.suggested_replacement)
      (lacks-head f)
    ∙ contains_fix f.suggested_replacement (validate_finding-replacement f h)
  where
    contains_fix :
        (o : Option Str)
        → check_replacement o ≡ ok tt
        → contains (suggested_fix o) revoot_marker_prefix ≡ false
    contains_fix none h = unfold contains in refl
    contains_fix (some r) h =
        contains-suggested_fix r (replacement_clean r (map_err-ok _ (validate_replacement r) h))

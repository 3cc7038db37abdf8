-- ===== src/Findings/Tests.antt =====
-- Findings: the theorems at concrete findings, and small runs.
use revoot.Prelude.{ℕ, ◌≤◌, ◌≡◌, refl, false, none, some, ok, err}
use revoot.Text.{lit}
use revoot.Text.Search.{contains}
use revoot.Findings.{Finding, high, security, validate_finding}
use revoot.Findings.Content.{ContentError, revoot_marker_prefix, validate_markdown}
use revoot.Findings.Render.{code_fence, repeat, render_finding}
use revoot.Findings.Render.Safety.{render_finding_unmarked}
use revoot.Findings.Render.Fence.{code_fence_unbroken}

abbrev leak : Finding
leak = record {
  anchor_id = lit "ga1_0";
  severity = high;
  confidence_percent = 90;
  category = security;
  title = lit "Token <leak>";
  explanation = lit "The token is logged.";
  evidence = lit "See `log(token)`.";
  lineage_id = none;
  suggested_replacement = some (lit "```\nlog(redacted)\n```");
}

leak-ok : validate_finding leak ≡ ok tt
unfolding validate_finding
leak-ok = refl

render_finding_unmarked_example : contains (render_finding leak) revoot_marker_prefix ≡ false
render_finding_unmarked_example = render_finding_unmarked leak leak-ok

code_fence_unbroken_example :
    (contains (lit "````") (code_fence (lit "````")) ≡ false)
    × ((n : ℕ) × (3 ≤ n) × (code_fence (lit "````") ≡ repeat 0x60 n))
code_fence_unbroken_example = code_fence_unbroken (lit "````")

fence_of_four : code_fence (lit "a ```` b") ≡ lit "`````"
unfolding code_fence
fence_of_four = refl

quick_action_refused : validate_markdown (lit "ok\n  /close") 100 ≡ err ContentError.quick_action
unfolding validate_markdown
quick_action_refused = refl

script_link_refused :
    validate_markdown (lit "see [x]( JavaScript:alert)") 100 ≡ err ContentError.unsafe_url_scheme
unfolding validate_markdown
script_link_refused = refl

-- ===== src/Findings/Render.antt =====
-- crates/revoot-core/src/findings.rs: rendering of a finding as a comment.
pub mod Safety
pub mod Fence
use mathlib.Core.List.{flat_map}
use revoot.Prelude.{
  ℕ, zero, suc, ◌+◌, ◌≡◌, refl, Bool, true, false, not, ◌&&◌, ◌||◌, Option, none, some, List, [],
  ◌∷◌, ◌++◌, ltb, leb, ◌==◌, if◌then◌else◌, map, arith,
}
use Prim.Native.Nat.{max}
use revoot.Text.{Str, lit}
use revoot.Text.Search.{ends_with}
use revoot.Findings.{
  Finding, Severity, critical, high, medium, low, info, FindingCategory, correctness, security,
  reliability, performance, maintainability,
}

-- `replace` of a character by a text
abbrev pub replace : ℕ → Str → Str → Str
replace c by [] = []
replace c by (d ∷ s) = if d == c then by ++ replace c by s else d ∷ replace c by s

unfoldable pub render_safe_markdown : Str → Str
render_safe_markdown value =
    replace b'>' (lit "&gt;") (replace b'<' (lit "&lt;") (replace b'&' (lit "&amp;") value))

-- the lengths of the pieces of `split(|character| character != '`')`, the first piece open
unfoldable pub pieces : ℕ → Str → List ℕ
pieces n [] = n ∷ []
pieces n (c ∷ s) =
    let longer = pieces (n + 1) s in let next = pieces 0 s in if c == 0x60 then longer else n ∷ next

abbrev pub longest : List ℕ → ℕ
longest [] = 0
longest (n ∷ ns) = max n (longest ns)

abbrev pub repeat : ℕ → ℕ → Str
repeat c zero = []
repeat c (suc n) = c ∷ repeat c n

-- A run of `usize::MAX` characters does not occur, so the saturation is left out.
unfoldable pub code_fence : Str → Str
unfolding pieces
code_fence value = repeat 0x60 (max (longest (pieces 0 value) + 1) 3)

unfoldable pub confidence_label : ℕ → Str
confidence_label n =
    if n == 0
    then lit "N/A"
    else if leb n 69
    then lit "Low"
    else if leb n 89
    then lit "Medium"
    else lit "High"

unfoldable pub severity_icon : Severity → Str
severity_icon critical = lit "🔴"
severity_icon high = lit "🟠"
severity_icon medium = lit "🟡"
severity_icon low = lit "🟢"
severity_icon info = lit "🔵"

unfoldable pub priority_label : Severity → Str
priority_label critical = lit "P1"
priority_label high = lit "P2"
priority_label medium = lit "P3"
priority_label low = lit "P4"
priority_label info = lit "P5"

unfoldable pub severity_label : Severity → Str
severity_label critical = lit "Critical"
severity_label high = lit "High"
severity_label medium = lit "Medium"
severity_label low = lit "Low"
severity_label info = lit "Info"

unfoldable pub category_label : FindingCategory → Str
category_label correctness = lit "Correctness"
category_label security = lit "Security"
category_label reliability = lit "Reliability"
category_label performance = lit "Performance"
category_label maintainability = lit "Maintainability"

abbrev table_head : Str
table_head =
    lit
      "**[Revoot](https://github.com/getrevoot/revoot)**\n\n| Severity | Category | Confidence |\n| --- | --- | --- |\n| "

-- the pieces that `format!` joins
unfoldable pub head_parts : Finding → List Str
unfolding render_safe_markdown severity_icon priority_label severity_label category_label
    confidence_label
head_parts f =
    table_head
    ∷ severity_icon f.severity
    ∷ lit " **"
    ∷ priority_label f.severity
    ∷ lit " ("
    ∷ severity_label f.severity
    ∷ lit ")** | "
    ∷ category_label f.category
    ∷ lit " | "
    ∷ confidence_label f.confidence_percent
    ∷ lit " |\n\n### "
    ∷ render_safe_markdown f.title
    ∷ lit "\n\n"
    ∷ render_safe_markdown f.explanation
    ∷ lit "\n\n"
    ∷ render_safe_markdown f.evidence
    ∷ []

abbrev pub join : List Str → Str
join [] = []
join (s ∷ ss) = s ++ join ss

-- the block behind `if let Some(replacement)`
unfoldable pub suggested_fix : Option Str → Str
unfolding code_fence ends_with
suggested_fix none = []
suggested_fix (some replacement) =
    let fence = code_fence replacement in
    lit "\n\n#### Suggested fix\n\n"
    ++ (fence
        ++ (lit "\n"
            ++ (replacement
                ++ ((if ends_with replacement (lit "\n") then [] else lit "\n") ++ fence))))

unfoldable pub render_finding : Finding → Str
unfolding head_parts suggested_fix
render_finding f = join (head_parts f) ++ suggested_fix f.suggested_replacement

-- ===== src/Findings.antt =====
-- crates/revoot-core/src/findings.rs: the model's findings, and the checks on their text.
pub mod Content
mod Tests
pub mod Render
pub mod Ranking
pub mod Pipeline
pub mod Entries
pub mod Passed
pub mod Ranked
pub mod Sorted
pub mod Traced
mod PipelineTests
use revoot.Prelude.{
  ℕ, ◌*◌, ◌≡◌, refl, Bool, true, false, not, ◌&&◌, ◌||◌, Option, none, some, List, [], ◌∷◌, ltb,
  leb, ◌==◌, if◌then◌else◌, any, is_empty, length, Result, ok, err, map_err, and_then, reject_if,
}
use mathlib.Core.List.{reverse}
use revoot.Text.{Str, lit, len, str_eq, is_ascii_alphanumeric, is_control, all_bytes}
use revoot.Text.Trim.{trim, trim_start, to_ascii_lowercase}
use revoot.Snapshot.{Sha256Digest}
use Content.{ContentError, field, validate_plain_text, validate_markdown, validate_replacement}

pub data Severity : Type 0 where
  critical high medium low info : Severity

pub data FindingCategory : Type 0 where
  correctness security reliability performance maintainability : FindingCategory

pub record Finding : Type 0 where
  pub anchor_id : Str
  pub severity : Severity
  pub confidence_percent : ℕ  -- u8
  pub category : FindingCategory
  pub title : Str
  pub explanation : Str
  pub evidence : Str
  pub lineage_id : Option Sha256Digest
  pub suggested_replacement : Option Str

pub record FindingsEnvelope : Type 0 where
  pub schema_version : Str
  pub work_unit_id : Str
  pub findings : List Finding
  pub summary : Str

pub data FindingsValidationError : Type 0 where
  schema_version work_unit_id too_many_findings anchor_id confidence : FindingsValidationError
  category title explanation evidence suggested_replacement summary : FindingsValidationError
  control_character marker_injection quick_action : FindingsValidationError
  unsafe_url_scheme external_link : FindingsValidationError

abbrev pub max_work_unit_id_bytes : ℕ
max_work_unit_id_bytes = 128

abbrev max_anchor_id_bytes : ℕ
max_anchor_id_bytes = 128

abbrev max_title_bytes : ℕ
max_title_bytes = 160

abbrev max_explanation_bytes : ℕ
max_explanation_bytes = 4_000

abbrev max_evidence_bytes : ℕ
max_evidence_bytes = 2_000

abbrev pub max_summary_bytes : ℕ
max_summary_bytes = 4_000

abbrev pub max_findings : ℕ
max_findings = 25

abbrev pub current_schema : Str
current_schema = lit "revoot.findings/v1"

abbrev pub map_content_error : FindingsValidationError → ContentError → FindingsValidationError
map_content_error f field = f
map_content_error f ContentError.control_character = FindingsValidationError.control_character
map_content_error f ContentError.marker_injection = FindingsValidationError.marker_injection
map_content_error f ContentError.quick_action = FindingsValidationError.quick_action
map_content_error f ContentError.unsafe_url_scheme = FindingsValidationError.unsafe_url_scheme
map_content_error f ContentError.external_link = FindingsValidationError.external_link

abbrev pub label_byte : ℕ → Bool
label_byte c =
    is_ascii_alphanumeric c || c == b'-' || c == b'_' || c == b'.' || c == b':' || c == b'/'

unfoldable pub valid_label : Str → ℕ → Bool
unfolding len
valid_label value max_bytes =
    not (is_empty value) && leb (len value) max_bytes && all_bytes label_byte value

unfoldable bad_title : Str → Bool
unfolding len trim str_eq
bad_title t =
    is_empty t
    || ltb max_title_bytes (len t)
    || not (str_eq (trim t) t)
    || any (λ c. c == 0xa || c == 0xd) t

abbrev pub check_replacement : Option Str → Result FindingsValidationError (Unit {0})
check_replacement none = ok tt
check_replacement (some r) =
    map_err (map_content_error FindingsValidationError.suggested_replacement)
      (validate_replacement r)

-- one round of the loop of `validate`
unfoldable pub validate_finding : Finding → Result FindingsValidationError (Unit {0})
unfolding valid_label bad_title validate_plain_text validate_markdown validate_replacement
validate_finding f =
    and_then
      (reject_if (not (valid_label f.anchor_id max_anchor_id_bytes))
        FindingsValidationError.anchor_id)
      λ _.
        and_then (reject_if (ltb 100 f.confidence_percent) FindingsValidationError.confidence) λ _.
          and_then (reject_if (bad_title f.title) FindingsValidationError.title) λ _.
            and_then
              (map_err (map_content_error FindingsValidationError.title)
                (validate_plain_text f.title))
              λ _.
                and_then
                  (map_err (map_content_error FindingsValidationError.explanation)
                    (validate_markdown f.explanation max_explanation_bytes))
                  λ _.
                    and_then
                      (map_err (map_content_error FindingsValidationError.evidence)
                        (validate_markdown f.evidence max_evidence_bytes))
                      λ _. check_replacement f.suggested_replacement

unfoldable pub validate_findings : List Finding → Result FindingsValidationError (Unit {0})
unfolding validate_finding
validate_findings [] = ok tt
validate_findings (f ∷ fs) = and_then (validate_finding f) λ _. validate_findings fs

unfoldable pub validate : FindingsEnvelope → Result FindingsValidationError (Unit {0})
unfolding str_eq valid_label validate_markdown validate_findings
validate e =
    and_then
      (reject_if (not (str_eq e.schema_version current_schema))
        FindingsValidationError.schema_version)
      λ _.
        and_then
          (reject_if (not (valid_label e.work_unit_id max_work_unit_id_bytes))
            FindingsValidationError.work_unit_id)
          λ _.
            and_then
              (reject_if (ltb max_findings (length e.findings))
                FindingsValidationError.too_many_findings)
              λ _.
                and_then
                  (map_err (map_content_error FindingsValidationError.summary)
                    (validate_markdown e.summary max_summary_bytes))
                  λ _. validate_findings e.findings

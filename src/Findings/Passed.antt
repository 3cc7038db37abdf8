-- ===== src/Findings/Passed.antt =====
-- crates/revoot-core/src/findings.rs: what a check that is passed says of what it checked.
use revoot.Prelude.{
  ℕ, ◌+◌, ◌≡◌, sym, ap, subst, Bool, false, not, ◌||◌, Option, none, some, List, [], ◌∷◌, arith,
  inl, inr, ltb, length, IsIn, ok, ok_inj, map_err, and_then-ok, reject_if, checked_add, u64_max,
}
use revoot.Text.{str_eq}
use revoot.Findings.{
  Finding, FindingsEnvelope, current_schema, max_work_unit_id_bytes, valid_label, max_findings,
  max_summary_bytes, validate_finding, validate_findings, validate, FindingsValidationError,
  map_content_error,
}
use revoot.Findings.Content.{validate_markdown}
use revoot.Findings.Pipeline.{FindingsPipelineError, or_error, review_finding_limit}

pub or_error-ok :
    {A : Type 0} (e : FindingsPipelineError) (o : Option A) {a : A}
    → or_error e o ≡ ok a
    → o ≡ some a
or_error-ok e none h = cc
or_error-ok e (some a) h = ap some (ok_inj h)

pub validate_findings-each :
    (fs : List Finding) (f : Finding)
    → validate_findings fs ≡ ok tt
    → IsIn f fs
    → validate_finding f ≡ ok tt
unfolding validate_findings
validate_findings-each [] f h i = elim i [ ]
validate_findings-each (g ∷ fs) f h (inl e) =
    subst (λ f. validate_finding f ≡ ok tt) (sym e) (and_then-ok (validate_finding g) _ h).1
validate_findings-each (g ∷ fs) f h (inr i) =
    validate_findings-each fs f (and_then-ok (validate_finding g) _ h).2 i

pub validate-findings :
    (e : FindingsEnvelope) → validate e ≡ ok tt → validate_findings e.findings ≡ ok tt
unfolding validate
validate-findings e h =
    let s1 =
      and_then-ok
        (reject_if (not (str_eq e.schema_version current_schema))
          FindingsValidationError.schema_version)
        _ h in
    let s2 =
      and_then-ok
        (reject_if (not (valid_label e.work_unit_id max_work_unit_id_bytes))
          FindingsValidationError.work_unit_id)
        _ s1.2 in
    let s3 =
      and_then-ok
        (reject_if (ltb max_findings (length e.findings)) FindingsValidationError.too_many_findings)
        _ s2.2 in
    let s4 =
      and_then-ok
        (map_err (map_content_error FindingsValidationError.summary)
          (validate_markdown e.summary max_summary_bytes))
        _ s3.2 in
    s4.2

pub counted_one :
    (n : ℕ) {m : ℕ} → or_error review_finding_limit (checked_add u64_max n 1) ≡ ok m → m ≡ n + 1
counted_one n h = ground arith

pub not_both : (b c : Bool) → b || c ≡ false → c ≡ false
not_both b c h = ground arith

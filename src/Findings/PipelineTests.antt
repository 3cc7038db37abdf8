-- ===== src/Findings/PipelineTests.antt =====
-- The pipeline of findings, at one envelope with one finding.
use revoot.Prelude.{ℕ, ◌+◌, ◌≤◌, ◌≡◌, refl, none, List, [], ◌∷◌, All, length, ok}
use revoot.Text.{lit}
use revoot.Text.Trim.{to_ascii_lowercase}
use revoot.Snapshot.{Sha256Digest}
use revoot.Snapshot.Position.{addition}
use revoot.Snapshot.Anchors.{AnchorId, AnchorTable, TrustedAnchor}
use revoot.Snapshot.Samples.{review_identity, source_path}
use revoot.Findings.{Finding, FindingsEnvelope, high, low, security, performance}
use revoot.Findings.Ranking.{RankedFinding, rankable_finding}
use revoot.Findings.Pipeline.{IssuedWorkUnitAnchors, RankedFindings, validate_rank_and_render}
use revoot.Findings.Ranked.{IsUnrepeated, IsInOrder}
use revoot.Findings.Sorted.{validate_rank_and_render-IsInOrder}
use revoot.Findings.Traced.{IsTraced, total_findings, validate_rank_and_render-IsTraced}

-- The hasher stands for SHA-256.
abbrev one_hash : List ℕ → Sha256Digest
one_hash input = record { as_str = lit "d0" }

abbrev id : AnchorId
id = record { as_str = lit "ga1_00112233445566778899aabbccddeeff00112233445566778899aabbccddeeff" }

abbrev anchor : TrustedAnchor
anchor = record {
  id = id;
  path = source_path;
  position = addition 5;
  exact_line_digest = one_hash [];
  context_digest = one_hash [];
}

abbrev table : AnchorTable
table = record { identity = review_identity; anchors = anchor ∷ [] }

abbrev leak : Finding
leak = record {
  anchor_id = id.as_str;
  severity = high;
  confidence_percent = 90;
  category = security;
  title = lit "Token leak";
  explanation = lit "The token is logged.";
  evidence = lit "See the call.";
  lineage_id = none;
  suggested_replacement = none;
}

abbrev unit_envelope : FindingsEnvelope
unit_envelope = record {
  schema_version = lit "revoot.findings/v1";
  work_unit_id = lit "unit-1";
  findings = leak ∷ [];
  summary = lit "One leak.";
}

abbrev issued : IssuedWorkUnitAnchors
issued = (lit "unit-1", id ∷ []) ∷ []

abbrev published : RankedFindings
published = record {
  findings =
      rankable_finding one_hash to_ascii_lowercase (lit "unit-1") id anchor review_identity leak
      ∷ [];
  unit_summaries = (lit "unit-1", lit "One leak.") ∷ [];
  duplicates_omitted = 0;
}

leak_published :
    validate_rank_and_render one_hash to_ascii_lowercase table 10 (unit_envelope ∷ []) issued
    ≡ ok published
unfolding validate_rank_and_render
leak_published = refl

validate_rank_and_render-IsTraced_example :
    All (IsTraced one_hash to_ascii_lowercase table issued (unit_envelope ∷ [])) published.findings
    × (length published.findings + 0 ≡ total_findings (unit_envelope ∷ []))
    × (total_findings (unit_envelope ∷ []) ≤ 10)
    × (10 ≤ 250)
validate_rank_and_render-IsTraced_example =
    validate_rank_and_render-IsTraced one_hash to_ascii_lowercase table issued (unit_envelope ∷ [])
      10 {r = published} leak_published

-- A hasher that stands for SHA-256 and tells its inputs apart.
abbrev shown : List ℕ → Sha256Digest
shown input = record { as_str = input }

abbrev doubtful : Finding
doubtful = record leak { confidence_percent = 40 }

abbrev slow : Finding
slow = record leak { severity = low; category = performance; title = lit "Slow loop" }

abbrev ranked_by_shown : Finding → RankedFinding
ranked_by_shown f =
    rankable_finding shown to_ascii_lowercase (lit "unit-1") id anchor review_identity f

abbrev in_order : RankedFindings
in_order = record {
  findings = ranked_by_shown leak ∷ ranked_by_shown slow ∷ [];
  unit_summaries = (lit "unit-1", lit "One leak.") ∷ [];
  duplicates_omitted = 1;
}

abbrev three_envelope : FindingsEnvelope
three_envelope = record unit_envelope { findings = slow ∷ doubtful ∷ leak ∷ [] }

three_published :
    validate_rank_and_render shown to_ascii_lowercase table 10 (three_envelope ∷ []) issued
    ≡ ok in_order
unfolding validate_rank_and_render
three_published = refl

validate_rank_and_render-IsInOrder_example :
    IsUnrepeated in_order.findings × IsInOrder in_order.findings
validate_rank_and_render-IsInOrder_example =
    validate_rank_and_render-IsInOrder shown to_ascii_lowercase table 10 issued
      (three_envelope ∷ []) {r = in_order} three_published

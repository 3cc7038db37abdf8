-- ===== src/Findings/Pipeline.antt =====
-- crates/revoot-core/src/findings.rs: from the envelopes of a review to its ranked findings.
use revoot.Prelude.{
  ℕ, not, ◌||◌, Option, none, some, List, [], ◌∷◌, ltb, ◌==◌, any, length, if◌then◌else◌, Result,
  ok, err, and_then, map_err, reject_if, checked_add, u32_max, u64_max,
}
use revoot.Text.{Str, str_eq}
use revoot.Map.{Map, lookup}
use revoot.Map as Map
use revoot.Set.{Key, key_eq, find, insert}
use revoot.Snapshot.{Sha256Digest}
use revoot.Snapshot.Anchors.{AnchorId, anchor_id, AnchorTable, resolve}
use revoot.Findings.{Finding, FindingsEnvelope, FindingsValidationError, validate}
use revoot.Findings.Render.{render_safe_markdown}
use revoot.Findings.Ranking.{RankedFinding, preferred, rankable_finding}

abbrev pub max_review_findings : ℕ
max_review_findings = 250

abbrev pub IssuedWorkUnitAnchors : Type 0
IssuedWorkUnitAnchors = Map (List AnchorId)

pub record RankedFindings : Type 0 where
  pub findings : List RankedFinding
  pub unit_summaries : Map Str
  pub duplicates_omitted : ℕ  -- u32

pub data FindingsPipelineError : Type 0 where
  envelope : FindingsValidationError → FindingsPipelineError
  duplicate_work_unit unknown_work_unit invalid_anchor_shape : FindingsPipelineError
  anchor_not_issued anchor_not_trusted review_finding_limit : FindingsPipelineError
  duplicate_overflow : FindingsPipelineError

-- the maps and counters of the loops
pub record Ranking : Type 0 where
  pub seen_units : List Str
  pub summaries : Map Str
  pub by_key : List RankedFinding
  pub duplicates : ℕ  -- u32
  pub input_findings : ℕ  -- usize

abbrev pub no_ranking : Ranking
no_ranking = record {
  seen_units = [];
  summaries = [];
  by_key = [];
  duplicates = 0;
  input_findings = 0;
}

abbrev pub ranked_key : RankedFinding → Key
ranked_key r = r.finding_key.as_str ∷ []

abbrev pub or_error {ℓ} :
    {A : Type ℓ} → FindingsPipelineError → Option A → Result FindingsPipelineError A
or_error e none = err e
or_error e (some a) = ok a

-- `insert` on an occupied entry
unfoldable pub replace : RankedFinding → List RankedFinding → List RankedFinding
unfolding key_eq
replace r [] = []
replace r (s ∷ rest) =
    let others = replace r rest in
    if key_eq (ranked_key s) (ranked_key r) then r ∷ rest else s ∷ others

-- the `match` on the entry of a finding's key
unfoldable pub enter : RankedFinding → Ranking → Result FindingsPipelineError Ranking
unfolding find insert replace preferred
enter ranked r = elim (find ranked_key (ranked_key ranked) r.by_key) [
  | none ↦ ok (record r { by_key = insert ranked_key ranked r.by_key })
  | some there ↦
      and_then (or_error duplicate_overflow (checked_add u32_max r.duplicates 1)) λ duplicates.
        ok (record r {
          duplicates = duplicates;
          by_key = if preferred ranked there then replace ranked r.by_key else r.by_key;
        })
]

-- `sort_by(ranked_preference)`
unfoldable pub insert_ranked : RankedFinding → List RankedFinding → List RankedFinding
unfolding preferred
insert_ranked r [] = r ∷ []
insert_ranked r (s ∷ rest) =
    let later = insert_ranked r rest in if preferred s r then s ∷ later else r ∷ s ∷ rest

unfoldable pub sort_ranked : List RankedFinding → List RankedFinding
unfolding insert_ranked
sort_ranked [] = []
sort_ranked (r ∷ rs) = insert_ranked r (sort_ranked rs)

module _ (sha256 : List ℕ → Sha256Digest) (to_lowercase : Str → Str) (anchors : AnchorTable)
    (limit : ℕ) where
  -- one round of the loop over the findings of an envelope
  unfoldable pub rank_finding :
      Str → List AnchorId → Finding → Ranking → Result FindingsPipelineError Ranking
  unfolding anchor_id resolve rankable_finding enter str_eq
  rank_finding unit allowed f r =
      and_then (or_error review_finding_limit (checked_add u64_max r.input_findings 1)) λ count.
        and_then (reject_if (ltb limit count) review_finding_limit) λ _.
          and_then (map_err (λ _. invalid_anchor_shape) (anchor_id f.anchor_id)) λ id.
            and_then
              (reject_if (not (any (λ a. str_eq a.as_str id.as_str) allowed)) anchor_not_issued)
              λ _. and_then (or_error anchor_not_trusted (resolve anchors id.as_str)) λ anchor.
                enter (rankable_finding sha256 to_lowercase unit id anchor anchors.identity f)
                  (record r { input_findings = count })

  unfoldable pub rank_findings :
      Str → List AnchorId → List Finding → Ranking → Result FindingsPipelineError Ranking
  unfolding rank_finding
  rank_findings unit allowed [] r = ok r
  rank_findings unit allowed (f ∷ fs) r =
      and_then (rank_finding unit allowed f r) λ s. rank_findings unit allowed fs s

  -- one round of the loop over the envelopes
  unfoldable pub rank_envelope :
      IssuedWorkUnitAnchors → FindingsEnvelope → Ranking → Result FindingsPipelineError Ranking
  unfolding validate lookup Map.insert rank_findings render_safe_markdown str_eq
  rank_envelope issued e r = and_then (map_err envelope (validate e)) λ _.
      and_then (reject_if (any (λ id. str_eq id e.work_unit_id) r.seen_units) duplicate_work_unit)
        λ _. and_then (or_error unknown_work_unit (lookup e.work_unit_id issued)) λ allowed.
          rank_findings e.work_unit_id allowed e.findings (record r {
            seen_units = e.work_unit_id ∷ r.seen_units;
            summaries = Map.insert e.work_unit_id (render_safe_markdown e.summary) r.summaries;
          })

  unfoldable pub rank_envelopes :
      IssuedWorkUnitAnchors → List FindingsEnvelope → Ranking → Result FindingsPipelineError Ranking
  unfolding rank_envelope
  rank_envelopes issued [] r = ok r
  rank_envelopes issued (e ∷ es) r =
      and_then (rank_envelope issued e r) λ s. rank_envelopes issued es s

  unfoldable pub validate_rank_and_render :
      List FindingsEnvelope → IssuedWorkUnitAnchors → Result FindingsPipelineError RankedFindings
  unfolding rank_envelopes sort_ranked
  validate_rank_and_render envelopes issued =
      and_then (reject_if (limit == 0 || ltb max_review_findings limit) review_finding_limit) λ _.
        and_then (rank_envelopes issued envelopes no_ranking) λ r.
          and_then (reject_if (ltb limit (length r.by_key)) review_finding_limit) λ _. ok (record {
            findings = sort_ranked r.by_key;
            unit_summaries = r.summaries;
            duplicates_omitted = r.duplicates;
          })

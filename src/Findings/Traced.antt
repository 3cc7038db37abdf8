-- ===== src/Findings/Traced.antt =====
-- crates/revoot-core/src/findings.rs: where the findings of a review come from.
use revoot.Prelude.{
  unnegated, ℕ, ◌+◌, ◌≤◌, ◌≡◌, ◌∙◌, refl, subst, true, false, not, ◌||◌, some, List, [], ◌∷◌, arith,
  inl, inr, ltb, ◌==◌, length, any, All, IsIn, ok, ok_inj, map_err, map_err-ok, and_then-ok,
  reject_if, reject_if-ok, checked_add, u64_max,
}
use revoot.Text.{Str, str_eq}
use revoot.Text.Search.{contains}
use revoot.Map.{lookup}
use revoot.Snapshot.{Sha256Digest}
use revoot.Snapshot.Anchors.{AnchorId, anchor_id, AnchorTable, TrustedAnchor, resolve}
use revoot.Findings.{Finding, FindingsEnvelope, validate}
use revoot.Findings.Content.{revoot_marker_prefix}
use revoot.Findings.Render.Safety.{render_finding_unmarked}
use revoot.Findings.Ranking.{RankedFinding, rankable_finding}
use revoot.Findings.Pipeline.{
  IssuedWorkUnitAnchors, RankedFindings, Ranking, no_ranking, or_error, max_review_findings,
  rank_finding, rank_findings, rank_envelope, rank_envelopes, validate_rank_and_render, envelope,
  duplicate_work_unit, unknown_work_unit, invalid_anchor_shape, anchor_not_issued,
  anchor_not_trusted, review_finding_limit,
}
use revoot.Findings.Passed.{
  or_error-ok, validate_findings-each, validate-findings, counted_one, not_both,
}
use revoot.Findings.Entries.{length-sort_ranked, All-sort_ranked, enter-IsEntered}

abbrev pub total_findings : List FindingsEnvelope → ℕ
total_findings [] = 0
total_findings (e ∷ es) = length e.findings + total_findings es

module _ (sha256 : List ℕ → Sha256Digest) (to_lowercase : Str → Str) (anchors : AnchorTable)
    (issued : IssuedWorkUnitAnchors) (envelopes : List FindingsEnvelope) where
  -- A finding of a valid envelope, at an anchor that was issued to its work unit and is trusted.
  pub record IsTraced (r : RankedFinding) : Type 0 where
    pub source : FindingsEnvelope
    pub among : IsIn source envelopes
    pub valid : validate source ≡ ok tt
    pub finding : Finding
    pub within : IsIn finding source.findings
    pub allowed : List AnchorId
    pub of_unit : lookup source.work_unit_id issued ≡ some allowed
    pub id : AnchorId
    pub shaped : anchor_id finding.anchor_id ≡ ok id
    pub permitted : any (λ a. str_eq a.as_str id.as_str) allowed ≡ true
    pub anchor : TrustedAnchor
    pub trusted : resolve anchors id.as_str ≡ some anchor
    pub ranked :
        r
        ≡ rankable_finding sha256 to_lowercase source.work_unit_id id anchor anchors.identity
            finding
    pub unmarked : contains r.rendered_body revoot_marker_prefix ≡ false

  -- each entry is traced, and every finding that was given is an entry or a duplicate
  record IsAccounted (limit : ℕ) (r : Ranking) : Type 0 where
    each : All IsTraced r.by_key
    counted : length r.by_key + r.duplicates ≡ r.input_findings
    within_limit : r.input_findings ≤ limit

  module _ (limit : ℕ) where
    unlimited : (n : ℕ) → ltb limit n ≡ false → n ≤ limit
    unlimited n h = ground arith

    -- a finding that is ranked is accounted for
    rank_finding-IsAccounted :
        (e : FindingsEnvelope) (allowed : List AnchorId) (f : Finding) (r : Ranking) {s : Ranking}
        → IsIn e envelopes
        → validate e ≡ ok tt
        → lookup e.work_unit_id issued ≡ some allowed
        → IsIn f e.findings
        → IsAccounted limit r
        → rank_finding sha256 to_lowercase anchors limit e.work_unit_id allowed f r ≡ ok s
        → IsAccounted limit s × (s.input_findings ≡ r.input_findings + 1)
    unfolding rank_finding rankable_finding
    rank_finding-IsAccounted e allowed f r {s} among valid of_unit within sound h =
        let s1 =
          and_then-ok (or_error review_finding_limit (checked_add u64_max r.input_findings 1)) _
            h in
        let s2 = and_then-ok (reject_if (ltb limit s1.0) review_finding_limit) _ s1.2 in
        let s3 = and_then-ok (map_err (λ _. invalid_anchor_shape) (anchor_id f.anchor_id)) _ s2.2 in
        let s4 =
          and_then-ok
            (reject_if (not (any (λ a. str_eq a.as_str s3.0.as_str) allowed)) anchor_not_issued) _
            s3.2 in
        let s5 = and_then-ok (or_error anchor_not_trusted (resolve anchors s3.0.as_str)) _ s4.2 in
        let entry =
          rankable_finding sha256 to_lowercase e.work_unit_id s3.0 s5.0 anchors.identity f in
        let count = counted_one r.input_findings s1.1 in
        let traced : IsTraced entry = record {
          source = e;
          among = among;
          valid = valid;
          finding = f;
          within = within;
          allowed = allowed;
          of_unit = of_unit;
          id = s3.0;
          shaped = map_err-ok _ (anchor_id f.anchor_id) s3.1;
          permitted = unnegated _ (reject_if-ok _ anchor_not_issued s4.1);
          anchor = s5.0;
          trusted = or_error-ok anchor_not_trusted (resolve anchors s3.0.as_str) s5.1;
          ranked = refl;
          unmarked =
              render_finding_unmarked f
                (validate_findings-each e.findings f (validate-findings e valid) within);
        } in
        let entered =
          enter-IsEntered IsTraced entry (record r { input_findings = s1.0 }) {s = s} traced
            sound.each s5.2 in
        (
          record {
            each = entered.each;
            counted = omega (arith, entered.counted, sound.counted, entered.given, count);
            within_limit =
                omega
                  (arith, entered.given, unlimited s1.0 (reject_if-ok _ review_finding_limit s2.1));
          },
          entered.given ∙ count,
        )

    rank_findings-IsAccounted :
        (e : FindingsEnvelope) (allowed : List AnchorId) (fs : List Finding) (r : Ranking)
        {s : Ranking}
        → IsIn e envelopes
        → validate e ≡ ok tt
        → lookup e.work_unit_id issued ≡ some allowed
        → ((f : Finding) → IsIn f fs → IsIn f e.findings)
        → IsAccounted limit r
        → rank_findings sha256 to_lowercase anchors limit e.work_unit_id allowed fs r ≡ ok s
        → IsAccounted limit s × (s.input_findings ≡ r.input_findings + length fs)
    unfolding rank_findings
    rank_findings-IsAccounted e allowed [] r among valid of_unit within sound h =
        subst (λ s. IsAccounted limit s × (s.input_findings ≡ r.input_findings + 0)) (ok_inj h)
          (sound, omega arith)
    rank_findings-IsAccounted e allowed (f ∷ fs) r {s} among valid of_unit within sound h =
        let t =
          and_then-ok (rank_finding sha256 to_lowercase anchors limit e.work_unit_id allowed f r) _
            h in
        let one =
          rank_finding-IsAccounted e allowed f r {s = t.0} among valid of_unit (within f (inl refl))
            sound t.1 in
        let rest =
          rank_findings-IsAccounted e allowed fs t.0 {s = s} among valid of_unit
            (λ g i. within g (inr i)) one.0 t.2 in
        (rest.0, omega (arith, rest.1, one.1))

    rank_envelope-IsAccounted :
        (e : FindingsEnvelope) (r : Ranking) {s : Ranking}
        → IsIn e envelopes
        → IsAccounted limit r
        → rank_envelope sha256 to_lowercase anchors limit issued e r ≡ ok s
        → IsAccounted limit s × (s.input_findings ≡ r.input_findings + length e.findings)
    unfolding rank_envelope
    rank_envelope-IsAccounted e r {s} among sound h =
        let s1 = and_then-ok (map_err envelope (validate e)) _ h in
        let s2 =
          and_then-ok
            (reject_if (any (λ id. str_eq id e.work_unit_id) r.seen_units) duplicate_work_unit) _
            s1.2 in
        let s3 = and_then-ok (or_error unknown_work_unit (lookup e.work_unit_id issued)) _ s2.2 in
        rank_findings-IsAccounted e s3.0 e.findings _ {s = s} among
          (map_err-ok envelope (validate e) s1.1)
          (or_error-ok unknown_work_unit (lookup e.work_unit_id issued) s3.1) (λ f i. i)
          (record { each = sound.each; counted = sound.counted; within_limit = sound.within_limit })
          s3.2

    rank_envelopes-IsAccounted :
        (es : List FindingsEnvelope) (r : Ranking) {s : Ranking}
        → ((e : FindingsEnvelope) → IsIn e es → IsIn e envelopes)
        → IsAccounted limit r
        → rank_envelopes sha256 to_lowercase anchors limit issued es r ≡ ok s
        → IsAccounted limit s × (s.input_findings ≡ r.input_findings + total_findings es)
    unfolding rank_envelopes
    rank_envelopes-IsAccounted [] r among sound h =
        subst (λ s. IsAccounted limit s × (s.input_findings ≡ r.input_findings + 0)) (ok_inj h)
          (sound, omega arith)
    rank_envelopes-IsAccounted (e ∷ es) r {s} among sound h =
        let t = and_then-ok (rank_envelope sha256 to_lowercase anchors limit issued e r) _ h in
        let one = rank_envelope-IsAccounted e r {s = t.0} (among e (inl refl)) sound t.1 in
        let rest = rank_envelopes-IsAccounted es t.0 {s = s} (λ g i. among g (inr i)) one.0 t.2 in
        (rest.0, omega (arith, rest.1, one.1))

    bounded : ltb max_review_findings limit ≡ false → limit ≤ 250
    bounded h = ground arith

    -- Findings that are published come from what was given: each is of a valid envelope, at an anchor
    -- that was issued to the work unit of the envelope and resolves to a trusted anchor, and its text,
    -- rendered from it, lacks the marker of Revoot's own comments. Every finding that was given is
    -- published or counted as a duplicate, and they are no more than the limit, which is at most 250.
    pub validate_rank_and_render-IsTraced :
        {r : RankedFindings}
        → validate_rank_and_render sha256 to_lowercase anchors limit envelopes issued ≡ ok r
        → All IsTraced r.findings
          × (length r.findings + r.duplicates_omitted ≡ total_findings envelopes)
          × (total_findings envelopes ≤ limit)
          × (limit ≤ 250)
    unfolding validate_rank_and_render
    validate_rank_and_render-IsTraced {r} h =
        let s1 =
          and_then-ok (reject_if (limit == 0 || ltb max_review_findings limit) review_finding_limit)
            _ h in
        let s2 =
          and_then-ok (rank_envelopes sha256 to_lowercase anchors limit issued envelopes no_ranking)
            _ s1.2 in
        let s3 =
          and_then-ok (reject_if (ltb limit (length s2.0.by_key)) review_finding_limit) _ s2.2 in
        let done =
          rank_envelopes-IsAccounted envelopes no_ranking {s = s2.0} (λ e i. i)
            (record { each = tt; counted = refl; within_limit = omega arith }) s2.1 in
        let made = ok_inj s3.2 in
        subst
          (λ r.
            All IsTraced r.findings
            × (length r.findings + r.duplicates_omitted ≡ total_findings envelopes)
            × (total_findings envelopes ≤ limit)
            × (limit ≤ 250))
          made
          (
            All-sort_ranked IsTraced s2.0.by_key done.0.each,
            omega (arith, length-sort_ranked s2.0.by_key, done.0.counted, done.1),
            omega (arith, done.0.within_limit, done.1),
            bounded (not_both _ _ (reject_if-ok _ review_finding_limit s1.1)),
          )

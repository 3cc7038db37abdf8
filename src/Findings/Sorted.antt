-- ===== src/Findings/Sorted.antt =====
-- crates/revoot-core/src/findings.rs: that a review is published in order.
use revoot.Prelude.{
  ℕ, ◌≡◌, subst, not, ◌||◌, List, [], ◌∷◌, ltb, ◌==◌, length, any, ok, ok_inj, map_err, and_then-ok,
  reject_if, checked_add, u64_max,
}
use revoot.Text.{Str, str_eq}
use revoot.Map.{lookup}
use revoot.Snapshot.{Sha256Digest}
use revoot.Snapshot.Anchors.{AnchorId, anchor_id, AnchorTable, resolve}
use revoot.Findings.{Finding, FindingsEnvelope, validate}
use revoot.Findings.Ranking.{rankable_finding}
use revoot.Findings.Pipeline.{
  IssuedWorkUnitAnchors, RankedFindings, Ranking, no_ranking, or_error, max_review_findings,
  rank_finding, rank_findings, rank_envelope, rank_envelopes, validate_rank_and_render, envelope,
  duplicate_work_unit, unknown_work_unit, invalid_anchor_shape, anchor_not_issued,
  anchor_not_trusted, review_finding_limit,
}
use revoot.Findings.Ranked.{
  IsUnrepeated, IsInOrder, sort_ranked-IsUnrepeated, sort_ranked-IsInOrder, enter-IsUnrepeated,
}

module _ (sha256 : List ℕ → Sha256Digest) (to_lowercase : Str → Str) (anchors : AnchorTable)
    (limit : ℕ) (issued : IssuedWorkUnitAnchors) where
  rank_finding-IsUnrepeated :
      (unit : Str) (allowed : List AnchorId) (f : Finding) (r : Ranking) {s : Ranking}
      → IsUnrepeated r.by_key
      → rank_finding sha256 to_lowercase anchors limit unit allowed f r ≡ ok s
      → IsUnrepeated s.by_key
  unfolding rank_finding
  rank_finding-IsUnrepeated unit allowed f r {s} d h =
      let s1 =
        and_then-ok (or_error review_finding_limit (checked_add u64_max r.input_findings 1)) _ h in
      let s2 = and_then-ok (reject_if (ltb limit s1.0) review_finding_limit) _ s1.2 in
      let s3 = and_then-ok (map_err (λ _. invalid_anchor_shape) (anchor_id f.anchor_id)) _ s2.2 in
      let s4 =
        and_then-ok
          (reject_if (not (any (λ a. str_eq a.as_str s3.0.as_str) allowed)) anchor_not_issued) _
          s3.2 in
      let s5 = and_then-ok (or_error anchor_not_trusted (resolve anchors s3.0.as_str)) _ s4.2 in
      enter-IsUnrepeated (rankable_finding sha256 to_lowercase unit s3.0 s5.0 anchors.identity f)
        (record r { input_findings = s1.0 }) {s = s} d s5.2

  rank_findings-IsUnrepeated :
      (unit : Str) (allowed : List AnchorId) (fs : List Finding) (r : Ranking) {s : Ranking}
      → IsUnrepeated r.by_key
      → rank_findings sha256 to_lowercase anchors limit unit allowed fs r ≡ ok s
      → IsUnrepeated s.by_key
  unfolding rank_findings
  rank_findings-IsUnrepeated unit allowed [] r d h = subst (λ s. IsUnrepeated s.by_key) (ok_inj h) d
  rank_findings-IsUnrepeated unit allowed (f ∷ fs) r {s} d h =
      let t = and_then-ok (rank_finding sha256 to_lowercase anchors limit unit allowed f r) _ h in
      rank_findings-IsUnrepeated unit allowed fs t.0 {s = s}
        (rank_finding-IsUnrepeated unit allowed f r {s = t.0} d t.1) t.2

  rank_envelope-IsUnrepeated :
      (e : FindingsEnvelope) (r : Ranking) {s : Ranking}
      → IsUnrepeated r.by_key
      → rank_envelope sha256 to_lowercase anchors limit issued e r ≡ ok s
      → IsUnrepeated s.by_key
  unfolding rank_envelope
  rank_envelope-IsUnrepeated e r {s} d h =
      let s1 = and_then-ok (map_err envelope (validate e)) _ h in
      let s2 =
        and_then-ok
          (reject_if (any (λ id. str_eq id e.work_unit_id) r.seen_units) duplicate_work_unit) _
          s1.2 in
      let s3 = and_then-ok (or_error unknown_work_unit (lookup e.work_unit_id issued)) _ s2.2 in
      rank_findings-IsUnrepeated e.work_unit_id s3.0 e.findings _ {s = s} d s3.2

  rank_envelopes-IsUnrepeated :
      (es : List FindingsEnvelope) (r : Ranking) {s : Ranking}
      → IsUnrepeated r.by_key
      → rank_envelopes sha256 to_lowercase anchors limit issued es r ≡ ok s
      → IsUnrepeated s.by_key
  unfolding rank_envelopes
  rank_envelopes-IsUnrepeated [] r d h = subst (λ s. IsUnrepeated s.by_key) (ok_inj h) d
  rank_envelopes-IsUnrepeated (e ∷ es) r {s} d h =
      let t = and_then-ok (rank_envelope sha256 to_lowercase anchors limit issued e r) _ h in
      rank_envelopes-IsUnrepeated es t.0 {s = s} (rank_envelope-IsUnrepeated e r {s = t.0} d t.1)
        t.2

  -- Findings that are published have different keys, and none is preferred to the one before it.
  pub validate_rank_and_render-IsInOrder :
      (envelopes : List FindingsEnvelope) {r : RankedFindings}
      → validate_rank_and_render sha256 to_lowercase anchors limit envelopes issued ≡ ok r
      → IsUnrepeated r.findings × IsInOrder r.findings
  unfolding validate_rank_and_render
  validate_rank_and_render-IsInOrder envelopes {r} h =
      let s1 =
        and_then-ok (reject_if (limit == 0 || ltb max_review_findings limit) review_finding_limit) _
          h in
      let s2 =
        and_then-ok (rank_envelopes sha256 to_lowercase anchors limit issued envelopes no_ranking) _
          s1.2 in
      let s3 =
        and_then-ok (reject_if (ltb limit (length s2.0.by_key)) review_finding_limit) _ s2.2 in
      let d = rank_envelopes-IsUnrepeated envelopes no_ranking {s = s2.0} tt s2.1 in
      subst (λ r. IsUnrepeated r.findings × IsInOrder r.findings) (ok_inj s3.2)
        (sort_ranked-IsUnrepeated s2.0.by_key d, sort_ranked-IsInOrder s2.0.by_key)

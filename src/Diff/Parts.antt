-- ===== src/Diff/Parts.antt =====
-- crates/revoot-core/src/diff.rs: what has been read of a hunk, from its first line to its end.
use revoot.Prelude.{
  ℕ, ◌≡◌, ◌∙◌, refl, sym, ap, subst, Bool-cases, List, [], ◌∷◌, ◌++◌, arith, ok, ok_inj,
  if◌then◌else◌, ltb, leb, length, u32_max, and_then-ok, inl, inr,
}
use revoot.Text.{Str, str_eq, str_eq_iff}
use revoot.Snapshot.Change.{ChangedPath}
use revoot.Diff.{UnifiedDiffLimits, refuse_if, too_many_lines_in_hunk}
use revoot.Diff.Header.{HunkHeader, is_hunk_header, reject_unsupported}
use revoot.Diff.Hunk.{
  HunkLine, HunkAccounting, new_accounting, mismatch, consume, MarkerState, no_record, content_read,
  marker_read, apply_no_newline_marker,
}
use revoot.Diff.Hunks.{
  IsNumbered, IsNumbered-append, old_lines, new_lines, old_lines-append, new_lines-append, prefix,
  marker_of, printed,
}
use revoot.Diff.Rounds.{no_newline_marker, hunk_round}
use revoot.Diff.Stepped.{IsCounted, IsConsumed}
use revoot.Diff.Consumed.{consume-IsConsumed}
use revoot.Diff.Marks.{
  Marks, at_start, after_content, after_marker, IsMarking, apply_no_newline_marker-IsMarking,
  printed-append,
}

-- The account, the records and the marker agree.
pub record IsPart (path : ChangedPath) (header : HunkHeader) (a : HunkAccounting)
    (records : List HunkLine) (state : MarkerState) : Type 0 where
  pub same_header : a.header ≡ header
  pub counted : IsCounted a
  pub numbered : IsNumbered path header.old.first header.new.first records
  pub old_seen : a.old_seen ≡ old_lines records
  pub new_seen : a.new_seen ≡ new_lines records
  pub marks : Marks state records

pub new_accounting-IsPart :
    (path : ChangedPath) (header : HunkHeader)
    → IsPart path header (new_accounting header) [] no_record
new_accounting-IsPart path header = record {
  same_header = refl;
  counted = record {
    old_within = omega arith;
    new_within = omega arith;
    old_next = inr (omega arith);
    new_next = inr (omega arith);
  };
  numbered = tt;
  old_seen = refl;
  new_seen = refl;
  marks = at_start;
}

IsPart-marking :
    (path : ChangedPath) (header : HunkHeader) (a : HunkAccounting)
    (records marking : List HunkLine) (state : MarkerState)
    → IsPart path header a records state
    → IsMarking path header.old.first header.new.first records marking
    → IsPart path header a marking marker_read
IsPart-marking path header a records marking state p m = record {
  same_header = p.same_header;
  counted = p.counted;
  numbered = m.numbered;
  old_seen = p.old_seen ∙ sym m.old_same;
  new_seen = p.new_seen ∙ sym m.new_same;
  marks = after_marker marking;
}

IsPart-consumed :
    (path : ChangedPath) (header : HunkHeader) (a b : HunkAccounting) (records : List HunkLine)
    (state : MarkerState) (line : Str) (r : HunkLine)
    → IsPart path header a records state
    → IsConsumed path line a r b
    → IsPart path header b (records ++ r ∷ []) content_read
IsPart-consumed path header a b records state line r p c = record {
  same_header = c.header ∙ p.same_header;
  counted = c.counted;
  numbered =
      IsNumbered-append path header.old.first header.new.first records r p.numbered
        (c.position ∙ rw (p.same_header, p.old_seen, p.new_seen) refl) c.valid;
  old_seen = c.old_seen ∙ omega (arith, p.old_seen, old_lines-append records r);
  new_seen = c.new_seen ∙ omega (arith, p.new_seen, new_lines-append records r);
  marks = after_content records r c.unmarked;
}

-- What a round makes of the line it reads.
pub record IsRound (path : ChangedPath) (header : HunkHeader) (line : Str) (records : List HunkLine)
    (after : HunkAccounting × List HunkLine × MarkerState) : Type 0 where
  pub part : IsPart path header after.0 after.1 after.2
  pub printing : printed after.1 ≡ printed records ++ line ∷ []

pub hunk_round-IsRound :
    (path : ChangedPath) (limits : UnifiedDiffLimits) (header : HunkHeader) (line : Str)
    (number : ℕ) (a : HunkAccounting) (records : List HunkLine) (state : MarkerState)
    {after : HunkAccounting × List HunkLine × MarkerState}
    → IsPart path header a records state
    → hunk_round path limits line number a records state ≡ ok after
    → IsRound path header line records after
unfolding hunk_round
hunk_round-IsRound path limits header line number a records state p e =
    let s1 = and_then-ok (reject_unsupported line number) _ e in
    let s2 = and_then-ok (refuse_if (is_hunk_header line) (mismatch a)) _ s1.2 in
    elim (Bool-cases (str_eq line no_newline_marker)) [
      | inl same ↦
          let s3 = and_then-ok (apply_no_newline_marker records state number) _ (rw same at s2.2) in
          let m =
            apply_no_newline_marker-IsMarking path header.old.first header.new.first records state
              number p.marks p.numbered s3.1 in
          subst (IsRound path header line records) (ok_inj s3.2) (record {
            part = IsPart-marking path header a records s3.0 state p m;
            printing =
                m.printing
                ∙ ap (λ l. printed records ++ l ∷ [])
                    (sym ((str_eq_iff line no_newline_marker).0 same));
          })
      | inr other ↦
          let s3 = and_then-ok (consume path line number a) _ (rw other at s2.2) in
          let s4 =
            and_then-ok
              (refuse_if
                (ltb limits.max_lines_per_hunk (
                  if leb (length (records ++ s3.0.0 ∷ [])) u32_max
                  then length (records ++ s3.0.0 ∷ [])
                  else u32_max))
                (too_many_lines_in_hunk a.header.line limits.max_lines_per_hunk))
              _ s3.2 in
          let c = consume-IsConsumed path line number a p.counted s3.1 in
          subst (IsRound path header line records) (ok_inj s4.2) (record {
            part = IsPart-consumed path header a s3.0.1 records state line s3.0.0 p c;
            printing =
                printed-append records s3.0.0
                ∙ ap (λ l. printed records ++ l)
                    (ap (λ b. (prefix s3.0.0.kind ∷ s3.0.0.content) ∷ marker_of b) c.unmarked
                      ∙ ap (λ l. l ∷ []) (sym c.spelled));
          })
    ]

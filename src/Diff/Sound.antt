-- ===== src/Diff/Sound.antt =====
-- crates/revoot-core/src/diff.rs: a parsed diff against the hunks that its lines spell.
use revoot.Prelude.{
  ℕ, zero, suc, ◌+◌, ◌<◌, ◌≡◌, ◌∙◌, refl, sym, ap, subst, false, Bool-cases, List, [], ◌∷◌, ◌++◌,
  append_assoc, append_nil, List-cases, arith, ok, some, some_inj, ok_inj, ◌==◌, and_then-ok, inl,
  inr, Result-cases, if◌then◌else◌,
}
use revoot.Text.{Str}
use revoot.Snapshot.{Sha256Digest}
use revoot.Snapshot.Change.{ChangedPath}
use revoot.Diff.{UnifiedDiffLimits, refuse_if, incomplete_file_header, no_hunks, reject}
use revoot.Diff.Header.{is_hunk_header, reject_unsupported}
use revoot.Diff.Lines.{number_of}
use revoot.Diff.Preamble.{parse_prelude, Seen, half_seen, see_line}
use revoot.Diff.Hunks.{Hunk, all_printed, printed}
use revoot.Diff.Parser.{Parser, commentable, hunks_round, parse_hunks}
use revoot.Diff.Added.{commentable_of, IsParsed, hunks_round-IsParsed}

all_printed-append : (hs ks : List Hunk) → all_printed (hs ++ ks) ≡ all_printed hs ++ all_printed ks
all_printed-append [] ks = refl
all_printed-append (h ∷ hs) ks =
    ap (λ l. h.header_line ∷ l)
      (ap (λ l. printed h.records ++ l) (all_printed-append hs ks)
        ∙ sym (append_assoc (printed h.records) (all_printed hs) (all_printed ks)))

-- the lines before the first header of a hunk
abbrev pub NoHeader : List Str → Type 0
NoHeader [] = Unit
NoHeader (line ∷ lines) = (is_hunk_header line ≡ false) × NoHeader lines

abbrev initial : ℕ → List Str → Parser
initial cursor rest = record {
  cursor = cursor;
  lines = rest;
  hunk_count = 0;
  commentable_lines = [];
}

module _ (sha256 : List ℕ → Sha256Digest) (path : ChangedPath) (limits : UnifiedDiffLimits) where
  IsParsed-none : (p : Parser) → IsParsed sha256 path limits p [] p
  IsParsed-none p = record {
    lines = refl;
    each = tt;
    count = omega arith;
    commentable = sym (append_nil p.commentable_lines);
    hunks_within = λ h. h;
    lines_within = λ h. h;
  }

  IsParsed-more :
      (p q r : Parser) (h : Hunk) (hs : List Hunk)
      → IsParsed sha256 path limits p (h ∷ []) q
      → IsParsed sha256 path limits q hs r
      → IsParsed sha256 path limits p (h ∷ hs) r
  IsParsed-more p q r h hs a b =
      let own = commentable sha256 path limits h.records 0 h.records in
      record {
        lines =
            a.lines
            ∙ ap (λ l. h.header_line ∷ ((printed h.records ++ []) ++ l)) b.lines
            ∙ ap (λ l. h.header_line ∷ l)
                (ap (λ l. l ++ (all_printed hs ++ r.lines)) (append_nil (printed h.records))
                  ∙ sym (append_assoc (printed h.records) (all_printed hs) r.lines));
        each = (a.each.0, b.each);
        count = omega (arith, a.count, b.count);
        commentable =
            b.commentable
            ∙ ap (λ l. l ++ commentable_of sha256 path limits hs) a.commentable
            ∙ append_assoc p.commentable_lines (own ++ []) (commentable_of sha256 path limits hs)
            ∙ ap (λ l. p.commentable_lines ++ (l ++ commentable_of sha256 path limits hs))
                (append_nil own);
        hunks_within = λ h. b.hunks_within (a.hunks_within h);
        lines_within = λ h. b.lines_within (a.lines_within h);
      }

  ended_ok :
      (p : Parser) {q : Parser}
      → (if p.hunk_count == 0 then reject no_hunks else ok p) ≡ ok q
      → (p ≡ q) × (0 < p.hunk_count)
  ended_ok p {q} h = elim (Bool-cases (p.hunk_count == 0)) [
    | inl zero' ↦ absurd (ground (arith, zero', h))
    | inr more ↦ (ok_inj (rw more at h), ground (arith, more))
  ]

  pub parse_hunks-IsParsed :
      (fuel : ℕ) (p : Parser) {q : Parser}
      → parse_hunks sha256 fuel path limits p ≡ some (ok q)
      → (hs : List Hunk) × IsParsed sha256 path limits p hs q × (q.lines ≡ []) × (0 < q.hunk_count)
  unfolding parse_hunks
  parse_hunks-IsParsed zero p h = cc
  parse_hunks-IsParsed (suc fuel) p {q} h = elim (List-cases p.lines) [
    | inl ended ↦
        let done = ended_ok p {q = q} (some_inj (rw (parse_hunks, ended) at h)) in
        (
          [],
          subst (IsParsed sha256 path limits p []) done.0 (IsParsed-none p),
          subst (λ r. r.lines ≡ []) done.0 ended,
          subst (λ r. 0 < r.hunk_count) done.0 done.1,
        )
    | inr (line, lines, at) ↦ elim (Result-cases (hunks_round sha256 path limits p line lines)) [
      | inl (next, e) ↦
          let first = hunks_round-IsParsed sha256 path limits p line lines at e in
          let rest = parse_hunks-IsParsed fuel next {q = q} (rw e at rw (parse_hunks, at) at h) in
          (first.0 ∷ rest.0, IsParsed-more p next q first.0 rest.0 first.1 rest.1, rest.2, rest.3)
      | inr (e, failed) ↦ absurd (ground (arith, rw failed at rw (parse_hunks, at) at h))
    ]
  ]

pub parse_prelude-Splits :
    (path : ChangedPath) (s : Seen) (cursor : ℕ) (lines : List Str) {end : ℕ} {rest : List Str}
    → parse_prelude path s cursor lines ≡ ok (end, rest)
    → (before : List Str) × (lines ≡ before ++ rest) × NoHeader before
unfolding parse_prelude
parse_prelude-Splits path s cursor [] h = elim (Bool-cases (half_seen s)) [
  | inl half ↦ absurd (ground (arith, rw half at h))
  | inr whole ↦ absurd (ground (arith, rw whole at h))
]
parse_prelude-Splits path s cursor (line ∷ lines) {end} {rest} h =
    let s1 = and_then-ok (reject_unsupported line (number_of cursor)) _ h in
    elim (Bool-cases (is_hunk_header line)) [
      | inl header ↦
          let s2 =
            and_then-ok (refuse_if (half_seen s) (incomplete_file_header (number_of cursor))) _
              (rw header at s1.2) in
          ([], ap (λ x. x.1) (ok_inj s2.2), tt)
      | inr other ↦
          let s2 = and_then-ok (see_line path line (number_of cursor) s) _ (rw other at s1.2) in
          let more =
            parse_prelude-Splits path s2.0 (cursor + 1) lines {end = end} {rest = rest} s2.2 in
          (line ∷ more.0, ap (λ l. line ∷ l) more.1, (other, more.2))
    ]

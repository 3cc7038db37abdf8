-- ===== src/Diff/Added.antt =====
-- crates/revoot-core/src/diff.rs: what a round of the loop over the hunks adds.
use revoot.Prelude.{
  ℕ, ◌+◌, ◌≤◌, ◌≡◌, ◌∙◌, refl, sym, ap, subst, false, not, ◌||◌, ◌&&◌, List, [], ◌∷◌, ◌++◌,
  append_nil, arith, ok, ok_inj, ◌==◌, length, length-append, and_then-ok, checked_add, is_none_or,
  u64_max, u32_max, ltb, reject_if-ok,
}
use revoot.Text.{Str, lit}
use revoot.Text.Search.{starts_with}
use revoot.Snapshot.{Sha256Digest}
use revoot.Snapshot.Change.{ChangedPath}
use revoot.Snapshot.Position.{CommentableLine}
use revoot.Diff.{
  UnifiedDiffLimits, refuse_if, combined_diff, empty_hunk, old_side, new_side, rejected,
  too_many_commentable_lines, unexpected_trailing_content, too_many_hunks,
}
use revoot.Diff.Header.{
  HunkHeader, is_hunk_header, reject_unsupported, parse_hunk_header, header_ranges,
  parse_hunk_range, check_declared,
}
use revoot.Diff.Hunk.{HunkLine, new_accounting, no_record}
use revoot.Diff.Lines.{number_of}
use revoot.Diff.Hunks.{Hunk, all_printed, AllHunks, printed}
use revoot.Diff.Rounds.{parse_hunk}
use revoot.Diff.Parser.{Parser, commentable, append_commentable_lines, hunks_round}
use revoot.Diff.Parts.{new_accounting-IsPart}
use revoot.Diff.Ends.{parse_hunk-IsRead}

module _ (sha256 : List ℕ → Sha256Digest) (path : ChangedPath) (limits : UnifiedDiffLimits) where
  abbrev pub commentable_of : List Hunk → List CommentableLine
  commentable_of [] = []
  commentable_of (h ∷ hs) =
      commentable sha256 path limits h.records 0 h.records ++ commentable_of hs

  -- What a parser has after hunks that it has read.
  pub record IsParsed (p : Parser) (hunks : List Hunk) (q : Parser) : Type 0 where
    pub lines : p.lines ≡ all_printed hunks ++ q.lines
    pub each : AllHunks path limits hunks
    pub count : q.hunk_count ≡ p.hunk_count + length hunks
    pub commentable : q.commentable_lines ≡ p.commentable_lines ++ commentable_of hunks
    pub hunks_within : p.hunk_count ≤ limits.max_hunks → q.hunk_count ≤ limits.max_hunks
    pub lines_within :
        length p.commentable_lines ≤ limits.max_commentable_lines
        → length q.commentable_lines ≤ limits.max_commentable_lines

  length-commentable :
      (records rs : List HunkLine) (index : ℕ)
      → length (commentable sha256 path limits records index rs) ≡ length rs
  unfolding commentable
  length-commentable records [] index = refl
  length-commentable records (r ∷ rs) index =
      omega (arith, length-commentable records rs (index + 1))

  room_for :
      (n m : ℕ)
      → is_none_or
          (checked_add u64_max n m)
          (λ k. ltb u32_max k || ltb limits.max_commentable_lines k)
        ≡ false
      → n + m ≤ limits.max_commentable_lines
  room_for n m h = ground arith

  append_commentable_lines-eq :
      (records : List HunkLine) (lines : List CommentableLine) {all_lines : List CommentableLine}
      → append_commentable_lines sha256 path limits records lines ≡ ok all_lines
      → (all_lines ≡ lines ++ commentable sha256 path limits records 0 records)
        × (length all_lines ≤ limits.max_commentable_lines)
  unfolding append_commentable_lines
  append_commentable_lines-eq records lines {all_lines} h =
      let s =
        and_then-ok
          (refuse_if
            (is_none_or (checked_add u64_max (length lines) (length records))
              (λ n. ltb u32_max n || ltb limits.max_commentable_lines n))
            (too_many_commentable_lines limits.max_commentable_lines))
          _ h in
      let room =
        room_for (length lines) (length records) (
          reject_if-ok _ (rejected (too_many_commentable_lines limits.max_commentable_lines))
            s.1) in
      let same = ok_inj s.2 in
      (
        sym same,
        subst (λ l. length l ≤ limits.max_commentable_lines) same
            (omega (
              arith,
              room,
              length-append lines (commentable sha256 path limits records 0 records),
              length-commentable records records 0,
            )),
      )

  -- the record of a header has the number of the line that it was read from
  parse_hunk_header-line :
      (line : Str) (number : ℕ) {header : HunkHeader}
      → parse_hunk_header line number limits ≡ ok header
      → header.line ≡ number
  unfolding parse_hunk_header
  parse_hunk_header-line line number h =
      let s1 = and_then-ok (refuse_if (starts_with line (lit "@@@")) (combined_diff number)) _ h in
      let s2 = and_then-ok (header_ranges line number) _ s1.2 in
      let s3 = and_then-ok (parse_hunk_range s2.0.0 number old_side) _ s2.2 in
      let s4 = and_then-ok (parse_hunk_range s2.0.1 number new_side) _ s3.2 in
      let s5 =
        and_then-ok (refuse_if (s3.0.count == 0 && s4.0.count == 0) (empty_hunk number)) _ s4.2 in
      let s6 = and_then-ok (check_declared limits number old_side s3.0) _ s5.2 in
      let s7 = and_then-ok (check_declared limits number new_side s4.0) _ s6.2 in
      sym (ap (λ k. k.line) (ok_inj s7.2))

  still_within : (n m : ℕ) → n == m ≡ false → n ≤ m → n + 1 ≤ m
  still_within n m h = ground arith

  pub hunks_round-IsParsed :
      (p : Parser) (line : Str) (lines : List Str) {q : Parser}
      → p.lines ≡ line ∷ lines
      → hunks_round sha256 path limits p line lines ≡ ok q
      → (h : Hunk) × IsParsed p (h ∷ []) q × (length q.lines ≤ length lines)
  unfolding hunks_round
  hunks_round-IsParsed p line lines {q} at h =
      let s1 = and_then-ok (reject_unsupported line (number_of p.cursor)) _ h in
      let s2 =
        and_then-ok
          (refuse_if (not (is_hunk_header line)) (unexpected_trailing_content (number_of p.cursor)))
          _ s1.2 in
      let s3 =
        and_then-ok (refuse_if (p.hunk_count == limits.max_hunks) (too_many_hunks limits.max_hunks))
          _ s2.2 in
      let s4 = and_then-ok (parse_hunk_header line (number_of p.cursor) limits) _ s3.2 in
      let s5 =
        and_then-ok (parse_hunk path limits (new_accounting s4.0) [] no_record (p.cursor + 1) lines)
          _ s4.2 in
      let s6 =
        and_then-ok (append_commentable_lines sha256 path limits s5.0.0 p.commentable_lines) _
          s5.2 in
      let read =
        parse_hunk-IsRead path limits s4.0 (new_accounting s4.0) [] no_record (p.cursor + 1) lines
          (new_accounting-IsPart path s4.0) s5.1 in
      let more = append_commentable_lines-eq s5.0.0 p.commentable_lines s6.1 in
      let below : p.hunk_count == limits.max_hunks ≡ false =
        reject_if-ok (p.hunk_count == limits.max_hunks) (rejected (too_many_hunks limits.max_hunks))
          s3.1 in
      let own = commentable sha256 path limits s5.0.0 0 s5.0.0 in
      subst (λ q. (h : Hunk) × IsParsed p (h ∷ []) q × (length q.lines ≤ length lines))
        (ok_inj s6.2)
        (
          record { header_line = line; header = s4.0; records = s5.0.0 },
          record {
            lines =
                at
                ∙ ap (λ l. line ∷ l)
                    (sym read.printing ∙ ap (λ l. l ++ s5.0.2) (sym (append_nil (printed s5.0.0))));
            each = (
              record {
                headed =
                    subst (λ n. parse_hunk_header line n limits ≡ ok s4.0)
                      (sym (parse_hunk_header-line line (number_of p.cursor) s4.1)) s4.1;
                numbered = read.numbered;
                old_count = read.old_count;
                new_count = read.new_count;
              },
              tt,
            );
            count = omega arith;
            commentable = more.0 ∙ ap (λ l. p.commentable_lines ++ l) (sym (append_nil own));
            hunks_within = λ within. still_within p.hunk_count limits.max_hunks below within;
            lines_within = λ _. more.1;
          },
          read.shorter,
        )

-- ===== src/Diff/Rounds.antt =====
-- crates/revoot-core/src/diff.rs: the loop over the lines of a hunk. A cursor is kept with the lines from it on.
use revoot.Prelude.{
  ℕ, ◌+◌, true, false, List, [], ◌∷◌, ◌++◌, ltb, leb, if◌then◌else◌, length, ok, and_then, u32_max,
}
use revoot.Text.{Str, lit, str_eq}
use revoot.Snapshot.Change.{ChangedPath}
use revoot.Diff.{
  UnifiedDiffLimits, Parse, reject, refuse_if, too_many_lines_in_hunk, duplicate_no_newline_marker,
}
use revoot.Diff.Header.{is_hunk_header, reject_unsupported}
use revoot.Diff.Hunk.{
  HunkLine, HunkAccounting, complete, mismatch, consume, MarkerState, content_read, marker_read,
  apply_no_newline_marker,
}
use revoot.Diff.Lines.{number_of}

abbrev pub no_newline_marker : Str
no_newline_marker = lit "\\ No newline at end of file"

-- One round of the loop of `parse_hunk`: the account, the records and the marker after this line.
unfoldable pub hunk_round :
    ChangedPath
    → UnifiedDiffLimits
    → Str
    → ℕ
    → HunkAccounting
    → List HunkLine
    → MarkerState
    → Parse (HunkAccounting × List HunkLine × MarkerState)
unfolding reject_unsupported is_hunk_header str_eq apply_no_newline_marker consume
hunk_round path limits line line_number a records marker =
    and_then (reject_unsupported line line_number) λ _.
      and_then (refuse_if (is_hunk_header line) (mismatch a)) λ _.
        if str_eq line no_newline_marker
        then (and_then (apply_no_newline_marker records marker line_number)
            λ marked. ok (a, marked, marker_read))
        else (and_then (consume path line line_number a) λ consumed.
            let (record', b) = consumed in
            let records' = records ++ record' ∷ [] in
            and_then
              (refuse_if
                (ltb limits.max_lines_per_hunk
                  (if leb (length records') u32_max then length records' else u32_max))
                (too_many_lines_in_hunk a.header.line limits.max_lines_per_hunk))
              λ _. ok (b, records', content_read))

-- The end of `parse_hunk`: a marker after the last line, and no second one.
unfoldable pub end_hunk :
    List HunkLine → MarkerState → ℕ → List Str → Parse (List HunkLine × ℕ × List Str)
unfolding str_eq apply_no_newline_marker
end_hunk records marker cursor [] = ok (records, cursor, [])
end_hunk records marker cursor (line ∷ lines) =
    if str_eq line no_newline_marker
    then (and_then (apply_no_newline_marker records marker (number_of cursor)) λ marked.
        elim lines [
          | [] ↦ ok (marked, cursor + 1, [])
          | next ∷ rest ↦
              if str_eq next no_newline_marker
              then reject (duplicate_no_newline_marker (number_of (cursor + 1)))
              else ok (marked, cursor + 1, next ∷ rest)
        ])
    else ok (records, cursor, line ∷ lines)

-- `parse_hunk`, after its header: the records, the cursor after them and the lines from it on
unfoldable pub parse_hunk :
    ChangedPath
    → UnifiedDiffLimits
    → HunkAccounting
    → List HunkLine
    → MarkerState
    → ℕ
    → List Str
    → Parse (List HunkLine × ℕ × List Str)
unfolding hunk_round end_hunk
parse_hunk path limits a records marker cursor [] = elim (complete a) [
  | true ↦ end_hunk records marker cursor []
  | false ↦ reject (mismatch a)
]
parse_hunk path limits a records marker cursor (line ∷ lines) = elim (complete a) [
  | true ↦ end_hunk records marker cursor (line ∷ lines)
  | false ↦
      and_then (hunk_round path limits line (number_of cursor) a records marker)
        λ after. parse_hunk path limits after.0 after.1 after.2 (cursor + 1) lines
]

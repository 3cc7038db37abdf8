-- ===== src/Diff/Ends.antt =====
-- crates/revoot-core/src/diff.rs: a whole hunk, once its header is read.
use revoot.Prelude.{
  ℕ, ◌+◌, ◌≤◌, ◌≡◌, ◌∙◌, refl, sym, ap, subst, Bool, true, false, Bool-cases, List, [], ◌∷◌, ◌++◌,
  append_assoc, arith, ok, ok_inj, ◌&&◌, ◌==◌, ==_iff, length, and_then-ok, inl, inr,
}
use revoot.Text.{Str, str_eq, str_eq_iff}
use revoot.Snapshot.Change.{ChangedPath}
use revoot.Diff.{UnifiedDiffLimits}
use revoot.Diff.Header.{HunkHeader}
use revoot.Diff.Hunk.{HunkLine, HunkAccounting, complete, MarkerState, apply_no_newline_marker}
use revoot.Diff.Lines.{number_of}
use revoot.Diff.Hunks.{IsNumbered, old_lines, new_lines, printed}
use revoot.Diff.Rounds.{no_newline_marker, hunk_round, end_hunk, parse_hunk}
use revoot.Diff.Marks.{IsMarking, apply_no_newline_marker-IsMarking}
use revoot.Diff.Parts.{IsPart, hunk_round-IsRound}

-- What is read of a hunk, of the lines from a place on, after records.
pub record IsRead (path : ChangedPath) (header : HunkHeader) (records : List HunkLine)
    (lines : List Str) (read : List HunkLine × ℕ × List Str) : Type 0 where
  pub numbered : IsNumbered path header.old.first header.new.first read.0
  pub old_count : old_lines read.0 ≡ header.old.count
  pub new_count : new_lines read.0 ≡ header.new.count
  pub printing : printed read.0 ++ read.2 ≡ printed records ++ lines
  pub shorter : length read.2 ≤ length lines

and_true : (a b : Bool) → (a && b) ≡ true → (a ≡ true) × (b ≡ true)
and_true true b h = (refl, h)
and_true false b h = cc

complete-counts :
    (path : ChangedPath) (header : HunkHeader) (a : HunkAccounting) (records : List HunkLine)
    (state : MarkerState)
    → IsPart path header a records state
    → complete a ≡ true
    → (old_lines records ≡ header.old.count) × (new_lines records ≡ header.new.count)
complete-counts path header a records state p h =
    let both = and_true (a.old_seen == a.header.old.count) (a.new_seen == a.header.new.count) h in
    (
      sym p.old_seen
          ∙ (==_iff a.old_seen a.header.old.count).0 both.0
          ∙ ap (λ h. h.old.count) p.same_header,
      sym p.new_seen
          ∙ (==_iff a.new_seen a.header.new.count).0 both.1
          ∙ ap (λ h. h.new.count) p.same_header,
    )

IsRead-unmarked :
    (path : ChangedPath) (header : HunkHeader) (a : HunkAccounting) (records : List HunkLine)
    (state : MarkerState) (cursor : ℕ) (lines : List Str)
    → IsPart path header a records state
    → complete a ≡ true
    → IsRead path header records lines (records, cursor, lines)
IsRead-unmarked path header a records state cursor lines p h =
    let counts = complete-counts path header a records state p h in
    record {
      numbered = p.numbered;
      old_count = counts.0;
      new_count = counts.1;
      printing = refl;
      shorter = omega arith;
    }

IsRead-marking :
    (path : ChangedPath) (header : HunkHeader) (a : HunkAccounting)
    (records marking : List HunkLine) (state : MarkerState) (cursor : ℕ) (line : Str)
    (rest : List Str)
    → IsPart path header a records state
    → complete a ≡ true
    → IsMarking path header.old.first header.new.first records marking
    → line ≡ no_newline_marker
    → IsRead path header records (line ∷ rest) (marking, cursor, rest)
IsRead-marking path header a records marking state cursor line rest p h m same =
    let counts = complete-counts path header a records state p h in
    record {
      numbered = m.numbered;
      old_count = m.old_same ∙ counts.0;
      new_count = m.new_same ∙ counts.1;
      printing =
          ap (λ l. l ++ rest) m.printing
          ∙ append_assoc (printed records) (no_newline_marker ∷ []) rest
          ∙ ap (λ l. printed records ++ l ∷ rest) (sym same);
      shorter = omega arith;
    }

end_hunk-IsRead :
    (path : ChangedPath) (header : HunkHeader) (a : HunkAccounting) (records : List HunkLine)
    (state : MarkerState) (cursor : ℕ) (lines : List Str) {read : List HunkLine × ℕ × List Str}
    → IsPart path header a records state
    → complete a ≡ true
    → end_hunk records state cursor lines ≡ ok read
    → IsRead path header records lines read
unfolding end_hunk
end_hunk-IsRead path header a records state cursor [] p h e =
    subst (IsRead path header records []) (ok_inj e)
      (IsRead-unmarked path header a records state cursor [] p h)
end_hunk-IsRead path header a records state cursor (line ∷ []) p h e =
    elim (Bool-cases (str_eq line no_newline_marker)) [
      | inl same ↦
          let s =
            and_then-ok (apply_no_newline_marker records state (number_of cursor)) _
              (rw same at e) in
          subst (IsRead path header records (line ∷ [])) (ok_inj s.2) (
            IsRead-marking path header a records s.0 state (cursor + 1) line [] p h
              (apply_no_newline_marker-IsMarking path header.old.first header.new.first records
                state (number_of cursor) p.marks p.numbered s.1)
              ((str_eq_iff line no_newline_marker).0 same))
      | inr other ↦
          subst (IsRead path header records (line ∷ [])) (ok_inj (rw other at e))
            (IsRead-unmarked path header a records state cursor (line ∷ []) p h)
    ]
end_hunk-IsRead path header a records state cursor (line ∷ next ∷ rest) p h e =
    elim (Bool-cases (str_eq line no_newline_marker)) [
      | inl same ↦
          let s =
            and_then-ok (apply_no_newline_marker records state (number_of cursor)) _
              (rw same at e) in
          elim (Bool-cases (str_eq next no_newline_marker)) [
            | inl twice ↦ ground (arith, twice, s.2)
            | inr once ↦
                subst (IsRead path header records (line ∷ next ∷ rest)) (ok_inj (rw once at s.2)) (
                  IsRead-marking path header a records s.0 state (cursor + 1) line (next ∷ rest) p h
                    (apply_no_newline_marker-IsMarking path header.old.first header.new.first
                      records state (number_of cursor) p.marks p.numbered s.1)
                    ((str_eq_iff line no_newline_marker).0 same))
          ]
      | inr other ↦
          subst (IsRead path header records (line ∷ next ∷ rest)) (ok_inj (rw other at e))
            (IsRead-unmarked path header a records state cursor (line ∷ next ∷ rest) p h)
    ]

pub parse_hunk-IsRead :
    (path : ChangedPath) (limits : UnifiedDiffLimits) (header : HunkHeader) (a : HunkAccounting)
    (records : List HunkLine) (state : MarkerState) (cursor : ℕ) (lines : List Str)
    {read : List HunkLine × ℕ × List Str}
    → IsPart path header a records state
    → parse_hunk path limits a records state cursor lines ≡ ok read
    → IsRead path header records lines read
unfolding parse_hunk
parse_hunk-IsRead path limits header a records state cursor [] p e =
    elim (Bool-cases (complete a)) [
      | inl whole ↦
          end_hunk-IsRead path header a records state cursor [] p whole
            (rw (parse_hunk, whole) at e)
      | inr part ↦ ground (arith, part, e)
    ]
parse_hunk-IsRead path limits header a records state cursor (line ∷ lines) {read} p e =
    elim (Bool-cases (complete a)) [
      | inl whole ↦
          end_hunk-IsRead path header a records state cursor (line ∷ lines) p whole
            (rw (parse_hunk, whole) at e)
      | inr part ↦
          let s =
            and_then-ok (hunk_round path limits line (number_of cursor) a records state) _
              (rw (parse_hunk, part) at e) in
          let round =
            hunk_round-IsRound path limits header line (number_of cursor) a records state p s.1 in
          let read_on =
            parse_hunk-IsRead path limits header s.0.0 s.0.1 s.0.2 (cursor + 1) lines round.part
              s.2 in
          record {
            numbered = read_on.numbered;
            old_count = read_on.old_count;
            new_count = read_on.new_count;
            printing =
                read_on.printing
                ∙ ap (λ l. l ++ lines) round.printing
                ∙ append_assoc (printed records) (line ∷ []) lines;
            shorter = omega (arith, read_on.shorter);
          }
    ]

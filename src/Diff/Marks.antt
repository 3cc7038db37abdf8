-- ===== src/Diff/Marks.antt =====
-- crates/revoot-core/src/diff.rs: a marker written to the last record, and what is printed.
use revoot.Prelude.{
  ℕ, ◌+◌, ◌≡◌, ◌∙◌, refl, sym, ap, true, false, some, List, [], ◌∷◌, ◌++◌, ok, ok_inj, subst,
  append_assoc, append_nil,
}
use revoot.Snapshot.Change.{ChangedPath}
use revoot.Diff.Hunk.{
  HunkLine, MarkerState, no_record, content_read, marker_read, mark_last, apply_no_newline_marker,
}
use revoot.Diff.Hunks.{
  on_old, on_new, IsNumbered, old_lines, new_lines, old_lines-append, new_lines-append, prefix,
  marker_of, printed,
}
use revoot.Diff.Rounds.{no_newline_marker}

abbrev pub marked : HunkLine → HunkLine
marked r = record r { no_newline = true }

pub printed-append :
    (rs : List HunkLine) (r : HunkLine)
    → printed (rs ++ r ∷ []) ≡ printed rs ++ (prefix r.kind ∷ r.content) ∷ marker_of r.no_newline
printed-append [] r =
    ap (λ l. (prefix r.kind ∷ r.content) ∷ l) (append_nil (marker_of r.no_newline))
printed-append (s ∷ rs) r =
    ap (λ l. (prefix s.kind ∷ s.content) ∷ l)
      (ap (λ l. marker_of s.no_newline ++ l) (printed-append rs r)
        ∙ sym (append_assoc (marker_of s.no_newline) (printed rs) _))

mark_last-append :
    (rs : List HunkLine) (r : HunkLine) → mark_last (rs ++ r ∷ []) ≡ some (rs ++ marked r ∷ [])
mark_last-append [] r = refl
mark_last-append (s ∷ []) r = refl
mark_last-append (s ∷ t ∷ rs) r = rw (mark_last-append (t ∷ rs) r) refl

IsNumbered-marked :
    (path : ChangedPath) (o n : ℕ) (rs : List HunkLine) (r : HunkLine)
    → IsNumbered path o n (rs ++ r ∷ [])
    → IsNumbered path o n (rs ++ marked r ∷ [])
IsNumbered-marked path o n [] r h = h
IsNumbered-marked path o n (s ∷ rs) r h =
    (h.0, h.1, IsNumbered-marked path (o + on_old s.kind) (n + on_new s.kind) rs r h.2)

-- Where the marker state says so, the last record is there and unmarked.
pub data Marks : MarkerState → List HunkLine → Type 0 where
  at_start : Marks no_record []
  after_content :
      (rs : List HunkLine) (r : HunkLine) → r.no_newline ≡ false → Marks content_read (rs ++ r ∷ [])
  after_marker : (rs : List HunkLine) → Marks marker_read rs

-- The records after a marker are those before it, up to the mark, and print as one line more.
pub record IsMarking (path : ChangedPath) (o n : ℕ) (records marking : List HunkLine) : Type 0 where
  pub numbered : IsNumbered path o n marking
  pub old_same : old_lines marking ≡ old_lines records
  pub new_same : new_lines marking ≡ new_lines records
  pub printing : printed marking ≡ printed records ++ no_newline_marker ∷ []

printed-marked :
    (rs : List HunkLine) (r : HunkLine)
    → r.no_newline ≡ false
    → printed (rs ++ marked r ∷ []) ≡ printed (rs ++ r ∷ []) ++ no_newline_marker ∷ []
printed-marked rs r h =
    printed-append rs (marked r)
    ∙ sym (append_assoc (printed rs) ((prefix r.kind ∷ r.content) ∷ []) (no_newline_marker ∷ []))
    ∙ ap (λ l. l ++ no_newline_marker ∷ [])
        (sym (
          printed-append rs r
          ∙ ap (λ b. printed rs ++ (prefix r.kind ∷ r.content) ∷ marker_of b) h))

pub apply_no_newline_marker-IsMarking :
    (path : ChangedPath) (o n : ℕ) (records : List HunkLine) (state : MarkerState) (line : ℕ)
    {marking : List HunkLine}
    → Marks state records
    → IsNumbered path o n records
    → apply_no_newline_marker records state line ≡ ok marking
    → IsMarking path o n records marking
unfolding apply_no_newline_marker
apply_no_newline_marker-IsMarking path o n _ _ line at_start h e = cc
apply_no_newline_marker-IsMarking path o n _ _ line (after_marker rs) h e = cc
apply_no_newline_marker-IsMarking path o n _ _ line {marking} (after_content rs r unmarked) h e =
    subst (IsMarking path o n (rs ++ r ∷ []))
      (ok_inj (rw (apply_no_newline_marker, mark_last-append rs r) at e))
      (record {
        numbered = IsNumbered-marked path o n rs r h;
        old_same = old_lines-append rs (marked r) ∙ sym (old_lines-append rs r);
        new_same = new_lines-append rs (marked r) ∙ sym (new_lines-append rs r);
        printing = printed-marked rs r unmarked;
      })

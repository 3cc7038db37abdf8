-- ===== src/Diff/Hunks.antt =====
-- crates/revoot-core/src/diff.rs: what a hunk is, said of its lines and not of the parser.
use revoot.Prelude.{ℕ, ◌+◌, ◌≡◌, refl, ◌∙◌, Bool, true, false, List, [], ◌∷◌, ◌++◌, arith, ok}
use revoot.Text.{Str}
use revoot.Snapshot.Change.{ChangedPath, FileChangeKind, modified, renamed, added, deleted}
use revoot.Snapshot.Position.{AnchorPosition, addition, deletion, context}
use revoot.Diff.{UnifiedDiffLimits}
use revoot.Diff.Header.{HunkHeader, parse_hunk_header}
use revoot.Diff.Hunk.{
  HunkLine, HunkLineKind, context_line, deletion_line, addition_line, line_kind_valid,
}
use revoot.Diff.Rounds.{no_newline_marker}

-- how many lines of the old and of the new file a line of this kind is
abbrev pub on_old : HunkLineKind → ℕ
on_old context_line = 1
on_old deletion_line = 1
on_old addition_line = 0

abbrev pub on_new : HunkLineKind → ℕ
on_new context_line = 1
on_new deletion_line = 0
on_new addition_line = 1

abbrev pub position_at : HunkLineKind → ℕ → ℕ → AnchorPosition
position_at context_line o n = context o n
position_at deletion_line o n = deletion o
position_at addition_line o n = addition n

abbrev pub old_lines : List HunkLine → ℕ
old_lines [] = 0
old_lines (r ∷ rs) = on_old r.kind + old_lines rs

abbrev pub new_lines : List HunkLine → ℕ
new_lines [] = 0
new_lines (r ∷ rs) = on_new r.kind + new_lines rs

-- An added file has added lines only, and a deleted one deleted lines only.
abbrev pub Allows : FileChangeKind → HunkLineKind → Type 0
Allows added k = k ≡ addition_line
Allows deleted k = k ≡ deletion_line
Allows _ k = Unit

valid-Allows : (c : FileChangeKind) (k : HunkLineKind) → line_kind_valid c k ≡ true → Allows c k
valid-Allows modified k h = tt
valid-Allows renamed k h = tt
valid-Allows added addition_line h = refl
valid-Allows added context_line h = cc
valid-Allows added deletion_line h = cc
valid-Allows deleted deletion_line h = refl
valid-Allows deleted context_line h = cc
valid-Allows deleted addition_line h = cc

-- Each line has the numbers that follow from those before it, of kinds that the change allows.
abbrev pub IsNumbered : ChangedPath → ℕ → ℕ → List HunkLine → Type 0
IsNumbered path o n [] = Unit
IsNumbered path o n (r ∷ rs) =
    (r.position ≡ position_at r.kind o n)
    × Allows path.kind r.kind
    × IsNumbered path (o + on_old r.kind) (n + on_new r.kind) rs

position_at_same :
    (k : HunkLineKind) {o p n m : ℕ} → o ≡ p → n ≡ m → position_at k o n ≡ position_at k p m
position_at_same k h i = cc

pub IsNumbered-append :
    (path : ChangedPath) (o n : ℕ) (rs : List HunkLine) (r : HunkLine)
    → IsNumbered path o n rs
    → r.position ≡ position_at r.kind (o + old_lines rs) (n + new_lines rs)
    → line_kind_valid path.kind r.kind ≡ true
    → IsNumbered path o n (rs ++ r ∷ [])
IsNumbered-append path o n [] r h at valid = (
  at ∙ position_at_same r.kind (omega arith) (omega arith),
  valid-Allows path.kind r.kind valid,
  tt,
)
IsNumbered-append path o n (s ∷ rs) r h at valid = (
  h.0,
  h.1,
  IsNumbered-append path (o + on_old s.kind) (n + on_new s.kind) rs r h.2
      (at ∙ position_at_same r.kind (omega arith) (omega arith)) valid,
)

pub old_lines-append :
    (rs : List HunkLine) (r : HunkLine) → old_lines (rs ++ r ∷ []) ≡ old_lines rs + on_old r.kind
old_lines-append [] r = omega arith
old_lines-append (s ∷ rs) r = omega (arith, old_lines-append rs r)

pub new_lines-append :
    (rs : List HunkLine) (r : HunkLine) → new_lines (rs ++ r ∷ []) ≡ new_lines rs + on_new r.kind
new_lines-append [] r = omega arith
new_lines-append (s ∷ rs) r = omega (arith, new_lines-append rs r)

-- The line of a diff that stands for a record, and the marker after it.
abbrev pub prefix : HunkLineKind → ℕ
prefix context_line = b' '
prefix deletion_line = b'-'
prefix addition_line = b'+'

abbrev pub marker_of : Bool → List Str
marker_of true = no_newline_marker ∷ []
marker_of false = []

abbrev pub printed : List HunkLine → List Str
printed [] = []
printed (r ∷ rs) = (prefix r.kind ∷ r.content) ∷ (marker_of r.no_newline ++ printed rs)

pub record Hunk : Type 0 where
  pub header_line : Str
  pub header : HunkHeader
  pub records : List HunkLine

-- The records are as many on each side as the header says, and numbered from where it says.
pub record IsHunk (path : ChangedPath) (limits : UnifiedDiffLimits) (h : Hunk) : Type 0 where
  pub headed : parse_hunk_header h.header_line h.header.line limits ≡ ok h.header
  pub numbered : IsNumbered path h.header.old.first h.header.new.first h.records
  pub old_count : old_lines h.records ≡ h.header.old.count
  pub new_count : new_lines h.records ≡ h.header.new.count

abbrev pub all_printed : List Hunk → List Str
all_printed [] = []
all_printed (h ∷ hs) = h.header_line ∷ (printed h.records ++ all_printed hs)

abbrev pub AllHunks : ChangedPath → UnifiedDiffLimits → List Hunk → Type 0
AllHunks path limits [] = Unit
AllHunks path limits (h ∷ hs) = IsHunk path limits h × AllHunks path limits hs

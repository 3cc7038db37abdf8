-- ===== src/Diff/Calm.antt =====
-- crates/revoot-core/src/diff.rs: where the parser panics, and where it cannot.
use revoot.Prelude.{
  ℕ, ◌≤◌, ◌<◌, ◌≡◌, ◌↔◌, refl, Bool, true, false, if◌then◌else◌, Bool-cases, List, [], ◌∷◌, ◌++◌,
  arith, ok, err, leb, ◌==◌, ltb, Option-cases, ◌||◌, ◌&&◌, inl, inr, u32_max, length,
}
use revoot.Text.{Str, lit, str_eq}
use revoot.Text.Search.{starts_with, ends_with}
use revoot.Snapshot.Change.{ChangedPath}
use revoot.Diff.{
  Parse, panicked, combined_diff, binary_diff, too_many_lines_in_hunk, UnifiedDiffLimits,
}
use revoot.Diff.Header.{is_hunk_header, reject_unsupported}
use revoot.Diff.Hunk.{
  HunkLine, HunkAccounting, consume, mismatch, MarkerState, no_record, content_read, marker_read,
  apply_no_newline_marker, mark_last,
}
use revoot.Diff.Rounds.{no_newline_marker, hunk_round}
use revoot.Diff.Calls.{
  Calm, and_then-Calm, refuse_if-Calm, refuse_then, ok-Calm, consume_context-Calm,
  consume_deletion-Calm, consume_addition-Calm, if-Calm,
}

if_not : {A : Type 0} (b : Bool) (r s : Parse A) → b ≡ false → Calm s → Calm (if b then r else s)
if_not b r s h calm = rw h calm

consume-Calm :
    (path : ChangedPath) (c : ℕ) (content : Str) (line : ℕ) (a : HunkAccounting)
    → leb 0x80 c ≡ false
    → Calm (consume path (c ∷ content) line a)
unfolding consume
consume-Calm path c content line a narrow = if_not (leb 0x80 c) (err panicked) _ narrow (
    if-Calm (c == b' ') _ _ (consume_context-Calm path content line a) (
      if-Calm (c == b'-') _ _ (consume_deletion-Calm path content line a)
        (if-Calm (c == b'+') _ _ (consume_addition-Calm path content line a) (λ h. cc))))

apply_no_newline_marker-Calm :
    (records : List HunkLine) (state : MarkerState) (line : ℕ)
    → Calm (apply_no_newline_marker records state line)
unfolding apply_no_newline_marker
apply_no_newline_marker-Calm records no_record line h = cc
apply_no_newline_marker-Calm records marker_read line h = cc
apply_no_newline_marker-Calm records content_read line h = elim (Option-cases (mark_last records)) [
  | inl e ↦ ground (arith, rw (apply_no_newline_marker, e) at h)
  | inr (m, e) ↦ ground (arith, rw (apply_no_newline_marker, e) at h)
]

reject_unsupported-Calm : (line : Str) (n : ℕ) → Calm (reject_unsupported line n)
unfolding reject_unsupported
reject_unsupported-Calm line n =
    refuse_then
      (starts_with line (lit "diff --cc ")
        || starts_with line (lit "diff --combined ")
        || starts_with line (lit "@@@"))
      (combined_diff n) _
      λ _.
        refuse_if-Calm
          (str_eq line (lit "GIT binary patch")
            || (starts_with line (lit "Binary files ") && ends_with line (lit " differ")))
          (binary_diff n)

hunk_round-Calm :
    (path : ChangedPath) (limits : UnifiedDiffLimits) (c : ℕ) (content : Str) (line : ℕ)
    (a : HunkAccounting) (records : List HunkLine) (state : MarkerState)
    → leb 0x80 c ≡ false
    → Calm (hunk_round path limits (c ∷ content) line a records state)
unfolding hunk_round
hunk_round-Calm path limits c content line a records state narrow =
    and_then-Calm (reject_unsupported (c ∷ content) line) _
      (reject_unsupported-Calm (c ∷ content) line)
      λ _. refuse_then (is_hunk_header (c ∷ content)) (mismatch a) _ λ _.
        if-Calm (str_eq (c ∷ content) no_newline_marker) _ _
          (and_then-Calm (apply_no_newline_marker records state line) _
            (apply_no_newline_marker-Calm records state line) λ _. ok-Calm _)
          (and_then-Calm (consume path (c ∷ content) line a) _
            (consume-Calm path c content line a narrow)
            λ consumed.
              let records' = records ++ consumed.0 ∷ [] in
              refuse_then
                (ltb limits.max_lines_per_hunk
                  (if leb (length records') u32_max then length records' else u32_max))
                (too_many_lines_in_hunk a.header.line limits.max_lines_per_hunk) _ λ _. ok-Calm _)

differs : (c d : ℕ) → 0x80 ≤ c → d < 0x80 → c == d ≡ false
differs c d wide narrow = ground arith

reject_unsupported-wide :
    (c : ℕ) (s : Str) (n : ℕ) → 0x80 ≤ c → reject_unsupported (c ∷ s) n ≡ ok tt
unfolding reject_unsupported str_eq
reject_unsupported-wide c s n wide =
    rw
      (
        reject_unsupported,
        differs c b'd' wide (omega arith),
        differs c b'@' wide (omega arith),
        differs c b'G' wide (omega arith),
        differs c b'B' wide (omega arith),
      )
      refl

is_hunk_header-wide : (c : ℕ) (s : Str) → 0x80 ≤ c → is_hunk_header (c ∷ s) ≡ false
unfolding is_hunk_header
is_hunk_header-wide c s wide = rw (is_hunk_header, differs c b'@' wide (omega arith)) refl

str_eq-wide : (c : ℕ) (s : Str) → 0x80 ≤ c → str_eq (c ∷ s) no_newline_marker ≡ false
unfolding str_eq
str_eq-wide c s wide = rw (str_eq, differs c b'\\' wide (omega arith)) refl

wide_test : (c : ℕ) → 0x80 ≤ c → leb 0x80 c ≡ true
wide_test c wide = ground arith

narrow_test : (c : ℕ) → leb 0x80 c ≡ false → c < 0x80
narrow_test c h = ground arith

-- The text starts with a character that is not ASCII.
abbrev pub StartsWide : Str → Type 0
StartsWide [] = ⊥
StartsWide (c ∷ content) = 0x80 ≤ c

hunk_round_empty :
    (path : ChangedPath) (limits : UnifiedDiffLimits) (line : ℕ) (a : HunkAccounting)
    (records : List HunkLine) (state : MarkerState)
    → Calm (hunk_round path limits [] line a records state)
unfolding hunk_round consume reject_unsupported is_hunk_header str_eq
hunk_round_empty path limits line a records state h = cc

-- A round of the loop over the lines of a hunk panics where the line starts with a character that is
-- not ASCII, and nowhere else: any other line, the empty one too, is read or refused with an error.
pub hunk_round-panicked_iff :
    (path : ChangedPath) (limits : UnifiedDiffLimits) (text : Str) (line : ℕ) (a : HunkAccounting)
    (records : List HunkLine) (state : MarkerState)
    → (hunk_round path limits text line a records state ≡ err panicked) ↔ StartsWide text
unfolding hunk_round consume
hunk_round-panicked_iff path limits [] line a records state =
    (λ h. hunk_round_empty path limits line a records state h, λ wide. absurd wide)
hunk_round-panicked_iff path limits (c ∷ content) line a records state = (
  λ h. elim (Bool-cases (leb 0x80 c)) [
    | inl wide ↦ ground arith
    | inr narrow ↦ absurd (hunk_round-Calm path limits c content line a records state narrow h)
  ],
  λ wide.
      rw
        (
          hunk_round,
          reject_unsupported-wide c content line wide,
          is_hunk_header-wide c content wide,
          str_eq-wide c content wide,
          consume,
          wide_test c wide,
        )
        refl,
)

-- ===== src/Diff/Declared.antt =====
-- crates/revoot-core/src/diff.rs: what the text of a hunk's header declares.
use revoot.Prelude.{
  ℕ, ◌≡◌, sym, ap, subst, ◌-◌, ◌∙◌, ◌⊎◌, inl, inr, true, false, Bool, not, ◌&&◌, ◌||◌, some, ◌++◌,
  arith, ltb, ◌==◌, is_empty, is_some, Option-cases, Bool-cases, ok, ok_inj, and_then-ok,
  reject_if-ok, checked_add, u32_max,
}
use revoot.Text.{Str, lit, len, all_bytes, is_ascii_digit}
use revoot.Text.Search.{starts_with, strip_prefix, contains}
use revoot.Text.Split.{split_once, parse_u32, value_from}
use revoot.Text.Parts.{strip_prefix-eq, split_once-eq}
use revoot.Diff.{
  UnifiedDiffLimits, DiffSide, old_side, new_side, combined_diff, malformed_hunk_header, rejected,
  numeric_overflow, invalid_range_start, empty_hunk, refuse_if,
}
use revoot.Diff.Header.{
  HunkRange, HunkHeader, parse_decimal, range_numbers, parse_hunk_range, check_declared,
  header_ranges, parse_hunk_header,
}

-- The text has digits only, and stands for the number.
pub record IsNumber (text : Str) (n : ℕ) : Type 0 where
  pub some_digit : is_empty text ≡ false
  pub digits : all_bytes is_ascii_digit text ≡ true
  pub value : value_from 0 text ≡ n

-- The text is a range: its first line, and after a comma its number of lines, which is 1 if it is
-- left out.
abbrev pub IsRange : Str → HunkRange → Type 0
IsRange text r =
    (IsNumber text r.first × (r.count ≡ 1))
    ⊎ ((before : Str) × (after : Str) × (text ≡ before ++ (lit "," ++ after))
        × IsNumber before r.first
        × IsNumber after r.count)

-- The text is a header of the two ranges, with a section after it or without.
pub record Declares (text : Str) (h : HunkHeader) : Type 0 where
  pub old_text : Str
  pub new_text : Str
  pub section : Str
  pub spelled :
      text ≡ lit "@@ -" ++ ((old_text ++ (lit " +" ++ new_text)) ++ (lit " @@" ++ section))
  pub old : IsRange old_text h.old
  pub new : IsRange new_text h.new
  pub apart : is_empty section || starts_with section (lit " ") ≡ true

unrefused : (b c : Bool) → not b && not c ≡ false → b || c ≡ true
unrefused b c h = ground arith

parse_u32-value : (s : Str) {n : ℕ} → parse_u32 s ≡ some n → value_from 0 s ≡ n
unfolding parse_u32
parse_u32-value s h = ground arith

parse_decimal-IsNumber :
    (text : Str) (line : ℕ) {n : ℕ} → parse_decimal text line ≡ ok n → IsNumber text n
unfolding parse_decimal
parse_decimal-IsNumber text line {n} h = elim (Option-cases (parse_u32 text)) [
  | inl gone ↦ absurd (ground (arith, rw (parse_decimal, gone) at h))
  | inr (m, e) ↦
      let zeros = ltb 1 (len text) && starts_with text (lit "0") in
      let s1 =
        and_then-ok
          (refuse_if (is_empty text || not (all_bytes is_ascii_digit text) || zeros)
            (malformed_hunk_header line))
          _ h in
      let clear = reject_if-ok _ (rejected (malformed_hunk_header line)) s1.1 in
      record {
        some_digit = ground (arith, clear);
        digits = ground (arith, clear);
        value = parse_u32-value text e ∙ ok_inj (rw e at s1.2);
      }
]

range_numbers-IsRange :
    (text : Str) (line : ℕ) {r : HunkRange}
    → range_numbers text line ≡ ok (r.first, r.count)
    → IsRange text r
unfolding range_numbers
range_numbers-IsRange text line {r} h = elim (Option-cases (split_once (lit ",") text)) [
  | inl gone ↦
      let s1 = and_then-ok (parse_decimal text line) _ (rw (range_numbers, gone) at h) in
      let made = ok_inj s1.2 in
      inl (
        subst (IsNumber text) (ap (λ x. x.0) made) (parse_decimal-IsNumber text line s1.1),
        sym (ap (λ x. x.1) made),
      )
  | inr ((before, after), e) ↦ elim (Bool-cases (contains after (lit ","))) [
    | inl more ↦ absurd (ground (arith, rw (range_numbers, e, more) at h))
    | inr last ↦
        let s1 = and_then-ok (parse_decimal before line) _ (rw (range_numbers, e, last) at h) in
        let s2 = and_then-ok (parse_decimal after line) _ s1.2 in
        let made = ok_inj s2.2 in
        inr (
          before,
          after,
          split_once-eq (lit ",") text e,
          subst (IsNumber before) (ap (λ x. x.0) made) (parse_decimal-IsNumber before line s1.1),
          subst (IsNumber after) (ap (λ x. x.1) made) (parse_decimal-IsNumber after line s2.1),
        )
  ]
]

parse_hunk_range-IsRange :
    (text : Str) (line : ℕ) (side : DiffSide) {r : HunkRange}
    → parse_hunk_range text line side ≡ ok r
    → IsRange text r
unfolding parse_hunk_range
parse_hunk_range-IsRange text line side {r} h =
    let s1 = and_then-ok (range_numbers text line) _ h in
    let s2 =
      and_then-ok (refuse_if (ltb 0 s1.0.1 && s1.0.0 == 0) (invalid_range_start line side)) _
        s1.2 in
    let s3 =
      and_then-ok
        (refuse_if (ltb 0 s1.0.1 && not (is_some (checked_add u32_max s1.0.0 (s1.0.1 - 1))))
          (numeric_overflow line))
        _ s2.2 in
    subst (IsRange text) (ok_inj s3.2)
      (range_numbers-IsRange text line {r = record { first = s1.0.0; count = s1.0.1 }} s1.1)

header_ranges-eq :
    (text : Str) (line : ℕ) {sides : Str × Str}
    → header_ranges text line ≡ ok sides
    → (section : Str) × (text
        ≡ lit "@@ -" ++ ((sides.0 ++ (lit " +" ++ sides.1)) ++ (lit " @@" ++ section)))
      × (is_empty section || starts_with section (lit " ") ≡ true)
unfolding header_ranges
header_ranges-eq text line {sides} h = elim (Option-cases (strip_prefix text (lit "@@ -"))) [
  | inl gone ↦ absurd (ground (arith, rw (header_ranges, gone) at h))
  | inr (rest, e) ↦ elim (Option-cases (split_once (lit " @@") rest)) [
    | inl gone ↦ absurd (ground (arith, rw (header_ranges, e, gone) at h))
    | inr ((ranges, section), f) ↦
        let s1 =
          and_then-ok
            (refuse_if (not (is_empty section) && not (starts_with section (lit " ")))
              (malformed_hunk_header line))
            _ (rw (header_ranges, e, f) at h) in
        elim (Option-cases (split_once (lit " +") ranges)) [
          | inl gone ↦ absurd (ground (arith, rw gone at s1.2))
          | inr (both, g) ↦
              let same = ok_inj (rw g at s1.2) in
              (
                section,
                strip_prefix-eq (lit "@@ -") text e
                    ∙ ap (λ l. lit "@@ -" ++ l)
                        (split_once-eq (lit " @@") rest f
                          ∙ ap (λ l. l ++ (lit " @@" ++ section))
                              (split_once-eq (lit " +") ranges (g ∙ ap some same))),
                unrefused _ _ (reject_if-ok _ (rejected (malformed_hunk_header line)) s1.1),
              )
        ]
  ]
]

pub parse_hunk_header-Declares :
    (text : Str) (line : ℕ) (limits : UnifiedDiffLimits) {h : HunkHeader}
    → parse_hunk_header text line limits ≡ ok h
    → Declares text h
unfolding parse_hunk_header
parse_hunk_header-Declares text line limits {h} e =
    let s1 = and_then-ok (refuse_if (starts_with text (lit "@@@")) (combined_diff line)) _ e in
    let s2 = and_then-ok (header_ranges text line) _ s1.2 in
    let s3 = and_then-ok (parse_hunk_range s2.0.0 line old_side) _ s2.2 in
    let s4 = and_then-ok (parse_hunk_range s2.0.1 line new_side) _ s3.2 in
    let s5 =
      and_then-ok (refuse_if (s3.0.count == 0 && s4.0.count == 0) (empty_hunk line)) _ s4.2 in
    let s6 = and_then-ok (check_declared limits line old_side s3.0) _ s5.2 in
    let s7 = and_then-ok (check_declared limits line new_side s4.0) _ s6.2 in
    let text_of = header_ranges-eq text line s2.1 in
    subst (Declares text) (ok_inj s7.2) (record {
      old_text = s2.0.0;
      new_text = s2.0.1;
      section = text_of.0;
      spelled = text_of.1;
      old = parse_hunk_range-IsRange s2.0.0 line old_side s3.1;
      new = parse_hunk_range-IsRange s2.0.1 line new_side s4.1;
      apart = text_of.2;
    })

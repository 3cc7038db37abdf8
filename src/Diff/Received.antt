-- ===== src/Diff/Received.antt =====
-- crates/revoot-core/src/diff.rs: the lines of the input, against its text.
use revoot.Prelude.{
  unnegated, ℕ, ◌+◌, ◌≡◌, ◌∙◌, refl, sym, ap, Bool, true, false, not, List, [], ◌∷◌, ◌++◌,
  append_assoc, arith, any, ◌==◌, Bool-cases, inl, inr, ==_iff, All, is_empty, ltb, length, ok,
  ok_inj, and_then-ok, map_err, map_err-ok, reject_if-ok, map, subst,
}
use revoot.Text.{Str, lit, len}
use revoot.Text.Search.{ends_with}
use revoot.Text.Split.{split, from_utf8}
use revoot.Text.Parts.{ended, split-ended, split-All, ends_with-last}
use revoot.Diff.{
  UnifiedDiffLimits, rejected, refuse_if, empty_input, input_too_large, invalid_utf8,
  missing_final_line_feed, too_many_input_lines, line_too_long, embedded_carriage_return,
}
use revoot.Diff.Lines.{number_of, drop_last, strip_cr, check_raw, normalized_lines, validated_lines}

-- a line, with whether a carriage return is before its line feed
abbrev pub Ended : Type 0
Ended = Str × Bool

abbrev pub return_of : Bool → Str
return_of true = 0xd ∷ []
return_of false = []

-- the text of lines, each with its end
abbrev pub text_of : List Ended → Str
text_of [] = []
text_of ((line, returned) ∷ rest) = line ++ (return_of returned ++ (0xa ∷ text_of rest))

-- A line without an end of its own.
abbrev pub IsLine : Str → Type 0
IsLine line = (any (λ c. c == 0xa) line ≡ false) × (any (λ c. c == 0xd) line ≡ false)

-- The input is the UTF-8 of the lines, each with a line feed after it, or a carriage return and a
-- line feed.
pub record IsText (input : List ℕ) (lines : List Str) : Type 0 where
  pub text : Str
  pub decoded : from_utf8 input ≡ ok text
  pub marked : List Ended
  pub spelled : text ≡ text_of marked
  pub same : map (λ l. l.0) marked ≡ lines
  pub each : All IsLine lines

strip_cr-eq : (raw : Str) → (b : Bool) × (raw ≡ strip_cr raw ++ return_of b)
unfolding strip_cr
strip_cr-eq [] = (false, refl)
strip_cr-eq (c ∷ []) = elim (Bool-cases (c == 0xd)) [
  | inl same ↦ (true, rw same (ap (λ x. x ∷ []) ((==_iff c 0xd).0 same)))
  | inr other ↦ (false, rw other refl)
]
strip_cr-eq (c ∷ d ∷ s) = let rest = strip_cr-eq (d ∷ s) in (rest.0, ap (λ l. c ∷ l) rest.1)

any-left : (f : ℕ → Bool) (s t : Str) → any f (s ++ t) ≡ false → any f s ≡ false
any-left f [] t h = refl
any-left f (c ∷ s) t h = ground (arith, any-left f s t)

record Normalized (raws lines : List Str) : Type 0 where
  marked : List Ended
  spelled : ended 0xa raws ≡ text_of marked
  same : map (λ l. l.0) marked ≡ lines
  each : All IsLine lines

normalized_lines-Normalized :
    (limits : UnifiedDiffLimits) (done : ℕ) (raws : List Str) {lines : List Str}
    → All (λ p. any (λ d. d == 0xa) p ≡ false) raws
    → normalized_lines limits done raws ≡ ok lines
    → Normalized raws lines
unfolding normalized_lines check_raw
normalized_lines-Normalized limits done [] apart h =
    subst (Normalized []) (ok_inj h)
      (record { marked = []; spelled = refl; same = refl; each = tt })
normalized_lines-Normalized limits done (raw ∷ raws) {lines} apart h =
    let n = number_of done in
    let s1 = and_then-ok (check_raw limits n raw) _ h in
    let s2 = and_then-ok (normalized_lines limits (done + 1) raws) _ s1.2 in
    let c1 =
      and_then-ok
        (refuse_if (ltb limits.max_input_lines n) (too_many_input_lines n limits.max_input_lines)) _
        s1.1 in
    let c2 =
      and_then-ok
        (refuse_if (ltb limits.max_line_bytes (len raw))
          (line_too_long n (len raw) limits.max_line_bytes))
        _ c1.2 in
    let returnless = reject_if-ok _ (rejected (embedded_carriage_return n)) c2.2 in
    let rest = normalized_lines-Normalized limits (done + 1) raws {lines = s2.0} apart.1 s2.1 in
    let own = strip_cr-eq raw in
    subst (Normalized (raw ∷ raws)) (ok_inj s2.2) (record {
      marked = (strip_cr raw, own.0) ∷ rest.marked;
      spelled =
          ap (λ l. l ++ (0xa ∷ ended 0xa raws)) own.1
          ∙ append_assoc (strip_cr raw) (return_of own.0) (0xa ∷ ended 0xa raws)
          ∙ ap (λ l. strip_cr raw ++ (return_of own.0 ++ (0xa ∷ l))) rest.spelled;
      same = ap (λ l. strip_cr raw ∷ l) rest.same;
      each = (
        (
          any-left (λ c. c == 0xa) (strip_cr raw) (return_of own.0)
              (sym (ap (any (λ c. c == 0xa)) own.1) ∙ apart.0),
          returnless,
        ),
        rest.each,
      );
    })

drop_last-append : (s : Str) (c : ℕ) → drop_last (s ++ c ∷ []) ≡ s
drop_last-append [] c = refl
drop_last-append (d ∷ []) c = refl
drop_last-append (d ∷ e ∷ s) c = ap (λ l. d ∷ l) (drop_last-append (e ∷ s) c)

pub validated_lines-IsText :
    (input : List ℕ) (limits : UnifiedDiffLimits) {lines : List Str}
    → validated_lines input limits ≡ ok lines
    → IsText input lines
unfolding validated_lines
validated_lines-IsText input limits {lines} h =
    let s1 = and_then-ok (refuse_if (is_empty input) empty_input) _ h in
    let s2 =
      and_then-ok
        (refuse_if (ltb limits.max_input_bytes (length input))
          (input_too_large (length input) limits.max_input_bytes))
        _ s1.2 in
    let s3 = and_then-ok (map_err (λ at. rejected (invalid_utf8 at)) (from_utf8 input)) _ s2.2 in
    let s4 =
      and_then-ok (refuse_if (not (ends_with s3.0 (lit "\n"))) missing_final_line_feed) _ s3.2 in
    let fed =
      ends_with-last 0xa s3.0
        (unnegated _ (reject_if-ok _ (rejected missing_final_line_feed) s4.1)) in
    let body = drop_last s3.0 in
    let whole : s3.0 ≡ body ++ 0xa ∷ [] =
      fed.1 ∙ ap (λ l. l ++ 0xa ∷ []) (sym (ap drop_last fed.1 ∙ drop_last-append fed.0 0xa)) in
    let r =
      normalized_lines-Normalized limits 0 (split 0xa body) {lines = lines} (split-All 0xa body)
        s4.2 in
    record {
      text = s3.0;
      decoded = map_err-ok _ (from_utf8 input) s3.1;
      marked = r.marked;
      spelled = whole ∙ split-ended 0xa body ∙ r.spelled;
      same = r.same;
      each = r.each;
    }

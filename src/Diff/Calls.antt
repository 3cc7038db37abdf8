-- ===== src/Diff/Calls.antt =====
-- crates/revoot-core/src/diff.rs: calls that do not panic.
use revoot.Prelude.{
  ℕ, ◌+◌, ◌≡◌, ◌≢◌, ap, Bool, true, false, not, if◌then◌else◌, arith, Result, ok, err, leb, ◌==◌,
  ltb, and_then,
}
use revoot.Text.{Str}
use revoot.Snapshot.Change.{ChangedPath}
use revoot.Snapshot.Position.{
  AnchorPosition, InvalidAnchorPosition, addition_at, deletion_at, context_at,
}
use revoot.Diff.{
  Parse, DiffFailure, panicked, DiffSide, UnifiedDiffError, hunk_count_exceeded,
  file_change_line_mismatch, refuse_if, old_side, new_side,
}
use revoot.Diff.Hunk.{
  HunkAccounting, context_line, deletion_line, addition_line, line_kind_valid, require_remaining,
  next_line, consume_old, consume_new, consume_context, consume_deletion, consume_addition,
  or_invalid,
}

-- a call that does not panic
abbrev pub Calm : {A : Type 0} → Parse A → Type 0
Calm r = r ≢ err panicked

err_inj : {B : Type 0} {d e : DiffFailure} → ◌≡◌ {A = Parse B} (err d) (err e) → d ≡ e
err_inj h = cc

module _ {A B : Type 0} where
  pub and_then-Calm :
      (r : Parse A) (f : A → Parse B) → Calm r → ((a : A) → Calm (f a)) → Calm (and_then r f)
  and_then-Calm (ok a) f hr hf h = hf a h
  and_then-Calm (err e) f hr hf h = hr (ap err (err_inj h))

pub refuse_if-Calm : (b : Bool) (e : UnifiedDiffError) → Calm (refuse_if b e)
refuse_if-Calm true e h = cc
refuse_if-Calm false e h = cc

pub refuse_then :
    {A : Type 0} (b : Bool) (e : UnifiedDiffError) (f : Unit {0} → Parse A)
    → ((u : Unit {0}) → Calm (f u))
    → Calm (and_then (refuse_if b e) f)
refuse_then b e f hf = and_then-Calm (refuse_if b e) f (refuse_if-Calm b e) hf

pub ok-Calm : {A : Type 0} (a : A) → Calm {A = A} (ok a)
ok-Calm a h = cc

or_invalid-Calm :
    (line : ℕ) (side : DiffSide) (r : Result InvalidAnchorPosition AnchorPosition)
    → Calm (or_invalid line side r)
or_invalid-Calm line side (ok p) h = cc
or_invalid-Calm line side (err e) h = cc

next_line-Calm : (more : Bool) (at line : ℕ) (side : DiffSide) → Calm (next_line more at line side)
next_line-Calm false at line side h = cc
next_line-Calm true at line side h = ground (arith, h)

require_remaining-Calm :
    (side : DiffSide) (line : ℕ) (a : HunkAccounting) → Calm (require_remaining side line a)
require_remaining-Calm old_side line a =
    refuse_if-Calm (leb a.header.old.count a.old_seen) (hunk_count_exceeded line old_side)
require_remaining-Calm new_side line a =
    refuse_if-Calm (leb a.header.new.count a.new_seen) (hunk_count_exceeded line new_side)

consume_old-Calm : (line : ℕ) (a : HunkAccounting) → Calm (consume_old line a)
unfolding consume_old
consume_old-Calm line a =
    and_then-Calm (next_line (ltb (a.old_seen + 1) a.header.old.count) a.old_line line old_side) _
      (next_line-Calm (ltb (a.old_seen + 1) a.header.old.count) a.old_line line old_side)
      λ at. ok-Calm _

consume_new-Calm : (line : ℕ) (a : HunkAccounting) → Calm (consume_new line a)
unfolding consume_new
consume_new-Calm line a =
    and_then-Calm (next_line (ltb (a.new_seen + 1) a.header.new.count) a.new_line line new_side) _
      (next_line-Calm (ltb (a.new_seen + 1) a.header.new.count) a.new_line line new_side)
      λ at. ok-Calm _

pub consume_context-Calm :
    (path : ChangedPath) (content : Str) (line : ℕ) (a : HunkAccounting)
    → Calm (consume_context path content line a)
unfolding consume_context
consume_context-Calm path content line a =
    refuse_then (not (line_kind_valid path.kind context_line)) (file_change_line_mismatch line) _
      λ _.
        and_then-Calm (require_remaining old_side line a) _ (require_remaining-Calm old_side line a)
          λ _.
            and_then-Calm (require_remaining new_side line a) _
              (require_remaining-Calm new_side line a)
              λ _.
                and_then-Calm
                  (or_invalid line (if a.old_line == 0 then old_side else new_side)
                    (context_at a.old_line a.new_line))
                  _
                  (or_invalid-Calm line (if a.old_line == 0 then old_side else new_side)
                    (context_at a.old_line a.new_line))
                  λ _. and_then-Calm (consume_old line a) _ (consume_old-Calm line a) λ b.
                    and_then-Calm (consume_new line b) _ (consume_new-Calm line b) λ c. ok-Calm _

pub consume_deletion-Calm :
    (path : ChangedPath) (content : Str) (line : ℕ) (a : HunkAccounting)
    → Calm (consume_deletion path content line a)
unfolding consume_deletion
consume_deletion-Calm path content line a =
    refuse_then (not (line_kind_valid path.kind deletion_line)) (file_change_line_mismatch line) _
      λ _.
        and_then-Calm (require_remaining old_side line a) _ (require_remaining-Calm old_side line a)
          λ _.
            and_then-Calm (or_invalid line old_side (deletion_at a.old_line)) _
              (or_invalid-Calm line old_side (deletion_at a.old_line))
              λ _. and_then-Calm (consume_old line a) _ (consume_old-Calm line a) λ b. ok-Calm _

pub consume_addition-Calm :
    (path : ChangedPath) (content : Str) (line : ℕ) (a : HunkAccounting)
    → Calm (consume_addition path content line a)
unfolding consume_addition
consume_addition-Calm path content line a =
    refuse_then (not (line_kind_valid path.kind addition_line)) (file_change_line_mismatch line) _
      λ _.
        and_then-Calm (require_remaining new_side line a) _ (require_remaining-Calm new_side line a)
          λ _.
            and_then-Calm (or_invalid line new_side (addition_at a.new_line)) _
              (or_invalid-Calm line new_side (addition_at a.new_line))
              λ _. and_then-Calm (consume_new line a) _ (consume_new-Calm line a) λ b. ok-Calm _

pub if-Calm : {A : Type 0} (b : Bool) (r s : Parse A) → Calm r → Calm s → Calm (if b then r else s)
if-Calm true r s hr hs = hr
if-Calm false r s hr hs = hs

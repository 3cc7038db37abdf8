-- ===== src/Diff/Consumed.antt =====
-- crates/revoot-core/src/diff.rs: one line of a hunk against the account of its two sides.
use revoot.Prelude.{
  ℕ, ◌+◌, ◌<◌, ◌≡◌, ◌∙◌, refl, ap, subst, Bool, true, false, not, [], ◌∷◌, arith, ok, inl, inr,
  if◌then◌else◌, leb, ◌==◌, ==_iff, and_then-ok, ok_inj, map_err-ok, reject_if-ok, Bool-cases,
}
use revoot.Text.{Str}
use revoot.Snapshot.Change.{ChangedPath}
use revoot.Snapshot.Position.{
  AnchorPosition, addition, deletion, context, addition_at, deletion_at, context_at,
}
use revoot.Diff.{old_side, new_side, hunk_count_exceeded, file_change_line_mismatch, rejected}
use revoot.Diff.Hunk.{
  HunkLine, HunkAccounting, context_line, deletion_line, addition_line, line_kind_valid,
  validate_line_kind, require_remaining, consume_old, consume_new, consume_context,
  consume_deletion, consume_addition, consume, or_invalid,
}
use revoot.Diff.Stepped.{
  IsNext, IsCounted, IsConsumed, consume_old-IsOldStep, consume_new-IsNewStep,
}

room_left : (n m : ℕ) → leb n m ≡ false → m < n
room_left n m h = ground arith

IsNext-room :
    (first count seen at : ℕ) → seen < count → IsNext first count seen at → at ≡ first + seen
IsNext-room first count seen at room (inl full) = absurd (omega (arith, room, full))
IsNext-room first count seen at room (inr here) = here

addition_at-eq : (n : ℕ) {p : AnchorPosition} → addition_at n ≡ ok p → p ≡ addition n
unfolding addition_at
addition_at-eq n h = ground arith

deletion_at-eq : (n : ℕ) {p : AnchorPosition} → deletion_at n ≡ ok p → p ≡ deletion n
unfolding deletion_at
deletion_at-eq n h = ground arith

context_at-eq : (o n : ℕ) {p : AnchorPosition} → context_at o n ≡ ok p → p ≡ context o n
unfolding context_at
context_at-eq o n h = ground arith

allowed : (b : Bool) → not b ≡ false → b ≡ true
allowed b h = ground arith

consume_addition-IsConsumed :
    (path : ChangedPath) (content : Str) (line : ℕ) (a : HunkAccounting) {r : HunkLine}
    {b : HunkAccounting}
    → IsCounted a
    → consume_addition path content line a ≡ ok (r, b)
    → IsConsumed path (b'+' ∷ content) a r b
unfolding consume_addition
consume_addition-IsConsumed path content line a {r} {b} c h =
    let s1 = and_then-ok (validate_line_kind path.kind addition_line line) _ h in
    let s2 = and_then-ok (require_remaining new_side line a) _ s1.2 in
    let s3 = and_then-ok (or_invalid line new_side (addition_at a.new_line)) _ s2.2 in
    let s4 = and_then-ok (consume_new line a) _ s3.2 in
    let kind =
      reject_if-ok (not (line_kind_valid path.kind addition_line))
        (rejected (file_change_line_mismatch line)) s1.1 in
    let room = room_left a.header.new.count a.new_seen (
      reject_if-ok (leb a.header.new.count a.new_seen)
        (rejected (hunk_count_exceeded line new_side)) s2.1) in
    let at = addition_at-eq a.new_line (map_err-ok _ (addition_at a.new_line) s3.1) in
    let here =
      IsNext-room a.header.new.first a.header.new.count a.new_seen a.new_line room c.new_next in
    let step = consume_new-IsNewStep line a c room s4.1 in
    let made = ok_inj s4.2 in
    subst (λ x. IsConsumed path (b'+' ∷ content) a x.0 x.1) made
      (record {
        spelled = refl;
        unmarked = refl;
        valid = allowed (line_kind_valid path.kind addition_line) kind;
        position = at ∙ ap addition here;
        header = step.header;
        old_seen = omega (arith, step.old_seen);
        new_seen = step.new_seen;
        counted = step.counted;
      })

consume_deletion-IsConsumed :
    (path : ChangedPath) (content : Str) (line : ℕ) (a : HunkAccounting) {r : HunkLine}
    {b : HunkAccounting}
    → IsCounted a
    → consume_deletion path content line a ≡ ok (r, b)
    → IsConsumed path (b'-' ∷ content) a r b
unfolding consume_deletion
consume_deletion-IsConsumed path content line a {r} {b} c h =
    let s1 = and_then-ok (validate_line_kind path.kind deletion_line line) _ h in
    let s2 = and_then-ok (require_remaining old_side line a) _ s1.2 in
    let s3 = and_then-ok (or_invalid line old_side (deletion_at a.old_line)) _ s2.2 in
    let s4 = and_then-ok (consume_old line a) _ s3.2 in
    let kind =
      reject_if-ok (not (line_kind_valid path.kind deletion_line))
        (rejected (file_change_line_mismatch line)) s1.1 in
    let room = room_left a.header.old.count a.old_seen (
      reject_if-ok (leb a.header.old.count a.old_seen)
        (rejected (hunk_count_exceeded line old_side)) s2.1) in
    let at = deletion_at-eq a.old_line (map_err-ok _ (deletion_at a.old_line) s3.1) in
    let here =
      IsNext-room a.header.old.first a.header.old.count a.old_seen a.old_line room c.old_next in
    let step = consume_old-IsOldStep line a c room s4.1 in
    subst (λ x. IsConsumed path (b'-' ∷ content) a x.0 x.1) (ok_inj s4.2)
      (record {
        spelled = refl;
        unmarked = refl;
        valid = allowed (line_kind_valid path.kind deletion_line) kind;
        position = at ∙ ap deletion here;
        header = step.header;
        old_seen = step.old_seen;
        new_seen = omega (arith, step.new_seen);
        counted = step.counted;
      })

consume_context-IsConsumed :
    (path : ChangedPath) (content : Str) (line : ℕ) (a : HunkAccounting) {r : HunkLine}
    {b : HunkAccounting}
    → IsCounted a
    → consume_context path content line a ≡ ok (r, b)
    → IsConsumed path (b' ' ∷ content) a r b
unfolding consume_context
consume_context-IsConsumed path content line a {r} {b} c h =
    let s1 = and_then-ok (validate_line_kind path.kind context_line line) _ h in
    let s2 = and_then-ok (require_remaining old_side line a) _ s1.2 in
    let s3 = and_then-ok (require_remaining new_side line a) _ s2.2 in
    let s4 =
      and_then-ok
        (or_invalid line (if a.old_line == 0 then old_side else new_side)
          (context_at a.old_line a.new_line))
        _ s3.2 in
    let s5 = and_then-ok (consume_old line a) _ s4.2 in
    let s6 = and_then-ok (consume_new line s5.0) _ s5.2 in
    let kind =
      reject_if-ok (not (line_kind_valid path.kind context_line))
        (rejected (file_change_line_mismatch line)) s1.1 in
    let old_room = room_left a.header.old.count a.old_seen (
      reject_if-ok (leb a.header.old.count a.old_seen)
        (rejected (hunk_count_exceeded line old_side)) s2.1) in
    let new_room = room_left a.header.new.count a.new_seen (
      reject_if-ok (leb a.header.new.count a.new_seen)
        (rejected (hunk_count_exceeded line new_side)) s3.1) in
    let at =
      context_at-eq a.old_line a.new_line (map_err-ok _ (context_at a.old_line a.new_line) s4.1) in
    let old_here =
      IsNext-room a.header.old.first a.header.old.count a.old_seen a.old_line old_room c.old_next in
    let new_here =
      IsNext-room a.header.new.first a.header.new.count a.new_seen a.new_line new_room c.new_next in
    let first = consume_old-IsOldStep line a c old_room s5.1 in
    let between = s5.0 in
    let new_room' : between.new_seen < between.header.new.count =
      rw (first.new_seen, first.header) new_room in
    let second = consume_new-IsNewStep line s5.0 first.counted new_room' s6.1 in
    subst (λ x. IsConsumed path (b' ' ∷ content) a x.0 x.1) (ok_inj s6.2)
      (record {
        spelled = refl;
        unmarked = refl;
        valid = allowed (line_kind_valid path.kind context_line) kind;
        position = at ∙ ground (arith, old_here, new_here);
        header = second.header ∙ first.header;
        old_seen = second.old_seen ∙ first.old_seen;
        new_seen = omega (arith, second.new_seen, first.new_seen);
        counted = second.counted;
      })

-- A line that is consumed becomes the record that it spells.
pub consume-IsConsumed :
    (path : ChangedPath) (text : Str) (line : ℕ) (a : HunkAccounting) {r : HunkLine}
    {b : HunkAccounting}
    → IsCounted a
    → consume path text line a ≡ ok (r, b)
    → IsConsumed path text a r b
unfolding consume
consume-IsConsumed path [] line a c h = cc
consume-IsConsumed path (d ∷ content) line a {r} {b} c h = elim (Bool-cases (leb 0x80 d)) [
  | inl wide ↦ ground (arith, wide)
  | inr narrow ↦ elim (Bool-cases (d == b' ')) [
    | inl same ↦
        let key : d ≡ b' ' = (==_iff d b' ').0 same in
        rw key (
          consume_context-IsConsumed path content line a {r = r} {b = b} c (rw (narrow, same) at h))
    | inr d1 ↦ elim (Bool-cases (d == b'-')) [
      | inl same ↦
          let key : d ≡ b'-' = (==_iff d b'-').0 same in
          rw key (
            consume_deletion-IsConsumed path content line a {r = r} {b = b} c
              (rw (narrow, d1, same) at h))
      | inr d2 ↦ elim (Bool-cases (d == b'+')) [
        | inl same ↦
            let key : d ≡ b'+' = (==_iff d b'+').0 same in
            rw key (
              consume_addition-IsConsumed path content line a {r = r} {b = b} c
                (rw (narrow, d1, d2, same) at h))
        | inr d3 ↦ ground (arith, narrow, d1, d2, d3)
      ]
    ]
  ]
]

-- ===== src/Diff/Stepped.antt =====
-- crates/revoot-core/src/diff.rs: the account of a side after one line of it.
use revoot.Prelude.{
  ℕ, ◌+◌, ◌≤◌, ◌<◌, ◌≡◌, refl, sym, subst, Bool, true, false, ◌∷◌, arith, ok, ◌⊎◌, inl, inr,
  if◌then◌else◌, ltb, and_then-ok, ok_inj, Bool-cases,
}
use revoot.Text.{Str}
use revoot.Snapshot.Change.{ChangedPath}
use revoot.Diff.{DiffSide, old_side, new_side}
use revoot.Diff.Hunk.{
  HunkLine, HunkAccounting, line_kind_valid, consume_old, consume_new, next_line,
}
use revoot.Diff.Hunks.{on_old, on_new, position_at, prefix}

-- The next number of a side, where there are lines to come on it.
abbrev pub IsNext : ℕ → ℕ → ℕ → ℕ → Type 0
IsNext first count seen at = (count ≤ seen) ⊎ (at ≡ first + seen)

pub record IsCounted (a : HunkAccounting) : Type 0 where
  pub old_within : a.old_seen ≤ a.header.old.count
  pub new_within : a.new_seen ≤ a.header.new.count
  pub old_next : IsNext a.header.old.first a.header.old.count a.old_seen a.old_line
  pub new_next : IsNext a.header.new.first a.header.new.count a.new_seen a.new_line

-- What a consumed line is, and the account after it.
pub record IsConsumed (path : ChangedPath) (line : Str) (a : HunkAccounting) (r : HunkLine)
    (b : HunkAccounting) : Type 0 where
  pub spelled : line ≡ prefix r.kind ∷ r.content
  pub unmarked : r.no_newline ≡ false
  pub valid : line_kind_valid path.kind r.kind ≡ true
  pub position :
      r.position
      ≡ position_at r.kind (a.header.old.first + a.old_seen) (a.header.new.first + a.new_seen)
  pub header : b.header ≡ a.header
  pub old_seen : b.old_seen ≡ a.old_seen + on_old r.kind
  pub new_seen : b.new_seen ≡ a.new_seen + on_new r.kind
  pub counted : IsCounted b

next_line-eq :
    (more : Bool) (at line : ℕ) (side : DiffSide) {n : ℕ}
    → next_line more at line side ≡ ok n
    → n ≡ (if more then at + 1 else at)
next_line-eq false at line side h = ground arith
next_line-eq true at line side h = ground arith

IsNext-step :
    (first count seen at : ℕ)
    → seen < count
    → IsNext first count seen at
    → IsNext first count (seen + 1) (if ltb (seen + 1) count then at + 1 else at)
IsNext-step first count seen at room (inl full) = absurd (omega (arith, room, full))
IsNext-step first count seen at room (inr here) = elim (Bool-cases (ltb (seen + 1) count)) [
  | inl more ↦ inr (rw more (omega (arith, here)))
  | inr last ↦ inl (ground (arith, last))
]

-- the account after a line of one side
pub record IsOldStep (a b : HunkAccounting) : Type 0 where
  pub header : b.header ≡ a.header
  pub old_seen : b.old_seen ≡ a.old_seen + 1
  pub new_seen : b.new_seen ≡ a.new_seen
  pub new_line : b.new_line ≡ a.new_line
  pub counted : IsCounted b

pub record IsNewStep (a b : HunkAccounting) : Type 0 where
  pub header : b.header ≡ a.header
  pub old_seen : b.old_seen ≡ a.old_seen
  pub new_seen : b.new_seen ≡ a.new_seen + 1
  pub counted : IsCounted b

pub consume_old-IsOldStep :
    (line : ℕ) (a : HunkAccounting) {b : HunkAccounting}
    → IsCounted a
    → a.old_seen < a.header.old.count
    → consume_old line a ≡ ok b
    → IsOldStep a b
unfolding consume_old
consume_old-IsOldStep line a {b} c room h =
    let s =
      and_then-ok (next_line (ltb (a.old_seen + 1) a.header.old.count) a.old_line line old_side) _
        h in
    let at = next_line-eq (ltb (a.old_seen + 1) a.header.old.count) a.old_line line old_side s.1 in
    subst (IsOldStep a) (ok_inj s.2) (record {
      header = refl;
      old_seen = refl;
      new_seen = refl;
      new_line = refl;
      counted = record {
        old_within = omega (arith, room);
        new_within = c.new_within;
        old_next = subst (IsNext a.header.old.first a.header.old.count (a.old_seen + 1)) (sym at) (
            IsNext-step a.header.old.first a.header.old.count a.old_seen a.old_line room
              c.old_next);
        new_next = c.new_next;
      };
    })

pub consume_new-IsNewStep :
    (line : ℕ) (a : HunkAccounting) {b : HunkAccounting}
    → IsCounted a
    → a.new_seen < a.header.new.count
    → consume_new line a ≡ ok b
    → IsNewStep a b
unfolding consume_new
consume_new-IsNewStep line a {b} c room h =
    let s =
      and_then-ok (next_line (ltb (a.new_seen + 1) a.header.new.count) a.new_line line new_side) _
        h in
    let at = next_line-eq (ltb (a.new_seen + 1) a.header.new.count) a.new_line line new_side s.1 in
    subst (IsNewStep a) (ok_inj s.2) (record {
      header = refl;
      old_seen = refl;
      new_seen = refl;
      counted = record {
        old_within = c.old_within;
        new_within = omega (arith, room);
        old_next = c.old_next;
        new_next = subst (IsNext a.header.new.first a.header.new.count (a.new_seen + 1)) (sym at) (
            IsNext-step a.header.new.first a.header.new.count a.new_seen a.new_line room
              c.new_next);
      };
    })

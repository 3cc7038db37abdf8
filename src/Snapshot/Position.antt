-- ===== src/Snapshot/Position.antt =====
-- crates/revoot-core/src/snapshot.rs: positions of lines, and the lines that may be commented.
use revoot.Prelude.{ℕ, Bool, not, ◌&&◌, ◌||◌, ◌==◌, if◌then◌else◌, Result, ok, err}
use revoot.Snapshot.{Sha256Digest}
use revoot.Snapshot.Change.{ChangedPath}

pub data AnchorPosition : Type 0 where
  addition : (new_line : ℕ) → AnchorPosition  -- u32, as are the two below
  deletion : (old_line : ℕ) → AnchorPosition
  context : (old_line new_line : ℕ) → AnchorPosition

pub data InvalidAnchorPosition : Type 0 where
  invalid_anchor_position : InvalidAnchorPosition

unfoldable pub addition_at : ℕ → Result InvalidAnchorPosition AnchorPosition
addition_at new_line = if new_line == 0 then err invalid_anchor_position else ok (addition new_line)

unfoldable pub deletion_at : ℕ → Result InvalidAnchorPosition AnchorPosition
deletion_at old_line = if old_line == 0 then err invalid_anchor_position else ok (deletion old_line)

unfoldable pub context_at : ℕ → ℕ → Result InvalidAnchorPosition AnchorPosition
context_at old_line new_line =
    if old_line == 0 || new_line == 0
    then err invalid_anchor_position
    else ok (context old_line new_line)

unfoldable pub valid : AnchorPosition → Bool
valid (addition new_line) = not (new_line == 0)
valid (deletion old_line) = not (old_line == 0)
valid (context old_line new_line) = not (old_line == 0) && not (new_line == 0)

pub record CommentableLine : Type 0 where
  pub path : ChangedPath
  pub position : AnchorPosition
  pub exact_line_digest : Sha256Digest
  pub context_digest : Sha256Digest

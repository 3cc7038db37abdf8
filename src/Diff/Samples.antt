-- ===== src/Diff/Samples.antt =====
-- A small diff, for the tests.
use revoot.Prelude.{ℕ, List, [], ◌∷◌}
use revoot.Text.{lit}
use revoot.Snapshot.{Sha256Digest}
use revoot.Snapshot.Change.{ChangedPath, modified}
use revoot.Snapshot.Position.{AnchorPosition, addition, deletion, context, CommentableLine}
use revoot.Diff.{ParsedFileDiff}
use revoot.Diff.Header.{HunkHeader}

abbrev pub source_file : ChangedPath
source_file = record {
  old_path = record { as_str = lit "a.rs" };
  new_path = record { as_str = lit "a.rs" };
  kind = modified;
}

-- The hasher stands for SHA-256.
abbrev pub one_digest : Sha256Digest
one_digest = record { as_str = lit "d0" }

abbrev pub one_hash : List ℕ → Sha256Digest
one_hash input = one_digest

abbrev pub small_input : List ℕ
small_input = lit "--- a/a.rs\n+++ b/a.rs\n@@ -10,2 +20,3 @@ fn demo\n same\n-old\n+new\n+extra\n"

abbrev line_at : AnchorPosition → CommentableLine
line_at position = record {
  path = source_file;
  position = position;
  exact_line_digest = one_digest;
  context_digest = one_digest;
}

abbrev pub small_result : ParsedFileDiff
small_result = record {
  input_sha256 = one_digest;
  hunk_count = 1;
  commentable_lines =
      line_at (context 10 20)
      ∷ line_at (deletion 11)
      ∷ line_at (addition 21)
      ∷ line_at (addition 22)
      ∷ [];
}

abbrev pub small_header : HunkHeader
small_header = record {
  line = 3;
  old = record { first = 10; count = 2 };
  new = record { first = 20; count = 3 };
}

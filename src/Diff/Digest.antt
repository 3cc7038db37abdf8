-- ===== src/Diff/Digest.antt =====
-- crates/revoot-core/src/diff.rs: what is hashed of a line, and of the lines round it.
-- SHA-256 is not part of the crate: it is an argument, from the bytes that were fed to the hasher to
-- the digest that is made of them.
use revoot.Prelude.{
  ℕ, zero, suc, ◌-◌, List, [], ◌∷◌, ◌++◌, leb, if◌then◌else◌, length, take, saturating_add, u64_max,
}
use revoot.Text.{Str, lit, bytes}
use revoot.Hash.{to_be_bytes, hash_field}
use revoot.Snapshot.{Sha256Digest}
use revoot.Snapshot.Position.{AnchorPosition, addition, deletion, context}
use revoot.Diff.Hunk.{HunkLine, HunkLineKind, context_line, deletion_line, addition_line}

abbrev kind_name : HunkLineKind → Str
kind_name context_line = lit "context"
kind_name deletion_line = lit "deletion"
kind_name addition_line = lit "addition"

abbrev position_fields : AnchorPosition → List ℕ
position_fields (addition new_line) = hash_field (lit "none") ++ hash_field (to_be_bytes 4 new_line)
position_fields (deletion old_line) = hash_field (to_be_bytes 4 old_line) ++ hash_field (lit "none")
position_fields (context old_line new_line) =
    hash_field (to_be_bytes 4 old_line) ++ hash_field (to_be_bytes 4 new_line)

unfoldable hash_line : HunkLine → List ℕ
unfolding hash_field to_be_bytes bytes
hash_line r =
    hash_field (kind_name r.kind)
    ++ (position_fields r.position
        ++ (hash_field ((if r.no_newline then 1 else 0) ∷ []) ++ hash_field (bytes r.content)))

abbrev drop {ℓ} : {A : Type ℓ} → ℕ → List A → List A
drop zero xs = xs
drop (suc n) [] = []
drop (suc n) (x ∷ xs) = drop n xs

abbrev hash_lines : List HunkLine → List ℕ
hash_lines [] = []
hash_lines (r ∷ rs) = hash_line r ++ hash_lines rs

abbrev min_of : ℕ → ℕ → ℕ
min_of a b = if leb a b then a else b

unfoldable pub exact_line_input : HunkLine → List ℕ
unfolding hash_line
exact_line_input r = hash_field (lit "revoot-diff-line-v1") ++ hash_line r

unfoldable pub context_input : List HunkLine → ℕ → ℕ → List ℕ
unfolding hash_line
context_input records anchor radius =
    let first = anchor - radius in
    let end =
      min_of (saturating_add u64_max (saturating_add u64_max anchor radius) 1) (length records) in
    hash_field (lit "revoot-diff-context-v1")
    ++ (hash_field (to_be_bytes 8 radius)
        ++ (hash_field (to_be_bytes 8 (anchor - first))
            ++ (hash_field (to_be_bytes 8 (end - first))
                ++ hash_lines (take (end - first) (drop first records)))))

module _ (sha256 : List ℕ → Sha256Digest) where
  unfoldable pub exact_line_digest : HunkLine → Sha256Digest
  exact_line_digest r = sha256 (exact_line_input r)

  unfoldable pub context_digest : List HunkLine → ℕ → ℕ → Sha256Digest
  context_digest records anchor radius = sha256 (context_input records anchor radius)

-- ===== src/Snapshot/Tests.antt =====
-- Uses of the theorems on snapshots, at a small one.
use revoot.Prelude.{ℕ, arith, ◌≡◌, ◌↔◌, refl, List, [], ◌∷◌, inl, inr, IsIn, some, ok, All, map}
use revoot.Text.{Str, bytes}
use revoot.Snapshot.Position.{CommentableLine}
use revoot.Snapshot.Pages.{completeness, complete}
use revoot.Snapshot.Pages.Laws.{IsContiguous, completeness-complete_iff}
use revoot.Snapshot.Binding.{bound, bind_latest_snapshot}
use revoot.Snapshot.Bound.{IsBound, bind_latest_snapshot-bound_iff}
use revoot.Snapshot.Evidence.{ready}
use revoot.Snapshot.Blobs.{assess}
use revoot.Snapshot.Complete.{IsComplete, assess-IsComplete}
use revoot.Snapshot.Anchors.{
  TrustedAnchor, line, AnchorTable, resolve, derive_anchor_id, from_anchors, anchor_of, build,
  sort_by_id,
}
use revoot.Snapshot.Sorted.{IsAscending}
use revoot.Snapshot.Resolved.{IsTrusted, from_anchors-resolve_iff, build-resolve}
use revoot.Snapshot.Samples.{
  second_refs, two_versions, scope, newest, whole_evidence, review_identity, fifth_line, sixth_line,
  fed_hex,
}

completeness-complete_iff_example :
    (completeness two_versions ≡ complete 1 2)
    ↔ (IsContiguous 1 two_versions.pages × ◌≡◌ {A = ℕ} 2 2)
completeness-complete_iff_example =
    completeness-complete_iff two_versions (omega arith) (omega arith) (omega arith)

bind_latest_snapshot-bound_iff_example :
    (bind_latest_snapshot scope (some second_refs) two_versions ≡ bound newest)
    ↔ IsBound scope (some second_refs) two_versions newest
bind_latest_snapshot-bound_iff_example =
    bind_latest_snapshot-bound_iff scope (some second_refs) two_versions newest

two_versions_bound : bind_latest_snapshot scope (some second_refs) two_versions ≡ bound newest
unfolding bind_latest_snapshot revoot.Text.str_eq revoot.Snapshot.Pages.pagination_issues
two_versions_bound = refl

whole_ready : (assess whole_evidence).readiness ≡ ready
unfolding assess revoot.Set.insert revoot.Text.str_eq revoot.Set.put
    revoot.Snapshot.Pages.pagination_issues
whole_ready = refl

assess-IsComplete_example : IsComplete whole_evidence (assess whole_evidence)
assess-IsComplete_example = assess-IsComplete whole_evidence whole_ready

abbrev lines : List CommentableLine
lines = fifth_line ∷ sixth_line ∷ []

abbrev anchors : List TrustedAnchor
anchors = map (anchor_of fed_hex review_identity) lines

abbrev table : AnchorTable
table = record { identity = review_identity; anchors = sort_by_id anchors }

table_made : from_anchors fed_hex review_identity anchors ≡ ok table
unfolding from_anchors revoot.Set.insert
table_made = refl

table_built : build fed_hex review_identity lines ≡ ok table
unfolding build revoot.Set.insert
table_built = refl

from_anchors-resolve_iff_example :
    All (IsTrusted fed_hex review_identity) anchors
    × IsAscending table.anchors
    × ((id : Str) (a : TrustedAnchor)
        → (resolve table id ≡ some a) ↔ (IsIn a anchors × (a.id.as_str ≡ id)))
from_anchors-resolve_iff_example =
    from_anchors-resolve_iff fed_hex review_identity anchors {t = table} table_made

build-resolve_example :
    (a : TrustedAnchor) × (resolve table
        (derive_anchor_id fed_hex review_identity sixth_line).as_str
      ≡ some a)
    × (line a ≡ sixth_line)
build-resolve_example =
    build-resolve fed_hex review_identity lines {t = table} table_built sixth_line (inr (inl refl))

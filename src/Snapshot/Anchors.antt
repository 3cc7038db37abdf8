-- ===== src/Snapshot/Anchors.antt =====
-- crates/revoot-core/src/snapshot.rs: the identifiers of lines, and the table that resolves them.
use revoot.Prelude.{
  ℕ, Bool, true, false, not, Option, none, some, List, [], ◌∷◌, ◌++◌, ◌==◌, Result, ok, err,
  and_then, reject_if, is_some, map, zero, suc, ◌/◌, split_at, length as size, if◌then◌else◌,
}
use revoot.Text.{Str, lit, len, str_eq, bytes}
use revoot.Text.Search.{strip_prefix}
use revoot.Map.{str_ltb}
use revoot.Set.{Key, has, insert}
use revoot.Hash.{to_be_bytes, hash_field}
use revoot.Snapshot.{
  HexIdentityError, length, character, is_lower_hex, sha256_hex_len, Sha256Digest,
  ReviewSnapshotIdentity, git_lab, git_hub, local,
}
use revoot.Snapshot.Change.{
  FileChangeKind, modified, renamed, added, deleted, ChangedPath, path_key, semantic_issue,
}
use revoot.Snapshot.Position.{AnchorPosition, addition, deletion, context, valid, CommentableLine}

pub record AnchorId : Type 0 where
  pub as_str : Str

abbrev anchor_prefix : Str
anchor_prefix = lit "ga1_"

unfoldable pub anchor_id : Str → Result HexIdentityError AnchorId
unfolding len strip_prefix
anchor_id value = elim (strip_prefix value anchor_prefix) [
  | none ↦ err length
  | some digest ↦ and_then (reject_if (not (len digest == sha256_hex_len)) length) λ _.
      and_then (reject_if (not (is_lower_hex digest)) character) λ _. ok (record { as_str = value })
]

pub record TrustedAnchor : Type 0 where
  pub id : AnchorId
  pub path : ChangedPath
  pub position : AnchorPosition
  pub exact_line_digest : Sha256Digest
  pub context_digest : Sha256Digest

abbrev pub line : TrustedAnchor → CommentableLine
line a = record {
  path = a.path;
  position = a.position;
  exact_line_digest = a.exact_line_digest;
  context_digest = a.context_digest;
}

pub data AnchorTableError : Type 0 where
  invalid_position invalid_changed_path position_incompatible_with_file_change : AnchorTableError
  duplicate_coordinate duplicate_anchor_id identity_mismatch : AnchorTableError

-- the bytes that `hash_snapshot_identity` feeds to the hasher
unfoldable hash_snapshot_identity : ReviewSnapshotIdentity → List ℕ
unfolding hash_field to_be_bytes bytes
hash_snapshot_identity (git_lab i) =
    hash_field (lit "revoot-gitlab-anchor-v1")
    ++ (hash_field (bytes i.version.scope.instance_origin_digest.as_str)
        ++ (hash_field (to_be_bytes 8 i.version.scope.project_id)
            ++ (hash_field (to_be_bytes 8 i.version.scope.merge_request_iid)
                ++ (hash_field (to_be_bytes 8 i.version.diff_version.id)
                    ++ (hash_field (bytes i.version.diff_version.refs.base_sha.as_str)
                        ++ (hash_field (bytes i.version.diff_version.refs.start_sha.as_str)
                            ++ (hash_field (bytes i.version.diff_version.refs.head_sha.as_str)
                                ++ hash_field (bytes i.exact_diff_manifest_sha256.as_str))))))))
hash_snapshot_identity (git_hub i) =
    hash_field (lit "revoot-github-anchor-v1")
    ++ (hash_field (bytes i.api_origin_digest.as_str)
        ++ (hash_field (to_be_bytes 8 i.repository_id)
            ++ (hash_field (to_be_bytes 8 i.pull_request_number)
                ++ (hash_field (bytes i.base_sha.as_str)
                    ++ (hash_field (bytes i.head_sha.as_str)
                        ++ hash_field (bytes i.exact_diff_manifest_sha256.as_str))))))
hash_snapshot_identity (local i) =
    hash_field (lit "revoot-local-anchor-v1")
    ++ (hash_field (bytes i.repository_identity_sha256.as_str)
        ++ (hash_field (bytes i.base_sha.as_str)
            ++ (hash_field (bytes i.head_sha.as_str)
                ++ (hash_field (bytes i.working_tree_sha256.as_str)
                    ++ hash_field (bytes i.exact_diff_manifest_sha256.as_str)))))

abbrev change_kind : FileChangeKind → Str
change_kind modified = lit "modified"
change_kind renamed = lit "renamed"
change_kind added = lit "added"
change_kind deleted = lit "deleted"

abbrev position_bytes : AnchorPosition → List ℕ
position_bytes (addition new_line) =
    hash_field (lit "addition") ++ hash_field (to_be_bytes 4 new_line)
position_bytes (deletion old_line) =
    hash_field (lit "deletion") ++ hash_field (to_be_bytes 4 old_line)
position_bytes (context old_line new_line) =
    hash_field (lit "context")
    ++ (hash_field (to_be_bytes 4 old_line) ++ hash_field (to_be_bytes 4 new_line))

-- all that is fed to the hasher of an anchor
unfoldable anchor_input : ReviewSnapshotIdentity → CommentableLine → List ℕ
unfolding hash_snapshot_identity hash_field to_be_bytes bytes
anchor_input identity line =
    hash_snapshot_identity identity
    ++ (hash_field (bytes line.path.old_path.as_str)
        ++ (hash_field (bytes line.path.new_path.as_str)
            ++ (hash_field (change_kind line.path.kind)
                ++ (position_bytes line.position
                    ++ (hash_field (bytes line.exact_line_digest.as_str)
                        ++ hash_field (bytes line.context_digest.as_str))))))

abbrev pub compatible : FileChangeKind → AnchorPosition → Bool
compatible added (addition n) = true
compatible added _ = false
compatible deleted (deletion n) = true
compatible deleted _ = false
compatible modified _ = true
compatible renamed _ = true

abbrev position_key : AnchorPosition → Key
position_key (addition n) = (0 ∷ []) ∷ (n ∷ []) ∷ []
position_key (deletion n) = (1 ∷ []) ∷ (n ∷ []) ∷ []
position_key (context o n) = (2 ∷ []) ∷ (o ∷ []) ∷ (n ∷ []) ∷ []

abbrev pub coordinate_key : TrustedAnchor → Key
coordinate_key a = path_key a.path ++ position_key a.position

abbrev pub id_key : TrustedAnchor → Key
id_key a = a.id.as_str ∷ []

pub record AnchorTable : Type 0 where
  pub identity : ReviewSnapshotIdentity
  pub anchors : List TrustedAnchor

-- `sort_by` the ids
unfoldable pub insert_sorted : TrustedAnchor → List TrustedAnchor → List TrustedAnchor
unfolding str_ltb
insert_sorted a [] = a ∷ []
insert_sorted a (b ∷ s) =
    let rest = insert_sorted a s in if str_ltb b.id.as_str a.id.as_str then b ∷ rest else a ∷ b ∷ s

unfoldable pub sort_by_id : List TrustedAnchor → List TrustedAnchor
unfolding insert_sorted
sort_by_id [] = []
sort_by_id (a ∷ s) = insert_sorted a (sort_by_id s)

-- `binary_search_by` the ids, with the element at the index that it finds: the anchor in the middle
-- is compared, and the search goes on in one of the two parts. The fuel is for the rounds.
unfoldable pub search : ℕ → Str → List TrustedAnchor → Option TrustedAnchor
unfolding str_eq str_ltb
search zero id s = none
search (suc fuel) id s =
    let (before, rest) = split_at (size s / 2) s in
    elim rest [
      | [] ↦ none
      | a ∷ after ↦
          let left = search fuel id before in
          let right = search fuel id after in
          if str_eq a.id.as_str id then some a else if str_ltb a.id.as_str id then right else left
    ]

-- Each round takes an anchor out at least, so as many rounds as there are anchors are enough.
unfoldable pub anchor_with : Str → List TrustedAnchor → Option TrustedAnchor
unfolding search
anchor_with id s = search (size s) id s

unfoldable pub resolve : AnchorTable → Str → Option TrustedAnchor
unfolding anchor_with
resolve t id = anchor_with id t.anchors

module _ (sha256_hex : List ℕ → Str) where
  unfoldable pub derive_anchor_id : ReviewSnapshotIdentity → CommentableLine → AnchorId
  unfolding anchor_input
  derive_anchor_id identity line = record {
    as_str = anchor_prefix ++ sha256_hex (anchor_input identity line);
  }

  -- The loop of `from_anchors`; the sets hold the anchors before these.
  unfoldable pub check_anchors :
      ReviewSnapshotIdentity
      → List TrustedAnchor
      → List TrustedAnchor
      → List TrustedAnchor
      → Result AnchorTableError (Unit {0})
  unfolding valid semantic_issue str_eq derive_anchor_id
  check_anchors identity coordinates ids [] = ok tt
  check_anchors identity coordinates ids (a ∷ anchors) =
      and_then (reject_if (not (valid a.position)) invalid_position) λ _.
        and_then (reject_if (is_some (semantic_issue a.path)) invalid_changed_path) λ _.
          and_then
            (reject_if (not (compatible a.path.kind a.position))
              position_incompatible_with_file_change)
            λ _.
              and_then
                (reject_if (has coordinate_key (coordinate_key a) coordinates) duplicate_coordinate)
                λ _. and_then (reject_if (has id_key (id_key a) ids) duplicate_anchor_id) λ _.
                  and_then
                    (reject_if
                      (not (str_eq a.id.as_str (derive_anchor_id identity (line a)).as_str))
                      identity_mismatch)
                    λ _.
                      check_anchors identity (insert coordinate_key a coordinates)
                        (insert id_key a ids) anchors

  unfoldable pub from_anchors :
      ReviewSnapshotIdentity → List TrustedAnchor → Result AnchorTableError AnchorTable
  unfolding check_anchors sort_by_id
  from_anchors identity anchors =
      and_then (check_anchors identity [] [] anchors)
        λ _. ok (record { identity = identity; anchors = sort_by_id anchors })

  abbrev pub anchor_of : ReviewSnapshotIdentity → CommentableLine → TrustedAnchor
  anchor_of identity line = record {
    id = derive_anchor_id identity line;
    path = line.path;
    position = line.position;
    exact_line_digest = line.exact_line_digest;
    context_digest = line.context_digest;
  }

  unfoldable pub build :
      ReviewSnapshotIdentity → List CommentableLine → Result AnchorTableError AnchorTable
  unfolding derive_anchor_id from_anchors
  build identity lines = from_anchors identity (map (anchor_of identity) lines)

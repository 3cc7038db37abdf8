-- ===== src/Snapshot/Resolved.antt =====
-- crates/revoot-core/src/snapshot.rs: a table of anchors as a map from ids to lines.
use revoot.Prelude.{
  unnegated, ℕ, ◌≡◌, ◌↔◌, ◌∙◌, refl, sym, ap, subst, true, false, not, Option, none, some, List, [],
  ◌∷◌, inl, inr, All, IsIn, is_some, ok, ok_inj, and_then-ok, reject_if, reject_if-ok, map,
}
use revoot.Text.{Str, str_eq, str_eq_iff}
use revoot.Set.{has, insert}
use revoot.Snapshot.{ReviewSnapshotIdentity}
use revoot.Snapshot.Change.{semantic_issue}
use revoot.Snapshot.Position.{CommentableLine, valid}
use revoot.Snapshot.Anchors.{
  TrustedAnchor, line, AnchorTable, invalid_position, invalid_changed_path,
  position_incompatible_with_file_change, duplicate_coordinate, duplicate_anchor_id,
  identity_mismatch, compatible, coordinate_key, id_key, sort_by_id, anchor_with, resolve,
  derive_anchor_id, check_anchors, from_anchors, anchor_of, build,
}
use revoot.Snapshot.Search.{anchor_with-IsIn, anchor_with-some}
use revoot.Snapshot.Sorted.{sort_by_id-IsIn, IsAscending, sort_by_id-IsAscending, Fresh, only_one}

module _ (sha256_hex : List ℕ → Str) (identity : ReviewSnapshotIdentity) where
  -- what is checked of an anchor by itself
  pub record IsTrusted (a : TrustedAnchor) : Type 0 where
    pub position : valid a.position ≡ true
    pub path : semantic_issue a.path ≡ none
    pub kind : compatible a.path.kind a.position ≡ true
    pub derived : a.id.as_str ≡ (derive_anchor_id sha256_hex identity (line a)).as_str

  none_of : {A : Type 0} (o : Option A) → is_some o ≡ false → o ≡ none
  none_of none h = refl
  none_of (some a) h = cc

  check_anchors-Fresh :
      (coordinates ids s : List TrustedAnchor)
      → check_anchors sha256_hex identity coordinates ids s ≡ ok tt
      → Fresh ids s × All IsTrusted s
  unfolding check_anchors
  check_anchors-Fresh coordinates ids [] h = (tt, tt)
  check_anchors-Fresh coordinates ids (a ∷ s) h =
      let s1 = and_then-ok (reject_if (not (valid a.position)) invalid_position) _ h in
      let s2 =
        and_then-ok (reject_if (is_some (semantic_issue a.path)) invalid_changed_path) _ s1.2 in
      let s3 =
        and_then-ok
          (reject_if (not (compatible a.path.kind a.position))
            position_incompatible_with_file_change)
          _ s2.2 in
      let s4 =
        and_then-ok
          (reject_if (has coordinate_key (coordinate_key a) coordinates) duplicate_coordinate) _
          s3.2 in
      let s5 = and_then-ok (reject_if (has id_key (id_key a) ids) duplicate_anchor_id) _ s4.2 in
      let same = str_eq a.id.as_str (derive_anchor_id sha256_hex identity (line a)).as_str in
      let s6 = and_then-ok (reject_if (not same) identity_mismatch) _ s5.2 in
      let rest =
        check_anchors-Fresh (insert coordinate_key a coordinates) (insert id_key a ids) s s6.2 in
      (
        (reject_if-ok _ duplicate_anchor_id s5.1, rest.0),
        (
          record {
            position = unnegated _ (reject_if-ok _ invalid_position s1.1);
            path = none_of _ (reject_if-ok _ invalid_changed_path s2.1);
            kind = unnegated _ (reject_if-ok _ position_incompatible_with_file_change s3.1);
            derived =
                (str_eq_iff _ _).0 (unnegated _ (reject_if-ok (not same) identity_mismatch s6.1));
          },
          rest.1,
        ),
      )

  -- Anchors that make a table are trusted: the position of each has no line zero and fits the kind of
  -- its change, its paths do not contradict that kind, and its id is the one derived from its line.
  -- The table then has them in the order of their ids, and its binary search resolves an id to an
  -- anchor exactly if the anchor is among them and has this id.
  pub from_anchors-resolve_iff :
      (anchors : List TrustedAnchor) {t : AnchorTable}
      → from_anchors sha256_hex identity anchors ≡ ok t
      → All IsTrusted anchors
        × IsAscending t.anchors
        × ((id : Str) (a : TrustedAnchor)
            → (resolve t id ≡ some a) ↔ (IsIn a anchors × (a.id.as_str ≡ id)))
  unfolding from_anchors resolve
  from_anchors-resolve_iff anchors {t} h =
      let s = and_then-ok (check_anchors sha256_hex identity [] [] anchors) _ h in
      let checked = check_anchors-Fresh [] [] anchors s.1 in
      let table = ap (λ t. t.anchors) (ok_inj s.2) in
      (
        checked.1,
        subst IsAscending table (sort_by_id-IsAscending anchors),
        λ id a. (
          λ e.
              let found =
                anchor_with-IsIn id (sort_by_id anchors) (ap (anchor_with id) table ∙ e) in
              ((sort_by_id-IsIn a anchors).0 found.0, found.1),
          λ k.
              let found =
                anchor_with-some id a (sort_by_id anchors) (sort_by_id-IsAscending anchors)
                  ((sort_by_id-IsIn a anchors).1 k.0) k.1 in
              let other = anchor_with-IsIn id (sort_by_id anchors) found.1 in
              let there = (sort_by_id-IsIn found.0 anchors).0 other.0 in
              let same = only_one [] anchors found.0 a checked.0 there k.0 (other.1 ∙ sym k.1) in
              sym (ap (anchor_with id) table) ∙ found.1 ∙ ap some same,
        ),
      )

  IsIn-map :
      (l : CommentableLine) (lines : List CommentableLine)
      → IsIn l lines
      → IsIn (anchor_of sha256_hex identity l) (map (anchor_of sha256_hex identity) lines)
  IsIn-map l [] i = i
  IsIn-map l (k ∷ lines) (inl e) = inl (ap (anchor_of sha256_hex identity) e)
  IsIn-map l (k ∷ lines) (inr i) = inr (IsIn-map l lines i)

  -- A table that is built of lines gives back each of them for the id that is derived from it.
  pub build-resolve :
      (lines : List CommentableLine) {t : AnchorTable}
      → build sha256_hex identity lines ≡ ok t
      → (l : CommentableLine) → IsIn l lines
      → (a : TrustedAnchor) × (resolve t (derive_anchor_id sha256_hex identity l).as_str ≡ some a)
        × (line a ≡ l)
  unfolding build
  build-resolve lines {t} h l i =
      let a = anchor_of sha256_hex identity l in
      (
        a,
        ((from_anchors-resolve_iff (map (anchor_of sha256_hex identity) lines) h).2 a.id.as_str a).1
            (IsIn-map l lines i, refl),
        refl,
      )

-- ===== src/Publication/Notes.antt =====
-- crates/revoot-core/src/publication.rs: the comments that are there, and their markers.
use revoot.Prelude.{ℕ, Bool, Option, none, some, List, [], ◌∷◌}
use revoot.Text.{Str}
use revoot.Text.Search.{lines}
use revoot.Text.Split.{rsplit_once}
use revoot.Snapshot.{Sha256Digest}
use revoot.Publication.Markers as Markers
use revoot.Publication.Markers.{PublicationMarker}
use revoot.Publication.Lineage as Lineage
use revoot.Publication.Lineage.{FindingLineageMarker}

pub record ExistingPublicationNote : Type 0 where
  pub note_id : ℕ  -- u64
  pub author_user_id : ℕ  -- u64
  pub author_username : Option Str
  pub body : Str
  pub discussion_id : Option Str
  pub resolvable : Bool
  pub resolved : Bool
  pub resolved_by_user_id : Option ℕ  -- u64
  pub created_at : Option Str
  pub updated_at : Option Str
  pub resolved_at : Option Str
  pub path : Option Str
  pub line : Option ℕ  -- u32
  pub original_line : Option ℕ  -- u32

unfoldable pub terminal_marker : ExistingPublicationNote → Option PublicationMarker
unfolding rsplit_once Markers.parse
terminal_marker note =
    Markers.parse
      (elim (rsplit_once 0xa note.body) [ none ↦ note.body | some (before, tail) ↦ tail ])

-- `filter_map(Self::parse)` of the lines
module _ (sha256 : List ℕ → Sha256Digest) where
  unfoldable lineage_markers : List Str → List FindingLineageMarker
  unfolding Lineage.parse
  lineage_markers [] = []
  lineage_markers (line ∷ rest) =
      let markers = lineage_markers rest in
      elim (Lineage.parse sha256 line) [ none ↦ markers | some marker ↦ marker ∷ markers ]

  unfoldable pub from_body : Str → Option FindingLineageMarker
  unfolding lines lineage_markers
  from_body body = elim (lineage_markers (lines body)) [
    | [] ↦ none
    | marker ∷ markers ↦ elim markers [ [] ↦ some marker | other ∷ others ↦ none ]
  ]

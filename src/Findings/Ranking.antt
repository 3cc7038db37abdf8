-- ===== src/Findings/Ranking.antt =====
-- crates/revoot-core/src/findings.rs: the key, the text and the rank of a finding.
use revoot.Prelude.{
  ℕ, Bool, ◌&&◌, ◌||◌, Option, List, [], ◌∷◌, ◌++◌, ltb, ◌==◌, if◌then◌else◌, is_empty,
}
use revoot.Text.{Str, lit, str_eq, bytes, is_whitespace}
use revoot.Map.{str_ltb}
use revoot.Hash.{to_be_bytes, hash_field}
use revoot.Snapshot.{Sha256Digest, ReviewSnapshotIdentity, git_lab, git_hub, local}
use revoot.Snapshot.Position.{AnchorPosition, addition, deletion, context}
use revoot.Snapshot.Anchors.{AnchorId, TrustedAnchor}
use revoot.Findings.{
  Finding, Severity, critical, high, medium, low, info, FindingCategory, correctness, security,
  reliability, performance, maintainability,
}
use revoot.Findings.Render.{render_finding}

abbrev priority : Severity → ℕ
priority critical = 5
priority high = 4
priority medium = 3
priority low = 2
priority info = 1

abbrev label : FindingCategory → Str
label correctness = lit "correctness"
label security = lit "security"
label reliability = lit "reliability"
label performance = lit "performance"
label maintainability = lit "maintainability"

pub record RankedFinding : Type 0 where
  pub work_unit_id : Str
  pub anchor_id : AnchorId
  pub severity : Severity
  pub confidence_percent : ℕ  -- u8
  pub category : FindingCategory
  pub finding_key : Sha256Digest
  pub content_digest : Sha256Digest
  pub lineage_id : Option Sha256Digest
  pub rendered_body : Str

-- `split_whitespace`, with the word that is being read
unfoldable words_after : Str → Str → List Str
unfolding is_whitespace
words_after word [] = if is_empty word then [] else word ∷ []
words_after word (c ∷ s) =
    let ended = words_after [] s in
    let longer = words_after (word ++ c ∷ []) s in
    if is_whitespace c then (if is_empty word then ended else word ∷ ended) else longer

-- `join(" ")`
abbrev join_words : List Str → Str
join_words [] = []
join_words (w ∷ []) = w
join_words (w ∷ v ∷ ws) = w ++ (lit " " ++ join_words (v ∷ ws))

abbrev logical_path : TrustedAnchor → Str
logical_path a = elim a.position [
  | deletion o ↦ a.path.old_path.as_str
  | addition n ↦ a.path.new_path.as_str
  | context o n ↦ a.path.new_path.as_str
]

abbrev pub side : AnchorPosition → Str
side (deletion o) = lit "old"
side (addition n) = lit "new"
side (context o n) = lit "new"

-- the fields of the snapshot that a key has
unfoldable key_identity : ReviewSnapshotIdentity → List ℕ
unfolding hash_field to_be_bytes bytes
key_identity (git_lab i) =
    hash_field (lit "revoot-finding-key-v1")
    ++ (hash_field (bytes i.version.scope.instance_origin_digest.as_str)
        ++ hash_field (to_be_bytes 8 i.version.scope.project_id))
key_identity (git_hub i) =
    hash_field (lit "revoot-github-finding-key-v1")
    ++ (hash_field (bytes i.api_origin_digest.as_str) ++ hash_field (to_be_bytes 8 i.repository_id))
key_identity (local i) =
    hash_field (lit "revoot-local-finding-key-v1")
    ++ hash_field (bytes i.repository_identity_sha256.as_str)

-- `ranked_preference(left, right) == Ordering::Less`
unfoldable pub preferred : RankedFinding → RankedFinding → Bool
unfolding str_ltb str_eq
preferred l r =
    ltb (priority r.severity) (priority l.severity)
    || (priority r.severity == priority l.severity
        && (ltb r.confidence_percent l.confidence_percent
            || (r.confidence_percent == l.confidence_percent
                && (str_ltb l.finding_key.as_str r.finding_key.as_str
                    || (str_eq l.finding_key.as_str r.finding_key.as_str
                        && (str_ltb l.content_digest.as_str r.content_digest.as_str
                            || (str_eq l.content_digest.as_str r.content_digest.as_str
                                && str_ltb l.anchor_id.as_str r.anchor_id.as_str)))))))

module _ (sha256 : List ℕ → Sha256Digest) (to_lowercase : Str → Str) where
  abbrev normalized_title : Str → Str
  normalized_title title = to_lowercase (join_words (words_after [] title))

  unfoldable key_input : ReviewSnapshotIdentity → TrustedAnchor → FindingCategory → Str → List ℕ
  unfolding key_identity hash_field bytes words_after
  key_input snapshot anchor category title =
      key_identity snapshot
      ++ (hash_field (bytes (logical_path anchor))
          ++ (hash_field (side anchor.position)
              ++ (hash_field (bytes anchor.context_digest.as_str)
                  ++ (hash_field (label category) ++ hash_field (bytes (normalized_title title))))))

  unfoldable pub finding_key :
      ReviewSnapshotIdentity → TrustedAnchor → FindingCategory → Str → Sha256Digest
  unfolding key_input
  finding_key snapshot anchor category title = sha256 (key_input snapshot anchor category title)

  unfoldable pub rankable_finding :
      Str → AnchorId → TrustedAnchor → ReviewSnapshotIdentity → Finding → RankedFinding
  unfolding finding_key render_finding bytes
  rankable_finding work_unit_id anchor_id anchor snapshot f = record {
    work_unit_id = work_unit_id;
    anchor_id = anchor_id;
    severity = f.severity;
    confidence_percent = f.confidence_percent;
    category = f.category;
    finding_key = finding_key snapshot anchor f.category f.title;
    content_digest = sha256 (bytes (render_finding f));
    lineage_id = f.lineage_id;
    rendered_body = render_finding f;
  }

-- ===== src/Publication/Lineage.antt =====
-- crates/revoot-core/src/publication.rs: the markers of the lineages of findings.
use revoot.Prelude.{ℕ, Option, none, some, List, [], ◌∷◌, ◌++◌, if◌then◌else◌}
use revoot.Text.{Str, lit, str_eq, bytes}
use revoot.Text.Search.{strip_prefix}
use revoot.Text.Split.{split, split_first}
use revoot.Hash.{hash_field, to_be_bytes}
use revoot.Snapshot.{Sha256Digest, GitSha, sha256_digest, git_sha}
use revoot.Publication.Markers.{marker_suffix, if_some, ok_of, strip_suffix, inside}

abbrev pub lineage_marker_prefix : Str
lineage_marker_prefix = lit "<!-- revoot:lineage-v1 "

pub record FindingLineageMarker : Type 0 where
  pub lineage_sha256 : Sha256Digest
  pub occurrence_sha256 : Sha256Digest
  pub reviewed_head : GitSha
  pub evidence_sha256 : Sha256Digest

unfoldable pub render : FindingLineageMarker → Str
render m =
    lineage_marker_prefix
    ++ (((lit "lineage=" ++ m.lineage_sha256.as_str)
          ++ (0x20
              ∷ ((lit "occurrence=" ++ m.occurrence_sha256.as_str)
                  ++ (0x20
                      ∷ ((lit "head=" ++ m.reviewed_head.as_str)
                          ++ (0x20 ∷ (lit "evidence=" ++ m.evidence_sha256.as_str)))))))
        ++ marker_suffix)

module _ (sha256 : List ℕ → Sha256Digest) where
  unfoldable pub new : Sha256Digest → GitSha → Sha256Digest → FindingLineageMarker
  unfolding hash_field to_be_bytes bytes
  new lineage head evidence = record {
    lineage_sha256 = lineage;
    occurrence_sha256 = sha256 (
        hash_field (lit "revoot-finding-occurrence-v1")
        ++ (hash_field (bytes lineage.as_str)
            ++ (hash_field (bytes head.as_str) ++ hash_field (bytes evidence.as_str))));
    reviewed_head = head;
    evidence_sha256 = evidence;
  }

  -- `(..).then_some(marker)`
  unfoldable pub checked : FindingLineageMarker → Option FindingLineageMarker
  unfolding new str_eq
  checked m =
      let expected = new m.lineage_sha256 m.reviewed_head m.evidence_sha256 in
      if str_eq m.occurrence_sha256.as_str expected.occurrence_sha256.as_str then some m else none

  -- the parts between the spaces, which are four
  unfoldable pub of_parts : List Str → Option FindingLineageMarker
  unfolding strip_prefix sha256_digest git_sha checked
  of_parts (a ∷ b ∷ c ∷ d ∷ []) = if_some (strip_prefix a (lit "lineage=")) λ lineage.
      if_some (strip_prefix b (lit "occurrence=")) λ occurrence.
        if_some (strip_prefix c (lit "head=")) λ head.
          if_some (strip_prefix d (lit "evidence=")) λ evidence.
            if_some (ok_of (sha256_digest lineage)) λ lineage_sha256.
              if_some (ok_of (sha256_digest occurrence)) λ occurrence_sha256.
                if_some (ok_of (git_sha head)) λ reviewed_head.
                  if_some (ok_of (sha256_digest evidence)) λ evidence_sha256. checked (record {
                    lineage_sha256 = lineage_sha256;
                    occurrence_sha256 = occurrence_sha256;
                    reviewed_head = reviewed_head;
                    evidence_sha256 = evidence_sha256;
                  })
  of_parts _ = none

  unfoldable pub parse : Str → Option FindingLineageMarker
  unfolding strip_prefix strip_suffix split_first of_parts
  parse value =
      if_some (inside lineage_marker_prefix value) λ content. of_parts (split 0x20 content)

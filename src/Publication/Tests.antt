-- ===== src/Publication/Tests.antt =====
-- The markers, at concrete ones.
use revoot.Prelude.{ℕ, ◌≡◌, refl, true, false, some, none, List, ◌∷◌, ◌++◌, ok}
use revoot.Text.{Str, lit}
use revoot.Snapshot.{Sha256Digest, GitSha, sha256_digest, git_sha}
use revoot.Publication.Markers as Markers
use revoot.Publication.Markers.{PublicationMarker, summary}
use revoot.Publication.Lineage as Lineage
use revoot.Publication.Parsed.{parse-render_lineage}
use revoot.Publication.Notes.{ExistingPublicationNote, terminal_marker, from_body}
use revoot.Publication.Terminal.{terminal_marker-render}

abbrev digest : Sha256Digest
digest = record { as_str = lit "00112233445566778899aabbccddeeff00112233445566778899aabbccddeeff" }

-- The hasher stands for SHA-256.
abbrev one_hash : List ℕ → Sha256Digest
one_hash input = digest

abbrev head : GitSha
head = record { as_str = lit "00112233445566778899aabbccddeeff00112233" }

digest-ok : sha256_digest digest.as_str ≡ ok digest
unfolding sha256_digest revoot.Text.bytes
digest-ok = refl

head-ok : git_sha head.as_str ≡ ok head
unfolding git_sha revoot.Text.bytes
head-ok = refl

abbrev marker : PublicationMarker
marker = record { scope_sha256 = digest; fingerprint_sha256 = digest; target_kind = summary }

parse-render_lineage_example :
    Lineage.parse one_hash (Lineage.render (Lineage.new one_hash digest head digest))
    ≡ some (Lineage.new one_hash digest head digest)
parse-render_lineage_example =
    parse-render_lineage one_hash (λ input. digest-ok) digest head digest digest-ok head-ok
      digest-ok

-- a marker with a fourth part
marker_refused : Markers.parse (lit "<!-- revoot:v1 scope=a fingerprint=b kind=inline x -->") ≡ none
unfolding Markers.parse
marker_refused = refl

abbrev note : ExistingPublicationNote
note = record {
  note_id = 1;
  author_user_id = 2;
  author_username = none;
  body = lit "Found one.\n" ++ Markers.render marker;
  discussion_id = none;
  resolvable = true;
  resolved = false;
  resolved_by_user_id = none;
  created_at = none;
  updated_at = none;
  resolved_at = none;
  path = none;
  line = none;
  original_line = none;
}

terminal_marker-render_example : terminal_marker note ≡ some marker
terminal_marker-render_example =
    terminal_marker-render note (lit "Found one.") marker digest-ok digest-ok refl

-- a second marker of a lineage makes a comment ambiguous
ambiguous :
    from_body one_hash (
      Lineage.render (Lineage.new one_hash digest head digest)
      ++ 0xa ∷ Lineage.render (Lineage.new one_hash digest head digest))
    ≡ none
unfolding from_body Lineage.render Lineage.new
ambiguous = refl

-- ===== src/Publication/Terminal.antt =====
-- crates/revoot-core/src/publication.rs: the marker that ends a comment.
use revoot.Prelude.{
  ◌≡◌, refl, Bool, false, none, some, [], ◌∷◌, ◌++◌, arith, any, ◌==◌, Bool-cases, inl, inr, ok,
}
use revoot.Text.{Str, lit}
use revoot.Text.Split.{rsplit_once}
use revoot.Snapshot.{Sha256Digest, sha256_digest}
use revoot.Publication.Hex.{no_line_feed_in_hex, hex-lacks, sha256_digest-is_lower_hex}
use revoot.Publication.Markers as Markers
use revoot.Publication.Markers.{
  PublicationMarker, PublicationTargetKind, inline, summary, marker_prefix, marker_suffix,
  kind_text,
}
use revoot.Publication.Notes.{ExistingPublicationNote, terminal_marker}
use revoot.Publication.Parsed.{parse-render}

abbrev broken : Str → Bool
broken s = any (λ c. c == 0xa) s

unbroken-append : (s t : Str) → broken s ≡ false → broken t ≡ false → broken (s ++ t) ≡ false
unbroken-append [] t h k = k
unbroken-append (c ∷ s) t h k = ground (arith, unbroken-append s t)

rsplit_once-none : (s : Str) → broken s ≡ false → rsplit_once 0xa s ≡ none
unfolding rsplit_once
rsplit_once-none [] h = refl
rsplit_once-none (c ∷ s) h = elim (Bool-cases (c == 0xa)) [
  | inl there ↦ absurd (ground (arith, h, there))
  | inr other ↦ rw (rsplit_once-none s (rw other at h), other) refl
]

rsplit_once-last : (s t : Str) → broken t ≡ false → rsplit_once 0xa (s ++ 0xa ∷ t) ≡ some (s, t)
unfolding rsplit_once
rsplit_once-last [] t h = rw (rsplit_once-none t h) refl
rsplit_once-last (c ∷ s) t h = rw (rsplit_once-last s t h) refl

digest-unbroken : (s : Str) {d : Sha256Digest} → sha256_digest s ≡ ok d → broken s ≡ false
digest-unbroken s h = hex-lacks 0xa no_line_feed_in_hex s (sha256_digest-is_lower_hex s h)

kind-unbroken : (k : PublicationTargetKind) → broken (lit "kind=" ++ kind_text k) ≡ false
kind-unbroken inline = refl
kind-unbroken summary = refl

render-unbroken :
    (m : PublicationMarker)
    → sha256_digest m.scope_sha256.as_str ≡ ok m.scope_sha256
    → sha256_digest m.fingerprint_sha256.as_str ≡ ok m.fingerprint_sha256
    → broken (Markers.render m) ≡ false
unfolding Markers.render
render-unbroken m a b =
    let kind = lit "kind=" ++ kind_text m.target_kind in
    let fingerprint = lit "fingerprint=" ++ m.fingerprint_sha256.as_str in
    let scope = lit "scope=" ++ m.scope_sha256.as_str in
    let two =
      unbroken-append fingerprint (0x20 ∷ kind) (digest-unbroken m.fingerprint_sha256.as_str b)
        (kind-unbroken m.target_kind) in
    let three =
      unbroken-append scope (0x20 ∷ (fingerprint ++ 0x20 ∷ kind))
        (digest-unbroken m.scope_sha256.as_str a) two in
    unbroken-append (scope ++ 0x20 ∷ (fingerprint ++ 0x20 ∷ kind)) marker_suffix three refl

-- A comment that ends, on a line of its own, in the text of a marker with well-formed digests has
-- that marker, whatever comes before it.
pub terminal_marker-render :
    (note : ExistingPublicationNote) (before : Str) (m : PublicationMarker)
    → sha256_digest m.scope_sha256.as_str ≡ ok m.scope_sha256
    → sha256_digest m.fingerprint_sha256.as_str ≡ ok m.fingerprint_sha256
    → note.body ≡ before ++ 0xa ∷ Markers.render m
    → terminal_marker note ≡ some m
unfolding terminal_marker
terminal_marker-render note before m a b h =
    rw (h, rsplit_once-last before (Markers.render m) (render-unbroken m a b)) (parse-render m a b)

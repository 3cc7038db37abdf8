-- ===== src/Publication/Parsed.antt =====
-- crates/revoot-core/src/publication.rs: what is printed of a marker is read back.
use mathlib.Core.List.{reverse, reverse-append, reverse-reverse}
use revoot.Prelude.{
  ℕ, ◌≡◌, ◌∙◌, refl, ap, Bool, true, false, ◌||◌, some, List, [], ◌∷◌, ◌++◌, arith, any, ◌==◌,
  ==_iff, ok,
}
use revoot.Text.{Str, lit, str_eq, str_eq_iff}
use revoot.Text.Search.{strip_prefix}
use revoot.Text.Split.{split, split_first}
use revoot.Snapshot.{is_lower_hex, Sha256Digest, GitSha, sha256_digest, git_sha}
use revoot.Publication.Hex.{
  no_space_in_hex, hex-lacks, sha256_digest-is_lower_hex, git_sha-is_lower_hex,
}
use revoot.Publication.Markers as Markers
use revoot.Publication.Markers.{
  marker_prefix, marker_suffix, PublicationTargetKind, inline, summary, PublicationMarker, if_some,
  ok_of, strip_suffix, inside, kind_text, kind_of,
}
use revoot.Publication.Lineage as Lineage
use revoot.Publication.Lineage.{lineage_marker_prefix, FindingLineageMarker}

abbrev spaced : Str → Bool
spaced s = any (λ c. c == 0x20) s

or_parts : (a b : Bool) → a || b ≡ false → (a ≡ false) × (b ≡ false)
or_parts a b h = ground arith

split_first-next :
    (p s : Str) → spaced p ≡ false → split_first 0x20 (p ++ 0x20 ∷ s) ≡ (p, split 0x20 s)
unfolding split_first
split_first-next [] s h = refl
split_first-next (c ∷ p) s h =
    let parts = or_parts (c == 0x20) (spaced p) h in
    rw (split_first, parts.0, split_first-next p s parts.1) refl

split_first-last : (p : Str) → spaced p ≡ false → split_first 0x20 p ≡ (p, [])
unfolding split_first
split_first-last [] h = refl
split_first-last (c ∷ p) h =
    let parts = or_parts (c == 0x20) (spaced p) h in
    rw (split_first, parts.0, split_first-last p parts.1) refl

split-next : (p s : Str) → spaced p ≡ false → split 0x20 (p ++ 0x20 ∷ s) ≡ p ∷ split 0x20 s
split-next p s h = ap (λ x. x.0 ∷ x.1) (split_first-next p s h)

split-last : (p : Str) → spaced p ≡ false → split 0x20 p ≡ p ∷ []
split-last p h = ap (λ x. x.0 ∷ x.1) (split_first-last p h)

strip_prefix-append : (p s : Str) → strip_prefix (p ++ s) p ≡ some s
unfolding strip_prefix
strip_prefix-append [] s = refl
strip_prefix-append (c ∷ p) s = rw ((==_iff c c).1 refl) (strip_prefix-append p s)

strip_suffix-append : (s p : Str) → strip_suffix (s ++ p) p ≡ some s
unfolding strip_suffix
strip_suffix-append s p =
    rw
      (
        strip_suffix,
        reverse-append s p,
        strip_prefix-append (reverse p) (reverse s),
        reverse-reverse s,
      )
      refl

inside-whole :
    (prefix content : Str) → inside prefix (prefix ++ (content ++ marker_suffix)) ≡ some content
inside-whole prefix content =
    ap (λ o. if_some o λ rest. strip_suffix rest marker_suffix)
      (strip_prefix-append prefix (content ++ marker_suffix))
    ∙ strip_suffix-append content marker_suffix

hex_spaceless : (s : Str) → is_lower_hex s ≡ true → spaced s ≡ false
hex_spaceless = hex-lacks 0x20 no_space_in_hex

sha256_digest-spaceless : (s : Str) {d : Sha256Digest} → sha256_digest s ≡ ok d → spaced s ≡ false
sha256_digest-spaceless s h = hex_spaceless s (sha256_digest-is_lower_hex s h)

git_sha-spaceless : (s : Str) {d : GitSha} → git_sha s ≡ ok d → spaced s ≡ false
git_sha-spaceless s h = hex_spaceless s (git_sha-is_lower_hex s h)

kind_spaceless : (k : PublicationTargetKind) → spaced (lit "kind=" ++ kind_text k) ≡ false
kind_spaceless inline = refl
kind_spaceless summary = refl

kind_of-text : (k : PublicationTargetKind) → kind_of (kind_text k) ≡ some k
unfolding str_eq
kind_of-text inline = refl
kind_of-text summary = refl

of_parts-printed :
    (m : PublicationMarker)
    → sha256_digest m.scope_sha256.as_str ≡ ok m.scope_sha256
    → sha256_digest m.fingerprint_sha256.as_str ≡ ok m.fingerprint_sha256
    → Markers.of_parts (
        (lit "scope=" ++ m.scope_sha256.as_str)
        ∷ (lit "fingerprint=" ++ m.fingerprint_sha256.as_str)
        ∷ (lit "kind=" ++ kind_text m.target_kind)
        ∷ [])
      ≡ some m
unfolding Markers.of_parts strip_prefix
of_parts-printed m a b = rw (Markers.of_parts, a, b, kind_of-text m.target_kind) refl

-- A marker whose digests are well formed is read back from its text.
pub parse-render :
    (m : PublicationMarker)
    → sha256_digest m.scope_sha256.as_str ≡ ok m.scope_sha256
    → sha256_digest m.fingerprint_sha256.as_str ≡ ok m.fingerprint_sha256
    → Markers.parse (Markers.render m) ≡ some m
unfolding Markers.parse Markers.render
parse-render m a b =
    let scope = lit "scope=" ++ m.scope_sha256.as_str in
    let fingerprint = lit "fingerprint=" ++ m.fingerprint_sha256.as_str in
    let kind = lit "kind=" ++ kind_text m.target_kind in
    ap (λ o. if_some o λ content. Markers.of_parts (split 0x20 content))
      (inside-whole marker_prefix (scope ++ 0x20 ∷ (fingerprint ++ 0x20 ∷ kind)))
    ∙ ap Markers.of_parts (
        split-next scope (fingerprint ++ 0x20 ∷ kind)
          (sha256_digest-spaceless m.scope_sha256.as_str a)
        ∙ ap (λ l. scope ∷ l)
            (split-next fingerprint kind (sha256_digest-spaceless m.fingerprint_sha256.as_str b)
              ∙ ap (λ l. fingerprint ∷ l) (split-last kind (kind_spaceless m.target_kind))))
    ∙ of_parts-printed m a b

module _ (sha256 : List ℕ → Sha256Digest) where
  checked-new :
      (l : Sha256Digest) (h : GitSha) (e : Sha256Digest)
      → Lineage.checked sha256 (Lineage.new sha256 l h e) ≡ some (Lineage.new sha256 l h e)
  unfolding Lineage.checked
  checked-new l h e =
      rw
        (Lineage.checked, (str_eq_iff (Lineage.new sha256 l h e).occurrence_sha256.as_str _).1 refl)
        refl

  of_parts-lineage :
      (m : FindingLineageMarker)
      → sha256_digest m.lineage_sha256.as_str ≡ ok m.lineage_sha256
      → sha256_digest m.occurrence_sha256.as_str ≡ ok m.occurrence_sha256
      → git_sha m.reviewed_head.as_str ≡ ok m.reviewed_head
      → sha256_digest m.evidence_sha256.as_str ≡ ok m.evidence_sha256
      → Lineage.of_parts sha256 (
          (lit "lineage=" ++ m.lineage_sha256.as_str)
          ∷ (lit "occurrence=" ++ m.occurrence_sha256.as_str)
          ∷ (lit "head=" ++ m.reviewed_head.as_str)
          ∷ (lit "evidence=" ++ m.evidence_sha256.as_str)
          ∷ [])
        ≡ Lineage.checked sha256 m
  unfolding Lineage.of_parts strip_prefix
  of_parts-lineage m a b c d = rw (Lineage.of_parts, a, b, c, d) refl

  -- The marker of a lineage is read back from its text, if the digests are well formed, as those that
  -- the hasher makes are.
  pub parse-render_lineage :
      ((input : List ℕ) → sha256_digest (sha256 input).as_str ≡ ok (sha256 input))
      → (l : Sha256Digest) (h : GitSha) (e : Sha256Digest) → sha256_digest l.as_str ≡ ok l
      → git_sha h.as_str ≡ ok h
      → sha256_digest e.as_str ≡ ok e
      → Lineage.parse sha256 (Lineage.render (Lineage.new sha256 l h e))
        ≡ some (Lineage.new sha256 l h e)
  unfolding Lineage.parse Lineage.render Lineage.new
  parse-render_lineage formed l h e a c d =
      let m = Lineage.new sha256 l h e in
      let b = formed _ in
      let lineage = lit "lineage=" ++ l.as_str in
      let occurrence = lit "occurrence=" ++ m.occurrence_sha256.as_str in
      let head = lit "head=" ++ h.as_str in
      let evidence = lit "evidence=" ++ e.as_str in
      ap (λ o. if_some o λ content. Lineage.of_parts sha256 (split 0x20 content))
        (inside-whole lineage_marker_prefix
          (lineage ++ 0x20 ∷ (occurrence ++ 0x20 ∷ (head ++ 0x20 ∷ evidence))))
      ∙ ap (Lineage.of_parts sha256) (
          split-next lineage (occurrence ++ 0x20 ∷ (head ++ 0x20 ∷ evidence))
            (sha256_digest-spaceless l.as_str a)
          ∙ ap (λ k. lineage ∷ k)
              (split-next occurrence (head ++ 0x20 ∷ evidence)
                  (sha256_digest-spaceless m.occurrence_sha256.as_str b)
                ∙ ap (λ k. occurrence ∷ k)
                    (split-next head evidence (git_sha-spaceless h.as_str c)
                      ∙ ap (λ k. head ∷ k)
                          (split-last evidence (sha256_digest-spaceless e.as_str d)))))
      ∙ of_parts-lineage m a b c d
      ∙ checked-new l h e

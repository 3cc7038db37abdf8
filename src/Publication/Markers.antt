-- ===== src/Publication/Markers.antt =====
-- crates/revoot-core/src/publication.rs: the markers that Revoot's comments end in.
use mathlib.Core.List.{reverse}
use revoot.Prelude.{Option, none, some, List, [], ◌∷◌, ◌++◌, if◌then◌else◌, Result, ok, err}
use revoot.Text.{Str, lit, str_eq}
use revoot.Text.Search.{strip_prefix}
use revoot.Text.Split.{split, split_first}
use revoot.Snapshot.{Sha256Digest, sha256_digest}

abbrev pub marker_prefix : Str
marker_prefix = lit "<!-- revoot:v1 "

abbrev pub marker_suffix : Str
marker_suffix = lit " -->"

pub data PublicationTargetKind : Type 0 where
  inline summary : PublicationTargetKind

pub record PublicationMarker : Type 0 where
  pub scope_sha256 : Sha256Digest
  pub fingerprint_sha256 : Sha256Digest
  pub target_kind : PublicationTargetKind

-- the `?` operator of options, and `Result::ok`
abbrev pub if_some {ℓ κ} : {A : Type ℓ} {B : Type κ} → Option A → (A → Option B) → Option B
if_some none f = none
if_some (some a) f = f a

abbrev pub ok_of {ℓ κ} : {E : Type ℓ} {A : Type κ} → Result E A → Option A
ok_of (ok a) = some a
ok_of (err e) = none

unfoldable pub strip_suffix : Str → Str → Option Str
unfolding strip_prefix
strip_suffix s p = if_some (strip_prefix (reverse s) (reverse p)) λ r. some (reverse r)

-- what follows a prefix and comes before a suffix
abbrev pub inside : Str → Str → Option Str
inside prefix value = if_some (strip_prefix value prefix) λ rest. strip_suffix rest marker_suffix

abbrev pub kind_text : PublicationTargetKind → Str
kind_text inline = lit "inline"
kind_text summary = lit "summary"

abbrev pub kind_of : Str → Option PublicationTargetKind
kind_of s =
    if str_eq s (lit "inline")
    then some inline
    else if str_eq s (lit "summary")
    then some summary
    else none

unfoldable pub render : PublicationMarker → Str
render m =
    marker_prefix
    ++ (((lit "scope=" ++ m.scope_sha256.as_str)
          ++ (0x20
              ∷ ((lit "fingerprint=" ++ m.fingerprint_sha256.as_str)
                  ++ (0x20 ∷ (lit "kind=" ++ kind_text m.target_kind)))))
        ++ marker_suffix)

-- the parts between the spaces, which are three
unfoldable pub of_parts : List Str → Option PublicationMarker
unfolding strip_prefix sha256_digest str_eq
of_parts (a ∷ b ∷ c ∷ []) = if_some (strip_prefix a (lit "scope=")) λ scope.
    if_some (strip_prefix b (lit "fingerprint=")) λ fingerprint.
      if_some (strip_prefix c (lit "kind=")) λ kind.
        if_some (ok_of (sha256_digest scope)) λ scope_sha256.
          if_some (ok_of (sha256_digest fingerprint)) λ fingerprint_sha256.
            if_some (kind_of kind) λ target_kind. some (record {
              scope_sha256 = scope_sha256;
              fingerprint_sha256 = fingerprint_sha256;
              target_kind = target_kind;
            })
of_parts _ = none

unfoldable pub parse : Str → Option PublicationMarker
unfolding strip_prefix strip_suffix split_first of_parts
parse value = if_some (inside marker_prefix value) λ content. of_parts (split 0x20 content)

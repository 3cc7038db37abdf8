-- ===== src/Publication/Hex.antt =====
-- crates/revoot-core/src/snapshot.rs: the characters of digests.
use revoot.Prelude.{
  unnegated, ℕ, ◌≡◌, refl, subst, Bool, true, false, not, ◌&&◌, Bool-cases, inl, inr, List, [], ◌∷◌,
  ◌++◌, arith, any, all, ◌==◌, ==_iff, ok, and_then-ok, reject_if, reject_if-ok,
}
use revoot.Text.{Str, bytes, utf8, len}
use revoot.Snapshot.{
  length, character, is_lower_hex, sha256_hex_len, git_sha_min_len, git_sha_max_len, Sha256Digest,
  GitSha, sha256_digest, git_sha,
}

all-right : (f : ℕ → Bool) (xs ys : List ℕ) → all f (xs ++ ys) ≡ true → all f ys ≡ true
all-right f [] ys h = h
all-right f (x ∷ xs) ys h = all-right f xs ys (right_of (f x) _ h)
  where
    right_of : (a b : Bool) → (a && b) ≡ true → b ≡ true
    right_of a b h = ground arith

pub no_space_in_hex : (s : Str) → is_lower_hex (0x20 ∷ s) ≡ true → ⊥
unfolding bytes utf8
no_space_in_hex s h = cc

pub no_line_feed_in_hex : (s : Str) → is_lower_hex (0xa ∷ s) ≡ true → ⊥
unfolding bytes utf8
no_line_feed_in_hex s h = cc

pub hex-lacks :
    (d : ℕ)
    → ((s : Str) → is_lower_hex (d ∷ s) ≡ true → ⊥)
    → (s : Str) → is_lower_hex s ≡ true
    → any (λ c. c == d) s ≡ false
unfolding bytes
hex-lacks d never [] h = refl
hex-lacks d never (c ∷ s) h = elim (Bool-cases (c == d)) [
  | inl there ↦ absurd (never s (subst (λ c. is_lower_hex (c ∷ s) ≡ true) ((==_iff c d).0 there) h))
  | inr other ↦ rw other (hex-lacks d never s (all-right _ (utf8 c) (bytes s) h))
]

pub sha256_digest-is_lower_hex :
    (s : Str) {d : Sha256Digest} → sha256_digest s ≡ ok d → is_lower_hex s ≡ true
unfolding sha256_digest
sha256_digest-is_lower_hex s h =
    let s1 = and_then-ok (reject_if (not (len s == sha256_hex_len)) length) _ h in
    let s2 = and_then-ok (reject_if (not (is_lower_hex s)) character) _ s1.2 in
    unnegated _ (reject_if-ok _ character s2.1)

pub git_sha-is_lower_hex : (s : Str) {d : GitSha} → git_sha s ≡ ok d → is_lower_hex s ≡ true
unfolding git_sha
git_sha-is_lower_hex s h =
    let s1 =
      and_then-ok
        (reject_if (not (len s == git_sha_min_len) && not (len s == git_sha_max_len)) length) _ h in
    let s2 = and_then-ok (reject_if (not (is_lower_hex s)) character) _ s1.2 in
    unnegated _ (reject_if-ok _ character s2.1)

-- ===== src/Hash.antt =====
-- What is fed to a hasher: `hash_field` of crates/revoot-core/src/diff.rs, which snapshot.rs has too.
-- SHA-256 is not part of the crate: it is an argument, from the bytes that were fed to the hasher to
-- the digest that is made of them.
use revoot.Prelude.{
  ℕ, zero, suc, ◌/◌, ◌%◌, ◌^◌, List, [], ◌∷◌, ◌++◌, leb, if◌then◌else◌, length, u64_max,
}

-- `to_be_bytes` of an integer of that many bytes
unfoldable pub to_be_bytes : ℕ → ℕ → List ℕ
to_be_bytes zero n = []
to_be_bytes (suc w) n = n / 256 ^ w % 256 ∷ to_be_bytes w n

-- the bytes that `hash_field` feeds to the hasher
unfoldable pub hash_field : List ℕ → List ℕ
unfolding to_be_bytes
hash_field value =
    to_be_bytes 8 (if leb (length value) u64_max then length value else u64_max) ++ value

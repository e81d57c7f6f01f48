-- ===== src/State/Keys.antt =====
-- The keys of the database: `prefixKey` and `prefixHeightKey` of pkg/state/state.go, and the
-- prefixes of pkg/state/chain.go.
use blobcast.Crypto.{bytes_equal}
use blobcast.Prelude.{false, ◌≢◌, ◌≡◌, refl, length, arith, ◌++◌, ℕ, List, [], ◌∷◌, ◌++◌}
use blobcast.Util.{bytes_from_uint64_key}

-- `prefixKey`
unfoldable pub prefix_key : List ℕ → List ℕ → List ℕ
prefix_key key prefix = prefix ++ key

unfoldable pub prefix_height_key : ℕ → List ℕ → List ℕ
unfolding prefix_key
prefix_height_key height prefix = prefix_key (bytes_from_uint64_key height) prefix

-- "meta:chainid", "meta:finalized", "meta:celestia_offset"
abbrev pub meta : List ℕ
meta = b'm' ∷ b'e' ∷ b't' ∷ b'a' ∷ b':' ∷ []

abbrev pub key_chain_id : List ℕ
key_chain_id = meta ++ (b'c' ∷ b'h' ∷ b'a' ∷ b'i' ∷ b'n' ∷ b'i' ∷ b'd' ∷ [])

abbrev pub key_finalized_height : List ℕ
key_finalized_height = meta ++ (b'f' ∷ b'i' ∷ b'n' ∷ b'a' ∷ b'l' ∷ b'i' ∷ b'z' ∷ b'e' ∷ b'd' ∷ [])

abbrev pub key_celestia_height_offset : List ℕ
key_celestia_height_offset =
    meta
    ++ (b'c' ∷ b'e' ∷ b'l' ∷ b'e' ∷ b's' ∷ b't' ∷ b'i' ∷ b'a' ∷ b'_' ∷ b'o' ∷ b'f' ∷ b'f' ∷ b's'
        ∷ b'e' ∷ b't' ∷ [])

-- "blk:", "blk:h:", "mmr:", "chk:", "chk:h:", "man:f:", "man:d:"
abbrev pub block_prefix : List ℕ
block_prefix = b'b' ∷ b'l' ∷ b'k' ∷ b':' ∷ []

abbrev pub block_hash_prefix : List ℕ
block_hash_prefix = b'b' ∷ b'l' ∷ b'k' ∷ b':' ∷ b'h' ∷ b':' ∷ []

abbrev pub state_mmr_prefix : List ℕ
state_mmr_prefix = b'm' ∷ b'm' ∷ b'r' ∷ b':' ∷ []

abbrev pub chunk_prefix : List ℕ
chunk_prefix = b'c' ∷ b'h' ∷ b'k' ∷ b':' ∷ []

abbrev pub chunk_hash_prefix : List ℕ
chunk_hash_prefix = b'c' ∷ b'h' ∷ b'k' ∷ b':' ∷ b'h' ∷ b':' ∷ []

abbrev pub file_manifest_prefix : List ℕ
file_manifest_prefix = b'm' ∷ b'a' ∷ b'n' ∷ b':' ∷ b'f' ∷ b':' ∷ []

abbrev pub dir_manifest_prefix : List ℕ
dir_manifest_prefix = b'm' ∷ b'a' ∷ b'n' ∷ b':' ∷ b'd' ∷ b':' ∷ []

-- A common prefix does not count, and texts of different lengths differ.
pub prefix_key-same :
    (prefix a b : List ℕ)
    → bytes_equal (prefix_key a prefix) (prefix_key b prefix) ≡ bytes_equal a b
unfolding prefix_key bytes_equal
prefix_key-same [] a b = refl
prefix_key-same (x ∷ prefix) a b = ground (arith, prefix_key-same prefix a b)

pub bytes_equal-length : (a b : List ℕ) → length a ≢ length b → bytes_equal a b ≡ false
unfolding bytes_equal
bytes_equal-length [] [] ne = absurd (ne refl)
bytes_equal-length [] (y ∷ b) ne = refl
bytes_equal-length (x ∷ a) [] ne = refl
bytes_equal-length (x ∷ a) (y ∷ b) ne =
    ground (arith, bytes_equal-length a b (λ e. ne (omega arith)))

-- No hash key under "chk:h:" is the key of a chunk under "chk:".
pub chunk_key-ne-hash_key :
    (a b : List ℕ)
    → length a ≡ length b
    → bytes_equal (prefix_key a chunk_hash_prefix) (prefix_key b chunk_prefix) ≡ false
unfolding prefix_key
chunk_key-ne-hash_key a b e =
    bytes_equal-length (chunk_hash_prefix ++ a) (chunk_prefix ++ b) (λ p. absurd (omega arith))

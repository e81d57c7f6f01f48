-- ===== src/Types/Blob.antt =====
-- pkg/types/blob.go: identifiers of blobs and their byte form.
use blobcast.Prelude.{
  ℕ, ◌^◌, ◌<◌, ◌≡◌, Option, none, some, List, ◌++◌, map, length, length-append, take, drop,
  cut_prefix, ◌==◌, if◌then◌else◌, arith,
}
use blobcast.Util.{bytes_from_uint64, get_little, put_little}
use blobcast.Util.RoundTrip.{length-put_little, get_little-put_little}
use blobcast.Crypto.{Blake3, Hash, IsHash, zero_hash, hash_of_slice}
use blobcast.Crypto.Merkle.{calculate_merkle_root}

pub record BlobIdentifier : Type 0 where
  pub height : ℕ
  pub commitment : Hash

-- A height is a uint64, and a commitment has 32 bytes.
pub record IsBlobIdentifier (b : BlobIdentifier) : Type 0 where
  pub height_fits : b.height < 2 ^ 64
  pub commitment_fits : IsHash b.commitment

-- `&BlobIdentifier{}`
abbrev pub zero_identifier : BlobIdentifier
zero_identifier = record { height = 0; commitment = zero_hash }

unfoldable pub blob_bytes : BlobIdentifier → List ℕ
blob_bytes b = bytes_from_uint64 b.height ++ b.commitment

-- Any input of another length than 40 gives the zero identifier, and no error.
unfoldable pub blob_identifier_from_bytes : List ℕ → BlobIdentifier
blob_identifier_from_bytes b =
    if length b == 40
    then record { height = get_little (take 8 b); commitment = drop 8 b }
    else zero_identifier

-- The generated message `primitives.v1.BlobIdentifier`: a commitment of any length.
pub record PbBlobIdentifier : Type 0 where
  pub height : ℕ
  pub commitment : List ℕ

unfoldable pub blob_identifier_proto : BlobIdentifier → PbBlobIdentifier
blob_identifier_proto b = record { height = b.height; commitment = b.commitment }

-- A commitment of fewer than 32 bytes panics.
unfoldable pub blob_identifier_from_proto : PbBlobIdentifier → Option BlobIdentifier
unfolding hash_of_slice
blob_identifier_from_proto p = elim (hash_of_slice p.commitment) [
  | none ↦ none
  | some h ↦ some (record { height = p.height; commitment = h })
]

unfoldable pub blob_identifiers_merkle_root : Blake3 → List BlobIdentifier → Hash
blob_identifiers_merkle_root B blobs = calculate_merkle_root B (map blob_bytes blobs)

pub length-blob_bytes : (b : BlobIdentifier) → IsBlobIdentifier b → length (blob_bytes b) ≡ 40
unfolding blob_bytes bytes_from_uint64
length-blob_bytes b v = omega (
  arith,
  length-append (put_little 8 b.height) b.commitment,
  length-put_little 8 b.height,
  v.commitment_fits,
)

-- An identifier reads back from its 40 bytes.
pub blob_identifier_from_bytes-blob_bytes :
    (b : BlobIdentifier) → IsBlobIdentifier b → blob_identifier_from_bytes (blob_bytes b) ≡ b
unfolding blob_identifier_from_bytes blob_bytes bytes_from_uint64
blob_identifier_from_bytes-blob_bytes b v =
    let len = length-blob_bytes b v in
    let (front, back) =
      cut_prefix 8 (put_little 8 b.height) b.commitment (length-put_little 8 b.height) in
    rw (front, back, get_little-put_little 8 b.height v.height_fits) (ground (arith, len))

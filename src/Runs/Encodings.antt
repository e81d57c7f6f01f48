-- ===== src/Runs/Encodings.antt =====
-- Encodings at concrete inputs.
use blobcast.Prelude.{map, ℕ, ◌≡◌, refl, true, some, [], ◌∷◌, replicate, arith}
use blobcast.Prelude.Outcome.{ok}
use blobcast.Prelude.Maps.{lookup}
use blobcast.Util.{bytes_from_uint64_key}
use blobcast.Util.Ordered.{bytes_lt, key_order}
use blobcast.Crypto.{hash_bytes}
use blobcast.Types.Blob.{
  BlobIdentifier, IsBlobIdentifier, blob_bytes, blob_identifier_from_bytes,
  blob_identifier_from_bytes-blob_bytes,
}
use blobcast.Types.Text.{
  id, url, blob_identifier_from_string, blob_identifier_from_url, blob_identifier_from_string-id,
}
use blobcast.Types.Block.{
  BlockHeader, BlockBody, Block, zero_header, header_bytes, body_bytes, block_bytes,
  block_header_from_bytes, block_body_from_bytes, block_from_bytes,
}
use blobcast.Types.Block.Header.{IsHeader, stored_header, block_header_from_bytes-header_bytes}
use blobcast.Types.Block.Body.{IsBody, block_body_from_bytes-body_bytes}
use blobcast.Types.Block.RoundTrip.{block_from_bytes-block_bytes}
use blobcast.Types.Block.Cache.{
  header_hash, IsCoherent, hash_all, header_hash_sticky, hash_all-eq-map,
}
use blobcast.Runs.Toy.{toy_blake3, toy_base36}

key_order_example : bytes_lt (bytes_from_uint64_key 255) (bytes_from_uint64_key 256) ≡ true
key_order_example = key_order 255 256 (omega arith) (omega arith)

abbrev blob : BlobIdentifier
blob = record { height = 300; commitment = replicate 32 7 }

blob-IsBlobIdentifier : IsBlobIdentifier blob
blob-IsBlobIdentifier = record { height_fits = omega arith; commitment_fits = refl }

blob_identifier_from_bytes-blob_bytes_example : blob_identifier_from_bytes (blob_bytes blob) ≡ blob
blob_identifier_from_bytes-blob_bytes_example =
    blob_identifier_from_bytes-blob_bytes blob blob-IsBlobIdentifier

blob_identifier_from_string-id_example :
    (blob_identifier_from_string toy_base36 (id toy_base36 blob) ≡ ok blob)
    × (blob_identifier_from_url toy_base36 (url toy_base36 blob) ≡ ok blob)
blob_identifier_from_string-id_example =
    blob_identifier_from_string-id toy_base36 blob blob-IsBlobIdentifier

abbrev header : BlockHeader
header = record zero_header {
  version = 1;
  chain_id = 97 ∷ 98 ∷ [];
  height = 4;
  celestia_block_height = 70000;
  timestamp = record { seconds = 1700000000; nanos = 12 };
  state_root = replicate 32 9;
}

header-IsHeader : IsHeader header
header-IsHeader = record {
  version_fits = omega arith;
  chain_id_fits = omega arith;
  height_fits = omega arith;
  celestia_fits = omega arith;
  seconds_fit = omega arith;
  parent_fits = refl;
  dirs_fit = refl;
  files_fit = refl;
  chunks_fit = refl;
  state_fits = refl;
}

abbrev body : BlockBody
body = record { dirs = []; files = blob ∷ []; chunks = blob ∷ blob ∷ [] }

body-IsBody : IsBody body
body-IsBody = record {
  dirs_count = omega arith;
  files_count = omega arith;
  chunks_count = omega arith;
  dirs_fit = tt;
  files_fit = (blob-IsBlobIdentifier, tt);
  chunks_fit = (blob-IsBlobIdentifier, (blob-IsBlobIdentifier, tt));
}

block_header_from_bytes-header_bytes_example :
    block_header_from_bytes (record { items = header_bytes header; spare = 1 ∷ [] })
    ≡ some (stored_header header)
block_header_from_bytes-header_bytes_example =
    block_header_from_bytes-header_bytes header (1 ∷ []) header-IsHeader

block_body_from_bytes-body_bytes_example :
    block_body_from_bytes (record { items = body_bytes body; spare = 1 ∷ [] }) ≡ some body
block_body_from_bytes-body_bytes_example =
    block_body_from_bytes-body_bytes body (1 ∷ []) body-IsBody

abbrev block : Block
block = record { header = header; body = body }

block_from_bytes-block_bytes_example :
    block_from_bytes (record { items = block_bytes block; spare = [] })
    ≡ some (record block { header = stored_header header })
block_from_bytes-block_bytes_example =
    block_from_bytes-block_bytes block [] header-IsHeader body-IsBody

-- Two headers of one height.
abbrev other : BlockHeader
other = record header { version = 2 }

header_hash_sticky_example :
    (header_hash toy_blake3 (header_hash toy_blake3 [] header).1 other).0
    ≡ (header_hash toy_blake3 [] header).0
header_hash_sticky_example = header_hash_sticky toy_blake3 [] header other refl

abbrev by_height : ℕ → BlockHeader
by_height h = record header { height = h }

empty-IsCoherent : IsCoherent toy_blake3 by_height []
unfolding lookup
empty-IsCoherent = record { cached = λ k h hit. absurd (cc hit) }

hash_all-eq-map_example :
    (hash_all toy_blake3 [] (by_height 4 ∷ by_height 5 ∷ by_height 4 ∷ [])).0
    ≡ map
        (λ bh. hash_bytes toy_blake3 (header_bytes bh ∷ []))
        (by_height 4 ∷ by_height 5 ∷ by_height 4 ∷ [])
hash_all-eq-map_example =
    hash_all-eq-map toy_blake3 by_height [] (by_height 4 ∷ by_height 5 ∷ by_height 4 ∷ [])
      empty-IsCoherent (refl, (refl, (refl, tt)))

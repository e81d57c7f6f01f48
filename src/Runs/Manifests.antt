-- ===== src/Runs/Manifests.antt =====
-- An accepted file manifest.
use blobcast.Prelude.{ℕ, ◌≡◌, refl, true, some, List, [], ◌∷◌, length, replicate}
use blobcast.Prelude.Maps.{nat_eq, lookup, insert}
use blobcast.Prelude.Outcome.{ok}
use blobcast.Crypto.{Hash, bytes_equal, equal_bytes, hash_bytes, hash_of_slice}
use blobcast.Types.Blob.{blob_bytes}
use blobcast.State.Store.{FileManifest}
use blobcast.State.Chain
use blobcast.State.Keys.{prefix_key, file_manifest_prefix}
use blobcast.State.Transaction.{
  new_transaction, put_file_manifest, put_in, find_in, marshalled, tx_get_chunk, tx_get_chunk_hash,
}
use blobcast.Sync.Monad.{Work}
use blobcast.Sync.Blobs.{
  RawBlob, checked_chunk, checked_read, read_chunk, gather_chunks, accept_file, sync_file_manifest,
}
use blobcast.Sync.Files.{Gathers, sync_file_manifest_accepts}
use blobcast.Runs.Toy.{toy_pebble, toy_blake3}
use blobcast.Runs.Messages.{
  toy_protobuf, toy_chunk, toy_commitment, toy_file, encode_file, encode_chunk,
}

abbrev state : Chain.ChainState toy_pebble
state = record { db = []; pending = true }

-- The chunk is pending.
abbrev before : Work
before = record {
  tx = record new_transaction {
    pending_chunks = some ((toy_commitment, toy_chunk) ∷ []);
    pending_chunk_hashes = some ((toy_commitment, toy_blake3.sum256 toy_chunk) ∷ []);
  };
  cache = [];
  next = 3;
}

abbrev good_file : FileManifest
good_file = toy_file 2 (toy_blake3.sum256 toy_chunk)

abbrev blob : RawBlob
blob = record { data_bytes = []; commitment = replicate 32 4 }

abbrev after : Work
after = record {
  tx = record before.tx {
    batch =
        (
          prefix_key (blob_bytes (record { height = 9; commitment = replicate 32 4 }))
              file_manifest_prefix,
          2 ∷ toy_blake3.sum256 toy_chunk,
        )
        ∷ [];
    pending_file_manifests = some ((3, good_file) ∷ []);
  };
  cache = [];
  next = 4;
}

accepted :
    sync_file_manifest toy_blake3 toy_pebble toy_protobuf state 9 blob good_file before
    ≡ (ok true, after)
unfolding sync_file_manifest gather_chunks read_chunk checked_read checked_chunk accept_file
    put_file_manifest put_in find_in marshalled tx_get_chunk tx_get_chunk_hash insert lookup
    encode_file encode_chunk bytes_equal equal_bytes hash_bytes hash_of_slice
accepted = refl

sync_file_manifest_accepts_example :
    (commitment : Hash) × (data' : List ℕ) × (hash_of_slice blob.commitment ≡ some commitment)
    × Gathers toy_blake3 toy_pebble toy_protobuf state before.tx good_file.chunks data'
    × (length data' ≡ good_file.file_size)
    × (equal_bytes (hash_bytes toy_blake3 (data' ∷ [])) good_file.file_hash ≡ true)
    × (put_file_manifest toy_protobuf before.tx before.next
          (record { height = 9; commitment = commitment })
          good_file
        ≡ ok after.tx)
sync_file_manifest_accepts_example =
    sync_file_manifest_accepts toy_blake3 toy_pebble toy_protobuf state 9 blob good_file before
      after accepted

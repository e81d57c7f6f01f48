-- ===== src/Runs/Directories.antt =====
-- An accepted directory manifest.
use blobcast.Prelude.{◌≡◌, refl, true, some, List, [], ◌∷◌, replicate}
use blobcast.Prelude.Maps.{nat_eq, lookup}
use blobcast.Prelude.Outcome.{ok}
use blobcast.Util
use blobcast.Crypto
use blobcast.Crypto.Merkle
use blobcast.Types.Blob
use blobcast.State.Chain
use blobcast.State.Keys.{prefix_key, file_manifest_prefix, dir_manifest_prefix}
use blobcast.State.Store.{last_write}
use blobcast.State.Transaction
use blobcast.Sync.Monad.{Work}
use blobcast.Sync.Blobs
use blobcast.Sync.Dirs.{IsFresh, Leaves, sync_directory_manifest_accepts}
use blobcast.Runs.Toy.{toy_pebble, toy_blake3}
use blobcast.Runs.Messages.{toy_protobuf, toy_commitment, toy_dir, encode_dir, encode_entry}

abbrev file_id : Blob.BlobIdentifier
file_id = record { height = 1; commitment = toy_commitment }

-- The file's manifest is in the database.
abbrev state : Chain.ChainState toy_pebble
state = record {
  db = (prefix_key (Blob.blob_bytes file_id) file_manifest_prefix, 2 ∷ 8 ∷ []) ∷ [];
  pending = true;
}

abbrev before : Work
before = record { tx = Transaction.new_transaction; cache = []; next = 3 }

abbrev root : Crypto.Hash
root =
    Merkle.calculate_merkle_root toy_blake3
      (Crypto.hash_bytes toy_blake3 ((3 ∷ []) ∷ (8 ∷ []) ∷ []) ∷ [])

abbrev blob : Blobs.RawBlob
blob = record { data_bytes = []; commitment = replicate 32 4 }

abbrev after : Work
after = record {
  tx = record before.tx {
    batch =
        (
          prefix_key (Blob.blob_bytes (record { height = 9; commitment = replicate 32 4 }))
              dir_manifest_prefix,
          root,
        )
        ∷ [];
  };
  cache = [];
  next = 5;
}

before-IsFresh : IsFresh before
unfolding Transaction.find_in lookup
before-IsFresh = record { free = λ p l. refl }

accepted :
    Blobs.sync_directory_manifest toy_blake3 toy_pebble toy_protobuf state 9 blob
      (toy_dir root)
      before
    ≡ (ok true, after)
unfolding Blobs.sync_directory_manifest Blobs.gather_files Blobs.read_file Blobs.accept_dir
    Transaction.put_directory_manifest Transaction.marshalled Transaction.find_in
    Transaction.tx_get_file_manifest Chain.get_file_manifest Blob.blob_identifier_from_proto lookup
    encode_dir encode_entry Crypto.bytes_equal Crypto.equal_bytes Crypto.hash_bytes
    Crypto.hash_of_slice last_write prefix_key Blob.blob_bytes Util.bytes_from_uint64
    Util.put_little Merkle.calculate_merkle_root Merkle.merkle_loop Merkle.leaf_nodes Merkle.first
accepted = refl

sync_directory_manifest_accepts_example :
    (commitment : Crypto.Hash) × (leaves : List Crypto.Hash) × (Crypto.hash_of_slice blob.commitment
      ≡ some commitment)
    × Leaves toy_blake3 toy_pebble toy_protobuf state (toy_dir root).files leaves
    × (Crypto.equal_bytes (Merkle.calculate_merkle_root toy_blake3 leaves) root ≡ true)
    × (Transaction.put_directory_manifest toy_protobuf before.tx
          (record { height = 9; commitment = commitment })
          (toy_dir root)
        ≡ ok after.tx)
sync_directory_manifest_accepts_example =
    sync_directory_manifest_accepts toy_blake3 toy_pebble toy_protobuf state 9 blob (toy_dir root)
      before after before-IsFresh accepted

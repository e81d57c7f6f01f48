-- ===== src/Runs/Heights.antt =====
-- Heights of the chain, with one chunk in each.
use blobcast.Prelude.{
  ℕ, ◌≡◌, refl, Option, none, some, List, [], ◌∷◌, false, arith, ◌==◌, if◌then◌else◌,
}
use blobcast.Prelude.Outcome.{Outcome, ok, err, panic}
use blobcast.Prelude.Maps.{nat_eq, lookup, insert}
use blobcast.Util
use blobcast.Crypto
use blobcast.Crypto.Merkle
use blobcast.Crypto.Mmr
use blobcast.Crypto.Mmr.Snapshot
use blobcast.Types.Blob
use blobcast.Types.Block
use blobcast.Types.Block.Cache
use blobcast.Types.Block.Header.{IsHeader, stored_header}
use blobcast.Types.Block.Body.{IsBody}
use blobcast.State.Chain
use blobcast.State.Transaction
use blobcast.Sync.Monad.{SyncError, da_error}
use blobcast.Sync.Blobs
use blobcast.Sync.Blocks
use blobcast.Sync.Start.{sync_chain}
use blobcast.Sync.Published.{Published, sync_chain_counts_up}
use blobcast.Sync.Steps.{sync_height_durable}
use blobcast.Sync.Failure.{sync_height_error_keeps_db}
use blobcast.Runs.Toy.{toy_blake3, toy_pebble}
use blobcast.Runs.Messages.{toy_protobuf, toy_chunk, toy_commitment}

-- One blob, which holds a chunk, at every height but 0.
abbrev blobs_at : ℕ → Option (List Blobs.RawBlob)
blobs_at h =
    if h == 0
    then none
    else some (record { data_bytes = toy_chunk; commitment = toy_commitment } ∷ [])

abbrev toy_store : Blocks.BlobStore
toy_store = record {
  get_blobs = blobs_at;
  get_time = λ h. some (record { seconds = h; nanos = 8 });
}

abbrev before : Blocks.Node toy_blake3 toy_pebble toy_protobuf toy_store (97 ∷ [])
before = record { state = record { db = []; pending = false }; cache = []; next = 0 }

abbrev genesis : Block.Block
genesis = record {
  header = Block.zero_header;
  body = record { dirs = []; files = []; chunks = [] };
}

abbrev result :
    Outcome SyncError Block.Block
    × Blocks.Node toy_blake3 toy_pebble toy_protobuf toy_store (97 ∷ [])
result =
    Blocks.sync_height toy_blake3 toy_pebble toy_protobuf toy_store (97 ∷ []) before 1 5
      (some genesis)

abbrev block_of : Outcome SyncError Block.Block → Block.Block
block_of (ok b) = b
block_of (err e) = genesis
block_of panic = genesis

abbrev made : Block.Block
made = block_of result.0

returned : result ≡ (ok made, result.1)
unfolding Blocks.sync_height Blocks.in_transaction Blocks.in_transaction_from Blocks.finish
    Blocks.finish_commit Blocks.produce_block Blocks.produce_block_from_celestia_height
    Blocks.sync_celestia_height Blocks.stamped Blocks.apply_block Blocks.link_block
    Blocks.previous_block Blocks.hash_block Blocks.store_block Blocks.add_root Blocks.add_roots
    Blocks.has_roots Blocks.finalize_block Blobs.sync_blobs Blobs.sync_blobs_from Blobs.sync_blob
    Blobs.unmarshalled Blobs.sync_envelope Blobs.sync_chunk Transaction.begin_transaction
    Transaction.put_chunk Transaction.put_in Transaction.put_block Transaction.put_state_mmr
    Transaction.set_finalized_height Transaction.commit Cache.block_hash Cache.header_hash
    Block.new_block Block.new_block_from_header Chain.get_state_mmr Mmr.add_leaf Mmr.push_leaf
    Mmr.carry_loop Snapshot.snapshot Snapshot.sorted_leaves Snapshot.sort_by_index
    Snapshot.insert_by_index Crypto.is_zero Crypto.bytes_equal Crypto.hash_of_slice
    Crypto.hash_bytes Blob.blob_identifiers_merkle_root Merkle.calculate_merkle_root lookup insert
    Merkle.first Merkle.merkle_loop Merkle.leaf_nodes Util.bytes_from_uint64 Util.put_little
    Blob.blob_bytes
returned = refl

made-IsHeader : IsHeader made.header
unfolding Blocks.sync_height Blocks.in_transaction Blocks.in_transaction_from Blocks.finish
    Blocks.finish_commit Blocks.produce_block Blocks.produce_block_from_celestia_height
    Blocks.sync_celestia_height Blocks.stamped Blocks.apply_block Blocks.link_block
    Blocks.previous_block Blocks.hash_block Blocks.store_block Blocks.add_root Blocks.add_roots
    Blocks.has_roots Blocks.finalize_block Blobs.sync_blobs Blobs.sync_blobs_from Blobs.sync_blob
    Blobs.unmarshalled Blobs.sync_envelope Blobs.sync_chunk Transaction.begin_transaction
    Transaction.put_chunk Transaction.put_in Transaction.put_block Transaction.put_state_mmr
    Transaction.set_finalized_height Transaction.commit Cache.block_hash Cache.header_hash
    Block.new_block Block.new_block_from_header Chain.get_state_mmr Mmr.add_leaf Mmr.push_leaf
    Mmr.carry_loop Snapshot.snapshot Snapshot.sorted_leaves Snapshot.sort_by_index
    Snapshot.insert_by_index Crypto.is_zero Crypto.bytes_equal Crypto.hash_of_slice
    Crypto.hash_bytes Blob.blob_identifiers_merkle_root Merkle.calculate_merkle_root lookup insert
    Merkle.first Merkle.merkle_loop Merkle.leaf_nodes Util.bytes_from_uint64 Util.put_little
    Blob.blob_bytes Mmr.root Mmr.bag_peaks_with_size Mmr.bag_peaks Mmr.peaks_lr Mmr.peaks_lr_loop
    Mmr.bag_peak Mmr.hash_with_position
made-IsHeader = record {
  version_fits = omega arith;
  chain_id_fits = omega arith;
  height_fits = omega arith;
  celestia_fits = omega arith;
  seconds_fit = omega arith;
  parent_fits = toy_blake3.sum256_length (Block.header_bytes genesis.header);
  dirs_fit = refl;
  files_fit = refl;
  chunks_fit = refl;
  state_fits = refl;
}

made-IsBody : IsBody made.body
unfolding Blocks.sync_height Blocks.in_transaction Blocks.in_transaction_from Blocks.finish
    Blocks.finish_commit Blocks.produce_block Blocks.produce_block_from_celestia_height
    Blocks.sync_celestia_height Blocks.stamped Blocks.apply_block Blocks.link_block
    Blocks.previous_block Blocks.hash_block Blocks.store_block Blocks.add_root Blocks.add_roots
    Blocks.has_roots Blocks.finalize_block Blobs.sync_blobs Blobs.sync_blobs_from Blobs.sync_blob
    Blobs.unmarshalled Blobs.sync_envelope Blobs.sync_chunk Transaction.begin_transaction
    Transaction.put_chunk Transaction.put_in Transaction.put_block Transaction.put_state_mmr
    Transaction.set_finalized_height Transaction.commit Cache.block_hash Cache.header_hash
    Block.new_block Block.new_block_from_header Chain.get_state_mmr Mmr.add_leaf Mmr.push_leaf
    Mmr.carry_loop Snapshot.snapshot Snapshot.sorted_leaves Snapshot.sort_by_index
    Snapshot.insert_by_index Crypto.is_zero Crypto.bytes_equal Crypto.hash_of_slice
    Crypto.hash_bytes Blob.blob_identifiers_merkle_root Merkle.calculate_merkle_root lookup insert
    Merkle.first Merkle.merkle_loop Merkle.leaf_nodes Util.bytes_from_uint64 Util.put_little
    Blob.blob_bytes
made-IsBody = record {
  dirs_count = omega arith;
  files_count = omega arith;
  chunks_count = omega arith;
  dirs_fit = tt;
  files_fit = tt;
  chunks_fit = (record { height_fits = omega arith; commitment_fits = refl }, tt);
}

sync_height_durable_example :
    (made.header.height ≡ 1)
    × (Chain.finalized_height toy_pebble result.1.state ≡ ok 1)
    × (Chain.get_block toy_pebble result.1.state 1
        ≡ ok (some (record made { header = stored_header made.header })))
sync_height_durable_example =
    sync_height_durable toy_blake3 toy_pebble toy_protobuf toy_store (97 ∷ []) before result.1 1 5
      (some genesis) made (omega arith) made-IsHeader made-IsBody returned

-- Nothing is served at height 0.
failed :
    (Blocks.sync_height toy_blake3 toy_pebble toy_protobuf toy_store (97 ∷ []) before 0 0 none).0
    ≡ err da_error
unfolding Blocks.sync_height Blocks.in_transaction Blocks.in_transaction_from Blocks.finish
    Blocks.finish_commit Blocks.produce_block Blocks.produce_block_from_celestia_height
    Blocks.sync_celestia_height Blocks.stamped Blocks.apply_block Blocks.link_block
    Blocks.previous_block Blocks.hash_block Blocks.store_block Blocks.add_root Blocks.add_roots
    Blocks.has_roots Blocks.finalize_block Blobs.sync_blobs Blobs.sync_blobs_from Blobs.sync_blob
    Blobs.unmarshalled Blobs.sync_envelope Blobs.sync_chunk Transaction.begin_transaction
    Transaction.put_chunk Transaction.put_in Transaction.put_block Transaction.put_state_mmr
    Transaction.set_finalized_height Transaction.commit Cache.block_hash Cache.header_hash
    Block.new_block Block.new_block_from_header Chain.get_state_mmr Mmr.add_leaf Mmr.push_leaf
    Mmr.carry_loop Snapshot.snapshot Snapshot.sorted_leaves Snapshot.sort_by_index
    Snapshot.insert_by_index Crypto.is_zero Crypto.bytes_equal Crypto.hash_of_slice
    Crypto.hash_bytes Blob.blob_identifiers_merkle_root Merkle.calculate_merkle_root lookup insert
    Merkle.first Merkle.merkle_loop Merkle.leaf_nodes Util.bytes_from_uint64 Util.put_little
    Blob.blob_bytes
failed = refl

sync_height_error_keeps_db_example :
    (Blocks.sync_height toy_blake3 toy_pebble toy_protobuf toy_store
      (97 ∷ [])
      before
      0
      0
      none).1.state.db
    ≡ []
sync_height_error_keeps_db_example =
    sync_height_error_keeps_db toy_blake3 toy_pebble toy_protobuf toy_store (97 ∷ []) before 0 0
      none da_error failed

nothing_finalized : Chain.finalized_height toy_pebble before.state ≡ ok 0
unfolding Chain.finalized_height blobcast.State.Store.last_write
nothing_finalized = refl

-- A run over the heights 1 and 2, and a head at height 3.
sync_chain_counts_up_example : Published toy_blake3 toy_pebble toy_protobuf toy_store (97 ∷ []) 1 (
    sync_chain toy_blake3 toy_pebble toy_protobuf toy_store
      (97 ∷ [])
      9
      (some 2 ∷ some 2 ∷ some 2 ∷ [])
      (some (3 ∷ []))
      before)
sync_chain_counts_up_example =
    sync_chain_counts_up toy_blake3 toy_pebble toy_protobuf toy_store (97 ∷ []) 9 0
      (some 2 ∷ some 2 ∷ some 2 ∷ []) (some (3 ∷ [])) before nothing_finalized (omega arith)

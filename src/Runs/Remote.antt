-- ===== src/Runs/Remote.antt =====
-- A block that one node streams to another, and a batch that is committed.
use blobcast.Prelude.{ℕ, ◌≡◌, refl, Option, none, some, List, [], ◌∷◌, map, false, replicate, arith}
use blobcast.Prelude.Maps.{Map, nat_eq, lookup, insert}
use blobcast.Sync.Monad.{SyncError}
use blobcast.Prelude.Outcome.{Outcome, ok}
use blobcast.Util.{
  Time, bytes_from_short_string, bytes_from_time, bytes_from_uint32, bytes_from_uint64,
  bytes_from_uint64_key, get_little, put_little, read_little, short_string_from_bytes,
  uint32_from_bytes, uint64_from_bytes,
}
use blobcast.Crypto.{hash_bytes, IsHash, bytes_equal, hash_of_slice}
use blobcast.Types.Blob.{BlobIdentifier, blob_bytes, blob_identifier_from_bytes}
use blobcast.Types.Block.{
  BlockHeader, BlockBody, Block, zero_header, block_bytes, blobs_bytes, block_body_from_bytes,
  block_from_bytes, block_header_from_bytes, body_bytes, header_bytes, read_blobs, read_hash,
  read_uint32, read_uint64,
}
use blobcast.Types.Block.Header.{IsHeader}
use blobcast.Types.Block.Body.{IsBody}
use blobcast.Types.Block.Cache.{header_hash, block_hash, update_hash_cache}
use blobcast.Types.Block.Proto.{
  Timestamps, block_proto, block_from_proto, block_from_proto-block_proto,
}
use blobcast.State.Keys.{
  prefix_key, prefix_height_key, block_prefix, chunk_prefix, chunk_hash_prefix,
}
use blobcast.State.Chain
use blobcast.Sync.Blocks.{
  BlobStore, Node, finalize_block, finish, finish_commit, hash_block, in_transaction,
  in_transaction_from, store_block,
}
use blobcast.Sync.Stream.{
  Streamed, streamed, response, process_streamed_block, ProcessedBlock, chunk_with_hash, each,
  snapshot_at,
}
use blobcast.Sync.Stream.Processed.{Copies, streamed_block_is_copied}
use blobcast.Sync.Batch.{
  sort, last, pick, commit_batch, batch_committer, batch_work, cache_hash, commit_sorted,
  insert_sorted, put_chunks, put_dirs, put_files, put_range, store_all, store_processed,
}
use blobcast.Sync.Batch.Sorting.{IsTop, IsSorted, Reorders, exchange}
use blobcast.Sync.Batch.AnyOrder.{batch_committer_any_order}
use blobcast.Sync.Batch.Finalized.{IsKeyed, insert-IsKeyed, commit_batch_finalizes}
use blobcast.Node.{existing}
use blobcast.State.Store.{last_write}
use blobcast.Util.Slice.{index, slice, slice_from}
use blobcast.State.Transaction.{begin_transaction, commit, put_block, set_finalized_height}
use blobcast.Runs.Toy.{toy_pebble, toy_blake3}
use blobcast.Runs.Messages.{toy_protobuf, toy_chunk, toy_commitment}

-- A message is the time itself.
abbrev toy_time : Option Time → Time
toy_time none = record { seconds = 0; nanos = 0 }
toy_time (some t) = t

abbrev toy_timestamps : Timestamps
toy_timestamps = record {
  Message = Time;
  new = λ t. t;
  as_time = toy_time;
  as_time-new = λ t h k. refl;
}

abbrev sent_chunk : BlobIdentifier
sent_chunk = record { height = 8; commitment = toy_commitment }

abbrev sent_header : BlockHeader
sent_header = record zero_header {
  version = 1;
  chain_id = 97 ∷ [];
  height = 4;
  timestamp = record { seconds = 1700000000; nanos = 0 };
}

abbrev sent_body : BlockBody
sent_body = record { dirs = []; files = []; chunks = sent_chunk ∷ [] }

abbrev sent_block : Block
sent_block = record { header = sent_header; body = sent_body }

sent_header-IsHeader : IsHeader sent_header
sent_header-IsHeader = record {
  version_fits = omega arith;
  chain_id_fits = omega arith;
  height_fits = omega arith;
  celestia_fits = omega arith;
  seconds_fit = omega arith;
  parent_fits = refl;
  dirs_fit = refl;
  files_fit = refl;
  chunks_fit = refl;
  state_fits = refl;
}

sent_body-IsBody : IsBody sent_body
sent_body-IsBody = record {
  dirs_count = omega arith;
  files_count = omega arith;
  chunks_count = omega arith;
  dirs_fit = tt;
  files_fit = tt;
  chunks_fit = (record { height_fits = omega arith; commitment_fits = refl }, tt);
}

block_from_proto-block_proto_example :
    block_from_proto toy_timestamps (block_proto toy_timestamps toy_blake3 [] sent_block).0
    ≡ some sent_block
block_from_proto-block_proto_example =
    block_from_proto-block_proto toy_timestamps toy_blake3 [] sent_block sent_header-IsHeader
      (omega arith) sent_body-IsBody

-- The server's database.
abbrev server : Chain.ChainState toy_pebble
server = record {
  db =
      (prefix_height_key 4 block_prefix, block_bytes sent_block)
      ∷ (prefix_key toy_commitment chunk_prefix, toy_chunk)
      ∷ (prefix_key toy_commitment chunk_hash_prefix, toy_blake3.sum256 toy_chunk)
      ∷ [];
  pending = false;
}

abbrev sent : Streamed
sent = record {
  block = sent_block;
  chunks = record { chunk_data = toy_chunk; chunk_hash = toy_blake3.sum256 toy_chunk } ∷ [];
  files = [];
  dirs = [];
  mmr_snapshot = [];
}

stream_height : streamed toy_pebble server toy_protobuf 4 ≡ ok sent
unfolding streamed existing Chain.get_block last_write bytes_equal prefix_key prefix_height_key
    bytes_from_uint64_key put_little block_from_bytes read_uint32 slice block_bytes
    bytes_from_uint32 header_bytes bytes_from_short_string bytes_from_uint64 bytes_from_time
    hash_of_slice Chain.get_chunk Chain.get_chunk_hash Chain.has_state_mmr_at_height chunk_with_hash
    each snapshot_at blob_bytes blob_identifier_from_bytes blobs_bytes block_body_from_bytes
    block_header_from_bytes body_bytes read_blobs read_hash read_uint64 index slice_from get_little
    read_little short_string_from_bytes uint32_from_bytes uint64_from_bytes
stream_height = refl

sent-IsHash : IsHash (header_hash toy_blake3 [] sent_header).0
unfolding header_hash lookup hash_bytes
sent-IsHash = toy_blake3.sum256_length (header_bytes sent_header)

streamed_block_is_copied_example :
    (d : ProcessedBlock) × ((process_streamed_block toy_timestamps toy_blake3 []
        (response toy_timestamps toy_blake3 [] sent).0).0
      ≡ ok d)
    × Copies toy_pebble server toy_protobuf toy_timestamps toy_blake3 [] 4 d
streamed_block_is_copied_example =
    streamed_block_is_copied toy_pebble server toy_protobuf toy_timestamps toy_blake3 [] [] 4 sent
      stream_height sent_header-IsHeader (omega arith) sent_body-IsBody sent-IsHash

abbrev no_blobs : BlobStore
no_blobs = record { get_blobs = λ h. none; get_time = λ h. none }

abbrev follower : Node toy_blake3 toy_pebble toy_protobuf no_blobs (97 ∷ [])
follower = record { state = record { db = []; pending = false }; cache = []; next = 0 }

abbrev block_at : ℕ → Block
block_at h = record {
  header = record zero_header { height = h };
  body = record { dirs = []; files = []; chunks = [] };
}

abbrev processed_at : ℕ → ProcessedBlock
processed_at h = record {
  height = h;
  block = block_at h;
  chunks = [];
  chunk_hashes = [];
  file_manifests = [];
  dir_manifests = [];
  mmr_snapshot = [];
  block_hash = replicate 32 h;
}

batch_committer_any_order_example :
    batch_committer toy_blake3 toy_pebble toy_protobuf no_blobs
      (97 ∷ [])
      1000
      (map ok (processed_at 5 ∷ processed_at 4 ∷ []))
      []
      []
      follower
      []
    ≡ batch_committer toy_blake3 toy_pebble toy_protobuf no_blobs
        (97 ∷ [])
        1000
        (map ok (processed_at 4 ∷ processed_at 5 ∷ []))
        []
        []
        follower
        []
batch_committer_any_order_example =
    batch_committer_any_order toy_blake3 toy_pebble toy_protobuf no_blobs (97 ∷ []) follower 1000
      (processed_at 5 ∷ processed_at 4 ∷ []) (processed_at 4 ∷ processed_at 5 ∷ []) exchange
      ((λ e. absurd (omega (arith, e)), tt), (tt, tt)) (omega arith)

abbrev two_processed : Map ℕ ProcessedBlock
two_processed = (5, processed_at 5) ∷ (3, processed_at 3) ∷ []

abbrev two_committed :
    (Outcome SyncError Block × Node toy_blake3 toy_pebble toy_protobuf no_blobs (97 ∷ []))
    × List BlockHeader
two_committed =
    commit_batch toy_blake3 toy_pebble toy_protobuf no_blobs (97 ∷ []) follower two_processed
      (5 ∷ 3 ∷ [])

commit_two : two_committed ≡ ((ok (block_at 5), two_committed.0.1), two_committed.1)
unfolding commit_batch commit_sorted in_transaction begin_transaction batch_work pick sort
    insert_sorted lookup store_all store_processed put_chunks put_files put_dirs cache_hash
    store_block put_range hash_block insert commit put_block set_finalized_height last
    finalize_block finish finish_commit in_transaction_from block_hash header_hash update_hash_cache
commit_two = refl

none-IsKeyed : IsKeyed []
unfolding lookup
none-IsKeyed h d e = cc e

two-IsKeyed : IsKeyed two_processed
unfolding insert
two-IsKeyed =
    insert-IsKeyed (insert 5 (processed_at 5) []) (processed_at 3) refl
      (insert-IsKeyed [] (processed_at 5) refl none-IsKeyed)

-- Height 4 is missing, and height 5 is finalized.
commit_batch_finalizes_example :
    (top : ℕ) × (ds : List ProcessedBlock) × (last (sort (5 ∷ 3 ∷ [])) ≡ some top)
    × IsTop top (5 ∷ 3 ∷ [])
    × (Chain.finalized_height toy_pebble two_committed.0.1.state ≡ ok top)
    × (pick (sort (5 ∷ 3 ∷ [])) two_processed ≡ some ds)
    × (two_committed.1 ≡ map (λ (d : ProcessedBlock). d.block.header) ds)
    × IsSorted (map (λ (h : BlockHeader). h.height) two_committed.1)
    × Reorders (5 ∷ 3 ∷ []) (map (λ (h : BlockHeader). h.height) two_committed.1)
commit_batch_finalizes_example =
    commit_batch_finalizes toy_blake3 toy_pebble toy_protobuf no_blobs (97 ∷ []) follower
      two_committed.0.1 two_processed (5 ∷ 3 ∷ []) (block_at 5) two_committed.1 two-IsKeyed
      commit_two (omega arith, (omega arith, tt))

-- ===== src/Runs/Storage.antt =====
-- Transactions at concrete inputs.
use blobcast.Prelude.{◌≡◌, refl, false, true, some, [], ◌∷◌, ◌||◌, if◌then◌else◌}
use blobcast.Prelude.Maps.{nat_eq, insert}
use blobcast.Prelude.Outcome.{ok, err}
use blobcast.Crypto.{bytes_equal}
use blobcast.Crypto.Mmr.{hash_eq}
use blobcast.Types.Blob.{BlobIdentifier, blob_bytes}
use blobcast.State.Keys.{prefix_key, chunk_prefix, chunk_hash_prefix, file_manifest_prefix}
use blobcast.State.Chain
use blobcast.State.Transaction.{
  drop_pending, Transaction, new_transaction, begin_transaction, put_chunk, put_in,
  put_file_manifest, marshalled, tx_get_chunk, tx_get_chunk_hash, tx_get_file_manifest, commit,
  abort,
}
use blobcast.State.Transaction.Reads.{
  tx_get_chunk-put_chunk, tx_get_file_manifest-put_file_manifest,
}
use blobcast.State.Transaction.Lifecycle.{commit_finishes}
use blobcast.State.Transaction.Durable.{start, then_write, chunk, get_chunk-commit}
use blobcast.Runs.Toy.{toy_pebble, toy_blake3}
use blobcast.Runs.Messages.{
  toy_protobuf, toy_chunk, toy_commitment, toy_file, encode_file, encode_chunk,
}

abbrev empty_state : Chain.ChainState toy_pebble
empty_state = record { db = []; pending = true }

abbrev with_chunk : Transaction
with_chunk = record new_transaction {
  batch =
      (prefix_key toy_commitment chunk_prefix, toy_chunk)
      ∷ (prefix_key toy_commitment chunk_hash_prefix, toy_blake3.sum256 toy_chunk)
      ∷ [];
  pending_chunks = some ((toy_commitment, toy_chunk) ∷ []);
  pending_chunk_hashes = some ((toy_commitment, toy_blake3.sum256 toy_chunk) ∷ []);
}

put_toy_chunk :
    put_chunk new_transaction toy_commitment toy_chunk (toy_blake3.sum256 toy_chunk) ≡ ok with_chunk
unfolding put_chunk put_in insert
put_toy_chunk = refl

tx_get_chunk-put_chunk_example :
    (tx_get_chunk toy_pebble empty_state with_chunk toy_commitment ≡ (
      if bytes_equal toy_commitment toy_commitment
      then ok (some toy_chunk)
      else tx_get_chunk toy_pebble empty_state new_transaction toy_commitment))
    × (tx_get_chunk_hash toy_pebble empty_state with_chunk toy_commitment ≡ (
        if bytes_equal toy_commitment toy_commitment
        then ok (some (toy_blake3.sum256 toy_chunk))
        else tx_get_chunk_hash toy_pebble empty_state new_transaction toy_commitment))
tx_get_chunk-put_chunk_example =
    tx_get_chunk-put_chunk toy_pebble empty_state new_transaction with_chunk toy_commitment
      toy_commitment toy_chunk (toy_blake3.sum256 toy_chunk) put_toy_chunk

abbrev saved : Chain.ChainState toy_pebble
saved = record { db = with_chunk.batch; pending = false }

commit_chunk :
    commit toy_pebble empty_state with_chunk
    ≡ (ok tt, (record (drop_pending with_chunk) { committed = true }, saved))
unfolding commit
commit_chunk = refl

get_chunk-commit_example :
    Chain.get_chunk toy_pebble saved toy_commitment
    ≡ tx_get_chunk toy_pebble empty_state with_chunk toy_commitment
get_chunk-commit_example =
    get_chunk-commit toy_pebble empty_state saved with_chunk
      (record (drop_pending with_chunk) { committed = true }) toy_commitment
      (then_write start
        (chunk toy_commitment toy_chunk (toy_blake3.sum256 toy_chunk) refl put_toy_chunk))
      refl commit_chunk

commit_finishes_example :
    ((commit toy_pebble empty_state with_chunk).1.0.committed
        || (commit toy_pebble empty_state with_chunk).1.0.aborted
      ≡ true)
    × (begin_transaction toy_pebble (commit toy_pebble empty_state with_chunk).1.1
        ≡ ok (
          new_transaction,
          record (commit toy_pebble empty_state with_chunk).1.1 { pending = true },
        ))
    × (commit toy_pebble
          (commit toy_pebble empty_state with_chunk).1.1
          (commit toy_pebble empty_state with_chunk).1.0
        ≡ (err Chain.finished, (commit toy_pebble empty_state with_chunk).1))
    × (abort toy_pebble
          (commit toy_pebble empty_state with_chunk).1.1
          (commit toy_pebble empty_state with_chunk).1.0
        ≡ (err Chain.finished, (commit toy_pebble empty_state with_chunk).1))
commit_finishes_example = commit_finishes toy_pebble empty_state with_chunk refl

abbrev file_id : BlobIdentifier
file_id = record { height = 1; commitment = toy_commitment }

abbrev with_file : Transaction
with_file = record new_transaction {
  batch = (prefix_key (blob_bytes file_id) file_manifest_prefix, 2 ∷ 8 ∷ []) ∷ [];
  pending_file_manifests = some ((0, toy_file 2 (8 ∷ [])) ∷ []);
}

put_toy_file :
    put_file_manifest toy_protobuf new_transaction 0 file_id (toy_file 2 (8 ∷ [])) ≡ ok with_file
unfolding put_file_manifest marshalled put_in insert encode_file encode_chunk bytes_equal
put_toy_file = refl

-- The manifest is looked up under another address, as for a directory in the same block.
tx_get_file_manifest-put_file_manifest_example :
    tx_get_file_manifest toy_pebble toy_protobuf empty_state with_file 1 file_id
    ≡ tx_get_file_manifest toy_pebble toy_protobuf empty_state new_transaction 1 file_id
tx_get_file_manifest-put_file_manifest_example =
    tx_get_file_manifest-put_file_manifest toy_pebble empty_state toy_protobuf new_transaction
      with_file 0 1 file_id file_id (toy_file 2 (8 ∷ [])) put_toy_file

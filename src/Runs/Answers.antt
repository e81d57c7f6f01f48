-- ===== src/Runs/Answers.antt =====
-- A file that is accepted, committed and served.
use blobcast.Prelude.{
  ℕ, ◌≡◌, ◌≤◌, ◌↔◌, refl, true, false, none, some, List, [], ◌∷◌, length, replicate, arith,
}
use blobcast.Prelude.Maps.{nat_eq, lookup, insert}
use blobcast.Prelude.Outcome.{Outcome, ok, err, panic}
use blobcast.Crypto.{is_zero, bytes_equal, equal_bytes, hash_bytes, hash_of_slice}
use blobcast.Types.Blob.{
  BlobIdentifier, blob_bytes, blob_identifier_from_bytes, blob_identifier_from_proto,
}
use blobcast.State.Store.{FileManifest, last_write}
use blobcast.State.Chain
use blobcast.State.Keys.{prefix_key, file_manifest_prefix, chunk_prefix, chunk_hash_prefix}
use blobcast.State.Transaction.{
  Transaction, new_transaction, drop_pending, put_block, set_finalized_height, put_chunk,
  put_file_manifest, put_in, find_in, marshalled, tx_get_chunk, tx_get_chunk_hash, commit,
}
use blobcast.State.Transaction.Durable.{start, then_write, chunk, block, finalized}
use blobcast.State.Transaction.Since.{none_since, then_since}
use blobcast.Types.Block.{Block, zero_header}
use blobcast.Sync.Monad.{SyncError, Work}
use blobcast.Sync.Blobs.{
  RawBlob, checked_chunk, checked_read, read_chunk, gather_chunks, accept_file, sync_file_manifest,
}
use blobcast.Sync.Files.{Gathers}
use blobcast.Node.{
  existing, get_chunk_data, chunk_id, read_chunks, node_file_manifest, verified, get_file_data,
}
use blobcast.Util.{get_little, bytes_from_uint64, put_little}
use blobcast.Node.Checked.{Holds, get_file_data-checked}
use blobcast.Node.Height.{height_serves_file}
use blobcast.Sync.Blocks.{
  BlobStore, apply_block, link_block, previous_block, hash_block, store_block, has_roots, add_roots,
  add_root, finalize_block,
}
use blobcast.Node.Served.{accepted_file_is_served}
use blobcast.Node.Service.{
  Single, batch_get_file_manifest, batch_get_file_manifest_iff, batch_manifests, with_code,
}
use blobcast.Types.Text.{id, blob_identifier_from_string, has_prefix, trim_prefix}
use blobcast.Runs.Toy.{toy_pebble, toy_blake3, toy_base36}
use blobcast.Runs.Messages.{
  toy_protobuf, toy_chunk, toy_commitment, toy_file, encode_file, encode_chunk,
}

abbrev opened : Chain.ChainState toy_pebble
opened = record { db = []; pending = true }

abbrev served_file : FileManifest
served_file = toy_file 2 (toy_blake3.sum256 toy_chunk)

abbrev served_id : BlobIdentifier
served_id = record { height = 9; commitment = replicate 32 4 }

abbrev file_blob : RawBlob
file_blob = record { data_bytes = []; commitment = replicate 32 4 }

abbrev chunk_pending : Transaction
chunk_pending = record new_transaction {
  batch =
      (prefix_key toy_commitment chunk_prefix, toy_chunk)
      ∷ (prefix_key toy_commitment chunk_hash_prefix, toy_blake3.sum256 toy_chunk)
      ∷ [];
  pending_chunks = some ((toy_commitment, toy_chunk) ∷ []);
  pending_chunk_hashes = some ((toy_commitment, toy_blake3.sum256 toy_chunk) ∷ []);
}

abbrev file_pending : Transaction
file_pending = record chunk_pending {
  batch =
      (prefix_key toy_commitment chunk_prefix, toy_chunk)
      ∷ (prefix_key toy_commitment chunk_hash_prefix, toy_blake3.sum256 toy_chunk)
      ∷ (prefix_key (blob_bytes served_id) file_manifest_prefix, 2 ∷ toy_blake3.sum256 toy_chunk)
      ∷ [];
  pending_file_manifests = some ((3, served_file) ∷ []);
}

abbrev work_before : Work
work_before = record { tx = chunk_pending; cache = []; next = 3 }

abbrev work_after : Work
work_after = record { tx = file_pending; cache = []; next = 4 }

abbrev committed_state : Chain.ChainState toy_pebble
committed_state = record { db = file_pending.batch; pending = false }

put_the_chunk :
    put_chunk new_transaction toy_commitment toy_chunk (toy_blake3.sum256 toy_chunk)
    ≡ ok chunk_pending
unfolding put_chunk put_in insert
put_the_chunk = refl

accept_the_file :
    sync_file_manifest toy_blake3 toy_pebble toy_protobuf opened 9 file_blob served_file work_before
    ≡ (ok true, work_after)
unfolding sync_file_manifest gather_chunks read_chunk checked_read checked_chunk accept_file
    put_file_manifest put_in find_in marshalled tx_get_chunk tx_get_chunk_hash insert lookup
    encode_file encode_chunk bytes_equal equal_bytes hash_bytes hash_of_slice
accept_the_file = refl

commit_the_file :
    commit toy_pebble opened file_pending
    ≡ (ok tt, (record (drop_pending file_pending) { committed = true }, committed_state))
unfolding commit
commit_the_file = refl

-- What a height ends with: its block, and the finalized height.
abbrev end_block : Block
end_block = record {
  header = record zero_header { height = 1 };
  body = record { dirs = []; files = served_id ∷ []; chunks = [] };
}

abbrev with_block : Transaction
with_block = (put_block toy_blake3 [] file_pending 1 end_block).0

abbrev height_pending : Transaction
height_pending = set_finalized_height with_block 1

abbrev height_state : Chain.ChainState toy_pebble
height_state = record { db = height_pending.batch; pending = false }

commit_the_height :
    commit toy_pebble opened height_pending
    ≡ (ok tt, (record (drop_pending height_pending) { committed = true }, height_state))
unfolding commit put_block set_finalized_height
commit_the_height = refl

served_commitment : hash_of_slice file_blob.commitment ≡ some (replicate 32 4)
unfolding hash_of_slice
served_commitment = refl

accepted_file_is_served_example :
    (d : List ℕ) × Gathers toy_blake3 toy_pebble toy_protobuf opened chunk_pending
      served_file.chunks d
    × (get_file_data toy_pebble height_state toy_protobuf toy_blake3 1000 served_id ≡ ok d)
accepted_file_is_served_example =
    accepted_file_is_served toy_pebble toy_protobuf opened height_state toy_blake3 1000 9 file_blob
      served_file work_before work_after (replicate 32 4) height_pending
      (record (drop_pending height_pending) { committed = true })
      (then_write start
        (chunk toy_commitment toy_chunk (toy_blake3.sum256 toy_chunk) refl put_the_chunk))
      accept_the_file served_commitment
      (then_since (then_since none_since (block toy_blake3 [] 1 end_block refl) tt)
        (finalized 1 refl) tt)
      commit_the_height (omega arith)

serve_the_file :
    get_file_data toy_pebble committed_state toy_protobuf toy_blake3 1000 served_id ≡ ok toy_chunk
unfolding get_file_data node_file_manifest existing read_chunks chunk_id get_chunk_data verified
    Chain.get_file_manifest Chain.get_chunk last_write bytes_equal prefix_key blob_bytes
    blob_identifier_from_proto hash_of_slice hash_bytes equal_bytes bytes_from_uint64 put_little
serve_the_file = refl

get_file_data-checked_example :
    (m : FileManifest) × (Chain.get_file_manifest toy_pebble toy_protobuf committed_state served_id
      ≡ ok (some m))
    × Holds toy_pebble committed_state m.chunks toy_chunk
    × (length toy_chunk ≡ m.file_size)
    × (equal_bytes (hash_bytes toy_blake3 (toy_chunk ∷ [])) m.file_hash ≡ true)
get_file_data-checked_example =
    get_file_data-checked toy_pebble committed_state toy_protobuf toy_blake3 1000 served_id
      toy_chunk serve_the_file

abbrev served_text : List ℕ
served_text = id toy_base36 served_id

batch_test :
    batch_get_file_manifest toy_pebble committed_state toy_protobuf toy_blake3 toy_base36 1000
      (served_text ∷ served_text ∷ [])
    ≡ ok ((served_text, served_file) ∷ (served_text, served_file) ∷ [])
unfolding batch_get_file_manifest batch_manifests with_code node_file_manifest existing id
    blob_identifier_from_string has_prefix trim_prefix blob_identifier_from_bytes
    Chain.get_file_manifest last_write bytes_equal prefix_key blob_bytes bytes_from_uint64
    get_little put_little
batch_test = refl

batch_get_file_manifest_iff_example :
    (batch_get_file_manifest toy_pebble committed_state toy_protobuf toy_blake3 toy_base36 1000
        (served_text ∷ served_text ∷ [])
      ≡ ok ((served_text, served_file) ∷ (served_text, served_file) ∷ []))
    ↔ ((length (served_text ∷ served_text ∷ []) ≤ 1000)
        × Single toy_pebble committed_state toy_protobuf toy_blake3 toy_base36 1000
            (served_text ∷ served_text ∷ [])
            ((served_text, served_file) ∷ (served_text, served_file) ∷ []))
batch_get_file_manifest_iff_example =
    batch_get_file_manifest_iff toy_pebble committed_state toy_protobuf toy_blake3 toy_base36 1000
      (served_text ∷ served_text ∷ [])
      ((served_text, served_file) ∷ (served_text, served_file) ∷ [])

abbrev no_da : BlobStore
no_da = record { get_blobs = λ h. none; get_time = λ h. none }

abbrev parent_block : Block
parent_block = record { header = zero_header; body = record { dirs = []; files = []; chunks = [] } }

abbrev applying : Outcome SyncError Block × Work
applying =
    apply_block toy_blake3 toy_pebble toy_protobuf no_da (97 ∷ []) opened end_block
      (some parent_block) work_after

abbrev applied_block : Block
applied_block = elim applying.0 [ ok b ↦ b | err e ↦ end_block | panic ↦ end_block ]

apply_the_block : applying ≡ (ok applied_block, applying.1)
unfolding apply_block link_block previous_block hash_block store_block has_roots add_roots add_root
    Chain.get_state_mmr is_zero bytes_equal
apply_the_block = refl

abbrev finalizing : Outcome SyncError Unit × Work
finalizing = finalize_block toy_blake3 toy_pebble toy_protobuf no_da (97 ∷ []) 1 applying.1

finalize_the_height : finalizing ≡ (ok tt, finalizing.1)
unfolding finalize_block
finalize_the_height = refl

abbrev applied_state : Chain.ChainState toy_pebble
applied_state = (commit toy_pebble opened finalizing.1.tx).1.1

commit_the_block :
    commit toy_pebble opened finalizing.1.tx
    ≡ (ok tt, ((commit toy_pebble opened finalizing.1.tx).1.0, applied_state))
unfolding commit finalize_block set_finalized_height apply_block link_block previous_block
    hash_block store_block put_block has_roots add_roots add_root Chain.get_state_mmr is_zero
    bytes_equal
commit_the_block = refl

height_serves_file_example :
    (d : List ℕ) × Gathers toy_blake3 toy_pebble toy_protobuf opened chunk_pending
      served_file.chunks d
    × (get_file_data toy_pebble applied_state toy_protobuf toy_blake3 1000 served_id ≡ ok d)
height_serves_file_example =
    height_serves_file toy_blake3 toy_pebble toy_protobuf no_da (97 ∷ []) opened applied_state 1000
      9 1 file_blob (replicate 32 4) served_file end_block applied_block (some parent_block)
      work_before work_after work_after applying.1 finalizing.1
      (commit toy_pebble opened finalizing.1.tx).1.0
      (then_write start
        (chunk toy_commitment toy_chunk (toy_blake3.sum256 toy_chunk) refl put_the_chunk))
      accept_the_file served_commitment none_since apply_the_block finalize_the_height
      commit_the_block (omega arith)

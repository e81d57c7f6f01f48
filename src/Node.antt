-- ===== src/Node.antt =====
-- pkg/api/node: what a node answers from its state. `state.GetChainState` gives the handle of the
-- state, which is an argument here.
pub mod Checked
pub mod Served
pub mod Height
pub mod Service
use blobcast.Prelude.{
  ℕ, Option, none, some, List, [], ◌∷◌, ◌++◌, Bool, true, false, length, ltb, ◌==◌, if◌then◌else◌,
}
use blobcast.Prelude.Outcome.{Outcome, ok, err, panic, ◌>>=◌}
use blobcast.Crypto.{Blake3, Hash, hash_bytes, equal_bytes}
use blobcast.Types.Blob.{BlobIdentifier, blob_identifier_from_proto, blob_identifier_proto}
use blobcast.State.Store.{Pebble, Protobuf, ChunkReference, FileManifest, DirectoryManifest}
use blobcast.State.Chain

-- The errors, without their texts.
pub data NodeError : Type 0 where
  state_error : Chain.StateError → NodeError
  not_found bad_length bad_hash : NodeError

abbrev pub Answer : Type 0 → Type 0
Answer A = Outcome NodeError A

-- What a read of the state comes to: a missing value is an error.
unfoldable pub existing : {A : Type 0} → Chain.Res (Option A) → Answer A
existing (ok (some a)) = ok a
existing (ok none) = err not_found
existing (err e) = err (state_error e)
existing panic = panic

module _ (P : Pebble) (s : Chain.ChainState P) where
  unfoldable pub get_chunk_data : BlobIdentifier → Answer (List ℕ)
  get_chunk_data id = existing (Chain.get_chunk P s id.commitment)

  -- The reference, with its field `ChunkSize`.
  unfoldable pub get_chunk_reference : BlobIdentifier → Answer (ChunkReference × ℕ)
  get_chunk_reference id = do
    hash ← existing (Chain.get_chunk_hash P s id.commitment)
    chunk ← existing (Chain.get_chunk P s id.commitment)
    ok (record { id = some (blob_identifier_proto id); chunk_hash = hash }, length chunk)

  -- The identifier in a reference: without one the call panics, as it does on a short commitment.
  unfoldable pub chunk_id : ChunkReference → Answer BlobIdentifier
  chunk_id chunk = do id ← Chain.or_panic chunk.id; Chain.or_panic (blob_identifier_from_proto id)

  -- The loop over the chunks: `before` is what was read so far.
  unfoldable pub read_chunks : List ChunkReference → List ℕ → Answer (List ℕ)
  read_chunks [] before = ok before
  read_chunks (chunk ∷ chunks) before = do
    id ← chunk_id chunk
    bytes ← get_chunk_data id
    read_chunks chunks (before ++ bytes)

  module _ (M : Protobuf) where
    unfoldable pub node_directory_manifest : BlobIdentifier → Answer DirectoryManifest
    node_directory_manifest id = existing (Chain.get_directory_manifest P M s id)

    unfoldable pub node_file_manifest : BlobIdentifier → Answer FileManifest
    node_file_manifest id = existing (Chain.get_file_manifest P M s id)

    module _ (B : Blake3) where
      -- The checks at the end of `GetFileData`.
      unfoldable pub verified : FileManifest → List ℕ → Answer (List ℕ)
      verified manifest bytes =
          if length bytes == manifest.file_size
          then if equal_bytes (hash_bytes B (bytes ∷ [])) manifest.file_hash
            then ok bytes
            else err bad_hash
          else err bad_length

      -- `make` panics if the size that the manifest states is above what can be allocated.
      unfoldable pub get_file_data : ℕ → BlobIdentifier → Answer (List ℕ)
      get_file_data most id = do
        manifest ← node_file_manifest id
        bytes ← if ltb most manifest.file_size then panic else read_chunks manifest.chunks []
        verified manifest bytes

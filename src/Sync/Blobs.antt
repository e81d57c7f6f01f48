-- ===== src/Sync/Blobs.antt =====
-- `SyncBlobs` and the checks of chunks, file manifests and directory manifests in
-- pkg/sync/chain.go.
use blobcast.Prelude.{
  ℕ, Option, none, some, List, [], ◌∷◌, ◌++◌, Bool, true, false, not, length, if◌then◌else◌, ◌==◌,
}
use blobcast.Crypto.{Blake3, Hash, equal_bytes, hash_bytes, hash_of_slice}
use blobcast.Crypto.Merkle.{calculate_merkle_root}
use blobcast.Types.Blob.{BlobIdentifier, blob_identifier_from_proto}
use blobcast.State.Store.{
  Pebble, Protobuf, ChunkReference, FileManifest, FileReference, DirectoryManifest, Envelope,
  chunk_data, file_manifest, directory_manifest, no_payload,
}
use blobcast.State.Chain
use blobcast.State.Transaction.{
  Pointer, put_chunk, put_file_manifest, put_directory_manifest, tx_get_chunk, tx_get_chunk_hash,
  tx_get_file_manifest,
}
use blobcast.Sync.Monad.{
  bad_envelope, unknown_blob, Sync, ◌>>=◌, ◌>>◌, pure, fail, or_crash, or_reject, read_tx, write_tx,
  new_pointer,
}

-- A blob of celestia-node, by the parts that the code reads.
pub record RawBlob : Type 0 where
  pub data_bytes : List ℕ
  pub commitment : List ℕ

-- What `SyncBlobs` collects.
pub record Found : Type 0 where
  pub chunks : List BlobIdentifier
  pub files : List BlobIdentifier
  pub dirs : List BlobIdentifier

module _ (B : Blake3) (P : Pebble) (M : Protobuf) (s : Chain.ChainState P) where
  -- `SyncChunk` accepts every chunk.
  unfoldable pub sync_chunk : RawBlob → List ℕ → Sync Bool
  sync_chunk blob chunk = do
    key ← or_crash (hash_of_slice blob.commitment)
    write_tx (λ tx. put_chunk tx key chunk (hash_bytes B (chunk ∷ [])))
    pure true

  -- The two checks of one chunk: `none` rejects the manifest, a value is the chunk's data.
  unfoldable pub checked_chunk : List ℕ → List ℕ → Option Hash → Option (List ℕ)
  checked_chunk expected chunk none = none
  checked_chunk expected chunk (some h) = if equal_bytes h expected then some chunk else none

  unfoldable pub checked_read :
      List ℕ → Option (List ℕ) → Sync (Option Hash) → Sync (Option (List ℕ))
  checked_read expected none read_hash = pure none
  checked_read expected (some chunk) read_hash = do
    h ← read_hash
    pure (checked_chunk expected chunk h)

  -- A nil `chunk.Id`, or one with a commitment of fewer than 32 bytes, panics.
  unfoldable pub read_chunk : ChunkReference → Sync (Option (List ℕ))
  read_chunk chunk = do
    id ← or_crash chunk.id
    key ← or_crash (hash_of_slice id.commitment)
    found ← read_tx (λ tx. tx_get_chunk P s tx key)
    checked_read chunk.chunk_hash found (read_tx (λ tx. tx_get_chunk_hash P s tx key))

  -- The loop of `SyncFileManifest`, which appends to `fileData`.
  unfoldable pub gather_chunks : List ChunkReference → List ℕ → Sync (Option (List ℕ))
  gather_chunks [] file_data = pure (some file_data)
  gather_chunks (chunk ∷ chunks) file_data = do
    part ← read_chunk chunk
    or_reject part (λ bytes. gather_chunks chunks (file_data ++ bytes))

  -- What stands behind the loop.
  unfoldable pub accept_file : Pointer → BlobIdentifier → FileManifest → Option (List ℕ) → Sync Bool
  accept_file at id manifest none = pure false
  accept_file at id manifest (some file_data) =
      if not (length file_data == manifest.file_size)
      then pure false
      else if not (equal_bytes (hash_bytes B (file_data ∷ [])) manifest.file_hash)
      then pure false
      else (do write_tx (λ tx. put_file_manifest M tx at id manifest); pure true)

  unfoldable pub sync_file_manifest : ℕ → RawBlob → FileManifest → Sync Bool
  sync_file_manifest height blob manifest = do
    commitment ← or_crash (hash_of_slice blob.commitment)
    at ← new_pointer
    file_data ← gather_chunks manifest.chunks []
    accept_file at (record { height = height; commitment = commitment }) manifest file_data

  -- The leaf of one file; `none` rejects the manifest. The identifier that is looked up is a new
  -- object.
  unfoldable pub read_file : FileReference → Sync (Option (List ℕ))
  read_file file = do
    pb ← or_crash file.id
    id ← or_crash (blob_identifier_from_proto pb)
    at ← new_pointer
    found ← read_tx (λ tx. tx_get_file_manifest P M s tx at id)
    or_reject found
        (λ manifest. pure (some (hash_bytes B (file.relative_path ∷ manifest.file_hash ∷ []))))

  -- The loop of `SyncDirectoryManifest`, which appends to `merkleLeaves`.
  unfoldable pub gather_files : List FileReference → List (List ℕ) → Sync (Option (List (List ℕ)))
  gather_files [] leaves = pure (some leaves)
  gather_files (file ∷ files) leaves = do
    leaf ← read_file file
    or_reject leaf (λ hash. gather_files files (leaves ++ (hash ∷ [])))

  unfoldable pub accept_dir :
      BlobIdentifier → DirectoryManifest → Option (List (List ℕ)) → Sync Bool
  accept_dir id manifest none = pure false
  accept_dir id manifest (some leaves) =
      if not (equal_bytes (calculate_merkle_root B leaves) manifest.directory_hash)
      then pure false
      else (do write_tx (λ tx. put_directory_manifest M tx id manifest); pure true)

  unfoldable pub sync_directory_manifest : ℕ → RawBlob → DirectoryManifest → Sync Bool
  sync_directory_manifest height blob manifest = do
    commitment ← or_crash (hash_of_slice blob.commitment)
    at ← new_pointer
    leaves ← gather_files manifest.files []
    accept_dir (record { height = height; commitment = commitment }) manifest leaves

  -- One blob: the lists with its identifier, if it is accepted, at the end of its kind.
  unfoldable pub sync_envelope : ℕ → RawBlob → BlobIdentifier → Found → Envelope → Sync Found
  sync_envelope height blob id f (chunk_data chunk) = do
    accepted ← sync_chunk blob chunk
    pure (if accepted then record f { chunks = f.chunks ++ (id ∷ []) } else f)
  sync_envelope height blob id f (file_manifest m) = do
    accepted ← sync_file_manifest height blob m
    pure (if accepted then record f { files = f.files ++ (id ∷ []) } else f)
  sync_envelope height blob id f (directory_manifest m) = do
    accepted ← sync_directory_manifest height blob m
    pure (if accepted then record f { dirs = f.dirs ++ (id ∷ []) } else f)
  sync_envelope height blob id f no_payload = fail unknown_blob

  unfoldable pub unmarshalled : Option Envelope → Sync Envelope
  unmarshalled none = fail bad_envelope
  unmarshalled (some e) = pure e

  unfoldable pub sync_blob : ℕ → RawBlob → Found → Sync Found
  sync_blob height blob f = do
    envelope ← unmarshalled (M.unmarshal_envelope blob.data_bytes)
    commitment ← or_crash (hash_of_slice blob.commitment)
    at ← new_pointer
    sync_envelope height blob (record { height = height; commitment = commitment }) f envelope

  unfoldable pub sync_blobs_from : ℕ → List RawBlob → Found → Sync Found
  sync_blobs_from height [] f = pure f
  sync_blobs_from height (blob ∷ blobs) f = do
    f' ← sync_blob height blob f
    sync_blobs_from height blobs f'

  unfoldable pub sync_blobs : ℕ → List RawBlob → Sync Found
  sync_blobs height blobs =
      sync_blobs_from height blobs (record { chunks = []; files = []; dirs = [] })

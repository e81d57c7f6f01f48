-- ===== src/Upload/File.antt =====
-- `PutFileData` of pkg/sync/sync.go and `PutFileManifest` of pkg/sync/manifest.go. What the channels
-- of the submitter give is a function of the chunk's position; what is submitted before an error is
-- not kept.
use blobcast.Prelude.{ℕ, ◌+◌, Option, none, some, List, [], ◌∷◌, Bool, true, false, length}
use blobcast.Prelude.Outcome.{ok, err, panic, ◌>>=◌}
use blobcast.Crypto.{Blake3, Hash, hash_bytes}
use blobcast.Types.Blob.{BlobIdentifier, blob_identifier_proto}
use blobcast.Types.Text.{Base36, id, blob_identifier_from_string}
use blobcast.State.Store.{Pebble, ChunkReference, FileManifest, Envelope, chunk_data, file_manifest}
use blobcast.Upload.Records.{
  UploadRecord, Json, bad_identifier, marshalling, submission, cancelled, Res, or_error,
  get_upload_record, save_upload_record,
}
use blobcast.Upload.Split.{split}

-- What comes first, an answer of the submitter or the end of the context.
pub data Awaited : Type 0 where
  stored : BlobIdentifier → Awaited
  failed done : Awaited

-- The entries of `chunks`, `chunkHashes`, `chunkKeys`, and what is submitted for a chunk, which is
-- nothing if an earlier upload did.
pub record Piece : Type 0 where
  pub hash : Hash
  pub key : Hash
  pub payload : Option (List ℕ)

pub record Uploaded (Db : Type 0) : Type 0 where
  pub db : Db
  pub identifier : BlobIdentifier
  pub file_hash : Hash
  -- The manifest that is submitted, if any, and the payloads before it.
  pub manifest : Option FileManifest
  pub payloads : List (List ℕ)

abbrev pub chunk_key_prefix : List ℕ
chunk_key_prefix = b'c' ∷ b'h' ∷ b'k' ∷ b':' ∷ []

abbrev pub awaited : Awaited → Res BlobIdentifier
awaited (stored b) = ok b
awaited failed = err submission
awaited done = err cancelled

unfoldable pub submitted_payloads : List Piece → List (List ℕ)
submitted_payloads [] = []
submitted_payloads (p ∷ pieces) = elim p.payload [
  | none ↦ submitted_payloads pieces
  | some payload ↦ payload ∷ submitted_payloads pieces
]

module _ (P : Pebble) (J : Json) (B : Blake3) (C : Base36)
    (marshal : Envelope → Option (List ℕ)) where
  unfoldable pub identifier_of : UploadRecord → Res BlobIdentifier
  identifier_of r = elim (blob_identifier_from_string C r.manifest_id) [
    | ok b ↦ ok b
    | err e ↦ err bad_identifier
    | panic ↦ panic
  ]

  -- The payload of a chunk whose record is not completed.
  unfoldable pub piece_payload : Bool → List ℕ → Res (Option (List ℕ))
  piece_payload true chunk = ok none
  piece_payload false chunk = do
    bytes ← or_error marshalling (marshal (chunk_data chunk))
    ok (some bytes)

  -- The loop that submits.
  unfoldable pub prepare : P.Db → List (List ℕ) → Res (List Piece)
  prepare db [] = ok []
  prepare db (chunk ∷ chunks) =
      let hash = hash_bytes B (chunk ∷ []) in
      let key = hash_bytes B (chunk_key_prefix ∷ hash ∷ []) in
      do
        chunk_state ← get_upload_record P J db key
        payload ← piece_payload chunk_state.completed chunk
        pieces ← prepare db chunks
        ok (record { hash = hash; key = key; payload = payload } ∷ pieces)

  unfoldable pub wait_one : P.Db → Hash → Awaited → Res P.Db
  wait_one db key answer = do
    chunk_id ← awaited answer
    chunk_state ← get_upload_record P J db key
    save_upload_record P J db
        (record { key = chunk_state.key; completed = true; manifest_id = id C chunk_id })

  -- The loop that waits, from the chunk at `i` on.
  unfoldable pub wait_for : P.Db → (ℕ → Awaited) → ℕ → List Piece → Res P.Db
  wait_for db answers i [] = ok db
  wait_for db answers i (p ∷ pieces) = elim p.payload [
    | none ↦ wait_for db answers (i + 1) pieces
    | some payload ↦ do db' ← wait_one db p.key (answers i); wait_for db' answers (i + 1) pieces
  ]

  -- The loop that fills in the manifest.
  unfoldable pub references : P.Db → List Piece → Res (List ChunkReference)
  references db [] = ok []
  references db (p ∷ pieces) = do
    chunk_state ← get_upload_record P J db p.key
    chunk_id ← identifier_of chunk_state
    refs ← references db pieces
    ok (record { id = some (blob_identifier_proto chunk_id); chunk_hash = p.hash } ∷ refs)

  unfoldable pub put_file_manifest : FileManifest → Awaited → Res BlobIdentifier
  put_file_manifest manifest answer = do
    bytes ← or_error marshalling (marshal (file_manifest manifest))
    awaited answer

  -- The name, the type and the version are `other_fields`; `last` is what the manifest's channel gives.
  module _ (answers : ℕ → Awaited) (last : Awaited) (other_fields : List ℕ)
      (max_blob_size : ℕ) where
    unfoldable pub put_new_file : P.Db → UploadRecord → Hash → List ℕ → Res (Uploaded P.Db)
    put_new_file db file_state file_hash file_data = do
      chunks ← elim (split file_data max_blob_size) [ none ↦ panic | some chunks ↦ ok chunks ]
      pieces ← prepare db chunks
      waited ← wait_for db answers 0 pieces
      refs ← references waited pieces
      let manifest : FileManifest = record {
        chunks = refs;
        file_size = length file_data;
        file_hash = file_hash;
        other_fields = other_fields;
      }
      b ← put_file_manifest manifest last
      saved ←
          save_upload_record P J waited
            (record { key = file_state.key; completed = true; manifest_id = id C b })
      ok (record {
        db = saved;
        identifier = b;
        file_hash = file_hash;
        manifest = some manifest;
        payloads = submitted_payloads pieces;
      })

    -- An upload that is completed is not done again.
    unfoldable pub put_unless : Bool → P.Db → UploadRecord → Hash → List ℕ → Res (Uploaded P.Db)
    put_unless true db file_state file_hash file_data = do
      b ← identifier_of file_state
      ok (record { db = db; identifier = b; file_hash = file_hash; manifest = none; payloads = [] })
    put_unless false db file_state file_hash file_data =
        put_new_file db file_state file_hash file_data

    unfoldable pub put_file_data : P.Db → List ℕ → Res (Uploaded P.Db)
    put_file_data db file_data =
        let file_hash = hash_bytes B (file_data ∷ []) in
        do
          file_state ← get_upload_record P J db file_hash
          put_unless file_state.completed db file_state file_hash file_data

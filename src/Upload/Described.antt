-- ===== src/Upload/Described.antt =====
-- What an upload leaves: the manifest that `PutFileData` of pkg/sync/sync.go submits.
use blobcast.Prelude.{
  ℕ, ◌<◌, ◌≡◌, refl, ap, Option, none, some, List, [], ◌∷◌, Bool, true, false, length, flatten, inl,
  inr, ◌⊎◌,
}
use mathlib.Core.Path.{subst}
use blobcast.Prelude.Outcome.{ok, bind-eq-ok}
use blobcast.Crypto.{Blake3, hash_bytes}
use blobcast.Types.Blob.{BlobIdentifier}
use blobcast.Types.Text.{Base36, id}
use blobcast.State.Store.{Pebble, FileManifest, Envelope, file_manifest}
use blobcast.Upload.Records.{
  UploadRecord, Json, or_error, marshalling, get_upload_record, save_upload_record,
}
use blobcast.Upload.Split.{IsCut, split-IsCut}
use blobcast.Upload.File.{
  Awaited, stored, failed, done, awaited, Uploaded, submitted_payloads, identifier_of, prepare,
  put_file_data, put_file_manifest, put_new_file, put_unless, references, wait_for,
}
use blobcast.Upload.Pieces.{Refer, Missing, ok_injective, prepare-Missing, references-Refer}

module _ (P : Pebble) (J : Json) (B : Blake3) (C : Base36)
    (marshal : Envelope → Option (List ℕ)) where
  module _ (answers : ℕ → Awaited) (last : Awaited) (other_fields : List ℕ)
      (max_blob_size : ℕ) where
    -- A new upload: the manifest states the size and the hash of the data; the data is cut into
    -- chunks, of which those without a completed record are submitted; the manifest names the chunks
    -- as they are recorded in the store just before the record of the file is saved.
    abbrev pub Described : P.Db → UploadRecord → List ℕ → Uploaded P.Db → Type 0
    Described db file_state file_data u =
        (m : FileManifest) × (chunks : List (List ℕ)) × (before : P.Db) × (u.manifest ≡ some m)
        × (m.file_size ≡ length file_data)
        × (m.file_hash ≡ hash_bytes B (file_data ∷ []))
        × (flatten chunks ≡ file_data)
        × IsCut max_blob_size chunks
        × Missing P J B C marshal db chunks u.payloads
        × Refer P J B C marshal before m.chunks chunks
        × (last ≡ stored u.identifier)
        × (save_upload_record P J before
              (record { key = file_state.key; completed = true; manifest_id = id C u.identifier })
            ≡ ok u.db)

    -- An upload that was completed before: nothing is submitted, and the recorded identifier given.
    abbrev pub Repeated : P.Db → UploadRecord → Uploaded P.Db → Type 0
    Repeated db file_state u =
        (identifier_of P J B C marshal file_state ≡ ok u.identifier)
        × (u.manifest ≡ none)
        × (u.payloads ≡ [])
        × (u.db ≡ db)

    awaited-eq-ok : (a : Awaited) (b : BlobIdentifier) → awaited a ≡ ok b → a ≡ stored b
    awaited-eq-ok (stored c) b h = ap stored (ok_injective c b h)
    awaited-eq-ok failed b h = absurd (cc h)
    awaited-eq-ok done b h = absurd (cc h)

    put_new_file-Described :
        (db : P.Db) (file_state : UploadRecord) (file_data : List ℕ) (u : Uploaded P.Db)
        → 0 < max_blob_size
        → put_new_file P J B C marshal answers last other_fields max_blob_size db file_state
            (hash_bytes B (file_data ∷ []))
            file_data
          ≡ ok u
        → Described db file_state file_data u
    unfolding put_new_file put_file_manifest
    put_new_file-Described db file_state file_data u pos h =
        let (chunks, cut, whole, is_cut) = split-IsCut file_data max_blob_size pos in
        let (pieces, prepared, h1) =
          bind-eq-ok (prepare P J B C marshal db chunks) _ (rw cut at h) in
        let (before, waited, h2) = bind-eq-ok (wait_for P J B C marshal db answers 0 pieces) _ h1 in
        let (refs, referred, h3) = bind-eq-ok (references P J B C marshal before pieces) _ h2 in
        let m : FileManifest = record {
          chunks = refs;
          file_size = length file_data;
          file_hash = hash_bytes B (file_data ∷ []);
          other_fields = other_fields;
        } in
        let (b, put, h4) = bind-eq-ok (put_file_manifest P J B C marshal m last) _ h3 in
        let (bytes, marshalled, answered) =
          bind-eq-ok (or_error marshalling (marshal (file_manifest m))) _ put in
        let (db', saved, h5) =
          bind-eq-ok
            (save_upload_record P J before
              (record { key = file_state.key; completed = true; manifest_id = id C b }))
            _ h4 in
        let (hashed, missing) = prepare-Missing P J B C marshal db chunks pieces prepared in
        subst (Described db file_state file_data)
          (ok_injective
            (record {
              db = db';
              identifier = b;
              file_hash = hash_bytes B (file_data ∷ []);
              manifest = some m;
              payloads = submitted_payloads pieces;
            })
            u h5)
          (
            m,
            chunks,
            before,
            refl,
            refl,
            refl,
            whole,
            is_cut,
            missing,
            references-Refer P J B C marshal before chunks pieces refs hashed referred,
            awaited-eq-ok last b answered,
            saved,
          )

    put_unless-Described :
        (db : P.Db) (file_state : UploadRecord) (file_data : List ℕ) (u : Uploaded P.Db)
        (completed : Bool)
        → 0 < max_blob_size
        → put_unless P J B C marshal answers last other_fields max_blob_size completed db file_state
            (hash_bytes B (file_data ∷ []))
            file_data
          ≡ ok u
        → ((completed ≡ true) × Repeated db file_state u)
          ⊎ ((completed ≡ false) × Described db file_state file_data u)
    unfolding put_unless
    put_unless-Described db file_state file_data u true pos h =
        let (b, parsed, h1) = bind-eq-ok (identifier_of P J B C marshal file_state) _ h in
        inl (
          refl,
          subst (Repeated db file_state)
              (ok_injective
                (record {
                  db = db;
                  identifier = b;
                  file_hash = hash_bytes B (file_data ∷ []);
                  manifest = none;
                  payloads = [];
                })
                u h1)
              (parsed, refl, refl, refl),
        )
    put_unless-Described db file_state file_data u false pos h =
        inr (refl, put_new_file-Described db file_state file_data u pos h)

    -- For a chunk size above 0, an upload that succeeds is one of two things. Either the record of
    -- the data's hash is completed: then nothing is submitted, the store stays, and the answer is the
    -- recorded identifier. Or it is not: then the manifest states the size and the hash of the data,
    -- which is cut into chunks of the full size but for the last; the payloads are those of the
    -- chunks without a completed record, in their order; the manifest names every chunk, in order, by
    -- its hash and its recorded identifier; and the identifier that the manifest was stored under is
    -- the answer and is saved in a completed record.
    pub put_file_data-Described :
        (db : P.Db) (file_data : List ℕ) (u : Uploaded P.Db)
        → 0 < max_blob_size
        → put_file_data P J B C marshal answers last other_fields max_blob_size db file_data ≡ ok u
        → (file_state : UploadRecord) × (get_upload_record P J db (hash_bytes B (file_data ∷ []))
            ≡ ok file_state)
          × (((file_state.completed ≡ true) × Repeated db file_state u)
              ⊎ ((file_state.completed ≡ false) × Described db file_state file_data u))
    unfolding put_file_data
    put_file_data-Described db file_data u pos h =
        let (file_state, read, h1) =
          bind-eq-ok (get_upload_record P J db (hash_bytes B (file_data ∷ []))) _ h in
        (
          file_state,
          read,
          put_unless-Described db file_state file_data u file_state.completed pos h1,
        )

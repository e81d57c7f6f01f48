-- ===== src/Runs/Files.antt =====
-- A file of five bytes that is cut in chunks of two, the second of which was uploaded before.
use blobcast.Prelude.{
  ℕ, ◌+◌, ◌==◌, ◌≡◌, refl, true, false, Option, none, some, List, [], ◌∷◌, ◌++◌, ◌⊎◌, take, drop,
  if◌then◌else◌, arith,
}
use blobcast.Prelude.Outcome.{ok, err, panic}
use blobcast.Crypto.{bytes_equal, hash_bytes}
use blobcast.Types.Blob.{BlobIdentifier, blob_bytes, blob_identifier_from_bytes}
use blobcast.Types.Text.{id, blob_identifier_from_string, has_prefix, trim_prefix}
use blobcast.State.Store.{
  Batch, Envelope, chunk_data, file_manifest, directory_manifest, no_payload, last_write,
}
use blobcast.Upload.Split.{split, split_loop}
use blobcast.Upload.Records.{UploadRecord, Json, get_upload_record, save_upload_record}
use blobcast.Upload.File.{
  Awaited, stored, Uploaded, identifier_of, piece_payload, prepare, put_file_data,
  put_file_manifest, put_new_file, put_unless, references, submitted_payloads, wait_for, wait_one,
}
use blobcast.Upload.Pieces.{chunk_key}
use blobcast.Upload.Described.{Described, Repeated, put_file_data-Described}
use blobcast.Runs.Toy.{toy_pebble, toy_blake3, toy_base36}

abbrev toy_data : List ℕ
toy_data = 1 ∷ 2 ∷ 3 ∷ 4 ∷ 5 ∷ []

split_test : split toy_data 2 ≡ some ((1 ∷ 2 ∷ []) ∷ (3 ∷ 4 ∷ []) ∷ (5 ∷ []) ∷ [])
unfolding split split_loop
split_test = refl

abbrev toy_record : List ℕ → Option UploadRecord
toy_record [] = none
toy_record (b ∷ bytes) =
    some (record { key = take 32 bytes; completed = b == 1; manifest_id = drop 32 bytes })

-- A byte for `completed`, the key, and the text.
abbrev toy_json : Json
toy_json = record {
  marshal = λ r. some ((if r.completed then 1 else 0) ∷ r.key ++ r.manifest_id);
  unmarshal = toy_record;
}

abbrev toy_marshal : Envelope → Option (List ℕ)
toy_marshal (chunk_data c) = some (1 ∷ c)
toy_marshal (file_manifest m) = some (2 ∷ m.file_hash)
toy_marshal (directory_manifest m) = some (3 ∷ m.directory_hash)
toy_marshal no_payload = some []

abbrev toy_blob : ℕ → BlobIdentifier
toy_blob n = record { height = n + 1; commitment = toy_blake3.sum256 (n ∷ []) }

abbrev toy_answer : ℕ → Awaited
toy_answer n = stored (toy_blob n)

abbrev toy_key : List ℕ
toy_key = chunk_key toy_pebble toy_json toy_blake3 toy_base36 toy_marshal (3 ∷ 4 ∷ [])

-- The store with the record of the chunk 3, 4.
abbrev toy_db : Batch
toy_db = (toy_key, 1 ∷ toy_key ++ id toy_base36 (toy_blob 9)) ∷ []

abbrev toy_uploaded : Uploaded Batch
toy_uploaded =
    elim (put_file_data toy_pebble toy_json toy_blake3 toy_base36 toy_marshal toy_answer
      (toy_answer 7) [] 2 toy_db toy_data) [
        | ok u ↦ u
        | err e ↦ record {
          db = [];
          identifier = toy_blob 0;
          file_hash = [];
          manifest = none;
          payloads = [];
        }
        | panic ↦ record {
          db = [];
          identifier = toy_blob 0;
          file_hash = [];
          manifest = none;
          payloads = [];
        }
      ]

toy_upload_works :
    put_file_data toy_pebble toy_json toy_blake3 toy_base36 toy_marshal toy_answer
      (toy_answer 7)
      []
      2
      toy_db
      toy_data
    ≡ ok toy_uploaded
unfolding put_file_data put_unless put_new_file put_file_manifest references wait_for wait_one
    prepare piece_payload identifier_of get_upload_record save_upload_record split split_loop
    last_write hash_bytes id blob_identifier_from_string has_prefix trim_prefix blob_bytes
    blob_identifier_from_bytes bytes_equal
toy_upload_works = refl

toy_upload_payloads : toy_uploaded.payloads ≡ (1 ∷ 1 ∷ 2 ∷ []) ∷ (1 ∷ 5 ∷ []) ∷ []
unfolding put_file_data put_unless put_new_file put_file_manifest references wait_for wait_one
    prepare piece_payload identifier_of get_upload_record save_upload_record split split_loop
    last_write hash_bytes id blob_identifier_from_string has_prefix trim_prefix blob_bytes
    blob_identifier_from_bytes bytes_equal submitted_payloads
toy_upload_payloads = refl

put_file_data-Described_example :
    (file_state : UploadRecord) × (get_upload_record toy_pebble toy_json toy_db
        (hash_bytes toy_blake3 (toy_data ∷ []))
      ≡ ok file_state)
    × (((file_state.completed ≡ true)
          × Repeated toy_pebble toy_json toy_blake3 toy_base36 toy_marshal toy_answer
              (toy_answer 7)
              []
              2
              toy_db
              file_state
              toy_uploaded)
        ⊎ ((file_state.completed ≡ false)
            × Described toy_pebble toy_json toy_blake3 toy_base36 toy_marshal toy_answer
                (toy_answer 7)
                []
                2
                toy_db
                file_state
                toy_data
                toy_uploaded))
put_file_data-Described_example =
    put_file_data-Described toy_pebble toy_json toy_blake3 toy_base36 toy_marshal toy_answer
      (toy_answer 7) [] 2 toy_db toy_data toy_uploaded (omega arith) toy_upload_works

-- ===== src/State/Store.antt =====
-- The key-value store under the state, github.com/cockroachdb/pebble: a parameter with the laws
-- that the code relies on. Also the protobuf messages that are stored, and their encoding by
-- google.golang.org/protobuf, which is a parameter too.
use blobcast.Prelude.{ℕ, Option, some, List, [], ◌∷◌, ◌≡◌, if◌then◌else◌}
use blobcast.Crypto.{bytes_equal}
use blobcast.Types.Blob.{PbBlobIdentifier}

-- `db.Get`: a value, `ErrNotFound`, or another error.
pub data Got : Type 0 where
  found : List ℕ → Got
  not_found : Got
  get_failed : Got

abbrev pub Batch : Type 0
Batch = List (List ℕ × List ℕ)

-- What a batch, applied in order, leaves under a key.
unfoldable pub last_write : List ℕ → Batch → Got → Got
last_write key [] old = old
last_write key ((k, v) ∷ ops) old = last_write key ops (if bytes_equal k key then found v else old)

pub record Pebble : Type 1 where
  pub Db : Type 0
  pub get : Db → List ℕ → Got
  -- What stands in memory behind a value that `get` returns, up to its capacity.
  pub spare : Db → List ℕ → List ℕ
  -- `batch.Commit` and `db.Set`; `none` is an error.
  pub commit : Db → Batch → Option Db
  -- An iterator over the keys from `lower` up to, and without, `upper`: the value at its last key.
  pub last_in : Db → List ℕ → List ℕ → Option (List ℕ)
  pub get-commit :
      (db db' : Db) (ops : Batch) (key : List ℕ)
      → commit db ops ≡ some db'
      → get db' key ≡ last_write key ops (get db key)

-- The generated messages of storage.v1, by the fields that the code reads; a message field that is
-- not set is nil. `other_fields` stands for those that are only stored.
pub record ChunkReference : Type 0 where
  pub id : Option PbBlobIdentifier
  pub chunk_hash : List ℕ

pub record FileManifest : Type 0 where
  pub chunks : List ChunkReference
  pub file_size : ℕ
  pub file_hash : List ℕ
  pub other_fields : List ℕ

pub record FileReference : Type 0 where
  pub id : Option PbBlobIdentifier
  pub relative_path : List ℕ

pub record DirectoryManifest : Type 0 where
  pub files : List FileReference
  pub directory_hash : List ℕ
  pub other_fields : List ℕ

-- `rollup.v1.BlobcastEnvelope`, by its payload.
pub data Envelope : Type 0 where
  chunk_data : List ℕ → Envelope
  file_manifest : FileManifest → Envelope
  directory_manifest : DirectoryManifest → Envelope
  no_payload : Envelope

-- `proto.Marshal` and `proto.Unmarshal`; `none` is an error.
pub record Protobuf : Type 0 where
  pub marshal_file : FileManifest → Option (List ℕ)
  pub unmarshal_file : List ℕ → Option FileManifest
  pub marshal_dir : DirectoryManifest → Option (List ℕ)
  pub unmarshal_dir : List ℕ → Option DirectoryManifest
  pub unmarshal_envelope : List ℕ → Option Envelope
  pub file_round_trip :
      (m : FileManifest) (d : List ℕ) → marshal_file m ≡ some d → unmarshal_file d ≡ some m
  pub dir_round_trip :
      (m : DirectoryManifest) (d : List ℕ) → marshal_dir m ≡ some d → unmarshal_dir d ≡ some m

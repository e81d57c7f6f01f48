-- ===== src/Upload/Records.antt =====
-- The records of pkg/state/upload.go: what has been uploaded already, as JSON in a key-value store.
use blobcast.Prelude.{ℕ, Option, none, some, List, [], ◌∷◌, Bool, false}
use blobcast.Prelude.Outcome.{Outcome, ok, err, ◌>>=◌}
use blobcast.Crypto.{Hash}
use blobcast.State.Store.{Pebble, Got, found, not_found, get_failed}

pub record UploadRecord : Type 0 where
  pub key : Hash
  pub completed : Bool
  -- A text.
  pub manifest_id : List ℕ

-- `json.Marshal` and `json.Unmarshal` at this record; `none` is an error.
pub record Json : Type 0 where
  pub marshal : UploadRecord → Option (List ℕ)
  pub unmarshal : List ℕ → Option UploadRecord

pub data UploadError : Type 0 where
  database json bad_identifier marshalling submission cancelled : UploadError

abbrev pub Res : Type 0 → Type 0
Res A = Outcome UploadError A

-- An error for `none`.
abbrev pub or_error : {A : Type 0} → UploadError → Option A → Res A
or_error e none = err e
or_error e (some a) = ok a

module _ (P : Pebble) (J : Json) where
  read_record : Hash → Got → Res UploadRecord
  read_record key not_found = ok (record { key = key; completed = false; manifest_id = [] })
  read_record key get_failed = err database
  read_record key (found data_) = or_error json (J.unmarshal data_)

  unfoldable pub get_upload_record : P.Db → Hash → Res UploadRecord
  unfolding read_record
  get_upload_record db key = read_record key (P.get db key)

  unfoldable pub save_upload_record : P.Db → UploadRecord → Res P.Db
  save_upload_record db upload_record = do
    bytes ← or_error json (J.marshal upload_record)
    or_error database (P.commit db ((upload_record.key, bytes) ∷ []))

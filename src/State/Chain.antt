-- ===== src/State/Chain.antt =====
-- `ChainState` of pkg/state/chain.go: the committed state, read from the database.
use blobcast.Prelude.{
  ℕ, ◌+◌, ◌%◌, ◌^◌, Option, none, some, List, [], ◌∷◌, Bool, true, false, if◌then◌else◌, ◌==◌,
}
use blobcast.Prelude.Outcome.{Outcome, ok, err, panic, ◌>>=◌}
use blobcast.Util.{bytes_from_uint64, uint64_from_bytes, uint64_from_bytes_key}
use blobcast.Crypto.{Hash, hash_of_slice}
use blobcast.Crypto.Mmr.{Mmr, new_mmr}
use blobcast.Crypto.Mmr.Snapshot.{RestoreError, restore}
use blobcast.Types.Blob.{BlobIdentifier, blob_bytes}
use blobcast.Types.Block.{Block, block_from_bytes}
use blobcast.State.Keys.{
  prefix_key, prefix_height_key, key_chain_id, key_finalized_height, key_celestia_height_offset,
  block_prefix, block_hash_prefix, state_mmr_prefix, chunk_prefix, chunk_hash_prefix,
  file_manifest_prefix, dir_manifest_prefix,
}
use blobcast.State.Store.{
  Pebble, Got, found, not_found, get_failed, Protobuf, FileManifest, DirectoryManifest,
}

pub data StateError : Type 0 where
  db_error key_missing in_progress no_mmr bad_manifest finished commit_error : StateError
  bad_snapshot : RestoreError → StateError

abbrev pub Res : Type 0 → Type 0
Res A = Outcome StateError A

-- A call that panics inside.
abbrev pub or_panic {ℓ} : {E A : Type ℓ} → Option A → Outcome E A
or_panic none = panic
or_panic (some a) = ok a

-- An unsigned number stored under a key, 0 if there is none.
number_or_zero : Got → Res ℕ
number_or_zero not_found = ok 0
number_or_zero get_failed = err db_error
number_or_zero (found v) = or_panic (uint64_from_bytes v)

-- The answer to a read that a missing key does not fail.
abbrev pub chunk_of : Got → Res (Option (List ℕ))
chunk_of (found v) = ok (some v)
chunk_of not_found = ok none
chunk_of get_failed = err db_error

module _ (P : Pebble) where
  -- The state's handle: the database and whether a transaction is pending.
  pub record ChainState : Type 0 where
    pub db : P.Db
    pub pending : Bool

  unfoldable pub chain_id : ChainState → Res (List ℕ)
  chain_id s = elim (P.get s.db key_chain_id) [
    | found v ↦ ok v
    | not_found ↦ err key_missing
    | get_failed ↦ err db_error
  ]

  put_number : ChainState → Option P.Db → Res ChainState
  put_number s none = err db_error
  put_number s (some db) = ok (record s { db = db })

  unfoldable pub set_chain_id : ChainState → List ℕ → Res ChainState
  unfolding put_number
  set_chain_id s id = put_number s (P.commit s.db ((key_chain_id, id) ∷ []))

  unfoldable pub set_celestia_height_offset : ChainState → ℕ → Res ChainState
  unfolding put_number
  set_celestia_height_offset s offset =
      put_number s (P.commit s.db ((key_celestia_height_offset, bytes_from_uint64 offset) ∷ []))

  unfoldable pub celestia_height_offset : ChainState → Res ℕ
  unfolding number_or_zero
  celestia_height_offset s = number_or_zero (P.get s.db key_celestia_height_offset)

  unfoldable pub finalized_height : ChainState → Res ℕ
  unfolding number_or_zero
  finalized_height s = number_or_zero (P.get s.db key_finalized_height)

  unfoldable pub get_block : ChainState → ℕ → Res (Option Block)
  get_block s height =
      let key : List ℕ = prefix_height_key height block_prefix in
      elim (P.get s.db key) [
        | found v ↦ (do
          b ← or_panic (block_from_bytes (record { items = v; spare = P.spare s.db key }))
          ok (some b))
        | not_found ↦ ok none
        | get_failed ↦ err db_error
      ]

  unfoldable pub get_block_by_hash : ChainState → Hash → Res (Option Block)
  get_block_by_hash s hash = elim (P.get s.db (prefix_key hash block_hash_prefix)) [
    | found v ↦ (do height ← or_panic (uint64_from_bytes_key v); get_block s height)
    | not_found ↦ ok none
    | get_failed ↦ err db_error
  ]

  unfoldable pub has_state_mmr_at_height : ChainState → ℕ → Res Bool
  has_state_mmr_at_height s height =
      if height == 0
      then ok false
      else elim (P.get s.db (prefix_height_key height state_mmr_prefix)) [
        | found v ↦ ok true
        | not_found ↦ ok false
        | get_failed ↦ err db_error
      ]

  restored : Outcome RestoreError Mmr → Res Mmr
  restored (ok m) = ok m
  restored (err e) = err (bad_snapshot e)
  restored panic = panic

  -- The latest range below the key of the next height; `height+1` is a uint64.
  latest_mmr : ChainState → ℕ → Res Mmr
  latest_mmr s height =
      elim (P.last_in s.db state_mmr_prefix
        (prefix_height_key ((height + 1) % 2 ^ 64) state_mmr_prefix)) [
          | none ↦ err no_mmr
          | some v ↦ restored (restore v)
        ]

  unfoldable pub get_state_mmr : ChainState → ℕ → Res Mmr
  unfolding restored latest_mmr
  get_state_mmr s height =
      if height == 0
      then ok new_mmr
      else elim (P.get s.db (prefix_height_key height state_mmr_prefix)) [
        | found v ↦ restored (restore v)
        | not_found ↦ latest_mmr s height
        | get_failed ↦ err db_error
      ]

  unfoldable pub get_chunk : ChainState → Hash → Res (Option (List ℕ))
  get_chunk s key = chunk_of (P.get s.db (prefix_key key chunk_prefix))

  unfoldable pub get_chunk_hash : ChainState → Hash → Res (Option Hash)
  get_chunk_hash s key = elim (P.get s.db (prefix_key key chunk_hash_prefix)) [
    | found v ↦ (do h ← or_panic (hash_of_slice v); ok (some h))
    | not_found ↦ ok none
    | get_failed ↦ err db_error
  ]

  module _ (M : Protobuf) where
    decoded : {A : Type 0} → Option A → Res (Option A)
    decoded none = err bad_manifest
    decoded (some m) = ok (some m)

    unfoldable pub get_directory_manifest :
        ChainState → BlobIdentifier → Res (Option DirectoryManifest)
    unfolding decoded
    get_directory_manifest s id =
        elim (P.get s.db (prefix_key (blob_bytes id) dir_manifest_prefix)) [
          | found v ↦ decoded (M.unmarshal_dir v)
          | not_found ↦ ok none
          | get_failed ↦ err db_error
        ]

    unfoldable pub get_file_manifest : ChainState → BlobIdentifier → Res (Option FileManifest)
    unfolding decoded
    get_file_manifest s id = elim (P.get s.db (prefix_key (blob_bytes id) file_manifest_prefix)) [
      | found v ↦ decoded (M.unmarshal_file v)
      | not_found ↦ ok none
      | get_failed ↦ err db_error
    ]

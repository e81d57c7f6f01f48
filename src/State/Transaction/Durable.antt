-- ===== src/State/Transaction/Durable.antt =====
-- `Commit` of pkg/state/transaction.go: what stands in the database after it.
use blobcast.Util.{bytes_from_uint64}
use blobcast.Prelude.{
  ℕ, ◌≡◌, refl, ap, ◌∙◌, Option, none, some, List, Option-cases, Bool-cases, inl, inr, ◌||◌,
}
use blobcast.Prelude.Maps.{nat_eq}
use blobcast.Prelude.Outcome.{ok}
use blobcast.Crypto.{Blake3, Hash, IsHash}
use blobcast.Crypto.Mmr.{Mmr, hash_eq}
use blobcast.Types.Blob.{BlobIdentifier}
use blobcast.Types.Block.{Block}
use blobcast.Types.Block.Cache.{HashCache}
use blobcast.State.Keys.{prefix_key, chunk_prefix}
use blobcast.State.Store.{Pebble, Got, Protobuf, FileManifest, DirectoryManifest}
use blobcast.State.Chain
use blobcast.State.Transaction.{
  Transaction, Pointer, new_transaction, put_chunk, find_in, or_else, put_file_manifest,
  put_directory_manifest, put_block, put_state_mmr, put_state_mmr_raw, set_finalized_height,
  tx_get_chunk, commit,
}
use blobcast.State.Transaction.Synced.{
  over, IsSynced, new_transaction-IsSynced, put_chunk-IsSynced, put_file_manifest-IsSynced,
  put_directory_manifest-IsSynced, put_state_mmr-IsSynced, put_state_mmr_raw-IsSynced,
  put_block-IsSynced, other-IsSynced, finalized_key, batch_of, chunks_of,
}

-- The writes of a transaction.
pub data Write : Transaction → Transaction → Type 0 where
  chunk :
      {tx tx' : Transaction} (key : Hash) (value : List ℕ) (hash : Hash)
      → IsHash key
      → put_chunk tx key value hash ≡ ok tx'
      → Write tx tx'
  file :
      {tx tx' : Transaction} (M : Protobuf) (at : Pointer) (id : BlobIdentifier) (m : FileManifest)
      → put_file_manifest M tx at id m ≡ ok tx'
      → Write tx tx'
  dir :
      {tx tx' : Transaction} (M : Protobuf) (id : BlobIdentifier) (m : DirectoryManifest)
      → put_directory_manifest M tx id m ≡ ok tx'
      → Write tx tx'
  block :
      {tx tx' : Transaction} (B : Blake3) (c : HashCache) (height : ℕ) (b : Block)
      → tx' ≡ (put_block B c tx height b).0
      → Write tx tx'
  state_mmr :
      {tx tx' : Transaction} (height : ℕ) (m : Mmr)
      → put_state_mmr tx height m ≡ ok tx'
      → Write tx tx'
  state_mmr_raw :
      {tx tx' : Transaction} (height : ℕ) (raw : List ℕ)
      → tx' ≡ put_state_mmr_raw tx height raw
      → Write tx tx'
  finalized :
      {tx tx' : Transaction} (height : ℕ) → tx' ≡ set_finalized_height tx height → Write tx tx'

pub data Writes (tx : Transaction) : Transaction → Type 0 where
  start : Writes tx tx
  then_write : {tx' tx'' : Transaction} → Writes tx tx' → Write tx' tx'' → Writes tx tx''

Write-IsSynced : {tx tx' : Transaction} → Write tx tx' → IsSynced tx → IsSynced tx'
unfolding set_finalized_height
Write-IsSynced {tx} {tx'} (chunk key value hash hk e) v =
    put_chunk-IsSynced tx tx' key value hash hk e v
Write-IsSynced {tx} {tx'} (file M at id m e) v = put_file_manifest-IsSynced M tx tx' at id m e v
Write-IsSynced {tx} {tx'} (dir M id m e) v = put_directory_manifest-IsSynced M tx tx' id m e v
Write-IsSynced {tx} {tx'} (block B c height b e) v = put_block-IsSynced B c tx tx' height b e v
Write-IsSynced {tx} {tx'} (state_mmr height m e) v = put_state_mmr-IsSynced tx tx' height m e v
Write-IsSynced {tx} {tx'} (state_mmr_raw height raw same) v =
    put_state_mmr_raw-IsSynced tx tx' height raw same v
Write-IsSynced {tx} {tx'} (finalized height same) v =
    other-IsSynced tx tx' _ (finalized_key (bytes_from_uint64 height)) (ap batch_of same)
      (ap chunks_of same) v

Writes-IsSynced : {tx tx' : Transaction} → Writes tx tx' → IsSynced tx → IsSynced tx'
Writes-IsSynced start v = v
Writes-IsSynced (then_write ws w) v = Write-IsSynced w (Writes-IsSynced ws v)

pub commit_parts :
    (P : Pebble) (s s' : Chain.ChainState P) (tx tx' : Transaction)
    → commit P s tx ≡ (ok tt, (tx', s'))
    → P.commit s.db tx.batch ≡ some s'.db
unfolding commit
commit_parts P s s' tx tx' e = elim (Bool-cases (tx.committed || tx.aborted)) [
  | inl over' ↦ absurd (cc (rw over' at e))
  | inr fresh ↦ elim (Option-cases (P.commit s.db tx.batch)) [
    | inl failed ↦ absurd (cc (rw (fresh, failed) at e))
    | inr (db, done) ↦
        done
        ∙ ap some (
            ap (λ (r : Chain.Res Unit × (Transaction × Chain.ChainState P)). r.1.1.db)
              (rw (fresh, done) at e))
  ]
]

-- A read of the state: what the maps say over what the database says.
read_over :
    (o : Option (List ℕ)) (old : Got) → Chain.chunk_of (over o old) ≡ or_else o (Chain.chunk_of old)
read_over none old = refl
read_over (some v) old = refl

-- After a commit that succeeds, of a transaction that any writes filled from its beginning, the
-- state holds under the key of each chunk what the transaction itself read there before.
pub get_chunk-commit :
    (P : Pebble) (s s' : Chain.ChainState P) (tx tx' : Transaction) (key : Hash)
    → Writes new_transaction tx
    → IsHash key
    → commit P s tx ≡ (ok tt, (tx', s'))
    → Chain.get_chunk P s' key ≡ tx_get_chunk P s tx key
unfolding Chain.get_chunk tx_get_chunk
get_chunk-commit P s s' tx tx' key ws hk e =
    let k : List ℕ = prefix_key key chunk_prefix in
    ap Chain.chunk_of (
      P.get-commit s.db s'.db tx.batch k (commit_parts P s s' tx tx' e)
      ∙ (Writes-IsSynced ws new_transaction-IsSynced).chunks key (P.get s.db k) hk)
    ∙ read_over (find_in key tx.pending_chunks) (P.get s.db k)

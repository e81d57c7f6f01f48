-- ===== src/State/Transaction.antt =====
-- pkg/state/transaction.go: a transaction gathers its writes in a batch. Chunks and manifests are
-- also kept in maps, which its own readers ask before the database.
pub mod Reads
pub mod Lifecycle
pub mod Synced
pub mod Durable
pub mod Passes
pub mod Since
use blobcast.Prelude.{
  ℕ, Option, none, some, List, [], ◌∷◌, ◌++◌, Bool, true, false, ◌||◌, if◌then◌else◌, ◌==◌,
}
use blobcast.Prelude.Maps.{Map, nat_eq, lookup, insert}
use blobcast.Prelude.Outcome.{Outcome, ok, err, panic, ◌>>=◌}
use blobcast.Util.{bytes_from_uint64, bytes_from_uint64_key}
use blobcast.Crypto.{Blake3, Hash}
use blobcast.Crypto.Mmr.{Mmr, hash_eq}
use blobcast.Crypto.Mmr.Snapshot.{snapshot}
use blobcast.Types.Blob.{BlobIdentifier, blob_bytes}
use blobcast.Types.Block.{Block, block_bytes}
use blobcast.Types.Block.Cache.{HashCache, block_hash}
use blobcast.State.Keys.{
  prefix_key, prefix_height_key, key_finalized_height, block_prefix, block_hash_prefix,
  state_mmr_prefix, chunk_prefix, chunk_hash_prefix, file_manifest_prefix, dir_manifest_prefix,
}
use blobcast.State.Store.{Pebble, Batch, Protobuf, FileManifest, DirectoryManifest}
use blobcast.State.Chain

-- The address of a `BlobIdentifier`: the map of pending file manifests has pointers for its keys.
abbrev pub Pointer : Type 0
Pointer = ℕ

-- `none` for a map is Go's nil map, which a finished transaction has.
pub record Transaction : Type 0 where
  pub batch : Batch
  pub pending_chunks : Option (Map Hash (List ℕ))
  pub pending_chunk_hashes : Option (Map Hash Hash)
  pub pending_file_manifests : Option (Map Pointer FileManifest)
  pub committed : Bool
  pub aborted : Bool

abbrev pub new_transaction : Transaction
new_transaction = record {
  batch = [];
  pending_chunks = some [];
  pending_chunk_hashes = some [];
  pending_file_manifests = some [];
  committed = false;
  aborted = false;
}

-- `batch.Set`
abbrev pub batch_set : Transaction → List ℕ → List ℕ → Transaction
batch_set tx key value = record tx { batch = tx.batch ++ ((key, value) ∷ []) }

unfoldable pub set_finalized_height : Transaction → ℕ → Transaction
set_finalized_height tx height = batch_set tx key_finalized_height (bytes_from_uint64 height)

unfoldable pub put_state_mmr_raw : Transaction → ℕ → List ℕ → Transaction
put_state_mmr_raw tx height raw =
    if height == 0 then tx else batch_set tx (prefix_height_key height state_mmr_prefix) raw

unfoldable pub put_state_mmr : Transaction → ℕ → Mmr → Chain.Res Transaction
put_state_mmr tx height m = if height == 0 then ok tx else (do
  bytes ← Chain.or_panic (snapshot m)
  ok (batch_set tx (prefix_height_key height state_mmr_prefix) bytes))

-- The block under its height, and its height under its hash.
unfoldable pub put_block : Blake3 → HashCache → Transaction → ℕ → Block → Transaction × HashCache
put_block B c tx height block =
    let tx' : Transaction =
      batch_set tx (prefix_height_key height block_prefix) (block_bytes block) in
    let (hash, c') = block_hash B c block in
    (batch_set tx' (prefix_key hash block_hash_prefix) (bytes_from_uint64_key height), c')

-- A write to a nil map panics.
unfoldable pub put_in :
    {K V : Type 0} ⦃e : blobcast.Prelude.Maps.Eq K⦄ → K → V → Option (Map K V) → Chain.Res (Map K V)
put_in k v none = panic
put_in k v (some m) = ok (insert k v m)

-- A read of a nil map finds nothing.
unfoldable pub find_in :
    {K V : Type 0} ⦃e : blobcast.Prelude.Maps.Eq K⦄ → K → Option (Map K V) → Option V
find_in k none = none
find_in k (some m) = lookup k m

-- A value found here, or else the result of the call there.
abbrev pub or_else : {V : Type 0} → Option V → Chain.Res (Option V) → Chain.Res (Option V)
or_else none there = there
or_else (some v) there = ok (some v)

unfoldable pub put_chunk : Transaction → Hash → List ℕ → Hash → Chain.Res Transaction
put_chunk tx key value hash = do
  chunks ← put_in key value tx.pending_chunks
  hashes ← put_in key hash tx.pending_chunk_hashes
  ok (record tx {
    batch =
        tx.batch
        ++ ((prefix_key key chunk_prefix, value) ∷ (prefix_key key chunk_hash_prefix, hash) ∷ []);
    pending_chunks = some chunks;
    pending_chunk_hashes = some hashes;
  })

unfoldable pub marshalled : Option (List ℕ) → Chain.Res (List ℕ)
marshalled none = err Chain.bad_manifest
marshalled (some d) = ok d

-- `id` is the identifier at the address `at`.
unfoldable pub put_file_manifest :
    Protobuf → Transaction → Pointer → BlobIdentifier → FileManifest → Chain.Res Transaction
put_file_manifest M tx at id manifest = do
  bytes ← marshalled (M.marshal_file manifest)
  manifests ← put_in at manifest tx.pending_file_manifests
  ok (record tx {
    batch = tx.batch ++ ((prefix_key (blob_bytes id) file_manifest_prefix, bytes) ∷ []);
    pending_file_manifests = some manifests;
  })

unfoldable pub put_directory_manifest :
    Protobuf → Transaction → BlobIdentifier → DirectoryManifest → Chain.Res Transaction
put_directory_manifest M tx id manifest = do
  bytes ← marshalled (M.marshal_dir manifest)
  ok (batch_set tx (prefix_key (blob_bytes id) dir_manifest_prefix) bytes)

-- The maps that a finished transaction drops.
abbrev pub drop_pending : Transaction → Transaction
drop_pending tx = record tx {
  pending_chunks = none;
  pending_chunk_hashes = none;
  pending_file_manifests = none;
}

module _ (P : Pebble) where
  unfoldable pub begin_transaction :
      Chain.ChainState P → Chain.Res (Transaction × Chain.ChainState P)
  begin_transaction s =
      if s.pending then err Chain.in_progress else ok (new_transaction, record s { pending = true })

  -- `GetChunk`, `GetChunkHash` and `GetFileManifest` of the transaction.
  unfoldable pub tx_get_chunk :
      Chain.ChainState P → Transaction → Hash → Chain.Res (Option (List ℕ))
  tx_get_chunk s tx key = or_else (find_in key tx.pending_chunks) (Chain.get_chunk P s key)

  unfoldable pub tx_get_chunk_hash :
      Chain.ChainState P → Transaction → Hash → Chain.Res (Option Hash)
  tx_get_chunk_hash s tx key =
      or_else (find_in key tx.pending_chunk_hashes) (Chain.get_chunk_hash P s key)

  unfoldable pub tx_get_file_manifest :
      Protobuf
      → Chain.ChainState P
      → Transaction
      → Pointer
      → BlobIdentifier
      → Chain.Res (Option FileManifest)
  tx_get_file_manifest M s tx at id =
      or_else (find_in at tx.pending_file_manifests) (Chain.get_file_manifest P M s id)

  unfoldable pub abort :
      Chain.ChainState P → Transaction → Chain.Res Unit × (Transaction × Chain.ChainState P)
  abort s tx =
      if tx.committed || tx.aborted
      then (err Chain.finished, (tx, s))
      else (ok tt, (record (drop_pending tx) { aborted = true }, record s { pending = false }))

  commit_result :
      Chain.ChainState P
      → Transaction
      → Option P.Db
      → Chain.Res Unit × (Transaction × Chain.ChainState P)
  commit_result s tx none = (err Chain.commit_error, (abort s tx).1)
  commit_result s tx (some db) =
      (ok tt, (record (drop_pending tx) { committed = true }, record { db = db; pending = false }))

  unfoldable pub commit :
      Chain.ChainState P → Transaction → Chain.Res Unit × (Transaction × Chain.ChainState P)
  unfolding commit_result abort
  commit s tx =
      if tx.committed || tx.aborted
      then (err Chain.finished, (tx, s))
      else commit_result s tx (P.commit s.db tx.batch)

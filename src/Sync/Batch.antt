-- ===== src/Sync/Batch.antt =====
-- `batchCommitter` and `commitBatch` of pkg/sync/grpc.go: the blocks that workers took apart are
-- gathered as they come, and committed in batches.
pub mod Sorting
pub mod AnyOrder
pub mod Finalized
use blobcast.Prelude.{
  ℕ, suc, Option, none, some, List, [], ◌∷◌, ◌++◌, Bool, true, false, map, length, ltb, leb,
  if◌then◌else◌, ◌&&◌,
}
use blobcast.Prelude.Maps.{Map, nat_eq, lookup, insert}
use blobcast.Prelude.Outcome.{Outcome, ok, err, panic}
use blobcast.Crypto.{Blake3, Hash, zero_hash}
use blobcast.Crypto.Mmr.{hash_eq}
use blobcast.Types.Blob.{BlobIdentifier}
use blobcast.Types.Block.{BlockHeader, Block}
use blobcast.Types.Block.Cache.{update_hash_cache}
use blobcast.State.Store.{Pebble, Protobuf, FileManifest, DirectoryManifest}
use blobcast.State.Transaction.{
  put_chunk, put_file_manifest, put_directory_manifest, put_state_mmr_raw,
}
use blobcast.Sync.Monad.{SyncError, Sync, ◌>>=◌, ◌>>◌, pure, or_crash, write_tx, new_pointer}
use blobcast.Sync.Blocks.{BlobStore, Node, store_block, hash_block, finalize_block, in_transaction}
use blobcast.Sync.Stream.{ProcessedBlock, CountError}

-- `slices.Sort`, by insertion.
unfoldable pub insert_sorted : ℕ → List ℕ → List ℕ
insert_sorted x [] = x ∷ []
insert_sorted x (y ∷ ys) = if leb x y then x ∷ y ∷ ys else y ∷ insert_sorted x ys

unfoldable pub sort : List ℕ → List ℕ
sort [] = []
sort (x ∷ xs) = insert_sorted x (sort xs)

unfoldable pub last {ℓ} : {A : Type ℓ} → List A → Option A
last [] = none
last (x ∷ []) = some x
last (x ∷ y ∷ xs) = last (y ∷ xs)

prepend : {A : Type 0} → Option A → Option (List A) → Option (List A)
prepend none rest = none
prepend (some a) none = none
prepend (some a) (some rest) = some (a ∷ rest)

-- `processedBlocks[height]` for each height; a nil value is used, and panics.
unfoldable pub pick : List ℕ → Map ℕ ProcessedBlock → Option (List ProcessedBlock)
unfolding prepend
pick [] m = some []
pick (h ∷ hs) m = prepend (lookup h m) (pick hs m)

hash_or_zero : Option Hash → Hash
hash_or_zero none = zero_hash
hash_or_zero (some h) = h

unfoldable pub put_chunks : Map Hash (List ℕ) → Map Hash Hash → Sync Unit
unfolding hash_or_zero
put_chunks [] hashes = pure tt
put_chunks ((key, bytes) ∷ m) hashes = do
  write_tx (λ tx. put_chunk tx key bytes (hash_or_zero (lookup key hashes)))
  put_chunks m hashes

module _ (M : Protobuf) where
  unfoldable pub put_files : List (BlobIdentifier × FileManifest) → Sync Unit
  put_files [] = pure tt
  put_files ((id, m) ∷ files) = do
    at ← new_pointer
    write_tx (λ tx. put_file_manifest M tx at id m)
    put_files files

  unfoldable pub put_dirs : List (BlobIdentifier × DirectoryManifest) → Sync Unit
  put_dirs [] = pure tt
  put_dirs ((id, m) ∷ dirs) = do write_tx (λ tx. put_directory_manifest M tx id m); put_dirs dirs

-- `UpdateHashCache`.
unfoldable pub cache_hash : BlockHeader → Hash → Sync Unit
cache_hash header hash w = (ok tt, record w { cache = update_hash_cache w.cache header hash })

has_range : ProcessedBlock → Bool
has_range d = ltb 0 (length d.mmr_snapshot) && ltb 0 d.height

unfoldable pub put_range : ProcessedBlock → Sync Unit
unfolding has_range
put_range d =
    if has_range d
    then write_tx (λ tx. ok (put_state_mmr_raw tx d.height d.mmr_snapshot))
    else pure tt

module _ (B : Blake3) (P : Pebble) (M : Protobuf) (D : BlobStore) (chain : List ℕ) where
  -- The body of the loop of `commitBatch`; the last log line hashes the block.
  unfoldable pub store_processed : ProcessedBlock → Sync Unit
  store_processed d = do
    put_chunks d.chunks d.chunk_hashes
    put_files M d.file_manifests
    put_dirs M d.dir_manifests
    cache_hash d.block.header d.block_hash
    store_block B P M D chain d.height d.block
    put_range d
    hash ← hash_block B P M D chain d.block
    pure tt

  unfoldable pub store_all : List ProcessedBlock → Sync Unit
  store_all [] = pure tt
  store_all (d ∷ ds) = do store_processed d; store_all ds

  -- What `commitBatch` does in its transaction, for the sorted heights.
  unfoldable pub batch_work : List ℕ → Option (List ProcessedBlock) → Sync Block
  batch_work heights picked = do
    ds ← or_crash picked
    store_all ds
    top ← or_crash (last heights)
    finalize_block B P M D chain top
    d ← or_crash (last ds)
    pure d.block

  -- The headers that are published after a commit.
  published : Option (List ProcessedBlock) → Outcome SyncError Block → List BlockHeader
  published (some ds) (ok b) = map (λ (d : ProcessedBlock). d.block.header) ds
  published picked result = []

  -- The result is the last block, in place of nil.
  unfoldable pub commit_sorted :
      Node B P M D chain
      → List ℕ
      → Option (List ProcessedBlock)
      → (Outcome SyncError Block × Node B P M D chain) × List BlockHeader
  unfolding published
  commit_sorted n heights picked =
      let (result, n') = in_transaction B P M D chain n (λ s. batch_work heights picked) in
      ((result, n'), published picked result)

  unfoldable pub commit_batch :
      Node B P M D chain
      → Map ℕ ProcessedBlock
      → List ℕ
      → (Outcome SyncError Block × Node B P M D chain) × List BlockHeader
  commit_batch n processed heights =
      let sorted : List ℕ = sort heights in commit_sorted n sorted (pick sorted processed)

  pub data BatchError : Type 0 where
    worker_failed : CountError → BatchError
    batch_failed : SyncError → BatchError

  -- How the committer ends: its result, the node, and the headers published.
  pub record Committed : Type 0 where
    pub result : Outcome BatchError Unit
    pub node : Node B P M D chain
    pub headers : List BlockHeader

  failed : Outcome SyncError Block → Outcome BatchError Unit
  failed (ok b) = ok tt
  failed (err e) = err (batch_failed e)
  failed panic = panic

  -- The batch that is left when the results end.
  unfoldable pub commit_rest :
      Node B P M D chain → Map ℕ ProcessedBlock → List ℕ → List BlockHeader → Committed
  unfolding failed
  commit_rest n [] heights headers = record { result = ok tt; node = n; headers = headers }
  commit_rest n (e ∷ processed) heights headers =
      let ((result, n'), new) = commit_batch n (e ∷ processed) heights in
      record { result = failed result; node = n'; headers = headers ++ new }

  -- `results` is what the workers send, in the order in which it arrives.
  unfoldable pub batch_committer :
      ℕ
      → List (Outcome CountError ProcessedBlock)
      → Map ℕ ProcessedBlock
      → List ℕ
      → Node B P M D chain
      → List BlockHeader
      → Committed
  batch_committer size [] processed heights n headers = commit_rest n processed heights headers
  batch_committer size (err e ∷ results) processed heights n headers = record {
    result = err (worker_failed e);
    node = n;
    headers = headers;
  }
  batch_committer size (panic ∷ results) processed heights n headers = record {
    result = panic;
    node = n;
    headers = headers;
  }
  batch_committer size (ok d ∷ results) processed heights n headers =
      let m : Map ℕ ProcessedBlock = insert d.height d processed in
      let hs : List ℕ = heights ++ d.height ∷ [] in
      elim (leb size (length m)) [
        | false ↦ batch_committer size results m hs n headers
        | true ↦
            let ((result, n'), new) = commit_batch n m hs in
            elim result [
              | ok b ↦ batch_committer size results [] [] n' (headers ++ new)
              | err e ↦ record {
                result = err (batch_failed e);
                node = n';
                headers = headers ++ new;
              }
              | panic ↦ record { result = panic; node = n'; headers = headers ++ new }
            ]
      ]

-- ===== src/Node/Height.antt =====
-- From a height of pkg/sync/chain.go to `GetFileData` of pkg/api/node/file.go: a file whose manifest
-- was accepted in the height.
use blobcast.Prelude.{ℕ, ◌≤◌, ◌≡◌, Option, some, List, true}
use blobcast.Prelude.Outcome.{ok}
use blobcast.Crypto.{Blake3, Hash, hash_of_slice}
use blobcast.Types.Blob.{BlobIdentifier}
use blobcast.Types.Block.{Block}
use blobcast.State.Store.{Pebble, Protobuf, FileManifest}
use blobcast.State.Chain
use blobcast.State.Transaction.{Transaction, new_transaction, commit}
use blobcast.State.Transaction.Durable.{Writes}
use blobcast.State.Transaction.Since.{Since}
use blobcast.Sync.Monad.{Work}
use blobcast.Sync.Blobs.{RawBlob, sync_file_manifest}
use blobcast.Sync.Blocks.{BlobStore, apply_block, finalize_block}
use blobcast.Sync.Files.{Gathers}
use blobcast.Sync.Ending.{Since-trans, apply_block-Since, finalize_block-Since}
use blobcast.Node.{get_file_data}
use blobcast.Node.Served.{accepted_file_is_served}

-- What a node does for a height after it accepted a file manifest: the blobs that are left write no
-- chunk that is there with other bytes and no other manifest for the same blob; then the block is
-- applied, the height is finalized, and the transaction is committed. If all that succeeds,
-- `GetFileData` for the manifest's blob answers with exactly the bytes that the acceptance gathered
-- (where that many can be allocated).
pub height_serves_file :
    (B : Blake3) (P : Pebble) (M : Protobuf) (D : BlobStore) (chain : List ℕ)
    (s s' : Chain.ChainState P) (most celestia_height height : ℕ) (blob : RawBlob)
    (commitment : Hash) (m : FileManifest) (b b' : Block) (prev : Option Block)
    (w accepted produced applied done : Work) (tx' : Transaction)
    → Writes new_transaction w.tx
    → sync_file_manifest B P M s celestia_height blob m w ≡ (ok true, accepted)
    → hash_of_slice blob.commitment ≡ some commitment
    → Since P s M
        (record { height = celestia_height; commitment = commitment })
        m
        accepted.tx
        produced.tx
    → apply_block B P M D chain s b prev produced ≡ (ok b', applied)
    → finalize_block B P M D chain height applied ≡ (ok tt, done)
    → commit P s done.tx ≡ (ok tt, (tx', s'))
    → m.file_size ≤ most
    → (d : List ℕ) × Gathers B P M s w.tx m.chunks d
      × (get_file_data P s' M B most (record { height = celestia_height; commitment = commitment })
          ≡ ok d)
height_serves_file B P M D chain s s' most celestia_height height blob commitment m b b' prev w
      accepted produced applied done tx' ws is_accepted is_c rest is_applied is_done committed
      small =
    let id : BlobIdentifier = record { height = celestia_height; commitment = commitment } in
    accepted_file_is_served P M s s' B most celestia_height blob m w accepted commitment done.tx tx'
      ws is_accepted is_c
      (Since-trans B P M D chain s id m
        (Since-trans B P M D chain s id m rest
          (apply_block-Since B P M D chain s id m b prev b' produced applied is_applied))
        (finalize_block-Since B P M D chain s id m height applied done is_done))
      committed small

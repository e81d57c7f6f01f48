-- ===== src/Sync/Blocks.antt =====
-- Producing, applying and finalizing blocks, and one height of `SyncChain`, in pkg/sync/chain.go.
use blobcast.Prelude.{
  ℕ, ◌+◌, ◌-◌, ◌%◌, ◌^◌, Option, none, some, List, [], Bool, not, ◌||◌, if◌then◌else◌, ◌==◌, ltb,
}
use blobcast.Prelude.Outcome.{Outcome, ok, err, panic}
use blobcast.Util.{Time}
use blobcast.Crypto.{Blake3, Hash, is_zero}
use blobcast.Crypto.Mmr.{Mmr, add_leaf, root}
use blobcast.Types.Block.{Block, BlockHeader, new_block}
use blobcast.Types.Block.Cache.{HashCache, block_hash}
use blobcast.State.Store.{Pebble, Protobuf}
use blobcast.State.Chain
use blobcast.State.Transaction.{
  Transaction, Pointer, put_block, put_state_mmr, set_finalized_height, begin_transaction, abort,
  commit,
}
use blobcast.Sync.Monad.{
  SyncError, da_error, state_error, no_previous, height_mismatch, Work, Sync, ◌>>=◌, ◌>>◌, pure,
  fail, lift, write_tx,
}
use blobcast.Sync.Blobs.{RawBlob, Found, sync_blobs}

-- `celestia.BlobStore`, by the calls that deriving the chain makes; `none` is an error.
pub record BlobStore : Type 0 where
  pub get_blobs : ℕ → Option (List RawBlob)
  pub get_time : ℕ → Option Time

abbrev pub from_da : {A : Type 0} → Option A → Sync A
from_da none = fail da_error
from_da (some a) = pure a

module _ (B : Blake3) (P : Pebble) (M : Protobuf) (D : BlobStore) (chain : List ℕ) where
  -- `block.Hash()`, which fills the cache.
  unfoldable pub hash_block : Block → Sync Hash
  hash_block b w = let (h, c) = block_hash B w.cache b in (ok h, record w { cache = c })

  unfoldable pub store_block : ℕ → Block → Sync Unit
  store_block height b w =
      let (tx, c) = put_block B w.cache w.tx height b in (ok tt, record w { tx = tx; cache = c })

  unfoldable pub stamped : Block → ℕ → ℕ → Time → Block
  stamped b height celestia_height time = record b {
    header = record b.header {
      chain_id = chain;
      height = height;
      celestia_block_height = celestia_height;
      timestamp = time;
    };
  }

  unfoldable pub create_genesis_block : ℕ → Sync Block
  create_genesis_block celestia_height = do
    time ← from_da (D.get_time celestia_height)
    let b : Block = stamped (new_block B [] [] []) 0 celestia_height time
    h ← hash_block b
    store_block 0 b
    pure b

  unfoldable pub sync_celestia_height : Chain.ChainState P → ℕ → Sync Found
  sync_celestia_height s celestia_height = do
    blobs ← from_da (D.get_blobs celestia_height)
    sync_blobs B P M s celestia_height blobs

  unfoldable pub produce_block_from_celestia_height : Chain.ChainState P → ℕ → Sync Block
  produce_block_from_celestia_height s celestia_height = do
    f ← sync_celestia_height s celestia_height
    pure (new_block B f.dirs f.files f.chunks)

  unfoldable pub produce_block : Chain.ChainState P → ℕ → ℕ → Sync Block
  produce_block s height celestia_height = do
    b ← produce_block_from_celestia_height s celestia_height
    time ← from_da (D.get_time celestia_height)
    pure (stamped b height celestia_height time)

  -- The block before `b`: the one that the caller has, or else the one in the database.
  unfoldable pub previous_block : Chain.ChainState P → Block → Option Block → Sync Block
  previous_block s b (some prev) = pure prev
  previous_block s b none = do
    found ← lift (Chain.get_block P s (b.header.height - 1))
    elim found [ none ↦ fail no_previous | some prev ↦ pure prev ]

  -- A root is added to the range unless it is zero.
  unfoldable pub add_root : Mmr → Hash → Mmr
  add_root m r = if is_zero r then m else (add_leaf B m r).0

  unfoldable pub add_roots : Mmr → BlockHeader → Mmr
  unfolding add_root
  add_roots m bh = add_root (add_root (add_root m bh.dirs_root) bh.files_root) bh.chunks_root

  unfoldable pub has_roots : BlockHeader → Bool
  has_roots bh =
      not (is_zero bh.dirs_root) || not (is_zero bh.files_root) || not (is_zero bh.chunks_root)

  -- The part of `ApplyBlock` for heights above 0: the block with its parent's hash and the root of
  -- the state.
  unfoldable pub link_block : Chain.ChainState P → Block → Option Block → Sync Block
  link_block s b prev = do
    p ← previous_block s b prev
    if not (p.header.height == b.header.height - 1) then fail height_mismatch else pure tt
    parent ← hash_block p
    old ← lift (Chain.get_state_mmr P s (b.header.height - 1))
    let m : Mmr = add_roots old b.header
    if has_roots b.header then write_tx (λ tx. put_state_mmr tx b.header.height m) else pure tt
    pure (record b { header = record b.header { parent_hash = parent; state_root = root B m } })

  -- The log lines hash the block, which caches its hash, before it is stored.
  unfoldable pub apply_block : Chain.ChainState P → Block → Option Block → Sync Block
  apply_block s b prev = do
    b' ← if ltb 0 b.header.height then link_block s b prev else pure b
    h ← hash_block b'
    store_block b'.header.height b'
    pure b'

  unfoldable pub finalize_block : ℕ → Sync Unit
  finalize_block height = write_tx (λ tx. ok (set_finalized_height tx height))

  -- What outlives a transaction.
  pub record Node : Type 0 where
    pub state : Chain.ChainState P
    pub cache : HashCache
    pub next : Pointer

  -- A transaction around `work`: an error aborts it, and a value is committed.
  unfoldable pub finish_commit :
      Block
      → Chain.Res Unit × (Transaction × Chain.ChainState P)
      → Outcome SyncError Block × Chain.ChainState P
  finish_commit b (ok done, (tx, s)) = (ok b, s)
  finish_commit b (err e, (tx, s)) = (err (state_error e), s)
  finish_commit b (panic, (tx, s)) = (panic, s)

  unfoldable pub finish :
      Chain.ChainState P → Outcome SyncError Block × Work → Outcome SyncError Block × Node
  unfolding finish_commit
  finish s (ok b, w) =
      let (r, s') = finish_commit b (commit P s w.tx) in
      (r, record { state = s'; cache = w.cache; next = w.next })
  finish s (err e, w) =
      let (r, (tx, s')) = abort P s w.tx in
      (err e, record { state = s'; cache = w.cache; next = w.next })
  finish s (panic, w) = (panic, record { state = s; cache = w.cache; next = w.next })

  unfoldable pub in_transaction_from :
      Node
      → Chain.Res (Transaction × Chain.ChainState P)
      → (Chain.ChainState P → Sync Block)
      → Outcome SyncError Block × Node
  unfolding finish
  in_transaction_from n (ok (tx, s)) work =
      finish s (work s (record { tx = tx; cache = n.cache; next = n.next }))
  in_transaction_from n (err e) work = (err (state_error e), n)
  in_transaction_from n panic work = (panic, n)

  unfoldable pub in_transaction :
      Node → (Chain.ChainState P → Sync Block) → Outcome SyncError Block × Node
  unfolding in_transaction_from
  in_transaction n work = in_transaction_from n (begin_transaction P n.state) work

  -- One round of the loops of `SyncChain`.
  unfoldable pub sync_height : Node → ℕ → ℕ → Option Block → Outcome SyncError Block × Node
  sync_height n height offset prev = in_transaction n (λ s. (do
    b ← produce_block s height ((height + offset) % 2 ^ 64)
    b' ← apply_block s b prev
    finalize_block height
    pure b'))

  unfoldable pub sync_genesis : Node → ℕ → Outcome SyncError Block × Node
  sync_genesis n offset = in_transaction n (λ s. create_genesis_block offset)

-- ===== src/Sync/Stream.antt =====
-- Blocks streamed from one node to another: `StreamBlocks` of pkg/grpc/sync/server.go, and
-- `processStreamedBlock` of pkg/sync/grpc.go.
pub mod Chunks
pub mod Processed
use blobcast.Prelude.{
  ℕ, zero, suc, ◌+◌, ◌-◌, Option, none, some, List, [], ◌∷◌, ◌++◌, Bool, true, false, length, ltb,
  ◌==◌, if◌then◌else◌,
}
use blobcast.Prelude.Maps.{Map, nat_eq, insert}
use blobcast.Prelude.Outcome.{Outcome, ok, err, panic, ◌>>=◌}
use blobcast.Crypto.{Blake3, Hash, hash_of_slice}
use blobcast.Crypto.Mmr.{hash_eq}
use blobcast.Crypto.Mmr.Snapshot.{snapshot}
use blobcast.Types.Blob.{BlobIdentifier}
use blobcast.Types.Block.{Block}
use blobcast.Types.Block.Cache.{HashCache, block_hash}
use blobcast.Types.Block.Proto.{Timestamps, PbBlock, block_proto, block_from_proto}
use blobcast.State.Store.{Pebble, Protobuf, FileManifest, DirectoryManifest}
use blobcast.State.Chain
use blobcast.Node.{Answer, NodeError, existing, state_error}

-- The messages of syncapis.v1.
pub record ChunkWithHash : Type 0 where
  pub chunk_data : List ℕ
  pub chunk_hash : List ℕ

pub record StreamBlocksResponse (T : Timestamps) : Type 0 where
  pub block : Option (PbBlock T)
  pub chunks : List ChunkWithHash
  pub files : List FileManifest
  pub dirs : List DirectoryManifest
  pub mmr_snapshot : List ℕ

-- What the server reads for one height.
pub record Streamed : Type 0 where
  pub block : Block
  pub chunks : List ChunkWithHash
  pub files : List FileManifest
  pub dirs : List DirectoryManifest
  pub mmr_snapshot : List ℕ

-- The first error ends the loop over a list.
unfoldable pub each : {A B : Type 0} → (A → Answer B) → List A → Answer (List B)
each f [] = ok []
each f (a ∷ rest) = do b ← f a; bs ← each f rest; ok (b ∷ bs)

module _ (P : Pebble) (s : Chain.ChainState P) where
  -- A call of the state that answers without an option.
  from_state : {A : Type 0} → Chain.Res A → Answer A
  from_state (ok a) = ok a
  from_state (err e) = err (state_error e)
  from_state panic = panic

  snapshot_if : Bool → ℕ → Answer (List ℕ)
  unfolding from_state
  snapshot_if false height = ok []
  snapshot_if true height = do
    m ← from_state (Chain.get_state_mmr P s height)
    Chain.or_panic (snapshot m)

  -- The range of a height, if one is stored at exactly this height.
  unfoldable pub snapshot_at : ℕ → Answer (List ℕ)
  unfolding from_state snapshot_if
  snapshot_at height =
      if height == 0
      then ok []
      else (do has ← from_state (Chain.has_state_mmr_at_height P s height); snapshot_if has height)

  unfoldable pub chunk_with_hash : BlobIdentifier → Answer ChunkWithHash
  chunk_with_hash id = do
    bytes ← existing (Chain.get_chunk P s id.commitment)
    hash ← existing (Chain.get_chunk_hash P s id.commitment)
    ok (record { chunk_data = bytes; chunk_hash = hash })

  module _ (M : Protobuf) where
    unfoldable pub streamed : ℕ → Answer Streamed
    streamed height = do
      b ← existing (Chain.get_block P s height)
      range ← snapshot_at height
      chunks ← each chunk_with_hash b.body.chunks
      files ← each (λ id. existing (Chain.get_file_manifest P M s id)) b.body.files
      dirs ← each (λ id. existing (Chain.get_directory_manifest P M s id)) b.body.dirs
      ok (record { block = b; chunks = chunks; files = files; dirs = dirs; mmr_snapshot = range })

module _ (T : Timestamps) where
  -- The message for a height; the block's hash comes from the cache of the process.
  unfoldable pub response : Blake3 → HashCache → Streamed → StreamBlocksResponse T × HashCache
  response B c x =
      let (pb, c') = block_proto T B c x.block in
      (
        record {
          block = some pb;
          chunks = x.chunks;
          files = x.files;
          dirs = x.dirs;
          mmr_snapshot = x.mmr_snapshot;
        },
        c',
      )

  pub data ServeError : Type 0 where
    start_after_end send_failed stream_closed : ServeError
    not_read : NodeError → ServeError

  -- The responses sent and how the call ends. `sends` says whether the message of a height is sent,
  -- and `closed` whether the stream's context is done after it.
  abbrev pub Sent : Type 0
  Sent = List (StreamBlocksResponse T) × Outcome ServeError Unit

  after_first : StreamBlocksResponse T → Sent → Sent
  after_first r (rs, end) = (r ∷ rs, end)

  module _ (B : Blake3) (P : Pebble) (M : Protobuf) (s : Chain.ChainState P)
      (sends closed : ℕ → Bool) where
    -- `left` heights are left from `height` on.
    unfoldable pub stream_from : ℕ → ℕ → HashCache → Sent
    unfolding after_first
    stream_from zero height c = ([], ok tt)
    stream_from (suc left) height c = elim (streamed P s M height) [
      | err e ↦ ([], err (not_read e))
      | panic ↦ ([], panic)
      | ok x ↦
          let (r, c') = response B c x in
          if sends height
          then if closed height
            then (r ∷ [], err stream_closed)
            else after_first r (stream_from left (height + 1) c')
          else ([], err send_failed)
    ]

    ended : ℕ → ℕ → HashCache → Sent
    ended start end c =
        if ltb end start then ([], err start_after_end) else stream_from (end + 1 - start) start c

    -- An end of 0 stands for the finalized height.
    unfoldable pub stream_blocks : ℕ → ℕ → HashCache → Sent
    unfolding ended
    stream_blocks start end c =
        if end == 0
        then elim (Chain.finalized_height P s) [
          | ok finalized ↦ ended start finalized c
          | err e ↦ ([], err (not_read (state_error e)))
          | panic ↦ ([], panic)
        ]
        else ended start end c

-- `processedBlockData`: a map keyed by identifiers that were just made is the list of its entries.
pub record ProcessedBlock : Type 0 where
  pub height : ℕ
  pub block : Block
  pub chunks : Map Hash (List ℕ)
  pub chunk_hashes : Map Hash Hash
  pub file_manifests : List (BlobIdentifier × FileManifest)
  pub dir_manifests : List (BlobIdentifier × DirectoryManifest)
  pub mmr_snapshot : List ℕ
  pub block_hash : Hash

pub data CountError : Type 0 where
  wrong_chunks wrong_files wrong_dirs : CountError

-- The loop over the chunks; the lengths of the lists are equal there.
unfoldable pub chunk_maps :
    List BlobIdentifier
    → List ChunkWithHash
    → Map Hash (List ℕ)
    → Map Hash Hash
    → Outcome CountError (Map Hash (List ℕ) × Map Hash Hash)
chunk_maps [] cs m hashes = ok (m, hashes)
chunk_maps (id ∷ ids) [] m hashes = ok (m, hashes)
chunk_maps (id ∷ ids) (c ∷ cs) m hashes = do
  hash ← Chain.or_panic (hash_of_slice c.chunk_hash)
  chunk_maps ids cs (insert id.commitment c.chunk_data m) (insert id.commitment hash hashes)

unfoldable pub entries : {A : Type 0} → List BlobIdentifier → List A → List (BlobIdentifier × A)
entries [] values = []
entries (id ∷ ids) [] = []
entries (id ∷ ids) (a ∷ values) = (id, a) ∷ entries ids values

-- One of the three tests of the counts.
unfoldable pub same_count : {A C : Type 0} → CountError → List A → List C → Outcome CountError Unit
same_count e xs cs = if length xs == length cs then ok tt else err e

unfoldable pub processed_block :
    (T : Timestamps) → StreamBlocksResponse T → Outcome CountError ProcessedBlock
processed_block T r = do
  pb ← Chain.or_panic r.block
  block ← Chain.or_panic (block_from_proto T pb)
  u ← same_count wrong_chunks r.chunks block.body.chunks
  v ← same_count wrong_files r.files block.body.files
  w ← same_count wrong_dirs r.dirs block.body.dirs
  hash ← Chain.or_panic (hash_of_slice pb.hash)
  (chunks, hashes) ← chunk_maps block.body.chunks r.chunks [] []
  ok (record {
    height = block.header.height;
    block = block;
    chunks = chunks;
    chunk_hashes = hashes;
    file_manifests = entries block.body.files r.files;
    dir_manifests = entries block.body.dirs r.dirs;
    mmr_snapshot = r.mmr_snapshot;
    block_hash = hash;
  })

-- The last log line hashes the block, which may put its hash in the cache of the process.
unfoldable pub with_logged_hash :
    Blake3
    → HashCache
    → Outcome CountError ProcessedBlock
    → Outcome CountError ProcessedBlock × HashCache
with_logged_hash B c (ok d) = (ok d, (block_hash B c d.block).1)
with_logged_hash B c (err e) = (err e, c)
with_logged_hash B c panic = (panic, c)

unfoldable pub process_streamed_block :
    (T : Timestamps)
    → Blake3
    → HashCache
    → StreamBlocksResponse T
    → Outcome CountError ProcessedBlock × HashCache
process_streamed_block T B c r = with_logged_hash B c (processed_block T r)

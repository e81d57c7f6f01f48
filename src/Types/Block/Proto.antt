-- ===== src/Types/Block/Proto.antt =====
-- `Proto`, `BlockFromProto` and their parts in pkg/types/block.go: blocks as messages of rollup.v1.
use blobcast.Prelude.{ℕ, ◌^◌, ◌<◌, ◌≡◌, refl, Option, some, List, [], ◌∷◌, map, All}
use blobcast.Prelude.Maybe.{◌>>=◌}
use blobcast.Util.{Time}
use blobcast.Crypto.{Blake3, hash_of_slice, hash_of_slice-whole}
use blobcast.Types.Blob.{
  BlobIdentifier, IsBlobIdentifier, PbBlobIdentifier, blob_identifier_proto,
  blob_identifier_from_proto,
}
use blobcast.Types.Block.{BlockHeader, BlockBody, Block}
use blobcast.Types.Block.Cache.{HashCache, header_hash}
use blobcast.Types.Block.Header.{IsHeader}
use blobcast.Types.Block.Body.{IsBody}

-- google.golang.org/protobuf/types/known/timestamppb: `New` and `AsTime`, which takes a message that
-- is not set for the start of 1970.
pub record Timestamps : Type 1 where
  pub Message : Type 0
  pub new : Time → Message
  pub as_time : Option Message → Time
  pub as_time-new :
      (t : Time) → t.seconds < 2 ^ 64 → t.nanos < 1000000000 → as_time (some (new t)) ≡ t

-- The loops over identifiers; one that panics makes the loop panic.
unfoldable pub blobs_from_proto : List PbBlobIdentifier → Option (List BlobIdentifier)
blobs_from_proto [] = some []
blobs_from_proto (p ∷ ps) = do
  b ← blob_identifier_from_proto p
  bs ← blobs_from_proto ps
  some (b ∷ bs)

-- The elements of a list in a message that was received are set.
pub record PbBlockBody : Type 0 where
  pub dirs : List PbBlobIdentifier
  pub files : List PbBlobIdentifier
  pub chunks : List PbBlobIdentifier

unfoldable pub body_proto : BlockBody → PbBlockBody
body_proto bb = record {
  dirs = map blob_identifier_proto bb.dirs;
  files = map blob_identifier_proto bb.files;
  chunks = map blob_identifier_proto bb.chunks;
}

unfoldable pub block_body_from_proto : PbBlockBody → Option BlockBody
block_body_from_proto p = do
  dirs ← blobs_from_proto p.dirs
  files ← blobs_from_proto p.files
  chunks ← blobs_from_proto p.chunks
  some (record { dirs = dirs; files = files; chunks = chunks })

module _ (T : Timestamps) where
  pub record PbBlockHeader : Type 0 where
    pub version : ℕ
    pub chain_id : List ℕ
    pub height : ℕ
    pub celestia_block_height : ℕ
    pub timestamp : Option T.Message
    pub parent_hash : List ℕ
    pub dirs_root : List ℕ
    pub files_root : List ℕ
    pub chunks_root : List ℕ
    pub state_root : List ℕ

  pub record PbBlock : Type 0 where
    pub header : Option PbBlockHeader
    pub body : Option PbBlockBody
    pub hash : List ℕ

  unfoldable pub header_proto : BlockHeader → PbBlockHeader
  header_proto bh = record {
    version = bh.version;
    chain_id = bh.chain_id;
    height = bh.height;
    celestia_block_height = bh.celestia_block_height;
    timestamp = some (T.new bh.timestamp);
    parent_hash = bh.parent_hash;
    dirs_root = bh.dirs_root;
    files_root = bh.files_root;
    chunks_root = bh.chunks_root;
    state_root = bh.state_root;
  }

  -- The hash is taken from the cache, or put there.
  unfoldable pub block_proto : Blake3 → HashCache → Block → PbBlock × HashCache
  block_proto B c b =
      let (hash, c') = header_hash B c b.header in
      (
        record {
          header = some (header_proto b.header);
          body = some (body_proto b.body);
          hash = hash;
        },
        c',
      )

  -- A hash of fewer than 32 bytes panics.
  unfoldable pub block_header_from_proto : PbBlockHeader → Option BlockHeader
  block_header_from_proto p = do
    parent_hash ← hash_of_slice p.parent_hash
    dirs_root ← hash_of_slice p.dirs_root
    files_root ← hash_of_slice p.files_root
    chunks_root ← hash_of_slice p.chunks_root
    state_root ← hash_of_slice p.state_root
    some (record {
      version = p.version;
      chain_id = p.chain_id;
      height = p.height;
      celestia_block_height = p.celestia_block_height;
      timestamp = T.as_time p.timestamp;
      parent_hash = parent_hash;
      dirs_root = dirs_root;
      files_root = files_root;
      chunks_root = chunks_root;
      state_root = state_root;
    })

  -- A message without a header or a body panics.
  unfoldable pub block_from_proto : PbBlock → Option Block
  block_from_proto p = do
    h ← p.header
    header ← block_header_from_proto h
    b ← p.body
    body ← block_body_from_proto b
    some (record { header = header; body = body })

blob_identifier_from_proto-proto :
    (b : BlobIdentifier)
    → IsBlobIdentifier b
    → blob_identifier_from_proto (blob_identifier_proto b) ≡ some b
unfolding blob_identifier_from_proto blob_identifier_proto
blob_identifier_from_proto-proto b v =
    rw (blob_identifier_from_proto, hash_of_slice-whole b.commitment v.commitment_fits)

blobs_from_proto-map :
    (bs : List BlobIdentifier)
    → All IsBlobIdentifier bs
    → blobs_from_proto (map blob_identifier_proto bs) ≡ some bs
unfolding blobs_from_proto
blobs_from_proto-map [] h = refl
blobs_from_proto-map (b ∷ bs) (v, h) =
    rw (blob_identifier_from_proto-proto b v, blobs_from_proto-map bs h)

body_round_trip : (bb : BlockBody) → IsBody bb → block_body_from_proto (body_proto bb) ≡ some bb
unfolding block_body_from_proto body_proto
body_round_trip bb v = rw (
  blobs_from_proto-map bb.dirs v.dirs_fit,
  blobs_from_proto-map bb.files v.files_fit,
  blobs_from_proto-map bb.chunks v.chunks_fit,
)

module _ (T : Timestamps) where
  header_round_trip :
      (bh : BlockHeader)
      → IsHeader bh
      → bh.timestamp.nanos < 1000000000
      → block_header_from_proto T (header_proto T bh) ≡ some bh
  unfolding block_header_from_proto header_proto
  header_round_trip bh v small = rw (
    hash_of_slice-whole bh.parent_hash v.parent_fits,
    hash_of_slice-whole bh.dirs_root v.dirs_fit,
    hash_of_slice-whole bh.files_root v.files_fit,
    hash_of_slice-whole bh.chunks_root v.chunks_fit,
    hash_of_slice-whole bh.state_root v.state_fits,
    T.as_time-new bh.timestamp v.seconds_fit small,
  )

  -- A block whose header and body fit their widths comes back whole from its message, with the
  -- nanoseconds of its timestamp, which the byte form drops.
  pub block_from_proto-block_proto :
      (B : Blake3) (c : HashCache) (b : Block)
      → IsHeader b.header
      → b.header.timestamp.nanos < 1000000000
      → IsBody b.body
      → block_from_proto T (block_proto T B c b).0 ≡ some b
  unfolding block_from_proto block_proto
  block_from_proto-block_proto B c b vh small vb =
      rw (header_round_trip b.header vh small, body_round_trip b.body vb)

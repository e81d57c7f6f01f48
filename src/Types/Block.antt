-- ===== src/Types/Block.antt =====
-- pkg/types/block.go: blocks and their byte form.
pub mod Header
pub mod Body
pub mod RoundTrip
pub mod Cache
pub mod Proto
use blobcast.Prelude.{
  ℕ, zero, suc, ◌+◌, ◌^◌, ◌%◌, Option, none, some, List, [], ◌∷◌, ◌++◌, map, length,
}
use blobcast.Prelude.Maybe.{◌>>=◌}
use blobcast.Util.{
  Time, bytes_from_uint32, bytes_from_uint64, bytes_from_time, bytes_from_short_string,
  short_string_from_bytes, uint32_from_bytes, uint64_from_bytes,
}
use blobcast.Util.Slice.{Slice, slice, slice_from, index}
use blobcast.Crypto.{Blake3, Hash, zero_hash, hash_of_slice}
use blobcast.Types.Blob.{
  BlobIdentifier, blob_bytes, blob_identifier_from_bytes, blob_identifiers_merkle_root,
}

pub record BlockHeader : Type 0 where
  pub version : ℕ
  pub chain_id : List ℕ
  pub height : ℕ
  pub celestia_block_height : ℕ
  pub timestamp : Time
  pub parent_hash : Hash
  pub dirs_root : Hash
  pub files_root : Hash
  pub chunks_root : Hash
  pub state_root : Hash

pub record BlockBody : Type 0 where
  pub dirs : List BlobIdentifier
  pub files : List BlobIdentifier
  pub chunks : List BlobIdentifier

pub record Block : Type 0 where
  pub header : BlockHeader
  pub body : BlockBody

-- `time.Time{}` is the start of year 1: -62135596800 seconds, as a bit pattern.
abbrev pub zero_time : Time
zero_time = record { seconds = 18446744011573954816; nanos = 0 }

-- `&BlockHeader{}`
abbrev pub zero_header : BlockHeader
zero_header = record {
  version = 0;
  chain_id = [];
  height = 0;
  celestia_block_height = 0;
  timestamp = zero_time;
  parent_hash = zero_hash;
  dirs_root = zero_hash;
  files_root = zero_hash;
  chunks_root = zero_hash;
  state_root = zero_hash;
}

-- The copy that `CopyBlockHeader` makes is the header itself here: values are not shared.
unfoldable pub copy_block_header : BlockHeader → BlockHeader
copy_block_header bh = record {
  version = bh.version;
  chain_id = bh.chain_id;
  height = bh.height;
  celestia_block_height = bh.celestia_block_height;
  timestamp = bh.timestamp;
  parent_hash = bh.parent_hash;
  dirs_root = bh.dirs_root;
  files_root = bh.files_root;
  chunks_root = bh.chunks_root;
  state_root = bh.state_root;
}

module _ (B : Blake3) where
  unfoldable pub new_block_from_header :
      BlockHeader → List BlobIdentifier → List BlobIdentifier → List BlobIdentifier → Block
  unfolding copy_block_header
  new_block_from_header header dirs files chunks = record {
    header = record (copy_block_header header) {
      version = 1;
      dirs_root = blob_identifiers_merkle_root B dirs;
      files_root = blob_identifiers_merkle_root B files;
      chunks_root = blob_identifiers_merkle_root B chunks;
    };
    body = record { dirs = dirs; files = files; chunks = chunks };
  }

  unfoldable pub new_block : List BlobIdentifier → List BlobIdentifier → List BlobIdentifier → Block
  unfolding new_block_from_header
  new_block dirs files chunks = new_block_from_header zero_header dirs files chunks

unfoldable pub header_bytes : BlockHeader → List ℕ
header_bytes bh =
    bytes_from_uint32 bh.version
    ++ (bytes_from_short_string bh.chain_id
        ++ (bytes_from_uint64 bh.height
            ++ (bytes_from_uint64 bh.celestia_block_height
                ++ (bytes_from_time bh.timestamp
                    ++ (bh.parent_hash
                        ++ (bh.dirs_root
                            ++ (bh.files_root ++ (bh.chunks_root ++ bh.state_root))))))))

unfoldable pub blobs_bytes : List BlobIdentifier → List ℕ
blobs_bytes [] = []
blobs_bytes (b ∷ bs) = blob_bytes b ++ blobs_bytes bs

-- `uint32(len(x))` wraps.
unfoldable pub body_bytes : BlockBody → List ℕ
body_bytes bb =
    bytes_from_uint32 (length bb.dirs % 2 ^ 32)
    ++ (bytes_from_uint32 (length bb.files % 2 ^ 32)
        ++ (bytes_from_uint32 (length bb.chunks % 2 ^ 32)
            ++ (blobs_bytes bb.dirs ++ (blobs_bytes bb.files ++ blobs_bytes bb.chunks))))

unfoldable pub block_bytes : Block → List ℕ
block_bytes b =
    let h : List ℕ = header_bytes b.header in
    bytes_from_uint32 (length h % 2 ^ 32) ++ (h ++ body_bytes b.body)

-- The decoders read at offsets; `none` is the panic of an access out of range.
unfoldable pub read_hash : Slice → ℕ → Option Hash
read_hash b offset = do s ← slice b offset (offset + 32); hash_of_slice s.items

unfoldable pub read_uint64 : Slice → ℕ → Option ℕ
read_uint64 b offset = do s ← slice b offset (offset + 8); uint64_from_bytes s.items

unfoldable pub read_uint32 : Slice → ℕ → Option ℕ
read_uint32 b offset = do s ← slice b offset (offset + 4); uint32_from_bytes s.items

unfoldable pub block_header_from_bytes : Slice → Option BlockHeader
block_header_from_bytes b = do
  version ← read_uint32 b 0
  n ← index b 4
  id ← slice b 4 (5 + n)
  let offset : ℕ = 5 + n
  height ← read_uint64 b offset
  celestia_height ← read_uint64 b (offset + 8)
  seconds ← read_uint64 b (offset + 8 + 8)
  parent_hash ← read_hash b (offset + 8 + 8 + 8)
  dirs_root ← read_hash b (offset + 8 + 8 + 8 + 32)
  files_root ← read_hash b (offset + 8 + 8 + 8 + 32 + 32)
  chunks_root ← read_hash b (offset + 8 + 8 + 8 + 32 + 32 + 32)
  state_root ← read_hash b (offset + 8 + 8 + 8 + 32 + 32 + 32 + 32)
  some (record {
    version = version;
    chain_id = short_string_from_bytes id.items;
    height = height;
    celestia_block_height = celestia_height;
    timestamp = record { seconds = seconds; nanos = 0 };
    parent_hash = parent_hash;
    dirs_root = dirs_root;
    files_root = files_root;
    chunks_root = chunks_root;
    state_root = state_root;
  })

-- The loops over `range int(count)`: the identifiers read, and the offset behind them.
unfoldable pub read_blobs : ℕ → Slice → ℕ → Option (List BlobIdentifier × ℕ)
read_blobs zero b offset = some ([], offset)
read_blobs (suc n) b offset = do
  s ← slice b offset (offset + 40)
  (rest, end) ← read_blobs n b (offset + 40)
  some (blob_identifier_from_bytes s.items ∷ rest, end)

unfoldable pub block_body_from_bytes : Slice → Option BlockBody
block_body_from_bytes b = do
  dirs_count ← read_uint32 b 0
  files_count ← read_uint32 b 4
  chunks_count ← read_uint32 b 8
  (dirs, o) ← read_blobs dirs_count b 12
  (files, p) ← read_blobs files_count b o
  (chunks, q) ← read_blobs chunks_count b p
  some (record { dirs = dirs; files = files; chunks = chunks })

-- `4 + headerLength` is a sum of uint32s.
unfoldable pub block_from_bytes : Slice → Option Block
block_from_bytes b = do
  header_length ← read_uint32 b 0
  let end : ℕ = (4 + header_length) % 2 ^ 32
  h ← slice b 4 end
  header ← block_header_from_bytes h
  t ← slice_from b end
  body ← block_body_from_bytes t
  some (record { header = header; body = body })

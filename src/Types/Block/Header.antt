-- ===== src/Types/Block/Header.antt =====
-- `BlockHeaderFromBytes` of pkg/types/block.go on the bytes of a header.
use blobcast.Prelude.{
  ℕ, ◌+◌, ◌^◌, ◌%◌, ◌<◌, ◌≤◌, ◌≡◌, refl, some, false, List, [], ◌∷◌, ◌++◌, append_assoc, length,
  append-nil, cut_prefix, take, ltb, le→not_ltb, arith,
}
use mathlib.Core.Path.{subst}
use blobcast.Util.{
  put_little, read_little, bytes_from_uint32, bytes_from_uint64, bytes_from_time,
  bytes_from_short_string, short_string_from_bytes, uint32_from_bytes, uint64_from_bytes,
}
use blobcast.Util.RoundTrip.{length-put_little, read_little-put_little}
use blobcast.Util.Slice.{Slice, index, At, slice_field}
use blobcast.Crypto.{Hash, IsHash, hash_of_slice}
use blobcast.Types.Block.{
  BlockHeader, header_bytes, read_hash, read_uint64, read_uint32, block_header_from_bytes,
}

-- A header whose fields have their widths in Go, and whose chain id fits its length byte.
pub record IsHeader (bh : BlockHeader) : Type 0 where
  pub version_fits : bh.version < 2 ^ 32
  pub chain_id_fits : length bh.chain_id ≤ 255
  pub height_fits : bh.height < 2 ^ 64
  pub celestia_fits : bh.celestia_block_height < 2 ^ 64
  pub seconds_fit : bh.timestamp.seconds < 2 ^ 64
  pub parent_fits : IsHash bh.parent_hash
  pub dirs_fit : IsHash bh.dirs_root
  pub files_fit : IsHash bh.files_root
  pub chunks_fit : IsHash bh.chunks_root
  pub state_fits : IsHash bh.state_root

-- What is stored of a header: the nanoseconds of its timestamp are not.
abbrev pub stored_header : BlockHeader → BlockHeader
stored_header bh = record bh { timestamp = record { seconds = bh.timestamp.seconds; nanos = 0 } }

pub read_whole : (n v : ℕ) → v < 256 ^ n → read_little n (put_little n v) ≡ some v
read_whole n v h = rw append-nil at (read_little-put_little n v [] h)

pub read_uint32-At :
    (s : Slice) (off v : ℕ) (rest : List ℕ)
    → v < 2 ^ 32
    → At s off (bytes_from_uint32 v ++ rest)
    → (read_uint32 s off ≡ some v) × At s (off + 4) rest
unfolding read_uint32 bytes_from_uint32 uint32_from_bytes
read_uint32-At s off v rest fits h =
    let (e, next) = slice_field s off 4 (put_little 4 v) rest (length-put_little 4 v) h in
    (rw e (read_whole 4 v fits), next)

pub read_uint64-At :
    (s : Slice) (off v : ℕ) (rest : List ℕ)
    → v < 2 ^ 64
    → At s off (bytes_from_uint64 v ++ rest)
    → (read_uint64 s off ≡ some v) × At s (off + 8) rest
unfolding read_uint64 bytes_from_uint64 uint64_from_bytes
read_uint64-At s off v rest fits h =
    let (e, next) = slice_field s off 8 (put_little 8 v) rest (length-put_little 8 v) h in
    (rw e (read_whole 8 v fits), next)

hash_of_slice-hash : (x : Hash) → IsHash x → hash_of_slice x ≡ some x
unfolding hash_of_slice
hash_of_slice-hash x h =
    let (p, q) = cut_prefix 32 x [] h in
    let whole : take 32 x ≡ x = rw append-nil at p in
    let low : ltb (length x) 32 ≡ false = le→not_ltb _ _ (omega arith) in rw (low, whole) refl

pub read_hash-At :
    (s : Slice) (off : ℕ) (x : Hash) (rest : List ℕ)
    → IsHash x
    → At s off (x ++ rest)
    → (read_hash s off ≡ some x) × At s (off + 32) rest
unfolding read_hash
read_hash-At s off x rest fits h =
    let (e, next) = slice_field s off 32 x rest fits h in (rw e (hash_of_slice-hash x fits), next)

pub short_string_short :
    (cid : List ℕ) → length cid ≤ 255 → bytes_from_short_string cid ≡ length cid ∷ cid
unfolding bytes_from_short_string
short_string_short cid h = rw (le→not_ltb 255 (length cid) h) (cc (small))
  where
    small : length cid % 256 ≡ length cid
    small = omega arith

module _ (bh : BlockHeader) (spare : List ℕ) (v : IsHeader bh) where
  source : Slice
  source = record { items = header_bytes bh; spare = spare }

  -- What stands behind the chain id.
  after_id : List ℕ
  after_id =
      bytes_from_uint64 bh.height
      ++ (bytes_from_uint64 bh.celestia_block_height
          ++ (bytes_from_time bh.timestamp
              ++ (bh.parent_hash
                  ++ (bh.dirs_root
                      ++ (bh.files_root ++ (bh.chunks_root ++ (bh.state_root ++ spare)))))))

  whole :
      At source 0
        (bytes_from_uint32 bh.version ++ (bytes_from_short_string bh.chain_id ++ after_id))
  unfolding source header_bytes after_id
  whole = (omega arith, simp append_assoc)

  id-At : At source 4 ((length bh.chain_id ∷ bh.chain_id) ++ after_id)
  id-At =
      subst (λ t. At source 4 (t ++ after_id)) (short_string_short bh.chain_id v.chain_id_fits)
        (read_uint32-At source 0 bh.version _ v.version_fits whole).1

  id_length : index source 4 ≡ some (length bh.chain_id)
  unfolding index source header_bytes bytes_from_uint32 put_little
  id_length = rw (short_string_short bh.chain_id v.chain_id_fits) refl

-- A header whose fields have their widths, with a chain id of at most 255 bytes, reads back from
-- its bytes, whatever the backing array holds behind them; only the nanoseconds of its timestamp
-- are lost.
pub block_header_from_bytes-header_bytes :
    (bh : BlockHeader) (spare : List ℕ)
    → IsHeader bh
    → block_header_from_bytes (record { items = header_bytes bh; spare = spare })
      ≡ some (stored_header bh)
unfolding block_header_from_bytes source after_id short_string_from_bytes bytes_from_time
block_header_from_bytes-header_bytes bh spare v =
    let n : ℕ = length bh.chain_id in
    let s : Slice = source bh spare v in
    let (e0, _) = read_uint32-At s 0 bh.version _ v.version_fits (whole bh spare v) in
    let (e2, a2) =
      slice_field s 4 (1 + n) (n ∷ bh.chain_id) (after_id bh spare v) (omega arith)
        (id-At bh spare v) in
    let off : ℕ = 4 + (1 + n) in
    let (e3, a3) = read_uint64-At s off bh.height _ v.height_fits a2 in
    let (e4, a4) = read_uint64-At s (off + 8) bh.celestia_block_height _ v.celestia_fits a3 in
    let (e5, a5) = read_uint64-At s (off + 8 + 8) bh.timestamp.seconds _ v.seconds_fit a4 in
    let (e6, a6) = read_hash-At s (off + 8 + 8 + 8) bh.parent_hash _ v.parent_fits a5 in
    let (e7, a7) = read_hash-At s (off + 8 + 8 + 8 + 32) bh.dirs_root _ v.dirs_fit a6 in
    let (e8, a8) = read_hash-At s (off + 8 + 8 + 8 + 32 + 32) bh.files_root _ v.files_fit a7 in
    let (e9, a9) =
      read_hash-At s (off + 8 + 8 + 8 + 32 + 32 + 32) bh.chunks_root _ v.chunks_fit a8 in
    let (e10, _) =
      read_hash-At s (off + 8 + 8 + 8 + 32 + 32 + 32 + 32) bh.state_root _ v.state_fits a9 in
    let sum : 5 + n ≡ off = omega arith in
    rw (e0, id_length bh spare v, sum, e2, e3, e4, e5, e6, e7, e8, e9, e10) refl

-- ===== src/Types/Block/Body.antt =====
-- `BlockBodyFromBytes` of pkg/types/block.go on the bytes of a body.
use blobcast.Prelude.{
  ℕ, ◌+◌, ◌^◌, ◌%◌, ◌<◌, ◌≡◌, refl, some, List, [], ◌∷◌, ◌++◌, append_assoc, length, All, arith,
}
use mathlib.Core.Path.{subst}
use blobcast.Util.{bytes_from_uint32}
use blobcast.Util.Slice.{Slice, At, slice_field}
use blobcast.Types.Blob.{
  BlobIdentifier, IsBlobIdentifier, blob_bytes, length-blob_bytes,
  blob_identifier_from_bytes-blob_bytes,
}
use blobcast.Types.Block.{BlockBody, blobs_bytes, body_bytes, read_blobs, block_body_from_bytes}
use blobcast.Types.Block.Header.{read_uint32-At}

pub record IsBody (bb : BlockBody) : Type 0 where
  pub dirs_count : length bb.dirs < 2 ^ 32
  pub files_count : length bb.files < 2 ^ 32
  pub chunks_count : length bb.chunks < 2 ^ 32
  pub dirs_fit : All IsBlobIdentifier bb.dirs
  pub files_fit : All IsBlobIdentifier bb.files
  pub chunks_fit : All IsBlobIdentifier bb.chunks

read_blobs-At :
    (bs : List BlobIdentifier) (s : Slice) (off : ℕ) (rest : List ℕ)
    → All IsBlobIdentifier bs
    → At s off (blobs_bytes bs ++ rest)
    → (end : ℕ) × (read_blobs (length bs) s off ≡ some (bs, end)) × At s end rest
unfolding read_blobs blobs_bytes
read_blobs-At [] s off rest vs h = (off, refl, h)
read_blobs-At (b ∷ bs) s off rest (v, vs) h =
    let (e, next) =
      slice_field s off 40 (blob_bytes b) (blobs_bytes bs ++ rest) (length-blob_bytes b v)
        (subst (At s off) (append_assoc (blob_bytes b) (blobs_bytes bs) rest) h) in
    let (end, r, last) = read_blobs-At bs s (off + 40) rest vs next in
    (end, rw (e, r, blob_identifier_from_bytes-blob_bytes b v) refl, last)

module _ (bb : BlockBody) (spare : List ℕ) where
  whole :
      At
        (record { items = body_bytes bb; spare = spare })
        0
        (bytes_from_uint32 (length bb.dirs % 2 ^ 32)
          ++ (bytes_from_uint32 (length bb.files % 2 ^ 32)
              ++ (bytes_from_uint32 (length bb.chunks % 2 ^ 32)
                  ++ (blobs_bytes bb.dirs
                      ++ (blobs_bytes bb.files ++ (blobs_bytes bb.chunks ++ spare))))))
  unfolding body_bytes
  whole = (omega arith, simp append_assoc)

-- A body of fewer than 2^32 identifiers of each kind reads back from its bytes, whatever stands
-- behind them.
pub block_body_from_bytes-body_bytes :
    (bb : BlockBody) (spare : List ℕ)
    → IsBody bb
    → block_body_from_bytes (record { items = body_bytes bb; spare = spare }) ≡ some bb
unfolding block_body_from_bytes
block_body_from_bytes-body_bytes bb spare v =
    let s : Slice = record { items = body_bytes bb; spare = spare } in
    let nd : length bb.dirs % 2 ^ 32 ≡ length bb.dirs = omega arith in
    let nf : length bb.files % 2 ^ 32 ≡ length bb.files = omega arith in
    let nc : length bb.chunks % 2 ^ 32 ≡ length bb.chunks = omega arith in
    let (e0, a0) = read_uint32-At s 0 (length bb.dirs % 2 ^ 32) _ (omega arith) (whole bb spare) in
    let (e1, a1) = read_uint32-At s 4 (length bb.files % 2 ^ 32) _ (omega arith) a0 in
    let (e2, a2) = read_uint32-At s 8 (length bb.chunks % 2 ^ 32) _ (omega arith) a1 in
    let (o, e3, a3) = read_blobs-At bb.dirs s 12 _ v.dirs_fit a2 in
    let (p, e4, a4) = read_blobs-At bb.files s o _ v.files_fit a3 in
    let (q, e5, _) = read_blobs-At bb.chunks s p spare v.chunks_fit a4 in
    rw (e0, e1, e2, nd, nf, nc, e3, e4, e5) refl

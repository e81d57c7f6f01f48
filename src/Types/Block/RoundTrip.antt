-- ===== src/Types/Block/RoundTrip.antt =====
-- `BlockFromBytes` of pkg/types/block.go on the bytes of a block.
use blobcast.Prelude.{
  ℕ, ◌+◌, ◌^◌, ◌%◌, ◌≡◌, refl, some, List, ◌++◌, append_assoc, length, length-append, cut_prefix,
  le→not_ltb, ltb, false, arith,
}
use blobcast.Util.{bytes_from_uint32, bytes_from_uint64, bytes_from_time, put_little}
use blobcast.Util.RoundTrip.{length-put_little}
use blobcast.Util.Slice.{Slice, slice_from, At, slice_field}
use blobcast.Types.Block.{
  BlockHeader, Block, header_bytes, body_bytes, block_bytes, block_from_bytes,
}
use blobcast.Types.Block.Header.{
  IsHeader, stored_header, short_string_short, read_uint32-At, block_header_from_bytes-header_bytes,
}
use blobcast.Types.Block.Body.{IsBody, block_body_from_bytes-body_bytes}

pub length-header_bytes :
    (bh : BlockHeader) → IsHeader bh → length (header_bytes bh) ≡ 189 + length bh.chain_id
unfolding header_bytes bytes_from_uint32 bytes_from_uint64 bytes_from_time
length-header_bytes bh v =
    rw (short_string_short bh.chain_id v.chain_id_fits)
      (simp (length-append, length-put_little) (omega arith))

module _ (b : Block) (spare : List ℕ) where
  whole :
      At
        (record { items = block_bytes b; spare = spare })
        0
        (bytes_from_uint32 (length (header_bytes b.header) % 2 ^ 32)
          ++ (header_bytes b.header ++ (body_bytes b.body ++ spare)))
  unfolding block_bytes
  whole = (omega arith, simp append_assoc)

  -- `b[4+headerLength:]` is the body.
  tail :
      slice_from
        (record { items = block_bytes b; spare = spare })
        (4 + length (header_bytes b.header))
      ≡ some (record { items = body_bytes b.body; spare = spare })
  unfolding slice_from block_bytes bytes_from_uint32
  tail =
      let h : List ℕ = header_bytes b.header in
      let n : List ℕ = put_little 4 (length h % 2 ^ 32) in
      let len : length (n ++ h) ≡ 4 + length h =
        omega (arith, length-append n h, length-put_little 4 (length h % 2 ^ 32)) in
      let (_, back) = cut_prefix (4 + length h) (n ++ h) (body_bytes b.body) len in
      let long : ltb (length ((n ++ h) ++ body_bytes b.body)) (4 + length h) ≡ false =
        le→not_ltb _ _ (omega (arith, length-append (n ++ h) (body_bytes b.body))) in
      rw (← append_assoc n h (body_bytes b.body), long, back) refl

-- A block whose header and body fit reads back from its bytes, without the nanoseconds of its
-- timestamp, whatever stands behind them in the backing array.
pub block_from_bytes-block_bytes :
    (b : Block) (spare : List ℕ)
    → IsHeader b.header
    → IsBody b.body
    → block_from_bytes (record { items = block_bytes b; spare = spare })
      ≡ some (record b { header = stored_header b.header })
unfolding block_from_bytes
block_from_bytes-block_bytes b spare vh vb =
    let s : Slice = record { items = block_bytes b; spare = spare } in
    let h : List ℕ = header_bytes b.header in
    let len = length-header_bytes b.header vh in
    let small : length h % 2 ^ 32 ≡ length h = omega (arith, vh.chain_id_fits) in
    let sum : (4 + length h) % 2 ^ 32 ≡ 4 + length h = omega (arith, vh.chain_id_fits) in
    let (e0, a0) =
      read_uint32-At s 0 (length h % 2 ^ 32) (h ++ (body_bytes b.body ++ spare)) (omega arith)
        (whole b spare) in
    let (e1, _) = slice_field s 4 (length h) h (body_bytes b.body ++ spare) refl a0 in
    rw
      (
        e0,
        small,
        sum,
        e1,
        block_header_from_bytes-header_bytes b.header (body_bytes b.body ++ spare) vh,
        tail b spare,
        block_body_from_bytes-body_bytes b.body spare vb,
      )
      refl

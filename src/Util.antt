-- ===== src/Util.antt =====
-- pkg/util/bytes.go, pkg/util/uint.go and `ShortStringFromBytes` of pkg/util/string.go.
-- A byte string is a list of numbers below 256.
pub mod Slice
pub mod RoundTrip
pub mod Ordered
pub mod Retry
use blobcast.Prelude.{
  ℕ, zero, suc, ◌+◌, ◌*◌, ◌/◌, ◌%◌, ◌^◌, ◌<◌, Option, none, some, List, [], ◌∷◌, reverse, map,
  length, take, ltb, if◌then◌else◌, All,
}

abbrev pub IsByte : ℕ → Type 0
IsByte b = b < 256

abbrev pub IsBytes : List ℕ → Type 0
IsBytes bs = All IsByte bs

-- `binary.LittleEndian.PutUint32` and `PutUint64`: `n` bytes, the lowest first.
unfoldable pub put_little : ℕ → ℕ → List ℕ
put_little zero v = []
put_little (suc n) v = (v % 256) ∷ put_little n (v / 256)

unfoldable pub get_little : List ℕ → ℕ
get_little [] = 0
get_little (b ∷ bs) = b + 256 * get_little bs

-- Reading `n` bytes off a slice; a slice that is too short panics.
unfoldable pub read_little : ℕ → List ℕ → Option ℕ
read_little n b = if ltb (length b) n then none else some (get_little (take n b))

unfoldable pub bytes_from_uint32 : ℕ → List ℕ
bytes_from_uint32 v = put_little 4 v

unfoldable pub bytes_from_uint64 : ℕ → List ℕ
bytes_from_uint64 v = put_little 8 v

-- The big-endian form, which keys of the database use.
unfoldable pub bytes_from_uint64_key : ℕ → List ℕ
bytes_from_uint64_key v = reverse (put_little 8 v)

unfoldable pub uint32_from_bytes : List ℕ → Option ℕ
uint32_from_bytes b = read_little 4 b

unfoldable pub uint64_from_bytes : List ℕ → Option ℕ
uint64_from_bytes b = read_little 8 b

unfoldable pub uint64_from_bytes_key : List ℕ → Option ℕ
uint64_from_bytes_key b = if ltb (length b) 8 then none else some (get_little (reverse (take 8 b)))

-- A `time.Time`: the seconds since 1970 as the bit pattern of an int64, and the nanoseconds.
-- The location, which no code reads, is left out.
pub record Time : Type 0 where
  pub seconds : ℕ
  pub nanos : ℕ

unfoldable pub bytes_from_time : Time → List ℕ
bytes_from_time t = bytes_from_uint64 t.seconds

-- A length byte, and at most 255 bytes of text.
unfoldable pub bytes_from_short_string : List ℕ → List ℕ
bytes_from_short_string s =
    let cut : List ℕ = if ltb 255 (length s) then take 255 s else s in (length cut % 256) ∷ cut

-- `string(b[1:])`: the length byte is not read.
unfoldable pub short_string_from_bytes : List ℕ → List ℕ
short_string_from_bytes [] = []
short_string_from_bytes (n ∷ s) = s

-- ===== src/Util/RoundTrip.antt =====
-- The readers of pkg/util/uint.go and pkg/util/string.go on what pkg/util/bytes.go writes.
use blobcast.Prelude.{
  ℕ, zero, suc, ◌+◌, ◌*◌, ◌/◌, ◌%◌, ◌^◌, ◌≤◌, ◌<◌, ◌≡◌, refl, sym, ap, ◌∙◌, some, false, List, [],
  ◌∷◌, ◌++◌, length, length-append, take, take-append, ltb, le→not_ltb, arith,
}
use blobcast.Util.{
  IsBytes, put_little, get_little, read_little, bytes_from_short_string, short_string_from_bytes,
}
use native.Mathlib.Nat.{pow-suc}

pub length-put_little : (n v : ℕ) → length (put_little n v) ≡ n
unfolding put_little
length-put_little zero v = refl
length-put_little (suc n) v = ap suc (length-put_little n (v / 256))

pub put_little-IsBytes : (n v : ℕ) → IsBytes (put_little n v)
unfolding put_little
put_little-IsBytes zero v = tt
put_little-IsBytes (suc n) v = (omega arith, put_little-IsBytes n (v / 256))

div_below : (v n : ℕ) → v < 256 ^ suc n → v / 256 < 256 ^ n
div_below v n h = omega (arith, pow-suc 256 n)

pub get_little-put_little : (n v : ℕ) → v < 256 ^ n → get_little (put_little n v) ≡ v
unfolding put_little get_little
get_little-put_little zero v h = omega arith
get_little-put_little (suc n) v h =
    omega (arith, get_little-put_little n (v / 256) (div_below v n h))

-- A field that `PutUint` wrote reads back, whatever follows it.
pub read_little-put_little :
    (n v : ℕ) (rest : List ℕ) → v < 256 ^ n → read_little n (put_little n v ++ rest) ≡ some v
unfolding read_little
read_little-put_little n v rest h =
    let long : ltb (length (put_little n v ++ rest)) n ≡ false =
      ground (arith, length-append (put_little n v) rest, length-put_little n v) in
    let front : take n (put_little n v ++ rest) ≡ put_little n v =
      ap (λ (k : ℕ). take k (put_little n v ++ rest)) (sym (length-put_little n v))
      ∙ take-append (put_little n v) rest in
    rw (long, front, get_little-put_little n v h) refl

-- The other way round: `n` bytes are what `PutUint` writes of the number that they spell.
pub put_little-get_little : (bs : List ℕ) → IsBytes bs → put_little (length bs) (get_little bs) ≡ bs
unfolding put_little get_little
put_little-get_little [] h = refl
put_little-get_little (b ∷ bs) (hb, hbs) =
    let low : (b + 256 * get_little bs) % 256 ≡ b = omega arith in
    let high : (b + 256 * get_little bs) / 256 ≡ get_little bs = omega arith in
    rw (low, high, put_little-get_little bs hbs) refl

get_little-lt : (bs : List ℕ) → IsBytes bs → get_little bs < 256 ^ length bs
unfolding get_little
get_little-lt [] h = omega arith
get_little-lt (b ∷ bs) (hb, hbs) = omega (arith, pow-suc 256 (length bs), get_little-lt bs hbs)

-- What `BytesFromShortString` writes of a text of at most 255 bytes reads back.
pub short_string_lem :
    (s : List ℕ) → length s ≤ 255 → short_string_from_bytes (bytes_from_short_string s) ≡ s
unfolding short_string_from_bytes bytes_from_short_string
short_string_lem s h = rw (le→not_ltb 255 (length s) h) refl

-- ===== src/Util/Ordered.antt =====
-- The order of the big-endian keys of `BytesFromUint64Key` in pkg/util/bytes.go.
use blobcast.Prelude.{
  ℕ, zero, suc, ◌/◌, ◌%◌, ◌^◌, ◌<◌, ◌≡◌, refl, sym, ◌∙◌, true, false, Bool, List, [], ◌∷◌, ◌++◌,
  length, reverse, length-append, dec_lt, ltb, ◌==◌, if◌then◌else◌, arith,
}
use mathlib.Core.List.{reverse-append}
use native.Mathlib.Nat.{pow-suc}
use blobcast.Util.{put_little, bytes_from_uint64_key}

-- `bytes.Compare(a, b) < 0`
unfoldable pub bytes_lt : List ℕ → List ℕ → Bool
bytes_lt xs [] = false
bytes_lt [] (b ∷ ys) = true
bytes_lt (a ∷ xs) (b ∷ ys) =
    let rest = bytes_lt xs ys in if ltb a b then true else if a == b then rest else false

-- A common prefix does not count.
pub bytes_lt-prefix : (p a b : List ℕ) → bytes_lt (p ++ a) (p ++ b) ≡ bytes_lt a b
unfolding bytes_lt
bytes_lt-prefix [] a b = refl
bytes_lt-prefix (x ∷ p) a b = ground (arith, bytes_lt-prefix p a b)

-- Of two texts of one length, what follows does not count once they differ.
bytes_lt-front :
    (xs ys a b : List ℕ)
    → length xs ≡ length ys
    → bytes_lt xs ys ≡ true
    → bytes_lt (xs ++ a) (ys ++ b) ≡ true
unfolding bytes_lt
bytes_lt-front [] [] a b e h = cc
bytes_lt-front [] (y ∷ ys) a b e h = absurd (omega arith)
bytes_lt-front (x ∷ xs) [] a b e h = cc
bytes_lt-front (x ∷ xs) (y ∷ ys) a b e h = ground (arith, bytes_lt-front xs ys a b (omega arith))

big : ℕ → ℕ → List ℕ
big n v = reverse (put_little n v)

length-big : (n v : ℕ) → length (big n v) ≡ n
unfolding big put_little
length-big zero v = refl
length-big (suc n) v =
    rw (reverse-append (v % 256 ∷ []) (put_little n (v / 256)))
      (omega (arith, length-append (big n (v / 256)) (v % 256 ∷ []), length-big n (v / 256)))

big-suc : (n v : ℕ) → big (suc n) v ≡ big n (v / 256) ++ (v % 256 ∷ [])
unfolding big put_little
big-suc n v = reverse-append (v % 256 ∷ []) (put_little n (v / 256))

last_byte : (a b : ℕ) → a < b → bytes_lt (a ∷ []) (b ∷ []) ≡ true
unfolding bytes_lt
last_byte a b l = ground arith

-- The order of two numbers is that of their high parts or, where these agree, of the last bytes.
big_split :
    (n v w : ℕ)
    → v < w
    → (v / 256 < w / 256 → bytes_lt (big n (v / 256)) (big n (w / 256)) ≡ true)
    → Dec (v / 256 < w / 256)
    → bytes_lt (big n (v / 256) ++ v % 256 ∷ []) (big n (w / 256) ++ w % 256 ∷ []) ≡ true
big_split n v w h high (yes l) =
    bytes_lt-front (big n (v / 256)) (big n (w / 256)) (v % 256 ∷ []) (w % 256 ∷ [])
      (length-big n (v / 256) ∙ sym (length-big n (w / 256))) (high l)
big_split n v w h high (no k) =
    let same : v / 256 ≡ w / 256 = omega arith in
    rw same (
      bytes_lt-prefix (big n (w / 256)) (v % 256 ∷ []) (w % 256 ∷ [])
      ∙ last_byte (v % 256) (w % 256) (omega arith))

big_mono : (n v w : ℕ) → w < 256 ^ n → v < w → bytes_lt (big n v) (big n w) ≡ true
big_mono zero v w hw h = absurd (omega arith)
big_mono (suc n) v w hw h =
    rw (big-suc n v, big-suc n w)
      (big_split n v w h (λ l. big_mono n (v / 256) (w / 256) (omega (arith, pow-suc 256 n)) l)
        (dec_lt (v / 256) (w / 256)))

-- `BytesFromUint64Key` keeps the order: of two uint64s the lesser has the lesser key.
pub key_order :
    (v w : ℕ)
    → w < 2 ^ 64
    → v < w
    → bytes_lt (bytes_from_uint64_key v) (bytes_from_uint64_key w) ≡ true
unfolding bytes_from_uint64_key big
key_order v w hw h = big_mono 8 v w hw h

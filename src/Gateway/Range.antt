-- ===== src/Gateway/Range.antt =====
-- The range requests of `serveFile` in cmd/gateway/start.go, on the bytes of the file.
use blobcast.Prelude.{
  ℕ, ◌+◌, ◌-◌, ◌*◌, ◌^◌, ◌<◌, ◌≤◌, ◌≡◌, refl, ap, Option, none, some, Option-cases, List, [], ◌∷◌,
  Bool-cases, inl, inr, ◌&&◌, ◌==◌, ltb, leb, if◌then◌else◌, length, take, drop, length-take,
  length-drop, arith,
}
use blobcast.Types.Text.{has_prefix, trim_prefix}

-- Decimal digits; `none` for another byte, and for a number that is no int.
unfoldable pub digits : ℕ → List ℕ → Option ℕ
digits n [] = if ltb n (2 ^ 63) then some n else none
digits n (b ∷ bs) = if leb b'0' b && leb b b'9' then digits (n * 10 + (b - b'0')) bs else none

-- `strconv.Atoi` on a text without a minus sign.
unfoldable pub parse_int : List ℕ → Option ℕ
unfolding digits
parse_int [] = none
parse_int (b ∷ []) = digits 0 (b ∷ [])
parse_int (b ∷ c ∷ bs) = if b == b'+' then digits 0 (c ∷ bs) else digits 0 (b ∷ c ∷ bs)

-- `strings.Split(s, "-")`.
unfoldable pub before_first : ℕ → List (List ℕ) → List (List ℕ)
before_first b [] = (b ∷ []) ∷ []
before_first b (part ∷ parts) = (b ∷ part) ∷ parts

unfoldable pub split_minus : List ℕ → List (List ℕ)
unfolding before_first
split_minus [] = [] ∷ []
split_minus (b ∷ bs) = if b == b'-' then [] ∷ split_minus bs else before_first b (split_minus bs)

pub data Served : Type 0 where
  -- 200, with the Content-Length and the body.
  full : ℕ → List ℕ → Served
  -- 206: Content-Length, the first and the last position and the size of Content-Range, the body.
  partial : ℕ → ℕ → ℕ → ℕ → List ℕ → Served
  -- 416.
  invalid_range : Served
  invalid_format : Served

-- `b[start:end]` of bytes with no spare capacity; `none` is a panic.
unfoldable pub cut : List ℕ → ℕ → ℕ → Option (List ℕ)
cut b start end =
    if leb start end && leb end (length b) then some (take (end - start) (drop start b)) else none

-- The start position, 0 if it is not given; `none` is an invalid range.
unfoldable pub range_start : List ℕ → ℕ → Option ℕ
range_start [] size = some 0
range_start (b ∷ bs) size = elim (parse_int (b ∷ bs)) [
  | none ↦ none
  | some n ↦ if ltb n size then some n else none
]

-- The position behind the end, which for an empty file the source writes as -1 + 1.
unfoldable pub range_stop : List ℕ → ℕ → ℕ
range_stop [] size = size
range_stop (b ∷ bs) size = elim (parse_int (b ∷ bs)) [
  | none ↦ size
  | some n ↦ if ltb n size then n + 1 else size
]

-- The checks on both, and the answer; `stop` is `end+1`.
unfoldable pub serve_between : List ℕ → ℕ → ℕ → Option Served
serve_between bytes start stop =
    if leb stop start then some invalid_range else elim (cut bytes start stop) [
      | none ↦ none
      | some part ↦ some (partial (stop - start) start (stop - 1) (length bytes) part)
    ]

unfoldable pub serve_parts : List ℕ → List (List ℕ) → Option Served
serve_parts bytes [] = some invalid_format
serve_parts bytes (a ∷ []) = some invalid_format
serve_parts bytes (a ∷ b ∷ []) = elim (range_start a (length bytes)) [
  | none ↦ some invalid_range
  | some start ↦ serve_between bytes start (range_stop b (length bytes))
]
serve_parts bytes (a ∷ b ∷ c ∷ parts) = some invalid_format

abbrev bytes_prefix : List ℕ
bytes_prefix = b'b' ∷ b'y' ∷ b't' ∷ b'e' ∷ b's' ∷ b'=' ∷ []

-- The header, empty if there is none.
unfoldable pub serve_range : List ℕ → List ℕ → Option Served
serve_range bytes [] = some (full (length bytes) bytes)
serve_range bytes (b ∷ header) =
    if has_prefix (b ∷ header) bytes_prefix
    then serve_parts bytes (split_minus (trim_prefix (b ∷ header) bytes_prefix))
    else some invalid_format

-- What an answer has to be for a file: the whole of it, or the part of it that is announced, as long
-- as it is announced.
abbrev pub IsRight : List ℕ → Served → Type 0
IsRight bytes (full size body) = (size ≡ length bytes) × (body ≡ bytes)
IsRight bytes (partial size first final total body) =
    (first ≤ final)
    × (final < length bytes)
    × (total ≡ length bytes)
    × (size ≡ length body)
    × (size ≡ final - first + 1)
    × (body ≡ take (final - first + 1) (drop first bytes))
IsRight bytes invalid_range = Unit {0}
IsRight bytes invalid_format = Unit {0}

range_stop-le : (b : List ℕ) (size : ℕ) → range_stop b size ≤ size
unfolding range_stop
range_stop-le [] size = omega arith
range_stop-le (b ∷ bs) size = elim (Option-cases (parse_int (b ∷ bs))) [
  | inl bad ↦ rw (range_stop, bad) (omega arith)
  | inr (n, good) ↦ rw (range_stop, good) (ground arith)
]

cut-some :
    (bytes : List ℕ) (start stop : ℕ)
    → start ≤ stop
    → stop ≤ length bytes
    → cut bytes start stop ≡ some (take (stop - start) (drop start bytes))
unfolding cut
cut-some bytes start stop p q = ground (arith, p, q)

-- An answer that is given, and is right.
abbrev Right : List ℕ → Option Served → Type 0
Right bytes o = (r : Served) × (o ≡ some r) × IsRight bytes r

serve_between-Right :
    (bytes : List ℕ) (start stop : ℕ)
    → stop ≤ length bytes
    → Right bytes (serve_between bytes start stop)
unfolding serve_between
serve_between-Right bytes start stop le = elim (Bool-cases (leb stop start)) [
  | inl over ↦ (invalid_range, rw over refl, tt)
  | inr before ↦
      let lt : start < stop = ground arith in
      let part = take (stop - start) (drop start bytes) in
      (
        partial (stop - start) start (stop - 1) (length bytes) part,
        rw (before, cut-some bytes start stop (omega arith) le) refl,
        (
          omega arith,
          omega arith,
          refl,
          omega (arith, length-take (stop - start) (drop start bytes), length-drop start bytes),
          omega arith,
          ap (λ n. take n (drop start bytes)) (omega arith),
        ),
      )
]

serve_parts-Right : (bytes : List ℕ) (parts : List (List ℕ)) → Right bytes (serve_parts bytes parts)
unfolding serve_parts
serve_parts-Right bytes [] = (invalid_format, refl, tt)
serve_parts-Right bytes (a ∷ []) = (invalid_format, refl, tt)
serve_parts-Right bytes (a ∷ b ∷ []) = elim (Option-cases (range_start a (length bytes))) [
  | inl bad ↦ (invalid_range, rw (serve_parts, bad) refl, tt)
  | inr (start, good) ↦
      let (r, e, right) =
        serve_between-Right bytes start (range_stop b (length bytes))
          (range_stop-le b (length bytes)) in
      (r, rw (serve_parts, good) e, right)
]
serve_parts-Right bytes (a ∷ b ∷ c ∷ parts) = (invalid_format, refl, tt)

-- Whatever the Range header says, the gateway answers without a panic, and what it serves is right:
-- without a header the whole file with its length; else a part that lies within the file, exactly the
-- bytes at the positions that Content-Range announces, as many as Content-Length announces; or else
-- status 416.
pub serve_range-IsRight :
    (bytes header : List ℕ) → (r : Served) × (serve_range bytes header ≡ some r) × IsRight bytes r
unfolding serve_range
serve_range-IsRight bytes [] = (full (length bytes) bytes, refl, (refl, refl))
serve_range-IsRight bytes (b ∷ header) = elim (Bool-cases (has_prefix (b ∷ header) bytes_prefix)) [
  | inr other ↦ (invalid_format, rw other refl, tt)
  | inl is ↦
      let (r, e, right) =
        serve_parts-Right bytes (split_minus (trim_prefix (b ∷ header) bytes_prefix)) in
      (r, rw is e, right)
]

-- ===== src/Util/Slice.antt =====
-- Go's byte slices: `items` are its elements, and `spare` is what the backing array holds behind
-- them, which an expression `b[lo:hi]` may reach, as `hi` is held against the capacity.
use blobcast.Prelude.{
  ℕ, ◌+◌, ◌-◌, ◌≤◌, ◌≡◌, refl, sym, ◌∙◌, ap, false, Option, none, some, List, ◌++◌, length, take,
  drop, take-append, drop-append, drop-drop, length-drop, length-append, get_elem?, le→not_ltb, ltb,
  if◌then◌else◌, ◌||◌, arith,
}

pub record Slice : Type 0 where
  pub items : List ℕ
  pub spare : List ℕ

-- Everything from the slice's first element up to its capacity.
abbrev pub backing : Slice → List ℕ
backing s = s.items ++ s.spare

-- `b[lo:hi]`; `none` is the panic.
unfoldable pub slice : Slice → ℕ → ℕ → Option Slice
slice s lo hi =
    if ltb hi lo || ltb (length (backing s)) hi
    then none
    else some (record { items = take (hi - lo) (drop lo (backing s)); spare = drop hi (backing s) })

-- `b[lo:]`, up to the length.
unfoldable pub slice_from : Slice → ℕ → Option Slice
slice_from s lo =
    if ltb (length s.items) lo
    then none
    else some (record { items = drop lo s.items; spare = s.spare })

-- `b[i]`
unfoldable pub index : Slice → ℕ → Option ℕ
index s i = get_elem? s.items i

-- What stands at an offset.
abbrev pub At : Slice → ℕ → List ℕ → Type 0
At s off rest = (off ≤ length (backing s)) × (drop off (backing s) ≡ rest)

module _ (all : List ℕ) (off : ℕ) (field rest : List ℕ) (le : off ≤ length all) where
  room : drop off all ≡ field ++ rest → off + length field ≤ length all
  room h =
      omega (arith, length-drop off all, ap (λ (l : List ℕ). length l) h, length-append field rest)

  behind : drop off all ≡ field ++ rest → drop (off + length field) all ≡ rest
  behind h =
      sym (drop-drop off (length field) all)
      ∙ ap (λ l. drop (length field) l) h
      ∙ drop-append field rest

  taken : drop off all ≡ field ++ rest → take (length field) (drop off all) ≡ field
  taken h = ap (λ l. take (length field) l) h ∙ take-append field rest

-- A slice of the field that stands at an offset, with what follows it as its spare.
pub slice-At :
    (s : Slice) (off : ℕ) (field rest : List ℕ)
    → At s off (field ++ rest)
    → slice s off (off + length field) ≡ some (record { items = field; spare = rest })
unfolding slice
slice-At s off field rest (le, h) =
    let low : ltb (off + length field) off ≡ false = ground arith in
    let high : ltb (length (backing s)) (off + length field) ≡ false =
      le→not_ltb _ _ (room (backing s) off field rest le h) in
    let n : off + length field - off ≡ length field = omega arith in
    rw (low, high, n, taken (backing s) off field rest le h, behind (backing s) off field rest le h)
      refl

pub At-next :
    (s : Slice) (off : ℕ) (field rest : List ℕ)
    → At s off (field ++ rest)
    → At s (off + length field) rest
At-next s off field rest (le, h) =
    (room (backing s) off field rest le h, behind (backing s) off field rest le h)

module _ (s : Slice) (off n : ℕ) (field rest : List ℕ) (e : length field ≡ n) where
  -- The same for a field of known width.
  pub slice_field :
      At s off (field ++ rest)
      → (slice s off (off + n) ≡ some (record { items = field; spare = rest }))
        × At s (off + n) rest
  slice_field h = rw (← e) (slice-At s off field rest h, At-next s off field rest h)

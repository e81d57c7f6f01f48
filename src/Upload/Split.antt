-- ===== src/Upload/Split.antt =====
-- `Split` of pkg/fileutil/fileutil.go. The size is a positive `int` or 0.
use blobcast.Prelude.{
  ℕ, zero, suc, ◌<◌, ◌≤◌, ◌≡◌, refl, ap, ◌∙◌, Option, none, some, List, [], ◌∷◌, ◌++◌, append-nil,
  Bool-cases, true, false, inl, inr, ◌==◌, leb, ltb, if◌then◌else◌, flatten, length, take, drop,
  length-take, length-drop, take-append-drop, arith,
}

-- The loop, on fuel, and the rest that it leaves.
unfoldable pub split_loop : ℕ → ℕ → List ℕ → Option (List (List ℕ))
split_loop zero lim buf = none
split_loop (suc fuel) lim buf =
    let rest = split_loop fuel lim (drop lim buf) in
    if leb lim (length buf)
    then elim rest [ none ↦ none | some chunks ↦ some (take lim buf ∷ chunks) ]
    else if ltb 0 (length buf)
    then some (buf ∷ [])
    else some []

-- `none` is a panic: a size of 0 is divided by. A round takes an element at least.
unfoldable pub split : List ℕ → ℕ → Option (List (List ℕ))
split buf lim = if lim == 0 then none else split_loop (suc (length buf)) lim buf

-- Chunks of the full size, but for the last, which is not empty.
abbrev pub IsCut : ℕ → List (List ℕ) → Type 0
IsCut lim [] = Unit {0}
IsCut lim (c ∷ []) = (0 < length c) × (length c ≤ lim)
IsCut lim (c ∷ d ∷ chunks) = (length c ≡ lim) × IsCut lim (d ∷ chunks)

IsCut-cons :
    (lim : ℕ) (c : List ℕ) (chunks : List (List ℕ))
    → 0 < lim
    → length c ≡ lim
    → IsCut lim chunks
    → IsCut lim (c ∷ chunks)
IsCut-cons lim c [] pos full rest = (omega arith, omega arith)
IsCut-cons lim c (d ∷ chunks) pos full rest = (full, rest)

-- Chunks that are a cut of the data.
abbrev pub Cuts : ℕ → List ℕ → Option (List (List ℕ)) → Type 0
Cuts lim buf o =
    (chunks : List (List ℕ)) × (o ≡ some chunks) × (flatten chunks ≡ buf) × IsCut lim chunks

-- The end of the loop.
split_loop-rest :
    (fuel lim : ℕ) (buf : List ℕ)
    → leb lim (length buf) ≡ false
    → Cuts lim buf (split_loop (suc fuel) lim buf)
unfolding split_loop flatten
split_loop-rest fuel lim [] short = ([], rw (split_loop, short) refl, refl, tt)
split_loop-rest fuel lim (b ∷ bs) short =
    let some_left : ltb 0 (suc (length bs)) ≡ true = ground arith in
    (
      (b ∷ bs) ∷ [],
      rw (split_loop, short, some_left) refl,
      append-nil (b ∷ bs),
      (omega arith, ground arith),
    )

split_loop-Cuts :
    (fuel lim : ℕ) (buf : List ℕ)
    → 0 < lim
    → length buf < fuel
    → Cuts lim buf (split_loop fuel lim buf)
unfolding split_loop flatten
split_loop-Cuts zero lim buf pos enough = ground (arith, enough)
split_loop-Cuts (suc fuel) lim buf pos enough = elim (Bool-cases (leb lim (length buf))) [
  | inl full ↦
      let le : lim ≤ length buf = ground arith in
      let (chunks, e, whole, cut) =
        split_loop-Cuts fuel lim (drop lim buf) pos (omega (arith, length-drop lim buf)) in
      (
        take lim buf ∷ chunks,
        rw (split_loop, full, e) refl,
        ap (λ t. take lim buf ++ t) whole ∙ take-append-drop lim buf,
        IsCut-cons lim (take lim buf) chunks pos (omega (arith, length-take lim buf)) cut,
      )
  | inr short ↦ split_loop-rest fuel lim buf short
]

-- For every size above 0 `Split` returns without a panic chunks that are together the data in its
-- order, each of the full size, but for the last, which is not empty and no longer than that.
pub split-IsCut :
    (buf : List ℕ) (lim : ℕ)
    → 0 < lim
    → (chunks : List (List ℕ)) × (split buf lim ≡ some chunks)
      × (flatten chunks ≡ buf)
      × IsCut lim chunks
unfolding split
split-IsCut buf lim pos =
    let (chunks, e, whole, cut) = split_loop-Cuts (suc (length buf)) lim buf pos (omega arith) in
    let positive : (lim == 0) ≡ false = ground arith in (chunks, rw positive e, whole, cut)

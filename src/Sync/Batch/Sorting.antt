-- ===== src/Sync/Batch/Sorting.antt =====
-- The sorting of heights in `commitBatch` of pkg/sync/grpc.go, and lists in another order.
use blobcast.Prelude.{
  ℕ, ◌≤◌, ◌≡◌, refl, ap, ◌∙◌, some, List, [], ◌∷◌, leb, leb→le, Bool-cases, inl, inr, All, arith,
}
use blobcast.Sync.Submit.Answers.{some-injective}
use blobcast.Sync.Batch.{insert_sorted, sort, last}

-- The same elements in another order.
pub data Reorders {A : Type 0} : List A → List A → Type 0 where
  same : {xs : List A} → Reorders xs xs
  keep : {x : A} {xs ys : List A} → Reorders xs ys → Reorders (x ∷ xs) (x ∷ ys)
  exchange : {x y : A} {xs : List A} → Reorders (x ∷ y ∷ xs) (y ∷ x ∷ xs)
  and_then : {xs ys zs : List A} → Reorders xs ys → Reorders ys zs → Reorders xs zs

insert_sorted_comm :
    (x y : ℕ) (l : List ℕ)
    → insert_sorted x (insert_sorted y l) ≡ insert_sorted y (insert_sorted x l)
unfolding insert_sorted
insert_sorted_comm x y [] = ground arith
insert_sorted_comm x y (z ∷ l) = ground (arith, insert_sorted_comm x y l)

pub sort-Reorders : {xs ys : List ℕ} → Reorders xs ys → sort xs ≡ sort ys
unfolding sort
sort-Reorders same = refl
sort-Reorders (keep {x = x} r) = ap (insert_sorted x) (sort-Reorders r)
sort-Reorders (exchange {x = x} {y = y} {xs = xs}) = insert_sorted_comm x y (sort xs)
sort-Reorders (and_then r q) = sort-Reorders r ∙ sort-Reorders q

insert_sorted-Reorders : (x : ℕ) (l : List ℕ) → Reorders (x ∷ l) (insert_sorted x l)
unfolding insert_sorted
insert_sorted-Reorders x [] = same
insert_sorted-Reorders x (y ∷ l) = elim (Bool-cases (leb x y)) [
  | inl low ↦ rw low same
  | inr high ↦ rw high (and_then exchange (keep (insert_sorted-Reorders x l)))
]

pub Reorders-sort : (xs : List ℕ) → Reorders xs (sort xs)
unfolding sort
Reorders-sort [] = same
Reorders-sort (x ∷ xs) = and_then (keep (Reorders-sort xs)) (insert_sorted-Reorders x (sort xs))

-- The last of a sorted list is the greatest.
abbrev pub IsTop : ℕ → List ℕ → Type 0
IsTop top l = All (λ x. x ≤ top) l

IsTop-mono : (a b : ℕ) (l : List ℕ) → a ≤ b → IsTop a l → IsTop b l
IsTop-mono a b [] le h = tt
IsTop-mono a b (x ∷ l) le (hx, hl) = (omega arith, IsTop-mono a b l le hl)

-- Every element is at most the one behind it.
abbrev pub IsSorted : List ℕ → Type 0
IsSorted [] = Unit {0}
IsSorted (x ∷ l) = All (λ y. x ≤ y) l × IsSorted l

insert_sorted-All :
    (lo x : ℕ) (l : List ℕ) → lo ≤ x → All (λ y. lo ≤ y) l → All (λ y. lo ≤ y) (insert_sorted x l)
unfolding insert_sorted
insert_sorted-All lo x [] le h = (le, tt)
insert_sorted-All lo x (y ∷ l) le (hy, hl) = elim (Bool-cases (leb x y)) [
  | inl low ↦ rw low (le, (hy, hl))
  | inr high ↦ rw high (hy, insert_sorted-All lo x l le hl)
]

All-le : (x y : ℕ) (l : List ℕ) → x ≤ y → All (λ z. y ≤ z) l → All (λ z. x ≤ z) l
All-le x y [] le h = tt
All-le x y (z ∷ l) le (hz, hl) = (omega arith, All-le x y l le hl)

insert_sorted-IsSorted : (x : ℕ) (l : List ℕ) → IsSorted l → IsSorted (insert_sorted x l)
unfolding insert_sorted
insert_sorted-IsSorted x [] s = (tt, tt)
insert_sorted-IsSorted x (y ∷ l) (hy, s) = elim (Bool-cases (leb x y)) [
  | inl low ↦ let le : x ≤ y = leb→le x y low in rw low ((le, All-le x y l le hy), (hy, s))
  | inr high ↦ rw high (insert_sorted-All y x l (ground arith) hy, insert_sorted-IsSorted x l s)
]

pub sort-IsSorted : (xs : List ℕ) → IsSorted (sort xs)
unfolding sort
sort-IsSorted [] = tt
sort-IsSorted (x ∷ xs) = insert_sorted-IsSorted x (sort xs) (sort-IsSorted xs)

last-IsTop : (l : List ℕ) (top : ℕ) → IsSorted l → last l ≡ some top → IsTop top l
unfolding last
last-IsTop [] top s e = absurd (cc e)
last-IsTop (x ∷ []) top s e = (omega (arith, some-injective e), tt)
last-IsTop (x ∷ y ∷ l) top ((xy, xl), s) e =
    let (ytop, rest) = last-IsTop (y ∷ l) top s e in (omega arith, (ytop, rest))

insert_sorted-below :
    (top x : ℕ) (l : List ℕ) → IsTop top (insert_sorted x l) → (x ≤ top) × IsTop top l
unfolding insert_sorted
insert_sorted-below top x [] h = h
insert_sorted-below top x (y ∷ l) h = elim (Bool-cases (leb x y)) [
  | inl low ↦ rw low at h
  | inr high ↦
      let (ytop, rest) : (y ≤ top) × IsTop top (insert_sorted x l) = rw high at h in
      let (xtop, others) = insert_sorted-below top x l rest in (xtop, (ytop, others))
]

sort-below : (top : ℕ) (xs : List ℕ) → IsTop top (sort xs) → IsTop top xs
unfolding sort
sort-below top [] h = tt
sort-below top (x ∷ xs) h =
    let (xtop, rest) = insert_sorted-below top x (sort xs) h in (xtop, sort-below top xs rest)

-- The last of the sorted heights is at least every height.
pub last-sort-IsTop : (xs : List ℕ) (top : ℕ) → last (sort xs) ≡ some top → IsTop top xs
last-sort-IsTop xs top e = sort-below top xs (last-IsTop (sort xs) top (sort-IsSorted xs) e)

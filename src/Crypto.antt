-- ===== src/Crypto.antt =====
-- pkg/crypto/crypto.go: hashes. BLAKE3 is not part of the repository: it is the parameter `Blake3`.
pub mod Injective
pub mod Merkle
pub mod Mmr
use mathlib.Core.Path.{subst}
use blobcast.Prelude.{
  ℕ, zero, suc, ◌≡◌, Bool, true, false, Option, none, some, List, [], ◌∷◌, ◌++◌, ◌&&◌, length, take,
  take-all, length-take, replicate, ltb, le→not_ltb, ◌==◌, ◌≤◌, ◌↔◌, Bool-cases, inl, inr,
  if◌then◌else◌, ap, ap₂, refl, ◌∙◌, arith, sym, append-nil,
}

-- What the code uses of lukechampine.com/blake3: a function into arrays of 32 bytes.
pub record Blake3 : Type 0 where
  pub sum256 : List ℕ → List ℕ
  pub sum256_length : (d : List ℕ) → length (sum256 d) ≡ 32

-- `type Hash [32]byte`, as the list of its bytes.
abbrev pub Hash : Type 0
Hash = List ℕ

abbrev pub IsHash : Hash → Type 0
IsHash h = length h ≡ 32

-- `bytes.Equal`
unfoldable pub bytes_equal : List ℕ → List ℕ → Bool
bytes_equal [] [] = true
bytes_equal [] (y ∷ ys) = false
bytes_equal (x ∷ xs) [] = false
bytes_equal (x ∷ xs) (y ∷ ys) = (x == y) && bytes_equal xs ys

abbrev pub zero_hash : Hash
zero_hash = replicate 32 0

unfoldable pub is_zero : Hash → Bool
unfolding bytes_equal
is_zero h = bytes_equal h zero_hash

unfoldable pub equal_bytes : Hash → List ℕ → Bool
unfolding bytes_equal
equal_bytes h other = bytes_equal h other

-- The conversion `crypto.Hash(b)` of a slice, which panics if `b` is shorter than the array.
unfoldable pub hash_of_slice : List ℕ → Option Hash
hash_of_slice b = if ltb (length b) 32 then none else some (take 32 b)

abbrev pub concat : List (List ℕ) → List ℕ
concat [] = []
concat (d ∷ ds) = d ++ concat ds

module _ (B : Blake3) where
  unfoldable pub hash_bytes : List (List ℕ) → Hash
  hash_bytes (d ∷ []) = B.sum256 d
  hash_bytes ds = B.sum256 (concat ds)

  pub hash_bytes-concat : (ds : List (List ℕ)) → hash_bytes ds ≡ B.sum256 (concat ds)
  unfolding hash_bytes
  hash_bytes-concat [] = refl
  hash_bytes-concat (d ∷ []) = ap B.sum256 (sym (append-nil d))
  hash_bytes-concat (d ∷ e ∷ ds) = refl

pub bytes_equal_self : (xs : List ℕ) → bytes_equal xs xs ≡ true
unfolding bytes_equal
bytes_equal_self [] = refl
bytes_equal_self (x ∷ xs) = ground (arith, bytes_equal_self xs)

pub bytes_equal→eq : (xs ys : List ℕ) → bytes_equal xs ys ≡ true → xs ≡ ys
unfolding bytes_equal
bytes_equal→eq [] [] h = refl
bytes_equal→eq [] (y ∷ ys) h = cc
bytes_equal→eq (x ∷ xs) [] h = cc
bytes_equal→eq (x ∷ xs) (y ∷ ys) h = ground (arith, bytes_equal→eq xs ys)

pub bytes_equal_iff : (xs ys : List ℕ) → (bytes_equal xs ys ≡ true) ↔ (xs ≡ ys)
bytes_equal_iff xs ys =
    (bytes_equal→eq xs ys, λ e. subst (λ t. bytes_equal xs t ≡ true) e (bytes_equal_self xs))

-- The conversion of a slice to a hash.
pub hash_of_slice-IsHash : (b : List ℕ) (h : Hash) → hash_of_slice b ≡ some h → IsHash h
unfolding hash_of_slice
hash_of_slice-IsHash b h e = elim (Bool-cases (ltb (length b) 32)) [
  | inl short ↦ absurd (cc (rw short at e))
  | inr long ↦
      let same : take 32 b ≡ h = cc (rw long at e) in rw (← same) (length-take 32 b ∙ ground arith)
]

pub hash_of_slice-whole : (h : Hash) → IsHash h → hash_of_slice h ≡ some h
unfolding hash_of_slice
hash_of_slice-whole h is =
    rw (le→not_ltb (length h) 32 (omega (arith, is)), ← is) (ap some (take-all h))

pub hash_of_slice-long : (c : List ℕ) → 32 ≤ length c → (h : Hash) × (hash_of_slice c ≡ some h)
unfolding hash_of_slice
hash_of_slice-long c long = (take 32 c, rw (le→not_ltb (length c) 32 long))

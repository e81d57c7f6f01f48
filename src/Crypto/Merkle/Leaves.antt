-- ===== src/Crypto/Merkle/Leaves.antt =====
-- The lowest level of the tree of pkg/crypto/merkle/merkle.go: leaves hashed behind their indices.
use blobcast.Prelude.{
  ℕ, ◌+◌, ◌^◌, ◌≤◌, ◌<◌, ◌≡◌, refl, sym, ap, ◌∙◌, inl, inr, List, [], ◌∷◌, ◌++◌, length, append-nil,
  All, arith,
}
use blobcast.Util.{bytes_from_uint64, get_little, put_little}
use blobcast.Util.RoundTrip.{length-put_little, get_little-put_little}
use blobcast.Crypto.{Blake3, IsHash}
use blobcast.Crypto.Injective.{Occurs, append_cancel}
use blobcast.Crypto.Merkle.{leaf_nodes}
use blobcast.Crypto.Merkle.Below.{Repeats}

abbrev pub leaf_inputs : ℕ → List (List ℕ) → List (List ℕ)
leaf_inputs i [] = []
leaf_inputs i (leaf ∷ leaves) = (bytes_from_uint64 i ++ (leaf ++ [])) ∷ leaf_inputs (i + 1) leaves

module _ (B : Blake3) where
  pub leaf_nodes-IsHash : (i : ℕ) (leaves : List (List ℕ)) → All IsHash (leaf_nodes B i leaves)
  unfolding leaf_nodes
  leaf_nodes-IsHash i [] = tt
  leaf_nodes-IsHash i (leaf ∷ leaves) = (B.sum256_length _, leaf_nodes-IsHash (i + 1) leaves)

index_injective :
    (i j : ℕ) (a b : List ℕ)
    → i < 2 ^ 64
    → j < 2 ^ 64
    → bytes_from_uint64 i ++ a ≡ bytes_from_uint64 j ++ b
    → (i ≡ j) × (a ≡ b)
unfolding bytes_from_uint64
index_injective i j a b hi hj e =
    let (p, q) =
      append_cancel (put_little 8 i) a (put_little 8 j) b
        (length-put_little 8 i ∙ sym (length-put_little 8 j)) e in
    (sym (get_little-put_little 8 i hi) ∙ ap get_little p ∙ get_little-put_little 8 j hj, q)

module _ (B : Blake3) (Used : List ℕ → Type 0)
    (injective : (a b : List ℕ) → Used a → Used b → B.sum256 a ≡ B.sum256 b → a ≡ b) where
  leaf_fresh :
      (i j : ℕ) (leaf : List ℕ) (leaves : List (List ℕ))
      → i < j
      → j + length leaves ≤ 2 ^ 64
      → Used (bytes_from_uint64 i ++ (leaf ++ []))
      → All Used (leaf_inputs j leaves)
      → Occurs (B.sum256 (bytes_from_uint64 i ++ (leaf ++ []))) (leaf_nodes B j leaves)
      → ⊥
  unfolding leaf_nodes
  leaf_fresh i j leaf [] l h u us o = o
  leaf_fresh i j leaf (x ∷ leaves) l h u (v, us) (inl e) = absurd (
      omega (
        arith,
        (index_injective i j (leaf ++ []) (x ++ []) (omega arith) (omega arith)
            (injective _ _ u v e)).0,
      ))
  leaf_fresh i j leaf (x ∷ leaves) l h u (v, us) (inr o) =
      leaf_fresh i (j + 1) leaf leaves (omega arith) (omega arith) u us o

  -- No two leaves have one hash: their indices differ.
  pub leaves_distinct :
      (i : ℕ) (leaves : List (List ℕ))
      → i + length leaves ≤ 2 ^ 64
      → All Used (leaf_inputs i leaves)
      → Repeats (leaf_nodes B i leaves)
      → ⊥
  unfolding leaf_nodes
  leaves_distinct i [] h us o = o
  leaves_distinct i (x ∷ leaves) h (u, us) (inl o) =
      leaf_fresh i (i + 1) x leaves (omega arith) (omega arith) u us o
  leaves_distinct i (x ∷ leaves) h (u, us) (inr o) =
      leaves_distinct (i + 1) leaves (omega arith) us o

  pub leaf_nodes_injective :
      (i : ℕ) (xs ys : List (List ℕ))
      → i + length xs ≤ 2 ^ 64
      → i + length ys ≤ 2 ^ 64
      → All Used (leaf_inputs i xs)
      → All Used (leaf_inputs i ys)
      → leaf_nodes B i xs ≡ leaf_nodes B i ys
      → xs ≡ ys
  unfolding leaf_nodes
  leaf_nodes_injective i [] [] hx hy us vs e = refl
  leaf_nodes_injective i [] (y ∷ ys) hx hy us vs e = cc
  leaf_nodes_injective i (x ∷ xs) [] hx hy us vs e = cc
  leaf_nodes_injective i (x ∷ xs) (y ∷ ys) hx hy (u, us) (v, vs) e =
      let (_, p) =
        index_injective i i (x ++ []) (y ++ []) (omega arith) (omega arith)
          (injective _ _ u v (cc)) in
      cc (
        sym (append-nil x) ∙ p ∙ append-nil y,
        leaf_nodes_injective (i + 1) xs ys (omega arith) (omega arith) us vs (cc),
      )

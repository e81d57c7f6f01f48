-- ===== src/Crypto/Merkle/Levels.antt =====
-- The levels of the tree of pkg/crypto/merkle/merkle.go, and the end of its loop.
use blobcast.Prelude.{
  ℕ, zero, suc, ◌+◌, ◌*◌, ◌≤◌, ◌≡◌, refl, ap, inl, inr, List, [], ◌∷◌, ◌++◌, length, ltb, ltb→lt,
  arith, Bool-cases,
}
use native.Mathlib.Nat.{add-zero, add-suc}
use blobcast.Crypto.{Blake3, Hash}
use blobcast.Crypto.Merkle.{leaf_nodes, pair_up, merkle_loop}

-- The input of a pair's hash.
abbrev pub pair_input : Hash → Hash → List ℕ
pair_input l r = l ++ (r ++ [])

module _ (B : Blake3) where
  pub length-pair_up :
      (nodes : List Hash)
      → (length nodes ≤ 2 * length (pair_up B nodes))
        × (2 * length (pair_up B nodes) ≤ length nodes + 1)
  unfolding pair_up
  length-pair_up [] = omega arith
  length-pair_up (l ∷ []) = omega arith
  length-pair_up (l ∷ r ∷ nodes) = omega (arith, length-pair_up nodes)

  pub length-leaf_nodes :
      (i : ℕ) (leaves : List (List ℕ)) → length (leaf_nodes B i leaves) ≡ length leaves
  unfolding leaf_nodes
  length-leaf_nodes i [] = refl
  length-leaf_nodes i (l ∷ leaves) = ap suc (length-leaf_nodes (i + 1) leaves)

  -- With as much fuel as nodes the loop leaves exactly one of them.
  pub merkle_loop_one :
      (fuel : ℕ) (nodes : List Hash)
      → length nodes ≤ fuel
      → 1 ≤ length nodes
      → length (merkle_loop B fuel nodes) ≡ 1
  unfolding merkle_loop
  merkle_loop_one zero nodes h p = absurd (omega arith)
  merkle_loop_one (suc fuel) nodes h p = elim (Bool-cases (ltb 1 (length nodes))) [
    | inl more ↦ rw more (
        merkle_loop_one fuel (pair_up B nodes)
          (omega (arith, length-pair_up nodes, ltb→lt 1 (length nodes) more))
          (omega (arith, length-pair_up nodes)))
    | inr done ↦ rw done (ground arith)
  ]

  -- `k` rounds, whatever the length.
  unfoldable pub rounds : ℕ → List Hash → List Hash
  rounds zero nodes = nodes
  rounds (suc k) nodes = rounds k (pair_up B nodes)

  pub rounds-add : (d m : ℕ) (nodes : List Hash) → rounds (d + m) nodes ≡ rounds d (rounds m nodes)
  unfolding rounds
  rounds-add d zero nodes = rw add-zero refl
  rounds-add d (suc m) nodes = rw add-suc (rounds-add d m (pair_up B nodes))

-- ===== src/Crypto/Merkle.antt =====
-- pkg/crypto/merkle/merkle.go. A `MerkleNode` is its hash here: `Left` and `Right` are never read.
pub mod Levels
pub mod Below
pub mod Leaves
pub mod Trace
pub mod Binding
use blobcast.Prelude.{
  ℕ, zero, suc, ◌+◌, ◌≤◌, ◌≡◌, Bool, List, [], ◌∷◌, ◌++◌, length, ltb, if◌then◌else◌, arith,
}
use blobcast.Util.{bytes_from_uint64}
use blobcast.Crypto.{Blake3, Hash, zero_hash, hash_bytes}

-- `nodes[0]`; the loop leaves one node.
unfoldable pub first : List Hash → Hash
first [] = zero_hash
first (node ∷ nodes) = node

module _ (B : Blake3) where
  -- The hashes of the leaves, each behind its index.
  unfoldable pub leaf_nodes : ℕ → List (List ℕ) → List Hash
  unfolding hash_bytes
  leaf_nodes i [] = []
  leaf_nodes i (leaf ∷ leaves) =
      hash_bytes B (bytes_from_uint64 i ∷ leaf ∷ []) ∷ leaf_nodes (i + 1) leaves

  -- One round of the outer loop: a last node without a partner is paired with itself.
  unfoldable pub pair_up : List Hash → List Hash
  unfolding hash_bytes
  pair_up [] = []
  pair_up (left ∷ []) = hash_bytes B (left ∷ left ∷ []) ∷ []
  pair_up (left ∷ right ∷ nodes) = hash_bytes B (left ∷ right ∷ []) ∷ pair_up nodes

  -- `for len(nodes) > 1`, on fuel.
  unfoldable pub merkle_loop : ℕ → List Hash → List Hash
  unfolding pair_up
  merkle_loop zero nodes = nodes
  merkle_loop (suc fuel) nodes =
      let rest = merkle_loop fuel (pair_up nodes) in if ltb 1 (length nodes) then rest else nodes

  -- Each round leaves at most half of the nodes, rounded up, so as many rounds as leaves suffice.
  unfoldable pub calculate_merkle_root : List (List ℕ) → Hash
  calculate_merkle_root [] = zero_hash
  calculate_merkle_root (leaf ∷ leaves) =
      first (merkle_loop (length (leaf ∷ leaves)) (leaf_nodes 0 (leaf ∷ leaves)))

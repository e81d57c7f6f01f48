-- ===== src/Runs/Hashes.antt =====
-- Trees and ranges at concrete inputs.
use blobcast.Prelude.{ℕ, ◌≡◌, refl, true, List, [], ◌∷◌, ◌++◌, length, arith}
use blobcast.Prelude.Maps.{nat_eq, lookup, insert}
use blobcast.Util.{put_little, bytes_from_uint64}
use blobcast.Crypto.{bytes_equal, hash_bytes, is_zero}
use blobcast.Crypto.Injective.{no_collision, all_clear, clear, no_collision_sound}
use blobcast.Crypto.Merkle.{leaf_nodes, pair_up, merkle_loop}
use blobcast.Crypto.Merkle.Levels.{length-leaf_nodes, merkle_loop_one}
use blobcast.Crypto.Merkle.Trace.{merkle_inputs, loop_inputs}
use blobcast.Crypto.Merkle.Binding.{calculate_merkle_root_binding}
use blobcast.Crypto.Mmr.{Mmr, new_mmr, add_leaves, bag_peak, bag_peaks, bag_peaks_with_size}
use blobcast.Crypto.Mmr.Inputs.{NonzeroOn, node_inputs}
use blobcast.Crypto.Mmr.Counter.{IsMmr, new_mmr-IsMmr, add_leaves-IsMmr}
use blobcast.Crypto.Mmr.Proofs.{
  InclusionProof, climb, contains, hashes_equal, expected_peaks, hashes_at, verify_inclusion_proof,
}
use blobcast.Runs.Toy.{toy_blake3, toy_never_zero}

abbrev three_leaves : List (List ℕ)
three_leaves = (1 ∷ []) ∷ (2 ∷ 3 ∷ []) ∷ [] ∷ []

abbrev hashed : List (List ℕ)
hashed = merkle_inputs toy_blake3 three_leaves ++ merkle_inputs toy_blake3 three_leaves

no_collision-hashed : no_collision toy_blake3 hashed ≡ true
unfolding no_collision all_clear clear bytes_equal merkle_inputs loop_inputs leaf_nodes pair_up
    hash_bytes bytes_from_uint64 put_little
no_collision-hashed = refl

calculate_merkle_root_binding_example : three_leaves ≡ three_leaves
calculate_merkle_root_binding_example =
    calculate_merkle_root_binding toy_blake3 (1 ∷ []) (1 ∷ []) ((2 ∷ 3 ∷ []) ∷ [] ∷ [])
      ((2 ∷ 3 ∷ []) ∷ [] ∷ []) (omega arith) (omega arith) (omega arith) (omega arith)
      (no_collision_sound toy_blake3 hashed no_collision-hashed) refl

merkle_loop_one_example :
    length (merkle_loop toy_blake3 3 (leaf_nodes toy_blake3 0 three_leaves)) ≡ 1
merkle_loop_one_example =
    merkle_loop_one toy_blake3 3 (leaf_nodes toy_blake3 0 three_leaves)
      (omega (arith, length-leaf_nodes toy_blake3 0 three_leaves))
      (omega (arith, length-leaf_nodes toy_blake3 0 three_leaves))

-- No digest of this function is the zero hash.
toy_nonzero : (ds : List (List ℕ)) → NonzeroOn toy_blake3 ds
toy_nonzero [] = tt
toy_nonzero (d ∷ ds) = (toy_never_zero d, toy_nonzero ds)

add_leaves-IsMmr_example :
    IsMmr (add_leaves toy_blake3 new_mmr three_leaves)
    × ((add_leaves toy_blake3 new_mmr three_leaves).num_leaves ≡ 3)
add_leaves-IsMmr_example =
    add_leaves-IsMmr toy_blake3 new_mmr three_leaves new_mmr-IsMmr
      (toy_nonzero (node_inputs toy_blake3 new_mmr three_leaves)) (omega arith)

abbrev alone : Mmr
alone = record {
  peaks = [];
  nodes = insert 0 (9 ∷ []) [];
  leaf_indexes = [];
  num_leaves = 1;
  size = 1;
}

-- A proof of the only leaf, and one that says of it that its index is 5.
abbrev first_leaf : InclusionProof
first_leaf = record {
  leaf_index = 0;
  leaf_hash = 9 ∷ [];
  siblings = [];
  peaks = (9 ∷ []) ∷ [];
  mmr_size = 1;
}

abbrev fifth_leaf : InclusionProof
fifth_leaf = record first_leaf { leaf_index = 5 }

-- The one peak of a range of size 1 is at position 0.
abbrev peak_positions : ℕ → List ℕ
peak_positions size = 0 ∷ []

-- The proof of the wrong index is accepted.
wrong_index_accepted : verify_inclusion_proof toy_blake3 peak_positions alone fifth_leaf ≡ true
unfolding verify_inclusion_proof expected_peaks hashes_at climb contains hashes_equal
    bag_peaks_with_size bag_peaks bag_peak bytes_equal hash_bytes is_zero bytes_from_uint64
    put_little lookup insert
wrong_index_accepted = refl

-- ===== src/Crypto/Mmr/Proofs.antt =====
-- pkg/crypto/mmr/proofs.go: inclusion proofs.
use blobcast.Prelude.{
  ℕ, zero, suc, Bool, true, false, Option, none, some, List, [], ◌∷◌, ◌&&◌, if◌then◌else◌, leb, not,
}
use blobcast.Prelude.Maps.{Map, nat_eq, lookup}
use blobcast.Crypto.{Blake3, Hash, bytes_equal}
use blobcast.Crypto.Mmr.{Mmr, hash_with_position, peaks_lr, bag_peaks_with_size}
use blobcast.Crypto.Mmr.Position.{leaf_index_to_mmr_index, is_leaf, family, is_left_sibling}

pub record InclusionProof : Type 0 where
  pub leaf_index : ℕ
  pub leaf_hash : Hash
  pub siblings : List Hash
  pub peaks : List Hash
  pub mmr_size : ℕ

pub data ProofError : Type 0 where
  out_of_range not_a_leaf no_element missing_sibling : ProofError

-- `stuck` is no result of the code: the fuel ran out.
pub data ProofResult (A : Type 0) : Type 0 where
  proof : A → ProofResult A
  failed : ProofError → ProofResult A
  stuck : ProofResult A

sibling_found : Option Hash → ProofResult (List Hash) → ProofResult (List Hash)
sibling_found none rest = failed missing_sibling
sibling_found (some h) (proof hs) = proof (h ∷ hs)
sibling_found (some h) (failed e) = failed e
sibling_found (some h) stuck = stuck

-- The walk up the tree in `GenerateInclusionProof`.
unfoldable pub collect_siblings : ℕ → Mmr → ℕ → ProofResult (List Hash)
unfolding sibling_found
collect_siblings zero m pos = stuck
collect_siblings (suc fuel) m pos =
    let (parent, sibling) = family pos in
    let rest = sibling_found (lookup sibling m.nodes) (collect_siblings fuel m parent) in
    if leb m.size parent then proof [] else rest

with_siblings : Mmr → ℕ → Hash → ProofResult (List Hash) → ProofResult InclusionProof
with_siblings m i h (proof hs) =
    proof (record {
      leaf_index = i;
      leaf_hash = h;
      siblings = hs;
      peaks = peaks_lr m;
      mmr_size = m.size;
    })
with_siblings m i h (failed e) = failed e
with_siblings m i h stuck = stuck

with_leaf : Mmr → ℕ → Option Hash → ProofResult (List Hash) → ProofResult InclusionProof
unfolding with_siblings
with_leaf m i none hs = failed no_element
with_leaf m i (some h) hs = with_siblings m i h hs

-- A path has at most 64 steps: each goes up by one level.
unfoldable pub generate_inclusion_proof : Mmr → ℕ → ProofResult InclusionProof
unfolding with_leaf
generate_inclusion_proof m i =
    let pos : ℕ = leaf_index_to_mmr_index i in
    if leb m.num_leaves i
    then failed out_of_range
    else if not (is_leaf pos)
    then failed not_a_leaf
    else with_leaf m i (lookup pos m.nodes) (collect_siblings 64 m pos)

unfoldable pub contains : Hash → List Hash → Bool
contains h [] = false
contains h (peak ∷ peaks) = if bytes_equal peak h then true else contains h peaks

-- The hashes of the positions, or `none` if one is not stored.
unfoldable pub hashes_at : Map ℕ Hash → List ℕ → Option (List Hash)
hashes_at nodes [] = some []
hashes_at nodes (pos ∷ rest) = elim (lookup pos nodes) [
  | none ↦ none
  | some h ↦ elim (hashes_at nodes rest) [ none ↦ none | some hs ↦ some (h ∷ hs) ]
]

-- `positions` is `peakPositionsAtSize`, which takes a logarithm in floating point.
unfoldable pub expected_peaks : (ℕ → List ℕ) → Mmr → ℕ → Option (List Hash)
expected_peaks positions m size = hashes_at m.nodes (positions size)

-- `slices.Equal`
unfoldable pub hashes_equal : List Hash → List Hash → Bool
hashes_equal [] [] = true
hashes_equal [] (h ∷ hs) = false
hashes_equal (g ∷ gs) [] = false
hashes_equal (g ∷ gs) (h ∷ hs) = bytes_equal g h && hashes_equal gs hs

module _ (B : Blake3) where
  -- The hash that the siblings lead to, from the position and the hash that the proof names.
  unfoldable pub climb : ℕ → Hash → List Hash → Hash
  climb pos hash [] = hash
  climb pos hash (sibling ∷ siblings) =
      let (parent, sibling_pos) = family pos in
      climb parent
        (if is_left_sibling sibling_pos
          then hash_with_position B parent (sibling ∷ hash ∷ [])
          else hash_with_position B parent (hash ∷ sibling ∷ []))
        siblings

  check_peaks : InclusionProof → Option (List Hash) → Bool
  check_peaks p none = false
  check_peaks p (some expected) =
      if not (hashes_equal p.peaks expected)
      then false
      else bytes_equal (bag_peaks_with_size B expected p.mmr_size)
          (bag_peaks_with_size B p.peaks p.mmr_size)

  unfoldable pub verify_inclusion_proof : (ℕ → List ℕ) → Mmr → InclusionProof → Bool
  unfolding check_peaks
  verify_inclusion_proof positions m p =
      let top : Hash = climb (leaf_index_to_mmr_index p.leaf_index) p.leaf_hash p.siblings in
      if not (contains top p.peaks)
      then false
      else check_peaks p (expected_peaks positions m p.mmr_size)

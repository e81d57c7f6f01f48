-- ===== src/Crypto/Mmr.antt =====
-- pkg/crypto/mmr/mmr.go: the Merkle mountain range. `peaks` holds a peak for each height, the zero
-- hash where there is none; `nodes` holds the hash of each position.
pub mod Inputs
pub mod Counter
pub mod Position
pub mod Proofs
pub mod Snapshot
use blobcast.Prelude.{
  ℕ, ◌+◌, ◌%◌, ◌^◌, Option, List, [], ◌∷◌, ◌++◌, Bool, reverse, length, if◌then◌else◌, ◌==◌,
}
use blobcast.Prelude.Maps.{Map, Eq, nat_eq, lookup, insert}
use blobcast.Util.{bytes_from_uint64}
use blobcast.Crypto.{Blake3, Hash, zero_hash, is_zero, hash_bytes, bytes_equal, bytes_equal_iff}
use mathlib.Core.List.{foldl}

instance abbrev pub hash_eq : Eq Hash
hash_eq = record { beq = bytes_equal; beq_iff = bytes_equal_iff }

pub record Mmr : Type 0 where
  pub peaks : List Hash
  pub nodes : Map ℕ Hash
  pub leaf_indexes : Map Hash ℕ
  pub num_leaves : ℕ
  pub size : ℕ

abbrev pub new_mmr : Mmr
new_mmr = record { peaks = []; nodes = []; leaf_indexes = []; num_leaves = 0; size = 0 }

-- `peaksLR`: the nonzero peaks, the highest first.
unfoldable pub peaks_lr_loop : List Hash → List Hash → List Hash
peaks_lr_loop acc [] = acc
peaks_lr_loop acc (peak ∷ peaks) = peaks_lr_loop (if is_zero peak then acc else peak ∷ acc) peaks

unfoldable pub peaks_lr : Mmr → List Hash
peaks_lr m = peaks_lr_loop [] m.peaks

module _ (B : Blake3) where
  -- `hashWithPosition(pos, data...)`
  unfoldable pub hash_with_position : ℕ → List (List ℕ) → Hash
  hash_with_position pos data' = hash_bytes B (bytes_from_uint64 pos ∷ data')

  -- `LeafIndex`; `none` is the error "leaf not found".
  unfoldable pub leaf_index : Mmr → List ℕ → Option ℕ
  leaf_index m leaf = lookup (hash_bytes B (leaf ∷ [])) m.leaf_indexes

  -- The body of the loop in `bagPeaks`.
  unfoldable pub bag_peak : Hash → Hash → Hash
  bag_peak accum peak =
      if is_zero peak
      then accum
      else if is_zero accum
      then peak
      else hash_bytes B (peak ∷ accum ∷ [])

  -- The peaks are folded right to left.
  unfoldable pub bag_peaks : List Hash → Hash
  bag_peaks peaks = foldl bag_peak zero_hash (reverse peaks)

  unfoldable pub bag_peaks_with_size : List Hash → ℕ → Hash
  bag_peaks_with_size peaks size = hash_bytes B (bytes_from_uint64 size ∷ bag_peaks peaks ∷ [])

  unfoldable pub root : Mmr → Hash
  root m = if m.size == 0 then zero_hash else bag_peaks_with_size (peaks_lr m) m.size

  -- The loop of `AddLeaf`. The list is the peaks from the current height on; those below are
  -- zero and come back in front. The peak that `carry` meets is its left sibling.
  unfoldable pub carry_loop : Hash → ℕ → Map ℕ Hash → List Hash → List Hash × (Map ℕ Hash × ℕ)
  carry_loop carry size nodes [] = (carry ∷ [], (nodes, size))
  carry_loop carry size nodes (peak ∷ peaks) =
      let parent : Hash = hash_with_position size (peak ∷ carry ∷ []) in
      let (above, after) =
        carry_loop parent ((size + 1) % 2 ^ 64) (insert size parent nodes) peaks in
      if is_zero peak then (carry ∷ peaks, (nodes, size)) else (zero_hash ∷ above, after)

  -- `AddLeaf`: the new state; it returns the new root.
  unfoldable pub push_leaf : Mmr → List ℕ → Mmr
  push_leaf m leaf =
      let leaf_hash : Hash = hash_bytes B (leaf ∷ []) in
      let pos_hash : Hash = hash_with_position m.size (leaf_hash ∷ []) in
      let (peaks, (nodes, size)) =
        carry_loop pos_hash ((m.size + 1) % 2 ^ 64) (insert m.size pos_hash m.nodes) m.peaks in
      record {
        peaks = peaks;
        nodes = nodes;
        leaf_indexes = insert leaf_hash m.num_leaves m.leaf_indexes;
        num_leaves = (m.num_leaves + 1) % 2 ^ 64;
        size = size;
      }

  unfoldable pub add_leaf : Mmr → List ℕ → Mmr × Hash
  add_leaf m leaf = let m' : Mmr = push_leaf m leaf in (m', root m')

  unfoldable pub add_leaves : Mmr → List (List ℕ) → Mmr
  add_leaves m [] = m
  add_leaves m (leaf ∷ leaves) = add_leaves (add_leaf m leaf).0 leaves

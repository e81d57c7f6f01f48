-- ===== src/Crypto/Mmr/Snapshot.antt =====
-- pkg/crypto/mmr/snapshot.go: the byte form of a range, and its reading.
use blobcast.Prelude.{
  ℕ, zero, suc, ◌+◌, ◌-◌, ◌*◌, ◌^◌, Option, none, some, List, [], ◌∷◌, ◌++◌, length, take, drop,
  map, replicate, ltb, if◌then◌else◌,
}
use blobcast.Prelude.Maps.{Map, nat_eq, lookup, insert}
use blobcast.Prelude.Outcome.{Outcome, ok, err, panic, ◌>>=◌}
use blobcast.Util.{bytes_from_uint64, uint64_from_bytes}
use blobcast.Crypto.{Hash, zero_hash, is_zero, concat}
use blobcast.Crypto.Mmr.{Mmr, hash_eq}

-- A missing node is written as the zero hash.
unfoldable pub node_or_zero : Map ℕ Hash → ℕ → Hash
node_or_zero nodes pos = elim (lookup pos nodes) [ none ↦ zero_hash | some h ↦ h ]

-- The hashes of `count` positions from `pos` on.
unfoldable pub node_hashes : Map ℕ Hash → ℕ → ℕ → List Hash
node_hashes nodes zero pos = []
node_hashes nodes (suc count) pos = node_or_zero nodes pos ∷ node_hashes nodes count (pos + 1)

-- `sort.Slice` by the index; the indices of one map are distinct.
unfoldable pub insert_by_index : Hash × ℕ → List (Hash × ℕ) → List (Hash × ℕ)
insert_by_index e [] = e ∷ []
insert_by_index (h, i) ((g, j) ∷ es) =
    let rest = insert_by_index (h, i) es in if ltb i j then (h, i) ∷ (g, j) ∷ es else (g, j) ∷ rest

unfoldable pub sort_by_index : List (Hash × ℕ) → List (Hash × ℕ)
unfolding insert_by_index
sort_by_index [] = []
sort_by_index (e ∷ es) = insert_by_index e (sort_by_index es)

unfoldable pub sorted_leaves : Map Hash ℕ → List Hash
unfolding sort_by_index
sorted_leaves m = map (λ (e : Hash × ℕ). e.0) (sort_by_index m)

-- The buffer has room for `numLeaves` leaves: what no entry fills stays zero, and an entry too many
-- is out of range.
unfoldable pub snapshot : Mmr → Option (List ℕ)
snapshot m =
    let leaves : List Hash = sorted_leaves m.leaf_indexes in
    if ltb m.num_leaves (length leaves)
    then none
    else some (
        bytes_from_uint64 (length m.peaks)
        ++ (concat m.peaks
            ++ (bytes_from_uint64 m.size
                ++ (concat (node_hashes m.nodes m.size 0)
                    ++ (bytes_from_uint64 m.num_leaves
                        ++ (concat leaves ++ replicate (32 * (m.num_leaves - length leaves)) 0))))))

pub data RestoreError : Type 0 where
  too_short short_peaks short_num_nodes short_node short_leaf : RestoreError

-- The functions below take `snapshot[offset:]` in place of the offset.
unfoldable pub restore_peaks : ℕ → List ℕ → Outcome RestoreError (List Hash × List ℕ)
restore_peaks zero s = ok ([], s)
restore_peaks (suc n) s =
    let more = (do (hs, rest) ← restore_peaks n (drop 32 s); ok (take 32 s ∷ hs, rest)) in
    if ltb (length s) 32 then err short_peaks else more

-- Only nonzero hashes are stored.
unfoldable pub restore_nodes :
    ℕ → ℕ → Map ℕ Hash → List ℕ → Outcome RestoreError (Map ℕ Hash × List ℕ)
restore_nodes zero pos nodes s = ok (nodes, s)
restore_nodes (suc n) pos nodes s =
    let hash : Hash = take 32 s in
    let more =
      restore_nodes n (pos + 1) (if is_zero hash then nodes else insert pos hash nodes)
        (drop 32 s) in
    if ltb (length s) 32 then err short_node else more

unfoldable pub restore_leaves : ℕ → ℕ → Map Hash ℕ → List ℕ → Outcome RestoreError (Map Hash ℕ)
restore_leaves zero i leaf_indexes s = ok leaf_indexes
restore_leaves (suc n) i leaf_indexes s =
    let more = restore_leaves n (i + 1) (insert (take 32 s) i leaf_indexes) (drop 32 s) in
    if ltb (length s) 32 then err short_leaf else more

-- `binary.LittleEndian.Uint64` on the next 8 bytes; fewer panic.
unfoldable pub read_count : List ℕ → Outcome RestoreError (ℕ × List ℕ)
read_count s = elim (uint64_from_bytes s) [ none ↦ panic | some n ↦ ok (n, drop 8 s) ]

-- `make([]crypto.Hash, n)` panics beyond the size of the address space, 2^48 bytes.
unfoldable pub make_hashes : ℕ → Outcome RestoreError Unit
make_hashes n = if ltb (2 ^ 48) (32 * n) then panic else ok tt

-- What follows the peaks.
restore_rest : List Hash → List ℕ → Outcome RestoreError Mmr
restore_rest peaks s2 = do
  (num_nodes, s3) ← if ltb (length s2) 8 then err short_num_nodes else read_count s2
  (nodes, s4) ← restore_nodes num_nodes 0 [] s3
  (num_leaves, s5) ← read_count s4
  leaf_indexes ← restore_leaves num_leaves 0 [] s5
  ok (record {
    peaks = peaks;
    nodes = nodes;
    leaf_indexes = leaf_indexes;
    num_leaves = num_leaves;
    size = num_nodes;
  })

unfoldable pub restore : List ℕ → Outcome RestoreError Mmr
unfolding restore_rest
restore s = do
  (num_peaks, s1) ← if ltb (length s) 24 then err too_short else read_count s
  made ← make_hashes num_peaks
  (peaks, s2) ← restore_peaks num_peaks s1
  restore_rest peaks s2

-- ===== src/Crypto/Mmr/Counter.antt =====
-- The shape of the range of pkg/crypto/mmr/mmr.go under `AddLeaf`.
use native.Mathlib.Nat.{mod-eq_of_lt}
use blobcast.Prelude.{
  none, dec_lt, ℕ, ◌+◌, ◌*◌, ◌%◌, ◌^◌, ◌≤◌, ◌<◌, ◌≡◌, refl, true, false, some, List, [], ◌∷◌,
  Bool-cases, inl, inr, length, if◌then◌else◌, arith,
}
use blobcast.Prelude.Maps.{Map, nat_eq, lookup, insert, lookup-insert}
use mathlib.Core.Path.{subst}
use blobcast.Crypto.{bytes_equal, Blake3, Hash, zero_hash, is_zero, hash_bytes}
use blobcast.Crypto.Mmr.{
  Mmr, new_mmr, hash_with_position, carry_loop, push_leaf, add_leaf, add_leaves,
}
use blobcast.Crypto.Mmr.Inputs.{
  NonzeroOn, NonzeroOn-append, carry_inputs, leaf_inputs, node_inputs, hash_is_not_zero,
  carry_inputs-taken,
}

-- The number whose binary digits are the presence of the peaks, and how many there are.
abbrev pub counted : List Hash → ℕ
counted [] = 0
counted (p ∷ ps) = (if is_zero p then 0 else 1) + 2 * counted ps

abbrev pub present : List Hash → ℕ
present [] = 0
present (p ∷ ps) = (if is_zero p then 0 else 1) + present ps

-- Every position below the size is stored, and none from there on.
abbrev pub IsFull : Map ℕ Hash → ℕ → Type 0
IsFull nodes size =
    ((k : ℕ) → k < size → (h : Hash) × (lookup k nodes ≡ some h))
    × ((k : ℕ) → size ≤ k → lookup k nodes ≡ none)

pub record IsMmr (m : Mmr) : Type 0 where
  pub leaves : counted m.peaks ≡ m.num_leaves
  pub positions : m.size + present m.peaks ≡ 2 * m.num_leaves
  pub full : IsFull m.nodes m.size

present-le : (ps : List Hash) → present ps ≤ counted ps
present-le [] = omega arith
present-le (p ∷ ps) = ground (arith, present-le ps)

insert-IsFull :
    (nodes : Map ℕ Hash) (size : ℕ) (h : Hash)
    → IsFull nodes size
    → IsFull (insert size h nodes) (size + 1)
insert-IsFull nodes size h (below, above) = (
  λ k l. stored k l (dec_lt k size),
  λ k l. ground (arith, lookup-insert size k h nodes, above k),
)
  where
    stored :
        (k : ℕ)
        → k < size + 1
        → Dec (k < size)
        → (x : Hash) × (lookup k (insert size h nodes) ≡ some x)
    stored k l (yes b) = let (x, e) = below k b in (x, ground (arith, lookup-insert size k h nodes))
    stored k l (no b) = (h, ground (arith, lookup-insert size k h nodes))

zero_is_zero : is_zero zero_hash ≡ true
unfolding is_zero bytes_equal
zero_is_zero = refl

room :
    (p : Hash) (ps : List Hash) (size : ℕ)
    → is_zero p ≡ false
    → size + present (p ∷ ps) < 2 ^ 64
    → size + 1 < 2 ^ 64
room p ps size e h = ground arith

less :
    (p : Hash) (ps : List Hash) (size : ℕ)
    → is_zero p ≡ false
    → size + present (p ∷ ps) < 2 ^ 64
    → size + 1 + present ps < 2 ^ 64
less p ps size e h = ground arith

pub new_mmr-IsMmr : IsMmr new_mmr
unfolding lookup
new_mmr-IsMmr = record {
  leaves = refl;
  positions = refl;
  full = (λ k l. absurd (omega arith), λ k l. refl);
}

module _ (B : Blake3) where
  -- One carry: the counter goes up by one, and so does twice the leaves less the peaks, by the
  -- nodes that were stored; the nodes stay stored without a gap.
  carry_loop_counts :
      (carry : Hash) (size : ℕ) (nodes : Map ℕ Hash) (ps : List Hash)
      → is_zero carry ≡ false
      → NonzeroOn B (carry_inputs B carry size ps)
      → size + present ps < 2 ^ 64
      → (counted (carry_loop B carry size nodes ps).0 ≡ counted ps + 1)
        × ((carry_loop B carry size nodes ps).1.1 + present (carry_loop B carry size nodes ps).0
            ≡ size + present ps + 1)
        × ((carry_loop B carry size nodes ps).1.1 ≤ size + present ps)
  unfolding carry_loop carry_inputs
  carry_loop_counts carry size nodes [] c nz h = ground arith
  carry_loop_counts carry size nodes (p ∷ ps) c nz h = elim (Bool-cases (is_zero p)) [
    | inl free ↦ rw free (ground arith)
    | inr taken ↦
        let parent : Hash = hash_with_position B size (p ∷ carry ∷ []) in
        let fits : (size + 1) % 2 ^ 64 ≡ size + 1 = mod-eq_of_lt (room p ps size taken h) in
        let (here, above) = carry_inputs-taken B carry p size ps taken fits nz in
        let ih =
          carry_loop_counts parent (size + 1) (insert size parent nodes) ps
            (hash_is_not_zero B size (p ∷ carry ∷ []) here) above (less p ps size taken h) in
        rw (taken, fits, zero_is_zero) (omega (arith, ih))
  ]

  carry_loop-IsFull :
      (carry : Hash) (size : ℕ) (nodes : Map ℕ Hash) (ps : List Hash)
      → size + present ps < 2 ^ 64
      → IsFull nodes size
      → IsFull (carry_loop B carry size nodes ps).1.0 (carry_loop B carry size nodes ps).1.1
  unfolding carry_loop
  carry_loop-IsFull carry size nodes [] h f = f
  carry_loop-IsFull carry size nodes (p ∷ ps) h f = elim (Bool-cases (is_zero p)) [
    | inl free ↦ rw free f
    | inr taken ↦
        let parent : Hash = hash_with_position B size (p ∷ carry ∷ []) in
        let fits : (size + 1) % 2 ^ 64 ≡ size + 1 = mod-eq_of_lt (room p ps size taken h) in
        let ih =
          carry_loop-IsFull parent (size + 1) (insert size parent nodes) ps (less p ps size taken h)
            (insert-IsFull nodes size parent f) in
        rw (taken, fits) ih
  ]

  -- A range of fewer than 2^62 leaves stays one when a leaf is added, and has one leaf more.
  pub push_leaf-IsMmr :
      (m : Mmr) (leaf : List ℕ)
      → IsMmr m
      → NonzeroOn B (leaf_inputs B m leaf)
      → m.num_leaves < 2 ^ 62
      → IsMmr (push_leaf B m leaf) × ((push_leaf B m leaf).num_leaves ≡ m.num_leaves + 1)
  unfolding push_leaf leaf_inputs
  push_leaf-IsMmr m leaf v (here, above) h =
      let hash : Hash = hash_with_position B m.size (hash_bytes B (leaf ∷ []) ∷ []) in
      let nodes : Map ℕ Hash = insert m.size hash m.nodes in
      let fits : (m.size + 1) % 2 ^ 64 ≡ m.size + 1 = mod-eq_of_lt (omega (arith, v.positions)) in
      let one : (m.num_leaves + 1) % 2 ^ 64 ≡ m.num_leaves + 1 = mod-eq_of_lt (omega arith) in
      let small : m.size + 1 + present m.peaks < 2 ^ 64 = omega (arith, v.positions) in
      let counts =
        carry_loop_counts hash (m.size + 1) nodes m.peaks (hash_is_not_zero B m.size _ here)
          (subst (λ (t : ℕ). NonzeroOn B (carry_inputs B hash t m.peaks)) fits above) small in
      let full =
        carry_loop-IsFull hash (m.size + 1) nodes m.peaks small
          (insert-IsFull m.nodes m.size hash v.full) in
      (
        record {
          leaves = rw (push_leaf, fits, one) (omega (arith, counts, v.leaves));
          positions = rw (push_leaf, fits, one) (omega (arith, counts, v.positions));
          full = rw (push_leaf, fits) full;
        },
        one,
      )

  -- If none of the inputs that are hashed for the new nodes has the zero hash for its digest, then
  -- after any number of leaves up to 2^62 the range counts them: its peaks spell their number in
  -- binary, twice their number is its size and the number of its peaks, and every position below
  -- the size is stored.
  pub add_leaves-IsMmr :
      (m : Mmr) (leaves : List (List ℕ))
      → IsMmr m
      → NonzeroOn B (node_inputs B m leaves)
      → m.num_leaves + length leaves ≤ 2 ^ 62
      → IsMmr (add_leaves B m leaves)
        × ((add_leaves B m leaves).num_leaves ≡ m.num_leaves + length leaves)
  unfolding add_leaves add_leaf node_inputs
  add_leaves-IsMmr m [] v nz h = (v, omega arith)
  add_leaves-IsMmr m (leaf ∷ leaves) v nz h =
      let (first, others) =
        NonzeroOn-append B (leaf_inputs B m leaf) (node_inputs B (push_leaf B m leaf) leaves) nz in
      let (w, one) = push_leaf-IsMmr m leaf v first (omega arith) in
      let (u, sum) = add_leaves-IsMmr (push_leaf B m leaf) leaves w others (omega arith) in
      (u, omega (arith, one, sum))

-- ===== src/Crypto/Merkle/Binding.antt =====
-- Two runs of `CalculateMerkleRoot` of pkg/crypto/merkle/merkle.go that end in the same root.
use blobcast.Prelude.{
  ℕ, zero, suc, ◌+◌, ◌-◌, ◌^◌, ◌≤◌, ◌≡◌, ◌≢◌, refl, sym, ap, ◌∙◌, inl, inr, List, [], ◌∷◌, ◌++◌,
  length, length-append, All, arith,
}
use mathlib.Core.Path.{subst}
use native.Mathlib.Decide.{dec_le}
use blobcast.Util.{bytes_from_uint64, put_little}
use blobcast.Util.RoundTrip.{length-put_little}
use blobcast.Crypto.{Blake3, Hash, IsHash}
use blobcast.Crypto.Injective.{Occurs, InjectiveOn, Occurs-left, Occurs-right, All-of-Occurs}
use blobcast.Crypto.Merkle.{leaf_nodes, merkle_loop, first, calculate_merkle_root}
use blobcast.Crypto.Merkle.Levels.{length-leaf_nodes, merkle_loop_one, rounds, rounds-add}
use blobcast.Crypto.Merkle.Leaves.{
  leaf_inputs, leaf_nodes-IsHash, leaves_distinct, leaf_nodes_injective,
}
use blobcast.Crypto.Merkle.Trace.{
  loop_inputs, merkle_inputs, Trace, All-split, loop-Trace, rounds-IsHash, Trace-drop,
  Repeats-lowest, equal_lowest, pair_head,
}

length_prefix :
    (i : ℕ) (leaf : List ℕ) → length (bytes_from_uint64 i ++ (leaf ++ [])) ≡ 8 + length leaf
unfolding bytes_from_uint64
length_prefix i leaf = omega (
  arith,
  length-append (put_little 8 i) (leaf ++ []),
  length-append leaf [],
  length-put_little 8 i,
)

module _ (B : Blake3) (Used : List ℕ → Type 0)
    (injective : (a b : List ℕ) → Used a → Used b → B.sum256 a ≡ B.sum256 b → a ≡ b) where
  -- Trees of different heights: a leaf's hash is no hash of a pair.
  leaf_is_no_pair :
      (m : ℕ) (x : List ℕ) (xs : List (List ℕ)) (nodes : List Hash)
      → length x ≢ 56
      → All Used (leaf_inputs 0 (x ∷ xs))
      → 1 ≤ length nodes
      → All IsHash nodes
      → Trace B Used (suc m) nodes
      → leaf_nodes B 0 (x ∷ xs) ≡ rounds B (suc m) nodes
      → ⊥
  unfolding leaf_nodes
  leaf_is_no_pair m x xs nodes ne (u, us) h hs t e =
      let (i, rest, top, len, v) = pair_head B Used injective m nodes h hs t in
      let same : bytes_from_uint64 0 ++ (x ++ []) ≡ i = injective _ _ u v (cc (e, top)) in
      ne (omega (arith, length_prefix 0 x, ap (λ (l : List ℕ). length l) same))

  -- The tree over `ys` has `m` levels more than the one over `xs`.
  same_leaves :
      (d m : ℕ) (x y : List ℕ) (xs ys : List (List ℕ))
      → length (x ∷ xs) ≤ 2 ^ 64
      → length (y ∷ ys) ≤ 2 ^ 64
      → length x ≢ 56
      → All Used (leaf_inputs 0 (x ∷ xs))
      → All Used (leaf_inputs 0 (y ∷ ys))
      → Trace B Used d (leaf_nodes B 0 (x ∷ xs))
      → Trace B Used (d + m) (leaf_nodes B 0 (y ∷ ys))
      → rounds B d (leaf_nodes B 0 (x ∷ xs)) ≡ rounds B (d + m) (leaf_nodes B 0 (y ∷ ys))
      → x ∷ xs ≡ y ∷ ys
  same_leaves d m x y xs ys lx ly ne ux uy tx ty e =
      let hx = leaf_nodes-IsHash B 0 (x ∷ xs) in
      let hy = leaf_nodes-IsHash B 0 (y ∷ ys) in
      let (above, below) = Trace-drop B Used d m (leaf_nodes B 0 (y ∷ ys)) ty in
      let split =
        equal_lowest B Used injective d (leaf_nodes B 0 (x ∷ xs))
          (rounds B m (leaf_nodes B 0 (y ∷ ys))) hx (rounds-IsHash B Used m _ hy) tx above
          (e ∙ rounds-add B d m (leaf_nodes B 0 (y ∷ ys))) in
      elim split [
        | inl p ↦ level m below p
        | inr (inl r) ↦ absurd (leaves_distinct B Used injective 0 (x ∷ xs) (omega arith) ux r)
        | inr (inr r) ↦ absurd (
            leaves_distinct B Used injective 0 (y ∷ ys) (omega arith) uy
              (Repeats-lowest B Used injective m _ hy below r))
      ]
    where
      level :
          (k : ℕ)
          → Trace B Used k (leaf_nodes B 0 (y ∷ ys))
          → leaf_nodes B 0 (x ∷ xs) ≡ rounds B k (leaf_nodes B 0 (y ∷ ys))
          → x ∷ xs ≡ y ∷ ys
      level zero t p =
          leaf_nodes_injective B Used injective 0 (x ∷ xs) (y ∷ ys) (omega arith) (omega arith) ux
            uy (unfold rounds in p)
      level (suc k) t p = absurd (
          leaf_is_no_pair k x xs (leaf_nodes B 0 (y ∷ ys)) ne ux
            (omega (arith, length-leaf_nodes B 0 (y ∷ ys))) (leaf_nodes-IsHash B 0 (y ∷ ys)) t p)

  taller :
      (j k : ℕ) (x y : List ℕ) (xs ys : List (List ℕ))
      → length (x ∷ xs) ≤ 2 ^ 64
      → length (y ∷ ys) ≤ 2 ^ 64
      → length x ≢ 56
      → All Used (leaf_inputs 0 (x ∷ xs))
      → All Used (leaf_inputs 0 (y ∷ ys))
      → Trace B Used j (leaf_nodes B 0 (x ∷ xs))
      → Trace B Used k (leaf_nodes B 0 (y ∷ ys))
      → j ≤ k
      → rounds B j (leaf_nodes B 0 (x ∷ xs)) ≡ rounds B k (leaf_nodes B 0 (y ∷ ys))
      → x ∷ xs ≡ y ∷ ys
  taller j k x y xs ys lx ly ne ux uy tx ty l e =
      let sum : k ≡ j + (k - j) = omega arith in
      same_leaves j (k - j) x y xs ys lx ly ne ux uy tx
        (subst (λ t. Trace B Used t (leaf_nodes B 0 (y ∷ ys))) sum ty)
        (e ∙ ap (λ t. rounds B t (leaf_nodes B 0 (y ∷ ys))) sum)

single : (nodes : List Hash) → length nodes ≡ 1 → nodes ≡ first nodes ∷ []
unfolding first
single [] h = absurd (omega arith)
single (n ∷ []) h = refl
single (n ∷ o ∷ nodes) h = absurd (omega arith)

-- The loop over a list's leaves, as rounds whose inputs are all among `Used`.
top_rounds :
    (B : Blake3) (Used : List ℕ → Type 0) (x : List ℕ) (xs : List (List ℕ))
    → All Used (merkle_inputs B (x ∷ xs))
    → All Used (leaf_inputs 0 (x ∷ xs))
      × ((k : ℕ) × Trace B Used k (leaf_nodes B 0 (x ∷ xs))
          × (rounds B k (leaf_nodes B 0 (x ∷ xs)) ≡ calculate_merkle_root B (x ∷ xs) ∷ []))
unfolding merkle_inputs calculate_merkle_root
top_rounds B Used x xs us =
    let nodes : List Hash = leaf_nodes B 0 (x ∷ xs) in
    let n : ℕ = length (x ∷ xs) in
    let (ul, ur) = All-split B Used (leaf_inputs 0 (x ∷ xs)) (loop_inputs B n nodes) us in
    let (k, e, t) = loop-Trace B Used n nodes ur in
    let len : length nodes ≡ n = length-leaf_nodes B 0 (x ∷ xs) in
    let one : length (merkle_loop B n nodes) ≡ 1 =
      merkle_loop_one B n nodes (omega arith) (omega arith) in
    (ul, (k, t, sym e ∙ single (merkle_loop B n nodes) one))

-- Two nonempty lists of at most 2^64 leaves that have one Merkle root are the same list, if the
-- first leaf of neither has 56 bytes and the hash has no collision among the inputs that the two
-- computations feed to it. The lists may have different lengths.
pub calculate_merkle_root_binding :
    (B : Blake3) (x y : List ℕ) (xs ys : List (List ℕ))
    → length (x ∷ xs) ≤ 2 ^ 64
    → length (y ∷ ys) ≤ 2 ^ 64
    → length x ≢ 56
    → length y ≢ 56
    → InjectiveOn B (merkle_inputs B (x ∷ xs) ++ merkle_inputs B (y ∷ ys))
    → calculate_merkle_root B (x ∷ xs) ≡ calculate_merkle_root B (y ∷ ys)
    → x ∷ xs ≡ y ∷ ys
calculate_merkle_root_binding B x y xs ys lx ly nx ny safe e =
    let ins : List (List ℕ) = merkle_inputs B (x ∷ xs) ++ merkle_inputs B (y ∷ ys) in
    let Used : List ℕ → Type 0 = λ i. Occurs i ins in
    let (ux, (j, tx, px)) =
      top_rounds B Used x xs (All-of-Occurs Used _ (λ i o. Occurs-left i _ _ o)) in
    let (uy, (k, ty, py)) =
      top_rounds B Used y ys (All-of-Occurs Used _ (λ i o. Occurs-right i _ _ o)) in
    let top : rounds B j (leaf_nodes B 0 (x ∷ xs)) ≡ rounds B k (leaf_nodes B 0 (y ∷ ys)) =
      px ∙ ap (λ r. r ∷ []) e ∙ sym py in
    elim (dec_le j k) [
      | yes l ↦ taller B Used safe j k x y xs ys lx ly nx ux uy tx ty l top
      | no l ↦ sym (taller B Used safe k j y x ys xs ly lx ny uy ux ty tx (omega arith) (sym top))
    ]

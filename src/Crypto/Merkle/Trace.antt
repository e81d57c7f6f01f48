-- ===== src/Crypto/Merkle/Trace.antt =====
-- The whole run of the loop of pkg/crypto/merkle/merkle.go: what it feeds to the hash.
use blobcast.Prelude.{
  ℕ, zero, suc, ◌+◌, ◌≤◌, ◌≡◌, refl, ◌⊎◌, inl, inr, List, [], ◌∷◌, ◌++◌, length, length-append, All,
  arith, ltb, if◌then◌else◌, Bool-cases,
}
use native.Mathlib.Nat.{add-zero, add-suc}
use blobcast.Util.{bytes_from_uint64}
use blobcast.Crypto.{Blake3, Hash, IsHash}
use blobcast.Crypto.Merkle.{leaf_nodes, pair_up, merkle_loop}
use blobcast.Crypto.Merkle.Levels.{pair_input, rounds}
use blobcast.Crypto.Merkle.Below.{pair_inputs, Repeats, Repeats-below, equal_below}
use blobcast.Crypto.Merkle.Leaves.{leaf_inputs}

-- What the loop feeds to the hash, and what the whole computation does.
unfoldable pub loop_inputs : Blake3 → ℕ → List Hash → List (List ℕ)
unfolding pair_up
loop_inputs B zero nodes = []
loop_inputs B (suc fuel) nodes =
    let rest = loop_inputs B fuel (pair_up B nodes) in
    if ltb 1 (length nodes) then pair_inputs nodes ++ rest else []

unfoldable pub merkle_inputs : Blake3 → List (List ℕ) → List (List ℕ)
unfolding loop_inputs leaf_nodes bytes_from_uint64
merkle_inputs B leaves =
    leaf_inputs 0 leaves ++ loop_inputs B (length leaves) (leaf_nodes B 0 leaves)

module _ (B : Blake3) (Used : List ℕ → Type 0) where
  -- The pairs of `k` levels are among the inputs.
  abbrev pub Trace : ℕ → List Hash → Type 0
  Trace zero nodes = Unit
  Trace (suc k) nodes = All Used (pair_inputs nodes) × Trace k (pair_up B nodes)

  pub All-split : (xs ys : List (List ℕ)) → All Used (xs ++ ys) → All Used xs × All Used ys
  All-split [] ys h = (tt, h)
  All-split (x ∷ xs) ys (u, h) = let (p, q) = All-split xs ys h in ((u, p), q)

  pub loop-Trace :
      (fuel : ℕ) (nodes : List Hash)
      → All Used (loop_inputs B fuel nodes)
      → (k : ℕ) × (merkle_loop B fuel nodes ≡ rounds B k nodes) × Trace k nodes
  unfolding loop_inputs merkle_loop rounds
  loop-Trace zero nodes h = (0, refl, tt)
  loop-Trace (suc fuel) nodes h = elim (Bool-cases (ltb 1 (length nodes))) [
    | inl more ↦
        let (now, later) =
          All-split (pair_inputs nodes) (loop_inputs B fuel (pair_up B nodes)) (rw more at h) in
        let (k, e, t) = loop-Trace fuel (pair_up B nodes) later in (suc k, rw more e, (now, t))
    | inr done ↦ (0, rw done refl, tt)
  ]

  pair_up-IsHash : (nodes : List Hash) → All IsHash (pair_up B nodes)
  unfolding pair_up
  pair_up-IsHash [] = tt
  pair_up-IsHash (l ∷ []) = (B.sum256_length _, tt)
  pair_up-IsHash (l ∷ r ∷ nodes) = (B.sum256_length _, pair_up-IsHash nodes)

  pub rounds-IsHash : (k : ℕ) (nodes : List Hash) → All IsHash nodes → All IsHash (rounds B k nodes)
  unfolding rounds
  rounds-IsHash zero nodes h = h
  rounds-IsHash (suc k) nodes h = rounds-IsHash k (pair_up B nodes) (pair_up-IsHash nodes)

  suc-Trace :
      (d m : ℕ) (nodes : List Hash)
      → Trace (d + suc m) nodes
      → All Used (pair_inputs nodes) × Trace (d + m) (pair_up B nodes)
  suc-Trace d m nodes t = rw add-suc at t

  pub Trace-drop :
      (d m : ℕ) (nodes : List Hash)
      → Trace (d + m) nodes
      → Trace d (rounds B m nodes) × Trace m nodes
  unfolding rounds
  Trace-drop d zero nodes t = (rw add-zero at t, tt)
  Trace-drop d (suc m) nodes t =
      let (now, later) = suc-Trace d m nodes t in
      let (p, q) = Trace-drop d m (pair_up B nodes) later in (p, (now, q))

length-pair_input : (l r : Hash) → IsHash l → IsHash r → length (pair_input l r) ≡ 64
length-pair_input l r h k = omega (arith, length-append l (r ++ []), length-append r [])

module _ (B : Blake3) (Used : List ℕ → Type 0)
    (injective : (a b : List ℕ) → Used a → Used b → B.sum256 a ≡ B.sum256 b → a ≡ b) where
  pub Repeats-lowest :
      (k : ℕ) (nodes : List Hash)
      → All IsHash nodes
      → Trace B Used k nodes
      → Repeats (rounds B k nodes)
      → Repeats nodes
  unfolding rounds
  Repeats-lowest zero nodes h t r = r
  Repeats-lowest (suc k) nodes h (now, t) r =
      Repeats-below B Used injective nodes h now
        (Repeats-lowest k (pair_up B nodes) (pair_up-IsHash B Used nodes) t r)

  pub equal_lowest :
      (k : ℕ) (xs ys : List Hash)
      → All IsHash xs
      → All IsHash ys
      → Trace B Used k xs
      → Trace B Used k ys
      → rounds B k xs ≡ rounds B k ys
      → (xs ≡ ys) ⊎ (Repeats xs ⊎ Repeats ys)
  unfolding rounds
  equal_lowest zero xs ys hx hy tx ty e = inl e
  equal_lowest (suc k) xs ys hx hy (nx, tx) (ny, ty) e =
      elim (equal_lowest k (pair_up B xs) (pair_up B ys) (pair_up-IsHash B Used xs)
        (pair_up-IsHash B Used ys) tx ty e) [
          | inl p ↦ equal_below B Used injective xs ys hx hy nx ny p
          | inr (inl r) ↦ inr (inl (Repeats-below B Used injective xs hx nx r))
          | inr (inr r) ↦ inr (inr (Repeats-below B Used injective ys hy ny r))
        ]

  -- After a round, the first node is the hash of a pair.
  pub pair_head :
      (m : ℕ) (nodes : List Hash)
      → 1 ≤ length nodes
      → All IsHash nodes
      → Trace B Used (suc m) nodes
      → (i : List ℕ) × (rest : List Hash) × (rounds B (suc m) nodes ≡ B.sum256 i ∷ rest)
        × (length i ≡ 64)
        × Used i
  unfolding rounds pair_up
  pair_head m [] h hs t = absurd (omega arith)
  pair_head zero (a ∷ []) h (ha, _) ((u, _), _) =
      (pair_input a a, [], refl, length-pair_input a a ha ha, u)
  pair_head zero (a ∷ b ∷ nodes) h (ha, (hb, _)) ((u, _), _) =
      (pair_input a b, pair_up B nodes, refl, length-pair_input a b ha hb, u)
  pair_head (suc m) (a ∷ []) h hs (_, t) =
      pair_head m (pair_up B (a ∷ [])) (omega arith) (pair_up-IsHash B Used (a ∷ [])) t
  pair_head (suc m) (a ∷ b ∷ nodes) h hs (_, t) =
      pair_head m (pair_up B (a ∷ b ∷ nodes)) (omega arith) (pair_up-IsHash B Used (a ∷ b ∷ nodes))
        t

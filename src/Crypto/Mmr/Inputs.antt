-- ===== src/Crypto/Mmr/Inputs.antt =====
-- What `AddLeaf` of pkg/crypto/mmr/mmr.go hashes for the nodes of the range.
use blobcast.Util.{bytes_from_uint64}
use blobcast.Prelude.{ℕ, ◌+◌, ◌%◌, ◌^◌, ◌≡◌, false, List, [], ◌∷◌, ◌++◌, All, if◌then◌else◌}
use blobcast.Prelude.Maps.{nat_eq}
use blobcast.Crypto.{concat, hash_bytes-concat, Blake3, Hash, is_zero, hash_bytes}
use blobcast.Crypto.Mmr.{Mmr, hash_with_position, push_leaf}

-- The zero hash is the code's mark for "no peak": none of the inputs `ds` has it for its digest.
abbrev pub NonzeroOn : Blake3 → List (List ℕ) → Type 0
NonzeroOn B ds = All (λ d. is_zero (B.sum256 d) ≡ false) ds

pub NonzeroOn-append :
    (B : Blake3) (ds es : List (List ℕ)) → NonzeroOn B (ds ++ es) → NonzeroOn B ds × NonzeroOn B es
NonzeroOn-append B [] es h = (tt, h)
NonzeroOn-append B (d ∷ ds) es (hd, h) = let (p, q) = NonzeroOn-append B ds es h in ((hd, p), q)

module _ (B : Blake3) where
  abbrev pub position_input : ℕ → List (List ℕ) → List ℕ
  position_input pos ds = concat (bytes_from_uint64 pos ∷ ds)

  -- What is hashed for the nodes above a leaf, for the node of a leaf, and for the nodes of leaves.
  unfoldable pub carry_inputs : Hash → ℕ → List Hash → List (List ℕ)
  carry_inputs carry size [] = []
  carry_inputs carry size (peak ∷ peaks) =
      let parent : Hash = hash_with_position B size (peak ∷ carry ∷ []) in
      let above = carry_inputs parent ((size + 1) % 2 ^ 64) peaks in
      if is_zero peak then [] else (position_input size (peak ∷ carry ∷ []) ∷ above)

  unfoldable pub leaf_inputs : Mmr → List ℕ → List (List ℕ)
  leaf_inputs m leaf =
      let leaf_hash : Hash = hash_bytes B (leaf ∷ []) in
      position_input m.size (leaf_hash ∷ [])
      ∷ carry_inputs (hash_with_position B m.size (leaf_hash ∷ [])) ((m.size + 1) % 2 ^ 64) m.peaks

  unfoldable pub node_inputs : Mmr → List (List ℕ) → List (List ℕ)
  node_inputs m [] = []
  node_inputs m (leaf ∷ leaves) = leaf_inputs m leaf ++ node_inputs (push_leaf B m leaf) leaves

  pub hash_is_not_zero :
      (pos : ℕ) (ds : List (List ℕ))
      → is_zero (B.sum256 (position_input pos ds)) ≡ false
      → is_zero (hash_with_position B pos ds) ≡ false
  unfolding hash_with_position
  hash_is_not_zero pos ds h = rw (hash_bytes-concat B (bytes_from_uint64 pos ∷ ds)) h

  pub carry_inputs-taken :
      (carry p : Hash) (size : ℕ) (ps : List Hash)
      → is_zero p ≡ false
      → (size + 1) % 2 ^ 64 ≡ size + 1
      → NonzeroOn B (carry_inputs carry size (p ∷ ps))
      → (is_zero (B.sum256 (position_input size (p ∷ carry ∷ []))) ≡ false)
        × NonzeroOn B (carry_inputs (hash_with_position B size (p ∷ carry ∷ [])) (size + 1) ps)
  unfolding carry_inputs
  carry_inputs-taken carry p size ps taken fits nz = rw (taken, fits) at nz

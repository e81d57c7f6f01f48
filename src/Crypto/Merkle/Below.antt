-- ===== src/Crypto/Merkle/Below.antt =====
-- The levels of the tree of pkg/crypto/merkle/merkle.go: what a level says of the level below it,
-- where the hash has no collision among the inputs `Used`.
use blobcast.Prelude.{
  ℕ, ◌≡◌, refl, sym, ap, ◌∙◌, ◌⊎◌, inl, inr, List, [], ◌∷◌, ◌++◌, append-nil, All,
}
use blobcast.Crypto.{Blake3, Hash, IsHash, hash_bytes}
use blobcast.Crypto.Injective.{Occurs, append_cancel}
use blobcast.Crypto.Merkle.{pair_up}
use blobcast.Crypto.Merkle.Levels.{pair_input}

-- Some element stands in two places.
abbrev pub Repeats : List Hash → Type 0
Repeats [] = ⊥
Repeats (x ∷ xs) = Occurs x xs ⊎ Repeats xs

-- What the pairs of one level feed to the hash.
abbrev pub pair_inputs : List Hash → List (List ℕ)
pair_inputs [] = []
pair_inputs (l ∷ []) = pair_input l l ∷ []
pair_inputs (l ∷ r ∷ nodes) = pair_input l r ∷ pair_inputs nodes

module _ (B : Blake3) (Used : List ℕ → Type 0)
    (injective : (a b : List ℕ) → Used a → Used b → B.sum256 a ≡ B.sum256 b → a ≡ b) where
  pair_injective :
      (l r l' r' : Hash)
      → IsHash l
      → IsHash l'
      → Used (pair_input l r)
      → Used (pair_input l' r')
      → hash_bytes B (l ∷ r ∷ []) ≡ hash_bytes B (l' ∷ r' ∷ [])
      → (l ≡ l') × (r ≡ r')
  unfolding hash_bytes
  pair_injective l r l' r' h h' u u' e =
      let (p, q) = append_cancel l (r ++ []) l' (r' ++ []) (h ∙ sym h') (injective _ _ u u' e) in
      (p, sym (append-nil r) ∙ q ∙ append-nil r')

  -- A pair that occurs in a level has its left part below.
  Occurs-below :
      (l r : Hash) (nodes : List Hash)
      → IsHash l
      → All IsHash nodes
      → Used (pair_input l r)
      → All Used (pair_inputs nodes)
      → Occurs (hash_bytes B (l ∷ r ∷ [])) (pair_up B nodes)
      → Occurs l nodes
  unfolding pair_up
  Occurs-below l r [] h hs u us o = absurd o
  Occurs-below l r (a ∷ []) h (ha, hs) u (ua, us) (inl e) =
      inl (pair_injective l r a a h ha u ua e).0
  Occurs-below l r (a ∷ []) h hs u us (inr o) = absurd o
  Occurs-below l r (a ∷ b ∷ nodes) h (ha, hs) u (ua, us) (inl e) =
      inl (pair_injective l r a b h ha u ua e).0
  Occurs-below l r (a ∷ b ∷ nodes) h (ha, (hb, hs)) u (ua, us) (inr o) =
      inr (inr (Occurs-below l r nodes h hs u us o))

  pub Repeats-below :
      (nodes : List Hash)
      → All IsHash nodes
      → All Used (pair_inputs nodes)
      → Repeats (pair_up B nodes)
      → Repeats nodes
  unfolding pair_up
  Repeats-below [] hs us o = absurd o
  Repeats-below (a ∷ []) hs us (inl o) = absurd o
  Repeats-below (a ∷ []) hs us (inr o) = absurd o
  Repeats-below (a ∷ b ∷ nodes) (ha, (hb, hs)) (u, us) (inl o) =
      inl (inr (Occurs-below a b nodes ha hs u us o))
  Repeats-below (a ∷ b ∷ nodes) (ha, (hb, hs)) (u, us) (inr o) =
      inr (inr (Repeats-below nodes hs us o))

  -- Two levels with one upper level are equal, or one of them holds a repetition: the last node
  -- of an odd level is paired with itself.
  pub equal_below :
      (xs ys : List Hash)
      → All IsHash xs
      → All IsHash ys
      → All Used (pair_inputs xs)
      → All Used (pair_inputs ys)
      → pair_up B xs ≡ pair_up B ys
      → (xs ≡ ys) ⊎ (Repeats xs ⊎ Repeats ys)
  unfolding pair_up
  equal_below [] [] hx hy ux uy e = inl refl
  equal_below [] (c ∷ []) hx hy ux uy e = cc
  equal_below [] (c ∷ d ∷ ys) hx hy ux uy e = cc
  equal_below (a ∷ []) [] hx hy ux uy e = cc
  equal_below (a ∷ b ∷ xs) [] hx hy ux uy e = cc
  equal_below (a ∷ []) (c ∷ []) (ha, hx) (hc, hy) (u, ux) (v, uy) e =
      inl (ap (λ t. t ∷ []) (pair_injective a a c c ha hc u v (cc)).0)
  equal_below (a ∷ []) (c ∷ d ∷ ys) (ha, hx) (hc, hy) (u, ux) (v, uy) e =
      let (p, q) = pair_injective a a c d ha hc u v (cc) in inr (inr (inl (inl (sym p ∙ q))))
  equal_below (a ∷ b ∷ xs) (c ∷ []) (ha, hx) (hc, hy) (u, ux) (v, uy) e =
      let (p, q) = pair_injective a b c c ha hc u v (cc) in inr (inl (inl (inl (p ∙ sym q))))
  equal_below (a ∷ b ∷ xs) (c ∷ d ∷ ys) (ha, (hb, hx)) (hc, (hd, hy)) (u, ux) (v, uy) e =
      let (p, q) = pair_injective a b c d ha hc u v (cc) in
      elim (equal_below xs ys hx hy ux uy (cc)) [
        | inl t ↦ inl (cc (p, q, t))
        | inr (inl t) ↦ inr (inl (inr (inr t)))
        | inr (inr t) ↦ inr (inr (inr (inr t)))
      ]

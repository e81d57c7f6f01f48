-- ===== src/Types/Block/Cache.antt =====
-- `BlockHeader.Hash`, `UpdateHashCache` and `Block.Hash` of pkg/types/block.go: the hashes of
-- headers are cached under their heights, in a map of the package that every caller shares.
use blobcast.Prelude.{
  ==_iff, Bool-cases, map, ℕ, ◌≡◌, refl, sym, ap, ap₂, ◌∙◌, Option, none, some, List, [], ◌∷◌,
  Option-cases, inl, inr, ◌==◌, All,
}
use blobcast.Prelude.Maps.{Map, nat_eq, lookup, insert, lookup-insert, lookup-insert_self}
use blobcast.Crypto.{Blake3, Hash, hash_bytes}
use blobcast.Types.Block.{BlockHeader, Block, header_bytes}

abbrev pub HashCache : Type 0
HashCache = Map ℕ Hash

unfoldable pub update_hash_cache : HashCache → BlockHeader → Hash → HashCache
update_hash_cache c bh hash = insert bh.height hash c

module _ (B : Blake3) where
  hash_missing : HashCache → BlockHeader → Option Hash → Hash × HashCache
  hash_missing c bh (some hash) = (hash, c)
  hash_missing c bh none =
      let hash : Hash = hash_bytes B (header_bytes bh ∷ []) in (hash, insert bh.height hash c)

  unfoldable pub header_hash : HashCache → BlockHeader → Hash × HashCache
  unfolding hash_missing
  header_hash c bh = hash_missing c bh (lookup bh.height c)

  unfoldable pub block_hash : HashCache → Block → Hash × HashCache
  block_hash c b = header_hash c b.header

  -- Once a header of some height has been hashed, every header of that height gets its hash,
  -- whatever the other fields say.
  pub header_hash_sticky :
      (c : HashCache) (a b : BlockHeader)
      → a.height ≡ b.height
      → (header_hash (header_hash c a).1 b).0 ≡ (header_hash c a).0
  unfolding header_hash
  header_hash_sticky c a b e = elim (Option-cases (lookup a.height c)) [
    | inl miss ↦
        let h : Hash = hash_bytes B (header_bytes a ∷ []) in
        rw (miss, ← e, lookup-insert_self a.height h c) refl
    | inr (h, hit) ↦ rw (hit, ← e, hit) refl
  ]

  -- Each cached hash is that of the header that `at` names for its height.
  pub record IsCoherent (at : ℕ → BlockHeader) (c : HashCache) : Type 0 where
    pub cached :
        (k : ℕ) (h : Hash) → lookup k c ≡ some h → h ≡ hash_bytes B (header_bytes (at k) ∷ [])

  -- The caches and hashes of a run of calls.
  unfoldable pub hash_all : HashCache → List BlockHeader → List Hash × HashCache
  hash_all c [] = ([], c)
  hash_all c (bh ∷ bhs) =
      let (h, c') = header_hash c bh in let (hs, c'') = hash_all c' bhs in (h ∷ hs, c'')

  insert-IsCoherent :
      (at : ℕ → BlockHeader) (c : HashCache) (bh : BlockHeader)
      → IsCoherent at c
      → at bh.height ≡ bh
      → IsCoherent at (insert bh.height (hash_bytes B (header_bytes bh ∷ [])) c)
  insert-IsCoherent at c bh v e = record {
    cached = λ k h hit. elim (Bool-cases (bh.height == k)) [
      | inl same ↦
          let here =
            rw same at (lookup-insert bh.height k (hash_bytes B (header_bytes bh ∷ [])) c) in
          let k_eq : at k ≡ bh = ap at (sym ((==_iff bh.height k).0 same)) ∙ e in
          cc (hit, here, ap (λ (x : BlockHeader). hash_bytes B (header_bytes x ∷ [])) k_eq)
      | inr other ↦
          let there =
            rw other at (lookup-insert bh.height k (hash_bytes B (header_bytes bh ∷ [])) c) in
          v.cached k h (sym there ∙ hit)
    ];
  }

  header_hash-IsCoherent :
      (at : ℕ → BlockHeader) (c : HashCache) (bh : BlockHeader)
      → IsCoherent at c
      → at bh.height ≡ bh
      → ((header_hash c bh).0 ≡ hash_bytes B (header_bytes bh ∷ []))
        × IsCoherent at (header_hash c bh).1
  unfolding header_hash
  header_hash-IsCoherent at c bh v e = elim (Option-cases (lookup bh.height c)) [
    | inl miss ↦ rw miss (refl, insert-IsCoherent at c bh v e)
    | inr (h, hit) ↦
        rw hit (v.cached bh.height h hit ∙ ap (λ x. hash_bytes B (header_bytes x ∷ [])) e, v)
  ]

  -- From a coherent cache, each call of a run returns the hash of its own header, if the headers of
  -- one height are one header.
  pub hash_all-eq-map :
      (at : ℕ → BlockHeader) (c : HashCache) (bhs : List BlockHeader)
      → IsCoherent at c
      → All (λ bh. at bh.height ≡ bh) bhs
      → (hash_all c bhs).0 ≡ map (λ bh. hash_bytes B (header_bytes bh ∷ [])) bhs
  unfolding hash_all
  hash_all-eq-map at c [] v hs = refl
  hash_all-eq-map at c (bh ∷ bhs) v (e, hs) =
      let (p, w) = header_hash-IsCoherent at c bh v e in
      ap₂ (λ x xs. x ∷ xs) p (hash_all-eq-map at (header_hash c bh).1 bhs w hs)

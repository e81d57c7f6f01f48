-- ===== src/Sync/Stream/Chunks.antt =====
-- The chunks of a streamed block: pkg/grpc/sync/server.go reads them, and pkg/sync/grpc.go puts them
-- in maps.
use mathlib.Core.Path.{subst}
use blobcast.Prelude.{
  ℕ, ◌≡◌, suc, refl, sym, ap, ◌∙◌, Option, some, Option-cases, List, [], ◌∷◌, Bool-cases, inl, inr,
  length, All,
}
use blobcast.Prelude.Maps.{Map, lookup, insert, lookup-insert, lookup-insert_self}
use blobcast.Prelude.Outcome.{ok, bind-eq-ok}
use blobcast.Crypto.{
  Hash, IsHash, hash_of_slice, hash_of_slice-IsHash, hash_of_slice-whole, bytes_equal,
  bytes_equal_iff,
}
use blobcast.Crypto.Mmr.{hash_eq}
use blobcast.Types.Blob.{BlobIdentifier}
use blobcast.State.Keys.{prefix_key, chunk_hash_prefix}
use blobcast.State.Store.{Got, found, not_found, get_failed, Pebble}
use blobcast.State.Chain
use blobcast.Node.{Answer, existing}
use blobcast.Node.Checked.{existing-eq-ok}
use blobcast.Sync.Stream.{ChunkWithHash, each, chunk_with_hash, chunk_maps}

-- What a loop over a list gave, element by element.
abbrev pub Each : {A C : Type 0} → (A → C → Type 0) → List A → List C → Type 0
Each R [] [] = Unit {0}
Each R [] (c ∷ cs) = ⊥
Each R (a ∷ rest) [] = ⊥
Each R (a ∷ rest) (c ∷ cs) = R a c × Each R rest cs

pub each-Each :
    {A C : Type 0} (f : A → Answer C) (xs : List A) (cs : List C)
    → each f xs ≡ ok cs
    → Each (λ a c. f a ≡ ok c) xs cs
unfolding each
each-Each f [] [] e = tt
each-Each f [] (c ∷ cs) e = absurd (cc e)
each-Each f (a ∷ rest) cs e =
    let (c, is_c, e1) = bind-eq-ok (f a) _ e in
    let (ds, is_ds, e2) = bind-eq-ok (each f rest) _ e1 in
    let same : c ∷ ds ≡ cs = cc e2 in
    subst (λ l. Each (λ x y. f x ≡ ok y) (a ∷ rest) l) same (is_c, each-Each f rest ds is_ds)

pub Each-length :
    {A C : Type 0} (R : A → C → Type 0) (xs : List A) (cs : List C)
    → Each R xs cs
    → length cs ≡ length xs
Each-length R [] [] h = refl
Each-length R [] (c ∷ cs) h = elim h [ ]
Each-length R (a ∷ rest) [] h = elim h [ ]
Each-length R (a ∷ rest) (c ∷ cs) (r, h) = ap suc (Each-length R rest cs h)

module _ (P : Pebble) (s : Chain.ChainState P) where
  -- A map of chunks that says nothing but what the state says.
  abbrev pub Agrees : Map Hash (List ℕ) → Type 0
  Agrees m = (k : Hash) (v : List ℕ) → lookup k m ≡ some v → Chain.get_chunk P s k ≡ ok (some v)

  abbrev pub HashesAgree : Map Hash Hash → Type 0
  HashesAgree m = (k h : Hash) → lookup k m ≡ some h → Chain.get_chunk_hash P s k ≡ ok (some h)

  insert-agrees :
      {V : Type 0} (get : Hash → Chain.Res (Option V)) (key : Hash) (v : V) (m : Map Hash V)
      → get key ≡ ok (some v)
      → ((k : Hash) (u : V) → lookup k m ≡ some u → get k ≡ ok (some u))
      → (k : Hash) (u : V) → lookup k (insert key v m) ≡ some u
      → get k ≡ ok (some u)
  insert-agrees get key v m is old k u e = elim (Bool-cases (bytes_equal key k)) [
    | inl same ↦
        let it : v ≡ u = cc (rw same at (sym (lookup-insert key k v m) ∙ e)) in
        rw (← (bytes_equal_iff key k).0 same, ← it) is
    | inr other ↦ old k u (rw other at (sym (lookup-insert key k v m) ∙ e))
  ]

  -- A key that a map has keeps some value under an insertion.
  abbrev pub HasKey : {V : Type 0} → Hash → Map Hash V → Type 0
  HasKey {V} k m = (v : V) × (lookup k m ≡ some v)

  insert-HasKey :
      {V : Type 0} (key : Hash) (v : V) (m : Map Hash V) (k : Hash)
      → HasKey k m
      → HasKey k (insert key v m)
  insert-HasKey key v m k (u, has) = elim (Bool-cases (bytes_equal key k)) [
    | inl same ↦ (v, lookup-insert key k v m ∙ rw same refl)
    | inr other ↦ (u, lookup-insert key k v m ∙ rw other has)
  ]

  -- What the server read for a chunk.
  abbrev pub Read : BlobIdentifier → ChunkWithHash → Type 0
  Read id c = chunk_with_hash P s id ≡ ok c

  Read-parts :
      (id : BlobIdentifier) (c : ChunkWithHash)
      → Read id c
      → (h : Hash) × (Chain.get_chunk P s id.commitment ≡ ok (some c.chunk_data))
        × (Chain.get_chunk_hash P s id.commitment ≡ ok (some h))
        × (c.chunk_hash ≡ h)
  unfolding chunk_with_hash
  Read-parts id c e =
      let (bytes, is_bytes, e1) = bind-eq-ok (existing (Chain.get_chunk P s id.commitment)) _ e in
      let (h, is_h, e2) = bind-eq-ok (existing (Chain.get_chunk_hash P s id.commitment)) _ e1 in
      let same : record { chunk_data = bytes; chunk_hash = h } ≡ c = cc e2 in
      (
        h,
        existing-eq-ok P s (Chain.get_chunk P s id.commitment) bytes is_bytes
            ∙ ap (λ (x : ChunkWithHash). ok (some x.chunk_data)) same,
        existing-eq-ok P s (Chain.get_chunk_hash P s id.commitment) h is_h,
        sym (ap (λ (x : ChunkWithHash). x.chunk_hash) same),
      )

  get_chunk_hash-IsHash : (k h : Hash) → Chain.get_chunk_hash P s k ≡ ok (some h) → IsHash h
  unfolding Chain.get_chunk_hash
  get_chunk_hash-IsHash k h e = by_read (P.get s.db (prefix_key k chunk_hash_prefix)) refl
    where
      by_read : (g : Got) → P.get s.db (prefix_key k chunk_hash_prefix) ≡ g → IsHash h
      by_read not_found is = absurd (cc (rw (Chain.get_chunk_hash, is) at e))
      by_read get_failed is = absurd (cc (rw (Chain.get_chunk_hash, is) at e))
      by_read (found v) is = elim (Option-cases (hash_of_slice v)) [
        | inl short ↦ absurd (cc (rw (Chain.get_chunk_hash, is, short) at e))
        | inr (g, conv) ↦
            let same : g ≡ h = cc (rw (Chain.get_chunk_hash, is, conv) at e) in
            rw (← same) (hash_of_slice-IsHash v g conv)
      ]

  -- The maps of a block: what they say the state says, and they have the block's keys.
  pub record Mirrors (ids : List BlobIdentifier) (m : Map Hash (List ℕ)) (hashes : Map Hash Hash)
      : Type 0 where
    pub chunk_same :
        (k : Hash) (v : List ℕ) → lookup k m ≡ some v → Chain.get_chunk P s k ≡ ok (some v)
    pub hash_same :
        (k h : Hash) → lookup k hashes ≡ some h → Chain.get_chunk_hash P s k ≡ ok (some h)
    pub has_chunks : All (λ (id : BlobIdentifier). HasKey id.commitment m) ids
    pub has_hashes : All (λ (id : BlobIdentifier). HasKey id.commitment hashes) ids

  -- Keys that the maps had before the loop stay.
  pub record Grows (m m' : Map Hash (List ℕ)) (hashes hashes' : Map Hash Hash) : Type 0 where
    chunks_stay : (k : Hash) → HasKey k m → HasKey k m'
    hashes_stay : (k : Hash) → HasKey k hashes → HasKey k hashes'

  pub chunk_maps-Mirrors :
      (ids : List BlobIdentifier) (cs : List ChunkWithHash) (m : Map Hash (List ℕ))
      (hashes : Map Hash Hash)
      → Each Read ids cs
      → Agrees m
      → HashesAgree hashes
      → (m' : Map Hash (List ℕ)) × (hashes' : Map Hash Hash) × (chunk_maps ids cs m hashes
          ≡ ok (m', hashes'))
        × Mirrors ids m' hashes'
        × Grows m m' hashes hashes'
  unfolding chunk_maps
  chunk_maps-Mirrors [] [] m hashes h a b = (
    m,
    hashes,
    refl,
    record { chunk_same = a; hash_same = b; has_chunks = tt; has_hashes = tt },
    record { chunks_stay = λ k x. x; hashes_stay = λ k x. x },
  )
  chunk_maps-Mirrors [] (c ∷ cs) m hashes h a b = elim h [ ]
  chunk_maps-Mirrors (id ∷ ids) [] m hashes h a b = elim h [ ]
  chunk_maps-Mirrors (id ∷ ids) (c ∷ cs) m hashes (r, h) a b =
      let (g, is_bytes, is_hash, same) = Read-parts id c r in
      let key : Hash = id.commitment in
      let conv : hash_of_slice c.chunk_hash ≡ some g =
        ap hash_of_slice same ∙ hash_of_slice-whole g (get_chunk_hash-IsHash key g is_hash) in
      let (m', hashes', run, mirrors, grows) =
        chunk_maps-Mirrors ids cs (insert key c.chunk_data m) (insert key g hashes) h
          (insert-agrees (Chain.get_chunk P s) key c.chunk_data m is_bytes a)
          (insert-agrees (Chain.get_chunk_hash P s) key g hashes is_hash b) in
      (
        m',
        hashes',
        rw conv run,
        record {
          chunk_same = mirrors.chunk_same;
          hash_same = mirrors.hash_same;
          has_chunks = (
            grows.chunks_stay key (c.chunk_data, lookup-insert_self key c.chunk_data m),
            mirrors.has_chunks,
          );
          has_hashes =
              (grows.hashes_stay key (g, lookup-insert_self key g hashes), mirrors.has_hashes);
        },
        record {
          chunks_stay = λ k x. grows.chunks_stay k (insert-HasKey key c.chunk_data m k x);
          hashes_stay = λ k x. grows.hashes_stay k (insert-HasKey key g hashes k x);
        },
      )

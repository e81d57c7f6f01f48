-- ===== src/State/Transaction/Reads.antt =====
-- The readers of pkg/state/transaction.go after its writers.
use blobcast.Prelude.{
  ℕ, ◌≡◌, refl, ap, ◌∙◌, Bool, true, false, Option, none, some, List, [], ◌∷◌, ◌++◌, Option-cases,
  inl, inr, if◌then◌else◌, arith, ◌==◌,
}
use blobcast.Prelude.Maps.{Eq, Map, nat_eq, lookup-insert}
use blobcast.Prelude.Outcome.{bind-eq-ok, ok}
use blobcast.Crypto.{Hash, bytes_equal}
use blobcast.Crypto.Mmr.{hash_eq}
use blobcast.Types.Blob.{blob_bytes, BlobIdentifier}
use blobcast.State.Keys.{file_manifest_prefix, prefix_key, chunk_prefix, chunk_hash_prefix}
use blobcast.State.Store.{Pebble, Protobuf, FileManifest}
use blobcast.State.Chain
use blobcast.State.Transaction.{
  or_else, Transaction, Pointer, put_chunk, put_in, find_in, marshalled, put_file_manifest,
  tx_get_chunk, tx_get_chunk_hash, tx_get_file_manifest,
}

-- What a successful write to a map leaves under each key.
pub find_in-put_in :
    {K V : Type 0} ⦃e : Eq K⦄ (k j : K) (v : V) (o : Option (Map K V)) {m : Map K V}
    → put_in k v o ≡ ok m
    → find_in j (some m) ≡ (if e.beq k j then some v else find_in j o)
unfolding put_in find_in
find_in-put_in k j v none h = cc
find_in-put_in ⦃e⦄ k j v (some m) h = ground (arith, lookup-insert ⦃e = e⦄ k j v m)

-- The parts of a successful `PutChunk`.
pub put_chunk_parts :
    (tx : Transaction) {tx' : Transaction} (key : Hash) (value : List ℕ) (hash : Hash)
    → put_chunk tx key value hash ≡ ok tx'
    → (c : Map Hash (List ℕ)) × (h : Map Hash Hash) × (put_in key value tx.pending_chunks ≡ ok c)
      × (put_in key hash tx.pending_chunk_hashes ≡ ok h)
      × (tx' ≡ record tx {
        batch =
            tx.batch
            ++ ((prefix_key key chunk_prefix, value)
                ∷ (prefix_key key chunk_hash_prefix, hash)
                ∷ []);
        pending_chunks = some c;
        pending_chunk_hashes = some h;
      })
unfolding put_chunk
put_chunk_parts tx key value hash e =
    let (c, ec, rest) = bind-eq-ok (put_in key value tx.pending_chunks) _ e in
    let (h, eh, last) = bind-eq-ok (put_in key hash tx.pending_chunk_hashes) _ rest in
    (c, h, ec, eh, cc last)

pub put_file_manifest_parts :
    (M : Protobuf) (tx : Transaction) {tx' : Transaction} (at : Pointer) (id : BlobIdentifier)
    (m : FileManifest)
    → put_file_manifest M tx at id m ≡ ok tx'
    → (d : List ℕ) × (ms : Map Pointer FileManifest) × (M.marshal_file m ≡ some d)
      × (put_in at m tx.pending_file_manifests ≡ ok ms)
      × (tx' ≡ record tx {
        batch = tx.batch ++ ((prefix_key (blob_bytes id) file_manifest_prefix, d) ∷ []);
        pending_file_manifests = some ms;
      })
unfolding put_file_manifest marshalled
put_file_manifest_parts M tx at id m e = elim (Option-cases (M.marshal_file m)) [
  | inl no_bytes ↦ absurd (cc (rw no_bytes at e))
  | inr (d, ed) ↦
      let (ms, em, last) = bind-eq-ok (put_in at m tx.pending_file_manifests) _ (rw ed at e) in
      (d, ms, ed, em, cc last)
]

or_else-if :
    {V : Type 0} (b : Bool) (v : V) (o : Option V) (there : Chain.Res (Option V))
    → or_else (if b then some v else o) there ≡ (if b then ok (some v) else or_else o there)
or_else-if true v o there = refl
or_else-if false v o there = refl

module _ (P : Pebble) (s : Chain.ChainState P) where
  -- After `PutChunk` the transaction reads the chunk and its hash back, and every other key as
  -- before.
  pub tx_get_chunk-put_chunk :
      (tx tx' : Transaction) (key j : Hash) (value : List ℕ) (hash : Hash)
      → put_chunk tx key value hash ≡ ok tx'
      → (tx_get_chunk P s tx' j
          ≡ (if bytes_equal key j then ok (some value) else tx_get_chunk P s tx j))
        × (tx_get_chunk_hash P s tx' j
            ≡ (if bytes_equal key j then ok (some hash) else tx_get_chunk_hash P s tx j))
  unfolding tx_get_chunk tx_get_chunk_hash
  tx_get_chunk-put_chunk tx tx' key j value hash e =
      let (c, h, ec, eh, same) = put_chunk_parts tx key value hash e in
      let fc = find_in-put_in key j value tx.pending_chunks ec in
      let fh = find_in-put_in key j hash tx.pending_chunk_hashes eh in
      rw same (
        ap (λ o. or_else o (Chain.get_chunk P s j)) fc ∙ or_else-if (bytes_equal key j) value _ _,
        ap (λ o. or_else o (Chain.get_chunk_hash P s j)) fh
            ∙ or_else-if (bytes_equal key j) hash _ _,
      )

  -- After `PutFileManifest` under a pointer, the manifest is found under that pointer alone: under
  -- any other the transaction reads what it read before, whatever identifier the two point to.
  pub tx_get_file_manifest-put_file_manifest :
      (M : Protobuf) (tx tx' : Transaction) (at at' : Pointer) (id id' : BlobIdentifier)
      (m : FileManifest)
      → put_file_manifest M tx at id m ≡ ok tx'
      → tx_get_file_manifest P M s tx' at' id'
        ≡ (if at == at' then ok (some m) else tx_get_file_manifest P M s tx at' id')
  unfolding tx_get_file_manifest
  tx_get_file_manifest-put_file_manifest M tx tx' at at' id id' m e =
      let (d, ms, ed, em, same) = put_file_manifest_parts M tx at id m e in
      rw same (
        ap (λ o. or_else o (Chain.get_file_manifest P M s id'))
          (find_in-put_in at at' m tx.pending_file_manifests em)
        ∙ or_else-if (at == at') m _ _)

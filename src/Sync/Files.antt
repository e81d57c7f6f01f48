-- ===== src/Sync/Files.antt =====
-- `SyncFileManifest` of pkg/sync/chain.go: what an accepted file manifest tells.
use mathlib.Core.Path.{subst}
use blobcast.Prelude.{
  ap₂, ℕ, Option, none, some, List, [], ◌∷◌, ◌++◌, append-nil, append_assoc, Bool, true, false, not,
  Bool-cases, suc, inl, inr, length, if◌then◌else◌, ==_iff, ◌≡◌, refl, sym, ap, ◌∙◌,
}
use blobcast.Prelude.Outcome.{ok}
use blobcast.Crypto.{Blake3, Hash, equal_bytes, hash_bytes, hash_of_slice}
use blobcast.Types.Blob.{BlobIdentifier, PbBlobIdentifier}
use blobcast.State.Store.{Pebble, Protobuf, ChunkReference, FileManifest}
use blobcast.State.Chain
use blobcast.State.Transaction.{
  Transaction, Pointer, put_file_manifest, tx_get_chunk, tx_get_chunk_hash,
}
use blobcast.Sync.Monad.{
  or_reject-eq-some, Work, Sync, pure, or_crash, read_tx, write_tx, bind-eq-ok, pure-eq-ok,
  or_crash-eq-ok, lift-eq-ok, write_tx-eq-ok,
}
use blobcast.Sync.Blobs.{
  RawBlob, read_chunk, checked_read, checked_chunk, gather_chunks, accept_file, sync_file_manifest,
}

-- Two guards that each return false, and what stands behind them.
passes-eq-true :
    (c d : Bool) (m : Sync Bool) (w : Work) {w' : Work}
    → (if not c then pure false else if not d then pure false else m) w ≡ (ok true, w')
    → (c ≡ true) × (d ≡ true) × (m w ≡ (ok true, w'))
passes-eq-true false d m w e = absurd (cc (pure-eq-ok false w e).0)
passes-eq-true true false m w e = absurd (cc (pure-eq-ok false w e).0)
passes-eq-true true true m w e = (refl, refl, e)

module _ (B : Blake3) (P : Pebble) (M : Protobuf) (s : Chain.ChainState P) where
  -- A transaction knows a chunk: it reads `bytes` under the commitment of the reference, and the
  -- hash that is stored with them is the one that the reference states.
  pub record Known (tx : Transaction) (chunk : ChunkReference) (bytes : List ℕ) : Type 0 where
    pub id : PbBlobIdentifier
    pub key : Hash
    pub hash : Hash
    pub has_id : chunk.id ≡ some id
    pub has_key : hash_of_slice id.commitment ≡ some key
    pub has_bytes : tx_get_chunk P s tx key ≡ ok (some bytes)
    pub has_hash : tx_get_chunk_hash P s tx key ≡ ok (some hash)
    pub same_hash : equal_bytes hash chunk.chunk_hash ≡ true

  -- All chunks are known, and `data'` is their bytes in order.
  abbrev pub Gathers : Transaction → List ChunkReference → List ℕ → Type 0
  Gathers tx [] data' = data' ≡ []
  Gathers tx (chunk ∷ chunks) data' =
      (bytes : List ℕ) × (rest : List ℕ) × Known tx chunk bytes
      × Gathers tx chunks rest
      × (data' ≡ bytes ++ rest)

  checked_chunk-some :
      (expected chunk : List ℕ) (o : Option Hash) (bytes : List ℕ)
      → checked_chunk B P M s expected chunk o ≡ some bytes
      → (h : Hash) × (o ≡ some h) × (equal_bytes h expected ≡ true) × (chunk ≡ bytes)
  unfolding checked_chunk
  checked_chunk-some expected chunk none bytes e = cc
  checked_chunk-some expected chunk (some h) bytes e = elim (Bool-cases (equal_bytes h expected)) [
    | inl same ↦ (h, refl, same, cc (rw same at e))
    | inr other ↦ absurd (cc (rw other at e))
  ]

  checked_read-some :
      (expected : List ℕ) (found : Option (List ℕ)) (read : Sync (Option Hash)) (w w' : Work)
      (bytes : List ℕ)
      → checked_read B P M s expected found read w ≡ (ok (some bytes), w')
      → (h : Hash) × (found ≡ some bytes)
        × (read w ≡ (ok (some h), w'))
        × (equal_bytes h expected ≡ true)
  unfolding checked_read
  checked_read-some expected none read w w' bytes e = absurd (cc (pure-eq-ok none w e).0)
  checked_read-some expected (some chunk) read w w' bytes e =
      let (o, w1, r, last) = bind-eq-ok read _ w e in
      let (c, same) = pure-eq-ok (checked_chunk B P M s expected chunk o) w1 last in
      let (h, eo, eh, eb) = checked_chunk-some expected chunk o bytes c in
      (h, ap some eb, r ∙ ap₂ (λ x y. (ok x, y)) eo same, eh)

  read_chunk-some :
      (chunk : ChunkReference) (w w' : Work) (bytes : List ℕ)
      → read_chunk B P M s chunk w ≡ (ok (some bytes), w')
      → (w ≡ w') × Known w.tx chunk bytes
  unfolding read_chunk
  read_chunk-some chunk w w' bytes e =
      let (id, w1, e1, r1) = bind-eq-ok (or_crash chunk.id) _ w e in
      let (i, s1) = or_crash-eq-ok chunk.id w e1 in
      let (key, w2, e2, r2) = bind-eq-ok (or_crash (hash_of_slice id.commitment)) _ w1 r1 in
      let (k, s2) = or_crash-eq-ok (hash_of_slice id.commitment) w1 e2 in
      let (found, w3, e3, r3) = bind-eq-ok (read_tx (λ tx. tx_get_chunk P s tx key)) _ w2 r2 in
      let (f, s3) = lift-eq-ok (tx_get_chunk P s w2.tx key) w2 e3 in
      let (h, eb, eh, same) = checked_read-some chunk.chunk_hash found _ w3 w' bytes r3 in
      let (g, s4) = lift-eq-ok (tx_get_chunk_hash P s w3.tx key) w3 eh in
      let back2 : w ≡ w2 = s1 ∙ s2 in
      let back3 : w ≡ w3 = back2 ∙ s3 in
      (
        back3 ∙ s4,
        record {
          id = id;
          key = key;
          hash = h;
          has_id = i;
          has_key = k;
          has_bytes =
              subst (λ (v : Work). tx_get_chunk P s v.tx key ≡ ok (some bytes)) (sym back2)
                (f ∙ ap ok eb);
          has_hash =
              subst (λ (v : Work). tx_get_chunk_hash P s v.tx key ≡ ok (some h)) (sym back3) g;
          same_hash = same;
        },
      )

  gather_chunks-some :
      (chunks : List ChunkReference) (before : List ℕ) (w w' : Work) (data' : List ℕ)
      → gather_chunks B P M s chunks before w ≡ (ok (some data'), w')
      → (w ≡ w') × ((rest : List ℕ) × Gathers w.tx chunks rest × (data' ≡ before ++ rest))
  unfolding gather_chunks
  gather_chunks-some [] before w w' data' e =
      let (d, same) = pure-eq-ok (some before) w e in (same, ([], refl, cc (d, append-nil before)))
  gather_chunks-some (chunk ∷ chunks) before w w' data' e =
      let (part, w1, e1, r1) = bind-eq-ok (read_chunk B P M s chunk) _ w e in
      let (bytes, ep, r2) =
        or_reject-eq-some part (λ b. gather_chunks B P M s chunks (before ++ b)) w1 r1 in
      let (s1, known) = read_chunk-some chunk w w1 bytes (e1 ∙ ap (λ o. (ok o, w1)) ep) in
      let (s2, (rest, gathered, d)) = gather_chunks-some chunks (before ++ bytes) w1 w' data' r2 in
      (
        s1 ∙ s2,
        (
          bytes ++ rest,
          (
            bytes,
            rest,
            known,
            subst (λ (v : Work). Gathers v.tx chunks rest) (sym s1) gathered,
            refl,
          ),
          d ∙ append_assoc before bytes rest,
        ),
      )

  accept_file-accepts :
      (at : Pointer) (id : BlobIdentifier) (m : FileManifest) (o : Option (List ℕ)) (w w' : Work)
      → accept_file B P M s at id m o w ≡ (ok true, w')
      → (data' : List ℕ) × (o ≡ some data')
        × (length data' ≡ m.file_size)
        × (equal_bytes (hash_bytes B (data' ∷ [])) m.file_hash ≡ true)
        × (put_file_manifest M w.tx at id m ≡ ok w'.tx)
  unfolding accept_file
  accept_file-accepts at id m none w w' e = absurd (cc (pure-eq-ok false w e).0)
  accept_file-accepts at id m (some d) w w' e =
      let (size, same, run) = passes-eq-true _ _ _ w e in
      let (_, w1, e1, r1) = bind-eq-ok (write_tx (λ tx. put_file_manifest M tx at id m)) _ w run in
      let (tx, stored, now) = write_tx-eq-ok (λ tx. put_file_manifest M tx at id m) w e1 in
      let (_, done) = pure-eq-ok true w1 r1 in
      (d, refl, (==_iff _ _).0 size, same, stored ∙ ap (λ (v : Work). ok v.tx) (sym now ∙ done))

  -- An accepted file manifest is one whose chunks are all known to the transaction, whose size is
  -- that of their bytes together, and whose hash is the hash of these bytes; what the transaction is
  -- then is the result of storing the manifest under the identifier of the blob.
  pub sync_file_manifest_accepts :
      (height : ℕ) (blob : RawBlob) (m : FileManifest) (w w' : Work)
      → sync_file_manifest B P M s height blob m w ≡ (ok true, w')
      → (commitment : Hash) × (data' : List ℕ) × (hash_of_slice blob.commitment ≡ some commitment)
        × Gathers w.tx m.chunks data'
        × (length data' ≡ m.file_size)
        × (equal_bytes (hash_bytes B (data' ∷ [])) m.file_hash ≡ true)
        × (put_file_manifest M w.tx w.next (record { height = height; commitment = commitment }) m
            ≡ ok w'.tx)
  unfolding sync_file_manifest
  sync_file_manifest_accepts height blob m w w' e =
      let (c, w1, e1, r1) = bind-eq-ok (or_crash (hash_of_slice blob.commitment)) _ w e in
      let (is_c, s1) = or_crash-eq-ok (hash_of_slice blob.commitment) w e1 in
      let id : BlobIdentifier = record { height = height; commitment = c } in
      let at : Pointer = w1.next in
      let w2 : Work = record w1 { next = suc w1.next } in
      let (found, w3, e3, r3) =
        bind-eq-ok (gather_chunks B P M s m.chunks []) (accept_file B P M s at id m) w2 r1 in
      let (d, is_d, size, same, stored) = accept_file-accepts at id m found w3 w' r3 in
      let (s3, (rest, gathered, is_rest)) =
        gather_chunks-some m.chunks [] w2 w3 d (e3 ∙ ap (λ o. (ok o, w3)) is_d) in
      let tx2 : w.tx ≡ w2.tx = ap (λ (v : Work). v.tx) s1 in
      let tx3 : w.tx ≡ w3.tx = tx2 ∙ ap (λ (v : Work). v.tx) s3 in
      let is_next : w.next ≡ at = ap (λ (v : Work). v.next) s1 in
      (
        c,
        d,
        is_c,
        subst (λ tx. Gathers tx m.chunks d) (sym tx2)
            (subst (λ l. Gathers w2.tx m.chunks l) (sym is_rest) gathered),
        size,
        same,
        ap₂ (λ tx n. put_file_manifest M tx n id m) tx3 is_next ∙ stored,
      )

-- ===== src/Node/Served.antt =====
-- From `SyncFileManifest` of pkg/sync/chain.go to `GetFileData` of pkg/api/node/file.go: a file that
-- was accepted and committed.
use blobcast.Prelude.{
  ℕ, ◌≤◌, ◌≡◌, refl, ap, ◌∙◌, some, List, [], ◌∷◌, ◌++◌, true, length, le→not_ltb, ==_iff,
}
use blobcast.Prelude.Maps.{nat_eq}
use blobcast.Prelude.Outcome.{ok}
use blobcast.Crypto.{
  Blake3, Hash, bytes_equal_self, hash_of_slice, hash_of_slice-IsHash, hash_bytes, equal_bytes,
}
use blobcast.Crypto.Mmr.{hash_eq}
use blobcast.Types.Blob.{BlobIdentifier, blob_bytes, blob_identifier_from_proto}
use blobcast.State.Keys.{prefix_key, file_manifest_prefix}
use blobcast.State.Store.{Pebble, Protobuf, ChunkReference, FileManifest, Got, found, last_write}
use blobcast.State.Chain
use blobcast.State.Transaction.{
  Transaction, new_transaction, put_file_manifest, tx_get_chunk, commit,
}
use blobcast.State.Transaction.Reads.{put_file_manifest_parts}
use blobcast.State.Transaction.Synced.{last_write-append, one, batch_of, chunks_of}
use blobcast.State.Transaction.Durable.{Write, Writes, then_write, get_chunk-commit, commit_parts}
use blobcast.State.Transaction.Passes.{HasFile}
use blobcast.State.Transaction.Since.{Since, Since-HasFile, Since-reads, Since-Writes, reads_same}
use mathlib.Core.Path.{subst}
use blobcast.Sync.Monad.{Work}
use blobcast.Sync.Blobs.{RawBlob, sync_file_manifest}
use blobcast.Sync.Files.{Gathers, sync_file_manifest_accepts}
use blobcast.Node.{existing, chunk_id, node_file_manifest, verified, get_file_data}
use blobcast.Node.Checked.{Holds, Holds-read_chunks}

one_write : (key value : List ℕ) (old : Got) → last_write key ((key, value) ∷ []) old ≡ found value
unfolding last_write
one_write key value old = rw (bytes_equal_self key)

-- The last write of a batch is what stands under its key.
last_write-last :
    (key value : List ℕ) (ops : List (List ℕ × List ℕ)) (old : Got)
    → last_write key (ops ++ (key, value) ∷ []) old ≡ found value
last_write-last key value ops old =
    last_write-append key ops ((key, value) ∷ []) old ∙ one_write key value (last_write key ops old)

module _ (P : Pebble) (M : Protobuf) (s s' : Chain.ChainState P) where
  -- What a committed transaction knows, the state has.
  Gathers-Holds :
      (B : Blake3) (tx tx0 tx' : Transaction) (chunks : List ChunkReference) (d : List ℕ)
      → Writes new_transaction tx
      → commit P s tx ≡ (ok tt, (tx', s'))
      → ((key : Hash) (bytes : List ℕ)
          → tx_get_chunk P s tx0 key ≡ ok (some bytes)
          → tx_get_chunk P s tx key ≡ ok (some bytes))
      → Gathers B P M s tx0 chunks d
      → Holds P s' chunks d
  unfolding chunk_id blob_identifier_from_proto tx_get_chunk
  Gathers-Holds B tx tx0 tx' [] d ws done keeps h = h
  Gathers-Holds B tx tx0 tx' (chunk ∷ chunks) d ws done keeps (bytes, rest, known, gathered, same) =
      (
        record { height = known.id.height; commitment = known.key },
        bytes,
        rest,
        rw (known.has_id, blob_identifier_from_proto, known.has_key) refl,
        get_chunk-commit P s s' tx tx' known.key ws
              (hash_of_slice-IsHash known.id.commitment known.key known.has_key) done
            ∙ keeps known.key bytes known.has_bytes,
        Gathers-Holds B tx tx0 tx' chunks rest ws done keeps gathered,
        same,
      )

  manifest_committed :
      (tx tx' : Transaction) (id : BlobIdentifier) (m : FileManifest) (d : List ℕ)
      → M.marshal_file m ≡ some d
      → HasFile id d tx
      → commit P s tx ≡ (ok tt, (tx', s'))
      → Chain.get_file_manifest P M s' id ≡ ok (some m)
  unfolding Chain.get_file_manifest
  manifest_committed tx tx' id m d encoded has done =
      let key : List ℕ = prefix_key (blob_bytes id) file_manifest_prefix in
      let stored : P.get s'.db key ≡ found d =
        P.get-commit s.db s'.db tx.batch key (commit_parts P s s' tx tx' done)
        ∙ has (P.get s.db key) in
      rw (Chain.get_file_manifest, stored, M.file_round_trip m d encoded)

  put-HasFile :
      (tx0 tx : Transaction) (id : BlobIdentifier) (m : FileManifest) (d : List ℕ)
      → tx.batch ≡ tx0.batch ++ one (prefix_key (blob_bytes id) file_manifest_prefix) d
      → HasFile id d tx
  put-HasFile tx0 tx id m d same old =
      ap (λ ops. last_write (prefix_key (blob_bytes id) file_manifest_prefix) ops old) same
      ∙ last_write-last (prefix_key (blob_bytes id) file_manifest_prefix) d tx0.batch old

  served :
      (B : Blake3) (most : ℕ) (id : BlobIdentifier) (m : FileManifest) (d : List ℕ)
      → Chain.get_file_manifest P M s' id ≡ ok (some m)
      → Holds P s' m.chunks d
      → length d ≡ m.file_size
      → equal_bytes (hash_bytes B (d ∷ [])) m.file_hash ≡ true
      → m.file_size ≤ most
      → get_file_data P s' M B most id ≡ ok d
  unfolding get_file_data node_file_manifest existing verified
  served B most id m d is_m held size hash small = rw (
    is_m,
    le→not_ltb most m.file_size small,
    Holds-read_chunks P s' m.chunks [] d held,
    (==_iff _ _).1 size,
    hash,
  )

  -- A file that a node accepted from Celestia is served as it was gathered: if the transaction so far
  -- was filled by writes of a transaction from its beginning, the manifest is accepted, any writes
  -- follow that do no harm (a chunk is new or has the bytes that are there, a file manifest is that of
  -- another blob or the same again; directories, ranges, blocks and the finalized height are free), and
  -- the transaction is then committed with success, `GetFileData` for the blob of the manifest answers
  -- with exactly the bytes of the chunks that the acceptance gathered (where that many can be
  -- allocated).
  pub accepted_file_is_served :
      (B : Blake3) (most height : ℕ) (blob : RawBlob) (m : FileManifest) (w w' : Work)
      (commitment : Hash) (tx tx' : Transaction)
      → Writes new_transaction w.tx
      → sync_file_manifest B P M s height blob m w ≡ (ok true, w')
      → hash_of_slice blob.commitment ≡ some commitment
      → Since P s M (record { height = height; commitment = commitment }) m w'.tx tx
      → commit P s tx ≡ (ok tt, (tx', s'))
      → m.file_size ≤ most
      → (d : List ℕ) × Gathers B P M s w.tx m.chunks d
        × (get_file_data P s' M B most (record { height = height; commitment = commitment }) ≡ ok d)
  accepted_file_is_served B most height blob m w w' commitment tx tx' ws accepted is_c since done
        small =
      let (c, d, is, gathered, size, hash, put') =
        sync_file_manifest_accepts B P M s height blob m w w' accepted in
      let same_c : c ≡ commitment = cc (is, is_c) in
      let id : BlobIdentifier = record { height = height; commitment = commitment } in
      let put : put_file_manifest M w.tx w.next id m ≡ ok w'.tx =
        subst
          (λ k.
            put_file_manifest M w.tx w.next (record { height = height; commitment = k }) m
            ≡ ok w'.tx)
          same_c put' in
      let (bytes, ms, encoded, _, same) = put_file_manifest_parts M w.tx w.next id m put in
      let has =
        Since-HasFile P s M id m bytes since encoded
          (put-HasFile w.tx w'.tx id m bytes (ap batch_of same)) in
      (
        d,
        gathered,
        served B most id m d (manifest_committed tx tx' id m bytes encoded has done)
            (Gathers-Holds B tx w.tx tx' m.chunks d
              (Since-Writes P s M id m (then_write ws (Write.file M w.next id m put)) since) done
              (λ key part is.
                Since-reads P s M id m key part since
                  (reads_same P s M id m w.tx w'.tx key (ap chunks_of same) ∙ is))
              gathered)
            size hash small,
      )

-- ===== src/Sync/Dirs.antt =====
-- `SyncDirectoryManifest` of pkg/sync/chain.go: what an accepted directory manifest tells.
use mathlib.Core.Path.{subst}
use blobcast.Prelude.{
  suc, ℕ, ◌≤◌, Option, none, some, List, [], ◌∷◌, ◌++◌, append-nil, append_assoc, Bool, true, false,
  not, if◌then◌else◌, ◌≡◌, refl, sym, ap, ◌∙◌, arith,
}
use blobcast.Prelude.Maps.{nat_eq}
use blobcast.Prelude.Outcome.{ok}
use blobcast.Crypto.{Blake3, Hash, equal_bytes, hash_bytes, hash_of_slice}
use blobcast.Crypto.Merkle.{calculate_merkle_root}
use blobcast.Types.Blob.{BlobIdentifier, PbBlobIdentifier, blob_identifier_from_proto}
use blobcast.State.Store.{Pebble, Protobuf, FileManifest, FileReference, DirectoryManifest}
use blobcast.State.Chain
use blobcast.State.Transaction.{Pointer, find_in, tx_get_file_manifest, put_directory_manifest}
use blobcast.Sync.Monad.{
  Work, Sync, pure, or_crash, read_tx, write_tx, bind-eq-ok, pure-eq-ok, or_crash-eq-ok, lift-eq-ok,
  write_tx-eq-ok, or_reject-eq-some,
}
use blobcast.Sync.Blobs.{RawBlob, read_file, gather_files, accept_dir, sync_directory_manifest}

-- No pending file manifest has an address that is still free.
pub record IsFresh (w : Work) : Type 0 where
  pub free : (p : Pointer) → w.next ≤ p → find_in p w.tx.pending_file_manifests ≡ none

step-IsFresh : (w : Work) → IsFresh w → IsFresh (record w { next = suc w.next })
step-IsFresh w v = record { free = λ p l. v.free p (omega arith) }

pass-eq-true :
    (c : Bool) (m : Sync Bool) (w : Work) {w' : Work}
    → (if not c then pure false else m) w ≡ (ok true, w')
    → (c ≡ true) × (m w ≡ (ok true, w'))
pass-eq-true false m w e = absurd (cc (pure-eq-ok false w e).0)
pass-eq-true true m w e = (refl, e)

module _ (B : Blake3) (P : Pebble) (M : Protobuf) (s : Chain.ChainState P) where
  -- The committed database holds the manifest of a file, and `leaf` is the file's leaf.
  pub record IsCommitted (file : FileReference) (leaf : Hash) : Type 0 where
    pub pb : PbBlobIdentifier
    pub id : BlobIdentifier
    pub manifest : FileManifest
    pub has_pb : file.id ≡ some pb
    pub has_id : blob_identifier_from_proto pb ≡ some id
    pub has_manifest : Chain.get_file_manifest P M s id ≡ ok (some manifest)
    pub is_leaf : leaf ≡ hash_bytes B (file.relative_path ∷ manifest.file_hash ∷ [])

  -- All files are committed, and `leaves` are their leaves in order.
  abbrev pub Leaves : List FileReference → List Hash → Type 0
  Leaves [] leaves = leaves ≡ []
  Leaves (file ∷ files) leaves =
      (leaf : Hash) × (rest : List Hash) × IsCommitted file leaf
      × Leaves files rest
      × (leaves ≡ leaf ∷ rest)

  read_file-some :
      (file : FileReference) (w w' : Work) (leaf : Hash)
      → IsFresh w
      → read_file B P M s file w ≡ (ok (some leaf), w')
      → IsCommitted file leaf × (w' ≡ record w { next = suc w.next })
  unfolding read_file tx_get_file_manifest
  read_file-some file w w' leaf fresh e =
      let (pb, w1, e1, r1) = bind-eq-ok (or_crash file.id) _ w e in
      let (has_pb, s1) = or_crash-eq-ok file.id w e1 in
      let (id, w2, e2, r2) = bind-eq-ok (or_crash (blob_identifier_from_proto pb)) _ w1 r1 in
      let (has_id, s2) = or_crash-eq-ok (blob_identifier_from_proto pb) w1 e2 in
      let w3 : Work = record w2 { next = suc w2.next } in
      let back : w ≡ w2 = s1 ∙ s2 in
      let (found, w4, e4, r4) =
        bind-eq-ok (read_tx (λ tx. tx_get_file_manifest P M s tx w2.next id)) _ w3 r2 in
      let (f, s4) = lift-eq-ok (tx_get_file_manifest P M s w2.tx w2.next id) w3 e4 in
      let (m, is_m, r5) = or_reject-eq-some found _ w4 r4 in
      let (is_leaf, s5) = pure-eq-ok _ w4 r5 in
      let missing : find_in w2.next w2.tx.pending_file_manifests ≡ none =
        subst (λ (v : Work). find_in v.next v.tx.pending_file_manifests ≡ none) back
          (fresh.free w.next (omega arith)) in
      (
        record {
          pb = pb;
          id = id;
          manifest = m;
          has_pb = has_pb;
          has_id = has_id;
          has_manifest = rw missing at (f ∙ ap ok is_m);
          is_leaf = cc is_leaf;
        },
        sym (ap (λ (v : Work). record v { next = suc v.next }) back ∙ s4 ∙ s5),
      )

  gather_files-some :
      (files : List FileReference) (before leaves : List Hash) (w w' : Work)
      → IsFresh w
      → gather_files B P M s files before w ≡ (ok (some leaves), w')
      → (w'.tx ≡ w.tx) × ((rest : List Hash) × Leaves files rest × (leaves ≡ before ++ rest))
  unfolding gather_files
  gather_files-some [] before leaves w w' fresh e =
      let (d, same) = pure-eq-ok (some before) w e in
      (ap (λ (v : Work). v.tx) (sym same), ([], refl, cc (d, append-nil before)))
  gather_files-some (file ∷ files) before leaves w w' fresh e =
      let (part, w1, e1, r1) = bind-eq-ok (read_file B P M s file) _ w e in
      let (leaf, ep, r2) =
        or_reject-eq-some part (λ h. gather_files B P M s files (before ++ (h ∷ []))) w1 r1 in
      let (known, next) = read_file-some file w w1 leaf fresh (e1 ∙ ap (λ o. (ok o, w1)) ep) in
      let fresh' : IsFresh w1 = subst IsFresh (sym next) (step-IsFresh w fresh) in
      let (same, (rest, gathered, d)) =
        gather_files-some files (before ++ (leaf ∷ [])) leaves w1 w' fresh' r2 in
      (
        same ∙ ap (λ (v : Work). v.tx) next,
        (
          leaf ∷ rest,
          (leaf, rest, known, gathered, refl),
          d ∙ append_assoc before (leaf ∷ []) rest,
        ),
      )

  accept_dir-accepts :
      (id : BlobIdentifier) (m : DirectoryManifest) (o : Option (List Hash)) (w w' : Work)
      → accept_dir B P M s id m o w ≡ (ok true, w')
      → (leaves : List Hash) × (o ≡ some leaves)
        × (equal_bytes (calculate_merkle_root B leaves) m.directory_hash ≡ true)
        × (put_directory_manifest M w.tx id m ≡ ok w'.tx)
  unfolding accept_dir
  accept_dir-accepts id m none w w' e = absurd (cc (pure-eq-ok false w e).0)
  accept_dir-accepts id m (some leaves) w w' e =
      let (same, run) = pass-eq-true _ _ w e in
      let (_, w1, e1, r1) =
        bind-eq-ok (write_tx (λ tx. put_directory_manifest M tx id m)) _ w run in
      let (tx, stored, now) = write_tx-eq-ok (λ tx. put_directory_manifest M tx id m) w e1 in
      let (_, done) = pure-eq-ok true w1 r1 in
      (leaves, refl, same, stored ∙ ap (λ (v : Work). ok v.tx) (sym now ∙ done))

  -- If no pending file manifest has an address that is still free, an accepted directory manifest
  -- is one for whose every file the committed database holds the manifest, and whose hash is the
  -- Merkle root of the files' leaves; what the transaction is then is the result of storing the
  -- manifest under the identifier of the blob.
  pub sync_directory_manifest_accepts :
      (height : ℕ) (blob : RawBlob) (m : DirectoryManifest) (w w' : Work)
      → IsFresh w
      → sync_directory_manifest B P M s height blob m w ≡ (ok true, w')
      → (commitment : Hash) × (leaves : List Hash) × (hash_of_slice blob.commitment
          ≡ some commitment)
        × Leaves m.files leaves
        × (equal_bytes (calculate_merkle_root B leaves) m.directory_hash ≡ true)
        × (put_directory_manifest M w.tx (record { height = height; commitment = commitment }) m
            ≡ ok w'.tx)
  unfolding sync_directory_manifest
  sync_directory_manifest_accepts height blob m w w' fresh e =
      let (c, w1, e1, r1) = bind-eq-ok (or_crash (hash_of_slice blob.commitment)) _ w e in
      let (is_c, s1) = or_crash-eq-ok (hash_of_slice blob.commitment) w e1 in
      let id : BlobIdentifier = record { height = height; commitment = c } in
      let w2 : Work = record w1 { next = suc w1.next } in
      let (found, w3, e3, r3) =
        bind-eq-ok (gather_files B P M s m.files []) (accept_dir B P M s id m) w2 r1 in
      let (leaves, is_l, same, stored) = accept_dir-accepts id m found w3 w' r3 in
      let fresh2 : IsFresh w2 = step-IsFresh w1 (subst IsFresh s1 fresh) in
      let (s3, (rest, gathered, is_rest)) =
        gather_files-some m.files [] leaves w2 w3 fresh2 (e3 ∙ ap (λ o. (ok o, w3)) is_l) in
      (
        c,
        leaves,
        is_c,
        subst (Leaves m.files) (sym is_rest) gathered,
        same,
        ap (λ tx. put_directory_manifest M tx id m) (ap (λ (v : Work). v.tx) s1 ∙ sym s3) ∙ stored,
      )

-- ===== src/State/Transaction/Passes.antt =====
-- A file manifest in the batch of a transaction of pkg/state/transaction.go, and the other keys that
-- are written.
use blobcast.Prelude.{
  ℕ, ◌≡◌, refl, sym, ap, ◌∙◌, false, List, [], ◌∷◌, ◌++◌, inl, inr, Bool-cases, append-nil, ◌==◌,
}
use blobcast.Prelude.Maps.{nat_eq}
use blobcast.Prelude.Outcome.{ok, bind-eq-ok}
use blobcast.Crypto.{bytes_equal, bytes_equal_self}
use mathlib.Core.Path.{subst}
use blobcast.Crypto.Mmr.{Mmr, hash_eq}
use blobcast.Crypto.Mmr.Snapshot.{snapshot}
use blobcast.Types.Blob.{BlobIdentifier, blob_bytes}
use blobcast.State.Keys.{
  prefix_key, prefix_height_key, prefix_key-same, file_manifest_prefix, state_mmr_prefix,
  chunk_prefix, chunk_hash_prefix, dir_manifest_prefix, block_prefix, block_hash_prefix,
  key_finalized_height,
}
use blobcast.State.Store.{Batch, Got, found, last_write}
use blobcast.State.Chain
use blobcast.State.Transaction.{Transaction, batch_set, put_state_mmr, put_state_mmr_raw}
use blobcast.State.Transaction.Synced.{last_write-append, one, batch_of, chunks_of}

module _ (id : BlobIdentifier) where
  abbrev pub file_key : List ℕ
  file_key = prefix_key (blob_bytes id) file_manifest_prefix

  -- The batch has the manifest, of which the bytes are `d`.
  abbrev pub HasFile : List ℕ → Transaction → Type 0
  HasFile d tx = (old : Got) → last_write file_key tx.batch old ≡ found d

  -- What a write appends to the batch, where it is not to the manifest, and leaves the chunks.
  abbrev pub Passes : Transaction → Transaction → Type 0
  Passes tx tx' =
      (ops : Batch) × (tx'.batch ≡ tx.batch ++ ops)
      × ((old : Got) → last_write file_key ops old ≡ old)

  pub Passes-HasFile :
      (d : List ℕ) (tx tx' : Transaction) → Passes tx tx' → HasFile d tx → HasFile d tx'
  Passes-HasFile d tx tx' (ops, e, spares) h old =
      rw (e, last_write-append file_key tx.batch ops old) (spares _ ∙ h old)

  pub past_chunk :
      (key value hash : List ℕ) (old : Got)
      → last_write file_key
          ((prefix_key key chunk_prefix, value) ∷ (prefix_key key chunk_hash_prefix, hash) ∷ [])
          old
        ≡ old
  unfolding last_write prefix_key bytes_equal
  past_chunk key value hash old = refl

  pub past_dir :
      (key v : List ℕ) (old : Got)
      → last_write file_key (one (prefix_key key dir_manifest_prefix) v) old ≡ old
  unfolding last_write prefix_key bytes_equal
  past_dir key v old = refl

  past_mmr :
      (height : ℕ) (v : List ℕ) (old : Got)
      → last_write file_key (one (prefix_height_key height state_mmr_prefix) v) old ≡ old
  unfolding last_write prefix_height_key prefix_key bytes_equal
  past_mmr height v old = refl

  pub past_finalized :
      (v : List ℕ) (old : Got) → last_write file_key (one key_finalized_height v) old ≡ old
  unfolding last_write prefix_key bytes_equal
  past_finalized v old = refl

  pub past_block :
      (height : ℕ) (hash v w : List ℕ) (old : Got)
      → last_write file_key
          (one (prefix_height_key height block_prefix) v
            ++ one (prefix_key hash block_hash_prefix) w)
          old
        ≡ old
  unfolding last_write prefix_height_key prefix_key bytes_equal
  past_block height hash v w old = refl

  -- A manifest that is written last is there.
  one_write : (key value : List ℕ) (old : Got) → last_write key (one key value) old ≡ found value
  unfolding last_write
  one_write key value old = rw (bytes_equal_self key)

  pub past_file :
      (other v : List ℕ) (old : Got)
      → bytes_equal other (blob_bytes id) ≡ false
      → last_write file_key (one (prefix_key other file_manifest_prefix) v) old ≡ old
  unfolding last_write
  past_file other v old ne =
      rw (prefix_key-same file_manifest_prefix other (blob_bytes id), ne) refl

  pub over_file :
      (other d e : List ℕ) (old : Got)
      → d ≡ e
      → old ≡ found d
      → last_write file_key (one (prefix_key other file_manifest_prefix) e) old ≡ found d
  unfolding last_write
  over_file other d e old same is =
      elim (Bool-cases (bytes_equal (prefix_key other file_manifest_prefix) file_key)) [
        | inl here ↦ rw (here, same) refl
        | inr past ↦ rw past is
      ]

  nothing : (tx : Transaction) → Passes tx tx
  unfolding last_write
  nothing tx = ([], sym (append-nil tx.batch), λ old. refl)

  pub put_state_mmr_raw-Passes :
      (tx tx' : Transaction) (height : ℕ) (raw : List ℕ)
      → tx' ≡ put_state_mmr_raw tx height raw
      → Passes tx tx' × (tx'.pending_chunks ≡ tx.pending_chunks)
  unfolding put_state_mmr_raw
  put_state_mmr_raw-Passes tx tx' height raw e = elim (Bool-cases (height == 0)) [
    | inl genesis ↦
        let same : tx ≡ tx' = sym (rw genesis at e) in
        (subst (Passes tx) same (nothing tx), ap chunks_of (sym same))
    | inr later ↦
        let same : tx' ≡ batch_set tx (prefix_height_key height state_mmr_prefix) raw =
          rw later at e in
        ((_, ap batch_of same, past_mmr height raw), ap chunks_of same)
  ]

  pub put_state_mmr-Passes :
      (tx tx' : Transaction) (height : ℕ) (n : Mmr)
      → put_state_mmr tx height n ≡ ok tx'
      → Passes tx tx' × (tx'.pending_chunks ≡ tx.pending_chunks)
  unfolding put_state_mmr
  put_state_mmr-Passes tx tx' height n e = elim (Bool-cases (height == 0)) [
    | inl genesis ↦
        let same : tx ≡ tx' = cc (rw genesis at e) in
        (subst (Passes tx) same (nothing tx), ap chunks_of (sym same))
    | inr later ↦
        let (bytes, eb, last) = bind-eq-ok (Chain.or_panic (snapshot n)) _ (rw later at e) in
        let same : tx' ≡ batch_set tx (prefix_height_key height state_mmr_prefix) bytes = cc last in
        ((_, ap batch_of same, past_mmr height bytes), ap chunks_of same)
  ]

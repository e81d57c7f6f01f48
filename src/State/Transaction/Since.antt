-- ===== src/State/Transaction/Since.antt =====
-- What the writes of pkg/state/transaction.go leave as it was: a file manifest that is in the batch,
-- and the chunks that the transaction reads.
use blobcast.Prelude.{
  ℕ, ◌≡◌, refl, sym, ap, ◌∙◌, false, Option, none, some, List, ◌⊎◌, inl, inr, Bool-cases,
  append_assoc,
}
use blobcast.Prelude.Maps.{nat_eq}
use blobcast.Prelude.Outcome.{ok, bind-eq-ok}
use blobcast.Crypto.{Hash, bytes_equal, bytes_equal→eq}
use mathlib.Core.Path.{subst}
use blobcast.Crypto.Mmr.{hash_eq}
use blobcast.Types.Blob.{BlobIdentifier, blob_bytes}
use blobcast.Types.Block.Cache.{block_hash}
use blobcast.Util.{bytes_from_uint64}
use blobcast.State.Keys.{prefix_key, file_manifest_prefix, dir_manifest_prefix}
use blobcast.State.Store.{Pebble, Protobuf, FileManifest, last_write}
use blobcast.State.Chain
use blobcast.State.Transaction.{
  Transaction, batch_set, marshalled, put_directory_manifest, put_block, set_finalized_height,
  tx_get_chunk,
}
use blobcast.State.Transaction.Reads.{
  put_chunk_parts, put_file_manifest_parts, tx_get_chunk-put_chunk,
}
use blobcast.State.Transaction.Synced.{last_write-append, one, batch_of, chunks_of}
use blobcast.State.Transaction.Durable.{
  Write, Writes, then_write, chunk, file, dir, block, state_mmr, state_mmr_raw, finalized,
}
use blobcast.State.Transaction.Passes.{
  HasFile, Passes-HasFile, past_chunk, past_dir, past_finalized, past_block, past_file, over_file,
  put_state_mmr_raw-Passes, put_state_mmr-Passes, file_key,
}

some-injective : {A : Type 0} {a b : A} → ◌≡◌ {A = Option A} (some a) (some b) → a ≡ b
some-injective e = cc

module _ (P : Pebble) (s : Chain.ChainState P) (M : Protobuf) (id : BlobIdentifier)
    (m : FileManifest) where
  -- A write that takes nothing away: a chunk is new or has the bytes that are there already, as the
  -- commitment of a blob fixes its bytes, and a manifest is that of another blob or the same again.
  abbrev pub IsHarmless : {tx tx' : Transaction} → Write tx tx' → Type 0
  IsHarmless {tx} (chunk key value hash hk e) =
      (tx_get_chunk P s tx key ≡ ok none) ⊎ (tx_get_chunk P s tx key ≡ ok (some value))
  IsHarmless (file N at other n e) =
      (bytes_equal (blob_bytes other) (blob_bytes id) ≡ false)
      ⊎ (N.marshal_file n ≡ M.marshal_file m)
  IsHarmless (dir N other n e) = Unit {0}
  IsHarmless (block B c height b e) = Unit {0}
  IsHarmless (state_mmr height n e) = Unit {0}
  IsHarmless (state_mmr_raw height raw e) = Unit {0}
  IsHarmless (finalized height e) = Unit {0}

  -- Such writes, one after the other.
  pub data Since (tx : Transaction) : Transaction → Type 0 where
    none_since : Since tx tx
    then_since : {t u : Transaction} → Since tx t → (w : Write t u) → IsHarmless w → Since tx u

  Write-HasFile :
      (d : List ℕ) {tx tx' : Transaction} (w : Write tx tx')
      → M.marshal_file m ≡ some d
      → IsHarmless w
      → HasFile id d tx
      → HasFile id d tx'
  unfolding set_finalized_height put_block put_directory_manifest
  Write-HasFile d {tx} {tx'} (chunk key value hash hk e) enc safe h =
      let (c, hs, ec, eh, same) = put_chunk_parts tx key value hash e in
      Passes-HasFile id d tx tx' (_, ap batch_of same, past_chunk id key value hash) h
  Write-HasFile d {tx} {tx'} (file N at other n e) enc (inl ne) h =
      let (b, ms, eb, em, same) = put_file_manifest_parts N tx at other n e in
      Passes-HasFile id d tx tx'
        (_, ap batch_of same, λ old. past_file id (blob_bytes other) b old ne) h
  Write-HasFile d {tx} {tx'} (file N at other n e) enc (inr again) h =
      let (b, ms, eb, em, same) = put_file_manifest_parts N tx at other n e in
      let is : d ≡ b = some-injective (sym enc ∙ sym again ∙ eb) in
      λ old.
        ap (λ ops. last_write (file_key id) ops old) (ap batch_of same)
        ∙ last_write-append (file_key id) tx.batch
            (one (prefix_key (blob_bytes other) file_manifest_prefix) b) old
        ∙ over_file id (blob_bytes other) d b _ is (h old)
  Write-HasFile d {tx} {tx'} (dir N other n e) enc safe h =
      let (b, eb, last) = bind-eq-ok (marshalled (N.marshal_dir n)) _ e in
      let same : tx' ≡ batch_set tx (prefix_key (blob_bytes other) dir_manifest_prefix) b =
        cc last in
      Passes-HasFile id d tx tx' (_, ap batch_of same, past_dir id (blob_bytes other) b) h
  Write-HasFile d {tx} {tx'} (block B c height b same) enc safe h =
      Passes-HasFile id d tx tx'
        (
          _,
          ap batch_of same ∙ append_assoc tx.batch _ _,
          past_block id height (block_hash B c b).0 _ _,
        )
        h
  Write-HasFile d {tx} {tx'} (state_mmr height n e) enc safe h =
      Passes-HasFile id d tx tx' (put_state_mmr-Passes id tx tx' height n e).0 h
  Write-HasFile d {tx} {tx'} (state_mmr_raw height raw e) enc safe h =
      Passes-HasFile id d tx tx' (put_state_mmr_raw-Passes id tx tx' height raw e).0 h
  Write-HasFile d {tx} {tx'} (finalized height same) enc safe h =
      Passes-HasFile id d tx tx' (_, ap batch_of same, past_finalized id (bytes_from_uint64 height))
        h

  -- What the transaction reads of a chunk, from the map of pending chunks.
  pub reads_same :
      (tx tx' : Transaction) (key : Hash)
      → tx'.pending_chunks ≡ tx.pending_chunks
      → tx_get_chunk P s tx' key ≡ tx_get_chunk P s tx key
  unfolding tx_get_chunk
  reads_same tx tx' key e = rw e refl

  harmless_read :
      (key : Hash) (value bytes : List ℕ) (read : Chain.Res (Option (List ℕ)))
      → (read ≡ ok none) ⊎ (read ≡ ok (some value))
      → read ≡ ok (some bytes)
      → value ≡ bytes
  harmless_read key value bytes read (inl free) is = absurd (cc (free, is))
  harmless_read key value bytes read (inr there) is = cc (there, is)

  Write-reads :
      {tx tx' : Transaction} (w : Write tx tx') (key : Hash) (bytes : List ℕ)
      → IsHarmless w
      → tx_get_chunk P s tx key ≡ ok (some bytes)
      → tx_get_chunk P s tx' key ≡ ok (some bytes)
  unfolding set_finalized_height put_block put_directory_manifest
  Write-reads {tx} {tx'} (chunk other value hash hk e) key bytes safe is =
      (tx_get_chunk-put_chunk P s tx tx' other key value hash e).0
      ∙ elim (Bool-cases (bytes_equal other key)) [
        | inl here ↦
            let same : other ≡ key = bytes_equal→eq other key here in
            let value_same : value ≡ bytes =
              harmless_read key value bytes (tx_get_chunk P s tx key)
                (subst
                  (λ k.
                    (tx_get_chunk P s tx k ≡ ok none) ⊎ (tx_get_chunk P s tx k ≡ ok (some value)))
                  same safe)
                is in
            rw here (ap (λ (v : List ℕ). ok (some v)) value_same)
        | inr past ↦ rw past is
      ]
  Write-reads {tx} {tx'} (file N at other n e) key bytes safe is =
      let (b, ms, eb, em, same) = put_file_manifest_parts N tx at other n e in
      reads_same tx tx' key (ap chunks_of same) ∙ is
  Write-reads {tx} {tx'} (dir N other n e) key bytes safe is =
      let (b, eb, last) = bind-eq-ok (marshalled (N.marshal_dir n)) _ e in
      let same : tx' ≡ batch_set tx (prefix_key (blob_bytes other) dir_manifest_prefix) b =
        cc last in
      reads_same tx tx' key (ap chunks_of same) ∙ is
  Write-reads {tx} {tx'} (block B c height b same) key bytes safe is =
      reads_same tx tx' key (ap chunks_of same) ∙ is
  Write-reads {tx} {tx'} (state_mmr height n e) key bytes safe is =
      reads_same tx tx' key (put_state_mmr-Passes id tx tx' height n e).1 ∙ is
  Write-reads {tx} {tx'} (state_mmr_raw height raw e) key bytes safe is =
      reads_same tx tx' key (put_state_mmr_raw-Passes id tx tx' height raw e).1 ∙ is
  Write-reads {tx} {tx'} (finalized height same) key bytes safe is =
      reads_same tx tx' key (ap chunks_of same) ∙ is

  pub Since-HasFile :
      (d : List ℕ) {tx tx' : Transaction}
      → Since tx tx'
      → M.marshal_file m ≡ some d
      → HasFile id d tx
      → HasFile id d tx'
  Since-HasFile d none_since enc h = h
  Since-HasFile d (then_since before w safe) enc h =
      Write-HasFile d w enc safe (Since-HasFile d before enc h)

  pub Since-reads :
      {tx tx' : Transaction} (key : Hash) (bytes : List ℕ)
      → Since tx tx'
      → tx_get_chunk P s tx key ≡ ok (some bytes)
      → tx_get_chunk P s tx' key ≡ ok (some bytes)
  Since-reads key bytes none_since is = is
  Since-reads key bytes (then_since before w safe) is =
      Write-reads w key bytes safe (Since-reads key bytes before is)

  pub Since-Writes :
      {start tx tx' : Transaction} → Writes start tx → Since tx tx' → Writes start tx'
  Since-Writes ws none_since = ws
  Since-Writes ws (then_since before w safe) = then_write (Since-Writes ws before) w

-- ===== src/State/Transaction/Synced.antt =====
-- The batch of a transaction of pkg/state/transaction.go, against the map of chunks that its own
-- readers ask.
use mathlib.Core.Path.{subst}
use blobcast.Crypto.Mmr.Snapshot.{snapshot}
use blobcast.Prelude.{
  append_assoc, ℕ, ◌≡◌, refl, sym, ap, ◌∙◌, Bool, true, false, Option, none, some, List, [], ◌∷◌,
  ◌++◌, Bool-cases, inl, inr, if◌then◌else◌, ◌==◌,
}
use blobcast.Prelude.Maps.{Map, nat_eq, lookup}
use blobcast.Prelude.Outcome.{bind-eq-ok, ok}
use blobcast.Crypto.{Blake3, Hash, IsHash, bytes_equal}
use blobcast.Crypto.Mmr.{Mmr, hash_eq}
use blobcast.Types.Blob.{BlobIdentifier, blob_bytes}
use blobcast.Types.Block.{Block}
use blobcast.Types.Block.Cache.{block_hash, HashCache}
use blobcast.State.Keys.{
  block_prefix, block_hash_prefix, dir_manifest_prefix, state_mmr_prefix, key_finalized_height,
  prefix_height_key, prefix_key, chunk_prefix, chunk_hash_prefix, file_manifest_prefix,
  prefix_key-same, chunk_key-ne-hash_key,
}
use blobcast.State.Store.{Batch, Got, found, last_write, Protobuf, FileManifest, DirectoryManifest}
use blobcast.State.Chain
use blobcast.State.Transaction.{
  batch_set, marshalled, Transaction, Pointer, new_transaction, put_chunk, find_in,
  put_file_manifest, put_directory_manifest, put_block, put_state_mmr, put_state_mmr_raw,
}
use blobcast.State.Transaction.Reads.{put_chunk_parts, put_file_manifest_parts, find_in-put_in}

pub last_write-append :
    (key : List ℕ) (ops more : Batch) (old : Got)
    → last_write key (ops ++ more) old ≡ last_write key more (last_write key ops old)
unfolding last_write
last_write-append key [] more old = refl
last_write-append key ((k, v) ∷ ops) more old = last_write-append key ops more _

-- A pending value, or else what the database holds.
abbrev pub over : Option (List ℕ) → Got → Got
over none old = old
over (some v) old = found v

-- The batch and the map of pending chunks agree.
pub record IsSynced (tx : Transaction) : Type 0 where
  pub chunks :
      (key : Hash) (old : Got)
      → IsHash key
      → last_write (prefix_key key chunk_prefix) tx.batch old
        ≡ over (find_in key tx.pending_chunks) old

-- Keys that are no keys of chunks.
abbrev pub NoChunks : Batch → Type 0
NoChunks ops = (j : Hash) (old : Got) → last_write (prefix_key j chunk_prefix) ops old ≡ old

pub new_transaction-IsSynced : IsSynced new_transaction
unfolding last_write find_in lookup
new_transaction-IsSynced = record { chunks = λ key old h. refl }

-- A write of another kind.
pub other-IsSynced :
    (tx tx' : Transaction) (ops : Batch)
    → NoChunks ops
    → tx'.batch ≡ tx.batch ++ ops
    → tx'.pending_chunks ≡ tx.pending_chunks
    → IsSynced tx
    → IsSynced tx'
other-IsSynced tx tx' ops no_chunk eb ep v = record {
  chunks = λ j old h.
      rw (eb, ep, last_write-append (prefix_key j chunk_prefix) tx.batch ops old)
        (no_chunk j _ ∙ v.chunks j old h);
}

chunk_writes :
    (key j : Hash) (value hash : List ℕ) (old : Got)
    → IsHash key
    → IsHash j
    → last_write
        (prefix_key j chunk_prefix)
        ((prefix_key key chunk_prefix, value) ∷ (prefix_key key chunk_hash_prefix, hash) ∷ [])
        old
      ≡ (if bytes_equal key j then found value else old)
unfolding last_write
chunk_writes key j value hash old hk hj =
    rw (chunk_key-ne-hash_key key j (hk ∙ sym hj), prefix_key-same chunk_prefix key j) refl

over-if :
    (b : Bool) (v : List ℕ) (o : Option (List ℕ)) (old : Got)
    → (if b then found v else over o old) ≡ over (if b then some v else o) old
over-if true v o old = refl
over-if false v o old = refl

pub put_chunk-IsSynced :
    (tx tx' : Transaction) (key : Hash) (value : List ℕ) (hash : Hash)
    → IsHash key
    → put_chunk tx key value hash ≡ ok tx'
    → IsSynced tx
    → IsSynced tx'
put_chunk-IsSynced tx tx' key value hash hk e v =
    let (c, h, ec, eh, same) = put_chunk_parts tx key value hash e in
    rw same (record {
      chunks = λ j old hj.
          last_write-append (prefix_key j chunk_prefix) tx.batch _ old
          ∙ chunk_writes key j value hash _ hk hj
          ∙ ap (λ o. if bytes_equal key j then found value else o) (v.chunks j old hj)
          ∙ over-if (bytes_equal key j) value (find_in j tx.pending_chunks) old
          ∙ ap (λ o. over o old) (sym (find_in-put_in key j value tx.pending_chunks ec));
    })

abbrev pub one : List ℕ → List ℕ → Batch
one key value = (key, value) ∷ []

-- None of the other kinds of keys is the key of a chunk.
file_key : (id v : List ℕ) → NoChunks (one (prefix_key id file_manifest_prefix) v)
unfolding last_write prefix_key bytes_equal
file_key id v j old = refl

dir_key : (id v : List ℕ) → NoChunks (one (prefix_key id dir_manifest_prefix) v)
unfolding last_write prefix_key bytes_equal
dir_key id v j old = refl

mmr_key : (height : ℕ) (v : List ℕ) → NoChunks (one (prefix_height_key height state_mmr_prefix) v)
unfolding last_write prefix_height_key prefix_key bytes_equal
mmr_key height v j old = refl

pub finalized_key : (v : List ℕ) → NoChunks (one key_finalized_height v)
unfolding last_write prefix_key bytes_equal
finalized_key v j old = refl

block_keys :
    (height : ℕ) (hash v w : List ℕ)
    → NoChunks
        (one (prefix_height_key height block_prefix) v ++ one (prefix_key hash block_hash_prefix) w)
unfolding last_write prefix_height_key prefix_key bytes_equal
block_keys height hash v w j old = refl

abbrev pub batch_of : Transaction → Batch
batch_of tx = tx.batch

abbrev pub chunks_of : Transaction → Option (Map Hash (List ℕ))
chunks_of tx = tx.pending_chunks

pub put_file_manifest-IsSynced :
    (M : Protobuf) (tx tx' : Transaction) (at : Pointer) (id : BlobIdentifier) (m : FileManifest)
    → put_file_manifest M tx at id m ≡ ok tx'
    → IsSynced tx
    → IsSynced tx'
put_file_manifest-IsSynced M tx tx' at id m e v =
    let (d, ms, ed, em, same) = put_file_manifest_parts M tx at id m e in
    other-IsSynced tx tx' _ (file_key (blob_bytes id) d) (ap batch_of same) (ap chunks_of same) v

pub put_directory_manifest-IsSynced :
    (M : Protobuf) (tx tx' : Transaction) (id : BlobIdentifier) (m : DirectoryManifest)
    → put_directory_manifest M tx id m ≡ ok tx'
    → IsSynced tx
    → IsSynced tx'
unfolding put_directory_manifest
put_directory_manifest-IsSynced M tx tx' id m e v =
    let (d, ed, last) = bind-eq-ok (marshalled (M.marshal_dir m)) _ e in
    let same : tx' ≡ batch_set tx (prefix_key (blob_bytes id) dir_manifest_prefix) d = cc last in
    other-IsSynced tx tx' _ (dir_key (blob_bytes id) d) (ap batch_of same) (ap chunks_of same) v

pub put_state_mmr-IsSynced :
    (tx tx' : Transaction) (height : ℕ) (m : Mmr)
    → put_state_mmr tx height m ≡ ok tx'
    → IsSynced tx
    → IsSynced tx'
unfolding put_state_mmr
put_state_mmr-IsSynced tx tx' height m e v = elim (Bool-cases (height == 0)) [
  | inl genesis ↦ let same : tx ≡ tx' = cc (rw genesis at e) in subst IsSynced same v
  | inr later ↦
      let (bytes, eb, last) = bind-eq-ok (Chain.or_panic (snapshot m)) _ (rw later at e) in
      let same : tx' ≡ batch_set tx (prefix_height_key height state_mmr_prefix) bytes = cc last in
      other-IsSynced tx tx' _ (mmr_key height bytes) (ap batch_of same) (ap chunks_of same) v
]

pub put_state_mmr_raw-IsSynced :
    (tx tx' : Transaction) (height : ℕ) (raw : List ℕ)
    → tx' ≡ put_state_mmr_raw tx height raw
    → IsSynced tx
    → IsSynced tx'
unfolding put_state_mmr_raw
put_state_mmr_raw-IsSynced tx tx' height raw e v = elim (Bool-cases (height == 0)) [
  | inl genesis ↦ let same : tx ≡ tx' = sym (rw genesis at e) in subst IsSynced same v
  | inr later ↦
      let same : tx' ≡ batch_set tx (prefix_height_key height state_mmr_prefix) raw =
        rw later at e in
      other-IsSynced tx tx' _ (mmr_key height raw) (ap batch_of same) (ap chunks_of same) v
]

pub put_block-IsSynced :
    (B : Blake3) (c : HashCache) (tx tx' : Transaction) (height : ℕ) (b : Block)
    → tx' ≡ (put_block B c tx height b).0
    → IsSynced tx
    → IsSynced tx'
unfolding put_block
put_block-IsSynced B c tx tx' height b same v =
    other-IsSynced tx tx' _ (block_keys height (block_hash B c b).0 _ _)
      (ap batch_of same ∙ append_assoc tx.batch _ _) (ap chunks_of same) v

-- ===== src/Sync/Stream/Processed.antt =====
-- `processStreamedBlock` of pkg/sync/grpc.go on what `StreamBlocks` of pkg/grpc/sync/server.go sent.
use mathlib.Core.Path.{subst}
use blobcast.Prelude.{ℕ, ◌<◌, ◌≡◌, refl, Option, some, List, [], ◌∷◌, length, ==_iff}
use blobcast.Prelude.Maps.{lookup}
use blobcast.Prelude.Outcome.{ok, bind-eq-ok}
use blobcast.Crypto.{Blake3, Hash, IsHash, hash_of_slice-whole}
use blobcast.Crypto.Mmr.{hash_eq}
use blobcast.Types.Blob.{BlobIdentifier}
use blobcast.Types.Block.Cache.{HashCache, header_hash}
use blobcast.Types.Block.Header.{IsHeader}
use blobcast.Types.Block.Body.{IsBody}
use blobcast.Types.Block.Proto.{Timestamps, block_proto, block_from_proto-block_proto}
use blobcast.State.Store.{Pebble, Protobuf}
use blobcast.State.Chain
use blobcast.Node.{existing}
use blobcast.Node.Checked.{existing-eq-ok}
use blobcast.Sync.Stream.{
  Streamed, each, chunk_with_hash, snapshot_at, streamed, response, ProcessedBlock, CountError,
  wrong_chunks, wrong_files, wrong_dirs, entries, same_count, processed_block, with_logged_hash,
  process_streamed_block,
}
use blobcast.Sync.Stream.Chunks.{Each, each-Each, Each-length, Mirrors, chunk_maps-Mirrors}

-- An entry is an identifier with the value that the state has for it.
abbrev pub Stored :
    {A : Type 0}
    → (BlobIdentifier → Chain.Res (Option A))
    → BlobIdentifier
    → BlobIdentifier × A
    → Type 0
Stored get id e = (e.0 ≡ id) × (get id ≡ ok (some e.1))

entries-Stored :
    {A : Type 0} (P : Pebble) (s : Chain.ChainState P) (get : BlobIdentifier → Chain.Res (Option A))
    (ids : List BlobIdentifier) (values : List A)
    → Each (λ id a. existing (get id) ≡ ok a) ids values
    → Each (Stored get) ids (entries ids values)
unfolding entries
entries-Stored P s get [] [] h = tt
entries-Stored P s get [] (a ∷ values) h = elim h [ ]
entries-Stored P s get (id ∷ ids) [] h = elim h [ ]
entries-Stored P s get (id ∷ ids) (a ∷ values) (r, h) =
    ((refl, existing-eq-ok P s (get id) a r), entries-Stored P s get ids values h)

no_entry : {V : Type 0} (k : Hash) {v : V} → lookup k [] ≡ some v → ⊥
unfolding lookup
no_entry k e = cc e

same_count_ok :
    {A C : Type 0} (e : CountError) (xs : List A) (cs : List C)
    → length xs ≡ length cs
    → same_count e xs cs ≡ ok tt
unfolding same_count
same_count_ok e xs cs h = rw ((==_iff _ _).1 h)

module _ (P : Pebble) (s : Chain.ChainState P) (M : Protobuf) where
  -- What the server read for a height, part by part.
  record Parts (height : ℕ) (x : Streamed) : Type 0 where
    block_read : Chain.get_block P s height ≡ ok (some x.block)
    range_read : snapshot_at P s height ≡ ok x.mmr_snapshot
    chunks_read : Each (λ id c. chunk_with_hash P s id ≡ ok c) x.block.body.chunks x.chunks
    files_read :
        Each (λ id m. existing (Chain.get_file_manifest P M s id) ≡ ok m) x.block.body.files x.files
    dirs_read :
        Each
          (λ id m. existing (Chain.get_directory_manifest P M s id) ≡ ok m)
          x.block.body.dirs
          x.dirs

  streamed-Parts : (height : ℕ) (x : Streamed) → streamed P s M height ≡ ok x → Parts height x
  unfolding streamed
  streamed-Parts height x e =
      let (b, is_b, e1) = bind-eq-ok (existing (Chain.get_block P s height)) _ e in
      let (range, is_range, e2) = bind-eq-ok (snapshot_at P s height) _ e1 in
      let (cs, is_cs, e3) = bind-eq-ok (each (chunk_with_hash P s) b.body.chunks) _ e2 in
      let (fs, is_fs, e4) =
        bind-eq-ok (each (λ id. existing (Chain.get_file_manifest P M s id)) b.body.files) _ e3 in
      let (ds, is_ds, e5) =
        bind-eq-ok (each (λ id. existing (Chain.get_directory_manifest P M s id)) b.body.dirs) _
          e4 in
      let all : Streamed = record {
        block = b;
        chunks = cs;
        files = fs;
        dirs = ds;
        mmr_snapshot = range;
      } in
      let same : all ≡ x = cc e5 in
      subst (Parts height) same (record {
        block_read = existing-eq-ok P s (Chain.get_block P s height) b is_b;
        range_read = is_range;
        chunks_read = each-Each (chunk_with_hash P s) b.body.chunks cs is_cs;
        files_read = each-Each _ b.body.files fs is_fs;
        dirs_read = each-Each _ b.body.dirs ds is_ds;
      })

  module _ (T : Timestamps) (B : Blake3) where
    -- A processed block that has all that the state has for its height.
    pub record Copies (c : HashCache) (height : ℕ) (d : ProcessedBlock) : Type 0 where
      pub block_same : Chain.get_block P s height ≡ ok (some d.block)
      pub height_same : d.height ≡ d.block.header.height
      pub chunks_same : Mirrors P s d.block.body.chunks d.chunks d.chunk_hashes
      pub files_same :
          Each (Stored (Chain.get_file_manifest P M s)) d.block.body.files d.file_manifests
      pub dirs_same :
          Each (Stored (Chain.get_directory_manifest P M s)) d.block.body.dirs d.dir_manifests
      pub range_same : snapshot_at P s height ≡ ok d.mmr_snapshot
      pub hash_same : d.block_hash ≡ (header_hash B c d.block.header).0

    -- What one node streams for a height, another takes apart without an error, and it has then the
    -- same block, for each of its chunks, files and directories the bytes, hash or manifest that the
    -- first node's state has, the same range, and the hash that the first node has for the block,
    -- whatever hashes are cached at the second: if the fields of the block fit their widths, and the cached hashes have 32 bytes.
    pub streamed_block_is_copied :
        (c mine : HashCache) (height : ℕ) (x : Streamed)
        → streamed P s M height ≡ ok x
        → IsHeader x.block.header
        → x.block.header.timestamp.nanos < 1000000000
        → IsBody x.block.body
        → IsHash (header_hash B c x.block.header).0
        → (d : ProcessedBlock) × ((process_streamed_block T B mine (response T B c x).0).0 ≡ ok d)
          × Copies c height d
    unfolding process_streamed_block processed_block with_logged_hash response block_proto
    streamed_block_is_copied c mine height x e vh small vb is_hash =
        let parts : Parts height x = streamed-Parts height x e in
        let body = x.block.body in
        let (m, hashes, run, mirrors, _) =
          chunk_maps-Mirrors P s body.chunks x.chunks [] [] parts.chunks_read
            (λ k v none_there. absurd (no_entry k none_there))
            (λ k h none_there. absurd (no_entry k none_there)) in
        let d : ProcessedBlock = record {
          height = x.block.header.height;
          block = x.block;
          chunks = m;
          chunk_hashes = hashes;
          file_manifests = entries body.files x.files;
          dir_manifests = entries body.dirs x.dirs;
          mmr_snapshot = x.mmr_snapshot;
          block_hash = (header_hash B c x.block.header).0;
        } in
        (
          d,
          rw (
            block_from_proto-block_proto T B c x.block vh small vb,
            same_count_ok wrong_chunks x.chunks body.chunks (Each-length _ _ _ parts.chunks_read),
            same_count_ok wrong_files x.files body.files (Each-length _ _ _ parts.files_read),
            same_count_ok wrong_dirs x.dirs body.dirs (Each-length _ _ _ parts.dirs_read),
            hash_of_slice-whole _ is_hash,
            run,
          ),
          record {
            block_same = parts.block_read;
            height_same = refl;
            chunks_same = mirrors;
            files_same = entries-Stored P s _ body.files x.files parts.files_read;
            dirs_same = entries-Stored P s _ body.dirs x.dirs parts.dirs_read;
            range_same = parts.range_read;
            hash_same = refl;
          },
        )

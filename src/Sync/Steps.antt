-- ===== src/Sync/Steps.antt =====
-- One height of `SyncChain` of pkg/sync/chain.go that returns a block.
use mathlib.Core.Path.{subst}
use blobcast.Prelude.{
  ℕ, ◌≡◌, refl, sym, ap, ◌∙◌, ◌%◌, ◌+◌, ◌-◌, ◌^◌, ◌<◌, Option, some, List, ◌++◌, Bool-cases, inl,
  inr, ltb, if◌then◌else◌, ◌==◌, not, arith,
}
use blobcast.Prelude.Outcome.{Outcome, ok}
use blobcast.Util.{bytes_from_uint64, bytes_from_uint64_key, uint64_from_bytes}
use blobcast.Crypto.Mmr.{Mmr}
use blobcast.Crypto.{Blake3}
use blobcast.Types.Block.{Block, block_bytes}
use blobcast.Types.Block.Cache.{block_hash}
use blobcast.Types.Block.Header.{IsHeader, stored_header, read_whole}
use blobcast.Types.Block.Body.{IsBody}
use blobcast.Types.Block.RoundTrip.{block_from_bytes-block_bytes}
use blobcast.State.Keys.{
  prefix_key, prefix_height_key, key_finalized_height, block_prefix, block_hash_prefix,
}
use blobcast.State.Store.{Pebble, Protobuf, Batch, found, last_write}
use blobcast.State.Chain
use blobcast.State.Transaction.{put_block, put_state_mmr, set_finalized_height}
use blobcast.State.Transaction.Synced.{one}
use blobcast.State.Transaction.Durable.{commit_parts}
use blobcast.Sync.Monad.{
  SyncError, height_mismatch, Work, pure, fail, lift, write_tx, bind-eq-ok, pure-eq-ok,
}
use blobcast.Sync.Blocks.{
  BlobStore, Node, stamped, hash_block, store_block, produce_block, link_block, apply_block,
  finalize_block, sync_height, produce_block_from_celestia_height, from_da, previous_block,
  add_roots, has_roots,
}
use blobcast.Sync.Tail.{block_under_height, finalized_under_key}
use blobcast.Sync.Returns.{in_transaction-eq-ok}

module _ (B : Blake3) (P : Pebble) (M : Protobuf) (D : BlobStore) (chain : List ℕ) where
  -- A batch that ends with a block, its hash's height and the finalized height.
  abbrev EndsWith : Batch → Block → Type 0
  EndsWith ops b =
      (pre : Batch) × (hash : List ℕ) × (v : List ℕ) × (ops
        ≡ (pre ++ one (prefix_height_key b.header.height block_prefix) (block_bytes b))
          ++ one (prefix_key hash block_hash_prefix) v)

  link_block-height :
      (s : Chain.ChainState P) (b : Block) (prev : Option Block) (b' : Block) (w w' : Work)
      → link_block B P M D chain s b prev w ≡ (ok b', w')
      → b'.header.height ≡ b.header.height
  unfolding link_block
  link_block-height s b prev b' w w' e =
      let before = b.header.height - 1 in
      let (p, w1, _, r1) = bind-eq-ok (previous_block B P M D chain s b prev) _ w e in
      let (_, w2, _, r2) =
        bind-eq-ok (if not (p.header.height == before) then fail height_mismatch else pure tt) _ w1
          r1 in
      let (parent, w3, _, r3) = bind-eq-ok (hash_block B P M D chain p) _ w2 r2 in
      let (old, w4, _, r4) = bind-eq-ok (lift (Chain.get_state_mmr P s before)) _ w3 r3 in
      let m : Mmr = add_roots B P M D chain old b.header in
      let (_, w5, _, r5) =
        bind-eq-ok
          (if has_roots B P M D chain b.header
            then write_tx (λ tx. put_state_mmr tx b.header.height m)
            else pure tt)
          _ w4 r4 in
      ap (λ (x : Block). x.header.height) (sym (pure-eq-ok _ w5 r5).0)

  apply_parts :
      (s : Chain.ChainState P) (b : Block) (prev : Option Block) (b' : Block) (w w' : Work)
      → (if ltb 0 b.header.height then link_block B P M D chain s b prev else pure b) w
        ≡ (ok b', w')
      → b'.header.height ≡ b.header.height
  apply_parts s b prev b' w w' e = elim (Bool-cases (ltb 0 b.header.height)) [
    | inl later ↦ link_block-height s b prev b' w w' (rw later at e)
    | inr genesis ↦ ap (λ (x : Block). x.header.height) (sym (pure-eq-ok b w (rw genesis at e)).0)
  ]

  apply_block-eq-ok :
      (s : Chain.ChainState P) (b : Block) (prev : Option Block) (b' : Block) (w w' : Work)
      → apply_block B P M D chain s b prev w ≡ (ok b', w')
      → (b'.header.height ≡ b.header.height) × EndsWith w'.tx.batch b'
  unfolding apply_block store_block hash_block put_block
  apply_block-eq-ok s b prev b' w w' e =
      let (b1, w1, e1, r1) =
        bind-eq-ok (if ltb 0 b.header.height then link_block B P M D chain s b prev else pure b) _ w
          e in
      let same : b1 ≡ b' = cc (ap (λ (r : Outcome SyncError Block × Work). r.0) r1) in
      subst (λ (x : Block). (x.header.height ≡ b.header.height) × EndsWith w'.tx.batch x) same
        (
          apply_parts s b prev b1 w w1 e1,
          (
            w1.tx.batch,
            (block_hash B (block_hash B w1.cache b1).1 b1).0,
            bytes_from_uint64_key b1.header.height,
            sym (ap (λ (r : Outcome SyncError Block × Work). r.1.tx.batch) r1),
          ),
        )

  produce_block-height :
      (s : Chain.ChainState P) (height celestia_height : ℕ) (b : Block) (w w' : Work)
      → produce_block B P M D chain s height celestia_height w ≡ (ok b, w')
      → b.header.height ≡ height
  unfolding produce_block stamped
  produce_block-height s height celestia_height b w w' e =
      let (b0, w1, _, r1) =
        bind-eq-ok (produce_block_from_celestia_height B P M D chain s celestia_height) _ w e in
      let (time, w2, _, r2) = bind-eq-ok (from_da (D.get_time celestia_height)) _ w1 r1 in
      ap (λ (x : Block). x.header.height) (sym (pure-eq-ok _ w2 r2).0)

  pub read_finalized :
      (s : Chain.ChainState P) (height : ℕ)
      → height < 2 ^ 64
      → P.get s.db key_finalized_height ≡ found (bytes_from_uint64 height)
      → Chain.finalized_height P s ≡ ok height
  unfolding Chain.finalized_height uint64_from_bytes bytes_from_uint64
  read_finalized s height h e = rw (e, read_whole 8 height h) refl

  read_block :
      (s : Chain.ChainState P) (b : Block)
      → IsHeader b.header
      → IsBody b.body
      → P.get s.db (prefix_height_key b.header.height block_prefix) ≡ found (block_bytes b)
      → Chain.get_block P s b.header.height
        ≡ ok (some (record b { header = stored_header b.header }))
  unfolding Chain.get_block
  read_block s b vh vb e =
      let key : List ℕ = prefix_height_key b.header.height block_prefix in
      rw (Chain.get_block, e, block_from_bytes-block_bytes b (P.spare s.db key) vh vb) refl

  -- A height that returns a block returns one of that height.
  pub sync_height-height :
      (n n' : Node B P M D chain) (height offset : ℕ) (prev : Option Block) (b : Block)
      → sync_height B P M D chain n height offset prev ≡ (ok b, n')
      → b.header.height ≡ height
  unfolding sync_height finalize_block set_finalized_height
  sync_height-height n n' height offset prev b e =
      let (s, w, w4, tx', run, done) = in_transaction-eq-ok B P M D chain n n' _ b e in
      let celestia_height = (height + offset) % 2 ^ 64 in
      let (b0, w1, e1, r1) =
        bind-eq-ok (produce_block B P M D chain s height celestia_height) _ w run in
      let (b1, w2, e2, r2) = bind-eq-ok (apply_block B P M D chain s b0 prev) _ w1 r1 in
      let same : b1 ≡ b = cc (ap (λ (r : Outcome SyncError Block × Work). r.0) r2) in
      ap (λ (x : Block). x.header.height) (sym same)
      ∙ (apply_block-eq-ok s b0 prev b1 w1 w2 e2).0
      ∙ produce_block-height s height celestia_height b0 w w1 e1

  -- A height below 2^56 that returns a block, whose header and body have their widths, has made it
  -- durable: the block has that height, the database gives this height as the finalized one, and it
  -- gives the block under its height, without the nanoseconds of its timestamp.
  pub sync_height_durable :
      (n n' : Node B P M D chain) (height offset : ℕ) (prev : Option Block) (b : Block)
      → height < 2 ^ 56
      → IsHeader b.header
      → IsBody b.body
      → sync_height B P M D chain n height offset prev ≡ (ok b, n')
      → (b.header.height ≡ height)
        × (Chain.finalized_height P n'.state ≡ ok height)
        × (Chain.get_block P n'.state height
            ≡ ok (some (record b { header = stored_header b.header })))
  unfolding sync_height finalize_block set_finalized_height
  sync_height_durable n n' height offset prev b small vh vb e =
      let (s, w, w4, tx', run, done) = in_transaction-eq-ok B P M D chain n n' _ b e in
      let celestia_height = (height + offset) % 2 ^ 64 in
      let (b0, w1, e1, r1) =
        bind-eq-ok (produce_block B P M D chain s height celestia_height) _ w run in
      let (b1, w2, e2, r2) = bind-eq-ok (apply_block B P M D chain s b0 prev) _ w1 r1 in
      let f : List ℕ = bytes_from_uint64 height in
      let same : b1 ≡ b = cc (ap (λ (r : Outcome SyncError Block × Work). r.0) r2) in
      let (h1, (pre, hash, v, shape)) = apply_block-eq-ok s b0 prev b1 w1 w2 e2 in
      let is_height : b.header.height ≡ height =
        ap (λ (x : Block). x.header.height) (sym same)
        ∙ h1
        ∙ produce_block-height s height celestia_height b0 w w1 e1 in
      let key : List ℕ = prefix_height_key b.header.height block_prefix in
      let last : w4.tx.batch ≡ w2.tx.batch ++ one key_finalized_height f =
        sym (ap (λ (r : Outcome SyncError Block × Work). r.1.tx.batch) r2) in
      let whole =
        last
        ∙ ap (λ (ops : Batch). ops ++ one key_finalized_height f) shape
        ∙ ap
            (λ (x : Block).
              ((pre ++ one (prefix_height_key x.header.height block_prefix) (block_bytes x))
                ++ one (prefix_key hash block_hash_prefix) v)
              ++ one key_finalized_height f)
            same in
      let db = commit_parts P s n'.state w4.tx tx' done in
      (
        is_height,
        read_finalized n'.state height (omega arith) (
            P.get-commit s.db n'.state.db w4.tx.batch key_finalized_height db
            ∙ ap (λ ops. last_write key_finalized_height ops (P.get s.db key_finalized_height)) last
            ∙ finalized_under_key w2.tx.batch f (P.get s.db key_finalized_height)),
        subst
            (λ k.
              Chain.get_block P n'.state k
              ≡ ok (some (record b { header = stored_header b.header })))
            is_height
            (read_block n'.state b vh vb (
              P.get-commit s.db n'.state.db w4.tx.batch key db
              ∙ ap (λ ops. last_write key ops (P.get s.db key)) whole
              ∙ block_under_height pre b.header.height (block_bytes b) hash v f (P.get s.db key)
                  (omega arith))),
      )

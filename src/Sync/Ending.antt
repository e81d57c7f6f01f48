-- ===== src/Sync/Ending.antt =====
-- What follows `SyncBlobs` in the transaction of a height of pkg/sync/chain.go: applying and
-- finalizing the block writes nothing that takes a file or a chunk away.
use mathlib.Core.Path.{subst}
use blobcast.Prelude.{
  ℕ, ◌-◌, ◌≡◌, sym, ap, ◌∙◌, Option, none, some, List, Bool, true, false, Bool-cases, inl, inr, ltb,
  ◌==◌, not, if◌then◌else◌,
}
use blobcast.Prelude.Outcome.{Outcome, ok}
use blobcast.Crypto.{Blake3}
use blobcast.Crypto.Mmr.{Mmr}
use blobcast.Types.Blob.{BlobIdentifier}
use blobcast.Types.Block.{Block}
use blobcast.State.Store.{Pebble, Protobuf, FileManifest}
use blobcast.State.Chain
use blobcast.State.Transaction.{Transaction, put_block, put_state_mmr, set_finalized_height}
use blobcast.State.Transaction.Durable.{Write}
use blobcast.State.Transaction.Since.{Since, none_since, then_since}
use blobcast.Sync.Monad.{
  SyncError, height_mismatch, no_previous, Work, Sync, pure, fail, lift, write_tx, bind-eq-ok,
  pure-eq-ok, lift-eq-ok, write_tx-eq-ok,
}
use blobcast.Sync.Blocks.{
  BlobStore, hash_block, store_block, link_block, apply_block, finalize_block, previous_block,
  add_roots, has_roots,
}

module _ (B : Blake3) (P : Pebble) (M : Protobuf) (D : BlobStore) (chain : List ℕ)
    (s : Chain.ChainState P) (id : BlobIdentifier) (m : FileManifest) where
  abbrev tx_of : Work → Transaction
  tx_of w = w.tx

  pub Since-trans :
      {t u v : Transaction} → Since P s M id m t u → Since P s M id m u v → Since P s M id m t v
  Since-trans a none_since = a
  Since-trans a (then_since b w safe) = then_since (Since-trans a b) w safe

  same-Since : {t u : Transaction} → t ≡ u → Since P s M id m t u
  same-Since {t} e = subst (Since P s M id m t) e none_since

  found_block-keeps :
      (o : Option Block) (p : Block) (w w' : Work)
      → (elim o as (λ _. Sync Block) [ none ↦ fail no_previous | some prev ↦ pure prev ]) w
        ≡ (ok p, w')
      → w ≡ w'
  found_block-keeps none p w w' e = absurd (cc e)
  found_block-keeps (some prev) p w w' e = (pure-eq-ok prev w e).1

  previous_block-keeps :
      (b : Block) (prev : Option Block) (p : Block) (w w' : Work)
      → previous_block B P M D chain s b prev w ≡ (ok p, w')
      → w ≡ w'
  unfolding previous_block
  previous_block-keeps b (some prev) p w w' e = (pure-eq-ok prev w e).1
  previous_block-keeps b none p w w' e =
      let (o, w1, e1, r1) = bind-eq-ok (lift (Chain.get_block P s (b.header.height - 1))) _ w e in
      (lift-eq-ok (Chain.get_block P s (b.header.height - 1)) w e1).1
      ∙ found_block-keeps o p w1 w' r1

  hash_block-keeps :
      (b : Block) (w w' : Work) {h : List ℕ}
      → hash_block B P M D chain b w ≡ (ok h, w')
      → w.tx ≡ w'.tx
  unfolding hash_block
  hash_block-keeps b w w' {h} e = ap (λ (r : Outcome SyncError (List ℕ) × Work). r.1.tx) e

  link_block-Since :
      (b : Block) (prev : Option Block) (b' : Block) (w w' : Work)
      → link_block B P M D chain s b prev w ≡ (ok b', w')
      → Since P s M id m w.tx w'.tx
  unfolding link_block
  link_block-Since b prev b' w w' e =
      let before = b.header.height - 1 in
      let (p, w1, e1, r1) = bind-eq-ok (previous_block B P M D chain s b prev) _ w e in
      let (_, w2, e2, r2) =
        bind-eq-ok (if not (p.header.height == before) then fail height_mismatch else pure tt) _ w1
          r1 in
      let (parent, w3, e3, r3) = bind-eq-ok (hash_block B P M D chain p) _ w2 r2 in
      let (old, w4, e4, r4) = bind-eq-ok (lift (Chain.get_state_mmr P s before)) _ w3 r3 in
      let range : Mmr = add_roots B P M D chain old b.header in
      let (_, w5, e5, r5) =
        bind-eq-ok
          (if has_roots B P M D chain b.header
            then write_tx (λ tx. put_state_mmr tx b.header.height range)
            else pure tt)
          _ w4 r4 in
      Since-trans
        (same-Since (
          ap tx_of (previous_block-keeps b prev p w w1 e1 ∙ checked p before w1 w2 e2)
          ∙ hash_block-keeps p w2 w3 e3
          ∙ ap tx_of (lift-eq-ok (Chain.get_state_mmr P s before) w3 e4).1))
        (Since-trans (range_put b.header.height range (has_roots B P M D chain b.header) w4 w5 e5)
          (same-Since (ap tx_of (pure-eq-ok _ w5 r5).1)))
    where
      checked :
          (p : Block) (before : ℕ) (v v' : Work)
          → (if not (p.header.height == before) then fail height_mismatch else pure tt) v
            ≡ (ok tt, v')
          → v ≡ v'
      checked p before v v' h = elim (Bool-cases (not (p.header.height == before))) [
        | inl off ↦ absurd (cc (rw off at h))
        | inr on ↦ (pure-eq-ok tt v (rw on at h)).1
      ]

      range_put :
          (height : ℕ) (range : Mmr) (has : Bool) (v v' : Work)
          → (if has then write_tx (λ tx. put_state_mmr tx height range) else pure tt) v
            ≡ (ok tt, v')
          → Since P s M id m v.tx v'.tx
      range_put height range false v v' h = same-Since (ap tx_of (pure-eq-ok tt v h).1)
      range_put height range true v v' h =
          let (tx, put, is) = write_tx-eq-ok (λ tx. put_state_mmr tx height range) v h in
          subst (Since P s M id m v.tx) (ap tx_of (sym is))
            (then_since none_since (Write.state_mmr height range put) tt)

  linked-Since :
      (b : Block) (prev : Option Block) (later : Bool) (b' : Block) (w w' : Work)
      → (if later then link_block B P M D chain s b prev else pure b) w ≡ (ok b', w')
      → Since P s M id m w.tx w'.tx
  linked-Since b prev true b' w w' e = link_block-Since b prev b' w w' e
  linked-Since b prev false b' w w' e = same-Since (ap tx_of (pure-eq-ok b w e).1)

  pub apply_block-Since :
      (b : Block) (prev : Option Block) (b' : Block) (w w' : Work)
      → apply_block B P M D chain s b prev w ≡ (ok b', w')
      → Since P s M id m w.tx w'.tx
  unfolding apply_block store_block
  apply_block-Since b prev b' w w' e =
      let (b1, w1, e1, r1) =
        bind-eq-ok (if ltb 0 b.header.height then link_block B P M D chain s b prev else pure b) _ w
          e in
      let (h, w2, e2, r2) = bind-eq-ok (hash_block B P M D chain b1) _ w1 r1 in
      let stored = put_block B w2.cache w2.tx b1.header.height b1 in
      let after : stored.0 ≡ w'.tx = ap (λ (r : Outcome SyncError Block × Work). r.1.tx) r2 in
      Since-trans (linked-Since b prev (ltb 0 b.header.height) b1 w w1 e1) (
        Since-trans (same-Since (hash_block-keeps b1 w1 w2 e2))
          (then_since none_since (Write.block B w2.cache b1.header.height b1 (sym after)) tt))

  pub finalize_block-Since :
      (height : ℕ) (w w' : Work)
      → finalize_block B P M D chain height w ≡ (ok tt, w')
      → Since P s M id m w.tx w'.tx
  unfolding finalize_block
  finalize_block-Since height w w' e =
      let (tx, set, is) = write_tx-eq-ok (λ tx. ok (set_finalized_height tx height)) w e in
      let same : tx ≡ set_finalized_height w.tx height = cc set in
      subst (Since P s M id m w.tx) (ap tx_of (sym is))
        (then_since none_since (Write.finalized height same) tt)

-- ===== src/Sync/Returns.antt =====
-- What runs inside one transaction of `SyncChain` of pkg/sync/chain.go, when it returns a block.
use blobcast.Prelude.{ℕ, ◌≡◌, ap, true, List, Bool-cases, inl, inr}
use blobcast.Prelude.Outcome.{Outcome, ok, err, panic}
use blobcast.Crypto.{Blake3}
use blobcast.Types.Block.{Block}
use blobcast.State.Store.{Pebble, Protobuf}
use blobcast.State.Chain
use blobcast.State.Transaction.{Transaction, new_transaction, begin_transaction, commit}
use blobcast.Sync.Monad.{SyncError, Work, Sync}
use blobcast.Sync.Blocks.{
  BlobStore, Node, finish_commit, finish, in_transaction_from, in_transaction,
}

module _ (B : Blake3) (P : Pebble) (M : Protobuf) (D : BlobStore) (chain : List ℕ) where
  finish_commit-eq-ok :
      (b0 b : Block) (c : Chain.Res Unit × (Transaction × Chain.ChainState P))
      (s' : Chain.ChainState P)
      → finish_commit B P M D chain b0 c ≡ (ok b, s')
      → (b0 ≡ b) × (tx' : Transaction) × (c ≡ (ok tt, (tx', s')))
  unfolding finish_commit
  finish_commit-eq-ok b0 b (ok done, (tx, s)) s' e = (
    cc e,
    tx,
    ap (λ (s : Chain.ChainState P). (ok done, (tx, s)))
        (ap (λ (p : Outcome SyncError Block × Chain.ChainState P). p.1) e),
  )
  finish_commit-eq-ok b0 b (err x, (tx, s)) s' e = absurd (cc e)
  finish_commit-eq-ok b0 b (panic, (tx, s)) s' e = absurd (cc e)

  finish-eq-ok :
      (s : Chain.ChainState P) (r : Outcome SyncError Block × Work) (b : Block)
      (n' : Node B P M D chain)
      → finish B P M D chain s r ≡ (ok b, n')
      → (r.0 ≡ ok b) × (tx' : Transaction) × (commit P s r.1.tx ≡ (ok tt, (tx', n'.state)))
  unfolding finish
  finish-eq-ok s (ok b0, w) b n' e =
      let (same, tx', done) =
        finish_commit-eq-ok b0 b (commit P s w.tx) n'.state
          (ap (λ (p : Outcome SyncError Block × Node B P M D chain). (p.0, p.1.state)) e) in
      (ap ok same, tx', done)
  finish-eq-ok s (err x, w) b n' e = absurd (cc e)
  finish-eq-ok s (panic, w) b n' e = absurd (cc e)

  -- A height that returns committed what its work left in the transaction.
  pub in_transaction-eq-ok :
      (n n' : Node B P M D chain) (work : Chain.ChainState P → Sync Block) (b : Block)
      → in_transaction B P M D chain n work ≡ (ok b, n')
      → (s : Chain.ChainState P) × (w : Work) × (w' : Work) × (tx' : Transaction) × (work s w
          ≡ (ok b, w'))
        × (commit P s w'.tx ≡ (ok tt, (tx', n'.state)))
  unfolding in_transaction in_transaction_from begin_transaction
  in_transaction-eq-ok n n' work b e = elim (Bool-cases n.state.pending) [
    | inl busy ↦ absurd (cc (rw busy at e))
    | inr free ↦
        let s : Chain.ChainState P = record n.state { pending = true } in
        let w : Work = record { tx = new_transaction; cache = n.cache; next = n.next } in
        let (same, tx', done) = finish-eq-ok s (work s w) b n' (rw free at e) in
        (s, w, (work s w).1, tx', ap (λ r. (r, (work s w).1)) same, done)
  ]

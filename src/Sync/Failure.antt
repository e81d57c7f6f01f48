-- ===== src/Sync/Failure.antt =====
-- One height of `SyncChain` of pkg/sync/chain.go that returns an error.
use blobcast.Prelude.{
  ℕ, ◌≡◌, refl, ap, ◌∙◌, true, Option, List, Bool-cases, Option-cases, inl, inr, ◌||◌,
}
use blobcast.Prelude.Outcome.{Outcome, ok, err, panic}
use blobcast.Crypto.{Blake3}
use blobcast.Types.Block.{Block}
use blobcast.State.Store.{Pebble, Protobuf}
use blobcast.State.Chain
use blobcast.State.Transaction.{Transaction, new_transaction, begin_transaction, commit, abort}
use blobcast.Sync.Monad.{SyncError, Work, Sync}
use blobcast.Sync.Blocks.{
  BlobStore, Node, finish_commit, finish, in_transaction_from, in_transaction, sync_height,
}

module _ (B : Blake3) (P : Pebble) (M : Protobuf) (D : BlobStore) (chain : List ℕ) where
  abort_keeps_db : (s : Chain.ChainState P) (tx : Transaction) → (abort P s tx).1.1.db ≡ s.db
  unfolding abort
  abort_keeps_db s tx = elim (Bool-cases (tx.committed || tx.aborted)) [
    | inl over ↦ rw over refl
    | inr fresh ↦ rw fresh refl
  ]

  commit_error_keeps_db :
      (s : Chain.ChainState P) (tx : Transaction) (y : Chain.StateError)
      → (commit P s tx).0 ≡ err y
      → (commit P s tx).1.1.db ≡ s.db
  unfolding commit
  commit_error_keeps_db s tx y e = elim (Bool-cases (tx.committed || tx.aborted)) [
    | inl over ↦ rw over refl
    | inr fresh ↦ elim (Option-cases (P.commit s.db tx.batch)) [
      | inl failed ↦ rw (fresh, failed) (abort_keeps_db s tx)
      | inr (db, done) ↦ absurd (cc (rw (fresh, done) at e))
    ]
  ]

  finish_commit_error :
      (b : Block) (c : Chain.Res Unit × (Transaction × Chain.ChainState P)) (x : SyncError)
      → (finish_commit B P M D chain b c).0 ≡ err x
      → (y : Chain.StateError) × (c.0 ≡ err y) × ((finish_commit B P M D chain b c).1 ≡ c.1.1)
  unfolding finish_commit
  finish_commit_error b (ok done, (tx, s)) x e = absurd (cc e)
  finish_commit_error b (err y, (tx, s)) x e = (y, refl, refl)
  finish_commit_error b (panic, (tx, s)) x e = absurd (cc e)

  finish_error_keeps_db :
      (s : Chain.ChainState P) (r : Outcome SyncError Block × Work) (x : SyncError)
      → (finish B P M D chain s r).0 ≡ err x
      → (finish B P M D chain s r).1.state.db ≡ s.db
  unfolding finish
  finish_error_keeps_db s (ok b, w) x e =
      let (y, failed, state) = finish_commit_error b (commit P s w.tx) x e in
      ap (λ (z : Chain.ChainState P). z.db) state ∙ commit_error_keeps_db s w.tx y failed
  finish_error_keeps_db s (err z, w) x e = abort_keeps_db s w.tx
  finish_error_keeps_db s (panic, w) x e = refl

  in_transaction_error_keeps_db :
      (n : Node B P M D chain) (work : Chain.ChainState P → Sync Block) (x : SyncError)
      → (in_transaction B P M D chain n work).0 ≡ err x
      → (in_transaction B P M D chain n work).1.state.db ≡ n.state.db
  unfolding in_transaction in_transaction_from begin_transaction
  in_transaction_error_keeps_db n work x e = elim (Bool-cases n.state.pending) [
    | inl busy ↦ rw busy refl
    | inr free ↦
        let s : Chain.ChainState P = record n.state { pending = true } in
        let w : Work = record { tx = new_transaction; cache = n.cache; next = n.next } in
        rw free (finish_error_keeps_db s (work s w) x (rw free at e))
  ]

  -- A height that returns an error, wherever it arose, leaves the database as it was.
  pub sync_height_error_keeps_db :
      (n : Node B P M D chain) (height offset : ℕ) (prev : Option Block) (x : SyncError)
      → (sync_height B P M D chain n height offset prev).0 ≡ err x
      → (sync_height B P M D chain n height offset prev).1.state.db ≡ n.state.db
  unfolding sync_height
  sync_height_error_keeps_db n height offset prev x e = in_transaction_error_keeps_db n _ x e

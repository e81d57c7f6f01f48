-- ===== src/State/Transaction/Lifecycle.antt =====
-- The life of a transaction in pkg/state/transaction.go: `BeginTransaction`, `Commit` and `Abort`.
use blobcast.Prelude.{◌≡◌, true, false, Option-cases, inl, inr, ◌||◌, arith}
use blobcast.Prelude.Outcome.{ok, err}
use blobcast.State.Store.{Pebble}
use blobcast.State.Chain
use blobcast.State.Transaction.{Transaction, new_transaction, begin_transaction, abort, commit}

module _ (P : Pebble) (s : Chain.ChainState P) (tx : Transaction) where
  -- After `Commit` of an open transaction, whether the database took the batch or not, the
  -- transaction is finished: committed in the one case and aborted in the other. A new one can
  -- begin, and each further `Commit` or `Abort` fails and changes nothing.
  pub commit_finishes :
      tx.committed || tx.aborted ≡ false
      → ((commit P s tx).1.0.committed || (commit P s tx).1.0.aborted ≡ true)
        × (begin_transaction P (commit P s tx).1.1
            ≡ ok (new_transaction, record (commit P s tx).1.1 { pending = true }))
        × (commit P (commit P s tx).1.1 (commit P s tx).1.0
            ≡ (err Chain.finished, (commit P s tx).1))
        × (abort P (commit P s tx).1.1 (commit P s tx).1.0
            ≡ (err Chain.finished, (commit P s tx).1))
  unfolding commit begin_transaction
  commit_finishes fresh = elim (Option-cases (P.commit s.db tx.batch)) [
    | inl failed ↦ rw (fresh, failed) (ground arith)
    | inr (db, done) ↦ rw (fresh, done) (ground arith)
  ]

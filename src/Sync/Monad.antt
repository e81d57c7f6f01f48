-- ===== src/Sync/Monad.antt =====
-- The state that the methods of `BlobcastChain` change, and the calls that may fail. What was
-- changed before an error stays changed.
use blobcast.Prelude.{sym, ◌≡◌, refl, ap, suc, Option, none, some}
use blobcast.Prelude.Outcome.{Outcome, ok, err, panic}
use blobcast.Types.Block.Cache.{HashCache}
use blobcast.State.Chain.{StateError}
use blobcast.State.Transaction.{Transaction, Pointer}

pub data SyncError : Type 0 where
  state_error : StateError → SyncError
  da_error bad_envelope unknown_blob no_previous height_mismatch : SyncError

-- The open transaction, the package's cache of header hashes, and the next free address.
pub record Work : Type 0 where
  pub tx : Transaction
  pub cache : HashCache
  pub next : Pointer

abbrev pub Sync : Type 0 → Type 0
Sync A = Work → Outcome SyncError A × Work

abbrev continue : {A B : Type 0} → Outcome SyncError A → (A → Sync B) → Sync B
continue (ok a) f w = f a w
continue (err e) f w = (err e, w)
continue panic f w = (panic, w)

infixl 5 ◌>>=◌ ◌>>◌
abbrev pub ◌>>=◌ : {A B : Type 0} → Sync A → (A → Sync B) → Sync B
◌>>=◌ m f w = let (r, w') = m w in continue r f w'

abbrev pub ◌>>◌ : {A B : Type 0} → Sync A → Sync B → Sync B
m >> k = m >>= λ _. k

abbrev pub pure : {A : Type 0} → A → Sync A
pure a w = (ok a, w)

abbrev pub fail : {A : Type 0} → SyncError → Sync A
fail e w = (err e, w)

abbrev pub or_crash : {A : Type 0} → Option A → Sync A
or_crash none w = (panic, w)
or_crash (some a) w = (ok a, w)

-- A missing value rejects; it is no error.
abbrev pub or_reject : {A B : Type 0} → Option A → (A → Sync (Option B)) → Sync (Option B)
or_reject none f = pure none
or_reject (some a) f = f a

-- A call of the state.
abbrev pub lift : {A : Type 0} → Outcome StateError A → Sync A
lift (ok a) w = (ok a, w)
lift (err e) w = (err (state_error e), w)
lift panic w = (panic, w)

-- A call that reads the transaction.
abbrev pub read_tx : {A : Type 0} → (Transaction → Outcome StateError A) → Sync A
read_tx f w = lift (f w.tx) w

abbrev written : Work → Outcome StateError Transaction → Outcome SyncError Unit × Work
written w (ok tx) = (ok tt, record w { tx = tx })
written w (err e) = (err (state_error e), w)
written w panic = (panic, w)

-- A write to the transaction.
abbrev pub write_tx : (Transaction → Outcome StateError Transaction) → Sync Unit
write_tx f w = elim (f w.tx) [
  | ok tx ↦ (ok tt, record w { tx = tx })
  | err e ↦ (err (state_error e), w)
  | panic ↦ (panic, w)
]

-- `&types.BlobIdentifier{...}`: an address that no other identifier has.
abbrev pub new_pointer : Sync Pointer
new_pointer w = (ok w.next, record w { next = suc w.next })

module _ {A B : Type 0} where
  continue-eq-ok :
      (r : Outcome SyncError A) (f : A → Sync B) (w : Work) {b : B} {w' : Work}
      → continue r f w ≡ (ok b, w')
      → (a : A) × (r ≡ ok a) × (f a w ≡ (ok b, w'))
  continue-eq-ok (ok a) f w h = (a, refl, h)
  continue-eq-ok (err e) f w h = cc (ap (λ (p : Outcome SyncError B × Work). p.0) h)
  continue-eq-ok panic f w h = cc (ap (λ (p : Outcome SyncError B × Work). p.0) h)

  -- A block that returns has parts that returned.
  pub bind-eq-ok :
      (m : Sync A) (f : A → Sync B) (w : Work) {b : B} {w' : Work}
      → (m >>= f) w ≡ (ok b, w')
      → (a : A) × (w1 : Work) × (m w ≡ (ok a, w1)) × (f a w1 ≡ (ok b, w'))
  bind-eq-ok m f w h =
      let (a, e, rest) = continue-eq-ok (m w).0 f (m w).1 h in
      (a, (m w).1, ap (λ r. (r, (m w).1)) e, rest)

module _ {A : Type 0} where
  pub pure-eq-ok :
      (x : A) (w : Work) {a : A} {w' : Work} → pure x w ≡ (ok a, w') → (x ≡ a) × (w ≡ w')
  pure-eq-ok x w h = (
    cc (ap (λ (p : Outcome SyncError A × Work). p.0) h),
    ap (λ (p : Outcome SyncError A × Work). p.1) h,
  )

  pub or_crash-eq-ok :
      (o : Option A) (w : Work) {a : A} {w' : Work}
      → or_crash o w ≡ (ok a, w')
      → (o ≡ some a) × (w ≡ w')
  or_crash-eq-ok none w h = cc (ap (λ (p : Outcome SyncError A × Work). p.0) h)
  or_crash-eq-ok (some x) w h = let (e, same) = pure-eq-ok x w h in (ap some e, same)

  pub lift-eq-ok :
      (r : Outcome StateError A) (w : Work) {a : A} {w' : Work}
      → lift r w ≡ (ok a, w')
      → (r ≡ ok a) × (w ≡ w')
  lift-eq-ok (ok x) w h = let (e, same) = pure-eq-ok x w h in (ap ok e, same)
  lift-eq-ok (err x) w h = cc (ap (λ (p : Outcome SyncError A × Work). p.0) h)
  lift-eq-ok panic w h = cc (ap (λ (p : Outcome SyncError A × Work). p.0) h)

write_tx_result :
    (r : Outcome StateError Transaction) (w w' : Work)
    → written w r ≡ (ok tt, w')
    → (tx : Transaction) × (r ≡ ok tx) × (w' ≡ record w { tx = tx })
write_tx_result (ok tx) w w' h = (tx, refl, sym (ap (λ (p : Outcome SyncError Unit × Work). p.1) h))
write_tx_result (err x) w w' h = cc (ap (λ (p : Outcome SyncError Unit × Work). p.0) h)
write_tx_result panic w w' h = cc (ap (λ (p : Outcome SyncError Unit × Work). p.0) h)

pub write_tx-eq-ok :
    (f : Transaction → Outcome StateError Transaction) (w : Work) {u : Unit} {w' : Work}
    → write_tx f w ≡ (ok u, w')
    → (tx : Transaction) × (f w.tx ≡ ok tx) × (w' ≡ record w { tx = tx })
write_tx-eq-ok f w {w' = w'} h = write_tx_result (f w.tx) w w' h

pub or_reject-eq-some :
    {A B : Type 0} (o : Option A) (f : A → Sync (Option B)) (w : Work) {b : B} {w' : Work}
    → or_reject o f w ≡ (ok (some b), w')
    → (a : A) × (o ≡ some a) × (f a w ≡ (ok (some b), w'))
or_reject-eq-some none f w h = absurd (cc (pure-eq-ok none w h).0)
or_reject-eq-some (some a) f w h = (a, refl, h)

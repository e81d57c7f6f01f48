-- ===== src/Sync/Start.antt =====
-- `SyncChain` of pkg/sync/chain.go as a whole: where it begins, the historical sync, and the live
-- sync over the heads that the subscription sends until the context is done.
use blobcast.Prelude.{ℕ, ◌+◌, ◌%◌, ◌^◌, Option, none, some, List, [], ◌∷◌, ◌==◌, ltb, if◌then◌else◌}
use blobcast.Prelude.Outcome.{Outcome, ok, err, panic}
use blobcast.Crypto.{Blake3}
use blobcast.Types.Block.{Block}
use blobcast.State.Store.{Pebble, Protobuf}
use blobcast.State.Chain
use blobcast.Sync.Monad.{SyncError, state_error, da_error}
use blobcast.Sync.Blocks.{BlobStore, Node, sync_genesis}
use blobcast.Sync.Loops.{
  caught_up, stopped, crashed, unanswered, Progress, Step, catch_up, follow_head,
}

module _ (B : Blake3) (P : Pebble) (M : Protobuf) (D : BlobStore) (chain : List ℕ) where
  unfoldable pub and_then :
      Step B P M D chain → (Progress B P M D chain → Step B P M D chain) → Step B P M D chain
  and_then (caught_up, g) next = next g
  and_then (stopped e, g) next = (stopped e, g)
  and_then (crashed, g) next = (crashed, g)
  and_then (unanswered, g) next = (unanswered, g)

  -- The end of the list is that of the context.
  unfoldable pub follow : ℕ → ℕ → List ℕ → Progress B P M D chain → Step B P M D chain
  unfolding and_then
  follow fuel offset [] g = (caught_up, g)
  follow fuel offset (head ∷ heads) g =
      and_then (follow_head B P M D chain fuel offset head g) (λ g'. follow fuel offset heads g')

  -- `SubscribeToNewHeaders` may fail.
  unfoldable pub subscribe : ℕ → ℕ → Option (List ℕ) → Progress B P M D chain → Step B P M D chain
  unfolding follow
  subscribe fuel offset none g = (stopped da_error, g)
  subscribe fuel offset (some heads) g = follow fuel offset heads g

  -- A number of the state, or the end.
  unfoldable pub with_number :
      Chain.Res ℕ → Progress B P M D chain → (ℕ → Step B P M D chain) → Step B P M D chain
  with_number (ok v) g next = next v
  with_number (err e) g next = (stopped (state_error e), g)
  with_number panic g next = (crashed, g)

  unfoldable pub after_genesis :
      Progress B P M D chain
      → Outcome SyncError Block × Node B P M D chain
      → (Progress B P M D chain → Step B P M D chain)
      → Step B P M D chain
  after_genesis g (ok b, n) next =
      next (record g { node = n; next_height = 1; prev_block = some b })
  after_genesis g (err e, n) next = (stopped e, record g { node = n })
  after_genesis g (panic, n) next = (crashed, record g { node = n })

  -- `LatestHeight` once, and then the loops.
  unfoldable pub run_loops :
      ℕ → ℕ → List (Option ℕ) → Option (List ℕ) → Progress B P M D chain → Step B P M D chain
  unfolding subscribe
  run_loops fuel offset [] heads g = (unanswered, g)
  run_loops fuel offset (none ∷ answers) heads g = (stopped da_error, g)
  run_loops fuel offset (some latest ∷ answers) heads g =
      and_then (catch_up B P M D chain fuel offset latest answers g)
        (λ g'. subscribe fuel offset heads g')

  abbrev pub at_start : Node B P M D chain → ℕ → Progress B P M D chain
  at_start n height = record { node = n; next_height = height; prev_block = none; published = [] }

  unfoldable pub sync_chain :
      ℕ → List (Option ℕ) → Option (List ℕ) → Node B P M D chain → Step B P M D chain
  unfolding with_number after_genesis run_loops
  sync_chain fuel answers heads n =
      with_number (Chain.celestia_height_offset P n.state) (at_start n 0) (λ offset.
        with_number (Chain.finalized_height P n.state) (at_start n 0) (λ finalized.
          let next : ℕ = if ltb 0 finalized then (finalized + 1) % 2 ^ 64 else 0 in
          if next == 0
          then after_genesis (at_start n 0) (sync_genesis B P M D chain n offset)
              (λ g. run_loops fuel offset answers heads g)
          else run_loops fuel offset answers heads (at_start n next)))

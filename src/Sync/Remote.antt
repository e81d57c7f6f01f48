-- ===== src/Sync/Remote.antt =====
-- `SyncChainFromGrpc` of pkg/sync/grpc.go: from which height another node is asked for blocks.
use blobcast.Prelude.{ℕ, ◌+◌, ◌%◌, ◌^◌, Option, none, some, ltb, leb, if◌then◌else◌}
use blobcast.Prelude.Outcome.{Outcome, ok, err, panic, ◌>>=◌}
use blobcast.State.Store.{Pebble}
use blobcast.State.Chain

-- The request to the other node: from one height up to another. The other node's finalized height
-- counts as reached when it is at most the next height.
pub data Plan : Type 0 where
  up_to_date : Plan
  stream : ℕ → ℕ → Plan

pub data RemoteError : Type 0 where
  state_error : Chain.StateError → RemoteError
  no_chain_info : RemoteError

-- `finalizedHeight + 1` is a uint64; 0 stands for a chain that has not begun.
abbrev next_height : ℕ → ℕ
next_height finalized = if ltb 0 finalized then (finalized + 1) % 2 ^ 64 else 0

from_state : Chain.Res ℕ → Outcome RemoteError ℕ
from_state (ok h) = ok h
from_state (err e) = err (state_error e)
from_state panic = panic

from_remote : Option ℕ → Outcome RemoteError ℕ
from_remote none = err no_chain_info
from_remote (some h) = ok h

module _ (P : Pebble) where
  -- The decision of `SyncChainFromGrpc`; `remote` is the finalized height in the other node's answer.
  unfoldable pub remote_plan : Chain.ChainState P → Option ℕ → Outcome RemoteError Plan
  unfolding from_state from_remote
  remote_plan s remote = do
    finalized ← from_state (Chain.finalized_height P s)
    theirs ← from_remote remote
    ok (
        if leb theirs (next_height finalized)
        then up_to_date
        else stream (next_height finalized) theirs)

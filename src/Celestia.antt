-- ===== src/Celestia.antt =====
-- `Store`, `StoreBatch` and `submitBlobs` of pkg/celestia/celestia.go. The client of
-- github.com/celestiaorg/celestia-node is a parameter.
pub mod Stored
use blobcast.Prelude.{ℕ, zero, suc, Option, none, some, List, [], ◌∷◌, map, Bool, true, false}
use blobcast.Prelude.Maybe.{◌>>=◌}
use blobcast.Prelude.Outcome.{Outcome, ok, err, panic}
use blobcast.Util.Retry.{RetryConfig, RetryError, default_retry_config, retry, given}

-- A blob of the namespace: its data and its commitment.
pub record CelestiaBlob : Type 0 where
  pub data' : List ℕ
  pub commitment : List ℕ

pub record Client : Type 1 where
  -- What the node, the network, the context of a submission with its timeout, and the clock are.
  pub World : Type 0
  pub Error : Type 0
  pub is_network_error : Error → Bool
  -- `blob.NewBlobV0` computes a commitment; `none` is an error.
  pub new_blob : List ℕ → Option (List ℕ)
  -- `client.Blob.Submit`: the height of the block that has the blobs.
  pub submit : List CelestiaBlob → World → Outcome Error ℕ × World
  pub is_done : World → Bool
  pub wait : ℕ → World → Bool × World

pub data StoreError (E : Type 0) : Type 0 where
  no_messages : StoreError E
  bad_message : StoreError E
  height_is_zero : StoreError E
  not_submitted : RetryError E → StoreError E

module _ (C : Client) where
  abbrev pub config : RetryConfig C.Error
  config = default_retry_config C.is_network_error

  -- The height that the retries came to; no block has height 0.
  checked_height : Outcome (RetryError C.Error) ℕ → Outcome (StoreError C.Error) ℕ
  checked_height (ok zero) = err height_is_zero
  checked_height (ok (suc h)) = ok (suc h)
  checked_height (err e) = err (not_submitted e)
  checked_height panic = panic

  unfoldable pub submit_blobs :
      List CelestiaBlob → C.World → Outcome (StoreError C.Error) ℕ × C.World
  unfolding checked_height
  submit_blobs blobs w =
      given (retry config C.is_done (C.submit blobs) C.wait w)
        λ result w'. (checked_height result, w')

  unfoldable pub new_blobs : List (List ℕ) → Option (List CelestiaBlob)
  new_blobs [] = some []
  new_blobs (m ∷ messages) = do
    c ← C.new_blob m
    blobs ← new_blobs messages
    some (record { data' = m; commitment = c } ∷ blobs)

  abbrev pub commitments_of : List CelestiaBlob → List (List ℕ)
  commitments_of blobs = map (λ (b : CelestiaBlob). b.commitment) blobs

  with_commitments :
      List CelestiaBlob
      → Outcome (StoreError C.Error) ℕ
      → Outcome (StoreError C.Error) (List (List ℕ) × ℕ)
  with_commitments blobs (ok h) = ok (commitments_of blobs, h)
  with_commitments blobs (err e) = err e
  with_commitments blobs panic = panic

  store_blobs :
      Option (List CelestiaBlob)
      → C.World
      → Outcome (StoreError C.Error) (List (List ℕ) × ℕ) × C.World
  store_blobs none w = (err bad_message, w)
  store_blobs (some blobs) w =
      given (submit_blobs blobs w) λ height w'. (with_commitments blobs height, w')

  unfoldable pub store_batch :
      List (List ℕ) → C.World → Outcome (StoreError C.Error) (List (List ℕ) × ℕ) × C.World
  unfolding store_blobs with_commitments
  store_batch [] w = (err no_messages, w)
  store_batch (m ∷ messages) w = store_blobs (new_blobs (m ∷ messages)) w

  with_commitment :
      List ℕ → Outcome (StoreError C.Error) ℕ → Outcome (StoreError C.Error) (List ℕ × ℕ)
  with_commitment c (ok h) = ok (c, h)
  with_commitment c (err e) = err e
  with_commitment c panic = panic

  -- `Store`: one message.
  unfoldable pub store : List ℕ → C.World → Outcome (StoreError C.Error) (List ℕ × ℕ) × C.World
  unfolding with_commitment
  store m w = elim (C.new_blob m) [
    | none ↦ (err bad_message, w)
    | some c ↦
        given (submit_blobs (record { data' = m; commitment = c } ∷ []) w)
          λ height w'. (with_commitment c height, w')
  ]

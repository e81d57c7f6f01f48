-- ===== src/Runs/Uploads.antt =====
-- Submissions to a client whose first call fails with a network error.
use blobcast.Prelude.{
  ℕ, suc, ◌≡◌, ◌↔◌, refl, true, some, List, [], ◌∷◌, length, replicate, ltb, ◌==◌, if◌then◌else◌,
}
use blobcast.Prelude.Outcome.{ok, err}
use blobcast.Util.Retry.{retry, retry_from, given}
use blobcast.Util.Retry.Success.{Succeeds, retry-Succeeds_iff}
use blobcast.Celestia.{Client, StoreError, config, store_batch, submit_blobs, new_blobs}
use blobcast.Celestia.Stored.{Stores, store_batch_iff, store_batch_done}

-- The world counts the calls; after 100 of them the context is done.
abbrev toy_client : Client
toy_client = record {
  World = ℕ;
  Error = ℕ;
  is_network_error = λ e. e == 0;
  new_blob = λ m. some (replicate 32 (length m));
  submit = λ blobs w. if w == 0 then (err 0, 1) else (ok 9, suc w);
  is_done = λ w. ltb 100 w;
  wait = λ attempt w. (true, w);
}

abbrev toy_messages : List (List ℕ)
toy_messages = (1 ∷ 2 ∷ []) ∷ (3 ∷ []) ∷ []

abbrev toy_commitments : List (List ℕ)
toy_commitments = replicate 32 2 ∷ replicate 32 1 ∷ []

retry-Succeeds_iff_example :
    (retry (config toy_client) toy_client.is_done (toy_client.submit []) toy_client.wait 0
      ≡ (ok 9, 2))
    ↔ Succeeds
        (config toy_client)
        toy_client.is_done
        (toy_client.submit [])
        toy_client.wait
        0
        250
        0
        9
        2
retry-Succeeds_iff_example =
    retry-Succeeds_iff (config toy_client) toy_client.is_done (toy_client.submit []) toy_client.wait
      0 2 9

store_batch_iff_example :
    (store_batch toy_client toy_messages 0 ≡ (ok (toy_commitments, 9), 2))
    ↔ Stores toy_client toy_messages 0 toy_commitments 9 2
store_batch_iff_example = store_batch_iff toy_client toy_messages 0 2 toy_commitments 9

store_batch_done_example :
    (e : StoreError ℕ) × (store_batch toy_client toy_messages 101 ≡ (err e, 101))
store_batch_done_example = store_batch_done toy_client toy_messages 101 refl

-- The second attempt succeeds.
store_toy_messages : store_batch toy_client toy_messages 0 ≡ (ok (toy_commitments, 9), 2)
unfolding store_batch submit_blobs new_blobs retry retry_from given
store_toy_messages = refl

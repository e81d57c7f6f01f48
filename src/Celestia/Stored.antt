-- ===== src/Celestia/Stored.antt =====
-- `StoreBatch` of pkg/celestia/celestia.go: what it stores, and what it does when its context is done.
use blobcast.Prelude.{
  ℕ, zero, suc, ◌<◌, ◌≡◌, ◌↔◌, refl, sym, ap, ◌∙◌, Option, none, some, Option-cases, List, [], ◌∷◌,
  true, inl, inr, length, arith,
}
use blobcast.Prelude.Outcome.{ok, err}
use blobcast.Util.Retry.{retry, given_at, context_cancelled}
use blobcast.Util.Retry.Success.{Outcome-cases, Succeeds, retry_done, retry-Succeeds_iff}
use blobcast.Celestia.{
  CelestiaBlob, Client, StoreError, not_submitted, no_messages, bad_message, config, submit_blobs,
  new_blobs, commitments_of, store_blobs, store_batch, checked_height, with_commitments,
}

module _ (C : Client) where
  -- Blobs for messages: each holds its message and the commitment to it, in the order of messages.
  abbrev pub Makes : List (List ℕ) → List CelestiaBlob → Type 0
  Makes [] [] = Unit {0}
  Makes [] (b ∷ blobs) = ⊥
  Makes (m ∷ messages) [] = ⊥
  Makes (m ∷ messages) (b ∷ blobs) =
      (b.data' ≡ m) × (C.new_blob m ≡ some b.commitment) × Makes messages blobs

  -- One submission, in the end, of these blobs in one transaction at height `h`, not 0.
  pub record Stores (messages : List (List ℕ)) (w : C.World) (commitments : List (List ℕ)) (h : ℕ)
      (w' : C.World) : Type 0 where
    pub blobs : List CelestiaBlob
    pub not_empty : 0 < length messages
    pub made : Makes messages blobs
    pub committed : commitments ≡ commitments_of C blobs
    pub in_a_block : 0 < h
    pub submitted : Succeeds (config C) C.is_done (C.submit blobs) C.wait 0 250 w h w'

  new_blobs-Makes :
      (messages : List (List ℕ)) (blobs : List CelestiaBlob)
      → new_blobs C messages ≡ some blobs
      → Makes messages blobs
  unfolding new_blobs
  new_blobs-Makes [] [] e = tt
  new_blobs-Makes [] (b ∷ blobs) e = absurd (cc e)
  new_blobs-Makes (m ∷ messages) blobs e = elim (Option-cases (C.new_blob m)) [
    | inl bad ↦ absurd (cc (rw bad at e))
    | inr (c, good) ↦ elim (Option-cases (new_blobs C messages)) [
      | inl bad ↦ absurd (cc (rw (good, bad) at e))
      | inr (rest, made) ↦
          let same : record { data' = m; commitment = c } ∷ rest ≡ blobs =
            cc (rw (good, made) at e) in
          rw (← same) (refl, good, new_blobs-Makes messages rest made)
    ]
  ]

  Makes-new_blobs :
      (messages : List (List ℕ)) (blobs : List CelestiaBlob)
      → Makes messages blobs
      → new_blobs C messages ≡ some blobs
  unfolding new_blobs
  Makes-new_blobs [] [] h = refl
  Makes-new_blobs [] (b ∷ blobs) h = elim h [ ]
  Makes-new_blobs (m ∷ messages) [] h = elim h [ ]
  Makes-new_blobs (m ∷ messages) (b ∷ blobs) (same, good, rest) =
      rw (good, Makes-new_blobs messages blobs rest)
        (ap (λ d. some (record { data' = d; commitment = b.commitment } ∷ blobs)) (sym same))

  submit_blobs-ok :
      (blobs : List CelestiaBlob) (w w' : C.World) (h : ℕ)
      → submit_blobs C blobs w ≡ (ok h, w')
      → (0 < h) × (retry (config C) C.is_done (C.submit blobs) C.wait w ≡ (ok h, w'))
  unfolding submit_blobs checked_height
  submit_blobs-ok blobs w w' h e =
      elim (Outcome-cases (retry (config C) C.is_done (C.submit blobs) C.wait w)) [
        | inl (zero, w1, done) ↦ absurd (cc (rw (given_at _ done) at e))
        | inl (suc k, w1, done) ↦
            let height : suc k ≡ h = cc (rw (given_at _ done) at e) in
            let world : w1 ≡ w' = cc (rw (given_at _ done) at e) in
            (omega (arith, height), done ∙ cc (height, world))
        | inr (inl (f, w1, done)) ↦ absurd (cc (rw (given_at _ done) at e))
        | inr (inr (w1, done)) ↦ absurd (cc (rw (given_at _ done) at e))
      ]

  submit_blobs-completes :
      (blobs : List CelestiaBlob) (w w' : C.World) (h : ℕ)
      → 0 < h
      → retry (config C) C.is_done (C.submit blobs) C.wait w ≡ (ok h, w')
      → submit_blobs C blobs w ≡ (ok h, w')
  unfolding submit_blobs checked_height
  submit_blobs-completes blobs w w' zero pos done = absurd (omega arith)
  submit_blobs-completes blobs w w' (suc k) pos done = rw (given_at _ done)

  store_blobs-ok :
      (o : Option (List CelestiaBlob)) (w w' : C.World) (cs : List (List ℕ)) (h : ℕ)
      → store_blobs C o w ≡ (ok (cs, h), w')
      → (blobs : List CelestiaBlob) × (o ≡ some blobs)
        × (cs ≡ commitments_of C blobs)
        × (submit_blobs C blobs w ≡ (ok h, w'))
  unfolding store_blobs with_commitments
  store_blobs-ok none w w' cs h e = absurd (cc e)
  store_blobs-ok (some blobs) w w' cs h e = elim (Outcome-cases (submit_blobs C blobs w)) [
    | inl (k, w1, done) ↦
        let all : commitments_of C blobs ≡ cs = cc (rw (given_at _ done) at e) in
        let height : k ≡ h = cc (rw (given_at _ done) at e) in
        let world : w1 ≡ w' = cc (rw (given_at _ done) at e) in
        (blobs, refl, sym all, done ∙ cc (height, world))
    | inr (inl (f, w1, done)) ↦ absurd (cc (rw (given_at _ done) at e))
    | inr (inr (w1, done)) ↦ absurd (cc (rw (given_at _ done) at e))
  ]

  store_batch-Stores :
      (messages : List (List ℕ)) (w w' : C.World) (cs : List (List ℕ)) (h : ℕ)
      → store_batch C messages w ≡ (ok (cs, h), w')
      → Stores messages w cs h w'
  unfolding store_batch
  store_batch-Stores [] w w' cs h e = absurd (cc e)
  store_batch-Stores (m ∷ messages) w w' cs h e =
      let (blobs, made, all, sent) = store_blobs-ok (new_blobs C (m ∷ messages)) w w' cs h e in
      let (pos, done) = submit_blobs-ok blobs w w' h sent in
      record {
        blobs = blobs;
        not_empty = omega arith;
        made = new_blobs-Makes (m ∷ messages) blobs made;
        committed = all;
        in_a_block = pos;
        submitted = (retry-Succeeds_iff (config C) C.is_done (C.submit blobs) C.wait w w' h).0 done;
      }

  Stores-store_batch :
      (messages : List (List ℕ)) (w w' : C.World) (cs : List (List ℕ)) (h : ℕ)
      → Stores messages w cs h w'
      → store_batch C messages w ≡ (ok (cs, h), w')
  unfolding store_batch store_blobs with_commitments
  Stores-store_batch [] w w' cs h s = absurd (omega (arith, s.not_empty))
  Stores-store_batch (m ∷ messages) w w' cs h s =
      let done : submit_blobs C s.blobs w ≡ (ok h, w') =
        submit_blobs-completes s.blobs w w' h s.in_a_block (
          (retry-Succeeds_iff (config C) C.is_done (C.submit s.blobs) C.wait w w' h).1
            s.submitted) in
      rw (Makes-new_blobs (m ∷ messages) s.blobs s.made, given_at _ done)
        (ap (λ l. (ok (l, h), w')) (sym s.committed))

  -- `StoreBatch` succeeds with commitments and a height exactly if there are messages, each of them
  -- has a blob, the commitments are those of the blobs in the order of the messages, the height is
  -- not 0, and within 250 attempts, those before having failed with network errors, the client
  -- submitted these blobs together and answered with that height.
  pub store_batch_iff :
      (messages : List (List ℕ)) (w w' : C.World) (cs : List (List ℕ)) (h : ℕ)
      → (store_batch C messages w ≡ (ok (cs, h), w')) ↔ Stores messages w cs h w'
  store_batch_iff messages w w' cs h =
      (store_batch-Stores messages w w' cs h, Stores-store_batch messages w w' cs h)

  submit_blobs_done :
      (blobs : List CelestiaBlob) (w : C.World)
      → C.is_done w ≡ true
      → submit_blobs C blobs w ≡ (err (not_submitted context_cancelled), w)
  unfolding submit_blobs checked_height retry
  submit_blobs_done blobs w done =
      rw (given_at _ (retry_done (config C) C.is_done (C.submit blobs) C.wait w (omega arith) done))

  -- When the context is done, `StoreBatch` fails for any messages, and nothing is submitted.
  pub store_batch_done :
      (messages : List (List ℕ)) (w : C.World)
      → C.is_done w ≡ true
      → (e : StoreError C.Error) × (store_batch C messages w ≡ (err e, w))
  unfolding store_batch store_blobs with_commitments
  store_batch_done [] w done = (no_messages, refl)
  store_batch_done (m ∷ messages) w done = elim (Option-cases (new_blobs C (m ∷ messages))) [
    | inl bad ↦ (bad_message, rw bad)
    | inr (blobs, made) ↦
        (not_submitted context_cancelled, rw (made, given_at _ (submit_blobs_done blobs w done)))
  ]

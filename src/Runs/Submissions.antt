-- ===== src/Runs/Submissions.antt =====
-- A run of the submitter: two items, of which the second does not fit beside the first.
use blobcast.Prelude.{
  ℕ, ◌≡◌, refl, true, some, List, [], ◌∷◌, ◌++◌, length, get_elem?, replicate, length-replicate, ap,
  suc, All, ◌+◌, ◌≤◌, arith,
}
use blobcast.Crypto.{Hash, hash_of_slice}
use blobcast.Sync.Submit.{
  Item, Da, Submitter, stored, new_submitter, Step, Reach, queued, receive, submit_batch, answer,
  reply_all, payloads,
}
use blobcast.Sync.Submit.Answers.{submit_batch-replies}
use blobcast.Sync.Submit.Conserved.{count, tickets, answered, places, submitted-places}
use blobcast.Sync.Submit.Bounds.{IsBounded, submitter_bounds}
use blobcast.Sync.Submit.Order.{all_sent, sent_in_order}
use blobcast.Sync.Submit.Works.{Works, at_rest, steps, waiting}
use blobcast.Sync.Submit.Drains.{Commits, submitter_answers_all}

-- One commitment of 32 bytes for each message, at height 7.
abbrev commitments_for : List (List ℕ) → List (List ℕ)
commitments_for [] = []
commitments_for (m ∷ ms) = replicate 32 (length m) ∷ commitments_for ms

abbrev toy_da : Da
toy_da = record {
  max_tx_size = 150;
  store_batch = λ calls messages. some (commitments_for messages, 7);
}

abbrev first : Item
first = record { payload = 1 ∷ 2 ∷ 3 ∷ []; ticket = 1 }

abbrev second : Item
second = record { payload = 4 ∷ 5 ∷ []; ticket = 2 }

abbrev both_queued : Submitter
both_queued = record new_submitter { queue = first ∷ second ∷ []; submitted = first ∷ second ∷ [] }

abbrev one_taken : Submitter
one_taken = record both_queued {
  queue = second ∷ [];
  batch = first ∷ [];
  batch_size = 103;
  timer = true;
  received = first ∷ [];
}

abbrev both_taken : Submitter
both_taken = record both_queued {
  queue = [];
  batch = second ∷ [];
  batch_size = 102;
  timer = true;
  received = first ∷ second ∷ [];
  calls = ((1 ∷ 2 ∷ 3 ∷ []) ∷ []) ∷ [];
  replies = (1, stored (record { height = 7; commitment = replicate 32 3 })) ∷ [];
}

take_first : receive toy_da first (record both_queued { queue = second ∷ [] }) ≡ some one_taken
unfolding receive
take_first = refl

take_second : receive toy_da second (record one_taken { queue = [] }) ≡ some both_taken
unfolding receive submit_batch answer reply_all hash_of_slice
take_second = refl

queue_both : Reach toy_da new_submitter both_queued
unfolding queued
queue_both =
    Reach.next (Reach.next Reach.here (Step.submit first refl (omega arith) refl))
      (Step.submit second refl (omega arith) refl)

run : Reach toy_da new_submitter both_taken
run =
    Reach.next (Reach.next queue_both (Step.take_item first (second ∷ []) refl refl take_first))
      (Step.take_item second [] refl refl take_second)

submitted-places_example : count 2 (tickets both_taken.submitted) ≡ places 2 both_taken
submitted-places_example = submitted-places toy_da 2 run

submitter_bounds_example : IsBounded toy_da both_taken
submitter_bounds_example = submitter_bounds toy_da run

sent_in_order_example :
    all_sent both_taken.calls ++ payloads both_taken.batch ≡ payloads both_taken.received
sent_in_order_example = sent_in_order toy_da run

length-commitments_for : (ms : List (List ℕ)) → length (commitments_for ms) ≡ length ms
length-commitments_for [] = refl
length-commitments_for (m ∷ ms) = ap suc (length-commitments_for ms)

commitments_for_full : (ms : List (List ℕ)) → All (λ c. 32 ≤ length c) (commitments_for ms)
commitments_for_full [] = tt
commitments_for_full (m ∷ ms) =
    (omega (arith, length-replicate 32 (length m)), commitments_for_full ms)

toy_da-Commits : Commits toy_da
toy_da-Commits calls messages cs height e =
    let same : commitments_for messages ≡ cs = cc e in
    (rw (← same) (length-commitments_for messages), rw (← same) (commitments_for_full messages))

abbrev no_steps : Works toy_da both_taken both_taken
no_steps = at_rest

submitter_answers_all_example :
    (u : Submitter) × (q : Works toy_da both_taken u) × (steps no_steps + steps q
      ≤ waiting both_taken)
    × (u.running ≡ true)
    × (u.queue ≡ [])
    × (u.priority_queue ≡ [])
    × (u.batch ≡ [])
    × (u.submitted ≡ both_taken.submitted)
    × ((n : ℕ) → count n (answered u.replies) ≡ count n (tickets both_taken.submitted))
submitter_answers_all_example = submitter_answers_all toy_da toy_da-Commits run refl no_steps

send_first :
    submit_batch toy_da (first ∷ []) one_taken
    ≡ some (record one_taken { calls = both_taken.calls; replies = both_taken.replies })
unfolding submit_batch answer reply_all hash_of_slice
send_first = refl

submit_batch-replies_example :
    (h : Hash) × (hash_of_slice (replicate 32 3) ≡ some h)
    × (get_elem? both_taken.replies 0 ≡ some (1, stored (record { height = 7; commitment = h })))
submit_batch-replies_example =
    submit_batch-replies toy_da (first ∷ []) one_taken _ (replicate 32 3 ∷ []) 7 0 first
      (replicate 32 3) send_first refl refl refl

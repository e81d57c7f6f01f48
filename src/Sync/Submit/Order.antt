-- ===== src/Sync/Submit/Order.antt =====
-- The submitter of pkg/sync/submit.go: the order in which payloads are sent.
use mathlib.Core.List.{map-append}
use blobcast.Prelude.{◌≡◌, refl, sym, ap, ◌∙◌, List, [], ◌∷◌, ◌++◌, append-nil, append_assoc, ℕ}
use blobcast.Sync.Submit.{
  Item, Da, Submitter, Step, Reach, new_submitter, payloads, queued, queued_with_priority, refused,
}
use blobcast.Sync.Submit.Answers.{
  Sends, Receives, Flushes, receive-Receives, on_timer-Flushes, leave_loop-Flushes,
}

-- The payloads of batches, in order.
unfoldable pub all_sent : List (List (List ℕ)) → List (List ℕ)
all_sent [] = []
all_sent (ps ∷ calls) = ps ++ all_sent calls

-- What was received is what was sent, and then what stands in the batch.
abbrev IsInOrder : Submitter → Type 0
IsInOrder s = payloads s.received ≡ all_sent s.calls ++ payloads s.batch

all_sent-snoc :
    (calls : List (List (List ℕ))) (ps : List (List ℕ))
    → all_sent (calls ++ ps ∷ []) ≡ all_sent calls ++ ps
unfolding all_sent
all_sent-snoc [] ps = append-nil ps
all_sent-snoc (c ∷ calls) ps =
    ap (λ l. c ++ l) (all_sent-snoc calls ps) ∙ sym (append_assoc c (all_sent calls) ps)

module _ (da : Da) where
  Sends-order :
      (s t : Submitter)
      → Sends da s.batch s t
      → IsInOrder s
      → (payloads t.received ≡ all_sent t.calls) × (t.received ≡ s.received)
  Sends-order s t (Sends.sends rs got same) v =
      (rw same (v ∙ sym (all_sent-snoc s.calls (payloads s.batch))), rw same)

  Receives-IsInOrder :
      (i : Item) (s s' : Submitter) → Receives da i s s' → IsInOrder s → IsInOrder s'
  Receives-IsInOrder i s s' (Receives.starts t over sent same) v =
      rw same (
        map-append _ t.received (i ∷ []) ∙ ap (λ l. l ++ i.payload ∷ []) (Sends-order s t sent v).0)
  Receives-IsInOrder i s s' (Receives.joins fits same) v = rw same (
      map-append _ s.received (i ∷ [])
      ∙ ap (λ l. l ++ i.payload ∷ []) v
      ∙ append_assoc (all_sent s.calls) (payloads s.batch) (i.payload ∷ [])
      ∙ ap (λ l. all_sent s.calls ++ l) (sym (map-append _ s.batch (i ∷ []))))

  Flushes-order :
      (s t : Submitter)
      → Flushes da s t
      → IsInOrder s
      → payloads t.received ≡ all_sent t.calls ++ []
  Flushes-order s t (Flushes.empty bare same) v =
      rw same (v ∙ ap (λ l. all_sent s.calls ++ payloads l) bare)
  Flushes-order s t (Flushes.flushes sent) v =
      (Sends-order s t sent v).0 ∙ sym (append-nil (all_sent t.calls))

  Step-IsInOrder : {s s' : Submitter} → Step da s s' → IsInOrder s → IsInOrder s'
  unfolding queued queued_with_priority refused
  Step-IsInOrder (Step.submit i live room same) v = rw same v
  Step-IsInOrder (Step.submit_with_priority i unclosed live room same) v = rw same v
  Step-IsInOrder (Step.submit_cancelled i over same) v = rw same v
  Step-IsInOrder (Step.close_queue live same) v = rw same v
  Step-IsInOrder (Step.close_priority_queue over live same) v = rw same v
  Step-IsInOrder (Step.cancel over same) v = rw same v
  Step-IsInOrder {s} {s'} (Step.take_priority i rest runs live has got) v =
      Receives-IsInOrder i _ s' (receive-Receives da i (record s { priority_queue = rest }) s' got)
        v
  Step-IsInOrder (Step.priority_gone runs over bare same) v = rw same v
  Step-IsInOrder {s} {s'} (Step.take_item i rest runs has got) v =
      Receives-IsInOrder i _ s' (receive-Receives da i (record s { queue = rest }) s' got) v
  Step-IsInOrder {s} {s'} (Step.queue_gone runs over bare got) v =
      let (t, flushed, same) = leave_loop-Flushes da s s' got in
      rw same (Flushes-order s t flushed v)
  Step-IsInOrder {s} {s'} (Step.timer_fires runs armed got) v =
      let (t, flushed, same) = on_timer-Flushes da s s' got in rw same (Flushes-order s t flushed v)
  Step-IsInOrder {s} {s'} (Step.context_done runs over got) v =
      let (t, flushed, same) = leave_loop-Flushes da s s' got in
      rw same (Flushes-order s t flushed v)

-- The payloads that have been sent to Celestia, batch after batch, and then those of the batch that
-- is being filled, are the payloads that the loop took from its queues, in the order in which it
-- took them.
pub sent_in_order :
    (da : Da) {s : Submitter}
    → Reach da new_submitter s
    → all_sent s.calls ++ payloads s.batch ≡ payloads s.received
unfolding all_sent
sent_in_order da Reach.here = refl
sent_in_order da (Reach.next reached step) =
    sym (Step-IsInOrder da step (sym (sent_in_order da reached)))

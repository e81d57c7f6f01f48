-- ===== src/Sync/Submit/Bounds.antt =====
-- The submitter of pkg/sync/submit.go: the size of the batches.
use blobcast.Prelude.{
  ℕ, ◌+◌, ◌≤◌, ◌≡◌, ◌⊎◌, inl, inr, refl, sym, ap, ◌∙◌, List, [], ◌∷◌, ◌++◌, All, All-append, length,
  arith,
}
use blobcast.Sync.Submit.{
  Item, Da, Submitter, Step, Reach, new_submitter, payloads, item_size, queued,
  queued_with_priority, refused,
}
use blobcast.Sync.Submit.Answers.{
  Sends, Receives, Flushes, receive-Receives, on_timer-Flushes, leave_loop-Flushes,
}

-- The sizes of payloads as the loop estimates them, together.
unfoldable pub weight : List (List ℕ) → ℕ
weight [] = 0
weight (p ∷ ps) = length p + 100 + weight ps

-- Payloads that the loop may send together.
abbrev pub IsAllowed : Da → List (List ℕ) → Type 0
IsAllowed da ps = (weight ps ≤ da.max_tx_size) ⊎ (length ps ≤ 1)

pub record IsBounded (da : Da) (s : Submitter) : Type 0 where
  pub sent : All (IsAllowed da) s.calls
  pub batch_allowed : IsAllowed da (payloads s.batch)
  pub batch_size_counts : s.batch_size ≡ weight (payloads s.batch)

weight-append :
    (xs : List Item) (i : Item)
    → weight (payloads (xs ++ i ∷ [])) ≡ weight (payloads xs) + item_size i
unfolding weight
weight-append [] i = omega arith
weight-append (x ∷ xs) i = omega (arith, weight-append xs i)

module _ (da : Da) where
  Sends-IsBounded :
      (s s' : Submitter) → Sends da s.batch s s' → IsBounded da s → All (IsAllowed da) s'.calls
  Sends-IsBounded s s' (Sends.sends rs got same) v =
      rw same (All-append (IsAllowed da) s.calls _ v.sent (v.batch_allowed, tt))

  Receives-IsBounded :
      (i : Item) (s s' : Submitter) → Receives da i s s' → IsBounded da s → IsBounded da s'
  unfolding weight
  Receives-IsBounded i s s' (Receives.starts t over sent same) v = rw same (record {
    sent = Sends-IsBounded s t sent v;
    batch_allowed = inr (omega arith);
    batch_size_counts = omega arith;
  })
  Receives-IsBounded i s s' (Receives.joins fits same) v =
      let total : weight (payloads (s.batch ++ i ∷ [])) ≡ weight (payloads s.batch) + item_size i =
        weight-append s.batch i in
      rw same (record {
        sent = v.sent;
        batch_allowed = inl (omega (arith, total, fits, v.batch_size_counts));
        batch_size_counts = omega (arith, total, v.batch_size_counts);
      })

  Flushes-IsBounded :
      (s t s' : Submitter)
      → Flushes da s t
      → s'.calls ≡ t.calls
      → s'.batch ≡ []
      → s'.batch_size ≡ 0
      → IsBounded da s
      → IsBounded da s'
  unfolding weight
  Flushes-IsBounded s t s' f c b z v = record {
    sent = rw c (calls_of f);
    batch_allowed = inr (rw b (omega arith));
    batch_size_counts = z ∙ sym (ap (λ l. weight (payloads l)) b);
  }
    where
      calls_of : Flushes da s t → All (IsAllowed da) t.calls
      calls_of (Flushes.empty bare same) = rw same v.sent
      calls_of (Flushes.flushes sent) = Sends-IsBounded s t sent v

  same_IsBounded :
      (s s' : Submitter)
      → s'.calls ≡ s.calls
      → s'.batch ≡ s.batch
      → s'.batch_size ≡ s.batch_size
      → IsBounded da s
      → IsBounded da s'
  same_IsBounded s s' c b z v = record {
    sent = rw c v.sent;
    batch_allowed = rw b v.batch_allowed;
    batch_size_counts = z ∙ v.batch_size_counts ∙ sym (ap (λ l. weight (payloads l)) b);
  }

  Step-IsBounded : {s s' : Submitter} → Step da s s' → IsBounded da s → IsBounded da s'
  unfolding queued queued_with_priority refused
  Step-IsBounded {s} {s'} (Step.submit i live room same) v =
      rw same (same_IsBounded s (queued i s) refl refl refl v)
  Step-IsBounded {s} {s'} (Step.submit_with_priority i unclosed live room same) v =
      rw same (same_IsBounded s (queued_with_priority i s) refl refl refl v)
  Step-IsBounded {s} {s'} (Step.submit_cancelled i over same) v =
      rw same (same_IsBounded s (refused i s) refl refl refl v)
  Step-IsBounded {s} {s'} (Step.close_queue live same) v =
      rw same (same_IsBounded s _ refl refl refl v)
  Step-IsBounded {s} {s'} (Step.close_priority_queue over live same) v =
      rw same (same_IsBounded s _ refl refl refl v)
  Step-IsBounded {s} {s'} (Step.cancel over same) v = rw same (same_IsBounded s _ refl refl refl v)
  Step-IsBounded {s} {s'} (Step.take_priority i rest runs live has got) v =
      Receives-IsBounded i _ s' (receive-Receives da i _ s' got)
        (same_IsBounded s (record s { priority_queue = rest }) refl refl refl v)
  Step-IsBounded {s} {s'} (Step.priority_gone runs over bare same) v =
      rw same (same_IsBounded s _ refl refl refl v)
  Step-IsBounded {s} {s'} (Step.take_item i rest runs has got) v =
      Receives-IsBounded i _ s' (receive-Receives da i _ s' got)
        (same_IsBounded s (record s { queue = rest }) refl refl refl v)
  Step-IsBounded {s} {s'} (Step.queue_gone runs over bare got) v =
      let (t, flushed, same) = leave_loop-Flushes da s s' got in
      rw same (Flushes-IsBounded s t _ flushed refl refl refl v)
  Step-IsBounded {s} {s'} (Step.timer_fires runs armed got) v =
      let (t, flushed, same) = on_timer-Flushes da s s' got in
      rw same (Flushes-IsBounded s t _ flushed refl refl refl v)
  Step-IsBounded {s} {s'} (Step.context_done runs over got) v =
      let (t, flushed, same) = leave_loop-Flushes da s s' got in
      rw same (Flushes-IsBounded s t _ flushed refl refl refl v)

-- Every batch that the submitter ever sends to Celestia is within the configured size, with 100
-- bytes added for each payload, or has at most one payload; and the size that the loop keeps is the
-- size of the batch that it is filling.
pub submitter_bounds : (da : Da) {s : Submitter} → Reach da new_submitter s → IsBounded da s
unfolding weight
submitter_bounds da Reach.here = record {
  sent = tt;
  batch_allowed = inr (omega arith);
  batch_size_counts = refl;
}
submitter_bounds da (Reach.next reached step) = Step-IsBounded da step (submitter_bounds da reached)

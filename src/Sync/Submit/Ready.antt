-- ===== src/Sync/Submit/Ready.antt =====
-- The submitter of pkg/sync/submit.go: a batch that waits will be sent by the timer.
use blobcast.Prelude.{◌≡◌, ◌⊎◌, inl, inr, refl, sym, ◌∙◌, List, [], true}
use blobcast.Sync.Submit.{
  Item, Da, Submitter, Step, Reach, new_submitter, queued, queued_with_priority, refused,
}
use blobcast.Sync.Submit.Answers.{
  Sends, Receives, Flushes, receive-Receives, on_timer-Flushes, leave_loop-Flushes,
}

-- A batch that waits has its timer set; a queue set to nil is empty.
pub record IsReady (s : Submitter) : Type 0 where
  pub waits : s.running ≡ true → (s.batch ≡ []) ⊎ (s.timer ≡ true)
  pub nil_empty : s.priority_nil ≡ true → s.priority_queue ≡ []

Sends-priority :
    (da : Da) (items : List Item) (s t : Submitter)
    → Sends da items s t
    → (t.priority_nil ≡ s.priority_nil) × (t.priority_queue ≡ s.priority_queue)
Sends-priority da items s t (Sends.sends rs got same) = (rw same, rw same)

Receives-IsReady :
    (da : Da) (i : Item) (s s' : Submitter)
    → Receives da i s s'
    → (s.priority_nil ≡ true → s.priority_queue ≡ [])
    → IsReady s'
Receives-IsReady da i s s' (Receives.starts t over sent same) v =
    let (n, q) = Sends-priority da s.batch s t sent in
    rw same (record { waits = λ _. inr refl; nil_empty = λ h. q ∙ v (sym n ∙ h) })
Receives-IsReady da i s s' (Receives.joins fits same) v =
    rw same (record { waits = λ _. inr refl; nil_empty = v })

Flushes-nil :
    (da : Da) (s t : Submitter)
    → Flushes da s t
    → IsReady s
    → t.priority_nil ≡ true
    → t.priority_queue ≡ []
Flushes-nil da s t (Flushes.empty bare same) v h = rw same (v.nil_empty (rw same at h))
Flushes-nil da s t (Flushes.flushes sent) v h =
    let (n, q) = Sends-priority da s.batch s t sent in q ∙ v.nil_empty (sym n ∙ h)

Step-IsReady : (da : Da) {s s' : Submitter} → Step da s s' → IsReady s → IsReady s'
unfolding queued queued_with_priority refused
Step-IsReady da (Step.submit i live room same) v =
    rw same (record { waits = v.waits; nil_empty = v.nil_empty })
Step-IsReady da (Step.submit_with_priority i unclosed live room same) v =
    rw same (record { waits = v.waits; nil_empty = λ h. absurd (cc (h, live)) })
Step-IsReady da (Step.submit_cancelled i over same) v =
    rw same (record { waits = v.waits; nil_empty = v.nil_empty })
Step-IsReady da (Step.close_queue live same) v =
    rw same (record { waits = v.waits; nil_empty = v.nil_empty })
Step-IsReady da (Step.close_priority_queue over live same) v =
    rw same (record { waits = v.waits; nil_empty = v.nil_empty })
Step-IsReady da (Step.cancel over same) v =
    rw same (record { waits = v.waits; nil_empty = v.nil_empty })
Step-IsReady da {s} {s'} (Step.take_priority i rest runs live has got) v =
    Receives-IsReady da i _ s' (receive-Receives da i (record s { priority_queue = rest }) s' got)
      (λ h. absurd (cc (h, live)))
Step-IsReady da (Step.priority_gone runs over bare same) v =
    rw same (record { waits = v.waits; nil_empty = λ _. bare })
Step-IsReady da {s} {s'} (Step.take_item i rest runs has got) v =
    Receives-IsReady da i _ s' (receive-Receives da i (record s { queue = rest }) s' got)
      v.nil_empty
Step-IsReady da {s} {s'} (Step.queue_gone runs over bare got) v =
    let (t, flushed, same) = leave_loop-Flushes da s s' got in
    rw same (record { waits = λ _. inl refl; nil_empty = Flushes-nil da s t flushed v })
Step-IsReady da {s} {s'} (Step.timer_fires runs armed got) v =
    let (t, flushed, same) = on_timer-Flushes da s s' got in
    rw same (record { waits = λ _. inl refl; nil_empty = Flushes-nil da s t flushed v })
Step-IsReady da {s} {s'} (Step.context_done runs over got) v =
    let (t, flushed, same) = leave_loop-Flushes da s s' got in
    rw same (record { waits = λ _. inl refl; nil_empty = Flushes-nil da s t flushed v })

pub Reach-IsReady : (da : Da) {s : Submitter} → Reach da new_submitter s → IsReady s
Reach-IsReady da Reach.here = record { waits = λ _. inl refl; nil_empty = λ _. refl }
Reach-IsReady da (Reach.next reached step) = Step-IsReady da step (Reach-IsReady da reached)

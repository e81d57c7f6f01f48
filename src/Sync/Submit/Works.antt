-- ===== src/Sync/Submit/Works.antt =====
-- The steps of the submitter of pkg/sync/submit.go by which its loop goes on.
use blobcast.Prelude.{◌*◌, ◌<◌, if◌then◌else◌, ℕ, ◌+◌, ◌≤◌, ◌≡◌, refl, ◌∙◌, length, arith}
use blobcast.Sync.Submit.{Item, Da, Submitter, Step, Reach}
use blobcast.Sync.Submit.Answers.{Sends, Receives, Flushes, receive-Receives, on_timer-Flushes}

pub Reach-trans : {da : Da} {s t u : Submitter} → Reach da s t → Reach da t u → Reach da s u
Reach-trans r Reach.here = r
Reach-trans r (Reach.next q step) = Reach.next (Reach-trans r q) step

-- The steps by which the loop works: it takes an item, or its timer fires. Those of producers, of
-- `Close`, those with which it stops, and the one by which it lets a closed queue go, are none.
abbrev pub IsOwn : {da : Da} {s s' : Submitter} → Step da s s' → Type 0
IsOwn (Step.submit i live room same) = ⊥
IsOwn (Step.submit_with_priority i unclosed live room same) = ⊥
IsOwn (Step.submit_cancelled i over same) = ⊥
IsOwn (Step.close_queue live same) = ⊥
IsOwn (Step.close_priority_queue over live same) = ⊥
IsOwn (Step.cancel over same) = ⊥
IsOwn (Step.take_priority i rest runs live has got) = Unit {0}
IsOwn (Step.priority_gone runs over bare same) = ⊥
IsOwn (Step.take_item i rest runs has got) = Unit {0}
IsOwn (Step.queue_gone runs over bare got) = ⊥
IsOwn (Step.timer_fires runs armed got) = Unit {0}
IsOwn (Step.context_done runs over got) = ⊥

-- What the loop comes to by these steps alone.
pub data Works (da : Da) (s : Submitter) : Submitter → Type 0 where
  at_rest : Works da s s
  work : {t u : Submitter} → Works da s t → (step : Step da t u) → IsOwn step → Works da s u

-- How many steps those are.
abbrev pub steps : {da : Da} {s t : Submitter} → Works da s t → ℕ
steps Works.at_rest = 0
steps (Works.work q step own) = steps q + 1

-- What the loop has before it: an item may be taken and then set the timer.
abbrev pub waiting : Submitter → ℕ
waiting s = 2 * (length s.queue + length s.priority_queue) + (if s.timer then 1 else 0)

pub Works-trans : {da : Da} {s t u : Submitter} → Works da s t → Works da t u → Works da s u
Works-trans r Works.at_rest = r
Works-trans r (Works.work q step own) = Works.work (Works-trans r q) step own

pub Works-Reach : {da : Da} {s t : Submitter} → Works da s t → Reach da s t
Works-Reach Works.at_rest = Reach.here
Works-Reach (Works.work q step own) = Reach.next (Works-Reach q) step

-- What the loop keeps while it works: the queues apart.
abbrev pub Keeps : Submitter → Submitter → Type 0
Keeps s t =
    (t.running ≡ s.running) × (t.priority_nil ≡ s.priority_nil) × (t.submitted ≡ s.submitted)

module _ (da : Da) where
  pub Receives-Keeps :
      (i : Item) (s t : Submitter)
      → Receives da i s t
      → Keeps s t × (t.queue ≡ s.queue) × (t.priority_queue ≡ s.priority_queue)
  Receives-Keeps i s t (Receives.starts u over (Sends.sends rs got was) same) =
      rw same (rw was ((refl, refl, refl), refl, refl))
  Receives-Keeps i s t (Receives.joins fits same) = rw same ((refl, refl, refl), refl, refl)

  pub Flushes-Keeps :
      (s t : Submitter)
      → Flushes da s t
      → (t.running ≡ s.running)
        × (t.submitted ≡ s.submitted)
        × (t.queue ≡ s.queue)
        × (t.priority_queue ≡ s.priority_queue)
  Flushes-Keeps s t (Flushes.empty bare same) = rw same (refl, refl, refl, refl)
  Flushes-Keeps s t (Flushes.flushes (Sends.sends rs got same)) = rw same (refl, refl, refl, refl)

  -- An own step leaves the loop running, the submissions as they are, and less before it.
  own_step :
      {s t : Submitter} (step : Step da s t)
      → IsOwn step
      → (t.running ≡ s.running) × (t.submitted ≡ s.submitted) × (waiting t < waiting s)
  own_step (Step.submit i live room same) own = absurd own
  own_step (Step.submit_with_priority i unclosed live room same) own = absurd own
  own_step (Step.submit_cancelled i over same) own = absurd own
  own_step (Step.close_queue live same) own = absurd own
  own_step (Step.close_priority_queue over live same) own = absurd own
  own_step (Step.cancel over same) own = absurd own
  own_step (Step.priority_gone runs over bare same) own = absurd own
  own_step (Step.queue_gone runs over bare got) own = absurd own
  own_step (Step.context_done runs over got) own = absurd own
  own_step {s} {t} (Step.take_priority i rest runs live has got) own =
      let before = record s { priority_queue = rest } in
      let ((r, _, m), q, p) = Receives-Keeps i before t (receive-Receives da i before t got) in
      (r, m, rw (q, p, has) (ground arith))
  own_step {s} {t} (Step.take_item i rest runs has got) own =
      let before = record s { queue = rest } in
      let ((r, _, m), q, p) = Receives-Keeps i before t (receive-Receives da i before t got) in
      (r, m, rw (q, p, has) (ground arith))
  own_step {s} {t} (Step.timer_fires runs armed got) own =
      let (u, flushed, same) = on_timer-Flushes da s t got in
      let (r, m, q, p) = Flushes-Keeps s u flushed in rw same (r, m, rw (q, p, armed) (omega arith))

  pub own_steps :
      {s t : Submitter} (r : Works da s t)
      → (t.running ≡ s.running) × (t.submitted ≡ s.submitted) × (steps r + waiting t ≤ waiting s)
  own_steps Works.at_rest = (refl, refl, omega arith)
  own_steps (Works.work q step own) =
      let (r1, m1, w1) = own_steps q in
      let (r2, m2, w2) = own_step step own in (r2 ∙ r1, m2 ∙ m1, omega (arith, w1, w2))

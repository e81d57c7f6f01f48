-- ===== src/Sync/Submit/Drains.antt =====
-- The submitter of pkg/sync/submit.go: how its loop comes to answer all items.
use blobcast.Prelude.{
  ℕ, ◌+◌, ◌≤◌, ◌≡◌, ◌≢◌, ◌⊎◌, inl, inr, refl, sym, ap, ◌∙◌, none, some, Option-cases, List, [], ◌∷◌,
  ◌++◌, true, false, Bool-cases, length, length-map, All, ltb, arith,
}
use blobcast.Sync.Submit.{
  Item, Reply, Da, Submitter, Step, Reach, new_submitter, payloads, item_size, fail_all, answer,
  submit_batch, receive, flush_items, on_timer,
}
use blobcast.Sync.Submit.Answers.{receive-Receives, on_timer-Flushes, reply_all-total}
use blobcast.Sync.Submit.Conserved.{count, tickets, answered, places, submitted-places}
use blobcast.Sync.Submit.Works.{
  Reach-trans, Works, steps, waiting, Works-trans, Works-Reach, Keeps, Receives-Keeps,
  Flushes-Keeps, own_steps,
}
use blobcast.Sync.Submit.Ready.{IsReady, Reach-IsReady}

-- `StoreBatch` returns a commitment of 32 bytes or more for each message, if it succeeds.
abbrev pub Commits : Da → Type 0
Commits da =
    (calls : List (List (List ℕ))) (messages : List (List ℕ)) (commitments : List (List ℕ))
    (height : ℕ)
    → da.store_batch calls messages ≡ some (commitments, height)
    → (length commitments ≡ length messages) × All (λ c. 32 ≤ length c) commitments

module _ (da : Da) (commits : Commits da) where
  submit_batch_total :
      (items : List Item) (s : Submitter)
      → (rs : List (ℕ × Reply)) × (submit_batch da items s
          ≡ some (record s { calls = s.calls ++ payloads items ∷ []; replies = s.replies ++ rs }))
  unfolding submit_batch answer
  submit_batch_total items s = elim (Option-cases (da.store_batch s.calls (payloads items))) [
    | inl failed ↦ (fail_all items, rw failed)
    | inr ((cs, height), done) ↦
        let (n, full) = commits s.calls (payloads items) cs height done in
        let (rs, e) =
          reply_all-total items cs height
            (omega (arith, n, length-map items (λ (i : Item). i.payload))) full in
        (rs, rw (done, e))
  ]

  receive_some : (i : Item) (s : Submitter) → receive da i s ≢ none
  unfolding receive
  receive_some i s e = elim (Bool-cases (ltb da.max_tx_size (s.batch_size + item_size i))) [
    | inl over ↦ let (rs, sent) = submit_batch_total s.batch s in absurd (cc (rw (over, sent) at e))
    | inr fits ↦ absurd (cc (rw fits at e))
  ]

  receive_total :
      (i : Item) (s : Submitter)
      → (t : Submitter) × (receive da i s ≡ some t)
        × (Keeps s t × (t.queue ≡ s.queue) × (t.priority_queue ≡ s.priority_queue))
  receive_total i s = elim (Option-cases (receive da i s)) [
    | inl failed ↦ absurd (receive_some i s failed)
    | inr (t, e) ↦ (t, e, Receives-Keeps da i s t (receive-Receives da i s t e))
  ]

  flush_some : (items : List Item) (s : Submitter) → flush_items da items s ≢ none
  unfolding flush_items
  flush_some [] s e = cc e
  flush_some (i ∷ items) s e =
      let (rs, sent) = submit_batch_total (i ∷ items) s in absurd (cc (rw sent at e))

  on_timer_some : (s : Submitter) → on_timer da s ≢ none
  unfolding on_timer
  on_timer_some s e = elim (Option-cases (flush_items da s.batch s)) [
    | inl failed ↦ flush_some s.batch s failed
    | inr (t, done) ↦ absurd (cc (rw done at e))
  ]

  -- The loop takes all that stands in a queue.
  take_all :
      (q : List Item) (s : Submitter)
      → s.queue ≡ q
      → s.running ≡ true
      → (t : Submitter) × Works da s t
        × Keeps s t
        × (t.queue ≡ [])
        × (t.priority_queue ≡ s.priority_queue)
  take_all [] s is runs = (s, Works.at_rest, (refl, refl, refl), is, refl)
  take_all (i ∷ q) s is runs =
      let (t, got, ((r, n, m), q1, p1)) = receive_total i (record s { queue = q }) in
      let (u, reached, (r', n', m'), q2, p2) = take_all q t q1 (r ∙ runs) in
      (
        u,
        Works-trans (Works.work Works.at_rest (Step.take_item i q runs is got) tt) reached,
        (r' ∙ r, n' ∙ n, m' ∙ m),
        q2,
        p2 ∙ p1,
      )

  take_all_priority :
      (q : List Item) (s : Submitter)
      → s.priority_queue ≡ q
      → s.priority_nil ≡ false
      → s.running ≡ true
      → (t : Submitter) × Works da s t × Keeps s t × (t.priority_queue ≡ []) × (t.queue ≡ s.queue)
  take_all_priority [] s is live runs = (s, Works.at_rest, (refl, refl, refl), is, refl)
  take_all_priority (i ∷ q) s is live runs =
      let (t, got, ((r, n, m), q1, p1)) = receive_total i (record s { priority_queue = q }) in
      let (u, reached, (r', n', m'), q2, p2) = take_all_priority q t p1 (n ∙ live) (r ∙ runs) in
      (
        u,
        Works-trans (Works.work Works.at_rest (Step.take_priority i q runs live is got) tt) reached,
        (r' ∙ r, n' ∙ n, m' ∙ m),
        q2,
        p2 ∙ q1,
      )

  -- The timer sends what the batch has left.
  empty_batch :
      (s : Submitter)
      → s.running ≡ true
      → (s.batch ≡ []) ⊎ (s.timer ≡ true)
      → (t : Submitter) × Works da s t
        × (t.batch ≡ [])
        × (t.running ≡ true)
        × (t.submitted ≡ s.submitted)
        × (t.queue ≡ s.queue)
        × (t.priority_queue ≡ s.priority_queue)
  empty_batch s runs (inl bare) = (s, Works.at_rest, bare, runs, refl, refl, refl)
  empty_batch s runs (inr armed) = elim (Option-cases (on_timer da s)) [
    | inl failed ↦ absurd (on_timer_some s failed)
    | inr (t, got) ↦
        let (u, flushed, same) = on_timer-Flushes da s t got in
        let (r, m, q, p) = Flushes-Keeps da s u flushed in
        (
          t,
          Works.work Works.at_rest (Step.timer_fires runs armed got) tt,
          rw same refl,
          rw same (r ∙ runs),
          rw same m,
          rw same q,
          rw same p,
        )
  ]

  priority_drained :
      (s : Submitter)
      → IsReady s
      → s.running ≡ true
      → (t : Submitter) × Works da s t × Keeps s t × (t.priority_queue ≡ []) × (t.queue ≡ s.queue)
  priority_drained s v runs = elim (Bool-cases s.priority_nil) [
    | inl gone ↦ (s, Works.at_rest, (refl, refl, refl), v.nil_empty gone, refl)
    | inr live ↦ take_all_priority s.priority_queue s refl live runs
  ]

  all_places :
      (s : Submitter) (t : ℕ)
      → s.queue ≡ []
      → s.priority_queue ≡ []
      → s.batch ≡ []
      → places t s ≡ count t (answered s.replies)
  unfolding places count
  all_places s t q p b = rw (q, p, b) (omega arith)

  answers_all :
      {s : Submitter}
      → Reach da new_submitter s
      → s.running ≡ true
      → (t : Submitter) × Works da s t
        × (t.running ≡ true)
        × (t.queue ≡ [])
        × (t.priority_queue ≡ [])
        × (t.batch ≡ [])
        × (t.submitted ≡ s.submitted)
        × ((n : ℕ) → count n (answered t.replies) ≡ count n (tickets s.submitted))
  answers_all {s} reached runs =
      let (a, ra, (r1, n1, m1), p1, q1) = priority_drained s (Reach-IsReady da reached) runs in
      let (b, rb, (r2, n2, m2), q2, p2) = take_all a.queue a refl (r1 ∙ runs) in
      let to_b = Reach-trans (Reach-trans reached (Works-Reach ra)) (Works-Reach rb) in
      let (c, rc, b3, r3, m3, q3, p3) =
        empty_batch b (r2 ∙ r1 ∙ runs) ((Reach-IsReady da to_b).waits (r2 ∙ r1 ∙ runs)) in
      let same : c.submitted ≡ s.submitted = m3 ∙ m2 ∙ m1 in
      (
        c,
        Works-trans (Works-trans ra rb) rc,
        r3,
        q3 ∙ q2,
        p3 ∙ p2 ∙ p1,
        b3,
        same,
        λ n.
            sym (all_places c n (q3 ∙ q2) (p3 ∙ p2 ∙ p1) b3)
            ∙ sym (submitted-places da n (Reach-trans to_b (Works-Reach rc)))
            ∙ ap (λ l. count n (tickets l)) same,
      )

  -- While the loop runs, whatever happened before, each of the loop's own steps, by which it takes
  -- what stands in the queues and its timer fires, goes on to answer all submissions: after any run of
  -- them, in any order, there are such steps that lead to a state in which the loop still runs, nothing
  -- waits in the queues or in the batch, and each submission has been answered exactly as often as it
  -- was made; and all of these steps together are at most two for each item in the queues, and one for
  -- the timer if it is set. Provided that `StoreBatch`, where it succeeds, returns a commitment of at
  -- least 32 bytes for each message.
  pub submitter_answers_all :
      {s t : Submitter}
      → Reach da new_submitter s
      → s.running ≡ true
      → (r : Works da s t)
      → (u : Submitter) × (q : Works da t u) × (steps r + steps q ≤ waiting s)
        × (u.running ≡ true)
        × (u.queue ≡ [])
        × (u.priority_queue ≡ [])
        × (u.batch ≡ [])
        × (u.submitted ≡ s.submitted)
        × ((n : ℕ) → count n (answered u.replies) ≡ count n (tickets s.submitted))
  submitter_answers_all reached runs r =
      let (r1, m1, w1) = own_steps da r in
      let (u, q, going, q0, p0, b0, m, all) =
        answers_all (Reach-trans reached (Works-Reach r)) (r1 ∙ runs) in
      let (_, _, w2) = own_steps da q in
      (
        u,
        q,
        omega (arith, w1, w2),
        going,
        q0,
        p0,
        b0,
        m ∙ m1,
        λ n. all n ∙ ap (λ l. count n (tickets l)) m1,
      )

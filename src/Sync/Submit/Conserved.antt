-- ===== src/Sync/Submit/Conserved.antt =====
-- The submitter of pkg/sync/submit.go: where a submitted item can be.
use blobcast.Prelude.{
  ℕ, ◌+◌, ◌≡◌, refl, sym, ap, ◌∙◌, Option, none, some, List, [], ◌∷◌, ◌++◌, ◌==◌, if◌then◌else◌,
  map, arith,
}
use blobcast.Crypto.{hash_of_slice}
use blobcast.Sync.Submit.{
  Item, Reply, Da, Submitter, emptied, stopped, Step, Reach, new_submitter, reply_all, fail_all,
  answer, queued, queued_with_priority, refused, context_cancelled,
}
use blobcast.Sync.Submit.Answers.{
  bind-eq-some, some-injective, Sends, Receives, Flushes, receive-Receives, on_timer-Flushes,
  leave_loop-Flushes,
}

-- How often a number stands in a list.
unfoldable pub count : ℕ → List ℕ → ℕ
count t [] = 0
count t (u ∷ us) = (if u == t then 1 else 0) + count t us

abbrev pub tickets : List Item → List ℕ
tickets items = map (λ (i : Item). i.ticket) items

abbrev pub answered : List (ℕ × Reply) → List ℕ
answered rs = map (λ (r : ℕ × Reply). r.0) rs

-- The replies that a ticket had, and the places where its item waits.
unfoldable pub places : ℕ → Submitter → ℕ
places t s =
    count t (answered s.replies)
    + count t (tickets s.batch)
    + count t (tickets s.queue)
    + count t (tickets s.priority_queue)

pub count-append : (t : ℕ) (xs ys : List ℕ) → count t (xs ++ ys) ≡ count t xs + count t ys
unfolding count
count-append t [] ys = omega arith
count-append t (x ∷ xs) ys = omega (arith, count-append t xs ys)

module _ (t : ℕ) where
  count-tickets_append :
      (xs ys : List Item)
      → count t (tickets (xs ++ ys)) ≡ count t (tickets xs) + count t (tickets ys)
  unfolding count
  count-tickets_append [] ys = omega arith
  count-tickets_append (x ∷ xs) ys = omega (arith, count-tickets_append xs ys)

  count-answered_append :
      (xs ys : List (ℕ × Reply))
      → count t (answered (xs ++ ys)) ≡ count t (answered xs) + count t (answered ys)
  unfolding count
  count-answered_append [] ys = omega arith
  count-answered_append (x ∷ xs) ys = omega (arith, count-answered_append xs ys)

-- The replies to a batch are addressed to its items, in order.
reply_all-tickets :
    (items : List Item) (cs : List (List ℕ)) (height : ℕ) (rs : List (ℕ × Reply))
    → reply_all items cs height ≡ some rs
    → answered rs ≡ tickets items
unfolding reply_all
reply_all-tickets [] cs height rs e = rw (← some-injective e)
reply_all-tickets (i ∷ items) [] height rs e = absurd (cc e)
reply_all-tickets (i ∷ items) (c ∷ cs) height rs e =
    let (h, converted, rest) = bind-eq-some (hash_of_slice c) _ e in
    let (more, replied, all) = bind-eq-some (reply_all items cs height) _ rest in
    rw (← some-injective all)
      (ap (λ l. i.ticket ∷ l) (reply_all-tickets items cs height more replied))

fail_all-tickets : (items : List Item) → answered (fail_all items) ≡ tickets items
unfolding fail_all
fail_all-tickets [] = refl
fail_all-tickets (i ∷ items) = ap (λ l. i.ticket ∷ l) (fail_all-tickets items)

pub answer-tickets :
    (items : List Item) (o : Option (List (List ℕ) × ℕ)) (rs : List (ℕ × Reply))
    → answer items o ≡ some rs
    → answered rs ≡ tickets items
unfolding answer
answer-tickets items none rs e = rw (← some-injective e) (fail_all-tickets items)
answer-tickets items (some (cs, height)) rs e = reply_all-tickets items cs height rs e

module _ (da : Da) (t : ℕ) where
  -- What is sent is answered.
  Sends-count :
      (items : List Item) (s s' : Submitter)
      → Sends da items s s'
      → (count t (answered s'.replies) ≡ count t (answered s.replies) + count t (tickets items))
        × (s'.queue ≡ s.queue)
        × (s'.priority_queue ≡ s.priority_queue)
        × (s'.submitted ≡ s.submitted)
  Sends-count items s s' (Sends.sends rs got same) = rw same (
    count-answered_append t s.replies rs
        ∙ ap (λ l. count t (answered s.replies) + count t l) (answer-tickets items _ rs got),
    refl,
    refl,
    refl,
  )

  Receives-places :
      (i : Item) (s s' : Submitter)
      → Receives da i s s'
      → (places t s' ≡ places t s + count t (i.ticket ∷ [])) × (s'.submitted ≡ s.submitted)
  unfolding places count
  Receives-places i s s' (Receives.starts u over sent same) =
      let (c, q, p, m) = Sends-count s.batch s u sent in rw same (rw (q, p) (omega (arith, c)), m)
  Receives-places i s s' (Receives.joins fits same) =
      rw same (omega (arith, count-tickets_append t s.batch (i ∷ [])), refl)

  Flushes-places :
      (s u s' : Submitter)
      → Flushes da s u
      → s'.replies ≡ u.replies
      → s'.batch ≡ []
      → s'.queue ≡ u.queue
      → s'.priority_queue ≡ u.priority_queue
      → s'.submitted ≡ u.submitted
      → (places t s' ≡ places t s) × (s'.submitted ≡ s.submitted)
  unfolding places count
  Flushes-places s u s' (Flushes.empty bare same) r b q p m =
      (rw (r, b, q, p, same, bare) refl, m ∙ ap (λ (v : Submitter). v.submitted) same)
  Flushes-places s u s' (Flushes.flushes sent) r b q p m =
      let (c, q', p', m') = Sends-count s.batch s u sent in
      (rw (r, b, q, p, q', p') (omega (arith, c)), m ∙ m')

  -- Each submission is in one place.
  abbrev IsCounted : Submitter → Type 0
  IsCounted s = count t (tickets s.submitted) ≡ places t s

  after_places :
      (s s' : Submitter)
      → (places t s' ≡ places t s) × (s'.submitted ≡ s.submitted)
      → IsCounted s
      → IsCounted s'
  after_places s s' (p, m) v = ap (λ l. count t (tickets l)) m ∙ v ∙ sym p

  Step-IsCounted : {s s' : Submitter} → Step da s s' → IsCounted s → IsCounted s'
  unfolding places count queued queued_with_priority refused
  Step-IsCounted {s} {s'} (Step.submit i live room same) v = rw same (
      omega (
        arith,
        v,
        count-tickets_append t s.submitted (i ∷ []),
        count-tickets_append t s.queue (i ∷ []),
      ))
  Step-IsCounted {s} {s'} (Step.submit_with_priority i unclosed live room same) v = rw same (
      omega (
        arith,
        v,
        count-tickets_append t s.submitted (i ∷ []),
        count-tickets_append t s.priority_queue (i ∷ []),
      ))
  Step-IsCounted {s} {s'} (Step.submit_cancelled i over same) v = rw same (
      omega (
        arith,
        v,
        count-tickets_append t s.submitted (i ∷ []),
        count-answered_append t s.replies ((i.ticket, context_cancelled) ∷ []),
      ))
  Step-IsCounted (Step.close_queue live same) v = rw same v
  Step-IsCounted (Step.close_priority_queue over live same) v = rw same v
  Step-IsCounted (Step.cancel over same) v = rw same v
  Step-IsCounted {s} {s'} (Step.take_priority i rest runs live has got) v =
      let (p, m) =
        Receives-places i (record s { priority_queue = rest }) s'
          (receive-Receives da i _ s' got) in
      rw m (omega (arith, v, p, ap (λ q. count t (tickets q)) has))
  Step-IsCounted (Step.priority_gone runs over bare same) v = rw same v
  Step-IsCounted {s} {s'} (Step.take_item i rest runs has got) v =
      let (p, m) =
        Receives-places i (record s { queue = rest }) s' (receive-Receives da i _ s' got) in
      rw m (omega (arith, v, p, ap (λ q. count t (tickets q)) has))
  Step-IsCounted {s} {s'} (Step.queue_gone runs over bare got) v =
      let (u, flushed, same) = leave_loop-Flushes da s s' got in
      after_places s s' (rw same (Flushes-places s u (stopped u) flushed refl refl refl refl refl))
        v
  Step-IsCounted {s} {s'} (Step.timer_fires runs armed got) v =
      let (u, flushed, same) = on_timer-Flushes da s s' got in
      after_places s s' (rw same (Flushes-places s u (emptied u) flushed refl refl refl refl refl))
        v
  Step-IsCounted {s} {s'} (Step.context_done runs over got) v =
      let (u, flushed, same) = leave_loop-Flushes da s s' got in
      after_places s s' (rw same (Flushes-places s u (stopped u) flushed refl refl refl refl refl))
        v

-- Whatever the producers, the timer and the closing do: an item that was submitted has been
-- answered, or waits in the batch or in a queue, and it is in one of these places once for each time
-- that it was submitted. So none is lost, and none is answered twice.
pub submitted-places :
    (da : Da) (t : ℕ) {s : Submitter}
    → Reach da new_submitter s
    → count t (tickets s.submitted) ≡ places t s
unfolding places count
submitted-places da t Reach.here = refl
submitted-places da t (Reach.next reached step) =
    Step-IsCounted da t step (submitted-places da t reached)

-- ===== src/Sync/Submit/Answers.antt =====
-- `submitBatch` of pkg/sync/submit.go, the cases of `run` that call it, and the replies they give.
use mathlib.Core.Path.{subst}
use blobcast.Prelude.{
  ℕ, suc, ◌+◌, ◌<◌, ◌≤◌, ◌≡◌, inl, inr, refl, sym, ap, ◌∙◌, Option, none, some, List, [], ◌∷◌, ◌++◌,
  Bool-cases, true, length, get_elem?, suc_add, All, ltb, ltb→lt, zero, arith,
}
use blobcast.Prelude.Maybe.{◌>>=◌}
use blobcast.Crypto.{Hash, hash_of_slice, hash_of_slice-long}
use blobcast.Sync.Submit.{
  Item, Reply, stored, Da, Submitter, payloads, item_size, reply_all, answer, submit_batch, emptied,
  stopped, receive, flush_items, on_timer, leave_loop,
}

-- A step of the option monad that gave a value.
pub bind-eq-some {ℓ} :
    {A B : Type ℓ} (m : Option A) (f : A → Option B) {b : B}
    → (m >>= f) ≡ some b
    → (a : A) × (m ≡ some a) × (f a ≡ some b)
bind-eq-some none f h = cc
bind-eq-some (some a) f h = (a, refl, h)

pub some-injective {ℓ} : {A : Type ℓ} {a b : A} → some a ≡ some b → a ≡ b
some-injective e = cc

-- A batch that `submitBatch` sends: its call is recorded, with the replies to its items.
pub data Sends (da : Da) (items : List Item) (s s' : Submitter) : Type 0 where
  sends :
      (rs : List (ℕ × Reply))
      → answer items (da.store_batch s.calls (payloads items)) ≡ some rs
      → s' ≡ record s { calls = s.calls ++ payloads items ∷ []; replies = s.replies ++ rs }
      → Sends da items s s'

pub submit_batch-Sends :
    (da : Da) (items : List Item) (s s' : Submitter)
    → submit_batch da items s ≡ some s'
    → Sends da items s s'
unfolding submit_batch
submit_batch-Sends da items s s' e =
    let (rs, answered, rest) =
      bind-eq-some (answer items (da.store_batch s.calls (payloads items))) _ e in
    sends rs answered (cc rest)

-- The two ways of an item into the batch.
pub data Receives (da : Da) (i : Item) (s s' : Submitter) : Type 0 where
  starts :
      (t : Submitter)
      → da.max_tx_size < s.batch_size + item_size i
      → Sends da s.batch s t
      → s' ≡ record t {
        batch = i ∷ [];
        batch_size = item_size i;
        timer = true;
        received = t.received ++ i ∷ [];
      }
      → Receives da i s s'
  joins :
      s.batch_size + item_size i ≤ da.max_tx_size
      → s' ≡ record s {
        batch = s.batch ++ i ∷ [];
        batch_size = s.batch_size + item_size i;
        timer = true;
        received = s.received ++ i ∷ [];
      }
      → Receives da i s s'

pub receive-Receives :
    (da : Da) (i : Item) (s s' : Submitter) → receive da i s ≡ some s' → Receives da i s s'
unfolding receive
receive-Receives da i s s' e = elim (Bool-cases (ltb da.max_tx_size (s.batch_size + item_size i))) [
  | inl over ↦
      let (t, sent, rest) = bind-eq-some (submit_batch da s.batch s) _ (rw over at e) in
      starts t (ltb→lt _ _ over) (submit_batch-Sends da s.batch s t sent) (cc rest)
  | inr fits ↦ joins (ground arith) (cc (rw fits at e))
]

-- The batch is empty, or it is sent.
pub data Flushes (da : Da) (s t : Submitter) : Type 0 where
  empty : s.batch ≡ [] → t ≡ s → Flushes da s t
  flushes : Sends da s.batch s t → Flushes da s t

flush_cases :
    (da : Da) (s t : Submitter) (items : List Item)
    → s.batch ≡ items
    → flush_items da items s ≡ some t
    → Flushes da s t
unfolding flush_items
flush_cases da s t [] is e = empty is (cc e)
flush_cases da s t (i ∷ items) is e =
    flushes (subst (λ b. Sends da b s t) (sym is) (submit_batch-Sends da (i ∷ items) s t e))

pub on_timer-Flushes :
    (da : Da) (s s' : Submitter)
    → on_timer da s ≡ some s'
    → (t : Submitter) × Flushes da s t × (s' ≡ emptied t)
unfolding on_timer
on_timer-Flushes da s s' e =
    let (t, flushed, rest) = bind-eq-some (flush_items da s.batch s) _ e in
    (t, flush_cases da s t s.batch refl flushed, cc rest)

pub leave_loop-Flushes :
    (da : Da) (s s' : Submitter)
    → leave_loop da s ≡ some s'
    → (t : Submitter) × Flushes da s t × (s' ≡ stopped t)
unfolding leave_loop
leave_loop-Flushes da s s' e =
    let (t, flushed, rest) = bind-eq-some (flush_items da s.batch s) _ e in
    (t, flush_cases da s t s.batch refl flushed, cc rest)

-- The replies to a stored batch: one for each item, in order, with the height of the transaction and
-- the commitment at the item's place.
pub reply_all-at :
    (items : List Item) (commitments : List (List ℕ)) (height : ℕ) (rs : List (ℕ × Reply)) (n : ℕ)
    (i : Item) (c : List ℕ)
    → reply_all items commitments height ≡ some rs
    → get_elem? items n ≡ some i
    → get_elem? commitments n ≡ some c
    → (h : Hash) × (hash_of_slice c ≡ some h)
      × (get_elem? rs n ≡ some (i.ticket, stored (record { height = height; commitment = h })))
unfolding reply_all
reply_all-at [] commitments height rs n i c e at is = absurd (cc at)
reply_all-at (j ∷ items) [] height rs n i c e at is = absurd (cc e)
reply_all-at (j ∷ items) (d ∷ commitments) height rs zero i c e at is =
    let (h, converted, rest) = bind-eq-some (hash_of_slice d) _ e in
    let (more, replied, all) = bind-eq-some (reply_all items commitments height) _ rest in
    (h, rw (← some-injective is) converted, rw (← some-injective all, ← some-injective at))
reply_all-at (j ∷ items) (d ∷ commitments) height rs (suc n) i c e at is =
    let (h, converted, rest) = bind-eq-some (hash_of_slice d) _ e in
    let (more, replied, all) = bind-eq-some (reply_all items commitments height) _ rest in
    let (k, conv, found) = reply_all-at items commitments height more n i c replied at is in
    (k, conv, rw (← some-injective all) found)

-- Enough commitments of 32 bytes or more: no panic.
pub reply_all-total :
    (items : List Item) (commitments : List (List ℕ)) (height : ℕ)
    → length items ≤ length commitments
    → All (λ c. 32 ≤ length c) commitments
    → (rs : List (ℕ × Reply)) × (reply_all items commitments height ≡ some rs)
unfolding reply_all
reply_all-total [] commitments height enough full = ([], refl)
reply_all-total (i ∷ items) [] height enough full = absurd (omega arith)
reply_all-total (i ∷ items) (c ∷ commitments) height enough full =
    let (rs, e) = reply_all-total items commitments height (omega arith) full.1 in
    let (h, conv) = hash_of_slice-long c full.0 in
    ((i.ticket, stored (record { height = height; commitment = h })) ∷ rs, rw (conv, e))

get_elem?-append_right :
    (xs ys : List (ℕ × Reply)) (n : ℕ) → get_elem? (xs ++ ys) (length xs + n) ≡ get_elem? ys n
get_elem?-append_right [] ys n = ap (get_elem? ys) (omega arith)
get_elem?-append_right (x ∷ xs) ys n =
    ap (get_elem? (x ∷ xs ++ ys)) (suc_add (length xs) n) ∙ get_elem?-append_right xs ys n

-- A batch that Celestia stored: the reply to its item number `n` is the identifier made of the height
-- of the transaction and the first 32 bytes of commitment number `n`, and it comes after the replies
-- that were there, in the place of the item.
pub submit_batch-replies :
    (da : Da) (items : List Item) (s s' : Submitter) (commitments : List (List ℕ)) (height n : ℕ)
    (i : Item) (c : List ℕ)
    → submit_batch da items s ≡ some s'
    → da.store_batch s.calls (payloads items) ≡ some (commitments, height)
    → get_elem? items n ≡ some i
    → get_elem? commitments n ≡ some c
    → (h : Hash) × (hash_of_slice c ≡ some h)
      × (get_elem? s'.replies (length s.replies + n)
          ≡ some (i.ticket, stored (record { height = height; commitment = h })))
unfolding answer
submit_batch-replies da items s s' commitments height n i c e done at is =
    by_sends (submit_batch-Sends da items s s' e)
  where
    by_sends :
        Sends da items s s'
        → (h : Hash) × (hash_of_slice c ≡ some h)
          × (get_elem? s'.replies (length s.replies + n)
              ≡ some (i.ticket, stored (record { height = height; commitment = h })))
    by_sends (sends rs got same) =
        let (h, conv, found) =
          reply_all-at items commitments height rs n i c (rw done at got) at is in
        (h, conv, rw same (get_elem?-append_right s.replies rs n ∙ found))

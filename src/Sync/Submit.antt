-- ===== src/Sync/Submit.antt =====
-- pkg/sync/submit.go: the submitter, which gathers payloads into batches and sends each batch to
-- Celestia as one transaction. `Step` is one move of a producer, of `Close` or of the loop of `run`;
-- Go's select takes any case that is ready, and so does `Step`.
pub mod Answers
pub mod Conserved
pub mod Bounds
pub mod Order
pub mod Ready
pub mod Works
pub mod Drains
use blobcast.Prelude.{
  ℕ, ◌+◌, ◌<◌, ◌≡◌, Option, none, some, List, [], ◌∷◌, ◌++◌, map, Bool, true, false, length, ltb,
  if◌then◌else◌,
}
use blobcast.Prelude.Maybe.{◌>>=◌}
use blobcast.Crypto.{hash_of_slice}
use blobcast.Types.Blob.{BlobIdentifier}

-- `SubmissionItem`: the payload, and the number of the channel that `Submit` returned for it.
pub record Item : Type 0 where
  pub payload : List ℕ
  pub ticket : ℕ

-- `SubmissionResult`, without the text of an error.
pub data Reply : Type 0 where
  stored : BlobIdentifier → Reply
  not_stored : Reply
  context_cancelled : Reply

-- What the loop uses of the interface `celestia.BlobStore`. The answer of `StoreBatch` (commitments
-- and a height, or an error) may depend on the batches that came before.
pub record Da : Type 0 where
  pub max_tx_size : ℕ
  pub store_batch : List (List (List ℕ)) → List (List ℕ) → Option (List (List ℕ) × ℕ)

-- The fields of `Submitter`, the variables of `run`, and what has been seen from outside: the items
-- submitted, those that the loop received, the batches sent and the replies, each oldest first.
pub record Submitter : Type 0 where
  pub queue : List Item
  pub queue_closed : Bool
  pub priority_queue : List Item
  pub priority_closed : Bool
  pub priority_nil : Bool
  pub cancelled : Bool
  pub batch : List Item
  pub batch_size : ℕ
  pub timer : Bool
  pub running : Bool
  pub submitted : List Item
  pub received : List Item
  pub calls : List (List (List ℕ))
  pub replies : List (ℕ × Reply)

-- `NewSubmitter`: the loop runs, its timer is stopped.
abbrev pub new_submitter : Submitter
new_submitter = record {
  queue = [];
  queue_closed = false;
  priority_queue = [];
  priority_closed = false;
  priority_nil = false;
  cancelled = false;
  batch = [];
  batch_size = 0;
  timer = false;
  running = true;
  submitted = [];
  received = [];
  calls = [];
  replies = [];
}

-- The capacity of either channel.
abbrev pub queue_capacity : ℕ
queue_capacity = 1000

abbrev pub payloads : List Item → List (List ℕ)
payloads items = map (λ (i : Item). i.payload) items

-- `len(item.Payload) + 100`; the payloads lie in memory, so no sum of these overflows an int.
abbrev pub item_size : Item → ℕ
item_size i = length i.payload + 100

-- The replies to a batch that is stored. `commitments[i]` panics past the end, and the conversion
-- to a hash panics on fewer than 32 bytes.
unfoldable pub reply_all : List Item → List (List ℕ) → ℕ → Option (List (ℕ × Reply))
reply_all [] commitments height = some []
reply_all (i ∷ items) [] height = none
reply_all (i ∷ items) (c ∷ commitments) height = do
  commitment ← hash_of_slice c
  rest ← reply_all items commitments height
  some ((i.ticket, stored (record { height = height; commitment = commitment })) ∷ rest)

unfoldable pub fail_all : List Item → List (ℕ × Reply)
fail_all [] = []
fail_all (i ∷ items) = (i.ticket, not_stored) ∷ fail_all items

-- The replies to a batch, from what `StoreBatch` returned.
unfoldable pub answer : List Item → Option (List (List ℕ) × ℕ) → Option (List (ℕ × Reply))
answer items none = some (fail_all items)
answer items (some (commitments, height)) = reply_all items commitments height

-- The batch variables after a flush, and when the loop is left.
abbrev pub emptied : Submitter → Submitter
emptied s = record s { batch = []; batch_size = 0; timer = false }

abbrev pub stopped : Submitter → Submitter
stopped s = record s { batch = []; batch_size = 0; timer = false; running = false }

module _ (da : Da) where
  -- `none` is a panic.
  unfoldable pub submit_batch : List Item → Submitter → Option Submitter
  submit_batch items s = do
    replies ← answer items (da.store_batch s.calls (payloads items))
    some (record s { calls = s.calls ++ payloads items ∷ []; replies = s.replies ++ replies })

  -- A batch takes the place of the one that is sent.
  sent_before : Item → Submitter → Option Submitter
  sent_before item s = do
    s' ← submit_batch s.batch s
    some (record s' {
      batch = item ∷ [];
      batch_size = item_size item;
      timer = true;
      received = s'.received ++ item ∷ [];
    })

  -- What `run` does with an item, from either queue.
  unfoldable pub receive : Item → Submitter → Option Submitter
  unfolding sent_before
  receive item s =
      if ltb da.max_tx_size (s.batch_size + item_size item)
      then sent_before item s
      else some (record s {
        batch = s.batch ++ item ∷ [];
        batch_size = s.batch_size + item_size item;
        timer = true;
        received = s.received ++ item ∷ [];
      })

  -- The batch, if there is one, is sent.
  flush_items : List Item → Submitter → Option Submitter
  flush_items [] s = some s
  flush_items (i ∷ items) s = submit_batch (i ∷ items) s

  -- `case <-timer.C`.
  unfoldable pub on_timer : Submitter → Option Submitter
  unfolding flush_items
  on_timer s = do s' ← flush_items s.batch s; some (emptied s')

  -- The loop returns: after a closed queue, and after `ctx.Done()`.
  unfoldable pub leave_loop : Submitter → Option Submitter
  unfolding flush_items
  leave_loop s = do s' ← flush_items s.batch s; some (stopped s')

-- `Submit`, `SubmitWithPriority`: the item is queued; a full queue makes the caller wait, and a
-- send on a closed one panics.
unfoldable pub queued : Item → Submitter → Submitter
queued i s = record s { queue = s.queue ++ i ∷ []; submitted = s.submitted ++ i ∷ [] }

unfoldable pub queued_with_priority : Item → Submitter → Submitter
queued_with_priority i s = record s {
  priority_queue = s.priority_queue ++ i ∷ [];
  submitted = s.submitted ++ i ∷ [];
}

-- `case <-s.ctx.Done()` of both.
unfoldable pub refused : Item → Submitter → Submitter
refused i s = record s {
  submitted = s.submitted ++ i ∷ [];
  replies = s.replies ++ (i.ticket, context_cancelled) ∷ [];
}

pub data Step (da : Da) (s : Submitter) (s' : Submitter) : Type 0 where
  submit :
      (i : Item)
      → s.queue_closed ≡ false
      → length s.queue < queue_capacity
      → s' ≡ queued i s
      → Step da s s'
  submit_with_priority :
      (i : Item)
      → s.priority_closed ≡ false
      → s.priority_nil ≡ false
      → length s.priority_queue < queue_capacity
      → s' ≡ queued_with_priority i s
      → Step da s s'
  submit_cancelled : (i : Item) → s.cancelled ≡ true → s' ≡ refused i s → Step da s s'
  -- `Close`, in its order.
  close_queue : s.queue_closed ≡ false → s' ≡ record s { queue_closed = true } → Step da s s'
  close_priority_queue :
      s.queue_closed ≡ true
      → s.priority_closed ≡ false
      → s' ≡ record s { priority_closed = true }
      → Step da s s'
  cancel : s.priority_closed ≡ true → s' ≡ record s { cancelled = true } → Step da s s'
  -- The cases of the loop.
  take_priority :
      (i : Item) (rest : List Item)
      → s.running ≡ true
      → s.priority_nil ≡ false
      → s.priority_queue ≡ i ∷ rest
      → receive da i (record s { priority_queue = rest }) ≡ some s'
      → Step da s s'
  priority_gone :
      s.running ≡ true
      → s.priority_closed ≡ true
      → s.priority_queue ≡ []
      → s' ≡ record s { priority_nil = true }
      → Step da s s'
  take_item :
      (i : Item) (rest : List Item)
      → s.running ≡ true
      → s.queue ≡ i ∷ rest
      → receive da i (record s { queue = rest }) ≡ some s'
      → Step da s s'
  queue_gone :
      s.running ≡ true
      → s.queue_closed ≡ true
      → s.queue ≡ []
      → leave_loop da s ≡ some s'
      → Step da s s'
  timer_fires : s.running ≡ true → s.timer ≡ true → on_timer da s ≡ some s' → Step da s s'
  context_done : s.running ≡ true → s.cancelled ≡ true → leave_loop da s ≡ some s' → Step da s s'

-- What the submitter comes to, from a state on.
pub data Reach (da : Da) (s : Submitter) : Submitter → Type 0 where
  here : Reach da s s
  next : {t u : Submitter} → Reach da s t → Step da t u → Reach da s u

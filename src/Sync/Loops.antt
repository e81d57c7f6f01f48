-- ===== src/Sync/Loops.antt =====
-- The loops of `SyncChain` of pkg/sync/chain.go. What `LatestHeight` and the subscription answer is
-- a list: the answers of the calls to come, in order.
use blobcast.Prelude.{
  ℕ, zero, suc, ◌+◌, ◌%◌, ◌^◌, ◌≡◌, refl, sym, ◌∙◌, Option, none, some, List, [], ◌∷◌, ◌++◌,
  append-nil, append_assoc, Bool, true, false, ltb, leb, if◌then◌else◌,
}
use blobcast.Prelude.Outcome.{Outcome, ok, err, panic}
use blobcast.Crypto.{Blake3}
use blobcast.Types.Block.{Block, BlockHeader}
use blobcast.State.Store.{Pebble, Protobuf}
use blobcast.Sync.Monad.{SyncError, da_error}
use blobcast.Sync.Blocks.{BlobStore, Node, sync_height}
use blobcast.Sync.Steps.{sync_height-height}

-- How a loop ends. `unanswered` is no end of the code: a call is not answered, or the fuel ran out.
pub data Ended : Type 0 where
  caught_up : Ended
  stopped : SyncError → Ended
  crashed : Ended
  unanswered : Ended

module _ (B : Blake3) (P : Pebble) (M : Protobuf) (D : BlobStore) (chain : List ℕ) where
  -- The variables of the loops, and the headers that were published, the first one first.
  pub record Progress : Type 0 where
    pub node : Node B P M D chain
    pub next_height : ℕ
    pub prev_block : Option Block
    pub published : List BlockHeader

  abbrev pub Step : Type 0
  Step = Ended × Progress

  -- One round, with what the loop does after it.
  unfoldable pub after_height :
      Progress → Outcome SyncError Block × Node B P M D chain → (Progress → Step) → Step
  after_height g (ok b, n) next = next (record {
    node = n;
    next_height = (g.next_height + 1) % 2 ^ 64;
    prev_block = some b;
    published = g.published ++ (b.header ∷ []);
  })
  after_height g (err e, n) next = (stopped e, record g { node = n })
  after_height g (panic, n) next = (crashed, record g { node = n })

  unfoldable pub round : ℕ → Progress → (Progress → Step) → Step
  unfolding after_height
  round offset g next =
      after_height g (sync_height B P M D chain g.node g.next_height offset g.prev_block) next

  -- `latest_celestia_height` is asked for again once it is reached.
  unfoldable pub asked : ℕ → List (Option ℕ) → Progress → (ℕ → List (Option ℕ) → Step) → Step
  asked at [] g go = (unanswered, g)
  asked at (none ∷ answers) g go = (stopped da_error, g)
  asked at (some latest ∷ answers) g go =
      if ltb latest at then (caught_up, g) else go latest answers

  -- The historical sync.
  unfoldable pub catch_up : ℕ → ℕ → ℕ → List (Option ℕ) → Progress → Step
  catch_up zero offset latest answers g = (unanswered, g)
  catch_up (suc fuel) offset latest answers g =
      let at : ℕ = (g.next_height + offset) % 2 ^ 64 in
      let go : ℕ → List (Option ℕ) → Step =
        λ latest' answers'. round offset g (λ g'. catch_up fuel offset latest' answers' g') in
      if leb latest at then asked at answers g go else go latest answers

  -- The live sync, up to the height of a new head.
  unfoldable pub follow_head : ℕ → ℕ → ℕ → Progress → Step
  follow_head zero offset latest g = (unanswered, g)
  follow_head (suc fuel) offset latest g =
      let more = round offset g (λ g'. follow_head fuel offset latest g') in
      if ltb latest ((g.next_height + offset) % 2 ^ 64) then (caught_up, g) else more

  -- Headers whose heights count up from the one number to before the other.
  abbrev pub CountsUp : ℕ → List BlockHeader → ℕ → Type 0
  CountsUp from [] to = from ≡ to
  CountsUp from (bh ∷ bhs) to = (bh.height ≡ from) × CountsUp ((from + 1) % 2 ^ 64) bhs to

  -- What a loop publishes counts up from the height at which it begins.
  abbrev pub IsOrdered : Progress → Step → Type 0
  IsOrdered g r =
      (new : List BlockHeader) × (r.1.published ≡ g.published ++ new)
      × CountsUp g.next_height new r.1.next_height

  pub nothing : (g : Progress) (e : Ended) → IsOrdered g (e, g)
  nothing g e = ([], sym (append-nil g.published), refl)

  after_height-IsOrdered :
      (g : Progress) (r : Outcome SyncError Block × Node B P M D chain) (next : Progress → Step)
      → ((b : Block) (n : Node B P M D chain) → r ≡ (ok b, n) → b.header.height ≡ g.next_height)
      → ((g' : Progress) → IsOrdered g' (next g'))
      → IsOrdered g (after_height g r next)
  unfolding after_height
  after_height-IsOrdered g (ok b, n) next height rest =
      let g' : Progress = record {
        node = n;
        next_height = (g.next_height + 1) % 2 ^ 64;
        prev_block = some b;
        published = g.published ++ (b.header ∷ []);
      } in
      let (new, shape, counts) = rest g' in
      (
        b.header ∷ new,
        shape ∙ append_assoc g.published (b.header ∷ []) new,
        (height b n refl, counts),
      )
  after_height-IsOrdered g (err e, n) next height rest = ([], sym (append-nil g.published), refl)
  after_height-IsOrdered g (panic, n) next height rest = ([], sym (append-nil g.published), refl)

  round-IsOrdered :
      (offset : ℕ) (g : Progress) (next : Progress → Step)
      → ((g' : Progress) → IsOrdered g' (next g'))
      → IsOrdered g (round offset g next)
  unfolding round
  round-IsOrdered offset g next rest =
      after_height-IsOrdered g (sync_height B P M D chain g.node g.next_height offset g.prev_block)
        next
        (λ b n e. sync_height-height B P M D chain g.node n g.next_height offset g.prev_block b e)
        rest

  branch :
      (c : Bool) (g : Progress) (x y : Step)
      → IsOrdered g x
      → IsOrdered g y
      → IsOrdered g (if c then x else y)
  branch true g x y hx hy = hx
  branch false g x y hx hy = hy

  asked-IsOrdered :
      (at : ℕ) (answers : List (Option ℕ)) (g : Progress) (go : ℕ → List (Option ℕ) → Step)
      → ((latest : ℕ) (rest : List (Option ℕ)) → IsOrdered g (go latest rest))
      → IsOrdered g (asked at answers g go)
  unfolding asked
  asked-IsOrdered at [] g go h = nothing g unanswered
  asked-IsOrdered at (none ∷ answers) g go h = nothing g (stopped da_error)
  asked-IsOrdered at (some latest ∷ answers) g go h =
      branch (ltb latest at) g (caught_up, g) (go latest answers) (nothing g caught_up)
        (h latest answers)

  pub catch_up-IsOrdered :
      (fuel offset latest : ℕ) (answers : List (Option ℕ)) (g : Progress)
      → IsOrdered g (catch_up fuel offset latest answers g)
  unfolding catch_up
  catch_up-IsOrdered zero offset latest answers g = nothing g unanswered
  catch_up-IsOrdered (suc fuel) offset latest answers g =
      let at : ℕ = (g.next_height + offset) % 2 ^ 64 in
      let go : ℕ → List (Option ℕ) → Step =
        λ l rest. round offset g (λ g'. catch_up fuel offset l rest g') in
      let h : (l : ℕ) (rest : List (Option ℕ)) → IsOrdered g (go l rest) =
        λ l rest. round-IsOrdered offset g _ (λ g'. catch_up-IsOrdered fuel offset l rest g') in
      branch (leb latest at) g (asked at answers g go) (go latest answers)
        (asked-IsOrdered at answers g go h) (h latest answers)

  pub follow_head-IsOrdered :
      (fuel offset latest : ℕ) (g : Progress) → IsOrdered g (follow_head fuel offset latest g)
  unfolding follow_head
  follow_head-IsOrdered zero offset latest g = nothing g unanswered
  follow_head-IsOrdered (suc fuel) offset latest g =
      branch (ltb latest ((g.next_height + offset) % 2 ^ 64)) g (caught_up, g) _
        (nothing g caught_up)
        (round-IsOrdered offset g _ (λ g'. follow_head-IsOrdered fuel offset latest g'))

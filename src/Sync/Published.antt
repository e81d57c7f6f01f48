-- ===== src/Sync/Published.antt =====
-- The headers that a run of `SyncChain` of pkg/sync/chain.go publishes.
use blobcast.Prelude.{
  ℕ, zero, suc, ◌+◌, ◌%◌, ◌^◌, ◌<◌, ◌≡◌, refl, ap, ◌∙◌, Option, none, some, List, [], ◌∷◌, ◌++◌,
  append_assoc, true, false, ◌==◌, ltb, if◌then◌else◌, arith,
}
use mathlib.Core.Path.{subst}
use blobcast.Prelude.Outcome.{Outcome, ok, err, panic}
use blobcast.Crypto.{Blake3}
use blobcast.Types.Block.{Block, BlockHeader}
use blobcast.State.Store.{Pebble, Protobuf}
use blobcast.State.Chain
use blobcast.Sync.Monad.{SyncError, da_error}
use blobcast.Sync.Blocks.{BlobStore, Node, sync_genesis}
use blobcast.Sync.Loops.{
  Ended, caught_up, stopped, crashed, unanswered, Progress, Step, CountsUp, IsOrdered, nothing,
  catch_up-IsOrdered, follow_head-IsOrdered,
}
use blobcast.Sync.Start.{
  and_then, follow, subscribe, with_number, after_genesis, run_loops, at_start, sync_chain,
}

module _ (B : Blake3) (P : Pebble) (M : Protobuf) (D : BlobStore) (chain : List ℕ) where
  CountsUp-append :
      (from mid to : ℕ) (xs ys : List BlockHeader)
      → CountsUp B P M D chain from xs mid
      → CountsUp B P M D chain mid ys to
      → CountsUp B P M D chain from (xs ++ ys) to
  CountsUp-append from mid to [] ys e h = rw e h
  CountsUp-append from mid to (x ∷ xs) ys (e, h) h' =
      (e, CountsUp-append ((from + 1) % 2 ^ 64) mid to xs ys h h')

  IsOrdered-trans :
      (g : Progress B P M D chain) (e : Ended) (g' : Progress B P M D chain)
      (r : Step B P M D chain)
      → IsOrdered B P M D chain g (e, g')
      → IsOrdered B P M D chain g' r
      → IsOrdered B P M D chain g r
  IsOrdered-trans g e g' r (xs, p, h) (ys, q, k) = (
    xs ++ ys,
    q ∙ ap (λ (l : List BlockHeader). l ++ ys) p ∙ append_assoc g.published xs ys,
    CountsUp-append g.next_height g'.next_height r.1.next_height xs ys h k,
  )

  and_then-IsOrdered :
      (g : Progress B P M D chain) (r : Step B P M D chain)
      (next : Progress B P M D chain → Step B P M D chain)
      → IsOrdered B P M D chain g r
      → ((g' : Progress B P M D chain) → IsOrdered B P M D chain g' (next g'))
      → IsOrdered B P M D chain g (and_then B P M D chain r next)
  unfolding and_then
  and_then-IsOrdered g (caught_up, g') next h k = IsOrdered-trans g caught_up g' (next g') h (k g')
  and_then-IsOrdered g (stopped e, g') next h k = h
  and_then-IsOrdered g (crashed, g') next h k = h
  and_then-IsOrdered g (unanswered, g') next h k = h

  follow-IsOrdered :
      (fuel offset : ℕ) (heads : List ℕ) (g : Progress B P M D chain)
      → IsOrdered B P M D chain g (follow B P M D chain fuel offset heads g)
  unfolding follow
  follow-IsOrdered fuel offset [] g = nothing B P M D chain g caught_up
  follow-IsOrdered fuel offset (head ∷ heads) g =
      and_then-IsOrdered g _ _ (follow_head-IsOrdered B P M D chain fuel offset head g)
        (λ g'. follow-IsOrdered fuel offset heads g')

  subscribe-IsOrdered :
      (fuel offset : ℕ) (heads : Option (List ℕ)) (g : Progress B P M D chain)
      → IsOrdered B P M D chain g (subscribe B P M D chain fuel offset heads g)
  unfolding subscribe
  subscribe-IsOrdered fuel offset none g = nothing B P M D chain g (stopped da_error)
  subscribe-IsOrdered fuel offset (some heads) g = follow-IsOrdered fuel offset heads g

  run_loops-IsOrdered :
      (fuel offset : ℕ) (answers : List (Option ℕ)) (heads : Option (List ℕ))
      (g : Progress B P M D chain)
      → IsOrdered B P M D chain g (run_loops B P M D chain fuel offset answers heads g)
  unfolding run_loops
  run_loops-IsOrdered fuel offset [] heads g = nothing B P M D chain g unanswered
  run_loops-IsOrdered fuel offset (none ∷ answers) heads g =
      nothing B P M D chain g (stopped da_error)
  run_loops-IsOrdered fuel offset (some latest ∷ answers) heads g =
      and_then-IsOrdered g _ _ (catch_up-IsOrdered B P M D chain fuel offset latest answers g)
        (λ g'. subscribe-IsOrdered fuel offset heads g')

  -- What a run published counts up from a height.
  abbrev pub Published : ℕ → Step B P M D chain → Type 0
  Published from r = (to : ℕ) × CountsUp B P M D chain from r.1.published to

  IsOrdered-Published :
      (g : Progress B P M D chain) (r : Step B P M D chain)
      → g.published ≡ []
      → IsOrdered B P M D chain g r
      → Published g.next_height r
  IsOrdered-Published g r e (new, p, h) = (r.1.next_height, rw (p, e) h)

  with_number-Published :
      (from : ℕ) (o : Chain.Res ℕ) (g : Progress B P M D chain) (next : ℕ → Step B P M D chain)
      → g.published ≡ []
      → ((v : ℕ) → o ≡ ok v → Published from (next v))
      → Published from (with_number B P M D chain o g next)
  unfolding with_number
  with_number-Published from (ok v) g next e h = h v refl
  with_number-Published from (err x) g next e h = (from, rw e refl)
  with_number-Published from panic g next e h = (from, rw e refl)

  after_genesis-Published :
      (n : Node B P M D chain) (r : Outcome SyncError Block × Node B P M D chain)
      (next : Progress B P M D chain → Step B P M D chain)
      → ((g : Progress B P M D chain) → IsOrdered B P M D chain g (next g))
      → Published 1 (after_genesis B P M D chain (at_start B P M D chain n 0) r next)
  unfolding after_genesis
  after_genesis-Published n (ok b, m) next h =
      let g : Progress B P M D chain = record {
        node = m;
        next_height = 1;
        prev_block = some b;
        published = [];
      } in
      IsOrdered-Published g (next g) refl (h g)
  after_genesis-Published n (err x, m) next h = (1, refl)
  after_genesis-Published n (panic, m) next h = (1, refl)

  from_next :
      (fuel offset h : ℕ) (answers : List (Option ℕ)) (heads : Option (List ℕ))
      (n : Node B P M D chain)
      → h + 1 < 2 ^ 64
      → Published (h + 1) (
          let next : ℕ = if ltb 0 h then (h + 1) % 2 ^ 64 else 0 in
          if next == 0
          then after_genesis B P M D chain
              (at_start B P M D chain n 0)
              (sync_genesis B P M D chain n offset)
              (λ g. run_loops B P M D chain fuel offset answers heads g)
          else run_loops B P M D chain fuel offset answers heads (at_start B P M D chain n next))
  from_next fuel offset zero answers heads n l =
      after_genesis-Published n (sync_genesis B P M D chain n offset) _
        (λ g. run_loops-IsOrdered fuel offset answers heads g)
  from_next fuel offset (suc h) answers heads n l =
      let fits : (suc h + 1) % 2 ^ 64 ≡ suc h + 1 = omega arith in
      let later : ltb 0 (suc h) ≡ true = ground arith in
      let not_genesis : (suc h + 1 == 0) ≡ false = ground arith in
      rw (fits, later, not_genesis)
        (IsOrdered-Published (at_start B P M D chain n (suc h + 1))
          (run_loops B P M D chain fuel offset answers heads (at_start B P M D chain n (suc h + 1)))
          refl
          (run_loops-IsOrdered fuel offset answers heads (at_start B P M D chain n (suc h + 1))))

  -- The headers that a run publishes, however it ends, have the heights that follow B P M D chain the finalized
  -- height of its beginning, one by one, if that height is below 2^64 - 1.
  pub sync_chain_counts_up :
      (fuel h : ℕ) (answers : List (Option ℕ)) (heads : Option (List ℕ)) (n : Node B P M D chain)
      → Chain.finalized_height P n.state ≡ ok h
      → h + 1 < 2 ^ 64
      → Published (h + 1) (sync_chain B P M D chain fuel answers heads n)
  unfolding sync_chain
  sync_chain_counts_up fuel h answers heads n e l =
      with_number-Published (h + 1) (Chain.celestia_height_offset P n.state) _ _ refl (λ offset _.
        with_number-Published (h + 1) (Chain.finalized_height P n.state) _ _ refl (λ v e'.
          let same : h ≡ v = cc (e, e') in
          subst
            (λ k. Published (h + 1) (
              let next : ℕ = if ltb 0 k then (k + 1) % 2 ^ 64 else 0 in
              if next == 0
              then after_genesis B P M D chain (at_start B P M D chain n 0)
                  (sync_genesis B P M D chain n offset)
                  (λ g. run_loops B P M D chain fuel offset answers heads g)
              else run_loops B P M D chain fuel offset answers heads
                  (at_start B P M D chain n next)))
            same (from_next fuel offset h answers heads n l)))

-- ===== src/Sync/Batch/Finalized.antt =====
-- `commitBatch` of pkg/sync/grpc.go: what a batch that is committed leaves.
use blobcast.Prelude.{
  ℕ, ◌^◌, ◌<◌, ◌≡◌, refl, sym, ap, ap₂, ◌∙◌, Option, some, List, [], ◌∷◌, ◌++◌, leb, ◌==◌, ==_iff,
  Bool-cases, Option-cases, inl, inr, All, map,
}
use mathlib.Core.Path.{subst}
use blobcast.Prelude.Maps.{Map, nat_eq, lookup, insert, lookup-insert}
use blobcast.Prelude.Outcome.{Outcome, ok}
use blobcast.Util.{bytes_from_uint64}
use blobcast.Crypto.{Blake3}
use blobcast.Types.Block.{BlockHeader, Block}
use blobcast.State.Keys.{key_finalized_height}
use blobcast.State.Store.{Pebble, Protobuf, last_write}
use blobcast.State.Chain
use blobcast.State.Transaction.{Transaction, set_finalized_height}
use blobcast.State.Transaction.Synced.{one}
use blobcast.State.Transaction.Durable.{commit_parts}
use blobcast.Sync.Monad.{
  SyncError, Work, ◌>>=◌, ◌>>◌, or_crash, pure, bind-eq-ok, pure-eq-ok, or_crash-eq-ok,
  write_tx-eq-ok,
}
use blobcast.Sync.Blocks.{BlobStore, Node, finalize_block, in_transaction}
use blobcast.Sync.Returns.{in_transaction-eq-ok}
use blobcast.Sync.Steps.{read_finalized}
use blobcast.Sync.Tail.{finalized_under_key}
use blobcast.Sync.Stream.{ProcessedBlock}
use blobcast.Sync.Submit.Answers.{some-injective}
use blobcast.Sync.Batch.{
  insert_sorted, sort, last, pick, prepend, store_all, batch_work, published, commit_sorted,
  commit_batch,
}
use blobcast.Sync.Batch.Sorting.{
  IsTop, IsSorted, Reorders, sort-IsSorted, Reorders-sort, last-sort-IsTop,
}

module _ (Q : ℕ → Type 0) where
  insert_sorted-keeps : (x : ℕ) (l : List ℕ) → Q x → All Q l → All Q (insert_sorted x l)
  unfolding insert_sorted
  insert_sorted-keeps x [] q h = (q, tt)
  insert_sorted-keeps x (y ∷ l) q (qy, h) = elim (Bool-cases (leb x y)) [
    | inl low ↦ rw low (q, (qy, h))
    | inr high ↦ rw high (qy, insert_sorted-keeps x l q h)
  ]

  sort-keeps : (xs : List ℕ) → All Q xs → All Q (sort xs)
  unfolding sort
  sort-keeps [] h = tt
  sort-keeps (x ∷ xs) (q, h) = insert_sorted-keeps x (sort xs) q (sort-keeps xs h)

  last-keeps : (l : List ℕ) (top : ℕ) → All Q l → last l ≡ some top → Q top
  unfolding last
  last-keeps [] top h e = absurd (cc e)
  last-keeps (x ∷ []) top (q, h) e = rw (← some-injective e) q
  last-keeps (x ∷ y ∷ l) top (q, h) e = last-keeps (y ∷ l) top h e

-- The blocks in the map stand under their heights, as `batchCommitter` puts them there.
abbrev pub IsKeyed : Map ℕ ProcessedBlock → Type 0
IsKeyed m = (h : ℕ) (d : ProcessedBlock) → lookup h m ≡ some d → d.block.header.height ≡ h

pub insert-IsKeyed :
    (m : Map ℕ ProcessedBlock) (d : ProcessedBlock)
    → d.height ≡ d.block.header.height
    → IsKeyed m
    → IsKeyed (insert d.height d m)
insert-IsKeyed m d same keyed h e is = elim (Bool-cases (d.height == h)) [
  | inl here ↦
      let there : some d ≡ some e = sym (rw here at (lookup-insert d.height h d m)) ∙ is in
      ap (λ (p : ProcessedBlock). p.block.header.height) (sym (some-injective there))
      ∙ sym same
      ∙ (==_iff d.height h).0 here
  | inr other ↦ keyed h e (sym (rw other at (lookup-insert d.height h d m)) ∙ is)
]

abbrev heights_of : List ProcessedBlock → List ℕ
heights_of ds =
    map (λ (h : BlockHeader). h.height) (map (λ (d : ProcessedBlock). d.block.header) ds)

pick_heights :
    (m : Map ℕ ProcessedBlock) (hs : List ℕ) (ds : List ProcessedBlock)
    → IsKeyed m
    → pick hs m ≡ some ds
    → heights_of ds ≡ hs
unfolding pick prepend
pick_heights m [] ds keyed e = subst (λ l. heights_of l ≡ []) (some-injective e) refl
pick_heights m (h ∷ hs) ds keyed e = elim (Option-cases (lookup h m)) [
  | inl gone ↦ absurd (cc (rw (pick, gone) at e))
  | inr (d, found) ↦ elim (Option-cases (pick hs m)) [
    | inl gone ↦ absurd (cc (rw (pick, found, gone) at e))
    | inr (rest, picked) ↦
        let all : d ∷ rest ≡ ds = some-injective (rw (pick, found, picked) at e) in
        subst (λ l. heights_of l ≡ h ∷ hs) all
          (ap₂ (λ a l. a ∷ l) (keyed h d found) (pick_heights m hs rest keyed picked))
  ]
]

module _ (B : Blake3) (P : Pebble) (M : Protobuf) (D : BlobStore) (chain : List ℕ) where
  -- What the transaction's work leaves in it.
  record Worked (heights : List ℕ) (picked : Option (List ProcessedBlock)) (w' : Work)
      : Type 0 where
    blocks : List ProcessedBlock
    top : ℕ
    was_picked : picked ≡ some blocks
    is_last : last heights ≡ some top
    before : Work
    ends : w'.tx.batch ≡ before.tx.batch ++ one key_finalized_height (bytes_from_uint64 top)

  batch_work-Worked :
      (heights : List ℕ) (picked : Option (List ProcessedBlock)) (b : Block) (w w' : Work)
      → batch_work B P M D chain heights picked w ≡ (ok b, w')
      → Worked heights picked w'
  unfolding batch_work finalize_block set_finalized_height
  batch_work-Worked heights picked b w w' e =
      let the_last =
        λ (ds : List ProcessedBlock). or_crash (last ds) >>= λ (d : ProcessedBlock). pure d.block in
      let (ds, w1, e1, r1) = bind-eq-ok (or_crash picked) _ w e in
      let (_, w2, e2, r2) = bind-eq-ok (store_all B P M D chain ds) _ w1 r1 in
      let (top, w3, e3, r3) =
        bind-eq-ok (or_crash (last heights))
          (λ top. finalize_block B P M D chain top >> the_last ds) w2 r2 in
      let (_, w4, e4, r4) =
        bind-eq-ok (finalize_block B P M D chain top) (λ (u : Unit). the_last ds) w3 r3 in
      let (d, w5, e5, r5) = bind-eq-ok (or_crash (last ds)) _ w4 r4 in
      let (tx, set, is4) = write_tx-eq-ok (λ tx. ok (set_finalized_height tx top)) w3 e4 in
      let is_tx : set_finalized_height w3.tx top ≡ tx = cc set in
      let back : w' ≡ w4 =
        sym ((or_crash-eq-ok (last ds) w4 e5).1 ∙ (pure-eq-ok d.block w5 r5).1) in
      record {
        blocks = ds;
        top = top;
        was_picked = (or_crash-eq-ok picked w e1).0;
        is_last = (or_crash-eq-ok (last heights) w2 e3).0;
        before = w3;
        ends =
            ap (λ (v : Work). v.tx.batch) (back ∙ is4)
            ∙ ap (λ (t : Transaction). t.batch) (sym is_tx);
      }

  published_ok :
      (picked : Option (List ProcessedBlock)) (b : Block) (ds : List ProcessedBlock)
      → picked ≡ some ds
      → published B P M D chain picked (ok b) ≡ map (λ (d : ProcessedBlock). d.block.header) ds
  unfolding published
  published_ok picked b ds e = rw e refl

  commit_sorted-ok :
      (n n' : Node B P M D chain) (heights : List ℕ) (picked : Option (List ProcessedBlock))
      (b : Block) (headers : List BlockHeader)
      → commit_sorted B P M D chain n heights picked ≡ ((ok b, n'), headers)
      → (in_transaction B P M D chain n (λ s. batch_work B P M D chain heights picked) ≡ (ok b, n'))
        × (headers ≡ published B P M D chain picked (ok b))
  unfolding commit_sorted
  commit_sorted-ok n n' heights picked b headers e =
      let run =
        ap (λ (r : (Outcome SyncError Block × Node B P M D chain) × List BlockHeader). r.0) e in
      (
        run,
        sym (ap (λ (r : (Outcome SyncError Block × Node B P M D chain) × List BlockHeader). r.1) e)
            ∙ ap
                (λ (r : Outcome SyncError Block × Node B P M D chain).
                  published B P M D chain picked r.0)
                run,
      )

  -- A batch that is committed, of blocks that stand under their heights, makes the greatest of its
  -- heights the finalized height, whether or not the heights below it have been committed; and the
  -- headers that are published have exactly the batch's heights, each as often as it stands there, in
  -- rising order.
  pub commit_batch_finalizes :
      (n n' : Node B P M D chain) (processed : Map ℕ ProcessedBlock) (heights : List ℕ) (b : Block)
      (headers : List BlockHeader)
      → IsKeyed processed
      → commit_batch B P M D chain n processed heights ≡ ((ok b, n'), headers)
      → All (λ h. h < 2 ^ 64) heights
      → (top : ℕ) × (ds : List ProcessedBlock) × (last (sort heights) ≡ some top)
        × IsTop top heights
        × (Chain.finalized_height P n'.state ≡ ok top)
        × (pick (sort heights) processed ≡ some ds)
        × (headers ≡ map (λ (d : ProcessedBlock). d.block.header) ds)
        × IsSorted (map (λ (h : BlockHeader). h.height) headers)
        × Reorders heights (map (λ (h : BlockHeader). h.height) headers)
  unfolding commit_batch
  commit_batch_finalizes n n' processed heights b headers keyed e fit =
      let picked = pick (sort heights) processed in
      let (run, shown) = commit_sorted-ok n n' (sort heights) picked b headers e in
      let (s, w, w', tx', work, done) = in_transaction-eq-ok B P M D chain n n' _ b run in
      let left = batch_work-Worked (sort heights) picked b w w' work in
      let top = left.top in
      let f : List ℕ = bytes_from_uint64 top in
      let are = shown ∙ published_ok picked b left.blocks left.was_picked in
      let risen : sort heights ≡ map (λ (h : BlockHeader). h.height) headers =
        sym (pick_heights processed (sort heights) left.blocks keyed left.was_picked)
        ∙ ap (map (λ (h : BlockHeader). h.height)) (sym are) in
      (
        top,
        left.blocks,
        left.is_last,
        last-sort-IsTop heights top left.is_last,
        read_finalized B P M D chain n'.state top
            (last-keeps (λ h. h < 2 ^ 64) (sort heights) top
              (sort-keeps (λ h. h < 2 ^ 64) heights fit) left.is_last)
            (P.get-commit s.db n'.state.db w'.tx.batch key_finalized_height
                (commit_parts P s n'.state w'.tx tx' done)
              ∙ ap (λ ops. last_write key_finalized_height ops (P.get s.db key_finalized_height))
                  left.ends
              ∙ finalized_under_key left.before.tx.batch f (P.get s.db key_finalized_height)),
        left.was_picked,
        are,
        subst IsSorted risen (sort-IsSorted heights),
        subst (Reorders heights) risen (Reorders-sort heights),
      )

-- ===== src/Sync/Batch/AnyOrder.antt =====
-- `batchCommitter` of pkg/sync/grpc.go: the order in which the workers' results arrive.
use blobcast.Prelude.{
  ℕ, suc, ◌+◌, ◌<◌, ◌≤◌, ◌≡◌, ◌≢◌, refl, sym, ap, ◌∙◌, some, List, [], ◌∷◌, ◌++◌, append-nil,
  append_assoc, Bool, true, false, ◌==◌, ==_iff, leb, if◌then◌else◌, All, length, map, arith,
}
use blobcast.Prelude.Maps.{Map, nat_eq, lookup, insert, lookup-insert}
use blobcast.Prelude.Outcome.{ok}
use blobcast.Crypto.{Blake3}
use blobcast.Types.Block.{BlockHeader}
use blobcast.State.Store.{Pebble, Protobuf}
use blobcast.Sync.Blocks.{BlobStore, Node}
use blobcast.Sync.Stream.{ProcessedBlock}
use blobcast.Sync.Batch.{sort, pick, commit_sorted, commit_batch, commit_rest, batch_committer}
use blobcast.Sync.Batch.Sorting.{Reorders, same, keep, exchange, and_then, sort-Reorders}

abbrev heights_of : List ProcessedBlock → List ℕ
heights_of ds = map (λ (d : ProcessedBlock). d.height) ds

-- No two blocks have one height.
abbrev pub DistinctHeights : List ProcessedBlock → Type 0
DistinctHeights [] = Unit {0}
DistinctHeights (d ∷ ds) = All (λ (e : ProcessedBlock). d.height ≢ e.height) ds × DistinctHeights ds

-- The map that the loop builds.
gathered : List ProcessedBlock → Map ℕ ProcessedBlock → Map ℕ ProcessedBlock
gathered [] m = m
gathered (d ∷ ds) m = gathered ds (insert d.height d m)

-- Maps that answer alike.
abbrev Alike : Map ℕ ProcessedBlock → Map ℕ ProcessedBlock → Type 0
Alike m m' = (k : ℕ) → lookup k m ≡ lookup k m'

insert-Alike :
    (k : ℕ) (d : ProcessedBlock) (m m' : Map ℕ ProcessedBlock)
    → Alike m m'
    → Alike (insert k d m) (insert k d m')
insert-Alike k d m m' h j =
    lookup-insert k j d m
    ∙ ap (λ o. if k == j then some d else o) (h j)
    ∙ sym (lookup-insert k j d m')

if-swap :
    {A : Type 0} (b c : Bool) (x y z : A)
    → ((b ≡ true) → (c ≡ true) → ⊥)
    → (if b then x else if c then y else z) ≡ (if c then y else if b then x else z)
if-swap true true x y z h = absurd (h refl refl)
if-swap true false x y z h = refl
if-swap false true x y z h = refl
if-swap false false x y z h = refl

insert-swap :
    (d e : ProcessedBlock) (m : Map ℕ ProcessedBlock)
    → d.height ≢ e.height
    → Alike (insert e.height e (insert d.height d m)) (insert d.height d (insert e.height e m))
insert-swap d e m ne j =
    lookup-insert e.height j e (insert d.height d m)
    ∙ ap (λ o. if e.height == j then some e else o) (lookup-insert d.height j d m)
    ∙ if-swap (e.height == j) (d.height == j) (some e) (some d) (lookup j m)
        (λ p q. ne ((==_iff _ _).0 q ∙ sym ((==_iff _ _).0 p)))
    ∙ sym (
        lookup-insert d.height j d (insert e.height e m)
        ∙ ap (λ o. if d.height == j then some d else o) (lookup-insert e.height j e m))

gathered-Alike :
    (ds : List ProcessedBlock) (m m' : Map ℕ ProcessedBlock)
    → Alike m m'
    → Alike (gathered ds m) (gathered ds m')
unfolding gathered
gathered-Alike [] m m' h = h
gathered-Alike (d ∷ ds) m m' h = gathered-Alike ds _ _ (insert-Alike d.height d m m' h)

All-Reorders : {A : Type 0} (Q : A → Type 0) {xs ys : List A} → Reorders xs ys → All Q xs → All Q ys
All-Reorders Q same h = h
All-Reorders Q (keep r) (hx, h) = (hx, All-Reorders Q r h)
All-Reorders Q exchange (hx, (hy, h)) = (hy, (hx, h))
All-Reorders Q (and_then r q) h = All-Reorders Q q (All-Reorders Q r h)

DistinctHeights-Reorders :
    {xs ys : List ProcessedBlock} → Reorders xs ys → DistinctHeights xs → DistinctHeights ys
DistinctHeights-Reorders same h = h
DistinctHeights-Reorders (keep r) (hx, h) = (All-Reorders _ r hx, DistinctHeights-Reorders r h)
DistinctHeights-Reorders exchange ((ne, hx), (hy, h)) = ((λ e. ne (sym e), hy), (hx, h))
DistinctHeights-Reorders (and_then r q) h =
    DistinctHeights-Reorders q (DistinctHeights-Reorders r h)

gathered-Reorders :
    {xs ys : List ProcessedBlock} (m : Map ℕ ProcessedBlock)
    → Reorders xs ys
    → DistinctHeights xs
    → Alike (gathered xs m) (gathered ys m)
unfolding gathered
gathered-Reorders m same h k = refl
gathered-Reorders m (keep {x = d} r) (hx, h) k = gathered-Reorders (insert d.height d m) r h k
gathered-Reorders m (exchange {x = d} {y = e} {xs = ds}) ((ne, hx), rest) k =
    gathered-Alike ds _ _ (insert-swap d e m ne) k
gathered-Reorders m (and_then r q) h k =
    gathered-Reorders m r h k ∙ gathered-Reorders m q (DistinctHeights-Reorders r h) k

pick-Alike : (hs : List ℕ) (m m' : Map ℕ ProcessedBlock) → Alike m m' → pick hs m ≡ pick hs m'
unfolding pick
pick-Alike [] m m' h = refl
pick-Alike (k ∷ hs) m m' h = rw (h k, pick-Alike hs m m' h) refl

heights-Reorders :
    {xs ys : List ProcessedBlock} → Reorders xs ys → Reorders (heights_of xs) (heights_of ys)
heights-Reorders same = same
heights-Reorders (keep r) = keep (heights-Reorders r)
heights-Reorders exchange = exchange
heights-Reorders (and_then r q) = and_then (heights-Reorders r) (heights-Reorders q)

length-insert :
    (k : ℕ) (d : ProcessedBlock) (m : Map ℕ ProcessedBlock) → length (insert k d m) ≤ length m + 1
unfolding insert
length-insert k d [] = omega arith
length-insert k d ((j, e) ∷ m) = ground (arith, length-insert k d m)

lt→not_leb : (a b : ℕ) → b < a → leb a b ≡ false
lt→not_leb a b h = ground arith

length-Reorders : {A : Type 0} {xs ys : List A} → Reorders xs ys → length xs ≡ length ys
length-Reorders same = refl
length-Reorders (keep r) = ap suc (length-Reorders r)
length-Reorders exchange = refl
length-Reorders (and_then r q) = length-Reorders r ∙ length-Reorders q

lookup-head :
    (k : ℕ) (d : ProcessedBlock) (m : Map ℕ ProcessedBlock) → lookup k ((k, d) ∷ m) ≡ some d
unfolding lookup
lookup-head k d m = rw ((==_iff k k).1 refl) refl

no_head : (k : ℕ) (d : ProcessedBlock) (m : Map ℕ ProcessedBlock) → Alike [] ((k, d) ∷ m) → ⊥
unfolding lookup
no_head k d m h = cc (h k, lookup-head k d m)

module _ (B : Blake3) (P : Pebble) (M : Protobuf) (D : BlobStore) (chain : List ℕ)
    (n : Node B P M D chain) where
  same_batch :
      (m m' : Map ℕ ProcessedBlock) (hs hs' : List ℕ)
      → Alike m m'
      → sort hs ≡ sort hs'
      → commit_batch B P M D chain n m hs ≡ commit_batch B P M D chain n m' hs'
  unfolding commit_batch
  same_batch m m' hs hs' h e =
      ap (λ l. commit_sorted B P M D chain n l (pick l m)) e
      ∙ ap (commit_sorted B P M D chain n (sort hs')) (pick-Alike (sort hs') m m' h)

  same_rest :
      (m m' : Map ℕ ProcessedBlock) (hs hs' : List ℕ) (headers : List BlockHeader)
      → Alike m m'
      → sort hs ≡ sort hs'
      → commit_rest B P M D chain n m hs headers ≡ commit_rest B P M D chain n m' hs' headers
  unfolding commit_rest
  same_rest [] [] hs hs' headers h e = refl
  same_rest [] ((k, d) ∷ m') hs hs' headers h e = absurd (no_head k d m' h)
  same_rest ((k, d) ∷ m) [] hs hs' headers h e = absurd (no_head k d m (λ j. sym (h j)))
  same_rest (x ∷ m) (y ∷ m') hs hs' headers h e = rw (same_batch (x ∷ m) (y ∷ m') hs hs' h e)

  -- Fewer results than a batch has are committed together at the end.
  one_batch :
      (size : ℕ) (ds : List ProcessedBlock) (m : Map ℕ ProcessedBlock) (hs : List ℕ)
      (headers : List BlockHeader)
      → length m + length ds < size
      → batch_committer B P M D chain size (map ok ds) m hs n headers
        ≡ commit_rest B P M D chain n (gathered ds m) (hs ++ heights_of ds) headers
  unfolding batch_committer gathered
  one_batch size [] m hs headers room =
      ap (λ l. commit_rest B P M D chain n m l headers) (sym (append-nil hs))
  one_batch size (d ∷ ds) m hs headers room =
      let grown = length-insert d.height d m in
      rw (batch_committer, lt→not_leb size (length (insert d.height d m)) (omega (arith, grown)))
        (one_batch size ds (insert d.height d m) (hs ++ d.height ∷ []) headers
            (omega (arith, grown))
          ∙ ap (λ l. commit_rest B P M D chain n (gathered ds (insert d.height d m)) l headers)
              (append_assoc hs (d.height ∷ []) (heights_of ds)))

  -- As long as all results fit in one batch, no two of them for one height, it does not matter in
  -- which order the workers deliver them: the committer ends with the same result, the same state
  -- and cache, and the same headers published.
  pub batch_committer_any_order :
      (size : ℕ) (xs ys : List ProcessedBlock)
      → Reorders xs ys
      → DistinctHeights xs
      → length xs < size
      → batch_committer B P M D chain size (map ok xs) [] [] n []
        ≡ batch_committer B P M D chain size (map ok ys) [] [] n []
  batch_committer_any_order size xs ys r distinct fits =
      one_batch size xs [] [] [] (omega arith)
      ∙ same_rest (gathered xs []) (gathered ys []) (heights_of xs) (heights_of ys) []
          (gathered-Reorders [] r distinct) (sort-Reorders (heights-Reorders r))
      ∙ sym (one_batch size ys [] [] [] (omega (arith, length-Reorders r)))

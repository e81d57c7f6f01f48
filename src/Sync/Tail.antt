-- ===== src/Sync/Tail.antt =====
-- The last writes of a height of pkg/sync/chain.go: the block, the height under the block's hash, and
-- the finalized height.
use blobcast.Prelude.{ℕ, ◌≡◌, refl, ◌∙◌, ◌%◌, ◌/◌, ◌^◌, ◌<◌, false, List, ◌++◌, arith}
use blobcast.Util.{put_little, bytes_from_uint64_key}
use blobcast.Crypto.{bytes_equal, bytes_equal_self}
use blobcast.State.Keys.{
  prefix_key, prefix_height_key, key_finalized_height, block_prefix, block_hash_prefix,
}
use blobcast.State.Store.{Batch, Got, found, last_write}
use blobcast.State.Transaction.Synced.{one, last_write-append}

-- The highest byte of a number below 2^56 is 0, which is no 'h'.
hash_key-ne-block_key :
    (hash : List ℕ) (k : ℕ)
    → k < 2 ^ 56
    → bytes_equal (prefix_key hash block_hash_prefix) (prefix_height_key k block_prefix) ≡ false
unfolding bytes_equal prefix_key prefix_height_key bytes_from_uint64_key put_little
hash_key-ne-block_key hash k h =
    let top : k / 256 / 256 / 256 / 256 / 256 / 256 / 256 % 256 ≡ 0 = omega arith in rw top refl

past_finalized :
    (k : ℕ) (f : List ℕ) (old : Got)
    → last_write (prefix_height_key k block_prefix) (one key_finalized_height f) old ≡ old
unfolding last_write prefix_height_key prefix_key bytes_equal
past_finalized k f old = refl

past_hash :
    (hash : List ℕ) (k : ℕ) (v : List ℕ) (old : Got)
    → k < 2 ^ 56
    → last_write (prefix_height_key k block_prefix) (one (prefix_key hash block_hash_prefix) v) old
      ≡ old
unfolding last_write
past_hash hash k v old h = rw (hash_key-ne-block_key hash k h) refl

at_key : (key value : List ℕ) (old : Got) → last_write key (one key value) old ≡ found value
unfolding last_write
at_key key value old = rw (bytes_equal_self key) refl

pub block_under_height :
    (pre : Batch) (k : ℕ) (bytes hash v f : List ℕ) (old : Got)
    → k < 2 ^ 56
    → last_write
        (prefix_height_key k block_prefix)
        (((pre ++ one (prefix_height_key k block_prefix) bytes)
            ++ one (prefix_key hash block_hash_prefix) v)
          ++ one key_finalized_height f)
        old
      ≡ found bytes
block_under_height pre k bytes hash v f old h =
    let key : List ℕ = prefix_height_key k block_prefix in
    last_write-append key _ (one key_finalized_height f) old
    ∙ past_finalized k f _
    ∙ last_write-append key _ (one (prefix_key hash block_hash_prefix) v) old
    ∙ past_hash hash k v _ h
    ∙ last_write-append key pre (one key bytes) old
    ∙ at_key key bytes _

pub finalized_under_key :
    (ops : Batch) (f : List ℕ) (old : Got)
    → last_write key_finalized_height (ops ++ one key_finalized_height f) old ≡ found f
finalized_under_key ops f old =
    last_write-append key_finalized_height ops (one key_finalized_height f) old
    ∙ at_key key_finalized_height f _

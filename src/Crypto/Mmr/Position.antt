-- ===== src/Crypto/Mmr/Position.antt =====
-- The arithmetic of positions in pkg/crypto/mmr/proofs.go. All values are uint64s.
use blobcast.Prelude.{
  ℕ, zero, suc, ◌+◌, ◌-◌, ◌*◌, ◌/◌, ◌%◌, ◌^◌, Bool, not, if◌then◌else◌, ◌==◌, leb,
}
use Prim.Native.Nat.{bit_and, bit_or}

-- `n &= n - 1` clears the lowest set bit, so 64 rounds suffice for a uint64.
unfoldable pub count_ones_loop : ℕ → ℕ → ℕ → ℕ
count_ones_loop zero n count = count
count_ones_loop (suc fuel) n count =
    let rest = count_ones_loop fuel (bit_and n (n - 1)) ((count + 1) % 2 ^ 64) in
    if n == 0 then count else rest

unfoldable pub count_ones : ℕ → ℕ
unfolding count_ones_loop
count_ones n = count_ones_loop 64 n 0

unfoldable pub leaf_index_to_mmr_index : ℕ → ℕ
unfolding count_ones
leaf_index_to_mmr_index leaf_index =
    (2 * leaf_index % 2 ^ 64 + 2 ^ 64 - count_ones leaf_index) % 2 ^ 64

-- `bits.Len64`, by halving; 64 rounds suffice for a uint64.
unfoldable pub bit_length_loop : ℕ → ℕ → ℕ
bit_length_loop zero n = 0
bit_length_loop (suc fuel) n =
    let rest = suc (bit_length_loop fuel (n / 2)) in if n == 0 then 0 else rest

unfoldable pub bit_length : ℕ → ℕ
unfolding bit_length_loop
bit_length n = bit_length_loop 64 n

-- `^uint64(0) >> bits.LeadingZeros64(size)`
unfoldable pub first_peak_size : ℕ → ℕ
unfolding bit_length
first_peak_size size = (2 ^ 64 - 1) / 2 ^ (64 - bit_length size)

-- The loop of `peakMapHeight`: a peak size that is halved is 0 after 64 rounds.
unfoldable pub peak_map_loop : ℕ → ℕ → ℕ → ℕ → ℕ × ℕ
peak_map_loop zero peak_size size peak_map = (peak_map, size)
peak_map_loop (suc fuel) peak_size size peak_map =
    let shifted : ℕ = peak_map * 2 % 2 ^ 64 in
    let fits : Bool = leb peak_size size in
    let rest =
      peak_map_loop fuel (peak_size / 2) (if fits then size - peak_size else size)
        (if fits then bit_or shifted 1 else shifted) in
    if peak_size == 0 then (peak_map, size) else rest

unfoldable pub peak_map_height : ℕ → ℕ × ℕ
unfolding first_peak_size peak_map_loop
peak_map_height size = if size == 0 then (0, 0) else peak_map_loop 64 (first_peak_size size) size 0

unfoldable pub is_leaf : ℕ → Bool
unfolding peak_map_height
is_leaf pos = (peak_map_height pos).1 == 0

-- `uint64(1) << height`
abbrev pub peak_bit : ℕ → ℕ
peak_bit height = 2 ^ height % 2 ^ 64

-- The positions of the parent and of the sibling.
unfoldable pub family : ℕ → ℕ × ℕ
unfolding peak_map_height
family pos =
    let (peak_map, height) = peak_map_height pos in
    let peak : ℕ = peak_bit height in
    if not (bit_and peak_map peak == 0)
    then ((pos + 1) % 2 ^ 64, ((pos + 1) % 2 ^ 64 + 2 ^ 64 - 2 * peak % 2 ^ 64) % 2 ^ 64)
    else ((pos + 2 * peak) % 2 ^ 64, (pos + 2 * peak + 2 ^ 64 - 1) % 2 ^ 64)

unfoldable pub is_left_sibling : ℕ → Bool
unfolding peak_map_height
is_left_sibling pos =
    let (peak_map, height) = peak_map_height pos in bit_and peak_map (peak_bit height) == 0

-- ===== src/Space/Size.antt =====
-- calcNetworkSize, calcNetworkSizeWithFlag and calcSpaceSize of bitdht/bdpeer.cc. `sum` and `no_peers`
-- are 64-bit words, `count` and the results 32-bit words, and wrap as such. There are at most
-- `key_bitlen` buckets and at most 62 bucket bits, so the shifts are not negative.
use bitdht.Base.{
  ℕ, suc, ◌+◌, ◌-◌, ◌*◌, ◌/◌, ◌%◌, ◌^◌, Bool, true, false, not, ◌&&◌, List, [], ◌∷◌, ltb, ◌==◌,
  if◌then◌else◌, length, count_if, bit_and,
}
use bitdht.DhtFunctions.{DhtFunctions}
use bitdht.Space.{Bucket, BdSpace, key_bitlen, ullong_bits}

abbrev pub u32_mod : ℕ
u32_mod = 2 ^ 32

abbrev pub u64_mod : ℕ
u64_mod = 2 ^ 64

-- The variables of the loop.
pub record Tally : Type 0 where
  pub sum : ℕ
  pub no_peers : ℕ
  pub count : ℕ
  pub do_print : Bool
  pub do_avg : Bool

abbrev pub start_tally : Tally
start_tally = record { sum = 0; no_peers = 0; count = 0; do_print = false; do_avg = false }

abbrev pub shift_limit : DhtFunctions → ℕ
shift_limit fns = ullong_bits - fns.bucket_bit_size - 1

abbrev pub is_to_big : DhtFunctions → ℕ → Bool
is_to_big fns i = ltb (shift_limit fns) (key_bitlen - i)

-- 1 << shift, the number of buckets of this depth in the key space, cut off at the limit.
abbrev pub no_nets : DhtFunctions → ℕ → ℕ
no_nets fns i = 2 ^ (if is_to_big fns i then shift_limit fns else key_bitlen - i) % u64_mod

-- The switches, and the reset at an empty bucket.
abbrev pub switch : ℕ → Tally → Tally
switch size t =
    let avg = if not (size == 0) && not t.do_avg && not t.do_print then true else t.do_avg in
    let print = if not (size == 0) && not t.do_print then true else t.do_print in
    if size == 0
    then record { sum = 0; no_peers = 0; count = 0; do_print = print; do_avg = avg }
    else record t { do_print = print; do_avg = avg }

-- no_peers = no_nets * size
abbrev pub estimate : DhtFunctions → ℕ → ℕ → Tally → Tally
estimate fns i size t =
    if is_to_big fns i then t else record t { no_peers = no_nets fns i * size % u64_mod }

-- The last bucket that counts is a full one.
abbrev pub accumulate : DhtFunctions → ℕ → ℕ → Tally → Tally
accumulate fns i size t =
    let avg = if size == fns.nodes_per_bucket then false else t.do_avg in
    if not (t.do_print && t.do_avg && not (is_to_big fns i))
    then t
    else if t.no_peers == 0
    then record t { do_avg = avg }
    else record t {
      do_avg = avg;
      sum = (t.sum + t.no_peers) % u64_mod;
      count = (t.count + 1) % u32_mod;
    }

unfoldable pub tally_bucket : DhtFunctions → ℕ → ℕ → Tally → Tally
tally_bucket fns i size t = accumulate fns i size (estimate fns i size (switch size t))

-- The loop over the sizes of the buckets from index `i` on.
unfoldable pub tally_sizes : DhtFunctions → ℕ → List ℕ → Tally → Tally
tally_sizes fns i [] t = t
tally_sizes fns i (size ∷ sizes) t = tally_sizes fns (suc i) sizes (tally_bucket fns i size t)

abbrev pub net_size : Tally → ℕ
net_size t = if t.count == 0 then 0 else t.sum / t.count % u32_mod

abbrev pub sizes : List Bucket → List ℕ
sizes [] = []
sizes (b ∷ bs) = length b ∷ sizes bs

abbrev pub sizes_with_flag : ℕ → List Bucket → List ℕ
sizes_with_flag flag [] = []
sizes_with_flag flag (b ∷ bs) =
    count_if (λ p. not (bit_and flag p.peer_flags == 0)) b ∷ sizes_with_flag flag bs

unfoldable pub calc_network_size : DhtFunctions → BdSpace → ℕ
calc_network_size fns s = net_size (tally_sizes fns 0 (sizes s.buckets) start_tally)

unfoldable pub calc_network_size_with_flag : DhtFunctions → BdSpace → ℕ → ℕ
calc_network_size_with_flag fns s flag =
    net_size (tally_sizes fns 0 (sizes_with_flag flag s.buckets) start_tally)

unfoldable pub total_count : List Bucket → ℕ → ℕ
total_count [] count = count
total_count (b ∷ bs) count = total_count bs ((count + length b) % u32_mod)

unfoldable pub calc_space_size : BdSpace → ℕ
calc_space_size s = total_count s.buckets 0

-- ===== src/Tests/Keys.antt =====
-- Tests for ids and for the standard DHT.
use bitdht.Base.{◌+◌, ◌≤◌, ◌<◌, ◌≡◌, refl, ◌↔◌, ◌⊎◌, true, arith}
use bitdht.Peer.{value, zero_node_id, id_lt, IsNodeId}
use bitdht.Peer.Order.{id_lt_both_ways}
use bitdht.StdDht.{
  std_node_id, std_print_node_id, std_distance, std_bucket_distance, bucket_distance_loop,
  std_random_mid_id, key_bitlen,
}
use bitdht.StdDht.Text.{std_node_id-std_print_node_id}
use bitdht.StdDht.Metric.{std_distance_metric}
use bitdht.StdDht.Buckets.{HighestBit, std_bucket_distance-HighestBit}
use bitdht.StdDht.MidPoint.{std_random_mid_id-nearer}
use bitdht.Tests.Data.{node, node-IsNodeId, id_at}

id_lt_both_ways_example :
    ((id_lt (id_at 5 1 2) (id_at 5 2 1) ≡ true) × (id_lt (id_at 5 2 1) (id_at 5 1 2) ≡ true))
    ↔ ((node 5 ≡ node 5) × (((2 < 1) × (2 < 1)) ⊎ ((1 < 2) × (1 < 2))))
id_lt_both_ways_example =
    id_lt_both_ways (id_at 5 1 2) (id_at 5 2 1) (node-IsNodeId 5 (omega arith))
      (node-IsNodeId 5 (omega arith))

std_distance_metric_example :
    IsNodeId (std_distance (node 5) (node 9))
    × (std_distance (node 5) (node 9) ≡ std_distance (node 9) (node 5))
    × ((std_distance (node 5) (node 9) ≡ zero_node_id) ↔ (node 5 ≡ node 9))
    × (value (std_distance (node 5) (node 6))
        ≤ value (std_distance (node 5) (node 9)) + value (std_distance (node 9) (node 6)))
    × ((std_distance (node 5) (node 9) ≡ std_distance (node 5) (node 6)) ↔ (node 9 ≡ node 6))
std_distance_metric_example =
    std_distance_metric (node 5) (node 9) (node 6) (node-IsNodeId 5 (omega arith))
      (node-IsNodeId 9 (omega arith)) (node-IsNodeId 6 (omega arith))

std_bucket_distance-HighestBit_example :
    HighestBit (value (node 12)) (std_bucket_distance (node 12))
    × (std_bucket_distance (node 12) < key_bitlen)
std_bucket_distance-HighestBit_example =
    std_bucket_distance-HighestBit (node 12) (node-IsNodeId 12 (omega arith))

bucket_of_twelve : std_bucket_distance (node 12) ≡ 3
unfolding std_bucket_distance bucket_distance_loop
bucket_of_twelve = refl

std_random_mid_id-nearer_example :
    (value (std_distance (node 5) (std_random_mid_id (node 5) (node 9) (node 200)))
      < value (std_distance (node 5) (node 9)))
    ⊎ ((node 5 ≡ node 9) × (std_random_mid_id (node 5) (node 9) (node 200) ≡ node 5))
std_random_mid_id-nearer_example =
    std_random_mid_id-nearer (node 5) (node 9) (node 200) (node-IsNodeId 5 (omega arith))
      (node-IsNodeId 9 (omega arith)) (node-IsNodeId 200 (omega arith))

std_node_id-std_print_node_id_example : std_node_id (std_print_node_id (node 171)) ≡ node 171
std_node_id-std_print_node_id_example =
    std_node_id-std_print_node_id (node 171) (node-IsNodeId 171 (omega arith))

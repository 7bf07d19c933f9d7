-- ===== src/DhtFunctions.antt =====
-- The interface bdDhtFunctions of bitdht/bdiface.h, by which the routing table and the queries see
-- the key space. The random node id that a mid-point starts from is an argument.
use bitdht.Base.{ℕ, ◌<◌, ◌≡◌, ◌↔◌}
use bitdht.Peer.{BdNodeId, BdMetric, BdId, IsNodeId, zero_node_id}

pub record DhtFunctions : Type 0 where
  pub num_buckets : ℕ
  pub nodes_per_bucket : ℕ
  pub bucket_bit_size : ℕ
  pub distance : BdNodeId → BdNodeId → BdMetric
  pub bucket_distance : BdMetric → ℕ
  pub likely_same_node : BdId → BdId → ℕ
  pub random_mid_id : BdNodeId → BdNodeId → BdNodeId → BdNodeId

-- What the clients rely on: buckets exist, a peer has room, and a metric is an id that is zero for
-- equal ids only.
pub record DhtLaws (fns : DhtFunctions) : Type 0 where
  pub room : 0 < fns.nodes_per_bucket
  pub bucket_in_range : (m : BdMetric) → fns.bucket_distance m < fns.num_buckets
  pub distance-IsNodeId : (a b : BdNodeId) → IsNodeId a → IsNodeId b → IsNodeId (fns.distance a b)
  pub distance_zero :
      (a b : BdNodeId) → IsNodeId a → IsNodeId b → (fns.distance a b ≡ zero_node_id) ↔ (a ≡ b)

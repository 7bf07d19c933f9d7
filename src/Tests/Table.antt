-- ===== src/Tests/Table.antt =====
-- Tests for the routing table.
use bitdht.Base.{◌≤◌, ◌≡◌, min, false, List, [], ◌∷◌, ◌++◌, length, arith}
use mathlib.Core.List.{Perm}
use bitdht.Peer.{BdId, BdMetric, id_eq}
use bitdht.StdDht.{std_dht}
use bitdht.StdDht.Buckets.{std_dht-DhtLaws}
use bitdht.Space.{add_to_bucket, add_peer, find_nearest_nodes}
use bitdht.Space.Outcomes.{Added, add_to_bucket-Added}
use bitdht.Space.Table.{IsTable}
use bitdht.Space.Nearest.{IsOrdered, all_peers, find_nearest_nodes_lem}
use bitdht.Space.Runs.{run-new_space-IsTable, add_peer_keeps_silent_peers}
use bitdht.Tests.Data.{
  node, id_at, peer_at, calls, table, full_table, bucket_of_twelve, All-replicate, twelve-Fresh,
}

run-new_space-IsTable_example : IsTable std_dht table
run-new_space-IsTable_example = run-new_space-IsTable std_dht (node 0) calls std_dht-DhtLaws

find_nearest_nodes_lem_example :
    (left_out : List (BdMetric × BdId)) × Perm
      (find_nearest_nodes std_dht table (node 4) 1 [] [] ++ left_out)
      (all_peers std_dht (node 4) table.buckets)
    × IsOrdered (find_nearest_nodes std_dht table (node 4) 1 [] [] ++ left_out)
    × (length (find_nearest_nodes std_dht table (node 4) 1 [] [])
        ≡ min 1 (length (find_nearest_nodes std_dht table (node 4) 1 [] [] ++ left_out)))
find_nearest_nodes_lem_example = find_nearest_nodes_lem std_dht (node 4) table 1 []

add_to_bucket-Added_example :
    Added 2
      (id_at 9 7 80)
      4
      300
      (peer_at 5 0 100 ∷ [])
      (add_to_bucket 2 (id_at 9 7 80) 4 300 (peer_at 5 0 100 ∷ []))
add_to_bucket-Added_example = add_to_bucket-Added 2 (id_at 9 7 80) 4 300 (peer_at 5 0 100 ∷ [])

-- The peers were heard of at 100, and the call is at a million.
add_peer_keeps_silent_peers_example :
    add_peer std_dht full_table (id_at 12 8 80) 0 1000000 ≡ (full_table, false)
add_peer_keeps_silent_peers_example =
    add_peer_keeps_silent_peers std_dht full_table (id_at 12 8 80) 0 1000000
      (rw bucket_of_twelve (
        All-replicate (λ p. id_eq (id_at 12 8 80) p.peer_id ≡ false) 10 (peer_at 9 0 100)
          twelve-Fresh))
      (rw bucket_of_twelve (omega arith))
      (rw bucket_of_twelve (
        All-replicate (λ p. (p.last_recv_time ≤ 1000000) × (0 ≤ p.peer_flags)) 10 (peer_at 9 0 100)
          (omega arith, omega arith)))

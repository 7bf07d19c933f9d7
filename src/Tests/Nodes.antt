-- ===== src/Tests/Nodes.antt =====
-- Tests for the node.
use bitdht.Base.{◌++◌, suc, ◌≡◌, none, some, [], ◌∷◌, arith}
use bitdht.StdDht.{std_dht}
use bitdht.StdDht.Buckets.{std_dht-DhtLaws}
use bitdht.Space.Stale
use bitdht.Node.{Node}
use bitdht.Node.BlackList.{add_black_list}
use bitdht.Node.BlackList.Dropped.{recv_pkt-add_black_list}
use bitdht.Node.Invariant.{NodeIs}
use bitdht.Node.Invariant.Kept.{recv_pkt-NodeIs}
use bitdht.Node.Receiving.{recv_pkt}
use bitdht.Node.Remote.{process_remote_query}
use bitdht.Node.Remote.Served.{Served, process_remote_query-Served}
use bitdht.Node.Iteration.{ping_out_of_date, count_peers, ask_queries}
use bitdht.Node.Iteration.Sweep.{pings, ping_out_of_date_returns}
use bitdht.Node.Iteration.Rate.{IsRound, ask_queries-IsRound}
use bitdht.Tests.Data.{node, table}
use bitdht.Tests.NodeData.{left, world, asking, query, small_node, datagram, small_node-IsNode}

recv_pkt-NodeIs_example : NodeIs std_dht 30 (recv_pkt (world none 300) left small_node datagram)
recv_pkt-NodeIs_example =
    recv_pkt-NodeIs (world none 300) std_dht-DhtLaws 30 (omega arith) left small_node datagram
      small_node-IsNode

recv_pkt-add_black_list_example :
    recv_pkt (world none 300) left (add_black_list small_node datagram.addr) datagram
    ≡ some (add_black_list small_node datagram.addr)
recv_pkt-add_black_list_example = recv_pkt-add_black_list (world none 300) left small_node datagram

abbrev asked_node : Node
asked_node = record small_node { remote_queries = record asking { query_ts = 5 } ∷ asking ∷ [] }

process_remote_query-Served_example :
    Served
      (world none 105)
      asked_node
      asked_node.remote_queries
      (process_remote_query (world none 105) asked_node)
process_remote_query-Served_example = process_remote_query-Served (world none 105) asked_node

ping_out_of_date_returns_example :
    (n' : Node) × (ping_out_of_date (world none 3000) (suc (count_peers table.buckets)) small_node
      ≡ some n')
    × (Stale.overdue 3000 n'.node_space.buckets ≡ 0)
    × (n'.outgoing_msgs
        ≡ []
          ++ pings
              (world none 3000)
              (node 0)
              small_node.trans_id_counter
              (Stale.overdue_ids 3000 table.buckets))
ping_out_of_date_returns_example = ping_out_of_date_returns (world none 3000) small_node

ask_queries-IsRound_example :
    IsRound
      (world none 200)
      0
      (query ∷ [])
      []
      small_node
      45
      (ask_queries (world none 200) 0 (query ∷ []) [] small_node 45)
ask_queries-IsRound_example =
    ask_queries-IsRound (world none 200) 0 (query ∷ []) [] small_node 45 (omega arith)

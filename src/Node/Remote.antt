-- ===== src/Node/Remote.antt =====
-- The queries of other nodes in bitdht/bdnode.cc: queueQuery and processRemoteQuery.
pub mod Served
use bitdht.Base.{
  ℕ, suc, ◌+◌, Bool, Option, none, some, List, [], ◌∷◌, ◌++◌, map, ltb, ◌==◌, if◌then◌else◌,
}
use bitdht.Peer.{BdNodeId, BdId}
use bitdht.Space.{find_nearest_nodes}
use bitdht.Query.{RemoteQuery}
use bitdht.Msgs.{BdToken}
use bitdht.Node.{World, Node}
use bitdht.Node.Sending.{msgout_reply_find_node}

abbrev pub bd_query_neighbours : ℕ
bd_query_neighbours = 1

abbrev pub bd_query_hash : ℕ
bd_query_hash = 2

abbrev pub query_neighbour_peers : ℕ
query_neighbour_peers = 8

abbrev pub max_remote_query_age : ℕ
max_remote_query_age = 10

abbrev pub count_hash : Node → Node
count_hash n = record n {
  counters = record n.counters { reply_query_hash = suc n.counters.reply_query_hash };
}

module _ (w : World) where
  unfoldable pub queue_query : Node → BdId → BdNodeId → BdToken → ℕ → Node
  queue_query n id query tid query_type = record n {
    remote_queries =
        n.remote_queries
        ++ record {
          id = id;
          query = query;
          trans_id = tid;
          query_type = query_type;
          query_ts = w.now;
        }
          ∷ [];
  }

  -- The nearest peers of the table, which a query for neighbours is answered with.
  abbrev pub near_list : Node → BdNodeId → List BdId
  near_list n id =
      map (λ e. e.1) (find_nearest_nodes w.fns n.node_space id query_neighbour_peers [] [])

  abbrev pub answer_neighbours : Node → RemoteQuery → Node
  answer_neighbours n q =
      let n' = msgout_reply_find_node w n q.id q.trans_id (near_list n q.query) in
      record n' {
        counters = record n'.counters { reply_find_node = suc n'.counters.reply_find_node };
      }

  -- The loop, on the queries from the front: old ones and those of another type are dropped, and it stops behind
  -- the first that is neither.
  unfoldable pub process_queries : Node → List RemoteQuery → Node
  process_queries n [] = record n { remote_queries = [] }
  process_queries n (q ∷ qs) =
      let rest = process_queries n qs in
      if ltb w.now (q.query_ts + max_remote_query_age)
      then if q.query_type == bd_query_neighbours
        then record (answer_neighbours n q) { remote_queries = qs }
        else if q.query_type == bd_query_hash
        then record (count_hash n) { remote_queries = qs }
        else rest
      else rest

  unfoldable pub process_remote_query : Node → Node
  process_remote_query n = process_queries n n.remote_queries

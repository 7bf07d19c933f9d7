-- ===== src/Tests/NodeData.antt =====
-- A node on the standard DHT for the tests, with one query, and what it is given.
use bitdht.Base.{ℕ, ◌+◌, ◌*◌, Option, [], ◌∷◌, arith}
use bitdht.StdDht.{std_dht}
use bitdht.Query.{BdQuery, RemoteQuery, new_query}
use bitdht.Query.Invariant.{IsQuery, new_query-IsQuery}
use bitdht.Msgs.{BeNode}
use bitdht.Node.{World, Node, NetMsg, Leftovers, no_counts}
use bitdht.Node.Invariant.{IsNode}
use bitdht.Tests.Data.{node, id_at, table, table-IsTable}

abbrev pub left : Leftovers
left = record { id = node 99; target_info_hash = node 98 }

-- Every datagram decodes to the given message.
abbrev pub world : Option BeNode → ℕ → World
world message now = record {
  fns = std_dht;
  be_encode = λ n. [];
  be_decoden = λ bytes. message;
  rand = λ state. (state * 7 + 1, state + 1);
  now = now;
  random_ids = λ round. node 77;
  leftovers = λ round. left;
}

abbrev pub asking : RemoteQuery
asking = record {
  id = id_at 5 7 80;
  query = node 6;
  trans_id = 49 ∷ 50 ∷ [];
  query_type = 1;
  query_ts = 100;
}

abbrev pub query : BdQuery
query = new_query std_dht (node 5) [] 0 100

abbrev pub small_node : Node
small_node = record {
  own_id = node 0;
  my_ips = [];
  node_space = table;
  store = [];
  white_nodes = [];
  black_nodes = [];
  dht_version = 66 ∷ 68 ∷ 48 ∷ 50 ∷ [];
  hash_space = [];
  local_queries = query ∷ [];
  remote_queries = [];
  potential_peers = id_at 3 7 80 ∷ [];
  connect_requests = [];
  peer_addrs = (node 9, (id_at 9 8 81).addr) ∷ [];
  punching = [];
  outgoing_msgs = [];
  incoming_msgs = [];
  random_token_array = [];
  counters = no_counts;
  trans_id_counter = 3;
  broadcast_count = 9;
  rand_state = 1;
  callbacks = [];
}

abbrev pub datagram : NetMsg
datagram = record { bytes = 100 ∷ 49 ∷ 58 ∷ 97 ∷ 101 ∷ []; addr = (id_at 5 7 80).addr }

query-IsQuery : IsQuery std_dht 30 query
query-IsQuery =
    let v = new_query-IsQuery std_dht (node 5) [] 0 100 in
    record {
      closest_list = v.closest_list;
      potential_list = v.potential_list;
      closest_bound = omega (arith, v.closest_bound);
      potential_bound = v.potential_bound;
    }

pub small_node-IsNode : IsNode std_dht 30 small_node
small_node-IsNode = record {
  table = table-IsTable;
  queries = (query-IsQuery, tt);
  store = record { distinct = tt; bounded = omega arith };
  tokens = omega arith;
  black = tt;
}

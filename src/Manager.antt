-- ===== src/Manager.antt =====
-- bdNodeManager of bitdht/bdmanager.h and bitdht/bdmanager.cc: the state machine that starts the DHT up, and
-- the ids that are searched for. The calls into the base class bdNode are the second part of each result, in
-- order; the routing table of the node, and the states of its queries that QueryStatus gives, are arguments.
pub mod Iteration
pub mod StartUp
pub mod Peers
pub mod Runs
pub mod Refresh
pub mod Clients
use mathlib.Core.Option
use bitdht.Base.{
  ℕ, ◌+◌, Bool, true, false, not, ◌&&◌, ◌||◌, Option, none, some, List, [], ◌∷◌, ◌++◌, ltb, ◌==◌,
  if◌then◌else◌, bit_or,
}
use bitdht.Peer.{BdNodeId, BdId, SockaddrIn, blank_id, bd_sock_addr_init, node_id_lt, node_id_eq}
use bitdht.Multimap
use bitdht.DhtFunctions.{DhtFunctions}
use bitdht.StdDht.{std_node_id}
use bitdht.Space.{BdSpace}
use bitdht.Space.Size.{calc_network_size, calc_network_size_with_flag, calc_space_size}
use bitdht.Query.{
  QueryState, ready, querying, failure, found_closest, peer_unreachable, success, has_flag,
  qflags_disguise, qflags_do_idle,
}

-- The constants BITDHT_MGR_STATE_*.
pub data Mode : Type 0 where
  off startup findself active refresh quiet failed : Mode

abbrev pub max_startup_time : ℕ
max_startup_time = 10

abbrev pub max_refresh_time : ℕ
max_refresh_time = 10

abbrev pub max_findself_time : ℕ
max_findself_time = 60

abbrev pub transition_op_space_size : ℕ
transition_op_space_size = 100

abbrev pub min_op_space_size : ℕ
min_op_space_size = 20

abbrev pub peer_status_dht_appl : ℕ
peer_status_dht_appl = 0x200

-- bdQueryPeer; the times mLastQuery and mLastFound are never read.
pub record QueryPeer : Type 0 where
  pub id : BdId
  pub status : QueryState
  pub qflags : ℕ
  pub dht_addr : SockaddrIn

pub record QueryStatus : Type 0 where
  pub status : QueryState
  pub qflags : ℕ
  pub results : List BdId

abbrev pub ActivePeers : Type 0
ActivePeers = List (BdNodeId × QueryPeer)

-- What the manager asks of its base class, and of its callback clients for the peers that a query found.
pub data NodeCall : Type 0 where
  shutdown_node restart_node update_store iterate iterate_off : NodeCall
  add_query : BdNodeId → ℕ → NodeCall
  clear_query add_conn_req : BdNodeId → NodeCall
  call_back : BdNodeId → ℕ → NodeCall

pub record Manager : Type 0 where
  pub mode : Mode
  pub mode_ts : ℕ
  pub active_peers : ActivePeers
  pub network_size : ℕ
  pub bd_network_size : ℕ

abbrev pub new_manager : Manager
new_manager = record {
  mode = off;
  mode_ts = 0;
  active_peers = [];
  network_size = 0;
  bd_network_size = 0;
}

-- The loop of stopDht.
unfoldable pub all_ready : ActivePeers → ActivePeers
all_ready [] = []
all_ready ((id, p) ∷ m) = (id, record p { status = ready }) ∷ all_ready m

unfoldable pub stop_dht : Manager → ℕ → Manager × List NodeCall
stop_dht m now = (
  record m { active_peers = all_ready m.active_peers; mode = off; mode_ts = now },
  shutdown_node ∷ [],
)

unfoldable pub start_dht : Manager → ℕ → Manager × List NodeCall
start_dht m now = (record m { mode = startup; mode_ts = now }, restart_node ∷ [])

abbrev pub new_query_peer : BdNodeId → ℕ → QueryPeer
new_query_peer id qflags = record {
  id = record blank_id { id = id };
  status = ready;
  qflags = qflags;
  dht_addr = record bd_sock_addr_init { s_addr = 0; sin_port = 0 };
}

abbrev pub add_unless_found : Manager → BdNodeId → ℕ → Option QueryPeer → Manager × List NodeCall
add_unless_found m id qflags (some p) = (m, [])
add_unless_found m id qflags none = (
  record m {
    active_peers = Multimap.insert node_id_lt id (new_query_peer id qflags) m.active_peers;
  },
  add_conn_req id ∷ [],
)

unfoldable pub add_find_node : Manager → BdNodeId → ℕ → Manager × List NodeCall
add_find_node m id qflags =
    add_unless_found m id qflags (Multimap.find node_id_lt id m.active_peers)

abbrev pub remove_found : Manager → BdNodeId → Option QueryPeer → Manager × List NodeCall
remove_found m id none = (m, [])
remove_found m id (some p) =
    (record m { active_peers = Multimap.erase node_id_lt id m.active_peers }, clear_query id ∷ [])

unfoldable pub remove_find_node : Manager → BdNodeId → Manager × List NodeCall
remove_find_node m id = remove_found m id (Multimap.find node_id_lt id m.active_peers)

-- The loop of removeAllFindNode.
unfoldable pub clear_queries : BdNodeId → ActivePeers → List NodeCall
clear_queries own_id [] = []
clear_queries own_id ((id, p) ∷ m) =
    if node_id_eq id own_id then clear_queries own_id m else clear_query id ∷ clear_queries own_id m

unfoldable pub remove_all_find_node : Manager → BdNodeId → Manager × List NodeCall
remove_all_find_node m own_id =
    (record m { active_peers = [] }, clear_queries own_id m.active_peers)

abbrev pub is_ready : QueryState → Bool
is_ready ready = true
is_ready _ = false

-- The loop of startQueries.
unfoldable pub start_queries : ActivePeers → ActivePeers × List NodeCall
start_queries [] = ([], [])
start_queries ((id, p) ∷ m) =
    let (started, calls) = start_queries m in
    if is_ready p.status
    then (
      (id, record p { status = querying }) ∷ started,
      add_query id (bit_or p.qflags qflags_disguise) ∷ calls,
    )
    else ((id, p) ∷ started, calls)

abbrev pub is_success : QueryState → Bool
is_success success = true
is_success _ = false

abbrev pub found_addr : Option QueryPeer → Option SockaddrIn
found_addr none = none
found_addr (some p) = if is_success p.status then some p.dht_addr else none

-- The address, if the peer was found.
unfoldable pub get_dht_peer_address : Manager → BdNodeId → Option SockaddrIn
get_dht_peer_address m id = found_addr (Multimap.find node_id_lt id m.active_peers)

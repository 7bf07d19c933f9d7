-- ===== src/Node.antt =====
-- bdNode of bitdht/bdnode.h and bitdht/bdnode.cc: one peer of the DHT, with its state and what it is given from
-- outside. The class bdNodeManager overrides addPeer; what its own addPeer does besides is in bitdht/bdmanager.cc.
pub mod Sending
pub mod Peers
pub mod Remote
pub mod BlackList
pub mod Handlers
pub mod Receiving
pub mod Iteration
pub mod Invariant
pub mod Exchange
pub mod Requests
pub mod Transactions
use bitdht.Base.{
  ℕ, zero, suc, ◌+◌, ◌/◌, ◌%◌, ◌^◌, Bool, Option, none, some, List, [], ◌∷◌, ◌++◌, ltb, ◌==◌,
  if◌then◌else◌, length, take,
}
use bitdht.Peer.{BdNodeId, SockaddrIn, BdId}
use bitdht.DhtFunctions.{DhtFunctions}
use bitdht.Space
use bitdht.Space.{BdSpace, new_space}
use bitdht.Query.{BdQuery, RemoteQuery}
use bitdht.Hash.Space.{Table, clear_hash_space}
use bitdht.Store
use bitdht.Store.{Store, reload_from_store}
use bitdht.Msgs.{BeNode, BdToken, MsgType, token_max_len}

-- What two local variables of recvPkt hold before they are written.
pub record Leftovers : Type 0 where
  pub id : BdNodeId
  pub target_info_hash : BdNodeId

-- What a node is given: the key space; be_encode with room for 10239 bytes, and be_decoden; rand() on the state of
-- its generator; the time of the call; the random ids that the queries draw, and the uninitialised variables, by
-- their number in one call.
pub record World : Type 0 where
  pub fns : DhtFunctions
  pub be_encode : BeNode → List ℕ
  pub be_decoden : List ℕ → Option BeNode
  pub rand : ℕ → ℕ × ℕ
  pub now : ℕ
  pub random_ids : ℕ → BdNodeId
  pub leftovers : ℕ → Leftovers

-- bdNodeNetMsg.
pub record NetMsg : Type 0 where
  pub bytes : List ℕ
  pub addr : SockaddrIn

-- The mCounter fields, which are whole numbers in a double; doStats folds them into averages that are only printed.
pub record Counters : Type 0 where
  pub out_of_date_ping : ℕ
  pub pings : ℕ
  pub pongs : ℕ
  pub query_node : ℕ
  pub query_hash : ℕ
  pub reply_find_node : ℕ
  pub reply_query_hash : ℕ
  pub recv_ping : ℕ
  pub recv_pong : ℕ
  pub recv_query_node : ℕ
  pub recv_query_hash : ℕ
  pub recv_reply_find_node : ℕ
  pub recv_reply_query_hash : ℕ

abbrev pub no_counts : Counters
no_counts = record {
  out_of_date_ping = 0;
  pings = 0;
  pongs = 0;
  query_node = 0;
  query_hash = 0;
  reply_find_node = 0;
  reply_query_hash = 0;
  recv_ping = 0;
  recv_pong = 0;
  recv_query_node = 0;
  recv_query_hash = 0;
  recv_reply_find_node = 0;
  recv_reply_query_hash = 0;
}

unfoldable pub reset_counters : Counters → Counters
reset_counters c = no_counts

-- With the two counters that are static or global, the state of rand(), and the calls of onRecvCallback so far.
pub record Node : Type 0 where
  pub own_id : BdNodeId
  pub my_ips : List SockaddrIn
  pub node_space : BdSpace
  pub store : Store
  pub white_nodes : Store
  pub black_nodes : List SockaddrIn
  pub dht_version : List ℕ
  pub hash_space : Table
  pub local_queries : List BdQuery
  pub remote_queries : List RemoteQuery
  pub potential_peers : List BdId
  pub connect_requests : List (BdNodeId × BdNodeId)
  pub peer_addrs : List (BdNodeId × SockaddrIn)
  pub punching : List BdId
  pub outgoing_msgs : List NetMsg
  pub incoming_msgs : List NetMsg
  pub random_token_array : List ℕ
  pub counters : Counters
  pub trans_id_counter : ℕ
  pub broadcast_count : ℕ
  pub rand_state : ℕ
  pub callbacks : List (BdId × MsgType)

-- The constructors of bdNode and of its two stores, which read their files, with the seed of rand(), where no other node
-- has counted before.
unfoldable pub new_node :
    DhtFunctions → BdNodeId → List ℕ → Option (List (ℕ × ℕ)) → Option (List (ℕ × ℕ)) → ℕ → Node
new_node fns own_id dht_version file white_file seed = record {
  own_id = own_id;
  my_ips = [];
  node_space = new_space fns own_id;
  store = (reload_from_store file []).0;
  white_nodes = (reload_from_store white_file []).0;
  black_nodes = [];
  dht_version = dht_version;
  hash_space = [];
  local_queries = [];
  remote_queries = [];
  potential_peers = [];
  connect_requests = [];
  peer_addrs = [];
  punching = [];
  outgoing_msgs = [];
  incoming_msgs = [];
  random_token_array = [];
  counters = no_counts;
  trans_id_counter = 0;
  broadcast_count = 0;
  rand_state = seed;
  callbacks = [];
}

unfoldable pub shutdown_node : Node → Node
shutdown_node n = record n {
  local_queries = [];
  remote_queries = [];
  node_space = Space.clear n.node_space;
  hash_space = clear_hash_space n.hash_space;
  potential_peers = [];
  store = Store.clear n.store;
  outgoing_msgs = [];
}

unfoldable pub iteration_off : Node → Node
iteration_off n = record n { incoming_msgs = [] }

-- The datagram that is handed out, cut to the room there is, and the node without it.
abbrev pub first_out : Node → List NetMsg → ℕ → Node × Option NetMsg
first_out n [] room = (n, none)
first_out n (m ∷ ms) room = (
  record n { outgoing_msgs = ms },
  some (record m { bytes = if ltb (length m.bytes) room then m.bytes else take room m.bytes }),
)

unfoldable pub outgoing_msg : Node → ℕ → Node × Option NetMsg
outgoing_msg n room = first_out n n.outgoing_msgs room

unfoldable pub incoming_msg : Node → SockaddrIn → List ℕ → Node
incoming_msg n addr msg = record n {
  incoming_msgs = n.incoming_msgs ++ record { bytes = msg; addr = addr } ∷ [];
}

-- The decimal digits of a number; twenty hold every number of 64 bits.
unfoldable pub decimal : ℕ → ℕ → List ℕ
decimal zero n = []
decimal (suc fuel) n =
    let before = decimal fuel (n / 10) in
    if ltb n 10 then (b'0' + n) ∷ [] else before ++ (b'0' + n % 10) ∷ []

-- At least two digits.
abbrev pub two_wide : List ℕ → List ℕ
two_wide [] = b'0' ∷ b'0' ∷ []
two_wide (d ∷ []) = b'0' ∷ d ∷ []
two_wide (d ∷ e ∷ ds) = d ∷ e ∷ ds

unfoldable pub trans_id : ℕ → BdToken
trans_id counter = take token_max_len (two_wide (decimal 20 counter))

unfoldable pub gen_new_trans_id : Node → Node × BdToken
gen_new_trans_id n =
    (record n { trans_id_counter = (n.trans_id_counter + 1) % 2 ^ 64 }, trans_id n.trans_id_counter)

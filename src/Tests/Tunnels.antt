-- ===== src/Tests/Tunnels.antt =====
-- Tests for the tunnel nodes and their manager.
use bitdht.Base.{
  ℕ, ◌+◌, ◌*◌, ◌≡◌, refl, true, none, some, Option, List, [], ◌∷◌, ◌++◌, arith, ◌==◌, if◌then◌else◌,
}
use bitdht.Peer.{BdId, SockaddrIn}
use bitdht.StdDht.{std_dht}
use bitdht.Msgs.{BeNode, be_dict, entry, chars, got}
use bitdht.Msgs.Create.{ask_myip_msg, reply_myip_msg}
use bitdht.Node.{World, NetMsg, trans_id}
use bitdht.Node.Receiving.{parse_node, Packet, in_newconn}
use bitdht.Node.Receiving.RoundTrip.{parse_node-built}
use bitdht.Msgs.Create.Recognised.{a_myip_request}
use bitdht.Tunnel.{TunnelNode, shutdown_node}
use bitdht.Tunnel.Receiving
use bitdht.Tunnel.Receiving.{recv_pkt}
use bitdht.Tunnel.Manager.{TunnelManager, tunnel_off, stop_tunnel, disconnect_node}
use bitdht.Tunnel.Requests.{requests}
use bitdht.Tunnel.Runs.{
  starts, stops, connects, disconnects, iterates, run_call, run_calls, run_calls_keep_requests,
}
use bitdht.Tunnel.StartUp.{is_requested, run_calls-connect_node}
use bitdht.Tunnel.Parsed.{recv_pkt-parse_node, answers}
use bitdht.Tunnel.Exchange.{iteration_exchange, trans_id-IsToken}
use bitdht.Tests.Data.{node, node-IsNodeId, id_at}
use bitdht.Tests.NodeData.{left}

abbrev peer : BdId
peer = id_at 5 7 80

-- The node that asks, with one request, and the one that answers.
abbrev asking_node : TunnelNode
asking_node = record {
  own_id = node 3;
  tunnel_requests = peer ∷ [];
  outgoing_msgs = [];
  incoming_msgs = [];
  trans_id_counter = 7;
}

abbrev other_node : TunnelNode
other_node = record {
  own_id = node 5;
  tunnel_requests = [];
  outgoing_msgs = [];
  incoming_msgs = [];
  trans_id_counter = 0;
}

abbrev from : SockaddrIn
from = (id_at 3 9 81).addr

abbrev ask_msg : BeNode
ask_msg = ask_myip_msg (trans_id 7) (node 3)

abbrev reply_msg : BeNode
reply_msg = reply_myip_msg (trans_id 7) (node 5) (record { addr = from; id = node 3 }) true

-- The two messages stand for each other's encodings: the first key tells them apart.
abbrev encoded : BeNode → List ℕ
encoded (be_dict (entry key value d)) = chars key
encoded n = []

abbrev decoded : List ℕ → Option BeNode
decoded [] = none
decoded (c ∷ cs) = if c == 97 then some ask_msg else some reply_msg

abbrev between : ℕ → World
between now = record {
  fns = std_dht;
  be_encode = encoded;
  be_decoden = decoded;
  rand = λ state. (state * 7 + 1, state + 1);
  now = now;
  random_ids = λ round. node 77;
  leftovers = λ round. left;
}

asked_back : decoded (encoded ask_msg) ≡ some ask_msg
unfolding ask_myip_msg
asked_back = refl

replied_back : decoded (encoded reply_msg) ≡ some reply_msg
unfolding reply_myip_msg ask_myip_msg
replied_back = refl

iteration_exchange_example :
    (a' : TunnelNode) × (request answer : NetMsg) × (Receiving.iteration (between 100) asking_node
      ≡ some a')
    × (a'.outgoing_msgs ≡ [] ++ request ∷ [])
    × (request.addr ≡ peer.addr)
    × (recv_pkt (between 100) left other_node (record { bytes = request.bytes; addr = from })
        ≡ some (record other_node { outgoing_msgs = [] ++ answer ∷ [] }))
    × (answer.addr ≡ from)
    × (recv_pkt (between 100) left a' (record { bytes = answer.bytes; addr = peer.addr }) ≡ some a')
iteration_exchange_example =
    iteration_exchange (between 100) left left asking_node other_node peer from refl refl refl refl
      (record {
        node_id = node-IsNodeId 3 (omega arith);
        addr = record { family = refl; addr = omega arith; port = omega arith };
      })
      asked_back replied_back

read_request :
    parse_node left ask_msg ≡ got (record { trans_id = trans_id 7; id = node 3; body = in_newconn })
read_request =
    parse_node-built left (trans_id 7) (node 3) a_myip_request (trans_id-IsToken 7) refl tt

abbrev request_msg : NetMsg
request_msg = record { bytes = 97 ∷ []; addr = from }

abbrev request_packet : Packet
request_packet = record { trans_id = trans_id 7; id = node 3; body = in_newconn }

recv_pkt-parse_node_example :
    recv_pkt (between 100) left other_node request_msg
    ≡ some (record other_node {
      outgoing_msgs = [] ++ answers (between 100) other_node from request_packet;
    })
recv_pkt-parse_node_example =
    recv_pkt-parse_node (between 100) left other_node request_msg ask_msg request_packet refl
      read_request

abbrev pub fresh_manager : TunnelManager
fresh_manager = record {
  node = other_node;
  tunnel_peers = [];
  callbacks = [];
  mode = tunnel_off;
  mode_ts = 0;
}

run_calls-connect_node_example :
    (m' : TunnelManager) × (earlier : List NetMsg) × (counter : ℕ) × (run_calls
        (starts 100 ∷ connects peer ∷ iterates (between 111) ∷ iterates (between 122) ∷ [])
        fresh_manager
      ≡ some m')
    × (is_requested peer m'.node ≡ true)
    × (m'.node.outgoing_msgs
        ≡ earlier ++ requests (between 122) m'.node.own_id counter m'.node.tunnel_requests)
run_calls-connect_node_example =
    run_calls-connect_node (between 111) (between 122) fresh_manager peer refl refl 100
      (omega arith) (omega arith)

abbrev asking_manager : TunnelManager
asking_manager = record fresh_manager { node = asking_node }

-- A peer is left, the tunnels are stopped, and its request stays.
left_alone :
    run_calls (disconnects peer ∷ stops 200 ∷ []) asking_manager
    ≡ some (record asking_manager { mode_ts = 200 })
unfolding run_calls run_call disconnect_node stop_tunnel shutdown_node
left_alone = refl

run_calls_keep_requests_example : (more : List BdId) × (peer ∷ [] ≡ peer ∷ [] ++ more)
run_calls_keep_requests_example =
    run_calls_keep_requests (disconnects peer ∷ stops 200 ∷ []) asking_manager
      (record asking_manager { mode_ts = 200 }) left_alone

-- ===== src/Tests/Exchanges.antt =====
-- Tests for the exchanges of messages, the requests to connect, and the manager on its node.
use mathlib.Core.Option
use bitdht.Base.{ℕ, ◌≡◌, ◌≢◌, refl, true, false, none, some, List, [], ◌∷◌, ◌++◌, arith, any, take}
use bitdht.Peer.{BdId, node_id_eq, node_id_lt}
use bitdht.StdDht.{std_dht}
use bitdht.StdDht.Buckets.{std_dht-DhtLaws}
use bitdht.Space
use bitdht.Multimap
use bitdht.Query.{has_flag, success}
use bitdht.Msgs.{BdToken, token_max_len, msg_type, get_y, get_dict_node}
use bitdht.Msgs.Create.{
  create_ping_msg, find_node_msg, response_ping_msg, resp_node_msg, ask_myip_msg, dict,
}
use bitdht.Store.{same_addr}
use bitdht.Store.Files.{FileIs}
use bitdht.Node
use bitdht.Manager.{
  restart_node, shutdown_node, iterate_off, add_conn_req as request, QueryStatus, add_query,
  clear_query, iterate, update_store, new_query_peer,
}
use bitdht.Manager.Iteration.{update_found}
use bitdht.Manager.Clients.{is_bitdht_packet}
use bitdht.Manager.Clients.Packets.{recv_pkt-is_bitdht_packet}
use bitdht.Node.{World, Node, NetMsg}
use bitdht.Node.BlackList.{is_member_of_black_list}
use bitdht.Node.Handlers.{msgin_broadcast_conn, msgin_ask_conn, same_id, noted}
use bitdht.Node.Peers
use bitdht.Node.Peers.{add_conn_req, get_id_from_query}
use bitdht.Node.Receiving.{recv_pkt}
use bitdht.Node.Remote.{process_remote_query, near_list}
use bitdht.Node.Exchange.{Offered, recv_pkt-ping, recv_pkt-find_node, recv_pkt-myip_overrun}
use bitdht.Node.Requests.{
  introductions, msgin_broadcast_conn-one_sided, msgin_broadcast_conn-answered,
}
use bitdht.System.{System, Step, makes, arrives, run_steps, run_calls, set_node}
use bitdht.System.Silence.{run_calls-done_query}
use bitdht.System.Kept.{SystemIs, run_steps-new_node}
use bitdht.Tests.Data.{node, id_at, table, table-IsTable}
use bitdht.Tests.NodeData.{left, world, small_node, datagram}

abbrev token : BdToken
token = 48 ∷ 55 ∷ []

-- No datagram comes from an address on the empty black list.
fresh : is_member_of_black_list small_node datagram.addr ≡ false
unfolding is_member_of_black_list
fresh = refl

abbrev pinged : World
pinged = world (some (create_ping_msg token (node 5))) 300

recv_pkt-ping_example :
    (n' : Node) × (recv_pkt pinged left small_node datagram ≡ some n')
    × (n'.outgoing_msgs
        ≡ []
          ++ record {
            bytes =
                pinged.be_encode
                  (response_ping_msg token (node 0) (take token_max_len small_node.dht_version));
            addr = datagram.addr;
          }
            ∷ [])
    × (n'.node_space ≡ (Space.add_peer std_dht small_node.node_space (id_at 5 7 80) 0 300).0)
    × Offered std_dht table (id_at 5 7 80) 300 n'.node_space
recv_pkt-ping_example =
    recv_pkt-ping pinged left small_node datagram token (node 5) fresh (omega arith) refl refl
      std_dht-DhtLaws table-IsTable

abbrev asked : World
asked = world (some (find_node_msg token (node 5) (node 6))) 300

recv_pkt-find_node_example :
    (n' : Node) × (recv_pkt asked left small_node datagram ≡ some n')
    × ((process_remote_query (world none 305) n').outgoing_msgs
        ≡ []
          ++ record {
            bytes =
                (world none 305).be_encode
                  (resp_node_msg token (node 0) (near_list (world none 305) n' (node 6)));
            addr = datagram.addr;
          }
            ∷ [])
    × ((process_remote_query (world none 305) n').remote_queries ≡ [])
recv_pkt-find_node_example =
    recv_pkt-find_node asked left small_node datagram token (node 5) fresh (omega arith) refl
      (world none 305) (node 6) refl refl refl (omega arith)

recv_pkt-myip_overrun_example :
    recv_pkt (world (some (ask_myip_msg token (node 5))) 300) left small_node datagram ≡ none
recv_pkt-myip_overrun_example =
    recv_pkt-myip_overrun (world (some (ask_myip_msg token (node 5))) 300) left small_node datagram
      token (node 5) fresh (omega arith) refl none tt (omega arith) refl

-- The node of the sender with the id 5.
abbrev sender_node : Node
sender_node = record small_node { own_id = node 5 }

abbrev other : BdId
other = id_at 9 8 81

strangers : node_id_eq (node 5) (node 9) ≡ false
unfolding node_id_eq
strangers = refl

known_address :
    Multimap.find node_id_lt
      (node 9)
      (noted (world none 300) small_node (id_at 5 7 80) (node 5) (node 9)).peer_addrs
    ≡ some other.addr
unfolding node_id_lt
known_address = refl

msgin_broadcast_conn-one_sided_example :
    (tid1 : List ℕ) × (tid2 : List ℕ) × ((msgin_broadcast_conn
        (world none 300)
        small_node
        (id_at 5 7 80)
        (node 5)
        (node 9)).outgoing_msgs
      ≡ [] ++ introductions (world none 300) (node 0) (id_at 5 7 80) other (node 9) tid1 tid2)
    × (msgin_ask_conn sender_node (node 9) other ≡ sender_node)
msgin_broadcast_conn-one_sided_example =
    msgin_broadcast_conn-one_sided (world none 300) small_node (id_at 5 7 80) (node 9) other.addr
      strangers sender_node refl known_address

msgin_broadcast_conn-answered_example :
    (tid1 : List ℕ) × (tid2 : List ℕ) × ((msgin_broadcast_conn
        (world none 300)
        small_node
        (id_at 5 7 80)
        (node 9)
        (node 5)).outgoing_msgs
      ≡ [] ++ introductions (world none 300) (node 0) (id_at 5 7 80) other (node 5) tid1 tid2)
    × (any (λ p. same_id p other) (msgin_ask_conn sender_node (node 5) other).punching ≡ true)
msgin_broadcast_conn-answered_example =
    msgin_broadcast_conn-answered (world none 300) small_node (id_at 5 7 80) (node 9) other.addr
      strangers sender_node refl known_address

untyped : is_bitdht_packet (world (some (dict [])) 300) datagram.bytes ≢ some true
unfolding is_bitdht_packet msg_type get_y get_dict_node
untyped e = cc

recv_pkt-is_bitdht_packet_example :
    recv_pkt (world (some (dict [])) 300) left small_node datagram
    ≡ Option.map (λ b. small_node) (is_bitdht_packet (world (some (dict [])) 300) datagram.bytes)
recv_pkt-is_bitdht_packet_example =
    recv_pkt-is_bitdht_packet (world (some (dict [])) 300) left small_node datagram fresh untyped

abbrev system : System
system = record {
  node = small_node;
  store_file = none;
  white_file = none;
  can_open_store = true;
  can_open_white = true;
  clients = 1 ∷ 2 ∷ [];
  told = [];
}

abbrev found : QueryStatus
found = record { status = success; qflags = 1; results = id_at 5 7 80 ∷ [] }

stops : has_flag found.qflags 2 ≡ false
stops = refl

run_calls-done_query_example :
    run_calls pinged (update_found (node 5) found [] (some (new_query_peer (node 5) 1))).1 system
    ≡ some (set_node system (Peers.clear_query small_node (node 5)))
run_calls-done_query_example =
    run_calls-done_query pinged system (node 5) found [] (new_query_peer (node 5) 1) refl stops

-- A start, a search while a ping arrives, and a stop, with the time going on.
abbrev steps : List Step
steps =
    makes pinged restart_node
    ∷ makes pinged (add_query (node 7) 1)
    ∷ arrives datagram.addr datagram.bytes
    ∷ makes pinged iterate
    ∷ makes asked iterate
    ∷ makes (world none 400) update_store
    ∷ makes (world none 400) (clear_query (node 7))
    ∷ makes (world none 400) (request (node 5))
    ∷ makes (world none 500) shutdown_node
    ∷ makes (world none 500) iterate_off
    ∷ []

abbrev stored : System
stored = record system { store_file = some ((7, 80) ∷ (8, 80) ∷ []) }

stored-FileIs : FileIs stored.store_file
unfolding same_addr
stored-FileIs = record { distinct = ((refl, tt), (tt, tt)); bounded = omega arith }

run_steps-new_node_example : SystemIs std_dht 30 (
    run_steps std_dht steps
      (set_node stored (Node.new_node std_dht (node 0) token stored.store_file none 1)))
run_steps-new_node_example =
    run_steps-new_node std_dht std_dht-DhtLaws 30 (omega arith) (omega arith) steps (node 0) token 1
      stored stored-FileIs

-- ===== src/Node/Handlers.antt =====
-- The msgin_ functions of bitdht/bdnode.cc: what a node does with each kind of message, once it is parsed.
-- msgin_reply_nearest, msgin_post_hash, msgin_reply_post and msgin_reply_conn do nothing.
use mathlib.Core.Option
use bitdht.Base.{
  ℕ, suc, ◌+◌, Bool, ◌&&◌, Option, none, some, List, [], ◌∷◌, ◌++◌, ltb, leb, ◌==◌, if◌then◌else◌,
  length, get_or, any, bit_or,
}
use bitdht.Peer.{BdNodeId, SockaddrIn, BdId, node_id_eq, node_id_lt}
use bitdht.Multimap
use bitdht.Query.{peer_status_recv_nodes}
use bitdht.Manager.{peer_status_dht_appl}
use bitdht.Msgs.{BdToken, MsgType, ping, pong, find_node, reply_node, newconn, reply_newconn}
use bitdht.Node.{World, Node, gen_new_trans_id}
use bitdht.Node.Sending.{msgout_pong, msgout_reply_ask_myip, msgout_ask_conn}
use bitdht.Node.Peers.{add_peer, check_potential_peer}
use bitdht.Node.Remote.{queue_query, bd_query_neighbours, bd_query_hash}

-- BITDHT_PEER_STATUS_RECV_PONG, BITDHT_PEER_STATUS_DHT_ENGINE and BITDHT_PEER_STATUS_DHT_VERSION.
abbrev pub peer_status_recv_pong : ℕ
peer_status_recv_pong = 1

abbrev pub peer_status_dht_engine : ℕ
peer_status_dht_engine = 0x100

abbrev pub peer_status_dht_version : ℕ
peer_status_dht_version = 0x400

-- onRecvCallback.
abbrev pub call_back : BdId → MsgType → Node → Node
call_back id type n = record n { callbacks = n.callbacks ++ (id, type) ∷ [] }

-- A byte of the version, which is unsigned, and a char of the node's own, which is signed.
abbrev pub same_byte : ℕ → BdToken → List ℕ → Bool
same_byte at version own = (get_or version at 0 == get_or own at 0) && ltb (get_or own at 0) 128

-- Both versions have the bytes at `at` and behind it, and they are the same.
abbrev pub same_pair : ℕ → BdToken → List ℕ → Bool
same_pair at version own =
    leb (at + 2) (length version)
    && (leb (at + 2) (length own) && (same_byte at version own && same_byte (at + 1) version own))

abbrev pub with_flag : Bool → ℕ → ℕ → ℕ
with_flag test flag flags = if test then bit_or flags flag else flags

-- The flags for a pong that carries a version, or none.
unfoldable pub pong_flags : List ℕ → Option BdToken → ℕ
pong_flags own none = peer_status_recv_pong
pong_flags own (some version) = with_flag (same_pair 4 version own) peer_status_dht_version (
    with_flag (same_pair 2 version own) peer_status_dht_appl
      (with_flag (same_pair 0 version own) peer_status_dht_engine peer_status_recv_pong))

abbrev pub same_address : SockaddrIn → SockaddrIn → Bool
same_address a b =
    (a.sin_family == b.sin_family) && ((a.s_addr == b.s_addr) && (a.sin_port == b.sin_port))

abbrev pub same_id : BdId → BdId → Bool
same_id a b = node_id_eq a.id b.id && same_address a.addr b.addr

unfoldable pub msgin_ask_conn : Node → BdNodeId → BdId → Node
msgin_ask_conn n node_id peer_id =
    if node_id_eq n.own_id node_id
    then if any (λ p. same_id p peer_id) n.punching
      then n
      else record n { punching = n.punching ++ peer_id ∷ [] }
    else n

unfoldable pub msgin_reply_hash : Node → Node
msgin_reply_hash n = record n {
  counters = record n.counters { recv_reply_query_hash = suc n.counters.recv_reply_query_hash };
}

unfoldable pub msgin_reply_ask_myip : Node → BdId → Node
msgin_reply_ask_myip n tunnel_id =
    let n' = call_back tunnel_id reply_newconn n in
    if node_id_eq n.own_id tunnel_id.id
    then if any (λ a. same_address a tunnel_id.addr) n'.my_ips
      then n'
      else record n' { my_ips = n'.my_ips ++ tunnel_id.addr ∷ [] }
    else n'

module _ (w : World) where
  unfoldable pub msgin_ping : Node → BdId → BdToken → Option Node
  msgin_ping n id tid =
      let counted = record n {
        counters = record n.counters {
          recv_ping = suc n.counters.recv_ping;
          pongs = suc n.counters.pongs;
        };
      } in
      Option.map (λ n'. call_back id ping (msgout_pong w n' id tid)) (add_peer w counted id 0)

  unfoldable pub msgin_pong : Node → BdId → Option BdToken → Option Node
  msgin_pong n id version =
      let counted = record n {
        counters = record n.counters { recv_pong = suc n.counters.recv_pong };
      } in
      Option.map (call_back id pong) (add_peer w counted id (pong_flags n.dht_version version))

  unfoldable pub msgin_find_node : Node → BdId → BdToken → BdNodeId → Option Node
  msgin_find_node n id tid query =
      let counted = record n {
        counters = record n.counters { recv_query_node = suc n.counters.recv_query_node };
      } in
      Option.map (call_back id find_node)
        (add_peer w (queue_query w counted id query tid bd_query_neighbours) id 0)

  unfoldable pub check_all : Node → List BdId → Node
  check_all n [] = n
  check_all n (i ∷ ids) = check_all (check_potential_peer w n i) ids

  unfoldable pub msgin_reply_find_node : Node → BdId → List BdId → Option Node
  msgin_reply_find_node n id nodes =
      let counted = record n {
        counters = record n.counters { recv_reply_find_node = suc n.counters.recv_reply_find_node };
      } in
      Option.map (call_back id reply_node)
        (add_peer w (check_all counted nodes) id peer_status_recv_nodes)

  unfoldable pub msgin_get_hash : Node → BdId → BdToken → BdNodeId → Node
  msgin_get_hash n id tid info_hash =
      let counted = record n {
        counters = record n.counters { recv_query_hash = suc n.counters.recv_query_hash };
      } in
      queue_query w counted id info_hash tid bd_query_hash

  unfoldable pub msgin_ask_myip : Node → BdId → BdToken → Node
  msgin_ask_myip n tunnel_id tid =
      call_back tunnel_id newconn (msgout_reply_ask_myip w n tunnel_id tid)

  -- Two requests to connect: the first to the peer, the second to the sender, with the id that each carries.
  abbrev pub introduce : Node → BdId → BdId → BdNodeId → Node
  introduce n id peer for_sender =
      let (n1, tid1) = gen_new_trans_id n in
      let (n2, tid2) = gen_new_trans_id (msgout_ask_conn w n1 peer tid1 peer.id id) in
      msgout_ask_conn w n2 id tid2 for_sender peer

  -- The request is noted, with the address of the sender; the other side's address may be known.
  abbrev pub introduce_found : Node → BdId → BdNodeId → BdNodeId → Option SockaddrIn → Node
  introduce_found n id other for_sender none = n
  introduce_found n id other for_sender (some addr) =
      introduce n id (record { addr = addr; id = other }) for_sender

  abbrev pub noted : Node → BdId → BdNodeId → BdNodeId → Node
  noted n id from to = record n {
    connect_requests = Multimap.assign node_id_lt from to n.connect_requests;
    peer_addrs = Multimap.assign node_id_lt id.id id.addr n.peer_addrs;
  }

  -- The sender `from` asks for `other`; the request that goes back to it carries `for_sender`.
  abbrev pub introduce_peer : Node → BdId → BdNodeId → BdNodeId → BdNodeId → Node
  introduce_peer n id from other for_sender =
      let n' = noted n id from other in
      introduce_found n' id other for_sender (Multimap.find node_id_lt other n'.peer_addrs)

  -- In both branches the request to the sender carries `peer_id`.
  unfoldable pub msgin_broadcast_conn : Node → BdId → BdNodeId → BdNodeId → Node
  msgin_broadcast_conn n id node_id peer_id =
      if node_id_eq id.id node_id
      then introduce_peer n id node_id peer_id peer_id
      else if node_id_eq id.id peer_id
      then introduce_peer n id peer_id node_id peer_id
      else n

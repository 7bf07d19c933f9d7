-- ===== src/Node/Invariant/Kept.antt =====
-- recvPkt of bitdht/bdnode.cc keeps the invariant of the node, whatever the datagram holds.
use mathlib.Core.Option
use bitdht.Base.{ℕ, ◌≤◌, Bool, Option, none, some, List, [], ◌∷◌, any, inl, inr, Bool-cases}
use bitdht.Peer.{BdNodeId, SockaddrIn, BdId, node_id_eq, node_id_lt}
use bitdht.DhtFunctions.{DhtLaws}
use bitdht.Multimap
use bitdht.Msgs.{BdToken, MsgType, Field, undefined, refused, got}
use bitdht.Msgs.Crypt.{decrypt}
use bitdht.Node.{World, Node, NetMsg, Counters, Leftovers, gen_new_trans_id}
use bitdht.Node.Sending.{msgout_pong, msgout_reply_ask_myip, msgout_ask_conn, is_used_token}
use bitdht.Node.BlackList.{same_sock, is_member_of_black_list, add_black_list}
use bitdht.Node.BlackList.Dropped.{add_black_list-IsBlackList}
use bitdht.Node.Peers.{add_peer, check_potential_peer}
use bitdht.Node.Remote.{queue_query, bd_query_neighbours, bd_query_hash}
use bitdht.Node.Handlers.{
  call_back, same_address, same_id, msgin_ping, msgin_pong, msgin_find_node, check_all,
  msgin_reply_find_node, msgin_get_hash, msgin_reply_hash, msgin_ask_myip, msgin_reply_ask_myip,
  msgin_broadcast_conn, msgin_ask_conn, introduce, introduce_found, noted, introduce_peer,
}
use bitdht.Node.Receiving.{
  Body, in_ping, in_pong, in_find_node, in_get_hash, in_reply_node, in_reply_hash, in_reply_near,
  in_post_hash, in_newconn, in_reply_newconn, in_broadcast_conn, in_ask_conn, in_reply_conn,
  in_reply_post, Packet, dispatch, if_valid, on_packet, recv_pkt,
}
use bitdht.Node.Invariant.{
  IsNode, NodeIs, send_pkt-IsNode, get_random_token-IsNode, add_peer-returns,
  check_potential_peer-IsNode,
}

-- The node with other values in fields that the invariant does not read.
module _ (w : World) (bound : ℕ) (n : Node) (v : IsNode w.fns bound n) where
  pub counters-IsNode : (c : Counters) → IsNode w.fns bound (record n { counters = c })
  counters-IsNode c = record {
    table = v.table;
    queries = v.queries;
    store = v.store;
    tokens = v.tokens;
    black = v.black;
  }

  call_back-IsNode : (id : BdId) (t : MsgType) → IsNode w.fns bound (call_back id t n)
  call_back-IsNode id t = record {
    table = v.table;
    queries = v.queries;
    store = v.store;
    tokens = v.tokens;
    black = v.black;
  }

  queue_query-IsNode :
      (id : BdId) (query : BdNodeId) (tid : BdToken) (type : ℕ)
      → IsNode w.fns bound (queue_query w n id query tid type)
  unfolding queue_query
  queue_query-IsNode id query tid type = record {
    table = v.table;
    queries = v.queries;
    store = v.store;
    tokens = v.tokens;
    black = v.black;
  }

  pub gen_new_trans_id-IsNode : IsNode w.fns bound (gen_new_trans_id n).0
  unfolding gen_new_trans_id
  gen_new_trans_id-IsNode = record {
    table = v.table;
    queries = v.queries;
    store = v.store;
    tokens = v.tokens;
    black = v.black;
  }

  noted-IsNode : (id : BdId) (from to : BdNodeId) → IsNode w.fns bound (noted w n id from to)
  noted-IsNode id from to = record {
    table = v.table;
    queries = v.queries;
    store = v.store;
    tokens = v.tokens;
    black = v.black;
  }

  add_black_list-IsNode : (a : SockaddrIn) → IsNode w.fns bound (add_black_list n a)
  unfolding add_black_list
  add_black_list-IsNode a = elim (Bool-cases (any (λ x. same_sock x a) n.black_nodes)) [
    | inl e ↦ rw e v
    | inr e ↦ rw e (record {
      table = v.table;
      queries = v.queries;
      store = v.store;
      tokens = v.tokens;
      black = rw e at (add_black_list-IsBlackList n a v.black);
    })
  ]

  msgin_ask_conn-IsNode :
      (node_id : BdNodeId) (peer_id : BdId) → IsNode w.fns bound (msgin_ask_conn n node_id peer_id)
  unfolding msgin_ask_conn
  msgin_ask_conn-IsNode node_id peer_id = elim (Bool-cases (node_id_eq n.own_id node_id)) [
    | inl e ↦ elim (Bool-cases (any (λ p. same_id p peer_id) n.punching)) [
      | inl f ↦ rw (e, f) v
      | inr f ↦
          rw (e, f)
            (record {
              table = v.table;
              queries = v.queries;
              store = v.store;
              tokens = v.tokens;
              black = v.black;
            })
    ]
    | inr e ↦ rw e v
  ]

  my_ips-IsNode : (ips : List SockaddrIn) → IsNode w.fns bound (record n { my_ips = ips })
  my_ips-IsNode ips = record {
    table = v.table;
    queries = v.queries;
    store = v.store;
    tokens = v.tokens;
    black = v.black;
  }

msgin_reply_ask_myip-IsNode :
    (w : World) (bound : ℕ) (n : Node) (tunnel_id : BdId)
    → IsNode w.fns bound n
    → IsNode w.fns bound (msgin_reply_ask_myip n tunnel_id)
unfolding msgin_reply_ask_myip
msgin_reply_ask_myip-IsNode w bound n tunnel_id v =
    let v' = call_back-IsNode w bound n v tunnel_id MsgType.reply_newconn in
    elim (Bool-cases (node_id_eq n.own_id tunnel_id.id)) [
      | inl e ↦ elim (Bool-cases (any (λ a. same_address a tunnel_id.addr) n.my_ips)) [
        | inl f ↦ rw (e, f) v'
        | inr f ↦
            rw (e, f) (my_ips-IsNode w bound (call_back tunnel_id MsgType.reply_newconn n) v' _)
      ]
      | inr e ↦ rw e v'
    ]

module _ (w : World) (laws : DhtLaws w.fns) (bound : ℕ) (b : w.fns.nodes_per_bucket ≤ bound) where
  -- What is done with the node that addPeer returns.
  then-NodeIs :
      (n : Node) (id : BdId) (flags : ℕ) (f : Node → Node)
      → ((m : Node) → IsNode w.fns bound m → IsNode w.fns bound (f m))
      → IsNode w.fns bound n
      → NodeIs w.fns bound (Option.map f (add_peer w n id flags))
  then-NodeIs n id flags f keep v =
      let (m, e, h) = add_peer-returns w laws bound b n id flags v in rw e (keep m h)

  check_all-IsNode :
      (n : Node) (ids : List BdId) → IsNode w.fns bound n → IsNode w.fns bound (check_all w n ids)
  unfolding check_all
  check_all-IsNode n [] v = v
  check_all-IsNode n (i ∷ ids) v =
      check_all-IsNode (check_potential_peer w n i) ids
        (check_potential_peer-IsNode w laws bound b n i v)

  introduce-IsNode :
      (n : Node) (id peer : BdId) (for_sender : BdNodeId)
      → IsNode w.fns bound n
      → IsNode w.fns bound (introduce w n id peer for_sender)
  unfolding msgout_ask_conn
  introduce-IsNode n id peer for_sender v = send_pkt-IsNode w.fns bound _ _ _ (
      gen_new_trans_id-IsNode w bound _
        (send_pkt-IsNode w.fns bound _ _ _ (gen_new_trans_id-IsNode w bound n v)))

  introduce_found-IsNode :
      (n : Node) (id : BdId) (other for_sender : BdNodeId) (o : Option SockaddrIn)
      → IsNode w.fns bound n
      → IsNode w.fns bound (introduce_found w n id other for_sender o)
  introduce_found-IsNode n id other for_sender none v = v
  introduce_found-IsNode n id other for_sender (some addr) v =
      introduce-IsNode n id (record { addr = addr; id = other }) for_sender v

  introduce_peer-IsNode :
      (n : Node) (id : BdId) (from other for_sender : BdNodeId)
      → IsNode w.fns bound n
      → IsNode w.fns bound (introduce_peer w n id from other for_sender)
  introduce_peer-IsNode n id from other for_sender v =
      introduce_found-IsNode (noted w n id from other) id other for_sender
        (Multimap.find node_id_lt other (noted w n id from other).peer_addrs)
        (noted-IsNode w bound n v id from other)

  msgin_broadcast_conn-IsNode :
      (n : Node) (id : BdId) (node_id peer_id : BdNodeId)
      → IsNode w.fns bound n
      → IsNode w.fns bound (msgin_broadcast_conn w n id node_id peer_id)
  unfolding msgin_broadcast_conn
  msgin_broadcast_conn-IsNode n id node_id peer_id v =
      elim (Bool-cases (node_id_eq id.id node_id)) [
        | inl e ↦ rw e (introduce_peer-IsNode n id node_id peer_id peer_id v)
        | inr e ↦ elim (Bool-cases (node_id_eq id.id peer_id)) [
          | inl f ↦ rw (e, f) (introduce_peer-IsNode n id peer_id node_id peer_id v)
          | inr f ↦ rw (e, f) v
        ]
      ]

  if_valid-NodeIs :
      (n : Node) (src : BdId) (handler : Node → Node) (o : Option (Bool × ℕ))
      → IsNode w.fns bound n
      → IsNode w.fns bound (handler n)
      → NodeIs w.fns bound (if_valid w n src handler o)
  if_valid-NodeIs n src handler none v h = tt
  if_valid-NodeIs n src handler (some (valid, token)) v h =
      elim (Bool-cases (is_used_token n token)) [
        | inl e ↦ rw e (add_black_list-IsNode w bound n v src.addr)
        | inr e ↦ elim (Bool-cases valid) [ inl f ↦ rw (e, f) h | inr f ↦ rw (e, f) v ]
      ]

  dispatch-NodeIs :
      (n : Node) (src : BdId) (tid : BdToken) (msg : List ℕ) (body : Body)
      → IsNode w.fns bound n
      → NodeIs w.fns bound (dispatch w n src tid msg body)
  unfolding dispatch msgin_ping msgin_pong msgin_find_node msgin_reply_find_node msgin_get_hash
      msgin_reply_hash msgin_ask_myip msgout_pong msgout_reply_ask_myip
  dispatch-NodeIs n src tid msg in_ping v =
      then-NodeIs _ src 0 _
        (λ m h. call_back-IsNode w bound _ (send_pkt-IsNode w.fns bound m _ _ h) src MsgType.ping)
        (counters-IsNode w bound n v _)
  dispatch-NodeIs n src tid msg (in_pong version) v =
      then-NodeIs _ src _ _ (λ m h. call_back-IsNode w bound m h src MsgType.pong)
        (counters-IsNode w bound n v _)
  dispatch-NodeIs n src tid msg (in_find_node target) v =
      then-NodeIs _ src 0 _ (λ m h. call_back-IsNode w bound m h src MsgType.find_node)
        (queue_query-IsNode w bound _ (counters-IsNode w bound n v _) src target tid
          bd_query_neighbours)
  dispatch-NodeIs n src tid msg (in_reply_node nodes) v =
      then-NodeIs _ src _ _ (λ m h. call_back-IsNode w bound m h src MsgType.reply_node)
        (check_all-IsNode _ nodes (counters-IsNode w bound n v _))
  dispatch-NodeIs n src tid msg (in_get_hash info_hash) v =
      queue_query-IsNode w bound _ (counters-IsNode w bound n v _) src info_hash tid bd_query_hash
  dispatch-NodeIs n src tid msg (in_reply_hash values token) v = counters-IsNode w bound n v _
  dispatch-NodeIs n src tid msg (in_reply_near ids token) v = v
  dispatch-NodeIs n src tid msg (in_post_hash info_hash token port) v = v
  dispatch-NodeIs n src tid msg in_reply_post v = v
  dispatch-NodeIs n src tid msg in_newconn v =
      if_valid-NodeIs n src (λ n'. msgin_ask_myip w n' src tid) (decrypt msg) v
        (call_back-IsNode w bound _
          (send_pkt-IsNode w.fns bound _ _ _ (get_random_token-IsNode w bound n v)) src
          MsgType.newconn)
  dispatch-NodeIs n src tid msg (in_reply_newconn peer_id) v =
      if_valid-NodeIs n src (λ n'. msgin_reply_ask_myip n' peer_id) (decrypt msg) v
        (msgin_reply_ask_myip-IsNode w bound n peer_id v)
  dispatch-NodeIs n src tid msg (in_broadcast_conn this peer) v =
      msgin_broadcast_conn-IsNode n src this peer v
  dispatch-NodeIs n src tid msg (in_ask_conn this peer) v =
      msgin_ask_conn-IsNode w bound n v this peer
  dispatch-NodeIs n src tid msg in_reply_conn v = v

  on_packet-NodeIs :
      (n : Node) (addr : SockaddrIn) (msg : List ℕ) (p : Field Packet)
      → IsNode w.fns bound n
      → NodeIs w.fns bound (on_packet w n addr msg p)
  on_packet-NodeIs n addr msg undefined v = tt
  on_packet-NodeIs n addr msg refused v = v
  on_packet-NodeIs n addr msg (got p) v = dispatch-NodeIs n _ p.trans_id msg p.body v

  -- Whatever a datagram holds, receiving it is undefined behaviour or keeps the invariant of the node: the routing table
  -- keeps its buckets within their size and free of duplicates, the queries keep their lists in order and within their
  -- bounds, the store keeps at most a thousand distinct addresses, and the tokens and the black list keep their bounds;
  -- where the key space keeps its laws and the bound of a query covers a bucket.
  pub recv_pkt-NodeIs :
      (left : Leftovers) (n : Node) (m : NetMsg)
      → IsNode w.fns bound n
      → NodeIs w.fns bound (recv_pkt w left n m)
  unfolding recv_pkt
  recv_pkt-NodeIs left n m v = elim (Bool-cases (is_member_of_black_list n m.addr)) [
    | inl e ↦ rw e v
    | inr e ↦ rw e (on_packet-NodeIs n m.addr m.bytes _ v)
  ]

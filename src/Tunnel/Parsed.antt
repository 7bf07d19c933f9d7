-- ===== src/Tunnel/Parsed.antt =====
-- The messages that are read by bdTunnelNode::recvPkt of bitdht/bdtunnelnode.cc beside those of bdNode::recvPkt in
-- bitdht/bdnode.cc, of which it is a copy.
use mathlib.Core.List.{append-nil}
use bitdht.Base.{◌≡◌, refl, sym, ap, subst, ◌∙◌, true, some, List, [], ◌∷◌, ◌++◌}
use bitdht.Peer.{BdNodeId, SockaddrIn, BdId}
use bitdht.Msgs.{
  BeNode, BdToken, MsgType, unknown, ping, pong, find_node, reply_node, get_hash, reply_hash,
  reply_near, post_hash, reply_post, newconn, reply_newconn, broadcast_conn, ask_conn, reply_conn,
  Field, undefined, refused, got, get_dict_node,
}
use bitdht.Msgs.Create.{reply_myip_msg}
use bitdht.Node.{World, NetMsg, Leftovers}
use bitdht.Node.Receiving.{
  Body, in_ping, in_newconn, in_pong, in_find_node, in_get_hash, in_reply_node, in_reply_hash,
  in_reply_near, in_post_hash, in_broadcast_conn, in_ask_conn, version_of, parse_target,
  parse_nodes, parse_values, parse_token, parse_port, parse_broadcast, parse_ask_conn,
  in_reply_newconn, parse_body, parse_node, parse_newconn, Packet, PacketHead, parse_head, ◌>>=◌,
}
use bitdht.Tunnel.{TunnelNode, msgin_newconn, msgout_reply_newconn, msgin_reply_newconn, send_pkt}
use bitdht.Tunnel.Receiving.{
  Received, asks, replies, unhandled, TunnelPacket, parse_kind, parse_packet, recv_pkt, handle,
}

abbrev pub kind_of : Body → Received
kind_of in_newconn = asks
kind_of (in_reply_newconn id) = replies id
kind_of _ = unhandled

abbrev as_tunnel : Packet → TunnelPacket
as_tunnel p = record { trans_id = p.trans_id; id = p.id; body = kind_of p.body }

-- No message that is a request for a tunnel or an answer to one.
abbrev IsOther : Field Body → Type 0
IsOther undefined = Unit {0}
IsOther refused = Unit {0}
IsOther (got b) = kind_of b ≡ unhandled

then-IsOther :
    {A : Type 0} (f : Field A) (g : A → Field Body) → ((a : A) → IsOther (g a)) → IsOther (f >>= g)
then-IsOther undefined g h = tt
then-IsOther refused g h = tt
then-IsOther (got a) g h = h a

other_kind :
    (f : Field Body) (b : Body)
    → IsOther f
    → f ≡ got b
    → (f >>= (λ c. got unhandled)) ≡ got (kind_of b)
other_kind f b i h = ap (λ e. e >>= (λ c. got unhandled)) h ∙ ap got (sym (subst IsOther h i))

abbrev body_or : Body → Field Body → Body
body_or b undefined = b
body_or b refused = b
body_or b (got c) = c

replies_kind :
    (f : Field BdId) (b : Body)
    → (f >>= (λ id. got (in_reply_newconn id))) ≡ got b
    → (f >>= (λ id. got (replies id))) ≡ got (kind_of b)
replies_kind undefined b h = cc
replies_kind refused b h = cc
replies_kind (got id) b h = ap (λ e. got (kind_of (body_or in_ping e))) h

parse_kind-parse_body :
    (left : Leftovers) (n d : BeNode) (t : MsgType) (b : Body)
    → parse_body left n d t ≡ got b
    → parse_kind left n d t ≡ got (kind_of b)
unfolding parse_body parse_kind
parse_kind-parse_body left n d unknown b h = cc
parse_kind-parse_body left n d ping b h = other_kind (parse_body left n d ping) b refl h
parse_kind-parse_body left n d pong b h =
    other_kind (parse_body left n d pong) b
      (then-IsOther (version_of (get_dict_node n "v")) (λ v. got (in_pong v)) (λ v. refl)) h
parse_kind-parse_body left n d find_node b h =
    other_kind (parse_body left n d find_node) b
      (then-IsOther (parse_target left d "target") (λ id. got (in_find_node id)) (λ id. refl)) h
parse_kind-parse_body left n d get_hash b h =
    other_kind (parse_body left n d get_hash) b
      (then-IsOther (parse_target left d "info_hash") (λ id. got (in_get_hash id)) (λ id. refl)) h
parse_kind-parse_body left n d reply_node b h =
    other_kind (parse_body left n d reply_node) b
      (then-IsOther (parse_nodes d) (λ ids. got (in_reply_node ids)) (λ ids. refl)) h
parse_kind-parse_body left n d reply_hash b h =
    other_kind (parse_body left n d reply_hash) b
      (then-IsOther (parse_values d) (λ v. parse_token d >>= (λ t. got (in_reply_hash v t)))
        (λ v. then-IsOther (parse_token d) (λ t. got (in_reply_hash v t)) (λ t. refl)))
      h
parse_kind-parse_body left n d reply_near b h =
    other_kind (parse_body left n d reply_near) b
      (then-IsOther (parse_nodes d) (λ v. parse_token d >>= (λ t. got (in_reply_near v t)))
        (λ v. then-IsOther (parse_token d) (λ t. got (in_reply_near v t)) (λ t. refl)))
      h
parse_kind-parse_body left n d post_hash b h =
    other_kind (parse_body left n d post_hash) b
      (then-IsOther (parse_target left d "info_hash")
        (λ id. parse_token d >>= (λ t. parse_port d >>= (λ port. got (in_post_hash id t port))))
        (λ id.
          then-IsOther (parse_token d)
            (λ t. parse_port d >>= (λ port. got (in_post_hash id t port)))
            (λ t.
              then-IsOther (parse_port d) (λ port. got (in_post_hash id t port)) (λ port. refl))))
      h
parse_kind-parse_body left n d reply_post b h = other_kind (parse_body left n d reply_post) b refl h
parse_kind-parse_body left n d newconn b h = ap (λ e. got (kind_of (body_or in_ping e))) h
parse_kind-parse_body left n d reply_newconn b h = replies_kind (parse_newconn d) b h
parse_kind-parse_body left n d broadcast_conn b h = ap got (
    sym (
      subst IsOther h (
        then-IsOther (parse_broadcast d) (λ ids. got (in_broadcast_conn ids.0 ids.1))
          (λ ids. refl))))
parse_kind-parse_body left n d ask_conn b h = ap got (
    sym (
      subst IsOther h
        (then-IsOther (parse_ask_conn d) (λ ids. got (in_ask_conn ids.0 ids.1)) (λ ids. refl))))
parse_kind-parse_body left n d reply_conn b h = ap (λ e. got (kind_of (body_or in_ping e))) h

abbrev packet_or : Packet → Field Packet → Packet
packet_or p undefined = p
packet_or p refused = p
packet_or p (got q) = q

body_then :
    (tid : BdToken) (id : BdNodeId) (f : Field Body) (k : Field Received) (p : Packet)
    → ((b : Body) → f ≡ got b → k ≡ got (kind_of b))
    → (f >>= (λ b. got (record { trans_id = tid; id = id; body = b }))) ≡ got p
    → (k >>= (λ r. got (record { trans_id = tid; id = id; body = r }))) ≡ got (as_tunnel p)
body_then tid id undefined k p s h = cc
body_then tid id refused k p s h = cc
body_then tid id (got b) k p s h =
    let first : Packet = record { trans_id = tid; id = id; body = b } in
    ap {A = Field Received} {B = Field TunnelPacket}
      (λ e. e >>= (λ r. got (record { trans_id = tid; id = id; body = r }))) (s b refl)
    ∙ ap (λ e. got (as_tunnel (packet_or first e))) h

head_then :
    (left : Leftovers) (n : BeNode) (f : Field PacketHead) (p : Packet)
    → (f >>= (λ h.
        parse_body left n h.be_data h.type
        >>= (λ b. got (record { trans_id = h.trans_id; id = h.id; body = b }))))
      ≡ got p
    → (f >>= (λ h.
        parse_kind left n h.be_data h.type
        >>= (λ r. got (record { trans_id = h.trans_id; id = h.id; body = r }))))
      ≡ got (as_tunnel p)
head_then left n undefined p e = cc
head_then left n refused p e = cc
head_then left n (got h) p e =
    body_then h.trans_id h.id (parse_body left n h.be_data h.type)
      (parse_kind left n h.be_data h.type) p (parse_kind-parse_body left n h.be_data h.type) e

-- What bdNode reads in a message, bdTunnelNode reads too: the same transaction and sender, and whether the message asks
-- for a tunnel, or answers with which id, or is neither.
pub parse_packet-parse_node :
    (left : Leftovers) (n : BeNode) (p : Packet)
    → parse_node left n ≡ got p
    → parse_packet left n ≡ got (as_tunnel p)
unfolding parse_node parse_packet
parse_packet-parse_node left n p e = head_then left n (parse_head left n) p e

abbrev answers_to : World → TunnelNode → BdId → BdToken → Received → List NetMsg
answers_to w n src tid asks =
    record { bytes = w.be_encode (reply_myip_msg tid n.own_id src true); addr = src.addr } ∷ []
answers_to w n src tid (replies peer_id) = []
answers_to w n src tid unhandled = []

-- The answer to what bdNode reads, which only a request for a tunnel has.
abbrev pub answers : World → TunnelNode → SockaddrIn → Packet → List NetMsg
answers w n addr p = answers_to w n (record { addr = addr; id = p.id }) p.trans_id (kind_of p.body)

handle_lem :
    (w : World) (n : TunnelNode) (src : BdId) (tid : BdToken) (r : Received)
    → handle w n src tid r
      ≡ record n { outgoing_msgs = n.outgoing_msgs ++ answers_to w n src tid r }
unfolding msgin_newconn msgout_reply_newconn msgin_reply_newconn send_pkt
handle_lem w n src tid asks = refl
handle_lem w n src tid (replies peer_id) = rw (append-nil n.outgoing_msgs) refl
handle_lem w n src tid unhandled = rw (append-nil n.outgoing_msgs) refl

-- Of the datagrams that decode to a message that bdNode reads, bdTunnelNode answers the requests for a tunnel, each by one
-- message behind those that wait, with the sender's id and the address that the datagram came from; no other changes the
-- node.
pub recv_pkt-parse_node :
    (w : World) (left : Leftovers) (n : TunnelNode) (m : NetMsg) (message : BeNode) (p : Packet)
    → w.be_decoden m.bytes ≡ some message
    → parse_node left message ≡ got p
    → recv_pkt w left n m
      ≡ some (record n { outgoing_msgs = n.outgoing_msgs ++ answers w n m.addr p })
unfolding recv_pkt
recv_pkt-parse_node w left n m message p e f =
    rw (e, parse_packet-parse_node left message p f)
      (ap some (handle_lem w n (record { addr = m.addr; id = p.id }) p.trans_id (kind_of p.body)))

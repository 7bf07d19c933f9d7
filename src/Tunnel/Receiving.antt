-- ===== src/Tunnel/Receiving.antt =====
-- bdTunnelNode::recvPkt and bdTunnelNode::iteration of bitdht/bdtunnelnode.cc. A datagram is parsed as bdNode parses
-- it, but for the requests to connect, whose ids are not looked for.
use bitdht.Base.{ℕ, zero, suc, Option, none, some, List, [], ◌∷◌, ◌++◌, length}
use bitdht.Peer.{BdNodeId, SockaddrIn, BdId}
use bitdht.Msgs.{
  BeNode, BdToken, MsgType, newconn, reply_newconn, broadcast_conn, ask_conn, reply_conn, Field,
  undefined, refused, got,
}
use bitdht.Node.{World, NetMsg, Leftovers}
use bitdht.Node.Receiving.{required, parse_head, parse_newconn, parse_body, ◌>>=◌}
use bitdht.Node.Iteration
use bitdht.Tunnel.{TunnelNode, gen_new_trans_id, msgout_newconn, msgin_newconn, msgin_reply_newconn}

-- What becomes of a message: it asks for a tunnel, it replies with the id of its receiver, or it is only logged.
pub data Received : Type 0 where
  asks : Received
  replies : BdId → Received
  unhandled : Received

pub record TunnelPacket : Type 0 where
  pub trans_id : BdToken
  pub id : BdNodeId
  pub body : Received

-- recvPkt's tests for the type. What a message of the other types holds is read all the same, and can be refused.
unfoldable pub parse_kind : Leftovers → BeNode → BeNode → MsgType → Field Received
parse_kind left n d newconn = got asks
parse_kind left n d reply_newconn = do id ← parse_newconn d; got (replies id)
parse_kind left n d broadcast_conn = got unhandled
parse_kind left n d ask_conn = got unhandled
parse_kind left n d reply_conn = got unhandled
parse_kind left n d t = do body ← parse_body left n d t; got unhandled

unfoldable pub parse_packet : Leftovers → BeNode → Field TunnelPacket
parse_packet left n = do
  h ← parse_head left n
  body ← parse_kind left n h.be_data h.type
  got (record { trans_id = h.trans_id; id = h.id; body = body })

module _ (w : World) where
  abbrev pub handle : TunnelNode → BdId → BdToken → Received → TunnelNode
  handle n src tid asks = msgin_newconn w n src tid
  handle n src tid (replies peer_id) = msgin_reply_newconn w n src tid
  handle n src tid unhandled = n

  abbrev pub on_packet : TunnelNode → SockaddrIn → Field TunnelPacket → Option TunnelNode
  on_packet n addr undefined = none
  on_packet n addr refused = some n
  on_packet n addr (got p) = some (handle n (record { addr = addr; id = p.id }) p.trans_id p.body)

  -- `none` is undefined behaviour.
  unfoldable pub recv_pkt : Leftovers → TunnelNode → NetMsg → Option TunnelNode
  recv_pkt left n m = on_packet n m.addr (required (w.be_decoden m.bytes) >>= parse_packet left)

  -- The loop over the incoming messages, with the number of the message.
  unfoldable pub receive_all : ℕ → List NetMsg → TunnelNode → Option TunnelNode
  receive_all round [] n = some n
  receive_all round (m ∷ ms) n =
      Iteration.◌>>=◌ (recv_pkt (w.leftovers round) (record n { incoming_msgs = ms }) m)
        (receive_all (suc round) ms)

  -- The first request goes to the end of the list, and is sent.
  abbrev pub ask_front : TunnelNode → List BdId → TunnelNode
  ask_front n [] = n
  ask_front n (id ∷ ids) =
      let (n', tid) = gen_new_trans_id (record n { tunnel_requests = ids ++ id ∷ [] }) in
      msgout_newconn w n' id tid

  unfoldable pub ask_tunnels : ℕ → TunnelNode → TunnelNode
  ask_tunnels zero n = n
  ask_tunnels (suc num_queries) n = ask_tunnels num_queries (ask_front n n.tunnel_requests)

  abbrev pub ask_all : TunnelNode → TunnelNode
  ask_all n = ask_tunnels (length n.tunnel_requests) n

  unfoldable pub iteration : TunnelNode → Option TunnelNode
  iteration n = Iteration.◌>>=◌ (receive_all 0 n.incoming_msgs n) (λ n'. some (ask_all n'))

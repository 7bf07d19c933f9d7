-- ===== src/Tunnel.antt =====
-- bdTunnelNode of bitdht/bdtunnelnode.h and bitdht/bdtunnelnode.cc: a second, smaller node, which asks the peers on its
-- list for a tunnel and answers those that ask. It shares the counter of the transactions with bdNode.
pub mod Receiving
pub mod Manager
pub mod Requests
pub mod Runs
pub mod StartUp
pub mod Parsed
pub mod Exchange
use bitdht.Base.{
  ℕ, zero, suc, ◌+◌, ◌%◌, ◌^◌, Bool, true, not, Option, none, some, List, [], ◌∷◌, ◌++◌, ltb,
  if◌then◌else◌, length, take, any, keep_if,
}
use bitdht.Peer.{BdNodeId, SockaddrIn, BdId, id_eq}
use bitdht.Msgs.{BdToken}
use bitdht.Msgs.Create.{ask_myip_msg, reply_myip_msg}
use bitdht.Node.{World, NetMsg, trans_id}

-- With the counter of the transactions, which is global. A bdTunnelReq is its id.
pub record TunnelNode : Type 0 where
  pub own_id : BdNodeId
  pub tunnel_requests : List BdId
  pub outgoing_msgs : List NetMsg
  pub incoming_msgs : List NetMsg
  pub trans_id_counter : ℕ

unfoldable pub new_tunnel_node : BdNodeId → ℕ → TunnelNode
new_tunnel_node own_id counter = record {
  own_id = own_id;
  tunnel_requests = [];
  outgoing_msgs = [];
  incoming_msgs = [];
  trans_id_counter = counter;
}

unfoldable pub restart_node : TunnelNode → TunnelNode
restart_node n = n

unfoldable pub shutdown_node : TunnelNode → TunnelNode
shutdown_node n = record n { outgoing_msgs = [] }

unfoldable pub iteration_off : TunnelNode → TunnelNode
iteration_off n = record n { incoming_msgs = [] }

unfoldable pub add_tunnel : TunnelNode → BdId → TunnelNode
add_tunnel n id =
    if any (λ r. id_eq r id) n.tunnel_requests
    then n
    else record n { tunnel_requests = n.tunnel_requests ++ id ∷ [] }

unfoldable pub clear_tunnel : TunnelNode → BdId → TunnelNode
clear_tunnel n rm_id = record n {
  tunnel_requests = keep_if (λ r. not (id_eq r rm_id)) n.tunnel_requests;
}

-- The datagram that is handed out, cut to the room there is, and the node without it.
abbrev pub first_out : TunnelNode → List NetMsg → ℕ → TunnelNode × Option NetMsg
first_out n [] room = (n, none)
first_out n (m ∷ ms) room = (
  record n { outgoing_msgs = ms },
  some (record m { bytes = if ltb (length m.bytes) room then m.bytes else take room m.bytes }),
)

unfoldable pub outgoing_msg : TunnelNode → ℕ → TunnelNode × Option NetMsg
outgoing_msg n room = first_out n n.outgoing_msgs room

unfoldable pub incoming_msg : TunnelNode → SockaddrIn → List ℕ → TunnelNode
incoming_msg n addr msg = record n {
  incoming_msgs = n.incoming_msgs ++ record { bytes = msg; addr = addr } ∷ [];
}

unfoldable pub send_pkt : TunnelNode → List ℕ → SockaddrIn → TunnelNode
send_pkt n msg addr = record n {
  outgoing_msgs = n.outgoing_msgs ++ record { bytes = msg; addr = addr } ∷ [];
}

unfoldable pub gen_new_trans_id : TunnelNode → TunnelNode × BdToken
gen_new_trans_id n =
    (record n { trans_id_counter = (n.trans_id_counter + 1) % 2 ^ 64 }, trans_id n.trans_id_counter)

-- Neither message is encrypted, where bdNode expects a checksum and a token behind each.
module _ (w : World) where
  unfoldable pub msgout_newconn : TunnelNode → BdId → BdToken → TunnelNode
  msgout_newconn n dht_id tid = send_pkt n (w.be_encode (ask_myip_msg tid n.own_id)) dht_id.addr

  unfoldable pub msgout_reply_newconn : TunnelNode → BdId → BdToken → TunnelNode
  msgout_reply_newconn n tunnel_id tid =
      send_pkt n (w.be_encode (reply_myip_msg tid n.own_id tunnel_id true)) tunnel_id.addr

  unfoldable pub msgin_newconn : TunnelNode → BdId → BdToken → TunnelNode
  msgin_newconn n tunnel_id tid = msgout_reply_newconn n tunnel_id tid

  unfoldable pub msgin_reply_newconn : TunnelNode → BdId → BdToken → TunnelNode
  msgin_reply_newconn n tunnel_id tid = n

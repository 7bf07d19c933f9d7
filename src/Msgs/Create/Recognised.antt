-- ===== src/Msgs/Create/Recognised.antt =====
-- What the parsers of bitdht/bdmsgs.cc find in the messages that its builders make.
use bitdht.Base.{ℕ, ◌≡◌, refl, Bool, Option, none, some, List}
use bitdht.Peer.{BdNodeId, BdId}
use bitdht.Msgs.{
  BeNode, be_str, BdToken, MsgType, ping, pong, find_node, reply_node, get_hash, reply_hash,
  reply_near, post_hash, newconn, reply_newconn, broadcast_conn, ask_conn, reply_conn, BeY, y_q,
  get_dict_node, msg_type, match_string, get_y,
}
use bitdht.Msgs.Create.{
  create_ping_msg, response_ping_msg, find_node_msg, resp_node_msg, get_peers_msg,
  peers_reply_hash_msg, peers_reply_closest_msg, announce_peers_msg, reply_announce_msg,
  ask_myip_msg, reply_myip_msg, broadcast_conn_msg, ask_conn_msg, reply_conn_msg,
}

-- A call of one of the builders, with what it is given besides the transaction and the id of the sender.
pub data Build : Type 0 where
  a_ping : Build
  a_pong : BdToken → Build
  a_find_node : BdNodeId → Build
  a_node_reply : List BdId → Build
  a_get_peers : BdNodeId → Build
  a_hash_reply : BdToken → List (List ℕ) → Build
  a_near_reply : BdToken → List BdId → Build
  an_announcement : BdNodeId → ℕ → BdToken → Build
  an_announcement_reply : Build
  a_myip_request : Build
  a_myip_reply : BdId → Bool → Build
  a_broadcast : BdNodeId → BdNodeId → Build
  a_conn_request : BdNodeId → BdId → Build
  a_conn_reply : Bool → Build

abbrev pub built : BdToken → BdNodeId → Build → BeNode
built tid id a_ping = create_ping_msg tid id
built tid id (a_pong vid) = response_ping_msg tid id vid
built tid id (a_find_node target) = find_node_msg tid id target
built tid id (a_node_reply nodes) = resp_node_msg tid id nodes
built tid id (a_get_peers info_hash) = get_peers_msg tid id info_hash
built tid id (a_hash_reply token values) = peers_reply_hash_msg tid id token values
built tid id (a_near_reply token nodes) = peers_reply_closest_msg tid id token nodes
built tid id (an_announcement info_hash port token) = announce_peers_msg tid id info_hash port token
built tid id an_announcement_reply = reply_announce_msg tid id
built tid id a_myip_request = ask_myip_msg tid id
built tid id (a_myip_reply peer_id started) = reply_myip_msg tid id peer_id started
built tid id (a_broadcast node_id peer_id) = broadcast_conn_msg tid id node_id peer_id
built tid id (a_conn_request node_id peer_id) = ask_conn_msg tid id node_id peer_id
built tid id (a_conn_reply started) = reply_conn_msg tid id started

-- The type that is found; nothing tells the reply to an announcement from a pong.
abbrev pub found_type : Build → MsgType
found_type a_ping = ping
found_type (a_pong vid) = pong
found_type (a_find_node target) = find_node
found_type (a_node_reply nodes) = reply_node
found_type (a_get_peers info_hash) = get_hash
found_type (a_hash_reply token values) = reply_hash
found_type (a_near_reply token nodes) = reply_near
found_type (an_announcement info_hash port token) = post_hash
found_type an_announcement_reply = pong
found_type a_myip_request = newconn
found_type (a_myip_reply peer_id started) = reply_newconn
found_type (a_broadcast node_id peer_id) = broadcast_conn
found_type (a_conn_request node_id peer_id) = ask_conn
found_type (a_conn_reply started) = reply_conn

abbrev pub inner_id : Option BeNode → Option BeNode
inner_id none = none
inner_id (some d) = get_dict_node d "id"

-- The sender's id, in the dictionary "a" of a query and "r" of a reply.
abbrev pub sender_in : BeNode → Option BeY → Option BeNode
sender_in n (some y_q) = inner_id (get_dict_node n "a")
sender_in n y = inner_id (get_dict_node n "r")

-- Every message that a builder makes is found to have the type that it is built for, except that the reply to an
-- announcement is found to be a pong; its transaction stands under "t", and the id of its sender under "id" in the
-- dictionary that the receiver looks into.
pub msg_type-built :
    (tid : BdToken) (id : BdNodeId) (b : Build)
    → (msg_type (built tid id b) ≡ some (found_type b))
      × (get_dict_node (built tid id b) "t" ≡ some (be_str tid))
      × (sender_in (built tid id b) (get_y (built tid id b)) ≡ some (be_str id))
unfolding create_ping_msg response_ping_msg find_node_msg resp_node_msg get_peers_msg
    peers_reply_hash_msg peers_reply_closest_msg announce_peers_msg reply_announce_msg ask_myip_msg
    reply_myip_msg broadcast_conn_msg ask_conn_msg reply_conn_msg get_dict_node msg_type get_y
    match_string
msg_type-built tid id a_ping = (refl, refl, refl)
msg_type-built tid id (a_pong vid) = (refl, refl, refl)
msg_type-built tid id (a_find_node target) = (refl, refl, refl)
msg_type-built tid id (a_node_reply nodes) = (refl, refl, refl)
msg_type-built tid id (a_get_peers info_hash) = (refl, refl, refl)
msg_type-built tid id (a_hash_reply token values) = (refl, refl, refl)
msg_type-built tid id (a_near_reply token nodes) = (refl, refl, refl)
msg_type-built tid id (an_announcement info_hash port token) = (refl, refl, refl)
msg_type-built tid id an_announcement_reply = (refl, refl, refl)
msg_type-built tid id a_myip_request = (refl, refl, refl)
msg_type-built tid id (a_myip_reply peer_id started) = (refl, refl, refl)
msg_type-built tid id (a_broadcast node_id peer_id) = (refl, refl, refl)
msg_type-built tid id (a_conn_request node_id peer_id) = (refl, refl, refl)
msg_type-built tid id (a_conn_reply started) = (refl, refl, refl)

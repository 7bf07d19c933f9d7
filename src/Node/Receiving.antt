-- ===== src/Node/Receiving.antt =====
-- recvPkt of bitdht/bdnode.cc: a datagram is parsed, and handed to the function for its type. In a parse `undefined` is
-- undefined behaviour and `refused` drops the datagram.
pub mod RoundTrip
use Prim.Native.String.{String}
use bitdht.Base.{ℕ, Bool, true, false, Option, none, some, List, [], ◌∷◌, ltb, ◌==◌, if◌then◌else◌}
use bitdht.Peer.{BdNodeId, SockaddrIn, BdId}
use bitdht.Msgs.{
  BeNode, BdToken, MsgType, unknown, ping, pong, find_node, reply_node, get_hash, reply_hash,
  reply_near, post_hash, reply_post, newconn, reply_newconn, broadcast_conn, ask_conn, reply_conn,
  BeY, y_q, y_r, y_unknown, Field, undefined, refused, got, get_dict_node, get_y, msg_type,
  get_token, get_node_id, get_uint32,
}
use bitdht.Msgs.Compact.{get_bd_id, get_list_bd_ids, get_list_strings}
use bitdht.Msgs.Crypt.{decrypt}
use bitdht.Node.{World, Node, NetMsg, Leftovers}
use bitdht.Node.Sending.{is_used_token}
use bitdht.Node.BlackList.{is_member_of_black_list, add_black_list}
use bitdht.Node.Handlers.{
  msgin_ping, msgin_pong, msgin_find_node, msgin_reply_find_node, msgin_get_hash, msgin_reply_hash,
  msgin_ask_myip, msgin_reply_ask_myip, msgin_broadcast_conn, msgin_ask_conn,
}

infixl 5 ◌>>=◌
abbrev pub ◌>>=◌ {ℓ κ} : {A : Type ℓ} {B : Type κ} → Field A → (A → Field B) → Field B
undefined >>= f = undefined
refused >>= f = refused
got a >>= f = f a

-- The datagram is dropped where the dictionary has no such entry.
abbrev pub required {ℓ} : {A : Type ℓ} → Option A → Field A
required none = refused
required (some a) = got a

-- A failing reader leaves the variable as it was.
abbrev pub or_kept {ℓ} : {A : Type ℓ} → A → Field A → Field A
or_kept a undefined = undefined
or_kept a refused = got a
or_kept a (got b) = got b

abbrev pub known_type : Option MsgType → Field MsgType
known_type none = undefined
known_type (some unknown) = refused
known_type (some t) = got t

abbrev pub data_key : Option BeY → BeNode → Option BeNode
data_key (some y_q) n = get_dict_node n "a"
data_key y n = get_dict_node n "r"

-- What the parts of a message of each type are, besides the transaction and the sender. The token of a
-- reply to a query for a hash, and of a post, is the node under its key, whose bytes are never read: behind the test for
-- it the transaction is read once more. The port of a post is `refused` where the entry is no number.
pub data Body : Type 0 where
  in_ping in_newconn in_reply_conn in_reply_post : Body
  in_pong : Option BdToken → Body
  in_find_node in_get_hash : BdNodeId → Body
  in_reply_node : List BdId → Body
  in_reply_hash : List (List ℕ) → BeNode → Body
  in_reply_near : List BdId → BeNode → Body
  in_post_hash : BdNodeId → BeNode → Field ℕ → Body
  in_reply_newconn : BdId → Body
  in_broadcast_conn : BdNodeId → BdNodeId → Body
  in_ask_conn : BdNodeId → BdId → Body

pub record Packet : Type 0 where
  pub trans_id : BdToken
  pub id : BdNodeId
  pub body : Body

abbrev pub version_of : Option BeNode → Field (Option BdToken)
version_of none = got none
version_of (some v) = or_kept [] (get_token v) >>= λ t. got (some t)

abbrev pub parse_target : Leftovers → BeNode → String → Field BdNodeId
parse_target left d key = do
  target ← required (get_dict_node d key)
  or_kept left.target_info_hash (get_node_id target)

abbrev pub parse_nodes : BeNode → Field (List BdId)
parse_nodes d = do nodes ← required (get_dict_node d "nodes"); or_kept [] (get_list_bd_ids nodes)

-- The strings, whose readers' result is not tested.
abbrev pub parse_values : BeNode → Field (List (List ℕ))
parse_values d = do values ← required (get_dict_node d "values"); got (get_list_strings values).1

-- Behind this test the transaction is read once more, not the token.
abbrev pub parse_token : BeNode → Field BeNode
parse_token d = required (get_dict_node d "token")

-- The port keeps what it held where the entry is no number.
abbrev pub parse_port : BeNode → Field (Field ℕ)
parse_port d = do port ← required (get_dict_node d "port"); got (get_uint32 port)

abbrev pub parse_newconn : BeNode → Field BdId
parse_newconn d = do
  hello ← required (get_dict_node d "newconn")
  pid ← required (get_dict_node d "pid")
  get_bd_id pid

abbrev pub parse_broadcast : BeNode → Field (BdNodeId × BdNodeId)
parse_broadcast d = do
  nid ← required (get_dict_node d "nid")
  pid ← required (get_dict_node d "pid")
  this ← get_node_id nid
  peer ← get_node_id pid
  got (this, peer)

abbrev pub parse_ask_conn : BeNode → Field (BdNodeId × BdId)
parse_ask_conn d = do
  nid ← required (get_dict_node d "nid")
  this ← get_node_id nid
  pid ← required (get_dict_node d "pid")
  peer ← get_bd_id pid
  got (this, peer)

-- recvPkt's tests for the type, on the dictionary `d` in the message `n`.
unfoldable pub parse_body : Leftovers → BeNode → BeNode → MsgType → Field Body
parse_body left n d ping = got in_ping
parse_body left n d pong = do v ← version_of (get_dict_node n "v"); got (in_pong v)
parse_body left n d find_node = do id ← parse_target left d "target"; got (in_find_node id)
parse_body left n d get_hash = do id ← parse_target left d "info_hash"; got (in_get_hash id)
parse_body left n d reply_node = do ids ← parse_nodes d; got (in_reply_node ids)
parse_body left n d reply_hash = do
  values ← parse_values d
  token ← parse_token d
  got (in_reply_hash values token)
parse_body left n d reply_near = do
  ids ← parse_nodes d
  token ← parse_token d
  got (in_reply_near ids token)
parse_body left n d post_hash = do
  id ← parse_target left d "info_hash"
  token ← parse_token d
  port ← parse_port d
  got (in_post_hash id token port)
parse_body left n d reply_post = got in_reply_post
parse_body left n d newconn = got in_newconn
parse_body left n d reply_newconn = do id ← parse_newconn d; got (in_reply_newconn id)
parse_body left n d broadcast_conn = do ids ← parse_broadcast d; got (in_broadcast_conn ids.0 ids.1)
parse_body left n d ask_conn = do ids ← parse_ask_conn d; got (in_ask_conn ids.0 ids.1)
parse_body left n d reply_conn = got in_reply_conn
parse_body left n d unknown = refused

-- What every message has: its type, the transaction, the sender, and the dictionary of the rest.
pub record PacketHead : Type 0 where
  pub type : MsgType
  pub trans_id : BdToken
  pub id : BdNodeId
  pub be_data : BeNode

abbrev pub parse_head : Leftovers → BeNode → Field PacketHead
parse_head left n = do
  type ← known_type (msg_type n)
  t ← required (get_dict_node n "t")
  tid ← or_kept [] (get_token t)
  d ← required (data_key (get_y n) n)
  be_id ← required (get_dict_node d "id")
  id ← or_kept left.id (get_node_id be_id)
  got (record { type = type; trans_id = tid; id = id; be_data = d })

unfoldable pub parse_node : Leftovers → BeNode → Field Packet
parse_node left n = do
  h ← parse_head left n
  body ← parse_body left n h.be_data h.type
  got (record { trans_id = h.trans_id; id = h.id; body = body })

module _ (w : World) where
  -- The two types whose datagram carries a checksum and a token: a token of the node's own puts the sender on the black list.
  abbrev pub if_valid : Node → BdId → (Node → Node) → Option (Bool × ℕ) → Option Node
  if_valid n src handler none = none
  if_valid n src handler (some (valid, token)) =
      if is_used_token n token
      then some (add_black_list n src.addr)
      else if valid
      then some (handler n)
      else some n

  unfoldable pub dispatch : Node → BdId → BdToken → List ℕ → Body → Option Node
  dispatch n src tid msg in_ping = msgin_ping w n src tid
  dispatch n src tid msg (in_pong version) = msgin_pong w n src version
  dispatch n src tid msg (in_find_node target) = msgin_find_node w n src tid target
  dispatch n src tid msg (in_reply_node nodes) = msgin_reply_find_node w n src nodes
  dispatch n src tid msg (in_get_hash info_hash) = some (msgin_get_hash w n src tid info_hash)
  dispatch n src tid msg (in_reply_hash values token) = some (msgin_reply_hash n)
  dispatch n src tid msg (in_reply_near ids token) = some n
  dispatch n src tid msg (in_post_hash info_hash token port) = some n
  dispatch n src tid msg in_reply_post = some n
  dispatch n src tid msg in_newconn =
      if_valid n src (λ n'. msgin_ask_myip w n' src tid) (decrypt msg)
  dispatch n src tid msg (in_reply_newconn peer_id) =
      if_valid n src (λ n'. msgin_reply_ask_myip n' peer_id) (decrypt msg)
  dispatch n src tid msg (in_broadcast_conn this peer) =
      some (msgin_broadcast_conn w n src this peer)
  dispatch n src tid msg (in_ask_conn this peer) = some (msgin_ask_conn n this peer)
  dispatch n src tid msg in_reply_conn = some n

  abbrev pub on_packet : Node → SockaddrIn → List ℕ → Field Packet → Option Node
  on_packet n addr msg undefined = none
  on_packet n addr msg refused = some n
  on_packet n addr msg (got p) =
      dispatch n (record { addr = addr; id = p.id }) p.trans_id msg p.body

  -- `none` is undefined behaviour.
  unfoldable pub recv_pkt : Leftovers → Node → NetMsg → Option Node
  recv_pkt left n m =
      if is_member_of_black_list n m.addr
      then some n
      else on_packet n m.addr m.bytes (required (w.be_decoden m.bytes) >>= parse_node left)

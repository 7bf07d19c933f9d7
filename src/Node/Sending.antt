-- ===== src/Node/Sending.antt =====
-- The messages that bdNode of bitdht/bdnode.cc sends: the msgout_ functions, with the random tokens that go into the
-- encrypted ones.
use bitdht.Base.{
  ℕ, Bool, true, List, [], ◌∷◌, ◌++◌, ltb, ◌==◌, if◌then◌else◌, length, take, drop, any,
}
use bitdht.Peer.{BdNodeId, SockaddrIn, BdId}
use bitdht.Msgs.{BdToken, token_max_len}
use bitdht.Msgs.Create.{
  create_ping_msg, response_ping_msg, find_node_msg, resp_node_msg, get_peers_msg,
  peers_reply_hash_msg, peers_reply_closest_msg, announce_peers_msg, reply_announce_msg,
  ask_myip_msg, reply_myip_msg, broadcast_conn_msg, ask_conn_msg, reply_conn_msg,
}
use bitdht.Msgs.Crypt.{ecrypt}
use bitdht.Node.{World, Node}

unfoldable pub send_pkt : Node → List ℕ → SockaddrIn → Node
send_pkt n msg addr = record n {
  outgoing_msgs = n.outgoing_msgs ++ record { bytes = msg; addr = addr } ∷ [];
}

-- The room in the buffer of a message.
abbrev pub avail : ℕ
avail = 10239

abbrev pub max_random_tokens : ℕ
max_random_tokens = 1000

-- Drops the oldest token above the thousand.
abbrev pub push_token : List ℕ → ℕ → List ℕ
push_token tokens num =
    let pushed = tokens ++ num ∷ [] in
    if ltb max_random_tokens (length pushed) then drop 1 pushed else pushed

unfoldable pub is_used_token : Node → ℕ → Bool
is_used_token n token = any (λ t. t == token) n.random_token_array

module _ (w : World) where
  unfoldable pub get_random_token : Node → Node × ℕ
  get_random_token n =
      let (num, state) = w.rand n.rand_state in
      (
        record n { rand_state = state; random_token_array = push_token n.random_token_array num },
        num,
      )

  unfoldable pub msgout_ping : Node → BdId → BdToken → Node
  msgout_ping n id tid = send_pkt n (w.be_encode (create_ping_msg tid n.own_id)) id.addr

  unfoldable pub msgout_pong : Node → BdId → BdToken → Node
  msgout_pong n id tid =
      let vid = take token_max_len n.dht_version in
      send_pkt n (w.be_encode (response_ping_msg tid n.own_id vid)) id.addr

  unfoldable pub msgout_find_node : Node → BdId → BdToken → BdNodeId → Node
  msgout_find_node n id tid query =
      send_pkt n (w.be_encode (find_node_msg tid n.own_id query)) id.addr

  unfoldable pub msgout_reply_find_node : Node → BdId → BdToken → List BdId → Node
  msgout_reply_find_node n id tid peers =
      send_pkt n (w.be_encode (resp_node_msg tid n.own_id peers)) id.addr

  unfoldable pub msgout_get_hash : Node → BdId → BdToken → BdNodeId → Node
  msgout_get_hash n id tid info_hash =
      send_pkt n (w.be_encode (get_peers_msg tid n.own_id info_hash)) id.addr

  unfoldable pub msgout_reply_hash : Node → BdId → BdToken → BdToken → List (List ℕ) → Node
  msgout_reply_hash n id tid token values =
      send_pkt n (w.be_encode (peers_reply_hash_msg tid n.own_id token values)) id.addr

  unfoldable pub msgout_reply_nearest : Node → BdId → BdToken → BdToken → List BdId → Node
  msgout_reply_nearest n id tid token nodes =
      send_pkt n (w.be_encode (peers_reply_closest_msg tid n.own_id token nodes)) id.addr

  unfoldable pub msgout_post_hash : Node → BdId → BdToken → BdNodeId → ℕ → BdToken → Node
  msgout_post_hash n id tid info_hash port token =
      send_pkt n (w.be_encode (announce_peers_msg tid n.own_id info_hash port token)) id.addr

  unfoldable pub msgout_reply_post : Node → BdId → BdToken → Node
  msgout_reply_post n id tid = send_pkt n (w.be_encode (reply_announce_msg tid n.own_id)) id.addr

  unfoldable pub msgout_ask_myip : Node → BdId → BdToken → Node
  msgout_ask_myip n dht_id tid =
      let (n', token) = get_random_token n in
      send_pkt n' (ecrypt (w.be_encode (ask_myip_msg tid n.own_id)) avail token) dht_id.addr

  unfoldable pub msgout_reply_ask_myip : Node → BdId → BdToken → Node
  msgout_reply_ask_myip n tunnel_id tid =
      let (n', token) = get_random_token n in
      send_pkt n' (ecrypt (w.be_encode (reply_myip_msg tid n.own_id tunnel_id true)) avail token)
        tunnel_id.addr

  unfoldable pub msgout_broadcast_conn : Node → BdId → BdToken → BdNodeId → BdNodeId → Node
  msgout_broadcast_conn n id tid node_id peer_id =
      send_pkt n (w.be_encode (broadcast_conn_msg tid n.own_id node_id peer_id)) id.addr

  unfoldable pub msgout_ask_conn : Node → BdId → BdToken → BdNodeId → BdId → Node
  msgout_ask_conn n id tid node_id peer_id =
      send_pkt n (w.be_encode (ask_conn_msg tid n.own_id node_id peer_id)) id.addr

  -- The answer carries `node_id` for the sender, and `started` is not used.
  unfoldable pub msgout_reply_conn : Node → BdId → BdToken → BdNodeId → Bool → Node
  msgout_reply_conn n id tid node_id started =
      send_pkt n (w.be_encode (reply_conn_msg tid node_id true)) id.addr

-- ===== src/Node/Receiving/RoundTrip.antt =====
-- What recvPkt of bitdht/bdnode.cc reads in the messages that the builders of bitdht/bdmsgs.cc make.
use bitdht.Base.{ℕ, true, [], ◌∷◌, ◌^◌, ◌%◌, ◌≤◌, ◌≡◌, refl, none, some, List, arith, length, All}
use bitdht.Peer.{BdNodeId, key_len}
use bitdht.Msgs.{
  be_str, BdToken, token_max_len, got, get_token, get_node_id, get_uint32, get_dict_node, msg_type,
  get_y, match_string,
}
use bitdht.Msgs.Create.{
  create_ping_msg, response_ping_msg, find_node_msg, resp_node_msg, get_peers_msg,
  peers_reply_hash_msg, peers_reply_closest_msg, announce_peers_msg, reply_announce_msg,
  ask_myip_msg, reply_myip_msg, broadcast_conn_msg, ask_conn_msg, reply_conn_msg,
}
use bitdht.Msgs.Create.Recognised.{
  Build, built, a_ping, a_pong, a_find_node, a_node_reply, a_get_peers, a_hash_reply, a_near_reply,
  an_announcement, an_announcement_reply, a_myip_request, a_myip_reply, a_broadcast, a_conn_request,
  a_conn_reply,
}
use bitdht.Msgs.Compact.{strings_of, string_nodes, get_list_strings, make_compact_peer_ids}
use bitdht.Msgs.Compact.RoundTrip.{IsCompact, get_list_bd_ids-make, get_bd_id-make}
use bitdht.Node.{Leftovers}
use bitdht.Node.Receiving.{
  Body, in_ping, in_pong, in_find_node, in_get_hash, in_reply_node, in_reply_hash, in_reply_near,
  in_post_hash, in_newconn, in_reply_newconn, in_broadcast_conn, in_ask_conn, in_reply_conn,
  parse_node, parse_body,
}

abbrev pub IsToken : BdToken → Type 0
IsToken t = length t ≤ token_max_len

-- What the builder is given fits: ids of twenty bytes, tokens of at most twenty, compact addresses.
abbrev pub Fits : Build → Type 0
Fits a_ping = Unit {0}
Fits (a_pong vid) = IsToken vid
Fits (a_find_node target) = length target ≡ key_len
Fits (a_node_reply nodes) = All IsCompact nodes
Fits (a_get_peers info_hash) = length info_hash ≡ key_len
Fits (a_hash_reply token values) = Unit {0}
Fits (a_near_reply token nodes) = All IsCompact nodes
Fits (an_announcement info_hash port token) = length info_hash ≡ key_len
Fits an_announcement_reply = Unit {0}
Fits a_myip_request = Unit {0}
Fits (a_myip_reply peer_id started) = IsCompact peer_id
Fits (a_broadcast node_id peer_id) = (length node_id ≡ key_len) × (length peer_id ≡ key_len)
Fits (a_conn_request node_id peer_id) = (length node_id ≡ key_len) × IsCompact peer_id
Fits (a_conn_reply started) = Unit {0}

-- What is read: the reply to an announcement is a pong with no version, of a token it is the node that holds it, and a port
-- has 32 bits. The flag for a started connection, under its key in the messages, is not read.
abbrev pub body_of : Build → Body
body_of a_ping = in_ping
body_of (a_pong vid) = in_pong (some vid)
body_of (a_find_node target) = in_find_node target
body_of (a_node_reply nodes) = in_reply_node nodes
body_of (a_get_peers info_hash) = in_get_hash info_hash
body_of (a_hash_reply token values) = in_reply_hash values (be_str token)
body_of (a_near_reply token nodes) = in_reply_near nodes (be_str token)
body_of (an_announcement info_hash port token) =
    in_post_hash info_hash (be_str token) (got (port % 2 ^ 32))
body_of an_announcement_reply = in_pong none
body_of a_myip_request = in_newconn
body_of (a_myip_reply peer_id started) = in_reply_newconn peer_id
body_of (a_broadcast node_id peer_id) = in_broadcast_conn node_id peer_id
body_of (a_conn_request node_id peer_id) = in_ask_conn node_id peer_id
body_of (a_conn_reply started) = in_reply_conn

get_token-str : (t : BdToken) → IsToken t → get_token (be_str t) ≡ got t
unfolding get_token
get_token-str t h = ground arith

get_node_id-str : (id : BdNodeId) → length id ≡ key_len → get_node_id (be_str id) ≡ got id
unfolding get_node_id
get_node_id-str id h = ground arith

strings_of-nodes : (values : List (List ℕ)) → strings_of (string_nodes values) ≡ (true, values)
strings_of-nodes [] = refl
strings_of-nodes (v ∷ vs) = rw (strings_of-nodes vs) refl

get_list_strings-make :
    (values : List (List ℕ)) → get_list_strings (make_compact_peer_ids values) ≡ (true, values)
unfolding get_list_strings make_compact_peer_ids
get_list_strings-make values = strings_of-nodes values

-- With a transaction of at most twenty bytes, a sender's id of twenty and arguments that fit, the receiver of a built
-- message reads the transaction, the sender and the arguments that the message was built from, the port with 32 bits and
-- a token as the node that holds it, whatever its variables held before. The flag for a
-- started connection is in the messages and is not read.
pub parse_node-built :
    (left : Leftovers) (tid : BdToken) (id : BdNodeId) (b : Build)
    → IsToken tid
    → length id ≡ key_len
    → Fits b
    → parse_node left (built tid id b) ≡ got (record { trans_id = tid; id = id; body = body_of b })
unfolding parse_node parse_body create_ping_msg response_ping_msg find_node_msg resp_node_msg
    get_peers_msg peers_reply_hash_msg peers_reply_closest_msg announce_peers_msg reply_announce_msg
    ask_myip_msg reply_myip_msg broadcast_conn_msg ask_conn_msg reply_conn_msg get_dict_node
    msg_type get_y match_string get_uint32
parse_node-built left tid id a_ping t i h = rw (get_token-str tid t, get_node_id-str id i) refl
parse_node-built left tid id (a_pong vid) t i h =
    rw (get_token-str tid t, get_node_id-str id i, get_token-str vid h) refl
parse_node-built left tid id (a_find_node target) t i h =
    rw (get_token-str tid t, get_node_id-str id i, get_node_id-str target h) refl
parse_node-built left tid id (a_node_reply nodes) t i h =
    rw (get_token-str tid t, get_node_id-str id i, get_list_bd_ids-make nodes h) refl
parse_node-built left tid id (a_get_peers info_hash) t i h =
    rw (get_token-str tid t, get_node_id-str id i, get_node_id-str info_hash h) refl
parse_node-built left tid id (a_hash_reply token values) t i h =
    rw (get_token-str tid t, get_node_id-str id i, get_list_strings-make values) refl
parse_node-built left tid id (a_near_reply token nodes) t i h =
    rw (get_token-str tid t, get_node_id-str id i, get_list_bd_ids-make nodes h) refl
parse_node-built left tid id (an_announcement info_hash port token) t i h =
    rw (get_token-str tid t, get_node_id-str id i, get_node_id-str info_hash h) refl
parse_node-built left tid id an_announcement_reply t i h =
    rw (get_token-str tid t, get_node_id-str id i) refl
parse_node-built left tid id a_myip_request t i h =
    rw (get_token-str tid t, get_node_id-str id i) refl
parse_node-built left tid id (a_myip_reply peer_id started) t i h =
    rw (get_token-str tid t, get_node_id-str id i, get_bd_id-make peer_id h) refl
parse_node-built left tid id (a_broadcast node_id peer_id) t i h =
    rw
      (
        get_token-str tid t,
        get_node_id-str id i,
        get_node_id-str node_id h.0,
        get_node_id-str peer_id h.1,
      )
      refl
parse_node-built left tid id (a_conn_request node_id peer_id) t i h =
    rw
      (
        get_token-str tid t,
        get_node_id-str id i,
        get_node_id-str node_id h.0,
        get_bd_id-make peer_id h.1,
      )
      refl
parse_node-built left tid id (a_conn_reply started) t i h =
    rw (get_token-str tid t, get_node_id-str id i) refl

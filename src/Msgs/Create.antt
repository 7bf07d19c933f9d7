-- ===== src/Msgs/Create.antt =====
-- The functions of bitdht/bdmsgs.cc that build a message, up to the call of be_encode: each dictionary with its
-- keys in the order in which they are added.
pub mod Recognised
use Prim.Native.String.{String}
use bitdht.Base.{ℕ, ◌%◌, ◌^◌, Bool, List, [], ◌∷◌, if◌then◌else◌}
use bitdht.Peer.{BdNodeId, BdId}
use bitdht.Msgs.{BeNode, BeDict, be_str, be_int, be_dict, end_dict, entry, chars, BdToken}
use bitdht.Msgs.Compact.{
  make_compact_bd_id_string, make_compact_id_list_string, make_compact_peer_ids,
}

abbrev pub entries : List (String × BeNode) → BeDict
entries [] = end_dict
entries ((k, v) ∷ d) = entry k v (entries d)

-- be_create_dict with a be_add_keypair for each pair.
abbrev pub dict : List (String × BeNode) → BeNode
dict d = be_dict (entries d)

unfoldable pub create_ping_msg : BdToken → BdNodeId → BeNode
create_ping_msg tid id = dict (
    ("a", dict (("id", be_str id) ∷ []))
    ∷ ("q", be_str (chars "ping"))
    ∷ ("t", be_str tid)
    ∷ ("y", be_str (chars "q"))
    ∷ [])

unfoldable pub response_ping_msg : BdToken → BdNodeId → BdToken → BeNode
response_ping_msg tid id vid = dict (
    ("r", dict (("id", be_str id) ∷ []))
    ∷ ("t", be_str tid)
    ∷ ("y", be_str (chars "r"))
    ∷ ("v", be_str vid)
    ∷ [])

unfoldable pub find_node_msg : BdToken → BdNodeId → BdNodeId → BeNode
find_node_msg tid id target = dict (
    ("a", dict (("id", be_str id) ∷ ("target", be_str target) ∷ []))
    ∷ ("t", be_str tid)
    ∷ ("y", be_str (chars "q"))
    ∷ ("q", be_str (chars "find_node"))
    ∷ [])

unfoldable pub resp_node_msg : BdToken → BdNodeId → List BdId → BeNode
resp_node_msg tid id nodes = dict (
    ("t", be_str tid)
    ∷ ("y", be_str (chars "r"))
    ∷ ("r", dict (("id", be_str id) ∷ ("nodes", make_compact_id_list_string nodes) ∷ []))
    ∷ [])

unfoldable pub get_peers_msg : BdToken → BdNodeId → BdNodeId → BeNode
get_peers_msg tid id info_hash = dict (
    ("a", dict (("id", be_str id) ∷ ("info_hash", be_str info_hash) ∷ []))
    ∷ ("t", be_str tid)
    ∷ ("y", be_str (chars "q"))
    ∷ ("q", be_str (chars "get_peers"))
    ∷ [])

unfoldable pub peers_reply_hash_msg : BdToken → BdNodeId → BdToken → List (List ℕ) → BeNode
peers_reply_hash_msg tid id token values = dict (
    ("t", be_str tid)
    ∷ ("y", be_str (chars "r"))
    ∷ (
      "r",
      dict (
          ("id", be_str id)
          ∷ ("token", be_str token)
          ∷ ("values", make_compact_peer_ids values)
          ∷ []),
    )
    ∷ [])

unfoldable pub peers_reply_closest_msg : BdToken → BdNodeId → BdToken → List BdId → BeNode
peers_reply_closest_msg tid id token nodes = dict (
    ("t", be_str tid)
    ∷ ("y", be_str (chars "r"))
    ∷ (
      "r",
      dict (
          ("id", be_str id)
          ∷ ("token", be_str token)
          ∷ ("nodes", make_compact_id_list_string nodes)
          ∷ []),
    )
    ∷ [])

unfoldable pub announce_peers_msg : BdToken → BdNodeId → BdNodeId → ℕ → BdToken → BeNode
announce_peers_msg tid id info_hash port token = dict (
    (
      "a",
      dict (
          ("id", be_str id)
          ∷ ("info_hash", be_str info_hash)
          ∷ ("port", be_int port)
          ∷ ("token", be_str token)
          ∷ []),
    )
    ∷ ("q", be_str (chars "announce_peer"))
    ∷ ("t", be_str tid)
    ∷ ("y", be_str (chars "q"))
    ∷ [])

unfoldable pub reply_announce_msg : BdToken → BdNodeId → BeNode
reply_announce_msg tid id =
    dict (("r", dict (("id", be_str id) ∷ [])) ∷ ("t", be_str tid) ∷ ("y", be_str (chars "r")) ∷ [])

unfoldable pub ask_myip_msg : BdToken → BdNodeId → BeNode
ask_myip_msg tid id = dict (
    ("a", dict (("id", be_str id) ∷ []))
    ∷ ("q", be_str (chars "newconn"))
    ∷ ("t", be_str tid)
    ∷ ("y", be_str (chars "q"))
    ∷ [])

unfoldable pub reply_myip_msg : BdToken → BdNodeId → BdId → Bool → BeNode
reply_myip_msg tid id peer_id started = dict (
    (
      "r",
      dict (
          ("id", be_str id)
          ∷ ("newconn", be_str (chars "hello"))
          ∷ ("pid", make_compact_bd_id_string peer_id)
          ∷ []),
    )
    ∷ ("t", be_str tid)
    ∷ ("y", be_str (chars "r"))
    ∷ ("n", be_str (if started then chars "y" else chars "n"))
    ∷ [])

unfoldable pub broadcast_conn_msg : BdToken → BdNodeId → BdNodeId → BdNodeId → BeNode
broadcast_conn_msg tid id node_id peer_id = dict (
    ("a", dict (("id", be_str id) ∷ ("nid", be_str node_id) ∷ ("pid", be_str peer_id) ∷ []))
    ∷ ("q", be_str (chars "brconn"))
    ∷ ("t", be_str tid)
    ∷ ("y", be_str (chars "q"))
    ∷ [])

unfoldable pub ask_conn_msg : BdToken → BdNodeId → BdNodeId → BdId → BeNode
ask_conn_msg tid id node_id peer_id = dict (
    (
      "a",
      dict (
          ("id", be_str id)
          ∷ ("nid", be_str node_id)
          ∷ ("pid", make_compact_bd_id_string peer_id)
          ∷ []),
    )
    ∷ ("q", be_str (chars "askconn"))
    ∷ ("t", be_str tid)
    ∷ ("y", be_str (chars "q"))
    ∷ [])

unfoldable pub reply_conn_msg : BdToken → BdNodeId → Bool → BeNode
reply_conn_msg tid id started = dict (
    ("r", dict (("id", be_str id) ∷ ("askconn", be_str (chars "hello")) ∷ []))
    ∷ ("t", be_str tid)
    ∷ ("y", be_str (chars "r"))
    ∷ ("n", be_str (if started then chars "y" else chars "n"))
    ∷ [])

-- ===== src/Tests/Messages.antt =====
-- Tests for the messages.
use bitdht.Base.{ℕ, ◌^◌, ◌<◌, ◌≡◌, refl, ◌↔◌, none, [], ◌∷◌, arith}
use bitdht.Msgs.{
  BeNode, be_dict, be_str, end_dict, entry, chars, get_dict_node, msg_type, get_y, got, BdToken,
}
use bitdht.Msgs.Create.{ask_conn_msg}
use bitdht.Msgs.Create.Recognised.{a_conn_request}
use bitdht.Msgs.Compact.{encode_compact_peer_id}
use bitdht.Msgs.Compact.RoundTrip.{IsCompact}
use bitdht.Msgs.Crypt.{ecrypt}
use bitdht.Msgs.Faults.{ReadsNull, msg_type-ReadsNull}
use bitdht.Node.Receiving.{parse_node, in_ask_conn}
use bitdht.Node.Receiving.RoundTrip.{parse_node-built}
use bitdht.Node.{trans_id, decimal}
use bitdht.Tests.Data.{node, id_at, node-IsNodeId}
use bitdht.Tests.NodeData.{left}

abbrev token : BdToken
token = 48 ∷ 55 ∷ []

pub id_at-IsCompact :
    (b address port : ℕ)
    → b < 256
    → address < 2 ^ 32
    → port < 2 ^ 16
    → IsCompact (id_at b address port)
id_at-IsCompact b address port h k l = record {
  node_id = node-IsNodeId b h;
  addr = record { family = refl; addr = k; port = l };
}

parse_node-built_example :
    parse_node left (ask_conn_msg token (node 5) (node 6) (id_at 9 8 81))
    ≡ got (record { trans_id = token; id = node 5; body = in_ask_conn (node 6) (id_at 9 8 81) })
parse_node-built_example =
    parse_node-built left token (node 5) (a_conn_request (node 6) (id_at 9 8 81)) (omega arith) refl
      (refl, id_at-IsCompact 9 8 81 (omega arith) (omega arith) (omega arith))

-- A query of no kind.
abbrev no_kind : BeNode
no_kind = be_dict (entry "y" (be_str (chars "q")) end_dict)

msg_type-ReadsNull_example :
    (msg_type no_kind ≡ none) ↔ ReadsNull (get_dict_node no_kind "y") (get_dict_node no_kind "q")
msg_type-ReadsNull_example = msg_type-ReadsNull no_kind

no_kind_type : msg_type no_kind ≡ none
unfolding msg_type get_y get_dict_node
no_kind_type = refl

-- The address 1.2.3.4 with the port 80, in network order.
compact_address :
    encode_compact_peer_id (id_at 5 0x04030201 0x5000).addr ≡ 1 ∷ 2 ∷ 3 ∷ 4 ∷ 0 ∷ 80 ∷ []
unfolding encode_compact_peer_id
compact_address = refl

-- The checksum is 3 + 100 + 101 + 102, and 200 stands for -56.
encrypted :
    ecrypt (100 ∷ 101 ∷ 102 ∷ []) 1000 7 ≡ 100 ∷ 101 ∷ 102 ∷ 50 ∷ 1 ∷ 0 ∷ 0 ∷ 7 ∷ 0 ∷ 0 ∷ 0 ∷ []
unfolding ecrypt
encrypted = refl

encrypted_signed : ecrypt (100 ∷ 200 ∷ []) 1000 7 ≡ 100 ∷ 200 ∷ 46 ∷ 0 ∷ 0 ∷ 0 ∷ 7 ∷ 0 ∷ 0 ∷ 0 ∷ []
unfolding ecrypt
encrypted_signed = refl

two_digits : trans_id 7 ≡ 48 ∷ 55 ∷ []
unfolding trans_id decimal
two_digits = refl

four_digits : trans_id 1203 ≡ 49 ∷ 50 ∷ 48 ∷ 51 ∷ []
unfolding trans_id decimal
four_digits = refl

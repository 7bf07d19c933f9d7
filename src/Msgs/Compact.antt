-- ===== src/Msgs/Compact.antt =====
-- The compact forms of bitdht/bdmsgs.cc: 26 bytes for an id and its address, 6 for an address alone. The words are
-- copied as they stand in memory, the low byte first.

pub mod RoundTrip
use bitdht.Base.{
  ℕ, zero, suc, ◌+◌, ◌*◌, ◌/◌, ◌%◌, ◌^◌, Bool, true, false, Option, none, some, List, [], ◌∷◌, ◌++◌,
  map, ltb, if◌then◌else◌, length, take, drop, get_or,
}
use bitdht.Peer.{BdNodeId, SockaddrIn, BdId, af_inet, key_len}
use bitdht.Msgs.{
  BeNode, BeList, be_str, be_int, be_list, be_dict, end_list, item, Field, undefined, refused, got,
}

abbrev pub compact_node_id_len : ℕ
compact_node_id_len = 26

abbrev pub compact_peer_id_len : ℕ
compact_peer_id_len = 6

unfoldable pub encode_compact_peer_id : SockaddrIn → List ℕ
encode_compact_peer_id addr =
    (addr.s_addr % 256)
    ∷ (addr.s_addr / 256 % 256)
    ∷ (addr.s_addr / 65536 % 256)
    ∷ (addr.s_addr / 16777216 % 256)
    ∷ (addr.sin_port % 256)
    ∷ (addr.sin_port / 256 % 256)
    ∷ []

unfoldable pub decode_compact_peer_id : List ℕ → Option SockaddrIn
decode_compact_peer_id (a ∷ b ∷ c ∷ d ∷ p ∷ q ∷ rest) = some (record {
  sin_family = af_inet;
  s_addr = a + 256 * b + 65536 * c + 16777216 * d;
  sin_port = p + 256 * q;
})
decode_compact_peer_id enc = none

unfoldable pub encode_compact_node_id : BdId → List ℕ
encode_compact_node_id id = id.id ++ encode_compact_peer_id id.addr

abbrev pub with_addr : BdNodeId → Option SockaddrIn → Option BdId
with_addr id none = none
with_addr id (some addr) = some (record { addr = addr; id = id })

unfoldable pub decode_compact_node_id : List ℕ → Option BdId
decode_compact_node_id enc =
    if ltb (length enc) compact_node_id_len
    then none
    else with_addr (take key_len enc) (decode_compact_peer_id (drop key_len enc))

unfoldable pub make_compact_bd_id_string : BdId → BeNode
make_compact_bd_id_string id = be_str (take compact_node_id_len (encode_compact_node_id id))

-- The loop that joins the forms.
abbrev pub compact_ids : List BdId → List ℕ
compact_ids [] = []
compact_ids (id ∷ ids) = encode_compact_node_id id ++ compact_ids ids

unfoldable pub make_compact_id_list_string : List BdId → BeNode
make_compact_id_list_string nodes =
    be_str (take (compact_node_id_len * length nodes) (compact_ids nodes))

abbrev pub string_nodes : List (List ℕ) → BeList
string_nodes [] = end_list
string_nodes (v ∷ vs) = item (be_str v) (string_nodes vs)

unfoldable pub make_compact_peer_ids : List (List ℕ) → BeNode
make_compact_peer_ids values = be_list (string_nodes values)

abbrev pub id_field : Option BdId → Field BdId
id_field none = refused
id_field (some id) = got id

unfoldable pub get_bd_id : BeNode → Field BdId
get_bd_id (be_str s) = id_field (decode_compact_node_id s)
get_bd_id n = refused

abbrev pub push_decoded : Option BdId → List BdId → List BdId
push_decoded none ids = ids
push_decoded (some id) ids = id ∷ ids

-- `count` ids stand one after the other.
abbrev pub split_ids : ℕ → List ℕ → List BdId
split_ids zero enc = []
split_ids (suc count) enc =
    push_decoded (decode_compact_node_id (take compact_node_id_len enc))
      (split_ids count (drop compact_node_id_len enc))

unfoldable pub get_list_bd_ids : BeNode → Field (List BdId)
get_list_bd_ids (be_str s) = got (split_ids (length s / compact_node_id_len) s)
get_list_bd_ids n = refused

-- The strings before the first item that is none are kept in the caller's list, which is the second part.
abbrev pub strings_of : BeList → Bool × List (List ℕ)
strings_of end_list = (true, [])
strings_of (item (be_str s) l) = let rest = strings_of l in (rest.0, s ∷ rest.1)
strings_of (item (be_int i) l) = (false, [])
strings_of (item (be_list k) l) = (false, [])
strings_of (item (be_dict d) l) = (false, [])

unfoldable pub get_list_strings : BeNode → Bool × List (List ℕ)
get_list_strings (be_list l) = strings_of l
get_list_strings n = (false, [])

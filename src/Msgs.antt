-- ===== src/Msgs.antt =====
-- The messages of bitdht/bdmsgs.h and bitdht/bdmsgs.cc: how the fields of a bencoded dictionary are read, and how
-- the type of a message is found. A be_node is the structure of bitdht/bencode.h; a string is the list of its
-- bytes, an integer is the 64 bits of a `long long`.
pub mod Compact
pub mod Create
pub mod Crypt
pub mod Faults
use Prim.Native.Char.{code}
use Prim.Native.String.{String}
use text.Mathlib.Text.{◌==◌ as str_eq}
use bitdht.Base.{
  ℕ, zero, suc, ◌+◌, ◌%◌, ◌^◌, Bool, true, false, ◌&&◌, Option, none, some, List, [], ◌∷◌, ltb,
  ◌==◌, if◌then◌else◌, length,
}
use bitdht.Peer.{BdNodeId, key_len}

mutual
  pub data BeNode : Type 0 where
    be_str : List ℕ → BeNode
    be_int : ℕ → BeNode
    be_list : BeList → BeNode
    be_dict : BeDict → BeNode

  pub data BeList : Type 0 where
    end_list : BeList
    item : BeNode → BeList → BeList

  pub data BeDict : Type 0 where
    end_dict : BeDict
    entry : String → BeNode → BeDict → BeDict

-- The bytes of a C string.
abbrev pub chars : String → List ℕ
chars String.[] = []
chars (String.◌∷◌ c s) = code c ∷ chars s

-- BITDHT_TOKEN_MAX_LEN, and a bdToken or bdVersion: the first `len` bytes of its array.
abbrev pub token_max_len : ℕ
token_max_len = 20

abbrev pub BdToken : Type 0
BdToken = List ℕ

-- BITDHT_MSG_TYPE.
pub data MsgType : Type 0 where
  unknown ping pong find_node reply_node get_hash reply_hash reply_near post_hash reply_post newconn
        reply_newconn broadcast_conn ask_conn reply_conn :
      MsgType

-- BE_Y_UNKNOWN, BE_Y_R and BE_Y_Q.
pub data BeY : Type 0 where
  y_unknown y_r y_q : BeY

abbrev pub dict_find : String → BeDict → Option BeNode
dict_find key end_dict = none
dict_find key (entry k v d) = if str_eq key k then some v else dict_find key d

-- `none` is the null pointer.
unfoldable pub get_dict_node : BeNode → String → Option BeNode
get_dict_node (be_dict d) key = dict_find key d
get_dict_node n key = none

abbrev pub same_bytes : List ℕ → List ℕ → Bool
same_bytes [] [] = true
same_bytes [] (y ∷ ys) = false
same_bytes (x ∷ xs) [] = false
same_bytes (x ∷ xs) (y ∷ ys) = (x == y) && same_bytes xs ys

-- `len` is the length of the text at every call.
unfoldable pub match_string : BeNode → List ℕ → Bool
match_string (be_str s) str = same_bytes s str
match_string n str = false

-- The first byte of a string, which a 0 ends.
abbrev pub y_of : BeNode → BeY
y_of (be_str []) = y_unknown
y_of (be_str (c ∷ s)) = if c == b'q' then y_q else if c == b'r' then y_r else y_unknown
y_of n = y_unknown

abbrev pub y_found : Option BeNode → Option BeY
y_found none = none
y_found (some val) = some (y_of val)

-- `none` is undefined behaviour: the type of the null pointer is read.
unfoldable pub get_y : BeNode → Option BeY
get_y n = y_found (get_dict_node n "y")

abbrev pub query_type : BeNode → MsgType
query_type query =
    if match_string query (chars "ping")
    then ping
    else if match_string query (chars "find_node")
    then find_node
    else if match_string query (chars "get_peers")
    then get_hash
    else if match_string query (chars "announce_peer")
    then post_hash
    else if match_string query (chars "announce_peer")
    then post_hash
    else if match_string query (chars "newconn")
    then newconn
    else if match_string query (chars "brconn")
    then broadcast_conn
    else if match_string query (chars "askconn")
    then ask_conn
    else unknown

abbrev pub query_found : Option BeNode → Option MsgType
query_found none = none
query_found (some query) = some (query_type query)

abbrev pub is_node : Option BeNode → Bool
is_node none = false
is_node (some n) = true

abbrev pub reply_type : BeNode → MsgType
reply_type reply =
    let token = is_node (get_dict_node reply "token") in
    let values = is_node (get_dict_node reply "values") in
    let nodes = is_node (get_dict_node reply "nodes") in
    let newconn_node = is_node (get_dict_node reply "newconn") in
    let askconn = is_node (get_dict_node reply "askconn") in
    if is_node (get_dict_node reply "id")
    then if token && values
      then reply_hash
      else if token && nodes
      then reply_near
      else if nodes
      then reply_node
      else if newconn_node
      then reply_newconn
      else if askconn
      then reply_conn
      else pong
    else unknown

abbrev pub reply_found : Option BeNode → Option MsgType
reply_found none = some unknown
reply_found (some reply) = some (reply_type reply)

abbrev pub type_by : BeNode → Option BeY → Option MsgType
type_by n none = none
type_by n (some y_unknown) = some unknown
type_by n (some y_q) = query_found (get_dict_node n "q")
type_by n (some y_r) = reply_found (get_dict_node n "r")

-- `none` is undefined behaviour: a message with no "y", or a query with no "q", reads the null pointer.
unfoldable pub msg_type : BeNode → Option MsgType
msg_type n = type_by n (get_y n)

-- What the readers of fields give. `undefined` is undefined behaviour, `refused` is the return value 0, with
-- which the caller's variable keeps what it held.
pub data Field {ℓ} (A : Type ℓ) : Type ℓ where
  undefined refused : Field A
  got : A → Field A

-- The copy runs past the array of the token where the string is longer.
unfoldable pub get_token : BeNode → Field BdToken
get_token (be_str s) = if ltb token_max_len (length s) then undefined else got s
get_token n = refused

unfoldable pub get_node_id : BeNode → Field BdNodeId
get_node_id (be_str s) = if length s == key_len then got s else refused
get_node_id n = refused

unfoldable pub get_uint32 : BeNode → Field ℕ
get_uint32 (be_int i) = got (i % 2 ^ 32)
get_uint32 n = refused

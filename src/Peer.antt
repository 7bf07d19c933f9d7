-- ===== src/Peer.antt =====
-- bitdht/bdiface.h and the head of bitdht/bdpeer.cc: node ids, addresses, ids and peers, and the
-- comparison operators over them. A node id, and a metric, is the list of its bytes.
pub mod Order
use bitdht.Base.{
  ℕ, ◌+◌, ◌*◌, ◌^◌, ◌<◌, ◌≡◌, Bool, true, false, ◌&&◌, List, [], ◌∷◌, ltb, ◌==◌, if◌then◌else◌,
  length, replicate, All,
}

abbrev pub key_len : ℕ
key_len = 20

abbrev pub BdNodeId : Type 0
BdNodeId = List ℕ

abbrev pub BdMetric : Type 0
BdMetric = List ℕ

abbrev pub IsByte : ℕ → Type 0
IsByte b = b < 256

-- The array has twenty bytes.
pub record IsNodeId (n : BdNodeId) : Type 0 where
  pub len : length n ≡ key_len
  pub bytes : All IsByte n

-- The number that the bytes spell, most significant first.
abbrev pub value : List ℕ → ℕ
value [] = 0
value (b ∷ bs) = b * 256 ^ length bs + value bs

-- The address and the port stand in network byte order, as in the C structure.
pub record SockaddrIn : Type 0 where
  pub sin_family : ℕ
  pub s_addr : ℕ
  pub sin_port : ℕ

pub record BdId : Type 0 where
  pub addr : SockaddrIn
  pub id : BdNodeId

pub record BdPeer : Type 0 where
  pub peer_id : BdId
  pub peer_flags : ℕ
  pub last_send_time : ℕ
  pub last_recv_time : ℕ
  pub found_time : ℕ

abbrev pub af_inet : ℕ
af_inet = 2

abbrev pub bd_sock_addr_init : SockaddrIn
bd_sock_addr_init = record { sin_family = af_inet; s_addr = 0; sin_port = 0 }

-- The default constructors of bdId and bdPeer.
abbrev pub blank_id : BdId
blank_id = record { addr = bd_sock_addr_init; id = replicate key_len 0 }

abbrev pub blank_peer : BdPeer
blank_peer = record {
  peer_id = blank_id;
  peer_flags = 0;
  last_send_time = 0;
  last_recv_time = 0;
  found_time = 0;
}

-- Writes the five zero words, which are the twenty bytes.
abbrev pub zero_node_id : BdNodeId
zero_node_id = replicate key_len 0

-- The loop over the bytes of two arrays of one length.
unfoldable pub node_id_lt : BdNodeId → BdNodeId → Bool
node_id_lt [] ys = false
node_id_lt (x ∷ xs) [] = false
node_id_lt (x ∷ xs) (y ∷ ys) = if ltb x y then true else if ltb y x then false else node_id_lt xs ys

unfoldable pub node_id_eq : BdNodeId → BdNodeId → Bool
node_id_eq [] ys = true
node_id_eq (x ∷ xs) [] = true
node_id_eq (x ∷ xs) (y ∷ ys) =
    if ltb x y then false else if ltb y x then false else node_id_eq xs ys

-- The second test on the addresses is the first one again, as in the source.
unfoldable pub id_lt : BdId → BdId → Bool
id_lt a b =
    if node_id_lt a.id b.id
    then true
    else if node_id_lt b.id a.id
    then false
    else if ltb a.addr.s_addr b.addr.s_addr
    then true
    else if ltb a.addr.s_addr b.addr.s_addr
    then false
    else if ltb a.addr.sin_port b.addr.sin_port
    then true
    else false

unfoldable pub id_eq : BdId → BdId → Bool
id_eq a b =
    if node_id_eq a.id b.id
    then (a.addr.s_addr == b.addr.s_addr) && (a.addr.sin_port == b.addr.sin_port)
    else false

-- ===== src/Manager/Clients.antt =====
-- The clients of bdNodeManager in bitdht/bdmanager.cc: the list of callback objects, what each is told, and the test by
-- which the UDP layer finds the datagrams of the DHT.
pub mod Packets
use mathlib.Core.Option
use bitdht.Base.{
  ℕ, Bool, true, false, not, ◌||◌, Option, none, some, List, [], ◌∷◌, ◌++◌, map, ltb, ◌==◌,
  if◌then◌else◌, any,
}
use bitdht.Peer.{BdNodeId, BdId, BdPeer}
use bitdht.Msgs.{BeNode, MsgType, unknown, msg_type}
use bitdht.Node.{World, Node}
use bitdht.Node.Peers

-- The address of a callback object.
abbrev pub Client : Type 0
Client = ℕ

-- A call of dhtNodeCallback, dhtPeerCallback or dhtValueCallback.
pub data ClientCall : Type 0 where
  node_callback : Client → BdId → ℕ → ClientCall
  peer_callback : Client → BdPeer → ℕ → ClientCall
  value_callback : Client → BdNodeId → List ℕ → ℕ → ClientCall

unfoldable pub add_callback : List Client → Client → List Client
add_callback callbacks cb = if any (λ c. c == cb) callbacks then callbacks else callbacks ++ cb ∷ []

unfoldable pub remove_callback : List Client → Client → List Client
remove_callback [] cb = []
remove_callback (c ∷ callbacks) cb =
    let rest = c ∷ remove_callback callbacks cb in if c == cb then callbacks else rest

unfoldable pub do_node_callback : List Client → BdId → ℕ → List ClientCall
do_node_callback callbacks id flags = map (λ c. node_callback c id flags) callbacks

unfoldable pub do_peer_callback : List Client → BdPeer → ℕ → List ClientCall
do_peer_callback callbacks peer status = map (λ c. peer_callback c peer status) callbacks

unfoldable pub do_value_callback : List Client → BdNodeId → List ℕ → ℕ → List ClientCall
do_value_callback callbacks id key status = map (λ c. value_callback c id key status) callbacks

-- The manager's own addPeer: its clients are told first.
unfoldable pub add_peer : World → List Client → Node → BdId → ℕ → List ClientCall × Option Node
add_peer w callbacks n id flags = (do_node_callback callbacks id flags, Peers.add_peer w n id flags)

abbrev pub is_known : MsgType → Bool
is_known unknown = false
is_known _ = true

abbrev pub decoded_known : Option BeNode → Option Bool
decoded_known none = some false
decoded_known (some n) = Option.map is_known (msg_type n)

-- `none` is undefined behaviour.
unfoldable pub is_bitdht_packet : World → List ℕ → Option Bool
is_bitdht_packet w bytes = decoded_known (w.be_decoden bytes)

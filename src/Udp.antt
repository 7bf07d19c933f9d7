-- ===== src/Udp.antt =====
-- UdpBitDht, UdpTunnel and UdpStack of udp/udpbitdht.cc, udp/udptunnel.cc and udp/udpstack.cc: which receiver a datagram
-- goes to, and how the messages of a node go out. Their mutexes make each call a step of its own.
pub mod Ticks
pub mod Delivery
use bitdht.Base.{
  ℕ, zero, suc, Bool, true, false, Option, none, some, List, [], ◌∷◌, ◌++◌, ◌==◌, if◌then◌else◌,
  length, any,
}
use bitdht.Peer.{SockaddrIn}
use bitdht.Manager.Clients
use bitdht.Node
use bitdht.Node.{World, NetMsg}
use bitdht.Tunnel
use bitdht.Tunnel.{TunnelNode}
use bitdht.Tunnel.Manager
use bitdht.Tunnel.Manager.{TunnelManager}

-- BITDHT_MAX_PKTSIZE and MAX_MSG_PER_TICK.
abbrev pub max_pktsize : ℕ
max_pktsize = 1024

abbrev pub max_msg_per_tick : ℕ
max_msg_per_tick = 100

-- A receiver: a UdpBitDht, of whose manager the node counts here, or a UdpTunnel.
pub data Receiver : Type 0 where
  a_bitdht : Node.Node → Receiver
  a_tunnel : TunnelManager → Receiver

abbrev pub with_node : TunnelManager → TunnelNode → TunnelManager
with_node m n = record m { node = n }

-- What recvPkt does with the verdict of isBitDhtPacket: it takes the datagram, or leaves all as it was.
abbrev pub accepted : Receiver → Receiver → Option Bool → Option (Receiver × Bool)
accepted before after none = none
accepted before after (some true) = some (after, true)
accepted before after (some false) = some (before, false)

-- The receivers with their addresses.
abbrev pub Receivers : Type 0
Receivers = List (ℕ × Receiver)

unfoldable pub add_receiver : Receivers → ℕ → Receiver → Receivers × Bool
add_receiver rs recv r =
    if any (λ e. e.0 == recv) rs then (rs, false) else (rs ++ (recv, r) ∷ [], true)

unfoldable pub remove_receiver : Receivers → ℕ → Receivers × Bool
remove_receiver [] recv = ([], false)
remove_receiver (e ∷ rs) recv =
    let rest = remove_receiver rs recv in if e.0 == recv then (rs, true) else (e ∷ rest.0, rest.1)

module _ (w : World) where
  -- UdpBitDht::recvPkt and UdpTunnel::recvPkt; `none` is undefined behaviour.
  unfoldable pub receive : Receiver → SockaddrIn → List ℕ → Option (Receiver × Bool)
  receive (a_bitdht n) addr bytes =
      accepted (a_bitdht n) (a_bitdht (Node.incoming_msg n addr bytes))
        (Clients.is_bitdht_packet w bytes)
  receive (a_tunnel m) addr bytes =
      accepted (a_tunnel m) (a_tunnel (with_node m (Tunnel.incoming_msg m.node addr bytes)))
        (Manager.is_bitdht_packet w bytes)

  abbrev pub put_front : ℕ × Receiver → Option Receivers → Option Receivers
  put_front e none = none
  put_front e (some rs) = some (e ∷ rs)

  -- The loop stops at the first receiver that takes the datagram.
  abbrev pub offer_on :
      ℕ → Receivers → Option Receivers → Option (Receiver × Bool) → Option Receivers
  offer_on recv rs rest none = none
  offer_on recv rs rest (some (r, true)) = some ((recv, r) ∷ rs)
  offer_on recv rs rest (some (r, false)) = put_front (recv, r) rest

  unfoldable pub stack_recv_pkt : Receivers → SockaddrIn → List ℕ → Option Receivers
  stack_recv_pkt [] addr bytes = some []
  stack_recv_pkt ((recv, r) ∷ rs) addr bytes =
      offer_on recv rs (stack_recv_pkt rs addr bytes) (receive r addr bytes)

-- The loop of tick on what outgoingMsg gives, with the messages that are sent.
module _ {A : Type 0} (out : A → ℕ → A × Option NetMsg) where
  abbrev pub sent_then : (A → A × List NetMsg) → A × Option NetMsg → A × List NetMsg
  sent_then next (a, none) = (a, [])
  sent_then next (a, some m) = let rest = next a in (rest.0, m ∷ rest.1)

  unfoldable pub tick_loop : ℕ → A → A × List NetMsg
  tick_loop zero a = (a, [])
  tick_loop (suc allowed) a = sent_then (tick_loop allowed) (out a max_pktsize)

  -- The messages sent, and whether there may be more.
  unfoldable pub tick : A → A × List NetMsg × Bool
  tick a =
      let (a', sent) = tick_loop max_msg_per_tick a in (a', sent, length sent == max_msg_per_tick)

  abbrev pub sent_before : List NetMsg → Option (A × List NetMsg) → Option (A × List NetMsg)
  sent_before sent none = none
  sent_before sent (some (a, later)) = some (a, sent ++ later)

  abbrev pub tick_again :
      (A → Option (A × List NetMsg)) → A × List NetMsg × Bool → Option (A × List NetMsg)
  tick_again next (a, sent, true) = sent_before sent (next a)
  tick_again next (a, sent, false) = some (a, sent)

  -- The loop `while(tick())` of run, where nothing else calls the node meanwhile; `none` if the fuel runs out.
  unfoldable pub ticks : ℕ → A → Option (A × List NetMsg)
  ticks zero a = none
  ticks (suc fuel) a = tick_again (ticks fuel) (tick a)

-- ===== src/Tests/UdpStacks.antt =====
-- Tests for the UDP stack: a node with two messages to send, and a stack of a UdpBitDht before a UdpTunnel.
use bitdht.Base.{◌≡◌, some, List, [], ◌∷◌, map}
use bitdht.Msgs.Create.{create_ping_msg}
use bitdht.Manager.Clients.{is_bitdht_packet}
use bitdht.Node
use bitdht.Node.{Node, NetMsg}
use bitdht.Udp.{a_bitdht, a_tunnel, Receivers, stack_recv_pkt, ticks}
use bitdht.Udp.Ticks.{cut, ticks_send_all}
use bitdht.Udp.Delivery.{first_takes, stack_recv_pkt-first_takes}
use bitdht.Tests.Data.{node, id_at}
use bitdht.Tests.NodeData.{world, small_node, datagram}
use bitdht.Tests.Tunnels.{fresh_manager}

abbrev two_msgs : List NetMsg
two_msgs = datagram ∷ record { bytes = 7 ∷ []; addr = (id_at 6 7 80).addr } ∷ []

abbrev sender_node : Node
sender_node = record small_node { outgoing_msgs = two_msgs }

ticks_send_all_example :
    ticks Node.outgoing_msg 3 sender_node
    ≡ some (record sender_node { outgoing_msgs = [] }, map cut two_msgs)
ticks_send_all_example = ticks_send_all sender_node

abbrev behind : Receivers
behind = (2, a_tunnel fresh_manager) ∷ []

stack_recv_pkt-first_takes_example :
    stack_recv_pkt
      (world (some (create_ping_msg (48 ∷ 55 ∷ []) (node 5))) 300)
      ((1, a_bitdht small_node) ∷ behind)
      datagram.addr
      datagram.bytes
    ≡ first_takes 1 (a_bitdht small_node) behind datagram.addr datagram.bytes (
        is_bitdht_packet
          (world (some (create_ping_msg (48 ∷ 55 ∷ []) (node 5))) 300)
          datagram.bytes)
stack_recv_pkt-first_takes_example =
    stack_recv_pkt-first_takes (world (some (create_ping_msg (48 ∷ 55 ∷ []) (node 5))) 300)
      datagram.addr datagram.bytes 1 (a_bitdht small_node) behind

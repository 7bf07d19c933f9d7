-- ===== src/Manager/Clients/Packets.antt =====
-- The test isBitDhtPacket of bitdht/bdmanager.cc beside recvPkt of bitdht/bdnode.cc.
use mathlib.Core.Option
use bitdht.Base.{◌≡◌, ◌≢◌, refl, ap, true, false, Option, none, some, inl, inr, Bool-cases}
use bitdht.Msgs.{
  BeNode, MsgType, unknown, ping, pong, find_node, reply_node, get_hash, reply_hash, reply_near,
  post_hash, reply_post, newconn, reply_newconn, broadcast_conn, ask_conn, reply_conn, msg_type,
  refused,
}
use bitdht.Node.{World, Node, NetMsg, Leftovers}
use bitdht.Node.BlackList.{is_member_of_black_list}
use bitdht.Node.Receiving.{recv_pkt, on_packet, parse_node, required, known_type, ◌>>=◌}
use bitdht.Manager.Clients.{is_bitdht_packet, decoded_known, is_known}

known_type-unknown : (t : MsgType) → is_known t ≢ true → known_type (some t) ≡ refused
known_type-unknown unknown h = refl
known_type-unknown ping h = absurd (h refl)
known_type-unknown pong h = absurd (h refl)
known_type-unknown find_node h = absurd (h refl)
known_type-unknown reply_node h = absurd (h refl)
known_type-unknown get_hash h = absurd (h refl)
known_type-unknown reply_hash h = absurd (h refl)
known_type-unknown reply_near h = absurd (h refl)
known_type-unknown post_hash h = absurd (h refl)
known_type-unknown reply_post h = absurd (h refl)
known_type-unknown newconn h = absurd (h refl)
known_type-unknown reply_newconn h = absurd (h refl)
known_type-unknown broadcast_conn h = absurd (h refl)
known_type-unknown ask_conn h = absurd (h refl)
known_type-unknown reply_conn h = absurd (h refl)

not_known : (t : MsgType) → is_known t ≢ true → is_known t ≡ false
not_known t h = elim (Bool-cases (is_known t)) [ inl e ↦ absurd (h e) | inr e ↦ e ]

typed-as_tested :
    (w : World) (left : Leftovers) (n : Node) (m : NetMsg) (d : BeNode) (t : Option MsgType)
    → msg_type d ≡ t
    → Option.map is_known t ≢ some true
    → on_packet w n m.addr m.bytes (parse_node left d) ≡ Option.map (λ b. n) (Option.map is_known t)
unfolding parse_node
typed-as_tested w left n m d none e h = rw e refl
typed-as_tested w left n m d (some t) e h = rw (e, known_type-unknown t (λ k. h (ap some k))) refl

received-as_tested :
    (w : World) (left : Leftovers) (n : Node) (m : NetMsg) (d : Option BeNode)
    → decoded_known d ≢ some true
    → on_packet w n m.addr m.bytes (required d >>= parse_node left)
      ≡ Option.map (λ b. n) (decoded_known d)
received-as_tested w left n m none h = refl
received-as_tested w left n m (some d) h = typed-as_tested w left n m d (msg_type d) refl h

-- A datagram that isBitDhtPacket does not accept, from a sender that is not on the black list, leaves the node that receives
-- it as it was, if the test refuses it, and is undefined behaviour there, if the test is.
pub recv_pkt-is_bitdht_packet :
    (w : World) (left : Leftovers) (n : Node) (m : NetMsg)
    → is_member_of_black_list n m.addr ≡ false
    → is_bitdht_packet w m.bytes ≢ some true
    → recv_pkt w left n m ≡ Option.map (λ b. n) (is_bitdht_packet w m.bytes)
unfolding recv_pkt is_bitdht_packet
recv_pkt-is_bitdht_packet w left n m fresh h =
    rw fresh (received-as_tested w left n m (w.be_decoden m.bytes) h)

-- ===== src/Udp/Delivery.antt =====
-- Which receivers of a UdpStack of udp/udpstack.cc get a datagram.
use bitdht.Base.{ℕ, ◌≡◌, refl, ◌⊎◌, inl, inr, Bool, true, false, Option, none, some, List, [], ◌∷◌}
use bitdht.Peer.{SockaddrIn}
use bitdht.Manager.Clients
use bitdht.Manager.Clients.{decoded_known}
use bitdht.Tunnel
use bitdht.Tunnel.Manager
use bitdht.Node
use bitdht.Node.{World}
use bitdht.Udp.{
  Receiver, a_bitdht, a_tunnel, Receivers, with_node, accepted, receive, stack_recv_pkt,
}

-- The receiver with the datagram at the end of its incoming messages.
abbrev pub with_datagram : Receiver → SockaddrIn → List ℕ → Receiver
with_datagram (a_bitdht n) addr bytes = a_bitdht (Node.incoming_msg n addr bytes)
with_datagram (a_tunnel m) addr bytes =
    a_tunnel (with_node m (Tunnel.incoming_msg m.node addr bytes))

-- What the verdict on the datagram makes of a stack.
abbrev pub first_takes :
    ℕ → Receiver → Receivers → SockaddrIn → List ℕ → Option Bool → Option Receivers
first_takes recv r rs addr bytes none = none
first_takes recv r rs addr bytes (some true) = some ((recv, with_datagram r addr bytes) ∷ rs)
first_takes recv r rs addr bytes (some false) = some ((recv, r) ∷ rs)

module _ (w : World) (addr : SockaddrIn) (bytes : List ℕ) where
  receive_lem :
      (r : Receiver)
      → receive w r addr bytes
        ≡ accepted r (with_datagram r addr bytes) (Clients.is_bitdht_packet w bytes)
  unfolding receive Clients.is_bitdht_packet Manager.is_bitdht_packet
  receive_lem (a_bitdht n) = refl
  receive_lem (a_tunnel m) = refl

  refused_by_all :
      (rs : Receivers)
      → Clients.is_bitdht_packet w bytes ≡ some false
      → stack_recv_pkt w rs addr bytes ≡ some rs
  unfolding stack_recv_pkt
  refused_by_all [] h = refl
  refused_by_all ((recv, r) ∷ rs) h = rw (receive_lem r, h, refused_by_all rs h) refl

  verdict_cases : (o : Option Bool) → (o ≡ none) ⊎ ((o ≡ some true) ⊎ (o ≡ some false))
  verdict_cases none = inl refl
  verdict_cases (some true) = inr (inl refl)
  verdict_cases (some false) = inr (inr refl)

  -- Of the receivers on a stack only the first ever gets a datagram, since all put it to the same test: the first takes it
  -- if it passes, no receiver changes if it does not, and the whole is undefined behaviour if the test is.
  pub stack_recv_pkt-first_takes :
      (recv : ℕ) (r : Receiver) (rs : Receivers)
      → stack_recv_pkt w ((recv, r) ∷ rs) addr bytes
        ≡ first_takes recv r rs addr bytes (Clients.is_bitdht_packet w bytes)
  unfolding stack_recv_pkt
  stack_recv_pkt-first_takes recv r rs = elim (verdict_cases (Clients.is_bitdht_packet w bytes)) [
    | inl e ↦ rw (receive_lem r, e) refl
    | inr (inl e) ↦ rw (receive_lem r, e) refl
    | inr (inr e) ↦ rw (receive_lem r, e, refused_by_all rs e) refl
  ]

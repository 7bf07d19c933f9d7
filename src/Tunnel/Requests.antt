-- ===== src/Tunnel/Requests.antt =====
-- What bdTunnelNode::iteration of bitdht/bdtunnelnode.cc sends to the tunnels on its list, and what the calls of
-- bdTunnelManager in bitdht/bdtunnelmanager.cc make of that list.
use mathlib.Core.List.{append_assoc, append-nil}
use bitdht.Base.{
  ℕ, ◌+◌, ◌%◌, ◌^◌, ◌≡◌, refl, sym, ap, subst, ◌∙◌, some, List, [], ◌∷◌, ◌++◌, length,
}
use bitdht.Peer.{BdNodeId, BdId}
use bitdht.Msgs.Create.{ask_myip_msg}
use bitdht.Node.{World, NetMsg, trans_id}
use bitdht.Node.Iteration.{◌>>=◌}
use bitdht.Tunnel.{TunnelNode, gen_new_trans_id, msgout_newconn, send_pkt}
use bitdht.Tunnel.Receiving.{
  Received, asks, replies, unhandled, TunnelPacket, handle, on_packet, receive_all, recv_pkt,
  ask_tunnels, ask_all,
}
use bitdht.Tunnel.Receiving

-- The transactions that follow one another.
abbrev pub next_count : ℕ → ℕ
next_count counter = (counter + 1) % 2 ^ 64

abbrev pub later : ℕ → List BdId → ℕ
later counter [] = counter
later counter (id ∷ ids) = later (next_count counter) ids

module _ (w : World) where
  -- A request to each peer of a list, in its order.
  abbrev pub requests : BdNodeId → ℕ → List BdId → List NetMsg
  requests own_id counter [] = []
  requests own_id counter (id ∷ ids) =
      record { bytes = w.be_encode (ask_myip_msg (trans_id counter) own_id); addr = id.addr }
      ∷ requests own_id (next_count counter) ids

  ask_tunnels-append :
      (n : TunnelNode) (xs ys : List BdId)
      → ask_tunnels w (length xs) (record n { tunnel_requests = xs ++ ys }) ≡ record n {
        tunnel_requests = ys ++ xs;
        outgoing_msgs = n.outgoing_msgs ++ requests n.own_id n.trans_id_counter xs;
        trans_id_counter = later n.trans_id_counter xs;
      }
  unfolding ask_tunnels gen_new_trans_id msgout_newconn send_pkt
  ask_tunnels-append n [] ys = rw (append-nil ys, append-nil n.outgoing_msgs) refl
  ask_tunnels-append n (x ∷ xs) ys =
      let asked : TunnelNode = record n {
        outgoing_msgs =
            n.outgoing_msgs
            ++ record {
              bytes = w.be_encode (ask_myip_msg (trans_id n.trans_id_counter) n.own_id);
              addr = x.addr;
            }
              ∷ [];
        trans_id_counter = next_count n.trans_id_counter;
      } in
      ap (λ ids. ask_tunnels w (length xs) (record asked { tunnel_requests = ids }))
        (append_assoc xs ys (x ∷ []))
      ∙ ask_tunnels-append asked xs (ys ++ x ∷ [])
      ∙ simp append_assoc refl

  pub ask_all_lem :
      (n : TunnelNode)
      → ask_all w n ≡ record n {
        outgoing_msgs = n.outgoing_msgs ++ requests n.own_id n.trans_id_counter n.tunnel_requests;
        trans_id_counter = later n.trans_id_counter n.tunnel_requests;
      }
  ask_all_lem n =
      subst
        (λ ids.
          ask_tunnels w (length n.tunnel_requests) (record n { tunnel_requests = ids }) ≡ record n {
            outgoing_msgs =
                n.outgoing_msgs ++ requests n.own_id n.trans_id_counter n.tunnel_requests;
            trans_id_counter = later n.trans_id_counter n.tunnel_requests;
          })
        (append-nil n.tunnel_requests) (ask_tunnels-append n n.tunnel_requests [])

  nothing_arrived :
      (n : TunnelNode) → n.incoming_msgs ≡ [] → receive_all w 0 n.incoming_msgs n ≡ some n
  unfolding receive_all
  nothing_arrived n e = subst (λ ms. receive_all w 0 ms n ≡ some n) (sym e) refl

  -- Where nothing has arrived, an iteration sends one request to each peer on the list, in its order and with
  -- transactions that follow one another, behind the messages that wait, and leaves the list as it was.
  pub iteration_asks_each :
      (n : TunnelNode)
      → n.incoming_msgs ≡ []
      → Receiving.iteration w n
        ≡ some (record n {
          outgoing_msgs = n.outgoing_msgs ++ requests n.own_id n.trans_id_counter n.tunnel_requests;
          trans_id_counter = later n.trans_id_counter n.tunnel_requests;
        })
  unfolding Receiving.iteration
  iteration_asks_each n e =
      ap (λ o. o >>= (λ n'. some (ask_all w n'))) (nothing_arrived n e) ∙ ap some (ask_all_lem n)

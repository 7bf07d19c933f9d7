-- ===== src/Tunnel/Exchange.antt =====
-- A request for a tunnel between two nodes of bitdht/bdtunnelnode.cc, from the iteration that sends it to what the answer
-- does.
use mathlib.Core.List.{append-nil}
use bitdht.Base.{ℕ, ◌≡◌, refl, ap, ◌∙◌, true, some, [], ◌∷◌, ◌++◌, arith, length, length-take}
use bitdht.Peer.{SockaddrIn, BdId, key_len}
use bitdht.Msgs.Create.{ask_myip_msg, reply_myip_msg}
use bitdht.Msgs.Create.Recognised.{a_myip_request, a_myip_reply}
use bitdht.Msgs.Compact.RoundTrip.{IsCompact}
use bitdht.Msgs.{token_max_len}
use bitdht.Node.{World, NetMsg, Leftovers, trans_id, two_wide, decimal}
use bitdht.Node.Receiving.RoundTrip.{IsToken, parse_node-built}
use bitdht.Tunnel.{TunnelNode}
use bitdht.Tunnel.Receiving
use bitdht.Tunnel.Receiving.{recv_pkt}
use bitdht.Tunnel.Requests.{later, requests, iteration_asks_each}
use bitdht.Tunnel.Parsed.{recv_pkt-parse_node}

pub trans_id-IsToken : (counter : ℕ) → IsToken (trans_id counter)
unfolding trans_id
trans_id-IsToken counter = omega (arith, length-take token_max_len (two_wide (decimal 20 counter)))

module _ (w : World) (left left' : Leftovers) (a b : TunnelNode) (peer : BdId) (from : SockaddrIn)
    (quiet : a.incoming_msgs ≡ []) (one_request : a.tunnel_requests ≡ peer ∷ [])
    (long_a : length a.own_id ≡ key_len) (long_b : length b.own_id ≡ key_len)
    (compact : IsCompact (record { addr = from; id = a.own_id })) where
  abbrev asker : BdId
  asker = record { addr = from; id = a.own_id }

  -- A node with one request, to which nothing has arrived, sends one message to that peer; the peer, which sees it come
  -- from the address `from`, answers it by one message to that address; and the answer changes nothing in the node that
  -- asked. This is where node ids are of twenty bytes, the asking id and its address fit the compact form, and the two
  -- messages decode to what they were encoded from.
  pub iteration_exchange :
      w.be_decoden (w.be_encode (ask_myip_msg (trans_id a.trans_id_counter) a.own_id))
        ≡ some (ask_myip_msg (trans_id a.trans_id_counter) a.own_id)
      → w.be_decoden
          (w.be_encode (reply_myip_msg (trans_id a.trans_id_counter) b.own_id asker true))
        ≡ some (reply_myip_msg (trans_id a.trans_id_counter) b.own_id asker true)
      → (a' : TunnelNode) × (request answer : NetMsg) × (Receiving.iteration w a ≡ some a')
        × (a'.outgoing_msgs ≡ a.outgoing_msgs ++ request ∷ [])
        × (request.addr ≡ peer.addr)
        × (recv_pkt w left b (record { bytes = request.bytes; addr = from })
            ≡ some (record b { outgoing_msgs = b.outgoing_msgs ++ answer ∷ [] }))
        × (answer.addr ≡ from)
        × (recv_pkt w left' a' (record { bytes = answer.bytes; addr = peer.addr }) ≡ some a')
  iteration_exchange ask_decodes reply_decodes =
      let tid = trans_id a.trans_id_counter in
      let request : NetMsg = record {
        bytes = w.be_encode (ask_myip_msg tid a.own_id);
        addr = peer.addr;
      } in
      let answer : NetMsg = record {
        bytes = w.be_encode (reply_myip_msg tid b.own_id asker true);
        addr = from;
      } in
      let a' : TunnelNode = record a {
        outgoing_msgs = a.outgoing_msgs ++ request ∷ [];
        trans_id_counter = later a.trans_id_counter (peer ∷ []);
      } in
      (
        a',
        request,
        answer,
        iteration_asks_each w a quiet
            ∙ ap
                (λ ids. some (record a {
                  outgoing_msgs = a.outgoing_msgs ++ requests w a.own_id a.trans_id_counter ids;
                  trans_id_counter = later a.trans_id_counter ids;
                }))
                one_request,
        refl,
        refl,
        recv_pkt-parse_node w left b (record { bytes = request.bytes; addr = from }) _ _ ask_decodes
            (parse_node-built left tid a.own_id a_myip_request (trans_id-IsToken _) long_a tt),
        refl,
        recv_pkt-parse_node w left' a' (record { bytes = answer.bytes; addr = peer.addr }) _ _
              reply_decodes
              (parse_node-built left' tid b.own_id (a_myip_reply asker true) (trans_id-IsToken _)
                long_b compact)
            ∙ ap (λ ms. some (record a' { outgoing_msgs = ms })) (append-nil a'.outgoing_msgs),
      )

-- ===== src/Node/Exchange.antt =====
-- Exchanges of messages between nodes, through recvPkt of bitdht/bdnode.cc: what a node makes of a datagram that decodes
-- to a message of another node.
use bitdht.Base.{
  ◌⊎◌, inl, inr, ap, get_or, ℕ, suc, ◌+◌, ◌<◌, ◌≡◌, refl, Bool, true, false, Option, none, some, [],
  ◌∷◌, ◌++◌, map, ltb, length, take, lt→ltb,
}
use bitdht.Peer.{BdNodeId, BdId, key_len}
use bitdht.DhtFunctions.{DhtFunctions, DhtLaws}
use bitdht.Space
use bitdht.Space.{BdSpace, bucket_of}
use bitdht.Space.Table.{IsTable}
use bitdht.Space.Outcomes.{Fresh}
use bitdht.Space.Runs.{EndsWith, add_peer_result}
use bitdht.Query.Adding
use bitdht.Store.{remove_store, max_entries}
use bitdht.Store.Capacity.{add_store-take}
use bitdht.Msgs.{BdToken, ping, find_node, token_max_len}
use bitdht.Msgs.Create.{create_ping_msg, response_ping_msg, find_node_msg, resp_node_msg}
use bitdht.Msgs.Create.Recognised.{Build, built, a_ping, a_find_node, a_myip_request, a_myip_reply}
use bitdht.Msgs.Crypt.Overrun.{decrypt-eq-none}
use bitdht.Node.{World, Node, NetMsg, Leftovers}
use bitdht.Node.Sending.{send_pkt, msgout_pong, msgout_reply_find_node}
use bitdht.Node.BlackList.{is_member_of_black_list}
use bitdht.Node.Peers.{add_peer, received_peer}
use bitdht.Node.Remote.{
  queue_query, process_queries, process_remote_query, near_list, bd_query_neighbours,
}
use bitdht.Node.Handlers.{msgin_ping, msgin_find_node, call_back}
use bitdht.Node.Receiving.{recv_pkt, dispatch}
use bitdht.Node.Receiving.RoundTrip.{IsToken, Fits, body_of, parse_node-built}

-- The node behind addPeer.
abbrev pub with_peer : World → Node → BdId → ℕ → Node
with_peer w n id flags = record n {
  local_queries = map (λ q. (Adding.add_peer w.fns q id flags w.now).0) n.local_queries;
  node_space = (Space.add_peer w.fns n.node_space id flags w.now).0;
  store =
      take max_entries
        (remove_store (received_peer w id flags) n.store ++ received_peer w id flags ∷ []);
}

pub add_peer_lem :
    (w : World) (n : Node) (id : BdId) (flags : ℕ)
    → add_peer w n id flags ≡ some (with_peer w n id flags)
unfolding add_peer
add_peer_lem w n id flags = rw (add_store-take (received_peer w id flags) n.store) refl

-- The request for the sender's address, or an answer to it.
abbrev pub about_myip : Option (BdId × Bool) → Build
about_myip none = a_myip_request
about_myip (some (peer_id, started)) = a_myip_reply peer_id started

-- A peer that is offered to the table is at the end of its bucket, or it is not in it and the table is as it was.
abbrev pub Offered : DhtFunctions → BdSpace → BdId → ℕ → BdSpace → Type 0
Offered fns s id now s' =
    EndsWith id now (get_or s'.buckets (bucket_of fns s id.id) [])
    ⊎ ((s' ≡ s) × Fresh id (get_or s.buckets (bucket_of fns s id.id) []))

add_peer-Offered :
    (fns : DhtFunctions) (s : BdSpace) (id : BdId) (now : ℕ)
    → DhtLaws fns
    → IsTable fns s
    → Offered fns s id now (Space.add_peer fns s id 0 now).0
add_peer-Offered fns s id now laws v = elim (add_peer_result fns s id 0 now 0 laws v).0 [
  | inl (added, last) ↦ inl last
  | inr (refused, absent) ↦ inr (ap (λ r. r.0) refused, absent)
]

module _ (w : World) (left : Leftovers) (n : Node) (m : NetMsg) (tid : BdToken) (id : BdNodeId)
    (open_sender : is_member_of_black_list n m.addr ≡ false) (short_token : IsToken tid)
    (long_id : length id ≡ key_len) where
  abbrev sender : BdId
  sender = record { addr = m.addr; id = id }

  -- A datagram that decodes to a built message, from a sender that is not on the black list, is handed on with the parts
  -- that the message was built from, where these fit.
  recv_pkt-built :
      (b : Build)
      → Fits b
      → w.be_decoden m.bytes ≡ some (built tid id b)
      → recv_pkt w left n m ≡ dispatch w n sender tid m.bytes (body_of b)
  unfolding recv_pkt
  recv_pkt-built b f e =
      rw (open_sender, e, parse_node-built left tid id b short_token long_id f) refl

  -- A ping from a sender that is not on the black list, with a transaction of at most twenty bytes and an id of twenty, is
  -- answered by one message behind those that wait: a pong to the sender's address, with the same transaction, the
  -- node's own id and the first twenty bytes of its version. The routing table, where it is well formed and the laws of the
  -- DHT functions hold, is what add_peer makes of it with the sender: the sender stands at the end of its bucket, heard of
  -- now, or it is not in its bucket and the table is as it was.
  pub recv_pkt-ping :
      w.be_decoden m.bytes ≡ some (create_ping_msg tid id)
      → DhtLaws w.fns
      → IsTable w.fns n.node_space
      → (n' : Node) × (recv_pkt w left n m ≡ some n')
        × (n'.outgoing_msgs
            ≡ n.outgoing_msgs
              ++ record {
                bytes =
                    w.be_encode (response_ping_msg tid n.own_id (take token_max_len n.dht_version));
                addr = m.addr;
              }
                ∷ [])
        × (n'.node_space ≡ (Space.add_peer w.fns n.node_space sender 0 w.now).0)
        × Offered w.fns n.node_space sender w.now n'.node_space
  unfolding dispatch msgin_ping msgout_pong send_pkt
  recv_pkt-ping e laws v =
      let counted : Node = record n {
        counters = record n.counters {
          recv_ping = suc n.counters.recv_ping;
          pongs = suc n.counters.pongs;
        };
      } in
      (
        call_back sender ping (msgout_pong w (with_peer w counted sender 0) sender tid),
        rw (recv_pkt-built a_ping tt e, add_peer_lem w counted sender 0) refl,
        refl,
        refl,
        add_peer-Offered w.fns n.node_space sender w.now laws v,
      )

  -- A request for the nodes near a target, from a sender that is not on the black list, with a transaction of at most
  -- twenty bytes and ids of twenty, to a node whose queue of remote queries is empty, waits in the queue; when the queue
  -- is processed less than ten seconds later, one message goes out behind those that wait: a reply to the sender's address
  -- with the same transaction, the node's own id and the peers of its table that are nearest to the target.
  pub recv_pkt-find_node :
      (w' : World) (target : BdNodeId)
      → length target ≡ key_len
      → w.be_decoden m.bytes ≡ some (find_node_msg tid id target)
      → n.remote_queries ≡ []
      → w'.now < w.now + 10
      → (n' : Node) × (recv_pkt w left n m ≡ some n')
        × ((process_remote_query w' n').outgoing_msgs
            ≡ n.outgoing_msgs
              ++ record {
                bytes = w'.be_encode (resp_node_msg tid n.own_id (near_list w' n' target));
                addr = m.addr;
              }
                ∷ [])
        × ((process_remote_query w' n').remote_queries ≡ [])
  unfolding dispatch msgin_find_node queue_query process_remote_query process_queries
      msgout_reply_find_node send_pkt
  recv_pkt-find_node w' target long e empty soon =
      let counted : Node = record n {
        counters = record n.counters { recv_query_node = suc n.counters.recv_query_node };
      } in
      let queued : Node = queue_query w counted sender target tid bd_query_neighbours in
      let recent : ltb w'.now (w.now + 10) ≡ true = lt→ltb _ _ soon in
      (
        call_back sender find_node (with_peer w queued sender 0),
        rw (recv_pkt-built (a_find_node target) long e, add_peer_lem w queued sender 0) refl,
        rw (empty, recent) refl,
        rw (empty, recent) refl,
      )

  -- A datagram of more than four bytes that decodes to a request for the sender's address, or to the answer to one with a
  -- peer that fits the compact form, from a sender that is not on the black list, with a transaction of at most twenty
  -- bytes and an id of twenty, is undefined behaviour: the token is read past the four bytes of a union.
  pub recv_pkt-myip_overrun :
      (answer : Option (BdId × Bool))
      → Fits (about_myip answer)
      → 4 < length m.bytes
      → w.be_decoden m.bytes ≡ some (built tid id (about_myip answer))
      → recv_pkt w left n m ≡ none
  unfolding dispatch
  recv_pkt-myip_overrun none f long e =
      rw (recv_pkt-built a_myip_request f e, decrypt-eq-none m.bytes long) refl
  recv_pkt-myip_overrun (some (peer_id, started)) f long e =
      rw (recv_pkt-built (a_myip_reply peer_id started) f e, decrypt-eq-none m.bytes long) refl

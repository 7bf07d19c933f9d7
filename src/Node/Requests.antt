-- ===== src/Node/Requests.antt =====
-- Requests to connect in bitdht/bdnode.cc: how a node introduces two others that ask for each other, and what these make
-- of it; and the queries that are cleared.
use mathlib.Core.List.{append_assoc}
use bitdht.Base.{
  ℕ, ◌≡◌, refl, ap, true, false, not, some, List, [], ◌∷◌, ◌++◌, arith, subst, any, keep_if, inl,
  inr, Bool-cases,
}
use bitdht.Peer.{BdNodeId, SockaddrIn, BdId, BdPeer, node_id_eq, node_id_lt}
use bitdht.Peer.Order.{node_id_eq_self, node_id_lt_self}
use bitdht.Multimap
use bitdht.Multimap.Find.{find-assign, assign-assign}
use bitdht.Query.{BdQuery}
use bitdht.Msgs.Create.{ask_conn_msg}
use bitdht.Node.{World, Node, NetMsg, gen_new_trans_id}
use bitdht.Node.Sending.{send_pkt, msgout_ask_conn}
use bitdht.Node.BlackList.Dropped.{any-append}
use bitdht.Node.Handlers.{msgin_broadcast_conn, msgin_ask_conn, noted, same_id}
use bitdht.Node.Peers.{clear_query, get_id_from_query, first_match, add_conn_req}

-- The two requests that a node with the id `own` sends out: one to the peer, one to the sender.
abbrev pub introductions : World → BdNodeId → BdId → BdId → BdNodeId → List ℕ → List ℕ → List NetMsg
introductions w own id peer for_sender tid1 tid2 =
    record { bytes = w.be_encode (ask_conn_msg tid1 own peer.id id); addr = peer.addr }
    ∷ record { bytes = w.be_encode (ask_conn_msg tid2 own for_sender peer); addr = id.addr }
    ∷ []

same_id_self : (p : BdId) → same_id p p ≡ true
same_id_self p = rw (node_id_eq_self p.id) (ground arith)

punching-ask_conn :
    (n : Node) (p : BdId) → any (λ q. same_id q p) (msgin_ask_conn n n.own_id p).punching ≡ true
unfolding msgin_ask_conn
punching-ask_conn n p = elim (Bool-cases (any (λ q. same_id q p) n.punching)) [
  | inl e ↦ rw (node_id_eq_self n.own_id, e) e
  | inr e ↦
      rw (node_id_eq_self n.own_id, e)
        (rw (any-append (λ q. same_id q p) n.punching (p ∷ []), e, same_id_self p) refl)
]

module _ (w : World) (n : Node) (id : BdId) (other : BdNodeId) (addr : SockaddrIn)
    (stranger : node_id_eq id.id other ≡ false) where
  -- A sender asks under its own id to be connected with another id whose address is known. The other is sent a request
  -- that carries the other's id, and the sender one that carries the other's id as well: a node with the sender's id
  -- leaves that one without effect.
  pub msgin_broadcast_conn-one_sided :
      (sender_node : Node)
      → sender_node.own_id ≡ id.id
      → Multimap.find node_id_lt other (noted w n id id.id other).peer_addrs ≡ some addr
      → (tid1 : List ℕ) × (tid2 : List ℕ) × ((msgin_broadcast_conn w n id id.id other).outgoing_msgs
          ≡ n.outgoing_msgs
            ++ introductions w n.own_id id (record { addr = addr; id = other }) other tid1 tid2)
        × (msgin_ask_conn sender_node other (record { addr = addr; id = other }) ≡ sender_node)
  unfolding msgin_broadcast_conn msgout_ask_conn send_pkt gen_new_trans_id msgin_ask_conn
  msgin_broadcast_conn-one_sided sender_node same found = (
    (gen_new_trans_id n).1,
    (gen_new_trans_id (gen_new_trans_id n).0).1,
    rw (node_id_eq_self id.id, found) (append_assoc n.outgoing_msgs _ _),
    rw (same, stranger) refl,
  )

  -- A sender asks under its own id as the second of the two, with the id that is to be connected as the first, whose
  -- address is known. Each is sent a request that carries its own id, and a node with the sender's id that receives
  -- its own then holds the other, with its address, in its list for punching.
  pub msgin_broadcast_conn-answered :
      (sender_node : Node)
      → sender_node.own_id ≡ id.id
      → Multimap.find node_id_lt other (noted w n id id.id other).peer_addrs ≡ some addr
      → (tid1 : List ℕ) × (tid2 : List ℕ) × ((msgin_broadcast_conn w n id other id.id).outgoing_msgs
          ≡ n.outgoing_msgs
            ++ introductions w n.own_id id (record { addr = addr; id = other }) id.id tid1 tid2)
        × (any
              (λ p. same_id p (record { addr = addr; id = other }))
              (msgin_ask_conn sender_node id.id (record { addr = addr; id = other })).punching
            ≡ true)
  unfolding msgin_broadcast_conn msgout_ask_conn send_pkt gen_new_trans_id msgin_ask_conn
  msgin_broadcast_conn-answered sender_node same found = (
    (gen_new_trans_id n).1,
    (gen_new_trans_id (gen_new_trans_id n).0).1,
    rw (stranger, node_id_eq_self id.id, found) (append_assoc n.outgoing_msgs _ _),
    subst
        (λ i.
          any (λ p. same_id p (record { addr = addr; id = other }))
            (msgin_ask_conn sender_node i (record { addr = addr; id = other })).punching
          ≡ true)
        same (punching-ask_conn sender_node (record { addr = addr; id = other })),
  )

cleared-first_match :
    (rm : BdNodeId) (qs : List BdQuery) (l : List BdPeer)
    → (first_match (keep_if (λ q. not (node_id_eq q.id rm)) qs) rm l ≡ (l, false))
cleared-first_match rm [] l = refl
cleared-first_match rm (q ∷ qs) l = elim (Bool-cases (node_id_eq q.id rm)) [
  | inl e ↦ rw e (cleared-first_match rm qs l)
  | inr e ↦ rw (e, e) (cleared-first_match rm qs l)
]

-- Once the queries for an id are cleared, getIdFromQuery finds none for it and leaves the list as it was.
pub get_id_from_query-clear_query :
    (n : Node) (id : BdNodeId) (l : List BdPeer)
    → get_id_from_query (clear_query n id) id l ≡ (l, false)
unfolding get_id_from_query clear_query
get_id_from_query-clear_query n id l = cleared-first_match id n.local_queries l

-- Of the requests to connect that a node makes for itself only the last is kept, whatever was asked for before, and it
-- stands under the node's own id.
pub add_conn_req_overwrites :
    (n : Node) (first last : BdNodeId)
    → (add_conn_req (add_conn_req n first) last ≡ add_conn_req n last)
      × (Multimap.find node_id_lt n.own_id (add_conn_req n last).connect_requests ≡ some last)
unfolding add_conn_req
add_conn_req_overwrites n first last = (
  ap (λ m. record n { connect_requests = m })
      (assign-assign node_id_lt n.own_id (node_id_lt_self n.own_id) first last n.connect_requests),
  find-assign node_id_lt n.own_id (node_id_lt_self n.own_id) last n.connect_requests,
)

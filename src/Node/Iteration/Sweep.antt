-- ===== src/Node/Iteration/Sweep.antt =====
-- The loop of bdNode::iteration in bitdht/bdnode.cc that pings the peers out of date.
use bitdht.Base.{
  ℕ, zero, suc, ◌+◌, ◌≤◌, ◌<◌, ◌≡◌, refl, sym, ap, ◌∙◌, ◌++◌, ◌%◌, ◌^◌, inl, inr, some, List, [],
  ◌∷◌, arith, length, count_if, Bool,
}
use bitdht.Peer.{BdNodeId, BdId}
use bitdht.Space.{Bucket, BdSpace}
use bitdht.Space.Stale.{overdue, overdue_ids, none_overdue, is_overdue, out_of_date_peer_progress}
use mathlib.Core.List.{append_assoc, append-nil}
use bitdht.Msgs.Create.{create_ping_msg}
use bitdht.Node.{World, Node, NetMsg, trans_id, gen_new_trans_id}
use bitdht.Node.Sending.{send_pkt, msgout_ping}
use bitdht.Node.Remote.{process_remote_query}
use bitdht.Node.Iteration.{
  ping_out_of_date, ping_stale, count_peers, receive_all, ask_queries, ping_potential,
  allowed_pings, finish_iteration, iteration,
}

count_if-le {ℓ} : {A : Type ℓ} (p : A → Bool) (xs : List A) → count_if p xs ≤ length xs
count_if-le p [] = omega arith
count_if-le p (x ∷ xs) = ground (arith, count_if-le p xs)

overdue-le : (ts : ℕ) (bs : List Bucket) → overdue ts bs ≤ count_peers bs
overdue-le ts [] = omega arith
overdue-le ts (b ∷ bs) = omega (arith, overdue-le ts bs, count_if-le (is_overdue ts) b)

module _ (w : World) where
  -- A ping to each peer of a list, in its order and with transactions that follow one another.
  abbrev pub pings : BdNodeId → ℕ → List BdId → List NetMsg
  pings own_id counter [] = []
  pings own_id counter (id ∷ ids) =
      record { bytes = w.be_encode (create_ping_msg (trans_id counter) own_id); addr = id.addr }
      ∷ pings own_id ((counter + 1) % 2 ^ 64) ids

  ping_stale-space : (n : Node) (id : BdId) → (ping_stale w n id).node_space ≡ n.node_space
  unfolding msgout_ping send_pkt gen_new_trans_id
  ping_stale-space n id = refl

  sweep :
      (fuel : ℕ) (n : Node)
      → overdue w.now n.node_space.buckets < fuel
      → (n' : Node) × (ping_out_of_date w fuel n ≡ some n')
        × (overdue w.now n'.node_space.buckets ≡ 0)
        × (n'.outgoing_msgs
            ≡ n.outgoing_msgs
              ++ pings n.own_id n.trans_id_counter (overdue_ids w.now n.node_space.buckets))
  unfolding ping_out_of_date msgout_ping send_pkt gen_new_trans_id
  sweep zero n h = absurd (omega arith)
  sweep (suc fuel) n h = elim (out_of_date_peer_progress n.node_space w.now) [
    | inl (e, z) ↦ (
      n,
      rw e refl,
      z,
      rw (none_overdue w.now n.node_space.buckets z) (sym (append-nil n.outgoing_msgs)),
    )
    | inr (id, bs, e, c, ids) ↦
        let kept : Node = record n { node_space = record n.node_space { buckets = bs } } in
        let same : overdue w.now (ping_stale w kept id).node_space.buckets ≡ overdue w.now bs =
          ap (λ (s : BdSpace). overdue w.now s.buckets) (ping_stale-space kept id) in
        let (m, r, z, l) = sweep fuel (ping_stale w kept id) (omega (arith, c, same)) in
        (m, rw e r, z, rw ids (l ∙ append_assoc n.outgoing_msgs _ _))
  ]

  -- The loop ends with one round more than the table has peers, none is out of date then, and the messages that
  -- it sends are, behind those that wait, one ping to the address of each peer that was, in the order of the table, with
  -- the node's own id and transactions that follow one another.
  pub ping_out_of_date_returns :
      (n : Node)
      → (n' : Node) × (ping_out_of_date w (suc (count_peers n.node_space.buckets)) n ≡ some n')
        × (overdue w.now n'.node_space.buckets ≡ 0)
        × (n'.outgoing_msgs
            ≡ n.outgoing_msgs
              ++ pings n.own_id n.trans_id_counter (overdue_ids w.now n.node_space.buckets))
  ping_out_of_date_returns n =
      sweep (suc (count_peers n.node_space.buckets)) n
        (omega (arith, overdue-le w.now n.node_space.buckets))

  -- An iteration ends where neither a datagram nor the end of a query is undefined behaviour: its loop has fuel enough.
  iteration_returns :
      (n received : Node) (asked : Node × ℕ)
      → receive_all w 0 n.incoming_msgs n ≡ some received
      → ask_queries w 0
          (ping_potential w allowed_pings received.potential_peers received 0).0.local_queries
          []
          (ping_potential w allowed_pings received.potential_peers received 0).0
          (ping_potential w allowed_pings received.potential_peers received 0).1
        ≡ some asked
      → (n' : Node) × (iteration w n ≡ some n')
  unfolding iteration
  iteration_returns n received asked r a =
      let (m, e, z, l) = ping_out_of_date_returns (process_remote_query w asked.0) in
      (finish_iteration w m, rw (r, a, e) refl)

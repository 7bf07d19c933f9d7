-- ===== src/Tunnel/StartUp.antt =====
-- From bdTunnelManager::connectNode of bitdht/bdtunnelmanager.cc to the first request of bdTunnelNode for a tunnel.
use bitdht.Base.{
  ℕ, ◌+◌, ◌≡◌, ◌<◌, refl, ap, ◌∙◌, Bool, true, none, some, List, [], ◌∷◌, ◌++◌, any, ltb, inl, inr,
  Bool-cases, lt→ltb,
}
use bitdht.Peer.{BdId, id_eq, id_lt}
use bitdht.Peer.Order.{id_eq_self}
use bitdht.Multimap
use bitdht.Node.{World, NetMsg}
use bitdht.Node.BlackList.Dropped.{any-append}
use bitdht.Tunnel
use bitdht.Tunnel.{TunnelNode, add_tunnel}
use bitdht.Tunnel.Requests.{requests, later, iteration_asks_each}
use bitdht.Tunnel.Runs.{starts, connects, iterates, run_call, run_calls}
use bitdht.Tunnel.Manager
use bitdht.Tunnel.Manager.{
  TunnelManager, TunnelPeer, TunnelMode, tunnel_off, tunnel_startup, tunnel_newconn, tunnel_failed,
  start_tunnel, connect_node, connecting_peer, add_tunnels, mode_step, mode_with, ticked, tick,
}

abbrev pub is_requested : BdId → TunnelNode → Bool
is_requested id n = any (λ r. id_eq r id) n.tunnel_requests

add_tunnel_keeps :
    (n : TunnelNode) (id other : BdId)
    → is_requested id n ≡ true
    → is_requested id (add_tunnel n other) ≡ true
unfolding add_tunnel
add_tunnel_keeps n id other h = elim (Bool-cases (is_requested other n)) [
  | inl e ↦ rw e h
  | inr e ↦ rw e (rw (any-append (λ r. id_eq r id) n.tunnel_requests (other ∷ []), h) refl)
]

add_tunnel_requests : (n : TunnelNode) (id : BdId) → is_requested id (add_tunnel n id) ≡ true
unfolding add_tunnel
add_tunnel_requests n id = elim (Bool-cases (is_requested id n)) [
  | inl e ↦ rw e e
  | inr e ↦
      rw e (rw (any-append (λ r. id_eq r id) n.tunnel_requests (id ∷ []), id_eq_self id, e) refl)
]

add_tunnels_keep :
    (es : List (BdId × TunnelPeer)) (n : TunnelNode) (id : BdId)
    → is_requested id n ≡ true
    → is_requested id (add_tunnels es n) ≡ true
add_tunnels_keep [] n id h = h
add_tunnels_keep (e ∷ es) n id h =
    add_tunnels_keep es (add_tunnel n e.0) id (add_tunnel_keeps n id e.0 h)

add_tunnels-insert :
    (es : List (BdId × TunnelPeer)) (n : TunnelNode) (id : BdId) (p : TunnelPeer)
    → is_requested id (add_tunnels (Multimap.insert id_lt id p es) n) ≡ true
add_tunnels-insert [] n id p = add_tunnel_requests n id
add_tunnels-insert ((j, q) ∷ es) n id p = elim (Bool-cases (id_lt id j)) [
  | inl e ↦ rw e (add_tunnels_keep ((j, q) ∷ es) (add_tunnel n id) id (add_tunnel_requests n id))
  | inr e ↦ rw e (add_tunnels-insert es (add_tunnel n j) id p)
]

mode_with-insert :
    (es : List (BdId × TunnelPeer)) (id : BdId) (p : TunnelPeer)
    → mode_with (Multimap.insert id_lt id p es) ≡ tunnel_newconn
mode_with-insert [] id p = refl
mode_with-insert ((j, q) ∷ es) id p = elim (Bool-cases (id_lt id j)) [
  | inl e ↦ rw e refl
  | inr e ↦ rw e refl
]

-- A request leaves all but the list of requests as it was.
add_tunnel_lem :
    (n : TunnelNode) (id : BdId)
    → add_tunnel n id ≡ record n { tunnel_requests = (add_tunnel n id).tunnel_requests }
unfolding add_tunnel
add_tunnel_lem n id = elim (Bool-cases (is_requested id n)) [
  | inl e ↦ rw e refl
  | inr e ↦ rw e refl
]

add_tunnels-incoming :
    (es : List (BdId × TunnelPeer)) (n : TunnelNode)
    → (add_tunnels es n).incoming_msgs ≡ n.incoming_msgs
add_tunnels-incoming [] n = refl
add_tunnels-incoming (e ∷ es) n =
    add_tunnels-incoming es (add_tunnel n e.0) ∙ ap (λ k. k.incoming_msgs) (add_tunnel_lem n e.0)

module _ (w1 w2 : World) (m : TunnelManager) (id : BdId)
    (absent : Multimap.find id_lt id m.tunnel_peers ≡ none)
    (quiet : m.node.incoming_msgs ≡ []) where
  -- The peers, and the node after the first iteration and after addTunnel.
  abbrev peers : List (BdId × TunnelPeer)
  peers = Multimap.insert id_lt id (connecting_peer id) m.tunnel_peers

  abbrev waiting : TunnelNode
  waiting = record m.node {
    outgoing_msgs =
        m.node.outgoing_msgs
        ++ requests w1 m.node.own_id m.node.trans_id_counter m.node.tunnel_requests;
    trans_id_counter = later m.node.trans_id_counter m.node.tunnel_requests;
  }

  abbrev asking : TunnelNode
  asking = add_tunnels peers waiting

  abbrev asked : TunnelNode
  asked = record asking {
    outgoing_msgs =
        asking.outgoing_msgs
        ++ requests w2 asking.own_id asking.trans_id_counter asking.tunnel_requests;
    trans_id_counter = later asking.trans_id_counter asking.tunnel_requests;
  }

  abbrev connected : ℕ → TunnelManager
  connected t = record m { tunnel_peers = peers; mode = tunnel_startup; mode_ts = t }

  abbrev wanted : TunnelManager
  wanted = record m {
    node = waiting;
    tunnel_peers = peers;
    mode = tunnel_newconn;
    mode_ts = w1.now;
  }

  connects_lem : (t : ℕ) → connect_node (start_tunnel m t) id ≡ connected t
  unfolding start_tunnel Tunnel.restart_node connect_node
  connects_lem t = rw (absent, absent) refl

  startup_lem : (t : ℕ) → t + 10 < w1.now → Manager.iteration w1 (connected t) ≡ some wanted
  unfolding Manager.iteration mode_step
  startup_lem t late =
      let first : ltb (t + 10) w1.now ≡ true = lt→ltb _ _ late in
      rw
        (
          first,
          mode_with-insert m.tunnel_peers id (connecting_peer id),
          iteration_asks_each w1 m.node quiet,
        )
        refl

  newconn_lem :
      w1.now + 10 < w2.now
      → Manager.iteration w2 wanted
        ≡ some (record wanted { node = asked; mode = tunnel_startup; mode_ts = w2.now })
  unfolding Manager.iteration mode_step
  newconn_lem late =
      let second : ltb (w1.now + 10) w2.now ≡ true = lt→ltb _ _ late in
      rw (second, iteration_asks_each w2 asking (add_tunnels-incoming peers waiting ∙ quiet)) refl

  -- Where a peer is not known and nothing arrives, a manager that is started, told to connect to the peer, and run twice,
  -- each time more than ten seconds after the last, has the peer among its requests, and the second run sends one
  -- request to each of them, behind messages that were there before it.
  pub run_calls-connect_node :
      (t : ℕ)
      → t + 10 < w1.now
      → w1.now + 10 < w2.now
      → (m' : TunnelManager) × (earlier : List NetMsg) × (counter : ℕ) × (run_calls
            (starts t ∷ connects id ∷ iterates w1 ∷ iterates w2 ∷ [])
            m
          ≡ some m')
        × (is_requested id m'.node ≡ true)
        × (m'.node.outgoing_msgs
            ≡ earlier ++ requests w2 m'.node.own_id counter m'.node.tunnel_requests)
  unfolding run_calls run_call
  run_calls-connect_node t late1 late2 = (
    record wanted { node = asked; mode = tunnel_startup; mode_ts = w2.now },
    asking.outgoing_msgs,
    asking.trans_id_counter,
    rw (connects_lem t, startup_lem t late1, newconn_lem late2) refl,
    add_tunnels-insert m.tunnel_peers waiting id (connecting_peer id),
    refl,
  )

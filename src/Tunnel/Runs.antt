-- ===== src/Tunnel/Runs.antt =====
-- bdTunnelManager of bitdht/bdtunnelmanager.cc under any sequence of its calls: what becomes of the list of requests in its
-- bdTunnelNode.
use mathlib.Core.List.{append_assoc, append-nil}
use bitdht.Base.{
  ℕ, suc, ◌+◌, ◌≡◌, sym, ap, subst, ◌∙◌, Option, none, some, List, [], ◌∷◌, ◌++◌, any, ltb, inl,
  inr, Bool-cases,
}
use bitdht.Peer.{SockaddrIn, BdId, id_eq, id_lt}
use bitdht.Multimap
use bitdht.Msgs.{undefined, refused, got, Field, BdToken}
use bitdht.Manager.Clients.{Client}
use bitdht.Node.{World, NetMsg}
use bitdht.Node.Iteration.{◌>>=◌}
use bitdht.Tunnel
use bitdht.Tunnel.{
  TunnelNode, add_tunnel, msgin_newconn, msgout_reply_newconn, msgin_reply_newconn, send_pkt,
  outgoing_msg, incoming_msg, first_out,
}
use bitdht.Tunnel.Receiving
use bitdht.Tunnel.Receiving.{
  Received, asks, replies, unhandled, TunnelPacket, handle, on_packet, receive_all, recv_pkt,
  parse_packet, ask_all,
}
use bitdht.Tunnel.Requests.{ask_all_lem}
use bitdht.Tunnel.Manager
use bitdht.Tunnel.Manager.{
  TunnelManager, TunnelPeer, TunnelMode, tunnel_off, tunnel_startup, tunnel_newconn, tunnel_failed,
  start_tunnel, stop_tunnel, connect_node, connect_found, disconnect_node, disconnect_found,
  add_callback, remove_callback, add_tunnels, mode_step, ticked, tick, max_startup_time,
  max_refresh_time,
}

-- The calls that change the manager or its node.
pub data TunnelCall : Type 0 where
  starts stops : ℕ → TunnelCall
  connects disconnects : BdId → TunnelCall
  adds_callback removes_callback : Client → TunnelCall
  sends : ℕ → TunnelCall
  receives : SockaddrIn → List ℕ → TunnelCall
  iterates : World → TunnelCall

-- Nothing but an iteration can be undefined behaviour.
unfoldable pub run_call : TunnelManager → TunnelCall → Option TunnelManager
run_call m (starts now) = some (start_tunnel m now)
run_call m (stops now) = some (stop_tunnel m now)
run_call m (connects id) = some (connect_node m id)
run_call m (disconnects id) = some (disconnect_node m id)
run_call m (adds_callback cb) = some (add_callback m cb)
run_call m (removes_callback cb) = some (remove_callback m cb)
run_call m (sends room) = some (record m { node = (outgoing_msg m.node room).0 })
run_call m (receives addr bytes) = some (record m { node = incoming_msg m.node addr bytes })
run_call m (iterates w) = Manager.iteration w m

unfoldable pub run_calls : List TunnelCall → TunnelManager → Option TunnelManager
run_calls [] m = some m
run_calls (c ∷ calls) m = run_call m c >>= run_calls calls

-- The requests that were there, and perhaps more behind them.
pub record Grown (ids : List BdId) (n : TunnelNode) : Type 0 where
  pub more : List BdId
  pub grown : n.tunnel_requests ≡ ids ++ more

abbrev pub GrownIs : List BdId → Option TunnelNode → Type 0
GrownIs ids none = Unit {0}
GrownIs ids (some n) = Grown ids n

abbrev pub ManagerGrownIs : List BdId → Option TunnelManager → Type 0
ManagerGrownIs ids none = Unit {0}
ManagerGrownIs ids (some m) = Grown ids m.node

module _ (ids : List BdId) where
  add_tunnel-Grown : (n : TunnelNode) (id : BdId) → Grown ids n → Grown ids (add_tunnel n id)
  unfolding add_tunnel
  add_tunnel-Grown n id v = elim (Bool-cases (any (λ r. id_eq r id) n.tunnel_requests)) [
    | inl e ↦ rw e v
    | inr e ↦ rw e (record {
      more = v.more ++ id ∷ [];
      grown = ap (λ rs. rs ++ id ∷ []) v.grown ∙ append_assoc ids v.more (id ∷ []);
    })
  ]

  add_tunnels-Grown :
      (es : List (BdId × TunnelPeer)) (n : TunnelNode) → Grown ids n → Grown ids (add_tunnels es n)
  add_tunnels-Grown [] n v = v
  add_tunnels-Grown (e ∷ es) n v =
      add_tunnels-Grown es (add_tunnel n e.0) (add_tunnel-Grown n e.0 v)

  handle-Grown :
      (w : World) (n : TunnelNode) (src : BdId) (tid : BdToken) (r : Received)
      → Grown ids n
      → Grown ids (handle w n src tid r)
  unfolding msgin_newconn msgout_reply_newconn msgin_reply_newconn send_pkt
  handle-Grown w n src tid asks v = record { more = v.more; grown = v.grown }
  handle-Grown w n src tid (replies peer_id) v = v
  handle-Grown w n src tid unhandled v = v

  on_packet-GrownIs :
      (w : World) (n : TunnelNode) (addr : SockaddrIn) (f : Field TunnelPacket)
      → Grown ids n
      → GrownIs ids (on_packet w n addr f)
  on_packet-GrownIs w n addr undefined v = tt
  on_packet-GrownIs w n addr refused v = v
  on_packet-GrownIs w n addr (got p) v =
      handle-Grown w n (record { addr = addr; id = p.id }) p.trans_id p.body v

  then-GrownIs :
      (o : Option TunnelNode) (f : TunnelNode → Option TunnelNode)
      → GrownIs ids o
      → ((n : TunnelNode) → Grown ids n → GrownIs ids (f n))
      → GrownIs ids (o >>= f)
  then-GrownIs none f v k = tt
  then-GrownIs (some n) f v k = k n v

  receive_all-GrownIs :
      (w : World) (round : ℕ) (ms : List NetMsg) (n : TunnelNode)
      → Grown ids n
      → GrownIs ids (receive_all w round ms n)
  unfolding receive_all recv_pkt
  receive_all-GrownIs w round [] n v = v
  receive_all-GrownIs w round (m ∷ ms) n v =
      then-GrownIs _ (receive_all w (suc round) ms)
        (on_packet-GrownIs w (record n { incoming_msgs = ms }) m.addr _
          (record { more = v.more; grown = v.grown }))
        (λ n' v'. receive_all-GrownIs w (suc round) ms n' v')

  iteration-GrownIs :
      (w : World) (n : TunnelNode) → Grown ids n → GrownIs ids (Receiving.iteration w n)
  unfolding Receiving.iteration
  iteration-GrownIs w n v =
      then-GrownIs _ (λ n'. some (ask_all w n')) (receive_all-GrownIs w 0 n.incoming_msgs n v)
        (λ n' v'. rw (ask_all_lem w n') (record { more = v'.more; grown = v'.grown }))

  mode_step-Grown :
      (m : TunnelManager) (mode : TunnelMode) (now : ℕ)
      → Grown ids m.node
      → Grown ids (mode_step m mode now).node
  unfolding mode_step start_tunnel stop_tunnel Tunnel.restart_node Tunnel.shutdown_node
  mode_step-Grown m tunnel_off now v = v
  mode_step-Grown m tunnel_startup now v =
      elim (Bool-cases (ltb (m.mode_ts + max_startup_time) now)) [ inl e ↦ rw e v | inr e ↦ rw e v ]
  mode_step-Grown m tunnel_newconn now v =
      elim (Bool-cases (ltb (m.mode_ts + max_refresh_time) now)) [
        | inl e ↦ rw e (add_tunnels-Grown m.tunnel_peers m.node v)
        | inr e ↦ rw e v
      ]
  mode_step-Grown m tunnel_failed now v = record { more = v.more; grown = v.grown }

  ticked-GrownIs :
      (w : World) (m : TunnelManager) (o : Option TunnelNode)
      → GrownIs ids o
      → ManagerGrownIs ids (ticked w m o)
  ticked-GrownIs w m none v = tt
  ticked-GrownIs w m (some n) v = v

  tick-GrownIs :
      (w : World) (m : TunnelManager) (mode : TunnelMode)
      → Grown ids m.node
      → ManagerGrownIs ids (tick w m mode)
  unfolding Tunnel.iteration_off
  tick-GrownIs w m tunnel_off v = record { more = v.more; grown = v.grown }
  tick-GrownIs w m tunnel_startup v = ticked-GrownIs w m _ (iteration-GrownIs w m.node v)
  tick-GrownIs w m tunnel_newconn v = ticked-GrownIs w m _ (iteration-GrownIs w m.node v)
  tick-GrownIs w m tunnel_failed v = ticked-GrownIs w m _ (iteration-GrownIs w m.node v)

  connect_found-Grown :
      (m : TunnelManager) (id : BdId) (o : Option TunnelPeer)
      → Grown ids m.node
      → Grown ids (connect_found m id o).node
  connect_found-Grown m id (some p) v = v
  connect_found-Grown m id none v = v

  disconnect_found-Grown :
      (m : TunnelManager) (id : BdId) (o : Option TunnelPeer)
      → Grown ids m.node
      → Grown ids (disconnect_found m id o).node
  disconnect_found-Grown m id (some p) v = v
  disconnect_found-Grown m id none v = v

  first_out-Grown :
      (n : TunnelNode) (ms : List NetMsg) (room : ℕ)
      → Grown ids n
      → Grown ids (first_out n ms room).0
  first_out-Grown n [] room v = v
  first_out-Grown n (m ∷ ms) room v = record { more = v.more; grown = v.grown }

  run_call-GrownIs :
      (m : TunnelManager) (c : TunnelCall) → Grown ids m.node → ManagerGrownIs ids (run_call m c)
  unfolding run_call start_tunnel stop_tunnel Tunnel.restart_node Tunnel.shutdown_node connect_node
      disconnect_node add_callback remove_callback outgoing_msg incoming_msg Manager.iteration
  run_call-GrownIs m (starts now) v = record { more = v.more; grown = v.grown }
  run_call-GrownIs m (stops now) v = record { more = v.more; grown = v.grown }
  run_call-GrownIs m (connects id) v =
      connect_found-Grown m id (Multimap.find id_lt id m.tunnel_peers) v
  run_call-GrownIs m (disconnects id) v =
      disconnect_found-Grown m id (Multimap.find id_lt id m.tunnel_peers) v
  run_call-GrownIs m (adds_callback cb) v = v
  run_call-GrownIs m (removes_callback cb) v = v
  run_call-GrownIs m (sends room) v = first_out-Grown m.node m.node.outgoing_msgs room v
  run_call-GrownIs m (receives addr bytes) v = record { more = v.more; grown = v.grown }
  run_call-GrownIs m (iterates w) v =
      tick-GrownIs w (mode_step m m.mode w.now) (mode_step m m.mode w.now).mode
        (mode_step-Grown m m.mode w.now v)

  then-ManagerGrownIs :
      (o : Option TunnelManager) (f : TunnelManager → Option TunnelManager)
      → ManagerGrownIs ids o
      → ((m : TunnelManager) → Grown ids m.node → ManagerGrownIs ids (f m))
      → ManagerGrownIs ids (o >>= f)
  then-ManagerGrownIs none f v k = tt
  then-ManagerGrownIs (some m) f v k = k m v

  run_calls-GrownIs :
      (calls : List TunnelCall) (m : TunnelManager)
      → Grown ids m.node
      → ManagerGrownIs ids (run_calls calls m)
  unfolding run_calls
  run_calls-GrownIs [] m v = v
  run_calls-GrownIs (c ∷ calls) m v =
      then-ManagerGrownIs (run_call m c) (run_calls calls) (run_call-GrownIs m c v)
        (λ m' v'. run_calls-GrownIs calls m' v')

-- Whatever calls follow, of connectNode, disconnectNode, stopTunnel and the others, every request that is on the list stays
-- on it, in its place: with defined behaviour throughout, calls only put more requests behind it.
pub run_calls_keep_requests :
    (calls : List TunnelCall) (m m' : TunnelManager)
    → run_calls calls m ≡ some m'
    → (more : List BdId) × (m'.node.tunnel_requests ≡ m.node.tunnel_requests ++ more)
run_calls_keep_requests calls m m' e =
    let v : Grown m.node.tunnel_requests m'.node = subst (ManagerGrownIs m.node.tunnel_requests) e (
      run_calls-GrownIs m.node.tunnel_requests calls m
        (record { more = []; grown = sym (append-nil m.node.tunnel_requests) })) in
    (v.more, v.grown)

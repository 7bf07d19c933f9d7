-- ===== src/Node/Iteration/Sends.antt =====
-- The parts of bdNode::iteration in bitdht/bdnode.cc that only send messages keep the invariant of the node.
use bitdht.Base.{ℕ, zero, suc, Option, none, some, List, [], ◌∷◌}
use bitdht.Peer.{BdNodeId, BdId, BdPeer}
use bitdht.Node.{World, Node}
use bitdht.Node.Sending.{msgout_ping, msgout_find_node, msgout_ask_myip, msgout_broadcast_conn}
use bitdht.Node.Iteration.{
  ping_again, punch_all, punching, send_requests, broadcast_to, broadcast_peers, ping_peer,
  ping_potential, push_query, ping_stale,
}
use bitdht.Node.Invariant.{IsNode, send_pkt-IsNode, get_random_token-IsNode}
use bitdht.Node.Invariant.Kept.{gen_new_trans_id-IsNode}

module _ (w : World) (bound : ℕ) where
  pub ping_again-IsNode :
      (times : ℕ) (n : Node) (id : BdId) (tid : List ℕ)
      → IsNode w.fns bound n
      → IsNode w.fns bound (ping_again w times n id tid)
  unfolding msgout_ping
  ping_again-IsNode zero n id tid v = v
  ping_again-IsNode (suc times) n id tid v =
      ping_again-IsNode times (msgout_ping w n id tid) id tid (send_pkt-IsNode w.fns bound _ _ _ v)

  pub punch_all-IsNode :
      (times : ℕ) (ids : List BdId) (n : Node)
      → IsNode w.fns bound n
      → IsNode w.fns bound (punch_all w times ids n)
  punch_all-IsNode times [] n v = v
  punch_all-IsNode times (id ∷ ids) n v =
      punch_all-IsNode times ids _
        (ping_again-IsNode times _ id _ (gen_new_trans_id-IsNode w bound n v))

  pub send_requests-IsNode :
      (id : BdId) (m : List (BdNodeId × BdNodeId)) (n : Node)
      → IsNode w.fns bound n
      → IsNode w.fns bound (send_requests w id m n)
  unfolding msgout_broadcast_conn
  send_requests-IsNode id [] n v = v
  send_requests-IsNode id ((id0, id1) ∷ m) n v =
      send_requests-IsNode id m _
        (send_pkt-IsNode w.fns bound _ _ _ (gen_new_trans_id-IsNode w bound n v))

  pub broadcast_to-IsNode :
      (ps : List BdPeer) (n : Node)
      → IsNode w.fns bound n
      → IsNode w.fns bound (broadcast_to w ps n)
  unfolding msgout_ask_myip
  broadcast_to-IsNode [] n v = v
  broadcast_to-IsNode (p ∷ ps) n v = broadcast_to-IsNode ps _ (
      send_requests-IsNode p.peer_id n.connect_requests _ (
        send_pkt-IsNode w.fns bound _ _ _
          (get_random_token-IsNode w bound _ (gen_new_trans_id-IsNode w bound n v))))

  pub ping_peer-IsNode :
      (n : Node) (id : BdId) → IsNode w.fns bound n → IsNode w.fns bound (ping_peer w n id)
  unfolding msgout_ping
  ping_peer-IsNode n id v =
      let h = send_pkt-IsNode w.fns bound _ _ _ (gen_new_trans_id-IsNode w bound n v) in
      record {
        table = h.table;
        queries = h.queries;
        store = h.store;
        tokens = h.tokens;
        black = h.black;
      }

  pub ping_potential-IsNode :
      (allowed : ℕ) (ids : List BdId) (n : Node) (sent : ℕ)
      → IsNode w.fns bound n
      → IsNode w.fns bound (ping_potential w allowed ids n sent).0
  unfolding ping_potential
  ping_potential-IsNode zero ids n sent v = record {
    table = v.table;
    queries = v.queries;
    store = v.store;
    tokens = v.tokens;
    black = v.black;
  }
  ping_potential-IsNode (suc allowed) [] n sent v = record {
    table = v.table;
    queries = v.queries;
    store = v.store;
    tokens = v.tokens;
    black = v.black;
  }
  ping_potential-IsNode (suc allowed) (id ∷ ids) n sent v =
      ping_potential-IsNode allowed ids _ (suc sent) (ping_peer-IsNode n id v)

  pub push_query-IsNode :
      (n : Node) (ask : Option (BdId × BdNodeId))
      → IsNode w.fns bound n
      → IsNode w.fns bound (push_query w n ask)
  unfolding msgout_find_node
  push_query-IsNode n none v = v
  push_query-IsNode n (some (id, target)) v =
      let h = send_pkt-IsNode w.fns bound _ _ _ (gen_new_trans_id-IsNode w bound n v) in
      record {
        table = h.table;
        queries = h.queries;
        store = h.store;
        tokens = h.tokens;
        black = h.black;
      }

  pub ping_stale-IsNode :
      (n : Node) (id : BdId) → IsNode w.fns bound n → IsNode w.fns bound (ping_stale w n id)
  unfolding msgout_ping
  ping_stale-IsNode n id v =
      let h = send_pkt-IsNode w.fns bound _ _ _ (gen_new_trans_id-IsNode w bound n v) in
      record {
        table = h.table;
        queries = h.queries;
        store = h.store;
        tokens = h.tokens;
        black = h.black;
      }

  pub broadcast_peers-IsNode :
      (n : Node) → IsNode w.fns bound n → IsNode w.fns bound (broadcast_peers w n)
  unfolding broadcast_peers
  broadcast_peers-IsNode n v =
      broadcast_to-IsNode (broadcast_to w n.white_nodes n).store (broadcast_to w n.white_nodes n)
        (broadcast_to-IsNode n.white_nodes n v)

  pub punching-IsNode :
      (times : ℕ) (n : Node) → IsNode w.fns bound n → IsNode w.fns bound (punching w times n)
  unfolding punching
  punching-IsNode times n v = punch_all-IsNode times n.punching n v

-- ===== src/System/Silence.antt =====
-- Whom bdNodeManager::checkStatus of bitdht/bdmanager.cc tells that a query is done.
use bitdht.Base.{◌≡◌, refl, true, false, some, [], ◌==◌, inl, inr, Bool-cases}
use bitdht.Peer.{BdNodeId}
use bitdht.Query.{has_flag, qflags_do_idle}
use bitdht.Manager.{ActivePeers, QueryPeer, QueryStatus}
use bitdht.Manager.Iteration.{update_found, callback_status, is_done, or_zero, state_code}
use bitdht.Node.{World}
use bitdht.Node.Peers
use bitdht.Node.Peers.{get_id_from_query}
use bitdht.Node.Requests.{get_id_from_query-clear_query}
use bitdht.System.{System, run_calls, run_call, set_node, tell_found}

module _ (w : World) (s : System) (id : BdNodeId) (q : QueryStatus) (peers : ActivePeers)
    (p : QueryPeer) (done : is_done (callback_status q.status) ≡ true) where
  -- A query that is done and may not idle is cleared before its peers are looked up, so that no client is told of any:
  -- all that its turn in checkStatus does to the node and the clients is to clear it.
  pub run_calls-done_query :
      has_flag q.qflags qflags_do_idle ≡ false
      → run_calls w (update_found id q peers (some p)).1 s
        ≡ some (set_node s (Peers.clear_query s.node id))
  unfolding run_calls run_call
  run_calls-done_query stops = elim (Bool-cases (state_code p.status == state_code q.status)) [
    | inl e ↦ rw (done, stops, e, get_id_from_query-clear_query s.node id []) refl
    | inr e ↦ rw (done, stops, e, get_id_from_query-clear_query s.node id []) refl
  ]

  -- A query that is done and may idle stays, and every client is told of each peer that getIdFromQuery finds for it.
  pub run_calls-idle_query :
      has_flag q.qflags qflags_do_idle ≡ true
      → run_calls w (update_found id q peers (some p)).1 s
        ≡ some (tell_found s (or_zero (callback_status q.status)) (get_id_from_query s.node id []))
  unfolding run_calls run_call
  run_calls-idle_query idles = elim (Bool-cases (state_code p.status == state_code q.status)) [
    | inl e ↦ rw (done, idles, e) refl
    | inr e ↦ rw (done, idles, e) refl
  ]

-- ===== src/Manager/Runs.antt =====
-- bdNodeManager of bitdht/bdmanager.cc under any sequence of its calls.
use bitdht.Base.{
  ℕ, ◌+◌, ◌≡◌, ◌≢◌, refl, inl, inr, Option, none, some, List, [], ◌∷◌, ltb, Bool-cases,
}
use bitdht.Peer.{BdNodeId, node_id_lt}
use bitdht.Multimap
use bitdht.Multimap.Order.{All-insert}
use bitdht.DhtFunctions.{DhtFunctions}
use bitdht.Space.{BdSpace}
use bitdht.Space.Size.{calc_space_size}
use bitdht.Manager.{
  Mode, off, startup, findself, active, refresh, quiet, failed, max_startup_time, max_findself_time,
  max_refresh_time, transition_op_space_size, min_op_space_size, QueryPeer, QueryStatus, Manager,
  new_manager, new_query_peer, add_unless_found, add_find_node, remove_found, remove_find_node,
  remove_all_find_node, start_dht, stop_dht, start_queries,
}
use bitdht.Manager.Iteration.{iteration, mode_step, refresh_step}
use bitdht.Manager.Peers.{
  IsActive, insert-IsAscending, all_ready-IsActive, start_queries-IsActive, erase-IsActive,
  check_status-IsActive,
}

-- The calls that change the manager.
pub data Call : Type 0 where
  starts : ℕ → Call
  stops : ℕ → Call
  adds : BdNodeId → ℕ → Call
  removes : BdNodeId → Call
  removes_all : BdNodeId → Call
  iterates : BdSpace → List (BdNodeId × QueryStatus) → ℕ → Call

unfoldable pub step : DhtFunctions → Manager → Call → Manager
step fns m (starts now) = (start_dht m now).0
step fns m (stops now) = (stop_dht m now).0
step fns m (adds id qflags) = (add_find_node m id qflags).0
step fns m (removes id) = (remove_find_node m id).0
step fns m (removes_all own_id) = (remove_all_find_node m own_id).0
step fns m (iterates space statuses now) = (iteration fns space statuses m now).0

unfoldable pub run : DhtFunctions → Manager → List Call → Manager
run fns m [] = m
run fns m (c ∷ cs) = run fns (step fns m c) cs

pub record IsManager (m : Manager) : Type 0 where
  pub peers : IsActive m.active_peers
  pub never_quiet : m.mode ≢ quiet

add_unless_found-IsManager :
    (m : Manager) (id : BdNodeId) (qflags : ℕ) (o : Option QueryPeer)
    → Multimap.find node_id_lt id m.active_peers ≡ o
    → IsManager m
    → IsManager (add_unless_found m id qflags o).0
add_unless_found-IsManager m id qflags (some p) f v = v
add_unless_found-IsManager m id qflags none f v = record {
  peers = record {
    ordered = insert-IsAscending id (new_query_peer id qflags) m.active_peers f v.peers.ordered;
    keyed =
        All-insert node_id_lt (λ e. e.0 ≡ e.1.id.id) id (new_query_peer id qflags) m.active_peers
          refl v.peers.keyed;
  };
  never_quiet = v.never_quiet;
}

remove_found-IsManager :
    (m : Manager) (id : BdNodeId) (o : Option QueryPeer)
    → IsManager m
    → IsManager (remove_found m id o).0
remove_found-IsManager m id none v = v
remove_found-IsManager m id (some p) v = record {
  peers = erase-IsActive id m.active_peers v.peers;
  never_quiet = v.never_quiet;
}

mode_step-IsManager :
    (fns : DhtFunctions) (space : BdSpace) (statuses : List (BdNodeId × QueryStatus))
    → (mode : Mode) (m : Manager) (now : ℕ) → IsManager m
    → IsManager (mode_step fns space statuses mode m now).0
unfolding refresh_step start_dht stop_dht
mode_step-IsManager fns space statuses off m now v = v
mode_step-IsManager fns space statuses startup m now v =
    elim (Bool-cases (ltb (m.mode_ts + max_startup_time) now)) [
      | inl e ↦ rw e (record { peers = v.peers; never_quiet = λ h. cc })
      | inr e ↦ rw e v
    ]
mode_step-IsManager fns space statuses findself m now v =
    elim (Bool-cases (ltb (m.mode_ts + max_findself_time) now)) [
      | inl e ↦ elim (Bool-cases (ltb min_op_space_size (calc_space_size space))) [
        | inl f ↦ rw (e, f) (record { peers = v.peers; never_quiet = λ h. cc })
        | inr f ↦ rw (e, f) (record { peers = v.peers; never_quiet = λ h. cc })
      ]
      | inr e ↦ elim (Bool-cases (ltb transition_op_space_size (calc_space_size space))) [
        | inl f ↦ rw (e, f) (record { peers = v.peers; never_quiet = λ h. cc })
        | inr f ↦ rw (e, f) v
      ]
    ]
mode_step-IsManager fns space statuses active m now v =
    elim (Bool-cases (ltb (m.mode_ts + max_refresh_time) now)) [
      | inl e ↦ rw e (record { peers = v.peers; never_quiet = λ h. cc })
      | inr e ↦ rw e v
    ]
mode_step-IsManager fns space statuses refresh m now v = record {
  peers =
      check_status-IsActive statuses (start_queries m.active_peers).0
        (start_queries-IsActive m.active_peers v.peers);
  never_quiet = λ h. cc;
}
mode_step-IsManager fns space statuses quiet m now v = v
mode_step-IsManager fns space statuses failed m now v = record {
  peers = all_ready-IsActive m.active_peers v.peers;
  never_quiet = λ h. cc;
}

step-IsManager :
    (fns : DhtFunctions) (m : Manager) (c : Call) → IsManager m → IsManager (step fns m c)
unfolding step start_dht stop_dht add_find_node remove_find_node remove_all_find_node iteration
step-IsManager fns m (starts now) v = record { peers = v.peers; never_quiet = λ h. cc }
step-IsManager fns m (stops now) v = record {
  peers = all_ready-IsActive m.active_peers v.peers;
  never_quiet = λ h. cc;
}
step-IsManager fns m (adds id qflags) v =
    add_unless_found-IsManager m id qflags (Multimap.find node_id_lt id m.active_peers) refl v
step-IsManager fns m (removes id) v =
    remove_found-IsManager m id (Multimap.find node_id_lt id m.active_peers) v
step-IsManager fns m (removes_all own_id) v = record {
  peers = record { ordered = tt; keyed = tt };
  never_quiet = v.never_quiet;
}
step-IsManager fns m (iterates space statuses now) v =
    mode_step-IsManager fns space statuses m.mode m now v

run-IsManager :
    (fns : DhtFunctions) (m : Manager) (cs : List Call) → IsManager m → IsManager (run fns m cs)
unfolding run
run-IsManager fns m [] v = v
run-IsManager fns m (c ∷ cs) v = run-IsManager fns (step fns m c) cs (step-IsManager fns m c v)

-- After any sequence of calls on a new manager the active peers are in the strict order of their ids, so that no id stands
-- twice, each peer stands under its own id, and the mode is not QUIET, which nothing sets.
pub run-new_manager-IsManager :
    (fns : DhtFunctions) (cs : List Call) → IsManager (run fns new_manager cs)
run-new_manager-IsManager fns cs =
    run-IsManager fns new_manager cs
      (record { peers = record { ordered = tt; keyed = tt }; never_quiet = λ h. cc })

-- ===== src/Tests/StartUp.antt =====
-- Tests for the manager.
use bitdht.Base.{bit_or, ◌≤◌, ◌<◌, ◌≡◌, refl, ◌⊎◌, List, [], ◌∷◌, ◌++◌, arith}
use bitdht.Peer.{BdNodeId}
use bitdht.StdDht.{std_dht}
use bitdht.Space.Size.{calc_space_size}
use bitdht.Query.{success}
use bitdht.Manager.{
  findself, active, refresh, startup, failed, Manager, NodeCall, QueryStatus, new_manager,
  new_query_peer, start_dht, add_query, iterate,
}
use bitdht.Manager.Iteration.{iteration, second_id}
use bitdht.Manager.StartUp.{start_dht_lem}
use bitdht.Manager.Runs.{Call, starts, adds, iterates, run, IsManager, run-new_manager-IsManager}
use bitdht.Manager.Refresh.{NoneReady, queries_of, iteration-refresh}
use bitdht.Tests.Data.{node, table}

start_dht_lem_example :
    let m0 = (start_dht new_manager 100).0 in
    let m1 = (iteration std_dht table [] m0 111).0 in
    let m2 = (iteration std_dht table [] m1 200).0 in
    let m3 = (iteration std_dht table [] m2 201).0 in
    (m1.mode ≡ findself)
    × ((iteration std_dht table [] m0 111).1
        ≡ add_query table.own_id (bit_or 2 1) ∷ add_query second_id (bit_or 2 1) ∷ iterate ∷ [])
    × (((20 < calc_space_size table) × (m2.mode ≡ refresh) × (m3.mode ≡ active))
        ⊎ ((calc_space_size table ≤ 20)
            × (m2.mode ≡ failed)
            × (m3.mode ≡ startup)
            × (m3.mode_ts ≡ 201)))
start_dht_lem_example =
    start_dht_lem std_dht new_manager table table table [] [] [] 100 111 200 201 (omega arith)
      (omega arith)

abbrev manager_calls : List Call
manager_calls = starts 100 ∷ adds (node 5) 0 ∷ iterates table [] 111 ∷ []

run-new_manager-IsManager_example : IsManager (run std_dht new_manager manager_calls)
run-new_manager-IsManager_example = run-new_manager-IsManager std_dht manager_calls

-- One peer waits, and the query for another id is done.
abbrev waiting : Manager
waiting = record new_manager {
  mode = refresh;
  active_peers = (node 5, new_query_peer (node 5) 0) ∷ [];
}

abbrev one_done : List (BdNodeId × QueryStatus)
one_done = (node 9, record { status = success; qflags = 0; results = [] }) ∷ []

iteration-refresh_example :
    let r = iteration std_dht table one_done waiting 300 in
    (r.0.mode ≡ active)
    × (r.0.mode_ts ≡ 300)
    × NoneReady r.0.active_peers
    × ((later : List NodeCall) × (r.1 ≡ queries_of waiting.active_peers ++ later))
iteration-refresh_example = iteration-refresh std_dht table one_done waiting 300 refl (refl, tt)

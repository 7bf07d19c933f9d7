-- ===== src/Manager/Iteration.antt =====
-- checkStatus and status of bitdht/bdmanager.cc, and iteration, which calls them.
use bitdht.Base.{
  ℕ, ◌+◌, Bool, true, false, not, ◌&&◌, ◌||◌, Option, none, some, List, [], ◌∷◌, ◌++◌, ltb, ◌==◌,
  if◌then◌else◌, bit_or,
}
use bitdht.Peer.{BdNodeId, BdId, SockaddrIn, node_id_lt}
use bitdht.Multimap
use bitdht.DhtFunctions.{DhtFunctions}
use bitdht.StdDht.{std_node_id}
use bitdht.Space.{BdSpace}
use bitdht.Space.Size.{calc_network_size, calc_network_size_with_flag, calc_space_size}
use bitdht.Query.{
  QueryState, ready, querying, failure, found_closest, peer_unreachable, success, has_flag,
  qflags_disguise, qflags_do_idle,
}
use bitdht.Manager.{
  Mode, off, startup, findself, active, refresh, quiet, failed, max_startup_time, max_refresh_time,
  max_findself_time, transition_op_space_size, min_op_space_size, peer_status_dht_appl, QueryPeer,
  QueryStatus, ActivePeers, NodeCall, update_store, iterate, iterate_off, add_query, clear_query,
  call_back, Manager, stop_dht, start_dht, start_queries,
}

-- The status for the callback of a query that is done: BITDHT_MGR_QUERY_FAILURE, PEER_OFFLINE,
-- PEER_UNREACHABLE and PEER_ONLINE.
abbrev pub callback_status : QueryState → Option ℕ
callback_status failure = some 1
callback_status found_closest = some 2
callback_status peer_unreachable = some 3
callback_status success = some 4
callback_status _ = none

-- The constants BITDHT_QUERY_*, to compare them.
abbrev pub state_code : QueryState → ℕ
state_code ready = 1
state_code querying = 2
state_code failure = 3
state_code found_closest = 4
state_code peer_unreachable = 5
state_code success = 6

abbrev pub first_addr : SockaddrIn → List BdId → SockaddrIn
first_addr old (r ∷ rs) = r.addr
first_addr old [] = record old { s_addr = 0; sin_port = 0 }

abbrev pub saved_addr : QueryState → SockaddrIn → List BdId → SockaddrIn
saved_addr success old results = first_addr old results
saved_addr _ old results = old

abbrev pub is_done : Option ℕ → Bool
is_done none = false
is_done (some n) = true

-- A query that is still in progress has the callback status 0.
abbrev pub or_zero : Option ℕ → ℕ
or_zero none = 0
or_zero (some n) = n

abbrev pub cleared : BdNodeId → QueryStatus → List NodeCall
cleared id s =
    if is_done (callback_status s.status) && not (has_flag s.qflags qflags_do_idle)
    then clear_query id ∷ []
    else []

-- The query is external if its id is among the active peers.
abbrev pub update_found :
    BdNodeId → QueryStatus → ActivePeers → Option QueryPeer → ActivePeers × List NodeCall
update_found id s peers none = (peers, cleared id s)
update_found id s peers (some p) =
    let same = state_code p.status == state_code s.status in
    let p' = record p { status = s.status; dht_addr = saved_addr s.status p.dht_addr s.results } in
    (
      Multimap.replace node_id_lt id p' peers,
      cleared id s
          ++ (if same || is_done (callback_status s.status)
              then call_back id (or_zero (callback_status s.status)) ∷ []
              else []),
    )

-- The loop of checkStatus over the states of the queries.
unfoldable pub check_status :
    List (BdNodeId × QueryStatus) → ActivePeers → ActivePeers × List NodeCall
check_status [] peers = (peers, [])
check_status ((id, s) ∷ statuses) peers =
    let (peers', calls) = update_found id s peers (Multimap.find node_id_lt id peers) in
    let (peers'', later) = check_status statuses peers' in (peers'', calls ++ later)

-- The id that every start looks up, beside the own one.
abbrev pub second_id : BdNodeId
second_id = std_node_id (
    57 ∷ 51 ∷ 50 ∷ 57 ∷ 57 ∷ 54 ∷ 57 ∷ 101 ∷ 49 ∷ 97 ∷ 97 ∷ 99 ∷ 102 ∷ 50 ∷ 52 ∷ 57 ∷ 50 ∷ 56 ∷ 51
    ∷ 56 ∷ 57 ∷ 55 ∷ 50 ∷ 52 ∷ 100 ∷ 52 ∷ 99 ∷ 51 ∷ 53 ∷ 49 ∷ 55 ∷ 55 ∷ 55 ∷ 53 ∷ 54 ∷ 98 ∷ 48 ∷ 48
    ∷ 48 ∷ 48 ∷ [])

module _ (fns : DhtFunctions) (space : BdSpace) (statuses : List (BdNodeId × QueryStatus)) where
  -- REFRESH starts the queries, and updates the store, the states and the sizes of the network.
  unfoldable pub refresh_step : Manager → ℕ → Manager × List NodeCall
  refresh_step m now =
      let (started, queries) = start_queries m.active_peers in
      let (checked, calls) = check_status statuses started in
      (
        record {
          mode = active;
          mode_ts = now;
          active_peers = checked;
          network_size = calc_network_size fns space;
          bd_network_size = calc_network_size_with_flag fns space peer_status_dht_appl;
        },
        queries ++ update_store ∷ calls,
      )

  abbrev pub startup_step : Manager → ℕ → Manager × List NodeCall
  startup_step m now =
      let qflags = bit_or qflags_do_idle qflags_disguise in
      if ltb (m.mode_ts + max_startup_time) now
      then (
        record m { mode = findself; mode_ts = now },
        add_query space.own_id qflags ∷ add_query second_id qflags ∷ [],
      )
      else (m, [])

  -- The second test decides where both pass.
  abbrev pub findself_step : Manager → ℕ → Manager × List NodeCall
  findself_step m now =
      let size = calc_space_size space in
      if ltb (m.mode_ts + max_findself_time) now
      then (
        record m { mode = if ltb min_op_space_size size then refresh else failed; mode_ts = now },
        [],
      )
      else if ltb transition_op_space_size size
      then (record m { mode = refresh; mode_ts = now }, [])
      else (m, [])

  abbrev pub active_step : Manager → ℕ → Manager × List NodeCall
  active_step m now =
      if ltb (m.mode_ts + max_refresh_time) now
      then (record m { mode = refresh; mode_ts = now }, [])
      else (m, [])

  abbrev pub failed_step : Manager → ℕ → Manager × List NodeCall
  failed_step m now =
      let (stopped, calls) = stop_dht m now in
      let (started, later) = start_dht stopped now in (started, calls ++ later)

  -- The switch.
  abbrev pub mode_step : Mode → Manager → ℕ → Manager × List NodeCall
  mode_step off m now = (m, [])
  mode_step startup m now = startup_step m now
  mode_step findself m now = findself_step m now
  mode_step active m now = active_step m now
  mode_step refresh m now = refresh_step m now
  mode_step quiet m now = (m, [])
  mode_step failed m now = failed_step m now

  abbrev pub tick : Mode → NodeCall
  tick off = iterate_off
  tick _ = iterate

  unfoldable pub iteration : Manager → ℕ → Manager × List NodeCall
  iteration m now = let (m', calls) = mode_step m.mode m now in (m', calls ++ tick m'.mode ∷ [])

-- ===== src/Node/Peers.antt =====
-- Where bdNode of bitdht/bdnode.cc keeps peers and its own queries: the routing table, the store, the queries and the
-- list of peers to ping. `none` is undefined behaviour in a part, or a loop out of fuel.
use mathlib.Core.Option
use bitdht.Base.{
  ℕ, Bool, true, false, not, ◌||◌, Option, List, [], ◌∷◌, ◌++◌, map, if◌then◌else◌, keep_if,
}
use bitdht.Peer.{BdNodeId, BdId, BdPeer, blank_peer, node_id_eq, node_id_lt}
use bitdht.Multimap
use bitdht.Space
use bitdht.Space.{find_nearest_nodes}
use bitdht.Query.{BdQuery, new_query, result, match_result}
use bitdht.Query.Adding
use bitdht.Query.Adding.{add_potential_peer}
use bitdht.Manager.{QueryStatus}
use bitdht.Store.{Store, add_store, reload_from_store, write_store}
use bitdht.Node.{World, Node, reset_counters}

abbrev pub query_start_peers : ℕ
query_start_peers = 10

-- addPotentialPeer.
abbrev pub push_potential : Node → BdId → Node
push_potential n id = record n { potential_peers = n.potential_peers ++ id ∷ [] }

abbrev pub push_all_potential : Node → Store → Node
push_all_potential n [] = n
push_all_potential n (p ∷ ps) = push_all_potential (push_potential n p.peer_id) ps

abbrev pub reloaded : Node → Option (List (ℕ × ℕ)) → Option (List (ℕ × ℕ)) → Node
reloaded n file white_file = record n {
  counters = reset_counters n.counters;
  store = (reload_from_store file n.store).0;
  white_nodes = (reload_from_store white_file n.white_nodes).0;
}

-- The files are what reloadFromStore reads from them.
unfoldable pub restart_node : Node → Option (List (ℕ × ℕ)) → Option (List (ℕ × ℕ)) → Node
restart_node n file white_file =
    let n' = reloaded n file white_file in
    push_all_potential (push_all_potential n' n'.store) n'.white_nodes

-- What the two files hold after updateStore.
unfoldable pub update_store :
    Node
    → Bool
    → Option (List (ℕ × ℕ))
    → Bool
    → Option (List (ℕ × ℕ))
    → Option (List (ℕ × ℕ)) × Option (List (ℕ × ℕ))
update_store n can_open file can_open_white white_file =
    (write_store can_open n.store file, write_store can_open_white n.white_nodes white_file)

-- The queries after addPotentialPeer on each, and whether one of them wants the peer.
module _ (w : World) where
  unfoldable pub offer : List BdQuery → BdId → List BdQuery × Bool
  offer [] id = ([], false)
  offer (q ∷ qs) id =
      let (q', worthy) = add_potential_peer w.fns q id 0 w.now in
      let rest = offer qs id in (q' ∷ rest.0, worthy || rest.1)

  unfoldable pub check_potential_peer : Node → BdId → Node
  check_potential_peer n id =
      let (queries, is_worthy_peer) = offer n.local_queries id in
      let n' = record n { local_queries = queries } in
      if is_worthy_peer then push_potential n' id else n'

  abbrev pub received_peer : BdId → ℕ → BdPeer
  received_peer id flags = record blank_peer {
    peer_id = id;
    peer_flags = flags;
    last_recv_time = w.now;
  }

  unfoldable pub add_peer : Node → BdId → ℕ → Option Node
  add_peer n id flags =
      Option.map
        (λ s. record n {
          local_queries = map (λ q. (Adding.add_peer w.fns q id flags w.now).0) n.local_queries;
          node_space = (Space.add_peer w.fns n.node_space id flags w.now).0;
          store = s;
        })
        (add_store (received_peer id flags) n.store)

  unfoldable pub add_query : Node → BdNodeId → ℕ → Node
  add_query n id qflags =
      let nearest = find_nearest_nodes w.fns n.node_space id query_start_peers [] [] in
      record n {
        local_queries =
            n.local_queries ++ new_query w.fns id (map (λ e. e.1) nearest) qflags w.now ∷ [];
      }

unfoldable pub clear_query : Node → BdNodeId → Node
clear_query n rm_id = record n {
  local_queries = keep_if (λ q. not (node_id_eq q.id rm_id)) n.local_queries;
}

abbrev pub status_of : BdQuery → QueryStatus
status_of q = record { status = q.state; qflags = q.query_flags; results = (result q []).0 }

abbrev pub collect_status :
    List BdQuery → List (BdNodeId × QueryStatus) → List (BdNodeId × QueryStatus)
collect_status [] status_map = status_map
collect_status (q ∷ qs) status_map =
    collect_status qs (Multimap.assign node_id_lt q.id (status_of q) status_map)

unfoldable pub query_status : Node → List (BdNodeId × QueryStatus) → List (BdNodeId × QueryStatus)
query_status n status_map = collect_status n.local_queries status_map

-- The loop of getIdFromQuery.
abbrev pub first_match : List BdQuery → BdNodeId → List BdPeer → List BdPeer × Bool
first_match [] id id_list = (id_list, false)
first_match (q ∷ qs) id id_list =
    let rest = first_match qs id id_list in
    if node_id_eq q.id id then ((match_result q id_list).0, true) else rest

unfoldable pub get_id_from_query : Node → BdNodeId → List BdPeer → List BdPeer × Bool
get_id_from_query n id id_list = first_match n.local_queries id id_list

-- The key is the node's own id, whatever was asked for before.
unfoldable pub add_conn_req : Node → BdNodeId → Node
add_conn_req n id = record n {
  connect_requests = Multimap.assign node_id_lt n.own_id id n.connect_requests;
}

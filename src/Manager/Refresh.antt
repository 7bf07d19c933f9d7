-- ===== src/Manager/Refresh.antt =====
-- The queries that bdNodeManager::iteration of bitdht/bdmanager.cc starts in the mode REFRESH.
use bitdht.Base.{
  ℕ, ◌≡◌, refl, ap, ◌∙◌, inl, inr, false, not, ◌&&◌, Option, none, some, List, [], ◌∷◌, ◌++◌, map,
  Bool-cases, keep_if, All, bit_or,
}
use mathlib.Core.List.{append_assoc}
use bitdht.Peer.{BdNodeId, node_id_lt}
use bitdht.Multimap
use bitdht.DhtFunctions.{DhtFunctions}
use bitdht.Space.{BdSpace}
use bitdht.Query.{qflags_disguise}
use bitdht.Manager.{
  active, refresh, QueryPeer, QueryStatus, ActivePeers, NodeCall, add_query, update_store, iterate,
  Manager, start_queries, is_ready,
}
use bitdht.Manager.Iteration.{iteration, check_status, update_found, saved_addr, refresh_step}

-- No peer waits for its query.
abbrev pub NoneReady : ActivePeers → Type 0
NoneReady m = All (λ e. is_ready e.1.status ≡ false) m

-- The calls that start the queries of the peers that wait.
abbrev pub queries_of : ActivePeers → List NodeCall
queries_of m =
    map (λ e. add_query e.0 (bit_or e.1.qflags qflags_disguise))
      (keep_if (λ e. is_ready e.1.status) m)

start_queries_lem :
    (m : ActivePeers) → NoneReady (start_queries m).0 × ((start_queries m).1 ≡ queries_of m)
unfolding start_queries
start_queries_lem [] = (tt, refl)
start_queries_lem ((id, p) ∷ m) = elim (Bool-cases (is_ready p.status)) [
  | inl e ↦ rw e (
    (refl, (start_queries_lem m).0),
    ap (◌∷◌ (add_query id (bit_or p.qflags qflags_disguise))) (start_queries_lem m).1,
  )
  | inr e ↦ rw e ((e, (start_queries_lem m).0), (start_queries_lem m).1)
]

replace-NoneReady :
    (id : BdNodeId) (q : QueryPeer) (m : ActivePeers)
    → is_ready q.status ≡ false
    → NoneReady m
    → NoneReady (Multimap.replace node_id_lt id q m)
replace-NoneReady id q [] s h = h
replace-NoneReady id q ((j, w) ∷ m) s h =
    elim (Bool-cases (not (node_id_lt j id) && not (node_id_lt id j))) [
      | inl e ↦ rw e (s, h.1)
      | inr e ↦ rw e (h.0, replace-NoneReady id q m s h.1)
    ]

update_found-NoneReady :
    (id : BdNodeId) (s : QueryStatus) (m : ActivePeers) (o : Option QueryPeer)
    → is_ready s.status ≡ false
    → NoneReady m
    → NoneReady (update_found id s m o).0
update_found-NoneReady id s m none r h = h
update_found-NoneReady id s m (some p) r h =
    replace-NoneReady id
      (record p { status = s.status; dht_addr = saved_addr s.status p.dht_addr s.results }) m r h

check_status-NoneReady :
    (statuses : List (BdNodeId × QueryStatus)) (m : ActivePeers)
    → All (λ e. is_ready e.1.status ≡ false) statuses
    → NoneReady m
    → NoneReady (check_status statuses m).0
unfolding check_status
check_status-NoneReady [] m r h = h
check_status-NoneReady ((id, s) ∷ statuses) m r h =
    check_status-NoneReady statuses (update_found id s m (Multimap.find node_id_lt id m)).0 r.1
      (update_found-NoneReady id s m (Multimap.find node_id_lt id m) r.0 h)

-- An iteration in the mode REFRESH makes the manager active at that time. Its first calls start a query, with
-- the flag for disguise, for each peer that waited, in order; and if no query is in the state READY, no peer
-- waits after it.
pub iteration-refresh :
    (fns : DhtFunctions) (space : BdSpace) (statuses : List (BdNodeId × QueryStatus)) (m : Manager)
    (now : ℕ)
    → m.mode ≡ refresh
    → All (λ e. is_ready e.1.status ≡ false) statuses
    → let r = iteration fns space statuses m now in
      (r.0.mode ≡ active)
      × (r.0.mode_ts ≡ now)
      × NoneReady r.0.active_peers
      × ((later : List NodeCall) × (r.1 ≡ queries_of m.active_peers ++ later))
unfolding iteration refresh_step
iteration-refresh fns space statuses m now e r = rw e (
  refl,
  refl,
  check_status-NoneReady statuses (start_queries m.active_peers).0 r
      (start_queries_lem m.active_peers).0,
  (_, calls),
)
  where
    calls :
        ((start_queries m.active_peers).1
            ++ update_store ∷ (check_status statuses (start_queries m.active_peers).0).1)
          ++ iterate ∷ []
        ≡ queries_of m.active_peers
          ++ ((update_store ∷ (check_status statuses (start_queries m.active_peers).0).1)
              ++ iterate ∷ [])
    calls =
        append_assoc (start_queries m.active_peers).1 _ (iterate ∷ [])
        ∙ ap
            (λ l.
              l
              ++ ((update_store ∷ (check_status statuses (start_queries m.active_peers).0).1)
                  ++ iterate ∷ []))
            (start_queries_lem m.active_peers).1

-- ===== src/Node/Remote/Served.antt =====
-- What processRemoteQuery of bitdht/bdnode.cc does with the queue of remote queries.
use bitdht.Base.{
  length-map, ◌+◌, ◌≤◌, ◌≡◌, refl, ap, inl, inr, Bool, true, false, ◌&&◌, ◌||◌, List, [], ◌∷◌, ◌++◌,
  arith, ltb, ◌==◌, if◌then◌else◌, length, All, Bool-cases, both_true,
}
use bitdht.Peer.{BdNodeId, BdId}
use bitdht.Space.Nearest.{find_nearest_nodes_lem}
use bitdht.Space.{find_nearest_nodes}
use bitdht.Query.{RemoteQuery}
use bitdht.Node.{World, Node}
use bitdht.Node.Remote.{
  process_queries, process_remote_query, answer_neighbours, count_hash, bd_query_neighbours,
  bd_query_hash, max_remote_query_age, near_list, query_neighbour_peers,
}

module _ (w : World) where
  -- The query is less than ten seconds old, and of one of the two types.
  abbrev pub is_live : RemoteQuery → Bool
  is_live q =
      ltb w.now (q.query_ts + max_remote_query_age)
      && ((q.query_type == bd_query_neighbours) || (q.query_type == bd_query_hash))

  abbrev pub answered : Node → RemoteQuery → Node
  answered n q =
      if q.query_type == bd_query_neighbours then answer_neighbours w n q else count_hash n

  -- The dead queries at the front, and the rest: either nothing, or the query that is served with those behind it.
  pub data Served (n : Node) : List RemoteQuery → Node → Type 0 where
    none_live :
        (dead : List RemoteQuery)
        → All (λ q. is_live q ≡ false) dead
        → Served n dead (record n { remote_queries = [] })
    one_live :
        (dead : List RemoteQuery) (q : RemoteQuery) (later queue : List RemoteQuery)
        → All (λ q. is_live q ≡ false) dead
        → is_live q ≡ true
        → queue ≡ dead ++ q ∷ later
        → Served n queue (record (answered n q) { remote_queries = later })

  Served-cons :
      (n : Node) (q : RemoteQuery) {qs : List RemoteQuery} {n' : Node}
      → is_live q ≡ false
      → Served n qs n'
      → Served n (q ∷ qs) n'
  Served-cons n q e (none_live dead h) = none_live (q ∷ dead) (e, h)
  Served-cons n q e (one_live dead p later queue h l c) =
      one_live (q ∷ dead) p later (q ∷ queue) (e, h) l (ap (◌∷◌ q) c)

  live-process_queries :
      (n : Node) (q : RemoteQuery) (qs : List RemoteQuery)
      → is_live q ≡ true
      → process_queries w n (q ∷ qs) ≡ record (answered n q) { remote_queries = qs }
  unfolding process_queries
  live-process_queries n q qs h =
      let recent = both_true (ltb w.now (q.query_ts + max_remote_query_age)) _ h in
      rw recent.0 (elim (Bool-cases (q.query_type == bd_query_neighbours)) [
        | inl e ↦ rw e refl
        | inr e ↦ rw (e, (rw e at recent.1)) refl
      ])

  dead-process_queries :
      (n : Node) (q : RemoteQuery) (qs : List RemoteQuery)
      → is_live q ≡ false
      → process_queries w n (q ∷ qs) ≡ process_queries w n qs
  unfolding process_queries
  dead-process_queries n q qs h =
      elim (Bool-cases (ltb w.now (q.query_ts + max_remote_query_age))) [
        | inl e ↦ elim (Bool-cases (q.query_type == bd_query_neighbours)) [
          | inl f ↦ absurd (ground (arith, h, e, f))
          | inr f ↦ elim (Bool-cases (q.query_type == bd_query_hash)) [
            | inl g ↦ absurd (ground (arith, h, e, g))
            | inr g ↦ rw (e, f, g) refl
          ]
        ]
        | inr e ↦ rw e refl
      ]

  process_queries-Served : (n : Node) (qs : List RemoteQuery) → Served n qs (process_queries w n qs)
  process_queries-Served n [] = unfold process_queries in none_live [] tt
  process_queries-Served n (q ∷ qs) = elim (Bool-cases (is_live q)) [
    | inl e ↦ rw (live-process_queries n q qs e) (one_live [] q qs (q ∷ qs) tt e refl)
    | inr e ↦ rw (dead-process_queries n q qs e) (Served-cons n q e (process_queries-Served n qs))
  ]

  -- Of the queue of remote queries the front is dropped up to the first query that is less than ten seconds old and
  -- asks for neighbours or for a hash; that one is answered or counted, and those behind it stay. If there is none,
  -- nothing is sent and the queue is empty.
  pub process_remote_query-Served :
      (n : Node) → Served n n.remote_queries (process_remote_query w n)
  unfolding process_remote_query
  process_remote_query-Served n = process_queries-Served n n.remote_queries

-- The answer to a query for neighbours holds at most eight ids.
pub length-near_list : (w : World) (n : Node) (id : BdNodeId) → length (near_list w n id) ≤ 8
length-near_list w n id =
    let near = find_nearest_nodes w.fns n.node_space id query_neighbour_peers [] [] in
    let spec = find_nearest_nodes_lem w.fns id n.node_space query_neighbour_peers [] in
    let len = length-map (λ (e : BdNodeId × BdId). e.1) near in omega (arith, len, spec.3)

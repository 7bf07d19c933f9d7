-- ===== src/Tests/Lookup.antt =====
-- Tests for the queries.
use bitdht.Base.{
  ◌≤◌, ◌<◌, ◌≡◌, ◌≢◌, refl, ◌⊎◌, ◌↔◌, true, false, some, List, [], ◌∷◌, ◌++◌, map, keep_if,
  count_if, arith,
}
use bitdht.Peer.{node_id_lt}
use bitdht.Multimap
use bitdht.StdDht.{std_dht, std_distance}
use bitdht.StdDht.Buckets.{std_dht-DhtLaws}
use bitdht.Query.{BdQuery, new_query, querying, next_query, match_result, is_match}
use bitdht.Query.Adding.{add_peer, add_potential_peer}
use bitdht.Query.Invariant.{IsQuery}
use bitdht.Query.Closest.{is_live, Joins, add_peer_closest}
use bitdht.Query.Finish.{Outcome, next_query-Outcome}
use bitdht.Query.Results.{match_result_lem}
use bitdht.Query.Runs.{Call, adds, adds_potential, step, run, run-new_query-IsQuery}
use bitdht.Tests.Data.{node, id_at, peer_at}

-- A lookup of the id 5, with a node near to it to begin with.
abbrev lookup : BdQuery
lookup = record {
  id = node 5;
  limit = node 0;
  state = querying;
  query_ts = 100;
  query_flags = 0;
  search_time = 0;
  idle_peer_retry_period = 300;
  closest = (std_distance (node 5) (node 4), peer_at 4 0 0) ∷ [];
  potential_closest = [];
}

abbrev query_calls : List Call
query_calls = adds (id_at 6 7 80) 2 110 ∷ adds_potential (id_at 5 7 80) 2 120 ∷ []

abbrev after_calls : BdQuery
after_calls =
    (add_potential_peer std_dht
      (add_peer std_dht (new_query std_dht (node 5) (id_at 4 7 80 ∷ []) 0 100) (id_at 6 7 80) 2
        110).0
      (id_at 5 7 80) 2 120).0

query_calls-run :
    run std_dht (new_query std_dht (node 5) (id_at 4 7 80 ∷ []) 0 100) query_calls
    ≡ some after_calls
unfolding run step
query_calls-run = refl

run-new_query-IsQuery_example : IsQuery std_dht 10 after_calls
run-new_query-IsQuery_example =
    run-new_query-IsQuery std_dht (node 5) (id_at 4 7 80 ∷ []) 0 100 query_calls after_calls
      std_dht-DhtLaws query_calls-run

add_peer_closest_example :
    ((10
        ≤ count_if
            (is_live 200)
            (Multimap.before_lower node_id_lt (std_distance (node 5) (node 6)) lookup.closest))
      × (add_peer std_dht lookup (id_at 6 7 80) 2 200 ≡ (lookup, false)))
    ⊎ ((count_if
            (is_live 200)
            (Multimap.before_lower node_id_lt (std_distance (node 5) (node 6)) lookup.closest)
          < 10)
        × ((add_peer std_dht lookup (id_at 6 7 80) 2 200).1 ≡ true)
        × Joins std_dht
            (id_at 6 7 80)
            200
            (std_distance (node 5) (node 6))
            lookup.closest
            (add_peer std_dht lookup (id_at 6 7 80) 2 200).0.closest)
add_peer_closest_example = add_peer_closest std_dht lookup (id_at 6 7 80) 2 200

next_query-Outcome_example :
    Outcome std_dht lookup 200 (node 9) (next_query std_dht lookup 200 (node 9))
next_query-Outcome_example = next_query-Outcome std_dht lookup 200 (node 9) refl refl (omega arith)

match_result_lem_example :
    ((match_result lookup []).0
      ≡ []
        ++ (map (λ e. e.1) (keep_if (is_match (node 5)) lookup.closest)
            ++ map (λ e. e.1) (keep_if (is_match (node 5)) lookup.potential_closest)))
    × (((match_result lookup []).1 ≡ true)
        ↔ ((keep_if (is_match (node 5)) lookup.closest ≢ []) ⊎ (lookup.potential_closest ≢ [])))
match_result_lem_example = match_result_lem lookup []

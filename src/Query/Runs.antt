-- ===== src/Query/Runs.antt =====
-- bdQuery under any sequence of its calls.
use bitdht.Base.{
  ℕ, ◌≤◌, ◌≡◌, Option, none, some, List, [], ◌∷◌, length, max, arith, Option-cases, inl, inr,
}
use bitdht.Peer.{BdNodeId, BdId}
use bitdht.DhtFunctions.{DhtFunctions, DhtLaws}
use bitdht.Query.{BdQuery, Answer, new_query, next_query}
use bitdht.Query.Adding.{add_peer, add_potential_peer}
use bitdht.Query.Invariant.{
  IsQuery, new_query-IsQuery, add_peer-IsQuery, add_potential_peer-IsQuery,
}
use bitdht.Query.Invariant.Asking.{AnswerIs, next_query-AnswerIs}

-- The calls that change a query: an id with its mode and the time; for nextQuery the time and the random id.
pub data Call : Type 0 where
  adds : BdId → ℕ → ℕ → Call
  adds_potential : BdId → ℕ → ℕ → Call
  asks : ℕ → BdNodeId → Call

abbrev query_of : Answer → Option BdQuery
query_of none = none
query_of (some (q, sent)) = some q

unfoldable pub step : DhtFunctions → BdQuery → Call → Option BdQuery
step fns q (adds id mode ts) = some (add_peer fns q id mode ts).0
step fns q (adds_potential id mode ts) = some (add_potential_peer fns q id mode ts).0
step fns q (asks now random) = query_of (next_query fns q now random)

-- `none` once a call is undefined behaviour.
unfoldable pub run : DhtFunctions → BdQuery → List Call → Option BdQuery
unfolding step
run fns q [] = some q
run fns q (c ∷ cs) = elim (step fns q c) [ none ↦ none | some q' ↦ run fns q' cs ]

module _ (fns : DhtFunctions) (laws : DhtLaws fns) (bound : ℕ)
    (fits : fns.nodes_per_bucket ≤ bound) where
  asked-IsQuery :
      (a : Answer) (q : BdQuery) → query_of a ≡ some q → AnswerIs fns bound a → IsQuery fns bound q
  asked-IsQuery none q e v = cc
  asked-IsQuery (some (p, sent)) q e v = ground arith

  step-IsQuery :
      (q q' : BdQuery) (c : Call)
      → step fns q c ≡ some q'
      → IsQuery fns bound q
      → IsQuery fns bound q'
  unfolding step
  step-IsQuery q q' (adds id mode ts) e v =
      ground (arith, add_peer-IsQuery fns bound q id mode ts laws.room fits v)
  step-IsQuery q q' (adds_potential id mode ts) e v =
      ground (arith, add_potential_peer-IsQuery fns bound q id mode ts laws.room v)
  step-IsQuery q q' (asks now random) e v =
      asked-IsQuery (next_query fns q now random) q' e
        (next_query-AnswerIs fns bound q now random v)

  run-IsQuery :
      (cs : List Call) (q q' : BdQuery)
      → run fns q cs ≡ some q'
      → IsQuery fns bound q
      → IsQuery fns bound q'
  unfolding run
  run-IsQuery [] q q' e v = ground arith
  run-IsQuery (c ∷ cs) q q' e v = elim (Option-cases (step fns q c)) [
    | inl h ↦ absurd (ground (arith, e, h))
    | inr (p, h) ↦ run-IsQuery cs p q' (rw (h, run) at e) (step-IsQuery q p c h v)
  ]

-- Under the laws of the DHT functions, after any sequence of calls on a new query that has defined behaviour, both lists are in the order of their
-- keys, every key is the distance of its peer from the target, the potential peers are a bucket at most, and
-- the closest peers a bucket at most, or as many as the query began with.
pub run-new_query-IsQuery :
    (fns : DhtFunctions) (id : BdNodeId) (start_list : List BdId) (query_flags now : ℕ)
    → (cs : List Call) (q : BdQuery) → DhtLaws fns
    → run fns (new_query fns id start_list query_flags now) cs ≡ some q
    → IsQuery fns (max fns.nodes_per_bucket (length start_list)) q
run-new_query-IsQuery fns id start_list query_flags now cs q laws e =
    run-IsQuery fns laws (max fns.nodes_per_bucket (length start_list)) (omega arith) cs _ q e
      (widen (new_query-IsQuery fns id start_list query_flags now))
  where
    widen :
        IsQuery fns (length start_list) (new_query fns id start_list query_flags now)
        → IsQuery fns
            (max fns.nodes_per_bucket (length start_list))
            (new_query fns id start_list query_flags now)
    widen v = record {
      closest_list = v.closest_list;
      potential_list = v.potential_list;
      closest_bound = omega (arith, v.closest_bound);
      potential_bound = v.potential_bound;
    }

-- ===== src/Query/Invariant/Asking.antt =====
-- bdQuery::nextQuery of bitdht/bdquery.cc keeps the invariant of the query.
use bitdht.Base.{
  ℕ, ◌-◌, ◌≡◌, refl, inl, inr, Bool, not, ◌&&◌, Option, none, some, [], ◌∷◌, if◌then◌else◌,
  Bool-cases, arith,
}
use mathlib.Core.Option
use bitdht.Peer.{BdNodeId, BdMetric, BdPeer}
use bitdht.DhtFunctions.{DhtFunctions}
use bitdht.Query.{
  Entries, BdQuery, Search, picked, exhausted, behind, is_due, search_closest, has_flag, Answer,
  after_search, is_waiting, finish, final_state, next_query, retry_period, is_querying,
  qflags_do_idle, QueryState,
}
use bitdht.Query.Entries.{Kept, next, Kept-refl, Kept-length}
use bitdht.Query.Invariant.{IsQuery, Kept-IsList}

-- The search marks one entry and changes nothing else.
abbrev Marks : Entries → Search → Type 0
Marks m (picked p m') = Kept m m'
Marks m (exhausted b) = Unit {0}

behind-Marks :
    (d : BdMetric) (p : BdPeer) (m : Entries) (r : Search)
    → Marks m r
    → Marks ((d, p) ∷ m) (behind (d, p) r)
behind-Marks d p m (picked q m') k = next d p p refl k
behind-Marks d p m (exhausted b) k = tt

pub search_closest-Marks :
    (now period : ℕ) (idle : Bool) (m : Entries) → Marks m (search_closest now period idle m)
unfolding search_closest
search_closest-Marks now period idle [] = tt
search_closest-Marks now period idle ((d, p) ∷ m) = elim (Bool-cases (is_due now period idle p)) [
  | inl e ↦ rw e (next d p _ refl (Kept-refl m))
  | inr e ↦ rw e (
      behind-Marks d p m (search_closest now period idle m)
        (search_closest-Marks now period idle m))
]

module _ (fns : DhtFunctions) where
  -- Whatever the call answers, unless it reads a potential peer where there is none.
  abbrev pub AnswerIs : ℕ → Answer → Type 0
  AnswerIs bound none = Unit {0}
  AnswerIs bound (some (q, sent)) = IsQuery fns bound q

  finish-AnswerIs :
      (bound : ℕ) (q : BdQuery) (now : ℕ) (r : Option BdQuery)
      → r ≡ finish q now
      → IsQuery fns bound q
      → AnswerIs bound (Option.map (λ r. (r, none)) r)
  unfolding finish
  finish-AnswerIs bound q now none e v = tt
  finish-AnswerIs bound q now (some r) e v =
      finished (final_state q.id q.closest q.potential_closest) e
    where
      finished :
          (s : Option QueryState)
          → some r
            ≡ Option.map
                (λ s. record q {
                  state = s;
                  search_time = if is_querying q.state then now - q.query_ts else q.search_time;
                })
                s
          → IsQuery fns bound r
      finished none e = cc
      finished (some s) e = ground arith

  after_search-AnswerIs :
      (bound : ℕ) (q : BdQuery) (now : ℕ) (random : BdNodeId) (r : Search)
      → IsQuery fns bound q
      → Marks q.closest r
      → AnswerIs bound (after_search fns q now random r)
  after_search-AnswerIs bound q now random (picked p m) v k = record {
    closest_list = Kept-IsList fns q.id k v.closest_list;
    potential_list = v.potential_list;
    closest_bound = omega (arith, Kept-length k, v.closest_bound);
    potential_bound = v.potential_bound;
  }
  after_search-AnswerIs bound q now random (exhausted b) v k =
      elim (Bool-cases (is_waiting fns q now b)) [
        | inl e ↦ rw e v
        | inr e ↦ rw e (finish-AnswerIs bound q now (finish q now) refl v)
      ]

  pub next_query-AnswerIs :
      (bound : ℕ) (q : BdQuery) (now : ℕ) (random : BdNodeId)
      → IsQuery fns bound q
      → AnswerIs bound (next_query fns q now random)
  unfolding next_query
  next_query-AnswerIs bound q now random v =
      let idle : Bool = has_flag q.query_flags qflags_do_idle in
      elim (Bool-cases (not (is_querying q.state) && not idle)) [
        | inl e ↦ rw e v
        | inr e ↦ rw e (
            after_search-AnswerIs bound (record q { idle_peer_retry_period = retry_period q now })
              now random _
              (record {
                closest_list = v.closest_list;
                potential_list = v.potential_list;
                closest_bound = v.closest_bound;
                potential_bound = v.potential_bound;
              })
              (search_closest-Marks now (retry_period q now) idle q.closest))
      ]

-- ===== src/Query/Results.antt =====
-- result and matchResult of bitdht/bdquery.cc: the peers that were looked for.
use bitdht.Base.{
  ◌<◌, ◌≡◌, ◌≢◌, refl, sym, ap, ◌∙◌, ◌⊎◌, ◌↔◌, inl, inr, true, false, not, List, [], ◌∷◌, ◌++◌, map,
  ◌==◌, Bool-cases, length, keep_if, length-keep_if-le, All, arith, subst,
}
use bitdht.Peer.{BdNodeId, BdMetric, BdId, BdPeer, IsNodeId, zero_node_id, node_id_lt}
use bitdht.Peer.Order.{node_id_lt-iff-lt, node_id_eq-iff-eq, node_id_lt_self}
use bitdht.DhtFunctions.{DhtFunctions, DhtLaws}
use bitdht.Multimap
use bitdht.Query.{Entries, BdQuery, is_match, result, match_result}
use bitdht.Query.Invariant.{IsList}

zero-IsNodeId : IsNodeId zero_node_id
zero-IsNodeId = record { len = refl; bytes = omega arith }

-- Of a list that has no match nothing is kept.
keep_none :
    (id : BdNodeId) (m : Entries)
    → All (λ e. is_match id e ≡ false) m
    → keep_if (is_match id) m ≡ []
keep_none id [] h = refl
keep_none id (e ∷ m) h = rw h.0 (keep_none id m h.1)

module _ (fns : DhtFunctions) (laws : DhtLaws fns) (id : BdNodeId) (target : IsNodeId id) where
  -- A key is above zero exactly where the id is not the target.
  zero_lt-match :
      (e : BdMetric × BdPeer)
      → e.0 ≡ fns.distance id e.1.peer_id.id
      → IsNodeId e.1.peer_id.id
      → node_id_lt zero_node_id e.0 ≡ not (is_match id e)
  zero_lt-match e k v = elim (Bool-cases (is_match id e)) [
    | inl h ↦ rw h (rw (key_zero h) (node_id_lt_self zero_node_id))
    | inr h ↦ rw h (above h)
  ]
    where
      metric : IsNodeId e.0
      metric = subst IsNodeId (sym k) (laws.distance-IsNodeId id e.1.peer_id.id target v)

      same_id : (is_match id e ≡ true) ↔ (e.1.peer_id.id ≡ id)
      same_id = (node_id_eq-iff-eq e.1.peer_id.id id v target).0

      zero_key : (id ≡ e.1.peer_id.id) ↔ (fns.distance id e.1.peer_id.id ≡ zero_node_id)
      zero_key = let law = laws.distance_zero id e.1.peer_id.id target v in (law.1, law.0)

      key_zero : is_match id e ≡ true → e.0 ≡ zero_node_id
      key_zero h = k ∙ zero_key.0 (sym (same_id.0 h))

      not_below : node_id_lt e.0 zero_node_id ≡ false
      not_below = ground (arith, node_id_lt-iff-lt e.0 zero_node_id metric zero-IsNodeId)

      above : is_match id e ≡ false → node_id_lt zero_node_id e.0 ≡ true
      above h = elim (Bool-cases (node_id_lt zero_node_id e.0)) [
        | inl l ↦ l
        | inr l ↦
            let both = node_id_eq-iff-eq e.0 zero_node_id metric zero-IsNodeId in
            let is_zero : e.0 ≡ zero_node_id = both.0.0 (both.1.1 (not_below, l)) in
            absurd (cc (h, same_id.1 (sym (zero_key.1 (sym k ∙ is_zero)))))
      ]

  -- Behind a key above zero there is no match.
  later_keys :
      (d : BdMetric) (m : Entries)
      → IsNodeId d
      → node_id_lt zero_node_id d ≡ true
      → All (λ e. node_id_lt e.0 d ≡ false) m
      → All (λ e. e.0 ≡ fns.distance id e.1.peer_id.id) m
      → All (λ e. IsNodeId e.1.peer_id.id) m
      → All (λ e. is_match id e ≡ false) m
  later_keys d [] n z h k v = tt
  later_keys d (e ∷ m) n z h k v =
      let metric : IsNodeId e.0 =
        subst IsNodeId (sym k.0) (laws.distance-IsNodeId id e.1.peer_id.id target v.0) in
      (
        ground (
          arith,
          zero_lt-match e k.0 v.0,
          node_id_lt-iff-lt zero_node_id e.0 zero-IsNodeId metric,
          node_id_lt-iff-lt zero_node_id d zero-IsNodeId n,
          node_id_lt-iff-lt e.0 d metric n,
        ),
        later_keys d m n z h.1 k.1 v.1,
      )

  up_to_zero :
      (m : Entries)
      → IsList fns id m
      → All (λ e. IsNodeId e.1.peer_id.id) m
      → Multimap.before_upper node_id_lt zero_node_id m ≡ keep_if (is_match id) m
  up_to_zero [] v n = refl
  up_to_zero (e ∷ m) v n =
      let metric : IsNodeId e.0 =
        subst IsNodeId (sym v.keyed.0) (laws.distance-IsNodeId id e.1.peer_id.id target n.0) in
      elim (Bool-cases (is_match id e)) [
        | inl h ↦
            let at_zero : node_id_lt zero_node_id e.0 ≡ false =
              zero_lt-match e v.keyed.0 n.0 ∙ ap not h in
            rw (at_zero, h)
              (ap (◌∷◌ e) (up_to_zero m (record { ordered = v.ordered.1; keyed = v.keyed.1 }) n.1))
        | inr h ↦
            let above : node_id_lt zero_node_id e.0 ≡ true =
              zero_lt-match e v.keyed.0 n.0 ∙ ap not h in
            rw (above, h)
              (sym (keep_none id m (later_keys e.0 m metric above v.ordered.0 v.keyed.1 n.1)))
      ]

-- With the limit that a new query has, for a target of twenty bytes, entries in order and keyed by their distance,
-- peers with ids of twenty bytes, and the laws of the DHT functions, the answer is the list of the closest peers that have the node id
-- looked for, in order, and true is returned if there are any.
pub result_lem :
    (fns : DhtFunctions) (q : BdQuery) (answer : List BdId)
    → DhtLaws fns
    → IsNodeId q.id
    → q.limit ≡ zero_node_id
    → IsList fns q.id q.closest
    → All (λ e. IsNodeId e.1.peer_id.id) q.closest
    → let matches = keep_if (is_match q.id) q.closest in
      ((result q answer).0 ≡ answer ++ map (λ e. e.1.peer_id) matches)
      × ((result q answer).1 ≡ not (length matches == 0))
unfolding result
result_lem fns q answer laws target l v n =
    let found =
      ap (λ d. Multimap.before_upper node_id_lt d q.closest) l
      ∙ up_to_zero fns laws q.id target q.closest v n in
    (ap (λ m. answer ++ map (λ e. e.1.peer_id) m) found, ap (λ m. not (length m == 0)) found)

length-pos_iff : (m : Entries) → (0 < length m) ↔ (m ≢ [])
length-pos_iff [] = (λ h. absurd (omega arith), λ n. absurd (n refl))
length-pos_iff (e ∷ m) = (λ h e. cc, λ n. omega arith)

-- matchResult appends the peers that have the node id, of both lists, and returns true if a closest peer
-- has it or if there is any potential peer, with the node id or without.
pub match_result_lem :
    (q : BdQuery) (id_list : List BdPeer)
    → let first = keep_if (is_match q.id) q.closest in
      let second = keep_if (is_match q.id) q.potential_closest in
      ((match_result q id_list).0 ≡ id_list ++ (map (λ e. e.1) first ++ map (λ e. e.1) second))
      × (((match_result q id_list).1 ≡ true) ↔ ((first ≢ []) ⊎ (q.potential_closest ≢ [])))
unfolding match_result
match_result_lem q id_list =
    let first = keep_if (is_match q.id) q.closest in
    let fits = length-keep_if-le (is_match q.id) q.potential_closest in
    (
      refl,
      (
        λ h. elim (Bool-cases (length first == 0)) [
          | inl none_first ↦ inr ((length-pos_iff q.potential_closest).0 (ground (arith, fits)))
          | inr some_first ↦ inl ((length-pos_iff first).0 (ground arith))
        ],
        λ s. elim s [
          | inl n ↦ ground (arith, (length-pos_iff first).1 n)
          | inr n ↦ ground (arith, (length-pos_iff q.potential_closest).1 n)
        ],
      ),
    )

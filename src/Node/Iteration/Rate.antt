-- ===== src/Node/Iteration/Rate.antt =====
-- What the two loops of bdNode::iteration in bitdht/bdnode.cc send, and in what order the queries are asked.
use bitdht.Base.{
  ℕ, zero, suc, ◌+◌, ◌≤◌, ◌≡◌, refl, sym, ap, ◌∙◌, ◌%◌, ◌^◌, ◌⊎◌, inl, inr, min, Bool, not, ◌&&◌,
  Option, none, some, List, [], ◌∷◌, ◌++◌, map, arith, ltb, length, length-append, take, drop,
  Bool-cases,
}
use mathlib.Core.List.{append_assoc, append-nil}
use mathlib.Core.Option
use bitdht.Peer.{BdNodeId, BdId}
use bitdht.DhtFunctions.{DhtFunctions}
use bitdht.Query.{
  BdQuery, QueryState, Answer, Search, picked, exhausted, next_query, after_search, finish,
  final_state, is_waiting, is_querying, has_flag, qflags_do_idle, retry_period, search_closest,
}
use bitdht.Msgs.Create.{find_node_msg}
use bitdht.Node.{World, Node, NetMsg, trans_id, gen_new_trans_id}
use bitdht.Node.Sending.{send_pkt, msgout_ping, msgout_find_node}
use bitdht.Node.Iteration.{
  max_msgs, ping_peer, ping_potential, push_query, count_sent, ask_queries, ◌>>=◌,
}

module _ (fns : DhtFunctions) where
  -- The id of the query that a call leaves.
  abbrev SameTarget : BdNodeId → Answer → Type 0
  SameTarget id none = Unit {0}
  SameTarget id (some (q, ask)) = q.id ≡ id

  finished-SameTarget :
      (q : BdQuery) (now time : ℕ) (s : Option QueryState)
      → SameTarget q.id (
          Option.map {A = BdQuery}
            (λ r. (r, none))
            (Option.map (λ s. record q { state = s; search_time = time }) s))
  finished-SameTarget q now time none = tt
  finished-SameTarget q now time (some s) = refl

  after_search-SameTarget :
      (q : BdQuery) (now : ℕ) (random : BdNodeId) (r : Search)
      → SameTarget q.id (after_search fns q now random r)
  unfolding finish
  after_search-SameTarget q now random (picked p m) = refl
  after_search-SameTarget q now random (exhausted b) = elim (Bool-cases (is_waiting fns q now b)) [
    | inl e ↦ rw e refl
    | inr e ↦ rw e (finished-SameTarget q now _ (final_state q.id q.closest q.potential_closest))
  ]

  next_query-SameTarget :
      (q : BdQuery) (now : ℕ) (random : BdNodeId) → SameTarget q.id (next_query fns q now random)
  unfolding next_query
  next_query-SameTarget q now random =
      let idle : Bool = has_flag q.query_flags qflags_do_idle in
      elim (Bool-cases (not (is_querying q.state) && not idle)) [
        | inl e ↦ rw e refl
        | inr e ↦ rw e (
            after_search-SameTarget (record q { idle_peer_retry_period = retry_period q now }) now
              random (search_closest now (retry_period q now) idle q.closest))
      ]

abbrev pub query_ids : List BdQuery → List BdNodeId
query_ids = map (λ q. q.id)

count_sent-le :
    (ask : Option (BdId × BdNodeId)) (sent : ℕ)
    → (sent ≤ count_sent sent ask) × (count_sent sent ask ≤ suc sent)
count_sent-le none sent = omega arith
count_sent-le (some ask) sent = omega arith

-- How many queries gave a peer to ask.
abbrev pub counted : List (Option (BdId × BdNodeId)) → ℕ
counted [] = 0
counted (none ∷ asks) = counted asks
counted (some ask ∷ asks) = suc (counted asks)

count_sent-counted :
    (ask : Option (BdId × BdNodeId)) (asks : List (Option (BdId × BdNodeId))) (sent : ℕ)
    → count_sent sent ask + counted asks ≡ sent + counted (ask ∷ asks)
count_sent-counted none asks sent = refl
count_sent-counted (some ask) asks sent = omega arith

module _ (w : World) where
  -- The queries after one call each, in their order, and what they gave, the first with the random id of the round.
  abbrev pub ask_round : ℕ → List BdQuery → Option (List BdQuery × List (Option (BdId × BdNodeId)))
  ask_round round [] = some ([], [])
  ask_round round (q ∷ qs) = next_query w.fns q w.now (w.random_ids round) >>= λ r.
      ask_round (suc round) qs >>= λ rest. some (r.0 ∷ rest.0, r.1 ∷ rest.1)

  -- A find_node message to each peer that is given, with transactions that follow one another.
  abbrev pub find_msgs : BdNodeId → ℕ → List (Option (BdId × BdNodeId)) → List NetMsg
  find_msgs own_id counter [] = []
  find_msgs own_id counter (none ∷ asks) = find_msgs own_id counter asks
  find_msgs own_id counter (some (id, target) ∷ asks) =
      record {
        bytes = w.be_encode (find_node_msg (trans_id counter) own_id target);
        addr = id.addr;
      }
      ∷ find_msgs own_id ((counter + 1) % 2 ^ 64) asks

  -- What the loop over the queries gives, where the first `k` are called: the others, before those that were done and the
  -- called ones as the calls leave them; the messages for what they gave; and a call for each, or as many messages as
  -- are allowed. `none` where a call among the first is undefined behaviour.
  abbrev pub IsRound : ℕ → List BdQuery → List BdQuery → Node → ℕ → Option (Node × ℕ) → Type 0
  IsRound round qs done n sent none = (k : ℕ) × (ask_round round (take k qs) ≡ none)
  IsRound round qs done n sent (some (n', sent')) =
      (k : ℕ) × (rs : List BdQuery) × (asks : List (Option (BdId × BdNodeId))) × (ask_round round
          (take k qs)
        ≡ some (rs, asks))
      × (query_ids rs ≡ query_ids (take k qs))
      × (n'.local_queries ≡ drop k qs ++ (done ++ rs))
      × (n'.outgoing_msgs ≡ n.outgoing_msgs ++ find_msgs n.own_id n.trans_id_counter asks)
      × (sent' ≡ sent + counted asks)
      × (sent' ≤ max_msgs)
      × ((length qs ≤ k) ⊎ (max_msgs ≤ sent'))

  length-ping_peer :
      (n : Node) (id : BdId)
      → length (ping_peer w n id).outgoing_msgs ≡ suc (length n.outgoing_msgs)
  unfolding msgout_ping send_pkt gen_new_trans_id
  length-ping_peer n id = omega (arith, length-append {0} n.outgoing_msgs _)

  -- The first potential peers, as many as are allowed, are pinged with one message each, and the others stay.
  pub ping_potential_lem :
      (allowed : ℕ) (ids : List BdId) (n : Node) (sent : ℕ)
      → ((ping_potential w allowed ids n sent).1 ≡ sent + min allowed (length ids))
        × ((ping_potential w allowed ids n sent).0.potential_peers ≡ drop allowed ids)
        × (length (ping_potential w allowed ids n sent).0.outgoing_msgs
            ≡ length n.outgoing_msgs + min allowed (length ids))
  unfolding ping_potential
  ping_potential_lem zero ids n sent = (omega arith, refl, omega arith)
  ping_potential_lem (suc allowed) [] n sent = (omega arith, refl, omega arith)
  ping_potential_lem (suc allowed) (id ∷ ids) n sent =
      let (s, p, l) = ping_potential_lem allowed ids (ping_peer w n id) (suc sent) in
      (omega (arith, s), p, omega (arith, l, length-ping_peer n id))

  push_query-find_msgs :
      (n : Node) (ask : Option (BdId × BdNodeId)) (asks : List (Option (BdId × BdNodeId)))
      → (push_query w n ask).outgoing_msgs
          ++ find_msgs (push_query w n ask).own_id (push_query w n ask).trans_id_counter asks
        ≡ n.outgoing_msgs ++ find_msgs n.own_id n.trans_id_counter (ask ∷ asks)
  unfolding msgout_find_node send_pkt gen_new_trans_id
  push_query-find_msgs n none asks = refl
  push_query-find_msgs n (some (id, target)) asks = append_assoc n.outgoing_msgs _ _

  IsRound-cons :
      (round : ℕ) (q q' : BdQuery) (ask : Option (BdId × BdNodeId)) (qs done : List BdQuery)
      → (n : Node) (sent : ℕ) (r : Option (Node × ℕ))
      → next_query w.fns q w.now (w.random_ids round) ≡ some (q', ask)
      → q'.id ≡ q.id
      → IsRound (suc round) qs (done ++ q' ∷ []) (push_query w n ask) (count_sent sent ask) r
      → IsRound round (q ∷ qs) done n sent r
  IsRound-cons round q q' ask qs done n sent none a e (k, f) = (suc k, rw (a, f) refl)
  IsRound-cons round q q' ask qs done n sent (some (n', sent')) a e
        (k, rs, asks, f, ids, l, o, c, b, z) =
      (
        suc k,
        q' ∷ rs,
        ask ∷ asks,
        rw (a, f) refl,
        rw (e, ids) refl,
        l ∙ ap (λ m. drop k qs ++ m) (append_assoc done (q' ∷ []) rs),
        o ∙ push_query-find_msgs n ask asks,
        c ∙ count_sent-counted ask asks sent,
        b,
        ground (arith, z),
      )

  asked-IsRound :
      (round : ℕ) (q : BdQuery) (qs done : List BdQuery) (n : Node) (sent : ℕ) (r : Answer)
      → next_query w.fns q w.now (w.random_ids round) ≡ r
      → SameTarget w.fns q.id r
      → ((q' : BdQuery) (ask : Option (BdId × BdNodeId))
          → IsRound (suc round) qs (done ++ q' ∷ []) (push_query w n ask) (count_sent sent ask) (
              ask_queries w
                (suc round)
                qs
                (done ++ q' ∷ [])
                (push_query w n ask)
                (count_sent sent ask)))
      → IsRound round (q ∷ qs) done n sent (
          r >>= λ r.
          ask_queries w
            (suc round)
            qs
            (done ++ r.0 ∷ [])
            (push_query w n r.1)
            (count_sent sent r.1))
  asked-IsRound round q qs done n sent none a e ih = (1, rw a refl)
  asked-IsRound round q qs done n sent (some (q', ask)) a e ih =
      IsRound-cons round q q' ask qs done n sent _ a e (ih q' ask)

  -- If no more than fifty messages are sent before the loop over the queries, it calls some of the first of them, each once
  -- and in their order: all of them, or as many as bring the messages to fifty, and never more. Behind the messages that
  -- wait go find_node messages, one to each peer that a call gives and for the target that it gives, with the node's own
  -- id and transactions that follow one another; and the called queries, as their calls leave them and with their ids, go
  -- to the end of the list behind the others. Only where one of these calls is undefined behaviour is the loop so.
  pub ask_queries-IsRound :
      (round : ℕ) (qs done : List BdQuery) (n : Node) (sent : ℕ)
      → sent ≤ max_msgs
      → IsRound round qs done n sent (ask_queries w round qs done n sent)
  unfolding ask_queries
  ask_queries-IsRound round [] done n sent h = (
    0,
    [],
    [],
    refl,
    refl,
    sym (append-nil done),
    sym (append-nil n.outgoing_msgs),
    omega arith,
    h,
    inl (omega arith),
  )
  ask_queries-IsRound round (q ∷ qs) done n sent h = elim (Bool-cases (ltb sent max_msgs)) [
    | inl e ↦ rw e (
        asked-IsRound round q qs done n sent (next_query w.fns q w.now (w.random_ids round)) refl
          (next_query-SameTarget w.fns q w.now (w.random_ids round))
          (λ q' ask.
            ask_queries-IsRound (suc round) qs (done ++ q' ∷ []) (push_query w n ask)
              (count_sent sent ask) (ground (arith, e, count_sent-le ask sent))))
    | inr e ↦ rw e (
      0,
      [],
      [],
      refl,
      refl,
      rw (append-nil done) refl,
      sym (append-nil n.outgoing_msgs),
      omega arith,
      h,
      inr (ground (arith, e)),
    )
  ]

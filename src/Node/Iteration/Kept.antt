-- ===== src/Node/Iteration/Kept.antt =====
-- bdNode::iteration of bitdht/bdnode.cc keeps the invariant of the node.
use bitdht.Base.{
  ℕ, zero, suc, ◌+◌, ◌≤◌, inl, inr, Bool, true, false, Option, none, some, List, [], ◌∷◌, ◌++◌, ltb,
  ◌==◌, if◌then◌else◌, All, All-append, Bool-cases,
}
use bitdht.Peer.{BdNodeId, BdId}
use bitdht.DhtFunctions.{DhtLaws}
use bitdht.Space.{BdSpace, out_of_date_peer}
use bitdht.Space.Stale.{out_of_date_peer-IsTable}
use bitdht.Query.{BdQuery, Answer, RemoteQuery, next_query}
use bitdht.Query.Invariant.{IsQuery}
use bitdht.Query.Invariant.Asking.{AnswerIs, next_query-AnswerIs}
use bitdht.Node.{World, Node, NetMsg}
use bitdht.Node.Sending.{msgout_reply_find_node}
use bitdht.Node.Remote.{
  process_queries, process_remote_query, answer_neighbours, max_remote_query_age,
  bd_query_neighbours, bd_query_hash,
}
use bitdht.Node.Iteration.{
  max_msgs, allowed_pings, count_sent, receive_all, push_query, ask_queries, sweep_on,
  ping_out_of_date, finish_iteration, iteration, ◌>>=◌,
}
use bitdht.Node.Invariant.{IsNode, NodeIs, send_pkt-IsNode}
use bitdht.Node.Invariant.Kept.{recv_pkt-NodeIs, counters-IsNode}
use bitdht.Node.Iteration.Sends.{
  ping_potential-IsNode, push_query-IsNode, ping_stale-IsNode, broadcast_peers-IsNode,
  punching-IsNode,
}

module _ (w : World) (bound : ℕ) where
  with_queries-IsNode :
      (n : Node) (qs : List BdQuery)
      → All (IsQuery w.fns bound) qs
      → IsNode w.fns bound n
      → IsNode w.fns bound (record n { local_queries = qs })
  with_queries-IsNode n qs h v = record {
    table = v.table;
    queries = h;
    store = v.store;
    tokens = v.tokens;
    black = v.black;
  }

  abbrev SentIs : Option (Node × ℕ) → Type 0
  SentIs none = Unit {0}
  SentIs (some (n, sent)) = IsNode w.fns bound n

  asked-SentIs :
      (r : Answer) (next : BdQuery × Option (BdId × BdNodeId) → Option (Node × ℕ))
      → AnswerIs w.fns bound r
      → ((q : BdQuery) (ask : Option (BdId × BdNodeId))
          → IsQuery w.fns bound q
          → SentIs (next (q, ask)))
      → SentIs (r >>= next)
  asked-SentIs none next h ih = tt
  asked-SentIs (some (q, ask)) next h ih = ih q ask h

  ask_queries-SentIs :
      (round : ℕ) (qs done : List BdQuery) (n : Node) (sent : ℕ)
      → All (IsQuery w.fns bound) qs
      → All (IsQuery w.fns bound) done
      → IsNode w.fns bound n
      → SentIs (ask_queries w round qs done n sent)
  unfolding ask_queries
  ask_queries-SentIs round [] done n sent h k v = with_queries-IsNode n done k v
  ask_queries-SentIs round (q ∷ qs) done n sent h k v = elim (Bool-cases (ltb sent max_msgs)) [
    | inl e ↦ rw e (
        asked-SentIs (next_query w.fns q w.now (w.random_ids round)) _
          (next_query-AnswerIs w.fns bound q w.now (w.random_ids round) h.0)
          (λ q' ask g.
            ask_queries-SentIs (suc round) qs (done ++ q' ∷ []) (push_query w n ask)
              (count_sent sent ask) h.1 (All-append (IsQuery w.fns bound) done (q' ∷ []) k (g, tt))
              (push_query-IsNode w bound n ask v)))
    | inr e ↦ rw e (
        with_queries-IsNode n (q ∷ (qs ++ done))
          (h.0, All-append (IsQuery w.fns bound) qs done h.1 k) v)
  ]

  queue-IsNode :
      (n : Node) (qs : List RemoteQuery)
      → IsNode w.fns bound n
      → IsNode w.fns bound (record n { remote_queries = qs })
  queue-IsNode n qs v = record {
    table = v.table;
    queries = v.queries;
    store = v.store;
    tokens = v.tokens;
    black = v.black;
  }

  answer-IsNode :
      (n : Node) (q : RemoteQuery)
      → IsNode w.fns bound n
      → IsNode w.fns bound (answer_neighbours w n q)
  unfolding msgout_reply_find_node
  answer-IsNode n q v =
      let h = send_pkt-IsNode w.fns bound n _ _ v in
      record {
        table = h.table;
        queries = h.queries;
        store = h.store;
        tokens = h.tokens;
        black = h.black;
      }

  process_queries-IsNode :
      (n : Node) (qs : List RemoteQuery)
      → IsNode w.fns bound n
      → IsNode w.fns bound (process_queries w n qs)
  unfolding process_queries
  process_queries-IsNode n [] v = queue-IsNode n [] v
  process_queries-IsNode n (q ∷ qs) v =
      elim (Bool-cases (ltb w.now (q.query_ts + max_remote_query_age))) [
        | inl e ↦ elim (Bool-cases (q.query_type == bd_query_neighbours)) [
          | inl f ↦ rw (e, f) (queue-IsNode _ qs (answer-IsNode n q v))
          | inr f ↦ elim (Bool-cases (q.query_type == bd_query_hash)) [
            | inl g ↦
                rw (e, f, g)
                  (record {
                    table = v.table;
                    queries = v.queries;
                    store = v.store;
                    tokens = v.tokens;
                    black = v.black;
                  })
            | inr g ↦ rw (e, f, g) (process_queries-IsNode n qs v)
          ]
        ]
        | inr e ↦ rw e (process_queries-IsNode n qs v)
      ]

  with_space-IsNode :
      (n : Node)
      → IsNode w.fns bound n
      → IsNode w.fns bound (record n { node_space = (out_of_date_peer n.node_space w.now).0 })
  with_space-IsNode n v = record {
    table = out_of_date_peer-IsTable w.fns n.node_space w.now v.table;
    queries = v.queries;
    store = v.store;
    tokens = v.tokens;
    black = v.black;
  }

  sweep_on-NodeIs :
      (next : Node → Option Node) (n : Node) (r : BdSpace × Option BdId)
      → ((m : Node) → IsNode w.fns bound m → NodeIs w.fns bound (next m))
      → IsNode w.fns bound (record n { node_space = r.0 })
      → NodeIs w.fns bound (sweep_on w next n r)
  sweep_on-NodeIs next n (space, none) ih v = v
  sweep_on-NodeIs next n (space, some id) ih v = ih _ (ping_stale-IsNode w bound _ id v)

  ping_out_of_date-NodeIs :
      (fuel : ℕ) (n : Node) → IsNode w.fns bound n → NodeIs w.fns bound (ping_out_of_date w fuel n)
  unfolding ping_out_of_date
  ping_out_of_date-NodeIs zero n v = tt
  ping_out_of_date-NodeIs (suc fuel) n v =
      sweep_on-NodeIs (ping_out_of_date w fuel) n (out_of_date_peer n.node_space w.now)
        (ping_out_of_date-NodeIs fuel) (with_space-IsNode n v)

  if-IsNode :
      (t : Bool) (x y : Node)
      → IsNode w.fns bound x
      → IsNode w.fns bound y
      → IsNode w.fns bound (if t then x else y)
  if-IsNode true x y h k = h
  if-IsNode false x y h k = k

  counted-IsNode :
      (n : Node) (count : ℕ)
      → IsNode w.fns bound n
      → IsNode w.fns bound (record n { broadcast_count = count })
  counted-IsNode n count v = record {
    table = v.table;
    queries = v.queries;
    store = v.store;
    tokens = v.tokens;
    black = v.black;
  }

  finish_iteration-IsNode :
      (n : Node) → IsNode w.fns bound n → IsNode w.fns bound (finish_iteration w n)
  unfolding finish_iteration
  finish_iteration-IsNode n v =
      let counted = counted-IsNode n (n.broadcast_count + 1) v in
      let sent = if-IsNode _ _ _ (broadcast_peers-IsNode w bound _ counted) counted in
      counters-IsNode w bound _ (if-IsNode _ _ _ (punching-IsNode w bound 100 _ sent) sent) _

  receive-NodeIs :
      (next : Node → Option Node) (r : Option Node)
      → NodeIs w.fns bound r
      → ((m : Node) → IsNode w.fns bound m → NodeIs w.fns bound (next m))
      → NodeIs w.fns bound (r >>= next)
  receive-NodeIs next none h ih = tt
  receive-NodeIs next (some m) h ih = ih m h

  sent-NodeIs :
      (next : Node × ℕ → Option Node) (r : Option (Node × ℕ))
      → SentIs r
      → ((m : Node) (sent : ℕ) → IsNode w.fns bound m → NodeIs w.fns bound (next (m, sent)))
      → NodeIs w.fns bound (r >>= next)
  sent-NodeIs next none h ih = tt
  sent-NodeIs next (some (m, sent)) h ih = ih m sent h

module _ (w : World) (laws : DhtLaws w.fns) (bound : ℕ) (b : w.fns.nodes_per_bucket ≤ bound) where
  receive_all-NodeIs :
      (round : ℕ) (ms : List NetMsg) (n : Node)
      → IsNode w.fns bound n
      → NodeIs w.fns bound (receive_all w round ms n)
  unfolding receive_all
  receive_all-NodeIs round [] n v = v
  receive_all-NodeIs round (m ∷ ms) n v =
      receive-NodeIs w bound _ _
        (recv_pkt-NodeIs w laws bound b (w.leftovers round) (record n { incoming_msgs = ms }) m
          (record {
            table = v.table;
            queries = v.queries;
            store = v.store;
            tokens = v.tokens;
            black = v.black;
          }))
        (receive_all-NodeIs (suc round) ms)

  process_remote_query-IsNode :
      (n : Node) → IsNode w.fns bound n → IsNode w.fns bound (process_remote_query w n)
  unfolding process_remote_query
  process_remote_query-IsNode n v = process_queries-IsNode w bound n n.remote_queries v

  -- A whole iteration, with whatever datagrams came in, is undefined behaviour or keeps the invariant of the node, where
  -- the key space keeps its laws and the bound of a query covers a bucket.
  pub iteration-NodeIs : (n : Node) → IsNode w.fns bound n → NodeIs w.fns bound (iteration w n)
  unfolding iteration
  iteration-NodeIs n v =
      receive-NodeIs w bound _ _ (receive_all-NodeIs 0 n.incoming_msgs n v) (λ received h.
        let pinged =
          ping_potential-IsNode w bound allowed_pings received.potential_peers received 0 h in
        sent-NodeIs w bound _ _ (ask_queries-SentIs w bound 0 _ [] _ _ pinged.queries tt pinged)
          (λ asked sent k.
            receive-NodeIs w bound _ _
              (ping_out_of_date-NodeIs w bound _ _ (process_remote_query-IsNode asked k))
              (λ swept l. finish_iteration-IsNode w bound swept l)))

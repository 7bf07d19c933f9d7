-- ===== src/Query.antt =====
-- One lookup in progress, bdQuery of bitdht/bdquery.h and bitdht/bdquery.cc. The clock is the argument
-- `ts` or `now`; a signed difference of times `x - y > c` is written `y + c < x`. Ages of a query stay
-- below 2^31 seconds, so that the 32-bit periods do not wrap.
pub mod Adding
pub mod Entries
pub mod Finish
pub mod Closest
pub mod Invariant
pub mod Results
pub mod Runs
use mathlib.Core.Option
use bitdht.Base.{
  ℕ, zero, suc, ◌+◌, ◌-◌, ◌/◌, ◌≡◌, Bool, true, false, not, ◌&&◌, ◌||◌, Option, none, some, List,
  [], ◌∷◌, ◌++◌, map, ltb, leb, ◌==◌, if◌then◌else◌, length, count_if, keep_if, drop_last, bit_and,
}
use bitdht.Peer.{
  BdNodeId, BdMetric, BdId, BdPeer, blank_peer, zero_node_id, node_id_lt, node_id_eq, id_eq,
}
use bitdht.DhtFunctions.{DhtFunctions}
use bitdht.Multimap

abbrev pub min_query_age : ℕ
min_query_age = 10

abbrev pub max_query_age : ℕ
max_query_age = 1800

abbrev pub expected_reply : ℕ
expected_reply = 20

abbrev pub query_idle_retry_peer_period : ℕ
query_idle_retry_peer_period = 300

-- BITDHT_QFLAGS_DISGUISE, BITDHT_QFLAGS_DO_IDLE and BITDHT_PEER_STATUS_RECV_NODES.
abbrev pub qflags_disguise : ℕ
qflags_disguise = 1

abbrev pub qflags_do_idle : ℕ
qflags_do_idle = 2

abbrev pub peer_status_recv_nodes : ℕ
peer_status_recv_nodes = 2

abbrev pub has_flag : ℕ → ℕ → Bool
has_flag flags flag = not (bit_and flags flag == 0)

-- The constants BITDHT_QUERY_*.
pub data QueryState : Type 0 where
  ready querying failure found_closest peer_unreachable success : QueryState

abbrev pub is_querying : QueryState → Bool
is_querying querying = true
is_querying _ = false

abbrev pub Entries : Type 0
Entries = List (BdMetric × BdPeer)

pub record BdQuery : Type 0 where
  pub id : BdNodeId
  pub limit : BdMetric
  pub state : QueryState
  pub query_ts : ℕ
  pub query_flags : ℕ
  pub search_time : ℕ
  pub idle_peer_retry_period : ℕ
  pub closest : Entries
  pub potential_closest : Entries

abbrev pub start_peer : BdId → ℕ → BdPeer
start_peer id now = record blank_peer { peer_id = id; found_time = now }

-- The answer is appended to what the caller's list holds.
unfoldable pub result : BdQuery → List BdId → List BdId × Bool
result q answer =
    let found = Multimap.before_upper node_id_lt q.limit q.closest in
    (answer ++ map (λ e. e.1.peer_id) found, not (length found == 0))

abbrev pub is_match : BdNodeId → BdMetric × BdPeer → Bool
is_match id e = node_id_eq e.1.peer_id.id id

-- The counter `i` counts each match, and each potential peer once more.
unfoldable pub match_result : BdQuery → List BdPeer → List BdPeer × Bool
match_result q id_list =
    let first = keep_if (is_match q.id) q.closest in
    let second = keep_if (is_match q.id) q.potential_closest in
    let i = length first + (length second + length q.potential_closest) in
    (id_list ++ (map (λ e. e.1) first ++ map (λ e. e.1) second), ltb 0 i)

-- The loop of nextQuery: the peer to query, with the list in which it is marked, or whether a peer was
-- never heard of.
pub data Search : Type 0 where
  picked : BdPeer → Entries → Search
  exhausted : Bool → Search

abbrev pub behind : BdMetric × BdPeer → Search → Search
behind e (picked p m) = picked p (e ∷ m)
behind e (exhausted not_finished) = exhausted ((e.1.last_recv_time == 0) || not_finished)

abbrev pub is_due : ℕ → ℕ → Bool → BdPeer → Bool
is_due now period idle p = (p.last_send_time == 0) || (idle && ltb (p.last_send_time + period) now)

unfoldable pub search_closest : ℕ → ℕ → Bool → Entries → Search
search_closest now period idle [] = exhausted false
search_closest now period idle ((d, p) ∷ m) =
    let rest = behind (d, p) (search_closest now period idle m) in
    if is_due now period idle p then picked p ((d, record p { last_send_time = now }) ∷ m) else rest

-- The state of a finished query. `none` is undefined behaviour: the first potential peer is read where
-- there is none.
unfoldable pub final_state : BdNodeId → Entries → Entries → Option QueryState
final_state id [] potential = some failure
final_state id (e ∷ m) [] = if node_id_eq e.1.peer_id.id id then some success else none
final_state id (e ∷ m) (f ∷ n) =
    if node_id_eq e.1.peer_id.id id
    then some success
    else if node_id_eq f.1.peer_id.id id
    then some peer_unreachable
    else some found_closest

unfoldable pub finish : BdQuery → ℕ → Option BdQuery
finish q now =
    let time = if is_querying q.state then now - q.query_ts else q.search_time in
    Option.map (λ s. record q { state = s; search_time = time })
      (final_state q.id q.closest q.potential_closest)

-- May the query go on waiting, with every peer asked?
abbrev pub is_waiting : DhtFunctions → BdQuery → ℕ → Bool → Bool
is_waiting fns q now not_finished =
    ltb now (q.query_ts + min_query_age)
    || (not (ltb (q.query_ts + max_query_age) now)
        && (ltb (length q.closest) fns.nodes_per_bucket || not_finished))

-- What the caller gets: the query after the call, and the peer to ask with the id to ask for.
abbrev pub Answer : Type 0
Answer = Option (BdQuery × Option (BdId × BdNodeId))

abbrev pub target_id : DhtFunctions → BdQuery → BdId → BdNodeId → BdNodeId
target_id fns q id random =
    if has_flag q.query_flags qflags_disguise then fns.random_mid_id q.id id.id random else q.id

abbrev pub after_search : DhtFunctions → BdQuery → ℕ → BdNodeId → Search → Answer
after_search fns q now random (picked p m) =
    some (record q { closest = m }, some (p.peer_id, target_id fns q p.peer_id random))
after_search fns q now random (exhausted not_finished) =
    if is_waiting fns q now not_finished
    then some (q, none)
    else Option.map (λ r. (r, none)) (finish q now)

abbrev pub retry_period : BdQuery → ℕ → ℕ
retry_period q now =
    let half = (now - q.query_ts) / 2 in
    if ltb q.idle_peer_retry_period half then half else q.idle_peer_retry_period

unfoldable pub next_query : DhtFunctions → BdQuery → ℕ → BdNodeId → Answer
next_query fns q now random =
    let idle = has_flag q.query_flags qflags_do_idle in
    let q' = record q { idle_peer_retry_period = retry_period q now } in
    if not (is_querying q.state) && not idle
    then some (q, none)
    else after_search fns q' now random
        (search_closest now q'.idle_peer_retry_period idle q'.closest)

module _ (fns : DhtFunctions) where
  unfoldable pub insert_start : BdNodeId → ℕ → List BdId → Entries → Entries
  insert_start id now [] m = m
  insert_start id now (i ∷ start_list) m =
      insert_start id now start_list
        (Multimap.insert node_id_lt (fns.distance id i.id) (start_peer i now) m)

  unfoldable pub new_query : BdNodeId → List BdId → ℕ → ℕ → BdQuery
  new_query id start_list query_flags now = record {
    id = id;
    limit = zero_node_id;
    state = querying;
    query_ts = now;
    query_flags = query_flags;
    search_time = 0;
    idle_peer_retry_period = query_idle_retry_peer_period;
    closest = insert_start id now start_list [];
    potential_closest = [];
  }

-- bdRemoteQuery: what another node asked for.
pub record RemoteQuery : Type 0 where
  pub id : BdId
  pub query : BdNodeId
  pub trans_id : List ℕ
  pub query_type : ℕ
  pub query_ts : ℕ

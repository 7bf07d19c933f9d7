-- ===== src/Node/Iteration.antt =====
-- bdNode::iteration of bitdht/bdnode.cc, which runs once a second, with broadcastPeers and punching. The loop that
-- pings peers out of date has fuel.
pub mod Sweep
pub mod Sends
pub mod Kept
pub mod Rate
use bitdht.Base.{
  ℕ, zero, suc, ◌+◌, ◌%◌, Bool, Option, none, some, List, [], ◌∷◌, ◌++◌, ltb, ◌==◌, if◌then◌else◌,
  length,
}
use bitdht.Peer.{BdNodeId, BdId, BdPeer}
use bitdht.Space.{BdSpace, Bucket, out_of_date_peer}
use bitdht.Query.{BdQuery, next_query}
use bitdht.Node.{World, Node, NetMsg, gen_new_trans_id, reset_counters}
use bitdht.Node.Sending.{msgout_ping, msgout_find_node, msgout_ask_myip, msgout_broadcast_conn}
use bitdht.Node.Remote.{process_remote_query}
use bitdht.Node.Receiving.{recv_pkt}

-- BDNODE_MED_MSG_RATE, and nine tenths of it.
abbrev pub max_msgs : ℕ
max_msgs = 50

abbrev pub allowed_pings : ℕ
allowed_pings = 45

abbrev pub count_peers : List Bucket → ℕ
count_peers [] = 0
count_peers (b ∷ bs) = length b + count_peers bs

abbrev pub count_sent : ℕ → Option (BdId × BdNodeId) → ℕ
count_sent sent none = sent
count_sent sent (some ask) = suc sent

infixl 5 ◌>>=◌
abbrev pub ◌>>=◌ {ℓ κ} : {A : Type ℓ} {B : Type κ} → Option A → (A → Option B) → Option B
none >>= f = none
some a >>= f = f a

module _ (w : World) where
  abbrev pub ping_again : ℕ → Node → BdId → List ℕ → Node
  ping_again zero n id tid = n
  ping_again (suc times) n id tid = ping_again times (msgout_ping w n id tid) id tid

  abbrev pub punch_all : ℕ → List BdId → Node → Node
  punch_all times [] n = n
  punch_all times (id ∷ ids) n =
      let (n', tid) = gen_new_trans_id n in punch_all times ids (ping_again times n' id tid)

  unfoldable pub punching : ℕ → Node → Node
  punching times n = punch_all times n.punching n

  abbrev pub send_requests : BdId → List (BdNodeId × BdNodeId) → Node → Node
  send_requests id [] n = n
  send_requests id ((id0, id1) ∷ m) n =
      let (n', tid) = gen_new_trans_id n in
      send_requests id m (msgout_broadcast_conn w n' id tid id0 id1)

  abbrev pub broadcast_to : List BdPeer → Node → Node
  broadcast_to [] n = n
  broadcast_to (p ∷ ps) n =
      let (n', tid) = gen_new_trans_id n in
      broadcast_to ps
        (send_requests p.peer_id n.connect_requests (msgout_ask_myip w n' p.peer_id tid))

  unfoldable pub broadcast_peers : Node → Node
  broadcast_peers n = let n' = broadcast_to n.white_nodes n in broadcast_to n'.store n'

  -- The loop over the incoming messages, with the number of the message.
  unfoldable pub receive_all : ℕ → List NetMsg → Node → Option Node
  receive_all round [] n = some n
  receive_all round (m ∷ ms) n =
      recv_pkt w (w.leftovers round) (record n { incoming_msgs = ms }) m
      >>= receive_all (suc round) ms

  abbrev pub ping_peer : Node → BdId → Node
  ping_peer n id =
      let (n', tid) = gen_new_trans_id n in
      let n'' = msgout_ping w n' id tid in
      record n'' { counters = record n''.counters { pings = suc n''.counters.pings } }

  -- Pings the potential peers from the front, while there are any and pings are allowed; counts the messages.
  unfoldable pub ping_potential : ℕ → List BdId → Node → ℕ → Node × ℕ
  ping_potential zero ids n sent = (record n { potential_peers = ids }, sent)
  ping_potential (suc allowed) [] n sent = (record n { potential_peers = [] }, sent)
  ping_potential (suc allowed) (id ∷ ids) n sent =
      ping_potential allowed ids (ping_peer n id) (suc sent)

  abbrev pub push_query : Node → Option (BdId × BdNodeId) → Node
  push_query n none = n
  push_query n (some (id, target)) =
      let (n', tid) = gen_new_trans_id n in
      let n'' = msgout_find_node w n' id tid target in
      record n'' { counters = record n''.counters { query_node = suc n''.counters.query_node } }

  -- Each query is asked once, in the order of the list, until enough messages are sent; `done` are those asked, which
  -- stand behind the others.
  unfoldable pub ask_queries : ℕ → List BdQuery → List BdQuery → Node → ℕ → Option (Node × ℕ)
  ask_queries round [] done n sent = some (record n { local_queries = done }, sent)
  ask_queries round (q ∷ qs) done n sent =
      let asked = next_query w.fns q w.now (w.random_ids round) >>= λ r.
      ask_queries (suc round) qs (done ++ r.0 ∷ []) (push_query n r.1) (count_sent sent r.1) in
      if ltb sent max_msgs
      then asked
      else some (record n { local_queries = q ∷ (qs ++ done) }, sent)

  abbrev pub ping_stale : Node → BdId → Node
  ping_stale n id =
      let (n', tid) = gen_new_trans_id n in
      let n'' = msgout_ping w n' id tid in
      record n'' {
        counters = record n''.counters { out_of_date_ping = suc n''.counters.out_of_date_ping };
      }

  abbrev pub sweep_on : (Node → Option Node) → Node → BdSpace × Option BdId → Option Node
  sweep_on next n (space, none) = some (record n { node_space = space })
  sweep_on next n (space, some id) = next (ping_stale (record n { node_space = space }) id)

  -- while (out_of_date_peer(id)); `none` if the fuel runs out.
  unfoldable pub ping_out_of_date : ℕ → Node → Option Node
  ping_out_of_date zero n = none
  ping_out_of_date (suc fuel) n =
      sweep_on (ping_out_of_date fuel) n (out_of_date_peer n.node_space w.now)

  -- What comes behind the loop for peers out of date.
  unfoldable pub finish_iteration : Node → Node
  finish_iteration n =
      let count = n.broadcast_count + 1 in
      let n' = record n { broadcast_count = count } in
      let sent = if count % 10 == 0 then broadcast_peers n' else n' in
      let punched = if count % 2 == 0 then punching 100 sent else sent in
      record punched { counters = reset_counters punched.counters }

  unfoldable pub iteration : Node → Option Node
  iteration n = do
    received ← receive_all 0 n.incoming_msgs n
    let pinged = ping_potential allowed_pings received.potential_peers received 0
    asked ← ask_queries 0 pinged.0.local_queries [] pinged.0 pinged.1
    let answered = process_remote_query w asked.0
    swept ← ping_out_of_date (suc (count_peers answered.node_space.buckets)) answered
    some (finish_iteration swept)

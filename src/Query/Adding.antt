-- ===== src/Query/Adding.antt =====
-- bdQuery::addPeer and addPotentialPeer of bitdht/bdquery.cc, and the loops over the lists that they share.
use mathlib.Core.Option
use bitdht.Base.{
  ℕ, zero, suc, ◌+◌, ◌-◌, Bool, true, false, not, ◌&&◌, Option, none, some, [], ◌∷◌, ltb, leb, ◌==◌,
  if◌then◌else◌, length, count_if, drop_last,
}
use bitdht.Peer.{BdMetric, BdId, BdPeer, node_id_lt, id_eq}
use bitdht.DhtFunctions.{DhtFunctions}
use bitdht.Multimap
use bitdht.Query.{Entries, BdQuery, start_peer, has_flag, expected_reply, peer_status_recv_nodes}

-- A peer that was sent to and has not replied in time.
abbrev pub is_silent : ℕ → BdPeer → Bool
is_silent ts p =
    not (p.last_send_time == 0)
    && not (leb p.last_send_time p.last_recv_time)
    && ltb (p.last_send_time + expected_reply) ts

-- The loop over the peers of one distance: the first with the id is found, and its time is renewed if
-- `renew` says so. `none` if there is none.
unfoldable pub touch : BdMetric → BdId → Bool → ℕ → Entries → Option Entries
touch dist id renew ts [] = none
touch dist id renew ts ((d, p) ∷ m) =
    let rest = Option.map (◌∷◌ (d, p)) (touch dist id renew ts m) in
    if node_id_lt d dist
    then rest
    else if node_id_lt dist d
    then none
    else if id_eq p.peer_id id
    then some ((d, if renew then record p { last_recv_time = ts } else p) ∷ m)
    else rest

-- Erases the first silent peer, and does so for a number of rounds.
unfoldable pub drop_silent : ℕ → Entries → Entries
drop_silent ts [] = []
drop_silent ts ((d, p) ∷ m) = if is_silent ts p then m else (d, p) ∷ drop_silent ts m

unfoldable pub drop_rounds : ℕ → ℕ → Entries → Entries
drop_rounds zero ts m = m
drop_rounds (suc n) ts m = drop_rounds n ts (drop_silent ts m)

-- while (size > bound) erase the last; the length is fuel enough.
unfoldable pub trim_loop : ℕ → ℕ → Entries → Entries
trim_loop zero bound m = m
trim_loop (suc fuel) bound m =
    let rest = trim_loop fuel bound (drop_last m) in if ltb bound (length m) then rest else m

unfoldable pub trim : ℕ → Entries → Entries
trim bound m = trim_loop (length m) bound m

module _ (fns : DhtFunctions) where
  -- addPeer where the peer is not in the list: the silent peers go, the list is trimmed, and the peer
  -- is put in.
  unfoldable pub admit : BdMetric → BdId → Bool → ℕ → Entries → Entries
  admit dist id replied ts m =
      let to_drop = count_if (λ e. is_silent ts e.1) (Multimap.before_lower node_id_lt dist m) in
      let peer = record (start_peer id ts) { last_recv_time = if replied then ts else 0 } in
      Multimap.insert node_id_lt dist peer
        (trim (fns.nodes_per_bucket - 1) (drop_rounds to_drop ts m))

  abbrev pub or_admit : BdMetric → BdId → Bool → ℕ → Entries → Option Entries → Entries
  or_admit dist id replied ts m none = admit dist id replied ts m
  or_admit dist id replied ts m (some m') = m'

  unfoldable pub add_peer : BdQuery → BdId → ℕ → ℕ → BdQuery × Bool
  add_peer q id mode ts =
      let dist = fns.distance q.id id.id in
      let replied = has_flag mode peer_status_recv_nodes in
      let closer = Multimap.before_lower node_id_lt dist q.closest in
      if leb fns.nodes_per_bucket (count_if (λ e. not (is_silent ts e.1)) closer)
      then (q, false)
      else (
        record q {
          closest = or_admit dist id replied ts q.closest (touch dist id replied ts q.closest);
        },
        true,
      )

  abbrev pub is_worthy : BdMetric → BdId → Entries → Bool
  is_worthy dist id m =
      (count_if (λ e. id_eq e.1.peer_id id) (Multimap.range node_id_lt dist m) == 0)
      && not (
          (length (Multimap.from_lower node_id_lt dist m) == 0)
          && leb fns.nodes_per_bucket (length m))

  -- The peer is in the list, with its time renewed perhaps, or it is put in.
  abbrev pub or_insert : BdQuery → BdMetric → BdId → ℕ → Option Entries → BdQuery × Bool
  or_insert q dist id ts (some m) = (record q { potential_closest = m }, false)
  or_insert q dist id ts none =
      let peer = record (start_peer id ts) { last_recv_time = ts } in
      (
        record q {
          potential_closest =
              Multimap.insert node_id_lt dist peer
                (trim (fns.nodes_per_bucket - 1) q.potential_closest);
        },
        true,
      )

  unfoldable pub add_potential_peer : BdQuery → BdId → ℕ → ℕ → BdQuery × Bool
  add_potential_peer q id mode ts =
      let dist = fns.distance q.id id.id in
      let closer = Multimap.before_lower node_id_lt dist q.potential_closest in
      let known = touch dist id (has_flag mode peer_status_recv_nodes) ts q.potential_closest in
      if not (is_worthy dist id q.closest)
      then (q, false)
      else if leb fns.nodes_per_bucket (length closer)
      then (q, true)
      else or_insert q dist id ts known

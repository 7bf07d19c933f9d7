-- ===== src/Manager/Peers.antt =====
-- The active peers of bdNodeManager of bitdht/bdmanager.cc: their invariant, and the queries that are started.
use bitdht.Base.{
  ◌≡◌, refl, sym, ap, ◌∙◌, inl, inr, not, ◌&&◌, Option, none, some, List, [], ◌∷◌, Bool-cases, All,
  All-map, true,
}
use bitdht.Peer.{BdNodeId, node_id_lt}
use bitdht.Multimap
use bitdht.Multimap.Order.{All-insert}
use bitdht.Peer.Order.{node_id_lt-IsStrict}
use bitdht.Manager.{QueryPeer, QueryStatus, ActivePeers, all_ready, start_queries, is_ready}
use bitdht.Manager.Iteration.{check_status, update_found, saved_addr}

-- Each id is below all those behind it.
abbrev pub IsAscending : ActivePeers → Type 0
IsAscending [] = Unit {0}
IsAscending ((k, p) ∷ m) = All (λ e. node_id_lt k e.0 ≡ true) m × IsAscending m

-- In the order of the ids, none of which stands twice, and each of which is that of its peer.
pub record IsActive (m : ActivePeers) : Type 0 where
  pub ordered : IsAscending m
  pub keyed : All (λ e. e.0 ≡ e.1.id.id) m

module _ (Q : BdNodeId → Type 0) where
  keys-all_ready : (m : ActivePeers) → All (λ e. Q e.0) m → All (λ e. Q e.0) (all_ready m)
  unfolding all_ready
  keys-all_ready [] h = h
  keys-all_ready ((id, p) ∷ m) h = (h.0, keys-all_ready m h.1)

  keys-start_queries : (m : ActivePeers) → All (λ e. Q e.0) m → All (λ e. Q e.0) (start_queries m).0
  unfolding start_queries
  keys-start_queries [] h = h
  keys-start_queries ((id, p) ∷ m) h = elim (Bool-cases (is_ready p.status)) [
    | inl e ↦ rw e (h.0, keys-start_queries m h.1)
    | inr e ↦ rw e (h.0, keys-start_queries m h.1)
  ]

  keys-replace :
      (id : BdNodeId) (v : QueryPeer) (m : ActivePeers)
      → All (λ e. Q e.0) m
      → All (λ e. Q e.0) (Multimap.replace node_id_lt id v m)
  keys-replace id v [] h = h
  keys-replace id v ((j, p) ∷ m) h =
      elim (Bool-cases (not (node_id_lt j id) && not (node_id_lt id j))) [
        | inl e ↦ rw e h
        | inr e ↦ rw e (h.0, keys-replace id v m h.1)
      ]

-- An id that is not there goes in between, so that the order stays strict.
pub insert-IsAscending :
    (id : BdNodeId) (v : QueryPeer) (m : ActivePeers)
    → Multimap.find node_id_lt id m ≡ none
    → IsAscending m
    → IsAscending (Multimap.insert node_id_lt id v m)
insert-IsAscending id v [] f s = (tt, tt)
insert-IsAscending id v ((j, w) ∷ m) f s = elim (Bool-cases (node_id_lt id j)) [
  | inl e ↦ rw e (
    (
      e,
      All-map (λ d. node_id_lt j d.0 ≡ true) (λ d. node_id_lt id d.0 ≡ true)
          (λ d h. node_id_lt-IsStrict.trans id j d.0 e h) m s.0,
    ),
    s,
  )
  | inr e ↦ elim (Bool-cases (node_id_lt j id)) [
    | inl g ↦ rw e (
      All-insert node_id_lt (λ d. node_id_lt j d.0 ≡ true) id v m g s.0,
      insert-IsAscending id v m (rw (e, g) at f) s.1,
    )
    | inr g ↦ let here : some w ≡ none = rw (e, g) at f in cc
  ]
]

All-erase :
    (P : BdNodeId × QueryPeer → Type 0) (id : BdNodeId) (m : ActivePeers)
    → All P m
    → All P (Multimap.erase node_id_lt id m)
All-erase P id [] h = h
All-erase P id ((j, p) ∷ m) h = elim (Bool-cases (not (node_id_lt j id) && not (node_id_lt id j))) [
  | inl e ↦ rw e h.1
  | inr e ↦ rw e (h.0, All-erase P id m h.1)
]

pub all_ready-IsActive : (m : ActivePeers) → IsActive m → IsActive (all_ready m)
unfolding all_ready
all_ready-IsActive [] v = v
all_ready-IsActive ((id, p) ∷ m) v =
    let rest = all_ready-IsActive m (record { ordered = v.ordered.1; keyed = v.keyed.1 }) in
    record {
      ordered = (keys-all_ready (λ k. node_id_lt id k ≡ true) m v.ordered.0, rest.ordered);
      keyed = (v.keyed.0, rest.keyed);
    }

pub start_queries-IsActive : (m : ActivePeers) → IsActive m → IsActive (start_queries m).0
unfolding start_queries
start_queries-IsActive [] v = v
start_queries-IsActive ((id, p) ∷ m) v =
    let rest = start_queries-IsActive m (record { ordered = v.ordered.1; keyed = v.keyed.1 }) in
    let above = keys-start_queries (λ k. node_id_lt id k ≡ true) m v.ordered.0 in
    elim (Bool-cases (is_ready p.status)) [
      | inl e ↦ rw e (record { ordered = (above, rest.ordered); keyed = (v.keyed.0, rest.keyed) })
      | inr e ↦ rw e (record { ordered = (above, rest.ordered); keyed = (v.keyed.0, rest.keyed) })
    ]

pub erase-IsActive :
    (id : BdNodeId) (m : ActivePeers) → IsActive m → IsActive (Multimap.erase node_id_lt id m)
erase-IsActive id [] v = v
erase-IsActive id ((j, p) ∷ m) v =
    let rest = erase-IsActive id m (record { ordered = v.ordered.1; keyed = v.keyed.1 }) in
    elim (Bool-cases (not (node_id_lt j id) && not (node_id_lt id j))) [
      | inl e ↦ rw e (record { ordered = v.ordered.1; keyed = v.keyed.1 })
      | inr e ↦ rw e (record {
        ordered = (All-erase (λ d. node_id_lt j d.0 ≡ true) id m v.ordered.0, rest.ordered);
        keyed = (v.keyed.0, rest.keyed);
      })
    ]

some_eq : {A : Type 0} {a b : A} → some a ≡ some b → a ≡ b
some_eq e = cc

-- The peer that was found is replaced by one of the same id.
replace-IsActive :
    (id : BdNodeId) (p q : QueryPeer) (m : ActivePeers)
    → q.id ≡ p.id
    → Multimap.find node_id_lt id m ≡ some p
    → IsActive m
    → IsActive (Multimap.replace node_id_lt id q m)
replace-IsActive id p q [] s f v = v
replace-IsActive id p q ((j, w) ∷ m) s f v =
    elim (Bool-cases (not (node_id_lt j id) && not (node_id_lt id j))) [
      | inl e ↦
          let same : w ≡ p = some_eq (rw e at f) in
          rw e (record {
            ordered = v.ordered;
            keyed = (v.keyed.0 ∙ ap (λ x. x.id.id) same ∙ sym (ap (λ i. i.id) s), v.keyed.1);
          })
      | inr e ↦
          let rest =
            replace-IsActive id p q m s (rw e at f)
              (record { ordered = v.ordered.1; keyed = v.keyed.1 }) in
          rw e (record {
            ordered = (keys-replace (λ k. node_id_lt j k ≡ true) id q m v.ordered.0, rest.ordered);
            keyed = (v.keyed.0, rest.keyed);
          })
    ]

update_found-IsActive :
    (id : BdNodeId) (s : QueryStatus) (m : ActivePeers) (o : Option QueryPeer)
    → Multimap.find node_id_lt id m ≡ o
    → IsActive m
    → IsActive (update_found id s m o).0
update_found-IsActive id s m none f v = v
update_found-IsActive id s m (some p) f v =
    replace-IsActive id p
      (record p { status = s.status; dht_addr = saved_addr s.status p.dht_addr s.results }) m refl f
      v

pub check_status-IsActive :
    (statuses : List (BdNodeId × QueryStatus)) (m : ActivePeers)
    → IsActive m
    → IsActive (check_status statuses m).0
unfolding check_status
check_status-IsActive [] m v = v
check_status-IsActive ((id, s) ∷ statuses) m v =
    check_status-IsActive statuses (update_found id s m (Multimap.find node_id_lt id m)).0
      (update_found-IsActive id s m (Multimap.find node_id_lt id m) refl v)

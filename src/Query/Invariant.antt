-- ===== src/Query/Invariant.antt =====
-- The invariant of a query and that every call of bitdht/bdquery.cc keeps it.
pub mod Asking
use bitdht.Base.{
  ℕ, ◌+◌, ◌-◌, ◌≤◌, ◌<◌, ◌≡◌, refl, inl, inr, Bool, not, ◌&&◌, Option, none, some, List, [], ◌∷◌,
  leb, if◌then◌else◌, Bool-cases, length, count_if, length-take, All, arith,
}
use mathlib.Core.Option
use bitdht.Peer.{BdNodeId, BdMetric, BdId, BdPeer, node_id_lt}
use bitdht.Peer.Order.{node_id_lt-IsStrict}
use bitdht.DhtFunctions.{DhtFunctions}
use bitdht.Multimap
use bitdht.Multimap.Order.{insert-IsSorted, All-insert, length-insert}
use bitdht.Query.{
  Entries, BdQuery, Search, picked, exhausted, behind, is_due, search_closest, start_peer,
  insert_start, new_query, has_flag, Answer, after_search, is_waiting, finish, final_state,
  next_query, retry_period, peer_status_recv_nodes, is_querying, qflags_do_idle, QueryState,
}
use bitdht.Query.Adding.{
  is_silent, touch, drop_rounds, trim, admit, or_admit, add_peer, or_insert, is_worthy,
  add_potential_peer,
}
use bitdht.Query.Entries.{
  IsOrdered, Kept, next, Kept-refl, Kept-length, Kept-All, Kept-IsOrdered, Touched, touch-Touched,
  drop_rounds-IsOrdered, drop_rounds-All, trim-take, take-All, take-IsOrdered,
}

module _ (fns : DhtFunctions) where
  -- In the order of the keys, each of which is the distance of the peer from the target.
  pub record IsList (id : BdNodeId) (m : Entries) : Type 0 where
    pub ordered : IsOrdered m
    pub keyed : All (λ e. e.0 ≡ fns.distance id e.1.peer_id.id) m

  -- The closest peers may be more than a bucket only while they are those that the query began with.
  pub record IsQuery (bound : ℕ) (q : BdQuery) : Type 0 where
    pub closest_list : IsList q.id q.closest
    pub potential_list : IsList q.id q.potential_closest
    pub closest_bound : length q.closest ≤ bound
    pub potential_bound : length q.potential_closest ≤ fns.nodes_per_bucket

  pub Kept-IsList : (id : BdNodeId) {m m' : Entries} → Kept m m' → IsList id m → IsList id m'
  Kept-IsList id k v = record {
    ordered = Kept-IsOrdered k v.ordered;
    keyed = Kept-All (λ d i. d ≡ fns.distance id i.id) k v.keyed;
  }

  insert-IsList :
      (id : BdNodeId) (p : BdPeer) (m : Entries)
      → IsList id m
      → IsList id (Multimap.insert node_id_lt (fns.distance id p.peer_id.id) p m)
  insert-IsList id p m v = record {
    ordered = insert-IsSorted node_id_lt node_id_lt-IsStrict _ p m v.ordered;
    keyed = All-insert node_id_lt _ _ p m refl v.keyed;
  }

  trim-IsList : (id : BdNodeId) (bound : ℕ) (m : Entries) → IsList id m → IsList id (trim bound m)
  trim-IsList id bound m v =
      rw (trim-take bound m)
        (record { ordered = take-IsOrdered bound m v.ordered; keyed = take-All _ bound m v.keyed })

  insert_start-IsList :
      (id : BdNodeId) (now : ℕ) (l : List BdId) (m : Entries)
      → IsList id m
      → IsList id (insert_start fns id now l m)
  unfolding insert_start
  insert_start-IsList id now [] m v = v
  insert_start-IsList id now (i ∷ l) m v =
      insert_start-IsList id now l
        (Multimap.insert node_id_lt (fns.distance id i.id) (start_peer i now) m)
        (insert-IsList id (start_peer i now) m v)

  insert_start-length :
      (id : BdNodeId) (now : ℕ) (l : List BdId) (m : Entries)
      → length (insert_start fns id now l m) ≡ length l + length m
  unfolding insert_start
  insert_start-length id now [] m = omega arith
  insert_start-length id now (i ∷ l) m = omega (
    arith,
    insert_start-length id now l
        (Multimap.insert node_id_lt (fns.distance id i.id) (start_peer i now) m),
    length-insert node_id_lt (fns.distance id i.id) (start_peer i now) m,
  )

  pub new_query-IsQuery :
      (id : BdNodeId) (start_list : List BdId) (query_flags now : ℕ)
      → IsQuery (length start_list) (new_query fns id start_list query_flags now)
  unfolding new_query
  new_query-IsQuery id start_list query_flags now = record {
    closest_list = insert_start-IsList id now start_list [] (record { ordered = tt; keyed = tt });
    potential_list = record { ordered = tt; keyed = tt };
    closest_bound = omega (arith, insert_start-length id now start_list []);
    potential_bound = omega arith;
  }

  admit-IsList :
      (id : BdNodeId) (i : BdId) (replied : Bool) (ts : ℕ) (m : Entries)
      → IsList id m
      → IsList id (admit fns (fns.distance id i.id) i replied ts m)
  unfolding admit
  admit-IsList id i replied ts m v = insert-IsList id _ _ (
      trim-IsList id _ _ (record {
        ordered = drop_rounds-IsOrdered _ ts m v.ordered;
        keyed = drop_rounds-All _ _ ts m v.keyed;
      }))

  length-trim-le : (bound : ℕ) (m : Entries) → length (trim bound m) ≤ bound
  length-trim-le bound m = rw (trim-take bound m) (omega (arith, length-take bound m))

  pub length-admit-le :
      (dist : BdMetric) (i : BdId) (replied : Bool) (ts : ℕ) (m : Entries)
      → 0 < fns.nodes_per_bucket
      → length (admit fns dist i replied ts m) ≤ fns.nodes_per_bucket
  unfolding admit
  length-admit-le dist i replied ts m h =
      let n : ℕ = count_if (λ e. is_silent ts e.1) (Multimap.before_lower node_id_lt dist m) in
      omega (
        arith,
        length-insert node_id_lt dist
            (record (start_peer i ts) { last_recv_time = if replied then ts else 0 })
            (trim (fns.nodes_per_bucket - 1) (drop_rounds n ts m)),
        length-trim-le (fns.nodes_per_bucket - 1) (drop_rounds n ts m),
      )

  or_admit-IsList :
      (id : BdNodeId) (i : BdId) (replied : Bool) (ts : ℕ) (m : Entries) (r : Option Entries)
      → IsList id m
      → Touched i m r
      → IsList id (or_admit fns (fns.distance id i.id) i replied ts m r)
  or_admit-IsList id i replied ts m none v t = admit-IsList id i replied ts m v
  or_admit-IsList id i replied ts m (some m') v t = Kept-IsList id t v

  or_admit-length :
      (dist : BdMetric) (i : BdId) (replied : Bool) (ts bound : ℕ) (m : Entries)
      (r : Option Entries)
      → 0 < fns.nodes_per_bucket
      → fns.nodes_per_bucket ≤ bound
      → length m ≤ bound
      → Touched i m r
      → length (or_admit fns dist i replied ts m r) ≤ bound
  or_admit-length dist i replied ts bound m none h b l t =
      omega (arith, length-admit-le dist i replied ts m h)
  or_admit-length dist i replied ts bound m (some m') h b l t = omega (arith, Kept-length t)

  pub add_peer-IsQuery :
      (bound : ℕ) (q : BdQuery) (i : BdId) (mode ts : ℕ)
      → 0 < fns.nodes_per_bucket
      → fns.nodes_per_bucket ≤ bound
      → IsQuery bound q
      → IsQuery bound (add_peer fns q i mode ts).0
  unfolding add_peer
  add_peer-IsQuery bound q i mode ts h b v =
      let dist : BdMetric = fns.distance q.id i.id in
      let closer : Entries = Multimap.before_lower node_id_lt dist q.closest in
      let replied : Bool = has_flag mode peer_status_recv_nodes in
      let touched = touch-Touched dist i replied ts q.closest in
      elim (Bool-cases (leb fns.nodes_per_bucket (count_if (λ e. not (is_silent ts e.1)) closer))) [
        | inl e ↦ rw e v
        | inr e ↦ rw e (record {
          closest_list = or_admit-IsList q.id i replied ts q.closest _ v.closest_list touched;
          potential_list = v.potential_list;
          closest_bound =
              or_admit-length dist i replied ts bound q.closest _ h b v.closest_bound touched;
          potential_bound = v.potential_bound;
        })
      ]

  or_insert-IsQuery :
      (bound : ℕ) (q : BdQuery) (i : BdId) (ts : ℕ) (r : Option Entries)
      → 0 < fns.nodes_per_bucket
      → IsQuery bound q
      → Touched i q.potential_closest r
      → IsQuery bound (or_insert fns q (fns.distance q.id i.id) i ts r).0
  or_insert-IsQuery bound q i ts none h v t = record {
    closest_list = v.closest_list;
    potential_list = insert-IsList q.id _ _ (trim-IsList q.id _ _ v.potential_list);
    closest_bound = v.closest_bound;
    potential_bound = omega (
      arith,
      length-insert node_id_lt (fns.distance q.id i.id)
          (record (start_peer i ts) { last_recv_time = ts })
          (trim (fns.nodes_per_bucket - 1) q.potential_closest),
      length-trim-le (fns.nodes_per_bucket - 1) q.potential_closest,
    );
  }
  or_insert-IsQuery bound q i ts (some m) h v t = record {
    closest_list = v.closest_list;
    potential_list = Kept-IsList q.id t v.potential_list;
    closest_bound = v.closest_bound;
    potential_bound = omega (arith, Kept-length t, v.potential_bound);
  }

  pub add_potential_peer-IsQuery :
      (bound : ℕ) (q : BdQuery) (i : BdId) (mode ts : ℕ)
      → 0 < fns.nodes_per_bucket
      → IsQuery bound q
      → IsQuery bound (add_potential_peer fns q i mode ts).0
  unfolding add_potential_peer
  add_potential_peer-IsQuery bound q i mode ts h v =
      let dist : BdMetric = fns.distance q.id i.id in
      let closer : Entries = Multimap.before_lower node_id_lt dist q.potential_closest in
      let replied : Bool = has_flag mode peer_status_recv_nodes in
      elim (Bool-cases (is_worthy fns dist i q.closest)) [
        | inl e ↦ rw e (elim (Bool-cases (leb fns.nodes_per_bucket (length closer))) [
          | inl f ↦ rw f v
          | inr f ↦ rw f (
              or_insert-IsQuery bound q i ts (touch dist i replied ts q.potential_closest) h v
                (touch-Touched dist i replied ts q.potential_closest))
        ])
        | inr e ↦ rw e v
      ]

-- ===== src/Node/Invariant.antt =====
-- The invariant of a bdNode of bitdht/bdnode.h: what holds of its tables whatever datagrams arrive. `bound` is the
-- largest list of nearest peers in a query.
pub mod Kept
use bitdht.Base.{
  ℕ, suc, ◌+◌, ◌≤◌, ◌<◌, ◌≡◌, refl, Bool, true, false, Option, none, some, List, [], ◌∷◌, ◌++◌, map,
  arith, ltb, ◌==◌, if◌then◌else◌, length, All, All-append, drop, length-append, inl, inr,
  Bool-cases, length-take, min, zero, take,
}
use bitdht.Peer.{BdNodeId, SockaddrIn, BdId, BdPeer}
use bitdht.DhtFunctions.{DhtFunctions, DhtLaws}
use bitdht.Space
use bitdht.Space.Table.{IsTable, add_peer-IsTable}
use bitdht.Query.{BdQuery, new_query}
use bitdht.Query.Adding
use bitdht.Query.Invariant.{
  IsQuery, add_peer-IsQuery, add_potential_peer-IsQuery, new_query-IsQuery,
}
use bitdht.Store.{Store, add_store}
use bitdht.Store.Capacity.{IsStore, IsDistinct, add_store-IsStore}
use bitdht.Node.{World, Node, NetMsg}
use bitdht.Node.Sending.{send_pkt, get_random_token, push_token, max_random_tokens}
use bitdht.Node.BlackList.Dropped.{IsBlackList}
use bitdht.Node.Peers.{add_peer, offer, check_potential_peer, received_peer, push_potential}

module _ (fns : DhtFunctions) (bound : ℕ) where
  pub record IsNode (n : Node) : Type 0 where
    pub table : IsTable fns n.node_space
    pub queries : All (IsQuery fns bound) n.local_queries
    pub store : IsStore n.store
    pub tokens : length n.random_token_array ≤ max_random_tokens
    pub black : IsBlackList n.black_nodes

  -- Undefined behaviour promises nothing.
  abbrev pub NodeIs : Option Node → Type 0
  NodeIs none = Unit {0}
  NodeIs (some n) = IsNode n

  pub send_pkt-IsNode :
      (n : Node) (msg : List ℕ) (addr : SockaddrIn) → IsNode n → IsNode (send_pkt n msg addr)
  unfolding send_pkt
  send_pkt-IsNode n msg addr v = record {
    table = v.table;
    queries = v.queries;
    store = v.store;
    tokens = v.tokens;
    black = v.black;
  }

length-drop_one {ℓ} : {A : Type ℓ} (xs : List A) → suc (length (drop 1 xs)) ≤ suc (length xs)
length-drop_one [] = omega arith
length-drop_one (x ∷ xs) = omega arith

length-push_token :
    (tokens : List ℕ) (num : ℕ)
    → length tokens ≤ max_random_tokens
    → length (push_token tokens num) ≤ max_random_tokens
length-push_token [] num h = ground arith
length-push_token (t ∷ ts) num h = ground (arith, length-append {0} ts (num ∷ []))

pub get_random_token-IsNode :
    (w : World) (bound : ℕ) (n : Node)
    → IsNode w.fns bound n
    → IsNode w.fns bound (get_random_token w n).0
unfolding get_random_token
get_random_token-IsNode w bound n v = record {
  table = v.table;
  queries = v.queries;
  store = v.store;
  tokens = length-push_token n.random_token_array _ v.tokens;
  black = v.black;
}

module _ (w : World) (laws : DhtLaws w.fns) (bound : ℕ) (b : w.fns.nodes_per_bucket ≤ bound) where
  add_peer-All :
      (id : BdId) (flags : ℕ) (qs : List BdQuery)
      → All (IsQuery w.fns bound) qs
      → All (IsQuery w.fns bound) (map (λ q. (Adding.add_peer w.fns q id flags w.now).0) qs)
  add_peer-All id flags [] h = tt
  add_peer-All id flags (q ∷ qs) h =
      (add_peer-IsQuery w.fns bound q id flags w.now laws.room b h.0, add_peer-All id flags qs h.1)

  -- addPeer ends, and keeps the invariant.
  pub add_peer-returns :
      (n : Node) (id : BdId) (flags : ℕ)
      → IsNode w.fns bound n
      → (n' : Node) × (add_peer w n id flags ≡ some n') × IsNode w.fns bound n'
  unfolding add_peer
  add_peer-returns n id flags v =
      let (s, (e, h)) = add_store-IsStore (received_peer w id flags) n.store v.store.distinct in
      (
        record n {
          local_queries = map (λ q. (Adding.add_peer w.fns q id flags w.now).0) n.local_queries;
          node_space = (Space.add_peer w.fns n.node_space id flags w.now).0;
          store = s;
        },
        rw e refl,
        record {
          table = add_peer-IsTable w.fns laws n.node_space id flags w.now v.table;
          queries = add_peer-All id flags n.local_queries v.queries;
          store = h;
          tokens = v.tokens;
          black = v.black;
        },
      )

  offer-All :
      (qs : List BdQuery) (id : BdId)
      → All (IsQuery w.fns bound) qs
      → All (IsQuery w.fns bound) (offer w qs id).0
  unfolding offer
  offer-All [] id h = tt
  offer-All (q ∷ qs) id h =
      (add_potential_peer-IsQuery w.fns bound q id 0 w.now laws.room h.0, offer-All qs id h.1)

  pub check_potential_peer-IsNode :
      (n : Node) (id : BdId)
      → IsNode w.fns bound n
      → IsNode w.fns bound (check_potential_peer w n id)
  unfolding check_potential_peer
  check_potential_peer-IsNode n id v = elim (Bool-cases (offer w n.local_queries id).1) [
    | inl e ↦ rw e (record {
      table = v.table;
      queries = offer-All n.local_queries id v.queries;
      store = v.store;
      tokens = v.tokens;
      black = v.black;
    })
    | inr e ↦ rw e (record {
      table = v.table;
      queries = offer-All n.local_queries id v.queries;
      store = v.store;
      tokens = v.tokens;
      black = v.black;
    })
  ]

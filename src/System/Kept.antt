-- ===== src/System/Kept.antt =====
-- The calls of bdNodeManager in bitdht/bdmanager.cc and the datagrams that reach it keep the invariant of its node.
use bitdht.Base.{
  length-map, ℕ, ◌≤◌, Bool, true, false, not, Option, none, some, List, [], ◌∷◌, map, arith, length,
  All-append, All-keep_if,
}
use bitdht.Peer.{BdNodeId, BdId, BdPeer, node_id_eq}
use bitdht.DhtFunctions.{DhtFunctions, DhtLaws}
use bitdht.Space.{find_nearest_nodes}
use bitdht.Space.Table.{clear-IsTable, new_space-IsTable}
use bitdht.Space.Nearest.{find_nearest_nodes_lem}
use bitdht.Query.{BdQuery}
use bitdht.Query.Invariant.{IsQuery, new_query-IsQuery}
use bitdht.Store.{Store}
use bitdht.Manager.{
  NodeCall, shutdown_node, restart_node, update_store, iterate, iterate_off, add_query, clear_query,
  add_conn_req, call_back,
}
use bitdht.Node
use bitdht.Node.{World, Node, iteration_off}
use bitdht.Node.Peers
use bitdht.Node.Peers.{query_start_peers, push_potential, push_all_potential, reloaded}
use bitdht.Node.Invariant.{IsNode, NodeIs}
use bitdht.Node.Iteration.{iteration, ◌>>=◌}
use bitdht.Node.Iteration.Kept.{iteration-NodeIs}
use bitdht.Store.Files.{FileIs, reloaded-IsStore, write_store-FileIs}
use bitdht.System.{
  System, Step, makes, arrives, run_call, run_step, run_steps, iterated, set_node, tell_found,
}

module _ (fns : DhtFunctions) (bound : ℕ) where
  pub record IsSystem (s : System) : Type 0 where
    pub node : IsNode fns bound s.node
    pub file : FileIs s.store_file

  -- Undefined behaviour promises nothing.
  abbrev pub SystemIs : Option System → Type 0
  SystemIs none = Unit {0}
  SystemIs (some s) = IsSystem s

  with_node : (s : System) (n : Node) → IsSystem s → IsNode fns bound n → IsSystem (set_node s n)
  with_node s n v h = record { node = h; file = v.file }

  shutdown_node-IsNode : (n : Node) → IsNode fns bound n → IsNode fns bound (Node.shutdown_node n)
  unfolding Node.shutdown_node
  shutdown_node-IsNode n v = record {
    table = clear-IsTable fns n.node_space v.table;
    queries = tt;
    store = record { distinct = tt; bounded = omega arith };
    tokens = v.tokens;
    black = v.black;
  }

  potential-IsNode :
      (ps : Store) (n : Node) → IsNode fns bound n → IsNode fns bound (push_all_potential n ps)
  potential-IsNode [] n v = v
  potential-IsNode (p ∷ ps) n v = potential-IsNode ps (push_potential n p.peer_id) (record {
    table = v.table;
    queries = v.queries;
    store = v.store;
    tokens = v.tokens;
    black = v.black;
  })

  restart_node-IsNode :
      (n : Node) (file white_file : Option (List (ℕ × ℕ)))
      → FileIs file
      → IsNode fns bound n
      → IsNode fns bound (Peers.restart_node n file white_file)
  unfolding Peers.restart_node
  restart_node-IsNode n file white_file f v =
      let r : Node = reloaded n file white_file in
      potential-IsNode r.white_nodes (push_all_potential r r.store) (
        potential-IsNode r.store r (record {
          table = v.table;
          queries = v.queries;
          store = reloaded-IsStore file n.store f;
          tokens = v.tokens;
          black = v.black;
        }))

  clear_query-IsNode :
      (n : Node) (id : BdNodeId) → IsNode fns bound n → IsNode fns bound (Peers.clear_query n id)
  unfolding Peers.clear_query
  clear_query-IsNode n id v = record {
    table = v.table;
    queries =
        All-keep_if (IsQuery fns bound) (λ q. not (node_id_eq q.id id)) n.local_queries v.queries;
    store = v.store;
    tokens = v.tokens;
    black = v.black;
  }

  wider : (small : ℕ) (q : BdQuery) → small ≤ bound → IsQuery fns small q → IsQuery fns bound q
  wider small q h v = record {
    closest_list = v.closest_list;
    potential_list = v.potential_list;
    closest_bound = omega (arith, v.closest_bound);
    potential_bound = v.potential_bound;
  }

module _ (w : World) (laws : DhtLaws w.fns) (bound : ℕ) (b : w.fns.nodes_per_bucket ≤ bound)
    (c : query_start_peers ≤ bound) where
  add_query-IsNode :
      (n : Node) (id : BdNodeId) (qflags : ℕ)
      → IsNode w.fns bound n
      → IsNode w.fns bound (Peers.add_query w n id qflags)
  unfolding Peers.add_query
  add_query-IsNode n id qflags v =
      let near = find_nearest_nodes w.fns n.node_space id query_start_peers [] [] in
      let spec = find_nearest_nodes_lem w.fns id n.node_space query_start_peers [] in
      let few : length (map (λ e. e.1) near) ≤ bound =
        omega (arith, length-map (λ (e : BdNodeId × BdId). e.1) near, spec.3) in
      record {
        table = v.table;
        queries = All-append (IsQuery w.fns bound) n.local_queries _ v.queries (
          wider w.fns bound _ _ few (new_query-IsQuery w.fns id (map (λ e. e.1) near) qflags w.now),
          tt,
        );
        store = v.store;
        tokens = v.tokens;
        black = v.black;
      }

  iterated-SystemIs :
      (s : System) (o : Option Node)
      → IsSystem w.fns bound s
      → NodeIs w.fns bound o
      → SystemIs w.fns bound (iterated w s o)
  iterated-SystemIs s none v h = tt
  iterated-SystemIs s (some n) v h = with_node w.fns bound s n v h

  told-IsSystem :
      (s : System) (status : ℕ) (found : List BdPeer × Bool)
      → IsSystem w.fns bound s
      → IsSystem w.fns bound (tell_found s status found)
  told-IsSystem s status (peers, true) v = record { node = v.node; file = v.file }
  told-IsSystem s status (peers, false) v = v

  run_call-SystemIs :
      (s : System) (call : NodeCall)
      → IsSystem w.fns bound s
      → SystemIs w.fns bound (run_call w s call)
  unfolding run_call Peers.update_store Peers.add_conn_req iteration_off
  run_call-SystemIs s shutdown_node v =
      with_node w.fns bound s _ v (shutdown_node-IsNode w.fns bound s.node v.node)
  run_call-SystemIs s restart_node v =
      with_node w.fns bound s _ v
        (restart_node-IsNode w.fns bound s.node s.store_file s.white_file v.file v.node)
  run_call-SystemIs s update_store v = record {
    node = v.node;
    file = write_store-FileIs s.can_open_store s.node.store s.store_file v.node.store v.file;
  }
  run_call-SystemIs s iterate v =
      iterated-SystemIs s (iteration w s.node) v (iteration-NodeIs w laws bound b s.node v.node)
  run_call-SystemIs s iterate_off v = with_node w.fns bound s _ v (record {
    table = v.node.table;
    queries = v.node.queries;
    store = v.node.store;
    tokens = v.node.tokens;
    black = v.node.black;
  })
  run_call-SystemIs s (add_query id qflags) v =
      with_node w.fns bound s _ v (add_query-IsNode s.node id qflags v.node)
  run_call-SystemIs s (clear_query id) v =
      with_node w.fns bound s _ v (clear_query-IsNode w.fns bound s.node id v.node)
  run_call-SystemIs s (add_conn_req id) v = with_node w.fns bound s _ v (record {
    table = v.node.table;
    queries = v.node.queries;
    store = v.node.store;
    tokens = v.node.tokens;
    black = v.node.black;
  })
  run_call-SystemIs s (call_back id status) v = told-IsSystem s status _ v

module _ (fns : DhtFunctions) (laws : DhtLaws fns) (bound : ℕ) (b : fns.nodes_per_bucket ≤ bound)
    (c : query_start_peers ≤ bound) where
  run_step-SystemIs :
      (s : System) (e : Step) → IsSystem fns bound s → SystemIs fns bound (run_step fns s e)
  unfolding run_step Node.incoming_msg
  run_step-SystemIs s (makes w call) v =
      run_call-SystemIs (record w { fns = fns }) laws bound b c s call v
  run_step-SystemIs s (arrives addr bytes) v = with_node fns bound s _ v (record {
    table = v.node.table;
    queries = v.node.queries;
    store = v.node.store;
    tokens = v.node.tokens;
    black = v.node.black;
  })

  bind-SystemIs :
      (next : System → Option System) (r : Option System)
      → SystemIs fns bound r
      → ((s : System) → IsSystem fns bound s → SystemIs fns bound (next s))
      → SystemIs fns bound (r >>= next)
  bind-SystemIs next none h ih = tt
  bind-SystemIs next (some s) h ih = ih s h

  run_steps-SystemIs :
      (steps : List Step) (s : System)
      → IsSystem fns bound s
      → SystemIs fns bound (run_steps fns steps s)
  unfolding run_steps
  run_steps-SystemIs [] s v = v
  run_steps-SystemIs (e ∷ steps) s v =
      bind-SystemIs (run_steps fns steps) (run_step fns s e) (run_step-SystemIs s e v)
        (run_steps-SystemIs steps)

  new_node-IsNode :
      (own_id : BdNodeId) (version : List ℕ) (file white_file : Option (List (ℕ × ℕ))) (seed : ℕ)
      → FileIs file
      → IsNode fns bound (Node.new_node fns own_id version file white_file seed)
  unfolding Node.new_node
  new_node-IsNode own_id version file white_file seed f = record {
    table = new_space-IsTable fns own_id;
    queries = tt;
    store = reloaded-IsStore file [] f;
    tokens = omega arith;
    black = tt;
  }

  -- A new node whose file holds at most a thousand addresses, no two the same, keeps its invariant under any sequence of the
  -- manager's calls, iterations included, and of datagrams with any bytes from any address, each call with a time, a
  -- bencoding and random ids of its own, until a step is undefined behaviour: the routing table keeps its buckets within
  -- their size, free of duplicates and every peer in its own; the queries keep their lists in order and within their
  -- bounds; the store and what its file holds stay distinct and at most a thousand; the random tokens stay at most a
  -- thousand, and the black list without duplicates. The key space keeps its laws and stays the same, and the bound of a
  -- query covers a bucket and the peers that a query starts with.
  pub run_steps-new_node :
      (steps : List Step) (own_id : BdNodeId) (version : List ℕ) (seed : ℕ) (s : System)
      → FileIs s.store_file
      → SystemIs fns bound (
          run_steps fns steps
            (set_node s (Node.new_node fns own_id version s.store_file s.white_file seed)))
  run_steps-new_node steps own_id version seed s f =
      run_steps-SystemIs steps _ (record {
        node = new_node-IsNode own_id version s.store_file s.white_file seed f;
        file = f;
      })

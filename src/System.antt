-- ===== src/System.antt =====
-- bdNodeManager of bitdht/bdmanager.cc on top of its base class bdNode of bitdht/bdnode.cc: what each call of the manager
-- does to the node, its files and the clients.
pub mod Silence
pub mod Kept
use bitdht.Base.{ℕ, Bool, true, false, Option, none, some, List, [], ◌∷◌, ◌++◌}
use bitdht.Peer.{BdNodeId, BdId, BdPeer, SockaddrIn}
use bitdht.DhtFunctions.{DhtFunctions}
use bitdht.Manager.{
  NodeCall, shutdown_node, restart_node, update_store, iterate, iterate_off, add_query, clear_query,
  add_conn_req, call_back,
}
use bitdht.Manager.Clients.{Client, ClientCall, do_peer_callback}
use bitdht.Node
use bitdht.Node.{World, Node, iteration_off}
use bitdht.Node.Peers
use bitdht.Node.Peers.{get_id_from_query}
use bitdht.Node.Iteration.{iteration, ◌>>=◌}

-- The node, the files of its two stores and whether they can be written, the clients, and the calls that these got.
pub record System : Type 0 where
  pub node : Node
  pub store_file : Option (List (ℕ × ℕ))
  pub white_file : Option (List (ℕ × ℕ))
  pub can_open_store : Bool
  pub can_open_white : Bool
  pub clients : List Client
  pub told : List ClientCall

abbrev pub set_node : System → Node → System
set_node s n = record s { node = n }

-- The loop over the peers that getIdFromQuery gives.
abbrev pub tell_peers : List Client → List BdPeer → ℕ → List ClientCall
tell_peers clients [] status = []
tell_peers clients (p ∷ ps) status =
    do_peer_callback clients p status ++ tell_peers clients ps status

abbrev pub tell_found : System → ℕ → List BdPeer × Bool → System
tell_found s status (peers, true) = record s { told = s.told ++ tell_peers s.clients peers status }
tell_found s status (peers, false) = s

abbrev pub write_files : System → Option (List (ℕ × ℕ)) × Option (List (ℕ × ℕ)) → System
write_files s (file, white_file) = record s { store_file = file; white_file = white_file }

module _ (w : World) where
  abbrev pub iterated : System → Option Node → Option System
  iterated s none = none
  iterated s (some n) = some (set_node s n)

  -- `none` is undefined behaviour of the node.
  unfoldable pub run_call : System → NodeCall → Option System
  run_call s shutdown_node = some (set_node s (Node.shutdown_node s.node))
  run_call s restart_node = some (set_node s (Peers.restart_node s.node s.store_file s.white_file))
  run_call s update_store = some (
      write_files s
        (Peers.update_store s.node s.can_open_store s.store_file s.can_open_white s.white_file))
  run_call s iterate = iterated s (iteration w s.node)
  run_call s iterate_off = some (set_node s (iteration_off s.node))
  run_call s (add_query id qflags) = some (set_node s (Peers.add_query w s.node id qflags))
  run_call s (clear_query id) = some (set_node s (Peers.clear_query s.node id))
  run_call s (add_conn_req id) = some (set_node s (Peers.add_conn_req s.node id))
  run_call s (call_back id status) = some (tell_found s status (get_id_from_query s.node id []))

  unfoldable pub run_calls : List NodeCall → System → Option System
  run_calls [] s = some s
  run_calls (c ∷ calls) s = run_call s c >>= run_calls calls

-- What happens to the manager on its node: it makes a call, at the time and with the results of bencoding and random ids
-- of that moment, or the stack hands the node a datagram.
pub data Step : Type 0 where
  makes : World → NodeCall → Step
  arrives : SockaddrIn → List ℕ → Step

module _ (fns : DhtFunctions) where
  -- The key space is the same at every call.
  unfoldable pub run_step : System → Step → Option System
  run_step s (makes w call) = run_call (record w { fns = fns }) s call
  run_step s (arrives addr bytes) = some (set_node s (Node.incoming_msg s.node addr bytes))

  unfoldable pub run_steps : List Step → System → Option System
  run_steps [] s = some s
  run_steps (c ∷ steps) s = run_step s c >>= run_steps steps

-- ===== src/Tunnel/Manager.antt =====
-- bdTunnelManager of bitdht/bdtunnelmanager.h and bitdht/bdtunnelmanager.cc, on top of bdTunnelNode: the peers that a
-- tunnel is wanted to, and the state machine that makes requests of them.
use bitdht.Base.{ℕ, ◌+◌, Bool, Option, none, some, List, [], ◌∷◌, map, ltb, if◌then◌else◌}
use bitdht.Peer.{BdNodeId, SockaddrIn, BdId, id_lt}
use bitdht.Multimap
use bitdht.Manager.Clients
use bitdht.Manager.Clients.{Client, decoded_known}
use bitdht.Node.{World}
use bitdht.Tunnel
use bitdht.Tunnel.{TunnelNode, new_tunnel_node, add_tunnel}
use bitdht.Tunnel.Receiving

-- BITDHT_TUN_MGR_STATE; any other number is treated as FAILED is.
pub data TunnelMode : Type 0 where
  tunnel_off tunnel_startup tunnel_newconn tunnel_failed : TunnelMode

pub data TunnelStatus : Type 0 where
  connecting connected disconnected : TunnelStatus

-- The times and the DHT address are never written.
pub record TunnelPeer : Type 0 where
  pub id : BdId
  pub status : TunnelStatus
  pub tunnel_addr : SockaddrIn

pub record TunnelManager : Type 0 where
  pub node : TunnelNode
  pub tunnel_peers : List (BdId × TunnelPeer)
  pub callbacks : List Client
  pub mode : TunnelMode
  pub mode_ts : ℕ

abbrev pub max_startup_time : ℕ
max_startup_time = 10

abbrev pub max_refresh_time : ℕ
max_refresh_time = 10

unfoldable pub new_tunnel_manager : BdNodeId → ℕ → TunnelManager
new_tunnel_manager own_id counter = record {
  node = new_tunnel_node own_id counter;
  tunnel_peers = [];
  callbacks = [];
  mode = tunnel_off;
  mode_ts = 0;
}

abbrev pub all_disconnected : List (BdId × TunnelPeer) → List (BdId × TunnelPeer)
all_disconnected peers = map (λ e. (e.0, record e.1 { status = disconnected })) peers

unfoldable pub stop_tunnel : TunnelManager → ℕ → TunnelManager
stop_tunnel m now = record m {
  node = Tunnel.shutdown_node m.node;
  tunnel_peers = all_disconnected m.tunnel_peers;
  mode = tunnel_off;
  mode_ts = now;
}

unfoldable pub start_tunnel : TunnelManager → ℕ → TunnelManager
start_tunnel m now = record m {
  node = Tunnel.restart_node m.node;
  mode = tunnel_startup;
  mode_ts = now;
}

-- The family of the tunnel's address is not written by the source, and 0 here.
abbrev pub connecting_peer : BdId → TunnelPeer
connecting_peer id = record {
  id = id;
  status = connecting;
  tunnel_addr = record { sin_family = 0; s_addr = 0; sin_port = 0 };
}

abbrev pub connect_found : TunnelManager → BdId → Option TunnelPeer → TunnelManager
connect_found m id (some p) = m
connect_found m id none = record m {
  tunnel_peers = Multimap.assign id_lt id (connecting_peer id) m.tunnel_peers;
}

unfoldable pub connect_node : TunnelManager → BdId → TunnelManager
connect_node m id = connect_found m id (Multimap.find id_lt id m.tunnel_peers)

abbrev pub disconnect_found : TunnelManager → BdId → Option TunnelPeer → TunnelManager
disconnect_found m id none = m
disconnect_found m id (some p) = record m { tunnel_peers = Multimap.erase id_lt id m.tunnel_peers }

unfoldable pub disconnect_node : TunnelManager → BdId → TunnelManager
disconnect_node m id = disconnect_found m id (Multimap.find id_lt id m.tunnel_peers)

unfoldable pub add_callback : TunnelManager → Client → TunnelManager
add_callback m cb = record m { callbacks = Clients.add_callback m.callbacks cb }

unfoldable pub remove_callback : TunnelManager → Client → TunnelManager
remove_callback m cb = record m { callbacks = Clients.remove_callback m.callbacks cb }

-- `none` is undefined behaviour.
unfoldable pub is_bitdht_packet : World → List ℕ → Option Bool
is_bitdht_packet w bytes = decoded_known (w.be_decoden bytes)

abbrev pub add_tunnels : List (BdId × TunnelPeer) → TunnelNode → TunnelNode
add_tunnels [] n = n
add_tunnels (e ∷ es) n = add_tunnels es (add_tunnel n e.0)

abbrev pub mode_with : List (BdId × TunnelPeer) → TunnelMode
mode_with [] = tunnel_startup
mode_with (e ∷ es) = tunnel_newconn

-- The switch on the mode.
unfoldable pub mode_step : TunnelManager → TunnelMode → ℕ → TunnelManager
mode_step m tunnel_off now = m
mode_step m tunnel_startup now =
    if ltb (m.mode_ts + max_startup_time) now
    then record m { mode = mode_with m.tunnel_peers; mode_ts = now }
    else m
mode_step m tunnel_newconn now =
    if ltb (m.mode_ts + max_refresh_time) now
    then record m { mode = tunnel_startup; mode_ts = now; node = add_tunnels m.tunnel_peers m.node }
    else m
mode_step m tunnel_failed now = start_tunnel (stop_tunnel m now) now

module _ (w : World) where
  abbrev pub ticked : TunnelManager → Option TunnelNode → Option TunnelManager
  ticked m none = none
  ticked m (some n) = some (record m { node = n })

  abbrev pub tick : TunnelManager → TunnelMode → Option TunnelManager
  tick m tunnel_off = some (record m { node = Tunnel.iteration_off m.node })
  tick m tunnel_startup = ticked m (Receiving.iteration w m.node)
  tick m tunnel_newconn = ticked m (Receiving.iteration w m.node)
  tick m tunnel_failed = ticked m (Receiving.iteration w m.node)

  unfoldable pub iteration : TunnelManager → Option TunnelManager
  iteration m = let m' = mode_step m m.mode w.now in tick m' m'.mode

-- ===== src/Store.antt =====
-- bdStore of bitdht/bdstore.h and bitdht/bdstore.cc: the addresses kept for the next start. The list is the
-- state, and the file is the list of the addresses and ports that are written, in network byte order. What
-- fopen, fgets, sscanf and inet_aton make of a file is the argument `lines`.
pub mod Capacity
pub mod Files
use bitdht.Base.{
  ℕ, zero, suc, ◌+◌, ◌*◌, ◌<◌, ◌≡◌, Bool, true, false, not, ◌&&◌, Option, none, some, List, [], ◌∷◌,
  ◌++◌, map, ltb, ◌==◌, if◌then◌else◌, length, keep_if, drop_last,
}
use bitdht.Peer.{SockaddrIn, BdId, BdPeer, af_inet, blank_peer, blank_id}

abbrev pub max_entries : ℕ
max_entries = 1000

abbrev pub Store : Type 0
Store = List BdPeer

abbrev pub clear : Store → Store
clear s = []

abbrev pub read_peer : ℕ × ℕ → BdPeer
read_peer line = record blank_peer {
  peer_id = record blank_id {
    addr = record { sin_family = af_inet; s_addr = line.0; sin_port = line.1 };
  };
}

-- The file could not be opened, or the address and the port of each line that is accepted.
unfoldable pub reload_from_store : Option (List (ℕ × ℕ)) → Store → Store × Bool
reload_from_store none s = (clear s, false)
reload_from_store (some lines) s = (clear s ++ map read_peer lines, true)

-- Whether two ids have one address and port.
unfoldable pub same_addr : BdPeer → BdPeer → Bool
same_addr p q =
    (p.peer_id.addr.s_addr == q.peer_id.addr.s_addr)
    && (p.peer_id.addr.sin_port == q.peer_id.addr.sin_port)

-- The loop that erases.
unfoldable pub remove_store : BdPeer → Store → Store
remove_store peer [] = []
remove_store peer (p ∷ s) =
    let rest = remove_store peer s in if same_addr p peer then rest else p ∷ rest

-- while (size > MAX_ENTRIES) pop_back(): each round takes one, so the length is fuel enough.
unfoldable pub trim_loop : ℕ → Store → Option Store
trim_loop zero s = if ltb max_entries (length s) then none else some s
trim_loop (suc fuel) s =
    let next = trim_loop fuel (drop_last s) in if ltb max_entries (length s) then next else some s

unfoldable pub add_store : BdPeer → Store → Option Store
add_store peer s = let pushed = remove_store peer s ++ peer ∷ [] in trim_loop (length pushed) pushed

-- The lines that the file gets.
abbrev pub addresses : Store → List (ℕ × ℕ)
addresses = map (λ p. (p.peer_id.addr.s_addr, p.peer_id.addr.sin_port))

-- The file before and after: it is left alone while there are fewer than nine tenths of the entries, and if
-- it cannot be opened.
unfoldable pub write_store : Bool → Store → Option (List (ℕ × ℕ)) → Option (List (ℕ × ℕ))
write_store can_open s file =
    if ltb (10 * length s) (9 * max_entries)
    then file
    else if can_open
    then some (addresses s)
    else file

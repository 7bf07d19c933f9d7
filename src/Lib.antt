-- ===== src/Lib.antt =====
-- A model of bitdht, a Kademlia-like distributed hash table in C++, and the proofs of what makes its
-- tables, queries, stores, messages and nodes correct.
--
-- The parts, the files that model them, and the sources (paths from the repository's root):
--   Peer            bitdht/bdiface.h, bitdht/bdpeer.cc: node ids, addresses, ids and peers (bdNodeId, bdId,
--                   bdPeer) and the operators `<` and `==` over them. A node id is the list of its bytes.
--   DhtFunctions    bitdht/bdiface.h: the interface bdDhtFunctions, a record of the key space's operations,
--                   with the laws that its clients use. Space, Query and the node take it as an argument.
--   StdDht          bitdht/bdstddht.cc: the standard DHT, which implements the interface by the XOR metric.
--   Space           bitdht/bdpeer.cc: the routing table bdSpace: add_peer, out_of_date_peer,
--                   find_nearest_nodes, clear, and in Space/Size the estimates calcNetworkSize,
--                   calcNetworkSizeWithFlag and calcSpaceSize.
--   Query           bitdht/bdquery.cc: one lookup, bdQuery: nextQuery, result, matchResult, and in
--                   Query/Adding addPeer and addPotentialPeer. Its start list comes from find_nearest_nodes of
--                   the routing table.
--   Hash            bitdht/bdhash.cc: the values kept for a node id (bdHashSet), and in Hash/Space the table
--                   of them (bdHashSpace).
--   History         bitdht/bdhistory.cc: the messages seen from and sent to each peer, which decide whether a
--                   peer is sent to again.
--   Store           bitdht/bdstore.cc: the addresses kept in a file for the next start.
--   Msgs            bitdht/bdmsgs.cc, bitdht/bdmsgs.h: the bencoded messages. Msgs reads fields and finds the
--                   type, Msgs/Create builds the dictionaries, Msgs/Compact has the 26-byte and 6-byte forms of an
--                   id and an address, Msgs/Crypt the checksum and token around an encrypted datagram.
--   Node            bitdht/bdnode.cc, bitdht/bdnode.h: one peer, bdNode, which owns a routing table, two stores,
--                   a value table and its queries. Node has its state, its queues and its transaction ids;
--                   Node/Sending the msgout_ functions; Node/Peers addPeer, addQuery and the status of queries;
--                   Node/Remote the queue of the queries of others; Node/BlackList the addresses it ignores;
--                   Node/Receiving recvPkt; Node/Handlers the msgin_ functions; Node/Iteration the work of each
--                   second: what has arrived, the peers to ping, the queries and the pings out of date.
--   Manager         bitdht/bdmanager.cc: the state machine that starts the DHT up, the ids that are searched for,
--                   and what becomes of their queries. The calls into the base class bdNode are a list beside
--                   each result; the routing table and the states of the queries are arguments. Manager/Clients
--                   has the callback objects and isBitDhtPacket.
--   System          bdNodeManager on top of bdNode: run_call does what one call of that list does to the node, its
--                   files and the clients. A Step is such a call, or a datagram that the stack hands to incomingMsg.
--   Tunnel          bitdht/bdtunnelnode.cc, bitdht/bdtunnelmanager.cc: the second, smaller node that asks peers for
--                   tunnels. Tunnel has its state and messages, Tunnel/Receiving recvPkt and the iteration, which
--                   read messages by the readers of Node/Receiving, Tunnel/Manager the peers wanted and the modes.
--   Udp             udp/udpbitdht.cc, udp/udptunnel.cc, udp/udpstack.cc: which receiver a datagram goes to, and the loop
--                   that hands the messages of a node to the network.
--   Multimap        what the program uses of std::map and std::multimap: a list in the order of the keys.
--   Base            lists with native lengths, Boolean tests, and the laws of the bit operations.
--   Tests           the theorems at concrete inputs.
-- A file of the name of a part holds the definitions; the files below it hold what is proved of them, and in Node and
-- Tunnel the other definitions too. A method keeps its name in this spelling: bdQuery::addPotentialPeer is
-- Query.Adding.add_potential_peer, with the object as an argument and in the result. Where a class has methods of one
-- name with another (bdHistory::addMsg calls bdMsgHistoryList::addMsg) the outer one has a name of its own (record_msg).
--
-- The conventions:
--   * Each call of time() is an argument, `now` or `ts`, and each random id is one too. For the node they stand in
--     the record World, with the parameters be_encode (with room for 10239 bytes), be_decoden and rand, and with what
--     the uninitialised variables of recvPkt hold.
--   * Times are natural numbers. A signed comparison `x - y > c` is written `y + c < x`. The counters of the
--     estimates wrap at 32 and 64 bits, and the age limits of Hash have the cast to a signed 32-bit number. The
--     mCounter fields of the node are doubles that count, and natural numbers here.
--   * Words that are copied into a compact form have their low byte first. A string of be_node is the list of its
--     bytes, an address and a port are numbers in network order.
--   * std::map and std::multimap are searched from the front, which agrees with the C++ containers where `<` is a
--     strict order on the keys that they hold. For ids that needs keys of different node ids, or of addresses and
--     ports in one order.
--   * `none`, and `undefined` in a parse, stand for undefined behaviour (a read past the end in Query, a null pointer
--     or a write past the end in Msgs) and for fuel that has run out in Hash, Store, Node and Udp. cleanup_loop has the
--     fuel `rounds` of the length, which covers a restart after each removal; trim_loop the length of its list, which it
--     shortens in each round; ping_out_of_date one more than the peers of the table, of which each round marks at least
--     one; decimal twenty digits, which hold 64 bits; ticks one more than the messages. The second loop of
--     cleanHashSpace takes its fuel as an argument, since it need not end.
--   * A method that bdNodeManager overrides has its own definition: Node.Peers.add_peer is bdNode::addPeer, which the
--     override Manager.Clients.add_peer calls after its callbacks. The node runs with its own one.
--   * The message history is compiled out of the node (USE_HISTORY).
--
-- Not modelled: the bencode library (bitdht/bencode.c, a copy of another project's), whose be_encode and be_decoden are
-- parameters; the running averages of bdNode::doStats, which are only printed, and genNewToken, which nothing calls; the
-- sockets and threads of udp/udplayer.cc and the utilities that wrap them; printing; and what the C library makes of
-- the store's file, whose accepted lines are an argument of reload_from_store.
pub mod Base
pub mod Peer
pub mod Multimap
pub mod DhtFunctions
pub mod Space
pub mod StdDht
pub mod Query
pub mod Hash
pub mod Store
pub mod History
pub mod Manager
pub mod Msgs
pub mod Node
pub mod System
pub mod Tunnel
pub mod Udp
mod Tests

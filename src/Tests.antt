-- ===== src/Tests.antt =====
-- The theorems at concrete inputs, and runs of the definitions.
mod Data
mod Keys
mod Table
mod Lookup
mod Values
mod StartUp
mod Messages
mod Exchanges
mod Tunnels
mod UdpStacks
mod NodeData
mod Nodes

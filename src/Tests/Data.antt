-- ===== src/Tests/Data.antt =====
-- Ids, peers and tables for the tests: node ids that differ in the last byte, on the standard DHT.
use bitdht.Base.{
  ℕ, zero, suc, ◌<◌, ◌≡◌, refl, List, [], ◌∷◌, ◌++◌, replicate, All, All-append, arith, false,
}
use bitdht.Peer.{BdNodeId, BdId, BdPeer, IsByte, IsNodeId, blank_peer, af_inet, id_eq, node_id_eq}
use bitdht.StdDht.{
  std_dht, standard_bucket_size, std_bucket_distance, bucket_distance_loop, std_distance,
}
use bitdht.StdDht.Buckets.{std_dht-DhtLaws}
use bitdht.Space.Table.{IsTable}
use bitdht.Space.{Bucket, BdSpace, new_space}
use bitdht.Space.Runs.{Call, adds, run, run-new_space-IsTable}

abbrev pub node : ℕ → BdNodeId
node b = replicate 19 0 ++ b ∷ []

zeros-IsByte : (n : ℕ) → All IsByte (replicate n 0)
zeros-IsByte zero = tt
zeros-IsByte (suc n) = (omega arith, zeros-IsByte n)

pub node-IsNodeId : (b : ℕ) → b < 256 → IsNodeId (node b)
node-IsNodeId b h = record {
  len = refl;
  bytes = All-append IsByte (replicate 19 0) (b ∷ []) (zeros-IsByte 19) (h, tt);
}

abbrev pub id_at : ℕ → ℕ → ℕ → BdId
id_at b address port = record {
  addr = record { sin_family = af_inet; s_addr = address; sin_port = port };
  id = node b;
}

abbrev pub peer_at : ℕ → ℕ → ℕ → BdPeer
peer_at b sent heard = record blank_peer {
  peer_id = id_at b 7 80;
  last_send_time = sent;
  last_recv_time = heard;
}

abbrev pub calls : List Call
calls = adds (id_at 5 7 80) 1 100 ∷ adds (id_at 9 8 80) 1 200 ∷ []

abbrev pub table : BdSpace
table = run std_dht (new_space std_dht (node 0)) calls

pub table-IsTable : IsTable std_dht table
table-IsTable = run-new_space-IsTable std_dht (node 0) calls std_dht-DhtLaws

-- A full bucket of peers that are silent since 100.
abbrev pub full_bucket : Bucket
full_bucket = replicate standard_bucket_size (peer_at 9 0 100)

-- The bucket 3, which is that of the ids 8 to 15 seen from 0, is full.
abbrev pub full_table : BdSpace
full_table = record { buckets = replicate 3 [] ++ full_bucket ∷ replicate 156 []; own_id = node 0 }

pub bucket_of_twelve : std_bucket_distance (std_distance (node 0) (node 12)) ≡ 3
unfolding std_bucket_distance bucket_distance_loop std_distance
bucket_of_twelve = refl

pub All-replicate : {A : Type 0} (P : A → Type 0) (n : ℕ) (x : A) → P x → All P (replicate n x)
All-replicate P zero x h = tt
All-replicate P (suc n) x h = (h, All-replicate P n x h)

pub twelve-Fresh : id_eq (id_at 12 8 80) (id_at 9 7 80) ≡ false
unfolding id_eq node_id_eq
twelve-Fresh = refl

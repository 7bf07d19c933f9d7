-- ===== src/Space.antt =====
-- The routing table, bdSpace of bitdht/bdpeer.h and bitdht/bdpeer.cc. The clock is the argument `ts`.
-- A signed difference of times `x - y > c` is written `y + c < x`.
pub mod Outcomes
pub mod Nearest
pub mod Size
pub mod Estimate
pub mod Runs
pub mod Table
pub mod Stale
use bitdht.Base.{
  ℕ, zero, suc, ◌+◌, Bool, true, false, Option, none, some, List, [], ◌∷◌, ◌++◌, map, ltb, ◌==◌,
  if◌then◌else◌, length, get_or, set, replicate, bit_or,
}
use mathlib.Core.Option
use bitdht.Peer.{BdNodeId, BdMetric, BdId, BdPeer, node_id_lt, id_eq}
use bitdht.DhtFunctions.{DhtFunctions}
use bitdht.Multimap

abbrev pub max_send_period : ℕ
max_send_period = 600

abbrev pub max_recv_period : ℕ
max_recv_period = 1500

abbrev pub key_bitlen : ℕ
key_bitlen = 160

abbrev pub ullong_bits : ℕ
ullong_bits = 64

abbrev pub Bucket : Type 0
Bucket = List BdPeer

pub record BdSpace : Type 0 where
  pub buckets : List Bucket
  pub own_id : BdNodeId

-- The loop of add_peer over one bucket: the peer found, with the bucket less that peer, or the
-- lowest score.
pub data ScanResult : Type 0 where
  found : BdPeer → Bucket → ScanResult
  missing : ℕ → ScanResult

abbrev pub behind : BdPeer → ScanResult → ScanResult
behind p (found q rest) = found q (p ∷ rest)
behind p (missing score) = missing score

unfoldable pub scan_bucket : BdId → ℕ → Bucket → ScanResult
scan_bucket id min_score [] = missing min_score
scan_bucket id min_score (p ∷ ps) =
    let rest =
      behind p
        (scan_bucket id (if ltb p.peer_flags min_score then p.peer_flags else min_score) ps) in
    if id_eq id p.peer_id then found p ps else rest

-- Erases the first peer of the lowest score; `none` if there is none.
unfoldable pub drop_score : ℕ → Bucket → Option Bucket
drop_score score [] = none
drop_score score (p ∷ ps) =
    let rest = Option.map (◌∷◌ p) (drop_score score ps) in
    if p.peer_flags == score then some ps else rest

-- The branch for a full bucket: the bucket after the drop, or `none` for no room. The head is tested
-- by `head.last_recv_time - ts`, as in the source. No bucket of capacity zero is ever full and empty.
unfoldable pub make_room : ℕ → ℕ → ℕ → Bucket → Option Bucket
make_room flags min_score ts [] = none
make_room flags min_score ts (p ∷ ps) =
    if ltb (ts + max_recv_period) p.last_recv_time
    then some ps
    else if ltb min_score flags
    then drop_score min_score (p ∷ ps)
    else none

abbrev pub new_peer : BdId → ℕ → ℕ → BdPeer
new_peer id flags ts = record {
  peer_id = id;
  peer_flags = flags;
  last_send_time = ts;
  last_recv_time = ts;
  found_time = 0;
}

abbrev pub refreshed : BdPeer → ℕ → ℕ → BdPeer
refreshed p flags ts = record p { last_recv_time = ts; peer_flags = bit_or p.peer_flags flags }

abbrev pub replace_with : BdPeer → Bucket → Option Bucket → Bucket × Bool
replace_with p b none = (b, false)
replace_with p b (some rest) = (rest ++ p ∷ [], true)

-- add_peer after its first loop.
unfoldable pub place : ℕ → BdId → ℕ → ℕ → Bucket → ScanResult → Bucket × Bool
place capacity id flags ts b (found p rest) = (rest ++ refreshed p flags ts ∷ [], true)
place capacity id flags ts b (missing min_score) =
    if ltb (length b) capacity
    then (b ++ new_peer id flags ts ∷ [], true)
    else replace_with (new_peer id flags ts) b (make_room flags min_score ts b)

-- add_peer on the selected bucket, with what it returns.
unfoldable pub add_to_bucket : ℕ → BdId → ℕ → ℕ → Bucket → Bucket × Bool
add_to_bucket capacity id flags ts b = place capacity id flags ts b (scan_bucket id flags b)

abbrev pub keep_peer : BdPeer → Option (BdId × Bucket) → Option (BdId × Bucket)
keep_peer p none = none
keep_peer p (some (id, rest)) = some (id, p ∷ rest)

-- out_of_date_peer on one bucket: the first peer not sent to for a while, which is marked.
unfoldable pub stale_in_bucket : ℕ → Bucket → Option (BdId × Bucket)
stale_in_bucket ts [] = none
stale_in_bucket ts (p ∷ ps) =
    let rest = keep_peer p (stale_in_bucket ts ps) in
    if ltb (p.last_send_time + max_send_period) ts
    then some (p.peer_id, record p { last_send_time = ts } ∷ ps)
    else rest

-- The bucket's own answer if there is one, or else that of the later buckets.
abbrev pub or_later :
    Bucket
    → List Bucket
    → Option (BdId × Bucket)
    → Option (BdId × List Bucket)
    → Option (BdId × List Bucket)
or_later b bs (some (id, c)) later = some (id, c ∷ bs)
or_later b bs none (some (id, cs)) = some (id, b ∷ cs)
or_later b bs none none = none

unfoldable pub stale_in_buckets : ℕ → List Bucket → Option (BdId × List Bucket)
stale_in_buckets ts [] = none
stale_in_buckets ts (b ∷ bs) = or_later b bs (stale_in_bucket ts b) (stale_in_buckets ts bs)

abbrev pub with_buckets : BdSpace → Option (BdId × List Bucket) → BdSpace × Option BdId
with_buckets s none = (s, none)
with_buckets s (some (id, bs)) = (record s { buckets = bs }, some id)

unfoldable pub out_of_date_peer : BdSpace → ℕ → BdSpace × Option BdId
out_of_date_peer s ts = with_buckets s (stale_in_buckets ts s.buckets)

unfoldable pub clear : BdSpace → BdSpace
clear s = record s { buckets = map (λ b. []) s.buckets }

module _ (fns : DhtFunctions) where
  unfoldable pub new_space : BdNodeId → BdSpace
  new_space own_id = record { buckets = replicate fns.num_buckets []; own_id = own_id }

  abbrev pub bucket_of : BdSpace → BdNodeId → ℕ
  bucket_of s id = fns.bucket_distance (fns.distance s.own_id id)

  unfoldable pub add_peer : BdSpace → BdId → ℕ → ℕ → BdSpace × Bool
  add_peer s id flags ts =
      let bucket = bucket_of s id.id in
      let (b, added) =
        add_to_bucket fns.nodes_per_bucket id flags ts (get_or s.buckets bucket []) in
      (record s { buckets = set s.buckets bucket b }, added)

  -- `closest` after the loop over one bucket, and over all of them.
  unfoldable pub insert_bucket : BdNodeId → Bucket → List (BdMetric × BdId) → List (BdMetric × BdId)
  insert_bucket id [] closest = closest
  insert_bucket id (p ∷ ps) closest =
      insert_bucket id ps
        (Multimap.insert node_id_lt (fns.distance id p.peer_id.id) p.peer_id closest)

  unfoldable pub insert_buckets :
      BdNodeId → List Bucket → List (BdMetric × BdId) → List (BdMetric × BdId)
  insert_buckets id [] closest = closest
  insert_buckets id (b ∷ bs) closest = insert_buckets id bs (insert_bucket id b closest)

  unfoldable pub insert_first :
      ℕ → List (BdMetric × BdId) → List (BdMetric × BdId) → List (BdMetric × BdId)
  insert_first zero closest nearest = nearest
  insert_first (suc n) [] nearest = nearest
  insert_first (suc n) ((dist, id) ∷ closest) nearest =
      insert_first n closest (Multimap.insert node_id_lt dist id nearest)

  -- The parameter `excluding` has no name in the source and is not used.
  unfoldable pub find_nearest_nodes :
      BdSpace → BdNodeId → ℕ → List BdId → List (BdMetric × BdId) → List (BdMetric × BdId)
  find_nearest_nodes s id number excluding nearest =
      insert_first number (insert_buckets id s.buckets []) nearest

-- ===== src/Manager/StartUp.antt =====
-- The start of the DHT by bdNodeManager::startDht and iteration of bitdht/bdmanager.cc.
use bitdht.Base.{
  ℕ, ◌+◌, ◌≤◌, ◌<◌, ◌≡◌, refl, ◌⊎◌, inl, inr, true, List, [], ◌∷◌, bit_or, ltb, Bool-cases, arith,
}
use bitdht.Peer.{BdNodeId}
use bitdht.DhtFunctions.{DhtFunctions}
use bitdht.Space.{BdSpace}
use bitdht.Space.Size.{calc_space_size}
use bitdht.Query.{qflags_do_idle, qflags_disguise}
use bitdht.Manager.{
  startup, findself, active, refresh, failed, max_startup_time, max_findself_time,
  min_op_space_size, QueryStatus, Manager, add_query, iterate, start_dht, stop_dht,
}
use bitdht.Manager.Iteration.{iteration, refresh_step, second_id}

-- Started at `t0`, with iterations after the start-up time and after the time for finding itself, the first one calls the
-- node to look for its own id, the owner's in the routing table, and for the fixed second id, with the flags for idling
-- and disguise, before the node's own iteration. If the routing table has more than 20 peers at the second one, it is active
-- after the third; if not, it has failed, and after the third it starts up again at the time of that.
pub start_dht_lem :
    (fns : DhtFunctions) (m : Manager) (space1 space2 space3 : BdSpace)
    → (statuses1 statuses2 statuses3 : List (BdNodeId × QueryStatus)) (t0 t1 t2 t3 : ℕ)
    → t0 + max_startup_time < t1
    → t1 + max_findself_time < t2
    → let m0 = (start_dht m t0).0 in
      let m1 = (iteration fns space1 statuses1 m0 t1).0 in
      let m2 = (iteration fns space2 statuses2 m1 t2).0 in
      let m3 = (iteration fns space3 statuses3 m2 t3).0 in
      (m1.mode ≡ findself)
      × ((iteration fns space1 statuses1 m0 t1).1
          ≡ add_query space1.own_id (bit_or qflags_do_idle qflags_disguise)
            ∷ add_query second_id (bit_or qflags_do_idle qflags_disguise)
            ∷ iterate
            ∷ [])
      × (((min_op_space_size < calc_space_size space2) × (m2.mode ≡ refresh) × (m3.mode ≡ active))
          ⊎ ((calc_space_size space2 ≤ min_op_space_size)
              × (m2.mode ≡ failed)
              × (m3.mode ≡ startup)
              × (m3.mode_ts ≡ t3)))
unfolding start_dht iteration refresh_step stop_dht
start_dht_lem fns m space1 space2 space3 statuses1 statuses2 statuses3 t0 t1 t2 t3 late later =
    let first : ltb (t0 + max_startup_time) t1 ≡ true = ground arith in
    let second : ltb (t1 + max_findself_time) t2 ≡ true = ground arith in
    elim (Bool-cases (ltb min_op_space_size (calc_space_size space2))) [
      | inl e ↦ rw (first, second, e) (refl, refl, inl (ground (arith, e), refl, refl))
      | inr e ↦ rw (first, second, e) (refl, refl, inr (ground (arith, e), refl, refl, refl))
    ]

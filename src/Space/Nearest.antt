-- ===== src/Space/Nearest.antt =====
-- find_nearest_nodes of bitdht/bdpeer.cc: the nearest peers of the whole table, in order.
use bitdht.Base.{
  ℕ, zero, suc, ◌≡◌, sym, ap, ◌∙◌, min, List, [], ◌∷◌, ◌++◌, map, subst, length, take, drop,
  take-append-drop, length-take,
}
use mathlib.Core.List.Perm
use mathlib.Core.List.{Perm, append_assoc, append-nil, perm_middle, perm_append_comm}
use bitdht.Peer.{BdNodeId, BdMetric, BdId, node_id_lt}
use bitdht.Peer.Order.{node_id_lt-IsStrict}
use bitdht.DhtFunctions.{DhtFunctions}
use bitdht.Multimap.Order.{IsSorted, insert-IsSorted, insert-append, insert-perm, IsSorted-middle}
use bitdht.Space.{Bucket, BdSpace, insert_bucket, insert_buckets, insert_first, find_nearest_nodes}

abbrev pub IsOrdered : List (BdMetric × BdId) → Type 0
IsOrdered = IsSorted node_id_lt

-- Entries that are put into an empty `nearest` in order keep their order.
insert_first-take :
    (fns : DhtFunctions) (n : ℕ) (closest nearest : List (BdMetric × BdId))
    → IsOrdered (nearest ++ closest)
    → insert_first fns n closest nearest ≡ nearest ++ take n closest
unfolding insert_first
insert_first-take fns zero closest nearest s = sym (append-nil nearest)
insert_first-take fns (suc n) [] nearest s = sym (append-nil nearest)
insert_first-take fns (suc n) ((dist, id) ∷ closest) nearest s =
    rw
      (insert-append node_id_lt dist id nearest
        (IsSorted-middle node_id_lt dist id nearest closest s))
      (insert_first-take fns n closest (nearest ++ (dist, id) ∷ [])
          (subst IsOrdered (sym (append_assoc nearest ((dist, id) ∷ []) closest)) s)
        ∙ append_assoc nearest ((dist, id) ∷ []) (take n closest))

module _ (fns : DhtFunctions) (id : BdNodeId) where
  -- The peers of a bucket and of the table, each with its distance from `id`.
  abbrev pub with_distance : Bucket → List (BdMetric × BdId)
  with_distance b = map (λ p. (fns.distance id p.peer_id.id, p.peer_id)) b

  abbrev pub all_peers : List Bucket → List (BdMetric × BdId)
  all_peers [] = []
  all_peers (b ∷ bs) = with_distance b ++ all_peers bs

  insert_bucket-perm :
      (b : Bucket) (closest : List (BdMetric × BdId))
      → Perm (insert_bucket fns id b closest) (with_distance b ++ closest)
  unfolding insert_bucket
  insert_bucket-perm [] closest = Perm.refl closest
  insert_bucket-perm (p ∷ b) closest = Perm.trans (insert_bucket-perm b _) (
      Perm.trans (Perm.append (Perm.refl (with_distance b)) (insert-perm node_id_lt _ _ closest))
        (perm_middle (with_distance b) closest))

  insert_buckets-perm :
      (bs : List Bucket) (closest : List (BdMetric × BdId))
      → Perm (insert_buckets fns id bs closest) (closest ++ all_peers bs)
  unfolding insert_buckets
  insert_buckets-perm [] closest = rw append-nil (Perm.refl closest)
  insert_buckets-perm (b ∷ bs) closest = Perm.trans (insert_buckets-perm bs _) (
      Perm.trans
        (Perm.append
          (Perm.trans (insert_bucket-perm b closest) (perm_append_comm (with_distance b) closest))
          (Perm.refl (all_peers bs)))
        (rw append_assoc (Perm.refl _)))

  insert_bucket-IsOrdered :
      (b : Bucket) (closest : List (BdMetric × BdId))
      → IsOrdered closest
      → IsOrdered (insert_bucket fns id b closest)
  unfolding insert_bucket
  insert_bucket-IsOrdered [] closest s = s
  insert_bucket-IsOrdered (p ∷ b) closest s =
      insert_bucket-IsOrdered b _ (insert-IsSorted node_id_lt node_id_lt-IsStrict _ _ closest s)

  insert_buckets-IsOrdered :
      (bs : List Bucket) (closest : List (BdMetric × BdId))
      → IsOrdered closest
      → IsOrdered (insert_buckets fns id bs closest)
  unfolding insert_buckets
  insert_buckets-IsOrdered [] closest s = s
  insert_buckets-IsOrdered (b ∷ bs) closest s =
      insert_buckets-IsOrdered bs _ (insert_bucket-IsOrdered b closest s)

  -- Into an empty `nearest` go the nearest peers of the table: with the peers left out behind them, they
  -- are all the peers of the table in the order of their distance from `id`, and there are `number` of
  -- them or as many as the table has.
  pub find_nearest_nodes_lem :
      (s : BdSpace) (number : ℕ) (excluding : List BdId)
      → (left_out : List (BdMetric × BdId)) × Perm
          (find_nearest_nodes fns s id number excluding [] ++ left_out)
          (all_peers s.buckets)
        × IsOrdered (find_nearest_nodes fns s id number excluding [] ++ left_out)
        × (length (find_nearest_nodes fns s id number excluding [])
            ≡ min number (length (find_nearest_nodes fns s id number excluding [] ++ left_out)))
  unfolding find_nearest_nodes
  find_nearest_nodes_lem s number excluding =
      let closest = insert_buckets fns id s.buckets [] in
      let ordered = insert_buckets-IsOrdered s.buckets [] tt in
      let split : insert_first fns number closest [] ++ drop number closest ≡ closest =
        ap (λ l. l ++ drop number closest) (insert_first-take fns number closest [] ordered)
        ∙ take-append-drop number closest in
      (
        drop number closest,
        rw split (insert_buckets-perm s.buckets []),
        rw split ordered,
        ap length (insert_first-take fns number closest [] ordered)
            ∙ length-take number closest
            ∙ ap (λ l. min number (length l)) (sym split),
      )

-- ===== src/Space/Table.antt =====
-- The invariant of the routing table, and that every operation of bdSpace keeps it.
use bitdht.Base.{
  length-map, ℕ, zero, suc, ◌+◌, ◌≤◌, ◌<◌, ◌≡◌, refl, ◌∙◌, subst, Bool, List, [], ◌∷◌, ◌++◌, map,
  length, length-append, length-set, length-replicate, get_or, set, replicate, All, All-append,
  arith,
}
use bitdht.Peer.{BdNodeId, BdId, BdPeer}
use bitdht.DhtFunctions.{DhtFunctions, DhtLaws}
use bitdht.Space.{
  Bucket, BdSpace, refreshed, new_peer, clear, new_space, bucket_of, add_peer, add_to_bucket,
}
use bitdht.Space.Outcomes.{
  Fresh, Distinct, Taken-length, Taken-All, Taken-Distinct, Distinct-append, Added,
  add_to_bucket-Added, refresh, append, replace, refuse,
}

-- A predicate on each bucket and its index.
abbrev pub AllFrom : (ℕ → Bucket → Type 0) → ℕ → List Bucket → Type 0
AllFrom P i [] = Unit {0}
AllFrom P i (b ∷ bs) = P i b × AllFrom P (suc i) bs

pub AllFrom-get_or :
    (P : ℕ → Bucket → Type 0) (i j : ℕ) (bs : List Bucket)
    → AllFrom P i bs
    → j < length bs
    → P (i + j) (get_or bs j [])
AllFrom-get_or P i j [] h l = absurd (omega arith)
AllFrom-get_or P i zero (b ∷ bs) h l = subst (λ k. P k b) (omega arith) h.0
AllFrom-get_or P i (suc j) (b ∷ bs) h l =
    subst (λ k. P k (get_or bs j [])) (omega arith)
      (AllFrom-get_or P (suc i) j bs h.1 (omega arith))

AllFrom-set :
    (P : ℕ → Bucket → Type 0) (i j : ℕ) (b : Bucket) (bs : List Bucket)
    → AllFrom P i bs
    → P (i + j) b
    → AllFrom P i (set bs j b)
AllFrom-set P i j b [] h p = tt
AllFrom-set P i zero b (c ∷ bs) h p = (subst (λ k. P k b) (omega arith) p, h.1)
AllFrom-set P i (suc j) b (c ∷ bs) h p =
    (h.0, AllFrom-set P (suc i) j b bs h.1 (subst (λ k. P k b) (omega arith) p))

AllFrom-replicate :
    (P : ℕ → Bucket → Type 0) (i n : ℕ) → ((k : ℕ) → P k []) → AllFrom P i (replicate n [])
AllFrom-replicate P i zero h = tt
AllFrom-replicate P i (suc n) h = (h i, AllFrom-replicate P (suc i) n h)

AllFrom-cleared :
    (P : ℕ → Bucket → Type 0) (i : ℕ) (bs : List Bucket)
    → ((k : ℕ) → P k [])
    → AllFrom P i (map (λ b. []) bs)
AllFrom-cleared P i [] h = tt
AllFrom-cleared P i (b ∷ bs) h = (h i, AllFrom-cleared P (suc i) bs h)

module _ (fns : DhtFunctions) where
  -- The bucket with the index `i`: not above the capacity, no id twice, every peer at home.
  pub record IsBucket (own_id : BdNodeId) (i : ℕ) (b : Bucket) : Type 0 where
    pub bounded : length b ≤ fns.nodes_per_bucket
    pub distinct : Distinct b
    pub at_home : All (λ p. fns.bucket_distance (fns.distance own_id p.peer_id.id) ≡ i) b

  pub record IsTable (s : BdSpace) : Type 0 where
    pub count : length s.buckets ≡ fns.num_buckets
    pub good : AllFrom (IsBucket s.own_id) 0 s.buckets

  empty-IsBucket : (own_id : BdNodeId) (i : ℕ) → IsBucket own_id i []
  empty-IsBucket own_id i = record { bounded = omega arith; distinct = tt; at_home = tt }

  -- A peer put at the back of a bucket that it is not in.
  push-IsBucket :
      (own_id : BdNodeId) (i : ℕ) (b : Bucket) (p : BdPeer)
      → length b < fns.nodes_per_bucket
      → Fresh p.peer_id b
      → Distinct b
      → All (λ q. fns.bucket_distance (fns.distance own_id q.peer_id.id) ≡ i) b
      → fns.bucket_distance (fns.distance own_id p.peer_id.id) ≡ i
      → IsBucket own_id i (b ++ p ∷ [])
  push-IsBucket own_id i b p l f d a e = record {
    bounded = omega (arith, length-append b (p ∷ []));
    distinct = Distinct-append b p f d;
    at_home = All-append _ b (p ∷ []) a (e, tt);
  }

  Added-IsBucket :
      (own_id : BdNodeId) (i : ℕ) (id : BdId) (flags ts : ℕ) (b : Bucket)
      → {r : Bucket × Bool} → Added fns.nodes_per_bucket id flags ts b r
      → IsBucket own_id i b
      → fns.bucket_distance (fns.distance own_id id.id) ≡ i
      → IsBucket own_id i r.0
  Added-IsBucket own_id i id flags ts b (refresh p rest e t) v h =
      let (fp, d) = Taken-Distinct t v.distinct in
      let (hp, a) = Taken-All _ t v.at_home in
      push-IsBucket own_id i rest (refreshed p flags ts) (omega (arith, v.bounded, Taken-length t))
        fp d a hp
  Added-IsBucket own_id i id flags ts b (append f l) v h =
      push-IsBucket own_id i b (new_peer id flags ts) l f v.distinct v.at_home h
  Added-IsBucket own_id i id flags ts b (replace p rest f c t w) v h =
      push-IsBucket own_id i rest (new_peer id flags ts) (omega (arith, v.bounded, Taken-length t))
        (Taken-All _ t f).1 (Taken-Distinct t v.distinct).1 (Taken-All _ t v.at_home).1 h
  Added-IsBucket own_id i id flags ts b (refuse f c n a) v h = v

  pub new_space-IsTable : (own_id : BdNodeId) → IsTable (new_space fns own_id)
  unfolding new_space
  new_space-IsTable own_id = record {
    count = length-replicate fns.num_buckets [];
    good = AllFrom-replicate _ 0 fns.num_buckets (empty-IsBucket own_id);
  }

  pub clear-IsTable : (s : BdSpace) → IsTable s → IsTable (clear s)
  unfolding clear
  clear-IsTable s v = record {
    count = length-map (λ b. []) s.buckets ∙ v.count;
    good = AllFrom-cleared _ 0 s.buckets (empty-IsBucket s.own_id);
  }

  pub add_peer-IsTable :
      (laws : DhtLaws fns) (s : BdSpace) (id : BdId) (flags ts : ℕ)
      → IsTable s
      → IsTable (add_peer fns s id flags ts).0
  unfolding add_peer
  add_peer-IsTable laws s id flags ts v = record {
    count = length-set s.buckets j _ ∙ v.count;
    good = AllFrom-set (IsBucket s.own_id) 0 j after s.buckets v.good (
        subst (λ k. IsBucket s.own_id k after) (omega arith)
          (Added-IsBucket s.own_id j id flags ts before
            (add_to_bucket-Added fns.nodes_per_bucket id flags ts before) before_good refl));
  }
    where
      j : ℕ
      j = bucket_of fns s id.id

      before : Bucket
      before = get_or s.buckets j []

      after : Bucket
      after = (add_to_bucket fns.nodes_per_bucket id flags ts before).0

      before_good : IsBucket s.own_id j before
      before_good =
          subst (λ k. IsBucket s.own_id k before) (omega arith)
            (AllFrom-get_or (IsBucket s.own_id) 0 j s.buckets v.good
              (omega (arith, v.count, laws.bucket_in_range (fns.distance s.own_id id.id))))

-- ===== src/Space/Estimate.antt =====
-- What the network and table sizes of bitdht/bdpeer.cc come to.
use bitdht.Base.{
  ℕ, suc, ◌+◌, ◌*◌, ◌%◌, ◌≤◌, ◌<◌, ◌≡◌, refl, ap, ◌∙◌, true, false, not, List, [], ◌∷◌, ◌++◌, ◌≢◌,
  inl, inr, ◌==◌, if◌then◌else◌, length, count_if, bit_and, All, arith, Bool-cases, subst,
}
use bitdht.Peer.{BdNodeId}
use bitdht.DhtFunctions.{DhtFunctions}
use bitdht.Space.{Bucket, BdSpace}
use bitdht.Space.Size.{
  u32_mod, Tally, start_tally, is_to_big, tally_bucket, tally_sizes, net_size, sizes,
  sizes_with_flag, calc_network_size, calc_network_size_with_flag, total_count, calc_space_size,
}
use bitdht.Space.Table.{AllFrom, IsBucket, IsTable}

tally_sizes-append :
    (fns : DhtFunctions) (i : ℕ) (xs ys : List ℕ) (t : Tally)
    → tally_sizes fns i (xs ++ ys) t ≡ tally_sizes fns (i + length xs) ys (tally_sizes fns i xs t)
unfolding tally_sizes
tally_sizes-append fns i [] ys t = ap (λ k. tally_sizes fns k ys t) (omega arith)
tally_sizes-append fns i (x ∷ xs) ys t =
    tally_sizes-append fns (suc i) xs ys (tally_bucket fns i x t)
    ∙ ap (λ k. tally_sizes fns k ys (tally_sizes fns (suc i) xs (tally_bucket fns i x t)))
        (omega arith)

-- No bucket counts any more.
abbrev Closed : Tally → Type 0
Closed t = (t.do_print ≡ true) × (t.do_avg ≡ false)

full-Closed :
    (fns : DhtFunctions) (i : ℕ) (t : Tally)
    → 0 < fns.nodes_per_bucket
    → is_to_big fns i ≡ false
    → Closed (tally_bucket fns i fns.nodes_per_bucket t)
unfolding tally_bucket
full-Closed fns i t h e = rw e (ground arith)

tally_bucket-Closed :
    (fns : DhtFunctions) (i size : ℕ) (t : Tally)
    → Closed t
    → Closed (tally_bucket fns i size t)
      × ((tally_bucket fns i size t).count ≡ (if size == 0 then 0 else t.count))
unfolding tally_bucket
tally_bucket-Closed fns i size t h = elim (Bool-cases (is_to_big fns i)) [
  | inl e ↦ rw e (ground arith)
  | inr e ↦ rw e (ground arith)
]

-- Once closed, an empty bucket leaves no count, and none comes back.
Closed-zero :
    (fns : DhtFunctions) (i : ℕ) (xs : List ℕ) (t : Tally)
    → Closed t
    → t.count ≡ 0
    → (tally_sizes fns i xs t).count ≡ 0
unfolding tally_sizes
Closed-zero fns i [] t c z = z
Closed-zero fns i (x ∷ xs) t c z =
    Closed-zero fns (suc i) xs (tally_bucket fns i x t) (tally_bucket-Closed fns i x t c).0
      (ground (arith, tally_bucket-Closed fns i x t c))

Closed-empty :
    (fns : DhtFunctions) (i : ℕ) (xs ys : List ℕ) (t : Tally)
    → Closed t
    → (tally_sizes fns i (xs ++ 0 ∷ ys) t).count ≡ 0
unfolding tally_sizes
Closed-empty fns i [] ys t c =
    Closed-zero fns (suc i) ys (tally_bucket fns i 0 t) (tally_bucket-Closed fns i 0 t c).0
      (tally_bucket-Closed fns i 0 t c).1
Closed-empty fns i (x ∷ xs) ys t c =
    Closed-empty fns (suc i) xs ys (tally_bucket fns i x t) (tally_bucket-Closed fns i x t c).0

-- A full bucket, whose depth is not cut off, and an empty bucket anywhere behind it make the estimate of
-- the network zero, whatever the other buckets hold.
pub calc_network_size_zero :
    (fns : DhtFunctions) (s : BdSpace) (pre mid post : List ℕ)
    → 0 < fns.nodes_per_bucket
    → is_to_big fns (length pre) ≡ false
    → sizes s.buckets ≡ pre ++ (fns.nodes_per_bucket ∷ (mid ++ (0 ∷ post)))
    → calc_network_size fns s ≡ 0
unfolding calc_network_size tally_sizes
calc_network_size_zero fns s pre mid post h b e =
    let t : Tally = tally_sizes fns 0 pre start_tally in
    let i : ℕ = 0 + length pre in
    ground (
      arith,
      tally_sizes-append fns 0 pre (fns.nodes_per_bucket ∷ (mid ++ (0 ∷ post))) start_tally,
      Closed-empty fns (suc i) mid post (tally_bucket fns i fns.nodes_per_bucket t)
          (full-Closed fns i t h (ap (λ k. is_to_big fns k) (omega arith) ∙ b)),
    )

-- All peers of the bucket have a flag of the mask.
abbrev pub AllFlagged : ℕ → Bucket → Type 0
AllFlagged flag b = All (λ p. bit_and flag p.peer_flags ≢ 0) b

count_if-AllFlagged :
    (flag : ℕ) (b : Bucket)
    → AllFlagged flag b
    → count_if (λ p. not (bit_and flag p.peer_flags == 0)) b ≡ length b
count_if-AllFlagged flag [] h = refl
count_if-AllFlagged flag (p ∷ b) h = ground (arith, count_if-AllFlagged flag b h.1)

sizes-AllFlagged :
    (flag : ℕ) (bs : List Bucket) → All (AllFlagged flag) bs → sizes_with_flag flag bs ≡ sizes bs
sizes-AllFlagged flag [] h = refl
sizes-AllFlagged flag (b ∷ bs) h = cc (count_if-AllFlagged flag b h.0, sizes-AllFlagged flag bs h.1)

-- Where every peer has a flag of the mask, both estimates agree.
pub calc_network_size_with_flag-All :
    (fns : DhtFunctions) (s : BdSpace) (flag : ℕ)
    → All (AllFlagged flag) s.buckets
    → calc_network_size_with_flag fns s flag ≡ calc_network_size fns s
unfolding calc_network_size calc_network_size_with_flag
calc_network_size_with_flag-All fns s flag h =
    ap (λ l. net_size (tally_sizes fns 0 l start_tally)) (sizes-AllFlagged flag s.buckets h)

abbrev pub total : List ℕ → ℕ
total [] = 0
total (x ∷ xs) = x + total xs

total_count-total :
    (bs : List Bucket) (n : ℕ)
    → n + total (sizes bs) < u32_mod
    → total_count bs n ≡ n + total (sizes bs)
unfolding total_count
total_count-total [] n h = omega arith
total_count-total (b ∷ bs) n h =
    ground (arith, total_count-total bs ((n + length b) % u32_mod) (omega arith))

AllFrom-total :
    (fns : DhtFunctions) (own_id : BdNodeId) (i : ℕ) (bs : List Bucket)
    → AllFrom (IsBucket fns own_id) i bs
    → total (sizes bs) ≤ length bs * fns.nodes_per_bucket
AllFrom-total fns own_id i [] h = omega arith
AllFrom-total fns own_id i (b ∷ bs) h =
    grind (arith, AllFrom-total fns own_id (suc i) bs h.1, h.0.bounded)

-- On a well-formed table that fits 32 bits at its capacity, calcSpaceSize counts the peers without
-- wrap-around, and there are no more than the capacity.
pub calc_space_size-total :
    (fns : DhtFunctions) (s : BdSpace)
    → IsTable fns s
    → fns.num_buckets * fns.nodes_per_bucket < u32_mod
    → (calc_space_size s ≡ total (sizes s.buckets))
      × (calc_space_size s ≤ fns.num_buckets * fns.nodes_per_bucket)
unfolding calc_space_size
calc_space_size-total fns s v h =
    let bound : total (sizes s.buckets) ≤ fns.num_buckets * fns.nodes_per_bucket =
      subst (λ n. total (sizes s.buckets) ≤ n * fns.nodes_per_bucket) v.count
        (AllFrom-total fns s.own_id 0 s.buckets v.good) in
    let exact : total_count s.buckets 0 ≡ 0 + total (sizes s.buckets) =
      total_count-total s.buckets 0 (omega arith) in
    (omega arith, omega arith)

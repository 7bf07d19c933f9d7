-- ===== src/Space/Runs.antt =====
-- bdSpace under any sequence of its calls, and what add_peer does to the whole table.
use bitdht.Base.{
  Bool-cases, ◌==◌, ℕ, ◌≤◌, ◌<◌, ◌≡◌, refl, ◌⊎◌, inl, inr, Bool, true, false, List, [], ◌∷◌, ◌++◌,
  length, get_or, set, get_or-set_self, set-get_or_self, get_or-set_other, All, arith, subst, sym,
}
use bitdht.Peer.{BdNodeId, BdId, BdPeer, id_eq}
use bitdht.Peer.Order.{id_eq_self}
use bitdht.DhtFunctions.{DhtFunctions, DhtLaws}
use bitdht.Space.{
  Bucket, BdSpace, out_of_date_peer, clear, new_space, bucket_of, add_peer, add_to_bucket,
}
use bitdht.Space.Outcomes.{
  Fresh, Taken-All, FromFuture, Added, refresh, append, replace, refuse, add_to_bucket-Added,
}
use bitdht.Space.Table.{IsTable, new_space-IsTable, clear-IsTable, add_peer-IsTable}
use bitdht.Space.Stale.{out_of_date_peer-IsTable}

-- The calls that change a table, each with the time at which it is made.
pub data Call : Type 0 where
  adds : BdId → ℕ → ℕ → Call
  outdates : ℕ → Call
  clears : Call

pub step : DhtFunctions → BdSpace → Call → BdSpace
step fns s (adds id flags ts) = (add_peer fns s id flags ts).0
step fns s (outdates ts) = (out_of_date_peer s ts).0
step fns s clears = clear s

unfoldable pub run : DhtFunctions → BdSpace → List Call → BdSpace
unfolding step
run fns s [] = s
run fns s (c ∷ cs) = run fns (step fns s c) cs

step-IsTable :
    (fns : DhtFunctions) (laws : DhtLaws fns) (s : BdSpace) (c : Call)
    → IsTable fns s
    → IsTable fns (step fns s c)
unfolding step
step-IsTable fns laws s (adds id flags ts) v = add_peer-IsTable fns laws s id flags ts v
step-IsTable fns laws s (outdates ts) v = out_of_date_peer-IsTable fns s ts v
step-IsTable fns laws s clears v = clear-IsTable fns s v

run-IsTable :
    (fns : DhtFunctions) (laws : DhtLaws fns) (s : BdSpace) (cs : List Call)
    → IsTable fns s
    → IsTable fns (run fns s cs)
unfolding run
run-IsTable fns laws s [] v = v
run-IsTable fns laws s (c ∷ cs) v =
    run-IsTable fns laws (step fns s c) cs (step-IsTable fns laws s c v)

-- If the DHT functions keep their laws, after any sequence of calls on a new table there are as many buckets as at first, none is above the
-- capacity, no bucket has an id twice, and every peer stands in the bucket of its distance.
pub run-new_space-IsTable :
    (fns : DhtFunctions) (own_id : BdNodeId) (cs : List Call)
    → DhtLaws fns
    → IsTable fns (run fns (new_space fns own_id) cs)
run-new_space-IsTable fns own_id cs laws =
    run-IsTable fns laws (new_space fns own_id) cs (new_space-IsTable fns own_id)

-- The bucket after a call that added: the peer is at its end, with its id and the time.
abbrev pub EndsWith : BdId → ℕ → Bucket → Type 0
EndsWith id ts b =
    (rest : Bucket) × (p : BdPeer) × (b ≡ rest ++ p ∷ [])
    × (id_eq id p.peer_id ≡ true)
    × (p.last_recv_time ≡ ts)

Added-EndsWith :
    {capacity : ℕ} {id : BdId} {flags ts : ℕ} {b : Bucket} {r : Bucket × Bool}
    → Added capacity id flags ts b r
    → ((r.1 ≡ true) × EndsWith id ts r.0) ⊎ ((r.1 ≡ false) × (r.0 ≡ b) × Fresh id b)
Added-EndsWith (refresh p rest e t) = inl (refl, (rest, _, refl, e, refl))
Added-EndsWith {id = id} {b = b} (append f l) = inl (refl, (b, _, refl, id_eq_self id, refl))
Added-EndsWith {id = id} (replace p rest f c t w) = inl (refl, (rest, _, refl, id_eq_self id, refl))
Added-EndsWith (refuse f c n a) = inr (refl, refl, f)

-- On a well-formed table, under the laws of the DHT functions, add_peer returns true with the peer at the end of its bucket, heard of at `ts`, or it returns false,
-- leaves the table as it was, and the peer is not in its bucket. A bucket `j` that is not its own does not change.
pub add_peer_result :
    (fns : DhtFunctions) (s : BdSpace) (id : BdId) (flags ts j : ℕ)
    → DhtLaws fns
    → IsTable fns s
    → ((((add_peer fns s id flags ts).1 ≡ true)
          × EndsWith id ts
              (get_or (add_peer fns s id flags ts).0.buckets (bucket_of fns s id.id) []))
        ⊎ ((add_peer fns s id flags ts ≡ (s, false))
            × Fresh id (get_or s.buckets (bucket_of fns s id.id) [])))
      × ((bucket_of fns s id.id ≡ j)
          ⊎ (get_or (add_peer fns s id flags ts).0.buckets j [] ≡ get_or s.buckets j []))
unfolding add_peer
add_peer_result fns s id flags ts j laws v = (
  outcome (Added-EndsWith (add_to_bucket-Added fns.nodes_per_bucket id flags ts before)),
  elim (Bool-cases (i == j)) [
    | inl e ↦ inl (ground (arith, e))
    | inr e ↦ inr (get_or-set_other s.buckets i j after.0 [] (λ h. absurd (ground (arith, e, h))))
  ],
)
  where
    i : ℕ
    i = bucket_of fns s id.id

    before : Bucket
    before = get_or s.buckets i []

    after : Bucket × Bool
    after = add_to_bucket fns.nodes_per_bucket id flags ts before

    there_is : i < length s.buckets
    there_is = omega (arith, v.count, laws.bucket_in_range (fns.distance s.own_id id.id))

    outcome :
        ((after.1 ≡ true) × EndsWith id ts after.0)
          ⊎ ((after.1 ≡ false) × (after.0 ≡ before) × Fresh id before)
        → ((after.1 ≡ true) × EndsWith id ts (get_or (set s.buckets i after.0) i []))
          ⊎ ((◌≡◌ {A = BdSpace × Bool}
                (record s { buckets = set s.buckets i after.0 }, after.1)
                (s, false))
              × Fresh id before)
    outcome (inl (e, w)) = inl (e, rw (get_or-set_self s.buckets i after.0 [] there_is) w)
    outcome (inr (e, u, f)) = inr (ground (arith, set-get_or_self s.buckets i []), f)

abbrev Settled : ℕ → ℕ → Bucket → Type 0
Settled flags ts b = All (λ p. (p.last_recv_time ≤ ts) × (flags ≤ p.peer_flags)) b

not-FromFuture : (flags ts : ℕ) (b : Bucket) → Settled flags ts b → ¬ FromFuture ts b
not-FromFuture flags ts [] a f = f
not-FromFuture flags ts (p ∷ b) a f = omega arith

Added-Settled :
    {capacity : ℕ} {id : BdId} {flags ts : ℕ} {b : Bucket} {r : Bucket × Bool}
    → Added capacity id flags ts b r
    → Fresh id b
    → capacity ≤ length b
    → Settled flags ts b
    → r ≡ (b, false)
Added-Settled (refresh p rest e t) f c a = let (no_peer, _) = Taken-All _ t f in cc
Added-Settled (append g l) f c a = absurd (omega arith)
Added-Settled {flags = flags} {ts} {b} (replace p rest g d t (inl w)) f c a =
    absurd (not-FromFuture flags ts b a (subst (FromFuture ts) (sym w.0) w.1))
Added-Settled (replace p rest g d t (inr (l, w))) f c a =
    let (kept, _) = Taken-All _ t a in absurd (omega arith)
Added-Settled (refuse g d n w) f c a = refl

-- However long its peers have been silent, a full bucket whose peers were heard of by `ts` takes no new
-- peer of a score that none of them is below: the test for out-of-date peers never passes.
pub add_peer_keeps_silent_peers :
    (fns : DhtFunctions) (s : BdSpace) (id : BdId) (flags ts : ℕ)
    → Fresh id (get_or s.buckets (bucket_of fns s id.id) [])
    → fns.nodes_per_bucket ≤ length (get_or s.buckets (bucket_of fns s id.id) [])
    → Settled flags ts (get_or s.buckets (bucket_of fns s id.id) [])
    → add_peer fns s id flags ts ≡ (s, false)
unfolding add_peer
add_peer_keeps_silent_peers fns s id flags ts f c a =
    let b : Bucket = get_or s.buckets (bucket_of fns s id.id) [] in
    let e : add_to_bucket fns.nodes_per_bucket id flags ts b ≡ (b, false) =
      Added-Settled (add_to_bucket-Added fns.nodes_per_bucket id flags ts b) f c a in
    rw e (ground (arith, set-get_or_self s.buckets (bucket_of fns s id.id) []))

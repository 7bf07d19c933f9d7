-- ===== src/Space/Stale.antt =====
-- out_of_date_peer of bitdht/bdpeer.cc: one overdue peer a call, until there is none.
use bitdht.Base.{
  ℕ, suc, ◌+◌, ◌≡◌, refl, ap, ◌∙◌, Bool, true, false, ◌⊎◌, inl, inr, Option, none, some, List, [],
  ◌∷◌, ◌++◌, map, keep_if, length, Bool-cases, count_if, All, arith, ltb,
}
use bitdht.Peer.{BdId, BdPeer, id_eq}
use bitdht.Space.{
  Bucket, BdSpace, keep_peer, or_later, with_buckets, stale_in_bucket, stale_in_buckets,
  out_of_date_peer, max_send_period,
}
use bitdht.Space.Outcomes.{Distinct}
use bitdht.Space.Table.{AllFrom, IsBucket, IsTable}
use bitdht.DhtFunctions.{DhtFunctions}

abbrev pub is_overdue : ℕ → BdPeer → Bool
is_overdue ts p = ltb (p.last_send_time + max_send_period) ts

-- How many peers were last sent to more than the period before `ts`.
abbrev pub overdue : ℕ → List Bucket → ℕ
overdue ts [] = 0
overdue ts (b ∷ bs) = count_if (is_overdue ts) b + overdue ts bs

-- Their ids, in the order of the table.
abbrev pub ids_in_bucket : ℕ → Bucket → List BdId
ids_in_bucket ts b = map (λ p. p.peer_id) (keep_if (is_overdue ts) b)

abbrev pub overdue_ids : ℕ → List Bucket → List BdId
overdue_ids ts [] = []
overdue_ids ts (b ∷ bs) = ids_in_bucket ts b ++ overdue_ids ts bs

-- The second bucket is the first one with its first overdue peer, `id`, marked as sent to at `ts`.
data Marked (ts : ℕ) (id : BdId) : Bucket → Bucket → Type 0 where
  mark :
      (p : BdPeer) (ps : Bucket)
      → is_overdue ts p ≡ true
      → p.peer_id ≡ id
      → Marked ts id (p ∷ ps) (record p { last_send_time = ts } ∷ ps)
  skip :
      (p : BdPeer) {ps qs : Bucket}
      → is_overdue ts p ≡ false
      → Marked ts id ps qs
      → Marked ts id (p ∷ ps) (p ∷ qs)

data MarkedIn (ts : ℕ) (id : BdId) : List Bucket → List Bucket → Type 0 where
  this : {b c : Bucket} (bs : List Bucket) → Marked ts id b c → MarkedIn ts id (b ∷ bs) (c ∷ bs)
  later :
      (b : Bucket) {bs cs : List Bucket}
      → count_if (is_overdue ts) b ≡ 0
      → MarkedIn ts id bs cs
      → MarkedIn ts id (b ∷ bs) (b ∷ cs)

abbrev StaleSpec : ℕ → Bucket → Option (BdId × Bucket) → Type 0
StaleSpec ts b none = count_if (is_overdue ts) b ≡ 0
StaleSpec ts b (some (id, c)) = Marked ts id b c

keep_peer-StaleSpec :
    (ts : ℕ) (p : BdPeer) (b : Bucket) (r : Option (BdId × Bucket))
    → is_overdue ts p ≡ false
    → StaleSpec ts b r
    → StaleSpec ts (p ∷ b) (keep_peer p r)
keep_peer-StaleSpec ts p b none e s = rw e s
keep_peer-StaleSpec ts p b (some (id, rest)) e s = skip p e s

stale_in_bucket-StaleSpec : (ts : ℕ) (b : Bucket) → StaleSpec ts b (stale_in_bucket ts b)
unfolding stale_in_bucket
stale_in_bucket-StaleSpec ts [] = refl
stale_in_bucket-StaleSpec ts (p ∷ ps) = elim (Bool-cases (is_overdue ts p)) [
  | inl e ↦ rw e (mark p ps e refl)
  | inr e ↦
      rw e (keep_peer-StaleSpec ts p ps (stale_in_bucket ts ps) e (stale_in_bucket-StaleSpec ts ps))
]

abbrev StaleInSpec : ℕ → List Bucket → Option (BdId × List Bucket) → Type 0
StaleInSpec ts bs none = overdue ts bs ≡ 0
StaleInSpec ts bs (some (id, cs)) = MarkedIn ts id bs cs

or_later-StaleInSpec :
    (ts : ℕ) (b : Bucket) (bs : List Bucket) (r : Option (BdId × Bucket))
    → (q : Option (BdId × List Bucket)) → StaleSpec ts b r
    → StaleInSpec ts bs q
    → StaleInSpec ts (b ∷ bs) (or_later b bs r q)
or_later-StaleInSpec ts b bs none none s t = omega arith
or_later-StaleInSpec ts b bs none (some (id, cs)) s t = later b s t
or_later-StaleInSpec ts b bs (some (id, c)) q s t = this bs s

stale_in_buckets-StaleInSpec :
    (ts : ℕ) (bs : List Bucket) → StaleInSpec ts bs (stale_in_buckets ts bs)
unfolding stale_in_buckets
stale_in_buckets-StaleInSpec ts [] = refl
stale_in_buckets-StaleInSpec ts (b ∷ bs) =
    or_later-StaleInSpec ts b bs (stale_in_bucket ts b) (stale_in_buckets ts bs)
      (stale_in_bucket-StaleSpec ts b) (stale_in_buckets-StaleInSpec ts bs)

-- Marking takes one peer off the overdue ones, and leaves the ids as they are.
Marked-count :
    {ts : ℕ} {id : BdId} {b c : Bucket}
    → Marked ts id b c
    → count_if (is_overdue ts) b ≡ suc (count_if (is_overdue ts) c)
Marked-count (mark p ps e h) = ground arith
Marked-count (skip p e m) = ground (arith, Marked-count m)

MarkedIn-overdue :
    {ts : ℕ} {id : BdId} {bs cs : List Bucket}
    → MarkedIn ts id bs cs
    → overdue ts bs ≡ suc (overdue ts cs)
MarkedIn-overdue (this bs m) = omega (arith, Marked-count m)
MarkedIn-overdue (later b e m) = omega (arith, MarkedIn-overdue m)

sent_to_now : (ts : ℕ) → ltb (ts + max_send_period) ts ≡ false
sent_to_now ts = ground arith

Marked-ids :
    {ts : ℕ} {id : BdId} {b c : Bucket}
    → Marked ts id b c
    → ids_in_bucket ts b ≡ id ∷ ids_in_bucket ts c
Marked-ids {ts = ts} (mark p ps e h) = rw (e, sent_to_now ts) (ap (λ i. i ∷ ids_in_bucket ts ps) h)
Marked-ids (skip p e m) = rw e (Marked-ids m)

no_ids : (ts : ℕ) (b : Bucket) → count_if (is_overdue ts) b ≡ 0 → ids_in_bucket ts b ≡ []
no_ids ts [] h = refl
no_ids ts (p ∷ b) h = elim (Bool-cases (is_overdue ts p)) [
  | inl e ↦ absurd (ground arith)
  | inr e ↦ rw e (no_ids ts b (ground arith))
]

MarkedIn-ids :
    {ts : ℕ} {id : BdId} {bs cs : List Bucket}
    → MarkedIn ts id bs cs
    → overdue_ids ts bs ≡ id ∷ overdue_ids ts cs
MarkedIn-ids {ts = ts} (this bs m) = ap (λ l. l ++ overdue_ids ts bs) (Marked-ids m)
MarkedIn-ids {ts = ts} (later b e m) = rw (no_ids ts b e) (MarkedIn-ids m)

pub none_overdue : (ts : ℕ) (bs : List Bucket) → overdue ts bs ≡ 0 → overdue_ids ts bs ≡ []
none_overdue ts [] h = refl
none_overdue ts (b ∷ bs) h = rw (no_ids ts b (omega arith), none_overdue ts bs (omega arith)) refl

-- A predicate on ids holds for both or neither.
Marked-All :
    {ts : ℕ} {id : BdId} {b c : Bucket} (P : BdId → Type 0)
    → Marked ts id b c
    → All (λ p. P p.peer_id) b
    → All (λ p. P p.peer_id) c
Marked-All P (mark p ps e h) a = a
Marked-All P (skip p e m) a = (a.0, Marked-All P m a.1)

Marked-length : {ts : ℕ} {id : BdId} {b c : Bucket} → Marked ts id b c → length c ≡ length b
Marked-length (mark p ps e h) = refl
Marked-length (skip p e m) = ap suc (Marked-length m)

Marked-Distinct : {ts : ℕ} {id : BdId} {b c : Bucket} → Marked ts id b c → Distinct b → Distinct c
Marked-Distinct (mark p ps e h) d = d
Marked-Distinct (skip p e m) d =
    (Marked-All (λ id. id_eq p.peer_id id ≡ false) m d.0, Marked-Distinct m d.1)

-- A call finds a peer exactly when one is overdue, and then it is the first of them and there is one fewer; otherwise the table is
-- as it was.
pub out_of_date_peer_progress :
    (s : BdSpace) (ts : ℕ)
    → ((out_of_date_peer s ts ≡ (s, none)) × (overdue ts s.buckets ≡ 0))
      ⊎ ((id : BdId) × (bs : List Bucket) × (out_of_date_peer s ts
            ≡ (record s { buckets = bs }, some id))
          × (overdue ts s.buckets ≡ suc (overdue ts bs))
          × (overdue_ids ts s.buckets ≡ id ∷ overdue_ids ts bs))
unfolding out_of_date_peer
out_of_date_peer_progress s ts =
    progress (stale_in_buckets ts s.buckets) (stale_in_buckets-StaleInSpec ts s.buckets)
  where
    progress :
        (r : Option (BdId × List Bucket))
        → StaleInSpec ts s.buckets r
        → ((with_buckets s r ≡ (s, none)) × (overdue ts s.buckets ≡ 0))
          ⊎ ((id : BdId) × (bs : List Bucket) × (with_buckets s r
                ≡ (record s { buckets = bs }, some id))
              × (overdue ts s.buckets ≡ suc (overdue ts bs))
              × (overdue_ids ts s.buckets ≡ id ∷ overdue_ids ts bs))
    progress none h = inl (refl, h)
    progress (some (id, bs)) h = inr (id, bs, refl, MarkedIn-overdue h, MarkedIn-ids h)

module _ (fns : DhtFunctions) where
  Marked-IsBucket :
      (own_id : List ℕ) (i : ℕ) {ts : ℕ} {id : BdId} {b c : Bucket}
      → Marked ts id b c
      → IsBucket fns own_id i b
      → IsBucket fns own_id i c
  Marked-IsBucket own_id i m v = record {
    bounded = rw (Marked-length m) v.bounded;
    distinct = Marked-Distinct m v.distinct;
    at_home = Marked-All (λ id. fns.bucket_distance (fns.distance own_id id.id) ≡ i) m v.at_home;
  }

  MarkedIn-AllFrom :
      (own_id : List ℕ) {ts : ℕ} {id : BdId} (i : ℕ) {bs cs : List Bucket}
      → MarkedIn ts id bs cs
      → AllFrom (IsBucket fns own_id) i bs
      → AllFrom (IsBucket fns own_id) i cs
  MarkedIn-AllFrom own_id i (this bs m) h = (Marked-IsBucket own_id i m h.0, h.1)
  MarkedIn-AllFrom own_id i (later b e m) h = (h.0, MarkedIn-AllFrom own_id (suc i) m h.1)

  MarkedIn-length :
      {ts : ℕ} {id : BdId} {bs cs : List Bucket} → MarkedIn ts id bs cs → length cs ≡ length bs
  MarkedIn-length (this bs m) = refl
  MarkedIn-length (later b e m) = ap suc (MarkedIn-length m)

  pub out_of_date_peer-IsTable :
      (s : BdSpace) (ts : ℕ) → IsTable fns s → IsTable fns (out_of_date_peer s ts).0
  unfolding out_of_date_peer
  out_of_date_peer-IsTable s ts v =
      kept (stale_in_buckets ts s.buckets) (stale_in_buckets-StaleInSpec ts s.buckets)
    where
      kept :
          (r : Option (BdId × List Bucket))
          → StaleInSpec ts s.buckets r
          → IsTable fns (with_buckets s r).0
      kept none h = v
      kept (some (id, bs)) h = record {
        count = MarkedIn-length h ∙ v.count;
        good = MarkedIn-AllFrom s.own_id 0 h v.good;
      }

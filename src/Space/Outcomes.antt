-- ===== src/Space/Outcomes.antt =====
-- add_peer of bitdht/bdpeer.cc on one bucket, against a relation that lists its outcomes.
use bitdht.Base.{
  ℕ, suc, ◌+◌, ◌≤◌, ◌<◌, ◌≡◌, refl, sym, ◌∙◌, ◌≢◌, ◌⊎◌, inl, inr, Bool, true, false, Option, none,
  some, [], ◌∷◌, ◌++◌, ltb, ◌==◌, if◌then◌else◌, Bool-cases, length, All, All-append, All-map,
  arith,
}
use mathlib.Core.Option
use bitdht.Peer.{BdNodeId, BdId, BdPeer, node_id_eq, id_eq}
use bitdht.Space.{
  Bucket, ScanResult, found, missing, behind, scan_bucket, drop_score, make_room, new_peer,
  refreshed, replace_with, place, add_to_bucket, max_recv_period,
}

node_id_eq_comm : (xs ys : BdNodeId) → node_id_eq xs ys ≡ node_id_eq ys xs
unfolding node_id_eq
node_id_eq_comm [] [] = refl
node_id_eq_comm [] (y ∷ ys) = refl
node_id_eq_comm (x ∷ xs) [] = refl
node_id_eq_comm (x ∷ xs) (y ∷ ys) = ground (arith, node_id_eq_comm xs ys)

pub id_eq_comm : (a b : BdId) → id_eq a b ≡ id_eq b a
unfolding id_eq
id_eq_comm a b = ground (arith, node_id_eq_comm a.id b.id)

-- No peer of the bucket has the id.
abbrev pub Fresh : BdId → Bucket → Type 0
Fresh id b = All (λ p. id_eq id p.peer_id ≡ false) b

abbrev pub Distinct : Bucket → Type 0
Distinct [] = Unit {0}
Distinct (p ∷ ps) = Fresh p.peer_id ps × Distinct ps

-- The second bucket is the first one less a peer `p`, the order kept.
pub data Taken (p : BdPeer) : Bucket → Bucket → Type 0 where
  here : {ps : Bucket} → Taken p (p ∷ ps) ps
  there : {q : BdPeer} {ps qs : Bucket} → Taken p ps qs → Taken p (q ∷ ps) (q ∷ qs)

pub Taken-length : {p : BdPeer} {b c : Bucket} → Taken p b c → length b ≡ suc (length c)
Taken-length here = refl
Taken-length (there t) = omega (arith, Taken-length t)

pub Taken-All {κ} :
    (P : BdPeer → Type κ) {p : BdPeer} {b c : Bucket} → Taken p b c → All P b → P p × All P c
Taken-All P here h = h
Taken-All P (there t) h = ((Taken-All P t h.1).0, (h.0, (Taken-All P t h.1).1))

-- What is left stays distinct, and differs from what was taken.
pub Taken-Distinct :
    {p : BdPeer} {b c : Bucket} → Taken p b c → Distinct b → Fresh p.peer_id c × Distinct c
Taken-Distinct here d = d
Taken-Distinct {p} (there {q = q} t) (f, d) =
    let (fq, fc) = Taken-All (λ r. id_eq q.peer_id r.peer_id ≡ false) t f in
    let (fp, dc) = Taken-Distinct t d in ((id_eq_comm p.peer_id q.peer_id ∙ fq, fp), (fc, dc))

pub Distinct-append :
    (b : Bucket) (p : BdPeer) → Fresh p.peer_id b → Distinct b → Distinct (b ++ p ∷ [])
Distinct-append [] p f d = (tt, tt)
Distinct-append (q ∷ b) p f d = (
  All-append _ b (p ∷ []) d.0 (id_eq_comm q.peer_id p.peer_id ∙ f.0, tt),
  Distinct-append b p f.1 d.1,
)

-- The scan finds the peer, or shows that there is none and gives a least score.
abbrev ScanSpec : BdId → ℕ → Bucket → ScanResult → Type 0
ScanSpec id m b (found p rest) = (id_eq id p.peer_id ≡ true) × Taken p b rest
ScanSpec id m b (missing k) =
    Fresh id b
    × (k ≤ m)
    × All (λ p. k ≤ p.peer_flags) b
    × ((k ≡ m) ⊎ ¬ All (λ p. p.peer_flags ≢ k) b)

behind-ScanSpec :
    (id : BdId) (m k : ℕ) (p : BdPeer) (b : Bucket) (r : ScanResult)
    → id_eq id p.peer_id ≡ false
    → k ≤ m
    → k ≤ p.peer_flags
    → (k ≡ m) ⊎ (k ≡ p.peer_flags)
    → ScanSpec id k b r
    → ScanSpec id m (p ∷ b) (behind p r)
behind-ScanSpec id m k p b (found q rest) e h g c s = (s.0, there s.1)
behind-ScanSpec id m k p b (missing j) e h g c (f, l, a, inl i) =
    ((e, f), omega arith, (omega arith, a), seen c)
  where
    seen : (k ≡ m) ⊎ (k ≡ p.peer_flags) → (j ≡ m) ⊎ ¬ All (λ q. q.peer_flags ≢ j) (p ∷ b)
    seen (inl d) = inl (i ∙ d)
    seen (inr d) = inr (λ n. n.0 (sym (i ∙ d)))
behind-ScanSpec id m k p b (missing j) e h g c (f, l, a, inr n) =
    ((e, f), omega arith, (omega arith, a), inr (λ n'. n n'.1))

scan_bucket-ScanSpec : (id : BdId) (m : ℕ) (b : Bucket) → ScanSpec id m b (scan_bucket id m b)
unfolding scan_bucket
scan_bucket-ScanSpec id m [] = (tt, omega arith, tt, inl refl)
scan_bucket-ScanSpec id m (p ∷ ps) =
    let k : ℕ = if ltb p.peer_flags m then p.peer_flags else m in
    elim (Bool-cases (id_eq id p.peer_id)) [
      | inl e ↦ rw e (e, here)
      | inr e ↦ rw e (
          behind-ScanSpec id m k p ps (scan_bucket id k ps) e (ground arith) (ground arith)
            (ground arith) (scan_bucket-ScanSpec id k ps))
    ]

abbrev DropSpec : ℕ → Bucket → Option Bucket → Type 0
DropSpec k b none = All (λ p. p.peer_flags ≢ k) b
DropSpec k b (some rest) = (p : BdPeer) × Taken p b rest × (p.peer_flags ≡ k)

there-DropSpec :
    (k : ℕ) (p : BdPeer) (b : Bucket) (r : Option Bucket)
    → p.peer_flags ≢ k
    → DropSpec k b r
    → DropSpec k (p ∷ b) (Option.map (◌∷◌ p) r)
there-DropSpec k p b none n s = (n, s)
there-DropSpec k p b (some rest) n s = (s.0, there s.1, s.2)

drop_score-DropSpec : (k : ℕ) (b : Bucket) → DropSpec k b (drop_score k b)
unfolding drop_score
drop_score-DropSpec k [] = tt
drop_score-DropSpec k (p ∷ ps) = elim (Bool-cases (p.peer_flags == k)) [
  | inl e ↦ rw e (p, here, ground arith)
  | inr e ↦ rw e (there-DropSpec k p ps (drop_score k ps) (ground arith) (drop_score-DropSpec k ps))
]

-- The head of the bucket claims to have been heard of that long after `ts`.
abbrev pub FromFuture : ℕ → Bucket → Type 0
FromFuture ts [] = ⊥
FromFuture ts (p ∷ ps) = ts + max_recv_period < p.last_recv_time

-- The head `p` is such a peer, and `rest` is the bucket behind it.
abbrev pub HeadFromFuture : ℕ → BdPeer → Bucket → Bucket → Type 0
HeadFromFuture ts p rest b = (b ≡ p ∷ rest) × (ts + max_recv_period < p.last_recv_time)

-- The outcomes of add_peer on a bucket.
pub data Added (capacity : ℕ) (id : BdId) (flags ts : ℕ) (b : Bucket) : Bucket × Bool → Type 0 where
  refresh :
      (p : BdPeer) (rest : Bucket)
      → id_eq id p.peer_id ≡ true
      → Taken p b rest
      → Added capacity id flags ts b (rest ++ refreshed p flags ts ∷ [], true)
  append :
      Fresh id b
      → length b < capacity
      → Added capacity id flags ts b (b ++ new_peer id flags ts ∷ [], true)
  replace :
      (p : BdPeer) (rest : Bucket)
      → Fresh id b
      → capacity ≤ length b
      → Taken p b rest
      → HeadFromFuture ts p rest b
        ⊎ ((p.peer_flags < flags) × All (λ q. p.peer_flags ≤ q.peer_flags) b)
      → Added capacity id flags ts b (rest ++ new_peer id flags ts ∷ [], true)
  refuse :
      Fresh id b
      → capacity ≤ length b
      → ¬ FromFuture ts b
      → All (λ q. flags ≤ q.peer_flags) b
      → Added capacity id flags ts b (b, false)

abbrev RoomSpec : ℕ → ℕ → Bucket → Option Bucket → Type 0
RoomSpec flags ts b none = (¬ FromFuture ts b) × All (λ q. flags ≤ q.peer_flags) b
RoomSpec flags ts b (some rest) =
    (p : BdPeer) × Taken p b rest
    × (HeadFromFuture ts p rest b
        ⊎ ((p.peer_flags < flags) × All (λ q. p.peer_flags ≤ q.peer_flags) b))

-- A dropped peer of the least score, once that score is below the new one.
drop-RoomSpec :
    (flags m ts : ℕ) (b : Bucket) (r : Option Bucket)
    → m < flags
    → All (λ p. m ≤ p.peer_flags) b
    → ¬ All (λ p. p.peer_flags ≢ m) b
    → DropSpec m b r
    → RoomSpec flags ts b r
drop-RoomSpec flags m ts b none h a n d = absurd (n d)
drop-RoomSpec flags m ts b (some rest) h a n (p, t, e) =
    (p, t, inr (omega arith, All-map _ _ (λ q g. omega arith) b a))

make_room-RoomSpec :
    (flags m ts : ℕ) (b : Bucket)
    → m ≤ flags
    → All (λ p. m ≤ p.peer_flags) b
    → (m ≡ flags) ⊎ ¬ All (λ p. p.peer_flags ≢ m) b
    → RoomSpec flags ts b (make_room flags m ts b)
unfolding make_room
make_room-RoomSpec flags m ts [] h a s = ((λ f. f), tt)
make_room-RoomSpec flags m ts (p ∷ ps) h a s =
    elim (Bool-cases (ltb (ts + max_recv_period) p.last_recv_time)) [
      | inl e ↦ rw e (p, here, inl (refl, ground arith))
      | inr e ↦ rw e (elim (Bool-cases (ltb m flags)) [
        | inl l ↦ rw l (
            drop-RoomSpec flags m ts (p ∷ ps) _ (ground arith) a
              (elim s [ inl d ↦ absurd (ground arith) | inr n ↦ n ])
              (drop_score-DropSpec m (p ∷ ps)))
        | inr l ↦ rw l ((λ f. ground arith), All-map _ _ (λ q g. ground arith) (p ∷ ps) a)
      ])
    ]

replace_with-Added :
    (capacity : ℕ) (id : BdId) (flags ts : ℕ) (b : Bucket) (r : Option Bucket)
    → Fresh id b
    → capacity ≤ length b
    → RoomSpec flags ts b r
    → Added capacity id flags ts b (replace_with (new_peer id flags ts) b r)
replace_with-Added capacity id flags ts b none f c s = refuse f c s.0 s.1
replace_with-Added capacity id flags ts b (some rest) f c (p, t, w) = replace p rest f c t w

place-Added :
    (capacity : ℕ) (id : BdId) (flags ts : ℕ) (b : Bucket) (r : ScanResult)
    → ScanSpec id flags b r
    → Added capacity id flags ts b (place capacity id flags ts b r)
unfolding place
place-Added capacity id flags ts b (found p rest) s = refresh p rest s.0 s.1
place-Added capacity id flags ts b (missing k) (f, l, a, n) =
    elim (Bool-cases (ltb (length b) capacity)) [
      | inl e ↦ rw e (append f (ground arith))
      | inr e ↦ rw e (
          replace_with-Added capacity id flags ts b (make_room flags k ts b) f (ground arith)
            (make_room-RoomSpec flags k ts b l a n))
    ]

-- add_peer does one of four things to the bucket: it moves a known peer to the back with its flags
-- joined and its time renewed; it appends a new one below the capacity; at the capacity it drops a peer
-- of the least score, below the new score, or a head heard of in the future; or it changes nothing and
-- returns false, at the capacity with no lower score and no such head.
pub add_to_bucket-Added :
    (capacity : ℕ) (id : BdId) (flags ts : ℕ) (b : Bucket)
    → Added capacity id flags ts b (add_to_bucket capacity id flags ts b)
unfolding add_to_bucket
add_to_bucket-Added capacity id flags ts b =
    place-Added capacity id flags ts b _ (scan_bucket-ScanSpec id flags b)

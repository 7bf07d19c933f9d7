-- ===== src/Query/Closest.antt =====
-- addPeer of bitdht/bdquery.cc: which peers stay among the closest.
use bitdht.Base.{
  ℕ, zero, suc, ◌-◌, ◌≤◌, ◌<◌, ◌≡◌, refl, ap, ◌∙◌, ◌⊎◌, inl, inr, Bool, true, false, not, ◌&&◌, any,
  Option, none, some, [], ◌∷◌, ◌++◌, leb, Bool-cases, length, count_if, keep_if, take, All, arith,
}
use mathlib.Core.Option
use bitdht.Peer.{BdMetric, BdId, BdPeer, node_id_lt, id_eq}
use bitdht.Peer.Order.{node_id_lt-IsStrict, node_id_lt_self, id_eq_self}
use bitdht.DhtFunctions.{DhtFunctions}
use bitdht.Multimap
use bitdht.Query.{Entries, BdQuery, has_flag, peer_status_recv_nodes}
use bitdht.Query.Adding.{is_silent, touch, drop_silent, drop_rounds, admit, or_admit, add_peer}
use bitdht.Query.Entries.{trim-take, Kept, Touched, touch-Touched}

abbrev pub is_live : ℕ → BdMetric × BdPeer → Bool
is_live ts e = not (is_silent ts e.1)

abbrev silent_in : ℕ → Entries → ℕ
silent_in ts m = count_if (λ e. is_silent ts e.1) m

abbrev before : BdMetric → Entries → Entries
before = Multimap.before_lower node_id_lt

abbrev from : BdMetric → Entries → Entries
from = Multimap.from_lower node_id_lt

-- An entry before those that a round erases from stays, unless it is erased itself.
drop_rounds-live :
    (n ts : ℕ) (d : BdMetric) (p : BdPeer) (m : Entries)
    → is_silent ts p ≡ false
    → drop_rounds n ts ((d, p) ∷ m) ≡ (d, p) ∷ drop_rounds n ts m
unfolding drop_rounds drop_silent
drop_rounds-live zero ts d p m e = refl
drop_rounds-live (suc n) ts d p m e = rw e (drop_rounds-live n ts d p (drop_silent ts m) e)

drop_rounds-silent :
    (n ts : ℕ) (d : BdMetric) (p : BdPeer) (m : Entries)
    → is_silent ts p ≡ true
    → drop_rounds (suc n) ts ((d, p) ∷ m) ≡ drop_rounds n ts m
unfolding drop_rounds drop_silent
drop_rounds-silent n ts d p m e = rw e

-- As many rounds as there are silent peers before the bound erase just those.
drop_rounds-before :
    (dist : BdMetric) (ts : ℕ) (m : Entries)
    → drop_rounds (silent_in ts (before dist m)) ts m
      ≡ keep_if (is_live ts) (before dist m) ++ from dist m
drop_rounds-before dist ts [] = unfold drop_rounds in refl
drop_rounds-before dist ts ((d, p) ∷ m) = elim (Bool-cases (node_id_lt d dist)) [
  | inr e ↦ rw e (unfold drop_rounds in refl)
  | inl e ↦ rw e (elim (Bool-cases (is_silent ts p)) [
    | inl s ↦ rw s (drop_rounds-silent _ ts d p m s ∙ drop_rounds-before dist ts m)
    | inr s ↦ rw s (drop_rounds-live _ ts d p m s ∙ ap (◌∷◌ (d, p)) (drop_rounds-before dist ts m))
  ])
]

take-append : (n : ℕ) (l m : Entries) → length l ≤ n → take n (l ++ m) ≡ l ++ take (n - length l) m
take-append n [] m h = ap (λ k. take k m) (omega arith)
take-append zero (e ∷ l) m h = absurd (omega arith)
take-append (suc n) (e ∷ l) m h =
    ap (◌∷◌ e) (take-append n l m (omega arith) ∙ ap (λ k. l ++ take k m) (omega arith))

-- Nothing from the bound on is below it, at the head.
abbrev HeadFrom : BdMetric → Entries → Type 0
HeadFrom dist [] = Unit {0}
HeadFrom dist (e ∷ m) = node_id_lt e.0 dist ≡ false

from-HeadFrom : (dist : BdMetric) (m : Entries) → HeadFrom dist (from dist m)
from-HeadFrom dist [] = tt
from-HeadFrom dist ((d, p) ∷ m) = elim (Bool-cases (node_id_lt d dist)) [
  | inl e ↦ rw e (from-HeadFrom dist m)
  | inr e ↦ rw e e
]

take-HeadFrom : (dist : BdMetric) (n : ℕ) (m : Entries) → HeadFrom dist m → HeadFrom dist (take n m)
take-HeadFrom dist zero m h = tt
take-HeadFrom dist (suc n) [] h = tt
take-HeadFrom dist (suc n) (e ∷ m) h = h

before-insert :
    (dist : BdMetric) (p : BdPeer) (m : Entries)
    → HeadFrom dist m
    → before dist (Multimap.insert node_id_lt dist p m) ≡ []
before-insert dist p [] h = rw (node_id_lt_self dist)
before-insert dist p ((d, q) ∷ m) h = elim (Bool-cases (node_id_lt dist d)) [
  | inl e ↦ rw (e, node_id_lt_self dist)
  | inr e ↦ rw (e, h)
]

not-above : (dist d : BdMetric) → node_id_lt d dist ≡ true → node_id_lt dist d ≡ false
not-above dist d e = ground (arith, node_id_lt-IsStrict.trans d dist d, node_id_lt_self d)

before-insert-append :
    (dist : BdMetric) (p : BdPeer) (l m : Entries)
    → All (λ e. node_id_lt e.0 dist ≡ true) l
    → HeadFrom dist m
    → before dist (Multimap.insert node_id_lt dist p (l ++ m)) ≡ l
before-insert-append dist p [] m a h = before-insert dist p m h
before-insert-append dist p ((d, q) ∷ l) m a h =
    rw (not-above dist d a.0) (rw a.0 (ap (◌∷◌ (d, q)) (before-insert-append dist p l m a.1 h)))

before-below :
    (ts : ℕ) (dist : BdMetric) (m : Entries)
    → All (λ e. node_id_lt e.0 dist ≡ true) (keep_if (is_live ts) (before dist m))
before-below ts dist [] = tt
before-below ts dist ((d, p) ∷ m) = elim (Bool-cases (node_id_lt d dist)) [
  | inr e ↦ rw e tt
  | inl e ↦ rw e (elim (Bool-cases (is_silent ts p)) [
    | inl s ↦ rw s (before-below ts dist m)
    | inr s ↦ rw s (e, before-below ts dist m)
  ])
]

count_if-length : (ts : ℕ) (m : Entries) → count_if (is_live ts) m ≡ length (keep_if (is_live ts) m)
count_if-length ts [] = refl
count_if-length ts (e ∷ m) = ground (arith, count_if-length ts m)

-- How many entries have the id.
abbrev pub holding : BdId → Entries → ℕ
holding id m = count_if (λ e. id_eq e.1.peer_id id) m

holding-insert :
    (dist : BdMetric) (p : BdPeer) (id : BdId) (m : Entries)
    → id_eq p.peer_id id ≡ true
    → 0 < holding id (Multimap.insert node_id_lt dist p m)
holding-insert dist p id [] h = rw h (omega arith)
holding-insert dist p id ((d, q) ∷ m) h = elim (Bool-cases (node_id_lt dist d)) [
  | inl e ↦ rw (e, h) (omega arith)
  | inr e ↦ rw e (ground (arith, holding-insert dist p id m h))
]

abbrev Holding : BdId → Option Entries → Type 0
Holding id none = Unit {0}
Holding id (some m) = 0 < holding id m

Holding-behind :
    (id : BdId) (e : BdMetric × BdPeer) (r : Option Entries)
    → Holding id r
    → Holding id (Option.map (◌∷◌ e) r)
Holding-behind id e none h = h
Holding-behind id e (some m) h = ground arith

touch-Holding :
    (dist : BdMetric) (id : BdId) (renew : Bool) (ts : ℕ) (m : Entries)
    → Holding id (touch dist id renew ts m)
unfolding touch
touch-Holding dist id renew ts [] = tt
touch-Holding dist id renew ts ((d, p) ∷ m) =
    let rest =
      Holding-behind id (d, p) (touch dist id renew ts m) (touch-Holding dist id renew ts m) in
    elim (Bool-cases (node_id_lt d dist)) [
      | inl e ↦ rw e rest
      | inr e ↦ rw e (elim (Bool-cases (node_id_lt dist d)) [
        | inl f ↦ rw f tt
        | inr f ↦ rw f (elim (Bool-cases (id_eq p.peer_id id)) [
          | inl g ↦ rw g (ground arith)
          | inr g ↦ rw g rest
        ])
      ])
    ]

-- Is the id among the entries of the distance, as the loop of addPeer sees them: from the front, up to the first that is
-- further away, those that are not closer?
abbrev pub known : BdMetric → BdId → Entries → Bool
known dist id m =
    any (λ e. not (node_id_lt e.0 dist) && id_eq e.1.peer_id id)
      (Multimap.before_upper node_id_lt dist m)

abbrev KnownSpec : BdMetric → BdId → Entries → Option Entries → Type 0
KnownSpec dist id m none = known dist id m ≡ false
KnownSpec dist id m (some m') = known dist id m ≡ true

KnownSpec-behind :
    (dist : BdMetric) (id : BdId) (e : BdMetric × BdPeer) (m : Entries) (r : Option Entries)
    → known dist id (e ∷ m) ≡ known dist id m
    → KnownSpec dist id m r
    → KnownSpec dist id (e ∷ m) (Option.map (◌∷◌ e) r)
KnownSpec-behind dist id e m none s h = s ∙ h
KnownSpec-behind dist id e m (some m') s h = s ∙ h

touch-KnownSpec :
    (dist : BdMetric) (id : BdId) (renew : Bool) (ts : ℕ) (m : Entries)
    → KnownSpec dist id m (touch dist id renew ts m)
unfolding touch
touch-KnownSpec dist id renew ts [] = refl
touch-KnownSpec dist id renew ts ((d, p) ∷ m) =
    let ih = touch-KnownSpec dist id renew ts m in
    elim (Bool-cases (node_id_lt d dist)) [
      | inl e ↦
          let skipped : known dist id ((d, p) ∷ m) ≡ known dist id m =
            rw (not-above dist d e, e) refl in
          rw e (KnownSpec-behind dist id (d, p) m (touch dist id renew ts m) skipped ih)
      | inr e ↦ elim (Bool-cases (node_id_lt dist d)) [
        | inl f ↦ rw (e, f) (rw f refl)
        | inr f ↦ elim (Bool-cases (id_eq p.peer_id id)) [
          | inl g ↦ rw (e, f, g) (rw (f, e, g) refl)
          | inr g ↦
              let skipped : known dist id ((d, p) ∷ m) ≡ known dist id m = rw (f, e, g) refl in
              rw (e, f, g) (KnownSpec-behind dist id (d, p) m (touch dist id renew ts m) skipped ih)
        ]
      ]
    ]

module _ (fns : DhtFunctions) where
  admit-before :
      (dist : BdMetric) (id : BdId) (replied : Bool) (ts : ℕ) (m : Entries)
      → count_if (is_live ts) (before dist m) < fns.nodes_per_bucket
      → before dist (admit fns dist id replied ts m) ≡ keep_if (is_live ts) (before dist m)
  unfolding admit
  admit-before dist id replied ts m h =
      let live : Entries = keep_if (is_live ts) (before dist m) in
      let few : length live ≤ fns.nodes_per_bucket - 1 =
        omega (arith, count_if-length ts (before dist m)) in
      rw
        (
          trim-take,
          drop_rounds-before dist ts m,
          take-append (fns.nodes_per_bucket - 1) live (from dist m) few,
        )
        (before-insert-append dist _ live _ (before-below ts dist m)
          (take-HeadFrom dist _ (from dist m) (from-HeadFrom dist m)))

  -- What addPeer does to the closest peers of a query: to those that have the peer, and to those that do not.
  abbrev pub Joins : BdId → ℕ → BdMetric → Entries → Entries → Type 0
  Joins id ts dist m m' =
      (0 < holding id m')
      × (((known dist id m ≡ true) × Kept m m')
          ⊎ ((known dist id m ≡ false) × (before dist m' ≡ keep_if (is_live ts) (before dist m))))

  or_admit-Joins :
      (dist : BdMetric) (id : BdId) (replied : Bool) (ts : ℕ) (m : Entries) (r : Option Entries)
      → count_if (is_live ts) (before dist m) < fns.nodes_per_bucket
      → Touched id m r
      → Holding id r
      → KnownSpec dist id m r
      → Joins id ts dist m (or_admit fns dist id replied ts m r)
  unfolding admit
  or_admit-Joins dist id replied ts m none h t g k =
      (holding-insert dist _ id _ (id_eq_self id), inr (k, admit-before dist id replied ts m h))
  or_admit-Joins dist id replied ts m (some m') h t g k = (g, inl (k, t))

  -- addPeer refuses exactly when a bucket of live peers is closer to the target, and then changes nothing.
  -- Otherwise the peer is among the closest afterwards; where the peer was among them at its distance, the entries keep
  -- their keys and ids and no entry is added, and where it was not, the entries closer than it are the live ones that
  -- were there.
  pub add_peer_closest :
      (q : BdQuery) (id : BdId) (mode ts : ℕ)
      → let dist = fns.distance q.id id.id in
        let closer = count_if (is_live ts) (Multimap.before_lower node_id_lt dist q.closest) in
        ((fns.nodes_per_bucket ≤ closer) × (add_peer fns q id mode ts ≡ (q, false)))
        ⊎ ((closer < fns.nodes_per_bucket)
            × ((add_peer fns q id mode ts).1 ≡ true)
            × Joins id ts dist q.closest (add_peer fns q id mode ts).0.closest)
  unfolding add_peer
  add_peer_closest q id mode ts =
      let dist : BdMetric = fns.distance q.id id.id in
      let closer : ℕ = count_if (is_live ts) (before dist q.closest) in
      let replied : Bool = has_flag mode peer_status_recv_nodes in
      elim (Bool-cases (leb fns.nodes_per_bucket closer)) [
        | inl e ↦ inl (ground arith, rw e)
        | inr e ↦
            let few : closer < fns.nodes_per_bucket = ground arith in
            inr (
              few,
              rw e,
              rw e (
                  or_admit-Joins dist id replied ts q.closest (touch dist id replied ts q.closest)
                    few (touch-Touched dist id replied ts q.closest)
                    (touch-Holding dist id replied ts q.closest)
                    (touch-KnownSpec dist id replied ts q.closest)),
            )
      ]

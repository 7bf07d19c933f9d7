-- ===== src/Query/Entries.antt =====
-- The list operations of bitdht/bdquery.cc keep the order of the entries and their keys.
use bitdht.Base.{
  take_all, take-drop_last, ℕ, zero, suc, ◌≤◌, ◌≡◌, refl, sym, ap, ◌∙◌, subst, inl, inr, Bool,
  false, Option, none, some, [], ◌∷◌, ltb, if◌then◌else◌, Bool-cases, length, drop_last,
  length-drop_last, All, take, arith,
}
use mathlib.Core.Option
use bitdht.Peer.{BdMetric, BdId, BdPeer, node_id_lt, id_eq}
use bitdht.Multimap.Order.{IsSorted}
use bitdht.Query.{Entries}
use bitdht.Query.Adding.{is_silent, touch, drop_silent, drop_rounds, trim_loop, trim}

abbrev pub IsOrdered : Entries → Type 0
IsOrdered = IsSorted node_id_lt

-- The same keys and ids, entry by entry.
pub data Kept : Entries → Entries → Type 0 where
  done : Kept [] []
  next :
      (d : BdMetric) (p p' : BdPeer) {m m' : Entries}
      → p'.peer_id ≡ p.peer_id
      → Kept m m'
      → Kept ((d, p) ∷ m) ((d, p') ∷ m')

pub Kept-refl : (m : Entries) → Kept m m
Kept-refl [] = done
Kept-refl ((d, p) ∷ m) = next d p p refl (Kept-refl m)

pub Kept-length : {m m' : Entries} → Kept m m' → length m' ≡ length m
Kept-length done = refl
Kept-length (next d p p' e k) = ap suc (Kept-length k)

-- A predicate on the key and the id.
pub Kept-All :
    {m m' : Entries} (P : BdMetric → BdId → Type 0)
    → Kept m m'
    → All (λ e. P e.0 e.1.peer_id) m
    → All (λ e. P e.0 e.1.peer_id) m'
Kept-All P done h = h
Kept-All P (next d p p' e k) h = (subst (P d) (sym e) h.0, Kept-All P k h.1)

pub Kept-IsOrdered : {m m' : Entries} → Kept m m' → IsOrdered m → IsOrdered m'
Kept-IsOrdered done s = s
Kept-IsOrdered (next d p p' e k) s =
    (Kept-All (λ c i. node_id_lt c d ≡ false) k s.0, Kept-IsOrdered k s.1)

-- `touch` answers with the entry found and no other change.
abbrev pub Touched : BdId → Entries → Option Entries → Type 0
Touched id m none = Unit {0}
Touched id m (some m') = Kept m m'

touch_behind :
    (id : BdId) (d : BdMetric) (p : BdPeer) (m : Entries) (r : Option Entries)
    → Touched id m r
    → Touched id ((d, p) ∷ m) (Option.map (◌∷◌ (d, p)) r)
touch_behind id d p m none t = t
touch_behind id d p m (some m') t = next d p p refl t

renewed_id :
    (renew : Bool) (ts : ℕ) (p : BdPeer)
    → (if renew then record p { last_recv_time = ts } else p).peer_id ≡ p.peer_id
renewed_id renew ts p = ground arith

pub touch-Touched :
    (dist : BdMetric) (id : BdId) (renew : Bool) (ts : ℕ) (m : Entries)
    → Touched id m (touch dist id renew ts m)
unfolding touch
touch-Touched dist id renew ts [] = tt
touch-Touched dist id renew ts ((d, p) ∷ m) =
    let rest =
      touch_behind id d p m (touch dist id renew ts m) (touch-Touched dist id renew ts m) in
    elim (Bool-cases (node_id_lt d dist)) [
      | inl e ↦ rw e rest
      | inr e ↦ rw e (elim (Bool-cases (node_id_lt dist d)) [
        | inl f ↦ rw f tt
        | inr f ↦ rw f (elim (Bool-cases (id_eq p.peer_id id)) [
          | inl g ↦ rw g (next d p _ (renewed_id renew ts p) (Kept-refl m))
          | inr g ↦ rw g rest
        ])
      ])
    ]

-- A predicate on all entries, and the order, survive the drops and the trim.
pub drop_silent-All {κ} :
    (P : BdMetric × BdPeer → Type κ) (ts : ℕ) (m : Entries) → All P m → All P (drop_silent ts m)
unfolding drop_silent
drop_silent-All P ts [] h = h
drop_silent-All P ts ((d, p) ∷ m) h = elim (Bool-cases (is_silent ts p)) [
  | inl e ↦ rw e h.1
  | inr e ↦ rw e (h.0, drop_silent-All P ts m h.1)
]

drop_silent-IsOrdered : (ts : ℕ) (m : Entries) → IsOrdered m → IsOrdered (drop_silent ts m)
unfolding drop_silent
drop_silent-IsOrdered ts [] s = s
drop_silent-IsOrdered ts ((d, p) ∷ m) s = elim (Bool-cases (is_silent ts p)) [
  | inl e ↦ rw e s.1
  | inr e ↦ rw e (drop_silent-All _ ts m s.0, drop_silent-IsOrdered ts m s.1)
]

pub drop_rounds-IsOrdered : (n ts : ℕ) (m : Entries) → IsOrdered m → IsOrdered (drop_rounds n ts m)
unfolding drop_rounds
drop_rounds-IsOrdered zero ts m s = s
drop_rounds-IsOrdered (suc n) ts m s =
    drop_rounds-IsOrdered n ts (drop_silent ts m) (drop_silent-IsOrdered ts m s)

pub drop_rounds-All {κ} :
    (P : BdMetric × BdPeer → Type κ) (n ts : ℕ) (m : Entries) → All P m → All P (drop_rounds n ts m)
unfolding drop_rounds
drop_rounds-All P zero ts m h = h
drop_rounds-All P (suc n) ts m h =
    drop_rounds-All P n ts (drop_silent ts m) (drop_silent-All P ts m h)

trim_loop-take :
    (fuel bound : ℕ) (m : Entries) → length m ≤ fuel → trim_loop fuel bound m ≡ take bound m
unfolding trim_loop
trim_loop-take zero bound m h = sym (take_all bound m (omega arith))
trim_loop-take (suc fuel) bound m h = elim (Bool-cases (ltb bound (length m))) [
  | inl e ↦ rw e (
      trim_loop-take fuel bound (drop_last m) (omega (arith, length-drop_last m))
      ∙ take-drop_last bound m (ground arith))
  | inr e ↦ rw e (sym (take_all bound m (ground arith)))
]

pub trim-take : (bound : ℕ) (m : Entries) → trim bound m ≡ take bound m
unfolding trim
trim-take bound m = trim_loop-take (length m) bound m (omega arith)

pub take-All {κ} :
    (P : BdMetric × BdPeer → Type κ) (n : ℕ) (m : Entries) → All P m → All P (take n m)
take-All P zero m h = tt
take-All P (suc n) [] h = h
take-All P (suc n) (e ∷ m) h = (h.0, take-All P n m h.1)

pub take-IsOrdered : (n : ℕ) (m : Entries) → IsOrdered m → IsOrdered (take n m)
take-IsOrdered zero m s = tt
take-IsOrdered (suc n) [] s = s
take-IsOrdered (suc n) (e ∷ m) s = (take-All _ n m s.0, take-IsOrdered n m s.1)

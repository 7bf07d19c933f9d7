-- ===== src/Store/Files.antt =====
-- The file of a bdStore of bitdht/bdstore.cc keeps what the invariant of the store says.
use bitdht.Base.{
  length-map, ℕ, ◌*◌, ◌≡◌, Bool, false, Option, none, some, List, [], ◌∷◌, map, arith, ltb, length,
  All, inl, inr, Bool-cases,
}
use bitdht.Peer.{BdPeer}
use bitdht.Store.{
  Store, max_entries, read_peer, reload_from_store, write_store, addresses, same_addr,
}
use bitdht.Store.Capacity.{IsStore, IsDistinct}

-- What a file of a store holds is a store again.
abbrev pub FileIs : Option (List (ℕ × ℕ)) → Type 0
FileIs none = Unit {0}
FileIs (some lines) = IsStore (map read_peer lines)

pub reloaded-IsStore :
    (file : Option (List (ℕ × ℕ))) (s : Store) → FileIs file → IsStore (reload_from_store file s).0
unfolding reload_from_store
reloaded-IsStore none s h = record { distinct = tt; bounded = omega arith }
reloaded-IsStore (some lines) s h = h

far_away :
    (p : BdPeer) (s : Store)
    → All (λ q. same_addr q p ≡ false) s
    → All
        (λ q. same_addr q (read_peer (p.peer_id.addr.s_addr, p.peer_id.addr.sin_port)) ≡ false)
        (map read_peer (addresses s))
unfolding same_addr
far_away p [] h = tt
far_away p (q ∷ s) h = (h.0, far_away p s h.1)

written-IsDistinct : (s : Store) → IsDistinct s → IsDistinct (map read_peer (addresses s))
written-IsDistinct [] h = tt
written-IsDistinct (p ∷ s) h = (far_away p s h.0, written-IsDistinct s h.1)

written-IsStore : (s : Store) → IsStore s → IsStore (map read_peer (addresses s))
written-IsStore s v = record {
  distinct = written-IsDistinct s v.distinct;
  bounded = omega (
    arith,
    v.bounded,
    length-map read_peer (addresses s),
    length-map {B = ℕ × ℕ} (λ (p : BdPeer). (p.peer_id.addr.s_addr, p.peer_id.addr.sin_port)) s,
  );
}

pub write_store-FileIs :
    (can_open : Bool) (s : Store) (file : Option (List (ℕ × ℕ)))
    → IsStore s
    → FileIs file
    → FileIs (write_store can_open s file)
unfolding write_store
write_store-FileIs can_open s file v h = elim (Bool-cases (ltb (10 * length s) (9 * max_entries))) [
  | inl e ↦ rw e h
  | inr e ↦ elim (Bool-cases can_open) [
    | inl f ↦ rw (e, f) (written-IsStore s v)
    | inr f ↦ rw (e, f) h
  ]
]

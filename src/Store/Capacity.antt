-- ===== src/Store/Capacity.antt =====
-- bdStore::addStore and removeStore of bitdht/bdstore.cc: one entry per address, and the bound on the list.
use bitdht.Base.{
  take_all, take-drop_last, ap, take, length-take, All-take, ◌*◌, ℕ, zero, suc, ◌+◌, ◌≤◌, ◌≡◌, refl,
  true, false, Option, some, List, [], ◌∷◌, ◌++◌, ltb, Bool-cases, length, length-drop_last, any,
  drop_last, All, All-append, arith, map, inl, inr,
}
use mathlib.Core.Option
use bitdht.Peer.{BdPeer}
use bitdht.Store.{
  Store, max_entries, same_addr, remove_store, trim_loop, add_store, write_store, reload_from_store,
  read_peer, addresses,
}

same_addr-sym : (p q : BdPeer) → same_addr p q ≡ same_addr q p
unfolding same_addr
same_addr-sym p q = ground arith

same_addr_self : (p : BdPeer) → same_addr p p ≡ true
unfolding same_addr
same_addr_self p = ground arith

-- No two entries share an address and port.
abbrev pub IsDistinct : Store → Type 0
IsDistinct [] = Unit {0}
IsDistinct (p ∷ s) = All (λ q. same_addr q p ≡ false) s × IsDistinct s

-- The invariant of the store: distinct addresses, and no more of them than allowed.
pub record IsStore (s : Store) : Type 0 where
  pub distinct : IsDistinct s
  pub bounded : length s ≤ max_entries

All-remove_store :
    (P : BdPeer → Type 0) (peer : BdPeer) (s : Store) → All P s → All P (remove_store peer s)
unfolding remove_store
All-remove_store P peer [] h = h
All-remove_store P peer (p ∷ s) h = ground (arith, All-remove_store P peer s h.1)

remove_store-IsDistinct :
    (peer : BdPeer) (s : Store) → IsDistinct s → IsDistinct (remove_store peer s)
unfolding remove_store
remove_store-IsDistinct peer [] h = h
remove_store-IsDistinct peer (p ∷ s) h =
    ground (arith, remove_store-IsDistinct peer s h.1, All-remove_store _ peer s h.0)

remove_store-gone :
    (peer : BdPeer) (s : Store) → All (λ q. same_addr q peer ≡ false) (remove_store peer s)
unfolding remove_store
remove_store-gone peer [] = tt
remove_store-gone peer (p ∷ s) = ground (arith, remove_store-gone peer s)

length-remove_store : (peer : BdPeer) (s : Store) → length (remove_store peer s) ≤ length s
unfolding remove_store
length-remove_store peer [] = omega arith
length-remove_store peer (p ∷ s) = ground (arith, length-remove_store peer s)

append_one-IsDistinct :
    (peer : BdPeer) (s : Store)
    → IsDistinct s
    → All (λ q. same_addr q peer ≡ false) s
    → IsDistinct (s ++ peer ∷ [])
append_one-IsDistinct peer [] h g = (tt, tt)
append_one-IsDistinct peer (p ∷ s) h g = (
  All-append (λ q. same_addr q p ≡ false) s (peer ∷ []) h.0 (rw (same_addr-sym peer p) (g.0, tt)),
  append_one-IsDistinct peer s h.1 g.1,
)

-- The loop keeps the first entries, if the fuel covers what is above the bound.
trim_loop-take :
    (fuel : ℕ) (s : Store)
    → length s ≤ fuel + max_entries
    → trim_loop fuel s ≡ some (take max_entries s)
unfolding trim_loop
trim_loop-take zero s h = elim (Bool-cases (ltb max_entries (length s))) [
  | inl e ↦ absurd (ground (arith, e))
  | inr e ↦ rw (e, take_all max_entries s (ground (arith, e))) refl
]
trim_loop-take (suc fuel) s h = elim (Bool-cases (ltb max_entries (length s))) [
  | inl e ↦
      rw
        (
          e,
          trim_loop-take fuel (drop_last s) (ground (arith, length-drop_last s, e)),
          take-drop_last max_entries s (ground (arith, e)),
        )
        refl
  | inr e ↦ rw (e, take_all max_entries s (ground (arith, e))) refl
]

-- The loop of addStore ends, and what is left are the first thousand entries of the old list, less those with
-- the peer's address and port, with the peer behind them.
pub add_store-take :
    (peer : BdPeer) (s : Store)
    → add_store peer s ≡ some (take max_entries (remove_store peer s ++ peer ∷ []))
unfolding add_store
add_store-take peer s =
    trim_loop-take (length (remove_store peer s ++ peer ∷ [])) (remove_store peer s ++ peer ∷ [])
      (omega arith)

take-IsDistinct : (n : ℕ) (s : Store) → IsDistinct s → IsDistinct (take n s)
take-IsDistinct zero s h = tt
take-IsDistinct (suc n) [] h = tt
take-IsDistinct (suc n) (p ∷ s) h = (All-take _ n s h.0, take-IsDistinct n s h.1)

-- If no two entries share an address and port, addStore ends, keeps that so, and keeps at most a thousand of them, however many there were.
pub add_store-IsStore :
    (peer : BdPeer) (s : Store)
    → IsDistinct s
    → (s' : Store) × ((add_store peer s ≡ some s') × IsStore s')
add_store-IsStore peer s h = (
  take max_entries (remove_store peer s ++ peer ∷ []),
  (
    add_store-take peer s,
    record {
      distinct = take-IsDistinct max_entries (remove_store peer s ++ peer ∷ []) (
          append_one-IsDistinct peer (remove_store peer s) (remove_store-IsDistinct peer s h)
            (remove_store-gone peer s));
      bounded = omega (arith, length-take max_entries (remove_store peer s ++ peer ∷ []));
    },
  ),
)

any-take-none :
    (peer : BdPeer) (n : ℕ) (s : Store)
    → All (λ q. same_addr q peer ≡ false) s
    → any (λ q. same_addr q peer) (take n (s ++ peer ∷ [])) ≡ ltb (length s) n
any-take-none peer zero s h = ground arith
any-take-none peer (suc n) [] h = ground (arith, same_addr_self peer)
any-take-none peer (suc n) (p ∷ s) h = ground (arith, h.0, any-take-none peer n s h.1)

-- The peer just added is in the store exactly if fewer than a thousand other addresses were there: a full store
-- drops the peer that it was to take, and keeps the oldest ones.
pub add_store_drops_newest :
    (peer : BdPeer) (s : Store)
    → Option.map (any (λ q. same_addr q peer)) (add_store peer s)
      ≡ some (ltb (length (remove_store peer s)) max_entries)
add_store_drops_newest peer s =
    rw
      (
        add_store-take peer s,
        any-take-none peer max_entries (remove_store peer s) (remove_store-gone peer s),
      )
      refl

-- What writeStore puts out is what reloadFromStore reads: for a store of nine hundred or more, a file that can
-- be opened, and a reader that accepts the lines as they were written, the addresses and the ports come back in
-- order.
pub reload_from_store-write_store :
    (s old : Store) (file : Option (List (ℕ × ℕ)))
    → 900 ≤ length s
    → addresses (reload_from_store (write_store true s file) old).0 ≡ addresses s
unfolding reload_from_store write_store
reload_from_store-write_store s old file h =
    elim (Bool-cases (ltb (10 * length s) (9 * max_entries))) [
      | inl e ↦ absurd (ground (arith, e))
      | inr e ↦ rw e (again s)
    ]
  where
    again : (s : Store) → addresses (map read_peer (addresses s)) ≡ addresses s
    again [] = refl
    again (p ∷ s) = ap (◌∷◌ (p.peer_id.addr.s_addr, p.peer_id.addr.sin_port)) (again s)

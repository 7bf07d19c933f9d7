-- ===== src/Hash/Space/RoundTrip.antt =====
-- bdHashSpace::modify and search of bitdht/bdhash.cc: what was added under an id is found there.
use mathlib.Core.Option
use bitdht.Base.{
  ℕ, ◌^◌, ◌<◌, ◌≡◌, refl, sym, subst, true, not, ◌&&◌, Option, none, some, List, [], ◌∷◌, inl, inr,
  Bool-cases, any, All,
}
use bitdht.Peer.{BdNodeId, node_id_lt}
use bitdht.Peer.Order.{node_id_lt_self}
use bitdht.Multimap
use bitdht.Multimap.Order.{IsSorted}
use bitdht.Multimap.Find.{find-replace, find-insert}
use bitdht.Hash.{Text, HashEntry, HashSet, entry_add, text_lt, modify_set}
use bitdht.Hash.Find.{is_stored}
use bitdht.Hash.Search.{search_set-modify_set}
use bitdht.Hash.Space.{Table, new_set, search_found, search, modify_found, modify}

-- Every set of the table is in the order of its keys.
abbrev pub AllSorted : Table → Type 0
AllSorted t = All (λ e. IsSorted text_lt e.1.entries) t

-- The set of an id, a new one if there is none.
abbrev or_new : BdNodeId → Option HashSet → HashSet
or_new id none = new_set id
or_new id (some s) = s

find-modify_found :
    (t : Table) (id : BdNodeId) (o : Option HashSet) (key : Text) (entry : HashEntry) (now : ℕ)
    → Multimap.find node_id_lt id t ≡ o
    → Multimap.find node_id_lt id (modify_found t id o key entry entry_add now).0
      ≡ some (modify_set (or_new id o) key entry entry_add now).0
find-modify_found t id none key entry now e =
    find-insert node_id_lt id (modify_set (new_set id) key entry entry_add now).0 t
      (node_id_lt_self id) e
find-modify_found t id (some s) key entry now e =
    find-replace node_id_lt id (modify_set s key entry entry_add now).0 s t e

some_eq : {a b : HashSet} → some a ≡ some b → a ≡ b
some_eq e = cc

or_new-IsSorted :
    (t : Table) (id : BdNodeId) (o : Option HashSet)
    → AllSorted t
    → Multimap.find node_id_lt id t ≡ o
    → IsSorted text_lt (or_new id o).entries
or_new-IsSorted t id none a e = tt
or_new-IsSorted [] id (some s) a e = absurd (Option.none-ne-some s e)
or_new-IsSorted ((j, w) ∷ t) id (some s) a e =
    elim (Bool-cases (not (node_id_lt j id) && not (node_id_lt id j))) [
      | inl m ↦ subst (λ x. IsSorted text_lt x.entries) (some_eq (rw m at e)) a.0
      | inr m ↦ or_new-IsSorted t id (some s) a.1 (rw m at e)
    ]

-- Where every set is in the order of its keys, a search under an id for a key, in the second of an addition under
-- both and with an age limit that is positive and below 2^31, returns true, and its list has an entry with the
-- value, the secret and the lifetime that was stored, whether the id had a set before or not.
pub search-modify :
    (t : Table) (id : BdNodeId) (key : Text) (entry : HashEntry) (now max_age : ℕ)
    (entries : List HashEntry)
    → AllSorted t
    → 0 < max_age
    → max_age < 2 ^ 31
    → (any
          (is_stored entry now)
          (search (modify t id key entry entry_add now).0 id key max_age now entries).0
        ≡ true)
      × ((search (modify t id key entry entry_add now).0 id key max_age now entries).1 ≡ true)
unfolding search modify
search-modify t id key entry now max_age entries a l g =
    let o = Multimap.find node_id_lt id t in
    subst
      (λ f.
        (any (is_stored entry now) (search_found f key max_age now entries).0 ≡ true)
        × ((search_found f key max_age now entries).1 ≡ true))
      (sym (find-modify_found t id o key entry now refl))
      (search_set-modify_set (or_new id o) key entry now max_age entries
        (or_new-IsSorted t id o a refl) l g)

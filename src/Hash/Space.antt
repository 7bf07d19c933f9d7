-- ===== src/Hash/Space.antt =====
-- bdHashSpace of bitdht/bdhash.cc: a std::map from node ids to hash sets, as an ordered list.
pub mod Halting
pub mod RoundTrip
use mathlib.Core.Option
use bitdht.Base.{
  ℕ, zero, suc, ◌%◌, ◌^◌, ◌≡◌, Bool, true, false, not, ◌&&◌, ◌||◌, Option, none, some, List, [],
  ◌∷◌, ◌==◌, if◌then◌else◌, map,
}
use bitdht.Peer.{BdNodeId, node_id_lt}
use bitdht.Multimap
use bitdht.Hash.{Text, HashEntry, HashSet, search_set, modify_set, cleanup_set, entry_delete}

abbrev pub Table : Type 0
Table = List (BdNodeId × HashSet)

abbrev pub new_set : BdNodeId → HashSet
new_set id = record { id = id; entries = [] }

abbrev pub search_found : Option HashSet → Text → ℕ → ℕ → List HashEntry → List HashEntry × Bool
search_found none key max_age now entries = (entries, true)
search_found (some s) key max_age now entries = search_set s key max_age now entries

unfoldable pub search : Table → BdNodeId → Text → ℕ → ℕ → List HashEntry → List HashEntry × Bool
search t id key max_age now entries =
    search_found (Multimap.find node_id_lt id t) key max_age now entries

abbrev pub modify_found :
    Table → BdNodeId → Option HashSet → Text → HashEntry → ℕ → ℕ → Table × Bool
modify_found t id none key entry mod_flags now =
    let (s, done) = modify_set (new_set id) key entry mod_flags now in
    if mod_flags == entry_delete then (t, true) else (Multimap.insert node_id_lt id s t, done)
modify_found t id (some s) key entry mod_flags now =
    let (s', done) = modify_set s key entry mod_flags now in
    (Multimap.replace node_id_lt id s' t, done)

unfoldable pub modify : Table → BdNodeId → Text → HashEntry → ℕ → ℕ → Table × Bool
modify t id key entry mod_flags now =
    modify_found t id (Multimap.find node_id_lt id t) key entry mod_flags now

abbrev pub is_outside : BdNodeId → BdNodeId → BdNodeId → Bool
is_outside min max id = node_id_lt id min || node_id_lt max id

-- The first loop of cleanHashSpace: the ids that are scheduled for erasure, and the table in which the
-- other sets are cleaned up.
unfoldable pub schedule : BdNodeId → BdNodeId → Table → List BdNodeId
schedule min max [] = []
schedule min max ((id, s) ∷ t) =
    if is_outside min max id then id ∷ schedule min max t else schedule min max t

abbrev pub cleaned : BdNodeId → BdNodeId → ℕ → ℕ → BdNodeId → HashSet → Option HashSet
cleaned min max max_age now id s =
    if is_outside min max id then some s else cleanup_set s (max_age % 2 ^ 32) now

abbrev pub cons_set : BdNodeId → Option HashSet → Option Table → Option Table
cons_set id (some s) (some t) = some ((id, s) ∷ t)
cons_set id _ _ = none

unfoldable pub clean_sets : BdNodeId → BdNodeId → ℕ → ℕ → Table → Option Table
clean_sets min max max_age now [] = some []
clean_sets min max max_age now ((id, s) ∷ t) =
    cons_set id (cleaned min max max_age now id s) (clean_sets min max max_age now t)

-- The second loop: the front of the list is looked up and erased from the table, and stays on the list.
-- `none` if the fuel runs out.
unfoldable pub erase_loop : ℕ → List BdNodeId → Table → Option Table
erase_loop zero erase_list t = none
erase_loop (suc fuel) [] t = some t
erase_loop (suc fuel) (id ∷ erase_list) t =
    erase_loop fuel (id ∷ erase_list) (Multimap.erase node_id_lt id t)

-- cleanHashSpace with fuel for its second loop.
unfoldable pub clean_hash_space : ℕ → BdNodeId → BdNodeId → ℕ → ℕ → Table → Option Table
clean_hash_space fuel min max max_age now t =
    Option.bind (clean_sets min max max_age now t) (λ t'. erase_loop fuel (schedule min max t) t')

abbrev pub clear_hash_space : Table → Table
clear_hash_space t = []

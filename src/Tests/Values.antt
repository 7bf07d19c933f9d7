-- ===== src/Tests/Values.antt =====
-- Tests for the kept values.
use bitdht.Base.{◌≡◌, refl, ◌⊎◌, true, none, some, [], ◌∷◌, any, arith}
use bitdht.Hash.{HashEntry, HashSet, Text, entry_add, text_lt}
use bitdht.Hash.Find.{is_stored}
use bitdht.Multimap.Order.{IsSorted}
use bitdht.Hash.Space.{Table, clean_hash_space, search, modify}
use bitdht.Hash.Space.Halting.{AllInside, clean_table, clean_hash_space_halts}
use bitdht.Hash.Space.RoundTrip.{search-modify}
use bitdht.Tests.Data.{node}

abbrev key : Text
key = 107 ∷ 1 ∷ []

abbrev entry : HashEntry
entry = record { value = 1 ∷ 2 ∷ []; store_ts = 50; secret = 9 ∷ []; lifetime = 60 }

abbrev set_of_two : HashSet
set_of_two = record {
  id = node 5;
  entries = (107 ∷ [], record entry { secret = [] }) ∷ (key, entry) ∷ [];
}

set_of_two-IsSorted : IsSorted text_lt set_of_two.entries
unfolding text_lt
set_of_two-IsSorted = ((refl, tt), (tt, tt))

abbrev sets : Table
sets = (node 5, set_of_two) ∷ []

clean_hash_space_halts_example :
    (AllInside (node 6) (node 9) sets
      × (clean_hash_space 8 (node 6) (node 9) 100 120 sets
          ≡ some (clean_table (node 6) (node 9) 100 120 sets)))
    ⊎ ((¬ AllInside (node 6) (node 9) sets)
        × (clean_hash_space 8 (node 6) (node 9) 100 120 sets ≡ none))
clean_hash_space_halts_example = clean_hash_space_halts (node 6) (node 9) 100 120 7 sets

-- An addition under an id that has no set yet.
search-modify_example :
    (any
        (is_stored entry 70)
        (search (modify sets (node 9) key entry entry_add 70).0 (node 9) key 30 70 []).0
      ≡ true)
    × ((search (modify sets (node 9) key entry entry_add 70).0 (node 9) key 30 70 []).1 ≡ true)
search-modify_example =
    search-modify sets (node 9) key entry 70 30 [] (set_of_two-IsSorted, tt) (omega arith)
      (omega arith)

-- ===== src/Multimap.antt =====
-- What the program uses of std::multimap: a list of entries in the order of the keys, under a
-- Boolean `<`. An insertion goes to the upper bound of its key.
pub mod Order
pub mod Find
use bitdht.Base.{Bool, not, ◌&&◌, Option, none, some, List, [], ◌∷◌, ◌++◌, if◌then◌else◌}

module _ {ℓ κ} {K : Type ℓ} {V : Type κ} (lt : K → K → Bool) where
  abbrev pub insert : K → V → List (K × V) → List (K × V)
  insert k v [] = (k, v) ∷ []
  insert k v ((j, w) ∷ m) = if lt k j then (k, v) ∷ (j, w) ∷ m else (j, w) ∷ insert k v m

  -- The entries before `lower_bound(k)`, and those from there on.
  abbrev pub before_lower : K → List (K × V) → List (K × V)
  before_lower k [] = []
  before_lower k ((j, w) ∷ m) = if lt j k then (j, w) ∷ before_lower k m else []

  abbrev pub from_lower : K → List (K × V) → List (K × V)
  from_lower k [] = []
  from_lower k ((j, w) ∷ m) = if lt j k then from_lower k m else (j, w) ∷ m

  -- The entries before `upper_bound(k)`, and those from there on.
  abbrev pub before_upper : K → List (K × V) → List (K × V)
  before_upper k [] = []
  before_upper k ((j, w) ∷ m) = if lt k j then [] else (j, w) ∷ before_upper k m

  abbrev pub from_upper : K → List (K × V) → List (K × V)
  from_upper k [] = []
  from_upper k ((j, w) ∷ m) = if lt k j then (j, w) ∷ m else from_upper k m

  -- The entries from `lower_bound(k)` to `upper_bound(k)`.
  abbrev pub range : K → List (K × V) → List (K × V)
  range k m = before_upper k (from_lower k m)

  -- `find`, a write through the iterator that it gives, and `erase`, of std::map.
  abbrev pub find : K → List (K × V) → Option V
  find k [] = none
  find k ((j, w) ∷ m) = if not (lt j k) && not (lt k j) then some w else find k m

  abbrev pub replace : K → V → List (K × V) → List (K × V)
  replace k v [] = []
  replace k v ((j, w) ∷ m) =
      if not (lt j k) && not (lt k j) then (j, v) ∷ m else (j, w) ∷ replace k v m

  abbrev pub erase : K → List (K × V) → List (K × V)
  erase k [] = []
  erase k ((j, w) ∷ m) = if not (lt j k) && not (lt k j) then m else (j, w) ∷ erase k m

  abbrev pub assign_found : K → V → List (K × V) → Option V → List (K × V)
  assign_found k v m none = insert k v m
  assign_found k v m (some w) = replace k v m

  -- `m[k] = v` of std::map.
  abbrev pub assign : K → V → List (K × V) → List (K × V)
  assign k v m = assign_found k v m (find k m)

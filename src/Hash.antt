-- ===== src/Hash.antt =====
-- The values kept for a node id, bdHashEntry, bdHashSet and bdHashSpace of bitdht/bdhash.h and
-- bitdht/bdhash.cc. A text is the list of its bytes, and the clock is the argument `now`. A time, a lifetime
-- and an age limit are not negative; `age_lt` and `age_gt` have the 32-bit cast of the limit.
pub mod Space
pub mod Cleanup
pub mod Modify
pub mod Find
pub mod Search
use mathlib.Core.Option
use bitdht.Base.{
  ℕ, zero, suc, ◌+◌, ◌-◌, ◌^◌, ◌≡◌, Bool, true, false, not, ◌&&◌, ◌||◌, Option, none, some, List,
  [], ◌∷◌, ◌++◌, map, ltb, leb, ◌==◌, if◌then◌else◌, length, keep_if, get_elem?, erase_at,
}
use bitdht.Peer.{BdNodeId, node_id_lt}
use bitdht.Multimap

abbrev pub Text : Type 0
Text = List ℕ

-- std::string's `<` and `==`.
unfoldable pub text_lt : Text → Text → Bool
text_lt xs [] = false
text_lt [] (y ∷ ys) = true
text_lt (x ∷ xs) (y ∷ ys) = if ltb x y then true else if ltb y x then false else text_lt xs ys

unfoldable pub text_eq : Text → Text → Bool
text_eq [] [] = true
text_eq [] (y ∷ ys) = false
text_eq (x ∷ xs) [] = false
text_eq (x ∷ xs) (y ∷ ys) = if x == y then text_eq xs ys else false

pub record HashEntry : Type 0 where
  pub value : Text
  pub store_ts : ℕ
  pub secret : Text
  pub lifetime : ℕ

-- BITDHT_HASH_ENTRY_ADD is 1 and BITDHT_HASH_ENTRY_DELETE is 2; other numbers do neither.
abbrev pub entry_add : ℕ
entry_add = 1

abbrev pub entry_delete : ℕ
entry_delete = 2

abbrev pub Entries : Type 0
Entries = List (Text × HashEntry)

pub record HashSet : Type 0 where
  pub id : BdNodeId
  pub entries : Entries

-- now - store < (int32_t) max_age, where a limit of 2^31 or more is cast to a negative one.
abbrev pub age_lt : ℕ → ℕ → ℕ → Bool
age_lt now store max_age =
    if ltb max_age (2 ^ 31) then ltb now (store + max_age) else ltb (now + 2 ^ 32) (store + max_age)

abbrev pub age_gt : ℕ → ℕ → ℕ → Bool
age_gt now store max_age =
    if ltb max_age (2 ^ 31) then ltb (store + max_age) now else ltb (store + max_age) (now + 2 ^ 32)

-- The found entries are appended to what the caller's list holds, and the answer is whether that list is
-- not empty.
unfoldable pub search_set : HashSet → Text → ℕ → ℕ → List HashEntry → List HashEntry × Bool
search_set s key max_age now entries =
    let young =
      keep_if (λ e. age_lt now e.1.store_ts max_age) (Multimap.range text_lt key s.entries) in
    let all = entries ++ map (λ e. e.1) young in (all, ltb 0 (length all))

-- What modify does to one entry of the key: nothing, a new time and lifetime, or it erases the entry.
pub data Verdict : Type 0 where
  keep update erase : Verdict

unfoldable pub verdict : HashEntry → HashEntry → ℕ → ℕ → Verdict
verdict old entry mod_flags now =
    let no_secret = text_eq old.secret [] in
    let same_secret = text_eq old.secret entry.secret in
    if not (text_eq old.value entry.value)
    then keep
    else if no_secret && same_secret
    then (if (mod_flags == entry_add) && ltb (old.lifetime + old.store_ts) (entry.lifetime + now)
        then update
        else keep)
    else if not same_secret
    then keep
    else if mod_flags == entry_add
    then update
    else if mod_flags == entry_delete
    then erase
    else keep

-- The loop over the entries of the key: erased, with what is left, or the entries with the updates made and
-- whether there were any.
pub data Loop : Type 0 where
  erased : Entries → Loop
  ended : Entries → Bool → Loop

abbrev pub behind : Text × HashEntry → Bool → Loop → Loop
behind e updated (erased m) = erased (e ∷ m)
behind e updated (ended m b) = ended (e ∷ m) (updated || b)

abbrev pub renewed : HashEntry → HashEntry → ℕ → HashEntry
renewed old entry now = record old { store_ts = now; lifetime = entry.lifetime }

unfoldable pub modify_loop : Text → HashEntry → ℕ → ℕ → Entries → Loop
modify_loop key entry mod_flags now [] = ended [] false
modify_loop key entry mod_flags now ((k, old) ∷ m) =
    let rest = modify_loop key entry mod_flags now m in
    if text_lt k key
    then behind (k, old) false rest
    else if text_lt key k
    then ended ((k, old) ∷ m) false
    else elim (verdict old entry mod_flags now) [
      | keep ↦ behind (k, old) false rest
      | update ↦ behind (k, renewed old entry now) true rest
      | erase ↦ erased m
    ]

abbrev pub after_loop : HashSet → Text → HashEntry → ℕ → ℕ → Loop → HashSet × Bool
after_loop s key entry mod_flags now (erased m) = (record s { entries = m }, true)
after_loop s key entry mod_flags now (ended m updated) =
    if not updated && (mod_flags == entry_add)
    then (
      record s { entries = Multimap.insert text_lt key (record entry { store_ts = now }) m },
      true,
    )
    else (record s { entries = m }, updated)

unfoldable pub modify_set : HashSet → Text → HashEntry → ℕ → ℕ → HashSet × Bool
modify_set s key entry mod_flags now =
    after_loop s key entry mod_flags now (modify_loop key entry mod_flags now s.entries)

abbrev pub is_stale : ℕ → ℕ → Text × HashEntry → Bool
is_stale now max_age e = age_gt now e.1.store_ts max_age || ltb (e.1.store_ts + e.1.lifetime) now

-- The loop with its position `i`; it begins again from the front after each removal. `none` if the fuel
-- runs out, which `rounds` of the length prevents.
unfoldable pub cleanup_loop : ℕ → ℕ → ℕ → ℕ → Entries → Option Entries
cleanup_loop zero now max_age i m = none
cleanup_loop (suc fuel) now max_age i m = elim (get_elem? m i) [
  | none ↦ some m
  | some e ↦ elim (is_stale now max_age e) [
    | true ↦ cleanup_loop fuel now max_age 0 (erase_at m i)
    | false ↦ cleanup_loop fuel now max_age (suc i) m
  ]
]

abbrev pub rounds : ℕ → ℕ
rounds zero = 1
rounds (suc n) = suc (suc n + rounds n)

unfoldable pub cleanup_set : HashSet → ℕ → ℕ → Option HashSet
cleanup_set s max_age now =
    Option.map (λ m. record s { entries = m })
      (cleanup_loop (rounds (length s.entries)) now max_age 0 s.entries)

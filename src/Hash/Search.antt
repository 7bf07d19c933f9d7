-- ===== src/Hash/Search.antt =====
-- bdHashSet::search of bitdht/bdhash.cc after an addition.
use bitdht.Base.{
  ℕ, ◌^◌, ◌<◌, ◌≡◌, refl, inl, inr, Bool, true, false, List, [], ◌∷◌, ◌++◌, map, ltb, Bool-cases,
  length, keep_if, any, arith,
}
use bitdht.Multimap
use bitdht.Multimap.Order.{IsSorted}
use bitdht.Hash.{
  Text, HashEntry, HashSet, Entries, entry_add, text_lt, age_lt, search_set, modify_set,
}
use bitdht.Hash.Modify.{at_key, none_later}
use bitdht.Hash.Find.{is_stored, modify_set-add}

-- In a sorted list all entries of the key stand in its range.
any-before_upper :
    (key : Text) (q : HashEntry → Bool) (m : Entries)
    → IsSorted text_lt m
    → any (λ e. q e.1) (Multimap.before_upper text_lt key m) ≡ false
    → any (at_key key q) m ≡ false
any-before_upper key q [] s h = refl
any-before_upper key q ((j, w) ∷ m) s h = elim (Bool-cases (text_lt key j)) [
  | inl e ↦ rw e (ground (arith, none_later key j q m e s.0))
  | inr e ↦ ground (arith, e, rw e at h, any-before_upper key q m s.1)
]

any-range :
    (key : Text) (q : HashEntry → Bool) (m : Entries)
    → IsSorted text_lt m
    → any (λ e. q e.1) (Multimap.range text_lt key m) ≡ false
    → any (at_key key q) m ≡ false
any-range key q [] s h = refl
any-range key q ((j, w) ∷ m) s h = elim (Bool-cases (text_lt j key)) [
  | inl e ↦ rw e (any-range key q m s.1 (rw e at h))
  | inr e ↦ any-before_upper key q ((j, w) ∷ m) s (rw e at h)
]

-- What the age limit leaves of the found entries, when a stored one is young enough.
any-young :
    (entry : HashEntry) (now max_age : ℕ) (m : Entries)
    → 0 < max_age
    → max_age < 2 ^ 31
    → any (λ e. is_stored entry now e.1) m ≡ true
    → any (is_stored entry now) (map (λ e. e.1) (keep_if (λ e. age_lt now e.1.store_ts max_age) m))
      ≡ true
any-young entry now max_age [] l g h = cc
any-young entry now max_age ((k, e) ∷ m) l g h = elim (Bool-cases (is_stored entry now e)) [
  | inl t ↦
      let young : age_lt now e.store_ts max_age ≡ true = ground (arith, t) in rw (young, t) refl
  | inr f ↦ elim (Bool-cases (age_lt now e.store_ts max_age)) [
    | inl y ↦ rw y (ground (arith, any-young entry now max_age m l g (ground (arith, f, h))))
    | inr y ↦ rw y (any-young entry now max_age m l g (ground (arith, f, h)))
  ]
]

any-append_right :
    {A : Type 0} (p : A → Bool) (xs ys : List A) → any p ys ≡ true → any p (xs ++ ys) ≡ true
any-append_right p [] ys h = h
any-append_right p (x ∷ xs) ys h = ground (arith, any-append_right p xs ys h)

length-any : {A : Type 0} (p : A → Bool) (xs : List A) → any p xs ≡ true → ltb 0 (length xs) ≡ true
length-any p [] h = cc
length-any p (x ∷ xs) h = ground arith

-- What the range of the key must hold, if an entry of the key has the property.
range-any :
    (key : Text) (q : HashEntry → Bool) (m : Entries)
    → IsSorted text_lt m
    → any (at_key key q) m ≡ true
    → any (λ e. q e.1) (Multimap.range text_lt key m) ≡ true
range-any key q m s h = elim (Bool-cases (any (λ e. q e.1) (Multimap.range text_lt key m))) [
  | inl t ↦ t
  | inr f ↦ absurd (ground (arith, h, any-range key q m s f))
]

-- In a set in the order of its keys a search for the key in the second of an addition, under an age limit that is positive and below 2^31,
-- returns true, and its list has an entry with the value, the secret and the lifetime that was stored.
pub search_set-modify_set :
    (s : HashSet) (key : Text) (entry : HashEntry) (now max_age : ℕ) (entries : List HashEntry)
    → IsSorted text_lt s.entries
    → 0 < max_age
    → max_age < 2 ^ 31
    → (any
          (is_stored entry now)
          (search_set (modify_set s key entry entry_add now).0 key max_age now entries).0
        ≡ true)
      × ((search_set (modify_set s key entry entry_add now).0 key max_age now entries).1 ≡ true)
unfolding search_set
search_set-modify_set s key entry now max_age entries h l g =
    let added = modify_set-add s key entry now h in
    let after = (modify_set s key entry entry_add now).0.entries in
    let found =
      any-append_right (is_stored entry now) entries
        (map (λ e. e.1)
          (keep_if (λ e. age_lt now e.1.store_ts max_age) (Multimap.range text_lt key after)))
        (any-young entry now max_age (Multimap.range text_lt key after) l g
          (range-any key (is_stored entry now) after added.1.0 added.1.1)) in
    (found, length-any (is_stored entry now) _ found)

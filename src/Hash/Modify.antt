-- ===== src/Hash/Modify.antt =====
-- bdHashSet::modify and search of bitdht/bdhash.cc: what was added is found, and the secret protects it.
use bitdht.Base.{
  ℕ, ◌≡◌, refl, ◌↔◌, inl, inr, Bool, true, false, not, ◌&&◌, [], ◌∷◌, if◌then◌else◌, Bool-cases,
  any, All, arith,
}
use bitdht.Multimap.Order.{IsStrict, IsSorted}
use bitdht.Hash.{
  Text, HashEntry, HashSet, Entries, entry_delete, text_lt, text_eq, keep, erase, verdict, Loop,
  erased, ended, behind, modify_loop, modify_set,
}

pub text_eq-iff-eq : (xs ys : Text) → (text_eq xs ys ≡ true) ↔ (xs ≡ ys)
unfolding text_eq
text_eq-iff-eq [] [] = ((λ h. refl), λ h. refl)
text_eq-iff-eq [] (y ∷ ys) = ((λ h. cc), λ h. cc)
text_eq-iff-eq (x ∷ xs) [] = ((λ h. cc), λ h. cc)
text_eq-iff-eq (x ∷ xs) (y ∷ ys) = ground (arith, text_eq-iff-eq xs ys)

pub text_eq_self : (xs : Text) → text_eq xs xs ≡ true
text_eq_self xs = (text_eq-iff-eq xs xs).1 refl

pub text_lt_self : (xs : Text) → text_lt xs xs ≡ false
unfolding text_lt
text_lt_self [] = refl
text_lt_self (x ∷ xs) = ground (arith, text_lt_self xs)

text_lt_trans :
    (xs ys zs : Text) → text_lt xs ys ≡ true → text_lt ys zs ≡ true → text_lt xs zs ≡ true
unfolding text_lt
text_lt_trans [] [] zs h k = cc
text_lt_trans (x ∷ xs) [] zs h k = cc
text_lt_trans xs (y ∷ ys) [] h k = cc
text_lt_trans [] (y ∷ ys) (z ∷ zs) h k = refl
text_lt_trans (x ∷ xs) (y ∷ ys) (z ∷ zs) h k = ground (arith, text_lt_trans xs ys zs)

pub text_lt-IsStrict : IsStrict text_lt
text_lt-IsStrict = record { irrefl = text_lt_self; trans = text_lt_trans }

-- An entry that a call with this secret may erase: the same value under the same secret, which is not empty.
abbrev pub is_erasable : HashEntry → HashEntry → Bool
is_erasable entry old =
    text_eq old.value entry.value
    && (text_eq old.secret entry.secret && not (text_eq old.secret []))

verdict-delete :
    (old entry : HashEntry) (now : ℕ)
    → verdict old entry entry_delete now ≡ (if is_erasable entry old then erase else keep)
unfolding verdict
verdict-delete old entry now = ground arith

-- An entry of the key with the property.
abbrev pub at_key : Text → (HashEntry → Bool) → Text × HashEntry → Bool
at_key key q e = not (text_lt e.0 key) && (not (text_lt key e.0) && q e.1)

-- The entries less the first of the key that may be erased.
abbrev pub without_first : Text → HashEntry → Entries → Entries
without_first key entry [] = []
without_first key entry (e ∷ m) =
    if at_key key (is_erasable entry) e then m else e ∷ without_first key entry m

text_lt_trans_not :
    (xs ys zs : Text) → text_lt xs ys ≡ true → text_lt zs ys ≡ false → text_lt xs zs ≡ true
unfolding text_lt
text_lt_trans_not [] [] zs h k = cc
text_lt_trans_not (x ∷ xs) [] zs h k = cc
text_lt_trans_not xs (y ∷ ys) [] h k = cc
text_lt_trans_not [] (y ∷ ys) (z ∷ zs) h k = refl
text_lt_trans_not (x ∷ xs) (y ∷ ys) (z ∷ zs) h k = ground (arith, text_lt_trans_not xs ys zs)

-- Behind a key above `key` in a sorted list the key has no entry.
pub none_later :
    (key k : Text) (q : HashEntry → Bool) (m : Entries)
    → text_lt key k ≡ true
    → All (λ e. text_lt e.0 k ≡ false) m
    → any (at_key key q) m ≡ false
none_later key k q [] h a = refl
none_later key k q ((j, old) ∷ m) h a =
    ground (arith, text_lt_trans_not key k j h a.0, none_later key k q m h a.1)

abbrev deleted : Text → HashEntry → Entries → Loop
deleted key entry m =
    if any (at_key key (is_erasable entry)) m
    then erased (without_first key entry m)
    else ended m false

behind-deleted :
    (key : Text) (entry : HashEntry) (e : Text × HashEntry) (m : Entries)
    → behind e false (deleted key entry m) ≡ (
        if any (at_key key (is_erasable entry)) m
        then erased (e ∷ without_first key entry m)
        else ended (e ∷ m) false)
behind-deleted key entry e m = elim (Bool-cases (any (at_key key (is_erasable entry)) m)) [
  | inl g ↦ rw g
  | inr g ↦ rw g
]

modify_loop-deleted :
    (key : Text) (entry : HashEntry) (now : ℕ) (m : Entries)
    → IsSorted text_lt m
    → modify_loop key entry entry_delete now m ≡ deleted key entry m
unfolding modify_loop
modify_loop-deleted key entry now [] s = refl
modify_loop-deleted key entry now ((k, old) ∷ m) s =
    let rest = modify_loop-deleted key entry now m s.1 in
    elim (Bool-cases (text_lt k key)) [
      | inl e ↦ rw (e, rest) (behind-deleted key entry (k, old) m)
      | inr e ↦ elim (Bool-cases (text_lt key k)) [
        | inl f ↦ rw (e, f, none_later key k (is_erasable entry) m f s.0)
        | inr f ↦ elim (Bool-cases (is_erasable entry old)) [
          | inl g ↦ rw (e, f, verdict-delete old entry now, g)
          | inr g ↦
              rw (e, f, verdict-delete old entry now, g, rest) (behind-deleted key entry (k, old) m)
        ]
      ]
    ]

-- In a set in the order of its keys a deletion erases the first entry of the key that has the value and the same secret, one that is not empty,
-- and returns true; if there is none, in particular for an entry without a secret, it changes nothing and
-- returns false.
pub modify_set-delete :
    (s : HashSet) (key : Text) (entry : HashEntry) (now : ℕ)
    → IsSorted text_lt s.entries
    → modify_set s key entry entry_delete now ≡ (
        if any (at_key key (is_erasable entry)) s.entries
        then (record s { entries = without_first key entry s.entries }, true)
        else (s, false))
unfolding modify_set
modify_set-delete s key entry now h =
    rw (modify_loop-deleted key entry now s.entries h)
      (elim (Bool-cases (any (at_key key (is_erasable entry)) s.entries)) [
        | inl g ↦ rw g
        | inr g ↦ rw g
      ])

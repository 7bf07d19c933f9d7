-- ===== src/Hash/Find.antt =====
-- bdHashSet::modify with the flag to add, of bitdht/bdhash.cc: what was added is stored.
use bitdht.Base.{
  ℕ, ◌≡◌, refl, ◌⊎◌, inl, inr, Bool, true, false, ◌&&◌, [], ◌∷◌, ◌==◌, Bool-cases, any, All, arith,
}
use bitdht.Multimap
use bitdht.Multimap.Order.{IsSorted, insert-IsSorted}
use bitdht.Hash.{
  Text, HashEntry, HashSet, Entries, entry_add, text_lt, text_eq, Verdict, keep, update, erase,
  verdict, Loop, erased, ended, behind, renewed, modify_loop, after_loop, modify_set,
}
use bitdht.Hash.Modify.{text_eq_self, text_lt_self, text_lt-IsStrict, at_key}

-- The value and the secret, stored just now with the lifetime.
abbrev pub is_stored : HashEntry → ℕ → HashEntry → Bool
is_stored entry now e =
    text_eq e.value entry.value
    && (text_eq e.secret entry.secret && ((e.store_ts == now) && (e.lifetime == entry.lifetime)))

verdict-add :
    (old entry : HashEntry) (now : ℕ)
    → (verdict old entry entry_add now ≡ keep)
      ⊎ ((verdict old entry entry_add now ≡ update)
          × (is_stored entry now (renewed old entry now) ≡ true))
unfolding verdict
verdict-add old entry now = ground arith

-- An update leaves a stored entry, and nothing is erased.
abbrev Adds : Text → HashEntry → ℕ → Loop → Type 0
Adds key entry now (erased m) = ⊥
Adds key entry now (ended m b) = b ≡ true → any (at_key key (is_stored entry now)) m ≡ true

behind-Adds :
    (key : Text) (entry : HashEntry) (now : ℕ) (e : Text × HashEntry) (b : Bool) (r : Loop)
    → (b ≡ true → at_key key (is_stored entry now) e ≡ true)
    → Adds key entry now r
    → Adds key entry now (behind e b r)
behind-Adds key entry now e b (erased m) h a = a
behind-Adds key entry now e b (ended m c) h a =
    λ g. elim (Bool-cases b) [ inl t ↦ rw (h t) refl | inr t ↦ ground (arith, a (ground arith)) ]

modify_loop-Adds :
    (key : Text) (entry : HashEntry) (now : ℕ) (m : Entries)
    → Adds key entry now (modify_loop key entry entry_add now m)
unfolding modify_loop
modify_loop-Adds key entry now [] = λ h. cc
modify_loop-Adds key entry now ((k, old) ∷ m) =
    let rest = modify_loop-Adds key entry now m in
    let passed =
      behind-Adds key entry now (k, old) false (modify_loop key entry entry_add now m) (λ h. cc)
        rest in
    elim (Bool-cases (text_lt k key)) [
      | inl e ↦ rw e passed
      | inr e ↦ elim (Bool-cases (text_lt key k)) [
        | inl f ↦ rw (e, f) (λ h. cc)
        | inr f ↦ elim (verdict-add old entry now) [
          | inl v ↦ rw (e, f, v) passed
          | inr (v, stored) ↦
              rw (e, f, v)
                (behind-Adds key entry now (k, renewed old entry now) true
                  (modify_loop key entry entry_add now m) (λ h. ground arith) rest)
        ]
      ]
    ]

-- The loop changes no key.
abbrev Keeps : Entries → Loop → Type 0
Keeps m (erased m') = Unit {0}
Keeps m (ended m' b) =
    ((k : Text) → All (λ e. text_lt e.0 k ≡ false) m → All (λ e. text_lt e.0 k ≡ false) m')
    × (IsSorted text_lt m → IsSorted text_lt m')

behind-Keeps :
    (k : Text) (old new : HashEntry) (b : Bool) (m : Entries) (r : Loop)
    → Keeps m r
    → Keeps ((k, old) ∷ m) (behind (k, new) b r)
behind-Keeps k old new b m (erased m') h = tt
behind-Keeps k old new b m (ended m' c) h = ((λ j a. (a.0, h.0 j a.1)), λ s. (h.0 k s.0, h.1 s.1))

modify_loop-Keeps :
    (key : Text) (entry : HashEntry) (mod_flags now : ℕ) (m : Entries)
    → Keeps m (modify_loop key entry mod_flags now m)
unfolding modify_loop
modify_loop-Keeps key entry mod_flags now [] = ((λ k a. a), λ s. s)
modify_loop-Keeps key entry mod_flags now ((k, old) ∷ m) =
    let rest = modify_loop-Keeps key entry mod_flags now m in
    let passed = behind-Keeps k old old false m (modify_loop key entry mod_flags now m) rest in
    elim (Bool-cases (text_lt k key)) [
      | inl e ↦ rw e passed
      | inr e ↦ elim (Bool-cases (text_lt key k)) [
        | inl f ↦ rw (e, f) ((λ k a. a), λ s. s)
        | inr f ↦
            rw (e, f)
              (by_verdict (verdict old entry mod_flags now) passed (
                behind-Keeps k old (renewed old entry now) true m
                  (modify_loop key entry mod_flags now m) rest))
      ]
    ]
  where
    by_verdict :
        (v : Verdict)
        → Keeps ((k, old) ∷ m) (behind (k, old) false (modify_loop key entry mod_flags now m))
        → Keeps
            ((k, old) ∷ m)
            (behind (k, renewed old entry now) true (modify_loop key entry mod_flags now m))
        → Keeps ((k, old) ∷ m) (elim v [
          | keep ↦ behind (k, old) false (modify_loop key entry mod_flags now m)
          | update ↦ behind (k, renewed old entry now) true (modify_loop key entry mod_flags now m)
          | erase ↦ erased m
        ])
    by_verdict keep p u = p
    by_verdict update p u = u
    by_verdict erase p u = tt

any-insert :
    (key : Text) (q : HashEntry → Bool) (new : HashEntry) (m : Entries)
    → q new ≡ true
    → any (at_key key q) (Multimap.insert text_lt key new m) ≡ true
any-insert key q new [] h = rw (text_lt_self key, h)
any-insert key q new ((j, w) ∷ m) h = elim (Bool-cases (text_lt key j)) [
  | inl e ↦ rw (e, text_lt_self key, h)
  | inr e ↦ rw e (ground (arith, any-insert key q new m h))
]

stored_now :
    (entry : HashEntry) (now : ℕ) → is_stored entry now (record entry { store_ts = now }) ≡ true
stored_now entry now = ground (arith, text_eq_self entry.value, text_eq_self entry.secret)

after_loop-add :
    (s : HashSet) (key : Text) (entry : HashEntry) (now : ℕ) (r : Loop)
    → IsSorted text_lt s.entries
    → Adds key entry now r
    → Keeps s.entries r
    → ((after_loop s key entry entry_add now r).1 ≡ true)
      × (IsSorted text_lt (after_loop s key entry entry_add now r).0.entries
          × (any
                (at_key key (is_stored entry now))
                (after_loop s key entry entry_add now r).0.entries
              ≡ true))
after_loop-add s key entry now (erased m) h a k = elim a [ ]
after_loop-add s key entry now (ended m true) h a k = (refl, (k.1 h, a refl))
after_loop-add s key entry now (ended m false) h a k = (
  refl,
  (
    insert-IsSorted text_lt text_lt-IsStrict key (record entry { store_ts = now }) m (k.1 h),
    any-insert key (is_stored entry now) (record entry { store_ts = now }) m (stored_now entry now),
  ),
)

-- In a set in the order of its keys an addition returns true, keeps the entries sorted, and leaves an entry of the key with the value, the secret
-- and the lifetime that was stored at this time.
pub modify_set-add :
    (s : HashSet) (key : Text) (entry : HashEntry) (now : ℕ)
    → IsSorted text_lt s.entries
    → ((modify_set s key entry entry_add now).1 ≡ true)
      × (IsSorted text_lt (modify_set s key entry entry_add now).0.entries
          × (any (at_key key (is_stored entry now)) (modify_set s key entry entry_add now).0.entries
              ≡ true))
unfolding modify_set
modify_set-add s key entry now h =
    after_loop-add s key entry now (modify_loop key entry entry_add now s.entries) h
      (modify_loop-Adds key entry now s.entries)
      (modify_loop-Keeps key entry entry_add now s.entries)

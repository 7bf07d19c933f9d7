-- ===== src/Hash/Cleanup.antt =====
-- cleanupHashSet of bitdht/bdhash.cc removes the stale entries and no other, and ends.
use bitdht.Base.{
  ◌^◌, ◌&&◌, ltb, leb, List, if◌then◌else◌, ◌+◌, ℕ, zero, suc, ◌+◌, ◌-◌, ◌≤◌, ◌<◌, ◌≡◌, refl, sym,
  ap, ◌∙◌, inl, inr, Bool, true, false, not, none, some, [], ◌∷◌, Bool-cases, Option-cases, length,
  keep_if, get_elem?, erase_at, take, All, arith,
}
use mathlib.Core.Option
use bitdht.Hash.{Text, HashEntry, HashSet, Entries, is_stale, cleanup_loop, rounds, cleanup_set}

-- Not older than the limit, which is a signed 32-bit number, and not past its lifetime.
abbrev pub is_kept : ℕ → ℕ → Text × HashEntry → Bool
is_kept now max_age e =
    leb (now + (if ltb max_age (2 ^ 31) then 0 else 2 ^ 32)) (e.1.store_ts + max_age)
    && leb now (e.1.store_ts + e.1.lifetime)

is_kept-is_stale :
    (now max_age : ℕ) (e : Text × HashEntry) → not (is_stale now max_age e) ≡ is_kept now max_age e
is_kept-is_stale now max_age e = ground arith

keep_if-same :
    {A : Type 0} (p q : A → Bool)
    → ((x : A) → p x ≡ q x)
    → (xs : List A) → keep_if p xs ≡ keep_if q xs
keep_if-same p q h [] = refl
keep_if-same p q h (x ∷ xs) = ground (arith, h x, keep_if-same p q h xs)

length-erase_at :
    (m : Entries) (i : ℕ) (e : Text × HashEntry)
    → get_elem? m i ≡ some e
    → length m ≡ suc (length (erase_at m i))
length-erase_at [] i e h = cc
length-erase_at (d ∷ m) zero e h = refl
length-erase_at (d ∷ m) (suc i) e h = omega (arith, length-erase_at m i e h)

-- What the loop keeps, in its own words.
abbrev is_not_stale : ℕ → ℕ → Text × HashEntry → Bool
is_not_stale now max_age e = not (is_stale now max_age e)

module _ (now max_age : ℕ) where
  abbrev Fresh : Entries → Type 0
  Fresh m = All (λ e. is_stale now max_age e ≡ false) m

  -- Erasing a stale entry does not change what is to be kept.
  keep_if-erase_at :
      (m : Entries) (i : ℕ) (e : Text × HashEntry)
      → get_elem? m i ≡ some e
      → is_stale now max_age e ≡ true
      → keep_if (is_not_stale now max_age) (erase_at m i) ≡ keep_if (is_not_stale now max_age) m
  keep_if-erase_at [] i e h s = refl
  keep_if-erase_at (d ∷ m) zero e h s =
      let gone : is_stale now max_age d ≡ true = ap (is_stale now max_age) (some_eq h) ∙ s in
      rw gone
    where
      some_eq : {d e : Text × HashEntry} → some d ≡ some e → d ≡ e
      some_eq q = cc
  keep_if-erase_at (d ∷ m) (suc i) e h s = elim (Bool-cases (is_stale now max_age d)) [
    | inl t ↦ rw t (keep_if-erase_at m i e h s)
    | inr t ↦ rw t (ap (◌∷◌ d) (keep_if-erase_at m i e h s))
  ]

  Fresh-take-suc :
      (m : Entries) (i : ℕ) (e : Text × HashEntry)
      → get_elem? m i ≡ some e
      → is_stale now max_age e ≡ false
      → Fresh (take i m)
      → Fresh (take (suc i) m)
  Fresh-take-suc [] i e h s f = tt
  Fresh-take-suc (d ∷ m) zero e h s f = (ground arith, tt)
  Fresh-take-suc (d ∷ m) (suc i) e h s f = (f.0, Fresh-take-suc m i e h s f.1)

  all_kept :
      (m : Entries) (i : ℕ)
      → get_elem? m i ≡ none
      → Fresh (take i m)
      → keep_if (is_not_stale now max_age) m ≡ m
  all_kept [] i h f = refl
  all_kept (d ∷ m) zero h f = cc
  all_kept (d ∷ m) (suc i) h f = rw f.0 (ap (◌∷◌ d) (all_kept m i h f.1))

  in_range : (m : Entries) (i : ℕ) (e : Text × HashEntry) → get_elem? m i ≡ some e → i < length m
  in_range [] i e h = cc
  in_range (d ∷ m) zero e h = omega arith
  in_range (d ∷ m) (suc i) e h = omega (arith, in_range m i e h)

  -- The fuel for what follows the next removal.
  abbrev later_rounds : ℕ → ℕ
  later_rounds zero = 0
  later_rounds (suc n) = rounds n

  rounds_later : (n : ℕ) → rounds n ≡ suc (n + later_rounds n)
  rounds_later zero = refl
  rounds_later (suc n) = refl

  cleanup_loop-keep_if :
      (fuel i : ℕ) (m : Entries)
      → suc (length m - i + later_rounds (length m)) ≤ fuel
      → Fresh (take i m)
      → cleanup_loop fuel now max_age i m ≡ some (keep_if (is_not_stale now max_age) m)
  unfolding cleanup_loop
  cleanup_loop-keep_if zero i m h f = absurd (omega arith)
  cleanup_loop-keep_if (suc fuel) i m h f = elim (Option-cases (get_elem? m i)) [
    | inl g ↦ rw (g, cleanup_loop) (ap some (sym (all_kept m i g f)))
    | inr (e, g) ↦ (elim (Bool-cases (is_stale now max_age e)) [
      | inl s ↦
          let less = length-erase_at m i e g in
          let enough : rounds (length (erase_at m i)) ≤ fuel =
            omega (arith, ap later_rounds less) in
          rw (g, cleanup_loop, s)
            (cleanup_loop-keep_if fuel 0 (erase_at m i)
                (omega (arith, enough, rounds_later (length (erase_at m i)))) tt
              ∙ ap some (keep_if-erase_at m i e g s))
      | inr s ↦
          rw (g, cleanup_loop, s)
            (cleanup_loop-keep_if fuel (suc i) m (omega (arith, in_range m i e g))
              (Fresh-take-suc m i e g s f))
    ])
  ]

-- The loop ends on every set, and leaves the entries that are neither older than the limit nor past their
-- lifetime, in order.
pub cleanup_set-keep_if :
    (s : HashSet) (max_age now : ℕ)
    → cleanup_set s max_age now
      ≡ some (record s { entries = keep_if (is_kept now max_age) s.entries })
unfolding cleanup_set
cleanup_set-keep_if s max_age now = ap (Option.map (λ m. record s { entries = m })) (
    cleanup_loop-keep_if now max_age (rounds (length s.entries)) 0 s.entries
      (omega (arith, rounds_later now max_age (length s.entries))) tt
    ∙ ap some (keep_if-same _ _ (is_kept-is_stale now max_age) s.entries))

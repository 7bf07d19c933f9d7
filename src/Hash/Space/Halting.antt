-- ===== src/Hash/Space/Halting.antt =====
-- cleanHashSpace of bitdht/bdhash.cc ends exactly when it has nothing to erase.
use bitdht.Base.{
  ℕ, zero, suc, ◌%◌, ◌^◌, ◌≡◌, refl, ◌⊎◌, inl, inr, false, none, some, List, [], ◌∷◌, if◌then◌else◌,
  Bool-cases, keep_if, All,
}
use mathlib.Core.Option
use bitdht.Peer.{BdNodeId, node_id_lt}
use bitdht.Multimap
use bitdht.Hash.Cleanup.{is_kept, cleanup_set-keep_if}
use bitdht.Hash.Space.{Table, is_outside, schedule, clean_sets, erase_loop, clean_hash_space}

-- Every id of the table is in the range.
abbrev pub AllInside : BdNodeId → BdNodeId → Table → Type 0
AllInside min max t = All (λ e. is_outside min max e.0 ≡ false) t

-- The table with the sets in the range rid of their stale entries.
abbrev pub clean_table : BdNodeId → BdNodeId → ℕ → ℕ → Table → Table
clean_table min max max_age now [] = []
clean_table min max max_age now ((id, s) ∷ t) =
    (
      id,
      if is_outside min max id
          then s
          else record s { entries = keep_if (is_kept now (max_age % 2 ^ 32)) s.entries },
    )
    ∷ clean_table min max max_age now t

clean_sets-clean_table :
    (min max : BdNodeId) (max_age now : ℕ) (t : Table)
    → clean_sets min max max_age now t ≡ some (clean_table min max max_age now t)
unfolding clean_sets
clean_sets-clean_table min max max_age now [] = refl
clean_sets-clean_table min max max_age now ((id, s) ∷ t) =
    elim (Bool-cases (is_outside min max id)) [
      | inl e ↦ rw (e, clean_sets-clean_table min max max_age now t)
      | inr e ↦ rw (
        e,
        cleanup_set-keep_if s (max_age % 2 ^ 32) now,
        clean_sets-clean_table min max max_age now t,
      )
    ]

-- The front of the list is never taken off it.
erase_loop-none :
    (fuel : ℕ) (id : BdNodeId) (l : List BdNodeId) (t : Table) → erase_loop fuel (id ∷ l) t ≡ none
unfolding erase_loop
erase_loop-none zero id l t = refl
erase_loop-none (suc fuel) id l t = erase_loop-none fuel id l (Multimap.erase node_id_lt id t)

schedule_cases :
    (min max : BdNodeId) (t : Table)
    → (AllInside min max t × (schedule min max t ≡ []))
      ⊎ ((id : BdNodeId) × (l : List BdNodeId) × (schedule min max t ≡ id ∷ l)
          × (¬ AllInside min max t))
unfolding schedule
schedule_cases min max [] = inl (tt, refl)
schedule_cases min max ((id, s) ∷ t) = elim (Bool-cases (is_outside min max id)) [
  | inl e ↦ inr (id, schedule min max t, rw e, λ a. cc (e, a.0))
  | inr e ↦ elim (schedule_cases min max t) [
    | inl (a, h) ↦ inl ((e, a), rw (e, h))
    | inr (i, l, h, n) ↦ inr (i, l, rw (e, h), λ a. n a.1)
  ]
]

-- If every id is in the range, a round of the second loop is enough, and the call leaves every set with its
-- fresh entries. If some id is not, the call does not end within any number of rounds.
pub clean_hash_space_halts :
    (min max : BdNodeId) (max_age now fuel : ℕ) (t : Table)
    → (AllInside min max t
        × (clean_hash_space (suc fuel) min max max_age now t
            ≡ some (clean_table min max max_age now t)))
      ⊎ ((¬ AllInside min max t) × (clean_hash_space (suc fuel) min max max_age now t ≡ none))
unfolding clean_hash_space erase_loop Option.bind
clean_hash_space_halts min max max_age now fuel t = elim (schedule_cases min max t) [
  | inl (a, h) ↦ inl (a, rw (clean_sets-clean_table min max max_age now t, h))
  | inr (id, l, h, n) ↦ inr (
    n,
    rw (clean_sets-clean_table min max max_age now t, h)
        (erase_loop-none (suc fuel) id l (clean_table min max max_age now t)),
  )
]

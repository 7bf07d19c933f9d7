-- ===== src/Multimap/Order.antt =====
-- The entries of a multimap stay in order, and an insertion adds one.
use bitdht.Base.{
  suc, ◌≡◌, refl, ap, Bool, true, false, inl, inr, Bool-cases, List, [], ◌∷◌, ◌++◌, length, All,
  All-map, All-drop_last, arith, drop_last,
}
use mathlib.Core.List.Perm
use mathlib.Core.List.{Perm}
use bitdht.Multimap.{insert}

-- What the proofs about multimaps need of `<`.
pub record IsStrict {ℓ} {K : Type ℓ} (lt : K → K → Bool) : Type ℓ where
  pub irrefl : (a : K) → lt a a ≡ false
  pub trans : (a b c : K) → lt a b ≡ true → lt b c ≡ true → lt a c ≡ true

-- A key above `j` stays above what is below `j`.
above_smaller {ℓ} :
    {K : Type ℓ} (lt : K → K → Bool)
    → IsStrict lt
    → (k j z : K) → lt k j ≡ true
    → lt z j ≡ false
    → lt z k ≡ false
above_smaller lt o k j z h e = ground (arith, o.trans z k j)

module _ {ℓ κ} {K : Type ℓ} {V : Type κ} (lt : K → K → Bool) where
  -- No key is below that of an entry before it.
  abbrev pub IsSorted : List (K × V) → Type ℓ
  IsSorted [] = Unit {ℓ}
  IsSorted ((k, v) ∷ m) = All (λ e. lt e.0 k ≡ false) m × IsSorted m

  pub length-insert : (k : K) (v : V) (m : List (K × V)) → length (insert lt k v m) ≡ suc (length m)
  length-insert k v [] = refl
  length-insert k v ((j, w) ∷ m) = ground (arith, length-insert k v m)

  pub All-insert {μ} :
      (P : K × V → Type μ) (k : K) (v : V) (m : List (K × V))
      → P (k, v)
      → All P m
      → All P (insert lt k v m)
  All-insert P k v [] h hm = (h, tt)
  All-insert P k v ((j, w) ∷ m) h hm = elim (Bool-cases (lt k j)) [
    | inl e ↦ rw e (h, hm)
    | inr e ↦ rw e (hm.0, All-insert P k v m h hm.1)
  ]

  pub insert-IsSorted :
      (o : IsStrict lt) (k : K) (v : V) (m : List (K × V)) → IsSorted m → IsSorted (insert lt k v m)
  insert-IsSorted o k v [] s = (tt, tt)
  insert-IsSorted o k v ((j, w) ∷ m) s = elim (Bool-cases (lt k j)) [
    | inl e ↦ rw e (
      (
        above_smaller lt o k j j e (o.irrefl j),
        All-map (λ d. lt d.0 j ≡ false) (λ d. lt d.0 k ≡ false)
            (λ d h. above_smaller lt o k j d.0 e h) m s.0,
      ),
      s,
    )
    | inr e ↦ rw e (All-insert (λ d. lt d.0 j ≡ false) k v m e s.0, insert-IsSorted o k v m s.1)
  ]

  pub drop_last-IsSorted : (m : List (K × V)) → IsSorted m → IsSorted (drop_last m)
  drop_last-IsSorted [] s = s
  drop_last-IsSorted (e ∷ []) s = tt
  drop_last-IsSorted (e ∷ d ∷ m) s = (All-drop_last _ (d ∷ m) s.0, drop_last-IsSorted (d ∷ m) s.1)

  -- An insertion adds its entry, wherever that goes.
  pub insert-perm : (k : K) (v : V) (m : List (K × V)) → Perm (insert lt k v m) ((k, v) ∷ m)
  insert-perm k v [] = Perm.refl ((k, v) ∷ [])
  insert-perm k v ((j, w) ∷ m) = elim (Bool-cases (lt k j)) [
    | inl e ↦ rw e (Perm.refl ((k, v) ∷ (j, w) ∷ m))
    | inr e ↦ rw e (Perm.trans (Perm.cons (j, w) (insert-perm k v m)) (Perm.swap (k, v) (j, w) m))
  ]

  -- Behind entries with no key above `k` it goes to the end.
  pub insert-append :
      (k : K) (v : V) (m : List (K × V))
      → All (λ e. lt k e.0 ≡ false) m
      → insert lt k v m ≡ m ++ (k, v) ∷ []
  insert-append k v [] h = refl
  insert-append k v ((j, w) ∷ m) h = rw h.0 (ap (◌∷◌ (j, w)) (insert-append k v m h.1))

  All-middle {μ} :
      (P : K × V → Type μ) (m rest : List (K × V)) (e : K × V) → All P (m ++ e ∷ rest) → P e
  All-middle P [] rest e h = h.0
  All-middle P (d ∷ m) rest e h = All-middle P m rest e h.1

  pub IsSorted-middle :
      (k : K) (v : V) (m rest : List (K × V))
      → IsSorted (m ++ (k, v) ∷ rest)
      → All (λ e. lt k e.0 ≡ false) m
  IsSorted-middle k v [] rest s = tt
  IsSorted-middle k v ((j, w) ∷ m) rest s =
      (All-middle (λ e. lt e.0 j ≡ false) m rest (k, v) s.0, IsSorted-middle k v m rest s.1)

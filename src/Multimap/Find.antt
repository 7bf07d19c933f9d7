-- ===== src/Multimap/Find.antt =====
-- What `find` gives after a write or an insertion.
use bitdht.Base.{
  ◌≡◌, refl, sym, ap, Bool, false, not, ◌&&◌, none, some, List, [], ◌∷◌, inl, inr, Bool-cases,
  Option-cases,
}
use mathlib.Core.Option
use bitdht.Multimap

module _ {K V : Type 0} (lt : K → K → Bool) (k : K) (v : V) where
  pub find-replace :
      (w : V) (m : List (K × V))
      → Multimap.find lt k m ≡ some w
      → Multimap.find lt k (Multimap.replace lt k v m) ≡ some v
  find-replace w [] h = cc
  find-replace w ((j, u) ∷ m) h = elim (Bool-cases (not (lt j k) && not (lt k j))) [
    | inl e ↦ rw (e, e) refl
    | inr e ↦ rw (e, e) (find-replace w m (rw e at h))
  ]

  pub find-insert :
      (m : List (K × V))
      → lt k k ≡ false
      → Multimap.find lt k m ≡ none
      → Multimap.find lt k (Multimap.insert lt k v m) ≡ some v
  find-insert [] i h = rw i refl
  find-insert ((j, u) ∷ m) i h = elim (Bool-cases (lt k j)) [
    | inl e ↦ rw (e, i) refl
    | inr e ↦ elim (Bool-cases (not (lt j k) && not (lt k j))) [
      | inl f ↦ absurd (Option.none-ne-some u (sym (rw f at h)))
      | inr f ↦ rw (e, f) (find-insert m i (rw f at h))
    ]
  ]

  -- Another key is found as before.
  pub find-insert_other :
      (other : K) (m : List (K × V))
      → (not (lt k other) && not (lt other k)) ≡ false
      → Multimap.find lt other (Multimap.insert lt k v m) ≡ Multimap.find lt other m
  find-insert_other other [] h = rw h refl
  find-insert_other other ((j, u) ∷ m) h = elim (Bool-cases (lt k j)) [
    | inl e ↦ rw (e, h) refl
    | inr e ↦ rw (e, find-insert_other other m h) refl
  ]

  replace-replace :
      (u : V) (m : List (K × V))
      → Multimap.replace lt k v (Multimap.replace lt k u m) ≡ Multimap.replace lt k v m
  replace-replace u [] = refl
  replace-replace u ((j, w) ∷ m) = elim (Bool-cases (not (lt j k) && not (lt k j))) [
    | inl e ↦ rw (e, e) refl
    | inr e ↦ rw (e, e) (ap (◌∷◌ (j, w)) (replace-replace u m))
  ]

  replace-insert :
      (u : V) (m : List (K × V))
      → lt k k ≡ false
      → Multimap.find lt k m ≡ none
      → Multimap.replace lt k v (Multimap.insert lt k u m) ≡ Multimap.insert lt k v m
  replace-insert u [] i h = rw i refl
  replace-insert u ((j, w) ∷ m) i h = elim (Bool-cases (lt k j)) [
    | inl e ↦ rw (e, i) refl
    | inr e ↦ elim (Bool-cases (not (lt j k) && not (lt k j))) [
      | inl f ↦ absurd (Option.none-ne-some w (sym (rw f at h)))
      | inr f ↦ rw (e, f) (ap (◌∷◌ (j, w)) (replace-insert u m i (rw f at h)))
    ]
  ]

module _ {K V : Type 0} (lt : K → K → Bool) (k : K) (irreflexive : lt k k ≡ false) where
  pub find-assign :
      (v : V) (m : List (K × V)) → Multimap.find lt k (Multimap.assign lt k v m) ≡ some v
  find-assign v m = elim (Option-cases (Multimap.find lt k m)) [
    | inl e ↦ rw e (find-insert lt k v m irreflexive e)
    | inr (w, e) ↦ rw e (find-replace lt k v w m e)
  ]

  -- The later of two writes stays.
  pub assign-assign :
      (u v : V) (m : List (K × V))
      → Multimap.assign lt k v (Multimap.assign lt k u m) ≡ Multimap.assign lt k v m
  assign-assign u v m = elim (Option-cases (Multimap.find lt k m)) [
    | inl e ↦ rw (e, find-insert lt k u m irreflexive e) (replace-insert lt k v u m irreflexive e)
    | inr (w, e) ↦ rw (e, find-replace lt k u w m e) (replace-replace lt k v u m)
  ]

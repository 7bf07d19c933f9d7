-- ===== src/Node/Transactions.antt =====
-- The transaction ids of bdNode::genNewTransId in bitdht/bdnode.cc.
use native.Mathlib.Nat.{pow-suc}
use bitdht.Base.{
  take_all, ℕ, zero, suc, ◌+◌, ◌-◌, ◌*◌, ◌/◌, ◌%◌, ◌^◌, ◌≤◌, ◌<◌, ◌≡◌, refl, sym, ap, ◌∙◌, inl, inr,
  List, [], ◌∷◌, ◌++◌, arith, ltb, length, length-append, Bool-cases,
}
use bitdht.Msgs.{token_max_len}
use bitdht.Node.{decimal, two_wide, trans_id}

-- The number that digits spell, behind a number that is read already.
abbrev read_from : ℕ → List ℕ → ℕ
read_from acc [] = acc
read_from acc (d ∷ ds) = read_from (acc * 10 + (d - 48)) ds

read_from-append :
    (acc : ℕ) (xs ys : List ℕ) → read_from acc (xs ++ ys) ≡ read_from (read_from acc xs) ys
read_from-append acc [] ys = refl
read_from-append acc (x ∷ xs) ys = read_from-append (acc * 10 + (x - 48)) xs ys

read-decimal : (fuel n : ℕ) → n < 10 ^ fuel → read_from 0 (decimal fuel n) ≡ n
unfolding decimal
read-decimal zero n h = omega arith
read-decimal (suc fuel) n h = elim (Bool-cases (ltb n 10)) [
  | inl e ↦ rw e (omega arith)
  | inr e ↦
      rw
        (
          e,
          read_from-append 0 (decimal fuel (n / 10)) ((48 + n % 10) ∷ []),
          read-decimal fuel (n / 10) (omega (arith, pow-suc 10 fuel)),
        )
        (omega arith)
]

length-decimal : (fuel n : ℕ) → length (decimal fuel n) ≤ fuel
unfolding decimal
length-decimal zero n = omega arith
length-decimal (suc fuel) n = elim (Bool-cases (ltb n 10)) [
  | inl e ↦ rw e (omega arith)
  | inr e ↦ rw e (
      omega (
        arith,
        length-append {0} (decimal fuel (n / 10)) ((48 + n % 10) ∷ []),
        length-decimal fuel (n / 10),
      ))
]

read-two_wide : (ds : List ℕ) → read_from 0 (two_wide ds) ≡ read_from 0 ds
read-two_wide [] = refl
read-two_wide (d ∷ []) = refl
read-two_wide (d ∷ e ∷ ds) = refl

length-two_wide : (ds : List ℕ) (n : ℕ) → length ds ≤ n → 2 ≤ n → length (two_wide ds) ≤ n
length-two_wide [] n h k = omega arith
length-two_wide (d ∷ []) n h k = omega arith
length-two_wide (d ∷ e ∷ ds) n h k = omega arith

read-trans_id : (n : ℕ) → n < 2 ^ 64 → read_from 0 (trans_id n) ≡ n
unfolding trans_id
read-trans_id n h =
    let short = length-two_wide (decimal 20 n) token_max_len (length-decimal 20 n) (omega arith) in
    rw (take_all token_max_len (two_wide (decimal 20 n)) short, read-two_wide (decimal 20 n))
      (read-decimal 20 n (omega arith))

-- Two values of the 64-bit counter that give the same transaction id are the same: none of its digits is cut off.
pub trans_id_distinct : (m n : ℕ) → m < 2 ^ 64 → n < 2 ^ 64 → trans_id m ≡ trans_id n → m ≡ n
trans_id_distinct m n h k e = sym (read-trans_id m h) ∙ ap (read_from 0) e ∙ read-trans_id n k

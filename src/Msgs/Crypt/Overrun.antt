-- ===== src/Msgs/Crypt/Overrun.antt =====
-- What bitdht_decrypt of bitdht/bdmsgs.cc does with the datagrams of bitdht_ecrypt.
use bitdht.Base.{
  ℕ, zero, suc, ◌+◌, ◌-◌, drop, set, ltb, false, Bool-cases, inl, inr, ◌≤◌, ◌<◌, ◌≡◌, refl, none,
  List, [], ◌∷◌, arith, length, length-append,
}
use bitdht.Msgs.Crypt.{ecrypt, decrypt, read_token}

length-drop : (k : ℕ) (xs : List ℕ) → length (drop k xs) ≡ length xs - k
length-drop zero xs = omega arith
length-drop (suc k) [] = omega arith
length-drop (suc k) (x ∷ xs) = omega (arith, length-drop k xs)

-- A copy that ends behind the array of four bytes writes past it.
read_token-eq-none :
    (bs : List ℕ) (j : ℕ) (byte : List ℕ)
    → 0 < length bs
    → 4 < j + length bs
    → read_token bs j byte ≡ none
read_token-eq-none [] j byte h k = absurd (omega arith)
read_token-eq-none (b ∷ bs) j byte h k = elim (Bool-cases (ltb j 4)) [
  | inl e ↦
      rw (e, read_token-eq-none bs (suc j) (set byte j b) (ground (arith, e)) (omega arith)) refl
  | inr e ↦ rw e refl
]

-- For a buffer of more than four bytes the loop runs past the union.
pub decrypt-eq-none : (msg : List ℕ) → 4 < length msg → decrypt msg ≡ none
unfolding decrypt
decrypt-eq-none msg h =
    let start : ℕ = length msg - 4 in
    let long : ltb (length msg) 4 ≡ false = ground arith in
    let four : length (drop start msg) ≡ length msg - start = length-drop start msg in
    rw (long, read_token-eq-none (drop start msg) start _ (omega arith) (omega arith)) refl

length-ecrypt_bounds :
    (msg : List ℕ) (avail token : ℕ) → length msg ≤ length (ecrypt msg avail token)
unfolding ecrypt
length-ecrypt_bounds msg avail token = omega (arith, length-append {0} msg _)

-- Whatever the token and the room, reading the token of an encrypted message of more than four bytes runs past the
-- four bytes of the union: it is undefined behaviour.
pub decrypt-ecrypt :
    (msg : List ℕ) (avail token : ℕ) → 4 < length msg → decrypt (ecrypt msg avail token) ≡ none
decrypt-ecrypt msg avail token h =
    decrypt-eq-none (ecrypt msg avail token) (omega (arith, length-ecrypt_bounds msg avail token))

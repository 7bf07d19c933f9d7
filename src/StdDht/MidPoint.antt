-- ===== src/StdDht/MidPoint.antt =====
-- bdStdRandomMidId of bitdht/bdstddht.cc: the disguised target is nearer to the target than the peer.
use bitdht.Base.{
  ℕ, zero, suc, ◌+◌, ◌*◌, ◌^◌, ◌<◌, ◌≡◌, ◌≢◌, refl, sym, ◌∙◌, ◌⊎◌, inl, inr, [], ◌∷◌, ◌==◌,
  Bool-cases, length, bit_xor, All, arith,
}
use bitdht.Base.Bits.{bit_xor_self, bit_xor-eq-zero}
use bitdht.Peer.{BdNodeId, IsByte, IsNodeId, value}
use bitdht.Peer.Order.{value-lt}
use bitdht.StdDht.{std_distance, mid_loop, std_random_mid_id}
use bitdht.StdDht.Metric.{length-std_distance, std_distance-IsByte}

-- Below a digit that is not zero.
below_digit : (d p v w : ℕ) → d ≢ 0 → v < p → v < d * p + w
below_digit zero p v w n h = absurd (n refl)
below_digit (suc d) p v w n h = grind arith

mid_loop-nearer :
    (target other random : BdNodeId)
    → length target ≡ length other
    → length target ≡ length random
    → All IsByte target
    → All IsByte random
    → (value (std_distance target (mid_loop (std_distance target other) target random))
        < value (std_distance target other))
      ⊎ ((target ≡ other) × (mid_loop (std_distance target other) target random ≡ target))
unfolding std_distance mid_loop
mid_loop-nearer [] [] [] p q h k = inr (refl, refl)
mid_loop-nearer [] (y ∷ other) random p q h k = absurd (omega arith)
mid_loop-nearer [] [] (r ∷ random) p q h k = absurd (omega arith)
mid_loop-nearer (x ∷ target) [] random p q h k = absurd (omega arith)
mid_loop-nearer (x ∷ target) (y ∷ other) [] p q h k = absurd (omega arith)
mid_loop-nearer (x ∷ target) (y ∷ other) (r ∷ random) p q h k =
    elim (Bool-cases (bit_xor x y == 0)) [
      | inl same ↦
          let zero_digit : bit_xor x y ≡ 0 = ground arith in
          let ih = mid_loop-nearer target other random (omega arith) (omega arith) h.1 k.1 in
          rw (same, bit_xor_self x, zero_digit)
            (elim ih [
              | inl nearer ↦ inl (omega arith)
              | inr (e, f) ↦ inr (cc (bit_xor-eq-zero x y zero_digit), cc)
            ])
      | inr differs ↦
          let small : value (std_distance target random)
              < 256 ^ length (std_distance target other) =
            rw (length-std_distance target other (omega arith)) (
              rw (length-std_distance target random (omega arith)) at (
                value-lt (std_distance target random)
                  (std_distance-IsByte target random h.1 k.1))) in
          rw (differs, bit_xor_self x)
            (inl (
              omega (
                arith,
                below_digit (bit_xor x y) (256 ^ length (std_distance target other))
                    (value (std_distance target random)) (value (std_distance target other))
                    (ground arith) small,
              )))
    ]

-- For ids of twenty bytes, the point between the target and another id, whatever the random id, has a distance from the target
-- below that of the other id; for equal ids it is the target itself.
pub std_random_mid_id-nearer :
    (target other random : BdNodeId)
    → IsNodeId target
    → IsNodeId other
    → IsNodeId random
    → (value (std_distance target (std_random_mid_id target other random))
        < value (std_distance target other))
      ⊎ ((target ≡ other) × (std_random_mid_id target other random ≡ target))
unfolding std_random_mid_id
std_random_mid_id-nearer target other random h k l =
    mid_loop-nearer target other random (h.len ∙ sym k.len) (h.len ∙ sym l.len) h.bytes l.bytes

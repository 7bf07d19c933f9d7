-- ===== src/StdDht/Buckets.antt =====
-- bdStdBucketDistance of bitdht/bdstddht.cc: the bucket of a metric is the place of its highest bit.
use bitdht.Base.{
  ℕ, zero, suc, ◌+◌, ◌-◌, ◌*◌, ◌/◌, ◌%◌, ◌^◌, ◌≤◌, ◌<◌, ◌≡◌, refl, sym, ap, ◌∙◌, ◌⊎◌, inl, inr,
  true, false, [], ◌∷◌, ltb, ◌==◌, Bool-cases, length, get_or, bit_and, All, arith, subst,
}
use Prim.Native.Nat.add
use native.Mathlib.Nat.{pow-suc, mul-add-div_right, div-eq_of_lt, div-div-eq-div-mul, mul_assoc}
use bitdht.Base.Bits.{bit_and-two_pow}
use bitdht.Peer.{BdMetric, IsByte, IsNodeId, value, key_len}
use bitdht.Peer.Order.{value-lt}
use bitdht.DhtFunctions.{DhtLaws}
use bitdht.StdDht.{std_bucket_distance, bucket_distance_loop, std_dht, key_bitlen}
use bitdht.StdDht.Metric.{std_distance-IsNodeId, std_distance_zero}

two_pow-pos : (k : ℕ) → 0 < 2 ^ k
two_pow-pos zero = omega arith
two_pow-pos (suc k) = omega (arith, pow-suc 2 k, two_pow-pos k)

two_pow-add : (a b : ℕ) → 2 ^ (a + b) ≡ 2 ^ a * 2 ^ b
two_pow-add zero b = ground arith
two_pow-add (suc a) b =
    ap (λ k. 2 ^ k) (add.suc a b)
    ∙ omega
        (arith, pow-suc 2 (a + b), pow-suc 2 a, two_pow-add a b, ap (λ t. t * 2 ^ b) (pow-suc 2 a))

-- 256 ^ n in bits.
byte_pow : (n : ℕ) → 256 ^ n ≡ 2 ^ (8 * n)
byte_pow zero = refl
byte_pow (suc n) =
    pow-suc 256 n
    ∙ ap (λ t. t * 256) (byte_pow n)
    ∙ sym (two_pow-add (8 * n) 8)
    ∙ ap (λ k. 2 ^ k) (omega arith)

-- A digit over a unit `p`, divided by the unit.
quotient : (b p v : ℕ) → v < p → (b * p + v) / p ≡ b
quotient b p v h = mul-add-div_right (omega arith) b v ∙ omega (arith, div-eq_of_lt h)

-- Bit `r` of the number that the bytes spell, in the first byte and behind it.
first_byte_bit : (b v n j : ℕ) → v < 256 ^ n → (b * 256 ^ n + v) / 2 ^ (8 * n + j) ≡ b / 2 ^ j
first_byte_bit b v n j h =
    ap (λ t. (b * 256 ^ n + v) / t) (two_pow-add (8 * n) j ∙ ap (λ t. t * 2 ^ j) (sym (byte_pow n)))
    ∙ sym (div-div-eq-div-mul (b * 256 ^ n + v) (256 ^ n) (2 ^ j))
    ∙ ap (λ t. t / 2 ^ j) (quotient b (256 ^ n) v h)

later_byte_bit : (b v n r : ℕ) → r < 8 * n → (b * 256 ^ n + v) / 2 ^ r % 2 ≡ v / 2 ^ r % 2
later_byte_bit b v n r h =
    let k : ℕ = 8 * n - r - 1 in
    let split : 256 ^ n ≡ 2 ^ k * 2 * 2 ^ r =
      byte_pow n
      ∙ ap (λ t. 2 ^ t) (omega arith)
      ∙ two_pow-add (suc k) r
      ∙ ap (λ t. t * 2 ^ r) (pow-suc 2 k) in
    let whole : b * 256 ^ n ≡ b * (2 ^ k * 2) * 2 ^ r =
      ap (λ t. b * t) split ∙ sym (mul_assoc b (2 ^ k * 2) (2 ^ r)) in
    ap (λ t. (t + v) / 2 ^ r % 2) whole
    ∙ ap (λ t. t % 2) (mul-add-div_right (two_pow-pos r) (b * (2 ^ k * 2)) v)
    ∙ omega (arith, sym (mul_assoc b (2 ^ k) 2))

-- The bit that the loop reads at `i`, of the `r` bits that follow it, is bit `r` of the number.
bit-value :
    (m : BdMetric) (i r : ℕ)
    → All IsByte m
    → suc (i + r) ≡ 8 * length m
    → get_or m (i / 8) 0 / 2 ^ (7 - i % 8) % 2 ≡ value m / 2 ^ r % 2
bit-value [] i r h e = absurd (omega arith)
bit-value (b ∷ bs) i r h e = elim (Bool-cases (ltb i 8)) [
  | inl first ↦
      let byte : i / 8 ≡ 0 = ground arith in
      let bit : i % 8 ≡ i = ground arith in
      let place : r ≡ 8 * length bs + (7 - i) = ground arith in
      rw (byte, bit)
        (ap (λ t. t % 2)
          (sym (first_byte_bit b (value bs) (length bs) (7 - i) (value-lt bs h.1))
            ∙ ap (λ t. (b * 256 ^ length bs + value bs) / 2 ^ t) (sym place)))
  | inr later ↦
      let byte : i / 8 ≡ suc ((i - 8) / 8) = ground arith in
      let bit : i % 8 ≡ (i - 8) % 8 = ground arith in
      rw (byte, bit)
        (bit-value bs (i - 8) r h.1 (ground arith)
          ∙ sym (later_byte_bit b (value bs) (length bs) r (ground arith)))
]

-- The place of the highest bit: of zero it is zero.
abbrev pub HighestBit : ℕ → ℕ → Type 0
HighestBit v b = ((v ≡ 0) × (b ≡ 0)) ⊎ ((2 ^ b ≤ v) × (v < 2 ^ suc b))

-- The bit on the top of a number below `2 ^ suc r`.
top_bit :
    (v r : ℕ)
    → v < 2 ^ suc r
    → ((v / 2 ^ r % 2 ≡ 1) × (2 ^ r ≤ v)) ⊎ ((v / 2 ^ r % 2 ≡ 0) × (v < 2 ^ r))
top_bit v r h = elim (Bool-cases (ltb v (2 ^ r))) [
  | inl small ↦
      let below : v < 2 ^ r = ground arith in inr (omega (arith, div-eq_of_lt below), below)
  | inr large ↦
      let rest : v - 2 ^ r < 2 ^ r = ground (arith, pow-suc 2 r) in
      let split : v ≡ 1 * 2 ^ r + (v - 2 ^ r) = ground arith in
      inl (
        omega (arith, ap (λ t. t / 2 ^ r) split, quotient 1 (2 ^ r) (v - 2 ^ r) rest),
        ground arith,
      )
]

bucket_distance_loop-lt :
    (m : BdMetric) (rounds i : ℕ) → bucket_distance_loop m rounds i < key_bitlen
unfolding bucket_distance_loop
bucket_distance_loop-lt m zero i = omega arith
bucket_distance_loop-lt m (suc r) i = ground (arith, bucket_distance_loop-lt m r (i + 1))

bucket_distance_loop-HighestBit :
    (m : BdMetric) (rounds i : ℕ)
    → All IsByte m
    → length m ≡ key_len
    → i + rounds ≡ key_bitlen
    → value m < 2 ^ rounds
    → HighestBit (value m) (bucket_distance_loop m rounds i)
unfolding bucket_distance_loop
bucket_distance_loop-HighestBit m zero i h l e b = inl (omega arith, refl)
bucket_distance_loop-HighestBit m (suc r) i h l e b =
    let comp : ℕ = 2 ^ (7 - i % 8) in
    let test : bit_and comp (get_or m (i / 8) 0) ≡ value m / 2 ^ r % 2 * comp =
      bit_and-two_pow (7 - i % 8) (get_or m (i / 8) 0)
      ∙ ap (λ t. t * comp) (bit-value m i r h (omega arith)) in
    elim (top_bit (value m) r b) [
      | inl (set, above) ↦
          let hit : (bit_and comp (get_or m (i / 8) 0) == 0) ≡ false =
            ground (arith, test, ap (λ t. t * comp) set, two_pow-pos (7 - i % 8)) in
          rw hit (subst (HighestBit (value m)) {x = r} (omega arith) (inr (above, b)))
      | inr (clear, below) ↦
          let miss : (bit_and comp (get_or m (i / 8) 0) == 0) ≡ true =
            ground (arith, test, ap (λ t. t * comp) clear) in
          rw miss (bucket_distance_loop-HighestBit m r (i + 1) h l (omega arith) below)
    ]

-- The bucket of a metric of twenty bytes is the place of the highest bit of its number, counted from zero; the bucket of
-- zero is zero. So it is below the 160 buckets.
pub std_bucket_distance-HighestBit :
    (m : BdMetric)
    → IsNodeId m
    → HighestBit (value m) (std_bucket_distance m) × (std_bucket_distance m < key_bitlen)
unfolding std_bucket_distance
std_bucket_distance-HighestBit m v = (
  bucket_distance_loop-HighestBit m key_bitlen 0 v.bytes v.len refl (
      subst (λ n. value m < n) (byte_pow (length m) ∙ ap (λ n. 2 ^ (8 * n)) v.len)
        (value-lt m v.bytes)),
  bucket_distance_loop-lt m key_bitlen 0,
)

-- The standard DHT gives the routing table and the queries what they rely on.
pub std_dht-DhtLaws : DhtLaws std_dht
unfolding std_bucket_distance
std_dht-DhtLaws = record {
  room = omega arith;
  bucket_in_range = λ m. bucket_distance_loop-lt m key_bitlen 0;
  distance-IsNodeId = std_distance-IsNodeId;
  distance_zero = std_distance_zero;
}

-- ===== src/StdDht/Metric.antt =====
-- The distance of bitdht/bdstddht.cc: a metric on the key space, and its buckets.
use bitdht.Base.{
  ℕ, ◌+◌, ◌*◌, ◌^◌, ◌≤◌, ◌≡◌, refl, sym, ap, ◌∙◌, ◌↔◌, [], ◌∷◌, length, replicate, bit_xor, All,
  arith, subst,
}
use native.Mathlib.Nat.{mul-le-mul_right}
use bitdht.Base.Bits.{bit_xor_comm, bit_xor_cancel, bit_xor_self, bit_xor-lt, bit_xor_triangle}
use bitdht.Peer.{BdNodeId, IsByte, IsNodeId, value, key_len, zero_node_id}
use bitdht.StdDht.{std_distance}

pub std_distance_comm : (a b : BdNodeId) → std_distance a b ≡ std_distance b a
unfolding std_distance
std_distance_comm [] [] = refl
std_distance_comm [] (y ∷ b) = refl
std_distance_comm (x ∷ a) [] = refl
std_distance_comm (x ∷ a) (y ∷ b) = cc (bit_xor_comm x y, std_distance_comm a b)

pub length-std_distance :
    (a b : BdNodeId) → length a ≡ length b → length (std_distance a b) ≡ length a
unfolding std_distance
length-std_distance [] b e = refl
length-std_distance (x ∷ a) [] e = absurd (omega arith)
length-std_distance (x ∷ a) (y ∷ b) e = omega (arith, length-std_distance a b (omega arith))

pub std_distance-IsByte :
    (a b : BdNodeId) → All IsByte a → All IsByte b → All IsByte (std_distance a b)
unfolding std_distance
std_distance-IsByte [] b h k = tt
std_distance-IsByte (x ∷ a) [] h k = tt
std_distance-IsByte (x ∷ a) (y ∷ b) h k =
    (bit_xor-lt 8 x y h.0 k.0, std_distance-IsByte a b h.1 k.1)

pub std_distance-IsNodeId : (a b : BdNodeId) → IsNodeId a → IsNodeId b → IsNodeId (std_distance a b)
std_distance-IsNodeId a b h k = record {
  len = length-std_distance a b (h.len ∙ sym k.len) ∙ h.len;
  bytes = std_distance-IsByte a b h.bytes k.bytes;
}

std_distance_self : (a : BdNodeId) → std_distance a a ≡ replicate (length a) 0
unfolding std_distance
std_distance_self [] = refl
std_distance_self (x ∷ a) = cc (bit_xor_self x, std_distance_self a)

-- Equal distances from `a` are those of equal ids; in particular the zeros.
std_distance_injective :
    (a b c : BdNodeId)
    → length a ≡ length b
    → length a ≡ length c
    → std_distance a b ≡ std_distance a c
    → b ≡ c
unfolding std_distance
std_distance_injective [] [] [] p q e = refl
std_distance_injective [] (y ∷ b) c p q e = absurd (omega arith)
std_distance_injective [] [] (z ∷ c) p q e = absurd (omega arith)
std_distance_injective (x ∷ a) [] c p q e = absurd (omega arith)
std_distance_injective (x ∷ a) (y ∷ b) [] p q e = absurd (omega arith)
std_distance_injective (x ∷ a) (y ∷ b) (z ∷ c) p q e = ground (
  arith,
  bit_xor_cancel x y,
  bit_xor_cancel x z,
  std_distance_injective a b c (omega arith) (omega arith),
)

pub std_distance_zero :
    (a b : BdNodeId) → IsNodeId a → IsNodeId b → (std_distance a b ≡ zero_node_id) ↔ (a ≡ b)
std_distance_zero a b h k = (
  λ e. sym (std_distance_injective a b a (h.len ∙ sym k.len) refl (e ∙ sym (zero_self a h.len))),
  λ e. subst (λ c. std_distance a c ≡ zero_node_id) e (zero_self a h.len),
)
  where
    zero_self : (a : BdNodeId) → length a ≡ key_len → std_distance a a ≡ zero_node_id
    zero_self a e = std_distance_self a ∙ ap (λ n. replicate n 0) e

digit_triangle : (p i j k u v w : ℕ) → i ≤ j + k → u ≤ v + w → i * p + u ≤ j * p + v + (k * p + w)
digit_triangle p i j k u v w h g = grind (arith, mul-le-mul_right {m = i} {n = j + k} p h)

std_distance_triangle :
    (a b c : BdNodeId)
    → length a ≡ length b
    → length b ≡ length c
    → value (std_distance a c) ≤ value (std_distance a b) + value (std_distance b c)
unfolding std_distance
std_distance_triangle [] [] [] p q = omega arith
std_distance_triangle [] (y ∷ b) c p q = absurd (omega arith)
std_distance_triangle [] [] (z ∷ c) p q = absurd (omega arith)
std_distance_triangle (x ∷ a) [] c p q = absurd (omega arith)
std_distance_triangle (x ∷ a) (y ∷ b) [] p q = absurd (omega arith)
std_distance_triangle (x ∷ a) (y ∷ b) (z ∷ c) p q =
    rw
      (
        length-std_distance a c (omega arith),
        length-std_distance a b (omega arith),
        length-std_distance b c (omega arith) ∙ sym length_eq,
      )
      (digit_triangle (256 ^ length a) (bit_xor x z) (bit_xor x y) (bit_xor y z)
        (value (std_distance a c)) (value (std_distance a b)) (value (std_distance b c))
        (bit_xor_triangle x y z) (std_distance_triangle a b c (omega arith) (omega arith)))
  where
    length_eq : length a ≡ length b
    length_eq = omega arith

-- The distance is a metric on the ids of twenty bytes: it is a node id itself, symmetric, zero for equal ids and
-- only for those, and as a number it obeys the triangle inequality. From one id, every other id has a
-- distance of its own.
pub std_distance_metric :
    (a b c : BdNodeId)
    → IsNodeId a
    → IsNodeId b
    → IsNodeId c
    → IsNodeId (std_distance a b)
      × (std_distance a b ≡ std_distance b a)
      × ((std_distance a b ≡ zero_node_id) ↔ (a ≡ b))
      × (value (std_distance a c) ≤ value (std_distance a b) + value (std_distance b c))
      × ((std_distance a b ≡ std_distance a c) ↔ (b ≡ c))
std_distance_metric a b c h k l = (
  std_distance-IsNodeId a b h k,
  std_distance_comm a b,
  std_distance_zero a b h k,
  std_distance_triangle a b c (h.len ∙ sym k.len) (k.len ∙ sym l.len),
  (
    std_distance_injective a b c (h.len ∙ sym k.len) (h.len ∙ sym l.len),
    λ e. ap (std_distance a) e,
  ),
)

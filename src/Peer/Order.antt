-- ===== src/Peer/Order.antt =====
-- The comparison operators of bitdht/bdpeer.cc against the order of the 160-bit numbers.
use bitdht.Base.{
  ℕ, ◌+◌, ◌*◌, ◌^◌, ◌≤◌, ◌<◌, ◌≡◌, refl, sym, ◌∙◌, ◌≢◌, ◌⊎◌, inl, inr, ◌↔◌, true, false, not, ◌&&◌,
  List, [], ◌∷◌, length, All, arith,
}
use bitdht.Multimap.Order.{IsStrict}
use bitdht.Peer.{BdNodeId, BdId, IsByte, IsNodeId, value, node_id_lt, node_id_eq, id_lt, id_eq}

-- A digit and a remainder below the unit.
digit_lt : (a b p v w : ℕ) → a < b → v < p → a * p + v < b * p + w
digit_lt a b p v w h k = grind arith

pub value-lt : (xs : List ℕ) → All IsByte xs → value xs < 256 ^ length xs
value-lt [] h = omega arith
value-lt (x ∷ xs) h = grind (arith, value-lt xs h.1)

-- Both orders at once.
abbrev Agrees : BdNodeId → BdNodeId → Type 0
Agrees xs ys =
    ((node_id_lt xs ys ≡ true) × (value xs < value ys))
    ⊎ ((node_id_lt xs ys ≡ false) × (value ys ≤ value xs))

node_id_lt-Agrees :
    (xs ys : BdNodeId) → length xs ≡ length ys → All IsByte xs → All IsByte ys → Agrees xs ys
unfolding node_id_lt
node_id_lt-Agrees [] [] e h k = inr (refl, omega arith)
node_id_lt-Agrees [] (y ∷ ys) e h k = absurd (omega arith)
node_id_lt-Agrees (x ∷ xs) [] e h k = absurd (omega arith)
node_id_lt-Agrees (x ∷ xs) (y ∷ ys) e h k = ground (
  arith,
  node_id_lt-Agrees xs ys (omega arith) h.1 k.1,
  value-lt xs h.1,
  value-lt ys k.1,
  digit_lt x y (256 ^ length xs) (value xs) (value ys),
  digit_lt y x (256 ^ length xs) (value ys) (value xs),
)

-- Equal values have equal bytes, both ways as the loops over the two arrays see it.
node_id_eq-Agrees :
    (xs ys : BdNodeId)
    → length xs ≡ length ys
    → All IsByte xs
    → All IsByte ys
    → ((node_id_eq xs ys ≡ true) × (xs ≡ ys) × (value xs ≡ value ys))
      ⊎ ((node_id_eq xs ys ≡ false) × (value xs ≢ value ys))
unfolding node_id_eq
node_id_eq-Agrees [] [] e h k = inl (refl, refl, refl)
node_id_eq-Agrees [] (y ∷ ys) e h k = absurd (omega arith)
node_id_eq-Agrees (x ∷ xs) [] e h k = absurd (omega arith)
node_id_eq-Agrees (x ∷ xs) (y ∷ ys) e h k = ground (
  arith,
  node_id_eq-Agrees xs ys (omega arith) h.1 k.1,
  value-lt xs h.1,
  value-lt ys k.1,
  digit_lt x y (256 ^ length xs) (value xs) (value ys),
  digit_lt y x (256 ^ length xs) (value ys) (value xs),
)

-- On ids of twenty bytes `<` is the order of the numbers that the bytes spell.
pub node_id_lt-iff-lt :
    (a b : BdNodeId) → IsNodeId a → IsNodeId b → (node_id_lt a b ≡ true) ↔ (value a < value b)
node_id_lt-iff-lt a b h k =
    ground (arith, node_id_lt-Agrees a b (h.len ∙ sym k.len) h.bytes k.bytes)

-- On ids of twenty bytes `==` decides equality, and neither `<` holds exactly then.
pub node_id_eq-iff-eq :
    (a b : BdNodeId)
    → IsNodeId a
    → IsNodeId b
    → ((node_id_eq a b ≡ true) ↔ (a ≡ b))
      × ((node_id_eq a b ≡ true) ↔ ((node_id_lt a b ≡ false) × (node_id_lt b a ≡ false)))
node_id_eq-iff-eq a b h k = ground (
  arith,
  node_id_eq-Agrees a b (h.len ∙ sym k.len) h.bytes k.bytes,
  node_id_lt-Agrees a b (h.len ∙ sym k.len) h.bytes k.bytes,
  node_id_lt-Agrees b a (k.len ∙ sym h.len) k.bytes h.bytes,
)

pub node_id_lt_self : (xs : BdNodeId) → node_id_lt xs xs ≡ false
unfolding node_id_lt
node_id_lt_self [] = refl
node_id_lt_self (x ∷ xs) = ground (arith, node_id_lt_self xs)

-- Two ids, of node ids of twenty bytes, are each `<` the other exactly when they share the node id and one has the higher address
-- and the lower port: there the operator is no strict order.
pub id_lt_both_ways :
    (a b : BdId)
    → IsNodeId a.id
    → IsNodeId b.id
    → ((id_lt a b ≡ true) × (id_lt b a ≡ true)) ↔ (
        (a.id ≡ b.id)
        × (((b.addr.s_addr < a.addr.s_addr) × (a.addr.sin_port < b.addr.sin_port))
            ⊎ ((a.addr.s_addr < b.addr.s_addr) × (b.addr.sin_port < a.addr.sin_port))))
unfolding id_lt
id_lt_both_ways a b h k = ground (
  arith,
  node_id_eq-iff-eq a.id b.id h k,
  node_id_lt-Agrees a.id b.id (h.len ∙ sym k.len) h.bytes k.bytes,
  node_id_lt-Agrees b.id a.id (k.len ∙ sym h.len) k.bytes h.bytes,
)

-- On ids, of node ids of twenty bytes, `==` compares the node id, the address and the port, and nothing else.
pub id_eq_iff :
    (a b : BdId)
    → IsNodeId a.id
    → IsNodeId b.id
    → (id_eq a b ≡ true)
      ↔ ((a.id ≡ b.id) × (a.addr.s_addr ≡ b.addr.s_addr) × (a.addr.sin_port ≡ b.addr.sin_port))
unfolding id_eq
id_eq_iff a b h k = ground (arith, node_id_eq-iff-eq a.id b.id h k)

node_id_lt_trans :
    (a b c : BdNodeId) → node_id_lt a b ≡ true → node_id_lt b c ≡ true → node_id_lt a c ≡ true
unfolding node_id_lt
node_id_lt_trans [] b c h k = cc
node_id_lt_trans (x ∷ a) [] c h k = cc
node_id_lt_trans (x ∷ a) (y ∷ b) [] h k = cc
node_id_lt_trans (x ∷ a) (y ∷ b) (z ∷ c) h k = ground (arith, node_id_lt_trans a b c)

pub node_id_lt-IsStrict : IsStrict node_id_lt
node_id_lt-IsStrict = record { irrefl = node_id_lt_self; trans = node_id_lt_trans }

pub node_id_eq_self : (xs : BdNodeId) → node_id_eq xs xs ≡ true
unfolding node_id_eq
node_id_eq_self [] = refl
node_id_eq_self (x ∷ xs) = ground (arith, node_id_eq_self xs)

pub id_eq_self : (a : BdId) → id_eq a a ≡ true
unfolding id_eq
id_eq_self a = ground (arith, node_id_eq_self a.id)

-- Of two ids, with node ids of twenty bytes, neither is `<` the other exactly if they are `==`, which is what std::map takes for one key.
pub id_eq_same :
    (a b : BdId) → IsNodeId a.id → IsNodeId b.id → (not (id_lt a b) && not (id_lt b a)) ≡ id_eq a b
unfolding id_lt id_eq
id_eq_same a b h k = ground (
  arith,
  node_id_eq-iff-eq a.id b.id h k,
  node_id_lt-Agrees a.id b.id (h.len ∙ sym k.len) h.bytes k.bytes,
  node_id_lt-Agrees b.id a.id (k.len ∙ sym h.len) k.bytes h.bytes,
)

-- ===== src/Msgs/Compact/RoundTrip.antt =====
-- The compact forms of bitdht/bdmsgs.cc hold an id and its address, and nothing else.
use bitdht.Base.{
  take_all, ℕ, zero, suc, ◌*◌, ◌/◌, ◌^◌, ◌<◌, ◌≡◌, refl, ap, false, some, List, [], ◌∷◌, ◌++◌,
  arith, ltb, length, take, drop, All, length-append,
}
use bitdht.Peer.{SockaddrIn, BdId, af_inet, key_len, IsNodeId}
use bitdht.Msgs.{got}
use bitdht.Msgs.Compact.{
  compact_node_id_len, compact_ids, encode_compact_peer_id, decode_compact_peer_id,
  encode_compact_node_id, decode_compact_node_id, make_compact_id_list_string, get_list_bd_ids,
  get_bd_id, make_compact_bd_id_string, split_ids,
}

-- An address of the family AF_INET, with 32 bits of address and 16 of port.
pub record IsAddr (a : SockaddrIn) : Type 0 where
  pub family : a.sin_family ≡ af_inet
  pub addr : a.s_addr < 2 ^ 32
  pub port : a.sin_port < 2 ^ 16

pub record IsCompact (id : BdId) : Type 0 where
  pub node_id : IsNodeId id.id
  pub addr : IsAddr id.addr

take-append_exact {ℓ} :
    {A : Type ℓ} (xs ys : List A) (n : ℕ) → length xs ≡ n → take n (xs ++ ys) ≡ xs
take-append_exact [] ys zero h = refl
take-append_exact [] ys (suc n) h = absurd (omega arith)
take-append_exact (x ∷ xs) ys zero h = absurd (omega arith)
take-append_exact (x ∷ xs) ys (suc n) h = ap (◌∷◌ x) (take-append_exact xs ys n (omega arith))

drop-append_exact {ℓ} :
    {A : Type ℓ} (xs ys : List A) (n : ℕ) → length xs ≡ n → drop n (xs ++ ys) ≡ ys
drop-append_exact [] ys zero h = refl
drop-append_exact [] ys (suc n) h = absurd (omega arith)
drop-append_exact (x ∷ xs) ys zero h = absurd (omega arith)
drop-append_exact (x ∷ xs) ys (suc n) h = drop-append_exact xs ys n (omega arith)

-- The six bytes give the address back.
pub decode-encode_compact_peer_id :
    (a : SockaddrIn) → IsAddr a → decode_compact_peer_id (encode_compact_peer_id a) ≡ some a
unfolding decode_compact_peer_id encode_compact_peer_id
decode-encode_compact_peer_id a h = ground arith

length-encode_compact_peer_id : (a : SockaddrIn) → length (encode_compact_peer_id a) ≡ 6
unfolding encode_compact_peer_id
length-encode_compact_peer_id a = refl

pub length-encode_compact_node_id :
    (id : BdId) → IsNodeId id.id → length (encode_compact_node_id id) ≡ compact_node_id_len
unfolding encode_compact_node_id
length-encode_compact_node_id id h = omega (
  arith,
  length-append {0} id.id (encode_compact_peer_id id.addr),
  length-encode_compact_peer_id id.addr,
)

-- An id of twenty bytes with an address of the family AF_INET is read back from its compact form.
pub decode-encode_compact_node_id :
    (id : BdId) → IsCompact id → decode_compact_node_id (encode_compact_node_id id) ≡ some id
unfolding decode_compact_node_id encode_compact_node_id
decode-encode_compact_node_id id h =
    let long : ltb (length (id.id ++ encode_compact_peer_id id.addr)) compact_node_id_len ≡ false =
      ground (
        arith,
        length-append {0} id.id (encode_compact_peer_id id.addr),
        length-encode_compact_peer_id id.addr,
      ) in
    rw
      (
        long,
        take-append_exact id.id (encode_compact_peer_id id.addr) key_len h.node_id.len,
        drop-append_exact id.id (encode_compact_peer_id id.addr) key_len h.node_id.len,
        decode-encode_compact_peer_id id.addr h.addr,
      )
      refl

length-compact_ids :
    (ids : List BdId)
    → All IsCompact ids
    → length (compact_ids ids) ≡ compact_node_id_len * length ids
length-compact_ids [] h = refl
length-compact_ids (id ∷ ids) h = omega (
  arith,
  length-append {0} (encode_compact_node_id id) (compact_ids ids),
  length-encode_compact_node_id id h.0.node_id,
  length-compact_ids ids h.1,
)

split-compact_ids :
    (ids : List BdId) → All IsCompact ids → split_ids (length ids) (compact_ids ids) ≡ ids
split-compact_ids [] h = refl
split-compact_ids (id ∷ ids) h =
    let len = length-encode_compact_node_id id h.0.node_id in
    rw
      (
        take-append_exact (encode_compact_node_id id) (compact_ids ids) compact_node_id_len len,
        drop-append_exact (encode_compact_node_id id) (compact_ids ids) compact_node_id_len len,
        decode-encode_compact_node_id id h.0,
      )
      (ap (◌∷◌ id) (split-compact_ids ids h.1))

-- The ids that a reply is built with are the ids that its receiver reads, in their order, where each id has twenty
-- bytes and an address of the family AF_INET.
pub get_list_bd_ids-make :
    (ids : List BdId)
    → All IsCompact ids
    → get_list_bd_ids (make_compact_id_list_string ids) ≡ got ids
unfolding get_list_bd_ids make_compact_id_list_string
get_list_bd_ids-make ids h =
    let len = length-compact_ids ids h in
    let count : length (compact_ids ids) / compact_node_id_len ≡ length ids = omega (arith, len) in
    rw (take_all (compact_node_id_len * length ids) (compact_ids ids) (omega (arith, len)), count)
      (ap got (split-compact_ids ids h))

pub get_bd_id-make : (id : BdId) → IsCompact id → get_bd_id (make_compact_bd_id_string id) ≡ got id
unfolding get_bd_id make_compact_bd_id_string
get_bd_id-make id h =
    let len = length-encode_compact_node_id id h.node_id in
    rw
      (
        take_all compact_node_id_len (encode_compact_node_id id) (omega (arith, len)),
        decode-encode_compact_node_id id h,
      )
      refl

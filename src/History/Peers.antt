-- ===== src/History/Peers.antt =====
-- bdHistory of bitdht/bdhistory.cc: a message is recorded for its peer and for no other.
use bitdht.Base.{
  ℕ, ◌%◌, ◌^◌, ◌≤◌, ◌<◌, ◌≡◌, refl, sym, ap, ◌∙◌, Bool, true, false, not, ◌&&◌, ◌||◌, Option, none,
  some, [], ◌∷◌, inl, inr, ◌==◌, Bool-cases, length, All, arith,
}
use bitdht.Multimap
use bitdht.Multimap.Find.{find-replace, find-insert, find-insert_other}
use bitdht.Peer.{BdId, IsNodeId, id_lt, id_eq}
use bitdht.Peer.Order.{id_eq_iff, id_eq_same, node_id_lt_self}
use bitdht.History.{
  MsgHistoryList, History, add_msg, list_valid_peer, record_msg, can_send, valid_peer, record_found,
  can_send_found, valid_peer_found,
}
use bitdht.History.Messages.{add_msg-list_valid_peer, add_msg-list_can_send}

find-replace_other :
    (id other : BdId) (v : MsgHistoryList) (h : History)
    → IsNodeId id.id
    → IsNodeId other.id
    → All (λ e. IsNodeId e.0.id) h
    → id_eq id other ≡ false
    → Multimap.find id_lt other (Multimap.replace id_lt id v h) ≡ Multimap.find id_lt other h
find-replace_other id other v [] n o a d = refl
find-replace_other id other v ((j, u) ∷ h) n o a d =
    elim (Bool-cases (not (id_lt j id) && not (id_lt id j))) [
      | inl e ↦
          let same : id_eq j id ≡ true = ground (arith, id_eq_same j id a.0 n, e) in
          let differs : (not (id_lt j other) && not (id_lt other j)) ≡ false = ground (
            arith,
            id_eq_same j other a.0 o,
            same,
            d,
            id_eq_iff j id a.0 n,
            id_eq_iff j other a.0 o,
            id_eq_iff id other n o,
          ) in
          rw (e, differs) refl
      | inr e ↦ rw (e, find-replace_other id other v h n o a.1 d) refl
    ]

id_lt_self : (a : BdId) → id_lt a a ≡ false
unfolding id_lt
id_lt_self a = ground (arith, node_id_lt_self a.id)

-- The messages of a peer, none if there is no list for it.
abbrev found_messages : Option MsgHistoryList → MsgHistoryList
found_messages (some m) = m
found_messages none = []

abbrev pub messages : BdId → History → MsgHistoryList
messages id h = found_messages (Multimap.find id_lt id h)

find-record_found :
    (id : BdId) (msg_type : ℕ) (incoming : Bool) (now : ℕ) (h : History) (o : Option MsgHistoryList)
    → Multimap.find id_lt id h ≡ o
    → Multimap.find id_lt id (record_found id msg_type incoming now h o)
      ≡ some (add_msg now msg_type incoming (found_messages o))
find-record_found id msg_type incoming now h none e =
    find-insert id_lt id (add_msg now msg_type incoming []) h (id_lt_self id) e
find-record_found id msg_type incoming now h (some m) e =
    find-replace id_lt id (add_msg now msg_type incoming m) m h e

valid_peer_found-messages :
    (o : Option MsgHistoryList) → valid_peer_found o ≡ list_valid_peer (found_messages o)
unfolding list_valid_peer
valid_peer_found-messages none = refl
valid_peer_found-messages (some m) = refl

-- A message with a type of at most 16 bits is recorded for its peer: the peer is valid after it exactly if it
-- was valid before or the message came in. If no message of the peer is ahead of the clock, it may be sent to
-- exactly if it had an odd number of messages before this one.
pub record_msg-same :
    (id : BdId) (msg_type : ℕ) (incoming : Bool) (now : ℕ) (h : History)
    → msg_type < 2 ^ 16
    → All (λ e. e.0 ≤ now) (messages id h)
    → (valid_peer id (record_msg id msg_type incoming now h) ≡ (valid_peer id h || incoming))
      × (can_send id now (record_msg id msg_type incoming now h)
          ≡ (length (messages id h) % 2 == 1))
unfolding valid_peer can_send record_msg
record_msg-same id msg_type incoming now h t a =
    let before = Multimap.find id_lt id h in
    let found = find-record_found id msg_type incoming now h before refl in
    (
      ap valid_peer_found found
          ∙ (add_msg-list_valid_peer now msg_type incoming (messages id h) t
              ∙ ap (λ (b : Bool). b || incoming) (sym (valid_peer_found-messages before))),
      ap (can_send_found now) found ∙ add_msg-list_can_send now msg_type incoming (messages id h) a,
    )

find-record_found_other :
    (id other : BdId) (msg_type : ℕ) (incoming : Bool) (now : ℕ) (h : History)
    (o : Option MsgHistoryList)
    → IsNodeId id.id
    → IsNodeId other.id
    → All (λ e. IsNodeId e.0.id) h
    → id_eq id other ≡ false
    → Multimap.find id_lt other (record_found id msg_type incoming now h o)
      ≡ Multimap.find id_lt other h
find-record_found_other id other msg_type incoming now h none n o a d =
    find-insert_other id_lt id (add_msg now msg_type incoming []) other h
      (id_eq_same id other n o ∙ d)
find-record_found_other id other msg_type incoming now h (some m) n o a d =
    find-replace_other id other (add_msg now msg_type incoming m) h n o a d

-- Where all node ids have twenty bytes, a message changes nothing for an id that differs from its own in the node id, the address or the port.
pub record_msg-other :
    (id other : BdId) (msg_type : ℕ) (incoming : Bool) (now later : ℕ) (h : History)
    → IsNodeId id.id
    → IsNodeId other.id
    → All (λ e. IsNodeId e.0.id) h
    → id_eq id other ≡ false
    → (valid_peer other (record_msg id msg_type incoming now h) ≡ valid_peer other h)
      × (can_send other later (record_msg id msg_type incoming now h) ≡ can_send other later h)
unfolding valid_peer can_send record_msg
record_msg-other id other msg_type incoming now later h n o a d =
    let kept =
      find-record_found_other id other msg_type incoming now h (Multimap.find id_lt id h) n o a d in
    (ap valid_peer_found kept, ap (can_send_found later) kept)

-- ===== src/History.antt =====
-- bdMsgHistoryList and bdHistory of bitdht/bdhistory.h and bitdht/bdhistory.cc: the messages to and from each
-- peer. A list of messages is a multimap from the time to the type with its direction bit; the clock is the
-- argument `now`. Printing is left out.
pub mod Messages
pub mod Peers
use mathlib.Core.Option
use bitdht.Base.{
  ℕ, ◌+◌, ◌*◌, ◌%◌, ◌^◌, Bool, true, false, not, Option, none, some, List, [], ◌∷◌, ltb, ◌==◌,
  if◌then◌else◌, length, any, bit_and, bit_or,
}
use bitdht.Peer.{BdId, id_lt}
use bitdht.Multimap

-- MIN_RESEND_PERIOD in seconds, and the two direction bits.
abbrev pub min_resend_period : ℕ
min_resend_period = 60

abbrev pub msg_direction_incoming : ℕ
msg_direction_incoming = 2 ^ 16

abbrev pub msg_direction_outgoing : ℕ
msg_direction_outgoing = 2 * 2 ^ 16

abbrev pub MsgHistoryList : Type 0
MsgHistoryList = List (ℕ × ℕ)

abbrev pub direction : Bool → ℕ
direction incoming = if incoming then msg_direction_incoming else msg_direction_outgoing

unfoldable pub add_msg : ℕ → ℕ → Bool → MsgHistoryList → MsgHistoryList
add_msg ts msg_type incoming m = Multimap.insert ltb ts (bit_or msg_type (direction incoming)) m

-- The steps from lower_bound(start_ts) to upper_bound(end_ts). The two are in order if the times are.
unfoldable pub msg_count : ℕ → ℕ → MsgHistoryList → ℕ
msg_count start_ts end_ts m =
    length (Multimap.before_upper ltb end_ts (Multimap.from_lower ltb start_ts m))

abbrev pub msg_clear : MsgHistoryList → MsgHistoryList
msg_clear m = []

-- What rbegin gives, if there is anything.
abbrev pub last : MsgHistoryList → Option (ℕ × ℕ)
last [] = none
last (e ∷ []) = some e
last (e ∷ d ∷ m) = last (d ∷ m)

-- The age of the last message, which is not over the period if its time is ahead of the clock.
abbrev pub is_over_period : ℕ → Option (ℕ × ℕ) → Bool
is_over_period now none = false
is_over_period now (some e) = ltb (e.0 + min_resend_period) now

unfoldable pub list_can_send : ℕ → MsgHistoryList → Bool
list_can_send now m = if is_over_period now (last m) then true else length m % 2 == 0

unfoldable pub list_valid_peer : MsgHistoryList → Bool
list_valid_peer m = any (λ e. not (bit_and msg_direction_incoming e.1 == 0)) m

abbrev pub History : Type 0
History = List (BdId × MsgHistoryList)

-- mHistory[*id], which is made empty if it is not there, and the message added to it.
abbrev pub record_found : BdId → ℕ → Bool → ℕ → History → Option MsgHistoryList → History
record_found id msg_type incoming now h (some m) =
    Multimap.replace id_lt id (add_msg now msg_type incoming m) h
record_found id msg_type incoming now h none =
    Multimap.insert id_lt id (add_msg now msg_type incoming []) h

unfoldable pub record_msg : BdId → ℕ → Bool → ℕ → History → History
record_msg id msg_type incoming now h =
    record_found id msg_type incoming now h (Multimap.find id_lt id h)

abbrev pub clear_history : History → History
clear_history h = []

abbrev pub can_send_found : ℕ → Option MsgHistoryList → Bool
can_send_found now (some m) = list_can_send now m
can_send_found now none = true

unfoldable pub can_send : BdId → ℕ → History → Bool
can_send id now h = can_send_found now (Multimap.find id_lt id h)

abbrev pub valid_peer_found : Option MsgHistoryList → Bool
valid_peer_found (some m) = list_valid_peer m
valid_peer_found none = false

unfoldable pub valid_peer : BdId → History → Bool
valid_peer id h = valid_peer_found (Multimap.find id_lt id h)

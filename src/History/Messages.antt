-- ===== src/History/Messages.antt =====
-- bdMsgHistoryList of bitdht/bdhistory.cc: what a new message changes for the count and the two tests.

use bitdht.Base.{
  ℕ, ◌+◌, ◌*◌, ◌%◌, ◌^◌, ◌≤◌, ◌<◌, ◌≡◌, refl, Bool, true, false, not, ◌&&◌, ◌||◌, some, [], ◌∷◌,
  inl, inr, ltb, leb, ◌==◌, if◌then◌else◌, Bool-cases, length, any, count_if, All, bit_and, bit_or,
  arith,
}
use bitdht.Base.Bits.{bit_or_shifted, zero-bit_or, bit_and-two_pow}
use bitdht.Multimap
use bitdht.Multimap.Order.{IsStrict, IsSorted, length-insert, insert-IsSorted}
use bitdht.History.{
  MsgHistoryList, direction, add_msg, msg_count, last, list_can_send, list_valid_peer,
  msg_direction_incoming,
}

-- Whether a message came in.
abbrev is_incoming : ℕ × ℕ → Bool
is_incoming e = not (bit_and msg_direction_incoming e.1 == 0)

is_incoming-direction :
    (ts msg_type : ℕ) (incoming : Bool)
    → msg_type < 2 ^ 16
    → is_incoming (ts, bit_or msg_type (direction incoming)) ≡ incoming
is_incoming-direction ts msg_type true h = ground (
  arith,
  bit_or_shifted 16 0 1 msg_type h,
  zero-bit_or 1,
  bit_and-two_pow 16 (bit_or msg_type (2 ^ 16)),
)
is_incoming-direction ts msg_type false h = ground (
  arith,
  bit_or_shifted 16 0 2 msg_type h,
  zero-bit_or 2,
  bit_and-two_pow 16 (bit_or msg_type (2 * 2 ^ 16)),
)

module _ (p : ℕ × ℕ → Bool) (ts v : ℕ) where
  any-insert : (m : MsgHistoryList) → any p (Multimap.insert ltb ts v m) ≡ (any p m || p (ts, v))
  any-insert [] = ground arith
  any-insert ((j, w) ∷ m) = ground (arith, any-insert m)

  count_if-insert :
      (m : MsgHistoryList)
      → count_if p (Multimap.insert ltb ts v m) ≡ count_if p m + (if p (ts, v) then 1 else 0)
  count_if-insert [] = ground arith
  count_if-insert ((j, w) ∷ m) = ground (arith, count_if-insert m)

-- A peer is valid once a message came in from it: a message with a type of at most 16 bits makes it so exactly
-- if it is incoming, and no message takes it back.
pub add_msg-list_valid_peer :
    (ts msg_type : ℕ) (incoming : Bool) (m : MsgHistoryList)
    → msg_type < 2 ^ 16
    → list_valid_peer (add_msg ts msg_type incoming m) ≡ (list_valid_peer m || incoming)
unfolding list_valid_peer add_msg
add_msg-list_valid_peer ts msg_type incoming m h =
    rw
      (
        any-insert is_incoming ts (bit_or msg_type (direction incoming)) m,
        is_incoming-direction ts msg_type incoming h,
      )
      refl

-- The messages between two times.
abbrev is_between : ℕ → ℕ → ℕ × ℕ → Bool
is_between start_ts end_ts e = leb start_ts e.0 && leb e.0 end_ts

count_if-none :
    (k start_ts end_ts : ℕ) (m : MsgHistoryList)
    → end_ts < k
    → All (λ e. ltb e.0 k ≡ false) m
    → count_if (is_between start_ts end_ts) m ≡ 0
count_if-none k start_ts end_ts [] h a = refl
count_if-none k start_ts end_ts (e ∷ m) h a =
    ground (arith, a.0, count_if-none k start_ts end_ts m h a.1)

length-before_upper :
    (start_ts end_ts : ℕ) (m : MsgHistoryList)
    → IsSorted ltb m
    → All (λ e. ltb e.0 start_ts ≡ false) m
    → length (Multimap.before_upper ltb end_ts m) ≡ count_if (is_between start_ts end_ts) m
length-before_upper start_ts end_ts [] s a = refl
length-before_upper start_ts end_ts ((k, v) ∷ m) s a = elim (Bool-cases (ltb end_ts k)) [
  | inl e ↦ rw e (ground (arith, e, count_if-none k start_ts end_ts m (ground (arith, e)) s.0))
  | inr e ↦ rw e (ground (arith, e, a.0, length-before_upper start_ts end_ts m s.1 a.1))
]

All-above :
    (k start_ts : ℕ) (m : MsgHistoryList)
    → start_ts ≤ k
    → All (λ e. ltb e.0 k ≡ false) m
    → All (λ e. ltb e.0 start_ts ≡ false) m
All-above k start_ts [] h a = tt
All-above k start_ts (e ∷ m) h a = (ground (arith, a.0), All-above k start_ts m h a.1)

msg_count-count_if :
    (start_ts end_ts : ℕ) (m : MsgHistoryList)
    → IsSorted ltb m
    → msg_count start_ts end_ts m ≡ count_if (is_between start_ts end_ts) m
unfolding msg_count
msg_count-count_if start_ts end_ts [] s = refl
msg_count-count_if start_ts end_ts ((k, v) ∷ m) s = elim (Bool-cases (ltb k start_ts)) [
  | inl e ↦ rw e (ground (arith, e, msg_count-count_if start_ts end_ts m s.1))
  | inr e ↦ rw e (
      length-before_upper start_ts end_ts ((k, v) ∷ m) s
        (e, All-above k start_ts m (ground (arith, e)) s.0))
]

ltb-IsStrict : IsStrict ltb
ltb-IsStrict = record { irrefl = λ a. ground arith; trans = λ a b c h k. ground arith }

-- In a list in the order of the times a new message is counted exactly if its time is in the interval, and the messages stay in the order of their
-- times, so that the count of the next call is right again.
pub add_msg-msg_count :
    (ts msg_type start_ts end_ts : ℕ) (incoming : Bool) (m : MsgHistoryList)
    → IsSorted ltb m
    → (msg_count start_ts end_ts (add_msg ts msg_type incoming m)
        ≡ msg_count start_ts end_ts m + (if leb start_ts ts && leb ts end_ts then 1 else 0))
      × IsSorted ltb (add_msg ts msg_type incoming m)
unfolding add_msg
add_msg-msg_count ts msg_type start_ts end_ts incoming m s =
    let v = bit_or msg_type (direction incoming) in
    let sorted = insert-IsSorted ltb ltb-IsStrict ts v m s in
    (
      rw
          (
            msg_count-count_if start_ts end_ts m s,
            msg_count-count_if start_ts end_ts (Multimap.insert ltb ts v m) sorted,
            count_if-insert (is_between start_ts end_ts) ts v m,
          )
          refl,
      sorted,
    )

last-insert :
    (now v : ℕ) (m : MsgHistoryList)
    → All (λ e. e.0 ≤ now) m
    → last (Multimap.insert ltb now v m) ≡ some (now, v)
last-insert now v [] a = refl
last-insert now v ((j, w) ∷ []) a =
    let behind : ltb now j ≡ false = ground (arith, a.0) in rw behind refl
last-insert now v ((j, w) ∷ (i, u) ∷ m) a =
    let rest = last-insert now v ((i, u) ∷ m) a.1 in
    let first : ltb now j ≡ false = ground (arith, a.0) in
    let second : ltb now i ≡ false = ground (arith, a.1.0) in rw (first, second) (rw second at rest)

-- Right after a message at the present time a peer may be sent to exactly if the number of messages before it
-- was odd: one message out waits for the answer or for the period to end.
pub add_msg-list_can_send :
    (now msg_type : ℕ) (incoming : Bool) (m : MsgHistoryList)
    → All (λ e. e.0 ≤ now) m
    → list_can_send now (add_msg now msg_type incoming m) ≡ (length m % 2 == 1)
unfolding list_can_send add_msg
add_msg-list_can_send now msg_type incoming m a =
    let v = bit_or msg_type (direction incoming) in
    let soon : ltb (now + 60) now ≡ false = ground arith in
    rw (last-insert now v m a, soon, length-insert ltb now v m) (ground arith)

-- ===== src/Udp/Ticks.antt =====
-- The loop over tick in UdpBitDht::run of udp/udpbitdht.cc and UdpTunnel::run of udp/udptunnel.cc.
use bitdht.Base.{
  ℕ, zero, suc, ◌-◌, ◌≤◌, ◌<◌, ◌≡◌, refl, sym, ap, ◌∙◌, true, false, Option, none, some, List, [],
  ◌∷◌, ◌++◌, map, ltb, ◌==◌, arith, length, take, drop, take_all, length-take, length-map, ◌⊎◌, inl,
  inr, Bool-cases,
}
use mathlib.Core.List.{map-append}
use bitdht.Node
use bitdht.Node.{NetMsg, first_out}
use bitdht.Udp.{tick, tick_loop, ticks, max_pktsize, max_msg_per_tick}

abbrev pub cut : NetMsg → NetMsg
cut m = record m { bytes = take max_pktsize m.bytes }

take-append-drop : {A : Type 0} (k : ℕ) (xs : List A) → take k xs ++ drop k xs ≡ xs
take-append-drop zero xs = refl
take-append-drop (suc k) [] = refl
take-append-drop (suc k) (x ∷ xs) = ap (◌∷◌ x) (take-append-drop k xs)

length-drop : {A : Type 0} (k : ℕ) (xs : List A) → length (drop k xs) ≡ length xs - k
length-drop zero xs = omega arith
length-drop (suc k) [] = omega arith
length-drop (suc k) (x ∷ xs) = omega (arith, length-drop k xs)

drop_all : {A : Type 0} (k : ℕ) (xs : List A) → length xs ≤ k → drop k xs ≡ []
drop_all zero [] h = refl
drop_all zero (x ∷ xs) h = absurd (omega arith)
drop_all (suc k) [] h = refl
drop_all (suc k) (x ∷ xs) h = drop_all k xs (omega arith)

below-or-above : (a b : ℕ) → (a < b) ⊎ (b ≤ a)
below-or-above a b = ground arith

-- An object that holds messages, of which outgoingMsg gives the first, cut to the room there is.
module _ {A : Type 0} (out : A → ℕ → A × Option NetMsg) (put : List NetMsg → A)
    (empty : out (put []) max_pktsize ≡ (put [], none))
    (first : (m : NetMsg) (ms : List NetMsg)
      → out (put (m ∷ ms)) max_pktsize ≡ (put ms, some (cut m))) where
  tick_loop_lem :
      (k : ℕ) (ms : List NetMsg) → tick_loop out k (put ms) ≡ (put (drop k ms), map cut (take k ms))
  unfolding tick_loop
  tick_loop_lem zero ms = refl
  tick_loop_lem (suc k) [] = rw empty refl
  tick_loop_lem (suc k) (m ∷ ms) = rw (first m ms, tick_loop_lem k ms) refl

  last_tick :
      (ms : List NetMsg)
      → length ms < max_msg_per_tick
      → tick out (put ms) ≡ (put [], map cut ms, false)
  unfolding tick
  last_tick ms h =
      let few : (length (map cut ms) == max_msg_per_tick) ≡ false =
        ground (arith, length-map cut ms) in
      rw
        (
          tick_loop_lem max_msg_per_tick ms,
          drop_all max_msg_per_tick ms (omega arith),
          take_all max_msg_per_tick ms (omega arith),
          few,
        )
        refl

  full_tick :
      (ms : List NetMsg)
      → max_msg_per_tick ≤ length ms
      → tick out (put ms)
        ≡ (put (drop max_msg_per_tick ms), map cut (take max_msg_per_tick ms), true)
  unfolding tick
  full_tick ms h =
      let full : (length (map cut (take max_msg_per_tick ms)) == max_msg_per_tick) ≡ true =
        ground
          (arith, length-map cut (take max_msg_per_tick ms), length-take max_msg_per_tick ms) in
      rw (tick_loop_lem max_msg_per_tick ms, full) refl

  ticks_lem :
      (fuel : ℕ) (ms : List NetMsg)
      → length ms < fuel
      → ticks out fuel (put ms) ≡ some (put [], map cut ms)
  unfolding ticks
  ticks_lem zero ms h = absurd (omega arith)
  ticks_lem (suc fuel) ms h = elim (below-or-above (length ms) max_msg_per_tick) [
    | inl e ↦ rw (last_tick ms e) refl
    | inr e ↦
        let rest : length (drop max_msg_per_tick ms) < fuel =
          omega (arith, length-drop max_msg_per_tick ms) in
        let joined : map cut (take max_msg_per_tick ms) ++ map cut (drop max_msg_per_tick ms)
            ≡ map cut ms =
          sym (map-append cut (take max_msg_per_tick ms) (drop max_msg_per_tick ms))
          ∙ ap (map cut) (take-append-drop max_msg_per_tick ms) in
        rw (full_tick ms e, ticks_lem fuel (drop max_msg_per_tick ms) rest, joined) refl
  ]

first_out-cut :
    (n : Node.Node) (m : NetMsg) (ms : List NetMsg)
    → first_out n (m ∷ ms) max_pktsize ≡ (record n { outgoing_msgs = ms }, some (cut m))
first_out-cut n m ms = elim (Bool-cases (ltb (length m.bytes) max_pktsize)) [
  | inl e ↦
      let whole : take max_pktsize m.bytes ≡ m.bytes =
        take_all max_pktsize m.bytes (ground (arith, e)) in
      rw (e, whole) refl
  | inr e ↦ rw e refl
]

-- The loop of UdpBitDht::run over tick ends, with fuel for one round more than there are messages, if nothing else calls
-- the node meanwhile: every message of the node is sent, in order and cut to 1024 bytes, and none is left.
pub ticks_send_all :
    (n : Node.Node)
    → ticks Node.outgoing_msg (suc (length n.outgoing_msgs)) n
      ≡ some (record n { outgoing_msgs = [] }, map cut n.outgoing_msgs)
unfolding Node.outgoing_msg
ticks_send_all n =
    ticks_lem Node.outgoing_msg (λ ms. record n { outgoing_msgs = ms }) refl
      (λ m ms. first_out-cut (record n { outgoing_msgs = m ∷ ms }) m ms)
      (suc (length n.outgoing_msgs)) n.outgoing_msgs (omega arith)

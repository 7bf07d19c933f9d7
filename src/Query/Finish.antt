-- ===== src/Query/Finish.antt =====
-- nextQuery of bitdht/bdquery.cc: each call asks one more peer, and how a query ends.
use bitdht.Base.{
  ℕ, suc, ◌+◌, ◌-◌, ◌≤◌, ◌<◌, ◌≡◌, ◌≢◌, refl, ◌⊎◌, ◌↔◌, inl, inr, Bool, true, false, ◌||◌, Option,
  none, some, [], ◌∷◌, ltb, ◌==◌, if◌then◌else◌, Bool-cases, length, count_if, All, arith,
}
use mathlib.Core.Option
use bitdht.Peer.{BdNodeId, BdMetric, BdPeer, node_id_eq}
use bitdht.DhtFunctions.{DhtFunctions}
use bitdht.Query
use bitdht.Query.{
  Entries, BdQuery, QueryState, failure, found_closest, peer_unreachable, success, Search, picked,
  exhausted, search_closest, is_querying, has_flag, qflags_do_idle, final_state, finish, is_waiting,
  Answer, target_id, after_search, retry_period, next_query, min_query_age, max_query_age,
}

-- Peers that were never asked.
abbrev pub unasked : Entries → ℕ
unasked m = count_if (λ e. e.1.last_send_time == 0) m

abbrev pub AllReplied : Entries → Type 0
AllReplied m = All (λ e. e.1.last_recv_time ≢ 0) m

-- The second list is the first one with its first entry that was never asked, that of the peer, marked as asked now.
pub data Asked (now : ℕ) (p : BdPeer) : Entries → Entries → Type 0 where
  this :
      (d : BdMetric) (m : Entries)
      → (p.last_send_time == 0) ≡ true
      → Asked now p ((d, p) ∷ m) ((d, record p { last_send_time = now }) ∷ m)
  behind :
      (e : BdMetric × BdPeer) {m m' : Entries}
      → (e.1.last_send_time == 0) ≡ false
      → Asked now p m m'
      → Asked now p (e ∷ m) (e ∷ m')

Asked-unasked :
    {now : ℕ} {p : BdPeer} {m m' : Entries}
    → 0 < now
    → Asked now p m m'
    → unasked m ≡ suc (unasked m')
Asked-unasked h (this d m e) = ground arith
Asked-unasked h (behind e n a) = ground (arith, Asked-unasked h a)

-- Without the idle flag the search picks the first unasked peer and marks it, or shows that there is none.
abbrev SearchSpec : ℕ → Entries → Search → Type 0
SearchSpec now m (picked p m') = Asked now p m m'
SearchSpec now m (exhausted b) =
    (unasked m ≡ 0) × (b ≡ false → AllReplied m) × (AllReplied m → b ≡ false)

behind-SearchSpec :
    (now : ℕ) (e : BdMetric × BdPeer) (m : Entries) (r : Search)
    → (e.1.last_send_time == 0) ≡ false
    → SearchSpec now m r
    → SearchSpec now (e ∷ m) (Query.behind e r)
behind-SearchSpec now e m (picked p m') n s = behind e n s
behind-SearchSpec now e m (exhausted b) n (u, f, g) =
    (ground arith, (λ h. (ground arith, f (ground arith))), λ h. ground (arith, g h.1, h.0))

search_closest-SearchSpec :
    (now period : ℕ) (m : Entries) → SearchSpec now m (search_closest now period false m)
unfolding search_closest
search_closest-SearchSpec now period [] = (refl, (λ h. tt), λ h. refl)
search_closest-SearchSpec now period ((d, p) ∷ m) = elim (Bool-cases (p.last_send_time == 0)) [
  | inl e ↦ rw e (this d m e)
  | inr e ↦ rw e (
      behind-SearchSpec now (d, p) m (search_closest now period false m) e
        (search_closest-SearchSpec now period m))
]

-- Old enough, and out of time or complete.
abbrev pub IsOver : DhtFunctions → BdQuery → ℕ → Type 0
IsOver fns q now =
    (q.query_ts + min_query_age ≤ now)
    × ((q.query_ts + max_query_age < now)
        ⊎ ((fns.nodes_per_bucket ≤ length q.closest) × AllReplied q.closest))

-- The state that the first closest and the first potential peer decide.
abbrev pub EndsIn : BdNodeId → Entries → Entries → QueryState → Type 0
EndsIn id [] potential s = s ≡ failure
EndsIn id (e ∷ m) potential s =
    ((node_id_eq e.1.peer_id.id id ≡ true) × (s ≡ success))
    ⊎ ((f : BdMetric × BdPeer) × (n : Entries) × (potential ≡ f ∷ n)
        × (node_id_eq e.1.peer_id.id id ≡ false)
        × (s ≡ (if node_id_eq f.1.peer_id.id id then peer_unreachable else found_closest)))

-- The first potential peer is read where there is none.
abbrev pub ReadsPastEnd : BdNodeId → Entries → Entries → Type 0
ReadsPastEnd id [] potential = ⊥
ReadsPastEnd id (e ∷ m) potential = (node_id_eq e.1.peer_id.id id ≡ false) × (potential ≡ [])

-- The query but for its closest peers and the period of its retries.
abbrev pub Continues : BdQuery → BdQuery → Type 0
Continues q q' =
    q' ≡ record q { closest = q'.closest; idle_peer_retry_period = q'.idle_peer_retry_period }

-- The query but for its state, its time and the period of its retries.
abbrev pub Ended : BdQuery → BdQuery → Type 0
Ended q q' = q' ≡ record q {
  state = q'.state;
  search_time = q'.search_time;
  idle_peer_retry_period = q'.idle_peer_retry_period;
}

-- What a call of nextQuery comes to, for a query that is being made.
pub data Outcome (fns : DhtFunctions) (q : BdQuery) (now : ℕ) (random : BdNodeId)
    : Answer → Type 0 where
  asks :
      (q' : BdQuery) (p : BdPeer)
      → Continues q q'
      → Asked now p q.closest q'.closest
      → unasked q.closest ≡ suc (unasked q'.closest)
      → Outcome fns q now random (some (q', some (p.peer_id, target_id fns q p.peer_id random)))
  waits :
      (q' : BdQuery)
      → Continues q q'
      → q'.closest ≡ q.closest
      → unasked q.closest ≡ 0
      → ¬ IsOver fns q now
      → Outcome fns q now random (some (q', none))
  ends :
      (q' : BdQuery)
      → Ended q q'
      → unasked q.closest ≡ 0
      → IsOver fns q now
      → EndsIn q.id q.closest q.potential_closest q'.state
      → q'.search_time ≡ now - q.query_ts
      → Outcome fns q now random (some (q', none))
  faults :
      unasked q.closest ≡ 0
      → IsOver fns q now
      → ReadsPastEnd q.id q.closest q.potential_closest
      → Outcome fns q now random none

-- The final state is right, or there is none since a potential peer is missing.
abbrev StateSpec : BdNodeId → Entries → Entries → Option QueryState → Type 0
StateSpec id m n none = ReadsPastEnd id m n
StateSpec id m n (some s) = EndsIn id m n s

final_state-StateSpec : (id : BdNodeId) (m n : Entries) → StateSpec id m n (final_state id m n)
unfolding final_state
final_state-StateSpec id [] n = refl
final_state-StateSpec id (e ∷ m) [] = elim (Bool-cases (node_id_eq e.1.peer_id.id id)) [
  | inl h ↦ rw h (inl (h, refl))
  | inr h ↦ rw h (h, refl)
]
final_state-StateSpec id (e ∷ m) (f ∷ n) = elim (Bool-cases (node_id_eq e.1.peer_id.id id)) [
  | inl h ↦ rw h (inl (h, refl))
  | inr h ↦ rw h (elim (Bool-cases (node_id_eq f.1.peer_id.id id)) [
    | inl g ↦ rw g (inr (f, n, refl, h, rw g))
    | inr g ↦ rw g (inr (f, n, refl, h, rw g))
  ])
]

module _ (fns : DhtFunctions) (q : BdQuery) (now : ℕ) (active : is_querying q.state ≡ true) where
  waiting-IsOver :
      (b : Bool)
      → (b ≡ false → AllReplied q.closest)
      → (AllReplied q.closest → b ≡ false)
      → ((is_waiting fns q now b ≡ true) × (¬ IsOver fns q now))
        ⊎ ((is_waiting fns q now b ≡ false) × IsOver fns q now)
  waiting-IsOver b f g = elim (Bool-cases (ltb now (q.query_ts + min_query_age))) [
    | inl young ↦ inl (rw young, λ o. ground arith)
    | inr grown ↦ elim (Bool-cases (ltb (q.query_ts + max_query_age) now)) [
      | inl old ↦ inr (rw (grown, old), (ground arith, inl (ground arith)))
      | inr fresh ↦ elim (Bool-cases (ltb (length q.closest) fns.nodes_per_bucket || b)) [
        | inl open_ended ↦ inl (
          rw (grown, fresh, open_ended),
          λ o. elim o.1 [
            | inl late ↦ ground arith
            | inr (full, replied) ↦ ground (arith, g replied)
          ],
        )
        | inr complete ↦
            inr (rw (grown, fresh, complete), (ground arith, inr (ground arith, f (ground arith))))
      ]
    ]
  ]

  finish-Outcome :
      (period : ℕ) (random : BdNodeId) (s : Option QueryState)
      → unasked q.closest ≡ 0
      → IsOver fns q now
      → StateSpec q.id q.closest q.potential_closest s
      → Outcome fns q now random (
          Option.map
            (λ r. (r, none))
            (Option.map
              (λ s. record q {
                state = s;
                search_time = if is_querying q.state then now - q.query_ts else q.search_time;
                idle_peer_retry_period = period;
              })
              s))
  finish-Outcome period random none u o w = faults u o w
  finish-Outcome period random (some s) u o w = ends _ refl u o w (rw active)

  after_search-Outcome :
      (period : ℕ) (random : BdNodeId) (r : Search)
      → 0 < now
      → SearchSpec now q.closest r
      → Outcome fns q now random
          (after_search fns (record q { idle_peer_retry_period = period }) now random r)
  unfolding finish
  after_search-Outcome period random (picked p m) h s = asks _ p refl s (Asked-unasked h s)
  after_search-Outcome period random (exhausted b) h (u, f, g) = elim (waiting-IsOver b f g) [
    | inl (w, o) ↦ rw w (waits _ refl refl u o)
    | inr (w, o) ↦ rw w (
        finish-Outcome period random (final_state q.id q.closest q.potential_closest) u o
          (final_state-StateSpec q.id q.closest q.potential_closest))
  ]

-- A call after time zero, for a query that is being made, without the idle flag, does one of four things. It gives the id of
-- the first closest peer that was never asked, with the target, or with a random id between where the query is in
-- disguise, marks that peer as asked now, and leaves one fewer unasked. Or, with every closest peer asked, it waits and
-- keeps the closest peers while the query is not over, ends the query in the state that the first closest and the first
-- potential peer decide with the time since its start, or reads a potential peer that is not there. But for these, and
-- the period of its retries, the query stays as it was.
pub next_query-Outcome :
    (fns : DhtFunctions) (q : BdQuery) (now : ℕ) (random : BdNodeId)
    → is_querying q.state ≡ true
    → has_flag q.query_flags qflags_do_idle ≡ false
    → 0 < now
    → Outcome fns q now random (next_query fns q now random)
unfolding next_query
next_query-Outcome fns q now random active busy h =
    rw (active, busy)
      (after_search-Outcome fns q now active (retry_period q now) random _ h
        (search_closest-SearchSpec now (retry_period q now) q.closest))

Outcome-faults :
    {fns : DhtFunctions} {q : BdQuery} {now : ℕ} {random : BdNodeId} {r : Answer}
    → Outcome fns q now random r
    → r ≡ none
    → (unasked q.closest ≡ 0) × IsOver fns q now × ReadsPastEnd q.id q.closest q.potential_closest
Outcome-faults (asks q' p s a u) e = cc
Outcome-faults (waits q' s c u o) e = cc
Outcome-faults (ends q' r u o w t) e = cc
Outcome-faults (faults u o w) e = (u, o, w)

EndsIn-ReadsPastEnd :
    (id : BdNodeId) (m n : Entries) (s : QueryState) → EndsIn id m n s → ReadsPastEnd id m n → ⊥
EndsIn-ReadsPastEnd id [] n s w p = p
EndsIn-ReadsPastEnd id (e ∷ m) n s (inl (h, t)) p = cc (h, p.0)
EndsIn-ReadsPastEnd id (e ∷ m) n s (inr (f, l, g, h, t)) p = cc (g, p.1)

Outcome-none :
    {fns : DhtFunctions} {q : BdQuery} {now : ℕ} {random : BdNodeId} {r : Answer}
    → Outcome fns q now random r
    → unasked q.closest ≡ 0
    → IsOver fns q now
    → ReadsPastEnd q.id q.closest q.potential_closest
    → r ≡ none
Outcome-none (asks q' t s a u) z o p = absurd (omega arith)
Outcome-none (waits q' s c u n) z o p = absurd (n o)
Outcome-none {q = q} (ends q' r u o' w t) z o p =
    absurd (EndsIn-ReadsPastEnd q.id q.closest q.potential_closest q'.state w p)
Outcome-none (faults u o' w) z o p = refl

-- In such a call the read past the end happens exactly for a query that is over with every closest peer asked, whose first
-- closest peer is not the target, and which has no potential peer.
pub next_query_faults :
    (fns : DhtFunctions) (q : BdQuery) (now : ℕ) (random : BdNodeId)
    → is_querying q.state ≡ true
    → has_flag q.query_flags qflags_do_idle ≡ false
    → 0 < now
    → (next_query fns q now random ≡ none) ↔ (
        (unasked q.closest ≡ 0)
        × IsOver fns q now
        × ReadsPastEnd q.id q.closest q.potential_closest)
next_query_faults fns q now random active busy h =
    let outcome = next_query-Outcome fns q now random active busy h in
    (λ e. Outcome-faults outcome e, λ (u, o, p). Outcome-none outcome u o p)

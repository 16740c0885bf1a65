-- ===== src/Watchdog/InFlight.antt =====
-- src/baileys/connection.ts: the count of sends in flight.
pub mod Exact
use baileys_api.Prelude.{
  ℕ, zero, suc, ◌+◌, ◌≤◌, ◌<◌, ◌≡◌, refl, String, Bool, true, false, Option, none, some, List, [],
  ◌∷◌, ◌++◌, eqb, All, arith, if◌then◌else◌, Option-cases, inl, inr,
}
use baileys_api.Watchdog.{
  Watchdog, Failure, max_in_flight_sends, clear_send_stall_state, release_in_flight,
  track_submitted_id, track_optional_id, claim_ack, AckKey, some_ours, track_acks,
  is_our_submitted_key, note_mutex_wedge, remember_unmatched_ack, matched, park_or_claim, TxPhase,
  acquired, released, stalled, timeout, handle_tx_event, assert_can_send, maybe_report_send_stall,
  record_send_success, record_send_timeout, record_late_settle, Outcome, resolved, rejected,
  build_socket,
}
use baileys_api.Watchdog.Relay.{
  Phase, waiting, abandoned, settled, Send, Sending, get_elem?, set, relay, prepare, submit, Event,
  prepares, submits, relays, settles, expires, transacts, acknowledges, builds, opens, closes,
  drops, discards, ends, handle, step, run, created,
}

-- The slots that a send holds of a socket: one until it is settled.
unfoldable pub holds : ℕ → Send → ℕ
holds generation s = elim s.phase [
  | waiting ↦ if eqb s.generation generation then 1 else 0
  | abandoned ↦ if eqb s.generation generation then 1 else 0
  | settled ↦ 0
]

unfoldable pub holding : ℕ → List Send → ℕ
unfolding holds
holding generation [] = 0
holding generation (s ∷ l) = holds generation s + holding generation l

-- No send is of a socket that is still to come.
unfoldable pub IsPast : ℕ → List Send → Type 0
IsPast generation [] = Unit {0}
IsPast generation (s ∷ l) = (s.generation ≤ generation) × IsPast generation l

pub record IsCounted (r : Sending) : Type 0 where
  pub counted : r.watchdog.in_flight_sends ≡ holding r.watchdog.socket_generation r.sends
  pub bounded : r.watchdog.in_flight_sends ≤ max_in_flight_sends
  pub past : IsPast r.watchdog.socket_generation r.sends

pub holding-append :
    (g : ℕ) (l : List Send) (s : Send) → holding g (l ++ (s ∷ [])) ≡ holding g l + holds g s
unfolding holding
holding-append g [] s = omega arith
holding-append g (x ∷ l) s = omega (arith, holding-append g l s)

pub holding-set :
    (g : ℕ) (l : List Send) (i : ℕ) (s v : Send)
    → get_elem? l i ≡ some s
    → holding g (set l i v) + holds g s ≡ holding g l + holds g v
unfolding holding get_elem? set
holding-set g [] i s v h = cc
holding-set g (x ∷ l) zero s v h = ground arith
holding-set g (x ∷ l) (suc i) s v h = omega (arith, holding-set g l i s v h)

pub IsPast-set :
    (g : ℕ) (l : List Send) (i : ℕ) (v : Send)
    → v.generation ≤ g
    → IsPast g l
    → IsPast g (set l i v)
unfolding IsPast set
IsPast-set g [] i v le h = tt
IsPast-set g (x ∷ l) zero v le h = (le, h.1)
IsPast-set g (x ∷ l) (suc i) v le h = (h.0, IsPast-set g l i v le h.1)

pub IsPast-append :
    (g : ℕ) (l : List Send) (v : Send) → v.generation ≤ g → IsPast g l → IsPast g (l ++ (v ∷ []))
unfolding IsPast
IsPast-append g [] v le h = (le, tt)
IsPast-append g (x ∷ l) v le h = (h.0, IsPast-append g l v le h.1)

pub IsPast-get_elem? :
    (g : ℕ) (l : List Send) (i : ℕ) (s : Send)
    → get_elem? l i ≡ some s
    → IsPast g l
    → s.generation ≤ g
unfolding IsPast get_elem?
IsPast-get_elem? g [] i s e h = cc
IsPast-get_elem? g (x ∷ l) zero s e h = ground arith
IsPast-get_elem? g (x ∷ l) (suc i) s e h = IsPast-get_elem? g l i s e h.1

pub IsPast-suc : (g : ℕ) (l : List Send) → IsPast g l → IsPast (g + 1) l
unfolding IsPast
IsPast-suc g [] h = tt
IsPast-suc g (x ∷ l) h = (omega (arith, h.0), IsPast-suc g l h.1)

pub holding_next : (g : ℕ) (l : List Send) → IsPast g l → holding (g + 1) l ≡ 0
unfolding IsPast holding holds
holding_next g [] h = refl
holding_next g (x ∷ l) h = ground (arith, holding_next g l h.1, h.0)

-- What no part of the watchdog but the relay changes.
pub record SameSlots (v w : Watchdog) : Type 0 where
  pub generation : w.socket_generation ≡ v.socket_generation
  pub in_flight : w.in_flight_sends ≡ v.in_flight_sends

pub track_optional_id-SameSlots :
    (o : Option String) (w : Watchdog) → SameSlots w (track_optional_id o w)
unfolding track_submitted_id
track_optional_id-SameSlots none w = ground arith
track_optional_id-SameSlots (some id) w = ground arith

report-SameSlots : (now : ℕ) (w : Watchdog) → SameSlots w (maybe_report_send_stall now w).0
unfolding maybe_report_send_stall
report-SameSlots now w = ground arith

pub wedge-SameSlots : (e : Failure) (w : Watchdog) → SameSlots w (note_mutex_wedge e w)
unfolding note_mutex_wedge clear_send_stall_state
wedge-SameSlots e w = ground arith

pub success-SameSlots : (now g : ℕ) (w : Watchdog) → SameSlots w (record_send_success now g w)
unfolding record_send_success clear_send_stall_state
success-SameSlots now g w = ground arith

pub timeout-SameSlots : (now g : ℕ) (w : Watchdog) → SameSlots w (record_send_timeout now g w).0
unfolding record_send_timeout maybe_report_send_stall
timeout-SameSlots now g w = ground arith

pub late-SameSlots :
    (now g : ℕ) (o : Outcome) (w : Watchdog) → SameSlots w (record_late_settle now g o w)
unfolding record_late_settle clear_send_stall_state
late-SameSlots now g (resolved id) w =
    ground
      (arith, track_optional_id-SameSlots id w, success-SameSlots now g (track_optional_id id w))
late-SameSlots now g (rejected e) w = ground (arith, wedge-SameSlots e w)

pub tx-SameSlots :
    (now g : ℕ) (phase : TxPhase) (key : String) (w : Watchdog)
    → SameSlots w (handle_tx_event now g phase key w)
unfolding handle_tx_event clear_send_stall_state
tx-SameSlots now g phase key w = ground arith

some_ours-SameSlots :
    (now : ℕ) (l : List (Bool × AckKey)) (w : Watchdog) → SameSlots w (some_ours now l w).0
unfolding some_ours is_our_submitted_key remember_unmatched_ack
some_ours-SameSlots now [] w = ground arith
some_ours-SameSlots now ((false, key) ∷ l) w = some_ours-SameSlots now l w
some_ours-SameSlots now ((true, key) ∷ l) w =
    ground (arith, some_ours-SameSlots now l (is_our_submitted_key now key w).0)

pub acks-SameSlots :
    (now : ℕ) (l : List (Bool × AckKey)) (w : Watchdog) → SameSlots w (track_acks now l w)
unfolding track_acks
acks-SameSlots now l w = ground (arith, some_ours-SameSlots now l w)

pub assert-SameSlots : (now : ℕ) (w : Watchdog) → SameSlots w (assert_can_send now w).0
unfolding assert_can_send
assert-SameSlots now w = ground (arith, report-SameSlots now w)

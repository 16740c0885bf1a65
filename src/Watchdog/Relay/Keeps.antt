-- ===== src/Watchdog/Relay/Keeps.antt =====
-- src/baileys/connection.ts: what each part of the watchdog leaves as it is, event by event.
use baileys_api.Prelude.{
  ℕ, ◌+◌, ◌≤◌, ◌≡◌, inl, inr, refl, String, Bool, true, false, Option, none, some, List, [], ◌∷◌,
  arith, if_both, Option-cases,
}
use baileys_api.Watchdog.{
  Watchdog, Refusal, clear_send_stall_state, track_optional_id, AckKey, track_acks, TxPhase,
  handle_tx_event, assert_can_send, record_send_timeout, Outcome, build_socket,
}
use baileys_api.Watchdog.Relay.{
  Phase, waiting, abandoned, settled, Send, Sending, get_elem?, admitted, relay_admitted, relay,
  prepare_admitted, prepare, submit, in_time, too_late, settle_send, expire_send, Event, prepares,
  submits, relays, settles, expires, transacts, acknowledges, builds, opens, closes, drops,
  discards, ends, handle, step, run,
}

-- A property of the watchdog at a time that no part of it breaks.
pub record Keeps (P : Watchdog → ℕ → Type 0) : Type 0 where
  pub waited : (w : Watchdog) {before after : ℕ} → before ≤ after → P w before → P w after
  pub tracked :
      (o : Option String) (w : Watchdog) {now : ℕ} → P w now → P (track_optional_id o w) now
  pub asserted : (now : ℕ) (w : Watchdog) → P w now → P (assert_can_send now w).0 now
  pub taken :
      (w : Watchdog) {now : ℕ}
      → P w now
      → P (record w { in_flight_sends = w.in_flight_sends + 1 }) now
  pub answered : (now g : ℕ) (o : Outcome) (w : Watchdog) → P w now → P (in_time now g o w).0 now
  pub late : (now g : ℕ) (o : Outcome) (w : Watchdog) → P w now → P (too_late now g o w) now
  pub expired : (now g : ℕ) (w : Watchdog) → P w now → P (record_send_timeout now g w).0 now
  pub transacted :
      (now g : ℕ) (phase : TxPhase) (key : String) (w : Watchdog)
      → P w now
      → P (handle_tx_event now g phase key w) now
  pub acknowledged :
      (now : ℕ) (l : List (Bool × AckKey)) (w : Watchdog) → P w now → P (track_acks now l w) now
  pub built : (w : Watchdog) {now : ℕ} → P w now → P (build_socket w) now
  pub opened :
      (w : Watchdog) {now : ℕ}
      → P w now
      → P (clear_send_stall_state (record w { is_connected = true })) now
  pub changed :
      (w : Watchdog) (up socket discarded ended : Bool) {now : ℕ}
      → P w now
      → P
          (record w {
            is_connected = up;
            has_socket = socket;
            is_discarded = discarded;
            session_ended = ended;
          })
          now

settle_send-clock :
    (r : Sending) (i : ℕ) (s : Send) (o : Outcome) (p : Phase)
    → s.phase ≡ p
    → (settle_send i s o r).clock ≡ r.clock
settle_send-clock r i s o waiting e = rw e refl
settle_send-clock r i s o abandoned e = rw e refl
settle_send-clock r i s o settled e = rw e refl

expire_send-clock :
    (r : Sending) (i : ℕ) (s : Send) (p : Phase) → s.phase ≡ p → (expire_send i s r).clock ≡ r.clock
expire_send-clock r i s waiting e = rw e refl
expire_send-clock r i s abandoned e = rw e refl
expire_send-clock r i s settled e = rw e refl

relay_admitted-clock :
    (q : Sending) (refusal : Option Refusal) → (relay_admitted q refusal).0.clock ≡ q.clock
relay_admitted-clock q (some refused) = refl
relay_admitted-clock q none =
    if_both (λ (p : Sending × Option Refusal). p.0.clock ≡ q.clock) _ refl refl

prepare_admitted-clock :
    (reserved : Option String) (q : Sending) (refusal : Option Refusal)
    → (prepare_admitted reserved q refusal).0.clock ≡ q.clock
prepare_admitted-clock reserved q (some refused) = refl
prepare_admitted-clock reserved q none = refl

pub handle-clock : (event : Event) (r : Sending) → (handle event r).clock ≡ r.clock
unfolding handle submit relay prepare
handle-clock (prepares reserved) r =
    if_both (λ (p : Sending × Option Refusal). p.0.clock ≡ r.clock) _
      (prepare_admitted-clock reserved (admitted r).0 (admitted r).1) refl
handle-clock (submits reserved) r =
    let q : Sending = record r { watchdog = track_optional_id reserved r.watchdog } in
    relay_admitted-clock (admitted q).0 (admitted q).1
handle-clock relays r = relay_admitted-clock (admitted r).0 (admitted r).1
handle-clock (settles i o) r = elim (Option-cases (get_elem? r.sends i)) [
  | inl e ↦ rw e refl
  | inr (s, e) ↦ rw e (settle_send-clock r i s o s.phase refl)
]
handle-clock (expires i) r = elim (Option-cases (get_elem? r.sends i)) [
  | inl e ↦ rw e refl
  | inr (s, e) ↦ rw e (expire_send-clock r i s s.phase refl)
]
handle-clock (transacts g phase key) r = refl
handle-clock (acknowledges l) r = refl
handle-clock builds r = refl
handle-clock opens r = refl
handle-clock closes r = refl
handle-clock drops r = refl
handle-clock discards r = refl
handle-clock ends r = refl

module _ (P : Watchdog → ℕ → Type 0) (k : Keeps P) where
  settle-keeps :
      (r : Sending) (i : ℕ) (s : Send) (o : Outcome) (p : Phase)
      → s.phase ≡ p
      → P r.watchdog r.clock
      → P (settle_send i s o r).watchdog r.clock
  settle-keeps r i s o waiting e h = rw e (k.answered r.clock s.generation o r.watchdog h)
  settle-keeps r i s o abandoned e h = rw e (k.late r.clock s.generation o r.watchdog h)
  settle-keeps r i s o settled e h = rw e h

  expire-keeps :
      (r : Sending) (i : ℕ) (s : Send) (p : Phase)
      → s.phase ≡ p
      → P r.watchdog r.clock
      → P (expire_send i s r).watchdog r.clock
  expire-keeps r i s waiting e h = rw e (k.expired r.clock s.generation r.watchdog h)
  expire-keeps r i s abandoned e h = rw e h
  expire-keeps r i s settled e h = rw e h

  relay_admitted-keeps :
      (q : Sending) (refusal : Option Refusal)
      → P q.watchdog q.clock
      → P (relay_admitted q refusal).0.watchdog q.clock
  relay_admitted-keeps q (some refused) h = h
  relay_admitted-keeps q none h =
      if_both (λ (p : Sending × Option Refusal). P p.0.watchdog q.clock) _ (k.taken q.watchdog h) h

  relay-keeps : (r : Sending) → P r.watchdog r.clock → P (relay r).0.watchdog r.clock
  unfolding relay
  relay-keeps r h =
      relay_admitted-keeps (admitted r).0 (admitted r).1 (k.asserted r.clock r.watchdog h)

  prepare_admitted-keeps :
      (reserved : Option String) (q : Sending) (refusal : Option Refusal)
      → P q.watchdog q.clock
      → P (prepare_admitted reserved q refusal).0.watchdog q.clock
  prepare_admitted-keeps reserved q (some refused) h = h
  prepare_admitted-keeps reserved q none h = k.tracked reserved q.watchdog h

  prepare-keeps :
      (reserved : Option String) (r : Sending)
      → P r.watchdog r.clock
      → P (prepare reserved r).0.watchdog r.clock
  unfolding prepare
  prepare-keeps reserved r h =
      if_both (λ (p : Sending × Option Refusal). P p.0.watchdog r.clock) r.watchdog.has_socket
        (prepare_admitted-keeps reserved (admitted r).0 (admitted r).1
          (k.asserted r.clock r.watchdog h))
        h

  handle-keeps :
      (event : Event) (r : Sending) → P r.watchdog r.clock → P (handle event r).watchdog r.clock
  unfolding handle submit
  handle-keeps (prepares reserved) r h = prepare-keeps reserved r h
  handle-keeps (submits reserved) r h =
      relay-keeps (record r { watchdog = track_optional_id reserved r.watchdog })
        (k.tracked reserved r.watchdog h)
  handle-keeps relays r h = relay-keeps r h
  handle-keeps (settles i o) r h = elim (Option-cases (get_elem? r.sends i)) [
    | inl e ↦ rw e h
    | inr (s, e) ↦ rw e (settle-keeps r i s o s.phase refl h)
  ]
  handle-keeps (expires i) r h = elim (Option-cases (get_elem? r.sends i)) [
    | inl e ↦ rw e h
    | inr (s, e) ↦ rw e (expire-keeps r i s s.phase refl h)
  ]
  handle-keeps (transacts g phase key) r h = k.transacted r.clock g phase key r.watchdog h
  handle-keeps (acknowledges l) r h = k.acknowledged r.clock l r.watchdog h
  handle-keeps builds r h = k.built r.watchdog h
  handle-keeps opens r h = k.opened r.watchdog h
  handle-keeps closes r h =
      k.changed r.watchdog false r.watchdog.has_socket r.watchdog.is_discarded
        r.watchdog.session_ended h
  handle-keeps drops r h =
      k.changed r.watchdog r.watchdog.is_connected false r.watchdog.is_discarded
        r.watchdog.session_ended h
  handle-keeps discards r h =
      k.changed r.watchdog r.watchdog.is_connected false true r.watchdog.session_ended h
  handle-keeps ends r h =
      k.changed r.watchdog r.watchdog.is_connected r.watchdog.has_socket true true h

  step-keeps :
      (r : Sending) (wait : ℕ) (event : Event)
      → P r.watchdog r.clock
      → P (step r (wait, event)).watchdog (step r (wait, event)).clock
  unfolding step
  step-keeps r wait event h =
      let q : Sending = record r { clock = r.clock + wait } in
      rw (handle-clock event q) (handle-keeps event q (k.waited r.watchdog (omega arith) h))

  pub run-keeps :
      (events : List (ℕ × Event)) (r : Sending)
      → P r.watchdog r.clock
      → P (run r events).watchdog (run r events).clock
  unfolding run
  run-keeps [] r h = h
  run-keeps ((wait, event) ∷ events) r h =
      run-keeps events (step r (wait, event)) (step-keeps r wait event h)

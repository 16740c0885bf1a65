-- ===== src/Watchdog/Wedge.antt =====
-- src/baileys/connection.ts: the release that closes the breaker.
pub mod Due
use baileys_api.Prelude.{
  ℕ, zero, suc, ◌+◌, ◌≤◌, ◌<◌, ◌≡◌, ◌⊎◌, inl, inr, refl, String, Bool, true, false, ◌&&◌, Option,
  none, some, List, [], ◌∷◌, ◌==◌, get_or, arith, eq_iff, eq_refl, if◌then◌else◌, if_both,
  Option-cases, Bool-cases,
}
use baileys_api.Entries.{lookup, assign, lookup-assign}
use baileys_api.Watchdog.{
  Watchdog, Failure, Refusal, clear_send_stall_state, release_in_flight, track_submitted_id,
  track_optional_id, AckKey, some_ours, is_our_submitted_key, remember_unmatched_ack, track_acks,
  arm, arm_optional, tx_mutex_timeout_key, note_mutex_wedge, TxPhase, acquired, released, stalled,
  timeout, handle_tx_event, maybe_report_send_stall, assert_can_send, record_send_success,
  record_send_timeout, record_late_settle, give_slot, late_outcome, Outcome, resolved, rejected,
  build_socket,
}
use baileys_api.Watchdog.Relay.{
  Phase, waiting, abandoned, settled, Send, Sending, get_elem?, set, admitted, relay_admitted,
  relay, prepare_admitted, prepare, submit, in_time, too_late, settle_send, expire_send, Event,
  prepares, submits, relays, settles, expires, transacts, acknowledges, builds, opens, closes,
  drops, discards, ends, handle, step, run, created,
}

-- When a key last gave up an acquisition, and when it was last released; 0 for never.
abbrev pub timed_out : Watchdog → String → ℕ
timed_out w key = get_or (lookup w.tx_timeout_at key) 0

abbrev pub freed : Watchdog → String → ℕ
freed w key = get_or (lookup w.tx_released_at key) 0

-- The key that is waited for has not been released since it last gave up an acquisition.
pub record IsDue (w : Watchdog) (clock : ℕ) : Type 0 where
  pub past : (key : String) → timed_out w key ≤ clock
  pub due :
      (key : String)
      → w.wedged_tx_key ≡ some key
      → (freed w key ≡ 0) ⊎ (freed w key < timed_out w key)

-- Nothing is noted of the keystore, and no key is newly waited for.
pub record Disarms (v w : Watchdog) : Type 0 where
  pub timeouts : w.tx_timeout_at ≡ v.tx_timeout_at
  pub releases : w.tx_released_at ≡ v.tx_released_at
  pub key : (w.wedged_tx_key ≡ none) ⊎ (w.wedged_tx_key ≡ v.wedged_tx_key)

pub disarmed-IsDue :
    (v w : Watchdog) {before after : ℕ}
    → Disarms v w
    → before ≤ after
    → IsDue v before
    → IsDue w after
disarmed-IsDue v w d le h = record {
  past = λ key. ground (arith, h.past key);
  due = λ key e. ground (arith, h.due key);
}

pub quiet-IsDue : (v w : Watchdog) {now : ℕ} → Disarms v w → IsDue v now → IsDue w now
quiet-IsDue v w d h = disarmed-IsDue v w d (omega arith) h

pub release-Disarms : (g : ℕ) (w : Watchdog) → Disarms w (release_in_flight g w)
unfolding release_in_flight
release-Disarms g w = ground arith

pub track-Disarms : (o : Option String) (w : Watchdog) → Disarms w (track_optional_id o w)
unfolding track_submitted_id
track-Disarms none w = ground arith
track-Disarms (some id) w = ground arith

report-Disarms : (now : ℕ) (w : Watchdog) → Disarms w (maybe_report_send_stall now w).0
unfolding maybe_report_send_stall
report-Disarms now w = ground arith

pub success-Disarms : (now g : ℕ) (w : Watchdog) → Disarms w (record_send_success now g w)
unfolding record_send_success clear_send_stall_state
success-Disarms now g w = ground arith

pub timeout-Disarms : (now g : ℕ) (w : Watchdog) → Disarms w (record_send_timeout now g w).0
unfolding record_send_timeout maybe_report_send_stall
timeout-Disarms now g w = ground arith

pub slot-Disarms : (w : Watchdog) → Disarms w (give_slot w)
unfolding clear_send_stall_state
slot-Disarms w = ground arith

some_ours-Disarms :
    (now : ℕ) (l : List (Bool × AckKey)) (w : Watchdog) → Disarms w (some_ours now l w).0
unfolding some_ours is_our_submitted_key remember_unmatched_ack
some_ours-Disarms now [] w = ground arith
some_ours-Disarms now ((false, key) ∷ l) w = some_ours-Disarms now l w
some_ours-Disarms now ((true, key) ∷ l) w =
    ground (arith, some_ours-Disarms now l (is_our_submitted_key now key w).0)

pub acks-Disarms :
    (now : ℕ) (l : List (Bool × AckKey)) (w : Watchdog) → Disarms w (track_acks now l w)
unfolding track_acks
acks-Disarms now l w = ground (arith, some_ours-Disarms now l w)

pub assert-Disarms : (now : ℕ) (w : Watchdog) → Disarms w (assert_can_send now w).0
unfolding assert_can_send
assert-Disarms now w = ground (arith, report-Disarms now w)

-- A key whose release came before its failure is not waited for.
arm-IsDue : (key : String) (w : Watchdog) {now : ℕ} → IsDue w now → IsDue (arm key w) now
unfolding clear_send_stall_state
arm-IsDue key w h = record {
  past = λ k. ground (arith, h.past k);
  due = λ k e. ground (arith, h.due k, eq_iff key k);
}

optional-IsDue :
    (o : Option String) (w : Watchdog) {now : ℕ} → IsDue w now → IsDue (arm_optional o w) now
optional-IsDue none w h = h
optional-IsDue (some key) w h = arm-IsDue key w h

wedge-IsDue :
    (e : Failure) (w : Watchdog) {now : ℕ} → IsDue w now → IsDue (note_mutex_wedge e w) now
unfolding note_mutex_wedge
wedge-IsDue e w h = optional-IsDue (tx_mutex_timeout_key e) w h

pub tx-IsDue :
    (now g : ℕ) (phase : TxPhase) (key : String) (w : Watchdog)
    → IsDue w now
    → IsDue (handle_tx_event now g phase key w) now
unfolding handle_tx_event clear_send_stall_state
tx-IsDue now g acquired key w h = record {
  past = λ k. ground (arith, h.past k);
  due = λ k e. ground (arith, h.due k);
}
tx-IsDue now g stalled key w h = record {
  past = λ k. ground (arith, h.past k);
  due = λ k e. ground (arith, h.due k);
}
tx-IsDue now g timeout key w h = record {
  past = λ k. ground (arith, h.past k, lookup-assign w.tx_timeout_at key k now);
  due = λ k e. ground (arith, h.due k, h.past k, lookup-assign w.tx_timeout_at key k now);
}
tx-IsDue now g released key w h = record {
  past = λ k. ground (arith, h.past k);
  due = λ k e. ground (
    arith,
    h.due k,
    lookup-assign w.tx_released_at key k now,
    eq_iff key k,
    eq_iff k key,
    eq_refl k,
  );
}

pub in_time-IsDue :
    (now g : ℕ) (o : Outcome) (w : Watchdog) → IsDue w now → IsDue (in_time now g o w).0 now
in_time-IsDue now g (resolved id) w h =
    quiet-IsDue _ _ (track-Disarms id _)
      (quiet-IsDue _ _ (success-Disarms now g _) (quiet-IsDue w _ (release-Disarms g w) h))
in_time-IsDue now g (rejected e) w h =
    let h' = quiet-IsDue w _ (release-Disarms g w) h in
    if_both (λ (p : Watchdog × Option ℕ). IsDue p.0 now) _
      (quiet-IsDue _ _ (timeout-Disarms now g _) (wedge-IsDue e _ h')) h'

pub late-IsDue :
    (now g : ℕ) (o : Outcome) (w : Watchdog)
    → IsDue w now
    → IsDue (record_late_settle now g o w) now
unfolding record_late_settle
late-IsDue now g (resolved id) w h =
    if_both (λ v. IsDue v now) _ h
      (quiet-IsDue _ _ (success-Disarms now g _) (quiet-IsDue w _ (track-Disarms id w) h))
late-IsDue now g (rejected e) w h =
    if_both (λ v. IsDue v now) _ h
      (if_both (λ v. IsDue v now) _ (wedge-IsDue e w h) (quiet-IsDue w _ (slot-Disarms w) h))

-- ===== src/Watchdog/Wedge/Due.antt =====
-- src/baileys/connection.ts: the release that closes the breaker, event by event.
use baileys_api.Prelude.{ℕ, ◌+◌, ◌<◌, ◌≡◌, ◌⊎◌, String, true, none, some, List, arith, eq_refl}
use baileys_api.Entries.{lookup}
use baileys_api.Watchdog.{
  Watchdog, clear_send_stall_state, release_in_flight, released, handle_tx_event, build_socket,
}
use baileys_api.Watchdog.Relay.{Event, transacts, handle, run, created}
use baileys_api.Watchdog.Wedge.{
  timed_out, freed, IsDue, quiet-IsDue, disarmed-IsDue, release-Disarms, track-Disarms,
  timeout-Disarms, acks-Disarms, assert-Disarms, tx-IsDue, in_time-IsDue, late-IsDue,
}
use baileys_api.Watchdog.Relay.Keeps.{Keeps, run-keeps}

IsDue-Keeps : Keeps IsDue
unfolding clear_send_stall_state build_socket lookup
IsDue-Keeps = record {
  waited = λ w le h. disarmed-IsDue w w (ground arith) le h;
  tracked = λ o w h. quiet-IsDue w _ (track-Disarms o w) h;
  asserted = λ now w h. quiet-IsDue w _ (assert-Disarms now w) h;
  taken =
      λ w h. quiet-IsDue w (record w { in_flight_sends = w.in_flight_sends + 1 }) (ground arith) h;
  answered = in_time-IsDue;
  late = λ now g o w h.
      late-IsDue now g o (release_in_flight g w) (quiet-IsDue w _ (release-Disarms g w) h);
  expired = λ now g w h. quiet-IsDue w _ (timeout-Disarms now g w) h;
  transacted = tx-IsDue;
  acknowledged = λ now l w h. quiet-IsDue w _ (acks-Disarms now l w) h;
  built = λ w h. record { past = λ key. omega arith; due = λ key e. absurd (ground arith) };
  opened = λ w h.
      quiet-IsDue w (clear_send_stall_state (record w { is_connected = true })) (ground arith) h;
  changed = λ w up socket discarded ended h.
      quiet-IsDue w
        (record w {
          is_connected = up;
          has_socket = socket;
          is_discarded = discarded;
          session_ended = ended;
        })
        (ground arith) h;
}

created-IsDue : (now : ℕ) → IsDue (created now).watchdog now
unfolding lookup
created-IsDue now = record { past = λ k. omega arith; due = λ k e. cc }

release_closes :
    (now : ℕ) (key : String) (w : Watchdog)
    → w.wedged_tx_key ≡ some key
    → let v = handle_tx_event now w.socket_generation released key w in
      (v.consecutive_send_timeouts ≡ 0) × (v.wedged_tx_key ≡ none)
unfolding handle_tx_event clear_send_stall_state
release_closes now key w h = (ground (arith, eq_refl key), ground (arith, eq_refl key))

-- Whatever happened to a connection, a keystore key that it waits for was not released since its
-- last time-out that was noticed, so that its release is still to come; and when the present
-- socket reports this release, the breaker is closed: no time-outs are counted, and no key is
-- waited for.
pub wedged_key-IsDue :
    (now : ℕ) (events : List (ℕ × Event)) (key : String)
    → let r = run (created now) events in
      r.watchdog.wedged_tx_key ≡ some key
      → let w = (handle (transacts r.watchdog.socket_generation released key) r).watchdog in
        ((freed r.watchdog key ≡ 0) ⊎ (freed r.watchdog key < timed_out r.watchdog key))
        × (w.consecutive_send_timeouts ≡ 0)
        × (w.wedged_tx_key ≡ none)
unfolding handle handle_tx_event clear_send_stall_state
wedged_key-IsDue now events key h =
    let r = run (created now) events in
    let closed = release_closes r.clock key r.watchdog h in
    (
      (run-keeps IsDue IsDue-Keeps events (created now) (created-IsDue now)).due key h,
      closed.0,
      closed.1,
    )

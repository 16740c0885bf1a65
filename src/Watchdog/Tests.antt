-- ===== src/Watchdog/Tests.antt =====
-- The theorems on the watchdog at concrete histories of a connection.
use baileys_api.Prelude.{
  ℕ, ◌≡◌, ◌<◌, ◌⊎◌, refl, String, true, Option, none, some, List, [], ◌∷◌, arith,
}
use baileys_api.Entries.{lookup, assign}
use baileys_api.Watchdog.{
  Failure, tx_mutex_timeout_code, resolved, rejected, released, timeout, send_stalled,
  release_in_flight, record_send_timeout, note_mutex_wedge, handle_tx_event, build_socket,
  clear_send_stall_state, assert_can_send, maybe_report_send_stall,
}
use baileys_api.Watchdog.Relay.{
  waiting, Sending, get_elem?, set, relay, submit, Event, submits, relays, settles, expires,
  transacts, acknowledges, builds, opens, handle, step, run, created,
}
use baileys_api.Watchdog.InFlight.{IsCounted}
use baileys_api.Watchdog.InFlight.Exact.{run-IsCounted}
use baileys_api.Watchdog.Wedge.{freed, timed_out}
use baileys_api.Watchdog.Wedge.Due.{wedged_key-IsDue}
use baileys_api.Watchdog.Replaced.{replaced-handle, ours, replaced_answer-acknowledged}
use baileys_api.Watchdog.Breaker.{count, IsStalled, run-Holds}
use baileys_api.Watchdog.Acks.{IsShort}
use baileys_api.Watchdog.Acks.Bounded.{run-IsShort}

-- A send that is given up on a fresh socket.
abbrev given_up : List (ℕ × Event)
given_up = (1, builds) ∷ (1, opens) ∷ (1, submits (some "A")) ∷ (45000, expires 0) ∷ []

run-IsCounted_example : IsCounted (run (created 1000) given_up)
run-IsCounted_example = run-IsCounted 1000 given_up

run-IsShort_example : IsShort (run (created 1000) given_up).watchdog
run-IsShort_example = run-IsShort 1000 given_up

abbrev mutex_timeout : Failure
mutex_timeout = record { code = some tx_mutex_timeout_code; key = some "me" }

-- A send whose acquisition of the mutex "me" times out.
abbrev wedged : List (ℕ × Event)
wedged =
    (1, builds)
    ∷ (1, opens)
    ∷ (1, relays)
    ∷ (9, transacts 1 timeout "me")
    ∷ (1, settles 0 (rejected mutex_timeout))
    ∷ []

is_wedged : (run (created 1000) wedged).watchdog.wedged_tx_key ≡ some "me"
unfolding run step handle relay assert_can_send get_elem? set build_socket clear_send_stall_state
    handle_tx_event note_mutex_wedge record_send_timeout maybe_report_send_stall release_in_flight
    lookup assign
is_wedged = refl

wedged_key-IsDue_example :
    let r = run (created 1000) wedged in
    let w = (handle (transacts r.watchdog.socket_generation released "me") r).watchdog in
    ((freed r.watchdog "me" ≡ 0) ⊎ (freed r.watchdog "me" < timed_out r.watchdog "me"))
    × (w.consecutive_send_timeouts ≡ 0)
    × (w.wedged_tx_key ≡ none)
wedged_key-IsDue_example = wedged_key-IsDue 1000 wedged "me" is_wedged

-- A socket that was replaced while a send was under way.
abbrev swapped : Sending
swapped = record (created 1000) {
  watchdog = record (created 1000).watchdog { socket_generation = 2; has_socket = true };
  sends = record { generation = 1; phase = waiting } ∷ [];
}

replaced-handle_example :
    ((handle (expires 0) swapped).watchdog ≡ swapped.watchdog)
    × ((handle (settles 0 (rejected mutex_timeout)) swapped).watchdog ≡ swapped.watchdog)
    × ((handle (transacts 1 released "me") swapped).watchdog ≡ swapped.watchdog)
unfolding get_elem?
replaced-handle_example =
    replaced-handle swapped 0 (record { generation = 1; phase = waiting }) (rejected mutex_timeout)
      1 released "me" refl (λ e. absurd (omega arith)) (λ e. absurd (omega arith))

replaced_answer-acknowledged_example :
    let q = handle (settles 0 (resolved (some "A"))) swapped in
    (handle (acknowledges ((true, ours "A") ∷ [])) q).watchdog.last_outgoing_ack_at ≡ some q.clock
unfolding get_elem?
replaced_answer-acknowledged_example =
    replaced_answer-acknowledged swapped 0 (record { generation = 1; phase = waiting }) "A" refl
      refl (λ e. absurd (omega arith)) refl

abbrev stalled_socket : Sending
stalled_socket = record (created 1000) {
  watchdog = record (created 1000).watchdog {
    socket_generation = 1;
    has_socket = true;
    is_connected = true;
    consecutive_send_timeouts = 3;
    send_stall_streak_started_at = some 1000;
  };
}

abbrev callers : List (ℕ × Event)
callers = (1, relays) ∷ (90000, submits (some "B")) ∷ []

run-Holds_example :
    let q = run stalled_socket callers in
    IsStalled q.watchdog
    × (count q.sends ≡ count stalled_socket.sends)
    × ((reserved : Option String) → (submit reserved q).1 ≡ some send_stalled)
run-Holds_example =
    run-Holds callers stalled_socket (refl, (refl, tt)) (record { deep = omega arith; up = refl })

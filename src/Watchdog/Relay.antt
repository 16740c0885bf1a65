-- ===== src/Watchdog/Relay.antt =====
-- src/baileys/connection.ts (sendMessage, relayWithTimeout) and src/helpers/withTimeout.ts: the sends
-- of a connection, each of which settles in time, or is given up at its deadline and may settle later.
pub mod Keeps
use baileys_api.Prelude.{
  ℕ, zero, suc, ◌+◌, String, Bool, true, false, ◌&&◌, Option, none, some, List, [], ◌∷◌, ◌++◌,
  if◌then◌else◌,
}
use baileys_api.Watchdog.{
  Watchdog, until, Failure, is_tx_mutex_timeout, is_current_generation, clear_send_stall_state,
  release_in_flight, track_submitted_id, track_optional_id, AckKey, track_acks, note_mutex_wedge,
  TxPhase, handle_tx_event, Refusal, not_connected, assert_can_send, record_send_success,
  record_send_timeout, record_late_settle, Outcome, resolved, rejected, build_socket,
}

-- `timedOut` of withTimeout: a send is waited for, given up, or settled.
pub data Phase : Type 0 where
  waiting abandoned settled : Phase

pub record Send : Type 0 where
  pub generation : ℕ
  pub phase : Phase

-- A connection and its sends. `episodes` are the calls of handleSendStall, each by the generation
-- and the streak that it starts with; `clock` is Date.now(), which does not go back here.
pub record Sending : Type 0 where
  pub watchdog : Watchdog
  pub sends : List Send
  pub episodes : List (ℕ × ℕ)
  pub clock : ℕ

unfoldable pub get_elem? : List Send → ℕ → Option Send
get_elem? [] i = none
get_elem? (s ∷ l) zero = some s
get_elem? (s ∷ l) (suc i) = get_elem? l i

unfoldable pub set : List Send → ℕ → Send → List Send
set [] i v = []
set (s ∷ l) zero v = v ∷ l
set (s ∷ l) (suc i) v = s ∷ set l i v

abbrev pub launch : Watchdog → Option ℕ → List (ℕ × ℕ) → List (ℕ × ℕ)
launch w none episodes = episodes
launch w (some streak) episodes = (w.socket_generation, streak) ∷ episodes

-- The state after a part of the watchdog that may start an episode.
abbrev pub advance : Sending → Watchdog × Option ℕ → Sending
advance r (w, started) = record r { watchdog = w; episodes = launch w started r.episodes }

abbrev pub start : Sending → Sending
start r = record r {
  watchdog = record r.watchdog { in_flight_sends = r.watchdog.in_flight_sends + 1 };
  sends = r.sends ++ (record { generation = r.watchdog.socket_generation; phase = waiting } ∷ []);
}

abbrev pub edit : (Watchdog → Watchdog) → Sending → Sending
edit f r = record r { watchdog = f r.watchdog }

-- assertCanSend
abbrev pub admitted : Sending → Sending × Option Refusal
admitted r =
    let (w, started, refusal) = assert_can_send r.clock r.watchdog in
    (advance r (w, started), refusal)

abbrev pub relay_admitted : Sending → Option Refusal → Sending × Option Refusal
relay_admitted r (some refused) = (r, some refused)
relay_admitted r none = if r.watchdog.has_socket then (start r, none) else (r, some not_connected)

-- relayWithTimeout up to its await. Where the socket is gone, `fn` throws at once and the slot that
-- was taken is given back.
unfoldable pub relay : Sending → Sending × Option Refusal
unfolding assert_can_send
relay r = relay_admitted (admitted r).0 (admitted r).1

-- sendMessage up to the preparation of audio: the reserved id is tracked. The other throws are
-- those of safeSocket and assertCanSend.
abbrev pub prepare_admitted : Option String → Sending → Option Refusal → Sending × Option Refusal
prepare_admitted reserved r (some refused) = (r, some refused)
prepare_admitted reserved r none = (edit (track_optional_id reserved) r, none)

unfoldable pub prepare : Option String → Sending → Sending × Option Refusal
unfolding assert_can_send track_submitted_id
prepare reserved r =
    if r.watchdog.has_socket
    then prepare_admitted reserved (admitted r).0 (admitted r).1
    else (r, some not_connected)

-- sendMessage from there to its await: the id is tracked again.
unfoldable pub submit : Option String → Sending → Sending × Option Refusal
unfolding relay track_submitted_id
submit reserved r = relay (record r { watchdog = track_optional_id reserved r.watchdog })

-- The promise settles in time. A resolved one goes on to sendMessage, which tracks the id.
abbrev pub in_time : ℕ → ℕ → Outcome → Watchdog → Watchdog × Option ℕ
in_time now generation (resolved id) w = (
  track_optional_id id (record_send_success now generation (release_in_flight generation w)),
  none,
)
in_time now generation (rejected error) w =
    let w' = release_in_flight generation w in
    if is_tx_mutex_timeout error && is_current_generation generation w'
    then record_send_timeout now generation (note_mutex_wedge error w')
    else (w', none)

-- onLateSettle, but for the callback of the caller.
abbrev pub too_late : ℕ → ℕ → Outcome → Watchdog → Watchdog
too_late now generation outcome w =
    record_late_settle now generation outcome (release_in_flight generation w)

abbrev pub settle_send : ℕ → Send → Outcome → Sending → Sending
settle_send i s outcome r =
    let r' = record r { sends = set r.sends i (record s { phase = settled }) } in
    elim s.phase [
      | waiting ↦ advance r' (in_time r.clock s.generation outcome r.watchdog)
      | abandoned ↦ record r' { watchdog = too_late r.clock s.generation outcome r.watchdog }
      | settled ↦ r
    ]

abbrev pub expire_send : ℕ → Send → Sending → Sending
expire_send i s r =
    let r' = record r { sends = set r.sends i (record s { phase = abandoned }) } in
    elim s.phase [
      | waiting ↦ advance r' (record_send_timeout r.clock s.generation r.watchdog)
      | abandoned ↦ r
      | settled ↦ r
    ]

abbrev pub at_send : Option Send → (Send → Sending) → Sending → Sending
at_send none f r = r
at_send (some s) f r = f s

-- What happens to a connection, one event after another. `opens` is a connection.update of the
-- socket with "open" and `closes` one without it; `drops` is `this.socket = null`.
pub data Event : Type 0 where
  prepares submits : Option String → Event
  relays : Event
  settles : ℕ → Outcome → Event
  expires : ℕ → Event
  transacts : ℕ → TxPhase → String → Event
  acknowledges : List (Bool × AckKey) → Event
  builds opens closes drops discards ends : Event

unfoldable pub handle : Event → Sending → Sending
unfolding get_elem? set prepare submit relay track_submitted_id record_send_success
    record_send_timeout record_late_settle release_in_flight note_mutex_wedge handle_tx_event
    track_acks build_socket clear_send_stall_state
handle (prepares reserved) r = (prepare reserved r).0
handle (submits reserved) r = (submit reserved r).0
handle relays r = (relay r).0
handle (settles i outcome) r = at_send (get_elem? r.sends i) (λ s. settle_send i s outcome r) r
handle (expires i) r = at_send (get_elem? r.sends i) (λ s. expire_send i s r) r
handle (transacts token phase key) r = edit (handle_tx_event r.clock token phase key) r
handle (acknowledges updates) r = edit (track_acks r.clock updates) r
handle builds r = edit build_socket r
handle opens r = edit (λ w. clear_send_stall_state (record w { is_connected = true })) r
handle closes r = edit (λ w. record w { is_connected = false }) r
handle drops r = edit (λ w. record w { has_socket = false }) r
handle discards r = edit (λ w. record w { is_discarded = true; has_socket = false }) r
handle ends r = edit (λ w. record w { is_discarded = true; session_ended = true }) r

-- An event after a wait.
unfoldable pub step : Sending → ℕ × Event → Sending
unfolding handle
step r (wait, event) = handle event (record r { clock = r.clock + wait })

unfoldable pub run : Sending → List (ℕ × Event) → Sending
unfolding step
run r [] = r
run r (e ∷ events) = run (step r e) events

-- `new BaileysConnection(…)`, at a time.
abbrev pub created : ℕ → Sending
created now = record {
  watchdog = record {
    socket_generation = 0;
    has_socket = false;
    is_connected = false;
    is_discarded = false;
    session_ended = false;
    in_flight_sends = 0;
    consecutive_send_timeouts = 0;
    send_stall_streak_started_at = none;
    send_stall_silent_until = until 0;
    restart_requested = false;
    stall_strike_rollback = none;
    wedged_tx_key = none;
    tx_timeout_at = [];
    tx_released_at = [];
    last_send_completed_at = none;
    last_outgoing_ack_at = none;
    submitted_message_ids = [];
    unmatched_ack_ids = [];
  };
  sends = [];
  episodes = [];
  clock = now;
}

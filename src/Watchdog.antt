-- ===== src/Watchdog.antt =====
-- src/baileys/connection.ts (the send-stall watchdog), src/baileys/helpers/isTxMutexTimeout.ts: what
-- a connection counts of its sends, and when it refuses more of them.
pub mod Relay
pub mod InFlight
pub mod Wedge
pub mod Replaced
pub mod Breaker
pub mod Acks
pub mod Stall
mod Tests
use baileys_api.Prelude.{
  ℕ, ◌+◌, ◌-◌, String, Bool, true, false, not, ◌&&◌, ◌||◌, Option, none, some, List, [], ◌∷◌, ◌++◌,
  ◌==◌, ltb, leb, eqb, length, same_text, get_or, if◌then◌else◌,
}
use baileys_api.Entries.{lookup, assign, remove}
use baileys_api.Messages.Senders.{includes}
use baileys_api.Cluster.SendStallStore.{Recorded}
use baileys_api.Connections.Options.{send_stall_threshold}

-- MAX_IN_FLIGHT_SENDS, SEND_STALL_MIN_DURATION_MS, SEND_STALL_RESTART_COOLDOWN_MS,
-- SUBMITTED_ID_HISTORY and UNMATCHED_ACK_HISTORY
abbrev pub max_in_flight_sends : ℕ
max_in_flight_sends = 8

abbrev pub send_stall_min_duration_ms : ℕ
send_stall_min_duration_ms = 90000

abbrev pub send_stall_restart_cooldown_ms : ℕ
send_stall_restart_cooldown_ms = 30000

abbrev pub submitted_id_history : ℕ
submitted_id_history = 500

abbrev pub unmatched_ack_history : ℕ
unmatched_ack_history = 100

-- `sendStallSilentUntil`, which is a time or Infinity.
pub data Silence : Type 0 where
  until : ℕ → Silence
  forever : Silence

-- The fields of BaileysConnection that the watchdog reads and writes. `is_connected` says that
-- connectionState is "open", and `has_socket` that the socket is not null.
pub record Watchdog : Type 0 where
  pub socket_generation : ℕ
  pub has_socket : Bool
  pub is_connected : Bool
  pub is_discarded : Bool
  pub session_ended : Bool
  pub in_flight_sends : ℕ
  pub consecutive_send_timeouts : ℕ
  pub send_stall_streak_started_at : Option ℕ
  pub send_stall_silent_until : Silence
  pub restart_requested : Bool
  pub stall_strike_rollback : Option Recorded
  pub wedged_tx_key : Option String
  pub tx_timeout_at : List (String × ℕ)
  pub tx_released_at : List (String × ℕ)
  pub last_send_completed_at : Option ℕ
  pub last_outgoing_ack_at : Option ℕ
  pub submitted_message_ids : List String
  pub unmatched_ack_ids : List (String × ℕ)

-- A rejected promise's reason, as far as it is looked at: `error.data.code` and `error.data.key`,
-- where these are texts.
pub record Failure : Type 0 where
  pub code : Option String
  pub key : Option String

abbrev pub tx_mutex_timeout_code : String
tx_mutex_timeout_code = "E_TX_MUTEX_TIMEOUT"

abbrev pub is_tx_mutex_timeout : Failure → Bool
is_tx_mutex_timeout error = same_text error.code tx_mutex_timeout_code

abbrev pub tx_mutex_timeout_key : Failure → Option String
tx_mutex_timeout_key error = if is_tx_mutex_timeout error then error.key else none

abbrev pub is_open : Watchdog → Bool
is_open w = w.is_connected && w.has_socket

unfoldable pub clear_send_stall_state : Watchdog → Watchdog
clear_send_stall_state w = record w {
  consecutive_send_timeouts = 0;
  wedged_tx_key = none;
  send_stall_streak_started_at = none;
  send_stall_silent_until = until 0;
  restart_requested = false;
}

abbrev pub is_current_generation : ℕ → Watchdog → Bool
is_current_generation generation w = eqb generation w.socket_generation

-- `-= 1`; the counter is never 0 here.
unfoldable pub release_in_flight : ℕ → Watchdog → Watchdog
release_in_flight generation w =
    if is_current_generation generation w
    then record w { in_flight_sends = w.in_flight_sends - 1 }
    else w

abbrev pub drop_oldest {ℓ} : {A : Type ℓ} → List A → List A
drop_oldest [] = []
drop_oldest (x ∷ l) = l

-- What is kept of a history before something is added to it.
abbrev pub trim {ℓ} : {A : Type ℓ} → ℕ → List A → List A
trim bound l = if leb bound (length l) then drop_oldest l else l

-- `add` of a Set
unfoldable pub add_id : List String → String → List String
add_id [] id = id ∷ []
add_id (x ∷ l) id = let rest = add_id l id in if x == id then x ∷ l else x ∷ rest

-- `Math.max(this._lastOutgoingAckAt ?? 0, ackedAt)`
abbrev pub later : Option ℕ → ℕ → ℕ
later last acked_at = if leb (get_or last 0) acked_at then acked_at else get_or last 0

abbrev pub claim_ack : String → Option ℕ → Watchdog → Watchdog
claim_ack id none w = w
claim_ack id (some acked_at) w = record w {
  unmatched_ack_ids = remove w.unmatched_ack_ids id;
  last_outgoing_ack_at = some (later w.last_outgoing_ack_at acked_at);
}

unfoldable pub track_submitted_id : String → Watchdog → Watchdog
unfolding add_id
track_submitted_id id w = claim_ack id (lookup w.unmatched_ack_ids id) (record w {
  submitted_message_ids = add_id (trim submitted_id_history w.submitted_message_ids) id;
})

abbrev pub track_optional_id : Option String → Watchdog → Watchdog
track_optional_id none w = w
track_optional_id (some id) w = if id == "" then w else track_submitted_id id w

unfoldable pub remember_unmatched_ack : ℕ → String → Watchdog → Watchdog
remember_unmatched_ack now id w = record w {
  unmatched_ack_ids = assign (trim unmatched_ack_history w.unmatched_ack_ids) id now;
}

-- `key.fromMe` and `key.id` of a message
pub record AckKey : Type 0 where
  pub from_me : Bool
  pub id : Option String

abbrev pub park_or_claim : ℕ → String → Watchdog → Watchdog × Bool
park_or_claim now id w =
    if includes w.submitted_message_ids id
    then (w, true)
    else (remember_unmatched_ack now id w, false)

abbrev pub matched : ℕ → Option String → Watchdog → Watchdog × Bool
matched now none w = (w, false)
matched now (some id) w = park_or_claim now id w

unfoldable pub is_our_submitted_key : ℕ → AckKey → Watchdog → Watchdog × Bool
unfolding remember_unmatched_ack includes
is_our_submitted_key now key w = if key.from_me then matched now key.id w else (w, false)

-- `data.some(…)` over the keys of the updates, each with whether its update is an acknowledgement.
unfoldable pub some_ours : ℕ → List (Bool × AckKey) → Watchdog → Watchdog × Bool
unfolding is_our_submitted_key
some_ours now [] w = (w, false)
some_ours now ((false, key) ∷ l) w = some_ours now l w
some_ours now ((true, key) ∷ l) w =
    let (w', ours) = is_our_submitted_key now key w in
    let rest = some_ours now l w' in if ours then (w', true) else rest

-- trackOutgoingAck and trackOutgoingReceiptAck, which differ in what is an acknowledgement.
unfoldable pub track_acks : ℕ → List (Bool × AckKey) → Watchdog → Watchdog
unfolding some_ours
track_acks now updates w =
    let (w', acked) = some_ours now updates w in
    if acked then record w' { last_outgoing_ack_at = some now } else w'

-- `update.status >= WAMessageStatus.SERVER_ACK`; the library's number is a parameter.
abbrev pub is_server_ack : ℕ → Option ℕ → Bool
is_server_ack server_ack none = false
is_server_ack server_ack (some status) = leb server_ack status

abbrev pub is_given {ℓ} : {A : Type ℓ} → Option A → Bool
is_given none = false
is_given (some a) = true

-- receiptTimestamp, readTimestamp and playedTimestamp
abbrev pub is_receipt_ack : Option ℕ → Option ℕ → Option ℕ → Bool
is_receipt_ack receipt read played = is_given receipt || is_given read || is_given played

abbrev pub arm : String → Watchdog → Watchdog
arm key w =
    let released_at = get_or (lookup w.tx_released_at key) 0 in
    if leb (get_or (lookup w.tx_timeout_at key) 0) released_at && ltb 0 released_at
    then clear_send_stall_state w
    else record w { wedged_tx_key = some key }

abbrev pub arm_optional : Option String → Watchdog → Watchdog
arm_optional none w = w
arm_optional (some key) w = arm key w

unfoldable pub note_mutex_wedge : Failure → Watchdog → Watchdog
unfolding clear_send_stall_state lookup
note_mutex_wedge error w = arm_optional (tx_mutex_timeout_key error) w

pub data TxPhase : Type 0 where
  acquired released stalled timeout : TxPhase

-- `token` is the generation of the socket that the event is of.
unfoldable pub handle_tx_event : ℕ → ℕ → TxPhase → String → Watchdog → Watchdog
unfolding clear_send_stall_state assign
handle_tx_event now token phase key w =
    if is_current_generation token w
    then elim phase [
      | acquired ↦ w
      | stalled ↦ w
      | timeout ↦ record w { tx_timeout_at = assign w.tx_timeout_at key now }
      | released ↦
          let w' = record w { tx_released_at = assign w.tx_released_at key now } in
          if same_text w.wedged_tx_key key then clear_send_stall_state w' else w'
    ]
    else w

abbrev pub is_silent : ℕ → Silence → Bool
is_silent now (until t) = ltb now t
is_silent now forever = true

-- The conditions of maybeReportSendStall that follow those on the streak.
abbrev pub may_report : Watchdog → Bool
may_report w =
    leb send_stall_threshold w.consecutive_send_timeouts
    && is_open w
    && not w.is_discarded
    && not w.restart_requested

abbrev pub report_since : ℕ → Option ℕ → Watchdog → Watchdog × Option ℕ
report_since now none w = (w, none)
report_since now (some started) w =
    if not (is_silent now w.send_stall_silent_until)
      && leb (started + send_stall_min_duration_ms) now
      && may_report w
    then (record w { send_stall_silent_until = forever }, some (now - started))
    else (w, none)

-- With the streak that handleSendStall is called with, where it is called.
unfoldable pub maybe_report_send_stall : ℕ → Watchdog → Watchdog × Option ℕ
maybe_report_send_stall now w = report_since now w.send_stall_streak_started_at w

-- BaileysNotConnectedError and BaileysSendStalledError
pub data Refusal : Type 0 where
  not_connected send_stalled : Refusal

-- assertCanSend: the state, the streak of an episode that it starts, and what it throws.
unfoldable pub assert_can_send : ℕ → Watchdog → Watchdog × Option ℕ × Option Refusal
unfolding maybe_report_send_stall
assert_can_send now w =
    if leb max_in_flight_sends w.in_flight_sends
    then (w, none, some (if is_open w then send_stalled else not_connected))
    else if ltb w.consecutive_send_timeouts send_stall_threshold
    then (w, none, none)
    else if is_open w
    then ((maybe_report_send_stall now w).0, (maybe_report_send_stall now w).1, some send_stalled)
    else (w, none, some not_connected)

unfoldable pub record_send_success : ℕ → ℕ → Watchdog → Watchdog
unfolding clear_send_stall_state
record_send_success now generation w =
    if is_current_generation generation w
    then record (clear_send_stall_state w) { last_send_completed_at = some now }
    else w

abbrev pub streak_from : Option ℕ → ℕ → ℕ
streak_from started now = get_or started now

unfoldable pub record_send_timeout : ℕ → ℕ → Watchdog → Watchdog × Option ℕ
unfolding maybe_report_send_stall
record_send_timeout now generation w =
    if is_current_generation generation w
    then maybe_report_send_stall now (record w {
      consecutive_send_timeouts = w.consecutive_send_timeouts + 1;
      send_stall_streak_started_at = some (streak_from w.send_stall_streak_started_at now);
    })
    else (w, none)

-- How the promise of a send settles: with the id of its message, or with a reason.
pub data Outcome : Type 0 where
  resolved : Option String → Outcome
  rejected : Failure → Outcome

abbrev pub give_slot : Watchdog → Watchdog
give_slot w =
    let w' = record w { consecutive_send_timeouts = w.consecutive_send_timeouts - 1 } in
    if eqb w'.consecutive_send_timeouts 0 then clear_send_stall_state w' else w'

abbrev pub late_outcome : ℕ → ℕ → Outcome → Watchdog → Watchdog
late_outcome now generation (resolved id) w =
    record_send_success now generation (track_optional_id id w)
late_outcome now generation (rejected error) w =
    if is_tx_mutex_timeout error then note_mutex_wedge error w else give_slot w

unfoldable pub record_late_settle : ℕ → ℕ → Outcome → Watchdog → Watchdog
unfolding record_send_success track_submitted_id note_mutex_wedge clear_send_stall_state
record_late_settle now generation outcome w =
    if w.is_discarded || not (is_current_generation generation w)
    then w
    else late_outcome now generation outcome w

-- connect, once makeWASocket has returned.
unfoldable pub build_socket : Watchdog → Watchdog
unfolding clear_send_stall_state
build_socket w = record (clear_send_stall_state w) {
  socket_generation = w.socket_generation + 1;
  has_socket = true;
  submitted_message_ids = [];
  unmatched_ack_ids = [];
  in_flight_sends = 0;
  tx_timeout_at = [];
  tx_released_at = [];
  last_send_completed_at = none;
  last_outgoing_ack_at = none;
}

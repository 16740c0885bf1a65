-- ===== src/Reconnect.antt =====
-- src/baileys/connection.ts (handleConnectionUpdate, handleReconnecting, reconnectInBackground, connect,
-- close, discard): the sockets of one connection, between the points at which it waits.
pub mod Single
pub mod Discarded
pub mod Losses
mod Tests
use baileys_api.Prelude.{
  ℕ, zero, suc, ◌+◌, ◌-◌, String, Bool, true, false, not, ◌&&◌, ◌||◌, ◌==◌, Option, none, some,
  List, [], ◌∷◌, ◌++◌, leb, ltb, length, if◌then◌else◌,
}
use baileys_api.Messages.{normalize_brazil_phone_number}

abbrev pub connection_replaced_loop_window_ms : ℕ
connection_replaced_loop_window_ms = 30000

abbrev pub connection_replaced_loop_threshold : ℕ
connection_replaced_loop_threshold = 5

-- What a connection waits for: advanceImportCandidate, shouldYieldToLeaseOwner, recordStrike in a
-- close of a socket (of one that was replaced, or not) and elsewhere, asyncSleep, connect, and close.
pub data Task : Type 0 where
  advancing yielding striking_alone backing_off connecting closing : Task
  striking : Bool → Task

-- The webhooks of connection.update, and onUnrecoverable.
pub data Notice : Type 0 where
  reconnecting reconnect_loop_detected wrong_phone_number update unrecoverable : Notice

-- `open_sockets` counts the sockets that were made and that have neither closed nor been ended.
pub record Life : Type 0 where
  pub reconnect_count : ℕ
  pub is_reconnect : Bool
  pub has_opened : Bool
  pub is_discarded : Bool
  pub session_ended : Bool
  pub has_socket : Bool
  pub replaced_at : List ℕ
  pub tasks : List Task
  pub notices : List Notice
  pub open_sockets : ℕ
  pub clock : ℕ

-- `close` with DisconnectReason.loggedOut or "QR refs attempts ended", with connectionReplaced, and
-- with any other reason.
pub data Reason : Type 0 where
  logged_out replaced lost : Reason

pub data Connection : Type 0 where
  opened pairing : Connection
  closed : Reason → Connection

-- An update: `qr` is `some ""` where the key is there without a value, and `user` the number in the
-- id of the socket's user, with its sign.
pub record Update : Type 0 where
  pub connection : Option Connection
  pub qr : Option String
  pub is_new_login : Bool
  pub is_online : Bool
  pub user : Option String

abbrev pub notify : Notice → Life → Life
notify notice l = record l { notices = notice ∷ l.notices }

abbrev pub wait_for : Task → Life → Life
wait_for task l = record l { tasks = task ∷ l.tasks }

abbrev pub drop_socket : Life → Life
drop_socket l = record l { has_socket = false }

abbrev pub discard : Life → Life
discard l = if l.is_discarded then l else record l {
  is_discarded = true;
  has_socket = false;
  open_sockets = if l.has_socket then l.open_sockets - 1 else l.open_sockets;
}

-- connect up to its first await
abbrev pub connect : Life → Life
connect l = if l.is_discarded || l.has_socket then l else wait_for connecting l

-- handleReconnecting up to its await, and whether it has one.
abbrev pub handle_reconnecting : Life → Life × Bool
handle_reconnecting l =
    let counted = record l { reconnect_count = l.reconnect_count + 1 } in
    if ltb 10 counted.reconnect_count
    then (discard counted, true)
    else (notify reconnecting counted, false)

-- The `filter` of trackConnectionReplaced.
abbrev pub recent : ℕ → List ℕ → List ℕ
recent now [] = []
recent now (t ∷ l) =
    let rest = recent now l in
    if leb (now - t) connection_replaced_loop_window_ms then t ∷ rest else rest

abbrev pub track_connection_replaced : Life → Life
track_connection_replaced l = record l {
  replaced_at = recent l.clock l.replaced_at ++ (l.clock ∷ []);
}

abbrev pub back_off : Life → Life
back_off l =
    if leb connection_replaced_loop_threshold (length l.replaced_at)
    then wait_for backing_off l
    else connect l

-- A close, after handleReconnecting.
abbrev pub rebuild : Bool → Life → Life
rebuild false l = connect (drop_socket l)
rebuild true l = back_off (track_connection_replaced (drop_socket l))

abbrev pub on_strike : Bool → Life × Bool → Life
on_strike was_replaced (l, true) = wait_for (striking was_replaced) l
on_strike was_replaced (l, false) = rebuild was_replaced l

abbrev pub reconnect : Bool → Life → Life
reconnect was_replaced l = on_strike was_replaced (handle_reconnecting l)

-- close up to its first await
abbrev pub close : Life → Life
close l = wait_for closing (record l { is_discarded = true; session_ended = true })

abbrev pub lose : Life → Life
lose l = if l.has_opened then reconnect false l else wait_for advancing l

-- handleReconnecting where nothing waits for it.
abbrev pub reconnect_alone : Life × Bool → Life
reconnect_alone (l, true) = wait_for striking_alone l
reconnect_alone (l, false) = l

abbrev pub is_pairing : Option Connection → Bool
is_pairing (some pairing) = true
is_pairing _ = false

abbrev pub is_opened : Option Connection → Bool
is_opened (some opened) = true
is_opened _ = false

abbrev pub is_blank : Option String → Bool
is_blank none = false
is_blank (some qr) = qr == ""

abbrev pub is_reconnecting : Update → Life → Bool
is_reconnecting u l = u.is_new_login || is_pairing u.connection && (is_blank u.qr || l.is_reconnect)

abbrev pub is_other_number : String → Option String → Bool
is_other_number phone_number none = false
is_other_number phone_number (some user) =
    not (normalize_brazil_phone_number user == normalize_brazil_phone_number phone_number)

abbrev pub note_open : Life → Life
note_open l = record l { reconnect_count = 0; has_opened = true }

-- From the check of the number on. The logout that handleWrongPhoneNumber asks for is the handler's.
abbrev pub settle_update : String → Update → Life → Life
settle_update phone_number u l =
    if is_opened u.connection && is_other_number phone_number u.user
    then notify wrong_phone_number l
    else if is_opened u.connection || u.is_online
    then notify update (note_open l)
    else notify update l

abbrev pub on_connection : String → Update → Option Connection → Life → Life
on_connection phone_number u (some (closed logged_out)) l = close l
on_connection phone_number u (some (closed replaced)) l = wait_for yielding l
on_connection phone_number u (some (closed lost)) l = lose l
on_connection phone_number u _ l = settle_update phone_number u l

unfoldable pub handle_connection_update : String → Update → Life → Life
unfolding normalize_brazil_phone_number
handle_connection_update phone_number u l =
    if l.is_discarded
    then l
    else if is_reconnecting u l
    then reconnect_alone (handle_reconnecting (record l { is_reconnect = false }))
    else on_connection phone_number u u.connection l

-- The rest of connect, and what reconnectInBackground does where it fails.
abbrev pub finish_connect : Bool → Life → Life
finish_connect true l =
    if l.is_discarded then l else record l { has_socket = true; open_sockets = l.open_sockets + 1 }
finish_connect false l = notify unrecoverable (discard l)

-- What follows a wait. The answer says that a candidate was taken, that the lease is another's, that
-- connect did not fail, or that the session was cleared: where this fails, the rest of close is left out.
unfoldable pub resume : Task → Bool → Life → Life
resume advancing true l = rebuild false (handle_reconnecting (record l { reconnect_count = 0 })).0
resume advancing false l = reconnect false l
resume yielding true l = discard l
resume yielding false l = reconnect true l
resume striking_alone b l = notify reconnect_loop_detected l
resume (striking was_replaced) b l = rebuild was_replaced (notify reconnect_loop_detected l)
resume backing_off b l = connect l
resume connecting is_built l = finish_connect is_built l
resume closing false l = l
resume closing true l =
    notify update (record l { has_socket = false; reconnect_count = 0; replaced_at = [] })

abbrev pub keep_first : Task → Option (Task × List Task) → Option (Task × List Task)
keep_first t none = none
keep_first t (some (x, l)) = some (x, t ∷ l)

unfoldable pub pick : List Task → ℕ → Option (Task × List Task)
pick [] i = none
pick (t ∷ l) zero = some (t, l)
pick (t ∷ l) (suc i) = keep_first t (pick l i)

abbrev pub resume_picked : Option (Task × List Task) → Bool → Life → Life
resume_picked none answer l = l
resume_picked (some (task, tasks)) answer l = resume task answer (record l { tasks = tasks })

-- `updates` is an update of the socket, of which the library says that it closes once, and
-- `resumes` the end of a wait.
pub data Event : Type 0 where
  updates : Update → Event
  resumes : ℕ → Bool → Event
  discards : Event

abbrev pub close_socket : ℕ → Life → Life
close_socket open_sockets l = record l { open_sockets = open_sockets }

abbrev pub close_one : String → Update → ℕ → Life → Life
close_one phone_number u zero l = l
close_one phone_number u (suc others) l =
    handle_connection_update phone_number u (close_socket others l)

abbrev pub emit : String → Update → Option Connection → Life → Life
emit phone_number u (some (closed reason)) l = close_one phone_number u l.open_sockets l
emit phone_number u _ l = handle_connection_update phone_number u l

module _ (phone_number : String) where
  unfoldable pub handle : Event → Life → Life
  unfolding handle_connection_update resume pick
  handle (updates u) l = emit phone_number u u.connection l
  handle (resumes i answer) l = resume_picked (pick l.tasks i) answer l
  handle discards l = discard l

  -- An event after a wait.
  unfoldable pub run : Life → List (ℕ × Event) → Life
  unfolding handle
  run l [] = l
  run l ((wait, event) ∷ events) = run (handle event (record l { clock = l.clock + wait })) events

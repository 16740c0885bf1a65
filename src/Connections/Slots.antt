-- ===== src/Connections/Slots.antt =====
-- src/baileys/connectionsHandler.ts: the operations that hold a slot per phone, cut at their awaits.
-- A task runs one operation; its number stands for the promise that it puts into inFlightOps.
use baileys_api.Prelude.{
  ℕ, List, [], ◌∷◌, String, Bool, true, false, ◌&&◌, Option, none, some, if◌then◌else◌,
}
use baileys_api.Exec.{Error, not_connected}
use baileys_api.Entries.{lookup, assign, remove, values}
use baileys_api.Connections.Options.{ConnectionOptions, current_options, update_options, is_true}
use baileys_api.Connections.Registry.{
  ConnectionsHandler, put, registered, points_at, discard_object, retire, discard_registered,
  register_new,
}

-- Who called connect: a client of the handler, or the requestRestart of a connection.
pub data Caller : Type 0 where
  client : Caller
  watchdog : ℕ → Caller

-- The options of a connect, or their resolver, which runs without an await.
abbrev pub Resolver : Type 0
Resolver = ConnectionsHandler → Option ConnectionOptions

pub data Operation : Type 0 where
  connect : Caller → Resolver → Operation
  discard_connection : Operation
  logout : Operation
  -- the callback requestLogout of a connection
  request_logout : ℕ → Operation

-- `done` for an operation without a result; `connected` is what connect resolves to.
pub data Outcome : Type 0 where
  done : Outcome
  connected : Bool → Outcome
  failed : Error → Outcome

-- Where a task is.
pub data Pc : Type 0 where
  idle : Pc
  -- at `await this.inFlightOps[phoneNumber]`, for the slot of another task
  parked : String → ℕ → Operation → Pc
  -- at `await connection.connect()`, in its slot
  spawning : String → ℕ → Caller → Pc
  -- at `await existing.updateOptions(…)`, then at `await existing.sendPresenceUpdate(…)`
  updating probing : String → ℕ → Caller → Resolver → Pc
  -- at `await connection.logout()`, in its slot
  ending : String → ℕ → Pc
  -- at `await fn()`, which has settled: still in its slot
  leaving : String → Caller → Outcome → Pc
  -- past its slot
  settled : String → Caller → Outcome → Pc
  -- at `await connection.withdrawStallRestart()`
  withdrawing : ℕ → Pc
  finished : Outcome → Pc

abbrev pub take : ℕ → String → ConnectionsHandler → ConnectionsHandler
take i phone h = record h { in_flight_ops = assign h.in_flight_ops phone i }

-- The finally block of withInFlightOp.
unfoldable pub release : ℕ → String → ConnectionsHandler → ConnectionsHandler
release i phone h = record h {
  in_flight_ops =
      if points_at (lookup h.in_flight_ops phone) i
      then remove h.in_flight_ops phone
      else h.in_flight_ops;
}

-- `forceRestart` is stripped, and the other options go on.
abbrev pub connect_options : ConnectionOptions → ConnectionOptions
connect_options options = record options { force_restart = none }

-- spawnConnection up to the await of connect(), after its own drain, which finds no slot.
unfoldable pub spawn :
    ℕ → String → Caller → ConnectionOptions → ConnectionsHandler → ConnectionsHandler × Pc
unfolding register_new
spawn i phone caller options h =
    (register_new phone options (take i phone h), spawning phone h.next caller)

-- connect, once its drain is over and its options and its `existing` are known.
unfoldable pub reuse_or_spawn :
    ℕ
    → String
    → Caller
    → Resolver
    → ConnectionOptions
    → Option ℕ
    → ConnectionsHandler
    → ConnectionsHandler × Pc
unfolding spawn retire put
reuse_or_spawn i phone caller resolve options none h =
    spawn i phone caller (connect_options options) h
reuse_or_spawn i phone caller resolve options (some o) h =
    if is_true options.force_restart
    then spawn i phone caller (connect_options options) (retire phone o h)
    else (
      put h o (update_options (connect_options options) (h.objects o)),
      updating phone o caller resolve,
    )

unfoldable pub resolve_and_connect :
    ℕ → String → Caller → Resolver → ConnectionsHandler → ConnectionsHandler × Pc
unfolding reuse_or_spawn
resolve_and_connect i phone caller resolve h = elim (resolve h) [
  | none ↦ (h, settled phone caller (connected false))
  | some options ↦ reuse_or_spawn i phone caller resolve options (registered h phone) h
]

-- The call of `connection.logout()`, which first marks the connection as discarded.
abbrev pub begin_logout : ℕ → String → ℕ → ConnectionsHandler → ConnectionsHandler × Pc
begin_logout i phone o h = (discard_object o (take i phone h), ending phone o)

-- What runs when no slot is taken.
unfoldable pub enter : ℕ → String → Operation → ConnectionsHandler → ConnectionsHandler × Pc
unfolding resolve_and_connect discard_registered discard_object
enter i phone (connect caller resolve) h = resolve_and_connect i phone caller resolve h
enter i phone discard_connection h =
    (discard_registered phone (take i phone h), leaving phone client done)
enter i phone logout h = elim (registered h phone) [
  | none ↦ (take i phone h, leaving phone client (failed not_connected))
  | some o ↦ begin_logout i phone o h
]
enter i phone (request_logout o) h =
    if points_at (registered h phone) o
    then begin_logout i phone o h
    else (take i phone h, leaving phone client done)

-- The drain: `while (this.inFlightOps[phoneNumber]) await …`.
unfoldable pub drain : ℕ → String → Operation → ConnectionsHandler → ConnectionsHandler × Pc
unfolding enter
drain i phone op h = elim (lookup h.in_flight_ops phone) [
  | some slot ↦ (h, parked phone slot op)
  | none ↦ enter i phone op h
]

-- `stillOurs` of requestRestart.
unfoldable pub still_ours : String → ℕ → Resolver
unfolding current_options
still_ours phone o h =
    if points_at (registered h phone) o && (h.objects o).restart_pending
    then some (record (current_options (h.objects o)) {
      is_reconnect = some true;
      force_restart = some true;
    })
    else none

-- The callback requestRestart.
unfoldable pub request_restart : ℕ → String → ℕ → ConnectionsHandler → ConnectionsHandler × Pc
unfolding drain still_ours
request_restart i phone o h =
    if points_at (registered h phone) o
    then drain i phone (connect (watchdog o) (still_ours phone o)) h
    else (h, finished done)

-- logoutAll after its drain: every registered connection is told to log out.
unfoldable pub log_out_all : List ℕ → ConnectionsHandler → ConnectionsHandler
unfolding discard_object
log_out_all [] h = h
log_out_all (o ∷ s) h = log_out_all s (discard_object o h)

unfoldable pub logout_all_begins : ConnectionsHandler → ConnectionsHandler
unfolding log_out_all
logout_all_begins h = log_out_all (values h.connections) h

-- `this.connections = {}`, once all of those have ended.
unfoldable pub logout_all_ends : ConnectionsHandler → ConnectionsHandler
logout_all_ends h = record h { connections = [] }

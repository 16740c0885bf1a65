-- ===== src/Connections/Registry.antt =====
-- src/baileys/connectionsHandler.ts: the handler's fields, its readings of them, and the parts of its
-- operations that run without an await.
use baileys_api.Prelude.{
  ℕ, suc, ◌+◌, ◌-◌, String, Bool, true, false, Option, none, some, List, [], ◌∷◌, eqb, ltb,
  if◌then◌else◌,
}
use baileys_api.Entries.{lookup, assign, remove, keys, values, add}
use baileys_api.Connections.Options.{
  ConnectionOptions, Connection, SendState, stalled, new_connection, current_options, send_state,
  discard,
}

-- A BaileysConnection is known by its number, and `objects` is the heap of those below `next`.
-- `spawn_failures` are the calls of onSpawnFailed, newest first.
pub record ConnectionsHandler : Type 0 where
  pub connections : List (String × ℕ)
  pub in_flight_ops : List (String × ℕ)
  pub draining_webhooks : List ℕ
  pub objects : ℕ → Connection
  pub next : ℕ
  pub spawn_failures : List (String × Option ℕ)

-- The value of one object replaced.
unfoldable pub put : ConnectionsHandler → ℕ → Connection → ConnectionsHandler
put h o c = record h { objects = λ j. if eqb o j then c else h.objects j }

abbrev pub registered : ConnectionsHandler → String → Option ℕ
registered h phone = lookup h.connections phone

-- `this.connections[phoneNumber] === connection`
abbrev pub points_at : Option ℕ → ℕ → Bool
points_at none o = false
points_at (some q) o = eqb q o

unfoldable pub has_connection : ConnectionsHandler → String → Bool
has_connection h phone = elim (registered h phone) [ none ↦ false | some _ ↦ true ]

unfoldable pub active_phone_numbers : ConnectionsHandler → List String
active_phone_numbers h = keys h.connections

-- Those of `drainingWebhooks` that still deliver.
unfoldable pub still_delivering : (ℕ → Connection) → List ℕ → List ℕ
still_delivering objects [] = []
still_delivering objects (o ∷ s) =
    let rest = still_delivering objects s in
    if eqb (objects o).in_flight_webhooks 0 then rest else o ∷ rest

unfoldable pub webhooks_of : (ℕ → Connection) → List ℕ → ℕ
webhooks_of objects [] = 0
webhooks_of objects (o ∷ s) = (objects o).in_flight_webhooks + webhooks_of objects s

-- inFlightWebhookCount, with the set that it cleans up.
unfoldable pub in_flight_webhook_count : ConnectionsHandler → ℕ × ConnectionsHandler
unfolding still_delivering webhooks_of
in_flight_webhook_count h =
    let draining = still_delivering h.objects h.draining_webhooks in
    (
      webhooks_of h.objects (values h.connections) + webhooks_of h.objects draining,
      record h { draining_webhooks = draining },
    )

pub record ConnectionActivity : Type 0 where
  pub in_flight_webhooks : ℕ
  pub last_traffic_at : Option ℕ

unfoldable pub connection_activity : ConnectionsHandler → String → Option ConnectionActivity
connection_activity h phone = elim (registered h phone) [
  | none ↦ none
  | some o ↦ some (record {
    in_flight_webhooks = (h.objects o).in_flight_webhooks;
    last_traffic_at = (h.objects o).last_traffic_at;
  })
]

pub record SendHealth : Type 0 where
  pub connected : Bool
  pub send_state : SendState
  pub consecutive_send_timeouts : ℕ
  pub last_traffic_ago_ms : Option ℕ
  pub last_send_completed_ago_ms : Option ℕ
  pub last_outgoing_ack_ago_ms : Option ℕ

-- Times are those of clocks that do not go back, in whole milliseconds.
abbrev pub age : ℕ → Option ℕ → Option ℕ
age now none = none
age now (some at) = some (now - at)

unfoldable pub send_health : ℕ → ℕ → ConnectionsHandler → String → Option SendHealth
send_health date_now performance_now h phone = elim (registered h phone) [
  | none ↦ none
  | some o ↦ some (record {
    connected = (h.objects o).is_open;
    send_state = send_state (h.objects o);
    consecutive_send_timeouts = (h.objects o).consecutive_send_timeouts;
    last_traffic_ago_ms = age performance_now (h.objects o).last_traffic_at;
    last_send_completed_ago_ms = age date_now (h.objects o).last_send_completed_at;
    last_outgoing_ack_ago_ms = age date_now (h.objects o).last_outgoing_ack_at;
  })
]

unfoldable pub current_connection_options : ConnectionsHandler → String → Option ConnectionOptions
current_connection_options h phone = elim (registered h phone) [
  | none ↦ none
  | some o ↦ some (current_options (h.objects o))
]

abbrev is_stalled : SendState → Bool
is_stalled stalled = true
is_stalled _ = false

unfoldable pub stalled_among : (ℕ → Connection) → List ℕ → ℕ
stalled_among objects [] = 0
stalled_among objects (o ∷ s) =
    let rest = stalled_among objects s in
    if is_stalled (send_state (objects o)) then suc rest else rest

unfoldable pub stalled_connection_count : ConnectionsHandler → ℕ
unfolding stalled_among
stalled_connection_count h = stalled_among h.objects (values h.connections)

-- `if (connection.inFlightWebhooks > 0) this.drainingWebhooks.add(connection)`
unfoldable pub keep_draining : ℕ → ConnectionsHandler → ConnectionsHandler
keep_draining o h = record h {
  draining_webhooks =
      if ltb 0 (h.objects o).in_flight_webhooks
      then add h.draining_webhooks o
      else h.draining_webhooks;
}

unfoldable pub discard_object : ℕ → ConnectionsHandler → ConnectionsHandler
unfolding put
discard_object o h = put h o (discard (h.objects o))

unfoldable pub unregister : String → ConnectionsHandler → ConnectionsHandler
unregister phone h = record h { connections = remove h.connections phone }

unfoldable pub unregister_if : String → ℕ → ConnectionsHandler → ConnectionsHandler
unregister_if phone o h = record h {
  connections =
      if points_at (registered h phone) o then remove h.connections phone else h.connections;
}

-- A connection given up: by discardConnection, and by a connect that has to start anew.
unfoldable pub retire : String → ℕ → ConnectionsHandler → ConnectionsHandler
unfolding keep_draining unregister discard_object
retire phone o h = keep_draining o (unregister phone (discard_object o h))

-- The body of discardConnection.
unfoldable pub discard_registered : String → ConnectionsHandler → ConnectionsHandler
unfolding retire
discard_registered phone h = elim (registered h phone) [ none ↦ h | some o ↦ retire phone o h ]

-- connect on a socket that turned out not to be connected
unfoldable pub evict : String → ℕ → ConnectionsHandler → ConnectionsHandler
unfolding discard_object unregister
evict phone o h =
    if points_at (registered h phone) o then unregister phone (discard_object o h) else h

-- `if (previous) previous.discard()`, where `previous` is the phone's entry
unfoldable pub discard_previous : String → ConnectionsHandler → ConnectionsHandler
discard_previous phone h = record h {
  objects = λ j. if points_at (registered h phone) j then discard (h.objects j) else h.objects j;
}

-- A new object under the next number, and its entry.
unfoldable pub add_connection : String → Connection → ConnectionsHandler → ConnectionsHandler
unfolding put
add_connection phone c h = record (put h h.next c) {
  connections = assign h.connections phone h.next;
  next = suc h.next;
}

-- What spawnConnection does before it awaits the new connection's connect().
unfoldable pub register_new : String → ConnectionOptions → ConnectionsHandler → ConnectionsHandler
unfolding discard_previous add_connection
register_new phone options h =
    add_connection phone (new_connection phone options) (discard_previous phone h)

-- The catch block of spawnConnection.
unfoldable pub withdraw_spawn : String → ℕ → ConnectionsHandler → ConnectionsHandler
unfolding keep_draining discard_object unregister_if
withdraw_spawn phone o h = keep_draining o (discard_object o (unregister_if phone o h))

-- The callback onConnectionClose, without the client's own.
unfoldable pub on_connection_close : String → ℕ → ConnectionsHandler → ConnectionsHandler
unfolding unregister_if
on_connection_close phone o h = unregister_if phone o h

-- The callback onSpawnFailed with the epoch of this connection: also what onUnrecoverable does.
unfoldable pub report_spawn_failure : String → ℕ → ConnectionsHandler → ConnectionsHandler
report_spawn_failure phone o h = record h {
  spawn_failures = (phone, (h.objects o).lease_epoch) ∷ h.spawn_failures;
}

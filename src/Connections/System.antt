-- ===== src/Connections/System.antt =====
-- src/baileys/connectionsHandler.ts: any number of operations at once. JavaScript runs one of them
-- at a time from one await to the next, and which one goes on, and how its await ends, is open.
use baileys_api.Prelude.{ℕ, suc, ◌≡◌, ◌≢◌, String, true, false, none, some, [], eqb, if◌then◌else◌}
use baileys_api.Exec.{Error, not_connected, Result, ok, throw}
use baileys_api.Entries.{lookup}
use baileys_api.Connections.Options.{Connection}
use baileys_api.Connections.Registry.{
  ConnectionsHandler, put, registered, unregister, evict, withdraw_spawn, report_spawn_failure,
  on_connection_close,
}
use baileys_api.Connections.Slots.{
  Caller, client, watchdog, Resolver, Operation, connect, Outcome, done, connected, failed, Pc,
  idle, parked, spawning, updating, probing, ending, leaving, settled, withdrawing, finished,
  release, drain, request_restart, logout_all_ends,
}

-- The `catch` of a connect that found no socket: evict, and decide anew.
unfoldable pub probe_failed :
    ℕ → String → ℕ → Caller → Resolver → Error → ConnectionsHandler → ConnectionsHandler × Pc
unfolding evict drain
probe_failed i phone o caller resolve not_connected h =
    drain i phone (connect caller resolve) (evict phone o h)
probe_failed i phone o caller resolve e h = (h, settled phone caller (failed e))

-- A verdict on its way to the webhook.
unfoldable pub report_stall : ℕ → ConnectionsHandler → ConnectionsHandler
unfolding put
report_stall o h =
    put h o (record (h.objects o) { in_flight_webhooks = suc (h.objects o).in_flight_webhooks })

-- The `catch` of requestRestart.
unfoldable pub restart_failed : String → ℕ → ConnectionsHandler → ConnectionsHandler
unfolding report_stall report_spawn_failure
restart_failed phone o h = elim (registered h phone) [
  | none ↦ report_spawn_failure phone o (report_stall o h)
  | some _ ↦ report_stall o h
]

-- withdrawStallRestart up to its first await.
unfoldable pub call_off : ℕ → ConnectionsHandler → ConnectionsHandler
unfolding put
call_off o h = put h o (record (h.objects o) { restart_pending = false })

-- What follows an operation: nothing, or the `then` and the `catch` of requestRestart.
unfoldable pub conclude : String → Caller → Outcome → ConnectionsHandler → ConnectionsHandler × Pc
unfolding call_off restart_failed
conclude phone client out h = (h, finished out)
conclude phone (watchdog o) (connected false) h = (call_off o h, withdrawing o)
conclude phone (watchdog o) (failed e) h = (restart_failed phone o h, finished (failed e))
conclude phone (watchdog o) out h = (h, finished out)

-- A task goes on after an await that ended with `res`.
unfoldable pub resume : ℕ → Pc → Result (Unit {0}) → ConnectionsHandler → ConnectionsHandler × Pc
unfolding withdraw_spawn probe_failed unregister release conclude report_stall
resume i (spawning phone o caller) (ok _) h = (h, leaving phone caller (connected true))
resume i (spawning phone o caller) (throw e) h =
    (withdraw_spawn phone o h, leaving phone caller (failed e))
resume i (updating phone o caller resolve) (ok _) h = (h, probing phone o caller resolve)
resume i (updating phone o caller resolve) (throw e) h = (h, settled phone caller (failed e))
resume i (probing phone o caller resolve) (ok _) h = (h, settled phone caller (connected true))
resume i (probing phone o caller resolve) (throw e) h = probe_failed i phone o caller resolve e h
resume i (ending phone o) (ok _) h = (unregister phone h, leaving phone client done)
resume i (ending phone o) (throw e) h = (h, leaving phone client (failed e))
resume i (leaving phone caller out) res h = (release i phone h, settled phone caller out)
resume i (settled phone caller out) res h = conclude phone caller out h
resume i (withdrawing o) res h = (report_stall o h, finished done)
resume i pc res h = (h, pc)

pub record System : Type 0 where
  pub handler : ConnectionsHandler
  pub pc : ℕ → Pc

abbrev pub update {ℓ} : {A : Type ℓ} → (ℕ → A) → ℕ → A → ℕ → A
update f i a j = if eqb i j then a else f j

abbrev pub move : System → ℕ → ConnectionsHandler × Pc → System
move s i (h, p) = record { handler = h; pc = update s.pc i p }

-- What runs between two awaits.
pub data Step (s : System) : System → Type 0 where
  -- an operation is called
  begin :
      (i : ℕ) (phone : String) (op : Operation)
      → s.pc i ≡ idle
      → Step s (move s i (drain i phone op s.handler))
  -- a connection asks to be restarted
  restart :
      (i : ℕ) (phone : String) (o : ℕ)
      → s.pc i ≡ idle
      → Step s (move s i (request_restart i phone o s.handler))
  -- the slot that a task waits for is gone
  wake :
      (i : ℕ) (phone : String) (slot : ℕ) (op : Operation)
      → s.pc i ≡ parked phone slot op
      → lookup s.handler.in_flight_ops phone ≢ some slot
      → Step s (move s i (drain i phone op s.handler))
  -- any other await ends
  go_on : (i : ℕ) (res : Result (Unit {0})) → Step s (move s i (resume i (s.pc i) res s.handler))
  -- a connection that is over calls onConnectionClose
  close :
      (phone : String) (o : ℕ)
      → (s.handler.objects o).is_discarded ≡ true
      → Step s (record s { handler = on_connection_close phone o s.handler })
  -- a connection calls onUnrecoverable
  give_up :
      (phone : String) (o : ℕ)
      → Step s (record s { handler = report_spawn_failure phone o s.handler })
  -- logoutAll goes on after its last await, where each connection that is registered is discarded by
  -- then; the step in which one is still live is left out
  clear :
      ((phone : String) (o : ℕ)
        → registered s.handler phone ≡ some o
        → (s.handler.objects o).is_discarded ≡ true)
      → Step s (record s { handler = logout_all_ends s.handler })
  -- a connection changes by itself: traffic, webhooks, an end; none comes back from its end
  change :
      (o : ℕ) (c : Connection)
      → c.phone ≡ (s.handler.objects o).phone
      → ((s.handler.objects o).is_discarded ≡ true → c.is_discarded ≡ true)
      → Step s (record s { handler = put s.handler o c })

abbrev pub new_handler : (ℕ → Connection) → ConnectionsHandler
new_handler objects = record {
  connections = [];
  in_flight_ops = [];
  draining_webhooks = [];
  objects = objects;
  next = 0;
  spawn_failures = [];
}

-- Whatever the first handler's empty heap holds.
pub data Reach : System → Type 0 where
  start :
      (objects : ℕ → Connection) → Reach (record { handler = new_handler objects; pc = λ _. idle })
  later : {s t : System} → Reach s → Step s t → Reach t

-- ===== src/Connections/Tests.antt =====
-- The theorems on the connections handler at concrete inputs: one phone, and two tasks.
use baileys_api.Prelude.{
  ℕ, ◌+◌, ◌≡◌, ◌≢◌, ◌⊎◌, refl, String, true, false, [], ◌∷◌, none, some, arith,
}
use baileys_api.Exec.{redis_error, throw, not_connected}
use baileys_api.Entries.{lookup, assign, IsMap, has}
use baileys_api.Connections.Options.{Connection, ConnectionOptions, new_connection}
use baileys_api.Connections.Registry.{
  ConnectionsHandler, registered, put, register_new, discard_previous, add_connection, evict,
  in_flight_webhook_count,
}
use baileys_api.Connections.Slots.{
  client, Resolver, connect, discard_connection, idle, spawning, probing, leaving, failed, drain,
  enter, resolve_and_connect, reuse_or_spawn, spawn, logout_all_ends,
}
use baileys_api.Connections.System.{System, move, begin, new_handler, Reach, start, later, resume}
use baileys_api.Connections.Exclusion.{
  live_is_unique, slots_exclude, Wakes, parked-Wakes, spawning_fails,
}
use baileys_api.Connections.Restarts.{logout_all_orphans, stale_is_replaced}
use baileys_api.Connections.Webhooks.{evict-in_flight_webhook_count}

abbrev phone : String
phone = "5511"

abbrev options : ConnectionOptions
options = record {
  client_name = none;
  webhook_url = "http://chat";
  webhook_verify_token = "token";
  include_media = none;
  sync_full_history = none;
  groups_enabled = none;
  auto_presence_subscribe = none;
  api_key_hash = none;
  is_reconnect = none;
  force_restart = none;
  lease_epoch = some 5;
}

abbrev given : Resolver
given h = some options

abbrev heap : ℕ → Connection
heap o = record (new_connection phone options) {
  restart_pending = true;
  in_flight_webhooks = 2;
  client_name = "Chrome";
}

abbrev first : System
first = record { handler = new_handler heap; pc = λ _. idle }

-- Task 0 spawns, and task 1 waits for its slot.
abbrev one_spawns : System
one_spawns = move first 0 (drain 0 phone (connect client given) first.handler)

abbrev one_waits : System
one_waits = move one_spawns 1 (drain 1 phone discard_connection one_spawns.handler)

one_spawns_reach : Reach one_spawns
one_spawns_reach = later (start heap) (begin 0 phone (connect client given) refl)

one_waits_reach : Reach one_waits
one_waits_reach = later one_spawns_reach (begin 1 phone discard_connection refl)

live_is_unique_example :
    (◌≡◌ {A = ℕ} 0 0)
    × (registered one_spawns.handler (one_spawns.handler.objects 0).phone ≡ some 0)
unfolding drain enter resolve_and_connect reuse_or_spawn spawn register_new discard_previous
    add_connection put new_connection lookup
live_is_unique_example =
    live_is_unique one_spawns_reach 0 0 (omega arith) (omega arith) refl refl refl

slots_exclude_example : ◌≡◌ {A = ℕ} 0 0
unfolding drain enter resolve_and_connect reuse_or_spawn spawn register_new lookup
slots_exclude_example = slots_exclude one_spawns_reach 0 0 phone refl refl

parked-Wakes_example : Wakes one_waits 1 phone 0 discard_connection
unfolding drain enter resolve_and_connect reuse_or_spawn spawn register_new lookup assign
    discard_previous add_connection put
parked-Wakes_example = parked-Wakes one_waits_reach 1 0 phone discard_connection refl

spawning_fails_example :
    let t = move one_spawns 0 (resume 0 (one_spawns.pc 0) (throw redis_error) one_spawns.handler) in
    (registered t.handler phone ≡ none)
    × ((t.handler.objects 0).is_discarded ≡ true)
    × (t.pc 0 ≡ leaving phone client (failed redis_error))
    × (((one_spawns.handler.objects 0).in_flight_webhooks ≡ 0)
        ⊎ (has t.handler.draining_webhooks 0 ≡ true))
unfolding drain enter resolve_and_connect reuse_or_spawn spawn register_new lookup
spawning_fails_example = spawning_fails one_spawns_reach 0 phone 0 client redis_error refl

abbrev holding : ConnectionsHandler
holding = record {
  connections = (phone, 0) ∷ [];
  in_flight_ops = [];
  draining_webhooks = [];
  objects = heap;
  next = 1;
  spawn_failures = [];
}

logout_all_orphans_example :
    let t = (drain 0 phone (connect client given) (logout_all_ends holding)).0 in
    (registered (logout_all_ends holding) phone ≡ none)
    × (registered t phone ≡ some 1)
    × (◌≢◌ {A = ℕ} 0 1)
    × ((t.objects 0).phone ≡ (t.objects 1).phone)
    × ((t.objects 0).is_discarded ≡ false)
    × ((t.objects 1).is_discarded ≡ false)
unfolding lookup new_connection
logout_all_orphans_example =
    logout_all_orphans 0 phone 0 holding client given options (omega arith) refl refl refl refl

stale_is_replaced_example :
    let t = resume 0 (probing phone 0 client given) (throw not_connected) holding in
    (t.1 ≡ spawning phone 1 client)
    × (registered t.0 phone ≡ some 1)
    × ((t.0.objects 0).is_discarded ≡ true)
    × ((t.0.objects 1).is_discarded ≡ false)
unfolding lookup
stale_is_replaced_example =
    stale_is_replaced 0 phone 0 holding client given options refl (omega arith) refl refl

evict-in_flight_webhook_count_example :
    (in_flight_webhook_count (evict phone 0 holding)).0 + 2 ≡ (in_flight_webhook_count holding).0
unfolding lookup IsMap
evict-in_flight_webhook_count_example =
    evict-in_flight_webhook_count phone 0 holding (refl, tt) refl

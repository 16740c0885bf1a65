-- ===== src/Connections/Restarts.antt =====
-- src/baileys/connectionsHandler.ts: what becomes of a connection that is replaced, of its options,
-- and of its webhooks.
use baileys_api.Prelude.{
  ap, ◌∙◌, subst, Bool-cases, ℕ, ◌≤◌, ◌<◌, ◌≡◌, ◌≢◌, refl, eq-false, Option-cases, max, inl, inr,
  String, true, false, Option, none, some, eqb, arith, eq_refl,
}
use baileys_api.Exec.{throw, not_connected}
use baileys_api.Connections.System.{resume, probe_failed}
use baileys_api.Entries.{lookup, assign, remove, lookup-assign, lookup-remove}
use baileys_api.Connections.Options.{
  Connection, ConnectionOptions, new_connection, update_options, advance_epoch, current_options,
  is_true,
}
use baileys_api.Connections.Registry.{
  ConnectionsHandler, put, registered, points_at, retire, evict, keep_draining, discard_object,
  unregister, register_new, discard_previous, add_connection,
}
use baileys_api.Connections.Slots.{
  Caller, watchdog, Resolver, connect, Outcome, connected, settled, spawning, probing, drain, enter,
  resolve_and_connect, reuse_or_spawn, spawn, still_ours, request_restart, logout_all_ends,
  connect_options,
}

-- A reconfiguration never takes a connection's epoch back to an older one, nor to none.
pub update_options_epoch :
    (options : ConnectionOptions) (c : Connection) (epoch : ℕ)
    → c.lease_epoch ≡ some epoch
    → (later : ℕ) × ((update_options options c).lease_epoch ≡ some later) × (epoch ≤ later)
unfolding update_options advance_epoch
update_options_epoch options c epoch e = elim (Option-cases options.lease_epoch) [
  | inl n ↦ (epoch, ground arith, omega arith)
  | inr (given, n) ↦ (max epoch given, ground arith, ground arith)
]

abbrev restart_options : Connection → ConnectionOptions
restart_options c = record (current_options c) {
  is_reconnect = some true;
  force_restart = some true;
}

-- A connect with `forceRestart` discards what is registered, and spawns.
connect_forced :
    (i : ℕ) (phone : String) (o : ℕ) (h : ConnectionsHandler) (caller : Caller) (resolve : Resolver)
    (options : ConnectionOptions)
    → lookup h.in_flight_ops phone ≡ none
    → registered h phone ≡ some o
    → resolve h ≡ some options
    → options.force_restart ≡ some true
    → drain i phone (connect caller resolve) h
      ≡ spawn i phone caller (connect_options options) (retire phone o h)
unfolding drain reuse_or_spawn
connect_forced i phone o h caller resolve options free e q f =
    rw (free, drain, enter, q, resolve_and_connect)
      (ap (λ m. reuse_or_spawn i phone caller resolve options m h) e ∙ rw f refl)

restart_spawns :
    (i : ℕ) (phone : String) (o : ℕ) (h : ConnectionsHandler)
    → lookup h.in_flight_ops phone ≡ none
    → registered h phone ≡ some o
    → (h.objects o).restart_pending ≡ true
    → request_restart i phone o h
      ≡ spawn i phone
          (watchdog o)
          (connect_options (restart_options (h.objects o)))
          (retire phone o h)
unfolding request_restart still_ours current_options
restart_spawns i phone o h free e p =
    let hit : points_at (registered h phone) o ≡ true = ground arith in
    rw hit (
      connect_forced i phone o h (watchdog o) (still_ours phone o) (restart_options (h.objects o))
        free e (rw (hit, p) refl) refl)

eqb_refl : (n : ℕ) → eqb n n ≡ true
eqb_refl n = ground arith

rebuilt :
    (phone : String) (c : Connection)
    → c.client_name ≢ ""
    → current_options (new_connection phone (connect_options (restart_options c)))
      ≡ current_options c
unfolding current_options new_connection
rebuilt phone c n = rw (eq-false n) refl

-- A restart that the watchdog asks for, on a phone whose slot is free: the connection is discarded,
-- and registered in its place is a new one with the options that it had at that moment.
pub restart_rebuilds :
    (i : ℕ) (phone : String) (o : ℕ) (h : ConnectionsHandler)
    → lookup h.in_flight_ops phone ≡ none
    → registered h phone ≡ some o
    → o < h.next
    → (h.objects o).restart_pending ≡ true
    → (h.objects o).client_name ≢ ""
    → let t = (request_restart i phone o h).0 in
      (registered t phone ≡ some h.next)
      × ((t.objects o).is_discarded ≡ true)
      × ((t.objects h.next).is_discarded ≡ false)
      × (current_options (t.objects h.next) ≡ current_options (h.objects o))
      × (lookup t.in_flight_ops phone ≡ some i)
unfolding spawn retire register_new discard_previous add_connection put discard_object unregister
    keep_draining new_connection current_options
restart_rebuilds i phone o h free e b p n = rw (restart_spawns i phone o h free e p) (
  ground (arith, lookup-assign (remove h.connections phone) phone phone h.next, eq_refl phone),
  ground arith,
  ground arith,
  rw (eqb_refl h.next) (rebuilt phone (h.objects o) n),
  ground (arith, lookup-assign h.in_flight_ops phone phone i, eq_refl phone),
)

-- Once the last logout of logoutAll has ended, a live connection that was registered meanwhile is in
-- no entry, and a connect for its phone registers a second live connection beside it.
pub logout_all_orphans :
    (i : ℕ) (phone : String) (o : ℕ) (h : ConnectionsHandler) (caller : Caller) (resolve : Resolver)
    (options : ConnectionOptions)
    → o < h.next
    → (h.objects o).is_discarded ≡ false
    → (h.objects o).phone ≡ phone
    → lookup h.in_flight_ops phone ≡ none
    → resolve (logout_all_ends h) ≡ some options
    → let t = (drain i phone (connect caller resolve) (logout_all_ends h)).0 in
      (registered (logout_all_ends h) phone ≡ none)
      × (registered t phone ≡ some h.next)
      × (o ≢ h.next)
      × ((t.objects o).phone ≡ (t.objects h.next).phone)
      × ((t.objects o).is_discarded ≡ false)
      × ((t.objects h.next).is_discarded ≡ false)
unfolding drain enter resolve_and_connect reuse_or_spawn spawn register_new discard_previous
    add_connection put new_connection logout_all_ends lookup assign
logout_all_orphans i phone o h caller resolve options b d own free e =
    rw (free, drain, enter, e, resolve_and_connect, reuse_or_spawn)
      (refl, ground (arith, eq_refl phone), ground arith, ground arith, ground arith, ground arith)

reuse_or_spawn_goes_on :
    (i : ℕ) (phone q : String) (h : ConnectionsHandler) (caller c : Caller) (resolve : Resolver)
    (options : ConnectionOptions) (existing : Option ℕ) (out : Outcome)
    → (reuse_or_spawn i phone caller resolve options existing h).1 ≢ settled q c out
unfolding reuse_or_spawn spawn
reuse_or_spawn_goes_on i phone q h caller c resolve options none out = λ f. cc
reuse_or_spawn_goes_on i phone q h caller c resolve options (some o) out =
    elim (Bool-cases (is_true options.force_restart)) [
      | inl t ↦ rw t (λ f. cc)
      | inr t ↦ rw t (λ f. cc)
    ]

-- connect resolves to false without a veto of its resolver on no path up to its first await, and a
-- vetoed connect leaves the handler as it was.
pub connect_false :
    (i : ℕ) (phone q : String) (h : ConnectionsHandler) (caller c : Caller) (resolve : Resolver)
    → (drain i phone (connect caller resolve) h).1 ≡ settled q c (connected false)
    → (resolve h ≡ none) × ((drain i phone (connect caller resolve) h).0 ≡ h)
unfolding drain
connect_false i phone q h caller c resolve = elim (Option-cases (lookup h.in_flight_ops phone)) [
  | inr (slot, g) ↦ rw (g, drain) (λ e. cc)
  | inl g ↦ elim (Option-cases (resolve h)) [
    | inl n ↦ rw (g, drain, enter, n, resolve_and_connect) (λ e. (refl, refl))
    | inr (options, n) ↦
        rw (g, drain, enter, n, resolve_and_connect)
          (λ e.
            absurd (
              reuse_or_spawn_goes_on i phone q h caller c resolve options (registered h phone) _ e))
  ]
]

connect_spawns :
    (i : ℕ) (phone : String) (h : ConnectionsHandler) (caller : Caller) (resolve : Resolver)
    (options : ConnectionOptions)
    → lookup h.in_flight_ops phone ≡ none
    → registered h phone ≡ none
    → resolve h ≡ some options
    → drain i phone (connect caller resolve) h ≡ spawn i phone caller (connect_options options) h
unfolding drain reuse_or_spawn
connect_spawns i phone h caller resolve options free n e =
    rw (free, drain, enter, e, resolve_and_connect)
      (ap (λ m. reuse_or_spawn i phone caller resolve options m h) n)

evicted :
    (phone : String) (o : ℕ) (h : ConnectionsHandler)
    → points_at (registered h phone) o ≡ true
    → evict phone o h ≡ unregister phone (discard_object o h)
unfolding evict unregister
evicted phone o h hit = rw (evict, hit) refl

-- A connect that finds the registered socket not connected, while the phone's slot is free, does not
-- probe it again: it discards it and spawns, so that its loop is at its end.
pub stale_is_replaced :
    (i : ℕ) (phone : String) (o : ℕ) (h : ConnectionsHandler) (caller : Caller) (resolve : Resolver)
    (options : ConnectionOptions)
    → registered h phone ≡ some o
    → o < h.next
    → lookup h.in_flight_ops phone ≡ none
    → resolve (evict phone o h) ≡ some options
    → let t = resume i (probing phone o caller resolve) (throw not_connected) h in
      (t.1 ≡ spawning phone h.next caller)
      × (registered t.0 phone ≡ some h.next)
      × ((t.0.objects o).is_discarded ≡ true)
      × ((t.0.objects h.next).is_discarded ≡ false)
unfolding resume probe_failed spawn register_new discard_previous add_connection put discard_object
    unregister new_connection
stale_is_replaced i phone o h caller resolve options e b free f =
    let hit : points_at (registered h phone) o ≡ true = ground arith in
    let left = evicted phone o h hit in
    rw
      (
        left,
        connect_spawns i phone (unregister phone (discard_object o h)) caller resolve options free
            (ground (arith, lookup-remove h.connections phone phone, eq_refl phone))
            (subst (λ x. resolve x ≡ some options) left f),
      )
      (
        refl,
        ground
            (arith, lookup-assign (remove h.connections phone) phone phone h.next, eq_refl phone),
        ground arith,
        ground arith,
      )

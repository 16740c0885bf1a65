-- ===== src/Connections/Single/Moves.antt =====
-- src/baileys/connectionsHandler.ts: every part of an operation, from one await to the next.
use baileys_api.Prelude.{
  ℕ, ◌≡◌, refl, inl, inr, String, true, false, Option, none, some, ◌==◌, arith, eq_iff, eq_refl,
  Bool-cases, Option-cases,
}
use baileys_api.Exec.{Error, not_connected, Result, ok, throw}
use baileys_api.Entries.{lookup}
use baileys_api.Connections.Options.{ConnectionOptions, update_options, is_true}
use baileys_api.Connections.Registry.{
  ConnectionsHandler, put, registered, points_at, retire, discard_object,
}
use baileys_api.Connections.Slots.{
  Caller, client, watchdog, Resolver, Operation, connect, discard_connection, logout,
  request_logout, Outcome, connected, failed, Pc, idle, parked, spawning, updating, probing, ending,
  leaving, settled, withdrawing, finished, take, spawn, reuse_or_spawn, resolve_and_connect, enter,
  drain, request_restart, still_ours,
}
use baileys_api.Connections.System.{
  probe_failed, report_stall, restart_failed, call_off, conclude, resume,
}
use baileys_api.Connections.Single.Shrinks.{
  IsSound, Shrinks, Shrinks-refl, Shrinks-trans, put-Shrinks, discard_object-Shrinks,
  unregister-Shrinks, retire-Shrinks, discard_registered-Shrinks, evict-Shrinks,
  withdraw_spawn-Shrinks, report_spawn_failure-Shrinks,
}
use baileys_api.Connections.Single.Effects.{
  holds, Exists-after, Fits, Effect, Shrinks-Effect, Effect-after, take-Effect, spawn-Effect,
  release-Effect,
}

abbrev pub HasEffect : ℕ → ConnectionsHandler → Pc → ConnectionsHandler × Pc → Type 0
HasEffect i h p (h', p') = Effect i h p h' p'

module _ {h : ConnectionsHandler} (r : IsSound h) where
  report_stall-Shrinks : (o : ℕ) → Shrinks h (report_stall o h)
  unfolding report_stall
  report_stall-Shrinks o = put-Shrinks r o _ refl (λ d. d)

  restart_failed-Shrinks : (phone : String) (o : ℕ) → Shrinks h (restart_failed phone o h)
  unfolding restart_failed
  restart_failed-Shrinks phone o = elim (Option-cases (registered h phone)) [
    | inl e ↦
        rw (e, restart_failed)
          (let s = report_stall-Shrinks o in
            Shrinks-trans s (report_spawn_failure-Shrinks s.sound phone o))
    | inr (q, e) ↦ rw (e, restart_failed) (report_stall-Shrinks o)
  ]

module _ {i : ℕ} {h : ConnectionsHandler} {p : Pc} (nothing : (q : String) → holds p q ≡ false)
    (r : IsSound h) where
  stay :
      {h' : ConnectionsHandler} {p' : Pc}
      → Shrinks h h'
      → ((q : String) → holds p' q ≡ false)
      → Fits h' p'
      → Effect i h p h' p'
  stay s e f =
      Shrinks-Effect (λ q t. ground (arith, nothing q)) s (λ q. ground (arith, nothing q, e q)) f

  module _ (phone : String) (free : lookup h.in_flight_ops phone ≡ none) where
    restarted :
        (c : Caller) (options : ConnectionOptions) (o : ℕ)
        → registered h phone ≡ some o
        → HasEffect i h p (spawn i phone c options (retire phone o h))
    restarted c options o e =
        let s = retire-Shrinks r phone o e in
        Effect-after s (spawn-Effect phone nothing (rw s.ops free) c options s.sound)

    reuse_or_spawn-Effect :
        (c : Caller) (resolve : Resolver) (options : ConnectionOptions) (existing : Option ℕ)
        → registered h phone ≡ existing
        → HasEffect i h p (reuse_or_spawn i phone c resolve options existing h)
    unfolding reuse_or_spawn update_options
    reuse_or_spawn-Effect c resolve options none e = spawn-Effect phone nothing free c _ r
    reuse_or_spawn-Effect c resolve options (some o) e =
        elim (Bool-cases (is_true options.force_restart)) [
          | inl f ↦ rw f (restarted c _ o e)
          | inr f ↦ rw f (
              let s = put-Shrinks r o _ refl (λ d. d) in
              stay s (λ q. refl) (Exists-after s (r.entries phone o e)))
        ]

    resolve_and_connect-Effect :
        (c : Caller) (resolve : Resolver)
        → HasEffect i h p (resolve_and_connect i phone c resolve h)
    unfolding resolve_and_connect
    resolve_and_connect-Effect c resolve = elim (Option-cases (resolve h)) [
      | inl e ↦ rw (e, resolve_and_connect) (stay (Shrinks-refl r) (λ q. refl) tt)
      | inr (o, e) ↦
          rw (e, resolve_and_connect) (reuse_or_spawn-Effect c resolve o (registered h phone) refl)
    ]

    begin_logout-Effect :
        (o : ℕ)
        → registered h phone ≡ some o
        → Effect i h p (discard_object o (take i phone h)) (ending phone o)
    unfolding discard_object put
    begin_logout-Effect o e =
        let s = discard_object-Shrinks {h = take i phone h} r o in
        take-Effect phone nothing free s (λ q. refl)
          (Exists-after s (r.entries phone o e), ground arith, λ q f. ground arith)

    enter-Effect : (op : Operation) → HasEffect i h p (enter i phone op h)
    unfolding enter
    enter-Effect (connect c resolve) = resolve_and_connect-Effect c resolve
    enter-Effect discard_connection =
        take-Effect phone nothing free (discard_registered-Shrinks {h = take i phone h} r phone)
          (λ q. refl) tt
    enter-Effect logout = elim (Option-cases (registered h phone)) [
      | inl e ↦
          rw (e, enter)
            (take-Effect phone nothing free (Shrinks-refl {h = take i phone h} r) (λ q. refl) tt)
      | inr (o, e) ↦ rw (e, enter) (begin_logout-Effect o e)
    ]
    enter-Effect (request_logout o) = elim (Bool-cases (points_at (registered h phone) o)) [
      | inl e ↦ rw (e, enter) (begin_logout-Effect o (ground arith))
      | inr e ↦
          rw (e, enter)
            (take-Effect phone nothing free (Shrinks-refl {h = take i phone h} r) (λ q. refl) tt)
    ]

  pub drain-Effect : (phone : String) (op : Operation) → HasEffect i h p (drain i phone op h)
  unfolding drain
  drain-Effect phone op = elim (Option-cases (lookup h.in_flight_ops phone)) [
    | inl e ↦ rw (e, drain) (enter-Effect phone e op)
    | inr (slot, e) ↦ rw (e, drain) (stay (Shrinks-refl r) (λ q. refl) tt)
  ]

  pub request_restart-Effect :
      (phone : String) (o : ℕ) → HasEffect i h p (request_restart i phone o h)
  unfolding request_restart
  request_restart-Effect phone o = elim (Bool-cases (points_at (registered h phone) o)) [
    | inl e ↦
        rw (e, request_restart) (drain-Effect phone (connect (watchdog o) (still_ours phone o)))
    | inr e ↦ rw (e, request_restart) (stay (Shrinks-refl r) (λ q. refl) tt)
  ]

  conclude-Effect :
      (phone : String) (c : Caller) (out : Outcome) → HasEffect i h p (conclude phone c out h)
  unfolding conclude call_off
  conclude-Effect phone client out = stay (Shrinks-refl r) (λ q. refl) tt
  conclude-Effect phone (watchdog o) (connected false) =
      stay (put-Shrinks r o _ refl (λ d. d)) (λ q. refl) tt
  conclude-Effect phone (watchdog o) (failed e) =
      stay (restart_failed-Shrinks r phone o) (λ q. refl) tt
  conclude-Effect phone (watchdog o) _ = stay (Shrinks-refl r) (λ q. refl) tt

module _ {i : ℕ} {h : ConnectionsHandler} (r : IsSound h) where
  probe_failed-Effect :
      {p : Pc} (nothing : (q : String) → holds p q ≡ false) (phone : String) (o : ℕ) (c : Caller)
      (resolve : Resolver) (e : Error)
      → HasEffect i h p (probe_failed i phone o c resolve e h)
  unfolding probe_failed
  probe_failed-Effect nothing phone o c resolve not_connected =
      let s = evict-Shrinks r phone o in
      Effect-after s (drain-Effect nothing s.sound phone (connect c resolve))
  probe_failed-Effect nothing phone o c resolve e = stay nothing r (Shrinks-refl r) (λ q. refl) tt

  -- A task in its slot, which it keeps.
  within :
      {p p' : Pc} {h' : ConnectionsHandler} (phone : String)
      → lookup h.in_flight_ops phone ≡ some i
      → ((q : String) → holds p q ≡ (phone == q))
      → ((q : String) → holds p' q ≡ (phone == q))
      → Shrinks h h'
      → Fits h' p'
      → Effect i h p h' p'
  within phone own e e' s f =
      Shrinks-Effect (λ q t. ground (arith, own, e q, eq_iff phone q)) s
        (λ q. ground (arith, e q, e' q)) f

  pub resume-Effect :
      (p : Pc) (res : Result (Unit {0}))
      → ((q : String) → holds p q ≡ true → lookup h.in_flight_ops q ≡ some i)
      → Fits h p
      → HasEffect i h p (resume i p res h)
  unfolding resume
  resume-Effect (spawning phone o c) (ok _) own f =
      within phone (own phone (eq_refl phone)) (λ q. refl) (λ q. refl) (Shrinks-refl r) tt
  resume-Effect (spawning phone o c) (throw e) own f =
      within phone (own phone (eq_refl phone)) (λ q. refl) (λ q. refl)
        (withdraw_spawn-Shrinks r phone o) tt
  resume-Effect (updating phone o c resolve) (ok _) own f =
      stay (λ q. refl) r (Shrinks-refl r) (λ q. refl) f
  resume-Effect (updating phone o c resolve) (throw e) own f =
      stay (λ q. refl) r (Shrinks-refl r) (λ q. refl) tt
  resume-Effect (probing phone o c resolve) (ok _) own f =
      stay (λ q. refl) r (Shrinks-refl r) (λ q. refl) tt
  resume-Effect (probing phone o c resolve) (throw e) own f =
      probe_failed-Effect (λ q. refl) phone o c resolve e
  resume-Effect (ending phone o) (ok _) own f =
      within phone (own phone (eq_refl phone)) (λ q. refl) (λ q. refl)
        (unregister-Shrinks r phone (λ q e. ground (arith, f.2 q e))) tt
  resume-Effect (ending phone o) (throw e) own f =
      within phone (own phone (eq_refl phone)) (λ q. refl) (λ q. refl) (Shrinks-refl r) tt
  resume-Effect (leaving phone c out) res own f =
      release-Effect phone r (own phone (eq_refl phone)) (λ q. refl) (λ q. refl) tt
  resume-Effect (settled phone c out) res own f = conclude-Effect (λ q. refl) r phone c out
  resume-Effect (withdrawing o) res own f =
      stay (λ q. refl) r (report_stall-Shrinks r o) (λ q. refl) tt
  resume-Effect idle res own f = stay (λ q. refl) r (Shrinks-refl r) (λ q. refl) tt
  resume-Effect (parked phone slot op) res own f =
      stay (λ q. refl) r (Shrinks-refl r) (λ q. refl) tt
  resume-Effect (finished out) res own f = stay (λ q. refl) r (Shrinks-refl r) (λ q. refl) tt

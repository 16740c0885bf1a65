-- ===== src/Connections/Exclusion.antt =====
-- src/baileys/connectionsHandler.ts: what holds of the handler whatever the order of its tasks.
use baileys_api.Prelude.{
  ℕ, ◌<◌, ◌≡◌, ◌≢◌, refl, ◌⊎◌, inl, inr, ap, subst, Bool-cases, String, true, false, Option, none,
  some, arith, eq_iff, eq_refl,
}
use baileys_api.Exec.{Error, ok, throw}
use baileys_api.Entries.{lookup, lookup-remove, has, has-add}
use baileys_api.Connections.Registry.{
  registered, points_at, withdraw_spawn, keep_draining, discard_object, put, unregister_if,
  unregister,
}
use baileys_api.Connections.Slots.{
  Operation, Pc, parked, spawning, ending, leaving, Caller, client, Outcome, done, connected,
  failed, release,
}
use baileys_api.Connections.System.{System, Step, go_on, Reach, resume, move}
use baileys_api.Connections.Single.Effects.{holds, Fits}
use baileys_api.Connections.Single.Invariant.{Reach-Inv}

-- However connects, logouts, restarts and discards interleave, and with every logoutAll at whose end
-- no registered connection is live, two live connections of one phone are one connection, and the
-- phone's entry is that one.
pub live_is_unique :
    {s : System}
    → Reach s
    → (a b : ℕ) → a < s.handler.next
    → b < s.handler.next
    → (s.handler.objects a).is_discarded ≡ false
    → (s.handler.objects b).is_discarded ≡ false
    → (s.handler.objects a).phone ≡ (s.handler.objects b).phone
    → (a ≡ b) × (registered s.handler (s.handler.objects a).phone ≡ some a)
live_is_unique {s} r a b la lb da db e =
    let sound = (Reach-Inv r).sound in
    let one = sound.single a la da in let two = sound.single b lb db in (ground arith, one)

-- Two tasks that both run inside the slot of one phone are one task.
pub slots_exclude :
    {s : System}
    → Reach s
    → (i j : ℕ) (phone : String) → holds (s.pc i) phone ≡ true
    → holds (s.pc j) phone ≡ true
    → i ≡ j
slots_exclude r i j phone a b =
    ground (arith, (Reach-Inv r).held i phone a, (Reach-Inv r).held j phone b)

-- Some steps, one after the other.
pub data Steps (s : System) : System → Type 0 where
  here : Steps s s
  next : {t u : System} → Steps s t → Step t u → Steps s u

after : {s t u : System} → Step s t → Steps t u → Steps s u
after st here = next here st
after st (next p st') = next (after st p) st'

-- A later state in which the slot that a task waits for is gone, while the task waits on.
pub record Wakes (s : System) (i : ℕ) (phone : String) (slot : ℕ) (op : Operation) : Type 0 where
  pub last : System
  pub path : Steps s last
  pub waits : last.pc i ≡ parked phone slot op
  pub free : lookup last.handler.in_flight_ops phone ≢ some slot

module _ {i slot : ℕ} {phone : String} {op : Operation} where
  -- The last step of the task that holds the slot.
  wake_after_leaving :
      {s : System} (caller : Caller) (out : Outcome)
      → s.pc i ≡ parked phone slot op
      → s.pc slot ≡ leaving phone caller out
      → lookup s.handler.in_flight_ops phone ≡ some slot
      → Wakes s i phone slot op
  unfolding resume release
  wake_after_leaving {s} caller out p q own = record {
    last = move s slot (resume slot (s.pc slot) (ok tt) s.handler);
    path = next here (go_on slot (ok tt));
    waits = ground arith;
    free = λ e. ground (arith, lookup-remove s.handler.in_flight_ops phone phone, eq_refl phone);
  }

  -- One step more.
  wake_before : {s t : System} → Step s t → Wakes t i phone slot op → Wakes s i phone slot op
  wake_before st w = record {
    last = w.last;
    path = after st w.path;
    waits = w.waits;
    free = w.free;
  }

  -- A slot is held by a task that is not parked, and at most two steps of it give the slot back.
  wake_from :
      {s : System} (p : Pc)
      → s.pc slot ≡ p
      → holds p phone ≡ true
      → s.pc i ≡ parked phone slot op
      → lookup s.handler.in_flight_ops phone ≡ some slot
      → Wakes s i phone slot op
  unfolding resume unregister
  wake_from (spawning q o c) e t p own = wake_before (go_on slot (ok tt)) (
      wake_after_leaving c (connected true) (ground arith) (ground (arith, eq_iff q phone))
        (ground arith))
  wake_from (ending q o) e t p own = wake_before (go_on slot (ok tt)) (
      wake_after_leaving client done (ground arith) (ground (arith, eq_iff q phone)) (ground arith))
  wake_from (leaving q c out) e t p own =
      wake_after_leaving c out p (ground (arith, eq_iff q phone)) own
  wake_from _ e t p own = cc

-- No deadlock: wherever a task waits for a slot, the steps of the task that holds it, once what that
-- task awaits has settled, lead to a state in which the slot is gone, so that the waiting task goes on.
pub parked-Wakes :
    {s : System}
    → Reach s
    → (i slot : ℕ) (phone : String) (op : Operation) → s.pc i ≡ parked phone slot op
    → Wakes s i phone slot op
parked-Wakes {s} r i slot phone op p =
    elim (Bool-cases (points_at (lookup s.handler.in_flight_ops phone) slot)) [
      | inl hit ↦
          let own : lookup s.handler.in_flight_ops phone ≡ some slot = ground arith in
          wake_from (s.pc slot) refl ((Reach-Inv r).slots slot phone own) p own
      | inr miss ↦ record { last = s; path = here; waits = p; free = λ e. ground arith }
    ]

own_entry : {m : Option ℕ} {o : ℕ} → ((q : ℕ) → m ≡ some q → q ≡ o) → (m ≡ none) ⊎ (m ≡ some o)
own_entry {m = none} f = inl refl
own_entry {m = some q} f = inr (ap some (f q refl))

-- A spawn whose connect() fails leaves its phone without an entry and its connection discarded, in
-- `draining_webhooks` where it still delivers webhooks; its error is the result.
pub spawning_fails :
    {s : System}
    → Reach s
    → (i : ℕ) (phone : String) (o : ℕ) (caller : Caller) (e : Error)
    → s.pc i ≡ spawning phone o caller
    → let t = move s i (resume i (s.pc i) (throw e) s.handler) in
      (registered t.handler phone ≡ none)
      × ((t.handler.objects o).is_discarded ≡ true)
      × (t.pc i ≡ leaving phone caller (failed e))
      × (((s.handler.objects o).in_flight_webhooks ≡ 0)
          ⊎ (has t.handler.draining_webhooks o ≡ true))
unfolding resume withdraw_spawn keep_draining discard_object put unregister_if
spawning_fails {s} r i phone o caller e p =
    let f = subst (Fits s.handler) p ((Reach-Inv r).fits i) in
    ground (
      arith,
      own_entry f.1,
      lookup-remove s.handler.connections phone phone,
      eq_refl phone,
      has-add s.handler.draining_webhooks o,
    )

-- ===== src/Connections/Single/Invariant.antt =====
-- src/baileys/connectionsHandler.ts: the handler and its tasks, in every order in which the tasks run.
use baileys_api.Prelude.{
  ℕ, ◌<◌, ◌≡◌, eq_refl, refl, inl, inr, String, true, false, some, eqb, arith, Bool-cases,
}
use baileys_api.Entries.{lookup, IsMap}
use baileys_api.Connections.Options.{Connection}
use baileys_api.Connections.Registry.{ConnectionsHandler, registered}
use baileys_api.Connections.Slots.{Pc, idle, parked, spawning, updating, probing, ending, Operation}
use baileys_api.Connections.System.{
  System, move, Step, begin, restart, wake, go_on, close, give_up, change, new_handler, Reach,
  start, later, clear,
}
use baileys_api.Connections.Single.Shrinks.{
  IsSound, Shrinks, put-Shrinks, on_connection_close-Shrinks, report_spawn_failure-Shrinks,
  logout_all_ends-Shrinks,
}
use baileys_api.Connections.Single.Effects.{holds, Fits}
use baileys_api.Connections.Single.Moves.{
  HasEffect, drain-Effect, request_restart-Effect, resume-Effect,
}

-- A slot is held by exactly the task whose number it has.
pub record Inv (s : System) : Type 0 where
  pub sound : IsSound s.handler
  pub held :
      (i : ℕ) (phone : String)
      → holds (s.pc i) phone ≡ true
      → lookup s.handler.in_flight_ops phone ≡ some i
  pub slots :
      (i : ℕ) (phone : String)
      → lookup s.handler.in_flight_ops phone ≡ some i
      → holds (s.pc i) phone ≡ true
  pub fits : (i : ℕ) → Fits s.handler (s.pc i)

-- What a task has in its locals stays true where the phones that it holds get no new entry.
Fits-after :
    (h h' : ConnectionsHandler) (p : Pc)
    → ((o : ℕ) → o < h.next → (o < h'.next) × ((h'.objects o).phone ≡ (h.objects o).phone))
    → ((o : ℕ)
        → o < h.next
        → (h.objects o).is_discarded ≡ true
        → (h'.objects o).is_discarded ≡ true)
    → ((phone : String) (q : ℕ)
        → holds p phone ≡ true
        → registered h' phone ≡ some q
        → registered h phone ≡ some q)
    → Fits h p
    → Fits h' p
Fits-after h h' (spawning phone o c) grows dead kept f =
    (ground (arith, grows o f.0.0), λ q e. f.1 q (kept phone q (eq_refl phone) e))
Fits-after h h' (updating phone o c r) grows dead kept f = ground (arith, grows o f.0)
Fits-after h h' (probing phone o c r) grows dead kept f = ground (arith, grows o f.0)
Fits-after h h' (ending phone o) grows dead kept f =
    (ground (arith, grows o f.0.0), dead o f.0.0 f.1, λ q e. f.2 q (kept phone q (eq_refl phone) e))
Fits-after h h' _ grows dead kept f = tt

module _ {s : System} (inv : Inv s) where
  -- What any task does between two awaits keeps the invariant.
  move-Inv :
      (i : ℕ) (next : ConnectionsHandler × Pc)
      → HasEffect i s.handler (s.pc i) next
      → Inv (move s i next)
  move-Inv i (h', p') x = record {
    sound = x.sound;
    held = λ j phone e.
        ground (arith, x.slots phone, x.taken phone, inv.held j phone, inv.held i phone);
    slots = λ j phone e. ground (arith, x.slots phone, inv.slots j phone, inv.held i phone);
    fits = λ j. elim (Bool-cases (eqb i j)) [
      | inl e ↦ rw e x.fits
      | inr e ↦ rw e (
          Fits-after s.handler h' (s.pc j) x.grows x.dead
            (λ phone q t g. ground (arith, x.fresh phone q g, inv.held j phone t)) (inv.fits j))
    ];
  }

  -- So does what a connection does by itself.
  outside-Inv : {h' : ConnectionsHandler} → Shrinks s.handler h' → Inv (record s { handler = h' })
  outside-Inv {h'} x = record {
    sound = x.sound;
    held = λ j phone e. ground (arith, x.ops, inv.held j phone);
    slots = λ j phone e. ground (arith, x.ops, inv.slots j phone);
    fits = λ j.
        Fits-after s.handler h' (s.pc j) x.grows (λ o b. x.dead o) (λ phone q t. x.kept phone q)
          (inv.fits j);
  }

nothing_held : {p : Pc} → p ≡ idle → (phone : String) → holds p phone ≡ false
nothing_held e phone = rw e refl

parked_holds_nothing :
    {p : Pc} {q : String} {slot : ℕ} {op : Operation}
    → p ≡ parked q slot op
    → (phone : String) → holds p phone ≡ false
parked_holds_nothing e phone = rw e refl

-- Every step keeps the invariant.
pub Step-Inv : {s t : System} → Step s t → Inv s → Inv t
Step-Inv (begin i phone op e) inv =
    move-Inv inv i _ (drain-Effect (nothing_held e) inv.sound phone op)
Step-Inv (restart i phone o e) inv =
    move-Inv inv i _ (request_restart-Effect (nothing_held e) inv.sound phone o)
Step-Inv (wake i phone slot op e f) inv =
    move-Inv inv i _ (drain-Effect (parked_holds_nothing e) inv.sound phone op)
Step-Inv {s} (go_on i res) inv =
    move-Inv inv i _ (resume-Effect inv.sound (s.pc i) res (inv.held i) (inv.fits i))
Step-Inv (close phone o d) inv = outside-Inv inv (on_connection_close-Shrinks inv.sound phone o d)
Step-Inv (give_up phone o) inv = outside-Inv inv (report_spawn_failure-Shrinks inv.sound phone o)
Step-Inv (clear over) inv = outside-Inv inv (logout_all_ends-Shrinks inv.sound over)
Step-Inv (change o c e d) inv = outside-Inv inv (put-Shrinks inv.sound o c e d)

start-Inv :
    (objects : ℕ → Connection) → Inv (record { handler = new_handler objects; pc = λ _. idle })
unfolding lookup IsMap
start-Inv objects = record {
  sound = record { entries = λ phone o e. cc; single = λ o b d. absurd (omega arith); unique = tt };
  held = λ i phone e. cc;
  slots = λ i phone e. cc;
  fits = λ i. tt;
}

pub Reach-Inv : {s : System} → Reach s → Inv s
Reach-Inv (start objects) = start-Inv objects
Reach-Inv (later r st) = Step-Inv st (Reach-Inv r)

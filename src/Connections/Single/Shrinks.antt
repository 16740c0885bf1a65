-- ===== src/Connections/Single/Shrinks.antt =====
-- src/baileys/connectionsHandler.ts: the parts of its operations that register nothing new.
use baileys_api.Prelude.{
  ℕ, ◌<◌, ◌≡◌, refl, ◌∙◌, inl, inr, Bool-cases, Option-cases, String, true, some, arith,
}
use baileys_api.Entries.{lookup, IsMap, lookup-remove}
use baileys_api.Connections.Options.{Connection}
use baileys_api.Connections.Registry.{
  ConnectionsHandler, put, registered, points_at, keep_draining, discard_object, unregister,
  unregister_if, retire, discard_registered, evict, discard_previous, withdraw_spawn,
  report_spawn_failure, on_connection_close,
}
use baileys_api.Connections.Slots.{logout_all_ends}
use baileys_api.Connections.Single.{IsRegistry, put-IsRegistry, remove-IsRegistry}

abbrev pub IsSound : ConnectionsHandler → Type 0
IsSound h = IsRegistry h.connections h.objects h.next

-- The handler after such a part, which takes no slot and brings no connection back.
pub record Shrinks (h h' : ConnectionsHandler) : Type 0 where
  pub sound : IsSound h'
  pub grows : (o : ℕ) → o < h.next → (o < h'.next) × ((h'.objects o).phone ≡ (h.objects o).phone)
  pub dead : (o : ℕ) → (h.objects o).is_discarded ≡ true → (h'.objects o).is_discarded ≡ true
  pub kept : (phone : String) (o : ℕ) → registered h' phone ≡ some o → registered h phone ≡ some o
  pub ops : h'.in_flight_ops ≡ h.in_flight_ops

pub Shrinks-refl : {h : ConnectionsHandler} → IsSound h → Shrinks h h
Shrinks-refl r = record {
  sound = r;
  grows = λ o b. (b, refl);
  dead = λ o d. d;
  kept = λ phone o e. e;
  ops = refl;
}

pub Shrinks-trans : {h h' h'' : ConnectionsHandler} → Shrinks h h' → Shrinks h' h'' → Shrinks h h''
Shrinks-trans s t = record {
  sound = t.sound;
  grows = λ o b. ground (arith, s.grows o b, t.grows o);
  dead = λ o d. t.dead o (s.dead o d);
  kept = λ phone o e. s.kept phone o (t.kept phone o e);
  ops = t.ops ∙ s.ops;
}

module _ {h : ConnectionsHandler} (r : IsSound h) where
  pub put-Shrinks :
      (o : ℕ) (c : Connection)
      → c.phone ≡ (h.objects o).phone
      → ((h.objects o).is_discarded ≡ true → c.is_discarded ≡ true)
      → Shrinks h (put h o c)
  unfolding put
  put-Shrinks o c e d = record {
    sound = put-IsRegistry r o c e d;
    grows = λ q b. (b, ground arith);
    dead = λ q b. ground arith;
    kept = λ phone q b. b;
    ops = refl;
  }

  pub discard_object-Shrinks : (o : ℕ) → Shrinks h (discard_object o h)
  unfolding discard_object
  discard_object-Shrinks o = put-Shrinks o _ refl (λ d. refl)

  pub unregister-Shrinks :
      (phone : String)
      → ((o : ℕ) → registered h phone ≡ some o → (h.objects o).is_discarded ≡ true)
      → Shrinks h (unregister phone h)
  unfolding unregister
  unregister-Shrinks phone d = record {
    sound = remove-IsRegistry r phone d;
    grows = λ q b. (b, refl);
    dead = λ q b. b;
    kept = λ q o e. ground (arith, lookup-remove h.connections phone q);
    ops = refl;
  }

  pub keep_draining-Shrinks : (o : ℕ) → Shrinks h (keep_draining o h)
  unfolding keep_draining
  keep_draining-Shrinks o = record {
    sound = r;
    grows = λ q b. (b, refl);
    dead = λ q b. b;
    kept = λ q p e. e;
    ops = refl;
  }

  pub report_spawn_failure-Shrinks :
      (phone : String) (o : ℕ) → Shrinks h (report_spawn_failure phone o h)
  unfolding report_spawn_failure
  report_spawn_failure-Shrinks phone o = record {
    sound = r;
    grows = λ q b. (b, refl);
    dead = λ q b. b;
    kept = λ q p e. e;
    ops = refl;
  }

  pub logout_all_ends-Shrinks :
      ((phone : String) (o : ℕ) → registered h phone ≡ some o → (h.objects o).is_discarded ≡ true)
      → Shrinks h (logout_all_ends h)
  unfolding logout_all_ends lookup IsMap
  logout_all_ends-Shrinks over = record {
    sound = record {
      entries = λ phone o e. cc;
      single = λ o b d. absurd (ground (arith, over (h.objects o).phone o, r.single o b d));
      unique = tt;
    };
    grows = λ q b. (b, refl);
    dead = λ q b. b;
    kept = λ q p e. cc;
    ops = refl;
  }

  -- Unregistered where it is this connection, which must be over.
  pub unregister_if-Shrinks :
      (phone : String) (o : ℕ)
      → (registered h phone ≡ some o → (h.objects o).is_discarded ≡ true)
      → Shrinks h (unregister_if phone o h)
  unfolding unregister_if unregister
  unregister_if-Shrinks phone o d = elim (Bool-cases (points_at (registered h phone) o)) [
    | inl hit ↦ rw hit (unregister-Shrinks phone (λ q e. ground arith))
    | inr miss ↦ rw miss (Shrinks-refl r)
  ]

module _ {h : ConnectionsHandler} (r : IsSound h) where
  pub retire-Shrinks :
      (phone : String) (o : ℕ) → registered h phone ≡ some o → Shrinks h (retire phone o h)
  unfolding retire discard_object put
  retire-Shrinks phone o e =
      let one = discard_object-Shrinks r o in
      let two = unregister-Shrinks one.sound phone (λ q f. ground arith) in
      Shrinks-trans one (Shrinks-trans two (keep_draining-Shrinks two.sound o))

  pub discard_registered-Shrinks : (phone : String) → Shrinks h (discard_registered phone h)
  unfolding discard_registered
  discard_registered-Shrinks phone = elim (Option-cases (registered h phone)) [
    | inl e ↦ rw (e, discard_registered) (Shrinks-refl r)
    | inr (o, e) ↦ rw (e, discard_registered) (retire-Shrinks phone o e)
  ]

  pub discard_previous-Shrinks : (phone : String) → Shrinks h (discard_previous phone h)
  unfolding discard_previous
  discard_previous-Shrinks phone = record {
    sound = record {
      entries = λ q o e. ground (arith, r.entries q o);
      single = λ o b d. ground (arith, r.single o);
      unique = r.unique;
    };
    grows = λ o b. (b, ground arith);
    dead = λ o d. ground arith;
    kept = λ q o e. e;
    ops = refl;
  }

  pub evict-Shrinks : (phone : String) (o : ℕ) → Shrinks h (evict phone o h)
  unfolding evict discard_object put
  evict-Shrinks phone o = elim (Bool-cases (points_at (registered h phone) o)) [
    | inl hit ↦ rw hit (
        let one = discard_object-Shrinks r o in
        Shrinks-trans one (unregister-Shrinks one.sound phone (λ q e. ground arith)))
    | inr miss ↦ rw miss (Shrinks-refl r)
  ]

  pub withdraw_spawn-Shrinks : (phone : String) (o : ℕ) → Shrinks h (withdraw_spawn phone o h)
  unfolding withdraw_spawn discard_object put unregister_if keep_draining
  withdraw_spawn-Shrinks phone o =
      let one = discard_object-Shrinks r o in
      let two = unregister_if-Shrinks one.sound phone o (λ e. ground arith) in
      Shrinks-trans one (Shrinks-trans two (keep_draining-Shrinks two.sound o))

  pub on_connection_close-Shrinks :
      (phone : String) (o : ℕ)
      → (h.objects o).is_discarded ≡ true
      → Shrinks h (on_connection_close phone o h)
  unfolding on_connection_close
  on_connection_close-Shrinks phone o d = unregister_if-Shrinks r phone o (λ e. d)

-- ===== src/Connections/Single/Effects.antt =====
-- src/baileys/connectionsHandler.ts: what one task does between two awaits to the slots and to the
-- registry.
use baileys_api.Prelude.{
  ℕ, ◌<◌, ◌≡◌, ◌⊎◌, inl, refl, sym, ◌∙◌, String, Bool, true, false, none, some, ◌==◌, arith, eq_iff,
  eq_refl, if◌then◌else◌,
}
use baileys_api.Entries.{lookup, lookup-assign, lookup-remove}
use baileys_api.Connections.Options.{ConnectionOptions, new_connection}
use baileys_api.Connections.Registry.{
  ConnectionsHandler, put, registered, register_new, add_connection, discard_previous,
}
use baileys_api.Connections.Slots.{
  Pc, spawning, updating, probing, ending, leaving, Caller, take, release, spawn,
}
use baileys_api.Connections.Single.{add-IsRegistry}
use baileys_api.Connections.Single.Shrinks.{IsSound, Shrinks, discard_previous-Shrinks}

-- Whether a task that is here holds the slot of a phone.
abbrev pub holds : Pc → String → Bool
holds (spawning q o c) phone = q == phone
holds (ending q o) phone = q == phone
holds (leaving q c out) phone = q == phone
holds _ phone = false

-- A connection of this phone that exists.
abbrev pub Exists : ConnectionsHandler → String → ℕ → Type 0
Exists h phone o = (o < h.next) × ((h.objects o).phone ≡ phone)

pub Exists-after :
    {h h' : ConnectionsHandler} {phone : String} {o : ℕ}
    → Shrinks h h'
    → Exists h phone o
    → Exists h' phone o
Exists-after {o = o} s (b, e) = ((s.grows o b).0, (s.grows o b).1 ∙ e)

-- What the locals of a task say of the registry.
abbrev pub Fits : ConnectionsHandler → Pc → Type 0
Fits h (spawning phone o c) = Exists h phone o × ((q : ℕ) → registered h phone ≡ some q → q ≡ o)
Fits h (updating phone o c r) = Exists h phone o
Fits h (probing phone o c r) = Exists h phone o
Fits h (ending phone o) =
    Exists h phone o
    × ((h.objects o).is_discarded ≡ true)
    × ((q : ℕ) → registered h phone ≡ some q → q ≡ o)
Fits h _ = Unit

-- A task `i` goes from `p` to `p'`. New entries are of a phone whose slot was free.
pub record Effect (i : ℕ) (h : ConnectionsHandler) (p : Pc) (h' : ConnectionsHandler) (p' : Pc)
    : Type 0 where
  pub sound : IsSound h'
  pub grows : (o : ℕ) → o < h.next → (o < h'.next) × ((h'.objects o).phone ≡ (h.objects o).phone)
  pub dead :
      (o : ℕ) → o < h.next → (h.objects o).is_discarded ≡ true → (h'.objects o).is_discarded ≡ true
  pub fresh :
      (phone : String) (o : ℕ)
      → registered h' phone ≡ some o
      → (registered h phone ≡ some o) ⊎ (lookup h.in_flight_ops phone ≡ none)
  pub slots :
      (phone : String)
      → lookup h'.in_flight_ops phone ≡ (
          if holds p' phone
          then some i
          else if holds p phone
          then none
          else lookup h.in_flight_ops phone)
  pub taken :
      (phone : String)
      → holds p' phone ≡ true
      → (holds p phone ≡ true) ⊎ (lookup h.in_flight_ops phone ≡ none)
  pub fits : Fits h' p'

-- No slot is taken or left.
pub Shrinks-Effect :
    {i : ℕ} {h h' : ConnectionsHandler} {p p' : Pc}
    → ((phone : String) → holds p phone ≡ true → lookup h.in_flight_ops phone ≡ some i)
    → Shrinks h h'
    → ((phone : String) → holds p' phone ≡ holds p phone)
    → Fits h' p'
    → Effect i h p h' p'
Shrinks-Effect {i} {h} {h'} {p} {p'} own s e f = record {
  sound = s.sound;
  grows = s.grows;
  dead = λ o b. s.dead o;
  fresh = λ phone o r. inl (s.kept phone o r);
  slots = λ phone. ground (arith, s.ops, own phone, e phone);
  taken = λ phone t. inl (sym (e phone) ∙ t);
  fits = f;
}

-- Something given up first.
pub Effect-after :
    {i : ℕ} {h h' h'' : ConnectionsHandler} {p p' : Pc}
    → Shrinks h h'
    → Effect i h' p h'' p'
    → Effect i h p h'' p'
Effect-after {i} {h} {h'} {h''} {p} {p'} s x = record {
  sound = x.sound;
  grows = λ o b. ground (arith, s.grows o b, x.grows o);
  dead = λ o b d. x.dead o (s.grows o b).0 (s.dead o d);
  fresh = λ phone o r. ground (arith, s.ops, x.fresh phone o r, s.kept phone o);
  slots = λ phone. ground (arith, s.ops, x.slots phone);
  taken = λ phone t. ground (arith, s.ops, x.taken phone t);
  fits = x.fits;
}

module _ {i : ℕ} {h : ConnectionsHandler} {p : Pc} (phone : String)
    (nothing : (q : String) → holds p q ≡ false) (free : lookup h.in_flight_ops phone ≡ none) where
  -- The free slot is taken, and the rest gives something up.
  pub take-Effect :
      {h' : ConnectionsHandler} {p' : Pc}
      → Shrinks (take i phone h) h'
      → ((q : String) → holds p' q ≡ (phone == q))
      → Fits h' p'
      → Effect i h p h' p'
  take-Effect {h'} {p'} s e f = record {
    sound = s.sound;
    grows = s.grows;
    dead = λ o b. s.dead o;
    fresh = λ q o r. inl (s.kept q o r);
    slots = λ q.
        ground
          (arith, s.ops, e q, nothing q, lookup-assign h.in_flight_ops phone q i, eq_iff phone q);
    taken = λ q t. ground (arith, e q, eq_iff phone q);
    fits = f;
  }

  pub spawn-Effect :
      (c : Caller) (options : ConnectionOptions)
      → IsSound h
      → Effect i h p (spawn i phone c options h).0 (spawn i phone c options h).1
  unfolding spawn register_new add_connection discard_previous put new_connection
  spawn-Effect c options r = record {
    sound = add-IsRegistry d.sound phone (new_connection phone options) refl (λ o e. ground arith);
    grows = λ o b. ground (arith, d.grows o b);
    dead = λ o b e. ground (arith, d.dead o e);
    fresh =
        λ q o e. ground (arith, free, lookup-assign h.connections phone q h.next, eq_iff phone q);
    slots = λ q. ground (arith, nothing q, lookup-assign h.in_flight_ops phone q i);
    taken = λ q t. ground (arith, eq_iff phone q);
    fits = (
      ground arith,
      λ q e. ground (arith, lookup-assign h.connections phone phone h.next, eq_refl phone),
    );
  }
    where
      d : Shrinks (take i phone h) (discard_previous phone (take i phone h))
      d = discard_previous-Shrinks r phone

-- The slot is left.
pub release-Effect :
    {i : ℕ} {h : ConnectionsHandler} {p p' : Pc} (phone : String)
    → IsSound h
    → lookup h.in_flight_ops phone ≡ some i
    → ((q : String) → holds p q ≡ (phone == q))
    → ((q : String) → holds p' q ≡ false)
    → Fits (release i phone h) p'
    → Effect i h p (release i phone h) p'
unfolding release
release-Effect {i} {h} {p} {p'} phone r own e e' f = record {
  sound = r;
  grows = λ o b. (b, refl);
  dead = λ o b d. d;
  fresh = λ q o g. inl g;
  slots =
      λ q. ground (arith, own, e q, e' q, lookup-remove h.in_flight_ops phone q, eq_iff phone q);
  taken = λ q t. ground (arith, e' q);
  fits = f;
}

-- ===== src/Watchdog/InFlight/Exact.antt =====
-- src/baileys/connection.ts: the count of sends in flight, event by event.
use baileys_api.Prelude.{
  ℕ, ◌+◌, ◌<◌, ◌≡◌, refl, String, Option, none, some, List, [], ◌∷◌, ◌++◌, eqb, arith,
  if◌then◌else◌, Option-cases, if_both, inl, inr,
}
use baileys_api.Watchdog.{
  Watchdog, Refusal, max_in_flight_sends, clear_send_stall_state, release_in_flight,
  track_optional_id, note_mutex_wedge, assert_can_send, record_send_success, Outcome, resolved,
  rejected, build_socket,
}
use baileys_api.Watchdog.Relay.{
  Phase, waiting, abandoned, settled, Send, Sending, get_elem?, set, relay, admitted,
  relay_admitted, prepare_admitted, start, prepare, submit, in_time, settle_send, expire_send,
  Event, prepares, submits, relays, settles, expires, transacts, acknowledges, builds, opens,
  closes, drops, discards, ends, handle, step, run, created,
}
use baileys_api.Watchdog.InFlight.{
  holds, holding, IsPast, IsCounted, SameSlots, holding-append, holding-set, IsPast-set,
  IsPast-append, IsPast-get_elem?, IsPast-suc, holding_next, track_optional_id-SameSlots,
  success-SameSlots, timeout-SameSlots, late-SameSlots, tx-SameSlots, acks-SameSlots,
  assert-SameSlots, wedge-SameSlots,
}

same-IsCounted :
    (r q : Sending)
    → SameSlots r.watchdog q.watchdog
    → q.sends ≡ r.sends
    → IsCounted r
    → IsCounted q
same-IsCounted r q same e c = record {
  counted = ground arith;
  bounded = ground arith;
  past = ground arith;
}

built-IsCounted :
    (r q : Sending)
    → q.watchdog ≡ build_socket r.watchdog
    → q.sends ≡ r.sends
    → IsCounted r
    → IsCounted q
unfolding build_socket clear_send_stall_state
built-IsCounted r q b e c = record {
  counted = ground (arith, holding_next r.watchdog.socket_generation r.sends c.past);
  bounded = ground arith;
  past = ground (arith, IsPast-suc r.watchdog.socket_generation r.sends c.past);
}

-- A send that is settled gives its slot back, if its socket is still there.
freed-IsCounted :
    (r q : Sending) (i : ℕ) (s : Send)
    → get_elem? r.sends i ≡ some s
    → holds r.watchdog.socket_generation s
      ≡ (if eqb s.generation r.watchdog.socket_generation then 1 else 0)
    → SameSlots (release_in_flight s.generation r.watchdog) q.watchdog
    → q.sends ≡ set r.sends i (record s { phase = settled })
    → IsCounted r
    → IsCounted q
unfolding release_in_flight holds
freed-IsCounted r q i s e h same l c =
    let g = r.watchdog.socket_generation in
    let v : Send = record s { phase = settled } in
    let freed : q.watchdog.in_flight_sends ≡ holding g (set r.sends i v) =
      ground (arith, holding-set g r.sends i s v e) in
    record {
      counted = ground arith;
      bounded = ground arith;
      past =
          ground (arith, IsPast-set g r.sends i v (IsPast-get_elem? g r.sends i s e c.past) c.past);
    }

kept-IsCounted :
    (r q : Sending) (i : ℕ) (s : Send)
    → get_elem? r.sends i ≡ some s
    → holds r.watchdog.socket_generation s
      ≡ (if eqb s.generation r.watchdog.socket_generation then 1 else 0)
    → SameSlots r.watchdog q.watchdog
    → q.sends ≡ set r.sends i (record s { phase = abandoned })
    → IsCounted r
    → IsCounted q
unfolding holds
kept-IsCounted r q i s e h same l c =
    let g = r.watchdog.socket_generation in
    let v : Send = record s { phase = abandoned } in
    record {
      counted = ground (arith, holding-set g r.sends i s v e);
      bounded = ground arith;
      past =
          ground (arith, IsPast-set g r.sends i v (IsPast-get_elem? g r.sends i s e c.past) c.past);
    }

started-IsCounted :
    (r q : Sending)
    → q.watchdog.socket_generation ≡ r.watchdog.socket_generation
    → q.watchdog.in_flight_sends ≡ r.watchdog.in_flight_sends + 1
    → r.watchdog.in_flight_sends < max_in_flight_sends
    → q.sends
      ≡ r.sends ++ (record { generation = r.watchdog.socket_generation; phase = waiting } ∷ [])
    → IsCounted r
    → IsCounted q
unfolding holds
started-IsCounted r q e f h l c = record {
  counted = ground (
    arith,
    holding-append r.watchdog.socket_generation r.sends
        (record { generation = r.watchdog.socket_generation; phase = waiting }),
  );
  bounded = omega (arith, e, f, h);
  past = ground (
    arith,
    IsPast-append r.watchdog.socket_generation r.sends
        (record { generation = r.watchdog.socket_generation; phase = waiting }) (omega arith)
        c.past,
  );
}

in_time-SameSlots :
    (now g : ℕ) (o : Outcome) (w : Watchdog)
    → SameSlots (release_in_flight g w) (in_time now g o w).0
in_time-SameSlots now g (resolved id) w = ground (
  arith,
  success-SameSlots now g (release_in_flight g w),
  track_optional_id-SameSlots id (record_send_success now g (release_in_flight g w)),
)
in_time-SameSlots now g (rejected e) w = ground (
  arith,
  wedge-SameSlots e (release_in_flight g w),
  timeout-SameSlots now g (note_mutex_wedge e (release_in_flight g w)),
)

settle-IsCounted :
    (r : Sending) (i : ℕ) (s : Send) (o : Outcome) (p : Phase)
    → s.phase ≡ p
    → get_elem? r.sends i ≡ some s
    → IsCounted r
    → IsCounted (settle_send i s o r)
unfolding holds
settle-IsCounted r i s o waiting h e c =
    freed-IsCounted r (settle_send i s o r) i s e (rw h)
      (rw h (in_time-SameSlots r.clock s.generation o r.watchdog)) (rw h) c
settle-IsCounted r i s o abandoned h e c =
    freed-IsCounted r (settle_send i s o r) i s e (rw h)
      (rw h (late-SameSlots r.clock s.generation o (release_in_flight s.generation r.watchdog)))
      (rw h) c
settle-IsCounted r i s o settled h e c = rw h c

expire-IsCounted :
    (r : Sending) (i : ℕ) (s : Send) (p : Phase)
    → s.phase ≡ p
    → get_elem? r.sends i ≡ some s
    → IsCounted r
    → IsCounted (expire_send i s r)
unfolding holds
expire-IsCounted r i s waiting h e c =
    kept-IsCounted r (expire_send i s r) i s e (rw h)
      (rw h (timeout-SameSlots r.clock s.generation r.watchdog)) (rw h) c
expire-IsCounted r i s abandoned h e c = rw h c
expire-IsCounted r i s settled h e c = rw h c

-- A send is only admitted below the bound.
pub assert_can_send-admits :
    (now : ℕ) (w : Watchdog)
    → (assert_can_send now w).2 ≡ none
    → w.in_flight_sends < max_in_flight_sends
unfolding assert_can_send
assert_can_send-admits now w h = ground arith

relay_admitted-IsCounted :
    (r q : Sending) (refusal : Option Refusal)
    → SameSlots r.watchdog q.watchdog
    → q.sends ≡ r.sends
    → (refusal ≡ none → r.watchdog.in_flight_sends < max_in_flight_sends)
    → IsCounted r
    → IsCounted (relay_admitted q refusal).0
relay_admitted-IsCounted r q (some refused) same l h c = same-IsCounted r q same l c
relay_admitted-IsCounted r q none same l h c =
    if_both (λ (p : Sending × Option Refusal). IsCounted p.0) q.watchdog.has_socket
      (started-IsCounted r (start q) same.generation (ground arith) (h refl) (ground arith) c)
      (same-IsCounted r q same l c)

relay-IsCounted : (r : Sending) → IsCounted r → IsCounted (relay r).0
unfolding relay
relay-IsCounted r c =
    relay_admitted-IsCounted r (admitted r).0 (admitted r).1 (assert-SameSlots r.clock r.watchdog)
      refl (assert_can_send-admits r.clock r.watchdog) c

prepare_admitted-IsCounted :
    (reserved : Option String) (q : Sending) (refusal : Option Refusal)
    → IsCounted q
    → IsCounted (prepare_admitted reserved q refusal).0
prepare_admitted-IsCounted reserved q (some refused) c = c
prepare_admitted-IsCounted reserved q none c =
    same-IsCounted q _ (track_optional_id-SameSlots reserved q.watchdog) refl c

prepare-IsCounted :
    (reserved : Option String) (r : Sending) → IsCounted r → IsCounted (prepare reserved r).0
unfolding prepare
prepare-IsCounted reserved r c =
    if_both (λ (p : Sending × Option Refusal). IsCounted p.0) r.watchdog.has_socket
      (prepare_admitted-IsCounted reserved (admitted r).0 (admitted r).1
        (same-IsCounted r (admitted r).0 (assert-SameSlots r.clock r.watchdog) refl c))
      c

submit-IsCounted :
    (reserved : Option String) (r : Sending) → IsCounted r → IsCounted (submit reserved r).0
unfolding submit
submit-IsCounted reserved r c =
    relay-IsCounted (record r { watchdog = track_optional_id reserved r.watchdog })
      (same-IsCounted r _ (track_optional_id-SameSlots reserved r.watchdog) refl c)

handle-IsCounted : (event : Event) (r : Sending) → IsCounted r → IsCounted (handle event r)
unfolding handle clear_send_stall_state
handle-IsCounted (prepares reserved) r c = prepare-IsCounted reserved r c
handle-IsCounted (submits reserved) r c = submit-IsCounted reserved r c
handle-IsCounted relays r c = relay-IsCounted r c
handle-IsCounted (settles i o) r c = elim (Option-cases (get_elem? r.sends i)) [
  | inl e ↦ rw e c
  | inr (s, e) ↦ rw e (settle-IsCounted r i s o s.phase refl e c)
]
handle-IsCounted (expires i) r c = elim (Option-cases (get_elem? r.sends i)) [
  | inl e ↦ rw e c
  | inr (s, e) ↦ rw e (expire-IsCounted r i s s.phase refl e c)
]
handle-IsCounted (transacts g phase key) r c =
    same-IsCounted r _ (tx-SameSlots r.clock g phase key r.watchdog) refl c
handle-IsCounted (acknowledges l) r c =
    same-IsCounted r _ (acks-SameSlots r.clock l r.watchdog) refl c
handle-IsCounted builds r c = built-IsCounted r _ refl refl c
handle-IsCounted opens r c = same-IsCounted r _ (ground arith) refl c
handle-IsCounted closes r c = same-IsCounted r _ (ground arith) refl c
handle-IsCounted drops r c = same-IsCounted r _ (ground arith) refl c
handle-IsCounted discards r c = same-IsCounted r _ (ground arith) refl c
handle-IsCounted ends r c = same-IsCounted r _ (ground arith) refl c

steps-IsCounted : (events : List (ℕ × Event)) (r : Sending) → IsCounted r → IsCounted (run r events)
unfolding run step
steps-IsCounted [] r c = c
steps-IsCounted ((wait, event) ∷ events) r c = steps-IsCounted events (step r (wait, event)) (
    handle-IsCounted event (record r { clock = r.clock + wait })
      (same-IsCounted r _ (ground arith) refl c))

created-IsCounted : (now : ℕ) → IsCounted (created now)
unfolding holding IsPast
created-IsCounted now = record { counted = refl; bounded = omega arith; past = tt }

-- Whatever happens to a connection, `inFlightSends` is the number of sends of its present socket
-- that have not settled, whether they are waited for or were given up, and it is at most 8.
pub run-IsCounted : (now : ℕ) (events : List (ℕ × Event)) → IsCounted (run (created now) events)
run-IsCounted now events = steps-IsCounted events (created now) (created-IsCounted now)

-- ===== src/Watchdog/Breaker.antt =====
-- src/baileys/connection.ts: the open breaker, and the sends that are tried meanwhile.
use baileys_api.Prelude.{
  ℕ, zero, suc, ◌+◌, ◌≤◌, ◌≡◌, refl, subst, String, Bool, true, false, Option, none, some, List, [],
  ◌∷◌, All, arith, if◌then◌else◌, if_both, Option-cases, inl, inr,
}
use baileys_api.Connections.Options.{send_stall_threshold}
use baileys_api.Watchdog.{
  Watchdog, Refusal, is_open, send_stalled, not_connected, track_submitted_id, track_optional_id,
  AckKey, some_ours, is_our_submitted_key, remember_unmatched_ack, track_acks,
  maybe_report_send_stall, assert_can_send, record_send_timeout, streak_from,
}
use baileys_api.Watchdog.Relay.{
  Phase, waiting, abandoned, settled, Send, Sending, get_elem?, set, admitted, relay,
  prepare_admitted, prepare, submit, expire_send, Event, prepares, submits, relays, settles,
  expires, transacts, acknowledges, builds, opens, closes, drops, discards, ends, handle, step, run,
}

-- A request of a caller, a deadline, or an acknowledgement: nothing that shows the mutex free.
abbrev pub is_idle : Event → Bool
is_idle (prepares reserved) = true
is_idle (submits reserved) = true
is_idle relays = true
is_idle (expires i) = true
is_idle (acknowledges updates) = true
is_idle (settles i outcome) = false
is_idle (transacts token phase key) = false
is_idle builds = false
is_idle opens = false
is_idle closes = false
is_idle drops = false
is_idle discards = false
is_idle ends = false

unfoldable pub count : List Send → ℕ
count [] = 0
count (s ∷ l) = suc (count l)

-- The breaker is open on a socket that is up.
pub record IsStalled (w : Watchdog) : Type 0 where
  pub deep : send_stall_threshold ≤ w.consecutive_send_timeouts
  pub up : is_open w ≡ true

-- The breaker stays open, and the socket has the sends that it had.
pub record Holds (r q : Sending) : Type 0 where
  pub stalled : IsStalled q.watchdog
  pub same : count q.sends ≡ count r.sends

track-IsStalled :
    (o : Option String) (w : Watchdog) → IsStalled w → IsStalled (track_optional_id o w)
unfolding track_submitted_id
track-IsStalled none w h = h
track-IsStalled (some id) w h = record { deep = ground (arith, h.deep); up = ground (arith, h.up) }

report-IsStalled :
    (now : ℕ) (w : Watchdog) → IsStalled w → IsStalled (maybe_report_send_stall now w).0
unfolding maybe_report_send_stall
report-IsStalled now w h = record { deep = ground (arith, h.deep); up = ground (arith, h.up) }

timeout-IsStalled :
    (now g : ℕ) (w : Watchdog) → IsStalled w → IsStalled (record_send_timeout now g w).0
unfolding record_send_timeout
timeout-IsStalled now g w h =
    let v : Watchdog = record w {
      consecutive_send_timeouts = w.consecutive_send_timeouts + 1;
      send_stall_streak_started_at = some (streak_from w.send_stall_streak_started_at now);
    } in
    if_both (λ (p : Watchdog × Option ℕ). IsStalled p.0) _
      (report-IsStalled now v (record { deep = omega (arith, h.deep); up = h.up })) h

key-IsStalled :
    (now : ℕ) (key : AckKey) (w : Watchdog)
    → IsStalled w
    → IsStalled (is_our_submitted_key now key w).0
unfolding is_our_submitted_key remember_unmatched_ack
key-IsStalled now key w h = record { deep = ground (arith, h.deep); up = ground (arith, h.up) }

some_ours-IsStalled :
    (now : ℕ) (l : List (Bool × AckKey)) (w : Watchdog)
    → IsStalled w
    → IsStalled (some_ours now l w).0
unfolding some_ours
some_ours-IsStalled now [] w h = h
some_ours-IsStalled now ((false, key) ∷ l) w h = some_ours-IsStalled now l w h
some_ours-IsStalled now ((true, key) ∷ l) w h =
    let h' = key-IsStalled now key w h in
    if_both (λ (p : Watchdog × Bool). IsStalled p.0) _ h'
      (some_ours-IsStalled now l (is_our_submitted_key now key w).0 h')

acks-IsStalled :
    (now : ℕ) (l : List (Bool × AckKey)) (w : Watchdog)
    → IsStalled w
    → IsStalled (track_acks now l w)
unfolding track_acks
acks-IsStalled now l w h =
    let h' = some_ours-IsStalled now l w h in
    record { deep = ground (arith, h'.deep); up = ground (arith, h'.up) }

-- With the breaker open and the socket up every send is refused as stalled.
assert-stalled :
    (now : ℕ) (w : Watchdog)
    → IsStalled w
    → ((assert_can_send now w).2 ≡ some send_stalled) × IsStalled (assert_can_send now w).0
unfolding assert_can_send
assert-stalled now w h = (
  ground (arith, h.deep, h.up),
  record {
    deep = ground (arith, h.deep, report-IsStalled now w h);
    up = ground (arith, h.up, report-IsStalled now w h);
  },
)

count-set : (l : List Send) (i : ℕ) (v : Send) → count (set l i v) ≡ count l
unfolding count set
count-set [] i v = refl
count-set (s ∷ l) zero v = refl
count-set (s ∷ l) (suc i) v = omega (arith, count-set l i v)

refused-IsStalled :
    (r : Sending) → IsStalled r.watchdog → ((relay r).1 ≡ some send_stalled) × Holds r (relay r).0
unfolding relay
refused-IsStalled r h =
    let a = assert-stalled r.clock r.watchdog h in
    rw a.0 (refl, record { stalled = a.1; same = refl })

prepare_admitted-Holds :
    (reserved : Option String) (r q : Sending) (refusal : Option Refusal)
    → refusal ≡ some send_stalled
    → Holds r q
    → ((prepare_admitted reserved q refusal).1 ≡ some send_stalled)
      × Holds r (prepare_admitted reserved q refusal).0
prepare_admitted-Holds reserved r q none e h = cc
prepare_admitted-Holds reserved r q (some refused) e h = (e, h)

up-if :
    {A : Type 0} (w : Watchdog) (x y : A) → is_open w ≡ true → x ≡ (if w.has_socket then x else y)
up-if w x y e = ground arith

prepare-IsStalled :
    (reserved : Option String) (r : Sending)
    → IsStalled r.watchdog
    → ((prepare reserved r).1 ≡ some send_stalled) × Holds r (prepare reserved r).0
unfolding prepare
prepare-IsStalled reserved r h =
    let a = assert-stalled r.clock r.watchdog h in
    subst (λ (p : Sending × Option Refusal). (p.1 ≡ some send_stalled) × Holds r p.0)
      (up-if r.watchdog _ (r, some not_connected) h.up)
      (prepare_admitted-Holds reserved r (admitted r).0 (admitted r).1 a.0
        (record { stalled = a.1; same = refl }))

expire-IsStalled :
    (r : Sending) (i : ℕ) (s : Send) (p : Phase)
    → s.phase ≡ p
    → IsStalled r.watchdog
    → Holds r (expire_send i s r)
expire-IsStalled r i s waiting e h = rw e (record {
  stalled = timeout-IsStalled r.clock s.generation r.watchdog h;
  same = count-set r.sends i _;
})
expire-IsStalled r i s abandoned e h = rw e (record { stalled = h; same = refl })
expire-IsStalled r i s settled e h = rw e (record { stalled = h; same = refl })

handle-Holds :
    (event : Event) (r : Sending)
    → is_idle event ≡ true
    → IsStalled r.watchdog
    → Holds r (handle event r)
unfolding handle submit
handle-Holds (prepares reserved) r i h = (prepare-IsStalled reserved r h).1
handle-Holds (submits reserved) r i h =
    let q : Sending = record r { watchdog = track_optional_id reserved r.watchdog } in
    let kept = (refused-IsStalled q (track-IsStalled reserved r.watchdog h)).1 in
    record { stalled = kept.stalled; same = kept.same }
handle-Holds relays r i h = (refused-IsStalled r h).1
handle-Holds (expires j) r i h = elim (Option-cases (get_elem? r.sends j)) [
  | inl e ↦ rw e (record { stalled = h; same = refl })
  | inr (s, e) ↦ rw e (expire-IsStalled r j s s.phase refl h)
]
handle-Holds (acknowledges l) r i h = record {
  stalled = acks-IsStalled r.clock l r.watchdog h;
  same = refl;
}
handle-Holds (settles j o) r i h = cc
handle-Holds (transacts token phase key) r i h = cc
handle-Holds builds r i h = cc
handle-Holds opens r i h = cc
handle-Holds closes r i h = cc
handle-Holds drops r i h = cc
handle-Holds discards r i h = cc
handle-Holds ends r i h = cc

-- Once the breaker is open on a socket that is up, it stays open, every further send is refused as
-- stalled, and none reaches the socket, however many are asked for, until the socket or its keystore
-- gives a sign: a send that settles, an event of the keystore or a change of the connection.
pub run-Holds :
    (events : List (ℕ × Event)) (r : Sending)
    → All (λ (e : ℕ × Event). is_idle e.1 ≡ true) events
    → IsStalled r.watchdog
    → let q = run r events in
      IsStalled q.watchdog
      × (count q.sends ≡ count r.sends)
      × ((reserved : Option String) → (submit reserved q).1 ≡ some send_stalled)
unfolding run step submit
run-Holds [] r i h = (
  h,
  refl,
  λ reserved.
      let q : Sending = record r { watchdog = track_optional_id reserved r.watchdog } in
      (refused-IsStalled q (track-IsStalled reserved r.watchdog h)).0,
)
run-Holds ((wait, event) ∷ events) r i h =
    let q : Sending = record r { clock = r.clock + wait } in
    let one = handle-Holds event q i.0 h in
    let all = run-Holds events (handle event q) i.1 one.stalled in
    (all.0, omega (arith, all.1, one.same), all.2)

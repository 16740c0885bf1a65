-- ===== src/Watchdog/Acks/Bounded.antt =====
-- src/baileys/connection.ts: the sizes of the histories of ids, event by event.
use baileys_api.Prelude.{ℕ, Option, List, arith, if_both}
use baileys_api.Watchdog.{
  Watchdog, clear_send_stall_state, release_in_flight, track_optional_id, note_mutex_wedge,
  record_send_success, record_late_settle, Outcome, resolved, rejected, build_socket,
}
use baileys_api.Watchdog.Relay.{in_time, Event, run, created}
use baileys_api.Watchdog.Relay.Keeps.{Keeps, run-keeps}
use baileys_api.Watchdog.Acks.{
  IsShort, same-IsShort, track-IsShort, acks-IsShort, release-SameIds, wedge-SameIds,
  success-SameIds, timeout-SameIds, tx-SameIds, assert-SameIds, late_failure-SameIds,
}

in_time-IsShort :
    (now g : ℕ) (o : Outcome) (w : Watchdog) → IsShort w → IsShort (in_time now g o w).0
in_time-IsShort now g (resolved id) w h =
    let v = record_send_success now g (release_in_flight g w) in
    track-IsShort id v (
      same-IsShort _ v (success-SameIds now g (release_in_flight g w))
        (same-IsShort w _ (release-SameIds g w) h))
in_time-IsShort now g (rejected e) w h =
    let h' = same-IsShort w _ (release-SameIds g w) h in
    if_both (λ (p : Watchdog × Option ℕ). IsShort p.0) _
      (same-IsShort _ _ (timeout-SameIds now g (note_mutex_wedge e (release_in_flight g w)))
        (same-IsShort _ _ (wedge-SameIds e (release_in_flight g w)) h'))
      h'

late-IsShort :
    (now g : ℕ) (o : Outcome) (w : Watchdog) → IsShort w → IsShort (record_late_settle now g o w)
unfolding record_late_settle
late-IsShort now g (resolved id) w h =
    if_both IsShort _ h
      (same-IsShort _ _ (success-SameIds now g (track_optional_id id w)) (track-IsShort id w h))
late-IsShort now g (rejected e) w h = same-IsShort w _ (late_failure-SameIds now g e w) h

IsShort-Keeps : Keeps (λ w now. IsShort w)
unfolding clear_send_stall_state build_socket
IsShort-Keeps = record {
  waited = λ w le h. h;
  tracked = λ o w h. track-IsShort o w h;
  asserted = λ now w h. same-IsShort w _ (assert-SameIds now w) h;
  taken = λ w h. record { submitted = h.submitted; unmatched = h.unmatched };
  answered = in_time-IsShort;
  late = λ now g o w h.
      late-IsShort now g o (release_in_flight g w) (same-IsShort w _ (release-SameIds g w) h);
  expired = λ now g w h. same-IsShort w _ (timeout-SameIds now g w) h;
  transacted = λ now g phase key w h. same-IsShort w _ (tx-SameIds now g phase key w) h;
  acknowledged = acks-IsShort;
  built = λ w h. record { submitted = omega arith; unmatched = omega arith };
  opened = λ w h. record { submitted = h.submitted; unmatched = h.unmatched };
  changed =
      λ w up socket discarded ended h. record { submitted = h.submitted; unmatched = h.unmatched };
}

-- However long a connection lives, it remembers at most 500 ids of messages that it sent, and at
-- most 100 of acknowledged messages that it did not send.
pub run-IsShort :
    (now : ℕ) (events : List (ℕ × Event)) → IsShort (run (created now) events).watchdog
run-IsShort now events =
    run-keeps (λ w now. IsShort w) IsShort-Keeps events (created now)
      (record { submitted = omega arith; unmatched = omega arith })

-- ===== src/Watchdog/Acks.antt =====
-- src/baileys/connection.ts: the sizes of the histories of ids.
pub mod Bounded
use baileys_api.Prelude.{
  ℕ, zero, suc, ◌+◌, ◌≤◌, ◌≡◌, refl, String, Bool, true, false, Option, none, some, List, [], ◌∷◌,
  ◌++◌, ◌==◌, leb, length, arith, if◌then◌else◌, if_both, Option-cases, inl, inr,
}
use baileys_api.Entries.{lookup, assign, remove}
use baileys_api.Watchdog.{
  Watchdog, Failure, Refusal, submitted_id_history, unmatched_ack_history, trim, add_id, claim_ack,
  clear_send_stall_state, release_in_flight, track_submitted_id, track_optional_id, AckKey,
  some_ours, is_our_submitted_key, remember_unmatched_ack, matched, track_acks, note_mutex_wedge,
  TxPhase, acquired, released, stalled, timeout, handle_tx_event, maybe_report_send_stall,
  assert_can_send, record_send_success, record_send_timeout, record_late_settle, Outcome, resolved,
  rejected, build_socket,
}
use baileys_api.Watchdog.Relay.{
  Phase, waiting, abandoned, settled, Send, Sending, get_elem?, set, admitted, relay_admitted,
  relay, start, prepare_admitted, prepare, submit, in_time, too_late, settle_send, expire_send,
  Event, prepares, submits, relays, settles, expires, transacts, acknowledges, builds, opens,
  closes, drops, discards, ends, handle, step, run, created,
}

-- No history is longer than its bound.
pub record IsShort (w : Watchdog) : Type 0 where
  pub submitted : length w.submitted_message_ids ≤ submitted_id_history
  pub unmatched : length w.unmatched_ack_ids ≤ unmatched_ack_history

-- The histories are the same.
pub record SameIds (v w : Watchdog) : Type 0 where
  pub submitted : w.submitted_message_ids ≡ v.submitted_message_ids
  pub unmatched : w.unmatched_ack_ids ≡ v.unmatched_ack_ids

pub same-IsShort : (v w : Watchdog) → SameIds v w → IsShort v → IsShort w
same-IsShort v w s h = record {
  submitted = ground (arith, h.submitted);
  unmatched = ground (arith, h.unmatched);
}

length-trim :
    {A : Type 0} (n : ℕ) (l : List A) → length l ≤ suc n → suc (length (trim (suc n) l)) ≤ suc n
length-trim n [] h = ground arith
length-trim n (x ∷ l) h = ground arith

length-add_id : (l : List String) (id : String) → length (add_id l id) ≤ suc (length l)
unfolding add_id
length-add_id [] id = omega arith
length-add_id (x ∷ l) id = ground (arith, length-add_id l id)

length-assign :
    {A : Type 0} (l : List (String × A)) (k : String) (a : A)
    → length (assign l k a) ≤ suc (length l)
unfolding assign
length-assign [] k a = omega arith
length-assign ((j, b) ∷ l) k a = ground (arith, length-assign l k a)

length-remove : {A : Type 0} (l : List (String × A)) (k : String) → length (remove l k) ≤ length l
unfolding remove
length-remove [] k = omega arith
length-remove ((j, b) ∷ l) k = ground (arith, length-remove l k)

claim-IsShort : (id : String) (o : Option ℕ) (w : Watchdog) → IsShort w → IsShort (claim_ack id o w)
claim-IsShort id none w h = h
claim-IsShort id (some t) w h = record {
  submitted = h.submitted;
  unmatched = omega (arith, h.unmatched, length-remove w.unmatched_ack_ids id);
}

pub track-IsShort : (o : Option String) (w : Watchdog) → IsShort w → IsShort (track_optional_id o w)
unfolding track_submitted_id
track-IsShort none w h = h
track-IsShort (some id) w h =
    let kept = trim submitted_id_history w.submitted_message_ids in
    if_both IsShort _ h (
      claim-IsShort id (lookup w.unmatched_ack_ids id)
        (record w { submitted_message_ids = add_id kept id })
        (record {
          submitted = omega (
            arith,
            length-add_id kept id,
            length-trim 499 w.submitted_message_ids (omega (arith, h.submitted)),
          );
          unmatched = h.unmatched;
        }))

remember-IsShort :
    (now : ℕ) (id : String) (w : Watchdog) → IsShort w → IsShort (remember_unmatched_ack now id w)
unfolding remember_unmatched_ack
remember-IsShort now id w h =
    let kept = trim unmatched_ack_history w.unmatched_ack_ids in
    record {
      submitted = h.submitted;
      unmatched = omega (
        arith,
        length-assign kept id now,
        length-trim 99 w.unmatched_ack_ids (omega (arith, h.unmatched)),
      );
    }

matched-IsShort :
    (now : ℕ) (id : Option String) (w : Watchdog) → IsShort w → IsShort (matched now id w).0
matched-IsShort now none w h = h
matched-IsShort now (some id) w h =
    if_both (λ (p : Watchdog × Bool). IsShort p.0) _ h (remember-IsShort now id w h)

key-IsShort :
    (now : ℕ) (key : AckKey) (w : Watchdog) → IsShort w → IsShort (is_our_submitted_key now key w).0
unfolding is_our_submitted_key
key-IsShort now key w h =
    if_both (λ (p : Watchdog × Bool). IsShort p.0) _ (matched-IsShort now key.id w h) h

some_ours-IsShort :
    (now : ℕ) (l : List (Bool × AckKey)) (w : Watchdog) → IsShort w → IsShort (some_ours now l w).0
unfolding some_ours
some_ours-IsShort now [] w h = h
some_ours-IsShort now ((false, key) ∷ l) w h = some_ours-IsShort now l w h
some_ours-IsShort now ((true, key) ∷ l) w h =
    let h' = key-IsShort now key w h in
    if_both (λ (p : Watchdog × Bool). IsShort p.0) _ h'
      (some_ours-IsShort now l (is_our_submitted_key now key w).0 h')

pub acks-IsShort :
    (now : ℕ) (l : List (Bool × AckKey)) (w : Watchdog) → IsShort w → IsShort (track_acks now l w)
unfolding track_acks
acks-IsShort now l w h =
    let h' = some_ours-IsShort now l w h in
    record { submitted = ground (arith, h'.submitted); unmatched = ground (arith, h'.unmatched) }

pub release-SameIds : (g : ℕ) (w : Watchdog) → SameIds w (release_in_flight g w)
unfolding release_in_flight
release-SameIds g w = ground arith

pub wedge-SameIds : (e : Failure) (w : Watchdog) → SameIds w (note_mutex_wedge e w)
unfolding note_mutex_wedge clear_send_stall_state
wedge-SameIds e w = ground arith

pub success-SameIds : (now g : ℕ) (w : Watchdog) → SameIds w (record_send_success now g w)
unfolding record_send_success clear_send_stall_state
success-SameIds now g w = ground arith

pub timeout-SameIds : (now g : ℕ) (w : Watchdog) → SameIds w (record_send_timeout now g w).0
unfolding record_send_timeout maybe_report_send_stall
timeout-SameIds now g w = ground arith

pub tx-SameIds :
    (now g : ℕ) (phase : TxPhase) (key : String) (w : Watchdog)
    → SameIds w (handle_tx_event now g phase key w)
unfolding handle_tx_event clear_send_stall_state
tx-SameIds now g phase key w = ground arith

pub assert-SameIds : (now : ℕ) (w : Watchdog) → SameIds w (assert_can_send now w).0
unfolding assert_can_send maybe_report_send_stall
assert-SameIds now w = ground arith

pub late_failure-SameIds :
    (now g : ℕ) (e : Failure) (w : Watchdog) → SameIds w (record_late_settle now g (rejected e) w)
unfolding record_late_settle clear_send_stall_state
late_failure-SameIds now g e w = ground (arith, wedge-SameIds e w)

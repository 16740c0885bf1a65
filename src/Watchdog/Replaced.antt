-- ===== src/Watchdog/Replaced.antt =====
-- src/baileys/connection.ts: what a socket that was replaced still does to the watchdog.
use baileys_api.Prelude.{
  ℕ, ◌≡◌, ◌≢◌, refl, ap, sym, subst, ◌∙◌, String, true, false, Option, none, some, List, [], ◌∷◌,
  ◌==◌, eqb, arith, eq_iff, eq_refl,
}
use baileys_api.Entries.{lookup}
use baileys_api.Messages.Senders.{includes}
use baileys_api.Watchdog.{
  Watchdog, add_id, release_in_flight, trim, submitted_id_history, track_submitted_id,
  track_optional_id, AckKey, is_our_submitted_key, some_ours, track_acks, claim_ack, TxPhase,
  handle_tx_event, record_send_success, record_send_timeout, record_late_settle, Outcome, resolved,
  rejected,
}
use baileys_api.Watchdog.Relay.{
  Phase, waiting, abandoned, settled, Send, Sending, get_elem?, settle_send, expire_send, settles,
  expires, transacts, acknowledges, handle,
}

-- What is left of an answer: the id of a message that was waited for.
abbrev pub answered : Phase → Outcome → Watchdog → Watchdog
answered waiting (resolved id) w = track_optional_id id w
answered waiting (rejected e) w = w
answered abandoned outcome w = w
answered settled outcome w = w

settle-replaced :
    (r : Sending) (i : ℕ) (s : Send) (o : Outcome) (p : Phase)
    → s.phase ≡ p
    → eqb s.generation r.watchdog.socket_generation ≡ false
    → (settle_send i s o r).watchdog ≡ answered p o r.watchdog
unfolding release_in_flight record_send_success record_late_settle
settle-replaced r i s (resolved id) waiting e h = rw e (rw h (rw h refl))
settle-replaced r i s (rejected f) waiting e h = rw e (ground arith)
settle-replaced r i s (resolved id) abandoned e h = rw e (ground arith)
settle-replaced r i s (rejected f) abandoned e h = rw e (ground arith)
settle-replaced r i s o settled e h = rw e refl

expire-replaced :
    (r : Sending) (i : ℕ) (s : Send) (p : Phase)
    → s.phase ≡ p
    → eqb s.generation r.watchdog.socket_generation ≡ false
    → (expire_send i s r).watchdog ≡ r.watchdog
unfolding record_send_timeout
expire-replaced r i s waiting e h = rw e (ground arith)
expire-replaced r i s abandoned e h = rw e refl
expire-replaced r i s settled e h = rw e refl

-- A send of a socket that was replaced leaves the watchdog alone when it is given up, fails, or
-- settles late, and so does an event of that socket's keystore. When the send is answered in time,
-- the id of its message is all that is noted.
pub replaced-handle :
    (r : Sending) (i : ℕ) (s : Send) (o : Outcome) (token : ℕ) (phase : TxPhase) (key : String)
    → get_elem? r.sends i ≡ some s
    → s.generation ≢ r.watchdog.socket_generation
    → token ≢ r.watchdog.socket_generation
    → ((handle (expires i) r).watchdog ≡ r.watchdog)
      × ((handle (settles i o) r).watchdog ≡ answered s.phase o r.watchdog)
      × ((handle (transacts token phase key) r).watchdog ≡ r.watchdog)
unfolding handle handle_tx_event
replaced-handle r i s o token phase key e h t =
    let h' : eqb s.generation r.watchdog.socket_generation ≡ false = ground arith in
    (
      rw e (expire-replaced r i s s.phase refl h'),
      rw e (settle-replaced r i s o s.phase refl h'),
      ground arith,
    )

includes-add_id : (l : List String) (id : String) → includes (add_id l id) id ≡ true
unfolding includes add_id
includes-add_id [] id = ground (arith, eq_refl id)
includes-add_id (x ∷ l) id = ground (arith, includes-add_id l id, eq_iff x id)

abbrev pub ours : String → AckKey
ours id = record { from_me = true; id = some id }

tracked-includes :
    (id : String) (w : Watchdog) (o : Option ℕ) (l : List String)
    → includes l id ≡ true
    → includes (claim_ack id o (record w { submitted_message_ids = l })).submitted_message_ids id
      ≡ true
tracked-includes id w none l h = h
tracked-includes id w (some t) l h = h

acked_ours :
    (now : ℕ) (id : String) (w : Watchdog)
    → includes w.submitted_message_ids id ≡ true
    → (track_acks now ((true, ours id) ∷ []) w).last_outgoing_ack_at ≡ some now
unfolding track_acks some_ours is_our_submitted_key
acked_ours now id w h = rw h refl

settles_send :
    (r : Sending) (i : ℕ) (s : Send) (o : Outcome)
    → get_elem? r.sends i ≡ some s
    → handle (settles i o) r ≡ settle_send i s o r
unfolding handle
settles_send r i s o e = rw e refl

tracked :
    (id : String) (w : Watchdog)
    → (id == "") ≡ false
    → includes (track_optional_id (some id) w).submitted_message_ids id ≡ true
unfolding track_submitted_id
tracked id w n = rw n (
    tracked-includes id w (lookup w.unmatched_ack_ids id)
      (add_id (trim submitted_id_history w.submitted_message_ids) id)
      (includes-add_id (trim submitted_id_history w.submitted_message_ids) id))

-- The history of ids is not kept apart: when a send of a replaced socket is answered in time, an
-- acknowledgement of its message is taken as one of the present socket, which may have sent nothing.
pub replaced_answer-acknowledged :
    (r : Sending) (i : ℕ) (s : Send) (id : String)
    → get_elem? r.sends i ≡ some s
    → s.phase ≡ waiting
    → s.generation ≢ r.watchdog.socket_generation
    → (id == "") ≡ false
    → let q = handle (settles i (resolved (some id))) r in
      (handle (acknowledges ((true, ours id) ∷ [])) q).watchdog.last_outgoing_ack_at ≡ some q.clock
unfolding handle track_submitted_id
replaced_answer-acknowledged r i s id e p h n =
    let h' : eqb s.generation r.watchdog.socket_generation ≡ false = ground arith in
    let q = handle (settles i (resolved (some id))) r in
    let noted : q.watchdog ≡ track_optional_id (some id) r.watchdog =
      ap (λ (x : Sending). x.watchdog) (settles_send r i s (resolved (some id)) e)
      ∙ settle-replaced r i s (resolved (some id)) waiting p h' in
    acked_ours q.clock id q.watchdog (
      subst (λ (w : Watchdog). includes w.submitted_message_ids id ≡ true) (sym noted)
        (tracked id r.watchdog n))

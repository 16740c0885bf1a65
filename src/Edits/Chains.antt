-- ===== src/Edits/Chains.antt =====
-- src/baileys/connection.ts (enqueueEditDelivery, onMessagesUpdate, emitUnresolvedEdits,
-- decryptAndEmitMessageEdit, deliverToWebhook): the deliveries of edits, one chain per message.
use baileys_api.Prelude.{
  ℕ, zero, suc, ◌+◌, String, Bool, true, false, ◌||◌, Option, none, some, List, [], ◌∷◌, ◌++◌, leb,
  get_or, not, if◌then◌else◌,
}
use baileys_api.Entries.{lookup, assign, remove}
use baileys_api.Edits.{EditPosition, edit_superseded, claim_edit_position}

-- What is queued for a message: an encrypted edit that has claimed nothing yet, and one that has,
-- with the number of the attempt that is next.
pub data Work : Type 0 where
  encrypted : EditPosition → Work
  delivering : EditPosition → ℕ → Work

-- A message that was repaired in its own batch, under way to the webhook as messages.upsert, with the
-- number of the attempt that is next.
pub record Batch : Type 0 where
  pub target : String
  pub position : EditPosition
  pub attempt : ℕ

-- editedAt, editDeliveries with what each chain still has to do, first the one that runs, and what
-- the chains posted to the webhook as messages.update, latest first; then the repaired messages under
-- way, and those posted as messages.upsert.
pub record Edits : Type 0 where
  pub edited_at : List (String × EditPosition)
  pub edit_deliveries : List (String × List Work)
  pub posted : List (String × EditPosition)
  pub batches : List Batch
  pub upserted : List (String × EditPosition)

abbrev pub has_work : Option (List Work) → Bool
has_work none = false
has_work (some chain) = true

-- `editDeliveries.has`
abbrev pub is_delivering : Edits → String → Bool
is_delivering r target = has_work (lookup r.edit_deliveries target)

abbrev pub chain_of : Edits → String → List Work
chain_of r target = get_or (lookup r.edit_deliveries target) []

abbrev pub put_claim : Edits → List (String × EditPosition) × Bool → Edits × Bool
put_claim r (edited_at, granted) = (record r { edited_at = edited_at }, granted)

unfoldable pub claim : String → EditPosition → Edits → Edits × Bool
unfolding claim_edit_position lookup
claim target position r =
    put_claim r (claim_edit_position (is_delivering r) target position r.edited_at)

unfoldable pub enqueue_edit_delivery : String → Work → Edits → Edits
unfolding lookup assign
enqueue_edit_delivery target work r = record r {
  edit_deliveries = assign r.edit_deliveries target (chain_of r target ++ (work ∷ []));
}

-- The work that runs is over, or goes on as another: what is left of the chain. An empty chain
-- removes itself.
unfoldable pub leave : String → List Work → Edits → Edits
unfolding assign remove
leave target [] r = record r { edit_deliveries = remove r.edit_deliveries target }
leave target (work ∷ chain) r = record r {
  edit_deliveries = assign r.edit_deliveries target (work ∷ chain);
}

-- The claims of onMessagesUpdate, in order, and the edits that are to be delivered.
unfoldable pub claim_all :
    List (String × EditPosition) → Edits → Edits × List (String × EditPosition)
unfolding claim
claim_all [] r = (r, [])
claim_all ((target, position) ∷ entries) r =
    let (r', granted) = claim target position r in
    let (q, edits) = claim_all entries r' in
    if granted then (q, (target, position) ∷ edits) else (q, edits)

unfoldable pub enqueue_all : List (String × EditPosition) → Edits → Edits
unfolding enqueue_edit_delivery
enqueue_all [] r = r
enqueue_all ((target, position) ∷ edits) r =
    enqueue_all edits (enqueue_edit_delivery target (delivering position 0) r)

unfoldable pub on_messages_update : List (String × EditPosition) → Edits → Edits
unfolding claim_all enqueue_all
on_messages_update entries r = let (q, edits) = claim_all entries r in enqueue_all edits q

-- decryptAndEmitMessageEdit, up to its delivery: `found` says that a secret is stored and opens it.
unfoldable pub decrypt : String → Bool → List Work → Edits → Edits
unfolding claim leave
decrypt target found [] r = r
decrypt target found (delivering position attempt ∷ chain) r = r
decrypt target false (encrypted position ∷ chain) r = leave target chain r
decrypt target true (encrypted position ∷ chain) r =
    let (q, granted) = claim target position r in
    if granted then leave target (delivering position 0 ∷ chain) q else leave target chain q

-- One turn of the loop of deliverToWebhook: `is_ok` says that the answer to the post is a success.
unfoldable pub deliver : ℕ → String → Bool → List Work → Edits → Edits
unfolding leave edit_superseded
deliver max_retries target is_ok [] r = r
deliver max_retries target is_ok (encrypted position ∷ chain) r = r
deliver max_retries target is_ok (delivering position attempt ∷ chain) r =
    let q = record r { posted = (target, position) ∷ r.posted } in
    if edit_superseded r.edited_at target position
    then leave target chain r
    else if is_ok || not (leb (attempt + 1) max_retries)
    then leave target chain q
    else leave target (delivering position (attempt + 1) ∷ chain) q

-- repairSecretMessageEdits for an edit whose message is in the same batch, and the delivery of that
-- batch, which asks nothing of the positions.
unfoldable pub repair : String → EditPosition → Edits → Edits
unfolding claim
repair target position r =
    let (q, granted) = claim target position r in
    let sent : Batch = record { target = target; position = position; attempt = 0 } in
    if granted then record q { batches = sent ∷ q.batches } else q

abbrev pub put_batch :
    Batch → List Batch × List (String × EditPosition) → List Batch × List (String × EditPosition)
put_batch b (batches, sent) = (b ∷ batches, sent)

-- An attempt of one of these deliveries: those that are left, and what is posted.
unfoldable pub send_at : ℕ → ℕ → Bool → List Batch → List Batch × List (String × EditPosition)
send_at max_retries i is_ok [] = ([], [])
send_at max_retries zero is_ok (b ∷ batches) = (
  if is_ok || not (leb (b.attempt + 1) max_retries)
      then batches
      else record b { attempt = b.attempt + 1 } ∷ batches,
  (b.target, b.position) ∷ [],
)
send_at max_retries (suc i) is_ok (b ∷ batches) = put_batch b (send_at max_retries i is_ok batches)

unfoldable pub send_batch : ℕ → ℕ → Bool → Edits → Edits
unfolding send_at
send_batch max_retries i is_ok r =
    let (batches, sent) = send_at max_retries i is_ok r.batches in
    record r { batches = batches; upserted = sent ++ r.upserted }

-- `repairs` is an edit whose message is in the same batch, and `sends` an attempt to post that
-- message, by its place; `updates` is onMessagesUpdate with the plaintext edits of an event, and
-- `defers` is an edit that emitUnresolvedEdits enqueues.
pub data Event : Type 0 where
  repairs defers : String → EditPosition → Event
  updates : List (String × EditPosition) → Event
  decrypts delivers : String → Bool → Event
  sends : ℕ → Bool → Event

module _ (max_retries : ℕ) where
  unfoldable pub handle : Event → Edits → Edits
  unfolding repair send_batch enqueue_edit_delivery on_messages_update decrypt deliver lookup
  handle (repairs target position) r = repair target position r
  handle (sends i is_ok) r = send_batch max_retries i is_ok r
  handle (defers target position) r = enqueue_edit_delivery target (encrypted position) r
  handle (updates entries) r = on_messages_update entries r
  handle (decrypts target found) r = decrypt target found (chain_of r target) r
  handle (delivers target is_ok) r = deliver max_retries target is_ok (chain_of r target) r

  unfoldable pub run : Edits → List Event → Edits
  unfolding handle
  run r [] = r
  run r (e ∷ events) = run (handle e r) events

abbrev pub no_edits : Edits
no_edits = record { edited_at = []; edit_deliveries = []; posted = []; batches = []; upserted = [] }

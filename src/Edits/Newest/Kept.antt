-- ===== src/Edits/Newest/Kept.antt =====
-- src/baileys/connection.ts (deliveries of edits): when the deliveries of a message's edits never go
-- back to an older one.
use baileys_api.Prelude.{
  ℕ, ◌+◌, ◌≡◌, refl, String, Bool, true, false, not, ◌||◌, List, [], ◌∷◌, ◌==◌, leb, arith,
  if◌then◌else◌, if_both, if_cases, eq_iff, subst,
}
use baileys_api.Edits.{EditPosition, edit_superseded}
use baileys_api.Edits.Positions.{IsUpTo, IsUpTo-trans, IsUpTo-refl}
use baileys_api.Edits.Chains.{
  Work, encrypted, delivering, Edits, is_delivering, chain_of, claim, enqueue_edit_delivery, leave,
  claim_all, enqueue_all, on_messages_update, decrypt, deliver, Event, repairs, defers, updates,
  decrypts, delivers, sends, repair, send_batch, handle, run,
}
use baileys_api.Edits.Newest.{
  IsQueued, AllQueued, AllQueued-append, AllQueued-grows, IsPosted, IsNewestAt, IsNewest,
  next-IsNewestAt, claim-Next, chain_of-enqueue_edit_delivery, chain_of-leave, IsPosted-grows,
}

enqueue-IsNewestAt :
    (t k : String) (a : EditPosition) (w : Work) (r : Edits)
    → IsNewestAt t a r
    → ((k == t) ≡ true → IsQueued a w)
    → IsNewestAt t a (enqueue_edit_delivery k w r)
unfolding enqueue_edit_delivery
enqueue-IsNewestAt t k a w r h q = record {
  remembered = h.remembered;
  queued = rw (chain_of-enqueue_edit_delivery t k w r) (
      if_cases (AllQueued a) (k == t) (λ e. AllQueued-append a (chain_of r t) w h.queued (q e))
        (λ e. h.queued));
  in_order = h.in_order;
}

leave-IsNewestAt :
    (t k : String) (a : EditPosition) (l : List Work) (r : Edits)
    → IsNewestAt t a r
    → ((k == t) ≡ true → AllQueued a l)
    → IsNewestAt t a (leave k l r)
unfolding leave
leave-IsNewestAt t k a l r h q =
    let queued : AllQueued a (chain_of (leave k l r) t) =
      rw (chain_of-leave t k l r) (if_cases (AllQueued a) (k == t) q (λ e. h.queued)) in
    left l queued
  where
    left : (l : List Work) → AllQueued a (chain_of (leave k l r) t) → IsNewestAt t a (leave k l r)
    left [] x = record { remembered = h.remembered; queued = x; in_order = h.in_order }
    left (w ∷ l) x = record { remembered = h.remembered; queued = x; in_order = h.in_order }

post-IsNewestAt :
    (t k : String) (a p : EditPosition) (r : Edits)
    → IsNewestAt t a r
    → ((k == t) ≡ true → IsUpTo p a × IsUpTo a p)
    → IsNewestAt t a (record r { posted = (k, p) ∷ r.posted })
post-IsNewestAt t k a p r h q = record {
  remembered = h.remembered;
  queued = h.queued;
  in_order = (
    λ e. (q e).0,
    if_cases (λ b. IsPosted t b r.posted) (k == t)
        (λ e. IsPosted-grows t a p r.posted (q e).1 h.in_order) (λ e. h.in_order),
  );
}

-- What was claimed for this message is not newer than this.
abbrev AllClaims : String → EditPosition → List (String × EditPosition) → Type 0
AllClaims t a [] = Unit {0}
AllClaims t a ((k, p) ∷ l) = ((k == t) ≡ true → IsUpTo p a) × AllClaims t a l

claim_all-IsNewestAt :
    (t : String) (a : EditPosition) (entries : List (String × EditPosition)) (r : Edits)
    → is_delivering r t ≡ true
    → IsNewestAt t a r
    → (b : EditPosition) × IsNewestAt t b (claim_all entries r).0
      × IsUpTo a b
      × AllClaims t b (claim_all entries r).1
unfolding claim_all
claim_all-IsNewestAt t a [] r busy h = (a, h, IsUpTo-refl a, tt)
claim_all-IsNewestAt t a ((k, p) ∷ entries) r busy h =
    let (n, g) = claim-Next t k a p r busy h.remembered in
    let r' = (claim k p r).0 in
    let (b, kept, up, all) =
      claim_all-IsNewestAt t n.next entries r' (rw n.same_chains busy)
        (next-IsNewestAt t a r r' n h) in
    let (kept', up', all') =
      if_cases
        (λ (x : Edits × List (String × EditPosition)).
          IsNewestAt t b x.0 × IsUpTo a b × AllClaims t b x.1)
        (claim k p r).1 {x = ((claim_all entries r').0, (k, p) ∷ (claim_all entries r').1)}
        {y = claim_all entries r'}
        (λ e. (
          kept,
          IsUpTo-trans a n.next b n.grows up,
          (λ same. IsUpTo-trans p n.next b (g e same) up, all),
        ))
        (λ e. (kept, IsUpTo-trans a n.next b n.grows up, all)) in
    (b, kept', up', all')

enqueue_all-IsNewestAt :
    (t : String) (a : EditPosition) (edits : List (String × EditPosition)) (r : Edits)
    → AllClaims t a edits
    → IsNewestAt t a r
    → IsNewestAt t a (enqueue_all edits r)
unfolding enqueue_all
enqueue_all-IsNewestAt t a [] r c h = h
enqueue_all-IsNewestAt t a ((k, p) ∷ edits) r c h =
    enqueue_all-IsNewestAt t a edits (enqueue_edit_delivery k (delivering p 0) r) c.1
      (enqueue-IsNewestAt t k a (delivering p 0) r h c.0)

chain_queued :
    (t k : String) (a : EditPosition) (l : List Work) (r : Edits)
    → chain_of r k ≡ l
    → IsNewestAt t a r
    → (k == t) ≡ true
    → AllQueued a l
chain_queued t k a l r e h same =
    let k_is_t : k ≡ t = ground (arith, same, eq_iff k t) in
    let chain : chain_of r t ≡ l = cc in subst (AllQueued a) chain h.queued

decrypt-IsNewest :
    (t k : String) (a : EditPosition) (found : Bool) (l : List Work) (r : Edits)
    → is_delivering r t ≡ true
    → chain_of r k ≡ l
    → IsNewestAt t a r
    → IsNewest t (decrypt k found l r)
unfolding decrypt
decrypt-IsNewest t k a found [] r busy e h = (a, h)
decrypt-IsNewest t k a found (delivering p n ∷ l) r busy e h = (a, h)
decrypt-IsNewest t k a false (encrypted p ∷ l) r busy e h =
    (a, leave-IsNewestAt t k a l r h (λ same. (chain_queued t k a (encrypted p ∷ l) r e h same).1))
decrypt-IsNewest t k a true (encrypted p ∷ l) r busy e h =
    let (n, g) = claim-Next t k a p r busy h.remembered in
    let q = (claim k p r).0 in
    let kept = next-IsNewestAt t a r q n h in
    let rest : (k == t) ≡ true → AllQueued n.next l = λ same.
      AllQueued-grows a n.next l n.grows (chain_queued t k a (encrypted p ∷ l) r e h same).1 in
    (
      n.next,
      if_cases (λ (x : Edits). IsNewestAt t n.next x) (claim k p r).1
          {x = leave k (delivering p 0 ∷ l) q} {y = leave k l q}
          (λ granted.
            leave-IsNewestAt t k n.next (delivering p 0 ∷ l) q kept
              (λ same. (g granted same, rest same)))
          (λ superseded. leave-IsNewestAt t k n.next l q kept rest),
    )

deliver-IsNewestAt :
    (max_retries : ℕ) (t k : String) (a : EditPosition) (is_ok : Bool) (l : List Work) (r : Edits)
    → chain_of r k ≡ l
    → IsNewestAt t a r
    → IsNewestAt t a (deliver max_retries k is_ok l r)
unfolding deliver edit_superseded
deliver-IsNewestAt max_retries t k a is_ok [] r e h = h
deliver-IsNewestAt max_retries t k a is_ok (encrypted p ∷ l) r e h = h
deliver-IsNewestAt max_retries t k a is_ok (delivering p n ∷ l) r e h =
    let queued = chain_queued t k a (delivering p n ∷ l) r e h in
    let q = record r { posted = (k, p) ∷ r.posted } in
    let again = leave k (delivering p (n + 1) ∷ l) q in
    let P = λ (x : Edits). IsNewestAt t a x in
    let last = is_ok || not (leb (n + 1) max_retries) in
    if_cases P (edit_superseded r.edited_at k p) {x = leave k l r}
      {y = if last then leave k l q else again}
      (λ superseded. leave-IsNewestAt t k a l r h (λ same. (queued same).1))
      (λ wanted.
        let kept =
          post-IsNewestAt t k a p r h
            (λ same. ((queued same).0, ground (arith, wanted, same, h.remembered, eq_iff k t))) in
        if_both P last {x = leave k l q} {y = again}
          (leave-IsNewestAt t k a l q kept (λ same. (queued same).1))
          (leave-IsNewestAt t k a (delivering p (n + 1) ∷ l) q kept queued))

repaired :
    (t k : String) (p a : EditPosition) (q : Edits) (granted : Bool)
    → IsNewestAt t a q
    → IsNewestAt t a (
        if granted
        then record q { batches = record { target = k; position = p; attempt = 0 } ∷ q.batches }
        else q)
repaired t k p a q true h = record {
  remembered = h.remembered;
  queued = h.queued;
  in_order = h.in_order;
}
repaired t k p a q false h = h

module _ (max_retries : ℕ) where
  handle-IsNewest :
      (t : String) (event : Event) (r : Edits)
      → is_delivering r t ≡ true
      → IsNewest t r
      → IsNewest t (handle max_retries event r)
  unfolding handle on_messages_update repair send_batch
  handle-IsNewest t (repairs k p) r busy (a, h) =
      let (n, g) = claim-Next t k a p r busy h.remembered in
      (
        n.next,
        repaired t k p n.next (claim k p r).0 (claim k p r).1
            (next-IsNewestAt t a r (claim k p r).0 n h),
      )
  handle-IsNewest t (sends i is_ok) r busy (a, h) =
      (a, record { remembered = h.remembered; queued = h.queued; in_order = h.in_order })
  handle-IsNewest t (defers k p) r busy (a, h) =
      (a, enqueue-IsNewestAt t k a (encrypted p) r h (λ e. tt))
  handle-IsNewest t (updates entries) r busy (a, h) =
      let (b, kept, up, all) = claim_all-IsNewestAt t a entries r busy h in
      (b, enqueue_all-IsNewestAt t b (claim_all entries r).1 (claim_all entries r).0 all kept)
  handle-IsNewest t (decrypts k found) r busy (a, h) =
      decrypt-IsNewest t k a found (chain_of r k) r busy refl h
  handle-IsNewest t (delivers k is_ok) r busy (a, h) =
      (a, deliver-IsNewestAt max_retries t k a is_ok (chain_of r k) r refl h)

  -- The message is being delivered in every state of the run that an event comes in.
  unfoldable pub StaysDelivering : String → Edits → List Event → Type 0
  StaysDelivering t r [] = Unit {0}
  StaysDelivering t r (event ∷ events) =
      (is_delivering r t ≡ true) × StaysDelivering t (handle max_retries event r) events

  -- Edits of any messages arrive, are decrypted and are posted in any order. For a message whose
  -- position is remembered, and of which nothing newer is queued or was posted, this remains so for
  -- as long as the message is being delivered: what its chain posts as messages.update, retries
  -- included, never goes back to an older edit, however many other messages are edited meanwhile.
  -- This says nothing of the message itself, which is posted as messages.upsert where its batch
  -- repaired it.
  pub run-IsNewest :
      (t : String) (events : List Event) (r : Edits)
      → StaysDelivering t r events
      → IsNewest t r
      → IsNewest t (run max_retries r events)
  unfolding run StaysDelivering
  run-IsNewest t [] r busy h = h
  run-IsNewest t (event ∷ events) r busy h =
      run-IsNewest t events (handle max_retries event r) busy.1 (handle-IsNewest t event r busy.0 h)

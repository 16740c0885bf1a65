-- ===== src/Connections/Webhooks.antt =====
-- src/baileys/connectionsHandler.ts: how many webhook deliveries a shutdown waits for.
use baileys_api.Prelude.{ℕ, ◌+◌, ◌≡◌, refl, String, true, false, List, [], ◌∷◌, some, arith}
use baileys_api.Entries.{lookup, remove, values, IsMap, add, has, total, total-remove}
use baileys_api.Connections.Options.{Connection}
use baileys_api.Connections.Registry.{
  ConnectionsHandler, put, registered, points_at, retire, evict, keep_draining, discard_object,
  unregister, webhooks_of, still_delivering, in_flight_webhook_count,
}

abbrev weight : (ℕ → Connection) → ℕ → ℕ
weight objects o = (objects o).in_flight_webhooks

webhooks_of-values :
    (objects : ℕ → Connection) (m : List (String × ℕ))
    → webhooks_of objects (values m) ≡ total (weight objects) m
unfolding webhooks_of values total
webhooks_of-values objects [] = refl
webhooks_of-values objects ((k, o) ∷ m) = ground (arith, webhooks_of-values objects m)

-- Those that have nothing left to deliver do not count.
webhooks_of-still_delivering :
    (objects : ℕ → Connection) (s : List ℕ)
    → webhooks_of objects (still_delivering objects s) ≡ webhooks_of objects s
unfolding webhooks_of still_delivering
webhooks_of-still_delivering objects [] = refl
webhooks_of-still_delivering objects (o ∷ s) =
    ground (arith, webhooks_of-still_delivering objects s)

webhooks_of-add :
    (objects : ℕ → Connection) (s : List ℕ) (o : ℕ)
    → has s o ≡ false
    → webhooks_of objects (add s o) ≡ webhooks_of objects s + weight objects o
unfolding webhooks_of add has
webhooks_of-add objects [] o h = ground arith
webhooks_of-add objects (q ∷ s) o h = ground (arith, webhooks_of-add objects s o)

-- The count only reads the number of webhooks of each connection.
webhooks_of-cong :
    (a b : ℕ → Connection)
    → ((j : ℕ) → weight a j ≡ weight b j)
    → (s : List ℕ) → webhooks_of a s ≡ webhooks_of b s
unfolding webhooks_of
webhooks_of-cong a b e [] = refl
webhooks_of-cong a b e (o ∷ s) = ground (arith, e o, webhooks_of-cong a b e s)

values-remove :
    (objects : ℕ → Connection) (m : List (String × ℕ)) (k : String) (o : ℕ)
    → IsMap m
    → lookup m k ≡ some o
    → webhooks_of objects (values (remove m k)) + weight objects o ≡ webhooks_of objects (values m)
values-remove objects m k o h e = ground (
  arith,
  webhooks_of-values objects m,
  webhooks_of-values objects (remove m k),
  total-remove (weight objects) m k {a = o} h,
)

count_lem :
    (h : ConnectionsHandler)
    → (in_flight_webhook_count h).0
      ≡ webhooks_of h.objects (values h.connections) + webhooks_of h.objects h.draining_webhooks
unfolding in_flight_webhook_count
count_lem h = ground (arith, webhooks_of-still_delivering h.objects h.draining_webhooks)

-- Discarding a connection does not change what it has in flight.
discarded :
    (h : ConnectionsHandler) (o : ℕ) (s : List ℕ)
    → webhooks_of (discard_object o h).objects s ≡ webhooks_of h.objects s
unfolding discard_object put
discarded h o = webhooks_of-cong _ _ (λ j. ground arith)

-- A connection that is retired stays counted: with it the number of webhooks in flight is the same.
pub retire-in_flight_webhook_count :
    (phone : String) (o : ℕ) (h : ConnectionsHandler)
    → IsMap h.connections
    → registered h phone ≡ some o
    → has h.draining_webhooks o ≡ false
    → (in_flight_webhook_count (retire phone o h)).0 ≡ (in_flight_webhook_count h).0
unfolding retire keep_draining unregister discard_object put
retire-in_flight_webhook_count phone o h m e d = ground (
  arith,
  count_lem h,
  count_lem (retire phone o h),
  discarded h o (values (remove h.connections phone)),
  discarded h o h.draining_webhooks,
  discarded h o (add h.draining_webhooks o),
  webhooks_of-add h.objects h.draining_webhooks o d,
  values-remove h.objects h.connections phone o m e,
)

-- A connection that a connect evicts is forgotten: its webhooks in flight are no longer counted.
pub evict-in_flight_webhook_count :
    (phone : String) (o : ℕ) (h : ConnectionsHandler)
    → IsMap h.connections
    → registered h phone ≡ some o
    → (in_flight_webhook_count (evict phone o h)).0 + (h.objects o).in_flight_webhooks
      ≡ (in_flight_webhook_count h).0
unfolding evict unregister
evict-in_flight_webhook_count phone o h m e =
    let hit : points_at (registered h phone) o ≡ true = ground arith in
    rw (evict, hit)
      (ground (
        arith,
        count_lem h,
        count_lem (unregister phone (discard_object o h)),
        discarded h o (values (remove h.connections phone)),
        discarded h o h.draining_webhooks,
        values-remove h.objects h.connections phone o m e,
      ))

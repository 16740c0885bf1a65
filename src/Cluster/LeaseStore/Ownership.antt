-- ===== src/Cluster/LeaseStore/Ownership.antt =====
-- src/cluster/leaseStore.ts: what the renewal and the release scripts do to the lease that they
-- find, whatever ran before them and however the call ends.
use baileys_api.Prelude.{
  ℕ, String, ◌≡◌, ◌≢◌, ◌⊎◌, Bool, true, false, Option, none, some, ◌==◌, eq_iff, eq_refl, arith,
  refl, if◌then◌else◌, Option-cases, inl, inr,
}
use baileys_api.Redis.{Redis, IsRedis}
use baileys_api.Json.{decode}
use baileys_api.Exec.{
  Env, State, Delivery, delivered, refused, reply_lost, Result, ok, throw, redis_error, call,
  arrive, conclude,
}
use baileys_api.Cluster.Keys
use baileys_api.Cluster.Site.{Site, Lease}
use baileys_api.Cluster.LeaseStore.{
  RenewResult, renewed, lost, renew_reply, release_reply, is_released, renew_lease, release_lease,
}

-- The lease of a phone as the database holds it, `none` where there is none to be read.
abbrev pub lease_in : (r : Redis) → Site → r.Db → String → Option Lease
lease_in r site d phone = decode site.lease_json (r.get d (Keys.lease phone))

abbrev pub owned : Site → ℕ → Lease
owned site e = record { owner = site.instance_id; epoch = e }

renew_reply-renewed :
    (site : Site) (raw : Option String)
    → renew_reply site raw ≡ ok renewed
    → (lease : Lease) × (decode site.lease_json raw ≡ some lease) × (lease.owner ≡ site.instance_id)
renew_reply-renewed site none h = cc
renew_reply-renewed site (some raw) h = elim (Option-cases (site.lease_json.parse raw)) [
  | inl e ↦ ground arith
  | inr (lease, e) ↦ (lease, e, ground (arith, eq_iff lease.owner site.instance_id))
]

pub renew_reply-other :
    (site : Site) (raw : Option String) (lease : Lease)
    → decode site.lease_json raw ≡ some lease
    → lease.owner ≢ site.instance_id
    → renew_reply site raw ≡ ok lost
renew_reply-other site none lease e h = cc
renew_reply-other site (some raw) lease e h = ground (arith, eq_iff lease.owner site.instance_id)

release_reply-released :
    (site : Site) (raw : Option String) (e : ℕ)
    → release_reply site e raw ≡ ok true
    → decode site.lease_json raw ≡ some (owned site e)
release_reply-released site none e h = cc
release_reply-released site (some raw) e h = elim (Option-cases (site.lease_json.parse raw)) [
  | inl bad ↦ ground arith
  | inr (lease, good) ↦ ground (arith, eq_iff lease.owner site.instance_id)
]

release_reply-owned :
    (site : Site) (raw : Option String) (e : ℕ)
    → decode site.lease_json raw ≡ some (owned site e)
    → release_reply site e raw ≡ ok true
release_reply-owned site none e h = cc
release_reply-owned site (some raw) e h = ground (arith, eq_refl site.instance_id)

get-some_of_decode :
    (site : Site) (raw : Option String) (lease : Lease)
    → decode site.lease_json raw ≡ some lease
    → (text : String) × (raw ≡ some text)
get-some_of_decode site none lease h = cc
get-some_of_decode site (some text) lease h = (text, refl)

is_released-false : (reply : Result Bool) → reply ≢ ok true → is_released reply ≡ false
is_released-false (ok true) h = absurd (h refl)
is_released-false (ok false) h = refl
is_released-false (throw e) h = refl

-- The answer of a call is its reply or an error.
conclude-reply :
    {r : Redis} {L A : Type 0} (P : Result A → Type 0) (env : Env r L) (end : Delivery)
    (reply : Result A) (d : r.Db) (s : State r L)
    → P reply
    → P (throw redis_error)
    → P (conclude env end reply d s).0
conclude-reply P env delivered reply d s answers fails = answers
conclude-reply P env refused reply d s answers fails = fails
conclude-reply P env reply_lost reply d s answers fails = fails

module _ {r : Redis} {L : Type 0} (laws : IsRedis r) (env : Env r L) (site : Site) (phone : String)
    (s : State r L) where
  -- A renewal changes the value of no key.
  pub get-renew_lease :
      (j : String) → r.get (renew_lease env site phone s).1.db j ≡ r.get (arrive env s).db j
  unfolding renew_lease call
  get-renew_lease j =
      ground
        (arith, laws.get-pexpire (arrive env s).db (Keys.lease phone) j site.config.lease_ttl_ms)

  renew_lease-reply :
      (renew_lease env site phone s).0 ≡ ok renewed
      → renew_reply site (r.get (arrive env s).db (Keys.lease phone)) ≡ ok renewed
  unfolding renew_lease call
  renew_lease-reply h = ground arith

  renew_lease-db :
      (renew_lease env site phone s).0 ≡ ok renewed
      → (renew_lease env site phone s).1.db
        ≡ r.pexpire (arrive env s).db (Keys.lease phone) site.config.lease_ttl_ms
  unfolding renew_lease call
  renew_lease-db h = ground arith

  -- `renewLease` returns "renewed" only if this instance owned the lease when the script ran, and
  -- then the lease is the same afterwards and lives for the configured time again.
  pub renew_lease-renewed :
      (renew_lease env site phone s).0 ≡ ok renewed
      → (lease : Lease) × (lease_in r site (arrive env s).db phone ≡ some lease)
        × (lease.owner ≡ site.instance_id)
        × (lease_in r site (renew_lease env site phone s).1.db phone ≡ some lease)
        × (r.pttl (renew_lease env site phone s).1.db (Keys.lease phone)
            ≡ some site.config.lease_ttl_ms)
  renew_lease-renewed h =
      let (lease, held, mine) = renew_reply-renewed site _ (renew_lease-reply h) in
      let (text, there) = get-some_of_decode site _ lease held in
      (
        lease,
        held,
        mine,
        rw (get-renew_lease (Keys.lease phone)) held,
        rw (renew_lease-db h) (laws.pttl-pexpire _ _ text _ there),
      )

  -- Where the lease belongs to another instance, `renewLease` leaves the database as it found it
  -- and never reports "renewed": it reports "lost", or the call fails.
  pub renew_lease-other :
      (lease : Lease)
      → lease_in r site (arrive env s).db phone ≡ some lease
      → lease.owner ≢ site.instance_id
      → ((renew_lease env site phone s).1.db ≡ (arrive env s).db)
        × ((renew_lease env site phone s).0 ≢ ok renewed)
        × (((renew_lease env site phone s).0 ≡ ok lost)
            ⊎ ((renew_lease env site phone s).0 ≡ throw redis_error))
  unfolding renew_lease call
  renew_lease-other lease held h =
      let reply =
        renew_reply-other site (r.get (arrive env s).db (Keys.lease phone)) lease held h in
      (
        ground (arith, reply),
        ground (arith, reply),
        conclude-reply (λ (a : Result RenewResult). (a ≡ ok lost) ⊎ (a ≡ throw redis_error)) env
            (env.delivery s.turn) _ _ (arrive env s) (inl reply) (inr refl),
      )

  -- Unless this instance holds the lease under the given epoch when the script runs, a release
  -- changes nothing and does not report success.
  pub release_lease_fenced :
      (e : ℕ)
      → lease_in r site (arrive env s).db phone ≢ some (owned site e)
      → ((release_lease env site phone e s).1.db ≡ (arrive env s).db)
        × ((release_lease env site phone e s).0 ≢ ok true)
  unfolding release_lease call
  release_lease_fenced e h =
      let refuse =
        λ (p : release_reply site e (r.get (arrive env s).db (Keys.lease phone)) ≡ ok true).
          h (release_reply-released site _ e p) in
      let dry = is_released-false _ refuse in (ground (arith, dry), ground (arith, dry))

  -- A release that arrives while this instance holds the lease under the given epoch deletes the
  -- lease and no other key, and reports success.
  pub release_lease-owned :
      (e : ℕ)
      → env.delivery s.turn ≡ delivered
      → lease_in r site (arrive env s).db phone ≡ some (owned site e)
      → ((release_lease env site phone e s).0 ≡ ok true)
        × ((j : String)
            → r.get (release_lease env site phone e s).1.db j
              ≡ (if Keys.lease phone == j then none else r.get (arrive env s).db j))
  unfolding release_lease call
  release_lease-owned e arrives held =
      let reply = release_reply-owned site (r.get (arrive env s).db (Keys.lease phone)) e held in
      (
        ground (arith, reply),
        λ j. ground (arith, reply, laws.get-del (arrive env s).db (Keys.lease phone) j),
      )

-- ===== src/Coordinator/Explicit.antt =====
-- src/cluster/coordinator.ts: the lease of an explicit operation, from its taking to its unwinding,
-- among concurrent operations on the same phone.
use baileys_api.Prelude.{
  Option, ◌==◌, ◌&&◌, ℕ, suc, String, ◌≡◌, ◌≢◌, false, none, some, eq_refl, eq-false, arith, refl,
  if◌then◌else◌, ap, ◌∙◌, truthy,
}
use baileys_api.Redis.{Redis, IsRedis}
use baileys_api.Json.{decode}
use baileys_api.Exec
use baileys_api.Exec.{
  Env, State, Exec, Error, Result, ok, throw, owned_elsewhere, call, arrive, delivered, ◌>>=◌, ◌>>◌,
  pure,
}
use baileys_api.Exec.Steps.{>>=-inv}
use baileys_api.Cluster.Keys
use baileys_api.Cluster.Site.{Site, IsSite, Lease, worker}
use baileys_api.Cluster.LeaseStore.{get_lease, force_acquire_lease, release_lease}
use baileys_api.Cluster.LeaseStore.Ownership.{
  lease_in, owned, release_lease_fenced, release_lease-owned,
}
use baileys_api.Cluster.LeaseStore.Claims.{force_acquire_lease-taken}
use baileys_api.Cluster.InstanceRegistry.{live_owner_elsewhere, is_instance_alive, is_worker}
use baileys_api.Coordinator.State.{Coordinator, Node, is_epoch}
use baileys_api.Coordinator.{
  acquire_explicit_lease, refuse_owned_elsewhere, abandon_explicit_lease, run_under_explicit_lease,
  forget_epoch, edit, held_epoch, hold, announce,
}

abbrev local_of : {r : Redis} {H : Type 0} → State r (Node H) → Coordinator
local_of s = s.local.coordinator

module _ {r : Redis} {H : Type 0} (laws : IsRedis r) (env : Env r (Node H)) (site : Site)
    (phone : String) (s : State r (Node H)) where
  -- The state in which an abandoned lease is released: the memory of that epoch is gone.
  abbrev pub forgotten : ℕ → State r (Node H)
  forgotten epoch = record s {
    local = record s.local { coordinator = forget_epoch phone epoch s.local.coordinator };
  }

  abandon_explicit_lease-db :
      (epoch : ℕ)
      → ((abandon_explicit_lease env site phone epoch s).1.db
          ≡ (release_lease env site phone epoch (forgotten epoch)).1.db)
        × ((abandon_explicit_lease env site phone epoch s).0 ≡ ok tt)
  unfolding abandon_explicit_lease
  abandon_explicit_lease-db epoch = (ground arith, ground arith)

  release_lease-local :
      (epoch : ℕ) (t : State r (Node H))
      → held_epoch phone (release_lease env site phone epoch t).1.local
        ≡ held_epoch phone (arrive env t).local
  unfolding release_lease call
  release_lease-local epoch t = ground arith

  abandon_explicit_lease-held :
      (epoch : ℕ)
      → held_epoch phone (abandon_explicit_lease env site phone epoch s).1.local
        ≡ held_epoch phone (arrive env (forgotten epoch)).local
  unfolding abandon_explicit_lease
  abandon_explicit_lease-held epoch =
      let released : held_epoch phone (abandon_explicit_lease env site phone epoch s).1.local
          ≡ held_epoch phone (release_lease env site phone epoch (forgotten epoch)).1.local =
        ground arith in
      released ∙ release_lease-local epoch (forgotten epoch)

  -- Giving back a lease whose epoch is not the one in memory leaves the memory alone; and unless
  -- the database holds the lease under that very epoch, it leaves the database alone too, so that
  -- a newer operation on the phone keeps its lease.
  pub abandon_explicit_lease_fenced :
      (epoch : ℕ)
      → is_epoch (held_epoch phone s.local) epoch ≡ false
      → lease_in r site (arrive env s).db phone ≢ some (owned site epoch)
      → ((abandon_explicit_lease env site phone epoch s).1.db ≡ (arrive env s).db)
        × (held_epoch phone (abandon_explicit_lease env site phone epoch s).1.local
            ≡ held_epoch phone (arrive env s).local)
  abandon_explicit_lease_fenced epoch newer kept =
      let same : forgotten epoch ≡ s = rw newer in
      let (released, _) = release_lease_fenced laws env site phone s epoch kept in
      (
        (abandon_explicit_lease-db epoch).0 ∙ rw same released,
        abandon_explicit_lease-held epoch
            ∙ ap (λ (u : State r (Node H)). held_epoch phone (arrive env u).local) same,
      )

module _ {r : Redis} {H : Type 0} (laws : IsRedis r) (env : Env r (Node H)) (site : Site)
    (phone : String) (s t : State r (Node H)) where
  -- What is remembered of a phone once this phone's lease under this epoch is given back: nothing,
  -- where that lease is the one in memory, and else what was remembered.
  abbrev pub remembered : ℕ → String → Option ℕ → Option ℕ
  remembered epoch q before =
      if phone == q && is_epoch (held_epoch phone t.local) epoch then none else before

  forgotten_lem :
      (epoch : ℕ) (q : String)
      → let c = forget_epoch phone epoch t.local.coordinator in
        (c.held_lease_epochs q ≡ remembered epoch q (held_epoch q t.local))
        × (c.claimed_at q ≡ remembered epoch q (t.local.coordinator.claimed_at q))
  forgotten_lem epoch q = ground arith

  abandon_explicit_lease-memory :
      (epoch : ℕ)
      → let c = (arrive env (forgotten laws env site phone t epoch)).local.coordinator in
        let c' = (abandon_explicit_lease env site phone epoch t).1.local.coordinator in
        (c'.held_lease_epochs ≡ c.held_lease_epochs) × (c'.claimed_at ≡ c.claimed_at)
  unfolding abandon_explicit_lease release_lease call
  abandon_explicit_lease-memory epoch = (ground arith, ground arith)

  -- Work under an explicit lease that fails is answered with its own error, and the lease is given
  -- back: if the release arrives while the lease is there, and nothing else touches the memory of
  -- the coordinator meanwhile, then the phone is unleased, and of the epochs and the times of the
  -- claims in memory those of this phone are gone, unless the epoch in memory is another one; all
  -- else in them is as the work left it.
  pub run_under_explicit_lease-unwinds :
      {T : Type 0} (epoch : ℕ) (work : Exec r (Node H) T) (error : Error)
      → work s ≡ (throw error, t)
      → env.delivery t.turn ≡ delivered
      → ((u : State r (Node H))
          → u.db ≡ t.db
          → u.turn ≡ t.turn
          → (lease_in r site (arrive env u).db phone ≡ some (owned site epoch))
            × ((arrive env u).local.coordinator ≡ u.local.coordinator))
      → let q = (run_under_explicit_lease env site phone epoch work s).1 in
        ((run_under_explicit_lease env site phone epoch work s).0 ≡ throw error)
        × (r.get q.db (Keys.lease phone) ≡ none)
        × ((other : String)
            → (held_epoch other q.local ≡ remembered epoch other (held_epoch other t.local))
              × (q.local.coordinator.claimed_at other
                  ≡ remembered epoch other (t.local.coordinator.claimed_at other)))
  unfolding run_under_explicit_lease
  run_under_explicit_lease-unwinds epoch work error fails arrives ours =
      let gone_from = forgotten laws env site phone t epoch in
      let (there, calm) = ours gone_from refl refl in
      let (done, gone) = release_lease-owned laws env site phone gone_from epoch arrives there in
      let (db, answer) = abandon_explicit_lease-db laws env site phone t epoch in
      let (held, claimed) = abandon_explicit_lease-memory epoch in
      rw (fails, answer)
        (
          refl,
          ap (λ (d : r.Db). r.get d (Keys.lease phone)) db ∙ gone (Keys.lease phone) ∙ rw eq_refl,
          λ other. (
            ap (λ (f : String → Option ℕ). f other) held
                ∙ ap (λ (c : Coordinator). c.held_lease_epochs other) calm
                ∙ (forgotten_lem epoch other).0,
            ap (λ (f : String → Option ℕ). f other) claimed
                ∙ ap (λ (c : Coordinator). c.claimed_at other) calm
                ∙ (forgotten_lem epoch other).1,
          ),
        )

module _ {r : Redis} {H : Type 0} (laws : IsRedis r) (env : Env r (Node H)) (site : Site)
    (sound : IsSite site) (phone : String) (s : State r (Node H)) where
  get_lease_lem :
      (lease : Lease)
      → env.delivery s.turn ≡ delivered
      → decode site.lease_json (truthy (r.get (arrive env s).db (Keys.lease phone))) ≡ some lease
      → get_lease env site phone s ≡ (ok (some lease), arrive env s)
  unfolding get_lease Exec.get call
  get_lease_lem lease arrives held = ground arith

  live_owner_lem :
      (lease : Lease)
      → env.delivery (suc s.turn) ≡ delivered
      → lease.owner ≢ site.instance_id
      → r.get (arrive env (arrive env s)).db (Keys.instance_key lease.owner) ≢ none
      → live_owner_elsewhere env site (some lease) (arrive env s)
        ≡ (ok (some lease.owner), arrive env (arrive env s))
  unfolding live_owner_elsewhere is_instance_alive Exec.exists call
  live_owner_lem lease arrives other alive = ground (arith, eq-false other)

  refuse_owned_elsewhere_lem :
      (lease : Lease)
      → env.delivery s.turn ≡ delivered
      → env.delivery (suc s.turn) ≡ delivered
      → decode site.lease_json (truthy (r.get (arrive env s).db (Keys.lease phone))) ≡ some lease
      → lease.owner ≢ site.instance_id
      → r.get (arrive env (arrive env s)).db (Keys.instance_key lease.owner) ≢ none
      → refuse_owned_elsewhere env site phone s
        ≡ (throw (owned_elsewhere lease.owner), arrive env (arrive env s))
  unfolding refuse_owned_elsewhere
  refuse_owned_elsewhere_lem lease first second held other alive =
      rw (get_lease_lem lease first held, live_owner_lem lease second other alive)

  -- In the worker role an explicit operation does not take the phone from a live instance: if the
  -- reads of the lease and of the owner's registration arrive and find another instance that is
  -- alive, it fails with that owner's name, and these two reads are all that it does.
  pub acquire_explicit_lease-refused :
      (lease : Lease)
      → site.config.role ≡ worker
      → env.delivery s.turn ≡ delivered
      → env.delivery (suc s.turn) ≡ delivered
      → decode site.lease_json (truthy (r.get (arrive env s).db (Keys.lease phone))) ≡ some lease
      → lease.owner ≢ site.instance_id
      → r.get (arrive env (arrive env s)).db (Keys.instance_key lease.owner) ≢ none
      → acquire_explicit_lease env site phone s
        ≡ (throw (owned_elsewhere lease.owner), arrive env (arrive env s))
  unfolding acquire_explicit_lease
  acquire_explicit_lease-refused lease role first second held other alive =
      rw (ap is_worker role, refuse_owned_elsewhere_lem lease first second held other alive)

  take_over : Exec r (Node H) ℕ
  take_over = do
    acquired ← force_acquire_lease env site phone
    now ← Exec.performance_now env
    edit (hold phone acquired.epoch now)
    announce phone
    pure acquired.epoch

  abbrev IsOwner : ℕ → State r (Node H) → Type 0
  IsOwner epoch s' =
      (lease_in r site s'.db phone ≡ some (owned site epoch))
      × (r.pttl s'.db (Keys.lease phone) ≡ some site.config.lease_ttl_ms)
      × (held_epoch phone s'.local ≡ some epoch)
      × (s'.local.coordinator.claimed_at phone ≡ some (env.performance_now s'.turn))

  returned_owned :
      {lease : Lease} {e epoch : ℕ}
      → lease ≡ owned site e
      → ok lease.epoch ≡ ok epoch
      → (some lease ≡ some (owned site epoch)) × (some lease.epoch ≡ some epoch)
  returned_owned is_owned same = (ground arith, ground arith)

  take_over_lem :
      (t : State r (Node H)) {epoch : ℕ}
      → (take_over t).0 ≡ ok epoch
      → IsOwner epoch (take_over t).1
  unfolding take_over
  take_over_lem t {epoch} h =
      let (lease, taken, rest, step) = >>=-inv (force_acquire_lease env site phone) _ t h in
      let (is_owned, stored, expiry) =
        force_acquire_lease-taken laws env site sound phone t taken in
      let (lease_owned, epoch_held) = returned_owned {lease = lease} is_owned rest in
      rw step (stored ∙ lease_owned, expiry, rw eq_refl epoch_held, rw eq_refl refl)

  -- An explicit operation that gets its lease owns the phone: the database has the lease, for the
  -- configured time, and the memory has its epoch and the time of the claim.
  pub acquire_explicit_lease-acquired :
      {epoch : ℕ}
      → (acquire_explicit_lease env site phone s).0 ≡ ok epoch
      → let s' = (acquire_explicit_lease env site phone s).1 in
        (lease_in r site s'.db phone ≡ some (owned site epoch))
        × (r.pttl s'.db (Keys.lease phone) ≡ some site.config.lease_ttl_ms)
        × (held_epoch phone s'.local ≡ some epoch)
        × (s'.local.coordinator.claimed_at phone ≡ some (env.performance_now s'.turn))
  unfolding acquire_explicit_lease take_over
  acquire_explicit_lease-acquired {epoch} h =
      let guard : Exec r (Node H) (Unit {0}) =
        if is_worker site.config.role then refuse_owned_elsewhere env site phone else pure tt in
      let (u, passed, rest, step) = >>=-inv guard (λ u. take_over) s h in
      rw step (take_over_lem (guard s).1 rest)

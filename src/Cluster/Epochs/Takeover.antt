-- ===== src/Cluster/Epochs/Takeover.antt =====
-- src/cluster/leaseStore.ts: forceAcquireLease, and the steps of the relation.
use baileys_api.Prelude.{◌<◌, String, ◌≡◌, some, ◌∷◌, arith, sym}
use baileys_api.Redis.{Redis}
use baileys_api.Exec
use baileys_api.Exec.{Env, State, ok, throw, call, arrive}
use baileys_api.Cluster.Keys
use baileys_api.Cluster.Site.{Site, Lease}
use baileys_api.Cluster.LeaseStore.{force_acquire_lease}
use baileys_api.Cluster.LeaseStore.Ownership.{owned}
use baileys_api.Cluster.Epochs.{Cluster, Step, draw, grant, erase, occurrences}

module _ {r : Redis} {L : Type 0} (env : Env r L) (site : Site) (phone : String)
    (s : State r L) where
  -- The state between the two commands.
  abbrev pub counted : State r L
  counted = (Exec.incr env (Keys.lease_epoch phone) s).1

  takeover_db :
      {lease : Lease}
      → (force_acquire_lease env site phone s).0 ≡ ok lease
      → (counted.db ≡ r.incr (arrive env s).db (Keys.lease_epoch phone))
        × (lease.epoch ≡ r.count counted.db (Keys.lease_epoch phone))
        × ((force_acquire_lease env site phone s).1.db
            ≡ r.set
                (arrive env counted).db
                (Keys.lease phone)
                (site.lease_json.stringify (owned site lease.epoch))
                (some site.config.lease_ttl_ms))
  unfolding force_acquire_lease Exec.incr Exec.set call
  takeover_db {lease} h = (ground arith, ground arith, ground arith)

  -- A takeover that returns has made two steps, whatever ran before each: from any cluster with the
  -- database that its INCR met it drew the epoch of its lease, and from any cluster with the
  -- database that its SET met, where that epoch is still drawn, it granted a lease under it.
  pub force_acquire_lease-Step :
      {lease : Lease} (before between : Cluster r)
      → (force_acquire_lease env site phone s).0 ≡ ok lease
      → before.db ≡ (arrive env s).db
      → between.db ≡ (arrive env counted).db
      → 0 < occurrences lease.epoch between.drawn
      → Step phone before
          (record { db = counted.db; drawn = lease.epoch ∷ before.drawn; granted = before.granted })
        × Step phone between (record {
          db = (force_acquire_lease env site phone s).1.db;
          drawn = erase lease.epoch between.drawn;
          granted = lease.epoch ∷ between.granted;
        })
  force_acquire_lease-Step {lease} before between h met_first met_second drawn =
      let (bumped, epoch, written) = takeover_db {lease = lease} h in
      (
        rw (epoch, bumped, sym met_first) draw,
        rw (written, sym met_second) (grant site lease.epoch drawn),
      )

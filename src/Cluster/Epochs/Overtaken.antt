-- ===== src/Cluster/Epochs/Overtaken.antt =====
-- src/cluster/leaseStore.ts: forceAcquireLease with other work between its two commands.
use baileys_api.Prelude.{ℕ, suc, ◌<◌, String, ◌≡◌, some, eqb, arith, if◌then◌else◌, eq_refl}
use baileys_api.Redis.{Redis, IsRedis}
use baileys_api.Exec
use baileys_api.Exec.{Env, State, delivered, call, arrive}
use baileys_api.Cluster.Keys
use baileys_api.Cluster.Site.{Site, IsSite}
use baileys_api.Cluster.LeaseStore.{force_acquire_lease}
use baileys_api.Cluster.LeaseStore.Ownership.{lease_in, owned}

module _ {r : Redis} where
  -- Nothing else runs, and every call arrives.
  abbrev pub quiet : Env r (Unit {0})
  quiet = record {
    meanwhile = λ n t. t;
    delivery = λ n. delivered;
    date_now = λ n. 0;
    performance_now = λ n. 0;
  }

  -- Before call `at`, the whole of `task` runs; nothing else does.
  abbrev pub interrupted : ℕ → (State r (Unit {0}) → State r (Unit {0})) → Env r (Unit {0})
  interrupted at task = record {
    meanwhile = λ n t. if eqb n at then task t else t;
    delivery = λ n. delivered;
    date_now = λ n. 0;
    performance_now = λ n. 0;
  }

  -- If another instance takes the phone over between the INCR and the SET of a takeover, the SET
  -- still goes through: the lease of the other instance, under epoch n + 2 for a counter that
  -- stood at n, is replaced by one under epoch n + 1, if the configured times are positive. Epochs
  -- do not increase across these two owners.
  pub takeovers_regress :
      (laws : IsRedis r) (mine other : Site) (phone : String) (s : State r (Unit {0}))
      → IsSite mine
      → IsSite other
      → 0 < mine.config.lease_ttl_ms
      → 0 < other.config.lease_ttl_ms
      → let n : ℕ = r.count s.db (Keys.lease_epoch phone) in
        let takeover = λ (t : State r (Unit {0})). (force_acquire_lease quiet other phone t).1 in
        let env = interrupted (suc s.turn) takeover in
        (lease_in r other (arrive env (Exec.incr env (Keys.lease_epoch phone) s).1).db phone
          ≡ some (owned other (suc (suc n))))
        × (lease_in r mine (force_acquire_lease env mine phone s).1.db phone
            ≡ some (owned mine (suc n)))
  unfolding force_acquire_lease Exec.incr Exec.set call
  takeovers_regress laws mine other phone s my_json its_json live lives =
      let k = Keys.lease_epoch phone in
      let l = Keys.lease phone in
      let one = r.incr s.db k in
      let two = r.incr one k in
      let its = owned other (r.count two k) in
      let between = r.set two l (other.lease_json.stringify its) (some other.config.lease_ttl_ms) in
      let my = owned mine (r.count one k) in
      let facts : (r.count one k ≡ suc (r.count s.db k))
          × (r.count two k ≡ suc (suc (r.count s.db k))) =
        (
          ground (arith, laws.count-incr s.db k k, eq_refl k),
          ground (arith, laws.count-incr s.db k k, laws.count-incr one k k, eq_refl k),
        ) in
      (
        ground (
          arith,
          facts,
          its_json.lease_round its,
          laws.get-set two l l (other.lease_json.stringify its) (some other.config.lease_ttl_ms),
          eq_refl l,
        ),
        ground (
          arith,
          facts,
          my_json.lease_round my,
          laws.get-set between l l (mine.lease_json.stringify my) (some mine.config.lease_ttl_ms),
          eq_refl l,
        ),
      )

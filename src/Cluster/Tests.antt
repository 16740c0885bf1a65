-- ===== src/Cluster/Tests.antt =====
-- The theorems on leases, strikes and the registry at concrete inputs: two instances, a database in
-- memory, and one phone.
pub mod Stores
use baileys_api.Prelude.{
  ℕ, suc, ◌⊎◌, List, [], ◌∷◌, arith, ◌≤◌, ◌<◌, ◌+◌, ◌*◌, min, ltb, String, ◌≡◌, ◌≢◌, Bool, true,
  false, Option, none, some, refl, if◌then◌else◌, ◌==◌, eq_refl,
}
use baileys_api.Redis.{Redis, IsRedis}
use baileys_api.Redis.Memory.{Memory, memory, memory-IsRedis, empty}
use baileys_api.Sample.{site, site-IsSite, texts_differ, not_none}
use baileys_api.Exec
use baileys_api.Exec.{Env, State, ok, throw, redis_error, quiet, call, arrive}
use baileys_api.Cluster.Keys
use baileys_api.Cluster.Site.{Site, Lease, QuarantineState, SendStallState}
use baileys_api.Cluster.LeaseStore.{
  RenewResult, renewed, lost, renew_lease, release_lease, acquire_lease, force_acquire_lease,
}
use baileys_api.Cluster.LeaseStore.Ownership.{
  lease_in, owned, renew_lease-renewed, renew_lease-other, release_lease_fenced,
  release_lease-owned,
}
use baileys_api.Cluster.LeaseStore.Claims.{
  counted, acquire_lease-acquired, acquire_lease-taken, force_acquire_lease-taken,
}

abbrev pub phone : String
phone = "5511"

abbrev pub env : Env memory (Unit {0})
env = quiet 1000

abbrev pub at : Memory → State memory (Unit {0})
at m = record { db = m; local = tt; turn = 0 }

-- Instance "a" holds the phone under epoch 3, the last one counted.
abbrev pub leased : Memory
leased =
    memory.set (record empty { counter = λ k. 3 }) (Keys.lease phone)
      ((site "a").lease_json.stringify (owned (site "a") 3)) (some 30000)

held_by_a : (s : String) → lease_in memory (site s) leased phone ≡ some (owned (site "a") 3)
unfolding Keys.lease
held_by_a s = refl

renewed_by_a : (renew_lease env (site "a") phone (at leased)).0 ≡ ok renewed
unfolding renew_lease call Keys.lease
renewed_by_a = refl

renew_lease-renewed_example :
    (lease : Lease) × (lease_in memory (site "a") leased phone ≡ some lease)
    × (lease.owner ≡ "a")
    × (lease_in memory (site "a") (renew_lease env (site "a") phone (at leased)).1.db phone
        ≡ some lease)
    × (memory.pttl (renew_lease env (site "a") phone (at leased)).1.db (Keys.lease phone)
        ≡ some 30000)
renew_lease-renewed_example =
    renew_lease-renewed memory-IsRedis env (site "a") phone (at leased) renewed_by_a

a_is_not_b : (site "a").instance_id ≢ (site "b").instance_id
a_is_not_b = texts_differ refl

other_epoch : lease_in memory (site "a") leased phone ≢ some (owned (site "a") 2)
other_epoch e = ground (arith, held_by_a "a")

release_lease_fenced_example :
    ((release_lease env (site "a") phone 2 (at leased)).1.db ≡ leased)
    × ((release_lease env (site "a") phone 2 (at leased)).0 ≢ ok true)
release_lease_fenced_example =
    release_lease_fenced memory-IsRedis env (site "a") phone (at leased) 2 other_epoch

claimed : (acquire_lease env (site "b") phone (at empty)).0 ≡ ok (some (owned (site "b") 1))
unfolding acquire_lease Exec.incr Exec.set_nx call Keys.lease Keys.lease_epoch
claimed = refl

not_claimed : (acquire_lease env (site "b") phone (at leased)).0 ≡ ok none
unfolding acquire_lease Exec.incr Exec.set_nx call Keys.lease Keys.lease_epoch
not_claimed = refl

taken_over : (force_acquire_lease env (site "b") phone (at leased)).0 ≡ ok (owned (site "b") 4)
unfolding force_acquire_lease Exec.incr Exec.set call Keys.lease Keys.lease_epoch
taken_over = refl

-- ===== src/Coordinator/Tests.antt =====
-- The theorems on explicit operations at concrete inputs: two workers and one phone.
pub mod Cycles
use baileys_api.Prelude.{truthy, ℕ, arith, String, ◌≡◌, ◌≢◌, true, false, none, some, [], refl}
use baileys_api.Json.{decode}
use baileys_api.Redis.Memory.{Memory, memory, memory-IsRedis, empty}
use baileys_api.Sample.{site, site-IsSite, texts_differ, not_none}
use baileys_api.Exec
use baileys_api.Exec.{
  Env, Exec, Error, State, Result, ok, throw, owned_elsewhere, failure, quiet, call, arrive, raise,
}
use baileys_api.Cluster.Keys
use baileys_api.Cluster.Site.{Site}
use baileys_api.Cluster.LeaseStore.{get_lease, force_acquire_lease}
use baileys_api.Cluster.LeaseStore.Ownership.{lease_in, owned}
use baileys_api.Cluster.InstanceRegistry.{live_owner_elsewhere}
use baileys_api.Coordinator.State.{Coordinator, Node, update}
use baileys_api.Coordinator.{
  held_epoch, refuse_owned_elsewhere, acquire_explicit_lease, abandon_explicit_lease,
  run_under_explicit_lease,
}
use baileys_api.Coordinator.Explicit.{
  remembered, abandon_explicit_lease_fenced, run_under_explicit_lease-unwinds,
  acquire_explicit_lease-refused, acquire_explicit_lease-acquired,
}

abbrev pub a : Site
a = site "a"

abbrev pub b : Site
b = site "b"

abbrev pub phone : String
phone = "5511"

abbrev env : Env memory (Node (Unit {0}))
env = quiet 1000

-- A coordinator that holds this phone under epoch 4.
abbrev pub holding : Coordinator
holding = record {
  running = true;
  draining = false;
  redis_degraded = false;
  first_seen_unleased_at = λ _. none;
  claimed_at = λ _. none;
  last_claim_at = 0;
  last_rebalance_release_at = none;
  held_lease_epochs = update (λ _. none) phone (some 4);
  announced = [];
}

abbrev at : Memory → State memory (Node (Unit {0}))
at m = record { db = m; local = record { coordinator = holding; handler = tt }; turn = 0 }

-- "a" holds the phone under epoch 4, and is registered as alive.
abbrev pub leased : Memory
leased =
    memory.set
      (memory.set (record empty { counter = λ k. 4 }) (Keys.lease phone)
        (a.lease_json.stringify (owned a 4)) (some 30000))
      (Keys.instance_key "a") "{}" (some 15000)

leased_by_a : (s : String) → lease_in memory (site s) leased phone ≡ some (owned a 4)
unfolding Keys.lease Keys.instance_key
leased_by_a s = refl

newer_epoch : lease_in memory a leased phone ≢ some (owned a 3)
newer_epoch e = ground (arith, leased_by_a "a")

work : Exec memory (Node (Unit {0})) ℕ
work = raise (failure "connect failed")

fails : work (at leased) ≡ (throw (failure "connect failed"), at leased)
unfolding work
fails = refl

run_under_explicit_lease-unwinds_example :
    let q = (run_under_explicit_lease env a phone 4 work (at leased)).1 in
    ((run_under_explicit_lease env a phone 4 work (at leased)).0 ≡ throw (failure "connect failed"))
    × (memory.get q.db (Keys.lease phone) ≡ none)
    × ((other : String)
        → (held_epoch other q.local
            ≡ remembered memory-IsRedis env a phone
                (at leased)
                (at leased)
                4
                other
                (held_epoch other (at leased).local))
          × (q.local.coordinator.claimed_at other
              ≡ remembered memory-IsRedis env a phone
                  (at leased)
                  (at leased)
                  4
                  other
                  ((at leased).local.coordinator.claimed_at other)))
run_under_explicit_lease-unwinds_example =
    run_under_explicit_lease-unwinds memory-IsRedis env a phone (at leased) (at leased) 4 work
      (failure "connect failed") fails refl (λ u same turn. (rw same (leased_by_a "a"), refl))

a_is_not_b : a.instance_id ≢ b.instance_id
a_is_not_b = texts_differ refl

read_by_b : decode b.lease_json (truthy (memory.get leased (Keys.lease phone))) ≡ some (owned a 4)
unfolding Keys.lease Keys.instance_key
read_by_b = refl

alive : memory.get leased (Keys.instance_key "a") ≢ none
unfolding Keys.lease Keys.instance_key
alive = not_none

acquired : (acquire_explicit_lease env a phone (at leased)).0 ≡ ok 5
unfolding acquire_explicit_lease refuse_owned_elsewhere get_lease live_owner_elsewhere
    force_acquire_lease Exec.get Exec.incr Exec.set call Keys.lease Keys.lease_epoch
    Keys.instance_key
acquired = refl

-- ===== src/Cluster/Tests/Stores.antt =====
-- The theorems on epochs, strikes and routing at concrete inputs.
use baileys_api.Prelude.{suc, [], ◌∷◌, arith, ◌≤◌, ◌≡◌, ◌≢◌, none, some, refl}
use baileys_api.Redis.Memory.{Memory, memory, memory-IsRedis, empty}
use baileys_api.Sample.{site, site-IsSite, texts_differ}
use baileys_api.Exec
use baileys_api.Exec.{Env, State, ok, throw, call, arrive}
use baileys_api.Cluster.Keys
use baileys_api.Cluster.Site.{Site, QuarantineState, SendStallState}
use baileys_api.Cluster.LeaseStore.{force_acquire_lease, get_lease}
use baileys_api.Cluster.LeaseStore.Ownership.{lease_in, owned}
use baileys_api.Cluster.Epochs.{Cluster, Step, draw, grant, Reach, here, next, occurrences}
use baileys_api.Cluster.Epochs.Unique.{Reach-single}
use baileys_api.Cluster.Epochs.Takeover.{counted, force_acquire_lease-Step}
use baileys_api.Cluster.Epochs.Overtaken.{quiet, interrupted, takeovers_regress}
use baileys_api.Cluster.Backoff.{quarantine_backoff_ms, send_stall_backoff_ms}
use baileys_api.Cluster.QuarantineStore.{record_strike}
use baileys_api.Cluster.SendStallStore.{Recorded, record_restart}
use baileys_api.Cluster.SendStallStore.Strikes.{IsStruck, record_restart-IsWritten}
use baileys_api.Cluster.InstanceRegistry.{resolve_misdirected_request}
use baileys_api.Cluster.Tests.{phone, env, at, leased}

abbrev a : Site
a = site "a"

abbrev b : Site
b = site "b"

-- Both instances draw an epoch, and the second one writes its lease first.
abbrev twice : Memory
twice = memory.incr (memory.incr empty (Keys.lease_epoch phone)) (Keys.lease_epoch phone)

abbrev raced : Cluster memory
raced = record {
  db =
      memory.set
        (memory.set twice (Keys.lease phone) (b.lease_json.stringify (owned b 2)) (some 30000))
        (Keys.lease phone) (a.lease_json.stringify (owned a 1)) (some 30000);
  drawn = [];
  granted = 1 ∷ 2 ∷ [];
}

race : Reach {r = memory} phone empty raced
unfolding Keys.lease_epoch
race = next (next (next (next here draw) draw) (grant b 2 (omega arith))) (grant a 1 (omega arith))

Reach-single_example : occurrences 1 (1 ∷ 2 ∷ []) ≤ 1
Reach-single_example = Reach-single memory-IsRedis phone race 1

takeovers_regress_example :
    (lease_in memory b
        (arrive
          (interrupted (suc 0) (λ t. (force_acquire_lease quiet b phone t).1))
          (Exec.incr
            (interrupted (suc 0) (λ t. (force_acquire_lease quiet b phone t).1))
            (Keys.lease_epoch phone)
            (at leased)).1).db
        phone
      ≡ some (owned b 5))
    × (lease_in memory a
          (force_acquire_lease
            (interrupted (suc 0) (λ t. (force_acquire_lease quiet b phone t).1))
            a
            phone
            (at leased)).1.db
          phone
        ≡ some (owned a 4))
takeovers_regress_example =
    takeovers_regress memory-IsRedis a b phone (at leased) (site-IsSite "a") (site-IsSite "b")
      (omega arith) (omega arith)

first_strike : QuarantineState
first_strike = record { strikes = 1; next_retry_at = 61000 }

struck : (record_strike env a phone (at empty)).0 ≡ ok (some first_strike)
unfolding first_strike record_strike Exec.get Exec.set call Keys.quarantine quarantine_backoff_ms
struck = refl

first_restart : SendStallState
first_restart = record { restarts = 1; next_restart_allowed_at = 301000 }

first_record : Recorded
first_record = record {
  state = first_restart;
  previous = none;
  previous_ttl_ms = none;
  wrote = a.send_stall_json.stringify first_restart;
}

-- The key held the entry.
stalled : Memory
stalled =
    memory.set empty (Keys.send_stall phone) (a.send_stall_json.stringify first_restart)
      (some 86400000)

second_restart : SendStallState
second_restart = record { restarts = 2; next_restart_allowed_at = 601000 }

second_record : Recorded
unfolding second_restart first_restart
second_record = record {
  state = second_restart;
  previous = some first_restart;
  previous_ttl_ms = some 86400000;
  wrote = a.send_stall_json.stringify second_restart;
}

restarted : (record_restart env a phone (at stalled)).0 ≡ ok second_record
unfolding stalled second_record record_restart Exec.get Exec.pttl call Keys.send_stall
    send_stall_backoff_ms
restarted = refl

record_restart-IsWritten_example :
    IsStruck env a
      (Keys.send_stall phone)
      3
      second_record
      (at stalled)
      (record_restart env a phone (at stalled)).1
record_restart-IsWritten_example =
    record_restart-IsWritten memory-IsRedis env a (site-IsSite "a") phone (at stalled)
      {rec = second_record} restarted

moved : memory.get stalled (Keys.send_stall phone) ≢ some "another"
unfolding stalled first_restart Keys.send_stall
moved e =
    ground
      (arith, texts_differ {s = a.send_stall_json.stringify first_restart} {t = "another"} refl)

stall_stands :
    memory.get stalled (Keys.send_stall phone) ≡ some (a.send_stall_json.stringify first_restart)
unfolding stalled Keys.send_stall
stall_stands = refl

-- Instance "a" is registered as alive, and holds the phone.
alive : Memory
alive = memory.set leased (Keys.instance_key "a") "{}" (some 15000)

misdirected : (resolve_misdirected_request env b phone (at alive)).0 ≡ ok (some "a")
unfolding alive resolve_misdirected_request get_lease Exec.get Exec.exists call Keys.lease
    Keys.instance_key
misdirected = refl

taken_over : (force_acquire_lease env b phone (at leased)).0 ≡ ok (owned b 4)
unfolding force_acquire_lease Exec.incr Exec.set call Keys.lease Keys.lease_epoch
taken_over = refl

abbrev before : Cluster memory
before = record { db = leased; drawn = []; granted = 3 ∷ [] }

abbrev between : Cluster memory
between = record { db = (counted env b phone (at leased)).db; drawn = 4 ∷ []; granted = 3 ∷ [] }

force_acquire_lease-Step_example :
    Step phone before (record { db = between.db; drawn = 4 ∷ []; granted = 3 ∷ [] })
    × Step phone between (record {
      db = (force_acquire_lease env b phone (at leased)).1.db;
      drawn = [];
      granted = 4 ∷ 3 ∷ [];
    })
force_acquire_lease-Step_example =
    force_acquire_lease-Step env b phone (at leased) {lease = owned b 4} before between taken_over
      refl refl (omega arith)

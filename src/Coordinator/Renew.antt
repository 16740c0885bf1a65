-- ===== src/Coordinator/Renew.antt =====
-- src/cluster/coordinator.ts: the heartbeat, the renew cycle and the shutdown.
pub mod Outage
use baileys_api.Prelude.{
  ℕ, suc, String, Bool, true, false, Option, none, some, List, [], ◌∷◌, ltb, if◌then◌else◌, length,
}
use baileys_api.Redis.{Redis}
use baileys_api.Exec
use baileys_api.Exec.{Env, Exec, Result, ok, throw, pure, catch, settle, ◌>>=◌, ◌>>◌}
use baileys_api.Cluster.Site.{Site, Lease}
use baileys_api.Cluster.LeaseStore.{RenewResult, renewed, lost, missing, acquire_lease, renew_lease}
use baileys_api.Cluster.InstanceRegistry.{heartbeat, deregister}
use baileys_api.Coordinator.State.{Coordinator, Node, Activity, Handler, update}
use baileys_api.Coordinator.{edit, announce, forget, ignore, release_held_lease}

abbrev pub set_degraded : Bool → Coordinator → Coordinator
set_degraded b c = record c { redis_degraded = b }

abbrev pub set_epoch : String → ℕ → Coordinator → Coordinator
set_epoch phone epoch c = record c {
  held_lease_epochs = update c.held_lease_epochs phone (some epoch);
}

abbrev pub last_traffic : Option Activity → Option ℕ
last_traffic none = none
last_traffic (some activity) = activity.last_traffic_at

-- `a - b` of two times is negative, where `none` is -Infinity.
abbrev pub earlier : Option ℕ → Option ℕ → Bool
earlier none none = false
earlier none (some b) = true
earlier (some a) none = false
earlier (some a) (some b) = ltb a b

module _ {A : Type 0} (before : A → A → Bool) where
  abbrev pub insert : A → List A → List A
  insert x [] = x ∷ []
  insert x (y ∷ l) = if before y x then y ∷ insert x l else x ∷ y ∷ l

  -- Array.prototype.sort, which is stable.
  abbrev pub sort : List A → List A
  sort [] = []
  sort (x ∷ l) = insert x (sort l)

module _ {r : Redis} {H : Type 0} (env : Env r (Node H)) (site : Site) (handler : Handler r H) where
  abbrev pub size : Node H → ℕ
  size n = length (handler.active_phone_numbers n.handler)

  unfoldable pub run_heartbeat : Exec r (Node H) (Unit {0})
  run_heartbeat = do
    count ← Exec.gets size
    draining ← Exec.gets (λ n. n.coordinator.draining)
    catch (heartbeat env site count draining) (λ e. pure tt)

  -- "lease is owned elsewhere, discarding local socket"
  unfoldable pub yield_phone : String → Exec r (Node H) (Unit {0})
  yield_phone phone = do edit (forget phone); ignore (handler.discard_connection phone)

  unfoldable pub reassert : String → Lease → Exec r (Node H) (Unit {0})
  reassert phone lease = do
    edit (set_epoch phone lease.epoch)
    ignore (handler.update_lease_epoch phone lease.epoch)
    edit (set_degraded false)

  unfoldable pub after_renewal : String → RenewResult → Exec r (Node H) (Unit {0})
  unfolding yield_phone reassert
  after_renewal phone renewed = edit (set_degraded false)
  after_renewal phone lost = yield_phone phone
  after_renewal phone missing = do
    acquired ← acquire_lease env site phone
    elim acquired [ none ↦ yield_phone phone | some lease ↦ reassert phone lease ]

  unfoldable pub renew_phone : String → Exec r (Node H) (Unit {0})
  unfolding after_renewal
  renew_phone phone = do result ← renew_lease env site phone; after_renewal phone result

  -- The loop, which an error ends.
  unfoldable pub renew_phones : List String → Exec r (Node H) (Unit {0})
  unfolding renew_phone
  renew_phones [] = pure tt
  renew_phones (phone ∷ phones) =
      settle (renew_phone phone)
        (λ res. elim res [ ok u ↦ renew_phones phones | throw e ↦ edit (set_degraded true) ])

  unfoldable pub probe : Exec r (Node H) (Unit {0})
  probe = do
    degraded ← Exec.gets (λ n. n.coordinator.redis_degraded)
    if degraded then catch (Exec.ping env >> edit (set_degraded false)) (λ e. pure tt) else pure tt

  unfoldable pub renew_or_probe : List String → Exec r (Node H) (Unit {0})
  unfolding probe renew_phones
  renew_or_probe [] = probe
  renew_or_probe (phone ∷ phones) = renew_phones (phone ∷ phones)

  unfoldable pub run_renew_cycle : Exec r (Node H) (Unit {0})
  unfolding renew_or_probe
  run_renew_cycle = do
    phones ← Exec.gets (λ n. handler.active_phone_numbers n.handler)
    renew_or_probe phones

  abbrev pub by_traffic : H → String → String → Bool
  by_traffic h a b =
      earlier (last_traffic (handler.connection_activity h a))
        (last_traffic (handler.connection_activity h b))

  unfoldable pub hand_off : String → Exec r (Node H) (Unit {0})
  hand_off phone = do
    handler.discard_connection phone
    release_held_lease env site phone
    announce phone

  unfoldable pub hand_off_all : List String → Exec r (Node H) (Unit {0})
  unfolding hand_off
  hand_off_all [] = pure tt
  hand_off_all (phone ∷ phones) = ignore (hand_off phone) >> hand_off_all phones

  -- Without the timers that are cleared, and the wait for webhooks in flight, which only sleeps.
  unfoldable pub leave : Exec r (Node H) (Unit {0})
  unfolding run_heartbeat hand_off_all
  leave = do
    edit (λ c. record c { draining = true; running = false })
    run_heartbeat
    phones ← Exec.gets (λ n. sort (by_traffic n.handler) (handler.active_phone_numbers n.handler))
    hand_off_all phones
    ignore (deregister env site)

  unfoldable pub shutdown : Exec r (Node H) (Unit {0})
  unfolding leave
  shutdown = do
    draining ← Exec.gets (λ n. n.coordinator.draining)
    if draining then pure tt else leave

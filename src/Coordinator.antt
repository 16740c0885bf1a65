-- ===== src/Coordinator.antt =====
-- src/cluster/coordinator.ts: leases taken by explicit intent, and given back.
pub mod State
pub mod Operations
pub mod Explicit
pub mod Renew
pub mod Claim
pub mod Rebalance
pub mod Tests
use baileys_api.Prelude.{
  ℕ, String, Bool, true, false, Option, none, some, List, [], ◌∷◌, ◌==◌, ◌&&◌, not, if◌then◌else◌,
}
use baileys_api.Redis.{Redis}
use baileys_api.Exec
use baileys_api.Exec.{
  Env, Exec, Error, Result, ok, throw, owned_elsewhere, not_connected, failure, pure, raise, catch,
  settle, ◌>>=◌, ◌>>◌,
}
use baileys_api.Cluster.Site.{Site, Lease}
use baileys_api.Cluster.LeaseStore.{get_lease, force_acquire_lease, release_lease}
use baileys_api.Cluster.InstanceRegistry.{is_worker, live_owner_elsewhere}
use baileys_api.Cluster.QuarantineStore.{clear_quarantine}
use baileys_api.Cluster.SendStallStore.{clear_send_stall}
use State.{Options, Coordinator, Node, Handler, Sessions, update, contains, is_epoch}

abbrev pub held_epoch : {H : Type 0} → String → Node H → Option ℕ
held_epoch phone n = n.coordinator.held_lease_epochs phone

module _ {r : Redis} {H : Type 0} where
  abbrev pub edit : (Coordinator → Coordinator) → Exec r (Node H) (Unit {0})
  edit f = Exec.modify (λ n. record n { coordinator = f n.coordinator })

  -- `void registry.publishOwnershipChanged(phoneNumber)`
  abbrev pub announce : String → Exec r (Node H) (Unit {0})
  announce phone = edit (λ c. record c { announced = phone ∷ c.announced })

abbrev pub hold : String → ℕ → ℕ → Coordinator → Coordinator
hold phone epoch now c = record c {
  held_lease_epochs = update c.held_lease_epochs phone (some epoch);
  claimed_at = update c.claimed_at phone (some now);
}

abbrev pub forget : String → Coordinator → Coordinator
forget phone c = record c {
  held_lease_epochs = update c.held_lease_epochs phone none;
  claimed_at = update c.claimed_at phone none;
}

abbrev pub forget_epoch : String → ℕ → Coordinator → Coordinator
forget_epoch phone epoch c =
    if is_epoch (c.held_lease_epochs phone) epoch then forget phone c else c

abbrev pub ignore : {r : Redis} {L : Type 0} {A : Type 0} → Exec r L A → Exec r L (Unit {0})
ignore m = catch (m >> pure tt) (λ e. pure tt)

module _ {r : Redis} {H : Type 0} (env : Env r (Node H)) (site : Site) where
  -- The worker-role guard: an error where another live instance owns the phone.
  unfoldable pub refuse_owned_elsewhere : String → Exec r (Node H) (Unit {0})
  refuse_owned_elsewhere phone_number = do
    lease ← get_lease env site phone_number
    owner ← live_owner_elsewhere env site lease
    elim owner [ none ↦ pure tt | some id ↦ raise (owned_elsewhere id) ]

  unfoldable pub acquire_explicit_lease : String → Exec r (Node H) ℕ
  acquire_explicit_lease phone_number = do
    if is_worker site.config.role then refuse_owned_elsewhere phone_number else pure tt
    acquired ← force_acquire_lease env site phone_number
    now ← Exec.performance_now env
    edit (hold phone_number acquired.epoch now)
    announce phone_number
    pure acquired.epoch

  unfoldable pub abandon_explicit_lease : String → ℕ → Exec r (Node H) (Unit {0})
  abandon_explicit_lease phone_number epoch = do
    edit (forget_epoch phone_number epoch)
    ignore (release_lease env site phone_number epoch)
    announce phone_number

  unfoldable pub run_under_explicit_lease :
      {T : Type 0} → String → ℕ → Exec r (Node H) T → Exec r (Node H) T
  unfolding abandon_explicit_lease
  run_under_explicit_lease phone_number epoch work =
      catch work (λ error. abandon_explicit_lease phone_number epoch >> raise error)

  unfoldable pub clear_quarantine_for_explicit_intent : String → Exec r (Node H) (Unit {0})
  clear_quarantine_for_explicit_intent phone_number =
      catch (clear_quarantine env site phone_number) (λ e. pure tt)

  -- The epoch to release, from memory or else from a lease of our own.
  abbrev pub own_epoch : Option Lease → Option ℕ
  own_epoch none = none
  own_epoch (some lease) = if lease.owner == site.instance_id then some lease.epoch else none

  abbrev pub release_read : String → Option ℕ → Exec r (Node H) (Unit {0})
  release_read phone_number none = pure tt
  release_read phone_number (some epoch) = release_lease env site phone_number epoch >> pure tt

  abbrev pub release_known : String → Option ℕ → Exec r (Node H) (Unit {0})
  release_known phone_number none = do
    lease ← get_lease env site phone_number
    release_read phone_number (own_epoch lease)
  release_known phone_number (some epoch) = release_lease env site phone_number epoch >> pure tt

  unfoldable pub release_held_lease : String → Exec r (Node H) (Unit {0})
  release_held_lease phone_number = do
    epoch ← Exec.gets (held_epoch phone_number)
    edit (forget phone_number)
    release_known phone_number epoch

  module _ (handler : Handler r H) (sessions : Sessions r H) where
    abbrev pub has_connection : String → H → Bool
    has_connection phone_number h = contains (handler.active_phone_numbers h) phone_number

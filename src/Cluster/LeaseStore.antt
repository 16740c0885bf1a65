-- ===== src/Cluster/LeaseStore.antt =====
-- src/cluster/leaseStore.ts: leases, epochs, release cooldowns and handoff tombstones in Redis.
pub mod Ownership
pub mod Claims
use baileys_api.Prelude.{
  ℕ, String, ◌≡◌, Bool, true, false, Option, none, some, ◌==◌, eqb, ◌&&◌, truthy, same_text,
  if◌then◌else◌,
}
use baileys_api.Redis.{Redis}
use baileys_api.Json.{Codec, decode}
use baileys_api.Exec.{
  Env, Exec, Result, ok, throw, redis_error, syntax_error, pure, raise, ◌>>=◌, ◌>>◌, call,
}
use baileys_api.Exec
use baileys_api.Cluster.Keys
use baileys_api.Cluster.Site.{Site, Lease}

pub data RenewResult : Type 0 where
  renewed lost missing : RenewResult

-- RENEW_SCRIPT, its replies 1, 0 and -1 read as `renewLease` does; a lease that cjson cannot read
-- ends the script with an error.
abbrev pub renew_reply : Site → Option String → Result RenewResult
renew_reply site none = ok missing
renew_reply site (some raw) = elim (site.lease_json.parse raw) [
  | none ↦ throw redis_error
  | some lease ↦ if lease.owner == site.instance_id then ok renewed else ok lost
]

abbrev pub is_renewed : Result RenewResult → Bool
is_renewed (ok renewed) = true
is_renewed _ = false

-- RELEASE_SCRIPT: true for its reply 1. Both sides of the comparison of epochs are decimal texts.
abbrev pub release_reply : Site → ℕ → Option String → Result Bool
release_reply site expected_epoch none = ok false
release_reply site expected_epoch (some raw) = elim (site.lease_json.parse raw) [
  | none ↦ throw redis_error
  | some lease ↦ ok (lease.owner == site.instance_id && eqb lease.epoch expected_epoch)
]

abbrev pub is_released : Result Bool → Bool
is_released (ok b) = b
is_released (throw e) = false

-- `JSON.parse(raw) as Lease`
abbrev pub parse_lease : {r : Redis} {L : Type 0} → Site → Option String → Exec r L (Option Lease)
parse_lease site none = pure none
parse_lease site (some raw) = elim (site.lease_json.parse raw) [
  | none ↦ raise syntax_error
  | some lease ↦ pure (some lease)
]

module _ {r : Redis} {L : Type 0} (env : Env r L) (site : Site) (phone_number : String) where
  unfoldable pub acquire_lease : Exec r L (Option Lease)
  acquire_lease = do
    epoch ← Exec.incr env (Keys.lease_epoch phone_number)
    let lease : Lease = record { owner = site.instance_id; epoch = epoch }
    result ←
        Exec.set_nx env (Keys.lease phone_number) (site.lease_json.stringify lease)
          site.config.lease_ttl_ms
    pure (if result then some lease else none)

  unfoldable pub force_acquire_lease : Exec r L Lease
  force_acquire_lease = do
    epoch ← Exec.incr env (Keys.lease_epoch phone_number)
    let lease : Lease = record { owner = site.instance_id; epoch = epoch }
    Exec.set env (Keys.lease phone_number) (site.lease_json.stringify lease)
        site.config.lease_ttl_ms
    pure lease

  unfoldable pub renew_lease : Exec r L RenewResult
  renew_lease =
      call env (λ d. renew_reply site (r.get d (Keys.lease phone_number)))
        (λ d.
          if is_renewed (renew_reply site (r.get d (Keys.lease phone_number)))
          then r.pexpire d (Keys.lease phone_number) site.config.lease_ttl_ms
          else d)

  unfoldable pub release_lease : ℕ → Exec r L Bool
  release_lease expected_epoch =
      call env (λ d. release_reply site expected_epoch (r.get d (Keys.lease phone_number)))
        (λ d.
          if is_released (release_reply site expected_epoch (r.get d (Keys.lease phone_number)))
          then r.del d (Keys.lease phone_number)
          else d)

  unfoldable pub get_lease : Exec r L (Option Lease)
  get_lease = do raw ← Exec.get env (Keys.lease phone_number); parse_lease site (truthy raw)

  unfoldable pub set_release_cooldown : Exec r L (Unit {0})
  set_release_cooldown =
      Exec.set env (Keys.cooldown phone_number) site.instance_id site.config.release_cooldown_ms

  unfoldable pub is_on_own_release_cooldown : Exec r L Bool
  is_on_own_release_cooldown = do
    value ← Exec.get env (Keys.cooldown phone_number)
    pure (same_text value site.instance_id)

  unfoldable pub set_handoff_target : String → Exec r L (Unit {0})
  set_handoff_target target_instance_id =
      Exec.set env (Keys.handoff phone_number) target_instance_id site.config.lease_ttl_ms

  unfoldable pub get_handoff_target : Exec r L (Option String)
  get_handoff_target = Exec.get env (Keys.handoff phone_number)

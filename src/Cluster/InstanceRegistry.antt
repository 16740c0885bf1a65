-- ===== src/Cluster/InstanceRegistry.antt =====
-- src/cluster/instanceRegistry.ts: the registry of live instances, and src/cluster/workerRouting.ts,
-- which decides by it whether a request landed on the wrong worker.
pub mod Routing
use baileys_api.Prelude.{
  ℕ, String, Bool, true, false, Option, none, some, List, [], ◌∷◌, ◌==◌, ◌&&◌, not, truthy,
  if◌then◌else◌,
}
use baileys_api.Redis.{Redis}
use baileys_api.Json.{decode_or_none}
use baileys_api.Exec
use baileys_api.Exec.{Env, Exec, pure, catch, ◌>>=◌, ◌>>◌}
use baileys_api.Cluster.Keys
use baileys_api.Cluster.Site.{Site, InstanceInfo, Lease, Role, standalone, worker, proxy}
use baileys_api.Cluster.LeaseStore.{get_lease}

abbrev pub is_worker : Role → Bool
is_worker worker = true
is_worker _ = false

-- One round of the loop of `listLiveInstances`: an entry that is gone or malformed is skipped.
abbrev pub add_instance : Option InstanceInfo → List InstanceInfo → List InstanceInfo
add_instance none l = l
add_instance (some info) l = info ∷ l

module _ {r : Redis} {L : Type 0} (env : Env r L) (site : Site) where
  unfoldable pub heartbeat : ℕ → Bool → Exec r L (Unit {0})
  heartbeat connection_count draining =
      let payload : InstanceInfo = record {
        instance_id = site.instance_id;
        base_url = site.worker_base_url;
        connection_count = connection_count;
        draining = draining;
        started_at = site.started_at;
      } in
      Exec.set env (Keys.instance_key site.instance_id) (site.instance_json.stringify payload)
        site.config.instance_ttl_ms

  -- `listLiveInstances` after its scan: `keys` is what the scan of the pattern returned. The reads
  -- are made one after another.
  unfoldable pub list_live_instances : List String → Exec r L (List InstanceInfo)
  list_live_instances [] = pure []
  list_live_instances (key ∷ keys) = do
    value ← Exec.get env key
    rest ← list_live_instances keys
    pure (add_instance (decode_or_none site.instance_json value) rest)

  unfoldable pub is_instance_alive : String → Exec r L Bool
  is_instance_alive id = Exec.exists env (Keys.instance_key id)

  unfoldable pub get_instance : String → Exec r L (Option InstanceInfo)
  get_instance id = do
    value ← Exec.get env (Keys.instance_key id)
    pure (decode_or_none site.instance_json value)

  unfoldable pub deregister : Exec r L (Unit {0})
  deregister = Exec.del env (Keys.instance_key site.instance_id)

  -- `lease && lease.owner !== instanceId && (await isInstanceAlive(lease.owner))`, and then the
  -- owner
  unfoldable pub live_owner_elsewhere : Option Lease → Exec r L (Option String)
  unfolding is_instance_alive
  live_owner_elsewhere none = pure none
  live_owner_elsewhere (some lease) =
      if lease.owner == site.instance_id
      then pure none
      else do alive ← is_instance_alive lease.owner; pure (if alive then some lease.owner else none)

  -- workerRouting.ts
  unfoldable pub resolve_misdirected_request : String → Exec r L (Option String)
  unfolding live_owner_elsewhere
  resolve_misdirected_request phone_number =
      if is_worker site.config.role
      then catch (do lease ← get_lease env site phone_number; live_owner_elsewhere lease)
          (λ e. pure none)
      else pure none

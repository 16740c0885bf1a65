-- ===== src/Cluster/Site.antt =====
-- What a process is started with (src/config.ts, src/cluster/identity.ts), and the values that it
-- keeps in Redis as JSON (leaseStore.ts, quarantineStore.ts, sendStallStore.ts,
-- instanceRegistry.ts).
use baileys_api.Prelude.{ℕ, String, Bool, ◌≢◌}
use baileys_api.Json.{Codec, RoundTrips}

pub data Role : Type 0 where
  standalone worker proxy : Role

-- `config.cluster`, as far as the stores and the coordinator read it.
pub record ClusterConfig : Type 0 where
  pub role : Role
  pub lease_ttl_ms : ℕ
  pub lease_renew_interval_ms : ℕ
  pub claim_interval_ms : ℕ
  pub claim_jitter_ms : ℕ
  pub reconnect_concurrency : ℕ
  pub unclaimed_grace_ms : ℕ
  pub release_cooldown_ms : ℕ
  pub rebalance_enabled : Bool
  pub rebalance_release_interval_ms : ℕ
  pub rebalance_tolerance : ℕ
  pub rebalance_idle_threshold_ms : ℕ
  pub heartbeat_interval_ms : ℕ
  pub instance_ttl_ms : ℕ
  pub shutdown_timeout_ms : ℕ
  pub quarantine_enabled : Bool
  pub quarantine_base_ms : ℕ
  pub quarantine_max_ms : ℕ

pub record Lease : Type 0 where
  pub owner : String
  pub epoch : ℕ

pub record QuarantineState : Type 0 where
  pub strikes : ℕ
  pub next_retry_at : ℕ

pub record SendStallState : Type 0 where
  pub restarts : ℕ
  pub next_restart_allowed_at : ℕ

pub record InstanceInfo : Type 0 where
  pub instance_id : String
  pub base_url : String
  pub connection_count : ℕ
  pub draining : Bool
  pub started_at : ℕ

pub record Site : Type 0 where
  pub instance_id : String
  pub incarnation_id : String
  pub worker_base_url : String
  pub started_at : ℕ
  pub config : ClusterConfig
  pub lease_json : Codec Lease
  pub quarantine_json : Codec QuarantineState
  pub send_stall_json : Codec SendStallState
  pub instance_json : Codec InstanceInfo

-- What is written is read back, and no value is written as the empty text.
pub record IsSite (site : Site) : Type 0 where
  pub lease_round : RoundTrips site.lease_json
  pub quarantine_round : RoundTrips site.quarantine_json
  pub send_stall_round : RoundTrips site.send_stall_json
  pub instance_round : RoundTrips site.instance_json
  pub lease_text : (a : Lease) → site.lease_json.stringify a ≢ ""
  pub quarantine_text : (a : QuarantineState) → site.quarantine_json.stringify a ≢ ""
  pub send_stall_text : (a : SendStallState) → site.send_stall_json.stringify a ≢ ""
  pub instance_text : (a : InstanceInfo) → site.instance_json.stringify a ≢ ""

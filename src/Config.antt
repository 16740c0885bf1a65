-- ===== src/Config.antt =====
-- src/config.ts: the numbers and switches that the process reads from its environment at start, and
-- the checks that end a start with settings that do not fit together.
pub mod Start
pub mod Checked
mod Tests
use Prim.Native.String.{◌++◌}
use baileys_api.Prelude.{
  ℕ, ◌+◌, ◌*◌, String, Bool, true, false, ◌&&◌, Option, none, some, ◌==◌, ltb, if◌then◌else◌,
}
use baileys_api.Exec.{Error, failure, Result, ok, throw}
use baileys_api.Cluster.Site.{Role, standalone, worker, proxy, ClusterConfig}

pub record BaileysConfig : Type 0 where
  pub http_timeout_ms : ℕ
  pub tx_acquire_timeout_ms : ℕ
  pub tx_hold_warn_ms : ℕ
  pub send_timeout_ms : ℕ
  pub message_secret_store_timeout_ms : ℕ
  pub send_stall_restart_enabled : Bool
  pub audio_preprocess_timeout_ms : ℕ
  pub ignore_group_messages : Bool
  pub ignore_status_messages : Bool
  pub ignore_broadcast_messages : Bool
  pub ignore_newsletter_messages : Bool
  pub ignore_bot_messages : Bool
  pub ignore_meta_ai_messages : Bool

pub record WebhookConfig : Type 0 where
  pub timeout_ms : ℕ
  pub history_frame_max_bytes : ℕ

pub record ProxyConfig : Type 0 where
  pub route_cache_ttl_ms : ℕ
  pub request_timeout_ms : ℕ
  pub max_body_bytes : ℕ

pub record Config : Type 0 where
  pub baileys : BaileysConfig
  pub webhook : WebhookConfig
  pub cluster : ClusterConfig
  pub proxy : ProxyConfig

-- AUDIO_PREPROCESS_TIMEOUT_MS
abbrev pub audio_preprocess_timeout_ms : ℕ
audio_preprocess_timeout_ms = 20000

-- A throw at the start ends the process.
infixl 5 ◌>>=◌
abbrev pub ◌>>=◌ : {A B : Type 0} → Result A → (A → Result B) → Result B
throw e >>= rest = throw e
ok value >>= rest = rest value

-- What is given or, where it is missing or empty, a default.
abbrev pub given : Option String → Option String
given none = none
given (some raw) = if raw == "" then none else some raw

unfoldable pub role_of : String → Option Role
role_of text =
    if text == "standalone"
    then some standalone
    else if text == "worker"
    then some worker
    else if text == "proxy"
    then some proxy
    else none

-- `env` is process.env, and `number` says where Number(raw) is an integer that is not negative.
module _ (env : String → Option String) (number : String → Option ℕ) where
  -- The text of the error leaves out the minimum.
  abbrev pub refused : String → String → Error
  refused name raw = failure (name ++ (" must be an integer, got \"" ++ (raw ++ "\"")))

  abbrev pub bounded : String → ℕ → String → Option ℕ → Result ℕ
  bounded name min raw none = throw (refused name raw)
  bounded name min raw (some value) = if ltb value min then throw (refused name raw) else ok value

  unfoldable pub int_from_env : String → ℕ → ℕ → Result ℕ
  int_from_env name fallback min = elim (given (env name)) [
    | none ↦ ok fallback
    | some raw ↦ bounded name min raw (number raw)
  ]

  unfoldable pub bool_from_env : String → Bool → Result Bool
  bool_from_env name fallback = elim (given (env name)) [
    | none ↦ ok fallback
    | some raw ↦
        if raw == "true"
        then ok true
        else if raw == "false"
        then ok false
        else throw (failure (name ++ (" must be \"true\" or \"false\", got \"" ++ (raw ++ "\""))))
  ]

  -- `X ? X === "true" : fallback`
  unfoldable pub is_on : String → Bool → Bool
  is_on name fallback = elim (given (env name)) [ none ↦ fallback | some raw ↦ raw == "true" ]

  unfoldable pub read_baileys : Result BaileysConfig
  unfolding int_from_env bool_from_env is_on
  read_baileys = do
    http_timeout_ms ← int_from_env "BAILEYS_HTTP_TIMEOUT_MS" 120000 1
    tx_acquire_timeout_ms ← int_from_env "BAILEYS_TX_ACQUIRE_TIMEOUT_MS" 300000 0
    tx_hold_warn_ms ← int_from_env "BAILEYS_TX_HOLD_WARN_MS" 30000 0
    send_timeout_ms ← int_from_env "BAILEYS_SEND_TIMEOUT_MS" 45000 1
    message_secret_store_timeout_ms ← int_from_env "BAILEYS_MESSAGE_SECRET_STORE_TIMEOUT_MS" 5000 1
    send_stall_restart_enabled ← bool_from_env "BAILEYS_SEND_STALL_RESTART_ENABLED" false
    ok (record {
      http_timeout_ms = http_timeout_ms;
      tx_acquire_timeout_ms = tx_acquire_timeout_ms;
      tx_hold_warn_ms = tx_hold_warn_ms;
      send_timeout_ms = send_timeout_ms;
      message_secret_store_timeout_ms = message_secret_store_timeout_ms;
      send_stall_restart_enabled = send_stall_restart_enabled;
      audio_preprocess_timeout_ms = audio_preprocess_timeout_ms;
      ignore_group_messages = is_on "IGNORE_GROUP_MESSAGES" false;
      ignore_status_messages = is_on "IGNORE_STATUS_MESSAGES" true;
      ignore_broadcast_messages = is_on "IGNORE_BROADCAST_MESSAGES" true;
      ignore_newsletter_messages = is_on "IGNORE_NEWSLETTER_MESSAGES" true;
      ignore_bot_messages = is_on "IGNORE_BOT_MESSAGES" true;
      ignore_meta_ai_messages = is_on "IGNORE_META_AI_MESSAGES" true;
    })

  unfoldable pub read_webhook : Result WebhookConfig
  unfolding int_from_env
  read_webhook = do
    timeout_ms ← int_from_env "WEBHOOK_TIMEOUT_MS" 60000 1
    history_frame_max_bytes ← int_from_env "WEBHOOK_HISTORY_FRAME_MAX_BYTES" (512 * 1024) 1024
    ok (record { timeout_ms = timeout_ms; history_frame_max_bytes = history_frame_max_bytes })

  -- All of `config.cluster` but for its role, which is checked later.
  unfoldable pub read_cluster : Result (Role → ClusterConfig)
  unfolding int_from_env bool_from_env
  read_cluster = do
    lease_ttl_ms ← int_from_env "CLUSTER_LEASE_TTL_MS" 30000 1
    lease_renew_interval_ms ← int_from_env "CLUSTER_LEASE_RENEW_INTERVAL_MS" 10000 1
    claim_interval_ms ← int_from_env "CLUSTER_CLAIM_INTERVAL_MS" 5000 1
    claim_jitter_ms ← int_from_env "CLUSTER_CLAIM_JITTER_MS" 2000 0
    reconnect_concurrency ← int_from_env "CLUSTER_RECONNECT_CONCURRENCY" 5 1
    unclaimed_grace_ms ← int_from_env "CLUSTER_UNCLAIMED_GRACE_MS" 30000 0
    release_cooldown_ms ← int_from_env "CLUSTER_RELEASE_COOLDOWN_MS" 60000 0
    rebalance_enabled ← bool_from_env "CLUSTER_REBALANCE_ENABLED" true
    rebalance_release_interval_ms ← int_from_env "CLUSTER_REBALANCE_RELEASE_INTERVAL_MS" 10000 1
    rebalance_tolerance ← int_from_env "CLUSTER_REBALANCE_TOLERANCE" 1 0
    rebalance_idle_threshold_ms ← int_from_env "CLUSTER_REBALANCE_IDLE_THRESHOLD_MS" 300000 0
    heartbeat_interval_ms ← int_from_env "CLUSTER_HEARTBEAT_INTERVAL_MS" 5000 1
    instance_ttl_ms ← int_from_env "CLUSTER_INSTANCE_TTL_MS" 15000 1
    shutdown_timeout_ms ← int_from_env "CLUSTER_SHUTDOWN_TIMEOUT_MS" 30000 0
    quarantine_enabled ← bool_from_env "CLUSTER_QUARANTINE_ENABLED" true
    quarantine_base_ms ← int_from_env "CLUSTER_QUARANTINE_BASE_MS" 60000 1
    quarantine_max_ms ← int_from_env "CLUSTER_QUARANTINE_MAX_MS" 3600000 1
    ok (λ role. record {
      role = role;
      lease_ttl_ms = lease_ttl_ms;
      lease_renew_interval_ms = lease_renew_interval_ms;
      claim_interval_ms = claim_interval_ms;
      claim_jitter_ms = claim_jitter_ms;
      reconnect_concurrency = reconnect_concurrency;
      unclaimed_grace_ms = unclaimed_grace_ms;
      release_cooldown_ms = release_cooldown_ms;
      rebalance_enabled = rebalance_enabled;
      rebalance_release_interval_ms = rebalance_release_interval_ms;
      rebalance_tolerance = rebalance_tolerance;
      rebalance_idle_threshold_ms = rebalance_idle_threshold_ms;
      heartbeat_interval_ms = heartbeat_interval_ms;
      instance_ttl_ms = instance_ttl_ms;
      shutdown_timeout_ms = shutdown_timeout_ms;
      quarantine_enabled = quarantine_enabled;
      quarantine_base_ms = quarantine_base_ms;
      quarantine_max_ms = quarantine_max_ms;
    })

  unfoldable pub read_proxy : Result ProxyConfig
  unfolding int_from_env
  read_proxy = do
    route_cache_ttl_ms ← int_from_env "PROXY_ROUTE_CACHE_TTL_MS" 5000 1
    request_timeout_ms ← int_from_env "PROXY_REQUEST_TIMEOUT_MS" 75000 1
    max_body_bytes ← int_from_env "PROXY_MAX_BODY_BYTES" (64 * 1024 * 1024) 1
    ok (record {
      route_cache_ttl_ms = route_cache_ttl_ms;
      request_timeout_ms = request_timeout_ms;
      max_body_bytes = max_body_bytes;
    })

  abbrev pub role_text : String
  role_text = elim (given (env "ROLE")) [ none ↦ "standalone" | some text ↦ text ]
